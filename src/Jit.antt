-- ===== src/Jit.antt =====
-- p1/jitc.c, which runs gcc and loads what it built, and `main` of p1/main.c, which joins the parser, the
-- generator and the loader. The calls of the operating system and of the dynamic linker are a parameter.
pub mod Whole
pub mod Tests
use operating_systems_cs.Common.{
  ℕ, ◌%◌, Bool, true, false, if◌then◌else◌, ◌==◌, Option, none, some, List, [], ◌∷◌, ◌++◌,
}
use operating_systems_cs.Common.Text.{CString}
use operating_systems_cs.Parser.{Dag}
use operating_systems_cs.Codegen.{Program, generate}
use operating_systems_cs.Compile.{Opened, opened, refused, stuck}

-- How a process ends: by its exit status, or by a signal.
pub data Waited : Type 0 where
  exited : ℕ → Waited
  signalled : Waited

-- The operating system and the linker, on the state of the files: `fopen` with the text that is written and
-- `fclose`, whether `fork` and `waitpid` succeed, how the program of `execv` ends if it can be run,
-- `dlopen`, `dlsym`, a call of the function at an address, and `unlink`.
pub record Platform (D : Type 0) : Type 1 where
  pub World : Type 0
  pub write_file : World → CString → Program D → Option World
  pub fork : World → Bool
  pub execv : World → CString → List CString → Option Waited × World
  pub waitpid : World → Bool
  pub dlopen : World → CString → Option ℕ
  pub dlsym : World → ℕ → CString → Option ℕ
  pub call : World → ℕ → D
  pub unlink : World → CString → World

-- `lexer.o`, `jitc.o`, `parser.o`, `system.o` and `main.o`.
abbrev objects : List CString
objects =
    (108 ∷ 101 ∷ 120 ∷ 101 ∷ 114 ∷ 46 ∷ 111 ∷ [])
    ∷ (106 ∷ 105 ∷ 116 ∷ 99 ∷ 46 ∷ 111 ∷ [])
    ∷ (112 ∷ 97 ∷ 114 ∷ 115 ∷ 101 ∷ 114 ∷ 46 ∷ 111 ∷ [])
    ∷ (115 ∷ 121 ∷ 115 ∷ 116 ∷ 101 ∷ 109 ∷ 46 ∷ 111 ∷ [])
    ∷ (109 ∷ 97 ∷ 105 ∷ 110 ∷ 46 ∷ 111 ∷ [])
    ∷ []

-- `/usr/bin/gcc`
abbrev pub gcc_path : CString
gcc_path = 47 ∷ 117 ∷ 115 ∷ 114 ∷ 47 ∷ 98 ∷ 105 ∷ 110 ∷ 47 ∷ 103 ∷ 99 ∷ 99 ∷ []

-- `gcc`, the objects, the input, `-o3`, `-fPIC`, `-shared`, `-o`, the output and `-lm`.
abbrev pub command : CString → CString → List CString
command input output =
    (103 ∷ 99 ∷ 99 ∷ [])
    ∷ (objects
        ++ (input
            ∷ (45 ∷ 111 ∷ 51 ∷ [])
            ∷ (45 ∷ 102 ∷ 80 ∷ 73 ∷ 67 ∷ [])
            ∷ (45 ∷ 115 ∷ 104 ∷ 97 ∷ 114 ∷ 101 ∷ 100 ∷ [])
            ∷ (45 ∷ 111 ∷ [])
            ∷ output
            ∷ (45 ∷ 108 ∷ 109 ∷ [])
            ∷ []))

-- `SOFILE`, `CFILE` and `evaluate`.
abbrev pub so_file : CString
so_file =
    47 ∷ 104 ∷ 111 ∷ 109 ∷ 101 ∷ 47 ∷ 109 ∷ 97 ∷ 110 ∷ 100 ∷ 97 ∷ 114 ∷ 47 ∷ 112 ∷ 114 ∷ 111 ∷ 106
    ∷ 101 ∷ 99 ∷ 116 ∷ 115 ∷ 47 ∷ 112 ∷ 49 ∷ 47 ∷ 111 ∷ 117 ∷ 116 ∷ 46 ∷ 115 ∷ 111 ∷ []

abbrev pub c_file : CString
c_file =
    47 ∷ 104 ∷ 111 ∷ 109 ∷ 101 ∷ 47 ∷ 109 ∷ 97 ∷ 110 ∷ 100 ∷ 97 ∷ 114 ∷ 47 ∷ 112 ∷ 114 ∷ 111 ∷ 106
    ∷ 101 ∷ 99 ∷ 116 ∷ 115 ∷ 47 ∷ 112 ∷ 49 ∷ 47 ∷ 111 ∷ 117 ∷ 116 ∷ 46 ∷ 99 ∷ []

abbrev pub evaluate_name : CString
evaluate_name = 101 ∷ 118 ∷ 97 ∷ 108 ∷ 117 ∷ 97 ∷ 116 ∷ 101 ∷ []

-- The pointer of `jitc_open`: null, to a struct with a handle, or to freed memory.
pub data Jitc : Type 0 where
  null_jitc : Jitc
  live : ℕ → Jitc
  freed : Jitc

unfoldable pub status_of : Waited → Option ℕ
status_of (exited n) = some (n % 256)
status_of signalled = none

-- A child that cannot run gcc exits with 1.
unfoldable pub ended : Option Waited → Waited
ended none = exited 1
ended (some w) = w

unfoldable pub is_zero : Option ℕ → Bool
is_zero none = false
is_zero (some n) = n == 0

module _ {D : Type 0} (platform : Platform D) where
  -- The returned status, `none` for -1.
  unfoldable pub jitc_compile : platform.World → CString → CString → Option ℕ × platform.World
  jitc_compile w input output =
      let r = platform.execv w gcc_path (command input output) in
      if platform.fork w
      then (if platform.waitpid r.1 then status_of (ended r.0) else none, r.1)
      else (none, w)

  unfoldable pub jitc_open : Bool → platform.World → CString → Jitc
  jitc_open false w pathname = null_jitc
  jitc_open true w pathname = elim (platform.dlopen w pathname) [ none ↦ freed | some h ↦ live h ]

  -- The address, or null; `none` where freed memory is read.
  unfoldable pub jitc_lookup : platform.World → Jitc → CString → Option (Option ℕ)
  jitc_lookup w null_jitc symbol = some none
  jitc_lookup w (live h) symbol = some (platform.dlsym w h symbol)
  jitc_lookup w freed symbol = none

-- The handle that is closed, if any; `none` where freed memory is read.
unfoldable pub jitc_close : Jitc → Option (Option ℕ)
jitc_close null_jitc = some none
jitc_close (live h) = some (some h)
jitc_close freed = none

-- How `main` ends: it prints a value and returns 0, it returns -1, or it reads freed memory or follows a
-- null pointer.
pub data Result (D World : Type 0) : Type 0 where
  shows : D → World → Result D World
  gave_up : Result D World
  faults : Result D World

module _ {D : Type 0} (platform : Platform D) (memory : Bool) where
  -- Behind a lookup that gave an address or null.
  unfoldable pub run_found : platform.World → Jitc → Option ℕ → Result D platform.World
  run_found w jitc none = elim (jitc_close jitc) [ none ↦ faults | some h ↦ gave_up ]
  run_found w jitc (some f) = elim (jitc_close jitc) [
    | none ↦ faults
    | some h ↦ shows (platform.call w f) (platform.unlink w so_file)
  ]

  -- The lookup and what follows, with a pointer that is not null.
  unfoldable pub run_object : platform.World → Jitc → Result D platform.World
  run_object w jitc = elim (jitc_lookup platform w jitc evaluate_name) [
    | none ↦ faults
    | some found ↦ run_found w jitc found
  ]

  -- The dynamic load and what follows.
  unfoldable pub load : platform.World → Jitc → Result D platform.World
  load w null_jitc = gave_up
  load w (live h) = run_object w (live h)
  load w freed = run_object w freed

  -- The compilation of the file and what follows.
  unfoldable pub build : platform.World → Result D platform.World
  build w =
      let r = jitc_compile platform w c_file so_file in
      if is_zero r.0 then load r.1 (jitc_open platform memory r.1 so_file) else gave_up

  -- The generated file and what follows.
  unfoldable pub write : platform.World → Option (Program D) → Result D platform.World
  write w none = faults
  write w (some program) = elim (platform.write_file w c_file program) [
    | none ↦ gave_up
    | some w' ↦ build w'
  ]

  -- `main` behind `parser_open`.
  unfoldable pub main : platform.World → Opened D → Result D platform.World
  main w (opened dag) = write w (generate dag)
  main w refused = gave_up
  main w stuck = faults
