-- ===== src/Jit/Whole.antt =====
-- From the command line of p1 to the printed number.
use operating_systems_cs.Common.{ℕ, Bool, true, false, none, some, ◌≡◌, ◌⊎◌}
use operating_systems_cs.Common.Text.{CString}
use operating_systems_cs.Parser.{Dag}
use operating_systems_cs.Codegen.{Double, Program, evaluate, sigmoid, value_of}
use operating_systems_cs.Compile.{refused, parser_open}
use operating_systems_cs.Compile.Correct.{Compiled, Wronged}
use operating_systems_cs.Jit.{
  Platform, so_file, c_file, evaluate_name, is_zero, jitc_compile, Result, shows, gave_up, faults,
}

module _ {D : Type 0} (double : Double D) (platform : Platform D) where
  -- The C compiler and the linker: where gcc ends with 0 on the file of a program, the function `evaluate` of
  -- the object computes what the program does.
  pub record IsToolchain : Type 0 where
    pub compiles :
        (w written : platform.World) (program : Program D) (h f : ℕ)
        → platform.write_file w c_file program ≡ some written
        → is_zero (jitc_compile platform written c_file so_file).0 ≡ true
        → platform.dlopen (jitc_compile platform written c_file so_file).1 so_file ≡ some h
        → platform.dlsym (jitc_compile platform written c_file so_file).1 h evaluate_name ≡ some f
        → evaluate double program
          ≡ some (platform.call (jitc_compile platform written c_file so_file).1 f)

  -- A call of the operating system or of the linker fails on the way to the value of a program.
  pub data Failure (memory : Bool) (w : platform.World) (program : Program D) : Type 0 where
    no_file : platform.write_file w c_file program ≡ none → Failure memory w program
    no_object :
        (written : platform.World)
        → platform.write_file w c_file program ≡ some written
        → is_zero (jitc_compile platform written c_file so_file).0 ≡ false
        → Failure memory w program
    no_memory : memory ≡ false → Failure memory w program
    no_symbol :
        (written : platform.World) (h : ℕ)
        → platform.write_file w c_file program ≡ some written
        → platform.dlopen (jitc_compile platform written c_file so_file).1 so_file ≡ some h
        → platform.dlsym (jitc_compile platform written c_file so_file).1 h evaluate_name ≡ none
        → Failure memory w program

  -- There is an object, but it cannot be opened.
  pub record Unopened (w : platform.World) (program : Program D) : Type 0 where
    pub written : platform.World
    pub wrote : platform.write_file w c_file program ≡ some written
    pub made : is_zero (jitc_compile platform written c_file so_file).0 ≡ true
    pub closed : platform.dlopen (jitc_compile platform written c_file so_file).1 so_file ≡ none

  module _ (strtod : CString → D × ℕ) (room alloc : ℕ → Bool) (memory : Bool)
      (w : platform.World) where
    -- What each end of `main` tells about the text of the expression.
    pub Answered : CString → Result D platform.World → Type 0
    Answered s (shows x w') =
        (d : Dag D) × Compiled double strtod s d × (x ≡ sigmoid double (value_of double d))
    Answered s gave_up =
        (parser_open strtod room alloc double.zero_val s ≡ refused)
          × ¬ Wronged double strtod room alloc s
        ⊎ ((d : Dag D) × (c : Compiled double strtod s d) × Failure memory w c.program)
    Answered s faults = (d : Dag D) × (c : Compiled double strtod s d) × Unopened w c.program

    module _ (toolchain : IsToolchain) (s : CString) (d : Dag D)
        (compiled : Compiled double strtod s d) where
      module _ (written : platform.World)
          (wrote : platform.write_file w c_file compiled.program ≡ some written) where
        abbrev built : platform.World
        built = (jitc_compile platform written c_file so_file).1
