-- ===== src/Commands.antt =====
-- The commands of p3/main.c on the word tree, and `shell_fnc`, which runs the command of a line. What the
-- commands print is a list of messages. The files and the size of the region are parameters.
use operating_systems_cs.Common.{
  ℕ, zero, suc, ◌+◌, Bool, true, false, if◌then◌else◌, ◌==◌, ◌&&◌, ◌||◌, not, Option, none, some,
  ◌>>=◌, List, [], ◌∷◌, ◌++◌, map, length,
}
use operating_systems_cs.Common.Text.{CString, advance}
use operating_systems_cs.Avl.{Scm, Avl, avl_insert, avl_exists, avl_traverse, avl_items, avl_unique}
use operating_systems_cs.Shell.{shell_strtrim}
pub mod Valid
pub mod Dispatch
pub mod Tests

-- What is printed.
pub data Message : Type 0 where
  does_not_exist : CString → Message
  times_exists : CString → ℕ → Message
  insert_failed : CString → Message
  open_failed : CString → Message
  load_failed : CString → Message
  times : CString → ℕ → Message
  counters : ℕ → ℕ → ℕ → ℕ → Message
  menu : Message
  bad_command : CString → Message
  missing_argument : Message

-- The files by their names, as the strings that `fgets` reads from them, and the two sizes that
-- `avl_scm_utilized` and `avl_scm_capacity` ask of the region.
pub record World (scm : Scm) : Type 0 where
  pub lines : CString → Option (List CString)
  pub utilized : scm.Region → ℕ
  pub capacity : scm.Region → ℕ

-- What a command leaves: the tree, the messages, and whether it returned 1.
pub record Ran (scm : Scm) : Type 0 where
  pub avl : Avl scm
  pub said : List Message
  pub leaves : Bool

-- The functions in `CMDS`.
pub data Fnc : Type 0 where
  quit help info list load insert exists : Fnc

-- A row of `CMDS`; `argc` is 0 or 1.
pub record Cmd : Type 0 where
  pub argc : Bool
  pub face : CString
  pub fnc : Fnc

abbrev pub cmds : List Cmd
cmds =
    record { argc = false; face = 113 ∷ 117 ∷ 105 ∷ 116 ∷ []; fnc = quit }
    ∷ record { argc = false; face = 104 ∷ 101 ∷ 108 ∷ 112 ∷ []; fnc = help }
    ∷ record { argc = false; face = 105 ∷ 110 ∷ 102 ∷ 111 ∷ []; fnc = info }
    ∷ record { argc = false; face = 108 ∷ 105 ∷ 115 ∷ 116 ∷ []; fnc = list }
    ∷ record { argc = true; face = 108 ∷ 111 ∷ 97 ∷ 100 ∷ []; fnc = load }
    ∷ record { argc = true; face = 105 ∷ 110 ∷ 115 ∷ 101 ∷ 114 ∷ 116 ∷ []; fnc = insert }
    ∷ record { argc = true; face = 101 ∷ 120 ∷ 105 ∷ 115 ∷ 116 ∷ 115 ∷ []; fnc = exists }
    ∷ []

-- `!strncmp(s, t, n)`.
pub same_start : ℕ → CString → CString → Bool
same_start zero s t = true
same_start (suc n) [] [] = true
same_start (suc n) [] (b ∷ t) = false
same_start (suc n) (a ∷ s) [] = false
same_start (suc n) (a ∷ s) (b ∷ t) = (a == b) && same_start n s t

module _ (scm : Scm) where
  -- The loop of `load` over what `fgets` reads.
  pub load_words : Avl scm → List CString → Option (Ran scm)
  load_words avl [] = some (record { avl = avl; said = []; leaves = false })
  load_words avl (line ∷ lines) =
      let word = shell_strtrim line in
      elim (length word == 0) [
        | true ↦ load_words avl lines
        | false ↦ elim (avl_insert scm avl word) [
          | none ↦ none
          | some r ↦ elim r.0 [
            | true ↦ load_words r.1 lines
            | false ↦ some (record { avl = r.1; said = load_failed word ∷ []; leaves = false })
          ]
        ]
      ]

  module _ (world : World scm) (avl : Avl scm) where
    pub run : Fnc → CString → Option (Ran scm)
    run quit s = some (record { avl = avl; said = []; leaves = true })
    run help s = some (record { avl = avl; said = menu ∷ []; leaves = false })
    run info s = some (record {
      avl = avl;
      said =
          counters (avl_items avl) (avl_unique avl) (world.utilized avl.region)
            (world.capacity avl.region)
          ∷ [];
      leaves = false;
    })
    run list s = some (record {
      avl = avl;
      said = map (λ (e : CString × ℕ). times e.0 e.1) (avl_traverse avl);
      leaves = false;
    })
    run load s = elim (world.lines s) [
      | none ↦ some (record { avl = avl; said = open_failed s ∷ []; leaves = false })
      | some lines ↦ load_words avl lines
    ]
    run insert s = elim (avl_insert scm avl s) [
      | none ↦ none
      | some r ↦
          some
            (record { avl = r.1; said = if r.0 then [] else insert_failed s ∷ []; leaves = false })
    ]
    run exists s =
        let count = avl_exists avl s in
        some (record {
          avl = avl;
          said = (if count == 0 then does_not_exist s else times_exists s count) ∷ [];
          leaves = false;
        })

    -- The message behind the loop.
    pub complain : CString → Option (Ran scm)
    complain s = some (record {
      avl = avl;
      said = (if length s == 0 then missing_argument else bad_command s) ∷ [];
      leaves = false;
    })

    -- The loop over the rows. The second component is the text that `s` points to at the end, in the buffer of
    -- the caller: behind the name of the command it has been trimmed.
    pub try_cmds : List Cmd → CString → Option (Ran scm) × CString
    try_cmds [] s = (complain s, s)
    try_cmds (c ∷ rest) s =
        if same_start (length c.face) c.face s
        then (let arg = shell_strtrim (advance (length c.face) s) in
            (
              if (c.argc && (length arg == 0)) || (not c.argc && not (length arg == 0))
                  then complain arg
                  else run c.fnc arg,
              c.face ++ arg,
            ))
        else try_cmds rest s

    pub shell_fnc : CString → Option (Ran scm) × CString
    shell_fnc s = try_cmds cmds s
