-- ===== src/Session.antt =====
-- `main` of p3/main.c with avl_open of p3/avl.c: the command line, the opening of the word tree in its file, and
-- the shell. The calls of p3/scm.h are a parameter, and what they write into the file is not modelled.
pub mod Order
pub mod Runs
pub mod Tests
use operating_systems_cs.Common.{
  ℕ, suc, Bool, true, false, not, ◌==◌, ◌&&◌, if◌then◌else◌, Option, none, some, Ordering, List, [],
  ◌∷◌, length, replicate,
}
use operating_systems_cs.Common.Text.{CString, strcmp}
use operating_systems_cs.Avl.{Scm, Node, null, Avl}
use operating_systems_cs.Editor.{History}
use operating_systems_cs.Commands.{World}
use operating_systems_cs.Console.{Left, shell}

-- `--truncate`, `--nocolor` and `--help`.
abbrev pub truncate_word : CString
truncate_word = 45 ∷ 45 ∷ 116 ∷ 114 ∷ 117 ∷ 110 ∷ 99 ∷ 97 ∷ 116 ∷ 101 ∷ []

abbrev pub nocolor_word : CString
nocolor_word = 45 ∷ 45 ∷ 110 ∷ 111 ∷ 99 ∷ 111 ∷ 108 ∷ 111 ∷ 114 ∷ []

abbrev pub help_word : CString
help_word = 45 ∷ 45 ∷ 104 ∷ 101 ∷ 108 ∷ 112 ∷ []

-- The variables of the loop over the arguments.
pub record Flags : Type 0 where
  pub pathname : Option CString
  pub truncate : Bool
  pub nocolor : Bool

abbrev pub no_flags : Flags
no_flags = record { pathname = none; truncate = false; nocolor = false }

-- How the loop ends: at the end of the arguments, at the one for help, or at an invalid one.
pub data Parsed : Type 0 where
  parsed : Flags → Parsed
  helped : Parsed
  invalid : CString → Parsed

unfoldable pub same_text : CString → CString → Bool
same_text a b = elim (strcmp a b) [ Ordering.eq ↦ true | _ ↦ false ]

-- The branch that takes an argument: it changes the flags, or ends the loop with the help or the complaint.
pub data Branch : Type 0 where
  changes : Flags → Branch
  asks : Branch
  refuses : CString → Branch

unfoldable pub starts_dash : CString → Bool
starts_dash [] = false
starts_dash (c ∷ s) = c == 45

unfoldable pub is_null_path : Option CString → Bool
is_null_path none = true
is_null_path (some s) = false

unfoldable pub branch : CString → Flags → Branch
branch a o =
    if same_text a truncate_word && not o.truncate
    then changes (record o { truncate = true })
    else if same_text a nocolor_word && not o.nocolor
    then changes (record o { nocolor = true })
    else if same_text a help_word
    then asks
    else if not (starts_dash a) && is_null_path o.pathname
    then changes (record o { pathname = some a })
    else refuses a

unfoldable pub parse_args : List CString → Flags → Parsed
parse_args [] o = parsed o
parse_args (a ∷ rest) o = elim (branch a o) [
  | changes o' ↦ parse_args rest o'
  | asks ↦ helped
  | refuses b ↦ invalid b
]

-- The files at the start: the region that `scm_open` gives for a name, with or without its old content, and the
-- `struct state` at `scm_mbase`.
pub record Files (scm : Scm) : Type 0 where
  pub scm_open : CString → Bool → Option scm.Region
  pub scm_mbase : scm.Region → ℕ × (ℕ × Node)

-- `sizeof (struct state)`.
abbrev pub sizeof_state : ℕ
sizeof_state = 24

abbrev pub new_history : History
new_history = record { n = 0; history = replicate 96 [] }

-- How `main` ends: with 0 at the help that was asked for, with -1 at the usage, at an invalid argument or without
-- a tree, or behind the shell.
pub data Ended (scm : Scm) : Type 0 where
  helps : Ended scm
  usage : Ended scm
  complains : CString → Ended scm
  no_tree : Ended scm
  ran : Left scm → Ended scm

module _ {scm : Scm} (world : World scm) (files : Files scm) where
  unfoldable pub old_tree : scm.Region → Avl scm
  old_tree region = record {
    items = (files.scm_mbase region).0;
    unique = (files.scm_mbase region).1.0;
    root = (files.scm_mbase region).1.1;
    region = region;
  }

  unfoldable pub new_tree : Bool × scm.Region → Option (Avl scm)
  new_tree (true, region) = some (record { items = 0; unique = 0; root = null; region = region })
  new_tree (false, region) = none

  -- The rest of `avl_open` behind `scm_open`.
  unfoldable pub open_region : scm.Region → Option (Avl scm)
  open_region region =
      if world.utilized region == 0
      then new_tree (scm.scm_malloc region sizeof_state)
      else some (old_tree region)

  unfoldable pub avl_open : Bool → CString → Bool → Option (Avl scm)
  avl_open false pathname truncate = none
  avl_open true pathname truncate = elim (files.scm_open pathname truncate) [
    | none ↦ none
    | some region ↦ open_region region
  ]

  -- The shell on a tree, with a round for each byte and one more.
  unfoldable pub run_shell : List ℕ → Avl scm → Ended scm
  run_shell keys avl = ran (shell scm world (suc (length keys)) new_history avl [] keys)

  unfoldable pub start : Bool → List ℕ → Flags → Ended scm
  start memory keys o = elim o.pathname [
    | none ↦ usage
    | some pathname ↦
        if length pathname == 0 then usage else elim (avl_open memory pathname o.truncate) [
          | none ↦ no_tree
          | some avl ↦ run_shell keys avl
        ]
  ]

  unfoldable pub main : Bool → List CString → List ℕ → Ended scm
  main memory args keys = elim (parse_args args no_flags) [
    | parsed o ↦ start memory keys o
    | helped ↦ helps
    | invalid a ↦ complains a
  ]
