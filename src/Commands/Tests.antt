-- ===== src/Commands/Tests.antt =====
-- The commands of p3/main.c on a word tree in a region that always has room.
use operating_systems_cs.Common.{
  true, false, if◌then◌else◌, none, some, List, [], ◌∷◌, ◌==◌, ◌≡◌, refl,
}
use operating_systems_cs.Common.Text.{CString, isspace, advance, first_bytes}
use operating_systems_cs.Shell.{skip_front, skip_back, shell_strtrim}
use operating_systems_cs.Avl.{Scm, null, Avl, avl_traverse}
use operating_systems_cs.Avl.Insert.{has_room}
use operating_systems_cs.Avl.Words.{IsValid, empty-IsValid}
use operating_systems_cs.Commands.{
  World, missing_argument, cmds, same_start, load_words, complain, try_cmds, shell_fnc,
}
use operating_systems_cs.Commands.Valid.{Ends, shell_fnc-Ends, Loads, tally_lines, load_words-Loads}
use operating_systems_cs.Commands.Dispatch.{Answered, shell_fnc-Answered}

abbrev ample : Scm
ample = record { Region = Unit; scm_malloc = λ r n. (true, r); scm_strdup = λ r s. (true, r) }

abbrev no_words : Avl ample
no_words = record { items = 0; unique = 0; root = null; region = tt }

no_words-IsValid : IsValid no_words
no_words-IsValid = empty-IsValid tt

-- The lines ` b`, a blank one and `a`.
abbrev some_lines : List CString
some_lines = (32 ∷ 98 ∷ 10 ∷ []) ∷ (10 ∷ []) ∷ (97 ∷ 10 ∷ []) ∷ []

-- A single file, whose name is `f`.
abbrev some_world : World ample
some_world = record {
  lines = λ name. elim name [ [] ↦ none | c ∷ rest ↦ if c == 102 then some some_lines else none ];
  utilized = λ r. 0;
  capacity = λ r. 0;
}

-- `load  f`
abbrev load_line : CString
load_line = 108 ∷ 111 ∷ 97 ∷ 100 ∷ 32 ∷ 32 ∷ 102 ∷ []

ample-room : (avl : Avl ample) (item : CString) → has_room avl item ≡ true
unfolding has_room
ample-room avl item = refl

shell_fnc-Ends_example : Ends ample (shell_fnc ample some_world no_words load_line).0
shell_fnc-Ends_example = shell_fnc-Ends ample some_world no_words no_words-IsValid load_line

load_words-Loads_example :
    Loads ample ample-room
      (tally_lines some_lines (avl_traverse no_words))
      (load_words ample no_words some_lines)
load_words-Loads_example = load_words-Loads ample ample-room no_words some_lines no_words-IsValid

shell_fnc-Answered_example :
    Answered ample some_world no_words cmds load_line
      (shell_fnc ample some_world no_words load_line)
shell_fnc-Answered_example = shell_fnc-Answered ample some_world no_words load_line

-- `insert` with nothing but blanks behind it, and `help`.
insert_blank : shell_fnc ample some_world no_words (105 ∷ 110 ∷ 115 ∷ 101 ∷ 114 ∷ 116 ∷ 32 ∷ []) ≡ (
  some (record { avl = no_words; said = missing_argument ∷ []; leaves = false }),
  105 ∷ 110 ∷ 115 ∷ 101 ∷ 114 ∷ 116 ∷ [],
)
unfolding shell_fnc try_cmds same_start shell_strtrim skip_front skip_back isspace advance
    first_bytes complain
insert_blank = refl
