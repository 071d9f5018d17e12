-- ===== src/Console/Tests.antt =====
-- A run of the shell of p3 on an empty word tree in a region that always has room.
use operating_systems_cs.Common.{
  ℕ, zero, suc, true, none, List, [], ◌∷◌, ◌++◌, replicate, length-replicate, arith,
}
use operating_systems_cs.Avl.{Scm, null, Avl}
use operating_systems_cs.Avl.Words.{empty-IsValid}
use operating_systems_cs.Editor.{History}
use operating_systems_cs.Editor.Keys.{AllFit}
use operating_systems_cs.Editor.Session.{IsHistory}
use operating_systems_cs.Commands.{World}
use operating_systems_cs.Console.{shell}
use operating_systems_cs.Console.Runs.{Point, Sound, shell-Sound}

abbrev ample : Scm
ample = record { Region = Unit; scm_malloc = λ r n. (true, r); scm_strdup = λ r s. (true, r) }

abbrev no_words : Avl ample
no_words = record { items = 0; unique = 0; root = null; region = tt }

-- No file can be opened.
abbrev no_files : World ample
no_files = record { lines = λ name. none; utilized = λ r. 0; capacity = λ r. 0 }

abbrev new_history : History
new_history = record { n = 0; history = replicate 96 [] }

AllFit-replicate : (n : ℕ) → AllFit (replicate n [])
AllFit-replicate zero = tt
AllFit-replicate (suc n) = (omega arith, AllFit-replicate n)

new_history-IsHistory : IsHistory new_history
new_history-IsHistory = record {
  slots = length-replicate {A = List ℕ} 96 [];
  room = omega arith;
  fit = AllFit-replicate 96;
}

-- `insert b`, and then `quit` with a byte behind it.
abbrev some_keys : List ℕ
some_keys =
    (105 ∷ 110 ∷ 115 ∷ 101 ∷ 114 ∷ 116 ∷ 32 ∷ 98 ∷ 10 ∷ []) ++ (113 ∷ 117 ∷ 105 ∷ 116 ∷ 10 ∷ 7 ∷ [])

abbrev some_start : Point ample no_files
some_start = record { state = new_history; avl = no_words; said = []; keys = some_keys }

shell-Sound_example :
    Sound ample no_files some_start (shell ample no_files 16 new_history no_words [] some_keys)
shell-Sound_example =
    shell-Sound ample no_files 16 some_start new_history-IsHistory (empty-IsValid tt) (omega arith)
