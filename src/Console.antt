-- ===== src/Console.antt =====
-- The loop `shell` of p3/shell.c with `shell_fnc` of p3/main.c on the bytes that the terminal sends. The line
-- that `read_line` returns is a slot of the history, which the command then changes.
pub mod Runs
pub mod Tests
use operating_systems_cs.Common.{
  ℕ, zero, suc, Bool, true, false, ◌==◌, Option, none, some, List, [], ◌∷◌, ◌++◌, length, set,
}
use operating_systems_cs.Common.Text.{CString}
use operating_systems_cs.Avl.{Scm, Avl}
use operating_systems_cs.Editor.{History, Read, got_line, read_line}
use operating_systems_cs.Commands.{World, Ran, Message, shell_fnc}

-- How the loop ends: with a command that returns 1 and the bytes behind its line, waiting for a byte, with
-- a write behind a slot or the history, or at a null pointer that is followed; `spent` is the end of the fuel.
pub data Left (scm : Scm) : Type 0 where
  left : History → Avl scm → List Message → List ℕ → Left scm
  waits : History → Avl scm → List Message → Left scm
  overrun : Left scm
  fault : Left scm
  spent : Left scm

-- The text of a slot after the command.
abbrev pub write_slot : History → ℕ → CString → History
write_slot state j s = record state { history = set state.history j s }

module _ (scm : Scm) (world : World scm) where
  -- `said` is what the commands have printed so far.
  pub shell : ℕ → History → Avl scm → List Message → List ℕ → Left scm
  shell zero state avl said keys = spent
  shell (suc fuel) state avl said keys = elim (read_line state keys) [
    | Read.waiting ↦ waits state avl said
    | Read.overrun ↦ overrun
    | got_line state' s rest ↦ elim (length s == 0) [
      | true ↦ shell fuel state' avl said rest
      | false ↦
          let (o, s') = shell_fnc scm world avl s in
          let state'' = write_slot state' state.n s' in
          elim o [
            | none ↦ fault
            | some ran ↦ elim ran.leaves [
              | true ↦ left state'' ran.avl (said ++ ran.said) rest
              | false ↦ shell fuel state'' ran.avl (said ++ ran.said) rest
            ]
          ]
    ]
  ]
