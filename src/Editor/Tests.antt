-- ===== src/Editor/Tests.antt =====
-- The line editor of p3/shell.c on concrete bytes.
use operating_systems_cs.Common.{
  ℕ, zero, suc, replicate, length-replicate, List, [], ◌∷◌, ◌≡◌, refl, arith,
}
use operating_systems_cs.Editor.{
  read_line, Line, History, press, first_byte, entered, edit, isprint, printing, fits, insert_at,
  arrow, delete_last, show_slot,
}
use operating_systems_cs.Common.Text.{first_bytes, advance}
use operating_systems_cs.Editor.Cursor.{Cursor, line_of, to_line, press_cursor, press-cursor}
use operating_systems_cs.Editor.Session.{IsHistory, Kept, read_line-Kept}
use operating_systems_cs.Editor.Keys.{IsLine, AllFit, Result, edit-Result}

-- The text `abc` with the cursor behind `b`.
abbrev some_cursor : Cursor
some_cursor = record { before = 98 ∷ 97 ∷ []; after = 99 ∷ [] }

press-cursor_example : press (line_of 0 some_cursor) 8 ≡ to_line 0 (press_cursor some_cursor 8)
press-cursor_example = press-cursor 0 some_cursor (omega arith) 8

-- One line in the history, and the empty slot behind it.
abbrev some_history : History
some_history = record { n = 1; history = (97 ∷ 98 ∷ []) ∷ [] ∷ [] }

abbrev no_line : Line
no_line = record { j = 1; i = 0; n = 0; buf = [] }

-- `x`, backspace, the arrow up, the arrow to the left and `c`.
abbrev some_keys : List ℕ
some_keys = 120 ∷ 8 ∷ 27 ∷ 91 ∷ 65 ∷ 27 ∷ 91 ∷ 68 ∷ 99 ∷ 10 ∷ 7 ∷ []

some_history-fit : AllFit some_history.history
some_history-fit = (omega arith, (omega arith, tt))

no_line-IsLine : IsLine some_history no_line
no_line-IsLine = record {
  cursor = omega arith;
  measured = refl;
  inside = omega arith;
  shown = omega arith;
}

edit-Result_example :
    Result some_history some_history-fit first_byte no_line some_keys
      (edit some_history first_byte no_line some_keys)
edit-Result_example =
    edit-Result some_history some_history-fit first_byte no_line some_keys no_line-IsLine

run_keys :
    edit some_history first_byte no_line some_keys
    ≡ entered (record { j = 0; i = 2; n = 3; buf = 97 ∷ 99 ∷ 98 ∷ [] }) (7 ∷ [])
unfolding edit press isprint printing fits insert_at first_bytes advance arrow delete_last show_slot
run_keys = refl

-- The history at the start.
abbrev new_history : History
new_history = record { n = 0; history = replicate 96 [] }

AllFit-replicate : (n : ℕ) → AllFit (replicate n [])
AllFit-replicate zero = tt
AllFit-replicate (suc n) = (omega arith, AllFit-replicate n)

new_history-IsHistory : IsHistory new_history
new_history-IsHistory = record {
  slots = length-replicate {A = List ℕ} 96 [];
  room = omega arith;
  fit = AllFit-replicate 96;
}

read_line-Kept_example :
    Kept new_history new_history-IsHistory.fit some_keys (read_line new_history some_keys)
read_line-Kept_example = read_line-Kept new_history new_history-IsHistory some_keys
