-- ===== src/Editor/Bytes.antt =====
-- The bytes that `read_line` of p3/shell.c takes from the terminal: a line takes at least one.
use operating_systems_cs.Common.{
  ℕ, ◌<◌, Bool-cases, lt→ltb, ◌==◌, List, [], ◌∷◌, length, sym, subst, inl, inr, arith,
}
use operating_systems_cs.Common.Text.{CString}
use operating_systems_cs.Editor.{
  history_slots, Line, History, Checked, ok, overrun, press, arrow, Awaits, first_byte, second_byte,
  third_byte, Edited, entered, waiting, edit, first_line, keep_line, Read, got_line, read_line,
}
use operating_systems_cs.Editor.Keys.{AllFit, edit_escape, edit_enter, edit-press}

abbrev Rest : List ℕ → Edited → Type 0
Rest keys (entered line rest) = length rest < length keys
Rest keys (waiting w line) = Unit
Rest keys Edited.overrun = Unit

abbrev pub Shorter : List ℕ → Read → Type 0
Shorter keys (got_line state s rest) = length rest < length keys
Shorter keys Read.waiting = Unit
Shorter keys Read.overrun = Unit

Rest-more : (k : ℕ) (keys : List ℕ) (e : Edited) → Rest keys e → Rest (k ∷ keys) e
Rest-more k keys (entered line rest) h = omega (arith, h)
Rest-more k keys (waiting w line) h = tt
Rest-more k keys Edited.overrun h = tt

module _ (state : History) (fit : AllFit state.history) where
  press-Rest :
      (k : ℕ) (keys : List ℕ) (c : Checked Line)
      → ((line : Line) → Rest keys (edit state first_byte line keys))
      → Rest (k ∷ keys) (elim c [
        | Checked.ok line ↦ edit state first_byte line keys
        | Checked.overrun ↦ Edited.overrun
      ])
  press-Rest k keys (Checked.ok line) h =
      Rest-more k keys (edit state first_byte line keys) (h line)
  press-Rest k keys Checked.overrun h = tt

  edit-Rest : (w : Awaits) (line : Line) (keys : List ℕ) → Rest keys (edit state w line keys)
  unfolding edit
  edit-Rest w line [] = tt
  edit-Rest second_byte line (k ∷ keys) =
      Rest-more k keys (edit state third_byte line keys) (edit-Rest third_byte line keys)
  edit-Rest third_byte line (k ∷ keys) =
      Rest-more k keys (edit state first_byte (arrow state line k) keys)
        (edit-Rest first_byte (arrow state line k) keys)
  edit-Rest first_byte line (k ∷ keys) = elim (Bool-cases (k == 27)) [
    | inl e ↦
        subst (Rest (k ∷ keys)) (sym (edit_escape state fit line k keys e))
          (Rest-more k keys (edit state second_byte line keys) (edit-Rest second_byte line keys))
    | inr e1 ↦ elim (Bool-cases (k == 10)) [
      | inl e ↦ subst (Rest (k ∷ keys)) (sym (edit_enter state fit line k keys e1 e)) (omega arith)
      | inr e2 ↦
          subst (Rest (k ∷ keys)) (sym (edit-press state fit line k keys e1 e2))
            (press-Rest k keys (press line k) (λ l. edit-Rest first_byte l keys))
    ]
  ]

  kept_rest :
      (keys rest : List ℕ) (c : Checked (History × CString))
      → length rest < length keys
      → Shorter keys
          (elim c [ Checked.ok r ↦ got_line r.0 r.1 rest | Checked.overrun ↦ Read.overrun ])
  kept_rest keys rest (ok r) h = h
  kept_rest keys rest overrun h = tt

  edited_rest :
      (keys : List ℕ) (e : Edited)
      → Rest keys e
      → Shorter keys (elim e [
        | entered l rest ↦ elim (keep_line state l) [
          | Checked.ok r ↦ got_line r.0 r.1 rest
          | Checked.overrun ↦ Read.overrun
        ]
        | Edited.waiting w l ↦ Read.waiting
        | Edited.overrun ↦ Read.overrun
      ])
  edited_rest keys (entered l rest) h = kept_rest keys rest (keep_line state l) h
  edited_rest keys (waiting w l) h = tt
  edited_rest keys Edited.overrun h = tt

  pub read_line-Shorter : (keys : List ℕ) → state.n < 96 → Shorter keys (read_line state keys)
  unfolding read_line
  read_line-Shorter keys room = rw (lt→ltb state.n history_slots room) (
      edited_rest keys (edit state first_byte (first_line state) keys)
        (edit-Rest first_byte (first_line state) keys))
