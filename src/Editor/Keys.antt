-- ===== src/Editor/Keys.antt =====
-- The keys of the line editor of p3/shell.c: the cursor stays in the text, and the text in its slot.
use operating_systems_cs.Common.{
  ℕ, zero, suc, ◌+◌, ◌-◌, ◌<◌, ◌≤◌, true, false, Bool-cases, ltb, ltb→lt, ◌==◌, ==_iff, ◌||◌, List,
  [], ◌∷◌, ◌++◌, length, length-append, get_or, ◌≡◌, refl, sym, ap, ◌∙◌, subst, ◌⊎◌, inl, inr,
  arith,
}
use operating_systems_cs.Common.Text.{CString, advance, first_bytes}
use operating_systems_cs.Common.Slices.{length-first_bytes, length-advance}
use operating_systems_cs.Editor.{
  slot_size, Line, History, Checked, ok, overrun, fits, isprint, insert_at, cut_line, delete_next,
  delete_last, blank, printing, press, show_slot, arrow, Awaits, first_byte, second_byte,
  third_byte, Edited, entered, waiting, edit,
}

-- The cursor is in the text, whose length is `n`, and the text with its closing 0 is in its slot.
pub record IsLine (state : History) (line : Line) : Type 0 where
  pub cursor : line.i ≤ line.n
  pub measured : line.n ≡ length line.buf
  pub inside : line.n < 160
  pub shown : line.j ≤ state.n

-- Every text of the history is in its slot.
abbrev pub AllFit : List CString → Type 0
AllFit [] = Unit
AllFit (s ∷ slots) = (length s < 160) × AllFit slots

-- A key gives a line again, or it overruns the slot only where `P` holds.
abbrev Pressed : History → Type 0 → Checked Line → Type 0
Pressed state P (ok line') = IsLine state line'
Pressed state P overrun = P

-- A space or a tab.
abbrev pub IsBlank : ℕ → Type 0
IsBlank k = (k ≡ 32) ⊎ (k ≡ 9)

IsBlank_lem : (k : ℕ) → ((k == 32) || (k == 9)) ≡ true → IsBlank k
IsBlank_lem k e = ground arith

module _ (state : History) (line : Line) (h : IsLine state line) where
  inserted : (c : ℕ) → line.n < 159 → IsLine state (insert_at line c)
  unfolding insert_at
  inserted c l =
      let a = length-first_bytes line.i line.buf (omega (arith, h.cursor, h.measured)) in
      let b = length-advance line.i line.buf (omega (arith, h.cursor, h.measured)) in
      let s = length-append (first_bytes line.i line.buf) (c ∷ advance line.i line.buf) in
      record {
        cursor = omega (arith, h.cursor);
        measured = omega (arith, a, b, s, h.measured);
        inside = omega (arith, l);
        shown = h.shown;
      }

  insert_fits :
      (c : ℕ) (P : Type 0) → (line.n ≡ 159 → P) → Pressed state P (fits (insert_at line c))
  unfolding fits insert_at
  insert_fits c P full =
      let a = length-first_bytes line.i line.buf (omega (arith, h.cursor, h.measured)) in
      let b = length-advance line.i line.buf (omega (arith, h.cursor, h.measured)) in
      let s = length-append (first_bytes line.i line.buf) (c ∷ advance line.i line.buf) in
      elim (Bool-cases
        (ltb (length (first_bytes line.i line.buf ++ c ∷ advance line.i line.buf)) slot_size)) [
          | inl good ↦ rw good (inserted c (omega (arith, ltb→lt _ _ good, a, b, s, h.measured)))
          | inr bad ↦ rw bad (full (omega (arith, h.inside, a, b, s, h.measured, not_lt _ _ bad)))
        ]
    where
      not_lt : (m n : ℕ) → ltb m n ≡ false → n ≤ m
      not_lt m n e = ground arith

  cut-IsLine : IsLine state (cut_line line)
  unfolding cut_line
  cut-IsLine =
      let a = length-first_bytes line.i line.buf (omega (arith, h.cursor, h.measured)) in
      record {
        cursor = omega arith;
        measured = refl;
        inside = omega (arith, a, h.cursor, h.inside);
        shown = h.shown;
      }

  delete_next-IsLine : IsLine state (delete_next line)
  unfolding delete_next
  delete_next-IsLine = elim (Bool-cases (ltb line.i line.n)) [
    | inr e ↦ rw e h
    | inl e ↦
        let l = ltb→lt _ _ e in
        let a = length-first_bytes line.i line.buf (omega (arith, h.cursor, h.measured)) in
        let b = length-advance (line.i + 1) line.buf (omega (arith, l, h.measured)) in
        let s = length-append (first_bytes line.i line.buf) (advance (line.i + 1) line.buf) in
        rw e (record {
          cursor = omega (arith, l);
          measured = omega (arith, a, b, s, l, h.measured);
          inside = omega (arith, h.inside);
          shown = h.shown;
        })
  ]

  delete_last-IsLine : IsLine state (delete_last line)
  unfolding delete_last
  delete_last-IsLine = elim (Bool-cases (ltb 0 line.i)) [
    | inr e ↦ rw e h
    | inl e ↦
        let l = ltb→lt _ _ e in
        let a = length-first_bytes (line.i - 1) line.buf (omega (arith, h.cursor, h.measured)) in
        let b = length-advance line.i line.buf (omega (arith, h.cursor, h.measured)) in
        let s = length-append (first_bytes (line.i - 1) line.buf) (advance line.i line.buf) in
        rw e (record {
          cursor = omega (arith, l, h.cursor);
          measured = omega (arith, a, b, s, l, h.cursor, h.measured);
          inside = omega (arith, h.inside);
          shown = h.shown;
        })
  ]

  blank-Pressed : (P : Type 0) → (line.n ≡ 159 → P) → Pressed state P (blank line)
  unfolding blank
  blank-Pressed P full = elim (Bool-cases (ltb line.n slot_size)) [
    | inl e ↦ rw e (insert_fits 32 P full)
    | inr e ↦ rw e h
  ]

  -- A printing character never overruns.
  printing-Pressed : (P : Type 0) (c : ℕ) → Pressed state P (printing line c)
  unfolding printing
  printing-Pressed P c = elim (Bool-cases (ltb (line.n + 1) slot_size)) [
    | inl e ↦ rw e (insert_fits c P (λ full. absurd (omega (arith, full, ltb→lt _ _ e))))
    | inr e ↦ rw e h
  ]

  press-Pressed : (k : ℕ) → Pressed state (IsBlank k × (line.n ≡ 159)) (press line k)
  unfolding press
  press-Pressed k = elim (Bool-cases (k == 11)) [
    | inl e ↦ rw e cut-IsLine
    | inr e1 ↦ elim (Bool-cases (k == 12)) [
      | inl e ↦ rw (e1, e) h
      | inr e2 ↦ elim (Bool-cases (k == 4)) [
        | inl e ↦ rw (e1, e2, e) delete_next-IsLine
        | inr e3 ↦ elim (Bool-cases ((k == 8) || (k == 127))) [
          | inl e ↦ rw (e1, e2, e3, e) delete_last-IsLine
          | inr e4 ↦ elim (Bool-cases ((k == 32) || (k == 9))) [
            | inl e ↦ rw (e1, e2, e3, e4, e) (blank-Pressed _ (λ full. (IsBlank_lem k e, full)))
            | inr e5 ↦ elim (Bool-cases (isprint k)) [
              | inl e ↦ rw (e1, e2, e3, e4, e5, e) (printing-Pressed _ k)
              | inr e6 ↦ rw (e1, e2, e3, e4, e5, e6) h
            ]
          ]
        ]
      ]
    ]
  ]

pub get_or-AllFit : (slots : List CString) (j : ℕ) → AllFit slots → length (get_or slots j []) < 160
get_or-AllFit [] j h = omega arith
get_or-AllFit (s ∷ slots) zero h = h.0
get_or-AllFit (s ∷ slots) (suc j) h = get_or-AllFit slots j h.1

module _ (state : History) (fit : AllFit state.history) where
  show_slot-IsLine : (line : Line) (j : ℕ) → j ≤ state.n → IsLine state (show_slot state line j)
  unfolding show_slot
  show_slot-IsLine line j l = elim (Bool-cases (j == state.n)) [
    | inl e ↦
        rw e (record { cursor = omega arith; measured = refl; inside = omega arith; shown = l })
    | inr e ↦ rw e (record {
      cursor = omega arith;
      measured = refl;
      inside = get_or-AllFit state.history j fit;
      shown = l;
    })
  ]

  arrow-IsLine : (line : Line) (k : ℕ) → IsLine state line → IsLine state (arrow state line k)
  unfolding arrow
  arrow-IsLine line k h = elim (Bool-cases (k == 65)) [
    | inl e ↦ elim (Bool-cases (ltb 0 line.j)) [
      | inl up ↦ rw (e, up) (show_slot-IsLine line (line.j - 1) (omega (arith, h.shown)))
      | inr top ↦ rw (e, top) h
    ]
    | inr e1 ↦ elim (Bool-cases (k == 66)) [
      | inl e ↦ elim (Bool-cases (ltb line.j state.n)) [
        | inl down ↦
            rw (e1, e, down) (show_slot-IsLine line (line.j + 1) (omega (arith, ltb→lt _ _ down)))
        | inr bottom ↦ rw (e1, e, bottom) h
      ]
      | inr e2 ↦ elim (Bool-cases (k == 67)) [
        | inl e ↦
            rw (e1, e2, e)
              (record {
                cursor = ground (arith, h.cursor);
                measured = h.measured;
                inside = h.inside;
                shown = h.shown;
              })
        | inr e3 ↦ elim (Bool-cases (k == 68)) [
          | inl e ↦
              rw (e1, e2, e3, e)
                (record {
                  cursor = ground (arith, h.cursor);
                  measured = h.measured;
                  inside = h.inside;
                  shown = h.shown;
                })
          | inr e4 ↦ rw (e1, e2, e3, e4) h
        ]
      ]
    ]
  ]

  -- A key in the middle of the line: the keys before it, and the line that they leave.
  pub record Reached (w : Awaits) (line : Line) (keys : List ℕ) (key : ℕ) (line' : Line)
      (rest : List ℕ) : Type 0 where
    pub before : List ℕ
    pub split : keys ≡ before ++ key ∷ rest
    pub edits : edit state w line before ≡ waiting first_byte line'
    pub valid : IsLine state line'

  -- The loop waits with a line; or it ends with the line that the keys before an Enter leave, and goes on
  -- with the keys behind; or the keys before a blank leave a line of 159 bytes.
  abbrev pub Result : Awaits → Line → List ℕ → Edited → Type 0
  Result w line keys (entered line' rest) = Reached w line keys 10 line' rest
  Result w line keys (waiting w' line') = IsLine state line'
  Result w line keys Edited.overrun =
      (k : ℕ) × (line' : Line) × (rest : List ℕ) × Reached w line keys k line' rest
      × IsBlank k
      × (line'.n ≡ 159)

  -- One byte more in front.
  Reached-later :
      (w w' : Awaits) (line line' : Line) (k : ℕ) (keys : List ℕ)
      → ((before : List ℕ) → edit state w line (k ∷ before) ≡ edit state w' line' before)
      → (key : ℕ) (line'' : Line) (rest : List ℕ) → Reached w' line' keys key line'' rest
      → Reached w line (k ∷ keys) key line'' rest
  Reached-later w w' line line' k keys step key line'' rest x = record {
    before = k ∷ x.before;
    split = ap (λ ks. k ∷ ks) x.split;
    edits = step x.before ∙ x.edits;
    valid = x.valid;
  }

  Result-later :
      (w w' : Awaits) (line line' : Line) (k : ℕ) (keys : List ℕ)
      → ((before : List ℕ) → edit state w line (k ∷ before) ≡ edit state w' line' before)
      → (r : Edited) → Result w' line' keys r
      → Result w line (k ∷ keys) r
  Result-later w w' line line' k keys step (entered l rest) x =
      Reached-later w w' line line' k keys step 10 l rest x
  Result-later w w' line line' k keys step (waiting _ l) x = x
  Result-later w w' line line' k keys step Edited.overrun (key, l, rest, x, blank, full) =
      (key, l, rest, Reached-later w w' line line' k keys step key l rest x, blank, full)

  pub edit_escape :
      (line : Line) (k : ℕ) (keys : List ℕ)
      → (k == 27) ≡ true
      → edit state first_byte line (k ∷ keys) ≡ edit state second_byte line keys
  unfolding edit
  edit_escape line k keys e = rw (e, edit) refl

  pub edit_enter :
      (line : Line) (k : ℕ) (keys : List ℕ)
      → (k == 27) ≡ false
      → (k == 10) ≡ true
      → edit state first_byte line (k ∷ keys) ≡ entered line keys
  unfolding edit
  edit_enter line k keys e1 e = rw (e1, e, edit) refl

  pub edit-press :
      (line : Line) (k : ℕ) (keys : List ℕ)
      → (k == 27) ≡ false
      → (k == 10) ≡ false
      → edit state first_byte line (k ∷ keys) ≡ (elim (press line k) [
        | Checked.ok line' ↦ edit state first_byte line' keys
        | Checked.overrun ↦ Edited.overrun
      ])
  unfolding edit
  edit-press line k keys e1 e2 = rw (e1, e2, edit) refl

  pressed_step :
      (line line' : Line) (k : ℕ) (keys : List ℕ)
      → (k == 27) ≡ false
      → (k == 10) ≡ false
      → press line k ≡ ok line'
      → edit state first_byte line (k ∷ keys) ≡ edit state first_byte line' keys
  pressed_step line line' k keys e1 e2 f =
      edit-press line k keys e1 e2
      ∙ ap
          (λ (c : Checked Line). elim c [
            | Checked.ok line' ↦ edit state first_byte line' keys
            | Checked.overrun ↦ Edited.overrun
          ])
          f

  pressed_full :
      (line : Line) (k : ℕ) (keys : List ℕ)
      → (k == 27) ≡ false
      → (k == 10) ≡ false
      → press line k ≡ overrun
      → edit state first_byte line (k ∷ keys) ≡ Edited.overrun
  pressed_full line k keys e1 e2 f =
      edit-press line k keys e1 e2
      ∙ ap
          (λ (c : Checked Line). elim c [
            | Checked.ok line' ↦ edit state first_byte line' keys
            | Checked.overrun ↦ Edited.overrun
          ])
          f

  starts : (line : Line) → edit state first_byte line [] ≡ waiting first_byte line
  unfolding edit
  starts line = refl

  -- A key that is neither an Escape nor an Enter.
  edit-Pressed :
      (line : Line) (k : ℕ) (keys : List ℕ) (c : Checked Line)
      → IsLine state line
      → (k == 27) ≡ false
      → (k == 10) ≡ false
      → press line k ≡ c
      → Pressed state (IsBlank k × (line.n ≡ 159)) c
      → ((line' : Line)
          → IsLine state line'
          → Result first_byte line' keys (edit state first_byte line' keys))
      → Result first_byte line (k ∷ keys) (edit state first_byte line (k ∷ keys))
  edit-Pressed line k keys (Checked.ok line') h e1 e2 f p rest =
      subst (Result first_byte line (k ∷ keys)) (sym (pressed_step line line' k keys e1 e2 f)) (
        Result-later first_byte first_byte line line' k keys
          (λ ks. pressed_step line line' k ks e1 e2 f) _ (rest line' p))
  edit-Pressed line k keys Checked.overrun h e1 e2 f p rest =
      subst (Result first_byte line (k ∷ keys)) (sym (pressed_full line k keys e1 e2 f)) (
        k,
        line,
        keys,
        record { before = []; split = refl; edits = starts line; valid = h },
        p.0,
        p.1,
      )

  -- Whatever bytes come, the line editor keeps its cursor in the text and the text in its slot, up to the
  -- first Enter, where it ends with the line that the keys before it leave; it overruns the slot only at a
  -- space or a tab, where the keys before it leave a line of 159 bytes.
  pub edit-Result :
      (w : Awaits) (line : Line) (keys : List ℕ)
      → IsLine state line
      → Result w line keys (edit state w line keys)
  unfolding edit
  edit-Result w line [] h = h
  edit-Result second_byte line (k ∷ keys) h =
      Result-later second_byte third_byte line line k keys (λ ks. refl) _
        (edit-Result third_byte line keys h)
  edit-Result third_byte line (k ∷ keys) h =
      Result-later third_byte first_byte line (arrow state line k) k keys (λ ks. refl) _
        (edit-Result first_byte (arrow state line k) keys (arrow-IsLine line k h))
  edit-Result first_byte line (k ∷ keys) h = elim (Bool-cases (k == 27)) [
    | inl e ↦ subst (Result first_byte line (k ∷ keys)) (sym (edit_escape line k keys e)) (
        Result-later first_byte second_byte line line k keys (λ ks. edit_escape line k ks e) _
          (edit-Result second_byte line keys h))
    | inr e1 ↦ elim (Bool-cases (k == 10)) [
      | inl e ↦
          subst (Result first_byte line (k ∷ keys)) (sym (edit_enter line k keys e1 e)) (record {
            before = [];
            split = ap (λ n. n ∷ keys) ((==_iff k 10).0 e);
            edits = starts line;
            valid = h;
          })
      | inr e2 ↦
          edit-Pressed line k keys (press line k) h e1 e2 refl (press-Pressed state line h k)
            (λ line' x. edit-Result first_byte line' keys x)
    ]
  ]
