-- ===== src/Editor/Cursor.antt =====
-- The text of the line editor of p3/shell.c as the bytes before and behind its cursor.
use operating_systems_cs.Common.{
  ℕ, suc, ◌+◌, ◌-◌, ◌<◌, false, Bool-cases, if◌then◌else◌, ltb, lt→ltb, ◌==◌, ==_iff, ◌||◌, [], ◌∷◌,
  ◌++◌, length, ◌≡◌, refl, ap, ◌∙◌, inl, inr, arith,
}
use operating_systems_cs.Common.Text.{CString, advance, first_bytes}
use operating_systems_cs.Editor.{
  slot_size, Line, Checked, ok, overrun, fits, isprint, insert_at, cut_line, delete_next,
  delete_last, blank, printing, press,
}

-- The bytes before the cursor, the last one first, and those behind it.
pub record Cursor : Type 0 where
  pub before : CString
  pub after : CString

-- The bytes of a reversed text in front of another text.
pub onto : CString → CString → CString
onto [] s = s
onto (c ∷ before) s = onto before (c ∷ s)

abbrev pub size : Cursor → ℕ
size c = length c.before + length c.after

-- The variables of the editor for such a text.
abbrev pub line_of : ℕ → Cursor → Line
line_of j c = record { j = j; i = length c.before; n = size c; buf = onto c.before c.after }

abbrev pub rest_of : CString → CString
rest_of [] = []
rest_of (c ∷ s) = s

-- What the keys do to the text around the cursor.
pub typed : Cursor → ℕ → Cursor
typed c k = record c { before = k ∷ c.before }

pub press_cursor : Cursor → ℕ → Checked Cursor
press_cursor c k =
    if k == 11
    then ok (record c { after = [] })
    else if k == 12
    then ok c
    else if k == 4
    then ok (record c { after = rest_of c.after })
    else if (k == 8) || (k == 127)
    then ok (record c { before = rest_of c.before })
    else if (k == 32) || (k == 9)
    then (if size c == 159 then overrun else ok (typed c 32))
    else if isprint k
    then (if size c == 159 then ok c else ok (typed c k))
    else ok c

abbrev pub to_line : ℕ → Checked Cursor → Checked Line
to_line j (ok c) = ok (line_of j c)
to_line j overrun = overrun

first_bytes-onto :
    (b s : CString) (n m : ℕ)
    → n ≡ length b + m
    → first_bytes n (onto b s) ≡ onto b (first_bytes m s)
unfolding onto first_bytes
first_bytes-onto [] s n m e = ap (λ k. first_bytes k s) (omega (arith, e))
first_bytes-onto (c ∷ b) s n m e = first_bytes-onto b (c ∷ s) n (suc m) (omega (arith, e))

advance-onto : (b s : CString) (n m : ℕ) → n ≡ length b + m → advance n (onto b s) ≡ advance m s
unfolding onto advance
advance-onto [] s n m e = ap (λ k. advance k s) (omega (arith, e))
advance-onto (c ∷ b) s n m e = advance-onto b (c ∷ s) n (suc m) (omega (arith, e))

onto-append : (b s t : CString) → onto b s ++ t ≡ onto b (s ++ t)
unfolding onto
onto-append [] s t = refl
onto-append (c ∷ b) s t = onto-append b (c ∷ s) t

length-onto : (b s : CString) → length (onto b s) ≡ length b + length s
unfolding onto
length-onto [] s = omega arith
length-onto (c ∷ b) s = omega (arith, length-onto b (c ∷ s))

-- A text that is cut at the cursor, with another behind it.
cut_at : (b s t : CString) → first_bytes (length b) (onto b s) ++ t ≡ onto b t
unfolding first_bytes
cut_at b s t =
    ap (λ c. c ++ t) (first_bytes-onto b s (length b) 0 (omega arith)) ∙ onto-append b [] t

module _ (j : ℕ) (c : Cursor) where
  insert_lem : (k : ℕ) → insert_at (line_of j c) k ≡ line_of j (typed c k)
  unfolding insert_at typed onto advance
  insert_lem k =
      let rest = advance-onto c.before c.after (length c.before) 0 (omega arith) in
      let text =
        ap (λ t. first_bytes (length c.before) (onto c.before c.after) ++ k ∷ t) rest
        ∙ cut_at c.before c.after (k ∷ c.after) in
      let cursor : length c.before + 1 ≡ suc (length c.before) = omega arith in
      let whole : size c + 1 ≡ suc (length c.before) + length c.after = omega arith in
      λ x. record { j = j; i = cursor x; n = whole x; buf = text x }

  cut_lem : cut_line (line_of j c) ≡ line_of j (record c { after = [] })
  unfolding cut_line first_bytes
  cut_lem =
      let text = first_bytes-onto c.before c.after (length c.before) 0 (omega arith) in
      let long : length (first_bytes (length c.before) (onto c.before c.after)) ≡ length c.before =
        ap length text ∙ length-onto c.before [] ∙ omega arith in
      let whole : length (first_bytes (length c.before) (onto c.before c.after))
          ≡ length c.before + 0 =
        ap length text ∙ length-onto c.before [] in
      λ x. record { j = j; i = long x; n = whole x; buf = text x }

-- Deleting on either side of the cursor.
delete_next_lem :
    (j : ℕ) (b a : CString)
    → delete_next (line_of j (record { before = b; after = a }))
      ≡ line_of j (record { before = b; after = rest_of a })
unfolding delete_next advance
delete_next_lem j b [] = rw (not_past (length b)) refl
  where
    not_past : (n : ℕ) → ltb n (n + 0) ≡ false
    not_past n = ground arith
delete_next_lem j b (e ∷ s) =
    let rest = advance-onto b (e ∷ s) (length b + 1) 1 refl in
    let text = ap (λ t. first_bytes (length b) (onto b (e ∷ s)) ++ t) rest ∙ cut_at b (e ∷ s) s in
    let whole : length b + suc (length s) - 1 ≡ length b + length s = omega arith in
    rw (lt→ltb (length b) (length b + suc (length s)) (omega arith))
      (λ x. record { j = j; i = length b; n = whole x; buf = text x })

delete_last_lem :
    (j : ℕ) (b a : CString)
    → delete_last (line_of j (record { before = b; after = a }))
      ≡ line_of j (record { before = rest_of b; after = a })
unfolding delete_last onto advance
delete_last_lem j [] a = refl
delete_last_lem j (e ∷ b) a =
    let cursor : suc (length b) - 1 ≡ length b = omega arith in
    let rest = advance-onto (e ∷ b) a (suc (length b)) 0 (omega arith) in
    let text =
      ap (λ n. first_bytes n (onto b (e ∷ a)) ++ advance (suc (length b)) (onto b (e ∷ a))) cursor
      ∙ ap (λ t. first_bytes (length b) (onto b (e ∷ a)) ++ t) rest
      ∙ cut_at b (e ∷ a) a in
    let whole : suc (length b) + length a - 1 ≡ length b + length a = omega arith in
    rw (lt→ltb 0 (suc (length b)) (omega arith))
      (λ x. record { j = j; i = cursor x; n = whole x; buf = text x })

module _ (j : ℕ) (c : Cursor) (small : size c < 160) where
  -- A text with one more byte, by its length.
  fits_lem :
      (k : ℕ)
      → fits (insert_at (line_of j c) k)
        ≡ to_line j (if size c == 159 then overrun else ok (typed c k))
  unfolding fits typed onto
  fits_lem k =
      let long = length-onto (k ∷ c.before) c.after in
      elim (Bool-cases (size c == 159)) [
        | inl full ↦
            rw
              (
                insert_lem j c k,
                full,
                too_long (length (onto (k ∷ c.before) c.after))
                    (omega (arith, long, (==_iff _ _).0 full)),
              )
              refl
        | inr space ↦
            rw
              (
                insert_lem j c k,
                space,
                lt→ltb (length (onto (k ∷ c.before) c.after)) slot_size
                    (ground (arith, long, space, small)),
              )
              refl
      ]
    where
      too_long : (n : ℕ) → n ≡ 160 → ltb n slot_size ≡ false
      too_long n e = ground arith

  blank_lem : blank (line_of j c) ≡ to_line j (if size c == 159 then overrun else ok (typed c 32))
  unfolding blank
  blank_lem = rw (lt→ltb (size c) slot_size small) (fits_lem 32)

  printing_lem :
      (k : ℕ)
      → printing (line_of j c) k ≡ to_line j (if size c == 159 then ok c else ok (typed c k))
  unfolding printing
  printing_lem k = elim (Bool-cases (size c == 159)) [
    | inl full ↦ rw (full, too_long (size c) ((==_iff _ _).0 full)) refl
    | inr space ↦
        rw (space, lt→ltb (size c + 1) slot_size (ground (arith, space, small)))
          (fits_lem k ∙ rw space refl)
  ]
    where
      too_long : (n : ℕ) → n ≡ 159 → ltb (n + 1) slot_size ≡ false
      too_long n e = ground arith

  -- Every key but the arrows and the end of the line does in p3/shell.c what it does to the text around
  -- the cursor: it types, deletes on either side, or cuts the line behind the cursor. In a line of 159
  -- bytes a printing character is ignored, and a blank is written behind the end of the slot.
  pub press-cursor : (k : ℕ) → press (line_of j c) k ≡ to_line j (press_cursor c k)
  unfolding press press_cursor
  press-cursor k = elim (Bool-cases (k == 11)) [
    | inl e ↦ rw e (ap ok (cut_lem j c))
    | inr e1 ↦ elim (Bool-cases (k == 12)) [
      | inl e ↦ rw (e1, e) refl
      | inr e2 ↦ elim (Bool-cases (k == 4)) [
        | inl e ↦ rw (e1, e2, e) (ap ok (delete_next_lem j c.before c.after))
        | inr e3 ↦ elim (Bool-cases ((k == 8) || (k == 127))) [
          | inl e ↦ rw (e1, e2, e3, e) (ap ok (delete_last_lem j c.before c.after))
          | inr e4 ↦ elim (Bool-cases ((k == 32) || (k == 9))) [
            | inl e ↦ rw (e1, e2, e3, e4, e) blank_lem
            | inr e5 ↦ elim (Bool-cases (isprint k)) [
              | inl e ↦ rw (e1, e2, e3, e4, e5, e) (printing_lem k)
              | inr e6 ↦ rw (e1, e2, e3, e4, e5, e6) refl
            ]
          ]
        ]
      ]
    ]
  ]
