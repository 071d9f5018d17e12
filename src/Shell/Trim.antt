-- ===== src/Shell/Trim.antt =====
-- `shell_strtrim` of p3/shell.c against the string without the white space at both ends.
use operating_systems_cs.Common.{
  ℕ, zero, suc, ◌+◌, ◌-◌, ◌<◌, ◌≤◌, Bool, true, false, Bool-cases, if◌then◌else◌, ltb, lt→ltb,
  ltb→lt, [], ◌∷◌, length, get_or, ◌≡◌, refl, sym, ap, subst, ◌∙◌, ◌⊎◌, inl, inr, arith,
}
use operating_systems_cs.Common.Text.{CString, isspace, advance, first_bytes}
use operating_systems_cs.Common.Slices.{
  length-first_bytes, length-advance, length-first_bytes_le, length-advance_le,
}
use operating_systems_cs.Shell.{skip_front, skip_back, shell_strtrim}

-- The byte at a position is white space, and it is not.
abbrev space_at : CString → ℕ → Bool
space_at s i = isspace (get_or s i 0)

le_cases : (b i : ℕ) → b ≤ i → (b ≡ i) ⊎ (b + 1 ≤ i)
le_cases b i h = ground arith

-- Where the first loop stops.
record Front (s : CString) (b e p : ℕ) : Type 0 where
  from : b ≤ p
  upto : p ≤ e
  spaces : (i : ℕ) → b ≤ i → i < p → space_at s i ≡ true
  stops : p < e → space_at s p ≡ false

skip_front-Front : (n b e : ℕ) (s : CString) → b + n ≡ e → Front s b e (skip_front n b e s)
unfolding skip_front
skip_front-Front zero b e s h = record {
  from = omega arith;
  upto = omega arith;
  spaces = λ i l u. absurd (omega arith);
  stops = λ u. absurd (omega arith);
}
skip_front-Front (suc n) b e s h = elim (Bool-cases (space_at s b)) [
  | inl w ↦
      let x = skip_front-Front n (b + 1) e s (omega arith) in
      rw (lt→ltb b e (omega arith), w)
        (record {
          from = omega (arith, x.from);
          upto = x.upto;
          spaces = λ i l u. elim (le_cases b i l) [
            | inl same ↦ subst (λ j. space_at s j ≡ true) same w
            | inr more ↦ x.spaces i more u
          ];
          stops = x.stops;
        })
  | inr w ↦
      rw (lt→ltb b e (omega arith), w)
        (record {
          from = omega arith;
          upto = omega arith;
          spaces = λ i l u. absurd (omega arith);
          stops = λ u. w;
        })
]

record Back (s : CString) (e p : ℕ) : Type 0 where
  upto : p ≤ e
  spaces : (i : ℕ) → p ≤ i → i < e → space_at s i ≡ true
  stops : (k : ℕ) → p ≡ suc k → space_at s k ≡ false

skip_back-Back : (e : ℕ) (s : CString) → Back s e (skip_back e s)
unfolding skip_back
skip_back-Back zero s = record {
  upto = omega arith;
  spaces = λ i l u. absurd (omega arith);
  stops = λ k h. absurd (omega arith);
}
skip_back-Back (suc e) s = elim (Bool-cases (space_at s e)) [
  | inl w ↦
      let x = skip_back-Back e s in
      rw w (record {
        upto = omega (arith, x.upto);
        spaces = λ i l u. elim (le_cases i e (omega arith)) [
          | inl same ↦ subst (λ j. space_at s j ≡ true) (sym same) w
          | inr more ↦ x.spaces i l (omega arith)
        ];
        stops = x.stops;
      })
  | inr w ↦ rw w (record {
    upto = omega arith;
    spaces = λ i l u. absurd (omega arith);
    stops = λ k h. subst (λ j. space_at s j ≡ false) (omega (arith, h)) w;
  })
]

get_or-first_bytes : (n i : ℕ) (s : CString) → i < n → get_or (first_bytes n s) i 0 ≡ get_or s i 0
unfolding first_bytes
get_or-first_bytes zero i s h = absurd (omega arith)
get_or-first_bytes (suc n) i [] h = refl
get_or-first_bytes (suc n) zero (c ∷ s) h = refl
get_or-first_bytes (suc n) (suc i) (c ∷ s) h = get_or-first_bytes n i s (omega arith)

get_or-advance : (k i j : ℕ) (s : CString) → k + i ≡ j → get_or (advance k s) i 0 ≡ get_or s j 0
unfolding advance
get_or-advance zero i j s h = ap (λ m. get_or s m 0) (omega arith)
get_or-advance (suc k) i j [] h = refl
get_or-advance (suc k) i zero (c ∷ s) h = absurd (omega arith)
get_or-advance (suc k) i (suc j) (c ∷ s) h = get_or-advance k i j s (omega arith)

-- `t` is `s` without `lead` bytes of white space before it and the white space behind it, and neither
-- begins nor ends with white space.
pub record Trimmed (s t : CString) : Type 0 where
  lead : ℕ
  within : lead + length t ≤ length s
  same : (i : ℕ) → i < length t → get_or t i 0 ≡ get_or s (lead + i) 0
  before : (i : ℕ) → i < lead → space_at s i ≡ true
  behind : (i : ℕ) → lead + length t ≤ i → i < length s → space_at s i ≡ true
  first : 0 < length t → space_at t 0 ≡ false
  last : (k : ℕ) → length t ≡ suc k → space_at t k ≡ false

-- The bytes from `b` on, `n` of them, with white space around.
cut-Trimmed :
    (s : CString) (b n : ℕ)
    → b + n ≤ length s
    → ((i : ℕ) → i < b → space_at s i ≡ true)
    → ((i : ℕ) → b + n ≤ i → i < length s → space_at s i ≡ true)
    → (0 < n → space_at s b ≡ false)
    → ((k : ℕ) → n ≡ suc k → space_at s (b + k) ≡ false)
    → Trimmed s (first_bytes n (advance b s))
cut-Trimmed s b n h before behind first last =
    let rest = length-advance b s (omega arith) in
    let size = length-first_bytes n (advance b s) (omega (arith, rest)) in
    let at = λ (i : ℕ) (u : i < n).
      get_or-first_bytes n i (advance b s) u ∙ get_or-advance b i (b + i) s refl in
    record {
      lead = b;
      within = omega (arith, size);
      same = λ i u. at i (omega (arith, size));
      before = before;
      behind = λ i l u. behind i (omega (arith, size)) u;
      first = λ u.
          ap isspace (at 0 (omega (arith, size)) ∙ ap (λ m. get_or s m 0) (omega arith))
          ∙ first (omega (arith, size));
      last = λ k e. ap isspace (at k (omega (arith, size))) ∙ last k (omega (arith, size));
    }

-- shell_strtrim takes off the white space at the start and at the end of its string, and nothing else.
pub shell_strtrim-Trimmed : (s : CString) → Trimmed s (shell_strtrim s)
unfolding shell_strtrim
shell_strtrim-Trimmed s =
    let e = length s in
    let b = skip_front e 0 e s in
    let e' = skip_back e s in
    let x = skip_front-Front e 0 e s (omega arith) in
    let y = skip_back-Back e s in
    elim (Bool-cases (ltb b e')) [
      | inl lt ↦
          let l = ltb→lt b e' lt in
          rw lt (
            cut-Trimmed s b (e' - b) (omega (arith, l, y.upto)) (λ i u. x.spaces i (omega arith) u)
              (λ i k u. y.spaces i (omega (arith, k, l)) u)
              (λ u. x.stops (omega (arith, l, y.upto)))
              (λ k h. y.stops (b + k) (omega (arith, h, l))))
      | inr ge ↦ rw ge (
          cut-Trimmed s b 0 (omega (arith, x.upto)) (λ i u. x.spaces i (omega arith) u)
            (λ i k u. y.spaces i (ground (arith, ge, k)) u) (λ u. absurd (omega arith))
            (λ k h. absurd (omega arith)))
    ]

pub length-shell_strtrim : (s : CString) → length (shell_strtrim s) ≤ length s
unfolding shell_strtrim
length-shell_strtrim s =
    let e = length s in
    let b = skip_front e 0 e s in
    let e' = skip_back e s in
    let n = length-first_bytes_le (if ltb b e' then e' - b else 0) (advance b s) in
    omega (arith, n, length-advance_le b s)
