-- ===== src/Meter/Lines.antt =====
-- The numbers that p5/main.c reads from a line of /proc/stat.
use native.Mathlib.Nat.{pow-succ'}
use mathlib.Core.List.{append_assoc}
use operating_systems_cs.Common.{
  ℕ, zero, suc, ◌+◌, ◌*◌, ◌/◌, ◌%◌, ◌^◌, ◌<◌, true, false, Bool-cases, lt→ltb, ltb→lt, ltb, ◌==◌,
  ne→==, some, ◌>>=◌, List, [], ◌∷◌, ◌++◌, map, length, ◌≡◌, ◌≢◌, refl, ap, ◌∙◌, inl, inr, arith,
}
use operating_systems_cs.Common.Text.{CString, isspace}
use operating_systems_cs.Common.Digits.{digits, decimal}
use operating_systems_cs.Meter.{
  strstr_space, skip_space, is_digit, starts_digit, scan_digits, take_sign, scan_number,
  scan_numbers, convert,
}

-- A name, and the numbers with a space before each, and what comes behind.
abbrev pub spaced : List ℕ → CString → CString
spaced [] tail = tail
spaced (n ∷ ns) tail = 32 ∷ (decimal n ++ spaced ns tail)

abbrev pub stat_line : CString → List ℕ → CString → CString
stat_line name counters tail = name ++ (32 ∷ spaced counters tail)

abbrev pub NoSpace : CString → Type 0
NoSpace [] = Unit
NoSpace (c ∷ s) = (c ≢ 32) × NoSpace s

abbrev pub AllBelow : ℕ → List ℕ → Type 0
AllBelow b [] = Unit
AllBelow b (n ∷ ns) = (n < b) × AllBelow b ns

abbrev pub wrap : ℕ → ℕ
wrap n = n % 2 ^ 32

pub strstr_line :
    (name rest : CString) → NoSpace name → strstr_space (name ++ (32 ∷ rest)) ≡ some (32 ∷ rest)
unfolding strstr_space
strstr_line [] rest h = refl
strstr_line (c ∷ name) rest h = rw (ne→== c 32 h.0) (strstr_line name rest h.1)

digit : (d : ℕ) → d < 10 → is_digit (48 + d) ≡ true
unfolding is_digit
digit d h = grind arith

scan_step :
    (n d : ℕ) (rest : CString)
    → d < 10
    → scan_digits n ((48 + d) ∷ rest) ≡ scan_digits (n * 10 + d) rest
unfolding scan_digits
scan_step n d rest h = rw (digit d h, scan_digits) (ap (λ m. scan_digits m rest) (omega arith))

tenth : (k n : ℕ) → n < 10 ^ suc k → n / 10 < 10 ^ k
tenth k n h = let p : 10 ^ suc k ≡ 10 * 10 ^ k = pow-succ' 10 k in omega (arith, h, p)

scan_printed :
    (k n : ℕ) (rest : CString)
    → n < 10 ^ k
    → scan_digits 0 (digits k n ++ rest) ≡ scan_digits n rest
unfolding digits
scan_printed zero n rest h = ap (λ m. scan_digits m rest) (omega (arith, h))
scan_printed (suc k) n rest h = elim (Bool-cases (ltb n 10)) [
  | inl last ↦
      rw last (scan_step 0 n rest (ltb→lt n 10 last) ∙ ap (λ m. scan_digits m rest) (omega arith))
  | inr more ↦
      rw (more, append_assoc (digits k (n / 10)) ((48 + n % 10) ∷ []) rest)
        (scan_printed k (n / 10) ((48 + n % 10) ∷ rest) (tenth k n h)
          ∙ scan_step (n / 10) (n % 10) rest (omega arith)
          ∙ ap (λ m. scan_digits m rest) (omega arith))
]

starts_printed :
    (k n : ℕ) (rest : CString) → n < 10 ^ suc k → starts_digit (digits (suc k) n ++ rest) ≡ true
unfolding digits starts_digit
starts_printed zero n rest h = rw (lt→ltb n 10 (omega (arith, h))) (digit n (omega (arith, h)))
starts_printed (suc k) n rest h = elim (Bool-cases (ltb n 10)) [
  | inl last ↦ rw last (digit n (ltb→lt n 10 last))
  | inr more ↦
      rw (more, append_assoc (digits (suc k) (n / 10)) ((48 + n % 10) ∷ []) rest)
        (starts_printed k (n / 10) ((48 + n % 10) ∷ rest) (tenth (suc k) n h))
]

plain_byte :
    (c : ℕ) → is_digit c ≡ true → (isspace c ≡ false) × ((c == 45) ≡ false) × ((c == 43) ≡ false)
unfolding is_digit isspace
plain_byte c h = (grind arith, grind arith, grind arith)

-- A text that starts with a digit has neither white space nor a sign in front.
digit_plain :
    (s : CString) → starts_digit s ≡ true → (skip_space s ≡ s) × (take_sign s ≡ (false, s))
unfolding starts_digit skip_space take_sign
digit_plain [] h = absurd (cc h)
digit_plain (c ∷ s) h =
    let (space, minus, plus) = plain_byte c h in (rw space refl, rw (minus, plus) refl)

no_digits : (n : ℕ) (s : CString) → starts_digit s ≡ false → scan_digits n s ≡ (n, s)
unfolding starts_digit scan_digits
no_digits n [] h = refl
no_digits n (c ∷ s) h = rw h refl

starts_spaced :
    (ns : List ℕ) (tail : CString)
    → starts_digit tail ≡ false
    → starts_digit (spaced ns tail) ≡ false
unfolding starts_digit is_digit
starts_spaced [] tail h = h
starts_spaced (n ∷ ns) tail h = refl

scan_number_printed :
    (n : ℕ) (rest : CString)
    → n < 2 ^ 64
    → starts_digit rest ≡ false
    → scan_number (32 ∷ (decimal n ++ rest)) ≡ some (wrap n, rest)
unfolding scan_number skip_space isspace convert
scan_number_printed n rest l h =
    let s = decimal n ++ rest in
    let starts = starts_printed 19 n rest (omega (arith, l)) in
    let (skips, sign) = digit_plain s starts in
    let first : skip_space (32 ∷ s) ≡ s = skips in
    let number = scan_printed 20 n rest (omega (arith, l)) ∙ no_digits n rest h in
    rw (first, sign, starts, number, lt→ltb n (2 ^ 64) l) refl

pub scan_line :
    (ns : List ℕ) (tail : CString)
    → AllBelow (2 ^ 64) ns
    → starts_digit tail ≡ false
    → scan_numbers (length ns) (spaced ns tail) ≡ some (map wrap ns)
unfolding scan_numbers
scan_line [] tail l h = refl
scan_line (n ∷ ns) tail l h =
    rw
      (
        scan_number_printed n (spaced ns tail) l.0 (starts_spaced ns tail h),
        scan_line ns tail l.1 h,
        ◌>>=◌,
      )
      refl

-- The space in front of the first number may be doubled.
pub scan_more_space : (k : ℕ) (s : CString) → scan_numbers (suc k) (32 ∷ s) ≡ scan_numbers (suc k) s
unfolding scan_numbers scan_number skip_space isspace
scan_more_space k s = refl
