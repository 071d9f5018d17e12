-- ===== src/Meter.antt =====
-- The cpu meter of p5/main.c: the numbers of a line of /proc/stat, the share of the time that the processor
-- was busy since the line before, and the loop. The arithmetic of doubles is a parameter.
pub mod Lines
pub mod Runs
pub mod Tests
use operating_systems_cs.Common.{
  ℕ, zero, suc, ◌+◌, ◌-◌, ◌*◌, ◌%◌, ◌^◌, Bool, true, false, if◌then◌else◌, leb, ltb, ◌==◌, ◌&&◌,
  Option, none, some, ◌>>=◌, List, [], ◌∷◌, get_or,
}
use operating_systems_cs.Common.Text.{CString, isspace}

-- The operations on doubles, and the conversion of an `unsigned`.
pub record Doubles : Type 1 where
  pub Double : Type 0
  pub of_unsigned : ℕ → Double
  pub minus : Double → Double → Double
  pub times : Double → Double → Double
  pub over : Double → Double → Double

-- `strstr` for a single space: the text from the first one on.
unfoldable pub strstr_space : CString → Option CString
strstr_space [] = none
strstr_space (c ∷ s) = let rest = strstr_space s in if c == 32 then some (c ∷ s) else rest

unfoldable pub skip_space : CString → CString
skip_space [] = []
skip_space (c ∷ s) = let rest = skip_space s in if isspace c then rest else c ∷ s

unfoldable pub is_digit : ℕ → Bool
is_digit c = leb 48 c && leb c 57

unfoldable pub starts_digit : CString → Bool
starts_digit [] = false
starts_digit (c ∷ s) = is_digit c

unfoldable pub scan_digits : ℕ → CString → ℕ × CString
scan_digits n [] = (n, [])
scan_digits n (c ∷ s) =
    let rest = scan_digits (n * 10 + (c - 48)) s in if is_digit c then rest else (n, c ∷ s)

unfoldable pub take_sign : CString → Bool × CString
take_sign [] = (false, [])
take_sign (c ∷ s) = if c == 45 then (true, s) else if c == 43 then (false, s) else (false, c ∷ s)

-- What the C library of Linux makes of the digits: from 2 ^ 64 on the largest number, whatever the sign,
-- and otherwise the low 32 bits.
unfoldable pub convert : Bool → ℕ → ℕ
convert negative n =
    let low = n % 2 ^ 32 in
    if ltb n (2 ^ 64) then (if negative then (2 ^ 32 - low) % 2 ^ 32 else low) else 2 ^ 32 - 1

-- `%u`: white space, a sign, and digits.
unfoldable pub scan_number : CString → Option (ℕ × CString)
scan_number s =
    let t = take_sign (skip_space s) in
    let r = scan_digits 0 t.1 in if starts_digit t.1 then some (convert t.0 r.0, r.1) else none

-- `sscanf` for so many `%u`, or `none` where it converts fewer.
unfoldable pub scan_numbers : ℕ → CString → Option (List ℕ)
scan_numbers zero s = some []
scan_numbers (suc n) s = do r ← scan_number s; vs ← scan_numbers n r.1; some (r.0 ∷ vs)

-- The two static variables of `cpu_util`.
pub record Meter : Type 0 where
  pub sum : ℕ
  pub vector : List ℕ

pub new_meter : Meter
new_meter = record { sum = 0; vector = 0 ∷ 0 ∷ 0 ∷ 0 ∷ 0 ∷ 0 ∷ 0 ∷ [] }

-- The loop over the vector, with the sum so far.
unfoldable pub add_all : List ℕ → ℕ → ℕ
add_all [] sum = sum
add_all (v ∷ vs) sum = add_all vs ((sum + v) % 2 ^ 32)

-- A difference of two `unsigned`.
abbrev pub difference : ℕ → ℕ → ℕ
difference a b = (a + 2 ^ 32 - b) % 2 ^ 32

-- How the loop of `main` ends: after the signal with 0, with -1, or it waits.
pub data Ending : Type 0 where
  stopped : Ending
  gave_up : Ending
  waits : Ending

-- What a round of the loop meets: the signal has come, `fopen` fails, `fgets` gives nothing, or a line.
pub data Answer : Type 0 where
  interrupted : Answer
  unopened : Answer
  unread : Answer
  got : CString → Answer

module _ (doubles : Doubles) where
  -- The share in percent, of the idle and the whole time.
  unfoldable pub utilization : ℕ → ℕ → doubles.Double
  utilization idle total =
      doubles.times
        (doubles.minus (doubles.of_unsigned 1)
          (doubles.over (doubles.of_unsigned idle) (doubles.of_unsigned total)))
        (doubles.of_unsigned 100)

  unfoldable pub measure : List ℕ → Meter → doubles.Double × Meter
  measure vector meter =
      let sum = add_all vector 0 in
      (
        utilization (difference (get_or vector 3 0) (get_or meter.vector 3 0))
            (difference sum meter.sum),
        record { sum = sum; vector = vector },
      )

  unfoldable pub cpu_util : CString → Meter → doubles.Double × Meter
  cpu_util s meter = elim (strstr_space s >>= scan_numbers 7) [
    | none ↦ (doubles.of_unsigned 0, meter)
    | some vector ↦ measure vector meter
  ]

  -- The loop, with what it shows.
  unfoldable pub watch : List Answer → Meter → List doubles.Double × Ending
  watch [] meter = ([], waits)
  watch (interrupted ∷ rest) meter = ([], stopped)
  watch (unopened ∷ rest) meter = ([], gave_up)
  watch (unread ∷ rest) meter = watch rest meter
  watch (got line ∷ rest) meter =
      let r = cpu_util line meter in let after = watch rest r.1 in (r.0 ∷ after.0, after.1)

  -- `main`, where `signal` succeeds or not.
  unfoldable pub main : Bool → List Answer → List doubles.Double × Ending
  main signal answers = if signal then watch answers new_meter else ([], gave_up)
