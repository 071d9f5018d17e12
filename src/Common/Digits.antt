-- ===== src/Common/Digits.antt =====
-- Decimal numbers as `printf` writes them for `%lu`.
use Prim.Native.Nat.{ℕ, zero, suc, ◌+◌, ◌*◌, ◌/◌, ◌%◌, ◌^◌, ◌<◌, ◌≤◌}
use native.Mathlib.Nat.{pow-succ'}
use mathlib.Core.Logic.{inl, inr}
use mathlib.Core.Path.{◌≡◌}
use mathlib.Core.List.{[], ◌∷◌, ◌++◌}
use operating_systems_cs.Common.Tests.{if◌then◌else◌, ltb, lt→ltb, Bool-cases}
use operating_systems_cs.Common.Lists.{length, length-append}
use operating_systems_cs.Common.Text.{CString}
use native.Mathlib.Omega.{arith}

-- A digit for each round of the fuel, at most.
unfoldable pub digits : ℕ → ℕ → CString
digits zero n = []
digits (suc k) n =
    let rest = digits k (n / 10) in if ltb n 10 then (48 + n) ∷ [] else rest ++ (48 + n % 10) ∷ []

-- A `uint64_t` has at most 20 digits.
abbrev pub decimal : ℕ → CString
decimal n = digits 20 n

pub digits_short : (j k n : ℕ) → n < 10 ^ suc j → length (digits k n) ≤ suc j
unfolding digits
digits_short j zero n h = omega arith
digits_short zero (suc k) n h = rw (lt→ltb n 10 (omega (arith, h))) (omega arith)
digits_short (suc j) (suc k) n h = elim (Bool-cases (ltb n 10)) [
  | inl last ↦ rw last (omega arith)
  | inr more ↦ rw more (
      omega (
        arith,
        length-append (digits k (n / 10)) ((48 + n % 10) ∷ []),
        digits_short j k (n / 10) (
            let p : 10 ^ suc (suc j) ≡ 10 * 10 ^ suc j = pow-succ' 10 (suc j) in
            omega (arith, h, p)),
      ))
]
