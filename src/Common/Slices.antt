-- ===== src/Common/Slices.antt =====
-- Pieces of strings of bytes: the first ones, and those from a position on.
use Prim.Native.Nat.{ℕ, zero, suc, ◌+◌, ◌≤◌}
use mathlib.Core.Path.{◌≡◌, refl, ap}
use mathlib.Core.List.{[], ◌∷◌, ◌++◌}
use native.Mathlib.Omega.{arith}
use operating_systems_cs.Common.Lists.{length}
use operating_systems_cs.Common.Text.{CString, advance, first_bytes}

pub length-first_bytes : (n : ℕ) (s : CString) → n ≤ length s → length (first_bytes n s) ≡ n
unfolding first_bytes
length-first_bytes zero s h = refl
length-first_bytes (suc n) [] h = absurd (omega arith)
length-first_bytes (suc n) (c ∷ s) h = omega (arith, length-first_bytes n s)

pub length-advance : (k : ℕ) (s : CString) → k ≤ length s → length (advance k s) + k ≡ length s
unfolding advance
length-advance zero s h = omega arith
length-advance (suc k) [] h = absurd (omega arith)
length-advance (suc k) (c ∷ s) h = omega (arith, length-advance k s)

pub advance-append : (n : ℕ) (a b : CString) → length a ≡ n → advance n (a ++ b) ≡ b
unfolding advance
advance-append zero [] b h = refl
advance-append zero (c ∷ a) b h = absurd (omega arith)
advance-append (suc n) [] b h = absurd (omega arith)
advance-append (suc n) (c ∷ a) b h = advance-append n a b (omega arith)

pub first_bytes-append :
    (n : ℕ) (a b : CString) → n ≤ length a → first_bytes n (a ++ b) ≡ first_bytes n a
unfolding first_bytes
first_bytes-append zero a b h = refl
first_bytes-append (suc n) [] b h = absurd (omega arith)
first_bytes-append (suc n) (c ∷ a) b h = ap (λ s. c ∷ s) (first_bytes-append n a b (omega arith))

pub first_bytes_all : (n : ℕ) (a : CString) → length a ≤ n → first_bytes n a ≡ a
unfolding first_bytes
first_bytes_all zero [] h = refl
first_bytes_all zero (c ∷ a) h = absurd (omega arith)
first_bytes_all (suc n) [] h = refl
first_bytes_all (suc n) (c ∷ a) h = ap (λ s. c ∷ s) (first_bytes_all n a (omega arith))

pub length-first_bytes_le : (n : ℕ) (s : CString) → length (first_bytes n s) ≤ length s
unfolding first_bytes
length-first_bytes_le zero s = omega arith
length-first_bytes_le (suc n) [] = omega arith
length-first_bytes_le (suc n) (c ∷ s) = omega (arith, length-first_bytes_le n s)

pub length-advance_le : (n : ℕ) (s : CString) → length (advance n s) ≤ length s
unfolding advance
length-advance_le zero s = omega arith
length-advance_le (suc n) [] = omega arith
length-advance_le (suc n) (c ∷ s) = omega (arith, length-advance_le n s)
