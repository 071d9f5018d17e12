-- ===== src/Common/Text.antt =====
-- C strings as lists of bytes without the closing 0, and `strcmp` as the sign that it returns;
-- `isspace`, and a pointer into a string that moves on.
use Prim.Native.Nat.{ℕ, zero, suc, compare, Ordering}
use Prim.Native.Nat.Ordering.{lt, eq, gt}
use mathlib.Core.Path.{◌≡◌, refl}
use mathlib.Core.Bool.{Bool, ◌&&◌, ◌||◌}
use mathlib.Core.List.{List, [], ◌∷◌}
use operating_systems_cs.Common.Tests.{leb, ◌==◌}
use native.Mathlib.Omega.{arith}

abbrev pub CString : Type 0
CString = List ℕ

-- The first differing byte decides; a proper prefix is less.
unfoldable pub strcmp : CString → CString → Ordering
strcmp [] [] = eq
strcmp [] (b ∷ t) = lt
strcmp (a ∷ s) [] = gt
strcmp (a ∷ s) (b ∷ t) = let rest = strcmp s t in elim (compare a b) [ eq ↦ rest | o ↦ o ]

pub strcmp_refl : (s : CString) → strcmp s s ≡ eq
unfolding strcmp
strcmp_refl [] = refl
strcmp_refl (a ∷ s) = ground (arith, strcmp_refl s)

pub eq_of_strcmp : (s t : CString) → strcmp s t ≡ eq → s ≡ t
unfolding strcmp
eq_of_strcmp [] [] h = refl
eq_of_strcmp [] (b ∷ t) h = cc
eq_of_strcmp (a ∷ s) [] h = cc
eq_of_strcmp (a ∷ s) (b ∷ t) h = ground (arith, eq_of_strcmp s t)

pub gt_of_lt : (s t : CString) → strcmp s t ≡ lt → strcmp t s ≡ gt
unfolding strcmp
gt_of_lt [] [] h = cc
gt_of_lt [] (b ∷ t) h = refl
gt_of_lt (a ∷ s) [] h = cc
gt_of_lt (a ∷ s) (b ∷ t) h = ground (arith, gt_of_lt s t)

pub lt_of_gt : (s t : CString) → strcmp s t ≡ gt → strcmp t s ≡ lt
unfolding strcmp
lt_of_gt [] [] h = cc
lt_of_gt [] (b ∷ t) h = cc
lt_of_gt (a ∷ s) [] h = refl
lt_of_gt (a ∷ s) (b ∷ t) h = ground (arith, lt_of_gt s t)

pub lt_trans : (s t u : CString) → strcmp s t ≡ lt → strcmp t u ≡ lt → strcmp s u ≡ lt
unfolding strcmp
lt_trans [] [] u h k = cc
lt_trans [] (b ∷ t) [] h k = cc
lt_trans [] (b ∷ t) (c ∷ u) h k = refl
lt_trans (a ∷ s) [] u h k = cc
lt_trans (a ∷ s) (b ∷ t) [] h k = cc
lt_trans (a ∷ s) (b ∷ t) (c ∷ u) h k = ground (arith, lt_trans s t u)

-- `isspace` of the C locale: the space, and the bytes from `\t` to `\r`.
unfoldable pub isspace : ℕ → Bool
isspace c = (c == 32) || (leb 9 c && leb c 13)

-- `s` moved on by some bytes.
unfoldable pub advance : ℕ → CString → CString
advance zero s = s
advance (suc k) [] = []
advance (suc k) (c ∷ s) = advance k s

-- The first `n` bytes.
unfoldable pub first_bytes : ℕ → CString → CString
first_bytes zero s = []
first_bytes (suc n) [] = []
first_bytes (suc n) (c ∷ s) = c ∷ first_bytes n s
