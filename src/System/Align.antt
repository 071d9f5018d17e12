-- ===== src/System/Align.antt =====
-- `memory_align` of p4/system.c.
use native.Mathlib.Nat.{mod-lt, div-add-mod, mul-mod_right, mul-le-mul_left}
use operating_systems_cs.Common.{
  ℕ, suc, ◌+◌, ◌-◌, ◌*◌, ◌/◌, ◌%◌, ◌^◌, ◌<◌, ◌≤◌, ◌==◌, Bool-cases, ==_iff, ◌≡◌, sym, ap, ◌∙◌, ◌≢◌,
  ◌⊎◌, subst, inl, inr, arith,
}
use operating_systems_cs.System.{memory_align}

-- The least multiple of `n` from `p` on.
pub record IsNext (n p q : ℕ) : Type 0 where
  pub multiple : q % n ≡ 0
  pub behind : p ≤ q
  pub least : (k : ℕ) → p ≤ k → k % n ≡ 0 → q ≤ k

below_or_behind : (a b : ℕ) → (a ≤ b) ⊎ (suc b ≤ a)
below_or_behind a b = omega arith

-- The next multiple of an address that is between two.
IsNext-moved : (p n : ℕ) → 0 < n → p % n ≢ 0 → IsNext n p (p + (n - p % n))
IsNext-moved p n l ne =
    let rest = mod-lt p {m = n} l in
    let whole = div-add-mod p n in
    let times : n * suc (p / n) ≡ n * (p / n) + n = grind arith in
    let same : p + (n - p % n) ≡ n * suc (p / n) = omega (arith, rest, whole, times) in
    record {
      multiple = ap (λ q. q % n) same ∙ mul-mod_right n (suc (p / n));
      behind = omega arith;
      least = λ k h e. elim (below_or_behind (k / n) (p / n)) [
        | inl a ↦ absurd (omega (arith, mul-le-mul_left n a, div-add-mod k n, e, whole, h, ne))
        | inr a ↦ omega (arith, mul-le-mul_left n a, div-add-mod k n, e, same)
      ];
    }

-- For a positive n, memory_align gives the least multiple of n that is not below the address, if no address up
-- to the next n bytes is behind the 64-bit range.
pub memory_align-IsNext : (p n : ℕ) → 0 < n → p + n ≤ 2 ^ 64 → IsNext n p (memory_align p n)
unfolding memory_align
memory_align-IsNext p n l h = elim (Bool-cases (p % n == 0)) [
  | inl e ↦
      let out : memory_align p n ≡ p =
        rw (e, memory_align, (==_iff (p % n) 0).0 e) (omega (arith, h, l)) in
      subst (IsNext n p) (sym out)
        (record { multiple = (==_iff (p % n) 0).0 e; behind = omega arith; least = λ k x y. x })
  | inr e ↦
      let rest = mod-lt p {m = n} l in
      let apart : p % n ≢ 0 = λ x. absurd (cc (e, (==_iff (p % n) 0).1 x)) in
      let out : memory_align p n ≡ p + (n - p % n) =
        rw (e, memory_align) (omega (arith, h, rest, apart)) in
      subst (IsNext n p) (sym out) (IsNext-moved p n l apart)
]
