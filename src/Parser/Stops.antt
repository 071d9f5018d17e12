-- ===== src/Parser/Stops.antt =====
-- The loops of p1/parser.c stop at a token that does not go on with them, and stay there.
use operating_systems_cs.Common.{ℕ, zero, suc, Bool, false, ◌≡◌, refl, sym, subst, ◌⊎◌, inl, inr}
use operating_systems_cs.Parser.{
  TokenOp, dag_mul, dag_div, dag_add, dag_sub, Dag, node, Parser, Parse, ok, null_ptr, no_fuel,
  ◌>>=◌, next_op, forward, mkd, expr_unary, mul_loop, expr_multiplicative, add_loop,
}
use operating_systems_cs.Parser.Steps.{
  is_sign, is_factor, sign_cases, factor_cases, mul_round, mul_times, mul_over, mul_stop, add_round,
  add_plus, add_minus, add_stop,
}

abbrev pub Reply : Type 0 → Type 0
Reply D = Parse (Dag D × Parser D)

module _ {D : Type 0} where
  -- The call does not return the null pointer.
  abbrev pub Takes : Reply D → Type 0
  Takes null_ptr = ⊥
  Takes (ok r) = Unit
  Takes no_fuel = Unit

  pub Takes-bind :
      (r : Reply D) (g f : Dag D × Parser D → Reply D)
      → Takes (r >>= λ x. g x >>= f)
      → Takes ((r >>= g) >>= f)
  Takes-bind (ok x) g f h = h
  Takes-bind null_ptr g f h = h
  Takes-bind no_fuel g f h = h

  -- A loop stops at a token that does not go on with it.
  abbrev pub Stops : (TokenOp → Bool) → Reply D → Type 0
  Stops goes (ok r) = goes (next_op r.1) ≡ false
  Stops goes null_ptr = Unit
  Stops goes no_fuel = Unit

  Stops-bind :
      {A : Type 0} (goes : TokenOp → Bool) (r : Parse A) (f : A → Reply D)
      → ((x : A) → Stops goes (f x))
      → Stops goes (r >>= f)
  Stops-bind goes (ok x) f h = h x
  Stops-bind goes null_ptr f h = tt
  Stops-bind goes no_fuel f h = tt

  Stops-three :
      {A : Type 0} (goes : TokenOp → Bool) (m : Parse A) (g : A → Reply D)
      (h : A → Dag D × Parser D → Reply D) (last : Dag D × Parser D → Reply D)
      → ((x : Dag D × Parser D) → Stops goes (last x))
      → Stops goes (m >>= λ a. g a >>= λ r. h a r >>= last)
  Stops-three {A} goes m g h last s =
      Stops-bind {A = A} goes m (λ a. g a >>= λ r. h a r >>= last)
        (λ a. Stops-bind goes (g a) (λ r. h a r >>= last) (λ r. Stops-bind goes (h a r) last s))

  -- A loop that is run once more where it has stopped.
  pub Takes-twice :
      (goes : TokenOp → Bool) (again : Dag D × Parser D → Reply D)
      → ((d : Dag D) (q : Parser D)
          → goes (next_op q) ≡ false
          → (again (d, q) ≡ ok (d, q)) ⊎ (again (d, q) ≡ no_fuel))
      → (r : Reply D) (f : Dag D × Parser D → Reply D) → Stops goes r
      → Takes (r >>= f)
      → Takes ((r >>= again) >>= f)
  Takes-twice goes again stays (ok (d, q)) f s h = elim (stays d q s) [
    | inl e ↦ subst (λ r. Takes (r >>= f)) (sym e) h
    | inr e ↦ subst (λ r. Takes (r >>= f)) (sym e) tt
  ]
  Takes-twice goes again stays null_ptr f s h = h
  Takes-twice goes again stays no_fuel f s h = h

module _ {D : Type 0} (alloc : ℕ → Bool) (zero_val : D) where
  pub mul_loop-Stops :
      (n : ℕ) (p : Parser D) (left dag : Dag D)
      → Stops is_factor (mul_loop alloc zero_val n p left dag)
  unfolding mul_loop mul_round forward
  mul_loop-Stops zero p left dag = tt
  mul_loop-Stops (suc n) p left dag = elim (factor_cases (next_op p)) [
    | inl e ↦ subst (Stops is_factor) (sym (mul_times alloc zero_val n p left dag e)) (
        Stops-three is_factor (mkd alloc zero_val p)
          (λ m. expr_unary alloc zero_val n (forward m.1))
          (λ m r.
            mul_loop alloc zero_val n r.1 (node dag_mul m.0 zero_val left r.0)
              (node dag_mul m.0 zero_val left r.0))
          (λ d. mul_loop alloc zero_val n d.1 left d.0) (λ d. mul_loop-Stops n d.1 left d.0))
    | inr (inl e) ↦ subst (Stops is_factor) (sym (mul_over alloc zero_val n p left dag e)) (
        Stops-three is_factor (mkd alloc zero_val p)
          (λ m. expr_unary alloc zero_val n (forward m.1))
          (λ m r.
            mul_loop alloc zero_val n r.1 (node dag_div m.0 zero_val left r.0)
              (node dag_div m.0 zero_val left r.0))
          (λ d. mul_loop alloc zero_val n d.1 left d.0) (λ d. mul_loop-Stops n d.1 left d.0))
    | inr (inr e) ↦
        subst (Stops is_factor) (sym (mul_stop alloc zero_val n p left dag (next_op p) refl e)) e
  ]

  pub add_loop-Stops :
      (n : ℕ) (p : Parser D) (left dag : Dag D)
      → Stops is_sign (add_loop alloc zero_val n p left dag)
  unfolding add_loop add_round forward
  add_loop-Stops zero p left dag = tt
  add_loop-Stops (suc n) p left dag = elim (sign_cases (next_op p)) [
    | inl e ↦ subst (Stops is_sign) (sym (add_plus alloc zero_val n p left dag e)) (
        Stops-three is_sign (mkd alloc zero_val p)
          (λ m. expr_multiplicative alloc zero_val n (forward m.1))
          (λ m r.
            add_loop alloc zero_val n r.1 (node dag_add m.0 zero_val left r.0)
              (node dag_add m.0 zero_val left r.0))
          (λ d. add_loop alloc zero_val n d.1 left d.0) (λ d. add_loop-Stops n d.1 left d.0))
    | inr (inl e) ↦ subst (Stops is_sign) (sym (add_minus alloc zero_val n p left dag e)) (
        Stops-three is_sign (mkd alloc zero_val p)
          (λ m. expr_multiplicative alloc zero_val n (forward m.1))
          (λ m r.
            add_loop alloc zero_val n r.1 (node dag_sub m.0 zero_val left r.0)
              (node dag_sub m.0 zero_val left r.0))
          (λ d. add_loop alloc zero_val n d.1 left d.0) (λ d. add_loop-Stops n d.1 left d.0))
    | inr (inr e) ↦
        subst (Stops is_sign) (sym (add_stop alloc zero_val n p left dag (next_op p) refl e)) e
  ]

  pub mul_stays :
      (n : ℕ) (left d : Dag D) (q : Parser D)
      → is_factor (next_op q) ≡ false
      → (mul_loop alloc zero_val n q left d ≡ ok (d, q))
        ⊎ (mul_loop alloc zero_val n q left d ≡ no_fuel)
  unfolding mul_loop
  mul_stays zero left d q e = inr refl
  mul_stays (suc n) left d q e = inl (mul_stop alloc zero_val n q left d (next_op q) refl e)

  pub add_stays :
      (n : ℕ) (left d : Dag D) (q : Parser D)
      → is_sign (next_op q) ≡ false
      → (add_loop alloc zero_val n q left d ≡ ok (d, q))
        ⊎ (add_loop alloc zero_val n q left d ≡ no_fuel)
  unfolding add_loop
  add_stays zero left d q e = inr refl
  add_stays (suc n) left d q e = inl (add_stop alloc zero_val n q left d (next_op q) refl e)
