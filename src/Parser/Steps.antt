-- ===== src/Parser/Steps.antt =====
-- One step of each function of the parser of p1/parser.c, by the current token.
use operating_systems_cs.Common.{ℕ, suc, Bool, true, false, ◌≡◌, refl, ◌⊎◌, inl, inr}
use operating_systems_cs.Parser.{
  TokenOp, op_val, op_add, op_sub, op_mul, op_div, op_open, op_close, DagOp, dag_val, dag_neg,
  dag_mul, dag_div, dag_add, dag_sub, Dag, null, node, Parser, Parse, ok, null_ptr, ◌>>=◌, next_op,
  forward, next_val, mkd, expr_primary, expr_unary, mul_loop, expr_multiplicative, add_loop,
  expr_additive,
}

-- The tokens that go on with a sum, and with a product; the other ones end the loops.
abbrev pub is_sign : TokenOp → Bool
is_sign op_add = true
is_sign op_sub = true
is_sign _ = false

abbrev pub is_factor : TokenOp → Bool
is_factor op_mul = true
is_factor op_div = true
is_factor _ = false

abbrev pub starts_primary : TokenOp → Bool
starts_primary op_val = true
starts_primary op_open = true
starts_primary _ = false

abbrev pub is_close : TokenOp → Bool
is_close op_close = true
is_close _ = false

pub sign_cases : (o : TokenOp) → (o ≡ op_add) ⊎ (o ≡ op_sub) ⊎ (is_sign o ≡ false)
sign_cases op_add = inl refl
sign_cases op_sub = inr (inl refl)
sign_cases _ = inr (inr refl)

pub factor_cases : (o : TokenOp) → (o ≡ op_mul) ⊎ (o ≡ op_div) ⊎ (is_factor o ≡ false)
factor_cases op_mul = inl refl
factor_cases op_div = inr (inl refl)
factor_cases _ = inr (inr refl)

pub primary_cases : (o : TokenOp) → (o ≡ op_val) ⊎ (o ≡ op_open) ⊎ (starts_primary o ≡ false)
primary_cases op_val = inl refl
primary_cases op_open = inr (inl refl)
primary_cases _ = inr (inr refl)

-- What follows the expression in parentheses.
pub close : {D : Type 0} → Dag D × Parser D → Parse (Dag D × Parser D)
unfolding next_op forward
close e = elim (next_op e.1) [ op_close ↦ ok (e.0, forward e.1) | _ ↦ null_ptr ]

pub close_cases : (o : TokenOp) → (o ≡ op_close) ⊎ (is_close o ≡ false)
close_cases op_close = inl refl
close_cases _ = inr refl

pub close_ok :
    {D : Type 0} (d : Dag D) (p : Parser D)
    → next_op p ≡ op_close
    → close (d, p) ≡ ok (d, forward p)
unfolding close
close_ok d p e = rw (e, close) refl

pub close_null :
    {D : Type 0} (d : Dag D) (p : Parser D) (o : TokenOp)
    → next_op p ≡ o
    → is_close o ≡ false
    → close (d, p) ≡ null_ptr
unfolding close
close_null d p op_close e h = cc
close_null d p _ e h = rw (e, close) refl

module _ {D : Type 0} (alloc : ℕ → Bool) (zero_val : D) (n : ℕ) where
  pub primary_val :
      (p : Parser D)
      → next_op p ≡ op_val
      → expr_primary alloc zero_val (suc n) p ≡ (
          mkd alloc zero_val p >>= λ m.
          ok (node dag_val m.0 (next_val zero_val m.1) null null, forward m.1))
  unfolding expr_primary
  primary_val p e = rw (e, expr_primary)

  pub primary_open :
      (p : Parser D)
      → next_op p ≡ op_open
      → expr_primary alloc zero_val (suc n) p
        ≡ (expr_additive alloc zero_val n (forward p) >>= close)
  unfolding expr_primary close
  primary_open p e = rw (e, expr_primary)

  pub primary_other :
      (p : Parser D) (o : TokenOp)
      → next_op p ≡ o
      → starts_primary o ≡ false
      → expr_primary alloc zero_val (suc n) p ≡ null_ptr
  unfolding expr_primary
  primary_other p op_val e h = cc
  primary_other p op_open e h = cc
  primary_other p _ e h = rw (e, expr_primary)

  pub unary_add :
      (p : Parser D)
      → next_op p ≡ op_add
      → expr_unary alloc zero_val (suc n) p ≡ expr_unary alloc zero_val n (forward p)
  unfolding expr_unary
  unary_add p e = rw (e, expr_unary)

  pub unary_sub :
      (p : Parser D)
      → next_op p ≡ op_sub
      → expr_unary alloc zero_val (suc n) p ≡ (
          mkd alloc zero_val p >>= λ m. expr_unary alloc zero_val n (forward m.1) >>= λ r.
          ok (node dag_neg m.0 zero_val null r.0, r.1))
  unfolding expr_unary
  unary_sub p e = rw (e, expr_unary)

  pub unary_other :
      (p : Parser D) (o : TokenOp)
      → next_op p ≡ o
      → is_sign o ≡ false
      → expr_unary alloc zero_val (suc n) p ≡ expr_primary alloc zero_val n p
  unfolding expr_unary
  unary_other p op_add e h = cc
  unary_other p op_sub e h = cc
  unary_other p _ e h = rw (e, expr_unary)

  -- A round of the multiplicative loop on the operation `o`, and of the additive one.
  unfoldable pub mul_round : DagOp → Parser D → Dag D → Parse (Dag D × Parser D)
  mul_round o p left = mkd alloc zero_val p >>= λ m.
      expr_unary alloc zero_val n (forward m.1) >>= λ r.
      mul_loop alloc zero_val n r.1 (node o m.0 zero_val left r.0) (node o m.0 zero_val left r.0)
      >>= λ d. mul_loop alloc zero_val n d.1 left d.0

  pub mul_times :
      (p : Parser D) (left dag : Dag D)
      → next_op p ≡ op_mul
      → mul_loop alloc zero_val (suc n) p left dag ≡ mul_round dag_mul p left
  unfolding mul_loop mul_round
  mul_times p left dag e = rw (e, mul_loop)

  pub mul_over :
      (p : Parser D) (left dag : Dag D)
      → next_op p ≡ op_div
      → mul_loop alloc zero_val (suc n) p left dag ≡ mul_round dag_div p left
  unfolding mul_loop mul_round
  mul_over p left dag e = rw (e, mul_loop)

  pub mul_stop :
      (p : Parser D) (left dag : Dag D) (o : TokenOp)
      → next_op p ≡ o
      → is_factor o ≡ false
      → mul_loop alloc zero_val (suc n) p left dag ≡ ok (dag, p)
  unfolding mul_loop
  mul_stop p left dag op_mul e h = cc
  mul_stop p left dag op_div e h = cc
  mul_stop p left dag _ e h = rw (e, mul_loop)

  unfoldable pub add_round : DagOp → Parser D → Dag D → Parse (Dag D × Parser D)
  add_round o p left = mkd alloc zero_val p >>= λ m.
      expr_multiplicative alloc zero_val n (forward m.1) >>= λ r.
      add_loop alloc zero_val n r.1 (node o m.0 zero_val left r.0) (node o m.0 zero_val left r.0)
      >>= λ d. add_loop alloc zero_val n d.1 left d.0

  pub add_plus :
      (p : Parser D) (left dag : Dag D)
      → next_op p ≡ op_add
      → add_loop alloc zero_val (suc n) p left dag ≡ add_round dag_add p left
  unfolding add_loop add_round
  add_plus p left dag e = rw (e, add_loop)

  pub add_minus :
      (p : Parser D) (left dag : Dag D)
      → next_op p ≡ op_sub
      → add_loop alloc zero_val (suc n) p left dag ≡ add_round dag_sub p left
  unfolding add_loop add_round
  add_minus p left dag e = rw (e, add_loop)

  pub add_stop :
      (p : Parser D) (left dag : Dag D) (o : TokenOp)
      → next_op p ≡ o
      → is_sign o ≡ false
      → add_loop alloc zero_val (suc n) p left dag ≡ ok (dag, p)
  unfolding add_loop
  add_stop p left dag op_add e h = cc
  add_stop p left dag op_sub e h = cc
  add_stop p left dag _ e h = rw (e, add_loop)
