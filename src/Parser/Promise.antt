-- ===== src/Parser/Promise.antt =====
-- What the six functions of the parser of p1/parser.c promise with enough fuel, and the two of them
-- without a loop.
use operating_systems_cs.Common.{
  ℕ, suc, ◌+◌, ◌*◌, ◌≤◌, Bool, not, List, [], ◌∷◌, length, refl, sym, subst, inl, inr, arith,
}
use operating_systems_cs.Parser.{
  op_end, Token, Dag, Parser, next_op, forward, next_val, expr_primary, expr_unary, mul_loop,
  expr_multiplicative, add_loop, expr_additive,
}
use operating_systems_cs.Parser.Steps.{
  is_sign, is_factor, sign_cases, primary_cases, primary_val, primary_open, primary_other,
  unary_add, unary_sub, unary_other,
}
use operating_systems_cs.Parser.Shape.{IsExpr}
use operating_systems_cs.Parser.Grammar.{Kind, Derives}
use operating_systems_cs.Parser.Parsed.{
  at, Good, GoodLoop, Good-bind, Good-map, widen_primary, after_plus, after_minus, closed,
}
use operating_systems_cs.Parser.Round.{mkd-bind}

module _ {D : Type 0} (alloc : ℕ → Bool) (zero_val : D) where
  -- The six functions with fuel `n`, enough for the tokens that are left.
  pub record Spec (n : ℕ) : Type 0 where
    pub primary :
        (p : Parser D)
        → 4 * length p.rest + 1 ≤ n
        → Good Kind.primary p (expr_primary alloc zero_val n p)
    pub unary :
        (p : Parser D)
        → 4 * length p.rest + 2 ≤ n
        → Good Kind.unary p (expr_unary alloc zero_val n p)
    pub mul :
        (p : Parser D) (left : Dag D) (before : List (Token D)) (lo : ℕ)
        → 4 * length p.rest + 1 ≤ n
        → Derives Kind.multiplicative before left
        → IsExpr lo (suc p.id) left
        → GoodLoop Kind.multiplicative
            (λ o. not (is_factor o))
            before
            lo
            p
            (mul_loop alloc zero_val n p left left)
    pub multiplicative :
        (p : Parser D)
        → 4 * length p.rest + 3 ≤ n
        → Good Kind.multiplicative p (expr_multiplicative alloc zero_val n p)
    pub sum :
        (p : Parser D) (left : Dag D) (before : List (Token D)) (lo : ℕ)
        → 4 * length p.rest + 1 ≤ n
        → Derives Kind.additive before left
        → IsExpr lo (suc p.id) left
        → GoodLoop Kind.additive
            (λ o. not (is_sign o))
            before
            lo
            p
            (add_loop alloc zero_val n p left left)
    pub additive :
        (p : Parser D)
        → 4 * length p.rest + 4 ≤ n
        → Good Kind.additive p (expr_additive alloc zero_val n p)

  module _ (n : ℕ) (ih : Spec n) where
    pub unary_lem :
        (i : ℕ) (ts : List (Token D))
        → 4 * length ts + 2 ≤ suc n
        → Good Kind.unary (at i ts) (expr_unary alloc zero_val (suc n) (at i ts))
    unfolding next_op forward
    unary_lem i [] h =
        subst (Good Kind.unary (at i []))
          (sym (unary_other alloc zero_val n (at i []) op_end refl refl))
          (Good-map (λ d q x. widen_primary x) _ (ih.primary (at i []) (omega arith)))
    unary_lem i (t ∷ ts) h =
        let p = at i (t ∷ ts) in
        elim (sign_cases t.op) [
          | inl e ↦
              subst (Good Kind.unary p) (sym (unary_add alloc zero_val n p e))
                (Good-map (λ d q x. after_plus t e x) _ (ih.unary (at i ts) (omega arith)))
          | inr (inl e) ↦ subst (Good Kind.unary p) (sym (unary_sub alloc zero_val n p e)) (
              mkd-bind alloc zero_val p _ (Good Kind.unary p) tt (
                Good-bind Kind.unary (at (suc i) ts) _ _ (Good Kind.unary p)
                  (ih.unary (at (suc i) ts) (omega arith)) tt
                  (λ d q x. after_minus zero_val t e x)))
          | inr (inr e) ↦
              subst (Good Kind.unary p) (sym (unary_other alloc zero_val n p t.op refl e))
                (Good-map (λ d q x. widen_primary x) _ (ih.primary p (omega arith)))
        ]

    pub primary_lem :
        (i : ℕ) (ts : List (Token D))
        → 4 * length ts + 1 ≤ suc n
        → Good Kind.primary (at i ts) (expr_primary alloc zero_val (suc n) (at i ts))
    unfolding next_op forward next_val
    primary_lem i [] h =
        subst (Good Kind.primary (at i []))
          (sym (primary_other alloc zero_val n (at i []) op_end refl refl)) tt
    primary_lem i (t ∷ ts) h =
        let p = at i (t ∷ ts) in
        elim (primary_cases t.op) [
          | inl e ↦ subst (Good Kind.primary p) (sym (primary_val alloc zero_val n p e)) (
              mkd-bind alloc zero_val p _ (Good Kind.primary p) tt (record {
                tokens = t ∷ [];
                split = refl;
                derives = Derives.val t (suc i) e;
                ids = omega arith;
                shorter = omega arith;
                few = omega arith;
              }))
          | inr (inl e) ↦ subst (Good Kind.primary p) (sym (primary_open alloc zero_val n p e)) (
              Good-bind Kind.additive (at i ts) _ _ (Good Kind.primary p)
                (ih.additive (at i ts) (omega arith)) tt (λ d q x. closed t e d q.id q.rest x))
          | inr (inr e) ↦
              subst (Good Kind.primary p) (sym (primary_other alloc zero_val n p t.op refl e)) tt
        ]
