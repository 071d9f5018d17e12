-- ===== src/Parser/Loops.antt =====
-- The two loops of the parser of p1/parser.c.
use mathlib.Core.List.{append-nil}
use operating_systems_cs.Common.{
  ℕ, zero, suc, ◌+◌, ◌*◌, ◌≤◌, Bool, true, false, not, List, [], ◌∷◌, length, ◌≡◌, refl, sym, subst,
  inl, inr, arith,
}
use operating_systems_cs.Parser.{
  TokenOp, Token, dag_mul, dag_div, dag_add, dag_sub, Dag, Parser, ok, next_op, expr_unary,
  mul_loop, expr_multiplicative, add_loop,
}
use operating_systems_cs.Parser.Steps.{
  is_sign, is_factor, sign_cases, factor_cases, mul_round, mul_times, mul_over, mul_stop, add_round,
  add_plus, add_minus, add_stop,
}
use operating_systems_cs.Parser.Shape.{IsExpr}
use operating_systems_cs.Parser.Grammar.{Kind, Derives}
use operating_systems_cs.Parser.Parsed.{at, GoodLoop}
use operating_systems_cs.Parser.Round.{round_lem}
use operating_systems_cs.Parser.Promise.{Spec}

module _ {D : Type 0} (alloc : ℕ → Bool) (zero_val : D) where
  module _ (n : ℕ) (ih : Spec alloc zero_val n) where
    mul_stops :
        (m : ℕ) (left : Dag D)
        → 1 ≤ m
        → (q : Parser D) (d : Dag D) → not (is_factor (next_op q)) ≡ true
        → mul_loop alloc zero_val m q left d ≡ ok (d, q)
    mul_stops zero left h q d s = absurd (omega arith)
    mul_stops (suc m) left h q d s =
        mul_stop alloc zero_val m q left d (next_op q) refl (ground arith)

    sum_stops :
        (m : ℕ) (left : Dag D)
        → 1 ≤ m
        → (q : Parser D) (d : Dag D) → not (is_sign (next_op q)) ≡ true
        → add_loop alloc zero_val m q left d ≡ ok (d, q)
    sum_stops zero left h q d s = absurd (omega arith)
    sum_stops (suc m) left h q d s =
        add_stop alloc zero_val m q left d (next_op q) refl (ground arith)

    stopped_mul :
        (p : Parser D) (left : Dag D) (before : List (Token D)) (lo : ℕ)
        → Derives Kind.multiplicative before left
        → IsExpr lo (suc p.id) left
        → is_factor (next_op p) ≡ false
        → GoodLoop Kind.multiplicative
            (λ o. not (is_factor o))
            before
            lo
            p
            (mul_loop alloc zero_val (suc n) p left left)
    stopped_mul p left before lo g s e =
        subst (GoodLoop Kind.multiplicative (λ o. not (is_factor o)) before lo p)
          (sym (mul_stop alloc zero_val n p left left (next_op p) refl e))
          (record {
            tokens = [];
            split = refl;
            derives = subst (λ s. Derives Kind.multiplicative s left) (sym (append-nil before)) g;
            ids = s;
            shorter = omega arith;
            few = omega arith;
            stopped = rw e refl;
          })

    pub mul_lem :
        (i : ℕ) (ts : List (Token D)) (left : Dag D) (before : List (Token D)) (lo : ℕ)
        → 4 * length ts + 1 ≤ suc n
        → Derives Kind.multiplicative before left
        → IsExpr lo (suc i) left
        → GoodLoop Kind.multiplicative
            (λ o. not (is_factor o))
            before
            lo
            (at i ts)
            (mul_loop alloc zero_val (suc n) (at i ts) left left)
    unfolding next_op mul_round
    mul_lem i [] left before lo h g s = stopped_mul (at i []) left before lo g s refl
    mul_lem i (t ∷ ts) left before lo h g s =
        let p = at i (t ∷ ts) in
        let stops = λ (o : TokenOp). not (is_factor o) in
        let P = GoodLoop Kind.multiplicative stops before lo p in
        elim (factor_cases t.op) [
          | inl e ↦ subst P (sym (mul_times alloc zero_val n p left left e)) (
              round_lem alloc zero_val Kind.multiplicative Kind.unary stops
                (expr_unary alloc zero_val n) (mul_loop alloc zero_val n) dag_mul i t ts before lo
                left s (λ hi r x. (s, x))
                (λ us r x. Derives.times t before us left r (suc i) zero_val g e x)
                (ih.unary (at (suc i) ts) (omega arith))
                (λ q d bs c. ih.mul q d bs lo (omega arith)) (mul_stops n left (omega arith)))
          | inr (inl e) ↦ subst P (sym (mul_over alloc zero_val n p left left e)) (
              round_lem alloc zero_val Kind.multiplicative Kind.unary stops
                (expr_unary alloc zero_val n) (mul_loop alloc zero_val n) dag_div i t ts before lo
                left s (λ hi r x. (s, x))
                (λ us r x. Derives.over t before us left r (suc i) zero_val g e x)
                (ih.unary (at (suc i) ts) (omega arith))
                (λ q d bs c. ih.mul q d bs lo (omega arith)) (mul_stops n left (omega arith)))
          | inr (inr e) ↦ stopped_mul p left before lo g s e
        ]

    stopped_sum :
        (p : Parser D) (left : Dag D) (before : List (Token D)) (lo : ℕ)
        → Derives Kind.additive before left
        → IsExpr lo (suc p.id) left
        → is_sign (next_op p) ≡ false
        → GoodLoop Kind.additive
            (λ o. not (is_sign o))
            before
            lo
            p
            (add_loop alloc zero_val (suc n) p left left)
    stopped_sum p left before lo g s e =
        subst (GoodLoop Kind.additive (λ o. not (is_sign o)) before lo p)
          (sym (add_stop alloc zero_val n p left left (next_op p) refl e))
          (record {
            tokens = [];
            split = refl;
            derives = subst (λ s. Derives Kind.additive s left) (sym (append-nil before)) g;
            ids = s;
            shorter = omega arith;
            few = omega arith;
            stopped = rw e refl;
          })

    pub sum_lem :
        (i : ℕ) (ts : List (Token D)) (left : Dag D) (before : List (Token D)) (lo : ℕ)
        → 4 * length ts + 1 ≤ suc n
        → Derives Kind.additive before left
        → IsExpr lo (suc i) left
        → GoodLoop Kind.additive
            (λ o. not (is_sign o))
            before
            lo
            (at i ts)
            (add_loop alloc zero_val (suc n) (at i ts) left left)
    unfolding next_op add_round
    sum_lem i [] left before lo h g s = stopped_sum (at i []) left before lo g s refl
    sum_lem i (t ∷ ts) left before lo h g s =
        let p = at i (t ∷ ts) in
        let stops = λ (o : TokenOp). not (is_sign o) in
        let P = GoodLoop Kind.additive stops before lo p in
        elim (sign_cases t.op) [
          | inl e ↦ subst P (sym (add_plus alloc zero_val n p left left e)) (
              round_lem alloc zero_val Kind.additive Kind.multiplicative stops
                (expr_multiplicative alloc zero_val n) (add_loop alloc zero_val n) dag_add i t ts
                before lo left s (λ hi r x. (s, x))
                (λ us r x. Derives.add t before us left r (suc i) zero_val g e x)
                (ih.multiplicative (at (suc i) ts) (omega arith))
                (λ q d bs c. ih.sum q d bs lo (omega arith)) (sum_stops n left (omega arith)))
          | inr (inl e) ↦ subst P (sym (add_minus alloc zero_val n p left left e)) (
              round_lem alloc zero_val Kind.additive Kind.multiplicative stops
                (expr_multiplicative alloc zero_val n) (add_loop alloc zero_val n) dag_sub i t ts
                before lo left s (λ hi r x. (s, x))
                (λ us r x. Derives.sub t before us left r (suc i) zero_val g e x)
                (ih.multiplicative (at (suc i) ts) (omega arith))
                (λ q d bs c. ih.sum q d bs lo (omega arith)) (sum_stops n left (omega arith)))
          | inr (inr e) ↦ stopped_sum p left before lo g s e
        ]
