-- ===== src/Parser/Round.antt =====
-- A round of the two loops of the parser of p1/parser.c.
use mathlib.Core.List.{append_assoc}
use operating_systems_cs.Common.{
  ℕ, suc, ◌<◌, Bool, true, Bool-cases, List, ◌∷◌, ◌++◌, length, ◌≡◌, sym, ap, ◌∙◌, subst, inl, inr,
  arith,
}
use operating_systems_cs.Parser.{
  TokenOp, Token, DagOp, Dag, node, Parser, Parse, ok, null_ptr, ◌>>=◌, next_op, forward, mkd,
}
use operating_systems_cs.Parser.Shape.{IsExpr}
use operating_systems_cs.Parser.Grammar.{Kind, Derives}
use operating_systems_cs.Parser.Parsed.{
  at, Parsed, Looped, Good, GoodLoop, Good-bind, GoodLoop-bind,
}

module _ {D : Type 0} (alloc : ℕ → Bool) (zero_val : D) where
  pub mkd-bind :
      {B : Type 0} (p : Parser D) (f : ℕ × Parser D → Parse B) (P : Parse B → Type 0)
      → P null_ptr
      → P (f (suc p.id, record p { id = suc p.id }))
      → P (mkd alloc zero_val p >>= f)
  unfolding mkd
  mkd-bind p f P n h = elim (Bool-cases (alloc p.id)) [
    | inl fits ↦ rw (fits, ◌>>=◌) h
    | inr full ↦ rw (full, ◌>>=◌) n
  ]

  -- A round of either loop behind the operator `t`, from what its operand and the loop promise.
  module _ (k operand_kind : Kind) (stops : TokenOp → Bool)
      (operand : Parser D → Parse (Dag D × Parser D))
      (loop : Parser D → Dag D → Dag D → Parse (Dag D × Parser D)) (o : DagOp) (i : ℕ) (t : Token D)
      (ts before : List (Token D)) (lo : ℕ) (left : Dag D) (left_ids : IsExpr lo (suc i) left)
      (builds : (hi : ℕ) (r : Dag D)
        → IsExpr (suc (suc i)) hi r
        → IsExpr lo hi (node o (suc i) zero_val left r))
      (derive : (us : List (Token D)) (r : Dag D)
        → Derives operand_kind us r
        → Derives k (before ++ t ∷ us) (node o (suc i) zero_val left r))
      (operand_good : Good operand_kind (at (suc i) ts) (operand (at (suc i) ts)))
      (loop_good : (q : Parser D) (d : Dag D) (bs : List (Token D))
        → length q.rest < length ts
        → Derives k bs d
        → IsExpr lo (suc q.id) d
        → GoodLoop k stops bs lo q (loop q d d))
      (loop_stops : (q : Parser D) (d : Dag D)
        → stops (next_op q) ≡ true
        → loop q left d ≡ ok (d, q)) where
    joined :
        (r : Dag D) (q : Parser D) (x : Parsed operand_kind (at (suc i) ts) r q) (d : Dag D)
        (q' : Parser D)
        → Looped k stops (before ++ t ∷ x.tokens) lo q d q'
        → Looped k stops before lo (at i (t ∷ ts)) d q'
    joined r q x d q' y = record {
      tokens = t ∷ (x.tokens ++ y.tokens);
      split =
          ap (λ s. t ∷ s)
            (x.split
              ∙ ap (λ s. x.tokens ++ s) y.split
              ∙ sym (append_assoc x.tokens y.tokens q'.rest));
      derives = subst (λ s. Derives k s d) (append_assoc before (t ∷ x.tokens) y.tokens) y.derives;
      ids = y.ids;
      shorter = omega (arith, x.shorter, y.shorter);
      few = omega (arith, x.few, y.few);
      stopped = y.stopped;
    }

    pub round_lem : GoodLoop k stops before lo (at i (t ∷ ts)) (
        mkd alloc zero_val (at i (t ∷ ts)) >>= λ m. operand (forward m.1) >>= λ r.
        loop r.1 (node o m.0 zero_val left r.0) (node o m.0 zero_val left r.0) >>= λ d.
        loop d.1 left d.0)
    unfolding forward
    round_lem =
        let P = GoodLoop k stops before lo (at i (t ∷ ts)) in
        mkd-bind (at i (t ∷ ts)) _ P tt (
          Good-bind operand_kind (at (suc i) ts) (operand (at (suc i) ts)) _ P operand_good tt
            (λ r q x.
              let d' = node o (suc i) zero_val left r in
              GoodLoop-bind k stops (before ++ t ∷ x.tokens) lo q (loop q d' d') _ P
                (loop_good q d' _ x.shorter (derive _ _ x.derives) (builds _ _ x.ids)) tt
                (λ d q' y. subst P (sym (loop_stops q' d y.stopped)) (joined r q x d q' y))))
