-- ===== src/Parser/Parsed.antt =====
-- What a call of the parser of p1/parser.c returns: the end of the call, the tokens that it took and
-- the tree that they derive.
use mathlib.Core.List.{append_assoc}
use operating_systems_cs.Common.{
  ℕ, suc, ◌+◌, ◌<◌, ◌≤◌, Bool, true, List, [], ◌∷◌, ◌++◌, length, ◌≡◌, refl, sym, ap, ◌∙◌, subst,
  inl, inr, arith,
}
use operating_systems_cs.Parser.{
  TokenOp, op_end, op_add, op_sub, op_open, Token, dag_neg, Dag, null, node, Parser, Parse, ok,
  null_ptr, no_fuel, ◌>>=◌, next_op, forward,
}
use operating_systems_cs.Parser.Steps.{close, close_cases, close_ok, close_null}
use operating_systems_cs.Parser.Shape.{IsExpr}
use operating_systems_cs.Parser.Grammar.{Kind, Derives}

abbrev pub at : {D : Type 0} → ℕ → List (Token D) → Parser D
at i ts = record { id = i; rest = ts }

module _ {D : Type 0} where
  -- A successful call from `p` to `p'`: the tokens in between derive the tree, whose ids are
  -- new, and not more than the tokens.
  pub record Parsed (k : Kind) (p : Parser D) (d : Dag D) (p' : Parser D) : Type 0 where
    pub tokens : List (Token D)
    pub split : p.rest ≡ tokens ++ p'.rest
    pub derives : Derives k tokens d
    pub ids : IsExpr (suc p.id) (suc p'.id) d
    pub shorter : length p'.rest < length p.rest
    pub few : p'.id + length p'.rest ≤ p.id + length p.rest

  -- The call ends, and a tree that it returns is a parsed one.
  abbrev pub Good : Kind → Parser D → Parse (Dag D × Parser D) → Type 0
  Good k p (ok r) = Parsed k p r.0 r.1
  Good k p null_ptr = Unit
  Good k p no_fuel = ⊥

  -- A loop that started behind `before` with the tree `left` of these tokens.
  pub record Looped (k : Kind) (stops : TokenOp → Bool) (before : List (Token D)) (lo : ℕ)
      (p : Parser D) (d : Dag D) (p' : Parser D) : Type 0 where
    pub tokens : List (Token D)
    pub split : p.rest ≡ tokens ++ p'.rest
    pub derives : Derives k (before ++ tokens) d
    pub ids : IsExpr lo (suc p'.id) d
    pub shorter : length p'.rest ≤ length p.rest
    pub few : p'.id + length p'.rest ≤ p.id + length p.rest
    pub stopped : stops (next_op p') ≡ true

  abbrev pub GoodLoop :
      Kind → (TokenOp → Bool) → List (Token D) → ℕ → Parser D → Parse (Dag D × Parser D) → Type 0
  GoodLoop k stops before lo p (ok r) = Looped k stops before lo p r.0 r.1
  GoodLoop k stops before lo p null_ptr = Unit
  GoodLoop k stops before lo p no_fuel = ⊥

  pub Good-bind :
      {B : Type 0} (k : Kind) (p : Parser D) (r : Parse (Dag D × Parser D))
      (f : Dag D × Parser D → Parse B) (P : Parse B → Type 0)
      → Good k p r
      → P null_ptr
      → ((d : Dag D) (p' : Parser D) → Parsed k p d p' → P (f (d, p')))
      → P (r >>= f)
  Good-bind k p (ok r) f P g n h = h r.0 r.1 g
  Good-bind k p null_ptr f P g n h = n
  Good-bind k p no_fuel f P g n h = absurd g

  pub GoodLoop-bind :
      {B : Type 0} (k : Kind) (stops : TokenOp → Bool) (before : List (Token D)) (lo : ℕ)
      (p : Parser D) (r : Parse (Dag D × Parser D)) (f : Dag D × Parser D → Parse B)
      (P : Parse B → Type 0)
      → GoodLoop k stops before lo p r
      → P null_ptr
      → ((d : Dag D) (p' : Parser D) → Looped k stops before lo p d p' → P (f (d, p')))
      → P (r >>= f)
  GoodLoop-bind k stops before lo p (ok r) f P g n h = h r.0 r.1 g
  GoodLoop-bind k stops before lo p null_ptr f P g n h = n
  GoodLoop-bind k stops before lo p no_fuel f P g n h = absurd g

  pub Good-map :
      {k k' : Kind} {p p' : Parser D}
      → ((d : Dag D) (q : Parser D) → Parsed k p d q → Parsed k' p' d q)
      → (r : Parse (Dag D × Parser D)) → Good k p r
      → Good k' p' r
  Good-map f (ok r) g = f r.0 r.1 g
  Good-map f null_ptr g = tt
  Good-map f no_fuel g = g

  pub widen_primary :
      {p q : Parser D} {d : Dag D} → Parsed Kind.primary p d q → Parsed Kind.unary p d q
  widen_primary x = record {
    tokens = x.tokens;
    split = x.split;
    derives = Derives.one_primary _ _ x.derives;
    ids = x.ids;
    shorter = x.shorter;
    few = x.few;
  }

  pub after_plus :
      {i : ℕ} {ts : List (Token D)} {q : Parser D} {d : Dag D} (t : Token D)
      → t.op ≡ op_add
      → Parsed Kind.unary (at i ts) d q
      → Parsed Kind.unary (at i (t ∷ ts)) d q
  after_plus t e x = record {
    tokens = t ∷ x.tokens;
    split = ap (λ s. t ∷ s) x.split;
    derives = Derives.plus t _ _ e x.derives;
    ids = x.ids;
    shorter = omega (arith, x.shorter);
    few = omega (arith, x.few);
  }

  pub after_minus :
      {i : ℕ} {ts : List (Token D)} {q : Parser D} {d : Dag D} (v : D) (t : Token D)
      → t.op ≡ op_sub
      → Parsed Kind.unary (at (suc i) ts) d q
      → Parsed Kind.unary (at i (t ∷ ts)) (node dag_neg (suc i) v null d) q
  after_minus v t e x = record {
    tokens = t ∷ x.tokens;
    split = ap (λ s. t ∷ s) x.split;
    derives = Derives.minus t _ _ _ v e x.derives;
    ids = (omega arith, x.ids);
    shorter = omega (arith, x.shorter);
    few = omega (arith, x.few);
  }

  -- A phrase and the loop behind it.
  pub followed_by :
      (k k' : Kind) (stops : TokenOp → Bool) (p : Parser D) (d : Dag D) (q : Parser D)
      (x : Parsed k p d q) (r : Parse (Dag D × Parser D))
      → GoodLoop k' stops x.tokens (suc p.id) q r
      → Good k' p r
  followed_by k k' stops p d q x (ok r) y = record {
    tokens = x.tokens ++ y.tokens;
    split = x.split ∙ ap (λ s. x.tokens ++ s) y.split ∙ sym (append_assoc x.tokens y.tokens _);
    derives = y.derives;
    ids = y.ids;
    shorter = omega (arith, x.shorter, y.shorter);
    few = omega (arith, x.few, y.few);
  }
  followed_by k k' stops p d q x null_ptr y = tt
  followed_by k k' stops p d q x no_fuel y = y

  -- Behind an expression in parentheses.
  pub closed :
      {i : ℕ} {ts : List (Token D)} (t : Token D)
      → t.op ≡ op_open
      → (d : Dag D) (j : ℕ) (rest : List (Token D)) → Parsed Kind.additive (at i ts) d (at j rest)
      → Good Kind.primary (at i (t ∷ ts)) (close (d, at j rest))
  unfolding next_op forward
  closed t e d j [] x =
      subst (Good Kind.primary _) (sym (close_null d (at j []) op_end refl refl)) tt
  closed {i} {ts} t e d j (c ∷ rest) x = elim (close_cases c.op) [
    | inr other ↦
        subst (Good Kind.primary _) (sym (close_null d (at j (c ∷ rest)) c.op refl other)) tt
    | inl same ↦
        subst (Good Kind.primary (at i (t ∷ ts))) (sym (close_ok d (at j (c ∷ rest)) same))
          (record {
            tokens = t ∷ (x.tokens ++ c ∷ []);
            split = ap (λ s. t ∷ s) (x.split ∙ sym (append_assoc x.tokens (c ∷ []) rest));
            derives = Derives.parens t c x.tokens d e same x.derives;
            ids = x.ids;
            shorter = omega (arith, x.shorter);
            few = omega (arith, x.few);
          })
  ]
