-- ===== src/Parser/Total.antt =====
-- The induction on the fuel of the parser of p1/parser.c, and `top` on the tokens of a text.
use mathlib.Core.List.{append-nil}
use operating_systems_cs.Common.{
  ℕ, zero, suc, ◌+◌, ◌*◌, ◌≤◌, Bool, not, List, [], ◌∷◌, ◌++◌, length, ◌≡◌, ◌≢◌, refl, sym, ◌∙◌,
  subst, ◌⊎◌, inl, inr, arith,
}
use operating_systems_cs.Parser.{
  TokenOp, op_end, Token, Dag, Parser, Parse, ok, null_ptr, next_op, expr_unary, mul_loop,
  expr_multiplicative, add_loop, expr_additive, top,
}
use operating_systems_cs.Parser.Steps.{is_sign, is_factor}
use operating_systems_cs.Parser.Shape.{IsExpr}
use operating_systems_cs.Parser.Grammar.{Kind, Derives}
use operating_systems_cs.Parser.Parsed.{at, Parsed, Good, Good-bind, followed_by}
use operating_systems_cs.Parser.Promise.{Spec, unary_lem, primary_lem}
use operating_systems_cs.Parser.Loops.{mul_lem, sum_lem}

module _ {D : Type 0} where
  -- A parse of the whole text: the tree and the state at its end.
  pub record Complete (tokens : List (Token D)) (d : Dag D) (p : Parser D) : Type 0 where
    pub derives : Derives Kind.additive tokens d
    pub ids : IsExpr 1 (suc p.id) d
    pub few : p.id ≤ length tokens

  -- The lexer makes no token for the end of the text.
  abbrev pub NoEnd : List (Token D) → Type 0
  NoEnd [] = Unit
  NoEnd (t ∷ ts) = (t.op ≢ op_end) × NoEnd ts

  NoEnd-inside : (xs ts : List (Token D)) (t : Token D) → NoEnd (xs ++ t ∷ ts) → t.op ≢ op_end
  NoEnd-inside [] ts t h = h.0
  NoEnd-inside (x ∷ xs) ts t h = NoEnd-inside xs ts t h.1

  -- What `top` does with the result of its call of `expr_additive`.
  whole_text : Dag D × Parser D → Parse (Dag D × Parser D)
  unfolding next_op
  whole_text d = elim (next_op d.1) [ op_end ↦ ok d | _ ↦ null_ptr ]

  -- It ends without a tree, or with one of all of the tokens.
  abbrev Ends : List (Token D) → Parse (Dag D × Parser D) → Type 0
  Ends tokens r =
      (r ≡ null_ptr) ⊎ ((d : Dag D) × (p : Parser D) × (r ≡ ok (d, p)) × Complete tokens d p)

  unfinished :
      (d : Dag D) (p : Parser D) (o : TokenOp)
      → next_op p ≡ o
      → o ≢ op_end
      → whole_text (d, p) ≡ null_ptr
  unfolding whole_text
  unfinished d p op_end e h = absurd (h refl)
  unfinished d p _ e h = rw (e, whole_text)

  whole_text-Ends :
      (tokens : List (Token D)) (d : Dag D) (i : ℕ) (rest : List (Token D))
      → NoEnd tokens
      → Parsed Kind.additive (at 0 tokens) d (at i rest)
      → Ends tokens (whole_text (d, at i rest))
  unfolding whole_text next_op
  whole_text-Ends tokens d i [] h x = inr (
    d,
    at i [],
    refl,
    record {
      derives =
          subst (λ s. Derives Kind.additive s d) (sym (x.split ∙ append-nil x.tokens)) x.derives;
      ids = x.ids;
      few = omega (arith, x.few);
    },
  )
  whole_text-Ends tokens d i (t ∷ ts) h x =
      inl (
        unfinished d (at i (t ∷ ts)) t.op refl (NoEnd-inside x.tokens ts t (subst NoEnd x.split h)))

module _ {D : Type 0} (alloc : ℕ → Bool) (zero_val : D) where
  module _ (n : ℕ) (ih : Spec alloc zero_val n) where
    multiplicative_lem :
        (p : Parser D)
        → 4 * length p.rest + 3 ≤ suc n
        → Good Kind.multiplicative p (expr_multiplicative alloc zero_val (suc n) p)
    unfolding expr_multiplicative
    multiplicative_lem p h =
        let P = Good Kind.multiplicative p in
        let stops = λ (o : TokenOp). not (is_factor o) in
        Good-bind Kind.unary p (expr_unary alloc zero_val n p) _ P (ih.unary p (omega arith)) tt
          (λ d q x.
            followed_by Kind.unary Kind.multiplicative stops p d q x
              (mul_loop alloc zero_val n q d d)
              (ih.mul q d x.tokens (suc p.id) (omega (arith, x.shorter))
                (Derives.one_unary _ _ x.derives) x.ids))

    additive_lem :
        (p : Parser D)
        → 4 * length p.rest + 4 ≤ suc n
        → Good Kind.additive p (expr_additive alloc zero_val (suc n) p)
    unfolding expr_additive
    additive_lem p h =
        let P = Good Kind.additive p in
        let stops = λ (o : TokenOp). not (is_sign o) in
        Good-bind Kind.multiplicative p (expr_multiplicative alloc zero_val n p) _ P
          (ih.multiplicative p (omega arith)) tt
          (λ d q x.
            followed_by Kind.multiplicative Kind.additive stops p d q x
              (add_loop alloc zero_val n q d d)
              (ih.sum q d x.tokens (suc p.id) (omega (arith, x.shorter))
                (Derives.one_multiplicative _ _ x.derives) x.ids))

  Spec-zero : Spec alloc zero_val 0
  Spec-zero = record {
    primary = λ p h. absurd (omega arith);
    unary = λ p h. absurd (omega arith);
    mul = λ p left before lo h. absurd (omega arith);
    multiplicative = λ p h. absurd (omega arith);
    sum = λ p left before lo h. absurd (omega arith);
    additive = λ p h. absurd (omega arith);
  }

  spec : (n : ℕ) → Spec alloc zero_val n
  spec zero = Spec-zero
  spec (suc n) = record {
    primary = λ p. primary_lem alloc zero_val n (spec n) p.id p.rest;
    unary = λ p. unary_lem alloc zero_val n (spec n) p.id p.rest;
    mul = λ p. mul_lem alloc zero_val n (spec n) p.id p.rest;
    multiplicative = multiplicative_lem n (spec n);
    sum = λ p. sum_lem alloc zero_val n (spec n) p.id p.rest;
    additive = additive_lem n (spec n);
  }

  -- `top` ends on any tokens of the lexer, whichever allocations fail, and a tree that it returns is one
  -- that the grammar gives to all of the tokens, with ids from 1 to the number of the tokens, of which none
  -- occurs twice.
  pub top-Complete :
      (tokens : List (Token D))
      → NoEnd tokens
      → (top alloc zero_val (4 * length tokens + 4) tokens ≡ null_ptr)
        ⊎ ((d : Dag D) × (p : Parser D) × (top alloc zero_val (4 * length tokens + 4) tokens
              ≡ ok (d, p))
            × Complete tokens d p)
  unfolding top whole_text
  top-Complete tokens h =
      Good-bind Kind.additive (at 0 tokens) _ whole_text (Ends tokens)
        ((spec (4 * length tokens + 4)).additive (at 0 tokens) (omega arith)) (inl refl)
        (λ d p x. whole_text-Ends tokens d p.id p.rest h x)
