-- ===== src/Parser/Accepts.antt =====
-- The parser of p1/parser.c where every allocation succeeds: it takes every text of the grammar.
use mathlib.Core.List.{append_assoc, append-nil}
use operating_systems_cs.Common.{
  ℕ, zero, suc, Bool, true, false, List, [], ◌∷◌, ◌++◌, ◌≡◌, refl, sym, ◌∙◌, subst, ◌⊎◌, inl, inr,
}
use operating_systems_cs.Parser.{
  TokenOp, op_val, op_add, op_sub, op_open, op_close, Token, DagOp, dag_mul, dag_div, dag_add,
  dag_sub, dag_neg, Dag, node, null, Parser, ok, null_ptr, no_fuel, ◌>>=◌, next_op, forward, mkd,
  expr_primary, expr_unary, mul_loop, expr_multiplicative, add_loop, expr_additive, op_end, top,
}
use operating_systems_cs.Parser.Steps.{
  is_sign, is_factor, starts_primary, close, close_ok, primary_val, primary_open, unary_add,
  unary_sub, unary_other, mul_round, mul_times, mul_over, add_round, add_plus, add_minus,
}
use operating_systems_cs.Parser.Grammar.{Kind, Derives}
use operating_systems_cs.Parser.Parsed.{at}
use operating_systems_cs.Parser.Stops.{
  Reply, Takes, Takes-bind, Takes-twice, mul_loop-Stops, add_loop-Stops, mul_stays, add_stays,
}

module _ {D : Type 0} (alloc : ℕ → Bool) (zero_val : D) where
  module _ (always : (k : ℕ) → alloc k ≡ true) where
    mkd_ok : (p : Parser D) → mkd alloc zero_val p ≡ ok (suc p.id, record p { id = suc p.id })
    unfolding mkd
    mkd_ok p = rw (always p.id) refl

    -- A phrase of the kind, with any text behind it, is taken by a caller that takes every tree for it
    -- and goes on with that text. The phrase of a loop is handed to the next round.
    abbrev Accepts : Kind → List (Token D) → Type 0
    Accepts Kind.primary ts =
        (n i : ℕ) (rest : List (Token D)) (f : Dag D × Parser D → Reply D)
        → ((j : ℕ) (d : Dag D) → Takes (f (d, at j rest)))
        → Takes (expr_primary alloc zero_val n (at i (ts ++ rest)) >>= f)
    Accepts Kind.unary ts =
        (n i : ℕ) (rest : List (Token D)) (f : Dag D × Parser D → Reply D)
        → ((j : ℕ) (d : Dag D) → Takes (f (d, at j rest)))
        → Takes (expr_unary alloc zero_val n (at i (ts ++ rest)) >>= f)
    Accepts Kind.multiplicative ts =
        (n i : ℕ) (rest : List (Token D)) (f : Dag D × Parser D → Reply D)
        → ((m j : ℕ) (d : Dag D) → Takes (mul_loop alloc zero_val m (at j rest) d d >>= f))
        → Takes (expr_multiplicative alloc zero_val n (at i (ts ++ rest)) >>= f)
    Accepts Kind.additive ts =
        (n i : ℕ) (rest : List (Token D)) (f : Dag D × Parser D → Reply D)
        → is_factor (next_op (at i rest)) ≡ false
        → ((m j : ℕ) (d : Dag D) → Takes (add_loop alloc zero_val m (at j rest) d d >>= f))
        → Takes (expr_additive alloc zero_val n (at i (ts ++ rest)) >>= f)

    val_lem : (t : Token D) → t.op ≡ op_val → Accepts Kind.primary (t ∷ [])
    unfolding expr_primary forward next_op
    val_lem t e zero i rest f k = tt
    val_lem t e (suc n) i rest f k =
        subst (λ r. Takes (r >>= f)) (sym (primary_val alloc zero_val n (at i (t ∷ rest)) e))
          (rw (mkd_ok (at i (t ∷ rest))) (k (suc i) _))

    parens_lem :
        (o c : Token D) (ts : List (Token D))
        → o.op ≡ op_open
        → c.op ≡ op_close
        → Accepts Kind.additive ts
        → Accepts Kind.primary (o ∷ (ts ++ c ∷ []))
    unfolding expr_primary forward next_op
    parens_lem o c ts e g h zero i rest f k = tt
    parens_lem o c ts e g h (suc n) i rest f k =
        subst (λ us. Takes (expr_primary alloc zero_val (suc n) (at i (o ∷ us)) >>= f))
          (sym (append_assoc ts (c ∷ []) rest))
          (subst (λ r. Takes (r >>= f))
            (sym (primary_open alloc zero_val n (at i (o ∷ (ts ++ c ∷ rest))) e))
            (Takes-bind _ close f (
              h n i (c ∷ rest) (λ x. close x >>= f) (rw g refl)
                (λ m j d.
                  goes_on (add_loop alloc zero_val m (at j (c ∷ rest)) d d) j d
                    (add_stays alloc zero_val m d d (at j (c ∷ rest)) (rw g refl))))))
      where
        goes_on :
            (r : Reply D) (j : ℕ) (d : Dag D)
            → (r ≡ ok (d, at j (c ∷ rest))) ⊎ (r ≡ no_fuel)
            → Takes (r >>= λ x. close x >>= f)
        goes_on r j d (inl q) =
            subst (λ r'. Takes (r' >>= λ x. close x >>= f)) (sym q)
              (subst (λ r'. Takes (r' >>= f)) (sym (close_ok d (at j (c ∷ rest)) g)) (k j d))
        goes_on r j d (inr q) = subst (λ r'. Takes (r' >>= λ x. close x >>= f)) (sym q) tt

    plus_lem :
        (t : Token D) (ts : List (Token D))
        → t.op ≡ op_add
        → Accepts Kind.unary ts
        → Accepts Kind.unary (t ∷ ts)
    unfolding expr_unary forward next_op
    plus_lem t ts e h zero i rest f k = tt
    plus_lem t ts e h (suc n) i rest f k =
        subst (λ r. Takes (r >>= f)) (sym (unary_add alloc zero_val n (at i (t ∷ (ts ++ rest))) e))
          (h n i rest f k)

    minus_lem :
        (t : Token D) (ts : List (Token D))
        → t.op ≡ op_sub
        → Accepts Kind.unary ts
        → Accepts Kind.unary (t ∷ ts)
    unfolding expr_unary forward next_op
    minus_lem t ts e h zero i rest f k = tt
    minus_lem t ts e h (suc n) i rest f k =
        subst (λ r. Takes (r >>= f)) (sym (unary_sub alloc zero_val n (at i (t ∷ (ts ++ rest))) e))
          (rw (mkd_ok (at i (t ∷ (ts ++ rest)))) (
            Takes-bind (expr_unary alloc zero_val n (at (suc i) (ts ++ rest))) (negate i) f (
              h n (suc i) rest (λ x. negate i x >>= f)
                (λ j d. k j (node dag_neg (suc i) zero_val null d)))))
      where
        negate : ℕ → Dag D × Parser D → Reply D
        negate i r = ok (node dag_neg (suc i) zero_val null r.0, r.1)

    one_primary_lem :
        (ts : List (Token D))
        → ((rest : List (Token D)) → starts_primary (next_op (at 0 (ts ++ rest))) ≡ true)
        → Accepts Kind.primary ts
        → Accepts Kind.unary ts
    unfolding expr_unary next_op
    one_primary_lem ts s h zero i rest f k = tt
    one_primary_lem ts s h (suc n) i rest f k =
        subst (λ r. Takes (r >>= f))
          (sym (unary_other alloc zero_val n (at i (ts ++ rest)) _ refl (no_sign _ (s rest))))
          (h n i rest f k)
      where
        no_sign : (o : TokenOp) → starts_primary o ≡ true → is_sign o ≡ false
        no_sign op_val e = refl
        no_sign op_open e = refl
        no_sign _ e = absurd (cc e)

    one_unary_lem : (ts : List (Token D)) → Accepts Kind.unary ts → Accepts Kind.multiplicative ts
    unfolding expr_multiplicative
    one_unary_lem ts h zero i rest f k = tt
    one_unary_lem ts h (suc n) i rest f k =
        Takes-bind (expr_unary alloc zero_val n (at i (ts ++ rest)))
          (λ d. mul_loop alloc zero_val n d.1 d.0 d.0) f
          (h n i rest (λ d. mul_loop alloc zero_val n d.1 d.0 d.0 >>= f) (λ j d. k n j d))

    -- A round of the loop, whose operation makes nodes of one kind.
    mul_round_lem :
        (o : DagOp) (t : Token D) (us : List (Token D))
        → Accepts Kind.unary us
        → (n i : ℕ) (rest : List (Token D)) (f : Dag D × Parser D → Reply D)
        → ((m j : ℕ) (d : Dag D) → Takes (mul_loop alloc zero_val m (at j rest) d d >>= f))
        → (dag : Dag D) → Takes (mul_round alloc zero_val n o (at i (t ∷ (us ++ rest))) dag >>= f)
    unfolding mul_round forward
    mul_round_lem o t us h n i rest f k dag = rw (mkd_ok (at i (t ∷ (us ++ rest)))) (
        Takes-bind (expr_unary alloc zero_val n (at (suc i) (us ++ rest))) again f (
          h n (suc i) rest (λ x. again x >>= f)
            (λ j d.
              Takes-twice is_factor (λ e. mul_loop alloc zero_val n e.1 dag e.0)
                (λ e q s. mul_stays alloc zero_val n dag e q s)
                (mul_loop alloc zero_val n (at j rest) (made d) (made d)) f
                (mul_loop-Stops alloc zero_val n (at j rest) (made d) (made d)) (k n j (made d)))))
      where
        made : Dag D → Dag D
        made d = node o (suc i) zero_val dag d

        again : Dag D × Parser D → Reply D
        again r = mul_loop alloc zero_val n r.1 (made r.0) (made r.0) >>= λ d.
            mul_loop alloc zero_val n d.1 dag d.0

    add_round_lem :
        (o : DagOp) (t : Token D) (us : List (Token D))
        → Accepts Kind.multiplicative us
        → (n i : ℕ) (rest : List (Token D)) (f : Dag D × Parser D → Reply D)
        → is_factor (next_op (at 0 rest)) ≡ false
        → ((m j : ℕ) (d : Dag D) → Takes (add_loop alloc zero_val m (at j rest) d d >>= f))
        → (dag : Dag D) → Takes (add_round alloc zero_val n o (at i (t ∷ (us ++ rest))) dag >>= f)
    unfolding add_round forward next_op
    add_round_lem o t us h n i rest f stop k dag = rw (mkd_ok (at i (t ∷ (us ++ rest)))) (
        Takes-bind (expr_multiplicative alloc zero_val n (at (suc i) (us ++ rest))) again f (
          h n (suc i) rest (λ x. again x >>= f)
            (λ m j d.
              goes_on (mul_loop alloc zero_val m (at j rest) d d) j d
                (mul_stays alloc zero_val m d d (at j rest) stop))))
      where
        made : Dag D → Dag D
        made d = node o (suc i) zero_val dag d

        again : Dag D × Parser D → Reply D
        again r = add_loop alloc zero_val n r.1 (made r.0) (made r.0) >>= λ d.
            add_loop alloc zero_val n d.1 dag d.0

        goes_on :
            (r : Reply D) (j : ℕ) (d : Dag D)
            → (r ≡ ok (d, at j rest)) ⊎ (r ≡ no_fuel)
            → Takes (r >>= λ x. again x >>= f)
        goes_on r j d (inr q) = subst (λ r'. Takes (r' >>= λ x. again x >>= f)) (sym q) tt
        goes_on r j d (inl q) =
            subst (λ r'. Takes (r' >>= λ x. again x >>= f)) (sym q)
              (Takes-twice is_sign (λ e. add_loop alloc zero_val n e.1 dag e.0)
                (λ e q s. add_stays alloc zero_val n dag e q s)
                (add_loop alloc zero_val n (at j rest) (made d) (made d)) f
                (add_loop-Stops alloc zero_val n (at j rest) (made d) (made d)) (k n j (made d)))

    -- A text with a loop over its operations, and one more operation.
    times_lem :
        (o : DagOp) (t : Token D) (ts us : List (Token D))
        → ((n : ℕ) (p : Parser D) (left dag : Dag D)
            → next_op p ≡ t.op
            → mul_loop alloc zero_val (suc n) p left dag ≡ mul_round alloc zero_val n o p left)
        → Accepts Kind.multiplicative ts
        → Accepts Kind.unary us
        → Accepts Kind.multiplicative (ts ++ t ∷ us)
    unfolding mul_loop next_op
    times_lem o t ts us step h g n i rest f k =
        subst (λ vs. Takes (expr_multiplicative alloc zero_val n (at i vs) >>= f))
          (sym (append_assoc ts (t ∷ us) rest))
          (h n i (t ∷ (us ++ rest)) f (λ m j d. one_more m j d))
      where
        one_more :
            (m j : ℕ) (d : Dag D)
            → Takes (mul_loop alloc zero_val m (at j (t ∷ (us ++ rest))) d d >>= f)
        one_more zero j d = tt
        one_more (suc m) j d =
            subst (λ r. Takes (r >>= f)) (sym (step m (at j (t ∷ (us ++ rest))) d d refl))
              (mul_round_lem o t us g m j rest f k d)

    add_lem :
        (o : DagOp) (t : Token D) (ts us : List (Token D))
        → is_factor t.op ≡ false
        → ((n : ℕ) (p : Parser D) (left dag : Dag D)
            → next_op p ≡ t.op
            → add_loop alloc zero_val (suc n) p left dag ≡ add_round alloc zero_val n o p left)
        → Accepts Kind.additive ts
        → Accepts Kind.multiplicative us
        → Accepts Kind.additive (ts ++ t ∷ us)
    unfolding add_loop next_op
    add_lem o t ts us no_factor step h g n i rest f stop k =
        subst (λ vs. Takes (expr_additive alloc zero_val n (at i vs) >>= f))
          (sym (append_assoc ts (t ∷ us) rest))
          (h n i (t ∷ (us ++ rest)) f no_factor (λ m j d. one_more m j d))
      where
        one_more :
            (m j : ℕ) (d : Dag D)
            → Takes (add_loop alloc zero_val m (at j (t ∷ (us ++ rest))) d d >>= f)
        one_more zero j d = tt
        one_more (suc m) j d =
            subst (λ r. Takes (r >>= f)) (sym (step m (at j (t ∷ (us ++ rest))) d d refl))
              (add_round_lem o t us g m j rest f stop k d)

    one_multiplicative_lem :
        (ts : List (Token D)) → Accepts Kind.multiplicative ts → Accepts Kind.additive ts
    unfolding expr_additive next_op
    one_multiplicative_lem ts h zero i rest f stop k = tt
    one_multiplicative_lem ts h (suc n) i rest f stop k =
        Takes-bind (expr_multiplicative alloc zero_val n (at i (ts ++ rest)))
          (λ d. add_loop alloc zero_val n d.1 d.0 d.0) f
          (h n i rest (λ d. add_loop alloc zero_val n d.1 d.0 d.0 >>= f)
            (λ m j d.
              goes_on (mul_loop alloc zero_val m (at j rest) d d) j d
                (mul_stays alloc zero_val m d d (at j rest) stop)))
      where
        goes_on :
            (r : Reply D) (j : ℕ) (d : Dag D)
            → (r ≡ ok (d, at j rest)) ⊎ (r ≡ no_fuel)
            → Takes (r >>= λ d. add_loop alloc zero_val n d.1 d.0 d.0 >>= f)
        goes_on r j d (inr q) =
            subst (λ r'. Takes (r' >>= λ d. add_loop alloc zero_val n d.1 d.0 d.0 >>= f)) (sym q) tt
        goes_on r j d (inl q) =
            subst (λ r'. Takes (r' >>= λ d. add_loop alloc zero_val n d.1 d.0 d.0 >>= f)) (sym q)
              (k n j d)

    starts :
        (ts : List (Token D)) (d : Dag D)
        → Derives Kind.primary ts d
        → (rest : List (Token D)) → starts_primary (next_op (at 0 (ts ++ rest))) ≡ true
    unfolding next_op
    starts _ _ (Derives.val t id e) rest = rw e refl
    starts _ _ (Derives.parens o c ts d e g x) rest = rw e refl

    Derives-Accepts : (k : Kind) (ts : List (Token D)) (d : Dag D) → Derives k ts d → Accepts k ts
    Derives-Accepts _ _ _ (Derives.val t id e) = val_lem t e
    Derives-Accepts _ _ _ (Derives.parens o c ts d e g x) =
        parens_lem o c ts e g (Derives-Accepts _ ts d x)
    Derives-Accepts _ _ _ (Derives.plus t ts d e x) = plus_lem t ts e (Derives-Accepts _ ts d x)
    Derives-Accepts _ _ _ (Derives.minus t ts d id v e x) =
        minus_lem t ts e (Derives-Accepts _ ts d x)
    Derives-Accepts _ _ _ (Derives.one_primary ts d x) =
        one_primary_lem ts (starts ts d x) (Derives-Accepts _ ts d x)
    Derives-Accepts _ _ _ (Derives.one_unary ts d x) = one_unary_lem ts (Derives-Accepts _ ts d x)
    Derives-Accepts _ _ _ (Derives.one_multiplicative ts d x) =
        one_multiplicative_lem ts (Derives-Accepts _ ts d x)
    Derives-Accepts _ _ _ (Derives.times t ts us l r id v x e y) =
        times_lem dag_mul t ts us (λ n p a b q. mul_times alloc zero_val n p a b (q ∙ e))
          (Derives-Accepts _ ts l x) (Derives-Accepts _ us r y)
    Derives-Accepts _ _ _ (Derives.over t ts us l r id v x e y) =
        times_lem dag_div t ts us (λ n p a b q. mul_over alloc zero_val n p a b (q ∙ e))
          (Derives-Accepts _ ts l x) (Derives-Accepts _ us r y)
    Derives-Accepts _ _ _ (Derives.add t ts us l r id v x e y) =
        add_lem dag_add t ts us (rw e refl) (λ n p a b q. add_plus alloc zero_val n p a b (q ∙ e))
          (Derives-Accepts _ ts l x) (Derives-Accepts _ us r y)
    Derives-Accepts _ _ _ (Derives.sub t ts us l r id v x e y) =
        add_lem dag_sub t ts us (rw e refl) (λ n p a b q. add_minus alloc zero_val n p a b (q ∙ e))
          (Derives-Accepts _ ts l x) (Derives-Accepts _ us r y)

    -- Where every allocation succeeds, `top` does not refuse an expression of the grammar.
    pub top-Takes :
        (n : ℕ) (tokens : List (Token D)) (d : Dag D)
        → Derives Kind.additive tokens d
        → Takes (top alloc zero_val n tokens)
    unfolding top next_op
    top-Takes n tokens d x =
        subst (λ ts. Takes (top alloc zero_val n ts)) (append-nil tokens)
          (Derives-Accepts Kind.additive tokens d x n 0 [] ended refl (λ m j d.
            goes_on (add_loop alloc zero_val m (at j []) d d) j d
              (add_stays alloc zero_val m d d (at j []) refl)))
      where
        ended : Dag D × Parser D → Reply D
        ended d = elim (next_op d.1) [ op_end ↦ ok d | _ ↦ null_ptr ]

        goes_on :
            (r : Reply D) (j : ℕ) (d : Dag D)
            → (r ≡ ok (d, at j [])) ⊎ (r ≡ no_fuel)
            → Takes (r >>= ended)
        goes_on r j d (inl q) = subst (λ r'. Takes (r' >>= ended)) (sym q) tt
        goes_on r j d (inr q) = subst (λ r'. Takes (r' >>= ended)) (sym q) tt
