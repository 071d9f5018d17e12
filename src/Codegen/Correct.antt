-- ===== src/Codegen/Correct.antt =====
-- The C text that `generate` of p1/main.c prints for a tree, against the value of the tree.
use operating_systems_cs.Common.{
  ℕ, ◌<◌, ◌≤◌, ◌+◌, ◌*◌, ◌^◌, length, Bool, true, subst, suc, none, some, List, [], ◌∷◌, ◌++◌, ◌≡◌,
  refl, ◌∙◌, ◌⊎◌, inl, inr, arith,
}
use operating_systems_cs.Parser.{
  op_val, DagOp, dag_val, dag_neg, dag_mul, dag_div, dag_add, dag_sub, Dag, null, node, Token,
  Parser, ok, null_ptr, top,
}
use operating_systems_cs.Parser.Grammar.{Kind, Derives}
use operating_systems_cs.Parser.Total.{NoEnd, top-Complete}
use operating_systems_cs.Parser.Stops.{Takes}
use operating_systems_cs.Parser.Accepts.{top-Takes}
use operating_systems_cs.Parser.Shape.{IsExpr}
use operating_systems_cs.Codegen.{
  Double, Initializer, constant, negated, product, quotient, total, difference, Declaration,
  Program, id_of, declaration, reflect, generate, Scope, sigmoid, initial, exec, evaluate, value_of,
}
use operating_systems_cs.Codegen.Exec.{exec_behind, exec_one, declare_fresh}

-- No variable from `lo` up to but not including `hi` is in scope.
abbrev Fresh : {D : Type 0} → ℕ → ℕ → Scope D → Type 0
Fresh lo hi s = (j : ℕ) → lo ≤ j → j < hi → s j ≡ none

module _ {D : Type 0} (double : Double D) where
  -- The text of the tree compiles and runs from `s`: its variable holds its value, and the variables
  -- outside of the range are as before.
  record Ran (lo hi : ℕ) (s : Scope D) (d : Dag D) : Type 0 where
    id : ℕ
    id_is : id_of d ≡ some id
    low : lo ≤ id
    high : id < hi
    body : List (Declaration D)
    reflects : reflect d ≡ some body
    after : Scope D
    runs : exec double body s ≡ some after
    holds : after id ≡ some (value_of double d)
    others : (j : ℕ) → (j < lo) ⊎ (hi ≤ j) → after j ≡ s j

  -- A node behind the texts of its operands.
  node_lem :
      (o : DagOp) (id : ℕ) (v : D) (l r : Dag D) (lo hi : ℕ) (a b : List (Declaration D))
      (i : Initializer D) (s s1 s2 : Scope D)
      → reflect l ≡ some a
      → reflect r ≡ some b
      → exec double a s ≡ some s1
      → exec double b s1 ≡ some s2
      → declaration o id v l r ≡ some (record { id = id; value = i })
      → initial double i s2 ≡ some (value_of double (node o id v l r))
      → s2 id ≡ none
      → lo ≤ id
      → id < hi
      → ((j : ℕ) → (j < lo) ⊎ (hi ≤ j) → s2 j ≡ s j)
      → Ran lo hi s (node o id v l r)
  unfolding reflect id_of exec
  node_lem o id v l r lo hi a b i s s1 s2 la rb ea eb decl init free low high others =
      let (t, declared, holds, kept) =
        declare_fresh double s2 id (value_of double (node o id v l r)) free in
      record {
        id = id;
        id_is = refl;
        low = low;
        high = high;
        body = a ++ (b ++ record { id = id; value = i } ∷ []);
        reflects = rw (la, rb, decl, reflect) refl;
        after = t;
        runs =
            exec_behind double a _ s s1 ea
            ∙ exec_behind double b _ s1 s2 eb
            ∙ exec_one double (record { id = id; value = i }) s2 t _ init declared;
        holds = holds;
        others = λ j h. kept j (λ e. omega arith) ∙ others j h;
      }

  -- A node with two operands.
  binary_lem :
      (o : DagOp) (id : ℕ) (v : D) (l r : Dag D) (lo hi : ℕ) (i : ℕ → ℕ → Initializer D)
      (s : Scope D)
      → ((j k : ℕ)
          → id_of l ≡ some j
          → id_of r ≡ some k
          → declaration o id v l r ≡ some (record { id = id; value = i j k }))
      → ((s2 : Scope D) (j k : ℕ)
          → s2 j ≡ some (value_of double l)
          → s2 k ≡ some (value_of double r)
          → initial double (i j k) s2 ≡ some (value_of double (node o id v l r)))
      → Fresh lo hi s
      → Ran lo id s l
      → ((s1 : Scope D) → Fresh (suc id) hi s1 → Ran (suc id) hi s1 r)
      → Ran lo hi s (node o id v l r)
  binary_lem o id v l r lo hi i s decl init free x run =
      let y =
        run x.after
          (λ j a b. x.others j (inr (omega arith)) ∙ free j (omega (arith, x.low, x.high)) b) in
      let low : lo ≤ id = omega (arith, x.low, x.high) in
      let high : id < hi = omega (arith, y.low, y.high) in
      node_lem o id v l r lo hi x.body y.body (i x.id y.id) s x.after y.after x.reflects y.reflects
        x.runs y.runs (decl x.id y.id x.id_is y.id_is)
        (init y.after x.id y.id (y.others x.id (inl (omega (arith, x.high))) ∙ x.holds) y.holds)
        (y.others id (inl (omega arith)) ∙ x.others id (inr (omega arith)) ∙ free id low high) low
        high
        (λ j h.
          y.others j (ground (arith, h, x.low, x.high))
          ∙ x.others j (ground (arith, h, y.low, y.high)))

  -- `%f` prints the value of every token that is a number as a constant with the same value.
  abbrev pub AllPrinted : List (Token D) → Type 0
  AllPrinted [] = Unit
  AllPrinted (t ∷ ts) = (t.op ≡ op_val → double.printed t.val ≡ some t.val) × AllPrinted ts

  AllPrinted-append :
      (xs ys : List (Token D)) → AllPrinted (xs ++ ys) → AllPrinted xs × AllPrinted ys
  AllPrinted-append [] ys h = (tt, h)
  AllPrinted-append (x ∷ xs) ys h = let (a, b) = AllPrinted-append xs ys h.1 in ((h.0, a), b)

  -- The same for the constants of a tree.
  abbrev Exact : Dag D → Type 0
  Exact null = Unit
  Exact (node dag_val id v l r) = double.printed v ≡ some v
  Exact (node dag_neg id v l r) = Exact r
  Exact (node _ id v l r) = Exact l × Exact r

  Derives-Exact :
      (k : Kind) (ts : List (Token D)) (d : Dag D) → Derives k ts d → AllPrinted ts → Exact d
  Derives-Exact _ _ _ (Derives.val t id e) h = h.0 e
  Derives-Exact _ _ _ (Derives.parens o c ts d e f x) h =
      Derives-Exact _ ts d x (AllPrinted-append ts (c ∷ []) h.1).0
  Derives-Exact _ _ _ (Derives.plus t ts d e x) h = Derives-Exact _ ts d x h.1
  Derives-Exact _ _ _ (Derives.minus t ts d id v e x) h = Derives-Exact _ ts d x h.1
  Derives-Exact _ _ _ (Derives.one_primary ts d x) h = Derives-Exact _ ts d x h
  Derives-Exact _ _ _ (Derives.one_unary ts d x) h = Derives-Exact _ ts d x h
  Derives-Exact _ _ _ (Derives.one_multiplicative ts d x) h = Derives-Exact _ ts d x h
  Derives-Exact _ _ _ (Derives.times t ts us l r id v x e y) h =
      let (a, b) = AllPrinted-append ts (t ∷ us) h in
      (Derives-Exact _ ts l x a, Derives-Exact _ us r y b.1)
  Derives-Exact _ _ _ (Derives.over t ts us l r id v x e y) h =
      let (a, b) = AllPrinted-append ts (t ∷ us) h in
      (Derives-Exact _ ts l x a, Derives-Exact _ us r y b.1)
  Derives-Exact _ _ _ (Derives.add t ts us l r id v x e y) h =
      let (a, b) = AllPrinted-append ts (t ∷ us) h in
      (Derives-Exact _ ts l x a, Derives-Exact _ us r y b.1)
  Derives-Exact _ _ _ (Derives.sub t ts us l r id v x e y) h =
      let (a, b) = AllPrinted-append ts (t ∷ us) h in
      (Derives-Exact _ ts l x a, Derives-Exact _ us r y b.1)

  -- A tree with ids in order has some in its range.
  IsExpr-range : (d : Dag D) (lo hi : ℕ) → IsExpr lo hi d → lo < hi
  IsExpr-range (node dag_val id v null null) lo hi h = omega (arith, h.0, h.1)
  IsExpr-range (node dag_neg id v null r) lo hi h =
      omega (arith, h.0, IsExpr-range r (suc id) hi h.1)
  IsExpr-range (node dag_mul id v l r) lo hi h =
      omega (arith, IsExpr-range l lo id h.0, IsExpr-range r (suc id) hi h.1)
  IsExpr-range (node dag_div id v l r) lo hi h =
      omega (arith, IsExpr-range l lo id h.0, IsExpr-range r (suc id) hi h.1)
  IsExpr-range (node dag_add id v l r) lo hi h =
      omega (arith, IsExpr-range l lo id h.0, IsExpr-range r (suc id) hi h.1)
  IsExpr-range (node dag_sub id v l r) lo hi h =
      omega (arith, IsExpr-range l lo id h.0, IsExpr-range r (suc id) hi h.1)
  IsExpr-range _ lo hi h = absurd h

  Ran_lem :
      (d : Dag D) (lo hi : ℕ) (s : Scope D)
      → IsExpr lo hi d
      → Exact d
      → Fresh lo hi s
      → Ran lo hi s d
  unfolding declaration initial value_of reflect exec id_of
  Ran_lem (node dag_val id v null null) lo hi s h exact free =
      node_lem dag_val id v null null lo hi [] [] (constant v) s s s refl refl refl refl refl exact
        (free id h.0 h.1) h.0 h.1 (λ j e. refl)
  Ran_lem (node dag_neg id v null r) lo hi s h exact free =
      let y = Ran_lem r (suc id) hi s h.1 exact (λ j a b. free j (omega arith) b) in
      node_lem dag_neg id v null r lo hi [] y.body (negated y.id) s s y.after refl y.reflects refl
        y.runs (rw y.id_is refl) (rw y.holds refl)
        (y.others id (inl (omega arith)) ∙ free id h.0 (omega (arith, y.low, y.high))) h.0
        (omega (arith, y.low, y.high)) (λ j e. y.others j (ground (arith, e, h.0, y.low, y.high)))
  Ran_lem (node dag_mul id v l r) lo hi s h exact free =
      binary_lem dag_mul id v l r lo hi product s (λ j k e f. rw (e, f) refl)
        (λ t j k e f. rw (e, f) refl) free
        (Ran_lem l lo id s h.0 exact.0
          (λ j a b. free j a (omega (arith, IsExpr-range r (suc id) hi h.1))))
        (λ t f. Ran_lem r (suc id) hi t h.1 exact.1 f)
  Ran_lem (node dag_div id v l r) lo hi s h exact free =
      binary_lem dag_div id v l r lo hi quotient s (λ j k e f. rw (e, f) refl)
        (λ t j k e f. rw (e, f) refl) free
        (Ran_lem l lo id s h.0 exact.0
          (λ j a b. free j a (omega (arith, IsExpr-range r (suc id) hi h.1))))
        (λ t f. Ran_lem r (suc id) hi t h.1 exact.1 f)
  Ran_lem (node dag_add id v l r) lo hi s h exact free =
      binary_lem dag_add id v l r lo hi total s (λ j k e f. rw (e, f) refl)
        (λ t j k e f. rw (e, f) refl) free
        (Ran_lem l lo id s h.0 exact.0
          (λ j a b. free j a (omega (arith, IsExpr-range r (suc id) hi h.1))))
        (λ t f. Ran_lem r (suc id) hi t h.1 exact.1 f)
  Ran_lem (node dag_sub id v l r) lo hi s h exact free =
      binary_lem dag_sub id v l r lo hi difference s (λ j k e f. rw (e, f) refl)
        (λ t j k e f. rw (e, f) refl) free
        (Ran_lem l lo id s h.0 exact.0
          (λ j a b. free j a (omega (arith, IsExpr-range r (suc id) hi h.1))))
        (λ t f. Ran_lem r (suc id) hi t h.1 exact.1 f)
  Ran_lem _ lo hi s h exact free = absurd h

  -- The text of a tree with ids in order compiles, and `evaluate` gives the sigmoid of its value.
  pub generate_lem :
      (d : Dag D) (lo hi : ℕ)
      → IsExpr lo hi d
      → Exact d
      → (p : Program D) × (generate d ≡ some p)
        × (evaluate double p ≡ some (sigmoid double (value_of double d)))
  unfolding generate evaluate
  generate_lem d lo hi h exact =
      let x = Ran_lem d lo hi (λ j. none) h exact (λ j a b. refl) in
      (
        record { body = x.body; result = x.id },
        rw (x.reflects, x.id_is, generate) refl,
        rw (x.runs, x.holds, evaluate) refl,
      )

  -- On fewer than 2 ^ 31 tokens, whose numbers `%f` prints as constants with the same values: whichever
  -- allocations fail, the tokens are refused, and then an allocation failed or the grammar has no tree for
  -- them, or the tree is one of the grammar for all of its tokens, with
  -- ids that fit into an int, and the text printed for the tree computes the sigmoid of the value of the tree.
  pub top-generate :
      (alloc : ℕ → Bool) (tokens : List (Token D))
      → NoEnd tokens
      → AllPrinted tokens
      → length tokens < 2 ^ 31
      → (top alloc double.zero_val (4 * length tokens + 4) tokens ≡ null_ptr)
          × ¬ (((k : ℕ) → alloc k ≡ true) × ((d : Dag D) × Derives Kind.additive tokens d))
        ⊎ ((d : Dag D) × (q : Parser D) × (p : Program D) × (top alloc double.zero_val
                (4 * length tokens + 4)
                tokens
              ≡ ok (d, q))
            × Derives Kind.additive tokens d
            × (IsExpr 1 (suc q.id) d × (q.id < 2 ^ 31))
            × (generate d ≡ some p)
            × (evaluate double p ≡ some (sigmoid double (value_of double d))))
  top-generate alloc tokens h exact small = elim (top-Complete alloc double.zero_val tokens h) [
    | inl e ↦ inl (
      e,
      λ x.
          subst Takes e
            (top-Takes alloc double.zero_val x.0 (4 * length tokens + 4) tokens x.1.0 x.1.1),
    )
    | inr (d, q, e, c) ↦
        let (p, g, v) =
          generate_lem d 1 (suc q.id) c.ids
            (Derives-Exact Kind.additive tokens d c.derives exact) in
        inr (d, q, p, e, c.derives, (c.ids, omega (arith, c.few, small)), g, v)
  ]
