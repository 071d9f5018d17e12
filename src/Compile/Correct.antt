-- ===== src/Compile/Correct.antt =====
-- From the text of an expression to the value that the printed code computes: p1/lexer.c, p1/parser.c and
-- the generator of p1/main.c together.
use operating_systems_cs.Common.{
  ℕ, suc, ◌^◌, ◌<◌, ◌≤◌, true, ==_iff, ◌∷◌, ap, ap₂, subst, length-append, Bool, Bool-cases, ◌==◌,
  some, List, [], length, ◌≡◌, refl, ◌⊎◌, inl, inr, arith,
}
use operating_systems_cs.Common.Text.{CString, advance}
use operating_systems_cs.Parser.{Token, Dag, op_val}
use operating_systems_cs.Parser.Grammar.{Kind, Derives}
use operating_systems_cs.Parser.Total.{NoEnd}
use operating_systems_cs.Lexer.{Lexer, in_order}
use operating_systems_cs.Lexer.Reads.{Lexes, operator_end}
use operating_systems_cs.Lexer.Whole.{lexer_open-Lexes}
use operating_systems_cs.Codegen.{Double, Program, generate, evaluate, sigmoid, value_of}
use operating_systems_cs.Codegen.Correct.{AllPrinted, top-generate}
use operating_systems_cs.Parser.Shape.{IsExpr}
use operating_systems_cs.Common.Slices.{length-advance_le}
use operating_systems_cs.Compile.{opened, refused, with_lexer, parser_open}

module _ {D : Type 0} (double : Double D) (strtod : CString → D × ℕ) where
  -- The tree of a text, whose ids are in order and fit into an int, with the program that is printed for it.
  pub record Compiled (s : CString) (d : Dag D) : Type 0 where
    pub tokens : List (Token D)
    pub lexes : Lexes strtod double.zero_val s tokens
    pub derives : Derives Kind.additive tokens d
    pub last_id : ℕ
    pub ids : IsExpr 1 (suc last_id) d
    pub id_range : last_id < 2 ^ 31
    pub program : Program D
    pub generates : generate d ≡ some program
    pub computes : evaluate double program ≡ some (sigmoid double (value_of double d))

  -- A text that the lexer and the grammar know.
  pub record IsExpression (s : CString) : Type 0 where
    pub tokens : List (Token D)
    pub lexes : Lexes strtod double.zero_val s tokens
    pub tree : Dag D
    pub derives : Derives Kind.additive tokens tree

  Lexes-same :
      (s : CString) (ts us : List (Token D))
      → Lexes strtod double.zero_val s ts
      → Lexes strtod double.zero_val s us
      → ts ≡ us
  Lexes-same _ _ _ Lexes.done Lexes.done = refl
  Lexes-same _ _ _ (Lexes.operator c s o ts e x) (Lexes.operator _ _ o' us e' y) =
      let same : o ≡ o' = cc (e, e') in
      ap₂ (λ q vs. record { op = q; val = double.zero_val } ∷ vs) same (Lexes-same s ts us x y)
  Lexes-same _ _ _ (Lexes.operator c s o ts e x) (Lexes.space _ _ us e' w y) = absurd (cc (e, e'))
  Lexes-same _ _ _ (Lexes.operator c s o ts e x) (Lexes.number _ _ k us e' w g y) =
      absurd (cc (e, e'))
  Lexes-same _ _ _ (Lexes.space c s ts e w x) (Lexes.operator _ _ o us e' y) = absurd (cc (e, e'))
  Lexes-same _ _ _ (Lexes.space c s ts e w x) (Lexes.space _ _ us e' w' y) = Lexes-same s ts us x y
  Lexes-same _ _ _ (Lexes.space c s ts e w x) (Lexes.number _ _ k us e' w' g y) =
      absurd (cc (w, w'))
  Lexes-same _ _ _ (Lexes.number c s k ts e w g x) (Lexes.operator _ _ o us e' y) =
      absurd (cc (e, e'))
  Lexes-same _ _ _ (Lexes.number c s k ts e w g x) (Lexes.space _ _ us e' w' y) =
      absurd (cc (w, w'))
  Lexes-same _ _ _ (Lexes.number c s k ts e w g x) (Lexes.number _ _ k' us e' w' g' y) =
      let same : k' ≡ k = omega (arith, g, g') in
      ap (λ vs. record { op = op_val; val = (strtod (c ∷ s)).0 } ∷ vs)
        (Lexes-same (advance k s) ts us x
          (subst (λ m. Lexes strtod double.zero_val (advance m s) us) same y))

  Derives-some : (k : Kind) (ts : List (Token D)) (d : Dag D) → Derives k ts d → 0 < length ts
  Derives-some _ _ _ (Derives.val t id e) = omega arith
  Derives-some _ _ _ (Derives.parens o c ts d e g x) = omega arith
  Derives-some _ _ _ (Derives.plus t ts d e x) = omega arith
  Derives-some _ _ _ (Derives.minus t ts d id v e x) = omega arith
  Derives-some _ _ _ (Derives.one_primary ts d x) = Derives-some _ ts d x
  Derives-some _ _ _ (Derives.one_unary ts d x) = Derives-some _ ts d x
  Derives-some _ _ _ (Derives.one_multiplicative ts d x) = Derives-some _ ts d x
  Derives-some _ _ _ (Derives.times t ts us l r id v x e y) =
      omega (arith, length-append ts (t ∷ us))
  Derives-some _ _ _ (Derives.over t ts us l r id v x e y) =
      omega (arith, length-append ts (t ∷ us))
  Derives-some _ _ _ (Derives.add t ts us l r id v x e y) = omega (arith, length-append ts (t ∷ us))
  Derives-some _ _ _ (Derives.sub t ts us l r id v x e y) = omega (arith, length-append ts (t ∷ us))

module _ {D : Type 0} (double : Double D) (strtod : CString → D × ℕ) (room alloc : ℕ → Bool) where
  -- The text is refused though it is an expression and every allocation succeeds.
  abbrev pub Wronged : CString → Type 0
  Wronged s = ((n : ℕ) → room n ≡ true) × ((k : ℕ) → alloc k ≡ true) × IsExpression double strtod s

  Lexes-NoEnd : (s : CString) (ts : List (Token D)) → Lexes strtod double.zero_val s ts → NoEnd ts
  Lexes-NoEnd _ _ Lexes.done = tt
  Lexes-NoEnd _ _ (Lexes.operator c s o ts e x) = (operator_end c o e, Lexes-NoEnd s ts x)
  Lexes-NoEnd _ _ (Lexes.space c s ts e w x) = Lexes-NoEnd s ts x
  Lexes-NoEnd _ _ (Lexes.number c s k ts e w g x) = (λ f. cc f, Lexes-NoEnd _ ts x)

  -- No more tokens than bytes.
  Lexes-length :
      (s : CString) (ts : List (Token D)) → Lexes strtod double.zero_val s ts → length ts ≤ length s
  Lexes-length _ _ Lexes.done = omega arith
  Lexes-length _ _ (Lexes.operator c s o ts e x) = omega (arith, Lexes-length s ts x)
  Lexes-length _ _ (Lexes.space c s ts e w x) = omega (arith, Lexes-length s ts x)
  Lexes-length _ _ (Lexes.number c s k ts e w g x) =
      omega (arith, Lexes-length _ ts x, length-advance_le k s)

  no_tokens : (newest : List (Token D)) → length newest ≡ 0 → 0 < length (in_order newest []) → ⊥
  unfolding in_order
  no_tokens [] e h = omega (arith, h)
  no_tokens (t ∷ ts) e h = omega (arith, e)

  with_lexer-Compiled :
      (s : CString) (lexer : Lexer D)
      → length s < 2 ^ 31
      → ((ts : List (Token D)) → Lexes strtod double.zero_val s ts → AllPrinted double ts)
      → Lexes strtod double.zero_val s (in_order lexer.newest [])
      → lexer.size ≡ length lexer.newest
      → (with_lexer strtod room alloc double.zero_val lexer ≡ refused) × ¬ Wronged s
        ⊎ ((d : Dag D) × (with_lexer strtod room alloc double.zero_val lexer ≡ opened d)
            × Compiled double strtod s d)
  unfolding with_lexer
  with_lexer-Compiled s lexer small exact x counted = elim (Bool-cases (lexer.size == 0)) [
    | inl e ↦ inl (
      rw (e, with_lexer) refl,
      λ w.
          let same = Lexes-same double strtod s _ _ w.2.lexes x in
          absurd (
            no_tokens lexer.newest (omega (arith, counted, (==_iff _ 0).0 e)) (
              subst (λ ts. 0 < length ts) same
                (Derives-some double strtod Kind.additive w.2.tokens w.2.tree w.2.derives))),
    )
    | inr e ↦
        elim (top-generate double alloc _ (Lexes-NoEnd s _ x) (exact _ x)
          (omega (arith, small, Lexes-length s _ x))) [
            | inl (f, why) ↦ inl (
              rw (e, f, with_lexer) refl,
              λ w. why (
                w.1,
                (
                  w.2.tree,
                  subst (λ ts. Derives Kind.additive ts w.2.tree)
                      (Lexes-same double strtod s _ _ w.2.lexes x) w.2.derives,
                ),
              ),
            )
            | inr (d, q, p, f, g, (ids, range), h, v) ↦ inr (
              d,
              rw (e, f, with_lexer) refl,
              record {
                tokens = _;
                lexes = x;
                derives = g;
                last_id = q.id;
                ids = ids;
                id_range = range;
                program = p;
                generates = h;
                computes = v;
              },
            )
          ]
  ]

  -- On a text shorter than 2 ^ 31 bytes, whose numbers `%f` prints as constants with the same values:
  -- whichever allocations fail, parser_open ends without a write out of bounds, and refuses the text, and then
  -- an allocation failed or the text is no expression of the grammar, or its tree is one that the grammar gives to the tokens of the text, with ids that fit into an int, and the code
  -- printed for the tree computes the sigmoid of the value of the tree.
  pub parser_open-Compiled :
      (s : CString)
      → length s < 2 ^ 31
      → ((ts : List (Token D)) → Lexes strtod double.zero_val s ts → AllPrinted double ts)
      → (parser_open strtod room alloc double.zero_val s ≡ refused) × ¬ Wronged s
        ⊎ ((d : Dag D) × (parser_open strtod room alloc double.zero_val s ≡ opened d)
            × Compiled double strtod s d)
  unfolding parser_open
  parser_open-Compiled s small exact =
      elim (lexer_open-Lexes strtod double.zero_val room s (omega (arith, small))) [
        | inl (lexer, e, fits, x) ↦
            rw (e, parser_open) (with_lexer-Compiled s lexer small exact x fits.counted)
        | inr (e, h) ↦ inl (
          rw (e, parser_open) refl,
          λ w. let (n, full) = h w.2.tokens w.2.lexes in absurd (cc (full, w.0 n)),
        )
      ]
