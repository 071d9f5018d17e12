-- ===== src/Lexer/Whole.antt =====
-- `tokenize` and `lexer_open` of p1/lexer.c on a whole text.
use operating_systems_cs.Common.{
  ℕ, zero, suc, ◌+◌, ◌^◌, ◌<◌, ◌≤◌, Bool, true, false, Bool-cases, none, some, Option-cases, List,
  [], ◌∷◌, length, ◌≡◌, refl, sym, subst, ◌∙◌, ◌⊎◌, inl, inr, arith,
}
use operating_systems_cs.Common.Text.{CString, isspace}
use operating_systems_cs.Parser.{TokenOp, op_val, Token}
use operating_systems_cs.Lexer.{
  Lexer, Lexing, ok, failed, overrun, no_fuel, ◌>>=◌, in_order, operators, find_operator, mktoken,
  number_end, lex_round, tokenize, lexer_open,
}
use operating_systems_cs.Lexer.Array.{Fits, mktoken-Made}
use operating_systems_cs.Lexer.Reads.{
  Lexes, Rounded, Round, Made-bind, operator_round, space_round, number-Round,
}

module _ {D : Type 0} (strtod : CString → D × ℕ) (zero_val : D) (room : ℕ → Bool) where
  lex_operator :
      (lexer : Lexer D) (c : ℕ) (s : CString) (o : TokenOp)
      → find_operator operators c ≡ some o
      → lex_round strtod room zero_val lexer c s
        ≡ (mktoken room zero_val lexer o >>= λ l. ok (l, s))
  unfolding lex_round
  lex_operator lexer c s o e = rw (e, lex_round)

  lex_space :
      (lexer : Lexer D) (c : ℕ) (s : CString)
      → find_operator operators c ≡ none
      → isspace c ≡ true
      → lex_round strtod room zero_val lexer c s ≡ ok (lexer, s)
  unfolding lex_round
  lex_space lexer c s e w = rw (e, w, lex_round)

  lex_number :
      (lexer : Lexer D) (c : ℕ) (s : CString)
      → find_operator operators c ≡ none
      → isspace c ≡ false
      → lex_round strtod room zero_val lexer c s
        ≡ (mktoken room zero_val lexer op_val >>= λ l. number_end strtod l (c ∷ s))
  unfolding lex_round
  lex_number lexer c s e w = rw (e, w, lex_round)

  round_lem :
      (lexer : Lexer D) (c : ℕ) (s : CString)
      → Fits lexer
      → lexer.size < 2 ^ 58
      → Round strtod zero_val room lexer c s (lex_round strtod room zero_val lexer c s)
  unfolding lex_round
  round_lem lexer c s h small = elim (Option-cases (find_operator operators c)) [
    | inr (o, e) ↦ subst (Round strtod zero_val room lexer c s) (sym (lex_operator lexer c s o e)) (
        Made-bind strtod zero_val room lexer o (mktoken room zero_val lexer o) _
          (Round strtod zero_val room lexer c s) (mktoken-Made zero_val room lexer o h small)
          (λ n us x. n) (λ l m. operator_round strtod zero_val room lexer l c s o e m))
    | inl e ↦ elim (Bool-cases (isspace c)) [
      | inl w ↦
          subst (Round strtod zero_val room lexer c s) (sym (lex_space lexer c s e w))
            (space_round strtod zero_val room lexer c s h e w)
      | inr w ↦ subst (Round strtod zero_val room lexer c s) (sym (lex_number lexer c s e w)) (
          Made-bind strtod zero_val room lexer op_val (mktoken room zero_val lexer op_val) _
            (Round strtod zero_val room lexer c s) (mktoken-Made zero_val room lexer op_val h small)
            (λ n us x. n) (λ l m. number-Round strtod zero_val room lexer l c s e w m))
    ]
  ]

  -- The tokens of the whole text behind those that are there; if there are none, an allocation failed
  -- or the text has no tokens.
  record Lexed (lexer : Lexer D) (s : CString) (l : Lexer D) : Type 0 where
    fits : Fits l
    reads :
        (us : List (Token D)) × Lexes strtod zero_val s us
        × (in_order l.newest [] ≡ in_order lexer.newest us)

  abbrev Ended : Lexer D → CString → Lexing (Lexer D) → Type 0
  Ended lexer s (ok l) = Lexed lexer s l
  Ended lexer s failed =
      (us : List (Token D)) → Lexes strtod zero_val s us → (n : ℕ) × (room n ≡ false)
  Ended lexer s overrun = ⊥
  Ended lexer s no_fuel = ⊥

  Ended-behind :
      (lexer l : Lexer D) (c : ℕ) (s s' : CString) (r : Lexing (Lexer D))
      → Rounded strtod zero_val lexer c s l s'
      → Ended l s' r
      → Ended lexer (c ∷ s) r
  Ended-behind lexer l c s s' (ok l') x y =
      let (ts, lexes, same) = y.reads in
      let (us, lexes', same') = x.reads ts lexes in
      record { fits = y.fits; reads = (us, lexes', same ∙ same') }
  Ended-behind lexer l c s s' failed x y = λ us z. let (ts, lexes) = x.rest us z in y ts lexes
  Ended-behind lexer l c s s' overrun x y = y
  Ended-behind lexer l c s s' no_fuel x y = y

  Round-bind :
      (lexer : Lexer D) (c : ℕ) (s : CString) (r : Lexing (Lexer D × CString))
      (f : Lexer D × CString → Lexing (Lexer D))
      → Round strtod zero_val room lexer c s r
      → ((l : Lexer D) (s' : CString)
          → Rounded strtod zero_val lexer c s l s'
          → Ended l s' (f (l, s')))
      → Ended lexer (c ∷ s) (r >>= f)
  Round-bind lexer c s (ok r) f x h = Ended-behind lexer r.0 c s r.1 (f r) x (h r.0 r.1 x)
  Round-bind lexer c s failed f x h = x
  Round-bind lexer c s overrun f x h = x
  Round-bind lexer c s no_fuel f x h = x

  Ended-nil : (lexer : Lexer D) → Fits lexer → Ended lexer [] (ok lexer)
  Ended-nil lexer h = record { fits = h; reads = ([], Lexes.done, refl) }

  tokenize-Ended :
      (n : ℕ) (lexer : Lexer D) (s : CString)
      → Fits lexer
      → lexer.size + length s < 2 ^ 58
      → length s ≤ n
      → Ended lexer s (tokenize strtod room zero_val n lexer s)
  unfolding tokenize
  tokenize-Ended zero lexer [] h small le = Ended-nil lexer h
  tokenize-Ended zero lexer (c ∷ s) h small le = absurd (omega arith)
  tokenize-Ended (suc n) lexer [] h small le = Ended-nil lexer h
  tokenize-Ended (suc n) lexer (c ∷ s) h small le =
      Round-bind lexer c s _ _ (round_lem lexer c s h (omega arith)) (λ l s' x.
        tokenize-Ended n l s' x.fits (omega (arith, x.grows, x.shorter)) (omega (arith, x.shorter)))

  abbrev empty : Lexer D
  empty = record { size = 0; capacity = 0; newest = [] }

  ends :
      (s : CString) (r : Lexing (Lexer D))
      → Ended empty s r
      → ((l : Lexer D) × (r ≡ ok l) × Fits l × Lexes strtod zero_val s (in_order l.newest []))
        ⊎ ((r ≡ failed)
            × ((us : List (Token D)) → Lexes strtod zero_val s us → (n : ℕ) × (room n ≡ false)))
  unfolding in_order
  ends s (ok l) x =
      let (us, lexes, same) = x.reads in
      inl (l, refl, x.fits, subst (Lexes strtod zero_val s) (sym same) lexes)
  ends s failed x = inr (refl, x)
  ends s overrun x = absurd x
  ends s no_fuel x = absurd x

  -- On a text that fits into memory lexer_open ends, never writes outside of its array, and makes the
  -- tokens of the text in order; it gives up only when an allocation fails or the text has no tokens.
  pub lexer_open-Lexes :
      (s : CString)
      → length s < 2 ^ 58
      → ((l : Lexer D) × (lexer_open strtod room zero_val s (length s) ≡ ok l)
          × Fits l
          × Lexes strtod zero_val s (in_order l.newest []))
        ⊎ ((lexer_open strtod room zero_val s (length s) ≡ failed)
            × ((us : List (Token D)) → Lexes strtod zero_val s us → (n : ℕ) × (room n ≡ false)))
  unfolding lexer_open in_order
  lexer_open-Lexes s small = ends s _ (
      tokenize-Ended (length s) empty s
        (record { counted = refl; inside = omega arith; hundreds = refl }) (omega arith)
        (omega arith))
