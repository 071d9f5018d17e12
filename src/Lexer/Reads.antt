-- ===== src/Lexer/Reads.antt =====
-- The tokens of a text, and one round of the loop of `tokenize` of p1/lexer.c.
use operating_systems_cs.Common.{
  ℕ, zero, suc, ◌+◌, ◌≤◌, Bool, true, false, none, some, List, [], ◌∷◌, length, ◌≡◌, ◌≢◌, refl, sym,
  ap, subst, ◌⊎◌, inl, inr, arith,
}
use operating_systems_cs.Common.Text.{CString, isspace, advance}
use operating_systems_cs.Parser.{TokenOp, op_end, op_val, Token}
use operating_systems_cs.Lexer.{
  Lexer, Lexing, ok, failed, overrun, no_fuel, ◌>>=◌, in_order, operators, find_operator,
  assign_val, number_end,
}
use operating_systems_cs.Lexer.Array.{Fits, Made}

-- No operator is the mark of the end.
pub operator_end : (c : ℕ) (o : TokenOp) → find_operator operators c ≡ some o → o ≢ op_end
unfolding find_operator
operator_end c o e = ground arith

module _ {D : Type 0} (strtod : CString → D × ℕ) (zero_val : D) where
  -- The tokens of a text: an operator is a token, white space is none, and any other byte begins a number.
  pub data Lexes : CString → List (Token D) → Type 0 where
    done : Lexes [] []
    operator :
        (c : ℕ) (s : CString) (o : TokenOp) (ts : List (Token D))
        → find_operator operators c ≡ some o
        → Lexes s ts
        → Lexes (c ∷ s) (record { op = o; val = zero_val } ∷ ts)
    space :
        (c : ℕ) (s : CString) (ts : List (Token D))
        → find_operator operators c ≡ none
        → isspace c ≡ true
        → Lexes s ts
        → Lexes (c ∷ s) ts
    number :
        (c : ℕ) (s : CString) (k : ℕ) (ts : List (Token D))
        → find_operator operators c ≡ none
        → isspace c ≡ false
        → (strtod (c ∷ s)).1 ≡ suc k
        → Lexes (advance k s) ts
        → Lexes (c ∷ s) (record { op = op_val; val = (strtod (c ∷ s)).0 } ∷ ts)

  -- What a round does to the text and the tokens of it; it fails for a reason.
  pub record Rounded (lexer : Lexer D) (c : ℕ) (s : CString) (l : Lexer D) (s' : CString)
      : Type 0 where
    pub fits : Fits l
    pub grows : l.size ≤ lexer.size + 1
    pub shorter : length s' ≤ length s
    pub reads :
        (ts : List (Token D))
        → Lexes s' ts
        → (us : List (Token D)) × Lexes (c ∷ s) us
          × (in_order l.newest ts ≡ in_order lexer.newest us)
    pub rest : (us : List (Token D)) → Lexes (c ∷ s) us → (ts : List (Token D)) × Lexes s' ts

  module _ (room : ℕ → Bool) where
    abbrev pub Round : Lexer D → ℕ → CString → Lexing (Lexer D × CString) → Type 0
    Round lexer c s (ok r) = Rounded lexer c s r.0 r.1
    Round lexer c s failed = (us : List (Token D)) → Lexes (c ∷ s) us → (n : ℕ) × (room n ≡ false)
    Round lexer c s overrun = ⊥
    Round lexer c s no_fuel = ⊥

    pub Made-bind :
        {B : Type 0} (lexer : Lexer D) (o : TokenOp) (r : Lexing (Lexer D)) (f : Lexer D → Lexing B)
        (P : Lexing B → Type 0)
        → Made zero_val room lexer o r
        → (((n : ℕ) × (room n ≡ false)) → P failed)
        → ((l : Lexer D) → Made zero_val room lexer o (ok l) → P (f l))
        → P (r >>= f)
    Made-bind lexer o (ok l) f P m n h = h l m
    Made-bind lexer o failed f P m n h = n m
    Made-bind lexer o overrun f P m n h = absurd m
    Made-bind lexer o no_fuel f P m n h = absurd m

    length-advance : (k : ℕ) (s : CString) → length (advance k s) ≤ length s
    unfolding advance
    length-advance zero s = omega arith
    length-advance (suc k) [] = omega arith
    length-advance (suc k) (c ∷ s) = omega (arith, length-advance k s)

    pub operator_round :
        (lexer l : Lexer D) (c : ℕ) (s : CString) (o : TokenOp)
        → find_operator operators c ≡ some o
        → Made zero_val room lexer o (ok l)
        → Rounded lexer c s l s
    unfolding in_order
    operator_round lexer l c s o e m = record {
      fits = m.0;
      grows = omega (arith, m.1);
      shorter = omega arith;
      reads = λ ts x. (_, Lexes.operator c s o ts e x, rw m.2 refl);
      rest = λ us x. operator_rest us x;
    }
      where
        operator_rest :
            (us : List (Token D)) → Lexes (c ∷ s) us → (ts : List (Token D)) × Lexes s ts
        operator_rest _ (Lexes.operator _ _ o' ts f x) = (ts, x)
        operator_rest _ (Lexes.space _ _ ts f w x) = (ts, x)
        operator_rest _ (Lexes.number _ _ k ts f w g x) = cc

    pub space_round :
        (lexer : Lexer D) (c : ℕ) (s : CString)
        → Fits lexer
        → find_operator operators c ≡ none
        → isspace c ≡ true
        → Rounded lexer c s lexer s
    space_round lexer c s h e w = record {
      fits = h;
      grows = omega arith;
      shorter = omega arith;
      reads = λ ts x. (ts, Lexes.space c s ts e w x, refl);
      rest = λ us x. space_rest us x;
    }
      where
        space_rest : (us : List (Token D)) → Lexes (c ∷ s) us → (ts : List (Token D)) × Lexes s ts
        space_rest _ (Lexes.operator _ _ o' ts f x) = (ts, x)
        space_rest _ (Lexes.space _ _ ts f v x) = (ts, x)
        space_rest _ (Lexes.number _ _ k ts f v g x) = cc

    no_number_end : (l : Lexer D) (s : CString) → (strtod s).1 ≡ 0 → number_end strtod l s ≡ failed
    unfolding number_end
    no_number_end l s z = rw (z, number_end)

    -- The token that was made last gets its value.
    number_taken :
        (l : Lexer D) (c : ℕ) (s : CString) (k : ℕ) (o : TokenOp) (v : D) (ts : List (Token D))
        → (strtod (c ∷ s)).1 ≡ suc k
        → l.newest ≡ record { op = o; val = v } ∷ ts
        → number_end strtod l (c ∷ s)
          ≡ ok (record l { newest = record { op = o; val = (strtod (c ∷ s)).0 } ∷ ts }, advance k s)
    unfolding number_end assign_val advance
    number_taken l c s k o v ts g e = rw (g, e, number_end, assign_val, advance)

    pub number-Round :
        (lexer l : Lexer D) (c : ℕ) (s : CString)
        → find_operator operators c ≡ none
        → isspace c ≡ false
        → Made zero_val room lexer op_val (ok l)
        → Round lexer c s (number_end strtod l (c ∷ s))
    unfolding in_order
    number-Round lexer l c s e w m = elim (number_cases ((strtod (c ∷ s)).1)) [
      | inl z ↦
          subst (Round lexer c s) (sym (no_number_end l (c ∷ s) z))
            (λ us x. absurd (no_number us z x))
      | inr (k, g) ↦
          subst (Round lexer c s) (sym (number_taken l c s k op_val zero_val lexer.newest g m.2))
            (taken k g)
    ]
      where
        number_cases : (n : ℕ) → (n ≡ 0) ⊎ ((k : ℕ) × (n ≡ suc k))
        number_cases zero = inl refl
        number_cases (suc k) = inr (k, refl)

        no_number : (us : List (Token D)) → (strtod (c ∷ s)).1 ≡ 0 → Lexes (c ∷ s) us → ⊥
        no_number _ z (Lexes.operator _ _ o' ts f x) = cc
        no_number _ z (Lexes.space _ _ ts f v x) = cc
        no_number _ z (Lexes.number _ _ k ts f v g x) = omega (arith, z, g)

        number_rest :
            (k : ℕ)
            → (strtod (c ∷ s)).1 ≡ suc k
            → (us : List (Token D)) → Lexes (c ∷ s) us
            → (ts : List (Token D)) × Lexes (advance k s) ts
        number_rest k g _ (Lexes.operator _ _ o' ts f x) = cc
        number_rest k g _ (Lexes.space _ _ ts f v x) = cc
        number_rest k g _ (Lexes.number _ _ k' ts f v g' x) =
            (ts, subst (λ j. Lexes (advance j s) ts) (omega (arith, g, g')) x)

        taken :
            (k : ℕ)
            → (strtod (c ∷ s)).1 ≡ suc k
            → Rounded lexer c s
                (record l {
                  newest = record { op = op_val; val = (strtod (c ∷ s)).0 } ∷ lexer.newest;
                })
                (advance k s)
        taken k g = record {
          fits = record {
            counted = omega (arith, m.0.counted, ap length m.2);
            inside = m.0.inside;
            hundreds = m.0.hundreds;
          };
          grows = omega (arith, m.1);
          shorter = length-advance k s;
          reads = λ ts x. (_, Lexes.number c s k ts e w g x, refl);
          rest = number_rest k g;
        }
