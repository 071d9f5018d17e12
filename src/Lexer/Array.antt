-- ===== src/Lexer/Array.antt =====
-- The growing array of p1/lexer.c and the writes of `mktoken`.
use operating_systems_cs.Common.{
  ℕ, ◌+◌, ◌*◌, ◌/◌, ◌%◌, ◌^◌, ◌<◌, ◌≤◌, Bool, false, Bool-cases, ◌==◌, lt→ltb, ==_iff, ◌∷◌, length,
  ◌≡◌, refl, inl, inr, arith,
}
use operating_systems_cs.Parser.{TokenOp}
use operating_systems_cs.Lexer.{
  Lexer, Lexing, ok, failed, overrun, no_fuel, ◌>>=◌, sizeof_token, grow_tokens, push_token,
  mktoken,
}

-- The tokens are counted and inside of the array, which has space for some hundreds of them.
pub record Fits {D : Type 0} (lexer : Lexer D) : Type 0 where
  pub counted : lexer.size ≡ length lexer.newest
  pub inside : lexer.size ≤ lexer.capacity
  pub hundreds : lexer.capacity % 100 ≡ 0

module _ {D : Type 0} (zero_val : D) where
  -- One more token behind the others, or the error value where an allocation fails.
  abbrev pub Made : (ℕ → Bool) → Lexer D → TokenOp → Lexing (Lexer D) → Type 0
  Made room lexer o (ok l) =
      Fits l
      × (l.size ≡ lexer.size + 1)
      × (l.newest ≡ record { op = o; val = zero_val } ∷ lexer.newest)
  Made room lexer o failed = (n : ℕ) × (room n ≡ false)
  Made room lexer o overrun = ⊥
  Made room lexer o no_fuel = ⊥

  push_lem :
      (room : ℕ → Bool) (lexer l : Lexer D) (o : TokenOp)
      → l.size ≡ lexer.size
      → l.newest ≡ lexer.newest
      → l.size ≡ length l.newest
      → l.size < l.capacity
      → l.capacity % 100 ≡ 0
      → l.size < 2 ^ 58
      → Made room lexer o (push_token zero_val l o)
  unfolding push_token
  push_lem room lexer l o e f counted h hundreds small = rw (lt→ltb _ _ h) (
    record {
      counted = omega (arith, counted, small);
      inside = omega (arith, h, small);
      hundreds = hundreds;
    },
    omega (arith, e, small),
    rw f refl,
  )

  pub mktoken-Made :
      (room : ℕ → Bool) (lexer : Lexer D) (o : TokenOp)
      → Fits lexer
      → lexer.size < 2 ^ 58
      → Made room lexer o (mktoken room zero_val lexer o)
  unfolding mktoken grow_tokens
  mktoken-Made room lexer o h small = elim (Bool-cases (lexer.size % 100 == 0)) [
    | inl full ↦ elim (Bool-cases (room ((lexer.size + 100) * sizeof_token % 2 ^ 64))) [
      | inl fits ↦
          let q = (==_iff (lexer.size % 100) 0).0 full in
          rw (full, fits, ◌>>=◌)
            (push_lem room lexer
              (record lexer {
                capacity = (lexer.size + 100) * sizeof_token % 2 ^ 64 / sizeof_token;
              })
              o refl refl h.counted (omega (arith, small)) (omega (arith, small, q)) small)
      | inr none_left ↦ rw (full, none_left, ◌>>=◌) (_, none_left)
    ]
    | inr space ↦
        rw (space, ◌>>=◌)
          (push_lem room lexer lexer o refl refl h.counted
            (ground (arith, space, h.inside, h.hundreds)) h.hundreds small)
  ]
