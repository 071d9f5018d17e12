-- ===== src/Lexer.antt =====
-- The lexer of p1/lexer.c: the growing array of tokens and `tokenize`. `strtod` and the success of the
-- allocations are parameters.
pub mod Array
pub mod Reads
pub mod Whole
pub mod Tests
use operating_systems_cs.Common.{
  ℕ, zero, suc, ◌+◌, ◌*◌, ◌/◌, ◌%◌, ◌^◌, Bool, true, false, if◌then◌else◌, ◌==◌, ltb, leb, ◌&&◌,
  ◌||◌, Option, none, some, List, [], ◌∷◌,
}
use operating_systems_cs.Common.Text.{CString, isspace, advance}
use operating_systems_cs.Parser.{
  TokenOp, op_val, op_add, op_sub, op_mul, op_div, op_open, op_close, Token,
}

-- `struct lexer`: the number of tokens, the tokens that the array has space for, and the array,
-- with the last token first.
pub record Lexer (D : Type 0) : Type 0 where
  pub size : ℕ
  pub capacity : ℕ
  pub newest : List (Token D)

-- The tokens of an array with the last token first, in order, before some others.
unfoldable pub in_order : {D : Type 0} → List (Token D) → List (Token D) → List (Token D)
in_order [] ts = ts
in_order (t ∷ newest) ts = in_order newest (t ∷ ts)

-- What a call does: it succeeds, returns its error value, writes outside of the array, or does not
-- end in the given fuel.
pub data Lexing {ℓ} (A : Type ℓ) : Type ℓ where
  ok : A → Lexing A
  failed : Lexing A
  overrun : Lexing A
  no_fuel : Lexing A

infixl 5 ◌>>=◌
abbrev pub ◌>>=◌ {ℓ κ} : {A : Type ℓ} {B : Type κ} → Lexing A → (A → Lexing B) → Lexing B
ok a >>= f = f a
failed >>= f = failed
overrun >>= f = overrun
no_fuel >>= f = no_fuel

-- The bytes of `OPERATORS`, each with the token `LEXER_OP_ADD + i`.
abbrev pub operators : List (ℕ × TokenOp)
operators =
    (43, op_add) ∷ (45, op_sub) ∷ (42, op_mul) ∷ (47, op_div) ∷ (40, op_open) ∷ (41, op_close) ∷ []

-- The inner loop of `tokenize`.
pub find_operator : List (ℕ × TokenOp) → ℕ → Option TokenOp
find_operator [] c = none
find_operator ((x, o) ∷ rest) c =
    let found = find_operator rest c in if x == c then some o else found

-- `sizeof (struct lexer_token)`
abbrev pub sizeof_token : ℕ
sizeof_token = 16

-- The write of the token behind the last one.
pub push_token : {D : Type 0} → D → Lexer D → TokenOp → Lexing (Lexer D)
push_token zero_val lexer o =
    if ltb lexer.size lexer.capacity
    then ok (record lexer {
      size = (lexer.size + 1) % 2 ^ 64;
      newest = record { op = o; val = zero_val } ∷ lexer.newest;
    })
    else overrun

-- `room` says whether `realloc` to that many bytes succeeds.
module _ {D : Type 0} (room : ℕ → Bool) where
  -- The growth at the start of `mktoken`.
  pub grow_tokens : Lexer D → Lexing (Lexer D)
  grow_tokens lexer =
      let n = (lexer.size + 100) * sizeof_token % 2 ^ 64 in
      if lexer.size % 100 == 0
      then (if room n then ok (record lexer { capacity = n / sizeof_token }) else failed)
      else ok lexer

  pub mktoken : D → Lexer D → TokenOp → Lexing (Lexer D)
  mktoken zero_val lexer o = grow_tokens lexer >>= λ l. push_token zero_val l o

-- `token->val = ...` on the token that was made last.
pub assign_val : {D : Type 0} → Lexer D → D → Lexer D
assign_val lexer v = elim (lexer.newest) [
  | [] ↦ lexer
  | t ∷ ts ↦ record lexer { newest = record t { val = v } ∷ ts }
]

-- `strtod s` is the value and the number of bytes that it takes, 0 if there is no number.
-- The end of the branch for a number, where `s == e` is the error.
pub number_end : {D : Type 0} → (CString → D × ℕ) → Lexer D → CString → Lexing (Lexer D × CString)
number_end strtod lexer s = elim ((strtod s).1) [
  | zero ↦ failed
  | suc k ↦ ok (assign_val lexer (strtod s).0, advance (suc k) s)
]

module _ {D : Type 0} (strtod : CString → D × ℕ) (room : ℕ → Bool) (zero_val : D) where
  -- One round of the loop of `tokenize` at the byte `c` before `s`.
  pub lex_round : Lexer D → ℕ → CString → Lexing (Lexer D × CString)
  lex_round lexer c s = elim (find_operator operators c) [
    | some o ↦ mktoken room zero_val lexer o >>= λ l. ok (l, s)
    | none ↦ elim (isspace c) [
      | true ↦ ok (lexer, s)
      | false ↦ mktoken room zero_val lexer op_val >>= λ l. number_end strtod l (c ∷ s)
    ]
  ]

  pub tokenize : ℕ → Lexer D → CString → Lexing (Lexer D)
  tokenize zero lexer [] = ok lexer
  tokenize zero lexer (c ∷ s) = no_fuel
  tokenize (suc n) lexer [] = ok lexer
  tokenize (suc n) lexer (c ∷ s) = lex_round lexer c s >>= λ r. tokenize n r.0 r.1

  -- `lexer_open` without the allocation of the struct.
  pub lexer_open : CString → ℕ → Lexing (Lexer D)
  lexer_open s fuel = tokenize fuel (record { size = 0; capacity = 0; newest = [] }) s
