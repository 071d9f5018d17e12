-- ===== src/Parser.antt =====
-- The recursive descent parser of p1/parser.c over the tokens of p1/lexer.h. The token position
-- `i` of `n` is the list of the tokens that are left. `double` is a parameter.
pub mod Shape
pub mod Steps
pub mod Grammar
pub mod Parsed
pub mod Round
pub mod Promise
pub mod Loops
pub mod Total
pub mod Stops
pub mod Accepts
pub mod Tests
use operating_systems_cs.Common.{
  ℕ, zero, suc, ◌+◌, Bool, true, false, if◌then◌else◌, List, [], ◌∷◌, length,
}

-- `enum lexer_token_op`
pub data TokenOp : Type 0 where
  op_end op_val op_add op_sub op_mul op_div op_open op_close : TokenOp

pub record Token (D : Type 0) : Type 0 where
  pub op : TokenOp
  pub val : D

-- `enum parser_dag_op`
pub data DagOp : Type 0 where
  dag_none dag_val dag_neg dag_mul dag_div dag_add dag_sub : DagOp

-- `struct parser_dag *`
pub data Dag (D : Type 0) : Type 0 where
  null : Dag D
  node : DagOp → ℕ → D → Dag D → Dag D → Dag D

-- `struct parser` while it parses: the last id and the tokens from the current one on.
pub record Parser (D : Type 0) : Type 0 where
  pub id : ℕ
  pub rest : List (Token D)

-- What a call returns: a value, the null pointer of an error, or no answer in the given fuel.
pub data Parse {ℓ} (A : Type ℓ) : Type ℓ where
  ok : A → Parse A
  null_ptr : Parse A
  no_fuel : Parse A

infixl 5 ◌>>=◌
abbrev pub ◌>>=◌ {ℓ κ} : {A : Type ℓ} {B : Type κ} → Parse A → (A → Parse B) → Parse B
ok a >>= f = f a
null_ptr >>= f = null_ptr
no_fuel >>= f = no_fuel

module _ {D : Type 0} where
  -- `next(parser)->op`; the sentinel stands behind the last token.
  pub next_op : Parser D → TokenOp
  next_op p = elim (p.rest) [ [] ↦ op_end | t ∷ _ ↦ t.op ]

  pub forward : Parser D → Parser D
  forward p = elim (p.rest) [ [] ↦ p | _ ∷ ts ↦ record p { rest = ts } ]

  -- `next(parser)->val` of a token that is there.
  pub next_val : D → Parser D → D
  next_val zero_val p = elim (p.rest) [ [] ↦ zero_val | t ∷ _ ↦ t.val ]

-- `alloc k` says whether the allocation of the node after the first `k` succeeds, and `zero` is 0.0.
module _ {D : Type 0} (alloc : ℕ → Bool) (zero_val : D) where
  -- `MKD`: the id of the new node, an `int` in C, which holds the id as long as there are fewer than 2 ^ 31
  -- tokens, since a node is made for a token at most.
  pub mkd : Parser D → Parse (ℕ × Parser D)
  mkd p = if alloc p.id then ok (suc p.id, record p { id = suc p.id }) else null_ptr

  unfoldable mutual
    unfolding mkd next_op forward next_val

    pub expr_primary : ℕ → Parser D → Parse (Dag D × Parser D)
    expr_primary zero p = no_fuel
    expr_primary (suc n) p = elim (next_op p) [
      | op_val ↦ mkd p >>= λ m. ok (node dag_val m.0 (next_val zero_val m.1) null null, forward m.1)
      | op_open ↦ expr_additive n (forward p) >>= λ e. elim (next_op e.1) [
        | op_close ↦ ok (e.0, forward e.1)
        | _ ↦ null_ptr
      ]
      | _ ↦ null_ptr
    ]

    pub expr_unary : ℕ → Parser D → Parse (Dag D × Parser D)
    expr_unary zero p = no_fuel
    expr_unary (suc n) p = elim (next_op p) [
      | op_add ↦ expr_unary n (forward p)
      | op_sub ↦ mkd p >>= λ m.
          expr_unary n (forward m.1) >>= λ r. ok (node dag_neg m.0 zero_val null r.0, r.1)
      | _ ↦ expr_primary n p
    ]

    -- One round of the loop of `expr_multiplicative_`, on `left` and `dag`, and the rounds after it.
    pub mul_loop : ℕ → Parser D → Dag D → Dag D → Parse (Dag D × Parser D)
    mul_loop zero p left dag = no_fuel
    mul_loop (suc n) p left dag = elim (next_op p) [
      | op_mul ↦ mkd p >>= λ m. expr_unary n (forward m.1) >>= λ r.
          let dag' = node dag_mul m.0 zero_val left r.0 in
          mul_loop n r.1 dag' dag' >>= λ d. mul_loop n d.1 left d.0
      | op_div ↦ mkd p >>= λ m. expr_unary n (forward m.1) >>= λ r.
          let dag' = node dag_div m.0 zero_val left r.0 in
          mul_loop n r.1 dag' dag' >>= λ d. mul_loop n d.1 left d.0
      | _ ↦ ok (dag, p)
    ]

    pub expr_multiplicative : ℕ → Parser D → Parse (Dag D × Parser D)
    expr_multiplicative zero p = no_fuel
    expr_multiplicative (suc n) p = expr_unary n p >>= λ d. mul_loop n d.1 d.0 d.0

    -- The same for `expr_additive_`.
    pub add_loop : ℕ → Parser D → Dag D → Dag D → Parse (Dag D × Parser D)
    add_loop zero p left dag = no_fuel
    add_loop (suc n) p left dag = elim (next_op p) [
      | op_add ↦ mkd p >>= λ m. expr_multiplicative n (forward m.1) >>= λ r.
          let dag' = node dag_add m.0 zero_val left r.0 in
          add_loop n r.1 dag' dag' >>= λ d. add_loop n d.1 left d.0
      | op_sub ↦ mkd p >>= λ m. expr_multiplicative n (forward m.1) >>= λ r.
          let dag' = node dag_sub m.0 zero_val left r.0 in
          add_loop n r.1 dag' dag' >>= λ d. add_loop n d.1 left d.0
      | _ ↦ ok (dag, p)
    ]

    pub expr_additive : ℕ → Parser D → Parse (Dag D × Parser D)
    expr_additive zero p = no_fuel
    expr_additive (suc n) p = expr_multiplicative n p >>= λ d. add_loop n d.1 d.0 d.0

  -- `top`, on the tokens of the whole text.
  pub top : ℕ → List (Token D) → Parse (Dag D × Parser D)
  unfolding expr_additive
  top fuel tokens = expr_additive fuel (record { id = 0; rest = tokens }) >>= λ d.
      elim (next_op d.1) [ op_end ↦ ok d | _ ↦ null_ptr ]
