-- ===== src/Parser/Grammar.antt =====
-- The grammar in the comments of p1/parser.c, with the trees that it stands for: `*`, `/`, `+` and
-- `-` associate to the left, and the unary signs bind tighter.
use operating_systems_cs.Common.{ℕ, List, [], ◌∷◌, ◌++◌, ◌≡◌}
use operating_systems_cs.Parser.{
  op_val, op_add, op_sub, op_mul, op_div, op_open, op_close, Token, dag_val, dag_neg, dag_mul,
  dag_div, dag_add, dag_sub, Dag, null, node,
}

pub data Kind : Type 0 where
  primary unary multiplicative additive : Kind

-- The tokens of a phrase of the kind, and the tree that they stand for. The ids, and the values of
-- the nodes that are no values, are free.
pub data Derives {D : Type 0} : Kind → List (Token D) → Dag D → Type 0 where
  val :
      (t : Token D) (id : ℕ)
      → t.op ≡ op_val
      → Derives Kind.primary (t ∷ []) (node dag_val id t.val null null)
  parens :
      (o c : Token D) (ts : List (Token D)) (d : Dag D)
      → o.op ≡ op_open
      → c.op ≡ op_close
      → Derives Kind.additive ts d
      → Derives Kind.primary (o ∷ (ts ++ c ∷ [])) d
  plus :
      (t : Token D) (ts : List (Token D)) (d : Dag D)
      → t.op ≡ op_add
      → Derives Kind.unary ts d
      → Derives Kind.unary (t ∷ ts) d
  minus :
      (t : Token D) (ts : List (Token D)) (d : Dag D) (id : ℕ) (v : D)
      → t.op ≡ op_sub
      → Derives Kind.unary ts d
      → Derives Kind.unary (t ∷ ts) (node dag_neg id v null d)
  one_primary :
      (ts : List (Token D)) (d : Dag D) → Derives Kind.primary ts d → Derives Kind.unary ts d
  one_unary :
      (ts : List (Token D)) (d : Dag D) → Derives Kind.unary ts d → Derives Kind.multiplicative ts d
  times :
      (t : Token D) (ts us : List (Token D)) (l r : Dag D) (id : ℕ) (v : D)
      → Derives Kind.multiplicative ts l
      → t.op ≡ op_mul
      → Derives Kind.unary us r
      → Derives Kind.multiplicative (ts ++ t ∷ us) (node dag_mul id v l r)
  over :
      (t : Token D) (ts us : List (Token D)) (l r : Dag D) (id : ℕ) (v : D)
      → Derives Kind.multiplicative ts l
      → t.op ≡ op_div
      → Derives Kind.unary us r
      → Derives Kind.multiplicative (ts ++ t ∷ us) (node dag_div id v l r)
  one_multiplicative :
      (ts : List (Token D)) (d : Dag D)
      → Derives Kind.multiplicative ts d
      → Derives Kind.additive ts d
  add :
      (t : Token D) (ts us : List (Token D)) (l r : Dag D) (id : ℕ) (v : D)
      → Derives Kind.additive ts l
      → t.op ≡ op_add
      → Derives Kind.multiplicative us r
      → Derives Kind.additive (ts ++ t ∷ us) (node dag_add id v l r)
  sub :
      (t : Token D) (ts us : List (Token D)) (l r : Dag D) (id : ℕ) (v : D)
      → Derives Kind.additive ts l
      → t.op ≡ op_sub
      → Derives Kind.multiplicative us r
      → Derives Kind.additive (ts ++ t ∷ us) (node dag_sub id v l r)
