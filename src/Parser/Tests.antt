-- ===== src/Parser/Tests.antt =====
-- Tests and witnesses of the parser of p1/parser.c.
use operating_systems_cs.Common.{ℕ, Bool, true, List, [], ◌∷◌, ◌≡◌, refl}
use operating_systems_cs.Parser.{
  TokenOp, op_val, op_add, op_sub, op_mul, op_open, op_close, Token, dag_val, dag_add, dag_sub,
  dag_mul, Dag, null, node, ok, null_ptr, top,
}

abbrev number : ℕ → Token ℕ
number v = record { op = op_val; val = v }

abbrev sign : TokenOp → Token ℕ
sign o = record { op = o; val = 0 }

-- `1 + 2 * (3 - 4)`
abbrev text : List (Token ℕ)
text =
    number 1
    ∷ sign op_add
    ∷ number 2
    ∷ sign op_mul
    ∷ sign op_open
    ∷ number 3
    ∷ sign op_sub
    ∷ number 4
    ∷ sign op_close
    ∷ []

abbrev always : ℕ → Bool
always k = true

abbrev leaf : ℕ → ℕ → Dag ℕ
leaf i v = node dag_val i v null null

top_test :
    top always 0 40 text
    ≡ ok (
      node dag_add 2 0
          (leaf 1 1)
          (node dag_mul 4 0 (leaf 3 2) (node dag_sub 6 0 (leaf 5 3) (leaf 7 4))),
      record { id = 7; rest = [] },
    )
unfolding top
top_test = refl

-- `1 +`
top_missing_test : top always 0 12 (number 1 ∷ sign op_add ∷ []) ≡ null_ptr
unfolding top
top_missing_test = refl
