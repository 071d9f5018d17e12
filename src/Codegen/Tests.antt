-- ===== src/Codegen/Tests.antt =====
-- Tests and witnesses of the code generator of p1/main.c, with natural numbers for the doubles.
use operating_systems_cs.Common.{
  suc, ◌<◌, ◌^◌, arith, ℕ, ◌+◌, ◌*◌, ◌-◌, ◌/◌, ◌==◌, Bool, true, not, none, some, ◌>>=◌, List, [],
  ◌∷◌, length, ◌≡◌, refl, ◌⊎◌,
}
use operating_systems_cs.Parser.{
  op_val, op_add, op_div, Token, dag_val, dag_add, dag_div, Dag, null, node, Parser, ok, null_ptr,
  top,
}
use operating_systems_cs.Parser.Grammar.{Kind, Derives}
use operating_systems_cs.Parser.Total.{NoEnd}
use operating_systems_cs.Codegen.{
  Double, declaration, id_of, exec, initial, declare, constant, quotient, total, Program, reflect,
  generate, sigmoid, evaluate, value_of,
}
use operating_systems_cs.Codegen.Correct.{AllPrinted, top-generate}
use operating_systems_cs.Parser.Shape.{IsExpr}

abbrev pub double : Double ℕ
double = record {
  zero_val = 0;
  one_val = 1;
  neg = λ x. x;
  mul = λ x y. x * y;
  div = λ x y. x / y;
  add = λ x y. x + y;
  sub = λ x y. x - y;
  exp = λ x. x;
  is_true = λ x. not (x == 0);
  printed = λ x. some x;
}

-- `6 / 3 + 4`
abbrev tree : Dag ℕ
tree =
    node dag_add 4 0 (node dag_div 2 0 (node dag_val 1 6 null null) (node dag_val 3 3 null null))
      (node dag_val 5 4 null null)

reflect_test :
    reflect tree
    ≡ some (
        record { id = 1; value = constant 6 }
        ∷ record { id = 3; value = constant 3 }
        ∷ record { id = 2; value = quotient 1 3 }
        ∷ record { id = 5; value = constant 4 }
        ∷ record { id = 4; value = total 2 5 }
        ∷ [])
unfolding reflect declaration id_of
reflect_test = refl

abbrev text : List (Token ℕ)
text =
    record { op = op_val; val = 6 }
    ∷ record { op = op_div; val = 0 }
    ∷ record { op = op_val; val = 3 }
    ∷ record { op = op_add; val = 0 }
    ∷ record { op = op_val; val = 4 }
    ∷ []

abbrev always : ℕ → Bool
always k = true

text-NoEnd : NoEnd text
text-NoEnd = (λ e. cc e, (λ e. cc e, (λ e. cc e, (λ e. cc e, (λ e. cc e, tt)))))

pub all_printed : (ts : List (Token ℕ)) → AllPrinted double ts
all_printed [] = tt
all_printed (t ∷ ts) = (λ e. refl, all_printed ts)

top-generate_example :
    (top always 0 (4 * length text + 4) text ≡ null_ptr)
      × ¬ (((k : ℕ) → always k ≡ true) × ((d : Dag ℕ) × Derives Kind.additive text d))
    ⊎ ((d : Dag ℕ) × (q : Parser ℕ) × (p : Program ℕ) × (top always 0 (4 * length text + 4) text
          ≡ ok (d, q))
        × Derives Kind.additive text d
        × (IsExpr 1 (suc q.id) d × (q.id < 2 ^ 31))
        × (generate d ≡ some p)
        × (evaluate double p ≡ some (sigmoid double (value_of double d))))
top-generate_example = top-generate double always text text-NoEnd (all_printed text) (omega arith)

-- The variable of the root holds 6 / 3 + 4 at the end of the printed text.
exec_test :
    (reflect tree >>= λ body. exec double body (λ j. none) >>= λ s. s 4)
    ≡ some (value_of double tree)
unfolding reflect declaration id_of exec initial declare value_of
exec_test = refl

value_of_test : value_of double tree ≡ 6
unfolding value_of
value_of_test = refl
