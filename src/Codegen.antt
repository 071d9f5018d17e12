-- ===== src/Codegen.antt =====
-- The code generator of p1/main.c, `reflect` and `generate`, and what the C text that they print does.
-- A printed declaration is a statement: the text `double t%d = ...;` by its parts.
pub mod Exec
pub mod Correct
pub mod Tests
use operating_systems_cs.Common.{
  ℕ, Bool, true, false, if◌then◌else◌, ◌==◌, Option, none, some, ◌>>=◌, List, [], ◌∷◌, ◌++◌,
}
use operating_systems_cs.Parser.{
  DagOp, dag_none, dag_val, dag_neg, dag_mul, dag_div, dag_add, dag_sub, Dag, null, node,
}

-- The numbers of C that the printed text and `sigmoid` use. `printed v` is the constant that `%f`
-- prints for `v`, as the compiler reads it, and none where the text is no constant of C, as for `inf` and
-- `nan`; `is_true` is the test of `?`.
pub record Double (D : Type 0) : Type 0 where
  pub zero_val : D
  pub one_val : D
  pub neg : D → D
  pub mul : D → D → D
  pub div : D → D → D
  pub add : D → D → D
  pub sub : D → D → D
  pub exp : D → D
  pub is_true : D → Bool
  pub printed : D → Option D

-- The right side of a declaration, with the numbers of the variables in it.
pub data Initializer (D : Type 0) : Type 0 where
  constant : D → Initializer D
  negated : ℕ → Initializer D
  product quotient total difference : ℕ → ℕ → Initializer D

-- `double t<id> = <value>;`
pub record Declaration (D : Type 0) : Type 0 where
  pub id : ℕ
  pub value : Initializer D

-- The body of `evaluate`, and the number of the variable that it gives to `sigmoid`.
pub record Program (D : Type 0) : Type 0 where
  pub body : List (Declaration D)
  pub result : ℕ

module _ {D : Type 0} where
  -- `dag->id`, which a null pointer does not have.
  pub id_of : Dag D → Option ℕ
  id_of null = none
  id_of (node o id v l r) = some id

  -- The chain of tests at the end of `reflect`, `none` for a null operand and for EXIT.
  pub declaration : DagOp → ℕ → D → Dag D → Dag D → Option (Declaration D)
  declaration dag_val id v l r = some (record { id = id; value = constant v })
  declaration dag_neg id v l r = id_of r >>= λ k. some (record { id = id; value = negated k })
  declaration dag_mul id v l r =
      id_of l >>= λ j. id_of r >>= λ k. some (record { id = id; value = product j k })
  declaration dag_div id v l r =
      id_of r >>= λ k. id_of l >>= λ j. some (record { id = id; value = quotient j k })
  declaration dag_add id v l r =
      id_of l >>= λ j. id_of r >>= λ k. some (record { id = id; value = total j k })
  declaration dag_sub id v l r =
      id_of l >>= λ j. id_of r >>= λ k. some (record { id = id; value = difference j k })
  declaration dag_none id v l r = none

  pub reflect : Dag D → Option (List (Declaration D))
  reflect null = some []
  reflect (node o id v l r) = reflect l >>= λ a.
      reflect r >>= λ b. declaration o id v l r >>= λ s. some (a ++ (b ++ s ∷ []))

  pub generate : Dag D → Option (Program D)
  generate dag =
      reflect dag >>= λ body. id_of dag >>= λ id. some (record { body = body; result = id })

-- The variables in scope with their values.
abbrev pub Scope : Type 0 → Type 0
Scope D = ℕ → Option D

module _ {D : Type 0} (double : Double D) where
  pub sigmoid : D → D
  sigmoid x = double.div double.one_val (double.add double.one_val (double.exp (double.neg x)))

  -- The value of an initializer; a variable that is not in scope does not compile, nor does a text that is
  -- no constant.
  pub initial : Initializer D → Scope D → Option D
  initial (constant v) s = double.printed v
  initial (negated k) s = s k >>= λ y. some (double.neg y)
  initial (product j k) s = s j >>= λ x. s k >>= λ y. some (double.mul x y)
  initial (quotient j k) s =
      s j >>= λ x. s k >>= λ y. some (if double.is_true y then double.div x y else double.zero_val)
  initial (total j k) s = s j >>= λ x. s k >>= λ y. some (double.add x y)
  initial (difference j k) s = s j >>= λ x. s k >>= λ y. some (double.sub x y)

  -- A variable that is declared twice does not compile.
  pub declare : Scope D → ℕ → D → Option (Scope D)
  declare s id x = elim (s id) [
    | some _ ↦ none
    | none ↦ some (λ j. if j == id then some x else s j)
  ]

  pub exec : List (Declaration D) → Scope D → Option (Scope D)
  exec [] s = some s
  exec (d ∷ ds) s = initial d.value s >>= λ x. declare s d.id x >>= λ s'. exec ds s'

  -- The call of the printed `evaluate`.
  pub evaluate : Program D → Option D
  evaluate p = exec p.body (λ j. none) >>= λ s. s p.result >>= λ x. some (sigmoid x)

  -- The value of an expression, with 0.0 for a quotient by zero.
  pub value_of : Dag D → D
  value_of null = double.zero_val
  value_of (node dag_val id v l r) = v
  value_of (node dag_neg id v l r) = double.neg (value_of r)
  value_of (node dag_mul id v l r) = double.mul (value_of l) (value_of r)
  value_of (node dag_div id v l r) =
      if double.is_true (value_of r) then double.div (value_of l) (value_of r) else double.zero_val
  value_of (node dag_add id v l r) = double.add (value_of l) (value_of r)
  value_of (node dag_sub id v l r) = double.sub (value_of l) (value_of r)
  value_of (node dag_none id v l r) = double.zero_val
