-- ===== src/Parser/Shape.antt =====
-- The trees that p1/parser.c builds: their operands by operation, and the order of their ids.
use operating_systems_cs.Common.{ℕ, suc, ◌<◌, ◌≤◌}
use operating_systems_cs.Parser.{
  dag_val, dag_neg, dag_mul, dag_div, dag_add, dag_sub, Dag, null, node,
}

-- An expression with all its ids from `lo` up to but not including `hi`: a value has no operands,
-- a negation only a right one with larger ids, and any other operation a left one with smaller and
-- a right one with larger ids. So no id occurs twice.
abbrev pub IsExpr : {D : Type 0} → ℕ → ℕ → Dag D → Type 0
IsExpr lo hi (node dag_val id v null null) = (lo ≤ id) × (id < hi)
IsExpr lo hi (node dag_neg id v null r) = (lo ≤ id) × IsExpr (suc id) hi r
IsExpr lo hi (node dag_mul id v l r) = IsExpr lo id l × IsExpr (suc id) hi r
IsExpr lo hi (node dag_div id v l r) = IsExpr lo id l × IsExpr (suc id) hi r
IsExpr lo hi (node dag_add id v l r) = IsExpr lo id l × IsExpr (suc id) hi r
IsExpr lo hi (node dag_sub id v l r) = IsExpr lo id l × IsExpr (suc id) hi r
IsExpr lo hi _ = ⊥
