-- ===== src/Avl/Rotate.antt =====
-- The pointer surgery of p3/avl.c and the order of the words of a tree.
use mathlib.Core.List.{append_assoc}
use mathlib.Core.Option.{some-injective}
use operating_systems_cs.Common.{
  bind_some, ℕ, Bool-cases, Option, some, ◌>>=◌, ◌∷◌, ◌++◌, Ordering, ◌≡◌, sym, ap, ◌∙◌, inl, inr,
  ltb,
}
use operating_systems_cs.Common.Int.{ℤ, abs}
use operating_systems_cs.Common.Text.{CString, strcmp}
use operating_systems_cs.Avl.{
  Node, null, node, refresh, rotate_right, rotate_left, rotate_left_right, rotate_right_left,
  balance, turn_right, turn_left, item_of, fix_left, fix_right, traverse,
}
use operating_systems_cs.Avl.Entries.{Entries}

-- A pointer computation keeps the entries.
abbrev pub Keeps : Entries → Option Node → Type 0
Keeps es o = (t : Node) → o ≡ some t → traverse t ≡ es

pub refresh-Keeps : (t : Node) → Keeps (traverse t) (refresh t)
unfolding refresh traverse
refresh-Keeps null u e = cc
refresh-Keeps (node d c k l r) u e = ap traverse (sym (some-injective _ _ e))

rotate_right-Keeps : (t : Node) → Keeps (traverse t) (rotate_right t)
unfolding rotate_right traverse
rotate_right-Keeps (node d c k (node d' c' k' l' r') r) u e =
    ap traverse (sym (some-injective _ _ e)) ∙ sym (append_assoc (traverse l') _ _)
rotate_right-Keeps (node d c k null r) u e = cc
rotate_right-Keeps null u e = cc

rotate_left-Keeps : (t : Node) → Keeps (traverse t) (rotate_left t)
unfolding rotate_left traverse
rotate_left-Keeps (node d c k l (node d' c' k' l' r')) u e =
    ap traverse (sym (some-injective _ _ e)) ∙ append_assoc (traverse l) _ _
rotate_left-Keeps (node d c k l null) u e = cc
rotate_left-Keeps null u e = cc

rotate_left_right-Keeps : (t : Node) → Keeps (traverse t) (rotate_left_right t)
unfolding rotate_left_right
rotate_left_right-Keeps null u e = cc
rotate_left_right-Keeps (node d c k l r) u e =
    let (l', p, q) = bind_some (rotate_left l) (λ l'. rotate_right (node d c k l' r)) u e in
    rotate_right-Keeps (node d c k l' r) u q
    ∙ unfold traverse in ap (λ x. x ++ (k, c) ∷ traverse r) (rotate_left-Keeps l l' p)

rotate_right_left-Keeps : (t : Node) → Keeps (traverse t) (rotate_right_left t)
unfolding rotate_right_left
rotate_right_left-Keeps null u e = cc
rotate_right_left-Keeps (node d c k l r) u e =
    let (r', p, q) = bind_some (rotate_right r) (λ r'. rotate_left (node d c k l r')) u e in
    rotate_left-Keeps (node d c k l r') u q
    ∙ unfold traverse in ap (λ x. traverse l ++ (k, c) ∷ x) (rotate_right-Keeps r r' p)

then_refresh : {es : Entries} (o : Option Node) → Keeps es o → Keeps es (o >>= refresh)
then_refresh o h u e = let (t, p, q) = bind_some o refresh u e in refresh-Keeps t u q ∙ h t p

turn_right-Keeps : (x k : CString) (t : Node) → Keeps (traverse t) (turn_right x k t)
unfolding turn_right
turn_right-Keeps x k t =
    elim (strcmp x k)
      as (λ o. Keeps (traverse t) (elim o [
        | Ordering.lt ↦ rotate_right t >>= refresh
        | _ ↦ rotate_left_right t >>= refresh
      ])) [
        | Ordering.lt ↦ then_refresh _ (rotate_right-Keeps t)
        | Ordering.eq ↦ then_refresh _ (rotate_left_right-Keeps t)
        | Ordering.gt ↦ then_refresh _ (rotate_left_right-Keeps t)
      ]

turn_left-Keeps : (x k : CString) (t : Node) → Keeps (traverse t) (turn_left x k t)
unfolding turn_left
turn_left-Keeps x k t =
    elim (strcmp x k)
      as (λ o. Keeps (traverse t) (elim o [
        | Ordering.gt ↦ rotate_left t >>= refresh
        | _ ↦ rotate_right_left t >>= refresh
      ])) [
        | Ordering.lt ↦ then_refresh _ (rotate_right_left-Keeps t)
        | Ordering.eq ↦ then_refresh _ (rotate_right_left-Keeps t)
        | Ordering.gt ↦ then_refresh _ (rotate_left-Keeps t)
      ]

pub fix_left-Keeps :
    (x : CString) (d : ℤ) (c : ℕ) (k : CString) (l r : Node)
    → Keeps (traverse (node d c k l r)) (fix_left x d c k l r)
unfolding fix_left
fix_left-Keeps x d c k l r t e = elim (Bool-cases (ltb 1 (abs (balance l r)))) [
  | inl high ↦
      let (k', p, q) =
        bind_some (item_of l) (λ k'. turn_right x k' (node d c k l r)) t (rw high at e) in
      turn_right-Keeps x k' (node d c k l r) t q
  | inr low ↦ refresh-Keeps (node d c k l r) t (rw low at e)
]

pub fix_right-Keeps :
    (x : CString) (d : ℤ) (c : ℕ) (k : CString) (l r : Node)
    → Keeps (traverse (node d c k l r)) (fix_right x d c k l r)
unfolding fix_right
fix_right-Keeps x d c k l r t e = elim (Bool-cases (ltb 1 (abs (balance l r)))) [
  | inl high ↦
      let (k', p, q) =
        bind_some (item_of r) (λ k'. turn_left x k' (node d c k l r)) t (rw high at e) in
      turn_left-Keeps x k' (node d c k l r) t q
  | inr low ↦ refresh-Keeps (node d c k l r) t (rw low at e)
]
