-- ===== src/Avl/Insert.antt =====
-- `update`, `avl_insert` and `avl_exists` of p3/avl.c against the sorted list of the words.
use mathlib.Core.Option.{some-injective}
use operating_systems_cs.Common.{
  subst, Bool, false, ◌||◌, Ordering-cases, bind_some, if◌then◌else◌, some, ◌∷◌, ◌++◌, ◌≡◌, refl,
  sym, ap, ◌∙◌, inl, inr, arith,
}
use operating_systems_cs.Common.Text.{CString, strcmp, eq_of_strcmp, lt_of_gt}
use operating_systems_cs.Avl.{
  Scm, Node, null, node, Avl, inc64, sizeof_node, depth, refresh, fix_left, fix_right, new_node,
  update, search_from, traverse,
}
use operating_systems_cs.Avl.Balance.{
  IsAvl, Grown, fix_left_lem, fix_right_lem, depth-height, height,
}
use operating_systems_cs.Avl.Entries.{
  IsSorted, IsSorted-parts, Below, Above, has-left, has-right, has-here, tally, tally-left,
  tally-right, tally-here, count_of, count_of-left, count_of-right, count_of-here, has,
}
use operating_systems_cs.Avl.Rotate.{refresh-Keeps, fix_left-Keeps, fix_right-Keeps}

-- `avl_exists` reads the count in the sorted list of the words.
pub search_from-count_of :
    (t : Node) (x : CString) → IsSorted (traverse t) → search_from t x ≡ count_of x (traverse t)
unfolding search_from traverse
search_from-count_of null x s = unfold count_of in refl
search_from-count_of (node d c k l r) x s =
    let (p, q, a, b) = IsSorted-parts (traverse l) (traverse r) k c s in
    ground (
      arith,
      search_from-count_of l x q,
      search_from-count_of r x b,
      count_of-left x k c (traverse l) (traverse r),
      count_of-right x k c (traverse l) (traverse r),
      count_of-here k c (traverse l) (traverse r),
      eq_of_strcmp x k,
      lt_of_gt x k,
    )

module _ {scm : Scm} where
  -- Whether the region has room for a node and then for the copy of the word.
  unfoldable pub has_room : Avl scm → CString → Bool
  has_room avl item =
      let (p, region) = scm.scm_malloc avl.region sizeof_node in
      if p then (scm.scm_strdup region item).0 else false

  -- From a balanced tree `update` follows no null pointer and returns a balanced tree, at most one
  -- level higher.
  pub update-IsAvl :
      (avl : Avl scm) (t : Node) (item : CString)
      → IsAvl t
      → (u : Node × Avl scm) × (update scm avl t item ≡ some u)
        × IsAvl u.0
        × Grown item (height t) u.0
  unfolding update
  update-IsAvl avl null item h = (
    new_node scm avl item,
    refl,
    unfold new_node in ground arith,
    unfold new_node in ground arith,
  )
  update-IsAvl avl (node d c k l r) item h = elim (Ordering-cases (strcmp item k)) [
    | inl e ↦
        let (u, run, a, g) = update-IsAvl avl l item h.3 in
        let (t, fixed, b, g') = fix_left_lem item d c k u.0 r (height l) a h.4 h.1 h.2 g e in
        ((t, u.1), rw (e, update, run, fixed), b, g')
    | inr (inl e) ↦ (
      (node (depth l r) (inc64 c) k l r, record avl { items = inc64 avl.items }),
      rw (e, update) (unfold refresh in refl),
      (depth-height l r h.3 h.4, h.1, h.2, h.3, h.4),
      inl refl,
    )
    | inr (inr e) ↦
        let (u, run, a, g) = update-IsAvl avl r item h.4 in
        let (t, fixed, b, g') = fix_right_lem item d c k l u.0 (height r) h.3 a h.2 h.1 g e in
        ((t, u.1), rw (e, update, run, fixed), b, g')
  ]

  -- What a call of `update` at `t` that returned `u` did: one more occurrence of the word, if it
  -- was there or there was room for it, and the counters with it.
  pub record Updated (avl : Avl scm) (t : Node) (item : CString) (u : Node × Avl scm) : Type 0 where
    pub entries : traverse u.0 ≡ tally (has_room avl item) item (traverse t)
    pub items :
        u.1.items
        ≡ (if has item (traverse t) || has_room avl item then inc64 avl.items else avl.items)
    pub unique : u.1.unique ≡ (
        if has item (traverse t)
        then avl.unique
        else if has_room avl item
        then inc64 avl.unique
        else avl.unique)
    pub root : u.1.root ≡ avl.root

  new_node-Updated :
      (avl : Avl scm) (item : CString) → Updated avl null item (new_node scm avl item)
  unfolding new_node has_room traverse tally has
  new_node-Updated avl item = ground arith

  pub update-Updated :
      (avl : Avl scm) (t : Node) (item : CString) (u : Node × Avl scm)
      → IsSorted (traverse t)
      → update scm avl t item ≡ some u
      → Updated avl t item u
  unfolding update traverse
  update-Updated avl null item u s e =
      subst (Updated avl null item) (some-injective _ _ e) (new_node-Updated avl item)
  update-Updated avl (node d c k l r) item u s e = elim (Ordering-cases (strcmp item k)) [
    | inl lt ↦
        let (v, run, q) = bind_some (update scm avl l item) _ u (rw (lt, update) at e) in
        let (t, fixed, w) = bind_some (fix_left item d c k v.0 r) _ u q in
        let ih = update-Updated avl l item v parts.1 run in
        let same = has-left item k c (traverse l) (traverse r) lt parts.2 in
        subst (Updated avl (node d c k l r) item) (some-injective _ _ w) (record {
          entries =
              fix_left-Keeps item d c k v.0 r t fixed
              ∙ ap (λ x. x ++ (k, c) ∷ traverse r) ih.entries
              ∙ sym (tally-left (has_room avl item) item k c (traverse l) (traverse r) lt);
          items = rw same ih.items;
          unique = rw same ih.unique;
          root = ih.root;
        })
    | inr (inl eq) ↦
        let (t, fixed, w) =
          bind_some (refresh (node d (inc64 c) k l r)) _ u (rw (eq, update) at e) in
        let here = has-here item k c (traverse l) (traverse r) eq in
        subst (Updated avl (node d c k l r) item) (some-injective _ _ w) (record {
          entries =
              refresh-Keeps (node d (inc64 c) k l r) t fixed
              ∙ sym (tally-here (has_room avl item) item k c (traverse l) (traverse r) eq parts.0);
          items = rw here refl;
          unique = rw here refl;
          root = refl;
        })
    | inr (inr gt) ↦
        let (v, run, q) = bind_some (update scm avl r item) _ u (rw (gt, update) at e) in
        let (t, fixed, w) = bind_some (fix_right item d c k l v.0) _ u q in
        let ih = update-Updated avl r item v parts.3 run in
        let same = has-right item k c (traverse l) (traverse r) gt parts.0 in
        subst (Updated avl (node d c k l r) item) (some-injective _ _ w) (record {
          entries =
              fix_right-Keeps item d c k l v.0 t fixed
              ∙ ap (λ x. traverse l ++ (k, c) ∷ x) ih.entries
              ∙ sym (tally-right (has_room avl item) item k c (traverse l) (traverse r) gt parts.0);
          items = rw same ih.items;
          unique = rw same ih.unique;
          root = ih.root;
        })
  ]
    where
      parts :
          Below (traverse l) k
          × IsSorted (traverse l)
          × Above k (traverse r)
          × IsSorted (traverse r)
      parts = IsSorted-parts (traverse l) (traverse r) k c s
