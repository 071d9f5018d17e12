-- ===== src/Avl/Balance.antt =====
-- Heights, the stored depths, and the rotations of p3/avl.c on them.
use operating_systems_cs.Common.{
  ℕ, suc, ◌+◌, ◌≤◌, ◌<◌, max, false, subst, Bool-cases, Option, some, ◌>>=◌, ◌≡◌, refl, ◌⊎◌, inl,
  inr, arith, Ordering, ltb, ◌↔◌, true,
}
use operating_systems_cs.Common.Int.{ℤ, pos, sub_ℕ, abs}
use operating_systems_cs.Common.Text.{CString, strcmp}
use operating_systems_cs.Avl.{
  Node, null, node, delta, balance, depth, refresh, rotate_right, rotate_left, rotate_left_right,
  rotate_right_left, item_of, fix_left, fix_right, turn_left, turn_right,
}

abbrev pub height : Node → ℕ
height null = 0
height (node d c k l r) = suc (max (height l) (height r))

-- Every stored depth is right, and no two siblings differ by more than one level.
abbrev pub IsAvl : Node → Type 0
IsAvl null = Unit
IsAvl (node d c k l r) =
    (d ≡ pos (max (height l) (height r)))
    × (height l ≤ height r + 1)
    × (height r ≤ height l + 1)
    × IsAvl l
    × IsAvl r

pub delta-height : (t : Node) → IsAvl t → delta t ≡ sub_ℕ (height t) 1
unfolding delta
delta-height null h = refl
delta-height (node d c k l r) h = ground arith

pub depth-height : (a b : Node) → IsAvl a → IsAvl b → depth a b ≡ pos (max (height a) (height b))
unfolding depth
depth-height a b h k = ground (arith, delta-height a h, delta-height b k)

pub balance_test :
    (a b : Node)
    → IsAvl a
    → IsAvl b
    → (ltb 1 (abs (balance a b)) ≡ true) ↔ ((height a + 1 < height b) ⊎ (height b + 1 < height a))
unfolding balance
balance_test a b h k = ground (arith, delta-height a h, delta-height b k)

pub test_passed :
    (a b : Node)
    → IsAvl a
    → IsAvl b
    → ltb 1 (abs (balance a b)) ≡ false
    → (height a ≤ height b + 1) × (height b ≤ height a + 1)
unfolding balance
test_passed a b h k e = ground (arith, delta-height a h, delta-height b k)

-- The path of `item` leads to the higher side, or the node is new.
abbrev pub Leans : CString → Node → Type 0
Leans item null = ⊥
Leans item (node d c k l r) =
    (height l ≡ 0) × (height r ≡ 0)
    ⊎ (strcmp item k ≡ Ordering.lt) × (height l ≡ height r + 1)
    ⊎ (strcmp item k ≡ Ordering.gt) × (height r ≡ height l + 1)

-- From a tree of height `n`, an insertion of `item` grows it by one level at most.
abbrev pub Grown : CString → ℕ → Node → Type 0
Grown item n t = (height t ≡ n) ⊎ (height t ≡ n + 1) × Leans item t

-- The result exists, is balanced, and comes from height `n`.
abbrev pub Restores : CString → ℕ → Option Node → Type 0
Restores item n o = (t : Node) × (o ≡ some t) × IsAvl t × Grown item n t

refresh_node :
    (item : CString) (d : ℤ) (c : ℕ) (k : CString) (l r : Node) (n : ℕ)
    → IsAvl l
    → IsAvl r
    → height l ≤ height r + 1
    → height r ≤ height l + 1
    → Grown item n (node d c k l r)
    → Restores item n (refresh (node d c k l r))
unfolding refresh
refresh_node item d c k l r n p q a b g =
    (node (depth l r) c k l r, refl, (depth-height l r p q, a, b, p, q), g)

rotate_right_lem :
    (item : CString) (d d' : ℤ) (c c' : ℕ) (k k' : CString) (l' r' r : Node)
    → IsAvl (node d' c' k' l' r')
    → IsAvl r
    → height l' ≡ height r + 1
    → height r' ≡ height r
    → Restores item (height r + 2) (rotate_right (node d c k (node d' c' k' l' r') r) >>= refresh)
unfolding rotate_right
rotate_right_lem item d d' c c' k k' l' r' r p q a b =
    let n = node (depth r' r) c k r' r in
    refresh_node item (depth l' n) c' k' l' n (height r + 2) p.3
      (depth-height r' r p.4 q, omega arith, omega arith, p.4, q) (omega arith) (omega arith)
      (inl (omega arith))

rotate_left_lem :
    (item : CString) (d d' : ℤ) (c c' : ℕ) (k k' : CString) (l l' r' : Node)
    → IsAvl l
    → IsAvl (node d' c' k' l' r')
    → height r' ≡ height l + 1
    → height l' ≡ height l
    → Restores item (height l + 2) (rotate_left (node d c k l (node d' c' k' l' r')) >>= refresh)
unfolding rotate_left
rotate_left_lem item d d' c c' k k' l l' r' p q a b =
    let n = node (depth l l') c k l l' in
    refresh_node item (depth r' n) c' k' n r' (height l + 2)
      (depth-height l l' p q.3, omega arith, omega arith, p, q.3) q.4 (omega arith) (omega arith)
      (inl (omega arith))

rotate_left_right_lem :
    (item : CString) (d d' d'' : ℤ) (c c' c'' : ℕ) (k k' k'' : CString) (l' a b r : Node)
    → IsAvl (node d' c' k' l' (node d'' c'' k'' a b))
    → IsAvl r
    → height l' ≡ height r
    → suc (max (height a) (height b)) ≡ height r + 1
    → Restores item
        (height r + 2)
        (rotate_left_right (node d c k (node d' c' k' l' (node d'' c'' k'' a b)) r) >>= refresh)
unfolding rotate_left_right rotate_left rotate_right
rotate_left_right_lem item d d' d'' c c' c'' k k' k'' l' a b r p q x y =
    let (_, _, _, p', s) = p in
    let m = node (depth l' a) c' k' l' a in
    let n = node (depth b r) c k b r in
    refresh_node item (depth m n) c'' k'' m n (height r + 2)
      (depth-height l' a p' s.3, omega arith, omega arith, p', s.3)
      (depth-height b r s.4 q, omega arith, omega arith, s.4, q) (omega arith) (omega arith)
      (inl (omega arith))

rotate_right_left_lem :
    (item : CString) (d d' d'' : ℤ) (c c' c'' : ℕ) (k k' k'' : CString) (l a b r' : Node)
    → IsAvl l
    → IsAvl (node d' c' k' (node d'' c'' k'' a b) r')
    → height r' ≡ height l
    → suc (max (height a) (height b)) ≡ height l + 1
    → Restores item
        (height l + 2)
        (rotate_right_left (node d c k l (node d' c' k' (node d'' c'' k'' a b) r')) >>= refresh)
unfolding rotate_right_left rotate_left rotate_right
rotate_right_left_lem item d d' d'' c c' c'' k k' k'' l a b r' p q x y =
    let (_, _, _, s, p') = q in
    let m = node (depth l a) c k l a in
    let n = node (depth b r') c' k' b r' in
    refresh_node item (depth n m) c'' k'' m n (height l + 2)
      (depth-height l a p s.3, omega arith, omega arith, p, s.3)
      (depth-height b r' s.4 p', omega arith, omega arith, s.4, p') (omega arith) (omega arith)
      (inl (omega arith))

-- The left side is two levels higher, and `item` leads to its higher side.
turn_right_lem :
    (item : CString) (d d' : ℤ) (c c' : ℕ) (k k' : CString) (l' r' r : Node)
    → IsAvl (node d' c' k' l' r')
    → IsAvl r
    → suc (max (height l') (height r')) ≡ height r + 2
    → Leans item (node d' c' k' l' r')
    → Restores item (height r + 2) (turn_right item k' (node d c k (node d' c' k' l' r') r))
unfolding turn_right
turn_right_lem item d d' c c' k k' l' r' r p q a (inl g) = absurd (omega arith)
turn_right_lem item d d' c c' k k' l' r' r p q a (inr (inl (e, g))) =
    rw (e, turn_right)
      (rotate_right_lem item d d' c c' k k' l' r' r p q (omega arith) (omega arith))
turn_right_lem item d d' c c' k k' l' null r p q a (inr (inr (e, g))) = absurd (omega arith)
turn_right_lem item d d' c c' k k' l' (node d'' c'' k'' x y) r p q a (inr (inr (e, g))) =
    rw (e, turn_right)
      (rotate_left_right_lem item d d' d'' c c' c'' k k' k'' l' x y r p q (omega arith)
        (omega arith))

turn_left_lem :
    (item : CString) (d d' : ℤ) (c c' : ℕ) (k k' : CString) (l l' r' : Node)
    → IsAvl l
    → IsAvl (node d' c' k' l' r')
    → suc (max (height l') (height r')) ≡ height l + 2
    → Leans item (node d' c' k' l' r')
    → Restores item (height l + 2) (turn_left item k' (node d c k l (node d' c' k' l' r')))
unfolding turn_left
turn_left_lem item d d' c c' k k' l l' r' p q a (inl g) = absurd (omega arith)
turn_left_lem item d d' c c' k k' l l' r' p q a (inr (inr (e, g))) =
    rw (e, turn_left) (rotate_left_lem item d d' c c' k k' l l' r' p q (omega arith) (omega arith))
turn_left_lem item d d' c c' k k' l null r' p q a (inr (inl (e, g))) = absurd (omega arith)
turn_left_lem item d d' c c' k k' l (node d'' c'' k'' x y) r' p q a (inr (inl (e, g))) =
    rw (e, turn_left)
      (rotate_right_left_lem item d d' d'' c c' c'' k k' k'' l x y r' p q (omega arith)
        (omega arith))

-- The left side of a node grew from height `n`: `fix_left` restores the balance.
pub fix_left_lem :
    (item : CString) (d : ℤ) (c : ℕ) (k : CString) (l r : Node) (n : ℕ)
    → IsAvl l
    → IsAvl r
    → n ≤ height r + 1
    → height r ≤ n + 1
    → Grown item n l
    → strcmp item k ≡ Ordering.lt
    → Restores item (suc (max n (height r))) (fix_left item d c k l r)
unfolding fix_left item_of
fix_left_lem item d c k l r n p q a b g e = elim (Bool-cases (ltb 1 (abs (balance l r)))) [
  | inl high ↦ rw high (turn l p g ((balance_test l r p q).0 high))
  | inr low ↦
      let (x, y) = test_passed l r p q low in
      rw low (refresh_node item d c k l r (suc (max n (height r))) p q x y (ground arith))
]
  where
    turn :
        (l : Node)
        → IsAvl l
        → Grown item n l
        → (height l + 1 < height r) ⊎ (height r + 1 < height l)
        → Restores item
            (suc (max n (height r)))
            (item_of l >>= λ k'. turn_right item k' (node d c k l r))
    turn null p (inl g) h = absurd (omega arith)
    turn null p (inr g) h = absurd g.1
    turn (node d' c' k' l' r') p (inl g) h = absurd (omega arith)
    turn (node d' c' k' l' r') p (inr (g, s)) h =
        let m : height r + 2 ≡ suc (max n (height r)) = omega arith in
        subst (λ m. Restores item m (turn_right item k' (node d c k (node d' c' k' l' r') r))) m
          (turn_right_lem item d d' c c' k k' l' r' r p q (omega arith) s)

-- The right side of a node grew from height `n`: `fix_right` restores the balance.
pub fix_right_lem :
    (item : CString) (d : ℤ) (c : ℕ) (k : CString) (l r : Node) (n : ℕ)
    → IsAvl l
    → IsAvl r
    → n ≤ height l + 1
    → height l ≤ n + 1
    → Grown item n r
    → strcmp item k ≡ Ordering.gt
    → Restores item (suc (max (height l) n)) (fix_right item d c k l r)
unfolding fix_right item_of
fix_right_lem item d c k l r n p q a b g e = elim (Bool-cases (ltb 1 (abs (balance l r)))) [
  | inl high ↦ rw high (turn r q g ((balance_test l r p q).0 high))
  | inr low ↦
      let (x, y) = test_passed l r p q low in
      rw low (refresh_node item d c k l r (suc (max (height l) n)) p q x y (ground arith))
]
  where
    turn :
        (r : Node)
        → IsAvl r
        → Grown item n r
        → (height l + 1 < height r) ⊎ (height r + 1 < height l)
        → Restores item
            (suc (max (height l) n))
            (item_of r >>= λ k'. turn_left item k' (node d c k l r))
    turn null q (inl g) h = absurd (omega arith)
    turn null q (inr g) h = absurd g.1
    turn (node d' c' k' l' r') q (inl g) h = absurd (omega arith)
    turn (node d' c' k' l' r') q (inr (g, s)) h =
        let m : height l + 2 ≡ suc (max (height l) n) = omega arith in
        subst (λ m. Restores item m (turn_left item k' (node d c k l (node d' c' k' l' r')))) m
          (turn_left_lem item d d' c c' k k' l l' r' p q (omega arith) s)
