-- ===== src/Avl.antt =====
-- The word tree of p3/avl.c: the node and state structs, the rotations, `update` and the public
-- calls. A null pointer that is followed is the fault `none`. The storage class memory is the
-- interface that p3/scm.h documents, and enters as a parameter: p3/scm.c implements none of it.

pub mod Balance
pub mod Entries
pub mod Rotate
pub mod Insert
pub mod Words
pub mod Tests
use operating_systems_cs.Common.{
  ℕ, ◌+◌, ◌%◌, ◌^◌, Bool, true, false, if◌then◌else◌, ltb, Option, none, some, ◌>>=◌, List, [], ◌∷◌,
  ◌++◌, Ordering,
}
use operating_systems_cs.Common.Int.{ℤ, pos, negsuc, ◌+ℤ◌, ◌-ℤ◌, ltb_ℤ, abs}
use operating_systems_cs.Common.Text.{CString, strcmp}

-- The allocations that avl.c makes from the region; the flag says that the pointer is not null.
pub record Scm : Type 1 where
  pub Region : Type 0
  pub scm_malloc : Region → ℕ → Bool × Region
  pub scm_strdup : Region → CString → Bool × Region

-- `struct node *`: a null pointer, or the fields in the order of the struct.
pub data Node : Type 0 where
  null : Node
  node : ℤ → ℕ → CString → Node → Node → Node

-- `struct avl` with the `struct state` that it points to.
pub record Avl (scm : Scm) : Type 0 where
  pub items : ℕ
  pub unique : ℕ
  pub root : Node
  pub region : scm.Region

-- `++` on a `uint64_t`.
abbrev pub inc64 : ℕ → ℕ
inc64 n = (n + 1) % 2 ^ 64

-- `sizeof (struct node)` on a 64-bit target.
abbrev pub sizeof_node : ℕ
sizeof_node = 40

pub delta : Node → ℤ
delta null = negsuc 0
delta (node d c k l r) = d

-- `balance` of the two children of a node.
pub balance : Node → Node → ℤ
balance l r = delta l -ℤ delta r

pub depth : Node → Node → ℤ
depth a b = if ltb_ℤ (delta b) (delta a) then delta a +ℤ pos 1 else delta b +ℤ pos 1

-- `root->depth = depth(root->left, root->right)`.
pub refresh : Node → Option Node
refresh null = none
refresh (node d c k l r) = some (node (depth l r) c k l r)

pub rotate_right : Node → Option Node
rotate_right (node d c k (node d' c' k' l' r') r) =
    let n = node (depth r' r) c k r' r in some (node (depth l' n) c' k' l' n)
rotate_right _ = none

pub rotate_left : Node → Option Node
rotate_left (node d c k l (node d' c' k' l' r')) =
    let n = node (depth l l') c k l l' in some (node (depth r' n) c' k' n r')
rotate_left _ = none

pub rotate_left_right : Node → Option Node
rotate_left_right null = none
rotate_left_right (node d c k l r) = rotate_left l >>= λ l'. rotate_right (node d c k l' r)

pub rotate_right_left : Node → Option Node
rotate_right_left null = none
rotate_right_left (node d c k l r) = rotate_right r >>= λ r'. rotate_left (node d c k l r')

-- `root->left->item` and `root->right->item`.
pub item_of : Node → Option CString
item_of null = none
item_of (node d c k l r) = some k

-- The choice of the rotation where the left side is too high, by the item at its root.
pub turn_right : CString → CString → Node → Option Node
turn_right item k' root = elim (strcmp item k') [
  | Ordering.lt ↦ rotate_right root >>= refresh
  | _ ↦ rotate_left_right root >>= refresh
]

-- The same where the right side is too high.
pub turn_left : CString → CString → Node → Option Node
turn_left item k' root = elim (strcmp item k') [
  | Ordering.gt ↦ rotate_left root >>= refresh
  | _ ↦ rotate_right_left root >>= refresh
]

-- What `update` does to `root` after it went left, down to the final assignment of the depth.
pub fix_left : CString → ℤ → ℕ → CString → Node → Node → Option Node
fix_left item d c k l r =
    if ltb 1 (abs (balance l r))
    then (item_of l >>= λ k'. turn_right item k' (node d c k l r))
    else refresh (node d c k l r)

-- The same after it went right.
pub fix_right : CString → ℤ → ℕ → CString → Node → Node → Option Node
fix_right item d c k l r =
    if ltb 1 (abs (balance l r))
    then (item_of r >>= λ k'. turn_left item k' (node d c k l r))
    else refresh (node d c k l r)

module _ (scm : Scm) where
  -- The branch of `update` at a null root: the node and the copy of the word, or null.
  pub new_node : Avl scm → CString → Node × Avl scm
  new_node avl item =
      let (p, region) = scm.scm_malloc avl.region sizeof_node in
      let (q, region') = scm.scm_strdup region item in
      if p
      then (if q
          then (
            node (pos 0) 1 item null null,
            record avl { items = inc64 avl.items; unique = inc64 avl.unique; region = region' },
          )
          else (null, record avl { region = region' }))
      else (null, record avl { region = region })

  pub update : Avl scm → Node → CString → Option (Node × Avl scm)
  update avl null item = some (new_node avl item)
  update avl (node d c k l r) item = elim (strcmp item k) [
    | Ordering.eq ↦
        refresh (node d (inc64 c) k l r) >>= λ t. some (t, record avl { items = inc64 avl.items })
    | Ordering.lt ↦ update avl l item >>= λ u. fix_left item d c k u.0 r >>= λ t. some (t, u.1)
    | Ordering.gt ↦ update avl r item >>= λ u. fix_right item d c k l u.0 >>= λ t. some (t, u.1)
  ]

  -- The end of `avl_insert`, on what `update` returned.
  pub set_root : Node → Avl scm → Bool × Avl scm
  set_root null avl = (false, avl)
  set_root (node d c k l r) avl = (true, record avl { root = node d c k l r })

  -- The result is the returned status, true for 0 and false for -1, with the tree.
  pub avl_insert : Avl scm → CString → Option (Bool × Avl scm)
  avl_insert avl item = update avl avl.root item >>= λ u. some (set_root u.0 u.1)

-- The loop of `avl_exists` from a node.
pub search_from : Node → CString → ℕ
search_from null item = 0
search_from (node d c k l r) item = elim (strcmp item k) [
  | Ordering.eq ↦ c
  | Ordering.lt ↦ search_from l item
  | Ordering.gt ↦ search_from r item
]

-- The calls of `fnc` that `traverse` makes, in order.
pub traverse : Node → List (CString × ℕ)
traverse null = []
traverse (node d c k l r) = traverse l ++ (k, c) ∷ traverse r

module _ {scm : Scm} where
  pub avl_exists : Avl scm → CString → ℕ
  avl_exists avl item = search_from avl.root item

  pub avl_traverse : Avl scm → List (CString × ℕ)
  avl_traverse avl = traverse avl.root

  pub avl_items : Avl scm → ℕ
  avl_items avl = avl.items

  pub avl_unique : Avl scm → ℕ
  avl_unique avl = avl.unique
