-- ===== src/Avl/Entries.antt =====
-- The words of a tree in order with their counts: what `traverse` reports, as a sorted list.
use operating_systems_cs.Common.{
  ℕ, ◌+◌, Bool, if◌then◌else◌, List, [], ◌∷◌, ◌++◌, Ordering, ◌≡◌, refl, arith, true, false, length,
  suc, ◌%◌, ◌^◌, ◌||◌,
}
use operating_systems_cs.Common.Text.{
  CString, strcmp, strcmp_refl, eq_of_strcmp, lt_of_gt, gt_of_lt, lt_trans,
}
use operating_systems_cs.Avl.{inc64}

abbrev pub Entries : Type 0
Entries = List (CString × ℕ)

-- The key is less than every key of the list.
abbrev pub Above : CString → Entries → Type 0
Above x [] = Unit
Above x (e ∷ es) = (strcmp x e.0 ≡ Ordering.lt) × Above x es

abbrev pub Below : Entries → CString → Type 0
Below [] x = Unit
Below (e ∷ es) x = (strcmp e.0 x ≡ Ordering.lt) × Below es x

abbrev pub IsSorted : Entries → Type 0
IsSorted [] = Unit
IsSorted (e ∷ es) = Above e.0 es × IsSorted es

-- One more occurrence of a word; a word that is not there is added if `room` says so.
unfoldable pub tally : Bool → CString → Entries → Entries
tally room x [] = if room then (x, 1) ∷ [] else []
tally room x ((k, c) ∷ es) =
    let rest = tally room x es in
    elim (strcmp x k) [
      | Ordering.eq ↦ (k, inc64 c) ∷ es
      | Ordering.lt ↦ if room then (x, 1) ∷ (k, c) ∷ es else (k, c) ∷ es
      | Ordering.gt ↦ (k, c) ∷ rest
    ]

unfoldable pub count_of : CString → Entries → ℕ
count_of x [] = 0
count_of x ((k, c) ∷ es) =
    let rest = count_of x es in elim (strcmp x k) [ Ordering.eq ↦ c | _ ↦ rest ]

pub Above-append : (x : CString) (xs ys : Entries) → Above x xs → Above x ys → Above x (xs ++ ys)
Above-append x [] ys h k = k
Above-append x (a ∷ xs) ys h k = (h.0, Above-append x xs ys h.1 k)

pub Above-trans :
    (x y : CString) (es : Entries) → strcmp x y ≡ Ordering.lt → Above y es → Above x es
Above-trans x y [] h k = tt
Above-trans x y (e ∷ es) h k = (lt_trans x y e.0 h k.0, Above-trans x y es h k.1)

-- A list around an entry is sorted exactly when its two parts are, on their sides of the entry.
pub IsSorted-parts :
    (xs ys : Entries) (k : CString) (c : ℕ)
    → IsSorted (xs ++ (k, c) ∷ ys)
    → Below xs k × IsSorted xs × Above k ys × IsSorted ys
IsSorted-parts [] ys k c h = (tt, tt, h.0, h.1)
IsSorted-parts (a ∷ xs) ys k c (h, s) =
    let (p, q, r, t) = IsSorted-parts xs ys k c s in ((head_lt xs h, p), (tail_above xs h, q), r, t)
  where
    head_lt : (xs : Entries) → Above a.0 (xs ++ (k, c) ∷ ys) → strcmp a.0 k ≡ Ordering.lt
    head_lt [] h = h.0
    head_lt (b ∷ xs) h = head_lt xs h.1

    tail_above : (xs : Entries) → Above a.0 (xs ++ (k, c) ∷ ys) → Above a.0 xs
    tail_above [] h = tt
    tail_above (b ∷ xs) h = (h.0, tail_above xs h.1)

-- What a word does to a sorted list, by the side of an entry on which it falls.
pub tally-left :
    (room : Bool) (x k : CString) (c : ℕ) (xs ys : Entries)
    → strcmp x k ≡ Ordering.lt
    → tally room x (xs ++ (k, c) ∷ ys) ≡ tally room x xs ++ (k, c) ∷ ys
unfolding tally
tally-left room x k c [] ys h = ground arith
tally-left room x k c (a ∷ xs) ys h = ground (arith, tally-left room x k c xs ys h)

pub tally-right :
    (room : Bool) (x k : CString) (c : ℕ) (xs ys : Entries)
    → strcmp x k ≡ Ordering.gt
    → Below xs k
    → tally room x (xs ++ (k, c) ∷ ys) ≡ xs ++ (k, c) ∷ tally room x ys
unfolding tally
tally-right room x k c [] ys h b = ground arith
tally-right room x k c (a ∷ xs) ys h b =
    let g = gt_of_lt a.0 x (lt_trans a.0 k x b.0 (lt_of_gt x k h)) in
    ground (arith, g, tally-right room x k c xs ys h b.1)

pub tally-here :
    (room : Bool) (x k : CString) (c : ℕ) (xs ys : Entries)
    → strcmp x k ≡ Ordering.eq
    → Below xs k
    → tally room x (xs ++ (k, c) ∷ ys) ≡ xs ++ (k, inc64 c) ∷ ys
unfolding tally
tally-here room x k c [] ys h b = ground arith
tally-here room x k c (a ∷ xs) ys h b =
    let e = eq_of_strcmp x k h in
    let g : strcmp x a.0 ≡ Ordering.gt = rw e (gt_of_lt a.0 k b.0) in
    ground (arith, g, tally-here room x k c xs ys h b.1)

Above-tally :
    (room : Bool) (x y : CString) (es : Entries)
    → strcmp y x ≡ Ordering.lt
    → Above y es
    → Above y (tally room x es)
unfolding tally
Above-tally room x y [] h k = ground arith
Above-tally room x y (e ∷ es) h k = ground (arith, Above-tally room x y es h k.1)

-- A sorted list stays sorted.
pub tally-IsSorted :
    (room : Bool) (x : CString) (es : Entries) → IsSorted es → IsSorted (tally room x es)
unfolding tally
tally-IsSorted room x [] h = ground arith
tally-IsSorted room x (e ∷ es) h = ground (
  arith,
  tally-IsSorted room x es h.1,
  Above-tally room x e.0 es,
  lt_of_gt x e.0,
  Above-trans x e.0 es,
  h.0,
)

pub count_of-Above : (x : CString) (es : Entries) → Above x es → count_of x es ≡ 0
unfolding count_of
count_of-Above x [] h = refl
count_of-Above x (e ∷ es) h = ground (arith, count_of-Above x es h.1)

-- One more occurrence of `x` is read back, and no other count changes.
pub count_of-tally :
    (x y : CString) (es : Entries)
    → IsSorted es
    → count_of y (tally true x es)
      ≡ elim (strcmp y x) [ Ordering.eq ↦ inc64 (count_of x es) | _ ↦ count_of y es ]
unfolding count_of tally
count_of-tally x y [] h = ground arith
count_of-tally x y (e ∷ es) h = ground (
  arith,
  count_of-tally x y es h.1,
  eq_of_strcmp y x,
  eq_of_strcmp x e.0,
  eq_of_strcmp y e.0,
  strcmp_refl x,
  count_of-Above x es,
  Above-trans x e.0 es,
  h.0,
)

pub count_of-left :
    (x k : CString) (c : ℕ) (xs ys : Entries)
    → strcmp x k ≡ Ordering.lt
    → Above k ys
    → count_of x (xs ++ (k, c) ∷ ys) ≡ count_of x xs
unfolding count_of
count_of-left x k c [] ys h b = ground (arith, count_of-Above x ys, Above-trans x k ys)
count_of-left x k c (a ∷ xs) ys h b = ground (arith, count_of-left x k c xs ys h b)

pub count_of-right :
    (x k : CString) (c : ℕ) (xs ys : Entries)
    → strcmp k x ≡ Ordering.lt
    → Below xs k
    → count_of x (xs ++ (k, c) ∷ ys) ≡ count_of x ys
unfolding count_of
count_of-right x k c [] ys h b = ground (arith, gt_of_lt k x h)
count_of-right x k c (a ∷ xs) ys h b =
    let g = gt_of_lt a.0 x (lt_trans a.0 k x b.0 h) in
    ground (arith, g, count_of-right x k c xs ys h b.1)

pub count_of-here :
    (k : CString) (c : ℕ) (xs ys : Entries) → Below xs k → count_of k (xs ++ (k, c) ∷ ys) ≡ c
unfolding count_of
count_of-here k c [] ys b = ground (arith, strcmp_refl k)
count_of-here k c (a ∷ xs) ys b = ground (arith, gt_of_lt a.0 k b.0, count_of-here k c xs ys b.1)

-- Whether a word is in the list.
unfoldable pub has : CString → Entries → Bool
has x [] = false
has x ((k, c) ∷ es) = let rest = has x es in elim (strcmp x k) [ Ordering.eq ↦ true | _ ↦ rest ]

-- The sum of the counts.
unfoldable pub total : Entries → ℕ
total [] = 0
total (e ∷ es) = e.1 + total es

has-Above : (x : CString) (es : Entries) → Above x es → has x es ≡ false
unfolding has
has-Above x [] h = refl
has-Above x (e ∷ es) h = ground (arith, has-Above x es h.1)

-- The two counters of the state, for a list: modulo 2 ^ 64, like the C counters.
pub total-tally :
    (room : Bool) (x : CString) (es : Entries)
    → IsSorted es
    → total (tally room x es) % 2 ^ 64
      ≡ (if has x es || room then inc64 (total es % 2 ^ 64) else total es % 2 ^ 64)
unfolding total tally has
total-tally room x [] h = ground arith
total-tally room x (e ∷ es) h =
    ground (arith, total-tally room x es h.1, has-Above x es, Above-trans x e.0 es, h.0)

pub length-tally :
    (room : Bool) (x : CString) (es : Entries)
    → IsSorted es
    → length (tally room x es)
      ≡ (if has x es then length es else if room then suc (length es) else length es)
unfolding tally has
length-tally room x [] h = ground arith
length-tally room x (e ∷ es) h =
    ground (arith, length-tally room x es h.1, has-Above x es, Above-trans x e.0 es, h.0)

-- Without room a word that is not there changes nothing.
pub tally-no_room : (x : CString) (es : Entries) → has x es ≡ false → tally false x es ≡ es
unfolding tally has
tally-no_room x [] h = refl
tally-no_room x (e ∷ es) h = ground (arith, tally-no_room x es)

pub has-left :
    (x k : CString) (c : ℕ) (xs ys : Entries)
    → strcmp x k ≡ Ordering.lt
    → Above k ys
    → has x (xs ++ (k, c) ∷ ys) ≡ has x xs
unfolding has
has-left x k c [] ys h b = ground (arith, has-Above x ys, Above-trans x k ys)
has-left x k c (a ∷ xs) ys h b = ground (arith, has-left x k c xs ys h b)

pub has-right :
    (x k : CString) (c : ℕ) (xs ys : Entries)
    → strcmp x k ≡ Ordering.gt
    → Below xs k
    → has x (xs ++ (k, c) ∷ ys) ≡ has x ys
unfolding has
has-right x k c [] ys h b = ground arith
has-right x k c (a ∷ xs) ys h b =
    let g = gt_of_lt a.0 x (lt_trans a.0 k x b.0 (lt_of_gt x k h)) in
    ground (arith, g, has-right x k c xs ys h b.1)

pub has-here :
    (x k : CString) (c : ℕ) (xs ys : Entries)
    → strcmp x k ≡ Ordering.eq
    → has x (xs ++ (k, c) ∷ ys) ≡ true
unfolding has
has-here x k c [] ys h = ground arith
has-here x k c (a ∷ xs) ys h = ground (arith, has-here x k c xs ys h)
