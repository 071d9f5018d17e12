-- ===== src/Index/Probe.antt =====
-- The probe loops of p4/index.c: what a lookup finds, and that `update` agrees with it.
use mathlib.Core.Option.{some-injective}
use operating_systems_cs.Common.{
  subst, ==_iff, ne→==, ℕ, zero, suc, ◌+◌, ◌%◌, ◌^◌, ◌<◌, false, ◌==◌, Bool-cases, none, some, List,
  [], ◌∷◌, set, length, ◌≡◌, ◌≢◌, refl, sym, ap, ◌∙◌, ◌⊎◌, inl, inr, arith, get_or-set_self,
  get_or-set_ne,
}
use operating_systems_cs.Index.{Map, no_map, Index, map_at, probe, update_loop, lookup_loop}

pub probe-lt : (capacity key i : ℕ) → 0 < capacity → probe capacity key i < capacity
unfolding probe
probe-lt capacity key i h = grind arith

pub lookup_pos :
    (n i capacity : ℕ) (maps : List Map) (key : ℕ) {j : ℕ}
    → lookup_loop n i capacity maps key ≡ some j
    → 0 < n
unfolding lookup_loop
lookup_pos zero i capacity maps key h = cc
lookup_pos (suc n) i capacity maps key h = omega arith

-- A position that a lookup returns holds the key, which is no free slot.
pub lookup-found :
    (n i capacity : ℕ) (maps : List Map) (key j : ℕ)
    → 0 < capacity
    → lookup_loop n i capacity maps key ≡ some j
    → ((map_at maps j).key ≡ key) × (key ≢ 0) × (j < capacity)
unfolding lookup_loop
lookup-found zero i capacity maps key j p h = cc
lookup-found (suc n) i capacity maps key j p h =
    ground (arith, lookup-found n (i + 1) capacity maps key j p, probe-lt capacity key i p)

-- A write to a free slot does not disturb what a lookup finds elsewhere.
pub lookup-set_free :
    (n i capacity : ℕ) (maps : List Map) (key j free : ℕ) (m : Map)
    → (map_at maps free).key ≡ 0
    → lookup_loop n i capacity maps key ≡ some j
    → lookup_loop n i capacity (set maps free m) key ≡ some j
unfolding lookup_loop
lookup-set_free zero i capacity maps key j free m f h = cc
lookup-set_free (suc n) i capacity maps key j free m f h = ground (
  arith,
  lookup-set_free n (i + 1) capacity maps key j free m f,
  get_or-set_ne maps free (probe capacity key i) m no_map,
)

pub key_set_same :
    (maps : List Map) (j p : ℕ) (m : Map)
    → j < length maps
    → m.key ≡ (map_at maps j).key
    → (map_at (set maps j m) p).key ≡ (map_at maps p).key
key_set_same [] j p m b e = refl
key_set_same (x ∷ maps) zero zero m b e = e
key_set_same (x ∷ maps) zero (suc p) m b e = refl
key_set_same (x ∷ maps) (suc j) zero m b e = refl
key_set_same (x ∷ maps) (suc j) (suc p) m b e = key_set_same maps j p m (omega arith) e

-- A write that keeps the key of a slot changes no lookup.
pub lookup-set_same :
    (n i capacity : ℕ) (maps : List Map) (key j : ℕ) (m : Map)
    → j < length maps
    → m.key ≡ (map_at maps j).key
    → lookup_loop n i capacity (set maps j m) key ≡ lookup_loop n i capacity maps key
unfolding lookup_loop
lookup-set_same zero i capacity maps key j m b e = refl
lookup-set_same (suc n) i capacity maps key j m b e = rw (
  key_set_same maps j (probe capacity key i) m b e,
  lookup-set_same n (i + 1) capacity maps key j m b e,
)

-- What a loop of `update` that returned the position `j` did: it found the key there and changed
-- nothing, or the key was not there and now stands in the free slot `j`.
abbrev pub added : Index → ℕ → ℕ → Index
added index key j = record index {
  size = (index.size + 1) % 2 ^ 64;
  maps = set index.maps j (record { key = key; off = 0 });
}

abbrev pub Updated : ℕ → ℕ → Index → ℕ → ℕ → Index → Type 0
Updated n i index key j index' =
    (lookup_loop n i index.capacity index.maps key ≡ some j) × (index' ≡ index)
    ⊎ (lookup_loop n i index.capacity index.maps key ≡ none)
      × ((map_at index.maps j).key ≡ 0)
      × (j < index.capacity)
      × (lookup_loop n i index.capacity (set index.maps j (record { key = key; off = 0 })) key
          ≡ some j)
      × (index' ≡ added index key j)

set_get_or_self : (maps : List Map) (j : ℕ) → set maps j (map_at maps j) ≡ maps
set_get_or_self [] j = refl
set_get_or_self (x ∷ maps) zero = refl
set_get_or_self (x ∷ maps) (suc j) = ap (λ t. x ∷ t) (set_get_or_self maps j)

past_slot :
    (n i : ℕ) (index : Index) (key j : ℕ) (index' : Index)
    → ((map_at index.maps (probe index.capacity key i)).key == 0) ≡ false
    → ((map_at index.maps (probe index.capacity key i)).key == key) ≡ false
    → Updated n (i + 1) index key j index'
    → Updated (suc n) i index key j index'
unfolding lookup_loop
past_slot n i index key j index' taken other (inl (a, b)) = inl (rw (taken, other) a, b)
past_slot n i index key j index' taken other (inr (a, f, b, c, d)) =
    let q = probe index.capacity key i in
    let ne : j ≢ q = λ e. apart (ap (λ x. (map_at index.maps x).key) e) in
    let away = get_or-set_ne index.maps j q (record { key = key; off = 0 }) no_map ne in
    inr (rw (taken, other) a, f, b, rw (away, taken, other) c, d)
  where
    apart : (map_at index.maps j).key ≡ (map_at index.maps (probe index.capacity key i)).key → ⊥
    apart e = ground arith

pub update-Updated :
    (n i : ℕ) (index : Index) (key j : ℕ) (index' : Index)
    → 0 < index.capacity
    → length index.maps ≡ index.capacity
    → key ≢ 0
    → update_loop n i index key ≡ some (j, index')
    → Updated n i index key j index'
unfolding update_loop lookup_loop
update-Updated zero i index key j index' p w k h = cc
update-Updated (suc n) i index key j index' p w k h =
    let q = probe index.capacity key i in
    elim (Bool-cases ((map_at index.maps q).key == 0)) [
      | inl free ↦
          let m : Map = record { key = key; off = 0 } in
          let back =
            get_or-set_self index.maps q m no_map (rw w (probe-lt index.capacity key i p)) in
          subst (λ (x : ℕ × Index). Updated (suc n) i index key x.0 x.1)
            (some-injective _ _ (rw free at h))
            (inr (
              rw free,
              (==_iff _ 0).0 free,
              probe-lt index.capacity key i p,
              rw (back, ne→== key 0 k, (==_iff key key).1 refl),
              refl,
            ))
      | inr taken ↦ elim (Bool-cases ((map_at index.maps q).key == key)) [
        | inl here ↦
            let m = map_at index.maps q in
            let same =
              ap (λ x. record index { maps = set index.maps q (record m { key = x }) })
                (sym ((==_iff m.key key).0 here))
              ∙ ap (λ x. record index { maps = x }) (set_get_or_self index.maps q) in
            subst (λ (x : ℕ × Index). Updated (suc n) i index key x.0 x.1)
              (some-injective _ _ (rw (taken, here) at h)) (inl (rw (taken, here), same))
        | inr other ↦
            past_slot n i index key j index' taken other
              (update-Updated n (i + 1) index key j index' p w k (rw (taken, other) at h))
      ]
    ]
