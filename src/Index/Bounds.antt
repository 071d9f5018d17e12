-- ===== src/Index/Bounds.antt =====
-- How far the table of p4/index.c grows: the slots in use, the capacity and the hashes after some calls.
use mathlib.Core.Option.{some-injective}
use operating_systems_cs.Common.{
  ℕ, zero, suc, ◌+◌, ◌*◌, ◌%◌, ◌^◌, ◌<◌, ◌≤◌, Bool, true, ◌==◌, Bool-cases, some, bind_some, List,
  [], ◌∷◌, set, replicate, ◌≡◌, refl, sym, ◌∙◌, subst, inl, inr, arith,
}
use operating_systems_cs.Index.{
  Map, no_map, Index, map_at, probe, update_loop, update, write_off, rehash, create, overloaded,
  next_capacity, Outcome, ok, failed, exited, or_exit, grow, key_of, new_index, index_update,
}
use operating_systems_cs.Index.Table.{IsValid}
use operating_systems_cs.Index.Rehash.{rehash-Moved, IsValid-IsUnique}
use operating_systems_cs.Index.Grow.{
  blank, blank-IsValid, blank-view, or_exit-ok, ok-injective, next_capacity-bounds,
}
use operating_systems_cs.Index.Total.{IsLow, grow-light}

-- After `m` calls of `index_update`: at most as many slots are in use, the capacity is in proportion, and
-- no hash is near the end of the 64-bit range.
pub record Few (m : ℕ) (index : Index) : Type 0 where
  pub slots : index.size ≤ m
  pub space : index.capacity ≤ 3 * m + 146
  pub low : IsLow index.maps

set-IsLow :
    (maps : List Map) (j : ℕ) (m : Map)
    → IsLow maps
    → m.key + 2 ^ 49 ≤ 2 ^ 64
    → IsLow (set maps j m)
set-IsLow [] j m h l = h
set-IsLow (n ∷ maps) zero m h l = (l, h.1)
set-IsLow (n ∷ maps) (suc j) m h l = (h.0, set-IsLow maps j m h.1 l)

map_at-low : (maps : List Map) (j : ℕ) → IsLow maps → (map_at maps j).key + 2 ^ 49 ≤ 2 ^ 64
map_at-low [] j h = omega arith
map_at-low (m ∷ maps) zero h = h.0
map_at-low (m ∷ maps) (suc j) h = map_at-low maps j h.1

replicate-IsLow : (n : ℕ) → IsLow (replicate n no_map)
replicate-IsLow zero = tt
replicate-IsLow (suc n) = (omega arith, replicate-IsLow n)

write_off-IsLow : (index : Index) (j v : ℕ) → IsLow index.maps → IsLow (write_off index j v).maps
unfolding write_off
write_off-IsLow index j v h = set-IsLow index.maps j _ h (map_at-low index.maps j h)

pub write_off-Few : (m : ℕ) (index : Index) (j v : ℕ) → Few m index → Few m (write_off index j v)
unfolding write_off
write_off-Few m index j v f = record {
  slots = f.slots;
  space = f.space;
  low = write_off-IsLow index j v f.low;
}

-- What `update` leaves.
record Updated (index index' : Index) : Type 0 where
  slots : index'.size ≤ index.size + 1
  space : index'.capacity ≡ index.capacity
  low : IsLow index'.maps

module _ (key : ℕ) (near : key + 2 ^ 49 ≤ 2 ^ 64) where
  update_loop-Updated :
      (n i : ℕ) (index : Index) (r : ℕ × Index)
      → IsLow index.maps
      → update_loop n i index key ≡ some r
      → Updated index r.1
  unfolding update_loop
  update_loop-Updated zero i index r h e = absurd (cc e)
  update_loop-Updated (suc n) i index r h e =
      let j = probe index.capacity key i in
      elim (Bool-cases ((map_at index.maps j).key == 0)) [
        | inl free ↦
            subst (λ (x : ℕ × Index). Updated index x.1) (some-injective _ _ (rw free at e))
              (record { slots = omega arith; space = refl; low = set-IsLow index.maps j _ h near })
        | inr taken ↦ elim (Bool-cases ((map_at index.maps j).key == key)) [
          | inl here ↦
              subst (λ (x : ℕ × Index). Updated index x.1)
                (some-injective _ _ (rw (taken, here) at e))
                (record {
                  slots = omega arith;
                  space = refl;
                  low = set-IsLow index.maps j _ h near;
                })
          | inr other ↦ update_loop-Updated n (i + 1) index r h (rw (taken, other) at e)
        ]
      ]

  update-Updated :
      (index : Index) (r : ℕ × Index)
      → IsLow index.maps
      → update index key ≡ some r
      → Updated index r.1
  unfolding update
  update-Updated index r h e = update_loop-Updated index.capacity 0 index r h e

rehash-IsLow :
    (maps : List Map) (fresh fresh' : Index)
    → IsLow maps
    → IsLow fresh.maps
    → rehash maps fresh ≡ some fresh'
    → IsLow fresh'.maps
unfolding rehash
rehash-IsLow [] fresh fresh' l h e = subst (λ (x : Index). IsLow x.maps) (some-injective _ _ e) h
rehash-IsLow (m ∷ maps) fresh fresh' l h e = elim (Bool-cases (m.key == 0)) [
  | inl free ↦ rehash-IsLow maps fresh fresh' l.1 h (rw (free, rehash) at e)
  | inr taken ↦
      let (r, run, rest) =
        bind_some (update fresh m.key) (λ r. rehash maps (write_off r.1 r.0 m.off)) fresh'
          (rw (taken, rehash) at e) in
      let u = update-Updated m.key l.0 fresh r h run in
      rehash-IsLow maps (write_off r.1 r.0 m.off) fresh' l.1 (write_off-IsLow r.1 r.0 m.off u.low)
        rest
]

failed-ne-ok : (index : Index) → ¬ (failed ≡ ok index)
failed-ne-ok index h = cc

-- A table that grows, by its load.
heavy_load :
    (index : Index)
    → index.capacity < 2 ^ 48
    → overloaded index ≡ true
    → 14 * next_capacity index.capacity ≤ 30 * index.size + 2037
unfolding overloaded next_capacity
heavy_load index small h = ground (arith, small, h)

grow-Few :
    (room : ℕ → Bool) (m : ℕ) (index grown : Index)
    → IsValid index
    → index.capacity < 2 ^ 48
    → Few m index
    → grow room index ≡ ok grown
    → Few m grown
unfolding grow create
grow-Few room m index grown v small f e = elim (Bool-cases (overloaded index)) [
  | inr light ↦ subst (Few m) (ok-injective _ _ (sym (grow-light room index light) ∙ e)) f
  | inl heavy ↦ elim (Bool-cases (room (next_capacity index.capacity * 16 % 2 ^ 64))) [
    | inr full ↦ absurd (failed-ne-ok grown (rw (heavy, grow, full, create) at e))
    | inl fits ↦
        let moved = or_exit-ok _ _ (rw (heavy, grow, fits, create) at e) in
        let (bound, wide, positive) = next_capacity-bounds index.capacity small in
        let fresh = blank (next_capacity index.capacity) in
        let t =
          rehash-Moved index.maps fresh grown (blank-IsValid _ bound) (IsValid-IsUnique index v)
            (λ q off h. blank-view (next_capacity index.capacity) q bound) moved in
        let full = heavy_load index small heavy in
        record {
          slots = omega (arith, t.size, v.counted, f.slots);
          space = omega (arith, t.capacity, full, f.slots);
          low = rehash-IsLow index.maps fresh grown f.low (replicate-IsLow _) moved;
        }
  ]
]

-- On a well-formed table below 2 ^ 48 slots, with at most m slots in use, a capacity of at most 3 * m + 146
-- and no hash within 2 ^ 49 of the end of the 64-bit range, a successful index_update of a key whose hash is
-- not there either leaves a table with the same bounds for m + 1.
pub index_update-Few :
    (room : ℕ → Bool) (m : ℕ) (index : Index) (bytes : List ℕ) (j : ℕ) (index' : Index)
    → IsValid index
    → index.capacity < 2 ^ 48
    → Few m index
    → key_of bytes + 2 ^ 49 ≤ 2 ^ 64
    → index_update room index bytes ≡ ok (j, index')
    → Few (suc m) index'
unfolding index_update
index_update-Few room m index bytes j index' v small f near e = by_grow (grow room index) refl e
  where
    by_grow :
        (o : Outcome Index)
        → grow room index ≡ o
        → (elim o [
          | ok grown ↦ or_exit (update grown (key_of bytes))
          | failed ↦ failed
          | exited ↦ exited
        ])
          ≡ ok (j, index')
        → Few (suc m) index'
    by_grow (ok grown) run x =
        let g = grow-Few room m index grown v small f run in
        let u = update-Updated (key_of bytes) near grown (j, index') g.low (or_exit-ok _ _ x) in
        record {
          slots = omega (arith, u.slots, g.slots);
          space = omega (arith, u.space, g.space);
          low = u.low;
        }
    by_grow failed run x = absurd (cc x)
    by_grow exited run x = absurd (cc x)

pub new_index-Few : Few 0 new_index
unfolding new_index
new_index-Few = record { slots = omega arith; space = omega arith; low = tt }
