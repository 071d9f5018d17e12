-- ===== src/Index/Total.antt =====
-- When p4/index.c finds a slot: the slots that the loop of `update` reaches, and the free ones that
-- `grow` leaves.
use native.Mathlib.Nat.{mod-eq_of_lt, mod-add-mod, add-mod_right, mod-lt}
use operating_systems_cs.Common.{
  ℕ, zero, suc, ◌+◌, ◌*◌, ◌-◌, ◌%◌, ◌^◌, ◌<◌, ◌≤◌, Bool, true, false, ◌==◌, leb, Bool-cases, Option,
  some, ◌>>=◌, List, [], ◌∷◌, length, ◌≡◌, refl, sym, ap, ◌∙◌, ◌⊎◌, inl, inr, arith, ==_iff,
}
use operating_systems_cs.Index.{
  Map, Index, map_at, probe, update_loop, update, write_off, rehash, create, overloaded,
  next_capacity, Outcome, ok, failed, exited, or_exit, grow, key_of, index_update,
}
use operating_systems_cs.Index.Table.{eq_or_ne, used, used-le, IsValid}
use operating_systems_cs.Index.Rehash.{move_one, taken_zero}
use operating_systems_cs.Index.Grow.{
  not_overloaded, next_capacity-bounds, blank, blank-IsValid, rehash-Grown,
}

free_slot :
    (maps : List Map)
    → used maps < length maps
    → (p : ℕ) × (p < length maps) × ((map_at maps p).key ≡ 0)
unfolding used
free_slot [] h = elim h [ ]
free_slot (m ∷ maps) h = elim (Bool-cases (m.key == 0)) [
  | inl free ↦ (0, omega arith, (==_iff _ _).0 free)
  | inr taken ↦ let (p, b, k) = free_slot maps (ground arith) in (suc p, omega arith, k)
]

probe_reaches :
    (capacity key p : ℕ)
    → key + capacity ≤ 2 ^ 64
    → p < capacity
    → (i : ℕ) × (i < capacity) × (probe capacity key i ≡ p)
unfolding probe
probe_reaches capacity key p h b = elim (Bool-cases (leb (key % capacity) p)) [
  | inl near ↦
      let i = p - key % capacity in
      let sum : key % capacity + i ≡ p = ground arith in
      (i, omega arith, at i (omega arith) ∙ ap (λ t. t % capacity) sum ∙ mod-eq_of_lt b)
  | inr far ↦
      let i = p + capacity - key % capacity in
      let sum : key % capacity + i ≡ p + capacity = omega (arith, mod-lt key {m = capacity}) in
      let less : i < capacity = ground (arith, mod-lt key {m = capacity}) in
      (i, less, at i less ∙ ap (λ t. t % capacity) sum ∙ add-mod_right p capacity ∙ mod-eq_of_lt b)
]
  where
    at : (i : ℕ) → i < capacity → (key + i) % 2 ^ 64 % capacity ≡ (key % capacity + i) % capacity
    at i c = ap (λ t. t % capacity) (mod-eq_of_lt (omega arith)) ∙ sym (mod-add-mod key capacity i)

loop_total :
    (n i : ℕ) (index : Index) (key i0 : ℕ)
    → i ≤ i0
    → i0 < i + n
    → (map_at index.maps (probe index.capacity key i0)).key ≡ 0
    → (r : ℕ × Index) × (update_loop n i index key ≡ some r)
unfolding update_loop
loop_total zero i index key i0 a b f = absurd (omega arith)
loop_total (suc n) i index key i0 a b f = elim (eq_or_ne i i0) [
  | inl e ↦
      rw ((==_iff _ 0).1 (ap (λ t. (map_at index.maps (probe index.capacity key t)).key) e ∙ f))
        (_, refl)
  | inr d ↦
      let (r, run) = loop_total n (i + 1) index key i0 (omega arith) (omega arith) f in
      let m = map_at index.maps (probe index.capacity key i) in
      elim (Bool-cases (m.key == 0)) [
        | inl free ↦ rw free (_, refl)
        | inr taken ↦ elim (Bool-cases (m.key == key)) [
          | inl here ↦ rw (taken, here) (_, refl)
          | inr other ↦ rw (taken, other) (r, run)
        ]
      ]
]

-- `update` returns for a key that is far enough from the end of the 64-bit range, in a table with a
-- free slot.
pub update_total :
    (index : Index) (key : ℕ)
    → length index.maps ≡ index.capacity
    → used index.maps < index.capacity
    → key + index.capacity ≤ 2 ^ 64
    → (r : ℕ × Index) × (update index key ≡ some r)
unfolding update
update_total index key w u h =
    let (p, b, k) = free_slot index.maps (rw w u) in
    let (i, c, e) = probe_reaches index.capacity key p h (rw (← w) b) in
    loop_total index.capacity 0 index key i (omega arith) (omega arith)
      (ap (λ t. (map_at index.maps t).key) e ∙ k)

-- No key is within 2 ^ 49 of the end of the 64-bit range.
abbrev pub IsLow : List Map → Type 0
IsLow [] = Unit
IsLow (m ∷ maps) = (m.key + 2 ^ 49 ≤ 2 ^ 64) × IsLow maps

rehash-taken :
    (m : Map) (maps : List Map) (index : Index)
    → (m.key == 0) ≡ false
    → rehash (m ∷ maps) index ≡ (update index m.key >>= λ r. rehash maps (write_off r.1 r.0 m.off))
unfolding rehash
rehash-taken m maps index e = rw (e, rehash) refl

resume :
    (m : Map) (maps : List Map) {o : Option (ℕ × Index)} {r : ℕ × Index}
    → o ≡ some r
    → (o >>= λ r. rehash maps (write_off r.1 r.0 m.off)) ≡ rehash maps (write_off r.1 r.0 m.off)
resume m maps e = ap (λ o. o >>= λ r. rehash maps (write_off r.1 r.0 m.off)) e

pub rehash_total :
    (maps : List Map) (fresh : Index)
    → IsValid fresh
    → IsLow maps
    → used maps + fresh.size < fresh.capacity
    → (fresh' : Index) × (rehash maps fresh ≡ some fresh')
unfolding rehash used
rehash_total [] fresh v low u = (fresh, refl)
rehash_total (m ∷ maps) fresh v low u = elim (Bool-cases (m.key == 0)) [
  | inl free ↦ rw (free, rehash) (rehash_total maps fresh v low.1 (rw free at u))
  | inr taken ↦
      let (r, run) =
        update_total fresh m.key v.width (omega (arith, v.counted)) (omega (arith, v.small)) in
      let step = move_one m fresh r.0 r.1 v (taken_zero m.key taken) run in
      let count : suc (used maps) + fresh.size < fresh.capacity = rw taken at u in
      let (fresh', rest) =
        rehash_total maps (write_off r.1 r.0 m.off) step.valid low.1
          (omega (arith, step.size, step.capacity)) in
      (fresh', rehash-taken m maps fresh taken ∙ resume m maps run ∙ rest)
]

-- The three ways in which `grow` goes.
pub grow-light :
    (room : ℕ → Bool) (index : Index) → overloaded index ≡ false → grow room index ≡ ok index
unfolding grow
grow-light room index e = rw (e, grow) refl

grow-full :
    (room : ℕ → Bool) (index : Index)
    → overloaded index ≡ true
    → room (next_capacity index.capacity * 16 % 2 ^ 64) ≡ false
    → grow room index ≡ failed
unfolding grow create
grow-full room index e f = rw (e, grow, f, create) refl

grow-fits :
    (room : ℕ → Bool) (index : Index)
    → overloaded index ≡ true
    → room (next_capacity index.capacity * 16 % 2 ^ 64) ≡ true
    → grow room index ≡ or_exit (rehash index.maps (blank (next_capacity index.capacity)))
unfolding grow create
grow-fits room index e f = rw (e, grow, f, create) refl

or_exit-some {ℓ} : {A : Type ℓ} (a : A) → or_exit (some a) ≡ ok a
unfolding or_exit
or_exit-some a = refl

-- The call after the table has grown.
finish : List ℕ → Outcome Index → Outcome (ℕ × Index)
finish bytes (ok grown) = or_exit (update grown (key_of bytes))
finish bytes failed = failed
finish bytes exited = exited

index_update-finish :
    (room : ℕ → Bool) (index : Index) (bytes : List ℕ)
    → index_update room index bytes ≡ finish bytes (grow room index)
unfolding index_update finish
index_update-finish room index bytes = by_cases (grow room index)
  where
    by_cases :
        (o : Outcome Index)
        → (elim o [
          | ok grown ↦ or_exit (update grown (key_of bytes))
          | failed ↦ failed
          | exited ↦ exited
        ])
          ≡ finish bytes o
    by_cases (ok grown) = refl
    by_cases failed = refl
    by_cases exited = refl

finish_total :
    (grown : Index) (bytes : List ℕ)
    → IsValid grown
    → 10 * grown.size ≤ 7 * grown.capacity
    → 0 < grown.capacity
    → key_of bytes + 2 ^ 49 ≤ 2 ^ 64
    → (r : ℕ × Index) × (finish bytes (ok grown) ≡ ok r)
unfolding finish
finish_total grown bytes v load positive key =
    let (r, run) =
      update_total grown (key_of bytes) v.width (omega (arith, v.counted))
        (omega (arith, v.small)) in
    (r, ap or_exit run ∙ or_exit-some r)

-- `index_update` never leaves the program as long as no hash is within 2 ^ 49 of the end of the
-- 64-bit range: it returns a reference, or the error status where the table had to grow and there
-- was no memory for the larger one.
pub index_update_total :
    (room : ℕ → Bool) (index : Index) (bytes : List ℕ)
    → IsValid index
    → index.capacity < 2 ^ 48
    → IsLow index.maps
    → key_of bytes + 2 ^ 49 ≤ 2 ^ 64
    → ((r : ℕ × Index) × (index_update room index bytes ≡ ok r))
      ⊎ (index_update room index bytes ≡ failed)
        × (overloaded index ≡ true)
        × (room (next_capacity index.capacity * 16 % 2 ^ 64) ≡ false)
index_update_total room index bytes v small low key =
    let unfolded = index_update-finish room index bytes in
    elim (Bool-cases (overloaded index)) [
      | inr light ↦
          let (positive, load) = not_overloaded index light in
          let (r, run) = finish_total index bytes v load positive key in
          inl (r, unfolded ∙ ap (finish bytes) (grow-light room index light) ∙ run)
      | inl heavy ↦ elim (Bool-cases (room (next_capacity index.capacity * 16 % 2 ^ 64))) [
        | inr full ↦ inr (
          unfolded ∙ ap (finish bytes) (grow-full room index heavy full) ∙ unfold finish in refl,
          heavy,
          full,
        )
        | inl fits ↦
            let (bound, wide, positive) = next_capacity-bounds index.capacity small in
            let fresh = blank (next_capacity index.capacity) in
            let (grown, moved) =
              rehash_total index.maps fresh (blank-IsValid _ bound) low
                (omega (arith, used-le index.maps, v.width, wide)) in
            let g = rehash-Grown index grown v small moved in
            let (r, run) = finish_total grown bytes g.valid g.load g.some_slot key in
            inl (
              r,
              unfolded
                  ∙ ap (finish bytes)
                      (grow-fits room index heavy fits ∙ ap or_exit moved ∙ or_exit-some grown)
                  ∙ run,
            )
      ]
    ]
