-- ===== src/Index/Grow.antt =====
-- `grow` and the two public operations of p4/index.c on a well-formed table.
use operating_systems_cs.Common.{
  ℕ, zero, suc, ◌*◌, ◌%◌, ◌^◌, ◌<◌, ◌≤◌, Bool, false, Bool-cases, Option, none, some, List,
  replicate, ◌≡◌, ◌≢◌, refl, sym, ap, ◌∙◌, subst, inl, inr, arith, length-replicate,
  get_or-replicate,
}
use operating_systems_cs.Index.{
  Map, no_map, Index, update, rehash, create, overloaded, next_capacity, Outcome, ok, failed,
  exited, or_exit, grow, key_of, index_update, index_lookup, read_off,
}
use operating_systems_cs.Index.Table.{used, used-le, IsValid, view, update-Referred}
use operating_systems_cs.Index.Rehash.{assoc, view-assoc, IsValid-IsUnique, either, rehash-Moved}

used-replicate : (n : ℕ) → used (replicate n no_map) ≡ 0
unfolding used
used-replicate zero = refl
used-replicate (suc n) = used-replicate n

assoc-replicate : (q n : ℕ) → assoc q (replicate n no_map) ≡ none
unfolding assoc
assoc-replicate q zero = refl
assoc-replicate q (suc n) = assoc-replicate q n

abbrev pub blank : ℕ → Index
blank capacity = record { size = 0; capacity = capacity; maps = replicate capacity no_map }

pub blank-IsValid : (capacity : ℕ) → capacity < 2 ^ 49 → IsValid (blank capacity)
blank-IsValid capacity h = record {
  width = length-replicate capacity no_map;
  small = h;
  counted = sym (used-replicate capacity);
  placed = λ p b n. absurd (n (ap (λ (m : Map). m.key) (get_or-replicate capacity p no_map)));
}

pub blank-view : (capacity q : ℕ) → capacity < 2 ^ 49 → view (blank capacity) q ≡ none
blank-view capacity q h =
    view-assoc (blank capacity) q (blank-IsValid capacity h) ∙ assoc-replicate q capacity

-- What `grow` leaves: the same map, with at most seven tenths of the table in use.
pub record Grown (index grown : Index) : Type 0 where
  pub valid : IsValid grown
  pub load : 10 * grown.size ≤ 7 * grown.capacity
  pub some_slot : 0 < grown.capacity
  pub reads : (q : ℕ) → view grown q ≡ view index q

pub or_exit-ok {ℓ} : {A : Type ℓ} (o : Option A) (a : A) → or_exit o ≡ ok a → o ≡ some a
unfolding or_exit
or_exit-ok none a h = cc
or_exit-ok (some b) a h = cc

pub next_capacity-bounds :
    (n : ℕ)
    → n < 2 ^ 48
    → (next_capacity n < 2 ^ 49) × (10 * n ≤ 7 * next_capacity n) × (0 < next_capacity n)
unfolding next_capacity
next_capacity-bounds n h = omega arith

pub not_overloaded :
    (index : Index)
    → overloaded index ≡ false
    → (0 < index.capacity) × (10 * index.size ≤ 7 * index.capacity)
unfolding overloaded
not_overloaded index h = ground arith

pub ok-injective {ℓ} : {A : Type ℓ} (a b : A) → ok a ≡ ok b → a ≡ b
ok-injective a b h = cc

pub rehash-Grown :
    (index grown : Index)
    → IsValid index
    → index.capacity < 2 ^ 48
    → rehash index.maps (blank (next_capacity index.capacity)) ≡ some grown
    → Grown index grown
rehash-Grown index grown v small e =
    let (bound, wide, positive) = next_capacity-bounds index.capacity small in
    let fresh = blank (next_capacity index.capacity) in
    let empty = λ (q : ℕ). blank-view (next_capacity index.capacity) q bound in
    let t =
      rehash-Moved index.maps fresh grown (blank-IsValid _ bound) (IsValid-IsUnique index v)
        (λ q off h. empty q) e in
    record {
      valid = t.valid;
      load = omega (arith, t.size, t.capacity, used-le index.maps, v.width, wide);
      some_slot = rw t.capacity positive;
      reads = λ q.
          t.reads q
          ∙ ap (λ o. either o (assoc q index.maps)) (empty q)
          ∙ sym (view-assoc index q v);
    }

pub grow-Grown :
    (room : ℕ → Bool) (index grown : Index)
    → IsValid index
    → index.capacity < 2 ^ 48
    → grow room index ≡ ok grown
    → Grown index grown
unfolding grow create
grow-Grown room index grown v small e = elim (Bool-cases (overloaded index)) [
  | inr light ↦
      let (positive, load) = not_overloaded index light in
      subst (Grown index) (ok-injective _ _ (rw (light, grow) at e))
        (record { valid = v; load = load; some_slot = positive; reads = λ q. refl })
  | inl heavy ↦ elim (Bool-cases (room (next_capacity index.capacity * 16 % 2 ^ 64))) [
    | inr full ↦ absurd (failed-ne-ok (rw (heavy, grow, full, create) at e))
    | inl fits ↦
        rehash-Grown index grown v small (or_exit-ok _ _ (rw (heavy, grow, fits, create) at e))
  ]
]
  where
    failed-ne-ok : failed ≡ ok grown → ⊥
    failed-ne-ok h = cc

-- The offset that a key has, 0 if it has none.
abbrev pub or_zero : Option ℕ → ℕ
or_zero none = 0
or_zero (some off) = off

pub key_of-ne-zero : (bytes : List ℕ) → key_of bytes ≢ 0
unfolding key_of
key_of-ne-zero bytes = ground arith

-- A successful `index_update` returns the reference of the key in a well-formed table, also when
-- the table has grown: later lookups of the key return that reference, it holds the offset that the
-- key had, or 0 for a new key, and every other hash reads as before.
pub index_update-refers :
    (room : ℕ → Bool) (index : Index) (bytes : List ℕ) (j : ℕ) (index' : Index)
    → IsValid index
    → index.capacity < 2 ^ 48
    → index_update room index bytes ≡ ok (j, index')
    → IsValid index'
      × (index_lookup index' bytes ≡ some j)
      × (read_off index' j ≡ or_zero (view index (key_of bytes)))
      × ((q : ℕ) → q ≢ key_of bytes → view index' q ≡ view index q)
unfolding index_update index_lookup
index_update-refers room index bytes j index' v small e =
    let (grown, a, b) = inverted (grow room index) e in
    let g = grow-Grown room index grown v small a in
    let r = update-Referred grown (key_of bytes) j index' g.valid (key_of-ne-zero bytes) b in
    (
      r.valid,
      r.place,
      r.reads ∙ zero_default (view grown (key_of bytes)) ∙ ap or_zero (g.reads (key_of bytes)),
      λ q d. r.others q d ∙ g.reads q,
    )
  where
    zero_default : (o : Option ℕ) → (elim o [ none ↦ 0 | some off ↦ off ]) ≡ or_zero o
    zero_default none = refl
    zero_default (some off) = refl

    inverted :
        (o : Outcome Index)
        → (elim o [
          | ok grown ↦ or_exit (update grown (key_of bytes))
          | failed ↦ failed
          | exited ↦ exited
        ])
          ≡ ok (j, index')
        → (grown : Index) × (o ≡ ok grown) × (update grown (key_of bytes) ≡ some (j, index'))
    inverted (ok grown) h = (grown, refl, or_exit-ok _ _ h)
    inverted failed h = cc
    inverted exited h = cc
