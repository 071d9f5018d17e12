-- ===== src/Index.antt =====
-- The hash index of p4/index.c: open addressing with linear probing over 64-bit hashes, and the
-- reference to an offset slot that `index_update` and `index_lookup` return, as its position.
pub mod Hash
pub mod Probe
pub mod Table
pub mod Rehash
pub mod Grow
pub mod Total
pub mod Bounds
pub mod Open
pub mod Tests
use operating_systems_cs.Common.{
  ℕ, zero, suc, ◌+◌, ◌-◌, ◌*◌, ◌/◌, ◌%◌, ◌^◌, Bool, true, false, if◌then◌else◌, ltb, ◌==◌, Option,
  none, some, ◌>>=◌, List, [], ◌∷◌, get_or, set, replicate,
}
use operating_systems_cs.Index.Hash.{hash}

-- One element of `maps`; the key 0 marks a free one.
pub record Map : Type 0 where
  pub key : ℕ
  pub off : ℕ

abbrev pub no_map : Map
no_map = record { key = 0; off = 0 }

-- `struct index`. A null `maps` is the empty list.
pub record Index : Type 0 where
  pub size : ℕ
  pub capacity : ℕ
  pub maps : List Map

-- `index->maps[j]`.
abbrev pub map_at : List Map → ℕ → Map
map_at maps j = get_or maps j no_map

-- `(key + i) % index->capacity` on `uint64_t`.
pub probe : ℕ → ℕ → ℕ → ℕ
probe capacity key i = (key + i) % 2 ^ 64 % capacity

-- The loop of `update` with `n` rounds left: the position of the slot that it returns, with the
-- index. `none` is the exit of the program behind the loop.
pub update_loop : ℕ → ℕ → Index → ℕ → Option (ℕ × Index)
update_loop zero i index key = none
update_loop (suc n) i index key =
    let j = probe index.capacity key i in
    let found = map_at index.maps j in
    let rest = update_loop n (i + 1) index key in
    if found.key == 0
    then some (
      j,
      record index {
        size = (index.size + 1) % 2 ^ 64;
        maps = set index.maps j (record { key = key; off = 0 });
      },
    )
    else if found.key == key
    then some (j, record index { maps = set index.maps j (record found { key = key }) })
    else rest

pub update : Index → ℕ → Option (ℕ × Index)
update index key = update_loop index.capacity 0 index key

-- The loop of `index_lookup` with `n` rounds left; `none` is the null reference.
pub lookup_loop : ℕ → ℕ → ℕ → List Map → ℕ → Option ℕ
lookup_loop zero i capacity maps key = none
lookup_loop (suc n) i capacity maps key =
    let j = probe capacity key i in
    let found = map_at maps j in
    let rest = lookup_loop n (i + 1) capacity maps key in
    if found.key == 0 then none else if found.key == key then some j else rest

pub lookup_key : Index → ℕ → Option ℕ
lookup_key index key = lookup_loop index.capacity 0 index.capacity index.maps key

-- `*ref = v` through a reference, and `*ref`.
pub write_off : Index → ℕ → ℕ → Index
write_off index j v = record index {
  maps = set index.maps j (record (map_at index.maps j) { off = v });
}

pub read_off : Index → ℕ → ℕ
read_off index j = (map_at index.maps j).off

-- `create`, where `room` says whether `malloc` of that many bytes succeeds.
pub create : (ℕ → Bool) → ℕ → Option Index
create room capacity =
    if room (capacity * 16 % 2 ^ 64)
    then some (record { size = 0; capacity = capacity; maps = replicate capacity no_map })
    else none

-- The loop of `grow` over the old table.
pub rehash : List Map → Index → Option Index
rehash [] index = some index
rehash (m ∷ maps) index = elim (m.key == 0) [
  | true ↦ rehash maps index
  | false ↦ update index m.key >>= λ r. rehash maps (write_off r.1 r.0 m.off)
]

-- `LOAD < load`: more than seven tenths of the table are in use, or there is no table. The quotient
-- of two doubles compares with 0.70 like the fractions as long as the capacity is below 2 ^ 49.
pub overloaded : Index → Bool
overloaded index = if index.capacity == 0 then true else ltb (7 * index.capacity) (10 * index.size)

pub next_capacity : ℕ → ℕ
next_capacity capacity = (capacity + 97) % 2 ^ 64 * 3 % 2 ^ 64 / 2

-- How a call ends: with a value, with the error status, or with the exit of the program.
pub data Outcome {ℓ} (A : Type ℓ) : Type ℓ where
  ok : A → Outcome A
  failed : Outcome A
  exited : Outcome A

pub or_exit {ℓ} : {A : Type ℓ} → Option A → Outcome A
or_exit none = exited
or_exit (some a) = ok a

pub grow : (ℕ → Bool) → Index → Outcome Index
grow room index =
    if overloaded index
    then elim (create room (next_capacity index.capacity)) [
      | none ↦ failed
      | some fresh ↦ or_exit (rehash index.maps fresh)
    ]
    else ok index

-- The struct of `index_open`.
pub new_index : Index
new_index = record { size = 0; capacity = 0; maps = [] }

-- `sizeof (struct index)` on a 64-bit target.
abbrev pub sizeof_index : ℕ
sizeof_index = 24

unfoldable pub index_open : (ℕ → Bool) → Option Index
index_open room = if room sizeof_index then some new_index else none

-- The hash of a key, made distinct from the mark of a free slot.
pub key_of : List ℕ → ℕ
key_of bytes = let key = hash bytes in if key == 0 then key + 1 else key

pub index_update : (ℕ → Bool) → Index → List ℕ → Outcome (ℕ × Index)
index_update room index bytes = elim (grow room index) [
  | ok grown ↦ or_exit (update grown (key_of bytes))
  | failed ↦ failed
  | exited ↦ exited
]

unfoldable pub index_lookup : Index → List ℕ → Option ℕ
index_lookup index bytes = lookup_key index (key_of bytes)
