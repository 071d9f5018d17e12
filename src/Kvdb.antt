-- ===== src/Kvdb.antt =====
-- The key-value database of p4/kvdb.c: an index of offsets into a log of records, where the records of
-- the keys with one hash form a chain from the newest on.
pub mod Chain
pub mod Mutate
pub mod Store
pub mod Calls
pub mod Answers
pub mod Exact
pub mod Bounds
pub mod Sequence
pub mod Open
pub mod Tests
use operating_systems_cs.Common.{
  ℕ, zero, suc, ◌+◌, ◌-◌, ◌%◌, ◌^◌, Bool, true, false, if◌then◌else◌, ltb, ◌==◌, ◌&&◌, ◌||◌, not,
  min, Option, none, some, List, [], ◌∷◌, length,
}
use operating_systems_cs.Common.Text.{CString, first_bytes}
use operating_systems_cs.Kvraw.{Logfs, Kvraw, Found, kvraw_lookup, kvraw_append, kvraw_open}
use operating_systems_cs.Index.{
  Index, Outcome, index_open, index_update, index_lookup, read_off, write_off,
}

-- `struct kvdb`
pub record Kvdb (fs : Logfs) : Type 0 where
  pub size : ℕ
  pub waste : ℕ
  pub kvraw : Kvraw fs
  pub index : Index

-- The status of a call, `done` for 0, `refused` for +1 and `failed` for -1, the exit of the
-- program in the index, and no end in the given fuel.
pub data Status : Type 0 where
  done refused failed exited stuck : Status

-- `MUTATE_REMOVE` to `MUTATE_REPLACE`
pub data Mode : Type 0 where
  remove insert update replace : Mode

-- `!memcmp` on all of the bytes of two regions.
pub same_bytes : CString → CString → Bool
same_bytes [] [] = true
same_bytes [] (b ∷ t) = false
same_bytes (a ∷ s) [] = false
same_bytes (a ∷ s) (b ∷ t) = let rest = same_bytes s t in if a == b then rest else false

-- How `chain_lookup` ends: with the offset, the length and the bytes of the value, or with -1, or not
-- in the given fuel.
pub data Chained : Type 0 where
  ended : ℕ → ℕ → CString → Chained
  failed : Chained
  no_fuel : Chained

-- `sizeof (buf)` and `sizeof (key_)`, the size of a pointer.
abbrev pub buf_size : ℕ
buf_size = 256

abbrev pub pointer_size : ℕ
pointer_size = 8

-- The test that sets a record aside by its length or the first bytes of its key.
pub mismatch : CString → Found → Bool
mismatch key f =
    not (f.key_len == length key)
    || not (
        same_bytes (first_bytes (min (length key) pointer_size) f.key)
          (first_bytes (min (length key) pointer_size) key))

-- `--n` and `++n` on `uint64_t`.
abbrev decrement : ℕ → ℕ
decrement n = (n + 2 ^ 64 - 1) % 2 ^ 64

abbrev increment : ℕ → ℕ
increment n = (n + 1) % 2 ^ 64

-- Whether the mode refuses a key that has a value, or one that has none.
pub refuses : Mode → Bool → Bool
refuses remove known = not known
refuses insert known = known
refuses update known = false
refuses replace known = not known

-- The value that is appended.
pub payload : Mode → CString → CString
payload remove val = []
payload _ val = val

-- The end of `kvdb_lookup` behind `chain_lookup`.
pub lookup_end : Chained → Status × (ℕ × CString)
lookup_end (ended off val_len bytes) =
    if (off == 0) || (val_len == 0) then (refused, (0, [])) else (done, (val_len, bytes))
lookup_end failed = (failed, (0, []))
lookup_end no_fuel = (stuck, (0, []))

-- `*val_len` behind a call: only a removal that succeeds writes the length that was found.
abbrev pub given_back : Mode → Status → ℕ → ℕ → ℕ
given_back remove done room_len val_len = val_len
given_back mode status room_len val_len = room_len

module _ {fs : Logfs} where
  -- The counters behind a successful append.
  pub count : Mode → Kvdb fs → Kvdb fs
  count remove db = record db { size = decrement db.size; waste = increment db.waste }
  count insert db = record db { size = increment db.size }
  count update db = db
  count replace db = record db { waste = increment db.waste }

  -- The counters that `MUTATE_UPDATE` changes before its append.
  pub count_first : Mode → Bool → Kvdb fs → Kvdb fs
  count_first update known db =
      if known
      then record db { waste = increment db.waste }
      else record db { size = increment db.size }
  count_first _ known db = db

  unfoldable pub kvdb_size : Kvdb fs → ℕ
  kvdb_size db = db.size

  unfoldable pub kvdb_waste : Kvdb fs → ℕ
  kvdb_waste db = db.waste

module _ (fs : Logfs) where
  -- `*off = off_` through the reference `ref`, which is the position `j` of the index, behind an append
  -- that succeeded.
  pub through_end : Kvdb fs → ℕ → Bool × Kvraw fs → Bool × Kvdb fs
  through_end db j (true, kvraw) =
      (true, record db { kvraw = kvraw; index = write_off db.index j db.kvraw.size })
  through_end db j (false, kvraw) = (false, record db { kvraw = kvraw })

  -- `kvraw_append` through that reference.
  pub append_through : Kvdb fs → CString → CString → ℕ → Bool × Kvdb fs
  append_through db key val j =
      through_end db j (kvraw_append fs db.kvraw key val (read_off db.index j))

  -- The part of `mutate` that depends on the mode, for a key that has a value or has none.
  pub apply_mode : Mode → Kvdb fs → CString → CString → ℕ → Bool → Status × Kvdb fs
  apply_mode mode db key val j known =
      let r = append_through (count_first mode known db) key (payload mode val) j in
      if refuses mode known
      then (refused, db)
      else if r.0
      then (done, count mode r.1)
      else (failed, r.1)

  -- `mutate` behind `chain_lookup`, with the length and the bytes that `MUTATE_REMOVE` puts into `val`.
  pub mutate_end :
      Mode → Kvdb fs → CString → CString → ℕ → ℕ → Chained → Status × Kvdb fs × (ℕ × CString)
  mutate_end mode db key val room_len j (ended off val_len bytes) =
      let r = apply_mode mode db key val j (not (off == 0) && not (val_len == 0)) in
      (r.0, r.1, (given_back mode r.0 room_len val_len, bytes))
  mutate_end mode db key val room_len j failed = (failed, db, (room_len, []))
  mutate_end mode db key val room_len j no_fuel = (stuck, db, (room_len, []))

-- `room` says whether `malloc` of that many bytes succeeds.
module _ (fs : Logfs) (room : ℕ → Bool) where
  -- The key of a record whose length fits and whose first bytes agree: the stack buffer, or a second
  -- lookup into a buffer of the full length where the key is longer than a pointer.
  pub full_key : Kvraw fs → ℕ → Found → Option CString
  full_key kvraw off f =
      if ltb pointer_size f.key_len
      then (if room f.key_len
          then elim (kvraw_lookup fs kvraw f.key_len 0 off) [ none ↦ none | some g ↦ some g.key ]
          else none)
      else some f.key

  -- The loop of `chain_lookup` from `*off` on, with the value of `*val_len` and the bytes in `val`.
  pub chain_loop : ℕ → Kvraw fs → CString → ℕ → ℕ → CString → Chained
  chain_loop zero kvraw key val_len off val = no_fuel
  chain_loop (suc n) kvraw key val_len off val =
      if off == 0
      then ended off val_len val
      else elim (kvraw_lookup fs kvraw (min (length key) buf_size) val_len off) [
        | none ↦ failed
        | some f ↦
            let next = chain_loop n kvraw key val_len f.off f.val in
            if mismatch key f then next else elim (full_key kvraw off f) [
              | none ↦ failed
              | some key' ↦ if same_bytes key' key then ended off f.val_len f.val else next
            ]
      ]

  pub chain_lookup : Kvraw fs → CString → ℕ → ℕ → Chained
  chain_lookup kvraw key val_len off = chain_loop (suc off) kvraw key val_len off []

  -- `mutate` behind `index_update`, which gave the reference `j`.
  pub mutate_from :
      Mode
      → Kvdb fs
      → CString
      → CString
      → ℕ
      → Outcome (ℕ × Index)
      → Status × Kvdb fs × (ℕ × CString)
  mutate_from mode db key val room_len (Outcome.ok (j, index)) =
      mutate_end fs mode (record db { index = index }) key val room_len j
        (chain_lookup db.kvraw key room_len (read_off index j))
  mutate_from mode db key val room_len Outcome.failed = (failed, db, (room_len, []))
  mutate_from mode db key val room_len Outcome.exited = (exited, db, (room_len, []))

  -- `mutate`. The length of the space for the value is that of the argument for `MUTATE_REMOVE`, and 0
  -- for the other modes.
  pub mutate : Mode → Kvdb fs → CString → CString → ℕ → Status × Kvdb fs × (ℕ × CString)
  mutate mode db key val room_len =
      mutate_from mode db key val room_len (index_update room db.index key)

  unfoldable pub kvdb_remove : Kvdb fs → CString → ℕ → Status × Kvdb fs × (ℕ × CString)
  kvdb_remove db key room_len = mutate remove db key [] room_len

  unfoldable pub kvdb_insert : Kvdb fs → CString → CString → Status × Kvdb fs
  kvdb_insert db key val = let r = mutate insert db key val 0 in (r.0, r.1)

  unfoldable pub kvdb_update : Kvdb fs → CString → CString → Status × Kvdb fs
  kvdb_update db key val = let r = mutate update db key val 0 in (r.0, r.1)

  unfoldable pub kvdb_replace : Kvdb fs → CString → CString → Status × Kvdb fs
  kvdb_replace db key val = let r = mutate replace db key val 0 in (r.0, r.1)

  -- `kvdb_lookup` from the offset in the index on.
  pub lookup_at : Kvdb fs → CString → ℕ → ℕ → Status × (ℕ × CString)
  lookup_at db key room_len off =
      if off == 0 then (refused, (0, [])) else lookup_end (chain_lookup db.kvraw key room_len off)

  -- The length and the bytes of the value, as far as there is space for `room_len` of them.
  pub kvdb_lookup : Kvdb fs → CString → ℕ → Status × (ℕ × CString)
  kvdb_lookup db key room_len = elim (index_lookup db.index key) [
    | none ↦ (refused, (0, []))
    | some j ↦ lookup_at db key room_len (read_off db.index j)
  ]

-- `sizeof (struct kvdb)` on a 64-bit target.
abbrev pub sizeof_kvdb : ℕ
sizeof_kvdb = 32

-- The end of `kvdb_open` behind `kvraw_open`.
unfoldable pub with_index : {fs : Logfs} → Kvraw fs → Option Index → Option (Kvdb fs)
with_index kvraw none = none
with_index kvraw (some index) = some (record { size = 0; waste = 0; kvraw = kvraw; index = index })

-- `kvdb_open` on a new log; see `new_kvraw` for `garbage`.
unfoldable pub kvdb_open : (fs : Logfs) → (ℕ → Bool) → Option fs.Log → ℕ → Option (Kvdb fs)
kvdb_open fs room opened garbage =
    if room sizeof_kvdb
    then elim (kvraw_open fs room opened garbage) [
      | none ↦ none
      | some kvraw ↦ with_index kvraw (index_open room)
    ]
    else none
