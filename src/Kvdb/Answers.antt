-- ===== src/Kvdb/Answers.antt =====
-- `mutate` of p4/kvdb.c on a table whose hashes are not near the end of the 64-bit range, where the program
-- never exits.
use operating_systems_cs.Common.{
  ℕ, ◌+◌, ◌*◌, ◌%◌, ◌^◌, ◌<◌, ◌≤◌, Bool, true, false, length, ◌≡◌, ◌⊎◌, inl, inr,
}
use operating_systems_cs.Common.Text.{CString}
use operating_systems_cs.Kvraw.{Logfs}
use operating_systems_cs.Kvraw.Append.{IsLogfs}
use operating_systems_cs.Index.{Index, Outcome, key_of, next_capacity, index_update}
use operating_systems_cs.Index.Total.{IsLow, index_update_total}
use operating_systems_cs.Kvdb.{
  Kvdb, Status, done, refused, failed, exited, stuck, Mode, remove, mutate,
}
use operating_systems_cs.Kvdb.Chain.{LookupFails}
use operating_systems_cs.Kvdb.Store.{Store, value_of, is_present, IsValid, NoAppend}
use operating_systems_cs.Kvdb.Mutate.{counted, found_value}
use operating_systems_cs.Kvdb.Calls.{forbids, new_value, Changed, Refines, mutate-Refines}

module _ (fs : Logfs) (content : fs.Log → CString) (laws : IsLogfs fs content)
    (room : ℕ → Bool) where
  -- A call of `mutate` as an operation on the map, by its status. With -1 the map is as before, and a read
  -- failed or there was no memory, for the record or for a larger table; or the record could not be appended
  -- to the log of the database.
  abbrev pub Answers :
      Mode → Kvdb fs → Store → CString → CString → ℕ → Status × Kvdb fs × (ℕ × CString) → Type 0
  Answers mode db store key val room_len (done, db', out) =
      (forbids mode (is_present (value_of store key)) ≡ false)
      × Changed fs content store key (new_value mode val) db'
      × ((db'.size, db'.waste) ≡ counted mode (is_present (value_of store key)) db.size db.waste)
      × (mode ≡ remove
          → is_present (value_of store key) ≡ true
          → out ≡ found_value (value_of store key) room_len)
  Answers mode db store key val room_len (refused, db', out) =
      (forbids mode (is_present (value_of store key)) ≡ true)
      × IsValid fs content db' store
      × (db'.size ≡ db.size)
      × (db'.waste ≡ db.waste)
  Answers mode db store key val room_len (failed, db', out) =
      IsValid fs content db' store
        × (LookupFails fs content room
            ⊎ (room (next_capacity db.index.capacity * 16 % 2 ^ 64) ≡ false))
      ⊎ NoAppend fs db.kvraw key (new_value mode val)
  Answers mode db store key val room_len (exited, db', out) = ⊥
  Answers mode db store key val room_len (stuck, db', out) = ⊥

  Refines-Answers :
      (mode : Mode) (db : Kvdb fs) (store : Store) (key val : CString) (room_len : ℕ)
      (r : Status × Kvdb fs × (ℕ × CString))
      → ((x : ℕ × Index) × (index_update room db.index key ≡ Outcome.ok x))
        ⊎ (index_update room db.index key ≡ Outcome.failed)
          × (room (next_capacity db.index.capacity * 16 % 2 ^ 64) ≡ false)
      → Refines fs content room mode db store key val room_len r
      → Answers mode db store key val room_len r
  Refines-Answers mode db store key val room_len (done, db', out) u x = x
  Refines-Answers mode db store key val room_len (refused, db', out) u x = x
  Refines-Answers mode db store key val room_len (failed, db', out) u (inr x) = inr x
  Refines-Answers mode db store key val room_len (failed, db', out) u (inl (v, inl x)) =
      inl (v, inl x)
  Refines-Answers mode db store key val room_len (failed, db', out) (inl (y, e)) (inl (v, inr x)) =
      absurd (cc (e, x))
  Refines-Answers mode db store key val room_len (failed, db', out) (inr (e, full))
        (inl (v, inr x)) =
      inl (v, inr full)
  Refines-Answers mode db store key val room_len (exited, db', out) (inl (y, e)) x =
      absurd (cc (e, x))
  Refines-Answers mode db store key val room_len (exited, db', out) (inr (e, full)) x =
      absurd (cc (e, x))
  Refines-Answers mode db store key val room_len (stuck, db', out) u x = x

  -- Every mode of mutate, on a well-formed database that stands for a map, with hashes that are not within
  -- 2 ^ 49 of the end of the 64-bit range, does to the map what it is for: with status 0 the mode allows the
  -- key, which has the new value (none after MUTATE_REMOVE), every other key has the old one, the counters of
  -- keys and of waste are as they should be, and a removal gives the old value back; with +1 the map and the counters
  -- are as before, and the mode does not allow the key as it was; with -1 the map is as before, and a read of
  -- the log failed or there was no memory, or else the record could not be appended to the log. It never
  -- exits, and the loop over the chain always ends.
  pub mutate-Answers :
      (mode : Mode) (db : Kvdb fs) (store : Store) (key val : CString) (room_len : ℕ)
      → IsValid fs content db store
      → IsLow db.index.maps
      → key_of key + 2 ^ 49 ≤ 2 ^ 64
      → db.kvraw.size < 2 ^ 63
      → db.index.capacity < 2 ^ 48
      → length key < 2 ^ 16
      → length val < 2 ^ 32
      → Answers mode db store key val room_len (mutate fs room mode db key val room_len)
  mutate-Answers mode db store key val room_len v maps low small slots k l =
      Refines-Answers mode db store key val room_len _
        (elim (index_update_total room db.index key v.index slots maps low) [
          | inl r ↦ inl r
          | inr (bad, heavy, full) ↦ inr (bad, full)
        ])
        (mutate-Refines fs content laws room mode db store key val room_len v small slots k l)
