-- ===== src/Kvdb/Sequence.antt =====
-- A call of p4/kvdb.c that changes a key, and the lookups behind it.
use operating_systems_cs.Common.{ℕ, ◌^◌, ◌<◌, Bool, false, length, ◌≡◌, subst}
use operating_systems_cs.Common.Text.{CString}
use operating_systems_cs.Kvraw.{Logfs}
use operating_systems_cs.Kvraw.Append.{IsLogfs}
use operating_systems_cs.Kvdb.{
  Kvdb, same_bytes, Status, done, refused, failed, exited, stuck, Mode, mutate, kvdb_lookup,
}
use operating_systems_cs.Kvdb.Store.{Store, value_of, IsValid}
use operating_systems_cs.Kvdb.Calls.{
  new_value, Changed, Refines, mutate-Refines, Looked, kvdb_lookup-Looked,
}

module _ (fs : Logfs) (content : fs.Log → CString) (laws : IsLogfs fs content)
    (room : ℕ → Bool) where
  done-Changed :
      (mode : Mode) (db : Kvdb fs) (store : Store) (key val : CString) (room_len : ℕ)
      (r : Status × Kvdb fs × (ℕ × CString))
      → Refines fs content room mode db store key val room_len r
      → r.0 ≡ done
      → Changed fs content store key (new_value mode val) r.1
  done-Changed mode db store key val room_len (done, db', out) x e = x.1
  done-Changed mode db store key val room_len (refused, db', out) x e = absurd (cc e)
  done-Changed mode db store key val room_len (failed, db', out) x e = absurd (cc e)
  done-Changed mode db store key val room_len (exited, db', out) x e = absurd (cc e)
  done-Changed mode db store key val room_len (stuck, db', out) x e = absurd (cc e)

  -- After a call of mutate with status 0 on a database that stands for a map, while the log stays below
  -- 2 ^ 63 bytes, a lookup of its key finds the new value, or nothing after a removal, and a lookup of any
  -- other key finds what the map had, unless a read or an allocation fails.
  pub kvdb_lookup-mutate :
      (mode : Mode) (db : Kvdb fs) (store : Store) (key val other : CString) (n room_len : ℕ)
      → IsValid fs content db store
      → db.kvraw.size < 2 ^ 63
      → db.index.capacity < 2 ^ 48
      → length key < 2 ^ 16
      → length val < 2 ^ 32
      → (mutate fs room mode db key val n).0 ≡ done
      → (mutate fs room mode db key val n).1.kvraw.size < 2 ^ 63
      → same_bytes key other ≡ false
      → Looked fs content laws room
          (new_value mode val)
          room_len
          (kvdb_lookup fs room (mutate fs room mode db key val n).1 key room_len)
        × Looked fs content laws room
            (value_of store other)
            room_len
            (kvdb_lookup fs room (mutate fs room mode db key val n).1 other room_len)
  kvdb_lookup-mutate mode db store key val other n room_len v small slots k l run small' d =
      let r = mutate fs room mode db key val n in
      let c =
        done-Changed mode db store key val n r
          (mutate-Refines fs content laws room mode db store key val n v small slots k l) run in
      let look = λ (s : CString).
        kvdb_lookup-Looked fs content laws room r.1 c.store' s room_len c.valid small' in
      (
        subst (λ w. Looked fs content laws room w room_len (kvdb_lookup fs room r.1 key room_len))
            c.here (look key),
        subst (λ w. Looked fs content laws room w room_len (kvdb_lookup fs room r.1 other room_len))
            (c.others other d) (look other),
      )
