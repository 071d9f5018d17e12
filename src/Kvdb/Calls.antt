-- ===== src/Kvdb/Calls.antt =====
-- The public calls of p4/kvdb.c on a well-formed database, as operations on a map.
use operating_systems_cs.Common.{
  ℕ, suc, ◌^◌, ◌<◌, Bool, true, false, Bool-cases, ◌==◌, ==_iff, ◌||◌, none, some, Option-cases,
  List, [], ◌∷◌, length, ◌≡◌, refl, sym, ap₂, ◌∙◌, subst, ◌⊎◌, inl, inr, arith,
}
use operating_systems_cs.Common.Text.{CString}
use operating_systems_cs.Kvraw.{Logfs}
use operating_systems_cs.Kvraw.Append.{Record, IsLogfs}
use operating_systems_cs.Index.{Outcome, lookup_key, index_lookup, key_of, index_update}
use operating_systems_cs.Index.Table.{view}
use operating_systems_cs.Index.Grow.{or_zero}
use operating_systems_cs.Kvdb.{
  Kvdb, same_bytes, Status, done, refused, failed, exited, stuck, Mode, remove, insert, update,
  replace, Chained, refuses, payload, chain_lookup, mutate, lookup_end, lookup_at, kvdb_lookup,
}
use operating_systems_cs.Kvdb.Chain.{Chain, LookupFails, chain_loop-located}
use operating_systems_cs.Kvdb.Store.{
  Store, value_in, value_of, value_of-extend, is_present, extend, known, Located, located-Located,
  IsValid, NoAppend,
}
use operating_systems_cs.Kvdb.Mutate.{counted, found_value, Mutated, mutate-Mutated}

-- The modes by their names: an insert wants a key without a value, a removal and a replacement one with a
-- value, and an update takes any key; a removal leaves no value.
unfoldable pub forbids : Mode → Bool → Bool
forbids insert true = true
forbids remove false = true
forbids replace false = true
forbids _ is_known = false

unfoldable pub new_value : Mode → CString → CString
new_value remove val = []
new_value insert val = val
new_value update val = val
new_value replace val = val

refuses-forbids : (mode : Mode) (is_known : Bool) → refuses mode is_known ≡ forbids mode is_known
unfolding refuses forbids
refuses-forbids remove true = refl
refuses-forbids remove false = refl
refuses-forbids insert true = refl
refuses-forbids insert false = refl
refuses-forbids update true = refl
refuses-forbids update false = refl
refuses-forbids replace true = refl
refuses-forbids replace false = refl

payload-new_value : (mode : Mode) (val : CString) → payload mode val ≡ new_value mode val
unfolding payload new_value
payload-new_value remove val = refl
payload-new_value insert val = refl
payload-new_value update val = refl
payload-new_value replace val = refl

module _ (fs : Logfs) (content : fs.Log → CString) where
  -- A database in which one key has a new value, and every other key the one that it had.
  pub record Changed (store : Store) (key val : CString) (db' : Kvdb fs) : Type 0 where
    pub store' : Store
    pub valid : IsValid fs content db' store'
    pub here : value_of store' key ≡ val
    pub others :
        (other : CString)
        → same_bytes key other ≡ false
        → value_of store' other ≡ value_of store other

  Changed-extend :
      (store : Store) (r : Record) (db' : Kvdb fs)
      → IsValid fs content db' (extend store r)
      → Changed store r.key r.val db'
  Changed-extend store r db' v =
      let (here, others) = value_of-extend store r in
      record { store' = extend store r; valid = v; here = here; others = others }

  -- A call of `mutate` as an operation on the map: it changes the value of the key and the counters, or
  -- refuses the key by whether it has a value, or fails for a reason.
  abbrev pub Refines :
      (ℕ → Bool)
      → Mode
      → Kvdb fs
      → Store
      → CString
      → CString
      → ℕ
      → Status × Kvdb fs × (ℕ × CString)
      → Type 0
  Refines room mode db store key val room_len (done, db', out) =
      (forbids mode (is_present (value_of store key)) ≡ false)
      × Changed store key (new_value mode val) db'
      × ((db'.size, db'.waste) ≡ counted mode (is_present (value_of store key)) db.size db.waste)
      × (mode ≡ remove
          → is_present (value_of store key) ≡ true
          → out ≡ found_value (value_of store key) room_len)
  Refines room mode db store key val room_len (refused, db', out) =
      (forbids mode (is_present (value_of store key)) ≡ true)
      × IsValid fs content db' store
      × (db'.size ≡ db.size)
      × (db'.waste ≡ db.waste)
  Refines room mode db store key val room_len (failed, db', out) =
      IsValid fs content db' store
        × (LookupFails fs content room ⊎ (index_update room db.index key ≡ Outcome.failed))
      ⊎ NoAppend fs db.kvraw key (new_value mode val)
  Refines room mode db store key val room_len (exited, db', out) =
      index_update room db.index key ≡ Outcome.exited
  Refines room mode db store key val room_len (stuck, db', out) = ⊥

  module _ (laws : IsLogfs fs content) (room : ℕ → Bool) where
    as_map :
        (mode : Mode) (db : Kvdb fs) (store : Store) (key val : CString) (room_len : ℕ)
        (r : Status × Kvdb fs × (ℕ × CString))
        → Mutated fs content laws room mode db store key val room_len r
        → Refines room mode db store key val room_len r
    as_map mode db store key val room_len (done, db', out) x =
        let ((e, (prev, v), c), h) = x in
        (
          sym (refuses-forbids mode (is_present (value_of store key))) ∙ e,
          subst (λ w. Changed store key w db') (payload-new_value mode val)
              (Changed-extend store (record { prev = prev; key = key; val = payload mode val }) db'
                v),
          c,
          h,
        )
    as_map mode db store key val room_len (refused, db', out) ((e, v, s, w), h) =
        (sym (refuses-forbids mode (is_present (value_of store key))) ∙ e, v, s, w)
    as_map mode db store key val room_len (failed, db', out) x =
        subst
          (λ w.
            IsValid fs content db' store
              × (LookupFails fs content room ⊎ (index_update room db.index key ≡ Outcome.failed))
            ⊎ NoAppend fs db.kvraw key w)
          (payload-new_value mode val) x
    as_map mode db store key val room_len (exited, db', out) x = x
    as_map mode db store key val room_len (stuck, db', out) x = x

    -- Every mode of mutate, on a database that stands for a map, does to the map what it is for: with
    -- status 0 the key has the new value (none after MUTATE_REMOVE), every other key the old one, and
    -- the counters of keys and of waste are as they should be; with status +1 the map and the counters
    -- are as before, and the mode does not allow the key as it was; with -1 a read, an allocation or an
    -- append failed, and unless it was an append the map is as before. The loop over the chain always
    -- ends.
    pub mutate-Refines :
        (mode : Mode) (db : Kvdb fs) (store : Store) (key val : CString) (room_len : ℕ)
        → IsValid fs content db store
        → db.kvraw.size < 2 ^ 63
        → db.index.capacity < 2 ^ 48
        → length key < 2 ^ 16
        → length val < 2 ^ 32
        → Refines room mode db store key val room_len (mutate fs room mode db key val room_len)
    mutate-Refines mode db store key val room_len v small slots k l =
        as_map mode db store key val room_len _
          (mutate-Mutated fs content laws room mode db store key val room_len v small slots k l)

    -- What a lookup gives, by the value of the key.
    abbrev pub Looked : CString → ℕ → Status × (ℕ × CString) → Type 0
    Looked v room_len (done, out) = (is_present v ≡ true) × (out ≡ found_value v room_len)
    Looked v room_len (refused, out) = is_present v ≡ false
    Looked v room_len (failed, out) = LookupFails fs content room
    Looked v room_len _ = ⊥

    lookup_end-Looked :
        (v : CString) (room_len : ℕ) (c : Chained)
        → Located v room_len c
        → Looked v room_len (lookup_end c)
    unfolding lookup_end
    lookup_end-Looked v room_len c x = elim (Bool-cases (is_present v)) [
      | inl there ↦
          rw (x.ends, lookup_end, there_not x.off x.val_len (x.knows ∙ there))
            (there, ap₂ (λ a b. (a, b)) (x.length_of there) (x.bytes_of there))
      | inr gone ↦ rw (x.ends, lookup_end, gone_not x.off x.val_len (x.knows ∙ gone)) gone
    ]
      where
        there_not : (a b : ℕ) → known a b ≡ true → ((a == 0) || (b == 0)) ≡ false
        there_not a b h = ground arith

        gone_not : (a b : ℕ) → known a b ≡ false → ((a == 0) || (b == 0)) ≡ true
        gone_not a b h = ground arith

    empty-Chain : (bytes : CString) (rs : List Record) → Chain bytes 0 rs → rs ≡ []
    empty-Chain bytes [] x = refl
    empty-Chain bytes (r ∷ rs) x = absurd (x.0 refl)

    lookup_at-Looked :
        (db : Kvdb fs) (store : Store) (key : CString) (room_len off : ℕ)
        → IsValid fs content db store
        → db.kvraw.size < 2 ^ 63
        → Chain (content db.kvraw.log) off (store (key_of key))
        → Looked (value_of store key) room_len (lookup_at fs room db key room_len off)
    unfolding lookup_at chain_lookup value_of value_in lookup_end
    lookup_at-Looked db store key room_len off v small c = elim (Bool-cases (off == 0)) [
      | inl zero_off ↦
          let rs = empty-Chain _ (store (key_of key)) (
            subst (λ o. Chain (content db.kvraw.log) o (store (key_of key)))
              ((==_iff off 0).0 zero_off) c) in
          rw (zero_off, rs) refl
      | inr some_off ↦
          elim (chain_loop-located fs content laws room db.kvraw v.log small (suc off) off room_len
            key [] (store (key_of key)) c (omega arith)) [
              | inl good ↦
                  rw (some_off, good)
                    (lookup_end-Looked (value_of store key) room_len _ (
                      located-Located (content db.kvraw.log) key [] room_len off
                        (store (key_of key)) c))
              | inr (bad, why) ↦ rw (some_off, bad, lookup_end) why
            ]
    ]

    lookup_here :
        (db : Kvdb fs) (key : CString) (room_len j : ℕ)
        → lookup_key db.index (key_of key) ≡ some j
        → kvdb_lookup fs room db key room_len
          ≡ lookup_at fs room db key room_len (or_zero (view db.index (key_of key)))
    unfolding kvdb_lookup index_lookup view
    lookup_here db key room_len j e = rw (e, kvdb_lookup, view) refl

    lookup_nowhere :
        (db : Kvdb fs) (key : CString) (room_len : ℕ)
        → lookup_key db.index (key_of key) ≡ none
        → kvdb_lookup fs room db key room_len
          ≡ lookup_at fs room db key room_len (or_zero (view db.index (key_of key)))
    unfolding kvdb_lookup index_lookup view lookup_at
    lookup_nowhere db key room_len e = rw (e, kvdb_lookup, view) refl

    -- kvdb_lookup on a database that stands for a map: with status 0 the length and the bytes of the
    -- value of the key, as far as there is space; with +1 the key has no value; with -1 a read or an
    -- allocation failed. The loop over the chain always ends.
    pub kvdb_lookup-Looked :
        (db : Kvdb fs) (store : Store) (key : CString) (room_len : ℕ)
        → IsValid fs content db store
        → db.kvraw.size < 2 ^ 63
        → Looked (value_of store key) room_len (kvdb_lookup fs room db key room_len)
    kvdb_lookup-Looked db store key room_len v small =
        let here =
          lookup_at-Looked db store key room_len (or_zero (view db.index (key_of key))) v small
            (v.chains (key_of key)) in
        elim (Option-cases (lookup_key db.index (key_of key))) [
          | inl e ↦
              subst (Looked (value_of store key) room_len) (sym (lookup_nowhere db key room_len e))
                here
          | inr (j, e) ↦
              subst (Looked (value_of store key) room_len) (sym (lookup_here db key room_len j e))
                here
        ]
