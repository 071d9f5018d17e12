-- ===== src/Kvdb/Mutate.antt =====
-- `mutate` of p4/kvdb.c against the map from keys to values.
use operating_systems_cs.Common.{
  ℕ, suc, ◌^◌, ◌<◌, min, Bool, true, false, Bool-cases, if◌then◌else◌, some, [], length, ◌≡◌, refl,
  sym, ap, ap₂, ◌∙◌, subst, ◌⊎◌, inl, inr, arith,
}
use operating_systems_cs.Common.Text.{CString, first_bytes}
use operating_systems_cs.Kvraw.{Logfs, Kvraw}
use operating_systems_cs.Kvraw.Header.{InRange}
use operating_systems_cs.Kvraw.Append.{meta_of, IsLogfs, kvraw_append-Appended}
use operating_systems_cs.Index.{
  Index, Outcome, lookup_key, index_lookup, read_off, key_of, index_update,
}
use operating_systems_cs.Index.Table.{view, eq_or_ne}
use operating_systems_cs.Index.Grow.{or_zero, index_update-refers}
use operating_systems_cs.Kvdb.{
  Kvdb, Status, done, refused, failed, exited, stuck, Mode, remove, insert, update, replace,
  Chained, increment, decrement, count, count_first, refuses, payload, append_through, apply_mode,
  mutate_end, chain_lookup, given_back, mutate_from, mutate,
}
use operating_systems_cs.Kvdb.Chain.{Chain, LookupFails, located, chain_loop-located}
use operating_systems_cs.Kvdb.Bounds.{length-payload}
use operating_systems_cs.Kvdb.Store.{
  Store, value_of, is_present, extend, located-Located, IsValid, NoAppend, Through, through_lem,
  Chain-bound,
}

-- The number of keys that have a value, and of the records that are out of date, behind a call.
unfoldable pub counted : Mode → Bool → ℕ → ℕ → ℕ × ℕ
counted remove is_known size waste = (decrement size, increment waste)
counted insert is_known size waste = (increment size, waste)
counted update true size waste = (size, increment waste)
counted update false size waste = (increment size, waste)
counted replace is_known size waste = (size, increment waste)

-- The length of a value and its bytes, as far as there is space for them.
abbrev pub found_value : CString → ℕ → ℕ × CString
found_value v room_len = (length v, first_bytes (min (length v) room_len) v)

module _ (fs : Logfs) (content : fs.Log → CString) (laws : IsLogfs fs content) where
  -- What `apply_mode` does.
  abbrev pub Applied : Mode → Kvdb fs → Store → CString → CString → Bool → Status × Kvdb fs → Type 0
  Applied mode db store key val is_known (done, db') =
      (refuses mode is_known ≡ false)
      × ((prev : ℕ) × IsValid fs content db'
            (extend store (record { prev = prev; key = key; val = payload mode val })))
      × ((db'.size, db'.waste) ≡ counted mode is_known db.size db.waste)
  Applied mode db store key val is_known (refused, db') =
      (refuses mode is_known ≡ true)
      × IsValid fs content db' store
      × (db'.size ≡ db.size)
      × (db'.waste ≡ db.waste)
  Applied mode db store key val is_known (failed, db') = NoAppend fs db.kvraw key (payload mode val)
  Applied mode db store key val is_known (exited, db') = ⊥
  Applied mode db store key val is_known (stuck, db') = ⊥

  append_through-Through :
      (db : Kvdb fs) (store : Store) (key val : CString) (j : ℕ)
      → IsValid fs content db store
      → db.kvraw.size < 2 ^ 63
      → lookup_key db.index (key_of key) ≡ some j
      → read_off db.index j ≡ or_zero (view db.index (key_of key))
      → length key < 2 ^ 16
      → length val < 2 ^ 32
      → Through fs content laws db store
          (record { prev = read_off db.index j; key = key; val = val })
          (append_through fs db key val j)
  unfolding append_through
  append_through-Through db store key val j v small e p k l =
      let prev = read_off db.index j in
      let c =
        subst (λ o. Chain (content db.kvraw.log) o (store (key_of key))) (sym p)
          (v.chains (key_of key)) in
      let bound = Chain-bound fs content _ _ _ c (omega (arith, v.log.sized, v.some_bytes)) in
      let range : InRange (meta_of (record { prev = prev; key = key; val = val })) = record {
        off = omega (arith, bound, v.log.sized, small);
        key_len = k;
        val_len = l;
      } in
      through_lem fs content laws db store key val j prev _ v e p range
        (kvraw_append-Appended fs content laws db.kvraw key val prev v.log small range) refl

  recount :
      (db : Kvdb fs) (store : Store) (size waste : ℕ)
      → IsValid fs content db store
      → IsValid fs content (record db { size = size; waste = waste }) store
  recount db store size waste v = record {
    log = v.log;
    some_bytes = v.some_bytes;
    index = v.index;
    chains = v.chains;
  }

  count_first-IsValid :
      (mode : Mode) (is_known : Bool) (db : Kvdb fs) (store : Store)
      → IsValid fs content db store
      → IsValid fs content (count_first mode is_known db) store
  unfolding count_first
  count_first-IsValid remove is_known db store v = v
  count_first-IsValid insert is_known db store v = v
  count_first-IsValid update true db store v = recount db store _ _ v
  count_first-IsValid update false db store v = recount db store _ _ v
  count_first-IsValid replace is_known db store v = v

  count-IsValid :
      (mode : Mode) (db : Kvdb fs) (store : Store)
      → IsValid fs content db store
      → IsValid fs content (count mode db) store
  unfolding count
  count-IsValid remove db store v = recount db store _ _ v
  count-IsValid insert db store v = recount db store _ _ v
  count-IsValid update db store v = v
  count-IsValid replace db store v = recount db store _ _ v

  -- The two steps of the counters together.
  count-counted :
      (mode : Mode) (is_known : Bool) (db db' : Kvdb fs)
      → db'.size ≡ (count_first mode is_known db).size
      → db'.waste ≡ (count_first mode is_known db).waste
      → ((count mode db').size, (count mode db').waste) ≡ counted mode is_known db.size db.waste
  unfolding count count_first counted
  count-counted remove is_known db db' e f = rw (e, f) refl
  count-counted insert is_known db db' e f = rw (e, f) refl
  count-counted update true db db' e f = rw (e, f) refl
  count-counted update false db db' e f = rw (e, f) refl
  count-counted replace is_known db db' e f = rw (e, f) refl

  count_first_rest :
      (mode : Mode) (is_known : Bool) (db : Kvdb fs)
      → ((count_first mode is_known db).kvraw ≡ db.kvraw)
        × ((count_first mode is_known db).index ≡ db.index)
  unfolding count_first
  count_first_rest remove is_known db = (refl, refl)
  count_first_rest insert is_known db = (refl, refl)
  count_first_rest update true db = (refl, refl)
  count_first_rest update false db = (refl, refl)
  count_first_rest replace is_known db = (refl, refl)

  finish_lem :
      (mode : Mode) (is_known : Bool) (db : Kvdb fs) (store : Store) (key val : CString) (prev : ℕ)
      (r : Bool × Kvdb fs)
      → refuses mode is_known ≡ false
      → Through fs content laws
          (count_first mode is_known db)
          store
          (record { prev = prev; key = key; val = payload mode val })
          r
      → Applied mode db store key val is_known
          (if r.0 then (done, count mode r.1) else (failed, r.1))
  finish_lem mode is_known db store key val prev (true, db') e x =
      (e, (prev, count-IsValid mode db' _ x.0), count-counted mode is_known db db' x.1 x.2)
  finish_lem mode is_known db store key val prev (false, db') e x =
      subst (λ kvraw. NoAppend fs kvraw key (payload mode val))
        (count_first_rest mode is_known db).0 x

  apply_mode-Applied :
      (mode : Mode) (is_known : Bool) (db : Kvdb fs) (store : Store) (key val : CString) (j : ℕ)
      → IsValid fs content db store
      → db.kvraw.size < 2 ^ 63
      → lookup_key db.index (key_of key) ≡ some j
      → read_off db.index j ≡ or_zero (view db.index (key_of key))
      → length key < 2 ^ 16
      → length val < 2 ^ 32
      → Applied mode db store key val is_known (apply_mode fs mode db key val j is_known)
  unfolding apply_mode
  apply_mode-Applied mode is_known db store key val j v small e p k l =
      elim (Bool-cases (refuses mode is_known)) [
        | inl bad ↦ rw bad (bad, v, refl, refl)
        | inr good ↦
            let (same_log, same_index) = count_first_rest mode is_known db in
            rw good (
              finish_lem mode is_known db store key val _ _ good (
                append_through-Through (count_first mode is_known db) store key (payload mode val) j
                  (count_first-IsValid mode is_known db store v)
                  (subst (λ (kvraw : Kvraw fs). kvraw.size < 2 ^ 63) (sym same_log) small)
                  (subst (λ i. lookup_key i (key_of key) ≡ some j) (sym same_index) e)
                  (subst (λ i. read_off i j ≡ or_zero (view i (key_of key))) (sym same_index) p) k
                  (omega (arith, length-payload mode val))))
      ]

  module _ (room : ℕ → Bool) where
    -- What `mutate` does, by the value that the key had.
    abbrev pub Mutated :
        Mode → Kvdb fs → Store → CString → CString → ℕ → Status × Kvdb fs × (ℕ × CString) → Type 0
    Mutated mode db store key val room_len (failed, db', out) =
        IsValid fs content db' store
          × (LookupFails fs content room ⊎ (index_update room db.index key ≡ Outcome.failed))
        ⊎ NoAppend fs db.kvraw key (payload mode val)
    Mutated mode db store key val room_len (exited, db', out) =
        index_update room db.index key ≡ Outcome.exited
    Mutated mode db store key val room_len (stuck, db', out) = ⊥
    Mutated mode db store key val room_len (status, db', out) =
        Applied mode db store key val (is_present (value_of store key)) (status, db')
        × (mode ≡ remove
            → is_present (value_of store key) ≡ true
            → out ≡ found_value (value_of store key) room_len)

    -- A removal of a key that has a value is not refused.
    refused_known :
        {mode : Mode} (v : CString)
        → refuses mode (is_present v) ≡ true
        → mode ≡ remove
        → is_present v ≡ true
        → ⊥
    unfolding refuses
    refused_known {mode} v e m p = cc (m, p, e, removal_allowed)
      where
        removal_allowed : refuses remove true ≡ false
        removal_allowed = refl

    -- The result of `apply_mode` with the value that was found.
    with_value :
        (mode : Mode) (db db0 : Kvdb fs) (store : Store) (key val : CString) (room_len : ℕ)
        (val_len : ℕ) (bytes : CString) (r : Status × Kvdb fs)
        → db.size ≡ db0.size
        → db.waste ≡ db0.waste
        → db.kvraw ≡ db0.kvraw
        → (is_present (value_of store key) ≡ true
            → (val_len, bytes) ≡ found_value (value_of store key) room_len)
        → Applied mode db store key val (is_present (value_of store key)) r
        → Mutated mode db0 store key val room_len
            (r.0, r.1, (given_back mode r.0 room_len val_len, bytes))
    with_value mode db db0 store key val room_len val_len bytes (done, db') s w q h x = (
      (x.0, x.1, x.2 ∙ ap₂ (counted mode (is_present (value_of store key))) s w),
      λ m p. rw m (h p),
    )
    with_value mode db db0 store key val room_len val_len bytes (refused, db') s w q h x =
        ((x.0, x.1, x.2 ∙ s, x.3 ∙ w), λ m p. absurd (refused_known (value_of store key) x.0 m p))
    with_value mode db db0 store key val room_len val_len bytes (failed, db') s w q h x =
        inr (subst (λ kvraw. NoAppend fs kvraw key (payload mode val)) q x)
    with_value mode db db0 store key val room_len val_len bytes (exited, db') s w q h x = absurd x
    with_value mode db db0 store key val room_len val_len bytes (stuck, db') s w q h x = absurd x

    -- The database behind `index_update`, which referred the key to the position `j`.
    reindexed :
        (db : Kvdb fs) (store : Store) (key : CString) (j : ℕ) (index : Index)
        → IsValid fs content db store
        → db.index.capacity < 2 ^ 48
        → index_update room db.index key ≡ Outcome.ok (j, index)
        → IsValid fs content (record db { index = index }) store
          × (lookup_key index (key_of key) ≡ some j)
          × (read_off index j ≡ or_zero (view index (key_of key)))
    unfolding index_lookup view
    reindexed db store key j index v small e =
        let (i, found, reads, others) =
          index_update-refers room db.index key j index v.index small e in
        let seen : lookup_key index (key_of key) ≡ some j = found in
        let here : view index (key_of key) ≡ some (read_off index j) = rw (seen, view) refl in
        (
          record {
            log = v.log;
            some_bytes = v.some_bytes;
            index = i;
            chains = λ q. elim (eq_or_ne q (key_of key)) [
              | inl same ↦
                  subst (λ o. Chain (content db.kvraw.log) o (store q))
                    (sym (
                      ap or_zero (ap (view index) same ∙ here)
                      ∙ reads
                      ∙ ap (λ k. or_zero (view db.index k)) (sym same)))
                    (v.chains q)
              | inr apart ↦
                  subst (λ o. Chain (content db.kvraw.log) (or_zero o) (store q))
                    (sym (others q apart)) (v.chains q)
            ];
          },
          found,
          sym (ap or_zero here),
        )

    mutate_end-Mutated :
        (mode : Mode) (db db0 : Kvdb fs) (store : Store) (key val : CString) (room_len j : ℕ)
        (c : Chained)
        → IsValid fs content db store
        → db.kvraw.size < 2 ^ 63
        → lookup_key db.index (key_of key) ≡ some j
        → read_off db.index j ≡ or_zero (view db.index (key_of key))
        → length key < 2 ^ 16
        → length val < 2 ^ 32
        → db.size ≡ db0.size
        → db.waste ≡ db0.waste
        → db.kvraw ≡ db0.kvraw
        → (c ≡ located key room_len (read_off db.index j) [] (store (key_of key)))
          ⊎ (c ≡ Chained.failed) × LookupFails fs content room
        → Mutated mode db0 store key val room_len (mutate_end fs mode db key val room_len j c)
    unfolding mutate_end value_of
    mutate_end-Mutated mode db db0 store key val room_len j c v small e p k l s w q
          (inr (bad, why)) =
        rw bad (inl (v, inl why))
    mutate_end-Mutated mode db db0 store key val room_len j c v small e p k l s w q (inl good) =
        let x =
          located-Located (content db.kvraw.log) key [] room_len (read_off db.index j)
            (store (key_of key))
            (subst (λ o. Chain (content db.kvraw.log) o (store (key_of key))) (sym p)
              (v.chains (key_of key))) in
        rw (good, x.ends, mutate_end)
          (with_value mode db db0 store key val room_len x.val_len x.bytes _ s w q
            (λ h. ap₂ (λ a b. (a, b)) (x.length_of h) (x.bytes_of h))
            (rw x.knows (
              apply_mode-Applied mode (is_present (value_of store key)) db store key val j v small e
                p k l)))

    -- The call of `mutate` on a well-formed database.
    pub mutate-Mutated :
        (mode : Mode) (db : Kvdb fs) (store : Store) (key val : CString) (room_len : ℕ)
        → IsValid fs content db store
        → db.kvraw.size < 2 ^ 63
        → db.index.capacity < 2 ^ 48
        → length key < 2 ^ 16
        → length val < 2 ^ 32
        → Mutated mode db store key val room_len (mutate fs room mode db key val room_len)
    unfolding mutate mutate_from chain_lookup
    mutate-Mutated mode db store key val room_len v small slots k l =
        by_update (index_update room db.index key) refl
      where
        by_update :
            (o : Outcome (ℕ × Index))
            → index_update room db.index key ≡ o
            → Mutated mode db store key val room_len
                (mutate_from fs room mode db key val room_len o)
        by_update (Outcome.ok (j, index)) e =
            let (v', found, reads) = reindexed db store key j index v slots e in
            mutate_end-Mutated mode (record db { index = index }) db store key val room_len j _ v'
              small found reads k l refl refl refl
              (chain_loop-located fs content laws room db.kvraw v.log small (suc (read_off index j))
                (read_off index j) room_len key [] (store (key_of key))
                (subst (λ o. Chain (content db.kvraw.log) o (store (key_of key))) (sym reads)
                  (v'.chains (key_of key)))
                (omega arith))
        by_update Outcome.failed e = inl (v, inr e)
        by_update Outcome.exited e = e
