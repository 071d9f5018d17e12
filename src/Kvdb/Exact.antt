-- ===== src/Kvdb/Exact.antt =====
-- The calls of p4/kvdb.c where nothing fails: each has the status and the effect that the map tells.
use operating_systems_cs.Common.{
  ℕ, suc, ◌+◌, ◌*◌, ◌^◌, ◌<◌, ◌≤◌, Bool, true, false, Bool-cases, if◌then◌else◌, Option, none, some,
  [], length, ◌≡◌, ◌≢◌, refl, sym, ap, subst, ◌∙◌, inl, inr, ◌∷◌, arith,
}
use operating_systems_cs.Common.Text.{CString}
use operating_systems_cs.Kvraw.{Logfs, Kvraw, kvraw_append, new_kvraw}
use operating_systems_cs.Kvraw.Append.{IsLogfs, AppendFails, kvraw_append_fails}
use operating_systems_cs.Index.{Index, Outcome, key_of, new_index, index_update}
use operating_systems_cs.Index.Bounds.{new_index-Few}
use operating_systems_cs.Index.Total.{index_update_total}
use operating_systems_cs.Kvdb.{
  Kvdb, same_bytes, Status, done, refused, failed, exited, stuck, Mode, remove, mutate, kvdb_lookup,
  kvdb_open, with_index,
}
use operating_systems_cs.Kvdb.Open.{no_records, fresh, IsNew, fresh-IsNew, kvdb_open_lem}
use operating_systems_cs.Kvdb.Bounds.{Bounded, kvraw_append-size, mutate-Bounded}
use operating_systems_cs.Kvdb.Chain.{LookupFails, eq_of_same_bytes, same_bytes_refl}
use operating_systems_cs.Kvdb.Store.{Store, value_in, value_of, is_present, IsValid}
use operating_systems_cs.Kvdb.Mutate.{counted, found_value}
use operating_systems_cs.Kvdb.Calls.{
  forbids, new_value, Changed, Refines, mutate-Refines, Looked, kvdb_lookup-Looked,
}

-- A log file system and a memory in which nothing fails: every append succeeds, every read inside of the
-- log gives bytes, and there is always memory.
pub record IsReliable (fs : Logfs) (content : fs.Log → CString) (room : ℕ → Bool) : Type 0 where
  pub appends : (log : fs.Log) (bytes : CString) → (fs.logfs_append log bytes).0 ≡ true
  pub reads :
      (log : fs.Log) (off len : ℕ)
      → off + len ≤ length (content log)
      → fs.logfs_read log off len ≢ none
  pub memory : (n : ℕ) → room n ≡ true

-- A map in which one key has another value.
pub assign : CString → CString → (CString → CString) → CString → CString
assign key val f other = if same_bytes key other then val else f other

pub assign_same : (key val : CString) (f : CString → CString) → assign key val f key ≡ val
unfolding assign
assign_same key val f = rw (same_bytes_refl key) refl

pub assign_other :
    (key val other : CString) (f : CString → CString)
    → same_bytes key other ≡ false
    → assign key val f other ≡ f other
unfolding assign
assign_other key val other f e = rw e refl

-- A key and a value of a common length, and a hash that is not near the end of the 64-bit range.
pub record IsUsual (key val : CString) : Type 0 where
  pub key_len : length key < 2 ^ 16
  pub val_len : length val < 2 ^ 16
  pub low : key_of key + 2 ^ 49 ≤ 2 ^ 64

module _ (fs : Logfs) (content : fs.Log → CString) where
  -- The database stands for the map `f`, with those counters, after `m` calls.
  pub record Stands (m : ℕ) (f : CString → CString) (size waste : ℕ) (db : Kvdb fs) : Type 0 where
    pub store : Store
    pub valid : IsValid fs content db store
    pub agrees : (key : CString) → value_of store key ≡ f key
    pub bounded : Bounded fs m (18 + m * 2 ^ 18) db
    pub keys : db.size ≡ size
    pub old : db.waste ≡ waste

  Changed-agrees :
      (store : Store) (key val : CString) (f : CString → CString) (db : Kvdb fs)
      (c : Changed fs content store key val db)
      → ((k : CString) → value_of store k ≡ f k)
      → (other : CString) → value_of c.store' other ≡ assign key val f other
  unfolding assign
  Changed-agrees store key val f db c a other = elim (Bool-cases (same_bytes key other)) [
    | inl same ↦ rw same (ap (value_of c.store') (sym (eq_of_same_bytes key other same)) ∙ c.here)
    | inr apart ↦ rw apart (c.others other apart ∙ a other)
  ]

  module _ (laws : IsLogfs fs content) (room : ℕ → Bool)
      (reliable : IsReliable fs content room) where
    no-LookupFails : ¬ LookupFails fs content room
    no-LookupFails (inl (log, off, len, h, e)) = reliable.reads log off len h e
    no-LookupFails (inr (n, e)) = absurd (cc (e, reliable.memory n))

    no-AppendFails : ¬ AppendFails fs
    no-AppendFails (log, bytes, e) = absurd (cc (e, reliable.appends log bytes))

    pub kvraw_append_done :
        (kvraw : Kvraw fs) (key val : CString) (off : ℕ)
        → (kvraw_append fs kvraw key val off).0 ≡ true
    kvraw_append_done kvraw key val off = elim (Bool-cases (kvraw_append fs kvraw key val off).0) [
      | inl good ↦ good
      | inr bad ↦ absurd (no-AppendFails (kvraw_append_fails fs content laws kvraw key val off bad))
    ]

    module _ (m : ℕ) (f : CString → CString) (size waste : ℕ) (db : Kvdb fs)
        (h : Stands m f size waste db) (soon : m < 2 ^ 40) where
      slots : db.index.capacity < 2 ^ 48
      slots = omega (arith, h.bounded.table.space, soon)

      small : db.kvraw.size < 2 ^ 63
      small = omega (arith, h.bounded.log, soon)

      update_ends :
          (key val : CString)
          → IsUsual key val
          → (r : ℕ × Index) × (index_update room db.index key ≡ Outcome.ok r)
      update_ends key val u =
          elim (index_update_total room db.index key h.valid.index slots h.bounded.table.low
            u.low) [ inl r ↦ r | inr (bad, heavy, full) ↦ absurd (cc (full, reliable.memory _)) ]

      -- A lookup of a key that has a value, and of one that has none.
      pub lookup_present :
          (key : CString) (room_len : ℕ)
          → is_present (f key) ≡ true
          → kvdb_lookup fs room db key room_len ≡ (done, found_value (f key) room_len)
      lookup_present key room_len e = by_status (kvdb_lookup fs room db key room_len) (
          subst (λ v. Looked fs content laws room v room_len (kvdb_lookup fs room db key room_len))
            (h.agrees key)
            (kvdb_lookup-Looked fs content laws room db h.store key room_len h.valid small))
        where
          by_status :
              (r : Status × (ℕ × CString))
              → Looked fs content laws room (f key) room_len r
              → r ≡ (done, found_value (f key) room_len)
          by_status (done, out) x = ap (λ (y : ℕ × CString). (done, y)) x.1
          by_status (refused, out) x = absurd (cc (x, e))
          by_status (failed, out) x = absurd (no-LookupFails x)
          by_status (exited, out) x = absurd x
          by_status (stuck, out) x = absurd x

      pub lookup_absent :
          (key : CString) (room_len : ℕ)
          → is_present (f key) ≡ false
          → (kvdb_lookup fs room db key room_len).0 ≡ refused
      lookup_absent key room_len e = by_status (kvdb_lookup fs room db key room_len) (
          subst (λ v. Looked fs content laws room v room_len (kvdb_lookup fs room db key room_len))
            (h.agrees key)
            (kvdb_lookup-Looked fs content laws room db h.store key room_len h.valid small))
        where
          by_status :
              (r : Status × (ℕ × CString))
              → Looked fs content laws room (f key) room_len r
              → r.0 ≡ refused
          by_status (done, out) x = absurd (cc (x.0, e))
          by_status (refused, out) x = refl
          by_status (failed, out) x = absurd (no-LookupFails x)
          by_status (exited, out) x = absurd x
          by_status (stuck, out) x = absurd x

      next_bounds :
          (mode : Mode) (key val : CString) (room_len : ℕ)
          → IsUsual key val
          → Bounded fs (suc m) (18 + suc m * 2 ^ 18) (mutate fs room mode db key val room_len).1
      next_bounds mode key val room_len u =
          let b =
            mutate-Bounded fs room mode m _ db key val room_len h.valid.index slots u.low
              h.bounded in
          record { table = b.table; log = omega (arith, b.log, u.key_len, u.val_len) }

      refines :
          (mode : Mode) (key val : CString) (room_len : ℕ)
          → IsUsual key val
          → Refines fs content room mode db h.store key val room_len
              (mutate fs room mode db key val room_len)
      refines mode key val room_len u =
          mutate-Refines fs content laws room mode db h.store key val room_len h.valid small slots
            u.key_len (omega (arith, u.val_len))

      -- What a call of `mutate` leaves: the counters by the mode, and the value that the key had.
      pub record Accepted (mode : Mode) (key val : CString) (room_len : ℕ)
          (r : Status × Kvdb fs × (ℕ × CString)) : Type 0 where
        pub status : r.0 ≡ done
        pub stands :
            Stands
              (suc m)
              (assign key (new_value mode val) f)
              (counted mode (is_present (f key)) size waste).0
              (counted mode (is_present (f key)) size waste).1
              r.1
        pub out : mode ≡ remove → is_present (f key) ≡ true → r.2 ≡ found_value (f key) room_len

      pub mutate-Accepted :
          (mode : Mode) (key val : CString) (room_len : ℕ)
          → IsUsual key val
          → forbids mode (is_present (f key)) ≡ false
          → Accepted mode key val room_len (mutate fs room mode db key val room_len)
      mutate-Accepted mode key val room_len u e =
          by_status (mutate fs room mode db key val room_len) (refines mode key val room_len u)
            (next_bounds mode key val room_len u)
        where
          before : value_of h.store key ≡ f key
          before = h.agrees key

          by_status :
              (r : Status × Kvdb fs × (ℕ × CString))
              → Refines fs content room mode db h.store key val room_len r
              → Bounded fs (suc m) (18 + suc m * 2 ^ 18) r.1
              → Accepted mode key val room_len r
          by_status (done, db', out) x b =
              let c = x.1 in
              let counters =
                x.2
                ∙ ap (λ v. counted mode (is_present v) db.size db.waste) before
                ∙ ap (λ s. counted mode (is_present (f key)) s db.waste) h.keys
                ∙ ap (λ w. counted mode (is_present (f key)) size w) h.old in
              record {
                status = refl;
                stands = record {
                  store = c.store';
                  valid = c.valid;
                  agrees = Changed-agrees h.store key (new_value mode val) f db' c h.agrees;
                  bounded = b;
                  keys = ap (λ (p : ℕ × ℕ). p.0) counters;
                  old = ap (λ (p : ℕ × ℕ). p.1) counters;
                };
                out = λ q p.
                    x.3 q (ap is_present before ∙ p) ∙ ap (λ v. found_value v room_len) before;
              }
          by_status (refused, db', out) x b =
              absurd (cc (x.0, ap (λ v. forbids mode (is_present v)) before, e))
          by_status (failed, db', out) (inl (v, inl why)) b = absurd (no-LookupFails why)
          by_status (failed, db', out) (inl (v, inr why)) b =
              let (r, fine) = update_ends key val u in absurd (cc (why, fine))
          by_status (failed, db', out) (inr (off, why)) b =
              absurd (no-AppendFails (kvraw_append_fails fs content laws db.kvraw key _ off why))
          by_status (exited, db', out) x b =
              let (r, fine) = update_ends key val u in absurd (cc (x, fine))
          by_status (stuck, db', out) x b = absurd x

      -- A call of `mutate` that the mode forbids.
      pub mutate-refused :
          (mode : Mode) (key val : CString) (room_len : ℕ)
          → IsUsual key val
          → forbids mode (is_present (f key)) ≡ true
          → ((mutate fs room mode db key val room_len).0 ≡ refused)
            × Stands (suc m) f size waste (mutate fs room mode db key val room_len).1
      mutate-refused mode key val room_len u e =
          by_status (mutate fs room mode db key val room_len) (refines mode key val room_len u)
            (next_bounds mode key val room_len u)
        where
          by_status :
              (r : Status × Kvdb fs × (ℕ × CString))
              → Refines fs content room mode db h.store key val room_len r
              → Bounded fs (suc m) (18 + suc m * 2 ^ 18) r.1
              → (r.0 ≡ refused) × Stands (suc m) f size waste r.1
          by_status (refused, db', out) x b = (
            refl,
            record {
              store = h.store;
              valid = x.1;
              agrees = h.agrees;
              bounded = b;
              keys = x.2 ∙ h.keys;
              old = x.3 ∙ h.old;
            },
          )
          by_status (done, db', out) x b =
              absurd (cc (x.0, ap (λ v. forbids mode (is_present v)) (h.agrees key), e))
          by_status (failed, db', out) (inl (v, inl why)) b = absurd (no-LookupFails why)
          by_status (failed, db', out) (inl (v, inr why)) b =
              let (r, fine) = update_ends key val u in absurd (cc (why, fine))
          by_status (failed, db', out) (inr (off, why)) b =
              absurd (no-AppendFails (kvraw_append_fails fs content laws db.kvraw key _ off why))
          by_status (exited, db', out) x b =
              let (r, fine) = update_ends key val u in absurd (cc (x, fine))
          by_status (stuck, db', out) x b = absurd x

-- A new database stands for the empty map.
pub kvdb_open-Stands :
    (fs : Logfs) (content : fs.Log → CString) (laws : IsLogfs fs content) (room : ℕ → Bool)
    → IsReliable fs content room
    → (log : fs.Log) (garbage : ℕ) → content log ≡ []
    → garbage < 2 ^ 64
    → (db : Kvdb fs) × (kvdb_open fs room (some log) garbage ≡ some db)
      × Stands fs content 0 (λ key. []) 0 0 db
unfolding new_kvraw with_index value_of value_in
kvdb_open-Stands fs content laws room reliable log garbage e g =
    let whole : kvdb_open fs room (some log) garbage ≡ fresh fs content laws log garbage =
      kvdb_open_lem fs content laws room log garbage (reliable.memory _) (reliable.memory _)
        (reliable.memory _) in
    let (db, run, s) =
      by_append (kvraw_append fs (record { size = 0; log = log }) (0 ∷ []) (0 ∷ []) garbage)
        (kvraw_append-size fs (record { size = 0; log = log }) (0 ∷ []) (0 ∷ []) garbage)
        (kvraw_append_done fs content laws room reliable (record { size = 0; log = log }) (0 ∷ [])
          (0 ∷ []) garbage)
        (fresh-IsNew fs content laws log garbage e g) in
    (db, whole ∙ run, s)
  where
    by_append :
        (r : Bool × Kvraw fs)
        → r.1.size ≤ 0 + 16 + 1 + 1
        → r.0 ≡ true
        → IsNew fs content laws log garbage (elim (if r.0 then some r.1 else none) [
          | none ↦ none
          | some kvraw ↦ some (record { size = 0; waste = 0; kvraw = kvraw; index = new_index })
        ])
        → (db : Kvdb fs) × ((elim (if r.0 then some r.1 else none) as (λ x. Option (Kvdb fs)) [
          | none ↦ none
          | some kvraw ↦ some (record { size = 0; waste = 0; kvraw = kvraw; index = new_index })
        ])
            ≡ some db)
          × Stands fs content 0 (λ key. []) 0 0 db
    by_append (true, kvraw) l t x = (
      record { size = 0; waste = 0; kvraw = kvraw; index = new_index },
      refl,
      record {
        store = no_records;
        valid = x.0;
        agrees = λ key. refl;
        bounded = record { table = new_index-Few; log = omega (arith, l) };
        keys = refl;
        old = refl;
      },
    )
    by_append (false, kvraw) l t x = absurd (cc t)
