-- ===== src/Kvdb/Open.antt =====
-- The database that `kvdb_open` of p4/kvdb.c makes on a new log.
use operating_systems_cs.Common.{
  Bool-cases, inl, inr, ℕ, ◌^◌, ◌<◌, Bool, true, false, if◌then◌else◌, Option, none, some, [], ◌∷◌,
  length, ◌≡◌, refl, sym, ap, ◌∙◌, subst, arith,
}
use operating_systems_cs.Common.Text.{CString}
use operating_systems_cs.Kvraw.{Logfs, Kvraw, kvraw_append, kvraw_open, new_kvraw, sizeof_kvraw}
use operating_systems_cs.Kvraw.Append.{IsLogfs, Appended, kvraw_append-Appended}
use operating_systems_cs.Index.{Index, new_index, index_open, sizeof_index}
use operating_systems_cs.Index.Grow.{or_zero}
use operating_systems_cs.Index.Open.{new_index-IsValid, new_index-view}
use operating_systems_cs.Kvdb.{Kvdb, with_index, kvdb_open, sizeof_kvdb}
use operating_systems_cs.Kvdb.Store.{Store, IsValid}

abbrev pub no_records : Store
no_records q = []

module _ (fs : Logfs) (content : fs.Log → CString) (laws : IsLogfs fs content) where
  -- The database on an open log, where there is memory.
  abbrev pub fresh : fs.Log → ℕ → Option (Kvdb fs)
  fresh log garbage = elim (new_kvraw fs log garbage) [
    | none ↦ none
    | some kvraw ↦ with_index kvraw (some new_index)
  ]

  -- The first record cannot be appended.
  abbrev pub FirstFails : fs.Log → ℕ → Type 0
  FirstFails log garbage =
      (kvraw_append fs (record { size = 0; log = log }) (0 ∷ []) (0 ∷ []) garbage).0 ≡ false

  -- A new database is well-formed and stands for the empty map.
  abbrev pub IsNew : fs.Log → ℕ → Option (Kvdb fs) → Type 0
  IsNew log garbage (some db) = IsValid fs content db no_records × (db.size ≡ 0) × (db.waste ≡ 0)
  IsNew log garbage none = FirstFails log garbage

  pub fresh-IsNew :
      (log : fs.Log) (garbage : ℕ)
      → content log ≡ []
      → garbage < 2 ^ 64
      → IsNew log garbage (fresh log garbage)
  unfolding new_kvraw with_index
  fresh-IsNew log garbage e g = by_append _ refl (
      kvraw_append-Appended fs content laws (record { size = 0; log = log }) (0 ∷ []) (0 ∷ [])
        garbage (record { sized = omega (arith, ap length e) }) (omega arith)
        (record { off = g; key_len = omega arith; val_len = omega arith }))
    where
      by_append :
          (r : Bool × Kvraw fs)
          → kvraw_append fs (record { size = 0; log = log }) (0 ∷ []) (0 ∷ []) garbage ≡ r
          → Appended fs content laws
              (record { size = 0; log = log })
              (record { prev = garbage; key = 0 ∷ []; val = 0 ∷ [] })
              r
          → IsNew log garbage (elim (if r.0 then some r.1 else none) [
            | none ↦ none
            | some kvraw ↦ some (record { size = 0; waste = 0; kvraw = kvraw; index = new_index })
          ])
      by_append (true, kvraw) f a = (
        record {
          log = a.0;
          some_bytes = omega (arith, a.2);
          index = new_index-IsValid;
          chains = λ q. ap or_zero (new_index-view q);
        },
        refl,
        refl,
      )
      by_append (false, kvraw) f a = ap (λ (r : Bool × Kvraw fs). r.0) f

  module _ (room : ℕ → Bool) where
    -- Why there is no database.
    pub data Refused (opened : Option fs.Log) (garbage : ℕ) : Type 0 where
      no_kvdb : room sizeof_kvdb ≡ false → Refused opened garbage
      no_kvraw : room sizeof_kvraw ≡ false → Refused opened garbage
      no_index : room sizeof_index ≡ false → Refused opened garbage
      no_log : opened ≡ none → Refused opened garbage
      no_record :
          (log : fs.Log) → opened ≡ some log → FirstFails log garbage → Refused opened garbage

    abbrev pub Opened : Option fs.Log → ℕ → Option (Kvdb fs) → Type 0
    Opened opened garbage (some db) =
        IsValid fs content db no_records × (db.size ≡ 0) × (db.waste ≡ 0)
    Opened opened garbage none = Refused opened garbage

    -- With the two first structs, everything depends on the log and on the last one.
    kvdb_open_index :
        (log : fs.Log) (garbage : ℕ) (index : Option Index)
        → room sizeof_kvdb ≡ true
        → room sizeof_kvraw ≡ true
        → index_open room ≡ index
        → kvdb_open fs room (some log) garbage
          ≡ (elim (new_kvraw fs log garbage) [ none ↦ none | some kvraw ↦ with_index kvraw index ])
    unfolding kvdb_open kvraw_open
    kvdb_open_index log garbage index a b c = rw (a, b) (by_kvraw (new_kvraw fs log garbage))
      where
        by_kvraw :
            (k : Option (Kvraw fs))
            → (elim k as (λ x. Option (Kvdb fs)) [
              | none ↦ none
              | some kvraw ↦ with_index kvraw (index_open room)
            ])
              ≡ (elim k as (λ x. Option (Kvdb fs)) [
                | none ↦ none
                | some kvraw ↦ with_index kvraw index
              ])
        by_kvraw none = refl
        by_kvraw (some kvraw) = ap (with_index kvraw) c

    pub kvdb_open_lem :
        (log : fs.Log) (garbage : ℕ)
        → room sizeof_kvdb ≡ true
        → room sizeof_kvraw ≡ true
        → room sizeof_index ≡ true
        → kvdb_open fs room (some log) garbage ≡ fresh log garbage
    unfolding index_open
    kvdb_open_lem log garbage a b c = kvdb_open_index log garbage (some new_index) a b (rw c refl)

    no_kvdb_index :
        (k : Option (Kvraw fs))
        → (elim k as (λ x. Option (Kvdb fs)) [ none ↦ none | some kvraw ↦ with_index kvraw none ])
          ≡ none
    unfolding with_index
    no_kvdb_index none = refl
    no_kvdb_index (some kvraw) = refl

    opened_fresh :
        (log : fs.Log) (garbage : ℕ) (r : Option (Kvdb fs))
        → IsNew log garbage r
        → Opened (some log) garbage r
    opened_fresh log garbage none x = Refused.no_record log refl x
    opened_fresh log garbage (some db) x = x

    -- Where logfs_open gives an empty log, kvdb_open gives a well-formed database that stands for the empty map,
    -- with both counters 0, whatever the uninitialised offset of the first record is; or it gives none, and then
    -- logfs_open gave none, one of the three structs has no memory, or the first record could not be appended.
    pub kvdb_open-Opened :
        (opened : Option fs.Log) (garbage : ℕ)
        → ((log : fs.Log) → opened ≡ some log → content log ≡ [])
        → garbage < 2 ^ 64
        → Opened opened garbage (kvdb_open fs room opened garbage)
    unfolding kvdb_open kvraw_open index_open
    kvdb_open-Opened none garbage e g = elim (Bool-cases (room sizeof_kvdb)) [
      | inr a ↦ rw a (Refused.no_kvdb a)
      | inl a ↦ elim (Bool-cases (room sizeof_kvraw)) [
        | inr b ↦ rw (a, b) (Refused.no_kvraw b)
        | inl b ↦ rw (a, b) (Refused.no_log refl)
      ]
    ]
    kvdb_open-Opened (some log) garbage e g = elim (Bool-cases (room sizeof_kvdb)) [
      | inr a ↦ rw a (Refused.no_kvdb a)
      | inl a ↦ elim (Bool-cases (room sizeof_kvraw)) [
        | inr b ↦ rw (a, b) (Refused.no_kvraw b)
        | inl b ↦ elim (Bool-cases (room sizeof_index)) [
          | inr c ↦
              subst (Opened (some log) garbage)
                (sym (
                  kvdb_open_index log garbage none a b (rw c refl)
                  ∙ no_kvdb_index (new_kvraw fs log garbage)))
                (Refused.no_index c)
          | inl c ↦ subst (Opened (some log) garbage) (sym (kvdb_open_lem log garbage a b c)) (
              opened_fresh log garbage (fresh log garbage) (fresh-IsNew log garbage (e log refl) g))
        ]
      ]
    ]
