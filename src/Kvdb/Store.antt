-- ===== src/Kvdb/Store.antt =====
-- The database of p4/kvdb.c as a map: the chain of records of every hash, and the value of a key in it.
use operating_systems_cs.Common.{
  ℕ, suc, ◌<◌, min, Bool, true, false, Bool-cases, if◌then◌else◌, ◌==◌, ==_iff, ne→==, ◌&&◌, not,
  some, List, [], ◌∷◌, ◌++◌, length, length-append, ◌≡◌, refl, sym, ap, ◌∙◌, subst, inl, inr, arith,
}
use operating_systems_cs.Common.Text.{CString, first_bytes}
use operating_systems_cs.Kvraw.{Logfs, Kvraw, kvraw_append}
use operating_systems_cs.Kvraw.Header.{InRange}
use operating_systems_cs.Kvraw.Append.{
  Record, meta_of, bytes_of, length-bytes_of, IsLogfs, IsLog, Appended,
}
use operating_systems_cs.Kvraw.Roundtrip.{Appended-At, Appended-keeps}
use operating_systems_cs.Index.{lookup_key, write_off, key_of}
use operating_systems_cs.Index.Table
use operating_systems_cs.Index.Table.{view, write_off-Written}
use operating_systems_cs.Index.Grow.{or_zero}
use operating_systems_cs.Kvdb.{Kvdb, same_bytes, Chained, ended, through_end}
use operating_systems_cs.Kvdb.Chain.{Chain, same_bytes_refl, located}

-- The chain of every hash.
abbrev pub Store : Type 0
Store = ℕ → List Record

-- The value of a key, which is empty for a key that is not there.
unfoldable pub value_in : CString → List Record → CString
value_in key [] = []
value_in key (r ∷ rs) = let rest = value_in key rs in if same_bytes r.key key then r.val else rest

unfoldable pub value_of : Store → CString → CString
value_of store key = value_in key (store (key_of key))

abbrev pub is_present : CString → Bool
is_present [] = false
is_present (b ∷ val) = true

-- One more record in front of the chain of its key.
unfoldable pub extend : Store → Record → Store
extend store r q = if q == key_of r.key then r ∷ store q else store q

-- The record in front decides for its own key, and for no other.
pub value_of-extend :
    (store : Store) (r : Record)
    → (value_of (extend store r) r.key ≡ r.val)
      × ((key : CString)
          → same_bytes r.key key ≡ false
          → value_of (extend store r) key ≡ value_of store key)
unfolding value_of extend value_in
value_of-extend store r = (
  rw ((==_iff (key_of r.key) _).1 refl, value_in, same_bytes_refl r.key) refl,
  λ key d. elim (Bool-cases (key_of key == key_of r.key)) [
    | inl e ↦ rw (e, value_in, d) refl
    | inr e ↦ rw e refl
  ],
)

-- Whether `chain_lookup` left an offset and a length.
abbrev pub known : ℕ → ℕ → Bool
known off val_len = not (off == 0) && not (val_len == 0)

-- What `chain_lookup` leaves, by the value of the key.
pub record Located (v : CString) (room_len : ℕ) (c : Chained) : Type 0 where
  pub off : ℕ
  pub val_len : ℕ
  pub bytes : CString
  pub ends : c ≡ ended off val_len bytes
  pub knows : known off val_len ≡ is_present v
  pub length_of : is_present v ≡ true → val_len ≡ length v
  pub bytes_of : is_present v ≡ true → bytes ≡ first_bytes (min (length v) room_len) v

present-length : (v : CString) → not (length v == 0) ≡ is_present v
present-length [] = refl
present-length (b ∷ v) = rw (ne→== (suc (length v)) 0 (omega arith)) refl

pub located-Located :
    (content key val : CString) (room_len off : ℕ) (rs : List Record)
    → Chain content off rs
    → Located (value_in key rs) room_len (located key room_len off val rs)
unfolding located value_in
located-Located content key val room_len off [] x = record {
  off = 0;
  val_len = room_len;
  bytes = val;
  ends = refl;
  knows = refl;
  length_of = λ e. absurd (cc e);
  bytes_of = λ e. absurd (cc e);
}
located-Located content key val room_len off (r ∷ rs) x = elim (Bool-cases (same_bytes r.key key)) [
  | inl same ↦ rw same (record {
    off = off;
    val_len = length r.val;
    bytes = first_bytes (min (length r.val) room_len) r.val;
    ends = refl;
    knows = rw (ne→== off 0 x.0) (present-length r.val);
    length_of = λ e. refl;
    bytes_of = λ e. refl;
  })
  | inr other ↦ rw other (
      located-Located content key (first_bytes (min (length r.val) room_len) r.val) room_len r.prev
        rs x.3)
]

-- A record of the key and the value cannot be appended to the log.
abbrev pub NoAppend : (fs : Logfs) → Kvraw fs → CString → CString → Type 0
NoAppend fs kvraw key val = (prev : ℕ) × ((kvraw_append fs kvraw key val prev).0 ≡ false)

module _ (fs : Logfs) (content : fs.Log → CString) where
  -- A database with a well-formed log and index, in which the offset under every hash is that of its
  -- chain. The log is not empty, so that the offset 0 is that of no chain.
  pub record IsValid (db : Kvdb fs) (store : Store) : Type 0 where
    pub log : IsLog fs content db.kvraw
    pub some_bytes : 0 < db.kvraw.size
    pub index : Table.IsValid db.index
    pub chains : (q : ℕ) → Chain (content db.kvraw.log) (or_zero (view db.index q)) (store q)

  pub Chain-bound :
      (bytes : CString) (off : ℕ) (rs : List Record)
      → Chain bytes off rs
      → 0 < length bytes
      → off < length bytes
  Chain-bound bytes off [] x h = omega (arith, x)
  Chain-bound bytes off (r ∷ rs) x h =
      let a = x.1 in
      omega (
        arith,
        a.place,
        ap length a.split,
        length-append a.before (bytes_of r ++ a.after),
        length-append (bytes_of r) a.after,
        length-bytes_of r,
      )

  module _ (laws : IsLogfs fs content) where
    Chain-keeps :
        (kvraw kvraw' : Kvraw fs) (r : Record) (off : ℕ) (rs : List Record)
        → Appended fs content laws kvraw r (true, kvraw')
        → Chain (content kvraw.log) off rs
        → Chain (content kvraw'.log) off rs
    Chain-keeps kvraw kvraw' r off [] a x = x
    Chain-keeps kvraw kvraw' r off (q ∷ rs) a x = (
      x.0,
      Appended-keeps fs content laws kvraw kvraw' r q off a x.1,
      x.2,
      Chain-keeps kvraw kvraw' r q.prev rs a x.3,
    )

    -- What an append through the reference of a key does: the record is in front of its chain, or it
    -- could not be appended.
    abbrev pub Through : Kvdb fs → Store → Record → Bool × Kvdb fs → Type 0
    Through db store r (true, db') =
        IsValid db' (extend store r) × (db'.size ≡ db.size) × (db'.waste ≡ db.waste)
    Through db store r (false, db') = NoAppend fs db.kvraw r.key r.val

    -- The chain of the key with the new record.
    Chain-here :
        (db : Kvdb fs) (store : Store) (r : Record) (kvraw : Kvraw fs)
        → IsValid db store
        → r.prev ≡ or_zero (view db.index (key_of r.key))
        → InRange (meta_of r)
        → Appended fs content laws db.kvraw r (true, kvraw)
        → Chain (content kvraw.log) db.kvraw.size (r ∷ store (key_of r.key))
    Chain-here db store r kvraw v p range a =
        let c =
          subst (λ o. Chain (content db.kvraw.log) o (store (key_of r.key))) (sym p)
            (v.chains (key_of r.key)) in
        (
          λ z. absurd (omega (arith, z, v.some_bytes)),
          Appended-At fs content laws db.kvraw kvraw r v.log range a,
          omega (
            arith,
            v.log.sized,
            v.some_bytes,
            Chain-bound _ _ _ c (omega (arith, v.log.sized, v.some_bytes)),
          ),
          Chain-keeps db.kvraw kvraw r r.prev (store (key_of r.key)) a c,
        )

    wrong : false ≡ true → ⊥
    wrong e = cc

    pub through_lem :
        (db : Kvdb fs) (store : Store) (key val : CString) (j prev : ℕ) (res : Bool × Kvraw fs)
        → IsValid db store
        → lookup_key db.index (key_of key) ≡ some j
        → prev ≡ or_zero (view db.index (key_of key))
        → InRange (meta_of (record { prev = prev; key = key; val = val }))
        → Appended fs content laws db.kvraw (record { prev = prev; key = key; val = val }) res
        → kvraw_append fs db.kvraw key val prev ≡ res
        → Through db store (record { prev = prev; key = key; val = val }) (through_end fs db j res)
    unfolding through_end extend
    through_lem db store key val j prev (true, kvraw) v e p range a f =
        let r : Record = record { prev = prev; key = key; val = val } in
        let w = write_off-Written db.index (key_of key) j db.kvraw.size v.index e in
        (
          record {
            log = a.0;
            some_bytes = omega (arith, v.some_bytes, a.2);
            index = w.valid;
            chains = λ q. elim (Bool-cases (q == key_of key)) [
              | inl same ↦
                  let s = (==_iff q (key_of key)).0 same in
                  let here = Chain-here db store r kvraw v p range a in
                  subst (λ o. Chain (content kvraw.log) o (extend store r q))
                    (sym (ap or_zero (ap (view (write_off db.index j db.kvraw.size)) s ∙ w.reads)))
                    (rw same (
                      subst (λ k. Chain (content kvraw.log) db.kvraw.size (r ∷ store k)) (sym s)
                        here))
              | inr other ↦ rw other (
                  subst (λ o. Chain (content kvraw.log) (or_zero o) (store q))
                    (sym (w.others q (λ s. wrong (sym other ∙ (==_iff q (key_of key)).1 s))))
                    (Chain-keeps db.kvraw kvraw r (or_zero (view db.index q)) (store q) a
                      (v.chains q)))
            ];
          },
          refl,
          refl,
        )
    through_lem db store key val j prev (false, kvraw) v e p range a f =
        (prev, ap (λ (x : Bool × Kvraw fs). x.0) f)
