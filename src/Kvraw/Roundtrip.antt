-- ===== src/Kvraw/Roundtrip.antt =====
-- What p4/kvraw.c appends, its lookups give back.
use operating_systems_cs.Common.{ℕ, ◌<◌, ◌^◌, true, ◌++◌, ◌≡◌, subst, sym}
use operating_systems_cs.Common.Text.{CString}
use operating_systems_cs.Kvraw.{Logfs, Kvraw, kvraw_append, kvraw_lookup}
use operating_systems_cs.Kvraw.Header.{InRange}
use operating_systems_cs.Kvraw.Append.{
  Record, meta_of, bytes_of, At, At-behind, At-end, IsLogfs, IsLog, Appended, kvraw_append-Appended,
}
use operating_systems_cs.Kvraw.Lookup.{Ends, found_of, kvraw_lookup-Ends}

module _ (fs : Logfs) (content : fs.Log → CString) (laws : IsLogfs fs content) where
  pub Appended-At :
      (kvraw kvraw' : Kvraw fs) (r : Record)
      → IsLog fs content kvraw
      → InRange (meta_of r)
      → Appended fs content laws kvraw r (true, kvraw')
      → At (content kvraw'.log) kvraw.size r
  Appended-At kvraw kvraw' r h range a =
      subst (λ c. At c kvraw.size r) (sym a.1)
        (subst (λ n. At (content kvraw.log ++ bytes_of r) n r) (sym h.sized)
          (At-end (content kvraw.log) r range))

  pub Appended-keeps :
      (kvraw kvraw' : Kvraw fs) (r q : Record) (off : ℕ)
      → Appended fs content laws kvraw r (true, kvraw')
      → At (content kvraw.log) off q
      → At (content kvraw'.log) off q
  Appended-keeps kvraw kvraw' r q off a x =
      subst (λ c. At c off q) (sym a.1) (At-behind (bytes_of r) x)

  -- After a kvraw_append that succeeds, a lookup at the offset that it returned gives the key, the value
  -- and the link that were appended, as far as there is space for them, and a lookup of any record that
  -- was there before gives what it gave; a lookup that fails does so because a read of the log fails.
  pub kvraw_append-kvraw_lookup :
      (kvraw kvraw' : Kvraw fs) (key val : CString) (prev key_len val_len : ℕ)
      → IsLog fs content kvraw
      → kvraw.size < 2 ^ 63
      → kvraw'.size < 2 ^ 63
      → InRange (meta_of (record { prev = prev; key = key; val = val }))
      → kvraw_append fs kvraw key val prev ≡ (true, kvraw')
      → Ends fs content
          (kvraw_lookup fs kvraw' key_len val_len kvraw.size)
          (found_of (record { prev = prev; key = key; val = val }) key_len val_len)
        × ((off : ℕ) (q : Record)
            → At (content kvraw.log) off q
            → Ends fs content
                (kvraw_lookup fs kvraw' key_len val_len off)
                (found_of q key_len val_len))
  kvraw_append-kvraw_lookup kvraw kvraw' key val prev key_len val_len h small small' range e =
      let r : Record = record { prev = prev; key = key; val = val } in
      let a =
        subst (Appended fs content laws kvraw r) e
          (kvraw_append-Appended fs content laws kvraw key val prev h small range) in
      (
        kvraw_lookup-Ends fs content laws kvraw' a.0 small' kvraw.size r
            (Appended-At kvraw kvraw' r h range a) key_len val_len,
        λ off q x.
            kvraw_lookup-Ends fs content laws kvraw' a.0 small' off q
              (Appended-keeps kvraw kvraw' r q off a x) key_len val_len,
      )
