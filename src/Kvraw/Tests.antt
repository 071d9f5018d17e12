-- ===== src/Kvraw/Tests.antt =====
-- A log file system in memory, for the tests and the witnesses of p4/kvraw.c and p4/kvdb.c.
use operating_systems_cs.Common.{ℕ, true, some, [], ◌∷◌, ◌++◌, ◌≡◌, refl, sym, arith}
use operating_systems_cs.Common.Text.{CString, advance, first_bytes}
use operating_systems_cs.Kvraw.{
  Logfs, Meta, le_bytes, encode, Kvraw, kvraw_lookup, append_all, end_append, kvraw_append,
}
use operating_systems_cs.Kvraw.Append.{Record, At, IsLogfs}
use operating_systems_cs.Kvraw.Lookup.{Ends, found_of}
use operating_systems_cs.Kvraw.Roundtrip.{kvraw_append-kvraw_lookup}

abbrev pub memory : Logfs
memory = record {
  Log = CString;
  logfs_read = λ log off len. some (first_bytes len (advance off log));
  logfs_append = λ log bytes. (true, log ++ bytes);
}

abbrev pub all_bytes : CString → CString
all_bytes log = log

pub memory-IsLogfs : IsLogfs memory all_bytes
memory-IsLogfs = record {
  appends = λ log bytes h. refl;
  reads = λ log off len bytes h e. some-injective _ _ (sym e);
}
  where
    some-injective : (a b : CString) → some a ≡ some b → a ≡ b
    some-injective a b h = cc

abbrev header : Meta
header = record { mark = (75, 86); off = 300; key_len = 2; val_len = 70000 }

encode_test :
    encode header ≡ 75 ∷ 86 ∷ 44 ∷ 1 ∷ 0 ∷ 0 ∷ 0 ∷ 0 ∷ 0 ∷ 0 ∷ 2 ∷ 0 ∷ 112 ∷ 17 ∷ 1 ∷ 0 ∷ []
unfolding encode le_bytes
encode_test = refl

abbrev empty : Kvraw memory
empty = record { size = 0; log = [] }

-- The log with the record of the key `k` and the value `xy`.
abbrev one : Kvraw memory
one = record {
  size = 19;
  log = 75 ∷ 86 ∷ 0 ∷ 0 ∷ 0 ∷ 0 ∷ 0 ∷ 0 ∷ 0 ∷ 0 ∷ 1 ∷ 0 ∷ 2 ∷ 0 ∷ 0 ∷ 0 ∷ 107 ∷ 120 ∷ 121 ∷ [];
}

kvraw_append_test : kvraw_append memory empty (107 ∷ []) (120 ∷ 121 ∷ []) 0 ≡ (true, one)
unfolding kvraw_append append_all end_append encode le_bytes first_bytes
kvraw_append_test = refl

kvraw_append-kvraw_lookup_example :
    Ends memory all_bytes
      (kvraw_lookup memory one 8 8 empty.size)
      (found_of (record { prev = 0; key = 107 ∷ []; val = 120 ∷ 121 ∷ [] }) 8 8)
    × ((off : ℕ) (q : Record)
        → At (all_bytes empty.log) off q
        → Ends memory all_bytes (kvraw_lookup memory one 8 8 off) (found_of q 8 8))
kvraw_append-kvraw_lookup_example =
    kvraw_append-kvraw_lookup memory all_bytes memory-IsLogfs empty one (107 ∷ []) (120 ∷ 121 ∷ [])
      0 8 8 (record { sized = refl }) (omega arith) (omega arith)
      (record { off = omega arith; key_len = omega arith; val_len = omega arith }) kvraw_append_test
