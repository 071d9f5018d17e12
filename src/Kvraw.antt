-- ===== src/Kvraw.antt =====
-- The record log of p4/kvraw.c: the packed record header, append and lookup. The log file system is the
-- interface that p4/logfs.h documents, and enters as a parameter: p4/logfs.c implements none of it.
pub mod Header
pub mod Append
pub mod Lookup
pub mod Roundtrip
pub mod Tests
use operating_systems_cs.Common.{
  ℕ, zero, suc, ◌+◌, ◌*◌, ◌/◌, ◌%◌, ◌^◌, Bool, true, false, if◌then◌else◌, ltb, ◌==◌, ◌&&◌, not,
  min, Option, none, some, ◌>>=◌, List, [], ◌∷◌, ◌++◌, length, get_or,
}
use operating_systems_cs.Common.Text.{CString, advance, first_bytes}

-- The calls of p4/logfs.h that kvraw.c makes: a read of some bytes at an offset, or its error, and an
-- append, which reports whether it succeeded.
pub record Logfs : Type 1 where
  pub Log : Type 0
  pub logfs_read : Log → ℕ → ℕ → Option CString
  pub logfs_append : Log → CString → Bool × Log

-- `struct meta`
pub record Meta : Type 0 where
  pub mark : ℕ × ℕ
  pub off : ℕ
  pub key_len : ℕ
  pub val_len : ℕ

-- META_LEN
abbrev pub meta_len : ℕ
meta_len = 16

-- An integer of `w` bytes in memory, the lowest byte first, and back.
unfoldable pub le_bytes : ℕ → ℕ → CString
le_bytes zero n = []
le_bytes (suc w) n = n % 256 ∷ le_bytes w (n / 256)

unfoldable pub le_value : CString → ℕ
le_value [] = 0
le_value (b ∷ bytes) = b + 256 * le_value bytes

-- The bytes of the packed header, and the header in such bytes.
unfoldable pub encode : Meta → CString
encode m =
    m.mark.0 ∷ m.mark.1 ∷ (le_bytes 8 m.off ++ (le_bytes 2 m.key_len ++ le_bytes 4 m.val_len))

unfoldable pub decode : CString → Meta
decode bytes = record {
  mark = (get_or bytes 0 0, get_or bytes 1 0);
  off = le_value (first_bytes 8 (advance 2 bytes));
  key_len = le_value (first_bytes 2 (advance 10 bytes));
  val_len = le_value (first_bytes 4 (advance 12 bytes));
}

-- `struct kvraw`
-- `sizeof (struct kvraw)` on a 64-bit target.
abbrev pub sizeof_kvraw : ℕ
sizeof_kvraw = 16

pub record Kvraw (fs : Logfs) : Type 0 where
  pub size : ℕ
  pub log : fs.Log

-- What a lookup reads: the bytes in the two buffers, the lengths of the record, and its link.
pub record Found : Type 0 where
  pub key : CString
  pub val : CString
  pub key_len : ℕ
  pub val_len : ℕ
  pub off : ℕ

module _ (fs : Logfs) where
  -- The test at the end of `read_meta`.
  unfoldable pub checked : Kvraw fs → ℕ → Meta → Option Meta
  checked kvraw off m =
      if (m.mark.0 == 75)
        && (m.mark.1 == 86)
        && not (ltb kvraw.size ((off + meta_len + m.key_len + m.val_len) % 2 ^ 64))
      then some m
      else none

  unfoldable pub read_meta : Kvraw fs → ℕ → Option Meta
  read_meta kvraw off =
      if ltb kvraw.size ((off + meta_len) % 2 ^ 64)
      then none
      else (fs.logfs_read kvraw.log off meta_len >>= λ bytes. checked kvraw off (decode bytes))

  unfoldable pub kvraw_lookup : Kvraw fs → ℕ → ℕ → ℕ → Option Found
  kvraw_lookup kvraw key_len val_len off = read_meta kvraw off >>= λ m.
      fs.logfs_read kvraw.log ((off + meta_len) % 2 ^ 64) (min m.key_len key_len) >>= λ key.
      fs.logfs_read kvraw.log ((off + meta_len + m.key_len) % 2 ^ 64) (min m.val_len val_len)
      >>= λ val.
          some
            (record { key = key; val = val; key_len = m.key_len; val_len = m.val_len; off = m.off })

  -- The appends in a chain of `||`, up to the first that fails.
  unfoldable pub append_all : fs.Log → List CString → Bool × fs.Log
  append_all log [] = (true, log)
  append_all log (bytes ∷ more) =
      let r = fs.logfs_append log bytes in
      let rest = append_all r.1 more in if r.0 then rest else (false, r.1)

  -- The end of `kvraw_append`, on what the three appends returned.
  unfoldable pub end_append : Kvraw fs → ℕ → ℕ → Bool × fs.Log → Bool × Kvraw fs
  end_append kvraw key_len val_len (true, log) =
      (true, record { size = (kvraw.size + meta_len + key_len + val_len) % 2 ^ 64; log = log })
  end_append kvraw key_len val_len (false, log) = (false, record kvraw { log = log })

  -- The status is true for 0, and then `*off` is the size that the log had.
  unfoldable pub kvraw_append : Kvraw fs → CString → CString → ℕ → Bool × Kvraw fs
  kvraw_append kvraw key val off =
      let key_len = length key % 2 ^ 16 in
      let val_len = length val % 2 ^ 32 in
      let m : Meta = record { mark = (75, 86); off = off; key_len = key_len; val_len = val_len } in
      end_append kvraw key_len val_len
        (append_all kvraw.log (encode m ∷ first_bytes key_len key ∷ first_bytes val_len val ∷ []))

  -- `kvraw_open` behind `logfs_open`, on a new log. The offset of the first record, which it does not set,
  -- is the argument `garbage`; its key and value are the closing 0 of the empty string.
  unfoldable pub new_kvraw : fs.Log → ℕ → Option (Kvraw fs)
  new_kvraw log garbage =
      let r = kvraw_append (record { size = 0; log = log }) (0 ∷ []) (0 ∷ []) garbage in
      if r.0 then some r.1 else none

  -- `malloc` of the struct may fail, and `logfs_open` gives a log or not.
  unfoldable pub kvraw_open : (ℕ → Bool) → Option fs.Log → ℕ → Option (Kvraw fs)
  kvraw_open room opened garbage =
      if room sizeof_kvraw
      then elim opened [ none ↦ none | some log ↦ new_kvraw log garbage ]
      else none
