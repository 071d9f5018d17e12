-- ===== src/Kvraw/Append.antt =====
-- Appends to the record log of p4/kvraw.c: where a record stands, and what stays where it was.
use mathlib.Core.List.{append_assoc, append-nil}
use operating_systems_cs.Common.{
  ℕ, ◌+◌, ◌%◌, ◌^◌, ◌<◌, ◌≤◌, Bool, true, false, Bool-cases, some, List, [], ◌∷◌, ◌++◌, length,
  length-append, ◌≡◌, refl, sym, ap, ◌∙◌, inl, inr, arith,
}
use operating_systems_cs.Common.Text.{CString, advance, first_bytes}
use operating_systems_cs.Common.Slices.{first_bytes_all}
use operating_systems_cs.Kvraw.{Logfs, Meta, encode, Kvraw, append_all, end_append, kvraw_append}
use operating_systems_cs.Kvraw.Header.{InRange, length-encode}

-- One record of the log: the offset of the one before it in its chain, the key and the value.
pub record Record : Type 0 where
  pub prev : ℕ
  pub key : CString
  pub val : CString

abbrev pub meta_of : Record → Meta
meta_of r = record { mark = (75, 86); off = r.prev; key_len = length r.key; val_len = length r.val }

abbrev pub bytes_of : Record → CString
bytes_of r = encode (meta_of r) ++ (r.key ++ r.val)

-- The record stands at an offset of the content.
pub record At (content : CString) (off : ℕ) (r : Record) : Type 0 where
  pub before : CString
  pub after : CString
  pub split : content ≡ before ++ (bytes_of r ++ after)
  pub place : length before ≡ off
  pub range : InRange (meta_of r)

-- The documented behaviour of the log file system, with the bytes that a log holds: an append that
-- succeeds adds its bytes at the end, and a read that succeeds gives the bytes of its range.
pub record IsLogfs (fs : Logfs) (content : fs.Log → CString) : Type 0 where
  pub appends :
      (log : fs.Log) (bytes : CString)
      → (fs.logfs_append log bytes).0 ≡ true
      → content (fs.logfs_append log bytes).1 ≡ content log ++ bytes
  pub reads :
      (log : fs.Log) (off len : ℕ) (bytes : CString)
      → off + len ≤ length (content log)
      → fs.logfs_read log off len ≡ some bytes
      → bytes ≡ first_bytes len (advance off (content log))

pub length-bytes_of : (r : Record) → length (bytes_of r) ≡ 16 + length r.key + length r.val
length-bytes_of r = omega (
  arith,
  length-append (encode (meta_of r)) (r.key ++ r.val),
  length-append r.key r.val,
  length-encode (meta_of r),
)

-- More bytes at the end leave every record where it was.
pub At-behind :
    {content : CString} {off : ℕ} {r : Record} (more : CString)
    → At content off r
    → At (content ++ more) off r
At-behind {r = r} more x = record {
  before = x.before;
  after = x.after ++ more;
  split =
      ap (λ c. c ++ more) x.split
      ∙ append_assoc x.before (bytes_of r ++ x.after) more
      ∙ ap (λ c. x.before ++ c) (append_assoc (bytes_of r) x.after more);
  place = x.place;
  range = x.range;
}

pub At-end :
    (content : CString) (r : Record)
    → InRange (meta_of r)
    → At (content ++ bytes_of r) (length content) r
At-end content r h = record {
  before = content;
  after = [];
  split = ap (λ c. content ++ c) (sym (append-nil (bytes_of r)));
  place = refl;
  range = h;
}

-- An append of the log file system fails at some point.
abbrev pub AppendFails : Logfs → Type 0
AppendFails fs = (log : fs.Log) × (bytes : CString) × ((fs.logfs_append log bytes).0 ≡ false)

-- A log of the size that the struct says.
pub record IsLog (fs : Logfs) (content : fs.Log → CString) (kvraw : Kvraw fs) : Type 0 where
  pub sized : kvraw.size ≡ length (content kvraw.log)

module _ (fs : Logfs) (content : fs.Log → CString) (laws : IsLogfs fs content) where
  concat : List CString → CString
  concat [] = []
  concat (x ∷ xs) = x ++ concat xs

  append_all-concat :
      (log : fs.Log) (xs : List CString)
      → (append_all fs log xs).0 ≡ true
      → content (append_all fs log xs).1 ≡ content log ++ concat xs
  unfolding append_all concat
  append_all-concat log [] h = sym (append-nil (content log))
  append_all-concat log (x ∷ xs) h = elim (Bool-cases (fs.logfs_append log x).0) [
    | inr bad ↦ absurd (wrong (rw bad at h))
    | inl good ↦
        let log' = (fs.logfs_append log x).1 in
        rw good (
          append_all-concat log' xs (rw good at h)
          ∙ ap (λ c. c ++ concat xs) (laws.appends log x good)
          ∙ append_assoc (content log) x (concat xs))
  ]
    where
      wrong : false ≡ true → ⊥
      wrong e = cc

  append_all_fails :
      (log : fs.Log) (xs : List CString) → (append_all fs log xs).0 ≡ false → AppendFails fs
  unfolding append_all
  append_all_fails log [] h = absurd (cc h)
  append_all_fails log (x ∷ xs) h = elim (Bool-cases (fs.logfs_append log x).0) [
    | inr bad ↦ (log, x, bad)
    | inl good ↦ append_all_fails (fs.logfs_append log x).1 xs (rw good at h)
  ]

  pub kvraw_append_fails :
      (kvraw : Kvraw fs) (key val : CString) (off : ℕ)
      → (kvraw_append fs kvraw key val off).0 ≡ false
      → AppendFails fs
  unfolding kvraw_append end_append
  kvraw_append_fails kvraw key val off h =
      let key_len = length key % 2 ^ 16 in
      let val_len = length val % 2 ^ 32 in
      let parts =
        encode (record { mark = (75, 86); off = off; key_len = key_len; val_len = val_len })
        ∷ first_bytes key_len key
        ∷ first_bytes val_len val
        ∷ [] in
      append_all_fails kvraw.log parts (by_end (append_all fs kvraw.log parts) key_len val_len h)
    where
      by_end :
          (res : Bool × fs.Log) (k v : ℕ) → (end_append fs kvraw k v res).0 ≡ false → res.0 ≡ false
      by_end (true, log) k v e = absurd (cc e)
      by_end (false, log) k v e = refl

  -- What an append does: it adds the record behind the others, or an append of the log file system
  -- fails.
  abbrev pub Appended : Kvraw fs → Record → Bool × Kvraw fs → Type 0
  Appended kvraw r (true, kvraw') =
      IsLog fs content kvraw'
      × (content kvraw'.log ≡ content kvraw.log ++ bytes_of r)
      × (kvraw'.size ≡ kvraw.size + 16 + length r.key + length r.val)
  Appended kvraw r (false, kvraw') = AppendFails fs

  end_append-Appended :
      (kvraw : Kvraw fs) (r : Record) (res : Bool × fs.Log)
      → IsLog fs content kvraw
      → kvraw.size < 2 ^ 63
      → InRange (meta_of r)
      → (res.0 ≡ true → content res.1 ≡ content kvraw.log ++ bytes_of r)
      → (res.0 ≡ false → AppendFails fs)
      → Appended kvraw r (end_append fs kvraw (length r.key) (length r.val) res)
  unfolding end_append
  end_append-Appended kvraw r (true, log) h small range good bad =
      let size : (kvraw.size + 16 + length r.key + length r.val) % 2 ^ 64
          ≡ kvraw.size + 16 + length r.key + length r.val =
        omega (arith, small, range.key_len, range.val_len) in
      (
        record {
          sized =
              size
              ∙ omega (
                arith,
                h.sized,
                length-append (content kvraw.log) (bytes_of r),
                length-bytes_of r,
                ap length (good refl),
              );
        },
        good refl,
        size,
      )
  end_append-Appended kvraw r (false, log) h small range good bad = bad refl

  pub kvraw_append-Appended :
      (kvraw : Kvraw fs) (key val : CString) (off : ℕ)
      → IsLog fs content kvraw
      → kvraw.size < 2 ^ 63
      → InRange (meta_of (record { prev = off; key = key; val = val }))
      → Appended kvraw
          (record { prev = off; key = key; val = val })
          (kvraw_append fs kvraw key val off)
  unfolding kvraw_append concat
  kvraw_append-Appended kvraw key val off h small range =
      let r : Record = record { prev = off; key = key; val = val } in
      let k : length key % 2 ^ 16 ≡ length key = omega (arith, range.key_len) in
      let v : length val % 2 ^ 32 ≡ length val = omega (arith, range.val_len) in
      let fk = first_bytes_all (length key) key (omega arith) in
      let fv = first_bytes_all (length val) val (omega arith) in
      let pieces = encode (meta_of r) ∷ key ∷ val ∷ [] in
      let all = append_all fs kvraw.log pieces in
      rw (k, v, fk, fv, kvraw_append)
        (end_append-Appended kvraw r all h small range
          (λ e.
            append_all-concat kvraw.log pieces e
            ∙ ap (λ c. content kvraw.log ++ (encode (meta_of r) ++ (key ++ c))) (append-nil val))
          (append_all_fails kvraw.log pieces))
