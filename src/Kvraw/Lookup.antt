-- ===== src/Kvraw/Lookup.antt =====
-- Lookups in the record log of p4/kvraw.c at the offset of a record.
use mathlib.Core.List.{append_assoc}
use operating_systems_cs.Common.{
  ℕ, ◌+◌, ◌%◌, ◌^◌, ◌<◌, ◌≤◌, min, false, ltb, Option, none, some, ◌>>=◌, Option-cases, ◌++◌,
  length, length-append, ◌≡◌, refl, sym, ap, ◌∙◌, ◌⊎◌, inl, inr, arith,
}
use operating_systems_cs.Common.Text.{CString, advance, first_bytes}
use operating_systems_cs.Common.Slices.{first_bytes_all, first_bytes-append, advance-append}
use operating_systems_cs.Kvraw.{
  Logfs, meta_len, encode, decode, Kvraw, Found, checked, read_meta, kvraw_lookup,
}
use operating_systems_cs.Kvraw.Header.{length-encode, decode-encode}
use operating_systems_cs.Kvraw.Append.{
  Record, meta_of, bytes_of, length-bytes_of, At, IsLogfs, IsLog,
}

-- A read of the log file system inside of its log fails at some point.
abbrev pub ReadFails : (fs : Logfs) → (fs.Log → CString) → Type 0
ReadFails fs content =
    (log : fs.Log) × (off : ℕ) × (len : ℕ) × (off + len ≤ length (content log))
    × (fs.logfs_read log off len ≡ none)

-- A partial result is the given one, or a read fails.
abbrev pub Ends : {A : Type 0} (fs : Logfs) → (fs.Log → CString) → Option A → A → Type 0
Ends fs content o a = (o ≡ some a) ⊎ (o ≡ none) × ReadFails fs content

pub Ends-bind :
    {A B : Type 0} (fs : Logfs) (content : fs.Log → CString) (o : Option A) (f : A → Option B)
    (a : A) (b : B)
    → Ends fs content o a
    → Ends fs content (f a) b
    → Ends fs content (o >>= f) b
Ends-bind fs content o f a b (inl e) y = rw e y
Ends-bind fs content o f a b (inr (e, bad)) y = inr (rw e refl, bad)

not_less : (a b : ℕ) → b ≤ a → ltb a b ≡ false
not_less a b h = ground arith

slice_lem :
    (n off : ℕ) (content before x after : CString)
    → content ≡ before ++ (x ++ after)
    → length before ≡ off
    → n ≤ length x
    → first_bytes n (advance off content) ≡ first_bytes n x
slice_lem n off content before x after e p h =
    ap (λ c. first_bytes n (advance off c)) e
    ∙ ap (first_bytes n) (advance-append off before (x ++ after) p)
    ∙ first_bytes-append n x after h

At-le :
    (content : CString) (off : ℕ) (r : Record)
    → At content off r
    → off + 16 + length r.key + length r.val ≤ length content
At-le content off r x = omega (
  arith,
  ap length x.split,
  length-append x.before (bytes_of r ++ x.after),
  length-append (bytes_of r) x.after,
  length-bytes_of r,
  x.place,
)

-- The lookup of a record with the given space for its key and its value.
abbrev pub found_of : Record → ℕ → ℕ → Found
found_of r key_len val_len = record {
  key = first_bytes (min (length r.key) key_len) r.key;
  val = first_bytes (min (length r.val) val_len) r.val;
  key_len = length r.key;
  val_len = length r.val;
  off = r.prev;
}

module _ (fs : Logfs) (content : fs.Log → CString) (laws : IsLogfs fs content) (kvraw : Kvraw fs)
    (h : IsLog fs content kvraw) (small : kvraw.size < 2 ^ 63) (off : ℕ) (r : Record)
    (x : At (content kvraw.log) off r) where
  -- A read in the record gives its bytes, or fails.
  read_piece :
      (before piece after : CString) (o n : ℕ)
      → content kvraw.log ≡ before ++ (piece ++ after)
      → length before ≡ o
      → n ≤ length piece
      → Ends fs content (fs.logfs_read kvraw.log o n) (first_bytes n piece)
  read_piece before piece after o n e p l =
      let inside : o + n ≤ length (content kvraw.log) = omega (
        arith,
        ap length e,
        length-append before (piece ++ after),
        length-append piece after,
        p,
        l,
      ) in
      elim (Option-cases (fs.logfs_read kvraw.log o n)) [
        | inl bad ↦ inr (bad, (kvraw.log, o, n, inside, bad))
        | inr (bytes, good) ↦ inl (
            good
            ∙ ap some (
                laws.reads kvraw.log o n bytes inside good
                ∙ slice_lem n o (content kvraw.log) before piece after e p l))
      ]

  bound : off + 16 + length r.key + length r.val ≤ kvraw.size
  bound = omega (arith, At-le (content kvraw.log) off r x, h.sized)

  checked_lem : checked fs kvraw off (meta_of r) ≡ some (meta_of r)
  unfolding checked
  checked_lem =
      rw
        (not_less kvraw.size ((off + 16 + length r.key + length r.val) % 2 ^ 64)
          (omega (arith, bound, small)))
        refl

  read_meta_lem : Ends fs content (read_meta fs kvraw off) (meta_of r)
  unfolding read_meta
  read_meta_lem =
      let header =
        read_piece x.before (encode (meta_of r)) ((r.key ++ r.val) ++ x.after) off meta_len
          (x.split
            ∙ ap (λ c. x.before ++ c) (append_assoc (encode (meta_of r)) (r.key ++ r.val) x.after))
          x.place (omega (arith, length-encode (meta_of r))) in
      rw (not_less kvraw.size ((off + 16) % 2 ^ 64) (omega (arith, bound, small)), read_meta)
        (Ends-bind fs content _ _ _ (meta_of r) header (
          inl (
            ap (λ b. checked fs kvraw off (decode b))
              (first_bytes_all meta_len (encode (meta_of r))
                (omega (arith, length-encode (meta_of r))))
            ∙ ap (checked fs kvraw off) (decode-encode (meta_of r) x.range)
            ∙ checked_lem)))

  key_split : content kvraw.log ≡ (x.before ++ encode (meta_of r)) ++ (r.key ++ (r.val ++ x.after))
  key_split =
      x.split
      ∙ ap (λ c. x.before ++ c) (append_assoc (encode (meta_of r)) (r.key ++ r.val) x.after)
      ∙ ap (λ c. x.before ++ (encode (meta_of r) ++ c)) (append_assoc r.key r.val x.after)
      ∙ sym (append_assoc x.before (encode (meta_of r)) (r.key ++ (r.val ++ x.after)))

  val_split : content kvraw.log ≡ ((x.before ++ encode (meta_of r)) ++ r.key) ++ (r.val ++ x.after)
  val_split =
      key_split ∙ sym (append_assoc (x.before ++ encode (meta_of r)) r.key (r.val ++ x.after))

  -- A lookup at the offset of a record gives its bytes, lengths and link, or a read fails.
  pub kvraw_lookup-Ends :
      (key_len val_len : ℕ)
      → Ends fs content (kvraw_lookup fs kvraw key_len val_len off) (found_of r key_len val_len)
  unfolding kvraw_lookup
  kvraw_lookup-Ends key_len val_len =
      let head = length-append x.before (encode (meta_of r)) in
      Ends-bind fs content _ _ (meta_of r) _ read_meta_lem (
        Ends-bind fs content _ _ _ _
          (read_piece (x.before ++ encode (meta_of r)) r.key (r.val ++ x.after) _
            (min (length r.key) key_len) key_split
            (omega (arith, head, x.place, length-encode (meta_of r), bound, small)) (omega arith))
          (Ends-bind fs content _ _ _ _
            (read_piece ((x.before ++ encode (meta_of r)) ++ r.key) r.val x.after _
              (min (length r.val) val_len) val_split
              (omega (
                arith,
                head,
                length-append (x.before ++ encode (meta_of r)) r.key,
                x.place,
                length-encode (meta_of r),
                bound,
                small,
              ))
              (omega arith))
            (inl refl)))
