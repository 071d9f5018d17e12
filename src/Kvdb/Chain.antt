-- ===== src/Kvdb/Chain.antt =====
-- `chain_lookup` of p4/kvdb.c on a chain of records.
use operating_systems_cs.Common.{
  ℕ, zero, suc, ◌^◌, ◌<◌, ◌≤◌, min, Bool, true, false, Bool-cases, if◌then◌else◌, ltb, ◌==◌, ==_iff,
  ne→==, none, some, List, [], ◌∷◌, length, ◌≡◌, ◌≢◌, refl, ap, subst, ◌⊎◌, inl, inr, arith,
}
use operating_systems_cs.Common.Text.{CString, first_bytes}
use operating_systems_cs.Common.Slices.{first_bytes_all}
use operating_systems_cs.Kvraw.{Logfs, Kvraw, Found}
use operating_systems_cs.Kvraw.Append.{Record, At, IsLogfs, IsLog}
use operating_systems_cs.Kvraw.Lookup.{ReadFails, found_of, kvraw_lookup-Ends}
use operating_systems_cs.Kvdb.{
  same_bytes, Chained, ended, failed, buf_size, pointer_size, full_key, mismatch, chain_loop,
}

-- The records of a chain from an offset on; each links to an earlier one, and the last one to 0.
abbrev pub Chain : CString → ℕ → List Record → Type 0
Chain content off [] = off ≡ 0
Chain content off (r ∷ rs) = (off ≢ 0) × At content off r × (r.prev < off) × Chain content r.prev rs

pub same_bytes_refl : (s : CString) → same_bytes s s ≡ true
unfolding same_bytes
same_bytes_refl [] = refl
same_bytes_refl (a ∷ s) = ground (arith, same_bytes_refl s)

pub eq_of_same_bytes : (s t : CString) → same_bytes s t ≡ true → s ≡ t
unfolding same_bytes
eq_of_same_bytes [] [] h = refl
eq_of_same_bytes [] (b ∷ t) h = cc
eq_of_same_bytes (a ∷ s) [] h = cc
eq_of_same_bytes (a ∷ s) (b ∷ t) h = ground (arith, eq_of_same_bytes s t)

-- Where the search for a key ends, on the records of the chain.
unfoldable pub located : CString → ℕ → ℕ → CString → List Record → Chained
located key val_len off val [] = ended 0 val_len val
located key val_len off val (r ∷ rs) =
    let bytes = first_bytes (min (length r.val) val_len) r.val in
    let rest = located key val_len r.prev bytes rs in
    if same_bytes r.key key then ended off (length r.val) bytes else rest

-- The reasons of a lookup to fail: a read of the log, or no memory for a long key.
abbrev pub LookupFails : (fs : Logfs) → (fs.Log → CString) → (ℕ → Bool) → Type 0
LookupFails fs content room = ReadFails fs content ⊎ (n : ℕ) × (room n ≡ false)

first_bytes-first_bytes :
    (m n : ℕ) (s : CString) → m ≤ n → first_bytes m (first_bytes n s) ≡ first_bytes m s
unfolding first_bytes
first_bytes-first_bytes zero n s h = refl
first_bytes-first_bytes (suc m) zero s h = absurd (omega arith)
first_bytes-first_bytes (suc m) (suc n) [] h = refl
first_bytes-first_bytes (suc m) (suc n) (c ∷ s) h =
    ap (λ t. c ∷ t) (first_bytes-first_bytes m n s (omega arith))

mismatch_same :
    (r : Record) (val_len : ℕ)
    → mismatch r.key (found_of r (min (length r.key) buf_size) val_len) ≡ false
unfolding mismatch
mismatch_same r val_len =
    let n = length r.key in
    rw
      (
        (==_iff n n).1 refl,
        first_bytes-first_bytes (min n pointer_size) (min n (min n buf_size)) r.key (omega arith),
        same_bytes_refl (first_bytes (min n pointer_size) r.key),
      )
      refl

mismatch-length : (key : CString) (f : Found) → mismatch key f ≡ false → f.key_len ≡ length key
unfolding mismatch
mismatch-length key f h = elim (Bool-cases (f.key_len == length key)) [
  | inl e ↦ (==_iff _ _).0 e
  | inr e ↦ absurd (wrong (rw e at h))
]
  where
    wrong : true ≡ false → ⊥
    wrong e = cc

module _ (fs : Logfs) (content : fs.Log → CString) (laws : IsLogfs fs content) (room : ℕ → Bool)
    (kvraw : Kvraw fs) (h : IsLog fs content kvraw) (small : kvraw.size < 2 ^ 63) where
  full_key_lem :
      (off : ℕ) (r : Record) (n val_len : ℕ)
      → At (content kvraw.log) off r
      → length r.key ≡ n
      → (full_key fs room kvraw off (found_of r (min n buf_size) val_len) ≡ some r.key)
        ⊎ (full_key fs room kvraw off (found_of r (min n buf_size) val_len) ≡ none)
          × LookupFails fs content room
  unfolding full_key
  full_key_lem off r n val_len x e = elim (Bool-cases (ltb pointer_size (length r.key))) [
    | inr short ↦ inl (rw short (ap some (first_bytes_all _ r.key (ground (arith, short, e)))))
    | inl long ↦ elim (Bool-cases (room (length r.key))) [
      | inr full ↦ inr (rw (long, full) refl, inr (length r.key, full))
      | inl fits ↦ elim (kvraw_lookup-Ends fs content laws kvraw h small off r x (length r.key) 0) [
        | inl good ↦ inl (rw (long, fits, good) (ap some (first_bytes_all _ r.key (omega arith))))
        | inr (bad, why) ↦ inr (rw (long, fits, bad) refl, inl why)
      ]
    ]
  ]

  pub chain_loop-located :
      (n off val_len : ℕ) (key val : CString) (rs : List Record)
      → Chain (content kvraw.log) off rs
      → off < n
      → (chain_loop fs room n kvraw key val_len off val ≡ located key val_len off val rs)
        ⊎ (chain_loop fs room n kvraw key val_len off val ≡ failed) × LookupFails fs content room
  unfolding chain_loop located
  chain_loop-located zero off val_len key val rs x l = absurd (omega arith)
  chain_loop-located (suc n) off val_len key val [] x l =
      inl (rw ((==_iff off 0).1 x) (ap (λ o. ended o val_len val) x))
  chain_loop-located (suc n) off val_len key val (r ∷ rs) x l =
      let f = found_of r (min (length key) buf_size) val_len in
      let next = chain_loop-located n r.prev val_len key f.val rs x.3 (omega (arith, x.2)) in
      let start = ne→== off 0 x.0 in
      elim (kvraw_lookup-Ends fs content laws kvraw h small off r x.1 (min (length key) buf_size)
        val_len) [
          | inr (bad, why) ↦ inr (rw (start, bad) refl, inl why)
          | inl good ↦ elim (Bool-cases (same_bytes r.key key)) [
            | inl same ↦
                let e = eq_of_same_bytes r.key key same in
                let fits : mismatch key f ≡ false =
                  subst (λ k. mismatch k (found_of r (min (length k) buf_size) val_len) ≡ false) e
                    (mismatch_same r val_len) in
                elim (full_key_lem off r (length key) val_len x.1 (ap length e)) [
                  | inl full ↦ inl (rw (start, good, fits, full, same) refl)
                  | inr (bad, why) ↦ inr (rw (start, good, fits, bad) refl, why)
                ]
            | inr other ↦ elim (Bool-cases (mismatch key f)) [
              | inl apart ↦ rw (start, good, apart, other) next
              | inr fits ↦
                  elim (full_key_lem off r (length key) val_len x.1 (mismatch-length key f fits)) [
                    | inl full ↦ rw (start, good, fits, full, other) next
                    | inr (bad, why) ↦ inr (rw (start, good, fits, bad) refl, why)
                  ]
            ]
          ]
        ]
