-- ===== src/Kvraw/Header.antt =====
-- The packed header of p4/kvraw.c in bytes and back.
use operating_systems_cs.Common.{ℕ, zero, suc, ◌/◌, ◌^◌, ◌<◌, length, ◌≡◌, refl, ap, arith}
use operating_systems_cs.Common.Text.{advance, first_bytes}
use operating_systems_cs.Kvraw.{Meta, meta_len, le_bytes, le_value, encode, decode}

pub le_value-le_bytes : (w n : ℕ) → n < 256 ^ w → le_value (le_bytes w n) ≡ n
unfolding le_value le_bytes
le_value-le_bytes zero n h = omega arith
le_value-le_bytes (suc w) n h =
    let less : n / 256 < 256 ^ w = grind arith in omega (arith, le_value-le_bytes w (n / 256) less)

pub length-le_bytes : (w n : ℕ) → length (le_bytes w n) ≡ w
unfolding le_bytes
length-le_bytes zero n = refl
length-le_bytes (suc w) n = ap suc (length-le_bytes w (n / 256))

pub length-encode : (m : Meta) → length (encode m) ≡ meta_len
unfolding encode le_bytes
length-encode m = refl

-- The fields fit into their bytes.
pub record InRange (m : Meta) : Type 0 where
  pub off : m.off < 2 ^ 64
  pub key_len : m.key_len < 2 ^ 16
  pub val_len : m.val_len < 2 ^ 32

-- A header whose fields fit into their bytes is read back as it was written.
pub decode-encode : (m : Meta) → InRange m → decode (encode m) ≡ m
unfolding decode encode advance first_bytes le_bytes le_value
decode-encode m h =
    let o = le_value-le_bytes 8 m.off h.off in
    let k = le_value-le_bytes 2 m.key_len h.key_len in
    let v = le_value-le_bytes 4 m.val_len h.val_len in
    λ i. record { mark = m.mark; off = o i; key_len = k i; val_len = v i }
