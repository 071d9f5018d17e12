-- ===== src/Selftest/Objects.antt =====
-- The keys and values of `mk_object` of p4/main.c: their lengths, and when they are made.
use native.Mathlib.Nat.{mod-lt}
use operating_systems_cs.Common.{
  ℕ, ◌+◌, ◌-◌, ◌%◌, ◌^◌, ◌<◌, ◌≤◌, true, lt→ltb, some, [], ◌∷◌, ◌++◌, length, length-append,
  length-replicate, replicate, ◌≡◌, refl, ◌∙◌, arith,
}
use operating_systems_cs.Common.Text.{CString, advance, first_bytes}
use operating_systems_cs.Common.Slices.{length-first_bytes, length-advance}
use operating_systems_cs.Kvdb.Store.{is_present}
use operating_systems_cs.Common.Digits.{decimal, digits_short}
use operating_systems_cs.Selftest.Random.{
  Rand, min_len, overlay, filled, object_len, object_hash, object_key, object_val, mk_object,
}

length-overlay :
    (pos : ℕ) (text bytes : CString)
    → pos + length text ≤ length bytes
    → length (overlay pos text bytes) ≡ length bytes
unfolding overlay
length-overlay pos text bytes h = omega (
  arith,
  length-append (first_bytes pos bytes) (text ++ advance (pos + length text) bytes),
  length-append text (advance (pos + length text) bytes),
  length-first_bytes pos bytes (omega (arith, h)),
  length-advance (pos + length text) bytes h,
)

length-filled :
    (h : ℕ) (text : CString) (len : ℕ)
    → min_len ≤ len
    → length text ≤ min_len
    → length (filled h text len) ≡ len
unfolding filled
length-filled h text len l t =
    length-overlay (len - min_len) text (replicate len (h % 256))
      (omega (arith, length-replicate len (h % 256), l, t))
    ∙ length-replicate len (h % 256)

object_len_bounds :
    (h len : ℕ) → min_len < len → (min_len ≤ object_len h len) × (object_len h len < len)
unfolding object_len
object_len_bounds h len l =
    (omega arith, (let r = mod-lt h {m = len - min_len} (omega (arith, l)) in omega (arith, r)))

present_of : (v : CString) → 0 < length v → is_present v ≡ true
present_of [] h = absurd (omega (arith, h))
present_of (b ∷ v) h = refl

-- The texts of an object, a letter and the digits of its number.
module _ (letter i : ℕ) (few : i < 10 ^ 14) where
  pub text_fits : length (letter ∷ decimal i) < min_len
  text_fits = omega (arith, digits_short 13 20 i few)

module _ (lib : Rand) (len i : ℕ) (few : i < 10 ^ 14) (long : min_len < len) where
  pub object_val-Sized :
      (code : ℕ)
      → (min_len ≤ length (object_val lib len code i))
        × (length (object_val lib len code i) < len)
        × (is_present (object_val lib len code i) ≡ true)
  unfolding object_val
  object_val-Sized code =
      let h = (object_hash lib i).0 in
      let (least, most) = object_len_bounds h len long in
      let n =
        length-filled h (code ∷ decimal i) (object_len h len) least
          (omega (arith, text_fits code i few)) in
      (
        omega (arith, n, least),
        omega (arith, n, most),
        present_of (object_val lib len code i) (omega (arith, n, least)),
      )

  pub length-object_key : length (object_key lib len i) < len
  unfolding object_key
  length-object_key =
      let h = (object_hash lib i).0 in
      let (least, most) = object_len_bounds h len long in
      let n =
        length-filled h (107 ∷ decimal i) (object_len h len) least
          (omega (arith, text_fits 107 i few)) in
      omega (arith, n, most)

pub mk_object_lem :
    (lib : Rand) (key_len val_len i code : ℕ)
    → i < 10 ^ 14
    → mk_object lib key_len val_len i code
      ≡ some ((object_key lib key_len i, object_val lib val_len code i), (object_hash lib i).1)
unfolding mk_object
mk_object_lem lib key_len val_len i code few =
    rw (lt→ltb (length (107 ∷ decimal i)) min_len (text_fits 107 i few)) refl
