-- ===== src/Selftest/Tests.antt =====
-- Tests and witnesses for the tests of p4/main.c, on a log file system in memory.
use operating_systems_cs.Common.{
  ℕ, ◌+◌, ◌^◌, ◌<◌, ◌≤◌, ◌≢◌, Bool, true, some, [], ◌∷◌, ◌≡◌, ◌⊎◌, inl, inr, refl, sym, ap, ◌∙◌,
  arith,
}
use operating_systems_cs.Common.Digits.{digits}
use operating_systems_cs.Common.Text.{CString, advance, first_bytes}
use operating_systems_cs.Kvraw.Tests.{memory, all_bytes, memory-IsLogfs}
use operating_systems_cs.Kvdb.Exact.{IsReliable}
use operating_systems_cs.Selftest.{version, basic_logic, heavy_rewrite}
use operating_systems_cs.Selftest.Basic.{basic_logic-passes}
use operating_systems_cs.Selftest.Rewrite.{heavy_rewrite-passes}
use operating_systems_cs.Index.{key_of}
use operating_systems_cs.Index.Tests.{program}
use operating_systems_cs.Selftest.Random.{
  Rand, object_hash, object_len, filled, overlay, object_key, read_write,
}
use operating_systems_cs.Selftest.Filled.{IsPlan, read_write-passes}

abbrev plenty : ℕ → Bool
plenty n = true

memory-IsReliable : IsReliable memory all_bytes plenty
memory-IsReliable = record {
  appends = λ log bytes. refl;
  reads = λ log off len l e. absurd (cc e);
  memory = λ n. refl;
}

version_test : version 9875 ≡ 118 ∷ 57 ∷ 56 ∷ 55 ∷ 53 ∷ 0 ∷ []
unfolding version digits
version_test = refl

basic_logic-passes_example : basic_logic memory plenty (some []) 7 ≡ true
basic_logic-passes_example =
    basic_logic-passes memory all_bytes memory-IsLogfs plenty memory-IsReliable [] 7 refl
      (omega arith)

heavy_rewrite-passes_example : heavy_rewrite memory plenty (some []) 7 ≡ true
heavy_rewrite-passes_example =
    heavy_rewrite-passes memory all_bytes memory-IsLogfs plenty memory-IsReliable [] 7 refl
      (omega arith)

-- A generator that counts from its seed.
abbrev counting : Rand
counting = record { State = ℕ; srand = λ seed. seed; rand = λ n. (n, n + 1) }

abbrev first_key : CString
first_key =
    101 ∷ 101 ∷ 101 ∷ 101 ∷ 107 ∷ 48 ∷ 101 ∷ 101 ∷ 101 ∷ 101 ∷ 101 ∷ 101 ∷ 101 ∷ 101 ∷ 101 ∷ 101
    ∷ 101 ∷ 101 ∷ 101 ∷ 101 ∷ []

abbrev second_key : CString
second_key =
    102 ∷ 102 ∷ 107 ∷ 49 ∷ 102 ∷ 102 ∷ 102 ∷ 102 ∷ 102 ∷ 102 ∷ 102 ∷ 102 ∷ 102 ∷ 102 ∷ 102 ∷ 102
    ∷ 102 ∷ 102 ∷ []

first_key_test : object_key counting 23 0 ≡ first_key
unfolding object_key object_len object_hash filled overlay digits advance first_bytes
first_key_test = refl

second_key_test : object_key counting 23 1 ≡ second_key
unfolding object_key object_len object_hash filled overlay digits advance first_bytes
second_key_test = refl

first_low : key_of first_key + 2 ^ 49 ≤ 2 ^ 64
unfolding program
first_low = omega arith

second_low : key_of second_key + 2 ^ 49 ≤ 2 ^ 64
unfolding program
second_low = omega arith

keys_unequal : first_key ≢ second_key
keys_unequal e = absurd (cc e)

zero_or_one : (i : ℕ) → i < 2 → (i ≡ 0) ⊎ (i ≡ 1)
zero_or_one i h = omega (arith, h)

two_apart :
    (f : ℕ → CString)
    → f 0 ≡ first_key
    → f 1 ≡ second_key
    → (i j : ℕ) → i < 2
    → j < 2
    → i ≢ j
    → f i ≢ f j
two_apart f a b i j h l ne e = elim (zero_or_one i h) [
  | inl p ↦ elim (zero_or_one j l) [
    | inl q ↦ ne (p ∙ sym q)
    | inr q ↦ keys_unequal (sym a ∙ ap f (sym p) ∙ e ∙ ap f q ∙ b)
  ]
  | inr p ↦ elim (zero_or_one j l) [
    | inl q ↦ keys_unequal (sym a ∙ ap f (sym q) ∙ sym e ∙ ap f p ∙ b)
    | inr q ↦ ne (p ∙ sym q)
  ]
]

two_low :
    (f : ℕ → CString)
    → f 0 ≡ first_key
    → f 1 ≡ second_key
    → (i : ℕ) → i < 2
    → key_of (f i) + 2 ^ 49 ≤ 2 ^ 64
two_low f a b i h = elim (zero_or_one i h) [
  | inl p ↦ rw (p, a) first_low
  | inr p ↦ rw (p, b) second_low
]

two_objects : IsPlan counting 2 23 23
two_objects = record {
  few = omega arith;
  key_low = omega arith;
  key_high = omega arith;
  val_low = omega arith;
  val_high = omega arith;
  distinct = two_apart (object_key counting 23) first_key_test second_key_test;
  hashes = two_low (object_key counting 23) first_key_test second_key_test;
}

read_write-passes_example : read_write counting memory plenty 2 23 23 5 (some []) 7 ≡ true
read_write-passes_example =
    read_write-passes counting 2 23 23 two_objects memory all_bytes memory-IsLogfs plenty
      memory-IsReliable 5 [] 7 (omega arith) refl (omega arith)
