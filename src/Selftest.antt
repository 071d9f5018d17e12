-- ===== src/Selftest.antt =====
-- The tests of p4/main.c, which drive a database of p4/kvdb.c: a test that returns -1, or exits, is `none`.
-- What is printed and the closing of the database are left out.
pub mod Steps
pub mod Basic
pub mod Rewrite
pub mod Random
pub mod Objects
pub mod Filled
pub mod Tests
use operating_systems_cs.Common.{
  ℕ, zero, suc, ◌+◌, ◌*◌, ◌/◌, ◌%◌, ◌^◌, ◌-◌, Bool, true, false, if◌then◌else◌, ltb, ◌==◌, ◌&&◌,
  Option, none, some, List, [], ◌∷◌, ◌++◌, length, replicate,
}
use operating_systems_cs.Common.Text.{CString, advance, first_bytes}
use operating_systems_cs.Common.Digits.{decimal}
use operating_systems_cs.Kvraw.{Logfs}
use operating_systems_cs.Kvdb.{
  Kvdb, same_bytes, Status, done, refused, failed, exited, stuck, kvdb_size, kvdb_waste, kvdb_open,
  kvdb_insert, kvdb_update, kvdb_replace, kvdb_remove, kvdb_lookup,
}

-- The steps of a test: each goes on with the database, or the test returns -1.
abbrev pub Test : Logfs → Type 0 → Type 0
Test fs A = Kvdb fs → Option (A × Kvdb fs)

infixl 5 ◌>>=◌ ◌>>◌
abbrev pub ◌>>=◌ : {fs : Logfs} {A B : Type 0} → Test fs A → (A → Test fs B) → Test fs B
◌>>=◌ m f db = elim (m db) [ none ↦ none | some (a, db') ↦ f a db' ]

abbrev pub ◌>>◌ : {fs : Logfs} {B : Type 0} → Test fs (Unit {0}) → Test fs B → Test fs B
m >> k = m >>= λ _. k

unfoldable pub same_status : Status → Status → Bool
same_status done done = true
same_status refused refused = true
same_status failed failed = true
same_status _ _ = false

-- `KEY` and `VAL1` to `VAL3` with their closing 0, as `SLEN` counts it.
abbrev pub key : CString
key = 75 ∷ 69 ∷ 89 ∷ 0 ∷ []

abbrev pub val1 : CString
val1 = 86 ∷ 65 ∷ 76 ∷ 0 ∷ []

abbrev pub val2 : CString
val2 = 118 ∷ 97 ∷ 108 ∷ 50 ∷ 0 ∷ []

abbrev pub val3 : CString
val3 = 118 ∷ 97 ∷ 108 ∷ 50 ∷ 86 ∷ 65 ∷ 76 ∷ 0 ∷ []

-- The value of a round of `heavy_rewrite`.
pub version : ℕ → CString
version i = 118 ∷ (decimal i ++ 0 ∷ [])

-- `n` in `heavy_rewrite`.
abbrev pub heavy_rounds : ℕ
heavy_rounds = 9876

module _ {fs : Logfs} where
  pub check : (Kvdb fs → Bool) → Test fs (Unit {0})
  check test db = if test db then some (tt, db) else none

  -- A call and the status that it must have.
  pub expect : Status → (Kvdb fs → Status × Kvdb fs) → Test fs (Unit {0})
  expect status call db = let r = call db in if same_status r.0 status then some (tt, r.1) else none

  pub counters : ℕ → ℕ → Test fs (Unit {0})
  counters size waste = check (λ db. (kvdb_size db == size) && (kvdb_waste db == waste))

module _ (fs : Logfs) (room : ℕ → Bool) where
  -- A lookup that must return +1.
  pub missing : CString → ℕ → Test fs (Unit {0})
  missing k n = check (λ db. same_status (kvdb_lookup fs room db k n).0 refused)

  -- A value of the given length, in the bytes that a call has left: `SLEN(VAL) != val_len` and `memcmp`.
  abbrev pub is_value : CString → ℕ × CString → Bool
  is_value val out = (length val == out.0) && same_bytes val out.1

  -- A lookup with room for `n` bytes that must find a value; the result is the length.
  pub find : CString → ℕ → CString → Test fs ℕ
  find k n val db =
      let r = kvdb_lookup fs room db k n in
      if same_status r.0 done && is_value val r.1 then some (r.1.0, db) else none

  -- `kvdb_remove` with room for `n` bytes, which must give the old value.
  pub take_out : CString → ℕ → CString → Test fs ℕ
  take_out k n val db =
      let r = kvdb_remove fs room db k n in
      if same_status r.0 done && is_value val r.2 then some (r.2.0, r.1) else none

  -- The blocks of `basic_logic` that write a value, look it up, try to insert it again and look it up.
  pub write_twice : (Kvdb fs → Status × Kvdb fs) → CString → ℕ → ℕ → Test fs (Unit {0})
  write_twice call val size waste = do
    expect done call
    n ← find key 32 val
    expect refused (λ db. kvdb_insert fs room db key val)
    m ← find key n val
    counters size waste

  -- The lookups and the replacement of a key that is not there.
  pub invalid_steps : Test fs (Unit {0})
  invalid_steps = do
    missing key 0
    missing key 0
    missing key 0
    counters 0 0
    expect refused (λ db. kvdb_replace fs room db key val1)
    counters 0 0

  -- The last lookup, and the removal.
  pub removal_steps : Test fs (Unit {0})
  removal_steps = do
    n ← find key 32 val3
    counters 1 2
    m ← take_out key 32 val3
    missing key m
    counters 0 3

  pub basic_steps : Test fs (Unit {0})
  basic_steps = do
    counters 0 0
    invalid_steps
    write_twice (λ db. kvdb_insert fs room db key val1) val1 1 0
    write_twice (λ db. kvdb_replace fs room db key val2) val2 1 1
    write_twice (λ db. kvdb_update fs room db key val3) val3 1 2
    removal_steps

  -- The loop of `heavy_rewrite` with `n` rounds left.
  pub rewrite_steps : ℕ → ℕ → Test fs (Unit {0})
  rewrite_steps zero i = λ db. some (tt, db)
  rewrite_steps (suc n) i = do
    expect done (λ db. kvdb_update fs room db key (version i))
    m ← find key 64 (version i)
    counters 1 i
    rewrite_steps n (i + 1)

  -- A test on a new database, where logfs_open gives a log or not; true for the returned 0, false for -1.
  pub on_new : Test fs (Unit {0}) → Option fs.Log → ℕ → Bool
  on_new test opened garbage = elim (kvdb_open fs room opened garbage) [
    | none ↦ false
    | some db ↦ elim (test db) [ none ↦ false | some r ↦ true ]
  ]

  pub basic_logic : Option fs.Log → ℕ → Bool
  basic_logic opened garbage = on_new basic_steps opened garbage

  pub heavy_rewrite : Option fs.Log → ℕ → Bool
  heavy_rewrite opened garbage = on_new (rewrite_steps heavy_rounds 0) opened garbage
