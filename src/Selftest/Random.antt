-- ===== src/Selftest/Random.antt =====
-- `mk_object` and `read_write` of p4/main.c. `srand` and `rand` of the C library are a parameter.
use operating_systems_cs.Common.{
  ℕ, zero, suc, ◌+◌, ◌*◌, ◌%◌, ◌^◌, ◌-◌, Bool, true, false, if◌then◌else◌, ltb, ◌&&◌, Option, none,
  some, ◌∷◌, ◌++◌, length, replicate,
}
use operating_systems_cs.Common.Digits.{decimal}
use operating_systems_cs.Common.Text.{CString, advance, first_bytes}
use operating_systems_cs.Kvraw.{Logfs}
use operating_systems_cs.Kvdb.{done, kvdb_open, kvdb_insert}
use operating_systems_cs.Selftest.{Test, ◌>>=◌, ◌>>◌, expect, counters, find}

-- The generator of the C library: `rand` gives a number and moves the state.
pub record Rand : Type 1 where
  pub State : Type 0
  pub srand : ℕ → State
  pub rand : State → ℕ × State

-- `MIN_LEN`.
abbrev pub min_len : ℕ
min_len = 16

-- `memmove` of a text into a buffer.
unfoldable pub overlay : ℕ → CString → CString → CString
overlay pos text bytes = first_bytes pos bytes ++ (text ++ advance (pos + length text) bytes)

-- A buffer of `len` bytes of the hash, with the text at its last 16 bytes.
unfoldable pub filled : ℕ → CString → ℕ → CString
filled h text len = overlay (len - min_len) text (replicate len (h % 256))

unfoldable pub object_len : ℕ → ℕ → ℕ
object_len h len = min_len + h % (len - min_len)

module _ (lib : Rand) where
  -- The hash and the state behind it, with the two numbers taken from left to right.
  unfoldable pub object_hash : ℕ → ℕ × lib.State
  object_hash i =
      let a = lib.rand (lib.srand ((i + 100) % 2 ^ 32)) in
      let b = lib.rand a.1 in ((a.0 * 2 ^ 32 + b.0) % 2 ^ 64, b.1)

  unfoldable pub object_key : ℕ → ℕ → CString
  object_key key_len i =
      let h = (object_hash i).0 in filled h (107 ∷ decimal i) (object_len h key_len)

  unfoldable pub object_val : ℕ → ℕ → ℕ → CString
  object_val val_len code i =
      let h = (object_hash i).0 in filled h (code ∷ decimal i) (object_len h val_len)

  -- The key, the value and the state of the generator, or `none` where `safe_sprintf` exits.
  unfoldable pub mk_object : ℕ → ℕ → ℕ → ℕ → Option ((CString × CString) × lib.State)
  mk_object key_len val_len i code =
      if ltb (length (107 ∷ decimal i)) min_len && ltb (length (code ∷ decimal i)) min_len
      then some ((object_key key_len i, object_val val_len code i), (object_hash i).1)
      else none

  module _ (fs : Logfs) (room : ℕ → Bool) where
    unfoldable pub made : ℕ → ℕ → ℕ → Test fs ((CString × CString) × lib.State)
    made key_len val_len i db = elim (mk_object key_len val_len i 105) [
      | none ↦ none
      | some o ↦ some (o, db)
    ]

    -- The loop of the insertions, with the rounds left; the result is the state of the generator.
    unfoldable pub insert_steps : ℕ → ℕ → ℕ → ℕ → lib.State → Test fs lib.State
    insert_steps zero key_len val_len i s = λ db. some (s, db)
    insert_steps (suc left) key_len val_len i s = do
      o ← made key_len val_len i
      expect done (λ db. kvdb_insert fs room db o.0.0 o.0.1)
      m ← find fs room o.0.0 val_len o.0.1
      counters (i + 1) 0
      insert_steps left key_len val_len (i + 1) o.1

    -- The loop of the lookups among `n` objects, with the rounds left.
    unfoldable pub lookup_steps : ℕ → ℕ → ℕ → ℕ → lib.State → Test fs (Unit {0})
    lookup_steps zero n key_len val_len s = λ db. some (tt, db)
    lookup_steps (suc left) n key_len val_len s = do
      o ← made key_len val_len ((lib.rand s).0 % n)
      m ← find fs room o.0.0 val_len o.0.1
      counters n 0
      lookup_steps left n key_len val_len o.1

    -- True for the returned 0. The generator starts in the state `s`.
    unfoldable pub read_write : ℕ → ℕ → ℕ → lib.State → Option fs.Log → ℕ → Bool
    read_write n key_len val_len s opened garbage = elim (kvdb_open fs room opened garbage) [
      | none ↦ false
      | some db ↦
          if room key_len && (room val_len && room val_len)
          then elim ((insert_steps n key_len val_len 0 s >>= λ s'.
                lookup_steps n n key_len val_len s')
              db) [ none ↦ false | some r ↦ true ]
          else false
    ]
