-- ===== src/Selftest/Filled.antt =====
-- `read_write` of p4/main.c: it passes on a log on which nothing fails, if the keys differ.
use native.Mathlib.Nat.{mod-lt}
use native.Mathlib.Numerals.{add-one}
use operating_systems_cs.Common.{
  ℕ, zero, suc, ◌+◌, ◌%◌, ◌^◌, ◌<◌, ◌≤◌, Bool, true, false, Bool-cases, some, [], length, ◌≡◌, ◌≢◌,
  ◌⊎◌, refl, sym, ap, ◌∙◌, subst, inl, inr, arith,
}
use operating_systems_cs.Common.Text.{CString}
use operating_systems_cs.Kvraw.{Logfs}
use operating_systems_cs.Kvraw.Append.{IsLogfs}
use operating_systems_cs.Index.{key_of}
use operating_systems_cs.Kvdb.{Kvdb, same_bytes, done, insert, kvdb_insert}
use operating_systems_cs.Kvdb.Chain.{eq_of_same_bytes}
use operating_systems_cs.Kvdb.Store.{is_present}
use operating_systems_cs.Kvdb.Mutate.{counted}
use operating_systems_cs.Kvdb.Calls.{forbids, new_value}
use operating_systems_cs.Kvdb.Exact.{
  IsReliable, IsUsual, Stands, assign, assign_same, assign_other, kvdb_open-Stands,
}
use operating_systems_cs.Selftest.{◌>>=◌, expect, counters, find}
use operating_systems_cs.Selftest.Random.{
  Rand, min_len, object_hash, object_key, object_val, made, insert_steps, lookup_steps, read_write,
}
use operating_systems_cs.Selftest.Objects.{object_val-Sized, length-object_key, mk_object_lem}
use operating_systems_cs.Selftest.Steps.{Passes, counters-Passes, find-Passes, expect_done}

-- What the test needs of its numbers and of the generator: the buffers have a usual length, the keys of
-- different objects differ, and no hash of a key is near the end of the 64-bit range.
pub record IsPlan (lib : Rand) (n key_len val_len : ℕ) : Type 0 where
  pub few : n < 2 ^ 40
  pub key_low : min_len < key_len
  pub key_high : key_len < 2 ^ 16
  pub val_low : min_len < val_len
  pub val_high : val_len < 2 ^ 16
  pub distinct :
      (i j : ℕ) → i < n → j < n → i ≢ j → object_key lib key_len i ≢ object_key lib key_len j
  pub hashes : (i : ℕ) → i < n → key_of (object_key lib key_len i) + 2 ^ 49 ≤ 2 ^ 64

module _ (lib : Rand) (n key_len val_len : ℕ) (plan : IsPlan lib n key_len val_len) (fs : Logfs)
    (content : fs.Log → CString) where
  abbrev the_key : ℕ → CString
  the_key i = object_key lib key_len i

  abbrev the_val : ℕ → CString
  the_val i = object_val lib val_len 105 i

  -- A database that holds the first `i` objects, and none of the later ones.
  record Holds (i : ℕ) (db : Kvdb fs) : Type 0 where
    pub map : CString → CString
    pub stands : Stands fs content i map i 0 db
    pub old : (j : ℕ) → j < i → map (the_key j) ≡ the_val j
    pub new : (j : ℕ) → i ≤ j → j < n → map (the_key j) ≡ []

  keys_apart : (i j : ℕ) → i < n → j < n → i ≢ j → same_bytes (the_key i) (the_key j) ≡ false
  keys_apart i j a b ne = elim (Bool-cases (same_bytes (the_key i) (the_key j))) [
    | inl same ↦ absurd (plan.distinct i j a b ne (eq_of_same_bytes (the_key i) (the_key j) same))
    | inr apart ↦ apart
  ]

  -- The map with one more object.
  add_old :
      (i : ℕ) (map : CString → CString)
      → i < n
      → ((j : ℕ) → j < i → map (the_key j) ≡ the_val j)
      → (j : ℕ) → j < suc i
      → assign (the_key i) (the_val i) map (the_key j) ≡ the_val j
  add_old i map l old j h = elim (last_or_before j i h) [
    | inl last ↦
        subst (λ x. assign (the_key i) (the_val i) map (the_key x) ≡ the_val x) (sym last)
          (assign_same (the_key i) (the_val i) map)
    | inr before ↦
        assign_other (the_key i) (the_val i) (the_key j) map
          (keys_apart i j l (omega (arith, before, l)) (λ e. omega (arith, e, before)))
        ∙ old j before
  ]
    where
      last_or_before : (j i : ℕ) → j < suc i → (j ≡ i) ⊎ (j < i)
      last_or_before j i h = omega (arith, h)

  add_new :
      (i : ℕ) (map : CString → CString)
      → i < n
      → ((j : ℕ) → i ≤ j → j < n → map (the_key j) ≡ [])
      → (j : ℕ) → suc i ≤ j
      → j < n
      → assign (the_key i) (the_val i) map (the_key j) ≡ []
  add_new i map l new j h k =
      assign_other (the_key i) (the_val i) (the_key j) map
        (keys_apart i j l k (λ e. omega (arith, e, h)))
      ∙ new j (omega (arith, h)) k

  made-Passes :
      (i : ℕ) (db : Kvdb fs) (room : ℕ → Bool)
      → i < n
      → made lib fs room key_len val_len i db
        ≡ some (((the_key i, the_val i), (object_hash lib i).1), db)
  unfolding made
  made-Passes i db room l =
      rw (mk_object_lem lib key_len val_len i 105 (omega (arith, l, plan.few)), made) refl

  module _ (laws : IsLogfs fs content) (room : ℕ → Bool)
      (reliable : IsReliable fs content room) where
    found :
        (i j : ℕ) (map : CString → CString) (db : Kvdb fs)
        → Stands fs content i map i 0 db
        → i < suc n
        → j < n
        → map (the_key j) ≡ the_val j
        → Passes
            (find fs room (the_key j) val_len (the_val j))
            (λ len db'. (len ≡ length (the_val j)) × Stands fs content i map i 0 db')
            db
    found i j map db h l k here =
        let (least, most, present) =
          object_val-Sized lib val_len j (omega (arith, k, plan.few)) plan.val_low 105 in
        find-Passes fs content laws room reliable i map i 0 db h (omega (arith, l, plan.few))
          (the_key j) (the_val j) here val_len present (omega (arith, most))

    inserted :
        (i : ℕ) (db : Kvdb fs)
        → Holds i db
        → i < n
        → Passes
            (expect done (λ x. kvdb_insert fs room x (the_key i) (the_val i)))
            (λ a db'. Holds (suc i) db')
            db
    unfolding kvdb_insert forbids new_value counted
    inserted i db h l =
        let (least, most, present) =
          object_val-Sized lib val_len i (omega (arith, l, plan.few)) plan.val_low 105 in
        let usual : IsUsual (the_key i) (the_val i) = record {
          key_len = omega (
            arith,
            length-object_key lib key_len i (omega (arith, l, plan.few)) plan.key_low,
            plan.key_high,
          );
          val_len = omega (arith, most, plan.val_high);
          low = plan.hashes i l;
        } in
        let (a, db', run, s) =
          expect_done fs content laws room reliable i h.map i 0 db h.stands
            (omega (arith, l, plan.few)) (the_key i) [] (h.new i (omega arith) l) insert (the_val i)
            (λ x. kvdb_insert fs room x (the_key i) (the_val i)) refl usual refl in
        let size : (counted insert (is_present []) i 0).0 ≡ suc i = omega (arith, l, plan.few) in
        (
          a,
          db',
          run,
          record {
            map = assign (the_key i) (the_val i) h.map;
            stands =
                subst
                  (λ k. Stands fs content (suc i) (assign (the_key i) (the_val i) h.map) k 0 db')
                  size s;
            old = add_old i h.map l h.old;
            new = add_new i h.map l h.new;
          },
        )

    insert_steps-Passes :
        (left i : ℕ) (s : lib.State) (db : Kvdb fs)
        → Holds i db
        → left + i ≡ n
        → Passes (insert_steps lib fs room left key_len val_len i s) (λ s' db'. Holds n db') db
    unfolding insert_steps
    insert_steps-Passes zero i s db h e =
        (s, db, refl, subst (λ k. Holds k db) (omega (arith, e)) h)
    insert_steps-Passes (suc left) i s db h e =
        let l : i < n = omega (arith, e) in
        let run = made-Passes i db room l in
        let (a1, db1, e1, h1) = inserted i db h l in
        let (len, db2, e2, h2) =
          found (suc i) i h1.map db1 h1.stands (omega (arith, l)) l (h1.old i (omega arith)) in
        let (a3, db3, e3, h3) =
          counters-Passes fs content laws room reliable (suc i) h1.map (suc i) 0 db2 h2.1 in
        let (s4, db4, e4, h4) =
          insert_steps-Passes left (suc i) (object_hash lib i).1 db3
            (record { map = h1.map; stands = h3; old = h1.old; new = h1.new }) (omega (arith, e)) in
        let size : counters (i + 1) 0 db2 ≡ some (a3, db3) =
          ap (λ k. counters k 0 db2) (add-one i) ∙ e3 in
        let next : insert_steps lib fs room left key_len val_len (i + 1) (object_hash lib i).1 db3
            ≡ some (s4, db4) =
          ap (λ k. insert_steps lib fs room left key_len val_len k (object_hash lib i).1 db3)
            (add-one i)
          ∙ e4 in
        (s4, db4, rw (run, e1, e2, size, ◌>>=◌) next, h4)

    lookup_steps-Passes :
        (left : ℕ) (s : lib.State) (db : Kvdb fs)
        → Holds n db
        → 0 < n
        → Passes (lookup_steps lib fs room left n key_len val_len s) (λ a db'. Holds n db') db
    unfolding lookup_steps
    lookup_steps-Passes zero s db h l = (tt, db, refl, h)
    lookup_steps-Passes (suc left) s db h l =
        let j = (lib.rand s).0 % n in
        let below = mod-lt (lib.rand s).0 {m = n} l in
        let run = made-Passes j db room below in
        let (len, db2, e2, h2) = found n j h.map db h.stands (omega arith) below (h.old j below) in
        let (a3, db3, e3, h3) =
          counters-Passes fs content laws room reliable n h.map n 0 db2 h2.1 in
        let (a4, db4, e4, h4) =
          lookup_steps-Passes left (object_hash lib j).1 db3
            (record { map = h.map; stands = h3; old = h.old; new = h.new }) l in
        (a4, db4, rw (run, e2, e3, ◌>>=◌) e4, h4)

    -- On every log file system that behaves as documented and on which no call fails, and with enough memory,
    -- read_write returns 0 on an empty log, wherever the generator stands, for a positive number of objects
    -- of different keys, below 2 ^ 40, buffers of more than 16 and less than 2 ^ 16 bytes, and no hash of a
    -- key within 2 ^ 49 of the end of the 64-bit range.
    pub read_write-passes :
        (s : lib.State) (log : fs.Log) (garbage : ℕ)
        → 0 < n
        → content log ≡ []
        → garbage < 2 ^ 64
        → read_write lib fs room n key_len val_len s (some log) garbage ≡ true
    unfolding read_write
    read_write-passes s log garbage l e g =
        let (db, run, h) = kvdb_open-Stands fs content laws room reliable log garbage e g in
        let (s1, db1, e1, h1) =
          insert_steps-Passes n 0 s db
            (record {
              map = λ k. [];
              stands = h;
              old = λ j x. absurd (omega (arith, x));
              new = λ j x y. refl;
            })
            (omega arith) in
        let (a2, db2, e2, h2) = lookup_steps-Passes n s1 db1 h1 l in
        rw (run, reliable.memory key_len, reliable.memory val_len, e1, e2, ◌>>=◌, read_write) refl
