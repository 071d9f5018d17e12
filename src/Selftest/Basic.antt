-- ===== src/Selftest/Basic.antt =====
-- `basic_logic` of p4/main.c: it passes on a log on which nothing fails.
use operating_systems_cs.Common.{
  ℕ, suc, ◌+◌, ◌^◌, ◌<◌, ◌≤◌, Bool, true, false, some, [], length, ◌≡◌, refl, ap, subst, arith,
}
use operating_systems_cs.Common.Text.{CString}
use operating_systems_cs.Kvraw.{Logfs}
use operating_systems_cs.Kvraw.Append.{IsLogfs}
use operating_systems_cs.Index.{key_of}
use operating_systems_cs.Index.Tests.{program}
use operating_systems_cs.Kvdb.{
  Kvdb, Status, done, refused, Mode, remove, insert, update, replace, mutate, kvdb_insert,
  kvdb_update, kvdb_replace,
}
use operating_systems_cs.Kvdb.Store.{is_present}
use operating_systems_cs.Kvdb.Mutate.{counted}
use operating_systems_cs.Kvdb.Calls.{forbids, new_value}
use operating_systems_cs.Kvdb.Exact.{
  IsReliable, IsUsual, Stands, assign, assign_same, kvdb_open-Stands,
}
use operating_systems_cs.Selftest.{
  Test, ◌>>=◌, expect, counters, missing, find, take_out, write_twice, key, val1, val2, val3,
  invalid_steps, removal_steps, basic_steps, on_new, basic_logic,
}
use operating_systems_cs.Selftest.Steps.{
  Passes, counters-Passes, missing-Passes, find-Passes, expect_done, expect_refused,
  take_out-Passes,
}

pub key-low : key_of key + 2 ^ 49 ≤ 2 ^ 64
unfolding program
key-low = omega arith

pub usual : (val : CString) → length val < 2 ^ 16 → IsUsual key val
usual val l = record { key_len = omega arith; val_len = l; low = key-low }

module _ (fs : Logfs) (content : fs.Log → CString) where
  -- A database in which `KEY` has the value `v`.
  pub record Has (m : ℕ) (v : CString) (size waste : ℕ) (db : Kvdb fs) : Type 0 where
    pub map : CString → CString
    pub stands : Stands fs content m map size waste db
    pub here : map key ≡ v

  module _ (laws : IsLogfs fs content) (room : ℕ → Bool)
      (reliable : IsReliable fs content room) where
    module _ (m : ℕ) (v : CString) (size waste : ℕ) (db : Kvdb fs) (h : Has m v size waste db)
        (soon : m < 2 ^ 40) where
      pub Has-counters : Passes (counters size waste) (λ a db'. Has m v size waste db') db
      Has-counters =
          let (a, db', run, s) =
            counters-Passes fs content laws room reliable m h.map size waste db h.stands in
          (a, db', run, record { map = h.map; stands = s; here = h.here })

      pub Has-missing :
          (n : ℕ)
          → is_present v ≡ false
          → Passes (missing fs room key n) (λ a db'. Has m v size waste db') db
      Has-missing n e =
          let (a, db', run, s) =
            missing-Passes fs content laws room reliable m h.map size waste db h.stands soon key v
              h.here n e in
          (a, db', run, record { map = h.map; stands = s; here = h.here })

      pub Has-find :
          (n : ℕ)
          → is_present v ≡ true
          → length v ≤ n
          → Passes (find fs room key n v) (λ len db'. (len ≡ length v) × Has m v size waste db') db
      Has-find n e l =
          let (a, db', run, (len, s)) =
            find-Passes fs content laws room reliable m h.map size waste db h.stands soon key v
              h.here n e l in
          (a, db', run, (len, record { map = h.map; stands = s; here = h.here }))

      pub Has-write :
          (mode : Mode) (val : CString) (call : Kvdb fs → Status × Kvdb fs)
          → call db ≡ ((mutate fs room mode db key val 0).0, (mutate fs room mode db key val 0).1)
          → length val < 2 ^ 16
          → forbids mode (is_present v) ≡ false
          → Passes
              (expect done call)
              (λ a db'.
                Has
                  (suc m)
                  (new_value mode val)
                  (counted mode (is_present v) size waste).0
                  (counted mode (is_present v) size waste).1
                  db')
              db
      Has-write mode val call run l e =
          let (a, db', step, s) =
            expect_done fs content laws room reliable m h.map size waste db h.stands soon key v
              h.here mode val call run (usual val l) e in
          (
            a,
            db',
            step,
            record {
              map = assign key (new_value mode val) h.map;
              stands = s;
              here = assign_same key (new_value mode val) h.map;
            },
          )

      pub Has-refuse :
          (mode : Mode) (val : CString) (call : Kvdb fs → Status × Kvdb fs)
          → call db ≡ ((mutate fs room mode db key val 0).0, (mutate fs room mode db key val 0).1)
          → length val < 2 ^ 16
          → forbids mode (is_present v) ≡ true
          → Passes (expect refused call) (λ a db'. Has (suc m) v size waste db') db
      Has-refuse mode val call run l e =
          let (a, db', step, s) =
            expect_refused fs content laws room reliable m h.map size waste db h.stands soon key v
              h.here mode val call run (usual val l) e in
          (a, db', step, record { map = h.map; stands = s; here = h.here })

      Has-take_out :
          (n : ℕ)
          → is_present v ≡ true
          → length v ≤ n
          → Passes
              (take_out fs room key n v)
              (λ len db'.
                Has
                  (suc m)
                  []
                  (counted remove true size waste).0
                  (counted remove true size waste).1
                  db')
              db
      Has-take_out n e l =
          let (a, db', step, s) =
            take_out-Passes fs content laws room reliable m h.map size waste db h.stands soon key v
              h.here n (usual [] (omega arith)) e l in
          (
            a,
            db',
            step,
            record { map = assign key [] h.map; stands = s; here = assign_same key [] h.map },
          )

    pub recount :
        (m : ℕ) (v v' : CString) (size size' waste waste' : ℕ) (db : Kvdb fs)
        → Has m v size waste db
        → v ≡ v'
        → size ≡ size'
        → waste ≡ waste'
        → Has m v' size' waste' db
    recount m v v' size size' waste waste' db h a b c =
        subst (λ x. Has m x size' waste' db) a
          (subst (λ x. Has m v x waste' db) b (subst (λ x. Has m v size x db) c h))

    -- A block of `basic_logic`.
    write_twice-Passes :
        (m : ℕ) (v : CString) (size waste : ℕ) (db : Kvdb fs) (mode : Mode) (val : CString)
        (call : Kvdb fs → Status × Kvdb fs) (size' waste' : ℕ)
        → Has m v size waste db
        → m < 2 ^ 39
        → call db ≡ ((mutate fs room mode db key val 0).0, (mutate fs room mode db key val 0).1)
        → length val ≤ 32
        → is_present val ≡ true
        → new_value mode val ≡ val
        → forbids mode (is_present v) ≡ false
        → (counted mode (is_present v) size waste).0 ≡ size'
        → (counted mode (is_present v) size waste).1 ≡ waste'
        → Passes
            (write_twice fs room call val size' waste')
            (λ a db'. Has (suc (suc m)) val size' waste' db')
            db
    unfolding write_twice forbids kvdb_insert
    write_twice-Passes m v size waste db mode val call size' waste' h soon run l p same e s w =
        let (a1, db1, e1, h1) =
          Has-write m v size waste db h (omega (arith, soon)) mode val call run (omega (arith, l))
            e in
        let g1 = recount (suc m) _ val _ size' _ waste' db1 h1 same s w in
        let (n2, db2, e2, (len2, h2)) =
          Has-find (suc m) val size' waste' db1 g1 (omega (arith, soon)) 32 p l in
        let (a3, db3, e3, h3) =
          Has-refuse (suc m) val size' waste' db2 h2 (omega (arith, soon)) insert val
            (λ x. kvdb_insert fs room x key val) refl (omega (arith, l)) (ap (forbids insert) p) in
        let (n4, db4, e4, (len4, h4)) =
          Has-find (suc (suc m)) val size' waste' db3 h3 (omega (arith, soon)) n2 p
            (omega (arith, len2)) in
        let (a5, db5, e5, h5) =
          Has-counters (suc (suc m)) val size' waste' db4 h4 (omega (arith, soon)) in
        (a5, db5, rw (e1, e2, e3, e4, e5, ◌>>=◌) refl, h5)

    invalid_steps-Passes :
        (db : Kvdb fs)
        → Has 0 [] 0 0 db
        → Passes (invalid_steps fs room) (λ a db'. Has 1 [] 0 0 db') db
    unfolding invalid_steps forbids kvdb_replace
    invalid_steps-Passes db h =
        let (a1, db1, e1, h1) = Has-missing 0 [] 0 0 db h (omega arith) 0 refl in
        let (a2, db2, e2, h2) = Has-missing 0 [] 0 0 db1 h1 (omega arith) 0 refl in
        let (a3, db3, e3, h3) = Has-missing 0 [] 0 0 db2 h2 (omega arith) 0 refl in
        let (a4, db4, e4, h4) = Has-counters 0 [] 0 0 db3 h3 (omega arith) in
        let (a5, db5, e5, h5) =
          Has-refuse 0 [] 0 0 db4 h4 (omega arith) replace val1
            (λ x. kvdb_replace fs room x key val1) refl (omega arith) refl in
        let (a6, db6, e6, h6) = Has-counters 1 [] 0 0 db5 h5 (omega arith) in
        (a6, db6, rw (e1, e2, e3, e4, e5, e6, ◌>>=◌) refl, h6)

    removal_steps-Passes :
        (db : Kvdb fs)
        → Has 7 val3 1 2 db
        → Passes (removal_steps fs room) (λ a db'. Has 8 [] 0 3 db') db
    unfolding removal_steps counted
    removal_steps-Passes db h =
        let (a1, db1, e1, h1) = Has-find 7 val3 1 2 db h (omega arith) 32 refl (omega arith) in
        let (a2, db2, e2, h2) = Has-counters 7 val3 1 2 db1 h1.1 (omega arith) in
        let (a3, db3, e3, h3) =
          Has-take_out 7 val3 1 2 db2 h2 (omega arith) 32 refl (omega arith) in
        let (a4, db4, e4, h4) = Has-missing 8 [] 0 3 db3 h3 (omega arith) a3 refl in
        let (a5, db5, e5, h5) = Has-counters 8 [] 0 3 db4 h4 (omega arith) in
        (a5, db5, rw (e1, e2, e3, e4, e5, ◌>>=◌) refl, h5)

    basic_steps-Passes :
        (db : Kvdb fs)
        → Has 0 [] 0 0 db
        → Passes (basic_steps fs room) (λ a db'. Has 8 [] 0 3 db') db
    unfolding basic_steps forbids new_value counted kvdb_insert kvdb_replace kvdb_update
    basic_steps-Passes db h =
        let (a1, db1, e1, h1) = Has-counters 0 [] 0 0 db h (omega arith) in
        let (a2, db2, e2, h2) = invalid_steps-Passes db1 h1 in
        let (a3, db3, e3, h3) =
          write_twice-Passes 1 [] 0 0 db2 insert val1 (λ x. kvdb_insert fs room x key val1) 1 0 h2
            (omega arith) refl (omega arith) refl refl refl refl refl in
        let (a4, db4, e4, h4) =
          write_twice-Passes 3 val1 1 0 db3 replace val2 (λ x. kvdb_replace fs room x key val2) 1 1
            h3 (omega arith) refl (omega arith) refl refl refl refl refl in
        let (a5, db5, e5, h5) =
          write_twice-Passes 5 val2 1 1 db4 update val3 (λ x. kvdb_update fs room x key val3) 1 2 h4
            (omega arith) refl (omega arith) refl refl refl refl refl in
        let (a6, db6, e6, h6) = removal_steps-Passes db5 h5 in
        (a6, db6, rw (e1, e2, e3, e4, e5, e6, ◌>>=◌) refl, h6)

    -- A test that passes on every database that stands for the empty map.
    pub on_new-Passes :
        {Q : Unit {0} → Kvdb fs → Type 0} (test : Test fs (Unit {0})) (log : fs.Log) (garbage : ℕ)
        → content log ≡ []
        → garbage < 2 ^ 64
        → ((db : Kvdb fs) → Stands fs content 0 (λ k. []) 0 0 db → Passes test Q db)
        → on_new fs room test (some log) garbage ≡ true
    unfolding on_new
    on_new-Passes test log garbage e g passes =
        let (db, run, s) = kvdb_open-Stands fs content laws room reliable log garbage e g in
        let (a, db', step, q) = passes db s in rw (run, step, on_new) refl

    -- On every log file system that behaves as documented and on which no call fails, and with enough memory,
    -- basic_logic returns 0 on an empty log.
    pub basic_logic-passes :
        (log : fs.Log) (garbage : ℕ)
        → content log ≡ []
        → garbage < 2 ^ 64
        → basic_logic fs room (some log) garbage ≡ true
    unfolding basic_logic
    basic_logic-passes log garbage e g =
        on_new-Passes (basic_steps fs room) log garbage e g
          (λ db s. basic_steps-Passes db (record { map = λ k. []; stands = s; here = refl }))
