-- ===== src/Selftest/Steps.antt =====
-- What the steps of the tests of p4/main.c do where nothing fails.
use operating_systems_cs.Common.{
  ℕ, suc, ◌^◌, ◌<◌, ◌≤◌, min, Bool, true, false, ◌==◌, ==_iff, ◌&&◌, some, [], length, ◌≡◌, refl,
  ap, ◌∙◌, subst, arith,
}
use operating_systems_cs.Common.Text.{CString}
use operating_systems_cs.Common.Slices.{first_bytes_all}
use operating_systems_cs.Kvraw.{Logfs}
use operating_systems_cs.Kvraw.Append.{IsLogfs}
use operating_systems_cs.Kvdb.{
  Kvdb, same_bytes, Status, done, refused, Mode, remove, mutate, kvdb_remove, kvdb_size, kvdb_waste,
}
use operating_systems_cs.Kvdb.Chain.{same_bytes_refl}
use operating_systems_cs.Kvdb.Store.{is_present}
use operating_systems_cs.Kvdb.Mutate.{counted, found_value}
use operating_systems_cs.Kvdb.Calls.{forbids, new_value}
use operating_systems_cs.Kvdb.Exact.{
  IsReliable, IsUsual, Stands, assign, mutate-Accepted, mutate-refused, lookup_present,
  lookup_absent,
}
use operating_systems_cs.Selftest.{
  Test, same_status, check, expect, counters, missing, find, take_out,
}

-- A test that goes on from a database, and what holds then.
abbrev pub Passes :
    {fs : Logfs} {A : Type 0} → Test fs A → (A → Kvdb fs → Type 0) → Kvdb fs → Type 0
Passes {fs} {A} t Q db = (a : A) × (db' : Kvdb fs) × (t db ≡ some (a, db')) × Q a db'

found-is_value :
    (v : CString) (n : ℕ)
    → length v ≤ n
    → (length v == length v) && same_bytes v (found_value v n).1 ≡ true
found-is_value v n h =
    let whole = first_bytes_all (min (length v) n) v (omega (arith, h)) in
    rw ((==_iff (length v) (length v)).1 refl, whole, same_bytes_refl v) refl

module _ (fs : Logfs) (content : fs.Log → CString) (laws : IsLogfs fs content) (room : ℕ → Bool)
    (reliable : IsReliable fs content room) (m : ℕ) (f : CString → CString) (size waste : ℕ)
    (db : Kvdb fs) (h : Stands fs content m f size waste db) where
  pub counters-Passes :
      Passes (counters size waste) (λ a db'. Stands fs content m f size waste db') db
  unfolding counters check kvdb_size kvdb_waste
  counters-Passes =
      (tt, db, rw ((==_iff db.size size).1 h.keys, (==_iff db.waste waste).1 h.old) refl, h)

  module _ (soon : m < 2 ^ 40) (k v : CString) (here : f k ≡ v) where
    pub missing-Passes :
        (n : ℕ)
        → is_present v ≡ false
        → Passes (missing fs room k n) (λ a db'. Stands fs content m f size waste db') db
    unfolding missing check same_status
    missing-Passes n e =
        let run =
          lookup_absent fs content laws room reliable m f size waste db h soon k n
            (ap is_present here ∙ e) in
        (tt, db, rw run refl, h)

    pub find-Passes :
        (n : ℕ)
        → is_present v ≡ true
        → length v ≤ n
        → Passes
            (find fs room k n v)
            (λ len db'. (len ≡ length v) × Stands fs content m f size waste db')
            db
    unfolding find same_status
    find-Passes n e l =
        let run =
          lookup_present fs content laws room reliable m f size waste db h soon k n
            (ap is_present here ∙ e)
          ∙ ap (λ (x : CString). (done, found_value x n)) here in
        (length v, db, rw (run, found-is_value v n l) refl, (refl, h))

    pub expect_done :
        (mode : Mode) (val : CString) (call : Kvdb fs → Status × Kvdb fs)
        → call db ≡ ((mutate fs room mode db k val 0).0, (mutate fs room mode db k val 0).1)
        → IsUsual k val
        → forbids mode (is_present v) ≡ false
        → Passes
            (expect done call)
            (λ a db'.
              Stands fs content
                (suc m)
                (assign k (new_value mode val) f)
                (counted mode (is_present v) size waste).0
                (counted mode (is_present v) size waste).1
                db')
            db
    unfolding expect same_status
    expect_done mode val call run u e =
        let x =
          mutate-Accepted fs content laws room reliable m f size waste db h soon mode k val 0 u
            (ap (λ y. forbids mode (is_present y)) here ∙ e) in
        let stands =
          subst
            (λ y.
              Stands fs content (suc m) (assign k (new_value mode val) f)
                (counted mode (is_present y) size waste).0
                (counted mode (is_present y) size waste).1 (mutate fs room mode db k val 0).1)
            here x.stands in
        (tt, (mutate fs room mode db k val 0).1, rw (run, x.status) refl, stands)

    pub expect_refused :
        (mode : Mode) (val : CString) (call : Kvdb fs → Status × Kvdb fs)
        → call db ≡ ((mutate fs room mode db k val 0).0, (mutate fs room mode db k val 0).1)
        → IsUsual k val
        → forbids mode (is_present v) ≡ true
        → Passes (expect refused call) (λ a db'. Stands fs content (suc m) f size waste db') db
    unfolding expect same_status
    expect_refused mode val call run u e =
        let (s, x) =
          mutate-refused fs content laws room reliable m f size waste db h soon mode k val 0 u
            (ap (λ y. forbids mode (is_present y)) here ∙ e) in
        (tt, (mutate fs room mode db k val 0).1, rw (run, s) refl, x)

    pub take_out-Passes :
        (n : ℕ)
        → IsUsual k []
        → is_present v ≡ true
        → length v ≤ n
        → Passes
            (take_out fs room k n v)
            (λ len db'.
              Stands fs content
                (suc m)
                (assign k [] f)
                (counted remove true size waste).0
                (counted remove true size waste).1
                db')
            db
    unfolding take_out same_status kvdb_remove forbids new_value
    take_out-Passes n u e l =
        let here' = ap is_present here ∙ e in
        let x =
          mutate-Accepted fs content laws room reliable m f size waste db h soon remove k [] n u
            (ap (forbids remove) here') in
        let out = x.out refl here' ∙ ap (λ y. found_value y n) here in
        let stands =
          subst
            (λ b.
              Stands fs content (suc m) (assign k [] f) (counted remove b size waste).0
                (counted remove b size waste).1 (mutate fs room remove db k [] n).1)
            here' x.stands in
        (
          length v,
          (mutate fs room remove db k [] n).1,
          rw (x.status, out, found-is_value v n l) refl,
          stands,
        )
