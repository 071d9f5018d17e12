-- ===== src/Selftest/Rewrite.antt =====
-- `heavy_rewrite` of p4/main.c: it passes on a log on which nothing fails, for any number of rounds.
use operating_systems_cs.Common.{
  ℕ, zero, suc, ◌+◌, ◌/◌, ◌%◌, ◌^◌, ◌<◌, ◌≤◌, Bool, true, Bool-cases, ltb, some, [], ◌∷◌, length,
  length-append, ◌≡◌, refl, ap, ◌∙◌, subst, inl, inr, arith,
}
use operating_systems_cs.Common.Digits.{digits}
use operating_systems_cs.Common.Text.{CString}
use operating_systems_cs.Kvraw.{Logfs}
use operating_systems_cs.Kvraw.Append.{IsLogfs}
use operating_systems_cs.Kvdb.{Kvdb, done, update, kvdb_update}
use operating_systems_cs.Kvdb.Store.{is_present}
use operating_systems_cs.Kvdb.Mutate.{counted}
use operating_systems_cs.Kvdb.Calls.{forbids, new_value}
use operating_systems_cs.Kvdb.Exact.{IsReliable}
use operating_systems_cs.Selftest.{
  ◌>>=◌, expect, key, version, rewrite_steps, heavy_rounds, heavy_rewrite,
}
use operating_systems_cs.Selftest.Steps.{Passes}
use operating_systems_cs.Selftest.Basic.{
  Has, Has-write, Has-find, Has-counters, recount, on_new-Passes,
}

length-digits : (k n : ℕ) → length (digits k n) ≤ k
unfolding digits
length-digits zero n = omega arith
length-digits (suc k) n = elim (Bool-cases (ltb n 10)) [
  | inl last ↦ rw last (omega arith)
  | inr more ↦ rw more (
      omega
        (arith, length-append (digits k (n / 10)) ((48 + n % 10) ∷ []), length-digits k (n / 10)))
]

length-version : (i : ℕ) → length (version i) ≤ 22
unfolding version
length-version i = omega (arith, length-append (digits 20 i) (0 ∷ []), length-digits 20 i)

version-present : (i : ℕ) → is_present (version i) ≡ true
unfolding version
version-present i = refl

module _ (fs : Logfs) (content : fs.Log → CString) where
  -- Before the round `i`.
  abbrev Ready : ℕ → Kvdb fs → Type 0
  Ready zero db = Has fs content 0 [] 0 0 db
  Ready (suc i) db = Has fs content (suc i) (version i) 1 i db

  module _ (laws : IsLogfs fs content) (room : ℕ → Bool)
      (reliable : IsReliable fs content room) where
    updated :
        (i : ℕ) (db : Kvdb fs)
        → Ready i db
        → i < 2 ^ 39
        → Passes
            (expect done (λ x. kvdb_update fs room x key (version i)))
            (λ a db'. Has fs content (suc i) (version i) 1 i db')
            db
    unfolding kvdb_update forbids new_value counted
    updated zero db h l =
        Has-write fs content laws room reliable 0 [] 0 0 db h (omega arith) update (version 0)
          (λ x. kvdb_update fs room x key (version 0)) refl (omega (arith, length-version 0)) refl
    updated (suc i) db h l =
        let (a, db', e, g) =
          Has-write fs content laws room reliable (suc i) (version i) 1 i db h (omega (arith, l))
            update (version (suc i)) (λ x. kvdb_update fs room x key (version (suc i))) refl
            (omega (arith, length-version (suc i))) refl in
        let known = version-present i in
        (
          a,
          db',
          e,
          recount fs content laws room reliable (suc (suc i)) (version (suc i)) (version (suc i)) _
              1 _ (suc i) db' g refl (ap (λ b. (counted update b 1 i).0) known)
              (ap (λ b. (counted update b 1 i).1) known ∙ omega (arith, l)),
        )

    rewrite_steps-Passes :
        (n i : ℕ) (db : Kvdb fs)
        → Ready i db
        → n + i < 2 ^ 38
        → Passes (rewrite_steps fs room n i) (λ a db'. Ready (n + i) db') db
    unfolding rewrite_steps
    rewrite_steps-Passes zero i db h l = (tt, db, refl, subst (λ k. Ready k db) (omega arith) h)
    rewrite_steps-Passes (suc n) i db h l =
        let (a1, db1, e1, h1) = updated i db h (omega (arith, l)) in
        let (n2, db2, e2, h2) =
          Has-find fs content laws room reliable (suc i) (version i) 1 i db1 h1 (omega (arith, l))
            64 (version-present i) (omega (arith, length-version i)) in
        let (a3, db3, e3, h3) =
          Has-counters fs content laws room reliable (suc i) (version i) 1 i db2 h2.1
            (omega (arith, l)) in
        let (a4, db4, e4, h4) = rewrite_steps-Passes n (suc i) db3 h3 (omega (arith, l)) in
        let next : rewrite_steps fs room n (i + 1) db3 ≡ some (a4, db4) =
          ap (λ k. rewrite_steps fs room n k db3) (omega arith) ∙ e4 in
        (a4, db4, rw (e1, e2, e3, ◌>>=◌) next, subst (λ k. Ready k db4) (omega arith) h4)

    -- On every log file system that behaves as documented and on which no call fails, and with enough memory,
    -- heavy_rewrite returns 0 on an empty log.
    pub heavy_rewrite-passes :
        (log : fs.Log) (garbage : ℕ)
        → content log ≡ []
        → garbage < 2 ^ 64
        → heavy_rewrite fs room (some log) garbage ≡ true
    unfolding heavy_rewrite
    heavy_rewrite-passes log garbage e g =
        on_new-Passes fs content laws room reliable (rewrite_steps fs room heavy_rounds 0) log
          garbage e g
          (λ db s.
            rewrite_steps-Passes heavy_rounds 0 db
              (record { map = λ k. []; stands = s; here = refl }) (omega arith))
