-- ===== src/System/Sleep.antt =====
-- `us_sleep` of p4/system.c: it sleeps long enough, and it ends.
use operating_systems_cs.Common.{
  ℕ, zero, suc, ◌+◌, ◌*◌, ◌^◌, ◌<◌, ◌≤◌, none, some, Option-cases, ◌≡◌, refl, ap, inl, inr, arith,
}
use operating_systems_cs.System.{Time, Clock, request, sleep_loop, us_sleep}

abbrev pub nanoseconds : Time → ℕ
nanoseconds t = t.tv_sec * 10 ^ 9 + t.tv_nsec

-- What the manual says of nanosleep, with the time that has passed and the number of signals to come: a
-- sleep that is not interrupted lasts as long as was asked for, and one that is takes a signal and tells
-- what is left, always with less than 10 ^ 9 nanoseconds beside the seconds.
pub record IsClock (clock : Clock) : Type 0 where
  pub passed : clock.World → ℕ
  pub signals : clock.World → ℕ
  pub slept :
      (w w' : clock.World) (t : Time)
      → t.tv_nsec < 10 ^ 9
      → clock.nanosleep w t ≡ (none, w')
      → passed w + nanoseconds t ≤ passed w'
  pub woken :
      (w w' : clock.World) (t left : Time)
      → t.tv_nsec < 10 ^ 9
      → clock.nanosleep w t ≡ (some left, w')
      → (passed w + nanoseconds t ≤ passed w' + nanoseconds left)
        × (left.tv_nsec < 10 ^ 9)
        × (signals w' < signals w)

module _ (clock : Clock) (laws : IsClock clock) where
  sleep_loop-sleeps :
      (n : ℕ) (w : clock.World) (t : Time)
      → t.tv_nsec < 10 ^ 9
      → laws.signals w < n
      → (w' : clock.World) × (sleep_loop clock n w t ≡ some w')
        × (laws.passed w + nanoseconds t ≤ laws.passed w')
  unfolding sleep_loop
  sleep_loop-sleeps zero w t v l = absurd (omega (arith, l))
  sleep_loop-sleeps (suc n) w t v l = elim (Option-cases (clock.nanosleep w t).0) [
    | inl e ↦ (
      (clock.nanosleep w t).1,
      rw (e, sleep_loop) refl,
      laws.slept w (clock.nanosleep w t).1 t v (ap (λ o. (o, (clock.nanosleep w t).1)) e),
    )
    | inr (left, e) ↦
        let (time, valid, fewer) =
          laws.woken w (clock.nanosleep w t).1 t left v
            (ap (λ o. (o, (clock.nanosleep w t).1)) e) in
        let (w', run, later) =
          sleep_loop-sleeps n (clock.nanosleep w t).1 left valid (omega (arith, l, fewer)) in
        (w', rw (e, sleep_loop) run, omega (arith, time, later))
  ]

  -- On a clock as documented, us_sleep ends after as many rounds as signals come, and one more, and at least the
  -- given number of microseconds have passed.
  pub us_sleep-sleeps :
      (w : clock.World) (us : ℕ)
      → (w' : clock.World) × (us_sleep clock (suc (laws.signals w)) w us ≡ some w')
        × (laws.passed w + us * 1000 ≤ laws.passed w')
  unfolding us_sleep request
  us_sleep-sleeps w us =
      let (w', run, later) =
        sleep_loop-sleeps (suc (laws.signals w)) w (request us) (omega arith) (omega arith) in
      (w', run, omega (arith, later))
