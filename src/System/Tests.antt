-- ===== src/System/Tests.antt =====
-- Tests and witnesses for the helpers of p4/system.c.
use operating_systems_cs.Common.{
  ℕ, zero, suc, ◌+◌, ◌*◌, ◌^◌, ◌<◌, ◌≤◌, Option, none, some, [], ◌∷◌, ◌≡◌, refl, ap, subst, arith,
}
use operating_systems_cs.System.{
  Time, ref_time, Clock, us_sleep, safe_strlen, file_delete, safe_sprintf, page_size, memory_align,
}
use operating_systems_cs.System.Sleep.{nanoseconds, IsClock, us_sleep-sleeps}
use operating_systems_cs.System.Align.{IsNext, memory_align-IsNext}

helpers_test :
    (ref_time (some (record { tv_sec = 2; tv_nsec = 5 })) ≡ 2000005)
    × (safe_strlen none ≡ 0)
    × (file_delete (some []) ≡ none)
    × (safe_sprintf 2 (97 ∷ 98 ∷ []) ≡ none)
    × (page_size none ≡ none)
    × (memory_align 4097 4096 ≡ 8192)
unfolding ref_time safe_strlen file_delete safe_sprintf page_size memory_align
helpers_test = (refl, refl, refl, refl, refl, refl)

memory_align-IsNext_example : IsNext 4096 4097 (memory_align 4097 4096)
memory_align-IsNext_example = memory_align-IsNext 4097 4096 (omega arith) (omega arith)

-- The time that has passed, and the signals to come, each of which interrupts a sleep at once.
abbrev tick : ℕ × ℕ → Time → Option Time × (ℕ × ℕ)
tick (n, zero) t = (none, (n + nanoseconds t, 0))
tick (n, suc k) t = (some t, (n, k))

abbrev ticks : Clock
ticks = record { World = ℕ × ℕ; nanosleep = tick }

tick_slept :
    (w w' : ℕ × ℕ) (t : Time)
    → t.tv_nsec < 10 ^ 9
    → tick w t ≡ (none, w')
    → w.0 + nanoseconds t ≤ w'.0
tick_slept (n, zero) w' t v e =
    let later : n + nanoseconds t ≡ w'.0 = ap (λ (r : Option Time × (ℕ × ℕ)). r.1.0) e in
    omega (arith, later)
tick_slept (n, suc k) w' t v e = absurd (cc (ap (λ (r : Option Time × (ℕ × ℕ)). r.0) e))

tick_woken :
    (w w' : ℕ × ℕ) (t left : Time)
    → t.tv_nsec < 10 ^ 9
    → tick w t ≡ (some left, w')
    → (w.0 + nanoseconds t ≤ w'.0 + nanoseconds left) × (left.tv_nsec < 10 ^ 9) × (w'.1 < w.1)
tick_woken (n, zero) w' t left v e = absurd (cc (ap (λ (r : Option Time × (ℕ × ℕ)). r.0) e))
tick_woken (n, suc k) w' t left v e =
    let same : t ≡ left = some-injective (ap (λ (r : Option Time × (ℕ × ℕ)). r.0) e) in
    let here : n ≡ w'.0 = ap (λ (r : Option Time × (ℕ × ℕ)). r.1.0) e in
    let fewer : k ≡ w'.1 = ap (λ (r : Option Time × (ℕ × ℕ)). r.1.1) e in
    (
      omega (arith, here, ap nanoseconds same),
      subst (λ (x : Time). x.tv_nsec < 10 ^ 9) same v,
      omega (arith, fewer),
    )
  where
    some-injective : {a b : Time} → some a ≡ some b → a ≡ b
    some-injective h = cc h

abbrev ticks-IsClock : IsClock ticks
ticks-IsClock = record {
  passed = λ w. w.0;
  signals = λ w. w.1;
  slept = tick_slept;
  woken = tick_woken;
}

us_sleep-sleeps_example :
    (w' : ℕ × ℕ) × (us_sleep ticks 3 (7, 2) 1500000 ≡ some w') × (7 + 1500000 * 1000 ≤ w'.0)
us_sleep-sleeps_example = us_sleep-sleeps ticks ticks-IsClock (7, 2) 1500000
