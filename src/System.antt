-- ===== src/System.antt =====
-- The helpers of p4/system.c, which the other programs have copies of: the clock, the sleep, strings and
-- alignment. The system calls are parameters.
pub mod Sleep
pub mod Align
pub mod Tests
use operating_systems_cs.Common.{
  ℕ, zero, suc, ◌+◌, ◌-◌, ◌*◌, ◌/◌, ◌%◌, ◌^◌, Bool, true, false, if◌then◌else◌, leb, ◌==◌, Option,
  none, some, List, [], ◌∷◌, length,
}
use operating_systems_cs.Common.Text.{CString}

-- `struct timespec`, and `struct timeval` with microseconds in the place of the nanoseconds.
pub record Time : Type 0 where
  pub tv_sec : ℕ
  pub tv_nsec : ℕ

-- `gettimeofday` gives seconds and microseconds, or fails.
unfoldable pub ref_time : Option Time → ℕ
ref_time none = 0
ref_time (some timeval) = (timeval.tv_sec % 2 ^ 64 * 1000000 + timeval.tv_nsec) % 2 ^ 64

-- `nanosleep` returns 0, or the time that was left when a signal came.
pub record Clock : Type 1 where
  pub World : Type 0
  pub nanosleep : World → Time → Option Time × World

unfoldable pub request : ℕ → Time
request us = record { tv_sec = us / 1000000; tv_nsec = us % 1000000 * 1000 }

module _ (clock : Clock) where
  -- The loop with the rounds left, `none` where they run out.
  unfoldable pub sleep_loop : ℕ → clock.World → Time → Option clock.World
  sleep_loop zero w time = none
  sleep_loop (suc n) w time =
      let r = clock.nanosleep w time in
      elim r.0 [ none ↦ some r.1 | some out ↦ sleep_loop n r.1 out ]

  unfoldable pub us_sleep : ℕ → clock.World → ℕ → Option clock.World
  us_sleep n w us = sleep_loop n w (request us)

-- A null pointer is `none`.
unfoldable pub safe_strlen : Option CString → ℕ
safe_strlen none = 0
safe_strlen (some s) = length s

-- The name that is unlinked, if any.
unfoldable pub file_delete : Option CString → Option CString
file_delete pathname = if safe_strlen pathname == 0 then none else pathname

-- The formatted text in a buffer of `len` bytes, or `none` for EXIT.
unfoldable pub safe_sprintf : ℕ → CString → Option CString
safe_sprintf len text = if leb len (length text) then none else some text

-- `sysconf` gives a number, or -1 for `none`; the result is `none` for EXIT.
unfoldable pub page_size : Option ℕ → Option ℕ
page_size none = none
page_size (some size) = if size == 0 then none else some size

-- An address that is not a multiple of `n` is moved on to the next one.
unfoldable pub memory_align : ℕ → ℕ → ℕ
memory_align p n = let r = p % n in let r' = if r == 0 then r else n - r in (p + r') % 2 ^ 64
