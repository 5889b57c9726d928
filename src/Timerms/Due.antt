-- ===== src/Timerms/Due.antt =====
-- timerms.c: when a timer is due.
use vfdd.Prelude.{
  ℕ, ◌+◌, ◌*◌, ◌/◌, ◌%◌, ◌<◌, ◌≡◌, refl, inl, inr, true, arith, leb, leb→le, leb→lt, le→leb, ==_iff,
  ==_ne, Bool-cases,
}
use vfdd.Timerms.{
  Timeval, Timer, magnitude, duration, due, timer_update, timercmp_ge, timeradd,
  timer_iter_timer_func, positive,
}

-- A time in microseconds.
abbrev pub micros : Timeval → ℕ
micros t = t.sec * 1000000 + t.usec

abbrev pub IsNormal : Timeval → Type 0
IsNormal t = t.usec < 1000000

-- `timer_update` sets a timer with a number that is not negative to that many milliseconds after `now`,
-- and remembers as long a duration, with its microseconds below a second.
pub timer_update-due :
    (now : Timeval) (timer : Timer) (n : ℕ)
    → let t = timer_update now timer (positive n) in
      (micros t.when ≡ micros now + n * 1000)
      × (micros t.millisecs ≡ n * 1000)
      × IsNormal t.millisecs
unfolding timer_update due duration magnitude
timer_update-due now timer n = (omega arith, omega arith, omega arith)

-- A timer that is set across the end of a second is not normal, and is called early: there is a time
-- before it is due at which `timer_iter_timer_func` calls its function.
pub called_early :
    (now : Timeval) (timer : Timer) (n : ℕ) (call : ℕ → ℕ)
    → IsNormal now
    → 1000000 < now.usec + n % 1000 * 1000
    → (early : Timeval) × IsNormal early
      × (micros early < micros (timer_update now timer (positive n)).when)
      × ((timer_iter_timer_func early call (timer_update now timer (positive n))).2 ≡ true)
unfolding timer_update due duration timer_iter_timer_func timercmp_ge
called_early now timer n call normal late = (
  record { sec = now.sec + n / 1000 + 1; usec = 0 },
  omega arith,
  omega arith,
  rw
      (
        ==_ne (now.sec + n / 1000 + 1) (now.sec + n / 1000) (omega arith),
        le→leb (now.sec + n / 1000) (now.sec + n / 1000 + 1) (omega arith),
      )
      refl,
)

-- A timer that is called and returns 0 is due again one duration after the call, at a normal time.
pub timer_iter_timer_func-reload :
    (now : Timeval) (timer : Timer) (call : ℕ → ℕ)
    → IsNormal now
    → IsNormal timer.millisecs
    → timercmp_ge now timer.when ≡ true
    → call timer.func ≡ 0
    → let out = timer_iter_timer_func now call timer in
      (micros out.0.when ≡ micros now + micros timer.millisecs)
      × IsNormal out.0.when
      × (out.1 ≡ 0)
      × (out.2 ≡ true)
unfolding timer_iter_timer_func timeradd
timer_iter_timer_func-reload now timer call normal short reached ret =
    rw (reached, (==_iff (call timer.func) 0).1 ret) (added ret)
  where
    added :
        (r : call timer.func ≡ 0)
        → (micros (timeradd now timer.millisecs) ≡ micros now + micros timer.millisecs)
          × IsNormal (timeradd now timer.millisecs)
          × (call timer.func ≡ 0)
          × (true ≡ true)
    added r = elim (Bool-cases (leb 1000000 (now.usec + timer.millisecs.usec))) [
      | inl a ↦ let over = leb→le _ _ a in rw (a, timeradd) (omega arith, omega arith, r, refl)
      | inr a ↦ let under = leb→lt _ _ a in rw (a, timeradd) (omega arith, omega arith, r, refl)
    ]
