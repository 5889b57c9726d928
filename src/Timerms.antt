-- ===== src/Timerms.antt =====
-- timerms.c: timers. Times are not negative; `gettimeofday` is an argument, `now`.
pub mod Due
pub mod Tests
use vfdd.Prelude.{ℕ, ◌+◌, ◌-◌, ◌*◌, ◌/◌, ◌%◌, Bool, true, false, leb, ◌==◌, if◌then◌else◌}

-- `struct timeval`
pub record Timeval : Type 0 where
  pub sec : ℕ
  pub usec : ℕ

-- `struct _Timer`: `func` with its two arguments is a number that stands for it.
pub record Timer : Type 0 where
  pub func : ℕ
  pub when : Timeval
  pub millisecs : Timeval

-- `millisecs` of the callers: its sign and its size, which is below 2 ^ 31.
pub data Millis : Type 0 where
  positive negative : ℕ → Millis

-- `-millisecs` for a negative number
unfoldable pub magnitude : Millis → ℕ
magnitude (positive n) = n
magnitude (negative n) = n

-- The duration that `timer_update` computes.
unfoldable pub duration : ℕ → Timeval
duration millis = record { sec = millis / 1000; usec = millis % 1000 * 1000 }

-- When a timer that is set at `now` is due: after one second if the number is negative.
unfoldable pub due : Timeval → Millis → Timeval
due now (negative n) = record now { sec = now.sec + 1 }
due now (positive n) =
    let d = duration n in record { sec = now.sec + d.sec; usec = now.usec + d.usec }

-- `timer_update`
unfoldable pub timer_update : Timeval → Timer → Millis → Timer
timer_update now timer millisecs = record timer {
  when = due now millisecs;
  millisecs = duration (magnitude millisecs);
}

-- `timer_construct` on zeroed memory
unfoldable pub timer_construct : Timeval → ℕ → Millis → Timer
timer_construct now func millisecs =
    let zero_time : Timeval = record { sec = 0; usec = 0 } in
    timer_update now (record { func = func; when = zero_time; millisecs = zero_time }) millisecs

-- `timer_modify`
unfoldable pub timer_modify : Timeval → Timer → Millis → ℕ → Timer
timer_modify now timer millisecs func =
    let timer' = timer_update now timer millisecs in record timer' { func = func }

-- `timercmp( a, b, >= )` and `timeradd` of <sys/time.h>
unfoldable pub timercmp_ge : Timeval → Timeval → Bool
timercmp_ge a b = if a.sec == b.sec then leb b.usec a.usec else leb b.sec a.sec

unfoldable pub timeradd : Timeval → Timeval → Timeval
timeradd a b =
    if leb 1000000 (a.usec + b.usec)
    then record { sec = a.sec + b.sec + 1; usec = a.usec + b.usec - 1000000 }
    else record { sec = a.sec + b.sec; usec = a.usec + b.usec }

-- `timer_iter_timer_func`, where a call of the function returns `ret`: the timer, what is returned, and
-- whether the function was called.
unfoldable pub timer_iter_timer_func : Timeval → (ℕ → ℕ) → Timer → Timer × ℕ × Bool
timer_iter_timer_func now call timer =
    if timercmp_ge now timer.when
    then (
      if call timer.func == 0 then record timer { when = timeradd now timer.millisecs } else timer,
      call timer.func,
      true,
    )
    else (timer, 0, false)
