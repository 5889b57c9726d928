-- ===== src/Timerms/Tests.antt =====
-- The theorems on timers at concrete times.
use vfdd.Prelude.{◌<◌, ◌≡◌, true, arith}
use vfdd.Timerms.{Timeval, Timer, timer_update, timer_iter_timer_func, positive}
use vfdd.Timerms.Due.{micros, IsNormal, called_early}

abbrev start : Timeval
start = record { sec = 5; usec = 900000 }

abbrev blink : Timer
blink = record { func = 1; when = start; millisecs = record { sec = 0; usec = 500000 } }

called_early_example :
    (early : Timeval) × IsNormal early
    × (micros early < micros (timer_update start blink (positive 500)).when)
    × ((timer_iter_timer_func early (λ f. 0) (timer_update start blink (positive 500))).2 ≡ true)
called_early_example = called_early start blink 500 (λ f. 0) (omega arith) (omega arith)
