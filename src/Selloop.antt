-- ===== src/Selloop.antt =====
-- selloop.c and channel.h: the bookkeeping of the event loop. `select` and the clock are arguments; a
-- `fd_set` is a function to Bool.
pub mod Watched
pub mod Tests
use vfdd.Prelude.{
  ℕ, ◌+◌, ◌*◌, ◌/◌, ◌%◌, Bool, true, false, Option, none, some, List, [], ◌∷◌, ◌++◌, ltb, ◌==◌,
  if◌then◌else◌, Outcome, ◌>>=◌, done, fault,
}
use vfdd.Timerms.{Timeval, timercmp_ge, timeradd}

-- `struct _Channel`: `id` is its address, and `none` is the descriptor -1.
pub record Channel : Type 0 where
  pub id : ℕ
  pub fd : Option ℕ

-- `struct _Loop`; a timer is its address.
pub record Loop : Type 0 where
  pub channels : List Channel
  pub timers : List ℕ
  pub fdsmsk : ℕ → Bool
  pub loop_timeout : Timeval
  pub timer_interval : Timeval
  pub width : ℕ
  pub max_width : ℕ
  pub end_request : Bool

-- `loop_construct`
unfoldable pub loop_construct : ℕ → Loop
loop_construct max_cnx = record {
  channels = [];
  timers = [];
  fdsmsk = λ _. false;
  loop_timeout = record { sec = 0; usec = 250000 };
  timer_interval = record { sec = 0; usec = 500000 };
  width = 0;
  max_width = max_cnx;
  end_request = false;
}

-- `ms` as a `struct timeval`, in `loop_set_loop_timeout` and `loop_set_timer_interval`
unfoldable pub set_loop_timeout : Loop → ℕ → Loop
set_loop_timeout loop ms = record loop {
  loop_timeout = record { sec = ms / 1000; usec = ms % 1000 * 1000 };
}

unfoldable pub set_timer_interval : Loop → ℕ → Loop
set_timer_interval loop ms = record loop {
  timer_interval = record { sec = ms / 1000; usec = ms % 1000 * 1000 };
}

-- `FD_SET` and `FD_CLR`, which a descriptor from `FD_SETSIZE` on makes write elsewhere
abbrev pub fd_setsize : ℕ
fd_setsize = 1024

unfoldable pub set_bit : Loop → ℕ → Bool → Outcome Loop
set_bit loop s on =
    if ltb s fd_setsize
    then done (record loop { fdsmsk = λ k. if k == s then on else loop.fdsmsk k })
    else fault

-- `loop_set_fds`: that the descriptors are exhausted is only written to the log.
unfoldable pub set_fds : Loop → ℕ → Outcome Loop
set_fds loop s =
    set_bit (record loop { width = if ltb loop.width (s + 1) then s + 1 else loop.width }) s true

-- `loop_clr_fds`
unfoldable pub clr_fds : Loop → ℕ → Outcome Loop
clr_fds loop s = set_bit loop s false

-- `loop_channel_add`
unfoldable pub channel_add : Loop → Channel → Outcome Loop
channel_add loop cha = elim cha.fd [
  | none ↦ fault
  | some s ↦ set_fds (record loop { channels = loop.channels ++ cha ∷ [] }) s
]

-- `cha->fd = -1`, in each place that holds the channel
unfoldable pub mark_removed : ℕ → List Channel → List Channel
mark_removed id [] = []
mark_removed id (x ∷ xs) = (if x.id == id then record x { fd = none } else x) ∷ mark_removed id xs

-- `loop_channel_remove_fd`
unfoldable pub channel_remove_fd : Loop → Channel → Outcome Loop
channel_remove_fd loop cha = elim cha.fd [
  | none ↦ done loop
  | some s ↦
      clr_fds loop s >>= λ w. done (record w { channels = mark_removed cha.id loop.channels })
]

-- `dlist_delete` with `dlist_iterator_cmp`: the first that is the same object.
unfoldable pub delete_channel : ℕ → List Channel → List Channel
delete_channel id [] = []
delete_channel id (x ∷ xs) = let rest = delete_channel id xs in if x.id == id then xs else x ∷ rest

-- `loop_channel_remove`
unfoldable pub channel_remove : Loop → Channel → Outcome Loop
channel_remove loop cha = do
  w ← channel_remove_fd loop cha
  done (record w { channels = delete_channel cha.id w.channels })

-- `loop_timer_add` and `loop_timer_remove`
unfoldable pub timer_add : Loop → ℕ → Loop
timer_add loop timer = record loop { timers = loop.timers ++ timer ∷ [] }

unfoldable pub delete_timer : ℕ → List ℕ → List ℕ
delete_timer t [] = []
delete_timer t (x ∷ xs) = let rest = delete_timer t xs in if x == t then xs else x ∷ rest

unfoldable pub timer_remove : Loop → ℕ → Loop
timer_remove loop timer = record loop { timers = delete_timer timer loop.timers }

-- `loop_quit`
unfoldable pub loop_quit : Loop → Loop
loop_quit loop = record loop { end_request = true }

-- What `select` returns: an error, that the time is up, or the descriptors that are ready.
pub data Selected : Type 0 where
  failed timed_out : Selected
  ready : (ℕ → Bool) → Selected

-- The times of `loop_run`: `time_now` is not set before the first timeout.
pub record Times : Type 0 where
  pub run_timers : Timeval
  pub time_now : Option Timeval

-- What a round calls: the timers, the channels over the ready descriptors, or nothing.
pub data Called : Type 0 where
  nothing call_timers : Called
  call_channels : (ℕ → Bool) → Called

-- A round of `loop_run`, with the clock read at a timeout; `timercmp` and `timeradd` are those of
-- timerms.c.
unfoldable pub loop_round : Loop → Times → Selected → Timeval → Called × Times
loop_round loop t failed now = (nothing, t)
loop_round loop t timed_out now =
    if timercmp_ge now t.run_timers
    then (
      call_timers,
      record { run_timers = timeradd now loop.timer_interval; time_now = some now },
    )
    else (nothing, record t { time_now = some now })
loop_round loop t (ready fds) now = (call_channels fds, t)
