-- ===== src/Selloop/Tests.antt =====
-- Runs of the event loop's bookkeeping.
use mathlib.Core.Bool.{false≢true}
use vfdd.Prelude.{
  ℕ, ◌<◌, ◌≡◌, refl, Bool, true, false, ◌||◌, none, some, [], ◌∷◌, arith, ◌==◌, if◌then◌else◌,
  ==_iff, done,
}
use vfdd.Selloop.{
  Loop, loop_construct, channel_add, channel_remove, loop_round, ready, call_channels,
}
use vfdd.Selloop.Watched.{has_fd, IsWatching, channel_add-IsWatching, channel_remove-IsWatching}

abbrev one_channel : Loop
one_channel = record (loop_construct 20) {
  channels = record { id = 7; fd = some 3 } ∷ [];
  fdsmsk = λ k. if k == 3 then true else false;
  width = 4;
}

one_channel-IsWatching : IsWatching one_channel
unfolding has_fd loop_construct
one_channel-IsWatching = record {
  mask = λ k. pick (k == 3);
  bound = λ k e. small k (k == 3) refl e;
}
  where
    pick : (b : Bool) → (if b then true else false) ≡ (b || false)
    pick true = refl
    pick false = refl

    small : (k : ℕ) (b : Bool) → (k == 3) ≡ b → (if b then true else false) ≡ true → k < 4
    small k true same e = omega (arith, (==_iff k 3).0 same)
    small k false same e = absurd (false≢true e)

channel_add-IsWatching_example :
    (w : Loop) × (channel_add one_channel (record { id = 9; fd = some 5 }) ≡ done w)
    × (w.channels ≡ record { id = 7; fd = some 3 } ∷ record { id = 9; fd = some 5 } ∷ [])
    × IsWatching w
unfolding loop_construct
channel_add-IsWatching_example =
    channel_add-IsWatching one_channel 9 5 one_channel-IsWatching (omega arith)

channel_remove-IsWatching_example :
    (w : Loop) × (channel_remove one_channel (record { id = 7; fd = some 3 }) ≡ done w)
    × (w.channels ≡ [])
    × IsWatching w
unfolding loop_construct has_fd
channel_remove-IsWatching_example =
    channel_remove-IsWatching one_channel 7 3 [] [] one_channel-IsWatching refl tt tt refl refl
      (omega arith)

-- While descriptors are ready, no timer is called.
busy_round :
    (loop_round one_channel
      (record { run_timers = record { sec = 0; usec = 0 }; time_now = none })
      (ready (λ k. k == 3))
      (record { sec = 9; usec = 0 })).0
    ≡ call_channels (λ k. k == 3)
unfolding loop_round
busy_round = refl
