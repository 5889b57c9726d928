-- ===== src/Driver/History.antt =====
-- vfdmod/linux_vfd/vfd.c: sequences of events.
use vfdd.Prelude.{
  ℕ, ◌<◌, ◌≡◌, refl, sym, subst, ◌∙◌, Option, some, List, [], ◌∷◌, ◌++◌, append-nil, arith, length,
  Outcome, done,
}
use vfdd.Driver.{Vfd}
use vfdd.Driver.Bus.{Pin}
use vfdd.Driver.Chip.{Chip, run, run-append}
use vfdd.Driver.Steady.{Shows, IsInStep}
use vfdd.Driver.Session.{Kernel, Event, step, session, timer}
use vfdd.Driver.Ticks.{vfd_timer_sr-Timed}
use vfdd.Driver.Safety.{AllPossible, IsSafe, step-IsSafe}

-- Every sequence of events from a state in which driver and chip are in step returns, and leaves them
-- in step: no memory is accessed out of bounds, no handler hangs, and whenever no update is pending the
-- chip, which takes part in the key scans of the timer too, shows the text and the overlay.
pub session-IsSafe :
    (k : Kernel) (words : ℕ) (segno : List ℕ) (es : List Event) (v : Vfd) (c : Chip)
    → IsInStep words segno v c
    → AllPossible words es
    → IsSafe words segno c (session k v es)
unfolding session
session-IsSafe k words segno [] v c s h = record {
  vfd = v;
  pins = [];
  returns = refl;
  steady = unfold run in s;
}
session-IsSafe k words segno (e ∷ es) v c s (p, h) =
    let one = step-IsSafe k words segno v c e s p in
    let more = session-IsSafe k words segno es one.vfd (run c one.pins) one.steady h in
    rw (session, one.returns, more.returns)
      (record {
        vfd = more.vfd;
        pins = one.pins ++ more.pins;
        returns = refl;
        steady =
            subst (IsInStep words segno more.vfd) (sym (run-append c one.pins more.pins))
              more.steady;
      })

-- Runs of the timer and nothing else: what `DI` gives to a scan, and what the local arrays hold.
abbrev pub timers : List ((ℕ → ℕ) × List ℕ) → List Event
timers [] = []
timers ((levels, junk) ∷ rs) = timer levels junk ∷ timers rs

-- Where runs of the timer lead: the chip shows the text and the overlay, and nothing is left to do.
pub record Settled (words : ℕ) (segno : List ℕ) (v : Vfd) (c : Chip)
    (out : Option (Outcome (Vfd × List Pin))) : Type 0 where
  pub vfd : Vfd
  pub pins : List Pin
  pub returns : out ≡ some (done (vfd, pins))
  pub steady : IsInStep words segno vfd (run c pins)
  pub over : vfd.boot_anim ≡ 0
  pub updated : vfd.need_update ≡ 0
  pub shown : Shows vfd segno
  pub kept : v.boot_anim ≡ 0 → (vfd.display ≡ v.display) × (vfd.raw_overlay ≡ v.raw_overlay)

-- The driver gets there: where driver and chip are in step, runs of the timer, more of them than the
-- boot animation has frames left, end with the animation over, no update pending, and a chip that shows
-- the text and the overlay. Without an animation these are the ones from the start.
pub timers-Settled :
    (k : Kernel) (words : ℕ) (segno : List ℕ) (rs : List ((ℕ → ℕ) × List ℕ)) (v : Vfd) (c : Chip)
    → IsInStep words segno v c
    → AllPossible words (timers rs)
    → v.boot_anim < length rs
    → Settled words segno v c (session k v (timers rs))
unfolding session step
timers-Settled k words segno [] v c s h few = absurd (omega arith)
timers-Settled k words segno ((levels, junk) ∷ []) v c s (q, h) few =
    let t = vfd_timer_sr-Timed words segno v c levels junk s q in
    rw (session, step, t.returns, session)
      (record {
        vfd = t.vfd;
        pins = t.pins ++ [];
        returns = refl;
        steady = rw append-nil t.steady;
        over = omega (arith, t.fewer);
        updated = t.updated;
        shown = t.steady.up_to_date t.updated;
        kept = t.kept;
      })
timers-Settled k words segno ((levels, junk) ∷ r ∷ rs) v c s (q, h) few =
    let t = vfd_timer_sr-Timed words segno v c levels junk s q in
    let more =
      timers-Settled k words segno (r ∷ rs) t.vfd (run c t.pins) t.steady h
        (omega (arith, t.fewer)) in
    rw (session, step, t.returns)
      (rw more.returns (record {
        vfd = more.vfd;
        pins = t.pins ++ more.pins;
        returns = refl;
        steady =
            subst (IsInStep words segno more.vfd) (sym (run-append c t.pins more.pins)) more.steady;
        over = more.over;
        updated = more.updated;
        shown = more.shown;
        kept = λ e.
            let (text, overlay) = more.kept (omega (arith, t.fewer)) in
            let (text', overlay') = t.kept e in (text ∙ text', overlay ∙ overlay');
      }))
