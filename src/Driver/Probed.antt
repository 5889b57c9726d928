-- ===== src/Driver/Probed.antt =====
-- vfdmod/linux_vfd/vfd.c and pt6964.c: what `vfd_probe` leaves.
use vfdd.Driver.Bus.{Pin}
use vfdd.Prelude.{ℕ, ◌≡◌, refl, List, [], ◌∷◌, lt→ltb, done}
use vfdd.Driver.{Key, Vfd}
use vfdd.Driver.Cells.{wiring}
use vfdd.Driver.Chip.{Chip, run}
use vfdd.Driver.Steady.{IsInStep}
use vfdd.Driver.Probe.{Platform, Act, set_bits, Probed, probed}
use vfdd.Driver.Started.{AreKeys}

pub set_bits-done : (cnt : ℕ) (ks : List Key) → AreKeys cnt ks → set_bits cnt ks ≡ done tt
unfolding set_bits
set_bits-done cnt [] h = refl
set_bits-done cnt (k ∷ ks) (p, h) = rw (set_bits, lt→ltb k.keycode cnt p) (set_bits-done cnt ks h)

-- A sound board is probed: the driver that `vfd_probe` leaves and the chip, whatever that held, are in
-- step. So the theorems on sequences of events hold from there on.
pub record IsProbed (p : Platform) (segno : List ℕ) (c : Chip) (out : Probed) : Type 0 where
  pub vfd : Vfd
  pub pins : List Pin
  pub acts : List Act
  pub returns : out ≡ probed vfd pins acts
  pub steady : IsInStep p.words (wiring vfd segno) vfd (run c pins)
  pub animated : vfd.boot_anim ≡ 6
