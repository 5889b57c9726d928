-- ===== src/Driver/Session.antt =====
-- vfdmod/linux_vfd/vfd.c: the driver at work. What happens to it are writes to the sysfs files, changes of
-- the power state and runs of the timer; `step` is the handler that each of them calls.
use vfdd.Prelude.{
  ℕ, Bool, Option, none, some, List, [], ◌∷◌, ◌++◌, ◌==◌, Outcome, ◌>>=◌, ◌>>?◌, done, fatal, fault,
}
use vfdd.Driver.{Vfd}
use vfdd.Driver.Bus.{Pin, hardware_suspend}
use vfdd.Driver.Store.{
  display_store, Strtoul, overlay_store, Kstrtouint, enable_store, brightness_store,
  brightness_suspend_store,
}
use vfdd.Driver.DotLeds.{dotled_store}
use vfdd.Driver.Timer.{vfd_timer_sr}

-- The kernel's functions that read texts: `isspace`, `simple_strtoul` in base 16 and in base 0, and
-- `kstrtouint` behind `skip_spaces`.
pub record Kernel : Type 0 where
  pub isspace : ℕ → Bool
  pub strtoul_hex : Strtoul
  pub strtoul : Strtoul
  pub kstrtouint : Kstrtouint

-- A write is a buffer and its `count`; `power` has the argument `suspend` of `vfd_power_common`; `timer`
-- has what `DI` gives to a scan and what the local array of an update holds before it is written.
pub data Event : Type 0 where
  write_display : List ℕ → ℕ → Event
  write_overlay : List ℕ → ℕ → Event
  write_enable : List ℕ → ℕ → Event
  write_brightness : List ℕ → ℕ → Event
  write_brightness_suspend : List ℕ → ℕ → Event
  write_dotled : List ℕ → ℕ → Event
  power : ℕ → Event
  timer : (ℕ → ℕ) → List ℕ → Event

-- `vfd_power_common`: the driver, the pin events, and whether `uevent_suspend` is called.
unfoldable pub vfd_power_common : Vfd → ℕ → Vfd × List Pin × Bool
vfd_power_common v suspend = let out = hardware_suspend v suspend in (out.0, out.1, suspend == 0)

-- `vfd_suspend` and `vfd_shutdown`, and `vfd_resume`
unfoldable pub vfd_suspend : Vfd → Vfd × List Pin × Bool
vfd_suspend v = vfd_power_common v 1

unfoldable pub vfd_resume : Vfd → Vfd × List Pin × Bool
vfd_resume v = vfd_power_common v 0

-- The handler of an event: the driver and the pin events behind it.
unfoldable pub step : Kernel → Vfd → Event → Option (Outcome (Vfd × List Pin))
step k v (write_display buf count) = some (do p ← display_store v buf count; done (p.0, []))
step k v (write_overlay buf count) =
    some (do p ← overlay_store k.isspace k.strtoul_hex v buf count; done (p.0, []))
step k v (write_enable buf count) =
    let out = enable_store k.kstrtouint v buf count in some (done (out.0, out.1))
step k v (write_brightness buf count) =
    let out = brightness_store k.kstrtouint v buf count in some (done (out.0, out.1))
step k v (write_brightness_suspend buf count) =
    some (done ((brightness_suspend_store k.kstrtouint v buf count).0, []))
step k v (write_dotled buf count) = elim (dotled_store k.isspace k.strtoul v buf count) [
  | none ↦ none
  | some out ↦ some (do p ← out; done (p.0, []))
]
step k v (power suspend) = let out = vfd_power_common v suspend in some (done (out.0, out.1))
step k v (timer levels junk) = elim (vfd_timer_sr v levels junk) [
  | none ↦ none
  | some out ↦ some (do p ← out; done (p.0, p.1))
]

-- The pin events `pins` in front of those of `out`.
abbrev pub after : List Pin → Option (Outcome (Vfd × List Pin)) → Option (Outcome (Vfd × List Pin))
after pins none = none
after pins (some fatal) = some fatal
after pins (some fault) = some fault
after pins (some (done (v, more))) = some (done (v, pins ++ more))

-- A sequence of events.
unfoldable pub session : Kernel → Vfd → List Event → Option (Outcome (Vfd × List Pin))
session k v [] = some (done (v, []))
session k v (e ∷ es) = elim (step k v e) [
  | none ↦ none
  | some out ↦ out >>? λ p. after p.1 (session k p.0 es)
]
