-- ===== src/Driver/Timer.antt =====
-- vfdmod/linux_vfd/vfd.c: the timer's handler.
use vfdd.Prelude.{
  ℕ, ◌-◌, Option, none, some, List, [], ◌∷◌, ◌++◌, ◌==◌, if◌then◌else◌, get_elem?, Outcome, ◌>>=◌,
  done, fault,
}
use vfdd.Driver.{Vfd}
use vfdd.Driver.Bus.{Pin}
use vfdd.Driver.Keypad.{hardware_keys}
use vfdd.Driver.Refresh.{hardware_update_display}
use vfdd.Driver.Store.{put_display}
use vfdd.Driver.Scan.{Report, vfd_scan_keys}

-- `boot_anim`
abbrev pub boot_frames : List (List ℕ)
boot_frames =
    (b'b' ∷ b'o' ∷ b'o' ∷ b't' ∷ [])
    ∷ (b'b' ∷ b'_' ∷ b'_' ∷ b't' ∷ [])
    ∷ (b'b' ∷ b'o' ∷ b'o' ∷ b't' ∷ [])
    ∷ (b'b' ∷ b'0' ∷ b'0' ∷ b't' ∷ [])
    ∷ (b'b' ∷ b'*' ∷ b'*' ∷ b't' ∷ [])
    ∷ (b'b' ∷ b'~' ∷ b'~' ∷ b't' ∷ [])
    ∷ []

-- The boot animation: one frame less to show.
unfoldable pub animate : Vfd → Outcome Vfd
animate v = if v.boot_anim == 0 then done v else elim (get_elem? boot_frames (v.boot_anim - 1)) [
  | none ↦ fault
  | some frame ↦ put_display (record v { boot_anim = v.boot_anim - 1 }) frame 4
]

-- The display, if it changed.
unfoldable pub update_if : Vfd → List ℕ → Outcome (Vfd × List Pin)
update_if v junk =
    let updated = hardware_update_display (record v { need_update = 0 }) junk in
    if v.need_update == 0 then done (v, []) else updated

-- What follows the key scan in `vfd_timer_sr`.
unfoldable pub tick : Vfd → List ℕ → Outcome (Vfd × List Pin)
tick v junk = do v' ← animate v; update_if v' junk

-- `vfd_timer_sr`: `levels` are what `DI` gives in a scan, which comes before the rest.
unfoldable pub vfd_timer_sr :
    Vfd → (ℕ → ℕ) → List ℕ → Option (Outcome (Vfd × List Pin × List Report))
vfd_timer_sr v levels junk =
    let keys = hardware_keys levels in
    let pins = if v.has_input then keys.1 else [] in
    elim (if v.has_input then vfd_scan_keys v keys.0 else some (v, [])) [
      | none ↦ none
      | some (v', reports) ↦ some (do p ← tick v' junk; done (p.0, pins ++ p.1, reports))
    ]
