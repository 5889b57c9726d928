-- ===== src/Driver/Ticks.antt =====
-- vfdmod/linux_vfd/vfd.c: what a run of the timer does to a driver that is in step with its chip.
use vfdd.Prelude.Below.{below-append, below-take, below-drop, below-replicate}
use vfdd.Prelude.{
  ℕ, zero, suc, ◌-◌, ◌≤◌, ◌<◌, min, ◌≡◌, refl, sym, ap, subst, ◌∙◌, inl, inr, Bool, Option, none,
  some, List, [], ◌∷◌, ◌++◌, arith, ◌==◌, if◌then◌else◌, ==_iff, Bool-cases, length, get_elem?,
  get_or, take, drop, replicate, length-append, length-take, length-drop, length-replicate, Outcome,
  ◌>>=◌, done,
}
use vfdd.Driver.{Vfd}
use vfdd.Driver.Bus.{Pin}
use vfdd.Driver.Chip.{Chip, run, run-append}
use vfdd.Driver.Keypad.{hardware_keys}
use vfdd.Driver.Keyframe.{hardware_keys-kept, hardware_keys-lt}
use vfdd.Driver.Scan.{Report, vfd_scan_keys}
use vfdd.Driver.Scanned.{changes, vfd_scan_keys-changes}
use vfdd.Driver.Refresh.{hardware_update_display-IsRefreshed}
use vfdd.Driver.Timer.{boot_frames, animate, update_if, tick, vfd_timer_sr}
use vfdd.Driver.Stored.{written, put_display-written}
use vfdd.Driver.Steady.{
  IsInStep, placed-IsSetUp, IsInStep-pending, IsInStep-scanned, IsInStep-selected,
  IsInStep-refreshed,
}

-- A text that is stored leaves the driver in step: an update is pending.
pub IsInStep-written :
    (words : ℕ) (segno : List ℕ) (v : Vfd) (c : Chip) (buf : List ℕ) (count left : ℕ)
    → IsInStep words segno v c
    → count ≤ length buf
    → ((i : ℕ) → get_or buf i 0 < 256)
    → left ≤ 6
    → IsInStep words segno
        (record v { display = written v buf count; need_update = 1; boot_anim = left })
        c
IsInStep-written words segno v c buf count left s has bytes small =
    let n = min count v.display_len in
    IsInStep-pending words segno v c (written v buf count) v.raw_overlay left s
      (omega (
        arith,
        s.fits,
        length-append (take n buf)
            (replicate (v.display_len - n) 0 ++ drop v.display_len v.display),
        length-append (replicate (v.display_len - n) 0) (drop v.display_len v.display),
        length-take n buf,
        length-replicate {A = ℕ} (v.display_len - n) 0,
        length-drop v.display_len v.display,
      ))
      (below-append (take n buf) _ (below-take n buf bytes) (
        below-append (replicate (v.display_len - n) 0) _
          (below-replicate (v.display_len - n) 256 (omega arith))
          (below-drop v.display_len v.display s.setup.bytes)))
      s.setup.overlay s.setup.overlay_words small

four_bytes :
    (a b c d : ℕ)
    → (a < 256) × (b < 256) × (c < 256) × (d < 256)
    → (i : ℕ) → get_or (a ∷ b ∷ c ∷ d ∷ []) i 0 < 256
four_bytes a b c d (p, q, r, s) zero = p
four_bytes a b c d (p, q, r, s) (suc zero) = q
four_bytes a b c d (p, q, r, s) (suc (suc zero)) = r
four_bytes a b c d (p, q, r, s) (suc (suc (suc zero))) = s
four_bytes a b c d (p, q, r, s) (suc (suc (suc (suc i)))) = omega arith

-- A frame of the boot animation has four characters.
boot_frame :
    (n : ℕ)
    → n < 6
    → (frame : List ℕ) × (get_elem? boot_frames n ≡ some frame)
      × (4 ≤ length frame)
      × ((i : ℕ) → get_or frame i 0 < 256)
boot_frame zero h = (_, refl, omega arith, four_bytes _ _ _ _ (omega arith))
boot_frame (suc zero) h = (_, refl, omega arith, four_bytes _ _ _ _ (omega arith))
boot_frame (suc (suc zero)) h = (_, refl, omega arith, four_bytes _ _ _ _ (omega arith))
boot_frame (suc (suc (suc zero))) h = (_, refl, omega arith, four_bytes _ _ _ _ (omega arith))
boot_frame (suc (suc (suc (suc zero)))) h = (_, refl, omega arith, four_bytes _ _ _ _ (omega arith))
boot_frame (suc (suc (suc (suc (suc zero))))) h =
    (_, refl, omega arith, four_bytes _ _ _ _ (omega arith))
boot_frame (suc (suc (suc (suc (suc (suc n)))))) h = absurd (omega arith)

-- The animation takes its next frame, or is over and changes nothing.
pub record Animated (words : ℕ) (segno : List ℕ) (v : Vfd) (c : Chip) (out : Outcome Vfd)
    : Type 0 where
  pub vfd : Vfd
  pub returns : out ≡ done vfd
  pub steady : IsInStep words segno vfd c
  pub fewer : vfd.boot_anim ≡ v.boot_anim - 1
  pub over : v.boot_anim ≡ 0 → vfd ≡ v

pub animate-Animated :
    (words : ℕ) (segno : List ℕ) (v : Vfd) (c : Chip)
    → IsInStep words segno v c
    → Animated words segno v c (animate v)
unfolding animate
animate-Animated words segno v c s = elim (Bool-cases (v.boot_anim == 0)) [
  | inl a ↦
      let none_left : v.boot_anim ≡ 0 = (==_iff v.boot_anim 0).0 a in
      rw a (record { vfd = v; returns = refl; steady = s; fewer = omega arith; over = λ e. refl })
  | inr a ↦
      let left = v.boot_anim - 1 in
      let some_left : 0 < v.boot_anim = ground arith in
      let (frame, found, long, bytes) = boot_frame left (omega (arith, s.frames)) in
      rw (a, found, put_display-written (record v { boot_anim = left }) frame 4 s.fits long)
        (record {
          vfd = record v { display = written v frame 4; need_update = 1; boot_anim = left };
          returns = refl;
          steady =
              IsInStep-written words segno v c frame 4 left s long bytes (omega (arith, s.frames));
          fewer = refl;
          over = λ e. absurd (omega arith);
        })
]

-- What a run of the timer leaves, the key scan apart: no update is pending, so the chip shows the text
-- and the overlay; without a boot animation these are what they were.
pub record Ticked (words : ℕ) (segno : List ℕ) (v : Vfd) (c : Chip) (out : Outcome (Vfd × List Pin))
    : Type 0 where
  pub vfd : Vfd
  pub pins : List Pin
  pub returns : out ≡ done (vfd, pins)
  pub steady : IsInStep words segno vfd (run c pins)
  pub updated : vfd.need_update ≡ 0
  pub fewer : vfd.boot_anim ≡ v.boot_anim - 1
  pub kept : v.boot_anim ≡ 0 → (vfd.display ≡ v.display) × (vfd.raw_overlay ≡ v.raw_overlay)

update_if-Ticked :
    (words : ℕ) (segno : List ℕ) (v : Vfd) (c : Chip) (junk : List ℕ)
    → IsInStep words segno v c
    → length junk ≡ words
    → (vfd : Vfd) × (pins : List Pin) × (update_if v junk ≡ done (vfd, pins))
      × IsInStep words segno vfd (run c pins)
      × (vfd.need_update ≡ 0)
      × (vfd.boot_anim ≡ v.boot_anim)
      × (vfd.display ≡ v.display)
      × (vfd.raw_overlay ≡ v.raw_overlay)
unfolding update_if
update_if-Ticked words segno v c junk s len = elim (Bool-cases (v.need_update == 0)) [
  | inl a ↦ rw a (v, [], refl, (unfold run in s), (==_iff v.need_update 0).0 a, refl, refl, refl)
  | inr a ↦
      let ready =
        placed-IsSetUp v (record v { need_update = 0 }) segno s.setup refl s.setup.bytes
          s.setup.overlay s.setup.overlay_words s.setup.ram in
      let r =
        hardware_update_display-IsRefreshed (record v { need_update = 0 }) segno junk c ready
          (len ∙ sym s.size) s.in_ram in
      rw (a, r.returns)
        (
          record v { need_update = 0; raw_display = r.words },
          r.pins,
          refl,
          IsInStep-refreshed words segno v c _ s r,
          refl,
          refl,
          refl,
          refl,
        )
]

pub tick-Ticked :
    (words : ℕ) (segno : List ℕ) (v : Vfd) (c : Chip) (junk : List ℕ)
    → IsInStep words segno v c
    → length junk ≡ words
    → Ticked words segno v c (tick v junk)
unfolding tick
tick-Ticked words segno v c junk s len =
    let a = animate-Animated words segno v c s in
    let (vfd, pins, returns, steady, updated, same, text, overlay) =
      update_if-Ticked words segno a.vfd c junk a.steady len in
    record {
      vfd = vfd;
      pins = pins;
      returns = rw a.returns returns;
      steady = steady;
      updated = updated;
      fewer = same ∙ a.fewer;
      kept = λ e. (
        text ∙ ap (λ (w : Vfd). w.display) (a.over e),
        overlay ∙ ap (λ (w : Vfd). w.raw_overlay) (a.over e),
      );
    }

-- What a whole run of the timer leaves.
pub record Timed (words : ℕ) (segno : List ℕ) (v : Vfd) (c : Chip)
    (out : Option (Outcome (Vfd × List Pin × List Report))) : Type 0 where
  pub vfd : Vfd
  pub pins : List Pin
  pub reports : List Report
  pub returns : out ≡ some (done (vfd, pins, reports))
  pub steady : IsInStep words segno vfd (run c pins)
  pub updated : vfd.need_update ≡ 0
  pub fewer : vfd.boot_anim ≡ v.boot_anim - 1
  pub kept : v.boot_anim ≡ 0 → (vfd.display ≡ v.display) × (vfd.raw_overlay ≡ v.raw_overlay)

timer-Timed :
    (words : ℕ) (segno : List ℕ) (v w : Vfd) (c : Chip) (junk : List ℕ) (pins : List Pin)
    (reports : List Report)
    → w.boot_anim ≡ v.boot_anim
    → w.display ≡ v.display
    → w.raw_overlay ≡ v.raw_overlay
    → Ticked words segno w (run c pins) (tick w junk)
    → Timed words segno v c (some (tick w junk >>= λ p. done (p.0, pins ++ p.1, reports)))
timer-Timed words segno v w c junk pins reports frames text overlay t = record {
  vfd = t.vfd;
  pins = pins ++ t.pins;
  reports = reports;
  returns = rw t.returns refl;
  steady = subst (IsInStep words segno t.vfd) (sym (run-append c pins t.pins)) t.steady;
  updated = t.updated;
  fewer = omega (arith, t.fewer, frames);
  kept = λ e. let (a, b) = t.kept (frames ∙ e) in (a ∙ text, b ∙ overlay);
}

-- A run of the timer, whatever keys are down, of a driver that is in step with its chip: it
-- returns, and afterwards no update is pending, the chip shows the text and the overlay, and a boot
-- animation has one frame less to go. Once that is over the run changes neither text nor overlay.
pub vfd_timer_sr-Timed :
    (words : ℕ) (segno : List ℕ) (v : Vfd) (c : Chip) (levels : ℕ → ℕ) (junk : List ℕ)
    → IsInStep words segno v c
    → length junk ≡ words
    → Timed words segno v c (vfd_timer_sr v levels junk)
unfolding vfd_timer_sr
vfd_timer_sr-Timed words segno v c levels junk s len = elim (Bool-cases v.has_input) [
  | inl a ↦
      let keys = hardware_keys levels in
      let h = hardware_keys-lt levels in
      let (sc, code, found) = vfd_scan_keys-changes v keys.0 h s.keystate in
      let w = record v { last_scancode = sc; last_keycode = code; keystate = keys.0 } in
      let after = IsInStep-selected words segno v c keys.1 s (hardware_keys-kept c levels).0 in
      let t =
        tick-Ticked words segno w (run c keys.1) junk
          (IsInStep-scanned words segno v (run c keys.1) sc code keys.0 after h) len in
      subst (λ b. Timed words segno v c (timed b)) (sym a)
        (subst (λ o. Timed words segno v c (behind keys.1 o)) (sym found)
          (timer-Timed words segno v w c junk keys.1 (changes v.keys 32 0 keys.0 v.keystate) refl
            refl refl t))
  | inr a ↦
      subst (λ b. Timed words segno v c (timed b)) (sym a)
        (timer-Timed words segno v v c junk [] [] refl refl refl
          (unfold run in tick-Ticked words segno v c junk s len))
]
  where
    behind : List Pin → Option (Vfd × List Report) → Option (Outcome (Vfd × List Pin × List Report))
    behind pins o = elim o [
      | none ↦ none
      | some (v', reports) ↦ some (do p ← tick v' junk; done (p.0, pins ++ p.1, reports))
    ]

    timed : Bool → Option (Outcome (Vfd × List Pin × List Report))
    timed b =
        let keys = hardware_keys levels in
        behind (if b then keys.1 else []) (if b then vfd_scan_keys v keys.0 else some (v, []))
