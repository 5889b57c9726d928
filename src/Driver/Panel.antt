-- ===== src/Driver/Panel.antt =====
-- vfdmod/linux_vfd/pt6964.c: clearing the chip, and its brightness.
use vfdd.Prelude.Bits.{or-control}
use vfdd.Prelude.{
  ℕ, zero, suc, ◌+◌, ◌-◌, ◌*◌, ◌/◌, ◌≤◌, ◌<◌, ◌≡◌, refl, sym, ap, ap₂, ◌∙◌, ◌≢◌, true, false, List,
  [], ◌∷◌, ◌++◌, append_assoc, arith, ◌==◌, if◌then◌else◌, ==_iff, ==_ne, length, replicate,
  length-append,
}
use vfdd.Driver.{Vfd}
use vfdd.Driver.Update.{set-prefix}
use vfdd.Driver.Bus.{
  cmd_data_setting, cmd_address_set, cmd_display_control, pt6964_send, pt6964_cmd, clear_loop,
  pt6964_clear_dram, brightness_now, hardware_update_brightness, stb,
}
use vfdd.Driver.Chip.{
  Core, Chip, command, chip_byte, start_frame, chip_pin, run, run-append, selected, run-send,
}
use vfdd.Driver.Frames.{released, writing, run-cmd, command-write, address-At}

command-control :
    (k : Core) (b : ℕ)
    → b < 8
    → command k (cmd_display_control 1 b) ≡ record k { expects_cmd = false; control = 8 + b }
unfolding command
command-control k b h =
    rw
      (
        or-control b h,
        ==_ne ((136 + b) / 64) 0 (omega arith),
        ==_ne ((136 + b) / 64) 1 (omega arith),
        (==_iff ((136 + b) / 64) 2).1 (omega arith),
      )
      (ap (λ n. record k { expects_cmd = false; control = n }) (omega arith))

command-off :
    (k : Core) → command k (cmd_display_control 0 0) ≡ record k { expects_cmd = false; control = 0 }
unfolding command
command-off k = refl

-- The display control of a chip for a brightness: 0 is off, and 1 to 8 are on at 0 to 7.
abbrev pub control_for : ℕ → ℕ
control_for b = if b == 0 then 0 else 8 + (b - 1)

-- The brightness in force: a disabled display has none, a suspended one that of the suspend.
pub data InForce (v : Vfd) : ℕ → Type 0 where
  disabled : v.enabled ≡ 0 → InForce v 0
  sleeping : v.enabled ≢ 0 → v.suspended ≢ 0 → InForce v v.brightness_suspend
  awake : v.enabled ≢ 0 → v.suspended ≡ 0 → InForce v v.brightness

brightness_now-InForce : (v : Vfd) (b : ℕ) → InForce v b → brightness_now v ≡ b
unfolding brightness_now
brightness_now-InForce v _ (disabled e) = rw ((==_iff v.enabled 0).1 e)
brightness_now-InForce v _ (sleeping h g) = rw (==_ne v.enabled 0 h, ==_ne v.suspended 0 g)
brightness_now-InForce v _ (awake h e) = rw (==_ne v.enabled 0 h, (==_iff v.suspended 0).1 e)

-- Whatever the brightness in force.
pub brightness_now-control :
    (v : Vfd) (c : Chip)
    → brightness_now v ≤ 8
    → ((run c (hardware_update_brightness v)).core.control ≡ control_for (brightness_now v))
      × ((run c (hardware_update_brightness v)).core.ram ≡ c.core.ram)
unfolding hardware_update_brightness
brightness_now-control v c h = split (brightness_now v) h
  where
    split :
        (b : ℕ)
        → b ≤ 8
        → let pins =
            if b == 0
            then pt6964_cmd (cmd_display_control 0 0)
            else pt6964_cmd (cmd_display_control 1 (b - 1)) in
          ((run c pins).core.control ≡ control_for b) × ((run c pins).core.ram ≡ c.core.ram)
    split zero p =
        let (l, out) = run-cmd c (cmd_display_control 0 0) (omega arith) in
        rw (out, command-off) (refl, refl)
    split (suc b) p =
        let small : cmd_display_control 1 b < 256 = omega (arith, or-control b (omega arith)) in
        let back : suc b - 1 ≡ b = omega arith in
        let (l, out) = run-cmd c (cmd_display_control 1 b) small in
        rw
          (
            ==_ne (suc b) 0 (omega arith),
            back,
            out,
            command-control (start_frame c.core) b (omega arith),
          )
          (refl, refl)

-- `hardware_update_brightness` sets the chip's display control to that of the brightness in force, if this
-- is at most 8, and leaves the display RAM alone: a disabled display is off, whatever else holds; one that
-- is enabled and suspended has the brightness of the suspend, and any other its own.
pub update_brightness-control :
    (v : Vfd) (c : Chip) (b : ℕ)
    → InForce v b
    → b ≤ 8
    → ((run c (hardware_update_brightness v)).core.control ≡ control_for b)
      × ((run c (hardware_update_brightness v)).core.ram ≡ c.core.ram)
update_brightness-control v c b f h =
    let e = brightness_now-InForce v b f in
    let (control, ram) = brightness_now-control v c (omega (arith, e, h)) in
    (control ∙ ap control_for e, ram)

-- Zeros behind `pre`.
clear_loop-ram :
    (n ck ln control mode : ℕ) (pre rest : List ℕ)
    → length rest ≡ n
    → (ck' ln' addr' : ℕ) × (run
          (selected ck ln [] (writing (pre ++ rest) (length pre) control mode))
          (clear_loop n)
        ≡ selected ck' ln' [] (writing (pre ++ replicate n 0) addr' control mode))
unfolding clear_loop chip_byte
clear_loop-ram zero ck ln control mode pre [] e = (ck, ln, length pre, unfold run in refl)
clear_loop-ram (suc n) ck ln control mode pre (x ∷ rest) e =
    let c = selected ck ln [] (writing (pre ++ x ∷ rest) (length pre) control mode) in
    let (l, sent) =
      run-send 0 ck ln (writing (pre ++ x ∷ rest) (length pre) control mode) (omega arith) in
    let (ck', ln', addr', out) =
      clear_loop-ram n 1 l control mode (pre ++ 0 ∷ []) rest (omega arith) in
    (
      ck',
      ln',
      addr',
      run-append c (pt6964_send 0) (clear_loop n)
          ∙ ap (λ d. run d (clear_loop n)) (sent ∙ stored l)
          ∙ out
          ∙ ap (λ ram. selected ck' ln' [] (writing ram addr' control mode))
              (append_assoc pre (0 ∷ []) (replicate n 0)),
    )
  where
    stored :
        (l : ℕ)
        → selected 1 l [] (chip_byte (writing (pre ++ x ∷ rest) (length pre) control mode) 0)
          ≡ selected 1 l []
              (writing ((pre ++ 0 ∷ []) ++ rest) (length (pre ++ 0 ∷ [])) control mode)
    stored l =
        ap₂ (λ ram a. selected 1 l [] (writing ram a control mode))
          (set-prefix pre x 0 rest (length pre) refl ∙ sym (append_assoc pre (0 ∷ []) rest))
          (sym (length-append pre (0 ∷ [])))
clear_loop-ram zero ck ln control mode pre (x ∷ rest) e = absurd (omega arith)
clear_loop-ram (suc n) ck ln control mode pre [] e = absurd (omega arith)

-- `pt6964_clear_dram` fills the chip's display RAM of two bytes for each word with zeros, whatever the
-- chip held and whatever its pins were.
pub clear_dram-zeros :
    (words : ℕ) (c : Chip)
    → length c.core.ram ≡ words * 2
    → (run c (pt6964_clear_dram words)).core.ram ≡ replicate (words * 2) 0
unfolding pt6964_clear_dram
clear_dram-zeros words c len =
    let setting = pt6964_cmd (cmd_data_setting 1 0) in
    let open_frame = stb 0 ∷ pt6964_send (cmd_address_set 0) in
    let k = record (start_frame c.core) { expects_cmd = false; auto_inc = true; reading = false } in
    let (l, set_mode) = run-cmd c (cmd_data_setting 1 0) (omega arith) in
    let ready : run c setting ≡ released l k =
      set_mode ∙ ap (released l) (command-write (start_frame c.core)) in
    let at = address-At (released l k) 0 (omega arith) refl refl in
    let (ck', ln', addr', out) =
      clear_loop-ram (words * 2) at.clock at.line at.control at.mode [] c.core.ram len in
    ap (λ (d : Chip). d.core.ram)
      (run-append c setting (open_frame ++ (clear_loop (words * 2) ++ stb 1 ∷ []))
        ∙ ap (λ d. run d (open_frame ++ (clear_loop (words * 2) ++ stb 1 ∷ []))) ready
        ∙ run-append (released l k) open_frame (clear_loop (words * 2) ++ stb 1 ∷ [])
        ∙ ap (λ d. run d (clear_loop (words * 2) ++ stb 1 ∷ [])) at.is
        ∙ run-append (selected at.clock at.line [] (writing c.core.ram 0 at.control at.mode))
            (clear_loop (words * 2)) (stb 1 ∷ [])
        ∙ ap (λ d. run d (stb 1 ∷ [])) out)
    ∙ (unfold run chip_pin in refl)
