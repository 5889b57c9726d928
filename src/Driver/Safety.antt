-- ===== src/Driver/Safety.antt =====
-- vfdmod/linux_vfd/vfd.c: no sequence of events makes the driver fail, and what the timer leads to.
use vfdd.Prelude.{
  ℕ, ◌%◌, ◌≤◌, ◌<◌, max, ◌≡◌, refl, sym, subst, inl, inr, Bool, true, false, Option, none, some,
  List, [], ◌∷◌, arith, ltb, if◌then◌else◌, length, get_or, Outcome, ◌>>=◌, done,
}
use vfdd.Driver.{Vfd}
use vfdd.Driver.Bus.{Pin, brightness_now, hardware_update_brightness, hardware_suspend}
use vfdd.Driver.Chip.{Chip, run}
use vfdd.Driver.Panel.{brightness_now-control}
use vfdd.Driver.Store.{
  display_store, capped, enable_store, brightness_store, brightness_suspend_store,
}
use vfdd.Driver.Stored.{written, put_display-written}
use vfdd.Driver.Steady.{IsInStep, IsInStep-pending, IsInStep-dimmed}
use vfdd.Driver.Session.{
  Kernel, Event, vfd_power_common, step, write_display, write_overlay, write_enable,
  write_brightness, write_brightness_suspend, write_dotled, power, timer,
}
use vfdd.Driver.Overlay.{Overlaid, overlay_store-Overlaid}
use vfdd.Driver.Lamps.{dotled_store-Lit}
use vfdd.Driver.Ticks.{IsInStep-written, vfd_timer_sr-Timed}

-- What the kernel gives: a buffer of a text has its `count` bytes, and the local array has the size of the display.
abbrev pub IsPossible : ℕ → Event → Type 0
IsPossible words (write_display buf count) = (count ≤ length buf) × ((i : ℕ) → get_or buf i 0 < 256)
IsPossible words (timer levels junk) = length junk ≡ words
IsPossible words e = Unit {0}

abbrev pub AllPossible : ℕ → List Event → Type 0
AllPossible words [] = Unit {0}
AllPossible words (e ∷ es) = IsPossible words e × AllPossible words es

-- What handlers leave: they return, and driver and chip are in step.
pub record IsSafe (words : ℕ) (segno : List ℕ) (c : Chip) (out : Option (Outcome (Vfd × List Pin)))
    : Type 0 where
  pub vfd : Vfd
  pub pins : List Pin
  pub returns : out ≡ some (done (vfd, pins))
  pub steady : IsInStep words segno vfd (run c pins)

Overlaid-IsInStep :
    {A : Type 0} (words : ℕ) (segno : List ℕ) (v : Vfd) (c : Chip) (value : A)
    (out : Outcome (Vfd × A))
    → IsInStep words segno v c
    → Overlaid v value out
    → IsSafe words segno c (some (out >>= λ p. done (p.0, [])))
Overlaid-IsInStep words segno v c value out s o = record {
  vfd = record v { raw_overlay = o.overlay; need_update = o.update };
  pins = [];
  returns = rw o.returns refl;
  steady =
      unfold run in
      elim o.noted [
        | inl e ↦
            subst
              (λ n. IsInStep words segno (record v { raw_overlay = o.overlay; need_update = n }) c)
              (sym e)
              (IsInStep-pending words segno v c v.display o.overlay v.boot_anim s refl s.setup.bytes
                o.same_length o.words s.frames)
        | inr (e, f) ↦
            subst
              (λ n. IsInStep words segno (record v { raw_overlay = o.overlay; need_update = n }) c)
              (sym f) (subst (λ l. IsInStep words segno (record v { raw_overlay = l }) c) (sym e) s)
      ];
}

capped-le : (value max : ℕ) → max ≤ 8 → capped value max ≤ 8
capped-le value max h = ground arith

brightness_now-le : (v : Vfd) → v.brightness ≤ 8 → v.brightness_suspend ≤ 8 → brightness_now v ≤ 8
unfolding brightness_now
brightness_now-le v h g = ground arith

-- The pin events of a change of the brightness, or none.
dimmed :
    (words : ℕ) (segno : List ℕ) (v : Vfd) (c : Chip) (bri en off : ℕ) (b : Bool)
    → IsInStep words segno v c
    → bri ≤ 8
    → let w = record v { brightness = bri; enabled = en; suspended = off } in
      IsSafe words segno c (some (done (w, if b then hardware_update_brightness w else [])))
dimmed words segno v c bri en off true s h =
    let w = record v { brightness = bri; enabled = en; suspended = off } in
    record {
      vfd = w;
      pins = hardware_update_brightness w;
      returns = refl;
      steady =
          IsInStep-dimmed words segno v c (run c (hardware_update_brightness w)) bri
            v.brightness_suspend en off s h s.suspend_dim
            (brightness_now-control w c (brightness_now-le w h s.suspend_dim)).1;
    }
dimmed words segno v c bri en off false s h = record {
  vfd = record v { brightness = bri; enabled = en; suspended = off };
  pins = [];
  returns = refl;
  steady =
      unfold run in
      IsInStep-dimmed words segno v c c bri v.brightness_suspend en off s h s.suspend_dim refl;
}

unchanged :
    (words : ℕ) (segno : List ℕ) (v : Vfd) (c : Chip)
    → IsInStep words segno v c
    → IsSafe words segno c (some (done (v, [])))
unchanged words segno v c s = record {
  vfd = v;
  pins = [];
  returns = refl;
  steady = unfold run in s;
}

write_enable-IsSafe :
    (k : Kernel) (words : ℕ) (segno : List ℕ) (v : Vfd) (c : Chip) (buf : List ℕ) (count : ℕ)
    → IsInStep words segno v c
    → IsSafe words segno c (step k v (write_enable buf count))
unfolding step enable_store
write_enable-IsSafe k words segno v c buf count s = read (k.kstrtouint buf)
  where
    read :
        (r : Option ℕ)
        → IsSafe words segno c (
            let out : Vfd × List Pin × Option ℕ = elim r [
              | none ↦ (v, [], none)
              | some value ↦
                  let v' = record v { enabled = capped value 1 } in
                  (v', if ltb 0 count then hardware_update_brightness v' else [], some count)
            ] in
            some (done (out.0, out.1)))
    read none = unchanged words segno v c s
    read (some value) =
        dimmed words segno v c v.brightness (capped value 1) v.suspended (ltb 0 count) s s.dim

write_brightness-IsSafe :
    (k : Kernel) (words : ℕ) (segno : List ℕ) (v : Vfd) (c : Chip) (buf : List ℕ) (count : ℕ)
    → IsInStep words segno v c
    → IsSafe words segno c (step k v (write_brightness buf count))
unfolding step brightness_store
write_brightness-IsSafe k words segno v c buf count s = read (k.kstrtouint buf)
  where
    read :
        (r : Option ℕ)
        → IsSafe words segno c (
            let out : Vfd × List Pin × Option ℕ = elim r [
              | none ↦ (v, [], none)
              | some value ↦
                  let v' = record v { brightness = capped value v.brightness_max } in
                  (v', if ltb 0 count then hardware_update_brightness v' else [], some count)
            ] in
            some (done (out.0, out.1)))
    read none = unchanged words segno v c s
    read (some value) =
        dimmed words segno v c (capped value v.brightness_max) v.enabled v.suspended (ltb 0 count) s
          (capped-le value v.brightness_max s.max_dim)

write_brightness_suspend-IsSafe :
    (k : Kernel) (words : ℕ) (segno : List ℕ) (v : Vfd) (c : Chip) (buf : List ℕ) (count : ℕ)
    → IsInStep words segno v c
    → IsSafe words segno c (step k v (write_brightness_suspend buf count))
unfolding step brightness_suspend_store
write_brightness_suspend-IsSafe k words segno v c buf count s = read (k.kstrtouint buf)
  where
    read :
        (r : Option ℕ)
        → IsSafe words segno c (
            let out : Vfd × Option ℕ = elim r [
              | none ↦ (v, none)
              | some value ↦
                  (record v { brightness_suspend = capped value v.brightness_max }, some count)
            ] in
            some (done (out.0, [])))
    read none = unchanged words segno v c s
    read (some value) = record {
      vfd = record v { brightness_suspend = capped value v.brightness_max };
      pins = [];
      returns = refl;
      steady =
          unfold run in
          IsInStep-dimmed words segno v c c v.brightness (capped value v.brightness_max) v.enabled
            v.suspended s s.dim (capped-le value v.brightness_max s.max_dim) refl;
    }

-- Every event in every state: where driver and chip are in step, the handler returns, without an access
-- out of bounds and without an endless loop, and they are in step afterwards. The kernel's functions on
-- texts are arbitrary.
pub step-IsSafe :
    (k : Kernel) (words : ℕ) (segno : List ℕ) (v : Vfd) (c : Chip) (e : Event)
    → IsInStep words segno v c
    → IsPossible words e
    → IsSafe words segno c (step k v e)
unfolding step display_store
step-IsSafe k words segno v c (write_display buf count) s (has, bytes) =
    rw (step, display_store, put_display-written v buf count s.fits has)
      (record {
        vfd = record v { display = written v buf count; need_update = 1 };
        pins = [];
        returns = refl;
        steady =
            unfold run in
            IsInStep-written words segno v c buf count v.boot_anim s has bytes s.frames;
      })
step-IsSafe k words segno v c (write_overlay buf count) s p =
    Overlaid-IsInStep words segno v c count _ s (
      overlay_store-Overlaid k.isspace k.strtoul_hex v buf count s.setup.overlay
        s.setup.overlay_words)
step-IsSafe k words segno v c (write_enable buf count) s p =
    write_enable-IsSafe k words segno v c buf count s
step-IsSafe k words segno v c (write_brightness buf count) s p =
    write_brightness-IsSafe k words segno v c buf count s
step-IsSafe k words segno v c (write_brightness_suspend buf count) s p =
    write_brightness_suspend-IsSafe k words segno v c buf count s
step-IsSafe k words segno v c (write_dotled buf count) s p =
    let lit =
      dotled_store-Lit k.isspace k.strtoul v buf count s.setup.overlay s.setup.overlay_words
        s.leds in
    rw (step, lit.returns) (Overlaid-IsInStep words segno v c count lit.result s lit.left)
step-IsSafe k words segno v c (power suspend) s p =
    unfold vfd_power_common hardware_suspend in
    dimmed words segno v c v.brightness v.enabled (suspend % 256) true s s.dim
step-IsSafe k words segno v c (timer levels junk) s len =
    let t = vfd_timer_sr-Timed words segno v c levels junk s len in
    rw (step, t.returns) (record { vfd = t.vfd; pins = t.pins; returns = refl; steady = t.steady })
