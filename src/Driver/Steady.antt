-- ===== src/Driver/Steady.antt =====
-- vfdmod/linux_vfd/vfd.c: what holds of the driver and its chip between two events.
use vfdd.Prelude.{
  ℕ, zero, suc, ◌^◌, ◌≤◌, ◌<◌, ◌≡◌, refl, ◌∙◌, ◌||◌, List, [], ◌∷◌, arith, length, get_or, Outcome,
}
use vfdd.Prelude.Bits.{bit}
use vfdd.Driver.{DotLed, Vfd}
use vfdd.Driver.Glyphs.{driver_segments, vfd_glyphs}
use vfdd.Driver.Cells.{lit, glyph_image, shown}
use vfdd.Driver.Digits.{byte_at}
use vfdd.Driver.Bus.{Pin}
use vfdd.Driver.Chip.{Chip, run}
use vfdd.Driver.Update.{words_bytes, All16}
use vfdd.Driver.Refresh.{IsSetUp, IsRefreshed}

-- The words that the driver notes have the lamps of the text and of the overlay, and no others.
abbrev pub Shows : Vfd → List ℕ → Type 0
Shows v segno =
    ((i k : ℕ)
      → i < v.display_len
      → k < 16
      → bit (get_or v.raw_display i 0) k ≡ (
          lit 7 0 segno (glyph_image (vfd_glyphs driver_segments) (shown (byte_at v i)) 0) k
          || bit (get_or v.raw_overlay i 0) k))
    × ((i k : ℕ)
        → v.display_len ≤ i
        → i < v.words
        → bit (get_or v.raw_display i 0) k ≡ bit (get_or v.raw_overlay i 0) k)

-- The array has `n` lamps, and they are bits of the display's words.
abbrev pub AllInside : ℕ → ℕ → List DotLed → Type 0
AllInside words zero leds = Unit {0}
AllInside words (suc n) [] = ⊥
AllInside words (suc n) (led ∷ leds) =
    (led.word < words) × (led.bit_no < 16) × AllInside words n leds

-- The driver and its chip. An update is pending, or the chip shows the text and the overlay.
pub record IsInStep (words : ℕ) (segno : List ℕ) (v : Vfd) (c : Chip) : Type 0 where
  pub size : v.words ≡ words
  pub setup : IsSetUp v segno
  pub fits : v.display_len ≤ length v.display
  pub frames : v.boot_anim ≤ 6
  pub leds : AllInside v.words v.num_dotleds v.dotleds
  pub keystate : v.keystate < 2 ^ 32
  pub max_dim : v.brightness_max ≤ 8
  pub dim : v.brightness ≤ 8
  pub suspend_dim : v.brightness_suspend ≤ 8
  pub in_ram : c.core.ram ≡ words_bytes v.raw_display
  pub up_to_date : v.need_update ≡ 0 → Shows v segno

-- `w` on the board of `v`
abbrev pub placed : Vfd → Vfd → Vfd
placed v w = record w {
  words = v.words;
  display_len = v.display_len;
  grid_len = v.grid_len;
  grid_num = v.grid_num;
  render = v.render;
}

-- What a handler may change of a driver that is set up.
pub placed-IsSetUp :
    (v w : Vfd) (segno : List ℕ)
    → IsSetUp v segno
    → length w.display ≡ length v.display
    → ((i : ℕ) → get_or w.display i 0 < 256)
    → length w.raw_overlay ≡ v.words
    → All16 w.raw_overlay
    → length w.raw_display ≡ v.words
    → IsSetUp (placed v w) segno
placed-IsSetUp v w segno s same bytes overlay all ram = record {
  renders = s.renders;
  few = s.few;
  short = s.short;
  overlay = overlay;
  overlay_words = all;
  ram = ram;
  in_display = λ i h.
      let d = s.in_display i h in
      record {
        plain = λ e. omega (arith, d.plain e, same);
        mapped = d.mapped;
        inside = λ e. omega (arith, d.inside e, same);
      };
  bytes = bytes;
}

-- A change that the chip has yet to be told: of the text, of the overlay.
pub IsInStep-pending :
    (words : ℕ) (segno : List ℕ) (v : Vfd) (c : Chip) (d o : List ℕ) (left : ℕ)
    → IsInStep words segno v c
    → length d ≡ length v.display
    → ((i : ℕ) → get_or d i 0 < 256)
    → length o ≡ v.words
    → All16 o
    → left ≤ 6
    → IsInStep words segno
        (record v { display = d; raw_overlay = o; need_update = 1; boot_anim = left })
        c
IsInStep-pending words segno v c d o left s same bytes overlay all small = record {
  size = s.size;
  setup =
      placed-IsSetUp v
        (record v { display = d; raw_overlay = o; need_update = 1; boot_anim = left }) segno s.setup
        same bytes overlay all s.setup.ram;
  fits = omega (arith, same, s.fits);
  frames = small;
  leds = s.leds;
  keystate = s.keystate;
  max_dim = s.max_dim;
  dim = s.dim;
  suspend_dim = s.suspend_dim;
  in_ram = s.in_ram;
  up_to_date = λ e. absurd (omega arith);
}

-- A change of the brightness, and of what the chip's other registers hold.
pub IsInStep-dimmed :
    (words : ℕ) (segno : List ℕ) (v : Vfd) (c d : Chip) (bri sus en off : ℕ)
    → IsInStep words segno v c
    → bri ≤ 8
    → sus ≤ 8
    → d.core.ram ≡ c.core.ram
    → IsInStep words segno
        (record v { brightness = bri; brightness_suspend = sus; enabled = en; suspended = off })
        d
IsInStep-dimmed words segno v c d bri sus en off s h g same = record {
  size = s.size;
  setup =
      placed-IsSetUp v
        (record v { brightness = bri; brightness_suspend = sus; enabled = en; suspended = off })
        segno s.setup refl s.setup.bytes s.setup.overlay s.setup.overlay_words s.setup.ram;
  fits = s.fits;
  frames = s.frames;
  leds = s.leds;
  keystate = s.keystate;
  max_dim = s.max_dim;
  dim = h;
  suspend_dim = g;
  in_ram = same ∙ s.in_ram;
  up_to_date = s.up_to_date;
}

-- A change of what is noted of the keys.
pub IsInStep-scanned :
    (words : ℕ) (segno : List ℕ) (v : Vfd) (c : Chip) (sc code keys : ℕ)
    → IsInStep words segno v c
    → keys < 2 ^ 32
    → IsInStep words segno (record v { last_scancode = sc; last_keycode = code; keystate = keys }) c
IsInStep-scanned words segno v c sc code keys s h = record {
  size = s.size;
  setup =
      placed-IsSetUp v (record v { last_scancode = sc; last_keycode = code; keystate = keys }) segno
        s.setup refl s.setup.bytes s.setup.overlay s.setup.overlay_words s.setup.ram;
  fits = s.fits;
  frames = s.frames;
  leds = s.leds;
  keystate = h;
  max_dim = s.max_dim;
  dim = s.dim;
  suspend_dim = s.suspend_dim;
  in_ram = s.in_ram;
  up_to_date = s.up_to_date;
}

-- Pin events that leave the display RAM alone.
pub IsInStep-selected :
    (words : ℕ) (segno : List ℕ) (v : Vfd) (c : Chip) (pins : List Pin)
    → IsInStep words segno v c
    → (run c pins).core.ram ≡ c.core.ram
    → IsInStep words segno v (run c pins)
IsInStep-selected words segno v c pins s same =
    IsInStep-dimmed words segno v c (run c pins) v.brightness v.brightness_suspend v.enabled
      v.suspended s s.dim s.suspend_dim same

-- `hardware_update_display` brings the chip up to date.
pub IsInStep-refreshed :
    (words : ℕ) (segno : List ℕ) (v : Vfd) (c : Chip) (out : Outcome (Vfd × List Pin))
    → IsInStep words segno v c
    → (r : IsRefreshed (record v { need_update = 0 }) segno c out)
    → IsInStep words segno (record v { need_update = 0; raw_display = r.words }) (run c r.pins)
IsInStep-refreshed words segno v c out s r = record {
  size = s.size;
  setup =
      placed-IsSetUp v (record v { need_update = 0; raw_display = r.words }) segno s.setup refl
        s.setup.bytes s.setup.overlay s.setup.overlay_words r.count;
  fits = s.fits;
  frames = s.frames;
  leds = s.leds;
  keystate = s.keystate;
  max_dim = s.max_dim;
  dim = s.dim;
  suspend_dim = s.suspend_dim;
  in_ram = r.in_ram;
  up_to_date = λ e. (r.lamps, r.others);
}
