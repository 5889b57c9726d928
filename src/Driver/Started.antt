-- ===== src/Driver/Started.antt =====
-- vfdmod/linux_vfd/vfd.c and pt6964.c: what `hardware_init` leaves of the driver and of the chip.
use vfdd.Prelude.Below.{below-append, below-drop, below-replicate}
use vfdd.Driver.Digits.{byte_at, init_glyphs_cc-cells}
use vfdd.Prelude.Memory.{splice, length-splice}
use Prim.Native.Nat.{bit_or-bitwise}
use vfdd.Driver.Panel.{brightness_now-control, clear_dram-zeros}
use vfdd.Driver.Frames.{run-cmd}
use vfdd.Driver.Bus.{
  cmd_display_mode, pt6964_cmd, pt6964_clear_dram, brightness_now, hardware_update_brightness, stb,
  clk,
}
use vfdd.Prelude.{
  ℕ, zero, suc, ◌+◌, ◌*◌, ◌/◌, ◌≤◌, ◌<◌, bit_or, ◌≡◌, refl, sym, ap, ◌∙◌, inl, inr, Bool, true,
  false, ◌||◌, Option, none, some, List, [], ◌∷◌, ◌++◌, arith, ◌==◌, ==_iff, Bool-cases, length,
  get_or, drop, replicate, length-replicate, done,
}
use vfdd.Prelude.Bits.{bit, bit-zero}
use vfdd.Driver.{Key, DotLed, Vfd, cathode}
use vfdd.Driver.Glyphs.{driver_segments, vfd_glyphs}
use vfdd.Driver.Cells.{lit, AreSmall, glyph_image, wiring, shown, cells_of}
use vfdd.Driver.Chip.{Core, Chip, command, start_frame, chip_pin, run, run-append}
use vfdd.Driver.Update.{words_bytes, All16}
use vfdd.Driver.Steady.{AllInside, IsInStep}
use vfdd.Driver.Probe.{
  Platform, Board, zeroed_vfd, init_pins, hardware_init, dotled_list, key_list, key_bytes,
  by_segment,
}

-- The lamps of the device tree: there are none, or each has a bit of a word of the display.
abbrev pub AreLamps : ℕ → Option (List (List ℕ)) → Option (List ℕ) → Type 0
AreLamps words none bits = Unit {0}
AreLamps words (some []) bits = Unit {0}
AreLamps words (some (n ∷ ns)) none = ⊥
AreLamps words (some (n ∷ ns)) (some bits) =
    (length bits ≡ length (n ∷ ns) * 2)
    × AllInside words (length (n ∷ ns)) (dotled_list (n ∷ ns) bits)

-- The keycodes are below `KEY_CNT`.
abbrev pub AreKeys : ℕ → List Key → Type 0
AreKeys cnt [] = Unit {0}
AreKeys cnt (k ∷ ks) = (k.keycode < cnt) × AreKeys cnt ks

-- The driver behind the two arrays of the device tree.
abbrev pub arranged : ℕ → List ℕ → List ℕ → Vfd
arranged words grid segs = record (zeroed_vfd words) {
  grid_num = splice (replicate words 0) 0 grid;
  grid_len = length grid;
  segment_no = splice (replicate 8 0) 0 segs;
  segment_len = length segs;
}

-- A board with a common-cathode display whose device tree fits it, where the kernel refuses nothing. The
-- arrays `grid_num` and `segment_no` are optional in the driver's struct: an empty one is no array.
pub record IsSound (p : Platform) (b : Board) (segno grid segs : List ℕ) : Type 0 where
  pub cathodes : p.wiring ≡ by_segment segno
  pub few : p.words ≤ 7
  pub short : p.display_len ≤ p.words
  pub dim : p.brightness ≤ 7
  pub plain_mode : p.display_mode < 64
  pub memory : b.memory ≡ true
  pub bus : (i : ℕ) → ((b.gpio i).no_desc ≡ none) × ((b.gpio i).busy ≡ none)
  pub order : b.grid_num ≡ inr grid
  pub order_fits : length grid ≤ p.words
  pub order_inside : (i : ℕ) → get_or grid i 0 < p.words
  pub segments : b.segment_no ≡ inr segs
  pub files : (i : ℕ) → b.file_error i ≡ none
  pub lamps : AreLamps p.words b.dot_names b.dot_bits
  pub input : b.input_device ≡ true
  pub no_error : b.register_error ≡ none
  pub keys : AreKeys b.key_cnt (key_list (key_bytes b.key_codes))
  pub small : AreSmall (wiring (arranged p.words grid segs) segno)

get_or-replicate : (n i : ℕ) → get_or {A = ℕ} (replicate n 0) i 0 ≡ 0
get_or-replicate zero i = refl
get_or-replicate (suc n) zero = refl
get_or-replicate (suc n) (suc i) = get_or-replicate n i

All16-replicate : (n : ℕ) → All16 (replicate n 0)
All16-replicate zero = tt
All16-replicate (suc n) = (omega arith, All16-replicate n)

words_bytes-replicate : (n : ℕ) → words_bytes (replicate n 0) ≡ replicate (n * 2) 0
words_bytes-replicate zero = refl
words_bytes-replicate (suc n) =
    let twice : suc n * 2 ≡ suc (suc (n * 2)) = omega arith in
    rw twice (ap (λ (t : List ℕ). 0 ∷ 0 ∷ t) (words_bytes-replicate n))

lit-zero : (n j : ℕ) (segno : List ℕ) (k : ℕ) → lit n j segno 0 k ≡ false
unfolding lit
lit-zero zero j segno k = refl
lit-zero (suc n) j segno k = rw (bit-zero j) (lit-zero n (j + 1) segno k)

blank : glyph_image (vfd_glyphs driver_segments) 32 0 ≡ 0
unfolding glyph_image vfd_glyphs
blank = refl

or_none : (b : ℕ) → bit_or 0 b ≡ b
or_none b = simp bit_or-bitwise refl

command-mode : (k : Core) (m : ℕ) → m < 64 → (command k (cmd_display_mode m)).ram ≡ k.ram
unfolding command
command-mode k m h = rw (or_none m, (==_iff (m / 64) 0).1 (omega arith)) refl

-- The driver and the chip behind `hardware_init`.
pub init_pins-ram :
    (p : Platform) (u : Vfd) (c : Chip)
    → p.display_mode < 64
    → brightness_now u ≤ 8
    → length c.core.ram ≡ p.words * 2
    → (run c (init_pins p u)).core.ram ≡ replicate (p.words * 2) 0
unfolding init_pins
init_pins-ram p u c mode dim len =
    let d = run (run c (stb 1 ∷ [])) (clk 1 ∷ []) in
    let clear = pt6964_clear_dram p.words in
    let set_mode = pt6964_cmd (cmd_display_mode p.display_mode) in
    let start : d.core.ram ≡ c.core.ram =
      unfold run chip_pin in
      elim (Bool-cases (c.clock == 0)) [ inl a ↦ rw a refl | inr a ↦ rw a refl ] in
    let (l, out) =
      run-cmd (run d clear) (cmd_display_mode p.display_mode)
        (omega (arith, or_none p.display_mode)) in
    ap (λ (x : Chip). x.core.ram)
      (run-append c (stb 1 ∷ []) (clk 1 ∷ clear ++ (set_mode ++ hardware_update_brightness u))
        ∙ run-append (run c (stb 1 ∷ [])) (clk 1 ∷ [])
            (clear ++ (set_mode ++ hardware_update_brightness u))
        ∙ run-append d clear (set_mode ++ hardware_update_brightness u)
        ∙ run-append (run d clear) set_mode (hardware_update_brightness u))
    ∙ ((brightness_now-control u (run (run d clear) set_mode) dim).1
        ∙ (ap (λ (x : Chip). x.core.ram) out
            ∙ (command-mode (start_frame (run d clear).core) p.display_mode mode
                ∙ clear_dram-zeros p.words d (ap length start ∙ len))))

-- The same behind `hardware_init`, for a common-cathode display, with lamps and keys.
abbrev pub started :
    Platform → List ℕ → List ℕ → List ℕ → ℕ → ℕ → List DotLed → List Key → Bool → Vfd
started p segno grid segs anim count leds keys has =
    let v = arranged p.words grid segs in
    record v {
      display_len = p.display_len;
      brightness = 1 + p.brightness;
      brightness_max = 8;
      brightness_suspend = 0;
      enabled = 1;
      render = cathode (cells_of (wiring v segno));
      boot_anim = anim;
      num_dotleds = count;
      dotleds = leds;
      keys = keys;
      has_input = has;
    }

pub hardware_init-started :
    (p : Platform) (segno grid segs : List ℕ)
    → p.wiring ≡ by_segment segno
    → AreSmall (wiring (arranged p.words grid segs) segno)
    → let u = started p segno grid segs 0 0 [] [] false in
      hardware_init p (arranged p.words grid segs) ≡ done (u, init_pins p u)
unfolding hardware_init zeroed_vfd
hardware_init-started p segno grid segs e small = rw (e, init_glyphs_cc-cells _ segno small) refl

-- It is in step with a chip that is cleared.
pub started-IsInStep :
    (p : Platform) (b : Board) (segno grid segs : List ℕ) (c : Chip) (count : ℕ)
    (leds : List DotLed) (keys : List Key) (has : Bool)
    → IsSound p b segno grid segs
    → c.core.ram ≡ replicate (p.words * 2) 0
    → AllInside p.words count leds
    → let v = started p segno grid segs 6 count leds keys has in
      IsInStep p.words (wiring v segno) v c
unfolding zeroed_vfd
started-IsInStep p b segno grid segs c count leds keys has s ram inside = record {
  size = refl;
  setup = record {
    renders = refl;
    few = s.few;
    short = s.short;
    overlay = long;
    overlay_words = All16-replicate p.words;
    ram = long;
    in_display = λ i h. record {
      plain = λ e. omega (arith, long, s.short);
      mapped = λ e. omega (arith, ordered, s.short);
      inside = λ e. omega (arith, long, order i);
    };
    bytes = λ i. omega (arith, get_or-replicate p.words i);
  };
  fits = omega (arith, long, s.short);
  frames = omega arith;
  leds = inside;
  keystate = omega arith;
  max_dim = omega arith;
  dim = omega (arith, s.dim);
  suspend_dim = omega arith;
  in_ram = ram ∙ sym (words_bytes-replicate p.words);
  up_to_date = λ e. (λ i k h g. dark i k, λ i k h g. refl);
}
  where
    v : Vfd
    v = started p segno grid segs 6 count leds keys has

    long : length (replicate {A = ℕ} p.words 0) ≡ p.words
    long = length-replicate p.words 0

    ordered : length (splice (replicate p.words 0) 0 grid) ≡ p.words
    ordered = length-splice (replicate p.words 0) 0 grid (omega (arith, long, s.order_fits)) ∙ long

    order : (i : ℕ) → get_or (splice (replicate p.words 0) 0 grid) i 0 < p.words
    order i =
        unfold splice in
        below-append grid (drop (0 + length grid) (replicate p.words 0)) s.order_inside
          (below-drop (0 + length grid) (replicate p.words 0)
            (below-replicate p.words p.words (omega (arith, s.order_inside 0))))
          i

    zero_at : (i : ℕ) → byte_at v i ≡ 0
    zero_at i = ground (
      arith,
      get_or-replicate p.words i,
      get_or-replicate p.words (get_or (splice (replicate p.words 0) 0 grid) i 0),
    )

    dark :
        (i k : ℕ)
        → bit (get_or (replicate p.words 0) i 0) k ≡ (
            lit 7 0
              (wiring v segno)
              (glyph_image (vfd_glyphs driver_segments) (shown (byte_at v i)) 0)
              k
            || bit (get_or (replicate p.words 0) i 0) k)
    dark i k = rw (zero_at i, blank, lit-zero 7 0 (wiring v segno) k) refl
