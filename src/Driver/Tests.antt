-- ===== src/Driver/Tests.antt =====
-- The theorems on the driver at a concrete display of two positions.
use Prim.Native.Nat.{◌<◌}
use vfdd.Prelude.{
  ℕ, zero, suc, ◌<◌, ◌≡◌, refl, inl, true, false, ◌||◌, some, List, [], ◌∷◌, arith, get_or, ◌>>=◌,
  done,
}
use vfdd.Prelude.Bits.{bit}
use vfdd.Driver.{Vfd, cathode}
use vfdd.Driver.Cathode.{init_glyphs_cc, display_to_raw_cc}
use vfdd.Driver.Cells.{AreSmall, cells_of}
use vfdd.Driver.Digits.{InDisplay, ShowsText, display_to_raw_cc-ShowsText, init_glyphs_cc-cells}
use vfdd.Driver.Bus.{pt6964_clear_dram, hardware_update_brightness, no_word, update_loop}
use vfdd.Driver.Chip.{Chip, run}
use vfdd.Driver.Update.{update_loop-ram}
use vfdd.Driver.Refresh.{
  hardware_update_display, IsSetUp, IsRefreshed, hardware_update_display-IsRefreshed,
}
use vfdd.Driver.Panel.{control_for, update_brightness-control, clear_dram-zeros, awake}
use vfdd.Driver.Store.{display_store}
use vfdd.Driver.Scan.{vfd_scan_keys}
use vfdd.Driver.Scanned.{keys_at, changes, vfd_scan_keys-changes}
use vfdd.Driver.Timer.{tick}
use vfdd.Driver.Stored.{display_store-IsRefreshed}
use vfdd.Driver.Keypad.{key_pair, key_pair-bits}

-- A wiring of seven segments.
abbrev segments : List ℕ
segments = 0 ∷ 1 ∷ 2 ∷ 3 ∷ 4 ∷ 5 ∷ 6 ∷ []

-- Two positions that show "8", with one lamp of the overlay, at the brightness 3.
abbrev panel : Vfd
panel = record {
  words = 2;
  has_input = true;
  keys = [];
  last_scancode = 0;
  last_keycode = 0;
  display_len = 1;
  display = 56 ∷ 0 ∷ [];
  raw_overlay = 0 ∷ 4 ∷ [];
  raw_display = 0 ∷ 0 ∷ [];
  grid_len = 0;
  grid_num = [];
  segment_len = 0;
  segment_no = [];
  render = cathode (cells_of segments);
  brightness = 3;
  brightness_max = 8;
  brightness_suspend = 1;
  enabled = 1;
  suspended = 0;
  need_update = 0;
  boot_anim = 0;
  keystate = 0;
  num_dotleds = 0;
  dotleds = [];
}

abbrev cleared : Chip
cleared = record {
  strobe = 1;
  clock = 1;
  line = 0;
  bits = [];
  core = record {
    expects_cmd = true;
    ram = 0 ∷ 0 ∷ 0 ∷ 0 ∷ [];
    addr = 0;
    auto_inc = true;
    reading = false;
    control = 0;
    mode = 0;
  };
}

panel-InDisplay : (i : ℕ) → i < 1 → InDisplay panel i
panel-InDisplay i h = record {
  plain = λ e. omega arith;
  mapped = λ n. absurd (n refl);
  inside = λ n. absurd (n refl);
}

panel-bytes : (i : ℕ) → get_or panel.display i 0 < 256
panel-bytes zero = omega arith
panel-bytes (suc zero) = omega arith
panel-bytes (suc (suc i)) = omega arith

panel-IsSetUp : IsSetUp panel segments
panel-IsSetUp = record {
  renders = refl;
  few = omega arith;
  short = omega arith;
  overlay = refl;
  overlay_words = omega arith;
  ram = refl;
  in_display = panel-InDisplay;
  bytes = panel-bytes;
}

display_to_raw_cc-ShowsText_example :
    ShowsText panel segments (display_to_raw_cc panel (cells_of segments) (9 ∷ 9 ∷ []))
display_to_raw_cc-ShowsText_example =
    display_to_raw_cc-ShowsText panel segments (9 ∷ 9 ∷ []) refl (omega arith) panel-InDisplay
      panel-bytes

init_glyphs_cc-cells_example :
    init_glyphs_cc panel segments ≡ done (record panel { render = cathode (cells_of segments) })
init_glyphs_cc-cells_example = init_glyphs_cc-cells panel segments small
  where
    small : AreSmall segments
    small zero = omega arith
    small (suc zero) = omega arith
    small (suc (suc zero)) = omega arith
    small (suc (suc (suc zero))) = omega arith
    small (suc (suc (suc (suc zero)))) = omega arith
    small (suc (suc (suc (suc (suc zero))))) = omega arith
    small (suc (suc (suc (suc (suc (suc zero)))))) = omega arith
    small (suc (suc (suc (suc (suc (suc (suc i))))))) = omega arith

update_loop-ram_example :
    ((run cleared (update_loop 0 no_word (7 ∷ 9 ∷ []) (0 ∷ 0 ∷ [])).0).core.ram
      ≡ 7 ∷ 0 ∷ 9 ∷ 0 ∷ [])
    × ((update_loop 0 no_word (7 ∷ 9 ∷ []) (0 ∷ 0 ∷ [])).1 ≡ 7 ∷ 9 ∷ [])
update_loop-ram_example =
    update_loop-ram (7 ∷ 9 ∷ []) (0 ∷ 0 ∷ []) 0 no_word cleared [] refl (omega arith) refl
      (omega arith) (inl (refl, refl))

hardware_update_display-IsRefreshed_example :
    IsRefreshed panel segments cleared (hardware_update_display panel (9 ∷ 9 ∷ []))
hardware_update_display-IsRefreshed_example =
    hardware_update_display-IsRefreshed panel segments (9 ∷ 9 ∷ []) cleared panel-IsSetUp refl refl

update_brightness-control_example :
    ((run cleared (hardware_update_brightness panel)).core.control ≡ control_for panel.brightness)
    × ((run cleared (hardware_update_brightness panel)).core.ram ≡ 0 ∷ 0 ∷ 0 ∷ 0 ∷ [])
update_brightness-control_example =
    update_brightness-control panel cleared panel.brightness (awake (omega arith) refl)
      (omega arith)

clear_dram-zeros_example : (run cleared (pt6964_clear_dram 2)).core.ram ≡ 0 ∷ 0 ∷ 0 ∷ 0 ∷ []
clear_dram-zeros_example = clear_dram-zeros 2 cleared refl

key_pair-bits_example :
    (bit (key_pair 2) 0 ≡ (bit 2 0 || bit 2 1))
    × (bit (key_pair 2) 1 ≡ bit 2 1)
    × (bit (key_pair 2) 2 ≡ false)
    × (bit (key_pair 2) 3 ≡ bit 2 4)
key_pair-bits_example = key_pair-bits 2

abbrev with_key : Vfd
with_key = record panel { keys = record { keycode = 28; scancode = 3 } ∷ [] }

vfd_scan_keys-changes_example :
    (sc code : ℕ) × (vfd_scan_keys with_key 8
      ≡ some (
        record with_key { last_scancode = sc; last_keycode = code; keystate = 8 },
        changes with_key.keys 32 0 8 0,
      ))
vfd_scan_keys-changes_example = vfd_scan_keys-changes with_key 8 (omega arith) (omega arith)

pressed : changes with_key.keys 32 0 8 0 ≡ record { keycode = 28; value = 8 } ∷ []
unfolding changes keys_at
pressed = refl

one_bytes : (i : ℕ) → get_or {A = ℕ} (49 ∷ 0 ∷ []) i 0 < 256
one_bytes zero = omega arith
one_bytes (suc zero) = omega arith
one_bytes (suc (suc i)) = omega arith

display_store-IsRefreshed_example :
    IsRefreshed
      (record panel { display = 49 ∷ 0 ∷ []; need_update = 0 })
      segments
      cleared
      (display_store panel (49 ∷ 50 ∷ []) 2 >>= λ p. tick p.0 (9 ∷ 9 ∷ []))
display_store-IsRefreshed_example =
    display_store-IsRefreshed panel segments (49 ∷ 50 ∷ []) (9 ∷ 9 ∷ []) 2 cleared panel-IsSetUp
      (omega arith) (omega arith) one_bytes refl refl refl
