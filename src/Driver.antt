-- ===== src/Driver.antt =====
-- vfdmod/linux_vfd: the kernel driver of the display, its state `struct vfd_t`. What the driver reads of
-- the device tree is in the fields; locks, delays and messages are left out.
pub mod Glyphs
pub mod Cathode
pub mod Anode
pub mod Cells
pub mod Digits
pub mod Bus
pub mod Chip
pub mod Frames
pub mod Update
pub mod Refresh
pub mod Panel
pub mod Keypad
pub mod Keyframe
pub mod Store
pub mod DotLeds
pub mod Scan
pub mod Scanned
pub mod Timer
pub mod Stored
pub mod Session
pub mod Steady
pub mod Overlay
pub mod Lamps
pub mod Ticks
pub mod Safety
pub mod History
pub mod Probe
pub mod Started
pub mod Probed
pub mod Acts
pub mod Released
pub mod SessionTests
pub mod Tests
use vfdd.Prelude.{ℕ, Bool, List}

-- `struct vfd_glyph_render_t` of vfd-cc.c and vfd-ca.c behind `display_to_raw`
pub data Render : Type 0 where
  none_yet : Render
  cathode : List ℕ → Render
  anode : List ℕ → List ℕ → List ℕ → Render

-- `struct vfd_key_t`
pub record Key : Type 0 where
  pub keycode : ℕ
  pub scancode : ℕ

-- `struct vfd_dotled_t`
pub record DotLed : Type 0 where
  pub name : List ℕ
  pub word : ℕ
  pub bit_no : ℕ

-- `struct vfd_t`. `words` is RAW_DISPLAY_WORDS.
pub record Vfd : Type 0 where
  pub words : ℕ
  pub has_input : Bool
  pub keys : List Key
  pub last_scancode : ℕ
  pub last_keycode : ℕ
  pub display_len : ℕ
  pub display : List ℕ
  pub raw_overlay : List ℕ
  pub raw_display : List ℕ
  pub grid_len : ℕ
  pub grid_num : List ℕ
  pub segment_len : ℕ
  pub segment_no : List ℕ
  pub render : Render
  pub brightness : ℕ
  pub brightness_max : ℕ
  pub brightness_suspend : ℕ
  pub enabled : ℕ
  pub suspended : ℕ
  pub need_update : ℕ
  pub boot_anim : ℕ
  pub keystate : ℕ
  pub num_dotleds : ℕ
  pub dotleds : List DotLed
