-- ===== src/Driver/Probe.antt =====
-- vfdmod/linux_vfd/vfd.c and pt6964.c: `vfd_probe`, from the device tree to a driver that runs. What the
-- kernel answers is a record; memory for `keys` and `dotleds` is taken to be there.
use vfdd.Prelude.{
  ℕ, zero, suc, ◌+◌, ◌*◌, ◌⊎◌, inl, inr, Bool, true, false, not, Option, none, some, List, [], ◌∷◌,
  ◌++◌, ltb, ◌==◌, if◌then◌else◌, length, replicate, Outcome, ◌>>=◌, done, fatal, fault,
}
use vfdd.Prelude.Memory.{splice}
use vfdd.Driver.{Key, DotLed, Vfd, none_yet}
use vfdd.Driver.Bus.{
  Pin, cmd_display_mode, pt6964_cmd, pt6964_clear_dram, hardware_update_brightness, stb, clk,
}
use vfdd.Driver.Cathode.{init_glyphs_cc}
use vfdd.Driver.Anode.{init_glyphs_ca}

-- What pt6964.h defines for a board: `PLATFORM_SEGNO`, or `PLATFORM_CELLNO` and `PLATFORM_CELLBIT`.
pub data Wiring : Type 0 where
  by_segment : List ℕ → Wiring
  by_cell : List ℕ → List ℕ → Wiring

pub record Platform : Type 0 where
  pub words : ℕ
  pub display_len : ℕ
  pub brightness : ℕ
  pub display_mode : ℕ
  pub wiring : Wiring

-- The errors of a bus signal: of its descriptor, and of `gpio_request`.
pub record Gpio : Type 0 where
  pub no_desc : Option ℕ
  pub busy : Option ℕ

-- The device tree, and how calls of the kernel end; `some` is the number of an error. An array of
-- bytes is an error, or what is read; `key_cnt` is `KEY_CNT`; `dot_names` is `none` if its strings cannot be counted.
pub record Board : Type 0 where
  pub memory : Bool
  pub gpio : ℕ → Gpio
  pub grid_num : ℕ ⊎ List ℕ
  pub segment_no : ℕ ⊎ List ℕ
  pub file_error : ℕ → Option ℕ
  pub dot_names : Option (List (List ℕ))
  pub dot_bits : Option (List ℕ)
  pub key_codes : Option (List ℕ)
  pub input_device : Bool
  pub register_error : Option ℕ
  pub key_cnt : ℕ

-- The calls of `vfd_probe` and `vfd_remove` that take something or give it back.
pub data Act : Type 0 where
  arm_timer : Act
  create_file : ℕ → Act
  remove_file : ℕ → Act
  allocate_input : Act
  register_input : Act
  unregister_input : Act
  free_input : Act
  free_driver : Act

-- `kzalloc`
unfoldable pub zeroed_vfd : ℕ → Vfd
zeroed_vfd words = record {
  words = words;
  has_input = false;
  keys = [];
  last_scancode = 0;
  last_keycode = 0;
  display_len = 0;
  display = replicate words 0;
  raw_overlay = replicate words 0;
  raw_display = replicate words 0;
  grid_len = 0;
  grid_num = replicate words 0;
  segment_len = 0;
  segment_no = replicate 8 0;
  render = none_yet;
  brightness = 0;
  brightness_max = 0;
  brightness_suspend = 0;
  enabled = 0;
  suspended = 0;
  need_update = 0;
  boot_anim = 0;
  keystate = 0;
  num_dotleds = 0;
  dotleds = [];
}

-- `__setup_gpios`: `n` signals from `i` on; the error, if there is one.
unfoldable pub setup_gpios : (ℕ → Gpio) → ℕ → ℕ → Option ℕ
setup_gpios gpio i zero = none
setup_gpios gpio i (suc n) =
    let rest = setup_gpios gpio (i + 1) n in
    elim (gpio i).no_desc [
      | some e ↦ some e
      | none ↦ elim (gpio i).busy [ some e ↦ some e | none ↦ rest ]
    ]

unfoldable pub setup_grid_num : ℕ ⊎ List ℕ → Vfd → ℕ ⊎ Vfd
setup_grid_num (inl e) v = inl e
setup_grid_num (inr bytes) v =
    inr (record v { grid_num = splice v.grid_num 0 bytes; grid_len = length bytes })

unfoldable pub setup_segment_no : ℕ ⊎ List ℕ → Vfd → ℕ ⊎ Vfd
setup_segment_no (inl e) v = inl e
setup_segment_no (inr bytes) v =
    inr (record v { segment_no = splice v.segment_no 0 bytes; segment_len = length bytes })

-- What `hardware_init` sends to the chip.
unfoldable pub init_pins : Platform → Vfd → List Pin
init_pins p u =
    stb 1 ∷ clk 1 ∷ pt6964_clear_dram p.words
    ++ (pt6964_cmd (cmd_display_mode p.display_mode) ++ hardware_update_brightness u)

-- `hardware_init`. The modes of the pins are left out, but for the levels they start at.
unfoldable pub hardware_init : Platform → Vfd → Outcome (Vfd × List Pin)
hardware_init p v =
    let w = record v {
      display_len = p.display_len;
      brightness = 1 + p.brightness;
      brightness_max = 1 + 7;
      brightness_suspend = 0;
      enabled = 1;
    } in
    let filled : Outcome Vfd = elim p.wiring [
      | by_segment segno ↦ init_glyphs_cc w segno
      | by_cell cellno cellbit ↦ done (init_glyphs_ca w cellno cellbit)
    ] in
    filled >>= λ u. done (u, init_pins p u)

-- The lamps: a pair of bytes for each name.
unfoldable pub dotled_list : List (List ℕ) → List ℕ → List DotLed
dotled_list (name ∷ names) (w ∷ b ∷ bits) =
    record { name = name; word = w; bit_no = b } ∷ dotled_list names bits
dotled_list _ _ = []

-- `__setup_dotled`. Loops over no lamps stop at once at a negative `num_dotleds` too, which is 0 here. A
-- `dotleds` that is NULL has no elements.
unfoldable pub setup_dotled : Option (List (List ℕ)) → Option (List ℕ) → Vfd → Vfd
setup_dotled none bits v = record v { num_dotleds = 0 }
setup_dotled (some []) bits v = record v { num_dotleds = 0 }
setup_dotled (some (n ∷ ns)) none v = record v { num_dotleds = length (n ∷ ns) }
setup_dotled (some (n ∷ ns)) (some bits) v =
    let w = record v { num_dotleds = length (n ∷ ns) } in
    if length bits == length (n ∷ ns) * 2
    then record w { dotleds = dotled_list (n ∷ ns) bits }
    else w

-- The keys: two big-endian words of 16 bits for each.
unfoldable pub key_list : List ℕ → List Key
key_list (a ∷ b ∷ c ∷ d ∷ more) =
    record { scancode = a * 256 + b; keycode = c * 256 + d } ∷ key_list more
key_list _ = []

abbrev pub key_bytes : Option (List ℕ) → List ℕ
key_bytes none = []
key_bytes (some bytes) = bytes

-- `-ENOMEM`
abbrev pub enomem : ℕ
enomem = 12

-- `set_bit` on `keybit`, which has `cnt` bits, for each key.
unfoldable pub set_bits : ℕ → List Key → Outcome (Unit {0})
set_bits cnt [] = done tt
set_bits cnt (k ∷ ks) = if ltb k.keycode cnt then set_bits cnt ks else fault

-- `input_register_device`: the call, if it succeeds.
unfoldable pub registering : Option ℕ → List Act
registering none = register_input ∷ []
registering (some e) = []

-- `__setup_input`: the driver, what was done, and the error, if there is one.
unfoldable pub setup_input : Board → Vfd → Outcome (Vfd × List Act × Option ℕ)
setup_input b v =
    let w = record v { keys = key_list (key_bytes b.key_codes) } in
    elim w.keys [
      | [] ↦ done (w, [], none)
      | k ∷ ks ↦
          if b.input_device
          then (set_bits b.key_cnt (k ∷ ks) >>= λ _. done (
            record w { has_input = true },
            allocate_input ∷ registering b.register_error,
            b.register_error,
          ))
          else done (w, [], some enomem)
    ]

-- `ARRAY_SIZE (all_attrs)`
abbrev pub attributes : ℕ
attributes = 8

-- The loop over `all_attrs`: what was done, and the error, if there is one.
unfoldable pub create_files : (ℕ → Option ℕ) → ℕ → ℕ → List Act × Option ℕ
create_files create i zero = ([], none)
create_files create i (suc n) =
    let rest = create_files create (i + 1) n in
    elim (create i) [
      | some e ↦ (create_file i ∷ [], some e)
      | none ↦ (create_file i ∷ rest.0, rest.1)
    ]

-- All files are removed, the last one first.
unfoldable pub remove_files : ℕ → List Act
remove_files zero = []
remove_files (suc n) = remove_file n ∷ remove_files n

-- How a probe ends: with an error and what was done, with a driver, the pin events and what was done, or
-- behind a write out of bounds or a shift that C leaves undefined.
pub data Probed : Type 0 where
  refused : ℕ → List Act → Probed
  overrun : Probed
  probed : Vfd → List Pin → List Act → Probed

-- From the label `err1` on.
unfoldable pub give_back : Vfd → List Act
give_back v = (if v.has_input then free_input ∷ [] else []) ++ free_driver ∷ []

-- From the files on.
unfoldable pub setup_rest : Board → Vfd → List Pin → Probed
setup_rest b v pins =
    let files = create_files b.file_error 0 attributes in
    let lamps = setup_dotled b.dot_names b.dot_bits v in
    let input = setup_input b lamps in
    elim files.1 [
      | some e ↦ refused e (arm_timer ∷ files.0 ++ (remove_files attributes ++ give_back v))
      | none ↦ elim input [
        | fatal ↦ overrun
        | fault ↦ overrun
        | done (w, acts, some e) ↦
            refused e (arm_timer ∷ files.0 ++ (acts ++ (remove_files attributes ++ give_back w)))
        | done (w, acts, none) ↦ probed w pins (arm_timer ∷ files.0 ++ acts)
      ]
    ]

-- `hardware_init` refuses nothing.
unfoldable pub setup_hardware : Platform → Board → Vfd → Probed
setup_hardware p b v = elim (hardware_init p v) [
  | fatal ↦ overrun
  | fault ↦ overrun
  | done (u, pins) ↦ setup_rest b (record u { boot_anim = 6 }) pins
]

unfoldable pub vfd_probe : Platform → Board → Probed
vfd_probe p b =
    let v = zeroed_vfd p.words in
    if not b.memory then refused enomem [] else elim (setup_gpios b.gpio 0 3) [
      | some e ↦ refused e (give_back v)
      | none ↦ elim (setup_grid_num b.grid_num v) [
        | inl e ↦ refused e (give_back v)
        | inr w ↦ elim (setup_segment_no b.segment_no w) [
          | inl e ↦ refused e (give_back v)
          | inr u ↦ setup_hardware p b u
        ]
      ]
    ]

-- `vfd_remove`
unfoldable pub vfd_remove : Vfd → List Act
vfd_remove v = remove_files attributes ++ give_back v
