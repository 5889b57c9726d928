-- ===== src/Driver/Scan.antt =====
-- vfdmod/linux_vfd/vfd.c: the key scan.
use vfdd.Prelude.{
  ℕ, zero, suc, ◌-◌, ◌*◌, ◌/◌, ◌%◌, ◌^◌, bit_and, bit_xor, Option, none, some, List, [], ◌∷◌, ◌++◌,
  ◌==◌, if◌then◌else◌, get_or,
}
use vfdd.Driver.{Key, Vfd}

-- `MultiplyDeBruijnBitPosition`
abbrev pub bit_positions : List ℕ
bit_positions =
    0 ∷ 1 ∷ 28 ∷ 2 ∷ 29 ∷ 14 ∷ 24 ∷ 3 ∷ 30 ∷ 22 ∷ 20 ∷ 15 ∷ 25 ∷ 17 ∷ 4 ∷ 8 ∷ 31 ∷ 27 ∷ 13 ∷ 23 ∷ 21
    ∷ 19 ∷ 16 ∷ 7 ∷ 26 ∷ 12 ∷ 18 ∷ 6 ∷ 11 ∷ 5 ∷ 10 ∷ 9 ∷ []

-- `x & -x` on a `u32`
unfoldable pub lowest : ℕ → ℕ
lowest x = bit_and x ((2 ^ 32 - x) % 2 ^ 32)

-- The index is below 32, whatever `v` is.
unfoldable pub scancode_of : ℕ → ℕ
scancode_of v = get_or bit_positions (lowest v * 0x077CB531 % 2 ^ 32 / 2 ^ 27) 0

-- What `input_report_key` is given: the keycode, and a value that is 0 for a key that is up.
pub record Report : Type 0 where
  pub keycode : ℕ
  pub value : ℕ

-- The loop over the keys of the device tree: the reports, and the last keycode.
unfoldable pub report_loop : List Key → ℕ → ℕ → ℕ → List Report × ℕ
report_loop [] sc down last = ([], last)
report_loop (k ∷ ks) sc down last =
    let hit = report_loop ks sc down k.keycode in
    let miss = report_loop ks sc down last in
    if sc == k.scancode then (record { keycode = k.keycode; value = down } ∷ hit.0, hit.1) else miss

-- One key whose state changed.
unfoldable pub report_key : Vfd → ℕ → ℕ → Vfd × List Report
report_key v keys b =
    let sc = scancode_of b in
    let (reports, code) = report_loop v.keys sc (bit_and keys b) 0 in
    (record v { last_scancode = sc; last_keycode = code }, reports)

-- `while (keydiff != 0)`, with fuel.
unfoldable pub scan_loop : ℕ → Vfd → ℕ → ℕ → Option (Vfd × List Report)
scan_loop zero v keys keydiff = if keydiff == 0 then some (v, []) else none
scan_loop (suc f) v keys keydiff =
    let b = lowest keydiff in
    let one = report_key v keys b in
    let rest = scan_loop f one.0 keys (bit_xor keydiff b) in
    if keydiff == 0
    then some (v, [])
    else elim rest [ none ↦ none | some (w, more) ↦ some (w, one.1 ++ more) ]

-- `vfd_scan_keys` on the bitmap `keys` that `hardware_keys` gives; `input_sync` follows the reports if
-- there is one.
unfoldable pub vfd_scan_keys : Vfd → ℕ → Option (Vfd × List Report)
vfd_scan_keys v keys = elim (scan_loop 32 v keys (bit_xor keys v.keystate)) [
  | none ↦ none
  | some (w, reports) ↦ some (record w { keystate = keys }, reports)
]
