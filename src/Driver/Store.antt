-- ===== src/Driver/Store.antt =====
-- vfdmod/linux_vfd/vfd.c: what writes to the sysfs files do. A buffer is its `count` bytes and the 0 that
-- sysfs puts behind them; `isspace`, `simple_strtoul` and `kstrtouint` are the kernel's.
use vfdd.Prelude.{
  ℕ, zero, suc, ◌-◌, ◌%◌, min, max, Bool, Option, none, some, List, [], ◌∷◌, ltb, ◌==◌,
  if◌then◌else◌, drop, replicate, Outcome, ◌>>=◌, done,
}
use vfdd.Prelude.Memory.{load_bytes, store_bytes}
use vfdd.Driver.{Vfd}
use vfdd.Driver.Bus.{Pin, hardware_update_brightness}

-- `_display_store`: `buf` has at least `count` bytes.
unfoldable pub put_display : Vfd → List ℕ → ℕ → Outcome Vfd
put_display v buf count = do
  let n = min count v.display_len
  padded ← store_bytes v.display n (replicate (v.display_len - n) 0)
  text ← load_bytes buf 0 n
  display ← store_bytes padded 0 text
  done (record v { display = display; need_update = 1 })

-- `display_store` and `display_show`
unfoldable pub display_store : Vfd → List ℕ → ℕ → Outcome (Vfd × ℕ)
display_store v buf count = do v' ← put_display v buf count; done (v', count)

unfoldable pub display_show : Vfd → Outcome (List ℕ)
display_show v = load_bytes v.display 0 v.display_len

-- A value of `_u8_store`, as `*val` then holds it.
abbrev pub capped : ℕ → ℕ → ℕ
capped value max = (if ltb max value then max else value) % 256

-- A number as it is read from the front of a text, and the bytes that it takes.
abbrev pub Strtoul : Type 0
Strtoul = List ℕ → ℕ × ℕ

module _ (isspace : ℕ → Bool) where
  -- `skip_nspaces`: the text from there, and the new count.
  unfoldable pub skip_nspaces : List ℕ → ℕ → List ℕ × ℕ
  skip_nspaces [] left = ([], left)
  skip_nspaces (c ∷ cs) zero = (c ∷ cs, zero)
  skip_nspaces (c ∷ cs) (suc left) =
      let rest = skip_nspaces cs left in if isspace c then rest else (c ∷ cs, suc left)

  -- The loop of `overlay_store` over the words that are left: the numbers that are read.
  unfoldable pub overlay_loop : Strtoul → ℕ → List ℕ → ℕ → List ℕ
  overlay_loop strtoul zero cur left = []
  overlay_loop strtoul (suc n) cur left =
      let (value, taken) = strtoul cur in
      let next = skip_nspaces (drop taken cur) (left - taken) in
      let rest = overlay_loop strtoul n next.0 next.1 in
      if left == 0 then [] else if taken == 0 then [] else value % 65536 ∷ rest

  -- `overlay_store`, with `simple_strtoul` in base 16
  unfoldable pub overlay_store : Strtoul → Vfd → List ℕ → ℕ → Outcome (Vfd × ℕ)
  overlay_store strtoul v buf count = do
    let cur = skip_nspaces buf count
    overlay ← store_bytes v.raw_overlay 0 (overlay_loop strtoul v.words cur.0 cur.1)
    done (record v { raw_overlay = overlay; need_update = 1 }, count)

-- `kstrtouint` behind `skip_spaces`; `none` is an error.
abbrev pub Kstrtouint : Type 0
Kstrtouint = List ℕ → Option ℕ

-- `enable_store`, `brightness_store` and `brightness_suspend_store`: the driver, the pin events and
-- the number returned, or -EINVAL.
unfoldable pub enable_store : Kstrtouint → Vfd → List ℕ → ℕ → Vfd × List Pin × Option ℕ
enable_store read v buf count = elim (read buf) [
  | none ↦ (v, [], none)
  | some value ↦
      let v' = record v { enabled = capped value 1 } in
      (v', if ltb 0 count then hardware_update_brightness v' else [], some count)
]

unfoldable pub brightness_store : Kstrtouint → Vfd → List ℕ → ℕ → Vfd × List Pin × Option ℕ
brightness_store read v buf count = elim (read buf) [
  | none ↦ (v, [], none)
  | some value ↦
      let v' = record v { brightness = capped value v.brightness_max } in
      (v', if ltb 0 count then hardware_update_brightness v' else [], some count)
]

unfoldable pub brightness_suspend_store : Kstrtouint → Vfd → List ℕ → ℕ → Vfd × Option ℕ
brightness_suspend_store read v buf count = elim (read buf) [
  | none ↦ (v, none)
  | some value ↦ (record v { brightness_suspend = capped value v.brightness_max }, some count)
]
