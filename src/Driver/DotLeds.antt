-- ===== src/Driver/DotLeds.antt =====
-- vfdmod/linux_vfd/vfd.c: `dotled_store`, the lamps that are set by name.
use vfdd.Prelude.{
  ℕ, zero, suc, ◌+◌, ◌-◌, ◌%◌, ◌^◌, bit_and, bit_or, Bool, true, false, not, ◌&&◌, Option, none,
  some, List, [], ◌∷◌, ltb, ◌==◌, if◌then◌else◌, length, get_or, drop, Outcome, ◌>>=◌, done, fatal,
  fault,
}
use vfdd.Prelude.Memory.{load, store}
use vfdd.Driver.{DotLed, Vfd}
use vfdd.Driver.Store.{Strtoul, skip_nspaces}

-- `|= (1 << bit)` and `&= ~(1 << bit)` on a `u16`; shifts are of a 32-bit `int`.
unfoldable pub switch : ℕ → ℕ → ℕ → ℕ
switch ena bit_no w =
    if ena == 0 then bit_and w (2 ^ 32 - 1 - 2 ^ bit_no) else bit_or w (2 ^ bit_no) % 65536

-- A shift by 32 or more is not defined.
unfoldable pub switch_led : Vfd → DotLed → ℕ → Outcome Vfd
switch_led v led ena = if not (ltb led.bit_no 32) then fault else do
  w ← load v.raw_overlay led.word
  overlay ← store v.raw_overlay led.word (switch ena led.bit_no w)
  done (record v { raw_overlay = overlay; need_update = 1 })

-- `strncmp (cur, dotled->name, n) == 0`
unfoldable pub same_bytes : List ℕ → List ℕ → Bool
same_bytes [] cur = true
same_bytes (c ∷ cs) [] = false
same_bytes (c ∷ cs) (d ∷ ds) = c == d && same_bytes cs ds

module _ (isspace : ℕ → Bool) where
  -- The guards of the inner loop.
  unfoldable pub names_led : DotLed → List ℕ → ℕ → Bool
  names_led led cur left =
      not (ltb left (length led.name + 1))
      && (same_bytes led.name cur && isspace (get_or cur (length led.name) 0))

  -- The inner loop, with `n` elements of `dotleds` left: the LED whose name is next.
  unfoldable pub find_led : ℕ → List DotLed → List ℕ → ℕ → Outcome (Option DotLed)
  find_led zero leds cur left = done none
  find_led (suc n) [] cur left = fault
  find_led (suc n) (led ∷ leds) cur left =
      let rest = find_led n leds cur left in
      if names_led led cur left then done (some led) else rest

  -- The outer loop, with fuel: the driver, and whether no garbage was met.
  unfoldable pub dotled_loop : Strtoul → ℕ → Vfd → List ℕ → ℕ → Option (Outcome (Vfd × Bool))
  dotled_loop strtoul fuel v buf zero = some (done (v, true))
  dotled_loop strtoul zero v buf (suc more) = none
  dotled_loop strtoul (suc fuel) v buf (suc more) =
      let (cur, left) = skip_nspaces isspace buf (suc more) in
      elim (find_led v.num_dotleds v.dotleds cur left) [
        | fatal ↦ some fatal
        | fault ↦ some fault
        | done none ↦ if left == 0 then some (done (v, true)) else some (done (v, false))
        | done (some led) ↦
            let n = length led.name in
            let arg = skip_nspaces isspace (drop n cur) (left - n) in
            let (ena, taken) = strtoul arg.0 in
            elim (taken == 0) [
              | true ↦ some (done (v, false))
              | false ↦ elim (switch_led v led ena) [
                | fatal ↦ some fatal
                | fault ↦ some fault
                | done v' ↦ dotled_loop strtoul fuel v' (drop taken arg.0) (arg.1 - taken)
              ]
            ]
      ]

  -- `dotled_store`, with `simple_strtoul` in base 0: all that is written counts as taken.
  unfoldable pub dotled_store : Strtoul → Vfd → List ℕ → ℕ → Option (Outcome (Vfd × ℕ))
  dotled_store strtoul v buf count = elim (dotled_loop strtoul count v buf count) [
    | none ↦ none
    | some out ↦ some (do p ← out; done (p.0, count))
  ]
