-- ===== src/Driver/Lamps.antt =====
-- vfdmod/linux_vfd/vfd.c: `dotled_store` returns, and what it leaves in `raw_overlay`.
use mathlib.Core.Bool.{false≢true}
use native.Mathlib.Nat.{pow-suc}
use Prim.Native.Nat.{bit_and-bitwise}
use vfdd.Prelude.{
  ℕ, zero, suc, ◌+◌, ◌-◌, ◌/◌, ◌^◌, ◌≤◌, ◌<◌, bit_and, ◌≡◌, refl, ap, subst, ◌∙◌, ◌⊎◌, inl, inr,
  Bool, true, false, not, ◌&&◌, Option, none, some, List, [], ◌∷◌, arith, ltb, ◌==◌, if◌then◌else◌,
  ltb→le, lt→ltb, ==_ne, Bool-cases, length, get_or, set, drop, length-set, Outcome, ◌>>=◌, done,
}
use vfdd.Prelude.Memory.{load-lt, store-lt}
use vfdd.Prelude.Bits.{and_digits}
use vfdd.Driver.{DotLed, Vfd}
use vfdd.Driver.Update.{All16}
use vfdd.Driver.Store.{Strtoul, skip_nspaces}
use vfdd.Driver.DotLeds.{
  switch, switch_led, same_bytes, names_led, find_led, dotled_loop, dotled_store,
}
use vfdd.Driver.Steady.{AllInside}
use vfdd.Driver.Overlay.{All16-set, All16-get_or, Overlaid}

and-lt : (n a b : ℕ) → a < 2 ^ n → bit_and a b < 2 ^ n
and-lt zero a b h =
    let z : a ≡ 0 = omega arith in
    let none_left : bit_and 0 b ≡ 0 = simp bit_and-bitwise refl in rw (z, none_left) (omega arith)
and-lt (suc n) a b h =
    let ih = and-lt n (a / 2) (b / 2) (omega (arith, pow-suc 2 n)) in
    omega (arith, pow-suc 2 n, and_digits a b, ih)

switch-lt : (ena bit_no w : ℕ) → w < 65536 → switch ena bit_no w < 65536
unfolding switch
switch-lt zero bit_no w h = and-lt 16 w (2 ^ 32 - 1 - 2 ^ bit_no) h
switch-lt (suc ena) bit_no w h = rw (==_ne (suc ena) 0 (omega arith)) (omega arith)

find_led-inside :
    (isspace : ℕ → Bool) (n : ℕ) (leds : List DotLed) (words : ℕ) (cur : List ℕ) (left : ℕ)
    → AllInside words n leds
    → (find_led isspace n leds cur left ≡ done none)
      ⊎ ((led : DotLed) × (find_led isspace n leds cur left ≡ done (some led))
          × (led.word < words)
          × (led.bit_no < 16)
          × (length led.name < left))
unfolding find_led names_led
find_led-inside isspace zero leds words cur left h = inl refl
find_led-inside isspace (suc n) [] words cur left h = absurd h
find_led-inside isspace (suc n) (led ∷ leds) words cur left (p, q, h) =
    elim (Bool-cases (names_led isspace led cur left)) [
      | inl a ↦ inr (led, rw a refl, p, q, long a)
      | inr a ↦ rw a (find_led-inside isspace n leds words cur left h)
    ]
  where
    long : names_led isspace led cur left ≡ true → length led.name < left
    long e = elim (Bool-cases (ltb left (length led.name + 1))) [
      | inl a ↦ absurd (
          false≢true (
            subst
              (λ b.
                (not b && (same_bytes led.name cur && isspace (get_or cur (length led.name) 0)))
                ≡ true)
              a e))
      | inr a ↦ omega (arith, ltb→le _ _ a)
    ]

switch_led-done :
    (v : Vfd) (led : DotLed) (ena : ℕ)
    → led.word < length v.raw_overlay
    → led.bit_no < 16
    → switch_led v led ena
      ≡ done (record v {
        raw_overlay =
            set v.raw_overlay led.word (switch ena led.bit_no (get_or v.raw_overlay led.word 0));
        need_update = 1;
      })
unfolding switch_led
switch_led-done v led ena h g =
    rw
      (
        lt→ltb led.bit_no 32 (omega arith),
        load-lt v.raw_overlay led.word h,
        store-lt v.raw_overlay led.word (switch ena led.bit_no (get_or v.raw_overlay led.word 0)) h,
      )
      refl

skip_nspaces-le :
    (isspace : ℕ → Bool) (cs : List ℕ) (left : ℕ) → (skip_nspaces isspace cs left).1 ≤ left
unfolding skip_nspaces
skip_nspaces-le isspace [] left = omega arith
skip_nspaces-le isspace (c ∷ cs) zero = omega arith
skip_nspaces-le isspace (c ∷ cs) (suc left) =
    let ih = skip_nspaces-le isspace cs left in pick (isspace c) (skip_nspaces isspace cs left) ih
  where
    pick :
        (b : Bool) (rest : List ℕ × ℕ)
        → rest.1 ≤ left
        → (if b then rest else (c ∷ cs, suc left)).1 ≤ suc left
    pick true rest h = omega arith
    pick false rest h = omega arith

-- How the loop of `dotled_store` ends.
record Swallowed (v : Vfd) (out : Option (Outcome (Vfd × Bool))) : Type 0 where
  clean : Bool
  result : Outcome (Vfd × Bool)
  returns : out ≡ some result
  left : Overlaid v clean result

-- A loop that ends here.
stopped :
    (v : Vfd) (b : Bool)
    → length v.raw_overlay ≡ v.words
    → All16 v.raw_overlay
    → Swallowed v (some (done (v, b)))
stopped v b len all = record {
  clean = b;
  result = done (v, b);
  returns = refl;
  left = record {
    overlay = v.raw_overlay;
    update = v.need_update;
    returns = refl;
    same_length = len;
    words = all;
    noted = inr (refl, refl);
  };
}

-- A loop that goes on behind a lamp that is switched.
gone_on :
    (v : Vfd) (o : List ℕ) (out : Option (Outcome (Vfd × Bool)))
    → Swallowed (record v { raw_overlay = o; need_update = 1 }) out
    → Swallowed v out
gone_on v o out s = record {
  clean = s.clean;
  result = s.result;
  returns = s.returns;
  left = record {
    overlay = s.left.overlay;
    update = s.left.update;
    returns = s.left.returns;
    same_length = s.left.same_length;
    words = s.left.words;
    noted = inl (elim s.left.noted [ inl e ↦ e | inr e ↦ e.1 ]);
  };
}

dotled_loop-Swallowed :
    (isspace : ℕ → Bool) (strtoul : Strtoul) (fuel : ℕ) (v : Vfd) (buf : List ℕ) (count : ℕ)
    → count ≤ fuel
    → length v.raw_overlay ≡ v.words
    → All16 v.raw_overlay
    → AllInside v.words v.num_dotleds v.dotleds
    → Swallowed v (dotled_loop isspace strtoul fuel v buf count)
unfolding dotled_loop
dotled_loop-Swallowed isspace strtoul zero v buf zero h len all leds = stopped v true len all
dotled_loop-Swallowed isspace strtoul (suc fuel) v buf zero h len all leds = stopped v true len all
dotled_loop-Swallowed isspace strtoul zero v buf (suc more) h len all leds = absurd (omega arith)
dotled_loop-Swallowed isspace strtoul (suc fuel) v buf (suc more) h len all leds =
    let sk = skip_nspaces isspace buf (suc more) in
    let fewer = skip_nspaces-le isspace buf (suc more) in
    elim (find_led-inside isspace v.num_dotleds v.dotleds v.words sk.0 sk.1 leds) [
      | inl e ↦ rw (dotled_loop, e) (end (sk.1 == 0))
      | inr (led, e, inside, small, long) ↦
          let n = length led.name in
          let arg = skip_nspaces isspace (drop n sk.0) (sk.1 - n) in
          let least = skip_nspaces-le isspace (drop n sk.0) (sk.1 - n) in
          let (ena, taken) = strtoul arg.0 in
          elim (Bool-cases (taken == 0)) [
            | inl a ↦ rw (dotled_loop, e, a) (stopped v false len all)
            | inr a ↦
                let some_taken : 0 < taken = ground arith in
                let w = switch ena led.bit_no (get_or v.raw_overlay led.word 0) in
                let o = set v.raw_overlay led.word w in
                rw (dotled_loop, e, a, switch_led-done v led ena (omega arith) small)
                  (gone_on v o _ (
                    dotled_loop-Swallowed isspace strtoul fuel
                      (record v { raw_overlay = o; need_update = 1 }) (drop taken arg.0)
                      (arg.1 - taken) (omega arith) (length-set v.raw_overlay led.word w ∙ len)
                      (All16-set v.raw_overlay led.word w all
                        (switch-lt ena led.bit_no _ (All16-get_or v.raw_overlay led.word all)))
                      leds))
          ]
    ]
  where
    end : (b : Bool) → Swallowed v (if b then some (done (v, true)) else some (done (v, false)))
    end true = stopped v true len all
    end false = stopped v false len all

-- What `dotled_store` leaves.
pub record Lit (v : Vfd) (count : ℕ) (out : Option (Outcome (Vfd × ℕ))) : Type 0 where
  pub result : Outcome (Vfd × ℕ)
  pub returns : out ≡ some result
  pub left : Overlaid v count result

-- `dotled_store` returns, whatever is written and however numbers are read, if `dotleds`
-- has its `num_dotleds` lamps and these are bits of 0 to 15 of words inside the display: its loop ends after at most `count` rounds. The overlay keeps its length and
-- has words of 16 bits; an update is asked for, or neither it nor the overlay changed.
pub dotled_store-Lit :
    (isspace : ℕ → Bool) (strtoul : Strtoul) (v : Vfd) (buf : List ℕ) (count : ℕ)
    → length v.raw_overlay ≡ v.words
    → All16 v.raw_overlay
    → AllInside v.words v.num_dotleds v.dotleds
    → Lit v count (dotled_store isspace strtoul v buf count)
unfolding dotled_store
dotled_store-Lit isspace strtoul v buf count len all leds =
    let s = dotled_loop-Swallowed isspace strtoul count v buf count (omega arith) len all leds in
    record {
      result = s.result >>= λ p. done (p.0, count);
      returns = rw (dotled_store, s.returns) refl;
      left = record {
        overlay = s.left.overlay;
        update = s.left.update;
        returns = ap (λ out. out >>= λ p. done (p.0, count)) s.left.returns;
        same_length = s.left.same_length;
        words = s.left.words;
        noted = s.left.noted;
      };
    }
