-- ===== src/Driver/SessionTests.antt =====
-- The theorems on the driver at work, at a concrete board: a display of two positions, one lamp and one
-- key.
use vfdd.Driver.Store.{skip_nspaces}
use vfdd.Driver.Session.{Kernel, Event, session, write_display, write_dotled, power, timer}
use vfdd.Driver.Safety.{AllPossible, IsSafe}
use vfdd.Driver.Lamps.{Lit, dotled_store-Lit}
use vfdd.Driver.History.{session-IsSafe, timers, Settled, timers-Settled}
use vfdd.Driver.DotLeds.{
  switch, switch_led, same_bytes, names_led, find_led, dotled_loop, dotled_store,
}
use vfdd.Driver.{DotLed, Vfd}
use vfdd.Prelude.Memory.{load, store}
use Prim.Native.Nat.{◌<◌}
use vfdd.Prelude.{
  ℕ, zero, suc, ◌-◌, ◌<◌, ◌≡◌, refl, ap, subst, ◌⊎◌, inl, inr, true, false, none, some, List, [],
  ◌∷◌, arith, ◌==◌, if◌then◌else◌, get_or, done,
}
use vfdd.Driver.Chip.{Chip}
use vfdd.Driver.Cells.{AreSmall, wiring}
use vfdd.Driver.Steady.{IsInStep}
use vfdd.Driver.Probe.{
  Wiring, Platform, Board, zeroed_vfd, dotled_list, key_list, vfd_probe, by_segment, by_cell,
}
use vfdd.Driver.Started.{IsSound, started, started-IsInStep}
use vfdd.Driver.Released.{IsAccounted, AreWired, vfd_probe-IsAccounted}

abbrev plain_wires : List ℕ
plain_wires = 0 ∷ 1 ∷ 2 ∷ 3 ∷ 4 ∷ 5 ∷ 6 ∷ []

abbrev box : Platform
box = record {
  words = 3;
  display_len = 2;
  brightness = 3;
  display_mode = 1;
  wiring = by_segment plain_wires;
}

abbrev tree : Board
tree = record {
  memory = true;
  gpio = λ i. record { no_desc = none; busy = none };
  grid_num = inr (1 ∷ 0 ∷ []);
  segment_no = inr [];
  file_error = λ i. none;
  dot_names = some ((b'c' ∷ b'o' ∷ b'l' ∷ []) ∷ []);
  dot_bits = some (2 ∷ 4 ∷ []);
  key_codes = some (0 ∷ 3 ∷ 0 ∷ 28 ∷ []);
  input_device = true;
  register_error = none;
  key_cnt = 768;
}

abbrev used_chip : Chip
used_chip = record {
  strobe = 0;
  clock = 1;
  line = 0;
  bits = 1 ∷ [];
  core = record {
    expects_cmd = false;
    ram = 1 ∷ 2 ∷ 3 ∷ 4 ∷ 5 ∷ 6 ∷ [];
    addr = 9;
    auto_inc = false;
    reading = true;
    control = 0;
    mode = 0;
  };
}

tree-order : (i : ℕ) → get_or {A = ℕ} (1 ∷ 0 ∷ []) i 0 < 3
tree-order zero = omega arith
tree-order (suc zero) = omega arith
tree-order (suc (suc i)) = omega arith

plain_wires-AreSmall : AreSmall plain_wires
plain_wires-AreSmall zero = omega arith
plain_wires-AreSmall (suc zero) = omega arith
plain_wires-AreSmall (suc (suc zero)) = omega arith
plain_wires-AreSmall (suc (suc (suc zero))) = omega arith
plain_wires-AreSmall (suc (suc (suc (suc zero)))) = omega arith
plain_wires-AreSmall (suc (suc (suc (suc (suc zero))))) = omega arith
plain_wires-AreSmall (suc (suc (suc (suc (suc (suc zero)))))) = omega arith
plain_wires-AreSmall (suc (suc (suc (suc (suc (suc (suc i))))))) = omega arith

tree-IsSound : IsSound box tree plain_wires (1 ∷ 0 ∷ []) []
unfolding dotled_list key_list
tree-IsSound = record {
  cathodes = refl;
  few = omega arith;
  short = omega arith;
  dim = omega arith;
  plain_mode = omega arith;
  memory = refl;
  bus = λ i. (refl, refl);
  order = refl;
  order_fits = omega arith;
  order_inside = tree-order;
  segments = refl;
  files = λ i. refl;
  lamps = (refl, (omega arith, omega arith, tt));
  input = refl;
  no_error = refl;
  keys = (omega arith, tt);
  small = plain_wires-AreSmall;
}

tree-AreWired : AreWired box tree
tree-AreWired = record {
  fixed = λ segno e. subst AreSmall (ap wires e) plain_wires-AreSmall;
  given = λ segs e i. subst (λ (t : List ℕ). get_or t i 0 < 32) (ap bytes e) (omega arith);
}
  where
    wires : Wiring → List ℕ
    wires (by_segment segno) = segno
    wires (by_cell cellno cellbit) = []

    bytes : ℕ ⊎ List ℕ → List ℕ
    bytes (inl e) = []
    bytes (inr t) = t

vfd_probe-IsAccounted_example : IsAccounted (vfd_probe box tree)
unfolding key_list
vfd_probe-IsAccounted_example = vfd_probe-IsAccounted box tree refl (omega arith, tt) tree-AreWired

-- The driver behind the probe, and a chip that is cleared.
abbrev col : DotLed
col = record { name = b'c' ∷ b'o' ∷ b'l' ∷ []; word = 2; bit_no = 4 }

abbrev running : Vfd
running =
    started box plain_wires (1 ∷ 0 ∷ []) [] 6 1 (col ∷ [])
      (record { scancode = 3; keycode = 28 } ∷ []) true

abbrev clear_chip : Chip
clear_chip = record used_chip { core = record used_chip.core { ram = 0 ∷ 0 ∷ 0 ∷ 0 ∷ 0 ∷ 0 ∷ [] } }

running-IsInStep : IsInStep 3 (wiring running plain_wires) running clear_chip
running-IsInStep =
    started-IsInStep box tree plain_wires (1 ∷ 0 ∷ []) [] clear_chip 1 (col ∷ [])
      (record { scancode = 3; keycode = 28 } ∷ []) true tree-IsSound refl
      (omega arith, omega arith, tt)

-- A kernel that reads one digit.
abbrev one_digit : Kernel
one_digit = record {
  isspace = λ c. c == 32;
  strtoul_hex = λ s. (get_or s 0 48 - 48, 1);
  strtoul = λ s. (get_or s 0 48 - 48, 1);
  kstrtouint = λ s. some (get_or s 0 48 - 48);
}

-- "col 1"
abbrev col_on : List ℕ
col_on = b'c' ∷ b'o' ∷ b'l' ∷ 32 ∷ 49 ∷ []

abbrev day : List Event
day =
    write_display (49 ∷ 50 ∷ []) 2
    ∷ write_dotled col_on 5
    ∷ timer (λ i. if i == 4 then 1 else 0) (7 ∷ 7 ∷ 7 ∷ [])
    ∷ power 1
    ∷ []

day_bytes : (i : ℕ) → get_or {A = ℕ} (49 ∷ 50 ∷ []) i 0 < 256
day_bytes zero = omega arith
day_bytes (suc zero) = omega arith
day_bytes (suc (suc i)) = omega arith

session-IsSafe_example :
    IsSafe 3 (wiring running plain_wires) clear_chip (session one_digit running day)
session-IsSafe_example =
    session-IsSafe one_digit 3 (wiring running plain_wires) day running clear_chip running-IsInStep
      ((omega arith, day_bytes), (tt, (refl, (tt, tt))))

abbrev scan : (ℕ → ℕ) × List ℕ
scan = (λ i. 0, 7 ∷ 7 ∷ 7 ∷ [])

abbrev scans : ℕ → List ((ℕ → ℕ) × List ℕ)
scans zero = []
scans (suc n) = scan ∷ scans n

scans-AllPossible : (n : ℕ) → AllPossible 3 (timers (scans n))
scans-AllPossible zero = tt
scans-AllPossible (suc n) = (refl, scans-AllPossible n)

timers-Settled_example :
    Settled 3
      (wiring running plain_wires)
      running
      clear_chip
      (session one_digit running (timers (scans 7)))
timers-Settled_example =
    timers-Settled one_digit 3 (wiring running plain_wires) (scans 7) running clear_chip
      running-IsInStep (scans-AllPossible 7) (omega arith)

dotled_store-Lit_example :
    Lit running 5 (dotled_store (λ c. c == 32) one_digit.strtoul running col_on 5)
dotled_store-Lit_example =
    dotled_store-Lit (λ c. c == 32) one_digit.strtoul running col_on 5
      running-IsInStep.setup.overlay running-IsInStep.setup.overlay_words running-IsInStep.leds

-- The lamp is switched on.
col_lit :
    dotled_store (λ c. c == 32) one_digit.strtoul running col_on 5
    ≡ some (done (record running { raw_overlay = 0 ∷ 0 ∷ 16 ∷ []; need_update = 1 }, 5))
unfolding dotled_store dotled_loop find_led names_led same_bytes skip_nspaces switch_led switch load
    store zeroed_vfd
col_lit = refl
