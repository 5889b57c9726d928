-- ===== src/Driver/Released.antt =====
-- vfdmod/linux_vfd/vfd.c: what `vfd_probe` has taken when it fails, and `vfd_remove` when it is done.
use vfdd.Prelude.Below.{below-append, below-drop, below-replicate}
use vfdd.Driver.Cells.{wiring, cells_of, AreSmall}
use vfdd.Driver.Digits.{init_glyphs_cc-cells}
use vfdd.Prelude.Memory.{splice}
use vfdd.Driver.Anode.{init_glyphs_ca}
use vfdd.Driver.Bus.{Pin}
use vfdd.Driver.{Key, Vfd, cathode}
use vfdd.Prelude.{
  ℕ, ◌+◌, ◌*◌, ◌≤◌, ◌≡◌, refl, sym, ap, subst, ◌∙◌, ◌⊎◌, inl, inr, Bool, true, false, Option, none,
  some, List, [], ◌∷◌, ◌++◌, append_assoc, arith, ◌==◌, if◌then◌else◌, Bool-cases, length, drop,
  replicate, Outcome, ◌>>=◌, done, fatal, fault,
}
use vfdd.Driver.Started.{AreKeys}
use vfdd.Driver.Probed.{set_bits-done}
use vfdd.Driver.Acts.{
  count_if, allocates, frees_input, registers, unregisters, frees_driver, creates, removes,
  count_if-append, Created, create_files-Created, remove_files-count, remove_files-only, TakesInput,
  give_back-counts,
}
use vfdd.Driver.Probe.{
  Wiring, Platform, Board, Act, zeroed_vfd, setup_gpios, setup_grid_num, setup_segment_no,
  init_pins, hardware_init, setup_dotled, key_list, key_bytes, enomem, set_bits, registering,
  setup_input, attributes, create_files, remove_files, Probed, give_back, setup_rest,
  setup_hardware, vfd_probe, vfd_remove, by_segment, by_cell, arm_timer, allocate_input,
  register_input, refused, overrun, probed,
}

-- The driver's memory is given back once, an input device that was taken goes to `input_free_device`, and
-- each file is removed at least as often as it was created. The device is registered `regs` times, and
-- nothing unregisters it.
pub record IsReleased (regs : ℕ) (acts : List Act) : Type 0 where
  pub driver : count_if frees_driver acts ≡ 1
  pub input : count_if frees_input acts ≡ count_if allocates acts
  pub registered : count_if registers acts ≡ regs
  pub kept : count_if unregisters acts ≡ 0
  pub files : (i : ℕ) → count_if (creates i) acts ≤ count_if (removes i) acts

-- The label `err2` and `vfd_remove` give back what was taken.
taken_back :
    (files acts : List Act) (v : Vfd) (regs : ℕ)
    → Created 0 attributes files
    → TakesInput v.has_input regs acts
    → IsReleased regs (arm_timer ∷ files ++ (acts ++ (remove_files attributes ++ give_back v)))
taken_back files acts v regs c t =
    let (d, i, a, f, g, u) = give_back-counts v in
    let (rd, ri, ra, rf, rg, ru) = remove_files-only attributes in
    record {
      driver = omega (arith, parts frees_driver, c.no_driver, t.no_driver, rd, d);
      input = omega (
        arith,
        parts frees_input,
        parts allocates,
        c.no_input,
        c.no_allocation,
        t.no_input,
        t.allocation,
        ri,
        ra,
        i,
        a,
      );
      registered = omega (arith, parts registers, c.no_registration, t.registration, rg, g);
      kept = omega (arith, parts unregisters, c.no_unregistration, t.no_unregistration, ru, u);
      files = λ j. ground (
        arith,
        parts (creates j),
        parts (removes j),
        c.few j,
        t.no_files j,
        rf j,
        f j,
        remove_files-count attributes j,
      );
    }
  where
    parts :
        (p : Act → Bool)
        → count_if p (arm_timer ∷ files ++ (acts ++ (remove_files attributes ++ give_back v)))
          ≡ (if p arm_timer then 1 else 0)
            + (count_if p files
                + (count_if p acts
                    + (count_if p (remove_files attributes) + count_if p (give_back v))))
    parts p = omega (
      arith,
      count_if-append p files (acts ++ (remove_files attributes ++ give_back v)),
      count_if-append p acts (remove_files attributes ++ give_back v),
      count_if-append p (remove_files attributes) (give_back v),
    )

-- An input device that the driver has is registered, unless that failed.
abbrev pub registrations : Option ℕ → Bool → ℕ
registrations none has = if has then 1 else 0
registrations (some e) has = 0

-- How a probe ends, with its `vfd_remove` if it succeeds.
abbrev pub IsAccounted : Probed → Type 0
IsAccounted (refused e acts) = IsReleased 0 acts
IsAccounted (probed v pins acts) = IsReleased (if v.has_input then 1 else 0) (acts ++ vfd_remove v)
IsAccounted overrun = ⊥

-- Before anything is taken but the driver's memory.
nothing_taken : (v : Vfd) → v.has_input ≡ false → IsReleased 0 (give_back v)
nothing_taken v e =
    let (d, i, a, f, g, u) = give_back-counts v in
    record {
      driver = d;
      input = i ∙ (ap (λ b. if b then 1 else 0) e ∙ sym a);
      registered = g;
      kept = u;
      files = λ j. omega (arith, f j);
    }

-- What `setup_input` does where the keycodes are below `KEY_CNT`.
record Taken (out : Outcome (Vfd × List Act × Option ℕ)) : Type 0 where
  vfd : Vfd
  acts : List Act
  error : Option ℕ
  returns : out ≡ done (vfd, acts, error)
  takes : TakesInput vfd.has_input (registrations error vfd.has_input) acts

no_acts :
    (v : Vfd) (e : Option ℕ)
    → v.has_input ≡ false
    → TakesInput v.has_input (registrations e v.has_input) []
no_acts v e h = record {
  no_driver = refl;
  no_input = refl;
  allocation = rw h refl;
  registration = rw h (zero e);
  no_unregistration = refl;
  no_files = λ i. refl;
}
  where
    zero : (o : Option ℕ) → 0 ≡ registrations o false
    zero none = refl
    zero (some x) = refl

setup_input-Taken :
    (b : Board) (v : Vfd)
    → v.has_input ≡ false
    → AreKeys b.key_cnt (key_list (key_bytes b.key_codes))
    → Taken (setup_input b v)
unfolding setup_input registering
setup_input-Taken b v e fit =
    split (key_list (key_bytes b.key_codes)) b.input_device b.register_error fit
  where
    split :
        (ks : List Key) (d : Bool) (r : Option ℕ)
        → AreKeys b.key_cnt ks
        → let w = record v { keys = ks } in
          Taken (elim ks as (λ _. Outcome (Vfd × List Act × Option ℕ)) [
            | [] ↦ done (w, [], none)
            | k ∷ more ↦
                if d
                then (set_bits b.key_cnt (k ∷ more) >>= λ _.
                    done (record w { has_input = true }, allocate_input ∷ registering r, r))
                else done (w, [], some enomem)
          ])
    split [] d r fits = record {
      vfd = record v { keys = [] };
      acts = [];
      error = none;
      returns = refl;
      takes = no_acts (record v { keys = [] }) none e;
    }
    split (k ∷ ks) true none fits = record {
      vfd = record v { keys = k ∷ ks; has_input = true };
      acts = allocate_input ∷ register_input ∷ [];
      error = none;
      returns = rw (set_bits-done b.key_cnt (k ∷ ks) fits) refl;
      takes = record {
        no_driver = omega arith;
        no_input = omega arith;
        allocation = omega arith;
        registration = omega arith;
        no_unregistration = omega arith;
        no_files = λ i. omega arith;
      };
    }
    split (k ∷ ks) true (some r) fits = record {
      vfd = record v { keys = k ∷ ks; has_input = true };
      acts = allocate_input ∷ [];
      error = some r;
      returns = rw (set_bits-done b.key_cnt (k ∷ ks) fits) refl;
      takes = record {
        no_driver = omega arith;
        no_input = omega arith;
        allocation = omega arith;
        registration = omega arith;
        no_unregistration = omega arith;
        no_files = λ i. omega arith;
      };
    }
    split (k ∷ ks) false r fits = record {
      vfd = record v { keys = k ∷ ks };
      acts = [];
      error = some enomem;
      returns = refl;
      takes = no_acts (record v { keys = k ∷ ks }) (some enomem) e;
    }

setup_dotled-has_input :
    (names : Option (List (List ℕ))) (bits : Option (List ℕ)) (v : Vfd)
    → (setup_dotled names bits v).has_input ≡ v.has_input
unfolding setup_dotled
setup_dotled-has_input none bits v = refl
setup_dotled-has_input (some []) bits v = refl
setup_dotled-has_input (some (n ∷ ns)) none v = refl
setup_dotled-has_input (some (n ∷ ns)) (some bs) v =
    elim (Bool-cases (length bs == length (n ∷ ns) * 2)) [
      | inl a ↦ rw (setup_dotled, a) refl
      | inr a ↦ rw (setup_dotled, a) refl
    ]

setup_rest-IsAccounted :
    (b : Board) (v : Vfd) (pins : List Pin)
    → v.has_input ≡ false
    → AreKeys b.key_cnt (key_list (key_bytes b.key_codes))
    → IsAccounted (setup_rest b v pins)
unfolding setup_rest
setup_rest-IsAccounted b v pins e fit =
    split (create_files b.file_error 0 attributes) (create_files-Created b.file_error 0 attributes)
  where
    input : Outcome (Vfd × List Act × Option ℕ)
    input = setup_input b (setup_dotled b.dot_names b.dot_bits v)

    taken : Taken input
    taken =
        setup_input-Taken b (setup_dotled b.dot_names b.dot_bits v)
          (setup_dotled-has_input b.dot_names b.dot_bits v ∙ e) fit

    end :
        (w : Vfd) (acts files : List Act) (err : Option ℕ)
        → Created 0 attributes files
        → TakesInput w.has_input (registrations err w.has_input) acts
        → IsAccounted (elim err as (λ _. Probed) [
          | some e ↦
              refused e (arm_timer ∷ files ++ (acts ++ (remove_files attributes ++ give_back w)))
          | none ↦ probed w pins (arm_timer ∷ files ++ acts)
        ])
    end w acts files (some e) c t = taken_back files acts w 0 c t
    end w acts files none c t =
        unfold vfd_remove in
        subst (IsReleased (if w.has_input then 1 else 0))
          (ap (λ t. arm_timer ∷ t)
            (sym (append_assoc files acts (remove_files attributes ++ give_back w))))
          (taken_back files acts w (if w.has_input then 1 else 0) c t)

    behind : List Act → Outcome (Vfd × List Act × Option ℕ) → Probed
    behind files o = elim o [
      | fatal ↦ overrun
      | fault ↦ overrun
      | done (w, acts, some e) ↦
          refused e (arm_timer ∷ files ++ (acts ++ (remove_files attributes ++ give_back w)))
      | done (w, acts, none) ↦ probed w pins (arm_timer ∷ files ++ acts)
    ]

    ended : (files : List Act) → Created 0 attributes files → IsAccounted (behind files input)
    ended files c =
        subst (λ o. IsAccounted (behind files o)) (sym taken.returns)
          (both taken.vfd taken.acts taken.error taken.takes)
      where
        both :
            (w : Vfd) (acts : List Act) (err : Option ℕ)
            → TakesInput w.has_input (registrations err w.has_input) acts
            → IsAccounted (behind files (done (w, acts, err)))
        both w acts none t = end w acts files none c t
        both w acts (some e) t = end w acts files (some e) c t

    split :
        (files : List Act × Option ℕ)
        → Created 0 attributes files.0
        → IsAccounted (elim files.1 as (λ _. Probed) [
          | some e ↦ refused e (arm_timer ∷ files.0 ++ (remove_files attributes ++ give_back v))
          | none ↦ behind files.0 input
        ])
    split (files, some err) c = taken_back files [] v 0 c (no_acts v (some err) e)
    split (files, none) c = ended files c

-- The numbers of the segments are below 32, those of the platform and those of the device tree.
pub record AreWired (p : Platform) (b : Board) : Type 0 where
  pub fixed : (segno : List ℕ) → p.wiring ≡ by_segment segno → AreSmall segno
  pub given : (segs : List ℕ) → b.segment_no ≡ inr segs → AreSmall segs

wiring-AreSmall :
    (v : Vfd) (segno : List ℕ) → AreSmall segno → AreSmall v.segment_no → AreSmall (wiring v segno)
wiring-AreSmall v segno h g i = elim (Bool-cases (v.segment_len == 0)) [
  | inl e ↦ rw e (h i)
  | inr e ↦ rw e (g i)
]

hardware_init-done :
    (p : Platform) (v : Vfd)
    → ((segno : List ℕ) → p.wiring ≡ by_segment segno → AreSmall segno)
    → AreSmall v.segment_no
    → (u : Vfd) × (pins : List Pin) × (hardware_init p v ≡ done (u, pins))
      × (u.has_input ≡ v.has_input)
unfolding hardware_init init_glyphs_ca
hardware_init-done p v h g = split p.wiring refl
  where
    w : Vfd
    w = record v {
      display_len = p.display_len;
      brightness = 1 + p.brightness;
      brightness_max = 1 + 7;
      brightness_suspend = 0;
      enabled = 1;
    }

    split :
        (x : Wiring)
        → p.wiring ≡ x
        → (u : Vfd) × (pins : List Pin) × (hardware_init p v ≡ done (u, pins))
          × (u.has_input ≡ v.has_input)
    split (by_segment segno) e =
        let small = wiring-AreSmall w segno (h segno e) g in
        let u = record w { render = cathode (cells_of (wiring w segno)) } in
        (u, init_pins p u, rw (e, init_glyphs_cc-cells w segno small) refl, refl)
    split (by_cell cellno cellbit) e =
        let u = init_glyphs_ca w cellno cellbit in (u, init_pins p u, rw e refl, refl)

-- Whatever the device tree holds, if its keycodes are below `KEY_CNT` and the numbers of the segments
-- below 32, and whichever call of the kernel
-- fails, once `vfd_probe` has the driver's memory: at the end of a probe that fails, and of `vfd_remove`
-- behind one that succeeds, that memory is freed once, an input device that was allocated is given to
-- `input_free_device`, and each file that was created has been removed. A probe that fails registers no
-- input device. One that succeeds with an input device registers it, and `vfd_remove` never unregisters it:
-- what it frees is a registered device. The timer and the arrays of keys and lamps are not counted.
pub vfd_probe-IsAccounted :
    (p : Platform) (b : Board)
    → b.memory ≡ true
    → AreKeys b.key_cnt (key_list (key_bytes b.key_codes))
    → AreWired p b
    → IsAccounted (vfd_probe p b)
unfolding vfd_probe zeroed_vfd setup_grid_num setup_segment_no setup_hardware
vfd_probe-IsAccounted p b e fit wired = rw (vfd_probe, e) (bus (setup_gpios b.gpio 0 3))
  where
    fresh : IsReleased 0 (give_back (zeroed_vfd p.words))
    fresh = nothing_taken (zeroed_vfd p.words) refl

    hardware :
        (v : Vfd) → v.has_input ≡ false → AreSmall v.segment_no → IsAccounted (setup_hardware p b v)
    hardware v h small =
        let (u, pins, out, same) = hardware_init-done p v wired.fixed small in
        rw (setup_hardware, out)
          (setup_rest-IsAccounted b (record u { boot_anim = 6 }) pins (same ∙ h) fit)

    filled : (segs : List ℕ) → AreSmall segs → AreSmall (splice (replicate 8 0) 0 segs)
    filled segs h =
        unfold splice in
        below-append segs (drop (0 + length segs) (replicate 8 0)) h
          (below-drop (0 + length segs) (replicate 8 0) (below-replicate 8 32 (omega arith)))

    segments :
        (x : ℕ ⊎ List ℕ) (w : Vfd)
        → w.has_input ≡ false
        → w.segment_no ≡ replicate 8 0
        → ((segs : List ℕ) → x ≡ inr segs → AreSmall segs)
        → IsAccounted (elim (setup_segment_no x w) as (λ _. Probed) [
          | inl e ↦ refused e (give_back (zeroed_vfd p.words))
          | inr u ↦ setup_hardware p b u
        ])
    segments (inl e) w h n g = fresh
    segments (inr bytes) w h n g =
        hardware (record w { segment_no = splice w.segment_no 0 bytes; segment_len = length bytes })
          h (rw n (filled bytes (g bytes refl)))

    order :
        (x : ℕ ⊎ List ℕ)
        → IsAccounted (elim (setup_grid_num x (zeroed_vfd p.words)) as (λ _. Probed) [
          | inl e ↦ refused e (give_back (zeroed_vfd p.words))
          | inr w ↦ elim (setup_segment_no b.segment_no w) [
            | inl e ↦ refused e (give_back (zeroed_vfd p.words))
            | inr u ↦ setup_hardware p b u
          ]
        ])
    order (inl e) = fresh
    order (inr bytes) = segments b.segment_no _ refl refl wired.given

    bus :
        (x : Option ℕ)
        → IsAccounted (elim x as (λ _. Probed) [
          | some e ↦ refused e (give_back (zeroed_vfd p.words))
          | none ↦ elim (setup_grid_num b.grid_num (zeroed_vfd p.words)) [
            | inl e ↦ refused e (give_back (zeroed_vfd p.words))
            | inr w ↦ elim (setup_segment_no b.segment_no w) [
              | inl e ↦ refused e (give_back (zeroed_vfd p.words))
              | inr u ↦ setup_hardware p b u
            ]
          ]
        ])
    bus (some e) = fresh
    bus none = order b.grid_num
