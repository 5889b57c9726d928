-- ===== src/Driver/Frames.antt =====
-- vfdmod/linux_vfd/pt6964.c: what a frame of the driver does to the chip.
use vfdd.Prelude.Bits.{bit, or-address}
use vfdd.Prelude.{
  ℕ, ◌+◌, ◌*◌, ◌/◌, ◌<◌, ◌≡◌, refl, ap, ap₂, ◌∙◌, Bool, true, false, List, [], ◌∷◌, ◌++◌, arith,
  ==_ne, set,
}
use vfdd.Driver.Bus.{cmd_data_setting, cmd_address_set, pt6964_send, pt6964_cmd, stb}
use vfdd.Driver.Chip.{
  Core, Chip, command, chip_byte, start_frame, chip_pin, run, run-append, selected, run-send,
}

-- A chip with STB high.
abbrev pub released : ℕ → Core → Chip
released ln k = record { strobe = 1; clock = 1; line = ln; bits = []; core = k }

-- A core that takes data bytes from `addr` on.
abbrev pub writing : List ℕ → ℕ → ℕ → ℕ → Core
writing ram addr control mode = record {
  expects_cmd = false;
  ram = ram;
  addr = addr;
  auto_inc = true;
  reading = false;
  control = control;
  mode = mode;
}

-- STB falls, and the first byte comes.
pub run-start :
    (c : Chip) (b : ℕ)
    → b < 256
    → (l : ℕ) × (run c (stb 0 ∷ pt6964_send b) ≡ selected 1 l [] (command (start_frame c.core) b))
unfolding run chip_pin chip_byte
run-start c b h = run-send b c.clock c.line (start_frame c.core) h

pub run-cmd :
    (c : Chip) (b : ℕ)
    → b < 256
    → (l : ℕ) × (run c (pt6964_cmd b) ≡ released l (command (start_frame c.core) b))
unfolding pt6964_cmd
run-cmd c b h =
    let (l, e) = run-start c b h in
    (
      l,
      run-append c (stb 0 ∷ pt6964_send b) (stb 1 ∷ [])
          ∙ ap (λ d. run d (stb 1 ∷ [])) e
          ∙ (unfold run chip_pin in refl),
    )

pub command-address :
    (k : Core) (a : ℕ)
    → a < 64
    → command k (cmd_address_set a) ≡ record k { expects_cmd = false; addr = a }
unfolding command
command-address k a h =
    rw
      (
        or-address a h,
        ==_ne ((192 + a) / 64) 0 (omega arith),
        ==_ne ((192 + a) / 64) 1 (omega arith),
        ==_ne ((192 + a) / 64) 2 (omega arith),
      )
      (ap (λ n. record k { expects_cmd = false; addr = n }) (omega arith))

pub command-write :
    (k : Core)
    → command k (cmd_data_setting 1 0)
      ≡ record k { expects_cmd = false; auto_inc = true; reading = false }
unfolding command bit
command-write k = refl

-- The chip takes the data of word `i` next, and its RAM is `ram`.
pub record At (i : ℕ) (ram : List ℕ) (c : Chip) : Type 0 where
  pub clock : ℕ
  pub line : ℕ
  pub control : ℕ
  pub mode : ℕ
  pub is : c ≡ selected clock line [] (writing ram (i * 2) control mode)

-- A frame is opened at word `i`, with auto-increment in force.
pub address-At :
    (c : Chip) (i : ℕ)
    → i < 32
    → c.core.auto_inc ≡ true
    → c.core.reading ≡ false
    → At i c.core.ram (run c (stb 0 ∷ pt6964_send (cmd_address_set (i * 2))))
address-At c i h inc write =
    let small : cmd_address_set (i * 2) < 256 = omega (arith, or-address (i * 2) (omega arith)) in
    let (l, e) = run-start c (cmd_address_set (i * 2)) small in
    record {
      clock = 1;
      line = l;
      control = c.core.control;
      mode = c.core.mode;
      is =
          e
          ∙ (ap (selected 1 l []) (command-address (start_frame c.core) (i * 2) (omega arith))
              ∙ ap
                  (λ (p : Bool × Bool).
                    selected 1 l []
                      (record (writing c.core.ram (i * 2) c.core.control c.core.mode) {
                        auto_inc = p.0;
                        reading = p.1;
                      }))
                  (ap₂ (λ (a b : Bool). (a, b)) inc write));
    }

-- Two data bytes go into the RAM, and the next word is due.
pub At-word :
    (i : ℕ) (ram : List ℕ) (c : Chip) (lo hi : ℕ)
    → At i ram c
    → lo < 256
    → hi < 256
    → At
        (i + 1)
        (set (set ram (i * 2) lo) (i * 2 + 1) hi)
        (run c (pt6964_send lo ++ pt6964_send hi))
unfolding chip_byte
At-word i ram c lo hi at hlo hhi =
    let (l, e) = run-send lo at.clock at.line (writing ram (i * 2) at.control at.mode) hlo in
    let (l', e') =
      run-send hi 1 l (writing (set ram (i * 2) lo) (i * 2 + 1) at.control at.mode) hhi in
    record {
      clock = 1;
      line = l';
      control = at.control;
      mode = at.mode;
      is =
          run-append c (pt6964_send lo) (pt6964_send hi)
          ∙ (ap (λ d. run (run d (pt6964_send lo)) (pt6964_send hi)) at.is
              ∙ (ap (λ d. run d (pt6964_send hi)) e
                  ∙ (e'
                      ∙ ap
                          (λ a. selected 1 l' [] (
                            writing (set (set ram (i * 2) lo) (i * 2 + 1) hi) a at.control at.mode))
                          next)));
    }
  where
    next : i * 2 + 1 + 1 ≡ (i + 1) * 2
    next = omega arith
