-- ===== src/Driver/Chip.antt =====
-- The display chip as pt6964.h describes its commands: it samples DI/DO when CLK rises, lowest bit
-- first, while STB is low; the first byte behind a falling STB is a command, the others are data for
-- the display RAM, or for the reader behind a command to read. This is what the driver is verified against.
use vfdd.Prelude.Bits.{bit, and-one}
use vfdd.Prelude.{
  ℕ, zero, suc, ◌+◌, ◌*◌, ◌/◌, ◌%◌, ◌<◌, bit_and, ◌≡◌, refl, ap, ◌∙◌, Bool, true, false, not, ◌&&◌,
  List, [], ◌∷◌, ◌++◌, append_assoc, arith, ◌==◌, if◌then◌else◌, ==_ne, length, set, length-append,
}
use vfdd.Driver.Bus.{Pin, send_loop, pt6964_send, stb, clk, dido, di}

pub record Core : Type 0 where
  pub expects_cmd : Bool
  pub ram : List ℕ
  pub addr : ℕ
  pub auto_inc : Bool
  pub reading : Bool
  pub control : ℕ
  pub mode : ℕ

-- The levels of the pins, the bits of a byte so far, and what whole bytes change.
pub record Chip : Type 0 where
  pub strobe : ℕ
  pub clock : ℕ
  pub line : ℕ
  pub bits : List ℕ
  pub core : Core

-- A command, by its two highest bits.
unfoldable pub command : Core → ℕ → Core
command c b =
    if b / 64 == 0
    then record c { expects_cmd = false; mode = b % 64 }
    else if b / 64 == 1
    then record c { expects_cmd = false; auto_inc = not (bit b 2); reading = bit b 1 }
    else if b / 64 == 2
    then record c { expects_cmd = false; control = b % 64 }
    else record c { expects_cmd = false; addr = b % 64 }

-- A whole byte: a command, a byte that the chip gives, or a byte of the display RAM.
unfoldable pub chip_byte : Core → ℕ → Core
chip_byte c b =
    if c.expects_cmd
    then command c b
    else if c.reading
    then c
    else record c { ram = set c.ram c.addr b; addr = if c.auto_inc then c.addr + 1 else c.addr }

-- The number with these binary digits, lowest first.
unfoldable pub number : List ℕ → ℕ
number [] = 0
number (b ∷ bs) = b + 2 * number bs

-- One more bit of the byte that is being shifted in.
unfoldable pub shift_in : Chip → ℕ → Chip
shift_in c b =
    if length c.bits == 7
    then record c { bits = []; core = chip_byte c.core (number (c.bits ++ b ∷ [])) }
    else record c { bits = c.bits ++ b ∷ [] }

-- STB falls: a new frame.
abbrev pub start_frame : Core → Core
start_frame k = record k { expects_cmd = true }

unfoldable pub chip_pin : Chip → Pin → Chip
chip_pin c (stb v) =
    if v == 0
    then record c { strobe = 0; bits = []; core = start_frame c.core }
    else record c { strobe = v }
chip_pin c (dido v) = record c { line = v }
chip_pin c (di v) = c
chip_pin c (clk v) =
    if not (v == 0) && (c.clock == 0 && c.strobe == 0)
    then shift_in (record c { clock = v }) c.line
    else record c { clock = v }

unfoldable pub run : Chip → List Pin → Chip
run c [] = c
run c (p ∷ ps) = run (chip_pin c p) ps

pub run-append : (c : Chip) (ps qs : List Pin) → run c (ps ++ qs) ≡ run (run c ps) qs
unfolding run
run-append c [] qs = refl
run-append c (p ∷ ps) qs = run-append (chip_pin c p) ps qs

-- A chip with STB low.
abbrev pub selected : ℕ → ℕ → List ℕ → Core → Chip
selected ck ln bs k = record { strobe = 0; clock = ck; line = ln; bits = bs; core = k }

run-bit :
    (ck ln v : ℕ) (bs : List ℕ) (k : Core) (ps : List Pin)
    → run (selected ck ln bs k) (clk 0 ∷ dido v ∷ clk 1 ∷ ps)
      ≡ run (shift_in (selected 1 v bs k) v) ps
unfolding run chip_pin
run-bit ck ln v bs k ps = refl

-- The bits that the loop sends.
unfoldable pub low_bits : ℕ → ℕ → List ℕ
low_bits zero d = []
low_bits (suc n) d = bit_and d 1 ∷ low_bits n (d / 2)

run-send_loop :
    (n d ck ln : ℕ) (bs : List ℕ) (k : Core)
    → length bs + suc n ≡ 8
    → (l : ℕ) × (run (selected ck ln bs k) (send_loop (suc n) d)
        ≡ selected 1 l [] (chip_byte k (number (bs ++ low_bits (suc n) d))))
unfolding send_loop low_bits shift_in
run-send_loop zero d ck ln bs k h = (
  bit_and d 1,
  run-bit ck ln (bit_and d 1) bs k []
      ∙ rw (let e : length bs ≡ 7 = omega arith in e) (unfold run in refl),
)
run-send_loop (suc n) d ck ln bs k h =
    let v = bit_and d 1 in
    let (l, e) =
      run-send_loop n (d / 2) 1 v (bs ++ v ∷ []) k (omega (arith, length-append bs (v ∷ []))) in
    (
      l,
      run-bit ck ln v bs k (send_loop (suc n) (d / 2))
          ∙ (rw (==_ne (length bs) 7 (omega arith)) e
              ∙ ap (λ t. selected 1 l [] (chip_byte k (number t)))
                  (append_assoc bs (v ∷ []) (low_bits (suc n) (d / 2)))),
    )

number-low_bits : (b : ℕ) → b < 256 → number (low_bits 8 b) ≡ b
unfolding number low_bits
number-low_bits b h = simp and-one (omega arith)

-- The pins of `pt6964_send` bring one byte, `data`, into a chip that is selected.
pub run-send :
    (b ck ln : ℕ) (k : Core)
    → b < 256
    → (l : ℕ) × (run (selected ck ln [] k) (pt6964_send b) ≡ selected 1 l [] (chip_byte k b))
unfolding pt6964_send
run-send b ck ln k h =
    let (l, e) = run-send_loop 7 (b % 256) ck ln [] k refl in
    (
      l,
      e
          ∙ ap (λ n. selected 1 l [] (chip_byte k n))
              (number-low_bits (b % 256) (omega arith) ∙ omega arith),
    )
