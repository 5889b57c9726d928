-- ===== src/Driver/Keypad.antt =====
-- vfdmod/linux_vfd/pt6964.c: reading the key state bitmap.
use vfdd.Driver.Bus.{Pin, cmd_data_setting, pt6964_send, stb, clk, di}
use vfdd.Prelude.Bits.{bit, bit-or, bit-and}
use vfdd.Prelude.{
  ℕ, zero, suc, ◌+◌, ◌*◌, ◌/◌, ◌%◌, ◌^◌, bit_and, bit_or, ◌≡◌, refl, ap₂, ◌∙◌, Bool, true, false,
  ◌&&◌, ◌||◌, List, [], ◌∷◌, ◌++◌, ◌==◌, if◌then◌else◌,
}

-- `pt6964_read`: `levels k` is what the call `k` of `DI` gives, counted from the start of the scan. It
-- gives the byte and the pin events.
unfoldable pub read_loop : (ℕ → ℕ) → ℕ → ℕ → ℕ → ℕ → ℕ × List Pin
read_loop levels zero k i d = (d, [])
read_loop levels (suc n) k i d =
    let rest = read_loop levels n (k + 1) (i * 2) (if levels k == 0 then d else bit_or d i) in
    (rest.0, clk 0 ∷ di (levels k) ∷ clk 1 ∷ rest.1)

unfoldable pub pt6964_read : (ℕ → ℕ) → ℕ → ℕ × List Pin
pt6964_read levels k = let out = read_loop levels 8 k 1 0 in (out.0 % 256, out.1)

-- The keys of one byte, in the two builds of `hardware_keys`.
unfoldable pub key_pair : ℕ → ℕ
key_pair x = bit_or (bit_and x 0x03) (bit_and x 18 / 2)

unfoldable pub key_pair_fd620 : ℕ → ℕ
key_pair_fd620 x = bit_or (bit_and x 0x01) (bit_and x 8 / 4)

-- The loops of `hardware_keys`, with `n` bytes left: `step` is 4, or 2 on an FD620, and `i` the shift of
-- the next byte.
unfoldable pub keys_loop : (ℕ → ℕ) → ℕ → (ℕ → ℕ) → ℕ → ℕ → ℕ → ℕ → ℕ × List Pin
keys_loop pair step levels zero k i keys = (keys, [])
keys_loop pair step levels (suc n) k i keys =
    let x = pt6964_read levels k in
    let rest =
      keys_loop pair step levels n (k + 8) (i + step) (bit_or keys (pair x.0 * 2 ^ i % 2 ^ 32)) in
    (rest.0, x.1 ++ rest.1)

-- One frame: the command to read, and the bytes.
unfoldable pub read_frame : ℕ × List Pin → ℕ × List Pin
read_frame out = (out.0, stb 0 ∷ pt6964_send (cmd_data_setting 0 1) ++ (out.1 ++ stb 1 ∷ []))

-- `hardware_keys`, which reads five bytes, or four from an FD620: the bitmap and the pin events.
unfoldable pub hardware_keys : (ℕ → ℕ) → ℕ × List Pin
hardware_keys levels = read_frame (keys_loop key_pair 4 levels 5 0 0 0)

unfoldable pub hardware_keys_fd620 : (ℕ → ℕ) → ℕ × List Pin
hardware_keys_fd620 levels = read_frame (keys_loop key_pair_fd620 2 levels 4 0 0 0)

key_pair-bit :
    (x k : ℕ) → bit (key_pair x) k ≡ ((bit x k && bit 3 k) || (bit x (suc k) && bit 18 (suc k)))
unfolding key_pair
key_pair-bit x k =
    bit-or (bit_and x 3) (bit_and x 18 / 2) k
    ∙ ap₂ ◌||◌ (bit-and x 3 k) (half (bit_and x 18) ∙ bit-and x 18 (suc k))
  where
    half : (a : ℕ) → bit (a / 2) k ≡ bit a (suc k)
    half a = unfold bit in refl

-- The four key bits that a byte of the chip's bitmap gives: keys 1 and 2 of the first scan line from
-- bits 0 and 1, except that bit 1 sets the first one too; key 3 is never set; key 4 comes from bit 4.
pub key_pair-bits :
    (x : ℕ)
    → (bit (key_pair x) 0 ≡ (bit x 0 || bit x 1))
      × (bit (key_pair x) 1 ≡ bit x 1)
      × (bit (key_pair x) 2 ≡ false)
      × (bit (key_pair x) 3 ≡ bit x 4)
unfolding bit
key_pair-bits x = (
  key_pair-bit x 0 ∙ keep₀ (bit x 0) (bit x 1),
  key_pair-bit x 1 ∙ keep₁ (bit x 1) (bit x 2),
  key_pair-bit x 2 ∙ keep₂ (bit x 2) (bit x 3),
  key_pair-bit x 3 ∙ keep₃ (bit x 3) (bit x 4),
)
  where
    keep₀ : (a b : Bool) → ((a && bit 3 0) || (b && bit 18 1)) ≡ (a || b)
    keep₀ false false = refl
    keep₀ false true = refl
    keep₀ true b = refl

    keep₁ : (a b : Bool) → ((a && bit 3 1) || (b && bit 18 2)) ≡ a
    keep₁ false false = refl
    keep₁ false true = refl
    keep₁ true b = refl

    keep₂ : (a b : Bool) → ((a && bit 3 2) || (b && bit 18 3)) ≡ false
    keep₂ false false = refl
    keep₂ false true = refl
    keep₂ true false = refl
    keep₂ true true = refl

    keep₃ : (a b : Bool) → ((a && bit 3 3) || (b && bit 18 4)) ≡ b
    keep₃ false false = refl
    keep₃ false true = refl
    keep₃ true false = refl
    keep₃ true true = refl
