-- ===== src/Driver/Keyframe.antt =====
-- vfdmod/linux_vfd/pt6964.c: what `hardware_keys` does to the chip, and the bitmap that it gives.
use vfdd.Prelude.Bits.{bit, or-lt}
use vfdd.Prelude.{
  ℕ, zero, suc, ◌+◌, ◌*◌, ◌%◌, ◌^◌, ◌<◌, bit_or, ◌≡◌, refl, ap, ◌∙◌, inl, inr, true, false, List,
  [], ◌∷◌, ◌++◌, arith, ◌==◌, if◌then◌else◌, Bool-cases, length,
}
use vfdd.Driver.Bus.{cmd_data_setting, pt6964_send, stb, clk, di}
use vfdd.Driver.Chip.{
  Core, Chip, command, chip_byte, shift_in, start_frame, chip_pin, run, run-append, selected,
}
use vfdd.Driver.Frames.{run-start}
use vfdd.Driver.Keypad.{read_loop, pt6964_read, key_pair, keys_loop, read_frame, hardware_keys}

-- A core that gives bytes.
abbrev IsGiving : Core → Type 0
IsGiving k = (k.expects_cmd ≡ false) × (k.reading ≡ true)

command-read :
    (k : Core)
    → command k (cmd_data_setting 0 1)
      ≡ record k { expects_cmd = false; auto_inc = false; reading = true }
unfolding command bit
command-read k = refl

-- A clock while the chip gives a byte changes nothing but the count of the clocks.
shift_in-giving :
    (ln b : ℕ) (bs : List ℕ) (k : Core)
    → IsGiving k
    → (cs : List ℕ) × (shift_in (selected 1 ln bs k) b ≡ selected 1 ln cs k)
unfolding shift_in chip_byte
shift_in-giving ln b bs k (cmd, reads) = elim (Bool-cases (length bs == 7)) [
  | inl a ↦ ([], rw (a, cmd, reads) refl)
  | inr a ↦ (bs ++ b ∷ [], rw a refl)
]

read_loop-giving :
    (levels : ℕ → ℕ) (n j i d ln : ℕ) (bs : List ℕ) (k : Core)
    → IsGiving k
    → (cs : List ℕ) × (run (selected 1 ln bs k) (read_loop levels n j i d).1 ≡ selected 1 ln cs k)
unfolding read_loop run
read_loop-giving levels zero j i d ln bs k g = (bs, refl)
read_loop-giving levels (suc n) j i d ln bs k g =
    let (cs, one) = shift_in-giving ln ln bs k g in
    let (es, rest) =
      read_loop-giving levels n (j + 1) (i * 2) (if levels j == 0 then d else bit_or d i) ln cs k
        g in
    let more = (read_loop levels n (j + 1) (i * 2) (if levels j == 0 then d else bit_or d i)).1 in
    let clocked : run (selected 1 ln bs k) (clk 0 ∷ di (levels j) ∷ clk 1 ∷ more)
        ≡ run (shift_in (selected 1 ln bs k) ln) more =
      unfold chip_pin in refl in
    (es, clocked ∙ ap (λ c. run c more) one ∙ rest)

keys_loop-giving :
    (pair : ℕ → ℕ) (width : ℕ) (levels : ℕ → ℕ) (n j i keys ln : ℕ) (bs : List ℕ) (k : Core)
    → IsGiving k
    → (cs : List ℕ) × (run (selected 1 ln bs k) (keys_loop pair width levels n j i keys).1
        ≡ selected 1 ln cs k)
unfolding keys_loop pt6964_read
keys_loop-giving pair width levels zero j i keys ln bs k g = (bs, unfold run in refl)
keys_loop-giving pair width levels (suc n) j i keys ln bs k g =
    let x = pt6964_read levels j in
    let (cs, one) = read_loop-giving levels 8 j 1 0 ln bs k g in
    let rest =
      keys_loop pair width levels n (j + 8) (i + width) (bit_or keys (pair x.0 * 2 ^ i % 2 ^ 32)) in
    let (es, out) =
      keys_loop-giving pair width levels n (j + 8) (i + width)
        (bit_or keys (pair x.0 * 2 ^ i % 2 ^ 32)) ln cs k g in
    (es, run-append (selected 1 ln bs k) x.1 rest.1 ∙ ap (λ c. run c rest.1) one ∙ out)

-- `hardware_keys` leaves the display RAM and the display control as they were.
pub hardware_keys-kept :
    (c : Chip) (levels : ℕ → ℕ)
    → ((run c (hardware_keys levels).1).core.ram ≡ c.core.ram)
      × ((run c (hardware_keys levels).1).core.control ≡ c.core.control)
unfolding hardware_keys read_frame
hardware_keys-kept c levels =
    let (l, start) = run-start c (cmd_data_setting 0 1) (omega arith) in
    let k = record (start_frame c.core) { expects_cmd = false; auto_inc = false; reading = true } in
    let open_frame = stb 0 ∷ pt6964_send (cmd_data_setting 0 1) in
    let loop = (keys_loop key_pair 4 levels 5 0 0 0).1 in
    let (cs, given) = keys_loop-giving key_pair 4 levels 5 0 0 0 l [] k (refl, refl) in
    let all =
      run-append c open_frame (loop ++ stb 1 ∷ [])
      ∙ ap (λ d. run d (loop ++ stb 1 ∷ []))
          (start ∙ ap (selected 1 l []) (command-read (start_frame c.core)))
      ∙ run-append (selected 1 l [] k) loop (stb 1 ∷ [])
      ∙ ap (λ d. run d (stb 1 ∷ [])) given in
    (
      ap (λ (d : Chip). d.core.ram) all ∙ (unfold run chip_pin in refl),
      ap (λ (d : Chip). d.core.control) all ∙ (unfold run chip_pin in refl),
    )

keys_loop-lt :
    (pair : ℕ → ℕ) (width : ℕ) (levels : ℕ → ℕ) (n j i keys : ℕ)
    → keys < 2 ^ 32
    → (keys_loop pair width levels n j i keys).0 < 2 ^ 32
unfolding keys_loop
keys_loop-lt pair width levels zero j i keys h = h
keys_loop-lt pair width levels (suc n) j i keys h =
    let x = pair (pt6964_read levels j).0 * 2 ^ i % 2 ^ 32 in
    keys_loop-lt pair width levels n (j + 8) (i + width) (bit_or keys x)
      (or-lt 32 keys x h (omega arith))

pub hardware_keys-lt : (levels : ℕ → ℕ) → (hardware_keys levels).0 < 2 ^ 32
unfolding hardware_keys read_frame
hardware_keys-lt levels = keys_loop-lt key_pair 4 levels 5 0 0 0 (omega arith)
