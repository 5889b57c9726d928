-- ===== src/Driver/Anode.antt =====
-- vfdmod/linux_vfd/vfd-ca.c: common-anode displays, a word for each segment and a bit for each digit.
use vfdd.Prelude.Bits.{test_bit}
use vfdd.Prelude.Memory.{load, store}
use vfdd.Prelude.{
  ℕ, zero, suc, ◌+◌, ◌%◌, ◌^◌, bit_or, List, [], ◌∷◌, leb, ◌==◌, if◌then◌else◌, set, replicate,
  Outcome, ◌>>=◌, done,
}
use vfdd.Driver.{Vfd, anode}
use vfdd.Driver.Glyphs.{driver_segments, Glyph, vfd_glyphs}
use vfdd.Driver.Cathode.{cell_count, cell_index}

-- The loop of `vfd_init_glyphs_ca` over the glyphs, up to the code 0.
unfoldable pub init_bitmap : List Glyph → List ℕ → List ℕ
init_bitmap [] bitmap = bitmap
init_bitmap ((code, image) ∷ gs) bitmap =
    let rest =
      init_bitmap gs
        (if leb cell_count (cell_index code) then bitmap else set bitmap (cell_index code) image) in
    if code == 0 then bitmap else rest

-- `vfd_init_glyphs_ca` on zeroed memory
unfoldable pub init_glyphs_ca : Vfd → List ℕ → List ℕ → Vfd
init_glyphs_ca v cellno cellbit = record v {
  render = anode cellno cellbit (init_bitmap (vfd_glyphs driver_segments) (replicate cell_count 0));
}

-- The loop over the segments of one digit: `n` are left, from `j` on.
unfoldable pub segment_loop : ℕ → ℕ → List ℕ → ℕ → ℕ → List ℕ → Outcome (List ℕ)
segment_loop zero j cellno image place raw = done raw
segment_loop (suc n) j cellno image place raw =
    if test_bit image j
    then (do
      w ← load cellno j
      x ← load raw w
      raw' ← store raw w (bit_or x place)
      segment_loop n (j + 1) cellno image place raw')
    else segment_loop n (j + 1) cellno image place raw

-- The loop over the digits: `n` are left, from `i` on.
unfoldable pub digit_loop : ℕ → ℕ → List ℕ → List ℕ → List ℕ → List ℕ → List ℕ → Outcome (List ℕ)
digit_loop zero i display cellno cellbit bitmap raw = done raw
digit_loop (suc n) i display cellno cellbit bitmap raw = do
  c ← load display i
  b ← load cellbit i
  image ← load bitmap (if leb cell_count (cell_index c) then 0 else cell_index c)
  raw' ← segment_loop 7 0 cellno image (2 ^ b % 2 ^ 16) raw
  digit_loop n (i + 1) display cellno cellbit bitmap raw'

-- `vfd_display_to_raw_ca`: it first clears the words.
unfoldable pub display_to_raw_ca : Vfd → List ℕ → List ℕ → List ℕ → Outcome (List ℕ)
display_to_raw_ca v cellno cellbit bitmap =
    digit_loop v.display_len 0 v.display cellno cellbit bitmap (replicate v.words 0)
