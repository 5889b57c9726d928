-- ===== src/Driver/Cathode.antt =====
-- vfdmod/linux_vfd/vfd-cc.c: common-cathode displays, a 16-bit word for each glyph.
use vfdd.Prelude.Bits.{test_bit}
use vfdd.Prelude.Memory.{load, store}
use vfdd.Prelude.{
  ℕ, zero, suc, ◌+◌, ◌-◌, ◌%◌, ◌^◌, bit_or, true, false, List, [], ◌∷◌, ltb, leb, ◌==◌,
  if◌then◌else◌, get_or, set, replicate, Outcome, ◌>>=◌, done, fault,
}
use vfdd.Driver.{Vfd, cathode}
use vfdd.Driver.Glyphs.{driver_segments, Glyph, vfd_glyphs}

-- `ARRAY_SIZE (g->cellcode)`, '~' - ' ' + 1
abbrev pub cell_count : ℕ
cell_count = 95

-- `(u8) (c - ' ')`
unfoldable pub cell_index : ℕ → ℕ
cell_index c = (c + 256 - 32) % 256

-- `dst |= (1U << n)`, where a shift by 32 or more is undefined
unfoldable pub set_lamp : ℕ → ℕ → Outcome ℕ
set_lamp dst n = if ltb n 32 then done (bit_or dst (2 ^ n % 2 ^ 16)) else fault

-- The loop over the segments: `n` are left, from `j` on.
unfoldable pub cell_loop : ℕ → ℕ → List ℕ → ℕ → ℕ → Outcome ℕ
cell_loop zero j segno src dst = done dst
cell_loop (suc n) j segno src dst = do
  d ← if test_bit src j then set_lamp dst (get_or segno j 0) else done dst
  cell_loop n (j + 1) segno src d

unfoldable pub cell_code : List ℕ → ℕ → Outcome ℕ
cell_code segno src = cell_loop 7 0 segno src 0

-- The loop over the glyphs, up to the code 0.
unfoldable pub init_cells : List ℕ → List Glyph → List ℕ → Outcome (List ℕ)
init_cells segno [] cells = done cells
init_cells segno ((code, image) ∷ gs) cells = elim (code == 0) [
  | true ↦ done cells
  | false ↦ do
    next ←
        if leb cell_count (cell_index code)
        then done cells
        else (do dst ← cell_code segno image; done (set cells (cell_index code) dst))
    init_cells segno gs next
]

-- `vfd_init_glyphs_cc` on zeroed memory
unfoldable pub init_glyphs_cc : Vfd → List ℕ → Outcome Vfd
init_glyphs_cc v segno = do
  cells ←
      init_cells (if v.segment_len == 0 then segno else v.segment_no) (vfd_glyphs driver_segments)
        (replicate cell_count 0)
  done (record v { render = cathode cells })

-- The glyph of position `i`: `display [vfd->grid_num[i]]`, or `display [i]` with no grid.
unfoldable pub char_at : Vfd → ℕ → Outcome ℕ
char_at v i =
    if v.grid_len == 0 then load v.display i else do g ← load v.grid_num i; load v.display g

-- `g->cellcode [ch]`, where a byte outside the table counts as a blank.
unfoldable pub cell_of : List ℕ → ℕ → ℕ
cell_of cells c = get_or cells (if leb cell_count (cell_index c) then 0 else cell_index c) 0

-- The loop over the digits: `n` are left, from `i` on.
unfoldable pub raw_loop : ℕ → ℕ → Vfd → List ℕ → List ℕ → Outcome (List ℕ)
raw_loop zero i v cells raw = done raw
raw_loop (suc n) i v cells raw = do
  c ← char_at v i
  raw' ← store raw i (cell_of cells c)
  raw_loop n (i + 1) v cells raw'

-- `for ( ; i < ARRAY_SIZE(vfd->raw_display); i++) raw [i] = 0;`
unfoldable pub zero_loop : ℕ → ℕ → List ℕ → Outcome (List ℕ)
zero_loop zero i raw = done raw
zero_loop (suc n) i raw = do raw' ← store raw i 0; zero_loop n (i + 1) raw'

-- `vfd_display_to_raw_cc`
unfoldable pub display_to_raw_cc : Vfd → List ℕ → List ℕ → Outcome (List ℕ)
display_to_raw_cc v cells raw = do
  raw' ← raw_loop v.display_len 0 v cells raw
  zero_loop (v.words - v.display_len) v.display_len raw'
