-- ===== src/Driver/Cells.antt =====
-- vfdmod/linux_vfd/vfd-cc.c: which lamps a glyph lights on a common-cathode display.
use vfdd.Driver.{Vfd}
use vfdd.Prelude.Bits.{bit, bit-or, bit-zero, bit-pow, or-lt, test_bit, test_bit_lem}
use vfdd.Prelude.{
  ℕ, zero, suc, ◌+◌, ◌-◌, ◌*◌, ◌%◌, ◌^◌, ◌≤◌, ◌<◌, bit_or, ◌≡◌, refl, sym, ap, ◌∙◌, inl, inr, Bool,
  true, false, ◌&&◌, ◌||◌, List, [], ◌∷◌, arith, ltb, leb, ◌==◌, if◌then◌else◌, ltb→lt, ltb→le,
  lt→ltb, ==_ne, Bool-cases, length, get_or, set, replicate, length-set, length-replicate,
  get_or-set_self, get_or-set_ne, done,
}
use vfdd.Driver.Glyphs.{driver_segments, Glyph, vfd_glyphs}
use vfdd.Driver.Cathode.{
  cell_count, cell_index, set_lamp, cell_loop, cell_code, init_cells, cell_of,
}
use native.Mathlib.Nat.{pow-suc, pow-le-pow_right, mod-eq_of_lt}

-- The lamp `k` is wired to a segment of the image, of the `n` segments from `j` on.
unfoldable pub lit : ℕ → ℕ → List ℕ → ℕ → ℕ → Bool
lit zero j segno src k = false
lit (suc n) j segno src k = (bit src j && get_or segno j 0 == k) || lit n (j + 1) segno src k

pow-high : (t : ℕ) → 2 ^ (16 + t) % 2 ^ 16 ≡ 0
pow-high zero = refl
pow-high (suc t) =
    let step : 2 ^ (16 + suc t) ≡ 2 ^ (16 + t) * 2 = ap (λ n. 2 ^ n) (sum t) ∙ pow-suc 2 (16 + t) in
    omega (arith, step, pow-high t)
  where
    sum : (t : ℕ) → 16 + suc t ≡ suc (16 + t)
    sum t = omega arith

bit-word : (s k : ℕ) → k < 16 → bit (2 ^ s % 2 ^ 16) k ≡ (s == k)
bit-word s k h = elim (Bool-cases (ltb s 16)) [
  | inl low ↦
      let small : 2 ^ s ≤ 2 ^ 15 =
        pow-le-pow_right (omega arith) {j = 15} (omega (arith, ltb→lt _ _ low)) in
      rw (mod-eq_of_lt {n = 2 ^ s} {m = 2 ^ 16} (omega arith)) (bit-pow s k)
  | inr high ↦
      let split : s ≡ 16 + (s - 16) = omega (arith, ltb→le _ _ high) in
      let none_left : 2 ^ s % 2 ^ 16 ≡ 0 = ap (λ n. 2 ^ n % 2 ^ 16) split ∙ pow-high (s - 16) in
      rw none_left (bit-zero k ∙ sym (==_ne s k (omega (arith, ltb→le _ _ high))))
]

-- The lamps of an image, `n` segments from `j` on: a word that grows by one lamp for each.
joined_loop : ℕ → ℕ → List ℕ → ℕ → ℕ → ℕ
joined_loop zero j segno src dst = dst
joined_loop (suc n) j segno src dst =
    joined_loop n (j + 1) segno src
      (if test_bit src j then bit_or dst (2 ^ get_or segno j 0 % 2 ^ 16) else dst)

-- The word of an image.
pub joined_code : List ℕ → ℕ → ℕ
joined_code segno src = joined_loop 7 0 segno src 0

-- The words of a table, up to the code 0.
joined_cells : List ℕ → List Glyph → List ℕ → List ℕ
joined_cells segno [] cells = cells
joined_cells segno ((code, image) ∷ gs) cells =
    let rest = joined_cells segno gs (
      if leb cell_count (cell_index code)
      then cells
      else set cells (cell_index code) (joined_code segno image)) in
    if code == 0 then cells else rest

-- The numbers of the segments are bits of a word of 32 bits.
abbrev pub AreSmall : List ℕ → Type 0
AreSmall segno = (i : ℕ) → get_or segno i 0 < 32

cell_loop-joined :
    (n j : ℕ) (segno : List ℕ) (src dst : ℕ)
    → AreSmall segno
    → cell_loop n j segno src dst ≡ done (joined_loop n j segno src dst)
unfolding cell_loop joined_loop set_lamp
cell_loop-joined zero j segno src dst h = refl
cell_loop-joined (suc n) j segno src dst h = elim (Bool-cases (test_bit src j)) [
  | inl e ↦ rw (e, lt→ltb _ _ (h j)) (cell_loop-joined n (j + 1) segno src _ h)
  | inr e ↦ rw e (cell_loop-joined n (j + 1) segno src dst h)
]

cell_code-joined :
    (segno : List ℕ) (src : ℕ) → AreSmall segno → cell_code segno src ≡ done (joined_code segno src)
unfolding cell_code joined_code
cell_code-joined segno src h = cell_loop-joined 7 0 segno src 0 h

init_cells-joined :
    (segno : List ℕ) (gs : List Glyph) (cells : List ℕ)
    → AreSmall segno
    → init_cells segno gs cells ≡ done (joined_cells segno gs cells)
unfolding init_cells joined_cells
init_cells-joined segno [] cells h = refl
init_cells-joined segno ((code, image) ∷ gs) cells h = elim (Bool-cases (code == 0)) [
  | inl e ↦ rw (init_cells, e) refl
  | inr e ↦ elim (Bool-cases (leb cell_count (cell_index code))) [
    | inl a ↦ rw (init_cells, e, a) (init_cells-joined segno gs cells h)
    | inr a ↦ rw (init_cells, e, a, cell_code-joined segno image h) (init_cells-joined segno gs _ h)
  ]
]

joined_loop-lit :
    (n j : ℕ) (segno : List ℕ) (src dst k : ℕ)
    → k < 16
    → bit (joined_loop n j segno src dst) k ≡ (bit dst k || lit n j segno src k)
unfolding joined_loop lit
joined_loop-lit zero j segno src dst k h = ground arith
joined_loop-lit (suc n) j segno src dst k h =
    joined_loop-lit n (j + 1) segno src
      (if test_bit src j then bit_or dst (2 ^ get_or segno j 0 % 2 ^ 16) else dst) k h
    ∙ rw test_bit_lem (split (bit src j))
  where
    split :
        (b : Bool)
        → (bit (if b then bit_or dst (2 ^ get_or segno j 0 % 2 ^ 16) else dst) k
            || lit n (j + 1) segno src k)
          ≡ (bit dst k || ((b && get_or segno j 0 == k) || lit n (j + 1) segno src k))
    split true = rw (bit-or, bit-word (get_or segno j 0) k h) (ground arith)
    split false = ground arith

-- A lamp of a cell is lit exactly when a segment of the image is wired to it.
pub joined_code-lit :
    (segno : List ℕ) (src k : ℕ) → k < 16 → bit (joined_code segno src) k ≡ lit 7 0 segno src k
unfolding joined_code
joined_code-lit segno src k h = rw (joined_loop-lit 7 0 segno src 0 k h, bit-zero k)

joined_loop-lt :
    (n j : ℕ) (segno : List ℕ) (src dst : ℕ) → dst < 2 ^ 16 → joined_loop n j segno src dst < 2 ^ 16
unfolding joined_loop
joined_loop-lt zero j segno src dst h = h
joined_loop-lt (suc n) j segno src dst h =
    joined_loop-lt n (j + 1) segno src
      (if test_bit src j then bit_or dst (2 ^ get_or segno j 0 % 2 ^ 16) else dst)
      (split (test_bit src j))
  where
    split : (b : Bool) → (if b then bit_or dst (2 ^ get_or segno j 0 % 2 ^ 16) else dst) < 2 ^ 16
    split true = or-lt 16 dst (2 ^ get_or segno j 0 % 2 ^ 16) h (omega arith)
    split false = h

pub joined_code-lt : (segno : List ℕ) (src : ℕ) → joined_code segno src < 65536
unfolding joined_code
joined_code-lt segno src = joined_loop-lt 7 0 segno src 0 (omega arith)

-- The image of a code: that of its last entry before the end of the table, or `image`.
unfoldable pub glyph_image : List Glyph → ℕ → ℕ → ℕ
glyph_image [] c image = image
glyph_image ((code, new) ∷ gs) c image =
    let rest = glyph_image gs c (if code == c then new else image) in
    if code == 0 then image else rest

-- The codes are bytes.
abbrev pub IsTable : List Glyph → Type 0
IsTable [] = Unit {0}
IsTable ((code, image) ∷ gs) = (code < 256) × IsTable gs

-- One entry of the table, at the cell of a printable byte `c`.
cells-step :
    (segno : List ℕ) (code new c image : ℕ) (cells : List ℕ)
    → code < 256
    → 32 ≤ c
    → c < 127
    → length cells ≡ cell_count
    → get_or cells (c - 32) 0 ≡ joined_code segno image
    → get_or
        (if leb cell_count (cell_index code)
          then cells
          else set cells (cell_index code) (joined_code segno new))
        (c - 32)
        0
      ≡ joined_code segno (if code == c then new else image)
unfolding cell_index
cells-step segno code new c image cells b lo hi len e = ground (
  arith,
  get_or-set_self cells (cell_index code) (joined_code segno new) 0,
  get_or-set_ne cells (cell_index code) (c - 32) (joined_code segno new) 0,
)

length-cells :
    (segno : List ℕ) (code new : ℕ) (cells : List ℕ)
    → length (
        if leb cell_count (cell_index code)
        then cells
        else set cells (cell_index code) (joined_code segno new))
      ≡ length cells
length-cells segno code new cells =
    ground (arith, length-set cells (cell_index code) (joined_code segno new))

joined_cells-image :
    (segno : List ℕ) (gs : List Glyph) (c image : ℕ) (cells : List ℕ)
    → IsTable gs
    → 32 ≤ c
    → c < 127
    → length cells ≡ cell_count
    → get_or cells (c - 32) 0 ≡ joined_code segno image
    → get_or (joined_cells segno gs cells) (c - 32) 0 ≡ joined_code segno (glyph_image gs c image)
unfolding joined_cells glyph_image
joined_cells-image segno [] c image cells t lo hi len e = e
joined_cells-image segno ((code, new) ∷ gs) c image cells (b, t) lo hi len e =
    elim (Bool-cases (code == 0)) [
      | inl last ↦ rw last e
      | inr more ↦ rw more (
          joined_cells-image segno gs c (if code == c then new else image)
            (if leb cell_count (cell_index code)
              then cells
              else set cells (cell_index code) (joined_code segno new))
            t lo hi (length-cells segno code new cells ∙ len)
            (cells-step segno code new c image cells b lo hi len e))
    ]

joined_code-blank : (segno : List ℕ) → joined_code segno 0 ≡ 0
unfolding joined_code joined_loop test_bit
joined_code-blank segno = refl

vfd_glyphs-IsTable : IsTable (vfd_glyphs driver_segments)
unfolding vfd_glyphs
vfd_glyphs-IsTable = omega arith

get_or-zeros : (n i : ℕ) → get_or {A = ℕ} (replicate n 0) i 0 ≡ 0
get_or-zeros zero i = refl
get_or-zeros (suc n) zero = refl
get_or-zeros (suc n) (suc i) = get_or-zeros n i

-- The wiring that `vfd_init_glyphs_cc` uses: the device tree's, if it has one.
abbrev pub wiring : Vfd → List ℕ → List ℕ
wiring v segno = if v.segment_len == 0 then segno else v.segment_no

-- The byte whose glyph is shown for `c`: what is not printable counts as a blank.
abbrev pub shown : ℕ → ℕ
shown c = if leb 32 c && ltb c 127 then c else 32

-- The cells that `vfd_init_glyphs_cc` computes for a wiring.
pub cells_of : List ℕ → List ℕ
cells_of segno = joined_cells segno (vfd_glyphs driver_segments) (replicate cell_count 0)

cells_of-image :
    (segno : List ℕ) (c : ℕ)
    → 32 ≤ c
    → c < 127
    → get_or (cells_of segno) (c - 32) 0
      ≡ joined_code segno (glyph_image (vfd_glyphs driver_segments) c 0)
unfolding cells_of
cells_of-image segno c lo hi =
    joined_cells-image segno (vfd_glyphs driver_segments) c 0 (replicate cell_count 0)
      vfd_glyphs-IsTable lo hi (length-replicate {A = ℕ} cell_count 0)
      (get_or-zeros cell_count (c - 32) ∙ sym (joined_code-blank segno))

-- The cell that `vfd_display_to_raw_cc` takes for a byte is the code of the image of that byte, or of
-- a blank.
pub cell_of-image :
    (segno : List ℕ) (c : ℕ)
    → c < 256
    → cell_of (cells_of segno) c
      ≡ joined_code segno (glyph_image (vfd_glyphs driver_segments) (shown c) 0)
unfolding cell_of cell_index
cell_of-image segno c h =
    ap (λ i. get_or (cells_of segno) i 0) index
    ∙ cells_of-image segno (shown c) (ground arith) (ground arith)
  where
    index :
        (if leb cell_count ((c + 256 - 32) % 256) then 0 else (c + 256 - 32) % 256) ≡ shown c - 32
    index = ground arith

-- Where no shift is by 32 or more, the table that `vfd_init_glyphs_cc` fills.
pub init_cells-cells_of :
    (segno : List ℕ)
    → AreSmall segno
    → init_cells segno (vfd_glyphs driver_segments) (replicate cell_count 0) ≡ done (cells_of segno)
unfolding cells_of
init_cells-cells_of segno h =
    init_cells-joined segno (vfd_glyphs driver_segments) (replicate cell_count 0) h
