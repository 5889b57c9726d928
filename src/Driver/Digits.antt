-- ===== src/Driver/Digits.antt =====
-- vfdmod/linux_vfd/vfd-cc.c: the words that `vfd_display_to_raw_cc` writes for the displayed text.
use vfdd.Prelude.Bits.{bit}
use vfdd.Prelude.Memory.{load-lt, store-lt}
use vfdd.Prelude.{
  ℕ, zero, suc, ◌+◌, ◌-◌, ◌≤◌, ◌<◌, ◌≡◌, refl, sym, ap, ◌∙◌, ◌≢◌, ◌⊎◌, inl, inr, List, arith, ◌==◌,
  if◌then◌else◌, ==_iff, Bool-cases, length, get_or, set, length-set, get_or-set_self,
  get_or-set_ne, Outcome, done,
}
use vfdd.Driver.{Vfd, cathode}
use vfdd.Driver.Glyphs.{driver_segments, vfd_glyphs}
use vfdd.Driver.Cathode.{init_glyphs_cc, char_at, cell_of, raw_loop, zero_loop, display_to_raw_cc}
use vfdd.Driver.Cells.{
  lit, joined_code, AreSmall, joined_code-lit, glyph_image, wiring, shown, cells_of, cell_of-image,
  init_cells-cells_of,
}

-- The byte that is shown at position `i`.
abbrev pub byte_at : Vfd → ℕ → ℕ
byte_at v i =
    if v.grid_len == 0 then get_or v.display i 0 else get_or v.display (get_or v.grid_num i 0) 0

-- Position `i` reads inside `display` and `grid_num`.
pub record InDisplay (v : Vfd) (i : ℕ) : Type 0 where
  pub plain : v.grid_len ≡ 0 → i < length v.display
  pub mapped : v.grid_len ≢ 0 → i < length v.grid_num
  pub inside : v.grid_len ≢ 0 → get_or v.grid_num i 0 < length v.display

char_at-done : (v : Vfd) (i : ℕ) → InDisplay v i → char_at v i ≡ done (byte_at v i)
unfolding char_at
char_at-done v i h =
    ground
      (arith, load-lt v.display i, load-lt v.grid_num i, load-lt v.display (get_or v.grid_num i 0))

-- `out` is `raw` with the cells of the `n` positions from `i` on.
pub record Filled (v : Vfd) (cells raw : List ℕ) (i n : ℕ) (out : Outcome (List ℕ)) : Type 0 where
  pub words : List ℕ
  pub returns : out ≡ done words
  pub same_length : length words ≡ length raw
  pub inside : (j : ℕ) → i ≤ j → j < i + n → get_or words j 0 ≡ cell_of cells (byte_at v j)
  pub outside : (j : ℕ) → (j < i) ⊎ (i + n ≤ j) → get_or words j 0 ≡ get_or raw j 0

raw_loop-Filled :
    (n i : ℕ) (v : Vfd) (cells raw : List ℕ)
    → i + n ≤ length raw
    → ((j : ℕ) → j < i + n → InDisplay v j)
    → Filled v cells raw i n (raw_loop n i v cells raw)
unfolding raw_loop
raw_loop-Filled zero i v cells raw h d = record {
  words = raw;
  returns = refl;
  same_length = refl;
  inside = λ j p q. absurd (omega arith);
  outside = λ j p. refl;
}
raw_loop-Filled (suc n) i v cells raw h d =
    let c = byte_at v i in
    let rest =
      raw_loop-Filled n (i + 1) v cells (set raw i (cell_of cells c))
        (omega (arith, length-set raw i (cell_of cells c))) (λ j p. d j (omega arith)) in
    record {
      words = rest.words;
      returns =
          rw (char_at-done v i (d i (omega arith)), store-lt raw i (cell_of cells c) (omega arith))
            rest.returns;
      same_length = rest.same_length ∙ length-set raw i (cell_of cells c);
      inside = λ j p q. elim (Bool-cases (i == j)) [
        | inl e ↦
            let same : i ≡ j = (==_iff i j).0 e in
            rest.outside j (inl (omega arith))
            ∙ (ap (λ k. get_or (set raw i (cell_of cells c)) k 0) (sym same)
                ∙ (get_or-set_self raw i (cell_of cells c) 0 (omega arith)
                    ∙ ap (λ k. cell_of cells (byte_at v k)) same))
        | inr e ↦ rest.inside j (ground arith) (omega arith)
      ];
      outside = λ j p.
          rest.outside j (elim p [ inl a ↦ inl (omega arith) | inr b ↦ inr (omega arith) ])
          ∙ get_or-set_ne raw i j (cell_of cells c) 0
              (elim p [ inl a ↦ omega arith | inr b ↦ omega arith ]);
    }

-- Zeros in the `n` words from `i` on, and nothing else changed.
pub record Zeroed (raw : List ℕ) (i n : ℕ) (out : Outcome (List ℕ)) : Type 0 where
  pub words : List ℕ
  pub returns : out ≡ done words
  pub same_length : length words ≡ length raw
  pub inside : (j : ℕ) → i ≤ j → j < i + n → get_or words j 0 ≡ 0
  pub outside : (j : ℕ) → j < i → get_or words j 0 ≡ get_or raw j 0

zero_loop-Zeroed :
    (n i : ℕ) (raw : List ℕ) → i + n ≤ length raw → Zeroed raw i n (zero_loop n i raw)
unfolding zero_loop
zero_loop-Zeroed zero i raw h = record {
  words = raw;
  returns = refl;
  same_length = refl;
  inside = λ j p q. absurd (omega arith);
  outside = λ j p. refl;
}
zero_loop-Zeroed (suc n) i raw h =
    let rest = zero_loop-Zeroed n (i + 1) (set raw i 0) (omega (arith, length-set raw i 0)) in
    record {
      words = rest.words;
      returns = rw (store-lt raw i 0 (omega arith)) rest.returns;
      same_length = rest.same_length ∙ length-set raw i 0;
      inside = λ j p q. elim (Bool-cases (i == j)) [
        | inl e ↦
            let same : i ≡ j = (==_iff i j).0 e in
            rest.outside j (omega arith)
            ∙ (ap (λ k. get_or (set raw i 0) k 0) (sym same)
                ∙ get_or-set_self raw i 0 0 (omega arith))
        | inr e ↦ rest.inside j (ground arith) (omega arith)
      ];
      outside = λ j p. rest.outside j (omega arith) ∙ get_or-set_ne raw i j 0 0 (omega arith);
    }

-- What stands in the words of the display.
pub record ShowsText (v : Vfd) (segno : List ℕ) (out : Outcome (List ℕ)) : Type 0 where
  pub words : List ℕ
  pub returns : out ≡ done words
  pub count : length words ≡ v.words
  pub lamps :
      (i k : ℕ)
      → i < v.display_len
      → k < 16
      → bit (get_or words i 0) k
        ≡ lit 7 0 segno (glyph_image (vfd_glyphs driver_segments) (shown (byte_at v i)) 0) k
  pub cells :
      (i : ℕ)
      → i < v.display_len
      → get_or words i 0
        ≡ joined_code segno (glyph_image (vfd_glyphs driver_segments) (shown (byte_at v i)) 0)
  pub dark : (i : ℕ) → v.display_len ≤ i → i < v.words → get_or words i 0 ≡ 0

-- With the cells of a wiring, for bytes on display and positions inside `display` and `grid_num`,
-- `vfd_display_to_raw_cc` writes every word and accesses nothing out of bounds. In the word of position `i` a lamp is lit
-- exactly when it is wired to a segment of the image of the byte shown there (a byte that is not
-- printable shows a blank), and the words behind the last position are 0.
pub display_to_raw_cc-ShowsText :
    (v : Vfd) (segno raw : List ℕ)
    → length raw ≡ v.words
    → v.display_len ≤ v.words
    → ((i : ℕ) → i < v.display_len → InDisplay v i)
    → ((i : ℕ) → get_or v.display i 0 < 256)
    → ShowsText v segno (display_to_raw_cc v (cells_of segno) raw)
unfolding display_to_raw_cc
display_to_raw_cc-ShowsText v segno raw len short inside bytes =
    let cells = cells_of segno in
    let a =
      raw_loop-Filled v.display_len 0 v cells raw (omega arith) (λ j p. inside j (omega arith)) in
    let b =
      zero_loop-Zeroed (v.words - v.display_len) v.display_len a.words
        (omega (arith, a.same_length)) in
    record {
      words = b.words;
      returns = rw a.returns b.returns;
      count = b.same_length ∙ (a.same_length ∙ len);
      lamps = λ i k p q. ap (λ w. bit w k) (cell a b i p) ∙ joined_code-lit segno _ k q;
      cells = cell a b;
      dark = λ i p q. b.inside i p (omega arith);
    }
  where
    byte : (i : ℕ) → byte_at v i < 256
    byte i = ground (arith, bytes i, bytes (get_or v.grid_num i 0))

    cell :
        (a : Filled v
          (cells_of segno)
          raw
          0
          v.display_len
          (raw_loop v.display_len 0 v (cells_of segno) raw))
        (b : Zeroed a.words v.display_len
          (v.words - v.display_len)
          (zero_loop (v.words - v.display_len) v.display_len a.words))
        (i : ℕ)
        → i < v.display_len
        → get_or b.words i 0
          ≡ joined_code segno (glyph_image (vfd_glyphs driver_segments) (shown (byte_at v i)) 0)
    cell a b i p =
        b.outside i p
        ∙ (a.inside i (omega arith) (omega arith) ∙ cell_of-image segno (byte_at v i) (byte i))

-- `vfd_init_glyphs_cc` installs these cells.
pub init_glyphs_cc-cells :
    (v : Vfd) (segno : List ℕ)
    → AreSmall (wiring v segno)
    → init_glyphs_cc v segno ≡ done (record v { render = cathode (cells_of (wiring v segno)) })
unfolding init_glyphs_cc
init_glyphs_cc-cells v segno h = rw (init_cells-cells_of (wiring v segno) h) refl
