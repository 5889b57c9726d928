-- ===== src/Driver/Refresh.antt =====
-- vfdmod/linux_vfd/pt6964.c: `hardware_update_display` from the displayed text to the chip.
use vfdd.Prelude.Bits.{bit, bit-or, bit-zero, or-lt}
use vfdd.Prelude.{
  ℕ, zero, suc, ◌≤◌, ◌<◌, bit_or, ◌≡◌, refl, sym, ap, ◌∙◌, inl, inr, ◌||◌, List, [], ◌∷◌, arith,
  ltb, ltb→lt, ltb→le, Bool-cases, length, get_or, Outcome, ◌>>=◌, done,
}
use vfdd.Driver.{Render, Vfd, none_yet, cathode, anode}
use vfdd.Driver.Glyphs.{driver_segments, vfd_glyphs}
use vfdd.Driver.Cathode.{display_to_raw_cc}
use vfdd.Driver.Anode.{display_to_raw_ca}
use vfdd.Driver.Cells.{lit, joined_code-lt, glyph_image, shown, cells_of}
use vfdd.Driver.Digits.{byte_at, InDisplay, ShowsText, display_to_raw_cc-ShowsText}
use vfdd.Driver.Bus.{Pin, no_word, update_loop}
use vfdd.Driver.Chip.{Chip, run}
use vfdd.Driver.Update.{words_bytes, All16, update_loop-ram}

-- `raw [i] |= vfd->raw_overlay [i]`
unfoldable pub or_words : List ℕ → List ℕ → List ℕ
or_words (x ∷ xs) (y ∷ ys) = bit_or x y ∷ or_words xs ys
or_words xs _ = xs

-- `vfd->display_to_raw`, over a local array with `junk` in it.
unfoldable pub raw_by : Render → Vfd → List ℕ → Outcome (List ℕ)
raw_by none_yet v junk = done junk
raw_by (cathode cells) v junk = display_to_raw_cc v cells junk
raw_by (anode cellno cellbit bitmap) v junk = display_to_raw_ca v cellno cellbit bitmap

unfoldable pub to_raw : Vfd → List ℕ → Outcome (List ℕ)
to_raw v junk = raw_by v.render v junk

-- `hardware_update_display`: the pin events, and the state with the new `raw_display`.
unfoldable pub hardware_update_display : Vfd → List ℕ → Outcome (Vfd × List Pin)
hardware_update_display v junk = do
  raw ← to_raw v junk
  let out = update_loop 0 no_word (or_words raw v.raw_overlay) v.raw_display
  done (record v { raw_display = out.1 }, out.0)

All16-or : (xs ys : List ℕ) → All16 xs → All16 ys → All16 (or_words xs ys)
unfolding or_words
All16-or [] ys a b = tt
All16-or (x ∷ xs) [] a b = a
All16-or (x ∷ xs) (y ∷ ys) (h, a) (g, b) = (or-lt 16 x y h g, All16-or xs ys a b)

length-or_words : (xs ys : List ℕ) → length (or_words xs ys) ≡ length xs
unfolding or_words
length-or_words [] ys = refl
length-or_words (x ∷ xs) [] = refl
length-or_words (x ∷ xs) (y ∷ ys) = ap suc (length-or_words xs ys)

all_words : (xs : List ℕ) → ((i : ℕ) → i < length xs → get_or xs i 0 < 65536) → All16 xs
all_words [] h = tt
all_words (x ∷ xs) h = (h 0 (omega arith), all_words xs (λ i p. h (suc i) (omega arith)))

get_or-or_words :
    (xs ys : List ℕ) (i : ℕ)
    → length xs ≡ length ys
    → i < length xs
    → get_or (or_words xs ys) i 0 ≡ bit_or (get_or xs i 0) (get_or ys i 0)
unfolding or_words
get_or-or_words [] ys i e h = absurd (omega arith)
get_or-or_words (x ∷ xs) [] i e h = absurd (omega arith)
get_or-or_words (x ∷ xs) (y ∷ ys) zero e h = refl
get_or-or_words (x ∷ xs) (y ∷ ys) (suc i) e h = get_or-or_words xs ys i (omega arith) (omega arith)

-- A driver for a common-cathode display, set up with a wiring.
pub record IsSetUp (v : Vfd) (segno : List ℕ) : Type 0 where
  pub renders : v.render ≡ cathode (cells_of segno)
  pub few : v.words ≤ 7
  pub short : v.display_len ≤ v.words
  pub overlay : length v.raw_overlay ≡ v.words
  pub overlay_words : All16 v.raw_overlay
  pub ram : length v.raw_display ≡ v.words
  pub in_display : (i : ℕ) → i < v.display_len → InDisplay v i
  pub bytes : (i : ℕ) → get_or v.display i 0 < 256

-- What the chip holds: the words that the driver notes, with the lamps of the text and the overlay.
pub record IsRefreshed (v : Vfd) (segno : List ℕ) (c : Chip) (out : Outcome (Vfd × List Pin))
    : Type 0 where
  pub words : List ℕ
  pub pins : List Pin
  pub returns : out ≡ done (record v { raw_display = words }, pins)
  pub in_ram : (run c pins).core.ram ≡ words_bytes words
  pub count : length words ≡ v.words
  pub lamps :
      (i k : ℕ)
      → i < v.display_len
      → k < 16
      → bit (get_or words i 0) k ≡ (
          lit 7 0 segno (glyph_image (vfd_glyphs driver_segments) (shown (byte_at v i)) 0) k
          || bit (get_or v.raw_overlay i 0) k)
  pub others :
      (i k : ℕ)
      → v.display_len ≤ i
      → i < v.words
      → bit (get_or words i 0) k ≡ bit (get_or v.raw_overlay i 0) k

words-All16 :
    (v : Vfd) (segno : List ℕ) (out : Outcome (List ℕ))
    → (t : ShowsText v segno out) → All16 t.words
words-All16 v segno out t = all_words t.words (λ i p. each i (omega (arith, t.count)))
  where
    each : (i : ℕ) → i < v.words → get_or t.words i 0 < 65536
    each i p = elim (Bool-cases (ltb i v.display_len)) [
      | inl a ↦
          rw (t.cells i (ltb→lt _ _ a)) (
            joined_code-lt segno (glyph_image (vfd_glyphs driver_segments) (shown (byte_at v i)) 0))
      | inr b ↦ rw (t.dark i (ltb→le _ _ b) p) (omega arith)
    ]

-- Where the chip's RAM holds what `raw_display` notes, `hardware_update_display` returns, and the chip
-- has taken its pin events to the words that `raw_display` then notes. In those a lamp of a position
-- is lit exactly when the text or the overlay lights it, and behind the last position when the overlay
-- does. Whatever the local array held makes no difference.
pub hardware_update_display-IsRefreshed :
    (v : Vfd) (segno junk : List ℕ) (c : Chip)
    → IsSetUp v segno
    → length junk ≡ v.words
    → c.core.ram ≡ words_bytes v.raw_display
    → IsRefreshed v segno c (hardware_update_display v junk)
unfolding hardware_update_display to_raw raw_by
hardware_update_display-IsRefreshed v segno junk c s len ram =
    let text = display_to_raw_cc-ShowsText v segno junk len s.short s.in_display s.bytes in
    let words = or_words text.words v.raw_overlay in
    let all = All16-or text.words v.raw_overlay (words-All16 v segno _ text) s.overlay_words in
    let sizes : length words ≡ length v.raw_display =
      omega (arith, length-or_words text.words v.raw_overlay, text.count, s.ram) in
    let (in_ram, noted) =
      update_loop-ram words v.raw_display 0 no_word c [] sizes (omega (arith, s.ram, s.few)) refl
        all (inl (refl, ram)) in
    record {
      words = words;
      pins = (update_loop 0 no_word words v.raw_display).0;
      returns =
          ap
            (λ r. raw_by r v junk >>= λ raw. done (
              record v {
                raw_display = (update_loop 0 no_word (or_words raw v.raw_overlay) v.raw_display).1;
              },
              (update_loop 0 no_word (or_words raw v.raw_overlay) v.raw_display).0,
            ))
            s.renders
          ∙ rw text.returns (
              ap
                (λ ws.
                  done
                    (record v { raw_display = ws }, (update_loop 0 no_word words v.raw_display).0))
                noted);
      in_ram = in_ram;
      count = length-or_words text.words v.raw_overlay ∙ text.count;
      lamps = λ i k p q.
          ap (λ w. bit w k)
            (get_or-or_words text.words v.raw_overlay i (text.count ∙ sym s.overlay)
              (omega (arith, text.count, s.short)))
          ∙ (bit-or (get_or text.words i 0) (get_or v.raw_overlay i 0) k
              ∙ ap (λ b. b || bit (get_or v.raw_overlay i 0) k) (text.lamps i k p q));
      others = λ i k p q.
          ap (λ w. bit w k)
            (get_or-or_words text.words v.raw_overlay i (text.count ∙ sym s.overlay)
              (omega (arith, text.count)))
          ∙ (bit-or (get_or text.words i 0) (get_or v.raw_overlay i 0) k
              ∙ ap (λ b. b || bit (get_or v.raw_overlay i 0) k)
                  (ap (λ w. bit w k) (text.dark i p q) ∙ bit-zero k));
    }
