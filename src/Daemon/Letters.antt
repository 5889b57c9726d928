-- ===== src/Daemon/Letters.antt =====
-- vfdd.c: which letters `getMyGlyph` knows.
use vfdd.Prelude.{
  ℕ, zero, suc, ◌+◌, ◌*◌, ◌<◌, ◌≡◌, refl, ap, ◌∙◌, Bool, true, false, Option, none, some, List, [],
  ◌∷◌, arith, ◌==◌, if◌then◌else◌, length, get_elem?, Outcome, done, fault,
}
use vfdd.Driver.Glyphs.{Glyph, vfd_glyphs, daemon_glyphs}
use vfdd.Daemon.{glyph_loop, get_my_glyph}

-- The image of the first entry with the code.
unfoldable pub image_of : List Glyph → ℕ → Option ℕ
image_of [] letter = none
image_of (g ∷ gs) letter = let rest = image_of gs letter in if letter == g.0 then some g.1 else rest

abbrev pub known : Option ℕ → Outcome ℕ
known o = elim o [ none ↦ fault | some image ↦ done image ]

glyph_loop-known :
    (table gs : List Glyph) (letter n i : ℕ)
    → ((k : ℕ) → get_elem? table (i + k) ≡ get_elem? gs k)
    → length gs < n
    → glyph_loop table letter n i ≡ known (image_of gs letter)
unfolding glyph_loop image_of
glyph_loop-known table gs letter zero i at enough = absurd (omega arith)
glyph_loop-known table [] letter (suc n) i at enough = rw (glyph_loop, shown) refl
  where
    shown : get_elem? table i ≡ none
    shown = ap (get_elem? table) (let e : i ≡ i + 0 = omega arith in e) ∙ at 0
glyph_loop-known table (g ∷ gs) letter (suc n) i at enough =
    rw (glyph_loop, shown, glyph_loop-known table gs letter n (i + 1) next (omega arith))
      (pick (letter == g.0))
  where
    shown : get_elem? table i ≡ some g
    shown = ap (get_elem? table) (let e : i ≡ i + 0 = omega arith in e) ∙ at 0

    next : (k : ℕ) → get_elem? table (i + 1 + k) ≡ get_elem? gs k
    next k = ap (get_elem? table) (let e : i + 1 + k ≡ i + suc k = omega arith in e) ∙ at (suc k)

    pick :
        (b : Bool)
        → (if b then done g.1 else known (image_of gs letter))
          ≡ known (if b then some g.1 else image_of gs letter)
    pick true = refl
    pick false = refl

-- `getMyGlyph` of a letter of its table gives the image of the first entry that has it; any other
-- letter makes it read behind the table.
pub get_my_glyph-known : (letter : ℕ) → get_my_glyph letter ≡ known (image_of daemon_glyphs letter)
unfolding get_my_glyph vfd_glyphs
get_my_glyph-known letter =
    glyph_loop-known daemon_glyphs daemon_glyphs letter (2 * length daemon_glyphs) 0
      (λ k. ap (get_elem? daemon_glyphs) (let e : 0 + k ≡ k = omega arith in e)) (omega arith)
