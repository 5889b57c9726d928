-- ===== src/Daemon/Exit.antt =====
-- vfdd.c: a whole run of the timer callback on a display of four words.
use vfdd.Prelude.{ℕ, ◌+◌, ◌*◌, ◌≤◌, ◌<◌, ◌≡◌, ◌⊎◌, Bool, true, ◌&&◌, some, List, [], ◌∷◌, ltb}
use vfdd.Driver.Glyphs.{Glyph, daemon_glyphs}
use vfdd.Daemon.Letters.{image_of}

-- A word is shown by the images of four letters.
abbrev pub ImagesOf : List ℕ → List ℕ → Type 0
ImagesOf (c ∷ cs) (g ∷ gs) = (image_of daemon_glyphs c ≡ some g) × ImagesOf cs gs
ImagesOf cs [] = Unit {0}
ImagesOf [] (g ∷ gs) = ⊥

-- A hexadecimal digit, a capital if it is a letter, and its value.
abbrev pub IsDigit : ℕ → ℕ → Type 0
IsDigit c n = ((n < 10) × (c ≡ 48 + n)) ⊎ ((10 ≤ n) × (n < 16) × (c ≡ 55 + n))

-- The text of words of 16 bits: four digits for each, the highest first, and a blank.
abbrev pub AreWords : List ℕ → List ℕ → Type 0
AreWords [] text = text ≡ []
AreWords (w ∷ ws) text =
    (a b c d i j k l : ℕ) × (more : List ℕ) × (text ≡ a ∷ b ∷ c ∷ d ∷ 32 ∷ more)
    × (w ≡ i * 4096 + j * 256 + k * 16 + l)
    × (IsDigit a i × IsDigit b j × IsDigit c k × IsDigit d l)
    × AreWords ws more

-- The images of a table are words of 16 bits.
abbrev all_small : List Glyph → Bool
all_small [] = true
all_small (g ∷ gs) = ltb g.1 65536 && all_small gs
