-- ===== src/Utf8/Tests.antt =====
-- Runs of the UTF-8 routines.
use vfdd.Prelude.Memory.{load}
use vfdd.Prelude.{◌≡◌, refl, none, some, [], ◌∷◌, done}
use vfdd.Utf8.{length_loop, chars_loop, code2chars, ones_loop, code_loop, chars2code, c_to_hex}

code2chars_euro : code2chars 0x20ac ≡ 0xe2 ∷ 0x82 ∷ 0xac ∷ []
unfolding code2chars length_loop chars_loop
code2chars_euro = refl

-- The bytes of the code point 0xe9 do not give it back.
chars2code_e_acute : chars2code (0xc3 ∷ 0xa9 ∷ []) ≡ done (0xa43, [])
unfolding chars2code ones_loop code_loop load
chars2code_e_acute = refl

hex_digits : (c_to_hex b'b' ≡ some 11) × (c_to_hex b'B' ≡ some 11) × (c_to_hex b'g' ≡ none)
unfolding c_to_hex
hex_digits = (refl, refl, refl)
