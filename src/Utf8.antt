-- ===== src/Utf8.antt =====
-- utf8.c and c2hex.c: code points as UTF-8, and hexadecimal digits. A `char` is a byte.
pub mod Tests
use vfdd.Prelude.Memory.{load}
use vfdd.Prelude.{
  ℕ, zero, suc, ◌+◌, ◌-◌, ◌*◌, ◌/◌, ◌%◌, ◌^◌, bit_and, bit_or, Bool, ◌||◌, Option, none, some, List,
  [], ◌∷◌, ltb, leb, ◌==◌, if◌then◌else◌, get_or, drop, Outcome, ◌>>=◌, done,
}

-- `utf8_is_multibyte`
unfoldable pub is_multibyte : ℕ → Bool
is_multibyte c = leb 0x80 c

abbrev pub first_mark : List ℕ
first_mark = 0x00 ∷ 0x00 ∷ 0xc0 ∷ 0xe0 ∷ 0xf0 ∷ 0xf8 ∷ 0xfc ∷ []

abbrev pub boundaries : List ℕ
boundaries = 0x80 ∷ 0x800 ∷ 0x10000 ∷ 0x200000 ∷ []

-- The loop that finds the length: a byte for each boundary that is tried.
unfoldable pub length_loop : List ℕ → ℕ → ℕ → ℕ
length_loop [] code len = len
length_loop (b ∷ bs) code len =
    let more = length_loop bs code (len + 1) in if ltb code b then len + 1 else more

-- The loop that fills `buf` from its end: `i + 1` bytes are left, in front of `after`.
unfoldable pub chars_loop : ℕ → ℕ → ℕ → List ℕ → List ℕ
chars_loop mark zero code after = bit_or code mark % 256 ∷ after
chars_loop mark (suc i) code after =
    chars_loop mark i (code / 2 ^ 6) (bit_and (bit_or code 0x80) 0xbf ∷ after)

-- `utf8_code2chars`
unfoldable pub code2chars : ℕ → List ℕ
code2chars code =
    let len = length_loop boundaries code 0 in
    chars_loop (get_or first_mark len 0) (len - 1) code []

-- The loop of `utf8_chars2code` that counts the leading ones of a byte: `n` bits are left.
unfoldable pub ones_loop : ℕ → ℕ → ℕ → ℕ → ℕ
ones_loop zero c mask len = len
ones_loop (suc n) c mask len =
    let more = ones_loop n c (mask / 2) (len + 1) in if bit_and c mask == 0 then len else more

-- The loop over the bytes from the last one on: `i + 1` are left.
unfoldable pub code_loop : ℕ → ℕ → List ℕ → ℕ → Outcome ℕ
code_loop mark zero str code = do c ← load str 0; done (bit_or code (bit_and c (2 ^ 32 - 1 - mark)))
code_loop mark (suc i) str code = do
  c ← load str (i + 1)
  code_loop mark i str (bit_or code (bit_and c 0x3f) * 2 ^ 6 % 2 ^ 32)

-- `utf8_chars2code`: the code, and what is behind the sequence.
unfoldable pub chars2code : List ℕ → Outcome (ℕ × List ℕ)
chars2code str = do
  c ← load str 0
  let len = ones_loop 7 c 0x80 0
  mark ← load first_mark len
  code ← if len == 0 then done 0 else code_loop mark (len - 1) str 0
  done (code, drop len str)

-- `c_to_hex`: `none` is -1. The argument is not negative.
unfoldable pub c_to_hex : ℕ → Option ℕ
c_to_hex c =
    if ltb c 0x30
    then none
    else if ltb c 0x3a
    then some (c - b'0')
    else let letter = bit_and c (255 - 0x20) in
      if ltb letter (b'7' + 0x0a) || ltb (b'7' + 0x0f) letter then none else some (letter - b'7')
