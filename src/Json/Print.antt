-- ===== src/Json/Print.antt =====
-- jsonroot.c: printing a string.
use vfdd.Prelude.{
  ℕ, ◌+◌, ◌-◌, ◌/◌, ◌%◌, Bool, not, ◌&&◌, Option, none, some, List, [], ◌∷◌, ◌++◌, ltb, leb, ◌==◌,
  if◌then◌else◌, Outcome, ◌>>=◌, done,
}
use vfdd.Dbuf.{DBuf, strncat, put_char}

-- A digit of `%x`
unfoldable pub hex_digit : ℕ → ℕ
hex_digit n = if ltb n 10 then b'0' + n else b'a' + (n - 10)

-- `%04x` of a number below 2 ^ 16
unfoldable pub hex4 : ℕ → List ℕ
hex4 n =
    hex_digit (n / 4096 % 16)
    ∷ hex_digit (n / 256 % 16)
    ∷ hex_digit (n / 16 % 16)
    ∷ hex_digit (n % 16)
    ∷ []

-- The letter behind a backslash, for the bytes that have one.
unfoldable pub letter_of : ℕ → Option ℕ
letter_of c =
    if c == b'\\'
    then some b'\\'
    else if c == b'"'
    then some b'"'
    else if c == 8
    then some b'b'
    else if c == 12
    then some b'f'
    else if c == 10
    then some b'n'
    else if c == 13
    then some b'r'
    else if c == 9
    then some b't'
    else none

-- The test for a byte that is printed as it is.
unfoldable pub is_plain : ℕ → Bool
is_plain c = leb 0x20 c && (not (c == b'"') && not (c == b'\\'))

-- The `switch`; `dbuf_printf` appends what it formats.
unfoldable pub print_escape : DBuf → ℕ → Outcome DBuf
print_escape dest c = elim (letter_of c) [
  | some e ↦ put_char dest e
  | none ↦ strncat dest (b'u' ∷ hex4 c ++ 0 ∷ []) 5
]

-- The loop of `json_root_print_str`: `p` is `k` bytes behind `str`, and `cs` stands there.
unfoldable pub print_loop : DBuf → List ℕ → ℕ → List ℕ → Outcome DBuf
print_loop dest str k [] = do d ← strncat dest str k; put_char d b'"'
print_loop dest str k (c ∷ cs) =
    let plain = print_loop dest str (k + 1) cs in
    if is_plain c then plain else (do
      d₁ ← strncat dest str k
      d₂ ← put_char d₁ b'\\'
      d₃ ← print_escape d₂ c
      print_loop d₃ cs 0 cs)

-- `json_root_print_str` of a text without its 0; `none` is NULL.
unfoldable pub print_str : DBuf → Option (List ℕ) → Outcome DBuf
print_str dest none = done dest
print_str dest (some str) = do d ← put_char dest b'"'; print_loop d str 0 str
