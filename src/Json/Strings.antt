-- ===== src/Json/Strings.antt =====
-- jsonroot.c: reading a string. `p` is a pointer with the byte it points at.
use vfdd.Prelude.{
  ℕ, zero, suc, ◌+◌, ◌*◌, ◌%◌, ◌^◌, bit_and, bit_or, Bool, true, false, not, ◌&&◌, ◌||◌, Option,
  none, some, List, [], ◌∷◌, ◌++◌, ltb, leb, ◌==◌, if◌then◌else◌, take, Outcome, ◌>>=◌, ◌>>?◌, done,
  fault,
}
use vfdd.Prelude.Memory.{load}
use vfdd.Strmem.{app_strlen}
use vfdd.Utf8.{code2chars, c_to_hex}
use vfdd.Dbuf.{DBuf, clear, strcat, put_char}
use vfdd.Dbuf.Read.{Fill}
use vfdd.Json.{Root, next_byte}

-- The loop of `json_root_get_hex`: `n` digits are left, and `none` is NULL.
unfoldable pub hex_loop : Fill → ℕ → DBuf → ℕ → Outcome (Option ℕ × DBuf)
hex_loop fill zero src uc = done (some uc, src)
hex_loop fill (suc n) src uc = do
  (p, src') ← next_byte fill src
  elim p [
    | none ↦ done (none, src')
    | some (_, c) ↦ elim (c_to_hex c) [
      | none ↦ done (none, src')
      | some h ↦ hex_loop fill n src' (bit_or (uc * 2 ^ 4 % 2 ^ 32) h)
    ]
  ]

unfoldable pub get_hex : Fill → DBuf → Outcome (Option ℕ × DBuf)
get_hex fill src = hex_loop fill 4 src 0

-- `p = dbuf_next_char( src ); if ( p == NULL || *p != c )`
unfoldable pub expect_byte : Fill → ℕ → DBuf → Outcome (Bool × DBuf)
expect_byte fill c src = do
  (p, src') ← next_byte fill src
  elim p [ none ↦ done (false, src') | some (_, b) ↦ done (b == c, src') ]

-- The second half of a surrogate pair.
unfoldable pub low_half : Fill → ℕ → DBuf → Outcome (Option ℕ × DBuf)
low_half fill uc1 src = do
  (a, src₁) ← expect_byte fill b'\\' src
  if not a then done (none, src₁) else (do
    (b, src₂) ← expect_byte fill b'u' src₁
    if not b then done (none, src₂) else (do
      (uc, src₃) ← get_hex fill src₂
      elim uc [
        | none ↦ done (none, src₃)
        | some uc2 ↦
            if ltb uc2 0xdc00 || ltb 0xdfff uc2
            then done (none, src₃)
            else done
                (some (0x10000 + bit_or (bit_and uc1 0x3ff * 2 ^ 10) (bit_and uc2 0x3ff)), src₃)
      ]))

-- `json_root_check_utf`
unfoldable pub check_utf : Fill → DBuf → Outcome (Option ℕ × DBuf)
check_utf fill src = do
  (uc, src') ← get_hex fill src
  elim uc [
    | none ↦ done (none, src')
    | some uc1 ↦
        if (leb 0xdc00 uc1 && leb uc1 0xdfff) || uc1 == 0
        then done (none, src')
        else if leb 0xd800 uc1 && leb uc1 0xdbff
        then low_half fill uc1 src'
        else done (some uc1, src')
  ]

-- How the loop of `json_root_parse_string` ends: with its `p`, or by the return in case 'u'.
pub data Ending : Type 0 where
  over : Option (ℕ × ℕ) → Ending
  bad_escape : Ending

-- The byte that an escape other than `\u` stands for.
unfoldable pub unescaped : ℕ → ℕ
unescaped c =
    if c == b'b'
    then 8
    else if c == b'f'
    then 12
    else if c == b'n'
    then 10
    else if c == b'r'
    then 13
    else if c == b't'
    then 9
    else c

-- The `switch`: false is the return of NULL.
unfoldable pub escape_round : Fill → ℕ → Root → Outcome (Bool × Root)
escape_round fill c r =
    if c == b'u'
    then (do
      (uc, src) ← check_utf fill r.src
      elim uc [
        | none ↦ done (false, record r { src = src })
        | some code ↦ strcat r.dbuf (code2chars code ++ 0 ∷ []) >>= λ d.
            done (true, record r { src = src; dbuf = d })
      ])
    else (do d ← put_char r.dbuf (unescaped c); done (true, record r { dbuf = d }))

-- The loop of `json_root_parse_string`, with fuel.
unfoldable pub string_loop : Fill → ℕ → Root → Option (Outcome (Ending × Root))
string_loop fill zero r = none
string_loop fill (suc f) r = next_byte fill r.src >>? λ (p, src).
    let r' = record r { src = src } in
    elim p [
      | none ↦ some (done (over none, r'))
      | some (i, c) ↦
          if c == 0 || c == b'"'
          then some (done (over (some (i, c)), r'))
          else if c == b'\\'
          then (next_byte fill src >>? λ (q, src₂).
              let r'' = record r { src = src₂ } in
              elim q [
                | none ↦ some (done (over none, r''))
                | some (_, e) ↦ escape_round fill e r'' >>? λ (ok, r₃).
                    if ok then string_loop fill f r₃ else some (done (bad_escape, r₃))
              ])
          else put_char r.dbuf c >>? λ d. string_loop fill f (record r' { dbuf = d })
    ]

-- What follows the loop: the string that the item takes and the pointer behind it, or NULL. At the end
-- of the text `p` is NULL, and `*p` is read.
unfoldable pub string_end : Ending × Root → Outcome (Option (List ℕ × ℕ) × Root)
string_end (bad_escape, r) = done (none, r)
string_end (over none, r) = fault
string_end (over (some (i, c)), r) =
    if c == b'"'
    then done (some (take (app_strlen r.dbuf.s) r.dbuf.s, i + 1), r)
    else done (none, record r { expected = b'"'; errptr = some i })

-- `json_root_parse_string`, without the item
unfoldable pub parse_string : Fill → ℕ → Root → Option (Outcome (Option (List ℕ × ℕ) × Root))
parse_string fill f r = load r.src.s r.curptr >>? λ c.
    if c == b'"'
    then (clear r.dbuf >>? λ d. elim (string_loop fill f (record r { dbuf = d })) [
      | none ↦ none
      | some out ↦ some (out >>= string_end)
    ])
    else some (done (none, record r { expected = b'"'; errptr = some r.curptr }))
