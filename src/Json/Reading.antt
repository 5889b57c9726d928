-- ===== src/Json/Reading.antt =====
-- jsonroot.c: single bytes of a string, read from a buffer that is not filled again.
use vfdd.Prelude.Memory.{load, load-lt}
use mathlib.Core.Option.{none-ne-some}
use mathlib.Core.Bool.{false≢true}
use vfdd.Prelude.{
  ℕ, zero, suc, ◌*◌, ◌%◌, ◌^◌, ◌<◌, bit_or, ◌≡◌, refl, sym, ap, ◌∙◌, inl, inr, Bool, true, false,
  ◌&&◌, Option, none, some, List, [], ◌∷◌, ◌++◌, arith, ◌==◌, ==_iff, Bool-cases, length, get_or,
  drop, Outcome, done,
}
use vfdd.Utf8.{length_loop, chars_loop, code2chars, c_to_hex}
use vfdd.Dbuf.{DBuf}
use vfdd.Dbuf.Bounds.{IsValid}
use vfdd.Dbuf.Read.{refill}
use vfdd.Dbuf.Reads.{
  left, stepped, next_char-end, next_char-lt, stepped-IsValid, left-lt, left-nil, left-cons,
}
use vfdd.Json.{next_byte}
use vfdd.Json.Strings.{hex_loop, unescaped}
use vfdd.Json.Print.{hex_digit, hex4, letter_of, is_plain}

-- The text that is left is `text`.
abbrev pub IsAt : DBuf → List ℕ → Type 0
IsAt d text = IsValid d × (left d ≡ text)

pub next_byte-left :
    (d : DBuf) (c : ℕ) (rest : List ℕ)
    → IsAt d (c ∷ rest)
    → (next_byte none d ≡ done (some (d.pos, c), stepped d)) × IsAt (stepped d) rest
unfolding next_byte
next_byte-left d c rest (v, e) =
    let more = left-cons d v e in
    let both = sym (left-lt d v more) ∙ e in
    let here : get_or d.s d.pos 0 ≡ c = ap (λ t. get_or t 0 0) both in
    (
      rw
          (
            next_char-lt none d more (omega (arith, v.block, v.room)),
            load-lt d.s d.pos (omega (arith, v.block, v.room)),
            here,
          )
          refl,
      (stepped-IsValid d v more, ap (drop 1) both),
    )

pub load-left : (d : DBuf) (c : ℕ) (rest : List ℕ) → IsAt d (c ∷ rest) → load d.s d.pos ≡ done c
load-left d c rest (v, e) =
    let more = left-cons d v e in
    load-lt d.s d.pos (omega (arith, v.block, v.room))
    ∙ ap done (ap (λ t. get_or t 0 0) (sym (left-lt d v more) ∙ e))

pub next_byte-end : (d : DBuf) → IsAt d [] → next_byte none d ≡ done (none, d)
unfolding next_byte refill
next_byte-end d (v, e) = rw (next_char-end none d (left-nil d v e)) refl

-- The number of hexadecimal digits behind `uc`.
unfoldable pub hex_value : List ℕ → ℕ → Option ℕ
hex_value [] uc = some uc
hex_value (c ∷ cs) uc = elim (c_to_hex c) [
  | none ↦ none
  | some h ↦ hex_value cs (bit_or (uc * 2 ^ 4 % 2 ^ 32) h)
]

pub hex_loop-value :
    (ds : List ℕ) (uc v : ℕ) (src : DBuf) (rest : List ℕ)
    → IsAt src (ds ++ rest)
    → hex_value ds uc ≡ some v
    → (e : DBuf) × (hex_loop none (length ds) src uc ≡ done (some v, e)) × IsAt e rest
unfolding hex_loop hex_value
hex_loop-value [] uc v src rest at h = (src, ap (λ t. done (t, src)) h, at)
hex_loop-value (c ∷ cs) uc v src rest at h =
    let (out, next) = next_byte-left src c (cs ++ rest) at in
    rw out (digit (c_to_hex c) h (λ w g. hex_loop-value cs w v (stepped src) rest next g))
  where
    shifted : ℕ → ℕ
    shifted h = bit_or (uc * 2 ^ 4 % 2 ^ 32) h

    digit :
        (o : Option ℕ)
        → (elim o as (λ _. Option ℕ) [ none ↦ none | some h ↦ hex_value cs (shifted h) ]) ≡ some v
        → ((w : ℕ)
            → hex_value cs w ≡ some v
            → (e : DBuf) × (hex_loop none (length cs) (stepped src) w ≡ done (some v, e))
              × IsAt e rest)
        → (e : DBuf) × ((elim o as (λ _. Outcome (Option ℕ × DBuf)) [
          | none ↦ done (none, stepped src)
          | some h ↦ hex_loop none (length cs) (stepped src) (shifted h)
        ])
            ≡ done (some v, e))
          × IsAt e rest
    digit none g go = absurd (none-ne-some v g)
    digit (some x) g go = go (shifted x) g

-- The letters of an escape give back its byte.
pub letter_of-unescaped :
    (c e : ℕ) → letter_of c ≡ some e → ((e == b'u') ≡ false) × (unescaped e ≡ c)
unfolding letter_of unescaped
letter_of-unescaped c e h = (ground arith, ground arith)

pub plain-other : (c : ℕ) → is_plain c ≡ true → ((c == b'"') ≡ false) × ((c == b'\\') ≡ false)
unfolding is_plain
plain-other c p = (ground arith, ground arith)

pub letter_of-none : (c : ℕ) → is_plain c ≡ false → letter_of c ≡ none → c < 32
unfolding letter_of is_plain
letter_of-none c p h = ground arith

-- `t` holds of every number below `n`.
all_below : ℕ → (ℕ → Bool) → Bool
all_below zero t = true
all_below (suc n) t = t n && all_below n t

and_parts : (a b : Bool) → (a && b) ≡ true → (a ≡ true) × (b ≡ true)
and_parts true b e = (refl, e)
and_parts false b e = absurd (false≢true e)

all_below-lt : (n : ℕ) (t : ℕ → Bool) → all_below n t ≡ true → (c : ℕ) → c < n → t c ≡ true
unfolding all_below
all_below-lt zero t a c h = absurd (omega arith)
all_below-lt (suc n) t a c h =
    let (here, others) = and_parts (t n) (all_below n t) a in
    elim (Bool-cases (c == n)) [
      | inl e ↦ ap t ((==_iff c n).0 e) ∙ here
      | inr e ↦ all_below-lt n t others c (ground arith)
    ]

-- The four digits of `c` give `c`, and so does its UTF-8.
is_back : ℕ → Bool
is_back c =
    (elim (hex_value (hex4 c) 0) [ none ↦ false | some v ↦ v == c ])
    && (elim (code2chars c) as (λ _. Bool) [
      | [] ↦ false
      | x ∷ xs ↦ x == c && (elim xs as (λ _. Bool) [ [] ↦ true | _ ∷ _ ↦ false ])
    ])

all_back : all_below 32 is_back ≡ true
unfolding all_below is_back hex_value hex4 hex_digit c_to_hex code2chars length_loop chars_loop
all_back = refl

pub hex4-back : (c : ℕ) → c < 32 → (hex_value (hex4 c) 0 ≡ some c) × (code2chars c ≡ c ∷ [])
unfolding is_back
hex4-back c h =
    let (a, b) = and_parts _ _ (all_below-lt 32 is_back all_back c h) in
    (value (hex_value (hex4 c) 0) a, chars (code2chars c) b)
  where
    value :
        (o : Option ℕ)
        → (elim o as (λ _. Bool) [ none ↦ false | some v ↦ v == c ]) ≡ true
        → o ≡ some c
    value none e = absurd (false≢true e)
    value (some v) e = ap some ((==_iff v c).0 e)

    chars :
        (l : List ℕ)
        → (elim l as (λ _. Bool) [
          | [] ↦ false
          | x ∷ xs ↦ x == c && (elim xs as (λ _. Bool) [ [] ↦ true | _ ∷ _ ↦ false ])
        ])
          ≡ true
        → l ≡ c ∷ []
    chars [] e = absurd (false≢true e)
    chars (x ∷ []) e = ap (λ t. t ∷ []) ((==_iff x c).0 (and_parts _ _ e).0)
    chars (x ∷ y ∷ ys) e = absurd (false≢true (and_parts (x == c) false e).1)
