-- ===== src/Json/Escapes.antt =====
-- jsonroot.c: the text of a string in JSON, and that `json_root_print_str` prints it.
use vfdd.Dbuf.Bounds.{IsValid, max_len}
use vfdd.Prelude.{
  ℕ, ◌+◌, ◌≤◌, ◌≡◌, refl, sym, ap, subst, ◌∙◌, inl, inr, true, false, Option, none, some, List, [],
  ◌∷◌, ◌++◌, append_assoc, arith, if◌then◌else◌, Bool-cases, length, take, length-append, Outcome,
  ◌>>=◌, done,
}
use vfdd.Dbuf.{DBuf, strncat, put_char}
use vfdd.Dbuf.Contents.{contents, Holds, length-contents, put_char-Holds, strncat-Holds}
use vfdd.Json.Print.{hex4, letter_of, is_plain, print_escape}

-- What stands behind the backslash of an escape.
abbrev pub letters : ℕ → List ℕ
letters c = elim (letter_of c) as (λ _. List ℕ) [ some e ↦ e ∷ [] | none ↦ b'u' ∷ hex4 c ]

-- A byte as it stands between the quotes: itself, a backslash and a letter, or `\u` and four digits.
unfoldable pub escape_of : ℕ → List ℕ
escape_of c = if is_plain c then c ∷ [] else b'\\' ∷ letters c

unfoldable pub escaped : List ℕ → List ℕ
escaped [] = []
escaped (c ∷ cs) = escape_of c ++ escaped cs

abbrev pub quoted : List ℕ → List ℕ
quoted cs = b'"' ∷ escaped cs ++ b'"' ∷ []

-- Behind `text` the buffer has `more`, and it is as it was otherwise.
abbrev pub IsGrown : DBuf → List ℕ → Outcome DBuf → Type 0
IsGrown d more out =
    (e : DBuf) × (out ≡ done e) × Holds (contents d ++ more) d.pos d.lineno d.flags e

-- The length of what is held.
pub grown_len :
    (d e : DBuf) (xs : List ℕ)
    → IsValid d
    → Holds (contents d ++ xs) d.pos d.lineno d.flags e
    → e.len ≡ d.len + length xs
grown_len d e xs v h = omega (
  arith,
  ap length h.text_is,
  length-contents e h.valid,
  length-contents d v,
  length-append (contents d) xs,
)

-- One write behind another.
pub Holds-trans :
    (d e f : DBuf) (xs ys : List ℕ)
    → Holds (contents d ++ xs) d.pos d.lineno d.flags e
    → Holds (contents e ++ ys) e.pos e.lineno e.flags f
    → Holds (contents d ++ (xs ++ ys)) d.pos d.lineno d.flags f
Holds-trans d e f xs ys h g = record {
  valid = g.valid;
  text_is = g.text_is ∙ (ap (λ t. t ++ ys) h.text_is ∙ append_assoc (contents d) xs ys);
  ended = g.ended;
  cursor = g.cursor ∙ h.cursor;
  line = g.line ∙ h.line;
  same_flags = g.same_flags ∙ h.same_flags;
}

IsGrown-trans :
    (d e : DBuf) (xs ys : List ℕ) (out : Outcome DBuf)
    → Holds (contents d ++ xs) d.pos d.lineno d.flags e
    → IsGrown e ys out
    → IsGrown d (xs ++ ys) out
IsGrown-trans d e xs ys out h (f, same, g) = (f, same, Holds-trans d e f xs ys h g)

-- A write, and what goes on behind it.
pub IsGrown-then :
    (d : DBuf) (xs ys : List ℕ) (out : Outcome DBuf) (go : DBuf → Outcome DBuf)
    → IsGrown d xs out
    → ((e : DBuf) → Holds (contents d ++ xs) d.pos d.lineno d.flags e → IsGrown e ys (go e))
    → IsGrown d (xs ++ ys) (out >>= go)
IsGrown-then d xs ys out go (e, same, h) next =
    subst (λ o. IsGrown d (xs ++ ys) (o >>= go)) (sym same)
      (IsGrown-trans d e xs ys (go e) h (next e h))

take-whole : (xs ys : List ℕ) → take (length xs) (xs ++ ys) ≡ xs
take-whole [] ys = refl
take-whole (x ∷ xs) ys = ap (λ t. x ∷ t) (take-whole xs ys)

-- `dbuf_strncat` of all of a text.
pub strncat_whole :
    (d : DBuf) (xs ys : List ℕ)
    → IsValid d
    → d.len + length xs ≤ max_len
    → IsGrown d xs (strncat d (xs ++ ys) (length xs))
strncat_whole d xs ys v h =
    subst (λ t. IsGrown d t (strncat d (xs ++ ys) (length xs))) (take-whole xs ys)
      (strncat-Holds d (xs ++ ys) (length xs) v (omega (arith, length-append xs ys)) h)

-- The `switch` of `json_root_print_str`.
pub print_escape-IsGrown :
    (d : DBuf) (c : ℕ)
    → IsValid d
    → d.len + length (letters c) ≤ max_len
    → IsGrown d (letters c) (print_escape d c)
unfolding print_escape hex4
print_escape-IsGrown d c v h = pick (letter_of c) h
  where
    pick :
        (l : Option ℕ)
        → d.len + length (elim l as (λ _. List ℕ) [ some e ↦ e ∷ [] | none ↦ b'u' ∷ hex4 c ])
          ≤ max_len
        → IsGrown d
            (elim l as (λ _. List ℕ) [ some e ↦ e ∷ [] | none ↦ b'u' ∷ hex4 c ])
            (elim l [ some e ↦ put_char d e | none ↦ strncat d (b'u' ∷ hex4 c ++ 0 ∷ []) 5 ])
    pick (some e) h = put_char-Holds d e v (omega arith)
    pick none h = strncat_whole d (b'u' ∷ hex4 c) (0 ∷ []) v h

pub escape_of-plain : (c : ℕ) → is_plain c ≡ true → escape_of c ≡ c ∷ []
unfolding escape_of
escape_of-plain c e = rw e refl

pub escape_of-letters : (c : ℕ) → is_plain c ≡ false → escape_of c ≡ b'\\' ∷ letters c
unfolding escape_of
escape_of-letters c e = rw e refl

pub length-escaped_ge : (cs : List ℕ) → length cs ≤ length (escaped cs)
unfolding escaped
length-escaped_ge [] = omega arith
length-escaped_ge (c ∷ cs) =
    let one : 1 ≤ length (escape_of c) = elim (Bool-cases (is_plain c)) [
      | inl e ↦ omega (arith, ap length (escape_of-plain c e))
      | inr e ↦ omega (arith, ap length (escape_of-letters c e))
    ] in
    omega (arith, length-append (escape_of c) (escaped cs), length-escaped_ge cs)
