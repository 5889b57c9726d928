-- ===== src/Stutil.antt =====
-- stutil.c: tokens and blanks. A string is the list of its bytes without its 0; a function that changes a
-- string in place gives the new one. The pointers that are handed over are not NULL.
pub mod Blanks
pub mod Tests
use vfdd.Prelude.{
  ℕ, zero, suc, Bool, false, ◌||◌, Option, none, some, List, [], ◌∷◌, ◌==◌, if◌then◌else◌, length,
  get_or, take,
}

-- A byte is one of a string's.
unfoldable pub one_of : List ℕ → ℕ → Bool
one_of [] c = false
one_of (x ∷ xs) c = x == c || one_of xs c

-- `p + strspn( p, set )`
unfoldable pub skip_over : List ℕ → List ℕ → List ℕ
skip_over chars [] = []
skip_over chars (c ∷ cs) = let rest = skip_over chars cs in if one_of chars c then rest else c ∷ cs

-- The bytes up to `p + strcspn( p, set )`, and those from there on.
unfoldable pub cut_at : List ℕ → List ℕ → List ℕ × List ℕ
cut_at chars [] = ([], [])
cut_at chars (c ∷ cs) =
    let rest = cut_at chars cs in if one_of chars c then ([], c ∷ cs) else (c ∷ rest.0, rest.1)

-- `stu_token_next_sep`: the token, the new `*sn` and what `*sep` gets; `none` is NULL.
unfoldable pub token_next_sep :
    Option (List ℕ) → List ℕ → List ℕ → Option (List ℕ) × Option (List ℕ) × ℕ
token_next_sep none endstr skipstr = (none, none, 0)
token_next_sep (some sn) endstr skipstr = behind (cut_at endstr (skip_over skipstr sn))
  where
    left : List ℕ → Option (List ℕ)
    left [] = none
    left (c ∷ cs) = some (c ∷ cs)

    behind : List ℕ × List ℕ → Option (List ℕ) × Option (List ℕ) × ℕ
    behind (tok, []) = (some tok, none, 0)
    behind (tok, c ∷ cs) = (some tok, left (skip_over skipstr cs), c)

-- `stu_token_next`
unfoldable pub token_next : Option (List ℕ) → List ℕ → List ℕ → Option (List ℕ) × Option (List ℕ)
token_next sn endstr skipstr = let r = token_next_sep sn endstr skipstr in (r.0, r.1)

unfoldable pub is_blank : ℕ → Bool
is_blank c = c == b' ' || c == b'\t'

-- The loop of `stu_rm_blank_at_end`: `n` bytes are left in front of `e + 1`.
unfoldable pub end_loop : List ℕ → ℕ → List ℕ
end_loop s zero = []
end_loop s (suc n) =
    let rest = end_loop s n in if is_blank (get_or s n 0) then rest else take (suc n) s

unfoldable pub rm_blank_at_end : List ℕ → List ℕ
rm_blank_at_end s = end_loop s (length s)

-- `stu_rm_blank_at_start`
unfoldable pub rm_blank_at_start : List ℕ → List ℕ
rm_blank_at_start [] = []
rm_blank_at_start (c ∷ cs) = let rest = rm_blank_at_start cs in if is_blank c then rest else c ∷ cs

-- `stu_rm_blank`
unfoldable pub rm_blank : List ℕ → List ℕ
rm_blank s = rm_blank_at_start (rm_blank_at_end s)

-- What is behind the first and behind the last of a byte (`strchr`, `strrchr`), and in front of the last.
unfoldable pub behind_first : ℕ → List ℕ → Option (List ℕ)
behind_first b [] = none
behind_first b (c ∷ cs) = let rest = behind_first b cs in if c == b then some cs else rest

unfoldable pub behind_last : ℕ → List ℕ → Option (List ℕ)
behind_last b [] = none
behind_last b (c ∷ cs) = elim (behind_last b cs) [
  | none ↦ if c == b then some cs else none
  | some t ↦ some t
]

unfoldable pub before_last : ℕ → List ℕ → Option (List ℕ)
before_last b [] = none
before_last b (c ∷ cs) = elim (before_last b cs) [
  | none ↦ if c == b then some [] else none
  | some t ↦ some (c ∷ t)
]

-- `stu_unquote`
unfoldable pub unquote : List ℕ → List ℕ
unquote str = elim (behind_first b'"' str) as (λ _. List ℕ) [
  | none ↦ str
  | some s ↦ elim (before_last b'"' s) as (λ _. List ℕ) [ none ↦ s | some t ↦ t ]
]

-- `stu_ext_get`
unfoldable pub ext_get : List ℕ → List ℕ
ext_get path = elim (behind_last b'.' path) as (λ _. List ℕ) [ none ↦ path | some ext ↦ ext ]
