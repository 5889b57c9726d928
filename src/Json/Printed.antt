-- ===== src/Json/Printed.antt =====
-- jsonroot.c: `json_root_print_str` appends a string with its escapes.
use vfdd.Prelude.{
  ℕ, ◌+◌, ◌≤◌, ◌≡◌, sym, ap, subst, inl, inr, false, some, List, [], ◌∷◌, ◌++◌, append_assoc, arith,
  Bool-cases, length, length-append, ◌>>=◌,
}
use vfdd.Dbuf.{DBuf, strncat, put_char}
use vfdd.Dbuf.Bounds.{IsValid, max_len}
use vfdd.Dbuf.Contents.{put_char-Holds}
use vfdd.Json.Print.{is_plain, print_escape, print_loop, print_str}
use vfdd.Json.Escapes.{
  letters, escape_of, escaped, quoted, IsGrown, grown_len, IsGrown-then, strncat_whole,
  print_escape-IsGrown, escape_of-plain, escape_of-letters,
}

-- A plain byte joins what stands between `str` and `p`.
join_pend :
    (d : DBuf) (pend : List ℕ) (c : ℕ) (cs tail : List ℕ)
    → IsGrown d
        ((pend ++ c ∷ []) ++ tail)
        (print_loop d ((pend ++ c ∷ []) ++ cs) (length (pend ++ c ∷ [])) cs)
    → IsGrown d (pend ++ c ∷ tail) (print_loop d (pend ++ c ∷ cs) (length pend + 1) cs)
join_pend d pend c cs tail g =
    subst (λ t. IsGrown d t (print_loop d (pend ++ c ∷ cs) (length pend + 1) cs))
      (append_assoc pend (c ∷ []) tail)
      (subst (λ t. IsGrown d ((pend ++ c ∷ []) ++ tail) (print_loop d t (length pend + 1) cs))
        (append_assoc pend (c ∷ []) cs)
        (subst
          (λ n. IsGrown d ((pend ++ c ∷ []) ++ tail) (print_loop d ((pend ++ c ∷ []) ++ cs) n cs))
          (length-append pend (c ∷ [])) g))

-- A byte that is escaped: what is pending goes out, then its escape.
escape_pend :
    (d : DBuf) (pend : List ℕ) (c : ℕ) (cs : List ℕ)
    → IsValid d
    → d.len + (length pend + (1 + length (letters c))) ≤ max_len
    → ((e : DBuf)
        → IsValid e
        → e.len ≤ d.len + (length pend + (1 + length (letters c)))
        → IsGrown e (escaped cs ++ b'"' ∷ []) (print_loop e cs 0 cs))
    → IsGrown d (pend ++ (((b'\\' ∷ letters c) ++ escaped cs) ++ b'"' ∷ [])) (do
      d₁ ← strncat d (pend ++ c ∷ cs) (length pend)
      d₂ ← put_char d₁ b'\\'
      d₃ ← print_escape d₂ c
      print_loop d₃ cs 0 cs)
escape_pend d pend c cs v h next =
    IsGrown-then d pend (((b'\\' ∷ letters c) ++ escaped cs) ++ b'"' ∷ [])
      (strncat d (pend ++ c ∷ cs) (length pend)) _ (strncat_whole d pend (c ∷ cs) v (omega arith))
      (λ d₁ g₁.
        let l₁ = grown_len d d₁ pend v g₁ in
        IsGrown-then d₁ (b'\\' ∷ []) ((letters c ++ escaped cs) ++ b'"' ∷ []) (put_char d₁ b'\\') _
          (put_char-Holds d₁ b'\\' g₁.valid (omega arith))
          (λ d₂ g₂.
            let l₂ = grown_len d₁ d₂ (b'\\' ∷ []) g₁.valid g₂ in
            subst (λ t. IsGrown d₂ t (print_escape d₂ c >>= λ d₃. print_loop d₃ cs 0 cs))
              (sym (append_assoc (letters c) (escaped cs) (b'"' ∷ [])))
              (IsGrown-then d₂ (letters c) (escaped cs ++ b'"' ∷ []) (print_escape d₂ c) _
                (print_escape-IsGrown d₂ c g₂.valid (omega arith))
                (λ d₃ g₃.
                  next d₃ g₃.valid (omega (arith, grown_len d₂ d₃ (letters c) g₂.valid g₃))))))

lengths :
    (c : ℕ) (cs : List ℕ)
    → is_plain c ≡ false
    → length (escaped (c ∷ cs)) ≡ 1 + length (letters c) + length (escaped cs)
unfolding escaped
lengths c cs e =
    omega (arith, length-append (escape_of c) (escaped cs), ap length (escape_of-letters c e))

-- The loop, where `pend` stands between `str` and `p`.
print_loop-IsGrown :
    (d : DBuf) (pend cs : List ℕ)
    → IsValid d
    → d.len + (length pend + (length (escaped cs) + 1)) ≤ max_len
    → IsGrown d (pend ++ (escaped cs ++ b'"' ∷ [])) (print_loop d (pend ++ cs) (length pend) cs)
unfolding print_loop escaped escape_of
print_loop-IsGrown d pend [] v h =
    IsGrown-then d pend (b'"' ∷ []) (strncat d (pend ++ []) (length pend)) (λ e. put_char e b'"')
      (strncat_whole d pend [] v (omega arith))
      (λ e g. put_char-Holds e b'"' g.valid (omega (arith, grown_len d e pend v g)))
print_loop-IsGrown d pend (c ∷ cs) v h = elim (Bool-cases (is_plain c)) [
  | inl e ↦ rw e (
      join_pend d pend c cs (escaped cs ++ b'"' ∷ []) (
        print_loop-IsGrown d (pend ++ c ∷ []) cs v (
          omega (
            arith,
            length-append pend (c ∷ []),
            length-append (escape_of c) (escaped cs),
            ap length (escape_of-plain c e),
          ))))
  | inr e ↦ rw e (
      escape_pend d pend c cs v (omega (arith, lengths c cs e))
        (λ d₃ g l. print_loop-IsGrown d₃ [] cs g (omega (arith, lengths c cs e))))
]

-- `json_root_print_str` appends the string between quotes, and every byte that JSON does not let stand
-- there is escaped, if the buffer does not get longer than an `int` can count.
pub print_str-IsGrown :
    (d : DBuf) (cs : List ℕ)
    → IsValid d
    → d.len + length (quoted cs) ≤ max_len
    → IsGrown d (quoted cs) (print_str d (some cs))
unfolding print_str
print_str-IsGrown d cs v h =
    IsGrown-then d (b'"' ∷ []) (escaped cs ++ b'"' ∷ []) (put_char d b'"')
      (λ e. print_loop e cs 0 cs) (put_char-Holds d b'"' v (omega arith))
      (λ e g.
        print_loop-IsGrown e [] cs g.valid
          (omega (arith, grown_len d e (b'"' ∷ []) v g, length-append (escaped cs) (b'"' ∷ []))))
