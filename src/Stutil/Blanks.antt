-- ===== src/Stutil/Blanks.antt =====
-- stutil.c: what `stu_rm_blank` leaves.
use vfdd.Prelude.{
  ℕ, zero, suc, ◌+◌, ◌≤◌, ◌<◌, ◌≡◌, refl, sym, ap, ◌∙◌, true, false, List, [], ◌∷◌, ◌++◌,
  append_assoc, arith, length, get_or, take, length-append,
}
use vfdd.Stutil.{is_blank, end_loop, rm_blank_at_end, rm_blank_at_start, rm_blank}

abbrev pub AllBlank : List ℕ → Type 0
AllBlank [] = Unit {0}
AllBlank (x ∷ xs) = (is_blank x ≡ true) × AllBlank xs

get_or-append : (p ys : List ℕ) (n : ℕ) → get_or (p ++ ys) (length p + n) 0 ≡ get_or ys n 0
get_or-append [] ys n = ap (λ k. get_or ys k 0) (let e : 0 + n ≡ n = omega arith in e)
get_or-append (x ∷ xs) ys n =
    ap (λ k. get_or (x ∷ xs ++ ys) k 0)
      (let e : length (x ∷ xs) + n ≡ suc (length xs + n) = omega arith in e)
    ∙ get_or-append xs ys n

get_or-blank : (ys : List ℕ) (n : ℕ) → AllBlank ys → n < length ys → is_blank (get_or ys n 0) ≡ true
get_or-blank [] n b h = absurd (omega arith)
get_or-blank (y ∷ ys) zero b h = b.0
get_or-blank (y ∷ ys) (suc n) b h = get_or-blank ys n b.1 (omega arith)

end_loop-blank :
    (p ys : List ℕ) (n : ℕ)
    → AllBlank ys
    → n ≤ length ys
    → end_loop (p ++ ys) (length p + n) ≡ end_loop (p ++ ys) (length p)
unfolding end_loop
end_loop-blank p ys zero b h =
    ap (end_loop (p ++ ys)) (let e : length p + 0 ≡ length p = omega arith in e)
end_loop-blank p ys (suc n) b h =
    ap (end_loop (p ++ ys)) (let e : length p + suc n ≡ suc (length p + n) = omega arith in e)
    ∙ rw (get_or-append p ys n, get_or-blank ys n b (omega arith))
        (end_loop-blank p ys n b (omega arith))

take-front : (p ys : List ℕ) → take (length p) (p ++ ys) ≡ p
take-front [] ys = refl
take-front (x ∷ xs) ys = ap (λ t. x ∷ t) (take-front xs ys)

-- Blanks behind a byte that is none
rm_blank_at_end-append :
    (p : List ℕ) (d : ℕ) (ys : List ℕ)
    → is_blank d ≡ false
    → AllBlank ys
    → rm_blank_at_end ((p ++ d ∷ []) ++ ys) ≡ p ++ d ∷ []
unfolding rm_blank_at_end end_loop
rm_blank_at_end-append p d ys h b =
    let s = (p ++ d ∷ []) ++ ys in
    ap (end_loop s) (length-append (p ++ d ∷ []) ys)
    ∙ (end_loop-blank (p ++ d ∷ []) ys (length ys) b (omega arith)
        ∙ (ap (end_loop s) (
              let e : length (p ++ d ∷ []) ≡ suc (length p) =
                omega (arith, length-append p (d ∷ [])) in
              e)
            ∙ rw (here, h)
                (ap (λ n. take n s)
                    (let e : suc (length p) ≡ length (p ++ d ∷ []) =
                        omega (arith, length-append p (d ∷ [])) in
                      e)
                  ∙ take-front (p ++ d ∷ []) ys)))
  where
    here : get_or ((p ++ d ∷ []) ++ ys) (length p) 0 ≡ d
    here =
        ap (λ t. get_or t (length p) 0) (append_assoc p (d ∷ []) ys)
        ∙ (ap (λ k. get_or (p ++ d ∷ ys) k 0) (let e : length p ≡ length p + 0 = omega arith in e)
            ∙ get_or-append p (d ∷ ys) 0)

rm_blank_at_start-append :
    (xs : List ℕ) (c : ℕ) (rest : List ℕ)
    → AllBlank xs
    → is_blank c ≡ false
    → rm_blank_at_start (xs ++ c ∷ rest) ≡ c ∷ rest
unfolding rm_blank_at_start
rm_blank_at_start-append [] c rest b h = rw h refl
rm_blank_at_start-append (x ∷ xs) c rest b h = rw b.0 (rm_blank_at_start-append xs c rest b.1 h)

-- `stu_rm_blank` takes the blanks off both ends of a text of at least two bytes that neither begins nor
-- ends with one, and leaves the blanks inside.
pub rm_blank-append :
    (xs : List ℕ) (c : ℕ) (mid : List ℕ) (d : ℕ) (ys : List ℕ)
    → AllBlank xs
    → is_blank c ≡ false
    → is_blank d ≡ false
    → AllBlank ys
    → rm_blank ((xs ++ c ∷ (mid ++ d ∷ [])) ++ ys) ≡ c ∷ (mid ++ d ∷ [])
unfolding rm_blank
rm_blank-append xs c mid d ys bx hc hd by =
    let same : xs ++ c ∷ (mid ++ d ∷ []) ≡ (xs ++ c ∷ mid) ++ d ∷ [] =
      sym (append_assoc xs (c ∷ mid) (d ∷ [])) in
    ap (λ t. rm_blank_at_start (rm_blank_at_end (t ++ ys))) same
    ∙ (ap rm_blank_at_start (rm_blank_at_end-append (xs ++ c ∷ mid) d ys hd by)
        ∙ (ap rm_blank_at_start (sym same) ∙ rm_blank_at_start-append xs c (mid ++ d ∷ []) bx hc))
