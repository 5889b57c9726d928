-- ===== src/Prelude/Below.antt =====
-- Lists of numbers with a bound on each of them.
use vfdd.Prelude.{ℕ, zero, suc, ◌<◌, List, [], ◌∷◌, ◌++◌, arith, get_or, take, drop, replicate}

pub below-append :
    {bound : ℕ} (xs ys : List ℕ)
    → ((i : ℕ) → get_or xs i 0 < bound)
    → ((i : ℕ) → get_or ys i 0 < bound)
    → (i : ℕ) → get_or (xs ++ ys) i 0 < bound
below-append [] ys h g i = g i
below-append (x ∷ xs) ys h g zero = h 0
below-append (x ∷ xs) ys h g (suc i) = below-append xs ys (λ j. h (suc j)) g i

pub below-take :
    {bound : ℕ} (n : ℕ) (xs : List ℕ)
    → ((i : ℕ) → get_or xs i 0 < bound)
    → (i : ℕ) → get_or (take n xs) i 0 < bound
below-take zero xs h i = omega (arith, h 0)
below-take (suc n) [] h i = h i
below-take (suc n) (x ∷ xs) h zero = h 0
below-take (suc n) (x ∷ xs) h (suc i) = below-take n xs (λ j. h (suc j)) i

pub below-drop :
    {bound : ℕ} (n : ℕ) (xs : List ℕ)
    → ((i : ℕ) → get_or xs i 0 < bound)
    → (i : ℕ) → get_or (drop n xs) i 0 < bound
below-drop zero xs h i = h i
below-drop (suc n) [] h i = h i
below-drop (suc n) (x ∷ xs) h i = below-drop n xs (λ j. h (suc j)) i

pub below-replicate :
    (n bound : ℕ) → 0 < bound → (i : ℕ) → get_or {A = ℕ} (replicate n 0) i 0 < bound
below-replicate zero bound h i = h
below-replicate (suc n) bound h zero = h
below-replicate (suc n) bound h (suc i) = below-replicate n bound h i
