-- ===== src/Strmem.antt =====
-- strmem.c: string lengths and the size of a buffer.
pub mod Tests
use vfdd.Prelude.{
  ℕ, zero, suc, ◌+◌, ◌*◌, ◌%◌, ◌^◌, ◌≤◌, ◌<◌, ◌≡◌, refl, ap, ◌∙◌, ◌⊎◌, inl, inr, Option, none, some,
  List, [], ◌∷◌, arith, ltb, ◌==◌, if◌then◌else◌, ltb→lt, ltb→le, lt→ltb, le→ltb, Bool-cases,
}
use native.Mathlib.Nat.{pow-suc, pow-le-pow_right}

-- `while (newsize < size) newsize <<= 1;` on `unsigned int`, with fuel. What a `let` binds waits.
unfoldable pub power_loop : ℕ → ℕ → ℕ → Option ℕ
power_loop zero newsize size = none
power_loop (suc f) newsize size =
    let rest = power_loop f (newsize * 2 % 2 ^ 32) size in
    if ltb newsize size then rest else some newsize

-- `app_power_of_2`. Past 32 doublings the value is 0 and stays 0, so 33 rounds decide.
unfoldable pub app_power_of_2 : ℕ → Option ℕ
unfolding power_loop
app_power_of_2 size = power_loop 33 1 size

-- `strlen` of a block of memory, up to the first 0.
unfoldable pub app_strlen : List ℕ → ℕ
app_strlen [] = 0
app_strlen (x ∷ xs) = let n = app_strlen xs in if x == 0 then 0 else suc n

pow-le : (k : ℕ) → k ≤ 31 → 2 ^ k ≤ 2 ^ 31
pow-le k h = pow-le-pow_right (omega arith) h

-- One more unit of fuel changes no result.
power_loop_more :
    (f n size m : ℕ) → power_loop f n size ≡ some m → power_loop (suc f) n size ≡ some m
unfolding power_loop
power_loop_more zero n size m e = absurd (cc)
power_loop_more (suc f) n size m e = ground (arith, power_loop_more f (n * 2 % 2 ^ 32) size m)

-- A round below `size` doubles the value, without wrap up to `2 ^ 31`.
power_loop-next :
    (f k size : ℕ)
    → k < 31
    → 2 ^ k < size
    → power_loop (suc f) (2 ^ k) size ≡ power_loop f (2 ^ suc k) size
unfolding power_loop
power_loop-next f k size h lt =
    rw (lt→ltb _ _ lt)
      (ap (λ n. power_loop f n size) (omega (arith, pow-suc 2 k, pow-le (suc k) (omega arith))))

power_loop-stop : (f n size : ℕ) → size ≤ n → power_loop (suc f) n size ≡ some n
unfolding power_loop
power_loop-stop f n size h = rw (le→ltb _ _ h)

-- `m` is the least power of two that is not below `size`.
pub record IsCover (size m : ℕ) : Type 0 where
  pub exponent : ℕ
  pub is_power : m ≡ 2 ^ exponent
  pub covers : size ≤ m
  pub least : (m ≡ 1) ⊎ (m < 2 * size)

power_loop_lem :
    (f k size : ℕ)
    → k + f ≡ 31
    → size ≤ 2 ^ 31
    → (2 ^ k ≡ 1) ⊎ (2 ^ k < 2 * size)
    → (m : ℕ) × (power_loop (suc f) (2 ^ k) size ≡ some m) × IsCover size m
power_loop_lem zero k size e h g =
    let last : k ≡ 31 = omega arith in
    let top : 2 ^ k ≡ 2 ^ 31 = ap (λ i. 2 ^ i) last in
    let here : size ≤ 2 ^ k = omega arith in
    (
      2 ^ k,
      power_loop-stop 0 (2 ^ k) size here,
      record { exponent = k; is_power = refl; covers = here; least = g },
    )
power_loop_lem (suc f) k size e h g = elim (Bool-cases (ltb (2 ^ k) size)) [
  | inl more ↦
      let (m, out, cover) =
        power_loop_lem f (suc k) size (omega arith) h
          (inr (omega (arith, pow-suc 2 k, ltb→lt _ _ more))) in
      (m, power_loop-next (suc f) k size (omega arith) (ltb→lt _ _ more) ∙ out, cover)
  | inr stop ↦
      let here : size ≤ 2 ^ k = ltb→le _ _ stop in
      (
        2 ^ k,
        power_loop-stop (suc f) (2 ^ k) size here,
        record { exponent = k; is_power = refl; covers = here; least = g },
      )
]

-- Up to 2 ^ 31 the loop of `app_power_of_2` ends, with the least power of two that is not below the
-- argument.
pub app_power_of_2-IsCover :
    (size : ℕ) → size ≤ 2 ^ 31 → (m : ℕ) × (app_power_of_2 size ≡ some m) × IsCover size m
unfolding app_power_of_2
app_power_of_2-IsCover size h =
    let (m, out, cover) = power_loop_lem 31 0 size refl h (inl refl) in
    (m, power_loop_more 32 1 size m out, cover)

power_loop-zero : (f size : ℕ) → 0 < size → power_loop f 0 size ≡ none
unfolding power_loop
power_loop-zero zero size h = refl
power_loop-zero (suc f) size h = rw (lt→ltb _ _ h) (power_loop-zero f size h)

power_loop-wrap :
    (f size : ℕ) → 2 ^ 31 < size → power_loop (suc f) (2 ^ 31) size ≡ power_loop f 0 size
unfolding power_loop
power_loop-wrap f size h = rw (lt→ltb _ _ h)

power_loop_stuck : (f g k size : ℕ) → k + g ≡ 31 → 2 ^ 31 < size → power_loop f (2 ^ k) size ≡ none
unfolding power_loop
power_loop_stuck zero g k size e h = refl
power_loop_stuck (suc f) zero k size e h =
    let last : k ≡ 31 = omega arith in
    ap (λ i. power_loop (suc f) (2 ^ i) size) last
    ∙ (power_loop-wrap f size h ∙ power_loop-zero f size (omega arith))
power_loop_stuck (suc f) (suc g) k size e h =
    let below : k ≤ 31 = omega arith in
    power_loop-next f k size (omega arith) (omega (arith, pow-le k below))
    ∙ power_loop_stuck f g (suc k) size (omega arith) h

-- Above 2 ^ 31 the value wraps to 0 and the loop of `app_power_of_2` never ends: no number of rounds
-- gives a result.
pub app_power_of_2-hangs : (size : ℕ) → 2 ^ 31 < size → (f : ℕ) → power_loop f 1 size ≡ none
app_power_of_2-hangs size h f = power_loop_stuck f 31 0 size refl h
