-- ===== src/Prelude/Lowest.antt =====
-- `x & -x`, the lowest set bit of a number, and what taking it away leaves.
use vfdd.Prelude.{
  ℕ, zero, suc, ◌+◌, ◌-◌, ◌*◌, ◌/◌, ◌%◌, ◌^◌, ◌≤◌, ◌<◌, max, bit_and, bit_xor, ◌≡◌, refl, sym, ap,
  ap₂, ◌∙◌, ◌≢◌, not, arith,
}
use vfdd.Prelude.Bits.{bit, and_digits, xor_digits}
use Prim.Native.Nat.{differ}
use native.Mathlib.Nat.{pow-suc, one-le-pow}

-- A number and its complement share no bit.
pub and-complement : (n a : ℕ) → a < 2 ^ n → bit_and a (2 ^ n - 1 - a) ≡ 0
and-complement zero zero h = refl
and-complement zero (suc a) h = absurd (omega arith)
and-complement (suc n) a h =
    let double : 2 ^ suc n ≡ 2 ^ n * 2 = pow-suc 2 n in
    let half : (2 ^ suc n - 1 - a) / 2 ≡ 2 ^ n - 1 - a / 2 = omega arith in
    let parity : a % 2 + (2 ^ suc n - 1 - a) % 2 ≡ 1 = omega arith in
    let rest = ap (bit_and (a / 2)) half ∙ and-complement n (a / 2) (omega arith) in
    omega (arith, and_digits a (2 ^ suc n - 1 - a))

-- The lowest bit of an odd number times 2 ^ s.
pub and-negation :
    (n s d : ℕ) → d % 2 ≡ 1 → d * 2 ^ s < 2 ^ n → bit_and (d * 2 ^ s) (2 ^ n - d * 2 ^ s) ≡ 2 ^ s
and-negation zero s zero odd h = absurd (omega arith)
and-negation zero s (suc d) odd h =
    let least : 1 ≤ 2 ^ s = one-le-pow s 2 (omega arith) in
    let more : suc d * 2 ^ s ≡ d * 2 ^ s + 2 ^ s = omega arith in absurd (omega arith)
and-negation (suc n) zero d odd h =
    let double : 2 ^ suc n ≡ 2 ^ n * 2 = pow-suc 2 n in
    let half : (2 ^ suc n - d * 1) / 2 ≡ 2 ^ n - 1 - d * 1 / 2 = omega arith in
    let rest = ap (bit_and (d * 1 / 2)) half ∙ and-complement n (d * 1 / 2) (omega arith) in
    omega (arith, and_digits (d * 1) (2 ^ suc n - d * 1))
and-negation (suc n) (suc s) d odd h =
    let double : 2 ^ suc n ≡ 2 ^ n * 2 = pow-suc 2 n in
    let twice : d * 2 ^ suc s ≡ d * 2 ^ s * 2 =
      omega (arith, ap (λ (t : ℕ). d * t) (pow-suc 2 s)) in
    let first : d * 2 ^ suc s / 2 ≡ d * 2 ^ s = omega arith in
    let second : (2 ^ suc n - d * 2 ^ suc s) / 2 ≡ 2 ^ n - d * 2 ^ s = omega arith in
    let rest = ap₂ bit_and first second ∙ and-negation n s d odd (omega arith) in
    omega (arith, and_digits (d * 2 ^ suc s) (2 ^ suc n - d * 2 ^ suc s), pow-suc 2 s)

differ-zero : (n : ℕ) → differ n 0 ≡ n
differ-zero zero = refl
differ-zero (suc n) = refl

xor-zero : (n a : ℕ) → a < 2 ^ n → bit_xor a 0 ≡ a
xor-zero zero zero h = refl
xor-zero zero (suc a) h = absurd (omega arith)
xor-zero (suc n) a h =
    let double : 2 ^ suc n ≡ 2 ^ n * 2 = pow-suc 2 n in
    let rest = xor-zero n (a / 2) (omega arith) in
    omega (arith, xor_digits a 0, differ-zero (a % 2))

below : (n : ℕ) → n < 2 ^ n
below zero = omega arith
below (suc n) = omega (arith, below n, pow-suc 2 n)

-- Taking the lowest bit away.
pub xor-lowest : (s d : ℕ) → d % 2 ≡ 1 → bit_xor (d * 2 ^ s) (2 ^ s) ≡ d / 2 * 2 ^ suc s
xor-lowest zero d odd =
    let one : d * 1 % 2 ≡ 1 = omega arith in
    let half : d * 1 / 2 ≡ d / 2 = omega arith in
    let halves = ap (λ t. bit_xor t 0) half in
    let gone = ap (λ t. differ t 1) one in
    let rest = xor-zero d (d / 2) (omega (arith, below d)) in omega (arith, xor_digits (d * 1) 1)
xor-lowest (suc s) d odd =
    let twice : d * 2 ^ suc s ≡ d * 2 ^ s * 2 =
      omega (arith, ap (λ (t : ℕ). d * t) (pow-suc 2 s)) in
    let first : d * 2 ^ suc s / 2 ≡ d * 2 ^ s = omega arith in
    let second : 2 ^ suc s / 2 ≡ 2 ^ s = omega (arith, pow-suc 2 s) in
    let rest = ap₂ bit_xor first second ∙ xor-lowest s d odd in
    let none_left : d * 2 ^ suc s % 2 ≡ 0 = omega arith in
    let none_there : 2 ^ suc s % 2 ≡ 0 = omega (arith, pow-suc 2 s) in
    let gone = ap₂ differ none_left none_there in
    omega
      (arith, xor_digits (d * 2 ^ suc s) (2 ^ suc s), ap (λ (t : ℕ). d / 2 * t) (pow-suc 2 (suc s)))

differ-max : (x y : ℕ) → differ x y ≤ max x y
differ-max zero y = omega arith
differ-max (suc x) zero = omega arith
differ-max (suc x) (suc y) = omega (arith, differ-max x y)

pub xor-lt : (n a b : ℕ) → a < 2 ^ n → b < 2 ^ n → bit_xor a b < 2 ^ n
xor-lt zero zero zero h g = omega arith
xor-lt zero zero (suc b) h g = absurd (omega arith)
xor-lt zero (suc a) b h g = absurd (omega arith)
xor-lt (suc n) a b h g =
    let double : 2 ^ suc n ≡ 2 ^ n * 2 = pow-suc 2 n in
    let half = xor-lt n (a / 2) (b / 2) (omega arith) (omega arith) in
    let digit = differ-max (a % 2) (b % 2) in omega (arith, xor_digits a b)

-- The halves and the lowest digit of `a ^ b`.
pub xor-half : (a b : ℕ) → bit_xor a b / 2 ≡ bit_xor (a / 2) (b / 2)
xor-half a b = let digit = differ-max (a % 2) (b % 2) in omega (arith, xor_digits a b)

pub xor-same : (a b : ℕ) → a % 2 ≡ b % 2 → bit_xor a b % 2 ≡ 0
xor-same a b e =
    let digit = ap (differ (a % 2)) (sym e) ∙ differ-self (a % 2) in omega (arith, xor_digits a b)
  where
    differ-self : (x : ℕ) → differ x x ≡ 0
    differ-self zero = refl
    differ-self (suc x) = differ-self x

pub xor-other : (a b : ℕ) → a % 2 ≢ b % 2 → bit_xor a b % 2 ≡ 1
xor-other a b n =
    let digit = one (a % 2) (b % 2) (omega arith) (omega arith) n in omega (arith, xor_digits a b)
  where
    one : (x y : ℕ) → x < 2 → y < 2 → x ≢ y → differ x y ≡ 1
    one zero zero p q n = absurd (n refl)
    one zero (suc y) p q n = omega arith
    one (suc x) zero p q n = omega arith
    one (suc x) (suc y) p q n = absurd (omega arith)

-- The digits of a complement.
pub bit-complement : (n a k : ℕ) → a < 2 ^ n → k < n → bit (2 ^ n - 1 - a) k ≡ not (bit a k)
unfolding bit
bit-complement zero a k h lt = absurd (omega arith)
bit-complement (suc n) a zero h lt =
    let double : 2 ^ suc n ≡ 2 ^ n * 2 = pow-suc 2 n in
    let parity : a % 2 + (2 ^ suc n - 1 - a) % 2 ≡ 1 = omega arith in ground arith
bit-complement (suc n) a (suc k) h lt =
    let double : 2 ^ suc n ≡ 2 ^ n * 2 = pow-suc 2 n in
    let half : (2 ^ suc n - 1 - a) / 2 ≡ 2 ^ n - 1 - a / 2 = omega arith in
    ap (λ t. bit t k) half ∙ bit-complement n (a / 2) k (omega arith) (omega arith)
