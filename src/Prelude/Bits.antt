-- ===== src/Prelude/Bits.antt =====
-- The binary digits of a number, and what `|`, `&`, `^` and shifts do to each digit.
use vfdd.Prelude.{
  ℕ, zero, suc, ◌+◌, ◌*◌, ◌/◌, ◌%◌, ◌^◌, ◌≤◌, ◌<◌, min, max, bit_and, bit_or, bit_xor, ◌≡◌, refl,
  sym, ap, ◌∙◌, inl, inr, Bool, true, false, not, ◌&&◌, ◌||◌, arith, ◌==◌, if◌then◌else◌, ==_iff,
  ==_ne, Bool-cases,
}
use Prim.Native.Nat.{digits, bit_or-bitwise, bit_and-bitwise, bit_xor-bitwise, differ}
use native.Mathlib.Nat.{pow-suc, one-le-pow}

-- The digit of weight 2 ^ k.
unfoldable pub bit : ℕ → ℕ → Bool
bit a zero = a % 2 == 1
bit a (suc k) = bit (a / 2) k

-- The recursion behind the native operations does not depend on its count, if that is enough.
enough_digits :
    (z : ℕ → ℕ) (f : ℕ → ℕ → ℕ) (count more a b : ℕ)
    → a ≤ count
    → a ≤ more
    → digits z f count a b ≡ digits z f more a b
enough_digits z f (suc c) (suc m) (suc a) b h k =
    ap (λ t. t * 2 + f (suc a % 2) (b % 2))
      (enough_digits z f c m (suc a / 2) (b / 2) (omega arith) (omega arith))
enough_digits z f zero zero zero b h k = refl
enough_digits z f zero (suc m) zero b h k = refl
enough_digits z f (suc c) zero zero b h k = refl
enough_digits z f (suc c) (suc m) zero b h k = refl
enough_digits z f zero m (suc a) b h k = absurd (omega arith)
enough_digits z f (suc c) zero (suc a) b h k = absurd (omega arith)

-- The lowest digit and the rest.
pub or_digits : (a b : ℕ) → bit_or a b ≡ bit_or (a / 2) (b / 2) * 2 + max (a % 2) (b % 2)
or_digits zero b = simp bit_or-bitwise (omega arith)
or_digits (suc a) b = simp bit_or-bitwise (
    ap (λ t. t * 2 + max (suc a % 2) (b % 2))
      (enough_digits (λ y. y) max a (suc a / 2) (suc a / 2) (b / 2) (omega arith) (omega arith)))

pub and_digits : (a b : ℕ) → bit_and a b ≡ bit_and (a / 2) (b / 2) * 2 + min (a % 2) (b % 2)
and_digits zero b = simp bit_and-bitwise (omega arith)
and_digits (suc a) b = simp bit_and-bitwise (
    ap (λ t. t * 2 + min (suc a % 2) (b % 2))
      (enough_digits (λ y. 0) min a (suc a / 2) (suc a / 2) (b / 2) (omega arith) (omega arith)))

pub xor_digits : (a b : ℕ) → bit_xor a b ≡ bit_xor (a / 2) (b / 2) * 2 + differ (a % 2) (b % 2)
xor_digits zero b = simp bit_xor-bitwise (omega arith)
xor_digits (suc a) b = simp bit_xor-bitwise (
    ap (λ t. t * 2 + differ (suc a % 2) (b % 2))
      (enough_digits (λ y. y) differ a (suc a / 2) (suc a / 2) (b / 2) (omega arith) (omega arith)))

or_half : (a b : ℕ) → bit_or a b / 2 ≡ bit_or (a / 2) (b / 2)
or_half a b = omega (arith, or_digits a b)

and_half : (a b : ℕ) → bit_and a b / 2 ≡ bit_and (a / 2) (b / 2)
and_half a b = omega (arith, and_digits a b)

pub bit-or : (a b k : ℕ) → bit (bit_or a b) k ≡ (bit a k || bit b k)
unfolding bit
bit-or a b zero = ground (arith, or_digits a b)
bit-or a b (suc k) = rw or_half (bit-or (a / 2) (b / 2) k)

pub bit-and : (a b k : ℕ) → bit (bit_and a b) k ≡ (bit a k && bit b k)
unfolding bit
bit-and a b zero = ground (arith, and_digits a b)
bit-and a b (suc k) = rw and_half (bit-and (a / 2) (b / 2) k)

pub bit-zero : (k : ℕ) → bit 0 k ≡ false
unfolding bit
bit-zero zero = refl
bit-zero (suc k) = bit-zero k

pub bit-pow : (j k : ℕ) → bit (2 ^ j) k ≡ (j == k)
unfolding bit
bit-pow zero zero = refl
bit-pow zero (suc k) = bit-zero k ∙ sym (==_ne 0 (suc k) (omega arith))
bit-pow (suc j) zero = ground (arith, pow-suc 2 j)
bit-pow (suc j) (suc k) =
    ap (λ n. bit n k) (omega (arith, pow-suc 2 j)) ∙ (bit-pow j k ∙ ground arith)

-- A number below 2 ^ n has no digit from n on.
pub bit-lt : (n a k : ℕ) → a < 2 ^ n → n ≤ k → bit a k ≡ false
unfolding bit
bit-lt zero a k h le = ap (λ n. bit n k) (omega arith) ∙ bit-zero k
bit-lt (suc n) a zero h le = absurd (omega arith)
bit-lt (suc n) a (suc k) h le = bit-lt n (a / 2) k (omega (arith, pow-suc 2 n)) (omega arith)

-- Numbers below 2 ^ n with the same n digits are equal.
pub bit_ext : (n a b : ℕ) → a < 2 ^ n → b < 2 ^ n → ((k : ℕ) → k < n → bit a k ≡ bit b k) → a ≡ b
unfolding bit
bit_ext zero a b h g e = omega arith
bit_ext (suc n) a b h g e = ground (
  arith,
  e 0 (omega arith),
  bit_ext n (a / 2) (b / 2) (omega (arith, pow-suc 2 n)) (omega (arith, pow-suc 2 n))
      (λ k p. e (suc k) (omega arith)),
)

pub or-lt : (n a b : ℕ) → a < 2 ^ n → b < 2 ^ n → bit_or a b < 2 ^ n
or-lt zero a b h g = rw (zero_of a h, zero_of b g) (omega arith)
  where
    zero_of : (x : ℕ) → x < 2 ^ 0 → x ≡ 0
    zero_of x p = omega arith
or-lt (suc n) a b h g = omega (
  arith,
  or_digits a b,
  pow-suc 2 n,
  or-lt n (a / 2) (b / 2) (omega (arith, pow-suc 2 n)) (omega (arith, pow-suc 2 n)),
)

pub or-zero : (n a : ℕ) → a < 2 ^ n → bit_or a 0 ≡ a
or-zero zero a h = let z : a ≡ 0 = omega arith in rw z
or-zero (suc n) a h = omega (arith, or_digits a 0, or-zero n (a / 2) (omega (arith, pow-suc 2 n)))

and-zero_fuel : (n a : ℕ) → a ≤ n → bit_and a 0 ≡ 0
and-zero_fuel zero zero h = refl
and-zero_fuel zero (suc a) h = absurd (omega arith)
and-zero_fuel (suc n) a h = elim (Bool-cases (a == 0)) [
  | inl e ↦ ap (λ x. bit_and x 0) ((==_iff a 0).0 e)
  | inr e ↦ omega (arith, and_digits a 0, and-zero_fuel n (a / 2) (ground arith))
]

and-zero : (a : ℕ) → bit_and a 0 ≡ 0
and-zero a = and-zero_fuel a a (omega arith)

-- `a & (1 << k)` as a test
unfoldable pub test_bit : ℕ → ℕ → Bool
test_bit a k = not (bit_and a (2 ^ k) == 0)

and-pow : (a k : ℕ) → bit_and a (2 ^ k) ≡ (if bit a k then 2 ^ k else 0)
unfolding bit
and-pow a zero = ground (arith, and_digits a 1, and-zero (a / 2))
and-pow a (suc k) =
    ap (bit_and a) (pow-suc 2 k)
    ∙ ground (arith, and_digits a (2 ^ k * 2), and-pow (a / 2) k, pow-suc 2 k, half_of (2 ^ k))
  where
    half_of : (m : ℕ) → m * 2 / 2 ≡ m
    half_of m = omega arith

pub test_bit_lem : (a k : ℕ) → test_bit a k ≡ bit a k
unfolding test_bit
test_bit_lem a k = rw and-pow (split (bit a k))
  where
    split : (b : Bool) → not ((if b then 2 ^ k else 0) == 0) ≡ b
    split true = ground (arith, one-le-pow k 2)
    split false = refl

-- `a & 1`
pub and-one : (a : ℕ) → bit_and a 1 ≡ a % 2
and-one a = omega (arith, and_digits a 1, and-zero (a / 2))

and-three : (a : ℕ) → bit_and a 3 ≡ a % 4
and-three a = omega (arith, and_digits a 3, and-one (a / 2))

and-fifteen : (a : ℕ) → bit_and a 15 ≡ a % 16
and-fifteen a = omega (arith, and_digits a 15, and_digits (a / 2) 7, and-three (a / 2 / 2))

-- `a & 0xff`
pub and-byte : (a : ℕ) → bit_and a 255 ≡ a % 256
and-byte a = omega (
  arith,
  and_digits a 255,
  and_digits (a / 2) 127,
  and_digits (a / 2 / 2) 63,
  and_digits (a / 2 / 2 / 2) 31,
  and-fifteen (a / 2 / 2 / 2 / 2),
)

-- `0xc0 | a` and `0x88 | a` for an operand that leaves the set bits free.
pub or-address : (a : ℕ) → a < 64 → bit_or 0xc0 a ≡ 192 + a
or-address a h = omega (
  arith,
  or_digits 192 a,
  or_digits 96 (a / 2),
  or_digits 48 (a / 2 / 2),
  or_digits 24 (a / 2 / 2 / 2),
  or_digits 12 (a / 2 / 2 / 2 / 2),
  or_digits 6 (a / 2 / 2 / 2 / 2 / 2),
  none_left (a / 2 / 2 / 2 / 2 / 2 / 2) (omega arith),
)
  where
    none_left : (n : ℕ) → n ≡ 0 → bit_or 3 n ≡ 3
    none_left n e = rw e

pub or-control : (a : ℕ) → a < 8 → bit_or 0x88 a ≡ 136 + a
or-control a h = omega (
  arith,
  or_digits 136 a,
  or_digits 68 (a / 2),
  or_digits 34 (a / 2 / 2),
  none_left (a / 2 / 2 / 2) (omega arith),
)
  where
    none_left : (n : ℕ) → n ≡ 0 → bit_or 17 n ≡ 17
    none_left n e = rw e

-- The digits of `x << i`.
abbrev pub shl_bit : ℕ → ℕ → ℕ → Bool
shl_bit x zero k = bit x k
shl_bit x (suc i) zero = false
shl_bit x (suc i) (suc k) = shl_bit x i k

pub bit-shl : (x i k : ℕ) → bit (x * 2 ^ i) k ≡ shl_bit x i k
unfolding bit
bit-shl x zero k = ap (λ n. bit n k) (omega arith)
bit-shl x (suc i) zero =
    let twice : x * 2 ^ suc i ≡ x * 2 ^ i * 2 =
      omega (arith, ap (λ (t : ℕ). x * t) (pow-suc 2 i)) in
    ==_ne (x * 2 ^ suc i % 2) 1 (omega arith)
bit-shl x (suc i) (suc k) =
    ap (λ n. bit n k) (omega (arith, ap (λ (t : ℕ). x * t) (pow-suc 2 i))) ∙ bit-shl x i k
