-- ===== src/Common/Digits.antt =====
-- The binary digits of a number, lowest first, and those of `bit_xor` and `bit_and`.
use Prim.Native.Nat.{
  ℕ, zero, suc, ◌+◌, ◌*◌, ◌/◌, ◌%◌, ◌^◌, ◌≤◌, ◌<◌, min, max, bit_and, bit_or, bit_xor,
  bit_and-bitwise, bit_or-bitwise, bit_xor-bitwise, digits, differ,
}
use mathlib.Core.Path.{◌≡◌, refl}
use native.Mathlib.Nat.{pow-suc}
use native.Mathlib.Omega.{arith}

abbrev pub digit : ℕ → ℕ → ℕ
digit x zero = x % 2
digit x (suc k) = digit (x / 2) k

pub digit-lt-two : (x k : ℕ) → digit x k < 2
digit-lt-two x zero = omega arith
digit-lt-two x (suc k) = digit-lt-two (x / 2) k

-- Numbers of `n` digits with the same digits are equal.
pub eq_of_digits :
    (n x y : ℕ) → x < 2 ^ n → y < 2 ^ n → ((k : ℕ) → k < n → digit x k ≡ digit y k) → x ≡ y
eq_of_digits zero x y hx hy same = omega arith
eq_of_digits (suc n) x y hx hy same = omega (
  arith,
  pow-suc 2 n,
  same 0 (omega arith),
  eq_of_digits n (x / 2) (y / 2) (omega (arith, pow-suc 2 n)) (omega (arith, pow-suc 2 n))
      (λ k h. same (suc k) (omega arith)),
)

module _ (z : ℕ → ℕ) (f : ℕ → ℕ → ℕ) where
  -- Any count of digits that reaches the first number gives the same result.
  digits_enough : (n m a b : ℕ) → a ≤ n → a ≤ m → digits z f n a b ≡ digits z f m a b
  digits_enough zero zero a b p q = refl
  digits_enough zero (suc m) zero b p q = refl
  digits_enough zero (suc m) (suc a) b p q = absurd (omega arith)
  digits_enough (suc n) zero zero b p q = refl
  digits_enough (suc n) zero (suc a) b p q = absurd (omega arith)
  digits_enough (suc n) (suc m) zero b p q = refl
  digits_enough (suc n) (suc m) (suc a) b p q =
      omega (arith, digits_enough n m (suc a / 2) (b / 2) (omega arith) (omega arith))

differ_bits : (a b : ℕ) → a < 2 → b < 2 → differ a b ≡ (a + b) % 2
differ_bits zero zero p q = refl
differ_bits zero (suc zero) p q = refl
differ_bits (suc zero) zero p q = refl
differ_bits (suc zero) (suc zero) p q = refl
differ_bits (suc (suc a)) b p q = absurd (omega arith)
differ_bits zero (suc (suc b)) p q = absurd (omega arith)
differ_bits (suc zero) (suc (suc b)) p q = absurd (omega arith)

bit_xor_rec : (a b : ℕ) → bit_xor a b ≡ bit_xor (a / 2) (b / 2) * 2 + (a % 2 + b % 2) % 2
bit_xor_rec zero b = omega (arith, bit_xor-bitwise 0 b, bit_xor-bitwise 0 (b / 2))
bit_xor_rec (suc a) b = omega (
  arith,
  bit_xor-bitwise (suc a) b,
  bit_xor-bitwise (suc a / 2) (b / 2),
  differ_bits (suc a % 2) (b % 2) (omega arith) (omega arith),
  digits_enough (λ c. c) differ a (suc a / 2) (suc a / 2) (b / 2) (omega arith) (omega arith),
)

bit_or_rec : (a b : ℕ) → bit_or a b ≡ bit_or (a / 2) (b / 2) * 2 + max (a % 2) (b % 2)
bit_or_rec zero b = omega (arith, bit_or-bitwise 0 b, bit_or-bitwise 0 (b / 2))
bit_or_rec (suc a) b = omega (
  arith,
  bit_or-bitwise (suc a) b,
  bit_or-bitwise (suc a / 2) (b / 2),
  digits_enough (λ c. c) max a (suc a / 2) (suc a / 2) (b / 2) (omega arith) (omega arith),
)

pub bit_and_rec : (x y : ℕ) → bit_and x y ≡ bit_and (x / 2) (y / 2) * 2 + min (x % 2) (y % 2)
bit_and_rec zero y = omega (arith, bit_and-bitwise 0 y, bit_and-bitwise 0 (y / 2))
bit_and_rec (suc x) y = omega (
  arith,
  bit_and-bitwise (suc x) y,
  bit_and-bitwise (suc x / 2) (y / 2),
  digits_enough (λ c. 0) min x (suc x / 2) (suc x / 2) (y / 2) (omega arith) (omega arith),
)

half_two : (n r : ℕ) → r < 2 → (n * 2 + r) / 2 ≡ n
half_two n r h = omega arith

bit_xor-half : (a b : ℕ) → bit_xor a b / 2 ≡ bit_xor (a / 2) (b / 2)
bit_xor-half a b = omega (arith, bit_xor_rec a b)

bit_and-half : (a b : ℕ) → bit_and a b / 2 ≡ bit_and (a / 2) (b / 2)
bit_and-half a b = omega (arith, bit_and_rec a b)

pub digit-bit_xor : (k a b : ℕ) → digit (bit_xor a b) k ≡ (digit a k + digit b k) % 2
digit-bit_xor zero a b = omega (arith, bit_xor_rec a b)
digit-bit_xor (suc k) a b = rw (bit_xor-half a b) (digit-bit_xor k (a / 2) (b / 2))

bit_or-half : (a b : ℕ) → bit_or a b / 2 ≡ bit_or (a / 2) (b / 2)
bit_or-half a b = omega (arith, bit_or_rec a b)

pub digit-bit_or : (k a b : ℕ) → digit (bit_or a b) k ≡ max (digit a k) (digit b k)
digit-bit_or zero a b = omega (arith, bit_or_rec a b)
digit-bit_or (suc k) a b = rw (bit_or-half a b) (digit-bit_or k (a / 2) (b / 2))

pub digit-bit_and : (k a b : ℕ) → digit (bit_and a b) k ≡ min (digit a k) (digit b k)
digit-bit_and zero a b = omega (arith, bit_and_rec a b)
digit-bit_and (suc k) a b = rw (bit_and-half a b) (digit-bit_and k (a / 2) (b / 2))

pub bit_xor-lt : (n a b : ℕ) → a < 2 ^ n → b < 2 ^ n → bit_xor a b < 2 ^ n
bit_xor-lt zero zero zero p q = omega arith
bit_xor-lt zero (suc a) b p q = absurd (omega arith)
bit_xor-lt zero zero (suc b) p q = absurd (omega arith)
bit_xor-lt (suc n) a b p q = omega (
  arith,
  pow-suc 2 n,
  bit_xor_rec a b,
  bit_xor-lt n (a / 2) (b / 2) (omega (arith, pow-suc 2 n)) (omega (arith, pow-suc 2 n)),
)

pub bit_or-lt : (n a b : ℕ) → a < 2 ^ n → b < 2 ^ n → bit_or a b < 2 ^ n
bit_or-lt zero zero zero p q = omega (arith, bit_or-bitwise 0 0)
bit_or-lt zero (suc a) b p q = absurd (omega arith)
bit_or-lt zero zero (suc b) p q = absurd (omega arith)
bit_or-lt (suc n) a b p q = omega (
  arith,
  pow-suc 2 n,
  bit_or_rec a b,
  bit_or-lt n (a / 2) (b / 2) (omega (arith, pow-suc 2 n)) (omega (arith, pow-suc 2 n)),
)

pub bit_and-lt : (n a b : ℕ) → a < 2 ^ n → bit_and a b < 2 ^ n
bit_and-lt zero zero b p = omega (arith, bit_and-bitwise 0 b)
bit_and-lt zero (suc a) b p = absurd (omega arith)
bit_and-lt (suc n) a b p =
    omega (
      arith,
      pow-suc 2 n,
      bit_and_rec a b,
      bit_and-lt n (a / 2) (b / 2) (omega (arith, pow-suc 2 n)),
    )

bit_and_zero-below : (n a : ℕ) → a ≤ n → bit_and a 0 ≡ 0
bit_and_zero-below n zero h = omega (arith, bit_and-bitwise 0 0)
bit_and_zero-below zero (suc a) h = absurd (omega arith)
bit_and_zero-below (suc n) (suc a) h =
    omega (arith, bit_and_rec (suc a) 0, bit_and_zero-below n (suc a / 2) (omega arith))

pub bit_and_zero : (a : ℕ) → bit_and a 0 ≡ 0
bit_and_zero a = bit_and_zero-below a a (omega arith)
