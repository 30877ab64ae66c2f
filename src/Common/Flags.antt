-- ===== src/Common/Flags.antt =====
-- Words of 32 bits as sets of flags: flag `i` of `m` is `m & (1U << i)`.
use Prim.Native.Nat.{ℕ, zero, suc, ◌-◌, ◌^◌, ◌<◌, bit_and, bit_or, bit_xor, bit_and-bitwise}
use mathlib.Core.Path.{◌≡◌, refl}
use mathlib.Core.Bool.{Bool, true, false, not, ◌&&◌, ◌||◌}
use mathlib.Core.Logic.{inl, inr}
use native.Mathlib.Omega.{arith}
use freebsd_radix_userland.Common.Tests.{ltb, ltb→lt, ◌==◌, ==_iff, Bool-cases, if◌then◌else◌}
use freebsd_radix_userland.Common.Bytes.{every_below, every_below-at}
use freebsd_radix_userland.Common.Digits.{
  digit, digit-lt-two, eq_of_digits, digit-bit_and, digit-bit_or, digit-bit_xor, bit_and-lt,
  bit_or-lt,
}

abbrev pub shift_one : ℕ → ℕ
shift_one i = 2 ^ i

unfoldable pub has_flag : ℕ → ℕ → Bool
has_flag i m = not (bit_and m (shift_one i) == 0)

unfoldable pub set_flag : ℕ → ℕ → ℕ
set_flag i m = bit_or m (shift_one i)

-- `a & ~b`
unfoldable pub without : ℕ → ℕ → ℕ
without a b = bit_and a (bit_xor b (2 ^ 32 - 1))

power_digit : ℕ → ℕ → Bool
power_digit i k = digit (shift_one i) k == (if i == k then 1 else 0)

power_digits : every_below 32 (λ i. every_below 32 (power_digit i)) ≡ true
unfolding every_below power_digit
power_digits = refl

digit-shift_one : (i k : ℕ) → i < 32 → k < 32 → digit (shift_one i) k ≡ (if i == k then 1 else 0)
unfolding power_digit
digit-shift_one i k hi hk =
    let row = every_below-at 32 (λ i. every_below 32 (power_digit i)) i power_digits hi in
    (==_iff (digit (shift_one i) k) (if i == k then 1 else 0)).0
      (every_below-at 32 (power_digit i) k row hk)

small_power : ℕ → Bool
small_power i = ltb (shift_one i) (2 ^ 32)

small_powers : every_below 32 small_power ≡ true
unfolding every_below small_power
small_powers = refl

shift_one-lt : (i : ℕ) → i < 32 → shift_one i < 2 ^ 32
unfolding small_power
shift_one-lt i h = ltb→lt (shift_one i) (2 ^ 32) (every_below-at 32 small_power i small_powers h)

ones_digit : ℕ → Bool
ones_digit k = digit (2 ^ 32 - 1) k == 1

ones_digits : every_below 32 ones_digit ≡ true
unfolding every_below ones_digit
ones_digits = refl

digit-ones : (k : ℕ) → k < 32 → digit (2 ^ 32 - 1) k ≡ 1
unfolding ones_digit
digit-ones k h = ground (arith, every_below-at 32 ones_digit k ones_digits h)

digit-flag :
    (i k m : ℕ)
    → i < 32
    → k < 32
    → digit (bit_and m (shift_one i)) k ≡ (if i == k then digit m k else 0)
digit-flag i k m hi hk =
    ground (arith, digit-bit_and k m (shift_one i), digit-shift_one i k hi hk, digit-lt-two m k)

digit-zero : (k : ℕ) → digit 0 k ≡ 0
digit-zero zero = refl
digit-zero (suc k) = digit-zero k

-- A flag is a binary digit.
has_flag-digit : (i m : ℕ) → i < 32 → m < 2 ^ 32 → has_flag i m ≡ (digit m i == 1)
unfolding has_flag
has_flag-digit i m hi hm = elim (Bool-cases (digit m i == 1)) [
  | inl set ↦ ground (arith, digit-flag i i m hi hi, digit-zero i)
  | inr clear ↦
      let zero_word : bit_and m (shift_one i) ≡ 0 =
        eq_of_digits 32 (bit_and m (shift_one i)) 0 (bit_and-lt 32 m (shift_one i) hm) (omega arith)
          λ k hk. ground (arith, digit-flag i k m hi hk, digit-zero k, digit-lt-two m k) in
      ground (arith, zero_word)
]

pub set_flag-lt : (i m : ℕ) → i < 32 → m < 2 ^ 32 → set_flag i m < 2 ^ 32
unfolding set_flag
set_flag-lt i m hi hm = bit_or-lt 32 m (shift_one i) hm (shift_one-lt i hi)

pub without-lt : (a b : ℕ) → a < 2 ^ 32 → without a b < 2 ^ 32
unfolding without
without-lt a b h = bit_and-lt 32 a (bit_xor b (2 ^ 32 - 1)) h

pub has_flag-set :
    (i k m : ℕ)
    → i < 32
    → k < 32
    → m < 2 ^ 32
    → has_flag k (set_flag i m) ≡ (k == i) || has_flag k m
unfolding set_flag
has_flag-set i k m hi hk hm = ground (
  arith,
  has_flag-digit k (set_flag i m) hk (set_flag-lt i m hi hm),
  has_flag-digit k m hk hm,
  digit-bit_or k m (shift_one i),
  digit-shift_one i k hi hk,
  digit-lt-two m k,
)

-- A word without flags is zero.
pub zero_of_flags : (m : ℕ) → m < 2 ^ 32 → ((k : ℕ) → k < 32 → has_flag k m ≡ false) → m ≡ 0
zero_of_flags m h none =
    eq_of_digits 32 m 0 h (omega arith)
      λ k hk. ground (arith, none k hk, has_flag-digit k m hk h, digit-zero k, digit-lt-two m k)

pub has_flag-without :
    (k a b : ℕ)
    → k < 32
    → a < 2 ^ 32
    → b < 2 ^ 32
    → has_flag k (without a b) ≡ has_flag k a && not (has_flag k b)
unfolding without
has_flag-without k a b hk ha hb = ground (
  arith,
  has_flag-digit k (without a b) hk (without-lt a b ha),
  has_flag-digit k a hk ha,
  has_flag-digit k b hk hb,
  digit-bit_and k a (bit_xor b (2 ^ 32 - 1)),
  digit-bit_xor k b (2 ^ 32 - 1),
  digit-ones k hk,
  digit-lt-two a k,
  digit-lt-two b k,
)

pub has_flag-zero : (k : ℕ) → has_flag k 0 ≡ false
unfolding has_flag
has_flag-zero k = ground (arith, bit_and-bitwise 0 (shift_one k))
