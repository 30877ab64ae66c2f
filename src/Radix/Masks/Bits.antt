-- ===== src/Radix/Masks/Bits.antt =====
-- `b & ~a` of src/freebsd/radix.c, bit by bit.
use freebsd_radix_userland.Common.{
  ℕ, zero, suc, ◌+◌, ◌-◌, ◌≤◌, ◌<◌, ◌≡◌, refl, ◌↔◌, bit_and, true, false, arith, ◌==◌,
}
use freebsd_radix_userland.Common.Bytes.{every_below, every_below-at}
use freebsd_radix_userland.Common.Digits.{
  digit, digit-lt-two, digit-bit_and, bit_and-lt, eq_of_digits,
}
use freebsd_radix_userland.Radix.Masks.{outside}

complement_table :
    every_below 8 (λ k. every_below 256 (λ a. digit (255 - a) k + digit a k == 1)) ≡ true
unfolding every_below
complement_table = refl

digit-complement : (a k : ℕ) → a < 256 → k < 8 → digit (255 - a) k + digit a k ≡ 1
digit-complement a k ha hk =
    let e =
      every_below-at 256 (λ x. digit (255 - x) k + digit x k == 1) a
        (every_below-at 8 (λ j. every_below 256 (λ x. digit (255 - x) j + digit x j == 1)) k
          complement_table hk)
        ha in
    ground (arith, e)

digit-zero : (k : ℕ) → digit 0 k ≡ 0
digit-zero zero = refl
digit-zero (suc k) = digit-zero k

-- No bit of `b` is outside `a` exactly when every bit of `b` is one of `a`.
pub outside_iff :
    (b a : ℕ)
    → b < 256
    → a < 256
    → (outside b a ≡ false) ↔ ((k : ℕ) → k < 8 → digit b k ≤ digit a k)
outside_iff b a hb ha = (
  (λ e k hk.
      let z : bit_and b (255 - a) ≡ 0 = ground arith in
      let d : digit (bit_and b (255 - a)) k ≡ 0 = rw z (digit-zero k) in
      omega (arith, digit-bit_and k b (255 - a), digit-complement a k ha hk, digit-lt-two b k)),
  (λ all.
      let z : bit_and b (255 - a) ≡ 0 =
        eq_of_digits 8 (bit_and b (255 - a)) 0 (bit_and-lt 8 b (255 - a) hb) (omega arith) λ k hk.
          omega (
            arith,
            digit-bit_and k b (255 - a),
            digit-complement a k ha hk,
            digit-lt-two b k,
            all k hk,
            digit-zero k,
          ) in
      ground arith),
)

pub outside-zero : (a : ℕ) → a < 256 → outside 0 a ≡ false
outside-zero a ha = (outside_iff 0 a (omega arith) ha).1 (λ k hk. omega (arith, digit-zero k))

pub eq_zero_of_outside : (b : ℕ) → b < 256 → outside b 0 ≡ false → b ≡ 0
eq_zero_of_outside b hb e =
    eq_of_digits 8 b 0 hb (omega arith)
      λ k hk. omega (arith, (outside_iff b 0 hb (omega arith)).0 e k hk, digit-zero k)
