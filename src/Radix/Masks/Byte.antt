-- ===== src/Radix/Masks/Byte.antt =====
-- The loop and the test that `rn_addmask` of src/freebsd/radix.c applies to one byte of a mask.
use freebsd_radix_userland.Common.{
  ℕ, zero, suc, ◌≤◌, ◌<◌, ◌≡◌, refl, ◌≢◌, Bool, true, false, not, ◌&&◌, ◌||◌, arith, ltb, ◌==◌,
  if◌then◌else◌,
}
use native.Mathlib.Decide.{dec_lt}
use freebsd_radix_userland.Common.Bytes.{every_below, every_below-at}
use freebsd_radix_userland.Radix.Masks.{leading_ones, contig}
use freebsd_radix_userland.Radix.Search.FirstBit.{byte_bit}

-- What the loop and the test of `rn_addmask` find in a byte.
abbrev clear_from : ℕ → ℕ → Bool
clear_from x n = every_below 8 λ c. ltb c n || not (byte_bit x c)

abbrev byte_index : ℕ → Bool
byte_index x =
    let n = leading_ones 8 128 x in
    (x == 255)
    || (ltb n 8
        && every_below 8 (λ c. not (ltb c n) || byte_bit x c)
        && not (byte_bit x n)
        && (if contig x then clear_from x n else not (clear_from x n)))

byte_index_table : every_below 256 byte_index ≡ true
unfolding leading_ones contig every_below
byte_index_table = refl

pub full_table : every_below 8 (byte_bit 255) ≡ true
unfolding every_below
full_table = refl

nonzero_table :
    every_below 256 (λ x. (x == 0) || not (every_below 8 λ c. not (byte_bit x c))) ≡ true
unfolding every_below
nonzero_table = refl

every_below-all :
    (n : ℕ) (test : ℕ → Bool) → ((i : ℕ) → i < n → test i ≡ true) → every_below n test ≡ true
unfolding every_below
every_below-all zero test all = refl
every_below-all (suc n) test all =
    rw (every_below-all n test (λ i lt. all i (omega arith)), all n (omega arith)) refl

-- A byte with no bit set is zero.
pub byte-zero : (x : ℕ) → x < 256 → ((c : ℕ) → c < 8 → byte_bit x c ≡ false) → x ≡ 0
byte-zero x h clear =
    let test : ℕ → Bool = λ x. (x == 0) || not (every_below 8 λ c. not (byte_bit x c)) in
    let found : test x ≡ true = every_below-at 256 test x nonzero_table h in
    let all : every_below 8 (λ c. not (byte_bit x c)) ≡ true =
      every_below-all 8 (λ c. not (byte_bit x c)) (λ c lt. rw (clear c lt) refl) in
    ground (arith, found, all)

module _ (x : ℕ) (h : x < 256) (ne : x ≢ 255) where
  found : byte_index x ≡ true
  found = every_below-at 256 byte_index x byte_index_table h

  pub leading_ones-lt : leading_ones 8 128 x < 8
  leading_ones-lt = ground (arith, found)

  pub leading_ones-before : (c : ℕ) → c < leading_ones 8 128 x → byte_bit x c ≡ true
  leading_ones-before c lt =
      let n = leading_ones 8 128 x in
      let test : ℕ → Bool = λ c. not (ltb c n) || byte_bit x c in
      let all : every_below 8 test ≡ true = ground (arith, found) in
      let at : test c ≡ true = every_below-at 8 test c all (omega (arith, leading_ones-lt)) in
      ground arith

  pub leading_ones-end : byte_bit x (leading_ones 8 128 x) ≡ false
  leading_ones-end = ground (arith, found)

  pub contig-clear :
      contig x ≡ true → (c : ℕ) → c < 8 → leading_ones 8 128 x ≤ c → byte_bit x c ≡ false
  contig-clear e c lt le =
      let n = leading_ones 8 128 x in
      let test : ℕ → Bool = λ c. ltb c n || not (byte_bit x c) in
      let all : every_below 8 test ≡ true = ground (arith, found) in
      let at : test c ≡ true = every_below-at 8 test c all lt in ground arith

  pub clear-contig :
      ((c : ℕ) → c < 8 → leading_ones 8 128 x ≤ c → byte_bit x c ≡ false) → contig x ≡ true
  clear-contig clear =
      let n = leading_ones 8 128 x in
      let test : ℕ → Bool = λ c. ltb c n || not (byte_bit x c) in
      let all : every_below 8 test ≡ true = every_below-all 8 test λ c lt. elim (dec_lt c n) [
        | yes p ↦ ground arith
        | no p ↦ rw (clear c lt (omega arith)) (ground arith)
      ] in
      ground (arith, found, all)
