-- ===== src/Radix/Search/FirstBit.antt =====
-- The first bit at which two keys differ, as `rn_match` and `rn_insert` of src/freebsd/radix.c find it.
use freebsd_radix_userland.Common.{
  ℕ, zero, suc, ◌+◌, ◌-◌, ◌*◌, ◌/◌, ◌%◌, ◌^◌, ◌≤◌, ◌<◌, ◌≡◌, refl, ◌≢◌, bit_xor, Bool, true, not,
  ◌&&◌, ◌||◌, some, List, [], ◌∷◌, arith, ltb, ◌==◌, if◌then◌else◌, get_or, drop, Bool-cases, inl,
  inr, ap, get_or-drop,
}
use native.Mathlib.Decide.{dec_lt}
use freebsd_radix_userland.Common.Bytes.{every_below, every_below-at}
use freebsd_radix_userland.Common.Digits.{
  digit, digit-bit_xor, bit_xor-lt, eq_of_digits, digit-lt-two,
}
use freebsd_radix_userland.Radix.Masks.{bit_test}
use freebsd_radix_userland.Radix.Search.{mismatch, match_bit, insert_bit, insert_shift, match_shift}

-- Bit `c` of a byte, bit 0 the highest, tested as a node's `rn_bmask` tests it.
abbrev pub byte_bit : ℕ → ℕ → Bool
byte_bit x c = bit_test (128 / 2 ^ c) x

abbrev pub key_bit : List ℕ → ℕ → Bool
key_bit v b = byte_bit (get_or v (b / 8) 0) (b % 8)

byte_bit-digit_table :
    every_below 8 (λ c.
      every_below 256 (λ x. if byte_bit x c then digit x (7 - c) == 1 else digit x (7 - c) == 0))
    ≡ true
unfolding every_below
byte_bit-digit_table = refl

pub byte_bit-digit :
    (x c : ℕ)
    → x < 256
    → c < 8
    → (if byte_bit x c then digit x (7 - c) == 1 else digit x (7 - c) == 0) ≡ true
byte_bit-digit x c hx hc =
    every_below-at 256 (λ y. if byte_bit y c then digit y (7 - c) == 1 else digit y (7 - c) == 0) x
      (every_below-at 8
        (λ d.
          every_below 256
            (λ y. if byte_bit y d then digit y (7 - d) == 1 else digit y (7 - d) == 0))
        c byte_bit-digit_table hc)
      hx

-- The two loops end at the highest digit of the difference.
abbrev highest : ℕ → Bool
highest z =
    let c = insert_shift 8 z 8 in
    (z == 0)
    || (ltb c 8
        && (match_shift 8 z 7 == c)
        && (digit z (7 - c) == 1)
        && every_below 8 (λ d. not (ltb d c) || (digit z (7 - d) == 0)))

highest_table : every_below 256 highest ≡ true
unfolding insert_shift match_shift every_below
highest_table = refl

highest_lem : (z : ℕ) → z < 256 → highest z ≡ true
highest_lem z h = every_below-at 256 highest z highest_table h

pub digit-zero : (k : ℕ) → digit 0 k ≡ 0
digit-zero zero = refl
digit-zero (suc k) = digit-zero k

bit_xor-ne-zero : (x y : ℕ) → x < 256 → y < 256 → x ≢ y → bit_xor x y ≢ 0
bit_xor-ne-zero x y hx hy ne e = ne (
    eq_of_digits 8 x y hx hy λ k _.
      let zero_digit : digit (bit_xor x y) k ≡ 0 = rw e (digit-zero k) in
      omega (arith, digit-bit_xor k x y, digit-lt-two x k, digit-lt-two y k))

-- The place of the first bit at which two bytes differ.
abbrev first_of : ℕ → ℕ → ℕ
first_of x y = insert_shift 8 (bit_xor x y) 8

module _ (x y : ℕ) (hx : x < 256) (hy : y < 256) (ne : x ≢ y) where
  found : highest (bit_xor x y) ≡ true
  found = highest_lem (bit_xor x y) (bit_xor-lt 8 x y hx hy)

  first_of-lt : first_of x y < 8
  first_of-lt = ground (arith, found, bit_xor-ne-zero x y hx hy)

  match_shift-eq : match_shift 8 (bit_xor x y) 7 ≡ first_of x y
  match_shift-eq = ground (arith, found, bit_xor-ne-zero x y hx hy)

  byte_bit-ne : byte_bit x (first_of x y) ≢ byte_bit y (first_of x y)
  byte_bit-ne =
      let c = first_of x y in
      let one : digit (bit_xor x y) (7 - c) ≡ 1 =
        ground (arith, found, bit_xor-ne-zero x y hx hy) in
      ground (
        arith,
        digit-bit_xor (7 - c) x y,
        byte_bit-digit x c hx first_of-lt,
        byte_bit-digit y c hy first_of-lt,
      )

  byte_bit-eq : (d : ℕ) → d < first_of x y → byte_bit x d ≡ byte_bit y d
  byte_bit-eq d h =
      let c = first_of x y in
      let test : ℕ → Bool = λ d. not (ltb d c) || (digit (bit_xor x y) (7 - d) == 0) in
      let all : every_below 8 test ≡ true = ground (arith, found, bit_xor-ne-zero x y hx hy) in
      let at : test d ≡ true = every_below-at 8 test d all (omega (arith, first_of-lt)) in
      let none_set : digit (bit_xor x y) (7 - d) ≡ 0 = ground arith in
      ground (
        arith,
        digit-bit_xor (7 - d) x y,
        digit-lt-two x (7 - d),
        digit-lt-two y (7 - d),
        byte_bit-digit x d hx (omega (arith, first_of-lt)),
        byte_bit-digit y d hy (omega (arith, first_of-lt)),
      )

-- The difference that `mismatch` finds, `d` bytes behind its start.
pub record Differs (cp cp2 : List ℕ) (k i j z : ℕ) : Type 0 where
  pub d : ℕ
  pub place : j ≡ i + d
  pub within : d < k
  pub how : z ≡ bit_xor (get_or cp d 0) (get_or cp2 d 0)
  pub ne : get_or cp d 0 ≢ get_or cp2 d 0
  pub before : (m : ℕ) → m < d → get_or cp m 0 ≡ get_or cp2 m 0

Differs-cons :
    {cp cp2 : List ℕ} {k i j z : ℕ} (x y : ℕ)
    → x ≡ y
    → Differs cp cp2 k (i + 1) j z
    → Differs (x ∷ cp) (y ∷ cp2) (suc k) i j z
Differs-cons x y e f = record {
  d = suc f.d;
  place = omega (arith, f.place);
  within = omega (arith, f.within);
  how = f.how;
  ne = f.ne;
  before = elim [ zero ↦ λ _. e | suc m ↦ λ h. f.before m (omega arith) ];
}

pub mismatch-Differs :
    (k i : ℕ) (cp cp2 : List ℕ) {j z : ℕ}
    → mismatch k i cp cp2 ≡ some (some (j, z))
    → Differs cp cp2 k i j z
unfolding mismatch
mismatch-Differs zero i cp cp2 h = absurd (cc)
mismatch-Differs (suc k) i [] cp2 h = absurd (cc)
mismatch-Differs (suc k) i (x ∷ cp) [] h = absurd (cc)
mismatch-Differs (suc k) i (x ∷ cp) (y ∷ cp2) {j} {z} h = elim (Bool-cases (x == y)) [
  | inl same ↦ Differs-cons x y (ground arith) (mismatch-Differs k (i + 1) cp cp2 (ground arith))
  | inr other ↦
      let ej : j ≡ i = ground arith in
      let ez : z ≡ bit_xor x y = ground arith in
      record {
        d = 0;
        place = omega arith;
        within = omega arith;
        how = ez;
        ne = ground arith;
        before = λ m h'. absurd (omega arith);
      }
]

insert_shift-add : (k z b e : ℕ) → k ≤ b → insert_shift k z (b + e) ≡ insert_shift k z b + e
unfolding insert_shift
insert_shift-add zero z b e h = refl
insert_shift-add (suc k) z b e h =
    let step : b + e - 1 ≡ b - 1 + e = omega arith in
    rw step (ground (arith, insert_shift-add k (z / 2) (b - 1) e))

pub insert_bit-eq : (i z : ℕ) → insert_bit i z ≡ i * 8 + insert_shift 8 z 8
unfolding insert_bit
insert_bit-eq i z =
    let e : (i + 1) * 8 ≡ 8 + i * 8 = omega arith in
    rw e (omega (arith, insert_shift-add 8 z 8 (i * 8)))

abbrev pub IsBytes : List ℕ → Type 0
IsBytes v = (i : ℕ) → get_or v i 0 < 256

-- What it means that `b` is the first bit from byte `off` on at which two keys differ.
pub record IsFirstBit (v key : List ℕ) (off vlen b : ℕ) : Type 0 where
  pub lower : off * 8 ≤ b
  pub upper : b < vlen * 8
  pub ne : key_bit v b ≢ key_bit key b
  pub before : (c : ℕ) → off * 8 ≤ c → c < b → key_bit v c ≡ key_bit key c

key_bit-byte :
    (v key : List ℕ) (c : ℕ)
    → get_or v (c / 8) 0 ≡ get_or key (c / 8) 0
    → key_bit v c ≡ key_bit key c
key_bit-byte v key c e = ap (λ x. byte_bit x (c % 8)) e

module _ (v key : List ℕ) (off vlen j : ℕ) (hv : IsBytes v) (hk : IsBytes key) where
  IsFirstBit-at :
      off ≤ j
      → j < vlen
      → get_or v j 0 ≢ get_or key j 0
      → ((m : ℕ) → off ≤ m → m < j → get_or v m 0 ≡ get_or key m 0)
      → IsFirstBit v key off vlen (j * 8 + first_of (get_or v j 0) (get_or key j 0))
  IsFirstBit-at lo hi ne before =
      let x = get_or v j 0 in
      let y = get_or key j 0 in
      let e = first_of x y in
      let small : e < 8 = first_of-lt x y (hv j) (hk j) ne in
      let at : (j * 8 + e) / 8 ≡ j = omega arith in
      let rest : (j * 8 + e) % 8 ≡ e = omega arith in
      record {
        lower = omega arith;
        upper = omega arith;
        ne = rw (at, rest) (byte_bit-ne x y (hv j) (hk j) ne);
        before = λ c above below. elim (dec_lt (c / 8) j) [
          | yes p ↦ key_bit-byte v key c (before (c / 8) (omega arith) p)
          | no p ↦
              let here : c / 8 ≡ j = omega arith in
              rw here (byte_bit-eq x y (hv j) (hk j) ne (c % 8) (omega arith))
        ];
      }

-- If the loop over the bytes from `off` up to `vlen` finds a difference, the bit that `rn_insert`
-- computes from it is the first bit at which the two keys differ, and `rn_match` computes the same.
pub insert_bit-IsFirstBit :
    (v key : List ℕ) (off vlen j z : ℕ)
    → IsBytes v
    → IsBytes key
    → mismatch (vlen - off) off (drop off v) (drop off key) ≡ some (some (j, z))
    → IsFirstBit v key off vlen (insert_bit j z) × (match_bit j z ≡ insert_bit j z)
unfolding match_bit
insert_bit-IsFirstBit v key off vlen j z hv hk run =
    let f = mismatch-Differs (vlen - off) off (drop off v) (drop off key) run in
    let ev : get_or (drop off v) f.d 0 ≡ get_or v j 0 = rw (get_or-drop off f.d v 0, ← f.place) in
    let ek : get_or (drop off key) f.d 0 ≡ get_or key j 0 =
      rw (get_or-drop off f.d key 0, ← f.place) in
    let ez : z ≡ bit_xor (get_or v j 0) (get_or key j 0) = rw (← ev, ← ek) f.how in
    let ne : get_or v j 0 ≢ get_or key j 0 = rw (← ev, ← ek) f.ne in
    let same : (m : ℕ) → off ≤ m → m < j → get_or v m 0 ≡ get_or key m 0 = λ m lo hi.
      let e : off + (m - off) ≡ m = omega arith in
      rw e at (
        rw (get_or-drop off (m - off) v 0, get_or-drop off (m - off) key 0) at
          (f.before (m - off) (omega (arith, f.place)))) in
    rw (insert_bit-eq j z, ez)
      (
        IsFirstBit-at v key off vlen j hv hk (omega (arith, f.place))
            (omega (arith, f.place, f.within)) ne same,
        omega (arith, match_shift-eq _ _ (hv j) (hk j) ne),
      )
