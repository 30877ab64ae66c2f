-- ===== src/Radix/Masks/Satisfies.antt =====
-- What `rn_satisfies_leaf` of src/freebsd/radix.c decides.
use freebsd_radix_userland.Common.{
  ℕ, zero, suc, ◌+◌, ◌-◌, ◌%◌, ◌≤◌, ◌<◌, ◌≡◌, refl, sym, ◌∙◌, ◌↔◌, inl, inr, Bool, true, false, min,
  bit_and, bit_xor, Option, none, some, List, [], ◌∷◌, arith, length, length-drop, get_or,
  get_or-drop, drop, Bool-cases,
}
use freebsd_radix_userland.Common.Digits.{
  digit, digit-lt-two, digit-bit_and, digit-bit_xor, bit_and-lt, bit_xor-lt, eq_of_digits,
}
use freebsd_radix_userland.Radix.Masks.{len_byte, bit_test, ones, satisfies_loop, rn_satisfies_leaf}
use freebsd_radix_userland.Radix.Search.FirstBit.{IsBytes, digit-zero}

-- Two bytes agree on the bits of a mask.
abbrev pub AgreeOn : (m x y : ℕ) → Type 0
AgreeOn m x y = (k : ℕ) → k < 8 → digit m k ≡ 1 → digit x k ≡ digit y k

differ-AgreeOn :
    (x y m : ℕ) → x < 256 → y < 256 → (bit_test (bit_xor x y) m ≡ false) ↔ AgreeOn m x y
differ-AgreeOn x y m hx hy = (
  (λ e k hk one.
      let z : bit_and (bit_xor x y) m ≡ 0 = ground arith in
      let d : digit (bit_and (bit_xor x y) m) k ≡ 0 = rw z (digit-zero k) in
      omega (
        arith,
        digit-bit_and k (bit_xor x y) m,
        digit-bit_xor k x y,
        digit-lt-two x k,
        digit-lt-two y k,
      )),
  (λ all.
      let z : bit_and (bit_xor x y) m ≡ 0 =
        eq_of_digits 8 (bit_and (bit_xor x y) m) 0
          (bit_and-lt 8 (bit_xor x y) m (bit_xor-lt 8 x y hx hy)) (omega arith)
          λ k hk.
            digit_step (digit m k) (digit x k) (digit y k) _ (digit-lt-two m k) (digit-lt-two x k)
              (rw (digit-bit_xor k x y) at (digit-bit_and k (bit_xor x y) m)) (all k hk)
            ∙ sym (digit-zero k) in
      ground arith),
)
  where
    digit_step : (m x y d : ℕ) → m < 2 → x < 2 → d ≡ min ((x + y) % 2) m → (m ≡ 1 → x ≡ y) → d ≡ 0
    digit_step zero x y d hm hx e all = omega arith
    digit_step (suc zero) x y d hm hx e all = let same : x ≡ y = all refl in omega arith
    digit_step (suc (suc m)) x y d hm hx e all = absurd (omega arith)

satisfies_loop_lem :
    (k : ℕ) (cp cp2 cp3 : List ℕ)
    → k ≤ length cp
    → k ≤ length cp2
    → k ≤ length cp3
    → IsBytes cp
    → IsBytes cp2
    → (r : Bool) × (satisfies_loop k cp cp2 cp3 ≡ some r)
      × ((r ≡ true) ↔ ((i : ℕ) → i < k → AgreeOn (get_or cp3 i 0) (get_or cp i 0) (get_or cp2 i 0)))
unfolding satisfies_loop
satisfies_loop_lem zero cp cp2 cp3 a b c hx hy =
    (true, refl, ((λ e i lt. absurd (omega arith)), λ all. refl))
satisfies_loop_lem (suc k) [] cp2 cp3 a b c hx hy = absurd (omega arith)
satisfies_loop_lem (suc k) (x ∷ cp) [] cp3 a b c hx hy = absurd (omega arith)
satisfies_loop_lem (suc k) (x ∷ cp) (y ∷ cp2) [] a b c hx hy = absurd (omega arith)
satisfies_loop_lem (suc k) (x ∷ cp) (y ∷ cp2) (m ∷ cp3) a b c hx hy =
    let (r, run, iff) =
      satisfies_loop_lem k cp cp2 cp3 (omega arith) (omega arith) (omega arith) (λ i. hx (suc i))
        (λ i. hy (suc i)) in
    let bits = differ-AgreeOn x y m (hx 0) (hy 0) in
    elim (Bool-cases (bit_test (bit_xor x y) m)) [
      | inl out ↦ (
        false,
        rw out refl,
        ((λ e. absurd (cc)), (λ all. let z = bits.1 (all 0 (omega arith)) in absurd (cc))),
      )
      | inr same ↦ (
        r,
        rw same run,
        (
          (λ e. elim [ zero ↦ λ lt. bits.0 same | suc i ↦ λ lt. iff.0 e i (omega arith) ]),
          (λ all. iff.1 (λ i lt. all (suc i) (omega arith))),
        ),
      )
    ]

-- A key or a mask as it stands in memory.
pub record IsStored (x : List ℕ) : Type 0 where
  pub stored : len_byte x ≤ length x
  pub bytes : IsBytes x

IsBytes-drop : (n : ℕ) (x : List ℕ) → IsBytes x → IsBytes (drop n x)
IsBytes-drop n x h i = rw (get_or-drop n i x 0) (h (n + i))

-- The mask that a leaf is compared under, and the end of the comparison.
abbrev pub mask_of : Option (List ℕ) → List ℕ
mask_of none = ones
mask_of (some m) = m

abbrev pub limit_of : (trial key : List ℕ) → Option (List ℕ) → ℕ
limit_of trial key none = min (len_byte trial) (len_byte key)
limit_of trial key (some m) = min (min (len_byte trial) (len_byte key)) (len_byte m)

module _ (trial key : List ℕ) (it : IsStored trial) (ik : IsStored key) where
  satisfies_at :
      (mask : List ℕ) (limit skip : ℕ)
      → limit ≤ length trial
      → limit ≤ length key
      → limit ≤ length mask
      → (r : Bool) × (satisfies_loop
            (limit - skip)
            (drop skip trial)
            (drop skip key)
            (drop skip mask)
          ≡ some r)
        × ((r ≡ true) ↔ (
            (i : ℕ)
            → skip ≤ i
            → i < limit
            → AgreeOn (get_or mask i 0) (get_or trial i 0) (get_or key i 0)))
  satisfies_at mask limit skip a b c =
      let (r, run, iff) =
        satisfies_loop_lem (limit - skip) (drop skip trial) (drop skip key) (drop skip mask)
          (omega (arith, length-drop skip trial)) (omega (arith, length-drop skip key))
          (omega (arith, length-drop skip mask)) (IsBytes-drop skip trial it.bytes)
          (IsBytes-drop skip key ik.bytes) in
      (
        r,
        run,
        (
          (λ e i lo hi.
              let at : skip + (i - skip) ≡ i = omega arith in
              let h = iff.0 e (i - skip) (omega arith) in
              rw at at (
                rw
                  (
                    get_or-drop skip (i - skip) mask 0,
                    get_or-drop skip (i - skip) trial 0,
                    get_or-drop skip (i - skip) key 0,
                  )
                  at h)),
          (λ all. iff.1 λ i lt.
              rw (get_or-drop skip i mask 0, get_or-drop skip i trial 0, get_or-drop skip i key 0)
                (all (skip + i) (omega arith) (omega arith))),
        ),
      )

  -- `rn_satisfies_leaf` returns, and it returns true exactly when the key that is looked up and the
  -- leaf's agree on every bit of the mask in the bytes from `skip` on, up to the end of the shortest
  -- of the three; a leaf with no mask counts as one whose mask has all bits set, with no end.
  pub rn_satisfies_leaf_iff :
      (mask : Option (List ℕ)) (skip : ℕ)
      → limit_of trial key mask ≤ length (mask_of mask)
      → (r : Bool) × (rn_satisfies_leaf trial key mask skip ≡ some r)
        × ((r ≡ true) ↔ (
            (i : ℕ)
            → skip ≤ i
            → i < limit_of trial key mask
            → AgreeOn (get_or (mask_of mask) i 0) (get_or trial i 0) (get_or key i 0)))
  unfolding rn_satisfies_leaf
  rn_satisfies_leaf_iff none skip fits =
      satisfies_at ones (min (len_byte trial) (len_byte key)) skip (omega (arith, it.stored))
        (omega (arith, ik.stored)) fits
  rn_satisfies_leaf_iff (some m) skip fits =
      satisfies_at m (min (min (len_byte trial) (len_byte key)) (len_byte m)) skip
        (omega (arith, it.stored)) (omega (arith, ik.stored)) fits
