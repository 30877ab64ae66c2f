-- ===== src/Radix/Masks/Refines.antt =====
-- What `rn_refines` of src/freebsd/radix.c decides.
use freebsd_radix_userland.Common.{
  ℕ, zero, suc, ◌+◌, ◌-◌, ◌≤◌, ◌<◌, ◌≡◌, refl, sym, ◌∙◌, ◌↔◌, ◌⊎◌, inl, inr, Bool, true, false,
  ◌&&◌, min, max, Option, some, List, [], ◌∷◌, arith, length, length-drop, get_or, take, drop, ◌==◌,
  Bool-cases,
}
use freebsd_radix_userland.Radix.Masks.{
  len_byte, outside, any_nonzero, refines_tail, refines_loop, rn_refines,
}
use freebsd_radix_userland.Common.Digits.{digit}
use freebsd_radix_userland.Radix.Masks.Bits.{outside_iff, outside-zero, eq_zero_of_outside}
use freebsd_radix_userland.Radix.Search.FirstBit.{IsBytes}

-- Byte `i` of the first `k`, 0 behind them.
abbrev pub byte_at : List ℕ → ℕ → ℕ → ℕ
byte_at xs k i = get_or (take k xs) i 0

any_nonzero_lem :
    (k : ℕ) (xs : List ℕ)
    → k ≤ length xs
    → (r : Bool) × (any_nonzero k xs ≡ some r) × ((r ≡ false) ↔ ((i : ℕ) → byte_at xs k i ≡ 0))
unfolding any_nonzero
any_nonzero_lem zero xs h = (false, refl, ((λ e i. refl), λ all. refl))
any_nonzero_lem (suc k) [] h = absurd (omega arith)
any_nonzero_lem (suc k) (x ∷ xs) h = elim (Bool-cases (x == 0)) [
  | inl z ↦
      let (r, run, iff) = any_nonzero_lem k xs (omega arith) in
      let ex : x ≡ 0 = ground arith in
      (
        r,
        rw z run,
        ((λ e. elim [ zero ↦ ex | suc i ↦ iff.0 e i ]), (λ all. iff.1 (λ i. all (suc i)))),
      )
  | inr nz ↦ (true, rw nz refl, ((λ e. absurd (cc)), (λ all. ground (arith, all 0))))
]

-- The claim about the rest of two masks, where `masks_are_equal` speaks of what came before.
abbrev Claim : (n m : List ℕ) (ln lm : ℕ) → Bool → Type 0
Claim n m ln lm eq =
    ((i : ℕ) → outside (byte_at n ln i) (byte_at m lm i) ≡ false)
    × ¬ ((eq ≡ true) × ((i : ℕ) → byte_at n ln i ≡ byte_at m lm i))

abbrev Decides : Option Bool → Type 0 → Type 0
Decides o P = (r : Bool) × (o ≡ some r) × ((r ≡ true) ↔ P)

IsBytes-byte_at : (xs : List ℕ) (k i : ℕ) → IsBytes xs → byte_at xs k i < 256
IsBytes-byte_at xs zero i h = omega arith
IsBytes-byte_at [] (suc k) i h = omega arith
IsBytes-byte_at (x ∷ xs) (suc k) zero h = h 0
IsBytes-byte_at (x ∷ xs) (suc k) (suc i) h = IsBytes-byte_at xs k i (λ j. h (suc j))

refines_tail_lem :
    (longer shorter : ℕ) (n m : List ℕ) (eq : Bool)
    → longer ≤ length n
    → shorter ≤ length m
    → (longer ≡ 0) ⊎ (shorter ≡ 0)
    → IsBytes n
    → IsBytes m
    → Decides (refines_tail longer shorter n m eq) (Claim n m longer shorter eq)
unfolding refines_tail
refines_tail_lem longer shorter n m eq hl hs one hn hm =
    let (rest, run, iff) = any_nonzero_lem longer n hl in
    elim (Bool-cases rest) [
      | inl some_set ↦ (
        false,
        rw (run, some_set) refl,
        (
          (λ e. absurd (cc)),
          (λ claim.
              let short : shorter ≡ 0 = elim one [
                | inl lz ↦
                    let z : (i : ℕ) → byte_at n longer i ≡ 0 = λ i. rw lz refl in
                    absurd (ground (arith, iff.1 z))
                | inr sz ↦ sz
              ] in
              let none_set : rest ≡ false = iff.1 λ i.
                eq_zero_of_outside (byte_at n longer i) (IsBytes-byte_at n longer i hn)
                  (rw short at (claim.0 i)) in
              absurd (cc)),
        ),
      )
      | inr none_set ↦
          let zero_n : (i : ℕ) → byte_at n longer i ≡ 0 = iff.0 none_set in
          let within : (i : ℕ) → outside (byte_at n longer i) (byte_at m shorter i) ≡ false = λ i.
            rw (zero_n i) (outside-zero (byte_at m shorter i) (IsBytes-byte_at m shorter i hm)) in
          elim (Bool-cases eq) [
            | inr differ ↦ (
              true,
              rw (run, none_set, differ) refl,
              ((λ e. (within, λ same. absurd (cc (same.0)))), (λ claim. refl)),
            )
            | inl equal ↦
                let (r, run', iff') = any_nonzero_lem shorter m hs in
                (
                  r,
                  rw (run, none_set, equal) run',
                  (
                    (λ e. (
                      within,
                      λ same.
                          let z : r ≡ false = iff'.1 (λ i. sym (same.1 i) ∙ zero_n i) in
                          absurd (cc),
                    )),
                    (λ claim. elim (Bool-cases r) [
                      | inl t ↦ t
                      | inr f ↦ absurd (claim.1 (equal, λ i. zero_n i ∙ sym (iff'.0 f i)))
                    ]),
                  ),
                )
          ]
    ]

Claim-cons :
    (b a : ℕ) (n m : List ℕ) (ln lm : ℕ) (eq : Bool)
    → outside b a ≡ false
    → Claim n m ln lm (eq && (b == a)) ↔ Claim (b ∷ n) (a ∷ m) (suc ln) (suc lm) eq
Claim-cons b a n m ln lm eq h = (
  (λ c. (
    elim [ zero ↦ h | suc i ↦ c.0 i ],
    λ same. let e : b ≡ a = same.1 0 in c.1 (ground arith, λ i. same.1 (suc i)),
  )),
  (λ c. (
    (λ i. c.0 (suc i)),
    λ same.
        let e : b ≡ a = ground (arith, same.0) in
        c.1 (ground (arith, same.0), elim [ zero ↦ e | suc i ↦ same.1 i ]),
  )),
)

refines_loop_lem :
    (k longer shorter : ℕ) (n m : List ℕ) (eq : Bool)
    → k + longer ≤ length n
    → k + shorter ≤ length m
    → (longer ≡ 0) ⊎ (shorter ≡ 0)
    → IsBytes n
    → IsBytes m
    → Decides (refines_loop k longer shorter n m eq) (Claim n m (k + longer) (k + shorter) eq)
unfolding refines_loop
refines_loop_lem zero longer shorter n m eq hl hs one hn hm =
    let el : 0 + longer ≡ longer = omega arith in
    let es : 0 + shorter ≡ shorter = omega arith in
    rw (el, es) (refines_tail_lem longer shorter n m eq (omega arith) (omega arith) one hn hm)
refines_loop_lem (suc k) longer shorter [] m eq hl hs one hn hm = absurd (omega arith)
refines_loop_lem (suc k) longer shorter (b ∷ n) [] eq hl hs one hn hm = absurd (omega arith)
refines_loop_lem (suc k) longer shorter (b ∷ n) (a ∷ m) eq hl hs one hn hm =
    let el : suc k + longer ≡ suc (k + longer) = omega arith in
    let es : suc k + shorter ≡ suc (k + shorter) = omega arith in
    let (r, run, iff) =
      refines_loop_lem k longer shorter n m (eq && (b == a)) (omega arith) (omega arith) one
        (λ i. hn (suc i)) (λ i. hm (suc i)) in
    rw (el, es)
      (elim (Bool-cases (outside b a)) [
        | inl out ↦ (false, rw out refl, ((λ e. absurd (cc)), (λ claim. absurd (cc (claim.0 0)))))
        | inr within ↦
            let c = Claim-cons b a n m (k + longer) (k + shorter) eq within in
            (r, rw within run, ((λ e. c.0 (iff.0 e)), (λ claim. iff.1 (c.1 claim))))
      ])

refines_loop-Claim :
    (k longer shorter ln lm : ℕ) (n m : List ℕ)
    → k + longer ≡ ln
    → k + shorter ≡ lm
    → ln ≤ length n
    → lm ≤ length m
    → (longer ≡ 0) ⊎ (shorter ≡ 0)
    → IsBytes n
    → IsBytes m
    → Decides (refines_loop k longer shorter n m true) (Claim n m ln lm true)
refines_loop-Claim k longer shorter ln lm n m en em hn hm one bn bm =
    rw (← en, ← em) (refines_loop_lem k longer shorter n m true (rw en hn) (rw em hm) one bn bm)

-- A mask as it stands in memory: its length first, and at least as many bytes as that.
pub record IsMask (m : List ℕ) : Type 0 where
  pub size : 1 ≤ len_byte m
  pub stored : len_byte m ≤ length m
  pub bytes : IsBytes m

-- Byte `i` of a mask behind its length byte, 0 where the mask has ended.
abbrev pub mask_byte : List ℕ → ℕ → ℕ
mask_byte m i = byte_at (drop 1 m) (len_byte m - 1) i

-- Every bit of `n` is one of `m`.
abbrev pub IsWithin : (n m : List ℕ) → Type 0
IsWithin n m = (i k : ℕ) → k < 8 → digit (mask_byte n i) k ≤ digit (mask_byte m i) k

-- The two masks have the same bits.
abbrev pub IsSame : (n m : List ℕ) → Type 0
IsSame n m = (i : ℕ) → mask_byte n i ≡ mask_byte m i

IsBytes-tail : (m : List ℕ) → IsBytes m → IsBytes (drop 1 m)
IsBytes-tail [] h = h
IsBytes-tail (x ∷ m) h = λ i. h (suc i)

length-tail : (m : List ℕ) → length (drop 1 m) ≡ length m - 1
length-tail m = length-drop 1 m

-- For masks whose length byte is at least 1 and whose bytes are all there `rn_refines` returns, and it
-- returns true exactly when every bit of the second mask is one of the first and the two are not the
-- same, both taken to go on with zeros behind their ends.
pub rn_refines_iff :
    (m n : List ℕ)
    → IsMask m
    → IsMask n
    → (r : Bool) × (rn_refines m n ≡ some r) × ((r ≡ true) ↔ (IsWithin n m × ¬ IsSame n m))
unfolding rn_refines
rn_refines_iff m n im in' =
    let k = min (len_byte n) (len_byte m) - 1 in
    let longer = len_byte n - max (len_byte m) 1 in
    let shorter = len_byte m - len_byte n in
    let en : k + longer ≡ len_byte n - 1 = omega (arith, im.size, in'.size) in
    let em : k + shorter ≡ len_byte m - 1 = omega (arith, im.size, in'.size) in
    let bn = IsBytes-tail n in'.bytes in
    let bm = IsBytes-tail m im.bytes in
    let (r, run, claim) =
      refines_loop-Claim k longer shorter (len_byte n - 1) (len_byte m - 1) (drop 1 n) (drop 1 m) en
        em (omega (arith, length-tail n, in'.stored)) (omega (arith, length-tail m, im.stored))
        (omega (arith, im.size)) bn bm in
    let bits = λ (i : ℕ).
      outside_iff (mask_byte n i) (mask_byte m i) (IsBytes-byte_at (drop 1 n) (len_byte n - 1) i bn)
        (IsBytes-byte_at (drop 1 m) (len_byte m - 1) i bm) in
    (
      r,
      run,
      (
        (λ e. let c = claim.0 e in ((λ i j hj. (bits i).0 (c.0 i) j hj), λ same. c.1 (refl, same))),
        (λ c. claim.1 ((λ i. (bits i).1 (c.0 i)), λ same. c.1 same.1)),
      ),
    )

pub mask_byte-lt : (m : List ℕ) (i : ℕ) → IsMask m → mask_byte m i < 256
mask_byte-lt m i im = IsBytes-byte_at (drop 1 m) (len_byte m - 1) i (IsBytes-tail m im.bytes)
