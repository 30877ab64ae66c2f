-- ===== src/Radix/Masks/Order.antt =====
-- `rn_refines` and `rn_lexobetter` of src/freebsd/radix.c as orders of masks.
use freebsd_radix_userland.Common.{
  ℕ, zero, suc, ◌≤◌, ◌<◌, ◌≡◌, refl, ◌∙◌, ap, ◌≢◌, ◌↔◌, ◌⊎◌, inl, inr, Bool, true, false, some,
  List, [], ◌∷◌, arith, length, get_or, ltb, ◌==◌, Bool-cases,
}
use freebsd_radix_userland.Common.Digits.{digit, eq_of_digits}
use freebsd_radix_userland.Radix.Masks.{len_byte, rn_refines, lexobetter_loop, rn_lexobetter}
use freebsd_radix_userland.Radix.Masks.Refines.{
  IsMask, IsWithin, IsSame, mask_byte, mask_byte-lt, rn_refines_iff,
}

refines_of :
    (m n : List ℕ) → IsMask m → IsMask n → rn_refines m n ≡ some true → IsWithin n m × ¬ IsSame n m
refines_of m n im in' e =
    let (r, run, iff) = rn_refines_iff m n im in' in iff.0 (ground (arith, run, e))

of_refines :
    (m n : List ℕ) → IsMask m → IsMask n → IsWithin n m → ¬ IsSame n m → rn_refines m n ≡ some true
of_refines m n im in' w ne =
    let (r, run, iff) = rn_refines_iff m n im in' in run ∙ ap some (iff.1 (w, ne))

IsSame-of_within : (m n : List ℕ) → IsMask m → IsMask n → IsWithin n m → IsWithin m n → IsSame n m
IsSame-of_within m n im in' a b i =
    eq_of_digits 8 (mask_byte n i) (mask_byte m i) (mask_byte-lt n i in') (mask_byte-lt m i im)
      λ k hk. omega (arith, a i k hk, b i k hk)

-- On masks whose length byte is at least 1 and whose bytes are all there `rn_refines` is a strict
-- order: no mask refines itself, and if the first of three masks refines the second and the second
-- the third, then the first refines the third.
pub rn_refines_strict :
    (a b c : List ℕ)
    → IsMask a
    → IsMask b
    → IsMask c
    → (rn_refines a a ≢ some true)
      × (rn_refines a b ≡ some true → rn_refines b c ≡ some true → rn_refines a c ≡ some true)
rn_refines_strict a b c ia ib ic = (
  (λ e. (refines_of a a ia ia e).1 (λ i. refl)),
  (λ e f.
      let (wb, nb) = refines_of a b ia ib e in
      let (wc, nc) = refines_of b c ib ic f in
      of_refines a c ia ic (λ i k hk. omega (arith, wb i k hk, wc i k hk))
        λ same. nc (
          IsSame-of_within b c ib ic wc λ i k hk.
            let e' : digit (mask_byte c i) k ≡ digit (mask_byte a i) k =
              ap (λ x. digit x k) (same i) in
            omega (arith, wb i k hk, e'))),
)

-- Some byte of the first mask, of the first `k`, exceeds the second's.
abbrev pub Exceeds : ℕ → List ℕ → List ℕ → Type 0
Exceeds k m n = (i : ℕ) × (i < k) × (get_or n i 0 < get_or m i 0)

lexobetter_loop_lem :
    (k : ℕ) (m n : List ℕ)
    → k ≤ length m
    → k ≤ length n
    → (r : Bool) × (lexobetter_loop k m n ≡ some r) × ((r ≡ true) ↔ Exceeds k m n)
unfolding lexobetter_loop
lexobetter_loop_lem zero m n hm hn =
    (false, refl, ((λ e. absurd (cc)), λ c. absurd (omega (arith, c.1))))
lexobetter_loop_lem (suc k) [] n hm hn = absurd (omega arith)
lexobetter_loop_lem (suc k) (a ∷ m) [] hm hn = absurd (omega arith)
lexobetter_loop_lem (suc k) (a ∷ m) (b ∷ n) hm hn =
    let (r, run, iff) = lexobetter_loop_lem k m n (omega arith) (omega arith) in
    elim (Bool-cases (ltb b a)) [
      | inl more ↦ (true, rw more refl, ((λ e. (0, omega arith, ground arith)), λ c. refl))
      | inr less ↦ (
        r,
        rw less run,
        ((λ e. let (i, lt, ex) = iff.0 e in (suc i, omega arith, ex)), (λ c. iff.1 (below c less))),
      )
    ]
  where
    below : Exceeds (suc k) (a ∷ m) (b ∷ n) → ltb b a ≡ false → Exceeds k m n
    below (zero, lt, ex) less = absurd (ground arith)
    below (suc i, lt, ex) less = (i, omega arith, ex)

-- `rn_lexobetter` returns, and it returns true exactly when the first mask is longer than the second
-- or they have one length and some byte of the first, at any place, exceeds the second's there.
pub rn_lexobetter_iff :
    (m n : List ℕ)
    → IsMask m
    → IsMask n
    → (r : Bool) × (rn_lexobetter m n ≡ some r)
      × ((r ≡ true)
          ↔ ((len_byte n < len_byte m) ⊎ ((len_byte m ≡ len_byte n) × Exceeds (len_byte m) m n)))
unfolding rn_lexobetter
rn_lexobetter_iff m n im in' = elim (Bool-cases (ltb (len_byte n) (len_byte m))) [
  | inl longer ↦ (true, rw longer refl, ((λ e. inl (ground arith)), λ c. refl))
  | inr other ↦ elim (Bool-cases (len_byte m == len_byte n)) [
    | inr shorter ↦ (
      false,
      rw (other, shorter) refl,
      (
        (λ e. absurd (cc)),
        λ c. absurd (elim c [ inl lt ↦ ground arith | inr e ↦ ground (arith, e.0) ]),
      ),
    )
    | inl same ↦
        let e : len_byte m ≡ len_byte n = ground arith in
        let (r, run, iff) =
          lexobetter_loop_lem (len_byte m) m n (omega (arith, im.stored))
            (omega (arith, in'.stored)) in
        (
          r,
          rw (other, same) run,
          (
            (λ t. inr (e, iff.0 t)),
            (λ c. elim c [ inl lt ↦ absurd (ground arith) | inr x ↦ iff.1 x.1 ]),
          ),
        )
  ]
]
