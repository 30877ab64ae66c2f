-- ===== src/Xnu/Family.antt =====
-- Families indexed by numbers, such as the state of each processor or the tracker of each thread.
use freebsd_radix_userland.Common.{
  ℕ, zero, suc, ◌+◌, ◌≤◌, ◌<◌, ◌≡◌, refl, ◌==◌, if◌then◌else◌, arith, sym, ap, ◌∙◌, inl, inr,
  ==_iff, Bool-cases,
}

abbrev pub assign {ℓ} : {A : Type ℓ} → (ℕ → A) → ℕ → A → ℕ → A
assign f i a j = if j == i then a else f j

-- A member changes, and a field of it does not.
pub assign_kept {ℓ} :
    {A : Type ℓ} (F : A → ℕ) (f : ℕ → A) (i : ℕ) (a : A)
    → F a ≡ F (f i)
    → (j : ℕ) → F (assign f i a j) ≡ F (f j)
assign_kept F f i a e j = elim (Bool-cases (j == i)) [
  | inl same ↦
      let here : j ≡ i = (==_iff j i).0 same in
      let new : F (assign f i a j) ≡ F a = ground arith in new ∙ e ∙ ap (λ x. F (f x)) (sym here)
  | inr other ↦ ground arith
]

module _ {ℓ} {A : Type ℓ} (weight : A → ℕ) where
  -- The weights of the first members, added up.
  unfoldable pub total : ℕ → (ℕ → A) → ℕ
  total zero f = 0
  total (suc n) f = total n f + weight (f n)

  total-assign_of_le :
      (n : ℕ) (f : ℕ → A) (i : ℕ) (a : A) → n ≤ i → total n (assign f i a) ≡ total n f
  unfolding total
  total-assign_of_le zero f i a h = refl
  total-assign_of_le (suc n) f i a h = ground (arith, total-assign_of_le n f i a)

  pub total-assign :
      (n : ℕ) (f : ℕ → A) (i : ℕ) (a : A)
      → i < n
      → total n (assign f i a) + weight (f i) ≡ total n f + weight a
  unfolding total
  total-assign zero f i a h = absurd (omega arith)
  total-assign (suc n) f i a h = ground (arith, total-assign n f i a, total-assign_of_le n f i a)

  pub total-bound : ((a : A) → weight a ≤ 1) → (n : ℕ) (f : ℕ → A) → total n f ≤ n
  unfolding total
  total-bound small zero f = omega arith
  total-bound small (suc n) f = omega (arith, small (f n), total-bound small n f)

  -- A member's weight is part of the sum.
  pub weight-le-total : (n : ℕ) (f : ℕ → A) (i : ℕ) → i < n → weight (f i) ≤ total n f
  unfolding total
  weight-le-total zero f i h = absurd (omega arith)
  weight-le-total (suc n) f i h = ground (arith, weight-le-total n f i)

  pub total-all_zero : (n : ℕ) (f : ℕ → A) → ((i : ℕ) → weight (f i) ≡ 0) → total n f ≡ 0
  unfolding total
  total-all_zero zero f h = refl
  total-all_zero (suc n) f h = omega (arith, h n, total-all_zero n f h)
