-- ===== src/Radix/Search/Mismatch.antt =====
-- When the byte loops of `rn_match` and `rn_insert` in src/freebsd/radix.c end without a difference.
use freebsd_radix_userland.Common.{
  ℕ, zero, suc, ◌+◌, ◌≤◌, ◌<◌, ◌≡◌, refl, bit_xor, inl, inr, Option, none, some, List, [], ◌∷◌,
  arith, length, get_or, ◌==◌, Bool-cases,
}
use freebsd_radix_userland.Radix.Search.{mismatch}

-- The loop over two long enough strings of bytes ends.
pub mismatch_total :
    (k i : ℕ) (cp cp2 : List ℕ)
    → k ≤ length cp
    → k ≤ length cp2
    → (r : Option (ℕ × ℕ)) × (mismatch k i cp cp2 ≡ some r)
unfolding mismatch
mismatch_total zero i cp cp2 a b = (none, refl)
mismatch_total (suc k) i [] cp2 a b = absurd (omega arith)
mismatch_total (suc k) i (x ∷ cp) [] a b = absurd (omega arith)
mismatch_total (suc k) i (x ∷ cp) (y ∷ cp2) a b = elim (Bool-cases (x == y)) [
  | inl same ↦ rw same (mismatch_total k (i + 1) cp cp2 (omega arith) (omega arith))
  | inr other ↦ (some (i, bit_xor x y), rw other refl)
]

pub mismatch-none :
    (k i : ℕ) (cp cp2 : List ℕ)
    → mismatch k i cp cp2 ≡ some none
    → (m : ℕ) → m < k
    → get_or cp m 0 ≡ get_or cp2 m 0
unfolding mismatch
mismatch-none zero i cp cp2 e m lt = absurd (omega arith)
mismatch-none (suc k) i [] cp2 e m lt = absurd (cc)
mismatch-none (suc k) i (x ∷ cp) [] e m lt = absurd (cc)
mismatch-none (suc k) i (x ∷ cp) (y ∷ cp2) e zero lt = ground arith
mismatch-none (suc k) i (x ∷ cp) (y ∷ cp2) e (suc m) lt =
    mismatch-none k (i + 1) cp cp2 (ground arith) m (omega arith)
