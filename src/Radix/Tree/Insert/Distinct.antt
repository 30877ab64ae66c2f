-- ===== src/Radix/Tree/Insert/Distinct.antt =====
-- The nodes of the tree with the new pair are distinct.
use freebsd_radix_userland.Common.{
  ℕ, ◌+◌, ◌≡◌, inl, inr, false, ◌||◌, List, arith, ltb, ◌==◌, Bool-cases,
}
use freebsd_radix_userland.Radix.Memory.{Ptr}
use freebsd_radix_userland.Radix.Search.FirstBit.{key_bit}
use freebsd_radix_userland.Radix.Tree.{Tree, leaf, inner, has}
use freebsd_radix_userland.Radix.Tree.Insert.{pair, insert}
use freebsd_radix_userland.Radix.Tree.Insert.Holds.{IsDistinct}

has-pair :
    (a : Ptr) (v : List ℕ) (b new : ℕ) (t : Tree)
    → has a (pair v b new t) ≡ ((a == new) || ((a == new + 1) || has a t))
has-pair a v b new t = ground arith

pub has-insert :
    (a : Ptr) (v : List ℕ) (b new : ℕ) (t : Tree)
    → has a (insert v b new t) ≡ ((a == new) || ((a == new + 1) || has a t))
unfolding insert
has-insert a v b new (leaf p) = has-pair a v b new (leaf p)
has-insert a v b new (inner p c l r) = elim (Bool-cases (ltb c b)) [
  | inr over ↦ rw over (has-pair a v b new (inner p c l r))
  | inl before ↦ rw before (ground (arith, has-insert a v b new l, has-insert a v b new r))
]

pair-IsDistinct :
    (v : List ℕ) (b new : ℕ) (t : Tree)
    → IsDistinct t
    → has new t ≡ false
    → has (new + 1) t ≡ false
    → IsDistinct (pair v b new t)
pair-IsDistinct v b new t d n m = elim (Bool-cases (key_bit v b)) [
  | inl one ↦ rw one (m, ground arith, (λ a i. ground arith), d, tt)
  | inr nil ↦ rw nil (ground arith, m, (λ a i. ground arith), tt, d)
]

pub insert-IsDistinct :
    (v : List ℕ) (b new : ℕ) (t : Tree)
    → IsDistinct t
    → has new t ≡ false
    → has (new + 1) t ≡ false
    → IsDistinct (insert v b new t)
unfolding insert
insert-IsDistinct v b new (leaf p) d n m = pair-IsDistinct v b new (leaf p) d n m
insert-IsDistinct v b new (inner p c l r) d n m = elim (Bool-cases (ltb c b)) [
  | inr over ↦ rw over (pair-IsDistinct v b new (inner p c l r) d n m)
  | inl before ↦ rw before (elim (Bool-cases (key_bit v c)) [
    | inl one ↦ rw one (
      d.0,
      ground (arith, has-insert p v b new r),
      (λ a i. ground (arith, has-insert a v b new r, d.2 a)),
      d.3,
      insert-IsDistinct v b new r d.4 (ground arith) (ground arith),
    )
    | inr nil ↦ rw nil (
      ground (arith, has-insert p v b new l),
      d.1,
      (λ a i. ground (arith, has-insert a v b new l, d.2 a)),
      insert-IsDistinct v b new l d.3 (ground arith) (ground arith),
      d.4,
    )
  ])
]
