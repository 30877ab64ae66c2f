-- ===== src/Radix/Tree/State/Lookup.antt =====
-- What `rn_search` of src/freebsd/radix.c finds after `rn_insert`.
use freebsd_radix_userland.Common.{
  ℕ, ◌+◌, ◌*◌, ◌≤◌, ◌<◌, ◌≡◌, ◌⊎◌, inl, inr, true, ◌||◌, some, List, arith, length, ltb, ◌==◌,
  Bool-cases,
}
use mathlib.Core.Path.{subst}
use freebsd_radix_userland.Radix.Memory.{Ptr, RadixHead, Heap}
use freebsd_radix_userland.Radix.Search.{rn_search}
use freebsd_radix_userland.Radix.Search.FirstBit.{key_bit}
use freebsd_radix_userland.Radix.Tree.{Tree, leaf, inner, leaf_mem}
use freebsd_radix_userland.Radix.Tree.Search.{rn_search-leaf_mem}
use freebsd_radix_userland.Radix.Tree.Insert.{insert, pair}
use freebsd_radix_userland.Radix.Tree.State.{IsState}
use freebsd_radix_userland.Radix.Tree.State.Insert.{Entered}

leaf_mem-pair :
    (a : Ptr) (v : List ℕ) (b new : ℕ) (t : Tree)
    → leaf_mem a (pair v b new t) ≡ ((a == new) || leaf_mem a t)
leaf_mem-pair a v b new t = ground arith

pub leaf_mem-insert :
    (a : Ptr) (v : List ℕ) (b new : ℕ) (t : Tree)
    → leaf_mem a (insert v b new t) ≡ ((a == new) || leaf_mem a t)
unfolding insert
leaf_mem-insert a v b new (leaf p) = leaf_mem-pair a v b new (leaf p)
leaf_mem-insert a v b new (inner p c l r) = elim (Bool-cases (ltb c b)) [
  | inr over ↦ rw over (leaf_mem-pair a v b new (inner p c l r))
  | inl before ↦
      rw before (ground (arith, leaf_mem-insert a v b new l, leaf_mem-insert a v b new r))
]

-- In a well-formed tree `rn_search` for a key that agrees with a leaf's key on the bits from `lo` up
-- to `hi` ends at that leaf.
IsState-rn_search :
    (k : ℕ) (h : Heap) (key : Ptr → List ℕ) (top lo hi : ℕ) (l r : Tree) (w : List ℕ) (q : Ptr)
    → IsState h key top lo hi l r
    → hi < k + lo
    → leaf_mem q (inner top lo l r) ≡ true
    → hi ≤ length w * 8
    → ((c : ℕ) → lo ≤ c → c < hi → key_bit w c ≡ key_bit (key q) c)
    → rn_search k h w top ≡ some q
IsState-rn_search k h key top lo hi l r w q s fuel m fits same =
    rn_search-leaf_mem k h key top (inner top lo l r) w lo hi q s.tree s.ordered s.patricia fits
      (omega (arith, s.ordered)) fuel m same

-- After `rn_insert` has put in a new leaf, `rn_search` finds the new key at the new leaf, and the key
-- of every leaf that was there before at that leaf.
pub rn_search-rn_insert :
    (k : ℕ) (h : Heap) (key : Ptr → List ℕ) (head : RadixHead) (lo hi : ℕ) (t : Tree)
    (v_arg new : Ptr) (v w : List ℕ) (q : Ptr) (e : Entered k h key head lo hi t v_arg new v)
    → hi < k + lo
    → (q ≡ new) ⊎ (leaf_mem q t ≡ true)
    → hi ≤ length w * 8
    → ((c : ℕ) → lo ≤ c → c < hi → key_bit w c ≡ key_bit (key q) c)
    → rn_search k e.g w head.rnh_treetop ≡ some q
rn_search-rn_insert k h key head lo hi t v_arg new v w q e fuel m fits same =
    let here : leaf_mem q (insert v e.b new t) ≡ true =
      ground (arith, leaf_mem-insert q v e.b new t) in
    IsState-rn_search k e.g key head.rnh_treetop lo hi e.l' e.r' w q e.state fuel
      (subst (λ t'. leaf_mem q t' ≡ true) e.grown here) fits same
