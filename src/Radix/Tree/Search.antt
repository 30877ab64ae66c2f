-- ===== src/Radix/Tree/Search.antt =====
-- `rn_search` of src/freebsd/radix.c on a tree.
use freebsd_radix_userland.Common.{
  ℕ, zero, suc, ◌+◌, ◌*◌, ◌/◌, ◌≤◌, ◌<◌, ◌≡◌, refl, inl, inr, true, false, some, List, arith,
  length, get_elem?-eq_some, ◌==◌, if◌then◌else◌, Bool-cases,
}
use freebsd_radix_userland.Common.{◌∙◌, sym, ap}
use freebsd_radix_userland.Common.Steps.{◌>>=◌}
use mathlib.Core.Path.{subst}
use freebsd_radix_userland.Common.Int.{ℤ, pos, negsuc}
use freebsd_radix_userland.Radix.Memory.{Ptr, Heap}
use freebsd_radix_userland.Radix.Search.{child, rn_search}
use freebsd_radix_userland.Radix.Search.FirstBit.{key_bit}
use freebsd_radix_userland.Radix.Tree.{
  Tree, leaf, inner, root, IsLeafBit, IsInnerAt, IsTree, descend, IsOrdered, AllLeaves, leaf_mem,
  IsPatricia,
}

==→eq : (a b : ℕ) → (a == b) ≡ true → a ≡ b
==→eq a b h = ground arith

-- What holds of all leaves holds of each.
pub all_at : (P : Ptr → Type 0) (q : Ptr) (t : Tree) → AllLeaves P t → leaf_mem q t ≡ true → P q
all_at P q (leaf p) a m = subst P (sym (==→eq q p m)) a
all_at P q (inner p b l r) a m = elim (Bool-cases (leaf_mem q l)) [
  | inl ml ↦ all_at P q l a.0 ml
  | inr nl ↦ all_at P q r a.1 (ground arith)
]

-- One step down.
pub child-key_bit :
    {h : Heap} {up p : Ptr} {b : ℕ} {left right : Ptr} (v : List ℕ)
    (i : IsInnerAt h up p b left right)
    → b < length v * 8
    → child v i.n ≡ some (if key_bit v b then right else left)
unfolding child
child-key_bit {b} v i h =
    rw (i.offset, get_elem?-eq_some v (b / 8) 0 (omega arith), i.bmask, i.sons.0, i.sons.1) refl

pub leaf_bit : (b : ℤ) → IsLeafBit b → (m : ℕ) × (b ≡ negsuc m)
leaf_bit (pos m) h = absurd h
leaf_bit (negsuc m) h = (m, refl)

module _ (h : Heap) (key : Ptr → List ℕ) where
  -- On a tree whose bits grow and lie within the key, `rn_search` ends at the leaf to which the
  -- key's bits lead, if the fuel exceeds the number of bits from `lo` up to `hi`.
  pub rn_search-descend :
      (k : ℕ) (up : Ptr) (t : Tree) (v : List ℕ) (lo hi : ℕ)
      → IsTree h key up t
      → IsOrdered lo hi t
      → hi ≤ length v * 8
      → hi < k + lo
      → lo ≤ hi
      → rn_search k h v (root t) ≡ some (descend v t)
  unfolding rn_search
  rn_search-descend zero up t v lo hi is o fits fuel le = absurd (omega arith)
  rn_search-descend (suc k) up (leaf p) v lo hi is o fits fuel le =
      let (m, e) = leaf_bit is.n.rn_bit is.bit in rw (is.at, ◌>>=◌, e) refl
  rn_search-descend (suc k) up (inner p b l r) v lo hi is o fits fuel le =
      rw (is.0.at, ◌>>=◌, is.0.bit, child-key_bit v is.0 (omega arith))
        (elim (Bool-cases (key_bit v b)) [
          | inl right ↦
              rw right
                (rn_search-descend k p r v (b + 1) hi is.2 o.3 fits (omega arith) (omega arith))
          | inr left ↦
              rw left
                (rn_search-descend k p l v (b + 1) hi is.1 o.2 fits (omega arith) (omega arith))
        ])

-- A key whose bits agree with those of a leaf's leads to that leaf.
pub descend-leaf_mem :
    (key : Ptr → List ℕ) (t : Tree) (v : List ℕ) (lo hi : ℕ) (q : Ptr)
    → IsOrdered lo hi t
    → IsPatricia key lo t
    → leaf_mem q t ≡ true
    → ((c : ℕ) → lo ≤ c → c < hi → key_bit v c ≡ key_bit (key q) c)
    → descend v t ≡ q
descend-leaf_mem key (leaf p) v lo hi q o pat m same = ground arith
descend-leaf_mem key (inner p b l r) v lo hi q o pat m same = elim (Bool-cases (leaf_mem q l)) [
  | inl ml ↦
      let left : key_bit v b ≡ false =
        same b o.0 o.1 ∙ all_at (λ q'. key_bit (key q') b ≡ false) q l pat.0 ml in
      rw left
        (descend-leaf_mem key l v (b + 1) hi q o.2 pat.3 ml (λ c lo' hi'. same c (omega arith) hi'))
  | inr nl ↦
      let mr : leaf_mem q r ≡ true = ground arith in
      let right : key_bit v b ≡ true =
        same b o.0 o.1 ∙ all_at (λ q'. key_bit (key q') b ≡ true) q r pat.1 mr in
      rw right
        (descend-leaf_mem key r v (b + 1) hi q o.3 pat.4 mr (λ c lo' hi'. same c (omega arith) hi'))
]

-- `rn_search` for a key that agrees with the key of some leaf of the tree, on all bits that the tree
-- may test, ends at that leaf.
pub rn_search-leaf_mem :
    (k : ℕ) (h : Heap) (key : Ptr → List ℕ) (up : Ptr) (t : Tree) (v : List ℕ) (lo hi : ℕ) (q : Ptr)
    → IsTree h key up t
    → IsOrdered lo hi t
    → IsPatricia key lo t
    → hi ≤ length v * 8
    → lo ≤ hi
    → hi < k + lo
    → leaf_mem q t ≡ true
    → ((c : ℕ) → lo ≤ c → c < hi → key_bit v c ≡ key_bit (key q) c)
    → rn_search k h v (root t) ≡ some q
rn_search-leaf_mem k h key up t v lo hi q is o pat fits le fuel m same =
    rn_search-descend h key k up t v lo hi is o fits fuel le
    ∙ ap some (descend-leaf_mem key t v lo hi q o pat m same)
