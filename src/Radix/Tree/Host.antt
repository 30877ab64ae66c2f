-- ===== src/Radix/Tree/Host.antt =====
-- The loops of `rn_match` of src/freebsd/radix.c that climb from a leaf, on a tree of host routes: leaves
-- with no mask and no duplicates, and nodes with no list of masks.
use freebsd_radix_userland.Common.{
  ℕ, zero, suc, ◌+◌, ◌-◌, ◌≤◌, ◌<◌, ◌≡◌, refl, ◌⊎◌, inl, inr, some, List, arith, Bool-cases,
}
use freebsd_radix_userland.Radix.Memory.{Ptr, null, RadixNode, Heap, load}
use freebsd_radix_userland.Radix.Search.FirstBit.{key_bit}
use freebsd_radix_userland.Radix.Match.{Miss, match_chain, match_masks, match_up}
use freebsd_radix_userland.Radix.Tree.{Tree, leaf, inner, root, IsTree, IsOrdered, descend}

-- The routes of the tree are host routes.
pub record IsHostLeaf (h : Heap) (p : Ptr) : Type 0 where
  pub n : RadixNode
  pub at : load h p ≡ some n
  pub mask : n.rn_mask ≡ null
  pub dupedkey : n.rn_dupedkey ≡ null

pub record IsHostInner (h : Heap) (p : Ptr) : Type 0 where
  pub n : RadixNode
  pub at : load h p ≡ some n
  pub mklist : n.rn_mklist ≡ null

abbrev pub IsHostTree : Heap → Tree → Type 0
IsHostTree h (leaf p) = IsHostLeaf h p
IsHostTree h (inner p b l r) = IsHostInner h p × IsHostTree h l × IsHostTree h r

-- The node at the top of a tree, under its parent.
root_at :
    (h : Heap) (key : Ptr → List ℕ) (up : Ptr) (t : Tree)
    → IsTree h key up t
    → (n : RadixNode) × (load h (root t) ≡ some n) × (n.rn_parent ≡ up)
root_at h key up (leaf p) is = (is.n, is.at, is.parent)
root_at h key up (inner p b l r) is = (is.0.n, is.0.at, is.0.parent)

module _ (h : Heap) (v : List ℕ) (d : Miss) (depth : ℕ) (top : Ptr) where
  -- The climb finds nothing at a node with no masks.
  match_up-step :
      (m : ℕ) (x p : Ptr) (n : RadixNode)
      → load h x ≡ some n
      → n.rn_parent ≡ p
      → IsHostInner h p
      → (p ≡ top) ⊎ (match_up m (suc depth) h v d top p ≡ some null)
      → match_up (suc m) (suc depth) h v d top x ≡ some null
  unfolding match_up match_masks
  match_up-step m x p n at parent host (inl e) =
      rw (at, parent, host.at, host.mklist, e) (ground arith)
  match_up-step m x p n at parent host (inr e) =
      rw (at, parent, host.at, host.mklist, e) (ground arith)

  -- If the climb from the top of a tree finds nothing, nor does that from a leaf.
  match_up-descend :
      (key : Ptr → List ℕ) (up : Ptr) (t : Tree) (base lo hi : ℕ)
      → IsTree h key up t
      → IsOrdered lo hi t
      → IsHostTree h t
      → ((m : ℕ) → base ≤ m → match_up m (suc depth) h v d top (root t) ≡ some null)
      → (m : ℕ) → base + (hi - lo) ≤ m
      → match_up m (suc depth) h v d top (descend v t) ≡ some null
  match_up-descend key up (leaf p) base lo hi is o host above m fuel = above m (omega arith)
  match_up-descend key up (inner p b l r) base lo hi is o host above m fuel =
      let next : (t' : Tree)
          → IsTree h key p t'
          → (m : ℕ) → base + 1 ≤ m
          → match_up m (suc depth) h v d top (root t') ≡ some null =
        λ t' is'. elim [
          | zero ↦ λ le. absurd (omega arith)
          | suc m ↦ λ le.
              let (n, at, parent) = root_at h key p t' is' in
              match_up-step m (root t') p n at parent host.0 (inr (above m (omega arith)))
        ] in
      elim (Bool-cases (key_bit v b)) [
        | inl one ↦ rw one (
            match_up-descend key p r (base + 1) (b + 1) hi is.2 o.3 host.2 (next r is.2) m
              (omega (arith, o.0, o.1)))
        | inr nil ↦ rw nil (
            match_up-descend key p l (base + 1) (b + 1) hi is.1 o.2 host.1 (next l is.1) m
              (omega (arith, o.0, o.1)))
      ]

-- With more fuel than there are bits the climb from the leaf of a key ends, and has found nothing.
pub match_up-none :
    (k : ℕ) (h : Heap) (v : List ℕ) (d : Miss) (key : Ptr → List ℕ) (up top lo hi : ℕ) (l r : Tree)
    → IsTree h key up (inner top lo l r)
    → IsOrdered lo hi (inner top lo l r)
    → IsHostTree h (inner top lo l r)
    → hi < k + lo
    → match_up k k h v d top (descend v (inner top lo l r)) ≡ some null
match_up-none zero h v d key up top lo hi l r is o host fuel = absurd (omega (arith, o.1))
match_up-none (suc k) h v d key up top lo hi l r is o host fuel =
    let next : (t : Tree)
        → IsTree h key top t
        → (m : ℕ) → 1 ≤ m
        → match_up m (suc k) h v d top (root t) ≡ some null =
      λ t is'. elim [
        | zero ↦ λ le. absurd (omega arith)
        | suc m ↦ λ le.
            let (n, at, parent) = root_at h key top t is' in
            match_up-step h v d k top m (root t) top n at parent host.0 (inl refl)
      ] in
    elim (Bool-cases (key_bit v lo)) [
      | inl one ↦ rw one (
          match_up-descend h v d k top key top r 1 (lo + 1) hi is.2 o.3 host.2 (next r is.2) (suc k)
            (omega (arith, o.1)))
      | inr nil ↦ rw nil (
          match_up-descend h v d k top key top l 1 (lo + 1) hi is.1 o.2 host.1 (next l is.1) (suc k)
            (omega (arith, o.1)))
    ]

pub match_chain-null :
    (k : ℕ) (h : Heap) (v : List ℕ) (d : Miss) → 1 ≤ k → match_chain k h v d null ≡ some null
unfolding match_chain
match_chain-null zero h v d le = absurd (omega arith)
match_chain-null (suc k) h v d le = ground arith

pub IsHostLeaf-at : (h : Heap) (v : List ℕ) (t : Tree) → IsHostTree h t → IsHostLeaf h (descend v t)
IsHostLeaf-at h v (leaf p) host = host
IsHostLeaf-at h v (inner p b l r) host = elim (Bool-cases (key_bit v b)) [
  | inl one ↦ rw one (IsHostLeaf-at h v r host.2)
  | inr nil ↦ rw nil (IsHostLeaf-at h v l host.1)
]
