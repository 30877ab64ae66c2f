-- ===== src/Radix/Tree.antt =====
-- What the nodes of src/freebsd/radix.c stand for: a binary tree of leaves, each node with the bit that
-- it tests, and the keys that its leaves hold.
pub mod Search
pub mod Insert
pub mod State
pub mod Walk
pub mod Host
use freebsd_radix_userland.Common.{
  ℕ, zero, suc, ◌+◌, ◌*◌, ◌/◌, ◌%◌, ◌^◌, ◌≤◌, ◌<◌, ◌≡◌, Bool, true, false, ◌||◌, Option, none, some,
  List, ◌==◌, if◌then◌else◌,
}
use freebsd_radix_userland.Common.Int.{ℤ, pos, negsuc}
use freebsd_radix_userland.Radix.Memory.{Ptr, RadixNode, Heap, load, load_bytes}
use freebsd_radix_userland.Radix.Search.FirstBit.{key_bit}

pub data Tree : Type 0 where
  leaf : Ptr → Tree
  inner : Ptr → ℕ → Tree → Tree → Tree

-- The address of the top of a tree, and whether an address belongs to it.
abbrev pub root : Tree → Ptr
root (leaf p) = p
root (inner p b l r) = p

abbrev pub has : Ptr → Tree → Bool
has a (leaf p) = a == p
has a (inner p b l r) = (a == p) || (has a l || has a r)

abbrev pub IsLeafBit : ℤ → Type 0
IsLeafBit (pos n) = ⊥
IsLeafBit (negsuc n) = Unit {0}

-- A leaf at `p` under `up`, with key `key`.
pub record IsLeafAt (h : Heap) (up p : Ptr) (key : List ℕ) : Type 0 where
  pub n : RadixNode
  pub at : load h p ≡ some n
  pub bit : IsLeafBit n.rn_bit
  pub parent : n.rn_parent ≡ up
  pub holds : load_bytes h n.rn_key ≡ some key

-- An inner node at `p` under `up` that tests bit `b`, with its two sons.
pub record IsInnerAt (h : Heap) (up p : Ptr) (b : ℕ) (left right : Ptr) : Type 0 where
  pub n : RadixNode
  pub at : load h p ≡ some n
  pub bit : n.rn_bit ≡ pos b
  pub bmask : n.rn_bmask ≡ 128 / 2 ^ (b % 8)
  pub offset : n.rn_offset ≡ b / 8
  pub sons : (n.rn_left ≡ left) × (n.rn_right ≡ right)
  pub parent : n.rn_parent ≡ up

-- The heap holds the tree under `up`, and the leaf at `p` has the key `key p`.
abbrev pub IsTree : Heap → (Ptr → List ℕ) → Ptr → Tree → Type 0
IsTree h key up (leaf p) = IsLeafAt h up p (key p)
IsTree h key up (inner p b l r) =
    IsInnerAt h up p b (root l) (root r) × IsTree h key p l × IsTree h key p r

-- The leaf to which the bits of a key lead.
abbrev pub descend : List ℕ → Tree → Ptr
descend v (leaf p) = p
descend v (inner p b l r) = if key_bit v b then descend v r else descend v l

-- The bits that are tested grow on the way down, from `lo` on, and stay below `hi`.
abbrev pub IsOrdered : ℕ → ℕ → Tree → Type 0
IsOrdered lo hi (leaf p) = Unit {0}
IsOrdered lo hi (inner p b l r) =
    (lo ≤ b) × (b < hi) × IsOrdered (b + 1) hi l × IsOrdered (b + 1) hi r

abbrev pub AllLeaves : (Ptr → Type 0) → Tree → Type 0
AllLeaves P (leaf p) = P p
AllLeaves P (inner p b l r) = AllLeaves P l × AllLeaves P r

abbrev pub leaf_mem : Ptr → Tree → Bool
leaf_mem q (leaf p) = q == p
leaf_mem q (inner p b l r) = leaf_mem q l || leaf_mem q r

-- "All descendants of a node have keys whose bits all agree up to position rn_bit - 1", from bit
-- `lo` on; those on its left have a zero there and those on its right a one.
abbrev pub IsPatricia : (Ptr → List ℕ) → ℕ → Tree → Type 0
IsPatricia key lo (leaf p) = Unit {0}
IsPatricia key lo (inner p b l r) =
    AllLeaves (λ q. key_bit (key q) b ≡ false) l
    × AllLeaves (λ q. key_bit (key q) b ≡ true) r
    × ((c : ℕ)
        → lo ≤ c
        → c < b
        → (w : Bool) × AllLeaves (λ q. key_bit (key q) c ≡ w) l
          × AllLeaves (λ q. key_bit (key q) c ≡ w) r)
    × IsPatricia key (b + 1) l
    × IsPatricia key (b + 1) r
