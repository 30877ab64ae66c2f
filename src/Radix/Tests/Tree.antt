-- ===== src/Radix/Tests/Tree.antt =====
-- The theorems on the tree of src/freebsd/radix.c at a small tree.
use freebsd_radix_userland.Common.{
  ℕ, ◌≡◌, ◌⊎◌, inl, refl, Option, none, some, List, [], ◌∷◌, arith, replicate, ◌==◌, if◌then◌else◌,
}
use freebsd_radix_userland.Common.Int.{pos, negsuc}
use freebsd_radix_userland.Radix.Memory.{Ptr, RadixNode, RadixHead, Heap, load, load_bytes}
use freebsd_radix_userland.Radix.Masks.{ones}
use freebsd_radix_userland.Radix.Search.{rn_search, mismatch}
use freebsd_radix_userland.Radix.Insert.{rn_inithead_internal, root_active}
use freebsd_radix_userland.Radix.AddMask.{zero_node}
use freebsd_radix_userland.Radix.Tree.{leaf, inner, IsTree, IsPatricia}
use freebsd_radix_userland.Radix.Tree.Search.{rn_search-leaf_mem}
use freebsd_radix_userland.Radix.Tree.State.{IsState, IsNew}
use freebsd_radix_userland.Radix.Tree.State.Insert.{
  Found, Entered, rn_insert-Entered, rn_insert-IsState,
}
use freebsd_radix_userland.Radix.Tree.State.Lookup.{rn_search-rn_insert}
use freebsd_radix_userland.Radix.Tree.State.Init.{zeros, base_key, rn_inithead_internal-IsState}
use freebsd_radix_userland.Radix.Tests.Masks.{all_bytes-IsBytes}

-- The bytes that the tests read: `rn_zeros`, `rn_ones` and two keys.
abbrev pub key_a : List ℕ
key_a = 16 ∷ 2 ∷ 0 ∷ 0 ∷ 10 ∷ 0 ∷ 0 ∷ 0 ∷ replicate 8 0

abbrev key_b : List ℕ
key_b = 16 ∷ 2 ∷ 0 ∷ 0 ∷ 10 ∷ 1 ∷ 0 ∷ 0 ∷ replicate 8 0

abbrev bytes : Ptr → Option (List ℕ)
bytes p =
    if p == 1
    then some zeros
    else if p == 2
    then some ones
    else if p == 1002
    then some key_a
    else if p == 1012
    then some key_b
    else none

-- Zeroed memory for the three nodes of a tree and for a pair.
abbrev blank : Heap
blank = record {
  node = λ p. if p == 100 then some zero_node else if p == 101 then some zero_node else none;
  mask = λ _. none;
  bytes = bytes;
  mallocs = [];
}

rn_inithead_internal-IsState_example :
    (g : Heap) × (rn_inithead_internal 100 32 blank ≡ some (101, g))
    × IsState g (base_key 100) 101 32 128 (leaf 100) (leaf 102)
unfolding load load_bytes
rn_inithead_internal-IsState_example =
    rn_inithead_internal-IsState blank 100 32 128 {n₀ = zero_node} {n₁ = zero_node} refl refl refl
      refl refl (omega arith) (omega arith)

-- An empty tree, and zeroed memory for two pairs.
abbrev pub top_node : RadixNode
top_node = record zero_node {
  rn_parent = 101;
  rn_bit = pos 32;
  rn_bmask = 128;
  rn_flags = root_active;
  rn_offset = 4;
  rn_left = 100;
  rn_right = 102;
}

abbrev pub root_leaf : Ptr → RadixNode
root_leaf key = record zero_node {
  rn_parent = 101;
  rn_bit = negsuc 32;
  rn_flags = root_active;
  rn_key = key;
}

abbrev pub empty : Heap
empty = record {
  node = λ p.
      if p == 100
      then some (root_leaf 1)
      else if p == 101
      then some top_node
      else if p == 102
      then some (root_leaf 2)
      else if p == 1000
      then some zero_node
      else if p == 1001
      then some zero_node
      else none;
  mask = λ _. none;
  bytes = bytes;
  mallocs = [];
}

abbrev pub key : Ptr → List ℕ
key p = if p == 100 then zeros else if p == 102 then ones else key_a

abbrev pub head : RadixHead
head = record { rnh_treetop = 101; mask_nodes = 110; mask_treetop = 111 }

empty-IsTree : IsTree empty key 101 (inner 101 32 (leaf 100) (leaf 102))
unfolding load load_bytes
empty-IsTree = (
  record {
    n = top_node;
    at = refl;
    bit = refl;
    bmask = refl;
    offset = refl;
    sons = (refl, refl);
    parent = refl;
  },
  record { n = root_leaf 1; at = refl; bit = tt; parent = refl; holds = refl },
  record { n = root_leaf 2; at = refl; bit = tt; parent = refl; holds = refl },
)

empty-IsPatricia : IsPatricia key 32 (inner 101 32 (leaf 100) (leaf 102))
empty-IsPatricia = (refl, refl, (λ c lower upper. absurd (omega arith)), tt, tt)

empty-IsState : IsState empty key 101 32 128 (leaf 100) (leaf 102)
empty-IsState = record {
  tree = empty-IsTree;
  ordered = (omega arith, omega arith, tt, tt);
  patricia = empty-IsPatricia;
  distinct = (refl, refl, (λ a m. ground arith), tt, tt);
  keys = ((all_bytes-IsBytes zeros refl, omega arith), (all_bytes-IsBytes ones refl, omega arith));
  aligned = refl;
}

pub key_a-IsNew : IsNew empty key 32 128 (inner 101 32 (leaf 100) (leaf 102)) 1002 1000 key_a
unfolding load load_bytes
key_a-IsNew = record {
  holds = refl;
  is_key = (all_bytes-IsBytes key_a refl, omega arith);
  size = omega arith;
  leaf_node = (zero_node, refl);
  inner_node = (zero_node, refl);
  fresh = (refl, refl);
  key_new = refl;
}

rn_insert-IsState_example :
    Found 100 empty key head 32 (inner 101 32 (leaf 100) (leaf 102)) 1002 1000 key_a
    ⊎ Entered 100 empty key head 32 128 (inner 101 32 (leaf 100) (leaf 102)) 1002 1000 key_a
rn_insert-IsState_example =
    rn_insert-IsState 100 empty key head 32 128 (leaf 100) (leaf 102) 1002 1000 key_a empty-IsState
      key_a-IsNew (omega arith)

rn_search-leaf_mem_example : rn_search 100 empty ones 101 ≡ some 102
rn_search-leaf_mem_example =
    rn_search-leaf_mem 100 empty key 101 (inner 101 32 (leaf 100) (leaf 102)) ones 32 128 102
      empty-IsTree empty-IsState.ordered empty-IsPatricia (omega arith) (omega arith) (omega arith)
      refl (λ c lo hi. refl)

pub key_a-Entered :
    Entered 100 empty key head 32 128 (inner 101 32 (leaf 100) (leaf 102)) 1002 1000 key_a
unfolding mismatch
key_a-Entered =
    rn_insert-Entered 100 empty key head 32 128 (leaf 100) (leaf 102) 1002 1000 key_a empty-IsState
      key_a-IsNew (omega arith) 4 10 refl

rn_search-rn_insert_example : rn_search 100 key_a-Entered.g key_a 101 ≡ some 1000
rn_search-rn_insert_example =
    rn_search-rn_insert 100 empty key head 32 128 (inner 101 32 (leaf 100) (leaf 102)) 1002 1000
      key_a key_a 1000 key_a-Entered (omega arith) (inl refl) (omega arith) (λ c lo hi. refl)
