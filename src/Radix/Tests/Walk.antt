-- ===== src/Radix/Tests/Walk.antt =====
-- The theorem on `rn_walktree` of src/freebsd/radix.c at a tree with one route.
use freebsd_radix_userland.Common.{
  ℕ, ◌≡◌, refl, sym, ap, false, none, some, List, [], ◌∷◌, arith, ◌==◌, if◌then◌else◌,
}
use freebsd_radix_userland.Common.Int.{pos, negsuc}
use freebsd_radix_userland.Radix.Memory.{Ptr, RadixNode, Heap, load, load_bytes}
use freebsd_radix_userland.Radix.Insert.{active_only}
use freebsd_radix_userland.Radix.AddMask.{zero_node}
use freebsd_radix_userland.Radix.Walk.{rn_walktree}
use freebsd_radix_userland.Radix.Tree.{Tree, leaf, inner, IsTree}
use freebsd_radix_userland.Radix.Tree.Insert.Holds.{IsDistinct}
use freebsd_radix_userland.Radix.Tree.Walk.Loop.{visit, reading, rn_walktree-visit}
use freebsd_radix_userland.Radix.Tests.Tree.{top_node, root_leaf, empty, key, head}

-- The tree with one route between the roots.
abbrev pub inner_node : RadixNode
inner_node = record zero_node {
  rn_parent = 101;
  rn_bit = pos 36;
  rn_bmask = 8;
  rn_flags = active_only;
  rn_offset = 4;
  rn_left = 100;
  rn_right = 1000;
}

abbrev pub route_leaf : RadixNode
route_leaf = record zero_node {
  rn_parent = 1001;
  rn_bit = negsuc 0;
  rn_flags = active_only;
  rn_key = 1002;
}

abbrev pub one_route : Heap
one_route = record empty {
  node = λ p.
      if p == 100
      then some (record (root_leaf 1) { rn_parent = 1001 })
      else if p == 101
      then some (record top_node { rn_left = 1001 })
      else if p == 102
      then some (root_leaf 2)
      else if p == 1000
      then some route_leaf
      else if p == 1001
      then some inner_node
      else none;
}

abbrev pub one_tree : Tree
one_tree = inner 101 32 (inner 1001 36 (leaf 100) (leaf 1000)) (leaf 102)

pub one_route-IsTree : IsTree one_route key 101 one_tree
unfolding load load_bytes
one_route-IsTree = (
  record {
    n = record top_node { rn_left = 1001 };
    at = refl;
    bit = refl;
    bmask = refl;
    offset = refl;
    sons = (refl, refl);
    parent = refl;
  },
  (
    record {
      n = inner_node;
      at = refl;
      bit = refl;
      bmask = refl;
      offset = refl;
      sons = (refl, refl);
      parent = refl;
    },
    record {
      n = record (root_leaf 1) { rn_parent = 1001 };
      at = refl;
      bit = tt;
      parent = refl;
      holds = refl;
    },
    record { n = route_leaf; at = refl; bit = tt; parent = refl; holds = refl },
  ),
  record { n = root_leaf 2; at = refl; bit = tt; parent = refl; holds = refl },
)

pub one_tree-IsDistinct : IsDistinct one_tree
one_tree-IsDistinct =
    (refl, refl, (λ a m. ground arith), (refl, refl, (λ a m. ground arith), tt, tt), tt)

plain : (n : RadixNode) → load one_route 1000 ≡ some n → n.rn_flags.root ≡ false
unfolding load
plain n e = let same : route_leaf ≡ n = cc in ap (λ o. o.rn_flags.root) (sym same)

note : Ptr → List Ptr → ℕ × List Ptr
note p w = (0, p ∷ w)

rn_walktree-visit_example :
    rn_walktree (reading note) 10 head [] one_route ≡ some (visit note (1000 ∷ []) [], one_route)
unfolding load
rn_walktree-visit_example =
    rn_walktree-visit note 10 one_route key head 101 32 (inner 1001 36 (leaf 100) (leaf 1000))
      (leaf 102) 100 102 (1000 ∷ []) [] one_route-IsTree one_tree-IsDistinct ((plain, tt, tt), tt)
      refl
      (record {
        n = record (root_leaf 1) { rn_parent = 1001 };
        at = refl;
        alone = refl;
        flag = refl;
      })
      (record { n = route_leaf; at = refl; alone = refl; flag = refl }, tt)
      (record { n = root_leaf 2; at = refl; alone = refl; flag = refl }) (omega arith)
