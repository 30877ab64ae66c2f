-- ===== src/Radix/Tests/AddRoute.antt =====
-- A failed allocation in `rn_addroute` of src/freebsd/radix.c at an inner node whose list
-- holds the annotation of a shorter mask.
use freebsd_radix_userland.Common.{
  ◌≡◌, refl, true, none, some, [], ◌∷◌, ◌==◌, and_then, if◌then◌else◌,
}
use freebsd_radix_userland.Common.Int.{pos, negsuc}
use freebsd_radix_userland.Radix.Memory.{
  Ptr, RadixNode, RadixMask, Heap, load, load_mask, malloc, modify,
}
use freebsd_radix_userland.Radix.AddMask.{zero_node, no_flags, rn_new_radix_mask}
use freebsd_radix_userland.Radix.AddRoute.{
  Netmask, of_node, read_slot, write_slot, lift, mask_place, annotate,
}
use freebsd_radix_userland.Radix.Tests.Tree.{top_node}

-- The node tests bit 50, and a normal mask of 40 bits is in its list.
abbrev listed : RadixNode
listed = record zero_node { rn_parent = 101; rn_bit = pos 50; rn_mklist = 900 }

abbrev short : RadixMask
short = record {
  rm_bit = negsuc 40;
  rm_flags = record no_flags { normal = true };
  rm_mklist = 0;
  rm_mask = 0;
  rm_leaf = 102;
  rm_refs = pos 0;
}

abbrev full : Heap
full = record {
  node = λ p. if p == 101 then some top_node else if p == 1001 then some listed else none;
  mask = λ p. if p == 900 then some short else none;
  bytes = λ _. none;
  mallocs = 0 ∷ [];
}

-- The new route's mask has 48 bits.
abbrev longer : Netmask
longer = record { x = 800; b_leaf = negsuc 48; b = pos 48; netmask = 802; normal = true }

-- The allocation fails: the leaf comes back, and the list at the node is empty.
annotation_lost :
    and_then {B = Ptr × Ptr}
      (annotate 10 longer 1000 1001 101 full)
      (λ (leaf, g). and_then (read_slot (of_node 1001) g) (λ m. some (leaf, m)))
    ≡ some (1000, 0)
unfolding annotate lift mask_place read_slot write_slot rn_new_radix_mask load load_mask malloc
    modify
annotation_lost = refl
