-- ===== src/Radix/Tests/Match.antt =====
-- The theorems on `rn_match` of src/freebsd/radix.c at trees with one host route.
use freebsd_radix_userland.Common.{
  ℕ, ◌≤◌, ◌<◌, ◌≡◌, refl, Bool, true, false, not, ◌&&◌, ◌||◌, some, arith, ltb, ◌==◌, inl, inr,
  Bool-cases,
}
use freebsd_radix_userland.Common.Bytes.{every_below, every_below-at}
use freebsd_radix_userland.Radix.Memory.{Ptr, load}
use freebsd_radix_userland.Radix.Masks.{ones}
use freebsd_radix_userland.Radix.Search.FirstBit.{key_bit}
use freebsd_radix_userland.Radix.Match.{rn_match}
use freebsd_radix_userland.Radix.Tree.{leaf, inner, IsPatricia}
use freebsd_radix_userland.Radix.Tree.Host.{IsHostTree}
use freebsd_radix_userland.Radix.Tree.State.{IsState}
use freebsd_radix_userland.Radix.Tree.State.Init.{zeros}
use freebsd_radix_userland.Radix.Tree.State.Match.{IsHostMatch, rn_match-host}
use freebsd_radix_userland.Radix.Tree.State.Routes.{IsPlain, IsPlainTree, rn_match-rn_insert}
use freebsd_radix_userland.Radix.AddMask.{zero_node}
use freebsd_radix_userland.Radix.Tests.Masks.{all_bytes-IsBytes}
use freebsd_radix_userland.Radix.Tests.Tree.{
  top_node, root_leaf, empty, key, key_a, head, key_a-IsNew, key_a-Entered,
}
use freebsd_radix_userland.Radix.Tests.Walk.{
  inner_node, route_leaf, one_route, one_tree, one_route-IsTree, one_tree-IsDistinct,
}

clear_before : (c : ℕ) → 33 ≤ c → c < 36 → (key_bit zeros c ≡ false) × (key_bit key_a c ≡ false)
unfolding every_below
clear_before c lower upper =
    let test : ℕ → Bool = λ c. ltb c 33 || (not (key_bit zeros c) && not (key_bit key_a c)) in
    let at : test c ≡ true = every_below-at 36 test c refl upper in (ground arith, ground arith)

one_route-IsPatricia : IsPatricia key 32 one_tree
one_route-IsPatricia = (
  (refl, refl),
  refl,
  (λ c lower upper. absurd (omega arith)),
  (refl, refl, (λ c lower upper. let (a, b) = clear_before c lower upper in (false, a, b)), tt, tt),
  tt,
)

one_route-IsState :
    IsState one_route key 101 32 128 (inner 1001 36 (leaf 100) (leaf 1000)) (leaf 102)
one_route-IsState = record {
  tree = one_route-IsTree;
  ordered = (omega arith, omega arith, (omega arith, omega arith, tt, tt), tt);
  patricia = one_route-IsPatricia;
  distinct = one_tree-IsDistinct;
  keys = (
    ((all_bytes-IsBytes zeros refl, omega arith), (all_bytes-IsBytes key_a refl, omega arith)),
    (all_bytes-IsBytes ones refl, omega arith),
  );
  aligned = refl;
}

one_route-IsHostTree : IsHostTree one_route one_tree
unfolding load
one_route-IsHostTree = (
  record { n = record top_node { rn_left = 1001 }; at = refl; mklist = refl },
  (
    record { n = inner_node; at = refl; mklist = refl },
    record {
      n = record (root_leaf 1) { rn_parent = 1001 };
      at = refl;
      mask = refl;
      dupedkey = refl;
    },
    record { n = route_leaf; at = refl; mask = refl; dupedkey = refl },
  ),
  record { n = root_leaf 2; at = refl; mask = refl; dupedkey = refl },
)

rn_match-host_example :
    (p : Ptr) × (rn_match 100 one_route key_a head ≡ some p)
    × IsHostMatch one_route key 4 one_tree key_a p
rn_match-host_example =
    rn_match-host 100 one_route key head 32 128 (inner 1001 36 (leaf 100) (leaf 1000)) (leaf 102)
      key_a one_route-IsState one_route-IsHostTree (all_bytes-IsBytes key_a refl, omega arith) refl
      (omega arith)

empty-IsPlainTree : IsPlainTree empty (inner 101 32 (leaf 100) (leaf 102))
unfolding load
empty-IsPlainTree a m = elim (Bool-cases (a == 101)) [
  | inl top ↦
      let e : a ≡ 101 = ground arith in
      rw e (top_node, refl, record { mask = refl; dupedkey = refl; mklist = refl })
  | inr not_top ↦ elim (Bool-cases (a == 100)) [
    | inl left ↦
        let e : a ≡ 100 = ground arith in
        rw e (root_leaf 1, refl, record { mask = refl; dupedkey = refl; mklist = refl })
    | inr not_left ↦
        let e : a ≡ 102 = ground arith in
        rw e (root_leaf 2, refl, record { mask = refl; dupedkey = refl; mklist = refl })
  ]
]

zero_node-IsPlain : IsPlain zero_node
zero_node-IsPlain = record { mask = refl; dupedkey = refl; mklist = refl }

rn_match-rn_insert_example : rn_match 100 key_a-Entered.g key_a head ≡ some 1000
unfolding load
rn_match-rn_insert_example =
    rn_match-rn_insert 100 empty key head 32 128 (inner 101 32 (leaf 100) (leaf 102)) 1002 1000
      key_a key_a 1000 key_a-Entered key_a-IsNew empty-IsPlainTree
      (zero_node, refl, zero_node-IsPlain) (zero_node, refl, zero_node-IsPlain) (omega arith)
      (inl refl) (all_bytes-IsBytes key_a refl, omega arith) refl (λ i lower upper. refl)
