-- ===== src/RouteLib.antt =====
-- src/include/route_lib.h, the types of the routing library, and what the library takes from the
-- radix tree: `struct radix_node_head` with its callbacks.
pub mod LibStubs
mod Tests
use freebsd_radix_userland.Common.{ℕ, ◌+◌, ◌%◌, ◌^◌, Bool, Option, none, some, List}
use freebsd_radix_userland.Common.Int.{ℤ, pos, negsuc}
use freebsd_radix_userland.Radix.Memory.{Ptr}

-- `struct route_info`. A pointer that may be NULL is an `Option`.
pub record RouteInfo : Type 0 where
  pub ri_dst : Option (List ℕ)
  pub ri_netmask : Option (List ℕ)
  pub ri_gateway : Option (List ℕ)
  pub ri_flags : ℤ
  pub ri_ifindex : ℤ
  pub ri_fibnum : ℕ

-- `struct route_stats`; an `u_long` has 64 bits.
pub record RouteStats : Type 0 where
  pub rs_lookups : ℕ
  pub rs_hits : ℕ
  pub rs_misses : ℕ
  pub rs_adds : ℕ
  pub rs_deletes : ℕ
  pub rs_changes : ℕ
  pub rs_nodes : ℕ

abbrev pub zero_stats : RouteStats
zero_stats = record {
  rs_lookups = 0;
  rs_hits = 0;
  rs_misses = 0;
  rs_adds = 0;
  rs_deletes = 0;
  rs_changes = 0;
  rs_nodes = 0;
}

-- `n++` and `n--` on an `u_long`.
abbrev pub inc : ℕ → ℕ
inc n = (n + 1) % 18446744073709551616

abbrev pub dec : ℕ → ℕ
dec n = (n + 18446744073709551615) % 18446744073709551616

abbrev pub route_ok : ℤ
route_ok = pos 0

abbrev pub route_einval : ℤ
route_einval = negsuc 0

abbrev pub route_enoent : ℤ
route_enoent = negsuc 1

abbrev pub route_eexist : ℤ
route_eexist = negsuc 2

abbrev pub route_enomem : ℤ
route_enomem = negsuc 3

-- The operations of a radix tree, on trees `T` and with callbacks that change a state `W`.
-- `rn_inithead` gives no tree where it returns 0. A new leaf stands at the block for its nodes, and
-- `rnh_addaddr` says whether it returns one. `rnh_walktree` gives the callback each leaf and whether
-- it has the flag RNF_ROOT; a callback may crash.
pub record RadixOps (T W : Type 0) : Type 0 where
  pub rn_inithead : ℕ → Option T
  pub rnh_addaddr : (dst : List ℕ) (netmask : Option (List ℕ)) (nodes : Ptr) → T → Bool × T
  pub rnh_deladdr : (dst : List ℕ) (netmask : Option (List ℕ)) → T → Ptr × T
  pub rnh_matchaddr : List ℕ → T → Ptr
  pub rnh_walktree : (Ptr → Bool → W → Option (ℤ × W)) → T → W → Option (ℤ × W)
