-- ===== src/RouteLib/Tests.antt =====
-- The routing library over the table of src/radix_stubs.c, at a few routes.
use freebsd_radix_userland.Common.{
  ℕ, ◌≡◌, refl, not, true, false, none, some, List, [], ◌∷◌, ◌++◌, replicate, ◌==◌, if◌then◌else◌,
  arith,
}
use freebsd_radix_userland.Common.Int.{pos, ◌+ℤ◌, ◌-ℤ◌}
use freebsd_radix_userland.Radix.Memory.{Ptr, null, update}
use freebsd_radix_userland.Stubs.{
  StubHead, as_int, store, store_mask, stub_addaddr, stub_deladdr, stub_matchaddr, rn_inithead,
  match_loop, addr_matches, better, delete_loop, exact_match, mask_match,
}
use freebsd_radix_userland.Radix.Search.{same_bytes}
use freebsd_radix_userland.RouteLib.{RouteInfo, RadixOps, zero_stats, route_ok}
use freebsd_radix_userland.RouteLib.LibStubs.{
  RouteEntry, RibHead, State, free, added, deleted, copy_sockaddr, bsd_malloc, route_add,
  delete_entry, rm_wlock, rm_wunlock, route_delete, route_lookup,
}
use freebsd_radix_userland.RouteLib.LibStubs.Idle.{IsIdle}
use freebsd_radix_userland.RouteLib.LibStubs.Idle.Calls.{Call, add, Call-IsIdle}
use freebsd_radix_userland.RouteLib.LibStubs.Entries.{route_lookup-route_add}

-- The operations of the stub as those of a tree; a fault counts as a refusal.
abbrev stub_ops : RadixOps StubHead (List Ptr)
stub_ops = record {
  rn_inithead = λ off. (rn_inithead 1 off).1;
  rnh_addaddr = λ dst netmask nodes rh. elim (stub_addaddr nodes (some dst) netmask rh) [
    | none ↦ (false, rh)
    | some (p, rh') ↦ (not (p == null), rh')
  ];
  rnh_deladdr = λ dst netmask rh. elim (stub_deladdr (some dst) netmask rh) [
    | none ↦ (null, rh)
    | some r ↦ r
  ];
  rnh_matchaddr = λ dst rh. elim (stub_matchaddr (some dst) rh) [ none ↦ null | some p ↦ p ];
  rnh_walktree = λ f rh w. none;
}

abbrev sin : ℕ → ℕ → List ℕ
sin a b = 16 ∷ 2 ∷ 0 ∷ 0 ∷ a ∷ b ∷ replicate 10 0

abbrev stored : ℕ → ℕ → List ℕ
stored a b = sin a b ++ replicate 112 0

-- 10/8 is asked for, and 10/8 is in the table at 500.
abbrev info : RouteInfo
info = record {
  ri_dst = some (sin 10 0);
  ri_netmask = some (sin 255 0);
  ri_gateway = none;
  ri_flags = pos 1;
  ri_ifindex = pos 3;
  ri_fibnum = 7;
}

abbrev bare : StubHead
bare = record { entries = []; count = pos 0 }

abbrev grown : StubHead
grown = record {
  entries = record { at = 500; dst = stored 10 0; mask = stored 255 0 } ∷ [];
  count = pos 1;
}

abbrev rib : StubHead → RibHead StubHead
rib t = record { rnh = t; family = 2; fibnum = 0; stats = zero_stats; lock = free }

abbrev route : RouteEntry
route = record {
  dst = some (stored 10 0);
  netmask = some (stored 255 0);
  gateway = none;
  flags = pos 1;
  ifindex = pos 3;
  fibnum = 0;
}

abbrev state : StubHead → State StubHead
state t = record {
  lib_initialized = true;
  global_stats = zero_stats;
  rh = some (rib t);
  entry = λ p. if p == 500 then some route else none;
  mallocs = 500 ∷ [];
}

-- The route to 10/8 is deleted though the caller names 10.1/16.
other_mask :
    route_delete stub_ops (some (sin 10 1)) (some (sin 255 255)) (state grown)
    ≡ some (
      route_ok,
      record (state grown) {
        rh = some (record (rib grown) { rnh = bare; stats = deleted zero_stats; lock = free });
        global_stats = deleted zero_stats;
        entry = update (state grown).entry 500 none;
      },
    )
unfolding stub_matchaddr match_loop addr_matches better stub_deladdr delete_loop exact_match
    mask_match same_bytes as_int ◌-ℤ◌ route_delete delete_entry rm_wlock rm_wunlock
other_mask = refl

route_lookup-route_add_example :
    (s₁ s₂ : State StubHead) × (route_add stub_ops (some info) (state bare) ≡ some (route_ok, s₁))
    × (route_lookup stub_ops (some (sin 10 9)) s₁
        ≡ some (
          route_ok,
          some (record info {
            ri_dst = some (stored 10 0);
            ri_netmask = some (stored 255 0);
            ri_gateway = none;
            ri_fibnum = 0;
          }),
          s₂,
        ))
unfolding stub_matchaddr match_loop addr_matches better stub_addaddr store store_mask copy_sockaddr
    bsd_malloc as_int ◌+ℤ◌
route_lookup-route_add_example =
    route_lookup-route_add stub_ops (state bare) (rib bare) info (sin 10 0) (sin 10 9) (stored 10 0)
      (some (stored 255 0)) none 500 [] grown refl refl refl refl refl refl refl (omega arith) refl
      refl

abbrev with_route : State StubHead
with_route = record (state bare) {
  rh = some (record (rib bare) { rnh = grown; stats = added zero_stats; lock = free });
  global_stats = added zero_stats;
  entry = update (state bare).entry 500 (some route);
  mallocs = [];
}

adds : Call stub_ops (state bare) with_route
unfolding route_add stub_addaddr store store_mask copy_sockaddr bsd_malloc as_int ◌+ℤ◌
adds = add (some info) route_ok (state bare) with_route refl

Call-IsIdle_example : IsIdle with_route
Call-IsIdle_example = Call-IsIdle stub_ops (state bare) with_route adds (refl, (refl, refl, refl))
