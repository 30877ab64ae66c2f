-- ===== src/RouteLib/LibStubs/Entries.antt =====
-- src/lib/route_lib_stubs.c: what the calls do to the entries, for what the radix tree returns.
use freebsd_radix_userland.Common.{ℕ, ◌≡◌, ◌≢◌, refl, true, false, Option, some, List, arith, ◌==◌}
use freebsd_radix_userland.Radix.Memory.{Ptr, null, update}
use freebsd_radix_userland.RouteLib.{RouteInfo, route_ok, RadixOps}
use freebsd_radix_userland.RouteLib.LibStubs.{
  RouteEntry, free, RibHead, State, rm_wlock, rm_wunlock, rm_rlock, rm_runlock, copy_sockaddr,
  bsd_malloc, added, hit, add_entry, route_add, lookup_entry, route_lookup,
}

module _ {T W : Type 0} (ops : RadixOps T W) where
  -- `route_add` on an idle table, where the tree takes the new leaf, returns ROUTE_OK; and from there
  -- `route_lookup` for an address whose best match in the grown tree is that leaf returns ROUTE_OK and
  -- what the caller gave, copied, but with the number of the table in place of `ri_fibnum`.
  pub route_lookup-route_add :
      (s : State T) (rh : RibHead T) (ri : RouteInfo) (d w dst : List ℕ) (mask gw : Option (List ℕ))
      (p : Ptr) (rest : List Ptr) (tree : T)
      → s.rh ≡ some rh
      → rh.lock ≡ free
      → bsd_malloc s.mallocs ≡ some (p, rest)
      → ri.ri_dst ≡ some d
      → copy_sockaddr ri.ri_dst ≡ some (some dst)
      → copy_sockaddr ri.ri_netmask ≡ some mask
      → copy_sockaddr ri.ri_gateway ≡ some gw
      → p ≢ null
      → ops.rnh_addaddr dst mask p rh.rnh ≡ (true, tree)
      → ops.rnh_matchaddr w tree ≡ p
      → (s₁ s₂ : State T) × (route_add ops (some ri) s ≡ some (route_ok, s₁))
        × (route_lookup ops (some w) s₁
            ≡ some (
              route_ok,
              some (record ri {
                ri_dst = some dst;
                ri_netmask = mask;
                ri_gateway = gw;
                ri_fibnum = rh.fibnum;
              }),
              s₂,
            ))
  unfolding route_add add_entry route_lookup lookup_entry rm_wlock rm_wunlock rm_rlock rm_runlock
  route_lookup-route_add s rh ri d w dst mask gw p rest tree at unheld block given cd cm cg ne grown
        best =
      let there : (p == 0) ≡ false = ground arith in
      let same : (p == p) ≡ true = ground arith in
      let re : RouteEntry = record {
        dst = some dst;
        netmask = mask;
        gateway = gw;
        flags = ri.ri_flags;
        ifindex = ri.ri_ifindex;
        fibnum = rh.fibnum;
      } in
      let s₁ : State T = record s {
        rh = some (record rh { rnh = tree; stats = added rh.stats; lock = free });
        global_stats = added s.global_stats;
        entry = update s.entry p (some re);
        mallocs = rest;
      } in
      (
        s₁,
        record s₁ {
          rh = some (record rh { rnh = tree; stats = hit (added rh.stats); lock = free });
          global_stats = hit (added s.global_stats);
        },
        rw (at, given, unheld, block, cd, cm, cg, grown) refl,
        rw (best, there, same) refl,
      )
