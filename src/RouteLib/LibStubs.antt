-- ===== src/RouteLib/LibStubs.antt =====
-- src/lib/route_lib_stubs.c: routing tables over a radix tree, with statistics and a lock. Its lines
-- of debugging output are left out. `none` is a crash, an abort of `bsd_malloc`, or a wait for a lock
-- that the caller itself holds.
pub mod Idle
pub mod Entries
use freebsd_radix_userland.Common.{
  ℕ, zero, suc, ◌+◌, ◌-◌, Bool, true, false, Option, none, some, List, [], ◌∷◌, ◌==◌, if◌then◌else◌,
  and_then,
}
use freebsd_radix_userland.Common.Int.{ℤ, pos, negsuc}
use freebsd_radix_userland.Common.Steps.{◌>>=◌}
use freebsd_radix_userland.Radix.Memory.{Ptr, null, update}
use freebsd_radix_userland.Sockaddr.{store}
use freebsd_radix_userland.RouteLib.{
  RouteInfo, RouteStats, zero_stats, inc, dec, route_ok, route_einval, route_enoent, route_eexist,
  RadixOps,
}

-- `struct route_entry`: `dst`, `netmask` and `gateway` are NULL or point to the entry's own storage.
pub record RouteEntry : Type 0 where
  pub dst : Option (List ℕ)
  pub netmask : Option (List ℕ)
  pub gateway : Option (List ℕ)
  pub flags : ℤ
  pub ifindex : ℤ
  pub fibnum : ℕ

-- A `struct rmlock`: who holds it.
pub data Lock : Type 0 where
  free : Lock
  written : Lock
  read : ℕ → Lock

unfoldable pub rm_wlock : Lock → Option Lock
rm_wlock free = some written
rm_wlock written = none
rm_wlock (read n) = none

unfoldable pub rm_wunlock : Lock → Option Lock
rm_wunlock free = none
rm_wunlock written = some free
rm_wunlock (read n) = none

-- `read n` is held by n + 1 readers.
unfoldable pub rm_rlock : Lock → Option Lock
rm_rlock free = some (read 0)
rm_rlock written = none
rm_rlock (read n) = some (read (suc n))

unfoldable pub rm_runlock : Lock → Option Lock
rm_runlock free = none
rm_runlock written = none
rm_runlock (read zero) = some free
rm_runlock (read (suc n)) = some (read n)

-- `struct rib_head`
pub record RibHead (T : Type 0) : Type 0 where
  pub rnh : T
  pub family : ℕ
  pub fibnum : ℕ
  pub stats : RouteStats
  pub lock : Lock

-- The global variables, the route entries in memory and the blocks that the allocator will return.
-- `rh` is the table that the calls are for, NULL if they are given none.
pub record State (T : Type 0) : Type 0 where
  pub lib_initialized : Bool
  pub global_stats : RouteStats
  pub rh : Option (RibHead T)
  pub entry : Ptr → Option RouteEntry
  pub mallocs : List Ptr

-- `copy_sockaddr`
unfoldable pub copy_sockaddr : Option (List ℕ) → Option (Option (List ℕ))
unfolding store
copy_sockaddr none = some none
copy_sockaddr (some src) = and_then (store src) (λ x. some (some x))

-- `bsd_malloc` with M_WAITOK: it aborts where `malloc` returns NULL.
unfoldable pub bsd_malloc : List Ptr → Option (Ptr × List Ptr)
bsd_malloc [] = none
bsd_malloc (p ∷ ps) = if p == null then none else some (p, ps)

-- The counters of one call, on the table's statistics and on the global ones.
abbrev pub added : RouteStats → RouteStats
added s = record s { rs_adds = inc s.rs_adds; rs_nodes = inc s.rs_nodes }

abbrev pub deleted : RouteStats → RouteStats
deleted s = record s { rs_deletes = inc s.rs_deletes; rs_nodes = dec s.rs_nodes }

abbrev pub hit : RouteStats → RouteStats
hit s = record s { rs_lookups = inc s.rs_lookups; rs_hits = inc s.rs_hits }

abbrev pub missed : RouteStats → RouteStats
missed s = record s { rs_lookups = inc s.rs_lookups; rs_misses = inc s.rs_misses }

abbrev pub changed : RouteStats → RouteStats
changed s = record s {
  rs_changes = inc s.rs_changes;
  rs_adds = dec s.rs_adds;
  rs_deletes = dec s.rs_deletes;
}

abbrev pub lone_miss : RouteStats → RouteStats
lone_miss s = record s { rs_misses = inc s.rs_misses }

-- The `struct route_info` that `route_lookup` and the walk fill in.
abbrev pub info_of : RouteEntry → RouteInfo
info_of re = record {
  ri_dst = re.dst;
  ri_netmask = re.netmask;
  ri_gateway = re.gateway;
  ri_flags = re.flags;
  ri_ifindex = re.ifindex;
  ri_fibnum = re.fibnum;
}

module _ {T W : Type 0} (ops : RadixOps T W) where
  unfoldable pub route_lib_init : State T → ℤ × State T
  route_lib_init s =
      if s.lib_initialized
      then (route_ok, s)
      else (route_ok, record s { global_stats = zero_stats; lib_initialized = true })

  unfoldable pub route_lib_cleanup : State T → State T
  route_lib_cleanup s = record s { lib_initialized = false }

  -- `rm_init` is whether `rm_init_flags` succeeds. The head's own block cannot be missing, since
  -- `bsd_malloc` aborts.
  unfoldable pub route_table_create : (rm_init : Bool) (family fibnum : ℕ) → State T → State T
  route_table_create rm_init family fibnum s = elim (ops.rn_inithead 32) [
    | none ↦ record s { rh = none }
    | some rnh ↦ record s {
      rh =
          if rm_init
          then some (record {
            rnh = rnh;
            family = family;
            fibnum = fibnum;
            stats = zero_stats;
            lock = free;
          })
          else none;
    }
  ]

  -- The routes' entries stay in memory.
  unfoldable pub route_table_destroy : State T → State T
  route_table_destroy s = record s { rh = none }

  -- `route_add` behind its checks, on the table `rh`.
  unfoldable pub add_entry : RouteInfo → RibHead T → State T → Option (ℤ × State T)
  unfolding copy_sockaddr bsd_malloc rm_wlock rm_wunlock
  add_entry ri rh s = do
    lock ← rm_wlock rh.lock
    (p, rest) ← bsd_malloc s.mallocs
    dst ← copy_sockaddr ri.ri_dst
    netmask ← copy_sockaddr ri.ri_netmask
    gateway ← copy_sockaddr ri.ri_gateway
    let re : RouteEntry = record {
      dst = dst;
      netmask = netmask;
      gateway = gateway;
      flags = ri.ri_flags;
      ifindex = ri.ri_ifindex;
      fibnum = rh.fibnum;
    }
    key ← dst
    unlocked ← rm_wunlock lock
    let (rn, tree) = ops.rnh_addaddr key netmask p rh.rnh
    some (
        if rn
        then (
          route_ok,
          record s {
            rh = some (record rh { rnh = tree; stats = added rh.stats; lock = unlocked });
            global_stats = added s.global_stats;
            entry = update s.entry p (some re);
            mallocs = rest;
          },
        )
        else (
          route_eexist,
          record s {
            rh = some (record rh { rnh = tree; lock = unlocked });
            entry = update s.entry p none;
            mallocs = rest;
          },
        ))

  -- The debugging output reads `ri->ri_dst` before `ri` is compared with NULL.
  unfoldable pub route_add : Option RouteInfo → State T → Option (ℤ × State T)
  unfolding add_entry
  route_add none s = none
  route_add (some ri) s = elim s.rh [
    | none ↦ some (route_einval, s)
    | some rh ↦ elim ri.ri_dst [ none ↦ some (route_einval, s) | some _ ↦ add_entry ri rh s ]
  ]

  -- `route_delete` behind its checks. `find_rn` is the address of the entry, too.
  unfoldable pub delete_entry : List ℕ → RibHead T → State T → Option (ℤ × State T)
  unfolding rm_wlock rm_wunlock
  delete_entry dst rh s = do
    lock ← rm_wlock rh.lock
    unlocked ← rm_wunlock lock
    let find_rn = ops.rnh_matchaddr dst rh.rnh
    if find_rn == null
        then some (route_enoent, record s { rh = some (record rh { lock = unlocked }) })
        else do
          re ← s.entry find_rn
          key ← re.dst
          let (rn, tree) = ops.rnh_deladdr key re.netmask rh.rnh
          some (
              if rn == null
              then (
                route_enoent,
                record s { rh = some (record rh { rnh = tree; lock = unlocked }) },
              )
              else (
                route_ok,
                record s {
                  rh = some (record rh { rnh = tree; stats = deleted rh.stats; lock = unlocked });
                  global_stats = deleted s.global_stats;
                  entry = update s.entry find_rn none;
                },
              ))

  unfoldable pub route_delete : (dst netmask : Option (List ℕ)) → State T → Option (ℤ × State T)
  unfolding delete_entry
  route_delete none netmask s = some (route_einval, s)
  route_delete (some dst) netmask s = elim s.rh [
    | none ↦ some (route_einval, s)
    | some rh ↦ delete_entry dst rh s
  ]

  -- The result comes with `*ri_out`, where it is filled in.
  unfoldable pub lookup_entry :
      List ℕ → RibHead T → State T → Option (ℤ × Option RouteInfo × State T)
  unfolding rm_rlock rm_runlock
  lookup_entry dst rh s = do
    lock ← rm_rlock rh.lock
    unlocked ← rm_runlock lock
    let rn = ops.rnh_matchaddr dst rh.rnh
    if rn == null
        then some (
          route_enoent,
          none,
          record s {
            rh = some (record rh { stats = missed rh.stats; lock = unlocked });
            global_stats = missed s.global_stats;
          },
        )
        else do
          re ← s.entry rn
          some (
            route_ok,
            some (info_of re),
            record s {
              rh = some (record rh { stats = hit rh.stats; lock = unlocked });
              global_stats = hit s.global_stats;
            },
          )

  unfoldable pub route_lookup : Option (List ℕ) → State T → Option (ℤ × Option RouteInfo × State T)
  unfolding lookup_entry
  route_lookup none s =
      some (route_einval, none, record s { global_stats = lone_miss s.global_stats })
  route_lookup (some dst) s = elim s.rh [
    | none ↦ some (route_einval, none, record s { global_stats = lone_miss s.global_stats })
    | some rh ↦ lookup_entry dst rh s
  ]

  -- The counters of a change, on the table that the call is for.
  abbrev pub count_change : State T → State T
  count_change s = record s {
    rh = elim s.rh [ none ↦ none | some rh ↦ some (record rh { stats = changed rh.stats }) ];
    global_stats = changed s.global_stats;
  }

  -- `route_change` behind its checks; a negative result is an error.
  unfoldable pub replace_entry : RouteInfo → State T → Option (ℤ × State T)
  unfolding route_delete route_add
  replace_entry ri s = do
    (result, s₁) ← route_delete ri.ri_dst ri.ri_netmask s
    elim result [
      | negsuc n ↦ some (negsuc n, s₁)
      | pos _ ↦ do
        (result₂, s₂) ← route_add (some ri) s₁
        some (elim result₂ [ negsuc n ↦ (negsuc n, s₂) | pos n ↦ (pos n, count_change s₂) ])
    ]

  unfoldable pub route_change : Option RouteInfo → State T → Option (ℤ × State T)
  unfolding replace_entry
  route_change none s = none
  route_change (some ri) s = elim s.rh [ none ↦ some (negsuc 0, s) | some _ ↦ replace_entry ri s ]

  -- `radix_walker_adapter`; a leaf that is no root is a route's entry.
  unfoldable pub radix_walker_adapter :
      (RouteInfo → W → Option (ℤ × W)) → (Ptr → Option RouteEntry) → Ptr → Bool → W → Option (ℤ × W)
  radix_walker_adapter walker entry rn root w =
      if root then some (pos 0, w) else and_then (entry rn) (λ re. walker (info_of re) w)

  unfoldable pub route_walk :
      Option (RouteInfo → W → Option (ℤ × W)) → W → State T → Option (ℤ × W × State T)
  unfolding radix_walker_adapter rm_rlock rm_runlock
  route_walk none w s = some (negsuc 0, w, s)
  route_walk (some walker) w s = elim s.rh [
    | none ↦ some (negsuc 0, w, s)
    | some rh ↦ do
      lock ← rm_rlock rh.lock
      unlocked ← rm_runlock lock
      (result, w') ← ops.rnh_walktree (radix_walker_adapter walker s.entry) rh.rnh w
      some (result, w', record s { rh = some (record rh { lock = unlocked }) })
  ]

  -- The statistics are the global ones, whatever the table; `given` is whether `stats` is not NULL.
  unfoldable pub route_get_stats : (given : Bool) → State T → ℤ × Option RouteStats
  route_get_stats given s = if given then (pos 0, some s.global_stats) else (negsuc 0, none)
