-- ===== src/RouteLib/LibStubs/Idle.antt =====
-- src/lib/route_lib_stubs.c: what every call keeps, of the statistics and of the lock.
pub mod Calls
use freebsd_radix_userland.Common.{
  ℕ, ◌+◌, ◌%◌, ◌≡◌, refl, Bool, true, false, Option, none, some, List, arith, ◌==◌, and_then,
  Bool-cases, Option-cases, inl, inr,
}
use freebsd_radix_userland.Common.Int.{ℤ, pos, negsuc}
use mathlib.Core.Path.{subst}
use freebsd_radix_userland.RouteLib.{RouteInfo, RouteStats, RadixOps}
use freebsd_radix_userland.RouteLib.LibStubs.{
  free, RibHead, State, rm_wlock, rm_wunlock, rm_rlock, rm_runlock, copy_sockaddr, bsd_malloc,
  added, deleted, hit, missed, changed, add_entry, route_add, delete_entry, route_delete,
  lookup_entry, route_lookup, replace_entry, route_change, radix_walker_adapter, route_walk,
  route_table_create, route_table_destroy, route_lib_init, route_lib_cleanup, count_change,
}

-- The table has as many nodes as routes were added and not deleted.
abbrev pub IsBalanced : RouteStats → Type 0
IsBalanced s = s.rs_adds ≡ (s.rs_nodes + s.rs_deletes) % 18446744073709551616

-- Each lookup was a hit or a miss.
abbrev pub IsSplit : RouteStats → Type 0
IsSplit s = s.rs_lookups ≡ (s.rs_hits + s.rs_misses) % 18446744073709551616

abbrev pub IsIdleRib : {T : Type 0} → RibHead T → Type 0
IsIdleRib rh = (rh.lock ≡ free) × IsBalanced rh.stats × IsSplit rh.stats

abbrev pub OnRib : {T : Type 0} → Option (RibHead T) → Type 0
OnRib none = Unit {0}
OnRib (some rh) = IsIdleRib rh

-- No call is under way: nobody holds the table's lock, and the counters agree.
abbrev pub IsIdle : {T : Type 0} → State T → Type 0
IsIdle s = IsBalanced s.global_stats × OnRib s.rh

IsBalanced-added : (s : RouteStats) → IsBalanced s → IsBalanced (added s)
IsBalanced-added s h = omega (arith, h)

IsBalanced-deleted : (s : RouteStats) → IsBalanced s → IsBalanced (deleted s)
IsBalanced-deleted s h = omega (arith, h)

IsBalanced-changed : (s : RouteStats) → IsBalanced s → IsBalanced (changed s)
IsBalanced-changed s h = omega (arith, h)

IsSplit-hit : (s : RouteStats) → IsSplit s → IsSplit (hit s)
IsSplit-hit s h = omega (arith, h)

IsSplit-missed : (s : RouteStats) → IsSplit s → IsSplit (missed s)
IsSplit-missed s h = omega (arith, h)

-- The result of a computation, if it has one, is as `Q` says.
abbrev pub Ensures : {R : Type 0} → (R → Type 0) → Option R → Type 0
Ensures Q none = Unit {0}
Ensures Q (some r) = Q r

module _ {R : Type 0} (Q : R → Type 0) where
  pub Ensures-and_then :
      {B : Type 0} (m : Option B) (f : B → Option R)
      → ((b : B) → m ≡ some b → Ensures Q (f b))
      → Ensures Q (and_then m f)
  Ensures-and_then none f h = tt
  Ensures-and_then (some b) f h = h b refl

  pub Ensures-some : (m : Option R) (r : R) → Ensures Q m → m ≡ some r → Q r
  Ensures-some m r h e = subst (Ensures Q) e h

module _ {T W : Type 0} (ops : RadixOps T W) where
  add_entry-IsIdle :
      (ri : RouteInfo) (rh : RibHead T) (s : State T)
      → IsIdleRib rh
      → IsBalanced s.global_stats
      → Ensures (λ r. IsIdle r.1) (add_entry ops ri rh s)
  unfolding add_entry rm_wlock rm_wunlock
  add_entry-IsIdle ri rh s (unheld, bal, spl) g =
      let Q : ℤ × State T → Type 0 = λ r. IsIdle r.1 in
      rw unheld (
        Ensures-and_then Q (bsd_malloc s.mallocs) _ λ block e.
          Ensures-and_then Q (copy_sockaddr ri.ri_dst) _ λ dst e₁.
            Ensures-and_then Q (copy_sockaddr ri.ri_netmask) _ λ mask e₂.
              Ensures-and_then Q (copy_sockaddr ri.ri_gateway) _ λ gw e₃.
                Ensures-and_then Q dst _ λ key e₄.
                  elim (Bool-cases (ops.rnh_addaddr key mask block.0 rh.rnh).0) [
                    | inl new ↦ rw new (
                      IsBalanced-added s.global_stats g,
                      (refl, IsBalanced-added rh.stats bal, spl),
                    )
                    | inr there ↦ rw there (g, (refl, bal, spl))
                  ])

  delete_entry-IsIdle :
      (dst : List ℕ) (rh : RibHead T) (s : State T)
      → IsIdleRib rh
      → IsBalanced s.global_stats
      → Ensures (λ r. IsIdle r.1) (delete_entry ops dst rh s)
  unfolding delete_entry rm_wlock rm_wunlock
  delete_entry-IsIdle dst rh s (unheld, bal, spl) g =
      let Q : ℤ × State T → Type 0 = λ r. IsIdle r.1 in
      rw unheld (elim (Bool-cases (ops.rnh_matchaddr dst rh.rnh == 0)) [
        | inl absent ↦ rw absent (g, (refl, bal, spl))
        | inr present ↦ rw present (
            Ensures-and_then Q (s.entry (ops.rnh_matchaddr dst rh.rnh)) _ λ re e.
              Ensures-and_then Q re.dst _ λ key e₁.
                elim (Bool-cases ((ops.rnh_deladdr key re.netmask rh.rnh).0 == 0)) [
                  | inl kept ↦ rw kept (g, (refl, bal, spl))
                  | inr gone ↦ rw gone (
                    IsBalanced-deleted s.global_stats g,
                    (refl, IsBalanced-deleted rh.stats bal, spl),
                  )
                ])
      ])

  lookup_entry-IsIdle :
      (dst : List ℕ) (rh : RibHead T) (s : State T)
      → IsIdleRib rh
      → IsBalanced s.global_stats
      → Ensures (λ r. IsIdle r.2) (lookup_entry ops dst rh s)
  unfolding lookup_entry rm_rlock rm_runlock
  lookup_entry-IsIdle dst rh s (unheld, bal, spl) g =
      let Q : ℤ × Option RouteInfo × State T → Type 0 = λ r. IsIdle r.2 in
      rw unheld (elim (Bool-cases (ops.rnh_matchaddr dst rh.rnh == 0)) [
        | inl absent ↦ rw absent (g, (refl, bal, IsSplit-missed rh.stats spl))
        | inr present ↦ rw present (
            Ensures-and_then Q (s.entry (ops.rnh_matchaddr dst rh.rnh)) _
              λ re e. (g, (refl, bal, IsSplit-hit rh.stats spl)))
      ])

  pub route_add-Ensures :
      (ri : Option RouteInfo) (s : State T)
      → IsIdle s
      → Ensures (λ r. IsIdle r.1) (route_add ops ri s)
  unfolding route_add
  route_add-Ensures none s i = tt
  route_add-Ensures (some ri) s i = elim (Option-cases s.rh) [
    | inl missing ↦ rw missing (i.0, tt)
    | inr (rh, at) ↦ elim (Option-cases ri.ri_dst) [
      | inl missing ↦ rw (at, missing) (i.0, subst OnRib at i.1)
      | inr (dst, given) ↦ rw (at, given) (add_entry-IsIdle ri rh s (subst OnRib at i.1) i.0)
    ]
  ]

  pub route_delete-Ensures :
      (dst netmask : Option (List ℕ)) (s : State T)
      → IsIdle s
      → Ensures (λ r. IsIdle r.1) (route_delete ops dst netmask s)
  unfolding route_delete
  route_delete-Ensures none netmask s i = i
  route_delete-Ensures (some dst) netmask s i = elim (Option-cases s.rh) [
    | inl missing ↦ rw missing (i.0, tt)
    | inr (rh, at) ↦ rw at (delete_entry-IsIdle dst rh s (subst OnRib at i.1) i.0)
  ]

  pub route_lookup-Ensures :
      (dst : Option (List ℕ)) (s : State T)
      → IsIdle s
      → Ensures (λ r. IsIdle r.2) (route_lookup ops dst s)
  unfolding route_lookup
  route_lookup-Ensures none s i = i
  route_lookup-Ensures (some dst) s i = elim (Option-cases s.rh) [
    | inl missing ↦ rw missing (i.0, tt)
    | inr (rh, at) ↦ rw at (lookup_entry-IsIdle dst rh s (subst OnRib at i.1) i.0)
  ]

  count_change-IsIdle : (s : State T) → IsIdle s → IsIdle (count_change ops s)
  count_change-IsIdle s i = (IsBalanced-changed s.global_stats i.0, go s.rh i.1)
    where
      go :
          (o : Option (RibHead T))
          → OnRib o
          → OnRib (elim o [ none ↦ none | some rh ↦ some (record rh { stats = changed rh.stats }) ])
      go none h = tt
      go (some rh) (unheld, bal, spl) = (unheld, IsBalanced-changed rh.stats bal, spl)

  replace_entry-IsIdle :
      (ri : RouteInfo) (s : State T) → IsIdle s → Ensures (λ r. IsIdle r.1) (replace_entry ops ri s)
  unfolding replace_entry
  replace_entry-IsIdle ri s i =
      let Q : ℤ × State T → Type 0 = λ r. IsIdle r.1 in
      Ensures-and_then Q (route_delete ops ri.ri_dst ri.ri_netmask s) _ λ r e. go r.0 r.1 (
        Ensures-some Q (route_delete ops ri.ri_dst ri.ri_netmask s) r
          (route_delete-Ensures ri.ri_dst ri.ri_netmask s i) e)
    where
      last :
          (result : ℤ) (s₂ : State T)
          → IsIdle s₂
          → IsIdle
              (elim result as (λ _. ℤ × State T) [
                | negsuc n ↦ (negsuc n, s₂)
                | pos n ↦ (pos n, count_change ops s₂)
              ]).1
      last (pos n) s₂ i₂ = count_change-IsIdle s₂ i₂
      last (negsuc n) s₂ i₂ = i₂

      go :
          (result : ℤ) (s₁ : State T)
          → IsIdle s₁
          → Ensures
              (λ r. IsIdle r.1)
              (elim result as (λ _. Option (ℤ × State T)) [
                | negsuc n ↦ some (negsuc n, s₁)
                | pos _ ↦ and_then (route_add ops (some ri) s₁) λ r. some (elim r.0 [
                  | negsuc n ↦ (negsuc n, r.1)
                  | pos n ↦ (pos n, count_change ops r.1)
                ])
              ])
      go (negsuc n) s₁ i₁ = i₁
      go (pos n) s₁ i₁ =
          let Q : ℤ × State T → Type 0 = λ r. IsIdle r.1 in
          Ensures-and_then Q (route_add ops (some ri) s₁) _ λ r e.
            last r.0 r.1
              (Ensures-some Q (route_add ops (some ri) s₁) r (route_add-Ensures (some ri) s₁ i₁) e)

  pub route_change-Ensures :
      (ri : Option RouteInfo) (s : State T)
      → IsIdle s
      → Ensures (λ r. IsIdle r.1) (route_change ops ri s)
  unfolding route_change
  route_change-Ensures none s i = tt
  route_change-Ensures (some ri) s i = go s.rh
    where
      go :
          (o : Option (RibHead T))
          → Ensures
              (λ r. IsIdle r.1)
              (elim o as (λ _. Option (ℤ × State T)) [
                | none ↦ some (negsuc 0, s)
                | some _ ↦ replace_entry ops ri s
              ])
      go none = i
      go (some _) = replace_entry-IsIdle ri s i
