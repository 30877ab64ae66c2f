-- ===== src/RouteLib/LibStubs/Idle/Calls.antt =====
-- src/lib/route_lib_stubs.c: all calls of the library as steps from state to state.
use freebsd_radix_userland.Common.{
  ℕ, ◌≡◌, refl, Bool, true, false, Option, none, some, List, Bool-cases, Option-cases, inl, inr,
}
use freebsd_radix_userland.Common.Int.{ℤ}
use mathlib.Core.Path.{subst}
use freebsd_radix_userland.RouteLib.{RouteInfo, RadixOps}
use freebsd_radix_userland.RouteLib.LibStubs.{
  State, rm_rlock, rm_runlock, route_add, route_delete, route_lookup, route_change,
  radix_walker_adapter, route_walk, route_table_create, route_table_destroy, route_lib_init,
  route_lib_cleanup,
}
use freebsd_radix_userland.RouteLib.LibStubs.Idle.{
  OnRib, IsIdle, Ensures, Ensures-and_then, Ensures-some, route_add-Ensures, route_delete-Ensures,
  route_lookup-Ensures, route_change-Ensures,
}

module _ {T W : Type 0} (ops : RadixOps T W) where
  -- One call of the library, from the state before it to the state behind it.
  pub data Call : State T → State T → Type 0 where
    init : (s : State T) → Call s (route_lib_init ops s).1
    cleanup : (s : State T) → Call s (route_lib_cleanup ops s)
    create :
        (rm_init : Bool) (family fibnum : ℕ) (s : State T)
        → Call s (route_table_create ops rm_init family fibnum s)
    destroy : (s : State T) → Call s (route_table_destroy ops s)
    add :
        (ri : Option RouteInfo) (r : ℤ) (s s' : State T)
        → route_add ops ri s ≡ some (r, s')
        → Call s s'
    delete :
        (dst netmask : Option (List ℕ)) (r : ℤ) (s s' : State T)
        → route_delete ops dst netmask s ≡ some (r, s')
        → Call s s'
    lookup :
        (dst : Option (List ℕ)) (r : ℤ) (out : Option RouteInfo) (s s' : State T)
        → route_lookup ops dst s ≡ some (r, out, s')
        → Call s s'
    change :
        (ri : Option RouteInfo) (r : ℤ) (s s' : State T)
        → route_change ops ri s ≡ some (r, s')
        → Call s s'
    walk :
        (walker : Option (RouteInfo → W → Option (ℤ × W))) (w w' : W) (r : ℤ) (s s' : State T)
        → route_walk ops walker w s ≡ some (r, w', s')
        → Call s s'

  route_walk-Ensures :
      (walker : Option (RouteInfo → W → Option (ℤ × W))) (w : W) (s : State T)
      → IsIdle s
      → Ensures (λ r. IsIdle r.2) (route_walk ops walker w s)
  unfolding route_walk rm_rlock rm_runlock
  route_walk-Ensures none w s i = i
  route_walk-Ensures (some walker) w s i =
      let Q : ℤ × W × State T → Type 0 = λ r. IsIdle r.2 in
      elim (Option-cases s.rh) [
        | inl missing ↦ rw missing (i.0, tt)
        | inr (rh, at) ↦
            let (unheld, bal, spl) = subst OnRib at i.1 in
            rw (at, unheld)
              (Ensures-and_then Q
                (ops.rnh_walktree (radix_walker_adapter ops walker s.entry) rh.rnh w) _
                λ r e. (i.0, (refl, bal, spl)))
      ]

  route_lib_init-IsIdle : (s : State T) → IsIdle s → IsIdle (route_lib_init ops s).1
  unfolding route_lib_init
  route_lib_init-IsIdle s i = elim (Bool-cases s.lib_initialized) [
    | inl already ↦ rw already (i.0, i.1)
    | inr fresh ↦ rw fresh (refl, i.1)
  ]

  route_table_create-IsIdle :
      (rm_init : Bool) (family fibnum : ℕ) (s : State T)
      → IsIdle s
      → IsIdle (route_table_create ops rm_init family fibnum s)
  unfolding route_table_create
  route_table_create-IsIdle true family fibnum s i = elim (Option-cases (ops.rn_inithead 32)) [
    | inl failed ↦ rw (route_table_create, failed) (i.0, tt)
    | inr (rnh, made) ↦ rw (route_table_create, made) (i.0, (refl, refl, refl))
  ]
  route_table_create-IsIdle false family fibnum s i = elim (Option-cases (ops.rn_inithead 32)) [
    | inl failed ↦ rw (route_table_create, failed) (i.0, tt)
    | inr (rnh, made) ↦ rw (route_table_create, made) (i.0, tt)
  ]

  -- Every call of the library that returns, on each of its branches, leaves the table's lock free if
  -- it was, and keeps these: modulo 2^64 the additions counted for a table, and those counted
  -- globally, are its nodes and its deletions, and the lookups of a table are its hits and its misses.
  pub Call-IsIdle : (s s' : State T) → Call s s' → IsIdle s → IsIdle s'
  unfolding route_lib_cleanup route_table_destroy
  Call-IsIdle _ _ (init s) i = route_lib_init-IsIdle s i
  Call-IsIdle _ _ (cleanup s) i = (i.0, i.1)
  Call-IsIdle _ _ (create rm_init family fibnum s) i =
      route_table_create-IsIdle rm_init family fibnum s i
  Call-IsIdle _ _ (destroy s) i = (i.0, tt)
  Call-IsIdle _ _ (add ri r s s' e) i =
      Ensures-some (λ r. IsIdle r.1) (route_add ops ri s) (r, s') (route_add-Ensures ops ri s i) e
  Call-IsIdle _ _ (delete dst netmask r s s' e) i =
      Ensures-some (λ r. IsIdle r.1) (route_delete ops dst netmask s) (r, s')
        (route_delete-Ensures ops dst netmask s i) e
  Call-IsIdle _ _ (lookup dst r out s s' e) i =
      Ensures-some (λ r. IsIdle r.2) (route_lookup ops dst s) (r, out, s')
        (route_lookup-Ensures ops dst s i) e
  Call-IsIdle _ _ (change ri r s s' e) i =
      Ensures-some (λ r. IsIdle r.1) (route_change ops ri s) (r, s')
        (route_change-Ensures ops ri s i) e
  Call-IsIdle _ _ (walk walker w w' r s s' e) i =
      Ensures-some (λ r. IsIdle r.2) (route_walk ops walker w s) (r, w', s')
        (route_walk-Ensures walker w s i) e
