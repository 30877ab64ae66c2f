-- ===== src/Xnu/Epoch/System/Schedule.antt =====
-- The worker without interference: its function is a run of the steps of Epoch.System.
use freebsd_radix_userland.Common.{
  ℕ, zero, suc, ◌+◌, ◌^◌, ◌≤◌, ◌<◌, ◌≡◌, refl, sym, ap, inl, inr, Bool, List, [], ◌∷◌, ◌==◌, arith,
  Bool-cases,
}
use mathlib.Core.Path.{subst}
use freebsd_radix_userland.Xnu.Epoch.{
  Kernel, GpState, gp_idle, gp_started, gp_waiting, gp_completed, Callback, Epoch, EpochTracker,
  SameReaders,
}
use freebsd_radix_userland.Xnu.Epoch.Grace.{
  begin_grace, start_loop, xnu_epoch_start_grace_period, remaining_mask, check_loop, check_in,
  xnu_epoch_check_grace_period, check_complete, worker_switch, reschedule,
  xnu_epoch_grace_period_worker,
}
use freebsd_radix_userland.Xnu.Epoch.System.{
  Phase, resting, starting, checking, System, begin, start_visit, start_end, check, check_visit,
  check_fail, complete, reset, other, Reach, here, next,
}

module _ (n : ℕ) (tracker : ℕ → EpochTracker) where
  abbrev pub at : Epoch → (ℕ → Bool) → Phase → System
  at e old phase = record { epoch = e; tracker = tracker; old = old; phase = phase }

  start-run :
      (m : ℕ) (e : Epoch) (old : ℕ → Bool) {s : System}
      → m ≤ e.max_cpus
      → Reach n s (at e old (starting 0 0))
      → Reach n s (
          at
            (record e { grace_period = (start_loop m e.cpu_states (e.grace_period, 0)).0 })
            old
            (starting m (start_loop m e.cpu_states (e.grace_period, 0)).1))
  unfolding start_loop
  start-run zero e old le r = r
  start-run (suc m) e old le r =
      next (start-run m e old (omega arith) r) (start_visit {i = m} refl (omega arith))

  check_loop-max_cpus :
      (remaining m : ℕ) (e : Epoch) → (check_loop remaining m e).max_cpus ≡ e.max_cpus
  unfolding check_loop
  check_loop-max_cpus remaining zero e = refl
  check_loop-max_cpus remaining (suc m) e = ground (arith, check_loop-max_cpus remaining m e)

  check-run :
      (m remaining : ℕ) (e : Epoch) (old : ℕ → Bool) {s : System}
      → m ≤ e.max_cpus
      → Reach n s (at e old (checking 0 remaining))
      → Reach n s (at (check_loop remaining m e) old (checking m remaining))
  unfolding check_loop
  check-run zero remaining e old le r = r
  check-run (suc m) remaining e old le r =
      next (check-run m remaining e old (omega arith) r)
        (check_visit {i = m} refl (omega (arith, check_loop-max_cpus remaining m e)))

  start_all-run :
      (k : Kernel) (e : Epoch) (old : ℕ → Bool)
      → e.grace_period.gp_state ≡ gp_idle
      → e.grace_period.gp_number + 1 < 2 ^ 64
      → Reach n
          (at e old resting)
          (at (xnu_epoch_start_grace_period k e) (λ i. (tracker i).active) resting)
  unfolding xnu_epoch_start_grace_period
  start_all-run k e old idle small =
      let b = begin_grace k e in
      next
        (start-run b.max_cpus b (λ i. (tracker i).active) (omega arith)
          (next here (begin k refl idle small)))
        (start_end k refl)

  check_all-run :
      (k : Kernel) (e : Epoch) (old : ℕ → Bool)
      → e.grace_period.gp_state ≡ gp_waiting
      → Reach n (at e old resting) (at (check_complete k (check_in gp_waiting e)) old resting)
  unfolding check_in check_complete
  check_all-run k e old waiting = elim (Bool-cases (remaining_mask f.grace_period == 0)) [
    | inl none ↦ rw none (next run (complete k at_end none))
    | inr some_left ↦ rw some_left (next run (check_fail at_end some_left))
  ]
    where
      remaining : ℕ
      remaining = remaining_mask e.grace_period

      f : Epoch
      f = check_loop remaining e.max_cpus e

      run : Reach n (at e old resting) (at f old (checking e.max_cpus remaining))
      run = check-run e.max_cpus remaining e old (omega arith) (next here (check refl waiting))

      at_end : checking e.max_cpus remaining ≡ checking f.max_cpus remaining
      at_end = ap (λ c. checking c remaining) (sym (check_loop-max_cpus remaining e.max_cpus e))

  idle-run :
      (k : Kernel) (e : Epoch) (old : ℕ → Bool) (queue : List Callback)
      → e.grace_period.gp_state ≡ gp_idle
      → e.grace_period.gp_number + 1 < 2 ^ 64
      → (new : ℕ → Bool) × Reach n
          (at e old resting)
          (at (elim queue [ [] ↦ e | _ ∷ _ ↦ xnu_epoch_start_grace_period k e ]) new resting)
  idle-run k e old [] idle small = (old, here)
  idle-run k e old (_ ∷ _) idle small = (_, start_all-run k e old idle small)

  -- A run to the result of the check, whose state is `st`.
  abbrev ChecksAs : Kernel → Epoch → (ℕ → Bool) → GpState → Type 0
  ChecksAs k e old st =
      (new : ℕ → Bool) × Reach n (at e old resting)
        (at (check_complete k (check_in st e)) new resting)

  reschedule-SameReaders : (e : Epoch) → SameReaders e (reschedule e)
  reschedule-SameReaders e = ground arith

  switch-run :
      (k : Kernel) (st : GpState) (e : Epoch) (old : ℕ → Bool)
      → e.grace_period.gp_state ≡ st
      → e.grace_period.gp_number + 1 < 2 ^ 64
      → (new : ℕ → Bool) × Reach n (at e old resting) (at (worker_switch st k e) new resting)
  unfolding worker_switch xnu_epoch_check_grace_period check_complete check_in
  switch-run k gp_idle e old q small = idle-run k e old e.callback_queue q small
  switch-run k gp_started e old q small = subst (ChecksAs k e old) (sym q) (old, here)
  switch-run k gp_waiting e old q small =
      subst (ChecksAs k e old) (sym q) (old, check_all-run k e old q)
  switch-run k gp_completed e old q small = (old, next here (reset k refl q))

  -- The worker's function is a run of the steps, from a rest to a rest, in which no thread moves.
  pub worker-run :
      (k : Kernel) (e : Epoch) (old : ℕ → Bool)
      → e.grace_period.gp_number + 1 < 2 ^ 64
      → (new : ℕ → Bool) × Reach n
          (at e old resting)
          (at (xnu_epoch_grace_period_worker k e) new resting)
  unfolding xnu_epoch_grace_period_worker
  worker-run k e old small =
      let (new, r) = switch-run k e.grace_period.gp_state e old refl small in
      (new, next r (other (reschedule-SameReaders (worker_switch e.grace_period.gp_state k e))))
