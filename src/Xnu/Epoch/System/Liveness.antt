-- ===== src/Xnu/Epoch/System/Liveness.antt =====
-- A grace period ends once the readers have left.
use freebsd_radix_userland.Common.{
  ℕ, zero, suc, ◌^◌, ◌≤◌, ◌<◌, ◌≡◌, refl, sym, true, false, ◌&&◌, inl, inr, [], ◌∷◌, ◌++◌, ◌==◌,
  ==_iff, ◌∙◌, if-elim, if◌then◌else◌, arith, ap, Bool-cases,
}
use mathlib.Core.Path.{subst}
use freebsd_radix_userland.Common.Flags.{
  has_flag, set_flag-lt, without-lt, has_flag-set, has_flag-without, zero_of_flags,
}
use freebsd_radix_userland.Xnu.Family.{assign_kept, total-all_zero}
use freebsd_radix_userland.Xnu.Epoch.{
  Kernel, enter_reclaim, gp_idle, gp_waiting, gp_completed, Epoch, record_debug_event-SameReaders,
}
use freebsd_radix_userland.Xnu.Epoch.Grace.{
  remaining_mask, has_completed, check_cpu, check_loop, check_in, xnu_epoch_check_grace_period,
  complete_all, xnu_epoch_complete_grace_period, check_complete, debug_grace_end, worker_switch,
  reschedule, xnu_epoch_grace_period_worker,
}
use freebsd_radix_userland.Xnu.Epoch.System.{System, IsInitial, Reach}
use freebsd_radix_userland.Xnu.Epoch.System.Invariant.{reads_on}
use freebsd_radix_userland.Xnu.Epoch.System.Safety.{Reach-Inv}

-- What the loop of the check keeps, and the processors that it has seen.
record Checked (remaining m : ℕ) (e f : Epoch) : Type 0 where
  readers : (c : ℕ) → (f.cpu_states c).active_readers ≡ (e.cpu_states c).active_readers
  cpu_mask : f.grace_period.cpu_mask ≡ e.grace_period.cpu_mask
  fits : f.grace_period.completed_mask < 2 ^ 32
  kept :
      (c : ℕ)
      → c < 32
      → has_flag c e.grace_period.completed_mask ≡ true
      → has_flag c f.grace_period.completed_mask ≡ true
  seen :
      (c : ℕ)
      → c < m
      → has_flag c remaining ≡ true
      → has_flag c f.grace_period.completed_mask ≡ true

module _ (e : Epoch) (remaining : ℕ) (quiet : (c : ℕ) → (e.cpu_states c).active_readers ≡ 0) where
  check_cpu-Checked :
      (m : ℕ) (f : Epoch)
      → m < 32
      → Checked remaining m e f
      → Checked remaining (suc m) e (check_cpu remaining m f)
  check_cpu-Checked m f small c =
      if-elim {A = Epoch} (Checked remaining (suc m) e)
        (has_flag m remaining && has_completed f.grace_period (f.cpu_states m))
        (λ done. record {
          readers = λ d. assign_kept (λ x. x.active_readers) f.cpu_states m _ refl d ∙ c.readers d;
          cpu_mask = c.cpu_mask;
          fits = set_flag-lt m f.grace_period.completed_mask small c.fits;
          kept = λ d hd h. ground (
            arith,
            c.kept d hd h,
            has_flag-set m d f.grace_period.completed_mask small hd c.fits,
          );
          seen = λ d lt flag. ground (
            arith,
            c.seen d,
            has_flag-set m d f.grace_period.completed_mask small (omega arith) c.fits,
          );
        })
        (λ not_done. record {
          readers = c.readers;
          cpu_mask = c.cpu_mask;
          fits = c.fits;
          kept = c.kept;
          seen = λ d lt flag. elim (Bool-cases (d == m)) [
            | inl same ↦
                let here : d ≡ m = (==_iff d m).0 same in
                let flagged : has_flag m remaining ≡ true = rw (sym here) flag in
                let none : (f.cpu_states m).active_readers ≡ 0 = c.readers m ∙ quiet m in
                absurd (ground arith)
            | inr other ↦ c.seen d (ground arith) flag
          ];
        })

  check_loop-Checked :
      (m : ℕ)
      → m ≤ 32
      → e.grace_period.completed_mask < 2 ^ 32
      → Checked remaining m e (check_loop remaining m e)
  unfolding check_loop
  check_loop-Checked zero le fits = record {
    readers = λ c. refl;
    cpu_mask = refl;
    fits = fits;
    kept = λ c small h. h;
    seen = λ c lt. absurd (omega arith);
  }
  check_loop-Checked (suc m) le fits =
      check_cpu-Checked m (check_loop remaining m e) (omega arith)
        (check_loop-Checked m (omega arith) fits)

  -- Without readers the check finds nothing left.
  check-empties :
      remaining ≡ remaining_mask e.grace_period
      → e.max_cpus < 33
      → e.grace_period.cpu_mask < 2 ^ 32
      → e.grace_period.completed_mask < 2 ^ 32
      → ((c : ℕ) → c < 32 → has_flag c e.grace_period.cpu_mask ≡ true → c < e.max_cpus)
      → remaining_mask (check_loop remaining e.max_cpus e).grace_period ≡ 0
  check-empties same few mask fits inside =
      zero_of_flags (remaining_mask f.grace_period)
        (without-lt f.grace_period.cpu_mask f.grace_period.completed_mask mask')
        λ k hk.
          let w =
            has_flag-without k f.grace_period.cpu_mask f.grace_period.completed_mask hk mask'
              c.fits in
          elim (Bool-cases (has_flag k e.grace_period.cpu_mask)) [
            | inl set ↦ let reported = reports k hk set in ground arith
            | inr clear ↦
                let clear' : has_flag k f.grace_period.cpu_mask ≡ false = rw c.cpu_mask clear in
                ground arith
          ]
    where
      f : Epoch
      f = check_loop remaining e.max_cpus e

      c : Checked remaining e.max_cpus e f
      c = check_loop-Checked e.max_cpus (omega arith) fits

      mask' : f.grace_period.cpu_mask < 2 ^ 32
      mask' = rw c.cpu_mask mask

      reports :
          (k : ℕ)
          → k < 32
          → has_flag k e.grace_period.cpu_mask ≡ true
          → has_flag k f.grace_period.completed_mask ≡ true
      reports k hk set = elim (Bool-cases (has_flag k e.grace_period.completed_mask)) [
        | inl before ↦ c.kept k hk before
        | inr not_yet ↦
            let w =
              has_flag-without k e.grace_period.cpu_mask e.grace_period.completed_mask hk mask
                fits in
            let left : has_flag k (remaining_mask e.grace_period) ≡ true = ground arith in
            c.seen k (inside k hk set) (rw same left)
      ]

-- What a call does in a state of the grace period.
worker-completed :
    (k : Kernel) (e : Epoch)
    → e.grace_period.gp_state ≡ gp_completed
    → ((xnu_epoch_grace_period_worker k e).grace_period.gp_state ≡ gp_idle)
      × ((xnu_epoch_grace_period_worker k e).calls
          ≡ (if k.reclaim_isactive then e.calls else e.calls ++ enter_reclaim ∷ []))
unfolding xnu_epoch_grace_period_worker worker_switch
worker-completed k e completed = rw completed (refl, ground arith)

complete-state :
    (k : Kernel) (e : Epoch)
    → (xnu_epoch_complete_grace_period k e).grace_period.gp_state ≡ gp_completed
unfolding xnu_epoch_complete_grace_period complete_all
complete-state k e =
    if-elim {A = Epoch} (λ f. f.grace_period.gp_state ≡ gp_completed) e.debug_enabled
      (λ _.
        ap (λ g. g.gp_state)
          (record_debug_event-SameReaders k (k.clock 1) (complete_all e)
            debug_grace_end).grace_period)
      (λ _. refl)

check-completes :
    (k : Kernel) (e : Epoch)
    → remaining_mask (check_loop (remaining_mask e.grace_period) e.max_cpus e).grace_period ≡ 0
    → (check_complete k (check_in gp_waiting e)).grace_period.gp_state ≡ gp_completed
unfolding check_in check_complete
check-completes k e none_left =
    let f = check_loop (remaining_mask e.grace_period) e.max_cpus e in
    if-elim {A = Epoch} (λ g. g.grace_period.gp_state ≡ gp_completed)
      (remaining_mask f.grace_period == 0) (λ _. complete-state k f) (λ some. absurd (ground arith))

reschedule-state : (e : Epoch) → (reschedule e).grace_period.gp_state ≡ e.grace_period.gp_state
reschedule-state e = ground arith

worker-waiting :
    (k : Kernel) (e : Epoch)
    → e.grace_period.gp_state ≡ gp_waiting
    → remaining_mask (check_loop (remaining_mask e.grace_period) e.max_cpus e).grace_period ≡ 0
    → (xnu_epoch_grace_period_worker k e).grace_period.gp_state ≡ gp_completed
unfolding xnu_epoch_grace_period_worker worker_switch xnu_epoch_check_grace_period
worker-waiting k e waiting none_left =
    reschedule-state (worker_switch e.grace_period.gp_state k e)
    ∙ subst (λ st. (worker_switch st k e).grace_period.gp_state ≡ gp_completed) (sym waiting)
        (subst (λ st. (check_complete k (check_in st e)).grace_period.gp_state ≡ gp_completed)
          (sym waiting) (check-completes k e none_left))

-- In every state that fewer than 2^32 threads reach from an initial one, with readers that stay on
-- their processor: if the period waits and no thread is in a section, the next two
-- calls of the worker complete the period and return the epoch to idle, and the second asks for a
-- reclamation exactly where none is active.
pub worker-ends_period :
    {n : ℕ} {s t : System}
    → n < 2 ^ 32
    → IsInitial s
    → Reach n s t
    → t.epoch.grace_period.gp_state ≡ gp_waiting
    → ((i : ℕ) → (t.tracker i).active ≡ false)
    → (k l : Kernel)
    → let e = xnu_epoch_grace_period_worker k t.epoch in
      let f = xnu_epoch_grace_period_worker l e in
      (e.grace_period.gp_state ≡ gp_completed)
      × (f.grace_period.gp_state ≡ gp_idle)
      × (f.calls ≡ (if l.reclaim_isactive then e.calls else e.calls ++ enter_reclaim ∷ []))
worker-ends_period {n} {s} {t} few start r waiting outside k l =
    let inv = Reach-Inv few start r in
    let none_left =
      check-empties t.epoch (remaining_mask t.epoch.grace_period)
        (λ c.
          inv.counted c ∙ total-all_zero (reads_on c) n t.tracker (λ i. ground (arith, outside i)))
        refl inv.few_cpus inv.mask_fits inv.completed_fits inv.mask_inside in
    let completed = worker-waiting k t.epoch waiting none_left in
    let ended = worker-completed l (xnu_epoch_grace_period_worker k t.epoch) completed in
    (completed, ended.0, ended.1)
