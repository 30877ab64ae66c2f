-- ===== src/Xnu/Epoch/System.antt =====
-- Readers on all processors, the worker of the grace periods and the rest of the kernel, a shared
-- access at a time in any order. The worker's loops read one processor in each step.
pub mod Invariant
pub mod Readers
pub mod Worker
pub mod Safety
pub mod Schedule
pub mod Liveness
use freebsd_radix_userland.Common.{ℕ, suc, ◌+◌, ◌^◌, ◌<◌, ◌≡◌, Bool, true, false, ◌&&◌, none, ◌==◌}
use freebsd_radix_userland.Xnu.Family.{assign}
use freebsd_radix_userland.Xnu.Epoch.{
  Kernel, gp_idle, gp_waiting, gp_completed, Epoch, EpochTracker, done, SameReaders,
}
use freebsd_radix_userland.Xnu.Epoch.Reader.{is_on, xnu_epoch_enter_preempt, xnu_epoch_exit_preempt}
use freebsd_radix_userland.Xnu.Epoch.Grace.{
  begin_grace, start_cpu, finish_start, remaining_mask, check_cpu, xnu_epoch_complete_grace_period,
  reset_grace,
}

-- Where the worker stands: between its calls, or in front of a processor in one of the two loops, with
-- the local variable `active_cpus` or `remaining_mask`.
pub data Phase : Type 0 where
  resting : Phase
  starting : (i active_cpus : ℕ) → Phase
  checking : (i remaining : ℕ) → Phase

-- `old i` marks a section of thread `i` that the present grace period has found open.
pub record System : Type 0 where
  pub epoch : Epoch
  pub tracker : ℕ → EpochTracker
  pub old : ℕ → Bool
  pub phase : Phase

-- Thread `i` below `n` may enter and leave; while it is in a section it stays on its processor when it
-- enters again. Numbers of grace periods do not wrap.
pub data Step (n : ℕ) (s : System) : System → Type 0 where
  enter :
      (i : ℕ) (k : Kernel) {e : Epoch} {t : EpochTracker}
      → i < n
      → ((s.tracker i).active ≡ true → is_on (s.tracker i) s.epoch k.cpu_number ≡ true)
      → xnu_epoch_enter_preempt k s.epoch (s.tracker i) ≡ done (e, t)
      → Step n s (record s {
        epoch = e;
        tracker = assign s.tracker i t;
        old = assign s.old i (s.old i && (s.tracker i).active);
      })
  exit :
      (i : ℕ) (k : Kernel) {e : Epoch} {t : EpochTracker}
      → i < n
      → xnu_epoch_exit_preempt k s.epoch (s.tracker i) ≡ done (e, t)
      → Step n s (record s { epoch = e; tracker = assign s.tracker i t })
  begin :
      (k : Kernel)
      → s.phase ≡ resting
      → s.epoch.grace_period.gp_state ≡ gp_idle
      → s.epoch.grace_period.gp_number + 1 < 2 ^ 64
      → Step n s (record s {
        epoch = begin_grace k s.epoch;
        old = λ i. (s.tracker i).active;
        phase = starting 0 0;
      })
  start_visit :
      {i active_cpus : ℕ}
      → s.phase ≡ starting i active_cpus
      → i < s.epoch.max_cpus
      → Step n s (record s {
        epoch = record (s.epoch) {
          grace_period = (start_cpu i (s.epoch.grace_period, active_cpus) (s.epoch.cpu_states i)).0;
        };
        phase =
            starting
              (suc i)
              (start_cpu i (s.epoch.grace_period, active_cpus) (s.epoch.cpu_states i)).1;
      })
  start_end :
      (k : Kernel) {active_cpus : ℕ}
      → s.phase ≡ starting s.epoch.max_cpus active_cpus
      → Step n s (record s {
        epoch = finish_start k (s.epoch.grace_period, active_cpus) s.epoch;
        phase = resting;
      })
  check :
      s.phase ≡ resting
      → s.epoch.grace_period.gp_state ≡ gp_waiting
      → Step n s (record s { phase = checking 0 (remaining_mask s.epoch.grace_period) })
  check_visit :
      {i remaining : ℕ}
      → s.phase ≡ checking i remaining
      → i < s.epoch.max_cpus
      → Step n s
          (record s { epoch = check_cpu remaining i s.epoch; phase = checking (suc i) remaining })
  check_fail :
      {remaining : ℕ}
      → s.phase ≡ checking s.epoch.max_cpus remaining
      → (remaining_mask s.epoch.grace_period == 0) ≡ false
      → Step n s (record s { phase = resting })
  complete :
      (k : Kernel) {remaining : ℕ}
      → s.phase ≡ checking s.epoch.max_cpus remaining
      → (remaining_mask s.epoch.grace_period == 0) ≡ true
      → Step n s (record s { epoch = xnu_epoch_complete_grace_period k s.epoch; phase = resting })
  reset :
      (k : Kernel)
      → s.phase ≡ resting
      → s.epoch.grace_period.gp_state ≡ gp_completed
      → Step n s (record s { epoch = reset_grace k s.epoch })
  -- Callbacks, reclamation, memory pressure and debugging leave readers and grace periods alone.
  other : {e : Epoch} → SameReaders s.epoch e → Step n s (record s { epoch = e })

-- An epoch without readers, idle, and threads that are outside.
pub record IsInitial (s : System) : Type 0 where
  pub few_cpus : s.epoch.max_cpus < 33
  pub idle : s.epoch.grace_period.gp_state ≡ gp_idle
  pub no_readers : (c : ℕ) → (s.epoch.cpu_states c).active_readers ≡ 0
  pub no_periods : (c : ℕ) → (s.epoch.cpu_states c).last_grace_period ≡ 0
  pub outside : (i : ℕ) → (s.tracker i).active ≡ false
  pub none_old : (i : ℕ) → s.old i ≡ false
  pub rests : s.phase ≡ resting
  pub cpu_mask : s.epoch.grace_period.cpu_mask ≡ 0
  pub completed_mask : s.epoch.grace_period.completed_mask ≡ 0

pub data Reach (n : ℕ) (s : System) : System → Type 0 where
  here : Reach n s s
  next : {t u : System} → Reach n s t → Step n t u → Reach n s u
