-- ===== src/Xnu/Epoch/Grace.antt =====
-- The grace periods of src/xnu_kernel/xnu_freebsd_radix.c: `xnu_epoch_start_grace_period`,
-- `xnu_epoch_check_grace_period`, `xnu_epoch_complete_grace_period` and the worker. The bodies of the
-- loops over processors are functions, for the interleaving with readers in Epoch.System. A shift
-- `1U << i` is defined below 32.
use freebsd_radix_userland.Common.{
  ℕ, zero, suc, Bool, false, ◌&&◌, ◌||◌, [], ◌∷◌, ◌++◌, ltb, leb, ◌==◌, if◌then◌else◌,
}
use freebsd_radix_userland.Common.Flags.{has_flag, set_flag, without}
use freebsd_radix_userland.Xnu.Family.{assign}
use freebsd_radix_userland.Xnu.Epoch.{
  inc32, inc64, Kernel, enter_reclaim, delay_grace_period, CpuState, GpState, gp_idle, gp_started,
  gp_waiting, gp_completed, GracePeriod, Epoch, set_cpu, xnu_epoch_record_debug_event,
}

abbrev pub debug_grace_start : ℕ
debug_grace_start = 4

abbrev pub debug_grace_end : ℕ
debug_grace_end = 5

-- The number, the state and the empty masks of a new period.
abbrev pub begin_period : ℕ → GracePeriod → GracePeriod
begin_period now g = record {
  gp_number = inc64 g.gp_number;
  gp_start_time = now;
  gp_state = gp_started;
  cpu_mask = 0;
  completed_mask = 0;
}

abbrev pub begin_grace : Kernel → Epoch → Epoch
begin_grace k e = record e { grace_period = begin_period (k.clock 0) e.grace_period }

-- One round of the first loop: a processor with readers has to report, another has reported.
abbrev pub start_cpu : ℕ → GracePeriod × ℕ → CpuState → GracePeriod × ℕ
start_cpu i (g, active_cpus) s =
    if ltb 0 s.active_readers
    then (record g { cpu_mask = set_flag i g.cpu_mask }, inc32 active_cpus)
    else (record g { completed_mask = set_flag i g.completed_mask }, active_cpus)

unfoldable pub start_loop : ℕ → (ℕ → CpuState) → GracePeriod × ℕ → GracePeriod × ℕ
unfolding set_flag
start_loop zero cpus r = r
start_loop (suc n) cpus r = start_cpu n (start_loop n cpus r) (cpus n)

-- Without processors to wait for, the period is over at once.
abbrev pub start_done : GracePeriod × ℕ → Epoch → Epoch
start_done (g, active_cpus) e = record e {
  grace_period = record g { gp_state = if active_cpus == 0 then gp_completed else gp_waiting };
  grace_periods_completed = inc64 e.grace_periods_completed;
}

unfoldable pub finish_start : Kernel → GracePeriod × ℕ → Epoch → Epoch
finish_start k r e =
    let f = start_done r e in
    if e.debug_enabled then xnu_epoch_record_debug_event k (k.clock 1) f debug_grace_start else f

unfoldable pub xnu_epoch_start_grace_period : Kernel → Epoch → Epoch
unfolding start_loop finish_start
xnu_epoch_start_grace_period k e =
    let b = begin_grace k e in
    finish_start k (start_loop b.max_cpus b.cpu_states (b.grace_period, 0)) b

abbrev pub remaining_mask : GracePeriod → ℕ
remaining_mask g = without g.cpu_mask g.completed_mask

-- "CPU has completed this grace period"
abbrev pub has_completed : GracePeriod → CpuState → Bool
has_completed g s = (s.active_readers == 0) || leb g.gp_number s.last_grace_period

-- One round of the loop of the check, under the mask that was read before it.
abbrev pub check_cpu : ℕ → ℕ → Epoch → Epoch
check_cpu remaining i e =
    let s = e.cpu_states i in
    if has_flag i remaining && has_completed e.grace_period s
    then record (set_cpu e i (record s { grace_periods = inc64 s.grace_periods })) {
      grace_period = record (e.grace_period) {
        completed_mask = set_flag i e.grace_period.completed_mask;
      };
    }
    else e

unfoldable pub check_loop : ℕ → ℕ → Epoch → Epoch
unfolding set_flag has_flag
check_loop remaining zero e = e
check_loop remaining (suc n) e = check_cpu remaining n (check_loop remaining n e)

unfoldable pub check_in : GpState → Epoch → Bool × Epoch
unfolding check_loop without
check_in gp_waiting e =
    let f = check_loop (remaining_mask e.grace_period) e.max_cpus e in
    (remaining_mask f.grace_period == 0, f)
check_in _ e = (false, e)

unfoldable pub xnu_epoch_check_grace_period : Epoch → Bool × Epoch
unfolding check_in
xnu_epoch_check_grace_period e = check_in e.grace_period.gp_state e

abbrev pub complete_cpu : GracePeriod → CpuState → CpuState
complete_cpu g s = record s { last_grace_period = g.gp_number; in_grace_period = false }

unfoldable pub complete_loop : ℕ → GracePeriod → (ℕ → CpuState) → ℕ → CpuState
complete_loop zero g cpus = cpus
complete_loop (suc n) g cpus =
    let rest = complete_loop n g cpus in assign rest n (complete_cpu g (rest n))

unfoldable pub complete_all : Epoch → Epoch
unfolding complete_loop
complete_all e =
    let g = record (e.grace_period) { gp_state = gp_completed } in
    record e { grace_period = g; cpu_states = complete_loop e.max_cpus g e.cpu_states }

unfoldable pub xnu_epoch_complete_grace_period : Kernel → Epoch → Epoch
unfolding complete_all
xnu_epoch_complete_grace_period k e =
    let f = complete_all e in
    if e.debug_enabled then xnu_epoch_record_debug_event k (k.clock 1) f debug_grace_end else f

abbrev pub reset_grace : Kernel → Epoch → Epoch
reset_grace k e = record e {
  grace_period = record (e.grace_period) { gp_state = gp_idle };
  calls = if k.reclaim_isactive then e.calls else e.calls ++ enter_reclaim ∷ [];
}

-- The cases `GP_STATE_STARTED` and `GP_STATE_WAITING` of the worker.
unfoldable pub check_complete : Kernel → Bool × Epoch → Epoch
check_complete k (completed, e) = if completed then xnu_epoch_complete_grace_period k e else e

-- The `switch` of the worker.
unfoldable pub worker_switch : GpState → Kernel → Epoch → Epoch
unfolding check_complete
worker_switch gp_idle k e = elim e.callback_queue [
  | [] ↦ e
  | _ ∷ _ ↦ xnu_epoch_start_grace_period k e
]
worker_switch gp_completed k e = reset_grace k e
worker_switch _ k e = check_complete k (xnu_epoch_check_grace_period e)

-- "Reschedule if not idle"
abbrev pub reschedule : Epoch → Epoch
reschedule e = elim e.grace_period.gp_state [
  | gp_idle ↦ e
  | _ ↦ record e { calls = e.calls ++ delay_grace_period ∷ [] }
]

unfoldable pub xnu_epoch_grace_period_worker : Kernel → Epoch → Epoch
unfolding worker_switch
xnu_epoch_grace_period_worker k e = reschedule (worker_switch e.grace_period.gp_state k e)
