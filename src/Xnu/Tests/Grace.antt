-- ===== src/Xnu/Tests/Grace.antt =====
-- One processor, one reader: a grace period in which it leaves.
use freebsd_radix_userland.Common.{
  if◌then◌else◌, ℕ, zero, suc, ◌+◌, ◌++◌, ◌≡◌, refl, Bool, true, false, none, [], ◌∷◌, arith,
}
use freebsd_radix_userland.Xnu.Family.{total}
use freebsd_radix_userland.Xnu.Epoch.{
  Kernel, enter_reclaim, CpuState, gp_idle, gp_completed, Epoch, EpochTracker, done,
  xnu_epoch_record_debug_event,
}
use freebsd_radix_userland.Xnu.Epoch.Reader.{
  trigger_reclaim, exit_at, xnu_epoch_enter_preempt, xnu_epoch_exit_preempt,
}
use freebsd_radix_userland.Xnu.Epoch.Grace.{
  finish_start, complete_loop, complete_all, xnu_epoch_complete_grace_period,
  xnu_epoch_grace_period_worker,
}
use freebsd_radix_userland.Common.Flags.{has_flag, set_flag, without}
use freebsd_radix_userland.Xnu.Epoch.System.{
  resting, System, IsInitial, Reach, here, next, enter, exit, begin, start_visit, start_end, check,
  check_visit, complete,
}
use freebsd_radix_userland.Xnu.Epoch.System.Invariant.{reads_on}
use freebsd_radix_userland.Xnu.Epoch.System.Liveness.{worker-ends_period}
use freebsd_radix_userland.Xnu.Epoch.System.Schedule.{at, worker-run}
use freebsd_radix_userland.Xnu.Epoch.System.Safety.{
  grace_period-safe, active_readers-total, exit_preempt-done,
}

abbrev pub kernel : Kernel
kernel = record {
  cpu_number = 0;
  current_thread = 7;
  at_interrupt_context = false;
  interrupt_level = 0;
  clock = λ i. 1000 + i;
  reclaim_isactive = false;
  zalloc_noblock = true;
  enqueued = λ _. [];
}

abbrev pub quiet_cpu : CpuState
quiet_cpu = record {
  local_epoch = 1;
  active_readers = 0;
  call_depth = 0;
  enter_count = 0;
  exit_count = 0;
  last_grace_period = 0;
  in_grace_period = false;
  fast_path_enters = 0;
  slow_path_enters = 0;
  grace_periods = 0;
}

abbrev pub quiet_epoch : Epoch
quiet_epoch = record {
  self = 64;
  epoch_number = 1;
  cpu_states = λ _. quiet_cpu;
  max_cpus = 2;
  grace_period = record {
    gp_number = 0;
    gp_start_time = 0;
    gp_state = gp_idle;
    cpu_mask = 0;
    completed_mask = 0;
  };
  callback_queue = [];
  memory = record {
    callback_count = 0;
    callback_limit = 10000;
    memory_pressure = 0;
    emergency_reclaim = 0;
    bytes_reclaimed = 0;
  };
  interrupt_safe = false;
  interrupt_depth = 0;
  total_enters = 0;
  total_exits = 0;
  grace_periods_completed = 0;
  emergency_reclaims = 0;
  debug_enabled = false;
  debug_level = 0;
  debug_trace = [];
  executed = [];
  calls = [];
}

abbrev pub outside : EpochTracker
outside = record {
  enter_epoch = 0;
  thread = 0;
  epoch = 0;
  enter_time = 0;
  active = false;
  cpu_id = 0;
  cpu_state = none;
  nesting_level = 0;
  hold_time_start = 0;
  total_hold_time = 0;
  enter_count = 0;
  from_interrupt = false;
  interrupt_level = 0;
}

abbrev quiet : System
quiet = record { epoch = quiet_epoch; tracker = λ _. outside; old = λ _. false; phase = resting }

quiet-IsInitial : IsInitial quiet
quiet-IsInitial = record {
  few_cpus = omega arith;
  idle = refl;
  no_readers = λ c. refl;
  no_periods = λ c. refl;
  outside = λ i. refl;
  none_old = λ i. refl;
  rests = refl;
  cpu_mask = refl;
  completed_mask = refl;
}

-- The reader enters, and a period begins that has to wait for it.
reading : (s : System) × Reach 3 quiet s
unfolding xnu_epoch_enter_preempt xnu_epoch_record_debug_event
reading = (_, next here (enter 0 kernel (omega arith) (λ on. on) refl))

waiting : (s : System) × Reach 3 quiet s
unfolding reading xnu_epoch_enter_preempt finish_start set_flag
waiting =
    let begun = next reading.1 (begin kernel refl refl (omega arith)) in
    let first = next begun (start_visit {i = 0} {active_cpus = 0} refl (omega arith)) in
    let second = next first (start_visit {i = 1} {active_cpus = 1} refl (omega arith)) in
    (_, next second (start_end kernel {active_cpus = 1} refl))

-- The reader leaves, and the worker finds the period over.
over : (s : System) × Reach 3 quiet s
unfolding reading waiting xnu_epoch_enter_preempt xnu_epoch_exit_preempt exit_at trigger_reclaim
    xnu_epoch_complete_grace_period complete_all complete_loop without set_flag has_flag
    finish_start
over =
    let left = next waiting.1 (exit 0 kernel (omega arith) refl) in
    let reading_mask = next left (check refl refl) in
    let first = next reading_mask (check_visit {i = 0} {remaining = 1} refl (omega arith)) in
    let second = next first (check_visit {i = 1} {remaining = 1} refl (omega arith)) in
    (_, next second (complete kernel {remaining = 1} refl refl))

-- The same reader has left, and the worker has not looked yet.
left_behind : (s : System) × Reach 3 quiet s
unfolding reading waiting xnu_epoch_enter_preempt xnu_epoch_exit_preempt exit_at trigger_reclaim
    finish_start set_flag
left_behind = (_, next waiting.1 (exit 0 kernel (omega arith) refl))

all_outside : (i : ℕ) → (left_behind.0.tracker i).active ≡ false
unfolding left_behind reading waiting xnu_epoch_enter_preempt xnu_epoch_exit_preempt exit_at
all_outside zero = refl
all_outside (suc i) = ground arith

worker-ends_period_example :
    let e = xnu_epoch_grace_period_worker kernel left_behind.0.epoch in
    let f = xnu_epoch_grace_period_worker kernel e in
    (e.grace_period.gp_state ≡ gp_completed)
    × (f.grace_period.gp_state ≡ gp_idle)
    × (f.calls ≡ (if kernel.reclaim_isactive then e.calls else e.calls ++ enter_reclaim ∷ []))
unfolding left_behind reading waiting xnu_epoch_enter_preempt xnu_epoch_exit_preempt exit_at
    trigger_reclaim finish_start set_flag
worker-ends_period_example =
    worker-ends_period (omega arith) quiet-IsInitial left_behind.1 refl all_outside kernel kernel

worker-run_example :
    (new : ℕ → Bool) × Reach 3
      (at 3 waiting.0.tracker waiting.0.epoch (λ _. true) resting)
      (at 3 waiting.0.tracker (xnu_epoch_grace_period_worker kernel waiting.0.epoch) new resting)
unfolding waiting reading xnu_epoch_enter_preempt finish_start set_flag
worker-run_example = worker-run 3 waiting.0.tracker kernel waiting.0.epoch (λ _. true) (omega arith)

grace_period-safe_example : (over.0.tracker 0).active ≡ false
unfolding over xnu_epoch_complete_grace_period complete_all reading waiting xnu_epoch_enter_preempt
    xnu_epoch_exit_preempt exit_at
grace_period-safe_example =
    grace_period-safe (omega arith) quiet-IsInitial over.1 refl refl 0 (omega arith) refl

active_readers-total_example :
    (waiting.0.epoch.cpu_states 0).active_readers ≡ total (reads_on 0) 3 waiting.0.tracker
active_readers-total_example = active_readers-total (omega arith) quiet-IsInitial waiting.1 0

exit_preempt-done_example :
    (x : Epoch × EpochTracker) × (xnu_epoch_exit_preempt kernel waiting.0.epoch
        (waiting.0.tracker 0)
      ≡ done x)
unfolding waiting reading xnu_epoch_enter_preempt finish_start set_flag
exit_preempt-done_example =
    exit_preempt-done (omega arith) quiet-IsInitial waiting.1 0 kernel (omega arith) refl
