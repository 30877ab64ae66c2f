-- ===== src/Xnu/Epoch/Reader.antt =====
-- `xnu_epoch_enter_preempt` and `xnu_epoch_exit_preempt` of src/xnu_kernel/xnu_freebsd_radix.h.
-- Between disable_preemption and enable_preemption the processor stays `cpu_number`.
pub mod Moves
pub mod Migrated
use freebsd_radix_userland.Common.{
  ℕ, suc, ◌+◌, ◌-◌, ◌%◌, ◌^◌, Bool, true, false, not, ◌&&◌, ◌||◌, Option, none, some, List, [], ◌∷◌,
  ◌++◌, ltb, leb, ◌==◌, if◌then◌else◌,
}
use freebsd_radix_userland.Xnu.Epoch.{
  inc32, dec32, inc64, elapsed, Kernel, enter_reclaim, CpuState, Epoch, EpochTracker, Outcome, done,
  panic, fault, set_cpu, sum_readers, xnu_epoch_record_debug_event,
}
use freebsd_radix_userland.Xnu.Epoch.Pressure.{xnu_epoch_check_memory_pressure}

abbrev pub debug_enter : ℕ
debug_enter = 1

abbrev pub debug_exit : ℕ
debug_exit = 2

-- `et->cpu_state == cpu_state`, for the state of processor `c`
abbrev pub is_on : EpochTracker → Epoch → ℕ → Bool
is_on t e c = elim t.cpu_state [ none ↦ false | some d ↦ (t.epoch == e.self) && (d == c) ]

-- `cpu_state->local_epoch`, or the global number where that is not set
abbrev pub entry_epoch : Epoch → CpuState → ℕ
entry_epoch e s = if s.local_epoch == 0 then e.epoch_number else s.local_epoch

abbrev pub enter_tracker : Kernel → Epoch → EpochTracker → EpochTracker
enter_tracker k e t = record t {
  thread = k.current_thread;
  epoch = e.self;
  cpu_id = k.cpu_number;
  cpu_state = some k.cpu_number;
  enter_time = k.clock 1;
  nesting_level = 1;
  active = true;
  hold_time_start = k.clock 1;
  enter_count = inc32 t.enter_count;
  enter_epoch = entry_epoch e (e.cpu_states k.cpu_number);
}

abbrev pub enter_cpu : Kernel → Epoch → CpuState → CpuState
enter_cpu k e s = record s {
  local_epoch = entry_epoch e s;
  active_readers = inc32 s.active_readers;
  call_depth = inc32 s.call_depth;
  enter_count = inc64 s.enter_count;
  fast_path_enters =
      if k.at_interrupt_context then s.fast_path_enters else inc64 s.fast_path_enters;
  slow_path_enters =
      if k.at_interrupt_context then inc64 s.slow_path_enters else s.slow_path_enters;
}

-- The outermost enter, with the statistics of the epoch.
abbrev pub enter_counts : Kernel → Epoch → Epoch
enter_counts k e =
    let c = k.cpu_number in
    record (set_cpu e c (enter_cpu k e (e.cpu_states c))) {
      total_enters = if k.at_interrupt_context then e.total_enters else inc64 e.total_enters;
      interrupt_depth =
          if k.at_interrupt_context then inc32 e.interrupt_depth else e.interrupt_depth;
    }

abbrev pub enter_outer : Kernel → Epoch → Epoch
enter_outer k e =
    if e.debug_enabled
    then xnu_epoch_record_debug_event k (k.clock 2) (enter_counts k e) debug_enter
    else enter_counts k e

abbrev pub enter_timed : Kernel → Epoch → EpochTracker → EpochTracker
enter_timed k e t =
    if e.debug_enabled
    then record t {
      total_hold_time = (t.total_hold_time + elapsed (k.clock 3) (k.clock 0)) % 2 ^ 64;
    }
    else t

abbrev pub at_level : Kernel → EpochTracker → EpochTracker
at_level k t = record t {
  from_interrupt = k.at_interrupt_context;
  interrupt_level = if k.at_interrupt_context then k.interrupt_level else 0;
}

abbrev pub deeper : CpuState → CpuState
deeper s = record s { call_depth = inc32 s.call_depth }

abbrev pub shallower : CpuState → CpuState
shallower s = record s { call_depth = dec32 s.call_depth }

unfoldable pub xnu_epoch_enter_preempt :
    Kernel → Epoch → EpochTracker → Outcome (Epoch × EpochTracker)
xnu_epoch_enter_preempt k e t =
    if k.at_interrupt_context && not e.interrupt_safe
    then panic
    else if leb e.max_cpus c
    then fault
    else if t.active && is_on t e c
    then done (
      set_cpu e c (deeper (e.cpu_states c)),
      record (at_level k t) { nesting_level = inc32 t.nesting_level },
    )
    else done (enter_outer k e, enter_timed k e (enter_tracker k e (at_level k t)))
  where
    c : ℕ
    c = k.cpu_number

abbrev pub exit_cpu : CpuState → CpuState
exit_cpu s = record s {
  active_readers = dec32 s.active_readers;
  call_depth = dec32 s.call_depth;
  exit_count = inc64 s.exit_count;
}

abbrev pub exit_tracker : EpochTracker → EpochTracker
exit_tracker t = record t { active = false; nesting_level = 0; cpu_state = none }

-- The statistics of an outermost exit.
abbrev pub exit_counts : EpochTracker → Epoch → Epoch
exit_counts t e =
    if t.from_interrupt
    then record e { interrupt_depth = e.interrupt_depth - 1 }
    else record e { total_exits = inc64 e.total_exits }

-- "Check if we should trigger reclamation"
unfoldable pub trigger_reclaim : Kernel → ℕ → Epoch → Epoch
unfolding sum_readers
trigger_reclaim k c e =
    if ((e.cpu_states c).active_readers == 0) && (sum_readers e.max_cpus e.cpu_states == 0)
    then (elim e.callback_queue [
      | [] ↦ e
      | _ ∷ _ ↦ if k.reclaim_isactive then e else record e { calls = e.calls ++ enter_reclaim ∷ [] }
    ])
    else e

-- The outermost exit, from the test of `active_readers` on.
abbrev pub exit_outer : Kernel → Epoch → EpochTracker → ℕ → Epoch
exit_outer k e t c =
    let f = trigger_reclaim k c (exit_counts t (set_cpu e c (exit_cpu (e.cpu_states c)))) in
    if f.memory.memory_pressure == 0 then f else xnu_epoch_check_memory_pressure k 2 f

abbrev pub exit_traced : Kernel → Epoch → Epoch
exit_traced k e =
    if e.debug_enabled then xnu_epoch_record_debug_event k (k.clock 1) e debug_exit else e

abbrev pub exit_timed : Kernel → Epoch → EpochTracker → EpochTracker
exit_timed k e t =
    if e.debug_enabled
    then record t {
      total_hold_time = (t.total_hold_time + elapsed (k.clock 0) t.hold_time_start) % 2 ^ 64;
    }
    else t

-- From `cpu_state = et->cpu_state` on, for the state of processor `c`.
unfoldable pub exit_at : Kernel → Epoch → EpochTracker → ℕ → Outcome (Epoch × EpochTracker)
unfolding xnu_epoch_check_memory_pressure trigger_reclaim
exit_at k e t c =
    if ltb 1 t.nesting_level
    then done
        (set_cpu e c (shallower (e.cpu_states c)), record t { nesting_level = t.nesting_level - 1 })
    else if (e.cpu_states c).active_readers == 0
    then panic
    else done (exit_outer k (exit_traced k e) t c, exit_tracker (exit_timed k e t))

unfoldable pub xnu_epoch_exit_preempt :
    Kernel → Epoch → EpochTracker → Outcome (Epoch × EpochTracker)
unfolding exit_at
xnu_epoch_exit_preempt k e t =
    if not (t.epoch == e.self) || not t.active
    then panic
    else elim t.cpu_state [ none ↦ panic | some c ↦ exit_at k e t c ]
