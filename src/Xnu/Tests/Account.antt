-- ===== src/Xnu/Tests/Account.antt =====
-- The account of memory, the trace, and a thread that changes its processor.
use freebsd_radix_userland.Common.{ℕ, ◌+◌, List, ◌≤◌, ◌≡◌, refl, true, [], ◌∷◌, length, arith}
use mathlib.Core.List.{map}
use freebsd_radix_userland.Xnu.Epoch.{
  Kernel, Callback, Epoch, EpochTracker, done, debug_trace_size, xnu_epoch_record_debug_event,
}
use freebsd_radix_userland.Xnu.Epoch.Pressure.{
  move_urgent, process_emergency, reclaim_urgent, xnu_epoch_emergency_reclaim,
  xnu_epoch_check_memory_pressure,
}
use freebsd_radix_userland.Xnu.Epoch.Pressure.Laws.{
  Urgent, emergency_reclaim-Urgent, Checked, check_memory_pressure-Checked, debug_trace-bounded,
}
use freebsd_radix_userland.Xnu.Epoch.Reader.{
  trigger_reclaim, exit_at, xnu_epoch_enter_preempt, xnu_epoch_exit_preempt,
}
use freebsd_radix_userland.Xnu.Epoch.Reader.Migrated.{IsLeaked, migrated-IsLeaked}
use freebsd_radix_userland.Xnu.Tests.Grace.{kernel, quiet_epoch, outside}

abbrev callback_to : (argument flags : ℕ) → Callback
callback_to argument flags = record {
  callback = 1;
  argument = argument;
  target_epoch = 2;
  enqueue_time = 0;
  memory_size = 48;
  flags = flags;
}

-- Three callbacks, the first and the last of them urgent.
abbrev queued : Epoch
queued = record quiet_epoch {
  callback_queue = callback_to 10 1 ∷ callback_to 11 2 ∷ callback_to 12 3 ∷ [];
  memory = record (quiet_epoch.memory) { callback_count = 3 };
  debug_enabled = true;
  debug_level = 1;
}

urgent_first :
    (xnu_epoch_emergency_reclaim kernel 5 queued).executed
    ≡ callback_to 10 1 ∷ callback_to 12 3 ∷ []
unfolding xnu_epoch_emergency_reclaim reclaim_urgent move_urgent process_emergency
    xnu_epoch_record_debug_event
urgent_first = refl

-- Each callback enqueues another.
abbrev busy : Kernel
busy = record kernel { enqueued = λ c. callback_to (c.argument + 100) 1 ∷ [] }

abbrev left_over : Epoch → List ℕ
left_over e = map (λ c. c.argument) e.callback_queue

new_last : left_over (xnu_epoch_emergency_reclaim busy 5 queued) ≡ 11 ∷ 110 ∷ 112 ∷ []
unfolding xnu_epoch_emergency_reclaim reclaim_urgent move_urgent process_emergency
    xnu_epoch_record_debug_event
new_last = refl

emergency_reclaim-Urgent_example : Urgent busy queued (xnu_epoch_emergency_reclaim busy 5 queued)
emergency_reclaim-Urgent_example = emergency_reclaim-Urgent busy 5 queued

-- Nine of nine callbacks.
abbrev crowded : Epoch
crowded = record queued {
  memory = record (queued.memory) { callback_count = 9; callback_limit = 9 };
}

check_memory_pressure-Checked_example :
    Checked kernel crowded (xnu_epoch_check_memory_pressure kernel 1 crowded)
check_memory_pressure-Checked_example = check_memory_pressure-Checked kernel 1 crowded (omega arith)

debug_trace-bounded_example :
    length (xnu_epoch_record_debug_event kernel 5 queued 6).debug_trace ≤ debug_trace_size
debug_trace-bounded_example = debug_trace-bounded kernel 5 queued 6 (omega arith)

-- Processor 1 instead of 0.
abbrev elsewhere : Kernel
elsewhere = record kernel { cpu_number = 1 }

inside : Epoch × EpochTracker
unfolding xnu_epoch_enter_preempt xnu_epoch_record_debug_event
inside = elim (xnu_epoch_enter_preempt kernel quiet_epoch outside) [
  | done x ↦ x
  | _ ↦ (quiet_epoch, outside)
]

moved : Epoch × EpochTracker
unfolding inside xnu_epoch_enter_preempt xnu_epoch_record_debug_event
moved = elim (xnu_epoch_enter_preempt elsewhere inside.0 inside.1) [
  | done x ↦ x
  | _ ↦ (quiet_epoch, outside)
]

left : Epoch × EpochTracker
unfolding moved inside xnu_epoch_enter_preempt xnu_epoch_exit_preempt exit_at trigger_reclaim
left = elim (xnu_epoch_exit_preempt elsewhere moved.0 moved.1) [
  | done x ↦ x
  | _ ↦ (quiet_epoch, outside)
]

-- Nobody is in a section, and processor 0 counts a reader.
still_counted : (left.0.cpu_states 0).active_readers ≡ 1
unfolding left moved inside xnu_epoch_enter_preempt xnu_epoch_exit_preempt exit_at trigger_reclaim
still_counted = refl

migrated-IsLeaked_example : IsLeaked inside.0 0 left
unfolding left moved inside xnu_epoch_enter_preempt xnu_epoch_exit_preempt exit_at trigger_reclaim
migrated-IsLeaked_example =
    migrated-IsLeaked elsewhere elsewhere inside.0 inside.1 0 moved left refl refl refl refl refl
