-- ===== src/Xnu/Epoch/Pressure.antt =====
-- `xnu_epoch_check_memory_pressure` and `xnu_epoch_emergency_reclaim` of
-- src/xnu_kernel/xnu_freebsd_radix.c. Of a callback's own effect the callbacks that it enqueues are kept,
-- and that it ran.
pub mod Laws
use freebsd_radix_userland.Common.{
  ℕ, suc, ◌+◌, ◌*◌, ◌/◌, ◌%◌, ◌^◌, ◌≤◌, ◌<◌, ◌≡◌, refl, ◌&&◌, Bool, true, false, not, List, [], ◌∷◌,
  ◌++◌, ltb, leb, ◌==◌, if◌then◌else◌, length, bit_and, arith, ap,
}
use mathlib.Core.List.{Perm}
use mathlib.Core.List.Perm
use freebsd_radix_userland.Xnu.Epoch.{
  inc32, dec32, inc64, Kernel, EpochMemory, Callback, Epoch, xnu_epoch_record_debug_event,
  SameReaders, SameReaders-refl, SameReaders-trans, SameReaders-if, record_debug_event-SameReaders,
}

abbrev pub debug_emergency : ℕ
debug_emergency = 6

-- `entry->flags & EPOCH_CB_FLAG_URGENT`
abbrev pub is_urgent : Callback → Bool
is_urgent c = not (bit_and c.flags 0x01 == 0)

-- `queue_iterate_safely`, from the entry that heads the list on: an urgent one leaves the queue and goes
-- to the end of the emergency queue. The result is what stays and the emergency queue.
unfoldable pub move_urgent : (queue emergency : List Callback) → List Callback × List Callback
move_urgent [] emergency = ([], emergency)
move_urgent (c ∷ cs) emergency =
    let (queue, after) = move_urgent cs (if is_urgent c then emergency ++ c ∷ [] else emergency) in
    (if is_urgent c then queue else c ∷ queue, after)

-- "Update memory tracking"
abbrev pub account : EpochMemory → Callback → EpochMemory
account m c = record m {
  callback_count = dec32 m.callback_count;
  bytes_reclaimed = (m.bytes_reclaimed + c.memory_size) % 2 ^ 64;
  emergency_reclaim = inc32 m.emergency_reclaim;
}

-- One round of `while (!queue_empty(&emergency_queue))`: the callback runs, and what it puts into the
-- epoch's queue goes to the end of that.
abbrev pub run_callback : Kernel → Callback → Epoch → Epoch
run_callback k c e = record e {
  executed = e.executed ++ c ∷ [];
  callback_queue = e.callback_queue ++ k.enqueued c;
  memory = account e.memory c;
}

unfoldable pub process_emergency : Kernel → List Callback → Epoch → Epoch
process_emergency k [] e = e
process_emergency k (c ∷ cs) e = process_emergency k cs (run_callback k c e)

-- Both loops, and the statistics behind them.
unfoldable pub reclaim_urgent : Kernel → Epoch → Epoch
unfolding move_urgent process_emergency
reclaim_urgent k e =
    let (queue, emergency) = move_urgent e.callback_queue [] in
    let f = process_emergency k emergency (record e { callback_queue = queue }) in
    record f { emergency_reclaims = inc64 f.emergency_reclaims }

unfoldable pub xnu_epoch_emergency_reclaim : Kernel → ℕ → Epoch → Epoch
unfolding reclaim_urgent
xnu_epoch_emergency_reclaim k time e =
    if e.debug_enabled
    then xnu_epoch_record_debug_event k time (reclaim_urgent k e) debug_emergency
    else reclaim_urgent k e

-- `callback_limit * 9 / 10` in 32 bits
abbrev pub tenths : (limit n : ℕ) → ℕ
tenths limit n = limit * n % 2 ^ 32 / 10

unfoldable pub pressure_level : (count limit : ℕ) → ℕ
pressure_level count limit =
    if ltb (tenths limit 9) count
    then 3
    else if ltb (tenths limit 7) count
    then 2
    else if ltb (limit / 2) count
    then 1
    else 0

-- The new level of pressure, noted in the trace where it is higher.
unfoldable pub set_pressure : Kernel → ℕ → Epoch → Epoch
unfolding pressure_level
set_pressure k time e =
    if ltb e.memory.memory_pressure level && e.debug_enabled
    then xnu_epoch_record_debug_event k time levelled debug_emergency
    else levelled
  where
    level : ℕ
    level = pressure_level e.memory.callback_count e.memory.callback_limit

    levelled : Epoch
    levelled = record e { memory = record (e.memory) { memory_pressure = level } }

unfoldable pub xnu_epoch_check_memory_pressure : Kernel → ℕ → Epoch → Epoch
unfolding set_pressure
xnu_epoch_check_memory_pressure k i e =
    if ltb (tenths e.memory.callback_limit 9) e.memory.callback_count
    then xnu_epoch_emergency_reclaim k (k.clock (suc i)) (set_pressure k (k.clock i) e)
    else set_pressure k (k.clock i) e

process_emergency-SameReaders :
    (k : Kernel) (cs : List Callback) (e : Epoch) → SameReaders e (process_emergency k cs e)
unfolding process_emergency
process_emergency-SameReaders k [] e = SameReaders-refl e
process_emergency-SameReaders k (c ∷ cs) e =
    let first : SameReaders e (run_callback k c e) = record {
      self = refl;
      cpu_states = refl;
      max_cpus = refl;
      grace_period = refl;
    } in
    SameReaders-trans first (process_emergency-SameReaders k cs (run_callback k c e))

reclaim_urgent-SameReaders : (k : Kernel) (e : Epoch) → SameReaders e (reclaim_urgent k e)
unfolding reclaim_urgent
reclaim_urgent-SameReaders k e =
    let (queue, emergency) = move_urgent e.callback_queue [] in
    let f = process_emergency-SameReaders k emergency (record e { callback_queue = queue }) in
    record {
      self = f.self;
      cpu_states = f.cpu_states;
      max_cpus = f.max_cpus;
      grace_period = f.grace_period;
    }

emergency_reclaim-SameReaders :
    (k : Kernel) (time : ℕ) (e : Epoch) → SameReaders e (xnu_epoch_emergency_reclaim k time e)
unfolding xnu_epoch_emergency_reclaim
emergency_reclaim-SameReaders k time e =
    SameReaders-if e.debug_enabled
      (SameReaders-trans (reclaim_urgent-SameReaders k e)
        (record_debug_event-SameReaders k time (reclaim_urgent k e) debug_emergency))
      (reclaim_urgent-SameReaders k e)

set_pressure-SameReaders :
    (k : Kernel) (time : ℕ) (e : Epoch) → SameReaders e (set_pressure k time e)
unfolding set_pressure xnu_epoch_record_debug_event
set_pressure-SameReaders k time e = ground arith

pub check_memory_pressure-SameReaders :
    (k : Kernel) (i : ℕ) (e : Epoch) → SameReaders e (xnu_epoch_check_memory_pressure k i e)
unfolding xnu_epoch_check_memory_pressure
check_memory_pressure-SameReaders k i e =
    SameReaders-if (ltb (tenths e.memory.callback_limit 9) e.memory.callback_count)
      (SameReaders-trans (set_pressure-SameReaders k (k.clock i) e)
        (emergency_reclaim-SameReaders k (k.clock (suc i)) (set_pressure k (k.clock i) e)))
      (set_pressure-SameReaders k (k.clock i) e)
