-- ===== src/Xnu/Epoch.antt =====
-- The epoch of src/xnu_kernel/xnu_freebsd_radix.h: the state of each processor, the grace period, the
-- queue of callbacks and the account of memory, with the readings and calls of the kernel it uses.
-- The spin locks and mutexes that guard a block of code, names and texts of events are left out.
pub mod Reader
pub mod Pressure
pub mod Grace
pub mod System
use freebsd_radix_userland.Common.{
  ℕ, zero, suc, ◌+◌, ◌-◌, ◌%◌, ◌^◌, Bool, true, false, ◌&&◌, not, Option, List, [], ◌∷◌, ◌++◌, leb,
  ◌==◌, ◌||◌, ◌≡◌, refl, ◌∙◌, arith, if◌then◌else◌, length,
}
use freebsd_radix_userland.Xnu.Family.{assign}

abbrev pub inc32 : ℕ → ℕ
inc32 n = (n + 1) % 2 ^ 32

abbrev pub dec32 : ℕ → ℕ
dec32 n = (n + (2 ^ 32 - 1)) % 2 ^ 32

abbrev pub inc64 : ℕ → ℕ
inc64 n = (n + 1) % 2 ^ 64

-- `mach_absolute_time() - start`
abbrev pub elapsed : (now start : ℕ) → ℕ
elapsed now start = (now + 2 ^ 64 - start % 2 ^ 64) % 2 ^ 64

-- `struct epoch_callback_entry`: a callback is the number of a function.
pub record Callback : Type 0 where
  pub callback : ℕ
  pub argument : ℕ
  pub target_epoch : ℕ
  pub enqueue_time : ℕ
  pub memory_size : ℕ
  pub flags : ℕ

-- What the kernel answers during one call: `clock i` is the i-th reading of the time.
pub record Kernel : Type 0 where
  pub cpu_number : ℕ
  pub current_thread : ℕ
  pub at_interrupt_context : Bool
  pub interrupt_level : ℕ
  pub clock : ℕ → ℕ
  pub reclaim_isactive : Bool  -- thread_call_isactive(epoch->reclaim_call)
  pub zalloc_noblock : Bool  -- the debug zone has an entry left
  pub enqueued : Callback → List Callback  -- what a callback puts into the queue while it runs

-- Calls that the epoch asks the kernel to make later.
pub data ThreadCall : Type 0 where
  enter_reclaim delay_reclaim delay_grace_period : ThreadCall

-- `struct xnu_epoch_cpu_state`
pub record CpuState : Type 0 where
  pub local_epoch : ℕ  -- uint64_t
  pub active_readers : ℕ  -- uint32_t
  pub call_depth : ℕ  -- uint32_t
  pub enter_count : ℕ
  pub exit_count : ℕ
  pub last_grace_period : ℕ
  pub in_grace_period : Bool
  pub fast_path_enters : ℕ
  pub slow_path_enters : ℕ
  pub grace_periods : ℕ

pub data GpState : Type 0 where
  gp_idle gp_started gp_waiting gp_completed : GpState

-- `struct xnu_grace_period`
pub record GracePeriod : Type 0 where
  pub gp_number : ℕ
  pub gp_start_time : ℕ
  pub gp_state : GpState
  pub cpu_mask : ℕ  -- uint32_t
  pub completed_mask : ℕ  -- uint32_t

-- `struct xnu_epoch_memory`
pub record EpochMemory : Type 0 where
  pub callback_count : ℕ  -- uint32_t
  pub callback_limit : ℕ
  pub memory_pressure : ℕ
  pub emergency_reclaim : ℕ
  pub bytes_reclaimed : ℕ

-- `struct epoch_debug_trace`
pub record DebugTrace : Type 0 where
  pub timestamp : ℕ
  pub thread : ℕ
  pub cpu_id : ℕ
  pub event_type : ℕ
  pub epoch_number : ℕ
  pub active_readers : ℕ

-- `struct xnu_epoch`. `self` is its address; `executed` lists the callbacks that have run and `calls`
-- what the kernel was asked to call later, both with the latest last.
pub record Epoch : Type 0 where
  pub self : ℕ
  pub epoch_number : ℕ
  pub cpu_states : ℕ → CpuState
  pub max_cpus : ℕ
  pub grace_period : GracePeriod
  pub callback_queue : List Callback
  pub memory : EpochMemory
  pub interrupt_safe : Bool
  pub interrupt_depth : ℕ
  pub total_enters : ℕ
  pub total_exits : ℕ
  pub grace_periods_completed : ℕ
  pub emergency_reclaims : ℕ
  pub debug_enabled : Bool
  pub debug_level : ℕ
  pub debug_trace : List DebugTrace
  pub executed : List Callback
  pub calls : List ThreadCall

-- `struct xnu_epoch_tracker`. `cpu_state` is an index into the states of the epoch `epoch`.
pub record EpochTracker : Type 0 where
  pub enter_epoch : ℕ
  pub thread : ℕ
  pub epoch : ℕ
  pub enter_time : ℕ
  pub active : Bool
  pub cpu_id : ℕ
  pub cpu_state : Option ℕ
  pub nesting_level : ℕ
  pub hold_time_start : ℕ
  pub total_hold_time : ℕ
  pub enter_count : ℕ
  pub from_interrupt : Bool
  pub interrupt_level : ℕ

-- A call returns, panics, or goes outside an array.
pub data Outcome {ℓ} (A : Type ℓ) : Type ℓ where
  done : A → Outcome A
  panic : Outcome A
  fault : Outcome A

abbrev pub set_cpu : Epoch → ℕ → CpuState → Epoch
set_cpu e c s = record e { cpu_states = assign e.cpu_states c s }

-- The sum of `active_readers` over the first processors, in 32 bits.
unfoldable pub sum_readers : ℕ → (ℕ → CpuState) → ℕ
sum_readers zero cpus = 0
sum_readers (suc n) cpus = (sum_readers n cpus + (cpus n).active_readers) % 2 ^ 32

abbrev pub debug_trace_size : ℕ
debug_trace_size = 1000

abbrev pub trim_trace : List DebugTrace → List DebugTrace
trim_trace [] = []
trim_trace (t ∷ ts) = if leb debug_trace_size (length (t ∷ ts)) then ts else t ∷ ts

unfoldable pub xnu_epoch_record_debug_event : Kernel → ℕ → Epoch → ℕ → Epoch
unfolding sum_readers
xnu_epoch_record_debug_event k time e event =
    if not e.debug_enabled || (e.debug_level == 0)
    then e
    else if not k.zalloc_noblock
    then e
    else record e { debug_trace = trim_trace e.debug_trace ++ entry ∷ [] }
  where
    entry : DebugTrace
    entry = record {
      timestamp = time;
      thread = k.current_thread;
      cpu_id = k.cpu_number;
      event_type = event;
      epoch_number = e.epoch_number;
      active_readers = sum_readers e.max_cpus e.cpu_states;
    }

-- The part of an epoch that readers and grace periods are about.
pub record SameReaders (e e' : Epoch) : Type 0 where
  pub self : e'.self ≡ e.self
  pub cpu_states : e'.cpu_states ≡ e.cpu_states
  pub max_cpus : e'.max_cpus ≡ e.max_cpus
  pub grace_period : e'.grace_period ≡ e.grace_period

abbrev pub SameReaders-refl : (e : Epoch) → SameReaders e e
SameReaders-refl e = record { self = refl; cpu_states = refl; max_cpus = refl; grace_period = refl }

pub SameReaders-trans : {a b c : Epoch} → SameReaders a b → SameReaders b c → SameReaders a c
SameReaders-trans p q = record {
  self = q.self ∙ p.self;
  cpu_states = q.cpu_states ∙ p.cpu_states;
  max_cpus = q.max_cpus ∙ p.max_cpus;
  grace_period = q.grace_period ∙ p.grace_period;
}

pub SameReaders-if :
    {e x y : Epoch} (b : Bool)
    → SameReaders e x
    → SameReaders e y
    → SameReaders e (if b then x else y)
SameReaders-if true p q = p
SameReaders-if false p q = q

pub record_debug_event-SameReaders :
    (k : Kernel) (time : ℕ) (e : Epoch) (event : ℕ)
    → SameReaders e (xnu_epoch_record_debug_event k time e event)
unfolding xnu_epoch_record_debug_event
record_debug_event-SameReaders k time e event = ground arith
