-- ===== src/Xnu/Epoch/Pressure/Laws.antt =====
-- The account of memory: what emergency reclamation does to the queue, and the levels of pressure.
use freebsd_radix_userland.Common.{
  ℕ, suc, ◌/◌, Bool, ◌+◌, ◌^◌, ◌≤◌, ◌<◌, ◌≡◌, refl, sym, ◌∙◌, ap, ◌%◌, ◌*◌, ◌↔◌, ltb, true, false,
  if◌then◌else◌, inl, inr, Bool-cases, ◌||◌, not, List, [], ◌∷◌, ◌++◌, ◌==◌, if-elim, select,
  length, length-append, arith,
}
use mathlib.Core.List.{append_assoc, append-nil}
use freebsd_radix_userland.Common.Digits.{bit_and_rec, bit_and_zero}
use freebsd_radix_userland.Xnu.Epoch.{
  Kernel, DebugTrace, Callback, Epoch, xnu_epoch_record_debug_event, trim_trace, debug_trace_size,
}
use freebsd_radix_userland.Xnu.Epoch.Pressure.{
  is_urgent, move_urgent, run_callback, process_emergency, reclaim_urgent,
  xnu_epoch_emergency_reclaim, xnu_epoch_check_memory_pressure, set_pressure, tenths,
  pressure_level, debug_emergency,
}

-- EPOCH_CB_FLAG_URGENT is the lowest bit of the flags.
abbrev pub has_urgent : Callback → Bool
has_urgent c = c.flags % 2 == 1

is_urgent-eq : (c : Callback) → is_urgent c ≡ has_urgent c
is_urgent-eq c = ground (arith, bit_and_rec c.flags 1, bit_and_zero (c.flags / 2))

-- The first loop parts the queue in two, each part in the order of the queue.
move_urgent-select :
    (queue emergency : List Callback)
    → move_urgent queue emergency
      ≡ (select (λ c. not (has_urgent c)) queue, emergency ++ select has_urgent queue)
unfolding move_urgent
move_urgent-select [] emergency = ap (λ xs. ([], xs)) (sym (append-nil emergency))
move_urgent-select (c ∷ cs) emergency = rw (is_urgent-eq c) (elim (Bool-cases (has_urgent c)) [
  | inl urgent ↦
      rw
        (
          urgent,
          move_urgent-select cs (emergency ++ c ∷ []),
          append_assoc emergency (c ∷ []) (select has_urgent cs),
        )
        refl
  | inr other ↦ rw (other, move_urgent-select cs emergency) refl
])

-- What the callbacks of a list hold, and what they enqueue.
abbrev pub held : List Callback → ℕ
held [] = 0
held (c ∷ cs) = c.memory_size + held cs

abbrev pub enqueued_by : Kernel → List Callback → List Callback
enqueued_by k [] = []
enqueued_by k (c ∷ cs) = k.enqueued c ++ enqueued_by k cs

-- The callbacks of `run` have run, one after the other, and those of `kept` have stayed in the queue.
-- The counters of 32 and 64 bits have gone on by their number and by what they held.
pub record Reclaimed (k : Kernel) (run kept : List Callback) (e f : Epoch) : Type 0 where
  pub executed : f.executed ≡ e.executed ++ run
  pub callback_queue : f.callback_queue ≡ kept ++ enqueued_by k run
  pub callback_count :
      (f.memory.callback_count + length run) % 2 ^ 32 ≡ e.memory.callback_count % 2 ^ 32
  pub bytes_reclaimed :
      f.memory.bytes_reclaimed % 2 ^ 64 ≡ (e.memory.bytes_reclaimed + held run) % 2 ^ 64
  pub emergency_reclaim :
      f.memory.emergency_reclaim % 2 ^ 32 ≡ (e.memory.emergency_reclaim + length run) % 2 ^ 32
  pub memory_pressure : f.memory.memory_pressure ≡ e.memory.memory_pressure

process_emergency-Reclaimed :
    (k : Kernel) (cs : List Callback) (e : Epoch)
    → Reclaimed k cs e.callback_queue e (process_emergency k cs e)
unfolding process_emergency
process_emergency-Reclaimed k [] e = record {
  executed = sym (append-nil e.executed);
  callback_queue = sym (append-nil e.callback_queue);
  callback_count = omega arith;
  bytes_reclaimed = omega arith;
  emergency_reclaim = omega arith;
  memory_pressure = refl;
}
process_emergency-Reclaimed k (c ∷ cs) e =
    let f = process_emergency-Reclaimed k cs (run_callback k c e) in
    record {
      executed = f.executed ∙ append_assoc e.executed (c ∷ []) cs;
      callback_queue =
          f.callback_queue ∙ append_assoc e.callback_queue (k.enqueued c) (enqueued_by k cs);
      callback_count = omega (arith, f.callback_count);
      bytes_reclaimed = omega (arith, f.bytes_reclaimed);
      emergency_reclaim = omega (arith, f.emergency_reclaim);
      memory_pressure = f.memory_pressure;
    }

-- The urgent callbacks have run, in the order of the queue, and the others have stayed.
abbrev pub Urgent : Kernel → Epoch → Epoch → Type 0
Urgent k e f =
    Reclaimed k (select has_urgent e.callback_queue)
      (select (λ c. not (has_urgent c)) e.callback_queue) e f

reclaim_urgent-Urgent : (k : Kernel) (e : Epoch) → Urgent k e (reclaim_urgent k e)
unfolding reclaim_urgent
reclaim_urgent-Urgent k e = rw (move_urgent-select e.callback_queue []) (
    let f =
      process_emergency-Reclaimed k (select has_urgent e.callback_queue)
        (record e { callback_queue = select (λ c. not (has_urgent c)) e.callback_queue }) in
    record {
      executed = f.executed;
      callback_queue = f.callback_queue;
      callback_count = f.callback_count;
      bytes_reclaimed = f.bytes_reclaimed;
      emergency_reclaim = f.emergency_reclaim;
      memory_pressure = f.memory_pressure;
    })

-- What a debugging event leaves alone.
abbrev SameQueue : Epoch → Epoch → Type 0
SameQueue e f =
    (f.executed ≡ e.executed) × (f.callback_queue ≡ e.callback_queue) × (f.memory ≡ e.memory)

record_debug_event-SameQueue :
    (k : Kernel) (time : ℕ) (e : Epoch) (event : ℕ)
    → SameQueue e (xnu_epoch_record_debug_event k time e event)
unfolding xnu_epoch_record_debug_event
record_debug_event-SameQueue k time e event = ground arith

noted-Urgent :
    (k : Kernel) (time event : ℕ) (e f : Epoch)
    → Urgent k e f
    → Urgent k e (xnu_epoch_record_debug_event k time f event)
noted-Urgent k time event e f u =
    let same = record_debug_event-SameQueue k time f event in
    record {
      executed = same.0 ∙ u.executed;
      callback_queue = same.1 ∙ u.callback_queue;
      callback_count =
          ap (λ m. (m.callback_count + length (select has_urgent e.callback_queue)) % 2 ^ 32) same.2
          ∙ u.callback_count;
      bytes_reclaimed = ap (λ m. m.bytes_reclaimed % 2 ^ 64) same.2 ∙ u.bytes_reclaimed;
      emergency_reclaim = ap (λ m. m.emergency_reclaim % 2 ^ 32) same.2 ∙ u.emergency_reclaim;
      memory_pressure = ap (λ m. m.memory_pressure) same.2 ∙ u.memory_pressure;
    }

-- `xnu_epoch_emergency_reclaim` runs exactly the urgent callbacks of the queue, each once and in the
-- order of the queue; the others stay, in their order, with those behind them that the callbacks
-- enqueue, urgent or not; and the counters go on by the number that ran and the sizes they held,
-- modulo 2^32 and 2^64.
pub emergency_reclaim-Urgent :
    (k : Kernel) (time : ℕ) (e : Epoch) → Urgent k e (xnu_epoch_emergency_reclaim k time e)
unfolding xnu_epoch_emergency_reclaim
emergency_reclaim-Urgent k time e =
    if-elim {A = Epoch} (Urgent k e) e.debug_enabled
      (λ _. noted-Urgent k time debug_emergency e (reclaim_urgent k e) (reclaim_urgent-Urgent k e))
      (λ _. reclaim_urgent-Urgent k e)

-- The level of pressure at which `count` of `limit` callbacks stand, in exact fractions.
pub record IsLevel (count limit level : ℕ) : Type 0 where
  pub critical : (level ≡ 3) ↔ (9 * limit < 10 * count)
  pub high : (2 ≤ level) ↔ (7 * limit < 10 * count)
  pub moderate : (1 ≤ level) ↔ (limit < 2 * count)
  pub most : level ≤ 3

pressure_level-IsLevel :
    (count limit : ℕ) → 9 * limit < 2 ^ 32 → IsLevel count limit (pressure_level count limit)
unfolding pressure_level
pressure_level-IsLevel count limit fits =
    let nine : limit * 9 % 2 ^ 32 ≡ 9 * limit = omega arith in
    let seven : limit * 7 % 2 ^ 32 ≡ 7 * limit = omega arith in
    rw (nine, seven)
      (record {
        critical = ((λ e. ground arith), (λ lt. ground arith));
        high = ((λ e. ground arith), (λ lt. ground arith));
        moderate = ((λ e. ground arith), (λ lt. ground arith));
        most = ground arith;
      })

-- What the new level leaves alone.
set_pressure-SameQueue :
    (k : Kernel) (time : ℕ) (e : Epoch)
    → SameQueue
        (record e {
          memory = record (e.memory) {
            memory_pressure = pressure_level e.memory.callback_count e.memory.callback_limit;
          };
        })
        (set_pressure k time e)
unfolding set_pressure xnu_epoch_record_debug_event
set_pressure-SameQueue k time e = ground arith

-- What a check of the pressure comes to.
pub record Checked (k : Kernel) (e f : Epoch) : Type 0 where
  pub level : IsLevel e.memory.callback_count e.memory.callback_limit f.memory.memory_pressure
  pub executed : f.executed ≡ (
      if ltb (9 * e.memory.callback_limit) (10 * e.memory.callback_count)
      then e.executed ++ select has_urgent e.callback_queue
      else e.executed)

-- For a limit that is less than a ninth of 2^32, `xnu_epoch_check_memory_pressure` sets the level to 3
-- exactly where there are more callbacks than nine tenths of the limit, to 2 or more where there are
-- more than seven tenths, and to 1 or more where there are more than half of it; and it runs the
-- urgent callbacks of the queue in the first case, and none otherwise.
pub check_memory_pressure-Checked :
    (k : Kernel) (i : ℕ) (e : Epoch)
    → 9 * e.memory.callback_limit < 2 ^ 32
    → Checked k e (xnu_epoch_check_memory_pressure k i e)
unfolding xnu_epoch_check_memory_pressure
check_memory_pressure-Checked k i e fits =
    let same = set_pressure-SameQueue k (k.clock i) e in
    let at = ap (λ m. m.memory_pressure) same.2 in
    let level = pressure_level-IsLevel e.memory.callback_count e.memory.callback_limit fits in
    let nine : e.memory.callback_limit * 9 % 2 ^ 32 ≡ 9 * e.memory.callback_limit = omega arith in
    if-elim {A = Epoch} (Checked k e)
      (ltb (tenths e.memory.callback_limit 9) e.memory.callback_count)
      (λ over.
        let u = emergency_reclaim-Urgent k (k.clock (suc i)) (set_pressure k (k.clock i) e) in
        let above : ltb (9 * e.memory.callback_limit) (10 * e.memory.callback_count) ≡ true =
          ground arith in
        record {
          level = rw (u.memory_pressure, at) level;
          executed = rw above (rw (same.0, same.1) at u.executed);
        })
      (λ under.
        let below : ltb (9 * e.memory.callback_limit) (10 * e.memory.callback_count) ≡ false =
          ground arith in
        record { level = rw at level; executed = rw below same.0 })

length-trim_trace :
    (ts : List DebugTrace)
    → length ts ≤ debug_trace_size
    → length (trim_trace ts) < debug_trace_size
length-trim_trace [] le = omega arith
length-trim_trace (t ∷ ts) le = ground arith

abbrev IsShort : Epoch → Type 0
IsShort f = length f.debug_trace ≤ debug_trace_size

-- A trace of at most 1000 events stays one.
pub debug_trace-bounded :
    (k : Kernel) (time : ℕ) (e : Epoch) (event : ℕ)
    → length e.debug_trace ≤ debug_trace_size
    → length (xnu_epoch_record_debug_event k time e event).debug_trace ≤ debug_trace_size
unfolding xnu_epoch_record_debug_event
debug_trace-bounded k time e event le =
    if-elim {A = Epoch} IsShort (not e.debug_enabled || (e.debug_level == 0)) (λ _. le)
      (λ _.
        if-elim {A = Epoch} IsShort (not k.zalloc_noblock) (λ _. le)
          (λ _. omega (
            arith,
            length-trim_trace e.debug_trace le,
            length-append (trim_trace e.debug_trace) (_ ∷ []),
          )))
