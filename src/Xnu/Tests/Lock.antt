-- ===== src/Xnu/Tests/Lock.antt =====
-- A lock of two slots, with writers that queue.
use freebsd_radix_userland.Common.{
  ◌≢◌, sym, if-elim, ℕ, ◌≤◌, ◌<◌, ◌≡◌, refl, Bool, true, false, ◌⊎◌, ◌||◌, [], ◌∷◌, ◌++◌, ◌==◌,
  if◌then◌else◌, arith,
}
use freebsd_radix_userland.Xnu.Family.{total}
use freebsd_radix_userland.Xnu.Epoch.{sum_readers, xnu_epoch_record_debug_event}
use freebsd_radix_userland.Xnu.Epoch.Reader.{xnu_epoch_enter_preempt}
use freebsd_radix_userland.Xnu.Rmlock.{Rmlock, RmTracker, LckRw}
use freebsd_radix_userland.Xnu.Rmlock.Readers.{
  find_slot, empty_slot, xnu_rm_track_reader, xnu_rm_untrack_reader,
}
use freebsd_radix_userland.Xnu.Rmlock.Readers.Slots.{IsCounted, reader_table-IsCounted}
use freebsd_radix_userland.Xnu.Rmlock.Writers.{
  insert_waiter, fill_waiter, xnu_rm_enqueue_writer, xnu_rm_dequeue_writer,
}
use freebsd_radix_userland.Xnu.Rmlock.Writers.Order.{
  IsQueue, of_priority, enqueue_writer-IsQueue, dequeue_writer-IsQueue,
}
use freebsd_radix_userland.Xnu.Rmlock.Writers.Stuck.{
  Phase, waiting, tested, leaving, Writers, Reach, here, next, decide, enqueue, IsStuck,
  writers-IsStuck,
}
use freebsd_radix_userland.Xnu.Rmlock.Lock.{xnu_rm_try_wlock, try_rlock_fast, xnu_rm_try_rlock}
use freebsd_radix_userland.Xnu.Rmlock.Lock.Laws.{
  Tried, try_wlock-Tried, IfDone, TriedRead, try_rlock-TriedRead,
}
use freebsd_radix_userland.Xnu.Tests.Grace.{kernel, quiet_epoch, outside}

attempt_fails : (l : Bool) → (if l then false else true) ≡ false → true ≡ l
attempt_fails true h = refl
attempt_fails false h = absurd (ground arith)

release_undoes : (l : Bool) → (if l then false else true) ≡ true → false ≡ l
release_undoes true h = absurd (ground arith)
release_undoes false h = refl

-- A reader-writer lock without shared holders: taken or free.
abbrev flag_lock : LckRw Bool
flag_lock = record {
  lck_rw_try_lock_shared = λ l. (if l then false else true, l);
  lck_rw_try_lock_exclusive = λ l. (if l then false else true, true);
  lck_rw_unlock_shared = λ l. l;
  lck_rw_unlock_exclusive = λ l. false;
  try_fails = attempt_fails;
  unlock_undoes = release_undoes;
}

abbrev free : Rmlock Bool
free = record {
  self = 96;
  rw_lock = false;
  read_epoch = quiet_epoch;
  active_readers = λ _. empty_slot;
  max_readers = 2;
  current_readers = 0;
  writer_wait_queue = [];
  waiting_writers = 0;
  writer_priority = false;
  current_writer = 0;
  writer_start_time = 0;
  bias_threshold = 1000000;
  writer_threshold = 5000000;
  fast_path_enabled = true;
  stat_read_fast = 0;
  stat_read_slow = 0;
  stat_write_locks = 0;
  stat_contentions = 0;
  stat_reader_spins = 0;
  stat_writer_waits = 0;
  stat_timeout_events = 0;
  wakeups = [];
}

abbrev fresh : RmTracker
fresh = record { epoch_tracker = outside; rmlock = 0; acquire_time = 0; fast_path = false }

reader_table-IsCounted_example :
    IsCounted (xnu_rm_track_reader kernel 1 free fresh).0
    × IsCounted (xnu_rm_untrack_reader kernel free fresh)
    × (free.current_readers ≤ free.max_readers)
unfolding total
reader_table-IsCounted_example =
    reader_table-IsCounted kernel 1 free fresh (λ e. omega arith) (omega arith) refl

-- Writers of priorities 5 and 9 wait.
two_waiting : Rmlock Bool
unfolding xnu_rm_enqueue_writer insert_waiter
two_waiting = xnu_rm_enqueue_writer kernel 2 9 (xnu_rm_enqueue_writer kernel 1 5 free)

two_waiting-IsQueue : IsQueue two_waiting
unfolding two_waiting xnu_rm_enqueue_writer insert_waiter
two_waiting-IsQueue = (refl, ((omega arith, tt), (tt, tt)))

enqueue_writer-IsQueue_example :
    let w = fill_waiter kernel 3 5 in
    let rm' = xnu_rm_enqueue_writer kernel 3 5 two_waiting in
    IsQueue rm'
    × (of_priority 5 rm'.writer_wait_queue
        ≡ of_priority 5 two_waiting.writer_wait_queue ++ (if 5 == 5 then w ∷ [] else []))
unfolding two_waiting xnu_rm_enqueue_writer insert_waiter
enqueue_writer-IsQueue_example =
    enqueue_writer-IsQueue kernel 3 5 two_waiting two_waiting-IsQueue (omega arith) 5

dequeue_writer-IsQueue_example :
    let rm' = xnu_rm_dequeue_writer kernel two_waiting (fill_waiter kernel 1 5) in
    IsQueue rm'
    × ((0 < rm'.waiting_writers) ⊎ ((rm'.fast_path_enabled ≡ true) × (rm'.writer_priority ≡ false)))
unfolding two_waiting xnu_rm_enqueue_writer insert_waiter
dequeue_writer-IsQueue_example =
    dequeue_writer-IsQueue kernel two_waiting (fill_waiter kernel 1 5) refl two_waiting-IsQueue
      (omega arith)

abbrev in_loop : ℕ → Phase
in_loop i = if (i == 1) || (i == 2) then waiting else Phase.outside

writers_wait : Writers Bool
unfolding two_waiting
writers_wait = record { rm = two_waiting; phase = in_loop }

in_loop-ne : (p : Phase) → p ≢ waiting → p ≢ Phase.outside → (i : ℕ) → in_loop i ≢ p
in_loop-ne p not_waiting not_outside i =
    if-elim {A = Phase} (λ q. q ≢ p) ((i == 1) || (i == 2)) (λ _ e. not_waiting (sym e))
      (λ _ e. not_outside (sym e))

writers_wait-IsStuck : IsStuck writers_wait
unfolding writers_wait two_waiting xnu_rm_enqueue_writer insert_waiter
writers_wait-IsStuck = record {
  two = omega arith;
  none_tested = in_loop-ne tested (λ e. absurd (cc)) (λ e. absurd (cc));
  none_leaving = in_loop-ne leaving (λ e. absurd (cc)) (λ e. absurd (cc));
}

-- A third writer arrives, and the two still wait.
three_wait : (t : Writers Bool) × Reach writers_wait t
unfolding writers_wait two_waiting xnu_rm_enqueue_writer insert_waiter
three_wait =
    let decided = next here (decide 3 false refl refl) in
    (_, next decided (enqueue 3 kernel 7 refl (omega arith)))

writers-IsStuck_example :
    IsStuck three_wait.0
    × ((i : ℕ) → writers_wait.phase i ≡ waiting → three_wait.0.phase i ≡ waiting)
writers-IsStuck_example = writers-IsStuck writers_wait-IsStuck three_wait.1

try_wlock-Tried_example : Tried flag_lock kernel free (xnu_rm_try_wlock flag_lock kernel free)
unfolding total
try_wlock-Tried_example = try_wlock-Tried flag_lock kernel free (omega arith)

-- Thread 7 holds the lock for writing.
written : Rmlock Bool
unfolding xnu_rm_try_wlock sum_readers
written = (xnu_rm_try_wlock flag_lock kernel free).1

written_by : written.current_writer ≡ 7
unfolding written xnu_rm_try_wlock sum_readers
written_by = refl

-- Its slots are free: a reader gets in beside it.
beside : IfDone (λ r. r.0 ≡ true) (xnu_rm_try_rlock flag_lock kernel kernel kernel 1 written fresh)
unfolding xnu_rm_try_rlock try_rlock_fast xnu_epoch_enter_preempt xnu_rm_track_reader find_slot
    written xnu_rm_try_wlock sum_readers xnu_epoch_record_debug_event
beside = refl

try_rlock-TriedRead_example :
    IfDone
      (TriedRead flag_lock written)
      (xnu_rm_try_rlock flag_lock kernel kernel kernel 1 written fresh)
try_rlock-TriedRead_example = try_rlock-TriedRead flag_lock kernel kernel kernel 1 written fresh
