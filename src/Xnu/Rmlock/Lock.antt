-- ===== src/Xnu/Rmlock/Lock.antt =====
-- `xnu_rm_try_rlock` of src/xnu_kernel/xnu_freebsd_radix.c, and `xnu_rm_try_wlock`, `xnu_rm_wunlock`,
-- `xnu_rm_runlock` and `xnu_rm_get_reader_count` of src/xnu_kernel/xnu_rmlock_advanced.c. A pointer
-- that is NULL is left out.
pub mod Laws
use freebsd_radix_userland.Common.{
  ℕ, ◌+◌, ◌%◌, ◌^◌, Bool, true, false, not, ◌&&◌, ◌||◌, ltb, ◌==◌, if◌then◌else◌,
}
use freebsd_radix_userland.Xnu.Epoch.{
  inc64, Kernel, Epoch, EpochTracker, Outcome, done, panic, fault, sum_readers,
}
use freebsd_radix_userland.Xnu.Epoch.Reader.{xnu_epoch_enter_preempt, xnu_epoch_exit_preempt}
use freebsd_radix_userland.Xnu.Rmlock.{thread_null, Rmlock, RmTracker, LckRw}
use freebsd_radix_userland.Xnu.Rmlock.Readers.{xnu_rm_track_reader, xnu_rm_untrack_reader}
use freebsd_radix_userland.Xnu.Rmlock.Writers.{xnu_rm_wakeup_writers}

infixl 5 ◌>>=◌
abbrev pub ◌>>=◌ {ℓ κ} : {A : Type ℓ} {B : Type κ} → Outcome A → (A → Outcome B) → Outcome B
done a >>= f = f a
panic >>= f = panic
fault >>= f = fault

module _ {L : Type 0} (lck : LckRw L) where
  open lck use {
    lck_rw_try_lock_shared, lck_rw_try_lock_exclusive, lck_rw_unlock_shared,
    lck_rw_unlock_exclusive,
  }

  -- "Try slow path", at the time `now`.
  abbrev pub try_rlock_slow : ℕ → Rmlock L → RmTracker → Bool × Rmlock L × RmTracker
  try_rlock_slow now rm t =
      let (taken, l) = lck_rw_try_lock_shared rm.rw_lock in
      if taken
      then (
        true,
        record rm { rw_lock = l; stat_read_slow = inc64 rm.stat_read_slow },
        record t { rmlock = rm.self; acquire_time = now; fast_path = false },
      )
      else (false, record rm { rw_lock = l }, t)

  -- The fast path behind the table: a reader that is not in it leaves the epoch again.
  abbrev pub try_rlock_tracked :
      Kernel → Rmlock L × RmTracker → Outcome (Bool × Rmlock L × RmTracker)
  try_rlock_tracked exit (rm, t) =
      if t.fast_path
      then done (true, record rm { stat_read_fast = inc64 rm.stat_read_fast }, t)
      else (xnu_epoch_exit_preempt exit rm.read_epoch t.epoch_tracker >>= λ (e, et). done (
          try_rlock_slow (exit.clock 5) (record rm { read_epoch = e })
            (record t { epoch_tracker = et })))

  -- "Try fast path first"
  unfoldable pub try_rlock_fast :
      (enter track exit : Kernel) → ℕ → Rmlock L → RmTracker → Outcome (Bool × Rmlock L × RmTracker)
  unfolding xnu_epoch_enter_preempt xnu_epoch_exit_preempt xnu_rm_track_reader
  try_rlock_fast enter track exit id rm t =
      xnu_epoch_enter_preempt enter rm.read_epoch t.epoch_tracker >>= λ (e, et).
      try_rlock_tracked exit (
        xnu_rm_track_reader track id (record rm { read_epoch = e })
          (record t { epoch_tracker = et }))

  -- The kernel's answers for the enter, for the table and, where it is full, for the exit.
  unfoldable pub xnu_rm_try_rlock :
      (enter track exit : Kernel) → ℕ → Rmlock L → RmTracker → Outcome (Bool × Rmlock L × RmTracker)
  unfolding try_rlock_fast
  xnu_rm_try_rlock enter track exit id rm t =
      if rm.fast_path_enabled && not rm.writer_priority
      then try_rlock_fast enter track exit id rm t
      else done (try_rlock_slow (enter.clock 5) rm t)

  unfoldable pub xnu_rm_runlock : Kernel → Rmlock L → RmTracker → Outcome (Rmlock L × RmTracker)
  unfolding xnu_epoch_exit_preempt xnu_rm_untrack_reader
  xnu_rm_runlock k rm t =
      let left = xnu_rm_untrack_reader k rm t in
      if t.fast_path
      then (xnu_epoch_exit_preempt k left.read_epoch t.epoch_tracker >>= λ (e, et). done (
        record left { read_epoch = e },
        record t { epoch_tracker = et; rmlock = 0; fast_path = false },
      ))
      else done (
        record rm { rw_lock = lck_rw_unlock_shared rm.rw_lock },
        record t { rmlock = 0; fast_path = false },
      )

  unfoldable pub xnu_rm_try_wlock : Kernel → Rmlock L → Bool × Rmlock L
  unfolding sum_readers
  xnu_rm_try_wlock k rm =
      if ltb 0 rm.current_readers
      then (false, rm)
      else let (taken, l) = lck_rw_try_lock_exclusive rm.rw_lock in
        if not taken
        then (false, record rm { rw_lock = l })
        else if ltb 0 (sum_readers rm.read_epoch.max_cpus rm.read_epoch.cpu_states)
        then (false, record rm { rw_lock = lck_rw_unlock_exclusive l })
        else (
          true,
          record rm {
            rw_lock = l;
            current_writer = k.current_thread;
            writer_start_time = k.clock 0;
            stat_write_locks = inc64 rm.stat_write_locks;
          },
        )

  unfoldable pub xnu_rm_wunlock : Rmlock L → Rmlock L
  unfolding xnu_rm_wakeup_writers
  xnu_rm_wunlock rm =
      xnu_rm_wakeup_writers
        (record rm { current_writer = thread_null; rw_lock = lck_rw_unlock_exclusive rm.rw_lock })

  unfoldable pub xnu_rm_get_reader_count : Rmlock L → ℕ
  unfolding sum_readers
  xnu_rm_get_reader_count rm =
      (rm.current_readers + sum_readers rm.read_epoch.max_cpus rm.read_epoch.cpu_states) % 2 ^ 32
