-- ===== src/Xnu/Rmlock.antt =====
-- The read-mostly lock of src/xnu_kernel: `struct xnu_rmlock` and the parts of its state. Its
-- reader-writer lock is the kernel's and stands behind an interface. Spin locks, names, debugging and
-- the fields that no function reads are left out.
pub mod Readers
pub mod Writers
pub mod Lock
use freebsd_radix_userland.Common.{ℕ, ◌≡◌, Bool, true, false, List}
use freebsd_radix_userland.Xnu.Epoch.{Epoch, EpochTracker}

abbrev pub thread_null : ℕ
thread_null = 0

-- `struct xnu_reader_state`
pub record ReaderState : Type 0 where
  pub reader_id : ℕ
  pub thread : ℕ
  pub cpu_id : ℕ
  pub enter_time : ℕ
  pub hold_time : ℕ
  pub priority_boost : Bool

-- `struct xnu_writer_waiter`, with its address.
pub record WriterWaiter : Type 0 where
  pub address : ℕ
  pub thread : ℕ
  pub wait_start : ℕ
  pub priority : ℕ

-- `struct xnu_rmlock`. `self` is its address; `wakeups` lists the threads that were woken.
pub record Rmlock (L : Type 0) : Type 0 where
  pub self : ℕ
  pub rw_lock : L
  pub read_epoch : Epoch
  pub active_readers : ℕ → ReaderState
  pub max_readers : ℕ
  pub current_readers : ℕ  -- uint32_t
  pub writer_wait_queue : List WriterWaiter
  pub waiting_writers : ℕ  -- uint32_t
  pub writer_priority : Bool
  pub current_writer : ℕ
  pub writer_start_time : ℕ
  pub bias_threshold : ℕ
  pub writer_threshold : ℕ
  pub fast_path_enabled : Bool
  pub stat_read_fast : ℕ
  pub stat_read_slow : ℕ
  pub stat_write_locks : ℕ
  pub stat_contentions : ℕ
  pub stat_reader_spins : ℕ
  pub stat_writer_waits : ℕ
  pub stat_timeout_events : ℕ
  pub wakeups : List ℕ

-- `struct xnu_rm_priotracker`
pub record RmTracker : Type 0 where
  pub epoch_tracker : EpochTracker
  pub rmlock : ℕ
  pub acquire_time : ℕ
  pub fast_path : Bool

-- `lck_rw_t`. An exclusive attempt that succeeds is undone by the release.
pub record LckRw (L : Type 0) : Type 0 where
  pub lck_rw_try_lock_shared : L → Bool × L
  pub lck_rw_try_lock_exclusive : L → Bool × L
  pub lck_rw_unlock_shared : L → L
  pub lck_rw_unlock_exclusive : L → L
  pub try_fails :
      (l : L) → (lck_rw_try_lock_exclusive l).0 ≡ false → (lck_rw_try_lock_exclusive l).1 ≡ l
  pub unlock_undoes :
      (l : L)
      → (lck_rw_try_lock_exclusive l).0 ≡ true
      → lck_rw_unlock_exclusive (lck_rw_try_lock_exclusive l).1 ≡ l
