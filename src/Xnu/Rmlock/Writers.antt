-- ===== src/Xnu/Rmlock/Writers.antt =====
-- The queue of writers: `xnu_rm_enqueue_writer`, `xnu_rm_dequeue_writer` and `xnu_rm_wakeup_writers` of
-- src/xnu_kernel/xnu_freebsd_radix.c, and the wait of `xnu_rm_wlock_advanced`.
pub mod Order
pub mod Stuck
use freebsd_radix_userland.Common.{
  ℕ, ◌+◌, ◌-◌, ◌%◌, ◌^◌, Bool, true, false, ◌||◌, List, [], ◌∷◌, ◌++◌, ltb, ◌==◌, if◌then◌else◌,
}
use freebsd_radix_userland.Xnu.Epoch.{inc32, dec32, inc64, elapsed, Kernel}
use freebsd_radix_userland.Xnu.Rmlock.{thread_null, WriterWaiter, Rmlock}

-- In front of the first waiter of a lower priority, or at the end.
unfoldable pub insert_waiter : WriterWaiter → List WriterWaiter → List WriterWaiter
insert_waiter w [] = w ∷ []
insert_waiter w (v ∷ vs) =
    let rest = insert_waiter w vs in if ltb v.priority w.priority then w ∷ v ∷ vs else v ∷ rest

-- `queue_remove`, by the waiter's address.
unfoldable pub remove_waiter : ℕ → List WriterWaiter → List WriterWaiter
remove_waiter a [] = []
remove_waiter a (v ∷ vs) = let rest = remove_waiter a vs in if v.address == a then vs else v ∷ rest

-- The waiter that the function fills in, `importance` being the kernel's answer for its thread.
abbrev pub fill_waiter : Kernel → (address importance : ℕ) → WriterWaiter
fill_waiter k address importance = record {
  address = address;
  thread = k.current_thread;
  wait_start = k.clock 0;
  priority = importance;
}

module _ {L : Type 0} where
  unfoldable pub xnu_rm_enqueue_writer : Kernel → (address importance : ℕ) → Rmlock L → Rmlock L
  unfolding insert_waiter
  xnu_rm_enqueue_writer k address importance rm =
      let waiter = fill_waiter k address importance in
      record rm {
        writer_wait_queue = insert_waiter waiter rm.writer_wait_queue;
        waiting_writers = inc32 rm.waiting_writers;
        writer_start_time = waiter.wait_start;
      }

  -- The branch of a queue that is not empty.
  abbrev pub leave_queue : Kernel → Rmlock L → WriterWaiter → Rmlock L
  leave_queue k rm waiter =
      let wait_time = elapsed (k.clock 0) waiter.wait_start in
      record rm {
        writer_wait_queue = remove_waiter waiter.address rm.writer_wait_queue;
        waiting_writers = dec32 rm.waiting_writers;
        stat_writer_waits = inc64 rm.stat_writer_waits;
        stat_timeout_events =
            if ltb rm.writer_threshold wait_time
            then inc64 rm.stat_timeout_events
            else rm.stat_timeout_events;
      }

  -- "If no more waiting writers, restore reader preference"
  abbrev pub restore_readers : Rmlock L → Rmlock L
  restore_readers rm =
      if rm.waiting_writers == 0
      then record rm { writer_priority = false; fast_path_enabled = true }
      else rm

  unfoldable pub xnu_rm_dequeue_writer : Kernel → Rmlock L → WriterWaiter → Rmlock L
  unfolding remove_waiter
  xnu_rm_dequeue_writer k rm waiter =
      restore_readers (elim rm.writer_wait_queue [ [] ↦ rm | _ ∷ _ ↦ leave_queue k rm waiter ])

  unfoldable pub xnu_rm_wakeup_writers : Rmlock L → Rmlock L
  xnu_rm_wakeup_writers rm = elim rm.writer_wait_queue [
    | [] ↦ rm
    | w ∷ _ ↦
        if w.thread == thread_null then rm else record rm { wakeups = rm.wakeups ++ w.thread ∷ [] }
  ]

  -- `while (rm->waiting_writers > 1 || rm->current_readers > 0)`: its two halves.
  abbrev pub more_writers : Rmlock L → Bool
  more_writers rm = ltb 1 rm.waiting_writers

  abbrev pub readers_left : Rmlock L → Bool
  readers_left rm = ltb 0 rm.current_readers

  -- `if (fair_mode || rm->waiting_writers > 0)`
  abbrev pub has_to_queue : Bool → Rmlock L → Bool
  has_to_queue fair_mode rm = fair_mode || ltb 0 rm.waiting_writers
