-- ===== src/Xnu/Rmlock/Readers.antt =====
-- The table of readers: `xnu_rm_track_reader` and `xnu_rm_untrack_reader` of
-- src/xnu_kernel/xnu_freebsd_radix.c.
pub mod Slots
use freebsd_radix_userland.Common.{
  ℕ, zero, suc, ◌+◌, ◌%◌, ◌^◌, Bool, true, false, ◌&&◌, Option, none, some, ltb, ◌==◌,
  if◌then◌else◌,
}
use freebsd_radix_userland.Xnu.Family.{assign}
use freebsd_radix_userland.Xnu.Epoch.{inc32, dec32, inc64, elapsed, Kernel}
use freebsd_radix_userland.Xnu.Rmlock.{thread_null, ReaderState, Rmlock, RmTracker}
use freebsd_radix_userland.Xnu.Rmlock.Writers.{xnu_rm_wakeup_writers}

-- The first of `count` slots from `i` on whose thread is `t`.
unfoldable pub find_slot : (t count i : ℕ) → (ℕ → ReaderState) → Option ℕ
find_slot t zero i slots = none
find_slot t (suc count) i slots =
    let rest = find_slot t count (suc i) slots in if (slots i).thread == t then some i else rest

-- `memset(reader_slot, 0, sizeof(*reader_slot))`
abbrev pub empty_slot : ReaderState
empty_slot = record {
  reader_id = 0;
  thread = 0;
  cpu_id = 0;
  enter_time = 0;
  hold_time = 0;
  priority_boost = false;
}

-- `id` is the number that the function's counter of readers gives out.
abbrev pub new_slot : Kernel → ℕ → ReaderState
new_slot k id = record {
  reader_id = id;
  thread = k.current_thread;
  cpu_id = k.cpu_number;
  enter_time = k.clock 0;
  hold_time = 0;
  priority_boost = false;
}

module _ {L : Type 0} where
  abbrev pub track_in : Kernel → ℕ → Option ℕ → Rmlock L → RmTracker → Rmlock L × RmTracker
  track_in k id (some i) rm t = (
    record rm {
      active_readers = assign rm.active_readers i (new_slot k id);
      current_readers = inc32 rm.current_readers;
    },
    record t { rmlock = rm.self; acquire_time = k.clock 0; fast_path = true },
  )
  track_in k id none rm t =
      (record rm { stat_contentions = inc64 rm.stat_contentions }, record t { fast_path = false })

  unfoldable pub xnu_rm_track_reader : Kernel → ℕ → Rmlock L → RmTracker → Rmlock L × RmTracker
  unfolding find_slot
  xnu_rm_track_reader k id rm t =
      track_in k id (find_slot thread_null rm.max_readers 0 rm.active_readers) rm t

  -- "Check if we should wake up waiting writers"
  abbrev pub wake_writers : Rmlock L → Rmlock L
  wake_writers rm =
      if ltb 0 rm.waiting_writers && (rm.current_readers == 0) then xnu_rm_wakeup_writers rm else rm

  -- The statistics at the end, for the time that the slot was held.
  abbrev pub count_spin : ℕ → Rmlock L → Rmlock L
  count_spin hold_time rm =
      if ltb rm.bias_threshold hold_time
      then record rm { stat_reader_spins = inc64 rm.stat_reader_spins }
      else rm

  abbrev pub untrack_in : Kernel → Option ℕ → Rmlock L → Rmlock L
  untrack_in k none rm = count_spin 0 rm
  untrack_in k (some i) rm = count_spin (elapsed (k.clock 0) (rm.active_readers i).enter_time) (
      wake_writers (record rm {
        active_readers = assign rm.active_readers i empty_slot;
        current_readers = dec32 rm.current_readers;
      }))

  unfoldable pub xnu_rm_untrack_reader : Kernel → Rmlock L → RmTracker → Rmlock L
  unfolding find_slot xnu_rm_wakeup_writers
  xnu_rm_untrack_reader k rm t =
      if t.fast_path
      then untrack_in k (find_slot k.current_thread rm.max_readers 0 rm.active_readers) rm
      else rm
