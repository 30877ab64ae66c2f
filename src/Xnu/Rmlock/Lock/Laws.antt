-- ===== src/Xnu/Rmlock/Lock/Laws.antt =====
-- What the attempts to take the lock promise.
use freebsd_radix_userland.Common.{
  ℕ, zero, suc, ◌%◌, ◌^◌, ◌<◌, ◌≡◌, refl, sym, ap, ◌∙◌, Bool, true, false, not, ◌&&◌, ◌⊎◌, inl, inr,
  Option, none, some, ltb, if◌then◌else◌, if-elim, arith,
}
use freebsd_radix_userland.Xnu.Family.{total}
use freebsd_radix_userland.Xnu.Epoch.{
  Kernel, CpuState, Epoch, Outcome, done, panic, fault, inc32, inc64, sum_readers,
}
use freebsd_radix_userland.Xnu.Epoch.Reader.{xnu_epoch_enter_preempt, xnu_epoch_exit_preempt}
use freebsd_radix_userland.Xnu.Rmlock.{thread_null, Rmlock, RmTracker, LckRw}
use freebsd_radix_userland.Xnu.Rmlock.Readers.{find_slot, track_in, xnu_rm_track_reader}
use freebsd_radix_userland.Xnu.Rmlock.Lock.{
  ◌>>=◌, xnu_rm_try_wlock, try_rlock_slow, try_rlock_fast, try_rlock_tracked, xnu_rm_try_rlock,
}

-- Readers in all, without the wrap of 32 bits.
abbrev pub readers_in : Epoch → ℕ
readers_in e = total (λ s. s.active_readers) e.max_cpus e.cpu_states

if_true {ℓ} : {A : Type ℓ} (x y : A) (b : Bool) → b ≡ true → (if b then x else y) ≡ x
if_true x y b e = rw e refl

sum_readers-total :
    (n : ℕ) (cpus : ℕ → CpuState)
    → sum_readers n cpus ≡ total (λ s. s.active_readers) n cpus % 2 ^ 32
unfolding sum_readers total
sum_readers-total zero cpus = refl
sum_readers-total (suc n) cpus = omega (arith, sum_readers-total n cpus)

-- What holds of the result, if there is one: the epoch's functions may panic.
abbrev pub IfDone : {A : Type 0} → (A → Type 0) → Outcome A → Type 0
IfDone P (done a) = P a
IfDone P panic = Unit {0}
IfDone P fault = Unit {0}

IfDone->>= :
    {A B : Type 0} (P : B → Type 0) (o : Outcome A) (f : A → Outcome B)
    → ((a : A) → IfDone P (f a))
    → IfDone P (o >>= f)
IfDone->>= P (done a) f all = all a
IfDone->>= P panic f all = tt
IfDone->>= P fault f all = tt

module _ {L : Type 0} (lck : LckRw L) where
  open lck use {
    lck_rw_try_lock_shared, lck_rw_try_lock_exclusive, lck_rw_unlock_exclusive, try_fails,
    unlock_undoes,
  }

  -- The writer is alone in the lock.
  pub record IsWriter (k : Kernel) (rm rm' : Rmlock L) : Type 0 where
    pub none_tracked : rm.current_readers ≡ 0
    pub none_in_epoch : readers_in rm.read_epoch ≡ 0
    pub taken : (lck_rw_try_lock_exclusive rm.rw_lock).0 ≡ true
    pub rw_lock : rm'.rw_lock ≡ (lck_rw_try_lock_exclusive rm.rw_lock).1
    pub current_writer : rm'.current_writer ≡ k.current_thread

  abbrev pub Tried : Kernel → Rmlock L → Bool × Rmlock L → Type 0
  Tried k rm r = ((r.0 ≡ true) × IsWriter k rm r.1) ⊎ ((r.0 ≡ false) × (r.1 ≡ rm))

  -- With fewer than 2^32 readers in the epoch, xnu_rm_try_wlock either succeeds, with the exclusive
  -- lock taken and the thread noted, when no reader is in the table or in the epoch; or it fails, and
  -- leaves the lock and all of its state as they were.
  pub try_wlock-Tried :
      (k : Kernel) (rm : Rmlock L)
      → readers_in rm.read_epoch < 2 ^ 32
      → Tried k rm (xnu_rm_try_wlock lck k rm)
  unfolding xnu_rm_try_wlock
  try_wlock-Tried k rm few =
      if-elim {A = Bool × Rmlock L} (Tried k rm) (ltb 0 rm.current_readers) (λ _. inr (refl, refl))
        λ none.
          if-elim {A = Bool × Rmlock L} (Tried k rm) (not (lck_rw_try_lock_exclusive rm.rw_lock).0)
            (λ refused.
              inr (refl, ap (λ l. record rm { rw_lock = l }) (try_fails rm.rw_lock (ground arith))))
            λ got.
              if-elim {A = Bool × Rmlock L} (Tried k rm)
                (ltb 0 (sum_readers rm.read_epoch.max_cpus rm.read_epoch.cpu_states))
                (λ some_readers. inr (
                  refl,
                  ap (λ l. record rm { rw_lock = l }) (unlock_undoes rm.rw_lock (ground arith)),
                ))
                λ empty. inl (
                  refl,
                  record {
                    none_tracked = ground arith;
                    none_in_epoch =
                        ground (
                          arith,
                          sum_readers-total rm.read_epoch.max_cpus rm.read_epoch.cpu_states,
                        );
                    taken = ground arith;
                    rw_lock = refl;
                    current_writer = refl;
                  },
                )

  -- The way through the table: it is open, and there is a free slot.
  abbrev free_slot : Rmlock L → Option ℕ
  free_slot rm = find_slot thread_null rm.max_readers 0 rm.active_readers

  abbrev is_open : Rmlock L → Bool
  is_open rm = rm.fast_path_enabled && not rm.writer_priority

  -- The reader is in the table, and the lock itself has not been asked.
  pub record IsFast (rm : Rmlock L) (got : Bool) (rm' : Rmlock L) (t' : RmTracker) : Type 0 where
    pub open_path : is_open rm ≡ true
    pub slot : (i : ℕ) × (free_slot rm ≡ some i)
    pub result : got ≡ true
    pub fast_path : t'.fast_path ≡ true
    pub rw_lock : rm'.rw_lock ≡ rm.rw_lock
    pub current_readers : rm'.current_readers ≡ inc32 rm.current_readers
    pub current_writer : rm'.current_writer ≡ rm.current_writer

  -- The table is closed or full: the result is that of the attempt to share the lock.
  pub record IsSlow (rm : Rmlock L) (got : Bool) (rm' : Rmlock L) (t' : RmTracker) : Type 0 where
    pub no_slot : (is_open rm ≡ false) ⊎ (free_slot rm ≡ none)
    pub result : got ≡ (lck_rw_try_lock_shared rm.rw_lock).0
    pub fast_path : (got && t'.fast_path) ≡ false
    pub rw_lock : rm'.rw_lock ≡ (lck_rw_try_lock_shared rm.rw_lock).1
    pub current_readers : rm'.current_readers ≡ rm.current_readers
    pub current_writer : rm'.current_writer ≡ rm.current_writer

  abbrev pub TriedRead : Rmlock L → Bool × Rmlock L × RmTracker → Type 0
  TriedRead rm (got, rm', t') = IsFast rm got rm' t' ⊎ IsSlow rm got rm' t'

  try_rlock_slow-IsSlow :
      (now : ℕ) (rm rm₁ : Rmlock L) (t : RmTracker)
      → (is_open rm ≡ false) ⊎ (free_slot rm ≡ none)
      → rm₁.rw_lock ≡ rm.rw_lock
      → rm₁.current_readers ≡ rm.current_readers
      → rm₁.current_writer ≡ rm.current_writer
      → TriedRead rm (try_rlock_slow lck now rm₁ t)
  try_rlock_slow-IsSlow now rm rm₁ t no_slot lock readers writer =
      let tried = ap (λ l. (lck_rw_try_lock_shared l).0) lock in
      let left = ap (λ l. (lck_rw_try_lock_shared l).1) lock in
      if-elim {A = Bool × Rmlock L × RmTracker} (TriedRead rm)
        (lck_rw_try_lock_shared rm₁.rw_lock).0
        (λ yes. inr (record {
          no_slot = no_slot;
          result = sym yes ∙ tried;
          fast_path = refl;
          rw_lock = left;
          current_readers = readers;
          current_writer = writer;
        }))
        (λ no. inr (record {
          no_slot = no_slot;
          result = sym no ∙ tried;
          fast_path = refl;
          rw_lock = left;
          current_readers = readers;
          current_writer = writer;
        }))

  module _ (enter track exit : Kernel) (id : ℕ) (rm : Rmlock L) where
    tracked-TriedRead :
        (open_path : is_open rm ≡ true) (e : Epoch) (t : RmTracker) (slot : Option ℕ)
        → free_slot rm ≡ slot
        → IfDone
            (TriedRead rm)
            (try_rlock_tracked lck exit (track_in track id slot (record rm { read_epoch = e }) t))
    tracked-TriedRead open_path e t (some i) found = inl (record {
      open_path = open_path;
      slot = (i, found);
      result = refl;
      fast_path = refl;
      rw_lock = refl;
      current_readers = refl;
      current_writer = refl;
    })
    tracked-TriedRead open_path e t none full =
        IfDone->>= (TriedRead rm) (xnu_epoch_exit_preempt exit e t.epoch_tracker)
          (λ (f, ft). done (
            try_rlock_slow lck (exit.clock 5)
              (record rm { read_epoch = f; stat_contentions = inc64 rm.stat_contentions })
              (record t { epoch_tracker = ft; fast_path = false })))
          λ (f, ft). try_rlock_slow-IsSlow (exit.clock 5) rm _ _ (inr full) refl refl refl

    -- Whenever `xnu_rm_try_rlock` returns: where the fast path is on, writers have no priority and the
    -- table has a free slot, it has succeeded through the table, whose count is one more, and has not
    -- asked the lock, which may be held for writing; otherwise it has succeeded exactly if the lock
    -- could be shared, and the table's count is as it was. The writer that is noted stays.
    pub try_rlock-TriedRead :
        (t : RmTracker) → IfDone (TriedRead rm) (xnu_rm_try_rlock lck enter track exit id rm t)
    unfolding xnu_rm_try_rlock try_rlock_fast xnu_rm_track_reader
    try_rlock-TriedRead t =
        if-elim {A = Outcome (Bool × Rmlock L × RmTracker)} (IfDone (TriedRead rm)) (is_open rm)
          (λ yes.
            IfDone->>= (TriedRead rm) (xnu_epoch_enter_preempt enter rm.read_epoch t.epoch_tracker)
              (λ (e, et). try_rlock_tracked lck exit (
                xnu_rm_track_reader track id (record rm { read_epoch = e })
                  (record t { epoch_tracker = et })))
              λ (e, et).
                tracked-TriedRead yes e (record t { epoch_tracker = et }) (free_slot rm) refl)
          (λ no. try_rlock_slow-IsSlow (enter.clock 5) rm rm t (inl no) refl refl refl)
