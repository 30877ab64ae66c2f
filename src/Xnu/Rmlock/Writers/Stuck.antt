-- ===== src/Xnu/Rmlock/Writers/Stuck.antt =====
-- Writers that queue: what the wait of `xnu_rm_wlock_advanced` lets through.
use freebsd_radix_userland.Common.{
  ℕ, ◌+◌, ◌^◌, ◌<◌, ◌≡◌, ◌≢◌, refl, Bool, true, false, ◌==◌, ==_iff, if-elim, arith,
}
use freebsd_radix_userland.Xnu.Family.{assign}
use freebsd_radix_userland.Xnu.Epoch.{Kernel}
use freebsd_radix_userland.Xnu.Rmlock.{WriterWaiter, Rmlock}
use freebsd_radix_userland.Xnu.Rmlock.Writers.{
  xnu_rm_enqueue_writer, xnu_rm_dequeue_writer, has_to_queue, more_writers, readers_left,
}

-- Where a writer stands in its call: before its test of whether to queue; behind that, about to queue;
-- in the queue, before the loop's test or asleep; having found that the first half of the loop's test
-- does not hold; behind the loop.
pub data Phase : Type 0 where
  outside queueing waiting tested leaving : Phase

-- The lock, and the writers.
pub record Writers (L : Type 0) : Type 0 where
  pub rm : Rmlock L
  pub phase : ℕ → Phase

module _ {L : Type 0} where
  -- A step is one access to what the threads share; the functions on the queue hold its spin lock, and
  -- each is one.
  pub data Step (s : Writers L) : Writers L → Type 0 where
    decide :
        (i : ℕ) (fair_mode : Bool)
        → s.phase i ≡ outside
        → has_to_queue fair_mode s.rm ≡ true
        → Step s (record s { phase = assign s.phase i queueing })
    enqueue :
        (i : ℕ) (k : Kernel) (importance : ℕ)
        → s.phase i ≡ queueing
        → s.rm.waiting_writers + 1 < 2 ^ 32
        → Step s (record {
          rm = xnu_rm_enqueue_writer k i importance s.rm;
          phase = assign s.phase i waiting;
        })
    -- `rm->waiting_writers > 1` is false: the second half of the test is next.
    read_writers :
        (i : ℕ)
        → s.phase i ≡ waiting
        → more_writers s.rm ≡ false
        → Step s (record s { phase = assign s.phase i tested })
    -- `rm->current_readers > 0` holds, and the writer sleeps; or it does not, and the loop ends.
    read_readers :
        (i : ℕ)
        → s.phase i ≡ tested
        → readers_left s.rm ≡ true
        → Step s (record s { phase = assign s.phase i waiting })
    read_no_readers :
        (i : ℕ)
        → s.phase i ≡ tested
        → readers_left s.rm ≡ false
        → Step s (record s { phase = assign s.phase i leaving })
    dequeue :
        (i : ℕ) (k : Kernel) (w : WriterWaiter)
        → s.phase i ≡ leaving
        → Step s (record { rm = xnu_rm_dequeue_writer k s.rm w; phase = assign s.phase i outside })
    -- Readers, and writers that do not queue, leave the count of waiting writers alone.
    other :
        (rm : Rmlock L) → rm.waiting_writers ≡ s.rm.waiting_writers → Step s (record s { rm = rm })

  pub data Reach (s : Writers L) : Writers L → Type 0 where
    here : Reach s s
    next : {t u : Writers L} → Reach s t → Step t u → Reach s u

  -- Two writers are counted, and none has got past the first half of the test.
  pub record IsStuck (s : Writers L) : Type 0 where
    pub two : 1 < s.rm.waiting_writers
    pub none_tested : (i : ℕ) → s.phase i ≢ tested
    pub none_leaving : (i : ℕ) → s.phase i ≢ leaving

  -- What becomes of the phases when writer `i` moves to another.
  moved :
      (s : Writers L) (i : ℕ) (p : Phase)
      → IsStuck s
      → p ≢ tested
      → p ≢ leaving
      → ((j : ℕ) → assign s.phase i p j ≢ tested)
        × ((j : ℕ) → assign s.phase i p j ≢ leaving)
        × ((j : ℕ) → s.phase j ≡ waiting → (j ≡ i → p ≡ waiting) → assign s.phase i p j ≡ waiting)
  moved s i p f not_tested not_leaving = (
    (λ j. if-elim {A = Phase} (λ q. q ≢ tested) (j == i) (λ _. not_tested) (λ _. f.none_tested j)),
    (λ j.
        if-elim {A = Phase} (λ q. q ≢ leaving) (j == i) (λ _. not_leaving) (λ _. f.none_leaving j)),
    (λ j h at.
        if-elim {A = Phase} (λ q. q ≡ waiting) (j == i) (λ e. at ((==_iff j i).0 e)) (λ _. h)),
  )

  Step-IsStuck :
      {s t : Writers L}
      → Step s t
      → IsStuck s
      → IsStuck t × ((i : ℕ) → s.phase i ≡ waiting → t.phase i ≡ waiting)
  unfolding xnu_rm_enqueue_writer
  Step-IsStuck {s} (decide i fair from queue) f =
      let (tested', leaving', kept) = moved s i queueing f (λ e. absurd (cc)) (λ e. absurd (cc)) in
      (
        record { two = f.two; none_tested = tested'; none_leaving = leaving' },
        λ j h. kept j h (λ e. let at : s.phase j ≡ outside = rw e from in absurd (cc)),
      )
  Step-IsStuck {s} (enqueue i k importance from small) f =
      let (tested', leaving', kept) = moved s i waiting f (λ e. absurd (cc)) (λ e. absurd (cc)) in
      (
        record { two = omega (arith, f.two); none_tested = tested'; none_leaving = leaving' },
        λ j h. kept j h (λ _. refl),
      )
  Step-IsStuck (read_writers i from few) f = absurd (ground (arith, f.two))
  Step-IsStuck (read_readers i from some_readers) f = absurd (f.none_tested i from)
  Step-IsStuck (read_no_readers i from no_readers) f = absurd (f.none_tested i from)
  Step-IsStuck (dequeue i k w from) f = absurd (f.none_leaving i from)
  Step-IsStuck (other rm same) f = (
    record {
      two = omega (arith, f.two);
      none_tested = f.none_tested;
      none_leaving = f.none_leaving;
    },
    λ j h. h,
  )

  -- Once two writers are counted and each writer in the queue is still before the first half of the
  -- loop's test, it is so for ever, and every writer that waits goes on waiting, whatever steps other
  -- threads take, as long as the count does not wrap.
  pub writers-IsStuck :
      {s t : Writers L}
      → IsStuck s
      → Reach s t
      → IsStuck t × ((i : ℕ) → s.phase i ≡ waiting → t.phase i ≡ waiting)
  writers-IsStuck f here = (f, λ i h. h)
  writers-IsStuck f (next r st) =
      let (still, kept) = writers-IsStuck f r in
      let (still', kept') = Step-IsStuck st still in (still', λ i h. kept' i (kept i h))
