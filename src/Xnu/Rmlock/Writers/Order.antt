-- ===== src/Xnu/Rmlock/Writers/Order.antt =====
-- The order of the queue of writers.
use freebsd_radix_userland.Common.{
  select, ℕ, suc, ◌+◌, ◌^◌, ◌≤◌, ◌<◌, ◌≡◌, refl, ap, ◌∙◌, Bool, true, false, ◌||◌, List, [], ◌∷◌,
  ◌++◌, ◌⊎◌, inl, inr, ltb, ◌==◌, if◌then◌else◌, if-elim, Bool-cases, length, arith,
}
use mathlib.Core.List.{append-nil}
use mathlib.Core.Path.{subst}
use freebsd_radix_userland.Xnu.Epoch.{Kernel}
use freebsd_radix_userland.Xnu.Rmlock.{WriterWaiter, Rmlock}
use freebsd_radix_userland.Xnu.Rmlock.Writers.{
  insert_waiter, remove_waiter, fill_waiter, xnu_rm_enqueue_writer, leave_queue, restore_readers,
  xnu_rm_dequeue_writer,
}

-- No waiter of the list has a higher priority.
abbrev pub AtMost : ℕ → List WriterWaiter → Type 0
AtMost p [] = Unit
AtMost p (v ∷ vs) = (v.priority ≤ p) × AtMost p vs

-- Highest priority first.
abbrev pub IsRanked : List WriterWaiter → Type 0
IsRanked [] = Unit
IsRanked (v ∷ vs) = AtMost v.priority vs × IsRanked vs

AtMost-le : (p q : ℕ) (vs : List WriterWaiter) → p ≤ q → AtMost p vs → AtMost q vs
AtMost-le p q [] le h = tt
AtMost-le p q (v ∷ vs) le h = (omega (arith, h.0), AtMost-le p q vs le h.1)

insert_waiter-AtMost :
    (p : ℕ) (w : WriterWaiter) (vs : List WriterWaiter)
    → w.priority ≤ p
    → AtMost p vs
    → AtMost p (insert_waiter w vs)
unfolding insert_waiter
insert_waiter-AtMost p w [] le h = (le, tt)
insert_waiter-AtMost p w (v ∷ vs) le h =
    if-elim {A = List WriterWaiter} (AtMost p) (ltb v.priority w.priority) (λ _. (le, h))
      (λ _. (h.0, insert_waiter-AtMost p w vs le h.1))

insert_waiter-IsRanked :
    (w : WriterWaiter) (vs : List WriterWaiter) → IsRanked vs → IsRanked (insert_waiter w vs)
unfolding insert_waiter
insert_waiter-IsRanked w [] h = (tt, tt)
insert_waiter-IsRanked w (v ∷ vs) h =
    if-elim {A = List WriterWaiter} IsRanked (ltb v.priority w.priority)
      (λ higher. ((ground arith, AtMost-le v.priority w.priority vs (ground arith) h.0), h))
      (λ not_higher.
        (insert_waiter-AtMost v.priority w vs (ground arith) h.0, insert_waiter-IsRanked w vs h.1))

length-insert_waiter :
    (w : WriterWaiter) (vs : List WriterWaiter) → length (insert_waiter w vs) ≡ suc (length vs)
unfolding insert_waiter
length-insert_waiter w [] = refl
length-insert_waiter w (v ∷ vs) = ground (arith, length-insert_waiter w vs)

-- The waiters of one priority, in the order of the queue.
abbrev pub of_priority : ℕ → List WriterWaiter → List WriterWaiter
of_priority p = select (λ w. w.priority == p)

none_above : (p q : ℕ) (vs : List WriterWaiter) → AtMost q vs → q < p → of_priority p vs ≡ []
none_above p q [] h lt = refl
none_above p q (v ∷ vs) h lt = let rest = none_above p q vs h.1 lt in ground (arith, h.0)

of_priority-insert :
    (p : ℕ) (w : WriterWaiter) (vs : List WriterWaiter)
    → IsRanked vs
    → of_priority p (insert_waiter w vs)
      ≡ of_priority p vs ++ (if w.priority == p then w ∷ [] else [])
unfolding insert_waiter
of_priority-insert p w [] h = ground arith
of_priority-insert p w (v ∷ vs) h =
    if-elim {A = List WriterWaiter}
      (λ xs. of_priority p xs ≡ of_priority p (v ∷ vs) ++ (if w.priority == p then w ∷ [] else []))
      (ltb v.priority w.priority)
      (λ higher. elim (Bool-cases (w.priority == p)) [
        | inl same ↦
            let none = none_above p v.priority (v ∷ vs) (omega arith, h.0) (ground arith) in
            rw (same, none) refl
        | inr other ↦ rw (other, append-nil (of_priority p (v ∷ vs))) refl
      ])
      (λ not_higher. ground (arith, of_priority-insert p w vs h.1))

abbrev pub is_queued : ℕ → List WriterWaiter → Bool
is_queued a [] = false
is_queued a (v ∷ vs) = (v.address == a) || is_queued a vs

length-remove_waiter :
    (a : ℕ) (vs : List WriterWaiter)
    → is_queued a vs ≡ true
    → suc (length (remove_waiter a vs)) ≡ length vs
unfolding remove_waiter
length-remove_waiter a [] h = absurd (ground arith)
length-remove_waiter a (v ∷ vs) h = ground (arith, length-remove_waiter a vs)

remove_waiter-AtMost :
    (p a : ℕ) (vs : List WriterWaiter) → AtMost p vs → AtMost p (remove_waiter a vs)
unfolding remove_waiter
remove_waiter-AtMost p a [] h = tt
remove_waiter-AtMost p a (v ∷ vs) h =
    if-elim {A = List WriterWaiter} (AtMost p) (v.address == a) (λ _. h.1)
      (λ _. (h.0, remove_waiter-AtMost p a vs h.1))

remove_waiter-IsRanked :
    (a : ℕ) (vs : List WriterWaiter) → IsRanked vs → IsRanked (remove_waiter a vs)
unfolding remove_waiter
remove_waiter-IsRanked a [] h = tt
remove_waiter-IsRanked a (v ∷ vs) h =
    if-elim {A = List WriterWaiter} IsRanked (v.address == a) (λ _. h.1)
      (λ _. (remove_waiter-AtMost v.priority a vs h.0, remove_waiter-IsRanked a vs h.1))

module _ {L : Type 0} where
  -- The count of writers is the length of their queue, which is ranked.
  abbrev pub IsQueue : Rmlock L → Type 0
  IsQueue rm = (rm.waiting_writers ≡ length rm.writer_wait_queue) × IsRanked rm.writer_wait_queue

  -- On a queue in the order of priorities, highest first, whose length is the count of writers, below
  -- 2^32 - 1: xnu_rm_enqueue_writer keeps it so, puts the writer behind those of its own priority, and
  -- leaves the writers of each other priority in their order.
  pub enqueue_writer-IsQueue :
      (k : Kernel) (address importance : ℕ) (rm : Rmlock L)
      → IsQueue rm
      → length rm.writer_wait_queue + 1 < 2 ^ 32
      → (p : ℕ)
      → let w = fill_waiter k address importance in
        let rm' = xnu_rm_enqueue_writer k address importance rm in
        IsQueue rm'
        × (of_priority p rm'.writer_wait_queue
            ≡ of_priority p rm.writer_wait_queue ++ (if importance == p then w ∷ [] else []))
  unfolding xnu_rm_enqueue_writer
  enqueue_writer-IsQueue k address importance rm queue small p =
      let w = fill_waiter k address importance in
      (
        (
          omega (arith, queue.0, length-insert_waiter w rm.writer_wait_queue),
          insert_waiter-IsRanked w rm.writer_wait_queue queue.1,
        ),
        of_priority-insert p w rm.writer_wait_queue queue.1,
      )

  -- What the end of a dequeue does: readers are preferred again unless a writer still waits.
  abbrev Restored : Rmlock L → Type 0
  Restored rm =
      (0 < rm.waiting_writers) ⊎ ((rm.fast_path_enabled ≡ true) × (rm.writer_priority ≡ false))

  restore_readers-IsQueue :
      (rm : Rmlock L) → IsQueue rm → IsQueue (restore_readers rm) × Restored (restore_readers rm)
  restore_readers-IsQueue rm queue =
      if-elim {A = Rmlock L} (λ r. IsQueue r × Restored r) (rm.waiting_writers == 0)
        (λ none. (queue, inr (refl, refl))) (λ some. (queue, inl (ground arith)))

  dequeued :
      (k : Kernel) (rm : Rmlock L) (w : WriterWaiter) (vs : List WriterWaiter)
      → rm.writer_wait_queue ≡ vs
      → is_queued w.address vs ≡ true
      → IsQueue rm
      → length vs < 2 ^ 32
      → IsQueue (elim vs [ [] ↦ rm | _ ∷ _ ↦ leave_queue k rm w ])
  dequeued k rm w [] e present queue small = queue
  dequeued k rm w (v ∷ vs) e present queue small =
      let ranked : IsRanked (v ∷ vs) = subst IsRanked e queue.1 in
      let count : rm.waiting_writers ≡ length (v ∷ vs) = queue.0 ∙ ap length e in
      rw e (
        omega (arith, length-remove_waiter w.address (v ∷ vs) present),
        remove_waiter-IsRanked w.address (v ∷ vs) ranked,
      )

  -- On such a queue, of fewer than 2^32 writers with the given one among them,
  -- xnu_rm_dequeue_writer keeps the queue ranked and the count its length; and either a writer still
  -- waits, or the fast path is on and writers have no priority.
  pub dequeue_writer-IsQueue :
      (k : Kernel) (rm : Rmlock L) (w : WriterWaiter)
      → is_queued w.address rm.writer_wait_queue ≡ true
      → IsQueue rm
      → length rm.writer_wait_queue < 2 ^ 32
      → let rm' = xnu_rm_dequeue_writer k rm w in
        IsQueue rm'
        × ((0 < rm'.waiting_writers)
            ⊎ ((rm'.fast_path_enabled ≡ true) × (rm'.writer_priority ≡ false)))
  unfolding xnu_rm_dequeue_writer
  dequeue_writer-IsQueue k rm w present queue small =
      restore_readers-IsQueue _ (dequeued k rm w rm.writer_wait_queue refl present queue small)
