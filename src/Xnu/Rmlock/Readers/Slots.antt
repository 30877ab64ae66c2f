-- ===== src/Xnu/Rmlock/Readers/Slots.antt =====
-- The count of readers against the slots of the table.
use freebsd_radix_userland.Common.{
  ℕ, zero, suc, ◌+◌, ◌^◌, ◌≤◌, ◌<◌, ◌≡◌, ◌≢◌, refl, sym, ◌∙◌, ◌&&◌, Option, none, some, inl, inr,
  ltb, ◌==◌, ==_iff, if◌then◌else◌, if-elim, Bool-cases, arith,
}
use mathlib.Core.Path.{subst}
use mathlib.Core.Option.{some-injective}
use freebsd_radix_userland.Xnu.Family.{assign, total, total-assign, total-bound}
use freebsd_radix_userland.Xnu.Epoch.{dec32, elapsed, Kernel}
use freebsd_radix_userland.Xnu.Rmlock.{thread_null, ReaderState, Rmlock, RmTracker}
use freebsd_radix_userland.Xnu.Rmlock.Readers.{
  find_slot, new_slot, empty_slot, track_in, xnu_rm_track_reader, wake_writers, count_spin,
  untrack_in, xnu_rm_untrack_reader,
}
use freebsd_radix_userland.Xnu.Rmlock.Writers.{xnu_rm_wakeup_writers}

pub find_slot-some :
    (t count i : ℕ) (slots : ℕ → ReaderState) (j : ℕ)
    → find_slot t count i slots ≡ some j
    → (i ≤ j) × (j < i + count) × ((slots j).thread ≡ t)
unfolding find_slot
find_slot-some t zero i slots j q = absurd (ground arith)
find_slot-some t (suc count) i slots j q = elim (Bool-cases ((slots i).thread == t)) [
  | inl found ↦
      let here : find_slot t (suc count) i slots ≡ some i = rw found refl in
      let e : i ≡ j = some-injective i j (sym here ∙ q) in
      let at : (slots i).thread ≡ t = (==_iff (slots i).thread t).0 found in
      subst (λ x. (i ≤ x) × (x < i + suc count) × ((slots x).thread ≡ t)) e
        (omega arith, omega arith, at)
  | inr other ↦
      let rest : find_slot t count (suc i) slots ≡ some j = ground arith in
      let (low, high, at) = find_slot-some t count (suc i) slots j rest in
      (omega arith, omega arith, at)
]

pub find_slot-none :
    (t count i : ℕ) (slots : ℕ → ReaderState)
    → find_slot t count i slots ≡ none
    → (j : ℕ) → i ≤ j
    → j < i + count
    → (slots j).thread ≢ t
unfolding find_slot
find_slot-none t zero i slots q j low high at = omega arith
find_slot-none t (suc count) i slots q j low high at = elim (Bool-cases ((slots i).thread == t)) [
  | inl found ↦ absurd (ground arith)
  | inr other ↦ elim (Bool-cases (i == j)) [
    | inl same ↦
        let e : i ≡ j = (==_iff i j).0 same in
        let here : (slots i).thread ≡ t = rw e at in absurd (ground arith)
    | inr later ↦
        let rest : find_slot t count (suc i) slots ≡ none = ground arith in
        find_slot-none t count (suc i) slots rest j (ground arith) (omega arith) at
  ]
]

-- A slot that a reader has taken.
abbrev pub occupied : ReaderState → ℕ
occupied s = if s.thread == thread_null then 0 else 1

module _ {L : Type 0} where
  -- The count is the number of slots that are taken.
  abbrev pub IsCounted : Rmlock L → Type 0
  IsCounted rm = rm.current_readers ≡ total occupied rm.max_readers rm.active_readers

  -- What the end of a call changes beside the table.
  abbrev SameTable : Rmlock L → Rmlock L → Type 0
  SameTable rm rm' =
      (rm'.active_readers ≡ rm.active_readers)
      × (rm'.current_readers ≡ rm.current_readers)
      × (rm'.max_readers ≡ rm.max_readers)

  wakeup_writers-SameTable : (rm : Rmlock L) → SameTable rm (xnu_rm_wakeup_writers rm)
  unfolding xnu_rm_wakeup_writers
  wakeup_writers-SameTable rm = ground arith

  wake_writers-SameTable : (rm : Rmlock L) → SameTable rm (wake_writers rm)
  wake_writers-SameTable rm =
      if-elim {A = Rmlock L} (SameTable rm) (ltb 0 rm.waiting_writers && (rm.current_readers == 0))
        (λ _. wakeup_writers-SameTable rm) (λ _. (refl, refl, refl))

  count_spin-SameTable : (hold : ℕ) (rm : Rmlock L) → SameTable rm (count_spin hold rm)
  count_spin-SameTable hold rm = ground arith

  total-small :
      (rm : Rmlock L) (slots : ℕ → ReaderState)
      → total occupied rm.max_readers slots ≤ rm.max_readers
  total-small rm slots = total-bound occupied (λ s. ground arith) rm.max_readers slots

  track_in-IsCounted :
      (k : Kernel) (id : ℕ) (rm : Rmlock L) (t : RmTracker) (o : Option ℕ)
      → find_slot thread_null rm.max_readers 0 rm.active_readers ≡ o
      → k.current_thread ≢ thread_null
      → rm.max_readers < 2 ^ 32
      → IsCounted rm
      → IsCounted (track_in k id o rm t).0
  track_in-IsCounted k id rm t none q thread small counted = counted
  track_in-IsCounted k id rm t (some i) q thread small counted =
      let (_, inside, free) = find_slot-some thread_null rm.max_readers 0 rm.active_readers i q in
      let was : occupied (rm.active_readers i) ≡ 0 = ground arith in
      let now : occupied (new_slot k id) ≡ 1 = ground arith in
      let slots = assign rm.active_readers i (new_slot k id) in
      omega (
        arith,
        total-assign occupied rm.max_readers rm.active_readers i (new_slot k id) (omega arith),
        total-small rm slots,
      )

  -- The slot that a reader leaves, with the count.
  abbrev cleared : ℕ → Rmlock L → Rmlock L
  cleared i rm = record rm {
    active_readers = assign rm.active_readers i empty_slot;
    current_readers = dec32 rm.current_readers;
  }

  cleared-IsCounted :
      (rm : Rmlock L) (i : ℕ)
      → i < rm.max_readers
      → (rm.active_readers i).thread ≢ thread_null
      → rm.max_readers < 2 ^ 32
      → IsCounted rm
      → IsCounted (cleared i rm)
  cleared-IsCounted rm i inside taken small counted =
      let was : occupied (rm.active_readers i) ≡ 1 = ground arith in
      omega (
        arith,
        total-assign occupied rm.max_readers rm.active_readers i empty_slot inside,
        total-small rm rm.active_readers,
      )

  SameTable-IsCounted : (rm rm' : Rmlock L) → SameTable rm rm' → IsCounted rm → IsCounted rm'
  SameTable-IsCounted rm rm' (slots, count, max_same) counted = rw (slots, count, max_same) counted

  untrack_in-IsCounted :
      (k : Kernel) (rm : Rmlock L) (o : Option ℕ)
      → find_slot k.current_thread rm.max_readers 0 rm.active_readers ≡ o
      → k.current_thread ≢ thread_null
      → rm.max_readers < 2 ^ 32
      → IsCounted rm
      → IsCounted (untrack_in k o rm)
  untrack_in-IsCounted k rm none q thread small counted =
      SameTable-IsCounted rm (count_spin 0 rm) (count_spin-SameTable 0 rm) counted
  untrack_in-IsCounted k rm (some i) q thread small counted =
      let (_, inside, own) =
        find_slot-some k.current_thread rm.max_readers 0 rm.active_readers i q in
      let hold = elapsed (k.clock 0) (rm.active_readers i).enter_time in
      let woken = wake_writers (cleared i rm) in
      SameTable-IsCounted woken (count_spin hold woken) (count_spin-SameTable hold woken) (
        SameTable-IsCounted (cleared i rm) woken (wake_writers-SameTable (cleared i rm))
          (cleared-IsCounted rm i (omega arith) (λ e. thread (sym own ∙ e)) small counted))

  -- Where the count of readers is the number of slots that are taken, of fewer than 2^32, it is so
  -- after xnu_rm_track_reader and after xnu_rm_untrack_reader, whether they find a slot or not, and it
  -- is at most the size of the table.
  pub reader_table-IsCounted :
      (k : Kernel) (id : ℕ) (rm : Rmlock L) (t : RmTracker)
      → k.current_thread ≢ thread_null
      → rm.max_readers < 2 ^ 32
      → IsCounted rm
      → IsCounted (xnu_rm_track_reader k id rm t).0
        × IsCounted (xnu_rm_untrack_reader k rm t)
        × (rm.current_readers ≤ rm.max_readers)
  unfolding xnu_rm_track_reader xnu_rm_untrack_reader
  reader_table-IsCounted k id rm t thread small counted = (
    track_in-IsCounted k id rm t _ refl thread small counted,
    if-elim {A = Rmlock L} IsCounted t.fast_path
        (λ _. untrack_in-IsCounted k rm _ refl thread small counted) (λ _. counted),
    omega (arith, total-small rm rm.active_readers),
  )
