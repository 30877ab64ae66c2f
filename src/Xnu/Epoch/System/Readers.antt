-- ===== src/Xnu/Epoch/System/Readers.antt =====
-- Readers keep the invariant of Epoch.System.
use freebsd_radix_userland.Common.{
  ℕ, ◌+◌, ◌^◌, ◌≤◌, ◌<◌, ◌≡◌, refl, sym, ◌∙◌, Bool, true, ◌&&◌, some, inl, inr, ◌==◌, ==_iff,
  if◌then◌else◌, arith, Bool-cases,
}
use mathlib.Core.Option.{some-injective}
use freebsd_radix_userland.Xnu.Family.{assign, total, total-assign, total-bound}
use freebsd_radix_userland.Xnu.Epoch.{inc32, dec32, Kernel, Epoch, EpochTracker, done}
use freebsd_radix_userland.Xnu.Epoch.Reader.{is_on, xnu_epoch_enter_preempt, xnu_epoch_exit_preempt}
use freebsd_radix_userland.Xnu.Epoch.Reader.Moves.{
  Moves, Entered, enter-Entered, Exited, exit-Exited,
}
use freebsd_radix_userland.Xnu.Epoch.System.{System}
use freebsd_radix_userland.Xnu.Epoch.System.Invariant.{reads_on, Inv}

if_at : (F : ℕ → ℕ) (c d y : ℕ) → (if d == c then F c else y) ≡ (if d == c then F d else y)
if_at F c d y = elim (Bool-cases (d == c)) [
  | inl same ↦ let e : d ≡ c = (==_iff d c).0 same in rw e refl
  | inr other ↦ ground arith
]

reads_on-small : (c : ℕ) (t : EpochTracker) → reads_on c t ≤ 1
reads_on-small c t = ground arith

-- A tracker that changes, with the count of its processor.
module _ {n : ℕ} {s : System} (inv : Inv n s) (i : ℕ) (t : EpochTracker) where
  abbrev moved : ℕ → EpochTracker
  moved = assign s.tracker i t

  move-Inv :
      {e : Epoch} (old : ℕ → Bool) (c r : ℕ)
      → Moves c r s.epoch e
      → ((d : ℕ)
          → (if d == c then r else (s.epoch.cpu_states d).active_readers)
            ≡ total (reads_on d) n moved)
      → (t.active ≡ true
          → (t.cpu_state ≡ some c) × (c < s.epoch.max_cpus) × (t.epoch ≡ s.epoch.self))
      → ((j d : ℕ)
          → old j ≡ true
          → (moved j).active ≡ true
          → (moved j).cpu_state ≡ some d
          → (s.old j ≡ true) × ((s.tracker j).active ≡ true) × ((s.tracker j).cpu_state ≡ some d))
      → Inv n (record s { epoch = e; tracker = moved; old = old })
  move-Inv {e} old c r m counts place keep = record {
    few_cpus = rw m.max_cpus inv.few_cpus;
    counted = λ d. m.readers d ∙ counts d;
    placed = λ j on. elim (Bool-cases (j == i)) [
      | inl same ↦
          let here : moved j ≡ t = ground arith in
          rw (here, m.max_cpus, m.self) (let p = place (rw (sym here) on) in (c, p.0, p.1, p.2))
      | inr other ↦
          let there : moved j ≡ s.tracker j = ground arith in
          rw (there, m.max_cpus, m.self) (inv.placed j (rw (sym there) on))
    ];
    behind = λ d. rw (m.grace_period, m.periods d) (inv.behind d);
    mask_fits = rw m.grace_period inv.mask_fits;
    completed_fits = rw m.grace_period inv.completed_fits;
    mask_inside = rw (m.grace_period, m.max_cpus) inv.mask_inside;
    progress = rw (m.grace_period, m.max_cpus) inv.progress;
    pending = λ j d lt was on at.
        let k = keep j d was on at in rw m.grace_period (inv.pending j d lt k.0 k.1 k.2);
  }

  -- The readers of a processor, where the tracker starts or stops to read there.
  total-moved :
      (d : ℕ)
      → i < n
      → total (reads_on d) n moved + reads_on d (s.tracker i)
        ≡ (s.epoch.cpu_states d).active_readers + reads_on d t
  total-moved d lt = omega (arith, inv.counted d, total-assign (reads_on d) n s.tracker i t lt)

  total-moved_small : (d : ℕ) → total (reads_on d) n moved ≤ n
  total-moved_small d = total-bound (reads_on d) (reads_on-small d) n moved

module _ {n : ℕ} {s : System} (inv : Inv n s) (few : n < 2 ^ 32) (i : ℕ) (lt : i < n)
    (k : Kernel) where
  Entered-count :
      (e : Epoch) (t : EpochTracker) (d : ℕ)
      → ((s.tracker i).active ≡ true → is_on (s.tracker i) s.epoch k.cpu_number ≡ true)
      → Entered k s.epoch e (s.tracker i) t
      → (if d == k.cpu_number
          then (if (s.tracker i).active
              then (s.epoch.cpu_states d).active_readers
              else inc32 (s.epoch.cpu_states d).active_readers)
          else (s.epoch.cpu_states d).active_readers)
        ≡ total (reads_on d) n (assign s.tracker i t)
  Entered-count e t d stays f = elim (Bool-cases (s.tracker i).active) [
    | inl on ↦
        let was : reads_on d (s.tracker i) ≡ reads_on d t =
          ground (arith, f.active, f.cpu_state, stays on) in
        ground (arith, total-moved inv i t d lt)
    | inr off ↦
        let was : reads_on d (s.tracker i) ≡ 0 = ground arith in
        let now : reads_on d t ≡ (if d == k.cpu_number then 1 else 0) =
          ground (arith, f.active, f.cpu_state) in
        ground (arith, total-moved inv i t d lt, total-moved_small inv i t d)
  ]

  Entered-keep :
      (e : Epoch) (t : EpochTracker)
      → ((s.tracker i).active ≡ true → is_on (s.tracker i) s.epoch k.cpu_number ≡ true)
      → Entered k s.epoch e (s.tracker i) t
      → (j d : ℕ) → assign s.old i (s.old i && (s.tracker i).active) j ≡ true
      → (assign s.tracker i t j).active ≡ true
      → (assign s.tracker i t j).cpu_state ≡ some d
      → (s.old j ≡ true) × ((s.tracker j).active ≡ true) × ((s.tracker j).cpu_state ≡ some d)
  Entered-keep e t stays f j d was on at = elim (Bool-cases (j == i)) [
    | inl same ↦
        let here : j ≡ i = (==_iff j i).0 same in
        let was_old : (s.old i && (s.tracker i).active) ≡ true = ground arith in
        let still : (s.tracker i).active ≡ true = ground arith in
        let on_cpu : is_on (s.tracker i) s.epoch k.cpu_number ≡ true = stays still in
        let now : t.cpu_state ≡ some d = ground arith in
        let cpu : some k.cpu_number ≡ some d = sym f.cpu_state ∙ now in
        let number : k.cpu_number ≡ d = some-injective k.cpu_number d cpu in
        rw here (ground arith, still, ground arith)
    | inr other ↦ ground arith
  ]

  pub enter-Inv :
      {e : Epoch} {t : EpochTracker}
      → ((s.tracker i).active ≡ true → is_on (s.tracker i) s.epoch k.cpu_number ≡ true)
      → xnu_epoch_enter_preempt k s.epoch (s.tracker i) ≡ done (e, t)
      → Inv n (record s {
        epoch = e;
        tracker = assign s.tracker i t;
        old = assign s.old i (s.old i && (s.tracker i).active);
      })
  enter-Inv {e} {t} stays q =
      let f = enter-Entered k s.epoch e (s.tracker i) t stays q in
      move-Inv inv i t (assign s.old i (s.old i && (s.tracker i).active)) k.cpu_number _ f.moves
        (λ d.
          if_at
            (λ d.
              if (s.tracker i).active
              then (s.epoch.cpu_states d).active_readers
              else inc32 (s.epoch.cpu_states d).active_readers)
            k.cpu_number d (s.epoch.cpu_states d).active_readers
          ∙ Entered-count e t d stays f)
        (λ _. (f.cpu_state, f.inside, f.epoch)) (Entered-keep e t stays f)

  Exited-count :
      (e : Epoch) (t : EpochTracker) (d : ℕ) (f : Exited s.epoch e (s.tracker i) t)
      → (if d == f.cpu
          then (if t.active
              then (s.epoch.cpu_states f.cpu).active_readers
              else dec32 (s.epoch.cpu_states f.cpu).active_readers)
          else (s.epoch.cpu_states d).active_readers)
        ≡ total (reads_on d) n (assign s.tracker i t)
  Exited-count e t d f =
      let was : reads_on d (s.tracker i) ≡ (if d == f.cpu then 1 else 0) =
        ground (arith, f.was_active, f.was_on) in
      let same_count = if_at (λ c. (s.epoch.cpu_states c).active_readers) f.cpu d 0 in
      elim (Bool-cases t.active) [
        | inl on ↦ ground (arith, same_count, f.inner on, total-moved inv i t d lt)
        | inr off ↦ ground (
          arith,
          same_count,
          f.counted off,
          total-moved inv i t d lt,
          total-moved_small inv i t d,
        )
      ]

  Exited-inside :
      (e : Epoch) (t : EpochTracker) (f : Exited s.epoch e (s.tracker i) t)
      → f.cpu < s.epoch.max_cpus
  Exited-inside e t f =
      let (c, at, inside, _) = inv.placed i f.was_active in
      let e : f.cpu ≡ c = some-injective f.cpu c (sym f.was_on ∙ at) in omega arith

  Exited-keep :
      (e : Epoch) (t : EpochTracker)
      → Exited s.epoch e (s.tracker i) t
      → (j d : ℕ) → s.old j ≡ true
      → (assign s.tracker i t j).active ≡ true
      → (assign s.tracker i t j).cpu_state ≡ some d
      → (s.old j ≡ true) × ((s.tracker j).active ≡ true) × ((s.tracker j).cpu_state ≡ some d)
  Exited-keep e t f j d was on at = elim (Bool-cases (j == i)) [
    | inl same ↦
        let here : j ≡ i = (==_iff j i).0 same in
        let still : t.active ≡ true = ground arith in
        let now : t.cpu_state ≡ some d = ground arith in
        (was, rw here f.was_active, rw here (f.was_on ∙ sym (f.inner still) ∙ now))
    | inr other ↦ ground arith
  ]

  pub exit-Inv :
      {e : Epoch} {t : EpochTracker}
      → xnu_epoch_exit_preempt k s.epoch (s.tracker i) ≡ done (e, t)
      → Inv n (record s { epoch = e; tracker = assign s.tracker i t })
  exit-Inv {e} {t} q =
      let f = exit-Exited k s.epoch e (s.tracker i) t q in
      move-Inv inv i t s.old f.cpu _ f.moves (λ d. Exited-count e t d f)
        (λ on. (f.inner on, Exited-inside e t f, f.epoch))
        (λ j d was on at. Exited-keep e t f j d was on at)
