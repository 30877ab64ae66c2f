-- ===== src/Xnu/Epoch/Reader/Moves.antt =====
-- What `xnu_epoch_enter_preempt` and `xnu_epoch_exit_preempt` do to the counts of readers.
use freebsd_radix_userland.Common.{
  ℕ, ◌<◌, ◌≡◌, refl, ap, sym, ◌∙◌, Bool, true, false, not, ◌&&◌, ◌||◌, Option, none, some, ◌⊎◌, inl,
  inr, ltb, leb, ◌==◌, if◌then◌else◌, arith,
}
use mathlib.Core.Path.{subst}
use freebsd_radix_userland.Xnu.Epoch.{
  inc32, dec32, Kernel, CpuState, Epoch, EpochTracker, Outcome, done, panic, fault, set_cpu,
  SameReaders, SameReaders-refl, SameReaders-trans, SameReaders-if, record_debug_event-SameReaders,
}
use freebsd_radix_userland.Xnu.Epoch.Pressure.{check_memory_pressure-SameReaders}
use freebsd_radix_userland.Xnu.Epoch.Reader.{
  is_on, enter_cpu, enter_counts, enter_outer, enter_timed, at_level, deeper, debug_enter,
  shallower, exit_counts, exit_traced, debug_exit, enter_tracker, xnu_epoch_enter_preempt,
  trigger_reclaim, exit_cpu, exit_outer, exit_at, xnu_epoch_exit_preempt,
}

-- Processor `c` has `r` readers now; all else that grace periods read is as before.
pub record Moves (c r : ℕ) (e e' : Epoch) : Type 0 where
  pub self : e'.self ≡ e.self
  pub max_cpus : e'.max_cpus ≡ e.max_cpus
  pub grace_period : e'.grace_period ≡ e.grace_period
  pub readers :
      (d : ℕ)
      → (e'.cpu_states d).active_readers ≡ (if d == c then r else (e.cpu_states d).active_readers)
  pub periods : (d : ℕ) → (e'.cpu_states d).last_grace_period ≡ (e.cpu_states d).last_grace_period

-- A change of the state of one processor that no grace period reads but its readers.
pub set_cpu-Moves :
    (e e' : Epoch) (c : ℕ) (s : CpuState)
    → SameReaders (set_cpu e c s) e'
    → s.last_grace_period ≡ (e.cpu_states c).last_grace_period
    → Moves c s.active_readers e e'
set_cpu-Moves e e' c s same kept = record {
  self = same.self;
  max_cpus = same.max_cpus;
  grace_period = same.grace_period;
  readers = λ d. rw same.cpu_states ground arith;
  periods = λ d. rw same.cpu_states ground arith;
}

pub record Entered (k : Kernel) (e e' : Epoch) (t t' : EpochTracker) : Type 0 where
  pub inside : k.cpu_number < e.max_cpus
  pub active : t'.active ≡ true
  pub cpu_state : t'.cpu_state ≡ some k.cpu_number
  pub epoch : t'.epoch ≡ e.self
  pub moves :
      Moves k.cpu_number
        (if t.active
          then (e.cpu_states k.cpu_number).active_readers
          else inc32 (e.cpu_states k.cpu_number).active_readers)
        e
        e'

pub done-injective {ℓ} : {A : Type ℓ} {a b : A} → done a ≡ done b → a ≡ b
done-injective {a} p = ap (λ o. elim o [ done x ↦ x | panic ↦ a | fault ↦ a ]) p

-- Which branch of a test returned.
pub branch {ℓ} :
    {A : Type ℓ} {x y : Outcome A} {a : A} (b : Bool)
    → (if b then x else y) ≡ done a
    → ((b ≡ true) × (x ≡ done a)) ⊎ ((b ≡ false) × (y ≡ done a))
branch true q = inl (refl, q)
branch false q = inr (refl, q)

pub enter_outer-SameReaders :
    (k : Kernel) (e : Epoch)
    → SameReaders
        (set_cpu e k.cpu_number (enter_cpu k e (e.cpu_states k.cpu_number)))
        (enter_outer k e)
enter_outer-SameReaders k e =
    SameReaders-if e.debug_enabled
      (SameReaders-trans counted
        (record_debug_event-SameReaders k (k.clock 2) (enter_counts k e) debug_enter))
      counted
  where
    counted :
        SameReaders
          (set_cpu e k.cpu_number (enter_cpu k e (e.cpu_states k.cpu_number)))
          (enter_counts k e)
    counted = record { self = refl; cpu_states = refl; max_cpus = refl; grace_period = refl }

nested-Entered :
    (k : Kernel) (e : Epoch) (t : EpochTracker)
    → k.cpu_number < e.max_cpus
    → t.active ≡ true
    → is_on t e k.cpu_number ≡ true
    → Entered k e
        (set_cpu e k.cpu_number (deeper (e.cpu_states k.cpu_number)))
        t
        (record (at_level k t) { nesting_level = inc32 t.nesting_level })
nested-Entered k e t inside on here = record {
  inside = inside;
  active = on;
  cpu_state = ground arith;
  epoch = ground arith;
  moves = rw on (
      set_cpu-Moves e _ k.cpu_number (deeper (e.cpu_states k.cpu_number)) (SameReaders-refl _)
        refl);
}

outer-Entered :
    (k : Kernel) (e : Epoch) (t : EpochTracker)
    → k.cpu_number < e.max_cpus
    → t.active ≡ false
    → Entered k e (enter_outer k e) t (enter_timed k e (enter_tracker k e (at_level k t)))
outer-Entered k e t inside off = record {
  inside = inside;
  active = ground arith;
  cpu_state = ground arith;
  epoch = ground arith;
  moves = rw off (
      set_cpu-Moves e _ k.cpu_number (enter_cpu k e (e.cpu_states k.cpu_number))
        (enter_outer-SameReaders k e) refl);
}

pub enter-Entered :
    (k : Kernel) (e e' : Epoch) (t t' : EpochTracker)
    → (t.active ≡ true → is_on t e k.cpu_number ≡ true)
    → xnu_epoch_enter_preempt k e t ≡ done (e', t')
    → Entered k e e' t t'
unfolding xnu_epoch_enter_preempt
enter-Entered k e e' t t' stays q =
    elim (branch (k.at_interrupt_context && not e.interrupt_safe) q) [
      | inl (_, p) ↦ absurd (ground arith)
      | inr (_, p) ↦ elim (branch (leb e.max_cpus k.cpu_number) p) [
        | inl (_, r) ↦ absurd (ground arith)
        | inr (inside, r) ↦ elim (branch (t.active && is_on t e k.cpu_number) r) [
          | inl (on, s) ↦
              subst (λ x. Entered k e x.0 t x.1) (done-injective s)
                (nested-Entered k e t (ground arith) (ground arith) (ground arith))
          | inr (off, s) ↦
              subst (λ x. Entered k e x.0 t x.1) (done-injective s)
                (outer-Entered k e t (ground arith) (ground arith))
        ]
      ]
    ]

trigger_reclaim-SameReaders :
    (k : Kernel) (c : ℕ) (e : Epoch) → SameReaders e (trigger_reclaim k c e)
unfolding trigger_reclaim
trigger_reclaim-SameReaders k c e = ground arith

exit_traced-SameReaders : (k : Kernel) (e : Epoch) → SameReaders e (exit_traced k e)
exit_traced-SameReaders k e =
    SameReaders-if e.debug_enabled (record_debug_event-SameReaders k (k.clock 1) e debug_exit)
      (SameReaders-refl e)

exit_counts-SameReaders : (t : EpochTracker) (e : Epoch) → SameReaders e (exit_counts t e)
exit_counts-SameReaders t e = ground arith

exit_outer-SameReaders :
    (k : Kernel) (e : Epoch) (t : EpochTracker) (c : ℕ)
    → SameReaders (set_cpu e c (exit_cpu (e.cpu_states c))) (exit_outer k e t c)
exit_outer-SameReaders k e t c =
    SameReaders-if (f.memory.memory_pressure == 0) triggered
      (SameReaders-trans triggered (check_memory_pressure-SameReaders k 2 f))
  where
    left : Epoch
    left = set_cpu e c (exit_cpu (e.cpu_states c))

    f : Epoch
    f = trigger_reclaim k c (exit_counts t left)

    triggered : SameReaders left f
    triggered =
        SameReaders-trans (exit_counts-SameReaders t left)
          (trigger_reclaim-SameReaders k c (exit_counts t left))

-- A call that returned left one level of nesting, or the section.
pub record Exited (e e' : Epoch) (t t' : EpochTracker) : Type 0 where
  pub was_active : t.active ≡ true
  pub cpu : ℕ
  pub was_on : t.cpu_state ≡ some cpu
  pub epoch : t'.epoch ≡ e.self
  pub inner : t'.active ≡ true → t'.cpu_state ≡ some cpu
  pub counted : t'.active ≡ false → 0 < (e.cpu_states cpu).active_readers
  pub moves :
      Moves cpu
        (if t'.active
          then (e.cpu_states cpu).active_readers
          else dec32 (e.cpu_states cpu).active_readers)
        e
        e'

-- The count of a processor whose own state the trace leaves alone.
Moves-after : {a b d : Epoch} {c r : ℕ} → SameReaders a b → Moves c r b d → Moves c r a d
Moves-after same m = record {
  self = m.self ∙ same.self;
  max_cpus = m.max_cpus ∙ same.max_cpus;
  grace_period = m.grace_period ∙ same.grace_period;
  readers = λ d. rw (sym same.cpu_states) (m.readers d);
  periods = λ d. rw (sym same.cpu_states) (m.periods d);
}

pub exit_outer-Moves :
    (k : Kernel) (e : Epoch) (t : EpochTracker) (c : ℕ)
    → Moves c (dec32 (e.cpu_states c).active_readers) e (exit_outer k (exit_traced k e) t c)
exit_outer-Moves k e t c =
    subst (λ cpus. Moves c (dec32 (cpus c).active_readers) e left) traced.cpu_states
      (Moves-after traced (
        set_cpu-Moves before left c (exit_cpu (before.cpu_states c))
          (exit_outer-SameReaders k before t c) refl))
  where
    before : Epoch
    before = exit_traced k e

    left : Epoch
    left = exit_outer k before t c

    traced : SameReaders e before
    traced = exit_traced-SameReaders k e

exit_at-Exited :
    (k : Kernel) (e e' : Epoch) (t t' : EpochTracker) (c : ℕ)
    → t.active ≡ true
    → t.epoch ≡ e.self
    → t.cpu_state ≡ some c
    → exit_at k e t c ≡ done (e', t')
    → Exited e e' t t'
unfolding exit_at
exit_at-Exited k e e' t t' c on own here q = elim (branch (ltb 1 t.nesting_level) q) [
  | inl (_, p) ↦
      subst (λ x. Exited e x.0 t x.1) (done-injective p)
        record {
          was_active = on;
          cpu = c;
          was_on = here;
          epoch = own;
          inner = λ _. here;
          counted = λ off. absurd (ground arith);
          moves =
              rw on (set_cpu-Moves e _ c (shallower (e.cpu_states c)) (SameReaders-refl _) refl);
        }
  | inr (_, p) ↦ elim (branch ((e.cpu_states c).active_readers == 0) p) [
    | inl (_, r) ↦ absurd (ground arith)
    | inr (some_reader, r) ↦
        subst (λ x. Exited e x.0 t x.1) (done-injective r)
          record {
            was_active = on;
            cpu = c;
            was_on = here;
            epoch = ground arith;
            inner = λ still. absurd (ground arith);
            counted = λ _. ground arith;
            moves = exit_outer-Moves k e t c;
          }
  ]
]

exit_from :
    (k : Kernel) (e e' : Epoch) (t t' : EpochTracker) (at : Option ℕ)
    → t.active ≡ true
    → t.epoch ≡ e.self
    → t.cpu_state ≡ at
    → (elim at [ none ↦ panic | some c ↦ exit_at k e t c ]) ≡ done (e', t')
    → Exited e e' t t'
exit_from k e e' t t' none on own here q = absurd (ground arith)
exit_from k e e' t t' (some c) on own here q = exit_at-Exited k e e' t t' c on own here q

pub exit-Exited :
    (k : Kernel) (e e' : Epoch) (t t' : EpochTracker)
    → xnu_epoch_exit_preempt k e t ≡ done (e', t')
    → Exited e e' t t'
unfolding xnu_epoch_exit_preempt
exit-Exited k e e' t t' q = elim (branch (not (t.epoch == e.self) || not t.active) q) [
  | inl (_, p) ↦ absurd (ground arith)
  | inr (valid, p) ↦ exit_from k e e' t t' t.cpu_state (ground arith) (ground arith) refl p
]
