-- ===== src/Xnu/Epoch/Reader/Migrated.antt =====
-- A thread that enters again on another processor, inside its section.
use freebsd_radix_userland.Common.{
  ℕ, ◌≡◌, refl, sym, true, false, not, ◌&&◌, ◌||◌, none, some, inl, inr, ltb, leb, ◌==◌, arith,
}
use mathlib.Core.Path.{subst}
use freebsd_radix_userland.Xnu.Epoch.{inc32, dec32, Kernel, Epoch, EpochTracker, done, panic}
use freebsd_radix_userland.Xnu.Epoch.Reader.{
  is_on, enter_outer, enter_timed, enter_tracker, enter_cpu, at_level, exit_outer, exit_traced,
  exit_tracker, exit_timed, exit_at, xnu_epoch_enter_preempt, xnu_epoch_exit_preempt,
}
use freebsd_radix_userland.Xnu.Epoch.Reader.Moves.{
  Moves, branch, done-injective, enter_outer-SameReaders, set_cpu-Moves, exit_outer-Moves,
}

-- The thread is outside, and processor `d` counts it still.
abbrev pub IsLeaked : Epoch → ℕ → Epoch × EpochTracker → Type 0
IsLeaked e d r =
    (r.1.active ≡ false) × ((r.0.cpu_states d).active_readers ≡ (e.cpu_states d).active_readers)

-- The tracker after such an enter is as after a first one.
entered-elsewhere :
    (k : Kernel) (e : Epoch) (t : EpochTracker) (x : Epoch × EpochTracker)
    → is_on t e k.cpu_number ≡ false
    → xnu_epoch_enter_preempt k e t ≡ done x
    → (enter_outer k e, enter_timed k e (enter_tracker k e (at_level k t))) ≡ x
unfolding xnu_epoch_enter_preempt
entered-elsewhere k e t x off q = elim (branch (k.at_interrupt_context && not e.interrupt_safe) q) [
  | inl (_, p) ↦ absurd (ground arith)
  | inr (_, p) ↦ elim (branch (leb e.max_cpus k.cpu_number) p) [
    | inl (_, r) ↦ absurd (ground arith)
    | inr (inside, r) ↦ elim (branch (t.active && is_on t e k.cpu_number) r) [
      | inl (on, s) ↦ absurd (ground arith)
      | inr (_, s) ↦ done-injective s
    ]
  ]
]

-- Leaving a section of one level.
exited-outer :
    (k : Kernel) (e : Epoch) (t : EpochTracker) (x : Epoch × EpochTracker) (c : ℕ)
    → t.cpu_state ≡ some c
    → t.nesting_level ≡ 1
    → xnu_epoch_exit_preempt k e t ≡ done x
    → (exit_outer k (exit_traced k e) t c, exit_tracker (exit_timed k e t)) ≡ x
unfolding xnu_epoch_exit_preempt exit_at
exited-outer k e t x c at one q = elim (branch (not (t.epoch == e.self) || not t.active) q) [
  | inl (_, p) ↦ absurd (ground arith)
  | inr (_, p) ↦
      let s : exit_at k e t c ≡ done x =
        subst (λ o. (elim o [ none ↦ panic | some d ↦ exit_at k e t d ]) ≡ done x) at p in
      elim (branch (ltb 1 t.nesting_level) s) [
        | inl (_, r) ↦ absurd (ground arith)
        | inr (_, r) ↦ elim (branch ((e.cpu_states c).active_readers == 0) r) [
          | inl (_, u) ↦ absurd (ground arith)
          | inr (_, u) ↦ done-injective u
        ]
      ]
]

-- A thread that is in a section on processor `d` and enters again on another processor leaves both
-- sections with one exit, and the count of processor `d` keeps its old value.
pub migrated-IsLeaked :
    (k l : Kernel) (e : Epoch) (t : EpochTracker) (d : ℕ) (x y : Epoch × EpochTracker)
    → t.active ≡ true
    → t.cpu_state ≡ some d
    → (d == k.cpu_number) ≡ false
    → xnu_epoch_enter_preempt k e t ≡ done x
    → xnu_epoch_exit_preempt l x.0 x.1 ≡ done y
    → IsLeaked e d y
migrated-IsLeaked k l e t d x y on at other entered exited =
    subst (IsLeaked e d) (exited-outer l f u y c state level leaving)
      (off, ground (arith, entering.readers d, left.readers d))
  where
    c : ℕ
    c = k.cpu_number

    f : Epoch
    f = enter_outer k e

    u : EpochTracker
    u = enter_timed k e (enter_tracker k e (at_level k t))

    state : u.cpu_state ≡ some c
    state = ground arith

    level : u.nesting_level ≡ 1
    level = ground arith

    leaving : xnu_epoch_exit_preempt l f u ≡ done y
    leaving =
        subst (λ z. xnu_epoch_exit_preempt l z.0 z.1 ≡ done y)
          (sym (entered-elsewhere k e t x (ground arith) entered)) exited

    off : (exit_tracker (exit_timed l f u)).active ≡ false
    off = refl

    entering : Moves c (inc32 (e.cpu_states c).active_readers) e f
    entering =
        set_cpu-Moves e f c (enter_cpu k e (e.cpu_states c)) (enter_outer-SameReaders k e) refl

    left : Moves c (dec32 (f.cpu_states c).active_readers) f (exit_outer l (exit_traced l f) u c)
    left = exit_outer-Moves l f u c
