-- ===== src/Xnu/Epoch/System/Safety.antt =====
-- What grace periods promise to the readers of Epoch.System.
use freebsd_radix_userland.Common.{
  ℕ, ◌-◌, ◌^◌, ◌<◌, ◌≡◌, refl, true, false, inl, inr, ◌==◌, ltb, arith, Bool-cases,
}
use mathlib.Core.Path.{subst}
use freebsd_radix_userland.Xnu.Family.{total}
use freebsd_radix_userland.Xnu.Epoch.{Kernel, gp_completed, Epoch, EpochTracker, done, set_cpu}
use freebsd_radix_userland.Xnu.Epoch.Reader.{
  exit_at, shallower, exit_outer, exit_traced, exit_timed, exit_tracker, xnu_epoch_exit_preempt,
}
use freebsd_radix_userland.Xnu.Epoch.System.{
  resting, System, Step, enter, exit, begin, start_visit, start_end, check, check_visit, check_fail,
  complete, reset, other, IsInitial, Reach, here, next,
}
use freebsd_radix_userland.Xnu.Epoch.System.Invariant.{
  reads_on, Pending, Inv, initial-Inv, reader-counted,
}
use freebsd_radix_userland.Xnu.Epoch.System.Readers.{enter-Inv, exit-Inv}
use freebsd_radix_userland.Xnu.Epoch.System.Worker.{
  other-Inv, begin-Inv, start_visit-Inv, start_end-Inv, check-Inv, check_visit-Inv, check_fail-Inv,
  complete-Inv, reset-Inv,
}

pub Step-Inv : {n : ℕ} {s t : System} → n < 2 ^ 32 → Inv n s → Step n s t → Inv n t
Step-Inv few inv (enter i k lt stays q) = enter-Inv inv few i lt k stays q
Step-Inv few inv (exit i k lt q) = exit-Inv inv few i lt k q
Step-Inv few inv (begin k rests idle small) = begin-Inv inv k idle small
Step-Inv few inv (start_visit at lt) = start_visit-Inv inv at lt
Step-Inv few inv (start_end k at) = start_end-Inv inv k at
Step-Inv few inv (check rests waiting) = check-Inv inv rests waiting
Step-Inv few inv (check_visit at lt) = check_visit-Inv inv at lt
Step-Inv few inv (check_fail at _) = check_fail-Inv inv at
Step-Inv few inv (complete k at none) = complete-Inv inv k at none
Step-Inv few inv (reset k rests completed) = reset-Inv inv k rests completed
Step-Inv few inv (other same) = other-Inv inv same

pub Reach-Inv : {n : ℕ} {s t : System} → n < 2 ^ 32 → IsInitial s → Reach n s t → Inv n t
Reach-Inv {n} {s} few start here = initial-Inv n s start
Reach-Inv few start (next r st) = Step-Inv few (Reach-Inv few start r) st

-- In every state that fewer than 2^32 threads reach from an initial one, with readers that stay on
-- their processor while they are in a section, in whatever order their calls fall between the steps of
-- the worker: once the period is completed, each section that was open when it began has been left.
pub grace_period-safe :
    {n : ℕ} {s t : System}
    → n < 2 ^ 32
    → IsInitial s
    → Reach n s t
    → t.phase ≡ resting
    → t.epoch.grace_period.gp_state ≡ gp_completed
    → (i : ℕ) → i < n
    → t.old i ≡ true
    → (t.tracker i).active ≡ false
grace_period-safe {n} {s} {t} few start r rests completed i lt old =
    elim (Bool-cases (t.tracker i).active) [
      | inl on ↦
          let inv = Reach-Inv few start r in
          let (c, at, _, _) = inv.placed i on in
          absurd (
            subst (λ st. Pending resting st t.epoch.grace_period c) completed
              (subst (λ p. Pending p t.epoch.grace_period.gp_state t.epoch.grace_period c) rests
                (inv.pending i c lt old on at)))
      | inr off ↦ off
    ]

-- In every such state the count of a processor is the number of threads in a section on it.
pub active_readers-total :
    {n : ℕ} {s t : System}
    → n < 2 ^ 32
    → IsInitial s
    → Reach n s t
    → (c : ℕ) → (t.epoch.cpu_states c).active_readers ≡ total (reads_on c) n t.tracker
active_readers-total few start r c = (Reach-Inv few start r).counted c

exit_at-done :
    (k : Kernel) (e : Epoch) (t : EpochTracker) (c : ℕ)
    → 0 < (e.cpu_states c).active_readers
    → (x : Epoch × EpochTracker) × (exit_at k e t c ≡ done x)
unfolding exit_at
exit_at-done k e t c positive = elim (Bool-cases (ltb 1 t.nesting_level)) [
  | inl nested ↦ (
    (set_cpu e c (shallower (e.cpu_states c)), record t { nesting_level = t.nesting_level - 1 }),
    rw nested refl,
  )
  | inr outer ↦
      let some_reader : ((e.cpu_states c).active_readers == 0) ≡ false = ground arith in
      (
        (exit_outer k (exit_traced k e) t c, exit_tracker (exit_timed k e t)),
        rw (outer, some_reader) refl,
      )
]

-- In every such state a thread that is in a section can leave: `xnu_epoch_exit_preempt` returns, it
-- does not panic.
pub exit_preempt-done :
    {n : ℕ} {s t : System}
    → n < 2 ^ 32
    → IsInitial s
    → Reach n s t
    → (i : ℕ) (k : Kernel) → i < n
    → (t.tracker i).active ≡ true
    → (x : Epoch × EpochTracker) × (xnu_epoch_exit_preempt k t.epoch (t.tracker i) ≡ done x)
unfolding xnu_epoch_exit_preempt
exit_preempt-done {t} few start r i k lt on =
    let inv = Reach-Inv few start r in
    let (c, at, _, own) = inv.placed i on in
    let (x, q) = exit_at-done k t.epoch (t.tracker i) c (reader-counted inv i c lt on at) in
    (x, rw at (ground arith))
