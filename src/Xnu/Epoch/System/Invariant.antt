-- ===== src/Xnu/Epoch/System/Invariant.antt =====
-- What holds between two steps of Epoch.System.
use freebsd_radix_userland.Common.{
  ℕ, ◌^◌, ◌≤◌, ◌<◌, ◌≡◌, true, false, none, some, ◌⊎◌, ◌==◌, if◌then◌else◌, arith,
}
use freebsd_radix_userland.Common.Flags.{has_flag, has_flag-zero}
use freebsd_radix_userland.Xnu.Family.{total, total-all_zero, weight-le-total}
use freebsd_radix_userland.Xnu.Epoch.{
  GpState, gp_idle, gp_started, gp_waiting, gp_completed, GracePeriod, EpochTracker,
}
use freebsd_radix_userland.Xnu.Epoch.System.{Phase, resting, starting, checking, System, IsInitial}

-- Whether a thread reads on processor `c`.
abbrev pub reads_on : ℕ → EpochTracker → ℕ
reads_on c t =
    if t.active then (elim t.cpu_state [ none ↦ 0 | some d ↦ if d == c then 1 else 0 ]) else 0

-- A processor that has not yet reported.
abbrev pub IsAwaited : GracePeriod → ℕ → Type 0
IsAwaited g c = (has_flag c g.cpu_mask ≡ true) × (has_flag c g.completed_mask ≡ false)

-- Where an old section may still be open on processor `c`.
abbrev pub Pending : Phase → GpState → GracePeriod → ℕ → Type 0
Pending (starting i _) _ g c = (i ≤ c) ⊎ IsAwaited g c
Pending (checking _ _) _ g c = IsAwaited g c
Pending resting gp_idle g c = ⊥
Pending resting gp_completed g c = ⊥
Pending resting _ g c = IsAwaited g c

-- What the worker's locals say of the masks.
abbrev pub Progress : ℕ → Phase → GracePeriod → Type 0
Progress cpus resting g = Unit
Progress cpus (checking _ _) g = g.gp_state ≡ gp_waiting
Progress cpus (starting i active_cpus) g = record {
  state : g.gp_state ≡ gp_started;
  inside : i ≤ cpus;
  few : active_cpus ≤ i;
  none_active : active_cpus ≡ 0 → (c : ℕ) → c < 32 → has_flag c g.cpu_mask ≡ false;
  not_reported : (c : ℕ) → i ≤ c → c < 32 → has_flag c g.completed_mask ≡ false;
}

-- The last completed period of a processor, against the present one.
abbrev pub IsBehind : GpState → ℕ → ℕ → Type 0
IsBehind gp_idle last number = last ≤ number
IsBehind gp_completed last number = last ≤ number
IsBehind _ last number = last < number

pub record Inv (n : ℕ) (s : System) : Type 0 where
  pub few_cpus : s.epoch.max_cpus < 33
  pub counted : (c : ℕ) → (s.epoch.cpu_states c).active_readers ≡ total (reads_on c) n s.tracker
  pub placed :
      (i : ℕ)
      → (s.tracker i).active ≡ true
      → (c : ℕ) × ((s.tracker i).cpu_state ≡ some c)
        × (c < s.epoch.max_cpus)
        × ((s.tracker i).epoch ≡ s.epoch.self)
  pub behind :
      (c : ℕ)
      → IsBehind s.epoch.grace_period.gp_state
          (s.epoch.cpu_states c).last_grace_period
          s.epoch.grace_period.gp_number
  pub mask_fits : s.epoch.grace_period.cpu_mask < 2 ^ 32
  pub completed_fits : s.epoch.grace_period.completed_mask < 2 ^ 32
  pub mask_inside :
      (c : ℕ) → c < 32 → has_flag c s.epoch.grace_period.cpu_mask ≡ true → c < s.epoch.max_cpus
  pub progress : Progress s.epoch.max_cpus s.phase s.epoch.grace_period
  pub pending :
      (i c : ℕ)
      → i < n
      → s.old i ≡ true
      → (s.tracker i).active ≡ true
      → (s.tracker i).cpu_state ≡ some c
      → Pending s.phase s.epoch.grace_period.gp_state s.epoch.grace_period c

pub initial-Inv : (n : ℕ) (s : System) → IsInitial s → Inv n s
initial-Inv n s start = record {
  few_cpus = start.few_cpus;
  counted = λ c. omega (
    arith,
    start.no_readers c,
    total-all_zero (reads_on c) n s.tracker (λ i. ground (arith, start.outside i)),
  );
  placed = λ i on. absurd (ground (arith, start.outside i));
  behind = λ c. rw (start.idle, start.no_periods c) (omega arith);
  mask_fits = omega (arith, start.cpu_mask);
  completed_fits = omega (arith, start.completed_mask);
  mask_inside = λ c small set. absurd (ground (arith, flagless c));
  progress = rw start.rests tt;
  pending = λ i c lt old on at. absurd (ground (arith, start.outside i));
}
  where
    flagless : (c : ℕ) → has_flag c s.epoch.grace_period.cpu_mask ≡ false
    flagless c = rw start.cpu_mask (has_flag-zero c)

-- A processor on which a thread reads has readers.
pub reader-counted :
    {n : ℕ} {s : System}
    → Inv n s
    → (i c : ℕ) → i < n
    → (s.tracker i).active ≡ true
    → (s.tracker i).cpu_state ≡ some c
    → 0 < (s.epoch.cpu_states c).active_readers
reader-counted {n} {s} inv i c lt on at =
    let one : reads_on c (s.tracker i) ≡ 1 = ground arith in
    omega (arith, inv.counted c, one, weight-le-total (reads_on c) n s.tracker i lt)
