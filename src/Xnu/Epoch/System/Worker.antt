-- ===== src/Xnu/Epoch/System/Worker.antt =====
-- The worker of the grace periods keeps the invariant of Epoch.System.
use freebsd_radix_userland.Common.{
  ℕ, zero, suc, ◌+◌, ◌^◌, ◌≤◌, ◌<◌, ◌≡◌, refl, sym, ◌∙◌, Bool, true, false, ◌&&◌, some, ◌⊎◌, inl,
  inr, ◌==◌, ==_iff, if-elim, ltb, arith, Bool-cases,
}
use freebsd_radix_userland.Common.Flags.{
  has_flag, set_flag, set_flag-lt, has_flag-set, has_flag-without, has_flag-zero,
}
use mathlib.Core.Path.{subst}
use mathlib.Core.Option.{some-injective}
use freebsd_radix_userland.Xnu.Family.{assign_kept}
use freebsd_radix_userland.Xnu.Epoch.{
  inc32, inc64, Kernel, CpuState, GpState, gp_idle, gp_waiting, gp_completed, GracePeriod, Epoch,
  set_cpu, SameReaders, record_debug_event-SameReaders,
}
use freebsd_radix_userland.Xnu.Epoch.Grace.{
  begin_grace, start_cpu, start_done, finish_start, remaining_mask, check_cpu, complete_loop,
  complete_all, debug_grace_end, xnu_epoch_complete_grace_period, reset_grace, has_completed,
  debug_grace_start,
}
use freebsd_radix_userland.Xnu.Epoch.System.{Phase, resting, starting, checking, System}
use freebsd_radix_userland.Xnu.Epoch.System.Invariant.{
  IsAwaited, Pending, Progress, IsBehind, Inv, reader-counted,
}

complete_loop-readers :
    (m : ℕ) (g : GracePeriod) (cpus : ℕ → CpuState) (c : ℕ)
    → (complete_loop m g cpus c).active_readers ≡ (cpus c).active_readers
unfolding complete_loop
complete_loop-readers zero g cpus c = refl
complete_loop-readers (suc m) g cpus c =
    assign_kept (λ x. x.active_readers) (complete_loop m g cpus) m _ refl c
    ∙ complete_loop-readers m g cpus c

complete_loop-last :
    (m : ℕ) (g : GracePeriod) (cpus : ℕ → CpuState) (c : ℕ)
    → ((complete_loop m g cpus c).last_grace_period ≡ g.gp_number)
      ⊎ ((complete_loop m g cpus c).last_grace_period ≡ (cpus c).last_grace_period)
unfolding complete_loop
complete_loop-last zero g cpus c = inr refl
complete_loop-last (suc m) g cpus c = ground (arith, complete_loop-last m g cpus c)

-- Steps that leave readers and grace periods alone.
pub other-Inv :
    {n : ℕ} {s : System}
    → Inv n s
    → {e : Epoch} → SameReaders s.epoch e
    → Inv n (record s { epoch = e })
other-Inv inv same = record {
  few_cpus = rw same.max_cpus inv.few_cpus;
  counted = rw same.cpu_states inv.counted;
  placed = rw (same.max_cpus, same.self) inv.placed;
  behind = rw (same.grace_period, same.cpu_states) inv.behind;
  mask_fits = rw same.grace_period inv.mask_fits;
  completed_fits = rw same.grace_period inv.completed_fits;
  mask_inside = rw (same.grace_period, same.max_cpus) inv.mask_inside;
  progress = rw (same.grace_period, same.max_cpus) inv.progress;
  pending = rw same.grace_period inv.pending;
}

-- A step of the worker changes the grace period, its own position and what processors keep for it.
record Worked (n : ℕ) (s : System) (e : Epoch) (old : ℕ → Bool) (phase : Phase) : Type 0 where
  self : e.self ≡ s.epoch.self
  max_cpus : e.max_cpus ≡ s.epoch.max_cpus
  readers : (c : ℕ) → (e.cpu_states c).active_readers ≡ (s.epoch.cpu_states c).active_readers
  behind :
      (c : ℕ)
      → IsBehind e.grace_period.gp_state (e.cpu_states c).last_grace_period e.grace_period.gp_number
  mask_fits : e.grace_period.cpu_mask < 2 ^ 32
  completed_fits : e.grace_period.completed_mask < 2 ^ 32
  mask_inside : (c : ℕ) → c < 32 → has_flag c e.grace_period.cpu_mask ≡ true → c < s.epoch.max_cpus
  progress : Progress s.epoch.max_cpus phase e.grace_period
  pending :
      (i c : ℕ)
      → i < n
      → old i ≡ true
      → (s.tracker i).active ≡ true
      → (s.tracker i).cpu_state ≡ some c
      → Pending phase e.grace_period.gp_state e.grace_period c

Worked-Inv :
    {n : ℕ} {s : System}
    → Inv n s
    → {e : Epoch} {old : ℕ → Bool} {phase : Phase} → Worked n s e old phase
    → Inv n (record s { epoch = e; old = old; phase = phase })
Worked-Inv inv w = record {
  few_cpus = rw w.max_cpus inv.few_cpus;
  counted = λ c. w.readers c ∙ inv.counted c;
  placed = rw (w.max_cpus, w.self) inv.placed;
  behind = w.behind;
  mask_fits = w.mask_fits;
  completed_fits = w.completed_fits;
  mask_inside = rw w.max_cpus w.mask_inside;
  progress = rw w.max_cpus w.progress;
  pending = w.pending;
}

module _ {n : ℕ} {s : System} (inv : Inv n s) where
  abbrev period : GracePeriod
  period = s.epoch.grace_period

  -- The processor of a section lies below 32.
  cpu-lt :
      (i c : ℕ)
      → (s.tracker i).active ≡ true
      → (s.tracker i).cpu_state ≡ some c
      → c < s.epoch.max_cpus
  cpu-lt i c on at =
      let (d, here, inside, _) = inv.placed i on in
      let e : c ≡ d = some-injective c d (sym at ∙ here) in omega arith

  Pending-at :
      {p : Phase} {st : GpState}
      → s.phase ≡ p
      → period.gp_state ≡ st
      → (i c : ℕ) → i < n
      → s.old i ≡ true
      → (s.tracker i).active ≡ true
      → (s.tracker i).cpu_state ≡ some c
      → Pending p st period c
  Pending-at {p} ph st i c lt was on at =
      subst (λ x. Pending p x period c) st
        (subst (λ x. Pending x period.gp_state period c) ph (inv.pending i c lt was on at))

  Progress-at : {p : Phase} → s.phase ≡ p → Progress s.epoch.max_cpus p period
  Progress-at ph = subst (λ x. Progress s.epoch.max_cpus x period) ph inv.progress

  IsBehind-at :
      {st : GpState}
      → period.gp_state ≡ st
      → (c : ℕ) → IsBehind st (s.epoch.cpu_states c).last_grace_period period.gp_number
  IsBehind-at st c =
      subst (λ x. IsBehind x (s.epoch.cpu_states c).last_grace_period period.gp_number) st
        (inv.behind c)

  pub begin-Inv :
      (k : Kernel)
      → period.gp_state ≡ gp_idle
      → period.gp_number + 1 < 2 ^ 64
      → Inv n (record s {
        epoch = begin_grace k s.epoch;
        old = λ i. (s.tracker i).active;
        phase = starting 0 0;
      })
  begin-Inv k idle small = Worked-Inv inv record {
    self = refl;
    max_cpus = refl;
    readers = λ c. refl;
    behind = λ c.
        let b : (s.epoch.cpu_states c).last_grace_period ≤ period.gp_number = IsBehind-at idle c in
        omega arith;
    mask_fits = omega arith;
    completed_fits = omega arith;
    mask_inside = λ c small set. absurd (ground (arith, has_flag-zero c));
    progress = record {
      state = refl;
      inside = omega arith;
      few = omega arith;
      none_active = λ _ c _. has_flag-zero c;
      not_reported = λ c _ _. has_flag-zero c;
    };
    pending = λ i c lt on _ at. inl (omega arith);
  }

  -- A processor with readers is put on the mask.
  awaited-Inv :
      {i active_cpus : ℕ}
      → s.phase ≡ starting i active_cpus
      → i < s.epoch.max_cpus
      → Inv n (record s {
        epoch = record (s.epoch) {
          grace_period = record period { cpu_mask = set_flag i period.cpu_mask };
        };
        phase = starting (suc i) (inc32 active_cpus);
      })
  awaited-Inv {i} {active_cpus} at lt =
      let p = Progress-at at in
      Worked-Inv inv record {
        self = refl;
        max_cpus = refl;
        readers = λ c. refl;
        behind = inv.behind;
        mask_fits = set_flag-lt i period.cpu_mask (omega (arith, inv.few_cpus)) inv.mask_fits;
        completed_fits = inv.completed_fits;
        mask_inside = λ c small flag. ground (
          arith,
          inv.mask_inside c small,
          has_flag-set i c period.cpu_mask (omega (arith, inv.few_cpus)) small inv.mask_fits,
        );
        progress = record {
          state = p.state;
          inside = lt;
          few = omega (arith, p.few);
          none_active = λ e. absurd (omega (arith, p.few, inv.few_cpus));
          not_reported = λ c le small. p.not_reported c (omega arith) small;
        };
        pending = λ j c lj was on here.
            let hc : c < 32 = omega (arith, cpu-lt j c on here, inv.few_cpus) in
            let hi : i < 32 = omega (arith, inv.few_cpus) in
            let set = has_flag-set i c period.cpu_mask hi hc inv.mask_fits in
            elim (Pending-at at refl j c lj was on here) [
              | inl le ↦ elim (Bool-cases (c == i)) [
                | inl same ↦ inr (ground arith, p.not_reported c le hc)
                | inr other ↦ inl (ground arith)
              ]
              | inr awaited ↦ inr (ground (arith, awaited.0), awaited.1)
            ];
      }

  reported-Inv :
      {i active_cpus : ℕ}
      → s.phase ≡ starting i active_cpus
      → i < s.epoch.max_cpus
      → (s.epoch.cpu_states i).active_readers ≡ 0
      → Inv n (record s {
        epoch = record (s.epoch) {
          grace_period = record period { completed_mask = set_flag i period.completed_mask };
        };
        phase = starting (suc i) active_cpus;
      })
  reported-Inv {i} {active_cpus} at lt no_readers =
      let p = Progress-at at in
      Worked-Inv inv record {
        self = refl;
        max_cpus = refl;
        readers = λ c. refl;
        behind = inv.behind;
        mask_fits = inv.mask_fits;
        completed_fits =
            set_flag-lt i period.completed_mask (omega (arith, inv.few_cpus)) inv.completed_fits;
        mask_inside = inv.mask_inside;
        progress = record {
          state = p.state;
          inside = lt;
          few = omega (arith, p.few);
          none_active = p.none_active;
          not_reported = λ c le small.
              let set =
                has_flag-set i c period.completed_mask (omega (arith, inv.few_cpus)) small
                  inv.completed_fits in
              ground (arith, p.not_reported c (omega arith) small);
        };
        pending = λ j c lj was on here.
            let hc : c < 32 = omega (arith, cpu-lt j c on here, inv.few_cpus) in
            let hi : i < 32 = omega (arith, inv.few_cpus) in
            let set = has_flag-set i c period.completed_mask hi hc inv.completed_fits in
            elim (Bool-cases (c == i)) [
              | inl same ↦
                  let e : c ≡ i = (==_iff c i).0 same in
                  let zero_readers : (s.epoch.cpu_states c).active_readers ≡ 0 = rw e no_readers in
                  absurd (omega (arith, reader-counted inv j c lj on here))
              | inr other ↦ elim (Pending-at at refl j c lj was on here) [
                | inl le ↦ inl (ground arith)
                | inr awaited ↦ inr (awaited.0, ground (arith, awaited.1))
              ]
            ];
      }

  pub start_visit-Inv :
      {i active_cpus : ℕ}
      → s.phase ≡ starting i active_cpus
      → i < s.epoch.max_cpus
      → Inv n (record s {
        epoch = record (s.epoch) {
          grace_period = (start_cpu i (period, active_cpus) (s.epoch.cpu_states i)).0;
        };
        phase = starting (suc i) (start_cpu i (period, active_cpus) (s.epoch.cpu_states i)).1;
      })
  start_visit-Inv {i} {active_cpus} at lt =
      if-elim {A = GracePeriod × ℕ}
        (λ r. Inv n (record s {
          epoch = record (s.epoch) { grace_period = r.0 };
          phase = starting (suc i) r.1;
        }))
        (ltb 0 (s.epoch.cpu_states i).active_readers) (λ _. awaited-Inv at lt)
        (λ h. reported-Inv at lt (ground arith))

  pub start_end-Inv :
      (k : Kernel) {active_cpus : ℕ}
      → s.phase ≡ starting s.epoch.max_cpus active_cpus
      → Inv n (record s { epoch = finish_start k (period, active_cpus) s.epoch; phase = resting })
  unfolding finish_start
  start_end-Inv k {active_cpus} at =
      if-elim (λ e. Inv n (record s { epoch = e; phase = resting })) s.epoch.debug_enabled
        (λ _. other-Inv ended (record_debug_event-SameReaders k (k.clock 1) f debug_grace_start))
        (λ _. ended)
    where
      p : Progress s.epoch.max_cpus (starting s.epoch.max_cpus active_cpus) period
      p = Progress-at at

      f : Epoch
      f = start_done (period, active_cpus) s.epoch

      all_awaited :
          (i c : ℕ)
          → i < n
          → s.old i ≡ true
          → (s.tracker i).active ≡ true
          → (s.tracker i).cpu_state ≡ some c
          → IsAwaited period c
      all_awaited i c lt was on here = elim (Pending-at at refl i c lt was on here) [
        | inl le ↦ absurd (omega (arith, cpu-lt i c on here))
        | inr awaited ↦ awaited
      ]

      ended : Inv n (record s { epoch = f; phase = resting })
      ended =
          if-elim
            (λ st. Inv n (record s {
              epoch = record (s.epoch) {
                grace_period = record period { gp_state = st };
                grace_periods_completed = inc64 s.epoch.grace_periods_completed;
              };
              phase = resting;
            }))
            (active_cpus == 0)
            (λ none. Worked-Inv inv record {
              self = refl;
              max_cpus = refl;
              readers = λ c. refl;
              behind = λ c. let b = IsBehind-at p.state c in omega arith;
              mask_fits = inv.mask_fits;
              completed_fits = inv.completed_fits;
              mask_inside = inv.mask_inside;
              progress = tt;
              pending = λ i c lt was on here.
                  let (awaited, _) = all_awaited i c lt was on here in
                  let hc : c < 32 = omega (arith, cpu-lt i c on here, inv.few_cpus) in
                  let clear : has_flag c period.cpu_mask ≡ false =
                    p.none_active (ground arith) c hc in
                  ground arith;
            })
            (λ some_active. Worked-Inv inv record {
              self = refl;
              max_cpus = refl;
              readers = λ c. refl;
              behind = IsBehind-at p.state;
              mask_fits = inv.mask_fits;
              completed_fits = inv.completed_fits;
              mask_inside = inv.mask_inside;
              progress = tt;
              pending = all_awaited;
            })

  pub check-Inv :
      s.phase ≡ resting
      → period.gp_state ≡ gp_waiting
      → Inv n (record s { phase = checking 0 (remaining_mask period) })
  check-Inv rests waiting = Worked-Inv inv record {
    self = refl;
    max_cpus = refl;
    readers = λ c. refl;
    behind = inv.behind;
    mask_fits = inv.mask_fits;
    completed_fits = inv.completed_fits;
    mask_inside = inv.mask_inside;
    progress = waiting;
    pending = Pending-at rests waiting;
  }

  pub reset-Inv :
      (k : Kernel)
      → s.phase ≡ resting
      → period.gp_state ≡ gp_completed
      → Inv n (record s { epoch = reset_grace k s.epoch })
  reset-Inv k rests completed = Worked-Inv inv record {
    self = refl;
    max_cpus = refl;
    readers = λ c. refl;
    behind = λ c. IsBehind-at completed c;
    mask_fits = inv.mask_fits;
    completed_fits = inv.completed_fits;
    mask_inside = inv.mask_inside;
    progress = rw rests tt;
    pending = λ i c lt was on at. absurd (Pending-at rests completed i c lt was on at);
  }

  check_cpu-done :
      (remaining i : ℕ)
      → s.phase ≡ checking i remaining
      → i < s.epoch.max_cpus
      → has_completed period (s.epoch.cpu_states i) ≡ true
      → Inv n (record s {
        epoch =
            record (set_cpu s.epoch i (record (s.epoch.cpu_states i) {
              grace_periods = inc64 (s.epoch.cpu_states i).grace_periods;
            })) {
              grace_period = record period { completed_mask = set_flag i period.completed_mask };
            };
        phase = checking (suc i) remaining;
      })
  check_cpu-done remaining i at lt finished = Worked-Inv inv record {
    self = refl;
    max_cpus = refl;
    readers = assign_kept (λ x. x.active_readers) s.epoch.cpu_states i _ refl;
    behind = λ c.
        subst (λ l. IsBehind period.gp_state l period.gp_number)
          (sym (assign_kept (λ x. x.last_grace_period) s.epoch.cpu_states i _ refl c))
          (inv.behind c);
    mask_fits = inv.mask_fits;
    completed_fits =
        set_flag-lt i period.completed_mask (omega (arith, inv.few_cpus)) inv.completed_fits;
    mask_inside = inv.mask_inside;
    progress = Progress-at at;
    pending = λ j c lj was on here.
        let awaited = Pending-at at refl j c lj was on here in
        let hc : c < 32 = omega (arith, cpu-lt j c on here, inv.few_cpus) in
        let hi : i < 32 = omega (arith, inv.few_cpus) in
        let set = has_flag-set i c period.completed_mask hi hc inv.completed_fits in
        elim (Bool-cases (c == i)) [
          | inl same ↦
              let e : c ≡ i = (==_iff c i).0 same in
              let at_c : has_completed period (s.epoch.cpu_states c) ≡ true = rw e finished in
              let read = reader-counted inv j c lj on here in
              let b = IsBehind-at (Progress-at at) c in absurd (ground arith)
          | inr other ↦ (awaited.0, ground (arith, awaited.1))
        ];
  }

  pub check_visit-Inv :
      {i remaining : ℕ}
      → s.phase ≡ checking i remaining
      → i < s.epoch.max_cpus
      → Inv n
          (record s { epoch = check_cpu remaining i s.epoch; phase = checking (suc i) remaining })
  check_visit-Inv {i} {remaining} at lt =
      if-elim (λ e. Inv n (record s { epoch = e; phase = checking (suc i) remaining }))
        (has_flag i remaining && has_completed period (s.epoch.cpu_states i))
        (λ h. check_cpu-done remaining i at lt (ground arith))
        (λ _. Worked-Inv inv record {
          self = refl;
          max_cpus = refl;
          readers = λ c. refl;
          behind = inv.behind;
          mask_fits = inv.mask_fits;
          completed_fits = inv.completed_fits;
          mask_inside = inv.mask_inside;
          progress = Progress-at at;
          pending = Pending-at at refl;
        })

  pub check_fail-Inv :
      {remaining : ℕ}
      → s.phase ≡ checking s.epoch.max_cpus remaining
      → Inv n (record s { phase = resting })
  check_fail-Inv at = Worked-Inv inv record {
    self = refl;
    max_cpus = refl;
    readers = λ c. refl;
    behind = inv.behind;
    mask_fits = inv.mask_fits;
    completed_fits = inv.completed_fits;
    mask_inside = inv.mask_inside;
    progress = tt;
    pending = λ i c lt was on here.
        subst (λ st. Pending resting st period c) (sym (Progress-at at))
          (Pending-at at refl i c lt was on here);
  }

  pub complete-Inv :
      (k : Kernel) {remaining : ℕ}
      → s.phase ≡ checking s.epoch.max_cpus remaining
      → (remaining_mask period == 0) ≡ true
      → Inv n (record s { epoch = xnu_epoch_complete_grace_period k s.epoch; phase = resting })
  unfolding xnu_epoch_complete_grace_period complete_all
  complete-Inv k {remaining} at none_left =
      if-elim (λ e. Inv n (record s { epoch = e; phase = resting })) s.epoch.debug_enabled
        (λ _.
          other-Inv ended
            (record_debug_event-SameReaders k (k.clock 1) (complete_all s.epoch) debug_grace_end))
        (λ _. ended)
    where
      g : GracePeriod
      g = record period { gp_state = gp_completed }

      ended : Inv n (record s { epoch = complete_all s.epoch; phase = resting })
      ended = Worked-Inv inv record {
        self = refl;
        max_cpus = refl;
        readers = complete_loop-readers s.epoch.max_cpus g s.epoch.cpu_states;
        behind = λ c.
            let b = IsBehind-at (Progress-at at) c in
            let l = complete_loop-last s.epoch.max_cpus g s.epoch.cpu_states c in ground arith;
        mask_fits = inv.mask_fits;
        completed_fits = inv.completed_fits;
        mask_inside = inv.mask_inside;
        progress = tt;
        pending = λ i c lt was on here.
            let awaited = Pending-at at refl i c lt was on here in
            let hc : c < 32 = omega (arith, cpu-lt i c on here, inv.few_cpus) in
            let w =
              has_flag-without c period.cpu_mask period.completed_mask hc inv.mask_fits
                inv.completed_fits in
            let empty : remaining_mask period ≡ 0 = ground arith in
            let none : has_flag c (remaining_mask period) ≡ false = rw empty (has_flag-zero c) in
            ground (arith, awaited.0, awaited.1);
      }
