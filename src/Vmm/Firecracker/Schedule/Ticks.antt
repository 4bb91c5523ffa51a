-- ===== src/Vmm/Firecracker/Schedule/Ticks.antt =====
-- The ticks of the scheduler of hostd/src/vmm/firecracker/schedule.rs, against the times at which a
-- schedule fires.
use tikovm.Prelude.{
  ℕ, text_eq, ◌≤◌, ◌<◌, Bool, true, false, Option, none, some, List, [], ◌∷◌, Text, text_beq,
  if◌then◌else◌, Map, get, ◌≡◌, ◌↔◌, ◌⊎◌, inl, inr, refl, ap, sym, ◌∙◌, arith, Bool-cases,
}
use native.Mathlib.Decide.{dec_le, dec_lt}
use tikovm.Vmm.Config.{schedule}
use tikovm.Vmm.Instance.{VmInstance}
use tikovm.Vmm.Firecracker.{FirecrackerVmm, FcVmEntry}
use tikovm.Vmm.Firecracker.Schedule.{
  Schedule, parse_cron_schedule, fires_by, is_schedule, is_due, due_vms, fire_due_schedules,
  run_ticks,
}

-- What the cron library documents of `after`: it gives the first time ahead at which the schedule
-- fires.
pub record IsSchedule (after : Schedule) : Type 0 where
  pub ahead : (t u : ℕ) → after t ≡ some u → t < u
  pub first : (t s u : ℕ) → after t ≡ some u → t ≤ s → s < u → after s ≡ some u
  pub over : (t s : ℕ) → after t ≡ none → t ≤ s → after s ≡ none

-- The schedule fires at the time.
abbrev pub Fires : Schedule → ℕ → Type 0
Fires after u = (t : ℕ) × (after t ≡ some u)

-- The schedule fires within the window.
abbrev pub FiresIn : Schedule → ℕ → ℕ → Type 0
FiresIn after last now = (u : ℕ) × (Fires after u × ((last < u) × (u ≤ now)))

fires_by_lem :
    (from_str : Text → Option Schedule) (after : Schedule) (last now : ℕ)
    → IsSchedule after
    → (fires_by from_str (after last) now ≡ true) ↔ FiresIn after last now
fires_by_lem from_str after last now is = (to (after last) refl, from (after last) refl)
  where
    to : (o : Option ℕ) → after last ≡ o → fires_by from_str o now ≡ true → FiresIn after last now
    to none e h = cc
    to (some u) e h = (u, ((last, e), (is.ahead last u e, ground (arith, h))))

    from : (o : Option ℕ) → after last ≡ o → FiresIn after last now → fires_by from_str o now ≡ true
    from none e (u, ((t, h), (lo, hi))) = elim (dec_le last t) [
      | yes le ↦ ground (arith, is.over last t e le, h)
      | no gt ↦ ground (arith, is.first t last u h (omega arith) lo, e)
    ]
    from (some v) e (u, ((t, h), (lo, hi))) = elim (dec_le last t) [
      | yes le ↦ elim (dec_lt t v) [
        | yes lt ↦ ground (arith, is.first last t v e le lt, h)
        | no ge ↦ ground (arith, ge, is.ahead t u h)
      ]
      | no gt ↦ ground (arith, is.first t last u h (omega arith) lo, e)
    ]

module _ (from_str : Text → Option Schedule) where
  -- The VM runs commands by the schedule.
  abbrev pub RunsBy : FirecrackerVmm → Text → Schedule → Type 0
  RunsBy f vm_id after =
      (i : VmInstance) × ((expr : Text) × ((get vm_id f.instances ≡ some i)
          × ((i.vm_config.mode ≡ schedule)
              × ((i.vm_config.cron_schedule ≡ some expr)
                  × (parse_cron_schedule from_str expr ≡ some after)))))

  is_due_lem :
      (f : FirecrackerVmm) (vm_id : Text) (after : Schedule) (last now : ℕ)
      → IsSchedule after
      → RunsBy f vm_id after
      → (is_due from_str (get vm_id f.instances) last now ≡ true) ↔ FiresIn after last now
  unfolding is_due
  is_due_lem f vm_id after last now is (i, (expr, (m, (mode, (cron, parsed))))) =
      let e : is_due from_str (get vm_id f.instances) last now
          ≡ fires_by from_str (after last) now =
        ground (arith, m, ap (is_schedule from_str) mode, cron, parsed) in
      let iff = fires_by_lem from_str after last now is in
      (λ h. iff.0 (sym e ∙ h), λ w. e ∙ iff.1 w)

  -- The VM is in the list.
  abbrev pub Among : Text → List Text → Type 0
  Among vm_id [] = ⊥
  Among vm_id (v ∷ vs) = (vm_id ≡ v) ⊎ Among vm_id vs

  due_vms-Among :
      (f : FirecrackerVmm) (vms : Map Text FcVmEntry) (vm_id : Text) (e : FcVmEntry) (last now : ℕ)
      → get vm_id vms ≡ some e
      → is_due from_str (get vm_id f.instances) last now ≡ true
      → Among vm_id (due_vms from_str f vms last now)
  unfolding due_vms get
  due_vms-Among f [] vm_id e last now h due = cc
  due_vms-Among f ((v, x) ∷ vms) vm_id e last now h due = elim (Bool-cases (text_beq v vm_id)) [
    | inl same ↦
        let q : v ≡ vm_id = (text_eq.decides v vm_id).0 same in
        let d : is_due from_str (get v f.instances) last now ≡ true =
          ap (λ t. is_due from_str (get t f.instances) last now) q ∙ due in
        rw (d, due_vms) (inl (sym q))
    | inr other ↦
        let rest = due_vms-Among f vms vm_id e last now (ground (arith, other, h)) due in
        elim (Bool-cases (is_due from_str (get v f.instances) last now)) [
          | inl d ↦ rw (d, due_vms) (inr rest)
          | inr d ↦ rw (d, due_vms) rest
        ]
  ]

  Among-due_vms :
      (f : FirecrackerVmm) (vms : Map Text FcVmEntry) (vm_id : Text) (last now : ℕ)
      → Among vm_id (due_vms from_str f vms last now)
      → is_due from_str (get vm_id f.instances) last now ≡ true
  unfolding due_vms
  Among-due_vms f [] vm_id last now h = elim h [ ]
  Among-due_vms f ((v, x) ∷ vms) vm_id last now h =
      go (is_due from_str (get v f.instances) last now) refl
        (λ r. Among-due_vms f vms vm_id last now r) h
    where
      go :
          (b : Bool)
          → is_due from_str (get v f.instances) last now ≡ b
          → (Among vm_id (due_vms from_str f vms last now)
              → is_due from_str (get vm_id f.instances) last now ≡ true)
          → Among vm_id
              (if b then v ∷ due_vms from_str f vms last now else due_vms from_str f vms last now)
          → is_due from_str (get vm_id f.instances) last now ≡ true
      go true e rest (inl q) = ap (λ t. is_due from_str (get t f.instances) last now) q ∙ e
      go true e rest (inr r) = rest r
      go false e rest r = rest r

  -- A tick collects a VM of the table with a schedule for a run exactly if the schedule fires after the
  -- last tick and by the time of this one, where the cron library gives the first time ahead.
  pub fire_due_schedules_lem :
      (f : FirecrackerVmm) (vm_id : Text) (e : FcVmEntry) (after : Schedule) (last now : ℕ)
      → IsSchedule after
      → get vm_id f.vms ≡ some e
      → RunsBy f vm_id after
      → Among vm_id (fire_due_schedules from_str f last now) ↔ FiresIn after last now
  unfolding fire_due_schedules
  fire_due_schedules_lem f vm_id e after last now is h runs =
      let iff = is_due_lem f vm_id after last now is runs in
      (
        λ a. iff.0 (Among-due_vms f f.vms vm_id last now a),
        λ w. due_vms-Among f f.vms vm_id e last now h (iff.1 w),
      )

  -- The VM stays in the table, with its schedule.
  abbrev pub Stays : Text → Schedule → List (FirecrackerVmm × ℕ) → Type 0
  Stays vm_id after [] = Unit {0}
  Stays vm_id after ((f, now) ∷ ticks) =
      (((e : FcVmEntry) × (get vm_id f.vms ≡ some e)) × RunsBy f vm_id after)
      × Stays vm_id after ticks

  -- Some tick comes at the time or after it.
  abbrev pub Reaches : ℕ → List (FirecrackerVmm × ℕ) → Type 0
  Reaches u [] = ⊥
  Reaches u ((f, now) ∷ ticks) = (u ≤ now) ⊎ Reaches u ticks

  -- Each tick has collected the VM exactly if the schedule fires after the tick before, or the start,
  -- and by its own time.
  abbrev pub Serves : Text → Schedule → ℕ → List (FirecrackerVmm × ℕ) → List (List Text) → Type 0
  Serves vm_id after last [] [] = Unit {0}
  Serves vm_id after last ((f, now) ∷ ticks) (due ∷ later) =
      (Among vm_id due ↔ FiresIn after last now) × Serves vm_id after now ticks later
  Serves vm_id after last ticks dues = ⊥

  -- The first tick that comes at the time or later has collected the VM.
  abbrev pub FirstCollects : Text → ℕ → List (FirecrackerVmm × ℕ) → List (List Text) → Type 0
  FirstCollects vm_id u ((f, now) ∷ ticks) (due ∷ later) =
      ((u ≤ now) × Among vm_id due) ⊎ ((now < u) × FirstCollects vm_id u ticks later)
  FirstCollects vm_id u ticks dues = ⊥

  run_ticks-Serves :
      (vm_id : Text) (after : Schedule) (last : ℕ) (ticks : List (FirecrackerVmm × ℕ))
      → IsSchedule after
      → Stays vm_id after ticks
      → Serves vm_id after last ticks (run_ticks from_str last ticks)
  unfolding run_ticks
  run_ticks-Serves vm_id after last [] is stays = tt
  run_ticks-Serves vm_id after last ((f, now) ∷ ticks) is stays = (
    fire_due_schedules_lem f vm_id stays.0.0.0 after last now is stays.0.0.1 stays.0.1,
    run_ticks-Serves vm_id after now ticks is stays.1,
  )

  run_ticks-FirstCollects :
      (vm_id : Text) (after : Schedule) (last u : ℕ) (ticks : List (FirecrackerVmm × ℕ))
      → IsSchedule after
      → Stays vm_id after ticks
      → Fires after u
      → last < u
      → Reaches u ticks
      → FirstCollects vm_id u ticks (run_ticks from_str last ticks)
  unfolding run_ticks
  run_ticks-FirstCollects vm_id after last u [] is stays fires lt reach = elim reach [ ]
  run_ticks-FirstCollects vm_id after last u ((f, now) ∷ ticks) is stays fires lt reach =
      elim (dec_le u now) [
        | yes le ↦ inl (
          le,
          (fire_due_schedules_lem f vm_id stays.0.0.0 after last now is stays.0.0.1 stays.0.1).1
              (u, (fires, (lt, le))),
        )
        | no gt ↦ inr (
          omega (arith, gt),
          run_ticks-FirstCollects vm_id after now u ticks is stays.1 fires (omega arith)
              (later gt reach),
        )
      ]
    where
      later : ¬ (u ≤ now) → (u ≤ now) ⊎ Reaches u ticks → Reaches u ticks
      later gt (inl le) = absurd (gt le)
      later gt (inr r) = r

  -- While the VM stays in the table with its schedule, and where the cron library gives the first time
  -- ahead: each tick collects the VM for a run exactly if the schedule fires after the tick before, or
  -- the start of the loop for the first tick, and by its own time, at whatever times the ticks come.
  -- For a fire after the start, the first tick that comes then or later has collected the VM.
  pub run_ticks-fire :
      (vm_id : Text) (after : Schedule) (start u : ℕ) (ticks : List (FirecrackerVmm × ℕ))
      → IsSchedule after
      → Stays vm_id after ticks
      → Fires after u
      → start < u
      → Reaches u ticks
      → Serves vm_id after start ticks (run_ticks from_str start ticks)
        × FirstCollects vm_id u ticks (run_ticks from_str start ticks)
  run_ticks-fire vm_id after start u ticks is stays fires lt reach = (
    run_ticks-Serves vm_id after start ticks is stays,
    run_ticks-FirstCollects vm_id after start u ticks is stays fires lt reach,
  )
