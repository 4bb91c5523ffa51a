-- ===== src/Vmm/Firecracker/Schedule/Launches.antt =====
-- The runs that a tick of hostd/src/vmm/firecracker/schedule.rs starts.
use tikovm.Prelude.{
  true, sym, false, subst, ◌↔◌, ap, ◌∙◌, nat_eq, text_eq, List, [], ◌∷◌, Text, ◌≡◌, ◌⊎◌, inl, inr,
  arith,
}
use tikovm.Vmm.Firecracker.Schedule.{started_with, spawn_due, ScheduleRunLocks, spawn_scheduled_run}
use tikovm.Vmm.Firecracker.Schedule.Locks.{
  running, IsLocks, Skipped, Begun, spawn_scheduled_run_lem,
}
use tikovm.Vmm.Firecracker.Schedule.Overlaps.{
  Happening, fires, happen, history, no_locks, happen-IsLocks, history-IsLocks, no_locks-IsLocks,
}

abbrev pub OneOf : Text → List Text → Type 0
OneOf vm_id [] = ⊥
OneOf vm_id (v ∷ vs) = (vm_id ≡ v) ⊎ OneOf vm_id vs

-- The VM is in the list, and no run of it is in progress.
abbrev Starts : ScheduleRunLocks → Text → List Text → Type 0
Starts l vm_id due = OneOf vm_id due × (running l vm_id ≡ false)

abbrev Decided : ScheduleRunLocks → Text → List Text → Type 0
Decided l vm_id due = OneOf vm_id (spawn_due l due).1 ↔ Starts l vm_id due

Skipped-Decided :
    (l : ScheduleRunLocks) (v vm_id : Text) (due : List Text)
    → Skipped l v (spawn_scheduled_run l v)
    → Decided l vm_id due
    → Decided l vm_id (v ∷ due)
unfolding spawn_due
Skipped-Decided l v vm_id due (busy, r) ih =
    subst (λ x. OneOf vm_id (started_with x.1 v (spawn_due x.0 due).1) ↔ Starts l vm_id (v ∷ due))
      (sym r)
      (
        λ o. (inr (ih.0 o).0, (ih.0 o).1),
        λ s. elim s.0 [
          | inl e ↦ absurd (ground (arith, busy, s.1, ap (running l) e))
          | inr o ↦ ih.1 (o, s.1)
        ],
      )

Begun-Decided :
    (l : ScheduleRunLocks) (v vm_id : Text) (due : List Text)
    → Begun l v (spawn_scheduled_run l v)
    → Decided (spawn_scheduled_run l v).0 vm_id due
    → Decided l vm_id (v ∷ due)
unfolding spawn_due
Begun-Decided l v vm_id due (free, ((id, (got, here)), (busy, others))) ih =
    let now = (spawn_scheduled_run l v).0 in
    subst (λ x. OneOf vm_id (started_with x v (spawn_due now due).1) ↔ Starts l vm_id (v ∷ due))
      (sym got)
      (
        λ o. elim o [
          | inl e ↦ (inl e, ap (running l) e ∙ free)
          | inr p ↦ elim (others vm_id) [
            | inl e ↦ (inl e, ap (running l) e ∙ free)
            | inr q ↦ (inr (ih.0 p).0, sym q ∙ (ih.0 p).1)
          ]
        ],
        λ s. elim s.0 [
          | inl e ↦ inl e
          | inr p ↦ elim (others vm_id) [ inl e ↦ inl e | inr q ↦ inr (ih.1 (p, q ∙ s.1)) ]
        ],
      )

spawn_due-Decided :
    (l : ScheduleRunLocks) (vm_id : Text) (due : List Text) → IsLocks l → Decided l vm_id due
spawn_due-Decided l vm_id [] is = unfold spawn_due in (λ o. elim o [ ], λ s. elim s.0 [ ])
spawn_due-Decided l vm_id (v ∷ due) is =
    let is' : IsLocks (spawn_scheduled_run l v).0 =
      unfold happen in happen-IsLocks l (fires v) is in
    elim (spawn_scheduled_run_lem l v is) [
      | inl k ↦ Skipped-Decided l v vm_id due k (spawn_due-Decided l vm_id due is)
      | inr b ↦
          Begun-Decided l v vm_id due b
            (spawn_due-Decided (spawn_scheduled_run l v).0 vm_id due is')
    ]

-- After the tick the VM has a run if it had one or is in the list.
abbrev Runs : ScheduleRunLocks → Text → List Text → Type 0
Runs l vm_id due =
    (running (spawn_due l due).0 vm_id ≡ true) ↔ ((running l vm_id ≡ true) ⊎ OneOf vm_id due)

Skipped-Runs :
    (l : ScheduleRunLocks) (v vm_id : Text) (due : List Text)
    → Skipped l v (spawn_scheduled_run l v)
    → Runs l vm_id due
    → Runs l vm_id (v ∷ due)
unfolding spawn_due
Skipped-Runs l v vm_id due (busy, r) ih =
    subst
      (λ x.
        (running (spawn_due x.0 due).0 vm_id ≡ true)
        ↔ ((running l vm_id ≡ true) ⊎ OneOf vm_id (v ∷ due)))
      (sym r)
      (
        λ h. elim (ih.0 h) [ inl a ↦ inl a | inr o ↦ inr (inr o) ],
        λ s. elim s [
          | inl a ↦ ih.1 (inl a)
          | inr o ↦ elim o [ inl e ↦ ih.1 (inl (ap (running l) e ∙ busy)) | inr p ↦ ih.1 (inr p) ]
        ],
      )

Begun-Runs :
    (l : ScheduleRunLocks) (v vm_id : Text) (due : List Text)
    → Begun l v (spawn_scheduled_run l v)
    → Runs (spawn_scheduled_run l v).0 vm_id due
    → Runs l vm_id (v ∷ due)
unfolding spawn_due
Begun-Runs l v vm_id due (free, (got, (busy, others))) ih =
    let now = (spawn_scheduled_run l v).0 in
    (
      λ h. elim (ih.0 h) [
        | inr o ↦ inr (inr o)
        | inl a ↦ elim (others vm_id) [ inl e ↦ inr (inl e) | inr q ↦ inl (sym q ∙ a) ]
      ],
      λ s. elim s [
        | inl a ↦ elim (others vm_id) [
          | inl e ↦ ih.1 (inl (ap (running now) e ∙ busy))
          | inr q ↦ ih.1 (inl (q ∙ a))
        ]
        | inr o ↦ elim o [ inl e ↦ ih.1 (inl (ap (running now) e ∙ busy)) | inr p ↦ ih.1 (inr p) ]
      ],
    )

spawn_due-Runs :
    (l : ScheduleRunLocks) (vm_id : Text) (due : List Text) → IsLocks l → Runs l vm_id due
spawn_due-Runs l vm_id [] is =
    unfold spawn_due in (λ h. inl h, λ s. elim s [ inl a ↦ a | inr o ↦ elim o [ ] ])
spawn_due-Runs l vm_id (v ∷ due) is =
    let is' : IsLocks (spawn_scheduled_run l v).0 =
      unfold happen in happen-IsLocks l (fires v) is in
    elim (spawn_scheduled_run_lem l v is) [
      | inl k ↦ Skipped-Runs l v vm_id due k (spawn_due-Runs l vm_id due is)
      | inr b ↦
          Begun-Runs l v vm_id due b (spawn_due-Runs (spawn_scheduled_run l v).0 vm_id due is')
    ]

-- Whatever has fired, ended and been destroyed since the daemon started, a tick starts a run of a VM
-- exactly if it has collected the VM and no run of it is in progress under the VM's lock. After the
-- tick a run of a VM is in progress exactly if one was or the tick has collected the VM.
pub spawn_due_lem :
    (hs : List Happening) (vm_id : Text) (due : List Text)
    → (OneOf vm_id (spawn_due (history no_locks hs) due).1
        ↔ (OneOf vm_id due × (running (history no_locks hs) vm_id ≡ false)))
      × ((running (spawn_due (history no_locks hs) due).0 vm_id ≡ true)
          ↔ ((running (history no_locks hs) vm_id ≡ true) ⊎ OneOf vm_id due))
spawn_due_lem hs vm_id due =
    let is = history-IsLocks no_locks hs no_locks-IsLocks in
    (
      spawn_due-Decided (history no_locks hs) vm_id due is,
      spawn_due-Runs (history no_locks hs) vm_id due is,
    )
