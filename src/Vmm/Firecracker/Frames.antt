-- ===== src/Vmm/Firecracker/Frames.antt =====
-- An operation on one VM touches no other VM.
use tikovm.Prelude.{
  ℕ, true, Option, none, some, Text, text_beq, text_beq_iff, Map, get, insert, get-insert, text_eq,
  ◌≡◌, ◌≢◌, refl, ◌∙◌, ok, err, arith, Option-cases, Bool-cases, inl, inr,
}
use tikovm.Error
use tikovm.Vmm.VmState.{VmState, can_transition_to, started, created, paused, suspended}
use tikovm.Vmm.Instance.{VmInstance, transition, new_snapshot}
use tikovm.Vmm.Firecracker.{
  FirecrackerVmm, FcVmEntry, end_start, end_pause, end_resume, end_snapshot, end_restore, set_state,
  arm_guest_detector, roll_back, put_instance, put_entry, Outcome, and_then, woken, take_fc,
  take_snapshot, stop_process, park,
}
use tikovm.Vmm.Firecracker.Steps.{
  Op, Reply, done, failed, start, pause, resume, snapshot, restore, end_op,
}

-- The tables agree at a VM.
abbrev pub SameAt : Text → FirecrackerVmm → FirecrackerVmm → Type 0
SameAt v f f' = (get v f'.vms ≡ get v f.vms) × (get v f'.instances ≡ get v f.instances)

pub insert_other {ℓ} :
    {V : Type ℓ} {v vm : Text} (x : V) (m : Map Text V) → vm ≢ v → get v (insert vm x m) ≡ get v m
insert_other {v = v} {vm = vm} x m d = elim (Bool-cases (text_beq vm v)) [
  | inl same ↦ absurd (d ((text_beq_iff vm v).0 same))
  | inr other ↦ ground (arith, other, get-insert vm v x m)
]

pub insert_same {ℓ} :
    {V : Type ℓ} (vm : Text) (x : V) (m : Map Text V) → get vm (insert vm x m) ≡ some x
insert_same vm x m = ground (arith, get-insert vm vm x m, (text_beq_iff vm vm).1 refl)

pub arm-SameAt : (f : FirecrackerVmm) (vm v : Text) → SameAt v f (arm_guest_detector f vm)
unfolding arm_guest_detector
arm-SameAt f vm v = ground arith

-- A transition that the table has takes place.
pub set_state_lem :
    (f : FirecrackerVmm) (vm : Text) (next : VmState) (i : VmInstance)
    → get vm f.instances ≡ some i
    → can_transition_to i.state next ≡ true
    → set_state f vm next ≡ (put_instance f vm (record i { state = next }), ok tt)
unfolding set_state transition
set_state_lem f vm next i h t = rw (h, set_state, t, transition) refl

pub set_state-SameAt :
    (f : FirecrackerVmm) (vm v : Text) (next : VmState)
    → vm ≢ v
    → SameAt v f (set_state f vm next).0
unfolding set_state transition
set_state-SameAt f vm v next d = elim (Option-cases (get vm f.instances)) [
  | inl e ↦ rw (e, set_state) (refl, refl)
  | inr (i, e) ↦ elim (Bool-cases (can_transition_to i.state next)) [
    | inl t ↦
        rw (e, set_state, t, transition)
          (refl, insert_other (record i { state = next }) f.instances d)
    | inr t ↦ rw (e, set_state, t, transition) (refl, refl)
  ]
]

and_then-SameAt :
    (f : FirecrackerVmm) (vm v : Text) (next : VmState) (k : FirecrackerVmm → Outcome)
    → vm ≢ v
    → ((g : FirecrackerVmm) → SameAt v g (k g).0)
    → SameAt v f (and_then (set_state f vm next) k).0
and_then-SameAt f vm v next k d same = go (set_state f vm next) (set_state-SameAt f vm v next d)
  where
    go : (o : Outcome) → SameAt v f o.0 → SameAt v f (and_then o k).0
    go (g, ok u) p = ((same g).0 ∙ p.0, (same g).1 ∙ p.1)
    go (g, err e) p = p

woken-SameAt : (f : FirecrackerVmm) (vm v : Text) (now : ℕ) → SameAt v f (woken f vm now).0
woken-SameAt f vm v now = arm-SameAt (record f { wake_times = insert vm now f.wake_times }) vm v

roll_back-SameAt :
    (f : FirecrackerVmm) (vm v : Text) (prior : VmState) (e : Error.Error)
    → vm ≢ v
    → SameAt v f (roll_back f vm prior e).0
unfolding roll_back
roll_back-SameAt f vm v prior e d =
    and_then-SameAt f vm v prior (λ g. (g, err e)) d (λ g. (refl, refl))

pub stop_process-SameAt :
    (f : FirecrackerVmm) (vm v : Text) → vm ≢ v → SameAt v f (stop_process f vm)
unfolding stop_process
stop_process-SameAt f vm v d = go (get vm f.vms)
  where
    go : (o : Option FcVmEntry) → SameAt v f (take_fc o vm f)
    go none = (refl, refl)
    go (some e) = (insert_other (record e { fc = none }) f.vms d, refl)

pub park-SameAt :
    (f : FirecrackerVmm) (vm v : Text) (now : ℕ) → vm ≢ v → SameAt v f (park f vm now).0
unfolding park
park-SameAt f vm v now d =
    let g = take_snapshot (get vm f.instances) vm now f in
    let b = snap (get vm f.instances) in
    let c = set_state-SameAt g vm v suspended d in (c.0 ∙ b.0, c.1 ∙ b.1)
  where
    snap : (o : Option VmInstance) → SameAt v f (take_snapshot o vm now f)
    snap none = (refl, refl)
    snap (some i) =
        (refl, insert_other (record i { snapshot = some (new_snapshot i now) }) f.instances d)

snapshot-SameAt :
    (f : FirecrackerVmm) (vm v : Text) (now : ℕ)
    → vm ≢ v
    → SameAt v f (end_snapshot f vm (ok tt) now).0
unfolding end_snapshot
snapshot-SameAt f vm v now d =
    let a = stop_process-SameAt f vm v d in
    let b = park-SameAt (stop_process f vm) vm v now d in (b.0 ∙ a.0, b.1 ∙ a.1)

restore-SameAt :
    (f : FirecrackerVmm) (vm v : Text) (pid now : ℕ)
    → vm ≢ v
    → SameAt v f (end_restore f vm (ok pid) now).0
unfolding end_restore
restore-SameAt f vm v pid now d = elim (Option-cases (get vm f.vms)) [
  | inl n ↦ rw (n, end_restore) (refl, refl)
  | inr (e, n) ↦
      let e' = record e { fc = some pid } in
      let s =
        and_then-SameAt (put_entry f vm e') vm v started (λ g. woken g vm now) d
          (λ g. woken-SameAt g vm v now) in
      rw (n, end_restore) (s.0 ∙ insert_other e' f.vms d, s.1)
]

pub end_op-SameAt :
    (f : FirecrackerVmm) (vm v : Text) (op : Op) (r : Reply)
    → vm ≢ v
    → SameAt v f (end_op f vm op r).0
unfolding end_op end_start end_pause end_resume end_snapshot end_restore
end_op-SameAt f vm v start (done pid now) d =
    and_then-SameAt f vm v started (λ g. woken g vm now) d (λ g. woken-SameAt g vm v now)
end_op-SameAt f vm v pause (done pid now) d = set_state-SameAt f vm v paused d
end_op-SameAt f vm v resume (done pid now) d = set_state-SameAt f vm v started d
end_op-SameAt f vm v snapshot (done pid now) d = snapshot-SameAt f vm v now d
end_op-SameAt f vm v restore (done pid now) d = restore-SameAt f vm v pid now d
end_op-SameAt f vm v start (failed e now) d = roll_back-SameAt f vm v created e d
end_op-SameAt f vm v pause (failed e now) d = roll_back-SameAt f vm v started e d
end_op-SameAt f vm v resume (failed e now) d = roll_back-SameAt f vm v paused e d
end_op-SameAt f vm v snapshot (failed e now) d = roll_back-SameAt f vm v started e d
end_op-SameAt f vm v restore (failed e now) d = roll_back-SameAt f vm v suspended e d
