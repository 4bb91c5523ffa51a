-- ===== src/Vmm/Firecracker/Gone.antt =====
-- An operation that ends never brings an entry back.
use tikovm.Prelude.{
  ℕ, Option, none, some, Text, get, insert, text_eq, ◌≡◌, refl, ap, ◌∙◌, ok, err, Option-cases,
  Bool-cases, inl, inr,
}
use tikovm.Error
use tikovm.Vmm.VmState.{VmState, can_transition_to, suspended, started, created, paused}
use tikovm.Vmm.Instance.{VmInstance, transition}
use tikovm.Vmm.Firecracker.{
  FirecrackerVmm, end_start, end_pause, end_resume, end_snapshot, end_restore, set_state, roll_back,
  Outcome, and_then, woken, take_snapshot, stop_process, park,
}
use tikovm.Vmm.Firecracker.Steps.{
  Op, Reply, done, failed, start, pause, resume, snapshot, restore, end_op,
}
use tikovm.Vmm.Firecracker.Frames.{arm-SameAt}

set_state-vms : (f : FirecrackerVmm) (vm : Text) (st : VmState) → (set_state f vm st).0.vms ≡ f.vms
unfolding set_state transition
set_state-vms f vm st = elim (Option-cases (get vm f.instances)) [
  | inl e ↦ rw (e, set_state) refl
  | inr (i, e) ↦ elim (Bool-cases (can_transition_to i.state st)) [
    | inl t ↦ rw (e, set_state, t, transition) refl
    | inr t ↦ rw (e, set_state, t, transition) refl
  ]
]

abbrev pub Gone : FirecrackerVmm → Text → Type 0
Gone f vm = get vm f.vms ≡ none

set_state-Gone :
    (f : FirecrackerVmm) (vm : Text) (st : VmState) → Gone f vm → Gone (set_state f vm st).0 vm
set_state-Gone f vm st g = ap (get vm) (set_state-vms f vm st) ∙ g

and_then-Gone :
    (o : Outcome) (vm : Text) (k : FirecrackerVmm → Outcome)
    → ((f : FirecrackerVmm) → Gone f vm → Gone (k f).0 vm)
    → Gone o.0 vm
    → Gone (and_then o k).0 vm
and_then-Gone (f, ok u) vm k keep g = keep f g
and_then-Gone (f, err e) vm k keep g = g

woken-Gone : (f : FirecrackerVmm) (vm : Text) (now : ℕ) → Gone f vm → Gone (woken f vm now).0 vm
woken-Gone f vm now g =
    (arm-SameAt (record f { wake_times = insert vm now f.wake_times }) vm vm).0 ∙ g

roll_back-Gone :
    (f : FirecrackerVmm) (vm : Text) (st : VmState) (e : Error.Error)
    → Gone f vm
    → Gone (roll_back f vm st e).0 vm
unfolding roll_back
roll_back-Gone f vm st e g =
    and_then-Gone (set_state f vm st) vm (λ f'. (f', err e)) (λ f' p. p) (set_state-Gone f vm st g)

pub park-Gone : (f : FirecrackerVmm) (vm : Text) (now : ℕ) → Gone f vm → Gone (park f vm now).0 vm
unfolding park
park-Gone f vm now g =
    set_state-Gone (take_snapshot (get vm f.instances) vm now f) vm suspended
      (snap (get vm f.instances))
  where
    snap : (o : Option VmInstance) → Gone (take_snapshot o vm now f) vm
    snap none = g
    snap (some i) = g

pub stop_process-Gone : (f : FirecrackerVmm) (vm : Text) → Gone f vm → Gone (stop_process f vm) vm
unfolding stop_process
stop_process-Gone f vm g = rw g g

snapshot-Gone :
    (f : FirecrackerVmm) (vm : Text) (now : ℕ)
    → Gone f vm
    → Gone (end_snapshot f vm (ok tt) now).0 vm
unfolding end_snapshot
snapshot-Gone f vm now g = park-Gone (stop_process f vm) vm now (stop_process-Gone f vm g)

woken_end-Gone :
    (f : FirecrackerVmm) (vm : Text) (now : ℕ)
    → Gone f vm
    → Gone (and_then (set_state f vm started) (λ f'. woken f' vm now)).0 vm
woken_end-Gone f vm now g =
    and_then-Gone (set_state f vm started) vm (λ f'. woken f' vm now)
      (λ f' p. woken-Gone f' vm now p) (set_state-Gone f vm started g)

restore-Gone :
    (f : FirecrackerVmm) (vm : Text) (pid now : ℕ)
    → Gone f vm
    → Gone (end_restore f vm (ok pid) now).0 vm
unfolding end_restore
restore-Gone f vm pid now g = rw (g, end_restore) g

-- An operation that ends never brings an entry back.
pub end_op-Gone :
    (f : FirecrackerVmm) (vm : Text) (op : Op) (r : Reply)
    → Gone f vm
    → Gone (end_op f vm op r).0 vm
unfolding end_op end_start end_pause end_resume end_snapshot end_restore
end_op-Gone f vm start (done pid now) g = woken_end-Gone f vm now g
end_op-Gone f vm pause (done pid now) g = set_state-Gone f vm paused g
end_op-Gone f vm resume (done pid now) g = set_state-Gone f vm started g
end_op-Gone f vm snapshot (done pid now) g = snapshot-Gone f vm now g
end_op-Gone f vm restore (done pid now) g = restore-Gone f vm pid now g
end_op-Gone f vm start (failed e now) g = roll_back-Gone f vm created e g
end_op-Gone f vm pause (failed e now) g = roll_back-Gone f vm started e g
end_op-Gone f vm resume (failed e now) g = roll_back-Gone f vm paused e g
end_op-Gone f vm snapshot (failed e now) g = roll_back-Gone f vm started e g
end_op-Gone f vm restore (failed e now) g = roll_back-Gone f vm suspended e g
