-- ===== src/Vmm/Firecracker/Landing.antt =====
-- What the two halves of an operation do to the VM that it is about.
use tikovm.Prelude.{
  ℕ, true, false, none, some, Text, get, insert, is_some, text_eq, ◌≡◌, refl, sym, ap, ◌∙◌, err,
  arith,
}
use tikovm.Error
use tikovm.Vmm.VmState.{
  VmState, can_transition_to, starting, pausing, resuming, suspending, restoring, suspended,
  started, paused,
}
use tikovm.Vmm.Instance.{VmInstance, new_snapshot}
use tikovm.Vmm.Firecracker.{
  FirecrackerVmm, FcVmEntry, end_start, end_pause, end_resume, end_snapshot, end_restore, set_state,
  roll_back, put_instance, put_entry, and_then, woken, stop_process, park,
}
use tikovm.Vmm.Firecracker.Steps.{
  Op, Reply, done, failed, start, pause, resume, snapshot, restore, state_of, lands_in, returns,
  end_op, needs_process,
}
use tikovm.Vmm.Firecracker.Frames.{insert_same, arm-SameAt, set_state_lem}

-- The VM has an entry `e` and an instance `i`.
abbrev pub Has : FirecrackerVmm → Text → FcVmEntry → VmInstance → Type 0
Has f vm e i = (get vm f.vms ≡ some e) × (get vm f.instances ≡ some i)

pub roll_back_lem :
    (f : FirecrackerVmm) (vm : Text) (prior : VmState) (e : Error.Error) (i : VmInstance)
    → get vm f.instances ≡ some i
    → can_transition_to i.state prior ≡ true
    → roll_back f vm prior e ≡ (put_instance f vm (record i { state = prior }), err e)
unfolding roll_back
roll_back_lem f vm prior e i h t = rw (set_state_lem f vm prior i h t) refl

-- What an operation that ends leaves of the VM: its state, its process and its snapshot.
abbrev pub Landed : FirecrackerVmm × Error.Result (Unit {0}) → Text → Op → Reply → Type 0
Landed (f, res) vm op r =
    (res ≡ returns r)
    × ((e : FcVmEntry) × ((i : VmInstance) × (Has f vm e i
            × ((i.state ≡ lands_in op r)
                × ((is_some e.fc ≡ needs_process i.state)
                    × (needs_process i.state ≡ false → is_some i.snapshot ≡ true))))))

-- The premises of an operation that ends.
abbrev pub Waits : FirecrackerVmm → Text → Op → FcVmEntry → VmInstance → Type 0
Waits f vm op e i =
    Has f vm e i
    × ((i.state ≡ state_of op)
        × ((is_some e.fc ≡ needs_process i.state)
            × (needs_process i.state ≡ false → is_some i.snapshot ≡ true)))

allowed :
    (i : VmInstance) (st next : VmState)
    → i.state ≡ st
    → can_transition_to st next ≡ true
    → can_transition_to i.state next ≡ true
allowed i st next p t = rw p t

-- The process and the snapshot are those of the new state too.
abbrev pub Fits : FcVmEntry → VmInstance → VmState → Type 0
Fits e i st =
    (is_some e.fc ≡ needs_process st) × (needs_process st ≡ false → is_some i.snapshot ≡ true)

fits :
    (e : FcVmEntry) (i : VmInstance) (st next : VmState)
    → i.state ≡ st
    → is_some e.fc ≡ needs_process i.state
    → (needs_process i.state ≡ false → is_some i.snapshot ≡ true)
    → needs_process next ≡ needs_process st
    → Fits e i next
fits e i st next s p q n = (p ∙ ap needs_process s ∙ sym n, λ z. q (ap needs_process s ∙ sym n ∙ z))

failed-Landed :
    (f : FirecrackerVmm) (vm : Text) (op : Op) (e : FcVmEntry) (i : VmInstance) (x : Error.Error)
    (now : ℕ)
    → Waits f vm op e i
    → can_transition_to (state_of op) (lands_in op (failed x now)) ≡ true
    → needs_process (lands_in op (failed x now)) ≡ needs_process (state_of op)
    → Landed (roll_back f vm (lands_in op (failed x now)) x) vm op (failed x now)
failed-Landed f vm op e i x now w t n =
    let next = lands_in op (failed x now) in
    rw (roll_back_lem f vm next x i w.0.1 (allowed i (state_of op) next w.1.0 t)) (
      refl,
      (
        e,
        (
          record i { state = next },
          (
            (w.0.0, insert_same vm (record i { state = next }) f.instances),
            (refl, fits e i (state_of op) next w.1.0 w.1.1.0 w.1.1.1 n),
          ),
        ),
      ),
    )

-- The end of an operation that only moves the instance.
moved-Landed :
    (f : FirecrackerVmm) (vm : Text) (op : Op) (e : FcVmEntry) (i : VmInstance) (pid now : ℕ)
    → Has f vm e i
    → can_transition_to i.state (lands_in op (done pid now)) ≡ true
    → Fits e i (lands_in op (done pid now))
    → Landed (set_state f vm (lands_in op (done pid now))) vm op (done pid now)
moved-Landed f vm op e i pid now h t n =
    let next = lands_in op (done pid now) in
    rw (set_state_lem f vm next i h.1 t) (
      refl,
      (
        e,
        (
          record i { state = next },
          ((h.0, insert_same vm (record i { state = next }) f.instances), (refl, n)),
        ),
      ),
    )

-- The same, and the VM has woken.
woken-Landed :
    (f : FirecrackerVmm) (vm : Text) (op : Op) (e : FcVmEntry) (i : VmInstance) (pid now : ℕ)
    → Has f vm e i
    → can_transition_to i.state (lands_in op (done pid now)) ≡ true
    → Fits e i (lands_in op (done pid now))
    → Landed
        (and_then (set_state f vm (lands_in op (done pid now))) (λ f'. woken f' vm now))
        vm
        op
        (done pid now)
woken-Landed f vm op e i pid now h t n =
    let next = lands_in op (done pid now) in
    let i' = record i { state = next } in
    let g = record (put_instance f vm i') { wake_times = insert vm now f.wake_times } in
    let same = arm-SameAt g vm vm in
    rw (set_state_lem f vm next i h.1 t)
      (refl, (e, (i', ((same.0 ∙ h.0, same.1 ∙ insert_same vm i' f.instances), (refl, n)))))

end_start-Landed :
    (f : FirecrackerVmm) (vm : Text) (r : Reply) (e : FcVmEntry) (i : VmInstance)
    → Waits f vm start e i
    → Landed (end_op f vm start r) vm start r
unfolding end_op end_start can_transition_to
end_start-Landed f vm (failed x now) e i w = failed-Landed f vm start e i x now w refl refl
end_start-Landed f vm (done pid now) e i w =
    woken-Landed f vm start e i pid now w.0 (allowed i starting started w.1.0 refl)
      (fits e i starting started w.1.0 w.1.1.0 w.1.1.1 refl)

end_pause-Landed :
    (f : FirecrackerVmm) (vm : Text) (r : Reply) (e : FcVmEntry) (i : VmInstance)
    → Waits f vm pause e i
    → Landed (end_op f vm pause r) vm pause r
unfolding end_op end_pause can_transition_to
end_pause-Landed f vm (failed x now) e i w = failed-Landed f vm pause e i x now w refl refl
end_pause-Landed f vm (done pid now) e i w =
    moved-Landed f vm pause e i pid now w.0 (allowed i pausing paused w.1.0 refl)
      (fits e i pausing paused w.1.0 w.1.1.0 w.1.1.1 refl)

end_resume-Landed :
    (f : FirecrackerVmm) (vm : Text) (r : Reply) (e : FcVmEntry) (i : VmInstance)
    → Waits f vm resume e i
    → Landed (end_op f vm resume r) vm resume r
unfolding end_op end_resume can_transition_to
end_resume-Landed f vm (failed x now) e i w = failed-Landed f vm resume e i x now w refl refl
end_resume-Landed f vm (done pid now) e i w =
    moved-Landed f vm resume e i pid now w.0 (allowed i resuming started w.1.0 refl)
      (fits e i resuming started w.1.0 w.1.1.0 w.1.1.1 refl)

-- A snapshot whose process is gone.
pub park-Landed :
    (f : FirecrackerVmm) (vm : Text) (e : FcVmEntry) (i : VmInstance) (pid now : ℕ)
    → Has f vm e i
    → is_some e.fc ≡ false
    → i.state ≡ suspending
    → Landed (park f vm now) vm snapshot (done pid now)
unfolding park can_transition_to
park-Landed f vm e i pid now has gone st =
    let i' = record i { snapshot = some (new_snapshot i now) } in
    rw has.1 (
      moved-Landed (put_instance f vm i') vm snapshot e i' pid now
        (has.0, insert_same vm i' f.instances) (allowed i suspending suspended st refl)
        (gone, λ z. refl))

end_snapshot-Landed :
    (f : FirecrackerVmm) (vm : Text) (r : Reply) (e : FcVmEntry) (i : VmInstance)
    → Waits f vm snapshot e i
    → Landed (end_op f vm snapshot r) vm snapshot r
unfolding end_op end_snapshot can_transition_to stop_process
end_snapshot-Landed f vm (failed x now) e i w = failed-Landed f vm snapshot e i x now w refl refl
end_snapshot-Landed f vm (done pid now) e i w =
    let e' = record e { fc = none } in
    rw w.0.0
      (park-Landed (put_entry f vm e') vm e' i pid now (insert_same vm e' f.vms, w.0.1) refl w.1.0)

end_restore-Landed :
    (f : FirecrackerVmm) (vm : Text) (r : Reply) (e : FcVmEntry) (i : VmInstance)
    → Waits f vm restore e i
    → Landed (end_op f vm restore r) vm restore r
unfolding end_op end_restore can_transition_to
end_restore-Landed f vm (failed x now) e i w = failed-Landed f vm restore e i x now w refl refl
end_restore-Landed f vm (done pid now) e i w =
    let e' = record e { fc = some pid } in
    rw (w.0.0, end_op, end_restore)
      (woken-Landed (put_entry f vm e') vm restore e' i pid now (insert_same vm e' f.vms, w.0.1)
        (allowed i restoring started w.1.0 refl) (refl, λ z. ground arith))

-- An operation that has begun and ends on a VM which is still there, with the process and the snapshot
-- that its state asks for, and with nothing between the kill of its process and its end where it is a
-- snapshot, returns what its calls did, never a fault of the state machine; the instance is then in
-- the state of that outcome, the VM has a Firecracker process exactly if that state needs one, and a
-- state without one has a snapshot.
pub end_op-Landed :
    (f : FirecrackerVmm) (vm : Text) (op : Op) (r : Reply) (e : FcVmEntry) (i : VmInstance)
    → Waits f vm op e i
    → Landed (end_op f vm op r) vm op r
end_op-Landed f vm start r e i w = end_start-Landed f vm r e i w
end_op-Landed f vm pause r e i w = end_pause-Landed f vm r e i w
end_op-Landed f vm resume r e i w = end_resume-Landed f vm r e i w
end_op-Landed f vm snapshot r e i w = end_snapshot-Landed f vm r e i w
end_op-Landed f vm restore r e i w = end_restore-Landed f vm r e i w
