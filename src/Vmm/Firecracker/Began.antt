-- ===== src/Vmm/Firecracker/Began.antt =====
-- What an operation that starts has found.
use tikovm.Prelude.{
  true, false, Text, get, text_eq, ◌≡◌, refl, ok, arith, Option-cases, Bool-cases, inl, inr,
}
use tikovm.Vmm.VmState.{
  VmState, can_transition_to, is_transitional, restoring, suspended, started, created, paused,
}
use tikovm.Vmm.Instance.{VmInstance, transition}
use tikovm.Vmm.Firecracker.{
  FirecrackerVmm, FcVmEntry, begin, begin_restore, find_entry, entry_parts, put_instance,
}
use tikovm.Vmm.Firecracker.Steps.{
  Op, start, pause, resume, snapshot, restore, state_of, begin_op, needs_process,
}
use tikovm.Vmm.Firecracker.Landing.{Has}

-- What an operation that starts has found, and what it has done.
abbrev pub Began : FirecrackerVmm → Text → Op → FirecrackerVmm → Type 0
Began f vm op f' =
    (e : FcVmEntry) × ((i : VmInstance) × (Has f vm e i
        × ((can_transition_to i.state (state_of op) ≡ true)
            × (f' ≡ put_instance f vm (record i { state = state_of op })))))

begin-Began :
    (f f' : FirecrackerVmm) (vm : Text) (op : Op)
    → begin f vm (state_of op) ≡ ok f'
    → Began f vm op f'
unfolding begin entry_parts find_entry transition
begin-Began f f' vm op h = elim (Option-cases (get vm f.vms)) [
  | inl n ↦ ground (arith, n, h)
  | inr (e, n) ↦ elim (Option-cases (get vm f.instances)) [
    | inl m ↦ ground (arith, n, m, h)
    | inr (i, m) ↦ elim (Bool-cases (can_transition_to i.state (state_of op))) [
      | inl t ↦ (e, (i, ((n, m), (t, ground (arith, n, m, t, h)))))
      | inr t ↦ ground (arith, n, m, t, h)
    ]
  ]
]

pub begin_op-Began :
    (f f' : FirecrackerVmm) (vm : Text) (op : Op) → begin_op f vm op ≡ ok f' → Began f vm op f'
unfolding begin_op begin_restore entry_parts find_entry transition
begin_op-Began f f' vm start h = begin-Began f f' vm start h
begin_op-Began f f' vm pause h = begin-Began f f' vm pause h
begin_op-Began f f' vm resume h = begin-Began f f' vm resume h
begin_op-Began f f' vm snapshot h = begin-Began f f' vm snapshot h
begin_op-Began f f' vm restore h = elim (Option-cases (get vm f.vms)) [
  | inl n ↦ ground (arith, n, h)
  | inr (e, n) ↦ elim (Option-cases (get vm f.instances)) [
    | inl m ↦ ground (arith, n, m, h)
    | inr (i, m) ↦ elim (Option-cases i.snapshot) [
      | inl k ↦ ground (arith, n, m, k, h)
      | inr (s, k) ↦ elim (Bool-cases (can_transition_to i.state restoring)) [
        | inl t ↦ (e, (i, ((n, m), (t, ground (arith, n, m, k, t, h)))))
        | inr t ↦ ground (arith, n, m, k, t, h)
      ]
    ]
  ]
]

pub begin_from :
    (st : VmState) (op : Op)
    → can_transition_to st (state_of op) ≡ true
    → (is_transitional st ≡ false) × (needs_process st ≡ needs_process (state_of op))
unfolding can_transition_to
begin_from created start t = (refl, refl)
begin_from started pause t = (refl, refl)
begin_from paused resume t = (refl, refl)
begin_from started snapshot t = (refl, refl)
begin_from paused snapshot t = (refl, refl)
begin_from suspended restore t = (refl, refl)
begin_from st op t = ground (arith, t)
