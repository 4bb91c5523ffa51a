-- ===== src/Vmm/Firecracker/Reach.antt =====
-- The invariant of the table of VMs, under each interleaving of the lifecycle operations.
use tikovm.Prelude.{
  some, false, none, Text, get, text_eq, ◌≡◌, ◌≢◌, sym, ap, subst, ◌∙◌, ok, arith, Option-cases,
  inl, inr,
}
use tikovm.Vmm.VmState.{VmState, is_transitional}
use tikovm.Vmm.Firecracker.{FirecrackerVmm}
use tikovm.Vmm.Firecracker.Steps.{
  Op, System, Step, Steps, begins, ends, destroys, stay, next, start, pause, resume, snapshot,
  restore, state_of, begin_op, Matches, Wait, calls, kill, kills, parks,
}
use tikovm.Vmm.Firecracker.Began.{begin_op-Began, begin_from}
use tikovm.Vmm.Firecracker.Invariant.{
  Inv, begins-Inv, kills-Inv, parks-Inv, ends-Inv, destroys-Inv, some_inj,
}

busy_op : (o : Op) → is_transitional (state_of o) ≢ false
busy_op start p = ground (arith, p)
busy_op pause p = ground (arith, p)
busy_op resume p = ground (arith, p)
busy_op snapshot p = ground (arith, p)
busy_op restore p = ground (arith, p)

-- The state of an instance on which something waits is transitional.
busy : (w : Wait) (st : VmState) → Matches (some w) st → is_transitional st ≢ false
busy (calls op) st m p = busy_op op (sym (ap is_transitional m) ∙ p)
busy kill st m p = ground (arith, ap is_transitional m, p)

-- Each step of the lifecycle keeps the invariant.
pub Step-Inv : {s t : System} → Step s t → Inv s → Inv t
Step-Inv {s = s} (begins vm op {f = f} h) inv = begins-Inv s vm op f h inv
Step-Inv {s = s} (ends vm op r h q) inv = ends-Inv s vm op r h inv
Step-Inv {s = s} (kills vm h) inv = kills-Inv s vm h inv
Step-Inv {s = s} (parks vm now h) inv = parks-Inv s vm now h inv
Step-Inv {s = s} (destroys vm) inv = destroys-Inv s vm inv

-- However the lifecycle operations interleave, from a sound table each entry has an instance whose
-- state is transitional exactly while an operation waits on it, and is then the state of that
-- operation; there is a Firecracker process unless the VM is suspended, is being restored, or is being
-- suspended with its process taken to be killed; and a VM that is suspended or being restored has a
-- snapshot.
pub Steps-Inv : {s t : System} → Steps s t → Inv s → Inv t
Steps-Inv stay inv = inv
Steps-Inv (next a b) inv = Steps-Inv b (Step-Inv a inv)

-- In each state that the steps reach from a sound table, no operation starts on a VM on which one
-- waits.
pub one_at_a_time :
    {s t : System} (vm : Text) (op : Op) (f : FirecrackerVmm)
    → Steps s t
    → Inv s
    → begin_op t.vmm vm op ≡ ok f
    → get vm t.waiting ≡ none
unfolding Inv
one_at_a_time {t = t} vm op f a inv h = elim (Option-cases (get vm t.waiting)) [
  | inl n ↦ n
  | inr (o, n) ↦
      let (e, (i, (has, (q, p)))) = begin_op-Began t.vmm f vm op h in
      let (i0, (g, (m, fit))) = Steps-Inv a inv vm e has.0 in
      let same_i = some_inj (sym g ∙ has.1) in
      let st = subst (λ x. Matches x i0.state) n m in
      absurd (
        busy o i0.state st (ap (λ x. is_transitional x.state) same_i ∙ (begin_from i.state op q).0))
]
