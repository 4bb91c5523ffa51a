-- ===== src/Vmm/Firecracker/Lifetime.antt =====
-- Creating and destroying VMs among the lifecycle operations.
use tikovm.Prelude.{
  true, false, Bool, is_some, none, some, Text, text_eq, text_beq, get, insert, remove, get-remove,
  insert_cases, remove_cases, if◌then◌else◌, ◌≡◌, refl, sym, ap, subst, ◌∙◌, arith, ok, err,
  Option-cases, ◌⊎◌, inl, inr,
}
use tikovm.Error
use tikovm.Net.State.{NetState}
use tikovm.Net.Manager.{HostCall, release_vm}
use tikovm.Vmm.VmState.{is_transitional}
use tikovm.Vmm.Config.{VmConfig}
use tikovm.Vmm.Activity.{clear, in_flight}
use tikovm.Vmm.Firecracker.{FcVmEntry, FirecrackerVmm, no_such}
use tikovm.Vmm.Firecracker.Create.{Answers, create_vm, destroy_vm}
use tikovm.Vmm.Firecracker.Registry.{Ended, create_vm-Ended}
use tikovm.Vmm.Firecracker.Steps.{System, Matches, needs_process, runs}
use tikovm.Vmm.Firecracker.Frames.{insert_other, insert_same}
use tikovm.Vmm.Firecracker.Invariant.{Inv}

module _ (host : HostCall → Error.Result (Unit {0}))
    (write_file : NetState → Error.Result (Unit {0})) where
  Ended-Inv :
      (s : System) (o : FirecrackerVmm × Error.Result Text) (id : Text)
      → Ended host write_file s.vmm o id
      → get id s.waiting ≡ none
      → Inv s
      → Inv (record s { vmm = o.0 })
  unfolding Inv
  Ended-Inv s (g, err e) id (p, q) fresh inv v e' h =
      let (i, (has, rest)) = inv v e' (ap (get v) (sym p) ∙ h) in (i, (ap (get v) q ∙ has, rest))
  Ended-Inv s (g, ok r) id (a, (e, (i, (p, (q, (st, fc)))))) fresh inv v e' h =
      elim (insert_cases id v e e' s.vmm.vms (ap (get v) (sym p) ∙ h)) [
        | inr (d, old) ↦
            let (j, (has, rest)) = inv v e' old in
            (j, (ap (get v) q ∙ insert_other i s.vmm.instances d ∙ has, rest))
        | inl (same, new) ↦ (
          i,
          (
            ap (get v) q
                ∙ subst (λ x. get x (insert id i s.vmm.instances) ≡ some i) same
                    (insert_same id i s.vmm.instances),
            subst
                (λ x.
                  Matches x i.state
                  × ((is_some e'.fc ≡ runs x i.state)
                      × (needs_process i.state ≡ false → is_some i.snapshot ≡ true)))
                (sym (ap (λ x. get x s.waiting) (sym same) ∙ fresh))
                (
                  ap is_transitional st,
                  (
                    ap (λ x. is_some x.fc) (sym new) ∙ fc ∙ sym (ap needs_process st),
                    λ z. ground (arith, z, ap needs_process st),
                  ),
                ),
          ),
        )
      ]

  -- Creating a VM keeps the invariant of the table, whichever of its calls fail, where no operation
  -- waits on the new identifier.
  pub create_vm-Inv :
      (cron_ok : Text → Bool) (s : System) (c : VmConfig) (a : Answers)
      → get a.vm_id s.waiting ≡ none
      → Inv s
      → Inv (record s { vmm = (create_vm host write_file cron_ok s.vmm c a).0 })
  create_vm-Inv cron_ok s c a fresh inv =
      Ended-Inv s (create_vm host write_file cron_ok s.vmm c a) a.vm_id
        (create_vm-Ended host write_file cron_ok s.vmm c a) fresh inv

  destroyed-Inv :
      (s : System) (f : FirecrackerVmm) (vm : Text)
      → f.vms ≡ remove vm s.vmm.vms
      → f.instances ≡ s.vmm.instances
      → Inv s
      → Inv (record s { vmm = f })
  unfolding Inv
  destroyed-Inv s f vm p q inv v e h =
      let (i, (has, rest)) = inv v e (remove_cases vm v e s.vmm.vms (ap (get v) (sym p) ∙ h)).1 in
      (i, (ap (get v) q ∙ has, rest))

  -- Destroying a VM keeps the invariant of the table, whichever operation waits on it.
  pub destroy_vm-Inv :
      (s : System) (vm : Text)
      → Inv s
      → Inv (record s { vmm = (destroy_vm host write_file s.vmm vm).0 })
  unfolding destroy_vm
  destroy_vm-Inv s vm inv = elim (Option-cases (get vm s.vmm.vms)) [
    | inl n ↦ rw (n, destroy_vm) inv
    | inr (e, n) ↦
        destroyed-Inv s (destroy_vm host write_file s.vmm vm).0 vm (rw (n, destroy_vm) refl)
          (rw (n, destroy_vm) refl) inv
  ]

  -- What is left of the VM is gone, and the others' is kept.
  abbrev pub Destroyed : FirecrackerVmm → Text → FirecrackerVmm → Type 0
  Destroyed f vm g =
      (g.net_mgr ≡ (release_vm host write_file f.net_mgr vm).0)
      × ((v : Text)
          → (in_flight g.activity v ≡ (if text_beq vm v then 0 else in_flight f.activity v))
            × ((get v g.vms ≡ (if text_beq vm v then none else get v f.vms))
                × ((get v g.wake_times ≡ (if text_beq vm v then none else get v f.wake_times))
                    × ((get v g.wake_locks ≡ (if text_beq vm v then none else get v f.wake_locks))
                        × (get v g.schedule_run_locks
                            ≡ (if text_beq vm v then none else get v f.schedule_run_locks))))))

  -- Destroying a VM that is not there fails, and changes nothing. Destroying one that is there, with
  -- nothing else in between its waits, succeeds whether the host and the file system do their part or
  -- not: its entry, its wake time, its locks and its count of requests are gone, those of each other VM
  -- are kept, and the network is released.
  pub destroy_vm_lem :
      (f : FirecrackerVmm) (vm : Text)
      → ((get vm f.vms ≡ none) × (destroy_vm host write_file f vm ≡ (f, err (no_such vm))))
        ⊎ (((e : FcVmEntry) × (get vm f.vms ≡ some e))
            × ((g : FirecrackerVmm) × ((destroy_vm host write_file f vm ≡ (g, ok tt))
                  × Destroyed f vm g)))
  unfolding destroy_vm clear in_flight
  destroy_vm_lem f vm = elim (Option-cases (get vm f.vms)) [
    | inl n ↦ inl (n, rw (n, destroy_vm) refl)
    | inr (e, n) ↦ inr (
      (e, n),
      (
        (destroy_vm host write_file f vm).0,
        (
          rw (n, destroy_vm) refl,
          (
            rw (n, destroy_vm) refl,
            λ v.
                rw (n, destroy_vm)
                  (
                    ground (arith, get-remove vm v f.activity),
                    (
                      get-remove vm v f.vms,
                      (
                        get-remove vm v f.wake_times,
                        (get-remove vm v f.wake_locks, get-remove vm v f.schedule_run_locks),
                      ),
                    ),
                  ),
          ),
        ),
      ),
    )
  ]
