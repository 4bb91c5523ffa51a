-- ===== src/Net/Manager/Outcomes.antt =====
-- What `NetworkManager` promises, whatever the host and the file system answer.
use tikovm.Prelude.{
  refl, ℕ, ◌≡◌, subst, sym, ap, ◌⊎◌, inl, inr, nat_eq, some, Text, ok, err, arith, Result-cases,
  Option-cases,
}
use tikovm.Error.{Error}
use tikovm.Error
use tikovm.Net.Cidr.Bounds.{IsNet, IsSubnetPrefix, parse-IsNet}
use tikovm.Net.State.{NetState, AllocPlan, alloc, rollback_alloc, release}
use tikovm.Net.State.Invariant.{Inv}
use tikovm.Net.State.Holder.{holder, alloc-Inv, alloc-holder}
use tikovm.Net.State.Release.{rollback_alloc-Inv, release_lem, alloc-rollback}
use tikovm.Net.Manager.{
  NetworkManager, HostCall, Saved, new, apply_alloc, persist, undo, allocate, release_vm,
}

-- A manager whose networks fit and whose allocation state is valid.
pub record IsManager (m : NetworkManager) : Type 0 where
  pub net : IsNet m.supernet
  pub prefix : IsSubnetPrefix m.supernet m.subnet_prefix
  pub inv : Inv m.supernet m.subnet_prefix m.state

-- A manager that `new` makes has a supernet that fits into 32 bits, and subnets of four addresses
-- or more, each smaller than the supernet.
pub new_networks :
    (t : Text) (q : ℕ) (saved : Saved) (m : NetworkManager)
    → new t q saved ≡ ok m
    → IsNet m.supernet × IsSubnetPrefix m.supernet m.subnet_prefix
unfolding new
new_networks t q saved m h = ground (arith, parse-IsNet t m.supernet)

module _ (host : HostCall → Error.Result (Unit {0}))
    (write_file : NetState → Error.Result (Unit {0})) where
  apply-state :
      (m : NetworkManager) (plan : AllocPlan)
      → ((apply_alloc host write_file m plan).0.state ≡ m.state)
        × ((apply_alloc host write_file m plan).0.supernet ≡ m.supernet)
        × ((apply_alloc host write_file m plan).0.subnet_prefix ≡ m.subnet_prefix)
  unfolding apply_alloc
  apply-state m plan = ground arith

  persist-state :
      (m : NetworkManager)
      → ((persist host write_file m).0.state ≡ m.state)
        × ((persist host write_file m).0.supernet ≡ m.supernet)
        × ((persist host write_file m).0.subnet_prefix ≡ m.subnet_prefix)
  unfolding persist
  persist-state m = ground arith

  undo-state :
      (m : NetworkManager) (plan : AllocPlan) (pid : ℕ) (vm_id : Text)
      → ((undo host write_file m plan pid vm_id).state ≡ rollback_alloc m.state pid vm_id)
        × ((undo host write_file m plan pid vm_id).supernet ≡ m.supernet)
        × ((undo host write_file m plan pid vm_id).subnet_prefix ≡ m.subnet_prefix)
  unfolding undo
  undo-state m plan pid vm_id = ground arith

  IsManager-with :
      (m m' : NetworkManager)
      → IsManager m
      → m'.supernet ≡ m.supernet
      → m'.subnet_prefix ≡ m.subnet_prefix
      → Inv m.supernet m.subnet_prefix m'.state
      → IsManager m'
  IsManager-with m m' v a b i = record {
    net = subst IsNet (sym a) v.net;
    prefix = rw (a, b) v.prefix;
    inv = rw (a, b) i;
  }

  -- The two ways in which `allocate` can leave a state that `alloc` has changed.
  allocate_ends :
      (m : NetworkManager) (pid : ℕ) (vm_id tap : Text) (st : NetState) (plan : AllocPlan)
      → alloc m.state pid vm_id tap m.supernet m.subnet_prefix ≡ ok (st, plan)
      → let m' = (allocate host write_file m pid vm_id tap).0 in
        (m'.supernet ≡ m.supernet)
        × (m'.subnet_prefix ≡ m.subnet_prefix)
        × ((m'.state ≡ st) ⊎ (m'.state ≡ rollback_alloc st pid vm_id))
  unfolding allocate
  allocate_ends m pid vm_id tap st plan h =
      let with_st : NetworkManager = record m { state = st } in
      let applied : NetworkManager = (apply_alloc host write_file with_st plan).0 in
      let same = apply-state with_st plan in
      let kept = persist-state applied in
      let undone = undo-state applied plan pid vm_id in
      elim (Result-cases (apply_alloc host write_file with_st plan).1) [
        | inl (u, e) ↦ elim (Result-cases (persist host write_file applied).1) [
          | inl (w, f) ↦ ground (arith, h, e, f, same, kept)
          | inr (w, f) ↦ ground (arith, h, e, f, same, kept)
        ]
        | inr (w, e) ↦
            ground (arith, h, e, same, undone, ap (λ s. rollback_alloc s pid vm_id) same.0)
      ]

  -- `allocate` keeps the manager valid, whether the host and the file system do their part or not.
  pub allocate-IsManager :
      (m : NetworkManager) (pid : ℕ) (vm_id tap : Text)
      → IsManager m
      → IsManager (allocate host write_file m pid vm_id tap).0
  unfolding allocate
  allocate-IsManager m pid vm_id tap v =
      elim (Result-cases (alloc m.state pid vm_id tap m.supernet m.subnet_prefix)) [
        | inr (e, h) ↦ rw (h, allocate) v
        | inl ((st, plan), h) ↦
            let (same_net, same_prefix, ends) = allocate_ends m pid vm_id tap st plan h in
            let w = alloc-Inv v.net v.prefix m.state st pid vm_id tap plan v.inv h in
            IsManager-with m (allocate host write_file m pid vm_id tap).0 v same_net same_prefix
              (elim ends [ inl e ↦ rw e w | inr e ↦ rw e (rollback_alloc-Inv st pid vm_id w) ])
      ]

  -- Where the host fails, `allocate` returns its error, and who holds what is as it was before.
  pub allocate_rolled_back :
      (m : NetworkManager) (pid : ℕ) (vm_id tap : Text) (st : NetState) (plan : AllocPlan)
      (e : Error)
      → IsManager m
      → alloc m.state pid vm_id tap m.supernet m.subnet_prefix ≡ ok (st, plan)
      → (apply_alloc host write_file (record m { state = st }) plan).1 ≡ err e
      → ((allocate host write_file m pid vm_id tap).1 ≡ err e)
        × ((j ip : ℕ)
            → holder (allocate host write_file m pid vm_id tap).0.state j ip ≡ holder m.state j ip)
  unfolding allocate
  allocate_rolled_back m pid vm_id tap st plan e v h fails =
      let with_st : NetworkManager = record m { state = st } in
      let applied : NetworkManager = (apply_alloc host write_file with_st plan).0 in
      let same = apply-state with_st plan in
      let undone = undo-state applied plan pid vm_id in
      let state : (allocate host write_file m pid vm_id tap).0.state ≡ rollback_alloc st pid vm_id =
        ground (arith, h, fails, undone, ap (λ s. rollback_alloc s pid vm_id) same.0) in
      (
        ground (arith, h, fails),
        λ j ip. rw state (alloc-rollback v.net v.prefix m.state st pid vm_id tap plan v.inv h j ip),
      )

  -- Where the host does its part and the file cannot be written, `allocate` returns an error too,
  -- but the VM keeps the address: this path has no rollback.
  pub allocate_leak :
      (m : NetworkManager) (pid : ℕ) (vm_id tap : Text) (st : NetState) (plan : AllocPlan)
      (e : Error)
      → IsManager m
      → alloc m.state pid vm_id tap m.supernet m.subnet_prefix ≡ ok (st, plan)
      → (apply_alloc host write_file (record m { state = st }) plan).1 ≡ ok tt
      → write_file st ≡ err e
      → ((allocate host write_file m pid vm_id tap).1 ≡ err e)
        × (holder (allocate host write_file m pid vm_id tap).0.state pid plan.vm_net.guest_ip
            ≡ some vm_id)
  unfolding allocate persist
  allocate_leak m pid vm_id tap st plan e v h applied fails =
      let with_st : NetworkManager = record m { state = st } in
      let same = apply-state with_st plan in
      let written = ap write_file same.0 in
      let state : (allocate host write_file m pid vm_id tap).0.state ≡ st =
        ground (arith, h, applied, fails, same, written) in
      (
        ground (arith, h, applied, fails, written),
        rw state (
            ground (
              arith,
              (alloc-holder v.net v.prefix m.state st pid vm_id tap plan v.inv h).1 pid
                  plan.vm_net.guest_ip,
            )),
      )

  -- `release` keeps the manager valid whatever the host answers, and a failure of its is one of the
  -- file system.
  pub release_vm-IsManager :
      (m : NetworkManager) (vm_id : Text)
      → IsManager m
      → IsManager (release_vm host write_file m vm_id).0
        × (((release_vm host write_file m vm_id).1 ≡ ok tt)
            ⊎ ((release_vm host write_file m vm_id).1
                ≡ write_file (release_vm host write_file m vm_id).0.state))
  unfolding release_vm persist
  release_vm-IsManager m vm_id v =
      elim (Option-cases (release m.state vm_id m.supernet m.subnet_prefix)) [
        | inl gone ↦ rw (gone, release_vm) (v, inl refl)
        | inr ((st, plan), h) ↦ (
          IsManager-with m (release_vm host write_file m vm_id).0 v (ground (arith, h))
              (ground (arith, h))
              (let state : (release_vm host write_file m vm_id).0.state ≡ st = ground (arith, h) in
                rw state (release_lem m.state st vm_id plan v.inv h).0),
          inr (ground (arith, h)),
        )
      ]
