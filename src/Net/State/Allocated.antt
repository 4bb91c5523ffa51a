-- ===== src/Net/State/Allocated.antt =====
-- What a successful `alloc` does to the state: the two ways in which it succeeds.
use tikovm.Prelude.{
  ℕ, length, nat_eq, ◌≤◌, ◌≡◌, false, none, some, Text, get, insert, arith, Bool-cases,
  Option-cases, inl, inr, ok,
}
use tikovm.Net.{ifnamsiz_max}
use tikovm.Net.Cidr.{Ipv4Net, subnet}
use tikovm.Net.State.{
  ProjectState, NetState, AllocPlan, owns_vm, with_vm, lowest_free_ip, free_index, alloc,
  alloc_existing, alloc_new, bridge_name, first_project, first_plan, more_plan,
}

-- What a successful `alloc` did: one more address for a project, or a project with its first.
pub data Allocated (st : NetState) (pid : ℕ) (vm_id tap : Text) (supernet : Ipv4Net) (prefix : ℕ)
    (st' : NetState) (plan : AllocPlan) : Type 0 where
  more :
      (p : ProjectState) (ip : ℕ)
      → get pid st.projects ≡ some p
      → owns_vm p vm_id ≡ false
      → lowest_free_ip (subnet supernet p.subnet_index prefix) p.vms ≡ some ip
      → st' ≡ record st { projects = insert pid (with_vm p ip vm_id) st.projects }
      → plan ≡ more_plan p ip tap supernet prefix
      → Allocated st pid vm_id tap supernet prefix st' plan
  first :
      (i : ℕ)
      → get pid st.projects ≡ none
      → free_index st.projects supernet prefix ≡ some i
      → length (bridge_name pid) ≤ ifnamsiz_max
      → st' ≡ record st {
        projects = insert pid (first_project pid vm_id supernet prefix i) st.projects;
      }
      → plan ≡ first_plan pid tap supernet prefix i
      → Allocated st pid vm_id tap supernet prefix st' plan

module _ (st : NetState) (pid : ℕ) (vm_id tap : Text) (supernet : Ipv4Net) (prefix : ℕ) where
  existing_Allocated :
      (p : ProjectState) (st' : NetState) (plan : AllocPlan)
      → get pid st.projects ≡ some p
      → alloc_existing st pid vm_id tap supernet prefix p ≡ ok (st', plan)
      → Allocated st pid vm_id tap supernet prefix st' plan
  unfolding alloc_existing
  existing_Allocated p st' plan e h = elim (Bool-cases (owns_vm p vm_id)) [
    | inl owns ↦ ground (arith, owns)
    | inr absent ↦
        elim (Option-cases (lowest_free_ip (subnet supernet p.subnet_index prefix) p.vms)) [
          | inl full ↦ ground (arith, absent, full)
          | inr (ip, free) ↦
              more p ip e absent free (ground (arith, absent, free)) (ground (arith, absent, free))
        ]
  ]

  new_Allocated :
      (st' : NetState) (plan : AllocPlan)
      → get pid st.projects ≡ none
      → alloc_new st pid vm_id tap supernet prefix ≡ ok (st', plan)
      → Allocated st pid vm_id tap supernet prefix st' plan
  unfolding alloc_new
  new_Allocated st' plan e h = elim (Option-cases (free_index st.projects supernet prefix)) [
    | inl full ↦ ground (arith, full)
    | inr (i, free) ↦
        first i e free (ground (arith, free)) (ground (arith, free)) (ground (arith, free))
  ]

  pub alloc-Allocated :
      (st' : NetState) (plan : AllocPlan)
      → alloc st pid vm_id tap supernet prefix ≡ ok (st', plan)
      → Allocated st pid vm_id tap supernet prefix st' plan
  unfolding alloc
  alloc-Allocated st' plan h = elim (Option-cases (get pid st.projects)) [
    | inl e ↦ new_Allocated st' plan e (rw (e, alloc) at h)
    | inr (p, e) ↦ existing_Allocated p st' plan e (rw (e, alloc) at h)
  ]
