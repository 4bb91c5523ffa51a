-- ===== src/Net/State/Release.antt =====
-- `release` and `rollback_alloc`: what a VM gives back.
use tikovm.Prelude.{
  ℕ, remove_cases, nat_eq, is_empty, keep_if, ◌≡◌, ◌≢◌, refl, ap, sym, Bool, true, false, not,
  Option, none, some, [], ◌∷◌, Text, text_beq, text_beq_iff, nat_beq, ◌⊎◌, if◌then◌else◌, Map, get,
  retain, get-retain, get-insert, get-remove, arith, Bool-cases, Option-cases, inl, inr, ◌↔◌, ok,
}
use tikovm.Net.Cidr.{Ipv4Net}
use tikovm.Net.Cidr.Bounds.{IsNet, IsSubnetPrefix}
use tikovm.Net.State.{
  ProjectState, ProjectSetup, NetState, AllocPlan, ReleasePlan, owns_vm, remove_vm, drop_vm,
  rollback_alloc, release, release_plan, find_owner, alloc, setup_of,
}
use tikovm.Net.Types.{for_vm}
use tikovm.Net.State.Search.{owns_of_get, get_of_listed, find_owner-found, find_owner-none}
use tikovm.Net.State.Invariant.{Inv, drop_vm-Inv}
use tikovm.Net.State.Allocated.{more, first, alloc-Allocated}
use tikovm.Net.State.Holder.{
  holder, holder_project, holder-put, project_at, alloc-holder, alloc-Inv,
}

-- Every VM but one.
abbrev pub others : Text → Text → Bool
others vm_id id = not (text_beq id vm_id)

get-empty : (ip : ℕ) (m : Map ℕ Text) → is_empty m ≡ true → get ip m ≡ none
unfolding get
get-empty ip [] h = refl
get-empty ip (x ∷ m) h = cc

-- The project that gives the VM up, and what the caller is told to do on the host.
pub record Released (supernet : Ipv4Net) (prefix : ℕ) (st st' : NetState) (vm_id : Text)
    (plan : ReleasePlan) (pid : ℕ) (p : ProjectState) : Type 0 where
  pub known : get pid st.projects ≡ some p
  pub owned : owns_vm p vm_id ≡ true
  pub tap : plan.tap ≡ for_vm vm_id
  pub holders :
      (j ip : ℕ)
      → holder st' j ip
        ≡ (if nat_beq pid j then keep_if (others vm_id) (holder st j ip) else holder st j ip)
  pub torn_down :
      ((plan.teardown ≡ none) × ((q : ProjectState) × (get pid st'.projects ≡ some q)))
      ⊎ ((plan.teardown ≡ some (setup_of p supernet prefix))
          × (get pid st'.projects ≡ none)
          × ((j : ℕ) (q : ProjectState)
              → get j st'.projects ≡ some q
              → q.subnet_index ≢ p.subnet_index))

module _ {supernet : Ipv4Net} {prefix : ℕ} where
  drop_vm-holder :
      (st : NetState) (pid j ip : ℕ) (p : ProjectState) (vm_id : Text)
      → Inv supernet prefix st
      → get pid st.projects ≡ some p
      → holder (drop_vm st pid p vm_id) j ip
        ≡ (if nat_beq pid j then keep_if (others vm_id) (holder st j ip) else holder st j ip)
  unfolding drop_vm remove_vm
  drop_vm-holder st pid j ip p vm_id v e = elim (Bool-cases (is_empty (remove_vm p vm_id).vms)) [
    | inl last ↦ ground (
      arith,
      last,
      e,
      get-remove pid j st.projects,
      get-retain (others vm_id) ip p.vms (v.each pid p e).uniq,
      get-empty ip (retain (others vm_id) p.vms) last,
      project_at pid j st,
    )
    | inr left ↦ ground (
      arith,
      left,
      e,
      holder-put st pid j ip (remove_vm p vm_id),
      get-retain (others vm_id) ip p.vms (v.each pid p e).uniq,
      project_at pid j st,
    )
  ]

  pub rollback_alloc-Inv :
      (st : NetState) (pid : ℕ) (vm_id : Text)
      → Inv supernet prefix st
      → Inv supernet prefix (rollback_alloc st pid vm_id)
  unfolding rollback_alloc
  rollback_alloc-Inv st pid vm_id v = elim (Option-cases (get pid st.projects)) [
    | inl e ↦ rw (e, rollback_alloc) v
    | inr (p, e) ↦ rw (e, rollback_alloc) (drop_vm-Inv st pid p vm_id v e)
  ]

  rollback-holder :
      (st : NetState) (pid j ip : ℕ) (vm_id : Text)
      → Inv supernet prefix st
      → holder (rollback_alloc st pid vm_id) j ip
        ≡ (if nat_beq pid j then keep_if (others vm_id) (holder st j ip) else holder st j ip)
  unfolding rollback_alloc
  rollback-holder st pid j ip vm_id v = elim (Option-cases (get pid st.projects)) [
    | inl e ↦ rw (e, rollback_alloc) (ground (arith, e, project_at pid j st))
    | inr (p, e) ↦ rw (e, rollback_alloc) (drop_vm-holder st pid j ip p vm_id v e)
  ]

  teardown_of :
      (st : NetState) (pid : ℕ) (p : ProjectState) (vm_id : Text) (b : Bool)
      → Inv supernet prefix st
      → get pid st.projects ≡ some p
      → is_empty (remove_vm p vm_id).vms ≡ b
      → let teardown : Option ProjectSetup =
          if b then some (setup_of p supernet prefix) else none in
        let st' = drop_vm st pid p vm_id in
        ((teardown ≡ none) × ((q : ProjectState) × (get pid st'.projects ≡ some q)))
        ⊎ ((teardown ≡ some (setup_of p supernet prefix))
            × (get pid st'.projects ≡ none)
            × ((j : ℕ) (q : ProjectState)
                → get j st'.projects ≡ some q
                → q.subnet_index ≢ p.subnet_index))
  unfolding drop_vm
  teardown_of st pid p vm_id true v e last = inr (
    refl,
    ground (arith, last, get-remove pid pid st.projects),
    λ j q f same.
        let gone = remove_cases pid j q st.projects (ground (arith, last, f)) in
        gone.0 (v.apart pid j p q e gone.1 (sym same)),
  )
  teardown_of st pid p vm_id false v e left = inl (
    refl,
    (remove_vm p vm_id, ground (arith, left, get-insert pid pid (remove_vm p vm_id) st.projects)),
  )

  -- A `release` that finds the VM keeps the state valid. It takes from the project that owns the VM
  -- all that the VM holds there, and changes nothing else about who holds what. It asks for the
  -- teardown of the bridge exactly if the project is gone, and then no project has its subnet.
  pub release_lem :
      (st st' : NetState) (vm_id : Text) (plan : ReleasePlan)
      → Inv supernet prefix st
      → release st vm_id supernet prefix ≡ some (st', plan)
      → Inv supernet prefix st'
        × ((pid : ℕ) × (p : ProjectState) × Released supernet prefix st st' vm_id plan pid p)
  unfolding release
  release_lem st st' vm_id plan v h = elim (Option-cases (find_owner vm_id st.projects)) [
    | inl none_owns ↦ ground (arith, none_owns)
    | inr (pid, found) ↦
        let (p, e, owns) = find_owner-found vm_id st.projects pid v.distinct found in
        let state : drop_vm st pid p vm_id ≡ st' = ground (arith, found, e) in
        let planned : release_plan p vm_id supernet prefix ≡ plan = ground (arith, found, e) in
        rw (← state, ← planned)
          (
            drop_vm-Inv st pid p vm_id v e,
            (
              pid,
              p,
              record {
                known = e;
                owned = owns;
                tap = refl;
                holders = λ j ip. drop_vm-holder st pid j ip p vm_id v e;
                torn_down = teardown_of st pid p vm_id (is_empty (remove_vm p vm_id).vms) v e refl;
              },
            ),
          )
  ]

  -- On a valid state `release` finds no VM exactly if the VM holds no address in any project.
  pub release-none :
      (st : NetState) (vm_id : Text)
      → Inv supernet prefix st
      → (release st vm_id supernet prefix ≡ none) ↔ ((pid ip : ℕ) → holder st pid ip ≢ some vm_id)
  unfolding release
  release-none st vm_id v = elim (Option-cases (find_owner vm_id st.projects)) [
    | inl none_owns ↦ (
      λ h pid ip held.
          let (p, e, f) = holder_project st pid ip vm_id held in
          cc (find_owner-none vm_id st.projects none_owns pid p e, owns_of_get p ip vm_id f),
      λ h. rw (none_owns, release),
    )
    | inr (pid, found) ↦
        let (p, e, owns) = find_owner-found vm_id st.projects pid v.distinct found in
        let (ip, held) = get_of_listed vm_id p.vms (v.each pid p e).uniq (unfold owns_vm in owns) in
        (λ h. ground (arith, found, e, h), λ h. absurd (h pid ip (ground (arith, e, held))))
  ]

keep_other : (vm_id : Text) (o : Option Text) → o ≢ some vm_id → keep_if (others vm_id) o ≡ o
keep_other vm_id none h = refl
keep_other vm_id (some w) h = elim (Bool-cases (text_beq w vm_id)) [
  | inl same ↦ absurd (h (ap some ((text_beq_iff w vm_id).0 same)))
  | inr other ↦ rw other
]

not_held_before :
    (st st' : NetState) (pid : ℕ) (vm_id tap : Text) (plan : AllocPlan) (supernet : Ipv4Net)
    (prefix : ℕ)
    → alloc st pid vm_id tap supernet prefix ≡ ok (st', plan)
    → (j ip : ℕ) → pid ≡ j
    → holder st j ip ≢ some vm_id
not_held_before st st' pid vm_id tap plan supernet prefix h j ip same held =
    elim (alloc-Allocated st pid vm_id tap supernet prefix st' plan h) [
      | more p ip' e absent free _ _ ↦
          cc (absent, owns_of_get p ip vm_id (ground (arith, held, project_at pid j st, e)))
      | first i e free short _ _ ↦ ground (arith, held, project_at pid j st, e)
    ]

held_other :
    (st : NetState) (j ip : ℕ) (vm_id : Text)
    → (holder st j ip ≡ some vm_id → ⊥)
    → keep_if (others vm_id) (holder st j ip) ≡ holder st j ip
held_other st j ip vm_id h = keep_other vm_id (holder st j ip) h

module _ {supernet : Ipv4Net} {prefix : ℕ} (wn : IsNet supernet)
    (wp : IsSubnetPrefix supernet prefix) where
  -- Rolling a successful `alloc` back restores who holds what, provided that the project did not
  -- hold the VM before, which a successful `alloc` has checked.
  pub alloc-rollback :
      (st st' : NetState) (pid : ℕ) (vm_id tap : Text) (plan : AllocPlan)
      → Inv supernet prefix st
      → alloc st pid vm_id tap supernet prefix ≡ ok (st', plan)
      → (j ip : ℕ) → holder (rollback_alloc st' pid vm_id) j ip ≡ holder st j ip
  alloc-rollback st st' pid vm_id tap plan v h j ip = ground (
    arith,
    rollback-holder st' pid j ip vm_id (alloc-Inv wn wp st st' pid vm_id tap plan v h),
    (alloc-holder wn wp st st' pid vm_id tap plan v h).0 j,
    (alloc-holder wn wp st st' pid vm_id tap plan v h).1 j ip,
    not_held_before st st' pid vm_id tap plan supernet prefix h j ip,
    text_beq_iff vm_id vm_id,
    held_other st j ip vm_id,
  )
