-- ===== src/Net/State/Holder.antt =====
-- Who holds an address: what `alloc` promises of the addresses that it hands out.
use tikovm.Prelude.{
  ℕ, nat_eq, ◌+◌, ◌-◌, ◌<◌, ◌^◌, ◌≡◌, refl, ap, sym, subst, ◌∙◌, Option, none, some, [], Text,
  nat_beq, ◌&&◌, if◌then◌else◌, get, insert, get-insert, arith, Option-cases, inl, inr, ok,
}
use tikovm.Net.Cidr.{Ipv4Net, size, host, subnet, subnet_count}
use tikovm.Net.Cidr.Bounds.{IsNet, IsSubnetPrefix, four-le-pow, hosts_apart}
use tikovm.Net.State.{ProjectState, NetState, AllocPlan, with_vm, free_index, alloc, first_project}
use tikovm.Net.Types.{vm_net}
use tikovm.Net.State.Search.{lowest_free_ip-found, free_index-found}
use tikovm.Net.State.Invariant.{Usable, IsProject, Inv, put-Inv, with_vm-IsProject}
use tikovm.Net.State.Allocated.{Allocated, more, first, alloc-Allocated}

abbrev pub held_in : Option ProjectState → ℕ → Option Text
held_in none ip = none
held_in (some p) ip = get ip p.vms

-- The VM that holds an address in a project's subnet.
abbrev pub holder : NetState → ℕ → ℕ → Option Text
holder st pid ip = held_in (get pid st.projects) ip

pub holder_project :
    (st : NetState) (pid ip : ℕ) (v : Text)
    → holder st pid ip ≡ some v
    → (p : ProjectState) × (get pid st.projects ≡ some p) × (get ip p.vms ≡ some v)
holder_project st pid ip v h = elim (Option-cases (get pid st.projects)) [
  | inl e ↦ ground (arith, e)
  | inr (p, e) ↦ (p, e, ground (arith, e))
]

held_once :
    (st : NetState) (pid pid' ip : ℕ) (v v' : Text)
    → pid ≡ pid'
    → holder st pid ip ≡ some v
    → holder st pid' ip ≡ some v'
    → v ≡ v'
held_once st pid pid' ip v v' same h h' = cc (h, h', ap (λ j. holder st j ip) same)

pub holder-put :
    (st : NetState) (pid j ip : ℕ) (p : ProjectState)
    → holder (record st { projects = insert pid p st.projects }) j ip
      ≡ (if nat_beq pid j then get ip p.vms else holder st j ip)
holder-put st pid j ip p = ground (arith, get-insert pid j p st.projects)

pub project_at : (pid j : ℕ) (st : NetState) → pid ≡ j → get pid st.projects ≡ get j st.projects
project_at pid j st e = ap (λ i. get i st.projects) e

holder-more :
    (st : NetState) (pid j ip ip' : ℕ) (p : ProjectState) (vm_id : Text)
    → get pid st.projects ≡ some p
    → holder (record st { projects = insert pid (with_vm p ip vm_id) st.projects }) j ip'
      ≡ (if nat_beq pid j && nat_beq ip ip' then some vm_id else holder st j ip')
holder-more st pid j ip ip' p vm_id e = ground (
  arith,
  holder-put st pid j ip' (with_vm p ip vm_id),
  get-insert ip ip' vm_id p.vms,
  project_at pid j st,
)

holder-first :
    (st : NetState) (pid j ip ip' : ℕ) (p : ProjectState) (vm_id : Text)
    → get pid st.projects ≡ none
    → p.vms ≡ insert ip vm_id []
    → holder (record st { projects = insert pid p st.projects }) j ip'
      ≡ (if nat_beq pid j && nat_beq ip ip' then some vm_id else holder st j ip')
unfolding get
holder-first st pid j ip ip' p vm_id e only = ground (
  arith,
  holder-put st pid j ip' p,
  get-insert ip ip' vm_id [],
  ap (get ip') only,
  project_at pid j st,
)

module _ {supernet : Ipv4Net} {prefix : ℕ} (wn : IsNet supernet)
    (wp : IsSubnetPrefix supernet prefix) where
  size-subnet : (i : ℕ) → size (subnet supernet i prefix) ≡ 2 ^ (32 - prefix)
  unfolding size subnet
  size-subnet i = refl

  first_project-IsProject :
      (st : NetState) (pid i : ℕ) (vm_id : Text)
      → free_index st.projects supernet prefix ≡ some i
      → IsProject supernet prefix pid (first_project pid vm_id supernet prefix i)
  unfolding get insert
  first_project-IsProject st pid i vm_id free = record {
    slot = (free_index-found st.projects supernet prefix i free).0;
    named = refl;
    routed = refl;
    uniq = (refl, tt);
    occupied = refl;
    placed = λ j w e. (2, omega arith, omega (arith, four-le-pow prefix wp.usable), ground arith);
    single = λ j j' w e e'. ground arith;
  }

  Allocated-Inv :
      {st st' : NetState} {pid : ℕ} {vm_id tap : Text} {plan : AllocPlan}
      → Inv supernet prefix st
      → Allocated st pid vm_id tap supernet prefix st' plan
      → Inv supernet prefix st'
  Allocated-Inv {st} {st'} {pid} {vm_id} {tap} v (more p ip e absent free same _) =
      let (k, low, high, here, new, below) =
        lowest_free_ip-found (subnet supernet p.subnet_index prefix) p.vms ip free in
      let fits : k + 1 < 2 ^ (32 - prefix) = omega (arith, size-subnet p.subnet_index) in
      subst (Inv supernet prefix) (sym same) (
        put-Inv st pid (with_vm p ip vm_id) v
          (with_vm-IsProject pid p ip vm_id (v.each pid p e) absent (k, low, fits, here))
          (λ j q f h. v.apart j pid q p f e h))
  Allocated-Inv {st} {st'} {pid} {vm_id} {tap} v (first i e free short same _) =
      subst (Inv supernet prefix) (sym same) (
        put-Inv st pid (first_project pid vm_id supernet prefix i) v
          (first_project-IsProject st pid i vm_id free)
          (λ j q f h. absurd ((free_index-found st.projects supernet prefix i free).1 j q f h)))

  -- On a valid state every `alloc` that succeeds leaves a valid state.
  pub alloc-Inv :
      (st st' : NetState) (pid : ℕ) (vm_id tap : Text) (plan : AllocPlan)
      → Inv supernet prefix st
      → alloc st pid vm_id tap supernet prefix ≡ ok (st', plan)
      → Inv supernet prefix st'
  alloc-Inv st st' pid vm_id tap plan v h =
      Allocated-Inv v (alloc-Allocated st pid vm_id tap supernet prefix st' plan h)

  -- An address of a project's VM is in no other subnet.
  index_of_address :
      (pid i ip : ℕ) (p : ProjectState) (v : Text)
      → IsProject supernet prefix pid p
      → get ip p.vms ≡ some v
      → i < subnet_count supernet prefix
      → Usable supernet prefix i ip
      → p.subnet_index ≡ i
  index_of_address pid i ip p v w e h (k, low, high, here) =
      let (l, low', high', here') = w.placed ip v e in
      (hosts_apart wn wp p.subnet_index i l k w.slot h (omega arith) (omega arith)
        (sym here' ∙ here)).0

  -- In a valid state no address is held in two projects, nor by two VMs.
  pub holder_unique :
      (st : NetState) (pid pid' ip : ℕ) (v v' : Text)
      → Inv supernet prefix st
      → holder st pid ip ≡ some v
      → holder st pid' ip ≡ some v'
      → (pid ≡ pid') × (v ≡ v')
  holder_unique st pid pid' ip v v' w h h' =
      let (p, e, f) = holder_project st pid ip v h in
      let (p', e', f') = holder_project st pid' ip v' h' in
      let z = w.each pid' p' e' in
      let same : pid ≡ pid' = w.apart pid pid' p p' e e' (
        index_of_address pid p'.subnet_index ip p v (w.each pid p e) f z.slot
          (z.placed ip v' f')) in
      (same, held_once st pid pid' ip v v' same h h')

  fresh_address :
      (st : NetState) (i ip : ℕ)
      → Inv supernet prefix st
      → i < subnet_count supernet prefix
      → Usable supernet prefix i ip
      → ((j : ℕ) (p : ProjectState)
          → get j st.projects ≡ some p
          → p.subnet_index ≡ i
          → get ip p.vms ≡ none)
      → (j : ℕ) → holder st j ip ≡ none
  fresh_address st i ip v h usable clear j = elim (Option-cases (get j st.projects)) [
    | inl e ↦ rw e
    | inr (p, e) ↦ elim (Option-cases (get ip p.vms)) [
      | inl f ↦ rw e f
      | inr (w, f) ↦ rw e (clear j p e (index_of_address j i ip p w (v.each j p e) f h usable))
    ]
  ]

  new_in_same :
      (st : NetState) (pid j : ℕ) (p q : ProjectState) (ip : ℕ)
      → Inv supernet prefix st
      → get pid st.projects ≡ some p
      → get j st.projects ≡ some q
      → q.subnet_index ≡ p.subnet_index
      → get ip p.vms ≡ none
      → get ip q.vms ≡ none
  new_in_same st pid j p q ip v e f h new =
      let same : j ≡ pid = v.apart j pid q p f e h in
      ground (arith, ap (λ i. get i st.projects) same)

  Allocated-holder :
      {st st' : NetState} {pid : ℕ} {vm_id tap : Text} {plan : AllocPlan}
      → Inv supernet prefix st
      → Allocated st pid vm_id tap supernet prefix st' plan
      → ((j : ℕ) → holder st j plan.vm_net.guest_ip ≡ none)
        × ((j ip : ℕ)
            → holder st' j ip ≡ (
                if nat_beq pid j && nat_beq plan.vm_net.guest_ip ip
                then some vm_id
                else holder st j ip))
  unfolding vm_net
  Allocated-holder {st} {st'} {pid} {vm_id} {tap} v (more p ip e absent free same planned) =
      let (k, low, high, here, new, below) =
        lowest_free_ip-found (subnet supernet p.subnet_index prefix) p.vms ip free in
      let fits : k + 1 < 2 ^ (32 - prefix) = omega (arith, size-subnet p.subnet_index) in
      rw (same, planned)
        (
          fresh_address st p.subnet_index ip v (v.each pid p e).slot (k, low, fits, here)
              (λ j q f h. new_in_same st pid j p q ip v e f h new),
          λ j ip'. holder-more st pid j ip ip' p vm_id e,
        )
  Allocated-holder {st} {st'} {pid} {vm_id} {tap} v (first i e free short same planned) =
      rw (same, planned)
        (
          fresh_address st i (host (subnet supernet i prefix) 2) v
              (free_index-found st.projects supernet prefix i free).0
              (2, omega arith, omega (arith, four-le-pow prefix wp.usable), refl)
              (λ j q f h. absurd ((free_index-found st.projects supernet prefix i free).1 j q f h)),
          λ j ip.
              holder-first st pid j (host (subnet supernet i prefix) 2) ip
                (first_project pid vm_id supernet prefix i) vm_id e refl,
        )

  -- An `alloc` that succeeds on a valid state hands out an address that no VM of any project holds,
  -- gives it to the VM, and changes nothing else about who holds what.
  pub alloc-holder :
      (st st' : NetState) (pid : ℕ) (vm_id tap : Text) (plan : AllocPlan)
      → Inv supernet prefix st
      → alloc st pid vm_id tap supernet prefix ≡ ok (st', plan)
      → ((j : ℕ) → holder st j plan.vm_net.guest_ip ≡ none)
        × ((j ip : ℕ)
            → holder st' j ip ≡ (
                if nat_beq pid j && nat_beq plan.vm_net.guest_ip ip
                then some vm_id
                else holder st j ip))
  alloc-holder st st' pid vm_id tap plan v h =
      Allocated-holder v (alloc-Allocated st pid vm_id tap supernet prefix st' plan h)
