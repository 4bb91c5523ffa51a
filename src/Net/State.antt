-- ===== src/Net/State.antt =====
-- hostd/src/net/state.rs: which project owns which subnet and which VM owns which guest address.
pub mod Search
pub mod Invariant
pub mod Allocated
pub mod Holder
pub mod Release
use tikovm.Prelude.{
  ℕ, nat_eq, text_eq, ◌-◌, Bool, not, Option, none, some, List, [], ◌∷◌, ◌++◌, Text, text_beq,
  nat_beq, ltb, if◌then◌else◌, any, length, Map, is_empty, get, insert, remove, retain,
  contains_key, find_range, show_decimal, ok, err, ok_or, ensure, ◌>>=◌, ◌>>◌,
}
use tikovm.Error.{
  net, ip_already_allocated, subnet_exhausted, no_free_subnets, bridge_name_too_long,
}
use tikovm.Error
use tikovm.Net.{ifnamsiz_max, bridge_prefix}
use tikovm.Net.Cidr.{Ipv4Net, size, host, subnet, subnet_count}
use tikovm.Net.Types.{VmNet, vm_net, for_vm}

pub record ProjectState : Type 0 where
  pub subnet_index : ℕ
  pub bridge : Text
  pub gateway : ℕ
  pub vms : Map ℕ Text

pub record NetState : Type 0 where
  pub projects : Map ℕ ProjectState

-- `NetState::default`.
abbrev pub empty : NetState
empty = record { projects = [] }

pub record ProjectSetup : Type 0 where
  pub bridge : Text
  pub gateway : ℕ
  pub subnet : Ipv4Net
  pub supernet : Ipv4Net

pub record AllocPlan : Type 0 where
  pub bridge : Text
  pub setup : Option ProjectSetup
  pub vm_net : VmNet

pub record ReleasePlan : Type 0 where
  pub tap : Text
  pub teardown : Option ProjectSetup

unfoldable pub owns_vm : ProjectState → Text → Bool
owns_vm p vm_id = any (λ e. text_beq e.1 vm_id) p.vms

unfoldable pub remove_vm : ProjectState → Text → ProjectState
remove_vm p vm_id = record p { vms = retain (λ id. not (text_beq id vm_id)) p.vms }

-- Skips the network address, the gateway and the broadcast address.
unfoldable pub lowest_free_ip : Ipv4Net → Map ℕ Text → Option ℕ
lowest_free_ip sub used =
    elim (find_range (size sub - 1 - 2) 2 (λ idx. not (contains_key (host sub idx) used))) [
      | none ↦ none
      | some idx ↦ some (host sub idx)
    ]

abbrev pub index_used : Map ℕ ProjectState → ℕ → Bool
index_used projects i = any (λ e. nat_beq e.1.subnet_index i) projects

unfoldable pub free_index : Map ℕ ProjectState → Ipv4Net → ℕ → Option ℕ
free_index projects supernet subnet_prefix =
    find_range (subnet_count supernet subnet_prefix) 0 (λ i. not (index_used projects i))

abbrev pub with_vm : ProjectState → ℕ → Text → ProjectState
with_vm p ip vm_id = record p { vms = insert ip vm_id p.vms }

abbrev pub bridge_name : ℕ → Text
bridge_name project_id = bridge_prefix ++ show_decimal project_id

-- The entry of a project's first VM, in the subnet of the given index.
abbrev pub first_project : ℕ → Text → Ipv4Net → ℕ → ℕ → ProjectState
first_project project_id vm_id supernet subnet_prefix index =
    let sub = subnet supernet index subnet_prefix in
    record {
      subnet_index = index;
      bridge = bridge_name project_id;
      gateway = host sub 1;
      vms = insert (host sub 2) vm_id [];
    }

abbrev pub first_plan : ℕ → Text → Ipv4Net → ℕ → ℕ → AllocPlan
first_plan project_id tap_name supernet subnet_prefix index =
    let sub = subnet supernet index subnet_prefix in
    record {
      bridge = bridge_name project_id;
      setup = some (record {
        bridge = bridge_name project_id;
        gateway = host sub 1;
        subnet = sub;
        supernet = supernet;
      });
      vm_net = vm_net tap_name (host sub 2) (host sub 1) sub;
    }

abbrev pub more_plan : ProjectState → ℕ → Text → Ipv4Net → ℕ → AllocPlan
more_plan p guest_ip tap_name supernet subnet_prefix = record {
  bridge = p.bridge;
  setup = none;
  vm_net = vm_net tap_name guest_ip p.gateway (subnet supernet p.subnet_index subnet_prefix);
}

module _ (st : NetState) (project_id : ℕ) (vm_id tap_name : Text) (supernet : Ipv4Net)
    (subnet_prefix : ℕ) where
  -- A project that exists: one more address of its subnet.
  unfoldable pub alloc_existing : ProjectState → Error.Result (NetState × AllocPlan)
  alloc_existing p = if owns_vm p vm_id then err (net (ip_already_allocated vm_id)) else do
    guest_ip ←
        ok_or (lowest_free_ip (subnet supernet p.subnet_index subnet_prefix) p.vms)
          (net (subnet_exhausted project_id))
    ok (
      record st { projects = insert project_id (with_vm p guest_ip vm_id) st.projects },
      more_plan p guest_ip tap_name supernet subnet_prefix,
    )

  -- A project's first VM: the lowest free subnet.
  unfoldable pub alloc_new : Error.Result (NetState × AllocPlan)
  alloc_new = do
    index ← ok_or (free_index st.projects supernet subnet_prefix) (net no_free_subnets)
    if ltb ifnamsiz_max (length (bridge_name project_id))
        then err (net (bridge_name_too_long (bridge_name project_id)))
        else ok (
          record st {
            projects =
                insert project_id (first_project project_id vm_id supernet subnet_prefix index)
                  st.projects;
          },
          first_plan project_id tap_name supernet subnet_prefix index,
        )

  -- On an error nothing has been changed.
  unfoldable pub alloc : Error.Result (NetState × AllocPlan)
  alloc = elim (get project_id st.projects) [ some p ↦ alloc_existing p | none ↦ alloc_new ]

-- The project without the VM; a project that is left with no VM goes.
unfoldable pub drop_vm : NetState → ℕ → ProjectState → Text → NetState
drop_vm st project_id p vm_id =
    if is_empty (remove_vm p vm_id).vms
    then record st { projects = remove project_id st.projects }
    else record st { projects = insert project_id (remove_vm p vm_id) st.projects }

unfoldable pub rollback_alloc : NetState → ℕ → Text → NetState
rollback_alloc st project_id vm_id = elim (get project_id st.projects) [
  | none ↦ st
  | some p ↦ drop_vm st project_id p vm_id
]

-- `find_map` over the projects.
unfoldable pub find_owner : Text → Map ℕ ProjectState → Option ℕ
find_owner vm_id [] = none
find_owner vm_id ((pid, p) ∷ m) = if owns_vm p vm_id then some pid else find_owner vm_id m

abbrev pub setup_of : ProjectState → Ipv4Net → ℕ → ProjectSetup
setup_of p supernet prefix = record {
  bridge = p.bridge;
  gateway = p.gateway;
  subnet = subnet supernet p.subnet_index prefix;
  supernet = supernet;
}

abbrev pub release_plan : ProjectState → Text → Ipv4Net → ℕ → ReleasePlan
release_plan p vm_id supernet subnet_prefix = record {
  tap = for_vm vm_id;
  teardown =
      if is_empty (remove_vm p vm_id).vms then some (setup_of p supernet subnet_prefix) else none;
}

unfoldable pub release : NetState → Text → Ipv4Net → ℕ → Option (NetState × ReleasePlan)
release st vm_id supernet subnet_prefix = elim (find_owner vm_id st.projects) [
  | none ↦ none
  | some pid ↦ elim (get pid st.projects) [
    | none ↦ none
    | some p ↦ some (drop_vm st pid p vm_id, release_plan p vm_id supernet subnet_prefix)
  ]
]
