-- ===== src/Tests/Networks.antt =====
-- Two projects on 10.0.0.0/16 with subnets of 256 addresses.
use tikovm.Prelude.{
  retain, find_range, ℕ, ◌<◌, nat_eq, false, ◌&&◌, nat_beq, none, some, [], ◌∷◌, ◌++◌, Text, bytes,
  length, get, insert, ok, err, if◌then◌else◌, ◌≡◌, refl, arith, show_decimal,
}
use tikovm.Error
use tikovm.Error.{Error, io}
use tikovm.Net.{ifnamsiz_max}
use tikovm.Net.Cidr.{Ipv4Net, size, host, subnet, subnet_count}
use tikovm.Net.Cidr.Bounds.{IsNet, IsSubnetPrefix}
use tikovm.Net.Types.{vm_net, ExposedPort, NetworkConfig, for_vm}
use tikovm.Net.Types.Laws.{for_vm_too_long}
use tikovm.Net.State.{
  remove_vm, drop_vm, find_owner, release_plan, alloc_new, alloc_existing, free_index,
  lowest_free_ip, owns_vm, NetState, ProjectState, AllocPlan, empty, alloc, release, rollback_alloc,
  first_project, first_plan, more_plan, with_vm,
}
use tikovm.Net.State.Invariant.{Inv, empty-Inv}
use tikovm.Net.State.Holder.{holder, alloc-Inv, alloc-holder}
use tikovm.Net.State.Release.{Released, release_lem, alloc-rollback}
use tikovm.Net.Manager.{HostCall, missing, NetworkManager, allocate, apply_alloc}
use tikovm.Net.Manager.Outcomes.{IsManager, allocate-IsManager, allocate_rolled_back, allocate_leak}

abbrev pub supernet : Ipv4Net
supernet = record { addr = 167772160; prefix = 16 }

abbrev pub vm_a : Text
vm_a = bytes "vm-7-aaaaaa"

abbrev pub vm_b : Text
vm_b = bytes "vm-7-bbbbbb"

pub supernet-IsNet : IsNet supernet
unfolding size
supernet-IsNet = record { positive = omega arith; short = omega arith; fits = omega arith }

pub supernet-IsSubnetPrefix : IsSubnetPrefix supernet 24
supernet-IsSubnetPrefix = record { longer = omega arith; usable = omega arith }

abbrev first_state : NetState
first_state = record { projects = insert 7 (first_project 7 vm_a supernet 24 0) [] }

abbrev plan_a : AllocPlan
plan_a = first_plan 7 (for_vm vm_a) supernet 24 0

first_alloc : alloc empty 7 vm_a (for_vm vm_a) supernet 24 ≡ ok (first_state, plan_a)
unfolding alloc alloc_new alloc_existing free_index find_range lowest_free_ip subnet subnet_count
    size host show_decimal get insert owns_vm vm_net for_vm
first_alloc = refl

alloc-Inv_example : Inv supernet 24 first_state
alloc-Inv_example =
    alloc-Inv supernet-IsNet supernet-IsSubnetPrefix empty first_state 7 vm_a (for_vm vm_a) plan_a
      (empty-Inv supernet 24) first_alloc

abbrev second_state : NetState
second_state = record {
  projects =
      insert 7 (with_vm (first_project 7 vm_a supernet 24 0) 167772163 vm_b) first_state.projects;
}

abbrev plan_b : AllocPlan
plan_b = more_plan (first_project 7 vm_a supernet 24 0) 167772163 (for_vm vm_b) supernet 24

second_alloc : alloc first_state 7 vm_b (for_vm vm_b) supernet 24 ≡ ok (second_state, plan_b)
unfolding alloc alloc_new alloc_existing free_index find_range lowest_free_ip subnet subnet_count
    size host show_decimal get insert owns_vm vm_net for_vm
second_alloc = refl

abbrev pub address_b : ℕ
address_b = 167772163

second-Inv : Inv supernet 24 second_state
second-Inv =
    alloc-Inv supernet-IsNet supernet-IsSubnetPrefix first_state second_state 7 vm_b (for_vm vm_b)
      plan_b alloc-Inv_example second_alloc

alloc-holder_example :
    ((j : ℕ) → holder first_state j address_b ≡ none)
    × ((j ip : ℕ)
        → holder second_state j ip
          ≡ (if nat_beq 7 j && nat_beq address_b ip then some vm_b else holder first_state j ip))
unfolding vm_net
alloc-holder_example =
    alloc-holder supernet-IsNet supernet-IsSubnetPrefix first_state second_state 7 vm_b
      (for_vm vm_b) plan_b alloc-Inv_example second_alloc

alloc-rollback_example :
    holder (rollback_alloc second_state 7 vm_b) 7 address_b ≡ holder first_state 7 address_b
alloc-rollback_example =
    alloc-rollback supernet-IsNet supernet-IsSubnetPrefix first_state second_state 7 vm_b
      (for_vm vm_b) plan_b alloc-Inv_example second_alloc 7 address_b

held_b : holder second_state 7 address_b ≡ some vm_b
unfolding alloc alloc_new alloc_existing free_index find_range lowest_free_ip subnet subnet_count
    size host show_decimal get insert owns_vm vm_net for_vm
held_b = refl

-- A host that does its part, and one that does not; a file that is written, and one that is not.
abbrev works : HostCall → Error.Result (Unit {0})
works c = ok tt

abbrev broken : HostCall → Error.Result (Unit {0})
broken c = err io

abbrev writes : NetState → Error.Result (Unit {0})
writes st = ok tt

abbrev full : NetState → Error.Result (Unit {0})
full st = err io

abbrev pub manager : NetworkManager
manager = record {
  state = empty;
  supernet = supernet;
  subnet_prefix = 24;
  saved = missing;
  calls = [];
}

pub manager-IsManager : IsManager manager
manager-IsManager = record {
  net = supernet-IsNet;
  prefix = supernet-IsSubnetPrefix;
  inv = empty-Inv supernet 24;
}

allocate-IsManager_example : IsManager (allocate broken writes manager 7 vm_a (for_vm vm_a)).0
allocate-IsManager_example =
    allocate-IsManager broken writes manager 7 vm_a (for_vm vm_a) manager-IsManager

host_fails : (apply_alloc broken writes (record manager { state = first_state }) plan_a).1 ≡ err io
unfolding apply_alloc
host_fails = refl

host_works : (apply_alloc works full (record manager { state = first_state }) plan_a).1 ≡ ok tt
unfolding apply_alloc
host_works = refl

allocate_rolled_back_example :
    ((allocate broken writes manager 7 vm_a (for_vm vm_a)).1 ≡ err io)
    × ((j ip : ℕ)
        → holder (allocate broken writes manager 7 vm_a (for_vm vm_a)).0.state j ip
          ≡ holder empty j ip)
allocate_rolled_back_example =
    allocate_rolled_back broken writes manager 7 vm_a (for_vm vm_a) first_state plan_a io
      manager-IsManager first_alloc host_fails

allocate_leak_example :
    ((allocate works full manager 7 vm_a (for_vm vm_a)).1 ≡ err io)
    × (holder (allocate works full manager 7 vm_a (for_vm vm_a)).0.state 7 plan_a.vm_net.guest_ip
        ≡ some vm_a)
allocate_leak_example =
    allocate_leak works full manager 7 vm_a (for_vm vm_a) first_state plan_a io manager-IsManager
      first_alloc host_works refl

for_vm_too_long_example :
    ifnamsiz_max
    < length (for_vm (bytes "vm-" ++ (show_decimal 12345 ++ (bytes "-" ++ bytes "k7m2pq"))))
for_vm_too_long_example = for_vm_too_long 12345 (bytes "k7m2pq") (omega arith) refl

abbrev project_ab : ProjectState
project_ab = with_vm (first_project 7 vm_a supernet 24 0) address_b vm_b

abbrev third_state : NetState
third_state = record { projects = insert 7 (remove_vm project_ab vm_b) second_state.projects }

release_b :
    release second_state vm_b supernet 24
    ≡ some (third_state, release_plan project_ab vm_b supernet 24)
unfolding release find_owner owns_vm drop_vm remove_vm retain get insert host subnet
release_b = refl

release_lem_example :
    Inv supernet 24 third_state
    × ((pid : ℕ) × (p : ProjectState) × Released supernet 24 second_state third_state vm_b
          (release_plan project_ab vm_b supernet 24)
          pid
          p)
release_lem_example =
    release_lem second_state third_state vm_b (release_plan project_ab vm_b supernet 24) second-Inv
      release_b

abbrev web : ExposedPort
web = record { port = 8080; label = [] }

abbrev db : ExposedPort
db = record { port = 5432; label = [] }

abbrev pub closed : NetworkConfig
closed = record {
  allow_internet = false;
  exposed_ports = web ∷ [];
  egress = [];
  public_access = false;
}

abbrev opened : NetworkConfig
opened = record closed { exposed_ports = web ∷ db ∷ [] }
