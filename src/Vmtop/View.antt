-- ===== src/Vmtop/View.antt =====
-- vmtop/src/view.rs: a view, and the rows that the monitor shows.
pub mod Rows
pub mod Moves
pub mod Selection
pub mod Keys
pub mod Refreshes
pub mod Displayed
use tikovm.Prelude.{
  ℕ, zero, suc, nat_eq, text_eq, ◌+◌, ◌-◌, min, Bool, true, false, not, ◌||◌, ◌&&◌, Option, none,
  some, List, [], ◌∷◌, ◌++◌, Text, text_beq, nat_beq, ltb, leb, if◌then◌else◌, length, is_empty,
  Map, map,
}
use tikovm.Vmm.VmState.{VmState, created, started, paused, suspended, destroyed}
use tikovm.Vmtop.Model.{Vm, VmNet, matches}

pub data SortOrder : Type 0 where
  by_state by_name : SortOrder

pub data RowId : Type 0 where
  group : ℕ → RowId
  vm : ℕ → RowId

pub record StateCounts : Type 0 where
  pub total : ℕ
  pub started : ℕ
  pub paused : ℕ
  pub suspended : ℕ
  pub destroyed : ℕ
  pub other : ℕ

pub record Group : Type 0 where
  pub project_id : ℕ
  pub counts : StateCounts
  pub subnet : Option Text

pub record View : Type 0 where
  pub all : List Vm
  pub vms : List Vm
  pub groups : List Group
  pub rows : List RowId
  pub selected_id : Option Text
  pub selected_row : Option ℕ
  pub grouped : Bool
  pub sort : SortOrder
  pub filter : Text

abbrev pub state_rank : VmState → ℕ
state_rank started = 0
state_rank paused = 1
state_rank suspended = 2
state_rank created = 3
state_rank destroyed = 5
state_rank _ = 4

abbrev pub no_counts : StateCounts
no_counts = record { total = 0; started = 0; paused = 0; suspended = 0; destroyed = 0; other = 0 }

unfoldable pub add : StateCounts → VmState → StateCounts
add c started = record c { total = c.total + 1; started = c.started + 1 }
add c paused = record c { total = c.total + 1; paused = c.paused + 1 }
add c suspended = record c { total = c.total + 1; suspended = c.suspended + 1 }
add c destroyed = record c { total = c.total + 1; destroyed = c.destroyed + 1 }
add c _ = record c { total = c.total + 1; other = c.other + 1 }

-- The order of strings.
abbrev pub text_leb : Text → Text → Bool
text_leb [] t = true
text_leb (a ∷ s) [] = false
text_leb (a ∷ s) (b ∷ t) = ltb a b || (nat_beq a b && text_leb s t)

abbrev pub in_order : SortOrder → Vm → Vm → Bool
in_order by_name a b = text_leb a.vm_config.name b.vm_config.name
in_order by_state a b =
    ltb (state_rank a.state) (state_rank b.state)
    || (nat_beq (state_rank a.state) (state_rank b.state)
        && text_leb a.vm_config.name b.vm_config.name)

-- The stable sort of the library: an element goes before those that it is in order with.
unfoldable pub insert_vm : SortOrder → Vm → List Vm → List Vm
insert_vm order v [] = v ∷ []
insert_vm order v (w ∷ ws) =
    let rest = insert_vm order v ws in if in_order order v w then v ∷ w ∷ ws else w ∷ rest

unfoldable pub sort_vms : SortOrder → List Vm → List Vm
sort_vms order [] = []
sort_vms order (v ∷ vs) = insert_vm order v (sort_vms order vs)

unfoldable pub filter_vms : (Vm → Bool) → List Vm → List Vm
filter_vms keep [] = []
filter_vms keep (v ∷ vs) = let rest = filter_vms keep vs in if keep v then v ∷ rest else rest

-- The members of the projects, in the order of a `BTreeMap`.
abbrev pub Members : Type 0
Members = List (ℕ × List ℕ)

-- `entry(project_id).or_default().push(i)`.
unfoldable pub add_member : ℕ → ℕ → Members → Members
add_member project_id i [] = (project_id, i ∷ []) ∷ []
add_member project_id i ((p, is) ∷ m) =
    let rest = add_member project_id i m in
    if nat_beq project_id p
    then (p, is ++ (i ∷ [])) ∷ m
    else if ltb project_id p
    then (project_id, i ∷ []) ∷ (p, is) ∷ m
    else (p, is) ∷ rest

-- The loop over the VMs from the position `i` on.
unfoldable pub members : ℕ → List Vm → Members → Members
members i [] m = m
members i (v ∷ vs) m = members (suc i) vs (add_member v.vm_config.project_id i m)

unfoldable pub nth_vm : List Vm → ℕ → Option Vm
nth_vm [] i = none
nth_vm (v ∷ vs) zero = some v
nth_vm (v ∷ vs) (suc i) = nth_vm vs i

abbrev pub count_state : Option Vm → StateCounts → StateCounts
count_state none c = c
count_state (some v) c = add c v.state

unfoldable pub counts_of : List Vm → List ℕ → StateCounts → StateCounts
counts_of vms [] c = c
counts_of vms (i ∷ is) c = counts_of vms is (count_state (nth_vm vms i) c)

-- The subnet of a group is that of its first VM.
abbrev pub subnet_of_vm : Option Vm → Option Text
subnet_of_vm none = none
subnet_of_vm (some v) = elim v.net [ none ↦ none | some n ↦ some n.subnet ]

abbrev pub group_subnet : List Vm → List ℕ → Option Text
group_subnet vms [] = none
group_subnet vms (i ∷ is) = subnet_of_vm (nth_vm vms i)

unfoldable pub groups_of : List Vm → Members → List Group
groups_of vms [] = []
groups_of vms ((p, is) ∷ m) =
    record { project_id = p; counts = counts_of vms is no_counts; subnet = group_subnet vms is }
    ∷ groups_of vms m

-- The rows of the groups from the group `gi` on.
unfoldable pub rows_of : ℕ → Members → List RowId
rows_of gi [] = []
rows_of gi ((p, is) ∷ m) = group gi ∷ (map (λ i. vm i) is ++ rows_of (suc gi) m)

-- `0..len` without the groups.
unfoldable pub flat_rows : ℕ → List Vm → List RowId
flat_rows i [] = []
flat_rows i (v ∷ vs) = vm i ∷ flat_rows (suc i) vs

-- The positions of the VM rows, the first row having the position `at`.
unfoldable pub vm_rows : ℕ → List RowId → List ℕ
vm_rows at [] = []
vm_rows at (group g ∷ rows) = vm_rows (suc at) rows
vm_rows at (vm i ∷ rows) = at ∷ vm_rows (suc at) rows

abbrev pub has_id : Option Vm → Text → Bool
has_id none id = false
has_id (some v) id = text_beq v.vm_id id

abbrev pub is_row_of : List Vm → Text → RowId → Bool
is_row_of vms id (group g) = false
is_row_of vms id (vm i) = has_id (nth_vm vms i) id

unfoldable pub position_of : List Vm → Text → ℕ → List RowId → Option ℕ
position_of vms id at [] = none
position_of vms id at (row ∷ rows) =
    let rest = position_of vms id (suc at) rows in if is_row_of vms id row then some at else rest

unfoldable pub first_from : ℕ → List ℕ → Option ℕ
first_from prev [] = none
first_from prev (r ∷ rs) = let rest = first_from prev rs in if leb prev r then some r else rest
