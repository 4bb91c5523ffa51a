-- ===== src/Vmtop/View/Moves.antt =====
-- vmtop/src/view.rs: the selection, and what an update, a key or a change of the settings does to a
-- view.
use tikovm.Prelude.{
  ℕ, zero, suc, nat_eq, text_eq, ◌+◌, ◌-◌, min, Bool, true, false, not, ◌||◌, Option, none, some,
  List, [], ◌∷◌, Text, text_beq, nat_beq, if◌then◌else◌, length, is_empty,
}
use tikovm.Vmtop.Model.{Vm, matches}
use tikovm.Vmtop.View.{
  RowId, SortOrder, StateCounts, View, add, by_name, by_state, filter_vms, first_from, flat_rows,
  groups_of, members, no_counts, nth_vm, position_of, rows_of, sort_vms, vm, vm_rows,
}

abbrev pub head_of : List ℕ → Option ℕ
head_of [] = none
head_of (r ∷ rs) = some r

abbrev pub fallback_row : Option ℕ → List ℕ → Option ℕ
fallback_row none rs = head_of rs
fallback_row (some prev) rs = elim (first_from prev rs) [ some r ↦ some r | none ↦ head_of rs ]

abbrev pub wanted_row : View → Option Text → Option ℕ
wanted_row v none = none
wanted_row v (some id) = position_of v.vms id 0 v.rows

-- The row that is selected, from the VM rows, the wanted row and the row before.
abbrev pub pinned_row : List ℕ → Option ℕ → Option ℕ → Option ℕ
pinned_row [] wanted prev = none
pinned_row (r ∷ rs) (some found) prev = some found
pinned_row (r ∷ rs) none prev = fallback_row prev (r ∷ rs)

unfoldable pub repin_selection : View → View
repin_selection v = record v {
  selected_row = pinned_row (vm_rows 0 v.rows) (wanted_row v v.selected_id) v.selected_row;
}

unfoldable pub new_view : Bool → SortOrder → View
new_view grouped sort = record {
  all = [];
  vms = [];
  groups = [];
  rows = [];
  selected_id = none;
  selected_row = none;
  grouped = grouped;
  sort = sort;
  filter = [];
}

unfoldable pub nth_row : List RowId → ℕ → Option RowId
nth_row [] r = none
nth_row (row ∷ rows) zero = some row
nth_row (row ∷ rows) (suc r) = nth_row rows r

abbrev pub vm_of_row : List Vm → Option RowId → Option Vm
vm_of_row vms (some (vm i)) = nth_vm vms i
vm_of_row vms row = none

abbrev pub vm_at : View → Option ℕ → Option Vm
vm_at v none = none
vm_at v (some r) = vm_of_row v.vms (nth_row v.rows r)

unfoldable pub selected_vm : View → Option Vm
selected_vm v = vm_at v v.selected_row

unfoldable pub stamp_selected : View → View
stamp_selected v = record v {
  selected_id = elim (selected_vm v) [ none ↦ none | some x ↦ some x.vm_id ];
}

abbrev pub select : View → ℕ → View
select v r = stamp_selected (record v { selected_row = some r })

-- Where a row stands among the VM rows.
abbrev pub index_of : ℕ → List ℕ → Option ℕ
index_of r [] = none
index_of r (s ∷ rs) =
    if nat_beq s r then some 0 else elim (index_of r rs) [ none ↦ none | some i ↦ some (suc i) ]

abbrev pub index_or : Option ℕ → List ℕ → ℕ
index_or none rs = 0
index_or (some r) rs = elim (index_of r rs) [ none ↦ 0 | some i ↦ i ]

abbrev pub row_or : List ℕ → ℕ → ℕ → ℕ
row_or [] i r = r
row_or (s ∷ rs) zero r = s
row_or (s ∷ rs) (suc i) r = row_or rs i r

-- A move by a signed number of rows.
pub data Delta : Type 0 where
  down up : ℕ → Delta

abbrev pub clamped : ℕ → Delta → ℕ → ℕ
clamped cur (down n) last = min (cur + n) last
clamped cur (up n) last = min (cur - n) last

abbrev pub move_among : View → Delta → List ℕ → View
move_among v delta [] = v
move_among v delta (r ∷ rs) =
    select v (row_or (r ∷ rs) (clamped (index_or v.selected_row (r ∷ rs)) delta (length rs)) r)

unfoldable pub move_selected : View → Delta → View
move_selected v delta = move_among v delta (vm_rows 0 v.rows)

abbrev pub select_first : View → List ℕ → View
select_first v [] = v
select_first v (r ∷ rs) = select v r

abbrev pub last_of : ℕ → List ℕ → ℕ
last_of r [] = r
last_of r (s ∷ rs) = last_of s rs

abbrev pub select_last : View → List ℕ → View
select_last v [] = v
select_last v (r ∷ rs) = select v (last_of r rs)

unfoldable pub jump_first : View → View
jump_first v = select_first v (vm_rows 0 v.rows)

unfoldable pub jump_last : View → View
jump_last v = select_last v (vm_rows 0 v.rows)

unfoldable pub host_counts : View → StateCounts
host_counts v = go v.all no_counts
  where
    go : List Vm → StateCounts → StateCounts
    go [] c = c
    go (x ∷ xs) c = go xs (add c x.state)

abbrev pub same_sort : SortOrder → SortOrder → Bool
same_sort by_state by_state = true
same_sort by_name by_name = true
same_sort a b = false

module _ (lower : Text → Text) (show_ip : ℕ → Text) where
  abbrev pub visible : View → List Vm
  visible v =
      sort_vms v.sort
        (filter_vms (λ x. is_empty v.filter || matches lower show_ip x v.filter) v.all)

  -- The rows of the VMs that are visible, and their groups.
  abbrev pub laid_out : View → List Vm → View
  laid_out v vms =
      let m = members 0 vms [] in
      if v.grouped
      then record v { vms = vms; groups = groups_of vms m; rows = rows_of 0 m }
      else record v { vms = vms; groups = []; rows = flat_rows 0 vms }

  unfoldable pub rebuild : View → View
  rebuild v = repin_selection (laid_out v (visible v))

  unfoldable pub update : View → List Vm → View
  update v vms = rebuild (record v { all = vms })

  unfoldable pub set_filter : View → Text → View
  set_filter v filter =
      if text_beq v.filter filter then v else rebuild (record v { filter = filter })

  unfoldable pub clear_filter : View → View
  clear_filter v = if is_empty v.filter then v else rebuild (record v { filter = [] })

  unfoldable pub set_grouped : View → Bool → View
  set_grouped v true = if v.grouped then v else rebuild (record v { grouped = true })
  set_grouped v false = if v.grouped then rebuild (record v { grouped = false }) else v

  unfoldable pub toggle_grouped : View → View
  toggle_grouped v = set_grouped v (not v.grouped)

  unfoldable pub set_sort : View → SortOrder → View
  set_sort v sort = if same_sort v.sort sort then v else rebuild (record v { sort = sort })
