-- ===== src/Tests/Views.antt =====
-- The monitor's view of two VMs of two projects.
use tikovm.Prelude.{
  ℕ, text_eq, ◌||◌, true, false, none, some, List, [], ◌∷◌, Text, bytes, is_empty, ap, ◌≡◌, refl,
  inl, inr,
}
use tikovm.Vmm.VmState.{VmState, started, suspended}
use tikovm.Vmm.Config.{permanent}
use tikovm.Vmtop.Model.{Vm, matches}
use tikovm.Vmtop.View.{
  View, by_state, by_name, vm, sort_vms, insert_vm, filter_vms, add_member, members, rows_of,
  flat_rows, groups_of, vm_rows, position_of, first_from, nth_vm,
}
use tikovm.Vmtop.View.Moves.{
  down, new_view, repin_selection, selected_vm, stamp_selected, move_selected, nth_row, rebuild,
  update, set_sort, set_grouped, toggle_grouped,
}
use tikovm.Vmtop.View.Keys.{Key, polled, moved, sorted, group_toggled, press, press_all}
use tikovm.Vmtop.View.Displayed.{last_poll, last_filter, Displays, press_all-Displays}
use tikovm.Vmtop.View.Refreshes.{update_kept}

abbrev lower : Text → Text
lower t = t

abbrev show_ip : ℕ → Text
show_ip n = []

abbrev shown_vm : Text → Text → ℕ → VmState → Vm
shown_vm id name project_id st = record {
  vm_id = id;
  state = st;
  net = none;
  snapshot = none;
  created_at = 0;
  vm_config = record {
    name = name;
    project_id = project_id;
    mode = permanent;
    image = bytes "ubuntu-24";
    cpus = 1;
    memory_mb = 512;
    disk_size_mb = 1024;
    tags = [];
    exposed_ports = [];
    auto_suspend = none;
    block_storage = none;
  };
}

abbrev web : Vm
web = shown_vm (bytes "vm-1") (bytes "web") 7 started

abbrev db : Vm
db = shown_vm (bytes "vm-2") (bytes "db") 3 suspended

abbrev start_view : View
start_view = new_view true by_state

abbrev keys : List Key
keys = polled (web ∷ db ∷ []) ∷ moved (down 1) ∷ group_toggled ∷ sorted by_name ∷ []

press_all-Displays_example :
    Displays lower show_ip
      (press_all lower show_ip start_view keys)
      (last_poll [] keys)
      (last_filter [] keys)
press_all-Displays_example = press_all-Displays lower show_ip true by_state keys

-- The move has selected the VM in the second group, which is the first by its name.
moved_rows : (press_all lower show_ip start_view keys).rows ≡ vm 0 ∷ vm 1 ∷ []
unfolding press_all press update new_view move_selected repin_selection selected_vm stamp_selected
    rebuild sort_vms insert_vm filter_vms add_member members rows_of flat_rows groups_of vm_rows
    position_of first_from nth_row nth_vm set_sort set_grouped toggle_grouped
moved_rows = refl

abbrev moved_view : View
moved_view = press_all lower show_ip start_view (polled (web ∷ db ∷ []) ∷ moved (down 1) ∷ [])

selects_web : moved_view.selected_id ≡ some (bytes "vm-1")
unfolding press_all press update new_view move_selected repin_selection selected_vm stamp_selected
    rebuild sort_vms insert_vm filter_vms add_member members rows_of groups_of vm_rows position_of
    first_from nth_row nth_vm
selects_web = refl

no_filter : moved_view.filter ≡ []
unfolding press_all press update new_view move_selected repin_selection stamp_selected rebuild
    vm_rows sort_vms insert_vm filter_vms add_member members rows_of groups_of
no_filter = refl

update_kept_example :
    (y : Vm) × ((selected_vm
          (update lower show_ip moved_view (db ∷ record web { state = suspended } ∷ []))
        ≡ some y)
      × (y.vm_id ≡ bytes "vm-1"))
update_kept_example =
    update_kept lower show_ip moved_view (db ∷ record web { state = suspended } ∷ [])
      (record web { state = suspended }) selects_web (inr (inl refl))
      (ap (λ t. is_empty t || matches lower show_ip (record web { state = suspended }) t) no_filter)

-- A selection that no move has made is not kept: it is on the row and not on the VM.
abbrev polled_view : View
polled_view = press_all lower show_ip (new_view false by_state) (polled (db ∷ []) ∷ [])

first_selected : selected_vm polled_view ≡ some db
unfolding press_all press update new_view repin_selection selected_vm rebuild sort_vms insert_vm
    filter_vms flat_rows vm_rows first_from nth_row nth_vm
first_selected = refl

then_selected : selected_vm (update lower show_ip polled_view (db ∷ web ∷ [])) ≡ some web
unfolding press_all press update new_view repin_selection selected_vm rebuild sort_vms insert_vm
    filter_vms flat_rows vm_rows first_from nth_row nth_vm
then_selected = refl
