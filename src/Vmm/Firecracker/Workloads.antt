-- ===== src/Vmm/Firecracker/Workloads.antt =====
-- The workloads and the exposed ports of a VM: those operations of hostd/src/vmm/firecracker/vmm.rs,
-- and the events of hostd/src/vmm/firecracker/guest.rs. The log files are not modelled.
use tikovm.Prelude.{
  ℕ, true, false, Option, none, some, List, [], ◌∷◌, Text, bytes, text_eq, text_beq, Map, get,
  insert, remove, is_empty, not, if◌then◌else◌, ok, err, ok_or, ensure, ◌>>=◌, ◌>>◌,
}
use tikovm.Error.{
  vmm, empty_workload_cmd, needs_started_vm, workload_not_active, workload_not_found,
}
use tikovm.Error
use tikovm.Net.Types.{ExposedPort, NetworkConfig}
use tikovm.Net.Types
use tikovm.Vmm.Workload.{
  Workload, WorkloadSpec, is_active, mark_running, mark_finished, mark_failed,
}
use tikovm.Vmm.Instance.{VmInstance}
use tikovm.Vmm.Firecracker.{
  FirecrackerVmm, FcVmEntry, find_entry, entry_parts, put_entry, put_instance,
}
use tikovm.Vmm.Firecracker.AutoSuspend.{is_started}

-- The checks of `start_workload` before it connects to the guest.
unfoldable pub check_start_workload : FirecrackerVmm → Text → WorkloadSpec → Error.Result (Unit {0})
check_start_workload f vm_id spec = do
  ensure (not (is_empty spec.cmd)) (vmm empty_workload_cmd)
  i ← entry_parts f vm_id
  ensure (is_started i.state) (vmm (needs_started_vm i.state))

abbrev with_workloads : FcVmEntry → Map Text Workload → FcVmEntry
with_workloads e ws = record e { workloads = ws }

-- The workload is registered before the request is sent.
unfoldable pub register_workload : FirecrackerVmm → Text → Workload → Error.Result FirecrackerVmm
register_workload f vm_id w = do
  e ← find_entry f vm_id
  ok (put_entry f vm_id (with_workloads e (insert w.workload_id w e.workloads)))

abbrev drop_workload : FirecrackerVmm → Text → Text → FirecrackerVmm
drop_workload f vm_id wid = elim (get vm_id f.vms) [
  | none ↦ f
  | some e ↦ put_entry f vm_id (with_workloads e (remove wid e.workloads))
]

-- After the request: where it cannot be sent, the workload is taken out again.
unfoldable pub sent_start :
    FirecrackerVmm
    → Text
    → Workload
    → Error.Result (Unit {0})
    → FirecrackerVmm × Error.Result Workload
sent_start f vm_id w (ok u) = (f, ok w)
sent_start f vm_id w (err e) = (drop_workload f vm_id w.workload_id, err e)

-- `with_workload_mut`.
unfoldable pub with_workload : FirecrackerVmm → Text → Text → (Workload → Workload) → FirecrackerVmm
with_workload f vm_id wid g = elim (get vm_id f.vms) [
  | none ↦ f
  | some e ↦ elim (get wid e.workloads) [
    | none ↦ f
    | some w ↦ put_entry f vm_id (with_workloads e (insert wid (g w) e.workloads))
  ]
]

unfoldable pub get_workload : FirecrackerVmm → Text → Text → Error.Result Workload
get_workload f vm_id wid = do
  e ← find_entry f vm_id
  ok_or (get wid e.workloads) (workload_not_found wid)

abbrev pub request_stop : Workload → Workload
request_stop w = record w { stop_requested = true }

abbrev pub withdraw_stop : Workload → Workload
withdraw_stop w = record w { stop_requested = false }

-- `stop_workload` with a connection, up to the send.
unfoldable pub begin_stop : FirecrackerVmm → Text → Text → Error.Result FirecrackerVmm
begin_stop f vm_id wid = do
  w ← get_workload f vm_id wid
  ensure (is_active w) (vmm workload_not_active)
  ok (with_workload f vm_id wid request_stop)

unfoldable pub sent_stop :
    FirecrackerVmm → Text → Text → Error.Result (Unit {0}) → FirecrackerVmm × Error.Result Workload
sent_stop f vm_id wid (ok u) = (f, get_workload f vm_id wid)
sent_stop f vm_id wid (err e) = (with_workload f vm_id wid withdraw_stop, err e)

-- A row of guestd's table.
pub record Info : Type 0 where
  pub workload_id : Text
  pub state : Text
  pub exit_code : Option ℕ
  pub signal : Option ℕ

-- The output of a workload goes to its log file, and `idle` to the loop of the suspensions.
pub data GuestEvent : Type 0 where
  started_in_guest : Text → ℕ → GuestEvent
  output : Text → GuestEvent
  exited_in_guest : Text → Option ℕ → Option ℕ → GuestEvent
  guest_error : Option Text → GuestEvent
  list_result : List Info → GuestEvent
  idle : GuestEvent

abbrev pub settle : Info → ℕ → Workload → Workload
settle info now w =
    if text_beq info.state (bytes "running")
    then mark_running w none now
    else if text_beq info.state (bytes "exited")
    then mark_finished w info.exit_code info.signal now
    else w

abbrev pub settle_all : FirecrackerVmm → Text → List Info → ℕ → FirecrackerVmm
settle_all f vm_id [] now = f
settle_all f vm_id (info ∷ infos) now =
    settle_all (with_workload f vm_id info.workload_id (settle info now)) vm_id infos now

unfoldable pub handle_guest_event : FirecrackerVmm → Text → GuestEvent → ℕ → FirecrackerVmm
handle_guest_event f vm_id (started_in_guest wid pid) now =
    with_workload f vm_id wid (λ w. mark_running w (some pid) now)
handle_guest_event f vm_id (output wid) now = f
handle_guest_event f vm_id (exited_in_guest wid code signal) now =
    with_workload f vm_id wid (λ w. mark_finished w code signal now)
handle_guest_event f vm_id (guest_error none) now = f
handle_guest_event f vm_id (guest_error (some wid)) now =
    with_workload f vm_id wid (λ w. mark_failed w now)
handle_guest_event f vm_id (list_result infos) now = settle_all f vm_id infos now
handle_guest_event f vm_id idle now = f

abbrev with_network : VmInstance → NetworkConfig → VmInstance
with_network i net = record i { vm_config = record i.vm_config { network_config = net } }

unfoldable pub list_exposed_ports : FirecrackerVmm → Text → Error.Result (List ExposedPort)
list_exposed_ports f vm_id = do i ← entry_parts f vm_id; ok i.vm_config.network_config.exposed_ports

unfoldable pub add_exposed_port : FirecrackerVmm → Text → ExposedPort → Error.Result FirecrackerVmm
add_exposed_port f vm_id port = do
  i ← entry_parts f vm_id
  net ← Types.add_exposed_port i.vm_config.network_config vm_id port
  ok (put_instance f vm_id (with_network i net))

unfoldable pub remove_exposed_port : FirecrackerVmm → Text → ℕ → Error.Result FirecrackerVmm
remove_exposed_port f vm_id port = do
  i ← entry_parts f vm_id
  net ← Types.remove_exposed_port i.vm_config.network_config vm_id port
  ok (put_instance f vm_id (with_network i net))
