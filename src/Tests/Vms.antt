-- ===== src/Tests/Vms.antt =====
-- A VM through its lifecycle.
use tikovm.Prelude.{
  if◌then◌else◌, List, ◌≤◌, nat_eq, Bool, true, false, none, some, [], ◌∷◌, Text, text_eq, text_beq,
  bytes, Map, get, insert, remove, ok, err, ◌≡◌, ◌↔◌, refl, ap, subst, ◌∙◌, arith, ◌⊎◌, inl, inr,
  Bool-cases,
}
use tikovm.Error
use tikovm.Error.{io, vmm}
use tikovm.Net.State.{NetState}
use tikovm.Net.Manager.{HostCall}
use tikovm.Vmm.VmState.{VmState, started, suspending, suspended, pausing, can_transition_to}
use tikovm.Vmm.Config.{VmConfig, permanent, AutoSuspendConfig}
use tikovm.Vmm.Workload.{Workload, WorkloadSpec, new, is_active, running, exited}
use tikovm.Vmm.Workload.History.{IsConsistent}
use tikovm.Vmm.Activity.{clear, in_flight}
use tikovm.Vmm.Activity.Counting.{Traffic, idle_clears, begins, ends, replay, in_flight-replay}
use tikovm.Vmm.Instance.{VmInstance, transition}
use tikovm.Vmm.Firecracker.{
  stop_process, park, FirecrackerVmm, FcVmEntry, entry_parts, find_entry, begin, no_such,
}
use tikovm.Vmm.Firecracker.Steps.{
  calls, kill, System, Step, Steps, Op, Reply, done, failed, start, pause, snapshot, state_of,
  begin_op, end_op, Matches, needs_process, stay, next,
}
use tikovm.Vmm.Firecracker.Steps
use tikovm.Vmm.Firecracker.Landing.{Waits, Landed, end_op-Landed}
use tikovm.Vmm.Firecracker.Invariant.{Inv}
use tikovm.Vmm.Firecracker.Reach.{Steps-Inv, one_at_a_time}
use tikovm.Vmm.Firecracker.Create.{Answers, validate, create_vm, destroy_vm}
use tikovm.Vmm.Firecracker.Registry.{Ended, create_vm-Ended}
use tikovm.Vmm.Firecracker.Lifetime.{Destroyed, create_vm-Inv, destroy_vm_lem}
use tikovm.Vmm.Firecracker.AutoSuspend.{auto_suspend_gate}
use tikovm.Vmm.Firecracker.Gate.{MayBeSuspended, gate_lem}
use tikovm.Vmm.Firecracker.Wake.{ensure_started}
use tikovm.Vmm.Firecracker.Waking.{Decides, ensure_started-Decides}
use tikovm.Vmm.Firecracker.Workloads.{
  get_workload, begin_stop, sent_stop, exited_in_guest, handle_guest_event, with_workload,
}
use tikovm.Vmm.Firecracker.Traffic.{AllConsistent, handle_guest_event-AllConsistent, stop_withdrawn}
use tikovm.Tests.Networks.{manager, closed, vm_a}

abbrev policy : AutoSuspendConfig
policy = record { idle_timeout_secs = 300; idle_check_cmd = []; check_interval_secs = 30 }

abbrev pub config : VmConfig
config = record {
  name = bytes "web";
  project_id = 7;
  mode = permanent;
  image = bytes "ubuntu-24";
  cpus = 1;
  memory_mb = 256;
  disk_size_mb = 1024;
  network_config = closed;
  ssh_access = false;
  env = [];
  cmd = [];
  services = [];
  cron_schedule = none;
  timeout_secs = none;
  tags = [];
  auto_suspend = some policy;
  block_storage = none;
}

abbrev pub instance_in : VmState → VmInstance
instance_in st = record {
  vm_id = vm_a;
  state = st;
  work_dir = [];
  socket_path = [];
  kernel_path = [];
  initramfs_path = [];
  boot_args = [];
  rootfs_path = [];
  overlay_disk = [];
  block_device = none;
  net = none;
  guest_cid = some 3;
  vsock_uds_path = [];
  snapshot = none;
  serial_log = [];
  error_log = [];
  created_at = 0;
  vm_config = config;
}

abbrev spec : WorkloadSpec
spec = record { cmd = bytes "serve" ∷ []; env = []; cwd = none }

abbrev pub wid : Text
wid = bytes "w-1"

abbrev pub job : Workload
job = record (new wid vm_a spec 5) { state = running; started_at = some 6 }

abbrev pub entry : Map Text Workload → FcVmEntry
entry ws = record { fc = some 4711; workloads = ws; guest_conn = none; workloads_dir = [] }

abbrev pub table : VmState → Map Text Workload → FirecrackerVmm
table st ws = record {
  assets_dir = [];
  work_dir = [];
  vms = (vm_a, entry ws) ∷ [];
  instances = (vm_a, instance_in st) ∷ [];
  net_mgr = manager;
  next_cid = 4;
  activity = [];
  wake_times = (vm_a, 100) ∷ [];
  wake_locks = [];
  schedule_run_locks = [];
  spawned = [];
}

abbrev system : System
system = record { vmm = table started []; waiting = [] }

system-Inv : Inv system
unfolding Inv get
system-Inv vm e h = elim (Bool-cases (text_beq vm_a vm)) [
  | inl p ↦
      (instance_in started, (rw p refl, (refl, (ground (arith, h, p), λ z. ground (arith, z)))))
  | inr p ↦ ground (arith, h, p)
]

pauses : begin_op system.vmm vm_a pause ≡ ok (table pausing [])
unfolding begin_op begin entry_parts find_entry transition can_transition_to get insert
pauses = refl

suspends : begin_op system.vmm vm_a snapshot ≡ ok (table suspending [])
unfolding begin_op begin entry_parts find_entry transition can_transition_to get insert
suspends = refl

abbrev killing_table : System
killing_table = record {
  vmm = stop_process (table suspending []) vm_a;
  waiting = insert vm_a kill (insert vm_a (calls snapshot) []);
}

abbrev parked_table : System
parked_table = record {
  vmm = (park (stop_process (table suspending []) vm_a) vm_a 200).0;
  waiting = remove vm_a (insert vm_a kill (insert vm_a (calls snapshot) []));
}

-- The VM is suspended, in three steps.
parked_system : Steps system parked_table
unfolding get insert
parked_system =
    next (Steps.begins vm_a snapshot suspends)
      (next (Steps.kills vm_a refl) (next (Steps.parks vm_a 200 refl) stay))

Steps-Inv_example : Inv parked_table
Steps-Inv_example = Steps-Inv parked_system system-Inv

-- In between it has no process, and is still being suspended.
no_process : get vm_a killing_table.vmm.vms ≡ some (record (entry []) { fc = none })
unfolding stop_process get insert
no_process = refl

one_at_a_time_example : get vm_a system.waiting ≡ none
one_at_a_time_example = one_at_a_time vm_a pause (table pausing []) stay system-Inv pauses

pause-Waits : Waits (table pausing []) vm_a pause (entry []) (instance_in pausing)
unfolding get
pause-Waits = ((refl, refl), (refl, (refl, λ z. ground (arith, z))))

end_op-Landed_example :
    Landed (end_op (table pausing []) vm_a pause (failed io 200)) vm_a pause (failed io 200)
end_op-Landed_example =
    end_op-Landed (table pausing []) vm_a pause (failed io 200) (entry []) (instance_in pausing)
      pause-Waits

gate_lem_example :
    auto_suspend_gate (table started []) vm_a 500 ≡ true
    ↔ MayBeSuspended (table started []) vm_a 500
gate_lem_example = gate_lem (table started []) vm_a 500

gate_opens : MayBeSuspended (table started []) vm_a 500
unfolding get in_flight
gate_opens = (
  entry [],
  (
    instance_in started,
    (
      policy,
      ((refl, refl), (refl, (refl, (refl, (refl, (refl, inr (100, (refl, omega arith)))))))),
    ),
  ),
)

abbrev works : HostCall → Error.Result (Unit {0})
works c = ok tt

abbrev writes : NetState → Error.Result (Unit {0})
writes st = ok tt

abbrev any_cron : Text → Bool
any_cron t = true

abbrev answers : Answers
answers = record {
  vm_id = bytes "vm-7-cccccc";
  now = 9;
  mkdir = ok tt;
  device = err io;
  spawn = ok 4712;
  configure = err io;
}

valid_config : validate any_cron config ≡ ok tt
unfolding validate
valid_config = refl

create_vm-Ended_example :
    Ended works writes
      (table started [])
      (create_vm works writes any_cron (table started []) config answers)
      (bytes "vm-7-cccccc")
create_vm-Ended_example = create_vm-Ended works writes any_cron (table started []) config answers

create_vm-Inv_example :
    Inv (record system { vmm = (create_vm works writes any_cron system.vmm config answers).0 })
unfolding get
create_vm-Inv_example = create_vm-Inv works writes any_cron system config answers refl system-Inv

destroy_vm_lem_example :
    ((get vm_a (table started []).vms ≡ none)
      × (destroy_vm works writes (table started []) vm_a ≡ (table started [], err (no_such vm_a))))
    ⊎ (((e : FcVmEntry) × (get vm_a (table started []).vms ≡ some e))
        × ((g : FirecrackerVmm) × ((destroy_vm works writes (table started []) vm_a ≡ (g, ok tt))
              × Destroyed works writes (table started []) vm_a g)))
destroy_vm_lem_example = destroy_vm_lem works writes (table started []) vm_a

ensure_started-Decides_example :
    Decides (ensure_started ((table suspending [], 200) ∷ (table suspended [], 30500) ∷ []) vm_a 0)
ensure_started-Decides_example =
    ensure_started-Decides ((table suspending [], 200) ∷ (table suspended [], 30500) ∷ []) vm_a 0
      refl

abbrev with_job : FirecrackerVmm
with_job = table started ((wid, job) ∷ [])

job-IsConsistent : IsConsistent job
unfolding is_active new
job-IsConsistent = ground arith

job_of : (w : Text) (x : Workload) → get w ((wid, job) ∷ []) ≡ some x → IsConsistent x
unfolding get
job_of w x k = elim (Bool-cases (text_beq wid w)) [
  | inl q ↦ subst IsConsistent (ground (arith, k, q)) job-IsConsistent
  | inr q ↦ ground (arith, k, q)
]

all_consistent : AllConsistent with_job
unfolding get
all_consistent vm w e x h k = elim (Bool-cases (text_beq vm_a vm)) [
  | inr p ↦ ground (arith, h, p)
  | inl p ↦
      let same : entry ((wid, job) ∷ []) ≡ e = ground (arith, h, p) in
      job_of w x (ap (λ y. get w y.workloads) same ∙ k)
]

handle_guest_event-AllConsistent_example :
    AllConsistent (handle_guest_event with_job vm_a (exited_in_guest wid (some 0) none) 20)
handle_guest_event-AllConsistent_example =
    handle_guest_event-AllConsistent with_job vm_a (exited_in_guest wid (some 0) none) 20
      all_consistent

abbrev stopping : FirecrackerVmm
stopping = table started ((wid, record job { stop_requested = true }) ∷ [])

stop_withdrawn_example :
    ((sent_stop stopping vm_a wid (err io)).1 ≡ err io)
    × (get_workload (sent_stop stopping vm_a wid (err io)).0 vm_a wid
        ≡ ok (record job { stop_requested = false }))
unfolding get_workload begin_stop with_workload find_entry get insert is_active new
stop_withdrawn_example = stop_withdrawn with_job stopping vm_a wid job io refl refl

abbrev ended_job : Workload
ended_job = record job { state = exited; exit_code = some 0; finished_at = some 9 }

abbrev traffic : List Traffic
traffic = begins vm_a 1 ∷ begins vm_a 2 ∷ ends vm_a 3 ∷ []

in_flight-replay_example :
    (in_flight (replay [] traffic) vm_a ≤ 1)
    × (((idle_clears (in_flight [] vm_a) vm_a traffic ≡ false)
          ⊎ (in_flight (replay [] traffic) vm_a ≡ 1))
        × ((v : Text)
            → in_flight (clear (replay [] traffic) vm_a) v
              ≡ (if text_beq vm_a v then 0 else in_flight (replay [] traffic) v)))
in_flight-replay_example =
    in_flight-replay [] vm_a traffic 1 (unfold in_flight in unfold get in refl)
