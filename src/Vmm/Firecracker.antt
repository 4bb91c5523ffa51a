-- ===== src/Vmm/Firecracker.antt =====
-- hostd/src/vmm/firecracker/vmm.rs: the table of VMs and the lifecycle operations on it.
-- An operation that awaits Firecracker is two functions: what it does before it waits, and what it
-- does with the outcomes of its calls; a snapshot does that in two parts, since it waits for the
-- process that it kills. The instances are a store of their own, since an operation
-- that waits keeps its reference to the instance while the entry may be removed.
-- Poisoned locks are not modelled.
pub mod Steps
pub mod Frames
pub mod Landing
pub mod Began
pub mod Gone
pub mod Invariant
pub mod Reach
pub mod Create
pub mod Workloads
pub mod Schedule
pub mod AutoSuspend
pub mod Wake
pub mod Gate
pub mod Waking
pub mod Traffic
pub mod Registry
pub mod Lifetime
use tikovm.Prelude.{
  ℕ, Bool, true, false, Option, none, some, List, [], ◌∷◌, Text, bytes, Map, get, insert, text_eq,
  if◌then◌else◌, ok, err, ok_or, ◌>>=◌, is_empty,
}
use tikovm.Error.{vm_not_found, vmm, no_snapshot}
use tikovm.Error
use tikovm.Net.Manager.{NetworkManager}
use tikovm.Vmm.VmState.{
  VmState, creating, starting, started, created, pausing, paused, resuming, suspending, suspended,
  restoring,
}
use tikovm.Vmm.Config.{AutoSuspendConfig}
use tikovm.Vmm.Workload.{Workload}
use tikovm.Vmm.Activity.{ActivityTracker}
use tikovm.Vmm.Instance.{VmInstance, VmSnapshot, transition, new_snapshot, join}

-- `fc` is the process, by its number; `guest_conn` the connection, by a number of its own.
pub record FcVmEntry : Type 0 where
  pub fc : Option ℕ
  pub workloads : Map Text Workload
  pub guest_conn : Option ℕ
  pub workloads_dir : Text

-- Calls of the storage manager, and the tasks that connect to a guest.
pub data Spawned : Type 0 where
  attach detach arm : Text → Spawned

pub record FirecrackerVmm : Type 0 where
  pub assets_dir : Text
  pub work_dir : Text
  pub vms : Map Text FcVmEntry
  pub instances : Map Text VmInstance
  pub net_mgr : NetworkManager
  pub next_cid : ℕ
  pub activity : ActivityTracker
  pub wake_times : Map Text ℕ
  pub wake_locks : Map Text (Unit {0})
  pub schedule_run_locks : Map Text (Unit {0})
  pub spawned : List Spawned

abbrev pub no_such : Text → Error.Error
no_such vm_id = vm_not_found vm_id

unfoldable pub find_entry : FirecrackerVmm → Text → Error.Result FcVmEntry
find_entry f vm_id = ok_or (get vm_id f.vms) (no_such vm_id)

-- The instance behind the entry's reference.
unfoldable pub entry_parts : FirecrackerVmm → Text → Error.Result VmInstance
entry_parts f vm_id = find_entry f vm_id >>= λ e. ok_or (get vm_id f.instances) (no_such vm_id)

abbrev pub put_instance : FirecrackerVmm → Text → VmInstance → FirecrackerVmm
put_instance f vm_id i = record f { instances = insert vm_id i f.instances }

abbrev pub put_entry : FirecrackerVmm → Text → FcVmEntry → FirecrackerVmm
put_entry f vm_id e = record f { vms = insert vm_id e f.vms }

-- The prologue of an operation: the entry is looked up, and its instance moved to `next`.
unfoldable pub begin : FirecrackerVmm → Text → VmState → Error.Result FirecrackerVmm
begin f vm_id next = do
  i ← entry_parts f vm_id
  i' ← transition i next
  ok (put_instance f vm_id i')

abbrev pub Outcome : Type 0
Outcome = FirecrackerVmm × Error.Result (Unit {0})

abbrev moved : FirecrackerVmm → Text → Error.Result VmInstance → Outcome
moved f vm_id (ok i) = (put_instance f vm_id i, ok tt)
moved f vm_id (err e) = (f, err e)

-- `instance_ref.lock()?.state.transition(next)?` after the wait. The reference keeps the instance
-- alive, so that it is always there.
unfoldable pub set_state : FirecrackerVmm → Text → VmState → Outcome
set_state f vm_id next = elim (get vm_id f.instances) [
  | none ↦ (f, ok tt)
  | some i ↦ moved f vm_id (transition i next)
]

abbrev pub and_then : Outcome → (FirecrackerVmm → Outcome) → Outcome
and_then (f, ok u) k = k f
and_then (f, err e) k = (f, err e)

-- The error branch of an operation: a transition, then the error of the call.
unfoldable pub roll_back : FirecrackerVmm → Text → VmState → Error.Error → Outcome
roll_back f vm_id prior e = and_then (set_state f vm_id prior) (λ f'. (f', err e))

abbrev has_check : Option AutoSuspendConfig → Bool
has_check none = false
has_check (some c) = if is_empty c.idle_check_cmd then false else true

abbrev needs_arm : Option VmInstance → Bool
needs_arm none = false
needs_arm (some i) = has_check i.vm_config.auto_suspend

-- The task that connects to the guest is spawned where the VM has a check in the guest.
unfoldable pub arm_guest_detector : FirecrackerVmm → Text → FirecrackerVmm
arm_guest_detector f vm_id = elim (get vm_id f.vms) [
  | none ↦ f
  | some e ↦
      if needs_arm (get vm_id f.instances) then record f { spawned = arm vm_id ∷ f.spawned } else f
]

-- The VM has reached `Started`.
abbrev pub woken : FirecrackerVmm → Text → ℕ → Outcome
woken f vm_id now =
    (arm_guest_detector (record f { wake_times = insert vm_id now f.wake_times }) vm_id, ok tt)

-- The calls are `PUT /actions`, then the wait until the VM runs.
unfoldable pub end_start : FirecrackerVmm → Text → Error.Result (Unit {0}) → ℕ → Outcome
end_start f vm_id (ok u) now = and_then (set_state f vm_id started) (λ f'. woken f' vm_id now)
end_start f vm_id (err e) now = roll_back f vm_id created e

unfoldable pub end_pause : FirecrackerVmm → Text → Error.Result (Unit {0}) → Outcome
end_pause f vm_id (ok u) = set_state f vm_id paused
end_pause f vm_id (err e) = roll_back f vm_id started e

unfoldable pub end_resume : FirecrackerVmm → Text → Error.Result (Unit {0}) → Outcome
end_resume f vm_id (ok u) = set_state f vm_id started
end_resume f vm_id (err e) = roll_back f vm_id paused e

abbrev pub take_fc : Option FcVmEntry → Text → FirecrackerVmm → FirecrackerVmm
take_fc none vm_id f = f
take_fc (some e) vm_id f = put_entry f vm_id (record e { fc = none })

abbrev pub take_snapshot : Option VmInstance → Text → ℕ → FirecrackerVmm → FirecrackerVmm
take_snapshot none vm_id now f = f
take_snapshot (some i) vm_id now f =
    put_instance f vm_id (record i { snapshot = some (new_snapshot i now) })

-- After the calls of a snapshot the process is taken out of the entry, and killed.
unfoldable pub stop_process : FirecrackerVmm → Text → FirecrackerVmm
stop_process f vm_id = take_fc (get vm_id f.vms) vm_id f

-- After the wait for the killed process.
unfoldable pub park : FirecrackerVmm → Text → ℕ → Outcome
park f vm_id now = set_state (take_snapshot (get vm_id f.instances) vm_id now f) vm_id suspended

-- The calls are the pause and the creation of the snapshot; here nothing comes between the kill and
-- what follows it.
unfoldable pub end_snapshot : FirecrackerVmm → Text → Error.Result (Unit {0}) → ℕ → Outcome
end_snapshot f vm_id (ok u) now = park (stop_process f vm_id) vm_id now
end_snapshot f vm_id (err e) now = roll_back f vm_id started e

unfoldable pub begin_restore : FirecrackerVmm → Text → Error.Result FirecrackerVmm
begin_restore f vm_id = do
  i ← entry_parts f vm_id
  s ← ok_or i.snapshot (vmm no_snapshot)
  i' ← transition i restoring
  ok (put_instance f vm_id i')

-- The calls are the spawn of the process, which gives its number, the load of the snapshot and the
-- wait until the VM runs.
unfoldable pub end_restore : FirecrackerVmm → Text → Error.Result ℕ → ℕ → Outcome
end_restore f vm_id (ok pid) now = elim (get vm_id f.vms) [
  | none ↦ (f, err (no_such vm_id))
  | some e ↦
      and_then (set_state (put_entry f vm_id (record e { fc = some pid })) vm_id started)
        (λ f'. woken f' vm_id now)
]
end_restore f vm_id (err e) now = roll_back f vm_id suspended e
