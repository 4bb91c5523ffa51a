-- ===== src/Storage/Manager.antt =====
-- hostd/src/storage/manager.rs: the workers of the volumes, and the task that respawns a worker that
-- dies. The task runs in steps, one for each thing that it waits for; the calls between waits hold the
-- lock of the workers. What is done to processes, devices and files is a list of actions.
pub mod Respawns
pub mod Attaching
use tikovm.Prelude.{
  ℕ, nat_eq, text_eq, ◌+◌, ◌-◌, ◌^◌, Bool, true, false, not, ◌&&◌, Option, none, some, List, [],
  ◌∷◌, ◌++◌, Text, bytes, leb, if◌then◌else◌, Map, get, insert, remove, show_decimal, ok, err,
}
use tikovm.Error.{storage}
use tikovm.Error

pub record WorkerEntry : Type 0 where
  pub dev_id : ℕ
  pub pid : ℕ
  pub volume_dir : Text
  pub respawns : ℕ

-- What `worker::spawn` returns; the child has no pid once it is reaped.
pub record WorkerHandle : Type 0 where
  pub dev_id : ℕ
  pub dev_path : Text
  pub child : Option ℕ

abbrev pub Workers : Type 0
Workers = Map Text WorkerEntry

-- `stop_worker` is `worker::stop`: it deletes the device, and kills the child if it lives.
pub data Action : Type 0 where
  spawn_monitor : Action
  stop_worker : ℕ → Action
  remove_volume : Text → Action
  kill : ℕ → Action
  delete_device : ℕ → Action
  respawn : ℕ → Text → Action

abbrev pub max_respawns : ℕ
max_respawns = 3

-- What the host answers to `attach`.
pub record Host : Type 0 where
  pub root_is_dir : Bool
  pub has_meta : Bool
  pub mkdir : Error.Result (Unit {0})
  pub spawned : Error.Result WorkerHandle
  pub formatted : Error.Result (Unit {0})

unfoldable pub volume_dir_of : Text → ℕ → Text → Text
volume_dir_of root project_id vm_id =
    root ++ (bytes "/proj-" ++ (show_decimal project_id ++ (b'/' ∷ vm_id)))

abbrev pub new_worker : WorkerHandle → ℕ → Text → WorkerEntry
new_worker h pid dir = record { dev_id = h.dev_id; pid = pid; volume_dir = dir; respawns = 0 }

abbrev pub Attached : Type 0
Attached = Workers × (Error.Result Text × List Action)

abbrev pub enter : Workers → Text → Text → WorkerHandle → Option ℕ → Error.Error → Attached
enter workers vm_id dir h none gone = (workers, (err gone, []))
enter workers vm_id dir h (some pid) gone =
    (insert vm_id (new_worker h pid dir) workers, (ok h.dev_path, spawn_monitor ∷ []))

-- A volume with no `meta.json` is new, and is formatted.
abbrev pub format :
    Workers → Text → Text → Bool → WorkerHandle → Error.Result (Unit {0}) → Error.Error → Attached
format workers vm_id dir true h (err e) gone =
    (workers, (err e, stop_worker h.dev_id ∷ remove_volume dir ∷ []))
format workers vm_id dir is_new h done gone = enter workers vm_id dir h h.child gone

abbrev pub spawned_worker :
    Workers → Text → Text → Host → Error.Result WorkerHandle → Error.Error → Attached
spawned_worker workers vm_id dir host (err e) gone = (workers, (err e, []))
spawned_worker workers vm_id dir host (ok h) gone =
    format workers vm_id dir (not host.has_meta) h host.formatted gone

abbrev pub made_volume :
    Workers → Text → Text → Host → Error.Result (Unit {0}) → Error.Error → Attached
made_volume workers vm_id dir host (err e) gone = (workers, (err e, []))
made_volume workers vm_id dir host (ok u) gone =
    spawned_worker workers vm_id dir host host.spawned gone

-- `no_root` and `gone` are the storage errors of a root that is missing and of a worker that has
-- exited.
unfoldable pub attach : Text → Workers → Text → ℕ → Host → Error.Error → Error.Error → Attached
attach root workers vm_id project_id host no_root gone =
    if host.root_is_dir
    then made_volume workers vm_id (volume_dir_of root project_id vm_id) host host.mkdir gone
    else (workers, (err no_root, []))

unfoldable pub detach : Workers → Text → Workers × List Action
detach workers vm_id = elim (get vm_id workers) [
  | none ↦ (workers, [])
  | some e ↦
      (remove vm_id workers, kill e.pid ∷ delete_device e.dev_id ∷ remove_volume e.volume_dir ∷ [])
]

-- The task: it waits for its child, it has read the entry and waits out the delay, it waits for the
-- worker that it spawns, or it has returned.
pub data Monitor : Type 0 where
  watching : Monitor
  backing_off respawning : ℕ → Text → Monitor
  stopped : Monitor

-- What the task waits for: the child's exit, the end of the delay, and the outcome of the respawn.
pub data Event : Type 0 where
  exited slept : Event
  respawned : Option ℕ → Event
  respawn_failed : Event

abbrev pub pid_or : Option ℕ → ℕ → ℕ
pid_or none p = p
pid_or (some q) p = q

abbrev pub Monitored : Type 0
Monitored = Workers × (Monitor × List Action)

abbrev pub on_exit : Workers → Option WorkerEntry → Monitored
on_exit workers none = (workers, (stopped, []))
on_exit workers (some e) =
    if leb max_respawns e.respawns
    then (workers, (stopped, []))
    else (workers, (backing_off e.dev_id e.volume_dir, []))

abbrev pub on_respawned : Workers → Text → ℕ → Option ℕ → Option WorkerEntry → Monitored
on_respawned workers vm_id dev_id pid none = (workers, (stopped, stop_worker dev_id ∷ []))
on_respawned workers vm_id dev_id pid (some e) = (
  insert vm_id (record e { pid = pid_or pid e.pid; respawns = e.respawns + 1 }) workers,
  (watching, []),
)

abbrev pub on_failed : Workers → Text → Option WorkerEntry → Monitored
on_failed workers vm_id none = (workers, (stopped, []))
on_failed workers vm_id (some e) = (
  insert vm_id (record e { respawns = e.respawns + 1 }) workers,
  ((if leb max_respawns (e.respawns + 1) then stopped else watching), []),
)

unfoldable pub monitor : Workers → Text → Monitor → Event → Monitored
monitor workers vm_id watching exited = on_exit workers (get vm_id workers)
-- The entry is not looked at between the delay and the spawn.
monitor workers vm_id (backing_off dev dir) slept =
    (workers, (respawning dev dir, respawn dev dir ∷ []))
monitor workers vm_id (respawning dev dir) (respawned pid) =
    on_respawned workers vm_id dev pid (get vm_id workers)
monitor workers vm_id (respawning dev dir) respawn_failed =
    on_failed workers vm_id (get vm_id workers)
monitor workers vm_id m event = (workers, (m, []))
