-- ===== src/Vmm/Firecracker/Schedule.antt =====
-- hostd/src/vmm/firecracker/schedule.rs: which VMs a tick of the scheduler runs, the locks that keep
-- the runs of one VM apart, and a run, cut at the places where it waits. The cron library is an
-- argument: it reads an expression, and gives the first time after a time at which it fires.
pub mod Ticks
pub mod Locks
pub mod Overlaps
pub mod Launches
pub mod Waits
use tikovm.Prelude.{
  ℕ, zero, suc, nat_eq, text_eq, ◌+◌, ◌-◌, Bool, true, false, not, ◌||◌, ◌&&◌, Option, none, some,
  List, [], ◌∷◌, ◌++◌, Text, bytes, nat_beq, ltb, leb, if◌then◌else◌, Map, get, insert, remove,
  contains_key, ok, err,
}
use tikovm.Error.{vmm, cannot_run_scheduled, vm_not_found}
use tikovm.Error
use tikovm.Vmm.VmState.{VmState, suspended, created, started}
use tikovm.Vmm.Config.{VmMode, schedule, VmConfig}
use tikovm.Vmm.Workload.{Workload, WorkloadSpec, is_active}
use tikovm.Vmm.Workload
use tikovm.Vmm.Instance.{VmInstance}
use tikovm.Vmm.Firecracker.{FirecrackerVmm, FcVmEntry, entry_parts}
use tikovm.Vmm.Firecracker.Workloads.{with_workload, get_workload}

-- A schedule: the first time at which it fires after a time.
abbrev pub Schedule : Type 0
Schedule = ℕ → Option ℕ

-- `char::is_whitespace` on ASCII.
abbrev pub is_space : ℕ → Bool
is_space c = nat_beq c 32 || (leb 9 c && leb c 13)

unfoldable pub trim_start : Text → Text
trim_start [] = []
trim_start (c ∷ t) = if is_space c then trim_start t else c ∷ t

abbrev pub snoc_trimmed : ℕ → Text → Text
snoc_trimmed c [] = if is_space c then [] else c ∷ []
snoc_trimmed c (d ∷ t) = c ∷ d ∷ t

unfoldable pub trim_end : Text → Text
trim_end [] = []
trim_end (c ∷ t) = snoc_trimmed c (trim_end t)

-- The words after a byte that was white space or not.
unfoldable pub count_words : Bool → Text → ℕ
count_words blank [] = 0
count_words blank (c ∷ t) =
    let rest = count_words (is_space c) t in if blank && not (is_space c) then suc rest else rest

unfoldable pub normalized : Text → Text
normalized expr =
    let trimmed = trim_end (trim_start expr) in
    if nat_beq (count_words true trimmed) 5 then bytes "0 " ++ trimmed else trimmed

module _ (from_str : Text → Option Schedule) where
  unfoldable pub parse_cron_schedule : Text → Option Schedule
  parse_cron_schedule expr = from_str (normalized expr)

  abbrev pub fires_by : Option ℕ → ℕ → Bool
  fires_by none now = false
  fires_by (some fire) now = leb fire now

  abbrev pub is_schedule : VmMode → Bool
  is_schedule schedule = true
  is_schedule _ = false

  -- A VM whose cron fires after the last tick, and by now.
  abbrev pub cron_due : Option Text → ℕ → ℕ → Bool
  cron_due none last_tick now = false
  cron_due (some expr) last_tick now = elim (parse_cron_schedule expr) [
    | none ↦ false
    | some after ↦ fires_by (after last_tick) now
  ]

  unfoldable pub is_due : Option VmInstance → ℕ → ℕ → Bool
  is_due none last_tick now = false
  is_due (some i) last_tick now =
      is_schedule i.vm_config.mode && cron_due i.vm_config.cron_schedule last_tick now

  unfoldable pub due_vms : FirecrackerVmm → Map Text FcVmEntry → ℕ → ℕ → List Text
  due_vms f [] last_tick now = []
  due_vms f ((vm_id, e) ∷ vms) last_tick now =
      let rest = due_vms f vms last_tick now in
      if is_due (get vm_id f.instances) last_tick now then vm_id ∷ rest else rest

  -- The VMs that a tick collects, for each of which it then calls `spawn_scheduled_run`.
  unfoldable pub fire_due_schedules : FirecrackerVmm → ℕ → ℕ → List Text
  fire_due_schedules f last_tick now = due_vms f f.vms last_tick now

  -- The loop on the times of its ticks, with a table at each: what each tick collects.
  unfoldable pub run_ticks : ℕ → List (FirecrackerVmm × ℕ) → List (List Text)
  run_ticks last_tick [] = []
  run_ticks last_tick ((f, now) ∷ ticks) = fire_due_schedules f last_tick now ∷ run_ticks now ticks

-- The locks by their names; a lock that a run holds is in `held`.
pub record ScheduleRunLocks : Type 0 where
  pub locks : Map Text ℕ
  pub next : ℕ
  pub held : Map ℕ (Unit {0})

unfoldable pub lock_for : ScheduleRunLocks → Text → ScheduleRunLocks × ℕ
lock_for l vm_id = elim (get vm_id l.locks) [
  | some id ↦ (l, id)
  | none ↦ (record l { locks = insert vm_id l.next l.locks; next = l.next + 1 }, l.next)
]

unfoldable pub remove_lock : ScheduleRunLocks → Text → ScheduleRunLocks
remove_lock l vm_id = record l { locks = remove vm_id l.locks }

abbrev pub try_lock : ScheduleRunLocks × ℕ → ScheduleRunLocks × Option ℕ
try_lock (l, id) =
    if contains_key id l.held then (l, none) else (record l { held = insert id tt l.held }, some id)

-- The lock that the new run holds, or none if a run is in progress.
unfoldable pub spawn_scheduled_run : ScheduleRunLocks → Text → ScheduleRunLocks × Option ℕ
spawn_scheduled_run l vm_id = try_lock (lock_for l vm_id)

abbrev pub started_with : Option ℕ → Text → List Text → List Text
started_with none vm_id runs = runs
started_with (some id) vm_id runs = vm_id ∷ runs

-- The loop of a tick over the VMs that it has collected, with the VMs for which a run starts.
unfoldable pub spawn_due : ScheduleRunLocks → List Text → ScheduleRunLocks × List Text
spawn_due l [] = (l, [])
spawn_due l (vm_id ∷ due) =
    let first = spawn_scheduled_run l vm_id in
    let rest = spawn_due first.0 due in (rest.0, started_with first.1 vm_id rest.1)

-- The guard of a run is dropped.
unfoldable pub finish_run : ScheduleRunLocks → ℕ → ScheduleRunLocks
finish_run l id = record l { held = remove id l.held }

abbrev pub state_of_instance : Option FcVmEntry → Option VmInstance → Option VmState
state_of_instance none i = none
state_of_instance (some e) none = none
state_of_instance (some e) (some i) = some i.state

unfoldable pub vm_state : FirecrackerVmm → Text → Option VmState
vm_state f vm_id = state_of_instance (get vm_id f.vms) (get vm_id f.instances)

-- What a run does first: it restores the VM, starts it, or goes on.
pub data Waking : Type 0 where
  ensure start go_on : Waking

unfoldable pub waking : Option VmState → Option Waking
waking (some suspended) = some ensure
waking (some created) = some start
waking (some started) = some go_on
waking st = none

-- The workload of a run, from the configuration.
abbrev pub scheduled_spec : VmConfig → WorkloadSpec
scheduled_spec c = record { cmd = c.cmd; env = c.env; cwd = none }

abbrev pub mark_scheduled : Workload → Workload
mark_scheduled w = record w { origin = Workload.schedule }

unfoldable pub tag_workload : FirecrackerVmm → Text → Text → FirecrackerVmm
tag_workload f vm_id wid = with_workload f vm_id wid mark_scheduled

-- What a poll of `await_workload` does.
pub data Poll : Type 0 where
  finished : Poll
  stops : Poll
  waits : Poll
  lost : Error.Error → Poll

abbrev pub past : Option ℕ → ℕ → Bool
past none elapsed = false
past (some timeout) elapsed = leb timeout elapsed

abbrev pub poll_workload : Option ℕ → ℕ → Error.Result Workload → Poll
poll_workload timeout elapsed (err e) = lost e
poll_workload timeout elapsed (ok w) =
    if not (is_active w) then finished else if past timeout elapsed then stops else waits

-- The result of the wait, and whether the workload was told to stop.
pub data Awaited : Type 0 where
  settled : Bool → Awaited
  failed : Error.Error → Awaited
  stop_failed : Error.Error → Awaited

-- The polls after the stop.
unfoldable pub await_stopped : List (FirecrackerVmm × ℕ) → Text → Text → Option Awaited
await_stopped [] vm_id wid = none
await_stopped ((f, elapsed) ∷ polls) vm_id wid =
    let later = await_stopped polls vm_id wid in
    elim (poll_workload none elapsed (get_workload f vm_id wid)) [
      | finished ↦ some (settled true)
      | stops ↦ later
      | waits ↦ later
      | lost e ↦ some (failed e)
    ]

abbrev pub stopped_then : Error.Result (Unit {0}) → Option Awaited → Option Awaited
stopped_then (err e) later = some (stop_failed e)
stopped_then (ok u) later = later

-- The loop on the tables and the seconds that the polls see, with the outcome of `stop_workload`;
-- `none` if the polls run out.
unfoldable pub await_workload :
    List (FirecrackerVmm × ℕ) → Text → Text → Option ℕ → Error.Result (Unit {0}) → Option Awaited
await_workload [] vm_id wid timeout stop = none
await_workload ((f, elapsed) ∷ polls) vm_id wid timeout stop =
    let later = await_workload polls vm_id wid timeout stop in
    elim (poll_workload timeout elapsed (get_workload f vm_id wid)) [
      | finished ↦ some (settled false)
      | stops ↦ stopped_then stop (await_stopped polls vm_id wid)
      | waits ↦ later
      | lost e ↦ some (failed e)
    ]

-- After the run, whatever its outcome: the VM is suspended if it is started.
unfoldable pub suspends_after : FirecrackerVmm → Text → Bool
suspends_after f vm_id = elim (vm_state f vm_id) [ some started ↦ true | _ ↦ false ]
