-- ===== src/Tests/Schedules.antt =====
-- A VM with a schedule that fires every hour, and the wait for one of its runs.
use tikovm.Prelude.{
  true, false, List, text_eq, ◌+◌, ◌*◌, ◌/◌, Option, some, [], ◌∷◌, Text, bytes, get, ok, ◌≡◌, ◌↔◌,
  ◌⊎◌, inl, inr, refl, arith,
}
use tikovm.Error
use tikovm.Vmm.Config.{schedule}
use tikovm.Vmm.VmState.{started}
use tikovm.Vmm.Workload.{is_active, exited}
use tikovm.Vmm.Firecracker.{FirecrackerVmm, find_entry}
use tikovm.Vmm.Firecracker.Workloads.{get_workload}
use tikovm.Vmm.Firecracker.Schedule.{
  ScheduleRunLocks, spawn_due, Schedule, fire_due_schedules, run_ticks, parse_cron_schedule,
  spawn_scheduled_run, await_workload, await_stopped, settled,
}
use tikovm.Vmm.Firecracker.Schedule.Ticks.{
  IsSchedule, FiresIn, RunsBy, Among, Serves, FirstCollects, fire_due_schedules_lem, run_ticks-fire,
}
use tikovm.Vmm.Firecracker.Schedule.Locks.{running, Skipped, Begun}
use tikovm.Vmm.Firecracker.Schedule.Overlaps.{
  Happening, fires, ends, destroyed, history, no_locks, no_overlap,
}
use tikovm.Vmm.Firecracker.Schedule.Launches.{OneOf, spawn_due_lem}
use tikovm.Vmm.Firecracker.Schedule.Waits.{SeesEnded, TimesOut, await_workload-ended}
use tikovm.Tests.Vms.{table, instance_in, config, entry, job, wid}
use tikovm.Tests.Networks.{vm_a}

abbrev hourly : Schedule
hourly t = some ((t / 3600 + 1) * 3600)

abbrev from_str : Text → Option Schedule
from_str t = some hourly

hourly-IsSchedule : IsSchedule hourly
hourly-IsSchedule = record {
  ahead = λ t u h. ground (arith, h);
  first = λ t s u h le lt. ground (arith, h, le, lt);
  over = λ t s h le. cc;
}

abbrev timed : FirecrackerVmm
timed = record (table started []) {
  instances =
      (
        vm_a,
        record (instance_in started) {
          vm_config = record config { mode = schedule; cron_schedule = some (bytes "0 * * * *") };
        },
      )
      ∷ [];
}

timed-RunsBy : RunsBy from_str timed vm_a hourly
unfolding get parse_cron_schedule
timed-RunsBy = (
  record (instance_in started) {
    vm_config = record config { mode = schedule; cron_schedule = some (bytes "0 * * * *") };
  },
  (bytes "0 * * * *", (refl, (refl, (refl, refl)))),
)

fire_due_schedules_lem_example :
    Among from_str vm_a (fire_due_schedules from_str timed 7000 7201) ↔ FiresIn hourly 7000 7201
fire_due_schedules_lem_example =
    fire_due_schedules_lem from_str timed vm_a (entry []) hourly 7000 7201 hourly-IsSchedule
      (unfold get in refl) timed-RunsBy

run_ticks-fire_example :
    Serves from_str vm_a hourly 7000
      ((timed, 7100) ∷ (timed, 7300) ∷ [])
      (run_ticks from_str 7000 ((timed, 7100) ∷ (timed, 7300) ∷ []))
    × FirstCollects from_str vm_a 7200
        ((timed, 7100) ∷ (timed, 7300) ∷ [])
        (run_ticks from_str 7000 ((timed, 7100) ∷ (timed, 7300) ∷ []))
run_ticks-fire_example =
    run_ticks-fire from_str vm_a hourly 7000 7200 ((timed, 7100) ∷ (timed, 7300) ∷ [])
      hourly-IsSchedule
      (
        ((entry [], unfold get in refl), timed-RunsBy),
        (((entry [], unfold get in refl), timed-RunsBy), tt),
      )
      (7000, refl) (omega arith) (inr (inl (omega arith)))

-- Two VMs fire, the run of the first ends, and the other is destroyed while it runs.
abbrev past_runs : List Happening
past_runs = fires vm_a ∷ fires (bytes "vm-2") ∷ ends 0 ∷ destroyed (bytes "vm-2") ∷ []

no_overlap_example :
    Skipped
      (history no_locks past_runs)
      vm_a
      (spawn_scheduled_run (history no_locks past_runs) vm_a)
    ⊎ Begun
        (history no_locks past_runs)
        vm_a
        (spawn_scheduled_run (history no_locks past_runs) vm_a)
no_overlap_example = no_overlap past_runs vm_a

-- A tick has collected two VMs, of which one runs already.
abbrev collected : List Text
collected = vm_a ∷ bytes "vm-2" ∷ []

abbrev busy_locks : ScheduleRunLocks
busy_locks = history no_locks (fires (bytes "vm-2") ∷ [])

spawn_due_lem_example :
    (OneOf vm_a (spawn_due busy_locks collected).1
      ↔ (OneOf vm_a collected × (running busy_locks vm_a ≡ false)))
    × ((running (spawn_due busy_locks collected).0 vm_a ≡ true)
        ↔ ((running busy_locks vm_a ≡ true) ⊎ OneOf vm_a collected))
spawn_due_lem_example = spawn_due_lem (fires (bytes "vm-2") ∷ []) vm_a collected

abbrev busy : FirecrackerVmm
busy = table started ((wid, job) ∷ [])

abbrev idle : FirecrackerVmm
idle = table started ((wid, record job { state = exited }) ∷ [])

abbrev sent : Error.Result (Unit {0})
sent = ok tt

stopped_run :
    await_workload ((busy, 3) ∷ (busy, 61) ∷ (busy, 62) ∷ (idle, 64) ∷ []) vm_a wid (some 60) sent
    ≡ some (settled true)
unfolding await_workload await_stopped get_workload find_entry get is_active
stopped_run = refl

await_workload-ended_example :
    SeesEnded ((busy, 3) ∷ (busy, 61) ∷ (busy, 62) ∷ (idle, 64) ∷ []) vm_a wid
    × ((true ≡ false)
        ⊎ ((true ≡ true)
            × (TimesOut ((busy, 3) ∷ (busy, 61) ∷ (busy, 62) ∷ (idle, 64) ∷ []) vm_a wid (some 60)
                × (sent ≡ ok tt))))
await_workload-ended_example =
    await_workload-ended ((busy, 3) ∷ (busy, 61) ∷ (busy, 62) ∷ (idle, 64) ∷ []) vm_a wid (some 60)
      sent true stopped_run
