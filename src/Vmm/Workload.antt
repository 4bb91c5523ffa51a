-- ===== src/Vmm/Workload.antt =====
-- hostd/src/vmm/workload.rs: a workload and what the events of the guest do to it. Times are
-- arguments; exit codes and signals are the numbers that the guest sends.
pub mod History
use tikovm.Prelude.{ℕ, Bool, true, false, Option, none, some, List, Text, if◌then◌else◌}
use tikovm.Vmm.Config.{EnvVar}

pub record WorkloadSpec : Type 0 where
  pub cmd : List Text
  pub env : List EnvVar
  pub cwd : Option Text

pub data WorkloadState : Type 0 where
  starting running exited stopped failed : WorkloadState

pub data WorkloadOrigin : Type 0 where
  api schedule : WorkloadOrigin

pub record Workload : Type 0 where
  pub workload_id : Text
  pub vm_id : Text
  pub spec : WorkloadSpec
  pub state : WorkloadState
  pub origin : WorkloadOrigin
  pub pid : Option ℕ
  pub exit_code : Option ℕ
  pub signal : Option ℕ
  pub created_at : ℕ
  pub started_at : Option ℕ
  pub finished_at : Option ℕ
  pub stop_requested : Bool

unfoldable pub new : Text → Text → WorkloadSpec → ℕ → Workload
new workload_id vm_id spec now = record {
  workload_id = workload_id;
  vm_id = vm_id;
  spec = spec;
  state = starting;
  origin = api;
  pid = none;
  exit_code = none;
  signal = none;
  created_at = now;
  started_at = none;
  finished_at = none;
  stop_requested = false;
}

abbrev active_state : WorkloadState → Bool
active_state starting = true
active_state running = true
active_state _ = false

unfoldable pub is_active : Workload → Bool
is_active w = active_state w.state

abbrev confirm : WorkloadState → Workload → ℕ → Workload
confirm starting w now = record w { state = running; started_at = some now }
confirm _ w now = w

abbrev with_pid : Workload → Option ℕ → Workload
with_pid w none = w
with_pid w (some pid) = record w { pid = some pid }

unfoldable pub mark_running : Workload → Option ℕ → ℕ → Workload
mark_running w pid now = with_pid (confirm w.state w now) pid

unfoldable pub mark_finished : Workload → Option ℕ → Option ℕ → ℕ → Workload
unfolding is_active
mark_finished w exit_code signal now =
    if is_active w
    then record w {
      state = if w.stop_requested then stopped else exited;
      exit_code = exit_code;
      signal = signal;
      finished_at = some now;
    }
    else w

unfoldable pub mark_failed : Workload → ℕ → Workload
unfolding is_active
mark_failed w now = if is_active w then record w { state = failed; finished_at = some now } else w
