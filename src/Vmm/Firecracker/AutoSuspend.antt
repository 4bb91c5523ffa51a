-- ===== src/Vmm/Firecracker/AutoSuspend.antt =====
-- hostd/src/vmm/firecracker/auto_suspend.rs: the gate of each automatic suspension, and the timer of
-- the proxied requests. Times are seconds on one clock that does not go back.
use tikovm.Prelude.{
  ℕ, ◌-◌, ltb, leb, Bool, true, false, Option, none, some, [], ◌∷◌, Text, text_eq, Map, get,
  is_empty, max, if◌then◌else◌, ok, err,
}
use tikovm.Vmm.VmState.{VmState, started, suspending}
use tikovm.Vmm.Config.{VmMode, permanent}
use tikovm.Vmm.Workload.{Workload, is_active}
use tikovm.Vmm.Activity.{in_flight, last_activity}
use tikovm.Vmm.Instance.{VmInstance}
use tikovm.Vmm.Firecracker.{FirecrackerVmm, FcVmEntry, begin}

abbrev pub any_active : Map Text Workload → Bool
any_active [] = false
any_active ((id, w) ∷ ws) = if is_active w then true else any_active ws

abbrev pub is_started : VmState → Bool
is_started started = true
is_started _ = false

abbrev pub is_permanent : VmMode → Bool
is_permanent permanent = true
is_permanent _ = false

-- Within the timeout after the wake.
abbrev pub cooling : Option ℕ → ℕ → ℕ → Bool
cooling none timeout now = false
cooling (some woken) timeout now = ltb (now - woken) timeout

-- The part of the gate under the lock of the table: the timeout, if the VM may be suspended.
unfoldable pub gate_timeout : FcVmEntry → VmInstance → Option ℕ
gate_timeout e i =
    if any_active e.workloads
    then none
    else if is_started i.state
    then if is_permanent i.vm_config.mode
      then elim i.vm_config.auto_suspend [ none ↦ none | some c ↦ some c.idle_timeout_secs ]
      else none
    else none

unfoldable pub auto_suspend_gate : FirecrackerVmm → Text → ℕ → Bool
auto_suspend_gate f vm_id now = elim (get vm_id f.vms) [
  | none ↦ false
  | some e ↦ elim (get vm_id f.instances) [
    | none ↦ false
    | some i ↦ elim (gate_timeout e i) [
      | none ↦ false
      | some timeout ↦
          if ltb 0 (in_flight f.activity vm_id)
          then false
          else if cooling (get vm_id f.wake_times) timeout now
          then false
          else true
    ]
  ]
]

-- `[last_activity, wake].into_iter().flatten().max()`.
abbrev pub latest : Option ℕ → Option ℕ → Option ℕ
latest none o = o
latest (some a) none = some a
latest (some a) (some b) = some (max a b)

abbrev pub elapsed : Option ℕ → ℕ → ℕ → Bool
elapsed none timeout now = false
elapsed (some last) timeout now = leb timeout (now - last)

unfoldable pub http_idle_expired : FirecrackerVmm → Text → ℕ → Bool
http_idle_expired f vm_id now = elim (get vm_id f.vms) [
  | none ↦ false
  | some e ↦ elim (get vm_id f.instances) [
    | none ↦ false
    | some i ↦ elim i.vm_config.auto_suspend [
      | none ↦ false
      | some c ↦
          if is_empty i.vm_config.network_config.exposed_ports
          then false
          else elapsed (latest (last_activity f.activity vm_id) (get vm_id f.wake_times))
              c.idle_timeout_secs now
    ]
  ]
]

-- `maybe_auto_suspend` up to its wait: the gate, then the start of the snapshot, whose refusal is
-- logged.
unfoldable pub maybe_auto_suspend : FirecrackerVmm → Text → ℕ → FirecrackerVmm
maybe_auto_suspend f vm_id now =
    if auto_suspend_gate f vm_id now
    then elim (begin f vm_id suspending) [ ok f' ↦ f' | err e ↦ f ]
    else f

-- One scan of the timers: the identifiers are those of the table when the scan starts.
unfoldable pub scan : FirecrackerVmm → Map Text FcVmEntry → ℕ → FirecrackerVmm
scan f [] now = f
scan f ((vm_id, e) ∷ rest) now =
    scan (if http_idle_expired f vm_id now then maybe_auto_suspend f vm_id now else f) rest now

unfoldable pub check_http_idle_vms : FirecrackerVmm → ℕ → FirecrackerVmm
check_http_idle_vms f now = scan f f.vms now
