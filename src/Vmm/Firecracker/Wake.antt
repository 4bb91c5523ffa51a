-- ===== src/Vmm/Firecracker/Wake.antt =====
-- `ensure_started` of hostd/src/vmm/firecracker/vmm.rs up to the restore. The loop polls the VM every
-- 200 ms for 30 s; each poll sees the table as the other operations have left it, with the time.
use tikovm.Prelude.{
  ℕ, ◌+◌, leb, Option, none, some, List, [], ◌∷◌, Text, text_eq, get, insert, if◌then◌else◌, ok,
  err,
}
use tikovm.Error.{vmm, still_busy, cannot_wake}
use tikovm.Error
use tikovm.Vmm.VmState.{VmState, started, suspended, suspending, restoring}
use tikovm.Vmm.Firecracker.{FirecrackerVmm, entry_parts, begin_restore}

-- What one round of the loop does: it returns, starts a restore, or sleeps.
pub data Round : Type 0 where
  ready : Round
  restores : FirecrackerVmm → Round
  sleeps : Round
  fails : Error.Error → Round

abbrev pub restoring_round : Error.Result FirecrackerVmm → Round
restoring_round (ok f) = restores f
restoring_round (err e) = fails e

abbrev pub settling : VmState → ℕ → ℕ → Round
settling st now deadline = if leb deadline now then fails (vmm (still_busy st)) else sleeps

abbrev pub round_at : FirecrackerVmm → Text → VmState → ℕ → ℕ → Round
round_at f vm_id started now deadline = ready
round_at f vm_id suspended now deadline = restoring_round (begin_restore f vm_id)
round_at f vm_id suspending now deadline = settling suspending now deadline
round_at f vm_id restoring now deadline = settling restoring now deadline
round_at f vm_id st now deadline = fails (vmm (cannot_wake st))

unfoldable pub round : FirecrackerVmm → Text → ℕ → ℕ → Round
round f vm_id now deadline = elim (entry_parts f vm_id) [
  | err e ↦ fails e
  | ok i ↦ round_at f vm_id i.state now deadline
]

-- The rounds on the tables and times that the polls see; `none` if the tables run out.
unfoldable pub polls : List (FirecrackerVmm × ℕ) → Text → ℕ → Option Round
polls [] vm_id deadline = none
polls ((f, now) ∷ rest) vm_id deadline =
    let later = polls rest vm_id deadline in
    elim (round f vm_id now deadline) [
      | ready ↦ some ready
      | restores f' ↦ some (restores f')
      | sleeps ↦ later
      | fails e ↦ some (fails e)
    ]

-- The per-VM lock, then the loop with its deadline, in milliseconds.
unfoldable pub wake_lock : FirecrackerVmm → Text → FirecrackerVmm
wake_lock f vm_id = elim (get vm_id f.wake_locks) [
  | none ↦ record f { wake_locks = insert vm_id tt f.wake_locks }
  | some u ↦ f
]

unfoldable pub ensure_started : List (FirecrackerVmm × ℕ) → Text → ℕ → Option Round
ensure_started tables vm_id now = polls tables vm_id (now + 30000)
