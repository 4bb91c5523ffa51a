-- ===== src/Vmm/Firecracker/Steps.antt =====
-- The lifecycle operations as they interleave: an operation starts, other operations start and end
-- while it waits, and it ends with the outcomes of its calls.
use tikovm.Prelude.{
  ℕ, Bool, true, false, Option, none, some, Text, Map, get, insert, remove, text_eq, ◌≡◌, ok, err,
}
use tikovm.Error
use tikovm.Vmm.VmState.{
  VmState, is_transitional, starting, pausing, resuming, suspending, restoring, suspended, started,
  created, paused,
}
use tikovm.Vmm.Firecracker.{
  FirecrackerVmm, begin, begin_restore, end_start, end_pause, end_resume, end_snapshot, end_restore,
  stop_process, park,
}

pub data Op : Type 0 where
  start pause resume snapshot restore : Op

-- The state that an instance stands in while the operation waits.
abbrev pub state_of : Op → VmState
state_of start = starting
state_of pause = pausing
state_of resume = resuming
state_of snapshot = suspending
state_of restore = restoring

-- The outcome of the calls of an operation, and the time at which it ends; the first number of
-- `done` is the process that a restore has spawned.
pub data Reply : Type 0 where
  done : ℕ → ℕ → Reply
  failed : Error.Error → ℕ → Reply

unfoldable pub begin_op : FirecrackerVmm → Text → Op → Error.Result FirecrackerVmm
begin_op f vm_id restore = begin_restore f vm_id
begin_op f vm_id op = begin f vm_id (state_of op)

unfoldable pub end_op :
    FirecrackerVmm → Text → Op → Reply → FirecrackerVmm × Error.Result (Unit {0})
end_op f vm_id start (done pid now) = end_start f vm_id (ok tt) now
end_op f vm_id start (failed e now) = end_start f vm_id (err e) now
end_op f vm_id pause (done pid now) = end_pause f vm_id (ok tt)
end_op f vm_id pause (failed e now) = end_pause f vm_id (err e)
end_op f vm_id resume (done pid now) = end_resume f vm_id (ok tt)
end_op f vm_id resume (failed e now) = end_resume f vm_id (err e)
end_op f vm_id snapshot (done pid now) = end_snapshot f vm_id (ok tt) now
end_op f vm_id snapshot (failed e now) = end_snapshot f vm_id (err e) now
end_op f vm_id restore (done pid now) = end_restore f vm_id (ok pid) now
end_op f vm_id restore (failed e now) = end_restore f vm_id (err e) now

-- What an operation waits for: its calls, or, in a snapshot after them, the end of the process that it
-- kills.
pub data Wait : Type 0 where
  calls : Op → Wait
  kill : Wait

-- The operation goes on to kill the process.
abbrev pub kills_process : Op → Reply → Bool
kills_process snapshot (done pid now) = true
kills_process op r = false

-- The table with the operations that wait.
pub record System : Type 0 where
  pub vmm : FirecrackerVmm
  pub waiting : Map Text Wait

-- The removal of the entry, the first thing that `destroy_vm` does. An operation that waits goes on.
abbrev pub forget : FirecrackerVmm → Text → FirecrackerVmm
forget f vm_id = record f { vms = remove vm_id f.vms }

pub data Step : System → System → Type 0 where
  begins :
      {s : System} (vm_id : Text) (op : Op) {f : FirecrackerVmm}
      → begin_op s.vmm vm_id op ≡ ok f
      → Step s (record { vmm = f; waiting = insert vm_id (calls op) s.waiting })
  ends :
      {s : System} (vm_id : Text) (op : Op) (r : Reply)
      → get vm_id s.waiting ≡ some (calls op)
      → kills_process op r ≡ false
      → Step s (record { vmm = (end_op s.vmm vm_id op r).0; waiting = remove vm_id s.waiting })
  kills :
      {s : System} (vm_id : Text)
      → get vm_id s.waiting ≡ some (calls snapshot)
      → Step s (record { vmm = stop_process s.vmm vm_id; waiting = insert vm_id kill s.waiting })
  parks :
      {s : System} (vm_id : Text) (now : ℕ)
      → get vm_id s.waiting ≡ some kill
      → Step s (record { vmm = (park s.vmm vm_id now).0; waiting = remove vm_id s.waiting })
  destroys : {s : System} (vm_id : Text) → Step s (record s { vmm = forget s.vmm vm_id })

pub data Steps : System → System → Type 0 where
  stay : {s : System} → Steps s s
  next : {s t u : System} → Step s t → Steps t u → Steps s u

-- What the state of an instance says of the operation that waits on it.
abbrev pub Matches : Option Wait → VmState → Type 0
Matches none st = is_transitional st ≡ false
Matches (some (calls op)) st = st ≡ state_of op
Matches (some kill) st = st ≡ suspending

-- A Firecracker process belongs to each state but these.
abbrev pub needs_process : VmState → Bool
needs_process suspended = false
needs_process restoring = false
needs_process _ = true

-- Whether there is a process, in a state and with what waits on it.
abbrev pub runs : Option Wait → VmState → Bool
runs (some kill) st = false
runs (some (calls op)) st = needs_process st
runs none st = needs_process st

-- Where the operation leaves the instance.
abbrev pub lands_in : Op → Reply → VmState
lands_in start (done pid now) = started
lands_in start (failed e now) = created
lands_in pause (done pid now) = paused
lands_in pause (failed e now) = started
lands_in resume (done pid now) = started
lands_in resume (failed e now) = paused
lands_in snapshot (done pid now) = suspended
lands_in snapshot (failed e now) = started
lands_in restore (done pid now) = started
lands_in restore (failed e now) = suspended

-- What the operation returns.
abbrev pub returns : Reply → Error.Result (Unit {0})
returns (done pid now) = ok tt
returns (failed e now) = err e
