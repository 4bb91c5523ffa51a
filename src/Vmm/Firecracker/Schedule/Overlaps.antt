-- ===== src/Vmm/Firecracker/Schedule/Overlaps.antt =====
-- The runs of hostd/src/vmm/firecracker/schedule.rs over the life of the daemon.
use tikovm.Prelude.{
  ℕ, nat_eq, text_eq, ◌<◌, some, List, [], ◌∷◌, Text, text_beq, nat_beq, get, remove, contains_key,
  get-remove, get-insert, Option-cases, ◌≡◌, ◌⊎◌, inl, inr, arith, Bool-cases,
}
use tikovm.Vmm.Firecracker.Schedule.{
  ScheduleRunLocks, lock_for, try_lock, spawn_scheduled_run, finish_run, remove_lock,
}
use tikovm.Vmm.Firecracker.Schedule.Locks.{
  IsLocks, lock_for-IsLocks, Skipped, Begun, spawn_scheduled_run_lem,
}

-- What happens to the locks: a VM's schedule fires, the run with a lock ends, a VM is destroyed.
pub data Happening : Type 0 where
  fires : Text → Happening
  ends : ℕ → Happening
  destroyed : Text → Happening

unfoldable pub happen : ScheduleRunLocks → Happening → ScheduleRunLocks
happen l (fires vm_id) = (spawn_scheduled_run l vm_id).0
happen l (ends id) = finish_run l id
happen l (destroyed vm_id) = remove_lock l vm_id

unfoldable pub history : ScheduleRunLocks → List Happening → ScheduleRunLocks
history l [] = l
history l (h ∷ hs) = history (happen l h) hs

abbrev pub no_locks : ScheduleRunLocks
no_locks = record { locks = []; next = 0; held = [] }

pub no_locks-IsLocks : IsLocks no_locks
unfolding get
no_locks-IsLocks = record {
  apart = λ a b id p q. cc;
  named = λ a id p. cc;
  held_named = λ id p. ground (arith, p);
}

-- A lock that has a name may be taken.
try_lock-IsLocks :
    (l : ScheduleRunLocks) (id : ℕ) → IsLocks l → id < l.next → IsLocks (try_lock (l, id)).0
try_lock-IsLocks l id is lt = elim (Bool-cases (contains_key id l.held)) [
  | inl e ↦ rw e is
  | inr e ↦ rw e (record {
    apart = is.apart;
    named = is.named;
    held_named = λ i h. elim (Bool-cases (nat_beq id i)) [
      | inl q ↦ ground (arith, q, lt)
      | inr q ↦ is.held_named i (ground (arith, get-insert id i tt l.held, q, h))
    ];
  })
]

lock_for-named :
    (l : ScheduleRunLocks) (vm_id : Text)
    → IsLocks l
    → (lock_for l vm_id).1 < (lock_for l vm_id).0.next
unfolding lock_for
lock_for-named l vm_id is = elim (Option-cases (get vm_id l.locks)) [
  | inl e ↦ ground (arith, e)
  | inr (id, e) ↦ ground (arith, e, is.named vm_id id e)
]

pub happen-IsLocks : (l : ScheduleRunLocks) (h : Happening) → IsLocks l → IsLocks (happen l h)
unfolding happen spawn_scheduled_run finish_run remove_lock
happen-IsLocks l (fires vm_id) is =
    try_lock-IsLocks (lock_for l vm_id).0 (lock_for l vm_id).1 (lock_for-IsLocks l vm_id is)
      (lock_for-named l vm_id is)
happen-IsLocks l (ends id) is = record {
  apart = is.apart;
  named = is.named;
  held_named = λ i h. is.held_named i (ground (arith, get-remove id i l.held, h));
}
happen-IsLocks l (destroyed vm_id) is = record {
  apart = λ a b id p q. is.apart a b id (kept a id p) (kept b id q);
  named = λ a id p. is.named a id (kept a id p);
  held_named = is.held_named;
}
  where
    kept : (a : Text) (id : ℕ) → get a (remove vm_id l.locks) ≡ some id → get a l.locks ≡ some id
    kept a id p = elim (Bool-cases (text_beq vm_id a)) [
      | inl q ↦ ground (arith, get-remove vm_id a l.locks, q, p)
      | inr q ↦ ground (arith, get-remove vm_id a l.locks, q, p)
    ]

pub history-IsLocks :
    (l : ScheduleRunLocks) (hs : List Happening) → IsLocks l → IsLocks (history l hs)
unfolding history
history-IsLocks l [] is = is
history-IsLocks l (h ∷ hs) is = history-IsLocks (happen l h) hs (happen-IsLocks l h is)

-- Whatever has fired, ended and been destroyed since the daemon started, a fire of a VM whose run is
-- in progress under the VM's lock is skipped, and changes nothing; any other fire starts a run, and
-- leaves the runs of the other VMs alone.
pub no_overlap :
    (hs : List Happening) (vm_id : Text)
    → Skipped (history no_locks hs) vm_id (spawn_scheduled_run (history no_locks hs) vm_id)
      ⊎ Begun (history no_locks hs) vm_id (spawn_scheduled_run (history no_locks hs) vm_id)
no_overlap hs vm_id =
    spawn_scheduled_run_lem (history no_locks hs) vm_id
      (history-IsLocks no_locks hs no_locks-IsLocks)
