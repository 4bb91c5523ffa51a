-- ===== src/Storage/Manager/Respawns.antt =====
-- The task that respawns a worker of hostd/src/storage/manager.rs, while volumes come and go.
use tikovm.Prelude.{
  ℕ, suc, nat_eq, text_eq, ◌+◌, ◌-◌, ◌≤◌, Option, none, some, List, [], ◌∷◌, ◌++◌, Text, text_beq,
  text_beq_iff, leb, if◌then◌else◌, get, insert, get-insert, get-remove, ◌≡◌, inl, inr, refl, ap,
  arith, Bool-cases, Option-cases,
}
use tikovm.Storage.Manager.{
  WorkerEntry, Workers, Action, spawn_monitor, stop_worker, remove_volume, kill, delete_device,
  respawn, max_respawns, detach, Monitor, watching, respawning, backing_off, stopped, Event, exited,
  slept, respawned, respawn_failed, pid_or, monitor,
}

-- What happens while the task of one VM lives: its own steps, and other volumes that are attached and
-- detached. No VM identifier is used twice.
pub data Move : Type 0 where
  step : Event → Move
  detached : Text → Move
  attached : Text → WorkerEntry → Move

abbrev pub Run : Type 0
Run = Workers × (Monitor × List Action)

unfoldable pub make_move : Text → Workers → Monitor → Move → Run
make_move vm_id workers m (step event) = monitor workers vm_id m event
make_move vm_id workers m (detached other) = let r = detach workers other in (r.0, (m, r.1))
make_move vm_id workers m (attached other e) =
    ((if text_beq other vm_id then workers else insert other e workers), (m, []))

-- The actions of a run, in their order.
unfoldable pub run_moves : Text → Workers → Monitor → List Move → Run
run_moves vm_id workers m [] = (workers, (m, []))
run_moves vm_id workers m (move ∷ moves) =
    let now = make_move vm_id workers m move in
    let later = run_moves vm_id now.0 now.1.0 moves in (later.0, (later.1.0, now.1.1 ++ later.1.1))

abbrev pub respawn_count : List Action → ℕ
respawn_count [] = 0
respawn_count (respawn d dir ∷ actions) = suc (respawn_count actions)
respawn_count (action ∷ actions) = respawn_count actions

respawn_count-append :
    (xs ys : List Action) → respawn_count (xs ++ ys) ≡ respawn_count xs + respawn_count ys
respawn_count-append [] ys = omega arith
respawn_count-append (respawn d dir ∷ xs) ys = omega (arith, respawn_count-append xs ys)
respawn_count-append (spawn_monitor ∷ xs) ys = respawn_count-append xs ys
respawn_count-append (stop_worker d ∷ xs) ys = respawn_count-append xs ys
respawn_count-append (remove_volume d ∷ xs) ys = respawn_count-append xs ys
respawn_count-append (kill p ∷ xs) ys = respawn_count-append xs ys
respawn_count-append (delete_device d ∷ xs) ys = respawn_count-append xs ys

-- The respawns that the task may still start.
abbrev budget : Option WorkerEntry → Monitor → ℕ
budget none (backing_off d dir) = 1
budget none m = 0
budget (some e) watching = max_respawns - e.respawns
budget (some e) (backing_off d dir) = suc (max_respawns - e.respawns - 1)
budget (some e) (respawning d dir) = max_respawns - e.respawns - 1
budget (some e) stopped = 0

-- The budget covers what a step of the task does.
abbrev Covered : Text → Option WorkerEntry → Monitor → Run → Type 0
Covered vm_id before m r = respawn_count r.1.1 + budget (get vm_id r.0) r.1.0 ≤ budget before m

step-Covered :
    (vm_id : Text) (workers : Workers) (m : Monitor) (event : Event) (o : Option WorkerEntry)
    → get vm_id workers ≡ o
    → Covered vm_id o m (monitor workers vm_id m event)
unfolding monitor
step-Covered vm_id workers watching exited none h = ground (arith, h)
step-Covered vm_id workers watching exited (some e) h =
    elim (Bool-cases (leb max_respawns e.respawns)) [
      | inl t ↦ ground (arith, h, t)
      | inr t ↦ ground (arith, h, t)
    ]
step-Covered vm_id workers watching slept o h = ground (arith, h)
step-Covered vm_id workers watching (respawned pid) o h = ground (arith, h)
step-Covered vm_id workers watching respawn_failed o h = ground (arith, h)
step-Covered vm_id workers (backing_off dev dir) slept none h = ground (arith, h)
step-Covered vm_id workers (backing_off dev dir) slept (some e) h = ground (arith, h)
step-Covered vm_id workers (backing_off dev dir) exited o h = ground (arith, h)
step-Covered vm_id workers (backing_off dev dir) (respawned pid) o h = ground (arith, h)
step-Covered vm_id workers (backing_off dev dir) respawn_failed o h = ground (arith, h)
step-Covered vm_id workers (respawning dev dir) exited o h = ground (arith, h)
step-Covered vm_id workers (respawning dev dir) slept o h = ground (arith, h)
step-Covered vm_id workers (respawning dev dir) (respawned pid) none h = ground (arith, h)
step-Covered vm_id workers (respawning dev dir) (respawned pid) (some e) h = ground (
  arith,
  h,
  get-insert vm_id vm_id (record e { pid = pid_or pid e.pid; respawns = e.respawns + 1 }) workers,
  text_beq_iff vm_id vm_id,
)
step-Covered vm_id workers (respawning dev dir) respawn_failed none h = ground (arith, h)
step-Covered vm_id workers (respawning dev dir) respawn_failed (some e) h =
    let same = get-insert vm_id vm_id (record e { respawns = e.respawns + 1 }) workers in
    elim (Bool-cases (leb max_respawns (e.respawns + 1))) [
      | inl t ↦ ground (arith, h, same, text_beq_iff vm_id vm_id, t)
      | inr t ↦ ground (arith, h, same, text_beq_iff vm_id vm_id, t)
    ]
step-Covered vm_id workers stopped event o h = ground (arith, h)

budget-none : (o : Option WorkerEntry) (m : Monitor) → budget none m ≤ budget o m
budget-none none m = omega arith
budget-none (some e) watching = omega arith
budget-none (some e) (backing_off d dir) = omega arith
budget-none (some e) (respawning d dir) = omega arith
budget-none (some e) stopped = omega arith

detached-Covered :
    (vm_id other : Text) (workers : Workers) (m : Monitor) (o : Option WorkerEntry)
    → get other workers ≡ o
    → Covered vm_id (get vm_id workers) m (make_move vm_id workers m (detached other))
unfolding make_move detach
detached-Covered vm_id other workers m none h = ground (arith, h)
detached-Covered vm_id other workers m (some e) h = elim (Bool-cases (text_beq other vm_id)) [
  | inl t ↦ ground (arith, h, get-remove other vm_id workers, t, budget-none (get vm_id workers) m)
  | inr t ↦ ground (arith, h, get-remove other vm_id workers, t)
]

make_move-Covered :
    (vm_id : Text) (workers : Workers) (m : Monitor) (move : Move)
    → Covered vm_id (get vm_id workers) m (make_move vm_id workers m move)
make_move-Covered vm_id workers m (step event) =
    unfold make_move in step-Covered vm_id workers m event (get vm_id workers) refl
make_move-Covered vm_id workers m (detached other) =
    detached-Covered vm_id other workers m (get other workers) refl
make_move-Covered vm_id workers m (attached other e) =
    unfold make_move in
    elim (Bool-cases (text_beq other vm_id)) [
      | inl t ↦ rw t (omega arith)
      | inr t ↦ ground (arith, get-insert other vm_id e workers, t)
    ]

run_moves-Covered :
    (vm_id : Text) (workers : Workers) (m : Monitor) (moves : List Move)
    → Covered vm_id (get vm_id workers) m (run_moves vm_id workers m moves)
unfolding run_moves
run_moves-Covered vm_id workers m [] = omega arith
run_moves-Covered vm_id workers m (move ∷ moves) =
    let now = make_move vm_id workers m move in
    omega (
      arith,
      make_move-Covered vm_id workers m move,
      run_moves-Covered vm_id now.0 now.1.0 moves,
      respawn_count-append now.1.1 (run_moves vm_id now.0 now.1.0 moves).1.1,
    )

budget-le : (o : Option WorkerEntry) (m : Monitor) → budget o m ≤ max_respawns
budget-le none watching = omega arith
budget-le none (backing_off d dir) = omega arith
budget-le none (respawning d dir) = omega arith
budget-le none stopped = omega arith
budget-le (some e) watching = omega arith
budget-le (some e) (backing_off d dir) = omega arith
budget-le (some e) (respawning d dir) = omega arith
budget-le (some e) stopped = omega arith

-- Whatever happens to the worker and to the other volumes, in whatever order, the task respawns the
-- worker at most three times.
pub respawn_bounded :
    (vm_id : Text) (workers : Workers) (m : Monitor) (moves : List Move)
    → respawn_count (run_moves vm_id workers m moves).1.1 ≤ max_respawns
respawn_bounded vm_id workers m moves =
    omega (arith, run_moves-Covered vm_id workers m moves, budget-le (get vm_id workers) m)

-- How the task ends in a table without its volume.
abbrev pub WindsDown : Text → Workers → Monitor → Type 0
WindsDown vm_id workers watching =
    run_moves vm_id workers watching (step exited ∷ []) ≡ (workers, (stopped, []))
WindsDown vm_id workers (respawning dev dir) =
    ((pid : Option ℕ)
      → run_moves vm_id workers (respawning dev dir) (step (respawned pid) ∷ [])
        ≡ (workers, (stopped, stop_worker dev ∷ [])))
    × (run_moves vm_id workers (respawning dev dir) (step respawn_failed ∷ [])
        ≡ (workers, (stopped, [])))
WindsDown vm_id workers (backing_off dev dir) =
    ((pid : Option ℕ)
      → run_moves vm_id workers (backing_off dev dir) (step slept ∷ step (respawned pid) ∷ [])
        ≡ (workers, (stopped, respawn dev dir ∷ stop_worker dev ∷ [])))
    × (run_moves vm_id workers (backing_off dev dir) (step slept ∷ step respawn_failed ∷ [])
        ≡ (workers, (stopped, respawn dev dir ∷ [])))
WindsDown vm_id workers stopped = Unit {0}

gone-WindsDown :
    (vm_id : Text) (workers : Workers) (m : Monitor)
    → get vm_id workers ≡ none
    → WindsDown vm_id workers m
unfolding run_moves make_move monitor
gone-WindsDown vm_id workers watching h = ground (arith, h)
gone-WindsDown vm_id workers (respawning dev dir) h = (λ pid. ground (arith, h), ground (arith, h))
gone-WindsDown vm_id workers (backing_off dev dir) h = (λ pid. ground (arith, h), ground (arith, h))
gone-WindsDown vm_id workers stopped h = tt

-- The task waits out the delay before a respawn.
abbrev pub is_delayed : Monitor → ℕ
is_delayed (backing_off dev dir) = 1
is_delayed m = 0

-- After a volume is detached, its task ends: at the child's exit, or with the respawn under way, whose
-- worker it stops. A task that waits out the delay still spawns its worker, and stops it then.
-- Whatever else happens, it starts one worker at most after the detaching, and none if it was not
-- waiting out the delay. The detaching itself has taken the volume out of the table, and left the
-- other volumes alone.
pub detach-monitor :
    (workers : Workers) (vm_id : Text) (m : Monitor) (moves : List Move)
    → WindsDown vm_id (detach workers vm_id).0 m
      × ((respawn_count (run_moves vm_id (detach workers vm_id).0 m moves).1.1 ≤ is_delayed m)
          × ((other : Text)
              → get other (detach workers vm_id).0
                ≡ (if text_beq vm_id other then none else get other workers)))
detach-monitor workers vm_id m moves = (
  gone-WindsDown vm_id (detach workers vm_id).0 m gone,
  (
    omega (
      arith,
      run_moves-Covered vm_id (detach workers vm_id).0 m moves,
      ap (λ o. budget o m) gone,
      budget_gone m,
    ),
    others,
  ),
)
  where
    budget_gone : (m : Monitor) → budget none m ≤ is_delayed m
    budget_gone watching = omega arith
    budget_gone (backing_off dev dir) = omega arith
    budget_gone (respawning dev dir) = omega arith
    budget_gone stopped = omega arith

    others :
        (other : Text)
        → get other (detach workers vm_id).0
          ≡ (if text_beq vm_id other then none else get other workers)
    others other = elim (Option-cases (get vm_id workers)) [
      | inl n ↦
          unfold detach in
          ground
            (arith, n, text_beq_iff vm_id other, λ (e : vm_id ≡ other). ap (λ t. get t workers) e)
      | inr (e, n) ↦ unfold detach in ground (arith, n, get-remove vm_id other workers)
    ]

    gone : get vm_id (detach workers vm_id).0 ≡ none
    gone = ground (arith, others vm_id, text_beq_iff vm_id vm_id)
