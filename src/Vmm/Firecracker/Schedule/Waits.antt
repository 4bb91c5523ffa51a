-- ===== src/Vmm/Firecracker/Schedule/Waits.antt =====
-- The wait for a run of hostd/src/vmm/firecracker/schedule.rs.
use tikovm.Prelude.{
  ℕ, nat_eq, text_eq, ◌≤◌, Bool, true, false, Option, none, some, List, [], ◌∷◌, Text, ok, ◌≡◌, ◌⊎◌,
  inl, inr, refl, arith, Bool-cases, Result-cases,
}
use tikovm.Error
use tikovm.Vmm.Workload.{Workload, is_active}
use tikovm.Vmm.Firecracker.{FirecrackerVmm}
use tikovm.Vmm.Firecracker.Workloads.{get_workload}
use tikovm.Vmm.Firecracker.Schedule.{
  past, Awaited, settled, failed, stop_failed, await_stopped, await_workload,
}

-- A poll sees the workload, and it is no longer active.
abbrev pub Ended : FirecrackerVmm → Text → Text → Type 0
Ended f vm_id wid = (w : Workload) × ((get_workload f vm_id wid ≡ ok w) × (is_active w ≡ false))

abbrev pub SeesEnded : List (FirecrackerVmm × ℕ) → Text → Text → Type 0
SeesEnded [] vm_id wid = ⊥
SeesEnded ((f, elapsed) ∷ polls) vm_id wid = Ended f vm_id wid ⊎ SeesEnded polls vm_id wid

-- A poll sees the workload active when the timeout has passed.
abbrev pub TimesOut : List (FirecrackerVmm × ℕ) → Text → Text → Option ℕ → Type 0
TimesOut [] vm_id wid timeout = ⊥
TimesOut ((f, elapsed) ∷ polls) vm_id wid timeout =
    ((w : Workload) × ((t : ℕ) × ((get_workload f vm_id wid ≡ ok w)
          × ((is_active w ≡ true) × ((timeout ≡ some t) × (t ≤ elapsed))))))
    ⊎ TimesOut polls vm_id wid timeout

await_stopped-ended :
    (polls : List (FirecrackerVmm × ℕ)) (vm_id wid : Text) (b : Bool)
    → await_stopped polls vm_id wid ≡ some (settled b)
    → SeesEnded polls vm_id wid × (b ≡ true)
unfolding await_stopped
await_stopped-ended [] vm_id wid b h = cc
await_stopped-ended ((f, elapsed) ∷ polls) vm_id wid b h =
    elim (Result-cases (get_workload f vm_id wid)) [
      | inr (e, q) ↦ ground (arith, q, h)
      | inl (w, q) ↦ elim (Bool-cases (is_active w)) [
        | inr a ↦ (inl (w, (q, a)), ground (arith, q, a, h))
        | inl a ↦
            let rest = await_stopped-ended polls vm_id wid b (ground (arith, q, a, h)) in
            (inr rest.0, rest.1)
      ]
    ]

past-some :
    (timeout : Option ℕ) (elapsed : ℕ)
    → past timeout elapsed ≡ true
    → (t : ℕ) × ((timeout ≡ some t) × (t ≤ elapsed))
past-some none elapsed h = cc
past-some (some t) elapsed h = (t, (refl, ground (arith, h)))

-- A wait that succeeds has seen the workload end; and if it has stopped the workload, a poll has seen
-- it active when its timeout had passed, and the stop was sent.
pub await_workload-ended :
    (polls : List (FirecrackerVmm × ℕ)) (vm_id wid : Text) (timeout : Option ℕ)
    (stop : Error.Result (Unit {0})) (b : Bool)
    → await_workload polls vm_id wid timeout stop ≡ some (settled b)
    → SeesEnded polls vm_id wid
      × ((b ≡ false) ⊎ ((b ≡ true) × (TimesOut polls vm_id wid timeout × (stop ≡ ok tt))))
unfolding await_workload
await_workload-ended [] vm_id wid timeout stop b h = cc
await_workload-ended ((f, elapsed) ∷ polls) vm_id wid timeout stop b h =
    elim (Result-cases (get_workload f vm_id wid)) [
      | inr (e, q) ↦ ground (arith, q, h)
      | inl (w, q) ↦ elim (Bool-cases (is_active w)) [
        | inr a ↦ (inl (w, (q, a)), inl (ground (arith, q, a, h)))
        | inl a ↦ elim (Bool-cases (past timeout elapsed)) [
          | inr p ↦
              let rest =
                await_workload-ended polls vm_id wid timeout stop b (ground (arith, q, a, p, h)) in
              (inr rest.0, elim rest.1 [ inl x ↦ inl x | inr x ↦ inr (x.0, (inr x.1.0, x.1.1)) ])
          | inl p ↦ elim (Result-cases stop) [
            | inr (e, st) ↦ ground (arith, q, a, p, st, h)
            | inl (u, st) ↦
                let rest = await_stopped-ended polls vm_id wid b (ground (arith, q, a, p, st, h)) in
                let t = past-some timeout elapsed p in
                (inr rest.0, inr (rest.1, (inl (w, (t.0, (q, (a, (t.1.0, t.1.1))))), st)))
          ]
        ]
      ]
    ]

await_stopped-total :
    (polls : List (FirecrackerVmm × ℕ)) (vm_id wid : Text)
    → SeesEnded polls vm_id wid
    → (r : Awaited) × (await_stopped polls vm_id wid ≡ some r)
unfolding await_stopped
await_stopped-total [] vm_id wid h = elim h [ ]
await_stopped-total ((f, elapsed) ∷ polls) vm_id wid (inl (w, (q, a))) =
    (settled true, ground (arith, q, a))
await_stopped-total ((f, elapsed) ∷ polls) vm_id wid (inr later) =
    let rest = await_stopped-total polls vm_id wid later in
    elim (Result-cases (get_workload f vm_id wid)) [
      | inr (e, q) ↦ (failed e, ground (arith, q))
      | inl (w, q) ↦ elim (Bool-cases (is_active w)) [
        | inr a ↦ (settled true, ground (arith, q, a))
        | inl a ↦ (rest.0, ground (arith, q, a, rest.1))
      ]
    ]

-- The wait for a run ends, by the first poll that sees the workload no longer active at the latest,
-- with or without a timeout.
pub await_workload-total :
    (polls : List (FirecrackerVmm × ℕ)) (vm_id wid : Text) (timeout : Option ℕ)
    (stop : Error.Result (Unit {0}))
    → SeesEnded polls vm_id wid
    → (r : Awaited) × (await_workload polls vm_id wid timeout stop ≡ some r)
unfolding await_workload
await_workload-total [] vm_id wid timeout stop h = elim h [ ]
await_workload-total ((f, elapsed) ∷ polls) vm_id wid timeout stop (inl (w, (q, a))) =
    (settled false, ground (arith, q, a))
await_workload-total ((f, elapsed) ∷ polls) vm_id wid timeout stop (inr later) =
    let rest = await_workload-total polls vm_id wid timeout stop later in
    elim (Result-cases (get_workload f vm_id wid)) [
      | inr (e, q) ↦ (failed e, ground (arith, q))
      | inl (w, q) ↦ elim (Bool-cases (is_active w)) [
        | inr a ↦ (settled false, ground (arith, q, a))
        | inl a ↦ elim (Bool-cases (past timeout elapsed)) [
          | inr p ↦ (rest.0, ground (arith, q, a, p, rest.1))
          | inl p ↦ elim (Result-cases stop) [
            | inr (e, st) ↦ (stop_failed e, ground (arith, q, a, p, st))
            | inl (u, st) ↦
                let after = await_stopped-total polls vm_id wid later in
                (after.0, ground (arith, q, a, p, st, after.1))
          ]
        ]
      ]
    ]
