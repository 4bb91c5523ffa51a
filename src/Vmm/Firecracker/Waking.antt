-- ===== src/Vmm/Firecracker/Waking.antt =====
-- The wake-up of a VM comes to an end.
use tikovm.Prelude.{
  ℕ, ◌+◌, leb, Bool, true, false, Option, some, List, [], ◌∷◌, Text, ◌≡◌, ◌≢◌, refl, arith,
  if◌then◌else◌, ok, err, Bool-cases, Result-cases, ◌⊎◌, inl, inr,
}
use tikovm.Error
use tikovm.Vmm.VmState.{VmState, suspended, suspending, restoring}
use tikovm.Vmm.Firecracker.{FirecrackerVmm, entry_parts, begin_restore}
use tikovm.Vmm.Firecracker.Wake.{
  Round, ready, restores, sleeps, fails, round, round_at, polls, ensure_started, settling,
  restoring_round,
}

-- One of the tables is seen at the deadline or after it.
abbrev pub reaches : List (FirecrackerVmm × ℕ) → ℕ → Bool
reaches [] deadline = false
reaches ((f, now) ∷ rest) deadline =
    let more = reaches rest deadline in if leb deadline now then true else more

-- The loop ends with something else than a sleep.
abbrev pub Decides : Option Round → Type 0
Decides o = (r : Round) × ((o ≡ some r) × (r ≢ sleeps))

restoring-sleeps : (r : Error.Result FirecrackerVmm) → restoring_round r ≢ sleeps
restoring-sleeps (ok f) p = cc
restoring-sleeps (err e) p = cc

settling_late :
    (st : VmState) (now deadline : ℕ) → leb deadline now ≡ true → settling st now deadline ≢ sleeps
settling_late st now deadline h p = ground (arith, h, p)

late_round :
    (f : FirecrackerVmm) (vm : Text) (st : VmState) (now deadline : ℕ)
    → leb deadline now ≡ true
    → round_at f vm st now deadline ≢ sleeps
late_round f vm suspended now deadline h p = restoring-sleeps (begin_restore f vm) p
late_round f vm suspending now deadline h p = settling_late suspending now deadline h p
late_round f vm restoring now deadline h p = settling_late restoring now deadline h p
late_round f vm st now deadline h p = ground (arith, p)

late :
    (f : FirecrackerVmm) (vm : Text) (now deadline : ℕ)
    → leb deadline now ≡ true
    → round f vm now deadline ≢ sleeps
unfolding round
late f vm now deadline h p = elim (Result-cases (entry_parts f vm)) [
  | inl (i, e) ↦ late_round f vm i.state now deadline h (ground (arith, e, p))
  | inr (x, e) ↦ ground (arith, e, p)
]

Round-cases :
    (r : Round)
    → (r ≡ ready)
      ⊎ (((f : FirecrackerVmm) × (r ≡ restores f))
          ⊎ ((r ≡ sleeps) ⊎ ((e : Error.Error) × (r ≡ fails e))))
Round-cases ready = inl refl
Round-cases (restores f) = inr (inl (f, refl))
Round-cases sleeps = inr (inr (inl refl))
Round-cases (fails e) = inr (inr (inr (e, refl)))

polls_decide :
    (tables : List (FirecrackerVmm × ℕ)) (vm : Text) (deadline : ℕ)
    → reaches tables deadline ≡ true
    → Decides (polls tables vm deadline)
unfolding polls
polls_decide [] vm deadline h = ground (arith, h)
polls_decide ((f, now) ∷ rest) vm deadline h = elim (Round-cases (round f vm now deadline)) [
  | inl e ↦ (ready, (ground (arith, e), λ p. cc))
  | inr (inl (g, e)) ↦ (restores g, (ground (arith, e), λ p. cc))
  | inr (inr (inr (x, e))) ↦ (fails x, (ground (arith, e), λ p. cc))
  | inr (inr (inl e)) ↦ elim (Bool-cases (leb deadline now)) [
    | inl l ↦ absurd (late f vm now deadline l e)
    | inr l ↦
        let (r, (p, q)) = polls_decide rest vm deadline (ground (arith, h, l)) in
        (r, (ground (arith, e, p), q))
  ]
]

-- The wake-up decides: if the polls go on until thirty seconds have passed, one of them finds the VM
-- started, starts a restore, or gives up with an error.
pub ensure_started-Decides :
    (tables : List (FirecrackerVmm × ℕ)) (vm : Text) (now : ℕ)
    → reaches tables (now + 30000) ≡ true
    → Decides (ensure_started tables vm now)
unfolding ensure_started
ensure_started-Decides tables vm now h = polls_decide tables vm (now + 30000) h
