-- ===== src/Vmm/Workload/History.antt =====
-- A workload over any sequence of the guest's events.
use tikovm.Prelude.{ℕ, ◌≡◌, ◌≢◌, refl, ◌∙◌, true, false, Option, none, List, [], ◌∷◌, Text, arith}
use tikovm.Vmm.Workload.{
  Workload, WorkloadSpec, starting, running, failed, new, is_active, mark_running, mark_finished,
  mark_failed,
}

-- What the guest reports of a workload, and the request to stop it.
pub data Event : Type 0 where
  started : Option ℕ → ℕ → Event
  finished : Option ℕ → Option ℕ → ℕ → Event
  refused : ℕ → Event
  stop_asked stop_undone : Event

unfoldable pub apply : Workload → Event → Workload
unfolding mark_running mark_finished mark_failed
apply w (started pid now) = mark_running w pid now
apply w (finished code signal now) = mark_finished w code signal now
apply w (refused now) = mark_failed w now
apply w stop_asked = record w { stop_requested = true }
apply w stop_undone = record w { stop_requested = false }

unfoldable pub run : Workload → List Event → Workload
run w [] = w
run w (e ∷ es) = run (apply w e) es

-- What a workload's fields say of each other, whatever has been reported.
pub record IsConsistent (w : Workload) : Type 0 where
  pub unfinished :
      is_active w ≡ true → (w.finished_at ≡ none) × (w.exit_code ≡ none) × (w.signal ≡ none)
  pub finished : is_active w ≡ false → w.finished_at ≢ none
  pub unstarted : w.state ≡ starting → w.started_at ≡ none
  pub started : w.state ≡ running → w.started_at ≢ none
  pub stop_was_asked : w.state ≡ failed → (w.exit_code ≡ none) × (w.signal ≡ none)

pub apply-IsConsistent : (w : Workload) (e : Event) → IsConsistent w → IsConsistent (apply w e)
unfolding apply
apply-IsConsistent w (started pid now) v = ground arith
apply-IsConsistent w (finished code signal now) v = ground arith
apply-IsConsistent w (refused now) v = ground arith
apply-IsConsistent w stop_asked v = ground arith
apply-IsConsistent w stop_undone v = ground arith

run-keeps : (w : Workload) (es : List Event) → IsConsistent w → IsConsistent (run w es)
unfolding run
run-keeps w [] v = v
run-keeps w (e ∷ es) v = run-keeps (apply w e) es (apply-IsConsistent w e v)

new-IsConsistent :
    (id vm : Text) (spec : WorkloadSpec) (now : ℕ) → IsConsistent (new id vm spec now)
unfolding new is_active
new-IsConsistent id vm spec now = ground arith

-- After any events, a workload that is active has no finishing time, exit code or signal, one that
-- is not has a finishing time, one that runs has a starting time, and one that failed to start has
-- neither exit code nor signal.
pub run-IsConsistent :
    (id vm : Text) (spec : WorkloadSpec) (now : ℕ) (es : List Event)
    → IsConsistent (run (new id vm spec now) es)
run-IsConsistent id vm spec now es =
    run-keeps (new id vm spec now) es (new-IsConsistent id vm spec now)

-- What is kept of a workload for good once it has finished.
pub record SameOutcome (w w' : Workload) : Type 0 where
  pub state : w'.state ≡ w.state
  pub exit_code : w'.exit_code ≡ w.exit_code
  pub signal : w'.signal ≡ w.signal
  pub finished_at : w'.finished_at ≡ w.finished_at

apply_finished : (w : Workload) (e : Event) → is_active w ≡ false → SameOutcome w (apply w e)
unfolding apply is_active
apply_finished w (started pid now) h = ground arith
apply_finished w (finished code signal now) h = ground arith
apply_finished w (refused now) h = ground arith
apply_finished w stop_asked h = ground arith
apply_finished w stop_undone h = ground arith

-- A workload that has finished keeps its state, exit code, signal and finishing time, whatever is
-- reported later.
pub run_finished : (w : Workload) (es : List Event) → is_active w ≡ false → SameOutcome w (run w es)
unfolding run
run_finished w [] h = record { state = refl; exit_code = refl; signal = refl; finished_at = refl }
run_finished w (e ∷ es) h =
    let one = apply_finished w e h in
    let rest = run_finished (apply w e) es (unfold is_active in ground (arith, one.state)) in
    record {
      state = rest.state ∙ one.state;
      exit_code = rest.exit_code ∙ one.exit_code;
      signal = rest.signal ∙ one.signal;
      finished_at = rest.finished_at ∙ one.finished_at;
    }
