-- ===== src/Vmm/Activity/Counting.antt =====
-- The counter of a VM counts the guards that are alive.
use tikovm.Prelude.{
  Bool, true, false, not, ◌&&◌, ◌||◌, ◌≤◌, nat_beq, refl, get-remove, ◌⊎◌, Bool-cases, ℕ, suc, zero,
  ◌+◌, ◌-◌, ◌≡◌, ap, Option, none, some, List, [], ◌∷◌, Text, text_beq, text_beq_iff, get,
  get-insert, text_eq, if◌then◌else◌, arith, inl, inr, Option-cases,
}
use tikovm.Vmm.Activity.{ActivityTracker, or_idle, track, drop_guard, in_flight, clear}

-- A request starts, its guard is dropped, or its VM is destroyed, which clears the counter.
pub data Traffic : Type 0 where
  begins ends : Text → ℕ → Traffic
  cleared : Text → Traffic

unfoldable pub step : ActivityTracker → Traffic → ActivityTracker
step t (begins vm now) = track t vm now
step t (ends vm now) = drop_guard t vm now
step t (cleared vm) = clear t vm

unfoldable pub replay : ActivityTracker → List Traffic → ActivityTracker
replay t [] = t
replay t (e ∷ es) = replay (step t e) es

-- The guards that are alive after the traffic, given those before: `none` if a guard is dropped that
-- was never handed out. Clearing the counter drops no guard.
abbrev pub open_guards : ℕ → Text → List Traffic → Option ℕ
open_guards n vm [] = some n
open_guards n vm (cleared v ∷ es) = open_guards n vm es
open_guards n vm (begins v now ∷ es) =
    let more = open_guards (suc n) vm es in
    let same = open_guards n vm es in if text_beq v vm then more else same
open_guards zero vm (ends v now ∷ es) =
    let same = open_guards zero vm es in if text_beq v vm then none else same
open_guards (suc n) vm (ends v now ∷ es) =
    let less = open_guards n vm es in
    let same = open_guards (suc n) vm es in if text_beq v vm then less else same

-- The VM is cleared only when none of its guards is alive.
abbrev pub idle_clears : ℕ → Text → List Traffic → Bool
idle_clears n vm [] = true
idle_clears n vm (cleared v ∷ es) =
    let rest = idle_clears n vm es in (not (text_beq v vm) || nat_beq n 0) && rest
idle_clears n vm (begins v now ∷ es) =
    let more = idle_clears (suc n) vm es in
    let same = idle_clears n vm es in if text_beq v vm then more else same
idle_clears n vm (ends v now ∷ es) =
    let less = idle_clears (n - 1) vm es in
    let same = idle_clears n vm es in if text_beq v vm then less else same

get-eq : (t : ActivityTracker) (v vm : Text) → v ≡ vm → get v t ≡ get vm t
get-eq t v vm p = ap (λ k. get k t) p

track-in_flight :
    (t : ActivityTracker) (v vm : Text) (now : ℕ)
    → in_flight (track t v now) vm
      ≡ (if text_beq v vm then suc (in_flight t vm) else in_flight t vm)
unfolding track in_flight
track-in_flight t v vm now = ground (
  arith,
  get-insert v vm
      (record { in_flight = (or_idle (get v t)).in_flight + 1; last_activity = some now }) t,
  text_beq_iff v vm,
  get-eq t v vm,
)

drop-in_flight :
    (t : ActivityTracker) (v vm : Text) (now : ℕ)
    → in_flight (drop_guard t v now) vm
      ≡ (if text_beq v vm then in_flight t vm - 1 else in_flight t vm)
unfolding drop_guard in_flight
drop-in_flight t v vm now = elim (Option-cases (get v t)) [
  | inl e ↦ rw (e, drop_guard) (ground (arith, e, text_beq_iff v vm, get-eq t v vm))
  | inr (a, e) ↦
      rw (e, drop_guard)
        (ground (
          arith,
          e,
          get-insert v vm (record { in_flight = a.in_flight - 1; last_activity = some now }) t,
          text_beq_iff v vm,
          get-eq t v vm,
        ))
]

clear-in_flight :
    (t : ActivityTracker) (v vm : Text)
    → in_flight (clear t v) vm ≡ (if text_beq v vm then 0 else in_flight t vm)
unfolding clear in_flight
clear-in_flight t v vm = ground (arith, get-remove v vm t)

-- The guards that are alive after a drop, where one was.
ends_open :
    (m : ℕ) (vm v : Text) (now : ℕ) (es : List Traffic) (n : ℕ)
    → open_guards m vm (ends v now ∷ es) ≡ some n
    → open_guards (if text_beq v vm then m - 1 else m) vm es ≡ some n
ends_open zero vm v now es n h = ground (arith, h)
ends_open (suc m) vm v now es n h = ground (arith, h)

begins_open :
    (m : ℕ) (vm v : Text) (now : ℕ) (es : List Traffic) (n : ℕ)
    → open_guards m vm (begins v now ∷ es) ≡ some n
    → open_guards (if text_beq v vm then suc m else m) vm es ≡ some n
begins_open m vm v now es n h = ground (arith, h)

replay-le :
    (t : ActivityTracker) (vm : Text) (es : List Traffic) (m n : ℕ)
    → in_flight t vm ≤ m
    → open_guards m vm es ≡ some n
    → in_flight (replay t es) vm ≤ n
unfolding replay step
replay-le t vm [] m n le h = ground (arith, le, h)
replay-le t vm (cleared v ∷ es) m n le h =
    replay-le (step t (cleared v)) vm es m n (ground (arith, le, clear-in_flight t v vm)) h
replay-le t vm (begins v now ∷ es) m n le h =
    replay-le (step t (begins v now)) vm es (if text_beq v vm then suc m else m) n
      (ground (arith, le, track-in_flight t v vm now)) (begins_open m vm v now es n h)
replay-le t vm (ends v now ∷ es) m n le h =
    replay-le (step t (ends v now)) vm es (if text_beq v vm then m - 1 else m) n
      (ground (arith, le, drop-in_flight t v vm now)) (ends_open m vm v now es n h)

replay-eq :
    (t : ActivityTracker) (vm : Text) (es : List Traffic) (m n : ℕ)
    → in_flight t vm ≡ m
    → open_guards m vm es ≡ some n
    → idle_clears m vm es ≡ true
    → in_flight (replay t es) vm ≡ n
unfolding replay step
replay-eq t vm [] m n e h q = ground (arith, e, h)
replay-eq t vm (cleared v ∷ es) m n e h q =
    replay-eq (step t (cleared v)) vm es m n (ground (arith, e, q, clear-in_flight t v vm)) h
      (ground (arith, q))
replay-eq t vm (begins v now ∷ es) m n e h q =
    replay-eq (step t (begins v now)) vm es (if text_beq v vm then suc m else m) n
      (ground (arith, e, track-in_flight t v vm now)) (begins_open m vm v now es n h)
      (ground (arith, q))
replay-eq t vm (ends v now ∷ es) m n e h q =
    replay-eq (step t (ends v now)) vm es (if text_beq v vm then m - 1 else m) n
      (ground (arith, e, drop-in_flight t v vm now)) (ends_open m vm v now es n h)
      (ground (arith, q))

-- Where no guard is dropped twice, the counter of a VM is never above the number of its guards that are
-- alive; it is that number if moreover the VM is cleared only when none of its guards is alive. Clearing
-- the VM after that leaves its counter at zero, and the counters of the other VMs as they are.
pub in_flight-replay :
    (t : ActivityTracker) (vm : Text) (es : List Traffic) (n : ℕ)
    → open_guards (in_flight t vm) vm es ≡ some n
    → (in_flight (replay t es) vm ≤ n)
      × (((idle_clears (in_flight t vm) vm es ≡ false) ⊎ (in_flight (replay t es) vm ≡ n))
          × ((v : Text)
              → in_flight (clear (replay t es) vm) v
                ≡ (if text_beq vm v then 0 else in_flight (replay t es) v)))
in_flight-replay t vm es n h = (
  replay-le t vm es (in_flight t vm) n (omega arith) h,
  (
    elim (Bool-cases (idle_clears (in_flight t vm) vm es)) [
      | inl q ↦ inr (replay-eq t vm es (in_flight t vm) n refl h q)
      | inr q ↦ inl q
    ],
    λ v. clear-in_flight (replay t es) vm v,
  ),
)
