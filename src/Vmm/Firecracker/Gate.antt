-- ===== src/Vmm/Firecracker/Gate.antt =====
-- When the gate lets a VM be suspended.
use tikovm.Prelude.{
  is_empty, ◌⊎◌, ℕ, ◌-◌, ◌≤◌, ltb, true, false, Option, none, some, Text, text_eq, get, ◌≡◌, refl,
  ap, arith, Option-cases, Bool-cases, inl, inr, ◌↔◌,
}
use tikovm.Vmm.VmState.{VmState, started, suspending, can_transition_to}
use tikovm.Vmm.Config.{VmMode, permanent, ephemeral, schedule, AutoSuspendConfig}
use tikovm.Vmm.Activity.{last_activity, in_flight}
use tikovm.Vmm.Instance.{VmInstance, transition}
use tikovm.Vmm.Firecracker.{FirecrackerVmm, FcVmEntry, begin, entry_parts, find_entry, put_instance}
use tikovm.Vmm.Firecracker.AutoSuspend.{
  http_idle_expired, latest, elapsed, any_active, gate_timeout, auto_suspend_gate, cooling,
  is_started, is_permanent, maybe_auto_suspend,
}
use tikovm.Vmm.Firecracker.Landing.{Has}

-- The VM has never woken, or long enough ago.
abbrev pub Cooled : Option ℕ → ℕ → ℕ → Type 0
Cooled o timeout now = (o ≡ none) ⊎ ((woken : ℕ) × ((o ≡ some woken) × (timeout ≤ now - woken)))

-- What the documentation of the gate asks for.
abbrev pub MayBeSuspended : FirecrackerVmm → Text → ℕ → Type 0
MayBeSuspended f vm now =
    (e : FcVmEntry) × ((i : VmInstance) × ((c : AutoSuspendConfig) × (Has f vm e i
          × ((any_active e.workloads ≡ false)
              × ((i.state ≡ started)
                  × ((i.vm_config.mode ≡ permanent)
                      × ((i.vm_config.auto_suspend ≡ some c)
                          × ((in_flight f.activity vm ≡ 0)
                              × Cooled (get vm f.wake_times) c.idle_timeout_secs now))))))))

pub is_started_lem : (st : VmState) → is_started st ≡ true → st ≡ started
is_started_lem started h = refl
is_started_lem st h = ground (arith, h)

is_permanent_lem : (m : VmMode) → is_permanent m ≡ true → m ≡ permanent
is_permanent_lem permanent h = refl
is_permanent_lem ephemeral h = ground (arith, h)
is_permanent_lem schedule h = ground (arith, h)

cooled : (o : Option ℕ) (timeout now : ℕ) → cooling o timeout now ≡ false → Cooled o timeout now
cooled none timeout now h = inl refl
cooled (some a) timeout now h = inr (a, (refl, ground (arith, h)))

warm : (o : Option ℕ) (timeout now : ℕ) → Cooled o timeout now → cooling o timeout now ≡ false
warm o timeout now (inl p) = rw p refl
warm o timeout now (inr (a, (p, h))) = rw p (ground (arith, h))

-- The gate lets a VM through exactly if it is a started permanent VM with an automatic suspension
-- configured, no workload of its is active, no proxied request is in flight, and the idle timeout
-- has passed since it last woke.
pub gate_lem :
    (f : FirecrackerVmm) (vm : Text) (now : ℕ)
    → auto_suspend_gate f vm now ≡ true ↔ MayBeSuspended f vm now
unfolding auto_suspend_gate gate_timeout
gate_lem f vm now = (λ h. opened h, λ may. closed may)
  where
    closed : MayBeSuspended f vm now → auto_suspend_gate f vm now ≡ true
    closed (e, (i, (c, ((n, m), (a, (st, (mode, (d, (q, w))))))))) = ground (
      arith,
      n,
      m,
      a,
      ap is_started st,
      ap is_permanent mode,
      d,
      q,
      warm (get vm f.wake_times) c.idle_timeout_secs now w,
    )

    opened : auto_suspend_gate f vm now ≡ true → MayBeSuspended f vm now
    opened h = elim (Option-cases (get vm f.vms)) [
      | inl n ↦ ground (arith, n, h)
      | inr (e, n) ↦ elim (Option-cases (get vm f.instances)) [
        | inl m ↦ ground (arith, n, m, h)
        | inr (i, m) ↦ elim (Bool-cases (any_active e.workloads)) [
          | inl a ↦ ground (arith, n, m, a, h)
          | inr a ↦ elim (Bool-cases (is_started i.state)) [
            | inr b ↦ ground (arith, n, m, a, b, h)
            | inl b ↦ elim (Bool-cases (is_permanent i.vm_config.mode)) [
              | inr c ↦ ground (arith, n, m, a, b, c, h)
              | inl c ↦ elim (Option-cases i.vm_config.auto_suspend) [
                | inl d ↦ ground (arith, n, m, a, b, c, d, h)
                | inr (cfg, d) ↦ elim (Bool-cases (ltb 0 (in_flight f.activity vm))) [
                  | inl q ↦ ground (arith, n, m, a, b, c, d, q, h)
                  | inr q ↦ (
                    e,
                    (
                      i,
                      (
                        cfg,
                        (
                          (n, m),
                          (
                            a,
                            (
                              is_started_lem i.state b,
                              (
                                is_permanent_lem i.vm_config.mode c,
                                (
                                  d,
                                  (
                                    ground (arith, q),
                                    cooled (get vm f.wake_times) cfg.idle_timeout_secs now
                                        (ground (arith, n, m, a, b, c, d, q, h)),
                                  ),
                                ),
                              ),
                            ),
                          ),
                        ),
                      ),
                    ),
                  )
                ]
              ]
            ]
          ]
        ]
      ]
    ]

-- An idle VM that the gate lets through starts to suspend: the state machine does not refuse it.
pub maybe_auto_suspend_lem :
    (f : FirecrackerVmm) (vm : Text) (now : ℕ)
    → MayBeSuspended f vm now
    → (i : VmInstance) × ((get vm f.instances ≡ some i)
        × (maybe_auto_suspend f vm now ≡ put_instance f vm (record i { state = suspending })))
unfolding maybe_auto_suspend begin entry_parts find_entry transition can_transition_to
maybe_auto_suspend_lem f vm now may =
    let gate = (gate_lem f vm now).1 may in
    let (e, (i, (c, (has, (a, (st, rest)))))) = may in
    (i, (has.1, ground (arith, gate, has, ap (λ x. can_transition_to x suspending) st)))

elapsed_both :
    (a b : Option ℕ) (timeout now : ℕ)
    → elapsed (latest a b) timeout now ≡ true
    → Cooled a timeout now × Cooled b timeout now
elapsed_both none none timeout now h = ground (arith, h)
elapsed_both none (some b) timeout now h = (inl refl, inr (b, (refl, ground (arith, h))))
elapsed_both (some a) none timeout now h = (inr (a, (refl, ground (arith, h))), inl refl)
elapsed_both (some a) (some b) timeout now h =
    (inr (a, (refl, ground (arith, h))), inr (b, (refl, ground (arith, h))))

-- The timer of the proxied requests expires only for a VM with an automatic suspension and exposed
-- ports, and only if the idle timeout has passed both since its last request and since it last woke.
pub http_idle_expired_lem :
    (f : FirecrackerVmm) (vm : Text) (now : ℕ)
    → http_idle_expired f vm now ≡ true
    → (e : FcVmEntry) × ((i : VmInstance) × ((c : AutoSuspendConfig) × (Has f vm e i
            × ((i.vm_config.auto_suspend ≡ some c)
                × ((is_empty i.vm_config.network_config.exposed_ports ≡ false)
                    × (Cooled (last_activity f.activity vm) c.idle_timeout_secs now
                        × Cooled (get vm f.wake_times) c.idle_timeout_secs now))))))
unfolding http_idle_expired
http_idle_expired_lem f vm now h = elim (Option-cases (get vm f.vms)) [
  | inl n ↦ ground (arith, n, h)
  | inr (e, n) ↦ elim (Option-cases (get vm f.instances)) [
    | inl m ↦ ground (arith, n, m, h)
    | inr (i, m) ↦ elim (Option-cases i.vm_config.auto_suspend) [
      | inl a ↦ ground (arith, n, m, a, h)
      | inr (c, a) ↦ elim (Bool-cases (is_empty i.vm_config.network_config.exposed_ports)) [
        | inl b ↦ ground (arith, n, m, a, b, h)
        | inr b ↦ (
          e,
          (
            i,
            (
              c,
              (
                (n, m),
                (
                  a,
                  (
                    b,
                    elapsed_both (last_activity f.activity vm) (get vm f.wake_times)
                        c.idle_timeout_secs now (ground (arith, n, m, a, b, h)),
                  ),
                ),
              ),
            ),
          ),
        )
      ]
    ]
  ]
]
