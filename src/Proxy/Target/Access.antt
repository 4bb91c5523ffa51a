-- ===== src/Proxy/Target/Access.antt =====
-- Whom the proxy forwards to.
use tikovm.Prelude.{
  ℕ, Bool, true, false, some, text_eq, get, ok, ◌≡◌, ◌↔◌, refl, ap, arith, Option-cases, Bool-cases,
  ◌⊎◌, inl, inr,
}
use tikovm.Net.Types.{VmNet, port_listed}
use tikovm.Vmm.VmState.{started}
use tikovm.Vmm.Instance.{VmInstance}
use tikovm.Vmm.Firecracker.{FirecrackerVmm}
use tikovm.Vmm.Firecracker.AutoSuspend.{is_started}
use tikovm.Vmm.Firecracker.Gate.{is_started_lem}
use tikovm.Proxy.Target.{Claims, validate_target, resolve_target, get_vm, needs_wake}

-- The VM runs, the port of the claims is exposed, and the address is the VM's.
abbrev pub Reachable : VmInstance → Claims → ℕ → Type 0
Reachable i c ip =
    (i.state ≡ started)
    × ((port_listed c.port i.vm_config.network_config.exposed_ports ≡ true)
        × ((n : VmNet) × ((i.net ≡ some n) × (n.guest_ip ≡ ip))))

-- The validation gives an address exactly if the VM is started, the claimed port is still exposed and
-- the address is the VM's own.
pub validate_target_lem :
    (i : VmInstance) (c : Claims) (ip : ℕ) → validate_target i c ≡ ok ip ↔ Reachable i c ip
unfolding validate_target
validate_target_lem i c ip = (opened, closed)
  where
    opened : validate_target i c ≡ ok ip → Reachable i c ip
    opened h = elim (Bool-cases (is_started i.state)) [
      | inr a ↦ ground (arith, a, h)
      | inl a ↦ elim (Bool-cases (port_listed c.port i.vm_config.network_config.exposed_ports)) [
        | inr b ↦ ground (arith, a, b, h)
        | inl b ↦ elim (Option-cases i.net) [
          | inl n ↦ ground (arith, a, b, n, h)
          | inr (n, e) ↦ (is_started_lem i.state a, (b, (n, (e, ground (arith, a, b, e, h)))))
        ]
      ]
    ]

    closed : Reachable i c ip → validate_target i c ≡ ok ip
    closed (s, (p, (n, (e, q)))) = ground (arith, ap is_started s, p, e, q)

-- A connection is forwarded only to a VM that is there, that is started when the check is made, after
-- its wake-up if it had to be woken, and whose claimed port is exposed then, at the VM's own address.
pub resolve_target_lem :
    (f after : FirecrackerVmm) (woken : Bool) (c : Claims) (ip : ℕ)
    → resolve_target f after woken c ≡ ok ip
    → (i : VmInstance) × ((get_vm f c.vm_id ≡ some i)
        × ((j : VmInstance) × (Reachable j c ip
              × (((needs_wake i.state ≡ false) × (i ≡ j))
                  ⊎ ((needs_wake i.state ≡ true) × (get c.vm_id after.instances ≡ some j))))))
unfolding resolve_target
resolve_target_lem f after woken c ip h = elim (Option-cases (get_vm f c.vm_id)) [
  | inl n ↦ ground (arith, n, h)
  | inr (i, n) ↦ elim (Bool-cases (needs_wake i.state)) [
    | inr s ↦
        (i, (n, (i, ((validate_target_lem i c ip).0 (ground (arith, n, s, h)), inl (s, refl)))))
    | inl s ↦ elim (Option-cases (get c.vm_id after.instances)) [
      | inl m ↦ ground (arith, n, s, m, h)
      | inr (j, m) ↦
          (i, (n, (j, ((validate_target_lem j c ip).0 (ground (arith, n, s, m, h)), inr (s, m)))))
    ]
  ]
]
