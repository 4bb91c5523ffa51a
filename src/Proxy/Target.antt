-- ===== src/Proxy/Target.antt =====
-- hostd/src/proxy/target.rs and token.rs: the claims of a token, and their check against the VM.
pub mod Access
use tikovm.Prelude.{
  ℕ, ◌+◌, Bool, true, false, Option, none, some, List, Text, text_eq, get, nat_beq, min, max, any,
  if◌then◌else◌, ok, err, ◌≡◌, arith, Option-cases, Bool-cases, ◌⊎◌, inl, inr,
}
use tikovm.Prelude
use tikovm.Net.Types.{ExposedPort, VmNet, port_listed}
use tikovm.Vmm.VmState.{VmState, started, suspended, suspending, restoring}
use tikovm.Vmm.Instance.{VmInstance}
use tikovm.Vmm.Firecracker.{FirecrackerVmm}
use tikovm.Vmm.Firecracker.AutoSuspend.{is_started}

pub data Proto : Type 0 where
  http tcp : Proto

pub record Claims : Type 0 where
  pub vm_id : Text
  pub port : ℕ
  pub proto : Proto
  pub iat : ℕ
  pub exp : ℕ

-- The claims that `mint` signs; the lifetime is clamped to a second at least and a day at most.
unfoldable pub mint_claims : Text → ℕ → Proto → ℕ → ℕ → Claims
mint_claims vm_id port proto ttl_secs now = record {
  vm_id = vm_id;
  port = port;
  proto = proto;
  iat = now;
  exp = now + min (max ttl_secs 1) 86400;
}

-- The statuses of the refusals.
pub data Denied : Type 0 where
  vm_missing cannot_be_woken : Denied
  not_running : VmState → Denied
  port_gone : ℕ → Denied
  no_guest_ip : Denied

abbrev pub needs_wake : VmState → Bool
needs_wake suspended = true
needs_wake suspending = true
needs_wake restoring = true
needs_wake _ = false

-- The validation, against the instance as it stands after the wake-up if there was one.
unfoldable pub validate_target : VmInstance → Claims → Prelude.Result Denied ℕ
validate_target i c =
    if is_started i.state
    then if port_listed c.port i.vm_config.network_config.exposed_ports
      then elim i.net [ none ↦ err no_guest_ip | some n ↦ ok n.guest_ip ]
      else err (port_gone c.port)
    else err (not_running i.state)

-- `get_vm`: an entry, and the instance that it refers to.
abbrev pub get_vm : FirecrackerVmm → Text → Option VmInstance
get_vm f vm_id = elim (get vm_id f.vms) [ none ↦ none | some e ↦ get vm_id f.instances ]

-- The second table is the one after `ensure_started`, which has woken the VM or not. The reference to
-- the instance is kept over the wake-up.
unfoldable pub resolve_target :
    FirecrackerVmm → FirecrackerVmm → Bool → Claims → Prelude.Result Denied ℕ
resolve_target f after woken c = elim (get_vm f c.vm_id) [
  | none ↦ err vm_missing
  | some i ↦
      if needs_wake i.state
      then if woken
        then elim (get c.vm_id after.instances) [
          | none ↦ err vm_missing
          | some j ↦ validate_target j c
        ]
        else err cannot_be_woken
      else validate_target i c
]
