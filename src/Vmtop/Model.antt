-- ===== src/Vmtop/Model.antt =====
-- vmtop/src/model.rs: the VMs as the monitor reads them from the daemon, and the filter on them. Its
-- `VmState` has the variants of the daemon's. How text is lowered, and an address shown, is an
-- argument.
use tikovm.Prelude.{
  ℕ, Bool, true, false, ◌&&◌, ◌||◌, Option, none, some, List, [], ◌∷◌, Text, bytes, nat_beq, any,
}
use tikovm.Vmm.VmState.{
  VmState, creating, starting, pausing, resuming, suspending, restoring, destroying, created,
  started, paused, suspended, destroyed,
}
use tikovm.Vmm.Config.{VmMode}

pub record VmNet : Type 0 where
  pub tap_name : Text
  pub guest_ip : ℕ
  pub gateway_ip : ℕ
  pub subnet : Text

pub record VmConfig : Type 0 where
  pub name : Text
  pub project_id : ℕ
  pub mode : VmMode
  pub image : Text
  pub cpus : ℕ
  pub memory_mb : ℕ
  pub disk_size_mb : ℕ
  pub tags : List Text
  -- The ports of the network configuration.
  pub exposed_ports : List ℕ
  -- The idle timeout of the automatic suspension.
  pub auto_suspend : Option ℕ
  -- The size of the block volume.
  pub block_storage : Option ℕ

pub record Vm : Type 0 where
  pub vm_id : Text
  pub state : VmState
  pub net : Option VmNet
  -- When the snapshot was made.
  pub snapshot : Option ℕ
  pub created_at : ℕ
  pub vm_config : VmConfig

abbrev pub state_name : VmState → Text
state_name creating = bytes "creating"
state_name starting = bytes "starting"
state_name pausing = bytes "pausing"
state_name resuming = bytes "resuming"
state_name suspending = bytes "suspending"
state_name restoring = bytes "restoring"
state_name destroying = bytes "destroying"
state_name created = bytes "created"
state_name started = bytes "started"
state_name paused = bytes "paused"
state_name suspended = bytes "suspended"
state_name destroyed = bytes "destroyed"

abbrev pub starts_with : Text → Text → Bool
starts_with t [] = true
starts_with [] (c ∷ cs) = false
starts_with (d ∷ t) (c ∷ cs) = nat_beq d c && starts_with t cs

-- `str::contains`.
unfoldable pub contains : Text → Text → Bool
contains [] needle = starts_with [] needle
contains (c ∷ t) needle = starts_with (c ∷ t) needle || contains t needle

module _ (lower : Text → Text) (show_ip : ℕ → Text) where
  abbrev pub net_matches : Option VmNet → Text → Bool
  net_matches none needle = false
  net_matches (some n) needle = contains (show_ip n.guest_ip) needle || contains n.subnet needle

  unfoldable pub matches : Vm → Text → Bool
  matches vm text =
      let needle = lower text in
      contains (lower vm.vm_id) needle
      || (contains (lower vm.vm_config.name) needle
          || (contains (lower vm.vm_config.image) needle
              || (contains (state_name vm.state) needle
                  || (any (λ t. contains (lower t) needle) vm.vm_config.tags
                      || net_matches vm.net needle))))
