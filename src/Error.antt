-- ===== src/Error.antt =====
-- hostd/src/error.rs. The text of a message is a constructor that carries what it interpolates.
use tikovm.Prelude.{ℕ, Text}
use tikovm.Prelude
use tikovm.Vmm.VmState.{VmState}

pub data CidrFault : Type 0 where
  missing_prefix bad_address unreadable_prefix bad_prefix : CidrFault

pub data NetFault : Type 0 where
  invalid_cidr : Text → CidrFault → NetFault
  bad_subnet_prefix : ℕ → NetFault
  ip_already_allocated : Text → NetFault
  subnet_exhausted : ℕ → NetFault
  no_free_subnets : NetFault
  bridge_name_too_long : Text → NetFault
  host_command_failed unreadable_state : NetFault

pub data VmmFault : Type 0 where
  auto_suspend_not_permanent empty_schedule_cmd no_cron_schedule bad_cron_schedule : VmmFault
  schedule_fields_elsewhere size_too_small bad_chunk_size bad_mount_path : VmmFault
  no_snapshot empty_workload_cmd : VmmFault
  firecracker_failed guest_unreachable : VmmFault
  needs_started_vm cannot_wake still_busy cannot_run_scheduled : VmState → VmmFault
  workload_not_active : VmmFault

pub data StorageFault : Type 0 where
  bad_chunk_size bad_volume_size unreadable_meta unsupported_version : StorageFault

pub data TokenFault : Type 0 where
  expired invalid encoding_failed : TokenFault

pub data Error : Type 0 where
  io json lock tracing_subscriber_filter_parse missing_api_token : Error
  vmm : VmmFault → Error
  net : NetFault → Error
  storage : StorageFault → Error
  vm_not_found workload_not_found invalid_image : Text → Error
  invalid_state_transition : VmState → VmState → Error
  invalid_port : ℕ → Error
  port_already_exposed port_not_exposed : Text → ℕ → Error
  proxy_token : TokenFault → Error

-- `Result<T>`.
abbrev pub Result {ℓ} : Type ℓ → Type ℓ
Result A = Prelude.Result Error A
