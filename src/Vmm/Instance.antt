-- ===== src/Vmm/Instance.antt =====
-- `VmInstance` and `VmSnapshot` of hostd/src/vmm/vm.rs. Paths are texts; the random identifier and
-- the clock are arguments.
use tikovm.Prelude.{ℕ, Option, none, Text, bytes, ◌++◌, if◌then◌else◌, ok, err, ◌>>=◌}
use tikovm.Error.{invalid_state_transition}
use tikovm.Error
use tikovm.Net.Types.{VmNet}
use tikovm.Vmm.VmState.{VmState, creating, can_transition_to}
use tikovm.Vmm.Config.{VmConfig, rootfs_file}

pub record VmSnapshot : Type 0 where
  pub state_path : Text
  pub mem_path : Text
  pub created_at : ℕ

-- `Path::join` with a relative name.
abbrev pub join : Text → Text → Text
join dir name = dir ++ bytes "/" ++ name

pub record VmInstance : Type 0 where
  pub vm_id : Text
  pub state : VmState
  pub work_dir : Text
  pub socket_path : Text
  pub kernel_path : Text
  pub initramfs_path : Text
  pub boot_args : Text
  pub rootfs_path : Text
  pub overlay_disk : Text
  pub block_device : Option Text
  pub net : Option VmNet
  pub guest_cid : Option ℕ
  pub vsock_uds_path : Text
  pub snapshot : Option VmSnapshot
  pub serial_log : Text
  pub error_log : Text
  pub created_at : ℕ
  pub vm_config : VmConfig

unfoldable pub new : Text → VmConfig → Text → Text → ℕ → Error.Result VmInstance
new vm_id config assets_dir work_dir now = do
  rootfs ← rootfs_file config
  let dir = join work_dir vm_id
  ok (record {
    vm_id = vm_id;
    state = creating;
    work_dir = dir;
    socket_path = join dir (vm_id ++ bytes ".socket");
    kernel_path = join assets_dir (bytes "vmlinux.bin");
    initramfs_path = join assets_dir (bytes "initramfs.cpio.gz");
    boot_args = bytes "console=ttyS0 reboot=k panic=1 pci=on nomodules";
    rootfs_path = join assets_dir rootfs;
    overlay_disk = join dir (vm_id ++ bytes ".overlay.ext4");
    block_device = none;
    net = none;
    guest_cid = none;
    vsock_uds_path = join dir (vm_id ++ bytes ".vsock");
    snapshot = none;
    serial_log = join dir (vm_id ++ bytes ".serial.log");
    error_log = join dir (vm_id ++ bytes ".stderr.log");
    created_at = now;
    vm_config = config;
  })

unfoldable pub new_snapshot : VmInstance → ℕ → VmSnapshot
new_snapshot i now = record {
  state_path = join i.work_dir (i.vm_id ++ bytes "_snapshot.state");
  mem_path = join i.work_dir (i.vm_id ++ bytes "_snapshot.mem");
  created_at = now;
}

-- `VmState::transition` on the state of an instance.
unfoldable pub transition : VmInstance → VmState → Error.Result VmInstance
transition i next =
    if can_transition_to i.state next
    then ok (record i { state = next })
    else err (invalid_state_transition i.state next)
