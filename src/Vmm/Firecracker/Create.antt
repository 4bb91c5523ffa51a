-- ===== src/Vmm/Firecracker/Create.antt =====
-- `create_vm` and `destroy_vm` of hostd/src/vmm/firecracker/vmm.rs. The outcomes of the storage
-- manager, of the directory and of the Firecracker process are arguments, and so are the random
-- identifier and the clock; `cron_ok` says which expressions the cron library reads.
use tikovm.Prelude.{
  ℕ, ◌+◌, ◌%◌, ◌^◌, Bool, true, false, ◌&&◌, ◌||◌, not, leb, nat_beq, Option, none, some, [], ◌∷◌,
  Text, bytes, text_beq, text_eq, get, insert, remove, is_some, is_empty, if◌then◌else◌, ok, err,
  ensure, ◌>>◌, any,
}
use tikovm.Error.{
  vmm, auto_suspend_not_permanent, empty_schedule_cmd, no_cron_schedule, bad_cron_schedule,
  schedule_fields_elsewhere, size_too_small, bad_mount_path, io,
}
use tikovm.Error
use tikovm.Net.State.{NetState}
use tikovm.Net.Types.{VmNet, for_vm}
use tikovm.Net.Manager.{HostCall, NetworkManager, allocate, release_vm}
use tikovm.Vmm.VmState.{created}
use tikovm.Vmm.Config.{VmConfig, VmMode, schedule, AutoSuspendConfig, BlockStorageConfig}
use tikovm.Vmm.Activity.{clear}
use tikovm.Vmm.Firecracker.AutoSuspend.{is_permanent}
use tikovm.Vmm.Instance.{VmInstance, new, join, transition}
use tikovm.Vmm.Firecracker.{FirecrackerVmm, FcVmEntry, attach, detach, no_such, Outcome}

abbrev check_mode : (Text → Bool) → VmMode → VmConfig → Error.Result (Unit {0})
check_mode cron_ok schedule c = do
  ensure (not (is_empty c.cmd)) (vmm empty_schedule_cmd)
  elim c.cron_schedule [
    | none ↦ err (vmm no_cron_schedule)
    | some expr ↦ ensure (cron_ok expr) (vmm bad_cron_schedule)
  ]
check_mode cron_ok mode c =
    ensure (not (is_some c.cron_schedule || is_some c.timeout_secs)) (vmm schedule_fields_elsewhere)

abbrev allowed_chunk_kb : ℕ → Bool
allowed_chunk_kb n = any (nat_beq n) (256 ∷ 512 ∷ 1024 ∷ 2048 ∷ 4096 ∷ [])

abbrev check_chunk : Option ℕ → Bool
check_chunk none = true
check_chunk (some kb) = allowed_chunk_kb kb

-- The characters of a mount path: ASCII letters and digits, `/`, `-`, `_` and `.`.
abbrev mount_char : ℕ → Bool
mount_char c =
    (leb 48 c && leb c 57)
    || (leb 65 c && leb c 90)
    || (leb 97 c && leb c 122)
    || nat_beq c 47
    || nat_beq c 45
    || nat_beq c 95
    || nat_beq c 46

abbrev all_mount_chars : Text → Bool
all_mount_chars [] = true
all_mount_chars (c ∷ cs) = mount_char c && all_mount_chars cs

-- The empty path mounts nothing.
abbrev mount_path_ok : Text → Bool
mount_path_ok [] = true
mount_path_ok (c ∷ []) = false
mount_path_ok (c ∷ d ∷ cs) = nat_beq c 47 && mount_char d && all_mount_chars cs

abbrev check_storage : Option BlockStorageConfig → Error.Result (Unit {0})
check_storage none = ok tt
check_storage (some bs) = do
  ensure (leb 128 bs.size_mb) (vmm size_too_small)
  ensure (check_chunk bs.chunk_kb) (vmm Error.bad_chunk_size)
  ensure (mount_path_ok bs.mount_path) (vmm bad_mount_path)

-- The validation at the head of `create_vm`.
unfoldable pub validate : (Text → Bool) → VmConfig → Error.Result (Unit {0})
validate cron_ok c = do
  ensure (not (is_some c.auto_suspend) || is_permanent c.mode) (vmm auto_suspend_not_permanent)
  check_mode cron_ok c.mode c
  check_storage c.block_storage

abbrev default_check : AutoSuspendConfig → AutoSuspendConfig
default_check a =
    if is_empty a.idle_check_cmd
    then record a { idle_check_cmd = bytes "/usr/local/bin/tikovm-pg-idle-check" ∷ [] }
    else a

abbrev with_check : Option AutoSuspendConfig → Option AutoSuspendConfig
with_check none = none
with_check (some a) = some (default_check a)

-- The idle check that the images of the databases ship.
unfoldable pub image_defaults : VmConfig → VmConfig
image_defaults c =
    if text_beq c.image (bytes "postgres-16") || text_beq c.image (bytes "tiko-postgres")
    then record c { auto_suspend = with_check c.auto_suspend }
    else c

-- What the calls that `create_vm` awaits return: the directory, the block device, the process.
pub record Answers : Type 0 where
  pub vm_id : Text
  pub now : ℕ
  pub mkdir : Error.Result (Unit {0})
  pub device : Error.Result Text
  pub spawn : Error.Result ℕ
  pub configure : Error.Result (Unit {0})

unfoldable pub new_entry : VmInstance → FcVmEntry
new_entry i = record {
  fc = none;
  workloads = [];
  guest_conn = none;
  workloads_dir = join i.work_dir (bytes "workloads");
}

-- The block device, where one is configured, then the process and its configuration.
abbrev pub attach_volume : Option BlockStorageConfig → Answers → Error.Result (Option Text)
attach_volume none a = ok none
attach_volume (some bs) a = elim a.device [ ok dev ↦ ok (some dev) | err e ↦ err e ]

abbrev pub boot : Answers → Error.Result ℕ
boot a = elim a.spawn [
  | err e ↦ err e
  | ok pid ↦ elim a.configure [ err e ↦ err e | ok u ↦ ok pid ]
]

abbrev pub log : Bool → FirecrackerVmm → Text → Bool → FirecrackerVmm
log false f vm_id b = f
log true f vm_id true = record f { spawned = attach vm_id ∷ f.spawned }
log true f vm_id false = record f { spawned = detach vm_id ∷ f.spawned }

abbrev pub listed : FirecrackerVmm → VmInstance → ℕ → VmInstance → FirecrackerVmm
listed f i pid i' = record f {
  vms = insert i.vm_id (record (new_entry i) { fc = some pid }) f.vms;
  instances = insert i.vm_id i' f.instances;
}

-- The VM is registered with its process, and its state moves to `Created`.
unfoldable pub register : FirecrackerVmm → VmInstance → ℕ → FirecrackerVmm × Error.Result Text
register f i pid = elim (transition i created) [
  | err e ↦ (listed f i pid i, err e)
  | ok i' ↦ (listed f i pid i', ok i.vm_id)
]

module _ (host : HostCall → Error.Result (Unit {0}))
    (write_file : NetState → Error.Result (Unit {0})) where
  -- The error branch: the volume if it was attached, then the network.
  unfoldable pub roll_back_create :
      FirecrackerVmm → Text → Option Text → Error.Error → FirecrackerVmm × Error.Result Text
  roll_back_create f vm_id device e =
      let f' = log (is_some device) f vm_id false in
      (record f' { net_mgr = (release_vm host write_file f'.net_mgr vm_id).0 }, err e)

  abbrev pub booted :
      FirecrackerVmm
      → VmInstance
      → Option Text
      → Error.Result ℕ
      → FirecrackerVmm × Error.Result Text
  booted f i device (err e) = roll_back_create f i.vm_id device e
  booted f i device (ok pid) = register f (record i { block_device = device }) pid

  abbrev pub attached :
      FirecrackerVmm
      → VmInstance
      → Answers
      → Error.Result (Option Text)
      → FirecrackerVmm × Error.Result Text
  attached f i a (err e) = roll_back_create f i.vm_id none e
  attached f i a (ok device) = booted (log (is_some device) f i.vm_id true) i device (boot a)

  -- After the allocation of the network, which takes the next guest CID with it.
  abbrev pub networked :
      FirecrackerVmm
      → VmInstance
      → Answers
      → NetworkManager × Error.Result VmNet
      → FirecrackerVmm × Error.Result Text
  networked f i a (m, err e) = (record f { net_mgr = m }, err e)
  networked f i a (m, ok vm_net) =
      attached (record f { net_mgr = m; next_cid = (f.next_cid + 1) % 2 ^ 32 })
        (record i { net = some vm_net; guest_cid = some f.next_cid }) a
        (attach_volume i.vm_config.block_storage a)

  abbrev pub made_dir :
      FirecrackerVmm
      → VmInstance
      → Answers
      → Error.Result (Unit {0})
      → FirecrackerVmm × Error.Result Text
  made_dir f i a (err e) = (f, err e)
  made_dir f i a (ok u) =
      networked f i a
        (allocate host write_file f.net_mgr i.vm_config.project_id i.vm_id (for_vm i.vm_id))

  abbrev pub instantiated :
      FirecrackerVmm → Answers → Error.Result VmInstance → FirecrackerVmm × Error.Result Text
  instantiated f a (err e) = (f, err e)
  instantiated f a (ok i) = made_dir f i a a.mkdir

  unfoldable pub create_vm :
      (Text → Bool) → FirecrackerVmm → VmConfig → Answers → FirecrackerVmm × Error.Result Text
  create_vm cron_ok f config a = elim (validate cron_ok config) [
    | err e ↦ (f, err e)
    | ok u ↦ instantiated f a (new a.vm_id (image_defaults config) f.assets_dir f.work_dir a.now)
  ]

  -- The failures of the cleanup are logged, and not passed on. An operation that waits on the VM
  -- keeps its instance.
  unfoldable pub destroy_vm : FirecrackerVmm → Text → Outcome
  destroy_vm f vm_id = elim (get vm_id f.vms) [
    | none ↦ (f, err (no_such vm_id))
    | some e ↦ (
      record f {
        vms = remove vm_id f.vms;
        net_mgr = (release_vm host write_file f.net_mgr vm_id).0;
        spawned = detach vm_id ∷ f.spawned;
        wake_times = remove vm_id f.wake_times;
        wake_locks = remove vm_id f.wake_locks;
        activity = clear f.activity vm_id;
        schedule_run_locks = remove vm_id f.schedule_run_locks;
      },
      ok tt,
    )
  ]
