-- ===== src/Vmm/Config.antt =====
-- The configuration types of hostd/src/vmm/vm.rs.
use tikovm.Prelude.{ℕ, Bool, Option, List, Text, bytes, text_beq, if◌then◌else◌, ok, err}
use tikovm.Error.{invalid_image}
use tikovm.Error
use tikovm.Net.Types.{NetworkConfig}

pub data VmMode : Type 0 where
  ephemeral permanent schedule : VmMode

pub record AutoSuspendConfig : Type 0 where
  pub idle_timeout_secs : ℕ
  pub idle_check_cmd : List Text
  pub check_interval_secs : ℕ

pub record BlockStorageConfig : Type 0 where
  pub size_mb : ℕ
  pub chunk_kb : Option ℕ
  pub mount_path : Text

pub record EnvVar : Type 0 where
  pub key : Text
  pub value : Text

pub record VmConfig : Type 0 where
  pub name : Text
  pub project_id : ℕ
  pub mode : VmMode
  pub image : Text
  pub cpus : ℕ
  pub memory_mb : ℕ
  pub disk_size_mb : ℕ
  pub network_config : NetworkConfig
  pub ssh_access : Bool
  pub env : List EnvVar
  pub cmd : List Text
  pub services : List Text
  pub cron_schedule : Option Text
  pub timeout_secs : Option ℕ
  pub tags : List Text
  pub auto_suspend : Option AutoSuspendConfig
  pub block_storage : Option BlockStorageConfig

unfoldable pub rootfs_file : VmConfig → Error.Result Text
rootfs_file c =
    if text_beq c.image (bytes "node-22")
    then ok (bytes "node-22-rootfs.ext4")
    else if text_beq c.image (bytes "postgres-16")
    then ok (bytes "postgres-16-rootfs.ext4")
    else if text_beq c.image (bytes "postgrest")
    then ok (bytes "postgrest-rootfs.ext4")
    else if text_beq c.image (bytes "python-3.12")
    then ok (bytes "python-3.12-rootfs.ext4")
    else if text_beq c.image (bytes "s3files")
    then ok (bytes "s3files-rootfs.ext4")
    else if text_beq c.image (bytes "tiko-postgres")
    then ok (bytes "tiko-postgres-rootfs.ext4")
    else if text_beq c.image (bytes "ubuntu-24")
    then ok (bytes "ubuntu-24.04-rootfs.ext4")
    else err (invalid_image c.image)
