-- ===== src/Vmm.antt =====
-- hostd/src/vmm: the virtual machine monitor.
pub mod VmState
pub mod Config
pub mod Workload
pub mod Activity
pub mod Instance
pub mod Firecracker
