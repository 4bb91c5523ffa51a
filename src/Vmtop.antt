-- ===== src/Vmtop.antt =====
-- vmtop/src: the terminal monitor's view of the VMs.
pub mod Model
pub mod View
