-- ===== src/Tests.antt =====
-- Runs of the theorems at concrete inputs.
mod Volumes
mod Workers
mod Schedules
mod Networks
mod Vms
mod Connections
mod Views
