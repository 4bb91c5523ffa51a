-- ===== src/Lib.antt =====
-- Tikovm, a manager of Firecracker microVMs: the host daemon of hostd/src, and the view of its monitor.
--
-- The daemon keeps a table of VMs. To create one it allocates a TAP device, an address and, for the
-- first VM of a project, a bridge and a subnet; then it spawns and configures Firecracker. VMs are
-- started, paused, snapshotted and restored through Firecracker's API; workloads run in them through
-- an agent; a proxy forwards connections that carry a token, wakes suspended VMs, and counts the
-- requests that keep a VM from being suspended; a scheduler runs the command of a VM by its cron
-- expression; and a VM may have a block device, whose requests a worker serves from chunk files.
--
-- Files:
-- Prelude and the files below it: tests, lists, text as bytes, association maps, results, powers.
-- Error: hostd/src/error.rs.
-- Net/Cidr: hostd/src/net/cidr.rs. Addresses are 32-bit numbers, with the wrap-around written out.
-- Net/Types: hostd/src/net/types.rs, TAP names, MAC addresses and the registry of exposed ports.
-- Net/State: `NetState::alloc`, `rollback_alloc` and `release` of hostd/src/net/state.rs. Its lemmas
--     speak of `holder`, who holds an address.
-- Net/Manager: hostd/src/net/manager.rs. The commands on the host and the file are parameters.
-- Vmm/VmState, Vmm/Config, Vmm/Instance: hostd/src/vmm/vm.rs.
-- Vmm/Workload, Vmm/Activity: hostd/src/vmm/workload.rs and activity.rs.
-- Vmm/Firecracker: the lifecycle operations of hostd/src/vmm/firecracker/vmm.rs. An operation that
--     awaits Firecracker is a `begin`, up to the wait, and an `end` on the outcome of its calls; a
--     snapshot waits once more, for the process that it kills, between `stop_process` and `park`.
--     Steps interleaves them. Create has `create_vm` and `destroy_vm`, Wake `ensure_started`, Workloads the
--     workloads, the exposed ports and the events of hostd/src/vmm/firecracker/guest.rs, AutoSuspend
--     hostd/src/vmm/firecracker/auto_suspend.rs.
-- Vmm/Firecracker/Schedule: hostd/src/vmm/firecracker/schedule.rs. Ticks has which VMs a tick
--     collects, Locks and Overlaps the locks of the runs, Launches the runs that a tick starts, Waits the wait for a run.
-- Storage/Files: files with the bytes that a read sees and those on stable storage.
-- Storage/Volume: hostd/src/storage/volume.rs. Io has reads, writes and flushes, Opening the creation
--     and the opening; Invariant states what a volume keeps; Disk reads a volume as a flat disk.
-- Storage/Worker: `io_task` of hostd/src/storage/ublk_worker.rs, and the disk that it implements.
-- Storage/Manager: hostd/src/storage/manager.rs. The respawning task is a step function on what it
--     waits for; what is done to processes and devices is a list of actions.
-- Proxy/Startup, Proxy/Options: hostd/src/proxy/tcp.rs. Proxy/Target: token.rs and target.rs.
-- Vmtop/Model, Vmtop/View: vmtop/src/model.rs and view.rs, the view of the terminal monitor. View has
--     the rows, View/Moves what is done to a view; Rows and Selection are about the rows and the
--     selection, Keys, Refreshes and Displayed about keys and polls.
-- Tests: runs of the theorems at concrete inputs.
--
-- Loops are recursion on the list that they walk. The search for a free subnet or address walks its
-- range; the parser of a startup message makes at most one round more than the frame has bytes, which
-- is enough since each parameter takes a byte at least; the loop of a wake-up walks the tables that
-- its polls see. A request to a volume has as many rounds as bytes, since each takes a byte at least;
-- the eviction has the bound of the source, two pops for each descriptor of the capacity. Offsets are
-- below 2 ^ 64, with the wrap-around in the check of a request written out.
--
-- Instances are a store keyed by the identifier of the VM, since an operation that waits keeps its
-- reference to the instance when the entry is removed. Identifiers are random; that a new one is
-- fresh is a hypothesis where it matters. Clocks, identifiers, the answers of Firecracker, of the
-- storage manager, of the cron library and of the JSON codec, the outcomes of system calls, and
-- `String::from_utf8_lossy`, `to_lowercase` and the display of an address are arguments. A read of
-- a chunk gives all that the file has of it. The threads of a flush run one after the other;
-- Storage/Volume/Mishaps has a write amid a flush. The white space of a cron expression is that of
-- ASCII.
--
-- Not modelled: poisoned locks but that of a volume's descriptors, log files, sockets, processes
-- and the JWT library, which are I/O or libraries; the probe of the port of a VM that was just
-- woken, which only refuses more; the HTTP proxy, the API routes and the startup, which are glue
-- around them; the guest agent; and of the terminal monitor all but its view. `destroy_vm` waits
-- on the process and the devices after it has removed the entry: it is one step in Create, and in
-- Steps it is the removal alone.
pub mod Prelude
pub mod Error
pub mod Net
pub mod Vmm
pub mod Storage
pub mod Vmtop
pub mod Proxy
pub mod Tests
