-- ===== src/Net/Manager.antt =====
-- hostd/src/net/manager.rs: `NetworkManager`, the allocator with its host-side effects and its file.
-- The `ip` and `iptables` commands of hostd/src/net/host.rs and the file system are parameters:
-- what each call returns. The calls that were made are kept, oldest first.
pub mod Outcomes
use tikovm.Prelude.{
  ℕ, suc, ◌≤◌, nat_eq, Bool, ◌||◌, Option, none, some, List, [], ◌∷◌, ◌++◌, Text, leb, ltb,
  if◌then◌else◌, Map, ok, err, ensure, ◌>>=◌, ◌>>◌,
}
use tikovm.Error.{Error, net, io, bad_subnet_prefix}
use tikovm.Error
use tikovm.Net.Cidr.{Ipv4Net, parse}
use tikovm.Net.Types.{VmNet, for_vm}
use tikovm.Net.State.{
  NetState, ProjectState, ProjectSetup, AllocPlan, ReleasePlan, empty, alloc, rollback_alloc,
  release, setup_of,
}

pub data HostCall : Type 0 where
  ensure_bridge delete_bridge : ProjectSetup → HostCall
  ensure_tap : Text → Text → HostCall
  delete_tap delete_link : Text → HostCall

-- The persisted file, as `fs::read_to_string` and `serde_json` find it.
pub data Saved : Type 0 where
  missing : Saved
  contents : NetState → Saved
  unparsable : Saved
  unreadable : Saved

pub record NetworkManager : Type 0 where
  pub state : NetState
  pub supernet : Ipv4Net
  pub subnet_prefix : ℕ
  pub saved : Saved
  pub calls : List HostCall

abbrev load : Saved → Error.Result NetState
load missing = ok empty
load (contents st) = ok st
load unparsable = err (net Error.unreadable_state)
load unreadable = err io

unfoldable pub new : Text → ℕ → Saved → Error.Result NetworkManager
new supernet_text subnet_prefix saved = do
  supernet ← parse supernet_text
  if leb subnet_prefix supernet.prefix || ltb 30 subnet_prefix
      then err (net (bad_subnet_prefix subnet_prefix))
      else do
        st ← load saved
        ok (record {
          state = st;
          supernet = supernet;
          subnet_prefix = subnet_prefix;
          saved = saved;
          calls = [];
        })

module _ (host : HostCall → Error.Result (Unit {0}))
    (write_file : NetState → Error.Result (Unit {0})) where
  -- A call with its outcome.
  abbrev call : NetworkManager → HostCall → NetworkManager × Error.Result (Unit {0})
  call m c = (record m { calls = m.calls ++ c ∷ [] }, host c)

  abbrev and_then :
      NetworkManager × Error.Result (Unit {0})
      → (NetworkManager → NetworkManager × Error.Result (Unit {0}))
      → NetworkManager × Error.Result (Unit {0})
  and_then (m, ok u) f = f m
  and_then (m, err e) f = (m, err e)

  -- The bridge of a project's first VM, then the TAP device.
  unfoldable pub apply_alloc : NetworkManager → AllocPlan → NetworkManager × Error.Result (Unit {0})
  apply_alloc m plan = elim plan.setup [
    | some setup ↦
        and_then (call m (ensure_bridge setup))
          (λ m'. call m' (ensure_tap plan.vm_net.tap_name plan.bridge))
    | none ↦ call m (ensure_tap plan.vm_net.tap_name plan.bridge)
  ]

  abbrev written : NetworkManager → Error.Result (Unit {0}) → NetworkManager
  written m (ok u) = record m { saved = contents m.state }
  written m (err e) = m

  -- `persist`: the file is replaced as a whole, or left as it was.
  unfoldable pub persist : NetworkManager → NetworkManager × Error.Result (Unit {0})
  persist m = (written m (write_file m.state), write_file m.state)

  abbrev delete_setup : NetworkManager → Option ProjectSetup → NetworkManager
  delete_setup m none = m
  delete_setup m (some setup) = (call m (delete_bridge setup)).0

  unfoldable pub undo : NetworkManager → AllocPlan → ℕ → Text → NetworkManager
  undo m plan project_id vm_id =
      let m' = delete_setup (call m (delete_tap plan.vm_net.tap_name)).0 plan.setup in
      record m' { state = rollback_alloc m'.state project_id vm_id }

  abbrev finish :
      NetworkManager × Error.Result (Unit {0}) → AllocPlan → NetworkManager × Error.Result VmNet
  finish (m, ok u) plan = (m, ok plan.vm_net)
  finish (m, err e) plan = (m, err e)

  abbrev after_apply :
      NetworkManager × Error.Result (Unit {0})
      → AllocPlan
      → ℕ
      → Text
      → NetworkManager × Error.Result VmNet
  after_apply (m, err e) plan project_id vm_id = (undo m plan project_id vm_id, err e)
  after_apply (m, ok u) plan project_id vm_id = finish (persist m) plan

  unfoldable pub allocate : NetworkManager → ℕ → Text → Text → NetworkManager × Error.Result VmNet
  allocate m project_id vm_id tap_name =
      elim (alloc m.state project_id vm_id tap_name m.supernet m.subnet_prefix) [
        | err e ↦ (m, err e)
        | ok (st, plan) ↦
            after_apply (apply_alloc (record m { state = st }) plan) plan project_id vm_id
      ]

  -- Failures on the host are logged, and not passed on.
  unfoldable pub release_vm : NetworkManager → Text → NetworkManager × Error.Result (Unit {0})
  release_vm m vm_id = elim (release m.state vm_id m.supernet m.subnet_prefix) [
    | none ↦ (m, ok tt)
    | some (st, plan) ↦
        persist
          (delete_setup (call (record m { state = st }) (delete_tap plan.tap)).0 plan.teardown)
  ]

  abbrev delete_taps : NetworkManager → Map ℕ Text → NetworkManager
  delete_taps m [] = m
  delete_taps m ((ip, vm_id) ∷ vms) = delete_taps (call m (delete_tap (for_vm vm_id))).0 vms

  abbrev delete_projects : NetworkManager → Map ℕ ProjectState → NetworkManager
  delete_projects m [] = m
  delete_projects m ((pid, p) ∷ ps) =
      delete_projects
        (call (delete_taps m p.vms) (delete_bridge (setup_of p m.supernet m.subnet_prefix))).0 ps

  abbrev delete_links : NetworkManager → List Text → NetworkManager
  delete_links m [] = m
  delete_links m (name ∷ names) = delete_links (call m (delete_link name)).0 names

  -- `stray_bridges` gives the bridges that are left, or fails.
  unfoldable pub reconcile_on_startup :
      NetworkManager → Error.Result (List Text) → NetworkManager × Error.Result (Unit {0})
  reconcile_on_startup m stray_bridges = elim stray_bridges [
    | err e ↦ (delete_projects m m.state.projects, err e)
    | ok names ↦
        persist (record (delete_links (delete_projects m m.state.projects) names) { state = empty })
  ]
