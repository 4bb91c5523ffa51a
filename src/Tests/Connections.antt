-- ===== src/Tests/Connections.antt =====
-- A connection through the proxy.
use tikovm.Prelude.{true, false, some, List, [], ◌∷◌, Text, text_eq, bytes, get, ◌≡◌, refl, ◌⊎◌}
use tikovm.Net.Types.{vm_net}
use tikovm.Vmm.VmState.{started}
use tikovm.Vmm.Instance.{VmInstance}
use tikovm.Vmm.Firecracker.{FirecrackerVmm}
use tikovm.Proxy.Startup.{parse_startup, build_startup}
use tikovm.Proxy.Startup.RoundTrip.{Sendable, NoNul, parse_startup-build_startup}
use tikovm.Proxy.Options.{collect, extract_token}
use tikovm.Proxy.Options.Stripping.{Stripped, extract_token-Stripped}
use tikovm.Proxy.Target.{
  Claims, http, mint_claims, validate_target, resolve_target, get_vm, needs_wake,
}
use tikovm.Proxy.Target.Access.{Reachable, resolve_target_lem}
use tikovm.Tests.Networks.{vm_a, supernet}
use tikovm.Tests.Vms.{table, instance_in}

-- All the text here is ASCII.
abbrev ascii : Text → Text
ascii t = t

abbrev params : List (Text × Text)
params = (bytes "user", bytes "db") ∷ []

params-Sendable : Sendable ascii params
unfolding Sendable NoNul
params-Sendable = (
  (
    (λ p. cc),
    (
      ((λ p. cc), ((λ p. cc), ((λ p. cc), ((λ p. cc), tt)))),
      (((λ p. cc), ((λ p. cc), tt)), (refl, refl)),
    ),
  ),
  tt,
)

parse_startup-build_startup_example : parse_startup ascii (build_startup params) ≡ some params
parse_startup-build_startup_example = parse_startup-build_startup ascii params params-Sendable

extract_token-Stripped_example : Stripped params
unfolding extract_token collect
extract_token-Stripped_example =
    extract_token-Stripped ascii ((bytes "tikovm_token", bytes "ab.cd") ∷ params) (bytes "ab.cd")
      params refl

abbrev claims : Claims
claims = mint_claims vm_a 8080 http 60 1000

abbrev running_vm : VmInstance
running_vm = record (instance_in started) {
  net = some (vm_net (bytes "tap-7") 167772162 167772161 supernet);
}

abbrev running : FirecrackerVmm
running = record (table started []) { instances = (vm_a, running_vm) ∷ [] }

resolve_target_lem_example :
    (i : VmInstance) × ((get_vm running claims.vm_id ≡ some i)
      × ((j : VmInstance) × (Reachable j claims 167772162
            × (((needs_wake i.state ≡ false) × (i ≡ j))
                ⊎ ((needs_wake i.state ≡ true) × (get claims.vm_id running.instances ≡ some j))))))
unfolding resolve_target validate_target mint_claims get vm_net
resolve_target_lem_example = resolve_target_lem running running false claims 167772162 refl
