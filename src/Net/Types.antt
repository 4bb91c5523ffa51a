-- ===== src/Net/Types.antt =====
-- hostd/src/net/types.rs: interface names, the registry of exposed ports, a VM's network identity.
pub mod Laws
use tikovm.Prelude.{
  ℕ, ◌+◌, ◌-◌, ◌/◌, ◌%◌, Bool, Option, none, some, List, [], ◌∷◌, ◌++◌, Text, bytes, strip_prefix,
  ltb, nat_beq, if◌then◌else◌, any, Result, ok, err, ensure, ◌>>=◌, ◌>>◌,
}
use tikovm.Error.{Error, invalid_port, port_already_exposed, port_not_exposed}
use tikovm.Error
use tikovm.Net.Cidr.{Ipv4Net}

-- `vm-1-aaaaaa` becomes `tap-1-aaaaaa`.
unfoldable pub for_vm : Text → Text
unfolding strip_prefix
for_vm vm_id = elim (strip_prefix (bytes "vm-") vm_id) [
  | none ↦ bytes "tap-" ++ vm_id
  | some suffix ↦ bytes "tap-" ++ suffix
]

pub record ExposedPort : Type 0 where
  pub port : ℕ
  pub label : Text

pub record NetworkConfig : Type 0 where
  pub allow_internet : Bool
  pub exposed_ports : List ExposedPort
  pub egress : List Text
  pub public_access : Bool

abbrev pub is_port : ℕ → ExposedPort → Bool
is_port n p = nat_beq p.port n

abbrev pub port_listed : ℕ → List ExposedPort → Bool
port_listed n = any (is_port n)

unfoldable pub add_exposed_port : NetworkConfig → Text → ExposedPort → Error.Result NetworkConfig
add_exposed_port c vm_id p =
    if nat_beq p.port 0
    then err (invalid_port p.port)
    else if port_listed p.port c.exposed_ports
    then err (port_already_exposed vm_id p.port)
    else ok (record c { exposed_ports = c.exposed_ports ++ p ∷ [] })

-- The list without its first entry for the port: `position`, then `remove`.
unfoldable pub without_port : ℕ → List ExposedPort → Option (List ExposedPort)
without_port n [] = none
without_port n (p ∷ ps) =
    let rest = without_port n ps in
    if is_port n p then some ps else elim rest [ none ↦ none | some qs ↦ some (p ∷ qs) ]

unfoldable pub remove_exposed_port : NetworkConfig → Text → ℕ → Error.Result NetworkConfig
remove_exposed_port c vm_id n = elim (without_port n c.exposed_ports) [
  | none ↦ err (port_not_exposed vm_id n)
  | some ps ↦ ok (record c { exposed_ports = ps })
]

pub record VmNet : Type 0 where
  pub tap_name : Text
  pub guest_ip : ℕ
  pub gateway_ip : ℕ
  pub subnet : Ipv4Net
  pub guest_mac : Text

-- `{:X}` of one digit.
abbrev pub hex_digit : ℕ → ℕ
hex_digit d = if ltb d 10 then b'0' + d else b'A' + d - 10

-- `{:02X}` of an octet.
abbrev hex_octet : ℕ → Text
hex_octet o = hex_digit (o / 16) ∷ hex_digit (o % 16) ∷ []

unfoldable pub guest_mac_from_ip : ℕ → Text
guest_mac_from_ip ip =
    bytes "AA:FC:"
    ++ (hex_octet (ip / 16777216 % 256)
        ++ (bytes ":"
            ++ (hex_octet (ip / 65536 % 256)
                ++ (bytes ":"
                    ++ (hex_octet (ip / 256 % 256) ++ (bytes ":" ++ hex_octet (ip % 256)))))))

unfoldable pub vm_net : Text → ℕ → ℕ → Ipv4Net → VmNet
vm_net tap ip gateway net = record {
  tap_name = tap;
  guest_ip = ip;
  gateway_ip = gateway;
  subnet = net;
  guest_mac = guest_mac_from_ip ip;
}
