-- ===== src/Net/Types/Laws.antt =====
-- The registry of exposed ports, the names of TAP devices, and guest MAC addresses.
use tikovm.Prelude.{
  ℕ, ◌/◌, ◌%◌, ◌≤◌, ◌<◌, ◌≡◌, ◌≢◌, refl, ap, true, false, none, some, List, [], ◌∷◌, ◌++◌, Text,
  bytes, nat_beq, if◌then◌else◌, ok, err, arith, length, length-append, show_decimal,
  length-show_decimal, u32_mod, get_or, Bool-cases, Option-cases, inl, inr, ◌↔◌,
}
use tikovm.Error.{invalid_port, port_already_exposed, port_not_exposed}
use tikovm.Net.{ifnamsiz_max}
use tikovm.Net.Types.{
  ExposedPort, NetworkConfig, is_port, port_listed, add_exposed_port, without_port,
  remove_exposed_port, for_vm, guest_mac_from_ip, hex_digit,
}

-- No port is registered twice, and none is port 0.
abbrev pub PortsValid : List ExposedPort → Type 0
PortsValid [] = Unit {0}
PortsValid (p ∷ ps) = (0 < p.port) × (port_listed p.port ps ≡ false) × PortsValid ps

port_listed-snoc :
    (n : ℕ) (q : ExposedPort) (ps : List ExposedPort)
    → port_listed n ps ≡ false
    → n ≢ q.port
    → port_listed n (ps ++ q ∷ []) ≡ false
port_listed-snoc n q [] h ne = ground arith
port_listed-snoc n q (p ∷ ps) h ne = ground (arith, port_listed-snoc n q ps)

PortsValid-snoc :
    (q : ExposedPort) (ps : List ExposedPort)
    → 0 < q.port
    → port_listed q.port ps ≡ false
    → PortsValid ps
    → PortsValid (ps ++ q ∷ [])
PortsValid-snoc q [] pos new v = ground arith
PortsValid-snoc q (p ∷ ps) pos new v =
    ground (arith, PortsValid-snoc q ps pos, port_listed-snoc p.port q ps)

zero_not_listed : (ps : List ExposedPort) → PortsValid ps → port_listed 0 ps ≡ false
zero_not_listed [] v = refl
zero_not_listed (p ∷ ps) v = ground (arith, zero_not_listed ps)

listed_at : (k m : ℕ) (ps : List ExposedPort) → k ≡ m → port_listed k ps ≡ port_listed m ps
listed_at k m ps e = ap (λ n. port_listed n ps) e

-- On a valid registry, registering a port succeeds exactly if the port is neither 0 nor registered
-- yet, appends the entry and keeps the registry valid; otherwise it fails with the error that says
-- which of the two it was.
pub add_exposed_port_lem :
    (c : NetworkConfig) (vm : Text) (p : ExposedPort)
    → PortsValid c.exposed_ports
    → ((c' : NetworkConfig)
        → add_exposed_port c vm p ≡ ok c'
        → PortsValid c'.exposed_ports × (c'.exposed_ports ≡ c.exposed_ports ++ p ∷ []))
      × ((add_exposed_port c vm p ≡ err (invalid_port 0)) ↔ (p.port ≡ 0))
      × ((add_exposed_port c vm p ≡ err (port_already_exposed vm p.port))
          ↔ (port_listed p.port c.exposed_ports ≡ true))
unfolding add_exposed_port
add_exposed_port_lem c vm p v =
    let none_zero = zero_not_listed c.exposed_ports v in
    (
      λ c' e. ground (arith, PortsValid-snoc p c.exposed_ports),
      (λ e. ground arith, λ e. ground arith),
      (λ e. ground arith, λ e. ground (arith, none_zero, listed_at p.port 0 c.exposed_ports)),
    )

without_port-none :
    (n : ℕ) (ps : List ExposedPort) → port_listed n ps ≡ false → without_port n ps ≡ none
unfolding without_port
without_port-none n [] h = refl
without_port-none n (p ∷ ps) h = ground (arith, without_port-none n ps)

without_port-some :
    (n : ℕ) (ps qs : List ExposedPort)
    → PortsValid ps
    → without_port n ps ≡ some qs
    → (m : ℕ) → port_listed m qs ≡ (if nat_beq m n then false else port_listed m ps)
unfolding without_port
without_port-some n [] qs v e m = cc
without_port-some n (p ∷ ps) qs v e m = elim (Bool-cases (is_port n p)) [
  | inl hit ↦
      let same : ps ≡ qs = ground (arith, hit) in
      rw (← same) (ground (arith, hit, listed_at p.port m ps))
  | inr miss ↦ elim (Option-cases (without_port n ps)) [
    | inl f ↦ ground (arith, miss, f)
    | inr (rs, f) ↦
        let same : p ∷ rs ≡ qs = ground (arith, miss, f) in
        rw (← same) (ground (arith, miss, without_port-some n ps rs v.2 f m))
  ]
]

without_port-PortsValid :
    (n : ℕ) (ps qs : List ExposedPort) → PortsValid ps → without_port n ps ≡ some qs → PortsValid qs
unfolding without_port
without_port-PortsValid n [] qs v e = cc
without_port-PortsValid n (p ∷ ps) qs v e = elim (Bool-cases (is_port n p)) [
  | inl hit ↦ let same : ps ≡ qs = ground (arith, hit) in rw (← same) v.2
  | inr miss ↦ elim (Option-cases (without_port n ps)) [
    | inl f ↦ ground (arith, miss, f)
    | inr (rs, f) ↦
        let same : p ∷ rs ≡ qs = ground (arith, miss, f) in
        rw (← same) (
          v.0,
          ground (arith, without_port-some n ps rs v.2 f p.port),
          without_port-PortsValid n ps rs v.2 f,
        )
  ]
]

not_without : (n : ℕ) (ps : List ExposedPort) → without_port n ps ≡ none → port_listed n ps ≡ false
unfolding without_port
not_without n [] h = refl
not_without n (p ∷ ps) h = ground (arith, not_without n ps)

-- Taking a port off a valid registry succeeds exactly if it is registered. Then it is registered
-- no longer, every other port stays as it was, and the registry is still valid.
pub remove_exposed_port_lem :
    (c : NetworkConfig) (vm : Text) (n : ℕ)
    → PortsValid c.exposed_ports
    → ((c' : NetworkConfig)
        → remove_exposed_port c vm n ≡ ok c'
        → PortsValid c'.exposed_ports
          × ((m : ℕ)
              → port_listed m c'.exposed_ports
                ≡ (if nat_beq m n then false else port_listed m c.exposed_ports)))
      × ((remove_exposed_port c vm n ≡ err (port_not_exposed vm n))
          ↔ (port_listed n c.exposed_ports ≡ false))
unfolding remove_exposed_port
remove_exposed_port_lem c vm n v = (removed, missing)
  where
    removed :
        (c' : NetworkConfig)
        → remove_exposed_port c vm n ≡ ok c'
        → PortsValid c'.exposed_ports
          × ((m : ℕ)
              → port_listed m c'.exposed_ports
                ≡ (if nat_beq m n then false else port_listed m c.exposed_ports))
    removed c' e = elim (Option-cases (without_port n c.exposed_ports)) [
      | inl f ↦ ground (arith, f)
      | inr (qs, f) ↦
          let same : qs ≡ c'.exposed_ports = ground (arith, f) in
          rw (← same) (
            without_port-PortsValid n c.exposed_ports qs v f,
            without_port-some n c.exposed_ports qs v f,
          )
    ]

    missing :
        (remove_exposed_port c vm n ≡ err (port_not_exposed vm n))
        ↔ (port_listed n c.exposed_ports ≡ false)
    missing = (
      λ e. not_without n c.exposed_ports (ground (arith, e)),
      λ h. rw (without_port-none n c.exposed_ports h, remove_exposed_port),
    )

hex_digit-injective : (a b : ℕ) → a < 16 → b < 16 → hex_digit a ≡ hex_digit b → a ≡ b
hex_digit-injective a b ha hb e = ground arith

octet-injective :
    (a b : ℕ)
    → a < 256
    → b < 256
    → hex_digit (a / 16) ≡ hex_digit (b / 16)
    → hex_digit (a % 16) ≡ hex_digit (b % 16)
    → a ≡ b
octet-injective a b ha hb high low = omega (
  arith,
  hex_digit-injective (a / 16) (b / 16) (omega arith) (omega arith) high,
  hex_digit-injective (a % 16) (b % 16) (omega arith) (omega arith) low,
)

-- Two 32-bit addresses with one MAC address are one address.
pub guest_mac-injective :
    (a b : ℕ) → a < u32_mod → b < u32_mod → guest_mac_from_ip a ≡ guest_mac_from_ip b → a ≡ b
unfolding guest_mac_from_ip
guest_mac-injective a b ha hb e = omega (
  arith,
  octet-injective (a / 16777216 % 256) (b / 16777216 % 256) (omega arith) (omega arith) (at 6)
      (at 7),
  octet-injective (a / 65536 % 256) (b / 65536 % 256) (omega arith) (omega arith) (at 9) (at 10),
  octet-injective (a / 256 % 256) (b / 256 % 256) (omega arith) (omega arith) (at 12) (at 13),
  octet-injective (a % 256) (b % 256) (omega arith) (omega arith) (at 15) (at 16),
)
  where
    at : (i : ℕ) → get_or (guest_mac_from_ip a) i 0 ≡ get_or (guest_mac_from_ip b) i 0
    at i = ap (λ t. get_or t i 0) e

-- A VM id of a project with five digits or more, of the form that `VmId::new_random` makes, gives a
-- TAP name that no host interface can have.
pub for_vm_too_long :
    (project : ℕ) (suffix : Text)
    → 10000 ≤ project
    → length suffix ≡ 6
    → ifnamsiz_max
      < length (for_vm (bytes "vm-" ++ (show_decimal project ++ (bytes "-" ++ suffix))))
unfolding for_vm
for_vm_too_long project suffix big six = omega (
  arith,
  length-append (show_decimal project) (bytes "-" ++ suffix),
  length-show_decimal 4 project big (omega arith),
)

-- Registering a port that succeeds on a valid registry appends the entry and keeps the registry valid.
pub add_exposed_port-PortsValid :
    (c c' : NetworkConfig) (vm : Text) (p : ExposedPort)
    → PortsValid c.exposed_ports
    → add_exposed_port c vm p ≡ ok c'
    → PortsValid c'.exposed_ports × (c'.exposed_ports ≡ c.exposed_ports ++ p ∷ [])
add_exposed_port-PortsValid c c' vm p v h = (add_exposed_port_lem c vm p v).0 c' h

-- Taking a port off a valid registry, where it succeeds, leaves a valid registry on which the port is no
-- longer listed, and every other port is as before.
pub remove_exposed_port-PortsValid :
    (c c' : NetworkConfig) (vm : Text) (n : ℕ)
    → PortsValid c.exposed_ports
    → remove_exposed_port c vm n ≡ ok c'
    → PortsValid c'.exposed_ports
      × ((m : ℕ)
          → port_listed m c'.exposed_ports
            ≡ (if nat_beq m n then false else port_listed m c.exposed_ports))
remove_exposed_port-PortsValid c c' vm n v h = (remove_exposed_port_lem c vm n v).0 c' h
