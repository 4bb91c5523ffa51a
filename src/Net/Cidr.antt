-- ===== src/Net/Cidr.antt =====
-- `Ipv4Net` of hostd/src/net/cidr.rs: addresses are 32-bit words, and sums wrap.
pub mod Bounds
use tikovm.Prelude.{
  ℕ, ◌+◌, ◌-◌, ◌*◌, ◌/◌, ◌%◌, ◌^◌, ◌&&◌, ◌||◌, Option, none, some, [], ◌∷◌, Text, ltb, leb, nat_beq,
  if◌then◌else◌, length, ok, ok_or, ensure, ◌>>=◌, ◌>>◌, u32_mod, decimal,
}
use tikovm.Error.{
  Error, net, invalid_cidr, CidrFault, missing_prefix, bad_address, unreadable_prefix, bad_prefix,
}
use tikovm.Error

pub record Ipv4Net : Type 0 where
  pub addr : ℕ
  pub prefix : ℕ

abbrev below_256 : Option ℕ → Option ℕ
below_256 none = none
below_256 (some n) = if ltb n 256 then some n else none

-- `u8::from_str`: a plus sign and leading zeros are allowed.
unfoldable pub parse_u8 : Text → Option ℕ
parse_u8 [] = none
parse_u8 (c ∷ []) = below_256 (decimal 0 (c ∷ []))
parse_u8 (c ∷ d ∷ t) =
    if nat_beq c b'+' then below_256 (decimal 0 (d ∷ t)) else below_256 (decimal 0 (c ∷ d ∷ t))

-- An octet of a dotted address: one to three digits, no leading zero.
unfoldable pub parse_octet : Text → Option ℕ
parse_octet [] = none
parse_octet (c ∷ []) = decimal 0 (c ∷ [])
parse_octet (c ∷ d ∷ t) =
    if nat_beq c b'0' || ltb 3 (length (c ∷ d ∷ t)) then none else below_256 (decimal 0 (c ∷ d ∷ t))

-- `split_once`.
unfoldable pub split_once : ℕ → Text → Option (Text × Text)
split_once sep [] = none
split_once sep (c ∷ t) =
    if nat_beq c sep
    then some ([], t)
    else elim (split_once sep t) [ none ↦ none | some (a, b) ↦ some (c ∷ a, b) ]

-- `Ipv4Addr::from_str`: four octets, then the address.
unfoldable pub from_octets : Option ℕ → Option ℕ → Option ℕ → Option ℕ → Option ℕ
from_octets (some a) (some b) (some c) (some d) = some (((a * 256 + b) * 256 + c) * 256 + d)
from_octets _ _ _ _ = none

unfoldable pub parse_addr : Text → Option ℕ
parse_addr t = elim (split_once b'.' t) [
  | none ↦ none
  | some (ta, t1) ↦ elim (split_once b'.' t1) [
    | none ↦ none
    | some (tb, t2) ↦ elim (split_once b'.' t2) [
      | none ↦ none
      | some (tc, td) ↦
          from_octets (parse_octet ta) (parse_octet tb) (parse_octet tc) (parse_octet td)
    ]
  ]
]

-- `u32::MAX << (32 - prefix)`, for a prefix of 1 to 32.
unfoldable pub mask : ℕ → ℕ
mask prefix = 4294967295 * 2 ^ (32 - prefix) % u32_mod

-- `x & mask`, for a mask of `mask prefix`: the host bits are cleared.
unfoldable pub masked : ℕ → ℕ → ℕ
masked x prefix = x / 2 ^ (32 - prefix) * 2 ^ (32 - prefix)

unfoldable pub parse : Text → Error.Result Ipv4Net
parse s = do
  (host_part, prefix_part) ← ok_or (split_once b'/' s) (net (invalid_cidr s missing_prefix))
  addr ← ok_or (parse_addr host_part) (net (invalid_cidr s bad_address))
  prefix ← ok_or (parse_u8 prefix_part) (net (invalid_cidr s unreadable_prefix))
  ensure (leb 1 prefix && leb prefix 32) (net (invalid_cidr s bad_prefix))
  ok (record { addr = masked addr prefix; prefix = prefix })

-- The operations take the prefix apart as the source does: `1 << (32 - prefix)`.
unfoldable pub size : Ipv4Net → ℕ
size n = 2 ^ (32 - n.prefix)

unfoldable pub host : Ipv4Net → ℕ → ℕ
host n idx = (n.addr + idx) % u32_mod

unfoldable pub subnet : Ipv4Net → ℕ → ℕ → Ipv4Net
subnet n index prefix = record {
  addr = (n.addr + index * 2 ^ (32 - prefix) % u32_mod) % u32_mod;
  prefix = prefix;
}

unfoldable pub subnet_count : Ipv4Net → ℕ → ℕ
subnet_count n prefix = 2 ^ (prefix - n.prefix)

unfoldable pub netmask : Ipv4Net → ℕ
unfolding mask
netmask n = mask n.prefix
