-- ===== src/Net/Cidr/Bounds.antt =====
-- The arithmetic of `Ipv4Net` does not wrap, and the subnets of a network are apart.
use native.Mathlib.Nat.{mod-eq_of_lt, mul-le-mul_right, div-lt_iff_lt-mul, le_antisymm, le_trans}
use native.Mathlib.Decide.{dec_le}
use tikovm.Prelude.{
  ℕ, decimal, suc, ◌+◌, ◌-◌, ◌*◌, ◌/◌, ◌^◌, ◌≤◌, ◌<◌, ◌≡◌, refl, sym, ap, ◌∙◌, arith, u32_mod,
  pow-add, pow-pos, Text, Option, some, [], ◌∷◌, ok,
}
use tikovm.Net.Cidr.{
  Ipv4Net, size, host, subnet, subnet_count, netmask, masked, parse, parse_addr, parse_octet,
  from_octets,
}

-- A network that fits into 32 bits.
pub record IsNet (n : Ipv4Net) : Type 0 where
  pub positive : 1 ≤ n.prefix
  pub short : n.prefix ≤ 32
  pub fits : n.addr + size n ≤ u32_mod

-- What `NetworkManager::new` checks of a subnet prefix.
pub record IsSubnetPrefix (n : Ipv4Net) (prefix : ℕ) : Type 0 where
  pub longer : n.prefix < prefix
  pub usable : prefix ≤ 30

-- 2 ^ 32 is `size n` times as many as the prefix counts.
pub pow-split : (p : ℕ) → p ≤ 32 → 2 ^ p * 2 ^ (32 - p) ≡ u32_mod
pow-split p h =
    let e : p + (32 - p) ≡ 32 = omega arith in sym (pow-add p (32 - p)) ∙ ap (λ (k : ℕ). 2 ^ k) e

mul_step : (i c s : ℕ) → i < c → i * s + s ≤ c * s
mul_step i c s h = grind arith

pub masked_fits : (x p : ℕ) → p ≤ 32 → x < u32_mod → masked x p + 2 ^ (32 - p) ≤ u32_mod
unfolding masked
masked_fits x p h lt =
    let s : ℕ = 2 ^ (32 - p) in
    let q-lt : x / s < 2 ^ p =
      (div-lt_iff_lt-mul (pow-pos (32 - p))).1 (omega (arith, pow-split p h)) in
    omega (arith, mul_step (x / s) (2 ^ p) s q-lt, pow-split p h)

count_size : (n : Ipv4Net) (q : ℕ) → IsSubnetPrefix n q → subnet_count n q * 2 ^ (32 - q) ≡ size n
unfolding subnet_count size
count_size n q v =
    let e : q - n.prefix + (32 - q) ≡ 32 - n.prefix = omega (arith, v.longer, v.usable) in
    sym (pow-add (q - n.prefix) (32 - q)) ∙ ap (λ (k : ℕ). 2 ^ k) e

pub four-le-pow : (q : ℕ) → q ≤ 30 → 4 ≤ 2 ^ (32 - q)
four-le-pow q h =
    let e : 32 - q ≡ 30 - q + 2 = omega arith in
    omega (arith, pow-add (30 - q) 2, pow-pos (30 - q), ap (λ (k : ℕ). 2 ^ k) e)

le_of_add : (a b : ℕ) → suc b ≤ suc (a + b)
le_of_add a b = omega arith

module _ {n : Ipv4Net} {q : ℕ} (v : IsNet n) (w : IsSubnetPrefix n q) (i : ℕ)
    (h : i < subnet_count n q) where
  index_fits : i * 2 ^ (32 - q) + 2 ^ (32 - q) ≤ size n
  index_fits = omega (arith, mul_step i (subnet_count n q) (2 ^ (32 - q)) h, count_size n q w)

  pub addr-subnet : (subnet n i q).addr ≡ n.addr + i * 2 ^ (32 - q)
  unfolding subnet
  addr-subnet =
      let small : n.addr + i * 2 ^ (32 - q) < u32_mod =
        omega (arith, index_fits, v.fits, pow-pos (32 - q)) in
      rw (mod-eq_of_lt (le_trans (le_of_add n.addr (i * 2 ^ (32 - q))) small)) (mod-eq_of_lt small)

  pub subnet-IsNet : IsNet (subnet n i q)
  unfolding size subnet
  subnet-IsNet = record {
    positive = omega (arith, w.longer, v.positive);
    short = omega (arith, w.usable);
    fits = unfold size in omega (arith, addr-subnet, index_fits, v.fits);
  }

factor_le : (a b : ℕ) → 0 < a → b ≤ a * b
factor_le a b h = grind arith

pub netmask-add-size : (n : Ipv4Net) → 1 ≤ n.prefix → n.prefix ≤ 32 → netmask n + size n ≡ u32_mod
unfolding netmask size
netmask-add-size n a b = omega (
  arith,
  pow-split n.prefix b,
  pow-pos (32 - n.prefix),
  factor_le (2 ^ n.prefix) (2 ^ (32 - n.prefix)) (pow-pos n.prefix),
)

digit_le : (i j k l s : ℕ) → k < s → l < s → i * s + k ≡ j * s + l → i ≤ j
digit_le i j k l s hk hl e = elim (dec_le i j) [
  | yes h ↦ h
  | no h ↦
      let step : suc j * s ≤ i * s = mul-le-mul_right s (let g : suc j ≤ i = omega arith in g) in
      absurd (omega arith)
]

digits_unique : (i j k l s : ℕ) → k < s → l < s → i * s + k ≡ j * s + l → (i ≡ j) × (k ≡ l)
digits_unique i j k l s hk hl e =
    let same : i ≡ j =
      le_antisymm (digit_le i j k l s hk hl e) (digit_le j i l k s hl hk (sym e)) in
    (same, omega (arith, e, ap (λ (t : ℕ). t * s) same))

module _ {n : Ipv4Net} {q : ℕ} (v : IsNet n) (w : IsSubnetPrefix n q) where
  -- Within a subnet a host's address is the plain sum.
  pub host-subnet :
      (i k : ℕ)
      → i < subnet_count n q
      → k < 2 ^ (32 - q)
      → host (subnet n i q) k ≡ n.addr + i * 2 ^ (32 - q) + k
  unfolding host
  host-subnet i k h lt =
      rw (addr-subnet v w i h) (mod-eq_of_lt (omega (arith, index_fits v w i h, v.fits)))

  -- Hosts of two subnets, or two hosts of one, have different addresses.
  pub hosts_apart :
      (i j k l : ℕ)
      → i < subnet_count n q
      → j < subnet_count n q
      → k < 2 ^ (32 - q)
      → l < 2 ^ (32 - q)
      → host (subnet n i q) k ≡ host (subnet n j q) l
      → (i ≡ j) × (k ≡ l)
  hosts_apart i j k l hi hj hk hl e =
      digits_unique i j k l (2 ^ (32 - q)) hk hl
        (omega (arith, e, host-subnet i k hi hk, host-subnet j l hj hl))

parse_octet-lt : (t : Text) (n : ℕ) → parse_octet t ≡ some n → n < 256
unfolding parse_octet decimal
parse_octet-lt [] n h = cc
parse_octet-lt (c ∷ []) n h = ground arith
parse_octet-lt (c ∷ d ∷ t) n h = ground arith

octets_lt :
    (o p q r : Option ℕ) (n : ℕ)
    → ((a : ℕ) → o ≡ some a → a < 256)
    → ((a : ℕ) → p ≡ some a → a < 256)
    → ((a : ℕ) → q ≡ some a → a < 256)
    → ((a : ℕ) → r ≡ some a → a < 256)
    → from_octets o p q r ≡ some n
    → n < u32_mod
unfolding from_octets
octets_lt (some a) (some b) (some c) (some d) n ho hp hq hr e =
    ground (arith, ho a refl, hp b refl, hq c refl, hr d refl)
octets_lt _ _ _ _ n ho hp hq hr e = cc

octets4_lt :
    (a b c d : Text) (n : ℕ)
    → from_octets (parse_octet a) (parse_octet b) (parse_octet c) (parse_octet d) ≡ some n
    → n < u32_mod
octets4_lt a b c d n =
    octets_lt (parse_octet a) (parse_octet b) (parse_octet c) (parse_octet d) n (parse_octet-lt a)
      (parse_octet-lt b) (parse_octet-lt c) (parse_octet-lt d)

parse_addr-lt : (t : Text) (n : ℕ) → parse_addr t ≡ some n → n < u32_mod
unfolding parse_addr
parse_addr-lt t n h = grind (arith, octets4_lt)

-- Whatever is parsed is a network that fits, with its host bits cleared.
pub parse-IsNet : (s : Text) (n : Ipv4Net) → parse s ≡ ok n → IsNet n
unfolding parse size
parse-IsNet s n h = grind (arith, masked_fits, parse_addr-lt)
