-- ===== src/Storage/Volume/Slots.antt =====
-- Where a byte of a volume lies: in which chunk file, and where in it.
use native.Mathlib.Nat.{div-add-mod', mod-lt, mul-le-mul_right, suc-mul, mul-mod_left}
use native.Mathlib.Decide.{dec_lt}
use tikovm.Prelude.{ℕ, suc, ◌+◌, ◌-◌, ◌*◌, ◌/◌, ◌%◌, ◌≤◌, ◌<◌, ◌≡◌, ap, ◌↔◌, arith}

-- A number with the smaller quotient is at least one divisor behind.
behind : (s p q : ℕ) → 0 < s → p / s < q / s → p + s ≤ q + p % s
behind s p q pos lt = omega (
  arith,
  div-add-mod' p s,
  div-add-mod' q s,
  mul-le-mul_right {m = suc (p / s)} {n = q / s} s lt,
  suc-mul (p / s) s,
)

pub same_quotient : (s p q : ℕ) → p / s ≡ q / s → p + q % s ≡ q + p % s
same_quotient s p q e = omega (arith, div-add-mod' p s, div-add-mod' q s, ap (λ (t : ℕ). t * s) e)

-- The bytes of a range that ends with its chunk are those at the range's places in that chunk.
pub in_slot :
    (s abs n p : ℕ)
    → 0 < s
    → n ≤ s - abs % s
    → ((abs ≤ p) × (p < abs + n))
      ↔ ((p / s ≡ abs / s) × ((abs % s ≤ p % s) × (p % s < abs % s + n)))
in_slot s abs n p pos le = (
  λ h. elim (dec_lt (abs / s) (p / s)) [
    | yes lt ↦ absurd (omega (arith, h, behind s abs p pos lt, mod-lt abs pos))
    | no a ↦ elim (dec_lt (p / s) (abs / s)) [
      | yes lt ↦ absurd (omega (arith, h, behind s p abs pos lt, mod-lt p pos))
      | no b ↦
          let e : p / s ≡ abs / s = omega arith in
          (
            e,
            (omega (arith, h, same_quotient s p abs e), omega (arith, h, same_quotient s p abs e)),
          )
    ]
  ],
  λ h. let e = same_quotient s p abs h.0 in (omega (arith, e, h.1), omega (arith, e, h.1)),
)

-- The place of such a byte in the chunk, counted from the start of the range.
pub slot_offset : (s abs p : ℕ) → p / s ≡ abs / s → abs ≤ p → p % s - abs % s ≡ p - abs
slot_offset s abs p e le = omega (arith, same_quotient s p abs e)

-- A range that fills its chunk ends at the start of the next.
pub next_slot : (s abs : ℕ) → 0 < s → (abs + (s - abs % s)) % s ≡ 0
next_slot s abs pos =
    let e : abs + (s - abs % s) ≡ suc (abs / s) * s =
      omega (arith, div-add-mod' abs s, mod-lt abs pos, suc-mul (abs / s) s) in
    rw e (mul-mod_left (suc (abs / s)) s)
