-- ===== src/Prelude/Pow.antt =====
-- Powers of two, and 32-bit words.
use Prim.Native.Nat.{ℕ, zero, suc, ◌+◌, ◌*◌, ◌^◌, ◌<◌}
use mathlib.Core.Path.{◌≡◌, sym, ap, ◌∙◌}
use native.Mathlib.Nat.{pow-suc, add-zero, add-suc, mul_assoc}
use native.Mathlib.Omega.{arith}

abbrev pub u32_mod : ℕ
u32_mod = 4294967296

abbrev pub u64_mod : ℕ
u64_mod = 18446744073709551616

abbrev pow2 : ℕ → ℕ
pow2 n = 2 ^ n

pub pow-add : (a b : ℕ) → 2 ^ (a + b) ≡ 2 ^ a * 2 ^ b
pow-add a zero = omega (arith, ap pow2 (add-zero a))
pow-add a (suc b) =
    ap pow2 (add-suc a b)
    ∙ pow-suc 2 (a + b)
    ∙ ap (λ t. t * 2) (pow-add a b)
    ∙ mul_assoc (2 ^ a) (2 ^ b) 2
    ∙ ap (λ t. 2 ^ a * t) (sym (pow-suc 2 b))

pub pow-pos : (a : ℕ) → 0 < 2 ^ a
pow-pos zero = omega arith
pow-pos (suc a) = omega (arith, pow-suc 2 a, pow-pos a)
