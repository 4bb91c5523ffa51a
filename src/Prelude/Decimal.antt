-- ===== src/Prelude/Decimal.antt =====
-- Decimal numerals: printing, which is `to_string` of an unsigned integer, and reading.
use Prim.Native.Nat.{ℕ, zero, suc, ◌+◌, ◌-◌, ◌*◌, ◌/◌, ◌%◌, ◌^◌, ◌<◌, ◌≤◌}
use native.Mathlib.Nat.{pow-suc}
use mathlib.Core.Path.{◌≡◌, refl, ◌∙◌, ap}
use mathlib.Core.Logic.{inl, inr}
use mathlib.Core.Bool.{Bool, ◌&&◌}
use mathlib.Core.Option.{Option, none, some}
use mathlib.Core.List.{[], ◌∷◌, ◌++◌}
use native.Mathlib.Omega.{arith}
use tikovm.Prelude.Tests.{ltb, leb, if◌then◌else◌, Bool-cases}
use tikovm.Prelude.Lists.{length, length-append}
use tikovm.Prelude.Texts.{Text}

abbrev pub is_digit : ℕ → Bool
is_digit c = leb b'0' c && leb c b'9'

-- The value of a run of digits, after `acc`; `none` at any other byte.
unfoldable pub decimal : ℕ → Text → Option ℕ
decimal acc [] = some acc
decimal acc (c ∷ t) = if is_digit c then decimal (acc * 10 + (c - b'0')) t else none

digits : ℕ → ℕ → Text
digits zero n = []
digits (suc f) n =
    let rest = digits f (n / 10) ++ (b'0' + n % 10) ∷ [] in
    if ltb n 10 then (b'0' + n) ∷ [] else rest

-- A `u64` has at most twenty digits.
unfoldable pub show_decimal : ℕ → Text
unfolding digits
show_decimal n = digits 20 n

decimal-append :
    (acc v d : ℕ) (t : Text)
    → d < 10
    → decimal acc t ≡ some v
    → decimal acc (t ++ (b'0' + d) ∷ []) ≡ some (v * 10 + d)
unfolding decimal
decimal-append acc v d [] h e = ground arith
decimal-append acc v d (c ∷ t) h e = ground (arith, decimal-append (acc * 10 + (c - b'0')) v d t h)

decimal-digits : (f n : ℕ) → n < 10 ^ f → decimal 0 (digits f n) ≡ some n
unfolding digits
decimal-digits zero n h = let e : n ≡ 0 = omega arith in rw e (unfold decimal in refl)
decimal-digits (suc f) n h = elim (Bool-cases (ltb n 10)) [
  | inl small ↦ unfold decimal in ground arith
  | inr big ↦
      let rest = decimal-digits f (n / 10) (omega (arith, pow-suc 10 f)) in
      rw big (
        decimal-append 0 (n / 10) (n % 10) (digits f (n / 10)) (omega arith) rest
        ∙ ap some (let e : n / 10 * 10 + n % 10 ≡ n = omega arith in e))
]

pub decimal-show_decimal : (n : ℕ) → n < 10 ^ 20 → decimal 0 (show_decimal n) ≡ some n
unfolding show_decimal
decimal-show_decimal n h = decimal-digits 20 n h

pub show_decimal-injective :
    (m n : ℕ) → m < 10 ^ 20 → n < 10 ^ 20 → show_decimal m ≡ show_decimal n → m ≡ n
show_decimal-injective m n hm hn e =
    cc (decimal-show_decimal m hm, decimal-show_decimal n hn, ap (decimal 0) e)

ten_pow_pos : (k : ℕ) → 1 ≤ 10 ^ k
ten_pow_pos zero = omega arith
ten_pow_pos (suc k) = omega (arith, pow-suc 10 k, ten_pow_pos k)

length-digits : (f k n : ℕ) → 10 ^ k ≤ n → k < f → k < length (digits f n)
unfolding digits
length-digits zero k n h lt = elim lt [ ]
length-digits (suc f) zero n h lt =
    ground (arith, length-append (digits f (n / 10)) ((b'0' + n % 10) ∷ []))
length-digits (suc f) (suc k) n h lt =
    let rest = length-digits f k (n / 10) (omega (arith, pow-suc 10 k)) (omega arith) in
    ground (
      arith,
      rest,
      pow-suc 10 k,
      ten_pow_pos k,
      length-append (digits f (n / 10)) ((b'0' + n % 10) ∷ []),
    )

pub length-show_decimal : (k n : ℕ) → 10 ^ k ≤ n → k < 20 → k < length (show_decimal n)
unfolding show_decimal
length-show_decimal k n h lt = length-digits 20 k n h lt
