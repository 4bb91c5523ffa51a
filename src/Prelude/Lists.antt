-- ===== src/Prelude/Lists.antt =====
-- Lists measured and indexed by native numbers, under the library's names, and searches in them.
use Prim.Native.Nat.{ℕ, zero, suc, ◌+◌, ◌<◌, ◌≤◌}
use mathlib.Core.Path.{◌≡◌}
use mathlib.Core.Logic.{inl, inr}
use mathlib.Core.Bool.{Bool, true, false, ◌||◌}
use mathlib.Core.List.{List, [], ◌∷◌, ◌++◌}
use mathlib.Core.Option.{Option, none, some}
use native.Mathlib.Omega.{arith}
use native.Mathlib.Decide.{dec_le}
use tikovm.Prelude.Tests.{Bool-cases}

module _ {ℓ} {A : Type ℓ} where
  abbrev pub length : List A → ℕ
  length [] = 0
  length (x ∷ xs) = suc (length xs)

  abbrev pub get_or : List A → ℕ → A → A
  get_or [] i d = d
  get_or (x ∷ xs) zero d = x
  get_or (x ∷ xs) (suc i) d = get_or xs i d

  abbrev pub take : ℕ → List A → List A
  take zero xs = []
  take (suc n) [] = []
  take (suc n) (x ∷ xs) = x ∷ take n xs

  abbrev pub drop : ℕ → List A → List A
  drop zero xs = xs
  drop (suc n) [] = []
  drop (suc n) (x ∷ xs) = drop n xs

  abbrev pub replicate : ℕ → A → List A
  replicate zero a = []
  replicate (suc n) a = a ∷ replicate n a

  pub length-append : (xs ys : List A) → length (xs ++ ys) ≡ length xs + length ys
  length-append [] ys = omega arith
  length-append (x ∷ xs) ys = omega (arith, length-append xs ys)

  -- Rust's `iter().any(p)`.
  abbrev pub any : (A → Bool) → List A → Bool
  any p [] = false
  any p (x ∷ xs) = p x || any p xs

-- The first number of `n`, from `i` up, that passes the test: `(i..i + n).find(p)`.
unfoldable pub find_range : ℕ → ℕ → (ℕ → Bool) → Option ℕ
find_range zero i p = none
find_range (suc n) i p = elim (p i) [ true ↦ some i | false ↦ find_range n (suc i) p ]

below_of_tail :
    (i k : ℕ) (p : ℕ → Bool)
    → p i ≡ false
    → ((j : ℕ) → suc i ≤ j → j < k → p j ≡ false)
    → (j : ℕ) → i ≤ j
    → j < k
    → p j ≡ false
below_of_tail i k p miss tail j a b = elim (dec_le (suc i) j) [
  | yes above ↦ tail j above b
  | no here ↦ let e : i ≡ j = omega arith in rw (← e) miss
]

-- What is found lies in the range and passes, and nothing below it does.
pub find_range_found :
    (n i : ℕ) (p : ℕ → Bool) (k : ℕ)
    → find_range n i p ≡ some k
    → (i ≤ k) × (k < i + n) × (p k ≡ true) × ((j : ℕ) → i ≤ j → j < k → p j ≡ false)
unfolding find_range
find_range_found zero i p k h = ground arith
find_range_found (suc n) i p k h = elim (Bool-cases (p i)) [
  | inl hit ↦
      let e : i ≡ k = ground (arith, hit) in
      (omega arith, omega arith, rw (← e) hit, λ j a b. absurd (omega arith))
  | inr miss ↦
      let rest = find_range_found n (suc i) p k (ground (arith, miss)) in
      (omega arith, omega arith, rest.2, below_of_tail i k p miss rest.3)
]

pub find_range-none :
    (n i : ℕ) (p : ℕ → Bool) → find_range n i p ≡ none → (j : ℕ) → i ≤ j → j < i + n → p j ≡ false
unfolding find_range
find_range-none zero i p h j a b = absurd (omega arith)
find_range-none (suc n) i p h j a b = elim (Bool-cases (p i)) [
  | inl hit ↦ ground (arith, hit)
  | inr miss ↦
      below_of_tail i (i + suc n) p miss
        (λ m c d. find_range-none n (suc i) p (ground (arith, miss)) m c (omega arith)) j a b
]
