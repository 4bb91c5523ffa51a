-- ===== src/Prelude/Maps.antt =====
-- Maps as association lists. The program observes no order of theirs.
use mathlib.Core.Path.{◌≡◌, refl, ap}
use mathlib.Core.List.{List, [], ◌∷◌}
use mathlib.Core.Bool.{Bool, true, false}
use mathlib.Core.Logic.{◌⊎◌, ◌≢◌, inl, inr}
use mathlib.Core.Option.{Option, none, some}
use native.Mathlib.Omega.{arith}
use tikovm.Prelude.Tests.{Eq, Bool-cases, ◌==◌, if◌then◌else◌}

abbrev pub Map {ℓ κ} : Type ℓ → Type κ → Type (ℓ ⊔ κ)
Map K V = List (K × V)

abbrev pub is_empty {ℓ} : {A : Type ℓ} → List A → Bool
is_empty [] = true
is_empty (x ∷ xs) = false

abbrev pub is_some {ℓ} : {A : Type ℓ} → Option A → Bool
is_some none = false
is_some (some a) = true

abbrev pub keep_if {ℓ} : {A : Type ℓ} → (A → Bool) → Option A → Option A
keep_if keep none = none
keep_if keep (some a) = if keep a then some a else none

module _ {ℓ κ} {K : Type ℓ} {V : Type κ} ⦃e : Eq K⦄ where
  unfoldable pub get : K → Map K V → Option V
  get k [] = none
  get k ((j, v) ∷ m) = if j == k then some v else get k m

  unfoldable pub insert : K → V → Map K V → Map K V
  insert k v [] = (k, v) ∷ []
  insert k v ((j, w) ∷ m) = if j == k then (k, v) ∷ m else (j, w) ∷ insert k v m

  unfoldable pub remove : K → Map K V → Map K V
  remove k [] = []
  remove k ((j, v) ∷ m) = let rest = remove k m in if j == k then rest else (j, v) ∷ rest

  pub get-insert :
      (k j : K) (v : V) (m : Map K V) → get j (insert k v m) ≡ (if k == j then some v else get j m)
  unfolding get insert
  get-insert k j v [] = refl
  get-insert k j v ((i, w) ∷ m) =
      ground (arith, e.decides k j, e.decides i k, e.decides i j, get-insert k j v m)

  pub get-remove : (k j : K) (m : Map K V) → get j (remove k m) ≡ (if k == j then none else get j m)
  unfolding get remove
  get-remove k j [] = ground arith
  get-remove k j ((i, w) ∷ m) =
      ground (arith, e.decides k j, e.decides i k, e.decides i j, get-remove k j m)

  abbrev pub contains_key : K → Map K V → Bool
  contains_key k m = is_some (get k m)

  -- `retain` on the values.
  unfoldable pub retain : (V → Bool) → Map K V → Map K V
  retain keep [] = []
  retain keep ((j, v) ∷ m) = let rest = retain keep m in if keep v then (j, v) ∷ rest else rest

  -- No key occurs twice, as in every map that `insert` builds.
  abbrev pub Uniq : Map K V → Type (ℓ ⊔ κ)
  Uniq [] = Unit {ℓ ⊔ κ}
  Uniq ((j, v) ∷ m) = (get j m ≡ none) × Uniq m

  get_at : (j k : K) (m : Map K V) → j ≡ k → get j m ≡ get k m
  get_at j k m h = ap (λ i. get i m) h

  pub insert-Uniq : (k : K) (v : V) (m : Map K V) → Uniq m → Uniq (insert k v m)
  unfolding insert
  insert-Uniq k v [] u = (unfold get in refl, u)
  insert-Uniq k v ((j, w) ∷ m) u = elim (Bool-cases (j == k)) [
    | inl same ↦ rw same (rw (← (e.decides j k).0 same) u.0, u.1)
    | inr other ↦ rw other (
      ground (arith, get-insert k j v m, e.decides k j, e.decides j k, u.0),
      insert-Uniq k v m u.1,
    )
  ]

  pub remove-Uniq : (k : K) (m : Map K V) → Uniq m → Uniq (remove k m)
  unfolding remove
  remove-Uniq k [] u = u
  remove-Uniq k ((j, w) ∷ m) u = elim (Bool-cases (j == k)) [
    | inl same ↦ rw same (remove-Uniq k m u.1)
    | inr other ↦ rw other (ground (arith, get-remove k j m, u.0), remove-Uniq k m u.1)
  ]

  pub get-retain :
      (keep : V → Bool) (k : K) (m : Map K V)
      → Uniq m
      → get k (retain keep m) ≡ keep_if keep (get k m)
  unfolding get retain
  get-retain keep k [] u = refl
  get-retain keep k ((j, w) ∷ m) u =
      ground
        (arith, get-retain keep k m u.1, u.0, get-retain keep j m u.1, e.decides j k, get_at j k m)

  pub retain-Uniq : (keep : V → Bool) (m : Map K V) → Uniq m → Uniq (retain keep m)
  unfolding retain
  retain-Uniq keep [] u = u
  retain-Uniq keep ((j, w) ∷ m) u = elim (Bool-cases (keep w)) [
    | inl held ↦ rw held (rw (get-retain keep j m u.1) (rw u.0 refl), retain-Uniq keep m u.1)
    | inr gone ↦ rw gone (retain-Uniq keep m u.1)
  ]

  pub insert_cases :
      (k j : K) (v w : V) (m : Map K V)
      → get j (insert k v m) ≡ some w
      → ((k ≡ j) × (v ≡ w)) ⊎ ((k ≢ j) × (get j m ≡ some w))
  insert_cases k j v w m h = elim (Bool-cases (k == j)) [
    | inl same ↦ inl ((e.decides k j).0 same, ground (arith, get-insert k j v m, same))
    | inr other ↦
        inr (λ p. cc (other, (e.decides k j).1 p), ground (arith, get-insert k j v m, other))
  ]

  pub remove_cases :
      (k j : K) (w : V) (m : Map K V) → get j (remove k m) ≡ some w → (k ≢ j) × (get j m ≡ some w)
  remove_cases k j w m h = elim (Bool-cases (k == j)) [
    | inl same ↦ ground (arith, get-remove k j m, same)
    | inr other ↦ (λ p. cc (other, (e.decides k j).1 p), ground (arith, get-remove k j m, other))
  ]

  pub retain_cases :
      (keep : V → Bool) (k : K) (w : V) (m : Map K V)
      → Uniq m
      → get k (retain keep m) ≡ some w
      → (get k m ≡ some w) × (keep w ≡ true)
  retain_cases keep k w m u h = ground (arith, get-retain keep k m u)

  pub insert-not_empty : (k : K) (v : V) (m : Map K V) → is_empty (insert k v m) ≡ false
  unfolding insert
  insert-not_empty k v [] = refl
  insert-not_empty k v ((j, w) ∷ m) = ground arith

pub ruleset map_laws = (get-insert, get-remove)
