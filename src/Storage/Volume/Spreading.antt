-- ===== src/Storage/Volume/Spreading.antt =====
-- How a flush of hostd/src/storage/volume.rs spreads the dirty chunks over its threads.
use native.Mathlib.Nat.{mod-lt}
use tikovm.Prelude.{
  ℕ, zero, suc, nat_eq, ◌-◌, ◌%◌, ◌≤◌, ◌<◌, min, true, List, [], ◌∷◌, nat_beq, length, Map, map,
  get, contains_key, is_empty, ◌≡◌, ◌⊎◌, inl, inr, refl, sym, subst, arith, Bool-cases,
}
use tikovm.Storage.Volume.{flush_threads}
use tikovm.Storage.Volume.Io.{group_of, groups}
use tikovm.Storage.Volume.Disk.{InRange}
use tikovm.Storage.Volume.Flushing.{AllInRange}

-- The chunk is in one of the groups.
abbrev pub Within : ℕ → List ℕ → Type 0
Within j [] = ⊥
Within j (i ∷ is) = (j ≡ i) ⊎ Within j is

abbrev pub WithinAny : ℕ → List (List ℕ) → Type 0
WithinAny j [] = ⊥
WithinAny j (g ∷ gs) = Within j g ⊎ WithinAny j gs

abbrev pub AllGroups : List (List ℕ) → Type 0
AllGroups [] = Unit {0}
AllGroups (g ∷ gs) = AllInRange g × AllGroups gs

-- The groups hold only what is spread.
pub group_of-range : (k n i : ℕ) (xs : List ℕ) → AllInRange xs → AllInRange (group_of k n i xs)
unfolding group_of
group_of-range k n i [] r = tt
group_of-range k n i (x ∷ xs) r = elim (Bool-cases (nat_beq (i % n) k)) [
  | inl e ↦ rw e (r.0, group_of-range k n (suc i) xs r.1)
  | inr e ↦ rw e (group_of-range k n (suc i) xs r.1)
]

pub groups-range : (k n : ℕ) (xs : List ℕ) → AllInRange xs → AllGroups (groups k n xs)
unfolding groups
groups-range zero n xs r = tt
groups-range (suc k) n xs r = (group_of-range (n - suc k) n 0 xs r, groups-range k n xs r)

-- An element stands in the group of its position's remainder.
pub group_of-Within :
    (n i j : ℕ) (xs : List ℕ)
    → 0 < n
    → Within j xs
    → (k : ℕ) × ((k < n) × Within j (group_of k n i xs))
unfolding group_of
group_of-Within n i j [] pos h = elim h [ ]
group_of-Within n i j (x ∷ xs) pos (inl e) =
    let same : nat_beq (i % n) (i % n) ≡ true = ground arith in
    (i % n, (mod-lt i pos, rw same (inl e)))
group_of-Within n i j (x ∷ xs) pos (inr h) =
    let (k, (lt, w)) = group_of-Within n (suc i) j xs pos h in
    (k, (lt, elim (Bool-cases (nat_beq (i % n) k)) [ inl e ↦ rw e (inr w) | inr e ↦ rw e w ]))

pub groups-Within :
    (m n k j : ℕ) (xs : List ℕ)
    → m ≤ n
    → n - m ≤ k
    → k < n
    → Within j (group_of k n 0 xs)
    → WithinAny j (groups m n xs)
unfolding groups
groups-Within zero n k j xs le lo hi w = absurd (omega arith)
groups-Within (suc m) n k j xs le lo hi w = elim (Bool-cases (nat_beq (n - suc m) k)) [
  | inl e ↦
      let q : k ≡ n - suc m = ground (arith, e) in
      inl (subst (λ t. Within j (group_of t n 0 xs)) q w)
  | inr e ↦ inr (groups-Within m n k j xs (omega arith) (ground (arith, e, lo, le)) hi w)
]

unfoldable pub keys : Map ℕ (Unit {0}) → List ℕ
keys m = map (λ e. e.0) m

pub keys-range :
    (m : Map ℕ (Unit {0})) → ((i : ℕ) → contains_key i m ≡ true → InRange i) → AllInRange (keys m)
unfolding keys
keys-range [] sub = tt
keys-range ((k, u) ∷ m) sub = (
  sub k (unfold get in ground arith),
  keys-range m (λ i h. sub i (unfold get in ground (arith, h))),
)

pub keys-Within : (m : Map ℕ (Unit {0})) (j : ℕ) → contains_key j m ≡ true → Within j (keys m)
unfolding keys get
keys-Within [] j h = cc
keys-Within ((k, u) ∷ m) j h = elim (Bool-cases (nat_beq k j)) [
  | inl e ↦ inl (sym ((nat_eq.decides k j).0 e))
  | inr e ↦ inr (keys-Within m j (ground (arith, e, h)))
]

pub no_keys : (m : Map ℕ (Unit {0})) → ((j : ℕ) → contains_key j m ≡ true → ⊥) → m ≡ []
no_keys [] h = refl
no_keys ((k, u) ∷ m) h = absurd (h k (unfold get in ground arith))

abbrev pub threads : Map ℕ (Unit {0}) → ℕ
threads m = min flush_threads (length (keys m))

-- The dirty set is spread over the threads.
pub spread :
    (m : Map ℕ (Unit {0})) (j : ℕ)
    → contains_key j m ≡ true
    → WithinAny j (groups (threads m) (threads m) (keys m))
spread m j h =
    let n = threads m in
    let w = keys-Within m j h in
    let (k, (lt, g)) = group_of-Within n 0 j (keys m) (some_thread (keys m) w) w in
    groups-Within n n k j (keys m) (omega arith) (omega arith) lt g
  where
    some_thread : (is : List ℕ) → Within j is → 0 < min flush_threads (length is)
    some_thread [] h = elim h [ ]
    some_thread (i ∷ is) h = omega arith

pub keys-nil : (m : Map ℕ (Unit {0})) → is_empty (keys m) ≡ true → m ≡ []
unfolding keys
keys-nil [] h = refl
keys-nil ((k, u) ∷ m) h = cc
