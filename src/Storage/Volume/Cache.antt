-- ===== src/Storage/Volume/Cache.antt =====
-- The cache of descriptors of hostd/src/storage/volume.rs: what an eviction may close.
use tikovm.Prelude.{
  ℕ, suc, nat_eq, ◌+◌, ◌≤◌, ◌<◌, true, false, some, List, [], ◌∷◌, ◌++◌, nat_beq, length, Map, Uniq,
  get, insert, remove, contains_key, get-remove, insert_cases, insert-Uniq, ◌≡◌, ◌≢◌, ◌⊎◌, inl, inr,
  ap, sym, arith, Bool-cases, Option-cases,
}
use tikovm.Storage.Volume.{FdCache, pop, touch}

-- The order has the entry.
abbrev pub Listed : ℕ → ℕ → List (ℕ × ℕ) → Type 0
Listed i g [] = ⊥
Listed i g ((j, h) ∷ order) = ((i ≡ j) × (g ≡ h)) ⊎ Listed i g order

abbrev pub Below : ℕ → List (ℕ × ℕ) → Type 0
Below n [] = Unit {0}
Below n ((j, h) ∷ order) = (h ≤ n) × Below n order

-- Each open descriptor has its live entry in the order, and no generation is ahead of the counter.
pub record IsCache (c : FdCache) : Type 0 where
  pub uniq : Uniq c.map
  pub listed : (i g : ℕ) → get i c.map ≡ some g → Listed i g c.order
  pub below : Below c.next_gen c.order

pub Listed-snoc :
    (i g j h : ℕ) (order : List (ℕ × ℕ))
    → Listed i g order ⊎ ((i ≡ j) × (g ≡ h))
    → Listed i g (order ++ (j, h) ∷ [])
Listed-snoc i g j h [] (inl e) = elim e [ ]
Listed-snoc i g j h [] (inr e) = inl e
Listed-snoc i g j h ((k, l) ∷ order) (inl (inl e)) = inl e
Listed-snoc i g j h ((k, l) ∷ order) (inl (inr e)) = inr (Listed-snoc i g j h order (inl e))
Listed-snoc i g j h ((k, l) ∷ order) (inr e) = inr (Listed-snoc i g j h order (inr e))

pub Below-snoc :
    (n j h : ℕ) (order : List (ℕ × ℕ)) → Below n order → h ≤ n → Below n (order ++ (j, h) ∷ [])
Below-snoc n j h [] b le = (le, tt)
Below-snoc n j h ((k, l) ∷ order) b le = (b.0, Below-snoc n j h order b.1 le)

Below-suc : (n : ℕ) (order : List (ℕ × ℕ)) → Below n order → Below (n + 1) order
Below-suc n [] b = tt
Below-suc n ((k, l) ∷ order) b = (omega (arith, b.0), Below-suc n order b.1)

-- A generation past the counter is nowhere.
pub Below-not_Listed :
    (i g n : ℕ) (order : List (ℕ × ℕ)) → Below n order → n < g → ¬ Listed i g order
Below-not_Listed i g n [] b lt e = elim e [ ]
Below-not_Listed i g n ((j, h) ∷ order) b lt (inl e) = absurd (omega (arith, b.0, e.1))
Below-not_Listed i g n ((j, h) ∷ order) b lt (inr e) = Below-not_Listed i g n order b.1 lt e

pub touch-IsCache : (c : FdCache) (idx : ℕ) → IsCache c → IsCache (touch c idx)
touch-IsCache c idx is = record {
  uniq = insert-Uniq idx (c.next_gen + 1) c.map is.uniq;
  listed = λ i g h. elim (insert_cases idx i (c.next_gen + 1) g c.map h) [
    | inl e ↦ Listed-snoc i g idx (c.next_gen + 1) c.order (inr (sym e.0, sym e.1))
    | inr e ↦ Listed-snoc i g idx (c.next_gen + 1) c.order (inl (is.listed i g e.1))
  ];
  below =
      Below-snoc (c.next_gen + 1) idx (c.next_gen + 1) c.order
        (Below-suc c.next_gen c.order is.below) (omega arith);
}

-- A pop, by the entry that it finds.
module _ (dirty : Map ℕ (Unit {0})) (victim vgen : ℕ) (c : FdCache) where
  -- The entry stays in the map, and if it is live it is dirty and goes to the back.
  abbrev pub Kept : FdCache → Type 0
  Kept c' =
      ((get victim c.map ≢ some vgen) × (c' ≡ c))
      ⊎ ((contains_key victim dirty ≡ true)
          × (c' ≡ record c { order = c.order ++ (victim, vgen) ∷ [] }))

  -- The entry is live and clean.
  abbrev pub Closed : FdCache → Type 0
  Closed c' =
      (contains_key victim dirty ≡ false)
      × ((get victim c.map ≡ some vgen) × (c' ≡ record c { map = remove victim c.map }))

  pub pop_cases : Kept (pop dirty victim vgen c) ⊎ Closed (pop dirty victim vgen c)
  unfolding pop
  pop_cases = elim (Option-cases (get victim c.map)) [
    | inl n ↦ inl (inl (λ p. cc, ground (arith, n)))
    | inr (cur, n) ↦ elim (Bool-cases (nat_beq cur vgen)) [
      | inr stale ↦ inl (inl (λ p. ground (arith, n, p, stale), ground (arith, n, stale)))
      | inl live ↦ elim (Bool-cases (contains_key victim dirty)) [
        | inl d ↦ inl (inr (d, ground (arith, n, live, d)))
        | inr d ↦ inr (d, (ground (arith, n, live), ground (arith, n, live, d)))
      ]
    ]
  ]

length-remove-le : (k : ℕ) (d : Map ℕ (Unit {0})) → length (remove k d) ≤ length d
unfolding remove
length-remove-le k [] = omega arith
length-remove-le k ((j, u) ∷ d) = ground (arith, length-remove-le k d)

length-remove :
    (k : ℕ) (d : Map ℕ (Unit {0})) → contains_key k d ≡ true → length (remove k d) + 1 ≤ length d
unfolding remove get
length-remove k [] h = cc
length-remove k ((j, u) ∷ d) h = elim (Bool-cases (nat_beq j k)) [
  | inl e ↦ rw e (omega (arith, length-remove-le k d))
  | inr e ↦ rw e (omega (arith, length-remove k d (ground (arith, e, h))))
]

pub length-insert-le : (k : ℕ) (d : Map ℕ (Unit {0})) → length (insert k tt d) ≤ suc (length d)
unfolding insert
length-insert-le k [] = omega arith
length-insert-le k ((j, u) ∷ d) = ground (arith, length-insert-le k d)

-- If every key of the one map is a key of the other, the one has no more entries.
pub covered :
    (m : Map ℕ ℕ) (d : Map ℕ (Unit {0}))
    → Uniq m
    → ((i g : ℕ) → get i m ≡ some g → contains_key i d ≡ true)
    → length m ≤ length d
covered [] d u sub = omega arith
covered ((k, h) ∷ m) d u sub =
    let rest = covered m (remove k d) u.1 (λ i g q. elim (Bool-cases (nat_beq k i)) [
      | inl e ↦ ground (arith, u.0, q, ap (λ t. get t m) ((nat_eq.decides k i).0 e))
      | inr e ↦ ground (arith, get-remove k i d, e, sub i g (unfold get in rw (e, get) q))
    ]) in
    omega (arith, rest, length-remove k d (sub k h (unfold get in ground arith)))
