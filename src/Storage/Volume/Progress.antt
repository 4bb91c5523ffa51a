-- ===== src/Storage/Volume/Progress.antt =====
-- The result of a flush of hostd/src/storage/volume.rs where the syncs of its chunks succeed.
use tikovm.Prelude.{
  ℕ, zero, suc, nat_eq, text_eq, ◌-◌, ◌%◌, Bool, true, false, List, [], ◌∷◌, nat_beq, if◌then◌else◌,
  Map, get, contains_key, ok, ◌≡◌, inl, inr, refl, ap, subst, ◌∙◌, arith,
}
use tikovm.Storage.Volume.{Volume, Faults, cached}
use tikovm.Storage.Volume.Io.{flush_group, group_of, groups, join_all, run_groups, flush}
use tikovm.Storage.Volume.Invariant.{IsVolume}
use tikovm.Storage.Volume.Threads.{Ready, flush_group-Worked}
use tikovm.Storage.Volume.Spreading.{Within, WithinAny, keys}
use tikovm.Storage.Volume.Durability.{flush_cases}

-- The chunks have their descriptors, and no sync of them fails.
abbrev Held : Faults → Volume → List ℕ → Type 0
Held io v is = (j : ℕ) → Within j is → (cached v j ≡ true) × (io.sync_fails j ≡ false)

Held-Ready : (io : Faults) (v : Volume) (is : List ℕ) → Held io v is → Ready io v is
Held-Ready io v [] h = tt
Held-Ready io v (i ∷ is) h =
    let a = h i (inl refl) in (a.0, (a.1, Held-Ready io v is (λ j w. h j (inr w))))

kept :
    (b : Bool) (j x : ℕ) (rest : List ℕ)
    → Within j (if b then x ∷ rest else rest)
    → Within j (x ∷ rest)
kept true j x rest w = w
kept false j x rest w = inr w

of_group : (k n i j : ℕ) (xs : List ℕ) → Within j (group_of k n i xs) → Within j xs
unfolding group_of
of_group k n i j [] w = w
of_group k n i j (x ∷ xs) w = elim (kept (nat_beq (i % n) k) j x (group_of k n (suc i) xs) w) [
  | inl q ↦ inl q
  | inr q ↦ inr (of_group k n (suc i) j xs q)
]

of_groups : (m n j : ℕ) (xs : List ℕ) → WithinAny j (groups m n xs) → Within j xs
unfolding groups
of_groups zero n j xs w = elim w [ ]
of_groups (suc m) n j xs (inl w) = of_group (n - suc m) n 0 j xs w
of_groups (suc m) n j xs (inr w) = of_groups m n j xs w

run_groups-ok :
    (io : Faults) (v : Volume) (gs : List (List ℕ))
    → v.poisoned ≡ false
    → ((j : ℕ) → WithinAny j gs → (cached v j ≡ true) × (io.sync_fails j ≡ false))
    → join_all (run_groups io v gs).1 ≡ ok tt
unfolding run_groups
run_groups-ok io v [] p h = refl
run_groups-ok io v (g ∷ gs) p h =
    let first = flush_group-Worked io v g p (Held-Ready io v g (λ j w. h j (inl w))) in
    let rest =
      run_groups-ok io (flush_group io v g).0 gs first.1.0
        (λ j w. let a = h j (inr w) in (first.1.1 j a.0, a.1)) in
    ground (arith, first.0, rest)

keys-contains : (m : Map ℕ (Unit {0})) (j : ℕ) → Within j (keys m) → contains_key j m ≡ true
unfolding keys get
keys-contains [] j w = elim w [ ]
keys-contains ((k, u) ∷ m) j (inl e) = ground (arith, e)
keys-contains ((k, u) ∷ m) j (inr w) = ground (arith, keys-contains m j w)

-- Where the syncs of the dirty chunks succeed, a flush succeeds on a volume that keeps the invariant
-- and whose cache no panic has poisoned: it finds the descriptor of each dirty chunk.
pub flush-ok :
    (io : Faults) (v : Volume)
    → IsVolume v
    → v.poisoned ≡ false
    → ((j : ℕ) → contains_key j v.dirty ≡ true → io.sync_fails j ≡ false)
    → (flush io v).1 ≡ ok tt
flush-ok io v is p good = elim (flush_cases io v) [
  | inl (n, e) ↦ ap (λ t. t.1) e
  | inr (gs, (g, e)) ↦
      ap (λ t. t.1) e
      ∙ run_groups-ok io v gs p (λ j w.
        let d =
          keys-contains v.dirty j (of_groups _ _ j (keys v.dirty) (subst (WithinAny j) g w)) in
        (is.pinned j d, good j d))
]
