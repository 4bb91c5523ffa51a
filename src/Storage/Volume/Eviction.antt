-- ===== src/Storage/Volume/Eviction.antt =====
-- The eviction loop of hostd/src/storage/volume.rs, and the `expect` that follows it.
use tikovm.Prelude.{
  ℕ, zero, suc, nat_eq, true, some, List, [], ◌∷◌, nat_beq, ltb, length, Map, Uniq, get,
  contains_key, get-remove, remove_cases, remove-Uniq, ◌≡◌, ◌≢◌, ◌⊎◌, inl, inr, refl, ap, sym, ◌∙◌,
  subst, arith, Bool-cases,
}
use tikovm.Storage.Volume.{FdCache, pop, evict}
use tikovm.Storage.Volume.Cache.{
  Listed, Below, IsCache, Kept, Closed, pop_cases, Listed-snoc, Below-snoc,
}

-- The cache without the entry at the front of its order.
abbrev pub popped : FdCache → List (ℕ × ℕ) → FdCache
popped c order = record c { order = order }

-- An entry that is listed is the one at the front, or it is behind.
pub front_stale :
    (i g j h : ℕ) (m : Map ℕ ℕ) (order : List (ℕ × ℕ))
    → get j m ≢ some h
    → get i m ≡ some g
    → Listed i g ((j, h) ∷ order)
    → Listed i g order
front_stale i g j h m order stale q (inl e) =
    absurd (stale (ap (λ t. get t m) (sym e.0) ∙ q ∙ ap some e.1))
front_stale i g j h m order stale q (inr l) = l

-- The facts about a cache that the loop keeps, with the entry at the front still counted.
pub record Popping (c : FdCache) (order : List (ℕ × ℕ)) : Type 0 where
  pub uniq : Uniq c.map
  pub listed : (i g : ℕ) → get i c.map ≡ some g → Listed i g order
  pub below : Below c.next_gen order

pub pop-Popping :
    (dirty : Map ℕ (Unit {0})) (j h : ℕ) (c : FdCache) (order : List (ℕ × ℕ)) (c' : FdCache)
    → c.order ≡ order
    → Popping c ((j, h) ∷ order)
    → Kept dirty j h c c' ⊎ Closed dirty j h c c'
    → Popping c' c'.order
pop-Popping dirty j h c order c' o is (inl (inl (stale, e))) =
    rw (e, o)
      (record {
        uniq = is.uniq;
        listed = λ i g q. front_stale i g j h c.map order stale q (is.listed i g q);
        below = is.below.1;
      })
pop-Popping dirty j h c order c' o is (inl (inr (d, e))) =
    rw (e, o)
      (record {
        uniq = is.uniq;
        listed = λ i g q. elim (is.listed i g q) [
          | inl s ↦ Listed-snoc i g j h order (inr s)
          | inr l ↦ Listed-snoc i g j h order (inl l)
        ];
        below = Below-snoc c.next_gen j h order is.below.1 is.below.0;
      })
pop-Popping dirty j h c order c' o is (inr (d, (l, e))) =
    rw (e, o)
      (record {
        uniq = remove-Uniq j c.map is.uniq;
        listed = λ i g q.
            let r = remove_cases j i g c.map q in
            elim (is.listed i g r.1) [ inl s ↦ absurd (r.0 (sym s.0)) | inr k ↦ k ];
        below = is.below.1;
      })

-- What the loop changes: it closes descriptors, and none of a dirty chunk.
pub record Evicted (dirty : Map ℕ (Unit {0})) (c c' : FdCache) : Type 0 where
  pub same_cap : c'.cap ≡ c.cap
  pub same_gen : c'.next_gen ≡ c.next_gen
  pub fewer : (i g : ℕ) → get i c'.map ≡ some g → get i c.map ≡ some g
  pub pinned : (i : ℕ) → contains_key i dirty ≡ true → get i c'.map ≡ get i c.map

pub pop-Evicted :
    (dirty : Map ℕ (Unit {0})) (j h : ℕ) (c c' : FdCache)
    → Kept dirty j h c c' ⊎ Closed dirty j h c c'
    → Evicted dirty c c'
pop-Evicted dirty j h c c' (inl (inl (stale, e))) =
    rw e (record { same_cap = refl; same_gen = refl; fewer = λ i g q. q; pinned = λ i q. refl })
pop-Evicted dirty j h c c' (inl (inr (d, e))) =
    rw e (record { same_cap = refl; same_gen = refl; fewer = λ i g q. q; pinned = λ i q. refl })
pop-Evicted dirty j h c c' (inr (d, (l, e))) = rw e (record {
  same_cap = refl;
  same_gen = refl;
  fewer = λ i g q. (remove_cases j i g c.map q).1;
  pinned = λ i q. elim (Bool-cases (nat_beq j i)) [
    | inl s ↦ ground (arith, q, d, ap (λ t. contains_key t dirty) ((nat_eq.decides j i).0 s))
    | inr s ↦ ground (arith, get-remove j i c.map, s)
  ];
})

Evicted-trans :
    (dirty : Map ℕ (Unit {0})) (c d e : FdCache)
    → Evicted dirty c d
    → Evicted dirty d e
    → Evicted dirty c e
Evicted-trans dirty c d e p q = record {
  same_cap = q.same_cap ∙ p.same_cap;
  same_gen = q.same_gen ∙ p.same_gen;
  fewer = λ i g h. p.fewer i g (q.fewer i g h);
  pinned = λ i h. q.pinned i h ∙ p.pinned i h;
}

abbrev stays : (dirty : Map ℕ (Unit {0})) (c : FdCache) → Evicted dirty c c
stays dirty c = record {
  same_cap = refl;
  same_gen = refl;
  fewer = λ i g q. q;
  pinned = λ i q. refl;
}

abbrev IsCache-Popping : (c : FdCache) → IsCache c → Popping c c.order
IsCache-Popping c is = record { uniq = is.uniq; listed = is.listed; below = is.below }

-- One round of the loop.
pub evict-suc :
    (pops : ℕ) (dirty : Map ℕ (Unit {0})) (c : FdCache) (j h : ℕ) (order : List (ℕ × ℕ))
    → c.order ≡ (j, h) ∷ order
    → ltb c.cap (length c.map) ≡ true
    → evict (suc pops) dirty c ≡ evict pops dirty (pop dirty j h (popped c order))
unfolding evict
evict-suc pops dirty c j h order o over = rw (over, evict) (rw (o, evict) refl)

evict-nil :
    (pops : ℕ) (dirty : Map ℕ (Unit {0})) (c : FdCache) → c.order ≡ [] → evict pops dirty c ≡ c
unfolding evict
evict-nil zero dirty c o = refl
evict-nil (suc pops) dirty c o = ground (arith, o)

-- The loop keeps the invariant.
pub evict_lem :
    (pops : ℕ) (dirty : Map ℕ (Unit {0})) (c : FdCache) (order : List (ℕ × ℕ))
    → c.order ≡ order
    → Popping c order
    → Popping (evict pops dirty c) (evict pops dirty c).order × Evicted dirty c (evict pops dirty c)
evict_lem zero dirty c order o is =
    unfold evict in (subst (λ t. Popping c t) (sym o) is, stays dirty c)
evict_lem (suc pops) dirty c [] o is =
    subst (λ t. Popping t t.order × Evicted dirty c t) (sym (evict-nil (suc pops) dirty c o))
      (subst (λ t. Popping c t) (sym o) is, stays dirty c)
evict_lem (suc pops) dirty c ((j, h) ∷ order) o is = elim (Bool-cases (ltb c.cap (length c.map))) [
  | inr fits ↦ unfold evict in rw (fits, evict) (subst (λ t. Popping c t) (sym o) is, stays dirty c)
  | inl over ↦
      let cases = pop_cases dirty j h (popped c order) in
      let c' = pop dirty j h (popped c order) in
      let is' : Popping c' c'.order =
        pop-Popping dirty j h (popped c order) order c' refl
          (record { uniq = is.uniq; listed = is.listed; below = is.below }) cases in
      let rest = evict_lem pops dirty c' c'.order refl is' in
      let step : Evicted dirty (popped c order) c' =
        pop-Evicted dirty j h (popped c order) c' cases in
      let step' : Evicted dirty c c' = record {
        same_cap = step.same_cap;
        same_gen = step.same_gen;
        fewer = step.fewer;
        pinned = step.pinned;
      } in
      rw (evict-suc pops dirty c j h order o over)
        (rest.0, Evicted-trans dirty c c' (evict pops dirty c') step' rest.1)
]

-- The eviction keeps the cache well formed, and closes no descriptor of a dirty chunk.
pub evict-IsCache :
    (pops : ℕ) (dirty : Map ℕ (Unit {0})) (c : FdCache)
    → IsCache c
    → IsCache (evict pops dirty c) × Evicted dirty c (evict pops dirty c)
evict-IsCache pops dirty c is =
    let all = evict_lem pops dirty c c.order refl (IsCache-Popping c is) in
    (record { uniq = all.0.uniq; listed = all.0.listed; below = all.0.below }, all.1)
