-- ===== src/Storage/Volume/Full.antt =====
-- A cache of hostd/src/storage/volume.rs that is full of the descriptors of dirty chunks.
use tikovm.Prelude.{
  ℕ, zero, suc, nat_eq, ◌+◌, ◌≤◌, ◌<◌, true, false, none, some, List, [], ◌∷◌, ◌++◌, ltb, length,
  Map, get, insert, contains_key, get-insert, get-remove, insert_cases, ◌≡◌, ◌⊎◌, inl, inr, refl,
  ap, sym, subst, arith, Option-cases,
}
use tikovm.Storage.Volume.{FdCache, pop, evict, touch}
use tikovm.Storage.Volume.Cache.{
  Listed, IsCache, Kept, Closed, pop_cases, Below-not_Listed, touch-IsCache,
}
use tikovm.Storage.Volume.Eviction.{popped, Popping, pop-Popping, evict-suc, evict_lem}
use tikovm.Storage.Volume.Room.{pop_order}

-- The facts about `idx` in a cache that is over its capacity with dirty descriptors only.
record Doomed (dirty : Map ℕ (Unit {0})) (idx g : ℕ) (pre : List (ℕ × ℕ)) (c : FdCache)
    : Type 0 where
  held : get idx c.map ≡ some g
  new : ¬ Listed idx g pre
  clean : contains_key idx dirty ≡ false
  others : (i k : ℕ) → get i c.map ≡ some k → (i ≡ idx) ⊎ (contains_key i dirty ≡ true)
  over : c.cap < length c.map

pop-Doomed :
    (dirty : Map ℕ (Unit {0})) (idx g j h : ℕ) (pre : List (ℕ × ℕ)) (c c' : FdCache)
    → Doomed dirty idx g ((j, h) ∷ pre) c
    → Kept dirty j h c c' ⊎ Closed dirty j h c c'
    → Doomed dirty idx g pre c'
pop-Doomed dirty idx g j h pre c c' w (inl (inl (stale, e))) = rw e (record {
  held = w.held;
  new = λ l. w.new (inr l);
  clean = w.clean;
  others = w.others;
  over = w.over;
})
pop-Doomed dirty idx g j h pre c c' w (inl (inr (d, e))) = rw e (record {
  held = w.held;
  new = λ l. w.new (inr l);
  clean = w.clean;
  others = w.others;
  over = w.over;
})
pop-Doomed dirty idx g j h pre c c' w (inr (d, (live, e))) = elim (w.others j h live) [
  | inl s ↦ absurd (w.new (inl (sym s, ground (arith, live, w.held, ap (λ t. get t c.map) s))))
  | inr k ↦ cc
]

-- Closed in the next pop, the descriptor stays closed.
closed_next :
    (pops : ℕ) (dirty : Map ℕ (Unit {0})) (idx g : ℕ) (post : List (ℕ × ℕ)) (c : FdCache)
    → c.order ≡ (idx, g) ∷ post
    → Popping c ((idx, g) ∷ post)
    → Doomed dirty idx g [] c
    → get idx (evict (suc pops) dirty c).map ≡ none
closed_next pops dirty idx g post c o is w =
    let front = popped c post in
    let cases = pop_cases dirty idx g front in
    let c' = pop dirty idx g front in
    let is' : Popping c' c'.order =
      pop-Popping dirty idx g front post c' refl
        (record { uniq = is.uniq; listed = is.listed; below = is.below }) cases in
    let rest = (evict_lem pops dirty c' c'.order refl is').1 in
    let over : ltb c.cap (length c.map) ≡ true = ground (arith, w.over) in
    rw (evict-suc pops dirty c idx g post o over)
      (elim (Option-cases (get idx (evict pops dirty c').map)) [
        | inl n ↦ n
        | inr (k, n) ↦ absurd (removed cases (rest.fewer idx k n))
      ])
  where
    removed :
        {k : ℕ}
        → Kept dirty idx g (popped c post) (pop dirty idx g (popped c post))
          ⊎ Closed dirty idx g (popped c post) (pop dirty idx g (popped c post))
        → get idx (pop dirty idx g (popped c post)).map ≡ some k
        → ⊥
    removed (inl (inl (stale, e))) q = stale w.held
    removed (inl (inr (d, e))) q = ground (arith, d, w.clean)
    removed (inr (d, (l, e))) q =
        ground (arith, get-remove idx idx c.map, ap (λ t. get idx t.map) e, q)

doomed :
    (pops : ℕ) (dirty : Map ℕ (Unit {0})) (idx g : ℕ) (pre post : List (ℕ × ℕ)) (c : FdCache)
    → c.order ≡ pre ++ (idx, g) ∷ post
    → length pre < pops
    → Popping c (pre ++ (idx, g) ∷ post)
    → Doomed dirty idx g pre c
    → get idx (evict pops dirty c).map ≡ none
doomed zero dirty idx g pre post c o lt is w = absurd (omega arith)
doomed (suc pops) dirty idx g [] post c o lt is w = closed_next pops dirty idx g post c o is w
doomed (suc pops) dirty idx g ((j, h) ∷ pre) post c o lt is w =
    let front = popped c (pre ++ (idx, g) ∷ post) in
    let cases = pop_cases dirty j h front in
    let c' = pop dirty j h front in
    let rest = pop_order dirty j h front c' idx g pre post refl cases in
    let is' : Popping c' c'.order =
      pop-Popping dirty j h front (pre ++ (idx, g) ∷ post) c' refl
        (record { uniq = is.uniq; listed = is.listed; below = is.below }) cases in
    let over : ltb c.cap (length c.map) ≡ true = ground (arith, w.over) in
    rw (evict-suc pops dirty c j h (pre ++ (idx, g) ∷ post) o over) (
      doomed pops dirty idx g pre rest.0 c' rest.1 (omega arith)
        (subst (λ t. Popping c' t) rest.1 is')
        (pop-Doomed dirty idx g j h pre front c'
          (record { held = w.held; new = w.new; clean = w.clean; others = w.others; over = w.over })
          cases))

length-insert : (k v : ℕ) (m : Map ℕ ℕ) → get k m ≡ none → length (insert k v m) ≡ suc (length m)
unfolding insert get
length-insert k v [] h = refl
length-insert k v ((j, w) ∷ m) h = ground (arith, length-insert k v m)

-- With dirty descriptors up to the capacity, the one that has just been opened is closed, unless
-- stale entries use up the pops.
pub evict-touch_full :
    (pops : ℕ) (dirty : Map ℕ (Unit {0})) (c : FdCache) (idx : ℕ)
    → IsCache c
    → get idx c.map ≡ none
    → contains_key idx dirty ≡ false
    → ((i g : ℕ) → get i c.map ≡ some g → contains_key i dirty ≡ true)
    → c.cap ≤ length c.map
    → length c.order < pops
    → get idx (evict pops dirty (touch c idx)).map ≡ none
evict-touch_full pops dirty c idx is missing clean all full lt =
    let is' = touch-IsCache c idx is in
    doomed pops dirty idx (c.next_gen + 1) c.order [] (touch c idx) refl lt
      (record { uniq = is'.uniq; listed = is'.listed; below = is'.below })
      (record {
        held = ground (arith, get-insert idx idx (c.next_gen + 1) c.map);
        new = Below-not_Listed idx (c.next_gen + 1) c.next_gen c.order is.below (omega arith);
        clean = clean;
        others = λ i g q. elim (insert_cases idx i (c.next_gen + 1) g c.map q) [
          | inl s ↦ inl (sym s.0)
          | inr s ↦ inr (all i g s.1)
        ];
        over = omega (arith, full, length-insert idx (c.next_gen + 1) c.map missing);
      })
