-- ===== src/Storage/Volume/Room.antt =====
-- The descriptor that a miss of hostd/src/storage/volume.rs opens: whether the eviction closes it.
use mathlib.Core.List.{append_assoc}
use tikovm.Prelude.{
  ℕ, zero, suc, nat_eq, ◌+◌, ◌<◌, true, false, some, List, [], ◌∷◌, ◌++◌, ltb, length, Map, Uniq,
  get, insert, contains_key, get-insert, get-remove, insert_cases, remove_cases, insert-Uniq,
  remove-Uniq, ◌≡◌, ◌≢◌, ◌⊎◌, inl, inr, refl, ap, sym, ◌∙◌, arith, Bool-cases,
}
use tikovm.Storage.Volume.{FdCache, pop, evict, touch}
use tikovm.Storage.Volume.Cache.{
  Listed, IsCache, Kept, Closed, pop_cases, Below-not_Listed, covered, length-insert-le,
}
use tikovm.Storage.Volume.Eviction.{popped, front_stale, evict-suc}

-- Every open descriptor but `idx` is dirty or has an entry in the order.
Covers : Map ℕ (Unit {0}) → FdCache → ℕ → List (ℕ × ℕ) → Type 0
Covers dirty c idx pre =
    (i g : ℕ) → get i c.map ≡ some g → (i ≡ idx) ⊎ ((contains_key i dirty ≡ true) ⊎ Listed i g pre)

-- With no clean descriptor but `idx`, the cache is not over its capacity.
none_left :
    (dirty : Map ℕ (Unit {0})) (c : FdCache) (idx : ℕ)
    → Uniq c.map
    → Covers dirty c idx []
    → length dirty < c.cap
    → ltb c.cap (length c.map) ≡ false
unfolding Covers
none_left dirty c idx u all room =
    let bound = covered c.map (insert idx tt dirty) u (λ i g q. elim (all i g q) [
      | inl e ↦ ground (arith, get-insert idx i tt dirty, (nat_eq.decides idx i).1 (sym e))
      | inr (inl d) ↦ ground (arith, get-insert idx i tt dirty, d)
      | inr (inr l) ↦ elim l [ ]
    ]) in
    ground (arith, bound, length-insert-le idx dirty)

-- The facts about `idx` while the loop works through the entries before its own.
record Waiting (dirty : Map ℕ (Unit {0})) (idx g : ℕ) (pre : List (ℕ × ℕ)) (c : FdCache)
    : Type 0 where
  held : get idx c.map ≡ some g
  new : ¬ Listed idx g pre
  uniq : Uniq c.map
  covers : Covers dirty c idx pre
  room : length dirty < c.cap

-- The cache after a pop, with the order made explicit.
pop-Waiting :
    (dirty : Map ℕ (Unit {0})) (idx g j h : ℕ) (pre : List (ℕ × ℕ)) (c c' : FdCache)
    → Waiting dirty idx g ((j, h) ∷ pre) c
    → Kept dirty j h c c' ⊎ Closed dirty j h c c'
    → Waiting dirty idx g pre c'
unfolding Covers
pop-Waiting dirty idx g j h pre c c' w (inl (inl (stale, e))) = rw e (record {
  held = w.held;
  new = λ l. w.new (inr l);
  uniq = w.uniq;
  covers = λ i gi q. elim (w.covers i gi q) [
    | inl s ↦ inl s
    | inr (inl d) ↦ inr (inl d)
    | inr (inr l) ↦ inr (inr (front_stale i gi j h c.map pre stale q l))
  ];
  room = w.room;
})
pop-Waiting dirty idx g j h pre c c' w (inl (inr (d, e))) = rw e (record {
  held = w.held;
  new = λ l. w.new (inr l);
  uniq = w.uniq;
  covers = λ i gi q. elim (w.covers i gi q) [
    | inl s ↦ inl s
    | inr (inl k) ↦ inr (inl k)
    | inr (inr (inl s)) ↦ inr (inl (ap (λ t. contains_key t dirty) s.0 ∙ d))
    | inr (inr (inr l)) ↦ inr (inr l)
  ];
  room = w.room;
})
pop-Waiting dirty idx g j h pre c c' w (inr (d, (live, e))) =
    let apart : j ≢ idx =
      λ s. w.new (inl (sym s, ground (arith, live, w.held, ap (λ t. get t c.map) s))) in
    rw e (record {
      held = ground (arith, get-remove j idx c.map, w.held, nat_eq.decides j idx, apart);
      new = λ l. w.new (inr l);
      uniq = remove-Uniq j c.map w.uniq;
      covers = λ i gi q.
          let r = remove_cases j i gi c.map q in
          elim (w.covers i gi r.1) [
            | inl s ↦ inl s
            | inr (inl k) ↦ inr (inl k)
            | inr (inr (inl s)) ↦ absurd (r.0 (sym s.0))
            | inr (inr (inr l)) ↦ inr (inr l)
          ];
      room = w.room;
    })

pub pop_order :
    (dirty : Map ℕ (Unit {0})) (j h : ℕ) (c c' : FdCache) (idx g : ℕ) (pre post : List (ℕ × ℕ))
    → c.order ≡ pre ++ (idx, g) ∷ post
    → Kept dirty j h c c' ⊎ Closed dirty j h c c'
    → (post' : List (ℕ × ℕ)) × (c'.order ≡ pre ++ (idx, g) ∷ post')
pop_order dirty j h c c' idx g pre post o (inl (inl (stale, e))) = (post, rw e o)
pop_order dirty j h c c' idx g pre post o (inl (inr (d, e))) =
    (post ++ (j, h) ∷ [], rw e (rw o (append_assoc pre ((idx, g) ∷ post) ((j, h) ∷ []))))
pop_order dirty j h c c' idx g pre post o (inr (d, (live, e))) = (post, rw e o)

survives :
    (pops : ℕ) (dirty : Map ℕ (Unit {0})) (idx g : ℕ) (pre post : List (ℕ × ℕ)) (c : FdCache)
    → c.order ≡ pre ++ (idx, g) ∷ post
    → Waiting dirty idx g pre c
    → get idx (evict pops dirty c).map ≡ some g
unfolding Covers
survives zero dirty idx g pre post c o w = unfold evict in w.held
survives (suc pops) dirty idx g [] post c o w =
    let fits = none_left dirty c idx w.uniq w.covers w.room in
    unfold evict in rw (fits, evict) w.held
survives (suc pops) dirty idx g ((j, h) ∷ pre) post c o w =
    elim (Bool-cases (ltb c.cap (length c.map))) [
      | inr fits ↦ unfold evict in rw (fits, evict) w.held
      | inl over ↦
          let front = popped c (pre ++ (idx, g) ∷ post) in
          let cases = pop_cases dirty j h front in
          let c' = pop dirty j h front in
          let rest = pop_order dirty j h front c' idx g pre post refl cases in
          rw (evict-suc pops dirty c j h (pre ++ (idx, g) ∷ post) o over) (
            survives pops dirty idx g pre rest.0 c' rest.1 (
              pop-Waiting dirty idx g j h pre front c'
                (record {
                  held = w.held;
                  new = w.new;
                  uniq = w.uniq;
                  covers = w.covers;
                  room = w.room;
                })
                cases))
    ]

-- With fewer dirty chunks than the capacity, the descriptor that has just been opened is not closed.
pub evict-touch :
    (pops : ℕ) (dirty : Map ℕ (Unit {0})) (c : FdCache) (idx : ℕ)
    → IsCache c
    → length dirty < c.cap
    → get idx (evict pops dirty (touch c idx)).map ≡ some (c.next_gen + 1)
unfolding Covers
evict-touch pops dirty c idx is room =
    survives pops dirty idx (c.next_gen + 1) c.order [] (touch c idx) refl (record {
      held = ground (arith, get-insert idx idx (c.next_gen + 1) c.map);
      new = Below-not_Listed idx (c.next_gen + 1) c.next_gen c.order is.below (omega arith);
      uniq = insert-Uniq idx (c.next_gen + 1) c.map is.uniq;
      covers = λ i g q. elim (insert_cases idx i (c.next_gen + 1) g c.map q) [
        | inl s ↦ inl (sym s.0)
        | inr s ↦ inr (inr (is.listed i g s.1))
      ];
      room = room;
    })
