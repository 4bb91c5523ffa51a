-- ===== src/Storage/Volume/Flushing.antt =====
-- `flush` of hostd/src/storage/volume.rs: what is on stable storage when it has returned.
use tikovm.Prelude.{
  ℕ, nat_eq, false, Option, none, some, List, [], ◌∷◌, nat_beq, remove, contains_key, get-remove,
  Result, ok, err, ◌≡◌, ◌⊎◌, inl, inr, refl, ap, sym, subst, ◌∙◌, arith, Bool-cases,
}
use tikovm.Storage.Volume.{Volume, Faults, Fault, chunk_fd, content, durable_content, put_durable}
use tikovm.Storage.Volume.Io.{sync_fd, sync_chunk, clear_dirty, next_chunk, flush_group}
use tikovm.Storage.Volume.Disk.{
  InRange, SameData, chunk_fd-SameData, content-put_durable, durable-put_durable, content_at,
  durable_at,
}
use tikovm.Storage.Volume.Invariant.{Opened, chunk_fd-Opened}

-- What a chunk has become: it is as it was, but perhaps synced, or it is synced and clean.
abbrev Settled : Volume → Volume → ℕ → Type 0
Settled v w j =
    ((contains_key j w.dirty ≡ contains_key j v.dirty)
      × ((durable_content w j ≡ durable_content v j) ⊎ (durable_content w j ≡ content v j)))
    ⊎ ((contains_key j w.dirty ≡ false) × (durable_content w j ≡ content v j))

-- What threads that sync chunks do to a volume.
pub record Flushed (v w : Volume) : Type 0 where
  pub same_meta : w.meta ≡ v.meta
  pub same_content : (j : ℕ) → InRange j → content w j ≡ content v j
  pub settled : (j : ℕ) → InRange j → Settled v w j

pub Flushed-refl : (v : Volume) → Flushed v v
Flushed-refl v = record {
  same_meta = refl;
  same_content = λ j hj. refl;
  settled = λ j hj. inl (refl, inl refl);
}

Settled-trans :
    (v w u : Volume) (j : ℕ)
    → content w j ≡ content v j
    → Settled v w j
    → Settled w u j
    → Settled v u j
Settled-trans v w u j c a (inr (d, s)) = inr (d, s ∙ c)
Settled-trans v w u j c (inl (d, s)) (inl (e, inr t)) = inl (e ∙ d, inr (t ∙ c))
Settled-trans v w u j c (inl (d, inl s)) (inl (e, inl t)) = inl (e ∙ d, inl (t ∙ s))
Settled-trans v w u j c (inl (d, inr s)) (inl (e, inl t)) = inl (e ∙ d, inr (t ∙ s))
Settled-trans v w u j c (inr (d, s)) (inl (e, inl t)) = inr (e ∙ d, t ∙ s)
Settled-trans v w u j c (inr (d, s)) (inl (e, inr t)) = inr (e ∙ d, t ∙ c)

pub Flushed-trans : (v w u : Volume) → Flushed v w → Flushed w u → Flushed v u
Flushed-trans v w u a b = record {
  same_meta = b.same_meta ∙ a.same_meta;
  same_content = λ j hj. b.same_content j hj ∙ a.same_content j hj;
  settled = λ j hj. Settled-trans v w u j (a.same_content j hj) (a.settled j hj) (b.settled j hj);
}

of_SameData : (v w : Volume) → SameData v w → Flushed v w
of_SameData v w s = record {
  same_meta = s.same_meta;
  same_content = λ j hj. s.same_content j;
  settled = λ j hj. inl (ap (λ m. contains_key j m) s.same_dirty, inl (s.same_durable j));
}

synced : (v : Volume) (i : ℕ) → InRange i → Flushed v (put_durable v i)
synced v i hi = record {
  same_meta = refl;
  same_content = λ j hj. content-put_durable v i j hi hj;
  settled = λ j hj. inl (
    refl,
    elim (Bool-cases (nat_beq i j)) [
      | inl e ↦ inr (
          ground
            (arith, durable-put_durable v i j hi hj, e, ap (content v) ((nat_eq.decides i j).0 e)))
      | inr e ↦ inl (ground (arith, durable-put_durable v i j hi hj, e))
    ],
  );
}

-- A chunk that is synced may be taken out of the dirty set.
cleared :
    (v w : Volume) (i : ℕ)
    → InRange i
    → Flushed v w
    → durable_content w i ≡ content v i
    → Flushed v (clear_dirty w i)
cleared v w i hi f s = record {
  same_meta = f.same_meta;
  same_content = λ j hj. content_at (clear_dirty w i) w j refl ∙ f.same_content j hj;
  settled = λ j hj. elim (Bool-cases (nat_beq i j)) [
    | inl e ↦
        let q : i ≡ j = (nat_eq.decides i j).0 e in
        inr (
          ground (arith, get-remove i j w.dirty, e),
          durable_at (clear_dirty w i) w j refl
              ∙ subst (λ k. durable_content w k ≡ content v k) q s,
        )
    | inr e ↦
        let same : contains_key j (remove i w.dirty) ≡ contains_key j w.dirty =
          ground (arith, get-remove i j w.dirty, e) in
        let d = durable_at (clear_dirty w i) w j refl in
        elim (f.settled j hj) [
          | inl (c, inl t) ↦ inl (same ∙ c, inl (d ∙ t))
          | inl (c, inr t) ↦ inl (same ∙ c, inr (d ∙ t))
          | inr (c, t) ↦ inr (same ∙ c, d ∙ t)
        ]
  ];
}

pub still_clean :
    (v w : Volume) (j : ℕ)
    → InRange j
    → Flushed v w
    → contains_key j v.dirty ≡ false
    → contains_key j w.dirty ≡ false
still_clean v w j hj f h = elim (f.settled j hj) [ inl (c, s) ↦ c ∙ h | inr (c, s) ↦ c ]

abbrev pub AllInRange : List ℕ → Type 0
AllInRange [] = Unit {0}
AllInRange (i ∷ is) = InRange i × AllInRange is

abbrev pub AllClean : Volume → List ℕ → Type 0
AllClean v [] = Unit {0}
AllClean v (i ∷ is) = (contains_key i v.dirty ≡ false) × AllClean v is

module _ (io : Faults) where
  synced_fd :
      (v w : Volume) (i : ℕ) (u : Unit {0}) (r : Volume × Result Fault (Option ℕ))
      → InRange i
      → SameData v r.0
      → Opened v i false r
      → sync_fd io r ≡ (w, ok u)
      → Flushed v w × (durable_content w i ≡ content v i)
  synced_fd v w i u (x, err e) hi same o h = cc
  synced_fd v w i u (x, ok none) hi same o h = cc
  synced_fd v w i u (x, ok (some f)) hi same (inl o) h = cc
  synced_fd v w i u (x, ok (some f)) hi same (inr (inr o)) h = cc
  synced_fd v w i u (x, ok (some f)) hi same (inr (inl o)) h =
      let q : f ≡ i = cc in
      elim (Bool-cases (io.sync_fails f)) [
        | inl e ↦ ground (arith, e, h)
        | inr e ↦
            let p : put_durable x f ≡ w = ground (arith, e, h) in
            let p' = subst (λ t. put_durable x t ≡ w) q p in
            subst (λ t. Flushed v t × (durable_content t i ≡ content v i)) p'
              (
                Flushed-trans v x (put_durable x i) (of_SameData v x same) (synced x i hi),
                ground (arith, durable-put_durable x i i hi hi, same.same_content i),
              )
      ]

  -- A chunk that is synced, before it is taken out of the dirty set.
  pub sync_chunk-ok :
      (v w : Volume) (i : ℕ) (u : Unit {0})
      → InRange i
      → sync_chunk io v i ≡ (w, ok u)
      → Flushed v w × (durable_content w i ≡ content v i)
  unfolding sync_chunk
  sync_chunk-ok v w i u hi h =
      synced_fd v w i u (chunk_fd io v i false) hi (chunk_fd-SameData io v i false)
        (chunk_fd-Opened io v i false) h

  tried_fd :
      (v : Volume) (i : ℕ) (r : Volume × Result Fault (Option ℕ))
      → InRange i
      → SameData v r.0
      → Opened v i false r
      → Flushed v (sync_fd io r).0
  tried_fd v i (x, err e) hi same o = of_SameData v x same
  tried_fd v i (x, ok none) hi same o = of_SameData v x same
  tried_fd v i (x, ok (some f)) hi same (inl o) = cc
  tried_fd v i (x, ok (some f)) hi same (inr (inr o)) = cc
  tried_fd v i (x, ok (some f)) hi same (inr (inl o)) =
      let q : i ≡ f = cc in
      elim (Bool-cases (io.sync_fails f)) [
        | inl e ↦ rw e (of_SameData v x same)
        | inr e ↦ rw e (
            Flushed-trans v x (put_durable x f) (of_SameData v x same)
              (synced x f (subst InRange q hi)))
      ]

  tried : (v : Volume) (i : ℕ) → InRange i → Flushed v (sync_chunk io v i).0
  unfolding sync_chunk
  tried v i hi =
      tried_fd v i (chunk_fd io v i false) hi (chunk_fd-SameData io v i false)
        (chunk_fd-Opened io v i false)

  next-Flushed :
      (v : Volume) (i : ℕ) (r : Volume × Result Fault (Unit {0}))
      (k : Volume → Volume × Result Fault (Unit {0}))
      → InRange i
      → Flushed v r.0
      → ((u : Unit {0}) → r.1 ≡ ok u → durable_content r.0 i ≡ content v i)
      → ((w : Volume) → Flushed w (k w).0)
      → Flushed v (next_chunk r i k).0
  next-Flushed v i (w, err e) k hi f s next = f
  next-Flushed v i (w, ok u) k hi f s next =
      Flushed-trans v (clear_dirty w i) (k (clear_dirty w i)).0 (cleared v w i hi f (s u refl))
        (next (clear_dirty w i))

  pub flush_group-Flushed :
      (v : Volume) (group : List ℕ) → AllInRange group → Flushed v (flush_group io v group).0
  unfolding flush_group
  flush_group-Flushed v [] range = Flushed-refl v
  flush_group-Flushed v (i ∷ group) range =
      next-Flushed v i (sync_chunk io v i) (λ w. flush_group io w group) range.0 (tried v i range.0)
        (λ u h.
          (sync_chunk-ok v (sync_chunk io v i).0 i u range.0
            (ap (λ t. ((sync_chunk io v i).0, t)) h)).1)
        (λ w. flush_group-Flushed w group range.1)

  next_chunk-ok :
      (i : ℕ) (r : Volume × Result Fault (Unit {0})) (k : Volume → Volume × Result Fault (Unit {0}))
      (u : Unit {0})
      → (next_chunk r i k).1 ≡ ok u
      → (w : Volume) × ((next_chunk r i k ≡ k (clear_dirty w i)) × ((k (clear_dirty w i)).1 ≡ ok u))
  next_chunk-ok i (w, err e) k u h = cc
  next_chunk-ok i (w, ok t) k u h = (w, (refl, h))

  -- A thread that succeeds has cleaned each chunk of its group.
  pub flush_group-clean :
      (v : Volume) (group : List ℕ) (u : Unit {0})
      → AllInRange group
      → (flush_group io v group).1 ≡ ok u
      → AllClean (flush_group io v group).0 group
  unfolding flush_group
  flush_group-clean v [] u range h = tt
  flush_group-clean v (i ∷ group) u range h =
      let (w, (e, q)) = next_chunk-ok i (sync_chunk io v i) (λ x. flush_group io x group) u h in
      subst (λ t. AllClean t.0 (i ∷ group)) (sym e)
        (
          still_clean (clear_dirty w i) (flush_group io (clear_dirty w i) group).0 i range.0
              (flush_group-Flushed (clear_dirty w i) group range.1)
              (ground (arith, get-remove i i w.dirty)),
          flush_group-clean (clear_dirty w i) group u range.1 q,
        )
