-- ===== src/Storage/Volume/Durability.antt =====
-- What a flush of hostd/src/storage/volume.rs puts on stable storage.
use native.Mathlib.Nat.{div-le_self}
use tikovm.Prelude.{
  ℕ, nat_eq, ◌/◌, ◌%◌, ◌<◌, false, List, [], ◌∷◌, Text, get, contains_key, is_empty, u64_mod,
  get_or, Result, ok, err, ◌≡◌, ◌⊎◌, inl, inr, refl, ap, sym, subst, ◌∙◌, arith, Bool-cases,
}
use tikovm.Storage.Volume.{
  Volume, VolumeMeta, Faults, Fault, invalid_input, not_found, other, panic, content,
  durable_content,
}
use tikovm.Storage.Volume.Io.{flush_group, groups, join_all, run_groups, flush}
use tikovm.Storage.Volume.Disk.{InRange, byte_at, durable_byte}
use tikovm.Storage.Volume.Invariant.{IsVolume}
use tikovm.Storage.Volume.Kept.{Clean}
use tikovm.Storage.Volume.Threads.{run_groups-IsVolume}
use tikovm.Storage.Volume.Flushing.{
  Flushed, Flushed-refl, Flushed-trans, AllClean, still_clean, flush_group-Flushed,
  flush_group-clean,
}
use tikovm.Storage.Volume.Spreading.{
  Within, WithinAny, AllGroups, groups-range, keys-range, no_keys, spread, keys-nil, keys, threads,
}

clean-Within :
    (v : Volume) (j : ℕ) (is : List ℕ)
    → AllClean v is
    → Within j is
    → contains_key j v.dirty ≡ false
clean-Within v j [] c h = elim h [ ]
clean-Within v j (i ∷ is) c (inl e) = ap (λ (k : ℕ). contains_key k v.dirty) e ∙ c.0
clean-Within v j (i ∷ is) c (inr h) = clean-Within v j is c.1 h

module _ (io : Faults) where
  run_groups-Flushed :
      (v : Volume) (gs : List (List ℕ)) → AllGroups gs → Flushed v (run_groups io v gs).0
  unfolding run_groups
  run_groups-Flushed v [] r = Flushed-refl v
  run_groups-Flushed v (g ∷ gs) r =
      let w = (flush_group io v g).0 in
      Flushed-trans v w (run_groups io w gs).0 (flush_group-Flushed io v g r.0)
        (run_groups-Flushed w gs r.1)

  -- Each result is a success.
  join_all-ok :
      (r : Result Fault (Unit {0})) (rs : List (Result Fault (Unit {0}))) (u : Unit {0})
      → join_all (r ∷ rs) ≡ ok u
      → ((t : Unit {0}) × (r ≡ ok t)) × (join_all rs ≡ ok u)
  join_all-ok (ok t) rs u h = ((t, refl), h)
  join_all-ok (err panic) rs u h = cc
  join_all-ok (err invalid_input) rs u h = ground (arith, h)
  join_all-ok (err not_found) rs u h = ground (arith, h)
  join_all-ok (err other) rs u h = ground (arith, h)

  run_groups-clean :
      (v : Volume) (gs : List (List ℕ)) (u : Unit {0}) (j : ℕ)
      → AllGroups gs
      → InRange j
      → join_all (run_groups io v gs).1 ≡ ok u
      → WithinAny j gs
      → contains_key j (run_groups io v gs).0.dirty ≡ false
  unfolding run_groups
  run_groups-clean v [] u j r hj h w = elim w [ ]
  run_groups-clean v (g ∷ gs) u j r hj h w =
      let x = (flush_group io v g).0 in
      let both = join_all-ok (flush_group io v g).1 (run_groups io x gs).1 u h in
      elim w [
        | inl here ↦
            still_clean x (run_groups io x gs).0 j hj (run_groups-Flushed x gs r.1)
              (clean-Within x j g (flush_group-clean io v g both.0.0 r.0 both.0.1) here)
        | inr later ↦ run_groups-clean x gs u j r.1 hj both.1 later
      ]

-- A flush is the run of its threads, or there is nothing to do.
pub flush_cases :
    (io : Faults) (v : Volume)
    → ((v.dirty ≡ []) × (flush io v ≡ (v, ok tt)))
      ⊎ ((gs : List (List ℕ)) × ((gs ≡ groups (threads v.dirty) (threads v.dirty) (keys v.dirty))
            × (flush io v ≡ ((run_groups io v gs).0, join_all (run_groups io v gs).1))))
unfolding flush keys
flush_cases io v = elim (Bool-cases (is_empty (keys v.dirty))) [
  | inl e ↦ inl (keys-nil v.dirty e, ground (arith, e))
  | inr e ↦
      inr (groups (threads v.dirty) (threads v.dirty) (keys v.dirty), (refl, ground (arith, e)))
]

-- After threads that succeed, no chunk is dirty.
all_clean :
    (io : Faults) (v : Volume) (gs : List (List ℕ)) (u : Unit {0})
    → IsVolume v
    → gs ≡ groups (threads v.dirty) (threads v.dirty) (keys v.dirty)
    → AllGroups gs
    → join_all (run_groups io v gs).1 ≡ ok u
    → (j : ℕ) → InRange j
    → contains_key j (run_groups io v gs).0.dirty ≡ false
all_clean io v gs u is g r done j hj = elim (Bool-cases (contains_key j v.dirty)) [
  | inl d ↦
      run_groups-clean io v gs u j r hj done (subst (WithinAny j) (sym g) (spread v.dirty j d))
  | inr d ↦ still_clean v (run_groups io v gs).0 j hj (run_groups-Flushed io v gs r) d
]

-- Everything is on stable storage.
abbrev pub AllDurable : Volume → Volume → Type 0
AllDurable v w =
    (w.meta ≡ v.meta)
    × ((j : ℕ) → InRange j → (content w j ≡ content v j) × (durable_content w j ≡ content v j))

flushed-AllDurable :
    (v w : Volume)
    → Clean v
    → Flushed v w
    → ((j : ℕ) → InRange j → contains_key j w.dirty ≡ false)
    → AllDurable v w
unfolding Clean
flushed-AllDurable v w clean f none_dirty = (
  f.same_meta,
  λ j hj. (
    f.same_content j hj,
    elim (f.settled j hj) [
      | inr (c, s) ↦ s
      | inl (c, inr s) ↦ s
      | inl (c, inl s) ↦ s ∙ clean j hj (sym c ∙ none_dirty j hj)
    ],
  ),
)

pub flush-AllDurable :
    (io : Faults) (v v' : Volume) (u : Unit {0})
    → IsVolume v
    → Clean v
    → flush io v ≡ (v', ok u)
    → (v'.dirty ≡ []) × AllDurable v v'
unfolding Clean
flush-AllDurable io v v' u is clean h = elim (flush_cases io v) [
  | inl (n, e) ↦
      let q : v' ≡ v = cc in
      subst (λ w. (w.dirty ≡ []) × AllDurable v w) (sym q)
        (n, (refl, λ j hj. (refl, clean j hj (rw n (unfold get in refl)))))
  | inr (gs, (g, e)) ↦
      let w = (run_groups io v gs).0 in
      let done : join_all (run_groups io v gs).1 ≡ ok u = cc in
      let q : v' ≡ w = cc in
      let r : AllGroups gs = subst AllGroups (sym g) (
        groups-range (threads v.dirty) (threads v.dirty) (keys v.dirty)
          (keys-range v.dirty is.range)) in
      let f = run_groups-Flushed io v gs r in
      let none_dirty = all_clean io v gs u is g r done in
      subst (λ t. (t.dirty ≡ []) × AllDurable v t) (sym q)
        (
          no_keys w.dirty
              (λ j d. ground (arith, d, none_dirty j ((run_groups-IsVolume io v gs is).range j d))),
          flushed-AllDurable v w clean f none_dirty,
        )
]

pub flush-IsVolume : (io : Faults) (v : Volume) → IsVolume v → IsVolume (flush io v).0
flush-IsVolume io v is = elim (flush_cases io v) [
  | inl (n, e) ↦ subst (λ t. IsVolume t.0) (sym e) is
  | inr (gs, (g, e)) ↦ subst (λ t. IsVolume t.0) (sym e) (run_groups-IsVolume io v gs is)
]

pub AllDurable-byte_at :
    (v w : Volume) (p : ℕ) → p < u64_mod → AllDurable v w → byte_at w p ≡ byte_at v p
unfolding byte_at
AllDurable-byte_at v w p hp all =
    ap (λ (t : VolumeMeta). get_or (content w (p / t.chunk_size)) (p % t.chunk_size) 0) all.0
    ∙ ap (λ (t : Text). get_or t (p % v.meta.chunk_size) 0)
        (all.1 (p / v.meta.chunk_size) (omega (arith, div-le_self p v.meta.chunk_size))).0

pub AllDurable-durable_byte :
    (v w : Volume) (p : ℕ) → p < u64_mod → AllDurable v w → durable_byte w p ≡ byte_at v p
unfolding byte_at durable_byte
AllDurable-durable_byte v w p hp all =
    ap (λ (t : VolumeMeta). get_or (durable_content w (p / t.chunk_size)) (p % t.chunk_size) 0)
      all.0
    ∙ ap (λ (t : Text). get_or t (p % v.meta.chunk_size) 0)
        (all.1 (p / v.meta.chunk_size) (omega (arith, div-le_self p v.meta.chunk_size))).1

-- When a flush has succeeded, on a volume that keeps the invariant and whose other chunks than the
-- dirty ones are on stable storage, every byte of the disk is on stable storage as it was when the
-- flush began, no byte has changed, and no chunk is dirty.
pub flush_durable :
    (io : Faults) (v v' : Volume) (u : Unit {0})
    → IsVolume v
    → Clean v
    → flush io v ≡ (v', ok u)
    → (v'.dirty ≡ [])
      × ((p : ℕ) → p < u64_mod → (byte_at v' p ≡ byte_at v p) × (durable_byte v' p ≡ byte_at v p))
flush_durable io v v' u is clean h =
    let all = flush-AllDurable io v v' u is clean h in
    (all.0, λ p hp. (AllDurable-byte_at v v' p hp all.1, AllDurable-durable_byte v v' p hp all.1))
