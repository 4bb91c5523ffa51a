-- ===== src/Storage/Volume/Threads.antt =====
-- The threads of a flush of hostd/src/storage/volume.rs: the invariant, and their look-ups in the
-- cache.
use tikovm.Prelude.{
  ℕ, nat_eq, ◌+◌, true, false, Option, none, some, List, [], ◌∷◌, get, get-insert, get-remove,
  remove-Uniq, Result, ok, err, ◌≡◌, inl, inr, refl, ap, sym, subst, arith, Bool-cases,
}
use tikovm.Storage.Volume.{Volume, Faults, Fault, chunk_fd, cached, touch, put_durable}
use tikovm.Storage.Volume.Io.{sync_fd, sync_chunk, clear_dirty, next_chunk, flush_group, run_groups}
use tikovm.Storage.Volume.Invariant.{IsVolume, chunk_fd-IsVolume}
use tikovm.Storage.Volume.Kept.{same_parts}

clear_dirty-IsVolume : (v : Volume) (i : ℕ) → IsVolume v → IsVolume (clear_dirty v i)
clear_dirty-IsVolume v i is = record {
  cache = is.cache;
  uniq = remove-Uniq i v.dirty is.uniq;
  pinned = λ j h. is.pinned j (ground (arith, get-remove i j v.dirty, h));
  range = λ j h. is.range j (ground (arith, get-remove i j v.dirty, h));
}

module _ (io : Faults) where
  sync_fd-IsVolume :
      (r : Volume × Result Fault (Option ℕ)) → IsVolume r.0 → IsVolume (sync_fd io r).0
  sync_fd-IsVolume (v, err e) is = is
  sync_fd-IsVolume (v, ok none) is = is
  sync_fd-IsVolume (v, ok (some f)) is = elim (Bool-cases (io.sync_fails f)) [
    | inl e ↦ rw e is
    | inr e ↦ rw e (same_parts v (put_durable v f) refl refl is)
  ]

  next_chunk-IsVolume :
      (i : ℕ) (r : Volume × Result Fault (Unit {0})) (k : Volume → Volume × Result Fault (Unit {0}))
      → IsVolume r.0
      → ((w : Volume) → IsVolume w → IsVolume (k w).0)
      → IsVolume (next_chunk r i k).0
  next_chunk-IsVolume i (v, err e) k is next = is
  next_chunk-IsVolume i (v, ok u) k is next = next (clear_dirty v i) (clear_dirty-IsVolume v i is)

  flush_group-IsVolume :
      (v : Volume) (group : List ℕ) → IsVolume v → IsVolume (flush_group io v group).0
  unfolding flush_group sync_chunk
  flush_group-IsVolume v [] is = is
  flush_group-IsVolume v (i ∷ group) is =
      next_chunk-IsVolume i (sync_fd io (chunk_fd io v i false)) (λ w. flush_group io w group)
        (sync_fd-IsVolume (chunk_fd io v i false) (chunk_fd-IsVolume io v i false is))
        (λ w kept. flush_group-IsVolume w group kept)

  pub run_groups-IsVolume :
      (v : Volume) (gs : List (List ℕ)) → IsVolume v → IsVolume (run_groups io v gs).0
  unfolding run_groups
  run_groups-IsVolume v [] is = is
  run_groups-IsVolume v (g ∷ gs) is =
      run_groups-IsVolume (flush_group io v g).0 gs (flush_group-IsVolume v g is)

  -- The chunk is found in the cache.
  found :
      (v : Volume) (i : ℕ)
      → v.poisoned ≡ false
      → cached v i ≡ true
      → io.sync_fails i ≡ false
      → sync_chunk io v i ≡ (put_durable (record v { fds = touch v.fds i }) i, ok tt)
  unfolding sync_chunk chunk_fd
  found v i p c s = ground (arith, p, c, s)

-- Each chunk of the group has a descriptor, and its sync succeeds.
abbrev pub Ready : Faults → Volume → List ℕ → Type 0
Ready io v [] = Unit {0}
Ready io v (i ∷ is) = (cached v i ≡ true) × ((io.sync_fails i ≡ false) × Ready io v is)

Ready-touch :
    (io : Faults) (v w : Volume) (i : ℕ) (is : List ℕ)
    → w.fds ≡ touch v.fds i
    → Ready io v is
    → Ready io w is
Ready-touch io v w i [] e r = tt
Ready-touch io v w i (j ∷ is) e r = (
  ground (arith, ap (λ c. get j c.map) e, get-insert i j (v.fds.next_gen + 1) v.fds.map, r.0),
  (r.1.0, Ready-touch io v w i is e r.1.1),
)

-- The thread has succeeded, and the cache holds what it held.
abbrev pub Worked : Volume → Volume × Result Fault (Unit {0}) → Type 0
Worked v r =
    (r.1 ≡ ok tt) × ((r.0.poisoned ≡ false) × ((j : ℕ) → cached v j ≡ true → cached r.0 j ≡ true))

pub flush_group-Worked :
    (io : Faults) (v : Volume) (group : List ℕ)
    → v.poisoned ≡ false
    → Ready io v group
    → Worked v (flush_group io v group)
unfolding flush_group
flush_group-Worked io v [] p r = (refl, (p, λ j h. h))
flush_group-Worked io v (i ∷ group) p r =
    let synced = put_durable (record v { fds = touch v.fds i }) i in
    let w = clear_dirty synced i in
    let rest = flush_group-Worked io w group p (Ready-touch io v w i group refl r.1.1) in
    let e : flush_group io v (i ∷ group) ≡ flush_group io w group =
      ap (λ t. next_chunk t i (λ x. flush_group io x group)) (found io v i p r.0 r.1.0) in
    subst (Worked v) (sym e) (
      rest.0,
      (
        rest.1.0,
        λ j h. rest.1.1 j (ground (arith, get-insert i j (v.fds.next_gen + 1) v.fds.map, h)),
      ),
    )
