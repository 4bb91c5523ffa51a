-- ===== src/Storage/Volume/Invariant.antt =====
-- The invariant of a volume of hostd/src/storage/volume.rs, and the look-up of a descriptor.
use tikovm.Prelude.{
  ℕ, nat_eq, text_eq, ◌+◌, ◌*◌, Bool, true, false, Option, none, some, [], Uniq, get, contains_key,
  get-insert, Result, ok, err, ◌≡◌, ◌⊎◌, inl, inr, refl, ap, sym, ◌∙◌, arith, Bool-cases,
}
use tikovm.Storage.Volume.{
  Volume, Faults, Fault, other, panic, chunk_path, chunk_fd, open_chunk, admit, create_file, cached,
  content, touch, evict,
}
use tikovm.Storage.Volume.Cache.{IsCache, touch-IsCache}
use tikovm.Storage.Volume.Eviction.{evict-IsCache}
use tikovm.Storage.Volume.Disk.{InRange, Looked, chunk_fd_cases}

-- The cache is well formed, and each dirty chunk has an open descriptor and a `u64` index.
pub record IsVolume (v : Volume) : Type 0 where
  pub cache : IsCache v.fds
  pub uniq : Uniq v.dirty
  pub pinned : (i : ℕ) → contains_key i v.dirty ≡ true → cached v i ≡ true
  pub range : (i : ℕ) → contains_key i v.dirty ≡ true → InRange i

touch-IsVolume : (v : Volume) (idx : ℕ) → IsVolume v → IsVolume (record v { fds = touch v.fds idx })
touch-IsVolume v idx is = record {
  cache = touch-IsCache v.fds idx is.cache;
  uniq = is.uniq;
  pinned = λ i d. ground (arith, is.pinned i d, get-insert idx i (v.fds.next_gen + 1) v.fds.map);
  range = is.range;
}

-- The volume after the eviction, whatever else of it the `expect` changes.
admitted :
    (v v' : Volume) (idx : ℕ)
    → IsVolume v
    → v'.fds ≡ evict (2 * v.fds.cap) v.dirty (touch v.fds idx)
    → v'.dirty ≡ v.dirty
    → IsVolume v'
admitted v v' idx is f d =
    let t = touch-IsVolume v idx is in
    let e = evict-IsCache (2 * v.fds.cap) v.dirty (touch v.fds idx) t.cache in
    record {
      cache = rw f e.0;
      uniq = rw d is.uniq;
      pinned = λ i q.
          let dirty : contains_key i v.dirty ≡ true = ap (λ m. contains_key i m) (sym d) ∙ q in
          ground (arith, ap (λ c. get i c.map) f, e.1.pinned i dirty, t.pinned i dirty);
      range = λ i q. is.range i (ap (λ m. contains_key i m) (sym d) ∙ q);
    }

admit-IsVolume : (v : Volume) (idx : ℕ) → IsVolume v → IsVolume (admit v idx).0
admit-IsVolume v idx is =
    admitted v (admit v idx).0 idx is (unfold admit in ground arith) (unfold admit in ground arith)

pub create_file-IsVolume : (v : Volume) (idx : ℕ) → IsVolume v → IsVolume (create_file v idx)
create_file-IsVolume v idx is = elim (Bool-cases (contains_key (chunk_path idx) v.files)) [
  | inl e ↦ rw e is
  | inr e ↦ rw e (record { cache = is.cache; uniq = is.uniq; pinned = is.pinned; range = is.range })
]

open_chunk-IsVolume :
    (io : Faults) (v : Volume) (idx : ℕ) (create : Bool)
    → IsVolume v
    → IsVolume (open_chunk io v idx create).0
unfolding open_chunk
open_chunk-IsVolume io v idx true is = elim (Bool-cases (io.open_fails idx)) [
  | inl e ↦ rw e is
  | inr e ↦ rw e (admit-IsVolume (create_file v idx) idx (create_file-IsVolume v idx is))
]
open_chunk-IsVolume io v idx false is = elim (Bool-cases (contains_key (chunk_path idx) v.files)) [
  | inr e ↦ rw e is
  | inl e ↦ elim (Bool-cases (io.open_fails idx)) [
    | inl f ↦ rw (e, f) is
    | inr f ↦ rw (e, f) (admit-IsVolume v idx is)
  ]
]

-- A look-up keeps the invariant, whatever it returns.
pub chunk_fd-IsVolume :
    (io : Faults) (v : Volume) (idx : ℕ) (create : Bool)
    → IsVolume v
    → IsVolume (chunk_fd io v idx create).0
chunk_fd-IsVolume io v idx create is = go (chunk_fd_cases io v idx create)
  where
    go : {r : Volume × Result Fault (Option ℕ)} → Looked io v idx create r → IsVolume r.0
    go (inl (p, e)) = rw e is
    go (inr (inl (p, (c, e)))) = rw e (touch-IsVolume v idx is)
    go (inr (inr (p, (c, e)))) = rw e (open_chunk-IsVolume io v idx create is)

-- What a look-up returns: an error, the chunk's own descriptor, which is then cached, or, for a read,
-- that the chunk has no file.
abbrev pub Opened : Volume → ℕ → Bool → Volume × Result Fault (Option ℕ) → Type 0
Opened v idx create r =
    ((e : Fault) × (r.1 ≡ err e))
    ⊎ (((r.1 ≡ ok (some idx)) × (cached r.0 idx ≡ true))
        ⊎ ((create ≡ false) × ((r.1 ≡ ok none) × (content v idx ≡ []))))

admit-Opened : (v w : Volume) (idx : ℕ) (create : Bool) → Opened v idx create (admit w idx)
unfolding admit
admit-Opened v w idx create =
    elim (Bool-cases (contains_key idx (evict (2 * w.fds.cap) w.dirty (touch w.fds idx)).map)) [
      | inl e ↦ inr (inl (ground (arith, e), ground (arith, e)))
      | inr e ↦ inl (panic, ground (arith, e))
    ]

open_chunk-Opened :
    (io : Faults) (v : Volume) (idx : ℕ) (create : Bool)
    → Opened v idx create (open_chunk io v idx create)
unfolding open_chunk
open_chunk-Opened io v idx true = elim (Bool-cases (io.open_fails idx)) [
  | inl e ↦ rw e (inl (other, refl))
  | inr e ↦ rw e (admit-Opened v (create_file v idx) idx true)
]
open_chunk-Opened io v idx false = elim (Bool-cases (contains_key (chunk_path idx) v.files)) [
  | inr e ↦ rw e (inr (inr (refl, (refl, unfold content in ground (arith, e)))))
  | inl e ↦ elim (Bool-cases (io.open_fails idx)) [
    | inl f ↦ rw (e, f) (inl (other, refl))
    | inr f ↦ rw (e, f) (admit-Opened v v idx false)
  ]
]

pub chunk_fd-Opened :
    (io : Faults) (v : Volume) (idx : ℕ) (create : Bool)
    → Opened v idx create (chunk_fd io v idx create)
chunk_fd-Opened io v idx create = go (chunk_fd_cases io v idx create)
  where
    go : {r : Volume × Result Fault (Option ℕ)} → Looked io v idx create r → Opened v idx create r
    go (inl (p, e)) = rw e (inl (other, refl))
    go (inr (inl (p, (c, e)))) =
        rw e (inr (inl (refl, ground (arith, get-insert idx idx (v.fds.next_gen + 1) v.fds.map))))
    go (inr (inr (p, (c, e)))) = rw e (open_chunk-Opened io v idx create)
