-- ===== src/Storage/Volume/Disk.antt =====
-- The flat disk that a volume of hostd/src/storage/volume.rs stands for, and the lemmas on the single
-- system calls.
use tikovm.Prelude.{
  ℕ, nat_eq, text_eq, ◌/◌, ◌%◌, ◌^◌, ◌<◌, Bool, true, false, Option, some, Text, text_beq,
  text_beq_iff, nat_beq, if◌then◌else◌, drop, get_or, get, contains_key, get-insert,
  show_decimal-injective, Result, ok, err, ◌≡◌, ◌⊎◌, inl, inr, refl, ap, sym, ◌∙◌, arith,
  Bool-cases,
}
use tikovm.Storage.Files.{empty_file}
use tikovm.Storage.Volume.{
  Volume, Faults, Fault, chunk_path, cached, chunk_fd, touch, other, open_chunk, admit, create_file,
  content, durable_content, put_content, put_durable,
}

-- The byte at an offset of the disk; a chunk with no file, and the end that a file lacks, are zeros.
unfoldable pub byte_at : Volume → ℕ → ℕ
byte_at v p = get_or (content v (p / v.meta.chunk_size)) (p % v.meta.chunk_size) 0

-- The byte that is on stable storage.
unfoldable pub durable_byte : Volume → ℕ → ℕ
durable_byte v p = get_or (durable_content v (p / v.meta.chunk_size)) (p % v.meta.chunk_size) 0

-- Chunks of `u64` offsets.
abbrev pub InRange : ℕ → Type 0
InRange idx = idx < 10 ^ 20

pub chunk_path-injective : (i j : ℕ) → InRange i → InRange j → chunk_path i ≡ chunk_path j → i ≡ j
unfolding chunk_path
chunk_path-injective i j hi hj e = show_decimal-injective i j hi hj (ap (drop 13) e)

path_test : (i j : ℕ) → InRange i → InRange j → text_beq (chunk_path i) (chunk_path j) ≡ nat_beq i j
path_test i j hi hj = elim (Bool-cases (nat_beq i j)) [
  | inl e ↦
      (text_beq_iff (chunk_path i) (chunk_path j)).1 (ap chunk_path ((nat_eq.decides i j).0 e))
      ∙ sym e
  | inr e ↦ elim (Bool-cases (text_beq (chunk_path i) (chunk_path j))) [
    | inl t ↦
        let p = chunk_path-injective i j hi hj ((text_beq_iff (chunk_path i) (chunk_path j)).0 t) in
        ground (arith, e, p)
    | inr t ↦ t ∙ sym e
  ]
]

pub content-put_content :
    (v : Volume) (i j : ℕ) (t : Text)
    → InRange i
    → InRange j
    → content (put_content v i t) j ≡ (if nat_beq i j then t else content v j)
unfolding content
content-put_content v i j t hi hj = ground (
  arith,
  get-insert (chunk_path i) (chunk_path j) (record { written = t; durable = durable_content v i })
      v.files,
  path_test i j hi hj,
)

pub durable-put_content :
    (v : Volume) (i j : ℕ) (t : Text)
    → InRange i
    → InRange j
    → durable_content (put_content v i t) j ≡ durable_content v j
unfolding durable_content
durable-put_content v i j t hi hj = elim (Bool-cases (nat_beq i j)) [
  | inl e ↦ ground (
    arith,
    get-insert (chunk_path i) (chunk_path j) (record { written = t; durable = durable_content v i })
        v.files,
    path_test i j hi hj,
    e,
    ap (durable_content v) ((nat_eq.decides i j).0 e),
  )
  | inr e ↦ ground (
    arith,
    get-insert (chunk_path i) (chunk_path j) (record { written = t; durable = durable_content v i })
        v.files,
    path_test i j hi hj,
    e,
  )
]

pub content-put_durable :
    (v : Volume) (i j : ℕ) → InRange i → InRange j → content (put_durable v i) j ≡ content v j
unfolding content
content-put_durable v i j hi hj = elim (Bool-cases (nat_beq i j)) [
  | inl e ↦ ground (
    arith,
    get-insert (chunk_path i) (chunk_path j)
        (record { written = content v i; durable = content v i }) v.files,
    path_test i j hi hj,
    e,
    ap (content v) ((nat_eq.decides i j).0 e),
  )
  | inr e ↦ ground (
    arith,
    get-insert (chunk_path i) (chunk_path j)
        (record { written = content v i; durable = content v i }) v.files,
    path_test i j hi hj,
    e,
  )
]

pub durable-put_durable :
    (v : Volume) (i j : ℕ)
    → InRange i
    → InRange j
    → durable_content (put_durable v i) j
      ≡ (if nat_beq i j then content v i else durable_content v j)
unfolding durable_content
durable-put_durable v i j hi hj = ground (
  arith,
  get-insert (chunk_path i) (chunk_path j) (record { written = content v i; durable = content v i })
      v.files,
  path_test i j hi hj,
)

-- What an operation leaves alone that only opens and closes descriptors.
pub record SameData (v v' : Volume) : Type 0 where
  pub same_meta : v'.meta ≡ v.meta
  pub same_dirty : v'.dirty ≡ v.dirty
  pub same_content : (i : ℕ) → content v' i ≡ content v i
  pub same_durable : (i : ℕ) → durable_content v' i ≡ durable_content v i

create_file-SameData : (v : Volume) (idx : ℕ) → SameData v (create_file v idx)
create_file-SameData v idx = record {
  same_meta = ground arith;
  same_dirty = ground arith;
  same_content = λ i.
      unfold content in
      ground (
        arith,
        get-insert (chunk_path idx) (chunk_path i) empty_file v.files,
        text_beq_iff (chunk_path idx) (chunk_path i),
        λ (e : chunk_path idx ≡ chunk_path i). ap (λ t. get t v.files) e,
      );
  same_durable = λ i.
      unfold durable_content in
      ground (
        arith,
        get-insert (chunk_path idx) (chunk_path i) empty_file v.files,
        text_beq_iff (chunk_path idx) (chunk_path i),
        λ (e : chunk_path idx ≡ chunk_path i). ap (λ t. get t v.files) e,
      );
}

-- The content is read from the files alone.
pub content_at : (v w : Volume) (i : ℕ) → v.files ≡ w.files → content v i ≡ content w i
unfolding content
content_at v w i f = rw f refl

pub durable_at :
    (v w : Volume) (i : ℕ) → v.files ≡ w.files → durable_content v i ≡ durable_content w i
unfolding durable_content
durable_at v w i f = rw f refl

same_files :
    (v v' w : Volume)
    → SameData v w
    → v'.meta ≡ w.meta
    → v'.dirty ≡ w.dirty
    → v'.files ≡ w.files
    → SameData v v'
same_files v v' w s m d f = record {
  same_meta = m ∙ s.same_meta;
  same_dirty = d ∙ s.same_dirty;
  same_content = λ i. content_at v' w i f ∙ s.same_content i;
  same_durable = λ i. durable_at v' w i f ∙ s.same_durable i;
}

abbrev pub unchanged : (v : Volume) → SameData v v
unchanged v = record {
  same_meta = refl;
  same_dirty = refl;
  same_content = λ i. refl;
  same_durable = λ i. refl;
}

admit-frame :
    (v : Volume) (idx : ℕ)
    → ((admit v idx).0.meta ≡ v.meta)
      × (((admit v idx).0.dirty ≡ v.dirty) × ((admit v idx).0.files ≡ v.files))
unfolding admit
admit-frame v idx = ground arith

admit-SameData : (v w : Volume) (idx : ℕ) → SameData v w → SameData v (admit w idx).0
admit-SameData v w idx s =
    let f = admit-frame w idx in same_files v (admit w idx).0 w s f.0 f.1.0 f.1.1

open_chunk-SameData :
    (io : Faults) (v : Volume) (idx : ℕ) (create : Bool) → SameData v (open_chunk io v idx create).0
unfolding open_chunk
open_chunk-SameData io v idx true = elim (Bool-cases (io.open_fails idx)) [
  | inl e ↦ rw e (unchanged v)
  | inr e ↦ rw e (admit-SameData v (create_file v idx) idx (create_file-SameData v idx))
]
open_chunk-SameData io v idx false = elim (Bool-cases (contains_key (chunk_path idx) v.files)) [
  | inr e ↦ rw e (unchanged v)
  | inl e ↦ elim (Bool-cases (io.open_fails idx)) [
    | inl f ↦ rw (e, f) (unchanged v)
    | inr f ↦ rw (e, f) (admit-SameData v v idx (unchanged v))
  ]
]

-- The ways of a look-up: the lock is poisoned, a hit, a miss.
abbrev pub Looked : Faults → Volume → ℕ → Bool → Volume × Result Fault (Option ℕ) → Type 0
Looked io v idx create r =
    ((v.poisoned ≡ true) × (r ≡ (v, err other)))
    ⊎ (((v.poisoned ≡ false)
          × ((cached v idx ≡ true) × (r ≡ (record v { fds = touch v.fds idx }, ok (some idx)))))
        ⊎ ((v.poisoned ≡ false) × ((cached v idx ≡ false) × (r ≡ open_chunk io v idx create))))

pub chunk_fd_cases :
    (io : Faults) (v : Volume) (idx : ℕ) (create : Bool)
    → Looked io v idx create (chunk_fd io v idx create)
unfolding chunk_fd
chunk_fd_cases io v idx create = elim (Bool-cases v.poisoned) [
  | inl e ↦ inl (e, ground (arith, e))
  | inr e ↦ elim (Bool-cases (cached v idx)) [
    | inl f ↦ inr (inl (e, (f, ground (arith, e, f))))
    | inr f ↦ inr (inr (e, (f, ground (arith, e, f))))
  ]
]

pub chunk_fd-SameData :
    (io : Faults) (v : Volume) (idx : ℕ) (create : Bool) → SameData v (chunk_fd io v idx create).0
chunk_fd-SameData io v idx create = go (chunk_fd_cases io v idx create)
  where
    go : {r : Volume × Result Fault (Option ℕ)} → Looked io v idx create r → SameData v r.0
    go (inl (p, e)) = rw e (unchanged v)
    go (inr (inl (p, (c, e)))) =
        rw e (same_files v (record v { fds = touch v.fds idx }) v (unchanged v) refl refl refl)
    go (inr (inr (p, (c, e)))) = rw e (open_chunk-SameData io v idx create)
