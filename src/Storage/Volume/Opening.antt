-- ===== src/Storage/Volume/Opening.antt =====
-- hostd/src/storage/volume.rs: a volume's directory, and how a volume is made and opened. The JSON
-- codec of `meta.json` is an argument.
use tikovm.Prelude.{
  ℕ, zero, suc, nat_eq, text_eq, ◌%◌, ◌^◌, ◌≤◌, ◌<◌, Bool, true, false, not, ◌||◌, Option, some, [],
  Text, nat_beq, ltb, if◌then◌else◌, Map, get, Result, ok, err, ensure, ok_or, ◌>>=◌, ◌>>◌, ◌≡◌,
  ◌⊎◌, inl, inr, refl, ap, sym, subst, arith, Bool-cases, Option-cases,
}
use tikovm.Storage.Files.{File}
use tikovm.Storage.Volume.{Volume, VolumeMeta, fd_cache_cap, new_cache}
use tikovm.Storage.Volume.Invariant.{IsVolume}

pub record VolumeDir : Type 0 where
  pub meta_json : Option Text
  pub chunks : Map Text File

-- The errors: `Error::storage` with its message, an I/O error, and an error of the codec.
pub data Refusal : Type 0 where
  chunk_size_invalid : ℕ → Refusal
  size_invalid : ℕ → Refusal
  version_unsupported : ℕ → Refusal
  unreadable malformed io_error : Refusal

-- Whether a number is one of the first `k` powers of two.
abbrev pub power_below : ℕ → ℕ → Bool
power_below zero n = false
power_below (suc k) n = nat_beq n (2 ^ k) || power_below k n

-- `u64::is_power_of_two`.
unfoldable pub is_power_of_two : ℕ → Bool
is_power_of_two n = power_below 64 n

-- A volume with an empty cache and no dirty chunk.
abbrev pub fresh : Map Text File → VolumeMeta → Volume
fresh chunks meta = record {
  files = chunks;
  meta = meta;
  fds = new_cache fd_cache_cap;
  poisoned = false;
  dirty = [];
}

pub fresh-IsVolume : (chunks : Map Text File) (meta : VolumeMeta) → IsVolume (fresh chunks meta)
fresh-IsVolume chunks meta = record {
  cache = record { uniq = tt; listed = λ i g h. unfold get in cc; below = tt };
  uniq = tt;
  pinned = λ i h. unfold get in cc;
  range = λ i h. unfold get in cc;
}

module _ (encode : VolumeMeta → Text) (decode : Text → Option VolumeMeta) where
  unfoldable pub open_volume : VolumeDir → Result Refusal Volume
  open_volume dir = do
    text ← ok_or dir.meta_json unreadable
    meta ← ok_or (decode text) malformed
    ensure (nat_beq meta.version 1) (version_unsupported meta.version)
    ok (fresh dir.chunks meta)

  abbrev pub new_meta : ℕ → ℕ → VolumeMeta
  new_meta size_bytes chunk_size = record {
    version = 1;
    size_bytes = size_bytes;
    chunk_size = chunk_size;
  }

  abbrev pub with_meta : VolumeDir → VolumeMeta → VolumeDir
  with_meta dir meta = record dir { meta_json = some (encode meta) }

  -- With the outcomes of making the directory and writing `meta.json`.
  unfoldable pub create_volume : VolumeDir → ℕ → ℕ → Bool → Bool → VolumeDir × Result Refusal Volume
  create_volume dir size_bytes chunk_size made stored =
      if not (is_power_of_two chunk_size) || ltb chunk_size 4096
      then (dir, err (chunk_size_invalid chunk_size))
      else if nat_beq size_bytes 0 || not (nat_beq (size_bytes % 512) 0)
      then (dir, err (size_invalid size_bytes))
      else if not made || not stored
      then (dir, err io_error)
      else let dir' = with_meta dir (new_meta size_bytes chunk_size) in (dir', open_volume dir')

  -- The sizes that a volume may have.
  abbrev pub GoodGeometry : ℕ → ℕ → Type 0
  GoodGeometry size_bytes chunk_size =
      ((is_power_of_two chunk_size ≡ true) × (4096 ≤ chunk_size))
      × ((0 < size_bytes) × (size_bytes % 512 ≡ 0))

  pub open_volume-fresh :
      (dir : VolumeDir) (v : Volume)
      → open_volume dir ≡ ok v
      → (m : VolumeMeta) × (v ≡ fresh dir.chunks m)
  unfolding open_volume
  open_volume-fresh dir v h = elim (Option-cases dir.meta_json) [
    | inl n ↦ ground (arith, n, h)
    | inr (text, n) ↦ elim (Option-cases (decode text)) [
      | inl d ↦ ground (arith, n, d, h)
      | inr (m, d) ↦ elim (Bool-cases (nat_beq m.version 1)) [
        | inl e ↦ (m, ground (arith, n, d, e, h))
        | inr e ↦ ground (arith, n, d, e, h)
      ]
    ]
  ]

  reopened :
      (dir : VolumeDir) (size_bytes chunk_size : ℕ)
      → ((m : VolumeMeta) → decode (encode m) ≡ some m)
      → open_volume (with_meta dir (new_meta size_bytes chunk_size))
        ≡ ok (fresh dir.chunks (new_meta size_bytes chunk_size))
  unfolding open_volume
  reopened dir size_bytes chunk_size law = ground (arith, law (new_meta size_bytes chunk_size))

  -- A volume that was just opened keeps the invariant, whatever its directory holds.
  pub open_volume-IsVolume : (dir : VolumeDir) (v : Volume) → open_volume dir ≡ ok v → IsVolume v
  open_volume-IsVolume dir v h =
      let (m, e) = open_volume-fresh dir v h in subst IsVolume (sym e) (fresh-IsVolume dir.chunks m)

  -- Where the file system serves, a volume is made exactly if its sizes are good; the one that is made
  -- has these sizes, and is what opening the directory gives. A volume that is refused leaves the
  -- directory as it was.
  pub create_volume_lem :
      (dir : VolumeDir) (size_bytes chunk_size : ℕ)
      → ((m : VolumeMeta) → decode (encode m) ≡ some m)
      → (GoodGeometry size_bytes chunk_size
          × ((v : Volume) × ((create_volume dir size_bytes chunk_size true true
                  ≡ (with_meta dir (new_meta size_bytes chunk_size), ok v))
                × ((open_volume (with_meta dir (new_meta size_bytes chunk_size)) ≡ ok v)
                    × ((v.meta ≡ new_meta size_bytes chunk_size) × (v.files ≡ dir.chunks))))))
        ⊎ ((¬ GoodGeometry size_bytes chunk_size)
            × ((e : Refusal) × (create_volume dir size_bytes chunk_size true true ≡ (dir, err e))))
  unfolding create_volume
  create_volume_lem dir size_bytes chunk_size law =
      elim (Bool-cases (not (is_power_of_two chunk_size) || ltb chunk_size 4096)) [
        | inl a ↦ inr (λ g. ground (arith, a, g), (chunk_size_invalid chunk_size, rw a refl))
        | inr a ↦ elim (Bool-cases (nat_beq size_bytes 0 || not (nat_beq (size_bytes % 512) 0))) [
          | inl b ↦ inr (λ g. ground (arith, b, g), (size_invalid size_bytes, rw (a, b) refl))
          | inr b ↦ inl (
            ground (arith, a, b),
            (
              fresh dir.chunks (new_meta size_bytes chunk_size),
              (
                rw (a, b)
                    (ap (λ r. (with_meta dir (new_meta size_bytes chunk_size), r))
                      (reopened dir size_bytes chunk_size law)),
                (reopened dir size_bytes chunk_size law, (refl, refl)),
              ),
            ),
          )
        ]
      ]
