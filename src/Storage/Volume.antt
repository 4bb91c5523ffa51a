-- ===== src/Storage/Volume.antt =====
-- hostd/src/storage/volume.rs: a volume as a directory of chunk files, with the cache of open chunk
-- descriptors. A descriptor is named by its chunk: nothing removes or renames a chunk file. The
-- outcomes of the system calls on a chunk during an operation are an argument.
pub mod Io
pub mod Slots
pub mod Disk
pub mod Cache
pub mod Eviction
pub mod Room
pub mod Full
pub mod Invariant
pub mod Rounds
pub mod Transfers
pub mod Reads
pub mod Kept
pub mod Flushing
pub mod Threads
pub mod Spreading
pub mod Durability
pub mod Progress
pub mod Service
pub mod Mishaps
pub mod Opening
use tikovm.Prelude.{
  ℕ, zero, suc, nat_eq, text_eq, ◌+◌, ◌-◌, ◌*◌, ◌/◌, ◌%◌, ◌<◌, min, Bool, true, false, not, ◌||◌,
  Option, none, some, List, [], ◌∷◌, ◌++◌, Text, bytes, nat_beq, ltb, if◌then◌else◌, length, take,
  drop, replicate, Map, map, get, insert, remove, contains_key, show_decimal, Result, ok, err,
}
use tikovm.Storage.Files.{File, empty_file, write_at, read_at}

pub record VolumeMeta : Type 0 where
  pub version : ℕ
  pub size_bytes : ℕ
  pub chunk_size : ℕ

-- A generational cache: `order` may hold stale entries, whose generation is not the map's.
pub record FdCache : Type 0 where
  pub map : Map ℕ ℕ
  pub order : List (ℕ × ℕ)
  pub next_gen : ℕ
  pub cap : ℕ

pub record Volume : Type 0 where
  -- The chunk files, by their paths in the directory.
  pub files : Map Text File
  pub meta : VolumeMeta
  pub fds : FdCache
  -- A thread panicked with the lock of `fds` held.
  pub poisoned : Bool
  pub dirty : Map ℕ (Unit {0})

-- The errors of `io::Result`, and a panic.
pub data Fault : Type 0 where
  invalid_input not_found other panic : Fault

-- Which system calls fail on a chunk.
pub record Faults : Type 0 where
  pub open_fails : ℕ → Bool
  -- The bytes that a failing write has written.
  pub write_fails : ℕ → Option ℕ
  pub read_fails : ℕ → Bool
  pub sync_fails : ℕ → Bool

abbrev pub fd_cache_cap : ℕ
fd_cache_cap = 4096

abbrev pub flush_threads : ℕ
flush_threads = 8

-- `FdCache::new`.
abbrev pub new_cache : ℕ → FdCache
new_cache cap = record { map = []; order = []; next_gen = 0; cap = cap }

abbrev pub hex_digit : ℕ → ℕ
hex_digit d = if ltb d 10 then b'0' + d else b'a' + (d - 10)

-- `{:02x}` of a byte.
abbrev pub hex2 : ℕ → Text
hex2 b = hex_digit (b / 16) ∷ hex_digit (b % 16) ∷ []

unfoldable pub chunk_path : ℕ → Text
chunk_path idx =
    bytes "chunks/"
    ++ (hex2 (idx / 256 % 256) ++ (b'/' ∷ (hex2 (idx % 256) ++ (b'/' ∷ show_decimal idx))))

-- What one pop from the front of the order does.
unfoldable pub pop : Map ℕ (Unit {0}) → ℕ → ℕ → FdCache → FdCache
pop dirty victim vgen c = elim (get victim c.map) [
  | none ↦ c
  | some cur_gen ↦
      if not (nat_beq cur_gen vgen)
      then c
      else if contains_key victim dirty
      then record c { order = c.order ++ ((victim, vgen) ∷ []) }
      else record c { map = remove victim c.map }
]

-- The eviction loop, with the pops that are left.
unfoldable pub evict : ℕ → Map ℕ (Unit {0}) → FdCache → FdCache
evict zero dirty c = c
evict (suc pops) dirty c = elim (ltb c.cap (length c.map)) [
  | false ↦ c
  | true ↦ elim c.order [
    | [] ↦ c
    | (victim, vgen) ∷ order ↦ evict pops dirty (pop dirty victim vgen (record c { order = order }))
  ]
]

-- A descriptor gets a new generation, and goes to the back.
abbrev pub touch : FdCache → ℕ → FdCache
touch c idx = record c {
  map = insert idx (c.next_gen + 1) c.map;
  order = c.order ++ ((idx, c.next_gen + 1) ∷ []);
  next_gen = c.next_gen + 1;
}

abbrev pub cached : Volume → ℕ → Bool
cached v idx = contains_key idx v.fds.map

-- The descriptor has been opened; the `expect` that follows the eviction.
unfoldable pub admit : Volume → ℕ → Volume × Result Fault (Option ℕ)
admit v idx =
    let fds = evict (2 * v.fds.cap) v.dirty (touch v.fds idx) in
    if contains_key idx fds.map
    then (record v { fds = fds }, ok (some idx))
    else (record v { fds = fds; poisoned = true }, err panic)

-- `open` with `create`: an existing file is kept.
abbrev pub create_file : Volume → ℕ → Volume
create_file v idx =
    if contains_key (chunk_path idx) v.files
    then v
    else record v { files = insert (chunk_path idx) empty_file v.files }

module _ (io : Faults) where
  unfoldable pub open_chunk : Volume → ℕ → Bool → Volume × Result Fault (Option ℕ)
  open_chunk v idx true =
      if io.open_fails idx then (v, err other) else admit (create_file v idx) idx
  open_chunk v idx false =
      if not (contains_key (chunk_path idx) v.files)
      then (v, ok none)
      else if io.open_fails idx
      then (v, err other)
      else admit v idx

  unfoldable pub chunk_fd : Volume → ℕ → Bool → Volume × Result Fault (Option ℕ)
  chunk_fd v idx create =
      if v.poisoned
      then (v, err other)
      else if cached v idx
      then (record v { fds = touch v.fds idx }, ok (some idx))
      else open_chunk v idx create

-- The bytes of a chunk that a read through a descriptor sees.
unfoldable pub content : Volume → ℕ → Text
content v idx = elim (get (chunk_path idx) v.files) [ none ↦ [] | some f ↦ f.written ]

unfoldable pub durable_content : Volume → ℕ → Text
durable_content v idx = elim (get (chunk_path idx) v.files) [ none ↦ [] | some f ↦ f.durable ]

abbrev pub put_content : Volume → ℕ → Text → Volume
put_content v idx t = record v {
  files = insert (chunk_path idx) (record { written = t; durable = durable_content v idx }) v.files;
}

abbrev pub put_durable : Volume → ℕ → Volume
put_durable v idx = record v {
  files =
      insert (chunk_path idx) (record { written = content v idx; durable = content v idx }) v.files;
}

abbrev pub mark_dirty : Volume → ℕ → Volume
mark_dirty v idx = record v { dirty = insert idx tt v.dirty }
