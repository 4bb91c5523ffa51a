-- ===== src/Storage/Volume/Io.antt =====
-- hostd/src/storage/volume.rs: reads, writes and flushes of a volume.
use tikovm.Prelude.{
  ℕ, zero, suc, nat_eq, text_eq, ◌+◌, ◌-◌, ◌/◌, ◌%◌, min, Bool, true, false, not, ◌||◌, Option,
  none, some, List, [], ◌∷◌, ◌++◌, Text, nat_beq, ltb, if◌then◌else◌, length, take, drop, replicate,
  any, map, remove, is_empty, Result, ok, err, u64_mod,
}
use tikovm.Storage.Files.{write_at, read_at}
use tikovm.Storage.Volume.{
  Volume, Faults, Fault, invalid_input, not_found, other, panic, chunk_fd, content, put_content,
  put_durable, mark_dirty, flush_threads,
}

abbrev pub prepend : Text → Volume × Result Fault Text → Volume × Result Fault Text
prepend slice (v, err e) = (v, err e)
prepend slice (v, ok rest) = (v, ok (slice ++ rest))

abbrev pub next_round :
    Volume × Result Fault Text → (Volume → Volume × Result Fault Text) → Volume × Result Fault Text
next_round (v, err e) k = (v, err e)
next_round (v, ok slice) k = prepend slice (k v)

-- The bytes of the next round.
abbrev pub round_len : ℕ → ℕ → Text → ℕ
round_len chunk_size abs buf = min (chunk_size - abs % chunk_size) (length buf)

abbrev pub with_len : ℕ → Volume × Result Fault Text → Volume × Result Fault (Text × ℕ)
with_len len (v, err e) = (v, err e)
with_len len (v, ok buf) = (v, ok (buf, len))

-- The check of a request.
abbrev pub refused : Volume → ℕ → ℕ → Bool
refused v off len =
    not (nat_beq (off % 512) 0)
    || (not (nat_beq (len % 512) 0) || ltb v.meta.size_bytes ((off + len) % u64_mod))

abbrev pub clear_dirty : Volume → ℕ → Volume
clear_dirty v idx = record v { dirty = remove idx v.dirty }

abbrev pub next_chunk :
    Volume × Result Fault (Unit {0})
    → ℕ
    → (Volume → Volume × Result Fault (Unit {0}))
    → Volume × Result Fault (Unit {0})
next_chunk (v, err e) idx k = (v, err e)
next_chunk (v, ok u) idx k = k (clear_dirty v idx)

-- The elements that the `k`-th of `n` threads gets, the first having the position `i`.
unfoldable pub group_of : ℕ → ℕ → ℕ → List ℕ → List ℕ
group_of k n i [] = []
group_of k n i (idx ∷ dirty) =
    let rest = group_of k n (suc i) dirty in if nat_beq (i % n) k then idx ∷ rest else rest

-- The groups of the last `k` of `n` threads.
unfoldable pub groups : ℕ → ℕ → List ℕ → List (List ℕ)
groups zero n dirty = []
groups (suc k) n dirty = group_of (n - suc k) n 0 dirty ∷ groups k n dirty

abbrev pub is_panic : Result Fault (Unit {0}) → Bool
is_panic (err panic) = true
is_panic r = false

abbrev pub first_error : List (Result Fault (Unit {0})) → Result Fault (Unit {0})
first_error [] = ok tt
first_error (err e ∷ rs) = err e
first_error (ok u ∷ rs) = first_error rs

-- `join` panics if the thread did, before the results are looked at.
abbrev pub join_all : List (Result Fault (Unit {0})) → Result Fault (Unit {0})
join_all rs = if any is_panic rs then err panic else first_error rs

module _ (io : Faults) where
  unfoldable pub write_chunk : Volume → ℕ → ℕ → Text → Volume × Result Fault Text
  write_chunk v idx in_off slice = elim (io.write_fails idx) [
    | some k ↦ (put_content v idx (write_at (content v idx) in_off (take k slice)), err other)
    | none ↦ (mark_dirty (put_content v idx (write_at (content v idx) in_off slice)) idx, ok slice)
  ]

  unfoldable pub read_chunk : Volume → ℕ → ℕ → Text → Volume × Result Fault Text
  read_chunk v idx in_off slice =
      if io.read_fails idx then (v, err other) else (v, ok (read_at (content v idx) in_off slice))

  -- What follows `chunk_fd` in a round.
  abbrev pub with_fd :
      Volume × Result Fault (Option ℕ) → Bool → ℕ → Text → Volume × Result Fault Text
  with_fd (v, err e) write in_off slice = (v, err e)
  with_fd (v, ok none) write in_off slice = (v, ok slice)
  with_fd (v, ok (some idx)) true in_off slice = write_chunk v idx in_off slice
  with_fd (v, ok (some idx)) false in_off slice = read_chunk v idx in_off slice

  -- One round of the loop, on the slice that lies in one chunk.
  unfoldable pub io_round : Volume → Bool → ℕ → ℕ → Text → Volume × Result Fault Text
  io_round v write idx in_off slice = with_fd (chunk_fd io v idx write) write in_off slice

  -- The loop at the absolute offset `abs`, with the rest of the buffer. A round takes a byte at
  -- least, so as many rounds as bytes are enough. A chunk size of zero panics at the division.
  unfoldable pub io_loop : ℕ → Volume → Bool → ℕ → Text → Volume × Result Fault Text
  io_loop zero v write abs buf = (v, ok buf)
  io_loop (suc rounds) v write abs [] = (v, ok [])
  io_loop (suc rounds) v write abs (b ∷ bs) =
      let size = v.meta.chunk_size in
      let n = round_len size abs (b ∷ bs) in
      if nat_beq size 0
      then (v, err panic)
      else next_round (io_round v write (abs / size) (abs % size) (take n (b ∷ bs)))
          (λ v'. io_loop rounds v' write (abs + n) (drop n (b ∷ bs)))

  -- The buffer after the call, and the count that is returned.
  unfoldable pub do_io : Volume → Bool → ℕ → Text → Volume × Result Fault (Text × ℕ)
  do_io v write off buf =
      let len = length buf in
      if refused v off len
      then (v, err invalid_input)
      else with_len len (io_loop len v write off (if write then buf else replicate len 0))

  -- `fdatasync` through the descriptor; the chunk stays in the dirty set.
  abbrev pub sync_fd : Volume × Result Fault (Option ℕ) → Volume × Result Fault (Unit {0})
  sync_fd (v, err e) = (v, err e)
  sync_fd (v, ok none) = (v, err not_found)
  sync_fd (v, ok (some idx)) =
      if io.sync_fails idx then (v, err other) else (put_durable v idx, ok tt)

  unfoldable pub sync_chunk : Volume → ℕ → Volume × Result Fault (Unit {0})
  sync_chunk v idx = sync_fd (chunk_fd io v idx false)

  unfoldable pub flush_group : Volume → List ℕ → Volume × Result Fault (Unit {0})
  flush_group v [] = (v, ok tt)
  flush_group v (idx ∷ group) = next_chunk (sync_chunk v idx) idx (λ v'. flush_group v' group)

  -- The threads, which work on chunks of their own, one after the other.
  unfoldable pub run_groups : Volume → List (List ℕ) → Volume × List (Result Fault (Unit {0}))
  run_groups v [] = (v, [])
  run_groups v (g ∷ gs) =
      let first = flush_group v g in let rest = run_groups first.0 gs in (rest.0, first.1 ∷ rest.1)

  unfoldable pub flush : Volume → Volume × Result Fault (Unit {0})
  flush v =
      let dirty = map (λ e. e.0) v.dirty in
      let n = min flush_threads (length dirty) in
      let done = run_groups v (groups n n dirty) in
      if is_empty dirty then (v, ok tt) else (done.0, join_all done.1)
