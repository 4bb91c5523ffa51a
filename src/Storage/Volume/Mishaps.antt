-- ===== src/Storage/Volume/Mishaps.antt =====
-- Two courses of hostd/src/storage/volume.rs: a miss when the cache is full, and a write that comes
-- between the sync of its chunk and the end of the flush.
use tikovm.Prelude.{
  ℕ, suc, nat_eq, ◌+◌, ◌*◌, ◌/◌, ◌%◌, ◌≤◌, ◌<◌, Bool, true, false, Option, none, some, [], ◌∷◌,
  Text, nat_beq, length, replicate, take, drop, map, Map, get, insert, remove, contains_key,
  is_empty, Result, ok, err, ◌≡◌, refl, ap, sym, ◌∙◌, arith,
}
use tikovm.Storage.Files.{write_at}
use tikovm.Storage.Volume.{
  Volume, Faults, Fault, other, panic, chunk_fd, open_chunk, admit, create_file, cached, touch,
  evict, content, durable_content,
}
use tikovm.Storage.Volume.Io.{
  with_fd, io_round, next_round, round_len, io_loop, with_len, refused, do_io, sync_fd, sync_chunk,
  clear_dirty, flush,
}
use tikovm.Storage.Volume.Disk.{InRange, chunk_fd-SameData, content_at, durable_at}
use tikovm.Storage.Volume.Invariant.{IsVolume}
use tikovm.Storage.Volume.Full.{evict-touch_full}
use tikovm.Storage.Volume.Rounds.{io_round-Wrote}
use tikovm.Storage.Volume.Flushing.{sync_chunk-ok}

-- The cache is full of the descriptors of dirty chunks, and few of its order's entries are stale.
pub record Clogged (v : Volume) : Type 0 where
  pub all_dirty : (i g : ℕ) → get i v.fds.map ≡ some g → contains_key i v.dirty ≡ true
  pub full : v.fds.cap ≤ length v.fds.map
  pub brief : length v.fds.order < 2 * v.fds.cap

admit-panics :
    (v w : Volume) (idx : ℕ)
    → IsVolume v
    → Clogged v
    → cached v idx ≡ false
    → w.fds ≡ v.fds
    → w.dirty ≡ v.dirty
    → ((admit w idx).1 ≡ err panic) × ((admit w idx).0.poisoned ≡ true)
unfolding admit
admit-panics v w idx is clogged miss f d =
    let clean : contains_key idx v.dirty ≡ false = undirtied (contains_key idx v.dirty) refl in
    let none_held : get idx v.fds.map ≡ none = unheld (get idx v.fds.map) refl in
    let gone =
      evict-touch_full (2 * v.fds.cap) v.dirty v.fds idx is.cache none_held clean clogged.all_dirty
        clogged.full clogged.brief in
    let same : get idx (evict (2 * w.fds.cap) w.dirty (touch w.fds idx)).map ≡ none =
      rw (f, d) gone in
    (ground (arith, same), ground (arith, same))
  where
    undirtied : (b : Bool) → contains_key idx v.dirty ≡ b → b ≡ false
    undirtied false e = refl
    undirtied true e = ground (arith, is.pinned idx e, miss)

    unheld : (o : Option ℕ) → get idx v.fds.map ≡ o → o ≡ none
    unheld none e = refl
    unheld (some g) e = ground (arith, e, miss)

chunk_fd-panics :
    (io : Faults) (v : Volume) (idx : ℕ)
    → IsVolume v
    → v.poisoned ≡ false
    → Clogged v
    → cached v idx ≡ false
    → io.open_fails idx ≡ false
    → ((chunk_fd io v idx true).1 ≡ err panic) × ((chunk_fd io v idx true).0.poisoned ≡ true)
unfolding chunk_fd open_chunk
chunk_fd-panics io v idx is p clogged miss opens =
    let all =
      admit-panics v (create_file v idx) idx is clogged miss (ground arith) (ground arith) in
    ground (arith, p, miss, opens, all)

with_fd-err :
    (io : Faults) (r : Volume × Result Fault (Option ℕ)) (in_off : ℕ) (slice : Text) (e : Fault)
    → r.1 ≡ err e
    → with_fd io r true in_off slice ≡ (r.0, err e)
with_fd-err io (v, err x) in_off slice e h = ground (arith, h)
with_fd-err io (v, ok fd) in_off slice e h = cc

io_loop-err :
    (io : Faults) (rounds : ℕ) (v w : Volume) (write : Bool) (abs b : ℕ) (bs : Text) (e : Fault)
    → 0 < v.meta.chunk_size
    → ((slice : Text)
        → io_round io v write (abs / v.meta.chunk_size) (abs % v.meta.chunk_size) slice
          ≡ (w, err e))
    → io_loop io (suc rounds) v write abs (b ∷ bs) ≡ (w, err e)
unfolding io_loop
io_loop-err io rounds v w write abs b bs e pos h =
    let size = v.meta.chunk_size in
    let n = round_len size abs (b ∷ bs) in
    let nonzero : nat_beq size 0 ≡ false = ground (arith, pos) in
    rw nonzero (
      ap (λ r. next_round r (λ x. io_loop io rounds x write (abs + n) (drop n (b ∷ bs))))
        (h (take n (b ∷ bs))))

-- A request whose first round fails.
do_io-err :
    (io : Faults) (v w : Volume) (write : Bool) (off : ℕ) (buf : Text) (e : Fault)
    → 0 < v.meta.chunk_size
    → 0 < length buf
    → refused v off (length buf) ≡ false
    → ((slice : Text)
        → io_round io v write (off / v.meta.chunk_size) (off % v.meta.chunk_size) slice
          ≡ (w, err e))
    → do_io io v write off buf ≡ (w, err e)
unfolding do_io
do_io-err io v w write off [] e pos some_bytes accepted h = absurd (omega arith)
do_io-err io v w true off (b ∷ bs) e pos some_bytes accepted h =
    rw accepted
      (ap (with_len (suc (length bs))) (io_loop-err io (length bs) v w true off b bs e pos h))
do_io-err io v w false off (b ∷ bs) e pos some_bytes accepted h = rw accepted (
    ap (with_len (suc (length bs)))
      (io_loop-err io (length bs) v w false off 0 (replicate (length bs) 0) e pos h))

poisoned_round :
    (io : Faults) (v : Volume) (write : Bool) (idx in_off : ℕ) (slice : Text)
    → v.poisoned ≡ true
    → io_round io v write idx in_off slice ≡ (v, err other)
unfolding io_round chunk_fd
poisoned_round io v write idx in_off slice p = ground (arith, p)

-- On a volume that keeps the invariant, let the cache be full of the descriptors of dirty chunks, and
-- let its order have fewer entries than twice its capacity, stale ones included, which the pops of an
-- eviction then reach the end of. The first write to a chunk with no descriptor panics instead of
-- letting the cache grow, although the system calls succeed; and after the panic every request in
-- range that has a byte fails.
pub full_cache_panics :
    (io later : Faults) (v : Volume) (off off' : ℕ) (buf buf' : Text) (write : Bool)
    → IsVolume v
    → v.poisoned ≡ false
    → Clogged v
    → 0 < v.meta.chunk_size
    → cached v (off / v.meta.chunk_size) ≡ false
    → io.open_fails (off / v.meta.chunk_size) ≡ false
    → 0 < length buf
    → refused v off (length buf) ≡ false
    → 0 < length buf'
    → refused v off' (length buf') ≡ false
    → (w : Volume) × ((do_io io v true off buf ≡ (w, err panic))
        × (do_io later w write off' buf' ≡ (w, err other)))
full_cache_panics io later v off off' buf buf' write is p clogged pos miss opens bytes accepted
      bytes' accepted' =
    let idx = off / v.meta.chunk_size in
    let w = (chunk_fd io v idx true).0 in
    let bad = chunk_fd-panics io v idx is p clogged miss opens in
    let meta = (chunk_fd-SameData io v idx true).same_meta in
    (
      w,
      (
        do_io-err io v w true off buf panic pos bytes accepted (λ slice.
            unfold io_round in
            with_fd-err io (chunk_fd io v idx true) (off % v.meta.chunk_size) slice panic bad.0),
        do_io-err later w w write off' buf' other (rw meta pos) bytes' (rw meta accepted') (λ slice.
            poisoned_round later w write (off' / w.meta.chunk_size) (off' % w.meta.chunk_size) slice
              bad.1),
      ),
    )

remove-insert : (i : ℕ) (m : Map ℕ (Unit {0})) → remove i (insert i tt m) ≡ remove i m
unfolding remove insert
remove-insert i [] = ground arith
remove-insert i ((j, u) ∷ m) = ground (arith, remove-insert i m)

sync_fd-dirty :
    (io : Faults) (r : Volume × Result Fault (Option ℕ)) → (sync_fd io r).0.dirty ≡ r.0.dirty
sync_fd-dirty io (v, err e) = refl
sync_fd-dirty io (v, ok none) = refl
sync_fd-dirty io (v, ok (some f)) = ground arith

sync_chunk-dirty : (io : Faults) (v : Volume) (i : ℕ) → (sync_chunk io v i).0.dirty ≡ v.dirty
unfolding sync_chunk
sync_chunk-dirty io v i =
    sync_fd-dirty io (chunk_fd io v i false) ∙ (chunk_fd-SameData io v i false).same_dirty

-- A flush with nothing to do reports success.
flush-none : (io : Faults) (v : Volume) → v.dirty ≡ [] → flush io v ≡ (v, ok tt)
unfolding flush
flush-none io v e =
    let t : is_empty (map (λ (x : ℕ × Unit {0}). x.0) v.dirty) ≡ true = rw e refl in
    ground (arith, t)

-- A flush syncs the only dirty chunk; a write to the chunk ends before the flush takes it out of the
-- dirty set. Then the bytes of the write are not on stable storage, and no later flush puts them
-- there: it reports success at once.
pub flush-loses_write :
    (io writer later : Faults) (v synced written : Volume) (idx in_off : ℕ) (slice s : Text)
    (u : Unit {0})
    → InRange idx
    → remove idx v.dirty ≡ []
    → sync_chunk io v idx ≡ (synced, ok u)
    → io_round writer synced true idx in_off slice ≡ (written, ok s)
    → (flush later (clear_dirty written idx) ≡ (clear_dirty written idx, ok tt))
      × ((content (clear_dirty written idx) idx ≡ write_at (content v idx) in_off slice)
          × (durable_content (clear_dirty written idx) idx ≡ content v idx))
flush-loses_write io writer later v synced written idx in_off slice s u here only syncs writes =
    let flushed = sync_chunk-ok io v synced idx u here syncs in
    let wrote = (io_round-Wrote writer synced written idx in_off slice s here writes).1 in
    let none_dirty : remove idx written.dirty ≡ [] =
      ap (remove idx) wrote.now_dirty
      ∙ remove-insert idx synced.dirty
      ∙ ap (remove idx) (
          sym (ap (λ (t : Volume × Result Fault (Unit {0})). t.0.dirty) syncs)
          ∙ sync_chunk-dirty io v idx)
      ∙ only in
    (
      flush-none later (clear_dirty written idx) none_dirty,
      (
        content_at (clear_dirty written idx) written idx refl
            ∙ ground (
              arith,
              wrote.new_content idx here,
              ap (λ t. write_at t in_off slice) (flushed.0.same_content idx here),
            ),
        durable_at (clear_dirty written idx) written idx refl
            ∙ wrote.same_durable idx here
            ∙ flushed.1,
      ),
    )
