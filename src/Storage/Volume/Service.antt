-- ===== src/Storage/Volume/Service.antt =====
-- The results of the reads and writes of hostd/src/storage/volume.rs where the system calls succeed
-- and the dirty chunks leave room in the cache.
use native.Mathlib.Nat.{div-le_self, mod-lt, suc-mul, zero-mul}
use tikovm.Prelude.{
  ℕ, zero, suc, nat_eq, text_eq, ◌+◌, ◌-◌, ◌*◌, ◌/◌, ◌%◌, ◌≤◌, ◌<◌, Bool, true, false, Option, none,
  some, [], ◌∷◌, ◌++◌, Text, nat_beq, leb, if◌then◌else◌, length, take, drop, contains_key, u64_mod,
  Result, ok, err, ◌≡◌, inl, inr, refl, ap, sym, subst, ◌∙◌, arith, Bool-cases,
}
use tikovm.Storage.Files.{read_at}
use tikovm.Storage.Volume.{
  Volume, VolumeMeta, Faults, Fault, chunk_path, chunk_fd, open_chunk, admit, create_file, touch,
  content,
}
use tikovm.Storage.Volume.Io.{
  with_fd, write_chunk, read_chunk, io_round, prepend, next_round, round_len, io_loop, refused,
  with_len, do_io,
}
use tikovm.Storage.Volume.Disk.{Looked, chunk_fd_cases, SameData, chunk_fd-SameData}
use tikovm.Storage.Volume.Cache.{length-insert-le, touch-IsCache}
use tikovm.Storage.Volume.Eviction.{evict-IsCache}
use tikovm.Storage.Volume.Room.{evict-touch}
use tikovm.Storage.Volume.Invariant.{IsVolume, create_file-IsVolume}
use tikovm.Storage.Volume.Slots.{next_slot}
use tikovm.Storage.Volume.Reads.{zeros, length-replicate}
use tikovm.Storage.Volume.Kept.{io_round-IsVolume}
use tikovm.Storage.Volume.Transfers.{length-drop}

-- No system call fails on a chunk.
pub record Quiet (io : Faults) : Type 0 where
  pub opens : (i : ℕ) → io.open_fails i ≡ false
  pub writes : (i : ℕ) → io.write_fails i ≡ none
  pub reads : (i : ℕ) → io.read_fails i ≡ false

-- The volume can take `k` more dirty chunks.
pub record Roomy (v : Volume) (k : ℕ) : Type 0 where
  pub is_volume : IsVolume v
  pub unpoisoned : v.poisoned ≡ false
  pub room : length v.dirty + k ≤ v.fds.cap

-- A look-up that succeeds, with the volume that it leaves.
abbrev Succeeds : Volume → Volume × Result Fault (Option ℕ) → Type 0
Succeeds v r =
    ((fd : Option ℕ) × (r.1 ≡ ok fd)) × ((r.0.poisoned ≡ false) × (r.0.fds.cap ≡ v.fds.cap))

admit-Succeeds :
    (v : Volume) (idx : ℕ)
    → IsVolume v
    → v.poisoned ≡ false
    → length v.dirty < v.fds.cap
    → Succeeds v (admit v idx)
unfolding admit
admit-Succeeds v idx is p room =
    let e = evict-touch (2 * v.fds.cap) v.dirty v.fds idx is.cache room in
    let c =
      (evict-IsCache (2 * v.fds.cap) v.dirty (touch v.fds idx)
        (touch-IsCache v.fds idx is.cache)).1.same_cap in
    ((some idx, ground (arith, e)), (ground (arith, e, p), ground (arith, e, c)))

create_file-frame :
    (v : Volume) (idx : ℕ)
    → ((create_file v idx).poisoned ≡ v.poisoned)
      × (((create_file v idx).dirty ≡ v.dirty) × ((create_file v idx).fds ≡ v.fds))
create_file-frame v idx = ground arith

open_chunk-Succeeds :
    (io : Faults) (v : Volume) (idx : ℕ) (create : Bool)
    → Quiet io
    → IsVolume v
    → v.poisoned ≡ false
    → length v.dirty < v.fds.cap
    → Succeeds v (open_chunk io v idx create)
unfolding open_chunk
open_chunk-Succeeds io v idx true quiet is p room =
    let f = create_file-frame v idx in
    let a =
      admit-Succeeds (create_file v idx) idx (create_file-IsVolume v idx is) (f.0 ∙ p)
        (rw (f.1.0, f.1.1) room) in
    rw (quiet.opens idx) (a.0, (a.1.0, a.1.1 ∙ ap (λ c. c.cap) f.1.1))
open_chunk-Succeeds io v idx false quiet is p room =
    elim (Bool-cases (contains_key (chunk_path idx) v.files)) [
      | inr e ↦ rw e ((none, refl), (p, refl))
      | inl e ↦ rw (e, quiet.opens idx) (admit-Succeeds v idx is p room)
    ]

chunk_fd-Succeeds :
    (io : Faults) (v : Volume) (idx : ℕ) (create : Bool) (k : ℕ)
    → Quiet io
    → Roomy v (suc k)
    → Succeeds v (chunk_fd io v idx create)
chunk_fd-Succeeds io v idx create k quiet roomy = go (chunk_fd_cases io v idx create)
  where
    go : {r : Volume × Result Fault (Option ℕ)} → Looked io v idx create r → Succeeds v r
    go (inl (p, e)) = ground (arith, p, roomy.unpoisoned)
    go (inr (inl (p, (c, e)))) = subst (Succeeds v) (sym e) ((some idx, refl), (p, refl))
    go (inr (inr (p, (c, e)))) =
        subst (Succeeds v) (sym e)
          (open_chunk-Succeeds io v idx create quiet roomy.is_volume p (omega (arith, roomy.room)))

-- A round that succeeds and makes at most one chunk dirty.
abbrev RoundOk : Volume → Volume × Result Fault Text → Type 0
RoundOk v r =
    ((s : Text) × (r.1 ≡ ok s))
    × ((r.0.poisoned ≡ false)
        × ((r.0.fds.cap ≡ v.fds.cap)
            × ((length r.0.dirty ≤ suc (length v.dirty)) × (r.0.meta ≡ v.meta))))

with_fd-RoundOk :
    (io : Faults) (v : Volume) (write : Bool) (in_off : ℕ) (slice : Text)
    (r : Volume × Result Fault (Option ℕ))
    → Quiet io
    → SameData v r.0
    → Succeeds v r
    → RoundOk v (with_fd io r write in_off slice)
with_fd-RoundOk io v write in_off slice (w, err e) quiet same s = cc (s.0.1)
with_fd-RoundOk io v write in_off slice (w, ok none) quiet same s =
    ((slice, refl), (s.1.0, (s.1.1, (omega (arith, ap length same.same_dirty), same.same_meta))))
with_fd-RoundOk io v true in_off slice (w, ok (some f)) quiet same s =
    unfold write_chunk in
    rw (quiet.writes f, write_chunk)
      (
        (slice, refl),
        (
          s.1.0,
          (
            s.1.1,
            (omega (arith, length-insert-le f w.dirty, ap length same.same_dirty), same.same_meta),
          ),
        ),
      )
with_fd-RoundOk io v false in_off slice (w, ok (some f)) quiet same s =
    unfold read_chunk in
    rw (quiet.reads f, read_chunk)
      (
        (read_at (content w f) in_off slice, refl),
        (s.1.0, (s.1.1, (omega (arith, ap length same.same_dirty), same.same_meta))),
      )

io_round-RoundOk :
    (io : Faults) (v : Volume) (write : Bool) (idx in_off : ℕ) (slice : Text) (k : ℕ)
    → Quiet io
    → Roomy v (suc k)
    → RoundOk v (io_round io v write idx in_off slice)
unfolding io_round
io_round-RoundOk io v write idx in_off slice k quiet roomy =
    with_fd-RoundOk io v write in_off slice (chunk_fd io v idx write) quiet
      (chunk_fd-SameData io v idx write) (chunk_fd-Succeeds io v idx write k quiet roomy)

next_round_goes :
    (r : Volume × Result Fault Text) (k : Volume → Volume × Result Fault Text) (s t : Text)
    → r.1 ≡ ok s
    → (k r.0).1 ≡ ok t
    → (next_round r k).1 ≡ ok (s ++ t)
next_round_goes (w, err e) k s t h q = cc
next_round_goes (w, ok slice) k s t h q = prepended (k w) q
  where
    prepended : (x : Volume × Result Fault Text) → x.1 ≡ ok t → (prepend slice x).1 ≡ ok (s ++ t)
    prepended (u, err e) p = cc
    prepended (u, ok rest) p = ground (arith, h, p)

io_loop-empty :
    (io : Faults) (rounds : ℕ) (v : Volume) (write : Bool) (abs : ℕ) (buf : Text)
    → length buf ≡ 0
    → (io_loop io rounds v write abs buf).1 ≡ ok []
unfolding io_loop
io_loop-empty io zero v write abs [] h = refl
io_loop-empty io (suc rounds) v write abs [] h = refl
io_loop-empty io rounds v write abs (b ∷ bs) h = absurd (omega (arith, h))

io_loop-ok :
    (io : Faults) (rounds k : ℕ) (v : Volume) (write : Bool) (abs : ℕ) (buf : Text)
    → Quiet io
    → Roomy v k
    → 0 < v.meta.chunk_size
    → abs + length buf < u64_mod
    → length buf ≤ rounds
    → abs % v.meta.chunk_size + length buf ≤ k * v.meta.chunk_size
    → (s : Text) × ((io_loop io rounds v write abs buf).1 ≡ ok s)
unfolding io_loop
io_loop-ok io zero k v write abs buf quiet roomy pos hi enough fits = (buf, refl)
io_loop-ok io (suc rounds) k v write abs [] quiet roomy pos hi enough fits = ([], refl)
io_loop-ok io (suc rounds) zero v write abs (b ∷ bs) quiet roomy pos hi enough fits =
    absurd (omega (arith, fits, zero-mul v.meta.chunk_size))
io_loop-ok io (suc rounds) (suc k) v write abs (b ∷ bs) quiet roomy pos hi enough fits =
    let size = v.meta.chunk_size in
    let buf : Text = b ∷ bs in
    let n = round_len size abs buf in
    let r = io_round io v write (abs / size) (abs % size) (take n buf) in
    let first = io_round-RoundOk io v write (abs / size) (abs % size) (take n buf) k quiet roomy in
    let w = r.0 in
    let sized : w.meta.chunk_size ≡ size = ap (λ (m : VolumeMeta). m.chunk_size) first.1.1.1.1 in
    let next = λ (x : Volume). io_loop io rounds x write (abs + n) (drop n buf) in
    let nonzero : nat_beq size 0 ≡ false = ground (arith, pos) in
    let goes =
      λ (t : Text) (q : (next w).1 ≡ ok t). next_round_goes r next first.0.0 t first.0.1 q in
    elim (Bool-cases (leb (length buf) (size - abs % size))) [
      | inl all ↦
          let q =
            io_loop-empty io rounds w write (abs + n) (drop n buf)
              (ground (arith, all, length-drop n buf)) in
          (first.0.0 ++ [], rw nonzero (goes [] q))
      | inr some_left ↦
          let e : n ≡ size - abs % size = ground (arith, some_left) in
          let within : abs % size < size = mod-lt abs pos in
          let le : n ≤ length buf = ground (arith, e, some_left) in
          let start : (abs + n) % w.meta.chunk_size ≡ 0 = rw (sized, e) (next_slot size abs pos) in
          let roomy' : Roomy w k = record {
            is_volume =
                io_round-IsVolume io v write (abs / size) (abs % size) (take n buf)
                  (omega (arith, hi, div-le_self abs size)) roomy.is_volume;
            unpoisoned = first.1.0;
            room = omega (arith, roomy.room, first.1.1.0, first.1.1.1.0);
          } in
          let rest =
            io_loop-ok io rounds k w write (abs + n) (drop n buf) quiet roomy' (rw sized pos)
              (omega (arith, hi, length-drop n buf, le))
              (omega (arith, enough, length-drop n buf, e, within, le))
              (omega (
                arith,
                start,
                fits,
                e,
                within,
                le,
                length-drop n buf,
                suc-mul k size,
                ap (λ (t : ℕ). k * t) sized,
              )) in
          (first.0.0 ++ rest.0, rw nonzero (goes rest.0 rest.1))
    ]

with_len-ok :
    (len : ℕ) (r : Volume × Result Fault Text) (s : Text)
    → r.1 ≡ ok s
    → (with_len len r).1 ≡ ok (s, len)
with_len-ok len (v, err e) s h = cc
with_len-ok len (v, ok buf) s h = ground (arith, h)

-- A request in range that touches at most `k` chunks succeeds, if no system call fails and the volume
-- keeps the invariant, is not poisoned and has room in its cache for `k` more dirty chunks; and it
-- reports all its bytes.
pub do_io-ok :
    (io : Faults) (v : Volume) (write : Bool) (off : ℕ) (buf : Text) (k : ℕ)
    → Quiet io
    → Roomy v k
    → 0 < v.meta.chunk_size
    → off + length buf < u64_mod
    → refused v off (length buf) ≡ false
    → off % v.meta.chunk_size + length buf ≤ k * v.meta.chunk_size
    → (s : Text) × ((do_io io v write off buf).1 ≡ ok (s, length buf))
unfolding do_io
do_io-ok io v write off buf k quiet roomy pos hi accepted fits =
    let given = if write then buf else zeros (length buf) in
    let len : length given ≡ length buf = ground (arith, length-replicate (length buf)) in
    let r =
      io_loop-ok io (length buf) k v write off given quiet roomy pos (omega (arith, hi, len))
        (omega (arith, len)) (omega (arith, fits, len)) in
    (
      r.0,
      rw accepted (with_len-ok (length buf) (io_loop io (length buf) v write off given) r.0 r.1),
    )
