-- ===== src/Storage/Volume/Kept.antt =====
-- The invariant of a volume, and the chunks that are not dirty, through the reads and writes of
-- hostd/src/storage/volume.rs.
use native.Mathlib.Nat.{div-le_self}
use tikovm.Prelude.{
  ℕ, zero, suc, nat_eq, ◌+◌, ◌/◌, ◌%◌, ◌≤◌, ◌<◌, Bool, true, false, Option, none, some, [], ◌∷◌,
  Text, nat_beq, if◌then◌else◌, length, take, drop, get, insert, contains_key, get-insert,
  insert-Uniq, Result, ok, err, u64_mod, ◌≡◌, inl, inr, refl, ap, sym, subst, ◌∙◌, arith,
  Bool-cases, Option-cases,
}
use tikovm.Storage.Files.{write_at}
use tikovm.Storage.Volume.{
  Volume, Faults, Fault, chunk_fd, cached, content, durable_content, put_content, mark_dirty,
}
use tikovm.Storage.Volume.Io.{
  with_fd, write_chunk, read_chunk, io_round, prepend, next_round, round_len, io_loop, with_len,
  refused, do_io,
}
use tikovm.Storage.Volume.Disk.{InRange}
use tikovm.Storage.Volume.Invariant.{IsVolume, Opened, chunk_fd-IsVolume, chunk_fd-Opened}
use tikovm.Storage.Volume.Rounds.{Wrote, io_round-Wrote}
use tikovm.Storage.Volume.Reads.{zeros, length-replicate}
use tikovm.Storage.Volume.Transfers.{io_loop-suc, round_len_bounds, length-drop}

-- What the invariant reads.
pub same_parts : (v w : Volume) → w.fds ≡ v.fds → w.dirty ≡ v.dirty → IsVolume v → IsVolume w
same_parts v w f d is = record {
  cache = rw f is.cache;
  uniq = rw d is.uniq;
  pinned = λ i q.
      ground (arith, ap (λ c. get i c.map) f, is.pinned i (ap (λ m. contains_key i m) (sym d) ∙ q));
  range = λ i q. is.range i (ap (λ m. contains_key i m) (sym d) ∙ q);
}

mark_dirty-IsVolume :
    (v : Volume) (idx : ℕ)
    → InRange idx
    → cached v idx ≡ true
    → IsVolume v
    → IsVolume (mark_dirty v idx)
mark_dirty-IsVolume v idx here held is = record {
  cache = is.cache;
  uniq = insert-Uniq idx tt v.dirty is.uniq;
  pinned = λ i q. elim (Bool-cases (nat_beq idx i)) [
    | inl e ↦ subst (λ j. cached v j ≡ true) ((nat_eq.decides idx i).0 e) held
    | inr e ↦ is.pinned i (ground (arith, get-insert idx i tt v.dirty, e, q))
  ];
  range = λ i q. elim (Bool-cases (nat_beq idx i)) [
    | inl e ↦ subst InRange ((nat_eq.decides idx i).0 e) here
    | inr e ↦ is.range i (ground (arith, get-insert idx i tt v.dirty, e, q))
  ];
}

module _ (io : Faults) where
  write_chunk-IsVolume :
      (v : Volume) (idx in_off : ℕ) (slice : Text)
      → InRange idx
      → cached v idx ≡ true
      → IsVolume v
      → IsVolume (write_chunk io v idx in_off slice).0
  unfolding write_chunk
  write_chunk-IsVolume v idx in_off slice here held is =
      let part = λ (k : ℕ). put_content v idx (write_at (content v idx) in_off (take k slice)) in
      let put = put_content v idx (write_at (content v idx) in_off slice) in
      elim (Option-cases (io.write_fails idx)) [
        | inr (k, q) ↦ rw (q, write_chunk) (same_parts v (part k) refl refl is)
        | inl q ↦
            rw (q, write_chunk)
              (mark_dirty-IsVolume put idx here held (same_parts v put refl refl is))
      ]

  read_chunk-IsVolume :
      (v : Volume) (idx in_off : ℕ) (slice : Text)
      → IsVolume v
      → IsVolume (read_chunk io v idx in_off slice).0
  unfolding read_chunk
  read_chunk-IsVolume v idx in_off slice is = elim (Bool-cases (io.read_fails idx)) [
    | inl q ↦ rw q is
    | inr q ↦ rw q is
  ]

  with_fd-IsVolume :
      (v : Volume) (r : Volume × Result Fault (Option ℕ)) (write : Bool) (idx in_off : ℕ)
      (slice : Text)
      → InRange idx
      → Opened v idx write r
      → IsVolume r.0
      → IsVolume (with_fd io r write in_off slice).0
  with_fd-IsVolume v (w, err e) write idx in_off slice here o is = is
  with_fd-IsVolume v (w, ok none) write idx in_off slice here o is = is
  with_fd-IsVolume v (w, ok (some f)) false idx in_off slice here o is =
      read_chunk-IsVolume w f in_off slice is
  with_fd-IsVolume v (w, ok (some f)) true idx in_off slice here (inl o) is = cc
  with_fd-IsVolume v (w, ok (some f)) true idx in_off slice here (inr (inr o)) is = cc
  with_fd-IsVolume v (w, ok (some f)) true idx in_off slice here (inr (inl o)) is =
      let e : idx ≡ f = cc in
      write_chunk-IsVolume w f in_off slice (subst InRange e here)
        (subst (λ t. cached w t ≡ true) e o.1) is

  pub io_round-IsVolume :
      (v : Volume) (write : Bool) (idx in_off : ℕ) (slice : Text)
      → InRange idx
      → IsVolume v
      → IsVolume (io_round io v write idx in_off slice).0
  unfolding io_round
  io_round-IsVolume v write idx in_off slice here is =
      with_fd-IsVolume v (chunk_fd io v idx write) write idx in_off slice here
        (chunk_fd-Opened io v idx write) (chunk_fd-IsVolume io v idx write is)

  prepend-IsVolume :
      (slice : Text) (r : Volume × Result Fault Text) → IsVolume r.0 → IsVolume (prepend slice r).0
  prepend-IsVolume slice (v, err e) is = is
  prepend-IsVolume slice (v, ok rest) is = is

  next_round-IsVolume :
      (r : Volume × Result Fault Text) (k : Volume → Volume × Result Fault Text)
      → IsVolume r.0
      → ((w : Volume) → IsVolume w → IsVolume (k w).0)
      → IsVolume (next_round r k).0
  next_round-IsVolume (w, err e) k is next = is
  next_round-IsVolume (w, ok slice) k is next = prepend-IsVolume slice (k w) (next w is)

  io_loop-IsVolume :
      (rounds : ℕ) (v : Volume) (write : Bool) (abs : ℕ) (buf : Text)
      → abs + length buf < u64_mod
      → IsVolume v
      → IsVolume (io_loop io rounds v write abs buf).0
  unfolding io_loop
  io_loop-IsVolume zero v write abs buf hi is = is
  io_loop-IsVolume (suc rounds) v write abs [] hi is = is
  io_loop-IsVolume (suc rounds) v write abs (b ∷ bs) hi is =
      let size = v.meta.chunk_size in
      let n = round_len size abs (b ∷ bs) in
      elim (Bool-cases (nat_beq size 0)) [
        | inl z ↦ rw z is
        | inr z ↦ rw z (
            next_round-IsVolume (io_round io v write (abs / size) (abs % size) (take n (b ∷ bs)))
              (λ w. io_loop io rounds w write (abs + n) (drop n (b ∷ bs)))
              (io_round-IsVolume v write (abs / size) (abs % size) (take n (b ∷ bs))
                (omega (arith, hi, div-le_self abs size)) is)
              (λ w kept.
                io_loop-IsVolume rounds w write (abs + n) (drop n (b ∷ bs))
                  (ground (arith, hi, length-drop n (b ∷ bs))) kept))
      ]

  with_len-IsVolume :
      (len : ℕ) (r : Volume × Result Fault Text) → IsVolume r.0 → IsVolume (with_len len r).0
  with_len-IsVolume len (v, err e) is = is
  with_len-IsVolume len (v, ok buf) is = is

  -- A request whose end is below 2 ^ 64 keeps the invariant on every path: it is served, refused, or
  -- fails in between.
  pub do_io-IsVolume :
      (v : Volume) (write : Bool) (off : ℕ) (buf : Text)
      → off + length buf < u64_mod
      → IsVolume v
      → IsVolume (do_io io v write off buf).0
  unfolding do_io
  do_io-IsVolume v write off buf hi is = elim (Bool-cases (refused v off (length buf))) [
    | inl e ↦ rw e is
    | inr e ↦ rw e (
        with_len-IsVolume (length buf)
          (io_loop io (length buf) v write off (if write then buf else zeros (length buf)))
          (io_loop-IsVolume (length buf) v write off (if write then buf else zeros (length buf))
            (ground (arith, hi, length-replicate (length buf))) is))
  ]

-- A clean chunk is on stable storage.
unfoldable pub Clean : Volume → Type 0
Clean v = (j : ℕ) → InRange j → contains_key j v.dirty ≡ false → durable_content v j ≡ content v j

Wrote-Clean :
    (v w : Volume) (idx in_off : ℕ) (slice : Text) → Wrote v w idx in_off slice → Clean v → Clean w
unfolding Clean
Wrote-Clean v w idx in_off slice wrote clean j hj d =
    let d' : contains_key j (insert idx tt v.dirty) ≡ false =
      ap (λ m. contains_key j m) (sym wrote.now_dirty) ∙ d in
    ground (
      arith,
      get-insert idx j tt v.dirty,
      d',
      wrote.same_durable j hj,
      wrote.new_content j hj,
      clean j hj,
    )

module _ (io : Faults) where
  -- A write that succeeds keeps the clean chunks on stable storage.
  pub io_loop-Clean :
      (rounds : ℕ) (v v' : Volume) (abs : ℕ) (buf s : Text)
      → length buf ≤ rounds
      → abs + length buf < u64_mod
      → io_loop io rounds v true abs buf ≡ (v', ok s)
      → Clean v
      → Clean v'
  unfolding io_loop
  io_loop-Clean zero v v' abs buf s enough hi h clean = subst Clean (ground (arith, h)) clean
  io_loop-Clean (suc rounds) v v' abs [] s enough hi h clean = subst Clean (ground (arith, h)) clean
  io_loop-Clean (suc rounds) v v' abs (b ∷ bs) s enough hi h clean =
      let size = v.meta.chunk_size in
      let buf : Text = b ∷ bs in
      let n = round_len size abs buf in
      let (pos, (w, (slice, (rest, (first, (others, e)))))) =
        io_loop-suc io rounds v v' true abs b bs s h in
      let fits = round_len_bounds io size abs buf rounds pos (omega arith) enough in
      let here : InRange (abs / size) = omega (arith, div-le_self abs size) in
      let wrote = io_round-Wrote io v w (abs / size) (abs % size) (take n buf) slice here first in
      io_loop-Clean rounds w v' (abs + n) (drop n buf) rest (omega (arith, fits, length-drop n buf))
        (omega (arith, fits, length-drop n buf)) others
        (Wrote-Clean v w (abs / size) (abs % size) (take n buf) wrote.1 clean)
