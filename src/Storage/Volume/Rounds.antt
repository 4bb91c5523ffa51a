-- ===== src/Storage/Volume/Rounds.antt =====
-- One round of the loop of `do_io` in hostd/src/storage/volume.rs, as a change of the flat disk.
use native.Mathlib.Nat.{div-le_self}
use tikovm.Prelude.{
  ℕ, suc, nat_eq, text_eq, ◌+◌, ◌-◌, ◌/◌, ◌%◌, ◌≤◌, ◌<◌, true, false, ◌&&◌, Option, none, some, [],
  ◌∷◌, Text, nat_beq, ltb, leb, if◌then◌else◌, length, get_or, insert, Result, ok, err, u64_mod,
  ◌≡◌, inl, inr, refl, ap, sym, subst, ◌∙◌, arith, Bool-cases, Option-cases,
}
use tikovm.Storage.Files.{write_at, read_at, write_at_lem}
use tikovm.Storage.Volume.{
  Volume, VolumeMeta, Faults, Fault, chunk_fd, content, durable_content, put_content, mark_dirty,
}
use tikovm.Storage.Volume.Io.{with_fd, write_chunk, read_chunk, io_round}
use tikovm.Storage.Volume.Disk.{
  byte_at, content_at, durable_at, InRange, SameData, chunk_fd-SameData, content-put_content,
  durable-put_content,
}
use tikovm.Storage.Volume.Invariant.{Opened, chunk_fd-Opened}
use tikovm.Storage.Volume.Slots.{in_slot, same_quotient}

-- A round that has written.
pub record Wrote (v v' : Volume) (idx in_off : ℕ) (slice : Text) : Type 0 where
  pub same_meta : v'.meta ≡ v.meta
  pub now_dirty : v'.dirty ≡ insert idx tt v.dirty
  pub new_content :
      (j : ℕ)
      → InRange j
      → content v' j
        ≡ (if nat_beq idx j then write_at (content v idx) in_off slice else content v j)
  pub same_durable : (j : ℕ) → InRange j → durable_content v' j ≡ durable_content v j

written :
    (v w : Volume) (idx in_off : ℕ) (slice : Text)
    → InRange idx
    → SameData v w
    → Wrote v
        (mark_dirty (put_content w idx (write_at (content w idx) in_off slice)) idx)
        idx
        in_off
        slice
written v w idx in_off slice hi s = record {
  same_meta = s.same_meta;
  now_dirty = ap (λ m. insert idx tt m) s.same_dirty;
  new_content = λ j hj.
      let put = put_content w idx (write_at (content w idx) in_off slice) in
      ground (
        arith,
        content_at (mark_dirty put idx) put j refl,
        content-put_content w idx j (write_at (content w idx) in_off slice) hi hj,
        s.same_content j,
        ap (λ t. write_at t in_off slice) (s.same_content idx),
      );
  same_durable = λ j hj.
      let put = put_content w idx (write_at (content w idx) in_off slice) in
      durable_at (mark_dirty put idx) put j refl
      ∙ durable-put_content w idx j (write_at (content w idx) in_off slice) hi hj
      ∙ s.same_durable j;
}

read_nothing : (n : ℕ) (slice : Text) → read_at [] n slice ≡ slice
unfolding read_at
read_nothing n [] = refl
read_nothing n (b ∷ bs) = ap (λ t. b ∷ t) (read_nothing (suc n) bs)

module _ (io : Faults) where
  write_chunk-ok :
      (w v' : Volume) (idx in_off : ℕ) (slice s : Text)
      → write_chunk io w idx in_off slice ≡ (v', ok s)
      → (s ≡ slice)
        × (v' ≡ mark_dirty (put_content w idx (write_at (content w idx) in_off slice)) idx)
  unfolding write_chunk
  write_chunk-ok w v' idx in_off slice s h = elim (Option-cases (io.write_fails idx)) [
    | inr (k, q) ↦ ground (arith, q, h)
    | inl q ↦ (ground (arith, q, h), ground (arith, q, h))
  ]

  Opened-write :
      (v v' : Volume) (idx in_off : ℕ) (slice s : Text) (r : Volume × Result Fault (Option ℕ))
      → InRange idx
      → SameData v r.0
      → Opened v idx true r
      → with_fd io r true in_off slice ≡ (v', ok s)
      → (s ≡ slice) × Wrote v v' idx in_off slice
  Opened-write v v' idx in_off slice s (w, err e) hi same (inl o) h = cc
  Opened-write v v' idx in_off slice s (w, err e) hi same (inr o) h = cc
  Opened-write v v' idx in_off slice s (w, ok none) hi same (inl o) h = cc
  Opened-write v v' idx in_off slice s (w, ok none) hi same (inr (inl o)) h = cc
  Opened-write v v' idx in_off slice s (w, ok none) hi same (inr (inr o)) h = cc
  Opened-write v v' idx in_off slice s (w, ok (some f)) hi same (inl o) h = cc
  Opened-write v v' idx in_off slice s (w, ok (some f)) hi same (inr (inr o)) h = cc
  Opened-write v v' idx in_off slice s (w, ok (some f)) hi same (inr (inl o)) h =
      let e : f ≡ idx = cc in
      let r =
        write_chunk-ok w v' idx in_off slice s
          (subst (λ t. write_chunk io w t in_off slice ≡ (v', ok s)) e h) in
      (
        r.0,
        subst (λ t. Wrote v t idx in_off slice) (sym r.1) (written v w idx in_off slice hi same),
      )

  pub io_round-Wrote :
      (v v' : Volume) (idx in_off : ℕ) (slice s : Text)
      → InRange idx
      → io_round io v true idx in_off slice ≡ (v', ok s)
      → (s ≡ slice) × Wrote v v' idx in_off slice
  unfolding io_round
  io_round-Wrote v v' idx in_off slice s hi h =
      Opened-write v v' idx in_off slice s (chunk_fd io v idx true) hi
        (chunk_fd-SameData io v idx true) (chunk_fd-Opened io v idx true) h

  read_chunk-ok :
      (w v' : Volume) (idx in_off : ℕ) (slice s : Text)
      → read_chunk io w idx in_off slice ≡ (v', ok s)
      → (s ≡ read_at (content w idx) in_off slice) × (v' ≡ w)
  unfolding read_chunk
  read_chunk-ok w v' idx in_off slice s h = elim (Bool-cases (io.read_fails idx)) [
    | inl q ↦ ground (arith, q, h)
    | inr q ↦ (ground (arith, q, h), ground (arith, q, h))
  ]

  Opened-read :
      (v v' : Volume) (idx in_off : ℕ) (slice s : Text) (r : Volume × Result Fault (Option ℕ))
      → SameData v r.0
      → Opened v idx false r
      → with_fd io r false in_off slice ≡ (v', ok s)
      → (s ≡ read_at (content v idx) in_off slice) × SameData v v'
  Opened-read v v' idx in_off slice s (w, err e) same o h = cc
  Opened-read v v' idx in_off slice s (w, ok none) same (inl o) h = cc
  Opened-read v v' idx in_off slice s (w, ok none) same (inr (inl o)) h = cc
  Opened-read v v' idx in_off slice s (w, ok none) same (inr (inr o)) h =
      let e : s ≡ slice = cc in
      (
        e ∙ sym (read_nothing in_off slice) ∙ ap (λ t. read_at t in_off slice) (sym o.1.1),
        subst (λ t. SameData v t) (ground (arith, h)) same,
      )
  Opened-read v v' idx in_off slice s (w, ok (some f)) same (inl o) h = cc
  Opened-read v v' idx in_off slice s (w, ok (some f)) same (inr (inr o)) h = cc
  Opened-read v v' idx in_off slice s (w, ok (some f)) same (inr (inl o)) h =
      let e : f ≡ idx = cc in
      let r =
        read_chunk-ok w v' idx in_off slice s
          (subst (λ t. read_chunk io w t in_off slice ≡ (v', ok s)) e h) in
      (
        r.0 ∙ ap (λ t. read_at t in_off slice) (same.same_content idx),
        subst (λ t. SameData v t) (sym r.1) same,
      )

  pub io_round-read :
      (v v' : Volume) (idx in_off : ℕ) (slice s : Text)
      → io_round io v false idx in_off slice ≡ (v', ok s)
      → (s ≡ read_at (content v idx) in_off slice) × SameData v v'
  unfolding io_round
  io_round-read v v' idx in_off slice s h =
      Opened-read v v' idx in_off slice s (chunk_fd io v idx false)
        (chunk_fd-SameData io v idx false) (chunk_fd-Opened io v idx false) h

-- In the chunk that is written, with the places in it as numbers.
in_chunk :
    (c slice : Text) (abs p io m : ℕ)
    → p + io ≡ abs + m
    → get_or (write_at c io slice) m 0
      ≡ (if leb abs p && ltb p (abs + length slice) then get_or slice (p - abs) 0 else get_or c m 0)
in_chunk c slice abs p io m e =
    let test : leb io m && ltb m (io + length slice) ≡ leb abs p && ltb p (abs + length slice) =
      ground (arith, e) in
    elim (Bool-cases (leb abs p && ltb p (abs + length slice))) [
      | inl t ↦
          let d : m - io ≡ p - abs = ground (arith, e, t) in
          rw t
            (ground (arith, write_at_lem c io slice m, test, t, ap (λ (k : ℕ). get_or slice k 0) d))
      | inr t ↦ rw t (ground (arith, write_at_lem c io slice m, test, t))
    ]

-- Elsewhere.
off_chunk :
    (s abs p n : ℕ)
    → 0 < s
    → n ≤ s - abs % s
    → nat_beq (abs / s) (p / s) ≡ false
    → leb abs p && ltb p (abs + n) ≡ false
off_chunk s abs p n pos fits other = elim (Bool-cases (leb abs p && ltb p (abs + n))) [
  | inr t ↦ t
  | inl t ↦
      let e = ((in_slot s abs n p pos fits).0 (ground (arith, t), ground (arith, t))).0 in
      ground (arith, other, e)
]

-- The bytes of the disk after a round that has written.
pub Wrote-byte_at :
    (v v' : Volume) (abs p : ℕ) (slice : Text)
    → 0 < v.meta.chunk_size
    → length slice ≤ v.meta.chunk_size - abs % v.meta.chunk_size
    → p < u64_mod
    → Wrote v v' (abs / v.meta.chunk_size) (abs % v.meta.chunk_size) slice
    → byte_at v' p
      ≡ (if leb abs p && ltb p (abs + length slice) then get_or slice (p - abs) 0 else byte_at v p)
unfolding byte_at
Wrote-byte_at v v' abs p slice pos fits hp w =
    let s = v.meta.chunk_size in
    let here : InRange (p / s) = omega (arith, div-le_self p s) in
    ap (λ (t : VolumeMeta). get_or (content v' (p / t.chunk_size)) (p % t.chunk_size) 0) w.same_meta
    ∙ ap (λ (t : Text). get_or t (p % s) 0) (w.new_content (p / s) here)
    ∙ elim (Bool-cases (nat_beq (abs / s) (p / s))) [
      | inl e ↦
          let q : abs / s ≡ p / s = (nat_eq.decides (abs / s) (p / s)).0 e in
          rw e (
            in_chunk (content v (abs / s)) slice abs p (abs % s) (p % s)
              (same_quotient s p abs (sym q))
            ∙ ap
                (λ (k : ℕ).
                  if leb abs p && ltb p (abs + length slice)
                  then get_or slice (p - abs) 0
                  else get_or (content v k) (p % s) 0)
                q)
      | inr e ↦ rw (e, off_chunk s abs p (length slice) pos fits e) refl
    ]
