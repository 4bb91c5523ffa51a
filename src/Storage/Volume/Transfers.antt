-- ===== src/Storage/Volume/Transfers.antt =====
-- `do_io` of hostd/src/storage/volume.rs against the flat disk.
use native.Mathlib.Nat.{mod-lt, div-le_self}
use tikovm.Prelude.{
  ℕ, zero, suc, nat_eq, text_eq, ◌+◌, ◌-◌, ◌/◌, ◌%◌, ◌≤◌, ◌<◌, Bool, true, false, ◌&&◌, [], ◌∷◌,
  ◌++◌, Text, nat_beq, ltb, leb, if◌then◌else◌, length, take, drop, get_or, Result, ok, err,
  u64_mod, ◌≡◌, inl, inr, refl, ap, ◌∙◌, arith, Bool-cases,
}
use tikovm.Storage.Volume.{Volume, Faults, Fault}
use tikovm.Storage.Volume.Io.{io_round, prepend, next_round, round_len, io_loop}
use tikovm.Storage.Volume.Disk.{byte_at, InRange}
use tikovm.Storage.Volume.Rounds.{io_round-Wrote, Wrote-byte_at}

-- The two parts of a buffer.
take-drop : (n : ℕ) (t : Text) → take n t ++ drop n t ≡ t
take-drop zero t = refl
take-drop (suc n) [] = refl
take-drop (suc n) (b ∷ t) = ap (λ u. b ∷ u) (take-drop n t)

pub length-take : (n : ℕ) (t : Text) → n ≤ length t → length (take n t) ≡ n
length-take zero t h = refl
length-take (suc n) [] h = absurd (omega arith)
length-take (suc n) (b ∷ t) h = omega (arith, length-take n t (omega (arith, h)))

pub length-drop : (n : ℕ) (t : Text) → length (drop n t) ≡ length t - n
length-drop zero t = omega arith
length-drop (suc n) [] = omega arith
length-drop (suc n) (b ∷ t) = omega (arith, length-drop n t)

get_or-take : (n : ℕ) (t : Text) (i : ℕ) → i < n → get_or (take n t) i 0 ≡ get_or t i 0
get_or-take zero t i h = absurd (omega (arith, h))
get_or-take (suc n) [] i h = refl
get_or-take (suc n) (b ∷ t) zero h = refl
get_or-take (suc n) (b ∷ t) (suc i) h = get_or-take n t i (omega (arith, h))

get_or-drop : (n : ℕ) (t : Text) (i : ℕ) → get_or (drop n t) i 0 ≡ get_or t (n + i) 0
get_or-drop zero t i = ap (λ (k : ℕ). get_or t k 0) (omega arith)
get_or-drop (suc n) [] i = refl
get_or-drop (suc n) (b ∷ t) i =
    let e : suc n + i ≡ suc (n + i) = omega arith in rw e (get_or-drop n t i)

-- The disk after a write of `buf` at `abs`.
pub record Written (v v' : Volume) (abs : ℕ) (buf : Text) : Type 0 where
  pub same_meta : v'.meta ≡ v.meta
  pub bytes :
      (p : ℕ)
      → p < u64_mod
      → byte_at v' p
        ≡ (if leb abs p && ltb p (abs + length buf) then get_or buf (p - abs) 0 else byte_at v p)

-- A write that goes on after its first bytes.
Written-append :
    (v w v' : Volume) (abs n : ℕ) (buf : Text)
    → n ≤ length buf
    → Written v w abs (take n buf)
    → Written w v' (abs + n) (drop n buf)
    → Written v v' abs buf
Written-append v w v' abs n buf le a b = record {
  same_meta = b.same_meta ∙ a.same_meta;
  bytes = λ p hp. elim (Bool-cases (ltb p (abs + n))) [
    | inl low ↦ ground (
      arith,
      low,
      b.bytes p hp,
      a.bytes p hp,
      length-take n buf le,
      length-drop n buf,
      λ (h : p - abs < n). get_or-take n buf (p - abs) h,
    )
    | inr high ↦
        let e : n + (p - (abs + n)) ≡ p - abs = ground (arith, high) in
        ground (
          arith,
          high,
          b.bytes p hp,
          a.bytes p hp,
          length-take n buf le,
          length-drop n buf,
          get_or-drop n buf (p - (abs + n)),
          ap (λ (k : ℕ). get_or buf k 0) e,
        )
  ];
}

Written-nil : (v v' : Volume) (abs : ℕ) → v' ≡ v → Written v v' abs []
Written-nil v v' abs e = record {
  same_meta = ap (λ (t : Volume). t.meta) e;
  bytes = λ p hp. ground (arith, ap (λ (t : Volume). byte_at t p) e);
}

pub else_branch : {A : Type 0} (x y z : A) (c : Bool) → c ≡ false → (if c then x else y) ≡ z → y ≡ z
else_branch x y z true e h = cc
else_branch x y z false e h = h

module _ (io : Faults) where
  prepend-ok :
      (slice s : Text) (v' : Volume) (r : Volume × Result Fault Text)
      → prepend slice r ≡ (v', ok s)
      → (rest : Text) × ((r ≡ (v', ok rest)) × (s ≡ slice ++ rest))
  prepend-ok slice s v' (w, err e) h = cc
  prepend-ok slice s v' (w, ok rest) h = (rest, (cc, cc))

  -- A round that ends well, with what follows it.
  abbrev pub Continued :
      Volume × Result Fault Text → (Volume → Volume × Result Fault Text) → Volume → Text → Type 0
  Continued r k v' s =
      (w : Volume) × ((slice : Text) × ((rest : Text) × ((r ≡ (w, ok slice))
            × ((k w ≡ (v', ok rest)) × (s ≡ slice ++ rest)))))

  next_round-ok :
      (r : Volume × Result Fault Text) (k : Volume → Volume × Result Fault Text) (v' : Volume)
      (s : Text)
      → next_round r k ≡ (v', ok s)
      → Continued r k v' s
  next_round-ok (w, err e) k v' s h = cc
  next_round-ok (w, ok slice) k v' s h =
      let p = prepend-ok slice s v' (k w) h in (w, (slice, (p.0, (refl, (p.1.0, p.1.1)))))

  -- The round's length, and what is left for the rounds that follow.
  pub round_len_bounds :
      (size abs : ℕ) (buf : Text) (rounds : ℕ)
      → 0 < size
      → 0 < length buf
      → length buf ≤ suc rounds
      → (round_len size abs buf ≤ size - abs % size)
        × ((round_len size abs buf ≤ length buf) × (length buf - round_len size abs buf ≤ rounds))
  round_len_bounds size abs buf rounds pos some_left enough = ground (arith, mod-lt abs pos)

  -- A loop that ends well, at its first round.
  pub io_loop-suc :
      (rounds : ℕ) (v v' : Volume) (write : Bool) (abs b : ℕ) (bs s : Text)
      → io_loop io (suc rounds) v write abs (b ∷ bs) ≡ (v', ok s)
      → (0 < v.meta.chunk_size)
        × Continued
            (io_round io v write
              (abs / v.meta.chunk_size)
              (abs % v.meta.chunk_size)
              (take (round_len v.meta.chunk_size abs (b ∷ bs)) (b ∷ bs)))
            (λ w.
              io_loop io rounds w write
                (abs + round_len v.meta.chunk_size abs (b ∷ bs))
                (drop (round_len v.meta.chunk_size abs (b ∷ bs)) (b ∷ bs)))
            v'
            s
  unfolding io_loop
  io_loop-suc rounds v v' write abs b bs s h = elim (Bool-cases (nat_beq v.meta.chunk_size 0)) [
    | inl z ↦ ground (arith, z, h)
    | inr z ↦ (
      ground (arith, z),
      next_round-ok
          (io_round io v write (abs / v.meta.chunk_size) (abs % v.meta.chunk_size)
            (take (round_len v.meta.chunk_size abs (b ∷ bs)) (b ∷ bs)))
          (λ w.
            io_loop io rounds w write (abs + round_len v.meta.chunk_size abs (b ∷ bs))
              (drop (round_len v.meta.chunk_size abs (b ∷ bs)) (b ∷ bs)))
          v' s (else_branch _ _ _ (nat_beq v.meta.chunk_size 0) z h),
    )
  ]

  -- The loop writes the buffer at its place, and nothing else.
  pub io_loop-Written :
      (rounds : ℕ) (v v' : Volume) (abs : ℕ) (buf s : Text)
      → length buf ≤ rounds
      → abs + length buf < u64_mod
      → io_loop io rounds v true abs buf ≡ (v', ok s)
      → (s ≡ buf) × Written v v' abs buf
  unfolding io_loop
  io_loop-Written zero v v' abs [] s enough hi h =
      (ground (arith, h), Written-nil v v' abs (ground (arith, h)))
  io_loop-Written zero v v' abs (b ∷ bs) s enough hi h = absurd (omega arith)
  io_loop-Written (suc rounds) v v' abs [] s enough hi h =
      (ground (arith, h), Written-nil v v' abs (ground (arith, h)))
  io_loop-Written (suc rounds) v v' abs (b ∷ bs) s enough hi h =
      let size = v.meta.chunk_size in
      let buf : Text = b ∷ bs in
      let n = round_len size abs buf in
      let (pos, (w, (slice, (rest, (first, (others, e)))))) =
        io_loop-suc rounds v v' true abs b bs s h in
      let fits = round_len_bounds size abs buf rounds pos (omega arith) enough in
      let here : InRange (abs / size) = omega (arith, div-le_self abs size) in
      let wrote = io_round-Wrote io v w (abs / size) (abs % size) (take n buf) slice here first in
      let len = length-take n buf fits.1.0 in
      let more =
        io_loop-Written rounds w v' (abs + n) (drop n buf) rest
          (omega (arith, fits, length-drop n buf)) (omega (arith, fits, length-drop n buf))
          others in
      (
        e ∙ ap (λ t. t ++ rest) wrote.0 ∙ ap (λ t. take n buf ++ t) more.0 ∙ take-drop n buf,
        Written-append v w v' abs n buf fits.1.0
            (record {
              same_meta = wrote.1.same_meta;
              bytes = λ p hp.
                  Wrote-byte_at v w abs p (take n buf) pos (omega (arith, len, fits)) hp wrote.1;
            })
            more.1,
      )
