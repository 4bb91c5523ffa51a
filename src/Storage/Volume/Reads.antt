-- ===== src/Storage/Volume/Reads.antt =====
-- The reading loop of `do_io` in hostd/src/storage/volume.rs against the flat disk.
use tikovm.Prelude.{
  ℕ, zero, suc, nat_eq, ◌+◌, ◌-◌, ◌/◌, ◌%◌, ◌≤◌, ◌<◌, false, [], ◌∷◌, ◌++◌, Text, ltb, length, take,
  drop, replicate, length-append, get_or, ok, ◌≡◌, inl, inr, refl, ap, sym, subst, ◌∙◌, arith,
  Bool-cases,
}
use tikovm.Storage.Files.{read_at, read_at_lem, length-read_at}
use tikovm.Storage.Volume.{Volume, VolumeMeta, Faults, content}
use tikovm.Storage.Volume.Io.{round_len, io_loop}
use tikovm.Storage.Volume.Disk.{byte_at, SameData, unchanged}
use tikovm.Storage.Volume.Slots.{in_slot, same_quotient}
use tikovm.Storage.Volume.Rounds.{io_round-read}
use tikovm.Storage.Volume.Transfers.{io_loop-suc, round_len_bounds}

abbrev pub zeros : ℕ → Text
zeros n = replicate n 0

take-replicate : (n len : ℕ) → n ≤ len → take n (zeros len) ≡ zeros n
take-replicate zero len h = refl
take-replicate (suc n) zero h = absurd (omega arith)
take-replicate (suc n) (suc len) h = ap (λ t. 0 ∷ t) (take-replicate n len (omega (arith, h)))

drop-replicate : (n len : ℕ) → n ≤ len → drop n (zeros len) ≡ zeros (len - n)
drop-replicate zero len h = ap (λ (k : ℕ). zeros k) (omega arith)
drop-replicate (suc n) zero h = absurd (omega arith)
drop-replicate (suc n) (suc len) h =
    drop-replicate n len (omega (arith, h)) ∙ ap (λ (k : ℕ). zeros k) (omega arith)

pub length-replicate : (n : ℕ) → length (zeros n) ≡ n
length-replicate zero = refl
length-replicate (suc n) = omega (arith, length-replicate n)

get_or-append_left : (a b : Text) (i : ℕ) → i < length a → get_or (a ++ b) i 0 ≡ get_or a i 0
get_or-append_left [] b i h = absurd (omega arith)
get_or-append_left (x ∷ a) b zero h = refl
get_or-append_left (x ∷ a) b (suc i) h = get_or-append_left a b i (omega (arith, h))

get_or-append_right : (a b : Text) (i : ℕ) → get_or (a ++ b) (length a + i) 0 ≡ get_or b i 0
get_or-append_right [] b i = ap (λ (k : ℕ). get_or b k 0) (omega arith)
get_or-append_right (x ∷ a) b i =
    let e : suc (length a) + i ≡ suc (length a + i) = omega arith in
    rw e (get_or-append_right a b i)

-- The buffer holds the disk's bytes from `abs` on.
pub record Holds (v : Volume) (abs len : ℕ) (s : Text) : Type 0 where
  pub full : length s ≡ len
  pub bytes : (i : ℕ) → i < len → get_or s i 0 ≡ byte_at v (abs + i)

Holds-append :
    (v : Volume) (abs n len : ℕ) (s t : Text)
    → n ≤ len
    → Holds v abs n s
    → Holds v (abs + n) (len - n) t
    → Holds v abs len (s ++ t)
Holds-append v abs n len s t le a b = record {
  full = omega (arith, length-append s t, a.full, b.full);
  bytes = λ i h. elim (Bool-cases (ltb i n)) [
    | inl low ↦
        get_or-append_left s t i (ground (arith, low, a.full)) ∙ a.bytes i (ground (arith, low))
    | inr high ↦
        let e : i ≡ length s + (i - n) = ground (arith, high, a.full) in
        let f : abs + n + (i - n) ≡ abs + i = ground (arith, high) in
        ap (λ (k : ℕ). get_or (s ++ t) k 0) e
        ∙ get_or-append_right s t (i - n)
        ∙ b.bytes (i - n) (ground (arith, high, h))
        ∙ ap (byte_at v) f
  ];
}

pub same_byte : (v w : Volume) (p : ℕ) → SameData v w → byte_at w p ≡ byte_at v p
unfolding byte_at
same_byte v w p s =
    ap (λ (t : VolumeMeta). get_or (content w (p / t.chunk_size)) (p % t.chunk_size) 0) s.same_meta
    ∙ ap (λ (t : Text). get_or t (p % v.meta.chunk_size) 0) (s.same_content (p / v.meta.chunk_size))

-- The slice that one chunk gives.
slice-Holds :
    (v : Volume) (abs n : ℕ)
    → 0 < v.meta.chunk_size
    → n ≤ v.meta.chunk_size - abs % v.meta.chunk_size
    → Holds v abs n
        (read_at (content v (abs / v.meta.chunk_size)) (abs % v.meta.chunk_size) (zeros n))
unfolding byte_at
slice-Holds v abs n pos fits = record {
  full =
      length-read_at (content v (abs / v.meta.chunk_size)) (abs % v.meta.chunk_size) (zeros n)
      ∙ length-replicate n;
  bytes = λ i h.
      let s = v.meta.chunk_size in
      let q = ((in_slot s abs n (abs + i) pos fits).0 (omega arith, omega (arith, h))).0 in
      let m : abs % s + i ≡ (abs + i) % s = omega (arith, same_quotient s (abs + i) abs q) in
      read_at_lem (content v (abs / s)) (abs % s) n i h
      ∙ ap (λ (k : ℕ). get_or (content v (abs / s)) k 0) m
      ∙ ap (λ (k : ℕ). get_or (content v k) ((abs + i) % s) 0) (sym q);
}

held_none : (v v' : Volume) (abs : ℕ) (s : Text) → s ≡ [] → v' ≡ v → Holds v abs 0 s × SameData v v'
held_none v v' abs s e f =
    (record { full = ap length e; bytes = λ i h. absurd (omega (arith, h)) }, rw f (unchanged v))

SameData-trans : (v w u : Volume) → SameData v w → SameData w u → SameData v u
SameData-trans v w u a b = record {
  same_meta = b.same_meta ∙ a.same_meta;
  same_dirty = b.same_dirty ∙ a.same_dirty;
  same_content = λ i. b.same_content i ∙ a.same_content i;
  same_durable = λ i. b.same_durable i ∙ a.same_durable i;
}

module _ (io : Faults) where
  -- A read returns the disk's bytes, and changes none.
  pub io_loop-Holds :
      (rounds : ℕ) (v v' : Volume) (abs len : ℕ) (s : Text)
      → len ≤ rounds
      → io_loop io rounds v false abs (zeros len) ≡ (v', ok s)
      → Holds v abs len s × SameData v v'
  unfolding io_loop
  io_loop-Holds zero v v' abs zero s enough h =
      held_none v v' abs s (ground (arith, h)) (ground (arith, h))
  io_loop-Holds zero v v' abs (suc len) s enough h = absurd (omega arith)
  io_loop-Holds (suc rounds) v v' abs zero s enough h =
      held_none v v' abs s (ground (arith, h)) (ground (arith, h))
  io_loop-Holds (suc rounds) v v' abs (suc len) s enough h =
      let size = v.meta.chunk_size in
      let buf : Text = zeros (suc len) in
      let n = round_len size abs buf in
      let (pos, (w, (slice, (rest, (first, (others, e)))))) =
        io_loop-suc io rounds v v' false abs 0 (zeros len) s h in
      let l = length-replicate len in
      let fits =
        round_len_bounds io size abs buf rounds pos (omega arith) (omega (arith, enough, l)) in
      let few : n ≤ suc len = omega (arith, fits, l) in
      let got = io_round-read io v w (abs / size) (abs % size) (take n buf) slice first in
      let head : Holds v abs n slice =
        subst (Holds v abs n)
          (sym (
            got.0
            ∙ ap (read_at (content v (abs / size)) (abs % size)) (take-replicate n (suc len) few)))
          (slice-Holds v abs n pos fits.0) in
      let others' =
        subst (λ t. io_loop io rounds w false (abs + n) t ≡ (v', ok rest))
          (drop-replicate n (suc len) few) others in
      let more =
        io_loop-Holds rounds w v' (abs + n) (suc len - n) rest (omega (arith, fits, l)) others' in
      (
        subst (Holds v abs (suc len)) (sym e) (
            Holds-append v abs n (suc len) slice rest few head (record {
              full = more.0.full;
              bytes = λ i hi. more.0.bytes i hi ∙ same_byte v w (abs + n + i) got.1;
            })),
        SameData-trans v w v' got.1 more.1,
      )
