-- ===== src/Storage/Files.antt =====
-- Regular files as the operating system keeps them, of which hostd/src/storage/volume.rs uses
-- positioned reads and writes and `fdatasync`.
use tikovm.Prelude.{
  ℕ, zero, suc, ◌+◌, ◌-◌, ◌<◌, [], ◌∷◌, Text, length, get_or, replicate, ltb, leb, ◌&&◌,
  if◌then◌else◌, ◌≡◌, refl, arith,
}

-- The bytes that a read sees, and those that are on stable storage.
pub record File : Type 0 where
  pub written : Text
  pub durable : Text

-- What `open` with `create` makes of a missing file.
abbrev pub empty_file : File
empty_file = record { written = []; durable = [] }

-- `write_all_at`: it extends the file, and a gap reads as zeros.
unfoldable pub write_at : Text → ℕ → Text → Text
write_at f n [] = f
write_at [] zero (b ∷ bs) = b ∷ write_at [] zero bs
write_at (a ∷ f) zero (b ∷ bs) = b ∷ write_at f zero bs
write_at [] (suc n) (b ∷ bs) = 0 ∷ write_at [] n (b ∷ bs)
write_at (a ∷ f) (suc n) (b ∷ bs) = a ∷ write_at f n (b ∷ bs)

-- The buffer after `read_at`, which overwrites no more of it than the file has.
unfoldable pub read_at : Text → ℕ → Text → Text
read_at f n [] = []
read_at f n (b ∷ bs) = get_or f n b ∷ read_at f (suc n) bs

pub write_at_lem :
    (f : Text) (n : ℕ) (bs : Text) (i : ℕ)
    → get_or (write_at f n bs) i 0
      ≡ (if leb n i && ltb i (n + length bs) then get_or bs (i - n) 0 else get_or f i 0)
unfolding write_at
write_at_lem f n [] i = ground arith
write_at_lem [] zero (b ∷ bs) zero = ground arith
write_at_lem [] zero (b ∷ bs) (suc i) = ground (arith, write_at_lem [] zero bs i)
write_at_lem (a ∷ f) zero (b ∷ bs) zero = ground arith
write_at_lem (a ∷ f) zero (b ∷ bs) (suc i) = ground (arith, write_at_lem f zero bs i)
write_at_lem [] (suc n) (b ∷ bs) zero = ground arith
write_at_lem [] (suc n) (b ∷ bs) (suc i) =
    let e : suc i - suc n ≡ i - n = omega arith in
    rw e (ground (arith, write_at_lem [] n (b ∷ bs) i))
write_at_lem (a ∷ f) (suc n) (b ∷ bs) zero = ground arith
write_at_lem (a ∷ f) (suc n) (b ∷ bs) (suc i) =
    let e : suc i - suc n ≡ i - n = omega arith in
    rw e (ground (arith, write_at_lem f n (b ∷ bs) i))

pub length-read_at : (f : Text) (n : ℕ) (bs : Text) → length (read_at f n bs) ≡ length bs
unfolding read_at
length-read_at f n [] = refl
length-read_at f n (b ∷ bs) = ground (arith, length-read_at f (suc n) bs)

-- Read over zeros, the buffer holds the file's bytes, and zeros past its end.
pub read_at_lem :
    (f : Text) (n len i : ℕ)
    → i < len
    → get_or (read_at f n (replicate len 0)) i 0 ≡ get_or f (n + i) 0
unfolding read_at
read_at_lem f n zero i h = elim h [ ]
read_at_lem f n (suc len) zero h = ground arith
read_at_lem f n (suc len) (suc i) h =
    let e : n + suc i ≡ suc n + i = omega arith in rw e (read_at_lem f (suc n) len i (omega arith))
