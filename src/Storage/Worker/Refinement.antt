-- ===== src/Storage/Worker/Refinement.antt =====
-- The worker of hostd/src/storage/ublk_worker.rs against a disk.
use tikovm.Prelude.{
  ℕ, zero, suc, nat_eq, text_eq, Map, ◌+◌, ◌*◌, ◌<◌, Bool, true, false, List, [], ◌∷◌, Text,
  if◌then◌else◌, length, contains_key, get, u64_mod, Result, ok, err, ◌≡◌, ◌≢◌, inl, inr, refl, ap,
  sym, subst, ◌∙◌, arith, Bool-cases,
}
use tikovm.Storage.Files.{File}
use tikovm.Storage.Volume.Opening.{fresh, fresh-IsVolume}
use tikovm.Storage.Volume.{content, durable_content, Volume, VolumeMeta, Faults, Fault}
use tikovm.Storage.Volume.Io.{do_io, io_loop, with_len, refused, flush}
use tikovm.Storage.Volume.Disk.{byte_at, SameData}
use tikovm.Storage.Volume.Invariant.{IsVolume}
use tikovm.Storage.Volume.Transfers.{io_loop-Written}
use tikovm.Storage.Volume.Reads.{zeros, length-replicate, Holds, same_byte, io_loop-Holds}
use tikovm.Storage.Volume.Kept.{Clean, do_io-IsVolume, io_loop-Clean}
use tikovm.Storage.Volume.Durability.{flush-AllDurable, flush-IsVolume, AllDurable-byte_at}
use tikovm.Storage.Worker.{
  Request, read, write, flush_all, discard, unknown, Reply, eio, sector, io_task, io_reply,
  flush_reply, serve, Disk, bytes_from, disk_task, disk_serve,
}

-- A volume that stands for the disk.
pub record Represents (v : Volume) (d : Disk) : Type 0 where
  pub is_volume : IsVolume v
  pub clean : Clean v
  pub bytes : (p : ℕ) → p < u64_mod → byte_at v p ≡ d p

-- A volume that is opened on a directory with no chunk stands for a disk of zeros.
pub fresh-Represents :
    (chunks : Map Text File) (m : VolumeMeta) → chunks ≡ [] → Represents (fresh chunks m) (λ p. 0)
fresh-Represents chunks m e = record {
  is_volume = fresh-IsVolume chunks m;
  clean = unfold Clean durable_content content in λ j hj d. rw e (unfold get in refl);
  bytes = λ p hp. unfold byte_at content in rw e (unfold get in refl);
}

-- The offsets of a request are 64-bit numbers.
abbrev pub Valid : Request → Type 0
Valid (read start n) = start * sector + n * sector < u64_mod
Valid (write start buf) = start * sector + length buf < u64_mod
Valid req = Unit {0}

with_len-inv :
    (len n : ℕ) (r : Volume × Result Fault Text) (v' : Volume) (s : Text)
    → with_len len r ≡ (v', ok (s, n))
    → (n ≡ len) × (r ≡ (v', ok s))
with_len-inv len n (v, err e) v' s h = cc
with_len-inv len n (v, ok buf) v' s h = (cc, cc)

do_io-inv :
    (io : Faults) (v v' : Volume) (w : Bool) (off n : ℕ) (buf s : Text)
    → do_io io v w off buf ≡ (v', ok (s, n))
    → (n ≡ length buf)
      × (io_loop io (length buf) v w off (if w then buf else zeros (length buf)) ≡ (v', ok s))
unfolding do_io
do_io-inv io v v' w off n buf s h = elim (Bool-cases (refused v off (length buf))) [
  | inl e ↦ ground (arith, e, h)
  | inr e ↦
      with_len-inv (length buf) n
        (io_loop io (length buf) v w off (if w then buf else zeros (length buf))) v' s
        (ground (arith, e, h))
]

Holds-bytes :
    (d : Disk) (v : Volume) (off len : ℕ) (s : Text)
    → ((p : ℕ) → p < u64_mod → byte_at v p ≡ d p)
    → off + len < u64_mod
    → Holds v off len s
    → s ≡ bytes_from d off len
Holds-bytes d v off zero [] same hi h = refl
Holds-bytes d v off zero (x ∷ s) same hi h = absurd (omega (arith, h.full))
Holds-bytes d v off (suc len) [] same hi h = absurd (omega (arith, h.full))
Holds-bytes d v off (suc len) (x ∷ s) same hi h =
    let first : x ≡ d off =
      h.bytes 0 (omega arith) ∙ ap (byte_at v) (omega arith) ∙ same off (omega (arith, hi)) in
    let rest = Holds-bytes d v (suc off) len s same (omega (arith, hi)) (record {
      full = omega (arith, h.full);
      bytes = λ i lt.
          let e : off + suc i ≡ suc off + i = omega arith in
          h.bytes (suc i) (omega (arith, lt)) ∙ ap (byte_at v) e;
    }) in
    ap (λ t. t ∷ s) first ∙ ap (λ t. d off ∷ t) rest

-- The step of a request that does not fail.
abbrev Implements : Volume × Reply → Disk × Reply → Type 0
Implements r e = (r.1 ≡ e.1) × Represents r.0 e.0

same-Clean : (v w : Volume) → SameData v w → Clean v → Clean w
unfolding Clean
same-Clean v w s clean j hj c =
    s.same_durable j
    ∙ clean j hj (ap (λ m. contains_key j m) (sym s.same_dirty) ∙ c)
    ∙ sym (s.same_content j)

read-Represents :
    (io : Faults) (v : Volume) (d : Disk) (start n : ℕ)
    → Represents v d
    → Valid (read start n)
    → (io_task io v (read start n)).1 ≢ eio
    → Implements (io_task io v (read start n)) (disk_task d (read start n))
unfolding io_task
read-Represents io v d start n rep valid fine =
    go (do_io io v false (start * sector) (zeros (n * sector))) refl fine
  where
    len : length (zeros (n * sector)) ≡ n * sector
    len = length-replicate (n * sector)

    go :
        (r : Volume × Result Fault (Text × ℕ))
        → do_io io v false (start * sector) (zeros (n * sector)) ≡ r
        → (io_reply r).1 ≢ eio
        → Implements (io_reply r) (disk_task d (read start n))
    go (w, err e) q ne = absurd (ne refl)
    go (w, ok (s, m)) q ne =
        let inv = do_io-inv io v w false (start * sector) m (zeros (n * sector)) s q in
        let got =
          io_loop-Holds io (n * sector) v w (start * sector) (n * sector) s (omega arith)
            (subst (λ t. io_loop io t v false (start * sector) (zeros t) ≡ (w, ok s)) len inv.1) in
        let kept =
          subst (λ t. IsVolume t.0) q
            (do_io-IsVolume io v false (start * sector) (zeros (n * sector))
              (omega (arith, valid, len)) rep.is_volume) in
        (
          ground (
            arith,
            inv.0,
            len,
            Holds-bytes d v (start * sector) (n * sector) s rep.bytes valid got.0,
          ),
          record {
            is_volume = kept;
            clean = same-Clean v w got.1 rep.clean;
            bytes = λ p hp. same_byte v w p got.1 ∙ rep.bytes p hp;
          },
        )

write-Represents :
    (io : Faults) (v : Volume) (d : Disk) (start : ℕ) (buf : Text)
    → Represents v d
    → Valid (write start buf)
    → (io_task io v (write start buf)).1 ≢ eio
    → Implements (io_task io v (write start buf)) (disk_task d (write start buf))
unfolding io_task
write-Represents io v d start buf rep valid fine =
    go (do_io io v true (start * sector) buf) refl fine
  where
    go :
        (r : Volume × Result Fault (Text × ℕ))
        → do_io io v true (start * sector) buf ≡ r
        → (io_reply r).1 ≢ eio
        → Implements (io_reply r) (disk_task d (write start buf))
    go (w, err e) q ne = absurd (ne refl)
    go (w, ok (s, n)) q ne =
        let inv = do_io-inv io v w true (start * sector) n buf s q in
        let wrote =
          io_loop-Written io (length buf) v w (start * sector) buf s (omega arith) valid inv.1 in
        (
          ground (arith, inv.0, wrote.0),
          record {
            is_volume =
                subst (λ t. IsVolume t.0) q
                  (do_io-IsVolume io v true (start * sector) buf valid rep.is_volume);
            clean =
                io_loop-Clean io (length buf) v w (start * sector) buf s (omega arith) valid inv.1
                  rep.clean;
            bytes = λ p hp. wrote.1.bytes p hp ∙ ground (arith, rep.bytes p hp);
          },
        )

flush-Represents :
    (io : Faults) (v : Volume) (d : Disk)
    → Represents v d
    → (io_task io v flush_all).1 ≢ eio
    → Implements (io_task io v flush_all) (disk_task d flush_all)
unfolding io_task
flush-Represents io v d rep fine = go (flush io v) refl fine
  where
    go :
        (r : Volume × Result Fault (Unit {0}))
        → flush io v ≡ r
        → (flush_reply r).1 ≢ eio
        → Implements (flush_reply r) (disk_task d flush_all)
    go (w, err e) q ne = absurd (ne refl)
    go (w, ok u) q ne =
        let all = flush-AllDurable io v w u rep.is_volume rep.clean q in
        (
          refl,
          record {
            is_volume = subst (λ t. IsVolume t.0) q (flush-IsVolume io v rep.is_volume);
            clean = unfold Clean in λ j hj c. (all.1.1 j hj).1 ∙ sym (all.1.1 j hj).0;
            bytes = λ p hp. AllDurable-byte_at v w p hp all.1 ∙ rep.bytes p hp;
          },
        )

-- A worker that does not report an error does what a disk does: the reply is the disk's, and the
-- volume stands for the disk after the request.
pub io_task-Represents :
    (io : Faults) (v : Volume) (d : Disk) (req : Request)
    → Represents v d
    → Valid req
    → (io_task io v req).1 ≢ eio
    → Implements (io_task io v req) (disk_task d req)
io_task-Represents io v d (read start n) rep valid fine =
    read-Represents io v d start n rep valid fine
io_task-Represents io v d (write start buf) rep valid fine =
    write-Represents io v d start buf rep valid fine
io_task-Represents io v d flush_all rep valid fine = flush-Represents io v d rep fine
io_task-Represents io v d discard rep valid fine = unfold io_task in (refl, rep)
io_task-Represents io v d unknown rep valid fine = unfold io_task in (refl, rep)

abbrev pub AllValid : List (Faults × Request) → Type 0
AllValid [] = Unit {0}
AllValid ((io, req) ∷ reqs) = Valid req × AllValid reqs

abbrev pub NoError : List Reply → Type 0
NoError [] = Unit {0}
NoError (r ∷ rs) = (r ≢ eio) × NoError rs

-- From a volume that stands for a disk, requests in any order that end below 2 ^ 64 and none of which
-- fails get the replies that the disk gives, and the volume stands for the disk that they leave.
pub serve-Represents :
    (v : Volume) (d : Disk) (reqs : List (Faults × Request))
    → Represents v d
    → AllValid reqs
    → NoError (serve v reqs).1
    → ((serve v reqs).1 ≡ (disk_serve d reqs).1) × Represents (serve v reqs).0 (disk_serve d reqs).0
unfolding serve
serve-Represents v d [] rep valid fine = (refl, rep)
serve-Represents v d ((io, req) ∷ reqs) rep valid fine =
    let first = io_task-Represents io v d req rep valid.0 fine.0 in
    let rest =
      serve-Represents (io_task io v req).0 (disk_task d req).0 reqs first.1 valid.1 fine.1 in
    (
      ap (λ r. r ∷ (serve (io_task io v req).0 reqs).1) first.0
          ∙ ap (λ t. (disk_task d req).1 ∷ t) rest.0,
      rest.1,
    )
