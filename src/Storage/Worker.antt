-- ===== src/Storage/Worker.antt =====
-- hostd/src/storage/ublk_worker.rs: the requests of the kernel that a worker serves on its volume.
pub mod Refinement
use tikovm.Prelude.{
  ℕ, zero, suc, ◌+◌, ◌-◌, ◌*◌, Bool, true, false, ◌&&◌, List, [], ◌∷◌, Text, ltb, leb,
  if◌then◌else◌, length, get_or, replicate, Result, ok, err,
}
use tikovm.Storage.Volume.{Volume, Faults, Fault}
use tikovm.Storage.Volume.Io.{do_io, flush}

-- The operation of a descriptor, with the sector it starts at; a read with its count of sectors, a
-- write with the bytes of its buffer.
pub data Request : Type 0 where
  read : ℕ → ℕ → Request
  write : ℕ → Text → Request
  flush_all discard unknown : Request

-- What is committed: a count with the buffer, `-EIO` or `-EOPNOTSUPP`.
pub data Reply : Type 0 where
  done : ℕ → Text → Reply
  eio eopnotsupp : Reply

abbrev pub sector : ℕ
sector = 512

abbrev pub io_reply : Volume × Result Fault (Text × ℕ) → Volume × Reply
io_reply (v, ok (buf, n)) = (v, done n buf)
io_reply (v, err e) = (v, eio)

abbrev pub flush_reply : Volume × Result Fault (Unit {0}) → Volume × Reply
flush_reply (v, ok u) = (v, done 0 [])
flush_reply (v, err e) = (v, eio)

-- One pass of the loop of `io_task`. Discarding does nothing.
unfoldable pub io_task : Faults → Volume → Request → Volume × Reply
io_task io v (read start n) =
    io_reply (do_io io v false (start * sector) (replicate (n * sector) 0))
io_task io v (write start buf) = io_reply (do_io io v true (start * sector) buf)
io_task io v flush_all = flush_reply (flush io v)
io_task io v discard = (v, done 0 [])
io_task io v unknown = (v, eopnotsupp)

-- The requests one after the other, each with the outcomes of its system calls.
unfoldable pub serve : Volume → List (Faults × Request) → Volume × List Reply
serve v [] = (v, [])
serve v ((io, req) ∷ reqs) =
    let first = io_task io v req in let rest = serve first.0 reqs in (rest.0, first.1 ∷ rest.1)

-- What a disk promises: its bytes by their offsets, of which a request reads or overwrites some.
abbrev pub Disk : Type 0
Disk = ℕ → ℕ

abbrev pub overlay : Disk → ℕ → Text → Disk
overlay d off buf p = if leb off p && ltb p (off + length buf) then get_or buf (p - off) 0 else d p

abbrev pub bytes_from : Disk → ℕ → ℕ → Text
bytes_from d off zero = []
bytes_from d off (suc n) = d off ∷ bytes_from d (suc off) n

abbrev pub disk_task : Disk → Request → Disk × Reply
disk_task d (read start n) = (d, done (n * sector) (bytes_from d (start * sector) (n * sector)))
disk_task d (write start buf) = (overlay d (start * sector) buf, done (length buf) buf)
disk_task d flush_all = (d, done 0 [])
disk_task d discard = (d, done 0 [])
disk_task d unknown = (d, eopnotsupp)

abbrev pub disk_serve : Disk → List (Faults × Request) → Disk × List Reply
disk_serve d [] = (d, [])
disk_serve d ((io, req) ∷ reqs) =
    let first = disk_task d req in let rest = disk_serve first.0 reqs in (rest.0, first.1 ∷ rest.1)
