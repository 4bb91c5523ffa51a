-- ===== src/Tests/Volumes.antt =====
-- A volume of four chunks of a kibibyte, and requests to it.
use tikovm.Prelude.{
  show_decimal, remove, ◌≢◌, nat_beq, Bool-cases, ℕ, nat_eq, text_eq, ◌<◌, true, false, Option,
  none, some, List, [], ◌∷◌, Text, replicate, get, insert, ok, err, ◌≡◌, ◌⊎◌, inl, inr, refl, ap,
  sym, subst, arith, u64_mod,
}
use tikovm.Storage.Volume.{
  Volume, VolumeMeta, Faults, panic, other, chunk_path, pop, evict, admit, open_chunk, chunk_fd,
  content, durable_content,
}
use tikovm.Storage.Files.{write_at, read_at}
use tikovm.Storage.Volume.Io.{
  write_chunk, read_chunk, io_round, io_loop, do_io, sync_chunk, flush_group, group_of, groups,
  run_groups, flush, clear_dirty,
}
use tikovm.Storage.Volume.Disk.{byte_at, durable_byte}
use tikovm.Storage.Volume.Invariant.{IsVolume}
use tikovm.Storage.Volume.Opening.{
  fresh, fresh-IsVolume, create_volume, open_volume, create_volume_lem, VolumeDir, GoodGeometry,
  with_meta, new_meta, Refusal,
}
use tikovm.Storage.Volume.Kept.{do_io-IsVolume}
use tikovm.Storage.Volume.Durability.{flush_durable}
use tikovm.Storage.Volume.Progress.{flush-ok}
use tikovm.Storage.Volume.Service.{Quiet, Roomy, do_io-ok}
use tikovm.Storage.Volume.Mishaps.{Clogged, full_cache_panics, flush-loses_write}
use tikovm.Storage.Worker.{
  Request, read, write, flush_all, done, eio, overlay, io_task, serve, disk_serve,
}
use tikovm.Storage.Worker.Refinement.{
  Represents, fresh-Represents, io_task-Represents, NoError, serve-Represents,
}

abbrev quiet_io : Faults
quiet_io = record {
  open_fails = λ i. false;
  write_fails = λ i. none;
  read_fails = λ i. false;
  sync_fails = λ i. false;
}

abbrev small_meta : VolumeMeta
small_meta = record { version = 1; size_bytes = 4096; chunk_size = 1024 }

abbrev blank_volume : Volume
blank_volume = fresh [] small_meta

abbrev sevens : ℕ → Text
sevens n = replicate n 7

-- A write over the border of two chunks, a flush, and a read of what was written.
abbrev requests : List (Faults × Request)
requests = (quiet_io, write 1 (sevens 1024)) ∷ (quiet_io, flush_all) ∷ (quiet_io, read 1 2) ∷ []

replies :
    (serve blank_volume requests).1
    ≡ done 1024 (sevens 1024) ∷ done 0 [] ∷ done 1024 (sevens 1024) ∷ []
unfolding serve io_task do_io io_loop io_round chunk_fd open_chunk admit evict pop write_chunk
    read_chunk write_at read_at content durable_content chunk_path get insert flush run_groups
    flush_group sync_chunk groups group_of show_decimal
replies = refl

no_error : NoError (serve blank_volume requests).1
no_error = subst NoError (sym replies) ((λ p. cc), ((λ p. cc), ((λ p. cc), tt)))

blank_Represents : Represents blank_volume (λ p. 0)
blank_Represents = fresh-Represents [] small_meta refl

serve-Represents_example :
    ((serve blank_volume requests).1 ≡ (disk_serve (λ p. 0) requests).1)
    × Represents (serve blank_volume requests).0 (disk_serve (λ p. 0) requests).0
serve-Represents_example =
    serve-Represents blank_volume (λ p. 0) requests blank_Represents
      (omega arith, (tt, (omega arith, tt))) no_error

blank_IsVolume : IsVolume blank_volume
blank_IsVolume = fresh-IsVolume [] small_meta

do_io-IsVolume_example : IsVolume (do_io quiet_io blank_volume true 512 (sevens 1024)).0
do_io-IsVolume_example =
    do_io-IsVolume quiet_io blank_volume true 512 (sevens 1024) (omega arith) blank_IsVolume

quiet : Quiet quiet_io
quiet = record { opens = λ i. refl; writes = λ i. refl; reads = λ i. refl }

blank_Roomy : Roomy blank_volume 2
blank_Roomy = record { is_volume = blank_IsVolume; unpoisoned = refl; room = omega arith }

do_io-ok_example :
    (s : Text) × ((do_io quiet_io blank_volume true 512 (sevens 1024)).1 ≡ ok (s, 1024))
do_io-ok_example =
    do_io-ok quiet_io blank_volume true 512 (sevens 1024) 2 quiet blank_Roomy (omega arith)
      (omega arith) refl (omega arith)

-- After the write two chunks are dirty.
abbrev used_volume : Volume
used_volume = (io_task quiet_io blank_volume (write 1 (sevens 1024))).0

used_reply : (io_task quiet_io blank_volume (write 1 (sevens 1024))).1 ≡ done 1024 (sevens 1024)
unfolding io_task do_io io_loop io_round chunk_fd open_chunk admit evict pop write_chunk write_at
    content durable_content chunk_path get insert show_decimal
used_reply = refl

used_Represents : Represents used_volume (overlay (λ p. 0) 512 (sevens 1024))
used_Represents =
    (io_task-Represents quiet_io blank_volume (λ p. 0) (write 1 (sevens 1024)) blank_Represents
      (omega arith) (subst (λ r. r ≢ eio) (sym used_reply) (λ p. cc))).1

used_unpoisoned : used_volume.poisoned ≡ false
unfolding io_task do_io io_loop io_round chunk_fd open_chunk admit evict pop write_chunk write_at
    content durable_content chunk_path get insert show_decimal
used_unpoisoned = refl

flush-ok_example : (flush quiet_io used_volume).1 ≡ ok tt
flush-ok_example =
    flush-ok quiet_io used_volume used_Represents.is_volume used_unpoisoned (λ j d. refl)

flush_durable_example :
    ((flush quiet_io used_volume).0.dirty ≡ [])
    × ((p : ℕ)
        → p < u64_mod
        → (byte_at (flush quiet_io used_volume).0 p ≡ byte_at used_volume p)
          × (durable_byte (flush quiet_io used_volume).0 p ≡ byte_at used_volume p))
flush_durable_example =
    flush_durable quiet_io used_volume (flush quiet_io used_volume).0 tt used_Represents.is_volume
      used_Represents.clean (ap (λ r. ((flush quiet_io used_volume).0, r)) flush-ok_example)

-- A cache of one descriptor, which is that of a dirty chunk.
abbrev full_volume : Volume
full_volume = record {
  files = (chunk_path 0, record { written = sevens 512; durable = [] }) ∷ [];
  meta = small_meta;
  fds = record { map = (0, 1) ∷ []; order = (0, 1) ∷ []; next_gen = 1; cap = 1 };
  poisoned = false;
  dirty = (0, tt) ∷ [];
}

full_IsVolume : IsVolume full_volume
unfolding get
full_IsVolume = record {
  cache = record {
    uniq = (refl, tt);
    listed = λ i g h. elim (Bool-cases (nat_beq 0 i)) [
      | inl e ↦ inl (ground (arith, e), ground (arith, h, e))
      | inr e ↦ ground (arith, h, e)
    ];
    below = (omega arith, tt);
  };
  uniq = (refl, tt);
  pinned = λ i h. ground (arith, h);
  range = λ i h. elim (Bool-cases (nat_beq 0 i)) [
    | inl e ↦ ground (arith, e)
    | inr e ↦ ground (arith, h, e)
  ];
}

full_Clogged : Clogged full_volume
unfolding get
full_Clogged = record {
  all_dirty = λ i g h. ground (arith, h);
  full = omega arith;
  brief = omega arith;
}

full_cache_panics_example :
    (w : Volume) × ((do_io quiet_io full_volume true 1024 (sevens 512) ≡ (w, err panic))
      × (do_io quiet_io w false 0 (sevens 512) ≡ (w, err other)))
full_cache_panics_example =
    full_cache_panics quiet_io quiet_io full_volume 1024 0 (sevens 512) (sevens 512) false
      full_IsVolume refl full_Clogged (omega arith) (unfold get in refl) refl (omega arith) refl
      (omega arith) refl

abbrev synced_volume : Volume
synced_volume = (sync_chunk quiet_io full_volume 0).0

synced_reply : (sync_chunk quiet_io full_volume 0).1 ≡ ok tt
unfolding sync_chunk chunk_fd get
synced_reply = refl

abbrev nines : Text
nines = replicate 512 9

abbrev written_volume : Volume
written_volume = (io_round quiet_io synced_volume true 0 0 nines).0

written_reply : (io_round quiet_io synced_volume true 0 0 nines).1 ≡ ok nines
unfolding sync_chunk chunk_fd get insert io_round write_chunk
written_reply = refl

flush-loses_write_example :
    (flush quiet_io (clear_dirty written_volume 0) ≡ (clear_dirty written_volume 0, ok tt))
    × ((content (clear_dirty written_volume 0) 0 ≡ write_at (content full_volume 0) 0 nines)
        × (durable_content (clear_dirty written_volume 0) 0 ≡ content full_volume 0))
flush-loses_write_example =
    flush-loses_write quiet_io quiet_io quiet_io full_volume synced_volume written_volume 0 0 nines
      nines tt (omega arith) (unfold remove in refl) (ap (λ r. (synced_volume, r)) synced_reply)
      (ap (λ r. (written_volume, r)) written_reply)

-- A codec of the three numbers.
abbrev encode : VolumeMeta → Text
encode m = m.version ∷ m.size_bytes ∷ m.chunk_size ∷ []

abbrev decode : Text → Option VolumeMeta
decode (a ∷ b ∷ c ∷ []) = some (record { version = a; size_bytes = b; chunk_size = c })
decode t = none

abbrev new_dir : VolumeDir
new_dir = record { meta_json = none; chunks = [] }

create_volume_lem_example :
    (GoodGeometry encode decode 1048576 65536
      × ((v : Volume) × ((create_volume encode decode new_dir 1048576 65536 true true
              ≡ (with_meta encode decode new_dir (new_meta encode decode 1048576 65536), ok v))
            × ((open_volume encode decode
                    (with_meta encode decode new_dir (new_meta encode decode 1048576 65536))
                  ≡ ok v)
                × ((v.meta ≡ new_meta encode decode 1048576 65536) × (v.files ≡ []))))))
    ⊎ ((¬ GoodGeometry encode decode 1048576 65536)
        × ((e : Refusal) × (create_volume encode decode new_dir 1048576 65536 true true
              ≡ (new_dir, err e))))
create_volume_lem_example = create_volume_lem encode decode new_dir 1048576 65536 (λ m. refl)
