-- ===== src/Tests/Workers.antt =====
-- The workers of the volumes: a volume that cannot be formatted, and a worker that keeps exiting.
use tikovm.Prelude.{
  List, text_eq, text_beq, ◌≤◌, true, false, none, some, [], ◌∷◌, Text, bytes, get, ok, err,
  if◌then◌else◌, ◌≡◌, refl,
}
use tikovm.Error.{io}
use tikovm.Storage.Manager.{
  WorkerEntry, WorkerHandle, Workers, Host, attach, volume_dir_of, detach, max_respawns, exited,
  slept, respawned, respawn_failed, watching, backing_off,
}
use tikovm.Storage.Manager.Respawns.{
  Move, step, detached, attached, run_moves, respawn_count, respawn_bounded, WindsDown, is_delayed,
  detach-monitor,
}
use tikovm.Storage.Manager.Attaching.{Refused, attach-Refused}

abbrev vm : Text
vm = bytes "vm-1"

abbrev dir : Text
dir = bytes "/data/proj-7/vm-1"

abbrev handle : WorkerHandle
handle = record { dev_id = 4; dev_path = bytes "/dev/ublkb4"; child = some 900 }

abbrev failing_host : Host
failing_host = record {
  root_is_dir = true;
  has_meta = false;
  mkdir = ok tt;
  spawned = ok handle;
  formatted = err io;
}

attach_fails : (attach (bytes "/data") [] vm 7 failing_host io io).1.0 ≡ err io
unfolding attach volume_dir_of
attach_fails = refl

attach-Refused_example :
    ((attach (bytes "/data") [] vm 7 failing_host io io).0 ≡ [])
    × Refused vm failing_host
        (attach (bytes "/data") [] vm 7 failing_host io io)
        io
        (volume_dir_of (bytes "/data") 7 vm)
attach-Refused_example = attach-Refused (bytes "/data") [] vm 7 failing_host io io io attach_fails

abbrev used : WorkerEntry
used = record { dev_id = 4; pid = 900; volume_dir = dir; respawns = 1 }

abbrev workers : Workers
workers = (vm, used) ∷ []

abbrev other_worker : WorkerEntry
other_worker = record used { dev_id = 5; respawns = 0 }

-- The worker exits and is respawned, exits again and cannot be, and the volume is detached amid the
-- next delay.
abbrev moves : List Move
moves =
    step exited
    ∷ step slept
    ∷ attached (bytes "vm-2") other_worker
    ∷ step (respawned (some 901))
    ∷ step exited
    ∷ step slept
    ∷ step respawn_failed
    ∷ step exited
    ∷ detached vm
    ∷ []

respawn_bounded_example : respawn_count (run_moves vm workers watching moves).1.1 ≤ max_respawns
respawn_bounded_example = respawn_bounded vm workers watching moves

detach-monitor_example :
    WindsDown vm (detach workers vm).0 (backing_off 4 dir)
    × ((respawn_count
            (run_moves vm
              (detach workers vm).0
              (backing_off 4 dir)
              (step slept ∷ step (respawned (some 901)) ∷ [])).1.1
          ≤ is_delayed (backing_off 4 dir))
        × ((other : Text)
            → get other (detach workers vm).0
              ≡ (if text_beq vm other then none else get other workers)))
detach-monitor_example =
    detach-monitor workers vm (backing_off 4 dir) (step slept ∷ step (respawned (some 901)) ∷ [])
