-- ===== src/Storage/Manager/Attaching.antt =====
-- What hostd/src/storage/manager.rs does when a volume cannot be attached.
use tikovm.Prelude.{
  ℕ, nat_eq, text_eq, false, none, [], ◌∷◌, Text, ok, err, ◌≡◌, ◌⊎◌, inl, inr, arith, Bool-cases,
  Option-cases, Result-cases,
}
use tikovm.Error
use tikovm.Storage.Manager.{
  WorkerHandle, Workers, stop_worker, remove_volume, Host, volume_dir_of, attach, Attached,
}

-- What an attach that fails does, in each case.
abbrev pub Refused : Text → Host → Attached → Error.Error → Text → Type 0
Refused vm_id host r gone dir =
    (((host.root_is_dir ≡ false)
        ⊎ (((e : Error.Error) × (host.mkdir ≡ err e))
            ⊎ ((e : Error.Error) × (host.spawned ≡ err e))))
      × (r.1.1 ≡ []))
    ⊎ ((h : WorkerHandle) × ((host.spawned ≡ ok h)
          × (((host.has_meta ≡ false)
                × (((e : Error.Error) × (host.formatted ≡ err e))
                    × (r.1.1 ≡ stop_worker h.dev_id ∷ remove_volume dir ∷ [])))
              ⊎ ((h.child ≡ none) × ((r.1.0 ≡ err gone) × (r.1.1 ≡ []))))))

-- An attach that fails leaves the table of the workers as it was, and one of these holds: the root, the
-- directory or the worker has failed, and nothing is done; the formatting of a new volume has failed,
-- and its device and its directory are removed; the worker has exited, the error is that, and its
-- device and its directory are left behind.
pub attach-Refused :
    (root : Text) (workers : Workers) (vm_id : Text) (project_id : ℕ) (host : Host)
    (no_root gone e : Error.Error)
    → (attach root workers vm_id project_id host no_root gone).1.0 ≡ err e
    → ((attach root workers vm_id project_id host no_root gone).0 ≡ workers)
      × Refused vm_id host
          (attach root workers vm_id project_id host no_root gone)
          gone
          (volume_dir_of root project_id vm_id)
unfolding attach
attach-Refused root workers vm_id project_id host no_root gone e h =
    elim (Bool-cases host.root_is_dir) [
      | inr a ↦ (ground (arith, a), inl (inl a, ground (arith, a)))
      | inl a ↦ elim (Result-cases host.mkdir) [
        | inr (x, b) ↦ (ground (arith, a, b), inl (inr (inl (x, b)), ground (arith, a, b)))
        | inl (u, b) ↦ elim (Result-cases host.spawned) [
          | inr (x, c) ↦ (ground (arith, a, b, c), inl (inr (inr (x, c)), ground (arith, a, b, c)))
          | inl (w, c) ↦ elim (Option-cases w.child) [
            | inr (p, n) ↦ elim (Result-cases host.formatted) [
              | inl (v, f) ↦ ground (arith, a, b, c, n, f, h)
              | inr (x, f) ↦ elim (Bool-cases host.has_meta) [
                | inl m ↦ ground (arith, a, b, c, n, f, m, h)
                | inr m ↦ (
                  ground (arith, a, b, c, f, m),
                  inr (w, (c, inl (m, ((x, f), ground (arith, a, b, c, f, m))))),
                )
              ]
            ]
            | inl n ↦ elim (Result-cases host.formatted) [
              | inl (v, f) ↦ (
                ground (arith, a, b, c, n, f),
                inr (
                  w,
                  (c, inr (n, (ground (arith, a, b, c, n, f), ground (arith, a, b, c, n, f)))),
                ),
              )
              | inr (x, f) ↦ elim (Bool-cases host.has_meta) [
                | inl m ↦ (
                  ground (arith, a, b, c, n, f, m),
                  inr (
                    w,
                    (
                      c,
                      inr (n, (ground (arith, a, b, c, n, f, m), ground (arith, a, b, c, n, f, m))),
                    ),
                  ),
                )
                | inr m ↦ (
                  ground (arith, a, b, c, f, m),
                  inr (w, (c, inl (m, ((x, f), ground (arith, a, b, c, f, m))))),
                )
              ]
            ]
          ]
        ]
      ]
    ]
