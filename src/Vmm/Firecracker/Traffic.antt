-- ===== src/Vmm/Firecracker/Traffic.antt =====
-- The workloads of the VMs under the requests and the guest's events.
use tikovm.Prelude.{
  ℕ, false, none, some, List, [], ◌∷◌, Text, text_eq, text_beq, text_beq_iff, get, insert,
  get-insert, insert_cases, ◌≡◌, refl, ap, subst, ◌∙◌, arith, bytes, ok, err, Bool-cases,
  Option-cases, inl, inr,
}
use tikovm.Error
use tikovm.Error.{workload_not_found}
use tikovm.Vmm.Workload.{Workload, is_active}
use tikovm.Vmm.Workload.History.{
  Event, IsConsistent, apply-IsConsistent, started, finished, refused, apply,
}
use tikovm.Vmm.Firecracker.{FirecrackerVmm, FcVmEntry, find_entry}
use tikovm.Vmm.Firecracker.Workloads.{
  with_workload, get_workload, begin_stop, sent_stop, request_stop, withdraw_stop, GuestEvent, Info,
  started_in_guest, output, exited_in_guest, guest_error, list_result, idle, handle_guest_event,
  settle, settle_all,
}

-- Each workload of each VM is consistent.
abbrev pub AllConsistent : FirecrackerVmm → Type 0
AllConsistent f =
    (vm wid : Text) (e : FcVmEntry) (w : Workload)
    → get vm f.vms ≡ some e
    → get wid e.workloads ≡ some w
    → IsConsistent w

with_workload-AllConsistent :
    (f : FirecrackerVmm) (vm wid : Text) (g : Workload → Workload)
    → ((w : Workload) → IsConsistent w → IsConsistent (g w))
    → AllConsistent f
    → AllConsistent (with_workload f vm wid g)
unfolding with_workload
with_workload-AllConsistent f vm wid g keep all v j e w h k = elim (Option-cases (get vm f.vms)) [
  | inl n ↦ all v j e w (ground (arith, n, h)) k
  | inr (e0, n) ↦ elim (Option-cases (get wid e0.workloads)) [
    | inl m ↦ all v j e w (ground (arith, n, m, h)) k
    | inr (w0, m) ↦
        let new_entry : FcVmEntry = record e0 { workloads = insert wid (g w0) e0.workloads } in
        let placed : get v (insert vm new_entry f.vms) ≡ some e = ground (arith, n, m, h) in
        elim (insert_cases vm v new_entry e f.vms placed) [
          | inr (d, old) ↦ all v j e w old k
          | inl (same, new) ↦
              let here : get j (insert wid (g w0) e0.workloads) ≡ some w =
                ap (λ x. get j x.workloads) new ∙ k in
              elim (insert_cases wid j (g w0) w e0.workloads here) [
                | inl (same, q) ↦ subst IsConsistent q (keep w0 (all vm wid e0 w0 n m))
                | inr (d, old) ↦ all vm j e0 w n old
              ]
        ]
  ]
]

apply_to :
    (f : FirecrackerVmm) (vm wid : Text) (e : Workload → Event)
    → AllConsistent f
    → AllConsistent (with_workload f vm wid (λ w. apply w (e w)))
apply_to f vm wid e all =
    with_workload-AllConsistent f vm wid (λ w. apply w (e w)) (λ w v. apply-IsConsistent w (e w) v)
      all

settle-IsConsistent :
    (info : Info) (now : ℕ) (w : Workload) → IsConsistent w → IsConsistent (settle info now w)
unfolding apply
settle-IsConsistent info now w v = elim (Bool-cases (text_beq info.state (bytes "running"))) [
  | inl r ↦ rw r (apply-IsConsistent w (started none now) v)
  | inr r ↦ elim (Bool-cases (text_beq info.state (bytes "exited"))) [
    | inl x ↦ rw (r, x) (apply-IsConsistent w (finished info.exit_code info.signal now) v)
    | inr x ↦ rw (r, x) v
  ]
]

settle_all-AllConsistent :
    (f : FirecrackerVmm) (vm : Text) (infos : List Info) (now : ℕ)
    → AllConsistent f
    → AllConsistent (settle_all f vm infos now)
settle_all-AllConsistent f vm [] now all = all
settle_all-AllConsistent f vm (info ∷ infos) now all =
    settle_all-AllConsistent (with_workload f vm info.workload_id (settle info now)) vm infos now (
      with_workload-AllConsistent f vm info.workload_id (settle info now)
        (settle-IsConsistent info now) all)

-- Whatever event the guest sends, the workloads of all VMs stay consistent: one that is active has no
-- finishing time, exit code or signal, and one that is not has a finishing time.
pub handle_guest_event-AllConsistent :
    (f : FirecrackerVmm) (vm : Text) (event : GuestEvent) (now : ℕ)
    → AllConsistent f
    → AllConsistent (handle_guest_event f vm event now)
unfolding handle_guest_event apply
handle_guest_event-AllConsistent f vm (started_in_guest wid pid) now all =
    apply_to f vm wid (λ w. started (some pid) now) all
handle_guest_event-AllConsistent f vm (output wid) now all = all
handle_guest_event-AllConsistent f vm (exited_in_guest wid code signal) now all =
    apply_to f vm wid (λ w. finished code signal now) all
handle_guest_event-AllConsistent f vm (guest_error none) now all = all
handle_guest_event-AllConsistent f vm (guest_error (some wid)) now all =
    apply_to f vm wid (λ w. refused now) all
handle_guest_event-AllConsistent f vm (list_result infos) now all =
    settle_all-AllConsistent f vm infos now all
handle_guest_event-AllConsistent f vm idle now all = all

-- The workload after the two halves of a stop.
get-with_workload :
    (f : FirecrackerVmm) (vm wid : Text) (g : Workload → Workload) (w : Workload)
    → get_workload f vm wid ≡ ok w
    → get_workload (with_workload f vm wid g) vm wid ≡ ok (g w)
unfolding get_workload with_workload find_entry
get-with_workload f vm wid g w h = elim (Option-cases (get vm f.vms)) [
  | inl n ↦ ground (arith, n, h)
  | inr (e, n) ↦ elim (Option-cases (get wid e.workloads)) [
    | inl m ↦ ground (arith, n, m, h)
    | inr (w0, m) ↦
        let e' : FcVmEntry = record e { workloads = insert wid (g w0) e.workloads } in
        ground (
          arith,
          n,
          m,
          h,
          get-insert vm vm e' f.vms,
          get-insert wid wid (g w0) e.workloads,
          (text_beq_iff vm vm).1 refl,
          (text_beq_iff wid wid).1 refl,
        )
  ]
]

-- A stop whose request cannot be sent returns the error, and leaves the workload as it was but for its
-- stop request, which is taken back even where it had been made by an earlier stop.
pub stop_withdrawn :
    (f g : FirecrackerVmm) (vm wid : Text) (w : Workload) (e : Error.Error)
    → get_workload f vm wid ≡ ok w
    → begin_stop f vm wid ≡ ok g
    → ((sent_stop g vm wid (err e)).1 ≡ err e)
      × (get_workload (sent_stop g vm wid (err e)).0 vm wid
          ≡ ok (record w { stop_requested = false }))
unfolding begin_stop sent_stop
stop_withdrawn f g vm wid w e h b = elim (Bool-cases (is_active w)) [
  | inr done ↦ ground (arith, h, b, done)
  | inl active ↦
      let began : with_workload f vm wid request_stop ≡ g = ground (arith, h, b, active) in
      (
        refl,
        get-with_workload g vm wid withdraw_stop (request_stop w) (
            subst (λ x. get_workload x vm wid ≡ ok (request_stop w)) began
              (get-with_workload f vm wid request_stop w h)),
      )
]
