-- ===== src/Vmm/Firecracker/Registry.antt =====
-- What creating and destroying a VM leave in the table.
use tikovm.Prelude.{
  ◌⊎◌, ℕ, ◌+◌, ◌%◌, ◌^◌, ◌≤◌, Bool, true, false, is_some, Option, none, some, [], Text, text_eq,
  insert, ◌≡◌, ◌≢◌, refl, ap, subst, ◌∙◌, arith, ok, err, Option-cases, Result-cases, inl, inr,
}
use tikovm.Error
use tikovm.Net.State.{NetState}
use tikovm.Net.Types.{VmNet, for_vm}
use tikovm.Net.Manager.{HostCall, NetworkManager, allocate}
use tikovm.Vmm.VmState.{created, creating, can_transition_to}
use tikovm.Vmm.Config.{
  VmMode, ephemeral, VmConfig, rootfs_file, permanent, schedule, BlockStorageConfig,
}
use tikovm.Vmm.Instance.{VmInstance, new, transition}
use tikovm.Vmm.Firecracker.{FirecrackerVmm, FcVmEntry}
use tikovm.Vmm.Firecracker.Create.{
  Answers, validate, image_defaults, create_vm, register, roll_back_create, new_entry, networked,
  made_dir, attached, booted, attach_volume, boot, log,
}

schedule-cases : (m : VmMode) → (m ≡ schedule) ⊎ (m ≢ schedule)
schedule-cases schedule = inl refl
schedule-cases ephemeral = inr (λ p. cc)
schedule-cases permanent = inr (λ p. cc)

-- A configuration that passes asks for an automatic suspension only of a permanent VM, gives a
-- scheduled VM, and no other, a command and a schedule that the cron library reads, and asks for a
-- volume of 128 MiB or more.
pub validate_lem :
    (cron_ok : Text → Bool) (c : VmConfig)
    → validate cron_ok c ≡ ok tt
    → ((c.auto_suspend ≡ none) ⊎ (c.mode ≡ permanent))
      × ((((c.mode ≡ schedule)
              × ((c.cmd ≢ [])
                  × ((expr : Text) × ((c.cron_schedule ≡ some expr) × (cron_ok expr ≡ true)))))
            ⊎ ((c.mode ≢ schedule) × ((c.cron_schedule ≡ none) × (c.timeout_secs ≡ none))))
          × ((c.block_storage ≡ none)
              ⊎ ((bs : BlockStorageConfig) × ((c.block_storage ≡ some bs) × (128 ≤ bs.size_mb)))))
unfolding validate
validate_lem cron_ok c h = (suspends, (mode, volume))
  where
    suspends : (c.auto_suspend ≡ none) ⊎ (c.mode ≡ permanent)
    suspends = elim (Option-cases c.auto_suspend) [
      | inl n ↦ inl n
      | inr (a, n) ↦ inr (ground (arith, h, n))
    ]

    volume :
        (c.block_storage ≡ none)
        ⊎ ((bs : BlockStorageConfig) × ((c.block_storage ≡ some bs) × (128 ≤ bs.size_mb)))
    volume = elim (Option-cases c.block_storage) [
      | inl n ↦ inl n
      | inr (bs, n) ↦ inr (bs, (n, ground (arith, h, n)))
    ]

    scheduled :
        c.mode ≡ schedule → (expr : Text) × ((c.cron_schedule ≡ some expr) × (cron_ok expr ≡ true))
    scheduled p = elim (Option-cases c.cron_schedule) [
      | inl n ↦ ground (arith, h, p, n)
      | inr (expr, n) ↦ (expr, (n, ground (arith, h, p, n)))
    ]

    mode :
        ((c.mode ≡ schedule)
          × ((c.cmd ≢ [])
              × ((expr : Text) × ((c.cron_schedule ≡ some expr) × (cron_ok expr ≡ true)))))
        ⊎ ((c.mode ≢ schedule) × ((c.cron_schedule ≡ none) × (c.timeout_secs ≡ none)))
    mode = elim (schedule-cases c.mode) [
      | inl p ↦ inl (p, (λ q. ground (arith, h, p, q), scheduled p))
      | inr p ↦ inr (p, ground (arith, h, p))
    ]

module _ (host : HostCall → Error.Result (Unit {0}))
    (write_file : NetState → Error.Result (Unit {0})) where
  -- The table of the old state with the VM that was created, if one was.
  abbrev pub Registered : FirecrackerVmm → FirecrackerVmm → Text → Type 0
  Registered f g id =
      (e : FcVmEntry) × ((i : VmInstance) × ((g.vms ≡ insert id e f.vms)
          × ((g.instances ≡ insert id i f.instances)
              × ((i.state ≡ created) × (is_some e.fc ≡ true)))))

  abbrev pub Ended : FirecrackerVmm → FirecrackerVmm × Error.Result Text → Text → Type 0
  Ended f (g, ok r) id = (r ≡ id) × Registered f g id
  Ended f (g, err e) id = (g.vms ≡ f.vms) × (g.instances ≡ f.instances)

  log-same :
      (b c : Bool) (f : FirecrackerVmm) (id : Text)
      → ((log b f id c).vms ≡ f.vms) × ((log b f id c).instances ≡ f.instances)
  log-same false c f id = (refl, refl)
  log-same true true f id = (refl, refl)
  log-same true false f id = (refl, refl)

  rolled_back-Ended :
      (f : FirecrackerVmm) (id : Text) (device : Option Text) (e : Error.Error)
      → Ended f (roll_back_create host write_file f id device e) id
  unfolding roll_back_create
  rolled_back-Ended f id device e = log-same (is_some device) false f id

  register-Ended :
      (f : FirecrackerVmm) (i : VmInstance) (pid : ℕ)
      → i.state ≡ creating
      → Ended f (register f i pid) i.vm_id
  unfolding register transition can_transition_to
  register-Ended f i pid c =
      rw (c, register, transition)
        (
          refl,
          (
            record (new_entry i) { fc = some pid },
            (record i { state = created }, (refl, (refl, (refl, refl)))),
          ),
        )

  booted-Ended :
      (f : FirecrackerVmm) (i : VmInstance) (device : Option Text) (r : Error.Result ℕ)
      → i.state ≡ creating
      → Ended f (booted host write_file f i device r) i.vm_id
  booted-Ended f i device (err e) c = rolled_back-Ended f i.vm_id device e
  booted-Ended f i device (ok pid) c = register-Ended f (record i { block_device = device }) pid c

  same-Ended :
      (f g : FirecrackerVmm) (o : FirecrackerVmm × Error.Result Text) (id : Text)
      → g.vms ≡ f.vms
      → g.instances ≡ f.instances
      → Ended g o id
      → Ended f o id
  same-Ended f g (h, err e) id p q (a, b) = (a ∙ p, b ∙ q)
  same-Ended f g (h, ok r) id p q (a, (e, (i, (v, (j, rest))))) =
      (a, (e, (i, (v ∙ ap (insert id e) p, (j ∙ ap (insert id i) q, rest)))))

  attached-Ended :
      (f : FirecrackerVmm) (i : VmInstance) (a : Answers) (r : Error.Result (Option Text))
      → i.state ≡ creating
      → Ended f (attached host write_file f i a r) i.vm_id
  attached-Ended f i a (err e) c = rolled_back-Ended f i.vm_id none e
  attached-Ended f i a (ok device) c =
      let same = log-same (is_some device) true f i.vm_id in
      let g = log (is_some device) f i.vm_id true in
      same-Ended f g (booted host write_file g i device (boot a)) i.vm_id same.0 same.1
        (booted-Ended g i device (boot a) c)

  networked-Ended :
      (f : FirecrackerVmm) (i : VmInstance) (a : Answers) (r : NetworkManager × Error.Result VmNet)
      → i.state ≡ creating
      → Ended f (networked host write_file f i a r) i.vm_id
  networked-Ended f i a (m, err e) c = (refl, refl)
  networked-Ended f i a (m, ok vm_net) c =
      let g : FirecrackerVmm = record f { net_mgr = m; next_cid = (f.next_cid + 1) % 2 ^ 32 } in
      let j : VmInstance = record i { net = some vm_net; guest_cid = some f.next_cid } in
      same-Ended f g (attached host write_file g j a (attach_volume i.vm_config.block_storage a))
        i.vm_id refl refl (attached-Ended g j a (attach_volume i.vm_config.block_storage a) c)

  made_dir-Ended :
      (f : FirecrackerVmm) (i : VmInstance) (a : Answers) (r : Error.Result (Unit {0}))
      → i.state ≡ creating
      → Ended f (made_dir host write_file f i a r) i.vm_id
  made_dir-Ended f i a (err e) c = (refl, refl)
  made_dir-Ended f i a (ok u) c =
      networked-Ended f i a
        (allocate host write_file f.net_mgr i.vm_config.project_id i.vm_id (for_vm i.vm_id)) c

  new-creating :
      (id : Text) (c : VmConfig) (assets dir : Text) (now : ℕ) (i : VmInstance)
      → new id c assets dir now ≡ ok i
      → (i.state ≡ creating) × (i.vm_id ≡ id)
  unfolding new
  new-creating id c assets dir now i h = elim (Result-cases (rootfs_file c)) [
    | inl (x, n) ↦ ground (arith, n, h)
    | inr (x, n) ↦ ground (arith, n, h)
  ]

  -- Creating a VM either returns an error and leaves the tables of VMs and instances as they were, or
  -- returns the new identifier, with one more entry that has a process, and its instance in the state
  -- `Created`.
  pub create_vm-Ended :
      (cron_ok : Text → Bool) (f : FirecrackerVmm) (c : VmConfig) (a : Answers)
      → Ended f (create_vm host write_file cron_ok f c a) a.vm_id
  unfolding create_vm
  create_vm-Ended cron_ok f c a = elim (Result-cases (validate cron_ok c)) [
    | inr (e, n) ↦ rw (n, create_vm) (refl, refl)
    | inl (u, n) ↦
        elim (Result-cases (new a.vm_id (image_defaults c) f.assets_dir f.work_dir a.now)) [
          | inr (e, m) ↦ rw (n, create_vm, m) (refl, refl)
          | inl (i, m) ↦
              let (st, id) =
                new-creating a.vm_id (image_defaults c) f.assets_dir f.work_dir a.now i m in
              rw (n, create_vm, m)
                (subst (λ x. Ended f (made_dir host write_file f i a a.mkdir) x) id
                  (made_dir-Ended f i a a.mkdir st))
        ]
  ]
