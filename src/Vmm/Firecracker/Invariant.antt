-- ===== src/Vmm/Firecracker/Invariant.antt =====
-- The invariant of the table of VMs, through the parts of an operation.
use tikovm.Prelude.{
  ℕ, true, false, Option, none, some, Text, text_beq, text_beq_iff, Map, get, insert, remove,
  is_some, get-remove, remove_cases, text_eq, ◌≡◌, ◌≢◌, refl, sym, ap, subst, ◌∙◌, ok, arith,
  Option-cases, Bool-cases, inl, inr,
}
use tikovm.Vmm.VmState.{VmState, is_transitional}
use tikovm.Vmm.Instance.{VmInstance}
use tikovm.Error
use tikovm.Vmm.Firecracker.{FirecrackerVmm, FcVmEntry, stop_process, park, take_fc}
use tikovm.Vmm.Firecracker.Steps.{
  Op, Reply, System, done, failed, start, pause, resume, snapshot, restore, state_of, lands_in,
  begin_op, end_op, needs_process, Matches, forget, Wait, calls, kill, runs,
}
use tikovm.Vmm.Firecracker.Frames.{
  SameAt, insert_other, insert_same, end_op-SameAt, stop_process-SameAt, park-SameAt,
}
use tikovm.Vmm.Firecracker.Landing.{Landed, end_op-Landed, park-Landed}
use tikovm.Vmm.Firecracker.Began.{Began, begin_op-Began, begin_from}
use tikovm.Vmm.Firecracker.Gone.{end_op-Gone, stop_process-Gone, park-Gone}

lands_stable : (op : Op) (r : Reply) → is_transitional (lands_in op r) ≡ false
lands_stable start (done pid now) = refl
lands_stable start (failed e now) = refl
lands_stable pause (done pid now) = refl
lands_stable pause (failed e now) = refl
lands_stable resume (done pid now) = refl
lands_stable resume (failed e now) = refl
lands_stable snapshot (done pid now) = refl
lands_stable snapshot (failed e now) = refl
lands_stable restore (done pid now) = refl
lands_stable restore (failed e now) = refl

-- There is a process as what waits on the VM has it, and a snapshot in the states without one.
abbrev pub Equipped : FcVmEntry → VmInstance → Option Wait → Type 0
Equipped e i w =
    (is_some e.fc ≡ runs w i.state) × (needs_process i.state ≡ false → is_some i.snapshot ≡ true)

-- An entry has an instance; the state of the instance says which operation waits on it and, with what
-- that waits for, whether there is a Firecracker process; a suspended VM has a snapshot.
abbrev pub Sound : System → Text → FcVmEntry → VmInstance → Type 0
Sound s vm e i =
    (get vm s.vmm.instances ≡ some i)
    × (Matches (get vm s.waiting) i.state × Equipped e i (get vm s.waiting))

unfoldable pub Inv : System → Type 0
Inv s = (vm : Text) (e : FcVmEntry) → get vm s.vmm.vms ≡ some e → (i : VmInstance) × Sound s vm e i

abbrev value {ℓ} : {A : Type ℓ} → A → Option A → A
value a none = a
value a (some b) = b

pub some_inj {ℓ} : {A : Type ℓ} {a b : A} → some a ≡ some b → a ≡ b
some_inj {a = a} p = ap (value a) p

-- What the invariant says of what waits on the VM.
abbrev Agrees : FcVmEntry → VmInstance → Option Wait → Type 0
Agrees e i w = Matches w i.state × Equipped e i w

-- A state on which nothing, or a call, waits.
plain_runs : (w : Option Wait) (st : VmState) → w ≢ some kill → runs w st ≡ needs_process st
plain_runs none st d = refl
plain_runs (some (calls op)) st d = refl
plain_runs (some kill) st d = absurd (d refl)

by_vm :
    (t : System) (vm : Text)
    → ((e : FcVmEntry) → get vm t.vmm.vms ≡ some e → (i : VmInstance) × Sound t vm e i)
    → ((v : Text) (e : FcVmEntry)
        → vm ≢ v
        → get v t.vmm.vms ≡ some e
        → (i : VmInstance) × Sound t v e i)
    → Inv t
unfolding Inv
by_vm t vm here there v e p = elim (Bool-cases (text_beq vm v)) [
  | inl same ↦
      subst (λ x. (e : FcVmEntry) → get x t.vmm.vms ≡ some e → (i : VmInstance) × Sound t x e i)
        ((text_beq_iff vm v).0 same) here e p
  | inr other ↦ there v e (λ q. ground (arith, other, (text_beq_iff vm v).1 q)) p
]

-- A VM that a step on another VM leaves alone.
untouched :
    (s t : System) (v : Text) (e : FcVmEntry)
    → SameAt v s.vmm t.vmm
    → get v t.waiting ≡ get v s.waiting
    → Inv s
    → get v t.vmm.vms ≡ some e
    → (i : VmInstance) × Sound t v e i
unfolding Inv
untouched s t v e same w inv p =
    let (i, (g, a)) = inv v e (sym same.0 ∙ p) in (i, (same.1 ∙ g, subst (Agrees e i) (sym w) a))

begins_here :
    (s : System) (vm : Text) (op : Op) (f : FirecrackerVmm) (e : FcVmEntry)
    → Began s.vmm vm op f
    → Inv s
    → get vm f.vms ≡ some e
    → (i : VmInstance) × Sound (record { vmm = f; waiting = insert vm (calls op) s.waiting }) vm e i
unfolding Inv
begins_here s vm op f e' (e, (i, (has, (t, q)))) inv p =
    let (i0, (g, (m, (a, b)))) = inv vm e has.0 in
    let i' = record i { state = state_of op } in
    let from = begin_from i.state op t in
    let same_i = some_inj (sym g ∙ has.1) in
    let same_e = some_inj (sym p ∙ ap (λ x. get vm x.vms) q ∙ has.0) in
    let idle : get vm s.waiting ≢ some kill = λ k. absurd (
      ground (
        arith,
        from.0,
        ap (λ x. is_transitional x.state) same_i,
        ap is_transitional (subst (λ o. Matches o i0.state) k m),
      )) in
    (
      i',
      (
        ap (λ x. get vm x.instances) q ∙ insert_same vm i' s.vmm.instances,
        subst (Agrees e' i') (sym (insert_same vm (calls op) s.waiting)) (
          refl,
          (
            ap (λ x. is_some x.fc) same_e
                ∙ a
                ∙ plain_runs (get vm s.waiting) i0.state idle
                ∙ ap (λ x. needs_process x.state) same_i
                ∙ from.1,
            λ z.
                sym (ap (λ x. is_some x.snapshot) same_i)
                ∙ b (ap (λ x. needs_process x.state) same_i ∙ from.1 ∙ z),
          ),
        ),
      ),
    )

Began-SameAt :
    (f f' : FirecrackerVmm) (vm v : Text) (op : Op) → vm ≢ v → Began f vm op f' → SameAt v f f'
Began-SameAt f f' vm v op d (e, (i, (has, (t, q)))) = (
  ap (λ x. get v x.vms) q,
  ap (λ x. get v x.instances) q ∙ insert_other (record i { state = state_of op }) f.instances d,
)

pub begins-Inv :
    (s : System) (vm : Text) (op : Op) (f : FirecrackerVmm)
    → begin_op s.vmm vm op ≡ ok f
    → Inv s
    → Inv (record { vmm = f; waiting = insert vm (calls op) s.waiting })
begins-Inv s vm op f h inv =
    let began = begin_op-Began s.vmm f vm op h in
    by_vm (record { vmm = f; waiting = insert vm (calls op) s.waiting }) vm
      (λ e p. begins_here s vm op f e began inv p)
      (λ v e d p.
        untouched s (record { vmm = f; waiting = insert vm (calls op) s.waiting }) v e
          (Began-SameAt s.vmm f vm v op d began) (insert_other (calls op) s.waiting d) inv p)

remove_other {ℓ} :
    {V : Type ℓ} {v vm : Text} (m : Map Text V) → vm ≢ v → get v (remove vm m) ≡ get v m
remove_other {v = v} {vm = vm} m d = elim (Bool-cases (text_beq vm v)) [
  | inl same ↦ absurd (d ((text_beq_iff vm v).0 same))
  | inr other ↦ ground (arith, other, get-remove vm v m)
]

pub remove_same {ℓ} : {V : Type ℓ} (vm : Text) (m : Map Text V) → get vm (remove vm m) ≡ none
remove_same vm m = ground (arith, get-remove vm vm m, (text_beq_iff vm vm).1 refl)

-- Where an operation has landed, nothing waits.
Landed-Sound :
    (s : System) (vm : Text) (op : Op) (r : Reply) (o : FirecrackerVmm × Error.Result (Unit {0}))
    (e : FcVmEntry)
    → Landed o vm op r
    → get vm o.0.vms ≡ some e
    → (i : VmInstance) × Sound (record { vmm = o.0; waiting = remove vm s.waiting }) vm e i
Landed-Sound s vm op r o e (res, (e1, (i1, (has, (st, (a, b)))))) p =
    let same_e = some_inj (sym p ∙ has.0) in
    (
      i1,
      (
        has.1,
        subst (Agrees e i1) (sym (remove_same vm s.waiting))
            (ap is_transitional st ∙ lands_stable op r, (ap (λ x. is_some x.fc) same_e ∙ a, b)),
      ),
    )

ends_here :
    (s : System) (vm : Text) (op : Op) (r : Reply) (e : FcVmEntry)
    → get vm s.waiting ≡ some (calls op)
    → Inv s
    → get vm (end_op s.vmm vm op r).0.vms ≡ some e
    → (i : VmInstance) × Sound
        (record { vmm = (end_op s.vmm vm op r).0; waiting = remove vm s.waiting })
        vm
        e
        i
unfolding Inv
ends_here s vm op r e h inv p = elim (Option-cases (get vm s.vmm.vms)) [
  | inl n ↦ ground (arith, p, end_op-Gone s.vmm vm op r n)
  | inr (e0, n) ↦
      let (i, (g, a)) = inv vm e0 n in
      Landed-Sound s vm op r (end_op s.vmm vm op r) e
        (end_op-Landed s.vmm vm op r e0 i ((n, g), subst (Agrees e0 i) h a)) p
]

pub ends-Inv :
    (s : System) (vm : Text) (op : Op) (r : Reply)
    → get vm s.waiting ≡ some (calls op)
    → Inv s
    → Inv (record { vmm = (end_op s.vmm vm op r).0; waiting = remove vm s.waiting })
ends-Inv s vm op r h inv =
    let t : System = record { vmm = (end_op s.vmm vm op r).0; waiting = remove vm s.waiting } in
    by_vm t vm (λ e p. ends_here s vm op r e h inv p)
      (λ v e d p.
        untouched s t v e (end_op-SameAt s.vmm vm v op r d) (remove_other s.waiting d) inv p)

kills_here :
    (s : System) (vm : Text) (e : FcVmEntry)
    → get vm s.waiting ≡ some (calls snapshot)
    → Inv s
    → get vm (stop_process s.vmm vm).vms ≡ some e
    → (i : VmInstance) × Sound
        (record { vmm = stop_process s.vmm vm; waiting = insert vm kill s.waiting })
        vm
        e
        i
unfolding Inv stop_process
kills_here s vm e h inv p = elim (Option-cases (get vm s.vmm.vms)) [
  | inl n ↦ ground (arith, p, stop_process-Gone s.vmm vm n)
  | inr (e0, n) ↦
      let (i, (g, a)) = inv vm e0 n in
      let (m, (fc, snap)) = subst (Agrees e0 i) h a in
      let e1 = record e0 { fc = none } in
      let same_e : e ≡ e1 =
        some_inj
          (sym p ∙ ap (λ o. get vm (take_fc o vm s.vmm).vms) n ∙ insert_same vm e1 s.vmm.vms) in
      (
        i,
        (
          ap (λ o. get vm (take_fc o vm s.vmm).instances) n ∙ g,
          subst (Agrees e i) (sym (insert_same vm kill s.waiting))
              (m, (ap (λ x. is_some x.fc) same_e, snap)),
        ),
      )
]

pub kills-Inv :
    (s : System) (vm : Text)
    → get vm s.waiting ≡ some (calls snapshot)
    → Inv s
    → Inv (record { vmm = stop_process s.vmm vm; waiting = insert vm kill s.waiting })
kills-Inv s vm h inv =
    let t : System = record { vmm = stop_process s.vmm vm; waiting = insert vm kill s.waiting } in
    by_vm t vm (λ e p. kills_here s vm e h inv p)
      (λ v e d p.
        untouched s t v e (stop_process-SameAt s.vmm vm v d) (insert_other kill s.waiting d) inv p)

parks_here :
    (s : System) (vm : Text) (now : ℕ) (e : FcVmEntry)
    → get vm s.waiting ≡ some kill
    → Inv s
    → get vm (park s.vmm vm now).0.vms ≡ some e
    → (i : VmInstance) × Sound
        (record { vmm = (park s.vmm vm now).0; waiting = remove vm s.waiting })
        vm
        e
        i
unfolding Inv
parks_here s vm now e h inv p = elim (Option-cases (get vm s.vmm.vms)) [
  | inl n ↦ ground (arith, p, park-Gone s.vmm vm now n)
  | inr (e0, n) ↦
      let (i, (g, a)) = inv vm e0 n in
      let (m, (fc, snap)) = subst (Agrees e0 i) h a in
      Landed-Sound s vm snapshot (done 0 now) (park s.vmm vm now) e
        (park-Landed s.vmm vm e0 i 0 now (n, g) fc m) p
]

pub parks-Inv :
    (s : System) (vm : Text) (now : ℕ)
    → get vm s.waiting ≡ some kill
    → Inv s
    → Inv (record { vmm = (park s.vmm vm now).0; waiting = remove vm s.waiting })
parks-Inv s vm now h inv =
    let t : System = record { vmm = (park s.vmm vm now).0; waiting = remove vm s.waiting } in
    by_vm t vm (λ e p. parks_here s vm now e h inv p)
      (λ v e d p. untouched s t v e (park-SameAt s.vmm vm v now d) (remove_other s.waiting d) inv p)

pub destroys-Inv : (s : System) (vm : Text) → Inv s → Inv (record s { vmm = forget s.vmm vm })
unfolding Inv
destroys-Inv s vm inv v e p = inv v e (remove_cases vm v e s.vmm.vms p).1
