-- ===== src/Vmm/Firecracker/Schedule/Locks.antt =====
-- The locks of the runs of hostd/src/vmm/firecracker/schedule.rs.
use tikovm.Prelude.{
  ℕ, nat_eq, text_eq, ◌+◌, ◌<◌, Bool, true, false, Option, none, some, Text, text_beq, nat_beq,
  text_beq_iff, Map, get, insert, contains_key, get-insert, insert_cases, ◌≡◌, ◌⊎◌, inl, inr, refl,
  ap, sym, subst, ◌∙◌, arith, Bool-cases, Option-cases,
}
use tikovm.Vmm.Firecracker.Schedule.{ScheduleRunLocks, lock_for, try_lock, spawn_scheduled_run}

-- No two VMs share a lock, and no lock is named by the next name.
pub record IsLocks (l : ScheduleRunLocks) : Type 0 where
  pub apart : (a b : Text) (id : ℕ) → get a l.locks ≡ some id → get b l.locks ≡ some id → a ≡ b
  pub named : (a : Text) (id : ℕ) → get a l.locks ≡ some id → id < l.next
  pub held_named : (id : ℕ) → contains_key id l.held ≡ true → id < l.next

abbrev held_by : Option ℕ → Map ℕ (Unit {0}) → Bool
held_by none held = false
held_by (some id) held = contains_key id held

-- A run of the VM is in progress.
abbrev pub running : ScheduleRunLocks → Text → Bool
running l vm_id = held_by (get vm_id l.locks) l.held

pub lock_for-IsLocks :
    (l : ScheduleRunLocks) (vm_id : Text) → IsLocks l → IsLocks (lock_for l vm_id).0
unfolding lock_for
lock_for-IsLocks l vm_id is = elim (Option-cases (get vm_id l.locks)) [
  | inr (id, e) ↦ rw (e, lock_for) is
  | inl e ↦
      rw (e, lock_for)
        (record {
          apart = λ a b id p q. elim (insert_cases vm_id a l.next id l.locks p) [
            | inl x ↦ elim (insert_cases vm_id b l.next id l.locks q) [
              | inl y ↦ sym x.0 ∙ y.0
              | inr y ↦ absurd (omega (arith, x.1, is.named b id y.1))
            ]
            | inr x ↦ elim (insert_cases vm_id b l.next id l.locks q) [
              | inl y ↦ absurd (omega (arith, y.1, is.named a id x.1))
              | inr y ↦ is.apart a b id x.1 y.1
            ]
          ];
          named = λ a id p. elim (insert_cases vm_id a l.next id l.locks p) [
            | inl x ↦ omega (arith, x.1)
            | inr x ↦ omega (arith, is.named a id x.1)
          ];
          held_named = λ id p. omega (arith, is.held_named id p);
        })
]

-- The fire is skipped, and nothing has changed.
abbrev pub Skipped : ScheduleRunLocks → Text → ScheduleRunLocks × Option ℕ → Type 0
Skipped l vm_id r = (running l vm_id ≡ true) × (r ≡ (l, none))

-- A run starts, and the other VMs are left alone.
abbrev pub Begun : ScheduleRunLocks → Text → ScheduleRunLocks × Option ℕ → Type 0
Begun l vm_id r =
    (running l vm_id ≡ false)
    × (((id : ℕ) × ((r.1 ≡ some id) × (get vm_id r.0.locks ≡ some id)))
        × ((running r.0 vm_id ≡ true)
            × ((other : Text) → (other ≡ vm_id) ⊎ (running r.0 other ≡ running l other))))

hold : ScheduleRunLocks → ℕ → ScheduleRunLocks
hold l id = record l { held = insert id tt l.held }

-- Holding a lock of one VM does not touch another's.
hold-running :
    (l : ScheduleRunLocks) (vm_id other : Text) (id : ℕ)
    → IsLocks l
    → get vm_id l.locks ≡ some id
    → (other ≡ vm_id) ⊎ (running (hold l id) other ≡ running l other)
unfolding hold
hold-running l vm_id other id is h = go (get other l.locks) refl
  where
    go :
        (o : Option ℕ)
        → get other l.locks ≡ o
        → (other ≡ vm_id)
          ⊎ (held_by (get other l.locks) (insert id tt l.held) ≡ held_by (get other l.locks) l.held)
    go none e = inr (ground (arith, e))
    go (some k) e = elim (Bool-cases (nat_beq id k)) [
      | inl q ↦ inl (is.apart other vm_id id (e ∙ ap some (sym ((nat_eq.decides id k).0 q))) h)
      | inr q ↦ inr (ground (arith, e, get-insert id k tt l.held, q))
    ]

-- A lock that exists is taken if it is free.
taken :
    (l : ScheduleRunLocks) (vm_id : Text) (id : ℕ)
    → IsLocks l
    → get vm_id l.locks ≡ some id
    → Skipped l vm_id (try_lock (l, id)) ⊎ Begun l vm_id (try_lock (l, id))
unfolding hold
taken l vm_id id is h = elim (Bool-cases (contains_key id l.held)) [
  | inl q ↦ inl (ground (arith, h, q), rw q refl)
  | inr q ↦ inr (
      rw q (
        ground (arith, h, q),
        (
          (id, (refl, h)),
          (
            ground (arith, h, get-insert id id tt l.held),
            λ other. hold-running l vm_id other id is h,
          ),
        ),
      ))
]

-- The locks with a new one.
abbrev named_lock : ScheduleRunLocks → Text → ScheduleRunLocks
named_lock l vm_id = record l { locks = insert vm_id l.next l.locks; next = l.next + 1 }

lock_for_cases :
    (l : ScheduleRunLocks) (vm_id : Text)
    → ((id : ℕ) × ((get vm_id l.locks ≡ some id) × (lock_for l vm_id ≡ (l, id))))
      ⊎ ((get vm_id l.locks ≡ none) × (lock_for l vm_id ≡ (named_lock l vm_id, l.next)))
unfolding lock_for
lock_for_cases l vm_id = elim (Option-cases (get vm_id l.locks)) [
  | inr (id, e) ↦ inl (id, (e, ground (arith, e)))
  | inl e ↦ inr (e, ground (arith, e))
]

-- The runs are the same with a lock that nobody holds.
named_lock-running :
    (l : ScheduleRunLocks) (vm_id other : Text)
    → IsLocks l
    → get vm_id l.locks ≡ none
    → running (named_lock l vm_id) other ≡ running l other
named_lock-running l vm_id other is h = elim (Bool-cases (text_beq vm_id other)) [
  | inr q ↦ ground (arith, get-insert vm_id other l.next l.locks, q)
  | inl q ↦ elim (Bool-cases (contains_key l.next l.held)) [
    | inl c ↦ absurd (omega (arith, is.held_named l.next c))
    | inr c ↦
        let e : get other l.locks ≡ none =
          ap (λ t. get t l.locks) (sym ((text_eq.decides vm_id other).0 q)) ∙ h in
        ground (arith, get-insert vm_id other l.next l.locks, q, e, c)
  ]
]

of_named :
    (l : ScheduleRunLocks) (vm_id : Text) (r : ScheduleRunLocks × Option ℕ)
    → IsLocks l
    → get vm_id l.locks ≡ none
    → Skipped (named_lock l vm_id) vm_id r ⊎ Begun (named_lock l vm_id) vm_id r
    → Skipped l vm_id r ⊎ Begun l vm_id r
of_named l vm_id r is h (inl (q, e)) =
    let p = named_lock-running l vm_id vm_id is h in ground (arith, h, p, q)
of_named l vm_id r is h (inr (q, (a, (b, c)))) = inr (
  sym (named_lock-running l vm_id vm_id is h) ∙ q,
  (
    a,
    (
      b,
      λ other. elim (c other) [
        | inl e ↦ inl e
        | inr e ↦ inr (e ∙ named_lock-running l vm_id other is h)
      ],
    ),
  ),
)

-- A fire of a VM whose run is in progress is skipped, and changes nothing; any other fire starts a
-- run, and leaves the runs of the other VMs alone.
pub spawn_scheduled_run_lem :
    (l : ScheduleRunLocks) (vm_id : Text)
    → IsLocks l
    → Skipped l vm_id (spawn_scheduled_run l vm_id) ⊎ Begun l vm_id (spawn_scheduled_run l vm_id)
unfolding spawn_scheduled_run
spawn_scheduled_run_lem l vm_id is = elim (lock_for_cases l vm_id) [
  | inl (id, (h, e)) ↦
      subst (λ t. Skipped l vm_id (try_lock t) ⊎ Begun l vm_id (try_lock t)) (sym e)
        (taken l vm_id id is h)
  | inr (h, e) ↦
      let l' = named_lock l vm_id in
      let is' : IsLocks l' = subst (λ t. IsLocks t.0) e (lock_for-IsLocks l vm_id is) in
      let here : get vm_id l'.locks ≡ some l.next =
        ground (arith, get-insert vm_id vm_id l.next l.locks, text_beq_iff vm_id vm_id) in
      subst (λ t. Skipped l vm_id (try_lock t) ⊎ Begun l vm_id (try_lock t)) (sym e)
        (of_named l vm_id (try_lock (l', l.next)) is h (taken l' vm_id l.next is' here))
]
