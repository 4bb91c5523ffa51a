-- ===== src/Vmtop/View/Refreshes.antt =====
-- A poll and the selection of vmtop/src/view.rs.
use tikovm.Prelude.{
  ℕ, suc, text_eq, ◌<◌, Bool, true, ◌||◌, some, List, [], ◌∷◌, Text, is_empty, length, ◌≡◌, ◌⊎◌,
  inl, inr, refl, sym, ap, subst, ◌∙◌, arith, Bool-cases,
}
use tikovm.Vmtop.Model.{Vm, matches}
use tikovm.Vmtop.View.{
  RowId, group, vm, View, SortOrder, in_order, insert_vm, sort_vms, filter_vms, nth_vm, vm_rows,
  is_row_of, has_id, position_of,
}
use tikovm.Vmtop.View.Moves.{
  pinned_row, wanted_row, selected_vm, vm_at, vm_of_row, nth_row, repin_selection, laid_out,
  visible, rebuild, update,
}
use tikovm.Vmtop.View.Rows.{ShowsRow, Lays}
use tikovm.Vmtop.View.Selection.{ShowsRow-vm_rows, position_of-Finds}
use tikovm.Vmtop.View.Keys.{laid_out-Lays}

-- The VM is in the list.
abbrev pub InPoll : Vm → List Vm → Type 0
InPoll x [] = ⊥
InPoll x (v ∷ vs) = (x ≡ v) ⊎ InPoll x vs

insert_vm-new : (order : SortOrder) (x : Vm) (vs : List Vm) → InPoll x (insert_vm order x vs)
unfolding insert_vm
insert_vm-new order x [] = inl refl
insert_vm-new order x (v ∷ vs) = elim (Bool-cases (in_order order x v)) [
  | inl e ↦ rw e (inl refl)
  | inr e ↦ rw e (inr (insert_vm-new order x vs))
]

insert_vm-old :
    (order : SortOrder) (x y : Vm) (vs : List Vm) → InPoll y vs → InPoll y (insert_vm order x vs)
unfolding insert_vm
insert_vm-old order x y [] h = elim h [ ]
insert_vm-old order x y (v ∷ vs) h = elim (Bool-cases (in_order order x v)) [
  | inl e ↦ rw e (inr h)
  | inr e ↦ rw e (elim h [ inl a ↦ inl a | inr b ↦ inr (insert_vm-old order x y vs b) ])
]

pub sort_vms-InPoll :
    (order : SortOrder) (x : Vm) (vs : List Vm) → InPoll x vs → InPoll x (sort_vms order vs)
unfolding sort_vms
sort_vms-InPoll order x [] h = h
sort_vms-InPoll order x (v ∷ vs) (inl e) =
    subst (λ t. InPoll t (insert_vm order v (sort_vms order vs))) (sym e)
      (insert_vm-new order v (sort_vms order vs))
sort_vms-InPoll order x (v ∷ vs) (inr h) =
    insert_vm-old order v x (sort_vms order vs) (sort_vms-InPoll order x vs h)

pub filter_vms-InPoll :
    (keep : Vm → Bool) (x : Vm) (vs : List Vm)
    → InPoll x vs
    → keep x ≡ true
    → InPoll x (filter_vms keep vs)
unfolding filter_vms
filter_vms-InPoll keep x [] h k = h
filter_vms-InPoll keep x (v ∷ vs) h k = elim (Bool-cases (keep v)) [
  | inl e ↦ rw e (elim h [ inl a ↦ inl a | inr b ↦ inr (filter_vms-InPoll keep x vs b k) ])
  | inr e ↦ rw e (elim h [ inl a ↦ cc (e, k, ap keep a) | inr b ↦ filter_vms-InPoll keep x vs b k ])
]

InPoll-nth_vm :
    (x : Vm) (vs : List Vm) → InPoll x vs → (i : ℕ) × ((i < length vs) × (nth_vm vs i ≡ some x))
unfolding nth_vm
InPoll-nth_vm x [] h = elim h [ ]
InPoll-nth_vm x (v ∷ vs) (inl e) = (0, (omega arith, ap some (sym e)))
InPoll-nth_vm x (v ∷ vs) (inr h) =
    let (i, (lt, e)) = InPoll-nth_vm x vs h in (suc i, (omega (arith, lt), e))

-- A VM that has a row is found by its identifier.
ShowsRow-position_of :
    (vms : List Vm) (id : Text) (at i : ℕ) (rows : List RowId)
    → ShowsRow i rows
    → has_id (nth_vm vms i) id ≡ true
    → (r : ℕ) × (position_of vms id at rows ≡ some r)
unfolding position_of
ShowsRow-position_of vms id at i [] h k = elim h [ ]
ShowsRow-position_of vms id at i (group g ∷ rows) h k =
    let (r, e) = ShowsRow-position_of vms id (suc at) i rows h k in (r, ground (arith, e))
ShowsRow-position_of vms id at i (vm j ∷ rows) h k = elim (Bool-cases (is_row_of vms id (vm j))) [
  | inl e ↦ (at, rw e refl)
  | inr e ↦ elim h [
    | inl same ↦ cc (e, k, ap (λ t. has_id (nth_vm vms t) id) same)
    | inr later ↦ let (r, q) = ShowsRow-position_of vms id (suc at) i rows later k in (r, rw e q)
  ]
]

-- Pinning goes to the row that was found, where there are VM rows.
repin_selection-Finds :
    (v : View) (id : Text) (r s : ℕ) (rs : List ℕ)
    → v.selected_id ≡ some id
    → vm_rows 0 v.rows ≡ s ∷ rs
    → position_of v.vms id 0 v.rows ≡ some r
    → (y : Vm) × ((selected_vm (repin_selection v) ≡ some y) × (y.vm_id ≡ id))
unfolding repin_selection selected_vm
repin_selection-Finds v id r s rs sel some_rows found =
    let row : pinned_row (vm_rows 0 v.rows) (wanted_row v v.selected_id) v.selected_row ≡ some r =
      subst (λ t. pinned_row t (wanted_row v v.selected_id) v.selected_row ≡ some r) (sym some_rows)
        (subst (λ t. pinned_row (s ∷ rs) (wanted_row v t) v.selected_row ≡ some r) (sym sel)
          (ap (λ t. pinned_row (s ∷ rs) t v.selected_row) found)) in
    let (k, (z, (y, (p, q)))) = position_of-Finds v.vms id 0 r v.rows found in
    let k_is : k ≡ r = omega (arith, z) in
    (
      y,
      (ap (λ t. vm_at v t) row ∙ (ap (λ t. vm_of_row v.vms (nth_row v.rows t)) (sym k_is) ∙ p), q),
    )

laid-Finds :
    (v : View) (x : Vm) (i : ℕ)
    → Lays (length v.vms) v.rows
    → v.selected_id ≡ some x.vm_id
    → i < length v.vms
    → nth_vm v.vms i ≡ some x
    → (y : Vm) × ((selected_vm (repin_selection v) ≡ some y) × (y.vm_id ≡ x.vm_id))
laid-Finds v x i is sel lt at = go (vm_rows 0 v.rows) refl
  where
    has : has_id (nth_vm v.vms i) x.vm_id ≡ true
    has = ap (λ t. has_id t x.vm_id) at ∙ (text_eq.decides x.vm_id x.vm_id).1 refl

    go :
        (rs : List ℕ)
        → vm_rows 0 v.rows ≡ rs
        → (y : Vm) × ((selected_vm (repin_selection v) ≡ some y) × (y.vm_id ≡ x.vm_id))
    go [] e = absurd (ShowsRow-vm_rows i 0 v.rows (is.shows i lt) e)
    go (s ∷ rs) e =
        let (r, found) = ShowsRow-position_of v.vms x.vm_id 0 i v.rows (is.shows i lt) has in
        repin_selection-Finds v x.vm_id r s rs sel e found

module _ (lower : Text → Text) (show_ip : ℕ → Text) where
  laid_out_parts :
      (v : View) (vms : List Vm)
      → ((laid_out lower show_ip v vms).vms ≡ vms)
        × ((laid_out lower show_ip v vms).selected_id ≡ v.selected_id)
  laid_out_parts v vms = elim (Bool-cases v.grouped) [
    | inl g ↦ rw g (refl, refl)
    | inr g ↦ rw g (refl, refl)
  ]

  -- If the VM that the selection names is in a poll and matches the filter, the poll keeps the
  -- selection on a VM with its identifier, wherever its row goes.
  pub update_kept :
      (v : View) (poll : List Vm) (x : Vm)
      → v.selected_id ≡ some x.vm_id
      → InPoll x poll
      → (is_empty v.filter || matches lower show_ip x v.filter) ≡ true
      → (y : Vm) × ((selected_vm (update lower show_ip v poll) ≡ some y) × (y.vm_id ≡ x.vm_id))
  unfolding update rebuild
  update_kept v poll x sel here shown =
      let w = record v { all = poll } in
      let vms = visible lower show_ip w in
      let laid = laid_out lower show_ip w vms in
      let is = laid_out-Lays lower show_ip w vms in
      let keep : Vm → Bool = λ y. is_empty v.filter || matches lower show_ip y v.filter in
      let (i, (lt, at)) = InPoll-nth_vm x vms (
        sort_vms-InPoll v.sort x (filter_vms keep poll)
          (filter_vms-InPoll keep x poll here shown)) in
      let (same, kept) = laid_out_parts w vms in
      laid-Finds laid x i is (kept ∙ sel) (subst (λ t. i < length t) (sym same) lt)
        (subst (λ t. nth_vm t i ≡ some x) (sym same) at)
