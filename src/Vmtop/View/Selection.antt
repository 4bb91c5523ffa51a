-- ===== src/Vmtop/View/Selection.antt =====
-- The selection of vmtop/src/view.rs: what a rebuild of the rows and a move select.
use tikovm.Prelude.{
  ℕ, zero, suc, nat_eq, text_eq, ◌+◌, ◌<◌, true, Option, none, some, List, [], ◌∷◌, Text, leb,
  length, ◌≡◌, ◌⊎◌, inl, inr, refl, sym, ap, subst, ◌∙◌, arith, Bool-cases, Option-cases,
}
use tikovm.Vmtop.Model.{Vm}
use tikovm.Vmtop.View.{RowId, group, vm, View, nth_vm, vm_rows, is_row_of, position_of, first_from}
use tikovm.Vmtop.View.Moves.{
  nth_row, fallback_row, pinned_row, wanted_row, repin_selection, vm_of_row, vm_at, selected_vm,
  select, stamp_selected, row_or, last_of,
}
use tikovm.Vmtop.View.Rows.{RowsBelow, ShowsRow, Lays}

-- The row shows a VM.
abbrev Picks : List Vm → List RowId → ℕ → Type 0
Picks vms rows r = (x : Vm) × (vm_of_row vms (nth_row rows r) ≡ some x)

abbrev pub OneOf : ℕ → List ℕ → Type 0
OneOf r [] = ⊥
OneOf r (s ∷ rs) = (r ≡ s) ⊎ OneOf r rs

nth_vm-some : (vms : List Vm) (i : ℕ) → i < length vms → (x : Vm) × (nth_vm vms i ≡ some x)
unfolding nth_vm
nth_vm-some [] i lt = absurd (omega (arith, lt))
nth_vm-some (v ∷ vms) zero lt = (v, refl)
nth_vm-some (v ∷ vms) (suc i) lt = nth_vm-some vms i (omega (arith, lt))

vm_rows-Picks :
    (vms : List Vm) (rows : List RowId) (at r : ℕ)
    → RowsBelow (length vms) rows
    → OneOf r (vm_rows at rows)
    → (k : ℕ) × ((r ≡ at + k) × Picks vms rows k)
unfolding vm_rows nth_row
vm_rows-Picks vms [] at r b h = elim h [ ]
vm_rows-Picks vms (group g ∷ rows) at r b h =
    let (k, (e, p)) = vm_rows-Picks vms rows (suc at) r b h in (suc k, (omega (arith, e), p))
vm_rows-Picks vms (vm i ∷ rows) at r b (inl e) = (0, (omega (arith, e), nth_vm-some vms i b.0))
vm_rows-Picks vms (vm i ∷ rows) at r b (inr h) =
    let (k, (e, p)) = vm_rows-Picks vms rows (suc at) r b.1 h in (suc k, (omega (arith, e), p))

-- A VM row is listed.
pub ShowsRow-vm_rows : (i at : ℕ) (rows : List RowId) → ShowsRow i rows → vm_rows at rows ≡ [] → ⊥
unfolding vm_rows
ShowsRow-vm_rows i at [] h e = h
ShowsRow-vm_rows i at (group g ∷ rows) h e = ShowsRow-vm_rows i (suc at) rows h e
ShowsRow-vm_rows i at (vm j ∷ rows) h e = cc

no_rows :
    (vms : List Vm) (rows : List RowId) → Lays (length vms) rows → vm_rows 0 rows ≡ [] → vms ≡ []
no_rows [] rows is e = refl
no_rows (v ∷ vms) rows is e = absurd (ShowsRow-vm_rows 0 0 rows (is.shows 0 (omega arith)) e)

first_from-OneOf : (prev r : ℕ) (rs : List ℕ) → first_from prev rs ≡ some r → OneOf r rs
unfolding first_from
first_from-OneOf prev r [] h = cc
first_from-OneOf prev r (s ∷ rs) h = elim (Bool-cases (leb prev s)) [
  | inl e ↦ inl (ground (arith, e, h))
  | inr e ↦ inr (first_from-OneOf prev r rs (ground (arith, e, h)))
]

fallback_row-OneOf :
    (prev : Option ℕ) (r : ℕ) (rs : List ℕ)
    → (q : ℕ) × ((fallback_row prev (r ∷ rs) ≡ some q) × OneOf q (r ∷ rs))
fallback_row-OneOf none r rs = (r, (refl, inl refl))
fallback_row-OneOf (some p) r rs = elim (Option-cases (first_from p (r ∷ rs))) [
  | inl e ↦ (r, (ground (arith, e), inl refl))
  | inr (q, e) ↦ (q, (ground (arith, e), first_from-OneOf p q (r ∷ rs) e))
]

pub row_or-OneOf : (rs : List ℕ) (i r : ℕ) → i < length rs → OneOf (row_or rs i r) rs
row_or-OneOf [] i r lt = absurd (omega (arith, lt))
row_or-OneOf (s ∷ rs) zero r lt = inl refl
row_or-OneOf (s ∷ rs) (suc i) r lt = inr (row_or-OneOf rs i r (omega (arith, lt)))

pub last_of-OneOf : (r : ℕ) (rs : List ℕ) → OneOf (last_of r rs) (r ∷ rs)
last_of-OneOf r [] = inl refl
last_of-OneOf r (s ∷ rs) = inr (last_of-OneOf s rs)

-- The selected row is that of a VM with the identifier.
abbrev pub Finds : List Vm → List RowId → Text → ℕ → Type 0
Finds vms rows id r = (x : Vm) × ((vm_of_row vms (nth_row rows r) ≡ some x) × (x.vm_id ≡ id))

is_row_of-Finds :
    (vms : List Vm) (id : Text) (row : RowId) (rows : List RowId)
    → is_row_of vms id row ≡ true
    → Finds vms (row ∷ rows) id 0
unfolding nth_row
is_row_of-Finds vms id (group g) rows h = cc
is_row_of-Finds vms id (vm i) rows h = elim (Option-cases (nth_vm vms i)) [
  | inl e ↦ ground (arith, e, h)
  | inr (x, e) ↦ (x, (e, (text_eq.decides x.vm_id id).0 (ground (arith, e, h))))
]

pub position_of-Finds :
    (vms : List Vm) (id : Text) (at r : ℕ) (rows : List RowId)
    → position_of vms id at rows ≡ some r
    → (k : ℕ) × ((r ≡ at + k) × Finds vms rows id k)
unfolding position_of nth_row
position_of-Finds vms id at r [] h = cc
position_of-Finds vms id at r (row ∷ rows) h = elim (Bool-cases (is_row_of vms id row)) [
  | inl e ↦ (0, (ground (arith, e, h), is_row_of-Finds vms id row rows e))
  | inr e ↦
      let (k, (q, p)) = position_of-Finds vms id (suc at) r rows (ground (arith, e, h)) in
      (suc k, (omega (arith, q), p))
]

-- A VM is selected, or none is visible.
abbrev pub Selects : View → Type 0
Selects v = ((v.vms ≡ []) × (selected_vm v ≡ none)) ⊎ ((x : Vm) × (selected_vm v ≡ some x))

abbrev with_row : View → Option ℕ → View
with_row v r = record v { selected_row = r }

pinned_row-Selects :
    (v : View) (rs : List ℕ) (wanted prev : Option ℕ)
    → Lays (length v.vms) v.rows
    → vm_rows 0 v.rows ≡ rs
    → ((r : ℕ) → wanted ≡ some r → Picks v.vms v.rows r)
    → Selects (with_row v (pinned_row rs wanted prev))
unfolding selected_vm
pinned_row-Selects v [] wanted prev is e w = inl (no_rows v.vms v.rows is e, refl)
pinned_row-Selects v (s ∷ rs) (some r) prev is e w = inr (w r refl)
pinned_row-Selects v (s ∷ rs) none prev is e w =
    let (q, (f, o)) = fallback_row-OneOf prev s rs in
    let (k, (z, p)) = vm_rows-Picks v.vms v.rows 0 q is.below (subst (OneOf q) (sym e) o) in
    let k_is : k ≡ q = omega (arith, z) in
    inr
      (p.0, ap (λ t. vm_at v t) f ∙ (ap (λ t. vm_of_row v.vms (nth_row v.rows t)) (sym k_is) ∙ p.1))

wanted_row-Picks :
    (v : View) (sel : Option Text) (r : ℕ) → wanted_row v sel ≡ some r → Picks v.vms v.rows r
wanted_row-Picks v none r h = cc
wanted_row-Picks v (some id) r h =
    let (k, (z, (x, (p, q)))) = position_of-Finds v.vms id 0 r v.rows h in
    let k_is : k ≡ r = omega (arith, z) in
    (x, ap (λ t. vm_of_row v.vms (nth_row v.rows t)) (sym k_is) ∙ p)

pub repin_selection-Selects : (v : View) → Lays (length v.vms) v.rows → Selects (repin_selection v)
unfolding repin_selection
repin_selection-Selects v is =
    pinned_row-Selects v (vm_rows 0 v.rows) (wanted_row v v.selected_id) v.selected_row is refl
      (wanted_row-Picks v v.selected_id)

-- A row among the VM rows selects a VM.
pub select-Selects :
    (v : View) (r : ℕ)
    → Lays (length v.vms) v.rows
    → OneOf r (vm_rows 0 v.rows)
    → Selects (select v r)
unfolding stamp_selected selected_vm
select-Selects v r is o =
    let (k, (z, p)) = vm_rows-Picks v.vms v.rows 0 r is.below o in
    let k_is : k ≡ r = omega (arith, z) in
    inr (p.0, ap (λ t. vm_of_row v.vms (nth_row v.rows t)) (sym k_is) ∙ p.1)
