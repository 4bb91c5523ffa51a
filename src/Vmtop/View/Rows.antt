-- ===== src/Vmtop/View/Rows.antt =====
-- The rows of vmtop/src/view.rs and the VMs that they show.
use tikovm.Prelude.{
  ℕ, suc, nat_eq, ◌+◌, ◌≤◌, ◌<◌, List, [], ◌∷◌, ◌++◌, nat_beq, ltb, length, map, ◌≡◌, ◌⊎◌, inl, inr,
  refl, subst, arith, Bool-cases,
}
use tikovm.Vmtop.Model.{Vm}
use tikovm.Vmtop.View.{RowId, group, vm, Members, add_member, members, rows_of, flat_rows}

-- Every VM row is of a VM below the bound.
abbrev pub RowsBelow : ℕ → List RowId → Type 0
RowsBelow n [] = Unit {0}
RowsBelow n (group g ∷ rows) = RowsBelow n rows
RowsBelow n (vm i ∷ rows) = (i < n) × RowsBelow n rows

abbrev AllBelow : ℕ → List ℕ → Type 0
AllBelow n [] = Unit {0}
AllBelow n (i ∷ is) = (i < n) × AllBelow n is

abbrev MembersBelow : ℕ → Members → Type 0
MembersBelow n [] = Unit {0}
MembersBelow n ((p, is) ∷ m) = AllBelow n is × MembersBelow n m

AllBelow-append : (n : ℕ) (is js : List ℕ) → AllBelow n is → AllBelow n js → AllBelow n (is ++ js)
AllBelow-append n [] js a b = b
AllBelow-append n (i ∷ is) js a b = (a.0, AllBelow-append n is js a.1 b)

add_member-Below :
    (n p i : ℕ) (m : Members) → i < n → MembersBelow n m → MembersBelow n (add_member p i m)
unfolding add_member
add_member-Below n p i [] lt b = ((lt, tt), tt)
add_member-Below n p i ((q, is) ∷ m) lt b = elim (Bool-cases (nat_beq p q)) [
  | inl e ↦ rw e (AllBelow-append n is (i ∷ []) b.0 (lt, tt), b.1)
  | inr e ↦ elim (Bool-cases (ltb p q)) [
    | inl f ↦ rw (e, f) ((lt, tt), (b.0, b.1))
    | inr f ↦ rw (e, f) (b.0, add_member-Below n p i m lt b.1)
  ]
]

members-Below :
    (n i : ℕ) (vs : List Vm) (m : Members)
    → i + length vs ≤ n
    → MembersBelow n m
    → MembersBelow n (members i vs m)
unfolding members
members-Below n i [] m le b = b
members-Below n i (v ∷ vs) m le b =
    members-Below n (suc i) vs (add_member v.vm_config.project_id i m) (omega (arith, le))
      (add_member-Below n v.vm_config.project_id i m (omega (arith, le)) b)

group_rows-Below :
    (n : ℕ) (is : List ℕ) (rows : List RowId)
    → AllBelow n is
    → RowsBelow n rows
    → RowsBelow n (map (λ i. vm i) is ++ rows)
group_rows-Below n [] rows a b = b
group_rows-Below n (i ∷ is) rows a b = (a.0, group_rows-Below n is rows a.1 b)

rows_of-Below : (n gi : ℕ) (m : Members) → MembersBelow n m → RowsBelow n (rows_of gi m)
unfolding rows_of
rows_of-Below n gi [] b = tt
rows_of-Below n gi ((p, is) ∷ m) b =
    group_rows-Below n is (rows_of (suc gi) m) b.0 (rows_of-Below n (suc gi) m b.1)

flat_rows-Below : (n i : ℕ) (vs : List Vm) → i + length vs ≤ n → RowsBelow n (flat_rows i vs)
unfolding flat_rows
flat_rows-Below n i [] le = tt
flat_rows-Below n i (v ∷ vs) le =
    (omega (arith, le), flat_rows-Below n (suc i) vs (omega (arith, le)))

-- The VM has a row.
abbrev pub ShowsRow : ℕ → List RowId → Type 0
ShowsRow i [] = ⊥
ShowsRow i (group g ∷ rows) = ShowsRow i rows
ShowsRow i (vm j ∷ rows) = (i ≡ j) ⊎ ShowsRow i rows

abbrev Listed : ℕ → List ℕ → Type 0
Listed i [] = ⊥
Listed i (j ∷ is) = (i ≡ j) ⊎ Listed i is

abbrev IsMember : ℕ → Members → Type 0
IsMember i [] = ⊥
IsMember i ((p, is) ∷ m) = Listed i is ⊎ IsMember i m

Listed-last : (i : ℕ) (is : List ℕ) → Listed i (is ++ (i ∷ []))
Listed-last i [] = inl refl
Listed-last i (j ∷ is) = inr (Listed-last i is)

Listed-append : (i : ℕ) (is js : List ℕ) → Listed i is → Listed i (is ++ js)
Listed-append i [] js h = elim h [ ]
Listed-append i (j ∷ is) js (inl e) = inl e
Listed-append i (j ∷ is) js (inr h) = inr (Listed-append i is js h)

add_member-new : (p i : ℕ) (m : Members) → IsMember i (add_member p i m)
unfolding add_member
add_member-new p i [] = inl (inl refl)
add_member-new p i ((q, is) ∷ m) = elim (Bool-cases (nat_beq p q)) [
  | inl e ↦ rw e (inl (Listed-last i is))
  | inr e ↦ elim (Bool-cases (ltb p q)) [
    | inl f ↦ rw (e, f) (inl (inl refl))
    | inr f ↦ rw (e, f) (inr (add_member-new p i m))
  ]
]

add_member-old : (p i j : ℕ) (m : Members) → IsMember j m → IsMember j (add_member p i m)
unfolding add_member
add_member-old p i j [] h = elim h [ ]
add_member-old p i j ((q, is) ∷ m) h = elim (Bool-cases (nat_beq p q)) [
  | inl e ↦ rw e (elim h [ inl a ↦ inl (Listed-append j is (i ∷ []) a) | inr b ↦ inr b ])
  | inr e ↦ elim (Bool-cases (ltb p q)) [
    | inl f ↦ rw (e, f) (inr h)
    | inr f ↦ rw (e, f) (elim h [ inl a ↦ inl a | inr b ↦ inr (add_member-old p i j m b) ])
  ]
]

members-old : (i j : ℕ) (vs : List Vm) (m : Members) → IsMember j m → IsMember j (members i vs m)
unfolding members
members-old i j [] m h = h
members-old i j (v ∷ vs) m h =
    members-old (suc i) j vs (add_member v.vm_config.project_id i m)
      (add_member-old v.vm_config.project_id i j m h)

members-new :
    (i j : ℕ) (vs : List Vm) (m : Members) → i ≤ j → j < i + length vs → IsMember j (members i vs m)
unfolding members
members-new i j [] m lo hi = absurd (omega (arith, lo, hi))
members-new i j (v ∷ vs) m lo hi = elim (Bool-cases (nat_beq i j)) [
  | inl e ↦
      let q : i ≡ j = ground (arith, e) in
      subst (λ t. IsMember t (members (suc i) vs (add_member v.vm_config.project_id i m))) q
        (members-old (suc i) i vs (add_member v.vm_config.project_id i m)
          (add_member-new v.vm_config.project_id i m))
  | inr e ↦
      members-new (suc i) j vs (add_member v.vm_config.project_id i m) (ground (arith, e, lo))
        (omega (arith, hi))
]

group_rows-here :
    (i : ℕ) (is : List ℕ) (rows : List RowId)
    → Listed i is
    → ShowsRow i (map (λ i. vm i) is ++ rows)
group_rows-here i [] rows h = elim h [ ]
group_rows-here i (j ∷ is) rows (inl e) = inl e
group_rows-here i (j ∷ is) rows (inr h) = inr (group_rows-here i is rows h)

group_rows-later :
    (i : ℕ) (is : List ℕ) (rows : List RowId)
    → ShowsRow i rows
    → ShowsRow i (map (λ i. vm i) is ++ rows)
group_rows-later i [] rows h = h
group_rows-later i (j ∷ is) rows h = inr (group_rows-later i is rows h)

rows_of-ShowsRow : (i gi : ℕ) (m : Members) → IsMember i m → ShowsRow i (rows_of gi m)
unfolding rows_of
rows_of-ShowsRow i gi [] h = elim h [ ]
rows_of-ShowsRow i gi ((p, is) ∷ m) (inl h) = group_rows-here i is (rows_of (suc gi) m) h
rows_of-ShowsRow i gi ((p, is) ∷ m) (inr h) =
    group_rows-later i is (rows_of (suc gi) m) (rows_of-ShowsRow i (suc gi) m h)

flat_rows-ShowsRow :
    (i j : ℕ) (vs : List Vm) → i ≤ j → j < i + length vs → ShowsRow j (flat_rows i vs)
unfolding flat_rows
flat_rows-ShowsRow i j [] lo hi = absurd (omega (arith, lo, hi))
flat_rows-ShowsRow i j (v ∷ vs) lo hi = elim (Bool-cases (nat_beq i j)) [
  | inl e ↦ inl (ground (arith, e))
  | inr e ↦ inr (flat_rows-ShowsRow (suc i) j vs (ground (arith, e, lo)) (omega (arith, hi)))
]

-- The rows of `n` VMs.
pub record Lays (n : ℕ) (rows : List RowId) : Type 0 where
  pub below : RowsBelow n rows
  pub shows : (i : ℕ) → i < n → ShowsRow i rows

pub rows_of-Lays : (vs : List Vm) → Lays (length vs) (rows_of 0 (members 0 vs []))
rows_of-Lays vs = record {
  below =
      rows_of-Below (length vs) 0 (members 0 vs [])
        (members-Below (length vs) 0 vs [] (omega arith) tt);
  shows = λ i lt.
      rows_of-ShowsRow i 0 (members 0 vs [])
        (members-new 0 i vs [] (omega arith) (omega (arith, lt)));
}

pub flat_rows-Lays : (vs : List Vm) → Lays (length vs) (flat_rows 0 vs)
flat_rows-Lays vs = record {
  below = flat_rows-Below (length vs) 0 vs (omega arith);
  shows = λ i lt. flat_rows-ShowsRow 0 i vs (omega arith) (omega (arith, lt));
}
