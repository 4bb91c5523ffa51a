-- ===== src/Vmtop/View/Displayed.antt =====
-- What the view of vmtop/src/view.rs displays, against the polls and the keys themselves.
use tikovm.Prelude.{
  ℕ, text_eq, Bool, true, false, ◌||◌, List, [], ◌∷◌, Text, text_beq, if◌then◌else◌, is_empty, ◌≡◌,
  ◌↔◌, ◌⊎◌, inl, inr, refl, sym, ap, subst, ◌∙◌, Bool-cases,
}
use tikovm.Vmtop.Model.{Vm, matches}
use tikovm.Vmtop.View.{View, SortOrder, vm_rows, in_order, insert_vm, sort_vms, filter_vms}
use tikovm.Vmtop.View.Moves.{
  Delta, select_first, select_last, move_among, move_selected, jump_first, jump_last,
  stamp_selected, new_view, repin_selection, same_sort, rebuild, update, set_filter, clear_filter,
  set_grouped, toggle_grouped, set_sort,
}
use tikovm.Vmtop.View.Keys.{
  Key, polled, moved, home, end, clear, group_toggled, filtered, sorted, IsView, press, press_all,
  press_all-IsView, new_view-IsView,
}
use tikovm.Vmtop.View.Refreshes.{InPoll, sort_vms-InPoll, filter_vms-InPoll}

-- The VMs of the last poll, given those before.
abbrev pub last_poll : List Vm → List Key → List Vm
last_poll vms [] = vms
last_poll vms (polled poll ∷ keys) = last_poll poll keys
last_poll vms (key ∷ keys) = last_poll vms keys

-- The filter that the keys leave.
abbrev pub last_filter : Text → List Key → Text
last_filter filter [] = filter
last_filter filter (filtered text ∷ keys) = last_filter text keys
last_filter filter (clear ∷ keys) = last_filter [] keys
last_filter filter (key ∷ keys) = last_filter filter keys

from_insert_vm :
    (order : SortOrder) (x y : Vm) (vs : List Vm)
    → InPoll y (insert_vm order x vs)
    → (y ≡ x) ⊎ InPoll y vs
unfolding insert_vm
from_insert_vm order x y [] h = h
from_insert_vm order x y (v ∷ vs) h = go (in_order order x v) (λ r. from_insert_vm order x y vs r) h
  where
    go :
        (b : Bool)
        → (InPoll y (insert_vm order x vs) → (y ≡ x) ⊎ InPoll y vs)
        → InPoll y (if b then x ∷ v ∷ vs else v ∷ insert_vm order x vs)
        → (y ≡ x) ⊎ InPoll y (v ∷ vs)
    go true rest k = k
    go false rest (inl e) = inr (inl e)
    go false rest (inr k) = elim (rest k) [ inl e ↦ inl e | inr r ↦ inr (inr r) ]

from_sort_vms :
    (order : SortOrder) (x : Vm) (vs : List Vm) → InPoll x (sort_vms order vs) → InPoll x vs
unfolding sort_vms
from_sort_vms order x [] h = h
from_sort_vms order x (v ∷ vs) h = elim (from_insert_vm order v x (sort_vms order vs) h) [
  | inl e ↦ inl e
  | inr r ↦ inr (from_sort_vms order x vs r)
]

from_filter_vms :
    (keep : Vm → Bool) (x : Vm) (vs : List Vm)
    → InPoll x (filter_vms keep vs)
    → InPoll x vs × (keep x ≡ true)
unfolding filter_vms
from_filter_vms keep x [] h = elim h [ ]
from_filter_vms keep x (v ∷ vs) h = go (keep v) refl (λ r. from_filter_vms keep x vs r) h
  where
    go :
        (b : Bool)
        → keep v ≡ b
        → (InPoll x (filter_vms keep vs) → InPoll x vs × (keep x ≡ true))
        → InPoll x (if b then v ∷ filter_vms keep vs else filter_vms keep vs)
        → InPoll x (v ∷ vs) × (keep x ≡ true)
    go true e rest (inl q) = (inl q, ap keep q ∙ e)
    go true e rest (inr r) = (inr (rest r).0, (rest r).1)
    go false e rest r = (inr (rest r).0, (rest r).1)

-- The poll and the filter of the view.
abbrev Set : View → List Vm → Text → Type 0
Set v poll filter = (v.all ≡ poll) × (v.filter ≡ filter)

empty_text : (t : Text) → is_empty t ≡ true → t ≡ []
empty_text [] h = refl
empty_text (c ∷ t) h = cc

move_among-Set :
    (v : View) (delta : Delta) (rs : List ℕ) → Set (move_among v delta rs) v.all v.filter
unfolding stamp_selected
move_among-Set v delta [] = (refl, refl)
move_among-Set v delta (r ∷ rs) = (refl, refl)

select_first-Set : (v : View) (rs : List ℕ) → Set (select_first v rs) v.all v.filter
unfolding stamp_selected
select_first-Set v [] = (refl, refl)
select_first-Set v (r ∷ rs) = (refl, refl)

select_last-Set : (v : View) (rs : List ℕ) → Set (select_last v rs) v.all v.filter
unfolding stamp_selected
select_last-Set v [] = (refl, refl)
select_last-Set v (r ∷ rs) = (refl, refl)

module _ (lower : Text → Text) (show_ip : ℕ → Text) where
  rebuild-Set : (v : View) → Set (rebuild lower show_ip v) v.all v.filter
  unfolding rebuild repin_selection
  rebuild-Set v = elim (Bool-cases v.grouped) [
    | inl g ↦ rw g (refl, refl)
    | inr g ↦ rw g (refl, refl)
  ]

  press-Set :
      (v : View) (key : Key)
      → Set
          (press lower show_ip v key)
          (last_poll v.all (key ∷ []))
          (last_filter v.filter (key ∷ []))
  unfolding press update clear_filter toggle_grouped set_grouped set_filter set_sort move_selected
      jump_first jump_last
  press-Set v (polled vms) = rebuild-Set (record v { all = vms })
  press-Set v (moved delta) = move_among-Set v delta (vm_rows 0 v.rows)
  press-Set v home = select_first-Set v (vm_rows 0 v.rows)
  press-Set v end = select_last-Set v (vm_rows 0 v.rows)
  press-Set v clear = elim (Bool-cases (is_empty v.filter)) [
    | inl e ↦ rw e (refl, empty_text v.filter e)
    | inr e ↦ rw e (rebuild-Set (record v { filter = [] }))
  ]
  press-Set v group_toggled = elim (Bool-cases v.grouped) [
    | inl e ↦ rw e (rebuild-Set (record v { grouped = false }))
    | inr e ↦ rw e (rebuild-Set (record v { grouped = true }))
  ]
  press-Set v (filtered text) = elim (Bool-cases (text_beq v.filter text)) [
    | inl e ↦ rw e (refl, (text_eq.decides v.filter text).0 e)
    | inr e ↦ rw e (rebuild-Set (record v { filter = text }))
  ]
  press-Set v (sorted order) = elim (Bool-cases (same_sort v.sort order)) [
    | inl e ↦ rw e (refl, refl)
    | inr e ↦ rw e (rebuild-Set (record v { sort = order }))
  ]

  last_poll_cons :
      (vms : List Vm) (key : Key) (keys : List Key)
      → last_poll (last_poll vms (key ∷ [])) keys ≡ last_poll vms (key ∷ keys)
  last_poll_cons vms (polled poll) keys = refl
  last_poll_cons vms (moved delta) keys = refl
  last_poll_cons vms home keys = refl
  last_poll_cons vms end keys = refl
  last_poll_cons vms clear keys = refl
  last_poll_cons vms group_toggled keys = refl
  last_poll_cons vms (filtered text) keys = refl
  last_poll_cons vms (sorted order) keys = refl

  last_filter_cons :
      (filter : Text) (key : Key) (keys : List Key)
      → last_filter (last_filter filter (key ∷ [])) keys ≡ last_filter filter (key ∷ keys)
  last_filter_cons filter (polled poll) keys = refl
  last_filter_cons filter (moved delta) keys = refl
  last_filter_cons filter home keys = refl
  last_filter_cons filter end keys = refl
  last_filter_cons filter clear keys = refl
  last_filter_cons filter group_toggled keys = refl
  last_filter_cons filter (filtered text) keys = refl
  last_filter_cons filter (sorted order) keys = refl

  press_all-Set :
      (v : View) (keys : List Key)
      → Set (press_all lower show_ip v keys) (last_poll v.all keys) (last_filter v.filter keys)
  unfolding press_all
  press_all-Set v [] = (refl, refl)
  press_all-Set v (key ∷ keys) =
      let w = press lower show_ip v key in
      let one = press-Set v key in
      let rest = press_all-Set w keys in
      (
        rest.0 ∙ ap (λ t. last_poll t keys) one.0 ∙ last_poll_cons v.all key keys,
        rest.1 ∙ ap (λ t. last_filter t keys) one.1 ∙ last_filter_cons v.filter key keys,
      )

  abbrev pub kept_by : Text → Vm → Bool
  kept_by filter x = is_empty filter || matches lower show_ip x filter

  -- The view is sound, and its VMs are those of the poll that the filter keeps.
  abbrev pub Displays : View → List Vm → Text → Type 0
  Displays v poll filter =
      IsView lower show_ip v
      × ((x : Vm) → InPoll x v.vms ↔ (InPoll x poll × (kept_by filter x ≡ true)))

  IsView-Displays :
      (v : View) (poll : List Vm) (filter : Text)
      → IsView lower show_ip v
      → Set v poll filter
      → Displays v poll filter
  IsView-Displays v poll filter is (a, b) =
      let e : v.vms ≡ sort_vms v.sort (filter_vms (kept_by filter) poll) =
        is.shown
        ∙ ap (λ t. sort_vms v.sort (filter_vms (kept_by v.filter) t)) a
        ∙ ap (λ t. sort_vms v.sort (filter_vms (kept_by t) poll)) b in
      (
        is,
        λ x. (
          λ h.
              from_filter_vms (kept_by filter) x poll
                (from_sort_vms v.sort x (filter_vms (kept_by filter) poll) (subst (InPoll x) e h)),
          λ h. subst (InPoll x) (sym e) (
              sort_vms-InPoll v.sort x (filter_vms (kept_by filter) poll)
                (filter_vms-InPoll (kept_by filter) x poll h.0 h.1)),
        ),
      )

  -- After any polls and keys the VMs of the view are those of the last poll that match the filter which
  -- the keys have left, and no others; each of them has a row, and no row has another; and one of them
  -- is selected if there is one, and nothing if there is none.
  pub press_all-Displays :
      (grouped : Bool) (sort : SortOrder) (keys : List Key)
      → Displays
          (press_all lower show_ip (new_view grouped sort) keys)
          (last_poll [] keys)
          (last_filter [] keys)
  press_all-Displays grouped sort keys =
      IsView-Displays (press_all lower show_ip (new_view grouped sort) keys) (last_poll [] keys)
        (last_filter [] keys)
        (press_all-IsView lower show_ip (new_view grouped sort) keys
          (new_view-IsView lower show_ip grouped sort))
        (unfold new_view in press_all-Set (new_view grouped sort) keys)
