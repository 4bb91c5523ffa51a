-- ===== src/Vmtop/View/Keys.antt =====
-- What the user of the monitor and the polls do to the view of vmtop/src/view.rs.
use tikovm.Prelude.{
  ℕ, suc, nat_eq, text_eq, ◌<◌, Bool, true, false, List, [], ◌∷◌, Text, text_beq, is_empty, length,
  ◌≡◌, inl, inr, refl, arith, Bool-cases,
}
use tikovm.Vmtop.Model.{Vm}
use tikovm.Vmtop.View.{View, SortOrder, vm_rows, sort_vms, filter_vms}
use tikovm.Vmtop.View.Moves.{
  stamp_selected, Delta, down, up, index_or, clamped, row_or, last_of, select, select_first,
  select_last, move_among, repin_selection, selected_vm, new_view, move_selected, jump_first,
  jump_last, same_sort, laid_out, visible, rebuild, update, set_filter, clear_filter, set_grouped,
  toggle_grouped, set_sort,
}
use tikovm.Vmtop.View.Rows.{Lays, rows_of-Lays, flat_rows-Lays}
use tikovm.Vmtop.View.Selection.{
  OneOf, row_or-OneOf, last_of-OneOf, Selects, repin_selection-Selects, select-Selects,
}

-- What happens to a view: a poll, a move, a jump, and a change of the filter, the groups or the order.
pub data Key : Type 0 where
  polled : List Vm → Key
  moved : Delta → Key
  home end clear group_toggled : Key
  filtered : Text → Key
  sorted : SortOrder → Key

clamped-lt : (cur : ℕ) (delta : Delta) (last : ℕ) → clamped cur delta last < suc last
clamped-lt cur (down n) last = omega arith
clamped-lt cur (up n) last = omega arith

module _ (lower : Text → Text) (show_ip : ℕ → Text) where
  -- The VMs are those of the last poll that match the filter, in the order; the rows show exactly these,
  -- and one of them is selected if there is one.
  pub record IsView (v : View) : Type 0 where
    pub lays : Lays (length v.vms) v.rows
    pub shown : v.vms ≡ visible lower show_ip v
    pub selects : Selects v

  pub new_view-IsView : (grouped : Bool) (sort : SortOrder) → IsView (new_view grouped sort)
  unfolding new_view selected_vm sort_vms filter_vms
  new_view-IsView grouped sort = record {
    lays = record { below = tt; shows = λ i lt. absurd (omega (arith, lt)) };
    shown = refl;
    selects = inl (refl, refl);
  }

  select-IsView : (v : View) (r : ℕ) → IsView v → OneOf r (vm_rows 0 v.rows) → IsView (select v r)
  unfolding stamp_selected
  select-IsView v r is o = record {
    lays = is.lays;
    shown = is.shown;
    selects = select-Selects v r is.lays o;
  }

  move_selected-IsView : (v : View) (delta : Delta) → IsView v → IsView (move_selected v delta)
  unfolding move_selected
  move_selected-IsView v delta is = go (vm_rows 0 v.rows) (λ r o. select-IsView v r is o)
    where
      go :
          (rs : List ℕ)
          → ((r : ℕ) → OneOf r rs → IsView (select v r))
          → IsView (move_among v delta rs)
      go [] k = is
      go (r ∷ rs) k =
          k (row_or (r ∷ rs) (clamped (index_or v.selected_row (r ∷ rs)) delta (length rs)) r) (
            row_or-OneOf (r ∷ rs) (clamped (index_or v.selected_row (r ∷ rs)) delta (length rs)) r
              (clamped-lt (index_or v.selected_row (r ∷ rs)) delta (length rs)))

  jump_first-IsView : (v : View) → IsView v → IsView (jump_first v)
  unfolding jump_first
  jump_first-IsView v is = go (vm_rows 0 v.rows) (λ r o. select-IsView v r is o)
    where
      go : (rs : List ℕ) → ((r : ℕ) → OneOf r rs → IsView (select v r)) → IsView (select_first v rs)
      go [] k = is
      go (r ∷ rs) k = k r (inl refl)

  jump_last-IsView : (v : View) → IsView v → IsView (jump_last v)
  unfolding jump_last
  jump_last-IsView v is = go (vm_rows 0 v.rows) (λ r o. select-IsView v r is o)
    where
      go : (rs : List ℕ) → ((r : ℕ) → OneOf r rs → IsView (select v r)) → IsView (select_last v rs)
      go [] k = is
      go (r ∷ rs) k = k (last_of r rs) (last_of-OneOf r rs)

  pub laid_out-Lays :
      (v : View) (vms : List Vm)
      → Lays (length (laid_out lower show_ip v vms).vms) (laid_out lower show_ip v vms).rows
  laid_out-Lays v vms = elim (Bool-cases v.grouped) [
    | inl g ↦ rw g (rows_of-Lays vms)
    | inr g ↦ rw g (flat_rows-Lays vms)
  ]

  laid_out-shown :
      (v : View) → (rebuild lower show_ip v).vms ≡ visible lower show_ip (rebuild lower show_ip v)
  unfolding rebuild repin_selection
  laid_out-shown v = elim (Bool-cases v.grouped) [ inl g ↦ rw g refl | inr g ↦ rw g refl ]

  rebuild-IsView : (v : View) → IsView (rebuild lower show_ip v)
  unfolding rebuild
  rebuild-IsView v =
      let w = laid_out lower show_ip v (visible lower show_ip v) in
      let is = laid_out-Lays v (visible lower show_ip v) in
      record {
        lays = unfold repin_selection in is;
        shown = laid_out-shown v;
        selects = repin_selection-Selects w is;
      }

  unfoldable pub press : View → Key → View
  press v (polled vms) = update lower show_ip v vms
  press v (moved delta) = move_selected v delta
  press v home = jump_first v
  press v end = jump_last v
  press v clear = clear_filter lower show_ip v
  press v group_toggled = toggle_grouped lower show_ip v
  press v (filtered text) = set_filter lower show_ip v text
  press v (sorted order) = set_sort lower show_ip v order

  pub press-IsView : (v : View) (key : Key) → IsView v → IsView (press v key)
  unfolding press update clear_filter toggle_grouped set_grouped set_filter set_sort
  press-IsView v (polled vms) is = rebuild-IsView (record v { all = vms })
  press-IsView v (moved delta) is = move_selected-IsView v delta is
  press-IsView v home is = jump_first-IsView v is
  press-IsView v end is = jump_last-IsView v is
  press-IsView v clear is = elim (Bool-cases (is_empty v.filter)) [
    | inl e ↦ rw e is
    | inr e ↦ rw e (rebuild-IsView (record v { filter = [] }))
  ]
  press-IsView v group_toggled is = elim (Bool-cases v.grouped) [
    | inl e ↦ rw e (rebuild-IsView (record v { grouped = false }))
    | inr e ↦ rw e (rebuild-IsView (record v { grouped = true }))
  ]
  press-IsView v (filtered text) is = elim (Bool-cases (text_beq v.filter text)) [
    | inl e ↦ rw e is
    | inr e ↦ rw e (rebuild-IsView (record v { filter = text }))
  ]
  press-IsView v (sorted order) is = elim (Bool-cases (same_sort v.sort order)) [
    | inl e ↦ rw e is
    | inr e ↦ rw e (rebuild-IsView (record v { sort = order }))
  ]

  unfoldable pub press_all : View → List Key → View
  press_all v [] = v
  press_all v (key ∷ keys) = press_all (press v key) keys

  pub press_all-IsView : (v : View) (keys : List Key) → IsView v → IsView (press_all v keys)
  unfolding press_all
  press_all-IsView v [] is = is
  press_all-IsView v (key ∷ keys) is = press_all-IsView (press v key) keys (press-IsView v key is)
