-- ===== src/Picker/Fold.antt =====
-- src/sectioned-picker/src/state.rs: collapsing and expanding sections.
use battery_pack.Prelude.{ℕ, suc, ◌+◌, ◌-◌, ◌==◌, leb, get_elem?}
use battery_pack.Prelude.{Bool, true, false, not, Option, none, some, List, [], ◌∷◌, if◌then◌else◌}
use battery_pack.Picker.{
  Entry, header, item, PickerState, is_header, current_entry_idx, section_bounds, rebuild_nav_stops,
}
use battery_pack.Picker.Scroll.{◌>>=◌, ensure_cursor_visible}
use battery_pack.Picker.Toggle.{modify_at, modify_range, item_range}

abbrev pub set_collapsed : Bool → Entry → Entry
set_collapsed v (header title mode collapsed) = header title mode v
set_collapsed v (item label checked description) = item label checked description

-- `iter().position(p)`, counted from `i`.
unfoldable pub position : (ℕ → Bool) → List ℕ → ℕ → Option ℕ
position p [] i = none
position p (x ∷ xs) i = let rest = position p xs (suc i) in if p x then some i else rest

abbrev or_else : Option ℕ → Option ℕ → Option ℕ
or_else none o = o
or_else (some a) o = some a

-- `iter().rposition(p)`, counted from `i`.
unfoldable pub rposition : (ℕ → Bool) → List ℕ → ℕ → Option ℕ
rposition p [] i = none
rposition p (x ∷ xs) i = or_else (rposition p xs (suc i)) (if p x then some i else none)

abbrev pub or_zero : Option ℕ → ℕ
or_zero none = 0
or_zero (some a) = a

unfoldable pub focus_cursor : List ℕ → ℕ → ℕ
unfolding position rposition
focus_cursor nav_stops entry_idx = elim (position (λ e. e == entry_idx) nav_stops 0) [
  | some pos ↦ pos
  | none ↦ or_zero (rposition (λ e. leb e entry_idx) nav_stops 0)
]

unfoldable pub focus_entry : ℕ → PickerState → PickerState
unfolding focus_cursor
focus_entry entry_idx s = record s { cursor = focus_cursor s.nav_stops entry_idx }

-- The header's mark and the visibility of the section's items.
unfoldable pub set_folded : Bool → ℕ × ℕ → PickerState → PickerState
set_folded v (header_idx, section_end) s = record s {
  entries = modify_at (set_collapsed v) header_idx s.entries;
  visible = modify_range (λ _. not v) (header_idx + 1) (section_end - (header_idx + 1)) s.visible;
}

unfoldable pub collapse_current : PickerState → Option PickerState
unfolding set_folded focus_entry
collapse_current s = do
  idx ← current_entry_idx s
  let bounds = section_bounds s idx
  let s' = rebuild_nav_stops (set_folded true bounds s)
  ensure_cursor_visible (focus_entry bounds.0 s')

-- `range.find(item).unwrap_or(otherwise)`
unfoldable pub first_item : List Entry → List ℕ → ℕ → ℕ
first_item entries [] otherwise = otherwise
first_item entries (i ∷ is) otherwise =
    let rest = first_item entries is otherwise in
    elim (get_elem? entries i) [ none ↦ rest | some e ↦ if is_header e then rest else i ]

unfoldable pub expand_current : PickerState → Option PickerState
unfolding set_folded focus_entry first_item
expand_current s = do
  idx ← current_entry_idx s
  let bounds = section_bounds s idx
  let s' = rebuild_nav_stops (set_folded false bounds s)
  ensure_cursor_visible (focus_entry (first_item s'.entries (item_range bounds) bounds.0) s')
