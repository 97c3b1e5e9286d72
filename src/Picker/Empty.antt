-- ===== src/Picker/Empty.antt =====
-- A picker whose only section is collapsed and has no items.
use battery_pack.Prelude.{ℕ, zero, suc, ◌<◌, ◌≡◌, true, none, [], ◌∷◌, Text, arith}
use battery_pack.Picker.{
  Section, SelectionMode, new, push_sections, push_items, rebuild_nav_stops, nav_stops_of,
  is_nav_stop, entry_stop, section_bounds, header_before, header_after, current_entry_idx,
}
use battery_pack.Picker.Scroll.{set_visible_height, ensure_cursor_visible, cursor_line}
use battery_pack.Picker.Fold.{expand_current, set_folded, focus_entry, first_item}

abbrev pub empty_section : Text → SelectionMode → Section
empty_section title mode = record {
  title = title;
  items = [];
  selection_mode = mode;
  collapsed = true;
}

-- Expanding the only section of a picker, collapsed and without items, panics in a viewport of any
-- positive height: the expanded header is no navigation stop and no item is one, so the list of
-- stops that the cursor indexes is empty.
pub expand_current-empty_panics :
    (title : Text) (mode : SelectionMode) (h : ℕ)
    → 0 < h
    → expand_current (set_visible_height h (new (empty_section title mode ∷ []))) ≡ none
unfolding expand_current set_visible_height new push_sections push_items rebuild_nav_stops
    nav_stops_of is_nav_stop entry_stop section_bounds header_before header_after current_entry_idx
    ensure_cursor_visible cursor_line set_folded focus_entry first_item
expand_current-empty_panics title mode zero h = absurd (omega arith)
expand_current-empty_panics title mode (suc h) p = ground arith
