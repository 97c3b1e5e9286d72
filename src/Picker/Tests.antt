-- ===== src/Picker/Tests.antt =====
-- Runs of a small picker, as instances of the laws.
use battery_pack.Prelude.{
  ◌≡◌, ◌≤◌, refl, Bool, true, false, Text, chars, List, [], ◌∷◌, map, some, none, arith,
}
use battery_pack.Picker.{
  checkbox, radio, Section, SectionItem, Entry, header, item, PickerState, new, current_entry_idx,
  section_bounds, header_before, header_after,
}
use battery_pack.Picker.Scroll.{entry_to_line, ensure_cursor_visible, set_visible_height}
use battery_pack.Picker.Toggle.{toggle, checked_count, current_section_mode}
use battery_pack.Picker.Fold.{
  expand_current, collapse_current, set_folded, focus_entry, focus_cursor, position, rposition,
}
use battery_pack.Picker.Keys.{KeyPress, left, up, again, run_keys, handle_key, press}
use battery_pack.Picker.Navigation.{run_keys-into_results}
use battery_pack.Picker.{rebuild_nav_stops, nav_stops_of, is_nav_stop, entry_stop}
use battery_pack.Picker.Scroll.{
  ensure_at, scroll_up, scroll_down, cursor_line, section_header_line, lines_from, line_count,
  move_up,
}
use battery_pack.Picker.Confirm.{into_results, clear_confirm_error}
use battery_pack.Picker.Sections.{toggle-at_most_one}
use battery_pack.Picker.Results.{into_results-new}
use battery_pack.Picker.Viewport.{Scrolls, ensure_cursor_visible-Scrolls}
use battery_pack.Picker.Empty.{empty_section, expand_current-empty_panics}

abbrev row : Text → Bool → SectionItem
row label checked = record { label = label; checked = checked; description = none }

-- A radio section in which two items are checked, as a manifest may have them.
abbrev tls : Section
tls = record {
  title = chars "tls";
  items = row (chars "rustls") true ∷ row (chars "openssl") true ∷ [];
  selection_mode = radio;
  collapsed = false;
}

abbrev logging : Section
logging = record {
  title = chars "logging";
  items = row (chars "tracing") true ∷ [];
  selection_mode = checkbox;
  collapsed = true;
}

into_results-new_example :
    (into_results (new (tls ∷ logging ∷ []))).0
    ≡ map (λ (s : Section). map (λ (i : SectionItem). i.checked) s.items) (tls ∷ logging ∷ [])
into_results-new_example = into_results-new (tls ∷ logging ∷ [])

abbrev entries : List Entry
entries =
    header (chars "tls") radio false
    ∷ item (chars "rustls") true none
    ∷ item (chars "openssl") true none
    ∷ header (chars "logging") checkbox true
    ∷ item (chars "tracing") true none
    ∷ []

-- The cursor on the second item, in a viewport of two lines.
abbrev state : PickerState
state = record {
  entries = entries;
  coords = (0, 0) ∷ (0, 0) ∷ (0, 1) ∷ (1, 0) ∷ (1, 0) ∷ [];
  visible = true ∷ true ∷ true ∷ true ∷ false ∷ [];
  nav_stops = 1 ∷ 2 ∷ 3 ∷ [];
  cursor = 1;
  scroll = 0;
  visible_height = 2;
  confirm_error = none;
}

cursor : current_entry_idx state ≡ some 2
unfolding current_entry_idx
cursor = refl

mode : current_section_mode state ≡ some radio
unfolding current_section_mode current_entry_idx section_bounds header_before header_after
mode = refl

toggle-at_most_one_example :
    (s' : PickerState) × (toggle state ≡ some s')
    × (checked_count s'.entries (section_bounds s' 2) ≤ 1)
toggle-at_most_one_example =
    toggle-at_most_one state 2 (item (chars "openssl") true none) refl cursor refl refl mode

ensure_cursor_visible-Scrolls_example :
    Scrolls state (entry_to_line state 2) (ensure_cursor_visible state)
ensure_cursor_visible-Scrolls_example = ensure_cursor_visible-Scrolls state 2 cursor (omega arith)

expand_current-empty_panics_example :
    expand_current (set_visible_height 10 (new (empty_section (chars "extras") radio ∷ []))) ≡ none
expand_current-empty_panics_example =
    expand_current-empty_panics (chars "extras") radio 10 (omega arith)

-- The state after the first section is collapsed.
abbrev collapsed : PickerState
collapsed = record state {
  entries =
      header (chars "tls") radio true
      ∷ item (chars "rustls") true none
      ∷ item (chars "openssl") true none
      ∷ header (chars "logging") checkbox true
      ∷ item (chars "tracing") true none
      ∷ [];
  visible = true ∷ false ∷ false ∷ true ∷ false ∷ [];
  nav_stops = 0 ∷ 3 ∷ [];
  cursor = 0;
}

abbrev keys : List KeyPress
keys = record { code = left; control = false } ∷ record { code = up; control = false } ∷ []

collapses : run_keys [] keys state ≡ some (again collapsed)
unfolding run_keys handle_key press clear_confirm_error collapse_current set_folded focus_entry
    focus_cursor position rposition rebuild_nav_stops nav_stops_of is_nav_stop entry_stop
    current_entry_idx section_bounds header_before header_after ensure_cursor_visible ensure_at
    scroll_up scroll_down cursor_line section_header_line entry_to_line lines_from line_count
    move_up
collapses = refl

run_keys-into_results_example : (into_results collapsed).0 ≡ (into_results state).0
run_keys-into_results_example = run_keys-into_results [] keys state collapsed refl collapses
