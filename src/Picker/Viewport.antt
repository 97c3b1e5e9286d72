-- ===== src/Picker/Viewport.antt =====
-- The viewport follows the cursor.
use battery_pack.Prelude.{
  ℕ, zero, suc, ◌+◌, ◌-◌, ◌<◌, ◌≤◌, ◌≡◌, inl, inr, Bool, false, Option, some, List, [], ◌∷◌, arith,
  get_elem?, ltb, leb, ◌==◌, Bool-cases,
}
use battery_pack.Picker.{Entry, PickerState, header_before, current_entry_idx, section_bounds}
use battery_pack.Picker.Scroll.{
  line_count, lines_from, entry_to_line, cursor_line, section_header_line, scroll_up, scroll_down,
  ensure_at, ensure_cursor_visible,
}

header_before-le : (es : List Entry) (i : ℕ) → header_before es i ≤ i
unfolding header_before
header_before-le es zero = omega arith
header_before-le es (suc i) = ground (arith, header_before-le es i)

-- Lines only grow along the entries.
lines_from-ge :
    (v : List Bool) (t line : ℕ) (es : List Entry) (i : ℕ) → line ≤ lines_from v t line es i
unfolding lines_from
lines_from-ge v t line [] i = omega arith
lines_from-ge v t line (e ∷ es) i =
    ground (arith, lines_from-ge v t (line + line_count i e (get_elem? v i)) es (suc i))

lines_from_mono :
    (v : List Bool) (t u line : ℕ) (es : List Entry) (i : ℕ)
    → t ≤ u
    → i ≤ t
    → lines_from v t line es i ≤ lines_from v u line es i
unfolding lines_from
lines_from_mono v t u line [] i h k = omega arith
lines_from_mono v t u line (e ∷ es) i h k = elim (Bool-cases (i == t)) [
  | inl here ↦
      rw here (ground (arith, lines_from-ge v u (line + line_count i e (get_elem? v i)) es (suc i)))
  | inr later ↦
      let later_u : (i == u) ≡ false = ground arith in
      rw (later, later_u)
        (lines_from_mono v t u (line + line_count i e (get_elem? v i)) es (suc i) h (ground arith))
]

header-le-cursor :
    (s : PickerState) (idx : ℕ) → entry_to_line s (section_bounds s idx).0 ≤ entry_to_line s idx
unfolding entry_to_line section_bounds
header-le-cursor s idx =
    lines_from_mono s.visible (header_before s.entries idx) idx 0 s.entries 0
      (header_before-le s.entries idx) (omega arith)

-- The line is within the viewport.
abbrev pub Shows : PickerState → ℕ → Type 0
Shows s line = (s.scroll ≤ line) × (line < s.scroll + s.visible_height)

-- What `ensure_at` changes: the scroll offset alone.
pub record Scrolls (s : PickerState) (line : ℕ) (r : Option PickerState) : Type 0 where
  pub scroll : ℕ
  pub returns : r ≡ some (record s { scroll = scroll })
  pub shows : Shows (record s { scroll = scroll }) line

down-Scrolls :
    (s : PickerState) (line from : ℕ)
    → 0 < s.visible_height
    → from ≤ line
    → Scrolls s line (some (scroll_down line (record s { scroll = from })))
unfolding scroll_down
down-Scrolls s line from h le = elim (Bool-cases (leb (from + s.visible_height) line)) [
  | inl below ↦ record {
    scroll = line - s.visible_height + 1;
    returns = rw below;
    shows = ground arith;
  }
  | inr inside ↦ record { scroll = from; returns = rw inside; shows = ground arith }
]

pub ensure_at-Scrolls :
    (s : PickerState) (line header_line : ℕ)
    → 0 < s.visible_height
    → header_line ≤ line
    → Scrolls s line (ensure_at line header_line s)
unfolding ensure_at scroll_up
ensure_at-Scrolls s line header_line h le = elim (Bool-cases (ltb line s.scroll)) [
  | inl above ↦
      let fits : ltb line header_line ≡ false = ground arith in
      rw (above, fits)
        (elim (Bool-cases (ltb (line - header_line) s.visible_height)) [
          | inl near ↦ rw near (down-Scrolls s line header_line h le)
          | inr far ↦ rw far (down-Scrolls s line line h (omega arith))
        ])
  | inr below ↦ rw below (down-Scrolls s line s.scroll h (ground arith))
]

-- With a cursor on an entry and a viewport that is not empty, `ensure_cursor_visible` does not panic;
-- it changes the scroll offset alone, and the line of the cursor is in the viewport afterwards.
pub ensure_cursor_visible-Scrolls :
    (s : PickerState) (idx : ℕ)
    → current_entry_idx s ≡ some idx
    → 0 < s.visible_height
    → Scrolls s (entry_to_line s idx) (ensure_cursor_visible s)
unfolding ensure_cursor_visible cursor_line section_header_line
ensure_cursor_visible-Scrolls s idx e h =
    let open_view : (s.visible_height == 0) ≡ false = ground arith in
    rw (open_view, e)
      (ensure_at-Scrolls s (entry_to_line s idx) (entry_to_line s (section_bounds s idx).0) h
        (header-le-cursor s idx))
