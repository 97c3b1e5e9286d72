-- ===== src/Picker/Scroll.antt =====
-- src/sectioned-picker/src/state.rs: moving the cursor, and the viewport that follows it.
use battery_pack.Prelude.{ℕ, suc, ◌+◌, ◌-◌, ◌==◌, ltb, leb, length, get_elem?}
use battery_pack.Prelude.{Bool, Option, none, some, List, [], ◌∷◌, if◌then◌else◌}
use battery_pack.Picker.{
  Entry, header, item, PickerState, or_false, current_entry_idx, section_bounds,
}

infixl 5 ◌>>=◌
abbrev pub ◌>>=◌ {ℓ κ} : {A : Type ℓ} {B : Type κ} → Option A → (A → Option B) → Option B
none >>= f = none
some a >>= f = f a

-- The lines that an entry takes: a header one, and one more for the blank line before it unless it
-- is the first entry; an item one if it is visible.
unfoldable pub line_count : ℕ → Entry → Option Bool → ℕ
line_count i (header title mode collapsed) v = if ltb 0 i then 2 else 1
line_count i (item label checked description) v = if or_false v then 1 else 0

-- The loop of `entry_to_line` over the entries from index `i`.
unfoldable pub lines_from : List Bool → ℕ → ℕ → List Entry → ℕ → ℕ
unfolding line_count
lines_from visible target line [] i = line
lines_from visible target line (e ∷ es) i =
    let rest = lines_from visible target (line + line_count i e (get_elem? visible i)) es (suc i) in
    if i == target then line else rest

unfoldable pub entry_to_line : PickerState → ℕ → ℕ
unfolding lines_from
entry_to_line s target = lines_from s.visible target 0 s.entries 0

unfoldable pub cursor_line : PickerState → Option ℕ
unfolding entry_to_line
cursor_line s = do idx ← current_entry_idx s; some (entry_to_line s idx)

unfoldable pub section_header_line : PickerState → Option ℕ
unfolding entry_to_line
section_header_line s = do
  idx ← current_entry_idx s
  some (entry_to_line s (section_bounds s idx).0)

-- A subtraction of `usize`, which panics below zero.
abbrev pub sub_usize : ℕ → ℕ → Option ℕ
sub_usize a b = if ltb a b then none else some (a - b)

-- The first half: scroll up to the cursor, or to its header if both fit.
unfoldable pub scroll_up : ℕ → ℕ → PickerState → Option PickerState
scroll_up line header_line s = do
  distance ← sub_usize line header_line
  some (record s { scroll = if ltb distance s.visible_height then header_line else line })

unfoldable pub scroll_down : ℕ → PickerState → PickerState
scroll_down line s =
    if leb (s.scroll + s.visible_height) line
    then record s { scroll = line - s.visible_height + 1 }
    else s

unfoldable pub ensure_at : ℕ → ℕ → PickerState → Option PickerState
unfolding scroll_up scroll_down
ensure_at line header_line s = do
  s' ← (if ltb line s.scroll then scroll_up line header_line s else some s)
  some (scroll_down line s')

unfoldable pub ensure_cursor_visible : PickerState → Option PickerState
unfolding ensure_at
ensure_cursor_visible s = if s.visible_height == 0 then some s else (do
  line ← cursor_line s
  header_line ← section_header_line s
  ensure_at line header_line s)

unfoldable pub move_up : PickerState → Option PickerState
move_up s =
    if ltb 0 s.cursor then ensure_cursor_visible (record s { cursor = s.cursor - 1 }) else some s

unfoldable pub move_down : PickerState → Option PickerState
move_down s =
    if ltb (s.cursor + 1) (length s.nav_stops)
    then ensure_cursor_visible (record s { cursor = s.cursor + 1 })
    else some s

unfoldable pub set_visible_height : ℕ → PickerState → PickerState
set_visible_height h s = record s { visible_height = h }
