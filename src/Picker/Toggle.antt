-- ===== src/Picker/Toggle.antt =====
-- src/sectioned-picker/src/state.rs: checking and unchecking items.
use battery_pack.Prelude.{ℕ, zero, suc, ◌+◌, ◌-◌, ltb, length, get_elem?, filter, all, any}
use battery_pack.Prelude.{Bool, true, false, not, ◌||◌, Option, some, List, [], ◌∷◌, if◌then◌else◌}
use battery_pack.Picker.{
  SelectionMode, checkbox, radio, Entry, header, item, PickerState, is_header, is_checked,
  checked_at, range_from, current_entry_idx, section_bounds,
}
use battery_pack.Picker.Scroll.{◌>>=◌}

-- `v[i] = f(v[i])`
abbrev pub modify_at {ℓ} : {A : Type ℓ} → (A → A) → ℕ → List A → List A
modify_at f i [] = []
modify_at f zero (x ∷ xs) = f x ∷ xs
modify_at f (suc i) (x ∷ xs) = x ∷ modify_at f i xs

-- `for i in i..i + n { v[i] = f(v[i]) }`
abbrev pub modify_range {ℓ} : {A : Type ℓ} → (A → A) → ℕ → ℕ → List A → List A
modify_range f i zero xs = xs
modify_range f i (suc n) xs = modify_range f (suc i) n (modify_at f i xs)

-- `if let Entry::Item { checked, .. } = entry { *checked = v; }`
abbrev pub set_checked : Bool → Entry → Entry
set_checked v (header title mode collapsed) = header title mode collapsed
set_checked v (item label checked description) = item label v description

abbrev pub flip_checked : Entry → Entry
flip_checked (header title mode collapsed) = header title mode collapsed
flip_checked (item label checked description) = item label (not checked) description

abbrev pub mode_of : Entry → SelectionMode
mode_of (header title mode collapsed) = mode
mode_of (item label checked description) = checkbox

abbrev pub is_radio : SelectionMode → Bool
is_radio radio = true
is_radio checkbox = false

unfoldable pub current_section_mode : PickerState → Option SelectionMode
current_section_mode s = do
  idx ← current_entry_idx s
  e ← get_elem? s.entries (section_bounds s idx).0
  some (mode_of e)

-- The items between a header and the end of its section.
abbrev pub item_range : ℕ × ℕ → List ℕ
item_range (header_idx, section_end) = range_from (header_idx + 1) (section_end - (header_idx + 1))

unfoldable pub checked_count : List Entry → ℕ × ℕ → ℕ
checked_count entries bounds = length (filter (checked_at entries) (item_range bounds))

unfoldable pub set_section : Bool → ℕ × ℕ → List Entry → List Entry
set_section v (header_idx, section_end) entries =
    modify_range (set_checked v) (header_idx + 1) (section_end - (header_idx + 1)) entries

-- The radio branch of `toggle`, on the entries.
unfoldable pub toggle_radio : ℕ → ℕ × ℕ → List Entry → List Entry
unfolding checked_count set_section
toggle_radio idx bounds entries =
    let cleared = set_section false bounds entries in
    if not (checked_at entries idx) || ltb 1 (checked_count entries bounds)
    then modify_at (set_checked true) idx cleared
    else cleared

unfoldable pub toggle : PickerState → Option PickerState
unfolding toggle_radio
toggle s = do
  idx ← current_entry_idx s
  e ← get_elem? s.entries idx
  if is_header e then some s else (do
    mode ← current_section_mode s
    some (
        if is_radio mode
        then record s { entries = toggle_radio idx (section_bounds s idx) s.entries }
        else record s { entries = modify_at flip_checked idx s.entries }))

unfoldable pub toggle_current_section : PickerState → Option PickerState
unfolding set_section
toggle_current_section s = do
  mode ← current_section_mode s
  if is_radio mode then some s else (do
    idx ← current_entry_idx s
    let bounds = section_bounds s idx
    let target = not (all (checked_at s.entries) (item_range bounds))
    some (record s { entries = set_section target bounds s.entries }))

unfoldable pub clear_current_section : PickerState → Option PickerState
unfolding set_section
clear_current_section s = do
  idx ← current_entry_idx s
  some (record s { entries = set_section false (section_bounds s idx) s.entries })

unfoldable pub backspace : PickerState → Option PickerState
unfolding clear_current_section
backspace s = do
  mode ← current_section_mode s
  if is_radio mode then clear_current_section s else some s

unfoldable pub has_any_checked : PickerState → Bool
has_any_checked s = any is_checked s.entries

unfoldable pub current_coordinates : PickerState → Option (ℕ × ℕ)
current_coordinates s = do idx ← current_entry_idx s; get_elem? s.coords idx
