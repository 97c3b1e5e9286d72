-- ===== src/Picker.antt =====
-- src/sectioned-picker/src/lib.rs (the sections) and src/sectioned-picker/src/state.rs: the state of
-- the picker, and its operations. `none` is a panic of the source: an index out of range, or a
-- subtraction below zero. The stops are indices of entries, so `section_bounds` is never asked about
-- an entry that is not there.
pub mod Scroll
pub mod Toggle
pub mod Fold
pub mod Confirm
pub mod Keys
pub mod Radio
pub mod Sections
pub mod Results
pub mod Viewport
pub mod Navigation
pub mod Empty
mod Tests
use battery_pack.Prelude.{
  ℕ, zero, suc, ◌+◌, ◌-◌, ◌==◌, ltb, leb, Text, chars, length, get_elem?, filter, any,
}
use battery_pack.Prelude.{
  Bool, true, false, not, ◌&&◌, ◌||◌, Option, none, some, List, [], ◌∷◌, ◌++◌, if◌then◌else◌,
}
use battery_pack.Prelude.{Result, ok, err}

pub data SelectionMode : Type 0 where
  checkbox radio : SelectionMode

pub record SectionItem : Type 0 where
  pub label : Text
  pub checked : Bool
  pub description : Option Text

pub record Section : Type 0 where
  pub title : Text
  pub items : List SectionItem
  pub selection_mode : SelectionMode
  pub collapsed : Bool

pub data Entry : Type 0 where
  header : Text → SelectionMode → Bool → Entry
  item : Text → Bool → Option Text → Entry

pub record PickerState : Type 0 where
  pub entries : List Entry
  pub coords : List (ℕ × ℕ)
  pub visible : List Bool
  pub nav_stops : List ℕ
  pub cursor : ℕ
  pub scroll : ℕ
  pub visible_height : ℕ
  pub confirm_error : Option Text

-- The three vectors that `new` fills.
pub record Flat : Type 0 where
  pub entries : List Entry
  pub coords : List (ℕ × ℕ)
  pub visible : List Bool

unfoldable pub push_items : ℕ → Bool → ℕ → List SectionItem → Flat → Flat
push_items section_idx collapsed item_idx [] flat = flat
push_items section_idx collapsed item_idx (i ∷ is) flat =
    push_items section_idx collapsed (suc item_idx) is (record {
      entries = flat.entries ++ item i.label i.checked i.description ∷ [];
      coords = flat.coords ++ (section_idx, item_idx) ∷ [];
      visible = flat.visible ++ not collapsed ∷ [];
    })

unfoldable pub push_sections : ℕ → List Section → Flat → Flat
unfolding push_items
push_sections section_idx [] flat = flat
push_sections section_idx (s ∷ ss) flat = push_sections (suc section_idx) ss (
    push_items section_idx s.collapsed 0 s.items (record {
      entries = flat.entries ++ header s.title s.selection_mode s.collapsed ∷ [];
      coords = flat.coords ++ (section_idx, 0) ∷ [];
      visible = flat.visible ++ true ∷ [];
    }))

abbrev pub or_false : Option Bool → Bool
or_false none = false
or_false (some b) = b

-- An entry and its visibility: an item is a stop if it is visible, a header if it is collapsed. The
-- two vectors have one length, so `visible[i]` is there.
unfoldable pub entry_stop : Entry → Option Bool → Bool
entry_stop (header title mode collapsed) v = collapsed
entry_stop (item label checked description) v = or_false v

unfoldable pub is_nav_stop : List Entry → List Bool → ℕ → Bool
unfolding entry_stop
is_nav_stop entries visible i = elim (get_elem? entries i) [
  | none ↦ false
  | some e ↦ entry_stop e (get_elem? visible i)
]

-- `(i..i + n)`
abbrev pub range_from : ℕ → ℕ → List ℕ
range_from i zero = []
range_from i (suc n) = i ∷ range_from (suc i) n

unfoldable pub nav_stops_of : List Entry → List Bool → List ℕ
unfolding is_nav_stop
nav_stops_of entries visible = filter (is_nav_stop entries visible) (range_from 0 (length entries))

unfoldable pub rebuild_nav_stops : PickerState → PickerState
unfolding nav_stops_of
rebuild_nav_stops s = record s { nav_stops = nav_stops_of s.entries s.visible }

unfoldable pub new : List Section → PickerState
unfolding push_sections rebuild_nav_stops
new sections =
    let flat = push_sections 0 sections (record { entries = []; coords = []; visible = [] }) in
    rebuild_nav_stops (record {
      entries = flat.entries;
      coords = flat.coords;
      visible = flat.visible;
      nav_stops = [];
      cursor = 0;
      scroll = 0;
      visible_height = 0;
      confirm_error = none;
    })

abbrev pub null {ℓ} : {A : Type ℓ} → List A → Bool
null [] = true
null (x ∷ xs) = false

unfoldable pub is_empty : PickerState → Bool
is_empty s = null s.nav_stops

unfoldable pub current_entry_idx : PickerState → Option ℕ
current_entry_idx s = get_elem? s.nav_stops s.cursor

abbrev pub is_header : Entry → Bool
is_header (header title mode collapsed) = true
is_header (item label checked description) = false

abbrev pub is_checked : Entry → Bool
is_checked (header title mode collapsed) = false
is_checked (item label checked description) = checked

abbrev pub header_at : List Entry → ℕ → Bool
header_at entries i = elim (get_elem? entries i) [ none ↦ false | some e ↦ is_header e ]

abbrev pub checked_at : List Entry → ℕ → Bool
checked_at entries i = elim (get_elem? entries i) [ none ↦ false | some e ↦ is_checked e ]

-- `(0..=i).rev().find(header).unwrap_or(0)`
unfoldable pub header_before : List Entry → ℕ → ℕ
header_before entries zero = 0
header_before entries (suc i) =
    let earlier = header_before entries i in if header_at entries (suc i) then suc i else earlier

-- `(i..i + n).find(header).unwrap_or(otherwise)`
unfoldable pub header_after : List Entry → ℕ → ℕ → ℕ → ℕ
header_after entries otherwise i zero = otherwise
header_after entries otherwise i (suc n) =
    let later = header_after entries otherwise (suc i) n in if header_at entries i then i else later

unfoldable pub section_bounds : PickerState → ℕ → ℕ × ℕ
unfolding header_before header_after
section_bounds s entry_idx =
    let header_idx = header_before s.entries entry_idx in
    let len = length s.entries in
    (header_idx, header_after s.entries len (header_idx + 1) (len - (header_idx + 1)))
