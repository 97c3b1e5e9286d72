-- ===== src/Picker/Confirm.antt =====
-- src/sectioned-picker/src/state.rs: validating and extracting the selection.
use battery_pack.Prelude.{ℕ, suc, ltb, Text, chars, Result, ok, err}
use battery_pack.Prelude.{Bool, true, false, Option, none, some, List, [], ◌∷◌, ◌++◌, if◌then◌else◌}
use battery_pack.Picker.{Entry, header, item, PickerState, section_bounds}
use battery_pack.Picker.Toggle.{checked_count, is_radio}

unfoldable pub section_checked_count : PickerState → ℕ → ℕ
unfolding checked_count
section_checked_count s header_idx =
    let (_, section_end) = section_bounds s header_idx in
    checked_count s.entries (header_idx, section_end)

abbrev conflict_at : (ℕ → ℕ) → Entry → ℕ → Option Text
conflict_at count (header title mode collapsed) i =
    if is_radio mode then (if ltb 1 (count i) then some title else none) else none
conflict_at count (item label checked description) i = none

abbrev or_next : Option Text → Option Text → Option Text
or_next none rest = rest
or_next (some t) rest = some t

-- The loop over the entries from index `i`.
unfoldable pub conflict_from : (ℕ → ℕ) → List Entry → ℕ → Option Text
conflict_from count [] i = none
conflict_from count (e ∷ es) i = or_next (conflict_at count e i) (conflict_from count es (suc i))

unfoldable pub radio_conflict_title : PickerState → Option Text
unfolding conflict_from
radio_conflict_title s = conflict_from (section_checked_count s) s.entries 0

-- The loop of `into_results`: the finished sections, the current one, and whether a header came.
unfoldable pub collect : List Entry → List (List Bool) → List Bool → Bool → List (List Bool)
collect [] results current seen_header = if seen_header then results ++ current ∷ [] else results
collect (header title mode collapsed ∷ es) results current true =
    collect es (results ++ current ∷ []) [] true
collect (header title mode collapsed ∷ es) results current false = collect es results current true
collect (item label checked description ∷ es) results current seen_header =
    collect es results (current ++ checked ∷ []) seen_header

-- The entries are taken out of the state.
unfoldable pub into_results : PickerState → List (List Bool) × PickerState
unfolding collect
into_results s = (collect s.entries [] [] false, record s { entries = [] })

unfoldable pub conflict_message : Text → Text
conflict_message title = chars "category '" ++ (title ++ chars "' allows at most one selection")

unfoldable pub try_confirm : PickerState → Result (List (List Bool)) Text × PickerState
unfolding into_results
try_confirm s = elim (radio_conflict_title s) [
  | some title ↦ (err (conflict_message title), s)
  | none ↦ let (results, s') = into_results s in (ok results, s')
]

unfoldable pub set_confirm_error : Text → PickerState → PickerState
set_confirm_error msg s = record s { confirm_error = some msg }

unfoldable pub clear_confirm_error : PickerState → PickerState
clear_confirm_error s = record s { confirm_error = none }
