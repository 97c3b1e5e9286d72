-- ===== src/Picker/Keys.antt =====
-- src/sectioned-picker/src/lib.rs, `run_picker_loop`: what a key press does to the state. Drawing and
-- polling for events are left out: a run is the list of the keys that were pressed. A custom
-- action's handler gets the coordinates and the terminal, and cannot change the state.
use battery_pack.Prelude.{
  ℕ, ◌==◌, any, Text, Result, ok, err, Bool, false, ◌&&◌, Option, none, some, List, [], ◌∷◌,
  if◌then◌else◌,
}
use battery_pack.Picker.{PickerState}
use battery_pack.Picker.Scroll.{◌>>=◌, move_up, move_down}
use battery_pack.Picker.Toggle.{
  toggle, toggle_current_section, backspace, has_any_checked, current_section_mode,
  current_coordinates, is_radio,
}
use battery_pack.Picker.Fold.{collapse_current, expand_current}
use battery_pack.Picker.Confirm.{try_confirm, set_confirm_error, clear_confirm_error}

pub data Key : Type 0 where
  up down left right backspace_key enter esc other : Key
  char : ℕ → Key

pub record KeyPress : Type 0 where
  pub code : Key
  pub control : Bool

pub data PickerOutcome : Type 0 where
  confirmed : List (List Bool) → PickerOutcome
  cancelled : PickerOutcome

-- A round of the loop goes on with a state, or returns an outcome.
pub data Round : Type 0 where
  again : PickerState → Round
  return : PickerOutcome → Round

abbrev pub resume : Option PickerState → Option Round
resume none = none
resume (some s) = some (again s)

abbrev answer : Result (List (List Bool)) Text × PickerState → Round
answer (ok results, s) = return (confirmed results)
answer (err msg, s) = again (set_confirm_error msg s)

-- If nothing is checked, the item under the cursor is, except in a radio section.
unfoldable pub check_one : PickerState → Option PickerState
check_one s =
    if has_any_checked s
    then some s
    else (do mode ← current_section_mode s; if is_radio mode then some s else toggle s)

unfoldable pub press_enter : PickerState → Option Round
unfolding check_one
press_enter s = do s' ← check_one s; some (answer (try_confirm s'))

unfoldable pub press_char : List ℕ → ℕ → PickerState → Option Round
press_char action_keys c s =
    if c == b'k'
    then resume (move_up s)
    else if c == b'j'
    then resume (move_down s)
    else if c == b' '
    then resume (toggle s)
    else if c == b'q'
    then some (return cancelled)
    else if c == b'a'
    then resume (toggle_current_section s)
    else if any (λ k. k == c) action_keys
    then (do coordinates ← current_coordinates s; some (again s))
    else some (again s)

unfoldable pub press : List ℕ → Key → PickerState → Option Round
unfolding press_enter press_char
press action_keys up s = resume (move_up s)
press action_keys down s = resume (move_down s)
press action_keys left s = resume (collapse_current s)
press action_keys right s = resume (expand_current s)
press action_keys backspace_key s = resume (backspace s)
press action_keys enter s = press_enter s
press action_keys esc s = some (return cancelled)
press action_keys other s = some (again s)
press action_keys (char c) s = press_char action_keys c s

abbrev pub is_char : ℕ → Key → Bool
is_char c (char d) = d == c
is_char c _ = false

unfoldable pub handle_key : List ℕ → KeyPress → PickerState → Option Round
unfolding press
handle_key action_keys key s =
    if key.control && is_char b'c' key.code
    then some (return cancelled)
    else press action_keys key.code (clear_confirm_error s)

-- The loop over the keys that are pressed; a list that ends leaves the picker open.
unfoldable pub run_keys : List ℕ → List KeyPress → PickerState → Option Round
unfolding handle_key
run_keys action_keys [] s = some (again s)
run_keys action_keys (k ∷ ks) s = do
  r ← handle_key action_keys k s
  elim r [ again s' ↦ run_keys action_keys ks s' | return o ↦ some (return o) ]
