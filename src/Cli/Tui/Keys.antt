-- ===== src/Cli/Tui/Keys.antt =====
-- src/battery-pack/bphelper-cli/src/tui/mod.rs, `handle_key`: the action of a key on each screen and
-- what it does to the interface. `none` is a panic, of an edit of a text between two bytes of a
-- character.
use battery_pack.Prelude.{ℕ, ◌==◌, Text, chars, text_eq, ends_with}
use battery_pack.Prelude.{
  Bool, true, false, not, Option, none, some, List, [], ◌∷◌, ◌++◌, if◌then◌else◌,
}
use battery_pack.Cli.Tui.{
  TemplateInfo, BatteryPackDetail, ListScreen, DetailScreen, DetailItem, crate_item, extends_item,
  template_item, example_item, action_open_crates_io, action_add_to_project, action_new_project,
  FormScreen, PreviewScreen, selected_item,
}

-- `crossterm::event::KeyCode`
pub data KeyCode : Type 0 where
  up down left right enter tab back_tab esc backspace delete home end_key page_up page_down :
      KeyCode
  char : ℕ → KeyCode
  other_key : KeyCode

-- A step of the scroll offset, down or up.
pub data Delta : Type 0 where
  forward : ℕ → Delta
  back : ℕ → Delta

pub data Action : Type 0 where
  no_action : Action
  quit : Action
  list_select : ℕ → Action
  list_up : Action
  list_down : Action
  detail_next : Action
  detail_prev : Action
  open_crates_io_url : Text → Action
  open_example : Option Text → Option Text → Action
  detail_add : Text → Action
  detail_new_project : BatteryPackDetail → Option Text → ℕ → Bool → Action
  detail_use_template : BatteryPackDetail → Text → ℕ → Bool → Action
  detail_back : Bool → Action
  form_toggle_field : Action
  form_submit : Text → Option Text → Text → Text → BatteryPackDetail → ℕ → Bool → Action
  form_cancel : BatteryPackDetail → ℕ → Bool → Action
  form_char : ℕ → Action
  form_backspace : Action
  form_delete : Action
  form_left : Action
  form_right : Action
  form_home : Action
  form_end : Action
  preview_template : BatteryPackDetail → Text → ℕ → Bool → Action
  preview_scroll : Delta → Action
  preview_back : Option BatteryPackDetail → ℕ → Bool → Action

abbrev pub select_of : Option ℕ → Action
select_of none = no_action
select_of (some i) = list_select i

unfoldable pub list_action : ListScreen → KeyCode → Action
list_action s up = list_up
list_action s down = list_down
list_action s enter = select_of s.selected
list_action s esc = quit
list_action s (char c) =
    if c == b'k'
    then list_up
    else if c == b'j'
    then list_down
    else if c == b'q'
    then quit
    else no_action
list_action s other = no_action

-- `templates.iter().find(|t| t.path == path).map(|t| t.name)`
unfoldable pub template_name : Text → List TemplateInfo → Option Text
template_name path [] = none
template_name path (t ∷ ts) = if text_eq t.path path then some t.name else template_name path ts

-- The full name of an extended pack.
abbrev full_name : Text → Text
full_name bp_name =
    if ends_with (chars "-battery-pack") bp_name then bp_name else bp_name ++ chars "-battery-pack"

abbrev pub enter_on : DetailScreen → Option DetailItem → Action
enter_on s none = no_action
enter_on s (some (crate_item name)) = open_crates_io_url name
enter_on s (some (extends_item name)) = open_crates_io_url (full_name name)
enter_on s (some (template_item path)) =
    preview_template s.detail path s.selected_index s.came_from_list
enter_on s (some (example_item name repo_path)) = open_example s.detail.repository repo_path
enter_on s (some action_open_crates_io) = open_crates_io_url s.detail.name
enter_on s (some action_add_to_project) =
    if s.in_project then detail_add s.detail.short_name else no_action
enter_on s (some action_new_project) =
    detail_new_project s.detail none s.selected_index s.came_from_list

abbrev pub new_on : DetailScreen → Option DetailItem → Action
new_on s (some (template_item path)) =
    detail_new_project s.detail (template_name path s.detail.templates) s.selected_index
      s.came_from_list
new_on s _ = no_action

abbrev pub preview_on : DetailScreen → Option DetailItem → Action
preview_on s (some (template_item path)) =
    preview_template s.detail path s.selected_index s.came_from_list
preview_on s _ = no_action

abbrev pub use_named : DetailScreen → Option Text → Action
use_named s none = no_action
use_named s (some name) = detail_use_template s.detail name s.selected_index s.came_from_list

abbrev pub use_on : DetailScreen → Option DetailItem → Action
use_on s (some (template_item path)) = use_named s (template_name path s.detail.templates)
use_on s _ = no_action

abbrev pub detail_char : DetailScreen → ℕ → Action
detail_char s c =
    if c == b'j'
    then detail_next
    else if c == b'k'
    then detail_prev
    else if c == b'n'
    then new_on s (selected_item s)
    else if c == b'p'
    then preview_on s (selected_item s)
    else if c == b'u'
    then (if s.in_project then use_on s (selected_item s) else no_action)
    else if c == b'q'
    then quit
    else no_action

unfoldable pub detail_action : DetailScreen → KeyCode → Action
unfolding selected_item template_name
detail_action s tab = detail_next
detail_action s down = detail_next
detail_action s back_tab = detail_prev
detail_action s up = detail_prev
detail_action s enter = enter_on s (selected_item s)
detail_action s esc = detail_back s.came_from_list
detail_action s (char c) = detail_char s c
detail_action s other = no_action

abbrev pub is_empty : Text → Bool
is_empty [] = true
is_empty (c ∷ s) = false

unfoldable pub form_action : FormScreen → KeyCode → Action
form_action s tab = form_toggle_field
form_action s enter =
    if not (is_empty s.project_name)
    then form_submit s.battery_pack s.template s.directory s.project_name s.detail s.selected_index
        s.came_from_list
    else no_action
form_action s esc = form_cancel s.detail s.selected_index s.came_from_list
form_action s (char c) = form_char c
form_action s backspace = form_backspace
form_action s delete = form_delete
form_action s left = form_left
form_action s right = form_right
form_action s home = form_home
form_action s end_key = form_end
form_action s other = no_action

abbrev pub preview_char : PreviewScreen → ℕ → Action
preview_char s c =
    if c == b'q'
    then preview_back s.detail s.selected_index s.came_from_list
    else if c == b'j'
    then preview_scroll (forward 1)
    else if c == b'k'
    then preview_scroll (back 1)
    else if c == b'f'
    then preview_scroll (forward 20)
    else if c == b'b'
    then preview_scroll (back 20)
    else if c == b'g'
    then preview_scroll (back 30000)
    else if c == b'G'
    then preview_scroll (forward 30000)
    else no_action

unfoldable pub preview_action : PreviewScreen → KeyCode → Action
preview_action s esc = preview_back s.detail s.selected_index s.came_from_list
preview_action s down = preview_scroll (forward 1)
preview_action s up = preview_scroll (back 1)
preview_action s page_down = preview_scroll (forward 20)
preview_action s page_up = preview_scroll (back 20)
preview_action s home = preview_scroll (back 30000)
preview_action s end_key = preview_scroll (forward 30000)
preview_action s (char c) = preview_char s c
preview_action s other = no_action
