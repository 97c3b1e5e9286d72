-- ===== src/Cli/Tui.antt =====
-- src/battery-pack/bphelper-cli/src/tui: the screens of the terminal interface. Of a pack's details
-- and of a preview only what the keys work on is kept; the rest is drawn.
pub mod Input
pub mod Keys
pub mod Apply
pub mod IsValid
pub mod Actions
pub mod Reach
pub mod Typing
mod Tests
use battery_pack.Prelude.{ℕ, suc, ◌+◌, ◌-◌, ◌%◌, ltb, length, Text, chars, text_eq, any, get_elem?}
use battery_pack.Prelude.{
  Bool, true, false, Option, none, some, List, [], ◌∷◌, ◌++◌, if◌then◌else◌, map,
}
use battery_pack.Cli.Tui.Input.{byte_len}

pub record TemplateInfo : Type 0 where
  pub name : Text
  pub path : Text

pub record ExampleInfo : Type 0 where
  pub name : Text
  pub repo_path : Option Text

pub record BatteryPackSummary : Type 0 where
  pub name : Text
  pub short_name : Text

pub record BatteryPackDetail : Type 0 where
  pub name : Text
  pub short_name : Text
  pub repository : Option Text
  pub crates : List Text
  pub extends : List Text
  pub templates : List TemplateInfo
  pub examples : List ExampleInfo

pub data CrateSource : Type 0 where
  registry : CrateSource
  local : Text → CrateSource

pub data LoadingTarget : Type 0 where
  list_target : Option Text → LoadingTarget
  detail_target : Text → Option Text → Bool → LoadingTarget

pub record ListScreen : Type 0 where
  pub items : List BatteryPackSummary
  pub selected : Option ℕ
  pub filter : Option Text

pub record DetailScreen : Type 0 where
  pub detail : BatteryPackDetail
  pub selected_index : ℕ
  pub came_from_list : Bool
  pub in_project : Bool
  pub is_installed : Bool

pub data DetailItem : Type 0 where
  crate_item : Text → DetailItem
  extends_item : Text → DetailItem
  template_item : Text → DetailItem
  example_item : Text → Option Text → DetailItem
  action_open_crates_io : DetailItem
  action_add_to_project : DetailItem
  action_new_project : DetailItem

pub data FormField : Type 0 where
  directory_field : FormField
  project_name_field : FormField

pub record FormScreen : Type 0 where
  pub battery_pack : Text
  pub template : Option Text
  pub directory : Text
  pub project_name : Text
  pub focused_field : FormField
  pub cursor_position : ℕ
  pub detail : BatteryPackDetail
  pub selected_index : ℕ
  pub came_from_list : Bool

pub record PreviewScreen : Type 0 where
  pub battery_pack_name : Text
  pub template_name : Text
  pub scroll : ℕ
  pub line_count : ℕ
  pub detail : Option BatteryPackDetail
  pub selected_index : ℕ
  pub came_from_list : Bool

pub data Screen : Type 0 where
  empty : Screen
  loading : Text → LoadingTarget → Screen
  error : Text → LoadingTarget → Screen
  list : ListScreen → Screen
  detail : DetailScreen → Screen
  new_project_form : FormScreen → Screen
  preview : PreviewScreen → Screen

pub data PendingAction : Type 0 where
  open_url : Text → PendingAction
  add_to_project : Text → PendingAction
  new_project : Text → Option Text → Text → Text → PendingAction
  use_template : Text → Text → Option Text → Option Text → PendingAction

pub record App : Type 0 where
  pub source : CrateSource
  pub pack_path : Option Text
  pub screen : Screen
  pub should_quit : Bool
  pub pending_action : Option PendingAction
  pub in_project : Bool
  pub installed_bp_names : List Text

unfoldable pub item_count : BatteryPackDetail → ℕ
item_count d = length d.crates + length d.extends + length d.templates + length d.examples + 3

unfoldable pub selectable_items : BatteryPackDetail → List DetailItem
selectable_items d =
    map crate_item d.crates
    ++ (map extends_item d.extends
        ++ (map (λ (t : TemplateInfo). template_item t.path) d.templates
            ++ (map (λ (e : ExampleInfo). example_item e.name e.repo_path) d.examples
                ++ (action_open_crates_io ∷ action_add_to_project ∷ action_new_project ∷ []))))

unfoldable pub selected_item : DetailScreen → Option DetailItem
unfolding selectable_items
selected_item s = get_elem? (selectable_items s.detail) s.selected_index

-- An index that wraps around.
unfoldable pub wrapping_nav : ℕ → ℕ → Bool → ℕ
wrapping_nav index count forward =
    if ltb 0 count
    then (if forward then (index + 1) % count else (index + count - 1) % count)
    else index

abbrev pub select_next : DetailScreen → DetailScreen
select_next s = record s {
  selected_index = wrapping_nav s.selected_index (item_count s.detail) true;
}

abbrev pub select_prev : DetailScreen → DetailScreen
select_prev s = record s {
  selected_index = wrapping_nav s.selected_index (item_count s.detail) false;
}

-- A selection that stops at the ends.
unfoldable pub list_nav : Option ℕ → ℕ → Bool → Option ℕ
list_nav none count forward = none
list_nav (some selected) count true =
    if ltb selected (count - 1) then some (selected + 1) else some selected
list_nav (some selected) count false = if ltb 0 selected then some (selected - 1) else some selected

abbrev pub text_of : FormScreen → FormField → Text
text_of s directory_field = s.directory
text_of s project_name_field = s.project_name

abbrev pub focused_text : FormScreen → Text
focused_text s = text_of s s.focused_field

-- `String::len`, in bytes.
unfoldable pub focused_field_len : FormScreen → ℕ
focused_field_len s = byte_len (focused_text s)

abbrev pub put_text : FormScreen → FormField → Text → FormScreen
put_text s directory_field t = record s { directory = t }
put_text s project_name_field t = record s { project_name = t }

-- A write through `focused_field_mut`.
unfoldable pub set_focused : FormScreen → Text → FormScreen
set_focused s t = put_text s s.focused_field t
