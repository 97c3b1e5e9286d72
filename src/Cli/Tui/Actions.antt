-- ===== src/Cli/Tui/Actions.antt =====
-- The indices that the action of a key carries.
use battery_pack.Prelude.{ℕ, ◌<◌, ◌==◌, Text}
use battery_pack.Prelude.{if-both, not, Option, none, some}
use battery_pack.Cli.Tui.{
  ListScreen, DetailScreen, DetailItem, crate_item, extends_item, template_item, example_item,
  action_open_crates_io, action_add_to_project, action_new_project, FormScreen, PreviewScreen,
  item_count, selected_item,
}
use battery_pack.Cli.Tui.Keys.{
  KeyCode, up, down, left, right, enter, tab, back_tab, esc, backspace, delete, home, end_key,
  page_up, page_down, char, Action, list_action, template_name, detail_action, form_action,
  preview_action, enter_on, new_on, preview_on, use_on, use_named, select_of, is_empty,
}
use battery_pack.Cli.Tui.IsValid.{ForDetail, IsValidAction, IsValidForm}

pub list_action-IsValidAction : (s : ListScreen) (key : KeyCode) → IsValidAction (list_action s key)
unfolding list_action
list_action-IsValidAction s up = tt
list_action-IsValidAction s down = tt
list_action-IsValidAction s enter = selected s.selected
  where
    selected : (o : Option ℕ) → IsValidAction (select_of o)
    selected none = tt
    selected (some i) = tt
list_action-IsValidAction s esc = tt
list_action-IsValidAction s (char c) =
    if-both IsValidAction (c == b'k') (tt)
      (if-both IsValidAction (c == b'j') (tt) (if-both IsValidAction (c == b'q') (tt) (tt)))
list_action-IsValidAction s other = tt

module _ (s : DetailScreen) (v : s.selected_index < item_count s.detail) where
  enter_on-IsValidAction : (o : Option DetailItem) → IsValidAction (enter_on s o)
  enter_on-IsValidAction none = tt
  enter_on-IsValidAction (some (crate_item name)) = tt
  enter_on-IsValidAction (some (extends_item name)) = tt
  enter_on-IsValidAction (some (template_item path)) = v
  enter_on-IsValidAction (some (example_item name repo_path)) = tt
  enter_on-IsValidAction (some action_open_crates_io) = tt
  enter_on-IsValidAction (some action_add_to_project) = if-both IsValidAction s.in_project (tt) (tt)
  enter_on-IsValidAction (some action_new_project) = v

  new_on-IsValidAction : (o : Option DetailItem) → IsValidAction (new_on s o)
  new_on-IsValidAction none = tt
  new_on-IsValidAction (some (template_item path)) = v
  new_on-IsValidAction (some (crate_item name)) = tt
  new_on-IsValidAction (some (extends_item name)) = tt
  new_on-IsValidAction (some (example_item name repo_path)) = tt
  new_on-IsValidAction (some action_open_crates_io) = tt
  new_on-IsValidAction (some action_add_to_project) = tt
  new_on-IsValidAction (some action_new_project) = tt

  preview_on-IsValidAction : (o : Option DetailItem) → IsValidAction (preview_on s o)
  preview_on-IsValidAction none = tt
  preview_on-IsValidAction (some (template_item path)) = v
  preview_on-IsValidAction (some (crate_item name)) = tt
  preview_on-IsValidAction (some (extends_item name)) = tt
  preview_on-IsValidAction (some (example_item name repo_path)) = tt
  preview_on-IsValidAction (some action_open_crates_io) = tt
  preview_on-IsValidAction (some action_add_to_project) = tt
  preview_on-IsValidAction (some action_new_project) = tt

  use_named-IsValidAction : (o : Option Text) → IsValidAction (use_named s o)
  use_named-IsValidAction none = tt
  use_named-IsValidAction (some name) = v

  use_on-IsValidAction : (o : Option DetailItem) → IsValidAction (use_on s o)
  use_on-IsValidAction none = tt
  use_on-IsValidAction (some (template_item path)) =
      use_named-IsValidAction (template_name path s.detail.templates)
  use_on-IsValidAction (some (crate_item name)) = tt
  use_on-IsValidAction (some (extends_item name)) = tt
  use_on-IsValidAction (some (example_item name repo_path)) = tt
  use_on-IsValidAction (some action_open_crates_io) = tt
  use_on-IsValidAction (some action_add_to_project) = tt
  use_on-IsValidAction (some action_new_project) = tt

  pub detail_action-IsValidAction : (key : KeyCode) → IsValidAction (detail_action s key)
  unfolding detail_action
  detail_action-IsValidAction tab = tt
  detail_action-IsValidAction down = tt
  detail_action-IsValidAction back_tab = tt
  detail_action-IsValidAction up = tt
  detail_action-IsValidAction enter = enter_on-IsValidAction (selected_item s)
  detail_action-IsValidAction esc = tt
  detail_action-IsValidAction (char c) =
      let A = λ (a : Action). IsValidAction a in
      if-both A (c == b'j') (tt) (
        if-both A (c == b'k') (tt) (
          if-both A (c == b'n') (new_on-IsValidAction (selected_item s)) (
            if-both A (c == b'p') (preview_on-IsValidAction (selected_item s)) (
              if-both A (c == b'u')
                (if-both A s.in_project (use_on-IsValidAction (selected_item s)) (tt))
                (if-both A (c == b'q') (tt) (tt))))))
  detail_action-IsValidAction other = tt

pub form_action-IsValidAction :
    (s : FormScreen) (key : KeyCode) → IsValidForm s → IsValidAction (form_action s key)
unfolding form_action
form_action-IsValidAction s tab v = tt
form_action-IsValidAction s enter v = if-both IsValidAction (not (is_empty s.project_name)) v.1 (tt)
form_action-IsValidAction s esc v = v.1
form_action-IsValidAction s (char c) v = tt
form_action-IsValidAction s backspace v = tt
form_action-IsValidAction s delete v = tt
form_action-IsValidAction s left v = tt
form_action-IsValidAction s right v = tt
form_action-IsValidAction s home v = tt
form_action-IsValidAction s end_key v = tt
form_action-IsValidAction s other v = tt

pub preview_action-IsValidAction :
    (s : PreviewScreen) (key : KeyCode)
    → ForDetail s.detail s.selected_index
    → IsValidAction (preview_action s key)
unfolding preview_action
preview_action-IsValidAction s esc v = v
preview_action-IsValidAction s down v = tt
preview_action-IsValidAction s up v = tt
preview_action-IsValidAction s page_down v = tt
preview_action-IsValidAction s page_up v = tt
preview_action-IsValidAction s home v = tt
preview_action-IsValidAction s end_key v = tt
preview_action-IsValidAction s (char c) v =
    let A = λ (a : Action). IsValidAction a in
    if-both A (c == b'q') v (
      if-both A (c == b'j') (tt) (
        if-both A (c == b'k') (tt) (
          if-both A (c == b'f') (tt) (
            if-both A (c == b'b') (tt)
              (if-both A (c == b'g') (tt) (if-both A (c == b'G') (tt) (tt)))))))
preview_action-IsValidAction s other v = tt
