-- ===== src/Cli/Tui/Apply.antt =====
-- src/battery-pack/bphelper-cli/src/tui/mod.rs, `handle_key` and `process_loading`: what the action of
-- a key does, and how a screen is loaded.
use battery_pack.Prelude.{
  or_else, or_default, ℕ, ◌+◌, ◌-◌, ◌^◌, ◌%◌, ◌==◌, ltb, length, get_elem?, Text, chars, text_eq,
  any, Result, ok, err,
}
use battery_pack.Prelude.{Bool, true, false, Option, none, some, List, [], ◌∷◌, ◌++◌, if◌then◌else◌}
use battery_pack.FeatureRef.{strip_prefix}
use battery_pack.Cli.Names.{strip_suffix}
use battery_pack.Cli.Tui.Input.{insert_char, remove_char}
use battery_pack.Cli.Tui.{
  BatteryPackSummary, BatteryPackDetail, CrateSource, registry, local, LoadingTarget, list_target,
  detail_target, DetailScreen, FormField, directory_field, project_name_field, FormScreen,
  PreviewScreen, Screen, empty, loading, error, list, detail, new_project_form, preview,
  PendingAction, open_url, add_to_project, new_project, use_template, App, item_count, select_next,
  select_prev, list_nav, focused_text, focused_field_len, set_focused,
}
use battery_pack.Cli.Tui.Keys.{
  KeyCode, enter, esc, char, Delta, forward, back, Action, no_action, quit, list_select, list_up,
  list_down, detail_next, detail_prev, open_crates_io_url, open_example, detail_add,
  detail_new_project, detail_use_template, detail_back, form_toggle_field, form_submit, form_cancel,
  form_char, form_backspace, form_delete, form_left, form_right, form_home, form_end,
  preview_template, preview_scroll, preview_back, list_action, template_name, detail_action,
  form_action, preview_action,
}

-- The current directory, the number of lines of a template's rendered preview or of its error, and
-- what is fetched from a source. Fetching and rendering a template may panic (`none`).
pub record World : Type 0 where
  pub current_dir : Text
  pub preview_lines : App → BatteryPackDetail → Text → Option ℕ
  pub fetch_list : CrateSource → Option Text → Result (List BatteryPackSummary) Text
  pub fetch_detail : CrateSource → Text → Option Text → Result BatteryPackDetail Text

abbrev trimmed : ℕ → Text → Text
trimmed c [] = if c == b'/' then [] else c ∷ []
trimmed c (d ∷ s) = c ∷ d ∷ s

-- `trim_end_matches('/')`
unfoldable pub trim_slashes : Text → Text
trim_slashes [] = []
trim_slashes (c ∷ s) = trimmed c (trim_slashes s)

abbrev at_github : Text → Text → Option Text → Text
at_github repo path none = repo
at_github repo path (some gh_path) =
    chars "https://github.com/"
    ++ (trim_slashes (or_default gh_path (strip_suffix (chars ".git") gh_path))
        ++ (chars "/blob/main/" ++ path))

unfoldable pub build_github_blob_url : Option Text → Text → Text
unfolding trim_slashes strip_suffix strip_prefix
build_github_blob_url none path = chars "https://crates.io"
build_github_blob_url (some repo) path = at_github repo path (
    or_else (strip_prefix (chars "https://github.com/") repo)
      (strip_prefix (chars "http://github.com/") repo))

abbrev example_url : Option Text → Option Text → Text
example_url repository (some path) = build_github_blob_url repository path
example_url repository none = or_default (chars "https://crates.io") repository

abbrev pub go_to : App → Screen → App
go_to app screen = record app { screen = screen }

abbrev pub pending : App → PendingAction → App
pending app next = record app { pending_action = some next }

abbrev pub detail_screen : App → BatteryPackDetail → ℕ → Bool → Screen
detail_screen app d selected_index came_from_list = detail (record {
  detail = d;
  selected_index = selected_index;
  came_from_list = came_from_list;
  in_project = app.in_project;
  is_installed = any (λ n. text_eq n d.name) app.installed_bp_names;
})

abbrev local_path : CrateSource → Option Text
local_path (local p) = some p
local_path registry = none

abbrev pub other_field : FormField → FormField
other_field directory_field = project_name_field
other_field project_name_field = directory_field

abbrev pub at_end : FormScreen → FormScreen
at_end s = record s { cursor_position = focused_field_len s }

abbrev pub edited : FormScreen → ℕ → Option Text → Option FormScreen
edited s cursor none = none
edited s cursor (some t) = some (record (set_focused s t) { cursor_position = cursor })

-- The edits of the form.
unfoldable pub form_edit : Action → FormScreen → Option FormScreen
unfolding insert_char remove_char set_focused focused_field_len
form_edit form_toggle_field s =
    some (at_end (record s { focused_field = other_field s.focused_field }))
form_edit (form_char c) s =
    edited s (s.cursor_position + 1) (insert_char s.cursor_position c (focused_text s))
form_edit form_backspace s =
    if ltb 0 s.cursor_position
    then edited s (s.cursor_position - 1) (remove_char (s.cursor_position - 1) (focused_text s))
    else some s
form_edit form_delete s =
    if ltb s.cursor_position (focused_field_len s)
    then edited s s.cursor_position (remove_char s.cursor_position (focused_text s))
    else some s
form_edit form_left s = some (record s { cursor_position = s.cursor_position - 1 })
form_edit form_right s =
    if ltb s.cursor_position (focused_field_len s)
    then some (record s { cursor_position = s.cursor_position + 1 })
    else some s
form_edit form_home s = some (record s { cursor_position = 0 })
form_edit form_end s = some (at_end s)
form_edit other s = some s

abbrev pub on_form : App → Action → Screen → Option App
on_form app edit (new_project_form s) = elim (form_edit edit s) [
  | none ↦ none
  | some s' ↦ some (go_to app (new_project_form s'))
]
on_form app edit other = some app

abbrev pub min : ℕ → ℕ → ℕ
min a b = if ltb a b then a else b

-- `(scroll + delta).clamp(0, line_count - 1)`
unfoldable pub scrolled : Delta → PreviewScreen → PreviewScreen
scrolled (forward n) s = record s { scroll = min (s.scroll + n) (s.line_count - 1) }
scrolled (back n) s = record s { scroll = min (s.scroll - n) (s.line_count - 1) }

abbrev pub on_preview : App → Delta → Screen → App
on_preview app delta (preview s) = go_to app (preview (scrolled delta s))
on_preview app delta other = app

abbrev pub on_list : App → Bool → Screen → App
on_list app is_forward (list s) =
    go_to app (list (record s { selected = list_nav s.selected (length s.items) is_forward }))
on_list app is_forward other = app

abbrev pub open_pack : App → Option BatteryPackSummary → App
open_pack app none = app
open_pack app (some bp) =
    go_to app (
      loading (chars "Loading " ++ (bp.short_name ++ chars "..."))
        (detail_target bp.name none true))

abbrev pub on_select : App → ℕ → Screen → App
on_select app selected (list s) = open_pack app (get_elem? s.items selected)
on_select app selected other = app

abbrev pub on_detail : App → (DetailScreen → DetailScreen) → Screen → App
on_detail app f (detail s) = go_to app (detail (f s))
on_detail app f other = app

abbrev pub quitting : App → App
quitting app = record app { should_quit = true }

abbrev crates_io : Text → PendingAction
crates_io name = open_url (chars "https://crates.io/crates/" ++ name)

module _ (world : World) where
  -- The preview of a template, whose number of lines is cut to 16 bits.
  abbrev pub opened_preview : BatteryPackDetail → Text → ℕ → Bool → ℕ → Screen
  opened_preview d path selected_index came_from_list lines = preview (record {
    battery_pack_name = d.name;
    template_name = or_default path (template_name path d.templates);
    scroll = 0;
    line_count = lines % 2 ^ 16;
    detail = some d;
    selected_index = selected_index;
    came_from_list = came_from_list;
  })

  abbrev pub show_preview : App → BatteryPackDetail → Text → ℕ → Bool → Option ℕ → Option App
  show_preview app d path selected_index came_from_list none = none
  show_preview app d path selected_index came_from_list (some lines) =
      some (go_to app (opened_preview d path selected_index came_from_list lines))

  unfoldable pub apply : Action → App → Option App
  unfolding item_count list_nav form_edit scrolled build_github_blob_url template_name
  apply no_action app = some app
  apply quit app = some (quitting app)
  apply list_up app = some (on_list app false app.screen)
  apply list_down app = some (on_list app true app.screen)
  apply (list_select selected) app = some (on_select app selected app.screen)
  apply detail_next app = some (on_detail app select_next app.screen)
  apply detail_prev app = some (on_detail app select_prev app.screen)
  apply (open_crates_io_url name) app = some (pending app (crates_io name))
  apply (open_example repository repo_path) app =
      some (pending app (open_url (example_url repository repo_path)))
  apply (detail_add battery_pack) app = some (pending app (add_to_project battery_pack))
  apply (detail_new_project d template selected_index came_from_list) app = some (
      go_to app (
        new_project_form (record {
          battery_pack = d.short_name;
          template = template;
          directory = world.current_dir;
          project_name = [];
          focused_field = project_name_field;
          cursor_position = 0;
          detail = d;
          selected_index = selected_index;
          came_from_list = came_from_list;
        })))
  apply (detail_use_template d template selected_index came_from_list) app = some (
      go_to (pending app (use_template d.short_name template (local_path app.source) app.pack_path))
        (detail_screen app d selected_index came_from_list))
  apply (detail_back came_from_list) app =
      if came_from_list
      then some (go_to app (loading (chars "Loading battery packs...") (list_target none)))
      else some (quitting app)
  apply (form_submit battery_pack template directory name d selected_index came_from_list) app =
      some (
        go_to (pending app (new_project battery_pack template directory name))
          (detail_screen app d selected_index came_from_list))
  apply (form_cancel d selected_index came_from_list) app =
      some (go_to app (detail_screen app d selected_index came_from_list))
  apply (preview_template d path selected_index came_from_list) app =
      show_preview app d path selected_index came_from_list (world.preview_lines app d path)
  apply (preview_scroll delta) app = some (on_preview app delta app.screen)
  apply (preview_back (some d) selected_index came_from_list) app =
      some (go_to app (detail_screen app d selected_index came_from_list))
  apply (preview_back none selected_index came_from_list) app = some (quitting app)
  apply form_toggle_field app = on_form app form_toggle_field app.screen
  apply (form_char c) app = on_form app (form_char c) app.screen
  apply form_backspace app = on_form app form_backspace app.screen
  apply form_delete app = on_form app form_delete app.screen
  apply form_left app = on_form app form_left app.screen
  apply form_right app = on_form app form_right app.screen
  apply form_home app = on_form app form_home app.screen
  apply form_end app = on_form app form_end app.screen

  abbrev pub retry : App → LoadingTarget → App
  retry app target = go_to app (loading (chars "Loading...") target)

  unfoldable pub handle_error_key : KeyCode → LoadingTarget → App → App
  handle_error_key enter target app = retry app target
  handle_error_key esc target app = quitting app
  handle_error_key (char c) target app =
      if c == b'r' then retry app target else if c == b'q' then quitting app else app
  handle_error_key other target app = app

  abbrev pub handle_on : Screen → KeyCode → App → Option App
  handle_on empty key app = some app
  handle_on (loading message target) key app = some app
  handle_on (error message target) key app = some (handle_error_key key target app)
  handle_on (list s) key app = apply (list_action s key) app
  handle_on (detail s) key app = apply (detail_action s key) app
  handle_on (new_project_form s) key app = apply (form_action s key) app
  handle_on (preview s) key app = apply (preview_action s key) app

  unfoldable pub handle_key : KeyCode → App → Option App
  unfolding apply handle_error_key list_action detail_action form_action preview_action
  handle_key key app = handle_on app.screen key app

  abbrev pub first_of : List BatteryPackSummary → Option ℕ
  first_of [] = none
  first_of (x ∷ xs) = some 0

  abbrev pub listed : App → Option Text → Result (List BatteryPackSummary) Text → Screen
  listed app filter (ok items) =
      list (record { items = items; selected = first_of items; filter = filter })
  listed app filter (err e) = error e (list_target filter)

  abbrev pub detailed : App → Text → Option Text → Bool → Result BatteryPackDetail Text → Screen
  detailed app name path came_from_list (ok d) =
      detail_screen app d (item_count d - 3) came_from_list
  detailed app name path came_from_list (err e) = error e (detail_target name path came_from_list)

  abbrev pub load_screen : App → Screen → App
  load_screen app (loading message (list_target filter)) =
      go_to app (listed app filter (world.fetch_list app.source filter))
  load_screen app (loading message (detail_target name path came_from_list)) =
      go_to app (detailed app name path came_from_list (world.fetch_detail app.source name path))
  load_screen app other = app

  unfoldable pub process_loading : App → App
  unfolding item_count
  process_loading app = load_screen app app.screen
