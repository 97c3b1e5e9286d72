-- ===== src/Cli/Tui/Tests.antt =====
-- The laws at a small pack, and a run that shows a panic.
use battery_pack.Prelude.{ℕ, ◌<◌, ◌≡◌, refl, arith, Text, chars, ok}
use battery_pack.Prelude.{true, false, none, some, [], ◌∷◌}
use battery_pack.Cli.Tui.Input.{insert_char, len_utf8, byte_len}
use battery_pack.Cli.Tui.{
  BatteryPackDetail, CrateSource, list_target, project_name_field, FormScreen, Screen, loading,
  new_project_form, App,
}
use battery_pack.Cli.Tui.Keys.{char}
use battery_pack.Cli.Tui.Apply.{World, handle_key, process_loading}
use battery_pack.Cli.Tui.IsValid.{IsValidScreen}
use battery_pack.Cli.Tui.Reach.{Reach, here, next, load, Reach-IsValidScreen}
use battery_pack.Cli.Tui.Typing.{IsAsciiScreen, handle_key-panics, handle_key-total}

abbrev pack : BatteryPackDetail
pack = record {
  name = chars "cli-battery-pack";
  short_name = chars "cli";
  repository = none;
  crates = chars "clap" ∷ [];
  extends = [];
  templates = [];
  examples = [];
}

abbrev world : World
world = record {
  current_dir = chars "/w";
  preview_lines = λ app d path. some 10;
  fetch_list = λ source filter.
      ok (record { name = chars "cli-battery-pack"; short_name = chars "cli" } ∷ []);
  fetch_detail = λ source name path. ok pack;
}

abbrev app_on : Screen → App
app_on screen = record {
  source = CrateSource.registry;
  pack_path = none;
  screen = screen;
  should_quit = false;
  pending_action = none;
  in_project = true;
  installed_bp_names = [];
}

abbrev start : App
start = app_on (loading (chars "Loading battery packs...") (list_target none))

run : Reach world start (process_loading world start)
run = next here (load start)

Reach-IsValidScreen_example : IsValidScreen (process_loading world start).screen
Reach-IsValidScreen_example =
    Reach-IsValidScreen world (chars "Loading battery packs...") (list_target none) refl run

abbrev form_with : Text → ℕ → FormScreen
form_with name cursor = record {
  battery_pack = chars "cli";
  template = none;
  directory = chars "/w";
  project_name = name;
  focused_field = project_name_field;
  cursor_position = cursor;
  detail = pack;
  selected_index = 3;
  came_from_list = true;
}

abbrev form : App
form = app_on (new_project_form (form_with [] 0))

-- The letter é takes two bytes.
abbrev typed : App
typed = app_on (new_project_form (form_with (0xe9 ∷ []) 1))

wide : 1 < len_utf8 0xe9
unfolding len_utf8
wide = omega arith

typed_once : handle_key world (char 0xe9) form ≡ some typed
unfolding handle_key insert_char
typed_once = refl

handle_key-panics_example : handle_key world (char b'a') typed ≡ none
handle_key-panics_example =
    handle_key-panics world form typed (form_with [] 0) 0xe9 b'a' refl wide typed_once

ascii_form : IsAsciiScreen (new_project_form (form_with (chars "ab") 2))
unfolding byte_len len_utf8
ascii_form = ((omega arith, (omega arith, tt)), omega arith)

handle_key-total_example :
    (app' : App) × (handle_key world
        (char b'c')
        (app_on (new_project_form (form_with (chars "ab") 2)))
      ≡ some app')
handle_key-total_example =
    handle_key-total world (char b'c') (app_on (new_project_form (form_with (chars "ab") 2)))
      (λ d path e. cc e) (omega arith) ascii_form
