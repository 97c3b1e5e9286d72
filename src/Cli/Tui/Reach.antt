-- ===== src/Cli/Tui/Reach.antt =====
-- What a key does to a valid screen, and the runs of the interface.
use battery_pack.Prelude.{ℕ, ◌<◌, ◌==◌, length, get_elem?, ◌≡◌, refl, arith, Text, Result, ok, err}
use battery_pack.Prelude.{if-both, Bool, true, false, Option, none, some, List, [], ◌∷◌}
use battery_pack.Cli.Tui.{
  BatteryPackSummary, BatteryPackDetail, LoadingTarget, list_target, detail_target, FormScreen,
  Screen, empty, loading, error, list, detail, new_project_form, preview, App, item_count,
  wrapping_nav,
}
use battery_pack.Cli.Tui.Keys.{
  KeyCode, enter, esc, char, Delta, Action, no_action, quit, list_select, list_up, list_down,
  detail_next, detail_prev, open_crates_io_url, open_example, detail_add, detail_new_project,
  detail_use_template, detail_back, form_toggle_field, form_submit, form_cancel, form_char,
  form_backspace, form_delete, form_left, form_right, form_home, form_end, preview_template,
  preview_scroll, preview_back, list_action, detail_action, form_action, preview_action,
}
use battery_pack.Cli.Tui.Apply.{
  World, form_edit, apply, handle_on, go_to, quitting, listed, detailed, handle_key,
  handle_error_key, load_screen, process_loading, show_preview, on_form, on_list, on_detail,
  on_preview, on_select, open_pack,
}
use battery_pack.Cli.Tui.IsValid.{
  IsValidScreen, IsValidAction, form_edit-IsValidForm, item_count_pos, wrapping_nav-lt,
  list_nav-InRange, scrolled_bound,
}
use battery_pack.Cli.Tui.Actions.{
  list_action-IsValidAction, detail_action-IsValidAction, form_action-IsValidAction,
  preview_action-IsValidAction,
}

done : (a b : App) → some a ≡ some b → IsValidScreen a.screen → IsValidScreen b.screen
done a b e v = let q : a ≡ b = cc e in rw (← q) v

on_list-IsValidScreen :
    (app : App) (b : Bool) (x : Screen)
    → app.screen ≡ x
    → IsValidScreen x
    → IsValidScreen (on_list app b x).screen
on_list-IsValidScreen app b (list s) e v = list_nav-InRange s.selected (length s.items) b v
on_list-IsValidScreen app b empty e v = rw e tt
on_list-IsValidScreen app b (loading m t) e v = rw e tt
on_list-IsValidScreen app b (error m t) e v = rw e tt
on_list-IsValidScreen app b (detail s) e v = rw e v
on_list-IsValidScreen app b (new_project_form s) e v = rw e v
on_list-IsValidScreen app b (preview s) e v = rw e v

on_select-IsValidScreen :
    (app : App) (i : ℕ) (x : Screen)
    → app.screen ≡ x
    → IsValidScreen x
    → IsValidScreen (on_select app i x).screen
on_select-IsValidScreen app i (list s) e v = opened (get_elem? s.items i)
  where
    opened : (o : Option BatteryPackSummary) → IsValidScreen (open_pack app o).screen
    opened none = rw e v
    opened (some bp) = tt
on_select-IsValidScreen app i empty e v = rw e tt
on_select-IsValidScreen app i (loading m t) e v = rw e tt
on_select-IsValidScreen app i (error m t) e v = rw e tt
on_select-IsValidScreen app i (detail s) e v = rw e v
on_select-IsValidScreen app i (new_project_form s) e v = rw e v
on_select-IsValidScreen app i (preview s) e v = rw e v

on_detail-IsValidScreen :
    (app : App) (b : Bool) (x : Screen)
    → app.screen ≡ x
    → IsValidScreen x
    → IsValidScreen
        (on_detail app
          (λ s. record s { selected_index = wrapping_nav s.selected_index (item_count s.detail) b })
          x).screen
on_detail-IsValidScreen app b (detail s) e v =
    wrapping_nav-lt s.selected_index (item_count s.detail) b v
on_detail-IsValidScreen app b empty e v = rw e tt
on_detail-IsValidScreen app b (loading m t) e v = rw e tt
on_detail-IsValidScreen app b (error m t) e v = rw e tt
on_detail-IsValidScreen app b (list s) e v = rw e v
on_detail-IsValidScreen app b (new_project_form s) e v = rw e v
on_detail-IsValidScreen app b (preview s) e v = rw e v

on_preview-IsValidScreen :
    (app : App) (delta : Delta) (x : Screen)
    → app.screen ≡ x
    → IsValidScreen x
    → IsValidScreen (on_preview app delta x).screen
on_preview-IsValidScreen app delta (preview s) e v = scrolled_bound delta s v.1
on_preview-IsValidScreen app delta empty e v = rw e tt
on_preview-IsValidScreen app delta (loading m t) e v = rw e tt
on_preview-IsValidScreen app delta (error m t) e v = rw e tt
on_preview-IsValidScreen app delta (list s) e v = rw e v
on_preview-IsValidScreen app delta (detail s) e v = rw e v
on_preview-IsValidScreen app delta (new_project_form s) e v = rw e v

on_form-IsValidScreen :
    (app app' : App) (a : Action) (x : Screen)
    → app.screen ≡ x
    → IsValidScreen x
    → on_form app a x ≡ some app'
    → IsValidScreen app'.screen
on_form-IsValidScreen app app' a (new_project_form s) e v h = edits (form_edit a s) refl h
  where
    edits :
        (o : Option FormScreen)
        → form_edit a s ≡ o
        → elim o [ none ↦ none | some s' ↦ some (go_to app (new_project_form s')) ] ≡ some app'
        → IsValidScreen app'.screen
    edits none q k = cc k
    edits (some s') q k = done _ app' k (form_edit-IsValidForm a s s' v q)
on_form-IsValidScreen app app' a empty e v h = done app app' h (rw e tt)
on_form-IsValidScreen app app' a (loading m t) e v h = done app app' h (rw e tt)
on_form-IsValidScreen app app' a (error m t) e v h = done app app' h (rw e tt)
on_form-IsValidScreen app app' a (list s) e v h = done app app' h (rw e v)
on_form-IsValidScreen app app' a (detail s) e v h = done app app' h (rw e v)
on_form-IsValidScreen app app' a (preview s) e v h = done app app' h (rw e v)

module _ (world : World) where
  quits : (app : App) (b : Bool) → IsValidScreen app.screen → IsValidScreen (quitting app).screen
  quits app b v = v

  show_preview-IsValidScreen :
      (app app' : App) (d : BatteryPackDetail) (p : Text) (i : ℕ) (c : Bool) (o : Option ℕ)
      → i < item_count d
      → show_preview world app d p i c o ≡ some app'
      → IsValidScreen app'.screen
  show_preview-IsValidScreen app app' d p i c none valid h = cc h
  show_preview-IsValidScreen app app' d p i c (some lines) valid h =
      done _ app' h (omega arith, valid)

  apply-IsValidScreen :
      (a : Action) (app app' : App)
      → IsValidAction a
      → IsValidScreen app.screen
      → apply world a app ≡ some app'
      → IsValidScreen app'.screen
  unfolding apply
  apply-IsValidScreen no_action app app' valid v h = done app app' h v
  apply-IsValidScreen quit app app' valid v h = done (quitting app) app' h v
  apply-IsValidScreen list_up app app' valid v h =
      done _ app' h (on_list-IsValidScreen app false app.screen refl v)
  apply-IsValidScreen list_down app app' valid v h =
      done _ app' h (on_list-IsValidScreen app true app.screen refl v)
  apply-IsValidScreen (list_select i) app app' valid v h =
      done _ app' h (on_select-IsValidScreen app i app.screen refl v)
  apply-IsValidScreen detail_next app app' valid v h =
      done _ app' h (on_detail-IsValidScreen app true app.screen refl v)
  apply-IsValidScreen detail_prev app app' valid v h =
      done _ app' h (on_detail-IsValidScreen app false app.screen refl v)
  apply-IsValidScreen (open_crates_io_url name) app app' valid v h = done _ app' h v
  apply-IsValidScreen (open_example r p) app app' valid v h = done _ app' h v
  apply-IsValidScreen (detail_add p) app app' valid v h = done _ app' h v
  apply-IsValidScreen (detail_new_project d t i c) app app' valid v h =
      done _ app' h (omega arith, valid)
  apply-IsValidScreen (detail_use_template d t i c) app app' valid v h = done _ app' h valid
  apply-IsValidScreen (detail_back true) app app' valid v h = done _ app' h tt
  apply-IsValidScreen (detail_back false) app app' valid v h = done _ app' h v
  apply-IsValidScreen (form_submit b t d n e i c) app app' valid v h = done _ app' h valid
  apply-IsValidScreen (form_cancel d i c) app app' valid v h = done _ app' h valid
  apply-IsValidScreen (preview_template d p i c) app app' valid v h =
      show_preview-IsValidScreen app app' d p i c (world.preview_lines app d p) valid h
  apply-IsValidScreen (preview_scroll delta) app app' valid v h =
      done _ app' h (on_preview-IsValidScreen app delta app.screen refl v)
  apply-IsValidScreen (preview_back (some d) i c) app app' valid v h = done _ app' h valid
  apply-IsValidScreen (preview_back none i c) app app' valid v h = done _ app' h v
  apply-IsValidScreen form_toggle_field app app' valid v h =
      on_form-IsValidScreen app app' form_toggle_field app.screen refl v h
  apply-IsValidScreen (form_char c) app app' valid v h =
      on_form-IsValidScreen app app' (form_char c) app.screen refl v h
  apply-IsValidScreen form_backspace app app' valid v h =
      on_form-IsValidScreen app app' form_backspace app.screen refl v h
  apply-IsValidScreen form_delete app app' valid v h =
      on_form-IsValidScreen app app' form_delete app.screen refl v h
  apply-IsValidScreen form_left app app' valid v h =
      on_form-IsValidScreen app app' form_left app.screen refl v h
  apply-IsValidScreen form_right app app' valid v h =
      on_form-IsValidScreen app app' form_right app.screen refl v h
  apply-IsValidScreen form_home app app' valid v h =
      on_form-IsValidScreen app app' form_home app.screen refl v h
  apply-IsValidScreen form_end app app' valid v h =
      on_form-IsValidScreen app app' form_end app.screen refl v h

  handle_error_key-IsValidScreen :
      (key : KeyCode) (m : Text) (t : LoadingTarget) (app : App)
      → app.screen ≡ error m t
      → IsValidScreen (handle_error_key world key t app).screen
  unfolding handle_error_key
  handle_error_key-IsValidScreen enter m t app e = tt
  handle_error_key-IsValidScreen esc m t app e = rw e tt
  handle_error_key-IsValidScreen (char c) m t app e =
      let V = λ (a : App). IsValidScreen a.screen in
      if-both V (c == b'r') (tt) (if-both V (c == b'q') (rw e tt) (rw e tt))
  handle_error_key-IsValidScreen other m t app e = rw e tt

  handle_on-IsValidScreen :
      (x : Screen) (key : KeyCode) (app app' : App)
      → app.screen ≡ x
      → IsValidScreen x
      → handle_on world x key app ≡ some app'
      → IsValidScreen app'.screen
  handle_on-IsValidScreen empty key app app' e v h = done app app' h (rw e tt)
  handle_on-IsValidScreen (loading m t) key app app' e v h = done app app' h (rw e tt)
  handle_on-IsValidScreen (error m t) key app app' e v h =
      done _ app' h (handle_error_key-IsValidScreen key m t app e)
  handle_on-IsValidScreen (list s) key app app' e v h =
      apply-IsValidScreen (list_action s key) app app' (list_action-IsValidAction s key) (rw e v) h
  handle_on-IsValidScreen (detail s) key app app' e v h =
      apply-IsValidScreen (detail_action s key) app app' (detail_action-IsValidAction s v key)
        (rw e v) h
  handle_on-IsValidScreen (new_project_form s) key app app' e v h =
      apply-IsValidScreen (form_action s key) app app' (form_action-IsValidAction s key v) (rw e v)
        h
  handle_on-IsValidScreen (preview s) key app app' e v h =
      apply-IsValidScreen (preview_action s key) app app' (preview_action-IsValidAction s key v.1)
        (rw e v) h

  load_screen-IsValidScreen :
      (app : App) (x : Screen)
      → app.screen ≡ x
      → IsValidScreen x
      → IsValidScreen (load_screen world app x).screen
  load_screen-IsValidScreen app (loading m (list_target filter)) e v =
      lists (world.fetch_list app.source filter)
    where
      lists :
          (r : Result (List BatteryPackSummary) Text) → IsValidScreen (listed world app filter r)
      lists (ok []) = tt
      lists (ok (x ∷ xs)) = omega arith
      lists (err t) = tt
  load_screen-IsValidScreen app (loading m (detail_target name path c)) e v =
      details (world.fetch_detail app.source name path)
    where
      details :
          (r : Result BatteryPackDetail Text) → IsValidScreen (detailed world app name path c r)
      details (ok d) = omega (arith, item_count_pos d)
      details (err t) = tt
  load_screen-IsValidScreen app empty e v = rw e tt
  load_screen-IsValidScreen app (error m t) e v = rw e tt
  load_screen-IsValidScreen app (list s) e v = rw e v
  load_screen-IsValidScreen app (detail s) e v = rw e v
  load_screen-IsValidScreen app (new_project_form s) e v = rw e v
  load_screen-IsValidScreen app (preview s) e v = rw e v

  -- A turn of the interface's loop, without a panic: a screen that is to be loaded is loaded, a key is
  -- handled, or the action that is pending is taken to be run.
  pub data Step : App → App → Type 0 where
    load : (app : App) → Step app (process_loading world app)
    press :
        {app app' : App} → (key : KeyCode) → handle_key world key app ≡ some app' → Step app app'
    take : (app : App) → Step app (record app { pending_action = none })

  pub data Reach (start : App) : App → Type 0 where
    here : Reach start start
    next : {app app' : App} → Reach start app → Step app app' → Reach start app'

  Step-IsValidScreen :
      {app app' : App} → Step app app' → IsValidScreen app.screen → IsValidScreen app'.screen
  unfolding process_loading handle_key
  Step-IsValidScreen (load app) v = load_screen-IsValidScreen app app.screen refl v
  Step-IsValidScreen (press {app} {app'} key e) v =
      handle_on-IsValidScreen app.screen key app app' refl v e
  Step-IsValidScreen (take app) v = v

  -- However the interface is used, from a loading screen on: the list's selection is that of an item,
  -- the selection of the details is one of their items, the cursor of the form is not past the end of
  -- its text, and the preview is not scrolled past its last line.
  pub Reach-IsValidScreen :
      {start app : App} (message : Text) (target : LoadingTarget)
      → start.screen ≡ loading message target
      → Reach start app
      → IsValidScreen app.screen
  Reach-IsValidScreen message target e here = rw e tt
  Reach-IsValidScreen message target e (next r step) =
      Step-IsValidScreen step (Reach-IsValidScreen message target e r)
