-- ===== src/Cli/Tui/Typing.antt =====
-- When typing into the form panics. The cursor counts characters, and the edits take positions in
-- bytes.
use battery_pack.Prelude.{
  ℕ, ◌+◌, ◌-◌, ◌≤◌, ◌<◌, ltb, ◌≡◌, ◌≢◌, refl, sym, ◌∙◌, ap, inl, inr, arith, Bool-cases, Text,
}
use battery_pack.Prelude.{if-both, Bool, not, true, false, Option, none, some}
use battery_pack.Cli.Tui.Input.{
  insert_char, remove_char, byte_len, len_utf8, IsAscii, insert_char-IsAscii, remove_char-IsAscii,
  insert_char-inside,
}
use battery_pack.Cli.Tui.{
  BatteryPackDetail, FormScreen, Screen, empty, loading, error, list, detail, preview,
  new_project_form, App, focused_text, focused_field_len, set_focused,
}
use battery_pack.Cli.Tui.Keys.{
  KeyCode, left, right, enter, tab, esc, backspace, delete, home, end_key, char, Action,
  detail_back, preview_back, list_action, detail_action, preview_action, form_toggle_field,
  form_char, form_backspace, form_delete, form_left, form_right, form_home, form_end, form_action,
  is_empty, preview_template,
}
use battery_pack.Cli.Tui.Apply.{
  World, form_edit, edited, apply, handle_on, handle_key, on_form, go_to, show_preview,
}
use battery_pack.Cli.Tui.IsValid.{focused_text-set_focused}

edited-some :
    (s s' : FormScreen) (cursor : ℕ) (o : Option Text)
    → edited s cursor o ≡ some s'
    → (t : Text) × (o ≡ some t) × (record (set_focused s t) { cursor_position = cursor } ≡ s')
edited-some s s' cursor none e = cc e
edited-some s s' cursor (some t) e = (t, refl, cc e)

form_edit-inside :
    (s s' : FormScreen) (c d : ℕ)
    → 1 < len_utf8 c
    → form_edit (form_char c) s ≡ some s'
    → form_edit (form_char d) s' ≡ none
unfolding form_edit
form_edit-inside s s' c d wide e =
    let r = edited-some s s' (s.cursor_position + 1) _ e in
    let panics : insert_char (s.cursor_position + 1) d
          (focused_text (record (set_focused s r.0) { cursor_position = s.cursor_position + 1 }))
        ≡ none =
      ap (insert_char (s.cursor_position + 1) d) (focused_text-set_focused s r.0)
      ∙ insert_char-inside s.cursor_position c d (focused_text s) r.0 wide r.1 in
    rw (← r.2) (
      ap
        (edited (record (set_focused s r.0) { cursor_position = s.cursor_position + 1 })
          (s.cursor_position + 1 + 1))
        panics)

on_form-none :
    (app : App) (a : Action) (s : FormScreen)
    → form_edit a s ≡ none
    → on_form app a (new_project_form s) ≡ none
on_form-none app a s e = rw (e, on_form) refl

module _ (world : World) where
  on_form-inside :
      (app app' : App) (x : Screen) (s : FormScreen) (c d : ℕ)
      → x ≡ new_project_form s
      → 1 < len_utf8 c
      → on_form app (form_char c) x ≡ some app'
      → (s' : FormScreen) × (app'.screen ≡ new_project_form s')
        × (form_edit (form_char d) s' ≡ none)
  on_form-inside app app' x s c d e wide h =
      typed (form_edit (form_char c) s) refl (sym (ap (on_form app (form_char c)) e) ∙ h)
    where
      typed :
          (o : Option FormScreen)
          → form_edit (form_char c) s ≡ o
          → elim o as (λ y. Option App) [
            | none ↦ none
            | some s' ↦ some (go_to app (new_project_form s'))
          ]
            ≡ some app'
          → (s' : FormScreen) × (app'.screen ≡ new_project_form s')
            × (form_edit (form_char d) s' ≡ none)
      typed none q k = cc k
      typed (some s') q k =
          let same : go_to app (new_project_form s') ≡ app' = cc k in
          (s', ap (λ (a : App). a.screen) (sym same), form_edit-inside s s' c d wide q)

  handle_char :
      (app : App) (s : FormScreen) (c : ℕ)
      → app.screen ≡ new_project_form s
      → handle_key world (char c) app ≡ on_form app (form_char c) app.screen
  unfolding handle_key form_action apply
  handle_char app s c e = rw e refl

  -- After a character of more than one byte is typed into the form, the next key panics if it is a
  -- character too, whichever it is.
  pub handle_key-panics :
      (app app' : App) (s : FormScreen) (c d : ℕ)
      → app.screen ≡ new_project_form s
      → 1 < len_utf8 c
      → handle_key world (char c) app ≡ some app'
      → handle_key world (char d) app' ≡ none
  handle_key-panics app app' s c d e wide h =
      let r = on_form-inside app app' app.screen s c d e wide (sym (handle_char app s c e) ∙ h) in
      handle_char app' r.0 d r.1
      ∙ ap (on_form app' (form_char d)) r.1
      ∙ on_form-none app' (form_char d) r.0 r.2

-- A key that types no character of several bytes.
abbrev pub IsAsciiKey : KeyCode → Type 0
IsAsciiKey (char c) = c < 0x80
IsAsciiKey _ = Unit

abbrev IsAsciiAction : Action → Type 0
IsAsciiAction (form_char c) = c < 0x80
IsAsciiAction _ = Unit

abbrev Edits : Action → FormScreen → Type 0
Edits a s = (s' : FormScreen) × (form_edit a s ≡ some s')

edits_to :
    (s : FormScreen) (cursor : ℕ) (o : Option Text) (t : Text)
    → o ≡ some t
    → (s' : FormScreen) × (edited s cursor o ≡ some s')
edits_to s cursor o t e = (record (set_focused s t) { cursor_position = cursor }, rw e refl)

form_edit-ascii :
    (a : Action) (s : FormScreen)
    → IsAsciiAction a
    → IsAscii (focused_text s)
    → s.cursor_position ≤ byte_len (focused_text s)
    → Edits a s
unfolding form_edit focused_field_len
form_edit-ascii (form_char c) s ha hs le =
    let r = insert_char-IsAscii s.cursor_position c (focused_text s) ha hs le in
    edits_to s (s.cursor_position + 1) (insert_char s.cursor_position c (focused_text s)) r.0 r.1
form_edit-ascii form_backspace s ha hs le = elim (Bool-cases (ltb 0 s.cursor_position)) [
  | inl some_left ↦
      let r =
        remove_char-IsAscii (s.cursor_position - 1) (focused_text s) hs
          (ground (arith, some_left)) in
      rw some_left (
        edits_to s (s.cursor_position - 1) (remove_char (s.cursor_position - 1) (focused_text s))
          r.0 r.1)
  | inr at_start ↦ rw at_start (s, refl)
]
form_edit-ascii form_delete s ha hs le =
    elim (Bool-cases (ltb s.cursor_position (byte_len (focused_text s)))) [
      | inl some_left ↦
          let r =
            remove_char-IsAscii s.cursor_position (focused_text s) hs (ground (arith, some_left)) in
          rw some_left
            (edits_to s s.cursor_position (remove_char s.cursor_position (focused_text s)) r.0 r.1)
      | inr at_the_end ↦ rw at_the_end (s, refl)
    ]
form_edit-ascii form_right s ha hs le =
    elim (Bool-cases (ltb s.cursor_position (byte_len (focused_text s)))) [
      | inl some_left ↦ rw some_left (_, refl)
      | inr at_the_end ↦ rw at_the_end (s, refl)
    ]
form_edit-ascii form_toggle_field s ha hs le = (_, refl)
form_edit-ascii form_left s ha hs le = (_, refl)
form_edit-ascii form_home s ha hs le = (_, refl)
form_edit-ascii form_end s ha hs le = (_, refl)
form_edit-ascii other s ha hs le = (s, refl)

on_form-some :
    (app : App) (a : Action) (s : FormScreen)
    → Edits a s
    → (app' : App) × (on_form app a (new_project_form s) ≡ some app')
on_form-some app a s (s', e) = (go_to app (new_project_form s'), rw (e, on_form) refl)

-- The text that is edited has one byte to each character, and the cursor is not past its end.
abbrev pub IsAsciiScreen : Screen → Type 0
IsAsciiScreen (new_project_form s) =
    IsAscii (focused_text s) × (s.cursor_position ≤ byte_len (focused_text s))
IsAsciiScreen _ = Unit

-- An action that does not panic on the screen.
abbrev IsSafe : Action → Screen → Type 0
IsSafe a (new_project_form s) =
    IsAsciiAction a × IsAscii (focused_text s) × (s.cursor_position ≤ byte_len (focused_text s))
IsSafe a _ = Unit

on_form-total :
    (app : App) (a : Action) (x : Screen)
    → IsSafe a x
    → (app' : App) × (on_form app a x ≡ some app')
on_form-total app a (new_project_form s) v = on_form-some app a s (form_edit-ascii a s v.0 v.1 v.2)
on_form-total app a empty v = (app, refl)
on_form-total app a (loading m t) v = (app, refl)
on_form-total app a (error m t) v = (app, refl)
on_form-total app a (list s) v = (app, refl)
on_form-total app a (detail s) v = (app, refl)
on_form-total app a (preview s) v = (app, refl)

module _ (world : World) where
  show_preview-total :
      (app : App) (d : BatteryPackDetail) (p : Text) (i : ℕ) (c : Bool) (o : Option ℕ)
      → o ≢ none
      → (app' : App) × (show_preview world app d p i c o ≡ some app')
  show_preview-total app d p i c none h = absurd (h refl)
  show_preview-total app d p i c (some lines) h = (_, refl)

  apply-total :
      (a : Action) (app : App)
      → ((d : BatteryPackDetail) (path : Text) → world.preview_lines app d path ≢ none)
      → IsSafe a app.screen
      → (app' : App) × (apply world a app ≡ some app')
  unfolding apply
  apply-total (form_char c) app renders v = on_form-total app (form_char c) app.screen v
  apply-total form_toggle_field app renders v = on_form-total app form_toggle_field app.screen v
  apply-total form_backspace app renders v = on_form-total app form_backspace app.screen v
  apply-total form_delete app renders v = on_form-total app form_delete app.screen v
  apply-total form_left app renders v = on_form-total app form_left app.screen v
  apply-total form_right app renders v = on_form-total app form_right app.screen v
  apply-total form_home app renders v = on_form-total app form_home app.screen v
  apply-total form_end app renders v = on_form-total app form_end app.screen v
  apply-total (detail_back true) app renders v = (_, refl)
  apply-total (detail_back false) app renders v = (_, refl)
  apply-total (preview_back (some d) i c) app renders v = (_, refl)
  apply-total (preview_back none i c) app renders v = (_, refl)
  apply-total (preview_template d p i c) app renders v =
      show_preview-total app d p i c (world.preview_lines app d p) (renders d p)
  apply-total other app renders v = (_, refl)

  form_action-IsAsciiAction :
      (s : FormScreen) (key : KeyCode) → IsAsciiKey key → IsAsciiAction (form_action s key)
  unfolding form_action
  form_action-IsAsciiAction s (char c) h = h
  form_action-IsAsciiAction s enter h =
      if-both IsAsciiAction (not (is_empty s.project_name)) (tt) (tt)
  form_action-IsAsciiAction s tab h = tt
  form_action-IsAsciiAction s esc h = tt
  form_action-IsAsciiAction s backspace h = tt
  form_action-IsAsciiAction s delete h = tt
  form_action-IsAsciiAction s left h = tt
  form_action-IsAsciiAction s right h = tt
  form_action-IsAsciiAction s home h = tt
  form_action-IsAsciiAction s end_key h = tt
  form_action-IsAsciiAction s other h = tt

  handle_on-total :
      (x : Screen) (key : KeyCode) (app : App)
      → ((d : BatteryPackDetail) (path : Text) → world.preview_lines app d path ≢ none)
      → app.screen ≡ x
      → IsAsciiKey key
      → IsAsciiScreen x
      → (app' : App) × (handle_on world x key app ≡ some app')
  handle_on-total empty key app renders e k v = (app, refl)
  handle_on-total (loading m t) key app renders e k v = (app, refl)
  handle_on-total (error m t) key app renders e k v = (_, refl)
  handle_on-total (list s) key app renders e k v =
      apply-total (list_action s key) app renders (rw e tt)
  handle_on-total (detail s) key app renders e k v =
      apply-total (detail_action s key) app renders (rw e tt)
  handle_on-total (new_project_form s) key app renders e k v =
      apply-total (form_action s key) app renders
        (rw e (form_action-IsAsciiAction s key k, v.0, v.1))
  handle_on-total (preview s) key app renders e k v =
      apply-total (preview_action s key) app renders (rw e tt)

  -- A key that types no character of several bytes does not panic: on the form, if the text that is
  -- edited has one byte to each character and the cursor is not past its end; and if fetching and
  -- rendering the templates of packs does not panic.
  pub handle_key-total :
      (key : KeyCode) (app : App)
      → ((d : BatteryPackDetail) (path : Text) → world.preview_lines app d path ≢ none)
      → IsAsciiKey key
      → IsAsciiScreen app.screen
      → (app' : App) × (handle_key world key app ≡ some app')
  unfolding handle_key
  handle_key-total key app renders k v = handle_on-total app.screen key app renders refl k v
