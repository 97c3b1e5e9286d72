-- ===== src/Cli/Tui/IsValid.antt =====
-- The selections, cursors and offsets of the screens stay in range.
use battery_pack.Prelude.{
  ℕ, ◌+◌, ◌-◌, ◌≤◌, ◌<◌, ltb, length, ◌≡◌, refl, sym, ◌∙◌, ap, inl, inr, arith, Bool-cases, Text,
}
use battery_pack.Prelude.{Bool, true, false, Option, none, some}
use battery_pack.Cli.Tui.Input.{
  byte_len, len_utf8_bounds, byte_len-insert_char, byte_len-remove_char,
}
use battery_pack.Cli.Tui.{
  BatteryPackDetail, FormField, directory_field, project_name_field, FormScreen, PreviewScreen,
  Screen, empty, loading, error, list, detail, new_project_form, preview, item_count, wrapping_nav,
  list_nav, focused_text, focused_field_len, set_focused, put_text, text_of,
}
use battery_pack.Cli.Tui.Keys.{
  Delta, forward, back, Action, no_action, detail_new_project, detail_use_template,
  form_toggle_field, form_submit, form_cancel, form_char, form_backspace, form_delete, form_left,
  form_right, form_home, form_end, preview_template, preview_back,
}
use battery_pack.Cli.Tui.Apply.{form_edit, edited, at_end, other_field, scrolled}

abbrev pub InRange : Option ℕ → ℕ → Type 0
InRange none n = Unit
InRange (some i) n = i < n

abbrev pub ForDetail : Option BatteryPackDetail → ℕ → Type 0
ForDetail none i = Unit
ForDetail (some d) i = i < item_count d

-- The list's selection and the details' one are those of an item, the cursor is not past the end of
-- its text, and the preview is not scrolled past its last line.
abbrev pub IsValidScreen : Screen → Type 0
IsValidScreen (list s) = InRange s.selected (length s.items)
IsValidScreen (detail s) = s.selected_index < item_count s.detail
IsValidScreen (new_project_form s) =
    (s.cursor_position ≤ focused_field_len s) × (s.selected_index < item_count s.detail)
IsValidScreen (preview s) = (s.scroll ≤ s.line_count - 1) × ForDetail s.detail s.selected_index
IsValidScreen empty = Unit
IsValidScreen (loading message target) = Unit
IsValidScreen (error message target) = Unit

-- An index that an action carries is one of its details' items.
abbrev pub IsValidAction : Action → Type 0
IsValidAction (detail_new_project d template i c) = i < item_count d
IsValidAction (detail_use_template d template i c) = i < item_count d
IsValidAction (form_submit b template directory name d i c) = i < item_count d
IsValidAction (form_cancel d i c) = i < item_count d
IsValidAction (preview_template d path i c) = i < item_count d
IsValidAction (preview_back d i c) = ForDetail d i
IsValidAction _ = Unit

pub item_count_pos : (d : BatteryPackDetail) → 3 ≤ item_count d
unfolding item_count
item_count_pos d = omega arith

pub wrapping_nav-lt : (i n : ℕ) (b : Bool) → i < n → wrapping_nav i n b < n
unfolding wrapping_nav
wrapping_nav-lt i n true h = grind arith
wrapping_nav-lt i n false h = grind arith

pub list_nav-InRange : (o : Option ℕ) (n : ℕ) (b : Bool) → InRange o n → InRange (list_nav o n b) n
unfolding list_nav
list_nav-InRange none n b h = h
list_nav-InRange (some i) n true h = ground arith
list_nav-InRange (some i) n false h = ground arith

pub scrolled_bound :
    (delta : Delta) (s : PreviewScreen)
    → ForDetail s.detail s.selected_index
    → ((scrolled delta s).scroll ≤ (scrolled delta s).line_count - 1)
      × ForDetail (scrolled delta s).detail (scrolled delta s).selected_index
unfolding scrolled
scrolled_bound (forward n) s v = (ground arith, v)
scrolled_bound (back n) s v = (ground arith, v)

put_text-field :
    (s : FormScreen) (f : FormField) (t : Text) → (put_text s f t).focused_field ≡ s.focused_field
put_text-field s directory_field t = refl
put_text-field s project_name_field t = refl

put_text-text : (s : FormScreen) (f : FormField) (t : Text) → text_of (put_text s f t) f ≡ t
put_text-text s directory_field t = refl
put_text-text s project_name_field t = refl

put_text-rest :
    (s : FormScreen) (f : FormField) (t : Text)
    → ((put_text s f t).detail ≡ s.detail) × ((put_text s f t).selected_index ≡ s.selected_index)
put_text-rest s directory_field t = (refl, refl)
put_text-rest s project_name_field t = (refl, refl)

-- The text that is written is the focused one.
pub focused_text-set_focused : (s : FormScreen) (t : Text) → focused_text (set_focused s t) ≡ t
unfolding set_focused
focused_text-set_focused s t =
    ap (text_of (put_text s s.focused_field t)) (put_text-field s s.focused_field t)
    ∙ put_text-text s s.focused_field t

abbrev pub IsValidForm : FormScreen → Type 0
IsValidForm s = (s.cursor_position ≤ focused_field_len s) × (s.selected_index < item_count s.detail)

edited-IsValidForm :
    (s s' : FormScreen) (cursor : ℕ) (o : Option Text)
    → s.selected_index < item_count s.detail
    → ((t : Text) → o ≡ some t → cursor ≤ byte_len t)
    → edited s cursor o ≡ some s'
    → IsValidForm s'
edited-IsValidForm s s' cursor none v le e = cc e
edited-IsValidForm s s' cursor (some t) v le e =
    let q : record (set_focused s t) { cursor_position = cursor } ≡ s' = cc e in
    rw (← q) (
      unfold focused_field_len in rw (focused_text-set_focused s t) (le t refl),
      unfold set_focused in
          rw ((put_text-rest s s.focused_field t).0, (put_text-rest s s.focused_field t).1) v,
    )

at_end-IsValidForm :
    (s : FormScreen) → s.selected_index < item_count s.detail → IsValidForm (at_end s)
unfolding focused_field_len
at_end-IsValidForm s v = (omega arith, v)

is_same : (s s' : FormScreen) → some s ≡ some s' → IsValidForm s → IsValidForm s'
is_same s s' e v = let q : s ≡ s' = cc e in rw (← q) v

pub form_edit-IsValidForm :
    (a : Action) (s s' : FormScreen) → IsValidForm s → form_edit a s ≡ some s' → IsValidForm s'
unfolding form_edit
form_edit-IsValidForm form_toggle_field s s' v e =
    is_same _ s' e
      (at_end-IsValidForm (record s { focused_field = other_field s.focused_field }) v.1)
form_edit-IsValidForm (form_char c) s s' v e =
    edited-IsValidForm s s' (s.cursor_position + 1) _ v.1
      (λ t q.
        let n = byte_len-insert_char s.cursor_position c (focused_text s) t q in
        omega (arith, n.0, n.1, len_utf8_bounds c))
      e
form_edit-IsValidForm form_backspace s s' v e = elim (Bool-cases (ltb 0 s.cursor_position)) [
  | inl some_left ↦
      edited-IsValidForm s s' (s.cursor_position - 1) _ v.1
        (λ t q. (byte_len-remove_char (s.cursor_position - 1) (focused_text s) t q).0)
        (sym (rw some_left refl) ∙ e)
  | inr at_start ↦ is_same s s' (sym (rw at_start refl) ∙ e) v
]
form_edit-IsValidForm form_delete s s' v e =
    elim (Bool-cases (ltb s.cursor_position (focused_field_len s))) [
      | inl some_left ↦
          edited-IsValidForm s s' s.cursor_position _ v.1
            (λ t q. (byte_len-remove_char s.cursor_position (focused_text s) t q).0)
            (sym (rw some_left refl) ∙ e)
      | inr at_the_end ↦ is_same s s' (sym (rw at_the_end refl) ∙ e) v
    ]
form_edit-IsValidForm form_left s s' v e = is_same _ s' e (omega (arith, v.0), v.1)
form_edit-IsValidForm form_right s s' v e =
    elim (Bool-cases (ltb s.cursor_position (focused_field_len s))) [
      | inl some_left ↦
          is_same (record s { cursor_position = s.cursor_position + 1 }) s'
            (sym (rw some_left refl) ∙ e) (ground (arith, some_left), v.1)
      | inr at_the_end ↦ is_same s s' (sym (rw at_the_end refl) ∙ e) v
    ]
form_edit-IsValidForm form_home s s' v e = is_same _ s' e (omega arith, v.1)
form_edit-IsValidForm form_end s s' v e = is_same _ s' e (at_end-IsValidForm s v.1)
form_edit-IsValidForm no_action s s' v e = is_same s s' e v
form_edit-IsValidForm other s s' v e = is_same s s' e v
