-- ===== src/Picker/Navigation.antt =====
-- Moving, collapsing and expanding leave the results as they are.
use battery_pack.Prelude.{
  ℕ, zero, suc, ◌+◌, ◌-◌, ◌≡◌, refl, ◌∙◌, ap, inl, inr, Bool, true, false, Option, none, some, List,
  [], ◌∷◌, ◌++◌, arith, ltb, leb, ◌==◌, Bool-cases, Option-cases, length, all, ◌&&◌,
}
use battery_pack.Picker.{
  Entry, header, item, PickerState, current_entry_idx, section_bounds, rebuild_nav_stops,
}
use battery_pack.Picker.Scroll.{
  ◌>>=◌, cursor_line, section_header_line, scroll_up, scroll_down, ensure_at, ensure_cursor_visible,
  move_up, move_down,
}
use battery_pack.Picker.Toggle.{modify_at, item_range}
use battery_pack.Picker.Fold.{
  set_collapsed, set_folded, focus_entry, first_item, collapse_current, expand_current,
}
use battery_pack.Picker.Confirm.{collect, into_results, clear_confirm_error}
use battery_pack.Picker.Keys.{
  Key, up, down, left, right, KeyPress, Round, again, return, press, resume, is_char, handle_key,
  run_keys,
}

-- The entries of the state that an operation returns, if it does not panic.
abbrev Has : List Entry → Option PickerState → Type 0
Has es none = Unit
Has es (some s) = s.entries ≡ es

scroll_down-entries : (line : ℕ) (s : PickerState) → (scroll_down line s).entries ≡ s.entries
unfolding scroll_down
scroll_down-entries line s = elim (Bool-cases (leb (s.scroll + s.visible_height) line)) [
  | inl below ↦ rw below refl
  | inr inside ↦ rw inside refl
]

ensure_at-Has :
    (line header_line : ℕ) (s : PickerState) → Has s.entries (ensure_at line header_line s)
unfolding ensure_at scroll_up
ensure_at-Has line header_line s = elim (Bool-cases (ltb line s.scroll)) [
  | inl above ↦ elim (Bool-cases (ltb line header_line)) [
    | inl negative ↦ rw (above, negative) tt
    | inr fits ↦ rw (above, fits) (scroll_down-entries line _)
  ]
  | inr below ↦ rw below (scroll_down-entries line s)
]

ensure_cursor_visible-Has : (s : PickerState) → Has s.entries (ensure_cursor_visible s)
unfolding ensure_cursor_visible
ensure_cursor_visible-Has s = elim (Bool-cases (s.visible_height == 0)) [
  | inl closed ↦ rw closed refl
  | inr open_view ↦ elim (Option-cases (cursor_line s)) [
    | inl e ↦ rw (open_view, e) tt
    | inr (line, e) ↦ elim (Option-cases (section_header_line s)) [
      | inl e' ↦ rw (open_view, e, e') tt
      | inr (header_line, e') ↦ rw (open_view, e, e') (ensure_at-Has line header_line s)
    ]
  ]
]

collect-set_collapsed :
    (v : Bool) (i : ℕ) (es : List Entry) (results : List (List Bool)) (current : List Bool)
    (seen : Bool)
    → collect (modify_at (set_collapsed v) i es) results current seen
      ≡ collect es results current seen
unfolding collect
collect-set_collapsed v i [] results current seen = refl
collect-set_collapsed v zero (header t m c ∷ es) results current true = refl
collect-set_collapsed v zero (header t m c ∷ es) results current false = refl
collect-set_collapsed v zero (item l c d ∷ es) results current seen = refl
collect-set_collapsed v (suc i) (header t m c ∷ es) results current true =
    collect-set_collapsed v i es (results ++ current ∷ []) [] true
collect-set_collapsed v (suc i) (header t m c ∷ es) results current false =
    collect-set_collapsed v i es results current true
collect-set_collapsed v (suc i) (item l c d ∷ es) results current seen =
    collect-set_collapsed v i es results (current ++ c ∷ []) seen

-- The results of the state that an operation returns, if it does not panic.
abbrev Yields : PickerState → Option PickerState → Type 0
Yields s none = Unit
Yields s (some s') = (into_results s').0 ≡ (into_results s).0

Has-Yields : (s : PickerState) (r : Option PickerState) → Has s.entries r → Yields s r
unfolding into_results
Has-Yields s none h = tt
Has-Yields s (some s') h = ap (λ (es : List Entry). collect es [] [] false) h

folded-Yields :
    (s : PickerState) (es : List Entry) (v : Bool) (i : ℕ)
    → es ≡ modify_at (set_collapsed v) i s.entries
    → (r : Option PickerState) → Has es r
    → Yields s r
unfolding into_results
folded-Yields s es v i e none h = tt
folded-Yields s es v i e (some s') h =
    ap (λ (fs : List Entry). collect fs [] [] false) (h ∙ e)
    ∙ collect-set_collapsed v i s.entries [] [] false

move_up-Yields : (s : PickerState) → Yields s (move_up s)
unfolding move_up
move_up-Yields s = elim (Bool-cases (ltb 0 s.cursor)) [
  | inl low ↦
      rw low (Has-Yields s _ (ensure_cursor_visible-Has (record s { cursor = s.cursor - 1 })))
  | inr top ↦ rw top refl
]

move_down-Yields : (s : PickerState) → Yields s (move_down s)
unfolding move_down
move_down-Yields s = elim (Bool-cases (ltb (s.cursor + 1) (length s.nav_stops))) [
  | inl high ↦
      rw high (Has-Yields s _ (ensure_cursor_visible-Has (record s { cursor = s.cursor + 1 })))
  | inr bottom ↦ rw bottom refl
]

collapse_current-Yields : (s : PickerState) → Yields s (collapse_current s)
unfolding collapse_current set_folded focus_entry rebuild_nav_stops
collapse_current-Yields s = elim (Option-cases (current_entry_idx s)) [
  | inl e ↦ rw e tt
  | inr (idx, e) ↦ rw e (
      folded-Yields s _ true (section_bounds s idx).0 refl _ (
        ensure_cursor_visible-Has (
          focus_entry (section_bounds s idx).0
            (rebuild_nav_stops (set_folded true (section_bounds s idx) s)))))
]

-- The state before the viewport follows the cursor.
abbrev expanded : PickerState → ℕ → PickerState
expanded s idx =
    let s' = rebuild_nav_stops (set_folded false (section_bounds s idx) s) in
    focus_entry (first_item s'.entries (item_range (section_bounds s idx)) (section_bounds s idx).0)
      s'

expand_current-Yields : (s : PickerState) → Yields s (expand_current s)
unfolding expand_current set_folded focus_entry rebuild_nav_stops
expand_current-Yields s = elim (Option-cases (current_entry_idx s)) [
  | inl e ↦ rw e tt
  | inr (idx, e) ↦ rw e (
      folded-Yields s _ false (section_bounds s idx).0 refl _
        (ensure_cursor_visible-Has (expanded s idx)))
]

-- The arrow keys.
abbrev pub is_arrow : Key → Bool
is_arrow up = true
is_arrow down = true
is_arrow left = true
is_arrow right = true
is_arrow _ = false

resumed :
    (s s' : PickerState) (r : Option PickerState)
    → Yields s r
    → resume r ≡ some (again s')
    → (into_results s').0 ≡ (into_results s).0
resumed s s' none h e = cc e
resumed s s' (some t) h e = ap (λ (x : PickerState). (into_results x).0) (same e) ∙ h
  where
    same : ◌≡◌ {A = Option Round} (some (again t)) (some (again s')) → s' ≡ t
    same q = cc q

-- An arrow key that does not make the picker panic leaves its results as they are.
pub press-into_results :
    (action_keys : List ℕ) (k : Key) (s s' : PickerState)
    → is_arrow k ≡ true
    → press action_keys k s ≡ some (again s')
    → (into_results s').0 ≡ (into_results s).0
unfolding press
press-into_results keys up s s' a e = resumed s s' (move_up s) (move_up-Yields s) e
press-into_results keys down s s' a e = resumed s s' (move_down s) (move_down-Yields s) e
press-into_results keys left s s' a e =
    resumed s s' (collapse_current s) (collapse_current-Yields s) e
press-into_results keys right s s' a e = resumed s s' (expand_current s) (expand_current-Yields s) e
press-into_results keys Key.backspace_key s s' a e = cc a
press-into_results keys Key.enter s s' a e = cc a
press-into_results keys Key.esc s s' a e = cc a
press-into_results keys Key.other s s' a e = cc a
press-into_results keys (Key.char c) s s' a e = cc a

arrow-is_char : (c : ℕ) (k : Key) → is_arrow k ≡ true → is_char c k ≡ false
arrow-is_char c up a = refl
arrow-is_char c down a = refl
arrow-is_char c left a = refl
arrow-is_char c right a = refl
arrow-is_char c Key.backspace_key a = refl
arrow-is_char c Key.enter a = refl
arrow-is_char c Key.esc a = refl
arrow-is_char c Key.other a = refl
arrow-is_char c (Key.char d) a = cc a

handle_key-into_results :
    (action_keys : List ℕ) (k : KeyPress) (s s' : PickerState)
    → is_arrow k.code ≡ true
    → handle_key action_keys k s ≡ some (again s')
    → (into_results s').0 ≡ (into_results s).0
unfolding handle_key clear_confirm_error into_results
handle_key-into_results keys k s s' a e =
    press-into_results keys k.code (clear_confirm_error s) s' a (rw no_interrupt at e)
  where
    no_interrupt : (k.control && is_char b'c' k.code) ≡ false
    no_interrupt = ground (arith, arrow-is_char b'c' k.code a)

-- A run of arrow keys that does not make the picker panic leaves its results as they were: moving the
-- cursor and collapsing or expanding sections check and uncheck nothing.
pub run_keys-into_results :
    (action_keys : List ℕ) (ks : List KeyPress) (s s' : PickerState)
    → all (λ (k : KeyPress). is_arrow k.code) ks ≡ true
    → run_keys action_keys ks s ≡ some (again s')
    → (into_results s').0 ≡ (into_results s).0
unfolding run_keys
run_keys-into_results keys [] s s' a e = ap (λ (x : PickerState). (into_results x).0) (same e)
  where
    same : ◌≡◌ {A = Option Round} (some (again s)) (some (again s')) → s' ≡ s
    same q = cc q
run_keys-into_results keys (k ∷ ks) s s' a e =
    round (λ t f. run_keys-into_results keys ks t s' arrows.1 f) (handle_key keys k s) refl e
  where
    arrows : (is_arrow k.code ≡ true) × (all (λ (j : KeyPress). is_arrow j.code) ks ≡ true)
    arrows = ground (arith, a)

    round :
        ((t : PickerState)
          → run_keys keys ks t ≡ some (again s')
          → (into_results s').0 ≡ (into_results t).0)
        → (r : Option Round) → handle_key keys k s ≡ r
        → (do x ← r; elim x [ again t ↦ run_keys keys ks t | return o ↦ some (return o) ])
          ≡ some (again s')
        → (into_results s').0 ≡ (into_results s).0
    round rec none q f = cc f
    round rec (some (return o)) q f = cc f
    round rec (some (again t)) q f = rec t f ∙ handle_key-into_results keys k s t arrows.0 q
