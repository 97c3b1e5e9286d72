-- ===== src/Picker/Sections.antt =====
-- The bounds of the section of an entry, and toggling in a radio section of a picker state.
use battery_pack.Prelude.{
  ℕ, zero, suc, ◌+◌, ◌-◌, ◌<◌, ◌≤◌, ◌≡◌, refl, sym, ◌∙◌, ap, inl, inr, Bool, true, false, some,
  List, [], ◌∷◌, length, arith, get_elem?, ◌==◌, Bool-cases,
}
use battery_pack.Picker.{
  radio, Entry, header, item, PickerState, is_header, header_at, header_before, header_after,
  current_entry_idx, section_bounds,
}
use battery_pack.Picker.Toggle.{
  modify_at, modify_range, set_checked, checked_count, set_section, toggle_radio, toggle,
  current_section_mode,
}
use battery_pack.Picker.Radio.{item_at, in_section, toggle_radio-at_most_one}

-- No header stands between the header of an entry and the entry.
header_before-none :
    (es : List Entry) (i j : ℕ) → header_before es i < j → j ≤ i → header_at es j ≡ false
unfolding header_before
header_before-none es zero j h k = absurd (omega arith)
header_before-none es (suc i) j h k = elim (Bool-cases (header_at es (suc i))) [
  | inl here ↦ absurd (unfold header_before in omega (arith, (rw here at h)))
  | inr no_header ↦
      let h' : header_before es i < j = rw no_header at h in
      elim (Bool-cases (j == suc i)) [
        | inl same ↦ ground (arith, ap (header_at es) (at_index same))
        | inr other ↦ header_before-none es i j h' (ground arith)
      ]
]
  where
    at_index : (j == suc i) ≡ true → j ≡ suc i
    at_index e = ground arith

-- An item's header stands before it, if the first entry is a header.
header_before-lt :
    (es : List Entry) (i : ℕ)
    → header_at es 0 ≡ true
    → header_at es i ≡ false
    → header_before es i < i
unfolding header_before
header_before-lt es zero h k = absurd (cc (sym h ∙ k))
header_before-lt es (suc i) h k = rw k (le_before i)
  where
    le_before : (n : ℕ) → header_before es n < suc n
    le_before zero = omega arith
    le_before (suc n) = ground (arith, le_before n)

header_after-gt :
    (es : List Entry) (otherwise i n idx : ℕ)
    → ((j : ℕ) → i ≤ j → j ≤ idx → header_at es j ≡ false)
    → idx < otherwise
    → idx < i + n
    → idx < header_after es otherwise i n
unfolding header_after
header_after-gt es d i zero idx h lt k = lt
header_after-gt es d i (suc n) idx h lt k = elim (Bool-cases (header_at es i)) [
  | inl there ↦ rw there (ground (arith, h i))
  | inr no_header ↦
      rw no_header
        (header_after-gt es d (suc i) n idx (λ j a b. h j (omega arith) b) lt (omega arith))
]

get_elem?-lt : {A : Type 0} (xs : List A) (i : ℕ) (x : A) → get_elem? xs i ≡ some x → i < length xs
get_elem?-lt [] i x e = cc
get_elem?-lt (y ∷ ys) zero x e = omega arith
get_elem?-lt (y ∷ ys) (suc i) x e = omega (arith, get_elem?-lt ys i x e)

-- An item lies in the section that its bounds give.
pub in_section-bounds :
    (s : PickerState) (idx : ℕ) (e : Entry)
    → header_at s.entries 0 ≡ true
    → get_elem? s.entries idx ≡ some e
    → is_header e ≡ false
    → in_section (section_bounds s idx) idx ≡ true
unfolding section_bounds
in_section-bounds s idx e first there no_header =
    let before = header_before-lt s.entries idx first (rw (there, header_at) no_header) in
    let size = get_elem?-lt s.entries idx e there in
    let after =
      header_after-gt s.entries (length s.entries) (header_before s.entries idx + 1)
        (length s.entries - (header_before s.entries idx + 1)) idx
        (λ j a b. header_before-none s.entries idx j (omega arith) b) size (omega arith) in
    ground arith

header_at-modify :
    (v : Bool) (i j : ℕ) (es : List Entry)
    → header_at (modify_at (set_checked v) i es) j ≡ header_at es j
header_at-modify v i j [] = refl
header_at-modify v zero zero (header t m c ∷ es) = refl
header_at-modify v zero zero (item l c d ∷ es) = refl
header_at-modify v zero (suc j) (e ∷ es) = refl
header_at-modify v (suc i) zero (e ∷ es) = refl
header_at-modify v (suc i) (suc j) (e ∷ es) = header_at-modify v i j es

header_at-modify_range :
    (v : Bool) (lo n j : ℕ) (es : List Entry)
    → header_at (modify_range (set_checked v) lo n es) j ≡ header_at es j
header_at-modify_range v lo zero j es = refl
header_at-modify_range v lo (suc n) j es =
    header_at-modify_range v (suc lo) n j (modify_at (set_checked v) lo es)
    ∙ header_at-modify v lo j es

length-modify_at :
    {A : Type 0} (f : A → A) (i : ℕ) (xs : List A) → length (modify_at f i xs) ≡ length xs
length-modify_at f i [] = refl
length-modify_at f zero (x ∷ xs) = refl
length-modify_at f (suc i) (x ∷ xs) = ap suc (length-modify_at f i xs)

length-modify_range :
    {A : Type 0} (f : A → A) (lo n : ℕ) (xs : List A) → length (modify_range f lo n xs) ≡ length xs
length-modify_range f lo zero xs = refl
length-modify_range f lo (suc n) xs =
    length-modify_range f (suc lo) n (modify_at f lo xs) ∙ length-modify_at f lo xs

-- The same headers give the same bounds.
abbrev SameHeaders : List Entry → List Entry → Type 0
SameHeaders es fs = (j : ℕ) → header_at es j ≡ header_at fs j

header_before-same :
    (es fs : List Entry) → SameHeaders es fs → (i : ℕ) → header_before es i ≡ header_before fs i
unfolding header_before
header_before-same es fs h zero = refl
header_before-same es fs h (suc i) = ground (arith, h (suc i), header_before-same es fs h i)

header_after-same :
    (es fs : List Entry)
    → SameHeaders es fs
    → (d i n : ℕ) → header_after es d i n ≡ header_after fs d i n
unfolding header_after
header_after-same es fs h d i zero = refl
header_after-same es fs h d i (suc n) = ground (arith, h i, header_after-same es fs h d (suc i) n)

section_bounds-same :
    (s : PickerState) (es : List Entry)
    → SameHeaders es s.entries
    → length es ≡ length s.entries
    → (i : ℕ) → section_bounds (record s { entries = es }) i ≡ section_bounds s i
unfolding section_bounds
section_bounds-same s es h len i =
    rw (len, header_before-same es s.entries h i)
      (ap (λ (e : ℕ). (header_before s.entries i, e))
        (header_after-same es s.entries h (length s.entries) (header_before s.entries i + 1)
          (length s.entries - (header_before s.entries i + 1))))

toggle_radio-SameHeaders :
    (idx : ℕ) (bounds : ℕ × ℕ) (es : List Entry) → SameHeaders (toggle_radio idx bounds es) es
unfolding toggle_radio set_section
toggle_radio-SameHeaders idx (h, e) es j = ground (
  arith,
  header_at-modify true idx j (modify_range (set_checked false) (h + 1) (e - (h + 1)) es),
  header_at-modify_range false (h + 1) (e - (h + 1)) j es,
)

length-toggle_radio :
    (idx : ℕ) (bounds : ℕ × ℕ) (es : List Entry) → length (toggle_radio idx bounds es) ≡ length es
unfolding toggle_radio set_section
length-toggle_radio idx (h, e) es = ground (
  arith,
  length-modify_at (set_checked true) idx
      (modify_range (set_checked false) (h + 1) (e - (h + 1)) es),
  length-modify_range (set_checked false) (h + 1) (e - (h + 1)) es,
)

item_at-entry :
    (es : List Entry) (i : ℕ) (e : Entry)
    → get_elem? es i ≡ some e
    → is_header e ≡ false
    → item_at es i ≡ true
item_at-entry es i e there no_header = rw (there, item_at) (rw no_header refl)

-- With the cursor on an item of a radio section, of a state whose first entry is a header, `toggle`
-- does not panic, and afterwards at most one item of the section is checked.
pub toggle-at_most_one :
    (s : PickerState) (idx : ℕ) (e : Entry)
    → header_at s.entries 0 ≡ true
    → current_entry_idx s ≡ some idx
    → get_elem? s.entries idx ≡ some e
    → is_header e ≡ false
    → current_section_mode s ≡ some radio
    → (s' : PickerState) × (toggle s ≡ some s')
      × (checked_count s'.entries (section_bounds s' idx) ≤ 1)
unfolding toggle
toggle-at_most_one s idx e first cursor there no_header mode = (
  record s { entries = toggled },
  rw (cursor, there, no_header, mode),
  rw same_bounds at_most_one,
)
  where
    toggled : List Entry
    toggled = toggle_radio idx (section_bounds s idx) s.entries

    same_bounds : section_bounds (record s { entries = toggled }) idx ≡ section_bounds s idx
    same_bounds =
        section_bounds-same s toggled
          (toggle_radio-SameHeaders idx (section_bounds s idx) s.entries)
          (length-toggle_radio idx (section_bounds s idx) s.entries) idx

    at_most_one : checked_count toggled (section_bounds s idx) ≤ 1
    at_most_one =
        toggle_radio-at_most_one idx (section_bounds s idx) s.entries
          (item_at-entry s.entries idx e there no_header)
          (in_section-bounds s idx e first there no_header)
