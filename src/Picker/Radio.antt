-- ===== src/Picker/Radio.antt =====
-- Radio sections: what toggling an item does to its section, and what a confirmation requires.
use battery_pack.Prelude.{
  ℕ, zero, suc, ◌+◌, ◌-◌, ◌≤◌, ◌≡◌, refl, ◌∙◌, inl, inr, Bool, true, false, not, ◌&&◌, ◌||◌, none,
  some, List, [], ◌∷◌, length, filter, arith, if◌then◌else◌, get_elem?, ltb, leb, ◌==◌, Bool-cases,
}
use battery_pack.Picker.{Entry, header, item, is_header, checked_at, range_from}
use battery_pack.Picker.Toggle.{
  modify_at, modify_range, set_checked, checked_count, set_section, toggle_radio,
}

-- An item stands at the index.
abbrev pub item_at : List Entry → ℕ → Bool
item_at es i = elim (get_elem? es i) [ none ↦ false | some e ↦ not (is_header e) ]

checked-modify :
    (v : Bool) (i j : ℕ) (es : List Entry)
    → checked_at (modify_at (set_checked v) i es) j
      ≡ (if i == j then v && item_at es j else checked_at es j)
checked-modify v i j [] = ground arith
checked-modify v zero zero (header t m c ∷ es) = ground arith
checked-modify v zero zero (item l c d ∷ es) = ground arith
checked-modify v zero (suc j) (e ∷ es) = ground arith
checked-modify v (suc i) zero (e ∷ es) = ground arith
checked-modify v (suc i) (suc j) (e ∷ es) = ground (arith, checked-modify v i j es)

item_at-modify :
    (v : Bool) (i j : ℕ) (es : List Entry)
    → item_at (modify_at (set_checked v) i es) j ≡ item_at es j
item_at-modify v i j [] = refl
item_at-modify v zero zero (header t m c ∷ es) = refl
item_at-modify v zero zero (item l c d ∷ es) = refl
item_at-modify v zero (suc j) (e ∷ es) = refl
item_at-modify v (suc i) zero (e ∷ es) = refl
item_at-modify v (suc i) (suc j) (e ∷ es) = item_at-modify v i j es

-- The index lies in `lo..lo + n`.
abbrev pub within : ℕ → ℕ → ℕ → Bool
within lo n j = leb lo j && ltb j (lo + n)

checked-modify_range :
    (v : Bool) (lo n j : ℕ) (es : List Entry)
    → checked_at (modify_range (set_checked v) lo n es) j
      ≡ (if within lo n j then v && item_at es j else checked_at es j)
checked-modify_range v lo zero j es = ground arith
checked-modify_range v lo (suc n) j es =
    checked-modify_range v (suc lo) n j (modify_at (set_checked v) lo es)
    ∙ ground (arith, checked-modify v lo j es, item_at-modify v lo j es)

item_at-modify_range :
    (v : Bool) (lo n j : ℕ) (es : List Entry)
    → item_at (modify_range (set_checked v) lo n es) j ≡ item_at es j
item_at-modify_range v lo zero j es = refl
item_at-modify_range v lo (suc n) j es =
    item_at-modify_range v (suc lo) n j (modify_at (set_checked v) lo es) ∙ item_at-modify v lo j es

-- `j` lies between the header and the end of the section.
abbrev pub in_section : ℕ × ℕ → ℕ → Bool
in_section (header_idx, section_end) j = within (header_idx + 1) (section_end - (header_idx + 1)) j

-- Toggling an item of a radio section leaves it the only checked one, unless it was the only checked
-- one: then none is. Nothing changes outside the section.
pub toggle_radio_lem :
    (idx : ℕ) (bounds : ℕ × ℕ) (es : List Entry)
    → item_at es idx ≡ true
    → in_section bounds idx ≡ true
    → (j : ℕ)
    → checked_at (toggle_radio idx bounds es) j ≡ (
        if in_section bounds j
        then (idx == j) && (not (checked_at es idx) || ltb 1 (checked_count es bounds))
        else checked_at es j)
unfolding toggle_radio set_section
toggle_radio_lem idx (h, e) es item_there inside j =
    elim (Bool-cases (not (checked_at es idx) || ltb 1 (checked_count es (h, e)))) [
      | inl keep ↦ rw keep (
          checked-modify true idx j (modify_range (set_checked false) (h + 1) (e - (h + 1)) es)
          ∙ ground (
            arith,
            checked-modify_range false (h + 1) (e - (h + 1)) j es,
            item_at-modify_range false (h + 1) (e - (h + 1)) j es,
            moved j,
          ))
      | inr drop ↦ rw drop (checked-modify_range false (h + 1) (e - (h + 1)) j es ∙ ground arith)
    ]
  where
    moved : (k : ℕ) → idx ≡ k → (item_at es k ≡ true) × (within (h + 1) (e - (h + 1)) k ≡ true)
    moved k q = rw (← q) (item_there, inside)

at_most_one_from :
    (p : ℕ → Bool) (idx : ℕ) (lo n : ℕ)
    → ((j : ℕ) → within lo n j ≡ true → p j ≡ true → idx ≡ j)
    → length (filter p (range_from lo n)) ≤ (if leb lo idx then 1 else 0)
at_most_one_from p idx lo zero h = ground arith
at_most_one_from p idx lo (suc n) h =
    ground (arith, at_most_one_from p idx (suc lo) n (λ j w q. h j (wider j w) q), h lo)
  where
    wider : (j : ℕ) → within (suc lo) n j ≡ true → within lo (suc n) j ≡ true
    wider j w = ground arith

-- After an item of a radio section is toggled, at most one item of the section is checked.
pub toggle_radio-at_most_one :
    (idx : ℕ) (bounds : ℕ × ℕ) (es : List Entry)
    → item_at es idx ≡ true
    → in_section bounds idx ≡ true
    → checked_count (toggle_radio idx bounds es) bounds ≤ 1
unfolding checked_count
toggle_radio-at_most_one idx (h, e) es item_there inside = ground (
  arith,
  at_most_one_from (checked_at (toggle_radio idx (h, e) es)) idx (h + 1) (e - (h + 1)) only,
)
  where
    only :
        (j : ℕ)
        → within (h + 1) (e - (h + 1)) j ≡ true
        → checked_at (toggle_radio idx (h, e) es) j ≡ true
        → idx ≡ j
    only j w c = ground (arith, toggle_radio_lem idx (h, e) es item_there inside j)
