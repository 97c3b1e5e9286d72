-- ===== src/Picker/Results.antt =====
-- What a picker returns: the checked flags of its sections, which only checking changes.
use battery_pack.Prelude.{
  ℕ, suc, ◌≡◌, refl, sym, ◌∙◌, ap, Bool, true, false, List, [], ◌∷◌, ◌++◌, map,
}
use mathlib.Core.List.{append_assoc, append-nil}
use battery_pack.Picker.{
  SectionItem, Section, Entry, header, item, Flat, push_items, push_sections, new,
  rebuild_nav_stops,
}
use battery_pack.Picker.Confirm.{collect, into_results}

abbrev item_entry : SectionItem → Entry
item_entry i = item i.label i.checked i.description

abbrev pub entries_of : List Section → List Entry
entries_of [] = []
entries_of (s ∷ ss) =
    header s.title s.selection_mode s.collapsed ∷ (map item_entry s.items ++ entries_of ss)

abbrev flags : List SectionItem → List Bool
flags is = map (λ (i : SectionItem). i.checked) is

push_items-entries :
    (k : ℕ) (c : Bool) (j : ℕ) (is : List SectionItem) (flat : Flat)
    → (push_items k c j is flat).entries ≡ flat.entries ++ map item_entry is
unfolding push_items
push_items-entries k c j [] flat = sym (append-nil _)
push_items-entries k c j (i ∷ is) flat =
    push_items-entries k c (suc j) is _
    ∙ append_assoc flat.entries (item_entry i ∷ []) (map item_entry is)

push_sections-entries :
    (k : ℕ) (ss : List Section) (flat : Flat)
    → (push_sections k ss flat).entries ≡ flat.entries ++ entries_of ss
unfolding push_sections
push_sections-entries k [] flat = sym (append-nil _)
push_sections-entries k (s ∷ ss) flat =
    push_sections-entries (suc k) ss _
    ∙ ap (λ (l : List Entry). l ++ entries_of ss) (push_items-entries k s.collapsed 0 s.items _)
    ∙ append_assoc _ (map item_entry s.items) (entries_of ss)
    ∙ append_assoc flat.entries _ (map item_entry s.items ++ entries_of ss)

entries-new : (ss : List Section) → (new ss).entries ≡ entries_of ss
unfolding new rebuild_nav_stops
entries-new ss = push_sections-entries 0 ss _

collect-items :
    (is : List SectionItem) (es : List Entry) (results : List (List Bool)) (current : List Bool)
    (b : Bool)
    → collect (map item_entry is ++ es) results current b
      ≡ collect es results (current ++ flags is) b
unfolding collect
collect-items [] es results current b =
    ap (λ (c : List Bool). collect es results c b) (sym (append-nil current))
collect-items (i ∷ is) es results current true =
    collect-items is es results (current ++ i.checked ∷ []) true
    ∙ ap (λ (c : List Bool). collect es results c true)
        (append_assoc current (i.checked ∷ []) (flags is))
collect-items (i ∷ is) es results current false =
    collect-items is es results (current ++ i.checked ∷ []) false
    ∙ ap (λ (c : List Bool). collect es results c false)
        (append_assoc current (i.checked ∷ []) (flags is))

abbrev section_flags : List Section → List (List Bool)
section_flags ss = map (λ (s : Section). flags s.items) ss

collect-sections :
    (ss : List Section) (results : List (List Bool)) (current : List Bool)
    → collect (entries_of ss) results current true ≡ results ++ current ∷ section_flags ss
unfolding collect
collect-sections [] results current = refl
collect-sections (s ∷ ss) results current =
    collect-items s.items (entries_of ss) (results ++ current ∷ []) [] true
    ∙ collect-sections ss (results ++ current ∷ []) (flags s.items)
    ∙ append_assoc results (current ∷ []) (flags s.items ∷ section_flags ss)

-- The results of a new picker are the checked flags of its sections, in their order, with one list
-- for each section, collapsed and empty sections included.
pub into_results-new :
    (ss : List Section)
    → (into_results (new ss)).0
      ≡ map (λ (s : Section). map (λ (i : SectionItem). i.checked) s.items) ss
unfolding into_results collect
into_results-new [] = ap (λ (es : List Entry). collect es [] [] false) (entries-new [])
into_results-new (s ∷ ss) =
    ap (λ (es : List Entry). collect es [] [] false) (entries-new (s ∷ ss))
    ∙ collect-items s.items (entries_of ss) [] [] true
    ∙ collect-sections ss [] (flags s.items)
