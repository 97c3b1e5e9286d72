-- ===== src/Manifest/Views/Listed.antt =====
-- Which crates `all_crates_with_grouping` lists.
use battery_pack.Prelude.{
  ◌≡◌, refl, ◌∙◌, ap, inl, inr, Text, text_eq, text_eq_iff, chars, List, [], ◌∷◌, ◌++◌, any,
  for_each, Bool, true, false, not, ◌&&◌, ◌||◌, some, arith, Bool-cases, Option-cases,
}
use battery_pack.Prelude.Set
use battery_pack.Prelude.Map
use battery_pack.Prelude.Map.{Map, contains_key}
use battery_pack.FeatureRef.{FeatureRef, dep_name}
use battery_pack.Manifest.Types.{BatteryPackSpec, CrateSpec}
use battery_pack.Manifest.Resolve.{is_hidden, resolve_crates, complete}
use battery_pack.Manifest.Resolve.Total.{activated}
use battery_pack.Manifest.Views.{
  Grouped, Grouping, emit, group_ref, group_feature, group_rest, grouping, all_crates_with_grouping,
}

-- The crate is in the list.
abbrev pub lists : Text → List Grouped → Bool
lists c gs = any (λ (g : Grouped). text_eq c g.crate_name) gs

lists-append_one :
    (c : Text) (gs : List Grouped) (g : Grouped)
    → lists c (gs ++ g ∷ []) ≡ (lists c gs || text_eq c g.crate_name)
lists-append_one c [] g = ground arith
lists-append_one c (x ∷ gs) g = ground (arith, lists-append_one c gs g)

-- A loop whose rounds each list the crate exactly if their item names it.
loop-lists :
    {A : Type 0} (c : Text) (step : A → Grouping → Grouping) (names : A → Bool)
    → ((a : A) (g : Grouping)
        → lists c g.result ≡ Set.contains c g.seen
        → (lists c (step a g).result ≡ (lists c g.result || names a))
          × (lists c (step a g).result ≡ Set.contains c (step a g).seen))
    → (xs : List A) (g : Grouping) → lists c g.result ≡ Set.contains c g.seen
    → (lists c (for_each step xs g).result ≡ (lists c g.result || any names xs))
      × (lists c (for_each step xs g).result ≡ Set.contains c (for_each step xs g).seen)
loop-lists c step names h [] g e = (ground arith, e)
loop-lists c step names h (x ∷ xs) g e =
    let (now, kept) = h x g e in
    let (later, kept') = loop-lists c step names h xs (step x g) kept in
    (later ∙ ground (arith, now), kept')

module _ (spec : BatteryPackSpec) (default_crates : Map CrateSpec) (c : Text) where
  abbrev Kept : Grouping → Type 0
  Kept g = lists c g.result ≡ Set.contains c g.seen

  -- What a round does to the list, and that the crates seen are those listed.
  abbrev Round : Bool → Grouping → Grouping → Type 0
  Round b g g' = (lists c g'.result ≡ (lists c g.result || b)) × Kept g'

  emit-Round :
      (group key : Text) (x : CrateSpec) (g : Grouping)
      → Kept g
      → Round (text_eq c key) g (emit spec default_crates group key x g)
  unfolding emit
  emit-Round group key x g e = elim (Bool-cases (Set.contains key g.seen)) [
    | inl seen ↦ rw seen (ground (arith, text_eq_iff c key, e, at_key seen), e)
    | inr new ↦ rw new (
      lists-append_one c g.result _,
      lists-append_one c g.result _ ∙ ground (arith, e, Set.contains-insert key c g.seen),
    )
  ]
    where
      at_key : Set.contains key g.seen ≡ true → c ≡ key → Set.contains c g.seen ≡ true
      at_key h q = rw q h

  abbrev is_shown : Text → Bool
  is_shown name = contains_key name spec.crates && not (is_hidden spec name)

  nothing : (g : Grouping) → Kept g → Round false g g
  nothing g e = (ground arith, e)

  abbrev names_ref : FeatureRef → Bool
  names_ref r = is_shown (dep_name r) && text_eq c (dep_name r)

  group_ref-Round :
      (feature_name : Text) (r : FeatureRef) (g : Grouping)
      → Kept g
      → Round (names_ref r) g (group_ref spec default_crates feature_name r g)
  unfolding group_ref
  group_ref-Round feature_name r g e = elim (Bool-cases (is_hidden spec (dep_name r))) [
    | inl hidden ↦ rw hidden (ground arith, e)
    | inr shown ↦ elim (Option-cases (Map.get (dep_name r) spec.crates)) [
      | inl absent ↦
          rw (shown, absent, Map.contains_key-false_of_none (dep_name r) spec.crates absent)
            (ground arith, e)
      | inr (x, there) ↦
          rw (shown, there, Map.get-contains_key (dep_name r) spec.crates there)
            (emit-Round feature_name (dep_name r) x g e)
    ]
  ]

  abbrev names_feature : Text × List FeatureRef → Bool
  names_feature (name, refs) = any names_ref refs

  group_feature-Round :
      (f : Text × List FeatureRef) (g : Grouping)
      → Kept g
      → Round (names_feature f) g (group_feature spec default_crates f g)
  unfolding group_feature
  group_feature-Round (name, refs) g e =
      loop-lists c (group_ref spec default_crates name) names_ref (group_ref-Round name) refs g e

  abbrev names_crate : Text × CrateSpec → Bool
  names_crate (name, x) = not (is_hidden spec name) && text_eq c name

  group_rest-Round :
      (p : Text × CrateSpec) (g : Grouping)
      → Kept g
      → Round (names_crate p) g (group_rest spec default_crates p g)
  unfolding group_rest
  group_rest-Round (name, x) g e = elim (Bool-cases (is_hidden spec name)) [
    | inl hidden ↦ rw hidden (ground arith, e)
    | inr shown ↦ rw shown (emit-Round (chars "default") name x g e)
  ]

  names_ref-shown : (r : FeatureRef) → names_ref r ≡ true → is_shown c ≡ true
  names_ref-shown r h = elim (Bool-cases (text_eq c (dep_name r))) [
    | inl same ↦ ap is_shown ((text_eq_iff c (dep_name r)).0 same) ∙ ground (arith, h)
    | inr other ↦ ground (arith, h)
  ]

  refs-shown : (refs : List FeatureRef) → any names_ref refs ≡ true → is_shown c ≡ true
  refs-shown [] h = cc h
  refs-shown (r ∷ refs) h = ground (arith, names_ref-shown r, refs-shown refs, h)

  features-shown : (m : Map (List FeatureRef)) → any names_feature m ≡ true → is_shown c ≡ true
  features-shown [] h = cc h
  features-shown ((name, refs) ∷ m) h = ground (arith, refs-shown refs, features-shown m, h)

  crates-shown :
      (m : Map CrateSpec) → any names_crate m ≡ (contains_key c m && not (is_hidden spec c))
  unfolding contains_key Map.get
  crates-shown [] = refl
  crates-shown ((name, x) ∷ m) = elim (Bool-cases (text_eq c name)) [
    | inl same ↦
        rw same (ground (arith, ap (is_hidden spec) ((text_eq_iff c name).0 same), crates-shown m))
    | inr other ↦ rw other (ground (arith, crates-shown m))
  ]

  lists-grouping : lists c (grouping spec default_crates).result ≡ is_shown c
  unfolding grouping
  lists-grouping =
      let (first, kept) =
        loop-lists c (group_feature spec default_crates) names_feature group_feature-Round
          spec.features (record { result = []; seen = [] }) (unfold Set.contains in refl) in
      let (rest, _) =
        loop-lists c (group_rest spec default_crates) names_crate group_rest-Round spec.crates _
          kept in
      rest ∙ ground (arith, first, crates-shown spec.crates, features-shown spec.features)

-- `all_crates_with_grouping` returns, and lists exactly the declared crates that are not hidden.
pub all_crates_with_grouping-lists :
    (spec : BatteryPackSpec)
    → (gs : List Grouped) × (all_crates_with_grouping spec ≡ some gs)
      × ((c : Text) → lists c gs ≡ (contains_key c spec.crates && not (is_hidden spec c)))
unfolding all_crates_with_grouping resolve_crates
all_crates_with_grouping-lists spec =
    let (st, e) = activated spec [] in
    let default_crates = complete spec st in
    (
      (grouping spec default_crates).result,
      rw (e, all_crates_with_grouping, resolve_crates) refl,
      lists-grouping spec default_crates,
    )
