-- ===== src/Manifest/Resolve/Total.antt =====
-- The expansion of features never runs out of fuel, and leaves `visiting` as it found it.
use battery_pack.Prelude.{
  not, sym, ◌∙◌, ap, subst, inl, inr, ℕ, zero, suc, ◌<◌, ◌≤◌, ◌≡◌, refl, Text, chars, text_eq,
  arith,
}
use battery_pack.Prelude.{true, false, Option, none, some, List, [], ◌∷◌, Bool-cases, Option-cases}
use battery_pack.Prelude.Set
use battery_pack.Prelude.Set.{unseen}
use battery_pack.Prelude.Map
use battery_pack.Prelude.Map.{Map, keys}
use battery_pack.FeatureRef.{FeatureRef, feature, dep, dep_feature}
use battery_pack.Manifest.Types.{BatteryPackSpec, CrateSpec, ActiveFeatures}
use battery_pack.Manifest.Resolve.{
  Resolution, ◌>>=◌, add_bare, add_ref, add_refs, add_feature_crates, expand_fuel,
  add_default_crates, add_active, add_all_active, activate, start, resolve_crates,
  resolve_for_features, complete, expanded, is_hidden, add_implicit,
}

module _ (spec : BatteryPackSpec) where
  -- The run returns, with the features in `visiting` that were in `seen`.
  abbrev pub Returns : List Text → Option Resolution → Type 0
  Returns seen none = ⊥
  Returns seen (some st) = st.visiting ≡ seen

  bind-Returns :
      (seen : List Text) (r : Option Resolution) (f : Resolution → Option Resolution)
      → Returns seen r
      → ((st : Resolution) → st.visiting ≡ seen → Returns seen (f st))
      → Returns seen (r >>= f)
  bind-Returns seen none f h k = h
  bind-Returns seen (some st) f h k = k st h

  abbrev left : Resolution → ℕ
  left st = unseen st.visiting (keys spec.features)

  abbrev ReturnsBelow : ℕ → (List FeatureRef → Resolution → Option Resolution) → Type 0
  ReturnsBelow n rec =
      (refs : List FeatureRef) (st : Resolution) → left st < n → Returns st.visiting (rec refs st)

  add_bare-Returns :
      (rec : List FeatureRef → Resolution → Option Resolution) (n : ℕ)
      → ReturnsBelow n rec
      → (name : Text) (st : Resolution) → left st ≤ n
      → Returns st.visiting (add_bare spec rec name (Map.get name spec.features) st)
  unfolding add_bare
  add_bare-Returns rec n h name st le = elim (Option-cases (Map.get name spec.features)) [
    | inl e ↦ rw e refl
    | inr (inner, e) ↦ rw e (elim (Bool-cases (Set.contains name st.visiting)) [
      | inl old ↦ rw old refl
      | inr new ↦
          let less =
            Set.unseen-insert_lt name st.visiting (keys spec.features)
              (Map.get-mem_keys name spec.features e) new in
          rw new (
            left_again new (rec inner (record st { visiting = Set.insert name st.visiting }))
              (h inner (record st { visiting = Set.insert name st.visiting }) (omega arith)))
    ])
  ]
    where
      left_again :
          Set.contains name st.visiting ≡ false
          → (r : Option Resolution) → Returns (Set.insert name st.visiting) r
          → Returns st.visiting
              (r >>= λ st'. some (record st' { visiting = Set.remove name st'.visiting }))
      left_again new none g = g
      left_again new (some st') g = ap (Set.remove name) g ∙ Set.remove-insert name st.visiting new

  add_ref-Returns :
      (rec : List FeatureRef → Resolution → Option Resolution) (n : ℕ)
      → ReturnsBelow n rec
      → (r : FeatureRef) (st : Resolution) → left st ≤ n
      → Returns st.visiting (add_ref spec rec r st)
  unfolding add_ref
  add_ref-Returns rec n h (feature name) st le = add_bare-Returns rec n h name st le
  add_ref-Returns rec n h (dep name) st le = refl
  add_ref-Returns rec n h (dep_feature d f true) st le = refl
  add_ref-Returns rec n h (dep_feature d f false) st le = refl

  add_refs-Returns :
      (rec : List FeatureRef → Resolution → Option Resolution) (n : ℕ)
      → ReturnsBelow n rec
      → (refs : List FeatureRef) (st : Resolution) → left st ≤ n
      → Returns st.visiting (add_refs spec rec refs st)
  unfolding add_refs
  add_refs-Returns rec n h [] st le = refl
  add_refs-Returns rec n h (r ∷ rs) st le =
      bind-Returns st.visiting (add_ref spec rec r st) (add_refs spec rec rs)
        (add_ref-Returns rec n h r st le)
        λ st' same.
          subst (λ (seen : List Text). Returns seen (add_refs spec rec rs st')) same
            (add_refs-Returns rec n h rs st'
              (subst (λ (seen : List Text). unseen seen (keys spec.features) ≤ n) (sym same) le))

  pub add_feature_crates-ReturnsBelow :
      (fuel : ℕ) → ReturnsBelow fuel (add_feature_crates spec fuel)
  unfolding add_feature_crates
  add_feature_crates-ReturnsBelow zero refs st lt = absurd (omega arith)
  add_feature_crates-ReturnsBelow (suc fuel) refs st lt =
      add_refs-Returns (add_feature_crates spec fuel) fuel (add_feature_crates-ReturnsBelow fuel)
        refs st (omega arith)

  pub expand-Returns :
      (refs : List FeatureRef) (st : Resolution)
      → Returns st.visiting (add_feature_crates spec (expand_fuel spec) refs st)
  unfolding expand_fuel
  expand-Returns refs st =
      add_feature_crates-ReturnsBelow _ refs st
        (omega (arith, Set.unseen-le-length st.visiting (keys spec.features)))

  add_default_crates-Returns : (st : Resolution) → Returns st.visiting (add_default_crates spec st)
  unfolding add_default_crates
  add_default_crates-Returns st = elim (Option-cases (Map.get (chars "default") spec.features)) [
    | inl e ↦ rw (e, Returns, add_default_crates) refl
    | inr (refs, e) ↦ rw (e, Returns, add_default_crates) (expand-Returns refs st)
  ]

  add_active-Returns :
      (name : Text) (st : Resolution) → Returns st.visiting (add_active spec name st)
  unfolding add_active
  add_active-Returns name st = elim (Bool-cases (text_eq name (chars "default"))) [
    | inl e ↦ rw e (add_default_crates-Returns st)
    | inr ne ↦ rw ne (elim (Option-cases (Map.get name spec.features)) [
      | inl e ↦ rw e refl
      | inr (refs, e) ↦ rw e (expand-Returns refs st)
    ])
  ]

  add_all_active-Returns :
      (names : List Text) (st : Resolution) → Returns st.visiting (add_all_active spec names st)
  unfolding add_all_active
  add_all_active-Returns [] st = refl
  add_all_active-Returns (name ∷ names) st =
      bind-Returns st.visiting (add_active spec name st) (add_all_active spec names)
        (add_active-Returns name st)
        λ st' same.
          subst (λ (seen : List Text). Returns seen (add_all_active spec names st')) same
            (add_all_active-Returns names st')

  pub activate-Returns : (names : List Text) → Returns [] (activate spec names start)
  unfolding activate
  activate-Returns [] = add_default_crates-Returns start
  activate-Returns (name ∷ names) = add_all_active-Returns (name ∷ names) start

  -- The activation returns some resolution.
  pub activated : (names : List Text) → (st : Resolution) × (activate spec names start ≡ some st)
  activated names = got (activate spec names start) (activate-Returns names)
    where
      got : (r : Option Resolution) → Returns [] r → (st : Resolution) × (r ≡ some st)
      got none h = absurd h
      got (some st) h = (st, refl)

-- Resolution returns for every battery pack, cyclic ones included, and for all active features.
pub resolve_for_features-total :
    (spec : BatteryPackSpec) (active : ActiveFeatures)
    → (crates : Map CrateSpec) × (resolve_for_features spec active ≡ some crates)
unfolding resolve_for_features resolve_crates
resolve_for_features-total spec active =
    let (st, e) = activated spec (expanded spec active) in
    (
      Map.retain (λ name. not (is_hidden spec name)) (add_implicit spec active (complete spec st)),
      rw (e, resolve_crates) refl,
    )
