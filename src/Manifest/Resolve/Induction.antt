-- ===== src/Manifest/Resolve/Induction.antt =====
-- What the expansion keeps of the result map, from what adding one dependency keeps.
use battery_pack.Prelude.{inl, inr, ℕ, zero, suc, Text, chars, text_eq}
use battery_pack.Prelude.{true, false, Option, none, some, List, [], ◌∷◌, Bool-cases, Option-cases}
use battery_pack.Prelude.Set
use battery_pack.Prelude.Map
use battery_pack.Prelude.Map.{Map}
use battery_pack.FeatureRef.{FeatureRef, feature, dep, dep_feature}
use battery_pack.Manifest.Types.{BatteryPackSpec, CrateSpec}
use battery_pack.Manifest.Resolve.{
  Resolution, ◌>>=◌, add_bare, add_ref, add_refs, add_feature_crates, add_dep, insert_required,
  expand_fuel, add_default_crates, add_active, add_all_active, activate,
}

-- `P` holds of the result map, if the fuel lasted.
abbrev pub Kept : (Map CrateSpec → Type 0) → Option Resolution → Type 0
Kept P none = Unit
Kept P (some st) = P st.result

module _ (spec : BatteryPackSpec) (P : Map CrateSpec → Type 0)
    (dep_keeps : (name : Text) (extra : Option Text) (m : Map CrateSpec)
      → P m
      → P (add_dep spec name extra m)) where
  bind-Keeps :
      (r : Option Resolution) (f : Resolution → Option Resolution)
      → Kept P r
      → ((st : Resolution) → P st.result → Kept P (f st))
      → Kept P (r >>= f)
  bind-Keeps none f h k = tt
  bind-Keeps (some st) f h k = k st h

  abbrev KeepsAll : (List FeatureRef → Resolution → Option Resolution) → Type 0
  KeepsAll rec = (refs : List FeatureRef) (st : Resolution) → P st.result → Kept P (rec refs st)

  add_bare-Keeps :
      (rec : List FeatureRef → Resolution → Option Resolution)
      → KeepsAll rec
      → (name : Text) (o : Option (List FeatureRef)) (st : Resolution) → P st.result
      → Kept P (add_bare spec rec name o st)
  unfolding add_bare
  add_bare-Keeps rec h name none st p = dep_keeps name none st.result p
  add_bare-Keeps rec h name (some inner) st p = elim (Bool-cases (Set.contains name st.visiting)) [
    | inl old ↦ rw old p
    | inr new ↦ rw new (
        bind-Keeps (rec inner (record st { visiting = Set.insert name st.visiting })) _
          (h inner _ p) (λ st' q. q))
  ]

  add_ref-Keeps :
      (rec : List FeatureRef → Resolution → Option Resolution)
      → KeepsAll rec
      → (r : FeatureRef) (st : Resolution) → P st.result
      → Kept P (add_ref spec rec r st)
  unfolding add_ref
  add_ref-Keeps rec h (feature name) st p =
      add_bare-Keeps rec h name (Map.get name spec.features) st p
  add_ref-Keeps rec h (dep name) st p = dep_keeps name none st.result p
  add_ref-Keeps rec h (dep_feature d f true) st p = p
  add_ref-Keeps rec h (dep_feature d f false) st p = dep_keeps d (some f) st.result p

  add_refs-Keeps :
      (rec : List FeatureRef → Resolution → Option Resolution)
      → KeepsAll rec
      → (refs : List FeatureRef) (st : Resolution) → P st.result
      → Kept P (add_refs spec rec refs st)
  unfolding add_refs
  add_refs-Keeps rec h [] st p = p
  add_refs-Keeps rec h (r ∷ rs) st p =
      bind-Keeps (add_ref spec rec r st) (add_refs spec rec rs) (add_ref-Keeps rec h r st p)
        (add_refs-Keeps rec h rs)

  pub add_feature_crates-Keeps : (fuel : ℕ) → KeepsAll (add_feature_crates spec fuel)
  unfolding add_feature_crates
  add_feature_crates-Keeps zero refs st p = tt
  add_feature_crates-Keeps (suc fuel) refs st p =
      add_refs-Keeps (add_feature_crates spec fuel) (add_feature_crates-Keeps fuel) refs st p

  module _ (required_keeps : (m : Map CrateSpec) → P m → P (insert_required spec.crates m)) where
    add_default_crates-Keeps : (st : Resolution) → P st.result → Kept P (add_default_crates spec st)
    unfolding add_default_crates
    add_default_crates-Keeps st p = elim (Option-cases (Map.get (chars "default") spec.features)) [
      | inl e ↦ rw (e, Kept, add_default_crates) (required_keeps st.result p)
      | inr (refs, e) ↦
          rw (e, Kept, add_default_crates) (add_feature_crates-Keeps (expand_fuel spec) refs st p)
    ]

    add_active-Keeps :
        (name : Text) (st : Resolution) → P st.result → Kept P (add_active spec name st)
    unfolding add_active
    add_active-Keeps name st p = elim (Bool-cases (text_eq name (chars "default"))) [
      | inl e ↦ rw e (add_default_crates-Keeps st p)
      | inr ne ↦ rw ne (elim (Option-cases (Map.get name spec.features)) [
        | inl e ↦ rw e p
        | inr (refs, e) ↦ rw e (add_feature_crates-Keeps (expand_fuel spec) refs st p)
      ])
    ]

    add_all_active-Keeps :
        (names : List Text) (st : Resolution) → P st.result → Kept P (add_all_active spec names st)
    unfolding add_all_active
    add_all_active-Keeps [] st p = p
    add_all_active-Keeps (name ∷ names) st p =
        bind-Keeps (add_active spec name st) (add_all_active spec names)
          (add_active-Keeps name st p) (add_all_active-Keeps names)

    -- The result of an activation has what the empty map has and every step keeps.
    pub activate-Keeps :
        (names : List Text) (st : Resolution) → P st.result → Kept P (activate spec names st)
    unfolding activate
    activate-Keeps [] st p = add_default_crates-Keeps st p
    activate-Keeps (name ∷ names) st p = add_all_active-Keeps (name ∷ names) st p
