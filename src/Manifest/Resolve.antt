-- ===== src/Manifest/Resolve.antt =====
-- src/battery-pack/bphelper-manifest/src/lib.rs, `BatteryPackSpec::resolve_crates` and what it calls,
-- `resolve_for_features`, `is_hidden`. The expansion of local features takes fuel; `none` means that
-- the fuel ran out, which the child module Total excludes for the fuel that `resolve_crates` gives.
pub mod Total
pub mod Induction
pub mod Origin
pub mod Reach
pub mod Exact
pub mod Ungated
pub mod Loops
pub mod Selection
mod Tests
use battery_pack.Prelude.{
  ℕ, zero, suc, Text, chars, text_eq, length, for_each, any, filter, map, not,
}
use battery_pack.Prelude.{
  Bool, true, false, ◌&&◌, ◌||◌, Option, none, some, List, [], ◌∷◌, ◌++◌, ◌≡◌,
}
use battery_pack.Prelude.{if◌then◌else◌}
use battery_pack.Prelude.Set
use battery_pack.Prelude.Map
use battery_pack.Prelude.Map.{Map, keys, contains_key}
use battery_pack.FeatureRef.{FeatureRef, feature, dep, dep_feature, dep_name}
use battery_pack.Glob.{glob_match}
use battery_pack.Manifest.Types.{
  BatteryPackSpec, CrateSpec, DepKind, normal, ActiveFeatures, every, subset,
}

infixl 5 ◌>>=◌
abbrev pub ◌>>=◌ : {A B : Type 0} → Option A → (A → Option B) → Option B
none >>= f = none
some a >>= f = f a

-- The three values that the expansion mutates.
pub record Resolution : Type 0 where
  pub result : Map CrateSpec
  pub visiting : List Text
  pub pending_weak : List (Text × Text)

abbrev pub start : Resolution
start = record { result = []; visiting = []; pending_weak = [] }

-- `entry.features.insert(extra)`
unfoldable pub with_extra : Option Text → CrateSpec → CrateSpec
with_extra none spec = spec
with_extra (some extra) spec = record spec { features = Set.insert extra spec.features }

-- The entry before the extra feature: a new clone, or the old one with the declared features.
unfoldable pub merged_entry : Option CrateSpec → CrateSpec → CrateSpec
merged_entry none spec = spec
merged_entry (some existing) spec = record existing {
  features = Set.extend existing.features spec.features;
}

unfoldable pub add_declared : Text → Option Text → Option CrateSpec → Map CrateSpec → Map CrateSpec
unfolding with_extra merged_entry
add_declared name extra none result = result
add_declared name extra (some spec) result =
    Map.insert name (with_extra extra (merged_entry (Map.get name result) spec)) result

-- `if p { result.entry(name).or_insert(spec) }`
unfoldable pub or_insert_one :
    (Text → CrateSpec → Bool) → Text × CrateSpec → Map CrateSpec → Map CrateSpec
or_insert_one p (name, spec) result =
    if p name spec && not (contains_key name result) then Map.insert name spec result else result

unfoldable pub or_insert_each :
    (Text → CrateSpec → Bool) → Map CrateSpec → Map CrateSpec → Map CrateSpec
unfolding or_insert_one
or_insert_each p crates result = for_each (or_insert_one p) crates result

-- `if !spec.optional { result.insert(name, spec) }`
unfoldable pub insert_one : Text × CrateSpec → Map CrateSpec → Map CrateSpec
insert_one (name, spec) result = if spec.optional then result else Map.insert name spec result

unfoldable pub insert_required : Map CrateSpec → Map CrateSpec → Map CrateSpec
unfolding insert_one
insert_required crates result = for_each insert_one crates result

-- `if let Some(entry) = result.get_mut(&dep) { entry.features.insert(feature); }`
unfoldable pub apply_weak : Text × Text → Map CrateSpec → Map CrateSpec
apply_weak (d, f) result = elim (Map.get d result) [
  | none ↦ result
  | some entry ↦ Map.insert d (record entry { features = Set.insert f entry.features }) result
]

-- Names that some feature refers to.
unfoldable pub featured : Map (List FeatureRef) → List Text
featured [] = []
featured ((name, refs) ∷ m) = map dep_name refs ++ featured m

unfoldable pub is_normal : DepKind → Bool
is_normal DepKind.normal = true
is_normal DepKind.dev = false
is_normal DepKind.build = false

module _ (spec : BatteryPackSpec) where
  unfoldable pub is_hidden : Text → Bool
  is_hidden crate_name = any (λ pattern_text. glob_match pattern_text crate_name) spec.hidden

  unfoldable pub add_dep : Text → Option Text → Map CrateSpec → Map CrateSpec
  unfolding add_declared
  add_dep name extra result = add_declared name extra (Map.get name spec.crates) result

  abbrev pub put_dep : Text → Option Text → Resolution → Resolution
  put_dep name extra st = record st { result = add_dep name extra st.result }

  -- A bare name: a local feature, expanded if it is not being expanded already, or a dependency.
  unfoldable pub add_bare :
      (List FeatureRef → Resolution → Option Resolution)
      → Text
      → Option (List FeatureRef)
      → Resolution
      → Option Resolution
  add_bare rec name none st = some (put_dep name none st)
  add_bare rec name (some inner) st = if Set.contains name st.visiting then some st else (do
    st' ← rec inner (record st { visiting = Set.insert name st.visiting })
    some (record st' { visiting = Set.remove name st'.visiting }))

  unfoldable pub add_ref :
      (List FeatureRef → Resolution → Option Resolution)
      → FeatureRef
      → Resolution
      → Option Resolution
  unfolding add_bare
  add_ref rec (feature name) st = add_bare rec name (Map.get name spec.features) st
  add_ref rec (dep name) st = some (put_dep name none st)
  add_ref rec (dep_feature d f true) st =
      some (record st { pending_weak = st.pending_weak ++ (d, f) ∷ [] })
  add_ref rec (dep_feature d f false) st = some (put_dep d (some f) st)

  unfoldable pub add_refs :
      (List FeatureRef → Resolution → Option Resolution)
      → List FeatureRef
      → Resolution
      → Option Resolution
  add_refs rec [] st = some st
  add_refs rec (r ∷ rs) st = do st' ← add_ref rec r st; add_refs rec rs st'

  unfoldable pub add_feature_crates : ℕ → List FeatureRef → Resolution → Option Resolution
  unfolding add_refs add_ref
  add_feature_crates zero refs st = none
  add_feature_crates (suc fuel) refs st = add_refs (add_feature_crates fuel) refs st

  -- Every nested expansion adds a feature to `visiting`, so this depth is enough.
  unfoldable pub expand_fuel : ℕ
  expand_fuel = suc (suc (length (keys spec.features)))

  unfoldable pub add_default_crates : Resolution → Option Resolution
  add_default_crates st = elim (Map.get (chars "default") spec.features) [
    | some default_refs ↦ add_feature_crates expand_fuel default_refs st
    | none ↦ some (record st { result = insert_required spec.crates st.result })
  ]

  unfoldable pub add_active : Text → Resolution → Option Resolution
  add_active name st =
      if text_eq name (chars "default")
      then add_default_crates st
      else elim (Map.get name spec.features) [
        | some refs ↦ add_feature_crates expand_fuel refs st
        | none ↦ some st
      ]

  unfoldable pub add_all_active : List Text → Resolution → Option Resolution
  add_all_active [] st = some st
  add_all_active (name ∷ names) st = do st' ← add_active name st; add_all_active names st'

  unfoldable pub activate : List Text → Resolution → Option Resolution
  activate [] st = add_default_crates st
  activate (name ∷ names) st = add_all_active (name ∷ names) st

  -- Dependencies that no feature gates.
  unfoldable pub unconditional : Text → CrateSpec → Bool
  unfolding is_normal
  unconditional name c =
      not (is_normal c.dep_kind)
      || (not c.optional && not (Set.contains name (featured spec.features)))

  -- The two loops that follow the expansion.
  unfoldable pub complete : Resolution → Map CrateSpec
  complete st = for_each apply_weak st.pending_weak (
      or_insert_each (λ name c. unconditional name c && not (is_hidden name)) spec.crates st.result)

  unfoldable pub resolve_crates : List Text → Option (Map CrateSpec)
  resolve_crates active_features = do st ← activate active_features start; some (complete st)

  unfoldable pub expanded : ActiveFeatures → List Text
  expanded every = keys spec.features
  expanded (subset features) = features

  -- Under `All`, optional dependencies that no feature refers to are added too.
  unfoldable pub add_implicit : ActiveFeatures → Map CrateSpec → Map CrateSpec
  add_implicit every resolved =
      or_insert_each (λ name c. c.optional && not (Set.contains name (featured spec.features)))
        spec.crates resolved
  add_implicit (subset features) resolved = resolved

  unfoldable pub resolve_for_features : ActiveFeatures → Option (Map CrateSpec)
  resolve_for_features active = do
    resolved ← resolve_crates (expanded active)
    some (Map.retain (λ name. not (is_hidden name)) (add_implicit active resolved))
