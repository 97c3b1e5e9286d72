-- ===== src/Manifest/Views.antt =====
-- src/battery-pack/bphelper-manifest/src/lib.rs: the views of a battery pack that the commands show.
pub mod Listed
mod Tests
use battery_pack.Prelude.{ltb, Text, chars, text_eq, length, for_each, filter}
use battery_pack.Prelude.{Bool, not, ◌||◌, Option, none, some, List, [], ◌∷◌, ◌++◌, if◌then◌else◌}
use battery_pack.Prelude.Set
use battery_pack.Prelude.Map
use battery_pack.Prelude.Map.{Map, keys, contains_key}
use battery_pack.FeatureRef.{FeatureRef, dep_name}
use battery_pack.Manifest.Types.{BatteryPackSpec, CrateSpec, ItemMeta, TemplateSpec}
use battery_pack.Manifest.Resolve.{◌>>=◌, is_hidden, resolve_crates}
use battery_pack.Manifest.Check.{uses_category}

pub record Grouped : Type 0 where
  pub group : Text
  pub crate_name : Text
  pub crate_spec : CrateSpec
  pub is_default : Bool

-- What the two loops of `all_crates_with_grouping` mutate.
pub record Grouping : Type 0 where
  pub result : List Grouped
  pub seen : List Text

module _ (spec : BatteryPackSpec) where
  unfoldable pub visible_crates : Map CrateSpec
  visible_crates = Map.retain (λ name. not (is_hidden spec name)) spec.crates

  -- `if seen.insert(key) { result.push(..) }`
  unfoldable pub emit : Map CrateSpec → Text → Text → CrateSpec → Grouping → Grouping
  emit default_crates group key c g = if Set.contains key g.seen then g else record {
    result =
        g.result
        ++ record {
          group = group;
          crate_name = key;
          crate_spec = c;
          is_default = contains_key key default_crates;
        }
          ∷ [];
    seen = Set.insert key g.seen;
  }

  unfoldable pub group_ref : Map CrateSpec → Text → FeatureRef → Grouping → Grouping
  unfolding emit
  group_ref default_crates feature_name fref g =
      if is_hidden spec (dep_name fref) then g else elim (Map.get (dep_name fref) spec.crates) [
        | none ↦ g
        | some c ↦ emit default_crates feature_name (dep_name fref) c g
      ]

  unfoldable pub group_feature : Map CrateSpec → Text × List FeatureRef → Grouping → Grouping
  unfolding group_ref
  group_feature default_crates (feature_name, refs) g =
      for_each (group_ref default_crates feature_name) refs g

  unfoldable pub group_rest : Map CrateSpec → Text × CrateSpec → Grouping → Grouping
  unfolding emit
  group_rest default_crates (name, c) g =
      if is_hidden spec name then g else emit default_crates (chars "default") name c g

  unfoldable pub grouping : Map CrateSpec → Grouping
  unfolding group_feature group_rest
  grouping default_crates =
      for_each (group_rest default_crates) spec.crates
        (for_each (group_feature default_crates) spec.features (record { result = []; seen = [] }))

  -- `none`: the resolution of the default features ran out of fuel, which it never does.
  unfoldable pub all_crates_with_grouping : Option (List Grouped)
  all_crates_with_grouping = do
    default_crates ← resolve_crates spec []
    some (grouping default_crates).result

  unfoldable pub has_meaningful_choices : Bool
  has_meaningful_choices =
      ltb 0 (length (filter (λ k. not (text_eq k (chars "default"))) (keys spec.features)))
      || ltb 3 (length spec.crates)

  abbrev add_item : Text → Text × ItemMeta → List Text → List Text
  add_item category (name, meta) items =
      if uses_category category meta.categories then Set.insert name items else items

  abbrev add_template : Text → Text × TemplateSpec → List Text → List Text
  add_template category (name, template) items =
      if uses_category category template.categories then Set.insert name items else items

  unfoldable pub items_in_category : Text → List Text
  items_in_category category =
      for_each (add_template category) spec.templates
        (for_each (add_item category) (spec.feature_meta ++ spec.dep_meta) [])
