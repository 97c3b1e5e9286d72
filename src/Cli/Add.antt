-- ===== src/Cli/Add.antt =====
-- src/battery-pack/bphelper-cli/src/commands.rs: what `cargo bp add` takes from a pack, and the check
-- of its at-most-one categories.
pub mod Exclusive
mod Tests
use battery_pack.Prelude.{
  or_else, null, ℕ, ltb, length, for_each, any, Text, chars, text_eq, sort, join, Result, ok, err,
}
use battery_pack.Prelude.{
  Bool, true, false, not, ◌&&◌, Option, none, some, List, [], ◌∷◌, ◌++◌, if◌then◌else◌, map,
}
use battery_pack.Prelude.Set
use battery_pack.Prelude.Map
use battery_pack.Prelude.Map.{Map}
use battery_pack.Manifest.Types.{
  BatteryPackSpec, CrateSpec, CategorySpec, ItemMeta, TemplateSpec, PickMode, at_most_one,
  any_number, ActiveFeatures, every,
}
use battery_pack.Manifest.Resolve.{resolve_crates, resolve_for_features}
use battery_pack.Manifest.Views.{has_meaningful_choices}

abbrev exclusive_pick : PickMode → Bool
exclusive_pick at_most_one = true
exclusive_pick any_number = false

abbrev exclusive_category : Option CategorySpec → Bool
exclusive_category none = false
exclusive_category (some c) = exclusive_pick c.pick

abbrev categories_of : Option ItemMeta → List Text
categories_of none = []
categories_of (some meta) = meta.categories

abbrev template_categories : Option TemplateSpec → List Text
template_categories none = []
template_categories (some t) = t.categories

abbrev pub or_empty : Option (List Text) → List Text
or_empty none = []
or_empty (some xs) = xs

module _ (spec : BatteryPackSpec) where
  unfoldable pub is_exclusive : Text → Bool
  is_exclusive category = exclusive_category (Map.get category spec.categories)

  -- The categories of a feature or a crate, which are those of its metadata.
  unfoldable pub item_categories : Text → List Text
  item_categories item =
      categories_of (or_else (Map.get item spec.feature_meta) (Map.get item spec.dep_meta))

  unfoldable pub categories_of_template : Text → List Text
  categories_of_template name = template_categories (Map.get name spec.templates)

  unfoldable pub exclusive_siblings : Text → Text → Bool
  unfolding is_exclusive item_categories
  exclusive_siblings a b =
      if text_eq a b
      then false
      else any (λ c. any (text_eq c) (item_categories a) && is_exclusive c) (item_categories b)

  -- `by_category.entry(category).or_default().push(item)`, in the loop over the categories of an item.
  unfoldable pub push_item : Text → Text → Map (List Text) → Map (List Text)
  unfolding is_exclusive
  push_item item category by_category =
      if is_exclusive category
      then Map.insert category (or_empty (Map.get category by_category) ++ item ∷ []) by_category
      else by_category

  unfoldable pub group : (Text → List Text) → List Text → Map (List Text) → Map (List Text)
  unfolding push_item
  group categories items by_category =
      for_each (λ item m. for_each (push_item item) (categories item) m) items by_category

  abbrev quoted : Text → Text
  quoted m = b'\'' ∷ (m ++ b'\'' ∷ [])

  abbrev pub conflict : Text → List Text → Text
  conflict category members =
      chars "items "
      ++ (join (chars " and ") (map quoted (sort members))
          ++ (chars " are exclusive (category: " ++ (category ++ chars ")")))

  -- The first category with more than one member.
  unfoldable pub report : Map (List Text) → Result (Unit {0}) Text
  report [] = ok tt
  report ((category, members) ∷ by_category) =
      let rest = report by_category in
      if ltb 1 (length members) then err (conflict category members) else rest

  unfoldable pub validate_exclusive_constraints : List Text → List Text → Result (Unit {0}) Text
  unfolding group report item_categories categories_of_template
  validate_exclusive_constraints requested requested_templates =
      report (group categories_of_template requested_templates (group item_categories requested []))

pub data ResolvedAdd : Type 0 where
  crates : List Text → Map CrateSpec → ResolvedAdd
  interactive : ResolvedAdd

abbrev select : BatteryPackSpec → Text → Map CrateSpec → Map CrateSpec
select spec name selected = elim (Map.get name spec.crates) [
  | none ↦ selected
  | some c ↦ Map.insert name c selected
]

abbrev crates_for : List Text → Option (Map CrateSpec) → Option ResolvedAdd
crates_for active none = none
crates_for active (some found) = some (crates active found)

abbrev resolve_features : BatteryPackSpec → List Text → Option ResolvedAdd
resolve_features spec features =
    if null features
    then some (crates [] [])
    else crates_for features (resolve_crates spec features)

abbrev asked_features : Bool → List Text → List Text
asked_features no_default_features with_features =
    Set.extend (if no_default_features then [] else chars "default" ∷ []) with_features

-- `none` is the end of the fuel of the resolution, which has enough.
unfoldable pub resolve_add_crates :
    BatteryPackSpec → List Text → Bool → Bool → List Text → Option ResolvedAdd
resolve_add_crates spec with_features no_default_features all_features specific_crates =
    if not (null specific_crates)
    then some (crates [] (for_each (select spec) specific_crates []))
    else if all_features
    then crates_for (chars "all" ∷ []) (resolve_for_features spec every)
    else if not no_default_features && (null with_features && has_meaningful_choices spec)
    then some interactive
    else resolve_features spec (asked_features no_default_features with_features)
