-- ===== src/Manifest/Check.antt =====
-- src/battery-pack/bphelper-manifest/src/lib.rs, `validate_spec` and `validate_categories`: all the
-- findings about a battery pack, as a report.
pub mod Errors
pub mod Rules
pub mod Agrees
mod Tests
use battery_pack.Prelude.{
  ℕ, ltb, Text, chars, text_eq, join, sort, length, for_each, any, filter, map, String,
}
use battery_pack.Prelude.{
  Bool, true, false, not, ◌&&◌, ◌||◌, Option, none, some, List, [], ◌∷◌, ◌++◌, if◌then◌else◌,
  is_some,
}
use battery_pack.Prelude.Set
use battery_pack.Prelude.Map
use battery_pack.Prelude.Map.{Map, keys, values, contains_key}
use battery_pack.FeatureRef.{FeatureRef, feature, dep, dep_feature, dep_name}
use battery_pack.Manifest.Types.{
  BatteryPackSpec, CrateSpec, ItemMeta, TemplateSpec, CategorySpec, PickMode, any_number,
  at_most_one,
}
use battery_pack.Manifest.Report.{ValidationReport, empty_report, error, warning}
use battery_pack.Manifest.Validate.{valid_name, reference_resolves}

-- `if b { report = f(report) }`
abbrev pub when : Bool → (ValidationReport → ValidationReport) → ValidationReport → ValidationReport
when b f report = if b then f report else report

unfoldable pub quoted : Text → Text
quoted t = chars "'" ++ (t ++ chars "'")

abbrev pub uses_category : Text → List Text → Bool
uses_category category categories = any (λ c. text_eq c category) categories

module _ (spec : BatteryPackSpec) where
  unfoldable pub check_name : ValidationReport → ValidationReport
  check_name = when (not (valid_name spec.name)) (
      error (chars "format.crate.name")
        (chars "name " ++ (quoted spec.name ++ chars " must end in '-battery-pack'")))

  unfoldable pub check_keyword : ValidationReport → ValidationReport
  check_keyword =
      when (not (any (λ k. text_eq k (chars "battery-pack")) spec.keywords))
        (error (chars "format.crate.keyword") (chars "keywords must include 'battery-pack'"))

  unfoldable pub check_repository : ValidationReport → ValidationReport
  check_repository = when (not (is_some spec.repository)) (
      warning (chars "format.crate.repository") (
        chars
          "battery pack should set the `repository` field for linking to examples and templates"))

  unfoldable pub check_ref : Text → FeatureRef → ValidationReport → ValidationReport
  check_ref feature_name fref = when (not (reference_resolves spec fref)) (
      error (chars "format.features.grouping") (
        chars "feature "
        ++ (quoted feature_name ++ (chars " references unknown crate " ++ quoted (dep_name fref)))))

  unfoldable pub check_feature : Text × List FeatureRef → ValidationReport → ValidationReport
  unfolding check_ref
  check_feature (feature_name, refs) report = for_each (check_ref feature_name) refs report

  -- A category that an item of the given kind names must be declared.
  unfoldable pub check_category : String → Text → Text → ValidationReport → ValidationReport
  check_category kind name category = when (not (contains_key category spec.categories)) (
      error (chars "format.categories.defined") (
        chars kind
        ++ (chars " "
            ++ (quoted name ++ (chars " references undefined category " ++ quoted category)))))

  unfoldable pub check_item : String → Text × ItemMeta → ValidationReport → ValidationReport
  unfolding check_category
  check_item kind (name, meta) report = for_each (check_category kind name) meta.categories report

  unfoldable pub check_template : Text × TemplateSpec → ValidationReport → ValidationReport
  unfolding check_category
  check_template (name, template) report =
      for_each (check_category "template" name) template.categories report

  abbrev pub feature_name_of : FeatureRef → List Text
  feature_name_of (feature name) = name ∷ []
  feature_name_of (dep name) = []
  feature_name_of (dep_feature d f weak) = []

  unfoldable pub local_names : List FeatureRef → List Text
  local_names [] = []
  local_names (r ∷ rs) = feature_name_of r ++ local_names rs

  unfoldable pub default_features : List Text
  unfolding local_names
  default_features = elim (Map.get (chars "default") spec.features) [
    | none ↦ []
    | some refs ↦ local_names refs
  ]

  -- The features of the category that are in `default`.
  unfoldable pub in_default : Text → Map ItemMeta → List Text
  in_default category [] = []
  in_default category ((name, meta) ∷ m) =
      let rest = in_default category m in
      if uses_category category meta.categories && Set.contains name default_features
      then name ∷ rest
      else rest

  abbrev pub is_exclusive : PickMode → Bool
  is_exclusive at_most_one = true
  is_exclusive any_number = false

  unfoldable pub check_exclusive : Text × CategorySpec → ValidationReport → ValidationReport
  unfolding in_default default_features
  check_exclusive (category, c) =
      let names = sort (in_default category spec.feature_meta) in
      when (is_exclusive c.pick && ltb 1 (length names)) (
        error (chars "format.features.exclusive-conflict") (
          chars "features "
          ++ (join (chars " and ") (map quoted names)
              ++ (chars " are both in default but belong to at-most-one category "
                  ++ quoted category))))

  abbrev pub is_optional : Option CrateSpec → Bool
  is_optional none = false
  is_optional (some c) = c.optional

  unfoldable pub check_feature_meta : Text → ValidationReport → ValidationReport
  check_feature_meta name =
      when (not (contains_key name spec.features) && not (is_optional (Map.get name spec.crates))) (
        error (chars "format.features.unknown-feature") (
          chars "feature metadata "
          ++ (quoted name ++ chars " does not match any entry in [features]")))

  unfoldable pub check_dep_meta : Text → ValidationReport → ValidationReport
  check_dep_meta name = when (not (contains_key name spec.crates)) (
      error (chars "format.dependencies.unknown-dep")
        (chars "dependency metadata " ++ (quoted name ++ chars " does not match any dependency")))

  unfoldable pub is_referenced : Text → Bool
  is_referenced category =
      any (λ (meta : ItemMeta). uses_category category meta.categories)
        (values spec.feature_meta ++ values spec.dep_meta)
      || any (λ (t : TemplateSpec). uses_category category t.categories) (values spec.templates)

  unfoldable pub check_empty : Text → ValidationReport → ValidationReport
  unfolding is_referenced
  check_empty category = when (not (is_referenced category)) (
      warning (chars "format.categories.empty")
        (chars "category " ++ (quoted category ++ chars " is declared but has no members")))

  unfoldable pub check_title : Text × CategorySpec → ValidationReport → ValidationReport
  check_title (category, c) = when (is_exclusive c.pick && not (is_some c.title)) (
      warning (chars "format.categories.pick-missing-title") (
        chars "at-most-one category "
        ++ (quoted category ++ chars " should have a title for the picker UI")))

  unfoldable pub validate_categories : ValidationReport → ValidationReport
  validate_categories r0 =
      let r1 = for_each (check_item "feature") spec.feature_meta r0 in
      let r2 = for_each (check_item "dependency") spec.dep_meta r1 in
      let r3 = for_each check_template spec.templates r2 in
      let r4 = for_each check_exclusive spec.categories r3 in
      let r5 = for_each check_feature_meta (keys spec.feature_meta) r4 in
      let r6 = for_each check_dep_meta (keys spec.dep_meta) r5 in
      let r7 = for_each check_empty (keys spec.categories) r6 in
      for_each check_title spec.categories r7

  unfoldable pub validate_spec : ValidationReport
  validate_spec = validate_categories (
      for_each check_feature spec.features
        (check_repository (check_keyword (check_name empty_report))))
