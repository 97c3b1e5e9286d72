-- ===== src/Manifest/Check/Errors.antt =====
-- Which battery packs `validate_spec` reports an error about, and what `validate` makes of them.
use battery_pack.Prelude.{
  ltb, Text, chars, text_eq, sort, length, for_each, any, ◌≡◌, refl, ◌∙◌, arith,
}
use battery_pack.Prelude.{Bool, true, false, not, ◌&&◌, ◌||◌, List, [], ◌∷◌, is_some, String}
use battery_pack.Prelude.Map
use battery_pack.Prelude.Map.{Map, keys, contains_key}
use battery_pack.FeatureRef.{FeatureRef}
use battery_pack.Manifest.Types.{BatteryPackSpec, ItemMeta, TemplateSpec, CategorySpec}
use battery_pack.Manifest.Report.{
  ValidationReport, has_errors, error, warning, has_errors-error, has_errors-warning,
  has_errors-for_each,
}
use battery_pack.Manifest.Validate.{valid_name, reference_resolves}
use battery_pack.Manifest.Check.{
  is_referenced, when, check_name, check_keyword, check_repository, check_ref, check_feature,
  check_category, check_item, check_template, in_default, is_exclusive, is_optional,
  check_exclusive, check_feature_meta, check_dep_meta, check_empty, check_title,
  validate_categories, validate_spec,
}

pub has_errors-when-error :
    (b : Bool) (rule message : Text) (r : ValidationReport)
    → has_errors (when b (error rule message) r) ≡ (has_errors r || b)
has_errors-when-error true rule message r = ground (arith, has_errors-error rule message r)
has_errors-when-error false rule message r = ground arith

has_errors-when-warning :
    (b : Bool) (rule message : Text) (r : ValidationReport)
    → has_errors (when b (warning rule message) r) ≡ (has_errors r || false)
has_errors-when-warning true rule message r = ground (arith, has_errors-warning rule message r)
has_errors-when-warning false rule message r = ground arith

any-false : {A : Type 0} (xs : List A) → any (λ (a : A). false) xs ≡ false
any-false [] = refl
any-false (x ∷ xs) = any-false xs

module _ (spec : BatteryPackSpec) where
  -- The references of a feature that resolve to nothing.
  unfoldable pub dangles : FeatureRef → Bool
  dangles fref = not (reference_resolves spec fref)

  abbrev pub has_dangling : Text × List FeatureRef → Bool
  has_dangling (name, refs) = any dangles refs

  abbrev pub is_undeclared : Text → Bool
  is_undeclared category = not (contains_key category spec.categories)

  abbrev pub item_is_undeclared : Text × ItemMeta → Bool
  item_is_undeclared (name, meta) = any is_undeclared meta.categories

  abbrev pub template_is_undeclared : Text × TemplateSpec → Bool
  template_is_undeclared (name, template) = any is_undeclared template.categories

  abbrev pub is_conflicting : Text × CategorySpec → Bool
  is_conflicting (category, c) =
      is_exclusive spec c.pick && ltb 1 (length (sort (in_default spec category spec.feature_meta)))

  abbrev pub is_unknown_feature : Text → Bool
  is_unknown_feature name =
      not (contains_key name spec.features) && not (is_optional spec (Map.get name spec.crates))

  abbrev pub is_unknown_dep : Text → Bool
  is_unknown_dep name = not (contains_key name spec.crates)

  -- The tests of the report whose failure is an error, in the order of the source; Rules says what they
  -- mean.
  abbrev pub breaks_rule : Bool
  breaks_rule =
      not (valid_name spec.name)
      || (not (any (λ k. text_eq k (chars "battery-pack")) spec.keywords)
          || (any has_dangling spec.features
              || (any item_is_undeclared spec.feature_meta
                  || (any item_is_undeclared spec.dep_meta
                      || (any template_is_undeclared spec.templates
                          || (any is_conflicting spec.categories
                              || (any is_unknown_feature (keys spec.feature_meta)
                                  || any is_unknown_dep (keys spec.dep_meta))))))))

  has_errors-check_name :
      (r : ValidationReport)
      → has_errors (check_name spec r) ≡ (has_errors r || not (valid_name spec.name))
  unfolding check_name
  has_errors-check_name r = has_errors-when-error (not (valid_name spec.name)) _ _ r

  has_errors-check_keyword :
      (r : ValidationReport)
      → has_errors (check_keyword spec r)
        ≡ (has_errors r || not (any (λ k. text_eq k (chars "battery-pack")) spec.keywords))
  unfolding check_keyword
  has_errors-check_keyword r =
      has_errors-when-error (not (any (λ k. text_eq k (chars "battery-pack")) spec.keywords)) _ _ r

  has_errors-check_repository :
      (r : ValidationReport) → has_errors (check_repository spec r) ≡ (has_errors r || false)
  unfolding check_repository
  has_errors-check_repository r = has_errors-when-warning (not (is_some spec.repository)) _ _ r

  has_errors-check_ref :
      (name : Text) (fref : FeatureRef) (r : ValidationReport)
      → has_errors (check_ref spec name fref r) ≡ (has_errors r || dangles fref)
  unfolding check_ref dangles
  has_errors-check_ref name fref r =
      has_errors-when-error (not (reference_resolves spec fref)) _ _ r

  has_errors-check_feature :
      (f : Text × List FeatureRef) (r : ValidationReport)
      → has_errors (check_feature spec f r) ≡ (has_errors r || has_dangling f)
  unfolding check_feature
  has_errors-check_feature (name, refs) r =
      has_errors-for_each (check_ref spec name) dangles (has_errors-check_ref name) refs r

  has_errors-check_category :
      (kind : String) (name category : Text) (r : ValidationReport)
      → has_errors (check_category spec kind name category r)
        ≡ (has_errors r || is_undeclared category)
  unfolding check_category
  has_errors-check_category kind name category r =
      has_errors-when-error (is_undeclared category) _ _ r

  has_errors-check_item :
      (kind : String) (i : Text × ItemMeta) (r : ValidationReport)
      → has_errors (check_item spec kind i r) ≡ (has_errors r || item_is_undeclared i)
  unfolding check_item
  has_errors-check_item kind (name, meta) r =
      has_errors-for_each (check_category spec kind name) is_undeclared
        (has_errors-check_category kind name) meta.categories r

  has_errors-check_template :
      (t : Text × TemplateSpec) (r : ValidationReport)
      → has_errors (check_template spec t r) ≡ (has_errors r || template_is_undeclared t)
  unfolding check_template
  has_errors-check_template (name, template) r =
      has_errors-for_each (check_category spec "template" name) is_undeclared
        (has_errors-check_category "template" name) template.categories r

  has_errors-check_exclusive :
      (c : Text × CategorySpec) (r : ValidationReport)
      → has_errors (check_exclusive spec c r) ≡ (has_errors r || is_conflicting c)
  unfolding check_exclusive
  has_errors-check_exclusive (category, c) r =
      has_errors-when-error (is_conflicting (category, c)) _ _ r

  has_errors-check_feature_meta :
      (name : Text) (r : ValidationReport)
      → has_errors (check_feature_meta spec name r) ≡ (has_errors r || is_unknown_feature name)
  unfolding check_feature_meta
  has_errors-check_feature_meta name r = has_errors-when-error (is_unknown_feature name) _ _ r

  has_errors-check_dep_meta :
      (name : Text) (r : ValidationReport)
      → has_errors (check_dep_meta spec name r) ≡ (has_errors r || is_unknown_dep name)
  unfolding check_dep_meta
  has_errors-check_dep_meta name r = has_errors-when-error (is_unknown_dep name) _ _ r

  has_errors-check_empty :
      (name : Text) (r : ValidationReport)
      → has_errors (check_empty spec name r) ≡ (has_errors r || false)
  unfolding check_empty
  has_errors-check_empty name r = has_errors-when-warning (not (is_referenced spec name)) _ _ r

  has_errors-check_title :
      (c : Text × CategorySpec) (r : ValidationReport)
      → has_errors (check_title spec c r) ≡ (has_errors r || false)
  unfolding check_title
  has_errors-check_title (category, c) r =
      has_errors-when-warning (is_exclusive spec c.pick && not (is_some c.title)) _ _ r

  silent :
      {A : Type 0} (step : A → ValidationReport → ValidationReport)
      → ((a : A) (r : ValidationReport) → has_errors (step a r) ≡ (has_errors r || false))
      → (xs : List A) (r : ValidationReport) → has_errors (for_each step xs r) ≡ has_errors r
  silent step h xs r = has_errors-for_each step (λ a. false) h xs r ∙ ground (arith, any-false xs)

  has_errors-validate_categories :
      (r : ValidationReport)
      → has_errors (validate_categories spec r) ≡ (
          has_errors r
          || (any item_is_undeclared spec.feature_meta
              || (any item_is_undeclared spec.dep_meta
                  || (any template_is_undeclared spec.templates
                      || (any is_conflicting spec.categories
                          || (any is_unknown_feature (keys spec.feature_meta)
                              || any is_unknown_dep (keys spec.dep_meta)))))))
  unfolding validate_categories
  has_errors-validate_categories r =
      rw
        (
          silent (check_title spec) has_errors-check_title spec.categories,
          silent (check_empty spec) has_errors-check_empty (keys spec.categories),
          has_errors-for_each (check_dep_meta spec) is_unknown_dep has_errors-check_dep_meta
              (keys spec.dep_meta),
          has_errors-for_each (check_feature_meta spec) is_unknown_feature
              has_errors-check_feature_meta (keys spec.feature_meta),
          has_errors-for_each (check_exclusive spec) is_conflicting has_errors-check_exclusive
              spec.categories,
          has_errors-for_each (check_template spec) template_is_undeclared has_errors-check_template
              spec.templates,
          has_errors-for_each (check_item spec "dependency") item_is_undeclared
              (has_errors-check_item "dependency") spec.dep_meta,
          has_errors-for_each (check_item spec "feature") item_is_undeclared
              (has_errors-check_item "feature") spec.feature_meta,
        )
        (ground arith)

  pub has_errors-validate_spec : has_errors (validate_spec spec) ≡ breaks_rule
  unfolding validate_spec has_errors
  has_errors-validate_spec =
      rw
        (
          has_errors-validate_categories,
          has_errors-for_each (check_feature spec) has_dangling has_errors-check_feature
              spec.features,
          has_errors-check_repository,
          has_errors-check_keyword,
          has_errors-check_name,
        )
        (ground arith)
