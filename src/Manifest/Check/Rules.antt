-- ===== src/Manifest/Check/Rules.antt =====
-- The rules of `validate_spec` whose breach is an error, in the words of the specification.
use battery_pack.Prelude.{
  Twice, mem_iff, contains_key_iff, two_iff, length-sort, ◌≡◌, ◌∈◌, ◌⊎◌, ◌↔◌, refl, ◌∙◌, ap, inl,
  inr, Text, chars, text_eq_iff, length, subst, any, filter, any_iff, not_iff, and_iff, or_iff,
  ends_with_iff, Bool-cases,
}
use battery_pack.Prelude.{Bool, true, ◌&&◌, Option, none, some}
use battery_pack.Prelude.{List, [], ◌∷◌, ◌++◌, suc}
use battery_pack.Prelude.Set
use battery_pack.Prelude.Map
use battery_pack.Prelude.Map.{Map, keys, contains_key}
use battery_pack.FeatureRef.{FeatureRef, feature, dep, dep_feature}
use battery_pack.Manifest.Types.{
  BatteryPackSpec, CrateSpec, ItemMeta, TemplateSpec, CategorySpec, PickMode, at_most_one,
  any_number,
}
use battery_pack.Manifest.Report.{has_errors}
use battery_pack.Manifest.Validate.{valid_name}
use battery_pack.Manifest.Validate.Exact.{Resolves, reference_resolves_iff}
use battery_pack.Manifest.Check.{
  uses_category, local_names, default_features, in_default, is_exclusive, is_optional,
  validate_spec,
}
use battery_pack.Manifest.Check.Errors.{
  dangles, has_dangling, is_undeclared, item_is_undeclared, template_is_undeclared, is_conflicting,
  is_unknown_feature, is_unknown_dep, has_errors-validate_spec,
}

abbrev pub IsPackName : Text → Type 0
IsPackName name =
    (name ≡ chars "battery-pack") ⊎ ((stem : Text) × (name ≡ stem ++ chars "-battery-pack"))

valid_name_iff : (name : Text) → (valid_name name ≡ true) ↔ IsPackName name
unfolding valid_name
valid_name_iff name = or_iff _ _ (text_eq_iff name (chars "battery-pack")) (ends_with_iff _ name)

module _ (spec : BatteryPackSpec) where
  -- Feature `default` lists the local feature, and its metadata names the category.
  abbrev pub IsDefaultMember : Text → Text × ItemMeta → Type 0
  IsDefaultMember category (name, meta) =
      (category ∈ meta.categories)
      × ((refs : List FeatureRef) × (Map.get (chars "default") spec.features ≡ some refs)
          × (feature name ∈ refs))

  -- The rules that are broken.
  abbrev pub BadName : Type 0
  BadName = ¬ IsPackName spec.name

  abbrev pub NoKeyword : Type 0
  NoKeyword = ¬ (chars "battery-pack" ∈ spec.keywords)

  abbrev pub Dangling : Type 0
  Dangling =
      (f : Text × List FeatureRef) × (f ∈ spec.features)
      × ((r : FeatureRef) × (r ∈ f.1) × (¬ Resolves spec r))

  abbrev pub Undeclared : List Text → Type 0
  Undeclared categories = (c : Text) × (c ∈ categories) × (¬ (c ∈ keys spec.categories))

  abbrev pub UndeclaredItem : Map ItemMeta → Type 0
  UndeclaredItem m = (i : Text × ItemMeta) × (i ∈ m) × Undeclared i.1.categories

  abbrev pub UndeclaredTemplate : Type 0
  UndeclaredTemplate = (t : Text × TemplateSpec) × (t ∈ spec.templates) × Undeclared t.1.categories

  abbrev pub Conflicting : Type 0
  Conflicting =
      (c : Text × CategorySpec) × (c ∈ spec.categories)
      × ((c.1.pick ≡ at_most_one) × Twice (IsDefaultMember c.0) spec.feature_meta)

  abbrev pub IsOptional : Text → Type 0
  IsOptional name = (c : CrateSpec) × (Map.get name spec.crates ≡ some c) × (c.optional ≡ true)

  abbrev pub UnknownFeature : Type 0
  UnknownFeature =
      (name : Text) × (name ∈ keys spec.feature_meta)
      × ((¬ (name ∈ keys spec.features)) × (¬ IsOptional name))

  abbrev pub UnknownDep : Type 0
  UnknownDep = (name : Text) × (name ∈ keys spec.dep_meta) × (¬ (name ∈ keys spec.crates))

  abbrev pub BreaksRule : Type 0
  BreaksRule =
      BadName
      ⊎ (NoKeyword
          ⊎ (Dangling
              ⊎ (UndeclaredItem spec.feature_meta
                  ⊎ (UndeclaredItem spec.dep_meta
                      ⊎ (UndeclaredTemplate ⊎ (Conflicting ⊎ (UnknownFeature ⊎ UnknownDep)))))))

  Dangling-iff : (any (has_dangling spec) spec.features ≡ true) ↔ Dangling
  unfolding dangles
  Dangling-iff = any_iff (has_dangling spec) _ of_feature spec.features
    where
      of_feature :
          (f : Text × List FeatureRef)
          → (has_dangling spec f ≡ true) ↔ ((r : FeatureRef) × (r ∈ f.1) × (¬ Resolves spec r))
      of_feature (name, refs) =
          any_iff (dangles spec) _ (λ r. not_iff _ (reference_resolves_iff spec r)) refs

  Undeclared-iff :
      (categories : List Text)
      → (any (is_undeclared spec) categories ≡ true) ↔ Undeclared categories
  Undeclared-iff =
      any_iff (is_undeclared spec) _ (λ c. not_iff _ (contains_key_iff c spec.categories))

  UndeclaredItem-iff :
      (m : Map ItemMeta) → (any (item_is_undeclared spec) m ≡ true) ↔ UndeclaredItem m
  UndeclaredItem-iff = any_iff (item_is_undeclared spec) _ of_item
    where
      of_item :
          (i : Text × ItemMeta) → (item_is_undeclared spec i ≡ true) ↔ Undeclared i.1.categories
      of_item (name, meta) = Undeclared-iff meta.categories

  UndeclaredTemplate-iff :
      (any (template_is_undeclared spec) spec.templates ≡ true) ↔ UndeclaredTemplate
  UndeclaredTemplate-iff = any_iff (template_is_undeclared spec) _ of_template spec.templates
    where
      of_template :
          (t : Text × TemplateSpec)
          → (template_is_undeclared spec t ≡ true) ↔ Undeclared t.1.categories
      of_template (name, template) = Undeclared-iff template.categories

  local_names_iff :
      (name : Text) (refs : List FeatureRef)
      → (name ∈ local_names spec refs) ↔ (feature name ∈ refs)
  unfolding local_names
  local_names_iff name [] = (λ m. absurd m, λ m. absurd m)
  local_names_iff name (feature n ∷ refs) = (
    λ m. elim m [ inl e ↦ inl (ap feature e) | inr l ↦ inr ((local_names_iff name refs).0 l) ],
    λ m. elim m [ inl e ↦ inl (cc e) | inr l ↦ inr ((local_names_iff name refs).1 l) ],
  )
  local_names_iff name (dep n ∷ refs) = (
    λ m. inr ((local_names_iff name refs).0 m),
    λ m. elim m [ inl e ↦ absurd (cc e) | inr l ↦ (local_names_iff name refs).1 l ],
  )
  local_names_iff name (dep_feature n f w ∷ refs) = (
    λ m. inr ((local_names_iff name refs).0 m),
    λ m. elim m [ inl e ↦ absurd (cc e) | inr l ↦ (local_names_iff name refs).1 l ],
  )

  default_features_iff :
      (name : Text)
      → (Set.contains name (default_features spec) ≡ true) ↔ (
          (refs : List FeatureRef) × (Map.get (chars "default") spec.features ≡ some refs)
          × (feature name ∈ refs))
  unfolding default_features
  default_features_iff name = of_default (Map.get (chars "default") spec.features)
    where
      of_default :
          (o : Option (List FeatureRef))
          → (Set.contains name
                (elim o as (λ q. List Text) [ none ↦ [] | some refs ↦ local_names spec refs ])
              ≡ true)
            ↔ ((refs : List FeatureRef) × (o ≡ some refs) × (feature name ∈ refs))
      of_default none = (λ h. absurd (Set.mem-contains name [] h), λ w. cc w.1)
      of_default (some refs) = (
        λ h. (refs, refl, (local_names_iff name refs).0 (Set.mem-contains name _ h)),
        λ w.
            let same : w.0 ≡ refs = cc w.1 in
            Set.contains-mem name _ (
              (local_names_iff name refs).1
                (subst (λ (l : List FeatureRef). feature name ∈ l) same w.2)),
      )

  abbrev is_member : Text → Text × ItemMeta → Bool
  is_member category (name, meta) =
      uses_category category meta.categories && Set.contains name (default_features spec)

  is_member_iff :
      (category : Text) (i : Text × ItemMeta)
      → (is_member category i ≡ true) ↔ IsDefaultMember category i
  is_member_iff category (name, meta) =
      and_iff _ _ (mem_iff category meta.categories) (default_features_iff name)

  length-in_default :
      (category : Text) (m : Map ItemMeta)
      → length (in_default spec category m) ≡ length (filter (is_member category) m)
  unfolding in_default
  length-in_default category [] = refl
  length-in_default category ((name, meta) ∷ m) =
      elim (Bool-cases (is_member category (name, meta))) [
        | inl e ↦ rw e (ap suc (length-in_default category m))
        | inr e ↦ rw e (length-in_default category m)
      ]

  Conflicting-iff : (any (is_conflicting spec) spec.categories ≡ true) ↔ Conflicting
  Conflicting-iff = any_iff (is_conflicting spec) _ of_category spec.categories
    where
      exclusive_iff : (p : PickMode) → (is_exclusive spec p ≡ true) ↔ (p ≡ at_most_one)
      exclusive_iff at_most_one = (λ e. refl, λ e. refl)
      exclusive_iff any_number = (λ e. cc e, λ e. cc e)

      of_category :
          (c : Text × CategorySpec)
          → (is_conflicting spec c ≡ true)
            ↔ ((c.1.pick ≡ at_most_one) × Twice (IsDefaultMember c.0) spec.feature_meta)
      of_category (category, c) =
          rw (length-sort, length-in_default)
            (and_iff _ _ (exclusive_iff c.pick)
              (two_iff (is_member category) _ (is_member_iff category) spec.feature_meta))

  IsOptional-iff :
      (name : Text) → (is_optional spec (Map.get name spec.crates) ≡ true) ↔ IsOptional name
  IsOptional-iff name = of_entry (Map.get name spec.crates)
    where
      of_entry :
          (o : Option CrateSpec)
          → (is_optional spec o ≡ true) ↔ ((c : CrateSpec) × (o ≡ some c) × (c.optional ≡ true))
      of_entry none = (λ e. cc e, λ w. cc w.1)
      of_entry (some c) = (
        λ e. (c, refl, e),
        λ w. let q : c ≡ w.0 = cc w.1 in ap (λ (x : CrateSpec). x.optional) q ∙ w.2,
      )

  -- `validate_spec` reports an error exactly if the name is neither `battery-pack` nor ends in
  -- `-battery-pack`; the keyword `battery-pack` is missing; some feature has a reference whose target
  -- is not declared; the metadata of a feature or a dependency or a template names a category that is
  -- not declared; two entries of the metadata of features are of an at-most-one category and listed by
  -- `default`; a feature with metadata is neither declared nor an optional crate; or a dependency with
  -- metadata is no crate of the pack.
  pub validate_spec_iff : (has_errors (validate_spec spec) ≡ true) ↔ BreaksRule
  validate_spec_iff = rw has_errors-validate_spec (
      or_iff _ _ (not_iff _ (valid_name_iff spec.name)) (
        or_iff _ _ (not_iff _ (mem_iff (chars "battery-pack") spec.keywords)) (
          or_iff _ _ Dangling-iff (
            or_iff _ _ (UndeclaredItem-iff spec.feature_meta) (
              or_iff _ _ (UndeclaredItem-iff spec.dep_meta) (
                or_iff _ _ UndeclaredTemplate-iff (
                  or_iff _ _ Conflicting-iff (
                    or_iff _ _
                      (any_iff (is_unknown_feature spec) _
                        (λ name.
                          and_iff _ _ (not_iff _ (contains_key_iff name spec.features))
                            (not_iff _ (IsOptional-iff name)))
                        (keys spec.feature_meta))
                      (any_iff (is_unknown_dep spec) _
                        (λ name. not_iff _ (contains_key_iff name spec.crates))
                        (keys spec.dep_meta))))))))))
