-- ===== src/Cli/Deps/Additive.antt =====
-- What syncing a dependency keeps: the other dependencies, and the features that are there.
use battery_pack.Prelude.{
  null, ◌≡◌, refl, sym, ◌∙◌, ap, inl, inr, arith, Bool-cases, Text, chars, text_eq, text_eq_iff,
  text_cmp, filter,
}
use battery_pack.Prelude.{
  true, false, not, ◌||◌, Option, none, some, List, [], ◌∷◌, ◌++◌, if◌then◌else◌,
}
use battery_pack.Prelude.Set
use battery_pack.Manifest.Types.{CrateSpec}
use battery_pack.Cli.Toml.{
  Item, Table, string, boolean, array, inline_table, table, other_item, get, insert, to_array,
}
use battery_pack.Cli.Toml.Lookup.{get-insert, get-insert_same, strings-to_array}
use battery_pack.Cli.Deps.{
  Semver, detailed, add_dep_to_table, bumps, sync_string, strings_at, bump_at, sync_version,
  existing_features, missing_features, sync_features, sync_fields, sync_existing, sync_dep_in_table,
}

-- The features that an entry asks for.
abbrev pub features_in : Option Item → List Text
features_in (some (inline_table f)) = existing_features f
features_in (some (table f)) = existing_features f
features_in _ = []

-- An entry that is a dependency, or none.
abbrev pub IsDependency : Option Item → Type 0
IsDependency none = Unit
IsDependency (some (string v)) = Unit
IsDependency (some (inline_table f)) = Unit
IsDependency (some (table f)) = Unit
IsDependency _ = ⊥

pub null-nil : {A : Type 0} (xs : List A) → null xs ≡ true → xs ≡ []
null-nil [] e = refl
null-nil (x ∷ xs) e = cc e

pub existing_features-insert :
    (t : Table) (fs : List Text)
    → existing_features (insert (chars "features") (array (to_array fs)) t) ≡ fs
unfolding existing_features
existing_features-insert t fs =
    rw (get-insert_same (chars "features") (array (to_array fs)) t) (strings-to_array fs)

contains-missing :
    (f : Text) (xs ys : List Text)
    → (Set.contains f xs || Set.contains f (filter (λ g. not (Set.contains g xs)) ys))
      ≡ (Set.contains f xs || Set.contains f ys)
unfolding Set.contains
contains-missing f xs [] = refl
contains-missing f xs (y ∷ ys) = elim (Bool-cases (text_eq f y)) [
  | inl same ↦ ground (arith, at_same ((text_eq_iff f y).0 same), contains-missing f xs ys)
  | inr other ↦ ground (arith, contains-missing f xs ys)
]
  where
    at_same : f ≡ y → Set.contains f xs ≡ Set.contains y xs
    at_same e = rw e

module _ (semver : Semver) (spec : CrateSpec) where
  existing-sync_version :
      (t : Table) → existing_features (sync_version semver spec t).0 ≡ existing_features t
  unfolding sync_version existing_features text_eq text_cmp
  existing-sync_version t = by_item (get (chars "version") t)
    where
      by_item :
          (o : Option Item) → existing_features (bump_at semver spec o t).0 ≡ existing_features t
      by_item none = refl
      by_item (some (string v)) = elim (Bool-cases (bumps semver spec v)) [
        | inl up ↦ rw up (
            ap (λ (o : Option Item). strings_at o)
              (get-insert (chars "version") (chars "features") (string spec.version) t))
        | inr keep ↦ rw keep refl
      ]
      by_item (some (boolean b)) = refl
      by_item (some (array es)) = refl
      by_item (some (inline_table f)) = refl
      by_item (some (table f)) = refl
      by_item (some (other_item p)) = refl

  existing-sync_features :
      (t : Table) (f : Text)
      → Set.contains f (existing_features (sync_features spec t).0)
        ≡ (Set.contains f (existing_features t) || Set.contains f spec.features)
  unfolding sync_features
  existing-sync_features t f = elim (Bool-cases (null (missing_features spec t))) [
    | inl none_left ↦
        rw none_left (no_more none_left ∙ contains-missing f (existing_features t) spec.features)
    | inr some_left ↦ rw some_left (
        ap (Set.contains f)
          (existing_features-insert t (existing_features t ++ missing_features spec t))
        ∙ Set.contains-append f (existing_features t) (missing_features spec t)
        ∙ unfold missing_features in contains-missing f (existing_features t) spec.features)
  ]
    where
      no_more :
          null (missing_features spec t) ≡ true
          → Set.contains f (existing_features t) ≡ (
              Set.contains f (existing_features t)
              || Set.contains f
                  (filter (λ g. not (Set.contains g (existing_features t))) spec.features))
      no_more h =
          let none_there : Set.contains f (missing_features spec t) ≡ false =
            ap (Set.contains f) (null-nil _ h) ∙ unfold Set.contains in refl in
          unfold missing_features in ground (arith, none_there)

  -- What syncing does to a table.
  pub record Extends (name : Text) (t t' : Table) : Type 0 where
    pub others : (k : Text) → text_eq k name ≡ false → get k t' ≡ get k t
    pub features :
        (f : Text)
        → Set.contains f (features_in (get name t'))
          ≡ (Set.contains f (features_in (get name t)) || Set.contains f spec.features)

  put-Extends :
      (name : Text) (t : Table) (x : Item)
      → ((f : Text)
          → Set.contains f (features_in (some x))
            ≡ (Set.contains f (features_in (get name t)) || Set.contains f spec.features))
      → Extends name t (insert name x t)
  put-Extends name t x h = record {
    others = λ k other. get-insert name k x t ∙ rw other refl;
    features = λ f.
        ap (λ (o : Option Item). Set.contains f (features_in o)) (get-insert_same name x t) ∙ h f;
  }

  same-Extends : (name : Text) (t : Table) → spec.features ≡ [] → Extends name t t
  unfolding Set.contains
  same-Extends name t e = record {
    others = λ k other. refl;
    features = λ f. none_more f (ap (Set.contains f) e);
  }
    where
      none_more :
          (f : Text)
          → Set.contains f spec.features ≡ Set.contains f []
          → Set.contains f (features_in (get name t))
            ≡ (Set.contains f (features_in (get name t)) || Set.contains f spec.features)
      none_more f q = ground (arith, q)

  add-features :
      (version : Text) (f : Text)
      → Set.contains f (
          features_in (
            some (
              if null spec.features
              then string version
              else detailed (record spec { version = version }))))
        ≡ Set.contains f spec.features
  unfolding get text_eq text_cmp existing_features
  add-features version f = elim (Bool-cases (null spec.features)) [
    | inl plain ↦ rw plain (sym (ap (Set.contains f) (null-nil spec.features plain)))
    | inr more ↦ rw more (ap (Set.contains f) (strings-to_array spec.features))
  ]

  add-Extends :
      (name version : Text) (t : Table)
      → features_in (get name t) ≡ []
      → Extends name t (add_dep_to_table name (record spec { version = version }) t)
  unfolding add_dep_to_table
  add-Extends name version t e =
      put-Extends name t _ (λ f. add-features version f ∙ from_none f (ap (Set.contains f) e))
    where
      from_none :
          (f : Text)
          → Set.contains f (features_in (get name t)) ≡ Set.contains f []
          → Set.contains f spec.features
            ≡ (Set.contains f (features_in (get name t)) || Set.contains f spec.features)
      from_none f q = unfold Set.contains in ground (arith, q)

  fields-features :
      (fields : Table) (f : Text)
      → Set.contains f (existing_features (sync_fields semver spec fields).0)
        ≡ (Set.contains f (existing_features fields) || Set.contains f spec.features)
  unfolding sync_fields
  fields-features fields f =
      existing-sync_features (sync_version semver spec fields).0 f
      ∙ ground (arith, ap (Set.contains f) (existing-sync_version fields))

  string-Extends :
      (name current : Text) (t : Table)
      → get name t ≡ some (string current)
      → Extends name t (sync_string semver name spec current t).0
  unfolding sync_string
  string-Extends name current t e = elim (Bool-cases (null spec.features)) [
    | inl plain ↦ elim (Bool-cases (bumps semver spec current)) [
      | inl up ↦
          rw (plain, up) (put-Extends name t (string spec.version) (λ f. sym (nothing f plain)))
      | inr keep ↦ rw (plain, keep) (same-Extends name t (null-nil spec.features plain))
    ]
    | inr more ↦ rw more (add-Extends name _ t (ap features_in e))
  ]
    where
      nothing :
          (f : Text)
          → null spec.features ≡ true
          → (Set.contains f (features_in (get name t)) || Set.contains f spec.features)
            ≡ Set.contains f []
      nothing f plain =
          unfold Set.contains in
          ground (
            arith,
            ap (λ (o : Option Item). Set.contains f (features_in o)) e,
            ap (Set.contains f) (null-nil spec.features plain),
          )

  existing-Extends :
      (name : Text) (t : Table) (o : Option Item)
      → get name t ≡ o
      → IsDependency o
      → Extends name t (sync_existing semver name spec o t).0
  unfolding sync_existing
  existing-Extends name t none e d = add-Extends name spec.version t (ap features_in e)
  existing-Extends name t (some (string v)) e d = string-Extends name v t e
  existing-Extends name t (some (inline_table fields)) e d = put-Extends name t _ (λ f.
      fields-features fields f
      ∙ ap (λ (o : Option Item). Set.contains f (features_in o) || Set.contains f spec.features)
          (sym e))
  existing-Extends name t (some (table fields)) e d = put-Extends name t _ (λ f.
      fields-features fields f
      ∙ ap (λ (o : Option Item). Set.contains f (features_in o) || Set.contains f spec.features)
          (sym e))
  existing-Extends name t (some (boolean b)) e d = absurd d
  existing-Extends name t (some (array es)) e d = absurd d
  existing-Extends name t (some (other_item p)) e d = absurd d

-- Syncing a dependency leaves all other entries of the table as they are, and the entry then asks for
-- exactly the features that it asked for and those of the specification.
pub sync_dep_in_table-Extends :
    (semver : Semver) (name : Text) (spec : CrateSpec) (t : Table)
    → IsDependency (get name t)
    → Extends semver spec name t (sync_dep_in_table semver name spec t).0
unfolding sync_dep_in_table
sync_dep_in_table-Extends semver name spec t d =
    existing-Extends semver spec name t (get name t) refl d
