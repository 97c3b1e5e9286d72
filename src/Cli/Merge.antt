-- ===== src/Cli/Merge.antt =====
-- src/battery-pack/bphelper-cli/src/merge.rs, `merge_toml` and what it calls: a template's Cargo.toml
-- merged into the project's. `none` is a panic of the source, on a section that is no table.
pub mod Tables
pub mod Documents
pub mod Yaml
pub mod Apply
mod Tests
use battery_pack.Prelude.{Text, chars, text_eq, any, for_each, Result, ok, err}
use battery_pack.Prelude.{
  Bool, true, false, not, ◌||◌, Option, none, some, List, [], ◌∷◌, if◌then◌else◌, is_some,
}
use battery_pack.Prelude.Set
use battery_pack.Manifest.Types.{CrateSpec, DepKind, normal, dev, build}
use battery_pack.Cli.Toml.{
  Element, Item, Table, string, boolean, array, inline_table, table, other_item, nil, entry, get,
  insert, as_str, as_bool, as_array, strings,
}
use battery_pack.Cli.Deps.{Semver, ensure_section, sync_dep_in_table}

infixl 5 ◌>>=◌
abbrev pub ◌>>=◌ : {A B : Type 0} → Option A → (A → Option B) → Option B
none >>= f = none
some a >>= f = f a

-- `merge_toml_tables`, at a key with a value that is no table: an existing value wins.
abbrev pub add_missing : Text → Item → Table → Table
add_missing k v target = if is_some (get k target) then target else insert k v target

-- At a key with a table: the merge of it into an existing table is at hand.
abbrev pub add_table : Text → Table → (Table → Table) → Option Item → Table → Table
add_table k source merge_into none target = insert k (table source) target
add_table k source merge_into (some (table t)) target = insert k (table (merge_into t)) target
add_table k source merge_into (some other) target = target

unfoldable pub merge_toml_tables : Table → Table → Table
merge_toml_tables target nil = target
merge_toml_tables target (entry k (table s) rest) =
    merge_toml_tables (add_table k s (λ t. merge_toml_tables t s) (get k target) target) rest
merge_toml_tables target (entry k (string v) rest) =
    merge_toml_tables (add_missing k (string v) target) rest
merge_toml_tables target (entry k (boolean v) rest) =
    merge_toml_tables (add_missing k (boolean v) target) rest
merge_toml_tables target (entry k (array v) rest) =
    merge_toml_tables (add_missing k (array v) target) rest
merge_toml_tables target (entry k (inline_table v) rest) =
    merge_toml_tables (add_missing k (inline_table v) target) rest
merge_toml_tables target (entry k (other_item v) rest) =
    merge_toml_tables (add_missing k (other_item v) target) rest

unfoldable pub kind_of_section : Text → DepKind
kind_of_section section =
    if text_eq section (chars "dev-dependencies")
    then dev
    else if text_eq section (chars "build-dependencies")
    then build
    else normal

-- The fields of `{ … }` or of `[name]`.
abbrev pub fields : Item → Table
fields (inline_table t) = t
fields (table t) = t
fields _ = nil

abbrev or_no_text : Option Item → Text
or_no_text (some (string s)) = s
or_no_text _ = []

abbrev or_no_features : Option Item → List Text
or_no_features (some (array es)) = Set.extend [] (strings es)
or_no_features _ = []

abbrev or_not : Option Item → Bool
or_not (some (boolean b)) = b
or_not _ = false

unfoldable pub parse_dep_as_spec : Item → Text → CrateSpec
unfolding kind_of_section
parse_dep_as_spec (string version) section = record {
  version = version;
  features = [];
  dep_kind = kind_of_section section;
  optional = false;
}
parse_dep_as_spec value section = record {
  version = or_no_text (get (chars "version") (fields value));
  features = or_no_features (get (chars "features") (fields value));
  dep_kind = kind_of_section section;
  optional = or_not (get (chars "optional") (fields value));
}

abbrev pub dep_sections : List Text
dep_sections = chars "dependencies" ∷ chars "dev-dependencies" ∷ chars "build-dependencies" ∷ []

module _ (semver : Semver) where
  unfoldable pub sync_each : Text → Table → Table → Table
  sync_each section nil target = target
  sync_each section (entry dep_name dep_value rest) target =
      sync_each section rest
        (sync_dep_in_table semver dep_name (parse_dep_as_spec dep_value section) target).0

  abbrev pub sync_into : Text → Table → Option Item → Table → Option Table
  sync_into section source (some (table target)) doc =
      some (insert section (table (sync_each section source target)) doc)
  sync_into section source _ doc = none

  abbrev pub merge_section_of : Text → Option Item → Table → Option Table
  merge_section_of section (some (table source)) doc =
      let doc' = ensure_section section doc in sync_into section source (get section doc') doc'
  merge_section_of section _ doc = some doc

  -- One round of the loop over the dependency sections.
  unfoldable pub merge_section : Table → Text → Table → Option Table
  unfolding sync_each
  merge_section template section doc = merge_section_of section (get section template) doc

  unfoldable pub merge_sections : Table → List Text → Table → Option Table
  merge_sections template [] doc = some doc
  merge_sections template (section ∷ sections) doc = do
    doc' ← merge_section template section doc
    merge_sections template sections doc'

-- The loop over the other sections, the dependency sections skipped.
unfoldable pub merge_rest : Table → Table → Table
unfolding merge_toml_tables
merge_rest doc nil = doc
merge_rest doc (entry k v rest) =
    merge_rest
      (if any (λ section. text_eq section k) dep_sections
        then doc
        else merge_toml_tables doc (entry k v nil))
      rest

module _ (semver : Semver) where
  unfoldable pub merge_documents : Table → Table → Option Table
  merge_documents doc template = do
    doc' ← merge_sections semver template dep_sections doc
    some (merge_rest doc' template)

  -- The text is read and printed by toml_edit.
  unfoldable pub merge_toml :
      (Text → Option Table) → (Table → Text) → Text → Text → Option (Result Text Text)
  unfolding merge_documents
  merge_toml parse print existing template = elim (parse existing) [
    | none ↦ some (err (chars "failed to parse existing Cargo.toml"))
    | some doc ↦ elim (parse template) [
      | none ↦ some (err (chars "failed to parse template Cargo.toml"))
      | some template_doc ↦ do merged ← merge_documents doc template_doc; some (ok (print merged))
    ]
  ]
