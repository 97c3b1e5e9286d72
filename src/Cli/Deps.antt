-- ===== src/Cli/Deps.antt =====
-- src/battery-pack/bphelper-cli/src/manifest.rs: writing, updating and removing dependencies in a
-- Cargo.toml. Versions are compared by the crate semver, a parameter.
pub mod Additive
pub mod Idempotent
pub mod Sections
mod Tests
use battery_pack.Prelude.{null, ℕ, zero, suc, ◌+◌, Text, chars, text_eq, for_each, any, filter}
use battery_pack.Prelude.{
  Bool, true, false, not, ◌&&◌, ◌||◌, Option, none, some, List, [], ◌∷◌, ◌++◌, if◌then◌else◌,
  is_some,
}
use battery_pack.Prelude.Set
use battery_pack.Prelude.Map.{Map}
use battery_pack.Manifest.Types.{CrateSpec, DepKind, normal, dev, build}
use battery_pack.Cli.Toml.{
  Item, Table, string, boolean, array, inline_table, table, other_item, nil, entry, get, insert,
  remove, as_table, as_array, strings, to_array,
}

-- `semver::Version`, its `parse` and its `>`.
pub record Semver : Type 1 where
  pub Version : Type 0
  pub parse : Text → Option Version
  pub greater : Version → Version → Bool

unfoldable pub dep_kind_section : DepKind → Text
dep_kind_section normal = chars "dependencies"
dep_kind_section dev = chars "dev-dependencies"
dep_kind_section build = chars "build-dependencies"

-- `{ version = "…", features = […] }`
abbrev pub detailed : CrateSpec → Item
detailed spec = inline_table (
    entry (chars "version") (string spec.version)
      (entry (chars "features") (array (to_array spec.features)) nil))

unfoldable pub add_dep_to_table : Text → CrateSpec → Table → Table
add_dep_to_table name spec t =
    insert name (if null spec.features then string spec.version else detailed spec) t

-- `doc[section].or_insert(Table)`
unfoldable pub ensure_section : Text → Table → Table
ensure_section section doc =
    if is_some (get section doc) then doc else insert section (table nil) doc

-- A document, and how many of its entries were changed.
pub record Written : Type 0 where
  pub doc : Table
  pub count : ℕ

abbrev pub put_in :
    (Text → CrateSpec → Table → Table)
    → Bool
    → Text
    → CrateSpec
    → Text
    → Option Item
    → Written
    → Written
put_in write if_missing name spec section (some (table t)) w =
    if not if_missing || not (is_some (get name t))
    then record { doc = insert section (table (write name spec t)) w.doc; count = w.count + 1 }
    else w
put_in write if_missing name spec section _ w = w

-- One round of the loop over the crates.
unfoldable pub write_one :
    (Text → CrateSpec → Table → Table) → Bool → Text × CrateSpec → Written → Written
unfolding ensure_section dep_kind_section
write_one write if_missing (name, spec) w =
    let section = dep_kind_section spec.dep_kind in
    let doc = ensure_section section w.doc in
    put_in write if_missing name spec section (get section doc) (record w { doc = doc })

unfoldable pub write_deps_by_kind : Table → Map CrateSpec → Bool → Written
unfolding write_one add_dep_to_table
write_deps_by_kind doc crates if_missing =
    for_each (write_one add_dep_to_table if_missing) crates (record { doc = doc; count = 0 })

-- `{ workspace = true }`
unfoldable pub add_workspace_ref : Text → CrateSpec → Table → Table
add_workspace_ref name spec t =
    insert name (inline_table (entry (chars "workspace") (boolean true) nil)) t

unfoldable pub write_workspace_refs_by_kind : Table → Map CrateSpec → Bool → Written
unfolding write_one add_workspace_ref
write_workspace_refs_by_kind doc crates if_missing =
    for_each (write_one add_workspace_ref if_missing) crates (record { doc = doc; count = 0 })

abbrev pub take_from : Text → Text → Option Item → Written → Written
take_from name section (some (table t)) w =
    if is_some (get name t)
    then record { doc = insert section (table (remove name t)) w.doc; count = w.count + 1 }
    else w
take_from name section _ w = w

unfoldable pub remove_one : Text × CrateSpec → Written → Written
unfolding dep_kind_section
remove_one (name, spec) w =
    let section = dep_kind_section spec.dep_kind in take_from name section (get section w.doc) w

unfoldable pub remove_deps_by_kind : Table → Map CrateSpec → Written
unfolding remove_one
remove_deps_by_kind doc crates = for_each remove_one crates (record { doc = doc; count = 0 })

-- A table, and whether it was changed.
abbrev pub Synced : Type 0
Synced = Table × Bool

abbrev pub strings_at : Option Item → List Text
strings_at (some (array es)) = strings es
strings_at _ = []

unfoldable pub existing_features : Table → List Text
existing_features t = strings_at (get (chars "features") t)

-- The features that the specification adds.
unfoldable pub missing_features : CrateSpec → Table → List Text
missing_features spec t =
    filter (λ feat. not (Set.contains feat (existing_features t))) spec.features

unfoldable pub sync_features : CrateSpec → Table → Synced
sync_features spec t = if null (missing_features spec t) then (t, false) else (
  insert (chars "features") (array (to_array (existing_features t ++ missing_features spec t))) t,
  true,
)

module _ (semver : Semver) where
  abbrev or_parse : Option semver.Version → Text → Option semver.Version
  or_parse none version = semver.parse version
  or_parse (some v) version = some v

  -- A version with its minor and patch numbers left out parses too.
  unfoldable pub parse_lenient : Text → Option semver.Version
  parse_lenient version =
      or_parse (or_parse (semver.parse version) (version ++ chars ".0")) (version ++ chars ".0.0")

  abbrev pub upgrade_or : Option semver.Version → Option semver.Version → Bool → Bool
  upgrade_or (some cur) (some rec) otherwise = semver.greater rec cur
  upgrade_or (some cur) none otherwise = otherwise
  upgrade_or none rec otherwise = otherwise

  unfoldable pub should_upgrade_version : Text → Text → Bool
  unfolding parse_lenient
  should_upgrade_version current recommended =
      upgrade_or (parse_lenient current) (parse_lenient recommended)
        (not (text_eq current recommended))

  -- The test that the branches share.
  unfoldable pub bumps : CrateSpec → Text → Bool
  unfolding should_upgrade_version
  bumps spec current = not (null spec.version) && should_upgrade_version current spec.version

  -- `name = "version"`
  unfoldable pub sync_string : Text → CrateSpec → Text → Table → Synced
  sync_string name spec current t =
      if null spec.features
      then (if bumps spec current then (insert name (string spec.version) t, true) else (t, false))
      else (
        add_dep_to_table name
            (record spec { version = if bumps spec current then spec.version else current }) t,
        true,
      )

  abbrev pub bump_at : CrateSpec → Option Item → Table → Synced
  bump_at spec (some (string v)) t =
      if bumps spec v then (insert (chars "version") (string spec.version) t, true) else (t, false)
  bump_at spec _ t = (t, false)

  -- The version of `{ version = …, features = … }` or of `[name]`.
  unfoldable pub sync_version : CrateSpec → Table → Synced
  sync_version spec t = bump_at spec (get (chars "version") t) t

  unfoldable pub sync_fields : CrateSpec → Table → Synced
  unfolding sync_version sync_features
  sync_fields spec t =
      let (bumped, b) = sync_version spec t in
      let (extended, e) = sync_features spec bumped in (extended, b || e)

  -- The entry's own table is changed in its place.
  unfoldable pub sync_existing : Text → CrateSpec → Option Item → Table → Synced
  unfolding sync_string sync_fields
  sync_existing name spec none t = (add_dep_to_table name spec t, true)
  sync_existing name spec (some (string current)) t = sync_string name spec current t
  sync_existing name spec (some (inline_table fields)) t =
      let (fields', changed) = sync_fields spec fields in
      (insert name (inline_table fields') t, changed)
  sync_existing name spec (some (table fields)) t =
      let (fields', changed) = sync_fields spec fields in (insert name (table fields') t, changed)
  sync_existing name spec (some (boolean b)) t = (t, false)
  sync_existing name spec (some (array es)) t = (t, false)
  sync_existing name spec (some (other_item printed)) t = (t, false)

  unfoldable pub sync_dep_in_table : Text → CrateSpec → Table → Synced
  unfolding sync_existing
  sync_dep_in_table name spec t = sync_existing name spec (get name t) t
