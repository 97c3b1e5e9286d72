-- ===== src/Manifest/Resolve/Tests.antt =====
-- Resolution of an example pack, as instances of its laws.
use battery_pack.Prelude.{
  ◌≡◌, ◌↔◌, ◌⊎◌, refl, Text, chars, text_eq, text_cmp, ends_with, true, false, some, ok, [], ◌∷◌,
}
use battery_pack.Prelude.Map
use battery_pack.Prelude.Map.{Map, contains_key, keys}
use battery_pack.Prelude.Set
use battery_pack.Glob.{glob_match, glob_match_inner}
use battery_pack.FeatureRef.{dep_name}
use battery_pack.Manifest.Types.{CrateSpec, DepKind, every, subset}
use battery_pack.Manifest.Example.{pack, cyclic, crate}
use battery_pack.Manifest.Validate.{
  validate, valid_name, validate_features, check_features, check_refs, reference_resolves, dfs_all,
  dfs_feature, dfs_enter, dfs_refs, dfs_ref, walk_fuel, pop,
}
use battery_pack.Manifest.Validate.Graph.{Leads}
use battery_pack.Manifest.Validate.Exact.{validate_iff}
use battery_pack.Manifest.Resolve.{
  with_extra, merged_entry, add_declared, or_insert_one, or_insert_each, insert_one,
  insert_required, apply_weak, featured, is_normal, is_hidden, add_dep, add_bare, add_ref, add_refs,
  add_feature_crates, expand_fuel, add_default_crates, add_active, add_all_active, activate,
  unconditional, complete, resolve_crates, expanded, add_implicit, resolve_for_features,
}
use battery_pack.Manifest.Resolve.Total.{resolve_for_features-total}
use battery_pack.Manifest.Resolve.Origin.{HasOrigin, resolve_for_features-origin}
use battery_pack.Manifest.Resolve.Selection.{SelectsAny, or_default, IsAlways, resolve_crates-keys}

accepted : validate pack ≡ some (ok tt)
unfolding validate valid_name validate_features check_features check_refs reference_resolves dfs_all
    dfs_feature dfs_enter dfs_refs dfs_ref walk_fuel pop text_eq text_cmp ends_with Map.get
    contains_key keys Set.contains Set.insert dep_name
accepted = refl

pack-acyclic : (n : Text) → ¬ Leads pack n n
pack-acyclic = ((validate_iff pack).0 accepted).acyclic

abbrev serde_rc : CrateSpec
serde_rc = record (crate DepKind.normal true) { features = chars "rc" ∷ [] }

abbrev selected : Map CrateSpec
selected = (chars "serde", serde_rc) ∷ []

resolves : resolve_crates pack [] ≡ some selected
unfolding resolve_crates activate add_all_active add_active add_default_crates add_feature_crates
    expand_fuel add_refs add_ref add_bare add_dep add_declared merged_entry with_extra complete
    apply_weak unconditional is_normal is_hidden featured or_insert_each or_insert_one insert_one
    insert_required glob_match glob_match_inner dep_name text_eq text_cmp Map.get Map.insert
    contains_key keys Set.contains Set.insert Set.remove Set.extend
resolves = refl

resolve_crates-keys_example : (contains_key (chars "serde") selected ≡ true) ↔ (
    SelectsAny pack (or_default pack []) (chars "serde")
      × (contains_key (chars "serde") pack.crates ≡ true)
    ⊎ IsAlways pack (chars "serde"))
resolve_crates-keys_example =
    resolve_crates-keys pack pack-acyclic [] selected resolves (chars "serde")

abbrev all_resolved : Map CrateSpec
all_resolved = (chars "clap", crate DepKind.normal true) ∷ (chars "serde", serde_rc) ∷ []

resolves_all : resolve_for_features pack every ≡ some all_resolved
unfolding resolve_for_features expanded add_implicit resolve_crates activate add_all_active
    add_active add_default_crates add_feature_crates expand_fuel add_refs add_ref add_bare add_dep
    add_declared merged_entry with_extra complete apply_weak unconditional is_normal is_hidden
    featured or_insert_each or_insert_one insert_one insert_required glob_match glob_match_inner
    dep_name text_eq text_cmp Map.get Map.insert Map.retain contains_key keys Set.contains
    Set.insert Set.remove Set.extend
resolves_all = refl

finds : Map.get (chars "serde") all_resolved ≡ some serde_rc
unfolding Map.get text_eq text_cmp
finds = refl

resolve_for_features-origin_example :
    HasOrigin pack (chars "serde") serde_rc × (is_hidden pack (chars "serde") ≡ false)
resolve_for_features-origin_example =
    resolve_for_features-origin pack every all_resolved resolves_all (chars "serde") serde_rc finds

resolve_for_features-total_example :
    (crates : Map CrateSpec) × (resolve_for_features cyclic (subset (chars "default" ∷ []))
      ≡ some crates)
resolve_for_features-total_example =
    resolve_for_features-total cyclic (subset (chars "default" ∷ []))
