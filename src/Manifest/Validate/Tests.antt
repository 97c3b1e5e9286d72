-- ===== src/Manifest/Validate/Tests.antt =====
-- Validation of example packs, as instances of its laws.
use battery_pack.Prelude.{
  ◌≡◌, ◌≢◌, ◌↔◌, refl, chars, text_eq, text_cmp, ends_with, join, some, none, ok, err,
}
use battery_pack.Prelude.Map.{get, contains_key, keys}
use battery_pack.Prelude.Set.{contains, insert}
use battery_pack.FeatureRef.{dep_name}
use battery_pack.Manifest.Types.{Error, feature_cycle}
use battery_pack.Manifest.Example.{pack, cyclic}
use battery_pack.Manifest.Validate.{
  validate, valid_name, validate_features, check_features, check_refs, reference_resolves, dfs_all,
  dfs_feature, dfs_enter, dfs_refs, dfs_ref, walk_fuel, pop,
}
use battery_pack.Manifest.Validate.Total.{validate-total}
use battery_pack.Manifest.Validate.Exact.{IsSound, Explains, validate_iff, validate-Explains}

validate_iff_example : (validate pack ≡ some (ok tt)) ↔ IsSound pack
validate_iff_example = validate_iff pack

abbrev cycle : Error
cycle = feature_cycle (chars "default->default")

cyclic-fails : validate cyclic ≡ some (err cycle)
unfolding validate valid_name validate_features check_features check_refs reference_resolves dfs_all
    dfs_feature dfs_enter dfs_refs dfs_ref walk_fuel pop text_eq text_cmp ends_with join get
    contains_key keys contains insert dep_name
cyclic-fails = refl

validate-Explains_example : Explains cyclic cycle
validate-Explains_example = validate-Explains cyclic cycle cyclic-fails

validate-total_example : validate cyclic ≢ none
validate-total_example = validate-total cyclic
