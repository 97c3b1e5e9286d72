-- ===== src/Manifest/Merge/Tests.antt =====
-- Merges of two packs that share a crate, as instances of the laws.
use battery_pack.Prelude.{
  ◌≡◌, refl, true, false, Text, chars, List, [], ◌∷◌, some, text_eq, text_cmp,
}
use battery_pack.Prelude.Map
use battery_pack.Prelude.Map.{Map}
use battery_pack.Prelude.Set
use battery_pack.Manifest.Types.{CrateSpec, DepKind}
use battery_pack.Manifest.Merge.{
  MergedCrateSpec, merge_crate_specs, merge_dep_kinds, compare_versions, merge_one, first_entry,
  merge_into, compare_part, compare_parts, max_len, split, parse_u64, digits,
}
use battery_pack.Manifest.Merge.Summary.{
  entries, summary, Merges, get-merge_crate_specs, merge_crate_specs-Merges,
}

abbrev serde : Text
serde = chars "serde"

abbrev serde_dev : CrateSpec
serde_dev = record {
  version = chars "1.0";
  features = chars "derive" ∷ [];
  dep_kind = DepKind.dev;
  optional = true;
}

abbrev serde_build : CrateSpec
serde_build = record {
  version = chars "1.10";
  features = chars "rc" ∷ [];
  dep_kind = DepKind.build;
  optional = false;
}

abbrev packs : List (Map CrateSpec)
packs = ((serde, serde_dev) ∷ []) ∷ ((serde, serde_build) ∷ []) ∷ []

abbrev merged : MergedCrateSpec
merged = record {
  version = chars "1.10";
  features = chars "derive" ∷ chars "rc" ∷ [];
  dep_kinds = DepKind.dev ∷ DepKind.build ∷ [];
  optional = false;
}

merges : Map.get serde (merge_crate_specs packs) ≡ some merged
unfolding merge_crate_specs merge_one first_entry merge_into compare_versions compare_part
    compare_parts max_len split parse_u64 digits merge_dep_kinds Map.get Map.insert Set.extend
    Set.insert text_eq text_cmp
merges = refl

merge_crate_specs-Merges_example : Merges (entries serde packs) merged
merge_crate_specs-Merges_example = merge_crate_specs-Merges serde packs merged merges

get-merge_crate_specs_example :
    Map.get serde (merge_crate_specs packs) ≡ summary (entries serde packs)
get-merge_crate_specs_example = get-merge_crate_specs serde packs
