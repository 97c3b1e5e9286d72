-- ===== src/Manifest/Example.antt =====
-- A battery pack on which the laws of validation and resolution are instantiated.
use battery_pack.Prelude.{Bool, true, false, Text, chars, List, [], ◌∷◌, none}
use battery_pack.FeatureRef.{FeatureRef, feature, dep_feature}
use battery_pack.Manifest.Types.{BatteryPackSpec, CrateSpec, DepKind}

abbrev pub crate : DepKind → Bool → CrateSpec
crate kind optional = record {
  version = chars "1.0";
  features = [];
  dep_kind = kind;
  optional = optional;
}

-- `default` enables `derive`, which makes `serde` a dependency with its feature `rc`.
abbrev pub features : List (Text × List FeatureRef)
features =
    (chars "default", feature (chars "derive") ∷ [])
    ∷ (chars "derive", dep_feature (chars "serde") (chars "rc") false ∷ [])
    ∷ []

abbrev pub pack : BatteryPackSpec
pack = record {
  name = chars "cli-battery-pack";
  version = chars "0.1.0";
  description = [];
  repository = none;
  keywords = chars "battery-pack" ∷ [];
  crates =
      (chars "cc", crate DepKind.build false)
      ∷ (chars "clap", crate DepKind.normal true)
      ∷ (chars "serde", crate DepKind.normal true)
      ∷ [];
  features = features;
  hidden = chars "c?" ∷ [];
  templates = [];
  categories = [];
  feature_meta = [];
  dep_meta = [];
}

-- The same pack, with a `default` that enables itself.
abbrev pub cyclic : BatteryPackSpec
cyclic = record pack { features = (chars "default", feature (chars "default") ∷ []) ∷ [] }
