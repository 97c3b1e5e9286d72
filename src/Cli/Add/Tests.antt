-- ===== src/Cli/Add/Tests.antt =====
-- The check of a request, at a pack with one at-most-one category.
use battery_pack.Prelude.{◌≡◌, refl, Text, chars, text_eq, text_cmp, sort, join, err}
use battery_pack.Prelude.{none, List, [], ◌∷◌}
use battery_pack.Prelude.Map
use battery_pack.Manifest.Types.{BatteryPackSpec, PickMode}
use battery_pack.Cli.Add.{validate_exclusive_constraints}

abbrev pack : BatteryPackSpec
pack = record {
  name = chars "log-battery-pack";
  version = chars "1.0.0";
  description = [];
  repository = none;
  keywords = [];
  crates = [];
  features = [];
  hidden = [];
  templates = [];
  categories =
      (chars "logger", record { title = none; description = none; pick = PickMode.at_most_one })
      ∷ [];
  feature_meta =
      (chars "env", record { categories = chars "logger" ∷ []; description = none })
      ∷ (chars "trace", record { categories = chars "logger" ∷ []; description = none })
      ∷ [];
  dep_meta = [];
}

abbrev requested : List Text
requested = chars "trace" ∷ chars "env" ∷ []

rejected :
    validate_exclusive_constraints pack requested []
    ≡ err (chars "items 'env' and 'trace' are exclusive (category: logger)")
unfolding validate_exclusive_constraints Map.get Map.insert text_eq text_cmp sort join
rejected = refl
