-- ===== src/Cli/Merge/Yaml/Maps.antt =====
-- What the merge of two YAML maps has at each key.
use battery_pack.Prelude.{◌≡◌, ◌↔◌}
use battery_pack.Prelude.{Bool, true, Option, none, some, if◌then◌else◌}
use battery_pack.Cli.Merge.Yaml.{
  Yaml, Hash, nil, entry, key_str, is_deep, get, merge_key, merge_yaml_values,
}

module _ (same : Yaml → Yaml → Bool) (same_iff : (a b : Yaml) → (same a b ≡ true) ↔ (a ≡ b)) where
  -- No key occurs twice.
  abbrev pub Distinct : Hash → Type 0
  Distinct nil = Unit
  Distinct (entry k v h) = (get same k h ≡ none) × Distinct h

  -- The project's value wins, but for the keys whose maps are merged.
  abbrev pub combined : Yaml → Option Yaml → Option Yaml → Option Yaml
  combined k none o = o
  combined k (some w) none = some w
  combined k (some w) (some v) =
      if is_deep (key_str k) then some (merge_yaml_values same w v) else some w

  -- What the loop leaves at a key, from the existing value, the template's and the one so far.
  abbrev pub settled : Yaml → Option Yaml → Option Yaml → Option Yaml → Option Yaml
  settled j e none m = m
  settled j e (some v) m = combined j e (some v)

  -- The map after the round for a key.
  abbrev pub round : Hash → Yaml → Yaml → Hash → Hash
  round e k v merged = merge_key same k v (λ w. merge_yaml_values same w v) (get same k e) merged
