-- ===== src/Cli/Merge/Yaml/Tests.antt =====
-- The merge of two YAML maps that share the key `jobs`.
use battery_pack.Prelude.{Text, chars}
use battery_pack.Prelude.{Bool, true, false}
use native.Mathlib.Decide.{ℕ_discrete}
use battery_pack.Cli.Merge.Yaml.{Yaml, string, hash, Hash, nil, entry}

Yaml-discrete : Discrete Yaml
Yaml-discrete = hlevel (ℕ_discrete)

abbrev decided : {P : Type 0} → Dec P → Bool
decided (yes p) = true
decided (no n) = false

same : Yaml → Yaml → Bool
same a b = decided (Yaml-discrete a b)

abbrev jobs : Text → Hash
jobs name =
    entry (string (chars "jobs")) (hash (entry (string name) (string (chars "run")) nil)) nil
