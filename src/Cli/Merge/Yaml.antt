-- ===== src/Cli/Merge/Yaml.antt =====
-- src/battery-pack/bphelper-cli/src/merge.rs, `merge_yaml_values`. The values are those of
-- yaml-rust2; the equality of its keys is a parameter.
pub mod Maps
mod Tests
use battery_pack.Prelude.{Text, chars, text_eq, Result, ok, err}
use battery_pack.FeatureRef.{strip_prefix}
use battery_pack.Prelude.{
  Bool, true, false, ◌||◌, Option, none, some, List, [], ◌∷◌, ◌++◌, if◌then◌else◌,
}

mutual
  pub data Yaml : Type 0 where
    null : Yaml
    bad_value : Yaml
    string : Text → Yaml
    array : Items → Yaml
    hash : Hash → Yaml
    other_scalar : Text → Yaml

  pub data Items : Type 0 where
    end : Items
    item : Yaml → Items → Items

  -- The entries of a map, in the order of insertion.
  pub data Hash : Type 0 where
    nil : Hash
    entry : Yaml → Yaml → Hash → Hash

-- `key.as_str().unwrap_or("")`
abbrev pub key_str : Yaml → Text
key_str (string s) = s
key_str _ = []

abbrev pub is_deep : Text → Bool
is_deep key =
    text_eq key (chars "jobs") || (text_eq key (chars "on") || text_eq key (chars "permissions"))

module _ (same : Yaml → Yaml → Bool) where
  unfoldable pub get : Yaml → Hash → Option Yaml
  get k nil = none
  get k (entry j v h) = if same k j then some v else get k h

  -- The library's `insert` puts an entry with the key at the end.
  unfoldable pub remove : Yaml → Hash → Hash
  remove k nil = nil
  remove k (entry j v h) = let rest = remove k h in if same k j then rest else entry j v rest

  abbrev pub push : Yaml → Yaml → Hash → Hash
  push k v nil = entry k v nil
  push k v (entry j w h) = entry j w (push k v h)

  unfoldable pub insert : Yaml → Yaml → Hash → Hash
  unfolding remove
  insert k v h = push k v (remove k h)

  -- One key of the template, with the merge of its value at hand.
  abbrev pub merge_key : Yaml → Yaml → (Yaml → Yaml) → Option Yaml → Hash → Hash
  merge_key k v merge_into none merged = insert k v merged
  merge_key k v merge_into (some w) merged =
      if is_deep (key_str k) then insert k (merge_into w) merged else merged

  unfoldable mutual
    pub merge_yaml_values : Yaml → Yaml → Yaml
    merge_yaml_values (hash e) (hash t) = hash (merge_entries e t e)
    merge_yaml_values null t = t
    merge_yaml_values bad_value t = t
    merge_yaml_values e t = e

    -- The loop over the template's entries; `e` is the existing map.
    pub merge_entries : Hash → Hash → Hash → Hash
    merge_entries e nil merged = merged
    merge_entries e (entry k v rest) merged =
        merge_entries e rest (merge_key k v (λ w. merge_yaml_values w v) (get k e) merged)

abbrev first : List Yaml → Yaml
first [] = null
first (doc ∷ docs) = doc

-- `out.strip_prefix("---\n").unwrap_or(&out)`
abbrev without_marker : Text → Text
without_marker out = elim (strip_prefix (chars "---" ++ 10 ∷ []) out) [
  | none ↦ out
  | some rest ↦ rest
]

module _ (same : Yaml → Yaml → Bool) where
  -- The documents are read and the first is printed by yaml-rust2.
  unfoldable pub merge_yaml :
      (Text → Option (List Yaml)) → (Yaml → Option Text) → Text → Text → Result Text Text
  unfolding merge_yaml_values strip_prefix
  merge_yaml load dump existing template = elim (load existing) [
    | none ↦ err (chars "failed to parse existing YAML")
    | some existing_docs ↦ elim (load template) [
      | none ↦ err (chars "failed to parse template YAML")
      | some template_docs ↦
          elim (dump (merge_yaml_values same (first existing_docs) (first template_docs))) [
            | none ↦ err (chars "failed to emit merged YAML")
            | some out ↦ ok (without_marker out)
          ]
    ]
  ]
