-- ===== src/Cli/State.antt =====
-- src/battery-pack/bphelper-cli/src/manifest.rs: the state file battery-pack.toml, with the active
-- features, the managed dependencies and the applied templates of each pack.
pub mod Files
pub mod Format
pub mod Packs
pub mod Writers
pub mod Present
pub mod Prune
pub mod Templates
pub mod Removal
pub mod Newer
mod Tests
use battery_pack.Prelude.{
  or_default, null, ℕ, ◌+◌, ◌-◌, ◌==◌, ltb, length, Text, chars, text_eq, any, filter, Result, ok,
  err,
}
use battery_pack.Prelude.{
  Bool, true, false, not, ◌||◌, Option, none, some, List, [], ◌∷◌, ◌++◌, if◌then◌else◌, is_some,
  map,
}
use battery_pack.Prelude.Set
use battery_pack.Prelude.Map.{Map}
use battery_pack.Manifest.Types.{CrateSpec, ActiveFeatures, every, subset}
use battery_pack.Cli.Toml.{Item, Table, inline_table, table, nil, entry, get}
use battery_pack.Cli.Names.{short_name}

abbrev pub default_feature_set : List Text
default_feature_set = chars "default" ∷ []

abbrev pub state_format_version : ℕ
state_format_version = 2

unfoldable pub normalized_feature_set : List Text → List Text
normalized_feature_set features = if null features then default_feature_set else features

pub record ManagedDep : Type 0 where
  pub name : Text
  pub version : Text

pub record Entry : Type 0 where
  pub name : Text
  pub all_features : Bool
  pub features : List Text
  pub managed_deps : List ManagedDep
  pub applied_templates : List Text

pub record StateFile : Type 0 where
  pub version : ℕ
  pub battery_pack : List Entry

-- The document that the attributes of serde stand for: a key that is left out is `none`.
pub record StoredEntry : Type 0 where
  pub name : Text
  pub all_features : Option Bool
  pub features : Option (List Text)
  pub managed_deps : Option (List ManagedDep)
  pub applied_templates : Option (List Text)

pub record Stored : Type 0 where
  pub version : Option ℕ
  pub battery_pack : Option (List StoredEntry)

abbrev pub keys : Table → List Text
keys nil = []
keys (entry k v t) = k ∷ keys t

abbrev pub unless {ℓ} : {A : Type ℓ} → Bool → A → Option A
unless skip a = if skip then none else some a

unfoldable pub store_entry : Entry → StoredEntry
store_entry e = record {
  name = e.name;
  all_features = unless (not e.all_features) e.all_features;
  features = unless (null e.features) e.features;
  managed_deps = some e.managed_deps;
  applied_templates = unless (null e.applied_templates) e.applied_templates;
}

abbrev pub set_of : Option (List Text) → List Text
set_of none = default_feature_set
set_of (some features) = Set.extend [] features

unfoldable pub load_entry : StoredEntry → Entry
load_entry e = record {
  name = e.name;
  all_features = or_default false e.all_features;
  features = set_of e.features;
  managed_deps = or_default [] e.managed_deps;
  applied_templates = or_default [] e.applied_templates;
}

unfoldable pub store : StateFile → Stored
unfolding store_entry
store state = record {
  version = some state.version;
  battery_pack = some (map store_entry state.battery_pack);
}

unfoldable pub load : Stored → StateFile
unfolding load_entry
load s = record {
  version = or_default state_format_version s.version;
  battery_pack = map load_entry (or_default [] s.battery_pack);
}

unfoldable pub active_features : Entry → ActiveFeatures
unfolding normalized_feature_set
active_features e =
    if e.all_features || any (λ f. text_eq f (chars "all")) e.features
    then every
    else subset (normalized_feature_set e.features)

unfoldable pub from_active_features : Text → ActiveFeatures → List ManagedDep → Entry
unfolding normalized_feature_set
from_active_features name every deps = record {
  name = name;
  all_features = true;
  features = [];
  managed_deps = deps;
  applied_templates = [];
}
from_active_features name (subset set) deps = record {
  name = name;
  all_features = false;
  features = normalized_feature_set set;
  managed_deps = deps;
  applied_templates = [];
}

unfoldable pub state_name_matches : Text → Text → Bool
unfolding short_name
state_name_matches name bp_name = text_eq (short_name name) (short_name bp_name)

-- `iter().find`
unfoldable pub find : Text → List Entry → Option Entry
find bp_name [] = none
find bp_name (e ∷ es) = if state_name_matches e.name bp_name then some e else find bp_name es

unfoldable pub state_entry_for : StateFile → Text → Option Entry
unfolding find state_name_matches
state_entry_for state bp_name = find bp_name state.battery_pack

-- `iter_mut().find`, changed by `f`, else `push`.
unfoldable pub upsert : (Entry → Entry) → Entry → Text → List Entry → List Entry
upsert f new bp_name [] = new ∷ []
upsert f new bp_name (e ∷ es) =
    let rest = upsert f new bp_name es in
    if state_name_matches e.name bp_name then f e ∷ es else e ∷ rest
