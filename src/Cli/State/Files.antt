-- ===== src/Cli/State/Files.antt =====
-- The state file on the disk: what is read from it, and what the writers put there.
use battery_pack.Prelude.{
  or_default, ℕ, ◌+◌, ◌-◌, ◌==◌, ltb, length, Text, chars, text_eq, any, filter, Result, ok, err,
}
use battery_pack.Prelude.{
  Bool, true, false, not, Option, none, some, List, [], ◌∷◌, ◌++◌, if◌then◌else◌, map,
}
use battery_pack.Prelude.Set
use battery_pack.Prelude.Map.{Map}
use battery_pack.Manifest.Types.{CrateSpec, ActiveFeatures, subset}
use battery_pack.Cli.Toml.{Item, Table, inline_table, table, get}
use battery_pack.Cli.Names.{short_name}
use battery_pack.Cli.State.{
  Entry, ManagedDep, StateFile, Stored, active_features, default_feature_set, from_active_features,
  keys, load, state_entry_for, state_format_version, state_name_matches, store, upsert,
}

-- The file on the disk.
pub data Slot : Type 0 where
  absent : Slot
  content : Text → Slot
  unreadable : Slot

-- The crate toml, which prints and parses documents, and what a write that fails leaves in the file's
-- place: `none`, if it succeeds.
pub record Codec : Type 0 where
  pub print : Stored → Option Text
  pub parse : Text → Option Stored
  pub failed_write : Slot → Text → Option Slot

abbrev pub M : Type 0 → Type 0
M A = Slot → Result A Text × Slot

abbrev pub and_then : {A B : Type 0} → Result A Text × Slot → (A → M B) → Result B Text × Slot
and_then (ok a, slot) f = f a slot
and_then (err e, slot) f = (err e, slot)

infixl 5 ◌>>=◌ ◌>>◌
abbrev pub ◌>>=◌ : {A B : Type 0} → M A → (A → M B) → M B
◌>>=◌ m f slot = and_then (m slot) f

abbrev pub ◌>>◌ : {B : Type 0} → M (Unit {0}) → M B → M B
m >> k = m >>= λ _. k

abbrev pub pure : {A : Type 0} → A → M A
pure a slot = (ok a, slot)

abbrev pub guard_version : StateFile → Result StateFile Text
guard_version state =
    if ltb state_format_version state.version then err (chars "unsupported version") else ok state

abbrev pub parsed : Option Stored → Result StateFile Text
parsed none = err (chars "Failed to parse")
parsed (some s) = guard_version (load s)

-- `if !serialized.ends_with('\n') { serialized.push('\n') }`
unfoldable pub with_newline : Text → Text
with_newline [] = 10 ∷ []
with_newline (c ∷ []) = if c == 10 then c ∷ [] else c ∷ 10 ∷ []
with_newline (c ∷ d ∷ s) = c ∷ with_newline (d ∷ s)

abbrev pub entry_in : Text → Result StateFile Text → Option Entry
entry_in bp_name (ok state) = state_entry_for state bp_name
entry_in bp_name (err e) = none

abbrev pub features_of : Option Entry → Option ActiveFeatures
features_of none = none
features_of (some e) = some (active_features e)

abbrev pub dep_names : Option Entry → Option (List Text)
dep_names none = none
dep_names (some e) = some (Set.extend [] (map (λ (d : ManagedDep). d.name) e.managed_deps))

abbrev pub templates_of : Option Entry → List Text
templates_of none = []
templates_of (some e) = e.applied_templates

abbrev pub managed : Map CrateSpec → List ManagedDep
managed [] = []
managed ((name, spec) ∷ crates) = record { name = name; version = spec.version } ∷ managed crates

-- The entry that is written: the templates of the one before are kept.
unfoldable pub updated_entry : StateFile → Text → ActiveFeatures → Map CrateSpec → Entry
unfolding state_entry_for from_active_features short_name
updated_entry state bp_name active crates =
    record (from_active_features (short_name bp_name) active (managed crates)) {
      applied_templates = templates_of (state_entry_for state bp_name);
    }

abbrev pub add_template : Text → Entry → Entry
add_template template e =
    if any (λ t. text_eq t template) e.applied_templates
    then e
    else record e { applied_templates = e.applied_templates ++ template ∷ [] }

unfoldable pub minimal_entry : Text → Text → Entry
unfolding short_name
minimal_entry bp_name template = record {
  name = short_name bp_name;
  all_features = false;
  features = default_feature_set;
  managed_deps = [];
  applied_templates = template ∷ [];
}

abbrev pub without : Text → List Entry → List Entry
without bp_name es = filter (λ (e : Entry). not (state_name_matches e.name bp_name)) es

abbrev pub keys_of : Option Item → List Text
keys_of (some (table t)) = keys t
keys_of (some (inline_table t)) = keys t
keys_of _ = []

-- The dependencies of a manifest, of all kinds.
unfoldable pub present_deps : Table → List Text
unfolding get
present_deps raw =
    Set.extend
      (Set.extend (Set.extend [] (keys_of (get (chars "dependencies") raw)))
        (keys_of (get (chars "dev-dependencies") raw)))
      (keys_of (get (chars "build-dependencies") raw))

abbrev pub kept_deps : List Text → List ManagedDep → List ManagedDep
kept_deps present deps = filter (λ (d : ManagedDep). Set.contains d.name present) deps

abbrev pub pruned_entry : List Text → Entry → Entry
pruned_entry present e = record e { managed_deps = kept_deps present e.managed_deps }

-- `removed += before - after`, over the entries.
abbrev pub removed_from : List Text → List Entry → ℕ
removed_from present [] = 0
removed_from present (e ∷ es) =
    length e.managed_deps - length (kept_deps present e.managed_deps) + removed_from present es

module _ (codec : Codec) where
  unfoldable pub read_slot : Slot → Result StateFile Text
  unfolding load
  read_slot absent = ok (record { version = state_format_version; battery_pack = [] })
  read_slot (content text) = parsed (codec.parse text)
  read_slot unreadable = err (chars "Failed to read")

  abbrev pub read_state_file : M StateFile
  read_state_file slot = (read_slot slot, slot)

  -- After `std::fs::write`.
  abbrev pub write_outcome : Text → Option Slot → Result (Unit {0}) Text × Slot
  write_outcome serialized none = (ok tt, content (with_newline serialized))
  write_outcome serialized (some left) = (err (chars "Failed to write"), left)

  abbrev pub write_text : Option Text → M (Unit {0})
  write_text none slot = (err (chars "Failed to serialize battery-pack state"), slot)
  write_text (some serialized) slot =
      write_outcome serialized (codec.failed_write slot (with_newline serialized))

  unfoldable pub write_state_file : StateFile → M (Unit {0})
  unfolding store with_newline
  write_state_file state slot = write_text (codec.print (store state)) slot

  -- The entry of a pack, if the file can be read: what the three readers look at.
  unfoldable pub read_entry : Slot → Text → Option Entry
  unfolding read_slot state_entry_for
  read_entry slot bp_name = entry_in bp_name (read_slot slot)

  unfoldable pub read_active_features_from_state : Slot → Text → Option ActiveFeatures
  unfolding read_entry active_features
  read_active_features_from_state slot bp_name = features_of (read_entry slot bp_name)

  unfoldable pub read_managed_deps_from_state : Slot → Text → Option (List Text)
  unfolding read_entry
  read_managed_deps_from_state slot bp_name = dep_names (read_entry slot bp_name)

  unfoldable pub read_applied_templates_from_state : Slot → Text → List Text
  unfolding read_entry
  read_applied_templates_from_state slot bp_name = templates_of (read_entry slot bp_name)

  unfoldable pub read_active_features_for_project : Slot → Text → ActiveFeatures
  unfolding read_active_features_from_state
  read_active_features_for_project slot bp_name =
      or_default (subset default_feature_set) (read_active_features_from_state slot bp_name)

  unfoldable pub write_battery_pack_state : Text → ActiveFeatures → Map CrateSpec → M (Unit {0})
  unfolding read_slot write_state_file upsert updated_entry
  write_battery_pack_state bp_name active crates = do
    state ← read_state_file
    let updated = updated_entry state bp_name active crates
    write_state_file
        (record state { battery_pack = upsert (λ e. updated) updated bp_name state.battery_pack })

  unfoldable pub record_applied_template : Text → Text → M (Unit {0})
  unfolding read_slot write_state_file upsert minimal_entry
  record_applied_template bp_name template = do
    state ← read_state_file
    write_state_file (record state {
      battery_pack =
          upsert (add_template template) (minimal_entry bp_name template) bp_name
            state.battery_pack;
    })

  abbrev pub write_fewer : StateFile → List Entry → M Bool
  write_fewer state fewer =
      if length fewer == length state.battery_pack
      then pure false
      else (do write_state_file (record state { battery_pack = fewer }); pure true)

  unfoldable pub remove_battery_pack_state_entry : Text → M Bool
  unfolding read_slot write_state_file state_name_matches
  remove_battery_pack_state_entry bp_name = do
    state ← read_state_file
    write_fewer state (without bp_name state.battery_pack)

  abbrev pub write_pruned : StateFile → List Entry → ℕ → M ℕ
  write_pruned state pruned removed =
      if removed == 0
      then pure 0
      else (do write_state_file (record state { battery_pack = pruned }); pure removed)

  abbrev pub prune_present : List Text → M ℕ
  prune_present present = do
    state ← read_state_file
    write_pruned state (map (pruned_entry present) state.battery_pack)
        (removed_from present state.battery_pack)

  -- `toml::from_str` of Cargo.toml, and what follows.
  abbrev pub prune_parsed : Option Table → M ℕ
  prune_parsed none slot = (err (chars "Failed to parse Cargo.toml"), slot)
  prune_parsed (some raw) slot = prune_present (present_deps raw) slot

  unfoldable pub prune_state_managed_deps_for_manifest : Option Table → M ℕ
  unfolding read_slot write_state_file present_deps
  prune_state_managed_deps_for_manifest manifest absent = (ok 0, absent)
  prune_state_managed_deps_for_manifest manifest (content text) =
      prune_parsed manifest (content text)
  prune_state_managed_deps_for_manifest manifest unreadable = prune_parsed manifest unreadable
