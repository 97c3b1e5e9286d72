-- ===== src/Cli/State/Newer.antt =====
-- A state file of a newer format is refused, and it is left as it is.
use battery_pack.Prelude.{ℕ, ltb, ◌≡◌, refl, Text, chars, err}
use battery_pack.Prelude.{true, none, some, []}
use battery_pack.Prelude.Map.{Map}
use battery_pack.Manifest.Types.{CrateSpec, ActiveFeatures}
use battery_pack.Cli.Toml.{Table}
use battery_pack.Cli.State.{Stored, load}
use battery_pack.Cli.State.Files.{
  content, Codec, read_slot, read_active_features_from_state, read_managed_deps_from_state,
  read_applied_templates_from_state, write_battery_pack_state, record_applied_template,
  remove_battery_pack_state_entry, prune_state_managed_deps_for_manifest,
}
use battery_pack.Cli.State.Packs.{seen}

module _ (codec : Codec) (text : Text) (s : Stored) (v : ℕ) where
  refused :
      codec.parse text ≡ some s
      → s.version ≡ some v
      → ltb 2 v ≡ true
      → read_slot codec (content text) ≡ err (chars "unsupported version")
  unfolding read_slot load
  refused e version newer = rw e (rw version (rw newer refl))

  -- If the state file has a version above 2, the readers say nothing of any pack, and the writers of
  -- features, templates and managed dependencies and the removal of a pack fail and change nothing;
  -- so does pruning, if the manifest can be read.
  pub newer-refused :
      (bp_name template : Text) (active : ActiveFeatures) (crates : Map CrateSpec) (raw : Table)
      → codec.parse text ≡ some s
      → s.version ≡ some v
      → ltb 2 v ≡ true
      → (seen codec (content text) bp_name ≡ (none, none, []))
        × (write_battery_pack_state codec bp_name active crates (content text)
            ≡ (err (chars "unsupported version"), content text))
        × (record_applied_template codec bp_name template (content text)
            ≡ (err (chars "unsupported version"), content text))
        × (remove_battery_pack_state_entry codec bp_name (content text)
            ≡ (err (chars "unsupported version"), content text))
        × (prune_state_managed_deps_for_manifest codec (some raw) (content text)
            ≡ (err (chars "unsupported version"), content text))
  unfolding read_active_features_from_state read_managed_deps_from_state
      read_applied_templates_from_state write_battery_pack_state record_applied_template
      remove_battery_pack_state_entry prune_state_managed_deps_for_manifest
  newer-refused bp_name template active crates raw e version newer =
      let r = refused e version newer in (rw r refl, rw r refl, rw r refl, rw r refl, rw r refl)
