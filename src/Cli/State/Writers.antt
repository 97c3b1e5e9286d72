-- ===== src/Cli/State/Writers.antt =====
-- `write_battery_pack_state` and `record_applied_template`, by what the readers say afterwards.
use battery_pack.Prelude.{
  null, ◌≡◌, refl, sym, subst, ◌∙◌, ap, inl, inr, Bool-cases, Text, chars, text_eq, any, ok,
}
use battery_pack.Prelude.{false, Option, none, some, List, [], ◌∷◌, if◌then◌else◌, map}
use battery_pack.Prelude.Set
use battery_pack.Prelude.Map
use battery_pack.Prelude.Map.{Map}
use battery_pack.Prelude.Order.{IsAscending}
use battery_pack.Manifest.Types.{CrateSpec, ActiveFeatures, every, subset}
use battery_pack.Cli.Names.{short_name}
use battery_pack.Cli.State.{
  normalized_feature_set, ManagedDep, Entry, StateFile, active_features, from_active_features, find,
  state_entry_for, upsert,
}
use battery_pack.Cli.State.Files.{
  Slot, Codec, templates_of, managed, updated_entry, read_applied_templates_from_state,
  write_battery_pack_state,
}
use battery_pack.Cli.State.Format.{ReadsBack, AreSets}
use battery_pack.Cli.State.Packs.{
  IsNamed, find-upsert, View, view, upsert-AreSets, Changes, change, change_lem, seen, seen-Changes,
}

-- Features that are read back as they are written: all, or an ascending list that is not empty and in
-- which there is no `all`.
abbrev pub IsRestorable : ActiveFeatures → Type 0
IsRestorable every = Unit
IsRestorable (subset set) =
    IsAscending set × (null set ≡ false) × (any (λ f. text_eq f (chars "all")) set ≡ false)

normalized-IsAscending :
    (set : List Text) → IsAscending set → IsAscending (normalized_feature_set set)
unfolding normalized_feature_set
normalized-IsAscending [] h = (tt, tt)
normalized-IsAscending (x ∷ set) h = h

from_active_features-features :
    (name : Text) (active : ActiveFeatures) (deps : List ManagedDep)
    → IsRestorable active
    → IsAscending (from_active_features name active deps).features
unfolding from_active_features
from_active_features-features name every deps h = tt
from_active_features-features name (subset set) deps h = normalized-IsAscending set h.0

restored :
    (name : Text) (active : ActiveFeatures) (deps : List ManagedDep) (ts : List Text)
    → IsRestorable active
    → active_features (record (from_active_features name active deps) { applied_templates = ts })
      ≡ active
unfolding from_active_features active_features normalized_feature_set
restored name every deps ts h = refl
restored name (subset []) deps ts h = cc (h.1)
restored name (subset (f ∷ fs)) deps ts h = rw (h.2) refl

managed-deps :
    (name : Text) (active : ActiveFeatures) (deps : List ManagedDep)
    → (from_active_features name active deps).managed_deps ≡ deps
unfolding from_active_features
managed-deps name every deps = refl
managed-deps name (subset set) deps = refl

named-deps :
    (crates : Map CrateSpec) → map (λ (d : ManagedDep). d.name) (managed crates) ≡ Map.keys crates
unfolding Map.keys
named-deps [] = refl
named-deps ((name, spec) ∷ crates) = ap (λ (l : List Text). name ∷ l) (named-deps crates)

entry_name :
    (name : Text) (active : ActiveFeatures) (deps : List ManagedDep)
    → (from_active_features name active deps).name ≡ name
unfolding from_active_features
entry_name name every deps = refl
entry_name name (subset set) deps = refl

view-updated_entry :
    (state : StateFile) (bp_name : Text) (active : ActiveFeatures) (crates : Map CrateSpec)
    → IsRestorable active
    → view (some (updated_entry state bp_name active crates)) ≡ (
      some active,
      some (Set.extend [] (Map.keys crates)),
      templates_of (find bp_name state.battery_pack),
    )
unfolding updated_entry state_entry_for
view-updated_entry state bp_name active crates h =
    rw
      (
        restored (short_name bp_name) active (managed crates)
            (templates_of (find bp_name state.battery_pack)) h,
        managed-deps (short_name bp_name) active (managed crates),
        named-deps crates,
      )
      refl

-- The entries after a pack is written.
abbrev with_pack : Text → ActiveFeatures → Map CrateSpec → StateFile → List Entry
with_pack bp_name active crates state =
    upsert (λ e. updated_entry state bp_name active crates)
      (updated_entry state bp_name active crates) bp_name state.battery_pack

same_entry : {A : Type 0} (o : Option A) (a : A) → elim o as (λ x. A) [ none ↦ a | some e ↦ a ] ≡ a
same_entry none a = refl
same_entry (some e) a = refl

find-with_pack :
    (bp_name k : Text) (active : ActiveFeatures) (crates : Map CrateSpec) (state : StateFile)
    → short_name (short_name bp_name) ≡ short_name bp_name
    → find k (with_pack bp_name active crates state) ≡ (
        if text_eq (short_name bp_name) (short_name k)
        then some (updated_entry state bp_name active crates)
        else find k state.battery_pack)
find-with_pack bp_name k active crates state short =
    let named : IsNamed bp_name (updated_entry state bp_name active crates) =
      unfold updated_entry in
      ap short_name (entry_name (short_name bp_name) active (managed crates)) ∙ short in
    find-upsert (λ e. updated_entry state bp_name active crates)
      (updated_entry state bp_name active crates) bp_name k state.battery_pack named (λ e n. named)
    ∙ ap
        (λ (x : Entry).
          if text_eq (short_name bp_name) (short_name k) then some x else find k state.battery_pack)
        (same_entry (find bp_name state.battery_pack) (updated_entry state bp_name active crates))

with_pack-AreSets :
    (bp_name : Text) (active : ActiveFeatures) (crates : Map CrateSpec) (state : StateFile)
    → IsRestorable active
    → AreSets state.battery_pack
    → AreSets (with_pack bp_name active crates state)
with_pack-AreSets bp_name active crates state h sets =
    let set : IsAscending (updated_entry state bp_name active crates).features =
      unfold updated_entry in
      from_active_features-features (short_name bp_name) active (managed crates) h in
    upsert-AreSets (λ e. updated_entry state bp_name active crates)
      (updated_entry state bp_name active crates) bp_name state.battery_pack set (λ e was. set) sets

view-with_pack :
    (bp_name k : Text) (active : ActiveFeatures) (crates : Map CrateSpec) (state : StateFile)
    → short_name (short_name bp_name) ≡ short_name bp_name
    → IsRestorable active
    → view (find k (with_pack bp_name active crates state)) ≡ (
        if text_eq (short_name bp_name) (short_name k)
        then (
          some active,
          some (Set.extend [] (Map.keys crates)),
          templates_of (find bp_name state.battery_pack),
        )
        else view (find k state.battery_pack))
view-with_pack bp_name k active crates state short h =
    rw (find-with_pack bp_name k active crates state short)
      (elim (Bool-cases (text_eq (short_name bp_name) (short_name k))) [
        | inl same ↦ rw same (view-updated_entry state bp_name active crates h)
        | inr other ↦ rw other refl
      ])

module _ (codec : Codec) where
  write-Changes :
      (bp_name : Text) (active : ActiveFeatures) (crates : Map CrateSpec) (slot : Slot)
      → write_battery_pack_state codec bp_name active crates slot
        ≡ change codec (with_pack bp_name active crates) slot
  unfolding write_battery_pack_state
  write-Changes bp_name active crates slot = refl

  pack_written :
      (bp_name k : Text) (active : ActiveFeatures) (crates : Map CrateSpec) (slot slot' : Slot)
      → short_name (short_name bp_name) ≡ short_name bp_name
      → IsRestorable active
      → (state : StateFile) × ((i : Text) → seen codec slot i ≡ view (find i state.battery_pack))
        × ((i : Text) → seen codec slot' i ≡ view (find i (with_pack bp_name active crates state)))
      → seen codec slot' k ≡ (
          if text_eq (short_name bp_name) (short_name k)
          then (
            some active,
            some (Set.extend [] (Map.keys crates)),
            read_applied_templates_from_state codec slot bp_name,
          )
          else seen codec slot k)
  pack_written bp_name k active crates slot slot' short h (state, before, after) =
      after k
      ∙ view-with_pack bp_name k active crates state short h
      ∙ rw (ap (λ (v : View). v.2) (before bp_name), before k) refl

  -- After a pack is written with success, what the readers say of each pack, under either of its
  -- names: of the one that was written, the features, the names of the managed crates, and the
  -- templates that were recorded before; of all others, what they said before. The text that the
  -- crate toml prints is read back by it; the features are all, or an ascending list with no `all`
  -- that is not empty; and the suffix does not stand twice at the end of the name.
  pub write_battery_pack_state-seen :
      (bp_name k : Text) (active : ActiveFeatures) (crates : Map CrateSpec) (slot : Slot)
      → ReadsBack codec
      → short_name (short_name bp_name) ≡ short_name bp_name
      → IsRestorable active
      → (write_battery_pack_state codec bp_name active crates slot).0 ≡ ok tt
      → seen codec (write_battery_pack_state codec bp_name active crates slot).1 k ≡ (
          if text_eq (short_name bp_name) (short_name k)
          then (
            some active,
            some (Set.extend [] (Map.keys crates)),
            read_applied_templates_from_state codec slot bp_name,
          )
          else seen codec slot k)
  write_battery_pack_state-seen bp_name k active crates slot back short h done =
      pack_written bp_name k active crates slot _ short h (
        seen-Changes codec (with_pack bp_name active crates) slot _
          (λ state sets. with_pack-AreSets bp_name active crates state h sets)
          (subst (λ r. Changes codec (with_pack bp_name active crates) slot r)
            (sym (write-Changes bp_name active crates slot))
            (change_lem codec (with_pack bp_name active crates) slot back))
          done)
