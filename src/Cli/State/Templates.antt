-- ===== src/Cli/State/Templates.antt =====
-- `record_applied_template` and `remove_battery_pack_state_entry`, by what the readers say afterwards.
use battery_pack.Prelude.{
  ◌≡◌, refl, sym, subst, ◌∙◌, ap, inl, inr, Bool-cases, Text, text_eq, text_cmp, any, ok,
}
use battery_pack.Prelude.{Bool, true, false, Option, none, some, List, [], ◌∷◌, ◌++◌, if◌then◌else◌}
use battery_pack.Prelude.Set
use battery_pack.Manifest.Types.{subset}
use battery_pack.Cli.Names.{short_name}
use battery_pack.Cli.State.{
  default_feature_set, normalized_feature_set, Entry, StateFile, active_features, find, upsert,
}
use battery_pack.Cli.State.Files.{Slot, Codec, add_template, minimal_entry, record_applied_template}
use battery_pack.Cli.State.Format.{ReadsBack, AreSets}
use battery_pack.Cli.State.Packs.{
  IsNamed, find-upsert, View, view, upsert-AreSets, Changes, change, change_lem, seen, seen-Changes,
}

-- A pack's templates with one more, if it is not among them.
abbrev pub added : Text → List Text → List Text
added template ts = if any (λ t. text_eq t template) ts then ts else ts ++ template ∷ []

-- A pack with a template recorded; one that was not known has the default features.
abbrev pub with_template : Text → View → View
with_template template (none, deps, ts) =
    (some (subset default_feature_set), some [], template ∷ [])
with_template template (some active, deps, ts) = (some active, deps, added template ts)

active_features-add_template :
    (template : Text) (e : Entry)
    → view (some (add_template template e)) ≡ with_template template (view (some e))
unfolding active_features
active_features-add_template template e =
    elim (Bool-cases (any (λ t. text_eq t template) e.applied_templates)) [
      | inl there ↦ rw there refl
      | inr new ↦ rw new refl
    ]

abbrev templated : Text → Text → StateFile → List Entry
templated bp_name template state =
    upsert (add_template template) (minimal_entry bp_name template) bp_name state.battery_pack

add_template-name : (template : Text) (e : Entry) → (add_template template e).name ≡ e.name
add_template-name template e = ap-if (any (λ t. text_eq t template) e.applied_templates)
  where
    ap-if :
        (b : Bool)
        → (if b
            then e
            else record e { applied_templates = e.applied_templates ++ template ∷ [] }).name
          ≡ e.name
    ap-if true = refl
    ap-if false = refl

add_template-features :
    (template : Text) (e : Entry) → (add_template template e).features ≡ e.features
add_template-features template e = ap-if (any (λ t. text_eq t template) e.applied_templates)
  where
    ap-if :
        (b : Bool)
        → (if b
            then e
            else record e { applied_templates = e.applied_templates ++ template ∷ [] }).features
          ≡ e.features
    ap-if true = refl
    ap-if false = refl

view-new :
    (bp_name template : Text) (v : View)
    → v.0 ≡ none
    → view (some (minimal_entry bp_name template)) ≡ with_template template v
unfolding minimal_entry active_features normalized_feature_set Set.extend text_eq text_cmp
view-new bp_name template (none, deps, ts) e = refl
view-new bp_name template (some a, deps, ts) e = cc e

view-templated :
    (template bp_name : Text) (o : Option Entry)
    → view
        (some (elim o [ none ↦ minimal_entry bp_name template | some e ↦ add_template template e ]))
      ≡ with_template template (view o)
view-templated template bp_name none = view-new bp_name template (view none) refl
view-templated template bp_name (some e) = active_features-add_template template e

find-templated :
    (bp_name template k : Text) (state : StateFile)
    → short_name (short_name bp_name) ≡ short_name bp_name
    → view (find k (templated bp_name template state)) ≡ (
        if text_eq (short_name bp_name) (short_name k)
        then with_template template (view (find bp_name state.battery_pack))
        else view (find k state.battery_pack))
find-templated bp_name template k state short =
    let named : IsNamed bp_name (minimal_entry bp_name template) = unfold minimal_entry in short in
    ap view (
      find-upsert (add_template template) (minimal_entry bp_name template) bp_name k
        state.battery_pack named (λ e n. ap short_name (add_template-name template e) ∙ n))
    ∙ elim (Bool-cases (text_eq (short_name bp_name) (short_name k))) [
      | inl same ↦ rw same (view-templated template bp_name (find bp_name state.battery_pack))
      | inr other ↦ rw other refl
    ]

templated-AreSets :
    (bp_name template : Text) (state : StateFile)
    → AreSets state.battery_pack
    → AreSets (templated bp_name template state)
templated-AreSets bp_name template state sets =
    upsert-AreSets (add_template template) (minimal_entry bp_name template) bp_name
      state.battery_pack (unfold minimal_entry in (tt, tt))
      (λ e h. rw (add_template-features template e) h) sets

module _ (codec : Codec) where
  record-Changes :
      (bp_name template : Text) (slot : Slot)
      → record_applied_template codec bp_name template slot
        ≡ change codec (templated bp_name template) slot
  unfolding record_applied_template
  record-Changes bp_name template slot = refl

  template_written :
      (bp_name template k : Text) (slot slot' : Slot)
      → short_name (short_name bp_name) ≡ short_name bp_name
      → (state : StateFile) × ((i : Text) → seen codec slot i ≡ view (find i state.battery_pack))
        × ((i : Text) → seen codec slot' i ≡ view (find i (templated bp_name template state)))
      → seen codec slot' k ≡ (
          if text_eq (short_name bp_name) (short_name k)
          then with_template template (seen codec slot bp_name)
          else seen codec slot k)
  template_written bp_name template k slot slot' short (state, before, after) =
      after k ∙ find-templated bp_name template k state short ∙ rw (before bp_name, before k) refl

  -- After a template is recorded with success, the readers list it once more for the pack, unless it
  -- was listed, with the features and the managed dependencies as before; a pack that was not known
  -- has the default features, no managed dependency and this template. Of all others they say what
  -- they said before. The text that the crate toml prints is read back by it, and the suffix does not
  -- stand twice at the end of the name.
  pub record_applied_template-seen :
      (bp_name template k : Text) (slot : Slot)
      → ReadsBack codec
      → short_name (short_name bp_name) ≡ short_name bp_name
      → (record_applied_template codec bp_name template slot).0 ≡ ok tt
      → seen codec (record_applied_template codec bp_name template slot).1 k ≡ (
          if text_eq (short_name bp_name) (short_name k)
          then with_template template (seen codec slot bp_name)
          else seen codec slot k)
  record_applied_template-seen bp_name template k slot back short done =
      template_written bp_name template k slot _ short (
        seen-Changes codec (templated bp_name template) slot _ (templated-AreSets bp_name template)
          (subst (λ r. Changes codec (templated bp_name template) slot r)
            (sym (record-Changes bp_name template slot))
            (change_lem codec (templated bp_name template) slot back))
          done)
