-- ===== src/Cli/State/Packs.antt =====
-- What the writers of the state file do to the entries of the packs.
use battery_pack.Prelude.{
  ◌≡◌, refl, ◌∙◌, ap, ◌⊎◌, inl, inr, arith, Bool-cases, Option-cases, Text, text_eq, text_eq_iff,
  Result, ok, err,
}
use battery_pack.Prelude.{
  if-both, Bool, true, false, Option, none, some, List, [], ◌∷◌, if◌then◌else◌, map,
}
use battery_pack.Prelude.Order.{IsAscending}
use battery_pack.Manifest.Types.{ActiveFeatures}
use battery_pack.Cli.Names.{short_name}
use battery_pack.Cli.State.{Entry, StateFile, state_name_matches, find, upsert, store}
use battery_pack.Cli.State.Files.{
  Slot, Codec, with_newline, M, and_then, ◌>>=◌, read_slot, write_text, write_state_file,
  features_of, dep_names, templates_of, read_state_file, read_active_features_from_state,
  read_managed_deps_from_state, read_applied_templates_from_state,
}
use battery_pack.Cli.State.Format.{
  ReadsBack, AreSets, settle, settle_lem, settled, active_features-settle, find-settle,
  IsSoundState, read_slot-IsSoundState, read_slot-write_state_file,
}

-- The entry is of the pack.
abbrev pub IsNamed : Text → Entry → Type 0
IsNamed bp_name e = short_name e.name ≡ short_name bp_name

named_matches :
    (bp_name : Text) (e : Entry) (k : Text)
    → IsNamed bp_name e
    → state_name_matches e.name k ≡ text_eq (short_name bp_name) (short_name k)
unfolding state_name_matches
named_matches bp_name e k named = rw named refl

matches-IsNamed :
    (bp_name : Text) (e : Entry) → state_name_matches e.name bp_name ≡ true → IsNamed bp_name e
unfolding state_name_matches
matches-IsNamed bp_name e here = (text_eq_iff (short_name e.name) (short_name bp_name)).0 here

if_again :
    {A : Type 0} (b : Bool) (x y z : A)
    → (if b then x else z) ≡ (if b then x else (if b then y else z))
if_again true x y z = refl
if_again false x y z = refl

-- An entry of another pack is not the one that is looked for.
later :
    (bp_name k : Text) (e : Entry)
    → state_name_matches e.name bp_name ≡ false
    → (x z : Option Entry)
    → (if state_name_matches e.name k
        then some e
        else (if text_eq (short_name bp_name) (short_name k) then x else z))
      ≡ (if text_eq (short_name bp_name) (short_name k)
          then x
          else (if state_name_matches e.name k then some e else z))
unfolding state_name_matches
later bp_name k e other x z = ground (
  arith,
  text_eq_iff (short_name e.name) (short_name k),
  text_eq_iff (short_name bp_name) (short_name k),
  text_eq_iff (short_name e.name) (short_name bp_name),
)

-- An entry is found by its pack's name, and entries are changed at no other.
pub find-upsert :
    (f : Entry → Entry) (new : Entry) (bp_name k : Text) (es : List Entry)
    → IsNamed bp_name new
    → ((e : Entry) → IsNamed bp_name e → IsNamed bp_name (f e))
    → find k (upsert f new bp_name es) ≡ (
        if text_eq (short_name bp_name) (short_name k)
        then some (elim (find bp_name es) [ none ↦ new | some e ↦ f e ])
        else find k es)
unfolding find upsert
find-upsert f new bp_name k [] named keep = rw (named_matches bp_name new k named) refl
find-upsert f new bp_name k (e ∷ es) named keep =
    elim (Bool-cases (state_name_matches e.name bp_name)) [
      | inl here ↦
          let n = matches-IsNamed bp_name e here in
          rw (here, named_matches bp_name (f e) k (keep e n), named_matches bp_name e k n)
            (if_again (text_eq (short_name bp_name) (short_name k)) _ _ _)
      | inr there ↦ rw there (
          ap (λ (o : Option Entry). if state_name_matches e.name k then some e else o)
            (find-upsert f new bp_name k es named keep)
          ∙ later bp_name k e there _ _)
    ]

-- What the three readers say of a pack: its features, its managed dependencies and its templates.
abbrev pub View : Type 0
View = Option ActiveFeatures × Option (List Text) × List Text

abbrev pub view : Option Entry → View
view o = (features_of o, dep_names o, templates_of o)

-- An entry with a set of features.
abbrev IsSetIn : Option Entry → Type 0
IsSetIn none = Unit
IsSetIn (some e) = IsAscending e.features

AreSets-find : (k : Text) (es : List Entry) → AreSets es → IsSetIn (find k es)
unfolding find
AreSets-find k [] h = tt
AreSets-find k (e ∷ es) h =
    if-both IsSetIn (state_name_matches e.name k) h.0 (AreSets-find k es h.1)

view-settled : (o : Option Entry) → IsSetIn o → view (settled o) ≡ view o
view-settled none h = refl
view-settled (some e) h = rw (active_features-settle e h) (rw (settle_lem e h) refl)

-- A list of entries that was written and read back shows the same of each pack.
pub view-find-settle :
    (k : Text) (es : List Entry) → AreSets es → view (find k (map settle es)) ≡ view (find k es)
view-find-settle k es h = rw (find-settle k es) (view-settled (find k es) (AreSets-find k es h))

pub upsert-AreSets :
    (f : Entry → Entry) (new : Entry) (bp_name : Text) (es : List Entry)
    → IsAscending new.features
    → ((e : Entry) → IsAscending e.features → IsAscending (f e).features)
    → AreSets es
    → AreSets (upsert f new bp_name es)
unfolding upsert
upsert-AreSets f new bp_name [] n keep h = (n, tt)
upsert-AreSets f new bp_name (e ∷ es) n keep h =
    if-both AreSets (state_name_matches e.name bp_name) (keep e h.0, h.1)
      (h.0, upsert-AreSets f new bp_name es n keep h.1)

-- A transaction: the file is read, and written with the entries that `g` leaves.
abbrev pub change : Codec → (StateFile → List Entry) → M (Unit {0})
change codec g = read_state_file codec >>= λ state.
    write_state_file codec (record state { battery_pack = g state })

-- It fails, or the entries are read back as `g` left them.
abbrev pub Changes :
    Codec → (StateFile → List Entry) → Slot → Result (Unit {0}) Text × Slot → Type 0
Changes codec g slot r =
    ((e : Text) × (r.0 ≡ err e))
    ⊎ ((state : StateFile) × (r.0 ≡ ok tt)
        × (read_slot codec slot ≡ ok state)
        × AreSets state.battery_pack
        × (read_slot codec r.1 ≡ ok (record state { battery_pack = map settle (g state) })))

module _ (codec : Codec) where
  pub write_state_file-cases :
      (state : StateFile) (slot : Slot)
      → let r = write_state_file codec state slot in ((e : Text) × (r.0 ≡ err e)) ⊎ (r.0 ≡ ok tt)
  unfolding write_state_file
  write_state_file-cases state slot = of_text (codec.print (store state))
    where
      of_text :
          (o : Option Text)
          → let r = write_text codec o slot in ((e : Text) × (r.0 ≡ err e)) ⊎ (r.0 ≡ ok tt)
      of_text none = inl (_, refl)
      of_text (some t) = elim (Option-cases (codec.failed_write slot (with_newline t))) [
        | inl can ↦ rw can (inr refl)
        | inr (left, cannot) ↦ rw cannot (inl (_, refl))
      ]

  change-Changes :
      (g : StateFile → List Entry) (slot : Slot)
      → ReadsBack codec
      → (o : Result StateFile Text) → read_slot codec slot ≡ o
      → IsSoundState o
      → Changes codec g slot (
          and_then
            (o, slot)
            (λ state. write_state_file codec (record state { battery_pack = g state })))
  change-Changes g slot back (err e) q sound = inl (e, refl)
  change-Changes g slot back (ok state) q sound =
      let state' : StateFile = record state { battery_pack = g state } in
      elim (write_state_file-cases state' slot) [
        | inl failed ↦ inl failed
        | inr done ↦ inr (
          state,
          done,
          q,
          sound.0,
          read_slot-write_state_file codec state' slot back sound.1 done,
        )
      ]

  pub change_lem :
      (g : StateFile → List Entry) (slot : Slot)
      → ReadsBack codec
      → Changes codec g slot (change codec g slot)
  change_lem g slot back =
      change-Changes g slot back (read_slot codec slot) refl (read_slot-IsSoundState codec slot)

  -- What the readers say of a pack.
  abbrev pub seen : Slot → Text → View
  seen slot bp_name = (
    read_active_features_from_state codec slot bp_name,
    read_managed_deps_from_state codec slot bp_name,
    read_applied_templates_from_state codec slot bp_name,
  )

  pub seen-read_slot :
      (slot : Slot) (k : Text) (state : StateFile)
      → read_slot codec slot ≡ ok state
      → seen slot k ≡ view (find k state.battery_pack)
  unfolding read_active_features_from_state read_managed_deps_from_state
      read_applied_templates_from_state
  seen-read_slot slot k state e = rw e refl

  -- What the readers say after a transaction that succeeds.
  pub seen-Changes :
      (g : StateFile → List Entry) (slot : Slot) (r : Result (Unit {0}) Text × Slot)
      → ((state : StateFile) → AreSets state.battery_pack → AreSets (g state))
      → Changes codec g slot r
      → r.0 ≡ ok tt
      → (state : StateFile) × ((k : Text) → seen slot k ≡ view (find k state.battery_pack))
        × ((k : Text) → seen r.1 k ≡ view (find k (g state)))
  seen-Changes g slot r sets (inl failed) done = absurd (cc (failed.1, done))
  seen-Changes g slot r sets (inr (state, q, before, sound, after)) done = (
    state,
    λ k. seen-read_slot slot k state before,
    λ k. seen-read_slot r.1 k _ after ∙ view-find-settle k (g state) (sets state sound),
  )
