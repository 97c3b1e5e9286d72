-- ===== src/Cli/State/Format.antt =====
-- What is read back from a state file that was written.
use battery_pack.Prelude.{
  or_default, null, ltb, ◌≡◌, refl, ap, inl, inr, Bool-cases, Option-cases, Text, chars, text_eq,
  text_cmp, any, Result, ok, err,
}
use battery_pack.Prelude.{
  Bool, true, false, not, ◌||◌, Option, none, some, List, [], ◌∷◌, if◌then◌else◌, map,
}
use battery_pack.Prelude.Order.{IsAscending, extend-ascending, extend-IsAscending}
use battery_pack.Manifest.Types.{every, subset}
use battery_pack.Cli.State.{
  normalized_feature_set, Entry, StateFile, StoredEntry, Stored, store_entry, load_entry, store,
  load, set_of, unless, active_features, state_name_matches, find, state_format_version,
}
use battery_pack.Cli.State.Files.{
  Slot, absent, content, unreadable, Codec, parsed, with_newline, read_slot, write_text,
  write_state_file,
}

-- The crate toml reads what it printed, with a newline at its end.
abbrev pub ReadsBack : Codec → Type 0
ReadsBack codec =
    (s : Stored) (t : Text) → codec.print s ≡ some t → codec.parse (with_newline t) ≡ some s

-- The sets of features are sets, as they are when they were read.
abbrev pub AreSets : List Entry → Type 0
AreSets [] = Unit
AreSets (e ∷ es) = IsAscending e.features × AreSets es

abbrev pub settle : Entry → Entry
settle e = load_entry (store_entry e)

flag_again : (b : Bool) → or_default false (unless (not b) b) ≡ b
flag_again true = refl
flag_again false = refl

list_again : (ts : List Text) → or_default [] (unless (null ts) ts) ≡ ts
list_again [] = refl
list_again (t ∷ ts) = refl

set_again :
    (fs : List Text) → IsAscending fs → set_of (unless (null fs) fs) ≡ normalized_feature_set fs
unfolding normalized_feature_set
set_again [] h = refl
set_again (f ∷ fs) h = extend-ascending (f ∷ fs) h

-- An entry that is read back differs in an empty set of features alone, which is the default then.
pub settle_lem :
    (e : Entry)
    → IsAscending e.features
    → settle e ≡ record e { features = normalized_feature_set e.features }
unfolding load_entry store_entry
settle_lem e h =
    rw (flag_again e.all_features, list_again e.applied_templates, set_again e.features h) refl

with_set :
    (b : Bool) (fs : List Text)
    → (if b || any (λ f. text_eq f (chars "all")) (normalized_feature_set fs)
        then every
        else subset (normalized_feature_set (normalized_feature_set fs)))
      ≡ (if b || any (λ f. text_eq f (chars "all")) fs
          then every
          else subset (normalized_feature_set fs))
unfolding normalized_feature_set text_eq text_cmp
with_set true [] = refl
with_set false [] = refl
with_set true (f ∷ fs) = refl
with_set false (f ∷ fs) = refl

pub active_features-settle :
    (e : Entry) → IsAscending e.features → active_features (settle e) ≡ active_features e
active_features-settle e h =
    rw (settle_lem e h) (unfold active_features in with_set e.all_features e.features)

abbrev pub settled : Option Entry → Option Entry
settled none = none
settled (some e) = some (settle e)

pub find-settle :
    (bp_name : Text) (es : List Entry) → find bp_name (map settle es) ≡ settled (find bp_name es)
unfolding find load_entry store_entry
find-settle bp_name [] = refl
find-settle bp_name (e ∷ es) = elim (Bool-cases (state_name_matches e.name bp_name)) [
  | inl here ↦ rw here refl
  | inr later ↦ rw later (find-settle bp_name es)
]

-- The sets of a file that is read are sets.
load-AreSets : (es : List StoredEntry) → AreSets (map load_entry es)
unfolding load_entry
load-AreSets [] = tt
load-AreSets (e ∷ es) = (set_of-IsAscending e.features, load-AreSets es)
  where
    set_of-IsAscending : (o : Option (List Text)) → IsAscending (set_of o)
    set_of-IsAscending none = (tt, tt)
    set_of-IsAscending (some fs) = extend-IsAscending [] fs tt

abbrev pub IsSoundState : Result StateFile Text → Type 0
IsSoundState (ok state) =
    AreSets state.battery_pack × (ltb state_format_version state.version ≡ false)
IsSoundState (err e) = Unit

parsed-IsSoundState : (o : Option Stored) → IsSoundState (parsed o)
unfolding load
parsed-IsSoundState none = tt
parsed-IsSoundState (some s) = elim (Bool-cases (ltb state_format_version (load s).version)) [
  | inl newer ↦ rw newer tt
  | inr known ↦ rw known (load-AreSets (or_default [] s.battery_pack), known)
]

map-settle : (es : List Entry) → map load_entry (map store_entry es) ≡ map settle es
map-settle [] = refl
map-settle (e ∷ es) = ap (λ (l : List Entry). settle e ∷ l) (map-settle es)

parsed-store :
    (state : StateFile)
    → ltb state_format_version state.version ≡ false
    → parsed (some (store state))
      ≡ ok (record state { battery_pack = map settle state.battery_pack })
unfolding load store
parsed-store state known = rw (known, map-settle state.battery_pack) refl

module _ (codec : Codec) where
  cannot_write :
      (t : Text) (slot left : Slot)
      → codec.failed_write slot (with_newline t) ≡ some left
      → (write_text codec (some t) slot).0 ≡ err (chars "Failed to write")
  cannot_write t slot left e = rw e refl

  pub read_slot-IsSoundState : (slot : Slot) → IsSoundState (read_slot codec slot)
  unfolding read_slot
  read_slot-IsSoundState absent = (tt, refl)
  read_slot-IsSoundState unreadable = tt
  read_slot-IsSoundState (content t) = parsed-IsSoundState (codec.parse t)

  written :
      (state : StateFile) (slot : Slot)
      → ReadsBack codec
      → ltb state_format_version state.version ≡ false
      → (o : Option Text) → codec.print (store state) ≡ o
      → (write_text codec o slot).0 ≡ ok tt
      → read_slot codec (write_text codec o slot).1
        ≡ ok (record state { battery_pack = map settle state.battery_pack })
  unfolding read_slot
  written state slot back known none e done = cc done
  written state slot back known (some t) e done =
      elim (Option-cases (codec.failed_write slot (with_newline t))) [
        | inr (left, cannot) ↦ absurd (cc (done, cannot_write t slot left cannot))
        | inl can ↦ rw can (rw (back (store state) t e) (parsed-store state known))
      ]

  -- A state that is written is read back, entry by entry.
  pub read_slot-write_state_file :
      (state : StateFile) (slot : Slot)
      → ReadsBack codec
      → ltb state_format_version state.version ≡ false
      → (write_state_file codec state slot).0 ≡ ok tt
      → read_slot codec (write_state_file codec state slot).1
        ≡ ok (record state { battery_pack = map settle state.battery_pack })
  unfolding write_state_file
  read_slot-write_state_file state slot back known done =
      written state slot back known (codec.print (store state)) refl done
