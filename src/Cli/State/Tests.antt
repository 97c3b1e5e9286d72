-- ===== src/Cli/State/Tests.antt =====
-- The laws at a small state file, of one pack.
use battery_pack.Prelude.{◌≡◌, refl, ap, Text, chars, text_eq, text_cmp, any, ok, err}
use battery_pack.Prelude.{true, false, Option, none, some, List, [], ◌∷◌, ◌++◌, if◌then◌else◌}
use battery_pack.Prelude.Set
use battery_pack.Prelude.Map
use battery_pack.Prelude.Map.{Map}
use native.Mathlib.Decide.{ℕ_discrete}
use battery_pack.Manifest.Types.{CrateSpec, DepKind, subset}
use battery_pack.Cli.Toml.{nil}
use battery_pack.Cli.Names.{short_name}
use battery_pack.Cli.State.{ManagedDep, StoredEntry, Stored, state_name_matches}
use battery_pack.Cli.State.Files.{
  Slot, content, Codec, with_newline, write_text, and_then, pure, write_battery_pack_state,
  record_applied_template, remove_battery_pack_state_entry, prune_state_managed_deps_for_manifest,
  read_applied_templates_from_state,
}
use battery_pack.Cli.State.Format.{ReadsBack}
use battery_pack.Cli.State.Packs.{seen}
use battery_pack.Cli.State.Writers.{write_battery_pack_state-seen}
use battery_pack.Cli.State.Templates.{with_template, record_applied_template-seen}
use battery_pack.Cli.State.Removal.{Removed, remove_battery_pack_state_entry-Removed}
use battery_pack.Cli.State.Prune.{Pruned, prune_state_managed_deps_for_manifest-Pruned}
use battery_pack.Cli.State.Newer.{newer-refused}

Stored-discrete : Discrete Stored
Stored-discrete = hlevel (ℕ_discrete)

-- A file with the pack `cli`, which manages clap and has a template applied; the same without clap; and
-- the file with no pack.
abbrev entry_with : List ManagedDep → StoredEntry
entry_with deps = record {
  name = chars "cli";
  all_features = none;
  features = some (chars "color" ∷ []);
  managed_deps = some deps;
  applied_templates = some (chars "basic" ∷ []);
}

abbrev file_with : List StoredEntry → Stored
file_with es = record { version = some 2; battery_pack = some es }

abbrev full : Stored
full = file_with (entry_with (record { name = chars "clap"; version = chars "4" } ∷ []) ∷ [])

abbrev pruned : Stored
pruned = file_with (entry_with [] ∷ [])

abbrev empty : Stored
empty = file_with []

-- A codec that knows these documents.
pick : {P Q R : Type 0} → Dec P → Dec Q → Dec R → Option Text
pick (yes p) q r = some (chars "full")
pick (no n) (yes q) r = some (chars "pruned")
pick (no n) (no m) (yes r) = some (chars "empty")
pick (no n) (no m) (no l) = none

abbrev codec : Codec
codec = record {
  print = λ s. pick (Stored-discrete s full) (Stored-discrete s pruned) (Stored-discrete s empty);
  parse = λ t.
      if text_eq t (with_newline (chars "full"))
      then some full
      else if text_eq t (with_newline (chars "pruned"))
      then some pruned
      else if text_eq t (with_newline (chars "empty"))
      then some empty
      else none;
  failed_write = λ slot text. none;
}

some_inj : {A : Type 0} (a b : A) → some a ≡ some b → b ≡ a
some_inj a b e = cc e

picked :
    (s : Stored) (p : Dec (s ≡ full)) (q : Dec (s ≡ pruned)) (r : Dec (s ≡ empty)) (t : Text)
    → pick p q r ≡ some t
    → codec.parse (with_newline t) ≡ some s
unfolding pick with_newline text_eq text_cmp
picked s (yes p) q r t e = rw (some_inj _ t e, p) refl
picked s (no n) (yes q) r t e = rw (some_inj _ t e, q) refl
picked s (no n) (no m) (yes r) t e = rw (some_inj _ t e, r) refl
picked s (no n) (no m) (no l) t e = cc e

reads_back : ReadsBack codec
reads_back s t e =
    picked s (Stored-discrete s full) (Stored-discrete s pruned) (Stored-discrete s empty) t e

print_full : codec.print full ≡ some (chars "full")
unfolding pick
print_full =
    elim (Stored-discrete full full)
      as (λ d.
        pick d (Stored-discrete full pruned) (Stored-discrete full empty) ≡ some (chars "full")) [
          | yes p ↦ refl
          | no n ↦ absurd (n refl)
        ]

abbrev slot : Slot
slot = content (chars "full" ++ 10 ∷ [])

abbrev crates : Map CrateSpec
crates =
    (
      chars "clap",
      record { version = chars "4"; features = []; dep_kind = DepKind.normal; optional = false },
    )
    ∷ []

not_all : any (λ f. text_eq f (chars "all")) (chars "color" ∷ []) ≡ false
unfolding text_eq text_cmp
not_all = refl

write_done :
    (write_battery_pack_state codec
      (chars "cli-battery-pack")
      (subset (chars "color" ∷ []))
      crates
      slot).0
    ≡ ok tt
unfolding write_battery_pack_state text_eq text_cmp short_name Set.extend Set.insert
    state_name_matches
write_done = ap (λ (o : Option Text). (write_text codec o slot).0) print_full

short : short_name (short_name (chars "cli-battery-pack")) ≡ short_name (chars "cli-battery-pack")
unfolding short_name text_eq text_cmp
short = refl

write_battery_pack_state-seen_example :
    seen codec
      (write_battery_pack_state codec
        (chars "cli-battery-pack")
        (subset (chars "color" ∷ []))
        crates
        slot).1
      (chars "cli")
    ≡ (if text_eq (short_name (chars "cli-battery-pack")) (short_name (chars "cli"))
        then (
          some (subset (chars "color" ∷ [])),
          some (Set.extend [] (Map.keys crates)),
          read_applied_templates_from_state codec slot (chars "cli-battery-pack"),
        )
        else seen codec slot (chars "cli"))
write_battery_pack_state-seen_example =
    write_battery_pack_state-seen codec (chars "cli-battery-pack") (chars "cli")
      (subset (chars "color" ∷ [])) crates slot reads_back short ((tt, tt), refl, not_all)
      write_done

record_done : (record_applied_template codec (chars "cli") (chars "basic") slot).0 ≡ ok tt
unfolding record_applied_template text_eq text_cmp short_name Set.extend Set.insert
    state_name_matches
record_done = ap (λ (o : Option Text). (write_text codec o slot).0) print_full

cli_short : short_name (short_name (chars "cli")) ≡ short_name (chars "cli")
unfolding short_name text_eq text_cmp
cli_short = refl

record_applied_template-seen_example :
    seen codec (record_applied_template codec (chars "cli") (chars "basic") slot).1 (chars "cli")
    ≡ (if text_eq (short_name (chars "cli")) (short_name (chars "cli"))
        then with_template (chars "basic") (seen codec slot (chars "cli"))
        else seen codec slot (chars "cli"))
record_applied_template-seen_example =
    record_applied_template-seen codec (chars "cli") (chars "basic") (chars "cli") slot reads_back
      cli_short record_done

print_empty : codec.print empty ≡ some (chars "empty")
unfolding pick
print_empty =
    picks (Stored-discrete empty full) (Stored-discrete empty pruned) (Stored-discrete empty empty)
  where
    picks :
        (p : Dec (empty ≡ full)) (q : Dec (empty ≡ pruned)) (r : Dec (empty ≡ empty))
        → pick p q r ≡ some (chars "empty")
    picks (yes p) q r = absurd (cc p)
    picks (no n) (yes q) r = absurd (cc q)
    picks (no n) (no m) (yes r) = refl
    picks (no n) (no m) (no l) = absurd (l refl)

print_pruned : codec.print pruned ≡ some (chars "pruned")
unfolding pick
print_pruned =
    picks (Stored-discrete pruned full) (Stored-discrete pruned pruned)
      (Stored-discrete pruned empty)
  where
    picks :
        (p : Dec (pruned ≡ full)) (q : Dec (pruned ≡ pruned)) (r : Dec (pruned ≡ empty))
        → pick p q r ≡ some (chars "pruned")
    picks (yes p) q r = absurd (cc p)
    picks (no n) (yes q) r = refl
    picks (no n) (no m) r = absurd (m refl)

remove_done : (remove_battery_pack_state_entry codec (chars "cli-battery-pack") slot).0 ≡ ok true
unfolding remove_battery_pack_state_entry text_eq text_cmp short_name Set.extend Set.insert
remove_done =
    ap (λ (o : Option Text). (and_then (write_text codec o slot) (λ _. pure true)).0) print_empty

remove_battery_pack_state_entry-Removed_example :
    Removed codec
      (chars "cli-battery-pack")
      true
      slot
      (remove_battery_pack_state_entry codec (chars "cli-battery-pack") slot).1
remove_battery_pack_state_entry-Removed_example =
    remove_battery_pack_state_entry-Removed codec (chars "cli-battery-pack") slot true reads_back
      remove_done

-- A manifest with no dependency.
prune_done : (prune_state_managed_deps_for_manifest codec (some nil) slot).0 ≡ ok 1
unfolding prune_state_managed_deps_for_manifest text_eq text_cmp Set.extend Set.insert Set.contains
prune_done =
    ap (λ (o : Option Text). (and_then (write_text codec o slot) (λ _. pure 1)).0) print_pruned

prune_state_managed_deps_for_manifest-Pruned_example :
    Pruned codec nil slot (prune_state_managed_deps_for_manifest codec (some nil) slot).1
prune_state_managed_deps_for_manifest-Pruned_example =
    prune_state_managed_deps_for_manifest-Pruned codec nil (chars "full" ++ 10 ∷ []) 1 reads_back
      prune_done

abbrev newer : Codec
newer = record {
  print = λ s. none;
  parse = λ t. some (record { version = some 3; battery_pack = none });
  failed_write = λ slot text. none;
}

newer-refused_example :
    (seen newer slot (chars "cli") ≡ (none, none, []))
    × (write_battery_pack_state newer (chars "cli") (subset []) crates slot
        ≡ (err (chars "unsupported version"), slot))
    × (record_applied_template newer (chars "cli") (chars "basic") slot
        ≡ (err (chars "unsupported version"), slot))
    × (remove_battery_pack_state_entry newer (chars "cli") slot
        ≡ (err (chars "unsupported version"), slot))
    × (prune_state_managed_deps_for_manifest newer (some nil) slot
        ≡ (err (chars "unsupported version"), slot))
newer-refused_example =
    newer-refused newer (chars "full" ++ 10 ∷ []) (record { version = some 3; battery_pack = none })
      3 (chars "cli") (chars "basic") (subset []) crates nil refl refl refl
