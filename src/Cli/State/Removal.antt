-- ===== src/Cli/State/Removal.antt =====
-- `remove_battery_pack_state_entry`, by what the readers say afterwards.
use battery_pack.Prelude.{
  ◌≤◌, ◌==◌, ◌≡◌, refl, sym, ◌∙◌, ap, inl, inr, arith, Bool-cases, length, Text, text_eq,
  text_eq_iff, Result, ok, err,
}
use battery_pack.Prelude.{
  Bool, true, false, not, Option, none, some, is_some, List, [], ◌∷◌, if◌then◌else◌, map,
}
use battery_pack.Cli.Names.{short_name}
use battery_pack.Cli.State.{Entry, StateFile, state_name_matches, find}
use battery_pack.Cli.State.Files.{
  Slot, Codec, and_then, pure, read_slot, write_state_file, write_fewer, without,
  remove_battery_pack_state_entry,
}
use battery_pack.Cli.State.Format.{
  ReadsBack, AreSets, settle, IsSoundState, read_slot-IsSoundState, read_slot-write_state_file,
}
use battery_pack.Cli.State.Packs.{View, view, view-find-settle, seen, seen-read_slot}

find-without :
    (bp_name k : Text) (es : List Entry)
    → find k (without bp_name es)
      ≡ (if text_eq (short_name bp_name) (short_name k) then none else find k es)
unfolding find state_name_matches
find-without bp_name k [] = ground arith
find-without bp_name k (e ∷ es) = ground (
  arith,
  find-without bp_name k es,
  text_eq_iff (short_name e.name) (short_name k),
  text_eq_iff (short_name bp_name) (short_name k),
  text_eq_iff (short_name e.name) (short_name bp_name),
)

without-AreSets : (bp_name : Text) (es : List Entry) → AreSets es → AreSets (without bp_name es)
without-AreSets bp_name [] h = tt
without-AreSets bp_name (e ∷ es) h = ground (arith, without-AreSets bp_name es h.1)

length-without_le : (bp_name : Text) (es : List Entry) → length (without bp_name es) ≤ length es
length-without_le bp_name [] = omega arith
length-without_le bp_name (e ∷ es) = ground (arith, length-without_le bp_name es)

-- The list keeps its length exactly if no entry is of the pack.
length-without :
    (bp_name : Text) (es : List Entry)
    → (length (without bp_name es) == length es) ≡ not (is_some (find bp_name es))
unfolding find
length-without bp_name [] = refl
length-without bp_name (e ∷ es) =
    ground (arith, length-without bp_name es, length-without_le bp_name es)

find-same :
    (bp_name k : Text) (es : List Entry)
    → text_eq (short_name bp_name) (short_name k) ≡ true
    → find k es ≡ find bp_name es
unfolding find state_name_matches
find-same bp_name k [] same = refl
find-same bp_name k (e ∷ es) same =
    rw (sym ((text_eq_iff (short_name bp_name) (short_name k)).0 same), find-same bp_name k es same)
      refl

view-without :
    (bp_name k : Text) (es : List Entry)
    → view (find k (without bp_name es))
      ≡ (if text_eq (short_name bp_name) (short_name k) then view none else view (find k es))
view-without bp_name k es =
    ap view (find-without bp_name k es)
    ∙ elim (Bool-cases (text_eq (short_name bp_name) (short_name k))) [
      | inl same ↦ rw same refl
      | inr other ↦ rw other refl
    ]

not-true : (b : Bool) → not b ≡ true → b ≡ false
not-true true e = cc e
not-true false e = refl

not-false : (b : Bool) → not b ≡ false → b ≡ true
not-false true e = refl
not-false false e = cc e

-- The features of an entry are there exactly if the entry is.
has_view : (o : Option Entry) → is_some (view o).0 ≡ is_some o
has_view none = refl
has_view (some e) = refl

is_some-none : (o : Option Entry) → is_some o ≡ false → o ≡ none
is_some-none none e = refl
is_some-none (some x) e = cc e

-- What a removal that succeeds with `b` has done.
abbrev pub Removed : Codec → Text → Bool → Slot → Slot → Type 0
Removed codec bp_name b slot slot' =
    (b ≡ is_some (seen codec slot bp_name).0)
    × ((k : Text)
        → seen codec slot' k ≡ (
            if text_eq (short_name bp_name) (short_name k)
            then (none, none, [])
            else seen codec slot k))

module _ (codec : Codec) (bp_name : Text) (slot : Slot) where
  Removed-none :
      (state : StateFile)
      → read_slot codec slot ≡ ok state
      → (length (without bp_name state.battery_pack) == length state.battery_pack) ≡ true
      → Removed codec bp_name false slot slot
  Removed-none state read same =
      let absent : find bp_name state.battery_pack ≡ none =
        is_some-none _ (not-true _ (sym (length-without bp_name state.battery_pack) ∙ same)) in
      (
        sym (
            ap (λ (v : View). is_some v.0)
              (seen-read_slot codec slot bp_name state read ∙ ap view absent)),
        λ k. elim (Bool-cases (text_eq (short_name bp_name) (short_name k))) [
          | inl match ↦ rw match (
              seen-read_slot codec slot k state read
              ∙ ap view (find-same bp_name k state.battery_pack match ∙ absent))
          | inr other ↦ rw other refl
        ],
      )

  Removed-some :
      (state : StateFile) (slot' : Slot)
      → read_slot codec slot ≡ ok state
      → AreSets state.battery_pack
      → (length (without bp_name state.battery_pack) == length state.battery_pack) ≡ false
      → read_slot codec slot'
        ≡ ok (record state { battery_pack = map settle (without bp_name state.battery_pack) })
      → Removed codec bp_name true slot slot'
  Removed-some state slot' read sets fewer after = (
    sym (
        ap (λ (v : View). is_some v.0) (seen-read_slot codec slot bp_name state read)
        ∙ has_view (find bp_name state.battery_pack)
        ∙ not-false _ (sym (length-without bp_name state.battery_pack) ∙ fewer)),
    λ k.
        seen-read_slot codec slot' k _ after
        ∙ view-find-settle k (without bp_name state.battery_pack)
            (without-AreSets bp_name state.battery_pack sets)
        ∙ view-without bp_name k state.battery_pack
        ∙ rw (seen-read_slot codec slot k state read) refl,
  )

  written :
      (state : StateFile) (b : Bool) (r : Result (Unit {0}) Text × Slot)
      → read_slot codec slot ≡ ok state
      → AreSets state.battery_pack
      → (length (without bp_name state.battery_pack) == length state.battery_pack) ≡ false
      → (r.0 ≡ ok tt
          → read_slot codec r.1
            ≡ ok (record state { battery_pack = map settle (without bp_name state.battery_pack) }))
      → (and_then r (λ _. pure true)).0 ≡ ok b
      → Removed codec bp_name b slot (and_then r (λ _. pure true)).1
  written state b (err e, slot') read sets fewer after done = cc done
  written state true (ok u, slot') read sets fewer after done =
      Removed-some state slot' read sets fewer (after refl)
  written state false (ok u, slot') read sets fewer after done = cc done

  unchanged :
      (b : Bool) (state : StateFile)
      → read_slot codec slot ≡ ok state
      → (length (without bp_name state.battery_pack) == length state.battery_pack) ≡ true
      → ◌≡◌ {A = Result Bool Text} (ok false) (ok b)
      → Removed codec bp_name b slot slot
  unchanged true state read same done = cc done
  unchanged false state read same done = Removed-none state read same

  fewer_written :
      (b : Bool) (o : Result StateFile Text)
      → ReadsBack codec
      → read_slot codec slot ≡ o
      → IsSoundState o
      → (and_then
          (o, slot)
          (λ state. write_fewer codec state (without bp_name state.battery_pack))).0
        ≡ ok b
      → Removed codec bp_name b slot
          (and_then
            (o, slot)
            (λ state. write_fewer codec state (without bp_name state.battery_pack))).1
  fewer_written b (err e) back read sound done = cc done
  fewer_written b (ok state) back read sound done =
      elim (Bool-cases (length (without bp_name state.battery_pack) == length state.battery_pack)) [
        | inl same ↦ rw same (unchanged b state read same (sym (rw same refl) ∙ done))
        | inr fewer ↦
            let state' : StateFile = record state {
              battery_pack = without bp_name state.battery_pack;
            } in
            rw fewer (
              written state b (write_state_file codec state' slot) read sound.0 fewer
                (read_slot-write_state_file codec state' slot back sound.1)
                (sym (rw fewer refl) ∙ done))
      ]

-- If the removal of a pack succeeds, its result tells whether the pack was there, and the readers then
-- say nothing of it, and of all others what they said before. The text that the crate toml prints is
-- read back by it.
pub remove_battery_pack_state_entry-Removed :
    (codec : Codec) (bp_name : Text) (slot : Slot) (b : Bool)
    → ReadsBack codec
    → (remove_battery_pack_state_entry codec bp_name slot).0 ≡ ok b
    → Removed codec bp_name b slot (remove_battery_pack_state_entry codec bp_name slot).1
unfolding remove_battery_pack_state_entry
remove_battery_pack_state_entry-Removed codec bp_name slot b back done =
    fewer_written codec bp_name slot b (read_slot codec slot) back refl
      (read_slot-IsSoundState codec slot) done
