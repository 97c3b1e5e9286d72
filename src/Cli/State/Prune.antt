-- ===== src/Cli/State/Prune.antt =====
-- `prune_state_managed_deps_for_manifest`, by what the readers say afterwards.
use battery_pack.Prelude.{
  ℕ, ◌-◌, ◌≤◌, ◌==◌, ==_iff, ◌≡◌, refl, sym, subst, ◌∙◌, ap, inl, inr, arith, Bool-cases, length,
  Text, text_eq, text_eq_iff, ◌↔◌, Result, ok, err,
}
use battery_pack.Prelude.{Bool, true, false, ◌&&◌, ◌||◌, Option, none, some, List, [], ◌∷◌, map}
use battery_pack.Prelude.Set
use battery_pack.Prelude.Set.{contains-extend}
use battery_pack.Cli.Toml.{Table}
use battery_pack.Cli.State.{ManagedDep, Entry, StateFile, state_name_matches, active_features, find}
use battery_pack.Cli.State.Files.{
  Slot, content, Codec, and_then, pure, read_slot, write_state_file, kept_deps, pruned_entry,
  removed_from, present_deps, write_pruned, prune_state_managed_deps_for_manifest,
}
use battery_pack.Cli.State.Present.{DependsOn, present_deps_iff}
use battery_pack.Cli.State.Format.{
  ReadsBack, AreSets, settle, IsSoundState, read_slot-IsSoundState, read_slot-write_state_file,
}
use battery_pack.Cli.State.Packs.{View, view, view-find-settle, seen, seen-read_slot}

kept_deps-le :
    (present : List Text) (deps : List ManagedDep) → length (kept_deps present deps) ≤ length deps
kept_deps-le present [] = omega arith
kept_deps-le present (d ∷ deps) = ground (arith, kept_deps-le present deps)

-- Where no dependency is removed, the list stays.
kept_deps_all :
    (present : List Text) (deps : List ManagedDep)
    → length deps - length (kept_deps present deps) ≡ 0
    → kept_deps present deps ≡ deps
kept_deps_all present [] e = refl
kept_deps_all present (d ∷ deps) e =
    ground (arith, kept_deps-le present deps, kept_deps_all present deps)

pruned_all :
    (present : List Text) (es : List Entry)
    → removed_from present es ≡ 0
    → map (pruned_entry present) es ≡ es
pruned_all present [] e = refl
pruned_all present (x ∷ es) e =
    rw (kept_deps_all present x.managed_deps (omega arith), pruned_all present es (omega arith))
      refl

find-pruned :
    (present : List Text) (k : Text) (es : List Entry)
    → find k (map (pruned_entry present) es)
      ≡ elim (find k es) [ none ↦ none | some e ↦ some (pruned_entry present e) ]
unfolding find
find-pruned present k [] = refl
find-pruned present k (e ∷ es) = elim (Bool-cases (state_name_matches e.name k)) [
  | inl here ↦ rw here refl
  | inr later ↦ rw later (find-pruned present k es)
]

pruned-AreSets :
    (present : List Text) (es : List Entry) → AreSets es → AreSets (map (pruned_entry present) es)
pruned-AreSets present [] h = tt
pruned-AreSets present (e ∷ es) h = (h.0, pruned-AreSets present es h.1)

-- A name is among the managed dependencies.
abbrev pub has : Text → Option (List Text) → Bool
has d none = false
has d (some names) = Set.contains d names

-- The features and templates stay, and of the managed dependencies those that are present.
abbrev pub IsPruned : List Text → View → View → Type 0
IsPruned present v v' =
    (v'.0 ≡ v.0) × (v'.2 ≡ v.2) × ((d : Text) → has d v'.1 ≡ (has d v.1 && Set.contains d present))

contains-cons :
    (d x : Text) (xs : List Text) → Set.contains d (x ∷ xs) ≡ (text_eq d x || Set.contains d xs)
unfolding Set.contains
contains-cons d x xs = refl

contains_same :
    (d x : Text) (xs : List Text) → text_eq d x ≡ true → Set.contains d xs ≡ Set.contains x xs
contains_same d x xs e = ap (λ (y : Text). Set.contains y xs) ((text_eq_iff d x).0 e)

abbrev names : List ManagedDep → List Text
names deps = map (λ (m : ManagedDep). m.name) deps

contains-kept :
    (present : List Text) (d : Text) (deps : List ManagedDep)
    → Set.contains d (names (kept_deps present deps))
      ≡ (Set.contains d (names deps) && Set.contains d present)
contains-kept present d [] = unfold Set.contains in refl
contains-kept present d (m ∷ deps) = elim (Bool-cases (Set.contains m.name present)) [
  | inl stays ↦ rw stays (
      ground (
        arith,
        stays,
        contains-kept present d deps,
        contains_same d m.name present,
        contains-cons d m.name (names (kept_deps present deps)),
        contains-cons d m.name (names deps),
      ))
  | inr goes ↦ rw goes (
      ground (
        arith,
        goes,
        contains-kept present d deps,
        contains_same d m.name present,
        contains-cons d m.name (names deps),
      ))
]

contains-names :
    (d : Text) (deps : List ManagedDep)
    → Set.contains d (Set.extend [] (names deps)) ≡ Set.contains d (names deps)
contains-names d deps = contains-extend [] (names deps) d ∙ unfold Set.contains in refl

view-IsPruned :
    (present : List Text) (o : Option Entry)
    → IsPruned present
        (view o)
        (view (elim o [ none ↦ none | some e ↦ some (pruned_entry present e) ]))
unfolding active_features
view-IsPruned present none = (refl, refl, λ d. refl)
view-IsPruned present (some e) = (
  refl,
  refl,
  λ d.
      contains-names d (kept_deps present e.managed_deps)
      ∙ contains-kept present d e.managed_deps
      ∙ ap (λ (b : Bool). b && Set.contains d present) (sym (contains-names d e.managed_deps)),
)

module _ (codec : Codec) (present : List Text) (slot : Slot) where
  abbrev Filtered : Slot → Type 0
  Filtered slot' = (k : Text) → IsPruned present (seen codec slot k) (seen codec slot' k)

  of_entries :
      (state : StateFile) (slot' : Slot)
      → read_slot codec slot ≡ ok state
      → ((k : Text)
          → seen codec slot' k ≡ view (find k (map (pruned_entry present) state.battery_pack)))
      → Filtered slot'
  of_entries state slot' read after k =
      subst (λ (v : View). IsPruned present v (seen codec slot' k))
        (sym (seen-read_slot codec slot k state read))
        (subst (λ (v : View). IsPruned present (view (find k state.battery_pack)) v)
          (sym (after k ∙ ap view (find-pruned present k state.battery_pack)))
          (view-IsPruned present (find k state.battery_pack)))

  written :
      (state : StateFile) (n removed : ℕ) (r : Result (Unit {0}) Text × Slot)
      → read_slot codec slot ≡ ok state
      → AreSets state.battery_pack
      → (r.0 ≡ ok tt
          → read_slot codec r.1
            ≡ ok (record state {
              battery_pack = map settle (map (pruned_entry present) state.battery_pack);
            }))
      → (and_then r (λ _. pure removed)).0 ≡ ok n
      → Filtered (and_then r (λ _. pure removed)).1
  written state n removed (err e, slot') read sets after done = cc done
  written state n removed (ok u, slot') read sets after done = of_entries state slot' read (λ k.
      seen-read_slot codec slot' k _ (after refl)
      ∙ view-find-settle k (map (pruned_entry present) state.battery_pack)
          (pruned-AreSets present state.battery_pack sets))

  prune_read :
      (n : ℕ) (o : Result StateFile Text)
      → ReadsBack codec
      → read_slot codec slot ≡ o
      → IsSoundState o
      → let r =
          and_then
            (o, slot)
            (λ state.
              write_pruned codec state
                (map (pruned_entry present) state.battery_pack)
                (removed_from present state.battery_pack)) in
        r.0 ≡ ok n → Filtered r.1
  prune_read n (err e) back read sound done = cc done
  prune_read n (ok state) back read sound done =
      elim (Bool-cases (removed_from present state.battery_pack == 0)) [
        | inl nothing ↦ rw nothing (
            of_entries state slot read (λ k.
              seen-read_slot codec slot k state read
              ∙ ap (λ (es : List Entry). view (find k es))
                  (sym (pruned_all present state.battery_pack ((==_iff _ 0).0 nothing)))))
        | inr some_removed ↦
            let state' : StateFile = record state {
              battery_pack = map (pruned_entry present) state.battery_pack;
            } in
            rw some_removed (
              written state n (removed_from present state.battery_pack)
                (write_state_file codec state' slot) read sound.0
                (read_slot-write_state_file codec state' slot back sound.1)
                (sym (rw some_removed refl) ∙ done))
      ]

-- The features and templates stay, and of the managed dependencies those that the manifest has.
abbrev pub KeepsDeclared : Table → View → View → Type 0
KeepsDeclared raw v v' =
    (v'.0 ≡ v.0)
    × (v'.2 ≡ v.2)
    × ((d : Text) → (has d v'.1 ≡ true) ↔ ((has d v.1 ≡ true) × DependsOn raw d))

abbrev pub Pruned : Codec → Table → Slot → Slot → Type 0
Pruned codec raw slot slot' =
    (k : Text) → KeepsDeclared raw (seen codec slot k) (seen codec slot' k)

and_true_iff :
    {A : Type 0} (x a b : Bool) → x ≡ (a && b) → (b ≡ true) ↔ A → (x ≡ true) ↔ ((a ≡ true) × A)
and_true_iff x a b e h = (
  λ q. let q' : (a ≡ true) × (b ≡ true) = ground (arith, e, q) in (q'.0, h.0 q'.1),
  λ q. let there = h.1 q.1 in ground (arith, e, q.0, there),
)

IsPruned-KeepsDeclared :
    (raw : Table) (v v' : View) → IsPruned (present_deps raw) v v' → KeepsDeclared raw v v'
IsPruned-KeepsDeclared raw v v' (same, templates, deps) = (
  same,
  templates,
  λ d. and_true_iff (has d v'.1) (has d v.1) _ (deps d) (present_deps_iff raw d),
)

-- If the state file is there and pruning succeeds, the readers say of each pack the same features and
-- templates as before, and of its managed dependencies exactly those that `dependencies`,
-- `dev-dependencies` or `build-dependencies` at the root of the manifest still has, as a table or
-- inline; sections below `target` do not count. The text that the crate toml prints is read back by
-- it.
pub prune_state_managed_deps_for_manifest-Pruned :
    (codec : Codec) (raw : Table) (text : Text) (n : ℕ)
    → ReadsBack codec
    → (prune_state_managed_deps_for_manifest codec (some raw) (content text)).0 ≡ ok n
    → Pruned codec raw
        (content text)
        (prune_state_managed_deps_for_manifest codec (some raw) (content text)).1
unfolding prune_state_managed_deps_for_manifest
prune_state_managed_deps_for_manifest-Pruned codec raw text n back done k =
    IsPruned-KeepsDeclared raw _ _ (
      prune_read codec (present_deps raw) (content text) n (read_slot codec (content text)) back
        refl (read_slot-IsSoundState codec (content text)) done k)
