-- ===== src/Manifest/Resolve/Origin.antt =====
-- Every resolved crate is a crate that the pack declares, with its declared features and more.
use battery_pack.Prelude.{sym, subst, inl, inr, ◌≡◌, refl, Text, for_each, not, arith}
use battery_pack.Prelude.{
  Bool, true, false, ◌&&◌, Option, none, some, List, [], ◌∷◌, ◌∈◌, Option-cases, if◌then◌else◌,
}
use battery_pack.Prelude.Set
use battery_pack.Prelude.Map
use battery_pack.Prelude.Map.{Map, contains_key}
use battery_pack.Manifest.Types.{BatteryPackSpec, CrateSpec, ActiveFeatures, every, subset}
use battery_pack.Manifest.Resolve.{
  Resolution, ◌>>=◌, with_extra, merged_entry, add_declared, add_dep, insert_required,
  or_insert_each, apply_weak, activate, start, complete, resolve_crates, resolve_for_features,
  add_implicit, expanded, is_hidden,
}
use battery_pack.Manifest.Resolve.Induction.{Kept, activate-Keeps}

-- `entry` is `declared` with more features.
pub record Extends (declared entry : CrateSpec) : Type 0 where
  pub version : entry.version ≡ declared.version
  pub dep_kind : entry.dep_kind ≡ declared.dep_kind
  pub optional : entry.optional ≡ declared.optional
  pub features :
      (f : Text) → Set.contains f declared.features ≡ true → Set.contains f entry.features ≡ true

pub Extends-refl : (c : CrateSpec) → Extends c c
Extends-refl c = record { version = refl; dep_kind = refl; optional = refl; features = λ f h. h }

with_extra-Extends :
    (extra : Option Text) (c e : CrateSpec) → Extends c e → Extends c (with_extra extra e)
unfolding with_extra
with_extra-Extends none c e h = h
with_extra-Extends (some x) c e h = record {
  version = h.version;
  dep_kind = h.dep_kind;
  optional = h.optional;
  features = λ f there. ground (arith, h.features f there, Set.contains-insert x f e.features);
}

unwrap :
    {m : Map CrateSpec} (n : Map CrateSpec)
    → ◌≡◌ {A = Option (Map CrateSpec)} (some n) (some m)
    → n ≡ m
unwrap n q = cc q

module _ (spec : BatteryPackSpec) where
  abbrev pub HasOrigin : Text → CrateSpec → Type 0
  HasOrigin name e = (c : CrateSpec) × ((name, c) ∈ spec.crates) × Extends c e

  abbrev pub AllOrigin : Map CrateSpec → Type 0
  AllOrigin m = (name : Text) (e : CrateSpec) → Map.get name m ≡ some e → HasOrigin name e

  insert-AllOrigin :
      (name : Text) (e : CrateSpec) (m : Map CrateSpec)
      → HasOrigin name e
      → AllOrigin m
      → AllOrigin (Map.insert name e m)
  insert-AllOrigin name e m h all j x found = elim (Map.get-insert_cases name j e m x found) [
    | inl (q, v) ↦
        subst (λ (y : CrateSpec). HasOrigin j y) v (subst (λ (n : Text). HasOrigin n e) (sym q) h)
    | inr before ↦ all j x before
  ]

  some-eq : {c d : CrateSpec} → ◌≡◌ {A = Option CrateSpec} (some c) (some d) → c ≡ d
  some-eq q = cc q

  merged_entry-HasOrigin :
      (name : Text) (o : Option CrateSpec) (c : CrateSpec)
      → Map.get name spec.crates ≡ some c
      → ((e : CrateSpec) → o ≡ some e → HasOrigin name e)
      → HasOrigin name (merged_entry o c)
  unfolding merged_entry
  merged_entry-HasOrigin name none c found h =
      (c, Map.mem-get name spec.crates c found, Extends-refl c)
  merged_entry-HasOrigin name (some e) c found h =
      let (d, q, x) = h e refl in
      (
        d,
        q,
        record {
          version = x.version;
          dep_kind = x.dep_kind;
          optional = x.optional;
          features = λ f there.
              ground (arith, x.features f there, Set.contains-extend e.features c.features f);
        },
      )

  with_extra-HasOrigin :
      (name : Text) (extra : Option Text) (e : CrateSpec)
      → HasOrigin name e
      → HasOrigin name (with_extra extra e)
  with_extra-HasOrigin name extra e (c, found, x) = (c, found, with_extra-Extends extra c e x)

  add_declared-AllOrigin :
      (name : Text) (extra : Option Text) (o : Option CrateSpec) (m : Map CrateSpec)
      → Map.get name spec.crates ≡ o
      → AllOrigin m
      → AllOrigin (add_declared name extra o m)
  unfolding add_declared
  add_declared-AllOrigin name extra none m found all = all
  add_declared-AllOrigin name extra (some c) m found all =
      insert-AllOrigin name (with_extra extra (merged_entry (Map.get name m) c)) m
        (with_extra-HasOrigin name extra _ (merged_entry-HasOrigin name _ c found (all name))) all

  add_dep-AllOrigin :
      (name : Text) (extra : Option Text) (m : Map CrateSpec)
      → AllOrigin m
      → AllOrigin (add_dep spec name extra m)
  unfolding add_dep
  add_dep-AllOrigin name extra m = add_declared-AllOrigin name extra _ m refl

  insert_required-AllOrigin :
      (crates m : Map CrateSpec)
      → ((name : Text) (c : CrateSpec) → (name, c) ∈ crates → (name, c) ∈ spec.crates)
      → AllOrigin m
      → AllOrigin (insert_required crates m)
  unfolding insert_required
  insert_required-AllOrigin [] m sub all = all
  insert_required-AllOrigin ((name, c) ∷ rest) m sub all =
      insert_required-AllOrigin rest _ (λ n x at_n. sub n x (inr at_n)) (added c.optional)
    where
      added : (b : Bool) → AllOrigin (if b then m else Map.insert name c m)
      added true = all
      added false = insert-AllOrigin name c m (c, sub name c (inl refl), Extends-refl c) all

  or_insert_each-AllOrigin :
      (p : Text → CrateSpec → Bool) (crates m : Map CrateSpec)
      → ((name : Text) (c : CrateSpec) → (name, c) ∈ crates → (name, c) ∈ spec.crates)
      → AllOrigin m
      → AllOrigin (or_insert_each p crates m)
  unfolding or_insert_each
  or_insert_each-AllOrigin p [] m sub all = all
  or_insert_each-AllOrigin p ((name, c) ∷ rest) m sub all =
      or_insert_each-AllOrigin p rest _ (λ n x at_n. sub n x (inr at_n))
        (added (p name c && not (contains_key name m)))
    where
      added : (b : Bool) → AllOrigin (if b then Map.insert name c m else m)
      added true = insert-AllOrigin name c m (c, sub name c (inl refl), Extends-refl c) all
      added false = all

  apply_weak-AllOrigin :
      (pending : List (Text × Text)) (m : Map CrateSpec)
      → AllOrigin m
      → AllOrigin (for_each apply_weak pending m)
  unfolding apply_weak with_extra
  apply_weak-AllOrigin [] m all = all
  apply_weak-AllOrigin ((d, f) ∷ rest) m all = elim (Option-cases (Map.get d m)) [
    | inl e ↦ rw (e, apply_weak) (apply_weak-AllOrigin rest m all)
    | inr (entry, e) ↦
        rw (e, apply_weak)
          (apply_weak-AllOrigin rest _
            (insert-AllOrigin d _ m (with_extra-HasOrigin d (some f) entry (all d entry e)) all))
  ]

  complete-AllOrigin : (st : Resolution) → AllOrigin st.result → AllOrigin (complete spec st)
  unfolding complete
  complete-AllOrigin st all =
      apply_weak-AllOrigin st.pending_weak _
        (or_insert_each-AllOrigin _ spec.crates st.result (λ n c at_n. at_n) all)

  add_implicit-AllOrigin :
      (active : ActiveFeatures) (m : Map CrateSpec)
      → AllOrigin m
      → AllOrigin (add_implicit spec active m)
  unfolding add_implicit
  add_implicit-AllOrigin every m all =
      or_insert_each-AllOrigin _ spec.crates m (λ n c at_n. at_n) all
  add_implicit-AllOrigin (subset features) m all = all

  resolve_crates-AllOrigin :
      (names : List Text) (m : Map CrateSpec) → resolve_crates spec names ≡ some m → AllOrigin m
  unfolding resolve_crates
  resolve_crates-AllOrigin names m e =
      finish (activate spec names start)
        (activate-Keeps spec AllOrigin add_dep-AllOrigin
          (λ r. insert_required-AllOrigin spec.crates r (λ n c at_n. at_n)) names start
          (λ n c none_yet. unfold Map.get in cc none_yet))
        e
    where
      finish :
          (r : Option Resolution)
          → Kept AllOrigin r
          → (r >>= λ st. some (complete spec st)) ≡ some m
          → AllOrigin m
      finish none k q = absurd (cc q)
      finish (some st) k q = subst AllOrigin (unwrap (complete spec st) q) (complete-AllOrigin st k)

  retained :
      (name : Text) (e : CrateSpec) (m : Map CrateSpec)
      → Map.get name (Map.retain (λ n. not (is_hidden spec n)) m) ≡ some e
      → (is_hidden spec name ≡ false) × (Map.get name m ≡ some e)
  retained name e m kept = ground (arith, Map.get-retain (λ n. not (is_hidden spec n)) name m)

  visible-HasOrigin :
      (active : ActiveFeatures) (o : Option (Map CrateSpec)) (m : Map CrateSpec)
      → resolve_crates spec (expanded spec active) ≡ o
      → (o >>= λ resolved.
          some (Map.retain (λ n. not (is_hidden spec n)) (add_implicit spec active resolved)))
        ≡ some m
      → (name : Text) (e : CrateSpec) → Map.get name m ≡ some e
      → HasOrigin name e × (is_hidden spec name ≡ false)
  visible-HasOrigin active none m r done name e found = absurd (cc done)
  visible-HasOrigin active (some resolved) m r done name e found =
      let all =
        add_implicit-AllOrigin active resolved
          (resolve_crates-AllOrigin (expanded spec active) resolved r) in
      let (shown, there) =
        retained name e (add_implicit spec active resolved)
          (subst (λ (x : Map CrateSpec). Map.get name x ≡ some e) (sym (unwrap _ done)) found) in
      (all name e there, shown)

-- Every crate that is resolved for the active features is declared by the pack, under its name, with
-- the version, the section and the optional mark that it has there and at least the features that it
-- has there, and is not hidden.
pub resolve_for_features-origin :
    (spec : BatteryPackSpec) (active : ActiveFeatures) (m : Map CrateSpec)
    → resolve_for_features spec active ≡ some m
    → (name : Text) (e : CrateSpec) → Map.get name m ≡ some e
    → HasOrigin spec name e × (is_hidden spec name ≡ false)
unfolding resolve_for_features
resolve_for_features-origin spec active m done =
    visible-HasOrigin spec active (resolve_crates spec (expanded spec active)) m refl done
