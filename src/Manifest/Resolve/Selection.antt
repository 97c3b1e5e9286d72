-- ===== src/Manifest/Resolve/Selection.antt =====
-- Which crates `resolve_crates` returns for the active features of a pack without cycles.
use battery_pack.Prelude.{
  sym, ◌∙◌, subst, inl, inr, ◌≡◌, ◌⊎◌, ◌↔◌, refl, Text, chars, text_eq, text_eq_iff, not, arith,
}
use battery_pack.Prelude.{
  Bool, true, false, ◌&&◌, Option, none, some, List, [], ◌∷◌, ◌∈◌, Bool-cases, Option-cases,
}
use battery_pack.Prelude.Set
use battery_pack.Prelude.Map
use battery_pack.Prelude.Map.{Map, contains_key}
use battery_pack.FeatureRef.{FeatureRef}
use battery_pack.Manifest.Types.{BatteryPackSpec, CrateSpec}
use battery_pack.Manifest.Validate.Graph.{Leads}
use battery_pack.Manifest.Resolve.{
  Resolution, ◌>>=◌, add_feature_crates, expand_fuel, or_insert_each, unconditional, is_hidden,
  add_default_crates, add_active, add_all_active, activate, start, complete, resolve_crates,
}
use battery_pack.Manifest.Resolve.Reach.{
  Activates, Has, Adds, Adds-map, Adds-none, Expands, OnPath, bind-Expands, Expands-map,
}
use battery_pack.Manifest.Resolve.Ungated.{IsUngated, unconditional_iff}
use battery_pack.Manifest.Resolve.Exact.{add_feature_crates-Expands}
use battery_pack.Manifest.Resolve.Loops.{
  IsRequired, Passes, insert_required-Adds, or_insert_each-Adds, key-apply_weak_all,
}

module _ (spec : BatteryPackSpec) where
  -- The active feature selects the crate: its references activate it, or it is `default`, the pack
  -- has no such feature, and the crate is not optional.
  abbrev pub Selects : Text → Text → Type 0
  Selects name c =
      ((refs : List FeatureRef) × (Map.get name spec.features ≡ some refs) × Activates spec refs c)
      ⊎ (name ≡ chars "default") × (Map.get name spec.features ≡ none) × IsRequired spec c

  abbrev pub SelectsAny : List Text → Text → Type 0
  SelectsAny names c = (name : Text) × (name ∈ names) × Selects name c

  -- With no active feature, `default` is active.
  abbrev pub or_default : List Text → List Text
  or_default [] = chars "default" ∷ []
  or_default (n ∷ ns) = n ∷ ns

  Selects-some :
      (name : Text) (refs : List FeatureRef)
      → Map.get name spec.features ≡ some refs
      → (c : Text) → Selects name c
      → Activates spec refs c
  Selects-some name refs found c (inl (other, e, a)) =
      subst (λ (l : List FeatureRef). Activates spec l c) (same (sym e ∙ found)) a
    where
      same : ◌≡◌ {A = Option (List FeatureRef)} (some other) (some refs) → other ≡ refs
      same q = cc q
  Selects-some name refs found c (inr (q, e, r)) = absurd (cc (sym e ∙ found))

  Selects-none :
      (name : Text)
      → Map.get name spec.features ≡ none
      → (c : Text) → Selects name c
      → IsRequired spec c
  Selects-none name found c (inl (other, e, a)) = absurd (cc (sym e ∙ found))
  Selects-none name found c (inr (q, e, r)) = r

  nothing_open :
      (refs : List FeatureRef) (st : Resolution) → st.visiting ≡ [] → OnPath spec st.visiting refs
  nothing_open refs st e v b seen =
      absurd (none_seen (subst (λ (l : List Text). Set.contains v l ≡ true) e seen))
    where
      none_seen : Set.contains v [] ≡ true → ⊥
      none_seen h = unfold Set.contains in cc h

  module _ (acyclic : (n : Text) → ¬ Leads spec n n) where
    expand-Selects :
        (name : Text) (refs : List FeatureRef) (st : Resolution)
        → st.visiting ≡ []
        → Map.get name spec.features ≡ some refs
        → Expands spec (Selects name) st (add_feature_crates spec (expand_fuel spec) refs st)
    expand-Selects name refs st e found =
        Expands-map spec (Activates spec refs) (Selects name) st _ (λ c a. inl (refs, found, a))
          (Selects-some name refs found)
          (add_feature_crates-Expands spec acyclic (expand_fuel spec) refs st
            (nothing_open refs st e))

    default-Selects :
        (st : Resolution)
        → st.visiting ≡ []
        → Expands spec (Selects (chars "default")) st (add_default_crates spec st)
    unfolding add_default_crates
    default-Selects st e = elim (Option-cases (Map.get (chars "default") spec.features)) [
      | inl absent ↦
          rw (absent, Expands, add_default_crates)
            (
              refl,
              Adds-map spec (IsRequired spec) _ st.result _ (λ c r. inr (refl, absent, r))
                  (Selects-none _ absent) (insert_required-Adds spec st.result),
            )
      | inr (refs, found) ↦
          rw (found, Expands, add_default_crates) (expand-Selects _ refs st e found)
    ]

    active-Selects :
        (name : Text) (st : Resolution)
        → st.visiting ≡ []
        → Expands spec (Selects name) st (add_active spec name st)
    unfolding add_active
    active-Selects name st e = elim (Bool-cases (text_eq name (chars "default"))) [
      | inl same ↦ rw same (
          subst (λ (n : Text). Expands spec (Selects n) st (add_default_crates spec st))
            (sym ((text_eq_iff name (chars "default")).0 same)) (default-Selects st e))
      | inr other ↦ rw other (elim (Option-cases (Map.get name spec.features)) [
        | inl absent ↦ rw absent (refl, Adds-none spec _ st.result (no_such other absent))
        | inr (refs, found) ↦ rw found (expand-Selects name refs st e found)
      ])
    ]
      where
        no_such :
            text_eq name (chars "default") ≡ false
            → Map.get name spec.features ≡ none
            → (c : Text) → ¬ Selects name c
        no_such other absent c (inl (refs, e, a)) = cc (sym e ∙ absent)
        no_such other absent c (inr (q, e, r)) =
            cc (sym other ∙ (text_eq_iff name (chars "default")).1 q)

    all-Selects :
        (names : List Text) (st : Resolution)
        → st.visiting ≡ []
        → Expands spec (SelectsAny names) st (add_all_active spec names st)
    unfolding add_all_active
    all-Selects [] st e = (refl, Adds-none spec _ st.result (λ c s. s.1))
    all-Selects (name ∷ names) st e =
        Expands-map spec (λ c. Selects name c ⊎ SelectsAny names c) _ st _
          (λ c. elim [ inl s ↦ (name, inl refl, s) | inr (n, m, s) ↦ (n, inr m, s) ]) split
          (bind-Expands spec (Selects name) (SelectsAny names) st (add_active spec name st)
            (add_all_active spec names) (active-Selects name st e)
            (λ st' same. all-Selects names st' (same ∙ e)))
      where
        split : (c : Text) → SelectsAny (name ∷ names) c → Selects name c ⊎ SelectsAny names c
        split c (n, inl q, s) = inl (subst (λ (x : Text). Selects x c) q s)
        split c (n, inr m, s) = inr (n, m, s)

    activate-Selects :
        (names : List Text)
        → Expands spec (SelectsAny (or_default names)) start (activate spec names start)
    unfolding activate
    activate-Selects [] =
        Expands-map spec (Selects (chars "default")) _ start _ (λ c s. (_, inl refl, s)) only
          (default-Selects start refl)
      where
        only : (c : Text) → SelectsAny (chars "default" ∷ []) c → Selects (chars "default") c
        only c (n, inl q, s) = subst (λ (x : Text). Selects x c) q s
        only c (n, inr m, s) = absurd m
    activate-Selects (name ∷ names) = all-Selects (name ∷ names) start refl

  -- An ungated dependency that is not hidden.
  abbrev pub IsAlways : Text → Type 0
  IsAlways c =
      (x : CrateSpec) × ((c, x) ∈ spec.crates) × IsUngated spec c x × (is_hidden spec c ≡ false)

  abbrev always : Text → CrateSpec → Bool
  always name c = unconditional spec name c && not (is_hidden spec name)

  Passes-IsAlways : (c : Text) → Passes spec always spec.crates c → IsAlways c
  Passes-IsAlways c (x, m, t) = (x, m, (unconditional_iff spec c x).0 (ground arith), ground arith)

  IsAlways-Passes : (c : Text) → IsAlways c → Passes spec always spec.crates c
  IsAlways-Passes c (x, m, u, shown) = (x, m, rw ((unconditional_iff spec c x).1 u, shown))

  complete-keys :
      (A : Text → Type 0) (st : Resolution)
      → Adds spec A [] st.result
      → (c : Text) → Has spec c (complete spec st) ↔ (A c × Has spec c spec.crates ⊎ IsAlways c)
  unfolding complete
  complete-keys A st a c = (to, from)
    where
      loop :
          Adds spec
            (Passes spec always spec.crates)
            st.result
            (or_insert_each always spec.crates st.result)
      loop = or_insert_each-Adds spec always st.result

      key :
          contains_key c (complete spec st)
          ≡ contains_key c (or_insert_each always spec.crates st.result)
      key = key-apply_weak_all spec st.pending_weak _ c

      first : Has spec c st.result → A c × Has spec c spec.crates
      first h = elim (a.sound c h) [
        | inl old ↦ absurd (unfold contains_key Map.get in cc old)
        | inr new ↦ new
      ]

      to : Has spec c (complete spec st) → A c × Has spec c spec.crates ⊎ IsAlways c
      to h = elim (loop.sound c (sym key ∙ h)) [
        | inl old ↦ inl (first old)
        | inr (p, declared) ↦ inr (Passes-IsAlways c p)
      ]

      from : A c × Has spec c spec.crates ⊎ IsAlways c → Has spec c (complete spec st)
      from (inl (x, declared)) = key ∙ loop.keeps c (a.gets c x declared)
      from (inr u) =
          key ∙ loop.gets c (IsAlways-Passes c u) (Map.contains_key-mem c u.0 spec.crates u.1)

-- On a pack whose local features form no cycle, the crates that `resolve_crates` returns are exactly
-- the declared crates that some active feature selects (`default`, if none is active), and the
-- dev, build and unreferenced required dependencies that are not hidden.
pub resolve_crates-keys :
    (spec : BatteryPackSpec)
    → ((n : Text) → ¬ Leads spec n n)
    → (names : List Text) (m : Map CrateSpec) → resolve_crates spec names ≡ some m
    → (c : Text)
    → (contains_key c m ≡ true) ↔ (
        SelectsAny spec (or_default spec names) c × (contains_key c spec.crates ≡ true)
        ⊎ IsAlways spec c)
unfolding resolve_crates
resolve_crates-keys spec acyclic names m done c =
    finish (activate spec names start) (activate-Selects spec acyclic names) done
  where
    finish :
        (r : Option Resolution)
        → Expands spec (SelectsAny spec (or_default spec names)) start r
        → (r >>= λ st. some (complete spec st)) ≡ some m
        → (contains_key c m ≡ true) ↔ (
            SelectsAny spec (or_default spec names) c × (contains_key c spec.crates ≡ true)
            ⊎ IsAlways spec c)
    finish none e q = absurd (cc q)
    finish (some st) e q =
        subst
          (λ (x : Map CrateSpec). (contains_key c x ≡ true) ↔ (
            SelectsAny spec (or_default spec names) c × (contains_key c spec.crates ≡ true)
            ⊎ IsAlways spec c))
          (unwrap q) (complete-keys spec (SelectsAny spec (or_default spec names)) st e.1 c)
      where
        unwrap :
            ◌≡◌ {A = Option (Map CrateSpec)} (some (complete spec st)) (some m)
            → complete spec st ≡ m
        unwrap q' = cc q'
