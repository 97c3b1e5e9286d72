-- ===== src/Manifest/Resolve/Exact.antt =====
-- On a pack whose local features form no cycle, the expansion of references adds exactly the
-- declared crates that they activate.
use battery_pack.Prelude.{
  sym, ◌∙◌, ap, subst, inl, inr, ℕ, zero, suc, ◌≡◌, ◌⊎◌, refl, Text, text_eq_iff, or-eq_true,
}
use battery_pack.Prelude.{true, false, Option, none, some, List, [], ◌∷◌, ◌∈◌, Bool-cases}
use battery_pack.Prelude.Set
use battery_pack.Prelude.Map
use battery_pack.FeatureRef.{FeatureRef, feature, dep, dep_feature}
use battery_pack.Manifest.Types.{BatteryPackSpec}
use battery_pack.Manifest.Validate.Graph.{Edge, Leads, edge, next}
use battery_pack.Manifest.Resolve.{
  Resolution, ◌>>=◌, add_bare, add_ref, add_refs, add_feature_crates,
}
use battery_pack.Manifest.Resolve.Reach.{
  Activates, One, Activates-One, One-Activates, Adds-map, Adds-none, add_dep-Adds, OnPath, Expands,
  bind-Expands, Expands-map,
}

module _ (spec : BatteryPackSpec) (acyclic : (n : Text) → ¬ Leads spec n n) where
  abbrev ExpandsAll : (List FeatureRef → Resolution → Option Resolution) → Type 0
  ExpandsAll rec =
      (refs : List FeatureRef) (st : Resolution)
      → OnPath spec st.visiting refs
      → Expands spec (Activates spec refs) st (rec refs st)

  on_inner :
      (visiting : List Text) (name : Text) (inner : List FeatureRef)
      → OnPath spec visiting (feature name ∷ [])
      → Map.get name spec.features ≡ some inner
      → OnPath spec (Set.insert name visiting) inner
  on_inner visiting name inner on found v b there listed local =
      elim (or-eq_true _ _ (sym (Set.contains-insert name v visiting) ∙ there)) [
        | inl same ↦
            subst (λ (x : Text). Leads spec x b) (sym ((text_eq_iff v name).0 same)) (edge step)
        | inr old ↦
            next (on v name old (inl refl) (Map.get-contains_key name spec.features found)) step
      ]
    where
      step : Edge spec name b
      step = record { refs = inner; found = found; listed = listed; local = local }

  One-local :
      (name : Text) (inner : List FeatureRef)
      → Map.get name spec.features ≡ some inner
      → (c : Text) → One spec (feature name) c
      → Activates spec inner c
  One-local name inner found c (inl (e, q)) = cc (sym e ∙ found)
  One-local name inner found c (inr (other, e, a)) =
      subst (λ (l : List FeatureRef). Activates spec l c) (same (sym e ∙ found)) a
    where
      same : ◌≡◌ {A = Option (List FeatureRef)} (some other) (some inner) → other ≡ inner
      same q = cc q

  One-external :
      (name : Text)
      → Map.get name spec.features ≡ none
      → (c : Text) → One spec (feature name) c
      → c ≡ name
  One-external name found c (inl (e, q)) = q
  One-external name found c (inr (other, e, a)) = cc (sym e ∙ found)

  add_bare-Expands :
      (rec : List FeatureRef → Resolution → Option Resolution)
      → ExpandsAll rec
      → (name : Text) (o : Option (List FeatureRef)) (st : Resolution)
      → Map.get name spec.features ≡ o
      → OnPath spec st.visiting (feature name ∷ [])
      → Expands spec (One spec (feature name)) st (add_bare spec rec name o st)
  unfolding add_bare
  add_bare-Expands rec h name none st found on = (
    refl,
    Adds-map spec _ _ st.result _ (λ c q. inl (found, q)) (One-external name found)
        (add_dep-Adds spec name none st.result),
  )
  add_bare-Expands rec h name (some inner) st found on =
      elim (Bool-cases (Set.contains name st.visiting)) [
        | inl old ↦ absurd (
            acyclic name
              (on name name old (inl refl) (Map.get-contains_key name spec.features found)))
        | inr new ↦ rw new (
            left_again new (rec inner (record st { visiting = Set.insert name st.visiting })) (
              h inner (record st { visiting = Set.insert name st.visiting })
                (on_inner st.visiting name inner on found)))
      ]
    where
      left_again :
          Set.contains name st.visiting ≡ false
          → (r : Option Resolution)
          → Expands spec
              (Activates spec inner)
              (record st { visiting = Set.insert name st.visiting })
              r
          → Expands spec
              (One spec (feature name))
              st
              (r >>= λ st'. some (record st' { visiting = Set.remove name st'.visiting }))
      left_again new none g = tt
      left_again new (some st') g = (
        ap (Set.remove name) g.0 ∙ Set.remove-insert name st.visiting new,
        Adds-map spec _ _ st.result _ (λ c a. inr (inner, found, a)) (One-local name inner found)
            g.1,
      )

  add_ref-Expands :
      (rec : List FeatureRef → Resolution → Option Resolution)
      → ExpandsAll rec
      → (r : FeatureRef) (st : Resolution) → OnPath spec st.visiting (r ∷ [])
      → Expands spec (One spec r) st (add_ref spec rec r st)
  unfolding add_ref
  add_ref-Expands rec h (feature name) st on = add_bare-Expands rec h name _ st refl on
  add_ref-Expands rec h (dep name) st on = (refl, add_dep-Adds spec name none st.result)
  add_ref-Expands rec h (dep_feature d f true) st on = (refl, Adds-none spec _ st.result (λ c x. x))
  add_ref-Expands rec h (dep_feature d f false) st on =
      (refl, add_dep-Adds spec d (some f) st.result)

  split_first :
      (r : FeatureRef) (rs : List FeatureRef) (c : Text)
      → Activates spec (r ∷ rs) c
      → One spec r c ⊎ Activates spec rs c
  split_first r rs c a =
      let (x, m, o) = Activates-One spec a in
      elim m [
        | inl e ↦ inl (subst (λ (y : FeatureRef). One spec y c) e o)
        | inr later ↦ inr (One-Activates spec x later o)
      ]

  weaken :
      (r : FeatureRef) (rs : List FeatureRef) (c : Text)
      → Activates spec rs c
      → Activates spec (r ∷ rs) c
  weaken r rs c a = let (x, m, o) = Activates-One spec a in One-Activates spec x (inr m) o

  add_refs-Expands :
      (rec : List FeatureRef → Resolution → Option Resolution)
      → ExpandsAll rec
      → ExpandsAll (add_refs spec rec)
  unfolding add_refs
  add_refs-Expands rec h [] st on =
      (refl, Adds-none spec _ st.result (λ c a. (Activates-One spec a).1))
  add_refs-Expands rec h (r ∷ rs) st on =
      Expands-map spec (λ c. One spec r c ⊎ Activates spec rs c) (Activates spec (r ∷ rs)) st _
        (λ c. elim [ inl o ↦ One-Activates spec r (inl refl) o | inr a ↦ weaken r rs c a ])
        (split_first r rs)
        (bind-Expands spec (One spec r) (Activates spec rs) st (add_ref spec rec r st)
          (add_refs spec rec rs)
          (add_ref-Expands rec h r st (λ v b there m. on v b there (first m)))
          λ st' same. add_refs-Expands rec h rs st' λ v b there m.
            on v b (subst (λ (l : List Text). Set.contains v l ≡ true) same there) (inr m))
    where
      first : {b : Text} → feature b ∈ (r ∷ []) → feature b ∈ (r ∷ rs)
      first (inl e) = inl e
      first (inr none_left) = absurd none_left

  pub add_feature_crates-Expands : (fuel : ℕ) → ExpandsAll (add_feature_crates spec fuel)
  unfolding add_feature_crates
  add_feature_crates-Expands zero refs st on = tt
  add_feature_crates-Expands (suc fuel) refs st on =
      add_refs-Expands (add_feature_crates spec fuel) (add_feature_crates-Expands fuel) refs st on
