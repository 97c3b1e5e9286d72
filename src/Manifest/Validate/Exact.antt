-- ===== src/Manifest/Validate/Exact.antt =====
-- What `validate` accepts, and which error it gives.
use battery_pack.Prelude.{sym, ◌∙◌, ap, subst, inl, inr, ◌≡◌, ◌↔◌, ◌⊎◌, refl, Text, ◌∈◌, arith}
use battery_pack.Prelude.{true, false, none, some, List, [], ◌∷◌, Bool-cases}
use battery_pack.Prelude.{ok, err}
use battery_pack.Prelude.Map
use battery_pack.Prelude.Map.{Map, keys, contains_key}
use battery_pack.FeatureRef.{FeatureRef, feature, dep, dep_feature, dep_name}
use battery_pack.Manifest.Types.{
  Error, BatteryPackSpec, feature_cycle, invalid_name, unknown_crate_in_feature,
}
use battery_pack.Manifest.Validate.{
  Run, ◌>>◌, reference_resolves, check_refs, check_features, walk_fuel, validate_features,
  valid_name, validate,
}
use battery_pack.Manifest.Validate.Total.{validate-total}
use battery_pack.Manifest.Validate.Graph.{Leads, Ends, first, Ends-no_cycle}
use battery_pack.Manifest.Validate.Acyclic.{walk_ok-Ends}
use battery_pack.Manifest.Validate.Cyclic.{IsCycle, IsCycle-Leads, walk_err-IsCycle}

module _ (spec : BatteryPackSpec) where
  -- The target of the reference is declared.
  abbrev pub Resolves : FeatureRef → Type 0
  Resolves (feature name) = (name ∈ keys spec.crates) ⊎ (name ∈ keys spec.features)
  Resolves (dep name) = name ∈ keys spec.crates
  Resolves (dep_feature name f weak) = name ∈ keys spec.crates

  pub record IsSound : Type 0 where
    pub named : valid_name spec.name ≡ true
    pub resolved :
        (f : Text) (refs : List FeatureRef) (r : FeatureRef)
        → (f, refs) ∈ spec.features
        → r ∈ refs
        → Resolves r
    pub acyclic : (n : Text) → ¬ Leads spec n n

  pub reference_resolves_iff : (r : FeatureRef) → (reference_resolves spec r ≡ true) ↔ Resolves r
  unfolding reference_resolves
  reference_resolves_iff (feature name) = (
    λ e. ground (
      arith,
      Map.mem_keys-contains_key name spec.crates,
      Map.mem_keys-contains_key name spec.features,
    ),
    λ h. ground (
      arith,
      Map.contains_key-mem_keys name spec.crates,
      Map.contains_key-mem_keys name spec.features,
    ),
  )
  reference_resolves_iff (dep name) =
      (Map.mem_keys-contains_key name spec.crates, Map.contains_key-mem_keys name spec.crates)
  reference_resolves_iff (dep_feature name f weak) =
      (Map.mem_keys-contains_key name spec.crates, Map.contains_key-mem_keys name spec.crates)

  check_refs-resolved :
      (name : Text) (refs : List FeatureRef)
      → check_refs spec name refs ≡ some (ok tt)
      → (r : FeatureRef) → r ∈ refs
      → Resolves r
  unfolding check_refs
  check_refs-resolved name [] e r m = absurd m
  check_refs-resolved name (x ∷ refs) e r m = elim (Bool-cases (reference_resolves spec x)) [
    | inl good ↦ elim m [
      | inl same ↦ subst Resolves (sym same) ((reference_resolves_iff x).0 good)
      | inr later ↦ check_refs-resolved name refs (rw good at e) r later
    ]
    | inr bad ↦ absurd (cc (rw bad at e))
  ]

  resolved-check_refs :
      (name : Text) (refs : List FeatureRef)
      → ((r : FeatureRef) → r ∈ refs → Resolves r)
      → check_refs spec name refs ≡ some (ok tt)
  unfolding check_refs
  resolved-check_refs name [] h = refl
  resolved-check_refs name (x ∷ refs) h =
      rw ((reference_resolves_iff x).1 (h x (inl refl)))
        (resolved-check_refs name refs (λ r m. h r (inr m)))

  abbrev AllResolve : Map (List FeatureRef) → Type 0
  AllResolve m =
      (f : Text) (refs : List FeatureRef) (r : FeatureRef) → (f, refs) ∈ m → r ∈ refs → Resolves r

  both_ok :
      (r s : Run (Unit {0})) → (r >> s) ≡ some (ok tt) → (r ≡ some (ok tt)) × (s ≡ some (ok tt))
  both_ok none s e = absurd (cc e)
  both_ok (some (err x)) s e = absurd (cc e)
  both_ok (some (ok u)) s e = (refl, e)

  check_features-resolved :
      (m : Map (List FeatureRef)) → check_features spec m ≡ some (ok tt) → AllResolve m
  unfolding check_features
  check_features-resolved [] e f refs r at_f m = absurd at_f
  check_features-resolved ((name, xs) ∷ rest) e f refs r at_f m =
      let (head, tail) = both_ok (check_refs spec name xs) (check_features spec rest) e in
      elim at_f [
        | inl same ↦
            check_refs-resolved name xs head r
              (subst (λ (p : Text × List FeatureRef). r ∈ p.1) same m)
        | inr later ↦ check_features-resolved rest tail f refs r later m
      ]

  resolved-check_features :
      (m : Map (List FeatureRef)) → AllResolve m → check_features spec m ≡ some (ok tt)
  unfolding check_features
  resolved-check_features [] h = refl
  resolved-check_features ((name, xs) ∷ rest) h =
      rw (resolved-check_refs name xs (λ r m. h name xs r (inl refl) m))
        (resolved-check_features rest (λ f refs r at_f m. h f refs r (inr at_f) m))

  Ends-acyclic : ((k : Text) → k ∈ keys spec.features → Ends spec k) → (n : Text) → ¬ Leads spec n n
  Ends-acyclic h n p =
      let (b, e, more) = first spec p in
      Ends-no_cycle spec (h n (Map.get-mem_keys n spec.features e.found)) p

  validate_features-IsSound :
      valid_name spec.name ≡ true → validate_features spec ≡ some (ok tt) → IsSound
  unfolding validate_features
  validate_features-IsSound named e =
      let (refs, walk) = both_ok (check_features spec spec.features) _ e in
      record {
        named = named;
        resolved = check_features-resolved spec.features refs;
        acyclic = Ends-acyclic (walk_ok-Ends spec (walk_fuel spec) walk);
      }

  -- What is wrong, by the error that is given.
  abbrev pub Explains : Error → Type 0
  Explains (invalid_name name) = (name ≡ spec.name) × (valid_name name ≡ false)
  Explains (unknown_crate_in_feature f name) =
      (refs : List FeatureRef) × (r : FeatureRef) × ((f, refs) ∈ spec.features)
      × (r ∈ refs)
      × (name ≡ dep_name r)
      × (¬ Resolves r)
  Explains (feature_cycle path) = IsCycle spec (feature_cycle path)
  Explains _ = ⊥

  -- The reference that made the check of a feature fail.
  abbrev Unresolved : Text → List FeatureRef → Error → Type 0
  Unresolved name refs e =
      (r : FeatureRef) × (r ∈ refs)
      × (e ≡ unknown_crate_in_feature name (dep_name r))
      × (¬ Resolves r)

  check_refs-Unresolved :
      (name : Text) (refs : List FeatureRef) (e : Error)
      → check_refs spec name refs ≡ some (err e)
      → Unresolved name refs e
  unfolding check_refs
  check_refs-Unresolved name [] e failed = absurd (cc failed)
  check_refs-Unresolved name (x ∷ refs) e failed = elim (Bool-cases (reference_resolves spec x)) [
    | inl good ↦
        let (r, m, q, no_target) = check_refs-Unresolved name refs e (rw good at failed) in
        (r, inr m, q, no_target)
    | inr bad ↦ (
      x,
      inl refl,
      same_error (rw bad at failed),
      λ h. cc (sym bad ∙ (reference_resolves_iff x).1 h),
    )
  ]
    where
      same_error :
          ◌≡◌ {A = Run (Unit {0})}
            (some (err (unknown_crate_in_feature name (dep_name x))))
            (some (err e))
          → e ≡ unknown_crate_in_feature name (dep_name x)
      same_error q = cc q

  either_err :
      (r s : Run (Unit {0})) (e : Error)
      → (r >> s) ≡ some (err e)
      → (r ≡ some (err e)) ⊎ (r ≡ some (ok tt)) × (s ≡ some (err e))
  either_err none s e q = absurd (cc q)
  either_err (some (err x)) s e q = inl q
  either_err (some (ok u)) s e q = inr (refl, q)

  check_features-Explains :
      (m : Map (List FeatureRef)) (e : Error)
      → ((f : Text) (refs : List FeatureRef) → (f, refs) ∈ m → (f, refs) ∈ spec.features)
      → check_features spec m ≡ some (err e)
      → Explains e
  unfolding check_features
  check_features-Explains [] e sub failed = absurd (cc failed)
  check_features-Explains ((name, xs) ∷ rest) e sub failed =
      elim (either_err (check_refs spec name xs) (check_features spec rest) e failed) [
        | inl here ↦
            let (r, m, q, no_target) = check_refs-Unresolved name xs e here in
            subst Explains (sym q) (xs, r, sub name xs (inl refl), m, refl, no_target)
        | inr (_, later) ↦ check_features-Explains rest e (λ f refs m. sub f refs (inr m)) later
      ]

  validate_features-Explains : (e : Error) → validate_features spec ≡ some (err e) → Explains e
  unfolding validate_features
  validate_features-Explains e failed =
      elim (either_err (check_features spec spec.features) _ e failed) [
        | inl refs ↦ check_features-Explains spec.features e (λ f refs m. m) refs
        | inr (_, walk) ↦
            let c = walk_err-IsCycle spec (walk_fuel spec) (keys spec.features) _ e refl walk in
            subst Explains (sym c.printed) (subst (IsCycle spec) c.printed c)
      ]

  -- An error names what is wrong: a name that is not accepted, a reference of a feature whose target
  -- is not declared, or a path of features, each of which lists the next one, that ends in one that
  -- is on it already.
  pub validate-Explains : (e : Error) → validate spec ≡ some (err e) → Explains e
  unfolding validate
  validate-Explains e failed = elim (Bool-cases (valid_name spec.name)) [
    | inl good ↦ validate_features-Explains e (rw good at failed)
    | inr bad ↦ subst Explains (bad_name (rw bad at failed)) (refl, bad)
  ]
    where
      bad_name :
          ◌≡◌ {A = Run (Unit {0})} (some (err (invalid_name spec.name))) (some (err e))
          → invalid_name spec.name ≡ e
      bad_name q = cc q

  Explains-unsound : (e : Error) → Explains e → ¬ IsSound
  Explains-unsound (invalid_name name) (same, bad) s = cc (sym bad ∙ ap valid_name same ∙ s.named)
  Explains-unsound (unknown_crate_in_feature f name) (refs, r, at_f, m, q, no_target) s =
      no_target (s.resolved f refs r at_f m)
  Explains-unsound (feature_cycle path) c s = s.acyclic c.node (IsCycle-Leads spec c)
  Explains-unsound (Error.toml m) x s = x
  Explains-unsound (Error.missing_field m) x s = x
  Explains-unsound (Error.feature_ref_parse f r m) x s = x
  Explains-unsound (Error.io p m) x s = x
  Explains-unsound (Error.metadata m) x s = x
  Explains-unsound (Error.metadata_decode p m) x s = x

  validate-IsSound : validate spec ≡ some (ok tt) → IsSound
  unfolding validate
  validate-IsSound e = elim (Bool-cases (valid_name spec.name)) [
    | inl good ↦ validate_features-IsSound good (rw good at e)
    | inr bad ↦ absurd (cc (rw bad at e))
  ]

  IsSound-validate : (r : Run (Unit {0})) → validate spec ≡ r → IsSound → r ≡ some (ok tt)
  IsSound-validate none e s = absurd (validate-total spec e)
  IsSound-validate (some (err x)) e s = absurd (Explains-unsound x (validate-Explains x e) s)
  IsSound-validate (some (ok u)) e s = refl

-- A battery pack is accepted exactly when its name is `battery-pack` or ends in `-battery-pack`,
-- every reference of every feature has a declared target, and no local feature leads back to itself.
pub validate_iff : (spec : BatteryPackSpec) → (validate spec ≡ some (ok tt)) ↔ IsSound spec
validate_iff spec = (validate-IsSound spec, IsSound-validate spec (validate spec) refl)
