-- ===== src/Manifest/Check/Agrees.antt =====
-- The report of `validate_spec` beside the check of `validate`.
use battery_pack.Prelude.{any, ◌≡◌, refl, sym, ◌∙◌, ap, ◌⊎◌, inl, inr, arith, Bool-cases, any-true}
use battery_pack.Prelude.{true, false, not, none, some, ok, err}
use battery_pack.FeatureRef.{FeatureRef}
use battery_pack.Manifest.Types.{
  Error, BatteryPackSpec, invalid_name, unknown_crate_in_feature, feature_cycle,
}
use battery_pack.Manifest.Report.{has_errors}
use battery_pack.Manifest.Validate.{Run, validate, valid_name, reference_resolves}
use battery_pack.Manifest.Validate.Total.{validate-total}
use battery_pack.Manifest.Validate.Cyclic.{IsCycle}
use battery_pack.Manifest.Validate.Exact.{
  Resolves, Explains, reference_resolves_iff, validate-Explains,
}
use battery_pack.Manifest.Check.{validate_spec}
use battery_pack.Manifest.Check.Errors.{
  dangles, has_dangling, breaks_rule, has_errors-validate_spec,
}

module _ (spec : BatteryPackSpec) (no_error : has_errors (validate_spec spec) ≡ false) where
  rules_kept : breaks_rule spec ≡ false
  rules_kept = sym (has_errors-validate_spec spec) ∙ no_error

  name_kept : valid_name spec.name ≡ true
  name_kept = ground (arith, rules_kept)

  refs_kept : any (has_dangling spec) spec.features ≡ false
  refs_kept = ground (arith, rules_kept)

  dangles-Resolves : (r : FeatureRef) → ¬ Resolves spec r → dangles spec r ≡ true
  unfolding dangles
  dangles-Resolves r h = elim (Bool-cases (reference_resolves spec r)) [
    | inl good ↦ absurd (h ((reference_resolves_iff spec r).0 good))
    | inr bad ↦ ap not bad
  ]

  Explains-IsCycle : (e : Error) → Explains spec e → IsCycle spec e
  Explains-IsCycle (invalid_name name) (same, bad) =
      absurd (cc (sym bad ∙ ap valid_name same ∙ name_kept))
  Explains-IsCycle (unknown_crate_in_feature f name) (refs, r, at_f, m, q, no_target) = absurd (
      cc (
        sym refs_kept
        ∙ any-true (has_dangling spec) spec.features at_f
            (any-true (dangles spec) refs m (dangles-Resolves r no_target))))
  Explains-IsCycle (feature_cycle path) c = c
  Explains-IsCycle (Error.toml m) x = absurd x
  Explains-IsCycle (Error.missing_field m) x = absurd x
  Explains-IsCycle (Error.feature_ref_parse f r m) x = absurd x
  Explains-IsCycle (Error.io p m) x = absurd x
  Explains-IsCycle (Error.metadata m) x = absurd x
  Explains-IsCycle (Error.metadata_decode p m) x = absurd x

  outcome :
      (r : Run (Unit {0}))
      → validate spec ≡ r
      → (r ≡ some (ok tt)) ⊎ ((e : Error) × (r ≡ some (err e)) × IsCycle spec e)
  outcome none q = absurd (validate-total spec q)
  outcome (some (ok u)) q = inl refl
  outcome (some (err e)) q = inr (e, refl, Explains-IsCycle e (validate-Explains spec e q))

  -- Of a battery pack about which `validate_spec` reports no error, `validate` can only say that its
  -- features have a cycle.
  pub validate_spec-validate :
      (validate spec ≡ some (ok tt))
      ⊎ ((e : Error) × (validate spec ≡ some (err e)) × IsCycle spec e)
  validate_spec-validate = outcome (validate spec) refl
