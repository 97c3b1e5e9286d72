-- ===== src/Manifest/Check/Tests.antt =====
-- Reports about an example pack, as instances of the laws.
use battery_pack.Prelude.{
  ◌≡◌, ◌⊎◌, ◌↔◌, refl, true, false, text_eq, text_cmp, ends_with, some, ok, err,
}
use battery_pack.Prelude.Map.{get, contains_key, keys}
use battery_pack.Manifest.Types.{Error}
use battery_pack.Manifest.Example.{pack, cyclic}
use battery_pack.Manifest.Report.{has_errors, warning}
use battery_pack.Manifest.Validate.{validate, valid_name, reference_resolves}
use battery_pack.Manifest.Validate.Cyclic.{IsCycle}
use battery_pack.Manifest.Check.{
  check_name, check_keyword, check_repository, check_ref, check_feature, validate_categories,
  validate_spec,
}
use battery_pack.Manifest.Check.Rules.{BreaksRule, validate_spec_iff}
use battery_pack.Manifest.Check.Agrees.{validate_spec-validate}

validate_spec_iff_example : (has_errors (validate_spec pack) ≡ true) ↔ BreaksRule pack
validate_spec_iff_example = validate_spec_iff pack

cyclic-no_error : has_errors (validate_spec cyclic) ≡ false
unfolding has_errors warning validate_spec check_name check_keyword check_repository check_ref
    check_feature validate_categories valid_name reference_resolves text_eq text_cmp ends_with get
    contains_key keys
cyclic-no_error = refl

validate_spec-validate_example :
    (validate cyclic ≡ some (ok tt))
    ⊎ ((e : Error) × (validate cyclic ≡ some (err e)) × IsCycle cyclic e)
validate_spec-validate_example = validate_spec-validate cyclic cyclic-no_error
