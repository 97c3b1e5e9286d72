-- ===== src/Manifest/Report.antt =====
-- src/battery-pack/bphelper-manifest/src/lib.rs: diagnostics, and the report that collects them.
use battery_pack.Prelude.{
  ◌≡◌, refl, Text, List, [], ◌∷◌, ◌++◌, any, for_each, Bool, true, false, ◌||◌,
}
use battery_pack.Prelude.{arith}

pub data Severity : Type 0 where
  severe warn : Severity

pub record Diagnostic : Type 0 where
  pub severity : Severity
  pub rule : Text
  pub message : Text

pub record ValidationReport : Type 0 where
  pub diagnostics : List Diagnostic

abbrev pub empty_report : ValidationReport
empty_report = record { diagnostics = [] }

abbrev pub is_severe : Severity → Bool
is_severe severe = true
is_severe warn = false

unfoldable pub has_errors : ValidationReport → Bool
has_errors r = any (λ d. is_severe d.severity) r.diagnostics

unfoldable pub is_clean : ValidationReport → Bool
is_clean r = elim r.diagnostics [ [] ↦ true | d ∷ ds ↦ false ]

unfoldable pub merge : ValidationReport → ValidationReport → ValidationReport
merge r other = record { diagnostics = r.diagnostics ++ other.diagnostics }

unfoldable pub error : Text → Text → ValidationReport → ValidationReport
error rule message r = record {
  diagnostics = r.diagnostics ++ record { severity = severe; rule = rule; message = message } ∷ [];
}

unfoldable pub warning : Text → Text → ValidationReport → ValidationReport
warning rule message r = record {
  diagnostics = r.diagnostics ++ record { severity = warn; rule = rule; message = message } ∷ [];
}

any-append :
    {A : Type 0} (p : A → Bool) (xs ys : List A) → any p (xs ++ ys) ≡ (any p xs || any p ys)
any-append p [] ys = refl
any-append p (x ∷ xs) ys = ground (arith, any-append p xs ys)

pub has_errors-error :
    (rule message : Text) (r : ValidationReport) → has_errors (error rule message r) ≡ true
unfolding has_errors error
has_errors-error rule message r = ground (
  arith,
  any-append (λ (d : Diagnostic). is_severe d.severity) r.diagnostics
      (record { severity = severe; rule = rule; message = message } ∷ []),
)

pub has_errors-warning :
    (rule message : Text) (r : ValidationReport)
    → has_errors (warning rule message r) ≡ has_errors r
unfolding has_errors warning
has_errors-warning rule message r = ground (
  arith,
  any-append (λ (d : Diagnostic). is_severe d.severity) r.diagnostics
      (record { severity = warn; rule = rule; message = message } ∷ []),
)

-- Merging loses no diagnostic: the merged report has an error exactly when one of the two has.
pub has_errors-merge :
    (r other : ValidationReport) → has_errors (merge r other) ≡ (has_errors r || has_errors other)
unfolding has_errors merge
has_errors-merge r other = any-append (λ d. is_severe d.severity) r.diagnostics other.diagnostics

-- A loop whose rounds each report an error exactly when their item is bad.
pub has_errors-for_each :
    {A : Type 0} (step : A → ValidationReport → ValidationReport) (bad : A → Bool)
    → ((a : A) (r : ValidationReport) → has_errors (step a r) ≡ (has_errors r || bad a))
    → (xs : List A) (r : ValidationReport)
    → has_errors (for_each step xs r) ≡ (has_errors r || any bad xs)
has_errors-for_each step bad h [] r = ground arith
has_errors-for_each step bad h (x ∷ xs) r =
    ground (arith, has_errors-for_each step bad h xs (step x r), h x r)
