-- ===== src/Evaluator/Severity.antt =====
-- sortDiagsBySeverity of function/internal/evaluator/utils.go.
use function_hcl.Base.{◌≡◌, refl, Bool, true, false, [], ◌∷◌, ◌++◌, if◌then◌else◌, arith}
use function_hcl.Hcl.{
  Hcl, Diag, Diags, Severity, invalid, error, warning, any_error, any_error-append,
}

-- The diagnostics of a severity, in their order.
unfoldable pub of_severity : (Severity → Bool) → Diags → Diags
of_severity test [] = []
of_severity test (d ∷ ds) =
    let rest = of_severity test ds in if test d.severity then d ∷ rest else rest

-- sortDiagsBySeverity: a stable sort by the numbers of the severities.
unfoldable pub sort_diags_by_severity : Diags → Diags
unfolding of_severity
sort_diags_by_severity ds =
    of_severity (λ s. elim s [ invalid ↦ true | _ ↦ false ]) ds
    ++ (of_severity (λ s. elim s [ error ↦ true | _ ↦ false ]) ds
        ++ of_severity (λ s. elim s [ warning ↦ true | _ ↦ false ]) ds)

abbrev errors_of : Diags → Diags
errors_of = of_severity (λ s. elim s [ error ↦ true | _ ↦ false ])

any_error-cons :
    (s : Severity) (d : Diag) (ds : Diags)
    → d.severity ≡ s
    → any_error (errors_of ds) ≡ any_error ds
    → any_error (errors_of (d ∷ ds)) ≡ any_error (d ∷ ds)
unfolding of_severity
any_error-cons error d ds q later = ground (arith, q)
any_error-cons invalid d ds q later = ground (arith, q, later)
any_error-cons warning d ds q later = ground (arith, q, later)

any_error-errors_of : (ds : Diags) → any_error (errors_of ds) ≡ any_error ds
unfolding of_severity
any_error-errors_of [] = refl
any_error-errors_of (d ∷ ds) = any_error-cons d.severity d ds refl (any_error-errors_of ds)

others-cons :
    (s : Severity) (d : Diag) (ds : Diags)
    → d.severity ≡ s
    → (any_error (of_severity (λ s. elim s [ invalid ↦ true | _ ↦ false ]) ds) ≡ false)
      × (any_error (of_severity (λ s. elim s [ warning ↦ true | _ ↦ false ]) ds) ≡ false)
    → (any_error (of_severity (λ s. elim s [ invalid ↦ true | _ ↦ false ]) (d ∷ ds)) ≡ false)
      × (any_error (of_severity (λ s. elim s [ warning ↦ true | _ ↦ false ]) (d ∷ ds)) ≡ false)
unfolding of_severity
others-cons error d ds q (a, b) = (ground (arith, q, a), ground (arith, q, b))
others-cons invalid d ds q (a, b) = (ground (arith, q, a), ground (arith, q, b))
others-cons warning d ds q (a, b) = (ground (arith, q, a), ground (arith, q, b))

others-no_error :
    (ds : Diags)
    → (any_error (of_severity (λ s. elim s [ invalid ↦ true | _ ↦ false ]) ds) ≡ false)
      × (any_error (of_severity (λ s. elim s [ warning ↦ true | _ ↦ false ]) ds) ≡ false)
unfolding of_severity
others-no_error [] = (refl, refl)
others-no_error (d ∷ ds) = others-cons d.severity d ds refl (others-no_error ds)

-- Sorting adds and hides no error.
pub has_errors-sort :
    (H : Hcl) (ds : Diags) → H.has_errors (sort_diags_by_severity ds) ≡ H.has_errors ds
unfolding sort_diags_by_severity
has_errors-sort H ds =
    let invalids = of_severity (λ s. elim s [ invalid ↦ true | _ ↦ false ]) ds in
    let warnings = of_severity (λ s. elim s [ warning ↦ true | _ ↦ false ]) ds in
    ground (
      arith,
      H.has_errors_lem (sort_diags_by_severity ds),
      H.has_errors_lem ds,
      any_error-append invalids (errors_of ds ++ warnings),
      any_error-append (errors_of ds) warnings,
      any_error-errors_of ds,
      others-no_error ds,
    )

pub sort_clean :
    (H : Hcl) (ds : Diags)
    → H.has_errors (sort_diags_by_severity ds) ≡ false
    → H.has_errors ds ≡ false
sort_clean H ds clean = rw (← has_errors-sort H ds) clean
