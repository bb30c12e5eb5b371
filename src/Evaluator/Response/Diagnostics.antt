-- ===== src/Evaluator/Response/Diagnostics.antt =====
-- addDiagnosticsInfo of function/internal/evaluator/eval.go.
use function_hcl.Base.{
  Bool, true, false, ◌&&◌, none, some, List, [], ◌∷◌, ◌++◌, length, ◌==◌, if◌then◌else◌, string_eq,
}
use function_hcl.Hcl.{Severity, invalid, error, warning}
use function_hcl.Evaluator.Variables.{any}
use function_hcl.Evaluator.Response.{
  Ranges, Located, Response, Report, Condition, severity_warning, severity_normal, hcl_diagnostics,
  condition_true, condition_false, warnings, no_warnings, counted_warnings, counted_none,
}

abbrev pub same_severity : Severity → Severity → Bool
same_severity invalid invalid = true
same_severity error error = true
same_severity warning warning = true
same_severity _ _ = false

-- `severity == hcl.DiagWarning`
abbrev pub is_warning : {Range : Type 0} → Located Range → Bool
is_warning d = same_severity d.diag.severity warning

-- The result and the condition of addDiagnosticsInfo for some summaries of warnings.
unfoldable pub summaries_result : {D : Type 0} → List D → Report D
summaries_result [] = record {
  severity = severity_normal;
  message = no_warnings;
  reason = hcl_diagnostics;
}
summaries_result (d ∷ ds) = record {
  severity = severity_warning;
  message = warnings (d ∷ ds);
  reason = hcl_diagnostics;
}

unfoldable pub summaries_condition : {D : Type 0} → List D → Condition D
summaries_condition [] = record {
  type = "HclDiagnostics";
  status = condition_true;
  reason = "Eval";
  message = counted_none;
}
summaries_condition (d ∷ ds) = record {
  type = "HclDiagnostics";
  status = condition_false;
  reason = "Eval";
  message = counted_warnings (length (d ∷ ds)) (d ∷ ds);
}

module _ (R : Ranges) where
  open R use {Range, range_eq, zero_range, summary_text, arrange}

  -- The range of keyFor.
  abbrev key_range : Located Range → Range
  key_range d = elim d.subject [
    | some r ↦ r
    | none ↦ elim d.context [ none ↦ zero_range | some r ↦ r ]
  ]

  -- `keyFor(a) == keyFor(b)`
  abbrev pub same_key : Located Range → Located Range → Bool
  same_key a b =
      same_severity a.diag.severity b.diag.severity
      && ◌==◌ ⦃e = range_eq⦄ (key_range a) (key_range b)
      && summary_text a.diag.summary == summary_text b.diag.summary

  -- The loop that fills diagMap: the first diagnostic of each key.
  unfoldable pub first_of_keys : List (Located Range) → List (Located Range) → List (Located Range)
  first_of_keys [] found = found
  first_of_keys (d ∷ diags) found =
      first_of_keys diags (if any (same_key d) found then found else found ++ d ∷ [])

  -- The loop that collects the summaries of warnings.
  unfoldable pub summaries : List (Located Range) → List (Located Range)
  summaries [] = []
  summaries (d ∷ diags) = let rest = summaries diags in if is_warning d then d ∷ rest else rest

  -- addDiagnosticsInfo
  unfoldable pub add_diagnostics_info :
      Response (Located Range) → List (Located Range) → Response (Located Range)
  unfolding first_of_keys summaries summaries_result summaries_condition
  add_diagnostics_info ret diags =
      let warned = summaries (arrange (first_of_keys diags [])) in
      record ret {
        results = ret.results ++ summaries_result warned ∷ [];
        conditions = ret.conditions ++ summaries_condition warned ∷ [];
      }
