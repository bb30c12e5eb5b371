-- ===== src/Evaluator/Evaluate/Tests.antt =====
-- An evaluation of a file for an empty request, and an instance of the theorem.
use function_hcl.Base.{
  ℕ, ◌≡◌, refl, Option, none, some, List, [], ◌∷◌, String, lookup, insert, string_eq, nat_eq,
}
use mathlib.Core.Option
use function_hcl.Hcl.{
  Diags, Summary, external, report, resolve, has_variable, downgrade_diags, downgrade_diag,
}
use function_hcl.Hcl.Traversal.{is_identifier}
use function_hcl.Json.{Json, get}
use function_hcl.Locals.{
  process, locals_attributes, evaluate, collect_locals, collect_attrs, compute_deps, expr_deps,
  eval, eval_names, eval_local, eval_deps, finish_local, push, sub_path, remove,
}
use function_hcl.Evaluator.{Evaluator, new_evaluator, modify, pure, gets, present, ◌>>=◌, ◌>>◌}
use function_hcl.Evaluator.Common.{create_self_child_context, extract_symbol_table, insert_all}
use function_hcl.Evaluator.Resources.{process_resource}
use function_hcl.Evaluator.Response.{Ranges, Located}
use function_hcl.Evaluator.Run.{Evaluated, diagnosed}
use function_hcl.Evaluator.Sample.{tree_hcl, tree_cty}
use function_hcl.Evaluator.Sample.Files.{syntax, bare, wire, accepted}
use function_hcl.Evaluator.Analyzer.Bodies.{empty_request}
use function_hcl.Evaluator.Evaluate.{Outcome, do_eval, do_eval-Outcome}

abbrev summary_of : Summary → String
summary_of (external s) = s
summary_of (report s args) = s
summary_of _ = ""

abbrev locate : Diags → List (Located ℕ)
locate [] = []
locate (d ∷ ds) = record { diag = d; subject = some 1; context = none } ∷ locate ds

abbrev ranges : Ranges
ranges = record {
  Range = ℕ;
  range_eq = nat_eq;
  zero_range = 0;
  summary_text = summary_of;
  locate = locate;
  arrange = λ ds. ds;
  count-arrange = λ p ds. refl;
}

abbrev evaluation : Option (Evaluated (Located ℕ) × Evaluator (Option Json))
evaluation =
    do_eval tree_hcl tree_cty syntax wire bare ranges 9 (accepted ∷ []) empty_request new_evaluator

abbrev result_of : Option (Evaluated (Located ℕ) × Evaluator (Option Json)) → Evaluated (Located ℕ)
result_of (some (result, e)) = result
result_of none = diagnosed []

abbrev end_of : Option (Evaluated (Located ℕ) × Evaluator (Option Json)) → Evaluator (Option Json)
end_of (some (result, e)) = e
end_of none = new_evaluator

evaluation_lem : evaluation ≡ some (result_of evaluation, end_of evaluation)
unfolding do_eval ◌>>=◌ get string_eq ◌>>◌ modify pure process locals_attributes evaluate
    collect_locals present lookup process_resource gets new_evaluator insert has_variable
    collect_attrs compute_deps expr_deps eval eval_names eval_local eval_deps finish_local push
    sub_path remove downgrade_diags downgrade_diag create_self_child_context extract_symbol_table
    insert_all is_identifier Option.bind resolve
evaluation_lem = refl

do_eval-Outcome_example :
    Outcome tree_hcl tree_cty syntax wire bare ranges (end_of evaluation) (result_of evaluation)
do_eval-Outcome_example =
    do_eval-Outcome tree_hcl tree_cty syntax wire bare ranges 9 (accepted ∷ []) empty_request
      (result_of evaluation) (end_of evaluation) evaluation_lem
