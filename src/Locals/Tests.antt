-- ===== src/Locals/Tests.antt =====
-- Small bodies, what locals.go makes of them, and the theorems at these inputs.
use function_hcl.Base.{
  ℕ, String, ◌≡◌, refl, ◌↔◌, false, Option, some, List, [], ◌∷◌, Dict, string_eq, lookup, insert,
}
use function_hcl.Hcl.{
  Ctx, Block, Diags, ok, has_variable, resolve, downgrade_diags, downgrade_diag, to_error_diag,
  cycle_found, error,
}
use function_hcl.Hcl.Sample.{sample, SampleExpr, plus}
use function_hcl.Locals.{
  EvalState, Locals, push, remove, collect_locals, collect_attrs, compute_deps, expr_deps,
  finish_local, eval_deps, eval_local, eval_names, eval, evaluate, locals_attributes, process,
}
use function_hcl.Locals.Evaluate.{Solves}
use function_hcl.Locals.Process.{declarations, process_total, process-Solves}
use function_hcl.Locals.Cycles.{Below, eval-cyclic_iff}

program : Unit {0}
unfolding process evaluate eval eval_names eval_local eval_deps finish_local expr_deps compute_deps
    collect_attrs collect_locals locals_attributes push remove has_variable resolve downgrade_diags
    downgrade_diag to_error_diag lookup insert string_eq
program = tt

abbrev parent : Ctx (Option ℕ)
parent = (("req", some 40) ∷ []) ∷ []

abbrev locals_block : Dict String SampleExpr → Block (Dict String SampleExpr)
locals_block attrs = record { type = "locals"; labels = []; body = attrs }

-- Two blocks; `b` stands before its dependency `a`.
abbrev blocks : List (Block (Dict String SampleExpr))
blocks =
    locals_block (("b", plus "a" 1) ∷ [])
    ∷ locals_block (("a", plus "req" 1) ∷ ("c", plus "b" 10) ∷ [])
    ∷ []

abbrev child : Ctx (Option ℕ)
child = (("a", some 41) ∷ ("b", some 42) ∷ ("c", some 52) ∷ []) ∷ parent

process_runs : process sample parent blocks ≡ some (some child, [])
unfolding program
process_runs = refl

process_total_example :
    (r : Option (Ctx (Option ℕ)) × Diags) × (process sample parent blocks ≡ some r)
process_total_example = process_total sample parent blocks

process-Solves_example : Solves sample parent (declarations sample blocks) child
process-Solves_example = process-Solves sample parent blocks child [] process_runs refl

abbrev declared : Locals sample
declared =
    ("x", record { expr = plus "y" 1; deps = [] })
    ∷ ("y", record { expr = plus "x" 2; deps = [] })
    ∷ []

abbrev circular : Locals sample
circular =
    ("x", record { expr = plus "y" 1; deps = "y" ∷ [] })
    ∷ ("y", record { expr = plus "x" 2; deps = "x" ∷ [] })
    ∷ []

circular_deps : compute_deps sample parent declared declared ≡ ok circular
unfolding program
circular_deps = refl

eval-cyclic_iff_example :
    (r : EvalState (Option ℕ) × Diags) × (eval sample parent circular ≡ some r)
    × ((sample.has_errors r.1 ≡ false) ↔ ((x : String) → ¬ Below sample circular parent x x))
eval-cyclic_iff_example = eval-cyclic_iff sample parent declared circular circular_deps

circular_reported :
    evaluate sample parent ((("x", plus "y" 1) ∷ ("y", plus "x" 2) ∷ []) ∷ [])
    ≡ some (
      some ([] ∷ parent),
      record { severity = error; summary = cycle_found ("x" ∷ "y" ∷ "x" ∷ []) } ∷ [],
    )
unfolding program
circular_reported = refl
