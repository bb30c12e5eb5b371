-- ===== src/Evaluator/Tests.antt =====
-- Runs of the evaluator on a small composition, and instances of its theorems.
use function_hcl.Base.{
  ◌⊎◌, false, is_some, arith, ◌≡◌, refl, true, Option, none, some, [], ◌∷◌, ◌++◌, lookup, string_eq,
  insert,
}
use function_hcl.Hcl.{Diags, downgrade_diags}
use function_hcl.Locals.{process, locals_attributes, evaluate, collect_locals}
use function_hcl.Json.{Json, boolean, text, object, end, field}
use function_hcl.Evaluator.{
  Content, Evaluator, Selector, new_evaluator, resource, requirement, incomplete, ◌>>=◌, ◌>>◌,
  present, pure, gets, modify, discard,
}
use function_hcl.Evaluator.Groups.{process_group}
use function_hcl.Evaluator.Resources.{process_resource, add_resource}
use function_hcl.Evaluator.Sample.{
  Term, constant, Tree, tree, no_blocks, a_block, tree_hcl, tree_cty, tree_content,
}
use function_hcl.Evaluator.Schemas.{group_schema}
use function_hcl.Evaluator.Accounted.{Accounted, add_resource-Accounted}
use function_hcl.Evaluator.Fuel.{enough_fuel}
use function_hcl.Evaluator.Requirements.{Selection, record_selector, build_selector}
use function_hcl.Evaluator.Selectors.{waits, record_selector_lem}
use function_hcl.Evaluator.Frame.{Extends}
use function_hcl.Evaluator.Steps.Groups.{process_group-Extends}

-- A resource in a group, and one whose body is unknown.
abbrev composition : Tree
composition = tree [] (
    a_block "group" []
      (tree (("condition", constant (some (boolean true))) ∷ []) (
        a_block "resource" ("bucket" ∷ [])
          (tree (("body", constant (some (object (field "kind" (text "Bucket") end)))) ∷ [])
            no_blocks)
          no_blocks))
      (a_block "resource" ("queue" ∷ []) (tree (("body", constant none) ∷ []) no_blocks) no_blocks))

abbrev run : Option (Diags × Evaluator (Option Json))
run = process_group tree_hcl tree_cty 2 [] (tree_content composition) new_evaluator

abbrev after : Evaluator (Option Json)
after = record new_evaluator {
  desired_resources = ("bucket", field "kind" (text "Bucket") end) ∷ [];
  discards =
      record { type = resource; reason = incomplete; name = "queue"; context = "" ∷ [] } ∷ [];
}

run_lem : run ≡ some ([], after)
unfolding process_group ◌>>=◌ process locals_attributes string_eq evaluate collect_locals present
    pure lookup process_resource gets new_evaluator ◌>>◌ modify insert discard downgrade_diags
run_lem = refl

process_group-Extends_example : Extends new_evaluator after
process_group-Extends_example =
    process_group-Extends tree_hcl tree_cty 2 [] (tree_content composition) new_evaluator after []
      run_lem

-- A resource with an unknown body.
abbrev pending : Content Term Tree
pending = record { attributes = ("body", constant none) ∷ []; blocks = [] }

abbrev after_pending : Evaluator (Option Json)
after_pending = record new_evaluator {
  discards =
      record { type = resource; reason = incomplete; name = "queue"; context = "" ∷ [] } ∷ [];
}

pending_lem :
    add_resource tree_hcl tree_cty [] "queue" pending [] new_evaluator ≡ some ([], after_pending)
unfolding add_resource ◌>>=◌ process locals_attributes string_eq evaluate collect_locals present
    pure lookup gets new_evaluator ◌>>◌ modify insert discard downgrade_diags
pending_lem = refl

add_resource-Accounted_example :
    Accounted
      (is_some (lookup "condition" pending.attributes))
      false
      "queue"
      new_evaluator
      after_pending
add_resource-Accounted_example =
    add_resource-Accounted tree_hcl tree_cty [] "queue" pending [] new_evaluator after_pending []
      pending_lem

enough_fuel_example :
    process_group tree_hcl tree_cty 9 [] (tree_content composition)
    ≡ process_group tree_hcl tree_cty 5 [] (tree_content composition)
enough_fuel_example = enough_fuel tree_hcl tree_cty 9 [] composition group_schema (omega arith)

-- A selector whose kind is not known yet.
abbrev waiting : Selection Term
waiting = record {
  api_version = constant (some (text "v1"));
  kind = constant none;
  has_name = true;
  match_expr = constant (some (text "settings"));
}

abbrev after_waiting : Evaluator (Option Json)
after_waiting = record new_evaluator {
  requirements = ("config", none) ∷ [];
  discards = record { type = requirement; reason = incomplete; name = "config"; context = [] } ∷ [];
}

waiting_lem :
    record_selector tree_hcl tree_cty [] "config" waiting [] new_evaluator
    ≡ some ([], after_waiting)
unfolding record_selector ◌>>=◌ ◌>>◌ pure modify discard downgrade_diags insert new_evaluator
    present
waiting_lem = refl

record_selector_lem_example :
    (selector : Option Selector) × (ds : Diags) × (build_selector tree_hcl tree_cty [] waiting
        "config"
      ≡ some (selector, ds))
    × (after_waiting.discards
        ≡ [] ++ waits tree_hcl tree_cty "config" selector (tree_hcl.has_errors ds))
    × (((tree_hcl.has_errors ds ≡ true) × ([] ≡ ds) × (after_waiting.requirements ≡ []))
        ⊎ ((tree_hcl.has_errors ds ≡ false)
            × ([] ≡ tree_hcl.extend [] ds)
            × (after_waiting.requirements ≡ insert "config" selector [])))
unfolding new_evaluator
record_selector_lem_example =
    record_selector_lem tree_hcl tree_cty [] "config" waiting [] new_evaluator after_waiting []
      waiting_lem
