-- ===== src/Evaluator/Analyzer/Tests.antt =====
-- A run of checkStructure on two files, and instances of the theorems.
use function_hcl.Base.{
  List, ◌≡◌, refl, some, [], ◌∷◌, Dict, Distinct, All, ◌↔◌, false, lookup, insert, string_eq, arith,
  Option, none, String,
}
use function_hcl.Hcl.Traversal.{Traverser, Traversal, is_identifier, attr, index}
use function_hcl.Json.{Json, object, end, text}
use function_hcl.Evaluator.Sample.Files.{syntax, bare, wire, accepted}
use function_hcl.Evaluator.Sample.{
  tree_content, variable, constant, Tree, tree, no_blocks, a_block, tree_hcl, tree_cty,
}
use function_hcl.Evaluator.Analyzer.{Names, new_analyzer, check_bodies}
use function_hcl.Evaluator.Analyzer.Added.{Unique, resource_kind}
use function_hcl.Evaluator.Analyzer.Unique.{declared_all, check_bodies-Unique}
use function_hcl.Evaluator.Analyzer.Enough.{do_analyze-agree}
use function_hcl.Evaluator.Analyzer.Bodies.{do_analyze}
use function_hcl.Evaluator.Analyzer.Accepted.{Accepted, do_analyze-Accepted}
use function_hcl.Functions.{UserFunction}
use function_hcl.Functions.Load.{Program, Functions, process_functions}
use function_hcl.Functions.Loaded.{Loaded, process_functions-Loaded}
use function_hcl.Evaluator.Analyzer.References.{check_references}
use function_hcl.Evaluator.Analyzer.Resolve.{AllReadAs, Resolves, check_references-Resolves}
use mathlib.Core.Option
use function_hcl.Locals.{
  process, locals_attributes, evaluate, collect_locals, collect_attrs, compute_deps, expr_deps,
  eval, eval_names, eval_local, eval_deps, finish_local, push, sub_path, remove,
}
use function_hcl.Hcl.{
  Diags, any_error, has_variable, downgrade_diags, downgrade_diag, to_error_diag,
}
use function_hcl.Evaluator.{modify, pure, ◌>>=◌, ◌>>◌}
use function_hcl.Evaluator.Common.{
  create_self_child_context, extract_symbol_table, insert_all, first_label,
}
use function_hcl.Evaluator.Requirements.{check_requirement_block, find_select}
use function_hcl.Evaluator.Run.{make_content}
use function_hcl.Evaluator.Variables.{
  sorted_names, track_resources, observed_bodies, object_of_objects, object_of_arrays,
}

abbrev leaf : Tree
leaf = tree (("body", constant (some (object end))) ∷ []) no_blocks

-- A resource in a group, with a requirement of its name; and another file with a resource.
abbrev main : Tree
main = tree [] (
    a_block "group" [] (tree [] (a_block "resource" ("bucket" ∷ []) leaf no_blocks))
      (a_block "requirement" ("bucket" ∷ []) (tree [] no_blocks) no_blocks))

abbrev more : Tree
more = tree [] (a_block "resource" ("queue" ∷ []) leaf no_blocks)

abbrev found : Names
found = record {
  resource_names = "queue" ∷ "bucket" ∷ [];
  collection_names = [];
  requirement_names = "bucket" ∷ [];
}

found_lem : check_bodies tree_hcl tree_cty 9 [] (main ∷ more ∷ []) new_analyzer ≡ some ([], found)
unfolding check_bodies string_eq lookup
found_lem = refl

check_bodies-Unique_example :
    Unique (declared_all tree_hcl tree_cty resource_kind 9 (main ∷ more ∷ []))
check_bodies-Unique_example =
    check_bodies-Unique tree_hcl tree_cty resource_kind 9 (main ∷ more ∷ []) found [] found_lem refl

do_analyze-agree_example :
    do_analyze tree_hcl tree_cty syntax wire bare 21 (accepted ∷ [])
    ≡ do_analyze tree_hcl tree_cty syntax wire bare 22 (accepted ∷ [])
do_analyze-agree_example =
    do_analyze-agree tree_hcl tree_cty syntax wire bare 21 22 20 (accepted ∷ []) (omega arith, tt)
      (omega arith) (omega arith)

accepted_lem : do_analyze tree_hcl tree_cty syntax wire bare 9 (accepted ∷ []) ≡ some []
unfolding do_analyze lookup string_eq process locals_attributes evaluate collect_locals insert
    has_variable ◌>>◌ ◌>>=◌ modify pure collect_attrs compute_deps expr_deps eval eval_names
    eval_local eval_deps finish_local push sub_path remove downgrade_diags downgrade_diag
    create_self_child_context extract_symbol_table insert_all first_label to_error_diag find_select
    check_requirement_block make_content Option.bind sorted_names track_resources observed_bodies
    object_of_objects object_of_arrays
accepted_lem = refl

do_analyze-Accepted_example : Accepted tree_hcl tree_cty syntax wire bare 9 (accepted ∷ [])
do_analyze-Accepted_example =
    do_analyze-Accepted tree_hcl tree_cty syntax wire bare 9 (accepted ∷ []) [] accepted_lem refl

-- `req.resource["bucket"]`
abbrev to_bucket : Traversal (Option Json)
to_bucket = record { root = "req"; steps = attr "resource" ∷ index (some (text "bucket")) ∷ [] }

abbrev request : String → Dict String (Option Json)
request name = ("resource", none) ∷ []

check_references-Resolves_example :
    (ds : Diags) × (steps : List (Traverser (Option Json))) × (check_references tree_hcl tree_cty
        syntax found [] request to_bucket
      ≡ some ds)
    × AllReadAs tree_hcl tree_cty syntax to_bucket.steps steps
    × ((any_error ds ≡ false) ↔ Resolves found [] request "req" steps)
check_references-Resolves_example =
    check_references-Resolves tree_hcl tree_cty syntax found [] request to_bucket (tt, (tt, tt))

-- The functions of the file.
abbrev label : UserFunction (Option Json) (Program tree_hcl tree_cty syntax)
label = record {
  name = "label";
  args = ("of", record { has_default = false; default = none }) ∷ [];
  program = (
    variable "of",
    record {
      attributes = ("body", variable "of") ∷ [];
      blocks = record { type = "arg"; labels = "of" ∷ []; body = tree [] no_blocks } ∷ [];
    },
  );
}

abbrev functions : Functions tree_hcl tree_cty syntax
functions = ("label", label) ∷ []

label_loaded :
    process_functions tree_hcl tree_cty syntax bare (tree_content accepted)
    ≡ some (some functions, [])
unfolding process_functions lookup insert string_eq process locals_attributes evaluate
    collect_locals has_variable is_identifier
label_loaded = refl

process_functions-Loaded_example :
    Distinct functions × All (Loaded tree_hcl tree_cty syntax functions) functions
process_functions-Loaded_example =
    process_functions-Loaded tree_hcl tree_cty syntax bare (tree_content accepted) functions []
      label_loaded refl
