-- ===== src/Evaluator/Sample/Files.antt =====
-- Instances of `Syntax`, `Bare` and `Wire` for the small instance of `Hcl` and `Cty`, and a file.
use function_hcl.Base.{
  ◌≡◌, refl, some, none, Option, List, [], ◌∷◌, map, string_eq, if◌then◌else◌, ◌==◌,
}
use function_hcl.Hcl.Traversal.{Traversal, Call, Syntax}
use function_hcl.Json.{Json, object, end, text}
use function_hcl.Evaluator.Sample.{
  Term, constant, variable, entries, Tree, tree, no_blocks, a_block, tree_hcl,
}
use function_hcl.Evaluator.Variables.{Wire}
use function_hcl.Functions.Load.{Bare}

abbrev pub term_traversals : Term → List (Traversal (Option Json))
term_traversals (constant v) = []
term_traversals (variable x) = record { root = x; steps = [] } ∷ []

pub term_roots : (t : Term) → map (λ t. t.root) (term_traversals t) ≡ tree_hcl.variables t
term_roots (constant v) = refl
term_roots (variable x) = refl

-- A variable of this name stands for a call of the function "label".
abbrev pub term_calls : Term → List (Call Term)
term_calls (constant v) = []
term_calls (variable x) =
    if x == "label"
    then record {
      name = "invoke";
      args = constant (some (text "label")) ∷ constant (some (object end)) ∷ [];
    }
      ∷ []
    else []

abbrev pub syntax : Syntax tree_hcl
syntax = record {
  traversals = term_traversals;
  function_calls = term_calls;
  constant_value = λ t. tree_hcl.value t [];
  source_text = λ t. t.root;
  dynamic_val = none;
  roots_lem = term_roots;
}

abbrev pub bare : Bare tree_hcl
bare = record { value = tree_hcl.value; value_local = tree_hcl.value_local }

abbrev pub wire : Wire tree_hcl
wire = record {
  annotations = λ o. some none;
  remove_managed_fields = λ o. o;
  decode = λ o. some (entries o);
  tuple_val = λ vs. none;
  sort_by_index = λ v. v;
  any-sort_by_index = λ p v. refl;
}

-- A function with an argument, and a resource whose body is a local that calls it.
abbrev pub accepted : Tree
accepted = tree [] (
    a_block "function" ("label" ∷ [])
      (tree (("body", variable "of") ∷ [])
        (a_block "arg" ("of" ∷ []) (tree [] no_blocks) no_blocks))
      (a_block "group" []
        (tree [] (
          a_block "locals" [] (tree (("label", constant (some (object end))) ∷ []) no_blocks) (
            a_block "resource" ("bucket" ∷ []) (tree (("body", variable "label") ∷ []) no_blocks)
              no_blocks)))
        no_blocks))
