-- ===== src/Evaluator/Analyzer/Bodies.antt =====
-- checkFunctionRefs, analyzeBodies and doAnalyze of function/internal/evaluator/analyze.go, behind the
-- parser.
use function_hcl.Base.{
  ℕ, zero, suc, String, Option, none, some, List, [], ◌∷◌, Dict, lookup, ◌==◌, string_eq,
  if◌then◌else◌,
}
use function_hcl.Hcl.{Hcl, Block, Diags, report, to_error_diag}
use function_hcl.Hcl.Traversal.{Syntax}
use function_hcl.Json.{end}
use function_hcl.Evaluator.{Cty, Content, new_evaluator}
use function_hcl.Evaluator.Schemas.{schemas_by_block_type}
use function_hcl.Evaluator.Severity.{sort_diags_by_severity}
use function_hcl.Evaluator.Variables.{Request, Wire, make_vars}
use function_hcl.Evaluator.Run.{make_content}
use function_hcl.Evaluator.Analyzer.{Names, new_analyzer, check_bodies}
use function_hcl.Evaluator.Analyzer.References.{Header, analyze_content}
use function_hcl.Functions.Load.{Bare, Functions, check_user_function_refs, process_functions}

-- The request of analyzeBodies.
abbrev pub empty_request : Request
empty_request = record {
  observed = [];
  composite = end;
  composite_connection = end;
  context = end;
  extra_resources = [];
}

-- `&hcl.Block{}`
abbrev pub no_header : Header
no_header = record { type = ""; labels = [] }

module _ (H : Hcl) (C : Cty H) (S : Syntax H) where
  open H use {Expr, Value, Body, just_attributes, extend, has_errors}
  open C use {content}

  -- The calls of doCheckFunctionRefs for attributes; none is a panic.
  unfoldable pub check_attribute_refs : Functions H C S → Dict String Expr → Diags → Option Diags
  unfolding check_user_function_refs
  check_attribute_refs fns [] ret = some ret
  check_attribute_refs fns ((name, e) ∷ es) ret = elim (check_user_function_refs H C S fns e) [
    | none ↦ none
    | some ds ↦ check_attribute_refs fns es (extend ret ds)
  ]

  -- The loop of checkFunctionRefs over the blocks.
  unfoldable pub check_block_refs :
      (Content Expr Body → Option Diags)
      → Functions H C S
      → List (Block Body)
      → Diags
      → Option Diags
  unfolding check_attribute_refs schemas_by_block_type
  check_block_refs nested fns [] ret = some ret
  check_block_refs nested fns (b ∷ blocks) ret =
      let locals : Option Diags = elim (check_attribute_refs fns (just_attributes b.body).0 ret) [
        | none ↦ none
        | some ret' ↦ check_block_refs nested fns blocks ret'
      ] in
      let inside : Option Diags = elim (lookup b.type schemas_by_block_type) [
        | none ↦ none
        | some s ↦ elim (nested (content b.body s).0) [
          | none ↦ none
          | some ds ↦ check_block_refs nested fns blocks (extend ret ds)
        ]
      ] in
      if b.type == "locals" then locals else inside

  -- checkFunctionRefs; the fuel bounds the depth of the blocks.
  unfoldable pub check_function_refs : Functions H C S → ℕ → Content Expr Body → Option Diags
  unfolding check_attribute_refs check_block_refs
  check_function_refs fns zero c = none
  check_function_refs fns (suc fuel) c = elim (check_attribute_refs fns c.attributes []) [
    | none ↦ none
    | some ret ↦ check_block_refs (check_function_refs fns fuel) fns c.blocks ret
  ]

  module _ (W : Wire H) (B : Bare H) where
    -- The end of analyzeBodies, with the functions.
    unfoldable pub analyze_loaded : ℕ → Names → Functions H C S → Content Expr Body → Option Diags
    unfolding make_vars analyze_content check_function_refs new_evaluator
    analyze_loaded fuel names fns c = elim (make_vars H C W ([] ∷ []) empty_request new_evaluator) [
      | none ↦ none
      | some (none, _) ↦ some (to_error_diag (report "internal error: setup dummy vars" []))
      | some (some ctx, _) ↦ elim (analyze_content H C S names fuel ctx no_header c) [
        | none ↦ none
        | some ret ↦ elim (check_function_refs fns fuel c) [
          | none ↦ none
          | some ds ↦ some (extend ret ds)
        ]
      ]
    ]

    -- analyzeBodies, behind the check of the structure.
    unfoldable pub analyze_checked : ℕ → List Body → Names → Diags → Option Diags
    unfolding make_content process_functions analyze_loaded
    analyze_checked fuel bodies names diags =
        let (merged, ds) = make_content H C bodies in
        let all = extend diags ds in
        let next : Option Diags = elim merged [
          | none ↦ none
          | some c ↦ elim (process_functions H C S B c) [
            | none ↦ none
            | some (fns, ds') ↦
                if has_errors (extend all ds')
                then some (extend all ds')
                else elim fns [ none ↦ none | some table ↦ analyze_loaded fuel names table c ]
          ]
        ] in
        if has_errors all then some all else next

    -- analyzeBodies
    unfoldable pub analyze_bodies : ℕ → List Body → Option Diags
    unfolding check_bodies analyze_checked
    analyze_bodies fuel bodies = elim (check_bodies H C fuel [] bodies new_analyzer) [
      | none ↦ none
      | some (diags, names) ↦
          if has_errors diags then some diags else analyze_checked fuel bodies names diags
    ]

    -- doAnalyze, for the bodies that the parser has made.
    unfoldable pub do_analyze : ℕ → List Body → Option Diags
    unfolding analyze_bodies sort_diags_by_severity
    do_analyze fuel bodies = elim (analyze_bodies fuel bodies) [
      | none ↦ none
      | some ds ↦ some (sort_diags_by_severity ds)
    ]
