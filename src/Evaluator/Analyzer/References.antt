-- ===== src/Evaluator/Analyzer/References.antt =====
-- checkReferences and analyzeContent of function/internal/evaluator/analyze.go: which variables the
-- expressions of all blocks refer to.
use function_hcl.Base.{
  ℕ, zero, suc, String, Bool, false, ◌||◌, ◌&&◌, Option, none, some, List, [], ◌∷◌, Dict, lookup,
  insert, is_some, contains, ◌==◌, string_eq, if◌then◌else◌, ◌≡◌, arith, Bool-cases, inl, inr,
}
use function_hcl.Hcl.{Hcl, Ctx, Block, Diags, report, to_error_diag, has_variable, Result, ok, err}
use function_hcl.Hcl.Traversal.{Traverser, attr, Traversal, Syntax, normalize_traversal}
use function_hcl.Locals.{process}
use function_hcl.Evaluator.{Cty, Content, new_evaluator}
use function_hcl.Evaluator.Schemas.{schemas_by_block_type}
use function_hcl.Evaluator.Common.{extract_symbol_table, create_self_child_context}
use function_hcl.Evaluator.Requirements.{check_requirement_block}
use function_hcl.Evaluator.Analyzer.{Names}

-- The name of the third step of a traversal, or the empty text.
unfoldable pub third_step : {V : Type 0} → List (Traverser V) → String
third_step (attr name ∷ rest) = name
third_step _ = ""

-- The checks on the third step.
unfoldable pub check_third : Names → String → String → String → Diags
check_third a root second third =
    if third == ""
    then []
    else if root == "req" && second == "resource"
    then (if contains a.resource_names third
        then []
        else to_error_diag (report "invalid resource name reference" (third ∷ [])))
    else if root == "req" && second == "resources"
    then (if contains a.collection_names third
        then []
        else to_error_diag (report "invalid resource collection name reference" (third ∷ [])))
    else if root == "self" && second == "each"
    then (if third == "key" || third == "value"
        then []
        else to_error_diag
            (report "invalid each reference, must be one of 'key' or 'value'" (third ∷ [])))
    else []

-- The default case: a reference to a local variable.
unfoldable pub check_local : {V : Type 0} → Ctx V → String → Diags
check_local ctx reference =
    if has_variable ctx reference
    then []
    else to_error_diag (report "invalid local variable reference" (reference ∷ []))

module _ {V : Type 0} where
  -- The case of `req` and `self`.
  unfoldable pub check_member : Names → Dict String V → String → String → List (Traverser V) → Diags
  unfolding third_step check_third
  check_member a table text root [] = []
  check_member a table text root (attr second ∷ rest) =
      if is_some (lookup second table)
      then check_third a root second (third_step rest)
      else to_error_diag (report "no such attribute" (second ∷ text ∷ []))
  check_member a table text root (_ ∷ rest) =
      to_error_diag (report "invalid index expression" (text ∷ []))

  -- The case of the iterator, which goes on with the default case.
  unfoldable pub check_each : Ctx V → String → List (Traverser V) → Diags
  unfolding check_local
  check_each ctx text [] = []
  check_each ctx text (attr second ∷ rest) =
      if second == "key" || second == "value"
      then check_local ctx "each"
      else to_error_diag
          (report "invalid each reference, must be one of 'key' or 'value'" (second ∷ []))
  check_each ctx text (_ ∷ rest) = to_error_diag (report "invalid index expression" (text ∷ []))

  -- The `switch` of checkReferences, on a normalized traversal.
  unfoldable pub check_root :
      Names → Ctx V → (String → Dict String V) → String → String → List (Traverser V) → Diags
  unfolding check_member check_each check_local
  check_root a ctx table text root steps =
      if root == "req" || root == "self"
      then check_member a (table root) text root steps
      else if root == "each"
      then check_each ctx text steps
      else check_local ctx root

-- What analyzeContent reads of the block whose content it has.
pub record Header : Type 0 where
  pub type : String
  pub labels : List String

abbrev pub header : {B : Type 0} → Block B → Header
header b = record { type = b.type; labels = b.labels }

module _ (H : Hcl) (C : Cty H) (S : Syntax H) where
  open H use {Expr, Value, Body, just_attributes, extend, has_errors}
  open C use {content, is_string, as_string, string_val, object_val}
  open S use {traversals, source_text, dynamic_val}

  -- The symbols of a namespace; a nil map has none.
  unfoldable pub symbols : Ctx Value → String → Dict String Value
  unfolding extract_symbol_table
  symbols ctx namespace = elim (extract_symbol_table H C ctx namespace) [
    | some (some table) ↦ table
    | _ ↦ []
  ]

  -- makeTables; none is a panic of extractSymbolTable.
  unfoldable pub make_tables : Ctx Value → Option (String → Dict String Value)
  unfolding extract_symbol_table symbols
  make_tables ctx =
      if is_some (extract_symbol_table H C ctx "req")
        && (is_some (extract_symbol_table H C ctx "self")
            && is_some (extract_symbol_table H C ctx "arg"))
      then some (symbols ctx)
      else none

  pub make_tables-symbols :
      (ctx : Ctx Value) (tables : String → Dict String Value)
      → make_tables ctx ≡ some tables
      → symbols ctx ≡ tables
  unfolding make_tables
  make_tables-symbols ctx tables made =
      elim (Bool-cases (
        is_some (extract_symbol_table H C ctx "req")
        && (is_some (extract_symbol_table H C ctx "self")
            && is_some (extract_symbol_table H C ctx "arg")))) [
              | inl fine ↦ ground (arith, fine, made)
              | inr bad ↦ absurd (ground (arith, bad, made))
            ]

  -- checkReferences; none is a panic of NormalizeTraversal.
  unfoldable pub check_references :
      Names → Ctx Value → (String → Dict String Value) → Traversal Value → Option Diags
  unfolding check_root normalize_traversal
  check_references a ctx tables t = elim (normalize_traversal is_string as_string t.steps) [
    | none ↦ none
    | some steps ↦ some (check_root a ctx tables (source_text t) t.root steps)
  ]

  -- The loop over the variables of an expression.
  unfoldable pub check_variables :
      Names
      → Ctx Value
      → (String → Dict String Value)
      → List (Traversal Value)
      → Diags
      → Option Diags
  unfolding check_references
  check_variables a ctx tables [] ret = some ret
  check_variables a ctx tables (t ∷ ts) ret = elim (check_references a ctx tables t) [
    | none ↦ none
    | some ds ↦ check_variables a ctx tables ts (extend ret ds)
  ]

  -- The loops over the expressions of locals and of attributes, without those of the names that
  -- are left out.
  unfoldable pub check_expressions :
      Names
      → Ctx Value
      → (String → Dict String Value)
      → (String → Bool)
      → Dict String Expr
      → Diags
      → Option Diags
  unfolding check_variables
  check_expressions a ctx tables skip [] ret = some ret
  check_expressions a ctx tables skip ((name, e) ∷ es) ret =
      elim (if skip name then some ret else check_variables a ctx tables (traversals e) ret) [
        | none ↦ none
        | some ret' ↦ check_expressions a ctx tables skip es ret'
      ]

  -- The first loop of Processor.Expressions: the attributes of the blocks of locals.
  unfoldable pub local_attributes : List (Block Body) → Result (List (Dict String Expr))
  local_attributes [] = ok []
  local_attributes (b ∷ blocks) =
      let (attrs, diags) = just_attributes b.body in
      let rest = local_attributes blocks in
      if b.type == "locals"
      then (if has_errors diags
          then err diags
          else elim rest [ err ds ↦ err ds | ok more ↦ ok (attrs ∷ more) ])
      else rest

  -- The second loop.
  unfoldable pub insert_attributes : List (Dict String Expr) → Dict String Expr → Dict String Expr
  insert_attributes [] ret = ret
  insert_attributes ([] ∷ more) ret = insert_attributes more ret
  insert_attributes (((name, e) ∷ attrs) ∷ more) ret =
      insert_attributes (attrs ∷ more) (insert name e ret)

  -- Processor.Expressions
  unfoldable pub expressions : List (Block Body) → Result (Dict String Expr)
  unfolding local_attributes insert_attributes
  expressions blocks = elim (local_attributes blocks) [
    | err ds ↦ err ds
    | ok attrs_list ↦ ok (insert_attributes attrs_list [])
  ]

  -- analyzer.processLocals: the child context with the expressions, or errors. None: process had
  -- no result.
  unfoldable pub process_locals :
      Ctx Value → List (Block Body) → Option (Result (Option (Ctx Value) × Dict String Expr))
  unfolding expressions
  process_locals ctx blocks = elim (process H ctx blocks) [
    | none ↦ none
    | some (child, diags) ↦
        if has_errors diags then some (err diags) else elim (expressions blocks) [
          | err ds ↦ some (if has_errors ds then err ds else ok (child, []))
          | ok exprs ↦ some (ok (child, exprs))
        ]
  ]

  -- The context of a block with its `self` values.
  unfoldable pub self_context : String → Ctx Value → Option (Ctx Value)
  self_context type ctx =
      if type == "resources"
      then create_self_child_context H C ctx (
          ("basename", string_val "dummy")
          ∷ ("resources", dynamic_val)
          ∷ ("connections", dynamic_val)
          ∷ [])
      else if type == "resource" || type == "template"
      then create_self_child_context H C ctx (
          ("name", string_val "dummy")
          ∷ ("resource", dynamic_val)
          ∷ ("connection", dynamic_val)
          ∷ [])
      else some ctx

  -- The locals of a block, in the context with its `self` values.
  unfoldable pub enter_block :
      String
      → Ctx Value
      → List (Block Body)
      → Option (Result (Option (Ctx Value) × Dict String Expr))
  unfolding self_context process_locals
  enter_block type ctx blocks = elim (self_context type ctx) [
    | none ↦ none
    | some ctx' ↦ process_locals ctx' blocks
  ]

  -- The context of the blocks in a block: with the iterator, in a block of resources.
  unfoldable pub iterator_context : String → Ctx Value → Ctx Value
  iterator_context type ctx =
      if type == "resources"
      then (("each", object_val (("key", dynamic_val) ∷ ("value", dynamic_val) ∷ [])) ∷ []) ∷ ctx
      else ctx

  -- The diagnostics of checkRequirementBlock.
  unfoldable pub requirement_check : Header → Content Expr Body → Option Diags
  unfolding new_evaluator
  requirement_check parent c = elim parent.labels [
    | [] ↦ none
    | name ∷ labels ↦ elim (check_requirement_block H C name c new_evaluator) [
      | none ↦ none
      | some ((_, diags), _) ↦ some diags
    ]
  ]

  -- The errors of a requirement, with which analyzeContent returns.
  unfoldable pub requirement_diags : Header → Content Expr Body → Option Diags
  unfolding requirement_check
  requirement_diags parent c =
      if parent.type == "requirement"
      then elim (requirement_check parent c) [
        | none ↦ none
        | some diags ↦ some (if has_errors diags then diags else [])
      ]
      else some []

  -- The check of the name of a block of resources, which may use the iterator.
  unfoldable pub check_name :
      Names
      → Ctx Value
      → (String → Dict String Value)
      → String
      → Content Expr Body
      → Diags
      → Option Diags
  unfolding check_variables iterator_context
  check_name a ctx tables type c ret =
      if type == "resources"
      then elim (lookup "name" c.attributes) [
        | none ↦ some ret
        | some e ↦ check_variables a (iterator_context type ctx) tables (traversals e) ret
      ]
      else some ret

  -- The checks of the locals and attributes of a block, with its tables.
  unfoldable pub check_with :
      Names
      → Ctx Value
      → (String → Dict String Value)
      → String
      → Content Expr Body
      → Dict String Expr
      → Option Diags
  unfolding check_expressions check_name
  check_with a ctx tables type c exprs =
      elim (check_expressions a ctx tables (λ name. false) exprs []) [
        | none ↦ none
        | some ret ↦
            elim (check_expressions a ctx tables (λ name. name == "name" && type == "resources")
              c.attributes ret) [ none ↦ none | some ret' ↦ check_name a ctx tables type c ret' ]
      ]

  -- Likewise, in its context.
  unfoldable pub check_attributes :
      Names → Ctx Value → String → Content Expr Body → Dict String Expr → Option Diags
  unfolding make_tables check_with
  check_attributes a ctx type c exprs = elim (make_tables ctx) [
    | none ↦ none
    | some tables ↦ check_with a ctx tables type c exprs
  ]

  -- The loop over the child blocks.
  unfoldable pub analyze_blocks :
      (Header → Content Expr Body → Option Diags) → List (Block Body) → Diags → Option Diags
  unfolding schemas_by_block_type
  analyze_blocks nested [] ret = some ret
  analyze_blocks nested (b ∷ blocks) ret =
      let skipped = analyze_blocks nested blocks ret in
      if b.type == "locals" || b.type == "function"
      then skipped
      else elim (lookup b.type schemas_by_block_type) [
        | none ↦ none
        | some s ↦
            let (c, d) = content b.body s in
            let more : Option Diags = elim (nested (header b) c) [
              | none ↦ none
              | some ds ↦ analyze_blocks nested blocks (extend ret ds)
            ] in
            if has_errors d then some d else more
      ]

  -- analyzeContent; the fuel bounds the depth of the blocks. None: a panic, or no fuel.
  unfoldable pub analyze_content : Names → ℕ → Ctx Value → Header → Content Expr Body → Option Diags
  unfolding requirement_diags enter_block check_attributes analyze_blocks
  analyze_content a zero ctx parent c = none
  analyze_content a (suc fuel) ctx parent c = elim (requirement_diags parent c) [
    | none ↦ none
    | some (d ∷ ds) ↦ some (d ∷ ds)
    | some [] ↦ elim (enter_block parent.type ctx c.blocks) [
      | none ↦ none
      | some (err ds) ↦ some ds
      | some (ok (none, exprs)) ↦ none
      | some (ok (some child, exprs)) ↦ elim (check_attributes a child parent.type c exprs) [
        | none ↦ none
        | some ret ↦
            analyze_blocks (analyze_content a fuel (iterator_context parent.type child)) c.blocks
              ret
      ]
    ]
  ]
