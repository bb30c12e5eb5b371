-- ===== src/Functions/Load.antt =====
-- function/internal/evaluator/functions/load.go, with checkRefs and checkUserFunctionRefs of impl.go:
-- user functions are read from their blocks, and what their bodies refer to is checked.
use function_hcl.Base.{
  String, ◌≡◌, true, false, not, ◌&&◌, Option, none, some, List, [], ◌∷◌, Dict, lookup, insert,
  is_some, contains, ◌==◌, string_eq, if◌then◌else◌,
}
use function_hcl.Hcl.{
  Hcl, Ctx, Block, Diags, Result, ok, err, resolve, report, to_error_diag, has_variable,
}
use function_hcl.Hcl.Traversal.{Call, Syntax, is_identifier}
use function_hcl.Locals.{process}
use function_hcl.Evaluator.{Cty, Content}
use function_hcl.Evaluator.Schemas.{function_schema, arg_schema}
use function_hcl.Functions.{Arg, UserFunction}

-- `expr.Value(ctx)` for the table of functions of `newInvoker(nil)`, which has no user functions.
pub record Bare (H : Hcl) : Type 0 where
  pub value : H.Expr → Ctx H.Value → H.Value × Diags
  pub value_local :
      (e : H.Expr) (c d : Ctx H.Value)
      → ((x : String) → contains (H.variables e) x ≡ true → resolve x c ≡ resolve x d)
      → value e c ≡ value e d

abbrev pub bare_hcl : (H : Hcl) → Bare H → Hcl
bare_hcl H B = record H { value = B.value; value_local = B.value_local }

module _ (H : Hcl) (C : Cty H) (S : Syntax H) where
  open H use {Expr, Value, Body, variables, extend, has_errors}
  open C use {content, is_null, is_wholly_known, is_string, as_string}
  open S use {constant_value, function_calls, dynamic_val}

  -- The body of a function, and the content of its block.
  abbrev pub Program : Type 0
  Program = Expr × Content Expr Body

  abbrev pub Functions : Type 0
  Functions = Dict String (UserFunction Value Program)

  -- The check of a description: a constant string, and none where it is null, which panics.
  -- Descriptions are for the editor only, and not kept here.
  unfoldable pub check_description : String → Option Expr → Diags → Option (Result Diags)
  check_description what none diags = some (ok diags)
  check_description what (some e) diags =
      let (v, d) = constant_value e in
      if not (is_wholly_known v && is_string v)
      then some (err (to_error_diag (report "description is not a constant string" (what ∷ []))))
      else if is_null v
      then none
      else some (ok (extend diags d))

  -- The end of processArg: the default of the argument.
  unfoldable pub arg_default : String → Option Expr → Diags → Result (Arg Value × Diags)
  arg_default name none diags = ok (record { has_default = false; default = dynamic_val }, diags)
  arg_default name (some e) diags =
      let (v, d) = constant_value e in
      if is_wholly_known v
      then ok (record { has_default = true; default = v }, extend diags d)
      else err (to_error_diag (report "default is not a constant" (name ∷ [])))

  -- processArg: the name and the argument, or errors. None is a panic, also for want of a label.
  unfoldable pub process_arg : Block Body → Option (Result ((String × Arg Value) × Diags))
  unfolding check_description arg_default
  process_arg block =
      let (a, diags) = content block.body arg_schema in
      let read : Option (Result ((String × Arg Value) × Diags)) = elim block.labels [
        | [] ↦ none
        | name ∷ labels ↦
            if not (is_identifier name)
            then some (err (to_error_diag (report "name must be an identifier" (name ∷ []))))
            else elim (check_description name (lookup "description" a.attributes)
                (extend [] diags)) [
                  | none ↦ none
                  | some (err ds) ↦ some (err ds)
                  | some (ok ds) ↦ elim (arg_default name (lookup "default" a.attributes) ds) [
                    | err ds' ↦ some (err ds')
                    | ok (arg, ds') ↦ some (ok ((name, arg), ds'))
                  ]
                ]
      ] in
      if has_errors diags then some (err diags) else read

  -- The loop of processFunction over the argument blocks.
  unfoldable pub process_args :
      List (Block Body) → Dict String (Arg Value) → Option (Result (Dict String (Arg Value)))
  unfolding process_arg
  process_args [] args = some (ok args)
  process_args (b ∷ blocks) args =
      let skipped = process_args blocks args in
      let taken : Option (Result (Dict String (Arg Value))) = elim (process_arg b) [
        | none ↦ none
        | some (err ds) ↦ some (err ds)
        | some (ok ((name, arg), ds)) ↦
            let rest = process_args blocks (insert name arg args) in
            if has_errors ds
            then some (err ds)
            else if is_some (lookup name args)
            then some (err (to_error_diag (report "duplicate definition of argument" (name ∷ []))))
            else rest
      ] in
      if b.type == "arg" then taken else skipped

  -- `values[name] = arg.Default`
  unfoldable pub defaults : Dict String (Arg Value) → Dict String Value → Dict String Value
  defaults [] values = values
  defaults ((name, arg) ∷ args) values = defaults args (insert name arg.default values)

  -- The end of processFunction: the locals and the body.
  unfoldable pub finish_function :
      Bare H
      → String
      → Content Expr Body
      → Dict String (Arg Value)
      → Diags
      → Option (Result (UserFunction Value Program × Diags))
  unfolding defaults
  finish_function B name c args diags =
      elim (process (bare_hcl H B) (defaults args [] ∷ []) c.blocks) [
        | none ↦ none
        | some (child, ds) ↦
            if has_errors ds then some (err ds) else elim (lookup "body" c.attributes) [
              | none ↦ none
              | some body ↦
                  some
                    (ok (record { name = name; args = args; program = (body, c) }, extend diags ds))
            ]
      ]

  -- processFunction: the function, or errors. None is a panic.
  unfoldable pub process_function :
      Bare H → Block Body → Option (Result (UserFunction Value Program × Diags))
  unfolding check_description process_args finish_function
  process_function B block =
      let (c, diags) = content block.body function_schema in
      let read : Option (Result (UserFunction Value Program × Diags)) = elim block.labels [
        | [] ↦ none
        | name ∷ labels ↦
            if not (is_identifier name)
            then some (err (to_error_diag (report "name must be an identifier" (name ∷ []))))
            else elim (check_description name (lookup "description" c.attributes)
                (extend [] diags)) [
                  | none ↦ none
                  | some (err ds) ↦ some (err ds)
                  | some (ok ds) ↦ elim (process_args c.blocks []) [
                    | none ↦ none
                    | some (err ds') ↦ some (err ds')
                    | some (ok args) ↦ finish_function B name c args ds
                  ]
                ]
      ] in
      if has_errors diags then some (err diags) else read

  -- The loop of processFunctions over the blocks.
  unfoldable pub collect_functions :
      Bare H → List (Block Body) → Diags → Functions → Option (Result (Functions × Diags))
  unfolding process_function
  collect_functions B [] diags fns = some (ok (fns, diags))
  collect_functions B (b ∷ blocks) diags fns =
      let skipped = collect_functions B blocks diags fns in
      let taken : Option (Result (Functions × Diags)) = elim (process_function B b) [
        | none ↦ none
        | some (err ds) ↦ some (err ds)
        | some (ok (fn, ds)) ↦
            let rest = collect_functions B blocks (extend diags ds) (insert fn.name fn fns) in
            if has_errors ds
            then some (err ds)
            else if is_some (lookup fn.name fns)
            then some (err (to_error_diag (report "duplicate function declaration" (fn.name ∷ []))))
            else rest
      ] in
      if b.type == "function" then taken else skipped

  -- The visit of one node by checkUserFunctionRefs: what it adds, and none where the name is a null
  -- string, which panics.
  unfoldable pub check_call : Functions → Call Expr → Option Diags
  check_call fns call = elim call.args [
    | name ∷ args ∷ [] ↦
        let v = (constant_value name).0 in
        if not (call.name == "invoke")
        then some []
        else if not (is_wholly_known v && is_string v)
        then some (to_error_diag (report "user function invocation is not via a static string" []))
        else if is_null v
        then none
        else if is_some (lookup (as_string v) fns)
        then some []
        else some (to_error_diag (report "invoke called on unknown function" (as_string v ∷ [])))
    | _ ↦
        if call.name == "invoke"
        then some
            (to_error_diag (report "user function invocation has incorrect number of arguments" []))
        else some []
  ]

  -- The visits of checkUserFunctionRefs.
  unfoldable pub check_calls : Functions → List (Call Expr) → Diags → Option Diags
  unfolding check_call
  check_calls fns [] diags = some diags
  check_calls fns (call ∷ calls) diags = elim (check_call fns call) [
    | none ↦ none
    | some ds ↦ check_calls fns calls (extend diags ds)
  ]

  -- checkUserFunctionRefs
  unfoldable pub check_user_function_refs : Functions → Expr → Option Diags
  unfolding check_calls
  check_user_function_refs fns e = check_calls fns (function_calls e) []

  -- The loop of checkRefs over the variables of the body.
  unfoldable pub check_variables : Ctx Value → List String → Diags → Diags
  check_variables ctx [] diags = diags
  check_variables ctx (ref ∷ refs) diags = check_variables ctx refs (
      if has_variable ctx ref
      then diags
      else extend diags (to_error_diag (report "reference to non-existent variable" (ref ∷ []))))

  -- checkRefs; none: the evaluation of the locals had no result, or a name is null.
  unfoldable pub check_refs : Functions → UserFunction Value Program → Option Diags
  unfolding defaults check_variables check_user_function_refs
  check_refs fns f = elim (process H (defaults f.args [] ∷ []) f.program.1.blocks) [
    | none ↦ none
    | some (child, diags) ↦ elim child [
      | none ↦ if has_errors diags then some diags else none
      | some ctx ↦
          if has_errors diags then some diags else elim (check_user_function_refs fns f.program.0) [
            | none ↦ none
            | some ds ↦ some (extend (check_variables ctx (variables f.program.0) diags) ds)
          ]
    ]
  ]

  -- The last loop of processFunctions.
  unfoldable pub check_functions : Functions → Functions → Diags → Option Diags
  unfolding check_refs
  check_functions fns [] diags = some diags
  check_functions fns ((_, f) ∷ rest) diags = elim (check_refs fns f) [
    | none ↦ none
    | some ds ↦ check_functions fns rest (extend diags ds)
  ]

  -- processFunctions: the functions, if they are set, and the diagnostics.
  unfoldable pub process_functions : Bare H → Content Expr Body → Option (Option Functions × Diags)
  unfolding collect_functions check_functions
  process_functions B c = elim (collect_functions B c.blocks [] []) [
    | none ↦ none
    | some (err ds) ↦ some (none, ds)
    | some (ok (fns, diags)) ↦ elim (check_functions fns fns diags) [
      | none ↦ none
      | some ds ↦ some (some fns, ds)
    ]
  ]
