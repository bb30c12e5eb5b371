-- ===== src/Locals.antt =====
-- function/internal/evaluator/locals/locals.go: local variables are evaluated in the order of
-- their dependencies, with a check for cycles.
mod Paths
pub mod Spec
mod Calls
mod Declared
pub mod Evaluate
pub mod Process
pub mod Cycles
mod Tests
use mathlib.Core.Option
use function_hcl.Base.{
  ℕ, zero, suc, String, Bool, true, not, ◌⊎◌, inl, inr, Option, none, some, List, [], ◌∷◌, ◌++◌,
  Dict, keys, Eq, ◌==◌, contains, lookup, insert, is_some, if◌then◌else◌, string_eq, length,
}
use function_hcl.Hcl.{
  Hcl, Ctx, Block, Diags, Result, ok, err, ◌>>=◌, has_variable, to_error_diag, downgrade_diags,
  duplicate_local, shadows_variable, no_variable, cycle_found,
}

-- exprDeps
pub record ExprDeps (E : Type 0) : Type 0 where
  pub expr : E
  pub deps : List String

-- The loop of `push`: the path from the earlier visit of `name` on, with `name` at its end.
unfoldable pub sub_path : String → List String → Option (List String)
sub_path name [] = none
sub_path name (v ∷ path) = if name == v then some ((v ∷ path) ++ name ∷ []) else sub_path name path

-- evalPath.push: the cycle that was found, or the longer path. What `pop` restores is the path
-- that the caller holds.
unfoldable pub push : List String → String → List String ⊎ List String
unfolding sub_path
push path name = elim (sub_path name path) [
  | some cycle ↦ inl cycle
  | none ↦ inr (path ++ name ∷ [])
]

-- `delete(c.remaining, name)`
unfoldable pub remove : String → List String → List String
remove name [] = []
remove name (x ∷ xs) = let rest = remove name xs in if x == name then rest else x ∷ rest

-- The part of localContext that changes: the child context's variables, and `remaining`.
pub record EvalState (V : Type 0) : Type 0 where
  pub variables : Dict String V
  pub remaining : List String

module _ (H : Hcl) where
  open H use {Expr, Value, Body, just_attributes, variables, value, extend, has_errors}

  abbrev pub Locals : Type 0
  Locals = Dict String (ExprDeps Expr)

  -- The inner loop of `evaluate` that fills `locals`.
  unfoldable pub collect_attrs : Ctx Value → Dict String Expr → Locals → Result Locals
  collect_attrs ctx [] locals = ok locals
  collect_attrs ctx ((name, e) ∷ attrs) locals =
      let rest = collect_attrs ctx attrs (insert name (record { expr = e; deps = [] }) locals) in
      if is_some (lookup name locals)
      then err (to_error_diag (duplicate_local name))
      else if has_variable ctx name
      then err (to_error_diag (shadows_variable name))
      else rest

  unfoldable pub collect_locals : Ctx Value → List (Dict String Expr) → Locals → Result Locals
  collect_locals ctx [] locals = ok locals
  collect_locals ctx (attrs ∷ attrs_list) locals =
      collect_attrs ctx attrs locals >>= λ l. collect_locals ctx attrs_list l

  -- The inner loop of computeDeps: the references of one expression to locals.
  unfoldable pub expr_deps : Ctx Value → Locals → List String → Result (List String)
  expr_deps ctx locals [] = ok []
  expr_deps ctx locals (reference ∷ refs) =
      let rest = expr_deps ctx locals refs in
      if is_some (lookup reference locals)
      then (rest >>= λ deps. ok (reference ∷ deps))
      else if has_variable ctx reference
      then rest
      else err (to_error_diag (no_variable reference))

  -- The outer loop of computeDeps, over the entries of `locals`.
  unfoldable pub compute_deps : Ctx Value → Locals → Locals → Result Locals
  compute_deps ctx locals [] = ok []
  compute_deps ctx locals ((name, info) ∷ todo) =
      expr_deps ctx locals (variables info.expr) >>= λ deps.
      compute_deps ctx locals todo >>= λ rest.
      ok ((name, record info { deps = info.deps ++ deps }) ∷ rest)

  -- The end of evalLocal, once its dependencies are evaluated, with the deferred `delete`.
  unfoldable pub finish_local :
      Ctx Value → String → ExprDeps Expr → EvalState Value × Diags → EvalState Value × Diags
  finish_local ctx name info (s, diags) =
      let s' = record s { remaining = remove name s.remaining } in
      let (val, ds) = value info.expr (s.variables ∷ ctx) in
      if has_errors diags then (s', diags) else (
        record s' { variables = insert name val s.variables },
        extend diags (downgrade_diags ds),
      )

  -- The loop of evalLocal over `info.deps`; `run` is its call of itself.
  unfoldable pub eval_deps :
      (EvalState Value → String → Option (EvalState Value × Diags))
      → EvalState Value × Diags
      → List String
      → Option (EvalState Value × Diags)
  unfolding Option.bind
  eval_deps run (s, diags) [] = some (s, diags)
  eval_deps run (s, diags) (dep ∷ deps) =
      Option.bind
        (if contains s.remaining dep
          then Option.map (λ (s', ds). (s', extend diags ds)) (run s dep)
          else some (s, diags))
        (λ r. eval_deps run r deps)

  -- evalLocal. `none`: the fuel ran out, or `c.locals[name]` is nil.
  unfoldable pub eval_local :
      ℕ
      → Locals
      → Ctx Value
      → List String
      → EvalState Value
      → String
      → Option (EvalState Value × Diags)
  unfolding Option.bind
  eval_local zero locals ctx seen s name = none
  eval_local (suc fuel) locals ctx seen s name =
      if not (contains s.remaining name) then some (s, []) else elim (push seen name) [
        | inl cycle ↦ some (s, to_error_diag (cycle_found cycle))
        | inr path ↦ Option.bind (lookup name locals) λ info.
            Option.map (finish_local ctx name info)
              (eval_deps (eval_local fuel locals ctx path) (s, []) info.deps)
      ]

  -- The loop of `eval` over the names.
  unfoldable pub eval_names :
      (EvalState Value → String → Option (EvalState Value × Diags))
      → EvalState Value × Diags
      → List String
      → Option (EvalState Value × Diags)
  unfolding Option.bind
  eval_names run r [] = some r
  eval_names run (s, diags) (name ∷ names) =
      Option.bind (run s name) (λ (s', ds). eval_names run (s', extend diags ds) names)

  -- eval. A path holds no name twice, so one more call than there are locals is the deepest.
  unfoldable pub eval : Ctx Value → Locals → Option (EvalState Value × Diags)
  eval ctx locals =
      eval_names (eval_local (suc (length (keys locals))) locals ctx [])
        (record { variables = []; remaining = keys locals }, []) (keys locals)

  -- evaluate: the child context, if any, and the diagnostics.
  unfoldable pub evaluate :
      Ctx Value → List (Dict String Expr) → Option (Option (Ctx Value) × Diags)
  evaluate ctx attrs_list = elim (collect_locals ctx attrs_list []) [
    | err ds ↦ some (none, ds)
    | ok [] ↦ some (some ctx, [])
    | ok (l ∷ ls) ↦ elim (compute_deps ctx (l ∷ ls) (l ∷ ls)) [
      | err ds ↦ some (none, ds)
      | ok locals ↦
          Option.map (λ (s, ds). (some (s.variables ∷ ctx), extend [] ds)) (eval ctx locals)
    ]
  ]

  -- The loop of Process over the blocks.
  unfoldable pub locals_attributes :
      Diags → List (Dict String Expr) → List (Block Body) → Result (Diags × List (Dict String Expr))
  locals_attributes diags attrs_list [] = ok (diags, attrs_list)
  locals_attributes diags attrs_list (block ∷ blocks) =
      let (attrs, ds) = just_attributes block.body in
      let more = locals_attributes (extend diags ds) (attrs_list ++ attrs ∷ []) blocks in
      let skip = locals_attributes diags attrs_list blocks in
      if block.type == "locals"
      then (if has_errors ds then err (extend diags ds) else more)
      else skip

  -- Process
  unfoldable pub process : Ctx Value → List (Block Body) → Option (Option (Ctx Value) × Diags)
  process ctx blocks = elim (locals_attributes [] [] blocks) [
    | err ds ↦ some (none, ds)
    | ok (diags, attrs_list) ↦
        Option.map (λ (child, ds). (child, extend diags ds)) (evaluate ctx attrs_list)
  ]
