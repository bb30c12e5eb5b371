-- ===== src/Evaluator/Steps/Groups.antt =====
-- The frame of processGroup of resources.go.
use function_hcl.Base.{ℕ, zero, suc, ◌≡◌, not, ◌&&◌, some, List, [], ◌∷◌, ◌==◌, string_eq}
use function_hcl.Hcl.{Hcl, Ctx, Block, Diags}
use function_hcl.Evaluator.{Cty, Content, Evaluator, Handler, group}
use function_hcl.Evaluator.Groups.{process_block, process_blocks, process_group}
use function_hcl.Evaluator.Schemas.{group_schema}
use function_hcl.Evaluator.Frame.{
  Extends, anything, Meets, Grows, Grows-pure, Grows-panic, Grows-present, Grows-bind, Grows-if,
}
use function_hcl.Evaluator.Steps.{
  Steps, process_locals-Grows, evaluate_condition-Grows, process_composite-Grows,
  process_context-Grows,
}
use function_hcl.Evaluator.Steps.Resources.{process_resource-Grows, process_resources-Grows}
use function_hcl.Evaluator.Steps.Requirements.{process_requirement-Grows}

module _ (H : Hcl) (C : Cty H) where
  open H use {Expr, Value, Body, value, extend, has_errors}
  open C use {content}

  process_block-Grows :
      (ctx : Ctx Value) (b : Block Body) → Grows anything anything (process_block H C ctx b)
  unfolding process_block
  process_block-Grows ctx b =
      search
        (
          Steps, process_composite-Grows, process_context-Grows, process_resource-Grows,
          process_resources-Grows, process_requirement-Grows,
        )
        depth 30

  process_blocks-Grows :
      (nested : Ctx Value → Content Expr Body → Handler Value Diags)
      → ((ctx : Ctx Value) (content : Content Expr Body)
          → Grows anything anything (nested ctx content))
      → (ctx : Ctx Value) (diags : Diags) (blocks : List (Block Body))
      → Grows anything anything (process_blocks H C nested ctx diags blocks)
  unfolding process_blocks
  process_blocks-Grows nested g ctx diags [] = Grows-pure _
  process_blocks-Grows nested g ctx diags (b ∷ blocks) =
      let body = (content b.body group_schema).0 in
      let ds = (content b.body group_schema).1 in
      Grows-if (b.type == "group" && has_errors ds) (Grows-pure _) (
        Grows-bind
          (Grows-if (b.type == "group") (Grows-bind (g ctx body) (λ more. Grows-pure _))
            (process_block-Grows ctx b))
          λ current.
            Grows-if (has_errors current) (Grows-pure _)
              (process_blocks-Grows nested g ctx (extend diags current) blocks))

  process_group-Grows :
      (fuel : ℕ) (ctx : Ctx Value) (content : Content Expr Body)
      → Grows anything anything (process_group H C fuel ctx content)
  unfolding process_group
  process_group-Grows zero ctx content = Grows-panic
  process_group-Grows (suc fuel) ctx content =
      Grows-bind (process_locals-Grows H C ctx content) λ (local_ctx, diags).
        Grows-if (has_errors diags) (Grows-pure _) (
          Grows-bind (Grows-present local_ctx) λ ctx'.
            Grows-bind (evaluate_condition-Grows H C ctx' content group "") λ (cond, ds).
              Grows-if (has_errors ds) (Grows-pure _) (
                Grows-if (not cond) (Grows-pure _) (
                  process_blocks-Grows (process_group H C fuel) (process_group-Grows fuel) ctx' _
                    content.blocks)))

  -- A run of processGroup that returns keeps each desired resource and the observed resources, adds
  -- discards only at the end, and, where each resource with a readiness was desired, leaves it so,
  -- as it does where each stands once among the readiness.
  pub process_group-Extends :
      (fuel : ℕ) (ctx : Ctx Value) (content : Content Expr Body) (e e' : Evaluator Value)
      (diags : Diags)
      → process_group H C fuel ctx content e ≡ some (diags, e')
      → Extends e e'
  unfolding Meets
  process_group-Extends fuel ctx content e e' diags h =
      ((process_group-Grows fuel ctx content).runs e e' diags tt h).0
