-- ===== src/Evaluator/Groups.antt =====
-- resources.go: processGroup, which handles the blocks of the top level and of each group in turn.
use function_hcl.Base.{ℕ, zero, suc, not, List, [], ◌∷◌, ◌==◌, ◌&&◌, ◌||◌, if◌then◌else◌, string_eq}
use function_hcl.Hcl.{Hcl, Ctx, Block, Diags}
use function_hcl.Evaluator.{Cty, Content, Handler, pure, panic, present, ◌>>=◌, group}
use function_hcl.Evaluator.Schemas.{group_schema}
use function_hcl.Evaluator.Common.{append_error, process_locals, evaluate_condition}
use function_hcl.Evaluator.Blocks.{process_composite, process_context}
use function_hcl.Evaluator.Resources.{process_resource}
use function_hcl.Evaluator.Collections.{process_resources}
use function_hcl.Evaluator.Requirements.{process_requirement}

module _ (H : Hcl) (C : Cty H) where
  open H use {Expr, Value, Body, extend, has_errors}
  open C use {content}

  -- The cases of the switch of processGroup but that for groups.
  unfoldable pub process_block : Ctx Value → Block Body → Handler Value Diags
  unfolding append_error
  process_block ctx b =
      if b.type == "resource"
      then process_resource H C ctx b
      else if b.type == "resources"
      then process_resources H C ctx b
      else if b.type == "context"
      then process_context H C ctx b
      else if b.type == "composite"
      then process_composite H C ctx b
      else if b.type == "requirement"
      then process_requirement H C ctx b
      else if b.type == "locals" || b.type == "function"
      then pure []
      else pure (append_error H C [] "unsupported block type" (b.type ∷ []))

  -- The loop of processGroup; `nested` is its call of itself. A group whose content has errors ends
  -- the loop with them.
  unfoldable pub process_blocks :
      (Ctx Value → Content Expr Body → Handler Value Diags)
      → Ctx Value
      → Diags
      → List (Block Body)
      → Handler Value Diags
  unfolding process_block
  process_blocks nested ctx diags [] = pure diags
  process_blocks nested ctx diags (b ∷ blocks) =
      let (body, ds) = content b.body group_schema in
      if b.type == "group" && has_errors ds then pure (extend diags ds) else do
        current ←
            if b.type == "group"
            then (nested ctx body >>= λ more. pure (extend ds more))
            else process_block ctx b
        let all = extend diags current
        (if has_errors current then pure all else process_blocks nested ctx all blocks)

  -- processGroup. The fuel bounds how deep groups are nested.
  unfoldable pub process_group : ℕ → Ctx Value → Content Expr Body → Handler Value Diags
  unfolding process_locals evaluate_condition append_error process_blocks
  process_group zero ctx content = panic
  process_group (suc fuel) ctx content = do
    (local_ctx, diags) ← process_locals H C ctx content
    (if has_errors diags then pure diags else do
      ctx' ← present local_ctx
      (cond, ds) ← evaluate_condition H C ctx' content group ""
      let all = extend diags ds
      (if has_errors ds
          then pure (append_error H C all "unable to evaluate condition" [])
          else if not cond
          then pure []
          else process_blocks (process_group fuel) ctx' all content.blocks))
