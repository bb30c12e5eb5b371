-- ===== src/Evaluator/Fuel.antt =====
-- The fuel of processGroup of resources.go.
use function_hcl.Base.{ℕ, zero, suc, ◌<◌, ◌≤◌, ◌≡◌, refl, List, [], ◌∷◌, string_eq, All, arith}
use function_hcl.Hcl.{Hcl, Ctx, Block, Diags}
use function_hcl.Evaluator.{Cty, Content, Handler}
use function_hcl.Evaluator.Groups.{process_blocks, process_group}
use function_hcl.Evaluator.Schemas.{Schema, group_schema}

module _ (H : Hcl) (C : Cty H) where
  open H use {Expr, Value, Body, value, extend, has_errors}
  open C use {content, depth, content_depth}

  process_blocks-agree :
      (f g : Ctx Value → Content Expr Body → Handler Value Diags) (n : ℕ)
      → ((m : ℕ) (ctx : Ctx Value) (c : Content Expr Body)
          → m < n
          → All (λ b. depth b.body < m) c.blocks
          → f ctx c ≡ g ctx c)
      → (ctx : Ctx Value) (diags : Diags) (blocks : List (Block Body))
      → All (λ b. depth b.body < n) blocks
      → process_blocks H C f ctx diags blocks ≡ process_blocks H C g ctx diags blocks
  unfolding process_blocks
  process_blocks-agree f g n same ctx diags [] h = refl
  process_blocks-agree f g n same ctx diags (b ∷ blocks) (lower, rest) =
      let body = (content b.body group_schema).0 in
      let nested : f ctx body ≡ g ctx body =
        same (depth b.body) ctx body lower (content_depth b.body group_schema) in
      let later : (ds : Diags)
          → process_blocks H C f ctx ds blocks ≡ process_blocks H C g ctx ds blocks =
        λ ds. process_blocks-agree f g n same ctx ds blocks rest in
      simp (nested, later)

  nested-agree :
      (f g n : ℕ)
      → n ≤ f
      → n ≤ g
      → (m : ℕ) (ctx : Ctx Value) (c : Content Expr Body) → m < n
      → All (λ b. depth b.body < m) c.blocks
      → process_group H C f ctx c ≡ process_group H C g ctx c
  unfolding process_group
  nested-agree zero g n nf ng m ctx c h deep = absurd (omega arith)
  nested-agree (suc f) zero n nf ng m ctx c h deep = absurd (omega arith)
  nested-agree (suc f) (suc g) n nf ng m ctx c h deep =
      let same : (ctx' : Ctx Value) (diags : Diags)
          → process_blocks H C (process_group H C f) ctx' diags c.blocks
            ≡ process_blocks H C (process_group H C g) ctx' diags c.blocks =
        λ ctx' diags.
          process_blocks-agree (process_group H C f) (process_group H C g) m
            (nested-agree f g m (omega arith) (omega arith)) ctx' diags c.blocks deep in
      simp (same)

  -- The fuel of processGroup on the content of a body: any amount over the depth of the body gives
  -- what one more than the depth gives.
  pub enough_fuel :
      (fuel : ℕ) (ctx : Ctx Value) (body : Body) (schema : Schema)
      → depth body < fuel
      → process_group H C fuel ctx (content body schema).0
        ≡ process_group H C (suc (depth body)) ctx (content body schema).0
  enough_fuel fuel ctx body schema h =
      nested-agree fuel (suc (depth body)) (suc (depth body)) (omega arith) (omega arith)
        (depth body) ctx (content body schema).0 (omega arith) (content_depth body schema)
