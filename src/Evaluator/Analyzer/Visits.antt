-- ===== src/Evaluator/Analyzer/Visits.antt =====
-- analyzeContent checks every expression of every block.
use function_hcl.Base.{
  ℕ, zero, suc, ◌≡◌, String, true, false, ◌||◌, ◌&&◌, some, [], ◌∷◌, Dict, lookup, All, ◌==◌,
  string_eq, arith, Bool-cases, Option-cases, inl, inr,
}
use function_hcl.Hcl.{Hcl, Ctx, Block, Diag, Diags, ok}
use function_hcl.Hcl.Traversal.{Syntax}
use function_hcl.Evaluator.{Cty, Content}
use function_hcl.Evaluator.Schemas.{Schema, schemas_by_block_type}
use function_hcl.Evaluator.Analyzer.{Names}
use function_hcl.Evaluator.Analyzer.References.{
  Header, header, symbols, enter_block, iterator_context, requirement_check, requirement_diags,
  check_attributes, analyze_blocks, analyze_content,
}
use function_hcl.Evaluator.Analyzer.Resolve.{Good}
use function_hcl.Evaluator.Analyzer.Checks.{Member, check_attributes-Good, analyze_blocks-clean}

module _ (H : Hcl) (C : Cty H) (S : Syntax H) where
  open H use {Expr, Value, Body, has_errors, extend}
  open C use {content}
  open S use {traversals}

  -- An expression in a block with its content, or in a block inside, with the context that it is
  -- checked in and the context whose values of `req` and `self` it may name.
  pub data Occurs
      : Ctx Value → Header → Content Expr Body → Ctx Value → Ctx Value → Expr → Type 0 where
    in_local :
        (ctx : Ctx Value) (parent : Header) (c : Content Expr Body) (child : Ctx Value)
        (exprs : Dict String Expr) (name : String) (e : Expr)
        → enter_block H C S parent.type ctx c.blocks ≡ some (ok (some child, exprs))
        → Member (name, e) exprs
        → Occurs ctx parent c child child e
    in_attribute :
        (ctx : Ctx Value) (parent : Header) (c : Content Expr Body) (child : Ctx Value)
        (exprs : Dict String Expr) (name : String) (e : Expr)
        → enter_block H C S parent.type ctx c.blocks ≡ some (ok (some child, exprs))
        → Member (name, e) c.attributes
        → (name == "name" && parent.type == "resources") ≡ false
        → Occurs ctx parent c child child e
    in_name :
        (ctx : Ctx Value) (parent : Header) (c : Content Expr Body) (child : Ctx Value)
        (exprs : Dict String Expr) (e : Expr)
        → enter_block H C S parent.type ctx c.blocks ≡ some (ok (some child, exprs))
        → (parent.type == "resources") ≡ true
        → lookup "name" c.attributes ≡ some e
        → Occurs ctx parent c (iterator_context H C S parent.type child) child e
    in_block :
        (ctx : Ctx Value) (parent : Header) (c : Content Expr Body) (child : Ctx Value)
        (exprs : Dict String Expr) (b : Block Body) (s : Schema) (inner around : Ctx Value)
        (e : Expr)
        → enter_block H C S parent.type ctx c.blocks ≡ some (ok (some child, exprs))
        → Member b c.blocks
        → (b.type == "locals" || b.type == "function") ≡ false
        → lookup b.type schemas_by_block_type ≡ some s
        → Occurs
            (iterator_context H C S parent.type child)
            (header b)
            (content b.body s).0
            inner
            around
            e
        → Occurs ctx parent c inner around e

  requirement_diags-errors :
      (parent : Header) (c : Content Expr Body) (d : Diag) (ds : Diags)
      → requirement_diags H C S parent c ≡ some (d ∷ ds)
      → has_errors (d ∷ ds) ≡ true
  unfolding requirement_diags
  requirement_diags-errors parent c d ds h = elim (Bool-cases (parent.type == "requirement")) [
    | inr other ↦ absurd (ground (arith, other, h))
    | inl is ↦ elim (Option-cases (requirement_check H C S parent c)) [
      | inl stuck ↦ absurd (ground (arith, is, stuck, h))
      | inr (ds', checked) ↦ elim (Bool-cases (has_errors ds')) [
        | inl bad ↦ let same : ds' ≡ d ∷ ds = ground (arith, is, checked, bad, h) in rw (← same) bad
        | inr fine ↦ absurd (ground (arith, is, checked, fine, h))
      ]
    ]
  ]

  module _ (a : Names) where
    -- What is behind a call of analyzeContent without errors.
    analyze_content-parts :
        (fuel : ℕ) (ctx : Ctx Value) (parent : Header) (c : Content Expr Body) (ds : Diags)
        (child : Ctx Value) (exprs : Dict String Expr)
        → analyze_content H C S a (suc fuel) ctx parent c ≡ some ds
        → has_errors ds ≡ false
        → enter_block H C S parent.type ctx c.blocks ≡ some (ok (some child, exprs))
        → (ret : Diags) × (check_attributes H C S a child parent.type c exprs ≡ some ret)
          × (analyze_blocks H C S
                (analyze_content H C S a fuel (iterator_context H C S parent.type child))
                c.blocks
                ret
              ≡ some ds)
    unfolding analyze_content
    analyze_content-parts fuel ctx parent c ds child exprs ran clean locals =
        elim (Option-cases (requirement_diags H C S parent c)) [
          | inl stuck ↦ absurd (ground (arith, stuck, ran))
          | inr (d ∷ es, bad) ↦
              let same : d ∷ es ≡ ds = ground (arith, bad, ran) in
              absurd (cc (clean, same, requirement_diags-errors parent c d es bad))
          | inr ([], fine) ↦
              elim (Option-cases (check_attributes H C S a child parent.type c exprs)) [
                | inl stuck ↦ absurd (ground (arith, fine, locals, stuck, ran))
                | inr (ret, checked) ↦ (ret, checked, ground (arith, fine, locals, checked, ran))
              ]
        ]

    -- Where analyzeContent returns without errors, every variable of every expression in the block,
    -- in its locals and attributes and those of the blocks inside at any depth, refers to what
    -- there is in the context that it is checked in.
    pub analyze_content-Good :
        (fuel : ℕ) (ctx : Ctx Value) (parent : Header) (c : Content Expr Body) (ds : Diags)
        (inner around : Ctx Value) (e : Expr)
        → analyze_content H C S a fuel ctx parent c ≡ some ds
        → has_errors ds ≡ false
        → Occurs ctx parent c inner around e
        → All (Good H C S a inner (symbols H C S around)) (traversals e)
    unfolding analyze_content
    analyze_content-Good zero ctx parent c ds inner around e ran clean o = absurd (cc (ran))
    analyze_content-Good (suc fuel) _ _ _ ds _ _ e ran clean
          (in_local ctx parent c child exprs name _ locals m) =
        let (ret, checked, blocks) =
          analyze_content-parts fuel ctx parent c ds child exprs ran clean locals in
        let (kept, _) =
          analyze_blocks-clean H C S a
            (analyze_content H C S a fuel (iterator_context H C S parent.type child)) c.blocks ret
            ds blocks clean in
        (check_attributes-Good H C S a child parent.type c exprs ret checked kept).0 name e m
    analyze_content-Good (suc fuel) _ _ _ ds _ _ e ran clean
          (in_attribute ctx parent c child exprs name _ locals m plain) =
        let (ret, checked, blocks) =
          analyze_content-parts fuel ctx parent c ds child exprs ran clean locals in
        let (kept, _) =
          analyze_blocks-clean H C S a
            (analyze_content H C S a fuel (iterator_context H C S parent.type child)) c.blocks ret
            ds blocks clean in
        (check_attributes-Good H C S a child parent.type c exprs ret checked kept).1 name e m plain
    analyze_content-Good (suc fuel) _ _ _ ds _ _ e ran clean
          (in_name ctx parent c child exprs _ locals is named) =
        let (ret, checked, blocks) =
          analyze_content-parts fuel ctx parent c ds child exprs ran clean locals in
        let (kept, _) =
          analyze_blocks-clean H C S a
            (analyze_content H C S a fuel (iterator_context H C S parent.type child)) c.blocks ret
            ds blocks clean in
        (check_attributes-Good H C S a child parent.type c exprs ret checked kept).2 e is named
    analyze_content-Good (suc fuel) _ _ _ ds inner around e ran clean
          (in_block ctx parent c child exprs b s _ _ _ locals m visited known o) =
        let (ret, checked, blocks) =
          analyze_content-parts fuel ctx parent c ds child exprs ran clean locals in
        let (_, below) =
          analyze_blocks-clean H C S a
            (analyze_content H C S a fuel (iterator_context H C S parent.type child)) c.blocks ret
            ds blocks clean in
        let (ds', nested, no_errors) = below b s m visited known in
        analyze_content-Good fuel _ (header b) (content b.body s).0 ds' inner around e nested
          no_errors o
