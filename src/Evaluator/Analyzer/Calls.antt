-- ===== src/Evaluator/Analyzer/Calls.antt =====
-- checkFunctionRefs checks every call of a user function.
use function_hcl.Base.{
  ℕ, zero, suc, ◌≡◌, ap, String, true, false, Option, some, List, [], ◌∷◌, Dict, lookup, ◌==◌,
  string_eq, All, arith, Bool-cases, Option-cases, inl, inr,
}
use function_hcl.Hcl.{Hcl, Block, Diags, has_errors-extend}
use function_hcl.Hcl.Traversal.{Syntax}
use function_hcl.Evaluator.{Cty, Content}
use function_hcl.Evaluator.Schemas.{Schema, schemas_by_block_type}
use function_hcl.Evaluator.Analyzer.Checks.{Member}
use function_hcl.Evaluator.Analyzer.Bodies.{
  check_attribute_refs, check_block_refs, check_function_refs,
}
use function_hcl.Functions.Load.{Functions, check_calls, check_user_function_refs}
use function_hcl.Functions.Loaded.{CallsFunction, check_calls-All}

module _ (H : Hcl) (C : Cty H) (S : Syntax H) where
  open H use {Expr, Value, Body, just_attributes, extend, has_errors}
  open C use {content}
  open S use {traversals, function_calls}

  -- An expression in a content or in its blocks.
  pub data Mentions : Content Expr Body → Expr → Type 0 where
    in_attribute :
        (c : Content Expr Body) (name : String) (e : Expr)
        → Member (name, e) c.attributes
        → Mentions c e
    in_locals :
        (c : Content Expr Body) (b : Block Body) (name : String) (e : Expr)
        → Member b c.blocks
        → (b.type == "locals") ≡ true
        → Member (name, e) (just_attributes b.body).0
        → Mentions c e
    in_block :
        (c : Content Expr Body) (b : Block Body) (s : Schema) (e : Expr)
        → Member b c.blocks
        → (b.type == "locals") ≡ false
        → lookup b.type schemas_by_block_type ≡ some s
        → Mentions (content b.body s).0 e
        → Mentions c e

  module _ (fns : Functions H C S) where
    check_attribute_refs-All :
        (es : Dict String Expr) (ret ds : Diags)
        → check_attribute_refs H C S fns es ret ≡ some ds
        → has_errors ds ≡ false
        → (has_errors ret ≡ false)
          × ((name : String) (e : Expr)
              → Member (name, e) es
              → All (CallsFunction H C S fns) (function_calls e))
    unfolding check_attribute_refs check_user_function_refs
    check_attribute_refs-All [] ret ds ran clean =
        let same : ret ≡ ds = ground (arith, ran) in (rw same clean, λ name e m. absurd m)
    check_attribute_refs-All ((k, x) ∷ es) ret ds ran clean =
        elim (Option-cases (check_calls H C S fns (function_calls x) [])) [
          | inl stuck ↦ absurd (ground (arith, stuck, ran))
          | inr (more, checked) ↦
              let (kept, rest) =
                check_attribute_refs-All es (extend ret more) ds (ground (arith, checked, ran))
                  clean in
              let parts = has_errors-extend H ret more in
              let no_more : has_errors more ≡ false = ground (arith, kept, parts) in
              let (_, here_all) =
                check_calls-All H C S fns (function_calls x) [] more checked no_more in
              (
                ground (arith, kept, parts),
                λ name e m. elim m [
                  | inl here ↦ rw (ap (λ p. p.1) here) here_all
                  | inr there ↦ rest name e there
                ],
              )
        ]

    check_block_refs-clean :
        (nested : Content Expr Body → Option Diags) (blocks : List (Block Body)) (ret ds : Diags)
        → check_block_refs H C S nested fns blocks ret ≡ some ds
        → has_errors ds ≡ false
        → (has_errors ret ≡ false)
          × ((b : Block Body) (name : String) (e : Expr)
              → Member b blocks
              → (b.type == "locals") ≡ true
              → Member (name, e) (just_attributes b.body).0
              → All (CallsFunction H C S fns) (function_calls e))
          × ((b : Block Body) (s : Schema)
              → Member b blocks
              → (b.type == "locals") ≡ false
              → lookup b.type schemas_by_block_type ≡ some s
              → (ds' : Diags) × (nested (content b.body s).0 ≡ some ds') × (has_errors ds' ≡ false))
    unfolding check_block_refs
    check_block_refs-clean nested [] ret ds ran clean =
        let same : ret ≡ ds = ground (arith, ran) in
        (rw same clean, λ b name e m. absurd m, λ b s m. absurd m)
    check_block_refs-clean nested (b ∷ blocks) ret ds ran clean =
        elim (Bool-cases (b.type == "locals")) [
          | inl is ↦
              elim (Option-cases (check_attribute_refs H C S fns (just_attributes b.body).0 ret)) [
                | inl stuck ↦ absurd (ground (arith, is, stuck, ran))
                | inr (ret', checked) ↦
                    let (kept, of_locals, of_blocks) =
                      check_block_refs-clean nested blocks ret' ds
                        (ground (arith, is, checked, ran)) clean in
                    let (before, good) =
                      check_attribute_refs-All (just_attributes b.body).0 ret ret' checked kept in
                    (
                      before,
                      λ b' name e m is' there. elim m [
                        | inl here ↦
                            good name e (rw (← ap (λ x. (just_attributes x.body).0) here) there)
                        | inr later ↦ of_locals b' name e later is' there
                      ],
                      λ b' s m other known. elim m [
                        | inl here ↦ absurd (cc (is, other, ap (λ x. x.type) here))
                        | inr later ↦ of_blocks b' s later other known
                      ],
                    )
              ]
          | inr other ↦ elim (Option-cases (lookup b.type schemas_by_block_type)) [
            | inl stuck ↦ absurd (ground (arith, other, stuck, ran))
            | inr (s, known) ↦ elim (Option-cases (nested (content b.body s).0)) [
              | inl stuck ↦ absurd (ground (arith, other, known, stuck, ran))
              | inr (ds1, first) ↦
                  let (kept, of_locals, of_blocks) =
                    check_block_refs-clean nested blocks (extend ret ds1) ds
                      (ground (arith, other, known, first, ran)) clean in
                  let parts = has_errors-extend H ret ds1 in
                  let no_first : has_errors ds1 ≡ false = ground (arith, kept, parts) in
                  (
                    ground (arith, kept, parts),
                    λ b' name e m is' there. elim m [
                      | inl here ↦ absurd (cc (is', other, ap (λ x. x.type) here))
                      | inr later ↦ of_locals b' name e later is' there
                    ],
                    λ b' s' m other' known'. elim m [
                      | inl here ↦
                          let same_type : b'.type ≡ b.type = ap (λ x. x.type) here in
                          let same_schema : s' ≡ s = cc (known, known', same_type) in
                          (ds1, rw (here, same_schema) first, no_first)
                      | inr later ↦ of_blocks b' s' later other' known'
                    ],
                  )
            ]
          ]
        ]

    check_function_refs-parts :
        (fuel : ℕ) (c : Content Expr Body) (ds : Diags)
        → check_function_refs H C S fns (suc fuel) c ≡ some ds
        → (ret : Diags) × (check_attribute_refs H C S fns c.attributes [] ≡ some ret)
          × (check_block_refs H C S (check_function_refs H C S fns fuel) fns c.blocks ret ≡ some ds)
    unfolding check_function_refs
    check_function_refs-parts fuel c ds ran =
        elim (Option-cases (check_attribute_refs H C S fns c.attributes [])) [
          | inl stuck ↦ absurd (ground (arith, stuck, ran))
          | inr (ret, checked) ↦ (ret, checked, ground (arith, checked, ran))
        ]

    -- Where checkFunctionRefs returns without errors, each `invoke` in the attributes and locals of
    -- the content and of its blocks, at any depth, has two arguments and names a function.
    pub check_function_refs-All :
        (fuel : ℕ) (c : Content Expr Body) (ds : Diags) (e : Expr)
        → check_function_refs H C S fns fuel c ≡ some ds
        → has_errors ds ≡ false
        → Mentions c e
        → All (CallsFunction H C S fns) (function_calls e)
    unfolding check_function_refs
    check_function_refs-All zero c ds e ran clean m = absurd (cc (ran))
    check_function_refs-All (suc fuel) c ds _ ran clean (in_attribute _ name e there) =
        let (ret, checked, later) = check_function_refs-parts fuel c ds ran in
        let (kept, _, _) =
          check_block_refs-clean (check_function_refs H C S fns fuel) c.blocks ret ds later clean in
        (check_attribute_refs-All c.attributes [] ret checked kept).1 name e there
    check_function_refs-All (suc fuel) c ds _ ran clean (in_locals _ b name e there is within) =
        let (ret, checked, later) = check_function_refs-parts fuel c ds ran in
        let (_, of_locals, _) =
          check_block_refs-clean (check_function_refs H C S fns fuel) c.blocks ret ds later clean in
        of_locals b name e there is within
    check_function_refs-All (suc fuel) c ds _ ran clean (in_block _ b s e there other known m) =
        let (ret, checked, later) = check_function_refs-parts fuel c ds ran in
        let (_, _, of_blocks) =
          check_block_refs-clean (check_function_refs H C S fns fuel) c.blocks ret ds later clean in
        let (ds', nested, no_errors) = of_blocks b s there other known in
        check_function_refs-All fuel (content b.body s).0 ds' e nested no_errors m
