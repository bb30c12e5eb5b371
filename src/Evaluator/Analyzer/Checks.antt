-- ===== src/Evaluator/Analyzer/Checks.antt =====
-- What the loops of analyzeContent check.
use function_hcl.Base.{
  ◌≡◌, refl, String, Bool, true, false, ◌||◌, ◌&&◌, Option, some, List, [], ◌∷◌, Dict, lookup, All,
  ◌==◌, string_eq, arith, Bool-cases, Option-cases, ◌⊎◌, inl, inr, ap,
}
use function_hcl.Hcl.{Hcl, Ctx, Block, Diags, has_errors-extend}
use function_hcl.Hcl.Traversal.{Traversal, Syntax}
use function_hcl.Evaluator.{Cty, Content}
use function_hcl.Evaluator.Schemas.{Schema, schemas_by_block_type}
use function_hcl.Evaluator.Analyzer.{Names}
use function_hcl.Evaluator.Analyzer.References.{
  Header, header, symbols, make_tables, make_tables-symbols, check_with, check_references,
  check_variables, check_expressions, iterator_context, check_name, check_attributes,
  analyze_blocks,
}
use function_hcl.Evaluator.Analyzer.Resolve.{Good, clean-Good}

abbrev pub Member : {A : Type 0} → A → List A → Type 0
Member x [] = ⊥
Member x (y ∷ ys) = (x ≡ y) ⊎ Member x ys

module _ (H : Hcl) (C : Cty H) (S : Syntax H) where
  open H use {Expr, Value, Body, has_errors, extend}
  open C use {content}
  open S use {traversals}

  module _ (a : Names) where
    check_variables-Good :
        (ctx : Ctx Value) (tables : String → Dict String Value) (ts : List (Traversal Value))
        (ret ret' : Diags)
        → check_variables H C S a ctx tables ts ret ≡ some ret'
        → has_errors ret' ≡ false
        → (has_errors ret ≡ false) × All (Good H C S a ctx tables) ts
    unfolding check_variables
    check_variables-Good ctx tables [] ret ret' ran clean =
        let same : ret ≡ ret' = ground (arith, ran) in (rw same clean, tt)
    check_variables-Good ctx tables (t ∷ ts) ret ret' ran clean =
        elim (Option-cases (check_references H C S a ctx tables t)) [
          | inl stuck ↦ absurd (ground (arith, stuck, ran))
          | inr (ds, first) ↦
              let (kept, rest) =
                check_variables-Good ctx tables ts (extend ret ds) ret' (ground (arith, first, ran))
                  clean in
              let parts = has_errors-extend H ret ds in
              let no_first : has_errors ds ≡ false = ground (arith, kept, parts) in
              let before : has_errors ret ≡ false = ground (arith, kept, parts) in
              (before, (clean-Good H C S a ctx tables t ds first no_first, rest))
        ]

    check_expressions-Good :
        (ctx : Ctx Value) (tables : String → Dict String Value) (skip : String → Bool)
        (es : Dict String Expr) (ret ret' : Diags)
        → check_expressions H C S a ctx tables skip es ret ≡ some ret'
        → has_errors ret' ≡ false
        → (has_errors ret ≡ false)
          × ((name : String) (e : Expr)
              → Member (name, e) es
              → skip name ≡ false
              → All (Good H C S a ctx tables) (traversals e))
    unfolding check_expressions
    check_expressions-Good ctx tables skip [] ret ret' ran clean =
        let same : ret ≡ ret' = ground (arith, ran) in (rw same clean, λ name e m h. absurd m)
    check_expressions-Good ctx tables skip ((name, e) ∷ es) ret ret' ran clean =
        elim (Bool-cases (skip name)) [
          | inl skipped ↦
              let (kept, rest) =
                check_expressions-Good ctx tables skip es ret ret' (ground (arith, skipped, ran))
                  clean in
              (
                kept,
                λ n x m h. elim m [
                  | inl here ↦ absurd (cc (skipped, h, ap (λ p. skip p.0) here))
                  | inr there ↦ rest n x there h
                ],
              )
          | inr visited ↦
              elim (Option-cases (check_variables H C S a ctx tables (traversals e) ret)) [
                | inl stuck ↦ absurd (ground (arith, visited, stuck, ran))
                | inr (ret1, first) ↦
                    let (kept, rest) =
                      check_expressions-Good ctx tables skip es ret1 ret'
                        (ground (arith, visited, first, ran)) clean in
                    let (before, good) =
                      check_variables-Good ctx tables (traversals e) ret ret1 first kept in
                    (
                      before,
                      λ n x m h. elim m [
                        | inl here ↦ rw (ap (λ p. p.1) here) good
                        | inr there ↦ rest n x there h
                      ],
                    )
              ]
        ]

    check_name-Good :
        (ctx : Ctx Value) (tables : String → Dict String Value) (type : String)
        (c : Content Expr Body) (ret ret' : Diags)
        → check_name H C S a ctx tables type c ret ≡ some ret'
        → has_errors ret' ≡ false
        → (has_errors ret ≡ false)
          × ((e : Expr)
              → (type == "resources") ≡ true
              → lookup "name" c.attributes ≡ some e
              → All (Good H C S a (iterator_context H C S type ctx) tables) (traversals e))
    unfolding check_name
    check_name-Good ctx tables type c ret ret' ran clean = elim (Bool-cases (type == "resources")) [
      | inr other ↦
          let same : ret ≡ ret' = ground (arith, other, ran) in
          (rw same clean, λ e is named. absurd (cc (other, is)))
      | inl is ↦ elim (Option-cases (lookup "name" c.attributes)) [
        | inl unnamed ↦
            let same : ret ≡ ret' = ground (arith, is, unnamed, ran) in
            (rw same clean, λ e _ named. absurd (cc (unnamed, named)))
        | inr (e, named) ↦
            let (kept, good) =
              check_variables-Good (iterator_context H C S type ctx) tables (traversals e) ret ret'
                (ground (arith, is, named, ran)) clean in
            (
              kept,
              λ e' _ named'. let same_name : e ≡ e' = cc (named, named') in rw (← same_name) good,
            )
      ]
    ]

    check_with-Good :
        (ctx : Ctx Value) (tables : String → Dict String Value) (type : String)
        (c : Content Expr Body) (exprs : Dict String Expr) (ret : Diags)
        → check_with H C S a ctx tables type c exprs ≡ some ret
        → has_errors ret ≡ false
        → ((name : String) (e : Expr)
            → Member (name, e) exprs
            → All (Good H C S a ctx tables) (traversals e))
          × ((name : String) (e : Expr)
              → Member (name, e) c.attributes
              → (name == "name" && type == "resources") ≡ false
              → All (Good H C S a ctx tables) (traversals e))
          × ((e : Expr)
              → (type == "resources") ≡ true
              → lookup "name" c.attributes ≡ some e
              → All (Good H C S a (iterator_context H C S type ctx) tables) (traversals e))
    unfolding check_with
    check_with-Good ctx tables type c exprs ret ran clean =
        elim (Option-cases (check_expressions H C S a ctx tables (λ name. false) exprs [])) [
          | inl stuck ↦ absurd (ground (arith, stuck, ran))
          | inr (ret1, first) ↦
              elim (Option-cases (check_expressions H C S a ctx tables skip c.attributes ret1)) [
                | inl stuck ↦ absurd (ground (arith, first, stuck, ran))
                | inr (ret2, second) ↦
                    let third : check_name H C S a ctx tables type c ret2 ≡ some ret =
                      ground (arith, first, second, ran) in
                    let (clean2, of_name) =
                      check_name-Good ctx tables type c ret2 ret third clean in
                    let (clean1, of_attributes) =
                      check_expressions-Good ctx tables skip c.attributes ret1 ret2 second clean2 in
                    let (_, of_locals) =
                      check_expressions-Good ctx tables (λ name. false) exprs [] ret1 first
                        clean1 in
                    (λ n e m. of_locals n e m refl, of_attributes, of_name)
              ]
        ]
      where
        skip : String → Bool
        skip name = name == "name" && type == "resources"

    -- The checks of a block's own expressions.
    pub check_attributes-Good :
        (ctx : Ctx Value) (type : String) (c : Content Expr Body) (exprs : Dict String Expr)
        (ret : Diags)
        → check_attributes H C S a ctx type c exprs ≡ some ret
        → has_errors ret ≡ false
        → ((name : String) (e : Expr)
            → Member (name, e) exprs
            → All (Good H C S a ctx (symbols H C S ctx)) (traversals e))
          × ((name : String) (e : Expr)
              → Member (name, e) c.attributes
              → (name == "name" && type == "resources") ≡ false
              → All (Good H C S a ctx (symbols H C S ctx)) (traversals e))
          × ((e : Expr)
              → (type == "resources") ≡ true
              → lookup "name" c.attributes ≡ some e
              → All
                  (Good H C S a (iterator_context H C S type ctx) (symbols H C S ctx))
                  (traversals e))
    unfolding check_attributes
    check_attributes-Good ctx type c exprs ret ran clean =
        elim (Option-cases (make_tables H C S ctx)) [
          | inl stuck ↦ absurd (ground (arith, stuck, ran))
          | inr (tables, made) ↦
              rw (make_tables-symbols H C S ctx tables made)
                (check_with-Good ctx tables type c exprs ret (ground (arith, made, ran)) clean)
        ]

    pub analyze_blocks-clean :
        (nested : Header → Content Expr Body → Option Diags) (blocks : List (Block Body))
        (ret ds : Diags)
        → analyze_blocks H C S nested blocks ret ≡ some ds
        → has_errors ds ≡ false
        → (has_errors ret ≡ false)
          × ((b : Block Body) (s : Schema)
              → Member b blocks
              → (b.type == "locals" || b.type == "function") ≡ false
              → lookup b.type schemas_by_block_type ≡ some s
              → (ds' : Diags) × (nested (header b) (content b.body s).0 ≡ some ds')
                × (has_errors ds' ≡ false))
    unfolding analyze_blocks
    analyze_blocks-clean nested [] ret ds ran clean =
        let same : ret ≡ ds = ground (arith, ran) in (rw same clean, λ b s m. absurd m)
    analyze_blocks-clean nested (b ∷ blocks) ret ds ran clean =
        elim (Bool-cases (b.type == "locals" || b.type == "function")) [
          | inl skipped ↦
              let (kept, rest) =
                analyze_blocks-clean nested blocks ret ds (ground (arith, skipped, ran)) clean in
              (
                kept,
                λ b' s m h known. elim m [
                  | inl here ↦ absurd (cc (skipped, h, ap (λ x. x.type) here))
                  | inr there ↦ rest b' s there h known
                ],
              )
          | inr visited ↦ elim (Option-cases (lookup b.type schemas_by_block_type)) [
            | inl stuck ↦ absurd (ground (arith, visited, stuck, ran))
            | inr (s, known) ↦ elim (Bool-cases (has_errors (content b.body s).1)) [
              | inl bad ↦ absurd (ground (arith, visited, known, bad, ran, clean))
              | inr fine ↦ elim (Option-cases (nested (header b) (content b.body s).0)) [
                | inl stuck ↦ absurd (ground (arith, visited, known, fine, stuck, ran))
                | inr (ds1, first) ↦
                    let (kept, rest) =
                      analyze_blocks-clean nested blocks (extend ret ds1) ds
                        (ground (arith, visited, known, fine, first, ran)) clean in
                    let parts = has_errors-extend H ret ds1 in
                    let no_first : has_errors ds1 ≡ false = ground (arith, kept, parts) in
                    let before : has_errors ret ≡ false = ground (arith, kept, parts) in
                    (
                      before,
                      λ b' s' m h known'. elim m [
                        | inl here ↦
                            let same_type : b'.type ≡ b.type = ap (λ x. x.type) here in
                            let same_schema : s' ≡ s = cc (known, known', same_type) in
                            (ds1, rw (here, same_schema) first, no_first)
                        | inr there ↦ rest b' s' there h known'
                      ],
                    )
              ]
            ]
          ]
        ]
