-- ===== src/Evaluator/Analyzer/Accepted.antt =====
-- What holds of files that the analyzer accepts.
use function_hcl.Base.{
  ℕ, ◌≡◌, refl, false, Option, none, some, List, [], ◌∷◌, string_eq, All, Distinct, arith,
  Bool-cases, Option-cases, inl, inr,
}
use function_hcl.Hcl.{Hcl, Ctx, Diags, report, has_errors-extend, has_errors-to_error_diag}
use function_hcl.Hcl.Traversal.{Syntax}
use function_hcl.Evaluator.{Cty, Content, new_evaluator, Evaluator}
use function_hcl.Evaluator.Severity.{sort_diags_by_severity, sort_clean}
use function_hcl.Evaluator.Variables.{Wire, make_vars}
use function_hcl.Evaluator.Run.{make_content}
use function_hcl.Evaluator.Analyzer.{Names, new_analyzer, check_bodies}
use function_hcl.Evaluator.Analyzer.Added.{Kind, Unique}
use function_hcl.Evaluator.Analyzer.Unique.{declared_all, check_bodies-Unique}
use function_hcl.Evaluator.Analyzer.References.{symbols, analyze_content}
use function_hcl.Evaluator.Analyzer.Resolve.{Good}
use function_hcl.Evaluator.Analyzer.Visits.{Occurs, analyze_content-Good}
use function_hcl.Evaluator.Analyzer.Bodies.{
  empty_request, no_header, check_function_refs, analyze_loaded, analyze_checked, analyze_bodies,
  do_analyze,
}
use function_hcl.Functions.Load.{Bare, Functions, process_functions}
use function_hcl.Functions.Loaded.{CallsFunction, Loaded, process_functions-Loaded}
use function_hcl.Evaluator.Analyzer.Calls.{Mentions, check_function_refs-All}

module _ (H : Hcl) (C : Cty H) (S : Syntax H) where
  open H use {Expr, Value, Body, extend, has_errors}
  open S use {traversals, function_calls}

  module _ (W : Wire H) (B : Bare H) where
    -- What the analyzer has checked of files that it accepts.
    pub record Accepted (fuel : ℕ) (bodies : List Body) : Type 0 where
      pub names : Names
      pub merged : Content Expr Body
      pub functions : Functions H C S
      pub context : Ctx Value
      -- The names are those that the check of the structure has found, no name of a kind twice.
      pub found : (ds : Diags) × (check_bodies H C fuel [] bodies new_analyzer ≡ some (ds, names))
      pub unique : (k : Kind) → Unique (declared_all H C k fuel bodies)
      -- The blocks of all files, their functions, and the variables of an empty request.
      pub content_merged : (ds : Diags) × (make_content H C bodies ≡ (some merged, ds))
      pub functions_read :
          (ds : Diags) × (process_functions H C S B merged ≡ some (some functions, ds))
      pub variables_made :
          (e : Evaluator Value) × (make_vars H C W ([] ∷ []) empty_request new_evaluator
            ≡ some (some context, e))
      pub functions_loaded : Distinct functions × All (Loaded H C S functions) functions
      -- Every variable of every expression refers to what there is, outside of functions.
      pub references :
          (inner around : Ctx Value) (e : Expr)
          → Occurs H C S context no_header merged inner around e
          → All (Good H C S names inner (symbols H C S around)) (traversals e)
      -- Every call of a user function names one.
      pub calls :
          (e : Expr)
          → Mentions H C S merged e
          → All (CallsFunction H C S functions) (function_calls e)

    -- The end of analyzeBodies.
    analyze_loaded-Accepted :
        (fuel : ℕ) (bodies : List Body) (names : Names) (ds0 ds1 ds2 ds : Diags)
        (merged : Content Expr Body) (fns : Functions H C S)
        → check_bodies H C fuel [] bodies new_analyzer ≡ some (ds0, names)
        → has_errors ds0 ≡ false
        → make_content H C bodies ≡ (some merged, ds1)
        → process_functions H C S B merged ≡ some (some fns, ds2)
        → has_errors ds2 ≡ false
        → analyze_loaded H C S W B fuel names fns merged ≡ some ds
        → has_errors ds ≡ false
        → Accepted fuel bodies
    unfolding analyze_loaded
    analyze_loaded-Accepted fuel bodies names ds0 ds1 ds2 ds merged fns checked fine made read good
          ran clean =
        elim (Option-cases (make_vars H C W ([] ∷ []) empty_request new_evaluator)) [
          | inl stuck ↦ absurd (ground (arith, stuck, ran))
          | inr ((none, e), vars) ↦
              let what = report "internal error: setup dummy vars" [] in
              absurd (ground (arith, vars, ran, clean, has_errors-to_error_diag H what))
          | inr ((some ctx, e), vars) ↦
              elim (Option-cases (analyze_content H C S names fuel ctx no_header merged)) [
                | inl stuck ↦ absurd (ground (arith, vars, stuck, ran))
                | inr (ret, analyzed) ↦
                    elim (Option-cases (check_function_refs H C S fns fuel merged)) [
                      | inl stuck ↦ absurd (ground (arith, vars, analyzed, stuck, ran))
                      | inr (es, called) ↦
                          let same : extend ret es ≡ ds =
                            ground (arith, vars, analyzed, called, ran) in
                          let parts = has_errors-extend H ret es in
                          let no_ret : has_errors ret ≡ false =
                            ground (arith, same, parts, clean) in
                          let no_es : has_errors es ≡ false = ground (arith, same, parts, clean) in
                          record {
                            names = names;
                            merged = merged;
                            functions = fns;
                            context = ctx;
                            found = (ds0, checked);
                            unique =
                                λ k. check_bodies-Unique H C k fuel bodies names ds0 checked fine;
                            content_merged = (ds1, made);
                            functions_read = (ds2, read);
                            variables_made = (e, vars);
                            functions_loaded =
                                process_functions-Loaded H C S B merged fns ds2 read good;
                            references = λ inner around x o.
                                analyze_content-Good H C S names fuel ctx no_header merged ret inner
                                  around x analyzed no_ret o;
                            calls = λ x m.
                                check_function_refs-All H C S fns fuel merged es x called no_es m;
                          }
                    ]
              ]
        ]

    -- analyzeBodies, behind the check of the structure.
    analyze_checked-Accepted :
        (fuel : ℕ) (bodies : List Body) (names : Names) (ds0 ds : Diags)
        → check_bodies H C fuel [] bodies new_analyzer ≡ some (ds0, names)
        → has_errors ds0 ≡ false
        → analyze_checked H C S W B fuel bodies names ds0 ≡ some ds
        → has_errors ds ≡ false
        → Accepted fuel bodies
    unfolding analyze_checked
    analyze_checked-Accepted fuel bodies names ds0 ds checked fine ran clean =
        of_content (make_content H C bodies) refl
      where
        of_functions :
            (merged : Content Expr Body) (ds1 ds2 : Diags)
            → make_content H C bodies ≡ (some merged, ds1)
            → has_errors (extend ds0 ds1) ≡ false
            → has_errors (extend (extend ds0 ds1) ds2) ≡ false
            → (fns : Option (Functions H C S)) → process_functions H C S B merged ≡ some (fns, ds2)
            → Accepted fuel bodies
        of_functions merged ds1 ds2 q good kept none read =
            absurd (ground (arith, q, good, read, kept, ran))
        of_functions merged ds1 ds2 q good kept (some fns) read =
            let parts = has_errors-extend H (extend ds0 ds1) ds2 in
            analyze_loaded-Accepted fuel bodies names ds0 ds1 ds2 ds merged fns checked fine q read
              (ground (arith, parts, kept)) (ground (arith, q, good, read, kept, ran)) clean

        of_content :
            (m : Option (Content Expr Body) × Diags)
            → make_content H C bodies ≡ m
            → Accepted fuel bodies
        of_content (none, ds1) q = elim (Bool-cases (has_errors (extend ds0 ds1))) [
          | inl bad ↦ absurd (ground (arith, q, bad, ran, clean))
          | inr good ↦ absurd (ground (arith, q, good, ran))
        ]
        of_content (some merged, ds1) q = elim (Bool-cases (has_errors (extend ds0 ds1))) [
          | inl bad ↦ absurd (ground (arith, q, bad, ran, clean))
          | inr good ↦ elim (Option-cases (process_functions H C S B merged)) [
            | inl stuck ↦ absurd (ground (arith, q, good, stuck, ran))
            | inr ((fns, ds2), read) ↦
                elim (Bool-cases (has_errors (extend (extend ds0 ds1) ds2))) [
                  | inl bad ↦ absurd (ground (arith, q, good, read, bad, ran, clean))
                  | inr kept ↦ of_functions merged ds1 ds2 q good kept fns read
                ]
          ]
        ]

    pub do_analyze-Accepted :
        (fuel : ℕ) (bodies : List Body) (ds : Diags)
        → do_analyze H C S W B fuel bodies ≡ some ds
        → has_errors ds ≡ false
        → Accepted fuel bodies
    unfolding do_analyze analyze_bodies
    do_analyze-Accepted fuel bodies ds ran clean =
        elim (Option-cases (check_bodies H C fuel [] bodies new_analyzer)) [
          | inl stuck ↦ absurd (ground (arith, stuck, ran))
          | inr ((ds0, names), checked) ↦ elim (Bool-cases (has_errors ds0)) [
            | inl bad ↦
                let same : sort_diags_by_severity ds0 ≡ ds = ground (arith, checked, bad, ran) in
                let none_there = sort_clean H ds0 (rw same clean) in absurd (cc (bad, none_there))
            | inr fine ↦ elim (Option-cases (analyze_checked H C S W B fuel bodies names ds0)) [
              | inl stuck ↦ absurd (ground (arith, checked, fine, stuck, ran))
              | inr (es, done) ↦
                  let same : sort_diags_by_severity es ≡ ds =
                    ground (arith, checked, fine, done, ran) in
                  analyze_checked-Accepted fuel bodies names ds0 es checked fine done
                    (sort_clean H es (rw same clean))
            ]
          ]
        ]
