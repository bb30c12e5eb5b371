-- ===== src/Evaluator/Evaluate.antt =====
-- doEval of function/internal/evaluator/eval.go, behind the parser: the content of all files, their
-- functions, and the evaluation of the content.
mod Tests
use function_hcl.Base.{
  ℕ, ◌≡◌, refl, ◌||◌, true, false, Bool, Option, none, some, List, [], ◌∷◌, ◌++◌, if◌then◌else◌,
  arith, Bool-cases, Option-cases, inl, inr,
}
use function_hcl.Hcl.{
  Hcl, Ctx, Diag, Diags, report, to_error_diag, has_errors-extend, has_errors-to_error_diag,
  any_error-append, any_error,
}
use function_hcl.Hcl.Traversal.{Syntax}
use function_hcl.Evaluator.{
  Cty, Content, Evaluator, new_evaluator, Handler, pure, panic, gets, ◌>>=◌,
}
use function_hcl.Evaluator.Groups.{process_group}
use function_hcl.Evaluator.Variables.{Request, Wire, make_vars}
use function_hcl.Evaluator.Response.{Ranges, Located, Response}
use function_hcl.Evaluator.Response.Build.{to_response}
use function_hcl.Evaluator.Response.Ready.{Gives, ShowsDesired}
use function_hcl.Evaluator.Run.{
  Evaluated, diagnosed, finished, run_bind, make_content, eval_vars, eval_content,
  eval_content-Gives,
}
use function_hcl.Evaluator.Severity.{sort_diags_by_severity, has_errors-sort}
use function_hcl.Functions.Load.{Bare, process_functions}

-- The deferred sort of doEval.
unfoldable pub sort_result : {D : Type 0} → Evaluated D → Evaluated D
unfolding sort_diags_by_severity
sort_result (diagnosed ds) = diagnosed (sort_diags_by_severity ds)
sort_result (finished answer) = finished answer

module _ (H : Hcl) (C : Cty H) (S : Syntax H) (W : Wire H) (B : Bare H) (R : Ranges) where
  open H use {Expr, Value, Body, extend, has_errors}
  open R use {Range, locate}

  -- The rest of doEval, with the content. processFunctions returns no diagnostics unless they have
  -- errors.
  unfoldable pub eval_merged :
      ℕ → Request → Content Expr Body → Diags → Handler Value (Evaluated (Located Range))
  unfolding process_functions eval_content
  eval_merged fuel r merged diags e = elim (process_functions H C S B merged) [
    | none ↦ none
    | some (fns, ds) ↦
        let all = extend diags (if has_errors ds then ds else []) in
        let next = eval_content H C W R fuel ([] ∷ []) r merged all e in
        if has_errors all then some (diagnosed all, e) else next
  ]

  unfoldable pub eval_bodies : ℕ → List Body → Request → Handler Value (Evaluated (Located Range))
  unfolding make_content eval_merged
  eval_bodies fuel bodies r e =
      let (merged, diags) = make_content H C bodies in
      let next : Option (Evaluated (Located Range) × Evaluator Value) = elim merged [
        | none ↦ none
        | some c ↦ eval_merged fuel r c diags e
      ] in
      if has_errors diags then some (diagnosed diags, e) else next

  -- doEval
  unfoldable pub do_eval : ℕ → List Body → Request → Handler Value (Evaluated (Located Range))
  unfolding eval_bodies sort_result ◌>>=◌ pure
  do_eval fuel bodies r = eval_bodies fuel bodies r >>= λ result. pure (sort_result result)

  -- A result is a response or an error of toResponse that shows the evaluator, or has errors.
  abbrev pub Outcome : Evaluator Value → Evaluated (Located Range) → Type 0
  Outcome e (diagnosed ds) = has_errors ds ≡ true
  Outcome e (finished answer) = Gives (ShowsDesired e) answer

  eval_vars-errors :
      (fuel : ℕ) (merged : Content Expr Body) (diags ds : Diags) (vars : Option (Ctx Value))
      (e e' : Evaluator Value)
      → eval_vars H C W R fuel merged diags vars e ≡ some (diagnosed ds, e')
      → has_errors ds ≡ true
  unfolding eval_vars pure ◌>>=◌ gets
  eval_vars-errors fuel merged diags ds none e e' ran =
      let what = report "request variables" [] in
      let same : extend diags (to_error_diag what) ≡ ds = ground (arith, ran) in
      ground (
        arith,
        same,
        has_errors-extend H diags (to_error_diag what),
        has_errors-to_error_diag H what,
      )
  eval_vars-errors fuel merged diags ds (some ctx) e e' ran =
      elim (Option-cases (process_group H C fuel ctx merged e)) [
        | inl stuck ↦ absurd (ground (arith, stuck, ran))
        | inr ((es, e1), done) ↦ elim (Bool-cases (has_errors es)) [
          | inl bad ↦
              let same : extend diags es ≡ ds = ground (arith, done, bad, ran) in
              ground (arith, same, bad, has_errors-extend H diags es)
          | inr good ↦ absurd (ground (arith, done, good, ran))
        ]
      ]

  eval_content-Outcome :
      (fuel : ℕ) (ctx : Ctx Value) (r : Request) (merged : Content Expr Body) (diags : Diags)
      (result : Evaluated (Located Range)) (e' : Evaluator Value)
      → eval_content H C W R fuel ctx r merged diags new_evaluator ≡ some (result, e')
      → Outcome e' result
  unfolding eval_content
  eval_content-Outcome fuel ctx r merged diags (finished answer) e' ran =
      eval_content-Gives H C W R fuel ctx r merged diags answer e' ran
  eval_content-Outcome fuel ctx r merged diags (diagnosed ds) e' ran =
      let (vars, e1, made, rest) =
        run_bind (make_vars H C W ctx r) _ new_evaluator e' (diagnosed ds) ran in
      eval_vars-errors fuel merged diags ds vars e1 e' rest

  eval_merged-Outcome :
      (fuel : ℕ) (r : Request) (merged : Content Expr Body) (diags : Diags)
      (result : Evaluated (Located Range)) (e' : Evaluator Value)
      → eval_merged fuel r merged diags new_evaluator ≡ some (result, e')
      → Outcome e' result
  unfolding eval_merged
  eval_merged-Outcome fuel r merged diags result e' ran =
      elim (Option-cases (process_functions H C S B merged)) [
        | inl stuck ↦ absurd (ground (arith, stuck, ran))
        | inr ((fns, ds), read) ↦
            let all = extend diags (if has_errors ds then ds else []) in
            elim (Bool-cases (has_errors all)) [
              | inl bad ↦
                  let same : diagnosed all ≡ result = ground (arith, read, bad, ran) in
                  rw (← same) bad
              | inr good ↦
                  eval_content-Outcome fuel ([] ∷ []) r merged all result e'
                    (ground (arith, read, good, ran))
            ]
      ]

  eval_bodies-Outcome :
      (fuel : ℕ) (bodies : List Body) (r : Request) (result : Evaluated (Located Range))
      (e' : Evaluator Value)
      → eval_bodies fuel bodies r new_evaluator ≡ some (result, e')
      → Outcome e' result
  unfolding eval_bodies
  eval_bodies-Outcome fuel bodies r result e' ran = of_content (make_content H C bodies) refl
    where
      of_content :
          (m : Option (Content Expr Body) × Diags) → make_content H C bodies ≡ m → Outcome e' result
      of_content (merged, diags) q = elim (Bool-cases (has_errors diags)) [
        | inl bad ↦
            let same : diagnosed diags ≡ result = ground (arith, q, bad, ran) in rw (← same) bad
        | inr good ↦ elim (Option-cases merged) [
          | inl stuck ↦ absurd (ground (arith, q, good, stuck, ran))
          | inr (c, there) ↦
              eval_merged-Outcome fuel r c diags result e' (ground (arith, q, good, there, ran))
        ]
      ]

  sorted-Outcome :
      (e : Evaluator Value) (result : Evaluated (Located Range))
      → Outcome e result
      → Outcome e (sort_result result)
  unfolding sort_result
  sorted-Outcome e (diagnosed ds) h = rw (has_errors-sort H ds) h
  sorted-Outcome e (finished answer) h = h

  -- An evaluation of the bodies of the files, that a new evaluator finishes, ends with diagnostics that
  -- have errors, or with what toResponse answers: never with its panic, and a response has
  -- exactly the desired resources of the evaluator at the end, each with its body and its
  -- readiness.
  pub do_eval-Outcome :
      (fuel : ℕ) (bodies : List Body) (r : Request) (result : Evaluated (Located Range))
      (e' : Evaluator Value)
      → do_eval fuel bodies r new_evaluator ≡ some (result, e')
      → Outcome e' result
  unfolding do_eval pure
  do_eval-Outcome fuel bodies r result e' ran =
      let (result0, e1, ran0, rest) =
        run_bind (eval_bodies fuel bodies r) _ new_evaluator e' result ran in
      let same : sort_result result0 ≡ result = ground (arith, rest) in
      let same_end : e1 ≡ e' = ground (arith, rest) in
      rw (← same, ← same_end)
        (sorted-Outcome e1 result0 (eval_bodies-Outcome fuel bodies r result0 e1 ran0))
