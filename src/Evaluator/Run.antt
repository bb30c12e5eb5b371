-- ===== src/Evaluator/Run.antt =====
-- function/internal/evaluator/eval.go: makeContent, and doEval from the context with the functions on.
use function_hcl.Base.{
  ℕ, ◌≡◌, Option, none, some, List, [], ◌∷◌, ◌++◌, Distinct, lookup, if◌then◌else◌, string_eq,
  arith, Bool-cases, Option-cases, inl, inr,
}
use function_hcl.Hcl.{Hcl, Ctx, Diags, report, to_error_diag}
use function_hcl.Evaluator.{
  Cty, Content, Evaluator, new_evaluator, Handler, pure, modify, gets, ◌>>=◌, ◌>>◌,
}
use function_hcl.Evaluator.Schemas.{top_level_schema}
use function_hcl.Evaluator.Frame.{ReadyIsDesired}
use function_hcl.Evaluator.Groups.{process_group}
use function_hcl.Evaluator.Steps.Groups.{process_group-Extends}
use function_hcl.Evaluator.Variables.{
  Request, Wire, track_base_names, observed_bodies, request_object, make_vars,
}
use function_hcl.Evaluator.Response.{Ranges, Located, Response}
use function_hcl.Evaluator.Response.Build.{Answer, to_response}
use function_hcl.Evaluator.Response.Ready.{Gives, ShowsDesired, to_response-Gives}

-- What an evaluation yields: diagnostics with errors, or what toResponse answers.
pub data Evaluated (D : Type 0) : Type 0 where
  diagnosed : Diags → Evaluated D
  finished : Answer (Response D) → Evaluated D

pub run_bind :
    {V A B : Type 0} (m : Handler V A) (f : A → Handler V B) (e e' : Evaluator V) (b : B)
    → (m >>= f) e ≡ some (b, e')
    → (a : A) × (e1 : Evaluator V) × (m e ≡ some (a, e1)) × (f a e1 ≡ some (b, e'))
unfolding ◌>>=◌
run_bind m f e e' b h = elim (Option-cases (m e)) [
  | inl stuck ↦ absurd (ground (arith, stuck, h))
  | inr ((a, e1), ran) ↦ (a, e1, ran, ground (arith, ran, h))
]

module _ (H : Hcl) (C : Cty H) where
  open H use {Expr, Value, Body, extend, has_errors}
  open C use {content}

  -- The loop of makeContent.
  unfoldable pub merge_bodies : List Body → Content Expr Body → Diags → Content Expr Body × Diags
  merge_bodies [] ret d = (ret, d)
  merge_bodies (body ∷ bodies) ret d =
      let (c, diags) = content body top_level_schema in
      merge_bodies bodies (record ret { blocks = ret.blocks ++ c.blocks }) (extend d diags)

  -- makeContent; the content is missing if there are errors.
  unfoldable pub make_content : List Body → Option (Content Expr Body) × Diags
  unfolding merge_bodies
  make_content bodies =
      let (ret, d) = merge_bodies bodies (record { attributes = []; blocks = [] }) [] in
      if has_errors d then (none, d) else (some ret, d)

  module _ (W : Wire H) (R : Ranges) where
    open R use {Range, locate}

    -- doEval, behind makeVars.
    unfoldable pub eval_vars :
        ℕ
        → Content Expr Body
        → Diags
        → Option (Ctx Value)
        → Handler Value (Evaluated (Located Range))
    unfolding process_group to_response
    eval_vars fuel merged diags none =
        pure (diagnosed (extend diags (to_error_diag (report "request variables" []))))
    eval_vars fuel merged diags (some ctx) = do
      ds ← process_group H C fuel ctx merged
      let all = extend diags ds
      (if has_errors ds
          then pure (diagnosed all)
          else gets (λ e. finished (to_response H C R e (locate all))))

    -- doEval, for the context that processFunctions makes and the diagnostics so far.
    unfoldable pub eval_content :
        ℕ
        → Ctx Value
        → Request
        → Content Expr Body
        → Diags
        → Handler Value (Evaluated (Located Range))
    unfolding make_vars eval_vars
    eval_content fuel ctx r merged diags =
        make_vars H C W ctx r >>= λ vars. eval_vars fuel merged diags vars

    make_vars-keeps :
        (parent : Ctx Value) (r : Request) (e e' : Evaluator Value) (vars : Option (Ctx Value))
        → make_vars H C W parent r e ≡ some (vars, e')
        → (e'.desired_resources ≡ e.desired_resources) × (e'.ready ≡ e.ready)
    unfolding make_vars ◌>>◌ ◌>>=◌ modify pure
    make_vars-keeps parent r e e' vars h =
        elim (Option-cases (track_base_names H C W (observed_bodies H C W r.observed))) [
          | inl failed ↦ (ground (arith, failed, h), ground (arith, failed, h))
          | inr (names, tracked) ↦ elim (Option-cases (W.decode (request_object H C W r))) [
            | inl failed ↦ (ground (arith, tracked, failed, h), ground (arith, tracked, failed, h))
            | inr (top, decoded) ↦
                (ground (arith, tracked, decoded, h), ground (arith, tracked, decoded, h))
          ]
        ]

    finished_lem :
        (ds all : Diags) (e e' : Evaluator Value) (answer : Answer (Response (Located Range)))
        → (if has_errors ds
              then pure (diagnosed all)
              else gets (λ e. finished (to_response H C R e (locate all))))
            e
          ≡ some (finished answer, e')
        → (to_response H C R e (locate all) ≡ answer) × (e ≡ e')
    unfolding pure gets
    finished_lem ds all e e' answer h = elim (Bool-cases (has_errors ds)) [
      | inl bad ↦ absurd (ground (arith, bad, h))
      | inr good ↦ (ground (arith, good, h), ground (arith, good, h))
    ]

    -- The rest of doEval, behind makeVars.
    eval_group-Gives :
        (fuel : ℕ) (merged : Content Expr Body) (diags : Diags) (vars : Option (Ctx Value))
        (answer : Answer (Response (Located Range))) (e e' : Evaluator Value)
        → (e.desired_resources ≡ []) × (e.ready ≡ [])
        → eval_vars fuel merged diags vars e ≡ some (finished answer, e')
        → Gives (ShowsDesired e') answer
    unfolding eval_vars pure lookup
    eval_group-Gives fuel merged diags none answer e e' start h = absurd (cc)
    eval_group-Gives fuel merged diags (some ctx') answer e e' (desired, ready) h =
        let (ds, e2, ran, rest) =
          run_bind (process_group H C fuel ctx' merged) _ e e' (finished answer) h in
        let (same, last) = finished_lem ds (extend diags ds) e2 e' answer rest in
        let grown = process_group-Extends H C fuel ctx' merged e e2 ds ran in
        let distinct : Distinct e.ready = rw ready tt in
        let none_ready : ReadyIsDesired e = λ n h. absurd (ground (arith, ready, h)) in
        rw (← same, ← last)
          (to_response-Gives H C R e2 (locate (extend diags ds)) (grown.ready_distinct distinct)
            (grown.ready_kept none_ready))

    -- An evaluation that a new evaluator finishes ends with a response or an error of toResponse,
    -- never with its panic; a response has exactly the desired resources of the evaluator at the
    -- end, each with its body and its readiness.
    pub eval_content-Gives :
        (fuel : ℕ) (ctx : Ctx Value) (r : Request) (merged : Content Expr Body) (diags : Diags)
        (answer : Answer (Response (Located Range))) (e' : Evaluator Value)
        → eval_content fuel ctx r merged diags new_evaluator ≡ some (finished answer, e')
        → Gives (ShowsDesired e') answer
    unfolding eval_content new_evaluator
    eval_content-Gives fuel ctx r merged diags answer e' h =
        let (vars, e1, ran, rest) =
          run_bind (make_vars H C W ctx r) _ new_evaluator e' (finished answer) h in
        eval_group-Gives fuel merged diags vars answer e1 e'
          (make_vars-keeps ctx r new_evaluator e1 vars ran) rest
