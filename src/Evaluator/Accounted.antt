-- ===== src/Evaluator/Accounted.antt =====
-- What becomes of a resource block: evaluateCondition of eval.go and addResource of resources.go.
use function_hcl.Base.{
  String, ◌≡◌, refl, Bool, true, false, not, ◌||◌, some, List, [], ◌∷◌, ◌++◌, Dict, lookup, is_some,
  string_eq, ==_refl, lookup-insert, arith, Option-cases, inl, inr,
}
use function_hcl.Hcl.{
  Hcl, Ctx, Diags, report, to_error_diag, has_errors-extend, has_errors-to_error_diag,
}
use function_hcl.Locals.{process}
use function_hcl.Evaluator.{Cty, Content, Evaluator, DiscardType, DiscardItem, resource}
use function_hcl.Evaluator.Common.{append_error, process_locals, evaluate_condition}
use function_hcl.Evaluator.Resources.{
  value_to_struct_with_annotations, incomplete_resource, complete_resource, add_resource_body,
  add_resource,
}
use function_hcl.Evaluator.Frame.{Meets}
use function_hcl.Evaluator.Steps.Resources.{
  process_resource_blocks-Grows, Converted-cases, is_panicked, is_failed, is_converted,
}
use function_hcl.Evaluator.Yields.{
  Yields, Yields-pure, Yields-panic, Yields-if, Yields-bind, Yields-modify, Yields-discard,
  Yields-read, Yields-use, Yields-Grows,
}

-- What evaluateCondition made of a condition.
pub data Checked {V : Type 0} (has_condition failed : Bool) (t : DiscardType) (name : String)
    (e : Evaluator V) (cond : Bool) (e' : Evaluator V) : Type 0 where
  broken : failed ≡ true → Checked has_condition failed t name e cond e'
  passed : cond ≡ true → e' ≡ e → Checked has_condition failed t name e cond e'
  excluded :
      (item : DiscardItem)
      → cond ≡ false
      → has_condition ≡ true
      → item.type ≡ t
      → item.name ≡ name
      → e' ≡ record e { discards = e.discards ++ item ∷ [] }
      → Checked has_condition failed t name e cond e'

-- What became of a resource block: `failed` says whether its diagnostics have errors.
pub data Accounted {V : Type 0} (has_condition failed : Bool) (name : String) (e e' : Evaluator V)
    : Type 0 where
  reported : failed ≡ true → Accounted has_condition failed name e e'
  added :
      is_some (lookup name e'.desired_resources) ≡ true → Accounted has_condition failed name e e'
  discarded :
      (item : DiscardItem)
      → item.type ≡ resource
      → item.name ≡ name
      → e' ≡ record e { discards = e.discards ++ item ∷ [] }
      → (has_condition ≡ false → is_some (lookup name e.existing_resource_map) ≡ false)
      → Accounted has_condition failed name e e'

module _ {V : Type 0} {has_condition failed : Bool} {name : String} {e e' : Evaluator V}
    {cond : Bool} where
  excluded-Accounted :
      {f : Bool}
      → Checked has_condition failed resource name e cond e'
      → failed ≡ false
      → not cond ≡ true
      → Accounted has_condition f name e e'
  excluded-Accounted (broken bad) good out = absurd (cc)
  excluded-Accounted (passed on same) good out = absurd (ground (arith, on, out))
  excluded-Accounted (excluded item off there type_same name_same dropped) good out =
      discarded item type_same name_same dropped (λ missing. absurd (cc))

  passed_same :
      Checked has_condition failed resource name e cond e'
      → failed ≡ false
      → not cond ≡ false
      → e' ≡ e
  passed_same (broken bad) good on = absurd (cc)
  passed_same (passed on_true same) good on = same
  passed_same (excluded item off there type_same name_same dropped) good on =
      absurd (ground (arith, off, on))

module _ (H : Hcl) (C : Cty H) where
  open H use {Expr, Value, Body, value, extend, has_errors}
  open C use {is_wholly_known, is_bool, is_true}

  has_errors-append_error :
      (diags : Diags) (what : String) (args : List String)
      → has_errors (append_error H C diags what args) ≡ true
  unfolding append_error
  has_errors-append_error diags what args = ground (
    arith,
    has_errors-extend H diags (to_error_diag (report what args)),
    has_errors-to_error_diag H (report what args),
  )

  pub evaluate_condition-Checked :
      (ctx : Ctx Value) (content : Content Expr Body) (t : DiscardType) (name : String)
      (e : Evaluator Value)
      → Yields e (evaluate_condition H C ctx content t name) (λ r e'.
        Checked (is_some (lookup "condition" content.attributes)) (has_errors r.1) t name e r.0 e')
  unfolding evaluate_condition
  evaluate_condition-Checked ctx content t name e =
      elim (Option-cases (lookup "condition" content.attributes)) [
        | inl c ↦ rw (c, evaluate_condition) (Yields-pure _ e (passed refl refl))
        | inr (expr, c) ↦
            rw (c, evaluate_condition)
              (let (val, diags) = value expr ctx in
                Yields-if (has_errors diags || not (is_wholly_known val))
                  (λ _. Yields-discard _ (Yields-pure _ _ (excluded _ refl refl refl refl refl)))
                  (λ _.
                    Yields-if (not (is_bool val))
                      (λ _. Yields-pure _ e (broken (has_errors-append_error diags _ _)))
                      (λ _.
                        Yields-if (not (is_true val))
                          (λ _.
                            Yields-discard _
                              (Yields-pure _ _ (excluded _ refl refl refl refl refl)))
                          (λ _. Yields-pure _ e (passed refl refl)))))
      ]

  process_locals-Same :
      (ctx : Ctx Value) (content : Content Expr Body) (e : Evaluator Value)
      → Yields e (process_locals H C ctx content) (λ r e'. e' ≡ e)
  unfolding process_locals
  process_locals-Same ctx content e = record {
    runs = λ r e' h. elim (Option-cases (process H ctx content.blocks)) [
      | inl c ↦ absurd (ground (arith, c))
      | inr (a, c) ↦ ground (arith, c)
    ];
  }

  incomplete_resource-Accounted :
      (ctx : Ctx Value) (name : String) (body : Expr) (diags ds : Diags) (has_condition : Bool)
      (e : Evaluator Value)
      → Yields e
          (incomplete_resource H C ctx name body diags ds)
          (λ all e'. Accounted has_condition (has_errors all) name e e')
  unfolding incomplete_resource
  incomplete_resource-Accounted ctx name body diags ds has_condition e = Yields-read _ _ (
      Yields-if (is_some (lookup name e.existing_resource_map))
        (λ _. Yields-pure _ e (reported (has_errors-append_error _ _ _)))
        (λ new. Yields-discard _ (Yields-pure _ _ (discarded _ refl refl refl (λ _. new)))))

  complete_resource-Accounted :
      (ctx : Ctx Value) (name : String) (content : Content Expr Body)
      (annotations : Dict String String) (out : Value) (diags : Diags) (has_condition : Bool)
      (e : Evaluator Value)
      → Yields e
          (complete_resource H C ctx name content annotations out diags)
          (λ all e'. Accounted has_condition (has_errors all) name e e')
  unfolding complete_resource Meets
  complete_resource-Accounted ctx name content annotations out diags has_condition e =
      elim (Converted-cases (value_to_struct_with_annotations H C out annotations)) [
        | is_panicked c ↦ rw (c, complete_resource) (Yields-panic e)
        | is_failed c ↦
            rw (c, complete_resource) (Yields-pure _ e (reported (has_errors-append_error _ _ _)))
        | is_converted o c ↦
            rw (c, complete_resource)
              (Yields-modify _ (
                Yields-Grows (process_resource_blocks-Grows H C ctx name diags content.blocks)
                  (ground (arith, lookup-insert name name o e.desired_resources, ==_refl name))
                  (λ a e' _ have. added have)))
      ]

  add_resource_body-Accounted :
      (ctx : Ctx Value) (name : String) (content : Content Expr Body)
      (annotations : Dict String String) (diags : Diags) (e : Evaluator Value)
      → Yields e (add_resource_body H C ctx name content annotations diags) (λ all e'.
        Accounted (is_some (lookup "condition" content.attributes)) (has_errors all) name e e')
  unfolding add_resource_body
  add_resource_body-Accounted ctx name content annotations diags e =
      elim (Option-cases (lookup "body" content.attributes)) [
        | inl c ↦
            rw (c, add_resource_body) (Yields-pure _ e (reported (has_errors-to_error_diag H _)))
        | inr (body, c) ↦
            rw (c, add_resource_body)
              (Yields-bind (evaluate_condition-Checked ctx content resource name e)
                λ (cond, ds) e1 checked.
                  Yields-if (has_errors ds)
                    (λ _. Yields-pure _ e1 (reported (has_errors-append_error _ _ _)))
                    (λ good.
                      Yields-if (not cond)
                        (λ out. Yields-pure _ e1 (excluded-Accounted checked good out))
                        (λ on.
                          let same : e1 ≡ e = passed_same checked good on in
                          rw same (
                            Yields-if
                              (has_errors (value body ctx).1
                                || not (is_wholly_known (value body ctx).0))
                              (λ _. incomplete_resource-Accounted ctx name body _ _ _ e)
                              (λ _.
                                complete_resource-Accounted ctx name content annotations _ _ _
                                  e)))))
      ]

  -- addResource, when it returns: its diagnostics have errors, or the resource is desired
  -- afterwards, or it added one discard of the resource and changed nothing else, which it does
  -- without a condition only if the map of existing resources has no such resource.
  pub add_resource-Accounted :
      (ctx : Ctx Value) (name : String) (content : Content Expr Body)
      (annotations : Dict String String) (e e' : Evaluator Value) (diags : Diags)
      → add_resource H C ctx name content annotations e ≡ some (diags, e')
      → Accounted (is_some (lookup "condition" content.attributes)) (has_errors diags) name e e'
  unfolding add_resource process_locals
  add_resource-Accounted ctx name content annotations e e' diags h =
      let all : Yields e (add_resource H C ctx name content annotations) (λ all e'.
        Accounted (is_some (lookup "condition" content.attributes)) (has_errors all) name e e') =
        Yields-read _ _ (
          Yields-if (is_some (lookup name e.desired_resources))
            (λ _. Yields-pure _ e (reported (has_errors-to_error_diag H _)))
            (λ _. Yields-read _ _ (
              Yields-read _ _ (
                Yields-use _ λ self_ctx _.
                  Yields-bind (process_locals-Same self_ctx content e) λ (local_ctx, ds) e1 same.
                    rw same (
                      Yields-if (has_errors ds) (λ bad. Yields-pure _ e (reported bad))
                        (λ _. Yields-use local_ctx λ ctx' _.
                          add_resource_body-Accounted ctx' name content annotations ds e)))))) in
      all.runs diags e' h
