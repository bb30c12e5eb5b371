-- ===== src/Evaluator/Steps/Resources.antt =====
-- The frame of the handlers of resource and resources blocks of resources.go.
use function_hcl.Base.{
  ℕ, String, ◌≡◌, refl, sym, false, not, ◌||◌, some, List, [], ◌∷◌, Dict, lookup, insert, ◌==◌,
  string_eq, Option-cases, Bool-cases, inl, inr, is_some, lookup-insert, eq_of_==, arith,
}
use function_hcl.Hcl.{Hcl, Ctx, Block, Diags}
use function_hcl.Json.{Object}
use function_hcl.Evaluator.{Cty, Content, Evaluator, modify, ◌>>◌, resource}
use function_hcl.Evaluator.Resources.{
  Converted, converted, failed, panicked, value_to_struct_with_annotations, process_resource_blocks,
  incomplete_resource, complete_resource, add_resource_body, add_resource, process_resource,
}
use function_hcl.Evaluator.Collections.{
  Iteration, process_iterations, process_collection_blocks, extract_iterations, name_expression,
  process_for_each, process_template, process_resources, Template, missing, found, repeated,
  find_template,
}
use function_hcl.Evaluator.Schemas.{resources_schema}
use function_hcl.Evaluator.Frame.{
  Known, anything, fresh, desired, Meets, Grows, Grows-pure, Grows-panic, Grows-present, Grows-gets,
  Grows-modify, Grows-bind, Grows-after, Grows-if, Grows-weaken, Grows-fresh,
}
use function_hcl.Evaluator.Steps.{
  Steps, attribute-Grows, string_of-Grows, process_locals-Grows, evaluate_condition-Grows,
  first_label-Grows, process_composite-Grows, process_context-Grows, process_ready-Grows,
}
use mathlib.Core.List.{append-nil}

-- What a conversion yielded, with the equation.
pub data ConvertedCases (c : Converted) : Type 0 where
  is_panicked : c ≡ panicked → ConvertedCases c
  is_failed : c ≡ failed → ConvertedCases c
  is_converted : (o : Object) → c ≡ converted o → ConvertedCases c

pub Converted-cases : (c : Converted) → ConvertedCases c
Converted-cases panicked = is_panicked refl
Converted-cases failed = is_failed refl
Converted-cases (converted o) = is_converted o refl

-- Likewise for a search for the template block.
data TemplateCases {B : Type 0} (t : Template B) : Type 0 where
  is_missing : t ≡ missing → TemplateCases t
  is_repeated : t ≡ repeated → TemplateCases t
  is_found : (b : Block B) → t ≡ found b → TemplateCases t

Template-cases : {B : Type 0} (t : Template B) → TemplateCases t
Template-cases missing = is_missing refl
Template-cases repeated = is_repeated refl
Template-cases (found b) = is_found b refl

module _ (H : Hcl) (C : Cty H) where
  open H use {Expr, Value, Body, value, extend, has_errors}
  open C use {is_wholly_known, content}

  pub process_resource_blocks-Grows :
      (ctx : Ctx Value) (name : String) (diags : Diags) (blocks : List (Block Body))
      → Grows (desired name) (desired name) (process_resource_blocks H C ctx name diags blocks)
  unfolding process_resource_blocks
  process_resource_blocks-Grows ctx name diags [] = Grows-pure _
  process_resource_blocks-Grows ctx name diags (b ∷ blocks) =
      Grows-bind
        (Grows-if (b.type == "composite") (process_composite-Grows H C ctx b) (Grows-pure _))
        λ composite.
          Grows-bind
            (Grows-if (b.type == "ready") (process_ready-Grows H C ctx name b) (Grows-pure _))
            λ ready.
              Grows-bind
                (Grows-if (b.type == "context") (process_context-Grows H C ctx b) (Grows-pure _))
                λ current.
                  Grows-if (has_errors current) (Grows-pure _)
                    (process_resource_blocks-Grows ctx name (extend diags current) blocks)

  pub incomplete_resource-Grows :
      {s : Known} (ctx : Ctx Value) (name : String) (body : Expr) (diags ds : Diags)
      → Grows s s (incomplete_resource H C ctx name body diags ds)
  unfolding incomplete_resource
  incomplete_resource-Grows ctx name body diags ds = search Steps depth 14

  desired_after :
      (n k : String) (v s : Object) (e : Evaluator Value)
      → is_some (lookup n e.desired_resources) ≡ false
      → lookup k e.desired_resources ≡ some s
      → lookup k (insert n v e.desired_resources) ≡ some s
  desired_after n k v s e new h = elim (Bool-cases (k == n)) [
    | inl same ↦ let same_name = eq_of_== k n same in absurd (ground (arith, new, h, same_name))
    | inr differ ↦ ground (arith, lookup-insert k n v e.desired_resources, differ, h)
  ]

  -- A new resource is added; the others stay.
  add_desired-Grows :
      (n : String) (v : Object)
      → Grows {V = Value}
          (fresh n)
          (desired n)
          (modify (λ e. record e { desired_resources = insert n v e.desired_resources }))
  unfolding Meets
  add_desired-Grows n v = Grows-modify {s = fresh n} {t = desired n} _ λ e p. (
    record {
      observed = refl;
      kept = λ k s h. desired_after n k v s e p h;
      ready_kept =
          λ r k h. let was = r k h in ground (arith, lookup-insert k n v e.desired_resources, was);
      ready_distinct = λ d. d;
      more = [];
      discarded = sym (append-nil e.discards);
    },
    ground (arith, lookup-insert n n v e.desired_resources),
  )

  pub complete_resource-Grows :
      (ctx : Ctx Value) (name : String) (content : Content Expr Body)
      (annotations : Dict String String) (out : Value) (diags : Diags)
      → Grows (fresh name) anything (complete_resource H C ctx name content annotations out diags)
  unfolding complete_resource ◌>>◌
  complete_resource-Grows ctx name content annotations out diags =
      elim (Converted-cases (value_to_struct_with_annotations H C out annotations)) [
        | is_panicked e ↦ rw (e, complete_resource) Grows-panic
        | is_failed e ↦ rw (e, complete_resource) (Grows-weaken (Grows-pure _))
        | is_converted o e ↦
            rw (e, complete_resource)
              (Grows-after (add_desired-Grows name o)
                (λ _. Grows-weaken (process_resource_blocks-Grows ctx name diags content.blocks)))
      ]

  pub add_resource_body-Grows :
      (ctx : Ctx Value) (name : String) (content : Content Expr Body)
      (annotations : Dict String String) (diags : Diags)
      → Grows (fresh name) anything (add_resource_body H C ctx name content annotations diags)
  unfolding add_resource_body
  add_resource_body-Grows ctx name content annotations diags =
      elim (Option-cases (lookup "body" content.attributes)) [
        | inl e ↦ rw (e, add_resource_body) (Grows-weaken (Grows-pure _))
        | inr (body, e) ↦
            rw (e, add_resource_body)
              (Grows-bind (evaluate_condition-Grows H C ctx content resource name) λ (cond, ds).
                Grows-if (has_errors ds) (Grows-weaken (Grows-pure _)) (
                  Grows-if (not cond) (Grows-weaken (Grows-pure _)) (
                    Grows-if
                      (has_errors (value body ctx).1 || not (is_wholly_known (value body ctx).0))
                      (Grows-weaken (incomplete_resource-Grows ctx name body _ _))
                      (complete_resource-Grows ctx name content annotations _ _))))
      ]

  pub add_resource-Grows :
      (ctx : Ctx Value) (name : String) (content : Content Expr Body)
      (annotations : Dict String String)
      → Grows anything anything (add_resource H C ctx name content annotations)
  unfolding add_resource
  add_resource-Grows ctx name content annotations = Grows-fresh name (Grows-pure _) (
      Grows-bind (Grows-gets _) λ observed. Grows-bind (Grows-gets _) λ conn.
        Grows-bind (Grows-present _) λ self_ctx.
          Grows-bind (process_locals-Grows H C self_ctx content) λ (local_ctx, diags).
            Grows-if (has_errors diags) (Grows-weaken (Grows-pure _)) (
              Grows-bind (Grows-present local_ctx)
                λ ctx'. add_resource_body-Grows ctx' name content annotations diags))

  pub process_resource-Grows :
      (ctx : Ctx Value) (block : Block Body)
      → Grows anything anything (process_resource H C ctx block)
  unfolding process_resource
  process_resource-Grows ctx block = search (Steps, first_label-Grows, add_resource-Grows) depth 14

  pub process_iterations-Grows :
      (ctx : Ctx Value) (base_name : String) (name_expr : Expr) (template : Content Expr Body)
      (i : ℕ) (diags : Diags) (iters : List (Iteration Value))
      → Grows anything anything
          (process_iterations H C ctx base_name name_expr template i diags iters)
  unfolding process_iterations
  process_iterations-Grows ctx base_name name_expr template i diags [] = Grows-pure _
  process_iterations-Grows ctx base_name name_expr template i diags (iter ∷ iters) =
      let rest : (j : ℕ) (ds : Diags)
          → Grows anything anything
              (process_iterations H C ctx base_name name_expr template j ds iters) =
        λ j ds. process_iterations-Grows ctx base_name name_expr template j ds iters in
      search (Steps, string_of-Grows, add_resource-Grows, rest) depth 18

  pub process_collection_blocks-Grows :
      {s : Known} (ctx : Ctx Value) (diags : Diags) (blocks : List (Block Body))
      → Grows s s (process_collection_blocks H C ctx diags blocks)
  unfolding process_collection_blocks
  process_collection_blocks-Grows ctx diags [] = Grows-pure _
  process_collection_blocks-Grows ctx diags (b ∷ blocks) =
      Grows-bind
        (Grows-if (b.type == "composite") (process_composite-Grows H C ctx b) (Grows-pure _))
        λ composite.
          Grows-bind
            (Grows-if (b.type == "context") (process_context-Grows H C ctx b) (Grows-pure _))
            λ current.
              Grows-if (has_errors current) (Grows-pure _)
                (process_collection_blocks-Grows ctx (extend diags current) blocks)

  pub process_for_each-Grows :
      (ctx : Ctx Value) (base_name : String) (content template : Content Expr Body) (diags : Diags)
      → Grows anything anything (process_for_each H C ctx base_name content template diags)
  unfolding process_for_each
  process_for_each-Grows ctx base_name content template diags =
      Grows-bind (attribute-Grows H C content "for_each") λ for_each.
        Grows-if (has_errors (value for_each ctx).1) (Grows-pure _)
          (elim (Option-cases (extract_iterations H C (value for_each ctx).0)) [
            | inl e ↦ rw e (Grows-pure _)
            | inr (iters, e) ↦ rw e (
                Grows-if (has_errors (name_expression H C content).1) (Grows-pure _) (
                  Grows-bind (process_iterations-Grows ctx base_name _ template 0 _ iters)
                    λ (go_on, ds').
                      Grows-if go_on (process_collection_blocks-Grows ctx ds' content.blocks)
                        (Grows-pure _)))
          ])

  pub process_template-Grows :
      (ctx : Ctx Value) (base_name : String) (body : Content Expr Body) (template : Block Body)
      (diags : Diags)
      → Grows anything anything (process_template H C ctx base_name body template diags)
  unfolding process_template
  process_template-Grows ctx base_name body template diags =
      search (Steps, process_locals-Grows, evaluate_condition-Grows, process_for_each-Grows) depth
        24

  pub process_resources-Grows :
      (ctx : Ctx Value) (block : Block Body)
      → Grows anything anything (process_resources H C ctx block)
  unfolding process_resources
  process_resources-Grows ctx block = Grows-bind (first_label-Grows H C block) λ base_name.
      let body = (content block.body resources_schema).0 in
      Grows-if (has_errors (content block.body resources_schema).1) (Grows-pure _)
        (elim (Template-cases (find_template missing body.blocks)) [
          | is_missing e ↦ rw e (Grows-pure _)
          | is_repeated e ↦ rw e (Grows-pure _)
          | is_found template e ↦ rw e (process_template-Grows ctx base_name body template _)
        ])
