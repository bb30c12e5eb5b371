-- ===== src/Evaluator/Collections.antt =====
-- resources.go: the resources block, which makes a resource for each element of `for_each`.
use function_hcl.Base.{
  ℕ, ◌+◌, String, Bool, true, false, not, ◌||◌, Option, none, some, List, [], ◌∷◌, Dict, lookup,
  ◌==◌, if◌then◌else◌, string_eq,
}
use function_hcl.Hcl.{Hcl, Ctx, Block, Diags}
use function_hcl.Evaluator.{
  Cty, Content, sequence, mapping, value_set, not_iterable, Handler, pure, present, gets, ◌>>=◌,
  resource_list,
}
use function_hcl.Evaluator.Schemas.{resources_schema, template_schema}
use function_hcl.Evaluator.Common.{
  append_error, process_locals, attribute, string_of, first_label, evaluate_condition,
  create_self_child_context,
}
use function_hcl.Evaluator.Blocks.{process_composite, process_context}
use function_hcl.Evaluator.Resources.{value_at, add_resource}

-- iteration
pub record Iteration (V : Type 0) : Type 0 where
  pub key : V
  pub value : V

-- The search of processResources for its template block.
pub data Template (B : Type 0) : Type 0 where
  missing : Template B
  found : Block B → Template B
  repeated : Template B

unfoldable pub find_template : {B : Type 0} → Template B → List (Block B) → Template B
find_template t [] = t
find_template t (b ∷ blocks) =
    if b.type == "template"
    then elim t [ missing ↦ find_template (found b) blocks | _ ↦ repeated ]
    else find_template t blocks

module _ (H : Hcl) (C : Cty H) where
  open H use {Expr, Value, Body, value, extend, has_errors}
  open C use {
    is_null, is_wholly_known, is_string, shape, string_val, number_val, object_val, content,
    index_text, default_name,
  }

  -- The loops of extractIterations, one for each kind of collection.
  unfoldable pub sequence_iterations : ℕ → List Value → List (Iteration Value)
  sequence_iterations i [] = []
  sequence_iterations i (element ∷ elements) =
      record { key = number_val i; value = element } ∷ sequence_iterations (i + 1) elements

  unfoldable pub mapping_iterations : Dict String Value → List (Iteration Value)
  mapping_iterations [] = []
  mapping_iterations ((k, v) ∷ elements) =
      record { key = string_val k; value = v } ∷ mapping_iterations elements

  unfoldable pub set_iterations : List Value → List (Iteration Value)
  set_iterations [] = []
  set_iterations (element ∷ elements) =
      record { key = element; value = element } ∷ set_iterations elements

  -- extractIterations; `none` is an error.
  unfoldable pub extract_iterations : Value → Option (List (Iteration Value))
  unfolding sequence_iterations mapping_iterations set_iterations
  extract_iterations val =
      if is_null val || not (is_wholly_known val) then none else elim (shape val) [
        | sequence elements ↦ some (sequence_iterations 0 elements)
        | mapping elements ↦ some (mapping_iterations elements)
        | value_set elements ↦ some (set_iterations elements)
        | not_iterable ↦ none
      ]

  -- The loop of processResources over the iterations.
  unfoldable pub process_iterations :
      Ctx Value
      → String
      → Expr
      → Content Expr Body
      → ℕ
      → Diags
      → List (Iteration Value)
      → Handler Value (Bool × Diags)
  unfolding append_error
  process_iterations ctx base_name name_expr template i diags [] = pure (true, diags)
  process_iterations ctx base_name name_expr template i diags (iter ∷ iters) = do
    let each = object_val (("key", iter.key) ∷ ("value", iter.value) ∷ [])
    let iter_ctx = (("each", each) ∷ []) ∷ ctx
    let (name_val, ds) = value name_expr iter_ctx
    let all = extend diags ds
    (if has_errors ds
        then pure
            (false, append_error H C all "unable to evaluate name expression" (base_name ∷ []))
        else if not (is_string name_val)
        then pure (false, append_error H C all "name was not a string" (base_name ∷ []))
        else do
          name ← string_of H C name_val
          ds' ← add_resource H C iter_ctx name template (
              ("hcl.fn.crossplane.io/collection-base-name", base_name)
              ∷ ("hcl.fn.crossplane.io/collection-index", index_text i)
              ∷ [])
          let all' = extend all ds'
          (if has_errors ds'
              then pure (false, all')
              else process_iterations ctx base_name name_expr template (i + 1) all' iters))

  -- The loop of processResources over its composite and context blocks.
  unfoldable pub process_collection_blocks :
      Ctx Value → Diags → List (Block Body) → Handler Value Diags
  process_collection_blocks ctx diags [] = pure diags
  process_collection_blocks ctx diags (b ∷ blocks) = do
    composite ← if b.type == "composite" then process_composite H C ctx b else pure []
    current ← if b.type == "context" then process_context H C ctx b else pure composite
    let all = extend diags current
    (if has_errors current then pure all else process_collection_blocks ctx all blocks)

  -- The name attribute of a collection, or the default name.
  unfoldable pub name_expression : Content Expr Body → Expr × Diags
  name_expression content = elim (lookup "name" content.attributes) [
    | some expr ↦ (expr, [])
    | none ↦ default_name
  ]

  -- processResources, once the condition holds.
  unfoldable pub process_for_each :
      Ctx Value → String → Content Expr Body → Content Expr Body → Diags → Handler Value Diags
  unfolding append_error attribute extract_iterations name_expression process_iterations
      process_collection_blocks
  process_for_each ctx base_name content template diags = do
    for_each ← attribute H C content "for_each"
    let (for_each_val, ds) = value for_each ctx
    let all = extend diags ds
    (if has_errors ds
        then pure (append_error H C all "unable to evaluate for_each" (base_name ∷ []))
        else elim (extract_iterations for_each_val) [
          | none ↦ pure (append_error H C all "unable to extract iterations" (base_name ∷ []))
          | some iters ↦ do
            let (name_expr, name_ds) = name_expression content
            let all' = extend all name_ds
            (if has_errors name_ds
                then pure (
                    append_error H C all' "unable to evaluate default name expression"
                      (base_name ∷ []))
                else do
                  (go_on, ds') ← process_iterations ctx base_name name_expr template 0 all' iters
                  (if go_on then process_collection_blocks ctx ds' content.blocks else pure ds'))
        ])

  -- processResources, once its template is found.
  unfoldable pub process_template :
      Ctx Value → String → Content Expr Body → Block Body → Diags → Handler Value Diags
  unfolding append_error process_locals create_self_child_context value_at evaluate_condition
      process_for_each
  process_template ctx base_name body template diags = do
    let (template_content, template_ds) = content template.body template_schema
    let all = extend diags template_ds
    (if has_errors template_ds then pure all else do
      observed ← gets (λ e. value_at H C base_name e.collection_resources_map)
      conn ← gets (λ e. value_at H C base_name e.collection_connections_map)
      self_ctx ← present (
          create_self_child_context H C ctx (
            ("basename", string_val base_name)
            ∷ ("resources", observed)
            ∷ ("connections", conn)
            ∷ []))
      (local_ctx, ds) ← process_locals H C self_ctx body
      let all' = extend all ds
      (if has_errors ds then pure all' else do
        ctx' ← present local_ctx
        (cond, cond_ds) ← evaluate_condition H C ctx' body resource_list base_name
        let all'' = extend all' cond_ds
        (if has_errors cond_ds
            then pure (
                append_error H C all'' "unable to evaluate condition for resource collection"
                  (base_name ∷ []))
            else if not cond
            then pure all''
            else process_for_each ctx' base_name body template_content all'')))

  -- processResources
  unfoldable pub process_resources : Ctx Value → Block Body → Handler Value Diags
  unfolding first_label find_template append_error process_template
  process_resources ctx block = do
    base_name ← first_label H C block
    let (body, diags) = content block.body resources_schema
    (if has_errors diags then pure diags else elim (find_template missing body.blocks) [
      | repeated ↦ pure (append_error H C diags "multiple template blocks" (base_name ∷ []))
      | missing ↦ pure (append_error H C diags "no template block" (base_name ∷ []))
      | found template ↦ process_template ctx base_name body template diags
    ])
