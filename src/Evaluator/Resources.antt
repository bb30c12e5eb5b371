-- ===== src/Evaluator/Resources.antt =====
-- resources.go: the resource and resources blocks, with valueToStructWithAnnotations and
-- extractIterations of utils.go.
use Prim.Native.String as Text
use function_hcl.Base.{
  String, not, ◌||◌, Option, none, some, List, [], ◌∷◌, ◌++◌, Dict, lookup, insert, is_some, ◌==◌,
  if◌then◌else◌, string_eq,
}
use function_hcl.Hcl.{Hcl, Ctx, Block, Diags, warning, report, to_error_diag, downgrade_diags}
use function_hcl.Json.{null, text, object, Object, end, get, put}
use function_hcl.Evaluator.{
  Cty, Content, Handler, pure, panic, present, modify, gets, ◌>>=◌, ◌>>◌, resource, incomplete,
  discard,
}
use function_hcl.Evaluator.Schemas.{resource_schema}
use function_hcl.Evaluator.Common.{
  append_error, messages_from_diags, process_locals, first_label, evaluate_condition,
  create_self_child_context,
}
use function_hcl.Evaluator.Blocks.{process_composite, process_context, process_ready}

-- What the conversion of a body yields: a struct, an error, or a panic.
pub data Converted : Type 0 where
  converted : Object → Converted
  failed : Converted
  panicked : Converted

-- `for k, v := range a { annotationsObj[k] = v }`
unfoldable pub put_annotations : Object → Dict String String → Object
put_annotations o [] = o
put_annotations o ((k, v) ∷ a) = put_annotations (put k (text v) o) a

-- The object at a key, or an empty one if the key is missing; `none` if it is another value.
unfoldable pub object_at : String → Object → Option Object
object_at k o = elim (get k o) [ none ↦ some end | some (object m) ↦ some m | some _ ↦ none ]

-- The body with annotations at metadata.annotations.
unfoldable pub annotate : Object → Dict String String → Option Object
unfolding put_annotations object_at
annotate body a = elim (object_at "metadata" body) [
  | none ↦ none
  | some meta ↦ elim (object_at "annotations" meta) [
    | none ↦ none
    | some annotations ↦ some (
        put "metadata" (object (put "annotations" (object (put_annotations annotations a)) meta))
          body)
  ]
]

module _ (H : Hcl) (C : Cty H) where
  open H use {Expr, Value, Body, value, extend, has_errors}
  open C use {
    is_null, is_wholly_known, is_string, as_string, shape, string_val, number_val, object_val,
    nil_val, to_json, to_struct, new_struct, content, traverse, unknown_paths, join, index_text,
    default_name,
  }

  -- valueToStructWithAnnotations. JSON null leaves a nil map, and writing to that panics.
  unfoldable pub value_to_struct_with_annotations : Value → Dict String String → Converted
  unfolding annotate
  value_to_struct_with_annotations val [] = elim (to_struct val) [
    | none ↦ failed
    | some s ↦ converted s
  ]
  value_to_struct_with_annotations val (a ∷ as') = elim (to_json val) [
    | some (object body) ↦ elim (annotate body (a ∷ as')) [
      | none ↦ failed
      | some o ↦ elim (new_struct o) [ none ↦ failed | some s ↦ converted s ]
    ]
    | some null ↦ panicked
    | _ ↦ failed
  ]

  -- The `(computed)` entry of a map for a name: the zero Value if there is none.
  unfoldable pub value_at : String → Dict String Value → Value
  value_at name values = elim (lookup name values) [ none ↦ nil_val | some v ↦ v ]

  -- The paths to unknown values below one variable, each behind the variable's source text.
  unfoldable pub prefix_paths : String → List String → List String
  prefix_paths source_name [] = []
  prefix_paths source_name (path ∷ paths) =
      Text.◌++◌ source_name path ∷ prefix_paths source_name paths

  -- The loop of addResource over the variables of a body that could not be evaluated: what is
  -- incomplete, and the diagnostics met on the way.
  unfoldable pub trace_unknown :
      String → List (String × Value × Diags) → List String → Diags → List String × Diags
  trace_unknown name [] vars ds = (vars, ds)
  trace_unknown name ((source_name, v, tdiag) ∷ rest) vars ds =
      let (paths, walk_failed) = unknown_paths v in
      let ds' = ds ++ tdiag in
      let ds'' =
        if walk_failed
        then ds'
          ++ record {
            severity = warning;
            summary = report "unexpected error while finding unknown paths" (name ∷ []);
          }
            ∷ []
        else ds' in
      let found = vars ++ prefix_paths source_name paths in
      trace_unknown name rest
        (elim paths [
          | [] ↦ if not (is_wholly_known v) then found ++ source_name ∷ [] else found
          | _ ∷ _ ↦ found
        ])
        ds''

  -- The loop of addResource over the blocks of a resource that was added.
  unfoldable pub process_resource_blocks :
      Ctx Value → String → Diags → List (Block Body) → Handler Value Diags
  process_resource_blocks ctx name diags [] = pure diags
  process_resource_blocks ctx name diags (b ∷ blocks) = do
    composite ← if b.type == "composite" then process_composite H C ctx b else pure []
    ready ← if b.type == "ready" then process_ready H C ctx name b else pure composite
    current ← if b.type == "context" then process_context H C ctx b else pure ready
    let all = extend diags current
    (if has_errors current then pure all else process_resource_blocks ctx name all blocks)

  -- The branch of addResource for a body with errors or unknown values.
  unfoldable pub incomplete_resource :
      Ctx Value → String → Expr → Diags → Diags → Handler Value Diags
  unfolding append_error messages_from_diags trace_unknown
  incomplete_resource ctx name body diags ds = do
    let (vars, ds') = trace_unknown name (traverse body ctx) [] ds
    have ← gets (λ e. is_some (lookup name e.existing_resource_map))
    (if have
        then pure (
            append_error H C (extend diags ds') "existing resource could not be evaluated, abort"
              (name ∷ join vars ∷ []))
        else (discard (record {
          type = resource;
          reason = incomplete;
          name = name;
          context = messages_from_diags H C ds ++ join vars ∷ [];
        })
            >> pure (extend diags (downgrade_diags ds'))))

  -- The branch of addResource for a body that is complete.
  unfoldable pub complete_resource :
      Ctx Value
      → String
      → Content Expr Body
      → Dict String String
      → Value
      → Diags
      → Handler Value Diags
  unfolding append_error value_to_struct_with_annotations process_resource_blocks
  complete_resource ctx name content annotations out diags =
      elim (value_to_struct_with_annotations out annotations) [
        | panicked ↦ panic
        | failed ↦
            pure (append_error H C diags "unable to convert resource body to struct" (name ∷ []))
        | converted body_struct ↦ do
          modify (λ e. record e { desired_resources = insert name body_struct e.desired_resources })
          process_resource_blocks ctx name diags content.blocks
      ]

  -- addResource, once the locals are evaluated.
  unfoldable pub add_resource_body :
      Ctx Value → String → Content Expr Body → Dict String String → Diags → Handler Value Diags
  unfolding append_error evaluate_condition incomplete_resource complete_resource
  add_resource_body ctx name content annotations diags = elim (lookup "body" content.attributes) [
    | none ↦ pure (to_error_diag (report "internal error: no body in content block" (name ∷ [])))
    | some body ↦ do
      (cond, ds) ← evaluate_condition H C ctx content resource name
      let all = extend diags ds
      (if has_errors ds
          then pure (append_error H C all "unable to evaluate condition for resource" (name ∷ []))
          else if not cond
          then pure []
          else (let (out, body_ds) = value body ctx in
              if has_errors body_ds || not (is_wholly_known out)
              then incomplete_resource ctx name body all body_ds
              else complete_resource ctx name content annotations out (extend all body_ds)))
  ]

  -- addResource
  unfoldable pub add_resource :
      Ctx Value → String → Content Expr Body → Dict String String → Handler Value Diags
  unfolding process_locals create_self_child_context value_at add_resource_body
  add_resource ctx name content annotations = do
    duplicate ← gets (λ e. is_some (lookup name e.desired_resources))
    (if duplicate then pure (to_error_diag (report "duplicate resource" (name ∷ []))) else do
      observed ← gets (λ e. value_at name e.existing_resource_map)
      conn ← gets (λ e. value_at name e.existing_connection_map)
      self_ctx ← present (
          create_self_child_context H C ctx
            (("name", string_val name) ∷ ("resource", observed) ∷ ("connection", conn) ∷ []))
      (local_ctx, diags) ← process_locals H C self_ctx content
      (if has_errors diags
          then pure diags
          else (present local_ctx >>= λ ctx'.
              add_resource_body ctx' name content annotations diags)))

  -- processResource
  unfoldable pub process_resource : Ctx Value → Block Body → Handler Value Diags
  unfolding first_label add_resource
  process_resource ctx block = do
    name ← first_label H C block
    let (body, diags) = content block.body resource_schema
    (if has_errors diags
        then pure diags
        else (add_resource ctx name body [] >>= λ ds. pure (extend diags ds)))
