-- ===== src/Evaluator/Blocks.antt =====
-- The blocks that add to the composite, the context and the readiness of a resource: composite.go,
-- context.go, and processReady of resources.go.
use function_hcl.Base.{
  ℕ, String, Bool, true, false, not, ◌||◌, Option, none, some, List, [], ◌∷◌, ◌++◌, Dict, lookup,
  insert, ◌==◌, if◌then◌else◌, string_eq,
}
use function_hcl.Hcl.{Hcl, Ctx, Block, Diags, warning, report, downgrade_diags}
use function_hcl.Json.{null, text, object, Object, end, field}
use function_hcl.Evaluator.{
  Cty, Handler, pure, present, modify, ◌>>=◌, ◌>>◌, DiscardType, status, connection, ready, context,
  incomplete, bad_secret, discard,
}
use function_hcl.Evaluator.Schemas.{composite_schema, context_schema, ready_schema}
use function_hcl.Evaluator.Common.{
  append_error, messages_from_diags, process_locals, attribute, string_of, first_label,
}

module _ (H : Hcl) (C : Cty H) where
  open H use {Expr, Value, Body, value, extend, has_errors}
  open C use {is_wholly_known, is_string, to_json, base64_decode, ready_value, content}

  -- attributesToValueMap: the object, unless it is nil, and the diagnostics.
  unfoldable pub attributes_to_value_map :
      Ctx Value → Expr → DiscardType → Handler Value (Option Object × Diags)
  unfolding messages_from_diags append_error
  attributes_to_value_map ctx expr e_type =
      let (val, diags) = value expr ctx in
      if has_errors diags || not (is_wholly_known val)
      then (discard (record {
        type = e_type;
        reason = incomplete;
        name = "";
        context = messages_from_diags H C diags;
      })
          >> pure (none, downgrade_diags diags))
      else elim (to_json val) [
        | none ↦ pure (none, append_error H C diags "error marshaling cty value" [])
        | some (object o) ↦ pure (some o, [])
        | some null ↦ pure (none, [])
        | some _ ↦ pure (none, append_error H C diags "error unmarshaling cty value" [])
      ]

  -- addStatus
  unfoldable pub add_status : Ctx Value → Expr → Handler Value Diags
  unfolding attributes_to_value_map
  add_status ctx attrs = do
    (values, diags) ← attributes_to_value_map ctx attrs status
    elim values [
      | none ↦ pure diags
      | some o ↦
          modify (λ e. record e { composite_statuses = e.composite_statuses ++ o ∷ [] })
          >> pure diags
    ]

  -- The loop of addConnectionDetails: the values so far, hasDiscards and the diagnostics.
  unfoldable pub connection_values :
      Object
      → Dict String (List ℕ)
      → Bool
      → Diags
      → Handler Value (Dict String (List ℕ) × Bool × Diags)
  unfolding append_error
  connection_values end values has_discards diags = pure (values, has_discards, diags)
  connection_values (field name v out) values has_discards diags = elim v [
    | text val ↦ elim (base64_decode val) [
      | none ↦
          discard
            (record { type = connection; reason = bad_secret; name = name; context = name ∷ [] })
          >> connection_values out values true (
              extend diags (
                record {
                  severity = warning;
                  summary = report "connection secret key not in base64 format" (name ∷ []);
                }
                ∷ []))
      | some b ↦ connection_values out (insert name b values) has_discards diags
    ]
    | _ ↦
        connection_values out values has_discards
          (append_error H C diags "connection key was not a string" (name ∷ []))
  ]

  -- addConnectionDetails
  unfoldable pub add_connection_details : Ctx Value → Expr → Handler Value Diags
  unfolding attributes_to_value_map
  add_connection_details ctx attrs = do
    (out, diags) ← attributes_to_value_map ctx attrs connection
    elim out [
      | none ↦ pure diags
      | some o ↦ do
        (values, has_discards, diags') ← connection_values o [] false diags
        (if has_discards || has_errors diags'
            then pure diags'
            else (modify
                  (λ e. record e { composite_connections = e.composite_connections ++ values ∷ [] })
                >> pure diags'))
    ]

  -- processComposite
  unfoldable pub process_composite : Ctx Value → Block Body → Handler Value Diags
  unfolding process_locals attribute first_label append_error add_status add_connection_details
  process_composite ctx block =
      let (body, diags) = content block.body composite_schema in
      if has_errors diags then pure diags else do
        (local_ctx, ds) ← process_locals H C ctx body
        (if has_errors ds then pure ds else do
          ctx' ← present local_ctx
          values ← attribute H C body "body"
          what ← first_label H C block
          let all = extend diags ds
          (if what == "status"
              then (add_status ctx' values >>= λ more. pure (extend all more))
              else if what == "connection"
              then (add_connection_details ctx' values >>= λ more. pure (extend all more))
              else pure (append_error H C all "invalid composite label" (what ∷ []))))

  -- The end of processContext, once the key is known.
  unfoldable pub add_context : Ctx Value → Expr → String → Diags → Handler Value Diags
  unfolding messages_from_diags append_error
  add_context ctx expr key diags =
      let (val, ds) = value expr ctx in
      if has_errors diags || not (is_wholly_known val)
      then (discard (record {
        type = context;
        reason = incomplete;
        name = "";
        context = messages_from_diags H C diags;
      })
          >> pure (extend diags (downgrade_diags ds)))
      else elim (to_json val) [
        | none ↦ pure (append_error H C (extend diags ds) "cannot convert value to interface" [])
        | some v ↦
            modify (λ e. record e { contexts = e.contexts ++ field key v end ∷ [] })
            >> pure (extend diags ds)
      ]

  -- processContext
  unfoldable pub process_context : Ctx Value → Block Body → Handler Value Diags
  unfolding process_locals attribute append_error add_context
  process_context ctx block =
      let (body, diags) = content block.body context_schema in
      if has_errors diags then pure diags else do
        (local_ctx, ds) ← process_locals H C ctx body
        (if has_errors ds then pure ds else do
          ctx' ← present local_ctx
          key_expr ← attribute H C body "key"
          let (key, key_ds) = value key_expr ctx'
          let all = extend (extend diags ds) key_ds
          (if has_errors key_ds
              then pure (append_error H C all "unable to evaluate context key" [])
              else if not (is_wholly_known key)
              then pure (append_error H C all "context key is unknown" [])
              else if not (is_string key)
              then pure (append_error H C all "context key was not a string" [])
              else do
                key_string ← string_of H C key
                expr ← attribute H C body "value"
                add_context ctx' expr key_string all))

  -- processReady
  unfoldable pub process_ready : Ctx Value → String → Block Body → Handler Value Diags
  unfolding process_locals messages_from_diags append_error
  process_ready ctx resource_name block =
      let (body, diags) = content block.body ready_schema in
      if has_errors diags then pure diags else do
        (local_ctx, ds) ← process_locals H C ctx body
        let all = extend diags ds
        (if has_errors ds then pure all else elim (lookup "value" body.attributes) [
          | none ↦
              pure (append_error H C all "attribute not found in ready block" (resource_name ∷ []))
          | some expr ↦ do
            ctx' ← present local_ctx
            let (val, val_ds) = value expr ctx'
            let total = extend all val_ds
            (if has_errors val_ds || not (is_wholly_known val)
                then (discard (record {
                  type = ready;
                  reason = incomplete;
                  name = resource_name;
                  context = messages_from_diags H C all;
                })
                    >> pure (extend all (downgrade_diags val_ds)))
                else if not (is_string val)
                then pure (
                    append_error H C total "attribute not a string in ready block"
                      (resource_name ∷ []))
                else (string_of H C val >>= λ s. elim (ready_value s) [
                  | none ↦ pure (
                      append_error H C total "attribute does not have a valid value in ready block"
                        (resource_name ∷ []))
                  | some v ↦
                      modify (λ e. record e { ready = insert resource_name v e.ready })
                      >> pure total
                ]))
        ])
