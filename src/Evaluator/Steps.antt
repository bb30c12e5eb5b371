-- ===== src/Evaluator/Steps.antt =====
-- The frame of each handler of composite.go and context.go, and of processReady of resources.go.
pub mod Resources
pub mod Requirements
pub mod Groups
use function_hcl.Base.{
  ℕ, String, ◌≡◌, refl, Bool, true, false, not, ◌||◌, Option, none, some, List, sym, [], ◌∷◌, ◌++◌,
  Dict, lookup, insert, ◌==◌, if◌then◌else◌, string_eq, Option-cases, inl, inr, Bool-cases,
  eq_of_==, lookup-insert, insert-Distinct, is_some, arith,
}
use function_hcl.Hcl.{Hcl, Ctx, Block, Diags}
use function_hcl.Locals.{process}
use function_hcl.Json.{Json, null, text, object, Object, end, field}
use function_hcl.Evaluator.{
  Cty, Content, Evaluator, Handler, pure, panic, present, modify, gets, ◌>>=◌, ◌>>◌, DiscardType,
  DiscardItem, discard, status, connection,
}
use function_hcl.Evaluator.Schemas.{ready_schema}
use mathlib.Core.List.{append-nil}
use function_hcl.Evaluator.Common.{
  process_locals, evaluate_condition, attribute, string_of, first_label,
}
use function_hcl.Evaluator.Blocks.{
  attributes_to_value_map, add_status, connection_values, add_connection_details, process_composite,
  add_context, process_context, process_ready,
}
use function_hcl.Evaluator.Frame.{
  ReadyIsDesired, Known, anything, fresh, desired, Meets, Grows, Grows-pure, Grows-panic,
  Grows-present, Grows-gets, Grows-modify, Grows-bind, Grows-then, Grows-if, Grows-aside,
  Grows-discard, Grows-elsewhere,
}

pub ruleset Steps = (
  Grows-pure, Grows-panic, Grows-present, Grows-gets, Grows-bind, Grows-then, Grows-if,
  Grows-discard,
)

module _ (H : Hcl) (C : Cty H) {s : Known} where
  open H use {Expr, Value, Body, value, extend, has_errors}
  open C use {to_json, base64_decode, ready_value, content, as_string}

  pub process_locals-Grows :
      (ctx : Ctx Value) (content : Content Expr Body) → Grows s s (process_locals H C ctx content)
  unfolding process_locals panic pure
  process_locals-Grows ctx content = elim (Option-cases (process H ctx content.blocks)) [
    | inl e ↦ rw (e, process_locals) Grows-panic
    | inr (r, e) ↦ rw (e, process_locals) (Grows-pure r)
  ]

  pub evaluate_condition-Grows :
      (ctx : Ctx Value) (content : Content Expr Body) (et : DiscardType) (name : String)
      → Grows s s (evaluate_condition H C ctx content et name)
  unfolding evaluate_condition
  evaluate_condition-Grows ctx content et name =
      elim (Option-cases (lookup "condition" content.attributes)) [
        | inl none_c ↦ rw (none_c, evaluate_condition) (Grows-pure _)
        | inr (expr, some_c) ↦ rw (some_c, evaluate_condition) (search Steps)
      ]

  pub attributes_to_value_map-Grows :
      (ctx : Ctx Value) (expr : Expr) (t : DiscardType)
      → Grows s s (attributes_to_value_map H C ctx expr t)
  unfolding attributes_to_value_map
  attributes_to_value_map-Grows ctx expr t = elim (Option-cases (to_json (value expr ctx).0)) [
    | inl e ↦ rw (e, attributes_to_value_map) (search Steps)
    | inr (null, e) ↦ rw (e, attributes_to_value_map) (search Steps)
    | inr (object o, e) ↦ rw (e, attributes_to_value_map) (search Steps)
    | inr (_, e) ↦ rw (e, attributes_to_value_map) (search Steps)
  ]

  pub attribute-Grows :
      (content : Content Expr Body) (name : String) → Grows s s (attribute H C content name)
  unfolding attribute
  attribute-Grows content name = Grows-present _

  pub first_label-Grows : (block : Block Body) → Grows s s (first_label H C block)
  unfolding first_label
  first_label-Grows block =
      elim block.labels
        as (λ l. Grows s s (elim l [ [] ↦ present none | label ∷ labels ↦ pure label ])) [
          | [] ↦ Grows-present none
          | label ∷ labels ↦ Grows-pure label
        ]

  pub add_status-Grows : (ctx : Ctx Value) (attrs : Expr) → Grows s s (add_status H C ctx attrs)
  unfolding add_status
  add_status-Grows ctx attrs = Grows-bind (attributes_to_value_map-Grows ctx attrs status) (λ r.
      elim (Option-cases r.0) [
        | inl e ↦ rw e (Grows-pure _)
        | inr (o, e) ↦ rw e (
            Grows-then (Grows-elsewhere _ (λ e. refl) (λ e. refl) (λ e. refl) (λ e. refl))
              (Grows-pure _))
      ])

  pub connection_values-Grows :
      (o : Object) (values : Dict String (List ℕ)) (has_discards : Bool) (diags : Diags)
      → Grows s s (connection_values H C o values has_discards diags)
  unfolding connection_values
  connection_values-Grows end values has_discards diags = Grows-pure _
  connection_values-Grows (field name (text val) out) values has_discards diags =
      elim (Option-cases (base64_decode val)) [
        | inl e ↦
            rw (e, connection_values)
              (Grows-then (Grows-discard _) (connection_values-Grows out values true _))
        | inr (b, e) ↦ rw (e, connection_values) (connection_values-Grows out _ has_discards diags)
      ]
  connection_values-Grows (field name _ out) values has_discards diags =
      connection_values-Grows out values has_discards _

  pub add_connection_details-Grows :
      (ctx : Ctx Value) (attrs : Expr) → Grows s s (add_connection_details H C ctx attrs)
  unfolding add_connection_details
  add_connection_details-Grows ctx attrs =
      Grows-bind (attributes_to_value_map-Grows ctx attrs connection) (λ r.
        elim (Option-cases r.0) [
          | inl e ↦ rw e (Grows-pure _)
          | inr (o, e) ↦ rw e (
              Grows-bind (connection_values-Grows o [] false r.1) (λ (values, has, ds).
                Grows-if (has || has_errors ds) (Grows-pure _) (
                  Grows-then (Grows-elsewhere _ (λ e. refl) (λ e. refl) (λ e. refl) (λ e. refl))
                    (Grows-pure _))))
        ])

  pub process_composite-Grows :
      (ctx : Ctx Value) (block : Block Body) → Grows s s (process_composite H C ctx block)
  unfolding process_composite
  process_composite-Grows ctx block =
      search
        (
          Steps, process_locals-Grows, attribute-Grows, first_label-Grows, add_status-Grows,
          add_connection_details-Grows,
        )
        depth 14

  pub add_context-Grows :
      (ctx : Ctx Value) (expr : Expr) (key : String) (diags : Diags)
      → Grows s s (add_context H C ctx expr key diags)
  unfolding add_context
  add_context-Grows ctx expr key diags =
      Grows-if (has_errors diags || not (C.is_wholly_known (value expr ctx).0)) (search Steps)
        (elim (Option-cases (to_json (value expr ctx).0)) [
          | inl e ↦ rw e (Grows-pure _)
          | inr (v, e) ↦ rw e (
              Grows-then (Grows-elsewhere _ (λ e. refl) (λ e. refl) (λ e. refl) (λ e. refl))
                (Grows-pure _))
        ])

  pub string_of-Grows : (v : Value) → Grows s s (string_of H C v)
  unfolding string_of
  string_of-Grows v = Grows-if (C.is_null v || not (C.is_wholly_known v)) Grows-panic (Grows-pure _)

  pub process_context-Grows :
      (ctx : Ctx Value) (block : Block Body) → Grows s s (process_context H C ctx block)
  unfolding process_context
  process_context-Grows ctx block =
      search (Steps, process_locals-Grows, attribute-Grows, string_of-Grows, add_context-Grows)
        depth 22

module _ (H : Hcl) (C : Cty H) where
  open H use {Expr, Value, Body, value, extend, has_errors}
  open C use {to_json, base64_decode, ready_value, content, is_wholly_known, is_string}

  readied :
      (n : String) (v : ℕ) (e : Evaluator Value)
      → ReadyIsDesired e
      → (k : String) → is_some (lookup n e.desired_resources) ≡ true
      → is_some (lookup k (insert n v e.ready)) ≡ true
      → is_some (lookup k e.desired_resources) ≡ true
  readied n v e r k p h = elim (Bool-cases (k == n)) [
    | inl same ↦ rw (eq_of_== k n same) p
    | inr differ ↦ r k (ground (arith, lookup-insert k n v e.ready, differ))
  ]

  -- A readiness is set for a resource that is desired.
  set_ready-Grows :
      (n : String) (v : ℕ)
      → Grows {V = Value}
          (desired n)
          (desired n)
          (modify (λ e. record e { ready = insert n v e.ready }))
  unfolding Meets
  set_ready-Grows n v = Grows-modify {s = desired n} {t = desired n} _ λ e p. (
    record {
      observed = refl;
      kept = λ k s h. h;
      ready_kept = λ r k h. readied n v e r k p h;
      ready_distinct = λ d. insert-Distinct n v e.ready d;
      more = [];
      discarded = sym (append-nil e.discards);
    },
    p,
  )

  pub process_ready-Grows :
      (ctx : Ctx Value) (name : String) (block : Block Body)
      → Grows (desired name) (desired name) (process_ready H C ctx name block)
  unfolding process_ready
  process_ready-Grows ctx name block =
      let body = (content block.body ready_schema).0 in
      Grows-if (has_errors (content block.body ready_schema).1) (Grows-pure _) (
        Grows-bind (process_locals-Grows H C ctx body) λ (local_ctx, ds).
          Grows-if (has_errors ds) (Grows-pure _)
            (elim (Option-cases (lookup "value" body.attributes)) [
              | inl e ↦ rw e (Grows-pure _)
              | inr (expr, e) ↦ rw e (
                  Grows-bind (Grows-present local_ctx) λ ctx'.
                    let (val, val_ds) = value expr ctx' in
                    Grows-if (has_errors val_ds || not (is_wholly_known val)) (search Steps) (
                      Grows-if (not (is_string val)) (Grows-pure _) (
                        Grows-bind (string_of-Grows H C val) λ s.
                          elim (Option-cases (ready_value s)) [
                            | inl e' ↦ rw e' (Grows-pure _)
                            | inr (v, e') ↦
                                rw e' (Grows-then (set_ready-Grows name v) (Grows-pure _))
                          ])))
            ]))
