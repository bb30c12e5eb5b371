-- ===== src/Evaluator/Response/Build.antt =====
-- toResponse of function/internal/evaluator/eval.go.
use function_hcl.Base.{
  ℕ, suc, ◌-◌, String, Bool, true, false, Option, none, some, List, [], ◌∷◌, ◌++◌, Dict, lookup,
  insert, length, ltb, if◌then◌else◌, string_eq,
}
use function_hcl.Hcl.{Hcl}
use function_hcl.Json.{object, Object, end, field}
use function_hcl.Unify.{Unified, type_mismatch, not_equal, unify, unify_bytes}
use function_hcl.Unify as Unify
use function_hcl.Unify.Depth.{depth_of_all}
use function_hcl.Evaluator.{Cty, Evaluator, DiscardItem, DiscardType, DiscardReason, user_condition}
use function_hcl.Evaluator.Response.{
  Ranges, Located, Resource, Response, Report, Condition, discarded, severity_warning,
  condition_true, condition_false, discarded_item, items_incomplete, more_incomplete, all_complete,
}
use function_hcl.Evaluator.Response.Diagnostics.{add_diagnostics_info}

-- What toResponse yields: a response, an error with what it wraps, or a panic. `out_of_fuel` is no
-- outcome of the source.
pub data Answer (A : Type 0) : Type 0 where
  responded : A → Answer A
  failed : String → List String → Answer A
  panicked : Answer A
  out_of_fuel : Answer A

infixl 5 ◌>>=◌
unfoldable pub ◌>>=◌ : {A B : Type 0} → Answer A → (A → Answer B) → Answer B
responded a >>= f = f a
failed what path >>= f = failed what path
panicked >>= f = panicked
out_of_fuel >>= f = out_of_fuel

-- `errors.Wrap(err, what)`
unfoldable pub wrap : {A : Type 0} → String → Unified A → Answer A
wrap what (Unify.ok a) = responded a
wrap what (type_mismatch path) = failed what path
wrap what (not_equal path) = failed what path
wrap what Unify.out_of_fuel = out_of_fuel

-- unify, with fuel for its inputs.
abbrev pub unify_all : List Object → Unified Object
unify_all inputs = unify (suc (depth_of_all inputs)) inputs

-- structpb.NewStruct
unfoldable pub convert : String → Option Object → Answer Object
convert what none = failed what []
convert what (some s) = responded s

-- The loop over the desired resources.
unfoldable pub desired_of : Dict String Object → Dict String Resource
desired_of [] = []
desired_of ((name, res) ∷ desired) =
    (name, record { body = some res; connection_details = []; ready = 0 }) ∷ desired_of desired

-- ensureDesiredComposite
abbrev pub ensure_composite : Option Resource → Resource
ensure_composite none = record { body = none; connection_details = []; ready = 0 }
ensure_composite (some c) = c

-- The loop over the readiness of resources.
unfoldable pub set_ready : Dict String ℕ → Dict String Resource → Answer (Dict String Resource)
set_ready [] resources = responded resources
set_ready ((name, val) ∷ ready) resources = elim (lookup name resources) [
  | none ↦ panicked
  | some desired ↦ set_ready ready (insert name (record desired { ready = val }) resources)
]

abbrev pub by_user : DiscardReason → Bool
by_user user_condition = true
by_user _ = false

-- The result that reports a discard.
abbrev pub result_of : {D : Type 0} → DiscardItem → Report D
result_of di = record {
  severity = severity_warning;
  message = discarded_item di;
  reason = discarded di.reason;
}

-- The loop over the discards, with the results and the names to display so far.
unfoldable pub discard_results :
    {D : Type 0}
    → List DiscardItem
    → List (Report D)
    → List (DiscardType × String)
    → List (Report D) × List (DiscardType × String)
discard_results [] results shown = (results, shown)
discard_results (di ∷ discards) results shown =
    let more = results ++ result_of di ∷ [] in
    let more_shown = if ltb (length shown) 3 then shown ++ (di.type, di.name) ∷ [] else shown in
    if by_user di.reason
    then discard_results discards results shown
    else discard_results discards more more_shown

-- The condition FullyResolved.
unfoldable pub resolved_condition :
    {D : Type 0} → List (Report D) → List (DiscardType × String) → Condition D
resolved_condition results shown = record {
  type = "FullyResolved";
  status = elim results [ [] ↦ condition_true | _ ∷ _ ↦ condition_false ];
  reason = elim results [ [] ↦ "AllItemsProcessed" | _ ∷ _ ↦ "IncompleteItemsPresent" ];
  message = elim shown [
    | [] ↦ all_complete
    | s ∷ more ↦
        if ltb 3 (length results)
        then more_incomplete (s ∷ more) (length results - 3)
        else items_incomplete (s ∷ more)
  ];
}

module _ (H : Hcl) (C : Cty H) (R : Ranges) where
  open H use {Value}
  open C use {new_struct}
  open R use {Range}

  -- The composite with the statuses.
  unfoldable pub with_statuses : List Object → Answer (Option Resource)
  with_statuses [] = responded none
  with_statuses (status ∷ statuses) = do
    st ← wrap "unify composite status" (unify_all (status ∷ statuses))
    s ←
        convert "unexpected error converting composite status"
          (new_struct (field "status" (object st) end))
    responded (some (record (ensure_composite none) { body = some s }))

  -- The composite with the connection details.
  unfoldable pub with_connections :
      List (Dict String (List ℕ)) → Option Resource → Answer (Option Resource)
  with_connections [] composite = responded composite
  with_connections (c ∷ connections) composite = do
    u ← wrap "unify composite connection" (unify_bytes (c ∷ connections))
    responded (some (record (ensure_composite composite) { connection_details = u }))

  unfoldable pub context_of : List Object → Answer (Option Object)
  context_of [] = responded none
  context_of (c ∷ contexts) = do
    ctx ← wrap "unify context" (unify_all (c ∷ contexts))
    s ← convert "unexpected error converting context" (new_struct ctx)
    responded (some s)

  -- toResponse
  unfoldable pub to_response :
      Evaluator Value → List (Located Range) → Answer (Response (Located Range))
  unfolding with_statuses with_connections context_of desired_of set_ready discard_results
      resolved_condition add_diagnostics_info
  to_response e diags = do
    with_status ← with_statuses e.composite_statuses
    composite ← with_connections e.composite_connections with_status
    context ← context_of e.contexts
    resources ← set_ready e.ready (desired_of e.desired_resources)
    let (results, shown) = discard_results e.discards [] []
    responded (
        add_diagnostics_info R
          (record {
            desired = some (record { composite = composite; resources = resources });
            context = context;
            requirements = elim e.requirements [ [] ↦ none | r ∷ rs ↦ some (r ∷ rs) ];
            results = results;
            conditions = resolved_condition results shown ∷ [];
          })
          diags)
