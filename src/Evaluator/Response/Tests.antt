-- ===== src/Evaluator/Response/Tests.antt =====
-- Instances of the theorems on requests and responses, for a small composition.
use function_hcl.Base.{
  ℕ, String, ◌≡◌, refl, Option, none, some, List, [], ◌∷◌, Dict, Distinct, lookup, nat_eq,
  string_eq, if◌then◌else◌, first_of, arith,
}
use function_hcl.Hcl.{Ctx, Diags, Summary, external, report, warning}
use function_hcl.Json.{Json, text, array, object, Items, nil, item, Object, end, field, get}
use function_hcl.Evaluator.{
  Evaluator, new_evaluator, resource, incomplete, pure, modify, ◌>>=◌, ◌>>◌,
}
use function_hcl.Evaluator.Frame.{ReadyIsDesired}
use function_hcl.Evaluator.Sample.{tree_hcl, tree_cty, entries}
use function_hcl.Evaluator.Resources.{value_at}
use function_hcl.Evaluator.Variables.{
  Request, Wire, track_base_names, track_resources, sorted_names, add_base_name, observed_bodies,
  request_object, take_collections, make_vars,
}
use function_hcl.Evaluator.Collected.{Shows, in_collection, make_vars-existing}
use function_hcl.Evaluator.Response.{Ranges, Located, Response}
use function_hcl.Evaluator.Response.Build as Build
use function_hcl.Evaluator.Response.Build.{Answer, responded, panicked, to_response}
use function_hcl.Evaluator.Response.Ready.{Gives, ShowsDesired, to_response-Gives}
use function_hcl.Evaluator.Response.Conditions.{Reports, to_response-Reports}
use function_hcl.Evaluator.Response.Merge.{state_of, merge_response}
use function_hcl.Evaluator.Response.Kept.{merge_response_lem}

abbrev texts : Object → Dict String String
texts end = []
texts (field k (text s) o) = (k, s) ∷ texts o
texts (field k v o) = texts o

abbrev annotations : Object → Option (Option (Dict String String))
annotations o = elim (get "metadata" o) [
  | none ↦ some none
  | some (object m) ↦ elim (get "annotations" m) [
    | none ↦ some none
    | some (object a) ↦ some (some (texts a))
    | some _ ↦ none
  ]
  | some _ ↦ none
]

abbrev tuple_of : List (Option Json) → Option Items
tuple_of [] = some nil
tuple_of (none ∷ vs) = none
tuple_of (some v ∷ vs) = elim (tuple_of vs) [ none ↦ none | some s ↦ some (item v s) ]

abbrev wire : Wire tree_hcl
wire = record {
  annotations = annotations;
  remove_managed_fields = λ o. o;
  decode = λ o. some (entries o);
  tuple_val = λ vs. elim (tuple_of vs) [ none ↦ none | some s ↦ some (array s) ];
  sort_by_index = λ v. v;
  any-sort_by_index = λ p v. refl;
}

abbrev summary_of : Summary → String
summary_of (external s) = s
summary_of (report s args) = s
summary_of _ = ""

abbrev locate : Diags → List (Located ℕ)
locate [] = []
locate (d ∷ ds) = record { diag = d; subject = some 1; context = none } ∷ locate ds

abbrev ranges : Ranges
ranges = record {
  Range = ℕ;
  range_eq = nat_eq;
  zero_range = 0;
  summary_text = summary_of;
  locate = locate;
  arrange = λ ds. ds;
  count-arrange = λ p ds. refl;
}

-- One observed resource, the member of a collection.
abbrev member : Object
member =
    field "metadata"
      (object (
        field "annotations"
          (object (field "hcl.fn.crossplane.io/collection-base-name" (text "shards") end)) end))
      end

abbrev request : Request
request = record {
  observed = ("shard-0", (member, end)) ∷ ("queue", (end, end)) ∷ [];
  composite = end;
  composite_connection = end;
  context = end;
  extra_resources = [];
}

abbrev vars_run : Option (Option (Ctx (Option Json)) × Evaluator (Option Json))
vars_run = make_vars tree_hcl tree_cty wire [] request new_evaluator

abbrev ctx_of : Option (Option (Ctx (Option Json)) × Evaluator (Option Json)) → Ctx (Option Json)
ctx_of (some (some ctx, e)) = ctx
ctx_of _ = []

abbrev state_after : {A : Type 0} → Option (A × Evaluator (Option Json)) → Evaluator (Option Json)
state_after (some (a, e)) = e
state_after none = new_evaluator

vars_run_lem : vars_run ≡ some (some (ctx_of vars_run), state_after vars_run)
unfolding make_vars track_base_names request_object take_collections value_at ◌>>◌ ◌>>=◌ modify pure
    observed_bodies track_resources add_base_name lookup string_eq get sorted_names
vars_run_lem = refl

make_vars-existing_example :
    (document : Object) × (top : Dict String (Option Json)) × Shows tree_hcl tree_cty wire request
      document
    × (wire.decode document ≡ some top)
    × (lookup "shard-0" (state_after vars_run).existing_resource_map ≡ (
        if in_collection tree_hcl tree_cty wire "shard-0" request.observed
        then none
        else lookup "shard-0" (tree_cty.as_value_map (value_at tree_hcl tree_cty "resource" top))))
    × (lookup "shard-0" (state_after vars_run).existing_connection_map ≡ (
        if in_collection tree_hcl tree_cty wire "shard-0" request.observed
        then none
        else lookup "shard-0"
            (tree_cty.as_value_map (value_at tree_hcl tree_cty "connection" top))))
make_vars-existing_example =
    make_vars-existing tree_hcl tree_cty wire [] (ctx_of vars_run) request new_evaluator
      (state_after vars_run) "shard-0" vars_run_lem

-- A bucket that is ready, and a discarded queue.
abbrev ended : Evaluator (Option Json)
ended = record new_evaluator {
  desired_resources = ("bucket", field "kind" (text "Bucket") end) ∷ [];
  ready = ("bucket", 1) ∷ [];
  discards = record { type = resource; reason = incomplete; name = "queue"; context = [] } ∷ [];
}

abbrev warned : List (Located ℕ)
warned = locate (record { severity = warning; summary = external "unknown" } ∷ [])

ended_ready : ReadyIsDesired ended
unfolding lookup
ended_ready n h = ground (arith, h)

one_ready : Distinct ended.ready
unfolding lookup
one_ready = (refl, tt)

to_response-Gives_example :
    Gives (ShowsDesired ended) (to_response tree_hcl tree_cty ranges ended warned)
to_response-Gives_example =
    to_response-Gives tree_hcl tree_cty ranges ended warned one_ready ended_ready

abbrev no_response : Response (Located ℕ)
no_response = record {
  desired = none;
  context = none;
  requirements = none;
  results = [];
  conditions = [];
}

abbrev response_of : Answer (Response (Located ℕ)) → Response (Located ℕ)
response_of (responded r) = r
response_of _ = no_response

abbrev ended_response : Response (Located ℕ)
ended_response = response_of (to_response tree_hcl tree_cty ranges ended warned)

ended_response_lem : to_response tree_hcl tree_cty ranges ended warned ≡ responded ended_response
unfolding to_response Build.◌>>=◌ new_evaluator lookup string_eq
ended_response_lem = refl

to_response-Reports_example : Reports ended warned ended_response
to_response-Reports_example =
    to_response-Reports tree_hcl tree_cty ranges ended warned ended_response ended_response_lem

-- What another function left: a bucket and a topic.
abbrev left : Response (Located ℕ)
left = record {
  desired = some (record {
    composite = none;
    resources =
        ("bucket", record { body = none; connection_details = []; ready = 0 })
        ∷ ("topic", record { body = some end; connection_details = []; ready = 2 })
        ∷ [];
  });
  context = some (field "region" (text "eu") end);
  requirements = none;
  results = [];
  conditions = [];
}

abbrev own : Response (Located ℕ)
own = record left {
  desired = some (record {
    composite = none;
    resources = ("bucket", record { body = some end; connection_details = []; ready = 1 }) ∷ [];
  });
}

abbrev merged_of : Option (Response (Located ℕ)) → Response (Located ℕ)
merged_of none = no_response
merged_of (some r) = r

abbrev merged : Response (Located ℕ)
merged = merged_of (merge_response tree_hcl tree_cty left own)

merged_lem : merge_response tree_hcl tree_cty left own ≡ some merged
unfolding merge_response
merged_lem = refl

own-Distinct : Distinct (state_of own.desired).resources
unfolding lookup
own-Distinct = (refl, tt)

merge_response_lem_example :
    ((n : String)
      → lookup n (state_of merged.desired).resources
        ≡ first_of
            (lookup n (state_of own.desired).resources)
            (lookup n (state_of left.desired).resources))
    × ((state_of merged.desired).composite
        ≡ first_of (state_of own.desired).composite (state_of left.desired).composite)
    × (merged.results ≡ own.results)
    × (merged.conditions ≡ own.conditions)
merge_response_lem_example =
    merge_response_lem tree_hcl tree_cty left own merged own-Distinct merged_lem
