-- ===== src/Evaluator/Response/Merge.antt =====
-- mergeResponse of function/internal/fn/fn.go.
use function_hcl.Base.{String, Option, none, some, [], ◌∷◌, Dict, insert, string_eq}
use function_hcl.Hcl.{Hcl}
use function_hcl.Json.{Object, end, field, put}
use function_hcl.Evaluator.{Cty}
use function_hcl.Evaluator.Response.{Resource, State, Response}

-- The desired state, or an empty one.
abbrev pub state_of : Option State → State
state_of none = record { composite = none; resources = [] }
state_of (some s) = s

-- `for k, v := range a { d[k] = v }`
unfoldable pub set_resources : Dict String Resource → Dict String Resource → Dict String Resource
set_resources d [] = d
set_resources d ((k, v) ∷ a) = set_resources (insert k v d) a

unfoldable pub put_all : Object → Object → Object
put_all o end = o
put_all o (field k v a) = put_all (put k v o) a

module _ (H : Hcl) (C : Cty H) where
  open C use {new_struct}

  -- The context after the merge; `none` is an error of NewStruct.
  unfoldable pub merge_context : Option Object → Option Object → Option (Option Object)
  unfolding put_all
  merge_context old none = some old
  merge_context old (some new) =
      elim (new_struct (put_all (elim old [ none ↦ end | some o ↦ o ]) new)) [
        | none ↦ none
        | some s ↦ some (some s)
      ]

  -- mergeResponse; `none` is its error.
  unfoldable pub merge_response : {D : Type 0} → Response D → Response D → Option (Response D)
  unfolding set_resources merge_context
  merge_response res hcl_response =
      let old = state_of res.desired in
      let new = state_of hcl_response.desired in
      let composite : Option Resource = elim new.composite [
        | none ↦ old.composite
        | some c ↦ some c
      ] in
      elim (merge_context res.context hcl_response.context) [
        | none ↦ none
        | some context ↦ some (record {
          desired = some (record {
            composite = composite;
            resources = set_resources old.resources new.resources;
          });
          context = context;
          requirements = hcl_response.requirements;
          results = hcl_response.results;
          conditions = hcl_response.conditions;
        })
      ]
