-- ===== src/Evaluator/Analyzer.antt =====
-- function/internal/evaluator/analyze.go: checkStructure of the static analyzer, with the names that
-- it collects.
pub mod Added
pub mod References
pub mod Resolve
pub mod Checks
pub mod Visits
pub mod Bodies
pub mod Enough
pub mod Calls
pub mod Accepted
pub mod Unique
pub mod Fuel
mod Tests
use function_hcl.Base.{
  ℕ, zero, suc, String, Bool, true, false, Option, none, some, List, [], ◌∷◌, lookup, contains,
  ◌==◌, string_eq, if◌then◌else◌,
}
use function_hcl.Hcl.{Hcl, Block, Diags, report, to_error_diag}
use function_hcl.Evaluator.{Cty}
use function_hcl.Evaluator.Schemas.{Schema, top_level_schema, schemas_by_block_type}

-- The names of an analyzer: each list has the keys of one map.
pub record Names : Type 0 where
  pub resource_names : List String
  pub collection_names : List String
  pub requirement_names : List String

-- newAnalyzer
abbrev pub new_analyzer : Names
new_analyzer = record { resource_names = []; collection_names = []; requirement_names = [] }

-- addResource
unfoldable pub add_resource_name : String → Names → Diags × Names
add_resource_name name a =
    if contains a.resource_names name
    then (to_error_diag (report "resource defined more than once" (name ∷ [])), a)
    else ([], record a { resource_names = name ∷ a.resource_names })

-- addCollection
unfoldable pub add_collection : String → Names → Diags × Names
add_collection name a =
    if contains a.collection_names name
    then (to_error_diag (report "resource collection defined more than once" (name ∷ [])), a)
    else ([], record a { collection_names = name ∷ a.collection_names })

-- addRequirement
unfoldable pub add_requirement : String → Names → Diags × Names
add_requirement name a =
    if contains a.requirement_names name
    then (to_error_diag (report "requirement defined more than once" (name ∷ [])), a)
    else ([], record a { requirement_names = name ∷ a.requirement_names })

-- The name that a block of a type declares, if it is of one of the three types.
unfoldable pub declare : String → String → Names → Diags × Names
unfolding add_resource_name add_collection add_requirement
declare type name a =
    if type == "resource"
    then add_resource_name name a
    else if type == "resources"
    then add_collection name a
    else if type == "requirement"
    then add_requirement name a
    else ([], a)

-- `block.Labels[0]` is read for these types only.
unfoldable pub declare_block : {B : Type 0} → Block B → Names → Option (Diags × Names)
unfolding declare
declare_block b a = elim b.labels [
  | name ∷ labels ↦ some (declare b.type name a)
  | [] ↦
      if contains ("resource" ∷ "resources" ∷ "requirement" ∷ []) b.type then none else some ([], a)
]

module _ (H : Hcl) (C : Cty H) where
  open H use {Body, just_attributes, extend, has_errors}
  open C use {content}

  -- The loop over the blocks of a body; `none` is a panic, or fuel that ran out.
  unfoldable pub check_blocks :
      (Body → Option Schema → Names → Option (Diags × Names))
      → Diags
      → List (Block Body)
      → Names
      → Option (Diags × Names)
  unfolding declare_block schemas_by_block_type
  check_blocks nested diags [] a = some (diags, a)
  check_blocks nested diags (b ∷ blocks) a = elim (declare_block b a) [
    | none ↦ none
    | some (ds, a1) ↦ elim (nested b.body (lookup b.type schemas_by_block_type) a1) [
      | none ↦ none
      | some (ds2, a2) ↦ check_blocks nested (extend (extend diags ds) ds2) blocks a2
    ]
  ]

  -- checkStructure. Each call goes one level down, so the fuel bounds the depth of the body.
  unfoldable pub check_structure : ℕ → Body → Option Schema → Names → Option (Diags × Names)
  unfolding check_blocks
  check_structure zero body s a = none
  check_structure (suc fuel) body none a =
      let diags = (just_attributes body).1 in some (if has_errors diags then diags else [], a)
  check_structure (suc fuel) body (some s) a =
      let (c, diags) = content body s in
      let rest = check_blocks (check_structure fuel) diags c.blocks a in
      if has_errors diags then some (diags, a) else rest

  -- The loop of analyzeBodies that checks the structure of each body.
  unfoldable pub check_bodies : ℕ → Diags → List Body → Names → Option (Diags × Names)
  unfolding check_structure top_level_schema
  check_bodies fuel diags [] a = some (diags, a)
  check_bodies fuel diags (body ∷ bodies) a =
      elim (check_structure fuel body (some top_level_schema) a) [
        | none ↦ none
        | some (ds, a1) ↦ check_bodies fuel (extend diags ds) bodies a1
      ]
