-- ===== src/Evaluator/Schemas.antt =====
-- function/internal/evaluator/schemas.go: which attributes and blocks each kind of block may have.
-- Block and attribute names are the constants of api.go.
use function_hcl.Base.{String, Bool, true, false, List, [], ◌∷◌, ◌++◌, Dict}

-- hcl.BodySchema: block types with the names of their labels, attributes with `Required`.
pub record Schema : Type 0 where
  pub blocks : List (String × List String)
  pub attributes : List (String × Bool)

abbrev base_group_blocks : List (String × List String)
base_group_blocks =
    ("locals", [])
    ∷ ("group", [])
    ∷ ("resource", "name" ∷ [])
    ∷ ("resources", "baseName" ∷ [])
    ∷ ("composite", "object" ∷ [])
    ∷ ("context", [])
    ∷ ("requirement", "name" ∷ [])
    ∷ []

abbrev resource_blocks : List (String × List String)
resource_blocks =
    ("locals", []) ∷ ("ready", []) ∷ ("composite", "object" ∷ []) ∷ ("context", []) ∷ []

unfoldable pub top_level_schema : Schema
top_level_schema = record {
  blocks = base_group_blocks ++ ("function", "name" ∷ []) ∷ [];
  attributes = [];
}

unfoldable pub group_schema : Schema
group_schema = record { blocks = base_group_blocks; attributes = ("condition", false) ∷ [] }

unfoldable pub resources_schema : Schema
resources_schema = record {
  blocks = ("locals", []) ∷ ("composite", "object" ∷ []) ∷ ("template", []) ∷ ("context", []) ∷ [];
  attributes = ("condition", false) ∷ ("for_each", true) ∷ ("name", false) ∷ [];
}

unfoldable pub template_schema : Schema
template_schema = record { blocks = resource_blocks; attributes = ("body", true) ∷ [] }

unfoldable pub resource_schema : Schema
resource_schema = record {
  blocks = resource_blocks;
  attributes = ("body", true) ∷ ("condition", false) ∷ [];
}

unfoldable pub context_schema : Schema
context_schema = record {
  blocks = ("locals", []) ∷ [];
  attributes = ("key", true) ∷ ("value", true) ∷ [];
}

unfoldable pub ready_schema : Schema
ready_schema = record { blocks = ("locals", []) ∷ []; attributes = ("value", true) ∷ [] }

unfoldable pub composite_schema : Schema
composite_schema = record { blocks = ("locals", []) ∷ []; attributes = ("body", true) ∷ [] }

unfoldable pub requirement_schema : Schema
requirement_schema = record {
  blocks = ("locals", []) ∷ ("select", []) ∷ [];
  attributes = ("condition", false) ∷ [];
}

unfoldable pub select_schema : Schema
select_schema = record {
  blocks = [];
  attributes =
      ("apiVersion", true) ∷ ("kind", true) ∷ ("matchName", false) ∷ ("matchLabels", false) ∷ [];
}

-- FunctionSchema and ArgSchema of functions/load.go
unfoldable pub function_schema : Schema
function_schema = record {
  blocks = ("arg", "name" ∷ []) ∷ ("locals", []) ∷ [];
  attributes = ("description", false) ∷ ("body", true) ∷ [];
}

unfoldable pub arg_schema : Schema
arg_schema = record { blocks = []; attributes = ("description", false) ∷ ("default", false) ∷ [] }

-- schemasByBlockType
unfoldable pub schemas_by_block_type : Dict String Schema
unfolding group_schema resource_schema resources_schema composite_schema context_schema
    template_schema ready_schema function_schema arg_schema requirement_schema select_schema
schemas_by_block_type =
    ("group", group_schema)
    ∷ ("resource", resource_schema)
    ∷ ("resources", resources_schema)
    ∷ ("composite", composite_schema)
    ∷ ("context", context_schema)
    ∷ ("template", template_schema)
    ∷ ("ready", ready_schema)
    ∷ ("function", function_schema)
    ∷ ("arg", arg_schema)
    ∷ ("requirement", requirement_schema)
    ∷ ("select", select_schema)
    ∷ []
