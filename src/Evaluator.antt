-- ===== src/Evaluator.antt =====
-- function/internal/evaluator: the evaluation of a composition into desired resources. This file has
-- what api.go declares (the state of an evaluator), the values of the cty library and the other
-- outside operations as the interface `Cty`, and the monad of the handlers.
pub mod Schemas
pub mod Common
pub mod Blocks
pub mod Resources
pub mod Collections
pub mod Requirements
pub mod Groups
pub mod Frame
pub mod Steps
pub mod Fuel
pub mod Yields
pub mod Accounted
pub mod Selectors
pub mod Variables
pub mod Collected
pub mod Response
pub mod Run
pub mod Severity
pub mod Analyzer
pub mod Evaluate
pub mod Sample
mod Tests
use function_hcl.Base.{
  ℕ, ◌<◌, String, ◌≡◌, Bool, true, false, Option, none, some, List, [], ◌∷◌, ◌++◌, map, Dict,
  lookup, All, if◌then◌else◌, string_eq,
}
use function_hcl.Hcl.{Hcl, Ctx, Block, Diag, Diags}
use function_hcl.Json.{Json, Object}
use function_hcl.Locals
use Schemas.{Schema}

-- DiscardType
pub data DiscardType : Type 0 where
  resource resource_list group status connection ready context requirement : DiscardType

-- DiscardReason
pub data DiscardReason : Type 0 where
  user_condition incomplete bad_secret : DiscardReason

-- DiscardItem, without its source range.
pub record DiscardItem : Type 0 where
  pub type : DiscardType
  pub reason : DiscardReason
  pub name : String
  pub context : List String

-- fnv1.ResourceSelector
pub data Match : Type 0 where
  match_name : String → Match
  match_labels : Dict String String → Match

pub record Selector : Type 0 where
  pub api_version : String
  pub kind : String
  pub match : Match

-- The part of hcl.BodyContent that the evaluator reads.
pub record Content (E B : Type 0) : Type 0 where
  pub attributes : Dict String E
  pub blocks : List (Block B)

-- What a collection value holds, by its type.
pub data Shape (V : Type 0) : Type 0 where
  sequence : List V → Shape V
  mapping : Dict String V → Shape V
  value_set : List V → Shape V
  not_iterable : Shape V

-- The operations on cty values, JSON, protobuf and base64 that the evaluator calls.
pub record Cty (H : Hcl) : Type 0 where
  pub is_null : H.Value → Bool
  pub is_wholly_known : H.Value → Bool
  pub is_string : H.Value → Bool
  pub is_bool : H.Value → Bool
  pub is_object : H.Value → Bool
  -- `AsString` of what is not null, `True`, `AsValueMap`, and the elements of a collection
  pub as_string : H.Value → String
  pub is_true : H.Value → Bool
  pub as_value_map : H.Value → Dict String H.Value
  -- `AsValueMap` returns, and does not panic.
  pub has_value_map : H.Value → Bool
  pub shape : H.Value → Shape H.Value
  -- `StringVal`, `NumberIntVal`, `ObjectVal`, and the zero Value that a missing map entry yields
  pub string_val : String → H.Value
  pub number_val : ℕ → H.Value
  pub object_val : Dict String H.Value → H.Value
  pub nil_val : H.Value
  -- ctyjson.Marshal and then json.Unmarshal, or protojson.Unmarshal; `none` is an error.
  pub to_json : H.Value → Option Json
  pub to_struct : H.Value → Option Object
  -- structpb.NewStruct
  pub new_struct : Object → Option Object
  pub base64_decode : String → Option (List ℕ)
  -- fnv1.Ready_value
  pub ready_value : String → Option ℕ
  -- `body.Content(schema)`
  pub content : H.Body → Schema → Content H.Expr H.Body × Diags
  -- The text of one diagnostic in messagesFromDiags.
  pub message : Diag → String
  -- For each variable of an expression: its source text, its value, and the diagnostics of finding it.
  pub traverse : H.Expr → Ctx H.Value → List (String × H.Value × Diags)
  -- findUnknownPaths: the paths as texts, and whether the walk failed.
  pub unknown_paths : H.Value → List String × Bool
  -- strings.Join(texts, ", ")
  pub join : List String → String
  -- fmt.Sprintf("s%06d", i)
  pub index_text : ℕ → String
  -- The template `${self.basename}-${each.key}`, parsed.
  pub default_name : H.Expr × Diags
  -- Syntax is a finite tree: the blocks of a body are smaller than the body.
  pub depth : H.Body → ℕ
  pub content_depth :
      (b : H.Body) (s : Schema) → All (λ block. depth block.body < depth b) (content b s).0.blocks

-- Evaluator, without its logger, debug flag and parsed files.
pub record Evaluator (V : Type 0) : Type 0 where
  pub existing_resource_map : Dict String V
  pub existing_connection_map : Dict String V
  pub collection_resources_map : Dict String V
  pub collection_connections_map : Dict String V
  pub desired_resources : Dict String Object
  pub requirements : Dict String (Option Selector)
  pub composite_statuses : List Object
  pub composite_connections : List (Dict String (List ℕ))
  pub contexts : List Object
  pub ready : Dict String ℕ
  pub discards : List DiscardItem

-- New
unfoldable pub new_evaluator : {V : Type 0} → Evaluator V
new_evaluator = record {
  existing_resource_map = [];
  existing_connection_map = [];
  collection_resources_map = [];
  collection_connections_map = [];
  desired_resources = [];
  requirements = [];
  composite_statuses = [];
  composite_connections = [];
  contexts = [];
  ready = [];
  discards = [];
}

-- A handler changes the evaluator and yields a result. `none` is a panic of the source, or fuel
-- that ran out.
abbrev pub Handler : Type 0 → Type 0 → Type 0
Handler V A = Evaluator V → Option (A × Evaluator V)

module _ {V : Type 0} where
  unfoldable pub pure : {A : Type 0} → A → Handler V A
  pure a e = some (a, e)

  unfoldable pub panic : {A : Type 0} → Handler V A
  panic e = none

  unfoldable pub modify : (Evaluator V → Evaluator V) → Handler V (Unit {0})
  modify f e = some (tt, f e)

  unfoldable pub gets : {A : Type 0} → (Evaluator V → A) → Handler V A
  gets f e = some (f e, e)

  infixl 5 ◌>>=◌ ◌>>◌
  unfoldable pub ◌>>=◌ : {A B : Type 0} → Handler V A → (A → Handler V B) → Handler V B
  ◌>>=◌ m f e = elim (m e) [ none ↦ none | some (a, e') ↦ f a e' ]

  unfoldable pub ◌>>◌ : {B : Type 0} → Handler V (Unit {0}) → Handler V B → Handler V B
  m >> k = m >>= λ _. k

  -- A value that the source uses without a check: a nil dereference or an index out of range.
  unfoldable pub present : {A : Type 0} → Option A → Handler V A
  present none = panic
  present (some a) = pure a

  -- discard
  unfoldable pub discard : DiscardItem → Handler V (Unit {0})
  discard item = modify (λ e. record e { discards = e.discards ++ item ∷ [] })
