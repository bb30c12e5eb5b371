-- ===== src/Evaluator/Response.antt =====
-- The response of function/internal/evaluator/eval.go: the messages of the protocol, and
-- diagnostics with their source ranges.
pub mod Diagnostics
pub mod Build
pub mod Merge
pub mod Ready
pub mod Conditions
pub mod Kept
mod Tests
use function_hcl.Base.{
  ℕ, ◌≡◌, String, Bool, true, false, Option, List, [], ◌∷◌, ◌+◌, Dict, Eq, if◌then◌else◌,
}
use function_hcl.Hcl.{Diag, Diags, Summary}
use function_hcl.Json.{Object}
use function_hcl.Evaluator.{DiscardItem, DiscardType, DiscardReason, Selector}

-- How many elements pass a test.
abbrev pub count {ℓ} : {A : Type ℓ} → (A → Bool) → List A → ℕ
count p [] = 0
count p (x ∷ xs) = if p x then 1 + count p xs else count p xs

-- hcl.Diagnostic, with its source ranges.
pub record Located (Range : Type 0) : Type 0 where
  pub diag : Diag
  pub subject : Option Range
  pub context : Option Range

-- hcl.Range and what addDiagnosticsInfo calls on diagnostics.
pub record Ranges : Type 1 where
  pub Range : Type 0
  pub range_eq : Eq Range
  pub zero_range : Range
  -- The Summary field of a diagnostic.
  pub summary_text : Summary → String
  -- The ranges of diagnostics, which the rest of the model leaves out.
  pub locate : Diags → List (Located Range)
  -- `range` over the map of diagnostics, and sort.Slice: the same elements in another order.
  pub arrange : List (Located Range) → List (Located Range)
  pub count-arrange :
      (p : Located Range → Bool) (ds : List (Located Range)) → count p (arrange ds) ≡ count p ds

-- fnv1.Resource
pub record Resource : Type 0 where
  pub body : Option Object
  pub connection_details : Dict String (List ℕ)
  pub ready : ℕ

-- fnv1.State
pub record State : Type 0 where
  pub composite : Option Resource
  pub resources : Dict String Resource

-- The texts of results and conditions, as data. `discarded_item` is what MessageString writes.
pub data Message (D : Type 0) : Type 0 where
  discarded_item : DiscardItem → Message D
  items_incomplete : List (DiscardType × String) → Message D
  more_incomplete : List (DiscardType × String) → ℕ → Message D
  all_complete : Message D
  warnings : List D → Message D
  no_warnings : Message D
  counted_warnings : ℕ → List D → Message D
  counted_none : Message D

pub data ResultSeverity : Type 0 where
  severity_warning severity_normal : ResultSeverity

pub data Reason : Type 0 where
  discarded : DiscardReason → Reason
  hcl_diagnostics : Reason

-- fnv1.Result; the target is always the composite.
pub record Report (D : Type 0) : Type 0 where
  pub severity : ResultSeverity
  pub message : Message D
  pub reason : Reason

pub data Status : Type 0 where
  condition_true condition_false : Status

-- fnv1.Condition
pub record Condition (D : Type 0) : Type 0 where
  pub type : String
  pub status : Status
  pub reason : String
  pub message : Message D

-- fnv1.RunFunctionResponse
pub record Response (D : Type 0) : Type 0 where
  pub desired : Option State
  pub context : Option Object
  pub requirements : Option (Dict String (Option Selector))
  pub results : List (Report D)
  pub conditions : List (Condition D)
