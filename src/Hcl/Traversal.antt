-- ===== src/Hcl/Traversal.antt =====
-- IsIdentifier and NormalizeTraversal of function/internal/evaluator/hclutils/hclutils.go, and the
-- parts of HCL's syntax trees that the checks of references read.
use Prim.Native.Char.{code}
use function_hcl.Base.{
  ℕ, String, Bool, true, false, ◌&&◌, ◌||◌, Option, none, some, List, [], ◌∷◌, leb, map, ◌≡◌,
  if◌then◌else◌,
}
use function_hcl.Hcl.{Hcl, Diags}

abbrev between : ℕ → ℕ → ℕ → Bool
between low high c = leb low c && leb c high

-- `[a-zA-Z_]`
abbrev is_start : ℕ → Bool
is_start c = between b'a' b'z' c || between b'A' b'Z' c || between b'_' b'_' c

-- `[a-zA-Z0-9_-]`
abbrev is_part : ℕ → Bool
is_part c = is_start c || between b'0' b'9' c || between b'-' b'-' c

abbrev all_parts : String → Bool
all_parts String.[] = true
all_parts (String.◌∷◌ c s) = is_part (code c) && all_parts s

-- IsIdentifier
unfoldable pub is_identifier : String → Bool
is_identifier String.[] = false
is_identifier (String.◌∷◌ c s) = is_start (code c) && all_parts s

-- hcl.Traverser behind the root; `splat` is one that NormalizeTraversal does not know.
pub data Traverser (V : Type 0) : Type 0 where
  attr : String → Traverser V
  index : V → Traverser V
  splat : Traverser V

-- hcl.Traversal of a variable: the name of its root, and what follows.
pub record Traversal (V : Type 0) : Type 0 where
  pub root : String
  pub steps : List (Traverser V)

-- hclsyntax.FunctionCallExpr
pub record Call (E : Type 0) : Type 0 where
  pub name : String
  pub args : List E

-- What the checks read of an expression, and values of the cty library.
pub record Syntax (H : Hcl) : Type 0 where
  -- `expr.Variables()`
  pub traversals : H.Expr → List (Traversal H.Value)
  -- The function calls that hclsyntax.VisitAll visits.
  pub function_calls : H.Expr → List (Call H.Expr)
  -- `expr.Value(&hcl.EvalContext{})`: no variables and no functions
  pub constant_value : H.Expr → H.Value × Diags
  -- The source text of a traversal.
  pub source_text : Traversal H.Value → String
  -- `cty.DynamicVal`
  pub dynamic_val : H.Value
  -- The variables of an expression are the roots of its traversals.
  pub roots_lem : (e : H.Expr) → map (λ t. t.root) (traversals e) ≡ H.variables e

module _ {V : Type 0} (is_string : V → Bool) (as_string : V → String) where
  -- One step of NormalizeTraversal; none is its panic.
  unfoldable pub normalize_step : Traverser V → Option (Traverser V)
  unfolding is_identifier
  normalize_step (attr name) = some (attr name)
  normalize_step (index key) =
      if is_string key && is_identifier (as_string key)
      then some (attr (as_string key))
      else some (index key)
  normalize_step splat = none

  -- NormalizeTraversal, behind the root.
  unfoldable pub normalize_traversal : List (Traverser V) → Option (List (Traverser V))
  unfolding normalize_step
  normalize_traversal [] = some []
  normalize_traversal (item ∷ t) = elim (normalize_step item) [
    | none ↦ none
    | some item' ↦ elim (normalize_traversal t) [ none ↦ none | some t' ↦ some (item' ∷ t') ]
  ]
