-- ===== src/Hcl.antt =====
-- The HCL library as the evaluator uses it: diagnostics, evaluation contexts, expressions
-- (github.com/hashicorp/hcl/v2), and the helpers of
-- function/internal/evaluator/hclutils/hclutils.go over them. The library's code is not in the
-- repository, so its operations are fields of `Hcl`, with what its documentation says as laws.
pub mod Sample
pub mod Traversal
use function_hcl.Base.{
  String, ◌≡◌, Bool, true, false, ◌||◌, Option, none, some, List, [], ◌∷◌, ◌++◌, arith, Dict,
  contains, lookup, is_some, if◌then◌else◌, string_eq,
}

-- hcl.DiagnosticSeverity
pub data Severity : Type 0 where
  invalid error warning : Severity

-- What a diagnostic says: its summary and detail, as data. `external` is a message of HCL's own.
pub data Summary : Type 0 where
  external : String → Summary
  duplicate_local : String → Summary
  shadows_variable : String → Summary
  no_variable : String → Summary
  cycle_found : List String → Summary
  -- A format text of the evaluator, and its arguments.
  report : String → List String → Summary

-- hcl.Diagnostic, without its source ranges.
pub record Diag : Type 0 where
  pub severity : Severity
  pub summary : Summary

abbrev pub Diags : Type 0
Diags = List Diag

abbrev pub is_error : Severity → Bool
is_error error = true
is_error _ = false

-- Some diagnostic is an error.
abbrev pub any_error : Diags → Bool
any_error [] = false
any_error (d ∷ ds) = is_error d.severity || any_error ds

pub any_error-append : (a b : Diags) → any_error (a ++ b) ≡ (any_error a || any_error b)
any_error-append [] b = ground arith
any_error-append (d ∷ a) b = ground (arith, any_error-append a b)

-- ToErrorDiag
unfoldable pub to_error_diag : Summary → Diags
to_error_diag s = record { severity = error; summary = s } ∷ []

-- The body of the loop of DowngradeDiags.
unfoldable pub downgrade_diag : Diag → Diag
downgrade_diag d = if is_error d.severity then record d { severity = warning } else d

-- DowngradeDiags. The source changes the diagnostics in place; its callers use only the result.
unfoldable pub downgrade_diags : Diags → Diags
downgrade_diags [] = []
downgrade_diags (d ∷ ds) = downgrade_diag d ∷ downgrade_diags ds

-- hcl.EvalContext: its variables, then those of its ancestors, the nearest first.
abbrev pub Ctx : Type 0 → Type 0
Ctx V = List (Dict String V)

-- HasVariable, and hasVariable of function/internal/evaluator/utils.go
unfoldable pub has_variable : {V : Type 0} → Ctx V → String → Bool
has_variable [] name = false
has_variable (vars ∷ parent) name =
    if is_some (lookup name vars) then true else has_variable parent name

-- The value that a name has in a context: that of the nearest context which has the name.
unfoldable pub resolve : {V : Type 0} → String → Ctx V → Option V
resolve name [] = none
resolve name (vars ∷ parent) = elim (lookup name vars) [
  | none ↦ resolve name parent
  | some v ↦ some v
]

-- hcl.Block
pub record Block (B : Type 0) : Type 0 where
  pub type : String
  pub labels : List String
  pub body : B

-- What a step yields that returns early with diagnostics.
pub data Result {ℓ} (A : Type ℓ) : Type ℓ where
  ok : A → Result A
  err : Diags → Result A

infixl 5 ◌>>=◌
abbrev pub ◌>>=◌ {ℓ κ} : {A : Type ℓ} {B : Type κ} → Result A → (A → Result B) → Result B
ok a >>= f = f a
err ds >>= f = err ds

-- The operations of HCL that the evaluator calls, and what is documented of them.
pub record Hcl : Type 1 where
  pub Expr : Type 0
  pub Value : Type 0
  pub Body : Type 0
  -- `body.JustAttributes()`
  pub just_attributes : Body → Dict String Expr × Diags
  -- The root names of `expr.Variables()`.
  pub variables : Expr → List String
  -- `expr.Value(ctx)`, for the one table of functions of a run.
  pub value : Expr → Ctx Value → Value × Diags
  -- `Diagnostics.Extend` and `Diagnostics.HasErrors`
  pub extend : Diags → Diags → Diags
  pub has_errors : Diags → Bool
  -- `Variables` reports each variable that evaluation can read.
  pub value_local :
      (e : Expr) (c d : Ctx Value)
      → ((x : String) → contains (variables e) x ≡ true → resolve x c ≡ resolve x d)
      → value e c ≡ value e d
  pub extend_lem : (a b : Diags) → extend a b ≡ a ++ b
  pub has_errors_lem : (ds : Diags) → has_errors ds ≡ any_error ds

-- DowngradeDiags leaves no error.
pub any_error-downgrade_diags : (ds : Diags) → any_error (downgrade_diags ds) ≡ false
unfolding downgrade_diags downgrade_diag
any_error-downgrade_diags [] = ground arith
any_error-downgrade_diags (d ∷ ds) = ground (arith, any_error-downgrade_diags ds)

module _ (H : Hcl) where
  open H use {extend, has_errors, extend_lem, has_errors_lem}

  pub has_errors-extend : (a b : Diags) → has_errors (extend a b) ≡ (has_errors a || has_errors b)
  has_errors-extend a b =
      rw (has_errors_lem, has_errors_lem, has_errors_lem, extend_lem) (any_error-append a b)

  pub has_errors-downgrade_diags : (ds : Diags) → has_errors (downgrade_diags ds) ≡ false
  has_errors-downgrade_diags ds = rw has_errors_lem (any_error-downgrade_diags ds)

  pub has_errors-to_error_diag : (s : Summary) → has_errors (to_error_diag s) ≡ true
  unfolding to_error_diag
  has_errors-to_error_diag s = rw has_errors_lem

  pub has_errors-nil : has_errors [] ≡ false
  has_errors-nil = rw has_errors_lem

pub has_variable-resolve :
    {V : Type 0} (c : Ctx V) (x : String) → has_variable c x ≡ is_some (resolve x c)
unfolding has_variable resolve
has_variable-resolve [] x = ground arith
has_variable-resolve (vars ∷ parent) x = ground (arith, has_variable-resolve parent x)
