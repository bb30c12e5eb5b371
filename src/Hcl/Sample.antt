-- ===== src/Hcl/Sample.antt =====
-- A small instance of `Hcl`, for tests and instances of the theorems: expressions are constants and
-- a variable plus a constant.
use function_hcl.Base.{
  ℕ, ◌+◌, String, ◌≡◌, refl, ap, true, Option, none, some, List, [], ◌∷◌, ◌++◌, Dict, contains,
  string_eq, ==_refl, arith,
}
use function_hcl.Hcl.{Hcl, Ctx, Diags, external, error, resolve, any_error}

pub data SampleExpr : Type 0 where
  constant : ℕ → SampleExpr
  plus : String → ℕ → SampleExpr

abbrev pub sample_variables : SampleExpr → List String
sample_variables (constant n) = []
sample_variables (plus x n) = x ∷ []

-- A variable that is missing is reported as an error, and the value is unknown.
abbrev pub sample_sum : Option (Option ℕ) → ℕ → Option ℕ × Diags
sample_sum (some (some m)) n = (some (m + n), [])
sample_sum (some none) n = (none, [])
sample_sum none n = (none, record { severity = error; summary = external "no variable" } ∷ [])

abbrev pub sample_value : SampleExpr → Ctx (Option ℕ) → Option ℕ × Diags
sample_value (constant n) c = (some n, [])
sample_value (plus x n) c = sample_sum (resolve x c) n

pub sample_local :
    (e : SampleExpr) (c d : Ctx (Option ℕ))
    → ((x : String) → contains (sample_variables e) x ≡ true → resolve x c ≡ resolve x d)
    → sample_value e c ≡ sample_value e d
sample_local (constant n) c d h = refl
sample_local (plus x n) c d h = ap (λ r. sample_sum r n) (h x (ground (arith, ==_refl x)))

abbrev pub sample : Hcl
sample = record {
  Expr = SampleExpr;
  Value = Option ℕ;
  Body = Dict String SampleExpr;
  just_attributes = λ b. (b, []);
  variables = sample_variables;
  value = sample_value;
  extend = λ a b. a ++ b;
  has_errors = any_error;
  value_local = sample_local;
  extend_lem = λ a b. refl;
  has_errors_lem = λ ds. refl;
}
