-- ===== src/Functions/Tests.antt =====
-- A function that calls itself without end, and one with arguments; instances of the theorems.
use function_hcl.Base.{
  ℕ, ◌≤◌, ◌≡◌, refl, String, true, false, not, ◌&&◌, Option, none, some, [], ◌∷◌, Dict, Distinct,
  lookup, insert, is_some, string_eq, arith,
}
use function_hcl.Functions.{UserFunction, returns, calls, Programs, call_values, invoke}
use function_hcl.Functions.Depth.{invoke_total}
use function_hcl.Functions.Arguments.{bound, call_values_lem}

-- A program is the name of a function that it calls.
abbrev programs : Programs ℕ String
programs = record {
  is_object = λ v. true;
  as_value_map = λ v. [];
  evaluate = λ name values. calls name 0 (λ v. returns v);
}

abbrev endless : UserFunction ℕ String
endless = record { name = "endless"; args = []; program = "endless" }

invoke_total_example :
    (v : Option ℕ) × (depth : ℕ) × (invoke programs (("endless", endless) ∷ []) 100 0 "endless" 0
      ≡ some (v, depth))
    × (0 ≤ depth)
invoke_total_example =
    invoke_total programs (("endless", endless) ∷ []) 100 0 "endless" 0 (omega arith) (omega arith)

-- The call fails at the limit, and the depth is one afterwards.
endless_leaks : invoke programs (("endless", endless) ∷ []) 100 0 "endless" 0 ≡ some (none, 1)
unfolding invoke lookup string_eq
endless_leaks = refl

abbrev scale : UserFunction ℕ String
scale = record {
  name = "scale";
  args =
      ("by", record { has_default = true; default = 2 })
      ∷ ("value", record { has_default = false; default = 0 })
      ∷ [];
  program = "";
}

abbrev given : Dict String ℕ
given = ("value", 5) ∷ []

abbrev scale_values : Dict String ℕ
scale_values = ("by", 2) ∷ ("value", 5) ∷ []

scale_values_lem : call_values scale given ≡ some scale_values
unfolding call_values lookup insert string_eq
scale_values_lem = refl

scale-Distinct : Distinct scale.args
unfolding lookup string_eq
scale-Distinct = (refl, (refl, tt))

call_values_lem_example :
    (lookup "by" scale_values ≡ bound (lookup "by" scale.args) (lookup "by" given))
    × (is_some (lookup "by" scale_values) ≡ is_some (lookup "by" scale.args))
    × ((is_some (lookup "by" given) && not (is_some (lookup "by" scale.args))) ≡ false)
call_values_lem_example =
    call_values_lem scale given scale_values "by" scale-Distinct scale_values_lem
