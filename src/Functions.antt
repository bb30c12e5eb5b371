-- ===== src/Functions.antt =====
-- function/internal/evaluator/functions: calls of user functions, of impl.go and api.go. An evaluation
-- of HCL calls `invoke` back, so it is given as the calls that it makes, one after the other.
pub mod Depth
pub mod Arguments
pub mod Load
pub mod Read
pub mod Loaded
mod Tests
use function_hcl.Base.{
  ℕ, zero, suc, ◌+◌, ◌-◌, ◌≡◌, String, Bool, true, false, not, ◌||◌, Option, none, some, List, [],
  ◌∷◌, Dict, string_eq, lookup, insert, is_some, leb, if◌then◌else◌,
}

-- Arg, by its default; the name is the key of the map.
pub record Arg (V : Type 0) : Type 0 where
  pub has_default : Bool
  pub default : V

-- UserFunction, with its body and its block content as one program.
pub record UserFunction (V P : Type 0) : Type 0 where
  pub name : String
  pub args : Dict String (Arg V)
  pub program : P

-- An evaluation: it ends with a value or an error, or calls the function `invoke` with a name and
-- arguments and goes on with what the call yields.
pub data Evaluation (V : Type 0) : Type 0 where
  returns : Option V → Evaluation V
  calls : String → V → (Option V → Evaluation V) → Evaluation V

-- What the code asks of values, and the evaluation of the locals and the body of a function in
-- the root context of its arguments.
pub record Programs (V P : Type 0) : Type 0 where
  pub is_object : V → Bool
  pub as_value_map : V → Dict String V
  pub evaluate : P → Dict String V → Evaluation V

module _ {V : Type 0} where
  -- The loop of UserFunction.invoke over the parameters: whether each is an argument.
  unfoldable pub params_known : Dict String (Arg V) → Dict String V → Bool
  params_known args [] = true
  params_known args ((name, v) ∷ params) =
      let rest = params_known args params in if is_some (lookup name args) then rest else false

  -- The value of an argument; `none` is the error for a missing one.
  unfoldable pub argument : Arg V → Option V → Option V
  argument arg (some v) = some v
  argument arg none = if arg.has_default then some arg.default else none

  -- The loop over the arguments.
  unfoldable pub bind_arguments :
      Dict String (Arg V) → Dict String V → Dict String V → Option (Dict String V)
  unfolding argument
  bind_arguments [] params values = some values
  bind_arguments ((name, arg) ∷ args) params values = elim (argument arg (lookup name params)) [
    | none ↦ none
    | some v ↦ bind_arguments args params (insert name v values)
  ]

  -- An evaluation, with the depth of the invoker before and after it.
  unfoldable pub run :
      (ℕ → String → V → Option (Option V × ℕ)) → ℕ → Evaluation V → Option (Option V × ℕ)
  run invoke depth (returns v) = some (v, depth)
  run invoke depth (calls name args next) = elim (invoke depth name args) [
    | none ↦ none
    | some (v, depth') ↦ run invoke depth' (next v)
  ]

module _ {V P : Type 0} where
  -- The start of UserFunction.invoke: the values of the arguments, or an error.
  unfoldable pub call_values : UserFunction V P → Dict String V → Option (Dict String V)
  unfolding params_known bind_arguments
  call_values f params =
      if params_known f.args params then bind_arguments f.args params [] else none

  module _ (C : Programs V P) (fns : Dict String (UserFunction V P)) where
    open C use {is_object, as_value_map, evaluate}

    -- The end of invoker.invoke, where the depth is within its limit, and the deferred decrement.
    unfoldable pub invoke_function :
        (ℕ → String → V → Option (Option V × ℕ)) → ℕ → String → V → Option (Option V × ℕ)
    unfolding call_values run
    invoke_function nested depth name args = elim (lookup name fns) [
      | none ↦ some (none, depth - 1)
      | some fn ↦
          if not (is_object args)
          then some (none, depth - 1)
          else elim (call_values fn (as_value_map args)) [
            | none ↦ some (none, depth - 1)
            | some values ↦ elim (run nested depth (evaluate fn.program values)) [
              | none ↦ none
              | some (v, depth') ↦ some (v, depth' - 1)
            ]
          ]
    ]

    -- invoker.invoke. The fuel bounds the calls in each other; `none` is fuel that ran out.
    unfoldable pub invoke : ℕ → ℕ → String → V → Option (Option V × ℕ)
    unfolding invoke_function
    invoke zero depth name args = none
    invoke (suc fuel) depth name args =
        let called = invoke_function (invoke fuel) (suc depth) name args in
        if leb 100 (suc depth) then some (none, suc depth) else called
