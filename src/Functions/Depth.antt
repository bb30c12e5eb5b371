-- ===== src/Functions/Depth.antt =====
-- The depth of calls in invoker.invoke of function/internal/evaluator/functions/impl.go.
use function_hcl.Base.{
  ℕ, zero, suc, ◌+◌, ◌-◌, ◌≤◌, ◌<◌, ◌≡◌, refl, String, Option, none, some, Dict, string_eq, lookup,
  leb, arith, Bool-cases, Option-cases, inl, inr,
}
use function_hcl.Functions.{
  UserFunction, Evaluation, returns, calls, Programs, call_values, run, invoke_function, invoke,
}

module _ {V : Type 0} where
  -- A call returns from a depth, and leaves the depth as large at least.
  abbrev Returns : ℕ → Option (Option V × ℕ) → Type 0
  Returns depth result =
      (v : Option V) × (depth' : ℕ) × (result ≡ some (v, depth')) × (depth ≤ depth')

  run-Returns :
      (nested : ℕ → String → V → Option (Option V × ℕ)) (low : ℕ)
      → ((depth : ℕ) (name : String) (args : V)
          → low ≤ depth
          → Returns depth (nested depth name args))
      → (depth : ℕ) (e : Evaluation V) → low ≤ depth
      → Returns depth (run nested depth e)
  unfolding run
  run-Returns nested low good depth (returns v) h = (v, depth, refl, omega arith)
  run-Returns nested low good depth (calls name args next) h =
      let (v, depth1, first, up) = good depth name args h in
      let (w, depth2, rest, up') =
        run-Returns nested low good depth1 (next v) (omega (arith, h, up)) in
      (w, depth2, rw (first, run) rest, omega (arith, up, up'))

module _ {V P : Type 0} where
  module _ (C : Programs V P) (fns : Dict String (UserFunction V P)) where
    open C use {is_object, as_value_map, evaluate}

    invoke_function-Returns :
        (nested : ℕ → String → V → Option (Option V × ℕ)) (depth : ℕ) (name : String) (args : V)
        → ((d : ℕ) (n : String) (a : V) → suc depth ≤ d → Returns d (nested d n a))
        → Returns depth (invoke_function C fns nested (suc depth) name args)
    unfolding invoke_function
    invoke_function-Returns nested depth name args good = elim (Option-cases (lookup name fns)) [
      | inl missing ↦ (none, suc depth - 1, rw (missing, invoke_function) refl, omega arith)
      | inr (fn, found) ↦ elim (Bool-cases (is_object args)) [
        | inr other ↦ (none, suc depth - 1, rw (found, invoke_function, other) refl, omega arith)
        | inl object ↦ elim (Option-cases (call_values fn (as_value_map args))) [
          | inl wrong ↦
              (none, suc depth - 1, rw (found, invoke_function, object, wrong) refl, omega arith)
          | inr (values, bound) ↦
              let (v, depth', ran, up) =
                run-Returns nested (suc depth) good (suc depth) (evaluate fn.program values)
                  (omega arith) in
              (
                v,
                depth' - 1,
                rw (found, invoke_function, object, bound, ran) refl,
                omega (arith, up),
              )
        ]
      ]
    ]

    -- A call of invoke at a depth returns whatever the functions do: fuel that reaches from the
    -- depth to the limit of 100 is enough. The depth after the call is not less than before.
    pub invoke_total :
        (fuel depth : ℕ) (name : String) (args : V)
        → 1 ≤ fuel
        → 100 ≤ fuel + depth
        → (v : Option V) × (depth' : ℕ) × (invoke C fns fuel depth name args ≡ some (v, depth'))
          × (depth ≤ depth')
    unfolding invoke
    invoke_total zero depth name args some_fuel h = absurd (omega arith)
    invoke_total (suc fuel) depth name args some_fuel h = elim (Bool-cases (leb 100 (suc depth))) [
      | inl deep ↦ (none, suc depth, rw (deep, invoke) refl, omega arith)
      | inr fine ↦
          let within : suc depth < 100 = ground (arith, fine) in
          let (v, depth', ran, up) =
            invoke_function-Returns (invoke C fns fuel) depth name args (λ d n a above.
              invoke_total fuel d n a (omega (arith, h, within)) (omega (arith, h, above))) in
          (v, depth', rw (fine, invoke, ran) refl, up)
    ]
