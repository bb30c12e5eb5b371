-- ===== src/Functions/Arguments.antt =====
-- The arguments of a call in UserFunction.invoke of function/internal/evaluator/functions/impl.go.
use function_hcl.Base.{
  ◌≡◌, String, true, false, not, ◌&&◌, Option, none, some, [], ◌∷◌, Dict, Distinct, string_eq, ◌==◌,
  eq_of_==, lookup, lookup-insert, lookup-nil, insert, is_some, if◌then◌else◌, arith, Bool-cases,
  Option-cases, inl, inr,
}
use function_hcl.Functions.{Arg, UserFunction, params_known, argument, bind_arguments, call_values}

-- The value of an argument of a function: the one that is given, or its default.
abbrev pub bound : {V : Type 0} → Option (Arg V) → Option V → Option V
bound none given = none
bound (some arg) (some v) = some v
bound (some arg) none = if arg.has_default then some arg.default else none

module _ {V : Type 0} where
  params_known_lem :
      (args : Dict String (Arg V)) (params : Dict String V) (n : String)
      → params_known args params ≡ true
      → is_some (lookup n params) ≡ true
      → is_some (lookup n args) ≡ true
  unfolding params_known lookup
  params_known_lem args [] n known h = absurd (cc)
  params_known_lem args ((name, v) ∷ params) n known h =
      elim (Bool-cases (is_some (lookup name args))) [
        | inr unknown ↦ absurd (ground (arith, unknown, known))
        | inl is_known ↦ elim (Bool-cases (n == name)) [
          | inl same ↦ rw (eq_of_== n name same) is_known
          | inr differ ↦
              params_known_lem args params n (ground (arith, is_known, known))
                (ground (arith, differ, h))
        ]
      ]

  -- What a name has among the values, once arguments are bound over earlier values.
  abbrev bound_over : Option (Arg V) → Option V → Option V → Option V
  bound_over none given before = before
  bound_over (some arg) given before = bound (some arg) given

  argument_lem :
      (arg : Arg V) (given : Option V) (v : V)
      → argument arg given ≡ some v
      → bound (some arg) given ≡ some v
  unfolding argument
  argument_lem arg none v h = h
  argument_lem arg (some w) v h = h

  bind_arguments_lem :
      (args : Dict String (Arg V)) (params values out : Dict String V) (n : String)
      → Distinct args
      → bind_arguments args params values ≡ some out
      → lookup n out ≡ bound_over (lookup n args) (lookup n params) (lookup n values)
  unfolding bind_arguments lookup
  bind_arguments_lem [] params values out n d h =
      let same : values ≡ out = ground (arith, h) in ground (arith, same)
  bind_arguments_lem ((name, arg) ∷ args) params values out n (new, d) h =
      elim (Option-cases (argument arg (lookup name params))) [
        | inl missing ↦ absurd (ground (arith, missing, h))
        | inr (v, given) ↦
            let rest =
              bind_arguments_lem args params (insert name v values) out n d
                (ground (arith, given, h)) in
            elim (Bool-cases (n == name)) [
              | inl same ↦
                  let same_name = eq_of_== n name same in
                  let here = argument_lem arg (lookup name params) v given in
                  ground (arith, rest, lookup-insert n name v values, same, same_name, new, here)
              | inr differ ↦ ground (arith, rest, lookup-insert n name v values, differ)
            ]
      ]

  bind_arguments-some :
      (args : Dict String (Arg V)) (params values out : Dict String V) (n : String)
      → Distinct args
      → bind_arguments args params values ≡ some out
      → is_some (lookup n args) ≡ true
      → is_some (lookup n out) ≡ true
  unfolding bind_arguments lookup
  bind_arguments-some [] params values out n d h is = absurd (cc)
  bind_arguments-some ((name, arg) ∷ args) params values out n (new, d) h is =
      elim (Option-cases (argument arg (lookup name params))) [
        | inl missing ↦ absurd (ground (arith, missing, h))
        | inr (v, given) ↦
            let more : bind_arguments args params (insert name v values) ≡ some out =
              ground (arith, given, h) in
            elim (Bool-cases (n == name)) [
              | inl same ↦
                  let same_name = eq_of_== n name same in
                  let rest = bind_arguments_lem args params (insert name v values) out n d more in
                  ground (arith, rest, lookup-insert n name v values, same, same_name, new)
              | inr differ ↦
                  bind_arguments-some args params (insert name v values) out n d more
                    (ground (arith, differ, is))
            ]
      ]

  -- A call that gets past its arguments names only arguments of the function, and the function
  -- sees exactly its arguments, each with the value given or else its default.
  pub call_values_lem :
      {P : Type 0} (f : UserFunction V P) (params values : Dict String V) (n : String)
      → Distinct f.args
      → call_values f params ≡ some values
      → (lookup n values ≡ bound (lookup n f.args) (lookup n params))
        × (is_some (lookup n values) ≡ is_some (lookup n f.args))
        × ((is_some (lookup n params) && not (is_some (lookup n f.args))) ≡ false)
  unfolding call_values
  call_values_lem f params values n d h = elim (Bool-cases (params_known f.args params)) [
    | inr unknown ↦ absurd (ground (arith, unknown, h))
    | inl known ↦
        let ran : bind_arguments f.args params [] ≡ some values = ground (arith, known, h) in
        let at = bind_arguments_lem f.args params [] values n d ran in
        let nothing = lookup-nil {V = V} n in
        let named = params_known_lem f.args params n known in
        (
          ground (arith, at, nothing),
          elim (Bool-cases (is_some (lookup n f.args))) [
            | inl is ↦ ground (arith, is, bind_arguments-some f.args params [] values n d ran is)
            | inr is_not ↦ ground (arith, is_not, at, nothing)
          ],
          ground (arith, named),
        )
  ]
