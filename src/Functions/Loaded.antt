-- ===== src/Functions/Loaded.antt =====
-- The functions that processFunctions accepts.
use function_hcl.Base.{
  String, ◌≡◌, refl, true, false, ◌&&◌, none, some, List, [], ◌∷◌, lookup, is_some, contains, ◌==◌,
  string_eq, All, Distinct, arith, Bool-cases, Option-cases, inl, inr, eq_of_==, ==_refl,
}
use function_hcl.Hcl.{
  Hcl, Ctx, Diags, ok, err, report, to_error_diag, has_variable, has_errors-extend,
  has_errors-to_error_diag,
}
use function_hcl.Hcl.Traversal.{Call, Syntax, is_identifier}
use function_hcl.Locals.{process}
use function_hcl.Evaluator.{Cty, Content}
use function_hcl.Functions.{UserFunction}
use function_hcl.Functions.Load.{
  Bare, Program, Functions, defaults, collect_functions, check_call, check_calls,
  check_user_function_refs, check_variables, check_refs, check_functions, process_functions,
}
use function_hcl.Functions.Read.{NamedWell, Read, collect_functions-Read}

module _ (H : Hcl) (C : Cty H) (S : Syntax H) where
  open H use {Expr, Value, Body, variables, extend, has_errors}
  open C use {content, as_string}
  open S use {constant_value, function_calls}

  -- A call of `invoke` with two arguments, the first of which is the name of a function.
  abbrev pub CallsFunction : Functions H C S → Call Expr → Type 0
  CallsFunction fns call =
      call.name ≡ "invoke"
      → (name : Expr) × (args : Expr) × (call.args ≡ name ∷ args ∷ [])
        × (is_some (lookup (as_string (constant_value name).0) fns) ≡ true)

  -- What an accepted function has: its name; identifiers for names; a context of its arguments and
  -- locals that has every variable of its body; and calls of functions that there are.
  pub record Loaded (fns : Functions H C S) (entry : String × UserFunction Value (Program H C S))
      : Type 0 where
    pub name : entry.1.name ≡ entry.0
    pub identifier : is_identifier entry.0 ≡ true
    pub arguments : All NamedWell entry.1.args
    pub context : Ctx Value
    pub warnings : Diags
    pub locals :
        process H (defaults H C S entry.1.args [] ∷ []) entry.1.program.1.blocks
        ≡ some (some context, warnings)
    pub variables_known :
        (x : String)
        → contains (variables entry.1.program.0) x ≡ true
        → has_variable context x ≡ true
    pub calls : All (CallsFunction fns) (function_calls entry.1.program.0)

  check_call-CallsFunction :
      (fns : Functions H C S) (call : Call Expr) (ds : Diags)
      → check_call H C S fns call ≡ some ds
      → has_errors ds ≡ false
      → CallsFunction fns call
  unfolding check_call
  check_call-CallsFunction fns call ds ran clean invokes = of_args call.args refl
    where
      is : (call.name == "invoke") ≡ true
      is = rw invokes (==_refl {A = String} "invoke")

      error : (s : String) (args : List String) → has_errors (to_error_diag (report s args)) ≡ true
      error s args = has_errors-to_error_diag H (report s args)

      number :
          has_errors
            (to_error_diag (report "user function invocation has incorrect number of arguments" []))
          ≡ true
      number = error "user function invocation has incorrect number of arguments" []

      of_args :
          (args : List Expr)
          → call.args ≡ args
          → (name : Expr) × (args : Expr) × (call.args ≡ name ∷ args ∷ [])
            × (is_some (lookup (as_string (constant_value name).0) fns) ≡ true)
      of_args [] q = absurd (ground (arith, q, ran, clean, is, number))
      of_args (name ∷ []) q = absurd (ground (arith, q, ran, clean, is, number))
      of_args (name ∷ e ∷ f ∷ es) q = absurd (ground (arith, q, ran, clean, is, number))
      of_args (name ∷ e ∷ []) q =
          let v = (constant_value name).0 in
          (
            name,
            e,
            q,
            elim (Bool-cases (C.is_wholly_known v && C.is_string v)) [
              | inr bad ↦ absurd (
                  ground (
                    arith,
                    q,
                    ran,
                    clean,
                    is,
                    bad,
                    error "user function invocation is not via a static string" [],
                  ))
              | inl text ↦ elim (Bool-cases (C.is_null v)) [
                | inl null ↦ absurd (ground (arith, q, ran, is, text, null))
                | inr value ↦ elim (Bool-cases (is_some (lookup (as_string v) fns))) [
                  | inl there ↦ there
                  | inr unknown ↦ absurd (
                      ground (
                        arith,
                        q,
                        ran,
                        clean,
                        is,
                        text,
                        value,
                        unknown,
                        error "invoke called on unknown function" (as_string v ∷ []),
                      ))
                ]
              ]
            ],
          )

  pub check_calls-All :
      (fns : Functions H C S) (calls : List (Call Expr)) (diags ds : Diags)
      → check_calls H C S fns calls diags ≡ some ds
      → has_errors ds ≡ false
      → (has_errors diags ≡ false) × All (CallsFunction fns) calls
  unfolding check_calls
  check_calls-All fns [] diags ds ran clean =
      let same : diags ≡ ds = ground (arith, ran) in (rw same clean, tt)
  check_calls-All fns (call ∷ calls) diags ds ran clean =
      elim (Option-cases (check_call H C S fns call)) [
        | inl stuck ↦ absurd (ground (arith, stuck, ran))
        | inr (more, here) ↦
            let (kept, rest) =
              check_calls-All fns calls (extend diags more) ds (ground (arith, here, ran)) clean in
            let parts = has_errors-extend H diags more in
            (
              ground (arith, kept, parts),
              (check_call-CallsFunction fns call more here (ground (arith, kept, parts)), rest),
            )
      ]

  check_variables-known :
      (ctx : Ctx Value) (refs : List String) (diags : Diags)
      → has_errors (check_variables H C S ctx refs diags) ≡ false
      → (has_errors diags ≡ false)
        × ((x : String) → contains refs x ≡ true → has_variable ctx x ≡ true)
  unfolding check_variables
  check_variables-known ctx [] diags clean = (clean, λ x h. absurd (cc (h)))
  check_variables-known ctx (ref ∷ refs) diags clean =
      let what = report "reference to non-existent variable" (ref ∷ []) in
      elim (Bool-cases (has_variable ctx ref)) [
        | inl known ↦
            let (kept, rest) =
              check_variables-known ctx refs diags (ground (arith, known, clean)) in
            (
              kept,
              λ x h. elim (Bool-cases (x == ref)) [
                | inl here ↦ rw (eq_of_== x ref here) known
                | inr later ↦ rest x (ground (arith, h, later))
              ],
            )
        | inr unknown ↦
            let (kept, _) =
              check_variables-known ctx refs (extend diags (to_error_diag what))
                (ground (arith, unknown, clean)) in
            absurd (
              ground (
                arith,
                kept,
                has_errors-extend H diags (to_error_diag what),
                has_errors-to_error_diag H what,
              ))
      ]

  -- What checkRefs adds to reading.
  check_refs-Loaded :
      (fns : Functions H C S) (entry : String × UserFunction Value (Program H C S)) (ds : Diags)
      → check_refs H C S fns entry.1 ≡ some ds
      → has_errors ds ≡ false
      → Read H C S entry
      → Loaded fns entry
  unfolding check_refs check_user_function_refs
  check_refs-Loaded fns (key, f) ds ran clean (name, identifier, arguments) =
      elim (Option-cases (process H (defaults H C S f.args [] ∷ []) f.program.1.blocks)) [
        | inl stuck ↦ absurd (ground (arith, stuck, ran))
        | inr ((none, es), run) ↦ elim (Bool-cases (has_errors es)) [
          | inl bad ↦ absurd (ground (arith, run, bad, ran, clean))
          | inr fine ↦ absurd (ground (arith, run, fine, ran))
        ]
        | inr ((some ctx, es), run) ↦ elim (Bool-cases (has_errors es)) [
          | inl bad ↦ absurd (ground (arith, run, bad, ran, clean))
          | inr fine ↦ elim (Option-cases (check_calls H C S fns (function_calls f.program.0) [])) [
            | inl stuck ↦ absurd (ground (arith, run, fine, stuck, ran))
            | inr (called, checked) ↦
                let vars = check_variables H C S ctx (variables f.program.0) es in
                let same : extend vars called ≡ ds = ground (arith, run, fine, checked, ran) in
                let parts = has_errors-extend H vars called in
                let no_vars : has_errors vars ≡ false = ground (arith, parts, same, clean) in
                let no_calls : has_errors called ≡ false = ground (arith, parts, same, clean) in
                record {
                  name = name;
                  identifier = identifier;
                  arguments = arguments;
                  context = ctx;
                  warnings = es;
                  locals = run;
                  variables_known =
                      (check_variables-known ctx (variables f.program.0) es no_vars).1;
                  calls =
                      (check_calls-All fns (function_calls f.program.0) [] called checked
                        no_calls).1;
                }
          ]
        ]
      ]

  check_functions-Loaded :
      (fns rest : Functions H C S) (diags ds : Diags)
      → check_functions H C S fns rest diags ≡ some ds
      → has_errors ds ≡ false
      → All (Read H C S) rest
      → (has_errors diags ≡ false) × All (Loaded fns) rest
  unfolding check_functions
  check_functions-Loaded fns [] diags ds ran clean h =
      let same : diags ≡ ds = ground (arith, ran) in (rw same clean, tt)
  check_functions-Loaded fns ((key, f) ∷ rest) diags ds ran clean h =
      elim (Option-cases (check_refs H C S fns f)) [
        | inl stuck ↦ absurd (ground (arith, stuck, ran))
        | inr (es, checked) ↦
            let (kept, later) =
              check_functions-Loaded fns rest (extend diags es) ds (ground (arith, checked, ran))
                clean h.1 in
            let parts = has_errors-extend H diags es in
            (
              ground (arith, kept, parts),
              (check_refs-Loaded fns (key, f) es checked (ground (arith, kept, parts)) h.0, later),
            )
      ]

  -- Where processFunctions sets the functions and returns no error, each name is set once, and every
  -- function has that name, an identifier, and identifiers for the names of its arguments; every
  -- variable of its body is an argument or a local; and each `invoke` in its body has two
  -- arguments and names a function that is set.
  pub process_functions-Loaded :
      (B : Bare H) (c : Content Expr Body) (fns : Functions H C S) (ds : Diags)
      → process_functions H C S B c ≡ some (some fns, ds)
      → has_errors ds ≡ false
      → Distinct fns × All (Loaded fns) fns
  unfolding process_functions
  process_functions-Loaded B c fns ds ran clean =
      elim (Option-cases (collect_functions H C S B c.blocks [] [])) [
        | inl stuck ↦ absurd (ground (arith, stuck, ran))
        | inr (err es, wrong) ↦ absurd (ground (arith, wrong, ran))
        | inr (ok (fns', diags), read) ↦
            elim (Option-cases (check_functions H C S fns' fns' diags)) [
              | inl stuck ↦ absurd (ground (arith, read, stuck, ran))
              | inr (es, checked) ↦
                  let same : fns' ≡ fns = ground (arith, read, checked, ran) in
                  let same_diags : es ≡ ds = ground (arith, read, checked, ran) in
                  let (good, once) =
                    collect_functions-Read H C S B c.blocks [] diags [] fns' read tt tt in
                  rw (← same) (
                    once,
                    (check_functions-Loaded fns' fns' diags es checked (rw same_diags clean)
                        good).1,
                  )
            ]
      ]
