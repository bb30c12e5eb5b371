-- ===== src/Locals/Cycles.antt =====
-- locals.go: the errors of eval for circular dependencies.
use mathlib.Core.WellFounded.{Acc}
use function_hcl.Base.{
  ℕ, zero, suc, String, ◌≡◌, ◌↔◌, true, false, inl, inr, Option, some, List, [], ◌∷◌, ◌++◌, keys,
  contains, lookup, string_eq, arith, All, Bool-cases, Option-cases, length,
}
use function_hcl.Hcl.{Hcl, Ctx, Diags, ok, has_errors-extend, has_errors-nil}
use function_hcl.Locals.{
  EvalState, Locals, compute_deps, finish_local, eval_deps, eval_local, eval_names, eval,
}
use function_hcl.Locals.Paths.{push-cases, contains-snoc}
use function_hcl.Locals.Spec.{DependsOn, finish_local-errors}
use function_hcl.Locals.Declared.{compute_deps-HasDeps}
use function_hcl.Locals.Evaluate.{eval-Good}

All-tabulate :
    (P : String → Type 0) (xs : List String)
    → ((x : String) → contains xs x ≡ true → P x)
    → All P xs
All-tabulate P [] f = tt
All-tabulate P (x ∷ xs) f = (f x (ground arith), All-tabulate P xs (λ y m. f y (ground arith)))

module _ (H : Hcl) (locals : Locals H) (ctx : Ctx H.Value) where
  open H use {Expr, Value, has_errors, extend}

  -- `y` is a dependency of `x`, of a dependency of `x`, and so on.
  pub data Below (y : String) : String → Type 0 where
    direct : {x : String} → DependsOn H locals ctx y x → Below y x
    further : {z x : String} → Below y z → DependsOn H locals ctx z x → Below y x

  Below-cons : {z x w : String} → DependsOn H locals ctx z x → Below x w → Below z w
  Below-cons d (direct d') = further (direct d) d'
  Below-cons d (further b d') = further (Below-cons d b) d'

  Acc-not-Below : (x : String) → Acc (DependsOn H locals ctx) x → ¬ Below x x
  Acc-not-Below x (Acc.intro _ smaller) (direct d) = Acc-not-Below x (smaller x d) (direct d)
  Acc-not-Below x (Acc.intro _ smaller) (further {z = z} b d) =
      Acc-not-Below z (smaller z d) (Below-cons d b)

  abbrev Call : Type 0
  Call = EvalState Value → String → Option (EvalState Value × Diags)

  -- Every answer of `run` for this name is without errors.
  abbrev Clean : Call → String → Type 0
  Clean run x =
      (s : EvalState Value) (r : EvalState Value × Diags)
      → run s x ≡ some r
      → has_errors r.1 ≡ false

  eval_deps-Clean :
      (run : Call) (s : EvalState Value) (diags : Diags) (deps : List String)
      (r : EvalState Value × Diags)
      → All (Clean run) deps
      → has_errors diags ≡ false
      → eval_deps H run (s, diags) deps ≡ some r
      → has_errors r.1 ≡ false
  unfolding eval_deps
  eval_deps-Clean run s diags [] r c h e = ground arith
  eval_deps-Clean run s diags (dep ∷ deps) r c h e = elim (Bool-cases (contains s.remaining dep)) [
    | inr gone ↦ eval_deps-Clean run s diags deps r c.1 h (rw gone at e)
    | inl yet ↦ elim (Option-cases (run s dep)) [
      | inl e1 ↦ absurd (ground (arith, rw (yet, e1) at e))
      | inr ((s1, ds1), e1) ↦
          eval_deps-Clean run s1 (extend diags ds1) deps r c.1
            (ground (arith, has_errors-extend H diags ds1, c.0 s (s1, ds1) e1)) (rw (yet, e1) at e)
    ]
  ]

  eval_names-Clean :
      (run : Call) (s : EvalState Value) (diags : Diags) (names : List String)
      (r : EvalState Value × Diags)
      → All (Clean run) names
      → has_errors diags ≡ false
      → eval_names H run (s, diags) names ≡ some r
      → has_errors r.1 ≡ false
  unfolding eval_names
  eval_names-Clean run s diags [] r c h e = ground arith
  eval_names-Clean run s diags (name ∷ names) r c h e = elim (Option-cases (run s name)) [
    | inl e1 ↦ absurd (ground (arith, rw e1 at e))
    | inr ((s1, ds1), e1) ↦
        eval_names-Clean run s1 (extend diags ds1) names r c.1
          (ground (arith, has_errors-extend H diags ds1, c.0 s (s1, ds1) e1)) (rw e1 at e)
  ]

  path-Below :
      (path : List String) (name dep : String)
      → ((y : String) → contains path y ≡ true → Below name y)
      → DependsOn H locals ctx dep name
      → (y : String) → contains (path ++ name ∷ []) y ≡ true
      → Below dep y
  path-Below path name dep on d y m = elim (string_eq.dec y name) [
    | yes e ↦ rw e (direct d)
    | no n ↦ Below-cons d (on y (ground (arith, contains-snoc path name y)))
  ]

  module _ (acyclic : (x : String) → ¬ Below x x) where
    -- A call is clean if each name of its path depends on the name that is called.
    eval_local-Clean :
        (fuel : ℕ) (path : List String) (name : String)
        → ((y : String) → contains path y ≡ true → Below name y)
        → Clean (eval_local H fuel locals ctx path) name
    unfolding eval_local
    eval_local-Clean zero path name on s r e = absurd (ground (arith, e))
    eval_local-Clean (suc fuel) path name on s r e = elim (Bool-cases (contains s.remaining name)) [
      | inr gone ↦ ground (arith, rw gone at e, has_errors-nil H)
      | inl yet ↦ elim (push-cases path name) [
        | inl (cycle, looped, _) ↦ absurd (acyclic name (on name looped))
        | inr (off, pushed) ↦ elim (Option-cases (lookup name locals)) [
          | inl e1 ↦ absurd (ground (arith, rw (yet, pushed, e1) at e))
          | inr (info, e1) ↦
              let run = eval_local H fuel locals ctx (path ++ name ∷ []) in
              elim (Option-cases (eval_deps H run (s, []) info.deps)) [
                | inl e2 ↦ absurd (ground (arith, rw (yet, pushed, e1, e2) at e))
                | inr ((s1, ds1), e2) ↦
                    let er : finish_local H ctx name info (s1, ds1) ≡ r =
                      ground (arith, rw (yet, pushed, e1, e2) at e) in
                    rw (← er, finish_local-errors H locals ctx name info s1 ds1)
                      (eval_deps-Clean run s [] info.deps (s1, ds1)
                        (All-tabulate (Clean run) info.deps λ dep m.
                          eval_local-Clean fuel (path ++ name ∷ []) dep
                            (path-Below path name dep on (info, e1, m)))
                        (has_errors-nil H) e2)
              ]
        ]
      ]
    ]

-- For the dependencies that computeDeps finds, in the order in which Go happens to visit them, eval
-- returns, and its diagnostics hold an error exactly if some local depends on itself, directly or
-- through others.
pub eval-cyclic_iff :
    (H : Hcl) (ctx : Ctx H.Value) (l locals : Locals H)
    → compute_deps H ctx l l ≡ ok locals
    → (r : EvalState H.Value × Diags) × (eval H ctx locals ≡ some r)
      × ((H.has_errors r.1 ≡ false) ↔ ((x : String) → ¬ Below H locals ctx x x))
unfolding eval
eval-cyclic_iff H ctx l locals deps =
    let hd = compute_deps-HasDeps H ctx l locals deps in
    let (r, e, g) = eval-Good H ctx locals hd in
    (
      r,
      e,
      (
        λ clean x. Acc-not-Below H locals ctx x ((g clean).0.acc x ((g clean).1 x)),
        λ acyclic.
            eval_names-Clean H locals ctx (eval_local H (suc (length (keys locals))) locals ctx [])
              (record { variables = []; remaining = keys locals }) [] (keys locals) r
              (All-tabulate _ (keys locals) λ x _.
                eval_local-Clean H locals ctx acyclic (suc (length (keys locals))) [] x
                  (λ y m. absurd (cc)))
              (has_errors-nil H) e,
      ),
    )
