-- ===== src/Locals/Evaluate.antt =====
-- locals.go: what eval, evaluate and Process yield, for every order in which Go visits its maps.
use mathlib.Core.WellFounded.{Acc}
use function_hcl.Base.{
  suc, String, ◌≡◌, refl, false, ◌⊎◌, inl, inr, Option, none, some, List, [], ◌∷◌, Dict, keys,
  contains, lookup, lookup-nil, contains-keys, string_eq, arith, All, All-map, Bool-cases,
  Option-cases, length,
}
use function_hcl.Hcl.{Hcl, Ctx, Diags, Result, ok, err, resolve, has_errors-extend}
use function_hcl.Locals.{
  ExprDeps, EvalState, Locals, collect_locals, compute_deps, eval_local, eval, evaluate,
}
use function_hcl.Locals.Paths.{open_count-nil}
use function_hcl.Locals.Spec.{HasDeps, Known, Good, All-contains}
use function_hcl.Locals.Calls.{Loop, eval_local-Outcome, eval_names-Loop}
use function_hcl.Locals.Declared.{
  compute_deps-HasDeps, compute_deps-Linked, collect_locals-All, collect_locals-other, fresh,
}

pub Result-cases {ℓ} :
    {A : Type ℓ} (r : Result A) → ((ds : Diags) × (r ≡ err ds)) ⊎ ((a : A) × (r ≡ ok a))
Result-cases (ok a) = inr (a, refl)
Result-cases (err ds) = inl (ds, refl)

module _ (H : Hcl) (ctx : Ctx H.Value) where
  open H use {Expr, Value, value, has_errors, extend, extend_lem}

  module _ (locals : Locals H) (hd : HasDeps H locals ctx) where
    abbrev start : EvalState Value
    start = record { variables = []; remaining = keys locals }

    start-Known : Known H locals ctx (keys locals)
    start-Known x h = elim (Option-cases (lookup x locals)) [
      | inl e ↦ absurd (cc (contains-keys locals x, rw e at (contains-keys locals x), h))
      | inr r ↦ r
    ]

    start-Good : Good H locals ctx start
    unfolding lookup
    start-Good = record {
      done = λ x info e h. absurd (cc (rw e at (contains-keys locals x), h));
      other = λ x h. refl;
      acc =
          λ x h. Acc.intro x (λ y (info, e, m). absurd (cc (rw e at (contains-keys locals x), h)));
    }

    -- eval answers, and without errors it has evaluated every local.
    pub eval-Good :
        (r : EvalState Value × Diags) × (eval H ctx locals ≡ some r)
        × (has_errors r.1 ≡ false
            → Good H locals ctx r.0 × ((x : String) → contains r.0.remaining x ≡ false))
    unfolding eval
    eval-Good =
        let bound = suc (length (keys locals)) in
        let (r, e, l) =
          eval_names-Loop H locals ctx hd (eval_local H bound locals ctx []) [] bound
            (eval_local-Outcome H locals ctx hd bound []) start [] (keys locals)
            (omega (arith, open_count-nil (keys locals))) start-Known in
        (r, e, λ h. ((l.sound start-Good h).0, λ x. gone r l h x))
      where
        gone :
            (r : EvalState Value × Diags)
            → Loop H locals ctx hd [] start [] (keys locals) r
            → has_errors r.1 ≡ false
            → (x : String) → contains r.0.remaining x ≡ false
        gone r l h x = elim (Bool-cases (contains r.0.remaining x)) [
          | inr e ↦ e
          | inl e ↦ All-contains _ (keys locals) x (l.sound start-Good h).1 (l.frame.shrink x e)
        ]

  -- How evaluate came by its result.
  pub data View (attrs_list : List (Dict String Expr)) (r : Option (Ctx Value) × Diags)
      : Type 0 where
    early : (ds : Diags) → r ≡ (none, ds) → View attrs_list r
    empty : collect_locals H ctx attrs_list [] ≡ ok [] → r ≡ (some ctx, []) → View attrs_list r
    full :
        (l locals : Locals H) (s : EvalState Value) (ds : Diags)
        → collect_locals H ctx attrs_list [] ≡ ok l
        → compute_deps H ctx l l ≡ ok locals
        → eval H ctx locals ≡ some (s, ds)
        → r ≡ (some (s.variables ∷ ctx), extend [] ds)
        → View attrs_list r

  View-full :
      (attrs_list : List (Dict String Expr)) (l : Locals H)
      → collect_locals H ctx attrs_list [] ≡ ok l
      → (r : Option (Ctx Value) × Diags) × (evaluate H ctx attrs_list ≡ some r) × View attrs_list r
  unfolding evaluate
  View-full attrs_list [] e = ((some ctx, []), rw (e, evaluate), empty e refl)
  View-full attrs_list (x ∷ xs) e = elim (Result-cases (compute_deps H ctx (x ∷ xs) (x ∷ xs))) [
    | inl (ds, e') ↦ ((none, ds), rw (e, evaluate, e'), early ds refl)
    | inr (locals, e') ↦
        let ((s, ds), e'', _) = eval-Good locals (compute_deps-HasDeps H ctx (x ∷ xs) locals e') in
        (
          (some (s.variables ∷ ctx), extend [] ds),
          rw (e, evaluate, e', e''),
          full (x ∷ xs) locals s ds e e' e'' refl,
        )
  ]

  pub evaluate-View :
      (attrs_list : List (Dict String Expr))
      → (r : Option (Ctx Value) × Diags) × (evaluate H ctx attrs_list ≡ some r) × View attrs_list r
  unfolding evaluate
  evaluate-View attrs_list = elim (Result-cases (collect_locals H ctx attrs_list [])) [
    | inl (ds, e) ↦ ((none, ds), rw (e, evaluate), early ds refl)
    | inr (l, e) ↦ View-full attrs_list l e
  ]

  -- What a context without errors promises for the declarations of `attrs_list`.
  pub record Solves (attrs_list : List (Dict String Expr)) (child : Ctx Value) : Type 0 where
    pub locals_solved :
        All (All (λ (name, e). resolve name child ≡ some (value e child).0)) attrs_list
    pub others_kept :
        (x : String)
        → All (λ attrs. lookup x attrs ≡ none) attrs_list
        → resolve x child ≡ resolve x ctx

  full-Solves :
      (attrs_list : List (Dict String Expr)) (l locals : Locals H) (s : EvalState Value)
      → collect_locals H ctx attrs_list [] ≡ ok l
      → compute_deps H ctx l l ≡ ok locals
      → Good H locals ctx s
      → ((x : String) → contains s.remaining x ≡ false)
      → Solves attrs_list (s.variables ∷ ctx)
  unfolding resolve lookup
  full-Solves attrs_list l locals s e e' g all_done = record {
    locals_solved =
        All-map _ _ (λ attrs h. All-map _ _ (λ (name, x) k. one name x k) attrs h) attrs_list
          (collect_locals-All H ctx attrs_list [] l e);
    others_kept = λ x n.
        let out = collect_locals-other H ctx attrs_list [] l x e refl n in
        elim (Option-cases (lookup x locals)) [
          | inl e'' ↦ rw (g.other x e'', resolve)
          | inr (i, e'') ↦ absurd (rw (out, e'') at (compute_deps-Linked H ctx l l locals x e'))
        ];
  }
    where
      one :
          (name : String) (x : Expr)
          → lookup name l ≡ some (fresh H ctx x)
          → resolve name (s.variables ∷ ctx) ≡ some (value x (s.variables ∷ ctx)).0
      one name x k = elim (Option-cases (lookup name locals)) [
        | inl e'' ↦ absurd (rw (k, e'') at (compute_deps-Linked H ctx l l locals name e'))
        | inr (i, e'') ↦
            let (deps, _, same) = rw (k, e'') at (compute_deps-Linked H ctx l l locals name e') in
            rw ((g.done name i e'' (all_done name)).0, resolve, same)
      ]

  determined :
      (attrs_list : List (Dict String Expr)) (r r' : Option (Ctx Value) × Diags)
      → evaluate H ctx attrs_list ≡ some r
      → evaluate H ctx attrs_list ≡ some r'
      → r ≡ r'
  determined attrs_list r r' e e' = ground arith

  -- A child context that comes without errors solves the declarations.
  pub evaluate-Solves :
      (attrs_list : List (Dict String Expr)) (child : Ctx Value) (ds : Diags)
      → evaluate H ctx attrs_list ≡ some (some child, ds)
      → has_errors ds ≡ false
      → Solves attrs_list child
  evaluate-Solves attrs_list child ds e clean =
      let (r, e', v) = evaluate-View attrs_list in
      from r v (determined attrs_list r (some child, ds) e' e)
    where
      from :
          (r : Option (Ctx Value) × Diags)
          → View attrs_list r
          → r ≡ (some child, ds)
          → Solves attrs_list child
      from r (early ds' er) same = absurd (cc)
      from r (empty c er) same =
          let ec : ctx ≡ child = ground arith in
          rw (← ec) (record {
            locals_solved =
                All-map _ _
                  (λ attrs h.
                    All-map _ _
                      (λ (name, x) k. absurd (cc (rw (lookup-nil {V = ExprDeps Expr} name) at k)))
                      attrs h)
                  attrs_list (collect_locals-All H ctx attrs_list [] [] c);
            others_kept = λ x n. refl;
          })
      from r (full l locals s ds' c d ev er) same =
          let (r', ev', g) = eval-Good locals (compute_deps-HasDeps H ctx l locals d) in
          let er' : r' ≡ (s, ds') = ground arith in
          let ok' : has_errors r'.1 ≡ false = ground (arith, has_errors-extend H [] ds') in
          let ec : s.variables ∷ ctx ≡ child = ground arith in
          rw (← ec)
            (full-Solves attrs_list l locals s c d (rw er' at (g ok').0) (rw er' at (g ok').1))
