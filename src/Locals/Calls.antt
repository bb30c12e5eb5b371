-- ===== src/Locals/Calls.antt =====
-- locals.go: evalLocal, its loop over dependencies and the loop of eval, by induction on the fuel.
use native.Mathlib.Nat.{le_trans}
use function_hcl.Base.{
  ℕ, zero, suc, String, ◌≡◌, refl, ◌<◌, true, false, inl, inr, Option, some, List, [], ◌∷◌, ◌++◌,
  contains, lookup, string_eq, arith, All, Bool-cases,
}
use function_hcl.Hcl.{
  Hcl, Ctx, Diags, has_errors-extend, has_errors-to_error_diag, to_error_diag, cycle_found,
}
use function_hcl.Locals.{
  ExprDeps, EvalState, Locals, finish_local, eval_deps, eval_local, eval_names,
}
use function_hcl.Locals.Paths.{
  contains-remove, contains-snoc, push-cases, open_count, open_count-snoc_lt, Frame, Frame-refl,
  Frame-trans, Frame-pop, Frame-done,
}
use function_hcl.Locals.Spec.{
  HasDeps, Known, Good, finish_local-remaining, finish_local-errors, finish_local-clean,
  finish_local-Good,
}

module _ (H : Hcl) (locals : Locals H) (ctx : Ctx H.Value) (hd : HasDeps H locals ctx) where
  open H use {Expr, Value, extend, has_errors}

  abbrev Call : Type 0
  Call = EvalState Value → String → Option (EvalState Value × Diags)

  -- What a call of evalLocal yields.
  pub record Outcome (path : List String) (s : EvalState Value) (name : String)
      (r : EvalState Value × Diags) : Type 0 where
    pub frame : Frame path s.remaining r.0.remaining
    pub sound :
        Good H locals ctx s
        → has_errors r.1 ≡ false
        → Good H locals ctx r.0 × (contains r.0.remaining name ≡ false)

  -- `run` answers every call whose names off the path are fewer than `bound`.
  abbrev Answers : Call → List String → ℕ → Type 0
  Answers run path bound =
      (s : EvalState Value) (x : String)
      → open_count path s.remaining < bound
      → Known H locals ctx s.remaining
      → (r : EvalState Value × Diags) × (run s x ≡ some r) × Outcome path s x r

  -- What a loop over names yields: all of them are evaluated if there was no error.
  pub record Loop (path : List String) (s : EvalState Value) (diags : Diags) (names : List String)
      (r : EvalState Value × Diags) : Type 0 where
    pub frame : Frame path s.remaining r.0.remaining
    pub before : has_errors r.1 ≡ false → has_errors diags ≡ false
    pub sound :
        Good H locals ctx s
        → has_errors r.1 ≡ false
        → Good H locals ctx r.0 × All (λ d. contains r.0.remaining d ≡ false) names

  Loop-nil :
      (path : List String) (s : EvalState Value) (diags : Diags) → Loop path s diags [] (s, diags)
  Loop-nil path s diags = record {
    frame = Frame-refl path s.remaining;
    before = λ h. h;
    sound = λ g h. (g, tt);
  }

  Loop-skip :
      {path : List String} {s : EvalState Value} {diags : Diags} {name : String}
      {names : List String} {r : EvalState Value × Diags}
      → contains s.remaining name ≡ false
      → Loop path s diags names r
      → Loop path s diags (name ∷ names) r
  Loop-skip {name = name} gone l = record {
    frame = l.frame;
    before = l.before;
    sound = λ g h. ((l.sound g h).0, (Frame-done name l.frame gone, (l.sound g h).1));
  }

  Loop-cons :
      {path : List String} {s s' : EvalState Value} {diags ds : Diags} {name : String}
      {names : List String} {r : EvalState Value × Diags}
      → Outcome path s name (s', ds)
      → Loop path s' (extend diags ds) names r
      → Loop path s diags (name ∷ names) r
  Loop-cons {diags = diags} {ds = ds} {name = name} {r = r} o l = record {
    frame = Frame-trans o.frame l.frame;
    before = λ h. (split h).0;
    sound = λ g h.
        let first = o.sound g (split h).1 in
        let rest = l.sound first.0 h in (rest.0, (Frame-done name l.frame first.1, rest.1));
  }
    where
      split : has_errors r.1 ≡ false → (has_errors diags ≡ false) × (has_errors ds ≡ false)
      split h = ground (arith, has_errors-extend H diags ds, l.before h)

  Known-after :
      {path a b : List String} → Frame path a b → Known H locals ctx a → Known H locals ctx b
  Known-after f k = λ x h. k x (f.shrink x h)

  eval_deps-Loop :
      (run : Call) (path : List String) (bound : ℕ)
      → Answers run path bound
      → (s : EvalState Value) (diags : Diags) (deps : List String)
      → open_count path s.remaining < bound
      → Known H locals ctx s.remaining
      → (r : EvalState Value × Diags) × (eval_deps H run (s, diags) deps ≡ some r)
        × Loop path s diags deps r
  unfolding eval_deps
  eval_deps-Loop run path bound a s diags [] lt k = ((s, diags), refl, Loop-nil path s diags)
  eval_deps-Loop run path bound a s diags (dep ∷ deps) lt k =
      elim (Bool-cases (contains s.remaining dep)) [
        | inl yet ↦
            let ((s', ds), e, o) = a s dep lt k in
            let (r, e', l) =
              eval_deps-Loop run path bound a s' (extend diags ds) deps
                (le_trans (omega (arith, o.frame.count path)) lt) (Known-after o.frame k) in
            (r, rw (yet, e) e', Loop-cons o l)
        | inr gone ↦
            let (r, e', l) = eval_deps-Loop run path bound a s diags deps lt k in
            (r, rw gone e', Loop-skip gone l)
      ]

  -- The end of evalLocal, after its loop.
  pop-Outcome :
      (path : List String) (s : EvalState Value) (name : String) (info : ExprDeps Expr)
      (r : EvalState Value × Diags)
      → contains path name ≡ false
      → contains s.remaining name ≡ true
      → lookup name locals ≡ some info
      → Loop (path ++ name ∷ []) s [] info.deps r
      → Outcome path s name (finish_local H ctx name info r)
  pop-Outcome path s name info (s', ds) off yet known l = record {
    frame = rw (finish_local-remaining H locals ctx name info s' ds) (Frame-pop name off l.frame);
    sound = λ g h.
        let clean : has_errors ds ≡ false = rw finish_local-errors at h in
        let (good, deps) = l.sound g clean in
        let here = l.frame.keep name (ground (arith, contains-snoc path name name)) yet in
        rw (finish_local-clean H locals ctx name info s' ds clean) (
          finish_local-Good H locals ctx hd s' name info known here deps good,
          ground (arith, contains-remove name name s'.remaining),
        );
  }

  -- With more fuel than there are names off the path, evalLocal answers.
  pub eval_local-Outcome :
      (fuel : ℕ) (path : List String) → Answers (eval_local H fuel locals ctx path) path fuel
  unfolding eval_local
  eval_local-Outcome zero path s name lt k = absurd (omega arith)
  eval_local-Outcome (suc fuel) path s name lt k = elim (Bool-cases (contains s.remaining name)) [
    | inr gone ↦
        ((s, []), rw gone, record { frame = Frame-refl path s.remaining; sound = λ g h. (g, gone) })
    | inl yet ↦ elim (push-cases path name) [
      | inl (cycle, _, e) ↦ (
        (s, to_error_diag (cycle_found cycle)),
        rw (yet, e),
        record {
          frame = Frame-refl path s.remaining;
          sound = λ g h. cc (has_errors-to_error_diag H (cycle_found cycle));
        },
      )
      | inr (off, e) ↦
          let (info, known) = k name yet in
          let (r, e', l) =
            eval_deps-Loop (eval_local H fuel locals ctx (path ++ name ∷ [])) (path ++ name ∷ [])
              fuel (eval_local-Outcome fuel (path ++ name ∷ [])) s [] info.deps
              (omega (arith, open_count-snoc_lt path name s.remaining off yet)) k in
          (
            finish_local H ctx name info r,
            rw (yet, e, known, e'),
            pop-Outcome path s name info r off yet known l,
          )
    ]
  ]

  -- The loop of eval.
  pub eval_names-Loop :
      (run : Call) (path : List String) (bound : ℕ)
      → Answers run path bound
      → (s : EvalState Value) (diags : Diags) (names : List String)
      → open_count path s.remaining < bound
      → Known H locals ctx s.remaining
      → (r : EvalState Value × Diags) × (eval_names H run (s, diags) names ≡ some r)
        × Loop path s diags names r
  unfolding eval_names
  eval_names-Loop run path bound a s diags [] lt k = ((s, diags), refl, Loop-nil path s diags)
  eval_names-Loop run path bound a s diags (name ∷ names) lt k =
      let ((s', ds), e, o) = a s name lt k in
      let (r, e', l) =
        eval_names-Loop run path bound a s' (extend diags ds) names
          (le_trans (omega (arith, o.frame.count path)) lt) (Known-after o.frame k) in
      (r, rw e e', Loop-cons o l)
