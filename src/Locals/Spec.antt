-- ===== src/Locals/Spec.antt =====
-- locals.go: what evalLocal and its loop over dependencies do, for every state of the evaluation.
use mathlib.Core.WellFounded.{Acc}
use function_hcl.Base.{
  String, ◌≡◌, ◌≢◌, true, false, ◌⊎◌, inl, inr, none, some, List, [], ◌∷◌, contains, lookup, insert,
  lookup-insert, string_eq, arith, All,
}
use function_hcl.Hcl.{
  Hcl, Ctx, Diags, resolve, downgrade_diags, has_errors-extend, has_errors-downgrade_diags,
}
use function_hcl.Locals.{ExprDeps, EvalState, Locals, remove, finish_local}
use function_hcl.Locals.Paths.{contains-remove}

pub All-contains :
    (P : String → Type 0) (xs : List String) (x : String) → All P xs → contains xs x ≡ true → P x
All-contains P [] x h m = absurd (cc)
All-contains P (y ∷ xs) x h m = elim (string_eq.dec x y) [
  | yes e ↦ rw e h.0
  | no n ↦ All-contains P xs x h.1 (ground arith)
]

module _ (H : Hcl) (locals : Locals H) (ctx : Ctx H.Value) where
  open H use {Expr, Value, variables, value, has_errors, value_local}

  -- Each name that an expression reads is one of its dependencies, or no local at all.
  abbrev pub HasDeps : Type 0
  HasDeps =
      (x : String) (info : ExprDeps Expr)
      → lookup x locals ≡ some info
      → (y : String) → contains (variables info.expr) y ≡ true
      → (contains info.deps y ≡ true) ⊎ (lookup y locals ≡ none)

  -- Every name that remains is that of a local.
  abbrev pub Known : List String → Type 0
  Known r =
      (x : String) → contains r x ≡ true → (info : ExprDeps Expr) × (lookup x locals ≡ some info)

  -- Local `x` names `y` among its dependencies.
  abbrev pub DependsOn : String → String → Type 0
  DependsOn y x =
      (info : ExprDeps Expr) × (lookup x locals ≡ some info) × (contains info.deps y ≡ true)

  -- Each local that is evaluated has the value of its expression in the variables at hand, and
  -- its dependencies are evaluated too.
  pub record Good (s : EvalState Value) : Type 0 where
    pub done :
        (x : String) (info : ExprDeps Expr)
        → lookup x locals ≡ some info
        → contains s.remaining x ≡ false
        → (lookup x s.variables ≡ some (value info.expr (s.variables ∷ ctx)).0)
          × All (λ d. contains s.remaining d ≡ false) info.deps
    pub other : (x : String) → lookup x locals ≡ none → lookup x s.variables ≡ none
    pub acc : (x : String) → contains s.remaining x ≡ false → Acc DependsOn x

  -- A variable that an expression's evaluated dependencies do not include changes nothing.
  value-insert :
      HasDeps
      → (s : EvalState Value) (x name : String) (info target : ExprDeps Expr) (v : Value)
      → lookup x locals ≡ some info
      → lookup name locals ≡ some target
      → All (λ d. contains s.remaining d ≡ false) info.deps
      → contains s.remaining name ≡ true
      → value info.expr (insert name v s.variables ∷ ctx) ≡ value info.expr (s.variables ∷ ctx)
  unfolding resolve
  value-insert hd s x name info target v ex en deps rem = value_local info.expr _ _ λ y m.
      let other : y ≢ name = λ e. elim (hd x info ex y m) [
        | inl dep ↦ cc (All-contains _ info.deps y deps dep, e, rem)
        | inr out ↦ cc (out, e, en)
      ] in
      ground (arith, lookup-insert y name v s.variables)

  -- The end of evalLocal deletes its name and reports the errors that it was given, and no other.
  pub finish_local-remaining :
      (name : String) (info : ExprDeps Expr) (s : EvalState Value) (ds : Diags)
      → (finish_local H ctx name info (s, ds)).0.remaining ≡ remove name s.remaining
  unfolding finish_local
  finish_local-remaining name info s ds = ground arith

  pub finish_local-errors :
      (name : String) (info : ExprDeps Expr) (s : EvalState Value) (ds : Diags)
      → has_errors (finish_local H ctx name info (s, ds)).1 ≡ has_errors ds
  unfolding finish_local
  finish_local-errors name info s ds =
      let own = (value info.expr (s.variables ∷ ctx)).1 in
      ground (arith, has_errors-extend H ds (downgrade_diags own), has_errors-downgrade_diags H own)

  pub finish_local-clean :
      (name : String) (info : ExprDeps Expr) (s : EvalState Value) (ds : Diags)
      → has_errors ds ≡ false
      → (finish_local H ctx name info (s, ds)).0 ≡ record {
        variables = insert name (value info.expr (s.variables ∷ ctx)).0 s.variables;
        remaining = remove name s.remaining;
      }
  unfolding finish_local
  finish_local-clean name info s ds h = ground arith

  pub finish_local-Good :
      HasDeps
      → (s : EvalState Value) (name : String) (info : ExprDeps Expr)
      → lookup name locals ≡ some info
      → contains s.remaining name ≡ true
      → All (λ d. contains s.remaining d ≡ false) info.deps
      → Good s
      → Good (record {
        variables = insert name (value info.expr (s.variables ∷ ctx)).0 s.variables;
        remaining = remove name s.remaining;
      })
  finish_local-Good hd s name info en rem deps g = record {
    done = after;
    other = λ x out.
        let differ : x ≢ name = λ e. cc (rw e at out, en) in
        ground (arith, lookup-insert x name v s.variables, g.other x out);
    acc = λ x gone. elim (string_eq.dec x name) [
      | yes e ↦ rw e (Acc.intro name below)
      | no n ↦ g.acc x (ground (arith, contains-remove name x s.remaining))
    ];
  }
    where
      below : (y : String) → DependsOn y name → Acc DependsOn y
      below y (i, ei, m) =
          let same : i ≡ info = ground arith in
          g.acc y (All-contains _ info.deps y deps (rw same at m))

      v : Value
      v = (value info.expr (s.variables ∷ ctx)).0

      still :
          (ds : List String)
          → All (λ d. contains s.remaining d ≡ false) ds
          → All (λ d. contains (remove name s.remaining) d ≡ false) ds
      still [] h = tt
      still (d ∷ ds) h = (ground (arith, contains-remove name d s.remaining), still ds h.1)

      after :
          (x : String) (i : ExprDeps Expr)
          → lookup x locals ≡ some i
          → contains (remove name s.remaining) x ≡ false
          → (lookup x (insert name v s.variables)
              ≡ some (value i.expr (insert name v s.variables ∷ ctx)).0)
            × All (λ d. contains (remove name s.remaining) d ≡ false) i.deps
      after x i ex gone = elim (string_eq.dec x name) [
        | yes e ↦
            let same : i ≡ info = ground (arith, rw e at ex) in
            rw same (
              rw
                (
                  lookup-insert x name v s.variables,
                  value-insert hd s name name info info v en en deps rem,
                )
                (ground arith, still info.deps deps))
        | no n ↦
            let old = g.done x i ex (ground (arith, contains-remove name x s.remaining)) in
            (
              ground (
                arith,
                lookup-insert x name v s.variables,
                old.0,
                value-insert hd s x name i info v ex en old.1 rem,
              ),
              still i.deps old.1,
            )
      ]
