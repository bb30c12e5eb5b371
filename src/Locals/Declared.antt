-- ===== src/Locals/Declared.antt =====
-- locals.go: the maps that `evaluate` fills with the declarations and computeDeps with dependencies.
use mathlib.Core.Logic.{ite}
use function_hcl.Base.{
  String, ◌≡◌, ◌≢◌, refl, true, false, ◌⊎◌, inl, inr, Option, none, some, List, [], ◌∷◌, ◌++◌, Dict,
  contains, contains-append, lookup, insert, lookup-insert, if◌then◌else◌, string_eq, arith, All,
  All-map, ap, Option-cases,
}
use function_hcl.Hcl.{Hcl, Ctx, Result, ok, err, ◌>>=◌, has_variable}
use function_hcl.Locals.{ExprDeps, Locals, collect_attrs, collect_locals, expr_deps, compute_deps}
use function_hcl.Locals.Spec.{HasDeps}

-- If what follows a step succeeds, so did the step.
bind-ok :
    {X Y : Type 0} (step : Result X) (next : X → Result Y) {y : Y}
    → (step >>= next) ≡ ok y
    → (x : X) × (step ≡ ok x) × (next x ≡ ok y)
bind-ok (err ds) next e = cc
bind-ok (ok x) next e = (x, refl, e)

module _ (H : Hcl) (ctx : Ctx H.Value) where
  open H use {Expr, Value, variables}

  -- Each reference is to a local that is reported, or to no local.
  expr_deps-contains :
      (locals : Locals H) (refs deps : List String) (y : String)
      → expr_deps H ctx locals refs ≡ ok deps
      → contains refs y ≡ true
      → (contains deps y ≡ true) ⊎ (lookup y locals ≡ none)
  unfolding expr_deps
  expr_deps-contains locals [] deps y h m = absurd (cc)
  expr_deps-contains locals (r ∷ refs) deps y h m = elim (Option-cases (lookup r locals)) [
    | inl out ↦ ground (arith, expr_deps-contains locals refs deps y)
    | inr (i, e) ↦
        let (deps', e', e'') =
          bind-ok (expr_deps H ctx locals refs) (λ ds. ok (r ∷ ds)) (rw e at h) in
        ground (arith, expr_deps-contains locals refs deps' y e')
  ]

  -- The entry of a name before computeDeps and after it.
  abbrev pub Linked : Locals H → Option (ExprDeps Expr) → Option (ExprDeps Expr) → Type 0
  Linked locals none none = Unit
  Linked locals (some i) (some j) =
      (deps : List String) × (expr_deps H ctx locals (variables i.expr) ≡ ok deps)
      × (j ≡ record i { deps = i.deps ++ deps })
  Linked locals _ _ = ⊥

  -- computeDeps keeps the names and the expressions, and adds what each expression refers to.
  pub compute_deps-Linked :
      (locals todo out : Locals H) (x : String)
      → compute_deps H ctx locals todo ≡ ok out
      → Linked locals (lookup x todo) (lookup x out)
  unfolding compute_deps lookup
  compute_deps-Linked locals [] out x h = let eo : out ≡ [] = ground arith in rw eo tt
  compute_deps-Linked locals ((name, info) ∷ todo) out x h =
      let (deps, e, h') = bind-ok (expr_deps H ctx locals (variables info.expr)) _ h in
      let (rest, e', h'') = bind-ok (compute_deps H ctx locals todo) _ h' in
      let new : ExprDeps Expr = record info { deps = info.deps ++ deps } in
      let eo : out ≡ (name, new) ∷ rest = ground arith in
      rw eo
        (elim (string_eq.dec x name)
          as (λ d.
            Linked locals (if ite d true false then some info else lookup x todo)
              (if ite d true false then some new else lookup x rest)) [
                | yes same ↦ (deps, e, refl)
                | no other ↦ compute_deps-Linked locals todo rest x e'
              ])

  -- What computeDeps yields names for each expression the locals that it refers to.
  pub compute_deps-HasDeps :
      (locals out : Locals H) → compute_deps H ctx locals locals ≡ ok out → HasDeps H out ctx
  compute_deps-HasDeps locals out h x j ej y m = elim (Option-cases (lookup x locals)) [
    | inl e ↦ absurd (rw (e, ej) at (compute_deps-Linked locals locals out x h))
    | inr (i, e) ↦
        let (deps, ed, same) = rw (e, ej) at (compute_deps-Linked locals locals out x h) in
        elim (expr_deps-contains locals (variables i.expr) deps y ed
          (rw (ap (λ (r : ExprDeps Expr). r.expr) same) at m)) [
            | inl dep ↦ inl (rw same (rw contains-append (ground arith)))
            | inr none_y ↦ inr (lookup-none y none_y)
          ]
  ]
    where
      lookup-none : (y : String) → lookup y locals ≡ none → lookup y out ≡ none
      lookup-none y e = elim (Option-cases (lookup y out)) [
        | inl e' ↦ e'
        | inr (k, e') ↦ absurd (rw (e, e') at (compute_deps-Linked locals locals out y h))
      ]

  -- A declaration as `evaluate` records it.
  abbrev pub fresh : Expr → ExprDeps Expr
  fresh e = record { expr = e; deps = [] }

  -- A step of `collect_attrs` that goes on: the name was new, in the map and in the context.
  collect_attrs-cons :
      (name : String) (e : Expr) (attrs : Dict String Expr) (locals out : Locals H)
      → collect_attrs H ctx ((name, e) ∷ attrs) locals ≡ ok out
      → (lookup name locals ≡ none)
        × (has_variable ctx name ≡ false)
        × (collect_attrs H ctx attrs (insert name (fresh e) locals) ≡ ok out)
  unfolding collect_attrs
  collect_attrs-cons name e attrs locals out h = ground arith

  -- Nothing that was declared is overwritten.
  collect_attrs-keeps :
      (attrs : Dict String Expr) (locals out : Locals H) (x : String) (i : ExprDeps Expr)
      → collect_attrs H ctx attrs locals ≡ ok out
      → lookup x locals ≡ some i
      → lookup x out ≡ some i
  unfolding collect_attrs
  collect_attrs-keeps [] locals out x i h k = ground arith
  collect_attrs-keeps ((name, e) ∷ attrs) locals out x i h k =
      let (new, _, h') = collect_attrs-cons name e attrs locals out h in
      let old : x ≢ name = λ same. cc (rw same at k, new) in
      collect_attrs-keeps attrs (insert name (fresh e) locals) out x i h'
        (ground (arith, lookup-insert x name (fresh e) locals))

  collect_attrs-All :
      (attrs : Dict String Expr) (locals out : Locals H)
      → collect_attrs H ctx attrs locals ≡ ok out
      → All (λ (name, e). lookup name out ≡ some (fresh e)) attrs
  collect_attrs-All [] locals out h = tt
  collect_attrs-All ((name, e) ∷ attrs) locals out h =
      let (_, _, h') = collect_attrs-cons name e attrs locals out h in
      let locals' = insert name (fresh e) locals in
      (
        collect_attrs-keeps attrs locals' out name (fresh e) h'
            (ground (arith, lookup-insert name name (fresh e) locals)),
        collect_attrs-All attrs locals' out h',
      )

  collect_locals-keeps :
      (attrs_list : List (Dict String Expr)) (locals out : Locals H) (x : String)
      (i : ExprDeps Expr)
      → collect_locals H ctx attrs_list locals ≡ ok out
      → lookup x locals ≡ some i
      → lookup x out ≡ some i
  unfolding collect_locals
  collect_locals-keeps [] locals out x i h k = ground arith
  collect_locals-keeps (attrs ∷ attrs_list) locals out x i h k =
      let (l, e, h') = bind-ok (collect_attrs H ctx attrs locals) _ h in
      collect_locals-keeps attrs_list l out x i h' (collect_attrs-keeps attrs locals l x i e k)

  -- Every declaration of every block is recorded under its name.
  pub collect_locals-All :
      (attrs_list : List (Dict String Expr)) (locals out : Locals H)
      → collect_locals H ctx attrs_list locals ≡ ok out
      → All (All (λ (name, e). lookup name out ≡ some (fresh e))) attrs_list
  unfolding collect_locals
  collect_locals-All [] locals out h = tt
  collect_locals-All (attrs ∷ attrs_list) locals out h =
      let (l, e, h') = bind-ok (collect_attrs H ctx attrs locals) _ h in
      (
        All-map _ _ (λ (name, x) k. collect_locals-keeps attrs_list l out name (fresh x) h' k) attrs
            (collect_attrs-All attrs locals l e),
        collect_locals-All attrs_list l out h',
      )

  collect_attrs-other :
      (attrs : Dict String Expr) (locals out : Locals H) (x : String)
      → collect_attrs H ctx attrs locals ≡ ok out
      → lookup x locals ≡ none
      → lookup x attrs ≡ none
      → lookup x out ≡ none
  unfolding collect_attrs lookup
  collect_attrs-other [] locals out x h k n = ground arith
  collect_attrs-other ((name, e) ∷ attrs) locals out x h k n =
      let (_, _, h') = collect_attrs-cons name e attrs locals out h in
      ground (
        arith,
        collect_attrs-other attrs (insert name (fresh e) locals) out x h',
        lookup-insert x name (fresh e) locals,
      )

  -- A name that no block declares is no local.
  pub collect_locals-other :
      (attrs_list : List (Dict String Expr)) (locals out : Locals H) (x : String)
      → collect_locals H ctx attrs_list locals ≡ ok out
      → lookup x locals ≡ none
      → All (λ attrs. lookup x attrs ≡ none) attrs_list
      → lookup x out ≡ none
  unfolding collect_locals
  collect_locals-other [] locals out x h k n = ground arith
  collect_locals-other (attrs ∷ attrs_list) locals out x h k n =
      let (l, e, h') = bind-ok (collect_attrs H ctx attrs locals) _ h in
      collect_locals-other attrs_list l out x h' (collect_attrs-other attrs locals l x e k n.0) n.1
