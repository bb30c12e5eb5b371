-- ===== src/Locals/Process.antt =====
-- locals.go: Process, which gathers the declarations of all `locals` blocks of a body.
use mathlib.Core.List.{append-nil, append_assoc}
use function_hcl.Base.{
  String, ◌≡◌, ◌∙◌, ap, false, inl, inr, Option, none, some, List, [], ◌∷◌, ◌++◌, Dict,
  if◌then◌else◌, string_eq, ◌==◌, arith, Bool-cases,
}
use function_hcl.Hcl.{Hcl, Ctx, Block, Diags, ok, has_errors-extend}
use function_hcl.Locals.{locals_attributes, process}
use function_hcl.Locals.Evaluate.{Result-cases, Solves, evaluate-View, evaluate-Solves}

module _ (H : Hcl) where
  open H use {Expr, Value, Body, just_attributes, value, has_errors, extend}

  -- The declarations of the `locals` blocks, in order.
  abbrev pub declarations : List (Block Body) → List (Dict String Expr)
  declarations [] = []
  declarations (block ∷ blocks) =
      let rest = declarations blocks in
      if block.type == "locals" then (just_attributes block.body).0 ∷ rest else rest

  locals_attributes-declarations :
      (diags : Diags) (attrs_list : List (Dict String Expr)) (blocks : List (Block Body))
      (diags' : Diags) (out : List (Dict String Expr))
      → locals_attributes H diags attrs_list blocks ≡ ok (diags', out)
      → out ≡ attrs_list ++ declarations blocks
  unfolding locals_attributes
  locals_attributes-declarations diags attrs_list [] diags' out h =
      ground (arith, append-nil attrs_list)
  locals_attributes-declarations diags attrs_list (block ∷ blocks) diags' out h =
      elim (Bool-cases (block.type == "locals")) [
        | inr skip ↦
            rw skip
              (locals_attributes-declarations diags attrs_list blocks diags' out (rw skip at h))
        | inl take ↦
            let (attrs, ds) = just_attributes block.body in
            let more = locals_attributes H (extend diags ds) (attrs_list ++ attrs ∷ []) blocks in
            let go : more ≡ ok (diags', out) = ground arith in
            rw take (
              locals_attributes-declarations (extend diags ds) (attrs_list ++ attrs ∷ []) blocks
                diags' out go
              ∙ append_assoc attrs_list (attrs ∷ []) (declarations blocks))
      ]

  module _ (ctx : Ctx Value) where
    -- Process returns, whatever the blocks declare: its recursion ends, and no name that it looks
    -- up is missing.
    pub process_total :
        (blocks : List (Block Body))
        → (r : Option (Ctx Value) × Diags) × (process H ctx blocks ≡ some r)
    unfolding process
    process_total blocks = elim (Result-cases (locals_attributes H [] [] blocks)) [
      | inl (ds, e) ↦ ((none, ds), rw (e, process))
      | inr ((diags, attrs_list), e) ↦
          let ((child, ds), e', _) = evaluate-View H ctx attrs_list in
          ((child, extend diags ds), rw (e, process, e'))
    ]

    -- If Process returns a child context and no diagnostic is an error, then in that context each
    -- local of the body's `locals` blocks has the value of its own expression evaluated in that
    -- same context, and every name that the blocks do not declare has the value that it has in
    -- the parent context.
    pub process-Solves :
        (blocks : List (Block Body)) (child : Ctx Value) (ds : Diags)
        → process H ctx blocks ≡ some (some child, ds)
        → has_errors ds ≡ false
        → Solves H ctx (declarations blocks) child
    unfolding process
    process-Solves blocks child ds h clean =
        elim (Result-cases (locals_attributes H [] [] blocks)) [
          | inl (ds', e) ↦ absurd (ground (arith, e))
          | inr ((diags, attrs_list), e) ↦
              let ((child', ds'), e', _) = evaluate-View H ctx attrs_list in
              let same : (child' ≡ some child) × (ds ≡ extend diags ds') = ground (arith, e, e') in
              rw (← (locals_attributes-declarations [] [] blocks diags attrs_list e)) (
                evaluate-Solves H ctx attrs_list child ds' (e' ∙ ap (λ c. some (c, ds')) same.0)
                  (ground (arith, same.1, has_errors-extend H diags ds')))
        ]
