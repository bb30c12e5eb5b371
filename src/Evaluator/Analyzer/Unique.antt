-- ===== src/Evaluator/Analyzer/Unique.antt =====
-- The names that checkStructure of function/internal/evaluator/analyze.go lets through.
use function_hcl.Base.{
  ℕ, zero, suc, ◌≡◌, String, false, Option, none, some, List, [], ◌∷◌, ◌++◌, lookup, contains, ◌==◌,
  eq_of_==, string_eq, if◌then◌else◌, arith, Bool-cases, Option-cases, inl, inr,
}
use function_hcl.Hcl.{Hcl, Block, Diags, report, has_errors-extend, has_errors-to_error_diag}
use function_hcl.Evaluator.{Cty}
use function_hcl.Evaluator.Schemas.{Schema, top_level_schema, schemas_by_block_type}
use function_hcl.Evaluator.Analyzer.{
  Names, new_analyzer, add_resource_name, add_collection, add_requirement, declare, declare_block,
  check_blocks, check_structure, check_bodies,
}
use function_hcl.Evaluator.Analyzer.Added.{
  Kind, type_of, names_of, Unique, AllNew-Unique, own_names, Adds, Adds-nil, Adds-append,
  resource_names-Adds, collection_names-Adds, requirement_names-Adds, other_type,
}

module _ (H : Hcl) (C : Cty H) where
  open H use {Body, just_attributes, extend, has_errors}
  open C use {content}

  -- The names of a kind that blocks declare, with what is nested in them.
  unfoldable pub declared_blocks :
      Kind → (Body → Option Schema → List String) → List (Block Body) → List String
  declared_blocks k nested [] = []
  declared_blocks k nested (b ∷ blocks) =
      own_names k b
      ++ (nested b.body (lookup b.type schemas_by_block_type) ++ declared_blocks k nested blocks)

  unfoldable pub declared : Kind → ℕ → Body → Option Schema → List String
  unfolding declared_blocks
  declared k zero body s = []
  declared k (suc fuel) body none = []
  declared k (suc fuel) body (some s) =
      declared_blocks k (declared k fuel) (content body s).0.blocks

  -- The names of a kind that the files declare.
  unfoldable pub declared_all : Kind → ℕ → List Body → List String
  unfolding declared
  declared_all k fuel [] = []
  declared_all k fuel (body ∷ bodies) =
      declared k fuel body (some top_level_schema) ++ declared_all k fuel bodies

  add_resource_name-Adds :
      (k : Kind) (name : String) (a : Names)
      → has_errors (add_resource_name name a).0 ≡ false
      → Adds k (if "resource" == type_of k then name ∷ [] else []) a (add_resource_name name a).1
  unfolding add_resource_name
  add_resource_name-Adds k name a h = elim (Bool-cases (contains a.resource_names name)) [
    | inl twice ↦ absurd (
        ground (
          arith,
          twice,
          h,
          has_errors-to_error_diag H (report "resource defined more than once" (name ∷ [])),
        ))
    | inr new ↦ rw (new, add_resource_name) (resource_names-Adds k name a new)
  ]

  add_collection-Adds :
      (k : Kind) (name : String) (a : Names)
      → has_errors (add_collection name a).0 ≡ false
      → Adds k (if "resources" == type_of k then name ∷ [] else []) a (add_collection name a).1
  unfolding add_collection
  add_collection-Adds k name a h = elim (Bool-cases (contains a.collection_names name)) [
    | inl twice ↦ absurd (
        ground (
          arith,
          twice,
          h,
          has_errors-to_error_diag H
              (report "resource collection defined more than once" (name ∷ [])),
        ))
    | inr new ↦ rw (new, add_collection) (collection_names-Adds k name a new)
  ]

  add_requirement-Adds :
      (k : Kind) (name : String) (a : Names)
      → has_errors (add_requirement name a).0 ≡ false
      → Adds k (if "requirement" == type_of k then name ∷ [] else []) a (add_requirement name a).1
  unfolding add_requirement
  add_requirement-Adds k name a h = elim (Bool-cases (contains a.requirement_names name)) [
    | inl twice ↦ absurd (
        ground (
          arith,
          twice,
          h,
          has_errors-to_error_diag H (report "requirement defined more than once" (name ∷ [])),
        ))
    | inr new ↦ rw (new, add_requirement) (requirement_names-Adds k name a new)
  ]

  declare-Adds :
      (k : Kind) (type name : String) (a : Names)
      → has_errors (declare type name a).0 ≡ false
      → Adds k (if type == type_of k then name ∷ [] else []) a (declare type name a).1
  unfolding declare string_eq
  declare-Adds k type name a h = elim (Bool-cases (type == "resource")) [
    | inl is ↦
        rw (eq_of_== type "resource" is, declare)
          (add_resource_name-Adds k name a (ground (arith, is, h)))
    | inr is_not ↦ elim (Bool-cases (type == "resources")) [
      | inl is ↦
          rw (eq_of_== type "resources" is, declare)
            (add_collection-Adds k name a (ground (arith, is_not, is, h)))
      | inr is_not' ↦ elim (Bool-cases (type == "requirement")) [
        | inl is ↦
            rw (eq_of_== type "requirement" is, declare)
              (add_requirement-Adds k name a (ground (arith, is_not, is_not', is, h)))
        | inr is_not'' ↦
            rw (is_not, is_not', is_not'', declare, other_type k type is_not is_not' is_not'')
              (Adds-nil k a)
      ]
    ]
  ]

  labels-Adds :
      (k : Kind) (type : String) (labels : List String) (body : Body) (a a' : Names) (ds : Diags)
      → declare_block (record { type = type; labels = labels; body = body }) a ≡ some (ds, a')
      → has_errors ds ≡ false
      → Adds k (own_names k (record { type = type; labels = labels; body = body })) a a'
  unfolding declare_block
  labels-Adds k type [] body a a' ds ran clean =
      elim (Bool-cases (contains ("resource" ∷ "resources" ∷ "requirement" ∷ []) type)) [
        | inl named ↦ absurd (ground (arith, named, ran))
        | inr plain ↦ let same : a ≡ a' = ground (arith, plain, ran) in rw (← same) (Adds-nil k a)
      ]
  labels-Adds k type (name ∷ labels) body a a' ds ran clean =
      let same : (declare type name a).1 ≡ a' = ground (arith, ran) in
      let same_diags : (declare type name a).0 ≡ ds = ground (arith, ran) in
      rw (← same) (declare-Adds k type name a (rw same_diags clean))

  declare_block-Adds :
      (k : Kind) (b : Block Body) (a a' : Names) (ds : Diags)
      → declare_block b a ≡ some (ds, a')
      → has_errors ds ≡ false
      → Adds k (own_names k b) a a'
  declare_block-Adds k b a a' ds ran clean = labels-Adds k b.type b.labels b.body a a' ds ran clean

  -- A check that adds the names which a function lists.
  abbrev Checks :
      Kind
      → (Body → Option Schema → List String)
      → (Body → Option Schema → Names → Option (Diags × Names))
      → Type 0
  Checks k list nested =
      (body : Body) (s : Option Schema) (a a' : Names) (ds : Diags)
      → nested body s a ≡ some (ds, a')
      → has_errors ds ≡ false
      → Adds k (list body s) a a'

  check_blocks-Adds :
      (k : Kind) (list : Body → Option Schema → List String)
      (nested : Body → Option Schema → Names → Option (Diags × Names))
      → Checks k list nested
      → (diags : Diags) (blocks : List (Block Body)) (a a' : Names) (ds : Diags)
      → check_blocks H C nested diags blocks a ≡ some (ds, a')
      → has_errors ds ≡ false
      → (has_errors diags ≡ false) × Adds k (declared_blocks k list blocks) a a'
  unfolding check_blocks declared_blocks
  check_blocks-Adds k list nested good diags [] a a' ds ran clean =
      let same : a ≡ a' = ground (arith, ran) in
      let same_diags : diags ≡ ds = ground (arith, ran) in
      (rw same_diags clean, rw (← same) (Adds-nil k a))
  check_blocks-Adds k list nested good diags (b ∷ blocks) a a' ds ran clean =
      elim (Option-cases (declare_block b a)) [
        | inl stuck ↦ absurd (ground (arith, stuck, ran))
        | inr ((ds1, a1), own) ↦
            elim (Option-cases (nested b.body (lookup b.type schemas_by_block_type) a1)) [
              | inl stuck ↦ absurd (ground (arith, own, stuck, ran))
              | inr ((ds2, a2), below) ↦
                  let (kept, rest) =
                    check_blocks-Adds k list nested good (extend (extend diags ds1) ds2) blocks a2
                      a' ds (ground (arith, own, below, ran)) clean in
                  let parts = has_errors-extend H (extend diags ds1) ds2 in
                  let parts' = has_errors-extend H diags ds1 in
                  let no_own : has_errors ds1 ≡ false = ground (arith, kept, parts, parts') in
                  let no_below : has_errors ds2 ≡ false = ground (arith, kept, parts) in
                  let before : has_errors diags ≡ false = ground (arith, kept, parts, parts') in
                  (
                    before,
                    Adds-append k (own_names k b) _ a a1 a'
                        (declare_block-Adds k b a a1 ds1 own no_own)
                        (Adds-append k (list b.body (lookup b.type schemas_by_block_type)) _ a1 a2
                          a'
                          (good b.body (lookup b.type schemas_by_block_type) a1 a2 ds2 below
                            no_below)
                          rest),
                  )
            ]
      ]

  check_structure-Adds :
      (k : Kind) (fuel : ℕ) → Checks k (declared k fuel) (check_structure H C fuel)
  unfolding check_structure declared
  check_structure-Adds k zero body s a a' ds ran clean = absurd (cc)
  check_structure-Adds k (suc fuel) body none a a' ds ran clean =
      let same : a ≡ a' = ground (arith, ran) in rw (← same) (Adds-nil k a)
  check_structure-Adds k (suc fuel) body (some s) a a' ds ran clean =
      let (c, diags) = content body s in
      elim (Bool-cases (has_errors diags)) [
        | inl bad ↦
            let same : diags ≡ ds = ground (arith, bad, ran) in
            absurd (ground (arith, bad, same, clean))
        | inr fine ↦
            (check_blocks-Adds k (declared k fuel) (check_structure H C fuel)
              (check_structure-Adds k fuel) diags c.blocks a a' ds (ground (arith, fine, ran))
              clean).1
      ]

  check_bodies-Adds :
      (k : Kind) (fuel : ℕ) (diags : Diags) (bodies : List Body) (a a' : Names) (ds : Diags)
      → check_bodies H C fuel diags bodies a ≡ some (ds, a')
      → has_errors ds ≡ false
      → (has_errors diags ≡ false) × Adds k (declared_all k fuel bodies) a a'
  unfolding check_bodies declared_all
  check_bodies-Adds k fuel diags [] a a' ds ran clean =
      let same : a ≡ a' = ground (arith, ran) in
      let same_diags : diags ≡ ds = ground (arith, ran) in
      (rw same_diags clean, rw (← same) (Adds-nil k a))
  check_bodies-Adds k fuel diags (body ∷ bodies) a a' ds ran clean =
      elim (Option-cases (check_structure H C fuel body (some top_level_schema) a)) [
        | inl stuck ↦ absurd (ground (arith, stuck, ran))
        | inr ((ds1, a1), first) ↦
            let (kept, rest) =
              check_bodies-Adds k fuel (extend diags ds1) bodies a1 a' ds
                (ground (arith, first, ran)) clean in
            let parts = has_errors-extend H diags ds1 in
            let no_first : has_errors ds1 ≡ false = ground (arith, kept, parts) in
            let before : has_errors diags ≡ false = ground (arith, kept, parts) in
            (
              before,
              Adds-append k _ _ a a1 a'
                  (check_structure-Adds k fuel body (some top_level_schema) a a1 ds1 first no_first)
                  rest,
            )
      ]

  -- Where the check of the structure of all files returns without errors, no two resource blocks
  -- in them have the same name, at any depth, and so for collections and for requirements.
  pub check_bodies-Unique :
      (k : Kind) (fuel : ℕ) (bodies : List Body) (a : Names) (ds : Diags)
      → check_bodies H C fuel [] bodies new_analyzer ≡ some (ds, a)
      → has_errors ds ≡ false
      → Unique (declared_all k fuel bodies)
  check_bodies-Unique k fuel bodies a ds ran clean =
      AllNew-Unique (declared_all k fuel bodies) (names_of k new_analyzer)
        (check_bodies-Adds k fuel [] bodies new_analyzer a ds ran clean).1.new
