-- ===== src/Evaluator/Analyzer/Resolve.antt =====
-- What checkReferences lets through.
use function_hcl.Base.{
  ◌≡◌, refl, ◌≢◌, ◌↔◌, String, Bool, true, false, ◌||◌, ◌&&◌, All, some, List, [], ◌∷◌, Dict,
  lookup, is_some, contains, ◌==◌, string_eq, if◌then◌else◌, arith, Bool-cases, inl, inr, eq_of_==,
  ==_refl, ==_of_ne, Option-cases,
}
use function_hcl.Hcl.{
  Hcl, Ctx, Diags, report, to_error_diag, has_variable, has_errors-to_error_diag, has_errors-nil,
}
use function_hcl.Hcl.Traversal.{
  Traverser, attr, index, splat, Traversal, Syntax, is_identifier, normalize_step,
  normalize_traversal,
}
use function_hcl.Evaluator.{Cty}
use function_hcl.Evaluator.Analyzer.{Names}
use function_hcl.Evaluator.Analyzer.References.{
  third_step, check_third, check_local, check_member, check_each, check_root, check_references,
}

-- The third step names what the analyzer has found, where it is the name of a resource or of a
-- collection of the request, and a part of the iteration, where it is one of `self.each`.
pub record Named (a : Names) (root second third : String) : Type 0 where
  pub resource : root ≡ "req" → second ≡ "resource" → contains a.resource_names third ≡ true
  pub collection : root ≡ "req" → second ≡ "resources" → contains a.collection_names third ≡ true
  pub part : root ≡ "self" → second ≡ "each" → contains ("key" ∷ "value" ∷ []) third ≡ true

module _ {V : Type 0} (a : Names) (ctx : Ctx V) (table : String → Dict String V) where
  -- A traversal refers to what there is.
  pub data Resolves : String → List (Traverser V) → Type 0 where
    whole : (root : String) → contains ("req" ∷ "self" ∷ "each" ∷ []) root ≡ true → Resolves root []
    member :
        (root second : String) (rest : List (Traverser V))
        → contains ("req" ∷ "self" ∷ []) root ≡ true
        → is_some (lookup second (table root)) ≡ true
        → ((third : String) (more : List (Traverser V))
            → rest ≡ attr third ∷ more
            → third ≢ ""
            → Named a root second third)
        → Resolves root (attr second ∷ rest)
    part_of_each :
        (root second : String) (rest : List (Traverser V))
        → root ≡ "each"
        → contains ("key" ∷ "value" ∷ []) second ≡ true
        → has_variable ctx "each" ≡ true
        → Resolves root (attr second ∷ rest)
    local :
        (root : String) (steps : List (Traverser V))
        → contains ("req" ∷ "self" ∷ "each" ∷ []) root ≡ false
        → has_variable ctx root ≡ true
        → Resolves root steps

module _ (H : Hcl) where
  open H use {has_errors}

  -- Only errors are in a list without errors that is one error or nothing.
  has_errors-if :
      (b : Bool) (s : String) (args : List String)
      → has_errors (if b then [] else to_error_diag (report s args)) ≡ false
      → b ≡ true
  has_errors-if true s args h = refl
  has_errors-if false s args h =
      absurd (ground (arith, h, has_errors-to_error_diag H (report s args)))

  same : (s : String) → (s == s) ≡ true
  same s = ==_refl s

  -- Texts that the checks tell apart.
  resources_resource : (◌==◌ {A = String} "resources" "resource") ≡ false
  unfolding string_eq
  resources_resource = refl

  self_req : (◌==◌ {A = String} "self" "req") ≡ false
  unfolding string_eq
  self_req = refl

  each_special :
      ((◌==◌ {A = String} "each" "req") ≡ false) × ((◌==◌ {A = String} "each" "self") ≡ false)
  unfolding string_eq
  each_special = (refl, refl)

  check_third-Named :
      (a : Names) (root second third : String)
      → has_errors (check_third a root second third) ≡ false
      → third ≢ ""
      → Named a root second third
  unfolding check_third
  check_third-Named a root second third h there = record {
    resource = λ p q.
        has_errors-if (contains a.resource_names third) "invalid resource name reference"
          (third ∷ [])
          (ground (arith, h, ==_of_ne third "" there, p, q, same "req", same "resource"));
    collection = λ p q.
        has_errors-if (contains a.collection_names third)
          "invalid resource collection name reference" (third ∷ [])
          (ground (
            arith,
            h,
            ==_of_ne third "" there,
            p,
            q,
            same "req",
            same "resources",
            resources_resource,
          ));
    part = λ p q.
        let test =
          has_errors-if (third == "key" || third == "value")
            "invalid each reference, must be one of 'key' or 'value'" (third ∷ [])
            (ground
              (arith, h, ==_of_ne third "" there, p, q, self_req, same "self", same "each")) in
        ground (arith, test);
  }

  Named-check_third :
      (a : Names) (root second third : String)
      → (third ≢ "" → Named a root second third)
      → check_third a root second third ≡ []
  unfolding check_third
  Named-check_third a root second third named = elim (Bool-cases (third == "")) [
    | inl empty ↦ rw empty
    | inr there ↦
        let n = named (λ q. ground (arith, there, q, same "")) in
        let r = n.resource in
        let c = n.collection in
        let p = n.part in
        elim (Bool-cases (root == "req")) [
          | inl req ↦ elim (Bool-cases (second == "resource")) [
            | inl one ↦ ground (
              arith,
              there,
              req,
              one,
              r (eq_of_== root "req" req) (eq_of_== second "resource" one),
            )
            | inr not_one ↦ elim (Bool-cases (second == "resources")) [
              | inl many ↦ ground (
                arith,
                there,
                req,
                not_one,
                many,
                c (eq_of_== root "req" req) (eq_of_== second "resources" many),
              )
              | inr not_many ↦ ground (
                arith,
                there,
                not_one,
                not_many,
                eq_of_== root "req" req,
                eq_of_== root "self",
                self_req,
              )
            ]
          ]
          | inr other ↦ elim (Bool-cases (root == "self")) [
            | inl self ↦ elim (Bool-cases (second == "each")) [
              | inl each ↦ ground (
                arith,
                there,
                other,
                self,
                each,
                p (eq_of_== root "self" self) (eq_of_== second "each" each),
              )
              | inr not_each ↦ ground (arith, there, other, not_each)
            ]
            | inr not_self ↦ ground (arith, there, other, not_self)
          ]
        ]
  ]

  Named-third_step :
      {V : Type 0} (a : Names) (root second : String) (rest : List (Traverser V))
      → ((third : String) (more : List (Traverser V))
          → rest ≡ attr third ∷ more
          → third ≢ ""
          → Named a root second third)
      → check_third a root second (third_step rest) ≡ []
  unfolding third_step
  Named-third_step a root second (attr third ∷ more) named =
      Named-check_third a root second third (λ there. named third more refl there)
  Named-third_step a root second [] named =
      Named-check_third a root second "" (λ there. absurd (there refl))
  Named-third_step a root second (index key ∷ more) named =
      Named-check_third a root second "" (λ there. absurd (there refl))
  Named-third_step a root second (splat ∷ more) named =
      Named-check_third a root second "" (λ there. absurd (there refl))

  module _ {V : Type 0} (a : Names) (ctx : Ctx V) (table : String → Dict String V) where
    clean-Resolves :
        (text root : String) (steps : List (Traverser V))
        → has_errors (check_root a ctx table text root steps) ≡ false
        → Resolves a ctx table root steps
    unfolding check_root check_member check_each check_local
    clean-Resolves text root steps h = elim (Bool-cases (root == "req" || root == "self")) [
      | inl special ↦ of_member steps special (ground (arith, special, h))
      | inr plain ↦ elim (Bool-cases (root == "each")) [
        | inl each ↦ of_each steps each (ground (arith, plain, each, h))
        | inr other ↦ local root steps (ground (arith, plain, other)) (
            has_errors-if (has_variable ctx root) "invalid local variable reference" (root ∷ [])
              (ground (arith, plain, other, h)))
      ]
    ]
      where
        of_member :
            (steps : List (Traverser V))
            → (root == "req" || root == "self") ≡ true
            → has_errors (check_member a (table root) text root steps) ≡ false
            → Resolves a ctx table root steps
        of_member [] special h = whole root (ground (arith, special))
        of_member (attr second ∷ rest) special h =
            elim (Bool-cases (is_some (lookup second (table root)))) [
              | inl known ↦
                  member root second rest (ground (arith, special)) known λ third more q there.
                    let step : third_step rest ≡ third = rw (q, third_step) refl in
                    check_third-Named a root second third (rw (← step) (ground (arith, known, h)))
                      there
              | inr unknown ↦ absurd (
                  ground (
                    arith,
                    unknown,
                    h,
                    has_errors-to_error_diag H (report "no such attribute" (second ∷ text ∷ [])),
                  ))
            ]
        of_member (index key ∷ rest) special h =
            absurd
              (cc (h, has_errors-to_error_diag H (report "invalid index expression" (text ∷ []))))
        of_member (splat ∷ rest) special h =
            absurd
              (cc (h, has_errors-to_error_diag H (report "invalid index expression" (text ∷ []))))

        of_each :
            (steps : List (Traverser V))
            → (root == "each") ≡ true
            → has_errors (check_each ctx text steps) ≡ false
            → Resolves a ctx table root steps
        of_each [] each h = whole root (ground (arith, each))
        of_each (attr second ∷ rest) each h =
            elim (Bool-cases (second == "key" || second == "value")) [
              | inl known ↦
                  part_of_each root second rest (eq_of_== root "each" each) (ground (arith, known))
                    (has_errors-if (has_variable ctx "each") "invalid local variable reference"
                      ("each" ∷ []) (ground (arith, known, h)))
              | inr unknown ↦ absurd (
                  ground (
                    arith,
                    unknown,
                    h,
                    has_errors-to_error_diag H (
                        report "invalid each reference, must be one of 'key' or 'value'"
                          (second ∷ [])),
                  ))
            ]
        of_each (index key ∷ rest) each h =
            absurd
              (cc (h, has_errors-to_error_diag H (report "invalid index expression" (text ∷ []))))
        of_each (splat ∷ rest) each h =
            absurd
              (cc (h, has_errors-to_error_diag H (report "invalid index expression" (text ∷ []))))

    Resolves-clean :
        (text root : String) (steps : List (Traverser V))
        → Resolves a ctx table root steps
        → check_root a ctx table text root steps ≡ []
    unfolding check_root check_member check_each check_local
    Resolves-clean text root _ (whole _ c) = ground (arith, c)
    Resolves-clean text root _ (member _ second rest c known named) =
        ground (arith, c, known, Named-third_step a root second rest named)
    Resolves-clean text root _ (part_of_each _ second rest q c there) =
        let (not_req, not_self) = each_special in
        rw q (ground (arith, not_req, not_self, same "each", c, there))
    Resolves-clean text root steps (local _ _ c there) = ground (arith, c, there)

module _ (H : Hcl) (C : Cty H) (S : Syntax H) where
  open H use {Value, has_errors}
  open C use {is_string, as_string}

  -- A step of a traversal, and how it is read: an index by an identifier for an attribute.
  pub data ReadAs : Traverser Value → Traverser Value → Type 0 where
    attribute : (name : String) → ReadAs (attr name) (attr name)
    identifier :
        (key : Value)
        → is_string key ≡ true
        → is_identifier (as_string key) ≡ true
        → ReadAs (index key) (attr (as_string key))
    other_index :
        (key : Value)
        → (is_string key && is_identifier (as_string key)) ≡ false
        → ReadAs (index key) (index key)

  abbrev pub AllReadAs : List (Traverser Value) → List (Traverser Value) → Type 0
  AllReadAs [] [] = Unit {0}
  AllReadAs (t ∷ ts) (u ∷ us) = ReadAs t u × AllReadAs ts us
  AllReadAs _ _ = ⊥

  abbrev pub NotSplat : Traverser Value → Type 0
  NotSplat splat = ⊥
  NotSplat _ = Unit {0}

  normalize_step-ReadAs :
      (t u : Traverser Value) → normalize_step is_string as_string t ≡ some u → ReadAs t u
  unfolding normalize_step
  normalize_step-ReadAs (attr name) u h =
      let same : attr name ≡ u = ground (arith, h) in rw (← same) (attribute name)
  normalize_step-ReadAs (index key) u h =
      elim (Bool-cases (is_string key && is_identifier (as_string key))) [
        | inl is ↦
            let same : attr (as_string key) ≡ u = ground (arith, is, h) in
            rw (← same) (identifier key (ground (arith, is)) (ground (arith, is)))
        | inr other ↦
            let same : index key ≡ u = ground (arith, other, h) in
            rw (← same) (other_index key other)
      ]
  normalize_step-ReadAs splat u h = absurd (ground (arith, h))

  normalize_traversal-AllReadAs :
      (ts us : List (Traverser Value))
      → normalize_traversal is_string as_string ts ≡ some us
      → AllReadAs ts us
  unfolding normalize_traversal
  normalize_traversal-AllReadAs [] us h = let same : [] ≡ us = ground (arith, h) in rw (← same) tt
  normalize_traversal-AllReadAs (t ∷ ts) us h =
      elim (Option-cases (normalize_step is_string as_string t)) [
        | inl stuck ↦ absurd (ground (arith, stuck, h))
        | inr (u, here) ↦ elim (Option-cases (normalize_traversal is_string as_string ts)) [
          | inl stuck ↦ absurd (ground (arith, here, stuck, h))
          | inr (more, later) ↦
              let same : u ∷ more ≡ us = ground (arith, here, later, h) in
              rw (← same)
                (normalize_step-ReadAs t u here, normalize_traversal-AllReadAs ts more later)
        ]
      ]

  normalize_step-some :
      (t : Traverser Value)
      → NotSplat t
      → (u : Traverser Value) × (normalize_step is_string as_string t ≡ some u)
  unfolding normalize_step
  normalize_step-some (attr name) h = (attr name, refl)
  normalize_step-some (index key) h =
      elim (Bool-cases (is_string key && is_identifier (as_string key))) [
        | inl is ↦ (attr (as_string key), rw is refl)
        | inr other ↦ (index key, rw other refl)
      ]
  normalize_step-some splat h = elim h [ ]

  normalize_traversal-some :
      (ts : List (Traverser Value))
      → All NotSplat ts
      → (us : List (Traverser Value)) × (normalize_traversal is_string as_string ts ≡ some us)
  unfolding normalize_traversal
  normalize_traversal-some [] h = ([], refl)
  normalize_traversal-some (t ∷ ts) (here, rest) =
      let (u, step) = normalize_step-some t here in
      let (us, later) = normalize_traversal-some ts rest in (u ∷ us, ground (arith, step, later))

  -- checkReferences returns for every traversal without a splat, and reports no error exactly if
  -- the traversal, with its indexes by identifiers taken for attributes, refers to what there is:
  -- a known attribute of `req` or `self`, and the resource or collection that it names; a part of
  -- an iteration; or a variable of the context.
  pub check_references-Resolves :
      (a : Names) (ctx : Ctx Value) (tables : String → Dict String Value) (t : Traversal Value)
      → All NotSplat t.steps
      → (ds : Diags) × (steps : List (Traverser Value)) × (check_references H C S a ctx tables t
          ≡ some ds)
        × AllReadAs t.steps steps
        × ((has_errors ds ≡ false) ↔ Resolves a ctx tables t.root steps)
  unfolding check_references
  check_references-Resolves a ctx tables t plain =
      let (steps, normal) = normalize_traversal-some t.steps plain in
      (
        check_root a ctx tables (S.source_text t) t.root steps,
        steps,
        ground (arith, normal),
        normalize_traversal-AllReadAs t.steps steps normal,
        (
          λ clean. clean-Resolves H a ctx tables (S.source_text t) t.root steps clean,
          λ good.
              rw (Resolves-clean H a ctx tables (S.source_text t) t.root steps good)
                (has_errors-nil H),
        ),
      )

  -- What the check of a traversal without errors gives.
  abbrev pub Good : Names → Ctx Value → (String → Dict String Value) → Traversal Value → Type 0
  Good a ctx tables t =
      (steps : List (Traverser Value)) × AllReadAs t.steps steps
      × Resolves a ctx tables t.root steps

  pub clean-Good :
      (a : Names) (ctx : Ctx Value) (tables : String → Dict String Value) (t : Traversal Value)
      (ds : Diags)
      → check_references H C S a ctx tables t ≡ some ds
      → has_errors ds ≡ false
      → Good a ctx tables t
  unfolding check_references
  clean-Good a ctx tables t ds ran clean =
      elim (Option-cases (normalize_traversal is_string as_string t.steps)) [
        | inl stuck ↦ absurd (ground (arith, stuck, ran))
        | inr (steps, normal) ↦
            let same_diags : check_root a ctx tables (S.source_text t) t.root steps ≡ ds =
              ground (arith, normal, ran) in
            (
              steps,
              normalize_traversal-AllReadAs t.steps steps normal,
              clean-Resolves H a ctx tables (S.source_text t) t.root steps (rw same_diags clean),
            )
      ]
