-- ===== src/Evaluator/Analyzer/Fuel.antt =====
-- The fuel of checkStructure of function/internal/evaluator/analyze.go.
use function_hcl.Base.{
  ℕ, zero, suc, ◌<◌, ◌≡◌, refl, Option-cases, inl, inr, Option, none, some, List, [], ◌∷◌, lookup,
  string_eq, All, arith,
}
use function_hcl.Hcl.{Hcl, Block, Diags}
use function_hcl.Evaluator.{Cty}
use function_hcl.Evaluator.Schemas.{Schema, schemas_by_block_type}
use function_hcl.Evaluator.Analyzer.{Names, declare_block, check_blocks, check_structure}

module _ (H : Hcl) (C : Cty H) where
  open H use {Body, just_attributes, extend, has_errors}
  open C use {content, depth, content_depth}

  check_blocks-agree :
      (f g : Body → Option Schema → Names → Option (Diags × Names)) (n : ℕ)
      → ((body : Body) (s : Option Schema) (a : Names) → depth body < n → f body s a ≡ g body s a)
      → (diags : Diags) (blocks : List (Block Body)) (a : Names)
      → All (λ b. depth b.body < n) blocks
      → check_blocks H C f diags blocks a ≡ check_blocks H C g diags blocks a
  unfolding check_blocks
  check_blocks-agree f g n same diags [] a h = refl
  check_blocks-agree f g n same diags (b ∷ blocks) a (lower, rest) =
      let nested : (a1 : Names)
          → f b.body (lookup b.type schemas_by_block_type) a1
            ≡ g b.body (lookup b.type schemas_by_block_type) a1 =
        λ a1. same b.body (lookup b.type schemas_by_block_type) a1 lower in
      let later : (ds : Diags) (a2 : Names)
          → check_blocks H C f ds blocks a2 ≡ check_blocks H C g ds blocks a2 =
        λ ds a2. check_blocks-agree f g n same ds blocks a2 rest in
      elim (Option-cases (declare_block b a)) [
        | inl stuck ↦ ground (arith, stuck)
        | inr ((ds1, a1), own) ↦
            elim (Option-cases (f b.body (lookup b.type schemas_by_block_type) a1)) [
              | inl stuck ↦ ground (arith, own, stuck, nested a1)
              | inr ((ds2, a2), ran) ↦
                  ground (arith, own, ran, nested a1, later (extend (extend diags ds1) ds2) a2)
            ]
      ]

  -- Two amounts of fuel over the depth of a body give the same run of checkStructure.
  pub check_structure-agree :
      (f g : ℕ) (body : Body) (s : Option Schema) (a : Names)
      → depth body < f
      → depth body < g
      → check_structure H C f body s a ≡ check_structure H C g body s a
  unfolding check_structure
  check_structure-agree zero g body s a hf hg = absurd (omega arith)
  check_structure-agree (suc f) zero body s a hf hg = absurd (omega arith)
  check_structure-agree (suc f) (suc g) body none a hf hg = refl
  check_structure-agree (suc f) (suc g) body (some s) a hf hg =
      let same : check_blocks H C (check_structure H C f) (content body s).1
            (content body s).0.blocks a
          ≡ check_blocks H C (check_structure H C g) (content body s).1 (content body s).0.blocks
              a =
        check_blocks-agree (check_structure H C f) (check_structure H C g) (depth body)
          (λ inner s' a' lower. check_structure-agree f g inner s' a' (omega arith) (omega arith))
          (content body s).1 (content body s).0.blocks a (content_depth body s) in
      simp (same)
