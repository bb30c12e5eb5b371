-- ===== src/Evaluator/Analyzer/Enough.antt =====
-- The fuel of analyzeContent, checkFunctionRefs and doAnalyze of
-- function/internal/evaluator/analyze.go.
use function_hcl.Base.{
  ℕ, zero, suc, ◌<◌, ◌≤◌, ◌≡◌, refl, Option-cases, Bool-cases, inl, inr, ◌||◌, Option, none, some,
  List, [], ◌∷◌, ◌++◌, lookup, ◌==◌, string_eq, All, All-map, arith,
}
use function_hcl.Hcl.{Hcl, Ctx, Block, Diags, ok, err}
use function_hcl.Hcl.Traversal.{Syntax}
use function_hcl.Evaluator.{Cty, Content, new_evaluator}
use function_hcl.Evaluator.Schemas.{Schema, schemas_by_block_type, top_level_schema}
use function_hcl.Evaluator.Variables.{Wire, make_vars}
use function_hcl.Evaluator.Run.{merge_bodies, make_content}
use function_hcl.Evaluator.Analyzer.{Names, new_analyzer, check_bodies, check_structure}
use function_hcl.Evaluator.Analyzer.Fuel.{check_structure-agree}
use function_hcl.Evaluator.Analyzer.References.{
  Header, header, enter_block, iterator_context, requirement_diags, check_attributes,
  analyze_blocks, analyze_content,
}
use function_hcl.Evaluator.Analyzer.Bodies.{
  empty_request, no_header, check_attribute_refs, check_block_refs, check_function_refs,
  analyze_loaded, analyze_checked, analyze_bodies, do_analyze,
}
use function_hcl.Functions.Load.{Bare, Functions, process_functions}

All-append : {A : Type 0} (P : A → Type 0) (xs ys : List A) → All P xs → All P ys → All P (xs ++ ys)
All-append P [] ys h k = k
All-append P (x ∷ xs) ys h k = (h.0, All-append P xs ys h.1 k)

module _ (H : Hcl) (C : Cty H) (S : Syntax H) where
  open H use {Expr, Value, Body, just_attributes, extend, has_errors}
  open C use {content, depth, content_depth}

  abbrev Below : ℕ → List (Block Body) → Type 0
  Below n blocks = All (λ b. depth b.body < n) blocks

  analyze_blocks-agree :
      (f g : Header → Content Expr Body → Option Diags) (n : ℕ)
      → ((p : Header) (b : Body) (s : Schema)
          → depth b < n
          → f p (content b s).0 ≡ g p (content b s).0)
      → (blocks : List (Block Body)) (ret : Diags) → Below n blocks
      → analyze_blocks H C S f blocks ret ≡ analyze_blocks H C S g blocks ret
  unfolding analyze_blocks
  analyze_blocks-agree f g n same [] ret h = refl
  analyze_blocks-agree f g n same (b ∷ blocks) ret (lower, rest) =
      let later : (r : Diags) → analyze_blocks H C S f blocks r ≡ analyze_blocks H C S g blocks r =
        λ r. analyze_blocks-agree f g n same blocks r rest in
      elim (Bool-cases (b.type == "locals" || b.type == "function")) [
        | inl skipped ↦ ground (arith, skipped, later ret)
        | inr visited ↦ elim (Option-cases (lookup b.type schemas_by_block_type)) [
          | inl stuck ↦ ground (arith, visited, stuck)
          | inr (s, known) ↦ elim (Option-cases (f (header b) (content b.body s).0)) [
            | inl stuck ↦ ground (arith, visited, known, stuck, same (header b) b.body s lower)
            | inr (ds, ran) ↦
                ground (
                  arith,
                  visited,
                  known,
                  ran,
                  same (header b) b.body s lower,
                  later (extend ret ds),
                )
          ]
        ]
      ]

  analyze_content-agree :
      (a : Names) (f g n : ℕ) (ctx : Ctx Value) (parent : Header) (c : Content Expr Body)
      → Below n c.blocks
      → n < f
      → n < g
      → analyze_content H C S a f ctx parent c ≡ analyze_content H C S a g ctx parent c
  unfolding analyze_content
  analyze_content-agree a zero g n ctx parent c h hf hg = absurd (omega arith)
  analyze_content-agree a (suc f) zero n ctx parent c h hf hg = absurd (omega arith)
  analyze_content-agree a (suc f) (suc g) n ctx parent c h hf hg =
      let same : (ctx' : Ctx Value) (ret : Diags)
          → analyze_blocks H C S (analyze_content H C S a f ctx') c.blocks ret
            ≡ analyze_blocks H C S (analyze_content H C S a g ctx') c.blocks ret =
        λ ctx' ret.
          analyze_blocks-agree (analyze_content H C S a f ctx') (analyze_content H C S a g ctx') n
            (λ p b s lower.
              analyze_content-agree a f g (depth b) ctx' p (content b s).0 (content_depth b s)
                (omega arith) (omega arith))
            c.blocks ret h in
      elim (Option-cases (requirement_diags H C S parent c)) [
        | inl stuck ↦ ground (arith, stuck)
        | inr (d ∷ ds, bad) ↦ ground (arith, bad)
        | inr ([], fine) ↦ elim (Option-cases (enter_block H C S parent.type ctx c.blocks)) [
          | inl stuck ↦ ground (arith, fine, stuck)
          | inr (err ds, bad) ↦ ground (arith, fine, bad)
          | inr (ok (none, exprs), bad) ↦ ground (arith, fine, bad)
          | inr (ok (some child, exprs), made) ↦
              elim (Option-cases (check_attributes H C S a child parent.type c exprs)) [
                | inl stuck ↦ ground (arith, fine, made, stuck)
                | inr (ret, checked) ↦ ground (
                  arith,
                  fine,
                  made,
                  checked,
                  same (iterator_context H C S parent.type child) ret,
                )
              ]
        ]
      ]

  check_block_refs-agree :
      (f g : Content Expr Body → Option Diags) (fns : Functions H C S) (n : ℕ)
      → ((b : Body) (s : Schema) → depth b < n → f (content b s).0 ≡ g (content b s).0)
      → (blocks : List (Block Body)) (ret : Diags) → Below n blocks
      → check_block_refs H C S f fns blocks ret ≡ check_block_refs H C S g fns blocks ret
  unfolding check_block_refs
  check_block_refs-agree f g fns n same [] ret h = refl
  check_block_refs-agree f g fns n same (b ∷ blocks) ret (lower, rest) =
      let later : (r : Diags)
          → check_block_refs H C S f fns blocks r ≡ check_block_refs H C S g fns blocks r =
        λ r. check_block_refs-agree f g fns n same blocks r rest in
      elim (Bool-cases (b.type == "locals")) [
        | inl is ↦
            elim (Option-cases (check_attribute_refs H C S fns (just_attributes b.body).0 ret)) [
              | inl stuck ↦ ground (arith, is, stuck)
              | inr (ret', checked) ↦ ground (arith, is, checked, later ret')
            ]
        | inr other ↦ elim (Option-cases (lookup b.type schemas_by_block_type)) [
          | inl stuck ↦ ground (arith, other, stuck)
          | inr (s, known) ↦ elim (Option-cases (f (content b.body s).0)) [
            | inl stuck ↦ ground (arith, other, known, stuck, same b.body s lower)
            | inr (ds, ran) ↦
                ground (arith, other, known, ran, same b.body s lower, later (extend ret ds))
          ]
        ]
      ]

  check_function_refs-agree :
      (fns : Functions H C S) (f g n : ℕ) (c : Content Expr Body)
      → Below n c.blocks
      → n < f
      → n < g
      → check_function_refs H C S fns f c ≡ check_function_refs H C S fns g c
  unfolding check_function_refs
  check_function_refs-agree fns zero g n c h hf hg = absurd (omega arith)
  check_function_refs-agree fns (suc f) zero n c h hf hg = absurd (omega arith)
  check_function_refs-agree fns (suc f) (suc g) n c h hf hg =
      elim (Option-cases (check_attribute_refs H C S fns c.attributes [])) [
        | inl stuck ↦ ground (arith, stuck)
        | inr (ret, checked) ↦
            let same =
              check_block_refs-agree (check_function_refs H C S fns f)
                (check_function_refs H C S fns g) fns n
                (λ b s lower.
                  check_function_refs-agree fns f g (depth b) (content b s).0 (content_depth b s)
                    (omega arith) (omega arith))
                c.blocks ret h in
            ground (arith, checked, same)
      ]

  merge_bodies-Below :
      (n : ℕ) (bodies : List Body) (c : Content Expr Body) (ds : Diags)
      → All (λ b. depth b ≤ n) bodies
      → Below n c.blocks
      → Below n (merge_bodies H C bodies c ds).0.blocks
  unfolding merge_bodies
  merge_bodies-Below n [] c ds h k = k
  merge_bodies-Below n (body ∷ bodies) c ds (lower, rest) k =
      let (more, diags) = content body top_level_schema in
      merge_bodies-Below n bodies (record c { blocks = c.blocks ++ more.blocks }) (extend ds diags)
        rest
        (All-append (λ b. depth b.body < n) c.blocks more.blocks k
          (All-map (λ b. depth b.body < depth body) (λ b. depth b.body < n)
            (λ b p. omega (arith, lower)) more.blocks (content_depth body top_level_schema)))

  make_content-Below :
      (n : ℕ) (bodies : List Body) (c : Content Expr Body) (ds : Diags)
      → All (λ b. depth b ≤ n) bodies
      → make_content H C bodies ≡ (some c, ds)
      → Below n c.blocks
  unfolding make_content
  make_content-Below n bodies c ds h made =
      let start : Content Expr Body = record { attributes = []; blocks = [] } in
      let merged = merge_bodies H C bodies start [] in
      elim (Bool-cases (has_errors merged.1)) [
        | inl bad ↦ absurd (ground (arith, bad, made))
        | inr good ↦
            let same : merged.0 ≡ c = ground (arith, good, made) in
            rw (← same) (merge_bodies-Below n bodies start [] h tt)
      ]

  check_bodies-agree :
      (f g n : ℕ) (diags : Diags) (bodies : List Body) (a : Names)
      → All (λ b. depth b ≤ n) bodies
      → n < f
      → n < g
      → check_bodies H C f diags bodies a ≡ check_bodies H C g diags bodies a
  unfolding check_bodies
  check_bodies-agree f g n diags [] a h hf hg = refl
  check_bodies-agree f g n diags (body ∷ bodies) a (lower, rest) hf hg =
      let first =
        check_structure-agree H C f g body (some top_level_schema) a (omega (arith, lower, hf))
          (omega (arith, lower, hg)) in
      elim (Option-cases (check_structure H C f body (some top_level_schema) a)) [
        | inl stuck ↦ ground (arith, stuck, first)
        | inr ((ds, a1), ran) ↦
            ground
              (arith, ran, first, check_bodies-agree f g n (extend diags ds) bodies a1 rest hf hg)
      ]

  module _ (W : Wire H) (B : Bare H) where
    analyze_loaded-agree :
        (f g n : ℕ) (names : Names) (fns : Functions H C S) (c : Content Expr Body)
        → Below n c.blocks
        → n < f
        → n < g
        → analyze_loaded H C S W B f names fns c ≡ analyze_loaded H C S W B g names fns c
    unfolding analyze_loaded
    analyze_loaded-agree f g n names fns c h hf hg =
        elim (Option-cases (make_vars H C W ([] ∷ []) empty_request new_evaluator)) [
          | inl stuck ↦ ground (arith, stuck)
          | inr ((none, e), vars) ↦ ground (arith, vars)
          | inr ((some ctx, e), vars) ↦
              let inside = analyze_content-agree names f g n ctx no_header c h hf hg in
              let called = check_function_refs-agree fns f g n c h hf hg in
              elim (Option-cases (analyze_content H C S names f ctx no_header c)) [
                | inl stuck ↦ ground (arith, vars, stuck, inside)
                | inr (ret, ran) ↦ elim (Option-cases (check_function_refs H C S fns f c)) [
                  | inl stuck ↦ ground (arith, vars, ran, inside, stuck, called)
                  | inr (es, ran') ↦ ground (arith, vars, ran, inside, ran', called)
                ]
              ]
        ]

    analyze_checked-agree :
        (f g n : ℕ) (bodies : List Body) (names : Names) (diags : Diags)
        → All (λ b. depth b ≤ n) bodies
        → n < f
        → n < g
        → analyze_checked H C S W B f bodies names diags
          ≡ analyze_checked H C S W B g bodies names diags
    unfolding analyze_checked
    analyze_checked-agree f g n bodies names diags h hf hg =
        of_content (make_content H C bodies) refl
      where
        of_content :
            (m : Option (Content Expr Body) × Diags)
            → make_content H C bodies ≡ m
            → analyze_checked H C S W B f bodies names diags
              ≡ analyze_checked H C S W B g bodies names diags
        of_content (none, ds) q = ground (arith, q)
        of_content (some c, ds) q = elim (Option-cases (process_functions H C S B c)) [
          | inl stuck ↦ ground (arith, q, stuck)
          | inr ((none, ds'), read) ↦ ground (arith, q, read)
          | inr ((some fns, ds'), read) ↦ ground (
            arith,
            q,
            read,
            analyze_loaded-agree f g n names fns c (make_content-Below n bodies c ds h q) hf hg,
          )
        ]

    -- The analyzer goes no deeper than its bodies: any two amounts of fuel over the depths of all
    -- bodies give the same result.
    pub do_analyze-agree :
        (f g n : ℕ) (bodies : List Body)
        → All (λ b. depth b ≤ n) bodies
        → n < f
        → n < g
        → do_analyze H C S W B f bodies ≡ do_analyze H C S W B g bodies
    unfolding do_analyze analyze_bodies
    do_analyze-agree f g n bodies h hf hg =
        let first = check_bodies-agree f g n [] bodies new_analyzer h hf hg in
        elim (Option-cases (check_bodies H C f [] bodies new_analyzer)) [
          | inl stuck ↦ ground (arith, stuck, first)
          | inr ((diags, names), ran) ↦
              ground (arith, ran, first, analyze_checked-agree f g n bodies names diags h hf hg)
        ]
