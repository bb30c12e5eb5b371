-- ===== src/Evaluator/Steps/Requirements.antt =====
-- The frame of the handlers of requirements.go.
use function_hcl.Base.{String, ◌≡◌, refl, string_eq}
use function_hcl.Hcl.{Hcl, Ctx, Block, Diags}
use function_hcl.Evaluator.{Cty, Content}
use function_hcl.Evaluator.Requirements.{
  Selection, Select, no_select, one_select, many_selects, find_select, select_block_to_selection,
  check_requirement_block, selection_to_selector, record_selector, evaluate_requirement,
  process_requirement,
}
use function_hcl.Evaluator.Frame.{
  Known, Grows, Grows-pure, Grows-elsewhere, Grows-bind, Grows-if, Grows-then,
}
use function_hcl.Evaluator.Steps.{
  Steps, attribute-Grows, process_locals-Grows, evaluate_condition-Grows, first_label-Grows,
}

-- What the search for the select block yields, with the equation.
data SelectCases {B : Type 0} (s : Select B) : Type 0 where
  is_none : s ≡ no_select → SelectCases s
  is_many : s ≡ many_selects → SelectCases s
  is_one : (b : Block B) → s ≡ one_select b → SelectCases s

Select-cases : {B : Type 0} (s : Select B) → SelectCases s
Select-cases no_select = is_none refl
Select-cases many_selects = is_many refl
Select-cases (one_select b) = is_one b refl

module _ (H : Hcl) (C : Cty H) {s : Known} where
  open H use {Expr, Value, Body, value, extend, has_errors}

  pub select_block_to_selection-Grows :
      (name : String) (block : Block Body) → Grows s s (select_block_to_selection H C name block)
  unfolding select_block_to_selection
  select_block_to_selection-Grows name block = search (Steps, attribute-Grows) depth 24

  pub check_requirement_block-Grows :
      (name : String) (body : Content Expr Body) → Grows s s (check_requirement_block H C name body)
  unfolding check_requirement_block
  check_requirement_block-Grows name body =
      elim (Select-cases (find_select no_select body.blocks)) [
        | is_none e ↦ rw (e, check_requirement_block) (Grows-pure _)
        | is_many e ↦ rw (e, check_requirement_block) (Grows-pure _)
        | is_one block e ↦
            rw (e, check_requirement_block)
              (search (Steps, select_block_to_selection-Grows) depth 14)
      ]

  pub selection_to_selector-Grows :
      (ctx : Ctx Value) (sel : Selection Expr) (name : String)
      → Grows s s (selection_to_selector H C ctx sel name)
  unfolding selection_to_selector
  selection_to_selector-Grows ctx sel name = search Steps depth 14

  pub record_selector-Grows :
      (ctx : Ctx Value) (name : String) (sel : Selection Expr) (diags : Diags)
      → Grows s s (record_selector H C ctx name sel diags)
  unfolding record_selector
  record_selector-Grows ctx name sel diags =
      Grows-bind (selection_to_selector-Grows ctx sel name) λ (selector, ds).
        Grows-if (has_errors ds) (Grows-pure _) (
          Grows-then (Grows-elsewhere _ (λ e. refl) (λ e. refl) (λ e. refl) (λ e. refl))
            (Grows-pure _))

  pub process_requirement-Grows :
      (ctx : Ctx Value) (block : Block Body) → Grows s s (process_requirement H C ctx block)
  unfolding process_requirement evaluate_requirement
  process_requirement-Grows ctx block =
      search
        (
          Steps, first_label-Grows, check_requirement_block-Grows, process_locals-Grows,
          evaluate_condition-Grows, record_selector-Grows,
        )
        depth 30
