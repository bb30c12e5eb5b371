-- ===== src/Evaluator/Requirements.antt =====
-- requirements.go: requests for extra resources.
use function_hcl.Base.{
  String, Bool, not, ◌&&◌, ◌||◌, Option, none, some, List, [], ◌∷◌, Dict, lookup, insert, is_some,
  ◌==◌, if◌then◌else◌, string_eq,
}
use function_hcl.Hcl.{
  Hcl, Ctx, Block, Diags, Result, ok, err, report, to_error_diag, downgrade_diags,
}
use function_hcl.Evaluator.{
  Cty, Content, Selector, Match, match_name, match_labels, Handler, pure, present, modify, gets,
  ◌>>=◌, ◌>>◌, requirement, incomplete, discard,
}
use function_hcl.Evaluator.Schemas.{requirement_schema, select_schema}
use function_hcl.Evaluator.Common.{process_locals, attribute, first_label, evaluate_condition}

-- selection: hasName with its expression, or the labels.
pub record Selection (E : Type 0) : Type 0 where
  pub api_version : E
  pub kind : E
  pub has_name : Bool
  pub match_expr : E

-- The select block of a requirement.
pub data Select (B : Type 0) : Type 0 where
  no_select : Select B
  one_select : Block B → Select B
  many_selects : Select B

unfoldable pub find_select : {B : Type 0} → Select B → List (Block B) → Select B
find_select s [] = s
find_select s (b ∷ blocks) =
    if b.type == "select"
    then elim s [ no_select ↦ find_select (one_select b) blocks | _ ↦ many_selects ]
    else find_select s blocks

module _ (H : Hcl) (C : Cty H) where
  open H use {Expr, Value, Body, value, extend, has_errors}
  open C use {
    is_null, is_wholly_known, is_string, is_object, as_string, as_value_map, has_value_map, content,
  }

  -- ToErrorDiag(summary, requirementName, range)
  unfoldable pub requirement_error : String → String → Diags
  requirement_error what name = to_error_diag (report what (name ∷ []))

  -- checkStringAttr, with the empty context.
  unfoldable pub check_string_attr : String → Expr → Diags → Diags
  unfolding requirement_error
  check_string_attr name expr diags =
      let v = (value expr ([] ∷ [])).0 in
      if is_wholly_known v && not (is_string v)
      then extend diags
          (requirement_error "attribute in requirement selector was not a string" name)
      else diags

  -- The loop of selectBlockToSelection over known labels.
  unfoldable pub check_labels : String → Dict String Value → Diags → Diags
  unfolding requirement_error
  check_labels name [] diags = diags
  check_labels name ((k, v) ∷ labels) diags = check_labels name labels (
      if is_string v
      then diags
      else extend diags (requirement_error "match label was not an string" name))

  unfoldable pub check_match_labels : String → Expr → Diags → Diags
  unfolding check_labels requirement_error
  check_match_labels name expr diags =
      let v = (value expr ([] ∷ [])).0 in
      if is_wholly_known v
      then (if is_object v
          then check_labels name (as_value_map v) diags
          else extend diags (requirement_error "matchLabels was not an object" name))
      else diags

  -- selectBlockToSelection: the selection, unless it is nil, and the diagnostics.
  unfoldable pub select_block_to_selection :
      String → Block Body → Handler Value (Option (Selection Expr) × Diags)
  unfolding requirement_error check_string_attr check_match_labels attribute
  select_block_to_selection name block = do
    let (body, diags) = content block.body select_schema
    let has_name = is_some (lookup "matchName" body.attributes)
    let has_labels = is_some (lookup "matchLabels" body.attributes)
    (if has_errors diags
        then pure (none, diags)
        else if has_name && has_labels
        then pure (none, requirement_error "selector has both matchName and matchLabels" name)
        else if not (has_name || has_labels)
        then pure (none, requirement_error "selector has neither matchName nor matchLabels" name)
        else do
          api_version ← attribute H C body "apiVersion"
          kind ← attribute H C body "kind"
          match_expr ← attribute H C body (if has_name then "matchName" else "matchLabels")
          let checked =
              check_string_attr name kind (check_string_attr name api_version (extend [] diags))
          pure (
            some (record {
              api_version = api_version;
              kind = kind;
              has_name = has_name;
              match_expr = match_expr;
            }),
            if has_name
                then check_string_attr name match_expr checked
                else check_match_labels name match_expr checked,
          ))

  -- checkRequirementBlock
  unfoldable pub check_requirement_block :
      String → Content Expr Body → Handler Value (Option (Selection Expr) × Diags)
  unfolding find_select requirement_error select_block_to_selection
  check_requirement_block name body = elim (find_select no_select body.blocks) [
    | many_selects ↦ pure (none, requirement_error "multiple select blocks in requirement" name)
    | no_select ↦ pure (none, requirement_error "no select block in requirement" name)
    | one_select block ↦ do
      (sel, diags) ← select_block_to_selection name block
      (if has_errors diags then pure (none, diags) else pure (sel, extend [] diags))
  ]

  -- A string of the selector: its value, `none` for nil where it is unknown, or an error.
  unfoldable pub selector_string : Ctx Value → Expr → String → Result (Option Value × Diags)
  unfolding requirement_error
  selector_string ctx expr name =
      let (v, diags) = value expr ctx in
      if not (is_wholly_known v)
      then ok (none, downgrade_diags diags)
      else if not (is_string v)
      then err (requirement_error "selector was not a string" name)
      else ok (some v, [])

  -- The loop over the labels of a selector: an error at the first that is not a string, or a panic
  -- at the first that is null.
  unfoldable pub label_strings :
      String → Dict String Value → Dict String String → Option (Result (Dict String String))
  unfolding requirement_error
  label_strings name [] labels = some (ok labels)
  label_strings name ((k, v) ∷ rest) labels =
      let more = label_strings name rest (insert k (as_string v) labels) in
      if not (is_string v)
      then some (err (requirement_error "match label was not an string" name))
      else if is_null v
      then none
      else more

  -- The `Match` of a selector, likewise.
  unfoldable pub selector_match :
      Ctx Value → Selection Expr → String → Option (Result (Option Match × Diags))
  unfolding requirement_error selector_string label_strings
  selector_match ctx s name =
      if s.has_name
      then elim (selector_string ctx s.match_expr name) [
        | err ds ↦ some (err ds)
        | ok (none, ds) ↦ some (ok (none, ds))
        | ok (some v, ds) ↦
            if is_null v then none else some (ok (some (match_name (as_string v)), []))
      ]
      else (let (v, diags) = value s.match_expr ctx in
          if not (is_wholly_known v)
          then some (ok (none, downgrade_diags diags))
          else if not (is_object v)
          then some (err (requirement_error "matchLabels was not an object" name))
          else if not (has_value_map v)
          then none
          else elim (label_strings name (as_value_map v) []) [
            | none ↦ none
            | some (err ds) ↦ some (err ds)
            | some (ok labels) ↦ some (ok (some (match_labels labels), []))
          ])

  -- The body of selectionToSelector, without its deferred function; `none` where a string is null,
  -- which panics.
  unfoldable pub build_selector :
      Ctx Value → Selection Expr → String → Option (Option Selector × Diags)
  unfolding selector_string selector_match
  build_selector ctx s name = elim (selector_string ctx s.api_version name) [
    | err ds ↦ some (none, ds)
    | ok (none, ds) ↦ some (none, ds)
    | ok (some api_version, _) ↦ elim (selector_string ctx s.kind name) [
      | err ds ↦ some (none, ds)
      | ok (none, ds) ↦ some (none, ds)
      | ok (some kind, _) ↦ elim (selector_match ctx s name) [
        | none ↦ none
        | some (err ds) ↦ some (none, ds)
        | some (ok (none, ds)) ↦ some (none, ds)
        | some (ok (some m, _)) ↦
            if is_null api_version || is_null kind
            then none
            else some (
              some (record {
                api_version = as_string api_version;
                kind = as_string kind;
                match = m;
              }),
              [],
            )
      ]
    ]
  ]

  -- selectionToSelector
  unfoldable pub selection_to_selector :
      Ctx Value → Selection Expr → String → Handler Value (Option Selector × Diags)
  unfolding build_selector
  selection_to_selector ctx s name = do
    (out, diags) ← present (build_selector ctx s name)
    (if not (is_some out) && not (has_errors diags)
        then (discard
              (record { type = requirement; reason = incomplete; name = name; context = [] })
            >> pure (out, diags))
        else pure (out, diags))

  -- The end of processRequirement: `sel` is tested where the comment means `selector`, and is not
  -- nil here.
  unfoldable pub record_selector : Ctx Value → String → Selection Expr → Diags → Handler Value Diags
  unfolding selection_to_selector
  record_selector ctx name sel cur_diags = do
    (selector, diags) ← selection_to_selector ctx sel name
    (if has_errors diags
        then pure diags
        else (modify (λ e. record e { requirements = insert name selector e.requirements })
            >> pure (extend cur_diags diags)))

  -- processRequirement, once its select block is checked.
  unfoldable pub evaluate_requirement :
      Ctx Value → String → Content Expr Body → Selection Expr → Diags → Handler Value Diags
  unfolding process_locals evaluate_condition record_selector
  evaluate_requirement ctx name body sel cur_diags = do
    (local_ctx, ds) ← process_locals H C ctx body
    (if has_errors ds then pure ds else do
      ctx' ← present local_ctx
      (cond, cond_ds) ← evaluate_condition H C ctx' body requirement name
      let all = extend (extend cur_diags ds) cond_ds
      (if has_errors cond_ds
          then pure cond_ds
          else if not cond
          then pure all
          else record_selector ctx' name sel all))

  -- processRequirement
  unfoldable pub process_requirement : Ctx Value → Block Body → Handler Value Diags
  unfolding first_label requirement_error check_requirement_block evaluate_requirement
  process_requirement ctx block = do
    name ← first_label H C block
    have ← gets (λ e. is_some (lookup name e.requirements))
    let (body, diags) = content block.body requirement_schema
    (if have
        then pure (requirement_error "multiple requirements with name" name)
        else if has_errors diags
        then pure diags
        else do
          (sel, sel_ds) ← check_requirement_block name body
          (if has_errors sel_ds
              then pure sel_ds
              else (present sel >>= λ s.
                  evaluate_requirement ctx name body s (extend (extend [] diags) sel_ds))))
