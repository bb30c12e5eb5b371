-- ===== src/Evaluator/Common.antt =====
-- What the handlers of all blocks share: eval.go (evaluateCondition, discard, messagesFromDiags),
-- resources.go (processLocals), utils.go (extractSymbolTable, createSelfChildContext).
use function_hcl.Base.{
  String, Bool, true, false, not, ◌||◌, Option, none, some, List, [], ◌∷◌, Dict, lookup, insert,
  if◌then◌else◌, string_eq,
}
use function_hcl.Hcl.{Hcl, Ctx, Block, Diags, report, to_error_diag, downgrade_diags}
use function_hcl.Locals.{process}
use function_hcl.Evaluator.{
  Cty, Content, Handler, pure, panic, present, ◌>>◌, DiscardType, user_condition, incomplete,
  discard,
}

module _ (H : Hcl) (C : Cty H) where
  open H use {Expr, Value, Body, value, extend, has_errors}
  open C use {
    is_null, as_string, is_wholly_known, is_bool, is_true, has_value_map, as_value_map, object_val,
    message,
  }

  -- `diags.Append(&hcl.Diagnostic{Severity: hcl.DiagError, ...})`
  unfoldable pub append_error : Diags → String → List String → Diags
  append_error diags what args = extend diags (to_error_diag (report what args))

  -- messagesFromDiags
  unfoldable pub messages_from_diags : Diags → List String
  messages_from_diags [] = []
  messages_from_diags (d ∷ ds) = message d ∷ messages_from_diags ds

  -- processLocals
  unfoldable pub process_locals :
      Ctx Value → Content Expr Body → Handler Value (Option (Ctx Value) × Diags)
  process_locals ctx content e = elim (process H ctx content.blocks) [
    | none ↦ none
    | some r ↦ some (r, e)
  ]

  -- The attribute of a name, for code that uses it without a check.
  unfoldable pub attribute : Content Expr Body → String → Handler Value Expr
  attribute content name = present (lookup name content.attributes)

  -- `v.AsString()` for a string, which panics if it is null or unknown.
  unfoldable pub string_of : Value → Handler Value String
  string_of v = if is_null v || not (is_wholly_known v) then panic else pure (as_string v)

  -- `block.Labels[0]`
  unfoldable pub first_label : Block Body → Handler Value String
  first_label block = elim block.labels [ [] ↦ present none | label ∷ labels ↦ pure label ]

  -- evaluateCondition. In the first branch `diags` and the diagnostics that DowngradeDiags changes
  -- are the same objects, so both copies are downgraded.
  unfoldable pub evaluate_condition :
      Ctx Value → Content Expr Body → DiscardType → String → Handler Value (Bool × Diags)
  unfolding messages_from_diags append_error
  evaluate_condition ctx content et name = elim (lookup "condition" content.attributes) [
    | none ↦ pure (true, [])
    | some expr ↦
        let (val, diags) = value expr ctx in
        if has_errors diags || not (is_wholly_known val)
        then (discard (record {
          type = et;
          reason = incomplete;
          name = name;
          context = messages_from_diags diags;
        })
            >> pure (false, extend (downgrade_diags diags) (downgrade_diags diags)))
        else if not (is_bool val)
        then pure (false, append_error diags "got type, expected bool" [])
        else if not (is_true val)
        then (discard (record { type = et; reason = user_condition; name = name; context = [] })
            >> pure (false, diags))
        else pure (true, diags)
  ]

  -- `symbols.AsValueMap()`: none where it panics, and some none for the nil map of an empty object.
  unfoldable pub symbol_map : Value → Option (Option (Dict String Value))
  symbol_map v = if not (has_value_map v) then none else elim (as_value_map v) [
    | [] ↦ some none
    | entry ∷ entries ↦ some (some (entry ∷ entries))
  ]

  -- extractSymbolTable
  unfoldable pub extract_symbol_table : Ctx Value → String → Option (Option (Dict String Value))
  unfolding symbol_map
  extract_symbol_table [] namespace = some (some [])
  extract_symbol_table (vars ∷ parent) namespace = elim (lookup namespace vars) [
    | some symbols ↦ symbol_map symbols
    | none ↦ extract_symbol_table parent namespace
  ]

  -- The loop of createSelfChildContext.
  unfoldable pub insert_all : Dict String Value → Dict String Value → Dict String Value
  insert_all table [] = table
  insert_all table ((k, v) ∷ vars) = insert_all (insert k v table) vars

  -- The map that createSelfChildContext makes: none is a panic of extractSymbolTable, or of a write
  -- to the nil map.
  unfoldable pub self_table :
      Option (Option (Dict String Value)) → Dict String Value → Option (Dict String Value)
  unfolding insert_all
  self_table none vars = none
  self_table (some (some table)) vars = some (insert_all table vars)
  self_table (some none) [] = some []
  self_table (some none) (var ∷ vars) = none

  -- createSelfChildContext
  unfoldable pub create_self_child_context : Ctx Value → Dict String Value → Option (Ctx Value)
  unfolding self_table extract_symbol_table
  create_self_child_context ctx vars = elim (self_table (extract_symbol_table ctx "self") vars) [
    | none ↦ none
    | some table ↦ some ((("self", object_val table) ∷ []) ∷ ctx)
  ]
