-- ===== src/Evaluator/Selectors.antt =====
-- What becomes of a requirement: the end of processRequirement of requirements.go.
use function_hcl.Base.{
  String, ◌≡◌, refl, sym, ap, ◌∙◌, Bool, true, false, not, ◌&&◌, Option, none, some, List, [], ◌∷◌,
  ◌++◌, arith, Bool-cases, insert, is_some, ◌⊎◌, inl, inr, string_eq,
}
use function_hcl.Hcl.{Hcl, Ctx, Diags}
use function_hcl.Evaluator.{Cty, Evaluator, Selector, DiscardItem, requirement, incomplete}
use function_hcl.Evaluator.Requirements.{
  Selection, build_selector, selection_to_selector, record_selector,
}
use function_hcl.Evaluator.Yields.{
  Yields, Yields-pure, Yields-if, Yields-bind, Yields-modify, Yields-discard, Yields-use,
}
use mathlib.Core.List.{append-nil}

module _ (H : Hcl) (C : Cty H) where
  open H use {Expr, Value, extend, has_errors}

  -- What is discarded for a requirement whose selector is nil without an error.
  abbrev pub waits : String → Option Selector → Bool → List DiscardItem
  waits name none false =
      record { type = requirement; reason = incomplete; name = name; context = [] } ∷ []
  waits name _ _ = []

  waits-true :
      (name : String) (out : Option Selector) (diags : Diags)
      → (not (is_some out) && not (has_errors diags)) ≡ true
      → record { type = requirement; reason = incomplete; name = name; context = [] } ∷ []
        ≡ waits name out (has_errors diags)
  waits-true name none diags h = elim (Bool-cases (has_errors diags)) [
    | inl bad ↦ absurd (ground (arith, bad, h))
    | inr good ↦ rw good refl
  ]
  waits-true name (some s) diags h = absurd (ground (arith, h))

  waits-false :
      (name : String) (out : Option Selector) (diags : Diags)
      → (not (is_some out) && not (has_errors diags)) ≡ false
      → [] ≡ waits name out (has_errors diags)
  waits-false name none diags h = elim (Bool-cases (has_errors diags)) [
    | inl bad ↦ rw bad refl
    | inr good ↦ absurd (ground (arith, good, h))
  ]
  waits-false name (some s) diags h = refl

  selection_to_selector_lem :
      (ctx : Ctx Value) (sel : Selection Expr) (name : String) (e : Evaluator Value)
      → Yields e (selection_to_selector H C ctx sel name) (λ r e'.
        (build_selector H C ctx sel name ≡ some r)
        × (e'.requirements ≡ e.requirements)
        × (e'.discards ≡ e.discards ++ waits name r.0 (has_errors r.1)))
  unfolding selection_to_selector
  selection_to_selector_lem ctx sel name e =
      Yields-use (build_selector H C ctx sel name) λ (out, diags) built.
        Yields-if (not (is_some out) && not (has_errors diags))
          (λ wait. Yields-discard _ (
            Yields-pure _ _
              (built, refl, ap (λ l. e.discards ++ l) (waits-true name out diags wait))))
          (λ stay. Yields-pure _ e (
            built,
            refl,
            sym (append-nil e.discards)
                ∙ ap (λ l. e.discards ++ l) (waits-false name out diags stay),
          ))

  -- The end of processRequirement, when it returns. If building the selector reports errors, it
  -- returns those and keeps the requirements. Without errors it records the selector under the
  -- name, also a nil one, for which, and only for which, it adds a discard.
  pub record_selector_lem :
      (ctx : Ctx Value) (name : String) (sel : Selection Expr) (cur_diags : Diags)
      (e e' : Evaluator Value) (diags : Diags)
      → record_selector H C ctx name sel cur_diags e ≡ some (diags, e')
      → (selector : Option Selector) × (ds : Diags) × (build_selector H C ctx sel name
          ≡ some (selector, ds))
        × (e'.discards ≡ e.discards ++ waits name selector (has_errors ds))
        × (((has_errors ds ≡ true) × (diags ≡ ds) × (e'.requirements ≡ e.requirements))
            ⊎ ((has_errors ds ≡ false)
                × (diags ≡ extend cur_diags ds)
                × (e'.requirements ≡ insert name selector e.requirements)))
  unfolding record_selector
  record_selector_lem ctx name sel cur_diags e e' diags h =
      let all : Yields e (record_selector H C ctx name sel cur_diags) (λ diags e'.
        (selector : Option Selector) × (ds : Diags) × (build_selector H C ctx sel name
          ≡ some (selector, ds))
        × (e'.discards ≡ e.discards ++ waits name selector (has_errors ds))
        × (((has_errors ds ≡ true) × (diags ≡ ds) × (e'.requirements ≡ e.requirements))
            ⊎ ((has_errors ds ≡ false)
                × (diags ≡ extend cur_diags ds)
                × (e'.requirements ≡ insert name selector e.requirements)))) =
        Yields-bind (selection_to_selector_lem ctx sel name e)
          λ (selector, ds) e1 (built, same, discards).
            Yields-if (has_errors ds)
              (λ bad. Yields-pure _ e1 (selector, ds, built, discards, inl (bad, refl, same)))
              (λ good. Yields-modify _ (
                Yields-pure _ _ (selector, ds, built, discards, inr (good, refl, rw same refl)))) in
      all.runs diags e' h
