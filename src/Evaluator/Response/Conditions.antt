-- ===== src/Evaluator/Response/Conditions.antt =====
-- The conditions and results of a response.
use function_hcl.Base.{
  suc, ◌+◌, ◌≡◌, refl, sym, ◌∙◌, ap, String, Bool, true, false, not, ◌||◌, List, [], ◌∷◌, ◌++◌,
  length, length-append, ltb, ◌==◌, if◌then◌else◌, string_eq, nat_eq, arith, Bool-cases, inl, inr,
}
use function_hcl.Hcl.{Hcl, Severity, invalid, error, warning}
use function_hcl.Evaluator.{Cty, Evaluator, DiscardItem, DiscardType}
use function_hcl.Evaluator.Variables.{any}
use function_hcl.Evaluator.Response.{
  Ranges, Located, Response, Report, Condition, Status, condition_true, condition_false, count,
}
use function_hcl.Evaluator.Response.Build.{
  Answer, responded, failed, panicked, out_of_fuel, ◌>>=◌, by_user, result_of, discard_results,
  resolved_condition, to_response,
}
use function_hcl.Evaluator.Response.Diagnostics.{
  same_severity, is_warning, same_key, first_of_keys, summaries, summaries_condition,
  summaries_result, add_diagnostics_info,
}

-- A discard that the user did not ask for.
abbrev pub unasked : DiscardItem → Bool
unasked di = not (by_user di.reason)

-- False if there is something to report.
abbrev pub status_if : Bool → Status
status_if true = condition_false
status_if false = condition_true

-- The response has a warning for each discard that the user did not ask for, and one result more;
-- FullyResolved is false if there is such a discard, HclDiagnostics if a diagnostic is a warning.
pub record Reports {V Range : Type 0} (e : Evaluator V) (diags : List (Located Range))
    (r : Response (Located Range)) : Type 0 where
  pub resolved : Condition (Located Range)
  pub diagnosed : Condition (Located Range)
  pub both : r.conditions ≡ resolved ∷ diagnosed ∷ []
  pub resolved_type : resolved.type ≡ "FullyResolved"
  pub resolved_status : resolved.status ≡ status_if (any unasked e.discards)
  pub diagnosed_type : diagnosed.type ≡ "HclDiagnostics"
  pub diagnosed_status : diagnosed.status ≡ status_if (any is_warning diags)
  pub results : length r.results ≡ suc (count unasked e.discards)

responded_bind :
    {A B : Type 0} (m : Answer A) (f : A → Answer B) (b : B)
    → (m >>= f) ≡ responded b
    → (a : A) × (f a ≡ responded b)
unfolding ◌>>=◌
responded_bind (responded a) f b h = (a, h)
responded_bind (failed what path) f b h = absurd (cc)
responded_bind panicked f b h = absurd (cc)
responded_bind out_of_fuel f b h = absurd (cc)

responded_inj : {A : Type 0} (a b : A) → responded a ≡ responded b → a ≡ b
responded_inj a b h = cc

length-discard_results :
    {D : Type 0} (discards : List DiscardItem) (results : List (Report D))
    (shown : List (DiscardType × String))
    → length (discard_results discards results shown).0 ≡ length results + count unasked discards
unfolding discard_results
length-discard_results [] results shown = omega arith
length-discard_results (di ∷ discards) results shown = elim (Bool-cases (by_user di.reason)) [
  | inl asked ↦ ground (arith, asked, length-discard_results discards results shown)
  | inr kept ↦
      let more_shown = if ltb (length shown) 3 then shown ++ (di.type, di.name) ∷ [] else shown in
      ground (
        arith,
        kept,
        length-discard_results discards (results ++ result_of di ∷ []) more_shown,
        length-append results (result_of di ∷ []),
      )
]

any-count : {A : Type 0} (p : A → Bool) (xs : List A) → any p xs ≡ not (count p xs == 0)
any-count p [] = ground arith
any-count p (x ∷ xs) = ground (arith, any-count p xs)

any-append :
    {A : Type 0} (p : A → Bool) (xs ys : List A) → any p (xs ++ ys) ≡ (any p xs || any p ys)
any-append p [] ys = refl
any-append p (x ∷ xs) ys = ground (arith, any-append p xs ys)

resolved_condition-type :
    {D : Type 0} (results : List (Report D)) (shown : List (DiscardType × String))
    → (resolved_condition results shown).type ≡ "FullyResolved"
unfolding resolved_condition
resolved_condition-type results shown = refl

resolved_condition-status :
    {D : Type 0} (results : List (Report D)) (shown : List (DiscardType × String))
    → (resolved_condition results shown).status ≡ status_if (not (length results == 0))
unfolding resolved_condition
resolved_condition-status [] shown = ground arith
resolved_condition-status (r ∷ results) shown = ground arith

same_severity-warning :
    (a b : Severity) → same_severity a b ≡ true → same_severity a warning ≡ same_severity b warning
same_severity-warning invalid invalid h = refl
same_severity-warning error error h = refl
same_severity-warning warning warning h = refl
same_severity-warning a b h = absurd (cc)

summaries_condition_lem :
    {D : Type 0} (ds : List D)
    → ((summaries_condition ds).type ≡ "HclDiagnostics")
      × ((summaries_condition ds).status ≡ status_if (not (length ds == 0)))
unfolding summaries_condition
summaries_condition_lem [] = (refl, ground arith)
summaries_condition_lem (d ∷ ds) = (refl, ground arith)

module _ (R : Ranges) where
  open R use {Range, arrange, count-arrange}

  any-same_key :
      (d : Located Range) (found : List (Located Range))
      → any (same_key R d) found ≡ true
      → is_warning d ≡ true
      → any is_warning found ≡ true
  any-same_key d [] h w = absurd (cc)
  any-same_key d (f ∷ found) h w =
      elim (Bool-cases (same_severity d.diag.severity f.diag.severity)) [
        | inl same ↦ ground (arith, same_severity-warning d.diag.severity f.diag.severity same, w)
        | inr differ ↦
            let later = any-same_key d found (ground (arith, differ, h)) w in ground (arith, later)
      ]

  any-first_of_keys :
      (diags found : List (Located Range))
      → any is_warning (first_of_keys R diags found)
        ≡ (any is_warning diags || any is_warning found)
  unfolding first_of_keys
  any-first_of_keys [] found = refl
  any-first_of_keys (d ∷ diags) found = elim (Bool-cases (any (same_key R d) found)) [
    | inl known ↦ ground (arith, known, any-first_of_keys diags found, any-same_key d found known)
    | inr new ↦ ground (
      arith,
      new,
      any-first_of_keys diags (found ++ d ∷ []),
      any-append is_warning found (d ∷ []),
    )
  ]

  length-summaries : (ds : List (Located Range)) → length (summaries R ds) ≡ count is_warning ds
  unfolding summaries
  length-summaries [] = refl
  length-summaries (d ∷ ds) = ground (arith, length-summaries ds)

  length-summaries_of :
      (diags : List (Located Range))
      → not (length (summaries R (arrange (first_of_keys R diags []))) == 0) ≡ any is_warning diags
  length-summaries_of diags =
      let found = first_of_keys R diags [] in
      ground (
        arith,
        length-summaries (arrange found),
        count-arrange is_warning found,
        any-count is_warning found,
        any-first_of_keys diags [],
      )

  add_diagnostics_info-Reports :
      {V : Type 0} (e : Evaluator V) (diags : List (Located Range)) (ret : Response (Located Range))
      (resolved : Condition (Located Range))
      → ret.conditions ≡ resolved ∷ []
      → resolved.type ≡ "FullyResolved"
      → resolved.status ≡ status_if (any unasked e.discards)
      → length ret.results ≡ count unasked e.discards
      → Reports e diags (add_diagnostics_info R ret diags)
  unfolding add_diagnostics_info
  add_diagnostics_info-Reports e diags ret resolved c type status n =
      let warned = summaries R (arrange (first_of_keys R diags [])) in
      record {
        resolved = resolved;
        diagnosed = summaries_condition warned;
        both = rw c refl;
        resolved_type = type;
        resolved_status = status;
        diagnosed_type = (summaries_condition_lem warned).0;
        diagnosed_status =
            (summaries_condition_lem warned).1 ∙ ap status_if (length-summaries_of diags);
        results = omega (arith, n, length-append ret.results (summaries_result warned ∷ []));
      }

module _ (H : Hcl) (C : Cty H) (R : Ranges) where
  open H use {Value}
  open R use {Range}

  -- A response of toResponse reports the discards and the diagnostics: it has one result for each
  -- discard that no condition of the user asked for, and one for the diagnostics; the condition
  -- FullyResolved is false if there is such a discard, and HclDiagnostics if there is a warning.
  pub to_response-Reports :
      (e : Evaluator Value) (diags : List (Located Range)) (r : Response (Located Range))
      → to_response H C R e diags ≡ responded r
      → Reports e diags r
  unfolding to_response
  to_response-Reports e diags r h =
      let (with_status, h1) = responded_bind _ _ r h in
      let (composite, h2) = responded_bind _ _ r h1 in
      let (context, h3) = responded_bind _ _ r h2 in
      let (resources, h4) = responded_bind _ _ r h3 in
      let (results, shown) = discard_results e.discards [] [] in
      let reported : length results ≡ count unasked e.discards =
        omega (arith, length-discard_results {D = Located Range} e.discards [] []) in
      rw (← responded_inj _ r h4) (
        add_diagnostics_info-Reports R e diags _ (resolved_condition results shown) refl
          (resolved_condition-type results shown)
          (resolved_condition-status results shown
            ∙ ap status_if (rw reported (sym (any-count unasked e.discards))))
          reported)
