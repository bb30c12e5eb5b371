-- ===== src/Evaluator/Response/Kept.antt =====
-- What mergeResponse of function/internal/fn/fn.go keeps of the functions before this one.
use function_hcl.Base.{
  ◌≡◌, refl, String, some, [], ◌∷◌, Dict, Distinct, lookup, insert, ◌==◌, eq_of_==, string_eq,
  lookup-insert, first_of, arith, Bool-cases, Option-cases, inl, inr,
}
use function_hcl.Hcl.{Hcl}
use function_hcl.Evaluator.{Cty}
use function_hcl.Evaluator.Response.{Resource, Response}
use function_hcl.Evaluator.Response.Merge.{state_of, set_resources, merge_context, merge_response}

lookup-set_resources :
    (n : String) (d a : Dict String Resource)
    → Distinct a
    → lookup n (set_resources d a) ≡ first_of (lookup n a) (lookup n d)
unfolding set_resources lookup
lookup-set_resources n d [] h = refl
lookup-set_resources n d ((k, v) ∷ a) (new, rest) = elim (Bool-cases (n == k)) [
  | inl same ↦
      let same_key = eq_of_== n k same in
      ground (
        arith,
        lookup-set_resources n (insert k v d) a rest,
        lookup-insert n k v d,
        same,
        new,
        same_key,
      )
  | inr differ ↦
      ground (arith, lookup-set_resources n (insert k v d) a rest, lookup-insert n k v d, differ)
]

module _ (H : Hcl) (C : Cty H) where
  -- A merge that succeeds gives each resource and the composite as this function's response has
  -- them, and those that it lacks as the functions before it left them; results and conditions are
  -- only those of this function.
  pub merge_response_lem :
      {D : Type 0} (res hcl_response out : Response D)
      → Distinct (state_of hcl_response.desired).resources
      → merge_response H C res hcl_response ≡ some out
      → ((n : String)
          → lookup n (state_of out.desired).resources
            ≡ first_of
                (lookup n (state_of hcl_response.desired).resources)
                (lookup n (state_of res.desired).resources))
        × ((state_of out.desired).composite
            ≡ first_of (state_of hcl_response.desired).composite (state_of res.desired).composite)
        × (out.results ≡ hcl_response.results)
        × (out.conditions ≡ hcl_response.conditions)
  unfolding merge_response
  merge_response_lem res hcl_response out distinct h =
      elim (Option-cases (merge_context H C res.context hcl_response.context)) [
        | inl failed ↦ absurd (ground (arith, failed, h))
        | inr (context, merged) ↦
            let at = λ (n : String).
              lookup-set_resources n (state_of res.desired).resources
                (state_of hcl_response.desired).resources distinct in
            (
              λ n. ground (arith, merged, h, at n),
              ground (arith, merged, h),
              ground (arith, merged, h),
              ground (arith, merged, h),
            )
      ]
