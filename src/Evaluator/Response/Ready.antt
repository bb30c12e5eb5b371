-- ===== src/Evaluator/Response/Ready.antt =====
-- The desired resources of a response, and that toResponse does not panic.
use function_hcl.Base.{
  ℕ, suc, ◌≡◌, ◌≢◌, refl, String, true, Option, none, some, List, [], ◌∷◌, Dict, Distinct, lookup,
  insert, is_some, ◌==◌, ==_refl, eq_of_==, string_eq, lookup-insert, arith, Bool-cases,
  Option-cases, inl, inr,
}
use function_hcl.Hcl.{Hcl}
use function_hcl.Json.{Object}
use function_hcl.Unify.{Unified, type_mismatch, not_equal, unify, unify_bytes}
use function_hcl.Unify as Unify
use function_hcl.Unify.Depth.{depth_of_all, unify_total, unify_bytes_total}
use function_hcl.Evaluator.{Cty, Evaluator}
use function_hcl.Evaluator.Frame.{ReadyIsDesired}
use function_hcl.Evaluator.Response.{Ranges, Located, Resource, Response}
use function_hcl.Evaluator.Response.Build.{
  Answer, responded, failed, panicked, out_of_fuel, ◌>>=◌, wrap, unify_all, convert, desired_of,
  set_ready, with_statuses, with_connections, context_of, to_response,
}
use function_hcl.Evaluator.Response.Diagnostics.{add_diagnostics_info}
use function_hcl.Evaluator.Response.Merge.{state_of}

-- The resource that stands for a body in the response.
abbrev pub shown_resource : Option ℕ → Option Object → Option Resource
shown_resource ready none = none
shown_resource ready (some body) = some (record {
  body = some body;
  connection_details = [];
  ready = elim ready [ none ↦ 0 | some val ↦ val ];
})

-- The readiness of a resource, if it has one.
abbrev with_ready : Option ℕ → Option Resource → Option Resource
with_ready ready none = none
with_ready none (some r) = some r
with_ready (some val) (some r) = some (record r { ready = val })

lookup-desired_of :
    (n : String) (desired : Dict String Object)
    → lookup n (desired_of desired) ≡ shown_resource none (lookup n desired)
unfolding desired_of lookup
lookup-desired_of n [] = refl
lookup-desired_of n ((k, o) ∷ desired) = ground (arith, lookup-desired_of n desired)

set_ready_lem :
    (ready : Dict String ℕ) (resources : Dict String Resource)
    → Distinct ready
    → ((n : String) → is_some (lookup n ready) ≡ true → is_some (lookup n resources) ≡ true)
    → (out : Dict String Resource) × (set_ready ready resources ≡ responded out)
      × ((n : String) → lookup n out ≡ with_ready (lookup n ready) (lookup n resources))
unfolding set_ready lookup
set_ready_lem [] resources d h = (resources, refl, λ n. ground arith)
set_ready_lem ((k, val) ∷ ready) resources (new, d) h = elim (Option-cases (lookup k resources)) [
  | inl missing ↦ absurd (ground (arith, missing, h k, ==_refl k))
  | inr (r, found) ↦
      let changed : Resource = record r { ready = val } in
      let next = insert k changed resources in
      let (out, ran, at) = set_ready_lem ready next d (λ n is_in. elim (Bool-cases (n == k)) [
        | inl same ↦ ground (arith, lookup-insert n k changed resources, same)
        | inr differ ↦ ground (arith, lookup-insert n k changed resources, differ, h n, is_in)
      ]) in
      (
        out,
        rw (found, set_ready) ran,
        λ n. elim (Bool-cases (n == k)) [
          | inl same ↦
              let same_key : n ≡ k = eq_of_== n k same in
              ground (arith, at n, lookup-insert n k changed resources, same, same_key, new, found)
          | inr differ ↦ ground (arith, at n, lookup-insert n k changed resources, differ)
        ],
      )
]

-- An answer of the source, and where it is a response, one with the property.
unfoldable pub Gives : {A : Type 0} → (A → Type 0) → Answer A → Type 0
Gives P (responded a) = P a
Gives P (failed what path) = Unit {0}
Gives P panicked = ⊥
Gives P out_of_fuel = ⊥

Gives-responded : {A : Type 0} (P : A → Type 0) (a : A) → P a → Gives P (responded a)
unfolding Gives
Gives-responded P a h = h

Gives-bind :
    {A B : Type 0} (P : A → Type 0) (Q : B → Type 0) (m : Answer A) (f : A → Answer B)
    → Gives P m
    → ((a : A) → P a → Gives Q (f a))
    → Gives Q (m >>= f)
unfolding Gives ◌>>=◌
Gives-bind P Q (responded a) f h g = g a h
Gives-bind P Q (failed what path) f h g = tt
Gives-bind P Q panicked f h g = h
Gives-bind P Q out_of_fuel f h g = h

unfoldable Anything : {A : Type 0} → A → Type 0
Anything a = Unit {0}

any_thing : {A : Type 0} (a : A) → Anything a
unfolding Anything
any_thing a = tt

Gives-wrap :
    {A : Type 0} (what : String) (u : Unified A)
    → u ≢ Unify.out_of_fuel
    → Gives Anything (wrap what u)
unfolding Gives Anything wrap
Gives-wrap what (Unify.ok a) h = tt
Gives-wrap what (type_mismatch path) h = tt
Gives-wrap what (not_equal path) h = tt
Gives-wrap what Unify.out_of_fuel h = absurd (h refl)

Gives-unify_all :
    (what : String) (inputs : List Object) → Gives Anything (wrap what (unify_all inputs))
Gives-unify_all what inputs =
    Gives-wrap what (unify_all inputs)
      (unify_total (suc (depth_of_all inputs)) inputs (omega arith))

Gives-convert : (what : String) (o : Option Object) → Gives Anything (convert what o)
unfolding Gives Anything convert
Gives-convert what none = tt
Gives-convert what (some s) = tt

-- The response has exactly the desired resources, each with its body and its readiness.
abbrev pub ShowsDesired : {V D : Type 0} → Evaluator V → Response D → Type 0
ShowsDesired e r =
    (n : String)
    → lookup n (state_of r.desired).resources
      ≡ shown_resource (lookup n e.ready) (lookup n e.desired_resources)

module _ (H : Hcl) (C : Cty H) (R : Ranges) where
  open H use {Value}
  open R use {Range}

  with_statuses-Gives : (statuses : List Object) → Gives Anything (with_statuses H C R statuses)
  unfolding with_statuses
  with_statuses-Gives [] = Gives-responded _ none (any_thing _)
  with_statuses-Gives (s ∷ statuses) =
      Gives-bind _ _ _ _ (Gives-unify_all _ (s ∷ statuses))
        λ st _. Gives-bind _ _ _ _ (Gives-convert _ _) λ s _. Gives-responded _ _ (any_thing _)

  with_connections-Gives :
      (connections : List (Dict String (List ℕ))) (composite : Option Resource)
      → Gives Anything (with_connections H C R connections composite)
  unfolding with_connections
  with_connections-Gives [] composite = Gives-responded _ composite (any_thing _)
  with_connections-Gives (c ∷ connections) composite =
      Gives-bind _ _ _ _ (Gives-wrap _ (unify_bytes (c ∷ connections)) (unify_bytes_total _))
        λ u _. Gives-responded _ _ (any_thing _)

  context_of-Gives : (contexts : List Object) → Gives Anything (context_of H C R contexts)
  unfolding context_of
  context_of-Gives [] = Gives-responded _ none (any_thing _)
  context_of-Gives (c ∷ contexts) =
      Gives-bind _ _ _ _ (Gives-unify_all _ (c ∷ contexts))
        λ ctx _. Gives-bind _ _ _ _ (Gives-convert _ _) λ s _. Gives-responded _ _ (any_thing _)

  set_ready-Gives :
      (e : Evaluator Value)
      → Distinct e.ready
      → ReadyIsDesired e
      → Gives
          (λ out.
            (n : String)
            → lookup n out ≡ shown_resource (lookup n e.ready) (lookup n e.desired_resources))
          (set_ready e.ready (desired_of e.desired_resources))
  set_ready-Gives e d h =
      let (out, ran, at) =
        set_ready_lem e.ready (desired_of e.desired_resources) d
          (λ n is_in. ground (arith, lookup-desired_of n e.desired_resources, h n is_in)) in
      rw ran
        (Gives-responded _ out λ n. ground (arith, at n, lookup-desired_of n e.desired_resources))

  -- Where each readiness is that of a desired resource, toResponse answers with a response or an
  -- error, and does not panic; a response has exactly the desired resources, each with its body and
  -- its readiness.
  pub to_response-Gives :
      (e : Evaluator Value) (diags : List (Located Range))
      → Distinct e.ready
      → ReadyIsDesired e
      → Gives (ShowsDesired e) (to_response H C R e diags)
  unfolding to_response add_diagnostics_info
  to_response-Gives e diags d h =
      Gives-bind _ _ _ _ (with_statuses-Gives e.composite_statuses) λ with_status _.
        Gives-bind _ _ _ _ (with_connections-Gives e.composite_connections with_status)
          λ composite _. Gives-bind _ _ _ _ (context_of-Gives e.contexts) λ context _.
            Gives-bind _ _ _ _ (set_ready-Gives e d h) λ resources at. Gives-responded _ _ λ n. at n
