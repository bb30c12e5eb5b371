-- ===== src/Functions/Read.antt =====
-- What processFunction and processArg read of the blocks of functions.
use function_hcl.Base.{
  String, ◌≡◌, refl, true, false, some, List, [], ◌∷◌, Dict, lookup, insert, is_some, ◌==◌,
  string_eq, All, Distinct, insert-Distinct, arith, Bool-cases, Option-cases, inl, inr, ◌⊎◌,
}
use function_hcl.Hcl.{Hcl, Block, Diags, Result, ok, err}
use function_hcl.Hcl.Traversal.{Syntax, is_identifier}
use function_hcl.Locals.{process}
use function_hcl.Evaluator.{Cty, Content}
use function_hcl.Evaluator.Schemas.{function_schema, arg_schema}
use function_hcl.Functions.{Arg, UserFunction}
use function_hcl.Functions.Load.{
  Bare, bare_hcl, Program, Functions, check_description, arg_default, process_arg, process_args,
  defaults, finish_function, process_function, collect_functions,
}

-- The entries of a map stay what they are when an entry of the same kind is set.
insert-All :
    {V : Type 0} (P : String × V → Type 0) (k : String) (v : V) (d : Dict String V)
    → P (k, v)
    → All P d
    → All P (insert k v d)
unfolding insert
insert-All P k v [] new h = (new, tt)
insert-All P k v ((j, w) ∷ d) new h = elim (Bool-cases (k == j)) [
  | inl same ↦ rw (same, insert) (new, h.1)
  | inr differ ↦ rw (differ, insert) (h.0, insert-All P k v d new h.1)
]

Result-cases : {A : Type 0} (r : Result A) → ((ds : Diags) × (r ≡ err ds)) ⊎ ((a : A) × (r ≡ ok a))
Result-cases (err ds) = inl (ds, refl)
Result-cases (ok a) = inr (a, refl)

abbrev pub NamedWell : {V : Type 0} → String × V → Type 0
NamedWell entry = is_identifier entry.0 ≡ true

module _ (H : Hcl) (C : Cty H) (S : Syntax H) where
  open H use {Expr, Value, Body, variables, extend, has_errors}
  open C use {content, as_string}
  open S use {constant_value, function_calls}

  -- What reading a block gives, before its references are checked.
  abbrev pub Read : String × UserFunction Value (Program H C S) → Type 0
  Read entry =
      (entry.1.name ≡ entry.0) × (is_identifier entry.0 ≡ true) × All NamedWell entry.1.args

  process_arg-NamedWell :
      (b : Block Body) (name : String) (arg : Arg Value) (ds : Diags)
      → process_arg H C S b ≡ some (ok ((name, arg), ds))
      → is_identifier name ≡ true
  unfolding process_arg
  process_arg-NamedWell b name arg ds ran =
      elim (Bool-cases (has_errors (content b.body arg_schema).1)) [
        | inl bad ↦ absurd (ground (arith, bad, ran))
        | inr fine ↦ of_labels fine b.labels refl
      ]
    where
      of_labels :
          has_errors (content b.body arg_schema).1 ≡ false
          → (ls : List String) → b.labels ≡ ls
          → is_identifier name ≡ true
      of_labels fine [] q = absurd (ground (arith, fine, q, ran))
      of_labels fine (l ∷ ls) q = elim (Bool-cases (is_identifier l)) [
        | inr bad ↦ absurd (ground (arith, fine, q, bad, ran))
        | inl good ↦
            let a = (content b.body arg_schema).0 in
            elim (Option-cases (
              check_description H C S l (lookup "description" a.attributes)
                (extend [] (content b.body arg_schema).1))) [
                  | inl stuck ↦ absurd (ground (arith, fine, q, good, stuck, ran))
                  | inr (err es, wrong) ↦ absurd (ground (arith, fine, q, good, wrong, ran))
                  | inr (ok ds1, described) ↦
                      elim (Result-cases
                        (arg_default H C S l (lookup "default" a.attributes) ds1)) [
                          | inl (es, wrong) ↦
                              absurd (ground (arith, fine, q, good, described, wrong, ran))
                          | inr (r, has) ↦
                              let same : l ≡ name =
                                ground (arith, fine, q, good, described, has, ran) in
                              rw (← same) good
                        ]
                ]
      ]

  process_args-NamedWell :
      (blocks : List (Block Body)) (args args' : Dict String (Arg Value))
      → process_args H C S blocks args ≡ some (ok args')
      → All NamedWell args
      → All NamedWell args'
  unfolding process_args
  process_args-NamedWell [] args args' ran h =
      let same : args ≡ args' = ground (arith, ran) in rw (← same) h
  process_args-NamedWell (b ∷ blocks) args args' ran h = elim (Bool-cases (b.type == "arg")) [
    | inr other ↦ process_args-NamedWell blocks args args' (ground (arith, other, ran)) h
    | inl is ↦ elim (Option-cases (process_arg H C S b)) [
      | inl stuck ↦ absurd (ground (arith, is, stuck, ran))
      | inr (err ds, read) ↦ absurd (ground (arith, is, read, ran))
      | inr (ok ((name, arg), ds), read) ↦ elim (Bool-cases (has_errors ds)) [
        | inl bad ↦ absurd (ground (arith, is, read, bad, ran))
        | inr fine ↦ elim (Bool-cases (is_some (lookup name args))) [
          | inl twice ↦ absurd (ground (arith, is, read, fine, twice, ran))
          | inr new ↦
              process_args-NamedWell blocks (insert name arg args) args'
                (ground (arith, is, read, fine, new, ran))
                (insert-All NamedWell name arg args (process_arg-NamedWell b name arg ds read) h)
        ]
      ]
    ]
  ]

  finish_function-parts :
      (B : Bare H) (name : String) (c : Content Expr Body) (args : Dict String (Arg Value))
      (diags ds : Diags) (fn : UserFunction Value (Program H C S))
      → finish_function H C S B name c args diags ≡ some (ok (fn, ds))
      → (name ≡ fn.name) × (args ≡ fn.args)
  unfolding finish_function
  finish_function-parts B name c args diags ds fn ran =
      elim (Option-cases (process (bare_hcl H B) (defaults H C S args [] ∷ []) c.blocks)) [
        | inl stuck ↦ absurd (ground (arith, stuck, ran))
        | inr ((child, es), run) ↦ elim (Bool-cases (has_errors es)) [
          | inl bad ↦ absurd (ground (arith, run, bad, ran))
          | inr fine ↦ elim (Option-cases (lookup "body" c.attributes)) [
            | inl missing ↦ absurd (ground (arith, run, fine, missing, ran))
            | inr (body, there) ↦
                (ground (arith, run, fine, there, ran), ground (arith, run, fine, there, ran))
          ]
        ]
      ]

  process_function-Read :
      (B : Bare H) (b : Block Body) (fn : UserFunction Value (Program H C S)) (ds : Diags)
      → process_function H C S B b ≡ some (ok (fn, ds))
      → Read (fn.name, fn)
  unfolding process_function
  process_function-Read B b fn ds ran =
      elim (Bool-cases (has_errors (content b.body function_schema).1)) [
        | inl bad ↦ absurd (ground (arith, bad, ran))
        | inr fine ↦ of_labels fine b.labels refl
      ]
    where
      c : Content Expr Body
      c = (content b.body function_schema).0

      of_labels :
          has_errors (content b.body function_schema).1 ≡ false
          → (ls : List String) → b.labels ≡ ls
          → Read (fn.name, fn)
      of_labels fine [] q = absurd (ground (arith, fine, q, ran))
      of_labels fine (l ∷ ls) q = elim (Bool-cases (is_identifier l)) [
        | inr bad ↦ absurd (ground (arith, fine, q, bad, ran))
        | inl good ↦
            elim (Option-cases (
              check_description H C S l (lookup "description" c.attributes)
                (extend [] (content b.body function_schema).1))) [
                  | inl stuck ↦ absurd (ground (arith, fine, q, good, stuck, ran))
                  | inr (err es, wrong) ↦ absurd (ground (arith, fine, q, good, wrong, ran))
                  | inr (ok ds1, described) ↦ elim (Option-cases (process_args H C S c.blocks [])) [
                    | inl stuck ↦ absurd (ground (arith, fine, q, good, described, stuck, ran))
                    | inr (err es, wrong) ↦
                        absurd (ground (arith, fine, q, good, described, wrong, ran))
                    | inr (ok args, read) ↦
                        let (named, with_args) =
                          finish_function-parts B l c args ds1 ds fn
                            (ground (arith, fine, q, good, described, read, ran)) in
                        (
                          refl,
                          rw (← named) good,
                          rw (← with_args) (process_args-NamedWell c.blocks [] args read tt),
                        )
                  ]
                ]
      ]

  pub collect_functions-Read :
      (B : Bare H) (blocks : List (Block Body)) (diags diags' : Diags) (fns fns' : Functions H C S)
      → collect_functions H C S B blocks diags fns ≡ some (ok (fns', diags'))
      → All Read fns
      → Distinct fns
      → All Read fns' × Distinct fns'
  unfolding collect_functions
  collect_functions-Read B [] diags diags' fns fns' ran h once =
      let same : fns ≡ fns' = ground (arith, ran) in (rw (← same) h, rw (← same) once)
  collect_functions-Read B (b ∷ blocks) diags diags' fns fns' ran h once =
      elim (Bool-cases (b.type == "function")) [
        | inr other ↦
            collect_functions-Read B blocks diags diags' fns fns' (ground (arith, other, ran)) h
              once
        | inl is ↦ elim (Option-cases (process_function H C S B b)) [
          | inl stuck ↦ absurd (ground (arith, is, stuck, ran))
          | inr (err ds, read) ↦ absurd (ground (arith, is, read, ran))
          | inr (ok (fn, ds), read) ↦ elim (Bool-cases (has_errors ds)) [
            | inl bad ↦ absurd (ground (arith, is, read, bad, ran))
            | inr fine ↦ elim (Bool-cases (is_some (lookup fn.name fns))) [
              | inl twice ↦ absurd (ground (arith, is, read, fine, twice, ran))
              | inr new ↦
                  collect_functions-Read B blocks (extend diags ds) diags' (insert fn.name fn fns)
                    fns' (ground (arith, is, read, fine, new, ran))
                    (insert-All Read fn.name fn fns (process_function-Read B b fn ds read) h)
                    (insert-Distinct fn.name fn fns once)
            ]
          ]
        ]
      ]
