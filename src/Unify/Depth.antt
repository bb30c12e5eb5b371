-- ===== src/Unify/Depth.antt =====
-- The depth of objects, which bounds the recursion of unify in function/internal/evaluator/utils.go.
use Prim.Native.Nat.{max}
use function_hcl.Base.{
  ℕ, zero, suc, ◌≤◌, ◌<◌, String, ◌≡◌, ◌≢◌, Bool, true, false, some, List, [], ◌∷◌, ◌++◌, Dict,
  lookup, insert, ◌==◌, string_eq, if◌then◌else◌, All, arith, Bool-cases, Option-cases, inl, inr,
}
use function_hcl.Json.{Json, object, Object, end, field, get, put}
use function_hcl.Unify.{
  Unified, ok, type_mismatch, not_equal, out_of_fuel, ◌>>=◌, same_type, merge_same, merge_value,
  unify_fields, unify_loop, unify_objects, unify, bytes_equal, unify_bytes_fields, unify_bytes_loop,
  unify_bytes,
}

-- How deep objects lie in each other; unify does not look into arrays.
unfoldable mutual
  pub json_depth : Json → ℕ
  json_depth (object o) = suc (object_depth o)
  json_depth _ = 0

  pub object_depth : Object → ℕ
  object_depth end = 0
  object_depth (field k v o) = max (json_depth v) (object_depth o)

unfoldable pub depth_of_all : List Object → ℕ
depth_of_all [] = 0
depth_of_all (o ∷ objects) = max (object_depth o) (depth_of_all objects)

abbrev Shallow : ℕ → List Object → Type 0
Shallow n objects = All (λ o. object_depth o ≤ n) objects

-- A result that is not deeper, or an error of the source.
abbrev Fine : {A : Type 0} → (A → ℕ) → ℕ → Unified A → Type 0
Fine depth n (ok a) = depth a ≤ n
Fine depth n out_of_fuel = ⊥
Fine depth n _ = Unit {0}

Fine-bind :
    {A B : Type 0} (depth : A → ℕ) (depth' : B → ℕ) (n n' : ℕ) (u : Unified A) (f : A → Unified B)
    → Fine depth n u
    → ((a : A) → depth a ≤ n → Fine depth' n' (f a))
    → Fine depth' n' (u >>= f)
Fine-bind depth depth' n n' (ok a) f h g = g a h
Fine-bind depth depth' n n' (type_mismatch p) f h g = tt
Fine-bind depth depth' n n' (not_equal p) f h g = tt
Fine-bind depth depth' n n' out_of_fuel f h g = h

depth_of_all-Shallow :
    (objects : List Object) (n : ℕ) → depth_of_all objects ≤ n → Shallow n objects
unfolding depth_of_all
depth_of_all-Shallow [] n h = tt
depth_of_all-Shallow (o ∷ objects) n h =
    (ground arith, depth_of_all-Shallow objects n (ground arith))

get-depth : (k : String) (o : Object) (v : Json) → get k o ≡ some v → json_depth v ≤ object_depth o
unfolding get object_depth
get-depth k end v h = absurd (cc)
get-depth k (field j w o) v h = elim (Bool-cases (k == j)) [
  | inl same ↦ let here : w ≡ v = ground (arith, same, h) in rw (← here) (ground arith)
  | inr differ ↦ let later = get-depth k o v (ground (arith, differ, h)) in ground (arith, later)
]

put-depth :
    (k : String) (v : Json) (o : Object) (n : ℕ)
    → json_depth v ≤ n
    → object_depth o ≤ n
    → object_depth (put k v o) ≤ n
unfolding put object_depth
put-depth k v end n hv ho = ground arith
put-depth k v (field j w o) n hv ho =
    let rest : object_depth o ≤ n = ground arith in
    let here : json_depth w ≤ n = ground arith in
    elim (Bool-cases (k == j)) [
      | inl same ↦ rw (same, put) (omega arith)
      | inr differ ↦ let later = put-depth k v o n hv rest in rw (differ, put) (omega arith)
    ]

-- What the values of two equal keys yield that are not both objects.
leaf-Fine :
    (n : ℕ) (path : List String) (e : Json) (alike equal : Bool)
    → json_depth e ≤ n
    → Fine json_depth n
        (if alike then (if equal then ok e else not_equal path) else type_mismatch path)
leaf-Fine n path e true true h = h
leaf-Fine n path e true false h = tt
leaf-Fine n path e false equal h = tt

module _ (n : ℕ) (recurse : List String → List Object → Unified Object)
    (r : (m : ℕ)
      → m < n
      → (path : List String) (objects : List Object) → Shallow m objects
      → Fine object_depth m (recurse path objects)) where
  merge_value-Fine :
      (path : List String) (e v : Json)
      → json_depth e ≤ n
      → json_depth v ≤ n
      → Fine json_depth n (merge_value recurse path e v)
  unfolding merge_value merge_same json_depth same_type
  merge_value-Fine path (object e) (object v) he hv =
      let m = max (object_depth v) (object_depth e) in
      Fine-bind object_depth json_depth m n (recurse path (v ∷ e ∷ [])) _
        (r m (omega arith) path (v ∷ e ∷ []) (omega arith, (omega arith, tt)))
        (λ o h. omega (arith, h))
  merge_value-Fine path (object e) v he hv = tt
  merge_value-Fine path e v he hv = leaf-Fine n path e _ _ he

  unify_fields-Fine :
      (path : List String) (ret o : Object)
      → object_depth ret ≤ n
      → object_depth o ≤ n
      → Fine object_depth n (unify_fields recurse path ret o)
  unfolding unify_fields object_depth
  unify_fields-Fine path ret end hr ho = hr
  unify_fields-Fine path ret (field k v o) hr ho =
      let here : json_depth v ≤ n = omega (arith, ho) in
      let rest : object_depth o ≤ n = omega (arith, ho) in
      let next : (w : Json)
          → json_depth w ≤ n
          → Fine object_depth n (unify_fields recurse path (put k w ret) o) =
        λ w h. unify_fields-Fine path (put k w ret) o (put-depth k w ret n h hr) rest in
      elim (Option-cases (get k ret)) [
        | inl new ↦ rw (new, unify_fields) (next v here)
        | inr (e, found) ↦
            rw (found, unify_fields)
              (Fine-bind json_depth object_depth n n (merge_value recurse (path ++ k ∷ []) e v) _
                (merge_value-Fine (path ++ k ∷ []) e v (omega (arith, hr, get-depth k ret e found))
                  here)
                next)
      ]

  unify_loop-Fine :
      (path : List String) (ret : Object) (objects : List Object)
      → object_depth ret ≤ n
      → Shallow n objects
      → Fine object_depth n (unify_loop recurse path ret objects)
  unfolding unify_loop
  unify_loop-Fine path ret [] hr h = hr
  unify_loop-Fine path ret (o ∷ objects) hr (here, rest) =
      Fine-bind object_depth object_depth n n (unify_fields recurse path ret o) _
        (unify_fields-Fine path ret o hr here) (λ ret' h. unify_loop-Fine path ret' objects h rest)

unify_objects-Fine :
    (fuel m : ℕ)
    → m < fuel
    → (path : List String) (objects : List Object) → Shallow m objects
    → Fine object_depth m (unify_objects fuel path objects)
unfolding unify_objects object_depth
unify_objects-Fine zero m h path objects s = absurd (omega arith)
unify_objects-Fine (suc fuel) m h path objects s =
    unify_loop-Fine m (unify_objects fuel) (λ m' h'. unify_objects-Fine fuel m' (omega arith)) path
      end objects (omega arith) s

Fine-unified :
    {A : Type 0} (depth : A → ℕ) (n : ℕ) (u : Unified A) → Fine depth n u → u ≢ out_of_fuel
Fine-unified depth n out_of_fuel h = absurd h
Fine-unified depth n (ok a) h = λ p. absurd (cc)
Fine-unified depth n (type_mismatch q) h = λ p. absurd (cc)
Fine-unified depth n (not_equal q) h = λ p. absurd (cc)

-- With fuel over the depth of its inputs, unify merges them or reports an error.
pub unify_total :
    (fuel : ℕ) (inputs : List Object) → depth_of_all inputs < fuel → unify fuel inputs ≢ out_of_fuel
unfolding unify
unify_total fuel inputs h =
    Fine-unified object_depth (depth_of_all inputs) (unify_objects fuel [] inputs) (
      unify_objects-Fine fuel (depth_of_all inputs) h [] inputs
        (depth_of_all-Shallow inputs (depth_of_all inputs) (omega arith)))

-- unifyBytes does not recurse.
fields-Fine : (ret input : Dict String (List ℕ)) → Fine (λ _. 0) 0 (unify_bytes_fields ret input)
unfolding unify_bytes_fields
fields-Fine ret [] = omega arith
fields-Fine ret ((k, v) ∷ input) = elim (Option-cases (lookup k ret)) [
  | inl new ↦ rw (new, unify_bytes_fields) (fields-Fine (insert k v ret) input)
  | inr (existing, found) ↦ elim (Bool-cases (bytes_equal v existing)) [
    | inl same ↦ rw (found, unify_bytes_fields, same) (fields-Fine ret input)
    | inr differ ↦ rw (found, unify_bytes_fields, differ) tt
  ]
]

loop-Fine :
    (ret : Dict String (List ℕ)) (inputs : List (Dict String (List ℕ)))
    → Fine (λ _. 0) 0 (unify_bytes_loop ret inputs)
unfolding unify_bytes_loop
loop-Fine ret [] = omega arith
loop-Fine ret (input ∷ inputs) =
    Fine-bind (λ _. 0) (λ _. 0) 0 0 (unify_bytes_fields ret input) _ (fields-Fine ret input)
      (λ ret' h. loop-Fine ret' inputs)

pub unify_bytes_total : (inputs : List (Dict String (List ℕ))) → unify_bytes inputs ≢ out_of_fuel
unfolding unify_bytes
unify_bytes_total inputs = Fine-unified (λ _. 0) 0 (unify_bytes inputs) (loop-Fine [] inputs)
