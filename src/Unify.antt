-- ===== src/Unify.antt =====
-- function/internal/evaluator/utils.go: unify and unifyBytes, which merge the objects that several
-- blocks contribute to one result.
pub mod Bytes
pub mod Depth
mod Tests
use function_hcl.Base.{
  ℕ, zero, suc, String, Bool, true, false, ◌&&◌, none, some, List, [], ◌∷◌, ◌++◌, Dict, ◌==◌,
  lookup, insert, if◌then◌else◌, string_eq, nat_eq,
}
use function_hcl.Json.{
  Json, null, boolean, number, text, array, object, Object, end, field, get, put, deep_equal,
}

-- What unify yields: the merged object, or the error with the path of the key at fault.
-- `out_of_fuel` is not an outcome of the source.
pub data Unified {ℓ} (A : Type ℓ) : Type ℓ where
  ok : A → Unified A
  type_mismatch : List String → Unified A
  not_equal : List String → Unified A
  out_of_fuel : Unified A

infixl 5 ◌>>=◌
abbrev pub ◌>>=◌ {ℓ κ} : {A : Type ℓ} {B : Type κ} → Unified A → (A → Unified B) → Unified B
ok a >>= f = f a
type_mismatch p >>= f = type_mismatch p
not_equal p >>= f = not_equal p
out_of_fuel >>= f = out_of_fuel

-- `reflect.TypeOf(existing) == reflect.TypeOf(v)`
unfoldable pub same_type : Json → Json → Bool
same_type null null = true
same_type (boolean a) (boolean b) = true
same_type (number a) (number b) = true
same_type (text a) (text b) = true
same_type (array a) (array b) = true
same_type (object a) (object b) = true
same_type _ _ = false

-- The values of two equal keys: the branch for objects, and the one for leaves.
unfoldable pub merge_same :
    (List String → List Object → Unified Object) → List String → Json → Json → Unified Json
merge_same unify_objects path (object e) (object v) =
    unify_objects path (v ∷ e ∷ []) >>= λ unified. ok (object unified)
merge_same unify_objects path existing v =
    if deep_equal v existing then ok existing else not_equal path

unfoldable pub merge_value :
    (List String → List Object → Unified Object) → List String → Json → Json → Unified Json
unfolding merge_same
merge_value unify_objects path existing v =
    if same_type existing v then merge_same unify_objects path existing v else type_mismatch path

-- The loop over the entries of one object, with `ret` so far.
unfoldable pub unify_fields :
    (List String → List Object → Unified Object) → List String → Object → Object → Unified Object
unify_fields unify_objects path ret end = ok ret
unify_fields unify_objects path ret (field k v o) =
    elim (get k ret) [
      | none ↦ ok v
      | some existing ↦ merge_value unify_objects (path ++ k ∷ []) existing v
    ]
    >>= λ w. unify_fields unify_objects path (put k w ret) o

-- The loop over the objects.
unfoldable pub unify_loop :
    (List String → List Object → Unified Object)
    → List String
    → Object
    → List Object
    → Unified Object
unify_loop unify_objects path ret [] = ok ret
unify_loop unify_objects path ret (obj ∷ objects) =
    unify_fields unify_objects path ret obj >>= λ ret'. unify_loop unify_objects path ret' objects

-- unifyObjects. Each call goes one level down, so the fuel bounds the depth of the objects.
unfoldable pub unify_objects : ℕ → List String → List Object → Unified Object
unify_objects zero path objects = out_of_fuel
unify_objects (suc fuel) path objects = unify_loop (unify_objects fuel) path end objects

-- unify
unfoldable pub unify : ℕ → List Object → Unified Object
unfolding unify_objects
unify fuel inputs = unify_objects fuel [] inputs

-- bytes.Equal
unfoldable pub bytes_equal : List ℕ → List ℕ → Bool
bytes_equal [] [] = true
bytes_equal (a ∷ s) (b ∷ t) = a == b && bytes_equal s t
bytes_equal _ _ = false

-- unifyBytes: the loop over the entries of one input.
unfoldable pub unify_bytes_fields :
    Dict String (List ℕ) → Dict String (List ℕ) → Unified (Dict String (List ℕ))
unify_bytes_fields ret [] = ok ret
unify_bytes_fields ret ((k, v) ∷ input) =
    elim (lookup k ret) [
      | none ↦ ok (insert k v ret)
      | some existing ↦ if bytes_equal v existing then ok ret else not_equal (k ∷ [])
    ]
    >>= λ ret'. unify_bytes_fields ret' input

-- unifyBytes: the loop over the inputs.
unfoldable pub unify_bytes_loop :
    Dict String (List ℕ) → List (Dict String (List ℕ)) → Unified (Dict String (List ℕ))
unify_bytes_loop ret [] = ok ret
unify_bytes_loop ret (input ∷ inputs) =
    unify_bytes_fields ret input >>= λ ret'. unify_bytes_loop ret' inputs

unfoldable pub unify_bytes : List (Dict String (List ℕ)) → Unified (Dict String (List ℕ))
unfolding unify_bytes_loop
unify_bytes inputs = unify_bytes_loop [] inputs
