-- ===== src/Evaluator/Variables.antt =====
-- function/internal/evaluator/vars.go: the variables of a request, and the collections among the
-- observed resources.
use function_hcl.Base.{
  String, Bool, false, ◌||◌, ◌≡◌, Option, none, some, List, [], ◌∷◌, ◌++◌, Dict, lookup, insert,
  erase, ◌==◌, if◌then◌else◌, string_eq,
}
use function_hcl.Hcl.{Hcl, Ctx}
use function_hcl.Json.{array, object, Items, nil, item, Object, end, field}
use function_hcl.Evaluator.{Cty, Handler, pure, modify, ◌>>◌}
use function_hcl.Evaluator.Resources.{value_at}

-- The parts of fnv1.RunFunctionRequest that become variables: for each observed resource its body
-- and its connection details as encoding/json writes them.
pub record Request : Type 0 where
  pub observed : Dict String (Object × Object)
  pub composite : Object
  pub composite_connection : Object
  pub context : Object
  pub extra_resources : Dict String (List Object)

-- nameIndex
pub record NameIndex : Type 0 where
  pub name : String
  pub index : String

-- Some element passes a test.
abbrev pub any {ℓ} : {A : Type ℓ} → (A → Bool) → List A → Bool
any p [] = false
any p (x ∷ xs) = p x || any p xs

-- The operations of Kubernetes, JSON, cty and sort that vars.go calls.
pub record Wire (H : Hcl) : Type 0 where
  -- unstructured.NestedStringMap(obj, "metadata", "annotations"): an error, not found, or found
  pub annotations : Object → Option (Option (Dict String String))
  -- unstructured.RemoveNestedField(obj, "metadata", "managedFields")
  pub remove_managed_fields : Object → Object
  -- json.Marshal, ctyjson.ImpliedType, ctyjson.Unmarshal and AsValueMap; `none` is an error.
  pub decode : Object → Option (Dict String H.Value)
  pub tuple_val : List H.Value → H.Value
  -- sort.Slice by the index: the same elements in another order.
  pub sort_by_index : List NameIndex → List NameIndex
  pub any-sort_by_index :
      (p : NameIndex → Bool) (v : List NameIndex) → any p (sort_by_index v) ≡ any p v

-- The text at a key, or the empty text.
abbrev pub text_at : String → Dict String String → String
text_at key d = elim (lookup key d) [ none ↦ "" | some text ↦ text ]

-- The list at a key, or the empty list.
abbrev pub list_at {ℓ} : {A : Type ℓ} → String → Dict String (List A) → List A
list_at key d = elim (lookup key d) [ none ↦ [] | some values ↦ values ]

-- The end of the body of the first loop of trackBaseNames, for the annotations of a resource.
unfoldable pub add_base_name :
    String
    → Option (Dict String String)
    → Dict String (List NameIndex)
    → Dict String (List NameIndex)
add_base_name name none out = out
add_base_name name (some annotations) out =
    let base_name = text_at "hcl.fn.crossplane.io/collection-base-name" annotations in
    let index = text_at "hcl.fn.crossplane.io/collection-index" annotations in
    if base_name == ""
    then out
    else insert base_name (list_at base_name out ++ record { name = name; index = index } ∷ []) out

-- The names of a collection, in the order of their indexes.
unfoldable pub names_of : List NameIndex → List String
names_of [] = []
names_of (ni ∷ v) = ni.name ∷ names_of v

-- An object of objects.
unfoldable pub object_of_objects : Dict String Object → Object
object_of_objects [] = end
object_of_objects ((name, o) ∷ d) = field name (object o) (object_of_objects d)

unfoldable pub items_of : List Object → Items
items_of [] = nil
items_of (o ∷ objects) = item (object o) (items_of objects)

unfoldable pub object_of_arrays : Dict String (List Object) → Object
unfolding items_of
object_of_arrays [] = end
object_of_arrays ((name, objects) ∷ d) = field name (array (items_of objects)) (object_of_arrays d)

module _ (H : Hcl) (C : Cty H) (W : Wire H) where
  open H use {Value}
  open C use {as_value_map, object_val}
  open W use {annotations, remove_managed_fields, decode, tuple_val, sort_by_index}

  -- The first loop of trackBaseNames.
  unfoldable pub track_resources :
      Dict String Object → Dict String (List NameIndex) → Option (Dict String (List NameIndex))
  unfolding add_base_name
  track_resources [] out = some out
  track_resources ((name, obj) ∷ observed) out = elim (annotations obj) [
    | none ↦ none
    | some found ↦ track_resources observed (add_base_name name found out)
  ]

  -- The other loops of trackBaseNames.
  unfoldable pub sorted_names : Dict String (List NameIndex) → Dict String (List String)
  unfolding names_of
  sorted_names [] = []
  sorted_names ((base_name, v) ∷ out) = (base_name, names_of (sort_by_index v)) ∷ sorted_names out

  -- trackBaseNames
  unfoldable pub track_base_names : Dict String Object → Option (Dict String (List String))
  unfolding track_resources sorted_names
  track_base_names observed = elim (track_resources observed []) [
    | none ↦ none
    | some out ↦ some (sorted_names out)
  ]

  -- The loops of makeVars over the request.
  unfoldable pub observed_bodies : Dict String (Object × Object) → Dict String Object
  observed_bodies [] = []
  observed_bodies ((name, (body, connection)) ∷ observed) =
      (name, remove_managed_fields body) ∷ observed_bodies observed

  unfoldable pub observed_connections : Dict String (Object × Object) → Dict String Object
  observed_connections [] = []
  observed_connections ((name, (body, connection)) ∷ observed) =
      (name, connection) ∷ observed_connections observed

  unfoldable pub cleaned : List Object → List Object
  cleaned [] = []
  cleaned (o ∷ objects) = remove_managed_fields o ∷ cleaned objects

  unfoldable pub extra_bodies : Dict String (List Object) → Dict String (List Object)
  unfolding cleaned
  extra_bodies [] = []
  extra_bodies ((name, resources) ∷ extra) = (name, cleaned resources) ∷ extra_bodies extra

  -- `out` of makeVars
  unfoldable pub request_object : Request → Object
  unfolding observed_bodies observed_connections extra_bodies object_of_objects object_of_arrays
  request_object r = field "context" (object r.context) (
      field "composite" (object (remove_managed_fields r.composite)) (
        field "composite_connection" (object r.composite_connection) (
          field "resource" (object (object_of_objects (observed_bodies r.observed))) (
            field "connection" (object (object_of_objects (observed_connections r.observed))) (
              field "extra_resources" (object (object_of_arrays (extra_bodies r.extra_resources)))
                end)))))

  -- The inner loop over the names of one collection: its values, and what is left of the two maps.
  unfoldable pub take_values : List String → Dict String Value → List Value × Dict String Value
  unfolding value_at
  take_values [] existing = ([], existing)
  take_values (name ∷ names) existing =
      let (values, rest) = take_values names (erase name existing) in
      (value_at H C name existing ∷ values, rest)

  -- The loop over the collections, for one of the two maps: the collections, and what is left.
  unfoldable pub take_collections :
      Dict String (List String) → Dict String Value → Dict String Value × Dict String Value
  unfolding take_values
  take_collections [] existing = ([], existing)
  take_collections ((base_name, names) ∷ base_names) existing =
      let (values, left) = take_values names existing in
      let (collections, rest) = take_collections base_names left in
      ((base_name, tuple_val values) ∷ collections, rest)

  -- makeVars: the child context, or `none` for an error.
  unfoldable pub make_vars : Ctx Value → Request → Handler Value (Option (Ctx Value))
  unfolding track_base_names request_object take_collections value_at
  make_vars parent r = elim (track_base_names (observed_bodies r.observed)) [
    | none ↦ pure none
    | some base_names ↦ elim (decode (request_object r)) [
      | none ↦ pure none
      | some top ↦
          let resources = as_value_map (value_at H C "resource" top) in
          let connections = as_value_map (value_at H C "connection" top) in
          let (collected, resources_left) = take_collections base_names resources in
          let (collected_connections, connections_left) = take_collections base_names connections in
          let vars =
            insert "connections" (object_val collected_connections)
              (insert "resources" (object_val collected) top) in
          modify (λ e. record e {
            existing_resource_map = resources_left;
            existing_connection_map = connections_left;
          })
          >> pure (some ((("req", object_val vars) ∷ []) ∷ parent))
    ]
  ]
