-- ===== src/Evaluator/Collected.antt =====
-- Which observed resources makeVars of function/internal/evaluator/vars.go leaves in the map of
-- existing resources.
use function_hcl.Base.{
  Option, String, ◌≡◌, refl, Bool, false, not, ◌||◌, ◌&&◌, none, some, List, [], ◌∷◌, ◌++◌, Dict,
  lookup, insert, erase, lookup-erase, contains, ◌==◌, if◌then◌else◌, string_eq, Bool-cases,
  Option-cases, inl, inr, arith,
}
use function_hcl.Hcl.{Hcl, Ctx}
use function_hcl.Json.{Json, object, Object, get}
use function_hcl.Evaluator.{Cty, Evaluator, pure, modify, ◌>>=◌, ◌>>◌}
use function_hcl.Evaluator.Resources.{value_at}
use function_hcl.Evaluator.Variables.{
  Request, NameIndex, any, Wire, text_at, list_at, add_base_name, names_of, track_resources,
  sorted_names, track_base_names, object_of_objects, observed_bodies, observed_connections,
  request_object, take_values, take_collections, make_vars,
}

-- A list of names of a collection has the name.
abbrev mentions : Dict String (List NameIndex) → String → Bool
mentions [] n = false
mentions ((base_name, v) ∷ out) n = any (λ ni. n == ni.name) v || mentions out n

abbrev names_any : Dict String (List String) → String → Bool
names_any [] n = false
names_any ((base_name, names) ∷ out) n = contains names n || names_any out n

any-append : (p : NameIndex → Bool) (v w : List NameIndex) → any p (v ++ w) ≡ (any p v || any p w)
any-append p [] w = refl
any-append p (x ∷ v) w = ground (arith, any-append p v w)

mentions-insert :
    (b n : String) (ni : NameIndex) (out : Dict String (List NameIndex))
    → mentions (insert b (list_at b out ++ ni ∷ []) out) n ≡ (mentions out n || n == ni.name)
unfolding insert lookup
mentions-insert b n ni [] = ground arith
mentions-insert b n ni ((j, w) ∷ out) = elim (Bool-cases (b == j)) [
  | inl same ↦ ground (arith, same, any-append (λ x. n == x.name) w (ni ∷ []))
  | inr differ ↦ ground (arith, differ, mentions-insert b n ni out)
]

contains-names_of :
    (v : List NameIndex) (n : String) → contains (names_of v) n ≡ any (λ ni. n == ni.name) v
unfolding names_of
contains-names_of [] n = refl
contains-names_of (ni ∷ v) n = ground (arith, contains-names_of v n)

module _ (H : Hcl) (C : Cty H) (W : Wire H) where
  open H use {Expr, Value, has_errors, extend}
  open C use {as_value_map}
  open W use {remove_managed_fields, annotations, decode, any-sort_by_index, sort_by_index}

  -- The resource has an annotation with the name of a collection.
  abbrev pub has_base_name : Object → Bool
  has_base_name obj = elim (annotations obj) [
    | some (some found) ↦ not (text_at "hcl.fn.crossplane.io/collection-base-name" found == "")
    | _ ↦ false
  ]

  -- An observed resource of that name belongs to a collection.
  abbrev in_bodies : String → Dict String Object → Bool
  in_bodies n [] = false
  in_bodies n ((name, obj) ∷ observed) = (n == name && has_base_name obj) || in_bodies n observed

  track_resources-mentions :
      (observed : Dict String Object) (out out' : Dict String (List NameIndex)) (n : String)
      → track_resources H C W observed out ≡ some out'
      → mentions out' n ≡ (mentions out n || in_bodies n observed)
  unfolding track_resources add_base_name
  track_resources-mentions [] out out' n h =
      let same : out ≡ out' = ground arith in ground (arith, same)
  track_resources-mentions ((name, obj) ∷ observed) out out' n h =
      elim (Option-cases (annotations obj)) [
        | inl e ↦ absurd (ground (arith, e, h))
        | inr (none, e) ↦
            let later = track_resources-mentions observed out out' n (ground (arith, e, h)) in
            ground (arith, e, later)
        | inr (some a, e) ↦
            let base = text_at "hcl.fn.crossplane.io/collection-base-name" a in
            let index = text_at "hcl.fn.crossplane.io/collection-index" a in
            let ni : NameIndex = record { name = name; index = index } in
            elim (Bool-cases (base == "")) [
              | inl empty ↦
                  let later =
                    track_resources-mentions observed out out' n (ground (arith, e, empty, h)) in
                  ground (arith, e, empty, later)
              | inr named ↦
                  let more = insert base (list_at base out ++ ni ∷ []) out in
                  let later =
                    track_resources-mentions observed more out' n (ground (arith, e, named, h)) in
                  ground (arith, e, named, later, mentions-insert base n ni out)
            ]
      ]

  names_any-sorted_names :
      (out : Dict String (List NameIndex)) (n : String)
      → names_any (sorted_names H C W out) n ≡ mentions out n
  unfolding sorted_names
  names_any-sorted_names [] n = refl
  names_any-sorted_names ((b, v) ∷ out) n = ground (
    arith,
    contains-names_of (sort_by_index v) n,
    any-sort_by_index (λ ni. n == ni.name) v,
    names_any-sorted_names out n,
  )

  lookup-take_values :
      (names : List String) (existing : Dict String Value) (n : String)
      → lookup n (take_values H C W names existing).1
        ≡ (if contains names n then none else lookup n existing)
  unfolding take_values
  lookup-take_values [] existing n = refl
  lookup-take_values (name ∷ names) existing n =
      ground (arith, lookup-take_values names (erase name existing) n, lookup-erase n name existing)

  lookup-take_collections :
      (base_names : Dict String (List String)) (existing : Dict String Value) (n : String)
      → lookup n (take_collections H C W base_names existing).1
        ≡ (if names_any base_names n then none else lookup n existing)
  unfolding take_collections
  lookup-take_collections [] existing n = refl
  lookup-take_collections ((b, names) ∷ base_names) existing n = ground (
    arith,
    lookup-take_collections base_names (take_values H C W names existing).1 n,
    lookup-take_values names existing n,
  )

  -- An observed resource of that name belongs to a collection, by the annotations of its body.
  abbrev pub in_collection : String → Dict String (Object × Object) → Bool
  in_collection n [] = false
  in_collection n ((name, (body, connection)) ∷ observed) =
      (n == name && has_base_name (remove_managed_fields body)) || in_collection n observed

  -- What a document has for an observed resource: its body without the managed fields, or its
  -- connection details.
  abbrev pub body_of : Option (Object × Object) → Option Json
  body_of none = none
  body_of (some (body, connection)) = some (object (remove_managed_fields body))

  abbrev pub connection_of : Option (Object × Object) → Option Json
  connection_of none = none
  connection_of (some (body, connection)) = some (object connection)

  in_bodies-observed_bodies :
      (observed : Dict String (Object × Object)) (n : String)
      → in_bodies n (observed_bodies H C W observed) ≡ in_collection n observed
  unfolding observed_bodies
  in_bodies-observed_bodies [] n = refl
  in_bodies-observed_bodies ((name, (body, connection)) ∷ observed) n =
      ground (arith, in_bodies-observed_bodies observed n)

  get-observed_bodies :
      (observed : Dict String (Object × Object)) (n : String)
      → get n (object_of_objects (observed_bodies H C W observed)) ≡ body_of (lookup n observed)
  unfolding observed_bodies object_of_objects get lookup
  get-observed_bodies [] n = refl
  get-observed_bodies ((name, (body, connection)) ∷ observed) n = elim (Bool-cases (n == name)) [
    | inl same ↦ rw same refl
    | inr differ ↦ rw differ (get-observed_bodies observed n)
  ]

  get-observed_connections :
      (observed : Dict String (Object × Object)) (n : String)
      → get n (object_of_objects (observed_connections H C W observed))
        ≡ connection_of (lookup n observed)
  unfolding observed_connections object_of_objects get lookup
  get-observed_connections [] n = refl
  get-observed_connections ((name, (body, connection)) ∷ observed) n =
      elim (Bool-cases (n == name)) [
        | inl same ↦ rw same refl
        | inr differ ↦ rw differ (get-observed_connections observed n)
      ]

  -- A document with the observed resources of a request, and with their connection details.
  pub record Shows (r : Request) (document : Object) : Type 0 where
    pub bodies : Object
    pub connections : Object
    pub at_resource : get "resource" document ≡ some (object bodies)
    pub at_connection : get "connection" document ≡ some (object connections)
    pub body : (n : String) → get n bodies ≡ body_of (lookup n r.observed)
    pub connection : (n : String) → get n connections ≡ connection_of (lookup n r.observed)

  request_object-Shows : (r : Request) → Shows r (request_object H C W r)
  unfolding request_object get string_eq
  request_object-Shows r = record {
    bodies = object_of_objects (observed_bodies H C W r.observed);
    connections = object_of_objects (observed_connections H C W r.observed);
    at_resource = refl;
    at_connection = refl;
    body = λ n. get-observed_bodies r.observed n;
    connection = λ n. get-observed_connections r.observed n;
  }

  pub make_vars-existing :
      (parent ctx : Ctx Value) (r : Request) (e e' : Evaluator Value) (n : String)
      → make_vars H C W parent r e ≡ some (some ctx, e')
      → (document : Object) × (top : Dict String Value) × Shows r document
        × (decode document ≡ some top)
        × (lookup n e'.existing_resource_map ≡ (
            if in_collection n r.observed
            then none
            else lookup n (as_value_map (value_at H C "resource" top))))
        × (lookup n e'.existing_connection_map ≡ (
            if in_collection n r.observed
            then none
            else lookup n (as_value_map (value_at H C "connection" top))))
  unfolding make_vars track_base_names ◌>>◌ ◌>>=◌ modify pure
  make_vars-existing parent ctx r e e' n h =
      elim (Option-cases (track_resources H C W (observed_bodies H C W r.observed) [])) [
        | inl failed ↦ absurd (ground (arith, failed, h))
        | inr (out, tracked) ↦ elim (Option-cases (decode (request_object H C W r))) [
          | inl failed ↦ absurd (ground (arith, tracked, failed, h))
          | inr (top, decoded) ↦
              let resources = as_value_map (value_at H C "resource" top) in
              let connections = as_value_map (value_at H C "connection" top) in
              let names = sorted_names H C W out in
              let left : (take_collections H C W names resources).1 ≡ e'.existing_resource_map =
                ground (arith, tracked, decoded, h) in
              let left_connections : (take_collections H C W names connections).1
                  ≡ e'.existing_connection_map =
                ground (arith, tracked, decoded, h) in
              let members : names_any names n ≡ in_collection n r.observed = ground (
                arith,
                names_any-sorted_names out n,
                track_resources-mentions (observed_bodies H C W r.observed) [] out n tracked,
                in_bodies-observed_bodies r.observed n,
              ) in
              (
                request_object H C W r,
                top,
                request_object-Shows r,
                decoded,
                rw (← left) (ground (arith, lookup-take_collections names resources n, members)),
                rw (← left_connections)
                    (ground (arith, lookup-take_collections names connections n, members)),
              )
        ]
      ]
