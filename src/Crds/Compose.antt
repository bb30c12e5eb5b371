-- ===== src/Crds/Compose.antt =====
-- Compose and FilterScope of language-server/internal/resource/api.go.
use function_hcl.Base.{
  ◌≡◌, refl, String, Bool, not, ◌&&◌, ◌||◌, Option, none, some, List, [], ◌∷◌, Distinct,
  insert-Distinct, string_eq, ◌==◌, eq_of_==, lookup, lookup-insert, lookup-nil, insert, is_some,
  if◌then◌else◌, first_of, arith, Bool-cases, Option-cases, inl, inr,
}
use function_hcl.Crds.{
  Key, key_eq, Scoped, Schemas, add_schema, add_schemas, compose_onto, compose, with_scope,
  filter_scope,
}

-- The schema of a key in the first set that has one.
abbrev pub first_schema : {S : Type 0} → Key → List (Schemas S) → Option (Scoped S)
first_schema k [] = none
first_schema k (s ∷ schemas) = first_of (lookup k s) (first_schema k schemas)

-- A scope that FilterScope does not filter by.
abbrev pub all_scopes : String → Bool
all_scopes scope = not (scope == "namespaced") && not (scope == "cluster")

abbrev pub in_scope : {S : Type 0} → String → Option (Scoped S) → Option (Scoped S)
in_scope scope none = none
in_scope scope (some v) = if all_scopes scope || v.scope == scope then some v else none

first_of_assoc :
    {A : Type 0} (a b c : Option A) → first_of (first_of a b) c ≡ first_of a (first_of b c)
first_of_assoc none b c = refl
first_of_assoc (some a) b c = refl

module _ {S : Type 0} where
  lookup-add_schema :
      (k j : Key) (v : Scoped S) (out : Schemas S)
      → lookup k (add_schema out j v)
        ≡ (if k == j then first_of (lookup k out) (some v) else lookup k out)
  unfolding add_schema
  lookup-add_schema k j v out = elim (Bool-cases (k == j)) [
    | inl same ↦
        let same_key = eq_of_== k j same in
        elim (Option-cases (lookup j out)) [
          | inl new ↦ ground (arith, lookup-insert k j v out, same, same_key, new)
          | inr (w, found) ↦ ground (arith, same, same_key, found)
        ]
    | inr differ ↦ ground (arith, lookup-insert k j v out, differ)
  ]

  lookup-add_schemas :
      (k : Key) (out s : Schemas S)
      → lookup k (add_schemas out s) ≡ first_of (lookup k out) (lookup k s)
  unfolding add_schemas lookup
  lookup-add_schemas k out [] = ground arith
  lookup-add_schemas k out ((j, v) ∷ s) =
      ground (arith, lookup-add_schemas k (add_schema out j v) s, lookup-add_schema k j v out)

  lookup-compose_onto :
      (k : Key) (out : Schemas S) (schemas : List (Schemas S))
      → lookup k (compose_onto out schemas) ≡ first_of (lookup k out) (first_schema k schemas)
  unfolding compose_onto
  lookup-compose_onto k out [] = ground arith
  lookup-compose_onto k out (s ∷ schemas) = ground (
    arith,
    lookup-compose_onto k (add_schemas out s) schemas,
    lookup-add_schemas k out s,
    first_of_assoc (lookup k out) (lookup k s) (first_schema k schemas),
  )

  add_schemas-Distinct : (out s : Schemas S) → Distinct out → Distinct (add_schemas out s)
  unfolding add_schemas add_schema
  add_schemas-Distinct out [] h = h
  add_schemas-Distinct out ((k, v) ∷ s) h = elim (Bool-cases (is_some (lookup k out))) [
    | inl seen ↦ rw seen (add_schemas-Distinct out s h)
    | inr new ↦ rw new (add_schemas-Distinct (insert k v out) s (insert-Distinct k v out h))
  ]

  compose_onto-Distinct :
      (out : Schemas S) (schemas : List (Schemas S))
      → Distinct out
      → Distinct (compose_onto out schemas)
  unfolding compose_onto
  compose_onto-Distinct out [] h = h
  compose_onto-Distinct out (s ∷ schemas) h =
      compose_onto-Distinct (add_schemas out s) schemas (add_schemas-Distinct out s h)

  lookup-with_scope :
      (k : Key) (scope : String) (s : Schemas S)
      → Distinct s
      → lookup k (with_scope scope s)
        ≡ elim (lookup k s) [ none ↦ none | some v ↦ if v.scope == scope then some v else none ]
  unfolding with_scope lookup
  lookup-with_scope k scope [] h = refl
  lookup-with_scope k scope ((j, v) ∷ s) (new, rest) = elim (Bool-cases (k == j)) [
    | inl same ↦
        let same_key = eq_of_== k j same in
        ground (arith, lookup-with_scope k scope s rest, same, same_key, new)
    | inr differ ↦ ground (arith, lookup-with_scope k scope s rest, differ)
  ]

  -- A key has in the composition, filtered by a scope, the schema of the first set that has the
  -- key, if that schema is of the scope or the scope stands for all.
  pub filter_scope-compose :
      (k : Key) (scope : String) (schemas : List (Schemas S))
      → lookup k (filter_scope scope (compose schemas)) ≡ in_scope scope (first_schema k schemas)
  unfolding filter_scope compose
  filter_scope-compose k scope schemas =
      let found : lookup k (compose_onto [] schemas) ≡ first_schema k schemas =
        ground (arith, lookup-compose_onto k [] schemas, lookup-nil {V = Scoped S} k) in
      let distinct = compose_onto-Distinct [] schemas tt in
      elim (Bool-cases (all_scopes scope)) [
        | inl all ↦ ground (arith, all, found)
        | inr some_scope ↦
            ground (
              arith,
              some_scope,
              found,
              lookup-with_scope k scope (compose_onto [] schemas) distinct,
            )
      ]
