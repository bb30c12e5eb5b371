-- ===== src/Unify/Bytes.antt =====
-- unifyBytes of function/internal/evaluator/utils.go as a join of maps.
use function_hcl.Base.{
  ℕ, String, ◌≡◌, refl, true, none, some, List, [], ◌∷◌, Dict, ◌==◌, ==_refl, eq_of_==, lookup,
  insert, lookup-insert, lookup-nil, string_eq, nat_eq, All, arith, Option-cases, Bool-cases, inl,
  inr,
}
use function_hcl.Unify.{
  Unified, ok, type_mismatch, not_equal, out_of_fuel, ◌>>=◌, bytes_equal, unify_bytes_fields,
  unify_bytes_loop, unify_bytes,
}

abbrev pub Entries : Type 0
Entries = Dict String (List ℕ)

-- The map has each entry of the list.
abbrev pub Has : Entries → Entries → Type 0
Has d input = All (λ entry. lookup entry.0 d ≡ some entry.1) input

-- The map has each entry of each input.
abbrev pub Covers : Entries → List Entries → Type 0
Covers d inputs = All (Has d) inputs

-- What the first map has, the second has too.
abbrev pub Below : Entries → Entries → Type 0
Below a b = (k : String) (v : List ℕ) → lookup k a ≡ some v → lookup k b ≡ some v

bytes_equal_refl : (a : List ℕ) → bytes_equal a a ≡ true
unfolding bytes_equal
bytes_equal_refl [] = refl
bytes_equal_refl (b ∷ a) = ground (arith, bytes_equal_refl a)

eq_of_bytes_equal : (a b : List ℕ) → bytes_equal a b ≡ true → a ≡ b
unfolding bytes_equal
eq_of_bytes_equal [] [] h = refl
eq_of_bytes_equal [] (y ∷ b) h = absurd (ground arith)
eq_of_bytes_equal (x ∷ a) [] h = absurd (ground arith)
eq_of_bytes_equal (x ∷ a) (y ∷ b) h = elim (Bool-cases (x == y)) [
  | inl same ↦
      let rest : a ≡ b = eq_of_bytes_equal a b (ground (arith, same, h)) in
      let first : x ≡ y = eq_of_== x y same in rw (first, rest) refl
  | inr differ ↦ absurd (ground (arith, differ, h))
]

insert-Below :
    (k : String) (v : List ℕ) (ret d : Entries)
    → Below ret d
    → lookup k d ≡ some v
    → Below (insert k v ret) d
insert-Below k v ret d below here j w h = elim (Bool-cases (j == k)) [
  | inl same ↦
      let same_key : j ≡ k = eq_of_== j k same in
      let same_value : v ≡ w = ground (arith, lookup-insert j k v ret, same, h) in
      rw (same_key, ← same_value) here
  | inr differ ↦ below j w (ground (arith, lookup-insert j k v ret, differ, h))
]

insert-Keeps :
    (k : String) (v : List ℕ) (ret : Entries) → lookup k ret ≡ none → Below ret (insert k v ret)
insert-Keeps k v ret new j w h = elim (Bool-cases (j == k)) [
  | inl same ↦ let same_key : j ≡ k = eq_of_== j k same in absurd (ground (arith, new, h, same_key))
  | inr differ ↦ ground (arith, lookup-insert j k v ret, differ, h)
]

-- The loop over one input keeps what it has and adds each entry.
fields-Has :
    (ret input ret' : Entries)
    → unify_bytes_fields ret input ≡ ok ret'
    → Below ret ret' × Has ret' input
unfolding unify_bytes_fields
fields-Has ret [] ret' h =
    let same : ret ≡ ret' = ground arith in (λ k v found. rw (← same) found, tt)
fields-Has ret ((k, v) ∷ input) ret' h = elim (Option-cases (lookup k ret)) [
  | inl new ↦
      let rest : unify_bytes_fields (insert k v ret) input ≡ ok ret' = ground (arith, new, h) in
      let (below, has) = fields-Has (insert k v ret) input ret' rest in
      (
        λ j w found. below j w (insert-Keeps k v ret new j w found),
        (below k v (ground (arith, lookup-insert k k v ret, ==_refl k)), has),
      )
  | inr (existing, found) ↦ elim (Bool-cases (bytes_equal v existing)) [
    | inl same ↦
        let rest : unify_bytes_fields ret input ≡ ok ret' = ground (arith, found, same, h) in
        let (below, has) = fields-Has ret input ret' rest in
        (below, (rw (eq_of_bytes_equal v existing same) (below k existing found), has))
    | inr differ ↦ absurd (ground (arith, found, differ, h))
  ]
]

Has-Below : (a b input : Entries) → Below a b → Has a input → Has b input
Has-Below a b [] below h = tt
Has-Below a b ((k, v) ∷ input) below (here, rest) = (below k v here, Has-Below a b input below rest)

-- A chain that succeeds has a first step that succeeds.
chain_ok :
    {A B : Type 0} (u : Unified A) (f : A → Unified B) (b : B)
    → (u >>= f) ≡ ok b
    → (a : A) × (u ≡ ok a) × (f a ≡ ok b)
chain_ok (ok a) f b h = (a, refl, h)
chain_ok (type_mismatch p) f b h = absurd (ground arith)
chain_ok (not_equal p) f b h = absurd (ground arith)
chain_ok out_of_fuel f b h = absurd (ground arith)

loop-Covers :
    (ret : Entries) (inputs : List Entries) (ret' : Entries)
    → unify_bytes_loop ret inputs ≡ ok ret'
    → Below ret ret' × Covers ret' inputs
unfolding unify_bytes_loop
loop-Covers ret [] ret' h =
    let same : ret ≡ ret' = ground arith in (λ k v found. rw (← same) found, tt)
loop-Covers ret (input ∷ inputs) ret' h =
    let (ret1, first, second) =
      chain_ok (unify_bytes_fields ret input) (λ r. unify_bytes_loop r inputs) ret' h in
    let (below1, has1) = fields-Has ret input ret1 first in
    let (below2, covers) = loop-Covers ret1 inputs ret' second in
    (λ k v found. below2 k v (below1 k v found), (Has-Below ret1 ret' input below2 has1, covers))

-- The loop over one input succeeds below every map that has the entries.
fields-Below :
    (d ret input : Entries)
    → Below ret d
    → Has d input
    → (ret' : Entries) × (unify_bytes_fields ret input ≡ ok ret') × Below ret' d
unfolding unify_bytes_fields
fields-Below d ret [] below h = (ret, refl, below)
fields-Below d ret ((k, v) ∷ input) below (here, rest) = elim (Option-cases (lookup k ret)) [
  | inl new ↦
      let (ret', done, below') =
        fields-Below d (insert k v ret) input (insert-Below k v ret d below here) rest in
      (ret', ground (arith, new, done), below')
  | inr (existing, found) ↦
      let in_d : lookup k d ≡ some existing = below k existing found in
      let same : v ≡ existing = ground (arith, here, in_d) in
      let equal : bytes_equal v existing ≡ true = rw same (bytes_equal_refl existing) in
      let (ret', done, below') = fields-Below d ret input below rest in
      (ret', ground (arith, found, equal, done), below')
]

loop-Below :
    (d ret : Entries) (inputs : List Entries)
    → Below ret d
    → Covers d inputs
    → (ret' : Entries) × (unify_bytes_loop ret inputs ≡ ok ret') × Below ret' d
unfolding unify_bytes_loop
loop-Below d ret [] below h = (ret, refl, below)
loop-Below d ret (input ∷ inputs) below (here, rest) =
    let (ret1, first, below1) = fields-Below d ret input below here in
    let (ret2, second, below2) = loop-Below d ret1 inputs below1 rest in
    (ret2, rw first second, below2)

-- If some map has every entry of the inputs, unifyBytes succeeds, and its result has every entry of
-- the inputs and only entries that the map has.
pub unify_bytes_least :
    (d : Entries) (inputs : List Entries)
    → Covers d inputs
    → (ret : Entries) × (unify_bytes inputs ≡ ok ret) × Covers ret inputs × Below ret d
unfolding unify_bytes
unify_bytes_least d inputs h =
    let (ret, done, below) =
      loop-Below d [] inputs
        (λ k v found. absurd (ground (arith, lookup-nil {V = List ℕ} k, found))) h in
    (ret, done, (loop-Covers [] inputs ret done).1, below)

-- Inputs that unifyBytes accepts are covered by its result.
pub unify_bytes-Covers :
    (inputs : List Entries) (ret : Entries) → unify_bytes inputs ≡ ok ret → Covers ret inputs
unfolding unify_bytes
unify_bytes-Covers inputs ret h = (loop-Covers [] inputs ret h).1
