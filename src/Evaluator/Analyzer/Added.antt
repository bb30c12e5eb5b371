-- ===== src/Evaluator/Analyzer/Added.antt =====
-- Names that a list adds to those that checkStructure of function/internal/evaluator/analyze.go has
-- collected, each of them new.
use function_hcl.Base.{
  ◌≡◌, refl, sym, ◌∙◌, ap, String, true, false, List, [], ◌∷◌, ◌++◌, contains, ◌==◌, eq_of_==,
  ==_refl, string_eq, if◌then◌else◌, arith, Bool-cases, inl, inr,
}
use function_hcl.Hcl.{Block}
use function_hcl.Evaluator.Analyzer.{Names}

-- The kinds of names.
pub data Kind : Type 0 where
  resource_kind collection_kind requirement_kind : Kind

abbrev pub type_of : Kind → String
type_of resource_kind = "resource"
type_of collection_kind = "resources"
type_of requirement_kind = "requirement"

abbrev pub names_of : Kind → Names → List String
names_of resource_kind a = a.resource_names
names_of collection_kind a = a.collection_names
names_of requirement_kind a = a.requirement_names

-- No name stands twice.
abbrev pub Unique : List String → Type 0
Unique [] = Unit {0}
Unique (x ∷ xs) = (contains xs x ≡ false) × Unique xs

-- The names, one after the other, in front of others.
abbrev pub add_all : List String → List String → List String
add_all [] ns = ns
add_all (x ∷ xs) ns = add_all xs (x ∷ ns)

-- Each name is new when its turn comes.
abbrev pub AllNew : List String → List String → Type 0
AllNew [] ns = Unit {0}
AllNew (x ∷ xs) ns = (contains ns x ≡ false) × AllNew xs (x ∷ ns)

add_all-append : (xs ys ns : List String) → add_all (xs ++ ys) ns ≡ add_all ys (add_all xs ns)
add_all-append [] ys ns = refl
add_all-append (x ∷ xs) ys ns = add_all-append xs ys (x ∷ ns)

AllNew-append :
    (xs ys ns : List String) → AllNew xs ns → AllNew ys (add_all xs ns) → AllNew (xs ++ ys) ns
AllNew-append [] ys ns h k = k
AllNew-append (x ∷ xs) ys ns (new, h) k = (new, AllNew-append xs ys (x ∷ ns) h k)

AllNew-apart :
    (xs ns : List String) (y : String) → AllNew xs ns → contains ns y ≡ true → contains xs y ≡ false
AllNew-apart [] ns y h k = refl
AllNew-apart (x ∷ xs) ns y (new, h) k =
    let later = AllNew-apart xs (x ∷ ns) y h (ground (arith, k)) in
    elim (Bool-cases (y == x)) [
      | inl same ↦ let same_name = eq_of_== y x same in absurd (ground (arith, new, k, same_name))
      | inr differ ↦ ground (arith, differ, later)
    ]

pub AllNew-Unique : (xs ns : List String) → AllNew xs ns → Unique xs
AllNew-Unique [] ns h = tt
AllNew-Unique (x ∷ xs) ns (new, h) =
    (AllNew-apart xs (x ∷ ns) x h (ground (arith, ==_refl x)), AllNew-Unique xs (x ∷ ns) h)

-- The name that a block declares of a kind.
abbrev pub own_names : {B : Type 0} → Kind → Block B → List String
own_names k b = elim b.labels [
  | [] ↦ []
  | name ∷ labels ↦ if b.type == type_of k then name ∷ [] else []
]

-- What a check without errors says of the names before and after it.
pub record Adds (k : Kind) (xs : List String) (a a' : Names) : Type 0 where
  pub after : names_of k a' ≡ add_all xs (names_of k a)
  pub new : AllNew xs (names_of k a)

pub Adds-nil : (k : Kind) (a : Names) → Adds k [] a a
Adds-nil k a = record { after = refl; new = tt }

pub Adds-append :
    (k : Kind) (xs ys : List String) (a b c : Names)
    → Adds k xs a b
    → Adds k ys b c
    → Adds k (xs ++ ys) a c
Adds-append k xs ys a b c f g = record {
  after = g.after ∙ ap (add_all ys) f.after ∙ sym (add_all-append xs ys (names_of k a));
  new = AllNew-append xs ys (names_of k a) f.new (rw (← f.after) g.new);
}

pub resource_names-Adds :
    (k : Kind) (name : String) (a : Names)
    → contains a.resource_names name ≡ false
    → Adds k
        (if "resource" == type_of k then name ∷ [] else [])
        a
        (record a { resource_names = name ∷ a.resource_names })
unfolding string_eq
resource_names-Adds resource_kind name a new = record { after = refl; new = (new, tt) }
resource_names-Adds collection_kind name a new = record { after = refl; new = tt }
resource_names-Adds requirement_kind name a new = record { after = refl; new = tt }

pub collection_names-Adds :
    (k : Kind) (name : String) (a : Names)
    → contains a.collection_names name ≡ false
    → Adds k
        (if "resources" == type_of k then name ∷ [] else [])
        a
        (record a { collection_names = name ∷ a.collection_names })
unfolding string_eq
collection_names-Adds resource_kind name a new = record { after = refl; new = tt }
collection_names-Adds collection_kind name a new = record { after = refl; new = (new, tt) }
collection_names-Adds requirement_kind name a new = record { after = refl; new = tt }

pub requirement_names-Adds :
    (k : Kind) (name : String) (a : Names)
    → contains a.requirement_names name ≡ false
    → Adds k
        (if "requirement" == type_of k then name ∷ [] else [])
        a
        (record a { requirement_names = name ∷ a.requirement_names })
unfolding string_eq
requirement_names-Adds resource_kind name a new = record { after = refl; new = tt }
requirement_names-Adds collection_kind name a new = record { after = refl; new = tt }
requirement_names-Adds requirement_kind name a new = record { after = refl; new = (new, tt) }

pub other_type :
    (k : Kind) (type : String)
    → (type == "resource") ≡ false
    → (type == "resources") ≡ false
    → (type == "requirement") ≡ false
    → (type == type_of k) ≡ false
other_type resource_kind type h1 h2 h3 = h1
other_type collection_kind type h1 h2 h3 = h2
other_type requirement_kind type h1 h2 h3 = h3
