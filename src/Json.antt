-- ===== src/Json.antt =====
-- The values that encoding/json makes of a document, as the evaluator handles them: `any`, `Object`
-- (map[string]any), and reflect.DeepEqual over them. A float64 stands by its bit pattern.
use function_hcl.Base.{
  ℕ, String, Bool, true, false, ◌&&◌, Option, none, some, ◌==◌, string_eq, nat_eq, if◌then◌else◌,
  suc,
}

mutual
  pub data Json : Type 0 where
    null : Json
    boolean : Bool → Json
    number : ℕ → Json
    text : String → Json
    array : Items → Json
    object : Object → Json

  pub data Items : Type 0 where
    nil : Items
    item : Json → Items → Items

  -- The entries of a map, in the order in which `range` visits them.
  pub data Object : Type 0 where
    end : Object
    field : String → Json → Object → Object

-- `v, ok := m[k]`
unfoldable pub get : String → Object → Option Json
get k end = none
get k (field j v o) = if k == j then some v else get k o

-- `m[k] = v`
unfoldable pub put : String → Json → Object → Object
put k v end = field k v end
put k v (field j w o) = if k == j then field k v o else field j w (put k v o)

abbrev pub size : Object → ℕ
size end = 0
size (field k v o) = suc (size o)

abbrev pub bool_eq : Bool → Bool → Bool
bool_eq true b = b
bool_eq false true = false
bool_eq false false = true

-- reflect.DeepEqual: maps are equal if they have as many keys, and equal values at each.
unfoldable mutual
  pub deep_equal : Json → Json → Bool
  deep_equal null null = true
  deep_equal (boolean a) (boolean b) = bool_eq a b
  deep_equal (number a) (number b) = a == b
  deep_equal (text a) (text b) = a == b
  deep_equal (array a) (array b) = items_equal a b
  deep_equal (object a) (object b) = (size a == size b) && fields_equal a b
  deep_equal _ _ = false

  pub items_equal : Items → Items → Bool
  items_equal nil nil = true
  items_equal (item a s) (item b t) = deep_equal a b && items_equal s t
  items_equal _ _ = false

  -- Each entry of the first map has its equal in the second.
  pub fields_equal : Object → Object → Bool
  fields_equal end b = true
  fields_equal (field k v o) b = elim (get k b) [
    | none ↦ false
    | some w ↦ deep_equal v w && fields_equal o b
  ]
