-- ===== src/Evaluator/Sample.antt =====
-- A small instance of `Hcl` and `Cty`, for instances of the theorems: a value is a JSON value or
-- unknown, an expression is a constant or a variable, and a body is a tree.
pub mod Files
use function_hcl.Base.{
  ℕ, ◌+◌, ◌<◌, suc, String, ◌≡◌, refl, ap, true, false, Option, none, some, List, [], ◌∷◌, ◌++◌,
  Dict, contains, All, string_eq, ==_refl, arith, is_some,
}
use function_hcl.Hcl.{Hcl, Ctx, Block, Diags, external, error, resolve, any_error}
use function_hcl.Json.{Json, null, boolean, number, text, object, Object, end, field}
use function_hcl.Evaluator.{Cty, Content, mapping, not_iterable}

pub data Term : Type 0 where
  constant : Option Json → Term
  variable : String → Term

mutual
  pub data Tree : Type 0 where
    tree : Dict String Term → Blocks → Tree

  pub data Blocks : Type 0 where
    no_blocks : Blocks
    a_block : String → List String → Tree → Blocks → Blocks

abbrev tree_attributes : Tree → Dict String Term
tree_attributes (tree attributes _) = attributes

abbrev mutual
  tree_depth : Tree → ℕ
  tree_depth (tree attributes blocks) = suc (blocks_depth blocks)

  blocks_depth : Blocks → ℕ
  blocks_depth no_blocks = 0
  blocks_depth (a_block type labels body blocks) = tree_depth body + blocks_depth blocks

abbrev block_list : Blocks → List (Block Tree)
block_list no_blocks = []
block_list (a_block type labels body blocks) =
    record { type = type; labels = labels; body = body } ∷ block_list blocks

abbrev pub tree_content : Tree → Content Term Tree
tree_content (tree attributes blocks) = record {
  attributes = attributes;
  blocks = block_list blocks;
}

block_list_depth :
    (blocks : Blocks) (n : ℕ)
    → blocks_depth blocks < n
    → All (λ b. tree_depth b.body < n) (block_list blocks)
block_list_depth no_blocks n h = tt
block_list_depth (a_block type labels body blocks) n h =
    (omega arith, block_list_depth blocks n (omega arith))

pub tree_content_depth :
    (t : Tree) → All (λ b. tree_depth b.body < tree_depth t) (tree_content t).blocks
tree_content_depth (tree attributes blocks) =
    block_list_depth blocks (suc (blocks_depth blocks)) (omega arith)

abbrev variables : Term → List String
variables (constant v) = []
variables (variable x) = x ∷ []

abbrev found_value : Option (Option Json) → Option Json × Diags
found_value (some v) = (v, [])
found_value none = (none, record { severity = error; summary = external "no variable" } ∷ [])

abbrev term_value : Term → Ctx (Option Json) → Option Json × Diags
term_value (constant v) c = (v, [])
term_value (variable x) c = found_value (resolve x c)

pub term_value_local :
    (t : Term) (c d : Ctx (Option Json))
    → ((x : String) → contains (variables t) x ≡ true → resolve x c ≡ resolve x d)
    → term_value t c ≡ term_value t d
term_value_local (constant v) c d h = refl
term_value_local (variable x) c d h = ap found_value (h x (ground (arith, ==_refl x)))

abbrev pub tree_hcl : Hcl
tree_hcl = record {
  Expr = Term;
  Value = Option Json;
  Body = Tree;
  just_attributes = λ t. (tree_attributes t, []);
  variables = variables;
  value = term_value;
  extend = λ a b. a ++ b;
  has_errors = any_error;
  value_local = term_value_local;
  extend_lem = λ a b. refl;
  has_errors_lem = λ ds. refl;
}

abbrev pub entries : Object → Dict String (Option Json)
entries end = []
entries (field k v o) = (k, some v) ∷ entries o

-- The object of some values, unknown if one of them is.
abbrev object_of : Dict String (Option Json) → Option Object
object_of [] = some end
object_of ((k, none) ∷ d) = none
object_of ((k, some v) ∷ d) = elim (object_of d) [ none ↦ none | some o ↦ some (field k v o) ]

abbrev text_of : Option Json → String
text_of (some (text s)) = s
text_of _ = ""

abbrev pub tree_cty : Cty tree_hcl
tree_cty = record {
  is_null = λ v. elim v [ some null ↦ true | _ ↦ false ];
  is_wholly_known = λ v. is_some v;
  is_string = λ v. elim v [ some (text s) ↦ true | _ ↦ false ];
  is_bool = λ v. elim v [ some (boolean b) ↦ true | _ ↦ false ];
  is_object = λ v. elim v [ some (object o) ↦ true | _ ↦ false ];
  as_string = text_of;
  is_true = λ v. elim v [ some (boolean b) ↦ b | _ ↦ false ];
  as_value_map = λ v. elim v [ some (object o) ↦ entries o | _ ↦ [] ];
  has_value_map = λ v. elim v [ some (object o) ↦ true | none ↦ true | _ ↦ false ];
  shape = λ v. elim v [ some (object o) ↦ mapping (entries o) | _ ↦ not_iterable ];
  string_val = λ s. some (text s);
  number_val = λ n. some (number n);
  object_val = λ d. elim (object_of d) [ none ↦ none | some o ↦ some (object o) ];
  nil_val = some null;
  to_json = λ v. v;
  to_struct = λ v. elim v [ some (object o) ↦ some o | _ ↦ none ];
  new_struct = λ o. some o;
  base64_decode = λ s. none;
  ready_value = λ s. none;
  content = λ t schema. (tree_content t, []);
  message = λ d. "";
  traverse = λ t c. [];
  unknown_paths = λ v. ([], false);
  join = λ texts. "";
  index_text = λ n. "";
  default_name = (constant none, []);
  depth = tree_depth;
  content_depth = λ t schema. tree_content_depth t;
}
