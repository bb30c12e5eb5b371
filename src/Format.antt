-- ===== src/Format.antt =====
-- function/internal/format/format.go: the loop over the tokens of an attribute that writes the keys
-- of object literals with `=` in place of `:`. Scanning, printing and the walk over the body belong
-- to hclwrite.
pub mod Grammar
pub mod Literals
pub mod Attribute
pub mod Similar
mod Tests
use function_hcl.Base.{
  ℕ, String, ◌≡◌, Bool, true, false, ◌&&◌, ◌||◌, Option, none, some, List, [], ◌∷◌, ◌++◌, map, ◌==◌,
  nat_eq, if◌then◌else◌,
}

-- hclsyntax.TokenType: the kinds that the loop tells apart, and all others.
pub data Kind : Type 0 where
  o_brace c_brace question ident colon equal newline comment : Kind
  other : ℕ → Kind

-- hclwrite.Token: its type and bytes.
pub record Token : Type 0 where
  pub kind : Kind
  pub bytes : List ℕ

-- opType
pub data OpType : Type 0 where
  no_context object_literal for_expression ternary_expression : OpType

-- stack.pop
unfoldable pub pop : List OpType → List OpType
pop [] = []
pop (op ∷ ops) = ops

-- stack.peek
unfoldable pub peek : List OpType → OpType
peek [] = no_context
peek (op ∷ ops) = op

-- newStack
unfoldable pub new_stack : List OpType
new_stack = no_context ∷ []

-- The tokens after the first `=`; `none` if there is none.
unfoldable pub after_equal : List Token → Option (List Token)
after_equal [] = none
after_equal (t ∷ tokens) = elim t.kind [ equal ↦ some tokens | _ ↦ after_equal tokens ]

abbrev pub is_trailing : Kind → Bool
is_trailing newline = true
is_trailing comment = true
is_trailing _ = false

-- The second loop of extractContent: without the line feeds and comments at the end.
unfoldable pub trim_end : List Token → List Token
trim_end [] = []
trim_end (t ∷ tokens) = elim (trim_end tokens) [
  | [] ↦ if is_trailing t.kind then [] else t ∷ []
  | u ∷ rest ↦ t ∷ u ∷ rest
]

-- extractContent; `none` is the error, for which it returns all tokens.
unfoldable pub extract_content : List Token → Option (List Token)
unfolding after_equal trim_end
extract_content tokens = elim (after_equal tokens) [ none ↦ none | some t ↦ some (trim_end t) ]

-- `string(token.Bytes) == "for"`
unfoldable pub is_for : List ℕ → Bool
is_for (f ∷ o ∷ r ∷ []) = f == 102 && (o == 111 && r == 114)
is_for _ = false

-- `bytes.ReplaceAll(token.Bytes, []byte{':'}, []byte{'='})`
unfoldable pub replace_colons : List ℕ → List ℕ
replace_colons [] = []
replace_colons (b ∷ bs) = (if b == 58 then 61 else b) ∷ replace_colons bs

-- One token: it and the stack afterwards; `none` where the loop gives up.
unfoldable pub fix_token : Token → List OpType → Option (Token × List OpType)
unfolding peek pop is_for replace_colons
fix_token t ops = elim t.kind [
  | o_brace ↦ some (t, object_literal ∷ ops)
  | question ↦ some (t, ternary_expression ∷ ops)
  | ident ↦ some (t, if is_for t.bytes then for_expression ∷ ops else ops)
  | c_brace ↦ elim (peek ops) [ object_literal ↦ some (t, pop ops) | _ ↦ none ]
  | colon ↦ elim (peek ops) [
    | object_literal ↦ some (record { kind = equal; bytes = replace_colons t.bytes }, ops)
    | for_expression ↦ some (t, pop ops)
    | ternary_expression ↦ some (t, pop ops)
    | no_context ↦ none
  ]
  | _ ↦ some (t, ops)
]

-- `result = append(result, &token)`, for tokens in front of a result.
unfoldable pub prepend : List Token → Option (List Token) → Option (List Token)
prepend tokens none = none
prepend tokens (some result) = some (tokens ++ result)

-- The loop of fixObjectLiteralStyle.
unfoldable pub fix_tokens : List Token → List OpType → Option (List Token)
unfolding fix_token prepend
fix_tokens [] ops = some []
fix_tokens (t ∷ tokens) ops = elim (fix_token t ops) [
  | none ↦ none
  | some (t', ops') ↦ prepend (t' ∷ []) (fix_tokens tokens ops')
]

-- fixObjectLiteralStyle
unfoldable pub fix_object_literal_style : List Token → List Token
unfolding extract_content new_stack fix_tokens
fix_object_literal_style input = elim (extract_content input) [
  | none ↦ input
  | some tokens ↦ elim (fix_tokens tokens new_stack) [ none ↦ tokens | some result ↦ result ]
]
