-- ===== src/Tokens.antt =====
-- language-server/internal/langserver/lsp/token_encoder.go: semantic tokens as the numbers of the
-- protocol, each token relative to the one before, with the legends of semantic_tokens.go and the
-- tokens of language-server/internal/langhcl/lang/semtok.
pub mod Protocol
pub mod RoundTrip
mod Tests
use Prim.Native.Nat.{bit_or}
use function_hcl.Base.{
  ℕ, zero, suc, ◌+◌, ◌-◌, ◌%◌, ◌^◌, String, Bool, true, false, ◌&&◌, ◌||◌, Option, none, some, List,
  [], ◌∷◌, ◌++◌, Dict, lookup, length, get_elem?, ◌==◌, string_eq, nat_eq, if◌then◌else◌,
}
use function_hcl.Document.{SourcePos}
use function_hcl.Document.Source.{Line}

-- semtok.SemanticToken, with its range.
pub record SemanticToken : Type 0 where
  pub type : String
  pub modifiers : List String
  pub start : SourcePos
  pub end : SourcePos

-- TokenTypesLegend
abbrev pub token_types_legend : List String
token_types_legend =
    "namespace" ∷ "class" ∷ "enumMember" ∷ "function" ∷ "keyword" ∷ "number" ∷ "property" ∷ "string"
    ∷ "variable" ∷ "operator" ∷ []

-- TokenModifiersLegend
abbrev pub token_modifiers_legend : List String
token_modifiers_legend = "declaration" ∷ "definition" ∷ []

-- The loops of NewTokenEncoder: each name with its index.
unfoldable pub indexes : ℕ → List String → Dict String ℕ
indexes i [] = []
indexes i (name ∷ legend) = (name, i) ∷ indexes (suc i) legend

unfoldable pub type_index : String → Option ℕ
unfolding indexes
type_index type = lookup type (indexes 0 token_types_legend)

-- uint32 of a number, and of a difference, which can be negative.
abbrev pub to_uint32 : ℕ → ℕ
to_uint32 n = n % 4294967296

abbrev pub diff32 : ℕ → ℕ → ℕ
diff32 a b = (a + (4294967296 - b % 4294967296)) % 4294967296

-- The index of a modifier, or zero if the mapping lacks it.
abbrev pub modifier_index : Option ℕ → ℕ
modifier_index none = 0
modifier_index (some i) = i

-- computeBitmask
unfoldable pub compute_bitmask : Dict String ℕ → List String → ℕ → ℕ
compute_bitmask mapping [] bit_mask = bit_mask
compute_bitmask mapping (modifier ∷ values) bit_mask =
    compute_bitmask mapping values (bit_or bit_mask (2 ^ modifier_index (lookup modifier mapping)))

-- bytes.TrimRight(b, "\n\r")
unfoldable pub trim_right : List ℕ → List ℕ
trim_right [] = []
trim_right (b ∷ bytes) = elim (trim_right bytes) [
  | [] ↦ if b == 10 || b == 13 then [] else b ∷ []
  | c ∷ rest ↦ b ∷ c ∷ rest
]

-- The line and start of the token encoded before, as far as the deltas need them: `i` is the index
-- of the token. Lines and columns of HCL start at one.
unfoldable pub previous : ℕ → SemanticToken → SemanticToken → ℕ × ℕ
previous zero last token = (0, 0)
previous (suc i) last token =
    let line = last.end.line - 1 in
    (line, if token.end.line - 1 == line then last.start.column - 1 else 0)

-- The loop over the lines of a token, for as many lines as are left; `none` is the panic on a line
-- that the text does not have.
unfoldable pub encode_lines : List Line → SemanticToken → ℕ → ℕ → ℕ → ℕ → ℕ → ℕ → Option (List ℕ)
unfolding trim_right
encode_lines lines token type mask previous_start zero token_line previous_line = some []
encode_lines lines token type mask previous_start (suc more) token_line previous_line =
    let rest = encode_lines lines token type mask previous_start more (suc token_line) token_line in
    elim (get_elem? lines token_line) [
      | none ↦ none
      | some l ↦ elim rest [
        | none ↦ none
        | some numbers ↦ some (
            diff32 token_line previous_line
            ∷ (if token_line == token.start.line - 1
                then diff32 token.start.column (suc previous_start)
                else 0)
            ∷ (if token_line == token.end.line - 1
                then diff32 token.end.column 1
                else to_uint32 (length (trim_right l.bytes)))
            ∷ type
            ∷ mask
            ∷ numbers)
      ]
    ]

-- What encodeTokenOfIndex yields: nothing for a token whose type has no index.
pub data Encoded : Type 0 where
  skipped : Encoded
  encoded : List ℕ → Encoded
  panicked : Encoded

-- The end of encodeTokenOfIndex, for the index of the type.
unfoldable pub encode_known : List Line → ℕ → SemanticToken → SemanticToken → ℕ → Encoded
unfolding previous encode_lines compute_bitmask indexes
encode_known lines i last token type =
    let mask = to_uint32 (compute_bitmask (indexes 0 token_modifiers_legend) token.modifiers 0) in
    let (previous_line, previous_start) = previous i last token in
    if token.end.line == token.start.line
    then encoded (
        diff32 token.start.line (suc previous_line)
        ∷ diff32 token.start.column (suc previous_start)
        ∷ diff32 token.end.byte token.start.byte
        ∷ to_uint32 type
        ∷ mask
        ∷ [])
    else elim (encode_lines lines token (to_uint32 type) mask previous_start
        (suc token.end.line - token.start.line) (token.start.line - 1) previous_line) [
          | none ↦ panicked
          | some numbers ↦ encoded numbers
        ]

-- encodeTokenOfIndex, where `last` is the token at lastEncodedTokenIdx.
unfoldable pub encode_token : List Line → ℕ → SemanticToken → SemanticToken → Encoded
unfolding encode_known
encode_token lines i last token = elim (type_index token.type) [
  | none ↦ skipped
  | some type ↦ encode_known lines i last token type
]

-- The loop of Encode from an index on.
unfoldable pub encode_from : List Line → ℕ → SemanticToken → List SemanticToken → Option (List ℕ)
unfolding encode_token
encode_from lines i last [] = some []
encode_from lines i last (token ∷ tokens) =
    let after_skip = encode_from lines (suc i) last tokens in
    let after = encode_from lines (suc i) token tokens in
    elim (encode_token lines i last token) [
      | skipped ↦ after_skip
      | panicked ↦ none
      | encoded numbers ↦ elim after [ none ↦ none | some rest ↦ some (numbers ++ rest) ]
    ]

-- Encode
unfoldable pub encode : List Line → List SemanticToken → Option (List ℕ)
unfolding encode_from
encode lines [] = some []
encode lines (token ∷ tokens) = encode_from lines 0 token (token ∷ tokens)
