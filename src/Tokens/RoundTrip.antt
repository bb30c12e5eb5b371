-- ===== src/Tokens/RoundTrip.antt =====
-- That a client reads the tokens which the encoder of token_encoder.go wrote.
use function_hcl.Base.{
  ℕ, suc, ◌+◌, ◌-◌, ◌*◌, ◌≤◌, ◌<◌, ◌≡◌, refl, ap, ◌∙◌, ◌⊎◌, inl, inr, Bool-cases, Bool, true, false,
  ◌||◌, String, All, contains, lookup, eq_of_==, if◌then◌else◌, some, List, [], ◌∷◌, ◌++◌, ◌==◌,
  nat_eq, string_eq, arith,
}
use function_hcl.Document.Source.{Line}
use function_hcl.Tokens.{
  SemanticToken, token_types_legend, token_modifiers_legend, indexes, type_index, to_uint32, diff32,
  compute_bitmask, previous, encoded, encode_known, encode_token, encode_from, encode,
}
use function_hcl.Tokens.Protocol.{Placed, position, flags, read_tokens}

-- A token of a known type and known modifiers on one line, whose numbers a machine word holds.
pub record Fits (token : SemanticToken) : Type 0 where
  pub index : ℕ
  pub known : type_index token.type ≡ some index
  pub index_small : index < 4294967296
  pub modifiers_known : All (λ m. contains token_modifiers_legend m ≡ true) token.modifiers
  pub one_line : token.end.line ≡ token.start.line
  pub line_some : 1 ≤ token.start.line
  pub line_small : token.start.line < 4294967296
  pub column_some : 1 ≤ token.start.column
  pub column_small : token.start.column < 4294967296
  pub bytes : token.start.byte ≤ token.end.byte
  pub bytes_small : token.end.byte < 4294967296

-- The second token does not start before the first.
abbrev pub Follows : SemanticToken → SemanticToken → Type 0
Follows a b =
    (a.start.line < b.start.line)
    ⊎ ((a.start.line ≡ b.start.line) × (a.start.column ≤ b.start.column))

abbrev pub Ordered : SemanticToken → List SemanticToken → Type 0
Ordered last [] = Unit {0}
Ordered last (token ∷ tokens) = Fits token × Follows last token × Ordered token tokens

-- The place of a token, its length in bytes, the place of its type in the legend of types, and a
-- number with one bit for each modifier of the legend.
unfoldable pub place : SemanticToken → Placed
place token = record {
  line = token.start.line - 1;
  start = token.start.column - 1;
  length = token.end.byte - token.start.byte;
  type = position token.type token_types_legend;
  modifiers = flags token.modifiers token_modifiers_legend;
}

unfoldable pub places : List SemanticToken → List Placed
places [] = []
places (token ∷ tokens) = place token ∷ places tokens

diff32_lem : (a b : ℕ) → b ≤ a → a < 4294967296 → diff32 a b ≡ a - b
diff32_lem a b h small = omega arith

to_uint32_lem : (a : ℕ) → a < 4294967296 → to_uint32 a ≡ a
to_uint32_lem a small = omega arith

-- The number that stands for the modifiers of a token.
abbrev mask_of : SemanticToken → ℕ
mask_of token = to_uint32 (compute_bitmask (indexes 0 token_modifiers_legend) token.modifiers 0)

lookup-indexes :
    (name : String) (i j : ℕ) (legend : List String)
    → lookup name (indexes i legend) ≡ some j
    → i + position name legend ≡ j
unfolding indexes lookup
lookup-indexes name i j [] h = absurd (ground (arith, h))
lookup-indexes name i j (n ∷ legend) h = elim (Bool-cases (name == n)) [
  | inl same ↦ let here : i ≡ j = ground (arith, same, h) in rw same (omega (arith, here))
  | inr differ ↦
      let rest = lookup-indexes name (suc i) j legend (ground (arith, differ, h)) in
      rw differ (omega (arith, rest))
]

type_index_lem :
    (type : String) (i : ℕ) → type_index type ≡ some i → position type token_types_legend ≡ i
unfolding type_index
type_index_lem type i h = omega (arith, lookup-indexes type 0 i token_types_legend h)

abbrev bit : Bool → ℕ
bit b = if b then 1 else 0

-- computeBitmask sets the bits of some modifiers, whichever of the two bits are set before.
abbrev SetsBits : List String → Type 0
SetsBits modifiers =
    (p q : Bool)
    → compute_bitmask (indexes 0 token_modifiers_legend) modifiers (bit p + 2 * bit q)
      ≡ bit (p || contains modifiers "declaration") + 2 * bit (q || contains modifiers "definition")

declaration-SetsBits :
    (modifiers : List String) → SetsBits modifiers → SetsBits ("declaration" ∷ modifiers)
unfolding compute_bitmask indexes lookup string_eq
declaration-SetsBits modifiers h true true = h true true
declaration-SetsBits modifiers h true false = h true false
declaration-SetsBits modifiers h false true = h true true
declaration-SetsBits modifiers h false false = h true false

definition-SetsBits :
    (modifiers : List String) → SetsBits modifiers → SetsBits ("definition" ∷ modifiers)
unfolding compute_bitmask indexes lookup string_eq
definition-SetsBits modifiers h true true = h true true
definition-SetsBits modifiers h true false = h true true
definition-SetsBits modifiers h false true = h false true
definition-SetsBits modifiers h false false = h false true

compute_bitmask-SetsBits :
    (modifiers : List String)
    → All (λ m. contains token_modifiers_legend m ≡ true) modifiers
    → SetsBits modifiers
unfolding compute_bitmask
compute_bitmask-SetsBits [] h true true = refl
compute_bitmask-SetsBits [] h true false = refl
compute_bitmask-SetsBits [] h false true = refl
compute_bitmask-SetsBits [] h false false = refl
compute_bitmask-SetsBits (m ∷ modifiers) (known, rest) p q =
    let before = compute_bitmask-SetsBits modifiers rest in
    elim (Bool-cases (m == "declaration")) [
      | inl first ↦ rw (eq_of_== m "declaration" first) (declaration-SetsBits modifiers before p q)
      | inr other ↦
          let second : m ≡ "definition" = eq_of_== m "definition" (ground (arith, known, other)) in
          rw second (definition-SetsBits modifiers before p q)
    ]

bit_small : (b : Bool) → bit b ≤ 1
bit_small true = omega arith
bit_small false = omega arith

mask_of_lem :
    (modifiers : List String)
    → All (λ m. contains token_modifiers_legend m ≡ true) modifiers
    → to_uint32 (compute_bitmask (indexes 0 token_modifiers_legend) modifiers 0)
      ≡ flags modifiers token_modifiers_legend
mask_of_lem modifiers known =
    let a = contains modifiers "declaration" in
    let b = contains modifiers "definition" in
    let whole = compute_bitmask-SetsBits modifiers known false false in
    omega (arith, whole, bit_small a, bit_small b)

-- The numbers of a token behind a line and start.
abbrev numbers_of : ℕ × ℕ → ℕ → SemanticToken → List ℕ
numbers_of (line, start) type token =
    (token.start.line - suc line)
    ∷ (token.start.column - suc start)
    ∷ (token.end.byte - token.start.byte)
    ∷ type
    ∷ mask_of token
    ∷ []

encode_token_lem :
    (lines : List Line) (i : ℕ) (last token : SemanticToken) (f : Fits token)
    → (previous i last token).0 < token.start.line
    → (previous i last token).1 < token.start.column
    → encode_token lines i last token ≡ encoded (numbers_of (previous i last token) f.index token)
unfolding encode_token encode_known
encode_token_lem lines i last token f after_line after_start =
    let same_line : (token.end.line == token.start.line) ≡ true = ground (arith, f.one_line) in
    let (line, start) = previous i last token in
    rw
      (
        f.known,
        encode_token,
        same_line,
        encode_known,
        diff32_lem token.start.line (suc line) after_line f.line_small,
        diff32_lem token.start.column (suc start) after_start f.column_small,
        diff32_lem token.end.byte token.start.byte f.bytes f.bytes_small,
        to_uint32_lem f.index f.index_small,
      )
      refl

-- A client that stands at the line reads the token at its place.
read_numbers :
    (line start at : ℕ) (token : SemanticToken) (f : Fits token) (rest : List ℕ)
    → ((suc line ≡ token.start.line) × (at ≡ start) × (start < token.start.column))
      ⊎ ((suc line < token.start.line) × (start ≡ 0))
    → read_tokens line at (numbers_of (line, start) f.index token ++ rest)
      ≡ place token ∷ read_tokens (token.start.line - 1) (token.start.column - 1) rest
unfolding read_tokens place
read_numbers line start at token f rest (inl (here, same, before)) =
    let stay : ((token.start.line - suc line) == 0) ≡ true = ground (arith, here) in
    let to_line : line + (token.start.line - suc line) ≡ token.start.line - 1 = omega arith in
    let to_start : at + (token.start.column - suc start) ≡ token.start.column - 1 = omega arith in
    rw
      (
        stay,
        to_line,
        to_start,
        type_index_lem token.type f.index f.known,
        mask_of_lem token.modifiers f.modifiers_known,
      )
      refl
read_numbers line start at token f rest (inr (later, zero_start)) =
    let move : ((token.start.line - suc line) == 0) ≡ false = ground (arith, later) in
    let to_line : line + (token.start.line - suc line) ≡ token.start.line - 1 = omega arith in
    let to_start : token.start.column - suc start ≡ token.start.column - 1 = omega arith in
    rw
      (
        move,
        to_line,
        to_start,
        type_index_lem token.type f.index f.known,
        mask_of_lem token.modifiers f.modifiers_known,
      )
      refl

-- Where the deltas of a token start that follows another.
previous_lem :
    (i : ℕ) (last token : SemanticToken)
    → Fits last
    → Fits token
    → Follows last token
    → ((previous (suc i) last token).0 ≡ last.start.line - 1)
      × (((suc (last.start.line - 1) ≡ token.start.line)
            × (last.start.column - 1 ≡ (previous (suc i) last token).1)
            × ((previous (suc i) last token).1 < token.start.column))
          ⊎ ((suc (last.start.line - 1) < token.start.line)
              × ((previous (suc i) last token).1 ≡ 0)))
unfolding previous
previous_lem i last token fl ft (inl before) =
    let other : ((token.end.line - 1) == (last.end.line - 1)) ≡ false =
      ground (arith, before, fl.one_line, ft.one_line, fl.line_some) in
    (omega (arith, fl.one_line), inr (omega (arith, fl.line_some), rw other refl))
previous_lem i last token fl ft (inr (same, before)) =
    let same_line : ((token.end.line - 1) == (last.end.line - 1)) ≡ true =
      ground (arith, same, fl.one_line, ft.one_line) in
    (
      omega (arith, fl.one_line),
      inl (
        omega (arith, fl.line_some),
        rw same_line refl,
        rw same_line (omega (arith, fl.column_some)),
      ),
    )

encode_from-read :
    (lines : List Line) (i : ℕ) (last : SemanticToken) (tokens : List SemanticToken)
    → Fits last
    → Ordered last tokens
    → (numbers : List ℕ) × (encode_from lines (suc i) last tokens ≡ some numbers)
      × (read_tokens (last.start.line - 1) (last.start.column - 1) numbers ≡ places tokens)
unfolding encode_from places read_tokens
encode_from-read lines i last [] f h = ([], refl, refl)
encode_from-read lines i last (token ∷ tokens) f (ft, follows, more) =
    let (rest, done, read) = encode_from-read lines (suc i) token tokens ft more in
    let (at_line, side) = previous_lem i last token f ft follows in
    let before : (previous (suc i) last token).0 < token.start.line = elim side [
      | inl (here, _, _) ↦ omega (arith, at_line, here)
      | inr (later, _) ↦ omega (arith, at_line, later)
    ] in
    let column : (previous (suc i) last token).1 < token.start.column = elim side [
      | inl (_, _, less) ↦ less
      | inr (_, zero_start) ↦ omega (arith, zero_start, ft.column_some)
    ] in
    (
      numbers_of (previous (suc i) last token) ft.index token ++ rest,
      rw (encode_token_lem lines (suc i) last token ft before column, encode_from, done) refl,
      ap
            (λ line.
              read_tokens (last.start.line - 1) (last.start.column - 1)
                (numbers_of (line, (previous (suc i) last token).1) ft.index token ++ rest))
            at_line
          ∙ read_numbers (last.start.line - 1) (previous (suc i) last token).1
              (last.start.column - 1) token ft rest side
          ∙ ap (λ t. place token ∷ t) read,
    )

-- A client reads what Encode wrote: for tokens in the order of their places, each on one line, of a
-- known type and modifiers and within machine words, Encode does not fail, and its numbers read from the start
-- of the document are the places of the tokens, in their order, with the places of their types in
-- the legend and one bit for each of their modifiers.
pub read_tokens-encode :
    (lines : List Line) (token : SemanticToken) (tokens : List SemanticToken)
    → Fits token
    → Ordered token tokens
    → (numbers : List ℕ) × (encode lines (token ∷ tokens) ≡ some numbers)
      × (read_tokens 0 0 numbers ≡ places (token ∷ tokens))
unfolding encode encode_from places previous
read_tokens-encode lines token tokens f h =
    let (rest, done, read) = encode_from-read lines 0 token tokens f h in
    let first =
      encode_token_lem lines 0 token token f (omega (arith, f.line_some))
        (omega (arith, f.column_some)) in
    (
      numbers_of (0, 0) f.index token ++ rest,
      rw (first, encode_from, done) refl,
      read_numbers 0 0 0 token f rest (elim (Bool-cases (token.start.line == 1)) [
        | inl at_first ↦ inl (ground (arith, at_first), refl, omega (arith, f.column_some))
        | inr later ↦ inr (ground (arith, later, f.line_some), refl)
      ])
          ∙ ap (λ t. place token ∷ t) read,
    )
