-- ===== src/Format/Similar.antt =====
-- The formatter on tokens of any shape: function/internal/format/format.go.
use function_hcl.Base.{
  ℕ, ◌≡◌, refl, sym, ap, ◌∙◌, Bool, true, false, none, some, List, [], ◌∷◌, ◌++◌, All, ◌⊎◌, inl,
  inr, arith, Bool-cases, Option-cases,
}
use function_hcl.Format.{
  Kind, o_brace, c_brace, question, ident, colon, equal, newline, comment, other, Token, OpType,
  no_context, object_literal, for_expression, ternary_expression, fix_token, fix_tokens, prepend,
  peek, replace_colons, new_stack, fix_object_literal_style, after_equal, trim_end, is_trailing,
  extract_content,
}

-- The token is kept, or it was a colon and is an equal sign.
abbrev pub Alike : Token → Token → Type 0
Alike t u =
    (u ≡ t) ⊎ ((t.kind ≡ colon) × (u ≡ record { kind = equal; bytes = replace_colons t.bytes }))

abbrev pub Similar : List Token → List Token → Type 0
Similar [] [] = Unit {0}
Similar (t ∷ ts) (u ∷ us) = Alike t u × Similar ts us
Similar _ _ = ⊥

Similar-refl : (ts : List Token) → Similar ts ts
Similar-refl [] = tt
Similar-refl (t ∷ ts) = (inl refl, Similar-refl ts)

kind-Alike :
    (k : Kind) (bytes : List ℕ) (u : Token) (ops ops' : List OpType)
    → fix_token (record { kind = k; bytes = bytes }) ops ≡ some (u, ops')
    → Alike (record { kind = k; bytes = bytes }) u
unfolding fix_token peek
kind-Alike o_brace bytes u ops ops' h = inl (ground arith)
kind-Alike question bytes u ops ops' h = inl (ground arith)
kind-Alike ident bytes u ops ops' h = inl (ground arith)
kind-Alike c_brace bytes u (object_literal ∷ ops) ops' h = inl (ground arith)
kind-Alike c_brace bytes u (_ ∷ ops) ops' h = absurd (ground arith)
kind-Alike c_brace bytes u [] ops' h = absurd (ground arith)
kind-Alike colon bytes u (object_literal ∷ ops) ops' h = inr (refl, ground arith)
kind-Alike colon bytes u (for_expression ∷ ops) ops' h = inl (ground arith)
kind-Alike colon bytes u (ternary_expression ∷ ops) ops' h = inl (ground arith)
kind-Alike colon bytes u (no_context ∷ ops) ops' h = absurd (ground arith)
kind-Alike colon bytes u [] ops' h = absurd (ground arith)
kind-Alike equal bytes u ops ops' h = inl (ground arith)
kind-Alike newline bytes u ops ops' h = inl (ground arith)
kind-Alike comment bytes u ops ops' h = inl (ground arith)
kind-Alike (other n) bytes u ops ops' h = inl (ground arith)

fix_token-Alike :
    (t u : Token) (ops ops' : List OpType) → fix_token t ops ≡ some (u, ops') → Alike t u
fix_token-Alike t u ops ops' h = kind-Alike t.kind t.bytes u ops ops' h

fix_tokens-Similar :
    (ts us : List Token) (ops : List OpType) → fix_tokens ts ops ≡ some us → Similar ts us
unfolding fix_tokens prepend
fix_tokens-Similar [] [] ops h = tt
fix_tokens-Similar [] (u ∷ us) ops h = absurd (ground arith)
fix_tokens-Similar (t ∷ ts) us ops h = elim (Option-cases (fix_token t ops)) [
  | inl e ↦ absurd (ground (arith, e))
  | inr ((u, ops'), e) ↦ elim (Option-cases (fix_tokens ts ops')) [
    | inl e' ↦ absurd (ground (arith, e, e'))
    | inr (rest, e') ↦
        let parts : u ∷ rest ≡ us = ground (arith, e, e') in
        rw (← parts) (fix_token-Alike t u ops ops' e, fix_tokens-Similar ts rest ops' e')
  ]
]

abbrev pub is_equal : Kind → Bool
is_equal equal = true
is_equal _ = false

-- The last token is neither a line feed nor a comment.
abbrev pub EndsWell : List Token → Type 0
EndsWell [] = Unit {0}
EndsWell (t ∷ []) = is_trailing t.kind ≡ false
EndsWell (t ∷ u ∷ tokens) = EndsWell (u ∷ tokens)

-- The value of an attribute: what stands between its first equal sign and the line feeds and
-- comments at its end, or all tokens if there is no equal sign.
pub data ValueOf : List Token → List Token → Type 0 where
  unassigned : (input : List Token) → All (λ t. is_equal t.kind ≡ false) input → ValueOf input input
  assigned :
      (lead : List Token) (sign : Token) (value trail : List Token)
      → All (λ t. is_equal t.kind ≡ false) lead
      → is_equal sign.kind ≡ true
      → EndsWell value
      → All (λ t. is_trailing t.kind ≡ true) trail
      → ValueOf (lead ++ sign ∷ (value ++ trail)) value

after_equal-cases :
    (k : Kind) (bytes : List ℕ) (tokens : List Token)
    → ((is_equal k ≡ true)
        × (after_equal (record { kind = k; bytes = bytes } ∷ tokens) ≡ some tokens))
      ⊎ ((is_equal k ≡ false)
          × (after_equal (record { kind = k; bytes = bytes } ∷ tokens) ≡ after_equal tokens))
unfolding after_equal
after_equal-cases o_brace bytes tokens = inr (refl, refl)
after_equal-cases c_brace bytes tokens = inr (refl, refl)
after_equal-cases question bytes tokens = inr (refl, refl)
after_equal-cases ident bytes tokens = inr (refl, refl)
after_equal-cases colon bytes tokens = inr (refl, refl)
after_equal-cases equal bytes tokens = inl (refl, refl)
after_equal-cases newline bytes tokens = inr (refl, refl)
after_equal-cases comment bytes tokens = inr (refl, refl)
after_equal-cases (other n) bytes tokens = inr (refl, refl)

after_equal-none :
    (tokens : List Token) → after_equal tokens ≡ none → All (λ t. is_equal t.kind ≡ false) tokens
unfolding after_equal
after_equal-none [] h = tt
after_equal-none (t ∷ tokens) h = elim (after_equal-cases t.kind t.bytes tokens) [
  | inl (is, found) ↦ absurd (ground (arith, found, h))
  | inr (not_equal, later) ↦ (not_equal, after_equal-none tokens (sym later ∙ h))
]

after_equal-some :
    (tokens rest : List Token)
    → after_equal tokens ≡ some rest
    → (lead : List Token) × (sign : Token) × (tokens ≡ lead ++ sign ∷ rest)
      × All (λ t. is_equal t.kind ≡ false) lead
      × (is_equal sign.kind ≡ true)
unfolding after_equal
after_equal-some [] rest h = absurd (ground (arith, h))
after_equal-some (t ∷ tokens) rest h = elim (after_equal-cases t.kind t.bytes tokens) [
  | inl (is, found) ↦
      let same : tokens ≡ rest = ground (arith, found, h) in ([], t, ap (λ r. t ∷ r) same, tt, is)
  | inr (not_equal, later) ↦
      let (lead, sign, whole, clear, is) = after_equal-some tokens rest (sym later ∙ h) in
      (t ∷ lead, sign, ap (λ r. t ∷ r) whole, (not_equal, clear), is)
]

trim_end_lem :
    (tokens : List Token)
    → (trail : List Token) × (tokens ≡ trim_end tokens ++ trail)
      × EndsWell (trim_end tokens)
      × All (λ t. is_trailing t.kind ≡ true) trail
unfolding trim_end
trim_end_lem [] = ([], refl, tt, tt)
trim_end_lem (t ∷ tokens) = of_rest (trim_end tokens) (trim_end_lem tokens) refl
  where
    of_rest :
        (kept : List Token)
        → (trail : List Token) × (tokens ≡ trim_end tokens ++ trail)
          × EndsWell (trim_end tokens)
          × All (λ t. is_trailing t.kind ≡ true) trail
        → trim_end tokens ≡ kept
        → (trail : List Token) × (t ∷ tokens ≡ trim_end (t ∷ tokens) ++ trail)
          × EndsWell (trim_end (t ∷ tokens))
          × All (λ t. is_trailing t.kind ≡ true) trail
    of_rest [] (trail, whole, ends, all) q = elim (Bool-cases (is_trailing t.kind)) [
      | inl is ↦
          let same : tokens ≡ trail = whole ∙ ap (λ k. k ++ trail) q in
          (t ∷ tokens, rw (q, is) refl, rw (q, is) tt, (is, rw same all))
      | inr other_kind ↦
          let same : tokens ≡ trail = whole ∙ ap (λ k. k ++ trail) q in
          (trail, rw (q, other_kind) (ap (λ r. t ∷ r) same), rw (q, other_kind) other_kind, all)
    ]
    of_rest (u ∷ kept) (trail, whole, ends, all) q =
        let same : tokens ≡ u ∷ kept ++ trail = whole ∙ ap (λ k. k ++ trail) q in
        (trail, rw q (ap (λ r. t ∷ r) same), rw q (rw q at ends), all)

-- For every list of tokens, the result has the tokens of the attribute's value in their order, each
-- kept as it is or changed from a colon to an equal sign.
pub fix_object_literal_style-Similar :
    (input : List Token)
    → (value : List Token) × ValueOf input value × Similar value (fix_object_literal_style input)
unfolding fix_object_literal_style extract_content
fix_object_literal_style-Similar input = elim (Option-cases (after_equal input)) [
  | inl e ↦ (
    input,
    unassigned input (after_equal-none input e),
    rw (e, fix_object_literal_style, extract_content) (Similar-refl input),
  )
  | inr (rest, e) ↦
      let (lead, sign, whole, clear, is) = after_equal-some input rest e in
      let (trail, split, ends, all) = trim_end_lem rest in
      let tokens = trim_end rest in
      let value : ValueOf input tokens =
        rw (whole ∙ ap (λ r. lead ++ sign ∷ r) split)
          (assigned lead sign tokens trail clear is ends all) in
      elim (Option-cases (fix_tokens tokens new_stack)) [
        | inl e' ↦ (
          tokens,
          value,
          rw (e, fix_object_literal_style, after_equal, trim_end, is_trailing, extract_content, e')
              (Similar-refl tokens),
        )
        | inr (result, e') ↦ (
          tokens,
          value,
          rw (e, fix_object_literal_style, after_equal, trim_end, is_trailing, extract_content, e')
              (fix_tokens-Similar tokens result new_stack e'),
        )
      ]
]
