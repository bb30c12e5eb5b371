-- ===== src/Format/Attribute.antt =====
-- fixObjectLiteralStyle on the tokens of a whole attribute.
use function_hcl.Base.{ℕ, ◌≡◌, refl, Bool, true, false, some, List, [], ◌∷◌, ◌++◌, arith, All}
use function_hcl.Format.{
  ident, equal, Token, is_trailing, fix_tokens, prepend, new_stack, fix_object_literal_style,
  extract_content, after_equal, trim_end,
}
use function_hcl.Format.Grammar.{
  Expr, symbol, name, line, remark, join, conditional, comprehension, braces, Fields, empty, entry,
  filler, token, render, render_fields,
}
use function_hcl.Format.Literals.{fix_tokens-render}
use mathlib.Core.List.{append-nil}

abbrev pub Trailing : List Token → Type 0
Trailing tail = All (λ t. is_trailing t.kind ≡ true) tail

trim_end-Trailing : (tail : List Token) → Trailing tail → trim_end tail ≡ []
unfolding trim_end
trim_end-Trailing [] h = refl
trim_end-Trailing (t ∷ tail) (here, rest) = ground (arith, here, trim_end-Trailing tail rest)

trim_end-append :
    (tokens tail : List Token) → Trailing tail → trim_end (tokens ++ tail) ≡ trim_end tokens
unfolding trim_end
trim_end-append [] tail h = trim_end-Trailing tail h
trim_end-append (t ∷ tokens) tail h = ground (arith, trim_end-append tokens tail h)

-- The tokens of `lhs = …`.
abbrev pub assignment : List ℕ → List Token → List Token
assignment lhs value = record { kind = ident; bytes = lhs } ∷ token equal 61 ∷ value

fix_tokens-all : (e : Expr) → fix_tokens (render false e) new_stack ≡ some (render true e)
unfolding fix_tokens prepend
fix_tokens-all e =
    let whole : fix_tokens (render false e ++ []) new_stack ≡ some (render true e ++ []) =
      fix_tokens-render e [] new_stack in
    rw (append-nil (render false e), append-nil (render true e)) at whole

-- The tokens of an attribute, whose value is a well nested expression that does not end in line
-- feeds or comments, with line feeds and comments after it: the result is the expression with each
-- key of an object literal in the standard style.
pub format_attribute :
    (lhs : List ℕ) (e : Expr) (tail : List Token)
    → Trailing tail
    → trim_end (render false e) ≡ render false e
    → fix_object_literal_style (assignment lhs (render false e ++ tail)) ≡ render true e
unfolding fix_object_literal_style extract_content after_equal
format_attribute lhs e tail h whole =
    let extracted : extract_content (assignment lhs (render false e ++ tail))
        ≡ some (render false e) =
      ground (arith, trim_end-append (render false e) tail h, whole) in
    ground (arith, extracted, fix_tokens-all e)

-- The expression as the formatter writes it.
unfoldable mutual
  pub standard : Expr → Expr
  standard (symbol n bytes) = symbol n bytes
  standard (name bytes not_for) = name bytes not_for
  standard line = line
  standard (remark bytes) = remark bytes
  standard (join a b) = join (standard a) (standard b)
  standard (conditional c a b) = conditional (standard c) (standard a) (standard b)
  standard (comprehension head body) = comprehension (standard head) (standard body)
  standard (braces fields) = braces (standard_fields fields)

  standard_fields : Fields → Fields
  standard_fields empty = empty
  standard_fields (entry with_colon key value fields) =
      entry false (standard key) (standard value) (standard_fields fields)
  standard_fields (filler e fields) = filler (standard e) (standard_fields fields)

mutual
  unfolding render standard

  render-standard : (b : Bool) (e : Expr) → render b (standard e) ≡ render true e
  render-standard b (symbol n bytes) = refl
  render-standard b (name bytes not_for) = refl
  render-standard b line = refl
  render-standard b (remark bytes) = refl
  render-standard b (join x y) = simp (render-standard b x, render-standard b y)
  render-standard b (conditional c x y) =
      simp (render-standard b c, render-standard b x, render-standard b y)
  render-standard b (comprehension head body) =
      simp (render-standard b head, render-standard b body)
  render-standard b (braces fields) = simp (render_fields-standard b fields)

  render_fields-standard :
      (b : Bool) (fields : Fields)
      → render_fields b (standard_fields fields) ≡ render_fields true fields
  render_fields-standard b empty = refl
  render_fields-standard true (entry with_colon key value fields) =
      simp
        (render-standard true key, render-standard true value, render_fields-standard true fields)
  render_fields-standard false (entry with_colon key value fields) =
      simp (
        render-standard false key,
        render-standard false value,
        render_fields-standard false fields,
      )
  render_fields-standard b (filler e fields) =
      simp (render-standard b e, render_fields-standard b fields)

-- An expression in the standard style, which does not end in line feeds or comments, stays as it is.
pub format_again :
    (lhs : List ℕ) (e : Expr) (tail : List Token)
    → Trailing tail
    → trim_end (render true e) ≡ render true e
    → fix_object_literal_style (assignment lhs (render true e ++ tail)) ≡ render true e
format_again lhs e tail h whole =
    let as_written : render false (standard e) ≡ render true e = render-standard false e in
    let done : fix_object_literal_style (assignment lhs (render false (standard e) ++ tail))
        ≡ render true (standard e) =
      format_attribute lhs (standard e) tail h (rw as_written whole) in
    rw (as_written, render-standard true e) at done
