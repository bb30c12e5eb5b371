-- ===== src/Format/Grammar.antt =====
-- Expressions whose tokens are well nested, with the separators of object keys as they were written.
use function_hcl.Base.{ℕ, ◌≡◌, Bool, false, List, [], ◌∷◌, ◌++◌, if◌then◌else◌}
use function_hcl.Format.{
  Kind, o_brace, c_brace, question, ident, colon, equal, newline, comment, other, Token, is_for,
}

mutual
  pub data Expr : Type 0 where
    -- a literal, an operator, a bracket
    symbol : ℕ → List ℕ → Expr
    name : (bytes : List ℕ) → is_for bytes ≡ false → Expr
    line : Expr
    remark : List ℕ → Expr
    join : Expr → Expr → Expr
    conditional : Expr → Expr → Expr → Expr
    -- `for … : …`, in brackets or braces
    comprehension : Expr → Expr → Expr
    braces : Fields → Expr

  -- What stands between braces: keys and values, or a comprehension.
  pub data Fields : Type 0 where
    empty : Fields
    -- written with `:` if the flag holds, else with `=`
    entry : Bool → Expr → Expr → Fields → Fields
    filler : Expr → Fields → Fields

abbrev pub token : Kind → ℕ → Token
token k b = record { kind = k; bytes = b ∷ [] }

abbrev pub for_token : Token
for_token = record { kind = ident; bytes = 102 ∷ 111 ∷ 114 ∷ [] }

-- A separator, as written or in the standard style.
abbrev pub separator : Bool → Bool → Token
separator standard with_colon =
    if standard then token equal 61 else if with_colon then token colon 58 else token equal 61

-- The tokens of an expression, as written or in the standard style.
unfoldable mutual
  pub render : Bool → Expr → List Token
  render standard (symbol n bytes) = record { kind = other n; bytes = bytes } ∷ []
  render standard (name bytes not_for) = record { kind = ident; bytes = bytes } ∷ []
  render standard line = token newline 10 ∷ []
  render standard (remark bytes) = record { kind = comment; bytes = bytes } ∷ []
  render standard (join a b) = render standard a ++ render standard b
  render standard (conditional c a b) =
      render standard c
      ++ token question 63 ∷ (render standard a ++ token colon 58 ∷ render standard b)
  render standard (comprehension head body) =
      for_token ∷ (render standard head ++ token colon 58 ∷ render standard body)
  render standard (braces fields) =
      token o_brace 123 ∷ (render_fields standard fields ++ token c_brace 125 ∷ [])

  pub render_fields : Bool → Fields → List Token
  render_fields standard empty = []
  render_fields standard (entry with_colon key value fields) =
      render standard key
      ++ separator standard with_colon ∷ (render standard value ++ render_fields standard fields)
  render_fields standard (filler e fields) = render standard e ++ render_fields standard fields
