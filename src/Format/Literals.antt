-- ===== src/Format/Literals.antt =====
-- The loop of the formatter on well nested expressions: function/internal/format/format.go.
use function_hcl.Base.{
  ◌≡◌, refl, sym, ap, true, false, Option-cases, Option, none, some, List, [], ◌∷◌, ◌++◌, arith,
}
use function_hcl.Format.{
  Token, OpType, object_literal, is_for, fix_token, fix_tokens, prepend, peek, pop, replace_colons,
}
use function_hcl.Format.Grammar.{
  Expr, symbol, name, line, remark, join, conditional, comprehension, braces, Fields, empty, entry,
  filler, for_token, render, render_fields,
}
use mathlib.Core.List.{append_assoc}

prepend-append :
    (xs ys : List Token) (o : Option (List Token))
    → prepend xs (prepend ys o) ≡ prepend (xs ++ ys) o
unfolding prepend
prepend-append xs ys none = refl
prepend-append xs ys (some r) = ap some (sym (append_assoc xs ys r))

is_for-for_token : is_for for_token.bytes ≡ true
unfolding is_for
is_for-for_token = ground arith

-- The colon of an object literal becomes an equal sign.
replace_colon : replace_colons (58 ∷ []) ≡ 61 ∷ []
unfolding replace_colons
replace_colon = ground arith

mutual
  unfolding render fix_tokens fix_token peek pop prepend

  pub fix_tokens-render :
      (e : Expr) (rest : List Token) (ops : List OpType)
      → fix_tokens (render false e ++ rest) ops ≡ prepend (render true e) (fix_tokens rest ops)
  fix_tokens-render (symbol n bytes) rest ops = refl
  fix_tokens-render (name bytes not_for) rest ops = rw not_for refl
  fix_tokens-render line rest ops = refl
  fix_tokens-render (remark bytes) rest ops = refl
  fix_tokens-render (join a b) rest ops =
      simp (append_assoc, fix_tokens-render a, fix_tokens-render b, prepend-append)
  fix_tokens-render (conditional c a b) rest ops =
      simp (
        append_assoc,
        fix_tokens-render c,
        fix_tokens-render a,
        fix_tokens-render b,
        prepend-append,
      )
  fix_tokens-render (comprehension head body) rest ops = simp (
    append_assoc,
    is_for-for_token,
    fix_tokens-render head,
    fix_tokens-render body,
    prepend-append,
  )
  fix_tokens-render (braces fields) rest ops =
      simp (append_assoc, fix_tokens-render_fields fields, prepend-append)

  fix_tokens-render_fields :
      (fields : Fields) (rest : List Token) (ops : List OpType)
      → fix_tokens (render_fields false fields ++ rest) (object_literal ∷ ops)
        ≡ prepend (render_fields true fields) (fix_tokens rest (object_literal ∷ ops))
  fix_tokens-render_fields empty rest ops =
      ground (arith, Option-cases (fix_tokens rest (object_literal ∷ ops)))
  fix_tokens-render_fields (entry true key value fields) rest ops = simp (
    append_assoc,
    replace_colon,
    fix_tokens-render key,
    fix_tokens-render value,
    fix_tokens-render_fields fields,
    prepend-append,
  )
  fix_tokens-render_fields (entry false key value fields) rest ops = simp (
    append_assoc,
    fix_tokens-render key,
    fix_tokens-render value,
    fix_tokens-render_fields fields,
    prepend-append,
  )
  fix_tokens-render_fields (filler e fields) rest ops =
      simp (append_assoc, fix_tokens-render e, fix_tokens-render_fields fields, prepend-append)
