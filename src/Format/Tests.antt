-- ===== src/Format/Tests.antt =====
-- Runs of the formatter, and instances of its theorems.
use function_hcl.Base.{◌≡◌, refl, true, false, List, [], ◌∷◌, ◌++◌}
use function_hcl.Format.{newline, Token, fix_object_literal_style, trim_end}
use function_hcl.Format.Grammar.{Expr, symbol, braces, empty, entry, conditional, token, render}
use function_hcl.Format.Similar.{Similar, ValueOf, fix_object_literal_style-Similar}
use function_hcl.Format.Attribute.{assignment, format_attribute, format_again}

-- `{1: 2 ? 3 : 4, …}`
abbrev literal : Expr
literal = braces (
    entry true (symbol 1 (49 ∷ []))
      (conditional (symbol 1 (50 ∷ [])) (symbol 1 (51 ∷ [])) (symbol 1 (52 ∷ []))) empty)

abbrev line_feed : List Token
line_feed = token newline 10 ∷ []

format_attribute_example :
    fix_object_literal_style (assignment (97 ∷ []) (render false literal ++ line_feed))
    ≡ render true literal
unfolding render trim_end
format_attribute_example = format_attribute (97 ∷ []) literal line_feed (refl, tt) refl

format_again_example :
    fix_object_literal_style (assignment (97 ∷ []) (render true literal ++ line_feed))
    ≡ render true literal
unfolding render trim_end
format_again_example = format_again (97 ∷ []) literal line_feed (refl, tt) refl

fix_object_literal_style-Similar_example :
    (value : List Token) × ValueOf (assignment (97 ∷ []) (render false literal)) value
    × Similar value (fix_object_literal_style (assignment (97 ∷ []) (render false literal)))
fix_object_literal_style-Similar_example =
    fix_object_literal_style-Similar (assignment (97 ∷ []) (render false literal))
