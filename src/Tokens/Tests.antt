-- ===== src/Tokens/Tests.antt =====
-- Runs of the encoder, and an instance of its theorem.
use function_hcl.Base.{
  ℕ, ◌≡◌, refl, inl, inr, some, List, [], ◌∷◌, lookup, string_eq, nat_eq, arith,
}
use function_hcl.Tokens.{SemanticToken, indexes, type_index, encode}
use function_hcl.Tokens.Protocol.{read_tokens}
use function_hcl.Tokens.RoundTrip.{Fits, places, read_tokens-encode}

-- A keyword, a name behind it on the same line, and a number on a later line.
abbrev keyword : SemanticToken
keyword = record {
  type = "keyword";
  modifiers = [];
  start = record { line = 1; column = 1; byte = 0 };
  end = record { line = 1; column = 9; byte = 8 };
}

abbrev name : SemanticToken
name = record {
  type = "string";
  modifiers = "declaration" ∷ [];
  start = record { line = 1; column = 10; byte = 9 };
  end = record { line = 1; column = 14; byte = 13 };
}

abbrev digits : SemanticToken
digits = record {
  type = "number";
  modifiers = [];
  start = record { line = 3; column = 3; byte = 20 };
  end = record { line = 3; column = 4; byte = 21 };
}

keyword-Fits : Fits keyword
unfolding type_index indexes lookup string_eq
keyword-Fits = record {
  index = 4;
  known = refl;
  index_small = omega arith;
  modifiers_known = ground arith;
  one_line = refl;
  line_some = omega arith;
  line_small = omega arith;
  column_some = omega arith;
  column_small = omega arith;
  bytes = omega arith;
  bytes_small = omega arith;
}

name-Fits : Fits name
unfolding type_index indexes lookup string_eq
name-Fits = record {
  index = 7;
  known = refl;
  index_small = omega arith;
  modifiers_known = ground arith;
  one_line = refl;
  line_some = omega arith;
  line_small = omega arith;
  column_some = omega arith;
  column_small = omega arith;
  bytes = omega arith;
  bytes_small = omega arith;
}

digits-Fits : Fits digits
unfolding type_index indexes lookup string_eq
digits-Fits = record {
  index = 5;
  known = refl;
  index_small = omega arith;
  modifiers_known = ground arith;
  one_line = refl;
  line_some = omega arith;
  line_small = omega arith;
  column_some = omega arith;
  column_small = omega arith;
  bytes = omega arith;
  bytes_small = omega arith;
}

read_tokens-encode_example :
    (numbers : List ℕ) × (encode [] (keyword ∷ name ∷ digits ∷ []) ≡ some numbers)
    × (read_tokens 0 0 numbers ≡ places (keyword ∷ name ∷ digits ∷ []))
read_tokens-encode_example =
    read_tokens-encode [] keyword (name ∷ digits ∷ []) keyword-Fits
      (name-Fits, inr (refl, omega arith), (digits-Fits, inl (omega arith), tt))
