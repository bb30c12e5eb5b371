-- ===== src/Tokens/Protocol.antt =====
-- How a client of the protocol reads the numbers: textDocument/semanticTokens in the integer encoding.
use function_hcl.Base.{
  ℕ, suc, ◌+◌, ◌*◌, String, List, [], ◌∷◌, contains, ◌==◌, nat_eq, string_eq, if◌then◌else◌,
}

-- A token at its place, as numbers.
pub record Placed : Type 0 where
  pub line : ℕ
  pub start : ℕ
  pub length : ℕ
  pub type : ℕ
  pub modifiers : ℕ

-- Where a name stands in a legend.
abbrev pub position : String → List String → ℕ
position name [] = 0
position name (n ∷ legend) = if name == n then 0 else suc (position name legend)

-- The number that stands for a set of names: bit i is set exactly if the name at i is in the set.
abbrev pub flags : List String → List String → ℕ
flags names [] = 0
flags names (n ∷ legend) = (if contains names n then 1 else 0) + 2 * flags names legend

-- The tokens behind a line and start.
unfoldable pub read_tokens : ℕ → ℕ → List ℕ → List Placed
read_tokens line start (delta_line ∷ delta_start ∷ length ∷ type ∷ modifiers ∷ numbers) =
    let at = if delta_line == 0 then start + delta_start else delta_start in
    record {
      line = line + delta_line;
      start = at;
      length = length;
      type = type;
      modifiers = modifiers;
    }
    ∷ read_tokens (line + delta_line) at numbers
read_tokens line start _ = []
