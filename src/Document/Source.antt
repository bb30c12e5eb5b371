-- ===== src/Document/Source.antt =====
-- language-server/internal/document/source/source.go: a text as a sequence of lines, and position.go:
-- the byte offset of a position.
use function_hcl.Base.{
  ℕ, zero, suc, ◌+◌, ◌==◌, ◌&&◌, nat_eq, leb, true, false, Option, none, some, List, [], ◌∷◌,
  length, drop, get_elem?, if◌then◌else◌,
}
use function_hcl.Document.{Pos, SourcePos, Text}

-- Line
pub record Line : Type 0 where
  pub bytes : List ℕ
  pub start : SourcePos
  pub end : SourcePos

-- hcl.InitialPos
abbrev pub initial_pos : SourcePos
initial_pos = record { line = 1; column = 1; byte = 0 }

-- A text up to its first line feed, that included, and what follows it.
unfoldable pub split_line : List ℕ → List ℕ × List ℕ
split_line [] = ([], [])
split_line (b ∷ bytes) =
    let (line, rest) = split_line bytes in if b == 10 then (b ∷ [], bytes) else (b ∷ line, rest)

-- scanLines at the end of the input: the next line and what follows it.
unfoldable pub scan_lines : List ℕ → Option (List ℕ × List ℕ)
unfolding split_line
scan_lines [] = none
scan_lines (b ∷ bytes) = some (split_line (b ∷ bytes))

module _ (T : Text) where
  open T use {advance, scan, decode_rune, encode_rune}

  -- The loop of MakeSourceLines from a position on, with the virtual line at the end. The fuel bounds
  -- the number of lines.
  unfoldable pub lines_from : ℕ → SourcePos → List ℕ → List Line
  unfolding scan_lines
  lines_from zero p bytes = record { bytes = []; start = p; end = p } ∷ []
  lines_from (suc fuel) p bytes = elim (scan_lines bytes) [
    | none ↦ record { bytes = []; start = p; end = p } ∷ []
    | some (line, rest) ↦
        record { bytes = line; start = p; end = advance p line }
        ∷ lines_from fuel (advance p line) rest
  ]

  -- MakeSourceLines
  unfoldable pub make_source_lines : List ℕ → List Line
  unfolding lines_from
  make_source_lines bytes = lines_from (length bytes) initial_pos bytes

  -- The inner loop of byteOffsetForLSPColumn: the UTF-16 code units of a sequence, counted on. The
  -- fuel bounds the number of code points, each of which takes a byte.
  unfoldable pub count_units : ℕ → List ℕ → ℕ → ℕ
  count_units fuel [] utf16_count = utf16_count
  count_units zero (b ∷ bytes) utf16_count = utf16_count
  count_units (suc fuel) (b ∷ bytes) utf16_count =
      let (r, l) = decode_rune (b ∷ bytes) in
      let (c1, c2) = encode_rune r in
      count_units fuel (drop l (b ∷ bytes))
        (if c1 == 65533 && c2 == 65533 then utf16_count + 1 else utf16_count + 2)

  -- The loop of byteOffsetForLSPColumn: the bytes before the column, or `none` where the line ends
  -- first. The fuel bounds the number of sequences.
  unfoldable pub column_bytes : ℕ → List ℕ → ℕ → ℕ → ℕ → Option ℕ
  unfolding count_units
  column_bytes fuel [] byte_count utf16_count column = none
  column_bytes zero (b ∷ remain) byte_count utf16_count column = none
  column_bytes (suc fuel) (b ∷ remain) byte_count utf16_count column =
      elim (leb column utf16_count) [
        | true ↦ some byte_count
        | false ↦
            let (adv, bytes) = scan (b ∷ remain) in
            column_bytes fuel (drop adv (b ∷ remain)) (byte_count + adv)
              (count_units (length bytes) bytes utf16_count) column
      ]

  -- byteOffsetForLSPColumn. A column of the protocol is not negative.
  unfoldable pub byte_offset_for_lsp_column : Line → ℕ → ℕ
  unfolding column_bytes
  byte_offset_for_lsp_column l column = elim (column_bytes (length l.bytes) l.bytes 0 0 column) [
    | none ↦ l.end.byte
    | some byte_count ↦ l.start.byte + byte_count
  ]

  -- ByteOffsetForPos; `none` is invalidPosErr.
  unfoldable pub byte_offset_for_pos : List Line → Pos → Option ℕ
  unfolding byte_offset_for_lsp_column
  byte_offset_for_pos lines pos = elim (get_elem? lines pos.line) [
    | none ↦ none
    | some l ↦ some (byte_offset_for_lsp_column l pos.column)
  ]
