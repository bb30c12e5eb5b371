-- ===== src/Document.antt =====
-- language-server/internal/document: the texts that an editor has open. This file has the positions
-- and ranges of position.go and change.go, and the operations of the text libraries as the
-- interface `Text`: hcl's positions and the scanning of UTF-8.
pub mod Source
pub mod Change
pub mod Lines
pub mod Offsets
pub mod Edits
pub mod Store
mod Tests
use function_hcl.Base.{ℕ, suc, ◌+◌, ◌≤◌, ◌<◌, ◌≡◌, List, ◌∷◌, length}

-- Pos, of the editor: line and column from zero, the column in UTF-16 code units.
pub record Pos : Type 0 where
  pub line : ℕ
  pub column : ℕ

-- Range
pub record Range : Type 0 where
  pub start : Pos
  pub end : Pos

-- hcl.Pos
pub record SourcePos : Type 0 where
  pub line : ℕ
  pub column : ℕ
  pub byte : ℕ

pub record Text : Type 0 where
  -- The position after some bytes, as hcl.RangeScanner counts lines, columns and bytes.
  pub advance : SourcePos → List ℕ → SourcePos
  -- textseg.ScanUTF8Sequences: how many bytes it advances, and the sequence in front of a text.
  pub scan : List ℕ → ℕ × List ℕ
  -- utf8.DecodeRune: the code point in front of some bytes, and how many bytes it takes.
  pub decode_rune : List ℕ → ℕ × ℕ
  -- utf16.EncodeRune: the surrogate pair of a code point, or two replacement characters.
  pub encode_rune : ℕ → ℕ × ℕ
  pub advance_byte :
      (p : SourcePos) (bytes : List ℕ) → (advance p bytes).byte ≡ p.byte + length bytes
  pub scan_within : (b : ℕ) (bytes : List ℕ) → (scan (b ∷ bytes)).0 ≤ length (b ∷ bytes)
  pub encode_rune_unit : (r : ℕ) → r < 65536 → encode_rune r ≡ (65533, 65533)
  pub encode_rune_pair : (r : ℕ) → 65536 ≤ r → r ≤ 1114111 → (encode_rune r).0 < 56320
