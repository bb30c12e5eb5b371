-- ===== src/Document/Lines.antt =====
-- The lines of a text, and how they lie in it.
use function_hcl.Base.{
  ℕ, zero, suc, ◌+◌, ◌≤◌, ◌≡◌, refl, nat_eq, List, [], ◌∷◌, ◌++◌, length, arith,
}
use function_hcl.Document.{SourcePos, Text}
use function_hcl.Document.Source.{
  Line, initial_pos, split_line, scan_lines, lines_from, make_source_lines,
}

-- Nothing of a text is lost when its first line is split off, and a text that is not empty has a
-- first line.
pub split_line-append : (bytes : List ℕ) → (split_line bytes).0 ++ (split_line bytes).1 ≡ bytes
unfolding split_line
split_line-append [] = refl
split_line-append (b ∷ bytes) = ground (arith, split_line-append bytes)

pub split_line_some : (b : ℕ) (bytes : List ℕ) → 1 ≤ length (split_line (b ∷ bytes)).0
unfolding split_line
split_line_some b bytes = ground arith

pub length-split_line :
    (bytes : List ℕ) → length (split_line bytes).0 + length (split_line bytes).1 ≡ length bytes
unfolding split_line
length-split_line [] = refl
length-split_line (b ∷ bytes) = ground (arith, length-split_line bytes)

zero-add : (n : ℕ) → 0 + n ≡ n
zero-add n = omega arith

-- The bytes of some lines, one after the other.
abbrev pub all_bytes : List Line → List ℕ
all_bytes [] = []
all_bytes (l ∷ lines) = l.bytes ++ all_bytes lines

-- The lines lie one behind the other from a byte offset to another.
abbrev pub Adjacent : ℕ → List Line → ℕ → Type 0
Adjacent from [] to = from ≡ to
Adjacent from (l ∷ lines) to =
    (l.start.byte ≡ from) × (l.end.byte ≡ from + length l.bytes) × Adjacent l.end.byte lines to

module _ (T : Text) where
  open T use {advance, advance_byte}

  lines_from-all_bytes :
      (fuel : ℕ) (p : SourcePos) (bytes : List ℕ)
      → length bytes ≤ fuel
      → all_bytes (lines_from T fuel p bytes) ≡ bytes
  unfolding lines_from scan_lines
  lines_from-all_bytes zero p [] h = refl
  lines_from-all_bytes zero p (b ∷ bytes) h = absurd (omega arith)
  lines_from-all_bytes (suc fuel) p [] h = refl
  lines_from-all_bytes (suc fuel) p (b ∷ bytes) h =
      let (line, rest) = split_line (b ∷ bytes) in
      let shorter : length rest ≤ fuel =
        omega (arith, length-split_line (b ∷ bytes), split_line_some b bytes) in
      rw (lines_from-all_bytes fuel (advance p line) rest shorter) (split_line-append (b ∷ bytes))

  lines_from-Adjacent :
      (fuel : ℕ) (p : SourcePos) (bytes : List ℕ)
      → length bytes ≤ fuel
      → Adjacent p.byte (lines_from T fuel p bytes) (p.byte + length bytes)
  unfolding lines_from scan_lines
  lines_from-Adjacent zero p [] h = (refl, omega arith, omega arith)
  lines_from-Adjacent zero p (b ∷ bytes) h = absurd (omega arith)
  lines_from-Adjacent (suc fuel) p [] h = (refl, omega arith, omega arith)
  lines_from-Adjacent (suc fuel) p (b ∷ bytes) h =
      let (line, rest) = split_line (b ∷ bytes) in
      let sizes = length-split_line (b ∷ bytes) in
      let shorter : length rest ≤ fuel = omega (arith, sizes, split_line_some b bytes) in
      let q = advance p line in
      let whole : q.byte + length rest ≡ p.byte + length (b ∷ bytes) =
        omega (arith, sizes, advance_byte p line) in
      (refl, advance_byte p line, rw whole at (lines_from-Adjacent fuel q rest shorter))

  -- The lines of a text have its bytes, and each line lies in the text right behind the one before
  -- it, from the first byte to the last.
  pub make_source_lines_lem :
      (bytes : List ℕ)
      → (all_bytes (make_source_lines T bytes) ≡ bytes)
        × Adjacent 0 (make_source_lines T bytes) (length bytes)
  unfolding make_source_lines
  make_source_lines_lem bytes = (
    lines_from-all_bytes (length bytes) initial_pos bytes (omega arith),
    rw (zero-add (length bytes)) at
        (lines_from-Adjacent (length bytes) initial_pos bytes (omega arith)),
  )
