-- ===== src/Document/Offsets.antt =====
-- The byte offset of a position: language-server/internal/document/position.go.
use function_hcl.Base.{
  ℕ, zero, suc, ◌+◌, ◌≤◌, ◌≡◌, refl, ap, ◌∙◌, false, Bool-cases, Option-cases, inl, inr, ◌⊎◌, ◌==◌,
  nat_eq, leb, ltb, if◌then◌else◌, none, some, List, [], ◌∷◌, ◌++◌, length, length-append, drop,
  drop-append, All, arith,
}
use function_hcl.Document.{Pos, SourcePos, Text}
use function_hcl.Document.Source.{
  Line, initial_pos, split_line, scan_lines, lines_from, make_source_lines, count_units,
  column_bytes, byte_offset_for_lsp_column, byte_offset_for_pos,
}
use function_hcl.Document.Lines.{Adjacent, make_source_lines_lem}
use mathlib.Core.List.{append_assoc}

length-drop : (n : ℕ) (xs : List ℕ) → n ≤ length xs → n + length (drop n xs) ≡ length xs
length-drop zero xs h = omega arith
length-drop (suc n) [] h = absurd (omega arith)
length-drop (suc n) (x ∷ xs) h = omega (arith, length-drop n xs (omega arith))

drop-all : (xs : List ℕ) → drop (length xs) xs ≡ []
drop-all [] = refl
drop-all (x ∷ xs) = drop-all xs

-- Code points, each with the bytes that stand for it: the bytes, one behind the other.
abbrev pub joined : List (List ℕ × ℕ) → List ℕ
joined [] = []
joined ((s, r) ∷ seqs) = s ++ joined seqs

-- How many UTF-16 code units a code point is, and some of them are: two above the basic plane.
abbrev pub code_units : ℕ → ℕ
code_units r = if ltb r 65536 then 1 else 2

abbrev pub width : List (List ℕ × ℕ) → ℕ
width [] = 0
width ((s, r) ∷ seqs) = code_units r + width seqs

module _ (T : Text) where
  open T use {
    advance, advance_byte, scan, decode_rune, encode_rune, scan_within, encode_rune_unit,
    encode_rune_pair,
  }

  -- The loop of byteOffsetForLSPColumn stays within the bytes of the line.
  column_bytes_within :
      (fuel : ℕ) (bytes : List ℕ) (count units_before column result : ℕ)
      → column_bytes T fuel bytes count units_before column ≡ some result
      → (count ≤ result) × (result ≤ count + length bytes)
  unfolding column_bytes
  column_bytes_within fuel [] count before column result h = absurd (cc)
  column_bytes_within zero (b ∷ bytes) count before column result h = absurd (cc)
  column_bytes_within (suc fuel) (b ∷ bytes) count before column result h =
      let (n, sequence) = scan (b ∷ bytes) in
      let rest = length-drop n (b ∷ bytes) (scan_within b bytes) in
      elim (Bool-cases (leb column before)) [
        | inl found ↦ let same : count ≡ result = ground (arith, found, h) in omega arith
        | inr further ↦
            let later =
              column_bytes_within fuel (drop n (b ∷ bytes)) (count + n)
                (count_units T (length sequence) sequence before) column result
                (ground (arith, further, h)) in
            omega (arith, later.0, later.1, rest)
      ]

  Adjacent-le : (from to : ℕ) (lines : List Line) → Adjacent from lines to → from ≤ to
  Adjacent-le from to [] h = omega (arith, h)
  Adjacent-le from to (l ∷ lines) (starts, ends, rest) =
      omega (arith, ends, Adjacent-le l.end.byte to lines rest)

  offset_within_line :
      (l : Line) (column : ℕ)
      → l.end.byte ≡ l.start.byte + length l.bytes
      → (l.start.byte ≤ byte_offset_for_lsp_column T l column)
        × (byte_offset_for_lsp_column T l column ≤ l.end.byte)
  unfolding byte_offset_for_lsp_column
  offset_within_line l column h =
      elim (Option-cases (column_bytes T (length l.bytes) l.bytes 0 0 column)) [
        | inl e ↦ rw (e, byte_offset_for_lsp_column) (omega arith, omega arith)
        | inr (n, e) ↦
            let (lo, hi) = column_bytes_within (length l.bytes) l.bytes 0 0 column n e in
            rw (e, byte_offset_for_lsp_column) (omega arith, omega arith)
      ]

  offset_within_lines :
      (lines : List Line) (line column from to n : ℕ)
      → Adjacent from lines to
      → byte_offset_for_pos T lines (record { line = line; column = column }) ≡ some n
      → (from ≤ n) × (n ≤ to)
  unfolding byte_offset_for_pos
  offset_within_lines [] line column from to n a h = absurd (cc)
  offset_within_lines (l ∷ lines) zero column from to n (starts, ends, rest) h =
      let same : byte_offset_for_lsp_column T l column ≡ n = ground (arith, h) in
      let within = offset_within_line l column (rw starts ends) in
      let more = Adjacent-le l.end.byte to lines rest in
      omega (arith, within.0, within.1, more, same, starts)
  offset_within_lines (l ∷ lines) (suc line) column from to n (starts, ends, rest) h =
      let within = offset_within_lines lines line column l.end.byte to n rest h in
      omega (arith, within.0, within.1, ends)

  -- The offset of a position lies in the text.
  pub offset_within :
      (bytes : List ℕ) (pos : Pos) (n : ℕ)
      → byte_offset_for_pos T (make_source_lines T bytes) pos ≡ some n
      → n ≤ length bytes
  offset_within bytes pos n h =
      (offset_within_lines (make_source_lines T bytes) pos.line pos.column 0 (length bytes) n
        (make_source_lines_lem T bytes).1 h).1

  -- Code points whose bytes the scan finds and decodes, whatever follows.
  abbrev pub Sequences : List (List ℕ × ℕ) → Type 0
  Sequences [] = Unit {0}
  Sequences (([], r) ∷ seqs) = ⊥
  Sequences ((b ∷ s, r) ∷ seqs) =
      ((rest : List ℕ) → scan (b ∷ s ++ rest) ≡ (length (b ∷ s), b ∷ s))
      × (decode_rune (b ∷ s) ≡ (r, length (b ∷ s)))
      × (r ≤ 1114111)
      × Sequences seqs

  count_units_lem :
      (b : ℕ) (s : List ℕ) (r before : ℕ)
      → decode_rune (b ∷ s) ≡ (r, length (b ∷ s))
      → r ≤ 1114111
      → count_units T (length (b ∷ s)) (b ∷ s) before ≡ before + code_units r
  unfolding count_units nat_eq
  count_units_lem b s r before decoded small =
      let ended : drop (length s) s ≡ [] = drop-all s in
      elim (Bool-cases (ltb r 65536)) [
        | inl low ↦
            let one : encode_rune r ≡ (65533, 65533) = encode_rune_unit r (ground (arith, low)) in
            rw (count_units, decoded, one, ended, low) refl
        | inr high ↦
            let pair = encode_rune_pair r (ground (arith, high)) small in
            let differ : ((encode_rune r).0 == 65533) ≡ false = ground (arith, pair) in
            rw (count_units, decoded, differ, ended, high) refl
      ]

  -- One round of the loop, over a sequence before the column.
  column_bytes_step :
      (fuel b : ℕ) (s : List ℕ) (r : ℕ) (rest : List ℕ) (count before more : ℕ)
      → scan (b ∷ s ++ rest) ≡ (length (b ∷ s), b ∷ s)
      → decode_rune (b ∷ s) ≡ (r, length (b ∷ s))
      → r ≤ 1114111
      → column_bytes T (suc fuel) (b ∷ s ++ rest) count before (before + (code_units r + more))
        ≡ column_bytes T fuel rest
            (count + length (b ∷ s))
            (before + code_units r)
            (before + code_units r + more)
  unfolding column_bytes
  column_bytes_step fuel b s r rest count before more taken decoded small =
      let after : drop (length (b ∷ s)) (b ∷ s ++ rest) ≡ rest = drop-append (b ∷ s) rest in
      let column : before + (code_units r + more) ≡ before + code_units r + more = omega arith in
      let ahead : leb (before + (code_units r + more)) before ≡ false = ground arith in
      rw (ahead, column_bytes, taken, count_units_lem b s r before decoded small, after, column)
        refl

  column_bytes-at :
      (fuel : ℕ) (seqs : List (List ℕ × ℕ)) (rest : List ℕ) (count before : ℕ)
      → Sequences seqs
      → length (joined seqs ++ rest) ≤ fuel
      → (column_bytes T fuel (joined seqs ++ rest) count before (before + width seqs)
          ≡ some (count + length (joined seqs)))
        ⊎ ((column_bytes T fuel (joined seqs ++ rest) count before (before + width seqs) ≡ none)
            × (rest ≡ []))
  unfolding column_bytes
  column_bytes-at fuel [] [] count before h enough = inr (refl, refl)
  column_bytes-at zero [] (b ∷ rest) count before h enough = absurd (omega arith)
  column_bytes-at (suc fuel) [] (b ∷ rest) count before h enough = inl (ground arith)
  column_bytes-at fuel (([], r) ∷ seqs) rest count before h enough = elim h [ ]
  column_bytes-at zero ((b ∷ s, r) ∷ seqs) rest count before h enough = absurd (omega arith)
  column_bytes-at (suc fuel) ((b ∷ s, r) ∷ seqs) rest count before (here, decoded, small, later)
        enough =
      let whole : (b ∷ s ++ joined seqs) ++ rest ≡ b ∷ s ++ (joined seqs ++ rest) =
        append_assoc (b ∷ s) (joined seqs) rest in
      let step =
        column_bytes_step fuel b s r (joined seqs ++ rest) count before (width seqs)
          (here (joined seqs ++ rest)) decoded small in
      let sizes = length-append (b ∷ s) (joined seqs ++ rest) in
      let total : count + length (b ∷ s) + length (joined seqs)
          ≡ count + length (b ∷ s ++ joined seqs) =
        omega (arith, length-append s (joined seqs)) in
      let short : length (joined seqs ++ rest) ≤ fuel =
        omega (arith, sizes, enough, ap length whole) in
      rw (whole, step, ← total)
        (column_bytes-at fuel seqs rest (count + length (b ∷ s)) (before + code_units r) later
          short)

  -- The line of a column that stands behind some sequences has the offset behind them.
  line_offset-at :
      (l : Line) (seqs : List (List ℕ × ℕ)) (rest : List ℕ)
      → Sequences seqs
      → l.bytes ≡ joined seqs ++ rest
      → l.end.byte ≡ l.start.byte + length l.bytes
      → byte_offset_for_lsp_column T l (width seqs) ≡ l.start.byte + length (joined seqs)
  unfolding byte_offset_for_lsp_column
  line_offset-at l seqs rest h whole ends =
      let zero_width : 0 + width seqs ≡ width seqs = omega arith in
      let sizes : length l.bytes ≡ length (joined seqs) + length rest =
        omega (arith, ap length whole, length-append (joined seqs) rest) in
      elim (column_bytes-at (length (joined seqs ++ rest)) seqs rest 0 0 h (omega arith)) [
        | inl found ↦
            let at_column : column_bytes T (length l.bytes) l.bytes 0 0 (width seqs)
                ≡ some (0 + length (joined seqs)) =
              rw (whole) (rw zero_width at found) in
            rw (at_column, byte_offset_for_lsp_column) (omega arith)
        | inr (ended, nothing) ↦
            let at_end : column_bytes T (length l.bytes) l.bytes 0 0 (width seqs) ≡ none =
              rw (whole) (rw zero_width at ended) in
            rw (at_end, byte_offset_for_lsp_column) (omega (arith, ends, sizes, ap length nothing))
      ]

-- No line feed.
abbrev pub NoFeed : List ℕ → Type 0
NoFeed l = All (λ b. (b == 10) ≡ false) l

-- A text of some whole lines and what stands behind them.
abbrev pub before : List (List ℕ) → List ℕ → List ℕ
before [] last = last
before (l ∷ lines) last = l ++ 10 ∷ before lines last

split_line-feed : (l rest : List ℕ) → NoFeed l → split_line (l ++ 10 ∷ rest) ≡ (l ++ 10 ∷ [], rest)
unfolding split_line
split_line-feed [] rest h = ground arith
split_line-feed (b ∷ l) rest (here, more) = rw (split_line-feed l rest more, here) refl

split_line-prefix :
    (l rest : List ℕ) → NoFeed l → (split_line (l ++ rest)).0 ≡ l ++ (split_line rest).0
unfolding split_line
split_line-prefix [] rest h = refl
split_line-prefix (b ∷ l) rest (here, more) = ground (arith, split_line-prefix l rest more, here)

scan_lines-feed :
    (l rest : List ℕ) → NoFeed l → scan_lines (l ++ 10 ∷ rest) ≡ some (l ++ 10 ∷ [], rest)
unfolding scan_lines
scan_lines-feed [] rest h = rw (split_line-feed [] rest h) refl
scan_lines-feed (b ∷ l) rest h = rw (split_line-feed (b ∷ l) rest h) refl

module _ (T : Text) where
  open T use {advance, advance_byte}

  -- The first line of a text.
  lines_from-first :
      (fuel : ℕ) (p : SourcePos) (bytes : List ℕ)
      → length bytes ≤ fuel
      → (l : Line) × (tail : List Line) × (lines_from T fuel p bytes ≡ l ∷ tail)
        × (l.bytes ≡ (split_line bytes).0)
        × (l.start.byte ≡ p.byte)
        × (l.end.byte ≡ l.start.byte + length l.bytes)
  unfolding lines_from scan_lines split_line
  lines_from-first zero p [] enough = (_, _, refl, refl, refl, omega arith)
  lines_from-first zero p (b ∷ bytes) enough = absurd (omega arith)
  lines_from-first (suc fuel) p [] enough = (_, _, refl, refl, refl, omega arith)
  lines_from-first (suc fuel) p (b ∷ bytes) enough =
      (_, _, refl, refl, refl, advance_byte p (split_line (b ∷ bytes)).0)

  lines_from-at :
      (fuel : ℕ) (p : SourcePos) (lines : List (List ℕ)) (seqs : List (List ℕ × ℕ)) (rest : List ℕ)
      → All NoFeed lines
      → NoFeed (joined seqs)
      → Sequences T seqs
      → length (before lines (joined seqs) ++ rest) ≤ fuel
      → byte_offset_for_pos T
          (lines_from T fuel p (before lines (joined seqs) ++ rest))
          (record { line = length lines; column = width seqs })
        ≡ some (p.byte + length (before lines (joined seqs)))
  unfolding lines_from byte_offset_for_pos scan_lines
  lines_from-at fuel p [] seqs rest clear clear_last h enough =
      let (l, tail, first, bytes_same, starts, ends) =
        lines_from-first fuel p (joined seqs ++ rest) enough in
      let line_bytes : l.bytes ≡ joined seqs ++ (split_line rest).0 =
        bytes_same ∙ split_line-prefix (joined seqs) rest clear_last in
      rw
        (
          first,
          byte_offset_for_pos,
          line_offset-at T l seqs (split_line rest).0 h line_bytes ends,
          starts,
        )
        refl
  lines_from-at zero p (l ∷ lines) seqs rest (clear, more) clear_last h enough = absurd (
      omega (
        arith,
        length-append (l ++ 10 ∷ before lines (joined seqs)) rest,
        length-append l (10 ∷ before lines (joined seqs)),
      ))
  lines_from-at (suc fuel) p (l ∷ lines) seqs rest (clear, more) clear_last h enough =
      let text = before lines (joined seqs) in
      let whole : (l ++ 10 ∷ text) ++ rest ≡ l ++ 10 ∷ (text ++ rest) =
        append_assoc l (10 ∷ text) rest in
      let q = advance p (l ++ 10 ∷ []) in
      let line_size = length-append l (10 ∷ []) in
      let short : length (text ++ rest) ≤ fuel =
        omega (arith, ap length whole, enough, length-append l (10 ∷ (text ++ rest))) in
      let total : q.byte + length text ≡ p.byte + length (l ++ 10 ∷ text) =
        omega (arith, advance_byte p (l ++ 10 ∷ []), line_size, length-append l (10 ∷ text)) in
      let scanned : scan_lines (l ++ 10 ∷ (text ++ rest)) ≡ some (l ++ 10 ∷ [], text ++ rest) =
        scan_lines-feed l (text ++ rest) clear in
      rw (whole, lines_from, scanned, ← total)
        (lines_from-at fuel q lines seqs rest more clear_last h short)

  -- The offset of a position: for a text that has some whole lines and then some code points in
  -- front, the position of that many lines and of their UTF-16 code units, two for a code point
  -- above the basic plane and else one, has the offset where the text goes on.
  pub offset_at :
      (lines : List (List ℕ)) (seqs : List (List ℕ × ℕ)) (rest : List ℕ)
      → All NoFeed lines
      → NoFeed (joined seqs)
      → Sequences T seqs
      → byte_offset_for_pos T
          (make_source_lines T (before lines (joined seqs) ++ rest))
          (record { line = length lines; column = width seqs })
        ≡ some (length (before lines (joined seqs)))
  unfolding make_source_lines
  offset_at lines seqs rest clear clear_last h =
      let text = before lines (joined seqs) in
      let zero_add : 0 + length text ≡ length text = omega arith in
      rw zero_add at (
        lines_from-at (length (text ++ rest)) initial_pos lines seqs rest clear clear_last h
          (omega arith))
