-- ===== src/Document/Edits.antt =====
-- Edits of a text: language-server/internal/document/change.go.
use function_hcl.Base.{
  ℕ, ◌≡◌, refl, some, List, ◌++◌, length, take, drop, take-append, drop-append, All,
}
use function_hcl.Document.{Pos, Text}
use function_hcl.Document.Source.{make_source_lines, byte_offset_for_pos}
use function_hcl.Document.Change.{apply_document_change}
use function_hcl.Document.Offsets.{joined, Sequences, width, NoFeed, before, offset_at}
use mathlib.Core.List.{append_assoc}

module _ (T : Text) where
  -- The position behind some whole lines and some code points, in UTF-16 code units.
  abbrev pub position : List (List ℕ) → List (List ℕ × ℕ) → Pos
  position lines seqs = record { line = length lines; column = width seqs }

  -- A change of the range from the position behind `lines` and `seqs` to the one behind `lines'` and
  -- `seqs'`, in UTF-16 code units: it puts the new text for what stands between them, and keeps the
  -- text around it.
  pub apply_document_change_lem :
      (lines : List (List ℕ)) (seqs : List (List ℕ × ℕ)) (lines' : List (List ℕ))
      (seqs' : List (List ℕ × ℕ)) (old new rest : List ℕ)
      → All NoFeed lines
      → NoFeed (joined seqs)
      → Sequences T seqs
      → All NoFeed lines'
      → NoFeed (joined seqs')
      → Sequences T seqs'
      → before lines' (joined seqs') ≡ before lines (joined seqs) ++ old
      → apply_document_change T (before lines (joined seqs) ++ old ++ rest) (record {
        text = new;
        range = some (record { start = position lines seqs; end = position lines' seqs' });
      })
        ≡ some (before lines (joined seqs) ++ new ++ rest)
  unfolding apply_document_change
  apply_document_change_lem lines seqs lines' seqs' old new rest c cl h c' cl' h' upto =
      let front = before lines (joined seqs) in
      let buf = front ++ old ++ rest in
      let whole : buf ≡ front ++ (old ++ rest) = append_assoc front old rest in
      let starts : byte_offset_for_pos T (make_source_lines T buf) (position lines seqs)
          ≡ some (length front) =
        rw whole (offset_at T lines seqs (old ++ rest) c cl h) in
      let ends : byte_offset_for_pos T (make_source_lines T buf) (position lines' seqs')
          ≡ some (length (front ++ old)) =
        rw upto at (offset_at T lines' seqs' rest c' cl' h') in
      let kept : take (length front) buf ≡ front = rw whole (take-append front (old ++ rest)) in
      let left : drop (length (front ++ old)) buf ≡ rest = drop-append (front ++ old) rest in
      rw (starts, apply_document_change, ends, kept, left) refl
