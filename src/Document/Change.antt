-- ===== src/Document/Change.antt =====
-- language-server/internal/document/change.go: edits of a text.
use function_hcl.Base.{ℕ, Option, none, some, List, [], ◌∷◌, ◌++◌, take, drop}
use function_hcl.Document.{Range, Text}
use function_hcl.Document.Source.{make_source_lines, byte_offset_for_pos}

-- Change: a text, for a range or for the whole document.
pub record Change : Type 0 where
  pub text : List ℕ
  pub range : Option Range

module _ (T : Text) where
  -- applyDocumentChange; `none` is its error, for a position that the text does not have.
  unfoldable pub apply_document_change : List ℕ → Change → Option (List ℕ)
  unfolding make_source_lines byte_offset_for_pos
  apply_document_change buf change = elim change.range [
    | none ↦ some change.text
    | some range ↦
        let lines = make_source_lines T buf in
        elim (byte_offset_for_pos T lines range.start) [
          | none ↦ none
          | some start_byte ↦ elim (byte_offset_for_pos T lines range.end) [
            | none ↦ none
            | some end_byte ↦ some (take start_byte buf ++ change.text ++ drop end_byte buf)
          ]
        ]
  ]

  -- ApplyChanges
  unfoldable pub apply_changes : List ℕ → List Change → Option (List ℕ)
  unfolding apply_document_change
  apply_changes original [] = some original
  apply_changes original (change ∷ changes) = elim (apply_document_change original change) [
    | none ↦ none
    | some changed ↦ apply_changes changed changes
  ]
