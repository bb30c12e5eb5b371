-- ===== src/Document/Tests.antt =====
-- Runs on small texts, with a scan that knows code points of one and of four bytes, and instances of the theorems.
use function_hcl.Base.{
  ℕ, ◌+◌, ◌-◌, ◌*◌, ◌/◌, ◌%◌, ◌≤◌, ◌<◌, ◌≡◌, refl, ◌⊎◌, inl, inr, Bool-cases, ◌&&◌, ◌||◌, some,
  List, [], ◌∷◌, ◌++◌, length, take, lookup, insert, nat_eq, string_eq, ltb, leb, ◌==◌,
  if◌then◌else◌, arith,
}
use function_hcl.Document.{SourcePos, Text}
use function_hcl.Document.Source.{
  split_line, scan_lines, lines_from, make_source_lines, count_units, column_bytes,
  byte_offset_for_lsp_column, byte_offset_for_pos,
}
use function_hcl.Document.Change.{apply_document_change}
use function_hcl.Document.Lines.{all_bytes, Adjacent, make_source_lines_lem}
use function_hcl.Document.Offsets.{Sequences, offset_within, offset_at}
use function_hcl.Document.Edits.{apply_document_change_lem}
use function_hcl.Document.Store.{
  Handle, handle_eq, Document, Store, done, new_store, make_document, open_document, update,
}
use function_hcl.Document.Store.Consistent.{
  Consistent, Step, opened, updated, Reachable, initial, next, Reachable-Consistent, Step_ascending,
}

abbrev advance : SourcePos → List ℕ → SourcePos
advance p [] = p
advance p (b ∷ bytes) =
    advance (record { line = p.line; column = p.column + 1; byte = p.byte + 1 }) bytes

advance_byte : (p : SourcePos) (bytes : List ℕ) → (advance p bytes).byte ≡ p.byte + length bytes
advance_byte p [] = omega arith
advance_byte p (b ∷ bytes) =
    omega (
      arith,
      advance_byte (record { line = p.line; column = p.column + 1; byte = p.byte + 1 }) bytes,
    )

-- Sequences of one byte, and of four where the first byte says so.
abbrev scan : List ℕ → ℕ × List ℕ
scan [] = (0, [])
scan (b ∷ bytes) = if b == 240 && leb 3 (length bytes) then (4, take 4 (b ∷ bytes)) else (1, b ∷ [])

scan_within : (b : ℕ) (bytes : List ℕ) → (scan (b ∷ bytes)).0 ≤ length (b ∷ bytes)
scan_within b bytes = elim (Bool-cases (b == 240 && leb 3 (length bytes))) [
  | inl four ↦ rw four (ground (arith, four))
  | inr one ↦ rw one (omega arith)
]

abbrev decode_rune : List ℕ → ℕ × ℕ
decode_rune (f ∷ a ∷ b ∷ c ∷ bytes) =
    if f == 240 then ((a % 64) * 4096 + (b % 64) * 64 + c % 64, 4) else (f, 1)
decode_rune (b ∷ bytes) = (b, 1)
decode_rune [] = (65533, 0)

abbrev encode_rune : ℕ → ℕ × ℕ
encode_rune r =
    if ltb r 65536 || ltb 1114111 r
    then (65533, 65533)
    else (55296 + (r - 65536) / 1024, 56320 + (r - 65536) % 1024)

encode_rune_unit : (r : ℕ) → r < 65536 → encode_rune r ≡ (65533, 65533)
encode_rune_unit r h = ground arith

encode_rune_pair : (r : ℕ) → 65536 ≤ r → r ≤ 1114111 → (encode_rune r).0 < 56320
encode_rune_pair r low high = ground arith

abbrev plain : Text
plain = record {
  advance = advance;
  scan = scan;
  decode_rune = decode_rune;
  encode_rune = encode_rune;
  advance_byte = advance_byte;
  scan_within = scan_within;
  encode_rune_unit = encode_rune_unit;
  encode_rune_pair = encode_rune_pair;
}

-- "ab\ncd"
abbrev two_lines : List ℕ
two_lines = 97 ∷ 98 ∷ 10 ∷ 99 ∷ 100 ∷ []

make_source_lines_lem_example :
    (all_bytes (make_source_lines plain two_lines) ≡ two_lines)
    × Adjacent 0 (make_source_lines plain two_lines) 5
make_source_lines_lem_example = make_source_lines_lem plain two_lines

at_d :
    byte_offset_for_pos plain (make_source_lines plain two_lines) (record { line = 1; column = 1 })
    ≡ some 4
unfolding byte_offset_for_pos make_source_lines lines_from scan_lines split_line
    byte_offset_for_lsp_column column_bytes count_units nat_eq
at_d = refl

offset_within_example : 4 ≤ 5
offset_within_example = offset_within plain two_lines (record { line = 1; column = 1 }) 4 at_d

-- U+1F600, of two UTF-16 code units.
abbrev face : List ℕ
face = 240 ∷ 159 ∷ 152 ∷ 128 ∷ []

face-Sequences : Sequences plain ((face, 128512) ∷ [])
unfolding nat_eq
face-Sequences = (λ rest. ground arith, refl, omega arith, tt)

offset_at_example :
    byte_offset_for_pos plain
      (make_source_lines plain (97 ∷ 98 ∷ 10 ∷ face ++ 100 ∷ []))
      (record { line = 1; column = 2 })
    ≡ some 7
unfolding nat_eq
offset_at_example =
    offset_at plain ((97 ∷ 98 ∷ []) ∷ []) ((face, 128512) ∷ []) (100 ∷ []) ((refl, (refl, tt)), tt)
      (refl, (refl, (refl, (refl, tt)))) face-Sequences

c-Sequences : Sequences plain ((99 ∷ [], 99) ∷ [])
unfolding nat_eq
c-Sequences = (λ rest. refl, refl, omega arith, tt)

-- The edit that puts "x" for all between U+1F600 on the first line and "d" on the second.
apply_document_change_lem_example :
    apply_document_change plain (face ++ 98 ∷ 10 ∷ 99 ∷ 100 ∷ []) (record {
      text = 120 ∷ [];
      range = some (record {
        start = record { line = 0; column = 2 };
        end = record { line = 1; column = 1 };
      });
    })
    ≡ some (face ++ 120 ∷ 100 ∷ [])
unfolding nat_eq
apply_document_change_lem_example =
    apply_document_change_lem plain [] ((face, 128512) ∷ []) ((face ++ 98 ∷ []) ∷ [])
      ((99 ∷ [], 99) ∷ []) (98 ∷ 10 ∷ 99 ∷ []) (120 ∷ []) (100 ∷ []) tt
      (refl, (refl, (refl, (refl, tt)))) face-Sequences
      ((refl, (refl, (refl, (refl, (refl, tt))))), tt) (refl, tt) c-Sequences refl

abbrev main : Handle
main = record { dir = "file:///work"; filename = "main.hcl" }

abbrev first : Document
first = make_document plain 1 main "hcl" 1 two_lines

abbrev second : Document
second = make_document plain 2 main "hcl" 2 []

abbrev one_open : Store
one_open = (main, first) ∷ []

abbrev edited : Store
edited = (main, second) ∷ []

opened_lem : open_document plain 1 main "hcl" 1 two_lines new_store ≡ done one_open
unfolding open_document lookup insert
opened_lem = refl

updated_lem : update plain 2 main [] 2 one_open ≡ done edited
unfolding update lookup insert handle_eq string_eq
updated_lem = refl

abbrev edit : Step plain one_open edited
edit = updated 2 main [] 2 edited updated_lem

abbrev reach : Reachable plain edited
reach =
    next one_open edited
      (next new_store one_open initial (opened 1 main "hcl" 1 two_lines one_open opened_lem)) edit

Reachable-Consistent_example : Consistent plain edited
Reachable-Consistent_example = Reachable-Consistent plain edited reach

main_of_one_open : lookup main one_open ≡ some first
unfolding lookup handle_eq string_eq
main_of_one_open = refl

main_of_edited : lookup main edited ≡ some second
unfolding lookup handle_eq string_eq
main_of_edited = refl

Step_ascending_example : (second ≡ first) ⊎ (1 < 2)
Step_ascending_example =
    Step_ascending plain one_open edited main first second edit main_of_one_open main_of_edited
