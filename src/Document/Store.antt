-- ===== src/Document/Store.antt =====
-- language-server/internal/document/store/store.go: the documents that are open in the editor, and
-- language-server/internal/document/handle.go and document.go for the types. Every operation holds
-- the lock of the store.
pub mod Consistent
use function_hcl.Base.{
  ℕ, String, ◌≡◌, refl, Bool, true, false, ◌||◌, Option, none, some, List, [], ◌∷◌, Dict, Eq,
  string_eq, ◌==◌, lookup, insert, erase, is_some, leb, if◌then◌else◌, arith,
}
use function_hcl.Document.{Text}
use function_hcl.Document.Source.{Line, make_source_lines}

-- Handle, with the URI of its directory
pub record Handle : Type 0 where
  pub dir : String
  pub filename : String

handle_dec : (a b : Handle) → Dec (a ≡ b)
handle_dec a b = elim (string_eq.dec a.dir b.dir) [
  | no differ ↦ no (λ p. differ (λ i. (p i).dir))
  | yes same_dir ↦ elim (string_eq.dec a.filename b.filename) [
    | no differ ↦ no (λ p. differ (λ i. (p i).filename))
    | yes same_name ↦ yes (λ i. record { dir = same_dir i; filename = same_name i })
  ]
]

instance unfoldable pub handle_eq : Eq Handle
unfolding handle_dec
handle_eq = record { dec = handle_dec }

-- Document. The language server numbers versions from zero up.
pub record Document : Type 0 where
  pub dir : String
  pub filename : String
  pub mod_time : ℕ
  pub language_id : String
  pub version : ℕ
  pub text : List ℕ
  pub lines : List Line

-- Store: its documents by their handles.
abbrev pub Store : Type 0
Store = Dict Handle Document

-- What an operation that can fail yields.
pub data Outcome {ℓ} (A : Type ℓ) : Type ℓ where
  done : A → Outcome A
  already_exists : Outcome A
  not_found : Outcome A
  not_ascending : ℕ → ℕ → Outcome A

-- New
abbrev pub new_store : Store
new_store = []

module _ (T : Text) where
  -- The document that Open and Update make.
  abbrev pub make_document : ℕ → Handle → String → ℕ → List ℕ → Document
  make_document now dh lang_id version text = record {
    dir = dh.dir;
    filename = dh.filename;
    mod_time = now;
    language_id = lang_id;
    version = version;
    text = text;
    lines = make_source_lines T text;
  }

  -- Open, at a time.
  unfoldable pub open_document : ℕ → Handle → String → ℕ → List ℕ → Store → Outcome Store
  unfolding handle_eq
  open_document now dh lang_id version text s = elim (lookup dh s) [
    | some doc ↦ already_exists
    | none ↦ done (insert dh (make_document now dh lang_id version text) s)
  ]

  -- Update
  unfoldable pub update : ℕ → Handle → List ℕ → ℕ → Store → Outcome Store
  update now dh new_text new_version s = elim (lookup dh s) [
    | none ↦ not_found
    | some doc ↦
        if leb new_version doc.version
        then not_ascending doc.version new_version
        else done (insert dh (make_document now dh doc.language_id new_version new_text) s)
  ]

-- Close
unfoldable pub close : Handle → Store → Outcome Store
close dh s = elim (lookup dh s) [ none ↦ not_found | some doc ↦ done (erase dh s) ]

-- HasOpenDocuments
unfoldable pub has_open_documents : String → Store → Bool
has_open_documents dir [] = false
has_open_documents dir ((key, doc) ∷ s) = key.dir == dir || has_open_documents dir s

-- IsDocumentOpen
unfoldable pub is_document_open : Handle → Store → Bool
is_document_open dh s = is_some (lookup dh s)

-- Get
unfoldable pub get : Handle → Store → Outcome Document
get dh s = elim (lookup dh s) [ none ↦ not_found | some doc ↦ done doc ]

-- List
unfoldable pub list_documents : String → Store → List Document
list_documents dir [] = []
list_documents dir ((key, doc) ∷ s) =
    let rest = list_documents dir s in if key.dir == dir then doc ∷ rest else rest
