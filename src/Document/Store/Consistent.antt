-- ===== src/Document/Store/Consistent.antt =====
-- What the document store keeps over any sequence of operations.
use function_hcl.Base.{
  ℕ, ◌<◌, String, ◌≡◌, refl, some, List, ◌==◌, eq_of_==, lookup, insert, erase, lookup-nil,
  lookup-insert, lookup-erase, leb, Bool-cases, Option-cases, inl, inr, ◌⊎◌, arith,
}
use function_hcl.Document.{Text}
use function_hcl.Document.Source.{make_source_lines}
use function_hcl.Document.Store.{
  Handle, handle_eq, Document, Store, done, new_store, make_document, open_document, update, close,
}

module _ (T : Text) where
  -- A document lies at its handle, and its lines are those of its text.
  pub record Fits (dh : Handle) (doc : Document) : Type 0 where
    pub dir : doc.dir ≡ dh.dir
    pub filename : doc.filename ≡ dh.filename
    pub lines : doc.lines ≡ make_source_lines T doc.text

  abbrev pub Consistent : Store → Type 0
  Consistent s = (dh : Handle) (doc : Document) → lookup dh s ≡ some doc → Fits dh doc

  -- An operation of the store that succeeds.
  pub data Step (s : Store) : Store → Type 0 where
    opened :
        (now : ℕ) (dh : Handle) (lang_id : String) (version : ℕ) (text : List ℕ) (t : Store)
        → open_document T now dh lang_id version text s ≡ done t
        → Step s t
    updated :
        (now : ℕ) (dh : Handle) (text : List ℕ) (version : ℕ) (t : Store)
        → update T now dh text version s ≡ done t
        → Step s t
    closed : (dh : Handle) (t : Store) → close dh s ≡ done t → Step s t

  pub data Reachable : Store → Type 0 where
    initial : Reachable new_store
    next : (s t : Store) → Reachable s → Step s t → Reachable t

  insert-Consistent :
      (s : Store) (dh : Handle) (doc : Document)
      → Consistent s
      → Fits dh doc
      → Consistent (insert dh doc s)
  insert-Consistent s dh doc c fits k d h = elim (Bool-cases (k == dh)) [
    | inl same ↦
        let here : k ≡ dh = eq_of_== k dh same in
        let this : doc ≡ d = ground (arith, lookup-insert k dh doc s, same, h) in
        rw (here, ← this) fits
    | inr differ ↦ c k d (ground (arith, lookup-insert k dh doc s, differ, h))
  ]

  erase-Consistent : (s : Store) (dh : Handle) → Consistent s → Consistent (erase dh s)
  erase-Consistent s dh c k d h = elim (Bool-cases (k == dh)) [
    | inl same ↦ absurd (ground (arith, lookup-erase k dh s, same, h))
    | inr differ ↦ c k d (ground (arith, lookup-erase k dh s, differ, h))
  ]

  Step-Consistent : (s t : Store) → Consistent s → Step s t → Consistent t
  unfolding open_document update close
  Step-Consistent s t c (opened now dh lang_id version text _ e) =
      elim (Option-cases (lookup dh s)) [
        | inr (d, found) ↦ absurd (ground (arith, found, e))
        | inl new ↦
            let same : insert dh (make_document T now dh lang_id version text) s ≡ t =
              ground (arith, new, e) in
            rw (← same)
              (insert-Consistent s dh _ c (record { dir = refl; filename = refl; lines = refl }))
      ]
  Step-Consistent s t c (updated now dh text version _ e) = elim (Option-cases (lookup dh s)) [
    | inl missing ↦ absurd (ground (arith, missing, e))
    | inr (d, found) ↦ elim (Bool-cases (leb version d.version)) [
      | inl old ↦ absurd (ground (arith, found, old, e))
      | inr later ↦
          let same : insert dh (make_document T now dh d.language_id version text) s ≡ t =
            ground (arith, found, later, e) in
          rw (← same)
            (insert-Consistent s dh _ c (record { dir = refl; filename = refl; lines = refl }))
    ]
  ]
  Step-Consistent s t c (closed dh _ e) = elim (Option-cases (lookup dh s)) [
    | inl missing ↦ absurd (ground (arith, missing, e))
    | inr (d, found) ↦
        let same : erase dh s ≡ t = ground (arith, found, e) in
        rw (← same) (erase-Consistent s dh c)
  ]

  -- In every state that the store reaches, a document lies at its handle, and its lines are those of
  -- its text.
  pub Reachable-Consistent : (s : Store) → Reachable s → Consistent s
  Reachable-Consistent s initial =
      λ dh doc h. absurd (ground (arith, lookup-nil {V = Document} dh, h))
  Reachable-Consistent s (next r _ before step) =
      Step-Consistent r s (Reachable-Consistent r before) step

  -- One operation leaves a document that is open before and after it as it is, or makes its version
  -- greater.
  pub Step_ascending :
      (s t : Store) (dh : Handle) (before after : Document)
      → Step s t
      → lookup dh s ≡ some before
      → lookup dh t ≡ some after
      → (after ≡ before) ⊎ (before.version < after.version)
  unfolding open_document update close
  Step_ascending s t dh before after (opened now k lang_id version text _ e) was is =
      elim (Option-cases (lookup k s)) [
        | inr (d, found) ↦ absurd (ground (arith, found, e))
        | inl new ↦
            let same : insert k (make_document T now k lang_id version text) s ≡ t =
              ground (arith, new, e) in
            elim (Bool-cases (dh == k)) [
              | inl here ↦
                  let same_handle : dh ≡ k = eq_of_== dh k here in
                  absurd (ground (arith, new, was, same_handle))
              | inr elsewhere ↦ inl (
                  ground (
                    arith,
                    lookup-insert dh k (make_document T now k lang_id version text) s,
                    elsewhere,
                    was,
                    is,
                    same,
                  ))
            ]
      ]
  Step_ascending s t dh before after (updated now k text version _ e) was is =
      elim (Option-cases (lookup k s)) [
        | inl missing ↦ absurd (ground (arith, missing, e))
        | inr (d, found) ↦ elim (Bool-cases (leb version d.version)) [
          | inl old ↦ absurd (ground (arith, found, old, e))
          | inr later ↦
              let made = make_document T now k d.language_id version text in
              let same : insert k made s ≡ t = ground (arith, found, later, e) in
              elim (Bool-cases (dh == k)) [
                | inl here ↦
                    let same_handle : dh ≡ k = eq_of_== dh k here in
                    let old_doc : d ≡ before = ground (arith, found, was, same_handle) in
                    let new_doc : made ≡ after =
                      ground (arith, lookup-insert dh k made s, here, is, same) in
                    inr (rw (← old_doc, ← new_doc) (ground (arith, later)))
                | inr elsewhere ↦
                    inl (ground (arith, lookup-insert dh k made s, elsewhere, was, is, same))
              ]
        ]
      ]
  Step_ascending s t dh before after (closed k _ e) was is = elim (Option-cases (lookup k s)) [
    | inl missing ↦ absurd (ground (arith, missing, e))
    | inr (d, found) ↦
        let same : erase k s ≡ t = ground (arith, found, e) in
        elim (Bool-cases (dh == k)) [
          | inl here ↦ absurd (ground (arith, lookup-erase dh k s, here, is, same))
          | inr elsewhere ↦ inl (ground (arith, lookup-erase dh k s, elsewhere, was, is, same))
        ]
  ]
