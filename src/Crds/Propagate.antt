-- ===== src/Crds/Propagate.antt =====
-- What the jobs of the store of language-server/internal/features/crds/store do to its sources.
use function_hcl.Base.{
  ◌≡◌, refl, sym, ap, ◌∙◌, String, Bool, true, false, Option, none, some, List, [], ◌∷◌, Dict, All,
  string_eq, ◌==◌, ==_refl, eq_of_==, lookup, lookup-insert, lookup-nil, insert, keys, contains,
  contains-keys, is_some, if◌then◌else◌, arith, Bool-cases, Option-cases, inl, inr,
}
use function_hcl.Crds.{
  Key, key_eq, Scoped, FileSchema, SourceInfo, Store, FileSystem, get_schema, schemas_of, updated,
  propagate_paths, propagate_schema_for_file, add, load_schema, load_schemas, replaced,
  expand_paths, load_source_store_at,
}
use function_hcl.Crds.Compose.{first_schema, in_scope, filter_scope-compose}

abbrev pub map_some : {A B : Type 0} → (A → B) → Option A → Option B
map_some f none = none
map_some f (some a) = some (f a)

module _ {S : Type 0} where
  -- Each source lies at its path.
  abbrev pub Keyed : Dict String (SourceInfo S) → Type 0
  Keyed sources = (n : String) (ss : SourceInfo S) → lookup n sources ≡ some ss → ss.source_path ≡ n

  module _ (visit : String → List String → List String) where
    -- The source after a file has been propagated to the sources at some paths.
    abbrev pub after_file : Bool → Dict String (FileSchema S) → String → SourceInfo S → SourceInfo S
    after_file at files file ss =
        if at then (if contains ss.expanded_files file then updated visit files ss else ss) else ss

    updated-again :
        (files : Dict String (FileSchema S)) (ss : SourceInfo S)
        → updated visit files (updated visit files ss) ≡ updated visit files ss
    unfolding updated
    updated-again files ss = refl

    updated-expanded :
        (files : Dict String (FileSchema S)) (ss : SourceInfo S)
        → (updated visit files ss).expanded_files ≡ ss.expanded_files
    unfolding updated
    updated-expanded files ss = refl

    insert-Keyed :
        (files : Dict String (FileSchema S)) (p : String) (ss : SourceInfo S)
        (sources : Dict String (SourceInfo S))
        → Keyed sources
        → lookup p sources ≡ some ss
        → Keyed (insert ss.source_path (updated visit files ss) sources)
    unfolding updated
    insert-Keyed files p ss sources k found n t h = elim (Bool-cases (n == ss.source_path)) [
      | inl same ↦
          let here : updated visit files ss ≡ t =
            ground
              (arith, lookup-insert n ss.source_path (updated visit files ss) sources, same, h) in
          let same_path : n ≡ ss.source_path = eq_of_== n ss.source_path same in
          rw (← here, same_path) refl
      | inr differ ↦ k n t (
          ground
            (arith, lookup-insert n ss.source_path (updated visit files ss) sources, differ, h))
    ]

    after_file-updated :
        (at : Bool) (files : Dict String (FileSchema S)) (file : String) (ss : SourceInfo S)
        → after_file at files file (updated visit files ss) ≡ updated visit files ss
    unfolding updated
    after_file-updated true files file ss = elim (Bool-cases (contains ss.expanded_files file)) [
      | inl has ↦ rw has refl
      | inr lacks ↦ rw lacks refl
    ]
    after_file-updated false files file ss = refl

    propagate_paths_lem :
        (files : Dict String (FileSchema S)) (file : String) (paths : List String)
        (sources : Dict String (SourceInfo S))
        → Keyed sources
        → ((p : String) → contains paths p ≡ true → is_some (lookup p sources) ≡ true)
        → (out : Dict String (SourceInfo S)) × (propagate_paths visit files file paths sources
            ≡ some out)
          × ((n : String)
              → lookup n out
                ≡ map_some (after_file (contains paths n) files file) (lookup n sources))
    unfolding propagate_paths
    propagate_paths_lem files file [] sources k h = (sources, refl, λ n. ground arith)
    propagate_paths_lem files file (p ∷ paths) sources k h =
        elim (Option-cases (lookup p sources)) [
          | inl missing ↦ absurd (ground (arith, missing, h p, ==_refl p))
          | inr (ss, found) ↦ elim (Bool-cases (contains ss.expanded_files file)) [
            | inl has ↦
                let next = insert ss.source_path (updated visit files ss) sources in
                let path : ss.source_path ≡ p = k p ss found in
                let (out, ran, at) =
                  propagate_paths_lem files file paths next
                    (insert-Keyed files p ss sources k found)
                    (λ q is_in. ground (
                      arith,
                      lookup-insert q ss.source_path (updated visit files ss) sources,
                      h q,
                      is_in,
                    )) in
                (
                  out,
                  rw (found, propagate_paths, has) ran,
                  λ n. elim (Bool-cases (n == p)) [
                    | inl same ↦
                        let same_path : n ≡ p = eq_of_== n p same in
                        let next_at : lookup n next ≡ some (updated visit files ss) = rw path (
                          ground
                            (arith, lookup-insert n p (updated visit files ss) sources, same)) in
                        let here : lookup n sources ≡ some ss = rw same_path found in
                        let result : map_some (after_file (contains (p ∷ paths) n) files file)
                              (lookup n sources)
                            ≡ some (updated visit files ss) =
                          rw (here, same, has) refl in
                        at n
                        ∙ ap (map_some (after_file (contains paths n) files file)) next_at
                        ∙ ap some (after_file-updated (contains paths n) files file ss)
                        ∙ sym result
                    | inr differ ↦
                        let next_at : lookup n next ≡ lookup n sources = rw path (
                          ground
                            (arith, lookup-insert n p (updated visit files ss) sources, differ)) in
                        rw (at n, next_at, differ) refl
                  ],
                )
            | inr lacks ↦
                let (out, ran, at) =
                  propagate_paths_lem files file paths sources k
                    (λ q is_in. ground (arith, h q, is_in)) in
                (
                  out,
                  rw (found, propagate_paths, lacks) ran,
                  λ n. elim (Bool-cases (n == p)) [
                    | inl same ↦
                        let here : lookup n sources ≡ some ss = rw (eq_of_== n p same) found in
                        elim (Bool-cases (contains paths n)) [
                          | inl again ↦ rw (at n, here, same, lacks, again) refl
                          | inr once ↦ rw (at n, here, same, lacks, once) refl
                        ]
                    | inr differ ↦ rw (at n, differ) refl
                  ],
                )
          ]
        ]

    -- The schema of a key in the first of some files that has one, as the files are loaded.
    abbrev pub first_in : Dict String (FileSchema S) → Key → List String → Option (Scoped S)
    first_in files k [] = none
    first_in files k (f ∷ paths) = elim (lookup f files) [
      | none ↦ first_in files k paths
      | some loaded ↦ elim (lookup k loaded.schema) [
        | none ↦ first_in files k paths
        | some v ↦ some v
      ]
    ]

    first_schema-schemas_of :
        (files : Dict String (FileSchema S)) (k : Key) (paths : List String)
        → first_schema k (schemas_of files paths) ≡ first_in files k paths
    unfolding schemas_of get_schema
    first_schema-schemas_of files k [] = refl
    first_schema-schemas_of files k (f ∷ paths) =
        let rest = first_schema-schemas_of files k paths in
        elim (Option-cases (lookup f files)) [
          | inl missing ↦ ground (arith, missing, rest, lookup-nil {V = Scoped S} k)
          | inr (loaded, found) ↦ elim (Option-cases (lookup k loaded.schema)) [
            | inl lacks ↦ ground (arith, found, lacks, rest)
            | inr (v, has) ↦ ground (arith, found, has)
          ]
        ]

    updated-schema :
        (files : Dict String (FileSchema S)) (ss : SourceInfo S) (k : Key)
        → lookup k (updated visit files ss).schema
          ≡ in_scope ss.source.scope (first_in files k (visit ss.source_path ss.expanded_files))
    unfolding updated
    updated-schema files ss k =
        let order = visit ss.source_path ss.expanded_files in
        filter_scope-compose k ss.source.scope (schemas_of files order)
        ∙ ap (in_scope ss.source.scope) (first_schema-schemas_of files k order)

    -- What becomes of a source: if it has the file among its files it keeps all but its schema, which
    -- has for each key the schema of the first of its files with the key, if that is in its scope.
    abbrev pub Becomes :
        Dict String (FileSchema S) → String → Option (SourceInfo S) → Option (SourceInfo S) → Type 0
    Becomes files file none new = new ≡ none
    Becomes files file (some ss) new =
        (contains ss.expanded_files file ≡ false → new ≡ some ss)
        × (contains ss.expanded_files file ≡ true
            → (ss' : SourceInfo S) × (new ≡ some ss')
              × (ss'.source_path ≡ ss.source_path)
              × (ss'.source ≡ ss.source)
              × (ss'.expanded_files ≡ ss.expanded_files)
              × ((k : Key)
                  → lookup k ss'.schema
                    ≡ in_scope ss.source.scope
                        (first_in files k (visit ss.source_path ss.expanded_files))))

    after_file-Becomes :
        (files : Dict String (FileSchema S)) (file : String) (old new : Option (SourceInfo S))
        → new ≡ map_some (after_file true files file) old
        → Becomes files file old new
    unfolding updated
    after_file-Becomes files file none new h = h
    after_file-Becomes files file (some ss) new h = (
      λ lacks. ground (arith, h, lacks),
      λ has. (
        updated visit files ss,
        ground (arith, h, has),
        refl,
        refl,
        refl,
        λ k. updated-schema files ss k,
      ),
    )

    -- Where each source lies at its path, propagateSchemaForFile returns, in whatever order it visits
    -- the files of a source. Each source that has the file among its files gets for each key the
    -- schema of the first of its files with the key, if that is in its scope; all else stays.
    pub propagate_schema_for_file_lem :
        (file : String) (s : Store S)
        → Keyed s.sources
        → (out : Store S) × (propagate_schema_for_file visit file s ≡ some out)
          × (out.files ≡ s.files)
          × ((n : String) → Becomes s.files file (lookup n s.sources) (lookup n out.sources))
    unfolding propagate_schema_for_file
    propagate_schema_for_file_lem file s k =
        let (sources, ran, at) =
          propagate_paths_lem s.files file (keys s.sources) s.sources k
            (λ p is_in. sym (contains-keys s.sources p) ∙ is_in) in
        (
          record s { sources = sources },
          rw (ran, propagate_schema_for_file) refl,
          refl,
          λ n.
              after_file-Becomes s.files file (lookup n s.sources) (lookup n sources)
                (elim (Option-cases (lookup n s.sources)) [
                  | inl missing ↦ ground (arith, at n, missing)
                  | inr (ss, found) ↦
                      let known : contains (keys s.sources) n ≡ true =
                        ground (arith, contains-keys s.sources n, found) in
                      rw known at (at n)
                ]),
        )

  module _ (F : FileSystem S) where
    open F use {hash, source_info, sorted}

    -- The file is loaded, with the checksum that it has now.
    abbrev pub Loaded : Store S → String → Type 0
    Loaded s file =
        (have : FileSchema S) × (lookup file s.files ≡ some have) × (hash file ≡ some have.checksum)

    load_schema_same : (file : String) (s : Store S) → Loaded s file → load_schema F file s ≡ some s
    unfolding load_schema add
    load_schema_same file s (have, found, same_hash) =
        let equal : (have.checksum == have.checksum) ≡ true = ==_refl have.checksum in
        rw (same_hash, load_schema, found, equal) refl

    load_schemas_same :
        (files : List String) (s : Store S) → All (Loaded s) files → load_schemas F files s ≡ some s
    unfolding load_schemas
    load_schemas_same [] s h = refl
    load_schemas_same (file ∷ files) s (here, rest) =
        rw (load_schema_same file s here, load_schemas) (load_schemas_same files s rest)

    -- A source that is new, of files that are all loaded already and have not changed: after the
    -- source is loaded and all its jobs have run, its schema is empty, whatever is in the files.
    pub load_source-stale :
        (dir : String) (s s' : Store S) (files : List String)
        → lookup dir s.sources ≡ none
        → load_source_store_at F dir s ≡ some (s', files)
        → All (Loaded s) files
        → (ss : SourceInfo S) × (load_schemas F files s' ≡ some s')
          × (lookup dir s'.sources ≡ some ss)
          × (ss.schema ≡ [])
    unfolding load_source_store_at
    load_source-stale dir s s' files new ran loaded = elim (Option-cases (source_info dir)) [
      | inl failed ↦ absurd (ground (arith, failed, ran))
      | inr (src, found) ↦
          let ss = replaced F dir src (expand_paths F dir src.paths []) none in
          let same_files : s.files ≡ s'.files = ground (arith, found, new, ran) in
          let same_sources : insert dir ss s.sources ≡ s'.sources =
            ground (arith, found, new, ran) in
          (
            ss,
            load_schemas_same files s' (rw (← same_files) loaded),
            rw (← same_sources) (ground (arith, lookup-insert dir dir ss s.sources, ==_refl dir)),
            refl,
          )
    ]
