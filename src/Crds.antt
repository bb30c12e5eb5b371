-- ===== src/Crds.antt =====
-- language-server/internal/features/crds/store: the files and sources of custom resource
-- definitions, and language-server/internal/resource/api.go: sets of schemas. The sorted list of keys
-- that a set of schemas carries follows from its map and is left out. Each operation below is run by
-- the one worker of the store's queue, or under a lock.
pub mod Propagate
pub mod Compose
mod Tests
use function_hcl.Base.{
  ℕ, String, ◌≡◌, refl, Bool, true, false, not, ◌&&◌, ◌||◌, Option, none, some, List, [], ◌∷◌, Dict,
  Eq, string_eq, ◌==◌, lookup, insert, keys, contains, is_some, if◌then◌else◌,
}

-- Key
pub record Key : Type 0 where
  pub api_version : String
  pub kind : String

key_dec : (a b : Key) → Dec (a ≡ b)
key_dec a b = elim (string_eq.dec a.api_version b.api_version) [
  | no differ ↦ no (λ p. differ (λ i. (p i).api_version))
  | yes same_version ↦ elim (string_eq.dec a.kind b.kind) [
    | no differ ↦ no (λ p. differ (λ i. (p i).kind))
    | yes same_kind ↦ yes (λ i. record { api_version = same_version i; kind = same_kind i })
  ]
]

instance unfoldable pub key_eq : Eq Key
unfolding key_dec
key_eq = record { dec = key_dec }

-- ScopedAttributeSchema, for a type of attribute schemas.
pub record Scoped (S : Type 0) : Type 0 where
  pub scope : String
  pub schema : S

-- Schemas
abbrev pub Schemas : Type 0 → Type 0
Schemas S = Dict Key (Scoped S)

-- CRDSource
pub record CrdSource : Type 0 where
  pub scope : String
  pub paths : List String

-- fileSchema
pub record FileSchema (S : Type 0) : Type 0 where
  pub path : String
  pub checksum : String
  pub schema : Schemas S

-- sourceInfo; the map of expanded files has only entries that are true.
pub record SourceInfo (S : Type 0) : Type 0 where
  pub source_path : String
  pub source : CrdSource
  pub expanded_files : List String
  pub schema : Schemas S

-- The two stores of Store.
pub record Store (S : Type 0) : Type 0 where
  pub files : Dict String (FileSchema S)
  pub sources : Dict String (SourceInfo S)

-- What the store asks of the file system.
pub record FileSystem (S : Type 0) : Type 0 where
  -- fileInfoHash of os.Stat; `none` is an error.
  pub hash : String → Option String
  -- The load of a file with the loader; `none` is an error.
  pub load : String → Option (Schemas S)
  -- getSourceInfo reads the sources file of a directory, or finds the default directory.
  pub source_info : String → Option CrdSource
  -- doublestar.FilepathGlob for a path below a directory, or an absolute one; `none` is an error.
  pub glob : String → String → Option (List String)
  -- os.Stat: whether it is a directory; `none` is an error.
  pub is_dir : String → Option Bool
  -- shouldProcessFile
  pub is_yaml : String → Bool
  -- sort.Strings
  pub sorted : List String → List String
  -- The order in which `range` visits the files of the source at a path.
  pub visit : String → List String → List String

module _ {S : Type 0} where
  -- The body of the loops of Compose.
  unfoldable pub add_schema : Schemas S → Key → Scoped S → Schemas S
  add_schema out k v = if is_some (lookup k out) then out else insert k v out

  unfoldable pub add_schemas : Schemas S → Schemas S → Schemas S
  unfolding add_schema
  add_schemas out [] = out
  add_schemas out ((k, v) ∷ s) = add_schemas (add_schema out k v) s

  unfoldable pub compose_onto : Schemas S → List (Schemas S) → Schemas S
  unfolding add_schemas
  compose_onto out [] = out
  compose_onto out (s ∷ schemas) = compose_onto (add_schemas out s) schemas

  -- Compose
  unfoldable pub compose : List (Schemas S) → Schemas S
  unfolding compose_onto
  compose schemas = compose_onto [] schemas

  -- The loop of FilterScope.
  unfoldable pub with_scope : String → Schemas S → Schemas S
  with_scope scope [] = []
  with_scope scope ((k, v) ∷ s) =
      let rest = with_scope scope s in if v.scope == scope then (k, v) ∷ rest else rest

  -- FilterScope
  unfoldable pub filter_scope : String → Schemas S → Schemas S
  unfolding with_scope
  filter_scope scope s =
      if not (scope == "namespaced") && not (scope == "cluster") then s else with_scope scope s

  -- fileStore.getSchema
  unfoldable pub get_schema : Dict String (FileSchema S) → String → Schemas S
  get_schema files path = elim (lookup path files) [ none ↦ [] | some f ↦ f.schema ]

  -- The schemas of some files.
  unfoldable pub schemas_of : Dict String (FileSchema S) → List String → List (Schemas S)
  unfolding get_schema
  schemas_of files [] = []
  schemas_of files (path ∷ paths) = get_schema files path ∷ schemas_of files paths

  -- The source with the schema that propagateSchemaForFile computes, for an order of its files.
  unfoldable pub updated :
      (String → List String → List String)
      → Dict String (FileSchema S)
      → SourceInfo S
      → SourceInfo S
  unfolding compose filter_scope schemas_of
  updated visit files ss = record ss {
    schema =
        filter_scope ss.source.scope
          (compose (schemas_of files (visit ss.source_path ss.expanded_files)));
  }

  -- The loop of propagateSchemaForFile over the paths of sources; `none` is the nil dereference for
  -- a path without a source.
  unfoldable pub propagate_paths :
      (String → List String → List String)
      → Dict String (FileSchema S)
      → String
      → List String
      → Dict String (SourceInfo S)
      → Option (Dict String (SourceInfo S))
  unfolding updated
  propagate_paths visit files file [] sources = some sources
  propagate_paths visit files file (path ∷ paths) sources = elim (lookup path sources) [
    | none ↦ none
    | some ss ↦
        let changed =
          propagate_paths visit files file paths
            (insert ss.source_path (updated visit files ss) sources) in
        let same = propagate_paths visit files file paths sources in
        if contains ss.expanded_files file then changed else same
  ]

  -- propagateSchemaForFile
  unfoldable pub propagate_schema_for_file :
      (String → List String → List String) → String → Store S → Option (Store S)
  unfolding propagate_paths
  propagate_schema_for_file visit file s =
      elim (propagate_paths visit s.files file (keys s.sources) s.sources) [
        | none ↦ none
        | some sources ↦ some (record s { sources = sources })
      ]

  module _ (F : FileSystem S) where
    open F use {hash, load, source_info, glob, is_dir, is_yaml, sorted, visit}

    -- fileStore.add: the files with the new one, no changes, or an error.
    pub data Added : Type 0 where
      added : Dict String (FileSchema S) → Added
      no_changes : Added
      add_failed : Added

    -- The end of fileStore.add, for a file that is new or has changed.
    unfoldable pub load_file : String → String → Dict String (FileSchema S) → Added
    load_file path checksum files = elim (load path) [
      | none ↦ add_failed
      | some schema ↦
          added (insert path (record { path = path; checksum = checksum; schema = schema }) files)
    ]

    -- fileStore.add
    unfoldable pub add : String → Dict String (FileSchema S) → Added
    unfolding load_file
    add path files = elim (hash path) [
      | none ↦ add_failed
      | some checksum ↦ elim (lookup path files) [
        | none ↦ load_file path checksum files
        | some have ↦
            if have.checksum == checksum then no_changes else load_file path checksum files
      ]
    ]

    -- What a job yields that loads one file: the store afterwards, with an error that is only logged.
    unfoldable pub load_schema : String → Store S → Option (Store S)
    unfolding add propagate_schema_for_file
    load_schema file s = elim (add file s.files) [
      | add_failed ↦ some s
      | no_changes ↦ some s
      | added files ↦ propagate_schema_for_file visit file (record s { files = files })
    ]

    -- The body of the loop over the matches of a pattern.
    unfoldable pub keep_files : List String → List String → List String
    keep_files [] found = found
    keep_files (m ∷ matches) found = elim (is_dir m) [
      | some false ↦
          keep_files matches (if is_yaml m && not (contains found m) then m ∷ found else found)
      | _ ↦ keep_files matches found
    ]

    -- The loop over the patterns of a source.
    unfoldable pub expand_paths : String → List String → List String → List String
    unfolding keep_files
    expand_paths dir [] found = found
    expand_paths dir (p ∷ paths) found = elim (glob dir p) [
      | none ↦ expand_paths dir paths found
      | some matches ↦ expand_paths dir paths (keep_files matches found)
    ]

    -- The source of a directory with its new definition and files: a source that is new has the
    -- empty schema, and the others keep the last known one.
    abbrev pub replaced : String → CrdSource → List String → Option (SourceInfo S) → SourceInfo S
    replaced dir src found none = record {
      source_path = dir;
      source = src;
      expanded_files = found;
      schema = [];
    }
    replaced dir src found (some ss) = record ss { source = src; expanded_files = found }

    -- loadSourceStoreAt: the store with the source, and the files to load in jobs of their own.
    unfoldable pub load_source_store_at : String → Store S → Option (Store S × List String)
    unfolding expand_paths
    load_source_store_at dir s = elim (source_info dir) [
      | none ↦ none
      | some src ↦
          let found = expand_paths dir src.paths [] in
          let ss = replaced dir src found (lookup dir s.sources) in
          some (record s { sources = insert ss.source_path ss s.sources }, sorted found)
    ]

    -- The jobs that loadSourceStoreAt enqueues, one after the other.
    unfoldable pub load_schemas : List String → Store S → Option (Store S)
    unfolding load_schema
    load_schemas [] s = some s
    load_schemas (file ∷ files) s = elim (load_schema file s) [
      | none ↦ none
      | some s' ↦ load_schemas files s'
    ]
