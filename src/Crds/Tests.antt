-- ===== src/Crds/Tests.antt =====
-- Runs of the store on one file of definitions, and instances of the theorems.
use function_hcl.Base.{
  ℕ, String, ◌≡◌, refl, true, false, none, some, [], ◌∷◌, lookup, insert, string_eq, arith,
}
use function_hcl.Crds.{
  Key, key_eq, Schemas, FileSchema, SourceInfo, Store, FileSystem, compose, filter_scope,
  propagate_schema_for_file, load_schemas, load_source_store_at,
}
use function_hcl.Crds.Propagate.{
  Keyed, Becomes, Loaded, propagate_schema_for_file_lem, load_source-stale,
}
use function_hcl.Crds.Compose.{first_schema, in_scope, filter_scope-compose}

abbrev bucket : Key
bucket = record { api_version = "s3.example.org/v1"; kind = "Bucket" }

abbrev definitions : Schemas ℕ
definitions = (bucket, record { scope = "cluster"; schema = 7 }) ∷ []

abbrev disk : FileSystem ℕ
disk = record {
  hash = λ path. some "1";
  load = λ path. some definitions;
  source_info = λ dir. some (record { scope = "both"; paths = "*.yaml" ∷ [] });
  glob = λ dir pattern. some ("crds.yaml" ∷ []);
  is_dir = λ path. some false;
  is_yaml = λ path. true;
  sorted = λ paths. paths;
  visit = λ path files. files;
}

abbrev file : FileSchema ℕ
file = record { path = "crds.yaml"; checksum = "1"; schema = definitions }

abbrev source : SourceInfo ℕ
source = record {
  source_path = "first";
  source = record { scope = "cluster"; paths = [] };
  expanded_files = "crds.yaml" ∷ [];
  schema = [];
}

abbrev one_source : Store ℕ
one_source = record { files = ("crds.yaml", file) ∷ []; sources = ("first", source) ∷ [] }

one_source-Keyed : Keyed one_source.sources
unfolding lookup
one_source-Keyed n ss h = ground (arith, h)

propagate_schema_for_file_lem_example :
    (out : Store ℕ) × (propagate_schema_for_file disk.visit "crds.yaml" one_source ≡ some out)
    × (out.files ≡ one_source.files)
    × ((n : String)
        → Becomes disk.visit one_source.files "crds.yaml"
            (lookup n one_source.sources)
            (lookup n out.sources))
propagate_schema_for_file_lem_example =
    propagate_schema_for_file_lem disk.visit "crds.yaml" one_source one_source-Keyed

filter_scope-compose_example :
    lookup bucket (filter_scope "cluster" (compose (definitions ∷ definitions ∷ [])))
    ≡ in_scope "cluster" (first_schema bucket (definitions ∷ definitions ∷ []))
filter_scope-compose_example =
    filter_scope-compose bucket "cluster" (definitions ∷ definitions ∷ [])

-- A second directory with the same file.
abbrev two_sources : Store ℕ
two_sources = record one_source {
  sources =
      ("first", source)
      ∷ (
        "second",
        record {
          source_path = "second";
          source = record { scope = "both"; paths = "*.yaml" ∷ [] };
          expanded_files = "crds.yaml" ∷ [];
          schema = [];
        },
      )
      ∷ [];
}

second_lem : load_source_store_at disk "second" one_source ≡ some (two_sources, "crds.yaml" ∷ [])
unfolding load_source_store_at lookup insert string_eq
second_lem = refl

crds-Loaded : Loaded disk one_source "crds.yaml"
unfolding lookup string_eq
crds-Loaded = (file, refl, refl)

second_is_new : lookup "second" one_source.sources ≡ none
unfolding lookup string_eq
second_is_new = refl

load_source-stale_example :
    (ss : SourceInfo ℕ) × (load_schemas disk ("crds.yaml" ∷ []) two_sources ≡ some two_sources)
    × (lookup "second" two_sources.sources ≡ some ss)
    × (ss.schema ≡ [])
load_source-stale_example =
    load_source-stale disk "second" one_source two_sources ("crds.yaml" ∷ []) second_is_new
      second_lem (crds-Loaded, tt)
