-- ===== src/Startup.antt =====
-- adapters/parsers/schema_loader.py and the schemas of entrypoint/main.py: the files that are loaded
-- when the application starts, and the runtime schemas that are merged with them. Files, YAML and
-- the environment are parameters; the rest of the composition root is left out.
pub mod Merge
pub mod App
pub mod Stores
pub mod Default
pub mod Orphans
use riskflow.Prelude.{
  ◌≡◌, Bool, true, false, not, List, [], ◌∷◌, Option, none, some, String, ◌==◌, is_some,
  if◌then◌else◌,
}
use riskflow.Prelude.Dict.{Dict, get, put, keys}
use riskflow.Errors.{
  Exception, is_os_error, invalid_schema, is_value_error, Result, ok, raise, ◌>>=◌, ◌>>◌, guard,
}
use riskflow.Exec.{Exec}
use riskflow.TargetSchema.{TargetSchema}

-- The files of a directory, `read_text`, `yaml.safe_load` followed by the test for a dict, and
-- `TargetSchema.model_validate`, over the parsed data `Y`.
pub record Environment (Y : Type 0) : Type 0 where
  pub exists : String → Bool
  pub read_text : String → Result String
  pub safe_load : String → Option Y
  pub is_dict : Y → Bool
  pub model_validate : Y → Result TargetSchema
  -- `os.environ.get("SCHEMA_PATH")`, and the sorted YAML files of the directory, if it exists
  pub schema_path : Option String
  pub yaml_files : Option (List String)

module _ {Y : Type 0} (env : Environment Y) where
  -- `except OSError`; a decoding error passes through.
  unfoldable pub read : Result String → Result String
  read (ok raw) = ok raw
  read (raise e) = if is_os_error e then raise invalid_schema else raise e

  unfoldable pub parsed : Option Y → Result Y
  parsed none = raise invalid_schema
  parsed (some y) = ok y

  -- `except ValidationError`
  unfoldable pub validated : Result TargetSchema → Result TargetSchema
  validated (ok s) = ok s
  validated (raise e) = if is_value_error e then raise invalid_schema else raise e

  -- `YamlSchemaLoader.load`
  unfoldable pub load : String → Result TargetSchema
  unfolding read parsed validated
  load path = do
    guard (env.exists path) invalid_schema
    raw ← read (env.read_text path)
    y ← parsed (env.safe_load raw)
    guard (env.is_dict y) invalid_schema
    validated (env.model_validate y)

  abbrev pub single : TargetSchema → Dict TargetSchema
  single s = (s.name, s) ∷ []

  -- The loop over the YAML files: a later schema of the same name takes the place of an earlier one.
  unfoldable pub load_each : Dict TargetSchema → List String → Result (Dict TargetSchema)
  unfolding load
  load_each d [] = ok d
  load_each d (f ∷ fs) = load f >>= λ s. load_each (put s.name s d) fs

  unfoldable pub load_default : Result (Dict TargetSchema)
  unfolding load
  load_default = load "schemas/standard_reinsurance.yaml" >>= λ s. ok (single s)

  -- `if not schemas`
  unfoldable pub or_default : Dict TargetSchema → Result (Dict TargetSchema)
  unfolding load_default
  or_default [] = load_default
  or_default (e ∷ d) = ok (e ∷ d)

  unfoldable pub from_files : Option (List String) → Result (Dict TargetSchema)
  unfolding load_default or_default load_each
  from_files none = load_default
  from_files (some fs) = load_each [] fs >>= λ d. or_default d

  -- `_load_all_schemas`: an empty SCHEMA_PATH counts as none.
  unfoldable pub load_all_schemas : Result (Dict TargetSchema)
  unfolding from_files load
  load_all_schemas = elim env.schema_path [
    | none ↦ from_files env.yaml_files
    | some path ↦
        if path == "" then from_files env.yaml_files else (load path >>= λ s. ok (single s))
  ]

-- `_registry` and `schemas` while the runtime schemas are merged.
pub record Registered (S : Type 0) : Type 0 where
  pub registry : Dict S
  pub definitions : Dict TargetSchema

module _ {S : Type 0} (make_service : TargetSchema → S) where
  services : Dict TargetSchema → Dict S
  services [] = []
  services ((n, s) ∷ d) = (n, make_service s) ∷ services d

  -- A MappingService per schema.
  unfoldable pub registered : Dict TargetSchema → Registered S
  unfolding services
  registered d = record { registry = services d; definitions = d }

  -- One runtime schema: a store that fails or has none skips it, and a known name is not loaded.
  unfoldable pub merge_one :
      (String → Result (Option TargetSchema)) → String → Registered S → Registered S
  merge_one fetch name r = if is_some (get name r.definitions) then r else (elim (fetch name) [
    | ok (some s) ↦ record {
      registry = put name (make_service s) r.registry;
      definitions = put name s r.definitions;
    }
    | _ ↦ r
  ])

  -- The loop over `runtime_names`.
  unfoldable pub merge :
      (String → Result (Option TargetSchema)) → List String → Registered S → Registered S
  unfolding merge_one
  merge fetch [] r = r
  merge fetch (n ∷ ns) r = merge fetch ns (merge_one fetch n r)
