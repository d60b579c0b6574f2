-- ===== src/Tests/Startup.antt =====
-- The theorems about the start of the application at concrete inputs.
use riskflow.Prelude.{
  ℕ, ◌≡◌, ◌⊎◌, refl, [], ◌∷◌, Option, none, some, String, true, ◌==◌, contains, if◌then◌else◌,
}
use riskflow.Prelude.Dict.{Dict, get, keys}
use riskflow.Errors.{Result, ok, raise, file_not_found, connection_lost}
use riskflow.Startup.{Environment, load_all_schemas, registered}
use riskflow.Startup.App.{default_name, default_schema, default_service, first_value}
use riskflow.Startup.Default.{load_all_schemas-default_service}
use riskflow.Startup.Orphans.{
  TempFiles, IsDirectory, young, cleanup_orphaned_temp_files, cleanup_orphaned_temp_files-young,
}
use riskflow.Startup.Stores.{
  Scanning, IsLost, null_schema_store, create_schema_store, wire_from, create_schema_store-IsLost,
}
use riskflow.Storage.{Codec}
use riskflow.TargetSchema.{TargetSchema}
use riskflow.Tests.{small_schema}

abbrev Directory : Type 0
Directory = String → Option ℕ

abbrev time_or : Option ℕ → Directory → Result ℕ × Directory
time_or none w = (raise file_not_found, w)
time_or (some t) w = (ok t, w)

abbrev temp_files : TempFiles Directory
temp_files = record {
  getmtime = λ p w. time_or (w p) w;
  remove = λ p w. (ok tt, λ q. if p == q then none else w q);
}

directory-IsDirectory : IsDirectory temp_files
directory-IsDirectory = record {
  mtime = λ w p. w p;
  reads = λ p t w h. rw h refl;
  lacks = λ p w h. rw h refl;
  removes = λ p w. (_, refl, λ q. refl);
}

-- Two files, of which one is old at the time 5000.
abbrev two_files : Directory
two_files p = if p == "/tmp/riskflow_a" then some 1000 else some 4000

cleanup_orphaned_temp_files-young_example :
    (n : ℕ) × (w' : Directory) × (cleanup_orphaned_temp_files temp_files 5000 0
        ("/tmp/riskflow_a" ∷ "/tmp/riskflow_b" ∷ [])
        two_files
      ≡ (ok n, w'))
    × ((q : String)
        → directory-IsDirectory.mtime w' q ≡ (
            if contains q ("/tmp/riskflow_a" ∷ "/tmp/riskflow_b" ∷ [])
            then young temp_files directory-IsDirectory 5000
                (directory-IsDirectory.mtime two_files q)
            else directory-IsDirectory.mtime two_files q))
cleanup_orphaned_temp_files-young_example =
    cleanup_orphaned_temp_files-young temp_files directory-IsDirectory 5000 0
      ("/tmp/riskflow_a" ∷ "/tmp/riskflow_b" ∷ []) two_files

-- One schema file.
abbrev one_file : Environment String
one_file = record {
  exists = λ p. true;
  read_text = λ p. ok "name: small";
  safe_load = some;
  is_dict = λ y. true;
  model_validate = λ y. ok small_schema;
  schema_path = none;
  yaml_files = some ("schemas/small.yaml" ∷ []);
}

loaded : load_all_schemas one_file ≡ ok ((small_schema.name, small_schema) ∷ [])
unfolding load_all_schemas riskflow.Prelude.Dict.put
loaded = refl

load_all_schemas-default_service_example :
    (s : TargetSchema) × (default_schema (some "other") ((small_schema.name, small_schema) ∷ [])
      ≡ some s)
    × (default_service s
          (registered
            (λ (t : TargetSchema). t.name)
            ((small_schema.name, small_schema) ∷ [])).registry
        ≡ some s.name)
    × ((get (default_name (some "other")) ((small_schema.name, small_schema) ∷ []) ≡ some s)
        ⊎ ((get (default_name (some "other")) ((small_schema.name, small_schema) ∷ []) ≡ none)
            × (first_value ((small_schema.name, small_schema) ∷ []) ≡ some s)))
load_all_schemas-default_service_example =
    load_all_schemas-default_service one_file (λ (t : TargetSchema). t.name) (some "other")
      ((small_schema.name, small_schema) ∷ []) loaded

-- A Redis that does not answer.
abbrev lost_client : Scanning String
lost_client = record {
  redis = record {
    get = λ k w. (raise connection_lost, w);
    set = λ k v w. (raise connection_lost, w);
    setex = λ k ttl v w. (raise connection_lost, w);
    delete = λ k w. (raise connection_lost, w);
    hmget = λ k hs w. (raise connection_lost, w);
    hset = λ k f v w. (raise connection_lost, w);
  };
  scan = λ p cursor w. (raise connection_lost, w);
}

lost_client-IsLost : IsLost lost_client
lost_client-IsLost = record {
  get_lost = λ k w. refl;
  set_lost = λ k v w. refl;
  delete_lost = λ k w. refl;
  scan_lost = λ p cursor w. refl;
}

abbrev schema_codec : Codec TargetSchema
schema_codec = record { dump = λ s. ok "{}"; load = λ json. ok small_schema }

abbrev file_schemas : Dict TargetSchema
file_schemas = ("small", small_schema) ∷ []

abbrev service_name : TargetSchema → String
service_name s = s.name

create_schema_store-IsLost_example :
    ((create_schema_store schema_codec (some lost_client)).find "new" ""
      ≡ (null_schema_store {W = String}).find "new" "")
    × ((create_schema_store schema_codec (some lost_client)).save small_schema ""
        ≡ (null_schema_store {W = String}).save small_schema "")
    × ((create_schema_store schema_codec (some lost_client)).delete "new" ""
        ≡ (null_schema_store {W = String}).delete "new" "")
    × (wire_from service_name
          (create_schema_store schema_codec (some lost_client))
          file_schemas
          1
          ""
        ≡ some (registered service_name file_schemas, keys file_schemas))
create_schema_store-IsLost_example =
    create_schema_store-IsLost schema_codec lost_client lost_client-IsLost service_name file_schemas
      0 "" small_schema "{}" "new" refl
