-- ===== src/Startup/Stores.antt =====
-- The store of the runtime schemas that `create_app` chooses: `RedisSchemaStore` or
-- `NullSchemaStore` of adapters/storage/schema_store.py, and the start without Redis.
use riskflow.Prelude.{ℕ, suc, ◌≡◌, refl, List, [], Option, none, some, String}
use riskflow.Prelude.Dict.{Dict, keys}
use riskflow.Errors.{Result, ok, raise, connection_lost}
use riskflow.Exec.{Exec, pure}
use riskflow.Startup.{Registered, registered, merge}
use riskflow.Startup.App.{wire}
use riskflow.Storage.{Redis, Codec, get_schema, save_schema, delete_schema}
use riskflow.Storage.Listing.{Scan, scan_loop, list_schemas}
use riskflow.TargetSchema.{TargetSchema}

-- `SchemaStorePort`; the listing is on fuel, and `none` is out of it.
pub record SchemaStorePort (W : Type 0) : Type 0 where
  pub find : String → Exec W (Option TargetSchema)
  pub save : TargetSchema → Exec W (Unit {0})
  pub delete : String → Exec W (Unit {0})
  pub list_all : ℕ → W → Option (Result (List String) × W)

-- The Redis client with its SCAN command.
pub record Scanning (W : Type 0) : Type 0 where
  pub redis : Redis W
  pub scan : Scan W

module _ {W : Type 0} where
  -- `NullSchemaStore`
  unfoldable pub null_schema_store : SchemaStorePort W
  null_schema_store = record {
    find = λ name. pure none;
    save = λ s. pure tt;
    delete = λ name. pure tt;
    list_all = λ fuel w. some (ok [], w);
  }

  -- `_create_schema_store`
  unfoldable pub create_schema_store : Codec TargetSchema → Option (Scanning W) → SchemaStorePort W
  unfolding null_schema_store get_schema save_schema delete_schema list_schemas
  create_schema_store codec none = null_schema_store
  create_schema_store codec (some client) = record {
    find = get_schema client.redis codec;
    save = save_schema client.redis codec;
    delete = delete_schema client.redis;
    list_all = list_schemas client.scan;
  }

  -- The lookup of a runtime schema, in the world at the end of the listing.
  abbrev pub fetch_from : SchemaStorePort W → W → String → Result (Option TargetSchema)
  fetch_from store w name = let (r, v) = store.find name w in r

  abbrev pub after_listing :
      {S : Type 0}
      → (TargetSchema → S)
      → SchemaStorePort W
      → Dict TargetSchema
      → Option (Result (List String) × W)
      → Option (Registered S × List String)
  after_listing make_service store d none = none
  after_listing make_service store d (some (listing, w)) =
      some (wire make_service listing (fetch_from store w) d)

  -- The schemas and services at the start, by the schemas of the files; a lookup changes nothing.
  unfoldable pub wire_from :
      {S : Type 0}
      → (TargetSchema → S)
      → SchemaStorePort W
      → Dict TargetSchema
      → ℕ
      → W
      → Option (Registered S × List String)
  unfolding wire
  wire_from make_service store d fuel w = after_listing make_service store d (store.list_all fuel w)

  -- Every command raises a connection error and changes nothing.
  pub record IsLost (client : Scanning W) : Type 0 where
    pub get_lost : (k : String) (w : W) → client.redis.get k w ≡ (raise connection_lost, w)
    pub set_lost : (k v : String) (w : W) → client.redis.set k v w ≡ (raise connection_lost, w)
    pub delete_lost : (k : String) (w : W) → client.redis.delete k w ≡ (raise connection_lost, w)
    pub scan_lost :
        (prefix : String) (cursor : ℕ) (w : W)
        → client.scan prefix cursor w ≡ (raise connection_lost, w)

  list_schemas-lost :
      (client : Scanning W)
      → IsLost client
      → (fuel : ℕ) (w : W) → list_schemas client.scan (suc fuel) w ≡ some (ok [], w)
  unfolding list_schemas scan_loop
  list_schemas-lost client lost fuel w = rw (lost.scan_lost _ 0 w) refl

  -- With a Redis that does not answer, the schema store finds, saves and deletes nothing without an
  -- exception, as NullSchemaStore does, if the schema can be dumped, and the application starts with
  -- the services and schemas of its files, all of which are protected.
  pub create_schema_store-IsLost :
      (codec : Codec TargetSchema) (client : Scanning W)
      → IsLost client
      → {S : Type 0}
      → (make_service : TargetSchema → S) (d : Dict TargetSchema) (fuel : ℕ) (w : W)
        (s : TargetSchema) (json name : String)
      → codec.dump s ≡ ok json
      → ((create_schema_store codec (some client)).find name w ≡ null_schema_store.find name w)
        × ((create_schema_store codec (some client)).save s w ≡ null_schema_store.save s w)
        × ((create_schema_store codec (some client)).delete name w
            ≡ null_schema_store.delete name w)
        × (wire_from make_service (create_schema_store codec (some client)) d (suc fuel) w
            ≡ some (registered make_service d, keys d))
  unfolding create_schema_store wire_from null_schema_store get_schema save_schema delete_schema
      wire merge pure
  create_schema_store-IsLost codec client lost make_service d fuel w s json name dumps = (
    rw (lost.get_lost _ w) refl,
    rw dumps (rw (lost.set_lost _ json w) refl),
    rw (lost.delete_lost _ w) refl,
    rw (list_schemas-lost client lost fuel w) refl,
  )
