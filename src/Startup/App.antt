-- ===== src/Startup/App.antt =====
-- `create_app` of entrypoint/main.py: the adapters that are chosen, the default service and the
-- probes. The environment variables and the Redis client are parameters.
use riskflow.Prelude.{ℕ, Bool, ◌&&◌, List, [], ◌∷◌, Option, none, some, String, ◌==◌, if◌then◌else◌}
use riskflow.Prelude.Dict.{Dict, get, keys}
use riskflow.Errors.{Result, ok, raise}
use riskflow.Exec.{Exec, pure}
use riskflow.Ports.{CachePort, CorrectionCachePort}
use riskflow.Routes.Sessions.{SessionStore}
use riskflow.Schema.{MappingResult}
use riskflow.Session.{MappingSession}
use riskflow.Storage.{
  Redis, Codec, redis_cache, redis_correction_cache, null_cache, null_correction_cache,
  save_session, get_session, delete_session,
}
use riskflow.TargetSchema.{TargetSchema}
use riskflow.Startup.{Registered, registered, merge}

-- `_create_redis_client`: an empty URL counts as none.
unfoldable pub create_redis_client : {C : Type 0} → (String → C) → Option String → Option C
create_redis_client from_url none = none
create_redis_client from_url (some url) = if url == "" then none else some (from_url url)

module _ {W : Type 0} where
  -- `_create_cache`
  unfoldable pub create_cache : Codec MappingResult → Option (Redis W) → CachePort W
  create_cache codec none = null_cache
  create_cache codec (some redis) = redis_cache redis codec

  -- `_create_correction_cache`
  unfoldable pub create_correction_cache : Option (Redis W) → CorrectionCachePort W
  create_correction_cache none = null_correction_cache
  create_correction_cache (some redis) = redis_correction_cache redis

  -- `NullMappingSessionStore`
  unfoldable pub null_session_store : {R : Type 0} → SessionStore W R
  null_session_store = record {
    save = λ s. pure tt;
    find = λ id. pure none;
    delete = λ id. pure tt;
  }

  -- `_create_session_store`, with the default time to live.
  unfoldable pub create_session_store :
      {R : Type 0} → Codec (MappingSession R) → Option (Redis W) → SessionStore W R
  unfolding save_session get_session delete_session null_session_store
  create_session_store codec none = null_session_store
  create_session_store codec (some redis) = record {
    save = save_session redis codec 3600;
    find = get_session redis codec;
    delete = delete_session redis codec;
  }

  -- `/ready`, by `ping` of the Redis client; an exception of any kind is caught.
  abbrev pub ready_status : Result (Unit {0}) × W → ℕ × W
  ready_status (ok _, w) = (200, w)
  ready_status (raise e, w) = (503, w)

  unfoldable pub ready : Option (Exec W (Unit {0})) → W → ℕ × W
  ready none w = (200, w)
  ready (some ping) w = ready_status (ping w)

  -- `/health`, by its two texts.
  abbrev pub health_texts : Result (Unit {0}) × W → (String × String) × W
  health_texts (ok _, w) = (("ok", "connected"), w)
  health_texts (raise e, w) = (("degraded", "unreachable"), w)

  unfoldable pub health : Option (Exec W (Unit {0})) → W → (String × String) × W
  health none w = (("ok", "not_configured"), w)
  health (some ping) w = health_texts (ping w)

-- `JOB_STORE`, whose default is "redis".
unfoldable pub uses_redis_jobs : Option String → Bool → Bool
uses_redis_jobs none has_client = has_client
uses_redis_jobs (some kind) has_client = kind == "redis" && has_client

-- `next(iter(d.values()))`; none is a `StopIteration`.
abbrev pub first_value : {V : Type 0} → Dict V → Option V
first_value [] = none
first_value ((k, v) ∷ d) = some v

abbrev pub or_first : {V : Type 0} → Option V → Dict V → Option V
or_first o [] = none
or_first none (e ∷ d) = some e.1
or_first (some v) (e ∷ d) = some v

abbrev pub default_name : Option String → String
default_name none = "standard_reinsurance"
default_name (some name) = name

-- `schemas.get(DEFAULT_SCHEMA, next(iter(schemas.values())))`: the second argument is computed first.
unfoldable pub default_schema : Option String → Dict TargetSchema → Option TargetSchema
unfolding get
default_schema name d = or_first (get (default_name name) d) d

-- `schema_registry.get(default_schema.name, next(iter(schema_registry.values())))`
unfoldable pub default_service : {S : Type 0} → TargetSchema → Dict S → Option S
unfolding get
default_service schema registry = or_first (get schema.name registry) registry

-- `except Exception: runtime_names = []`
abbrev pub runtime_names : Result (List String) → List String
runtime_names (ok names) = names
runtime_names (raise e) = []

-- The schemas and services once the application is made, and the names that cannot be deleted.
unfoldable pub wire :
    {S : Type 0}
    → (TargetSchema → S)
    → Result (List String)
    → (String → Result (Option TargetSchema))
    → Dict TargetSchema
    → Registered S × List String
unfolding registered merge
wire make_service listing fetch d =
    (merge make_service fetch (runtime_names listing) (registered make_service d), keys d)
