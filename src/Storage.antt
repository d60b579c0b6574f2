-- ===== src/Storage.antt =====
-- adapters/storage: the Redis and the null adapters of the cache, the corrections, the sessions and
-- the jobs. The Redis client is a parameter, by the commands that are used, and so are pydantic's
-- JSON forms. Logging is left out; an error that is logged and swallowed is an empty answer.
pub mod Degrade
pub mod Keeping
pub mod Listing
use riskflow.Prelude.{
  ℕ, ◌≡◌, Bool, true, false, not, List, [], ◌∷◌, Option, none, some, String, if◌then◌else◌,
}
use riskflow.Prelude.Dict.{Dict, put}
use riskflow.Correction.{Correction}
use riskflow.Errors.{
  Exception, value_error, zip_length, Result, ◌>>=◌ as bind, ok, raise, is_connection_lost,
  is_unreadable, is_unreadable_dict,
}
use riskflow.Exec.{Exec, pure, lift, ◌>>=◌}
use riskflow.Job.{Job}
use riskflow.Json.{◌<>◌}
use riskflow.Ports.{CachePort, CorrectionCachePort}
use riskflow.Schema.{MappingResult}
use riskflow.Session.{MappingSession}
use riskflow.TargetSchema.{TargetSchema}

-- The asynchronous Redis client. A time to live is in seconds.
pub record Redis (W : Type 0) : Type 0 where
  pub get : String → Exec W (Option String)
  pub set : String → String → Exec W (Unit {0})
  pub setex : String → ℕ → String → Exec W (Unit {0})
  pub delete : String → Exec W (Unit {0})
  pub hmget : String → List String → Exec W (List (Option String))
  pub hset : String → String → String → Exec W (Unit {0})

-- `model_dump_json` and `model_validate_json` of a type, or `json.dumps(job.to_dict())` and
-- `Job.from_dict(json.loads(data))`. A dump may raise too.
pub record Codec (A : Type 0) : Type 0 where
  pub dump : A → Result String
  pub load : String → Result A

-- `try: … except (ConnectionError, redis.RedisError): return default`
abbrev pub or_default : {W A : Type 0} → A → Result A → W → Result A × W
or_default a (ok b) w = (ok b, w)
or_default a (raise e) w = if is_connection_lost e then (ok a, w) else (raise e, w)

abbrev pub degrade : {W A : Type 0} → A → Exec W A → Exec W A
degrade a m w = let (r, v) = m w in or_default a r v

-- `try: return load(data) except …: return None`
abbrev pub or_none : {A : Type 0} → (Exception → Bool) → Result A → Result (Option A)
or_none caught (ok a) = ok (some a)
or_none caught (raise e) = if caught e then ok none else raise e

abbrev pub loaded :
    {W A : Type 0}
    → (Exception → Bool)
    → Codec A
    → Result (Option String)
    → W
    → Result (Option A) × W
loaded caught codec (ok none) w = (ok none, w)
loaded caught codec (ok (some json)) w = (or_none caught (codec.load json), w)
loaded caught codec (raise e) w = (raise e, w)

-- The body that the `get` methods share.
abbrev pub fetch :
    {W A : Type 0} → (Exception → Bool) → Codec A → Redis W → String → Exec W (Option A)
fetch caught codec redis key w =
    let (r, v) = degrade none (redis.get key) w in loaded caught codec r v

-- The dump is made inside the `try`, and only connection errors are caught.
abbrev pub dumped : {W : Type 0} → (String → Exec W (Unit {0})) → Result String → Exec W (Unit {0})
dumped write (ok json) = degrade tt (write json)
dumped write (raise e) = lift (if is_connection_lost e then ok tt else raise e)

-- `zip(headers, values, strict=True)`, without the headers that have no value.
unfoldable pub pair_up : List String → List (Option String) → Result (Dict String)
pair_up [] [] = ok []
pair_up (h ∷ hs) (some v ∷ vs) = bind (pair_up hs vs) λ d. ok ((h, v) ∷ d)
pair_up (h ∷ hs) (none ∷ vs) = pair_up hs vs
pair_up _ _ = raise (value_error zip_length)

-- `{header: value … if value is not None}`: of a repeated header the last entry counts.
unfoldable pub as_dict : Dict String → Dict String → Dict String
as_dict d [] = d
as_dict d ((h, v) ∷ es) = as_dict (put h v d) es

-- The values that came, or none after a connection error.
abbrev pub present : {W A : Type 0} → Exec W A → Exec W (Option A)
present m = m >>= λ a. pure (some a)

unfoldable pub answered : List String → Option (List (Option String)) → Result (Dict String)
unfolding pair_up as_dict
answered headers none = ok []
answered headers (some vs) = bind (pair_up headers vs) λ d. ok (as_dict [] d)

abbrev pub mapping_key : String → String
mapping_key k = "riskflow:mapping:" <> k

abbrev pub corrections_key : String → String
corrections_key cedent = "corrections:" <> cedent

abbrev pub session_key : String → String
session_key id = "riskflow:session:" <> id

abbrev pub schema_key : String → String
schema_key name = "riskflow:schema:" <> name

abbrev pub job_key : String → String
job_key id = "riskflow:job:" <> id

module _ {W : Type 0} (redis : Redis W) where
  -- `RedisCache`, with the default time to live.
  unfoldable pub get_mapping : Codec MappingResult → String → Exec W (Option MappingResult)
  get_mapping codec k = fetch is_unreadable codec redis (mapping_key k)

  unfoldable pub set_mapping : Codec MappingResult → String → MappingResult → Exec W (Unit {0})
  set_mapping codec k m = dumped (redis.setex (mapping_key k) 3600) (codec.dump m)

  -- `RedisCorrectionCache`
  unfoldable pub get_corrections : String → List String → Exec W (Dict String)
  unfolding answered
  get_corrections cedent [] = pure []
  get_corrections cedent (h ∷ hs) =
      degrade none (present (redis.hmget (corrections_key cedent) (h ∷ hs))) >>= λ answer.
      lift (answered (h ∷ hs) answer)

  unfoldable pub set_correction : Correction → Exec W (Unit {0})
  set_correction c =
      degrade tt (redis.hset (corrections_key c.cedent_id) c.source_header c.target_field)

  -- `RedisMappingSessionStore`
  module _ {R : Type 0} (codec : Codec (MappingSession R)) where
    unfoldable pub save_session : ℕ → MappingSession R → Exec W (Unit {0})
    save_session ttl s = dumped (redis.setex (session_key s.id) ttl) (codec.dump s)

    unfoldable pub get_session : String → Exec W (Option (MappingSession R))
    get_session id = fetch is_unreadable codec redis (session_key id)

    unfoldable pub delete_session : String → Exec W (Unit {0})
    delete_session id = degrade tt (redis.delete (session_key id))

  -- `RedisSchemaStore`, without `list_all`
  unfoldable pub get_schema : Codec TargetSchema → String → Exec W (Option TargetSchema)
  get_schema codec name = fetch is_unreadable codec redis (schema_key name)

  unfoldable pub save_schema : Codec TargetSchema → TargetSchema → Exec W (Unit {0})
  save_schema codec s = dumped (redis.set (schema_key s.name)) (codec.dump s)

  unfoldable pub delete_schema : String → Exec W (Unit {0})
  delete_schema name = degrade tt (redis.delete (schema_key name))

  -- `RedisJobStore`, without `list_all`
  module _ {T R : Type 0} (codec : Codec (Job T R)) where
    unfoldable pub save_job : ℕ → Job T R → Exec W (Unit {0})
    save_job ttl j = dumped (redis.setex (job_key j.id) ttl) (codec.dump j)

    unfoldable pub get_job : String → Exec W (Option (Job T R))
    get_job id = fetch is_unreadable_dict codec redis (job_key id)

-- `NullCache` and `NullCorrectionCache`
module _ {W : Type 0} where
  unfoldable pub null_cache : CachePort W
  null_cache = record { get_mapping = λ k. pure none; set_mapping = λ k m. pure tt }

  unfoldable pub null_correction_cache : CorrectionCachePort W
  null_correction_cache = record {
    get_corrections = λ c hs. pure [];
    set_correction = λ c. pure tt;
  }

-- `RedisCache` and `RedisCorrectionCache` as the service's ports.
module _ {W : Type 0} (redis : Redis W) where
  unfoldable pub redis_cache : Codec MappingResult → CachePort W
  unfolding get_mapping set_mapping
  redis_cache codec = record {
    get_mapping = get_mapping redis codec;
    set_mapping = set_mapping redis codec;
  }

  unfoldable pub redis_correction_cache : CorrectionCachePort W
  unfolding get_corrections set_correction
  redis_correction_cache = record {
    get_corrections = get_corrections redis;
    set_correction = set_correction redis;
  }
