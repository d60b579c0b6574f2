-- ===== src/Tests/Adapters.antt =====
-- The theorems about the adapters and the start of the application at concrete inputs.
use riskflow.Prelude.{
  ℕ, ◌≡◌, refl, Bool, true, false, [], ◌∷◌, Option, none, some, String, ltb, ◌+◌, zero, suc,
  if◌then◌else◌,
}
use riskflow.Errors.{
  Exception, Result, ok, raise, os_error, type_error, rate_limited, slm_unavailable, invalid_schema,
  invalid_cedent_data, api_error,
}
use riskflow.Exec.{Exec}
use riskflow.Schema.{MappingResult}
use riskflow.Storage.{Codec, redis_cache, redis_correction_cache}
use riskflow.Storage.Keeping.{redis_correction_cache-IsRemembering}
use riskflow.MappingService.Mapping.{IsRemembering}
use riskflow.Mapper.{OpenAi, Response, Tenacity, map_headers}
use riskflow.Startup.{Environment, load, registered, merge}
use riskflow.Startup.Merge.{Extends, merge-registered}
use riskflow.Ingestor.{Reader, polars_ingestor}
use riskflow.TargetSchema.{TargetSchema}
use riskflow.Tests.{
  World, empty_world, memory_redis, memory-IsAnswering, set_value, currency_result, small_schema,
}

-- One mapping and its text.
abbrev one_codec : Codec MappingResult
one_codec = record { dump = λ m. ok "{}"; load = λ s. ok currency_result }

abbrev stored_world : World
stored_world = record empty_world {
  values = set_value "riskflow:mapping:k" "{}" empty_world.values;
}

stored :
    (redis_cache memory_redis one_codec).set_mapping "k" currency_result empty_world
    ≡ (ok tt, stored_world)
unfolding redis_cache
stored = refl

redis_correction_cache-IsRemembering_example : IsRemembering (redis_correction_cache memory_redis)
redis_correction_cache-IsRemembering_example =
    redis_correction_cache-IsRemembering memory_redis memory-IsAnswering

-- A model that answers by a rate limit twice, and then with no choice; the world counts the calls.
abbrev limited_twice : Exec ℕ Response
limited_twice w = (if ltb w 2 then raise rate_limited else ok (record { choices = [] }), w + 1)

abbrev client : OpenAi ℕ
client = record {
  create = λ system user. limited_twice;
  dumps_headers = λ hs. "[]";
  dumps_rows = λ rows. "[]";
  load = λ s. raise type_error;
}

-- A decorator that asks again as long as attempts are left.
abbrev attempt : (Exception → Bool) → ℕ → Exec ℕ Response → Exec ℕ Response
attempt again zero m w = (raise rate_limited, w)
attempt again (suc n) m w =
    let (r, v) = m w in
    let rest = attempt again n m v in
    elim r [ ok a ↦ (ok a, v) | raise e ↦ if again e then rest else (raise e, v) ]

abbrev tenacity : Tenacity ℕ
tenacity = record { retry = attempt }

no_choice : map_headers tenacity client small_schema ("Ccy" ∷ []) [] 0 ≡ (raise slm_unavailable, 3)
unfolding map_headers riskflow.Exec.lift
no_choice = refl

-- A store with one runtime schema under a new name, and one under a known name.
abbrev runtime : String → Result (Option TargetSchema)
runtime name = ok (some (record small_schema { name = name }))

merge-registered_example :
    Extends
      (λ (s : TargetSchema). s.name)
      (registered (λ s. s.name) (("small", small_schema) ∷ []))
      (merge
        (λ s. s.name)
        runtime
        ("new" ∷ "small" ∷ [])
        (registered (λ s. s.name) (("small", small_schema) ∷ [])))
merge-registered_example =
    merge-registered (λ s. s.name) runtime ("new" ∷ "small" ∷ []) (("small", small_schema) ∷ [])

-- A directory in which a file cannot be read.
abbrev unreadable_files : Environment String
unreadable_files = record {
  exists = λ p. true;
  read_text = λ p. raise os_error;
  safe_load = some;
  is_dict = λ y. true;
  model_validate = λ y. ok small_schema;
  schema_path = none;
  yaml_files = none;
}

not_read : load unreadable_files "a.yaml" ≡ raise invalid_schema
unfolding load
not_read = refl

-- A reader of an empty file; polars' exception is one of the model's others.
abbrev is_api_error : Exception → Bool
is_api_error api_error = true
is_api_error _ = false

abbrev empty_reader : Reader World
empty_reader = record {
  exists = λ p w. true;
  read_csv = λ p n w. (raise api_error, w);
  read_excel = λ p sheet w. (raise api_error, w);
  head = λ n df. df;
  to_dicts = λ df. [];
  sheet_names = λ p w. (ok [], w);
  is_no_data = is_api_error;
  is_no_sheet = λ e. false;
}

empty_refused :
    (polars_ingestor empty_reader).get_headers "a.csv" none empty_world
    ≡ (raise invalid_cedent_data, empty_world)
unfolding polars_ingestor riskflow.Text.ends_with riskflow.Exec.throw
empty_refused = refl
