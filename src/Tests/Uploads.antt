-- ===== src/Tests/Uploads.antt =====
-- The theorems about uploads, their jobs and corrections at concrete inputs.
use riskflow.Prelude.{
  ◌≡◌, refl, Bool, true, false, List, [], ◌∷◌, Option, none, some, String, arith, ◌==◌, eq_refl,
  if◌then◌else◌,
}
use riskflow.Prelude.Dict.{get, put}
use riskflow.Correction.{Correction}
use riskflow.Errors.{Exception, Result, ok, raise, type_error, slm_unavailable}
use riskflow.Exec.{Exec}
use riskflow.Job.{Job, JobStatus}
use riskflow.Jobs.{Files, JobStore, IsRemoving, process_job}
use riskflow.Jobs.Ends.{started}
use riskflow.MappingService.{MappingService, ProcessingResult, validate_each}
use riskflow.MappingService.Operations.{process_file, mapping_of}
use riskflow.RecordFactory.{build_model, model_validate}
use riskflow.Routes.{
  Reply, reply, failure, http, correction_refused, Router, validate_file, resolve_service,
  ◌>>◌ as then_do,
}
use riskflow.Routes.Jobs.{get_job_status, status_response}
use riskflow.Routes.Jobs.Unserialised.{redis_job_store, process_job-unserialised}
use riskflow.Routes.Sessions.{SessionStore}
use riskflow.Routes.Sessions.Create.{suggest}
use riskflow.Routes.Uploads.{upload_file, submit_corrections}
use riskflow.Routes.Uploads.Answers.{Answers, upload_file-answer}
use riskflow.Routes.Uploads.Corrections.{IsAccepting, submit_corrections-partial}
use riskflow.Storage.{Codec, redis_correction_cache}
use riskflow.Storage.Keeping.{redis_correction_cache-IsRemembering}
use riskflow.Tests.Service.{processed}
use riskflow.Text.{is_blank}
use riskflow.Tests.{
  World, empty_world, plain_libraries, memory_service, memory_ingestor, memory_redis,
  memory-IsAnswering, set_field, set_value, small_schema, stateless_service,
}

-- Files of the world: the keys of `values`.
abbrev there : Option String → Bool
there none = false
there (some s) = true

abbrev without : String → (String → Option String) → String → Option String
without k values j = if k == j then none else values j

abbrev memory_files : Files World
memory_files = record {
  exists = λ p w. there (w.values p);
  remove = λ p w. (ok tt, record w { values = without p w.values });
}

memory-IsRemoving : IsRemoving memory_files
memory-IsRemoving = record { removed = λ p w. (_, refl, ground (arith, eq_refl p)) }

abbrev broken_service : MappingService World
broken_service = record memory_service {
  ingestor = record memory_ingestor { get_headers = λ f sheet w. (raise slm_unavailable, w) };
}

-- The temporary file of the tests.
abbrev with_file : World
with_file = record empty_world { values = λ k. some "content" }

abbrev save_temp : Exec World String
save_temp w = (ok "a.csv", with_file)

abbrev broken_router : Router World (MappingService World)
broken_router = record {
  default = broken_service;
  registry = [];
  definitions = ("small", small_schema) ∷ [];
  builtins = "small" ∷ [];
  world = empty_world;
}

resolved :
    then_do (validate_file ".csv" 10) (resolve_service none broken_router) ≡ reply broken_service
unfolding validate_file resolve_service
resolved = refl

not_processed_file :
    process_file plain_libraries broken_service "a.csv" none none with_file
    ≡ (raise slm_unavailable, with_file)
unfolding process_file
not_processed_file = refl

upload_file-answer_example :
    (a : Reply ProcessingResult) × (u : World) × (upload_file plain_libraries memory_files save_temp
        broken_router ".csv" 10 none none none empty_world
      ≡ (a, u))
    × Answers (raise slm_unavailable) a
    × (memory_files.exists "a.csv" u ≡ false)
upload_file-answer_example =
    upload_file-answer plain_libraries memory_files save_temp memory-IsRemoving broken_router ".csv"
      10 none none none broken_service empty_world with_file with_file "a.csv"
      (raise slm_unavailable) resolved refl not_processed_file

abbrev correcting_service : MappingService World
correcting_service = record memory_service {
  correction_cache = some (redis_correction_cache memory_redis);
}

memory-IsAccepting : IsAccepting correcting_service (redis_correction_cache memory_redis)
unfolding redis_correction_cache
memory-IsAccepting = record { accepts = λ c w. (_, refl) }

-- The world after a known field, and then an unknown one.
abbrev corrected_world : World
corrected_world = record empty_world {
  hashes = set_field "corrections:ACME" "Ccy" "Currency" empty_world.hashes;
}

abbrev items : List (String × String)
items = ("Ccy", "Currency") ∷ ("X", "X") ∷ []

asked :
    (redis_correction_cache memory_redis).get_corrections "ACME"
      ("Ccy" ∷ [])
      (submit_corrections correcting_service "ACME" items empty_world).1
    ≡ (ok (("Ccy", "Currency") ∷ []), corrected_world)
unfolding submit_corrections riskflow.Correction.correction is_blank redis_correction_cache put
    riskflow.MappingService.Operations.store_correction riskflow.Exec.lift riskflow.Exec.pure
asked = refl

acme_not_blank : is_blank "ACME" ≡ false
unfolding is_blank
acme_not_blank = refl

x_not_blank : is_blank "X" ≡ false
unfolding is_blank
x_not_blank = refl

storable : (is_blank "Ccy" ≡ false) × (is_blank "Currency" ≡ false) × (true ≡ true)
unfolding is_blank
storable = (refl, refl, refl)

submit_corrections-partial_example :
    ((submit_corrections correcting_service "ACME" items empty_world).0
      ≡ failure (http 422 correction_refused))
    × (get {V = String} "Ccy" (("Ccy", "Currency") ∷ []) ≡ some "Currency")
submit_corrections-partial_example =
    submit_corrections-partial correcting_service (redis_correction_cache memory_redis) refl
      (redis_correction_cache-IsRemembering memory_redis memory-IsAnswering) memory-IsAccepting
      "ACME" "Ccy" "Currency" "X" "X" [] [] empty_world corrected_world ("Ccy" ∷ [])
      (("Ccy", "Currency") ∷ []) acme_not_blank tt storable x_not_blank x_not_blank refl refl asked

-- A job whose result is not JSON.
abbrev new_job : Job String String
new_job = record {
  id = "1";
  status = JobStatus.pending;
  filename = none;
  created_at = "2024";
  result = none;
  error = none;
}

abbrev dump_result : Option String → Result String
dump_result none = ok "{}"
dump_result (some r) = raise type_error

abbrev dates_refused : Codec (Job String String)
dates_refused = record { dump = λ j. dump_result j.result; load = λ s. ok (started new_job) }

abbrev no_jobs : Exec World (List (Job String String))
no_jobs w = (ok [], w)

abbrev jobs : JobStore World String String
jobs = redis_job_store memory_redis dates_refused 60 no_jobs

abbrev dump : ProcessingResult → String
dump r = "{}"

abbrev show : Exception → String
show e = "error"

abbrev same_text : String → String
same_text s = s

abbrev started_world : World
started_world = record with_file { values = set_value "riskflow:job:1" "{}" with_file.values }

-- A service that caches nothing, for files with one column.
abbrev one_column : MappingService World
one_column = record stateless_service {
  ingestor = record memory_ingestor { get_headers = λ f sheet w. (ok ("Ccy" ∷ []), w) };
}

processed_file :
    process_file plain_libraries one_column "a.csv" none none started_world
    ≡ (ok processed, started_world)
unfolding process_file get put validate_each model_validate build_model riskflow.Exec.pure
    riskflow.Exec.lift riskflow.MappingService.Operations.validate_corrections
    riskflow.MappingService.Operations.corrected_mappings
    riskflow.MappingService.Operations.uncorrected
    riskflow.MappingService.Operations.check_confidence riskflow.Float.lt riskflow.Float.one_float
    riskflow.Float.six_tenths riskflow.Schema.mapping_result riskflow.Schema.from_mapping_result
    riskflow.MappingService.Operations.filtered_slm riskflow.Text.ends_with
processed_file = refl

process_job-unserialised_example :
    (u : World) × (process_job plain_libraries one_column memory_files jobs dump show new_job
        "a.csv" none with_file
      ≡ (raise type_error, u))
    × (get_job_status jobs same_text "1" u
        ≡ (reply (status_response jobs same_text (started new_job)), u))
    × (memory_files.exists "a.csv" u ≡ true)
process_job-unserialised_example =
    process_job-unserialised memory_redis dates_refused 60 no_jobs plain_libraries one_column
      memory_files dump show same_text memory-IsAnswering new_job "a.csv" "{}" none with_file
      started_world started_world (ok processed) type_error refl refl refl refl processed_file refl
      refl refl refl refl

abbrev no_sessions : SessionStore World String
no_sessions = record {
  save = λ s w. (ok tt, w);
  find = λ id w. (ok none, w);
  delete = λ id w. (ok tt, w);
}

not_suggested :
    suggest memory_files no_sessions "s" save_temp broken_service broken_router "small" none "a.csv"
      with_file
    ≡ (raise slm_unavailable, with_file)
unfolding suggest
not_suggested = refl
