-- ===== src/Routes/Uploads/Answers.antt =====
-- How `upload_file` of adapters/http/routes.py answers an upload, by how the service ends.
use riskflow.Prelude.{ℕ, ◌≡◌, refl, Bool, true, false, Option, String, ltb, leb, eqb}
use riskflow.Errors.{
  Exception, value_error, type_error, attribute_error, key_error, os_error, file_not_found,
  runtime_error, connection_lost, rate_limited, api_error, invalid_model, validation_error,
  mapping_confidence_low, invalid_cedent_data, schema_validation, slm_unavailable, invalid_schema,
  invalid_correction, is_value_error, Result, ok, raise,
}
use riskflow.Exec.{Exec}
use riskflow.Jobs.{Files, IsRemoving, clean_up-removed}
use riskflow.MappingService.{MappingService, Libraries, ProcessingResult}
use riskflow.MappingService.Operations.{process_file}
use riskflow.Routes.{
  Reply, reply, failure, ErrorCode, http, Router, ◌>>◌ as then_do, validate_file, resolve_service,
  upload_failure,
}
use riskflow.Routes.Uploads.{answer, upload_file}

-- What a client can do about: the contents of its file, or of its request.
abbrev pub is_client_fault : Exception → Bool
is_client_fault mapping_confidence_low = true
is_client_fault invalid_cedent_data = true
is_client_fault schema_validation = true
is_client_fault invalid_correction = true
is_client_fault e = is_value_error e

abbrev pub is_unavailable : Exception → Bool
is_unavailable slm_unavailable = true
is_unavailable _ = false

-- A status for an exception: one of the client's, 400 to 499, for what the client can do about; 503
-- if the language model does not answer; another one of the server's for all else.
pub record IsStatusOf (e : Exception) (status : ℕ) : Type 0 where
  pub at_least : leb 400 status ≡ true
  pub at_most : ltb status 600 ≡ true
  pub of_client : ltb status 500 ≡ is_client_fault e
  pub of_model : eqb status 503 ≡ is_unavailable e

-- The reply that an outcome of the service is to have: its result, or a status, whatever it raises.
abbrev pub Answers : Result ProcessingResult → Reply ProcessingResult → Type 0
Answers (ok p) a = a ≡ reply p
Answers (raise e) a =
    (status : ℕ) × (code : ErrorCode) × (a ≡ failure (http status code)) × IsStatusOf e status

status_of :
    (e : Exception)
    → (status : ℕ) × (code : ErrorCode) × (upload_failure e ≡ http status code)
      × IsStatusOf e status
unfolding upload_failure
status_of (value_error x) =
    (_, _, refl, record { at_least = refl; at_most = refl; of_client = refl; of_model = refl })
status_of type_error =
    (_, _, refl, record { at_least = refl; at_most = refl; of_client = refl; of_model = refl })
status_of attribute_error =
    (_, _, refl, record { at_least = refl; at_most = refl; of_client = refl; of_model = refl })
status_of key_error =
    (_, _, refl, record { at_least = refl; at_most = refl; of_client = refl; of_model = refl })
status_of os_error =
    (_, _, refl, record { at_least = refl; at_most = refl; of_client = refl; of_model = refl })
status_of file_not_found =
    (_, _, refl, record { at_least = refl; at_most = refl; of_client = refl; of_model = refl })
status_of runtime_error =
    (_, _, refl, record { at_least = refl; at_most = refl; of_client = refl; of_model = refl })
status_of connection_lost =
    (_, _, refl, record { at_least = refl; at_most = refl; of_client = refl; of_model = refl })
status_of rate_limited =
    (_, _, refl, record { at_least = refl; at_most = refl; of_client = refl; of_model = refl })
status_of api_error =
    (_, _, refl, record { at_least = refl; at_most = refl; of_client = refl; of_model = refl })
status_of (invalid_model x) =
    (_, _, refl, record { at_least = refl; at_most = refl; of_client = refl; of_model = refl })
status_of (validation_error x) =
    (_, _, refl, record { at_least = refl; at_most = refl; of_client = refl; of_model = refl })
status_of mapping_confidence_low =
    (_, _, refl, record { at_least = refl; at_most = refl; of_client = refl; of_model = refl })
status_of invalid_cedent_data =
    (_, _, refl, record { at_least = refl; at_most = refl; of_client = refl; of_model = refl })
status_of schema_validation =
    (_, _, refl, record { at_least = refl; at_most = refl; of_client = refl; of_model = refl })
status_of slm_unavailable =
    (_, _, refl, record { at_least = refl; at_most = refl; of_client = refl; of_model = refl })
status_of invalid_schema =
    (_, _, refl, record { at_least = refl; at_most = refl; of_client = refl; of_model = refl })
status_of invalid_correction =
    (_, _, refl, record { at_least = refl; at_most = refl; of_client = refl; of_model = refl })

answer-Answers : (r : Result ProcessingResult) → Answers r (answer r)
answer-Answers (ok p) = refl
answer-Answers (raise e) =
    let (status, code, same, right) = status_of e in (status, code, rw same refl, right)

module _ {W : Type 0} (lib : Libraries) (files : Files W) (save_temp_file : Exec W String) where
  -- Where files can be removed: an upload that passes its checks and whose file is saved is answered,
  -- however the service ends, and its temporary file is gone afterwards. The answer is the result if
  -- the service returns one. For any exception it is an HTTP status: from 400 to 499 exactly for a
  -- mapping of low confidence, cedent data or a correction that is refused, a schema that the mapping
  -- does not meet, or a value error; and 503 exactly if the language model is not available.
  pub upload_file-answer :
      IsRemoving files
      → (router : Router W (MappingService W)) (extension : String) (size : ℕ)
        (sheet cedent schema : Option String)
      → (s : MappingService W) (w v v' : W) (path : String) (r : Result ProcessingResult)
      → then_do (validate_file extension size) (resolve_service schema router) ≡ reply s
      → save_temp_file w ≡ (ok path, v)
      → process_file lib s path sheet cedent v ≡ (r, v')
      → (a : Reply ProcessingResult) × (u : W) × (upload_file lib files save_temp_file router
            extension size sheet cedent schema w
          ≡ (a, u))
        × Answers r a
        × (files.exists path u ≡ false)
  unfolding upload_file
  upload_file-answer removing router extension size sheet cedent schema s w v v' path r resolved
        saved processed =
      let (u, cleaned, gone) = clean_up-removed files removing path v' in
      (answer r, u, rw resolved (rw saved (rw processed (rw cleaned refl))), answer-Answers r, gone)
