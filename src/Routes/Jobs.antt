-- ===== src/Routes/Jobs.antt =====
-- The handlers of adapters/http/routes.py for asynchronous uploads: `upload_file_async`, `list_jobs`
-- and `get_job_status`. The new id, the clock and the temporary file are the standard library's. The
-- task that is scheduled is returned; it runs as `process_job` of Jobs does, later.
pub mod Ends
pub mod Unserialised
use riskflow.Prelude.{ℕ, ◌≡◌, List, [], ◌∷◌, map, Option, none, some, String}
use riskflow.Errors.{Exception, Result, ok, raise}
use riskflow.Exec.{Exec}
use riskflow.Job.{Job, create, status_value}
use riskflow.Jobs.{JobStore}
use riskflow.Routes.{Reply, reply, failure, http, uncaught, plain, validate_file}

-- The arguments of `_process_job` that depend on the request.
pub record Task (T R : Type 0) : Type 0 where
  pub job : Job T R
  pub temp_path : String
  pub sheet_name : Option String

-- `JobSummary` and `JobStatusResponse`
pub record JobSummary : Type 0 where
  pub job_id : String
  pub filename : Option String
  pub created_at : String
  pub status : String

pub record JobStatusResponse (R : Type 0) : Type 0 where
  pub job_id : String
  pub status : String
  pub result : Option R
  pub error : Option String
  pub filename : Option String
  pub created_at : String

module _ {W T R : Type 0} (store : JobStore W T R) (isoformat : T → String) where
  -- The end of the handler: the task of a file that is saved is scheduled.
  abbrev pub scheduled :
      Job T R → Option String → Result String × W → Reply String × Option (Task T R) × W
  scheduled job sheet (raise e, w) = (failure (uncaught e), none, w)
  scheduled job sheet (ok path, w) =
      (reply job.id, some (record { job = job; temp_path = path; sheet_name = sheet }), w)

  abbrev pub once_saved :
      Exec W String
      → Job T R
      → Option String
      → Result (Unit {0}) × W
      → Reply String × Option (Task T R) × W
  once_saved save_temp_file job sheet (raise e, w) = (failure (uncaught e), none, w)
  once_saved save_temp_file job sheet (ok _, w) = scheduled job sheet (save_temp_file w)

  abbrev pub once_valid :
      Reply (Unit {0})
      → (W → Reply String × Option (Task T R) × W)
      → W
      → Reply String × Option (Task T R) × W
  once_valid (failure e) k w = (failure e, none, w)
  once_valid (reply _) k w = k w

  -- `upload_file_async`, by the extension and the size of the file; the reply is the job's id.
  unfoldable pub upload_file_async :
      Exec W String
      → String
      → T
      → Option String
      → String
      → ℕ
      → Option String
      → W
      → Reply String × Option (Task T R) × W
  unfolding create
  upload_file_async save_temp_file uuid now filename extension size sheet =
      let job = create uuid now filename in
      once_valid (validate_file extension size)
        (λ w. once_saved save_temp_file job sheet (store.save job w))

  unfoldable pub summary : Job T R → JobSummary
  summary j = record {
    job_id = j.id;
    filename = j.filename;
    created_at = isoformat j.created_at;
    status = status_value j.status;
  }

  abbrev pub summaries : Result (List (Job T R)) × W → Reply (List JobSummary) × W
  summaries (raise e, w) = (failure (uncaught e), w)
  summaries (ok jobs, w) = (reply (map summary jobs), w)

  -- `list_jobs`
  unfoldable pub list_jobs : W → Reply (List JobSummary) × W
  unfolding summary
  list_jobs w = summaries (store.list_all w)

  unfoldable pub status_response : Job T R → JobStatusResponse R
  status_response j = record {
    job_id = j.id;
    status = status_value j.status;
    result = j.result;
    error = j.error;
    filename = j.filename;
    created_at = isoformat j.created_at;
  }

  abbrev pub status_reply : Result (Option (Job T R)) × W → Reply (JobStatusResponse R) × W
  status_reply (raise e, w) = (failure (uncaught e), w)
  status_reply (ok none, w) = (failure (http 404 plain), w)
  status_reply (ok (some j), w) = (reply (status_response j), w)

  -- `get_job_status`
  unfoldable pub get_job_status : String → W → Reply (JobStatusResponse R) × W
  unfolding status_response
  get_job_status id w = status_reply (store.find id w)
