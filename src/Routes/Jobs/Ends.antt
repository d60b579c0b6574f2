-- ===== src/Routes/Jobs/Ends.antt =====
-- What becomes of an asynchronous upload.
use riskflow.Prelude.{ℕ, ◌≡◌, refl, sym, ap, ◌∙◌, Option, none, some, String}
use riskflow.Errors.{Exception, Result, ok, raise}
use riskflow.Exec.{Exec}
use riskflow.Job.{Job, pending}
use riskflow.Jobs.{Files, JobStore, process_job, clean_up}
use riskflow.Jobs.Ends.{IsWorking, ended, started, process_job-runs}
use riskflow.MappingService.{MappingService, Libraries, ProcessingResult}
use riskflow.MappingService.Operations.{process_file}
use riskflow.Routes.{reply, failure, uncaught, validate_file}
use riskflow.Routes.Jobs.{upload_file_async, get_job_status, status_response}

-- A job store that answers: what is saved is found, also once a file has been removed.
pub record IsJobStore {W T R : Type 0} (files : Files W) (store : JobStore W T R) : Type 0 where
  pub found : W → String → Option (Job T R)
  pub finds : (id : String) (w : W) → store.find id w ≡ (ok (found w id), w)
  pub found-save : (j : Job T R) (w w' : W) → store.save j w ≡ (ok tt, w') → found w' j.id ≡ some j
  pub found-clean_up :
      (path : String) (w w' : W) → clean_up files path w ≡ (ok tt, w') → found w' ≡ found w

ended-id :
    {T R : Type 0} (dump : ProcessingResult → R) (show : Exception → String) (j : Job T R)
    (r : Result ProcessingResult)
    → (ended dump show j r).id ≡ j.id
ended-id dump show j (ok r) = refl
ended-id dump show j (raise e) = refl

module _ {W T R : Type 0} (lib : Libraries) (s : MappingService W) (files : Files W)
    (store : JobStore W T R) (dump : ProcessingResult → R) (show : Exception → String)
    (isoformat : T → String) where
  abbrev pub new_job : String → T → Option String → Job T R
  new_job uuid now filename = record {
    id = uuid;
    status = pending;
    filename = filename;
    created_at = now;
    result = none;
    error = none;
  }

  -- Where the job store and the file system work: an asynchronous upload that passes its checks and
  -- whose file is saved is answered with the id of its job and schedules its task; once the task has
  -- run, in whatever world, it has returned, and `GET /jobs/{id}` answers with the job as the
  -- service has ended it, where the service was run on the saved file and the sheet of the request
  -- after the job was stored as processing: complete with its result if it returns, or failed with
  -- the text of its exception if it raises.
  pub upload_file_async-ended :
      IsWorking files store
      → IsJobStore files store
      → (save_temp_file : Exec W String) (uuid : String) (now : T) (filename : Option String)
        (extension : String) (size : ℕ) (sheet : Option String) (w v u : W) (path : String)
      → validate_file extension size ≡ reply tt
      → store.save (new_job uuid now filename) w ≡ (ok tt, v)
      → save_temp_file v ≡ (ok path, u)
      → (upload_file_async store isoformat save_temp_file uuid now filename extension size sheet w
          ≡ (
            reply uuid,
            some (record { job = new_job uuid now filename; temp_path = path; sheet_name = sheet }),
            u,
          ))
        × ((x : W)
            → (a b y : W) × (r : Result ProcessingResult) × (store.save
                  (started (new_job uuid now filename))
                  x
                ≡ (ok tt, a))
              × (process_file lib s path sheet none a ≡ (r, b))
              × (process_job lib s files store dump show (new_job uuid now filename) path sheet x
                  ≡ (ok (ended dump show (started (new_job uuid now filename)) r), y))
              × (get_job_status store isoformat uuid y ≡ (
                reply (
                    status_response store isoformat
                      (ended dump show (started (new_job uuid now filename)) r)),
                y,
              )))
  unfolding upload_file_async get_job_status
  upload_file_async-ended working answers save_temp_file uuid now filename extension size sheet w v
        u path valid saved written =
      (
        rw valid (rw saved (rw written refl)),
        λ x.
            let job = new_job uuid now filename in
            let (a, v', c, y, r, saved, processed, stored, done, cleaned) =
              process_job-runs lib s files store dump show working job path sheet x refl in
            let held : answers.found y uuid ≡ some (ended dump show (started job) r) =
              ap (λ (f : String → Option (Job T R)). f uuid)
                (answers.found-clean_up path c y cleaned)
              ∙ ap (answers.found c) (sym (ended-id dump show (started job) r))
              ∙ answers.found-save (ended dump show (started job) r) v' c stored in
            (a, v', y, r, saved, processed, done, rw (answers.finds uuid y) (rw held refl)),
      )

  -- The job is saved before the file is written: if that fails, the upload fails with the exception
  -- and no task is scheduled, but the job stays stored as pending.
  pub upload_file_async-orphan :
      IsJobStore files store
      → (save_temp_file : Exec W String) (uuid : String) (now : T) (filename : Option String)
        (extension : String) (size : ℕ) (sheet : Option String) (w v : W) (e : Exception)
      → validate_file extension size ≡ reply tt
      → store.save (new_job uuid now filename) w ≡ (ok tt, v)
      → save_temp_file v ≡ (raise e, v)
      → (upload_file_async store isoformat save_temp_file uuid now filename extension size sheet w
          ≡ (failure (uncaught e), none, v))
        × (get_job_status store isoformat uuid v
            ≡ (reply (status_response store isoformat (new_job uuid now filename)), v))
  unfolding upload_file_async get_job_status
  upload_file_async-orphan answers save_temp_file uuid now filename extension size sheet w v e valid
        saved lost =
      (
        rw valid (rw saved (rw lost refl)),
        rw (answers.finds uuid v)
            (rw (answers.found-save (new_job uuid now filename) w v saved) refl),
      )
