-- ===== src/Routes/Jobs/Unserialised.antt =====
-- A job of adapters/http/routes.py whose result cannot be written as JSON, in the store for jobs of
-- adapters/storage/job_store.py.
use riskflow.Prelude.{ℕ, ◌≡◌, refl, sym, ap, ◌∙◌, false, List, Option, none, some, String, true}
use riskflow.Errors.{Exception, Result, ok, raise, is_connection_lost}
use riskflow.Exec.{Exec, lift}
use riskflow.Job.{Job, pending}
use riskflow.Jobs.{Files, JobStore, process_job}
use riskflow.Jobs.Ends.{ended, started, process_job-unsaved}
use riskflow.MappingService.{MappingService, Libraries, ProcessingResult}
use riskflow.MappingService.Operations.{process_file}
use riskflow.Routes.{reply}
use riskflow.Routes.Jobs.{get_job_status, status_response}
use riskflow.Storage.{Redis, Codec, job_key, save_job, get_job}
use riskflow.Storage.Keeping.{IsAnswering}

module _ {W T R : Type 0} (redis : Redis W) (codec : Codec (Job T R)) (ttl : ℕ)
    (list_all : Exec W (List (Job T R))) where
  -- `RedisJobStore` as the port of the task and of the handlers.
  abbrev pub redis_job_store : JobStore W T R
  redis_job_store = record {
    save = save_job redis codec ttl;
    find = get_job redis codec;
    list_all = list_all;
  }

  saved :
      (j : Job T R) (json : String) (w v : W)
      → codec.dump j ≡ ok json
      → redis.setex (job_key j.id) ttl json w ≡ (ok tt, v)
      → save_job redis codec ttl j w ≡ (ok tt, v)
  unfolding save_job
  saved j json w v dumps written = rw dumps (rw written refl)

  unsaved :
      (j : Job T R) (e : Exception) (w : W)
      → codec.dump j ≡ raise e
      → is_connection_lost e ≡ false
      → save_job redis codec ttl j w ≡ (raise e, w)
  unfolding save_job lift
  unsaved j e w dumps other = rw dumps (rw other refl)

  found :
      (answers : IsAnswering redis) (j : Job T R) (json : String) (w : W)
      → answers.value w (job_key j.id) ≡ some json
      → codec.load json ≡ ok j
      → get_job redis codec j.id w ≡ (ok (some j), w)
  unfolding get_job
  found answers j json w held loads =
      rw (answers.get_value (job_key j.id) w) (rw held (rw loads refl))

  module _ (lib : Libraries) (s : MappingService W) (files : Files W) (dump : ProcessingResult → R)
      (show : Exception → String) (isoformat : T → String) where
    -- With a Redis that answers: if the job as the service ends it cannot be written as JSON, though
    -- it could be when it started, the task raises that exception. Where the service leaves the value
    -- of the job's key and the uploaded file alone, `GET /jobs/{id}` still answers with the job as
    -- processing, and the file is still there.
    pub process_job-unserialised :
        (answers : IsAnswering redis) (job : Job T R) (path json : String) (sheet : Option String)
        (w v v' : W) (r : Result ProcessingResult) (e : Exception)
        → job.status ≡ pending
        → codec.dump (started job) ≡ ok json
        → codec.load json ≡ ok (started job)
        → redis.setex (job_key job.id) ttl json w ≡ (ok tt, v)
        → process_file lib s path sheet none v ≡ (r, v')
        → codec.dump (ended dump show (started job) r) ≡ raise e
        → is_connection_lost e ≡ false
        → answers.value v' (job_key job.id) ≡ answers.value v (job_key job.id)
        → files.exists path v' ≡ files.exists path w
        → files.exists path w ≡ true
        → (u : W) × (process_job lib s files redis_job_store dump show job path sheet w
            ≡ (raise e, u))
          × (get_job_status redis_job_store isoformat job.id u
              ≡ (reply (status_response redis_job_store isoformat (started job)), u))
          × (files.exists path u ≡ true)
    unfolding get_job_status
    process_job-unserialised answers job path json sheet w v v' r e h dumps loads written processed
          refused other kept same there =
        let (v2, set, held) = answers.value_setex (job_key job.id) ttl json w in
        let world : v2 ≡ v = ap (λ x. x.1) (sym set ∙ written) in
        let stored : answers.value v' (job_key job.id) ≡ some json =
          kept ∙ ap (λ x. answers.value x (job_key job.id)) (sym world) ∙ held in
        (
          v',
          process_job-unsaved lib s files redis_job_store dump show job path sheet w v v' v' r e h
              (saved (started job) json w v dumps written) processed
              (unsaved (ended dump show (started job) r) e v' refused other),
          rw (found answers (started job) json v' stored loads) refl,
          same ∙ there,
        )
