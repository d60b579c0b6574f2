-- ===== src/Jobs/Ends.antt =====
-- How the background task of adapters/http/routes.py ends.
use riskflow.Prelude.{◌≡◌, refl, Option, none, some, String, arith, Bool-cases, inl, inr}
use riskflow.Errors.{Exception, Result, ok, raise}
use riskflow.Exec.{lift, pure}
use riskflow.Job.{Job, pending, processing, complete, failed, start, finish, fail}
use riskflow.MappingService.{MappingService, Libraries, ProcessingResult}
use riskflow.MappingService.Operations.{process_file}
use riskflow.Jobs.{Files, JobStore, completed, clean_up, run_started, process_job}

-- The job as the outcome of the service leaves it.
abbrev pub ended :
    {T R : Type 0}
    → (ProcessingResult → R)
    → (Exception → String)
    → Job T R
    → Result ProcessingResult
    → Job T R
ended dump show j (ok r) = record j { status = complete; result = some (dump r) }
ended dump show j (raise e) = record j { status = failed; error = some (show e) }

abbrev pub started : {T R : Type 0} → Job T R → Job T R
started j = record j { status = processing }

-- A store and a file system of which every call returns.
pub record IsWorking {W T R : Type 0} (files : Files W) (store : JobStore W T R) : Type 0 where
  pub saves : (j : Job T R) (w : W) → (w' : W) × (store.save j w ≡ (ok tt, w'))
  pub removes : (path : String) (w : W) → (w' : W) × (files.remove path w ≡ (ok tt, w'))

module _ {W T R : Type 0} (lib : Libraries) (s : MappingService W) (files : Files W)
    (store : JobStore W T R) (dump : ProcessingResult → R) (show : Exception → String) where
  completed-ended :
      (j : Job T R) (r : Result ProcessingResult)
      → j.status ≡ processing
      → completed lib s files store dump show j r ≡ ok (ended dump show j r)
  unfolding completed finish fail
  completed-ended j (ok r) h = ground arith
  completed-ended j (raise e) h = ground arith

  start-started : (j : Job T R) → j.status ≡ pending → start j ≡ ok (started j)
  unfolding start
  start-started j h = ground arith

  clean_up-returns :
      IsWorking files store
      → (path : String) (w : W) → (w' : W) × (clean_up files path w ≡ (ok tt, w'))
  unfolding clean_up
  clean_up-returns working path w = elim (Bool-cases (files.exists path w)) [
    | inl there ↦ let (w', done) = working.removes path w in (w', rw there done)
    | inr gone ↦ (w, rw gone refl)
  ]

  -- The run of the task of a pending job, call by call, where the job store and the file system
  -- work.
  pub process_job-runs :
      IsWorking files store
      → (job : Job T R) (path : String) (sheet : Option String) (w : W) → job.status ≡ pending
      → (v v' u w' : W) × (r : Result ProcessingResult) × (store.save (started job) w ≡ (ok tt, v))
        × (process_file lib s path sheet none v ≡ (r, v'))
        × (store.save (ended dump show (started job) r) v' ≡ (ok tt, u))
        × (process_job lib s files store dump show job path sheet w
            ≡ (ok (ended dump show (started job) r), w'))
        × (clean_up files path u ≡ (ok tt, w'))
  unfolding process_job run_started pure lift
  process_job-runs working job path sheet w h =
      let (v, saved) = working.saves (started job) w in
      let (r, v') = process_file lib s path sheet none v in
      let (u, stored) = working.saves (ended dump show (started job) r) v' in
      let (w', cleaned) = clean_up-returns working path u in
      (
        v,
        v',
        u,
        w',
        r,
        saved,
        refl,
        stored,
        rw (start-started job h)
            (rw saved (rw (completed-ended (started job) r refl) (rw stored (rw cleaned refl)))),
        cleaned,
      )

  -- If a pending job is saved when it starts but cannot be saved after the work, the task raises the
  -- exception of that call and does nothing more: the file is not removed.
  pub process_job-unsaved :
      (job : Job T R) (path : String) (sheet : Option String) (w v v' u : W)
      (r : Result ProcessingResult) (e : Exception)
      → job.status ≡ pending
      → store.save (started job) w ≡ (ok tt, v)
      → process_file lib s path sheet none v ≡ (r, v')
      → store.save (ended dump show (started job) r) v' ≡ (raise e, u)
      → process_job lib s files store dump show job path sheet w ≡ (raise e, u)
  unfolding process_job run_started pure lift
  process_job-unsaved job path sheet w v v' u r e h saved processed lost =
      rw (start-started job h)
        (rw saved (rw processed (rw (completed-ended (started job) r refl) (rw lost refl))))
