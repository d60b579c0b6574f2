-- ===== src/Jobs.antt =====
-- The background task of adapters/http/routes.py that processes an upload, and the port of the job
-- stores. The file system, `model_dump` of a result and `str` of
-- an exception are parameters.
pub mod Ends
use riskflow.Prelude.{
  ◌≡◌, Bool, true, false, not, List, [], ◌∷◌, Option, none, some, String, if◌then◌else◌, Bool-cases,
  refl, inl, inr,
}
use riskflow.Prelude.Dict.{Dict, get, put, values}
use riskflow.Errors.{Exception, Result, ok, raise}
use riskflow.Exec.{Exec, pure, lift, ◌>>=◌, ◌>>◌}
use riskflow.Job.{Job, start, finish, fail}
use riskflow.MappingService.{MappingService, Libraries, ProcessingResult}
use riskflow.MappingService.Operations.{process_file}

pub record Files (W : Type 0) : Type 0 where
  -- `os.path.exists` and `os.remove`
  pub exists : String → W → Bool
  pub remove : String → Exec W (Unit {0})

-- `JobStorePort`
pub record JobStore (W T R : Type 0) : Type 0 where
  pub save : Job T R → Exec W (Unit {0})
  pub find : String → Exec W (Option (Job T R))
  pub list_all : Exec W (List (Job T R))

-- `if os.path.exists(path): os.remove(path)`
unfoldable pub clean_up : {W : Type 0} → Files W → String → Exec W (Unit {0})
clean_up files path w = if files.exists path w then files.remove path w else (ok tt, w)

module _ {W : Type 0} (files : Files W) where
  -- A file that is removed is not there any more, and removing it does not fail.
  pub record IsRemoving : Type 0 where
    pub removed :
        (path : String) (w : W)
        → (w' : W) × (files.remove path w ≡ (ok tt, w')) × (files.exists path w' ≡ false)

  pub clean_up-removed :
      IsRemoving
      → (path : String) (w : W)
      → (w' : W) × (clean_up files path w ≡ (ok tt, w')) × (files.exists path w' ≡ false)
  unfolding clean_up
  clean_up-removed removing path w = elim (Bool-cases (files.exists path w)) [
    | inl there ↦ let (w', done, gone) = removing.removed path w in (w', rw there done, gone)
    | inr gone ↦ (w, rw gone refl, gone)
  ]

module _ {W T R : Type 0} (lib : Libraries) (s : MappingService W) (files : Files W)
    (store : JobStore W T R) (dump : ProcessingResult → R) (show : Exception → String) where
  -- The end of the `try`: the result is stored in the job, or the exception is.
  unfoldable pub completed : Job T R → Result ProcessingResult → Result (Job T R)
  completed j (raise e) = fail (show e) j
  completed j (ok r) = elim (finish (dump r) j) [ ok k ↦ ok k | raise e ↦ fail (show e) j ]

  -- `try: … finally: …` of the task, over the started job.
  unfoldable pub run_started : Job T R → String → Option String → Exec W (Job T R)
  unfolding completed clean_up
  run_started j path sheet w =
      let (r, v) = process_file lib s path sheet none w in
      (lift (completed j r) >>= λ k. store.save k >> clean_up files path >> pure k) v

  -- `_process_job`, with the job as it is left.
  unfoldable pub process_job : Job T R → String → Option String → Exec W (Job T R)
  unfolding run_started
  process_job job path sheet = lift (start job) >>= λ j. store.save j >> run_started j path sheet
