-- ===== src/Tests/Async.antt =====
-- The theorems about asynchronous uploads at concrete inputs.
use riskflow.Prelude.{
  ◌≡◌, refl, sym, ap, [], ◌∷◌, Option, none, some, String, false, arith, eq_refl,
}
use riskflow.Prelude.Dict.{Dict, get, put, get-put}
use riskflow.Errors.{Exception, Result, ok, raise, os_error}
use riskflow.Exec.{Exec}
use riskflow.Job.{Job, JobStatus}
use riskflow.Jobs.{Files, JobStore, process_job, clean_up}
use riskflow.Jobs.Ends.{IsWorking, started, ended}
use riskflow.MappingService.{ProcessingResult}
use riskflow.MappingService.Operations.{process_file}
use riskflow.Routes.{reply, failure, uncaught, validate_file}
use riskflow.Routes.Jobs.{upload_file_async, get_job_status, status_response}
use riskflow.Routes.Jobs.Ends.{IsJobStore, upload_file_async-ended, upload_file_async-orphan}
use riskflow.Tests.{plain_libraries, stateless_service}

abbrev Jobs : Type 0
Jobs = Dict (Job String String)

abbrev no_files : Files Jobs
no_files = record { exists = λ p w. false; remove = λ p w. (ok tt, w) }

abbrev memory_jobs : JobStore Jobs String String
memory_jobs = record {
  save = λ j w. (ok tt, put j.id j w);
  find = λ id w. (ok (get id w), w);
  list_all = λ w. (ok [], w);
}

memory-IsWorking : IsWorking no_files memory_jobs
memory-IsWorking = record { saves = λ j w. (put j.id j w, refl); removes = λ p w. (w, refl) }

found_put : (j : Job String String) (w w' : Jobs) → put j.id j w ≡ w' → get j.id w' ≡ some j
found_put j w w' e = rw (sym e) (ground (arith, get-put j.id j.id j w, eq_refl j.id))

memory-IsJobStore : IsJobStore no_files memory_jobs
unfolding clean_up
memory-IsJobStore = record {
  found = λ w id. get id w;
  finds = λ id w. refl;
  found-save = λ j w w' e. found_put j w w' (ap (λ t. t.1) e);
  found-clean_up = λ p w w' e.
      ap {B = String → Option (Job String String)} (λ (v : Jobs) (id : String). get id v)
        (sym (ap (λ t. t.1) e));
}

abbrev dump : ProcessingResult → String
dump r = "{}"

abbrev show : Exception → String
show e = "error"

abbrev same_text : String → String
same_text s = s

abbrev the_job : Job String String
the_job = record {
  id = "1";
  status = JobStatus.pending;
  filename = some "a.csv";
  created_at = "2024";
  result = none;
  error = none;
}

abbrev saved_file : Exec Jobs String
saved_file w = (ok "/tmp/a.csv", w)

abbrev no_space : Exec Jobs String
no_space w = (raise os_error, w)

accepted : validate_file ".csv" 10 ≡ reply tt
unfolding validate_file
accepted = refl

stored : memory_jobs.save the_job [] ≡ (ok tt, ("1", the_job) ∷ [])
unfolding put
stored = refl

upload_file_async-ended_example :
    (upload_file_async memory_jobs same_text saved_file "1" "2024" (some "a.csv") ".csv" 10 none []
      ≡ (
        reply "1",
        some (record { job = the_job; temp_path = "/tmp/a.csv"; sheet_name = none }),
        ("1", the_job) ∷ [],
      ))
    × ((x : Jobs)
        → (a b y : Jobs) × (r : Result ProcessingResult) × (memory_jobs.save (started the_job) x
            ≡ (ok tt, a))
          × (process_file plain_libraries stateless_service "/tmp/a.csv" none none a ≡ (r, b))
          × (process_job plain_libraries stateless_service no_files memory_jobs dump show the_job
                "/tmp/a.csv" none x
              ≡ (ok (ended dump show (started the_job) r), y))
          × (get_job_status memory_jobs same_text "1" y ≡ (
            reply (status_response memory_jobs same_text (ended dump show (started the_job) r)),
            y,
          )))
upload_file_async-ended_example =
    upload_file_async-ended plain_libraries stateless_service no_files memory_jobs dump show
      same_text memory-IsWorking memory-IsJobStore saved_file "1" "2024" (some "a.csv") ".csv" 10
      none [] (("1", the_job) ∷ []) (("1", the_job) ∷ []) "/tmp/a.csv" accepted stored refl

upload_file_async-orphan_example :
    (upload_file_async memory_jobs same_text no_space "1" "2024" (some "a.csv") ".csv" 10 none []
      ≡ (failure (uncaught os_error), none, ("1", the_job) ∷ []))
    × (get_job_status memory_jobs same_text "1" (("1", the_job) ∷ [])
        ≡ (reply (status_response memory_jobs same_text the_job), ("1", the_job) ∷ []))
upload_file_async-orphan_example =
    upload_file_async-orphan plain_libraries stateless_service no_files memory_jobs dump show
      same_text memory-IsJobStore no_space "1" "2024" (some "a.csv") ".csv" 10 none []
      (("1", the_job) ∷ []) os_error accepted stored refl
