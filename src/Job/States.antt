-- ===== src/Job/States.antt =====
-- The state machine of a job.
use riskflow.Prelude.{◌≡◌, ◌↔◌, refl, ◌⊎◌, List, [], ◌∷◌, Option, none, some, String, arith}
use riskflow.Errors.{Result, ok, raise}
use riskflow.Job.{
  Job, JobStatus, pending, processing, complete, failed, create, start, finish, fail,
}

-- What the three methods may be called with.
pub data Call (R : Type 0) : Type 0 where
  start_call : Call R
  finish_call : R → Call R
  fail_call : String → Call R

-- Which of the result and the error are set, by the status.
abbrev Outcome {ℓ} : {R : Type ℓ} → JobStatus → Option R → Option String → Type 0
Outcome pending none none = Unit
Outcome processing none none = Unit
Outcome complete (some _) none = Unit
Outcome failed none (some _) = Unit
Outcome _ _ _ = ⊥

-- The status that a call starts from.
abbrev pub Enabled : {R : Type 0} → Call R → JobStatus → Type 0
Enabled start_call s = s ≡ pending
Enabled (finish_call _) s = s ≡ processing
Enabled (fail_call _) s = s ≡ processing

abbrev pub status_after : {R : Type 0} → Call R → JobStatus
status_after start_call = processing
status_after (finish_call _) = complete
status_after (fail_call _) = failed

module _ {T R : Type 0} where
  unfoldable pub perform : Call R → Job T R → Result (Job T R)
  unfolding start finish fail
  perform start_call j = start j
  perform (finish_call r) j = finish r j
  perform (fail_call e) j = fail e j

  -- A client that catches the exceptions: a refused call leaves the job as it is.
  pub attempt : Call R → Job T R → Job T R
  attempt c j = elim (perform c j) [ ok j' ↦ j' | raise _ ↦ j ]

  unfoldable pub run : List (Call R) → Job T R → Job T R
  unfolding attempt
  run [] j = j
  run (c ∷ cs) j = run cs (attempt c j)

  -- A result is there exactly when the job is complete, an error exactly when it failed.
  abbrev pub IsConsistent : Job T R → Type 0
  IsConsistent j = Outcome j.status j.result j.error

  attempt-IsConsistent : (c : Call R) (j : Job T R) → IsConsistent j → IsConsistent (attempt c j)
  unfolding attempt perform
  attempt-IsConsistent start_call j h = ground arith
  attempt-IsConsistent (finish_call r) j h = ground arith
  attempt-IsConsistent (fail_call e) j h = ground arith

  run-IsConsistent : (cs : List (Call R)) (j : Job T R) → IsConsistent j → IsConsistent (run cs j)
  unfolding run
  run-IsConsistent [] j h = h
  run-IsConsistent (c ∷ cs) j h = run-IsConsistent cs (attempt c j) (attempt-IsConsistent c j h)

  -- Whatever calls are made on a created job, its result is set exactly when it is complete, and
  -- its error exactly when it has failed.
  pub run-create-IsConsistent :
      (cs : List (Call R)) (uuid : String) (now : T) (filename : Option String)
      → IsConsistent (run cs (create {R = R} uuid now filename))
  unfolding create
  run-create-IsConsistent cs uuid now filename = run-IsConsistent cs _ tt

  abbrev pub IsOver : Job T R → Type 0
  IsOver j = (j.status ≡ complete) ⊎ (j.status ≡ failed)

  attempt_over : (c : Call R) (j : Job T R) → IsOver j → attempt c j ≡ j
  unfolding attempt perform
  attempt_over start_call j h = ground arith
  attempt_over (finish_call r) j h = ground arith
  attempt_over (fail_call e) j h = ground arith

  -- A job that is complete or has failed is never changed again.
  pub run_over : (cs : List (Call R)) (j : Job T R) → IsOver j → run cs j ≡ j
  unfolding run
  run_over [] j h = refl
  run_over (c ∷ cs) j h = rw (attempt_over c j h) (run_over cs j h)

  abbrev pub Succeeds : Result (Job T R) → JobStatus → Type 0
  Succeeds (ok j) s = j.status ≡ s
  Succeeds (raise _) s = ⊥

  -- A call succeeds, and leads to the status that it is named for, exactly in the status that it
  -- starts from: `start` of a pending job, `complete` and `fail` of one that is being processed.
  pub perform_iff :
      (c : Call R) (j : Job T R) → Succeeds (perform c j) (status_after c) ↔ Enabled c j.status
  unfolding perform
  perform_iff start_call j = ground arith
  perform_iff (finish_call r) j = ground arith
  perform_iff (fail_call e) j = ground arith
