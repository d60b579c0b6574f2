-- ===== src/Job/Dump.antt =====
-- A job survives `to_dict` and `from_dict`.
use riskflow.Prelude.{◌≡◌, refl, String, arith}
use riskflow.Errors.{ok}
use riskflow.Job.{
  Job, JobStatus, pending, processing, complete, failed, IsoTime, status_value, job_status, to_dict,
  from_dict,
}

job_status-status_value : (s : JobStatus) → job_status (status_value s) ≡ ok s
unfolding job_status
job_status-status_value pending = refl
job_status-status_value processing = refl
job_status-status_value complete = refl
job_status-status_value failed = refl

-- Reading back the dict of a job gives the job, in every status.
pub from_dict-to_dict :
    {T R : Type 0} (iso : IsoTime T) (show : R → String) (j : Job T R)
    → from_dict iso show (to_dict iso show j) ≡ ok j
unfolding from_dict to_dict
from_dict-to_dict iso show j =
    ground (arith, iso.round_trip j.created_at, job_status-status_value j.status)
