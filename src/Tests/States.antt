-- ===== src/Tests/States.antt =====
-- The theorems about jobs and sessions at concrete inputs.
use riskflow.Prelude.{◌≡◌, ◌↔◌, refl, true, List, [], ◌∷◌, none, some, String, AllDistinct}
use riskflow.Errors.{ok}
use riskflow.Schema.{mapping_result, targets}
use riskflow.Job.{Job, IsoTime, JobStatus, create, to_dict, from_dict}
use riskflow.Job.Dump.{from_dict-to_dict}
use riskflow.Job.States as JobStates
use riskflow.Job.States.{
  Call, IsConsistent, run-create-IsConsistent, perform_iff, Succeeds, Enabled,
}
use riskflow.Session.{
  MappingSession, SessionStatus, is_created, update_mappings, extend_target_fields,
}
use riskflow.Session.Targets.{AllKnown, update_mappings_iff}
use riskflow.Session.States as SessionStates
use riskflow.Session.States.{Edit, IsValid, run-mapping_result, run_finalised}
use riskflow.Tests.{currency_mapping}

abbrev text_time : IsoTime String
text_time = record { isoformat = λ t. t; fromisoformat = some; round_trip = λ t. refl }

abbrev new_job : Job String String
new_job = record {
  id = "1";
  status = JobStatus.pending;
  filename = some "a.csv";
  created_at = "2024";
  result = none;
  error = none;
}

from_dict-to_dict_example :
    from_dict text_time (λ r. r) (to_dict text_time (λ r. r) new_job) ≡ ok new_job
from_dict-to_dict_example = from_dict-to_dict text_time (λ r. r) new_job

-- A job that is started, completed, and then asked to fail.
abbrev calls : List (Call String)
calls = Call.start_call ∷ Call.finish_call "done" ∷ Call.fail_call "late" ∷ []

run-create-IsConsistent_example :
    IsConsistent {T = String}
      (JobStates.run calls (create {T = String} {R = String} "1" "2024" none))
run-create-IsConsistent_example = run-create-IsConsistent calls "1" "2024" none

abbrev open_session : MappingSession String
open_session = record {
  id = "s";
  status = SessionStatus.created;
  schema_name = "small";
  file_path = "a.csv";
  sheet_name = none;
  source_headers = "Ccy" ∷ [];
  target_fields = "Currency" ∷ [];
  mappings = currency_mapping ∷ [];
  unmapped_headers = [];
  preview_rows = [];
  result = none;
}

extended :
    extend_target_fields ("Broker" ∷ "Currency" ∷ []) open_session
    ≡ ok (record open_session { target_fields = "Currency" ∷ "Broker" ∷ [] })
unfolding extend_target_fields riskflow.Text.is_blank
extended = refl

update_mappings_iff_example :
    (update_mappings (currency_mapping ∷ []) [] open_session
      ≡ ok (record open_session { mappings = currency_mapping ∷ []; unmapped_headers = [] }))
    ↔ ((is_created SessionStatus.created ≡ true)
        × AllKnown ("Currency" ∷ []) (currency_mapping ∷ [])
        × AllDistinct (targets (currency_mapping ∷ [])))
update_mappings_iff_example = update_mappings_iff (currency_mapping ∷ []) [] open_session

-- A session that is edited, finalised, and edited again.
abbrev edits : List (Edit String)
edits = Edit.update (currency_mapping ∷ []) [] ∷ Edit.close "r" ∷ Edit.extend ("Broker" ∷ []) ∷ []

open-IsValid : IsValid open_session
open-IsValid = record { outcome = tt; apart = (refl, tt) }

run-mapping_result_example :
    IsValid (SessionStates.run edits open_session)
    × (mapping_result
          (SessionStates.run edits open_session).mappings
          (SessionStates.run edits open_session).unmapped_headers
        ≡ ok (record {
          mappings = (SessionStates.run edits open_session).mappings;
          unmapped_headers = (SessionStates.run edits open_session).unmapped_headers;
        }))
run-mapping_result_example = run-mapping_result edits open_session open-IsValid
