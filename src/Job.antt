-- ===== src/Job.antt =====
-- domain/model/job.py: the life of an asynchronous upload. `R` is what `result` holds. The clock
-- and the ISO form of its times are the standard library's, given as a record.
pub mod States
pub mod Dump
use riskflow.Prelude.{
  ◌≡◌, Bool, true, false, List, [], ◌∷◌, Option, none, some, String, ◌==◌, if◌then◌else◌,
  Option-cases,
}
use riskflow.Prelude.Dict.{Dict, get}
use riskflow.Errors.{
  value_error, key_error, job_not_pending, job_not_processing, bad_enum_value, Result, ok, raise,
  ◌>>=◌, ◌>>◌, guard,
}

pub data JobStatus : Type 0 where
  pending processing complete failed : JobStatus

pub record Job (T R : Type 0) : Type 0 where
  pub id : String
  pub status : JobStatus
  pub filename : Option String
  pub created_at : T
  pub result : Option R
  pub error : Option String

abbrev pub is_pending : JobStatus → Bool
is_pending pending = true
is_pending _ = false

abbrev pub is_processing : JobStatus → Bool
is_processing processing = true
is_processing _ = false

module _ {T R : Type 0} where
  -- `Job.create`: the id is `uuid4`, the time `now`.
  unfoldable pub create : String → T → Option String → Job T R
  create uuid now filename = record {
    id = uuid;
    status = pending;
    filename = filename;
    created_at = now;
    result = none;
    error = none;
  }

  -- A method that raises leaves the object as it was; else the new object is returned.
  unfoldable pub start : Job T R → Result (Job T R)
  start j = do
    guard (is_pending j.status) (value_error job_not_pending)
    ok (record j { status = processing })

  unfoldable pub finish : R → Job T R → Result (Job T R)
  finish r j = do
    guard (is_processing j.status) (value_error job_not_processing)
    ok (record j { status = complete; result = some r })

  unfoldable pub fail : String → Job T R → Result (Job T R)
  fail e j = do
    guard (is_processing j.status) (value_error job_not_processing)
    ok (record j { status = failed; error = some e })

-- `datetime.isoformat` and `datetime.fromisoformat`.
pub record IsoTime (T : Type 0) : Type 0 where
  pub isoformat : T → String
  pub fromisoformat : String → Option T
  pub round_trip : (t : T) → fromisoformat (isoformat t) ≡ some t

-- The values of the dict that `to_dict` builds.
pub data Field (R : Type 0) : Type 0 where
  null : Field R
  text : String → Field R
  payload : R → Field R

abbrev pub status_value : JobStatus → String
status_value pending = "pending"
status_value processing = "processing"
status_value complete = "complete"
status_value failed = "failed"

-- `JobStatus(text)`
unfoldable pub job_status : String → Result JobStatus
job_status s =
    if s == "pending"
    then ok pending
    else if s == "processing"
    then ok processing
    else if s == "complete"
    then ok complete
    else if s == "failed"
    then ok failed
    else raise (value_error bad_enum_value)

-- `show` is `str` of a result.
module _ {T R : Type 0} (iso : IsoTime T) (show : R → String) where
  text_field : Option String → Field R
  text_field none = null
  text_field (some s) = text s

  result_field : Option R → Field R
  result_field none = null
  result_field (some r) = payload r

  unfoldable pub to_dict : Job T R → Dict (Field R)
  unfolding text_field result_field
  to_dict j =
      ("id", text j.id)
      ∷ ("status", text (status_value j.status))
      ∷ ("filename", text_field j.filename)
      ∷ ("created_at", text (iso.isoformat j.created_at))
      ∷ ("result", result_field j.result)
      ∷ ("error", text_field j.error)
      ∷ []

  -- `str(value)`
  str : Field R → String
  str null = "None"
  str (text s) = s
  str (payload r) = show r

  -- `data[key]`
  item : String → Dict (Field R) → Result (Field R)
  item k d = elim (get k d) [ none ↦ raise key_error | some v ↦ ok v ]

  -- `str(data[key]) if data.get(key) is not None else None`
  optional_text : Option (Field R) → Option String
  unfolding str
  optional_text none = none
  optional_text (some null) = none
  optional_text (some v) = some (str v)

  -- `data.get("result")` is stored unchecked; here it is a result or nothing.
  stored_result : Option (Field R) → Option R
  stored_result (some (payload r)) = some r
  stored_result _ = none

  parse_time : String → Result T
  parse_time s = elim (iso.fromisoformat s) [
    | none ↦ raise (value_error bad_enum_value)
    | some t ↦ ok t
  ]

  unfoldable pub from_dict : Dict (Field R) → Result (Job T R)
  unfolding item str optional_text stored_result parse_time get
  from_dict d = do
    id ← item "id" d
    status ← item "status" d
    state ← job_status (str status)
    created ← item "created_at" d
    time ← parse_time (str created)
    ok (record {
      id = str id;
      status = state;
      filename = optional_text (get "filename" d);
      created_at = time;
      result = stored_result (get "result" d);
      error = optional_text (get "error" d);
    })
