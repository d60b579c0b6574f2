-- ===== src/Session.antt =====
-- domain/model/session.py: the state of an interactive mapping workflow. `R` is what `result`
-- holds. A method that raises leaves the session as it was; else the new session is returned.
pub mod Targets
pub mod States
use riskflow.Prelude.{
  ℕ, Bool, true, false, not, ◌&&◌, ◌||◌, List, [], ◌∷◌, ◌++◌, Option, none, some, String, all,
  contains, if◌then◌else◌,
}
use riskflow.Errors.{
  value_error, unknown_target, duplicate_targets, session_finalised, no_fields, empty_field_name,
  Result, ok, raise, ◌>>=◌, ◌>>◌, guard,
}
use riskflow.Schema.{ColumnMapping, targets, dupes, is_empty}
use riskflow.Text.{is_blank}
use riskflow.Value.{Row}

pub data SessionStatus : Type 0 where
  created finalised : SessionStatus

abbrev pub is_created : SessionStatus → Bool
is_created created = true
is_created finalised = false

pub record MappingSession (R : Type 0) : Type 0 where
  pub id : String
  pub status : SessionStatus
  pub schema_name : String
  pub file_path : String
  pub sheet_name : Option String
  pub source_headers : List String
  pub target_fields : List String
  pub mappings : List ColumnMapping
  pub unmapped_headers : List String
  pub preview_rows : List Row
  pub result : Option R

-- The loop over the edited mappings.
all_targets_known : List String → List ColumnMapping → Bool
all_targets_known valid [] = true
all_targets_known valid (m ∷ ms) = contains m.target_field valid && all_targets_known valid ms

-- The loop that appends the fields that are not there yet. `existing` holds the members of the
-- list, so the list itself is looked up.
append_new : List String → List String → List String
append_new existing [] = existing
append_new existing (f ∷ fs) =
    append_new (if contains f existing then existing else existing ++ f ∷ []) fs

module _ {R : Type 0} where
  -- `MappingSession.create`: the id is `uuid4`.
  unfoldable pub create :
      String
      → String
      → String
      → Option String
      → List String
      → List String
      → List ColumnMapping
      → List String
      → List Row
      → MappingSession R
  create uuid schema_name file_path sheet_name source_headers target_fields mappings unmapped
        preview =
      record {
        id = uuid;
        status = created;
        schema_name = schema_name;
        file_path = file_path;
        sheet_name = sheet_name;
        source_headers = source_headers;
        target_fields = target_fields;
        mappings = mappings;
        unmapped_headers = unmapped;
        preview_rows = preview;
        result = none;
      }

  unfoldable pub update_mappings :
      List ColumnMapping → List String → MappingSession R → Result (MappingSession R)
  unfolding all_targets_known dupes
  update_mappings ms unmapped s = do
    guard (is_created s.status) (value_error session_finalised)
    guard (all_targets_known s.target_fields ms) (value_error unknown_target)
    guard (is_empty (dupes (targets ms))) (value_error duplicate_targets)
    ok (record s { mappings = ms; unmapped_headers = unmapped })

  -- `not f or not f.strip()` is that the name is blank.
  unfoldable pub extend_target_fields : List String → MappingSession R → Result (MappingSession R)
  unfolding append_new
  extend_target_fields fields s = do
    guard (is_created s.status) (value_error session_finalised)
    guard (not (is_empty fields)) (value_error no_fields)
    guard (all (λ f. not (is_blank f)) fields) (value_error empty_field_name)
    ok (record s { target_fields = append_new s.target_fields fields })

  unfoldable pub finalise : R → MappingSession R → Result (MappingSession R)
  finalise r s = do
    guard (is_created s.status) (value_error session_finalised)
    ok (record s { status = finalised; result = some r })
