-- ===== src/Schema.antt =====
-- domain/model/schema.py: the mapping of headers to fields, and the report on its quality.
-- Constructing a pydantic model runs its validators, so a constructor call is a function that
-- may raise. `sorted(set)` is the sorted list without repetitions.
pub mod Distinct
pub mod Report
use riskflow.Prelude.{
  ℕ, Bool, true, false, not, ◌&&◌, List, [], ◌∷◌, map, Option, none, some, String, ltb, keep, count,
  contains, length, if◌then◌else◌,
}
use riskflow.Prelude.Sort.{sorted, distinct}
use riskflow.Errors.{
  Exception, invalid_model, value_error, confidence_range, duplicate_targets, unknown_target,
  valid_fields_required, FaultKind, Result, ok, raise, ◌>>=◌, ◌>>◌, guard,
}
use riskflow.Float.{Float, zero_float, one_float, six_tenths, lt, le, sum, divide, min_from}

pub record ColumnMapping : Type 0 where
  pub source_header : String
  pub target_field : String
  pub confidence : Float

unfoldable pub confidence_in_range : Float → Bool
confidence_in_range v = le zero_float v && le v one_float

-- `ColumnMapping(source_header=…, target_field=…, confidence=…)`
unfoldable pub column_mapping : String → String → Float → Result ColumnMapping
unfolding confidence_in_range
column_mapping source target v = do
  guard (confidence_in_range v) (invalid_model confidence_range)
  ok (record { source_header = source; target_field = target; confidence = v })

pub record MappingResult : Type 0 where
  pub mappings : List ColumnMapping
  pub unmapped_headers : List String

abbrev pub targets : List ColumnMapping → List String
targets [] = []
targets (m ∷ ms) = m.target_field ∷ targets ms

-- `[t for t in targets if targets.count(t) > 1]`
unfoldable pub dupes : List String → List String
dupes ts = keep (λ t. ltb 1 (count t ts)) ts

abbrev pub is_empty {ℓ} : {A : Type ℓ} → List A → Bool
is_empty [] = true
is_empty (_ ∷ _) = false

-- `MappingResult(mappings=…, unmapped_headers=…)`, with its validator.
unfoldable pub mapping_result : List ColumnMapping → List String → Result MappingResult
unfolding dupes
mapping_result mappings unmapped = do
  guard (is_empty (dupes (targets mappings))) (invalid_model duplicate_targets)
  ok (record { mappings = mappings; unmapped_headers = unmapped })

-- The loop of `validate_against_schema`.
check_targets : List String → List ColumnMapping → Result (Unit {0})
check_targets valid [] = ok tt
check_targets valid (m ∷ ms) = do
  guard (contains m.target_field valid) (value_error unknown_target)
  check_targets valid ms

unfoldable pub validate_against_schema : MappingResult → List String → Result (Unit {0})
unfolding check_targets
validate_against_schema r valid = check_targets valid r.mappings

-- DEFAULT_CONFIDENCE_REVIEW_THRESHOLD
unfoldable pub default_review_threshold : Float
unfolding six_tenths
default_review_threshold = six_tenths

pub record ConfidenceReport : Type 0 where
  pub min_confidence : Float
  pub avg_confidence : Float
  pub low_confidence_fields : List ColumnMapping
  pub missing_fields : List String

-- `sorted(fields - mapped)`
unfoldable pub missing : List String → List String → List String
missing fields mapped = sorted (distinct (keep (λ f. not (contains f mapped)) fields))

abbrev pub confidences : List ColumnMapping → List Float
confidences [] = []
confidences (m ∷ ms) = m.confidence ∷ confidences ms

unfoldable pub report_of : List ColumnMapping → Float → List String → ConfidenceReport
report_of [] threshold fields = record {
  min_confidence = zero_float;
  avg_confidence = zero_float;
  low_confidence_fields = [];
  missing_fields = sorted (distinct fields);
}
report_of (m ∷ ms) threshold fields = record {
  min_confidence = min_from m.confidence (confidences ms);
  avg_confidence = divide (sum (confidences (m ∷ ms))) (length (m ∷ ms));
  low_confidence_fields = keep (λ c. lt c.confidence threshold) (m ∷ ms);
  missing_fields = missing fields (targets (m ∷ ms));
}

-- `valid_fields=None` raises.
unfoldable pub from_mapping_result :
    MappingResult → Float → Option (List String) → Result ConfidenceReport
unfolding report_of missing
from_mapping_result r threshold none = raise (value_error valid_fields_required)
from_mapping_result r threshold (some fields) = ok (report_of r.mappings threshold fields)

pub record FieldError : Type 0 where
  pub field : String
  pub message : FaultKind
  pub value : Option String

pub record RowError : Type 0 where
  pub row : ℕ
  pub error : Exception
  pub field_errors : List FieldError
