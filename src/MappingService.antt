-- ===== src/MappingService.antt =====
-- domain/service/mapping_service.py. Logging and timing are left out. `str.lower`, SHA-256 and
-- blake2b of the standard library, `str` of a cell, pydantic and dateutil are parameters.
pub mod Operations
pub mod Rows
pub mod Dates
pub mod Mapping
pub mod Process
pub mod CacheKey
use riskflow.Prelude.{
  ℕ, suc, ◌+◌, Bool, true, false, not, ◌&&◌, ◌||◌, List, [], ◌∷◌, ◌++◌, map, Option, none, some,
  String, keep, take, contains, is_some, if◌then◌else◌,
}
use riskflow.Prelude.Dict.{Dict, keys, values, get, put}
use riskflow.Prelude.Sort.{sorted}
use riskflow.Correction.{Correction}
use riskflow.DateFormat.{Format, detect_date_format, parse_date}
use riskflow.Errors.{
  Exception, FaultKind, validation_error, is_value_error, invalid_correction,
  mapping_confidence_low, Result, ok, raise, guard, ◌>>=◌ as bind, ◌>>◌ as then_do,
}
use riskflow.Exec.{Exec, pure, lift, throw, ◌>>=◌, ◌>>◌}
use riskflow.Float.{Float, one_float, lt}
use riskflow.Json.{◌<>◌}
use riskflow.Ports.{Frame, IngestorPort, CachePort, CorrectionCachePort, MapperPort, Polars}
use riskflow.RecordFactory.{Pydantic, RecordModel, build_model, model_validate}
use riskflow.Schema.{
  ColumnMapping, MappingResult, column_mapping, mapping_result, ConfidenceReport,
  from_mapping_result, FieldError, RowError, is_empty,
}
use riskflow.TargetSchema.{FieldDefinition, TargetSchema, field_names, fingerprint, is_date}
use riskflow.Text.{codes, is_blank, strip, join, ends_with}
use riskflow.Value.{Date, Value, Row}

pub record ProcessingResult : Type 0 where
  pub mapping : MappingResult
  pub confidence_report : ConfidenceReport
  pub valid_records : List Row
  pub invalid_records : List Row
  pub errors : List RowError

-- The library code that the service calls.
pub record Libraries : Type 0 where
  pub pydantic : Pydantic
  pub dateutil : List ℕ → Option Date
  pub lower : String → String
  pub sha256 : String → String
  pub blake2b : String → String
  -- `str` of a cell that is no text, and of a row
  pub show : Value → String
  pub show_row : Row → String

-- `MappingService`, by what its constructor is given.
pub record MappingService (W : Type 0) : Type 0 where
  pub ingestor : IngestorPort W
  pub mapper : MapperPort W
  pub cache : CachePort W
  pub confidence_threshold : Float
  pub schema : TargetSchema
  pub correction_cache : Option (CorrectionCachePort W)
  pub polars : Polars W

-- `{m.source_header: m.target_field for m in mappings}`: a later mapping of a header wins.
fill : Dict String → List ColumnMapping → Dict String
fill d [] = d
fill d (m ∷ ms) = fill (put m.source_header m.target_field d) ms

unfoldable pub rename_map : List ColumnMapping → Dict String
unfolding fill put
rename_map ms = fill [] ms

-- `{k: v for k, v in rename_map.items() if k in df.columns}`
unfoldable pub present_only : List String → Dict String → Dict String
present_only columns d = keep (λ e. contains e.0 columns) d

-- `str(v)`
str_value : (Value → String) → Value → String
str_value show (Value.text s) = s
str_value show v = show v

-- `[str(v) for v in sample if v is not None]`
samples : (Value → String) → List Value → List String
unfolding str_value
samples show [] = []
samples show (Value.null ∷ vs) = samples show vs
samples show (v ∷ vs) = str_value show v ∷ samples show vs

-- The format of each date field of the schema that is a column, from its first five cells.
unfoldable pub date_formats : (Value → String) → Dict FieldDefinition → Frame → Dict (Option Format)
unfolding samples
date_formats show [] df = []
date_formats show ((n, d) ∷ ds) df =
    let rest = date_formats show ds df in
    if is_date d.type
    then elim (get n df.columns) [
      | none ↦ rest
      | some cells ↦ (n, detect_date_format (samples show (take 5 cells))) ∷ rest
    ]
    else rest

module _ (dateutil : List ℕ → Option Date) where
  -- A cell that does not parse is left to the record model.
  pub convert_cell : String → Option Format → Option Value → Row → Row
  convert_cell n fmt (some (Value.text s)) row =
      if is_blank s
      then row
      else elim (parse_date dateutil s fmt) [ ok d ↦ put n (Value.date d) row | raise _ ↦ row ]
  convert_cell n fmt _ row = row

  unfoldable pub convert_dates : Dict (Option Format) → Row → Row
  unfolding convert_cell
  convert_dates [] row = row
  convert_dates ((n, fmt) ∷ fs) row = convert_dates fs (convert_cell n fmt (get n row) row)

-- The three lists that `_validate_rows` fills.
pub record Partition : Type 0 where
  pub valid : List Row
  pub invalid : List Row
  pub errors : List RowError

-- `except (ValidationError, ValueError)` catches the exception, if there is one.
abbrev pub is_caught : Result Row → Bool
is_caught (ok r) = true
is_caught (raise e) = is_value_error e

module _ (lib : Libraries) where
  -- `str(err["input"])`: the cell of the field, or the row where the field has none.
  input_of : Row → String → Option String
  unfolding str_value
  input_of row f = elim (get f row) [
    | none ↦ some (lib.show_row row)
    | some Value.null ↦ none
    | some v ↦ some (str_value lib.show v)
  ]

  unfoldable pub field_errors : Row → List (String × FaultKind) → List FieldError
  unfolding input_of
  field_errors row [] = []
  field_errors row ((f, k) ∷ fs) =
      record { field = f; message = k; value = input_of row f } ∷ field_errors row fs

  abbrev pub errors_of : Row → Exception → List FieldError
  errors_of row (validation_error faults) = field_errors row faults
  errors_of row _ = []

  abbrev pub add_row : ℕ → Row → Result Row → Partition → Partition
  add_row i row (ok r) p = record p { valid = r ∷ p.valid }
  add_row i row (raise e) p = record p {
    invalid = row ∷ p.invalid;
    errors = record { row = i; error = e; field_errors = errors_of row e } ∷ p.errors;
  }

  -- The loop over the rows, from index `i`: an exception that is no `ValueError` ends it.
  unfoldable pub validate_each : RecordModel → ℕ → List Row → Result Partition
  unfolding field_errors
  validate_each model i [] = ok (record { valid = []; invalid = []; errors = [] })
  validate_each model i (row ∷ rows) =
      let rest = validate_each model (suc i) rows in
      let outcome = model_validate lib.pydantic lib.dateutil model row in
      if is_caught outcome
      then bind rest (λ p. ok (add_row (suc i) row outcome p))
      else bind outcome (λ _. rest)
