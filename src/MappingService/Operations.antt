-- ===== src/MappingService/Operations.antt =====
-- The methods of `MappingService` in domain/service/mapping_service.py.
use riskflow.Prelude.{
  not, List, [], ◌∷◌, ◌++◌, map, Option, none, some, String, keep, contains, ◌==◌, if◌then◌else◌,
}
use riskflow.Prelude.Dict.{Dict, keys, values}
use riskflow.Prelude.Sort.{sorted}
use riskflow.Correction.{Correction}
use riskflow.Errors.{
  invalid_correction, mapping_confidence_low, Result, ok, guard, ◌>>=◌ as bind, ◌>>◌ as then_do,
}
use riskflow.Exec.{Exec, pure, lift, ◌>>=◌, ◌>>◌}
use riskflow.Float.{Float, one_float, lt}
use riskflow.Json.{◌<>◌}
use riskflow.Ports.{Frame}
use riskflow.RecordFactory.{build_model}
use riskflow.Schema.{
  ColumnMapping, MappingResult, column_mapping, mapping_result, from_mapping_result,
}
use riskflow.TargetSchema.{TargetSchema, field_names, fingerprint}
use riskflow.Text.{codes, strip, join, ends_with}
use riskflow.Value.{Row}
use riskflow.MappingService.{
  ProcessingResult, Libraries, MappingService, Partition, rename_map, present_only, date_formats,
  convert_dates, validate_each,
}

-- `[ColumnMapping(source_header=h, target_field=t, confidence=1.0) for h, t in corrections.items()]`
unfoldable pub corrected_mappings : Dict String → Result (List ColumnMapping)
unfolding column_mapping
corrected_mappings [] = ok []
corrected_mappings ((h, t) ∷ cs) =
    bind (column_mapping h t one_float) λ m. bind (corrected_mappings cs) λ ms. ok (m ∷ ms)

-- `_validate_corrections`
unfoldable pub validate_corrections : List String → Dict String → Result (Unit {0})
validate_corrections valid [] = ok tt
validate_corrections valid ((h, t) ∷ cs) =
    then_do (guard (contains t valid) invalid_correction) (validate_corrections valid cs)

-- `_check_confidence`
unfoldable pub check_confidence : Float → List ColumnMapping → Result (Unit {0})
check_confidence threshold [] = ok tt
check_confidence threshold (m ∷ ms) =
    then_do (guard (not (lt m.confidence threshold)) mapping_confidence_low)
      (check_confidence threshold ms)

-- The uncorrected headers, and a row of the preview cut down to them.
unfoldable pub uncorrected : Dict String → List String → List String
uncorrected corrections headers = keep (λ h. not (contains h (keys corrections))) headers

unfoldable pub row_of : List String → Row → Row
row_of headers row = keep (λ e. contains e.0 headers) row

-- The result of the mapper without the targets of the corrections.
unfoldable pub filtered_slm : Dict String → List ColumnMapping → List ColumnMapping
filtered_slm corrections ms = keep (λ m. not (contains m.target_field (values corrections))) ms

-- `_build_cache_key`
abbrev pub normalized : (String → String) → List String → List String
normalized lower headers = map (λ h. strip (lower h)) headers

unfoldable pub build_cache_key : Libraries → TargetSchema → List String → String
build_cache_key lib schema headers =
    lib.sha256
      (fingerprint lib.blake2b schema <> ":" <> join "|" (sorted (normalized lib.lower headers)))

-- What `_validate_rows` does with the frame once it is renamed.
unfoldable pub rows_of : Libraries → TargetSchema → Frame → List Row → List Row
unfolding convert_dates date_formats
rows_of lib schema df rows =
    let formats = date_formats lib.show schema.fields df in
    map (λ row. convert_dates lib.dateutil formats row) rows

module _ {W : Type 0} (s : MappingService W) where
  unfoldable pub read_frame : String → Option String → Exec W Frame
  read_frame file sheet w =
      if ends_with (codes ".csv") (codes file)
      then s.polars.read_csv file w
      else s.polars.read_excel file sheet w

  unfoldable pub processing_result : MappingResult → Partition → Result ProcessingResult
  processing_result mapping p =
      bind (from_mapping_result mapping s.confidence_threshold (some (field_names s.schema)))
        λ report. ok (record {
          mapping = mapping;
          confidence_report = report;
          valid_records = p.valid;
          invalid_records = p.invalid;
          errors = p.errors;
        })

  -- `get_sheet_names`, `get_headers` and `get_preview`
  abbrev pub get_sheet_names : String → Exec W (List String)
  get_sheet_names file = s.ingestor.get_sheet_names file

  abbrev pub get_headers : String → Option String → Exec W (List String)
  get_headers file sheet = s.ingestor.get_headers file sheet

  abbrev pub get_preview : String → Option String → Exec W (List Row)
  get_preview file sheet = s.ingestor.get_preview file sheet

  -- `suggest_mapping`
  unfoldable pub suggest_mapping : List String → List Row → Exec W MappingResult
  suggest_mapping headers preview = s.mapper.map_headers headers preview

  -- `store_correction`
  unfoldable pub store_correction : Correction → Exec W (Unit {0})
  store_correction c =
      lift (guard (contains c.target_field (field_names s.schema)) invalid_correction)
      >> (elim s.correction_cache [ none ↦ pure tt | some cache ↦ cache.set_correction c ])

  -- The corrections of a cedent: of none, where its name is missing or empty.
  unfoldable pub get_corrections : Option String → List String → Exec W (Dict String)
  get_corrections none headers = pure []
  get_corrections (some cedent) headers = elim s.correction_cache [
    | none ↦ pure []
    | some cache ↦ if cedent == "" then pure [] else cache.get_corrections cedent headers
  ]

  -- The mapping of the headers that have no correction.
  unfoldable pub map_uncorrected :
      Dict String → List ColumnMapping → List String → List Row → Exec W MappingResult
  map_uncorrected corrections corrected [] preview = lift (mapping_result corrected [])
  map_uncorrected corrections corrected (h ∷ hs) preview =
      s.mapper.map_headers (h ∷ hs) (map (row_of (h ∷ hs)) preview) >>= λ slm. lift (
        then_do (check_confidence s.confidence_threshold slm.mappings) (
          mapping_result (corrected ++ filtered_slm corrections slm.mappings) slm.unmapped_headers))

  -- `_map_with_corrections`
  unfoldable pub map_with_corrections :
      List String → List Row → Option String → Exec W MappingResult
  unfolding get_corrections map_uncorrected
  map_with_corrections headers preview cedent = get_corrections cedent headers >>= λ corrections.
      lift (
        then_do (validate_corrections (field_names s.schema) corrections)
          (corrected_mappings corrections))
      >>= λ corrected.
          map_uncorrected corrections corrected (uncorrected corrections headers) preview

module _ {W : Type 0} (lib : Libraries) (s : MappingService W) where
  -- `_validate_rows` of the frame that is read.
  unfoldable pub validate_frame : MappingResult → Frame → Result ProcessingResult
  unfolding rows_of processing_result
  validate_frame mapping df =
      bind (s.polars.rename (present_only (keys df.columns) (rename_map mapping.mappings)) df)
        λ renamed.
          bind
            (validate_each lib (build_model s.schema) 0
              (rows_of lib s.schema renamed (s.polars.to_dicts renamed)))
            λ p. processing_result s mapping p

  -- `_validate_rows`, which `validate_rows_with_mapping` calls with what it is given.
  unfoldable pub validate_rows_with_mapping :
      String → Option String → MappingResult → Exec W ProcessingResult
  unfolding read_frame validate_frame present_only
  validate_rows_with_mapping file sheet mapping =
      read_frame s file sheet >>= λ df. lift (validate_frame mapping df)

  -- The mapping of a file with these headers: the cached one, or a new one that is cached then.
  unfoldable pub mapping_of : List String → List Row → Option String → Exec W MappingResult
  unfolding build_cache_key map_with_corrections
  mapping_of headers preview cedent =
      let key = build_cache_key lib s.schema headers in
      s.cache.get_mapping key >>= λ cached. elim cached [
        | some mapping ↦ pure mapping
        | none ↦ map_with_corrections s headers preview cedent >>= λ mapping.
            s.cache.set_mapping key mapping >> pure mapping
      ]

  -- `process_file`
  unfoldable pub process_file : String → Option String → Option String → Exec W ProcessingResult
  unfolding mapping_of validate_rows_with_mapping
  process_file file sheet cedent = s.ingestor.get_headers file sheet >>= λ headers.
      s.ingestor.get_preview file sheet >>= λ preview.
      mapping_of headers preview cedent >>= λ mapping. validate_rows_with_mapping file sheet mapping
