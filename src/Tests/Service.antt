-- ===== src/Tests/Service.antt =====
-- The theorems about domain/service at concrete inputs.
use mathlib.Core.List.Perm
use riskflow.Prelude.{◌≡◌, ◌↔◌, refl, true, false, [], ◌∷◌, none, some, String, arith, All, eq_iff}
use riskflow.Prelude.Dict.{Dict, get, put}
use riskflow.Correction.{Correction}
use riskflow.Errors.{Result, ok}
use riskflow.Float.{one_float, six_tenths, lt}
use riskflow.Ports.{Frame}
use riskflow.RecordFactory.{build_model, model_validate}
use riskflow.Schema.{MappingResult}
use riskflow.Storage.{redis_correction_cache}
use riskflow.Storage.Keeping.{redis_correction_cache-IsRemembering}
use riskflow.MappingService.{
  MappingService, ProcessingResult, Partition, is_caught, validate_each, rename_map, present_only,
}
use riskflow.MappingService.Operations.{
  validate_frame, map_with_corrections, get_corrections, store_correction, mapping_of,
  build_cache_key,
}
use riskflow.MappingService.Rows.{IsResultOf, validate_frame-IsResultOf, validate_each_iff}
use riskflow.MappingService.Mapping.{
  IsMergedFrom, Known, Certain, map_with_corrections-IsMergedFrom,
  store_correction-map_with_corrections,
}
use riskflow.MappingService.Process.{mapping_of-again}
use riskflow.Tests.{
  World, empty_world, plain_libraries, memory_service, memory_redis, small_frame, small_schema,
  currency_result, currency_mapping, usd_row, memory-IsKeeping, memory-IsAnswering, set_field,
}

-- A file whose one row is valid.
abbrev pub processed : ProcessingResult
processed = record {
  mapping = currency_result;
  confidence_report =
      riskflow.Schema.report_of (currency_mapping ∷ []) six_tenths ("Currency" ∷ []);
  valid_records = usd_row ∷ [];
  invalid_records = [];
  errors = [];
}

validated : validate_frame plain_libraries memory_service currency_result small_frame ≡ ok processed
unfolding validate_frame get validate_each model_validate build_model
    riskflow.Schema.from_mapping_result
validated = refl

validate_frame-IsResultOf_example :
    (renamed : Frame) × (ok small_frame ≡ Result.ok renamed)
    × IsResultOf plain_libraries memory_service currency_result renamed processed
validate_frame-IsResultOf_example =
    validate_frame-IsResultOf plain_libraries memory_service currency_result small_frame processed
      validated

validate_each_iff_example :
    ((p : Partition) × (validate_each plain_libraries (build_model small_schema) 0 (usd_row ∷ [])
        ≡ ok p))
    ↔ All
        (λ row.
          is_caught (
            model_validate plain_libraries.pydantic plain_libraries.dateutil
              (build_model small_schema)
              row)
          ≡ true)
        (usd_row ∷ [])
validate_each_iff_example =
    validate_each_iff plain_libraries (build_model small_schema) 0 (usd_row ∷ [])

one_is_high : lt one_float six_tenths ≡ false
unfolding lt one_float six_tenths
one_is_high = refl

mapped :
    map_with_corrections memory_service ("Ccy" ∷ []) [] none empty_world
    ≡ (ok currency_result, empty_world)
unfolding map_with_corrections riskflow.Exec.pure riskflow.Exec.lift
    riskflow.MappingService.Operations.validate_corrections
    riskflow.MappingService.Operations.corrected_mappings
    riskflow.MappingService.Operations.uncorrected
    riskflow.MappingService.Operations.check_confidence lt one_float six_tenths
    riskflow.Schema.mapping_result riskflow.MappingService.Operations.filtered_slm
mapped = refl

map_with_corrections-IsMergedFrom_example :
    (cs : Dict String) × (v : World) × (get_corrections memory_service none ("Ccy" ∷ []) empty_world
      ≡ (ok cs, v))
    × Known ("Currency" ∷ []) cs
    × IsMergedFrom six_tenths cs currency_result
map_with_corrections-IsMergedFrom_example =
    map_with_corrections-IsMergedFrom memory_service ("Ccy" ∷ []) [] none empty_world empty_world
      currency_result one_is_high mapped

abbrev ccy_correction : Correction
ccy_correction = record { cedent_id = "ACME"; source_header = "Ccy"; target_field = "Currency" }

abbrev correcting_service : MappingService World
correcting_service = record memory_service {
  correction_cache = some (redis_correction_cache memory_redis);
}

abbrev corrected_world : World
corrected_world = record empty_world {
  hashes = set_field "corrections:ACME" "Ccy" "Currency" empty_world.hashes;
}

stored : store_correction correcting_service ccy_correction empty_world ≡ (ok tt, corrected_world)
unfolding store_correction riskflow.Exec.lift redis_correction_cache
stored = refl

applied :
    map_with_corrections correcting_service ("Ccy" ∷ []) [] (some "ACME") corrected_world
    ≡ (ok currency_result, corrected_world)
unfolding map_with_corrections redis_correction_cache get put riskflow.Exec.pure riskflow.Exec.lift
    riskflow.MappingService.Operations.validate_corrections
    riskflow.MappingService.Operations.corrected_mappings
    riskflow.MappingService.Operations.uncorrected
    riskflow.MappingService.Operations.check_confidence lt one_float six_tenths
    riskflow.Schema.mapping_result riskflow.MappingService.Operations.filtered_slm riskflow.Float.le
applied = refl

store_correction-map_with_corrections_example : Certain "Ccy" "Currency" (currency_mapping ∷ [])
store_correction-map_with_corrections_example =
    store_correction-map_with_corrections correcting_service (redis_correction_cache memory_redis)
      refl (redis_correction_cache-IsRemembering memory_redis memory-IsAnswering) ccy_correction
      ("Ccy" ∷ []) [] empty_world corrected_world corrected_world currency_result
      (λ e. ground (arith, eq_iff "ACME" "")) one_is_high refl stored applied

abbrev small_key : String
small_key = build_cache_key plain_libraries small_schema ("Ccy" ∷ [])

abbrev cached_world : World
cached_world = record empty_world { mappings = (small_key, currency_result) ∷ [] }

first_mapping :
    mapping_of plain_libraries memory_service ("Ccy" ∷ []) [] none empty_world
    ≡ (ok currency_result, cached_world)
unfolding mapping_of get put riskflow.Exec.pure riskflow.Exec.lift
    riskflow.MappingService.Operations.validate_corrections
    riskflow.MappingService.Operations.corrected_mappings
    riskflow.MappingService.Operations.uncorrected
    riskflow.MappingService.Operations.check_confidence lt one_float six_tenths
    riskflow.Schema.mapping_result riskflow.MappingService.Operations.filtered_slm
first_mapping = refl

mapping_of-again_example :
    (mapping_of plain_libraries memory_service
      ("Ccy" ∷ [])
      (usd_row ∷ [])
      (some "ACME")
      cached_world).0
    ≡ ok currency_result
mapping_of-again_example =
    mapping_of-again plain_libraries memory_service memory-IsKeeping (refl, tt) ("Ccy" ∷ [])
      ("Ccy" ∷ []) [] (usd_row ∷ []) none (some "ACME") empty_world cached_world currency_result
      (Perm.refl ("Ccy" ∷ [])) first_mapping
