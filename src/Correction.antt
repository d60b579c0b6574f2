-- ===== src/Correction.antt =====
-- domain/model/correction.py: a human-verified mapping of one cedent's header to a field.
use riskflow.Prelude.{not, String}
use riskflow.Text.{is_blank}
use riskflow.Errors.{
  invalid_model, empty_cedent_id, empty_source_header, empty_target_field, Result, ok, ◌>>◌, guard,
}

pub record Correction : Type 0 where
  pub cedent_id : String
  pub source_header : String
  pub target_field : String

-- `Correction(…)` with its three validators. pydantic collects all the failures; the model keeps
-- the first.
unfoldable pub correction : String → String → String → Result Correction
correction cedent header target = do
  guard (not (is_blank cedent)) (invalid_model empty_cedent_id)
  guard (not (is_blank header)) (invalid_model empty_source_header)
  guard (not (is_blank target)) (invalid_model empty_target_field)
  ok (record { cedent_id = cedent; source_header = header; target_field = target })
