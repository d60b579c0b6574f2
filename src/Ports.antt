-- ===== src/Ports.antt =====
-- ports/input/ingestor.py, ports/output/{repo,correction_cache,mapper}.py: what the service needs of
-- its adapters. `W` is the world that they act on. A data frame is polars', by what is used of it.
use riskflow.Prelude.{List, Option, String}
use riskflow.Prelude.Dict.{Dict}
use riskflow.Correction.{Correction}
use riskflow.Errors.{Result}
use riskflow.Exec.{Exec}
use riskflow.Schema.{MappingResult}
use riskflow.Value.{Value, Row}

-- The columns of a frame and their cells, in their order.
pub record Frame : Type 0 where
  pub columns : Dict (List Value)

pub record IngestorPort (W : Type 0) : Type 0 where
  pub get_headers : String → Option String → Exec W (List String)
  pub get_preview : String → Option String → Exec W (List Row)
  pub get_sheet_names : String → Exec W (List String)

pub record CachePort (W : Type 0) : Type 0 where
  pub get_mapping : String → Exec W (Option MappingResult)
  pub set_mapping : String → MappingResult → Exec W (Unit {0})

pub record CorrectionCachePort (W : Type 0) : Type 0 where
  pub get_corrections : String → List String → Exec W (Dict String)
  pub set_correction : Correction → Exec W (Unit {0})

pub record MapperPort (W : Type 0) : Type 0 where
  pub map_headers : List String → List Row → Exec W MappingResult

-- polars: `read_csv`, `read_excel`, `DataFrame.rename` and `DataFrame.to_dicts`.
pub record Polars (W : Type 0) : Type 0 where
  pub read_csv : String → Exec W Frame
  pub read_excel : String → Option String → Exec W Frame
  pub rename : Dict String → Frame → Result Frame
  pub to_dicts : Frame → List Row
