-- ===== src/Tests.antt =====
-- Concrete data for the tests: stand-ins for the libraries, a small schema, and a world in memory.
pub mod Domain
pub mod States
pub mod Service
pub mod Adapters
pub mod Routes
pub mod Uploads
pub mod Finalised
pub mod Gui
pub mod Stores
pub mod Async
pub mod Tools
pub mod Startup
use riskflow.Prelude.{
  ℕ, ◌≡◌, refl, ap, arith, sym, ◌∙◌, Bool, true, false, ◌&&◌, List, [], ◌∷◌, map, Option, none,
  some, String, ◌==◌, eq_refl, if◌then◌else◌,
}
use riskflow.Prelude.Dict.{Dict, get, put, get-put}
use riskflow.Errors.{Exception, Result, ok, raise}
use riskflow.Exec.{Exec}
use riskflow.Float.{Float, one_float, six_tenths}
use riskflow.Ports.{Frame, IngestorPort, CachePort, CorrectionCachePort, MapperPort, Polars}
use riskflow.RecordFactory.{Pydantic}
use riskflow.Schema.{ColumnMapping, MappingResult}
use riskflow.TargetSchema.{TargetSchema}
use riskflow.TargetSchema.Default.{default_target_schema}
use riskflow.Value.{Date, Value, Row}
use riskflow.MappingService.{Libraries, MappingService}
use riskflow.MappingService.Process.{IsKeeping}
use riskflow.Storage.{Redis}
use riskflow.Storage.Keeping.{IsAnswering}

abbrev pub text_of : Value → Option String
text_of (Value.text s) = some s
text_of _ = none

abbrev pub float_of : Value → Option Float
float_of (Value.real x) = some x
float_of _ = none

abbrev pub date_of : Value → Option Date
date_of (Value.date d) = some d
date_of _ = none

abbrev pub strict_pydantic : Pydantic
strict_pydantic = record {
  to_text = text_of;
  to_float = float_of;
  to_date = date_of;
  to_text_text = λ s. refl;
  to_float_real = λ x. refl;
  to_date_date = λ d. refl;
}

abbrev pub no_dateutil : List ℕ → Option Date
no_dateutil s = none

abbrev pub plain_libraries : Libraries
plain_libraries = record {
  pydantic = strict_pydantic;
  dateutil = no_dateutil;
  lower = λ s. s;
  sha256 = λ s. s;
  blake2b = λ s. s;
  show = λ v. "cell";
  show_row = λ r. "row";
}

-- A world of mappings by cache key, and of corrections by cedent and header.
pub record World : Type 0 where
  pub mappings : Dict MappingResult
  pub values : String → Option String
  pub hashes : String → String → Option String

abbrev pub empty_world : World
empty_world = record { mappings = []; values = λ k. none; hashes = λ k f. none }

abbrev pub memory_cache : CachePort World
memory_cache = record {
  get_mapping = λ k w. (ok (get k w.mappings), w);
  set_mapping = λ k m w. (ok tt, record w { mappings = put k m w.mappings });
}

abbrev pub set_value : String → String → (String → Option String) → String → Option String
set_value k v values j = if k == j then some v else values j

abbrev pub set_field :
    String → String → String → (String → String → Option String) → String → String → Option String
set_field k f v hashes j g = if k == j && f == g then some v else hashes j g

abbrev pub memory_redis : Redis World
memory_redis = record {
  get = λ k w. (ok (w.values k), w);
  set = λ k v w. (ok tt, record w { values = set_value k v w.values });
  setex = λ k ttl v w. (ok tt, record w { values = set_value k v w.values });
  delete = λ k w. (ok tt, record w { values = λ j. if k == j then none else w.values j });
  hmget = λ k hs w. (ok (map (w.hashes k) hs), w);
  hset = λ k f v w. (ok tt, record w { hashes = set_field k f v w.hashes });
}

get-same : (k : String) (m : MappingResult) (d : Dict MappingResult) → get k (put k m d) ≡ some m
get-same k m d = ground (arith, get-put k k m d, eq_refl k)

kept :
    (k : String) (m : MappingResult) (w w' : World)
    → record w { mappings = put k m w.mappings } ≡ w'
    → memory_cache.get_mapping k w' ≡ (ok (some m), w')
kept k m w w' e = rw (sym e) (rw (get-same k m w.mappings) refl)

same_answer :
    (k : String) (m : MappingResult) (w w' : World)
    → memory_cache.get_mapping k w ≡ (ok (some m), w')
    → memory_cache.get_mapping k w' ≡ (ok (some m), w')
same_answer k m w w' e = let same : w ≡ w' = ap (λ t. t.1) e in rw same at e

-- A cache in memory keeps what it is given.
pub memory-IsKeeping : IsKeeping memory_cache
memory-IsKeeping = record {
  get-set = λ k m w w' e. (w', kept k m w w' (ap (λ t. t.1) e));
  get-get = λ k m w w' e. (w', same_answer k m w w' e);
}

-- A mapper that maps every header to the currency, with full confidence for one header only.
abbrev pub currency_mapping : ColumnMapping
currency_mapping = record {
  source_header = "Ccy";
  target_field = "Currency";
  confidence = one_float;
}

abbrev pub currency_result : MappingResult
currency_result = record { mappings = currency_mapping ∷ []; unmapped_headers = [] }

abbrev pub currency_mapper : MapperPort World
currency_mapper = record { map_headers = λ hs rows w. (ok currency_result, w) }

-- A schema of one optional field, and a frame of one row for it.
abbrev pub small_schema : TargetSchema
small_schema = record default_target_schema {
  fields =
      (
        "Currency",
        record {
          type = riskflow.TargetSchema.FieldType.currency;
          required = false;
          not_empty = false;
          non_negative = false;
          allowed_values = some ("USD" ∷ []);
        },
      )
      ∷ [];
  cross_field_rules = [];
  slm_hints = [];
}

abbrev pub usd_row : Row
usd_row = ("Currency", Value.text "USD") ∷ []

abbrev pub small_frame : Frame
small_frame = record { columns = ("Ccy", Value.text "USD" ∷ []) ∷ [] }

abbrev pub memory_polars : Polars World
memory_polars = record {
  read_csv = λ f w. (ok small_frame, w);
  read_excel = λ f sheet w. (ok small_frame, w);
  rename = λ d df. ok df;
  to_dicts = λ df. usd_row ∷ [];
}

abbrev pub memory_ingestor : IngestorPort World
memory_ingestor = record {
  get_headers = λ f sheet w. (ok ("Ccy" ∷ []), w);
  get_preview = λ f sheet w. (ok (usd_row ∷ []), w);
  get_sheet_names = λ f w. (ok [], w);
}

abbrev pub memory_service : MappingService World
memory_service = record {
  ingestor = memory_ingestor;
  mapper = currency_mapper;
  cache = memory_cache;
  confidence_threshold = six_tenths;
  schema = small_schema;
  correction_cache = none;
  polars = memory_polars;
}

-- The memory answers as a Redis does.
pub memory-IsAnswering : IsAnswering memory_redis
memory-IsAnswering = record {
  value = λ w k. w.values k;
  hash = λ w k f. w.hashes k f;
  get_value = λ k w. refl;
  hmget_hash = λ k hs w. refl;
  value_setex = λ k ttl v w. (_, refl, ground (arith, eq_refl k));
  hash_hset = λ k f v w. (_, refl, ground (arith, eq_refl k, eq_refl f));
}

-- A service that keeps nothing, over any world.
abbrev pub stateless_service : {W : Type 0} → MappingService W
stateless_service = record {
  ingestor = record {
    get_headers = λ f sheet w. (ok [], w);
    get_preview = λ f sheet w. (ok [], w);
    get_sheet_names = λ f w. (ok [], w);
  };
  mapper = record { map_headers = λ hs rows w. (ok currency_result, w) };
  cache = record { get_mapping = λ k w. (ok none, w); set_mapping = λ k m w. (ok tt, w) };
  confidence_threshold = six_tenths;
  schema = small_schema;
  correction_cache = none;
  polars = record {
    read_csv = λ f w. (ok small_frame, w);
    read_excel = λ f sheet w. (ok small_frame, w);
    rename = λ d df. ok df;
    to_dicts = λ df. usd_row ∷ [];
  };
}
