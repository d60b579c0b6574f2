-- ===== src/Value.antt =====
-- The Python objects in a cell of a row, and rows as dicts from column names to cells.
use riskflow.Prelude.{ℕ, Bool, String}
use riskflow.Prelude.Dict.{Dict}
use riskflow.Float.{Float}

-- `datetime.date`; which of these exist is for `riskflow.DateFormat.Calendar` to say.
pub record Date : Type 0 where
  pub year : ℕ
  pub month : ℕ
  pub day : ℕ

pub data Value : Type 0 where
  null : Value
  boolean : Bool → Value
  -- `integer negative magnitude`
  integer : Bool → ℕ → Value
  real : Float → Value
  text : String → Value
  date : Date → Value
  -- `datetime.datetime`, by its date and its time of day in microseconds
  datetime : Date → ℕ → Value

abbrev pub Row : Type 0
Row = Dict Value
