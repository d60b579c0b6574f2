-- ===== src/Tests/Domain.antt =====
-- The theorems about domain/model at concrete inputs.
use mathlib.Core.List.{Memᴰ}
use riskflow.Prelude.{
  ◌≢◌, length, map, ◌≤◌, ℕ, ◌≡◌, ◌↔◌, refl, inl, true, false, List, [], ◌∷◌, Option, none, some,
  String, arith,
}
use riskflow.Prelude.Dict.{get}
use riskflow.Errors.{ok}
use riskflow.Float.{one_float, six_tenths, le}
use riskflow.Schema.{from_mapping_result, report_of, ConfidenceReport}
use riskflow.Schema.Report.{IsReportOf, from_mapping_result-IsReportOf}
use riskflow.Float.Order.{IsNumber}
use riskflow.TargetSchema.{
  FieldType, FieldDefinition, DateOrderingRule, TargetSchema, target_schema,
}
use riskflow.TargetSchema.Default.{default_target_schema}
use riskflow.TargetSchema.Valid.{IsValid, target_schema-IsValid_iff}
use riskflow.Value.{Date, Value, Row}
use riskflow.RecordFactory.{coerce_date, model_validate, build_model, RecordModel, date_at, date_lt}
use riskflow.MappingService.{convert_cell}
use riskflow.MappingService.Dates.{convert_cell-coerce_date}
use riskflow.RecordFactory.Sound.{RecordHolds, model_validate-RecordHolds}
use riskflow.RecordFactory.Rules.{
  with_rules, Disordered, model_validate-last_rule, model_validate-ordered,
}
use riskflow.RecordFactory.Nulls.{Crashes, model_validate-null}
use riskflow.RecordFactory.Cache.{SchemaJson, Call, build, clear, run, max_size}
use riskflow.RecordFactory.Cache.Answers.{asked, run-build_model}
use riskflow.DateFormat.{
  Format, iso, yyyy_slash, named_month, dayfirst, detect_date_format, parse_date,
}
use riskflow.Text.{codes, strip, is_blank}
use riskflow.Tests.{strict_pydantic, no_dateutil, currency_mapping, small_schema, usd_row}

abbrev usd_model : RecordModel
usd_model = build_model small_schema

usd_valid : model_validate strict_pydantic no_dateutil usd_model usd_row ≡ ok usd_row
unfolding model_validate build_model get
usd_valid = refl

model_validate-RecordHolds_example : RecordHolds usd_model.definitions usd_row
model_validate-RecordHolds_example =
    model_validate-RecordHolds strict_pydantic no_dateutil usd_model usd_row usd_row usd_valid

target_schema-IsValid_iff_example :
    (target_schema "standard_reinsurance" default_target_schema.fields
        default_target_schema.cross_field_rules default_target_schema.slm_hints
      ≡ ok default_target_schema)
    ↔ IsValid default_target_schema.fields default_target_schema.cross_field_rules
        default_target_schema.slm_hints
target_schema-IsValid_iff_example =
    target_schema-IsValid_iff "standard_reinsurance" default_target_schema.fields
      default_target_schema.cross_field_rules default_target_schema.slm_hints

-- The constructor accepts the default schema.
default_accepted :
    target_schema "standard_reinsurance" default_target_schema.fields
      default_target_schema.cross_field_rules default_target_schema.slm_hints
    ≡ ok default_target_schema
unfolding target_schema get
default_accepted = refl

-- Two date rules over three dates, and a row that breaks the first.
abbrev rule : String → String → DateOrderingRule
rule a b = record { earlier = a; later = b }

abbrev a_date : FieldDefinition
a_date = record {
  type = FieldType.date;
  required = true;
  not_empty = false;
  non_negative = false;
  allowed_values = none;
}

abbrev dates : TargetSchema
dates = record {
  name = "dates";
  fields = ("a", a_date) ∷ ("b", a_date) ∷ ("c", a_date) ∷ [];
  cross_field_rules = [];
  slm_hints = [];
}

abbrev day : ℕ → Value
day d = Value.date (record { year = 2024; month = 1; day = d })

abbrev broken_row : Row
broken_row = ("a", day 9) ∷ ("b", day 2) ∷ ("c", day 5) ∷ []

abbrev first_rule : DateOrderingRule
first_rule = rule "a" "b"

abbrev later_rule : DateOrderingRule
later_rule = rule "b" "c"

model_validate-last_rule_example :
    model_validate strict_pydantic no_dateutil
      (build_model (with_rules dates (first_rule ∷ later_rule ∷ [])))
      broken_row
    ≡ model_validate strict_pydantic no_dateutil
        (build_model (with_rules dates (later_rule ∷ [])))
        broken_row
model_validate-last_rule_example =
    model_validate-last_rule strict_pydantic no_dateutil dates (first_rule ∷ []) later_rule
      broken_row

-- The row is accepted although it breaks the first rule.
broken_accepted :
    model_validate strict_pydantic no_dateutil
      (build_model (with_rules dates (first_rule ∷ later_rule ∷ [])))
      broken_row
    ≡ ok broken_row
unfolding model_validate build_model get date_at date_lt
broken_accepted = refl

model_validate-ordered_example : ¬ (Disordered later_rule broken_row)
model_validate-ordered_example =
    model_validate-ordered strict_pydantic no_dateutil dates (first_rule ∷ []) later_rule broken_row
      broken_row broken_accepted

-- An optional amount that must not be negative.
abbrev amount : FieldDefinition
amount = record {
  type = FieldType.float;
  required = false;
  not_empty = false;
  non_negative = true;
  allowed_values = none;
}

abbrev amount_model : RecordModel
amount_model = record { definitions = ("amount", amount) ∷ []; orders = [] }

abbrev empty_cell : Row
empty_cell = ("amount", Value.null) ∷ []

amount_empty : get "amount" empty_cell ≡ some Value.null
unfolding get
amount_empty = refl

model_validate-null_example :
    Crashes (model_validate strict_pydantic no_dateutil amount_model empty_cell)
model_validate-null_example =
    model_validate-null strict_pydantic no_dateutil amount_model empty_cell "amount" amount
      (Memᴰ.head refl) refl (inl refl) amount_empty

one-IsNumber : IsNumber one_float
unfolding le one_float
one-IsNumber = refl

abbrev currency_report : ConfidenceReport
currency_report = report_of (currency_mapping ∷ []) six_tenths ("Currency" ∷ "Policy_ID" ∷ [])

reported :
    from_mapping_result
      (record { mappings = currency_mapping ∷ []; unmapped_headers = [] })
      six_tenths
      (some ("Currency" ∷ "Policy_ID" ∷ []))
    ≡ ok currency_report
unfolding from_mapping_result
reported = refl

from_mapping_result-IsReportOf_example :
    IsReportOf (currency_mapping ∷ []) six_tenths ("Currency" ∷ "Policy_ID" ∷ []) currency_report
from_mapping_result-IsReportOf_example =
    from_mapping_result-IsReportOf currency_mapping [] [] six_tenths ("Currency" ∷ "Policy_ID" ∷ [])
      currency_report (one-IsNumber, tt) reported

abbrev column : List String
column = "31/01/2024" ∷ "1/2/2024" ∷ []

column_format : detect_date_format column ≡ some dayfirst
unfolding detect_date_format is_blank riskflow.DateFormat.iso_pattern strip
    riskflow.Text.digit_value riskflow.DateFormat.yyyy_slash_pattern
    riskflow.DateFormat.has_month_name riskflow.DateFormat.dayfirst_slash_pattern
column_format = refl

abbrev february : Date
february = record { year = 2024; month = 2; day = 1 }

-- dateutil reads the one value of the test.
abbrev february_dateutil : List ℕ → Option Date
february_dateutil s = some february

abbrev february_row : Row
february_row = ("Start", Value.text "1/2/2024") ∷ []

february_held : get "Start" february_row ≡ some (Value.text "1/2/2024")
unfolding get
february_held = refl

column_numeric : detect_date_format column ≢ some named_month
column_numeric e = ground (arith, column_format)

convert_cell-coerce_date_example :
    (u : Value) × (get "Start" (
        convert_cell february_dateutil "Start"
          (detect_date_format column)
          (get "Start" february_row)
          february_row)
      ≡ some u)
    × (coerce_date february_dateutil u ≡ coerce_date february_dateutil (Value.text "1/2/2024"))
convert_cell-coerce_date_example =
    convert_cell-coerce_date february_dateutil "Start" "1/2/2024" column february_row column_numeric
      refl february_held

-- A JSON form that reads as one schema, and calls that hit the cache, clear it and fill it again.
abbrev small_json : SchemaJson
small_json = record { dump = λ s. "{}"; load = λ json. ok small_schema }

abbrev model_calls : List Call
model_calls = build small_schema ∷ build small_schema ∷ clear ∷ build small_schema ∷ []

run-build_model_example :
    ((run small_json (λ s. s) model_calls []).0 ≡ map (λ s. ok (build_model s)) (asked model_calls))
    × (length (run small_json (λ s. s) model_calls []).1 ≤ max_size)
run-build_model_example = run-build_model small_json (λ s. s) model_calls (refl, (refl, (refl, tt)))
