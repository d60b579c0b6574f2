-- ===== src/MappingService/Dates.antt =====
-- The conversion of date columns in domain/service/mapping_service.py, beside the one that
-- domain/model/record_factory.py makes of every date field.
use riskflow.Prelude.{
  ℕ, ◌≡◌, ◌≢◌, refl, sym, ap, ◌∙◌, true, List, Option, none, some, String, arith, contains,
  Bool-cases, inl, inr, ◌⊎◌, eq_refl,
}
use riskflow.Prelude.Dict.{get, put, get-put}
use riskflow.DateFormat.{
  Format, named_month, detect_date_format, parse_date, parse_stripped, or_else, slash_date,
  parsed_or_raise,
}
use riskflow.DateFormat.Calendar.{from_iso}
use riskflow.DateFormat.Column.{parse_date_hint}
use riskflow.Errors.{Result, ok, raise, bad_date, unparsed_date}
use riskflow.RecordFactory.{Outcome, good, bad, coerce_date, coerce_stripped}
use riskflow.Text.{codes, is_blank, strip}
use riskflow.Value.{Date, Value, Row}
use riskflow.MappingService.{convert_cell}

module _ (dateutil : List ℕ → Option Date) where
  coerce_stripped-some :
      (s : List ℕ) (d : Date)
      → parse_stripped dateutil s none ≡ ok d
      → coerce_stripped dateutil s ≡ good (Value.date d)
  unfolding parse_stripped coerce_stripped
  coerce_stripped-some s d h =
      of_found (or_else (from_iso s) (or_else (slash_date s) (dateutil s))) h
    where
      of_found :
          (o : Option Date)
          → parsed_or_raise o ≡ ok d
          → (elim o as (λ x. Outcome Value) [
            | none ↦ bad (bad_date unparsed_date)
            | some e ↦ good (Value.date e)
          ])
            ≡ good (Value.date d)
      of_found none g = absurd (ground arith)
      of_found (some e) g = ap (λ x. good (Value.date x)) (cc g)

  -- What parses with no hint is coerced to the same date.
  parse_date-coerce_date :
      (v : String) (d : Date)
      → parse_date dateutil v none ≡ ok d
      → coerce_date dateutil (Value.text v) ≡ good (Value.date d)
  unfolding parse_date coerce_date
  parse_date-coerce_date v d h = elim (Bool-cases (is_blank v)) [
    | inl blank ↦ absurd (ground arith)
    | inr written ↦ rw written (coerce_stripped-some (codes (strip v)) d (ground arith))
  ]

  -- The value of a cell that is a text, after its conversion.
  convert_cell-get :
      (n v : String) (fmt : Option Format) (row : Row)
      → get n row ≡ some (Value.text v)
      → (get n (convert_cell dateutil n fmt (some (Value.text v)) row) ≡ some (Value.text v))
        ⊎ ((d : Date) × (parse_date dateutil v fmt ≡ ok d)
            × (get n (convert_cell dateutil n fmt (some (Value.text v)) row) ≡ some (Value.date d)))
  unfolding convert_cell
  convert_cell-get n v fmt row held = elim (Bool-cases (is_blank v)) [
    | inl blank ↦ inl (rw blank held)
    | inr written ↦ rw written (by_parse (parse_date dateutil v fmt))
  ]
    where
      by_parse :
          (r : Result Date)
          → (get n (elim r as (λ x. Row) [ ok d ↦ put n (Value.date d) row | raise _ ↦ row ])
              ≡ some (Value.text v))
            ⊎ ((d : Date) × (r ≡ ok d)
                × (get n (elim r as (λ x. Row) [ ok d ↦ put n (Value.date d) row | raise _ ↦ row ])
                    ≡ some (Value.date d)))
      by_parse (raise e) = inl held
      by_parse (ok d) = inr (d, refl, get-put n n (Value.date d) row ∙ ground (arith, eq_refl n))

  -- For a column whose detected format is not that of dates with month names: the record model
  -- coerces a text of the sample to the same date, or refuses it as well, whether or not the cell
  -- was converted by the detected format before.
  pub convert_cell-coerce_date :
      (n v : String) (vs : List String) (row : Row)
      → detect_date_format vs ≢ some named_month
      → contains v vs ≡ true
      → get n row ≡ some (Value.text v)
      → (u : Value) × (get n (convert_cell dateutil n (detect_date_format vs) (get n row) row)
          ≡ some u)
        × (coerce_date dateutil u ≡ coerce_date dateutil (Value.text v))
  unfolding coerce_date
  convert_cell-coerce_date n v vs row numeric member held =
      rw held (elim (convert_cell-get n v (detect_date_format vs) row held) [
        | inl kept ↦ (Value.text v, kept, refl)
        | inr (d, parsed, converted) ↦ (
          Value.date d,
          converted,
          sym (parse_date-coerce_date v d (no_hint d (detect_date_format vs) refl parsed)),
        )
      ])
    where
      no_hint :
          (d : Date) (fmt : Option Format)
          → detect_date_format vs ≡ fmt
          → parse_date dateutil v fmt ≡ ok d
          → parse_date dateutil v none ≡ ok d
      no_hint d none e p = p
      no_hint d (some f) e p =
          parse_date_hint dateutil vs f v d (λ named. numeric (e ∙ ap some named)) e member p
