-- ===== src/RecordFactory.antt =====
-- domain/model/record_factory.py: the record model of a schema, and what it does with a row. How
-- pydantic itself converts a cell to `str`, `float` or `date` is a parameter. pydantic reports
-- the `ValueError`s of all fields together; any other exception of a validator passes through at
-- once. A model is built with each use; Cache holds the cache of built models.
pub mod Sound
pub mod Cache
pub mod Rules
pub mod Nulls
use riskflow.Prelude.{
  ℕ, zero, suc, ◌≡◌, refl, Bool, true, false, not, ◌&&◌, ◌||◌, List, [], ◌∷◌, Option, none, some,
  String, contains, is_some, ltb, eqb, if◌then◌else◌,
}
use riskflow.Prelude.Dict.{Dict, get}
use riskflow.Errors.{
  Exception, type_error, attribute_error, validation_error, FaultKind, missing, wrong_type,
  negative, blank, not_allowed, date_order, bad_date, Reason, empty_date, unparsed_date, Result, ok,
  raise, ◌>>=◌, ◌>>◌, guard,
}
use riskflow.Float.{Float, zero_float, lt}
use riskflow.Schema.{is_empty}
use riskflow.Text.{codes, is_blank, strip}
use riskflow.TargetSchema.{FieldType, FieldDefinition, DateOrderingRule, TargetSchema}
use riskflow.Value.{Date, Value, Row}
use riskflow.DateFormat.{slash_date, or_else}
use riskflow.DateFormat.Calendar.{from_iso}

-- What pydantic makes of a cell in its lax mode; `none` is a validation error. A cell that has the
-- type already is kept.
pub record Pydantic : Type 0 where
  pub to_text : Value → Option String
  pub to_float : Value → Option Float
  pub to_date : Value → Option Date
  pub to_text_text : (s : String) → to_text (Value.text s) ≡ some s
  pub to_float_real : (x : Float) → to_float (Value.real x) ≡ some x
  pub to_date_date : (d : Date) → to_date (Value.date d) ≡ some d

-- The result of a validator: a value, a `ValueError`, or another exception.
pub data Outcome (A : Type 0) : Type 0 where
  good : A → Outcome A
  bad : FaultKind → Outcome A
  crash : Exception → Outcome A

infixl 5 ◌>=>◌
abbrev pub ◌>=>◌ : {A B : Type 0} → Outcome A → (A → Outcome B) → Outcome B
good a >=> f = f a
bad k >=> f = bad k
crash e >=> f = crash e

abbrev or_wrong : {A B : Type 0} → (A → B) → Option A → Outcome B
or_wrong f none = bad wrong_type
or_wrong f (some a) = good (f a)

module _ (dateutil : List ℕ → Option Date) where
  unfoldable pub coerce_stripped : List ℕ → Outcome Value
  coerce_stripped s = elim (or_else (from_iso s) (or_else (slash_date s) (dateutil s))) [
    | none ↦ bad (bad_date unparsed_date)
    | some d ↦ good (Value.date d)
  ]

  unfoldable pub coerce_date : Value → Outcome Value
  unfolding coerce_stripped
  coerce_date (Value.datetime d _) = good (Value.date d)
  coerce_date (Value.text s) =
      if is_blank s then bad (bad_date empty_date) else coerce_stripped (codes (strip s))
  coerce_date v = good v

-- `defn.type` as pydantic checks it; a date goes through `coerce_date` first.
module _ (pydantic : Pydantic) (dateutil : List ℕ → Option Date) where
  convert : FieldType → Value → Outcome Value
  unfolding coerce_date
  convert FieldType.string v = or_wrong Value.text (pydantic.to_text v)
  convert FieldType.currency v = or_wrong Value.text (pydantic.to_text v)
  convert FieldType.float v = or_wrong Value.real (pydantic.to_float v)
  convert FieldType.date v =
      coerce_date dateutil v >=> λ w. or_wrong Value.date (pydantic.to_date w)

  -- A field that is not required takes `None` as well.
  convert_field : FieldDefinition → Value → Outcome Value
  unfolding convert
  convert_field d Value.null = if d.required then convert d.type Value.null else good Value.null
  convert_field d v = convert d.type v

-- `v < 0`: a comparison of `None` or of a text with a number raises TypeError.
check_non_negative : Value → Outcome Value
check_non_negative (Value.real x) = if lt x zero_float then bad negative else good (Value.real x)
check_non_negative v = crash type_error

-- `not v.strip()`
check_not_empty : Value → Outcome Value
check_not_empty (Value.text s) = if is_blank s then bad blank else good (Value.text s)
check_not_empty v = crash attribute_error

-- `v not in allowed`
check_allowed : List String → Value → Outcome Value
check_allowed allowed (Value.text s) =
    if contains s allowed then good (Value.text s) else bad not_allowed
check_allowed allowed v = bad not_allowed

check_values : Option (List String) → Value → Outcome Value
unfolding check_allowed
check_values none v = good v
check_values (some allowed) v = check_allowed allowed v

-- The validators that `_attach_field_validators` adds, in the order of their definition.
unfoldable pub field_validators : FieldDefinition → Value → Outcome Value
unfolding check_non_negative check_not_empty check_values
field_validators d v =
    (if d.non_negative then check_non_negative v else good v)
    >=> (λ w. if d.not_empty then check_not_empty w else good w)
    >=> (λ w. check_values d.allowed_values w)

-- `_check_date_order` of one closure, over the fields that it names.
pub record DateOrder : Type 0 where
  pub earlier : String
  pub later : String

last_rule : DateOrderingRule → List DateOrderingRule → DateOrderingRule
last_rule r [] = r
last_rule r (s ∷ rs) = last_rule s rs

closures : DateOrder → List DateOrderingRule → List DateOrder
closures cell [] = []
closures cell (r ∷ rs) = cell ∷ closures cell rs

-- `_attach_cross_field_validators`: a closure is made for each rule, and all of them read the two
-- variables of the loop when they are called, after the loop has ended at the last rule.
unfoldable pub attach_cross_field_validators : List DateOrderingRule → List DateOrder
unfolding last_rule closures
attach_cross_field_validators [] = []
attach_cross_field_validators (r ∷ rs) =
    let cell = last_rule r rs in
    closures (record { earlier = cell.earlier; later = cell.later }) (r ∷ rs)

-- The class that `build_model` returns.
pub record RecordModel : Type 0 where
  pub definitions : Dict FieldDefinition
  pub orders : List DateOrder

unfoldable pub build_model : TargetSchema → RecordModel
unfolding attach_cross_field_validators
build_model s = record {
  definitions = s.fields;
  orders = attach_cross_field_validators s.cross_field_rules;
}

-- `a < b` on dates.
unfoldable pub date_lt : Date → Date → Bool
date_lt a b =
    ltb a.year b.year
    || eqb a.year b.year && (ltb a.month b.month || eqb a.month b.month && ltb a.day b.day)

-- `getattr(self, name, None)`, if it is a date.
unfoldable pub date_at : String → Row → Option Date
date_at n r = elim (get n r) [ some (Value.date d) ↦ some d | _ ↦ none ]

in_order : Option Date → Option Date → Bool
in_order (some a) (some b) = not (date_lt b a)
in_order _ _ = true

check_orders : List DateOrder → Row → Result Row
unfolding in_order
check_orders [] r = ok r
check_orders (o ∷ os) r = do
  guard (in_order (date_at o.earlier r) (date_at o.later r))
      (validation_error (("unknown", date_order) ∷ []))
  check_orders os r

-- The faults of the fields, and the record of those without one.
pub record Collected : Type 0 where
  pub faults : List (String × FaultKind)
  pub fields : Row

abbrev add_outcome : String → Outcome Value → Collected → Result Collected
add_outcome n (good v) c = ok (record c { fields = (n, v) ∷ c.fields })
add_outcome n (bad k) c = ok (record c { faults = (n, k) ∷ c.faults })
add_outcome n (crash e) c = raise e

-- An exception that is no `ValueError` ends the validation.
abbrev first_crash : Outcome Value → Result Collected → Result Collected
first_crash (crash e) rest = raise e
first_crash _ rest = rest

module _ (pydantic : Pydantic) (dateutil : List ℕ → Option Date) where
  -- One field of the row: a default of `None` is not validated.
  validate_field : FieldDefinition → Option Value → Outcome Value
  unfolding convert_field field_validators
  validate_field d none = if d.required then bad missing else good Value.null
  validate_field d (some v) = convert_field pydantic dateutil d v >=> λ w. field_validators d w

  collect : Dict FieldDefinition → Row → Result Collected
  unfolding validate_field
  collect [] row = ok (record { faults = []; fields = [] })
  collect ((n, d) ∷ ds) row =
      let rest = collect ds row in
      let outcome = validate_field d (get n row) in
      first_crash outcome (rest >>= λ c. add_outcome n outcome c)

  -- `model_validate(row)`, and `model_dump()` of what it returns.
  unfoldable pub model_validate : RecordModel → Row → Result Row
  unfolding collect check_orders
  model_validate m row = do
    c ← collect m.definitions row
    guard (is_empty c.faults) (validation_error c.faults)
    check_orders m.orders c.fields
