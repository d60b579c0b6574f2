-- ===== src/TargetSchema.antt =====
-- domain/model/target_schema.py: the target schema and its validators. `blake2b` is the digest of
-- the standard library, taken as a parameter; the text that it digests is modelled.
pub mod Default
pub mod Valid
pub mod Fingerprint
use riskflow.Prelude.{
  Bool, true, false, not, ◌&&◌, List, [], ◌∷◌, Option, none, some, String, contains, AllDistinct,
  eqb, length, ◌==◌, is_some, if◌then◌else◌,
}
use riskflow.Prelude.Dict.{Dict, keys, get}
use riskflow.Prelude.Sort.{distinct}
use riskflow.Errors.{
  Exception, invalid_model, constraint_type, rule_same_field, rule_unknown_field, rule_not_date,
  hint_unknown_field, duplicate_aliases, Result, ok, raise, ◌>>=◌, ◌>>◌, guard,
}
use riskflow.Json
use riskflow.Json.{Json, sort_fields, print}

pub data FieldType : Type 0 where
  string date float currency : FieldType

abbrev pub is_string : FieldType → Bool
is_string string = true
is_string _ = false

abbrev pub is_date : FieldType → Bool
is_date date = true
is_date _ = false

abbrev pub is_float : FieldType → Bool
is_float float = true
is_float _ = false

abbrev pub is_currency : FieldType → Bool
is_currency currency = true
is_currency _ = false

pub record FieldDefinition : Type 0 where
  pub type : FieldType
  pub required : Bool
  pub not_empty : Bool
  pub non_negative : Bool
  pub allowed_values : Option (List String)

-- The validator of `FieldDefinition`.
unfoldable pub constraints_match_type : FieldDefinition → Result FieldDefinition
constraints_match_type d = do
  guard (not (d.non_negative && not (is_float d.type))) (invalid_model constraint_type)
  guard (not (d.not_empty && not (is_string d.type))) (invalid_model constraint_type)
  guard (not (is_some d.allowed_values && not (is_currency d.type))) (invalid_model constraint_type)
  ok d

pub record DateOrderingRule : Type 0 where
  pub earlier : String
  pub later : String

pub record SlmHint : Type 0 where
  pub source_alias : String
  pub target : String

pub record TargetSchema : Type 0 where
  pub name : String
  pub fields : Dict FieldDefinition
  pub cross_field_rules : List DateOrderingRule
  pub slm_hints : List SlmHint

abbrev pub field_names : TargetSchema → List String
field_names s = keys s.fields

required_of : Dict FieldDefinition → List String
required_of [] = []
required_of ((n, d) ∷ fs) = let rest = required_of fs in if d.required then n ∷ rest else rest

unfoldable pub required_field_names : TargetSchema → List String
unfolding required_of
required_field_names s = required_of s.fields

-- The body of the inner loop over `[rule.earlier, rule.later]`.
check_ref : Dict FieldDefinition → String → Result (Unit {0})
check_ref fields ref = elim (get ref fields) [
  | none ↦ raise (invalid_model rule_unknown_field)
  | some d ↦ guard (is_date d.type) (invalid_model rule_not_date)
]

check_rule : Dict FieldDefinition → DateOrderingRule → Result (Unit {0})
unfolding check_ref
check_rule fields r = do
  guard (not (r.earlier == r.later)) (invalid_model rule_same_field)
  check_ref fields r.earlier
  check_ref fields r.later

unfoldable pub check_rules : Dict FieldDefinition → List DateOrderingRule → Result (Unit {0})
unfolding check_rule
check_rules fields [] = ok tt
check_rules fields (r ∷ rs) = do check_rule fields r; check_rules fields rs

check_hint_targets : Dict FieldDefinition → List SlmHint → Result (Unit {0})
check_hint_targets fields [] = ok tt
check_hint_targets fields (h ∷ hs) = do
  guard (contains h.target (keys fields)) (invalid_model hint_unknown_field)
  check_hint_targets fields hs

abbrev pub aliases : List SlmHint → List String
aliases [] = []
aliases (h ∷ hs) = h.source_alias ∷ aliases hs

unfoldable pub check_hints : Dict FieldDefinition → List SlmHint → Result (Unit {0})
unfolding check_hint_targets distinct
check_hints fields hs = do
  check_hint_targets fields hs
  guard (eqb (length (aliases hs)) (length (distinct (aliases hs))))
      (invalid_model duplicate_aliases)

-- `TargetSchema(name=…, fields=…, …)`: the two validators, in their order.
unfoldable pub target_schema :
    String → Dict FieldDefinition → List DateOrderingRule → List SlmHint → Result TargetSchema
unfolding check_rules check_hints
target_schema name fields rules hints = do
  check_rules fields rules
  check_hints fields hints
  ok (record { name = name; fields = fields; cross_field_rules = rules; slm_hints = hints })

type_value : FieldType → String
type_value string = "string"
type_value date = "date"
type_value float = "float"
type_value currency = "currency"

texts : List String → Json.Items
texts [] = Json.nil
texts (s ∷ ss) = Json.cons (Json.text s) (texts ss)

allowed_json : Option (List String) → Json
unfolding texts
allowed_json none = Json.null
allowed_json (some vs) = Json.array (texts vs)

-- `model_dump`, its keys sorted as `sort_keys=True` writes them.
definition_json : FieldDefinition → Json
unfolding type_value allowed_json
definition_json d = Json.object (
    Json.field "allowed_values" (allowed_json d.allowed_values) (
      Json.field "non_negative" (Json.boolean d.non_negative) (
        Json.field "not_empty" (Json.boolean d.not_empty) (
          Json.field "required" (Json.boolean d.required)
            (Json.field "type" (Json.text (type_value d.type)) Json.end)))))

fields_json : Dict FieldDefinition → Json.Fields
unfolding definition_json
fields_json [] = Json.end
fields_json ((n, d) ∷ fs) = Json.field n (definition_json d) (fields_json fs)

rules_json : List DateOrderingRule → Json.Items
rules_json [] = Json.nil
rules_json (r ∷ rs) =
    Json.cons
      (Json.object (
        Json.field "earlier" (Json.text r.earlier)
          (Json.field "later" (Json.text r.later) Json.end)))
      (rules_json rs)

hints_json : List SlmHint → Json.Items
hints_json [] = Json.nil
hints_json (h ∷ hs) =
    Json.cons
      (Json.object (
        Json.field "source_alias" (Json.text h.source_alias)
          (Json.field "target" (Json.text h.target) Json.end)))
      (hints_json hs)

payload : TargetSchema → Json
unfolding fields_json rules_json hints_json
payload s = Json.object (
    Json.field "cross_field_rules" (Json.array (rules_json s.cross_field_rules)) (
      Json.field "fields" (Json.object (sort_fields (fields_json s.fields)))
        (Json.field "slm_hints" (Json.array (hints_json s.slm_hints)) Json.end)))

-- `stable_json`
unfoldable pub stable_json : TargetSchema → String
unfolding payload
stable_json s = print (payload s)

unfoldable pub fingerprint : (String → String) → TargetSchema → String
fingerprint blake2b s = blake2b (stable_json s)
