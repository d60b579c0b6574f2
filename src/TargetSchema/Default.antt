-- ===== src/TargetSchema/Default.antt =====
-- DEFAULT_TARGET_SCHEMA of domain/model/target_schema.py.
use riskflow.Prelude.{true, false, [], ◌∷◌, none, some, String}
use riskflow.TargetSchema.{FieldType, FieldDefinition, SlmHint, TargetSchema}

-- `FieldDefinition(type=…)` and its defaults.
abbrev plain : FieldType → FieldDefinition
plain t = record {
  type = t;
  required = true;
  not_empty = false;
  non_negative = false;
  allowed_values = none;
}

abbrev hint : String → String → SlmHint
hint alias target = record { source_alias = alias; target = target }

abbrev pub default_target_schema : TargetSchema
default_target_schema = record {
  name = "standard_reinsurance";
  fields =
      ("Policy_ID", record (plain FieldType.string) { not_empty = true })
      ∷ ("Inception_Date", plain FieldType.date)
      ∷ ("Expiry_Date", plain FieldType.date)
      ∷ ("Sum_Insured", record (plain FieldType.float) { non_negative = true })
      ∷ ("Gross_Premium", record (plain FieldType.float) { non_negative = true })
      ∷ (
        "Currency",
        record (plain FieldType.currency) {
          allowed_values = some ("USD" ∷ "GBP" ∷ "EUR" ∷ "JPY" ∷ []);
        },
      )
      ∷ [];
  cross_field_rules = record { earlier = "Inception_Date"; later = "Expiry_Date" } ∷ [];
  slm_hints =
      hint "GWP" "Gross_Premium"
      ∷ hint "TSI" "Sum_Insured"
      ∷ hint "Ccy" "Currency"
      ∷ hint "Certificate" "Policy_ID"
      ∷ [];
}
