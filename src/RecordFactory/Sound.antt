-- ===== src/RecordFactory/Sound.antt =====
-- What a record that passes validation satisfies.
use riskflow.Prelude.{
  ℕ, ◌≡◌, refl, ◌⊎◌, inl, inr, true, false, List, [], ◌∷◌, Option, none, some, String, arith,
  contains, Bool-cases,
}
use riskflow.Prelude.Dict.{Dict, get}
use riskflow.Errors.{Result, ok, raise, ◌>>=◌, >>=-eq-ok, guard-eq-ok}
use riskflow.Float.{lt, zero_float}
use riskflow.Text.{is_blank}
use riskflow.TargetSchema.{FieldType, FieldDefinition}
use riskflow.Value.{Date, Value, Row}
use riskflow.RecordFactory.{
  Pydantic, DateOrder, Outcome, good, bad, crash, ◌>=>◌, RecordModel, Collected, convert,
  convert_field, validate_field, first_crash, add_outcome, collect, check_orders, in_order, date_at,
  model_validate, field_validators,
}
use riskflow.Schema.{is_empty}

abbrev pub Typed : FieldType → Value → Type 0
Typed FieldType.string (Value.text _) = Unit
Typed FieldType.currency (Value.text _) = Unit
Typed FieldType.float (Value.real _) = Unit
Typed FieldType.date (Value.date _) = Unit
Typed _ _ = ⊥

abbrev NotNegative : Value → Type 0
NotNegative (Value.real x) = lt x zero_float ≡ false
NotNegative _ = ⊥

abbrev NotBlank : Value → Type 0
NotBlank (Value.text s) = is_blank s ≡ false
NotBlank _ = ⊥

abbrev Allowed : Option (List String) → Value → Type 0
Allowed none v = Unit
Allowed (some vs) (Value.text s) = contains s vs ≡ true
Allowed (some vs) _ = ⊥

-- The constraints of a field hold of a value.
pub record Meets (d : FieldDefinition) (v : Value) : Type 0 where
  pub typed : Typed d.type v
  pub non_negative : d.non_negative ≡ true → NotNegative v
  pub not_empty : d.not_empty ≡ true → NotBlank v
  pub allowed : Allowed d.allowed_values v

-- A field holds `None` only where it is not required.
abbrev pub FieldHolds : FieldDefinition → Value → Type 0
FieldHolds d v = ((v ≡ Value.null) × (d.required ≡ false)) ⊎ Meets d v

-- The record has the fields of the definitions, in their order.
abbrev pub RecordHolds : Dict FieldDefinition → Row → Type 0
RecordHolds [] [] = Unit
RecordHolds ((n, d) ∷ ds) ((m, v) ∷ r) = (m ≡ n) × FieldHolds d v × RecordHolds ds r
RecordHolds _ _ = ⊥

module _ (pydantic : Pydantic) (dateutil : List ℕ → Option Date) where
  convert-Typed : (t : FieldType) (v w : Value) → convert pydantic dateutil t v ≡ good w → Typed t w
  unfolding convert
  convert-Typed FieldType.string v w h = ground arith
  convert-Typed FieldType.currency v w h = ground arith
  convert-Typed FieldType.float v w h = ground arith
  convert-Typed FieldType.date v w h = ground arith

  convert_field-good :
      (d : FieldDefinition) (v w : Value)
      → convert_field pydantic dateutil d v ≡ good w
      → ((w ≡ Value.null) × (d.required ≡ false)) ⊎ Typed d.type w
  unfolding convert_field
  convert_field-good d Value.null w h = elim (Bool-cases d.required) [
    | inl r ↦ inr (convert-Typed d.type Value.null w (ground arith))
    | inr o ↦ inl (ground arith, o)
  ]
  convert_field-good d v w h = inr (convert-Typed d.type v w h)

  validators-good :
      (d : FieldDefinition) (w u : Value)
      → field_validators d w ≡ good u
      → (u ≡ w)
        × (d.non_negative ≡ true → NotNegative w)
        × (d.not_empty ≡ true → NotBlank w)
        × Allowed d.allowed_values w
  unfolding field_validators
  validators-good d w u h = ground arith

  validate_field-good :
      (d : FieldDefinition) (o : Option Value) (u : Value)
      → validate_field pydantic dateutil d o ≡ good u
      → FieldHolds d u
  unfolding validate_field
  validate_field-good d none u h = inl (ground arith, ground arith)
  validate_field-good d (some v) u h = continue (convert_field pydantic dateutil d v) refl h
    where
      hold :
          (w : Value)
          → convert_field pydantic dateutil d v ≡ good w
          → u ≡ w
          → (d.non_negative ≡ true → NotNegative w)
          → (d.not_empty ≡ true → NotBlank w)
          → Allowed d.allowed_values w
          → FieldHolds d w
      hold w p same n e a = elim (convert_field-good d v w p) [
        | inl empty ↦ inl empty
        | inr typed ↦ inr (record { typed = typed; non_negative = n; not_empty = e; allowed = a })
      ]

      continue :
          (o : Outcome Value)
          → convert_field pydantic dateutil d v ≡ o
          → (o >=> λ w. field_validators d w) ≡ good u
          → FieldHolds d u
      continue (good w) p q =
          let (same, n, e, a) = validators-good d w u q in rw same (hold w p same n e a)
      continue (bad k) p q = cc
      continue (crash f) p q = cc

  collect_step :
      (n : String) (o : Outcome Value) (rest : Result Collected) (c : Collected)
      → first_crash o (rest >>= λ c. add_outcome n o c) ≡ ok c
      → c.faults ≡ []
      → (v : Value) × (c' : Collected) × (o ≡ good v)
        × (rest ≡ ok c')
        × (c'.faults ≡ [])
        × (c.fields ≡ (n, v) ∷ c'.fields)
  collect_step n (good v) (ok c') c e clean = (v, c', refl, refl, ground arith, ground arith)
  collect_step n (good v) (raise x) c e clean = cc
  collect_step n (bad k) (ok c') c e clean = absurd (ground arith)
  collect_step n (bad k) (raise x) c e clean = cc
  collect_step n (crash x) rest c e clean = cc

  collect-RecordHolds :
      (ds : Dict FieldDefinition) (row : Row) (c : Collected)
      → collect pydantic dateutil ds row ≡ ok c
      → c.faults ≡ []
      → RecordHolds ds c.fields
  unfolding collect
  collect-RecordHolds [] row c e clean =
      let none_left : c.fields ≡ [] = ground arith in rw none_left tt
  collect-RecordHolds ((n, d) ∷ ds) row c e clean =
      let (v, c', held, rest, clean', fields) = collect_step n _ _ c e clean in
      rw fields
        (refl, validate_field-good d (get n row) v held, collect-RecordHolds ds row c' rest clean')

  check_orders-same : (os : List DateOrder) (r r' : Row) → check_orders os r ≡ ok r' → r' ≡ r
  unfolding check_orders
  check_orders-same [] r r' e = ground arith
  check_orders-same (o ∷ os) r r' e =
      check_orders-same os r r'
        (guard-eq-ok (in_order (date_at o.earlier r) (date_at o.later r)) _ _ e).1

  no_faults : {A : Type 0} (l : List A) → is_empty l ≡ true → l ≡ []
  no_faults [] h = refl
  no_faults (x ∷ l) h = cc

  -- The record of an accepted row has exactly the fields of the schema, each of its type and with
  -- its constraints met, or `None` in a field that is not required.
  pub model_validate-RecordHolds :
      (m : RecordModel) (row r : Row)
      → model_validate pydantic dateutil m row ≡ ok r
      → RecordHolds m.definitions r
  unfolding model_validate
  model_validate-RecordHolds m row r e =
      let (c, collected, rest) = >>=-eq-ok (collect pydantic dateutil m.definitions row) _ e in
      let (clean, checked) = guard-eq-ok (is_empty c.faults) _ _ rest in
      rw (check_orders-same m.orders c.fields r checked)
        (collect-RecordHolds m.definitions row c collected (no_faults c.faults clean))
