-- ===== src/RecordFactory/Nulls.antt =====
-- Empty cells in optional fields that have a constraint.
use riskflow.Prelude.{
  ℕ, ◌≡◌, ◌≢◌, refl, ◌⊎◌, inl, inr, true, false, List, [], ◌∷◌, Option, none, some, String, arith,
  Bool-cases,
}
use riskflow.Prelude.Dict.{Dict, get}
use mathlib.Core.List.{Memᴰ}
use mathlib.Core.Path.{subst}
use riskflow.Errors.{Exception, type_error, attribute_error, Result, raise, ◌>>=◌}
use riskflow.TargetSchema.{FieldType, FieldDefinition}
use riskflow.Value.{Date, Value, Row}
use riskflow.RecordFactory.{
  Pydantic, Outcome, good, bad, crash, ◌>=>◌, RecordModel, Collected, convert, convert_field,
  validate_field, first_crash, add_outcome, collect, model_validate, field_validators,
}

-- The exceptions of a validator that is given `None`.
abbrev pub IsCrash : Exception → Type 0
IsCrash e = (e ≡ type_error) ⊎ (e ≡ attribute_error)

-- The call raises one of them: it neither returns nor reports a validation error.
abbrev pub Crashes : {A : Type 0} → Result A → Type 0
Crashes r = (e : Exception) × IsCrash e × (r ≡ raise e)

module _ (pydantic : Pydantic) (dateutil : List ℕ → Option Date) where
  abbrev FieldCrash : Outcome Value → Type 0
  FieldCrash o = (e : Exception) × IsCrash e × (o ≡ crash e)

  null_crash :
      (d : FieldDefinition)
      → d.required ≡ false
      → (d.non_negative ≡ true) ⊎ (d.not_empty ≡ true)
      → FieldCrash (validate_field pydantic dateutil d (some Value.null))
  unfolding validate_field
  null_crash d optional (inl h) = (type_error, inl refl, ground arith)
  null_crash d optional (inr h) = elim (Bool-cases d.non_negative) [
    | inl n ↦ (type_error, inl refl, ground arith)
    | inr n ↦ (attribute_error, inr refl, ground arith)
  ]

  convert-ne-crash :
      (t : FieldType) (v : Value) (e : Exception) → convert pydantic dateutil t v ≢ crash e
  unfolding convert
  convert-ne-crash FieldType.string v e h = ground arith
  convert-ne-crash FieldType.currency v e h = ground arith
  convert-ne-crash FieldType.float v e h = ground arith
  convert-ne-crash FieldType.date v e h = ground arith

  convert_field-ne-crash :
      (d : FieldDefinition) (v : Value) (e : Exception)
      → convert_field pydantic dateutil d v ≢ crash e
  unfolding convert_field
  convert_field-ne-crash d Value.null e h = ground (arith, convert-ne-crash d.type Value.null e)
  convert_field-ne-crash d v e h = convert-ne-crash d.type v e h

  validators-IsCrash :
      (d : FieldDefinition) (v : Value) (e : Exception) → field_validators d v ≡ crash e → IsCrash e
  unfolding field_validators
  validators-IsCrash d v e h = ground arith

  field-IsCrash :
      (d : FieldDefinition) (o : Option Value) (e : Exception)
      → validate_field pydantic dateutil d o ≡ crash e
      → IsCrash e
  unfolding validate_field
  field-IsCrash d none e h = absurd (ground arith)
  field-IsCrash d (some v) e h = continue (convert_field pydantic dateutil d v) refl h
    where
      continue :
          (o : Outcome Value)
          → convert_field pydantic dateutil d v ≡ o
          → (o >=> λ w. field_validators d w) ≡ crash e
          → IsCrash e
      continue (good w) p q = validators-IsCrash d w e q
      continue (bad k) p q = cc
      continue (crash f) p q = absurd (convert_field-ne-crash d v f p)

  first_crash-Crashes :
      (o : Outcome Value) (n : String) (rest : Result Collected)
      → ((e : Exception) → o ≡ crash e → IsCrash e)
      → FieldCrash o ⊎ Crashes rest
      → Crashes (first_crash o (rest >>= λ c. add_outcome n o c))
  first_crash-Crashes (crash e) n rest only h = (e, only e refl, refl)
  first_crash-Crashes (good v) n rest only (inl (e, _, p)) = cc
  first_crash-Crashes (bad k) n rest only (inl (e, _, p)) = cc
  first_crash-Crashes (good v) n rest only (inr (e, h, p)) = (e, h, rw p)
  first_crash-Crashes (bad k) n rest only (inr (e, h, p)) = (e, h, rw p)

  collect-Crashes :
      (n : String) (d : FieldDefinition) (ds : Dict FieldDefinition) (row : Row)
      → Memᴰ (n, d) ds
      → FieldCrash (validate_field pydantic dateutil d (get n row))
      → Crashes (collect pydantic dateutil ds row)
  unfolding collect
  collect-Crashes n d [] row m h = elim m [ ]
  collect-Crashes n d ((m, b) ∷ ds) row (Memᴰ.head same) h =
      first_crash-Crashes _ m _ (field-IsCrash b (get m row)) (
        inl (
          subst
            (λ (t : String × FieldDefinition).
              FieldCrash (validate_field pydantic dateutil t.1 (get t.0 row)))
            same h))
  collect-Crashes n d ((m, b) ∷ ds) row (Memᴰ.tail later) h =
      first_crash-Crashes _ m _ (field-IsCrash b (get m row))
        (inr (collect-Crashes n d ds row later h))

  -- A row with an empty cell in an optional field that must not be negative, or not be empty,
  -- makes the validation raise TypeError or AttributeError, whatever else the row holds: the row
  -- is neither accepted nor reported as invalid.
  pub model_validate-null :
      (m : RecordModel) (row : Row) (n : String) (d : FieldDefinition)
      → Memᴰ (n, d) m.definitions
      → d.required ≡ false
      → (d.non_negative ≡ true) ⊎ (d.not_empty ≡ true)
      → get n row ≡ some Value.null
      → Crashes (model_validate pydantic dateutil m row)
  unfolding model_validate
  model_validate-null m row n d listed optional constrained empty =
      let (e, kind, p) =
        collect-Crashes n d m.definitions row listed
          (rw empty (null_crash d optional constrained)) in
      (e, kind, rw p)
