-- ===== src/Errors.antt =====
-- domain/model/errors.py, and the exceptions of the language that the program raises or lets
-- through. A message is modelled by the place that raises it; its text is left out.
use riskflow.Prelude.{◌≡◌, refl, ◌⊎◌, inl, inr, arith, Bool, true, false, List, String}

-- The `raise ValueError(msg)` of the domain, one for each.
pub data Reason : Type 0 where
  confidence_range duplicate_targets unknown_target valid_fields_required : Reason
  constraint_type rule_same_field rule_unknown_field rule_not_date hint_unknown_field : Reason
  duplicate_aliases : Reason
  empty_cedent_id empty_source_header empty_target_field : Reason
  job_not_pending job_not_processing : Reason
  session_finalised no_fields empty_field_name : Reason
  empty_date unparsed_date : Reason
  bad_sheet bad_enum_value zip_length : Reason

-- What a pydantic `ValidationError` reports for one field; `input` is `str(err["input"])`.
pub data FaultKind : Type 0 where
  missing wrong_type negative blank not_allowed date_order : FaultKind
  bad_date : Reason → FaultKind

pub data Exception : Type 0 where
  -- builtins
  value_error : Reason → Exception
  type_error attribute_error key_error os_error file_not_found runtime_error : Exception
  -- `ConnectionError` and redis' `RedisError`; openai's `RateLimitError`, and its other errors
  connection_lost rate_limited api_error : Exception
  -- pydantic's `ValidationError`, a subclass of `ValueError`: of a model whose validator raised,
  -- and of a record, with its `errors()`
  invalid_model : Reason → Exception
  validation_error : List (String × FaultKind) → Exception
  -- subclasses of `RiskFlowError`
  mapping_confidence_low invalid_cedent_data schema_validation slm_unavailable : Exception
  invalid_schema invalid_correction : Exception

-- `except ValueError`
abbrev pub is_value_error : Exception → Bool
is_value_error (value_error _) = true
is_value_error (invalid_model _) = true
is_value_error (validation_error _) = true
is_value_error _ = false

-- `except OSError`, of which `FileNotFoundError` and `ConnectionError` are subclasses
abbrev pub is_os_error : Exception → Bool
is_os_error os_error = true
is_os_error file_not_found = true
is_os_error connection_lost = true
is_os_error _ = false

-- `except (ConnectionError, redis.RedisError)`
abbrev pub is_connection_lost : Exception → Bool
is_connection_lost connection_lost = true
is_connection_lost _ = false

-- `except (ValueError, TypeError)`, of which json's `JSONDecodeError` is one, and `KeyError`
abbrev pub is_unreadable : Exception → Bool
is_unreadable type_error = true
is_unreadable e = is_value_error e

abbrev pub is_unreadable_dict : Exception → Bool
is_unreadable_dict key_error = true
is_unreadable_dict e = is_unreadable e

-- `except RiskFlowError`
abbrev pub is_risk_flow_error : Exception → Bool
is_risk_flow_error mapping_confidence_low = true
is_risk_flow_error invalid_cedent_data = true
is_risk_flow_error schema_validation = true
is_risk_flow_error slm_unavailable = true
is_risk_flow_error invalid_schema = true
is_risk_flow_error invalid_correction = true
is_risk_flow_error _ = false

-- A call returns a value or raises.
pub data Result {ℓ} (A : Type ℓ) : Type ℓ where
  ok : A → Result A
  raise : Exception → Result A

-- `if not test: raise e`
abbrev pub guard : Bool → Exception → Result (Unit {0})
guard false e = raise e
guard true e = ok tt

-- A call, and then the rest unless the call raises.
infixl 5 ◌>>=◌
abbrev pub ◌>>=◌ {ℓ κ} : {A : Type ℓ} {B : Type κ} → Result A → (A → Result B) → Result B
raise e >>= rest = raise e
ok x >>= rest = rest x

infixl 5 ◌>>◌
abbrev pub ◌>>◌ {κ} : {B : Type κ} → Result (Unit {0}) → Result B → Result B
call >> rest = call >>= λ _. rest

-- A chain returns only if each of its calls does.
pub >>=-eq-ok {ℓ κ} :
    {A : Type ℓ} {B : Type κ} {y : B} (call : Result A) (rest : A → Result B)
    → (call >>= rest) ≡ ok y
    → (x : A) × (call ≡ ok x) × (rest x ≡ ok y)
>>=-eq-ok (raise e) rest h = cc
>>=-eq-ok (ok x) rest h = (x, refl, h)

pub guard-eq-ok {κ} :
    {B : Type κ} {y : B} (test : Bool) (e : Exception) (rest : Result B)
    → (guard test e >> rest) ≡ ok y
    → (test ≡ true) × (rest ≡ ok y)
guard-eq-ok false e rest h = cc
guard-eq-ok true e rest h = (refl, h)

-- A chain raises in its first call or in the rest.
pub >>=-eq-raise {ℓ κ} :
    {A : Type ℓ} {B : Type κ} {e : Exception} (call : Result A) (rest : A → Result B)
    → (call >>= rest) ≡ raise e
    → (call ≡ raise e) ⊎ ((x : A) × (call ≡ ok x) × (rest x ≡ raise e))
>>=-eq-raise (raise x) rest h = inl (ground arith)
>>=-eq-raise (ok x) rest h = inr (x, refl, h)
