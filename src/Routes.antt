-- ===== src/Routes.antt =====
-- adapters/http/routes.py: the checks of a request, the schemas that are registered, and the status
-- codes of failed uploads. A response is a value or a failure; FastAPI, the text of a message and
-- logging are left out. The upload is saved and its name split by the standard library.
pub mod Uploads
pub mod Schemas
pub mod Sessions
pub mod Jobs
pub mod Listing
use riskflow.Prelude.{
  ℕ, ◌≡◌, Bool, true, false, not, ◌&&◌, ◌||◌, List, [], ◌∷◌, Option, none, some, String, ◌==◌, leb,
  eqb, contains, all, is_some, if◌then◌else◌,
}
use riskflow.Prelude.Dict.{Dict, get, put, remove, keys}
use riskflow.Errors.{
  Exception, is_value_error, is_risk_flow_error, mapping_confidence_low, schema_validation,
  invalid_cedent_data, slm_unavailable, invalid_correction, Result, ok, raise,
}
use riskflow.Exec.{Exec}
use riskflow.Text.{codes, is_blank}
use riskflow.TargetSchema.{TargetSchema}

-- The `error_code` of a structured error body; `plain` is a body of text.
pub data ErrorCode : Type 0 where
  invalid_schema_name schema_not_found invalid_schema schema_already_exists : ErrorCode
  protected_schema low_confidence schema_validation_failed invalid_data : ErrorCode
  slm_down correction_refused invalid_sheet internal_error invalid_mapping invalid_fields :
      ErrorCode
  plain : ErrorCode

-- `HTTPException` with its status, or another exception of the handler.
pub data Failure : Type 0 where
  http : ℕ → ErrorCode → Failure
  uncaught : Exception → Failure

pub data Reply (A : Type 0) : Type 0 where
  reply : A → Reply A
  failure : Failure → Reply A

infixl 5 ◌>>=◌ ◌>>◌
abbrev pub ◌>>=◌ : {A B : Type 0} → Reply A → (A → Reply B) → Reply B
reply a >>= f = f a
failure e >>= f = failure e

abbrev pub ◌>>◌ : {B : Type 0} → Reply (Unit {0}) → Reply B → Reply B
m >> k = m >>= λ _. k

abbrev pub require : Bool → ℕ → ErrorCode → Reply (Unit {0})
require true status code = reply tt
require false status code = failure (http status code)

-- `[a-zA-Z0-9_-]`
abbrev pub is_name_char : ℕ → Bool
is_name_char c =
    leb 97 c && leb c 122 || leb 65 c && leb c 90 || leb 48 c && leb c 57 || eqb c 95 || eqb c 45

-- `$` matches at the end, and before a line feed that ends the text.
name_rest : List ℕ → Bool
name_rest [] = true
name_rest (c ∷ []) = is_name_char c || eqb c 10
name_rest (c ∷ d ∷ cs) = is_name_char c && name_rest (d ∷ cs)

-- `_SCHEMA_NAME_PATTERN.match`
unfoldable pub is_schema_name : List ℕ → Bool
unfolding name_rest
is_schema_name [] = false
is_schema_name (c ∷ cs) = is_name_char c && name_rest cs

-- `_validate_schema_name`
unfoldable pub validate_schema_name : String → Reply (Unit {0})
unfolding is_schema_name
validate_schema_name name = require (is_schema_name (codes name)) 400 invalid_schema_name

-- The status that `upload_file` answers an exception of the service with: the first `except` that
-- catches it.
unfoldable pub upload_failure : Exception → Failure
upload_failure mapping_confidence_low = http 422 low_confidence
upload_failure schema_validation = http 422 schema_validation_failed
upload_failure invalid_cedent_data = http 400 invalid_data
upload_failure slm_unavailable = http 503 slm_down
upload_failure invalid_correction = http 422 correction_refused
upload_failure e = if is_value_error e then http 400 invalid_sheet else http 500 internal_error

-- `_validate_file`: `splitext` of the name, in lower case, and the size in bytes.
unfoldable pub validate_file : String → ℕ → Reply (Unit {0})
validate_file extension size = do
  require (contains extension (".csv" ∷ ".xlsx" ∷ ".xls" ∷ [])) 400 plain
  require (leb size 10485760) 400 plain

-- `SchemaStorePort`, by what the routes use.
pub record SchemaStore (W : Type 0) : Type 0 where
  pub save : TargetSchema → Exec W (Unit {0})
  pub delete : String → Exec W (Unit {0})

-- The state of the router, over the services `S`: `_registry`, `_definitions`, `_builtins`, and the
-- world of the store.
pub record Router (W S : Type 0) : Type 0 where
  pub default : S
  pub registry : Dict S
  pub definitions : Dict TargetSchema
  pub builtins : List String
  pub world : W

-- A value of a dict, or 404.
unfoldable pub known : {A : Type 0} → Option A → Reply A
known none = failure (http 404 schema_not_found)
known (some s) = reply s

-- `if _factory: _registry[schema.name] = _factory(schema)`; the factory may raise.
abbrev pub put_made : {S : Type 0} → String → Dict S → Result S → Result (Dict S)
put_made name d (ok s) = ok (put name s d)
put_made name d (raise e) = raise e

abbrev pub register :
    {S : Type 0} → Option (TargetSchema → Result S) → TargetSchema → Dict S → Result (Dict S)
register none schema d = ok d
register (some factory) schema d = put_made schema.name d (factory schema)

abbrev pub save_to : {W : Type 0} → Option (SchemaStore W) → TargetSchema → Exec W (Unit {0})
save_to none schema w = (ok tt, w)
save_to (some store) schema w = store.save schema w

abbrev pub delete_from : {W : Type 0} → Option (SchemaStore W) → String → Exec W (Unit {0})
delete_from none name w = (ok tt, w)
delete_from (some store) name w = store.delete name w

module _ {W S : Type 0} where
  -- `_resolve_service`
  unfoldable pub resolve_service : Option String → Router W S → Reply S
  unfolding validate_schema_name known
  resolve_service none r = reply r.default
  resolve_service (some name) r =
      if is_blank name
      then reply r.default
      else (validate_schema_name name >> known (get name r.registry))

  -- `get_schema`
  unfoldable pub get_schema : String → Router W S → Reply TargetSchema
  unfolding validate_schema_name known
  get_schema name r = do validate_schema_name name; known (get name r.definitions)

  abbrev pub is_registered : String → Router W S → Bool
  is_registered name r = is_some (get name r.registry) || is_some (get name r.definitions)

  -- A check that fails leaves the state as it is.
  abbrev pub after :
      Reply (Unit {0})
      → (Router W S → Reply (Unit {0}) × Router W S)
      → Router W S
      → Reply (Unit {0}) × Router W S
  after (reply _) f r = f r
  after (failure e) f r = (failure e, r)

  -- A call of the store, and then the new state; an exception keeps the other one.
  abbrev pub stored :
      Router W S → Router W S → Result (Unit {0}) × W → Reply (Unit {0}) × Router W S
  stored before then_state (ok _, w) = (reply tt, record then_state { world = w })
  stored before then_state (raise e, w) = (failure (uncaught e), record before { world = w })

  abbrev pub create_checks : TargetSchema → Router W S → Reply (Unit {0})
  create_checks schema r = do
    validate_schema_name schema.name
    require (not (is_registered schema.name r)) 409 schema_already_exists

  abbrev pub created : TargetSchema → Router W S → Result (Dict S) → Reply (Unit {0}) × Router W S
  created schema r (raise e) = (failure (uncaught e), r)
  created schema r (ok registry) = (
    reply tt,
    record r { registry = registry; definitions = put schema.name schema r.definitions },
  )

  -- What follows the call of the store: the schema stays saved if the factory raises.
  abbrev pub create_saved :
      Option (TargetSchema → Result S)
      → TargetSchema
      → Router W S
      → Result (Unit {0}) × W
      → Reply (Unit {0}) × Router W S
  create_saved factory schema r (raise e, w) = (failure (uncaught e), record r { world = w })
  create_saved factory schema r (ok _, w) =
      created schema (record r { world = w }) (register factory schema r.registry)

  abbrev pub delete_checks : String → Router W S → Reply (Unit {0})
  delete_checks name r = do
    validate_schema_name name
    require (not (contains name r.builtins)) 403 protected_schema
    require (is_registered name r) 404 schema_not_found

  abbrev pub popped : String → Router W S → Router W S
  popped name r = record r {
    registry = remove name r.registry;
    definitions = remove name r.definitions;
  }

  module _ (store : Option (SchemaStore W)) where
    -- `create_schema` of a body that is not empty, by what `model_validate` makes of it.
    unfoldable pub create_schema :
        Option (TargetSchema → Result S)
        → Option TargetSchema
        → Router W S
        → Reply (Unit {0}) × Router W S
    create_schema factory none r = (failure (http 422 invalid_schema), r)
    create_schema factory (some schema) r =
        after (create_checks schema r)
          (λ r. create_saved factory schema r (save_to store schema r.world)) r

    -- `delete_schema`: what is popped stays so, even if the store then raises.
    unfoldable pub delete_schema : String → Router W S → Reply (Unit {0}) × Router W S
    delete_schema name r =
        after (delete_checks name r)
          (λ r. stored (popped name r) (popped name r) (delete_from store name r.world)) r
