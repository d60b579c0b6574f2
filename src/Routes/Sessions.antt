-- ===== src/Routes/Sessions.antt =====
-- The session handlers of adapters/http/routes.py: read, edit, finalise and delete.
-- The handlers that make and delete one are in Create.
pub mod Finalised
pub mod Create
pub mod Names
use riskflow.Prelude.{
  ℕ, ◌≡◌, refl, Bool, true, false, not, List, [], ◌∷◌, Option, none, some, String, arith,
  if◌then◌else◌, Bool-cases, inl, inr,
}
use riskflow.Errors.{Exception, Result, ok, raise, is_unreadable, is_value_error}
use riskflow.Exec.{Exec}
use riskflow.Jobs.{Files}
use riskflow.MappingService.{MappingService, Libraries, ProcessingResult}
use riskflow.MappingService.Operations.{validate_rows_with_mapping}
use riskflow.Schema.{ColumnMapping, MappingResult, mapping_result}
use riskflow.Session.{
  MappingSession, SessionStatus, created, finalised, is_created, update_mappings,
  extend_target_fields, finalise,
}
use riskflow.Routes.{
  Reply, reply, failure, Failure, http, uncaught, ErrorCode, plain, invalid_mapping, invalid_fields,
  internal_error, Router, resolve_service,
}

-- `MappingSessionStorePort`
pub record SessionStore (W R : Type 0) : Type 0 where
  pub save : MappingSession R → Exec W (Unit {0})
  pub find : String → Exec W (Option (MappingSession R))
  pub delete : String → Exec W (Unit {0})

module _ {W R : Type 0} (store : SessionStore W R) where
  -- The session of an id, or 404.
  abbrev pub on_found :
      {A : Type 0}
      → Result (Option (MappingSession R)) × W
      → (MappingSession R → W → Reply A × W)
      → Reply A × W
  on_found (raise e, w) k = (failure (uncaught e), w)
  on_found (ok none, w) k = (failure (http 404 plain), w)
  on_found (ok (some s), w) k = k s w

  abbrev pub saved : MappingSession R → Result (Unit {0}) × W → Reply (MappingSession R) × W
  saved s (ok _, w) = (reply s, w)
  saved s (raise e, w) = (failure (uncaught e), w)

  -- A method of the session is called, and the session is saved unless it raises.
  abbrev pub edited :
      (Exception → Failure) → Result (MappingSession R) → W → Reply (MappingSession R) × W
  edited refused (raise e) w = (failure (refused e), w)
  edited refused (ok s) w = saved s (store.save s w)

  -- `except (ValueError, TypeError)`, and `except ValueError`
  abbrev pub mapping_refused : Exception → Failure
  mapping_refused e = if is_unreadable e then http 422 invalid_mapping else uncaught e

  abbrev pub fields_refused : Exception → Failure
  fields_refused e = if is_value_error e then http 422 invalid_fields else uncaught e

  unfoldable pub get_session : String → W → Reply (MappingSession R) × W
  get_session id w = on_found (store.find id w) λ s v. (reply s, v)

  unfoldable pub update_session_mappings :
      String → List ColumnMapping → List String → W → Reply (MappingSession R) × W
  update_session_mappings id ms unmapped w =
      on_found (store.find id w) λ s. edited mapping_refused (update_mappings ms unmapped s)

  unfoldable pub extend_session_fields : String → List String → W → Reply (MappingSession R) × W
  extend_session_fields id fields w =
      on_found (store.find id w) λ s. edited fields_refused (extend_target_fields fields s)

  module _ (lib : Libraries) (router : Router W (MappingService W))
      (dump : ProcessingResult → R) where
    -- `session.finalise` is outside the `try`, and the session is saved with the result.
    unfoldable pub finalised_with :
        MappingSession R → Result ProcessingResult × W → Reply (MappingSession R) × W
    finalised_with s (raise e, w) = (failure (http 500 internal_error), w)
    finalised_with s (ok r, w) = edited uncaught (finalise (dump r) s) w

    unfoldable pub with_mapping :
        MappingSession R
        → MappingService W
        → Result MappingResult
        → W
        → Reply (MappingSession R) × W
    unfolding finalised_with
    with_mapping s service (raise e) w = (failure (uncaught e), w)
    with_mapping s service (ok m) w =
        finalised_with s (validate_rows_with_mapping lib service s.file_path s.sheet_name m w)

    unfoldable pub with_resolved :
        MappingSession R → Reply (MappingService W) → W → Reply (MappingSession R) × W
    unfolding with_mapping
    with_resolved s (failure e) w = (failure e, w)
    with_resolved s (reply service) w =
        with_mapping s service (mapping_result s.mappings s.unmapped_headers) w

    unfoldable pub finalise_found : MappingSession R → W → Reply (MappingSession R) × W
    unfolding with_resolved
    finalise_found s w =
        if is_created s.status
        then with_resolved s (resolve_service (some s.schema_name) router) w
        else (failure (http 409 plain), w)

    unfoldable pub finalise_session : String → W → Reply (MappingSession R) × W
    unfolding finalise_found
    finalise_session id w = on_found (store.find id w) finalise_found
