-- ===== src/Routes/Sessions/Create.antt =====
-- The handlers `create_session` and `delete_session` of adapters/http/routes.py.
use riskflow.Prelude.{
  ℕ, ◌≡◌, refl, Bool, false, List, [], ◌∷◌, Option, none, some, String, if◌then◌else◌,
}
use riskflow.Prelude.Dict.{Dict, get}
use riskflow.Prelude.Sort.{sorted, distinct}
use riskflow.Errors.{
  Exception, Result, ok, raise, is_value_error, invalid_cedent_data, slm_unavailable, is_os_error,
}
use riskflow.Exec.{Exec, pure, ◌>>=◌, ◌>>◌}
use riskflow.Jobs.{Files, clean_up, IsRemoving, clean_up-removed}
use riskflow.MappingService.{MappingService}
use riskflow.MappingService.Operations.{get_headers, get_preview, suggest_mapping}
use riskflow.Session.{MappingSession, create}
use riskflow.Text.{is_blank}
use riskflow.TargetSchema.{TargetSchema, field_names}
use riskflow.Routes.{
  Reply, reply, failure, Failure, http, uncaught, invalid_data, slm_down, internal_error, Router,
  validate_file, resolve_service, ◌>>◌ as then_do,
}
use riskflow.Routes.Sessions.{SessionStore, on_found}

-- The status of a failed suggestion.
unfoldable pub create_failure : Exception → Failure
create_failure invalid_cedent_data = http 400 invalid_data
create_failure slm_unavailable = http 503 slm_down
create_failure e = if is_value_error e then http 400 invalid_data else http 500 internal_error

-- `sorted(schema_def.field_names) if schema_def else []`
unfoldable pub target_fields_of : Option TargetSchema → List String
target_fields_of none = []
target_fields_of (some s) = sorted (distinct (field_names s))

-- `next((name for name, svc in _registry.items() if svc is active_service), "default")`
unfoldable pub name_of : {S : Type 0} → (S → S → Bool) → S → Dict S → String
name_of same s [] = "default"
name_of same s ((n, t) ∷ d) = let rest = name_of same s d in if same t s then n else rest

-- The name that the session is given: a schema that is asked for, or the service's.
unfoldable pub schema_name_of : {S : Type 0} → (S → S → Bool) → Option String → S → Dict S → String
unfolding name_of
schema_name_of same none s d = name_of same s d
schema_name_of same (some name) s d = if is_blank name then name_of same s d else name

module _ {W R : Type 0} (files : Files W) (store : SessionStore W R) (uuid : String)
    (save_temp_file : Exec W String) where
  -- The body of the `try`.
  unfoldable pub suggest :
      MappingService W
      → Router W (MappingService W)
      → String
      → Option String
      → String
      → Exec W (MappingSession R)
  suggest s router schema_name sheet path = get_headers s path sheet >>= λ headers.
      get_preview s path sheet >>= λ preview. suggest_mapping s headers preview >>= λ m.
      let session : MappingSession R =
        create uuid schema_name path sheet headers
          (target_fields_of (get schema_name router.definitions)) m.mappings m.unmapped_headers
          preview in
      store.save session >> pure session

  -- The `except` clauses remove the file and answer.
  abbrev pub refused_file : Failure → Result (Unit {0}) × W → Reply (MappingSession R) × W
  refused_file f (ok _, w) = (failure f, w)
  refused_file f (raise e, w) = (failure (uncaught e), w)

  abbrev pub suggested : String → Result (MappingSession R) × W → Reply (MappingSession R) × W
  suggested path (ok q, w) = (reply q, w)
  suggested path (raise e, w) = refused_file (create_failure e) (clean_up files path w)

  abbrev pub with_file :
      MappingService W
      → Router W (MappingService W)
      → String
      → Option String
      → Result String × W
      → Reply (MappingSession R) × W
  with_file s router schema_name sheet (raise e, w) = (failure (uncaught e), w)
  with_file s router schema_name sheet (ok path, w) =
      suggested path (suggest s router schema_name sheet path w)

  abbrev pub with_service :
      (MappingService W → MappingService W → Bool)
      → Router W (MappingService W)
      → Option String
      → Option String
      → Reply (MappingService W)
      → W
      → Reply (MappingSession R) × W
  with_service same router schema sheet (failure e) w = (failure e, w)
  with_service same router schema sheet (reply s) w =
      with_file s router (schema_name_of same schema s router.registry) sheet (save_temp_file w)

  -- `create_session` of a file, by its extension and size; `same` is `is` on services.
  unfoldable pub create_session :
      (MappingService W → MappingService W → Bool)
      → Router W (MappingService W)
      → String
      → ℕ
      → Option String
      → Option String
      → W
      → Reply (MappingSession R) × W
  unfolding suggest schema_name_of
  create_session same router extension size sheet schema =
      with_service same router schema sheet
        (then_do (validate_file extension size) (resolve_service schema router))

  abbrev pub deleted : Result (Unit {0}) × W → Reply (Unit {0}) × W
  deleted (ok _, w) = (reply tt, w)
  deleted (raise e, w) = (failure (uncaught e), w)

  -- `except OSError` only logs.
  abbrev pub delete_cleaned : String → Result (Unit {0}) × W → Reply (Unit {0}) × W
  delete_cleaned id (ok _, w) = deleted (store.delete id w)
  delete_cleaned id (raise e, w) =
      if is_os_error e then deleted (store.delete id w) else (failure (uncaught e), w)

  unfoldable pub delete_session : String → W → Reply (Unit {0}) × W
  delete_session id w =
      on_found store (store.find id w) λ s v. delete_cleaned id (clean_up files s.file_path v)

  -- Where files can be removed, and the file passes its checks and is saved: if the suggestion of a
  -- session fails in any way, the answer has the status of the exception and the file is gone.
  pub create_session-refused :
      IsRemoving files
      → (same : MappingService W → MappingService W → Bool) (router : Router W (MappingService W))
        (extension : String) (size : ℕ) (sheet schema : Option String)
      → (s : MappingService W) (w v v' : W) (path : String) (e : Exception)
      → then_do (validate_file extension size) (resolve_service schema router) ≡ reply s
      → save_temp_file w ≡ (ok path, v)
      → suggest s router (schema_name_of same schema s router.registry) sheet path v ≡ (raise e, v')
      → (u : W) × (create_session same router extension size sheet schema w
          ≡ (failure (create_failure e), u))
        × (files.exists path u ≡ false)
  unfolding create_session
  create_session-refused removing same router extension size sheet schema s w v v' path e resolved
        saved failed =
      let (u, cleaned, gone) = clean_up-removed files removing path v' in
      (u, rw resolved (rw saved (rw failed (rw cleaned refl))), gone)
