-- ===== src/Routes/Listing.antt =====
-- The handlers `list_schemas` and `list_sheets` of adapters/http/routes.py.
use riskflow.Prelude.{
  ℕ, ◌≡◌, ◌↔◌, refl, ◌∙◌, true, false, List, Option, none, some, String, arith, contains, is_some,
  Option-cases, inl, inr,
}
use riskflow.Prelude.Dict.{get, keys, contains-keys}
use riskflow.Prelude.Sort.{sorted, contains-sorted}
use riskflow.Errors.{Result, ok, raise}
use riskflow.Exec.{Exec}
use riskflow.Jobs.{Files, clean_up, IsRemoving, clean_up-removed}
use riskflow.MappingService.{MappingService}
use riskflow.MappingService.Operations.{get_sheet_names}
use riskflow.Text.{codes, is_blank}
use riskflow.Routes.{
  Reply, reply, failure, http, uncaught, Router, validate_file, validate_schema_name,
  resolve_service, is_schema_name, known, schema_not_found,
}
use riskflow.Routes.Uploads.{finally}

-- `list_schemas`
unfoldable pub list_schemas : {W S : Type 0} → Router W S → List String
list_schemas r = sorted (keys r.registry)

-- A name that passes the check for schema names and is not blank is listed exactly when a request
-- with it finds a service; otherwise the request is answered with 404.
pub list_schemas-resolve_service :
    {W S : Type 0} (r : Router W S) (name : String)
    → is_schema_name (codes name) ≡ true
    → is_blank name ≡ false
    → ((contains name (list_schemas r) ≡ true)
        ↔ ((s : S) × (resolve_service (some name) r ≡ reply s)))
      × ((contains name (list_schemas r) ≡ false)
          → resolve_service (some name) r ≡ failure (http 404 schema_not_found))
unfolding list_schemas known
list_schemas-resolve_service {S = S} r name valid visible =
    elim (Option-cases (get name r.registry)) [
      | inl missing ↦
          let refused : resolve_service (some name) r ≡ failure (http 404 schema_not_found) =
            resolved none missing in
          (
            (λ h. absurd (ground (arith, listed)), λ (s, h). absurd (ground (arith, refused))),
            λ h. refused,
          )
      | inr (s, held) ↦ (
        (λ h. (s, resolved (some s) held), λ h. ground (arith, listed)),
        λ h. absurd (ground (arith, listed)),
      )
    ]
  where
    listed : contains name (sorted (keys r.registry)) ≡ is_some (get name r.registry)
    listed = contains-sorted name (keys r.registry) ∙ contains-keys name r.registry

    resolved : (o : Option S) → get name r.registry ≡ o → resolve_service (some name) r ≡ known o
    resolved o e = unfold resolve_service validate_schema_name in rw (visible, valid, e) refl

module _ {W : Type 0} (files : Files W) (save_temp_file : Exec W String) where
  abbrev pub sheets : Result (List String) → Reply (List String)
  sheets (ok names) = reply names
  sheets (raise e) = failure (uncaught e)

  abbrev pub sheets_saved : MappingService W → Result String × W → Reply (List String) × W
  sheets_saved s (raise e, w) = (failure (uncaught e), w)
  sheets_saved s (ok path, w) =
      let (r, v) = get_sheet_names s path w in
      finally {A = List String} (sheets r) (clean_up files path v)

  abbrev pub valid_upload : MappingService W → Reply (Unit {0}) → W → Reply (List String) × W
  valid_upload s (failure e) w = (failure e, w)
  valid_upload s (reply _) w = sheets_saved s (save_temp_file w)

  -- `list_sheets`, by the extension and the size of the file; the service is the default one.
  unfoldable pub list_sheets : MappingService W → String → ℕ → W → Reply (List String) × W
  list_sheets s extension size w = valid_upload s (validate_file extension size) w

  -- The temporary file of a request for the sheets is gone afterwards, whether the names are read or
  -- an exception is raised.
  pub list_sheets-removed :
      IsRemoving files
      → (s : MappingService W) (extension : String) (size : ℕ) (path : String) (w v v' : W)
        (r : Result (List String))
      → validate_file extension size ≡ reply tt
      → save_temp_file w ≡ (ok path, v)
      → s.ingestor.get_sheet_names path v ≡ (r, v')
      → (u : W) × (list_sheets s extension size w ≡ (sheets r, u)) × (files.exists path u ≡ false)
  unfolding list_sheets
  list_sheets-removed removing s extension size path w v v' r valid saved named =
      let (u, cleaned, gone) = clean_up-removed files removing path v' in
      (u, rw valid (rw saved (rw named (rw cleaned refl))), gone)
