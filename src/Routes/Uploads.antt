-- ===== src/Routes/Uploads.antt =====
-- The handlers `upload_file` and `submit_corrections` of adapters/http/routes.py.
pub mod Answers
pub mod Corrections
use riskflow.Prelude.{
  ℕ, ◌≡◌, refl, ap, ◌++◌, false, not, List, [], ◌∷◌, Option, String, arith, length, contains,
}
use riskflow.Correction.{Correction, correction}
use riskflow.Errors.{Exception, Result, ok, raise, invalid_correction}
use riskflow.Exec.{Exec, lift}
use riskflow.Jobs.{Files, clean_up, IsRemoving, clean_up-removed}
use riskflow.MappingService.{MappingService, Libraries, ProcessingResult}
use riskflow.MappingService.Operations.{process_file, store_correction}
use riskflow.Schema.{is_empty}
use riskflow.TargetSchema.{field_names}
use riskflow.Text.{is_blank}
use riskflow.Routes.{
  Reply, reply, failure, Failure, http, uncaught, invalid_data, correction_refused, Router,
  ◌>>◌ as then_do, require, validate_file, resolve_service, upload_failure,
}

-- The answer to an upload, by how the service ends.
abbrev pub answer : Result ProcessingResult → Reply ProcessingResult
answer (ok r) = reply r
answer (raise e) = failure (upload_failure e)

-- The `finally` clause: an exception of its own takes the place of the answer.
abbrev pub finally : {W A : Type 0} → Reply A → Result (Unit {0}) × W → Reply A × W
finally a (ok _, w) = (a, w)
finally a (raise e, w) = (failure (uncaught e), w)

module _ {W : Type 0} (lib : Libraries) (files : Files W) (save_temp_file : Exec W String) where
  -- The part of the handler after the temporary file is there.
  unfoldable pub process_saved :
      MappingService W
      → Option String
      → Option String
      → Result String × W
      → Reply ProcessingResult × W
  process_saved s sheet cedent (raise e, w) = (failure (uncaught e), w)
  process_saved s sheet cedent (ok path, w) =
      let (r, v) = process_file lib s path sheet cedent w in
      finally (answer r) (clean_up files path v)

  abbrev pub with_service :
      Option String → Option String → Reply (MappingService W) → W → Reply ProcessingResult × W
  with_service sheet cedent (failure e) w = (failure e, w)
  with_service sheet cedent (reply s) w = process_saved s sheet cedent (save_temp_file w)

  -- `upload_file`, by the extension and the size of the file.
  unfoldable pub upload_file :
      Router W (MappingService W)
      → String
      → ℕ
      → Option String
      → Option String
      → Option String
      → W
      → Reply ProcessingResult × W
  unfolding process_saved
  upload_file router extension size sheet cedent schema =
      with_service sheet cedent
        (then_do (validate_file extension size) (resolve_service schema router))

-- The items of a request to store corrections, by header and field.
module _ {W : Type 0} (s : MappingService W) where
  abbrev pub refused : Exception → Failure
  refused invalid_correction = http 422 correction_refused
  refused e = uncaught e

  -- One round of the loop; the corrections before it stay stored.
  unfoldable pub store_item : Result Correction → W → Reply (Unit {0}) × W
  store_item (raise e) w = (failure (uncaught e), w)
  store_item (ok c) w =
      let (r, v) = store_correction s c w in
      (elim r [ ok _ ↦ reply tt | raise e ↦ failure (refused e) ], v)

  abbrev pub and_then : {A B : Type 0} → Reply A × W → (W → Reply B × W) → Reply B × W
  and_then (reply a, w) k = k w
  and_then (failure e, w) k = (failure e, w)

  unfoldable pub store_items : String → List (String × String) → W → Reply (Unit {0}) × W
  unfolding store_item
  store_items cedent [] w = (reply tt, w)
  store_items cedent ((h, t) ∷ items) w =
      and_then (store_item (correction cedent h t) w) (store_items cedent items)

  abbrev pub checked : {A : Type 0} → Reply (Unit {0}) → (W → Reply A × W) → W → Reply A × W
  checked (reply _) k w = k w
  checked (failure e) k w = (failure e, w)

  -- `submit_corrections`
  unfoldable pub submit_corrections : String → List (String × String) → W → Reply ℕ × W
  unfolding store_items
  submit_corrections cedent items =
      checked
        (then_do (require (not (is_blank cedent)) 400 invalid_data)
          (require (not (is_empty items)) 400 invalid_data))
        (λ w. and_then (store_items cedent items w) (λ v. (reply (length items), v)))
