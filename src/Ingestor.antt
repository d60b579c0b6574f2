-- ===== src/Ingestor.antt =====
-- adapters/parsers/ingestor.py: headers and preview rows of a spreadsheet. polars, openpyxl and the
-- file system are parameters.
use riskflow.Prelude.{
  ℕ, ◌≡◌, sym, ◌⊎◌, Bool, false, List, [], Option, none, some, String, arith, if◌then◌else◌,
  Bool-cases, inl, inr,
}
use riskflow.Prelude.Dict.{keys}
use riskflow.Errors.{
  Exception, value_error, bad_sheet, file_not_found, invalid_cedent_data, Result, ok, raise,
}
use riskflow.Exec.{Exec, pure, throw, catch, rescue, resume, ◌>>=◌, ◌>>◌}
use riskflow.Ports.{Frame, IngestorPort}
use riskflow.Text.{codes, ends_with}
use riskflow.Value.{Row}

-- The readers: `read_csv` with a number of rows, `read_excel`, `head`, `to_dicts`, the names of the
-- sheets, whether an exception is `NoDataError`, and whether its text tells of a missing sheet.
pub record Reader (W : Type 0) : Type 0 where
  pub exists : String → W → Bool
  pub read_csv : String → ℕ → Exec W Frame
  pub read_excel : String → Option String → Exec W Frame
  pub head : ℕ → Frame → Frame
  pub to_dicts : Frame → List Row
  pub sheet_names : String → Exec W (List String)
  pub is_no_data : Exception → Bool
  pub is_no_sheet : Exception → Bool

module _ {W : Type 0} (reader : Reader W) where
  is_csv : String → Bool
  is_csv path = ends_with (codes ".csv") (codes path)

  check_file_exists : String → Exec W (Unit {0})
  check_file_exists path w = if reader.exists path w then (ok tt, w) else (raise file_not_found, w)

  -- `_read_excel`
  unfoldable pub read_excel : String → Option String → Exec W Frame
  read_excel path none = reader.read_excel path none
  read_excel path (some sheet) =
      catch (reader.read_excel path (some sheet))
        (λ e. throw (if reader.is_no_sheet e then value_error bad_sheet else e))

  -- `except NoDataError`
  no_data : Exec W Frame → Exec W Frame
  no_data m = catch m (λ e. throw (if reader.is_no_data e then invalid_cedent_data else e))

  -- The frame whose columns, and the frame whose rows are returned.
  header_frame : String → Option String → Exec W Frame
  unfolding is_csv read_excel
  header_frame path sheet w =
      if is_csv path then reader.read_csv path 0 w else read_excel path sheet w

  head_of : ℕ → Exec W Frame → Exec W Frame
  head_of n m = m >>= λ df. pure (reader.head n df)

  preview_frame : ℕ → String → Option String → Exec W Frame
  unfolding is_csv read_excel head_of
  preview_frame n path sheet w =
      if is_csv path then reader.read_csv path n w else head_of n (read_excel path sheet) w

  checked_frame : String → Exec W Frame → Exec W Frame
  unfolding check_file_exists no_data
  checked_frame path m = check_file_exists path >> no_data m

  unfoldable pub get_headers : String → Option String → Exec W (List String)
  unfolding checked_frame header_frame
  get_headers path sheet =
      checked_frame path (header_frame path sheet) >>= λ df. pure (keys df.columns)

  -- `head` of an Excel sheet is taken after it is read.
  unfoldable pub get_preview : ℕ → String → Option String → Exec W (List Row)
  unfolding checked_frame preview_frame
  get_preview n path sheet =
      checked_frame path (preview_frame n path sheet) >>= λ df. pure (reader.to_dicts df)

  unfoldable pub get_sheet_names : String → Exec W (List String)
  unfolding is_csv check_file_exists
  get_sheet_names path =
      check_file_exists path >> (λ w. if is_csv path then (ok [], w) else reader.sheet_names path w)

  -- `PolarsIngestor`
  unfoldable pub polars_ingestor : IngestorPort W
  unfolding get_headers get_preview get_sheet_names
  polars_ingestor = record {
    get_headers = get_headers;
    get_preview = get_preview 5;
    get_sheet_names = get_sheet_names;
  }

  no_data-caught :
      reader.is_no_data invalid_cedent_data ≡ false
      → (m : Exec W Frame) (w w' : W) (e : Exception) → no_data m w ≡ (raise e, w')
      → reader.is_no_data e ≡ false
  unfolding no_data throw
  no_data-caught domain m w w' e h = caught (m w) h
    where
      split :
          (x : Exception)
          → reader.is_no_data (if reader.is_no_data x then invalid_cedent_data else x) ≡ false
      split x = elim (Bool-cases (reader.is_no_data x)) [
        | inl empty ↦ rw empty domain
        | inr other ↦ rw other other
      ]

      caught :
          (x : Result Frame × W)
          → rescue x.0
              (λ a w. (ok a, w))
              (λ e. throw (if reader.is_no_data e then invalid_cedent_data else e))
              x.1
            ≡ (raise e, w')
          → reader.is_no_data e ≡ false
      caught (ok a, v) p = absurd (ground arith)
      caught (raise x, v) p =
          let same : (if reader.is_no_data x then invalid_cedent_data else x) ≡ e = ground arith in
          rw (sym same) (split x)

  check-failure :
      (path : String) (w w' : W) (e : Exception) (A : Type 0) (k : Exec W A)
      → (check_file_exists path >> k) w ≡ (raise e, w')
      → (e ≡ file_not_found) ⊎ ((v : W) × (k v ≡ (raise e, w')))
  unfolding check_file_exists
  check-failure path w w' e A k h = elim (Bool-cases (reader.exists path w)) [
    | inl there ↦ inr (w, rw there at h)
    | inr gone ↦ inl (ground arith)
  ]

  pure-failure :
      {A B : Type 0} (m : Exec W A) (f : A → B) (w w' : W) (e : Exception)
      → (m >>= λ a. pure (f a)) w ≡ (raise e, w')
      → m w ≡ (raise e, w')
  unfolding pure
  pure-failure {A} {B} m f w w' e h = failed (m w) h
    where
      failed :
          (x : Result A × W)
          → resume x.0 (λ a w. (Result.ok (f a), w)) x.1 ≡ (raise e, w')
          → x ≡ (raise e, w')
      failed (ok a, v) p = absurd (ground arith)
      failed (raise y, v) p = ground arith

  read-failure :
      reader.is_no_data invalid_cedent_data ≡ false
      → reader.is_no_data file_not_found ≡ false
      → (path : String) (m : Exec W Frame) (w w' : W) (e : Exception)
      → checked_frame path m w ≡ (raise e, w')
      → reader.is_no_data e ≡ false
  unfolding checked_frame
  read-failure domain absent path m w w' e h =
      elim (check-failure path w w' e Frame (no_data m) h) [
        | inl missing ↦ rw missing absent
        | inr (v, failed) ↦ no_data-caught domain m v w' e failed
      ]

  -- If the ingestor's own exceptions are no `NoDataError`, then polars' `NoDataError` of an empty
  -- file never leaves the ingestor, whether it reads the headers or the preview.
  pub polars_ingestor-no_data :
      reader.is_no_data invalid_cedent_data ≡ false
      → reader.is_no_data file_not_found ≡ false
      → (path : String) (sheet : Option String) (w w' : W) (e : Exception)
      → (polars_ingestor.get_headers path sheet w ≡ (raise e, w'))
        ⊎ (polars_ingestor.get_preview path sheet w ≡ (raise e, w'))
      → reader.is_no_data e ≡ false
  unfolding polars_ingestor get_headers get_preview
  polars_ingestor-no_data domain absent path sheet w w' e (inl h) =
      let m = header_frame path sheet in
      read-failure domain absent path m w w' e
        (pure-failure (checked_frame path m) (λ df. keys df.columns) w w' e h)
  polars_ingestor-no_data domain absent path sheet w w' e (inr h) =
      let m = preview_frame 5 path sheet in
      read-failure domain absent path m w w' e
        (pure-failure (checked_frame path m) reader.to_dicts w w' e h)
