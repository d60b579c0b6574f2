-- ===== src/MappingService/Rows.antt =====
-- What becomes of the rows of a file in `_validate_rows` of domain/service/mapping_service.py.
use mathlib.Core.Path.{ap₂}
use riskflow.Prelude.{
  ap, sym, Bool, false, not, map, keep, ℕ, suc, ◌≡◌, ◌↔◌, refl, inl, inr, true, List, [], ◌∷◌,
  arith, All, if◌then◌else◌, Bool-cases,
}
use riskflow.Prelude.Dict.{keys}
use riskflow.Errors.{is_value_error, Result, ok, raise, ◌>>=◌, >>=-eq-ok}
use riskflow.Ports.{Frame}
use riskflow.RecordFactory.{RecordModel, build_model, model_validate}
use riskflow.RecordFactory.Sound.{RecordHolds, model_validate-RecordHolds}
use riskflow.Schema.{MappingResult, from_mapping_result}
use riskflow.Value.{Row}
use riskflow.MappingService.{
  ProcessingResult, Libraries, MappingService, Partition, is_caught, add_row, validate_each,
  rename_map, present_only,
}
use riskflow.MappingService.Operations.{validate_frame, rows_of, processing_result}

abbrev is_accepted : Result Row → Bool
is_accepted (ok r) = true
is_accepted (raise e) = false

-- The positions of the rows that pass a test, from `i` on.
abbrev positions : (Row → Bool) → ℕ → List Row → List ℕ
positions p i [] = []
positions p i (r ∷ rs) = if p r then i ∷ positions p (suc i) rs else positions p (suc i) rs

-- What the record model of a row's schema makes of it, for a list of rows.
module _ (validate : Row → Result Row) where
  abbrev pub accepts : Row → Bool
  accepts r = is_accepted (validate r)

  abbrev pub refuses : Row → Bool
  refuses r = not (accepts r)

  -- Each row is accounted for in its place: the valid records are those of the accepted rows, in
  -- order; the rejected rows are the others, in order, each beside an error with its number from
  -- `i + 1` on and the exception that it was refused with, which is a `ValueError`.
  pub record IsAccountOf (i : ℕ) (rows : List Row) (p : Partition) : Type 0 where
    pub records : map (λ r. Result.ok r) p.valid ≡ map validate (keep accepts rows)
    pub rejected : p.invalid ≡ keep refuses rows
    pub numbered : map (λ e. e.row) p.errors ≡ positions refuses (suc i) rows
    pub reasons : map (λ e. Result.raise e.error) p.errors ≡ map validate (keep refuses rows)
    pub caught : All (λ e. is_value_error e.error ≡ true) p.errors

module _ (lib : Libraries) (model : RecordModel) where
  validate_each-cons :
      (i : ℕ) (row : Row) (rows : List Row) (outcome : Result Row) (rest : Result Partition)
      (p : Partition)
      → (if is_caught outcome
          then (rest >>= λ p. ok (add_row lib (suc i) row outcome p))
          else (outcome >>= λ _. rest))
        ≡ ok p
      → (q : Partition) × (rest ≡ ok q)
        × (is_caught outcome ≡ true)
        × (p ≡ add_row lib (suc i) row outcome q)
  validate_each-cons i row rows (ok r) (ok q) p e = (q, refl, refl, ground arith)
  validate_each-cons i row rows (ok r) (raise x) p e = cc
  validate_each-cons i row rows (raise x) (ok q) p e = elim (Bool-cases (is_value_error x)) [
    | inl t ↦ (q, refl, t, ground arith)
    | inr f ↦ absurd (ground arith)
  ]
  validate_each-cons i row rows (raise x) (raise y) p e = absurd (ground arith)

  abbrev validate : Row → Result Row
  validate row = model_validate lib.pydantic lib.dateutil model row

  add_row-IsAccountOf :
      (i : ℕ) (row : Row) (rows : List Row) (outcome : Result Row) (q : Partition)
      → validate row ≡ outcome
      → is_caught outcome ≡ true
      → IsAccountOf validate (suc i) rows q
      → IsAccountOf validate i (row ∷ rows) (add_row lib (suc i) row outcome q)
  add_row-IsAccountOf i row rows (ok r) q made caught a = record {
    records = rw made (ap₂ (λ x xs. x ∷ xs) (sym made) a.records);
    rejected = rw made a.rejected;
    numbered = rw made a.numbered;
    reasons = rw made a.reasons;
    caught = a.caught;
  }
  add_row-IsAccountOf i row rows (raise x) q made caught a = record {
    records = rw made a.records;
    rejected = rw made (ap (λ rs. row ∷ rs) a.rejected);
    numbered = rw made (ap (λ ns. suc i ∷ ns) a.numbered);
    reasons = rw made (ap₂ (λ y ys. y ∷ ys) (sym made) a.reasons);
    caught = (caught, a.caught);
  }

  validate_each-IsAccountOf :
      (i : ℕ) (rows : List Row) (p : Partition)
      → validate_each lib model i rows ≡ ok p
      → IsAccountOf validate i rows p
  unfolding validate_each
  validate_each-IsAccountOf i [] p e =
      let same : p ≡ record { valid = []; invalid = []; errors = [] } = ground arith in
      rw same
        (record { records = refl; rejected = refl; numbered = refl; reasons = refl; caught = tt })
  validate_each-IsAccountOf i (row ∷ rows) p e =
      let (q, rest, caught, same) =
        validate_each-cons i row rows (validate row) (validate_each lib model (suc i) rows) p e in
      rw same (
        add_row-IsAccountOf i row rows (validate row) q refl caught
          (validate_each-IsAccountOf (suc i) rows q rest))

  -- Records that rows are accepted with meet the schema.
  records-RecordHolds :
      (rs rows : List Row)
      → map (λ r. Result.ok r) rs ≡ map validate rows
      → All (λ r. RecordHolds model.definitions r) rs
  records-RecordHolds [] rows h = tt
  records-RecordHolds (r ∷ rs) [] h = absurd (ground arith)
  records-RecordHolds (r ∷ rs) (row ∷ rows) h = (
    model_validate-RecordHolds lib.pydantic lib.dateutil model row r (ground (arith, h)),
    records-RecordHolds rs rows (ground (arith, h)),
  )

  -- The loop returns exactly when every row is accepted or refused with a `ValueError`: any other
  -- exception of one row loses the results of all of them.
  pub validate_each_iff :
      (i : ℕ) (rows : List Row)
      → ((p : Partition) × (validate_each lib model i rows ≡ ok p))
        ↔ All (λ row. is_caught (model_validate lib.pydantic lib.dateutil model row) ≡ true) rows
  unfolding validate_each
  validate_each_iff i rows = (returns i rows, accepted i rows)
    where
      returns :
          (i : ℕ) (rows : List Row)
          → (p : Partition) × (validate_each lib model i rows ≡ ok p)
          → All (λ row. is_caught (model_validate lib.pydantic lib.dateutil model row) ≡ true) rows
      returns i [] h = tt
      returns i (row ∷ rows) (p, e) =
          let (q, rest, caught, same) =
            validate_each-cons i row rows _ (validate_each lib model (suc i) rows) p e in
          (caught, returns (suc i) rows (q, rest))

      accepted :
          (i : ℕ) (rows : List Row)
          → All (λ row. is_caught (model_validate lib.pydantic lib.dateutil model row) ≡ true) rows
          → (p : Partition) × (validate_each lib model i rows ≡ ok p)
      accepted i [] h = (_, refl)
      accepted i (row ∷ rows) (caught, h) =
          let (q, rest) = accepted (suc i) rows h in
          (
            add_row lib (suc i) row (model_validate lib.pydantic lib.dateutil model row) q,
            ground arith,
          )

module _ {W : Type 0} (lib : Libraries) (s : MappingService W) where
  abbrev pub lists_of : ProcessingResult → Partition
  lists_of r = record { valid = r.valid_records; invalid = r.invalid_records; errors = r.errors }

  -- The result accounts for the rows of a frame, each with its dates converted, by what the record
  -- model of the schema makes of them, and its records meet the schema.
  pub record IsResultOf (mapping : MappingResult) (df : Frame) (r : ProcessingResult) : Type 0 where
    pub same_mapping : r.mapping ≡ mapping
    pub account :
        IsAccountOf
          (λ row. model_validate lib.pydantic lib.dateutil (build_model s.schema) row)
          0
          (rows_of lib s.schema df (s.polars.to_dicts df))
          (lists_of r)
    pub held : All (λ x. RecordHolds (build_model s.schema).definitions x) r.valid_records

  processing_result-lists_of :
      (mapping : MappingResult) (p : Partition) (r : ProcessingResult)
      → processing_result s mapping p ≡ ok r
      → (r.mapping ≡ mapping) × (lists_of r ≡ p)
  unfolding processing_result from_mapping_result
  processing_result-lists_of mapping p r e = ground arith

  -- A result of `_validate_rows` keeps its mapping and accounts, in order, for every row of the
  -- renamed frame once: its valid records are what the record model makes of the rows that it
  -- accepts, and each meets the schema; its invalid records are the other rows, each beside an error
  -- with the row's number from 1 on and the `ValueError` that the row was refused with.
  pub validate_frame-IsResultOf :
      (mapping : MappingResult) (df : Frame) (r : ProcessingResult)
      → validate_frame lib s mapping df ≡ ok r
      → (renamed : Frame) × (s.polars.rename
            (present_only (keys df.columns) (rename_map mapping.mappings))
            df
          ≡ ok renamed)
        × IsResultOf mapping renamed r
  unfolding validate_frame
  validate_frame-IsResultOf mapping df r e =
      let (renamed, read, rest) = >>=-eq-ok (s.polars.rename _ df) _ e in
      let (p, each, last) = >>=-eq-ok (validate_each lib _ 0 _) _ rest in
      let a = validate_each-IsAccountOf lib (build_model s.schema) 0 _ p each in
      let (mapped, lists) = processing_result-lists_of mapping p r last in
      let valid : r.valid_records ≡ p.valid = ap (λ x. x.valid) lists in
      (
        renamed,
        read,
        record {
          same_mapping = mapped;
          account = rw lists a;
          held = rw valid (records-RecordHolds lib (build_model s.schema) p.valid _ a.records);
        },
      )
