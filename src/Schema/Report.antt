-- ===== src/Schema/Report.antt =====
-- What the confidence report says of a mapping.
use riskflow.Prelude.{
  ◌≡◌, refl, sym, ◌⊎◌, inl, inr, Bool, false, some, true, not, ◌&&◌, List, [], ◌∷◌, String, arith,
  ◌∙◌, keep, contains, All, eq_iff, if◌then◌else◌,
}
use riskflow.Prelude.Sort.{contains-sorted, contains-distinct}
use riskflow.Errors.{ok}
use riskflow.Float.{Float, lt, le, min_from}
use riskflow.Float.Order.{IsNumber, le_of_not-lt, le_of_lt, le_trans}
use riskflow.Schema.{
  ColumnMapping, targets, missing, confidences, ConfidenceReport, report_of, from_mapping_result,
}

abbrev AtLeast : Float → List Float → Type 0
AtLeast m = All (λ x. le m x ≡ true)

AtLeast-mono : (m n : Float) (xs : List Float) → le m n ≡ true → AtLeast n xs → AtLeast m xs
AtLeast-mono m n [] h k = tt
AtLeast-mono m n (x ∷ xs) h k = (le_trans m n x h k.0, AtLeast-mono m n xs h k.1)

abbrev smaller : Float → Float → Float
smaller x best = if lt x best then x else best

-- One round of the search for the minimum.
smaller-le :
    (x best : Float)
    → IsNumber x
    → IsNumber best
    → (le (smaller x best) best ≡ true) × (le (smaller x best) x ≡ true) × IsNumber (smaller x best)
smaller-le x best hx hb = ground (arith, le_of_lt x best, le_of_not-lt x best hx hb)

-- The minimum is at most the first value and all later ones.
min_from-AtLeast :
    (best : Float) (xs : List Float)
    → IsNumber best
    → All IsNumber xs
    → (le (min_from best xs) best ≡ true) × AtLeast (min_from best xs) xs
unfolding min_from
min_from-AtLeast best [] h k = (h, tt)
min_from-AtLeast best (x ∷ xs) h (kx, k) =
    let (at_best, at_x, number) = smaller-le x best kx h in
    let (below, rest) = min_from-AtLeast (smaller x best) xs number k in
    (le_trans _ _ best below at_best, (le_trans _ _ x below at_x, rest))

abbrev Among : Float → List Float → Type 0
Among m [] = ⊥
Among m (x ∷ xs) = (m ≡ x) ⊎ Among m xs

min_from-Among : (best : Float) (xs : List Float) → Among (min_from best xs) (best ∷ xs)
unfolding min_from
min_from-Among best [] = inl refl
min_from-Among best (x ∷ xs) = pick (lt x best) (min_from-Among x xs) (min_from-Among best xs)
  where
    pick :
        (b : Bool)
        → Among (min_from x xs) (x ∷ xs)
        → Among (min_from best xs) (best ∷ xs)
        → Among (min_from (if b then x else best) xs) (best ∷ x ∷ xs)
    pick true h k = inr h
    pick false h (inl k) = inl k
    pick false h (inr k) = inr (inr k)

-- The fields of the report that `from_mapping_result` returns for a mapping that is not empty:
-- its minimum is the least confidence, its low fields are the mappings below the threshold in their
-- order, and a field is missing exactly when it is a field of
-- the schema that no mapping has for its target.
pub record IsReportOf (ms : List ColumnMapping) (threshold : Float) (fields : List String)
    (r : ConfidenceReport) : Type 0 where
  pub attained : Among r.min_confidence (confidences ms)
  pub least : AtLeast r.min_confidence (confidences ms)
  pub low : r.low_confidence_fields ≡ keep (λ m. lt m.confidence threshold) ms
  pub absent :
      (f : String)
      → contains f r.missing_fields ≡ (contains f fields && not (contains f (targets ms)))

contains-keep :
    (f : String) (mapped fields : List String)
    → contains f (keep (λ g. not (contains g mapped)) fields)
      ≡ (contains f fields && not (contains f mapped))
contains-keep f mapped [] = refl
contains-keep f mapped (g ∷ gs) = ground (arith, contains-keep f mapped gs, eq_iff g f, same)
  where
    same : g ≡ f → contains g mapped ≡ contains f mapped
    same e = λ i. contains (e i) mapped

contains-missing :
    (f : String) (fields mapped : List String)
    → contains f (missing fields mapped) ≡ (contains f fields && not (contains f mapped))
unfolding missing
contains-missing f fields mapped =
    contains-sorted f _ ∙ contains-distinct f _ ∙ contains-keep f mapped fields

report_of-IsReportOf :
    (m : ColumnMapping) (ms : List ColumnMapping) (threshold : Float) (fields : List String)
    → All IsNumber (confidences (m ∷ ms))
    → IsReportOf (m ∷ ms) threshold fields (report_of (m ∷ ms) threshold fields)
unfolding report_of
report_of-IsReportOf m ms threshold fields (h, k) = record {
  attained = min_from-Among m.confidence (confidences ms);
  least = min_from-AtLeast m.confidence (confidences ms) h k;
  low = refl;
  absent = λ f. contains-missing f fields (targets (m ∷ ms));
}

-- The report on a mapping that is not empty and whose confidences are numbers has the least of them
-- for its minimum, the mappings below the threshold as its low fields, and as missing exactly the
-- fields of the schema that no mapping has for its target.
pub from_mapping_result-IsReportOf :
    (m : ColumnMapping) (ms : List ColumnMapping) (unmapped : List String) (threshold : Float)
    (fields : List String) (r : ConfidenceReport)
    → All IsNumber (confidences (m ∷ ms))
    → from_mapping_result
        (record { mappings = m ∷ ms; unmapped_headers = unmapped })
        threshold
        (some fields)
      ≡ ok r
    → IsReportOf (m ∷ ms) threshold fields r
unfolding from_mapping_result
from_mapping_result-IsReportOf m ms unmapped threshold fields r numbers h =
    let same : report_of (m ∷ ms) threshold fields ≡ r = cc h in
    rw (sym same) (report_of-IsReportOf m ms threshold fields numbers)
