-- ===== src/DateFormat/Column.antt =====
-- What a detected format says of the values of a column.
use riskflow.Prelude.{
  ℕ, ◌≡◌, ◌≢◌, ap, Bool, true, false, List, [], ◌∷◌, Option, none, some, String, arith, all,
  contains, eq_iff, ◌==◌, Bool-cases, inl, inr,
}
use riskflow.Errors.{ok}
use riskflow.Text.{codes, is_blank, strip}
use riskflow.Value.{Date}
use riskflow.DateFormat.{
  Format, iso, yyyy_slash, named_month, dayfirst, stripped, detect_date_format, parse_date,
}
use riskflow.DateFormat.Agreement.{matches, parse_date_matching}

module _ (p : List ℕ → Bool) where
  all-stripped :
      (v : String) (vs : List String)
      → all p (stripped vs) ≡ true
      → contains v vs ≡ true
      → is_blank v ≡ false
      → p (codes (strip v)) ≡ true
  unfolding stripped
  all-stripped v [] h m b = absurd (ground arith)
  all-stripped v (w ∷ vs) h m b = elim (Bool-cases (w == v)) [
    | inl here ↦
        let same : w ≡ v = (eq_iff w v).0 here in
        ground (arith, ap is_blank same, ap (λ (t : String). p (codes (strip t))) same)
    | inr later ↦ all-stripped v vs (ground arith) (ground arith) b
  ]

all-matches :
    (f : Format) (vs : List String)
    → detect_date_format vs ≡ some f
    → all (matches f) (stripped vs) ≡ true
unfolding detect_date_format
all-matches iso vs e = ground arith
all-matches yyyy_slash vs e = ground arith
all-matches named_month vs e = ground arith
all-matches dayfirst vs e = ground arith

-- A detected format is the format of every value of the sample that is not blank.
pub detect_date_format-matches :
    (vs : List String) (f : Format) (v : String)
    → detect_date_format vs ≡ some f
    → contains v vs ≡ true
    → is_blank v ≡ false
    → matches f (codes (strip v)) ≡ true
detect_date_format-matches vs f v e m b = all-stripped (matches f) v vs (all-matches f vs e) m b

not_blank :
    (dateutil : List ℕ → Option Date) (v : String) (f : Format) (d : Date)
    → parse_date dateutil v (some f) ≡ ok d
    → is_blank v ≡ false
unfolding parse_date
not_blank dateutil v f d e = ground arith

-- Where the format detected for a column is ISO, year first or day first, a value of the sample
-- that parses by it has the same date when it is parsed with no hint.
pub parse_date_hint :
    (dateutil : List ℕ → Option Date) (vs : List String) (f : Format) (v : String) (d : Date)
    → f ≢ named_month
    → detect_date_format vs ≡ some f
    → contains v vs ≡ true
    → parse_date dateutil v (some f) ≡ ok d
    → parse_date dateutil v none ≡ ok d
parse_date_hint dateutil vs f v d h e m p =
    parse_date_matching dateutil v f d h
      (detect_date_format-matches vs f v e m (not_blank dateutil v f d p)) p
