-- ===== src/DateFormat.antt =====
-- domain/model/date_format.py: the date format of a column, and parsing by it. `dateutil` is the
-- third-party parser with `dayfirst=True`; `none` stands for the two exceptions that the code
-- catches. A text is the list of its code points.
pub mod Calendar
pub mod Agreement
pub mod Column
use riskflow.Prelude.{
  ℕ, zero, suc, ◌+◌, ◌-◌, ◌≡◌, refl, Bool, true, false, ◌&&◌, ◌||◌, List, [], ◌∷◌, Option, none,
  some, String, all, keep, leb, eqb, not, is_some, if◌then◌else◌,
}
use riskflow.Errors.{value_error, empty_date, unparsed_date, Result, ok, raise, ◌>>=◌, ◌>>◌, guard}
use riskflow.Schema.{is_empty}
use riskflow.Text.{codes, is_blank, strip, digit_value, number, split}
use riskflow.Value.{Date}
use riskflow.DateFormat.Calendar.{make_date, from_iso}

pub data Format : Type 0 where
  iso yyyy_slash named_month dayfirst : Format

-- `$`: the end, or a line feed at the end.
unfoldable pub at_end : List ℕ → Bool
at_end [] = true
at_end (c ∷ []) = eqb c 10
at_end (c ∷ d ∷ s) = false

-- `\d{n}`, then the rest of the pattern.
pub digits : ℕ → (List ℕ → Bool) → List ℕ → Bool
digits zero next s = next s
digits (suc n) next [] = false
digits (suc n) next (c ∷ s) = is_some (digit_value c) && digits n next s

-- One character, then the rest of the pattern.
pub literal : ℕ → (List ℕ → Bool) → List ℕ → Bool
literal p next [] = false
literal p next (c ∷ s) = eqb c p && next s

-- `\d{1,2}`: two digits, or else one, then the rest of the pattern.
pub one_or_two : (List ℕ → Bool) → List ℕ → Bool
unfolding digits
one_or_two next s = digits 2 next s || digits 1 next s

-- `^\d{4}-\d{2}-\d{2}$`
unfoldable pub iso_pattern : List ℕ → Bool
unfolding digits literal at_end
iso_pattern = digits 4 (literal b'-' (digits 2 (literal b'-' (digits 2 at_end))))

-- `^\d{4}/\d{1,2}/\d{1,2}$`
unfoldable pub yyyy_slash_pattern : List ℕ → Bool
unfolding digits literal one_or_two at_end
yyyy_slash_pattern = digits 4 (literal b'/' (one_or_two (literal b'/' (one_or_two at_end))))

-- `^\d{1,2}/\d{1,2}/\d{4}$`
unfoldable pub dayfirst_slash_pattern : List ℕ → Bool
unfolding digits literal one_or_two at_end
dayfirst_slash_pattern = one_or_two (literal b'/' (one_or_two (literal b'/' (digits 4 at_end))))

-- Under IGNORECASE a lower-case ASCII letter stands for its capital, and "i", "s" and "k" for
-- dotted and dotless i, long s and the Kelvin sign.
fold_case : ℕ → ℕ
fold_case c =
    if leb b'A' c && leb c b'Z'
    then c + 32
    else if eqb c 304 || eqb c 305
    then b'i'
    else if eqb c 383
    then b's'
    else if eqb c 8490
    then b'k'
    else c

begins : List ℕ → List ℕ → Bool
unfolding fold_case
begins [] s = true
begins (p ∷ ps) [] = false
begins (p ∷ ps) (c ∷ s) = eqb (fold_case c) p && begins ps s

month_names : List String
month_names =
    "jan" ∷ "feb" ∷ "mar" ∷ "apr" ∷ "may" ∷ "jun" ∷ "jul" ∷ "aug" ∷ "sep" ∷ "oct" ∷ "nov" ∷ "dec"
    ∷ "january" ∷ "february" ∷ "march" ∷ "april" ∷ "june" ∷ "july" ∷ "august" ∷ "september"
    ∷ "october" ∷ "november" ∷ "december" ∷ []

begins_any : List String → List ℕ → Bool
unfolding begins
begins_any [] s = false
begins_any (n ∷ ns) s = begins (codes n) s || begins_any ns s

-- `_MONTH_NAME_RE.search`
unfoldable pub has_month_name : List ℕ → Bool
unfolding begins_any month_names
has_month_name [] = begins_any month_names []
has_month_name (c ∷ s) = begins_any month_names (c ∷ s) || has_month_name s

-- `[v.strip() for v in values if v.strip()]`
unfoldable pub stripped : List String → List (List ℕ)
stripped [] = []
stripped (v ∷ vs) = let rest = stripped vs in if is_blank v then rest else codes (strip v) ∷ rest

first_format : List (List ℕ) → Option Format
first_format vs =
    if is_empty vs
    then none
    else if all iso_pattern vs
    then some iso
    else if all yyyy_slash_pattern vs
    then some yyyy_slash
    else if all has_month_name vs
    then some named_month
    else if all dayfirst_slash_pattern vs
    then some dayfirst
    else none

unfoldable pub detect_date_format : List String → Option Format
unfolding first_format stripped
detect_date_format values = first_format (stripped values)

-- `datetime.date(int(parts[0]), int(parts[1]), int(parts[2]))`
date_of_parts : List (List ℕ) → Option Date
date_of_parts (y ∷ m ∷ d ∷ _) = elim (number y) [
  | none ↦ none
  | some year ↦ elim (number m) [
    | none ↦ none
    | some month ↦ elim (number d) [ none ↦ none | some day ↦ make_date year month day ]
  ]
]
date_of_parts _ = none

-- The match of the pattern and the date of its parts; `none` if either fails.
unfoldable pub slash_date : List ℕ → Option Date
unfolding date_of_parts
slash_date s = if yyyy_slash_pattern s then date_of_parts (split b'/' s) else none

abbrev pub parsed_or_raise : Option Date → Result Date
parsed_or_raise none = raise (value_error unparsed_date)
parsed_or_raise (some d) = ok d

abbrev pub or_else {ℓ} : {A : Type ℓ} → Option A → Option A → Option A
or_else none b = b
or_else (some a) b = some a

module _ (dateutil : List ℕ → Option Date) where
  unfoldable pub parse_stripped : List ℕ → Option Format → Result Date
  parse_stripped s (some iso) = parsed_or_raise (from_iso s)
  parse_stripped s (some yyyy_slash) = parsed_or_raise (slash_date s)
  parse_stripped s (some named_month) = parsed_or_raise (dateutil s)
  parse_stripped s (some dayfirst) = parsed_or_raise (dateutil s)
  parse_stripped s none =
      parsed_or_raise (or_else (from_iso s) (or_else (slash_date s) (dateutil s)))

  unfoldable pub parse_date : String → Option Format → Result Date
  unfolding parse_stripped
  parse_date value hint = do
    guard (not (is_blank value)) (value_error empty_date)
    parse_stripped (codes (strip value)) hint

detect_test : detect_date_format ("2024/1/05" ∷ " " ∷ "2023/12/31 " ∷ []) ≡ some yyyy_slash
unfolding detect_date_format strip is_blank yyyy_slash_pattern iso_pattern digit_value
detect_test = refl

detect_month_test : detect_date_format ("1-JAN-24" ∷ "3 march 2024" ∷ []) ≡ some named_month
unfolding detect_date_format strip is_blank yyyy_slash_pattern iso_pattern digit_value
    has_month_name
detect_month_test = refl

parse_test :
    parse_date (λ s. none) "2024/1/05" (some yyyy_slash)
    ≡ ok (record { year = 2024; month = 1; day = 5 })
unfolding parse_date strip is_blank slash_date yyyy_slash_pattern digit_value number split make_date
parse_test = refl
