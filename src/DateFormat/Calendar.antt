-- ===== src/DateFormat/Calendar.antt =====
-- `datetime.date` of the standard library: which dates exist, and `date.fromisoformat`.
pub mod Shape
use riskflow.Prelude.{
  ℕ, zero, suc, ◌+◌, ◌-◌, ◌*◌, ◌/◌, ◌%◌, ◌≤◌, ◌≡◌, refl, Bool, true, false, not, ◌&&◌, ◌||◌, List,
  [], ◌∷◌, Option, none, some, String, arith, length, ltb, leb, eqb, if◌then◌else◌, Bool-cases, inl,
  inr,
}
use riskflow.Text.{codes}
use riskflow.Value.{Date}

abbrev pub is_leap : ℕ → Bool
is_leap y = eqb (y % 4) 0 && (not (eqb (y % 100) 0) || eqb (y % 400) 0)

month_lengths : ℕ → List ℕ
month_lengths y =
    31 ∷ (if is_leap y then 29 else 28) ∷ 31 ∷ 30 ∷ 31 ∷ 30 ∷ 31 ∷ 31 ∷ 30 ∷ 31 ∷ 30 ∷ 31 ∷ []

nth_length : List ℕ → ℕ → ℕ
nth_length [] i = 0
nth_length (n ∷ ns) zero = n
nth_length (n ∷ ns) (suc i) = nth_length ns i

pub days_in_month : ℕ → ℕ → ℕ
unfolding month_lengths nth_length
days_in_month y m = nth_length (month_lengths y) (m - 1)

-- The dates that exist.
pub record IsDate (d : Date) : Type 0 where
  pub year_low : 1 ≤ d.year
  pub year_high : d.year ≤ 9999
  pub month_low : 1 ≤ d.month
  pub month_high : d.month ≤ 12
  pub day_low : 1 ≤ d.day
  pub day_high : d.day ≤ days_in_month d.year d.month

date_exists : ℕ → ℕ → ℕ → Bool
date_exists y m d =
    leb 1 y && leb y 9999 && leb 1 m && leb m 12 && leb 1 d && leb d (days_in_month y m)

-- `datetime.date(y, m, d)`; `none` is `ValueError`.
unfoldable pub make_date : ℕ → ℕ → ℕ → Option Date
unfolding date_exists days_in_month
make_date y m d = if date_exists y m d then some (record { year = y; month = m; day = d }) else none

make_date-split :
    (y m d : ℕ) {r : Date}
    → (if date_exists y m d then some (record { year = y; month = m; day = d }) else none) ≡ some r
    → IsDate r
unfolding date_exists
make_date-split y m d e = ground arith

pub make_date-IsDate : (y m d : ℕ) {r : Date} → make_date y m d ≡ some r → IsDate r
make_date-IsDate y m d e = make_date-split y m d (unfold make_date in e)

infixl 5 ◌>>=◌
abbrev ◌>>=◌ {ℓ κ} : {A : Type ℓ} {B : Type κ} → Option A → (A → Option B) → Option B
none >>= f = none
some a >>= f = f a

-- `n` ASCII digits: their value and what follows.
pub ascii_digits : ℕ → ℕ → List ℕ → Option (ℕ × List ℕ)
ascii_digits zero acc s = some (acc, s)
ascii_digits (suc n) acc [] = none
ascii_digits (suc n) acc (c ∷ s) =
    let rest = ascii_digits n (acc * 10 + (c - 48)) s in if leb 48 c && leb c 57 then rest else none

-- Days from 0000-12-31 to the last day before the year.
days_before_year : ℕ → ℕ
days_before_year y = (y - 1) * 365 + (y - 1) / 4 - (y - 1) / 100 + (y - 1) / 400

year_length : ℕ → ℕ
year_length y = if is_leap y then 366 else 365

-- The month and the day of the `n`-th day of a year, from the month `m` on.
month_and_day : ℕ → ℕ → List ℕ → ℕ × ℕ
month_and_day n m [] = (m, n)
month_and_day n m (k ∷ ks) =
    let rest = month_and_day (n - k) (m + 1) ks in if leb n k then (m, n) else rest

weekday_of_first : ℕ → ℕ
unfolding days_before_year
weekday_of_first y = (days_before_year y + 7) % 7

has_week : ℕ → ℕ → Bool
unfolding weekday_of_first
has_week y w =
    let first = weekday_of_first y in
    leb 1 w && ltb w 53 || eqb w 53 && (eqb first 3 || eqb first 2 && is_leap y)

-- The day of the year, counted from 10 for 1 January so that no number is negative.
iso_day_number : ℕ → ℕ → ℕ → ℕ
unfolding weekday_of_first
iso_day_number y w d =
    let first = weekday_of_first y in
    (10 - first) + (if ltb 3 first then 7 else 0) + (w - 1) * 7 + (d - 1)

-- `_isoweek_to_gregorian`
from_week : ℕ → ℕ → ℕ → Option Date
unfolding has_week iso_day_number month_and_day month_lengths year_length make_date
from_week y w d =
    let n = iso_day_number y w d in
    let day = n - 9 in
    let (month, day_of_month) = month_and_day day 1 (month_lengths y) in
    if not (leb 1 y && leb y 9999 && has_week y w && leb 1 d && leb d 7)
    then none
    else if ltb n 10
    then make_date (y - 1) 12 (22 + n)
    else if ltb (year_length y) day
    then make_date (y + 1) 1 (day - year_length y)
    else make_date y month day_of_month

skip : ℕ → List ℕ → Option (List ℕ)
skip c [] = none
skip c (d ∷ s) = if eqb c d then some s else none

iso_week : Bool → ℕ → List ℕ → Option Date
unfolding ascii_digits skip from_week
iso_week sep y s = do
  (w, rest) ← ascii_digits 2 0 s
  elim rest [
    | [] ↦ from_week y w 1
    | c ∷ cs ↦ do
      after ← if sep then skip b'-' (c ∷ cs) else some (c ∷ cs)
      (d, _) ← ascii_digits 1 0 after
      from_week y w d
  ]

iso_month : Bool → ℕ → List ℕ → Option Date
unfolding ascii_digits skip make_date
iso_month sep y s = do
  (m, rest) ← ascii_digits 2 0 s
  after ← if sep then skip b'-' rest else some rest
  (d, end) ← ascii_digits 2 0 after
  elim end [ [] ↦ make_date y m d | _ ↦ none ]

after_separator : Bool → ℕ → List ℕ → Option Date
unfolding iso_week iso_month
after_separator sep y [] = none
after_separator sep y (c ∷ s) = if eqb c b'W' then iso_week sep y s else iso_month sep y (c ∷ s)

after_year : ℕ → List ℕ → Option Date
unfolding after_separator
after_year y [] = none
after_year y (c ∷ s) =
    if eqb c b'-' then after_separator true y s else after_separator false y (c ∷ s)

-- The length of a text in UTF-8.
utf8_length : List ℕ → ℕ
utf8_length [] = 0
utf8_length (c ∷ s) =
    (if ltb c 128 then 1 else if ltb c 2048 then 2 else if ltb c 65536 then 3 else 4)
    + utf8_length s

-- The form with a week ignores what follows its day, as CPython does.
unfoldable pub from_iso : List ℕ → Option Date
unfolding ascii_digits after_year utf8_length
from_iso s =
    let n = utf8_length s in
    let parsed = (do (y, rest) ← ascii_digits 4 0 s; after_year y rest) in
    if eqb n 7 || eqb n 8 || eqb n 10 then parsed else none

from_iso_test : from_iso (codes "2024-02-29") ≡ some (record { year = 2024; month = 2; day = 29 })
unfolding from_iso
from_iso_test = refl

from_iso_week_test :
    from_iso (codes "2024-W01-1") ≡ some (record { year = 2024; month = 1; day = 1 })
unfolding from_iso
from_iso_week_test = refl

from_iso_week_53_test :
    from_iso (codes "2020W537") ≡ some (record { year = 2021; month = 1; day = 3 })
unfolding from_iso
from_iso_week_53_test = refl

from_iso_week_before_test :
    from_iso (codes "2025-W01") ≡ some (record { year = 2024; month = 12; day = 30 })
unfolding from_iso
from_iso_week_before_test = refl

from_iso_invalid_test : from_iso (codes "2023-02-29") ≡ none
unfolding from_iso
from_iso_invalid_test = refl
