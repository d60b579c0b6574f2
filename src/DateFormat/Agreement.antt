-- ===== src/DateFormat/Agreement.antt =====
-- When the format hint of a column and the guessing of single values agree.
use mathlib.Core.Bool.{false≢true}
use riskflow.Prelude.{
  ℕ, suc, ◌≡◌, ◌≢◌, refl, sym, ◌∙◌, ◌⊎◌, inl, inr, Bool, true, false, List, [], ◌∷◌, Option, none,
  some, String, arith,
}
use riskflow.Errors.{ok}
use riskflow.Text.{codes, strip, digit_value}
use riskflow.Value.{Date}
use riskflow.DateFormat.Calendar.{from_iso}
use riskflow.DateFormat.Calendar.Shape.{
  from_iso_fifth_slash, from_iso_second_slash, from_iso_third_slash,
}
use riskflow.DateFormat.{
  Format, iso, yyyy_slash, named_month, dayfirst, iso_pattern, yyyy_slash_pattern,
  dayfirst_slash_pattern, has_month_name, slash_date, parse_date, digits, literal, one_or_two,
  at_end,
}

-- A text of the year-first pattern has a slash where an ISO date has a dash or a digit.
from_iso_of_yyyy_slash : (s : List ℕ) → yyyy_slash_pattern s ≡ true → from_iso s ≡ none
unfolding yyyy_slash_pattern
from_iso_of_yyyy_slash (a ∷ b ∷ c ∷ d ∷ e ∷ s) h =
    let slash : e ≡ b'/' = ground arith in rw slash (from_iso_fifth_slash a b c d s)
from_iso_of_yyyy_slash _ h = ground arith

slash_is_no_digit : digit_value b'/' ≡ none
unfolding digit_value
slash_is_no_digit = refl

-- One digit or two before a character put that at the second or the third place.
one_or_two_place :
    (p : ℕ) (next : List ℕ → Bool) (a b c : ℕ) (s : List ℕ)
    → one_or_two (literal p next) (a ∷ b ∷ c ∷ s) ≡ true
    → (b ≡ p) ⊎ (c ≡ p)
unfolding one_or_two literal
one_or_two_place p next a b c s h = ground arith

abbrev after_day : List ℕ → Bool
after_day = one_or_two (literal b'/' (digits 4 at_end))

-- The lengths that `one_or_two` and a further character leave out.
one_or_two_short :
    (p : ℕ) (a b : ℕ)
    → (one_or_two (literal p after_day) [] ≡ false)
      × (one_or_two (literal p after_day) (a ∷ []) ≡ false)
      × (one_or_two (literal p after_day) (a ∷ b ∷ []) ≡ false)
unfolding one_or_two literal
one_or_two_short p a b = (ground arith, ground arith, ground arith)

digits_second :
    (n : ℕ) (next : List ℕ → Bool) (a : ℕ) (s : List ℕ)
    → digits (suc (suc n)) next (a ∷ b'/' ∷ s) ≡ false
unfolding digits
digits_second n next a s = ground (arith, slash_is_no_digit)

digits_third :
    (n : ℕ) (next : List ℕ → Bool) (a b : ℕ) (s : List ℕ)
    → digits (suc (suc (suc n))) next (a ∷ b ∷ b'/' ∷ s) ≡ false
unfolding digits
digits_third n next a b s = ground (arith, slash_is_no_digit)

abbrev after_year_digits : List ℕ → Bool
after_year_digits = literal b'/' (one_or_two (literal b'/' (one_or_two at_end)))

-- A text of the day-first pattern is neither an ISO date nor of the year-first pattern.
dayfirst_only :
    (s : List ℕ)
    → dayfirst_slash_pattern s ≡ true
    → (from_iso s ≡ none) × (yyyy_slash_pattern s ≡ false)
unfolding dayfirst_slash_pattern yyyy_slash_pattern
dayfirst_only (a ∷ b ∷ c ∷ s) h = elim (one_or_two_place b'/' after_day a b c s h) [
  | inl second ↦
      rw second (from_iso_second_slash a (c ∷ s), digits_second 2 after_year_digits a (c ∷ s))
  | inr third ↦ rw third (from_iso_third_slash a b s, digits_third 1 after_year_digits a b s)
]
dayfirst_only [] h = absurd (false≢true (sym (one_or_two_short b'/' 0 0).0 ∙ h))
dayfirst_only (a ∷ []) h = absurd (false≢true (sym (one_or_two_short b'/' a 0).1 ∙ h))
dayfirst_only (a ∷ b ∷ []) h = absurd (false≢true (sym (one_or_two_short b'/' a b).2 ∙ h))

slash_date-none : (s : List ℕ) → yyyy_slash_pattern s ≡ false → slash_date s ≡ none
unfolding slash_date
slash_date-none s h = rw h

-- The pattern by which a format is detected.
abbrev pub matches : Format → List ℕ → Bool
matches iso = iso_pattern
matches yyyy_slash = yyyy_slash_pattern
matches named_month = has_month_name
matches dayfirst = dayfirst_slash_pattern

pub parse_date_matching :
    (dateutil : List ℕ → Option Date) (v : String) (f : Format) (d : Date)
    → f ≢ named_month
    → matches f (codes (strip v)) ≡ true
    → parse_date dateutil v (some f) ≡ ok d
    → parse_date dateutil v none ≡ ok d
unfolding parse_date
parse_date_matching dateutil v iso d h e p = ground arith
parse_date_matching dateutil v yyyy_slash d h e p =
    ground (arith, from_iso_of_yyyy_slash (codes (strip v)) e)
parse_date_matching dateutil v named_month d h e p = absurd (h refl)
parse_date_matching dateutil v dayfirst d h e p =
    let (not_iso, not_slash) = dayfirst_only (codes (strip v)) e in
    ground (arith, slash_date-none (codes (strip v)) not_slash)
