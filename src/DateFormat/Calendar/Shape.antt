-- ===== src/DateFormat/Calendar/Shape.antt =====
-- Texts with a slash near their start are no ISO dates.
use riskflow.Prelude.{
  ℕ, zero, suc, ◌+◌, ◌-◌, ◌*◌, ◌≡◌, refl, Bool, true, false, ◌&&◌, List, [], ◌∷◌, Option, none,
  some, arith, leb, if◌then◌else◌, Bool-cases, Option-cases, inl, inr, ap,
}
use riskflow.Value.{Date}
use riskflow.DateFormat.Calendar.{ascii_digits, after_year, from_iso, ◌>>=◌}

pub drop : {A : Type 0} → ℕ → List A → List A
drop zero s = s
drop (suc n) [] = []
drop (suc n) (c ∷ s) = drop n s

ascii_digits-drop :
    (n acc : ℕ) (s : List ℕ) (y : ℕ) (rest : List ℕ)
    → ascii_digits n acc s ≡ some (y, rest)
    → rest ≡ drop n s
unfolding ascii_digits drop
ascii_digits-drop zero acc s y rest e = ground arith
ascii_digits-drop (suc n) acc [] y rest e = absurd (ground arith)
ascii_digits-drop (suc n) acc (c ∷ s) y rest e = elim (Bool-cases (leb 48 c && leb c 57)) [
  | inl digit ↦ ascii_digits-drop n (acc * 10 + (c - 48)) s y rest (ground arith)
  | inr other ↦ absurd (ground arith)
]

>>=-eq-some :
    {A B : Type 0} (o : Option A) (f : A → Option B) {b : B}
    → (o >>= f) ≡ some b
    → (a : A) × (o ≡ some a) × (f a ≡ some b)
>>=-eq-some none f e = cc
>>=-eq-some (some a) f e = (a, refl, e)

if-eq-some :
    {A : Type 0} (b : Bool) (o : Option A) {a : A} → (if b then o else none) ≡ some a → o ≡ some a
if-eq-some true o e = e
if-eq-some false o e = cc

from_iso-year :
    (s : List ℕ) {d : Date}
    → from_iso s ≡ some d
    → (y : ℕ) × (rest : List ℕ) × (ascii_digits 4 0 s ≡ some (y, rest))
      × (after_year y rest ≡ some d)
unfolding from_iso
from_iso-year s e =
    let (pair, read, rest) = >>=-eq-some (ascii_digits 4 0 s) _ (if-eq-some _ _ e) in
    (pair.0, pair.1, read, rest)

after_year_slash : (y : ℕ) (s : List ℕ) → after_year y (b'/' ∷ s) ≡ none
unfolding after_year
after_year_slash y s = refl

pub from_iso_fifth_slash : (a b c d : ℕ) (s : List ℕ) → from_iso (a ∷ b ∷ c ∷ d ∷ b'/' ∷ s) ≡ none
unfolding drop
from_iso_fifth_slash a b c d s = elim (Option-cases (from_iso (a ∷ b ∷ c ∷ d ∷ b'/' ∷ s))) [
  | inl missing ↦ missing
  | inr (date, e) ↦
      let (y, rest, read, dated) = from_iso-year _ e in
      let slash : rest ≡ b'/' ∷ s = ascii_digits-drop 4 0 _ y rest read in
      absurd (ground (arith, after_year_slash y s, ap (after_year y) slash))
]

pub from_iso_second_slash : (a : ℕ) (s : List ℕ) → from_iso (a ∷ b'/' ∷ s) ≡ none
unfolding from_iso ascii_digits
from_iso_second_slash a s = ground arith

pub from_iso_third_slash : (a b : ℕ) (s : List ℕ) → from_iso (a ∷ b ∷ b'/' ∷ s) ≡ none
unfolding from_iso ascii_digits
from_iso_third_slash a b s = ground arith
