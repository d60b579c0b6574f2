-- ===== src/Float.antt =====
-- Python's `float`: an IEEE double. A finite double is a whole multiple of 2 ^ -1074, so it is
-- held exactly, as its sign and its number of these units.
pub mod Order
use Prim.Native.Nat.{compare}
use riskflow.Prelude.{
  ℕ, zero, suc, ◌+◌, ◌-◌, ◌*◌, ◌/◌, ◌%◌, ◌^◌, ◌≡◌, refl, Bool, true, false, not, ◌&&◌, ◌||◌, List,
  [], ◌∷◌, length, ltb, leb, eqb, if◌then◌else◌,
}

pub data Float : Type 0 where
  nan : Float
  infinite : Bool → Float
  -- `finite negative units`
  finite : Bool → ℕ → Float

-- m * 2 ^ -53, the form of a double in [0.5, 1).
pub half_open : ℕ → Float
half_open m = finite false (m * 2 ^ 1021)

abbrev pub zero_float : Float
zero_float = finite false 0

unfoldable pub one_float : Float
one_float = finite false (2 ^ 1074)

-- The literal 0.6.
unfoldable pub six_tenths : Float
unfolding half_open
six_tenths = half_open 5404319552844595

-- `a < b`
unfoldable pub lt : Float → Float → Bool
lt nan b = false
lt (infinite false) b = false
lt (infinite true) nan = false
lt (infinite true) (infinite s) = not s
lt (infinite true) (finite _ _) = true
lt (finite _ _) nan = false
lt (finite _ _) (infinite s) = not s
lt (finite false m) (finite false n) = ltb m n
lt (finite false m) (finite true n) = false
lt (finite true m) (finite false n) = not (eqb m 0 && eqb n 0)
lt (finite true m) (finite true n) = ltb n m

-- `a <= b`
unfoldable pub le : Float → Float → Bool
le nan b = false
le (infinite false) nan = false
le (infinite false) (infinite s) = not s
le (infinite false) (finite _ _) = false
le (infinite true) nan = false
le (infinite true) (infinite _) = true
le (infinite true) (finite _ _) = true
le (finite _ _) nan = false
le (finite _ _) (infinite s) = not s
le (finite false m) (finite false n) = leb m n
le (finite false m) (finite true n) = eqb m 0 && eqb n 0
le (finite true m) (finite false n) = true
le (finite true m) (finite true n) = leb n m

-- How often `n` can be halved before it has at most 53 binary digits. A double has at most 2098
-- digits, a sum of two 2099, so the fuel of `round_units` is enough.
excess : ℕ → ℕ → ℕ
excess zero n = 0
excess (suc fuel) n = let more = suc (excess fuel (n / 2)) in if ltb n (2 ^ 53) then 0 else more

-- The quotient rounded to the nearest, ties to even; `sticky` tells that `q` lost a fraction.
round_shift : ℕ → ℕ → Bool → ℕ
round_shift q zero sticky = q
round_shift q (suc s) sticky =
    let unit = 2 ^ suc s in
    let low = q % unit in
    let up = ltb (2 ^ s) low || eqb low (2 ^ s) && (sticky || eqb ((q / unit) % 2) 1) in
    (q / unit + (if up then 1 else 0)) * unit

-- A magnitude of `q` units, and perhaps a fraction more, as the nearest double.
round_units : Bool → ℕ → Bool → Float
unfolding excess round_shift
round_units negative q sticky =
    let r = round_shift q (excess 4300 q) sticky in
    if leb (2 ^ 2098) r then infinite negative else finite negative r

signed_sum : Bool → ℕ → Bool → ℕ → Float
unfolding round_units
signed_sum false m false n = round_units false (m + n) false
signed_sum true m true n = round_units true (m + n) false
signed_sum false m true n =
    if leb n m then round_units false (m - n) false else round_units true (n - m) false
signed_sum true m false n =
    if leb m n then round_units false (n - m) false else round_units true (m - n) false

-- `a + b`
unfoldable pub add : Float → Float → Float
unfolding signed_sum
add nan b = nan
add (infinite s) nan = nan
add (infinite false) (infinite false) = infinite false
add (infinite true) (infinite true) = infinite true
add (infinite s) (infinite t) = nan
add (infinite s) (finite _ _) = infinite s
add (finite _ _) nan = nan
add (finite _ _) (infinite s) = infinite s
add (finite s m) (finite t n) = signed_sum s m t n

negate : Float → Float
negate nan = nan
negate (infinite s) = infinite (not s)
negate (finite s m) = finite (not s) m

magnitude : Float → Float
magnitude nan = nan
magnitude (infinite s) = infinite false
magnitude (finite s m) = finite false m

is_compensation : Float → Bool
is_compensation (finite s m) = not (eqb m 0)
is_compensation _ = false

-- `sum(xs)` of Python 3.12 from the first item on: Neumaier's compensated sum.
sum_from : Float → Float → List Float → Float
unfolding negate magnitude is_compensation add
sum_from total c [] = if is_compensation c then add total c else total
sum_from total c (x ∷ xs) =
    let t = add total x in
    let kept = add (add total (negate t)) x in
    let lost = add (add x (negate t)) total in
    sum_from t (add c (if le (magnitude x) (magnitude total) then kept else lost)) xs

unfoldable pub sum : List Float → Float
unfolding sum_from
sum [] = zero_float
sum (x ∷ xs) = sum_from (add zero_float x) zero_float xs

-- `x / n` for an `int` `n` of at least 1. A quotient below 2 ^ 53 units is rounded at its fraction.
unfoldable pub divide : Float → ℕ → Float
unfolding round_units
divide nan n = nan
divide (infinite s) n = infinite s
divide (finite s m) n =
    let q = m / n in
    let r = m % n in
    let up = ltb n (r + r) || eqb n (r + r) && eqb (q % 2) 1 in
    if ltb q (2 ^ 53) then finite s (q + (if up then 1 else 0)) else round_units s q (not (eqb r 0))

-- `min(xs)` of a non-empty list: the first of the least items.
unfoldable pub min_from : Float → List Float → Float
min_from best [] = best
min_from best (x ∷ xs) = min_from (if lt x best then x else best) xs
