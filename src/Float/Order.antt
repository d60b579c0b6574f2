-- ===== src/Float/Order.antt =====
-- The order of the doubles that are numbers.
use riskflow.Prelude.{◌≡◌, true, false, arith}
use riskflow.Float.{Float, lt, le}

-- A number is at most itself; NaN is not.
abbrev pub IsNumber : Float → Type 0
IsNumber x = le x x ≡ true

pub le_refl_of_le : (x y : Float) → le x y ≡ true → IsNumber y
unfolding le
le_refl_of_le x y h = ground arith

pub le_of_not-lt : (x y : Float) → IsNumber x → IsNumber y → lt x y ≡ false → le y x ≡ true
unfolding le lt
le_of_not-lt x y h k n = ground arith

pub le_of_lt : (x y : Float) → lt x y ≡ true → le x y ≡ true
unfolding le lt
le_of_lt x y h = ground arith

pub not-lt_of_le : (x y : Float) → le y x ≡ true → lt x y ≡ false
unfolding le lt
not-lt_of_le x y h = ground arith

pub le_trans : (x y z : Float) → le x y ≡ true → le y z ≡ true → le x z ≡ true
unfolding le
le_trans x y z h k = ground arith
