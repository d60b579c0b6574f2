-- ===== src/Prelude/Sort.antt =====
-- `sorted(...)` of texts: by code points, as Python compares them.
pub mod Laws
pub mod By
use Prim.Native.Char.{code}
use Prim.Native.String
use Prim.Native.String.{String}
use mathlib.Core.Bool.{Bool, true, false, ◌||◌}
use mathlib.Core.List.{List, [], ◌∷◌}
use mathlib.Core.Path.{◌≡◌, refl}
use native.Mathlib.Omega.{arith}
use text.Mathlib.Text.{◌==◌}
use text.Mathlib.TextEquality.{eq_iff}
use riskflow.Prelude.Tests.{ltb, if◌then◌else◌}
use riskflow.Prelude.Lists.{contains}

-- `s <= t`
unfoldable pub text_leb : String → String → Bool
text_leb String.[] t = true
text_leb (String.◌∷◌ c s) String.[] = false
text_leb (String.◌∷◌ c s) (String.◌∷◌ d t) =
    let rest = text_leb s t in
    if ltb (code c) (code d) then true else if ltb (code d) (code c) then false else rest

unfoldable pub insert_sorted : String → List String → List String
insert_sorted x [] = x ∷ []
insert_sorted x (y ∷ ys) =
    let rest = insert_sorted x ys in if text_leb x y then x ∷ y ∷ ys else y ∷ rest

unfoldable pub sorted : List String → List String
unfolding insert_sorted text_leb
sorted [] = []
sorted (x ∷ xs) = insert_sorted x (sorted xs)

-- `set(xs)`, as the list of its members.
unfoldable pub distinct : List String → List String
distinct [] = []
distinct (x ∷ xs) = let rest = distinct xs in if contains x rest then rest else x ∷ rest

pub contains-insert_sorted :
    (x y : String) (xs : List String) → contains x (insert_sorted y xs) ≡ (y == x || contains x xs)
unfolding insert_sorted
contains-insert_sorted x y [] = refl
contains-insert_sorted x y (z ∷ xs) = ground (arith, contains-insert_sorted x y xs)

pub contains-sorted : (x : String) (xs : List String) → contains x (sorted xs) ≡ contains x xs
unfolding sorted
contains-sorted x [] = refl
contains-sorted x (y ∷ xs) =
    ground (arith, contains-insert_sorted x y (sorted xs), contains-sorted x xs)

pub contains-distinct : (x : String) (xs : List String) → contains x (distinct xs) ≡ contains x xs
unfolding distinct
contains-distinct x [] = refl
contains-distinct x (y ∷ xs) =
    ground (arith, contains-distinct x xs, eq_iff y x, ap_contains y x (distinct xs))
  where
    ap_contains : (a b : String) (l : List String) → a ≡ b → contains a l ≡ contains b l
    ap_contains a b l e = λ i. contains (e i) l
