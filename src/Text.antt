-- ===== src/Text.antt =====
-- The text operations of the language that the program uses: `str.strip`, `str.split`, the
-- decimal digits of `int` and `\d`, `str.endswith`, joins and prefixes.
use Prim.Native.Char.{code}
use Prim.Native.String
use mathlib.Core.List.{reverse}
use riskflow.Prelude.{
  ℕ, ◌+◌, ◌-◌, ◌*◌, ◌≡◌, refl, Bool, true, false, ◌&&◌, ◌||◌, List, [], ◌∷◌, Option, none, some,
  String, ltb, leb, eqb, if◌then◌else◌,
}

-- A text as its code points.
abbrev pub codes : String → List ℕ
codes String.[] = []
codes (String.◌∷◌ c s) = code c ∷ codes s

-- `str.isspace` of one code point, by the Unicode table.
abbrev pub is_space : ℕ → Bool
is_space c =
    leb 9 c && leb c 13
    || leb 28 c && leb c 32
    || eqb c 133
    || eqb c 160
    || eqb c 5760
    || leb 8192 c && leb c 8202
    || leb 8232 c && leb c 8233
    || eqb c 8239
    || eqb c 8287
    || eqb c 12288

-- `not s.strip()`
unfoldable pub is_blank : String → Bool
is_blank String.[] = true
is_blank (String.◌∷◌ c s) = is_space (code c) && is_blank s

-- `s.strip()`
unfoldable pub rstrip : String → String
unfolding is_blank
rstrip String.[] = ""
rstrip (String.◌∷◌ c s) =
    let rest = rstrip s in if is_space (code c) && is_blank s then "" else String.◌∷◌ c rest

unfoldable pub lstrip : String → String
lstrip String.[] = ""
lstrip (String.◌∷◌ c s) = let rest = lstrip s in if is_space (code c) then rest else String.◌∷◌ c s

unfoldable pub strip : String → String
unfolding rstrip lstrip
strip s = lstrip (rstrip s)

-- The first code points of the runs of ten decimal digits (category Nd of Unicode 15).
abbrev digit_runs : List ℕ
digit_runs =
    48 ∷ 1632 ∷ 1776 ∷ 1984 ∷ 2406 ∷ 2534 ∷ 2662 ∷ 2790 ∷ 2918 ∷ 3046 ∷ 3174 ∷ 3302 ∷ 3430 ∷ 3558
    ∷ 3664 ∷ 3792 ∷ 3872 ∷ 4160 ∷ 4240 ∷ 6112 ∷ 6160 ∷ 6470 ∷ 6608 ∷ 6784 ∷ 6800 ∷ 6992 ∷ 7088
    ∷ 7232 ∷ 7248 ∷ 42528 ∷ 43216 ∷ 43264 ∷ 43472 ∷ 43504 ∷ 43600 ∷ 44016 ∷ 65296 ∷ 66720 ∷ 68912
    ∷ 69734 ∷ 69872 ∷ 69942 ∷ 70096 ∷ 70384 ∷ 70736 ∷ 70864 ∷ 71248 ∷ 71360 ∷ 71472 ∷ 71904 ∷ 72016
    ∷ 72784 ∷ 73040 ∷ 73120 ∷ 73552 ∷ 92768 ∷ 92864 ∷ 93008 ∷ 120782 ∷ 120792 ∷ 120802 ∷ 120812
    ∷ 120822 ∷ 123200 ∷ 123632 ∷ 124144 ∷ 125264 ∷ 130032 ∷ []

digit_in : List ℕ → ℕ → Option ℕ
digit_in [] c = none
digit_in (r ∷ rs) c =
    let rest = digit_in rs c in if leb r c && ltb c (r + 10) then some (c - r) else rest

-- The value of a decimal digit, as `int` reads it; `\d` matches what has one.
unfoldable pub digit_value : ℕ → Option ℕ
unfolding digit_in
digit_value c = digit_in digit_runs c

number_from : ℕ → List ℕ → Option ℕ
number_from n [] = some n
number_from n (c ∷ cs) = elim (digit_value c) [ none ↦ none | some d ↦ number_from (n * 10 + d) cs ]

-- `int(s)` of a non-empty run of digits; any other text is refused.
unfoldable pub number : List ℕ → Option ℕ
unfolding number_from digit_value
number [] = none
number (c ∷ cs) = number_from 0 (c ∷ cs)

-- `s.split(sep)` over code points.
split_from : ℕ → List ℕ → List (List ℕ)
split_from sep [] = [] ∷ []
split_from sep (c ∷ cs) = elim (split_from sep cs) [
  | [] ↦ []
  | part ∷ parts ↦ if eqb c sep then [] ∷ part ∷ parts else (c ∷ part) ∷ parts
]

unfoldable pub split : ℕ → List ℕ → List (List ℕ)
unfolding split_from
split sep s = split_from sep s

-- `sep.join(parts)`
unfoldable pub join : String → List String → String
join sep [] = ""
join sep (p ∷ []) = p
join sep (p ∷ q ∷ ps) = String.◌++◌ p (String.◌++◌ sep (join sep (q ∷ ps)))

starts : List ℕ → List ℕ → Bool
starts [] s = true
starts (p ∷ ps) [] = false
starts (p ∷ ps) (c ∷ cs) = eqb p c && starts ps cs

-- `s.endswith(suffix)`
unfoldable pub ends_with : List ℕ → List ℕ → Bool
unfolding starts
ends_with suffix s = starts (reverse suffix) (reverse s)

strip_test : strip "  a b\t" ≡ "a b"
unfolding strip
strip_test = refl

split_test : split b'/' (codes "a/b") ≡ (b'a' ∷ []) ∷ (b'b' ∷ []) ∷ []
unfolding split
split_test = refl

ends_with_test : ends_with (codes ".csv") (codes "x.csv") ≡ true
unfolding ends_with
ends_with_test = refl
