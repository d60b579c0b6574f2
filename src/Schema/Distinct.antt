-- ===== src/Schema/Distinct.antt =====
-- `MappingResult` accepts exactly the mappings whose targets are distinct.
use riskflow.Prelude.{
  ◌≤◌, ◌≡◌, refl, ◌↔◌, inl, inr, true, List, [], ◌∷◌, String, arith, ltb, keep, count, contains,
  AllDistinct, eq_iff, eq_refl, Bool-cases,
}
use riskflow.Errors.{ok}
use riskflow.Schema.{ColumnMapping, MappingResult, targets, dupes, is_empty, mapping_result}

contains-count : (x : String) (xs : List String) → contains x xs ≡ ltb 0 (count x xs)
contains-count x [] = refl
contains-count x (y ∷ ys) = ground (arith, contains-count x ys)

-- No member of `xs` is counted twice in `all`.
abbrev NoneTwice : List String → List String → Type 0
NoneTwice xs all = is_empty (keep (λ t. ltb 1 (count t all)) xs) ≡ true

-- Only the counts within `xs` matter, and a longer list counts more.
NoneTwice-tail : (y : String) (xs ys : List String) → NoneTwice xs (y ∷ ys) → NoneTwice xs ys
NoneTwice-tail y [] ys h = refl
NoneTwice-tail y (x ∷ xs) ys h = ground (arith, NoneTwice-tail y xs ys)

pub distinct_of_dupes : (xs : List String) → is_empty (dupes xs) ≡ true → AllDistinct xs
unfolding dupes
distinct_of_dupes [] h = tt
distinct_of_dupes (x ∷ xs) h = (
  ground (arith, contains-count x xs, eq_refl x),
  distinct_of_dupes xs (ground (arith, NoneTwice-tail x xs xs)),
)

count-le-one : (t : String) (xs : List String) → AllDistinct xs → count t xs ≤ 1
count-le-one t [] h = omega arith
count-le-one t (x ∷ xs) h =
    ground (arith, count-le-one t xs h.1, contains-count x xs, h.0, eq_iff x t, ap_count)
  where
    ap_count : x ≡ t → count x xs ≡ count t xs
    ap_count e = λ i. count (e i) xs

keep_none : (xs all : List String) → ((t : String) → count t all ≤ 1) → NoneTwice xs all
keep_none [] all h = refl
keep_none (x ∷ xs) all h = ground (arith, keep_none xs all h, h x)

pub dupes_of_distinct : (xs : List String) → AllDistinct xs → is_empty (dupes xs) ≡ true
unfolding dupes
dupes_of_distinct xs d = keep_none xs xs (λ t. count-le-one t xs d)

-- A mapping result is constructed, as given, exactly when no target field stands twice in it.
pub mapping_result-distinct_iff :
    (ms : List ColumnMapping) (unmapped : List String)
    → (mapping_result ms unmapped ≡ ok (record { mappings = ms; unmapped_headers = unmapped }))
      ↔ AllDistinct (targets ms)
unfolding mapping_result
mapping_result-distinct_iff ms unmapped =
    (λ e. distinct_of_dupes (targets ms) (ground arith), λ d. rw (dupes_of_distinct (targets ms) d))

-- A constructed result holds what it was given, and its targets are distinct.
pub mapping_result-eq-ok :
    (ms : List ColumnMapping) (unmapped : List String) {r : MappingResult}
    → mapping_result ms unmapped ≡ ok r
    → (r ≡ record { mappings = ms; unmapped_headers = unmapped }) × AllDistinct (targets r.mappings)
unfolding mapping_result
mapping_result-eq-ok ms unmapped {r} e = elim (Bool-cases (is_empty (dupes (targets ms)))) [
  | inl clean ↦
      let same : r ≡ record { mappings = ms; unmapped_headers = unmapped } = ground arith in
      (same, rw same (distinct_of_dupes (targets ms) clean))
  | inr twice ↦ absurd (ground arith)
]
