-- ===== src/Tools/ApiChanges/Loops.antt =====
-- When the loops of tools/check_api_changes.py find nothing that breaks.
use riskflow.Prelude.{
  ◌≡◌, ◌↔◌, refl, sym, ap, ◌∙◌, Bool, true, false, ◌&&◌, List, [], ◌∷◌, ◌++◌, String, arith,
  contains, all, Bool-cases, inl, inr, eq_iff, eq_refl, ◌==◌,
}
use riskflow.Errors.{Result, ok, raise}
use riskflow.Tools.ApiChanges.{Change, Changes, each, ◌<+>◌}

-- A comparison that returns and finds nothing that breaks.
abbrev pub empty : List Change → Bool
empty [] = true
empty (c ∷ cs) = false

abbrev pub silent : Result Changes → Bool
silent (ok c) = empty c.breaking
silent (raise e) = false

pub empty-append : (xs ys : List Change) → empty (xs ++ ys) ≡ (empty xs && empty ys)
empty-append [] ys = refl
empty-append (x ∷ xs) ys = refl

pub silent-join : (m n : Result Changes) → silent (m <+> n) ≡ (silent m && silent n)
silent-join (ok a) (ok b) = empty-append a.breaking b.breaking
silent-join (ok a) (raise e) = ground arith
silent-join (raise e) n = refl

pub silent-each :
    (f : String → Result Changes) (xs : List String)
    → silent (each f xs) ≡ all (λ x. silent (f x)) xs
unfolding each
silent-each f [] = refl
silent-each f (x ∷ xs) =
    silent-join (f x) (each f xs) ∙ ap (λ b. silent (f x) && b) (silent-each f xs)

pub all-contains :
    (q : String → Bool) (xs : List String)
    → (all q xs ≡ true) ↔ ((x : String) → contains x xs ≡ true → q x ≡ true)
all-contains q [] = (λ h x m. absurd (ground (arith, m)), λ h. refl)
all-contains q (x ∷ xs) = (
  λ h y m. elim (Bool-cases (x == y)) [
    | inl same ↦ rw (sym ((eq_iff x y).0 same)) (ground (arith, h))
    | inr other ↦ (all-contains q xs).0 (ground (arith, h)) y (ground (arith, m, other))
  ],
  λ h.
      let now : q x ≡ true = h x (rw (eq_refl x) refl) in
      let rest : all q xs ≡ true = (all-contains q xs).1 (λ y m. h y (ground (arith, m))) in
      ground (arith, now, rest),
)

-- A loop is silent if each of its rounds is.
pub silent-each_iff :
    (f : String → Result Changes) (xs : List String)
    → (silent (each f xs) ≡ true) ↔ ((x : String) → contains x xs ≡ true → silent (f x) ≡ true)
silent-each_iff f xs = rw (silent-each f xs) (all-contains (λ x. silent (f x)) xs)

-- Three loops in a row.
pub three_loops :
    (f g h : String → Result Changes) (xs ys zs : List String)
    → (silent (each f xs <+> each g ys <+> each h zs) ≡ true) ↔ (
        ((x : String) → contains x xs ≡ true → silent (f x) ≡ true)
        × ((y : String) → contains y ys ≡ true → silent (g y) ≡ true)
        × ((z : String) → contains z zs ≡ true → silent (h z) ≡ true))
three_loops f g h xs ys zs = (
  λ e.
      let all : silent (each f xs) && (silent (each g ys) && silent (each h zs)) ≡ true =
        sym (
          silent-join (each f xs) (each g ys <+> each h zs)
          ∙ ap (λ b. silent (each f xs) && b) (silent-join (each g ys) (each h zs)))
        ∙ e in
      (
        (silent-each_iff f xs).0 (ground (arith, all)),
        (silent-each_iff g ys).0 (ground (arith, all)),
        (silent-each_iff h zs).0 (ground (arith, all)),
      ),
  λ (a, b, c).
      silent-join (each f xs) (each g ys <+> each h zs)
      ∙ rw ((silent-each_iff f xs).1 a) (
          silent-join (each g ys) (each h zs)
          ∙ rw ((silent-each_iff g ys).1 b, (silent-each_iff h zs).1 c) refl),
)
