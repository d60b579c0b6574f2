-- ===== src/Prelude/Sort/By.antt =====
-- `sorted(xs, key=…)`: a stable sort by a test for the members that come later.
use mathlib.Core.Bool.{Bool, true, false}
use mathlib.Core.List.{List, [], ◌∷◌, Perm}
use mathlib.Core.List.Perm
use mathlib.Core.Path.{◌≡◌}
use riskflow.Prelude.Tests.{if◌then◌else◌, Bool-cases}
use mathlib.Core.Logic.{inl, inr}
use riskflow.Prelude.Lists.{All}

module _ {A : Type 0} (later : A → A → Bool) where
  -- `x` is put before the first member that it is not later than.
  unfoldable pub insert_by : A → List A → List A
  insert_by x [] = x ∷ []
  insert_by x (y ∷ ys) = let rest = insert_by x ys in if later x y then y ∷ rest else x ∷ y ∷ ys

  unfoldable pub sort_by : List A → List A
  unfolding insert_by
  sort_by [] = []
  sort_by (x ∷ xs) = insert_by x (sort_by xs)

  -- No member is later than one after it.
  abbrev pub IsInOrder : List A → Type 0
  IsInOrder [] = Unit
  IsInOrder (x ∷ xs) = All (λ y. later x y ≡ false) xs × IsInOrder xs

  pub All-insert_by :
      (P : A → Type 0) (x : A) (ys : List A) → P x → All P ys → All P (insert_by x ys)
  unfolding insert_by
  All-insert_by P x [] p h = (p, tt)
  All-insert_by P x (y ∷ ys) p h = elim (Bool-cases (later x y)) [
    | inl after ↦ rw after (h.0, All-insert_by P x ys p h.1)
    | inr before ↦ rw before (p, h)
  ]

  pub All-sort_by : (P : A → Type 0) (xs : List A) → All P xs → All P (sort_by xs)
  unfolding sort_by
  All-sort_by P [] h = tt
  All-sort_by P (x ∷ xs) h = All-insert_by P x (sort_by xs) h.0 (All-sort_by P xs h.1)

  pub insert_by-perm : (x : A) (ys : List A) → Perm (insert_by x ys) (x ∷ ys)
  unfolding insert_by
  insert_by-perm x [] = Perm.refl (x ∷ [])
  insert_by-perm x (y ∷ ys) = elim (Bool-cases (later x y)) [
    | inl after ↦ rw after (Perm.trans (Perm.cons y (insert_by-perm x ys)) (Perm.swap x y ys))
    | inr before ↦ rw before (Perm.refl (x ∷ y ∷ ys))
  ]

  pub sort_by-perm : (xs : List A) → Perm (sort_by xs) xs
  unfolding sort_by
  sort_by-perm [] = Perm.refl []
  sort_by-perm (x ∷ xs) = Perm.trans (insert_by-perm x (sort_by xs)) (Perm.cons x (sort_by-perm xs))

  -- The test orders the members: what is later is not earlier, and what is not later than one that
  -- is not later than a third is not later than that.
  pub record IsOrder : Type 0 where
    pub asym : (a b : A) → later a b ≡ true → later b a ≡ false
    pub chain : (a b c : A) → later a b ≡ false → later b c ≡ false → later a c ≡ false

  module _ (order : IsOrder) where
    later-All :
        (x y : A) (ys : List A)
        → later x y ≡ false
        → All (λ z. later y z ≡ false) ys
        → All (λ z. later x z ≡ false) ys
    later-All x y [] h all = tt
    later-All x y (z ∷ ys) h all = (order.chain x y z h all.0, later-All x y ys h all.1)

    insert_by-IsInOrder : (x : A) (ys : List A) → IsInOrder ys → IsInOrder (insert_by x ys)
    unfolding insert_by
    insert_by-IsInOrder x [] h = (tt, tt)
    insert_by-IsInOrder x (y ∷ ys) h = elim (Bool-cases (later x y)) [
      | inl after ↦ rw after (
        All-insert_by (λ z. later y z ≡ false) x ys (order.asym x y after) h.0,
        insert_by-IsInOrder x ys h.1,
      )
      | inr before ↦ rw before ((before, later-All x y ys before h.0), h)
    ]

    pub sort_by-IsInOrder : (xs : List A) → IsInOrder (sort_by xs)
    unfolding sort_by
    sort_by-IsInOrder [] = tt
    sort_by-IsInOrder (x ∷ xs) = insert_by-IsInOrder x (sort_by xs) (sort_by-IsInOrder xs)
