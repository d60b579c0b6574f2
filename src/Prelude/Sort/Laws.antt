-- ===== src/Prelude/Sort/Laws.antt =====
-- The order of texts is total, and sorting forgets the order of its input.
use Prim.Native.String.{String}
use mathlib.Core.Bool.{true, false}
use mathlib.Core.List.{List, [], ◌∷◌, Perm, Permᴰ}
use mathlib.Core.Logic.{∥∥₁_elim}
use mathlib.Core.Path.{◌≡◌, refl, ◌∙◌, ap₂}
use native.Mathlib.Omega.{arith}
use text.Mathlib.TextEquality.{Char-path, IsScalar-prop}
use riskflow.Prelude.Sort.{text_leb, insert_sorted, sorted}

pub text_leb_total : (s t : String) → text_leb s t ≡ false → text_leb t s ≡ true
unfolding text_leb
text_leb_total String.[] t h = absurd (ground arith)
text_leb_total (String.◌∷◌ c s) String.[] h = refl
text_leb_total (String.◌∷◌ c s) (String.◌∷◌ d t) h = ground (arith, text_leb_total s t)

pub text_leb_trans :
    (s t u : String) → text_leb s t ≡ true → text_leb t u ≡ true → text_leb s u ≡ true
unfolding text_leb
text_leb_trans String.[] t u h k = refl
text_leb_trans (String.◌∷◌ c s) String.[] u h k = absurd (ground arith)
text_leb_trans (String.◌∷◌ c s) (String.◌∷◌ d t) String.[] h k = absurd (ground arith)
text_leb_trans (String.◌∷◌ c s) (String.◌∷◌ d t) (String.◌∷◌ e u) h k =
    ground (arith, text_leb_trans s t u)

pub text_leb_antisymm : (s t : String) → text_leb s t ≡ true → text_leb t s ≡ true → s ≡ t
unfolding text_leb
text_leb_antisymm String.[] String.[] h k = refl
text_leb_antisymm String.[] (String.◌∷◌ d t) h k = absurd (ground arith)
text_leb_antisymm (String.◌∷◌ c s) String.[] h k = absurd (ground arith)
text_leb_antisymm (String.◌∷◌ c s) (String.◌∷◌ d t) h k =
    ap₂ String.◌∷◌ (Char-path c d (ground arith))
      (text_leb_antisymm s t (ground arith) (ground arith))

insert_sorted_comm :
    (x y : String) (l : List String)
    → insert_sorted x (insert_sorted y l) ≡ insert_sorted y (insert_sorted x l)
unfolding insert_sorted
insert_sorted_comm x y [] =
    ground (arith, text_leb_total x y, text_leb_total y x, text_leb_antisymm x y)
insert_sorted_comm x y (z ∷ l) = ground (
  arith,
  insert_sorted_comm x y l,
  text_leb_total x y,
  text_leb_total y x,
  text_leb_antisymm x y,
  text_leb_trans x y z,
  text_leb_trans y x z,
)

pub text_set : IsSet String
text_set = hlevel IsScalar-prop

texts_set : IsSet (List String)
texts_set = hlevel IsScalar-prop

sorted-permᴰ : {xs ys : List String} → Permᴰ xs ys → sorted xs ≡ sorted ys
unfolding sorted
sorted-permᴰ Permᴰ.nil = refl
sorted-permᴰ (Permᴰ.cons e p) = ap₂ insert_sorted e (sorted-permᴰ p)
sorted-permᴰ (Permᴰ.swap {a} {b} {a'} {b'} {l} e f) =
    insert_sorted_comm a b (sorted l)
    ∙ ap₂ (λ x y. insert_sorted x (insert_sorted y (sorted l))) f e
sorted-permᴰ (Permᴰ.trans p q) = sorted-permᴰ p ∙ sorted-permᴰ q

-- Lists that are permutations of one another sort to the same list.
pub sorted-perm : {xs ys : List String} → Perm xs ys → sorted xs ≡ sorted ys
sorted-perm p = ∥∥₁_elim p (texts_set _ _) sorted-permᴰ
