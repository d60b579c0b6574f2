-- ===== src/Tools/ReleaseNotes/Sections.antt =====
-- Where a pull request stands in the release notes.
use mathlib.Core.List.{Perm, perm_middle, append_assoc, append-nil}
use mathlib.Core.List.Perm
use riskflow.Prelude.{
  ℕ, ◌≡◌, refl, ap, Bool, List, [], ◌∷◌, ◌++◌, map, String, arith, All, All-append,
}
use riskflow.Prelude.Sort.By.{IsInOrder, IsOrder, sort_by-perm, sort_by-IsInOrder, All-sort_by}
use riskflow.Tools.ReleaseNotes.{
  PullRequest, Category, features, fixes, infrastructure, docs, Groups, group_of, add_to, no_groups,
  greater, sort_groups, Line, title, empty_line, nothing_merged, heading, item, section_order,
  section, sections, categorise_pr, group_each, group_prs, format_release_notes,
}

-- The pull requests of some groups, and those of some lines.
abbrev pub entries : List Category → Groups → List PullRequest
entries [] g = []
entries (c ∷ cs) g = group_of c g ++ entries cs g

abbrev pub items : List Line → List PullRequest
items [] = []
items (item p ∷ ls) = p ∷ items ls
items (title v ∷ ls) = items ls
items (empty_line ∷ ls) = items ls
items (nothing_merged ∷ ls) = items ls
items (heading c ∷ ls) = items ls

under :
    (p : PullRequest) (xs : List PullRequest) {ys zs : List PullRequest}
    → Perm ys (p ∷ zs)
    → Perm (xs ++ ys) (p ∷ (xs ++ zs))
under p xs {ys} {zs} h = Perm.trans (Perm.append (Perm.refl xs) h) (perm_middle xs zs)

at_end : (p : PullRequest) (xs ys : List PullRequest) → Perm ((xs ++ p ∷ []) ++ ys) (p ∷ (xs ++ ys))
at_end p xs ys = rw (append_assoc xs (p ∷ []) ys) (perm_middle xs ys)

add_to-perm :
    (c : Category) (p : PullRequest) (g : Groups)
    → Perm (entries section_order (add_to c p g)) (p ∷ entries section_order g)
unfolding add_to group_of
add_to-perm features p g = at_end p g.of_features _
add_to-perm fixes p g = under p g.of_features (at_end p g.of_fixes _)
add_to-perm infrastructure p g =
    under p g.of_features (under p g.of_fixes (at_end p g.of_infrastructure (g.of_docs ++ [])))
add_to-perm docs p g =
    under p g.of_features (under p g.of_fixes (under p g.of_infrastructure (at_end p g.of_docs [])))

sort_groups-perm :
    (g : Groups) → Perm (entries section_order (sort_groups g)) (entries section_order g)
unfolding sort_groups group_of
sort_groups-perm g = Perm.append (sort_by-perm greater g.of_features) (
    Perm.append (sort_by-perm greater g.of_fixes) (
      Perm.append (sort_by-perm greater g.of_infrastructure)
        (Perm.append (sort_by-perm greater g.of_docs) (Perm.refl []))))

items-append_item :
    (ps : List PullRequest) (ls : List Line)
    → items ((map (λ p. item p) ps ++ empty_line ∷ []) ++ ls) ≡ ps ++ items ls
items-append_item [] ls = refl
items-append_item (p ∷ ps) ls = ap (λ qs. p ∷ qs) (items-append_item ps ls)

items-section :
    (c : Category) (ps : List PullRequest) (ls : List Line)
    → items (section c ps ++ ls) ≡ ps ++ items ls
unfolding section
items-section c [] ls = refl
items-section c (p ∷ ps) ls = items-append_item (p ∷ ps) ls

items-sections : (cs : List Category) (g : Groups) → items (sections cs g) ≡ entries cs g
unfolding sections
items-sections [] g = refl
items-sections (c ∷ cs) g =
    rw (items-section c (group_of c g) (sections cs g))
      (ap (λ ps. group_of c g ++ ps) (items-sections cs g))

greater-IsOrder : IsOrder greater
greater-IsOrder = record { asym = λ p q h. ground arith; chain = λ p q r h k. ground arith }

module _ (is_word : ℕ → Bool) (lower : String → String) where
  abbrev category : PullRequest → Category
  category = categorise_pr is_word lower

  abbrev IsOf : Category → List PullRequest → Type 0
  IsOf c ps = All (λ p. category p ≡ c) ps

  -- Every pull request of a group has its category.
  abbrev pub AreOf : Groups → Type 0
  AreOf g =
      IsOf features g.of_features
      × IsOf fixes g.of_fixes
      × IsOf infrastructure g.of_infrastructure
      × IsOf docs g.of_docs

  group_each-perm :
      (g : Groups) (ps : List PullRequest)
      → Perm (entries section_order (group_each is_word lower g ps)) (ps ++ entries section_order g)
  unfolding group_each
  group_each-perm g [] = Perm.refl _
  group_each-perm g (p ∷ ps) = Perm.trans (group_each-perm (add_to (category p) p g) ps) (
      Perm.trans (Perm.append (Perm.refl ps) (add_to-perm (category p) p g))
        (perm_middle ps (entries section_order g)))

  IsOf-snoc :
      (c : Category) (p : PullRequest) (ps : List PullRequest)
      → category p ≡ c
      → IsOf c ps
      → IsOf c (ps ++ p ∷ [])
  IsOf-snoc c p ps e h = All-append (λ q. category q ≡ c) ps (p ∷ []) h (e, tt)

  add_to-AreOf :
      (c : Category) (p : PullRequest) (g : Groups)
      → category p ≡ c
      → AreOf g
      → AreOf (add_to c p g)
  unfolding add_to
  add_to-AreOf features p g e h = let (a, b, c, d) = h in (IsOf-snoc features p _ e a, b, c, d)
  add_to-AreOf fixes p g e h = let (a, b, c, d) = h in (a, IsOf-snoc fixes p _ e b, c, d)
  add_to-AreOf infrastructure p g e h =
      let (a, b, c, d) = h in (a, b, IsOf-snoc infrastructure p _ e c, d)
  add_to-AreOf docs p g e h = let (a, b, c, d) = h in (a, b, c, IsOf-snoc docs p _ e d)

  group_each-AreOf :
      (g : Groups) (ps : List PullRequest) → AreOf g → AreOf (group_each is_word lower g ps)
  unfolding group_each
  group_each-AreOf g [] h = h
  group_each-AreOf g (p ∷ ps) h =
      group_each-AreOf (add_to (category p) p g) ps (add_to-AreOf (category p) p g refl h)

  sort_groups-AreOf : (g : Groups) → AreOf g → AreOf (sort_groups g)
  unfolding sort_groups
  sort_groups-AreOf g h =
      let (a, b, c, d) = h in
      (
        All-sort_by greater (λ p. category p ≡ features) g.of_features a,
        All-sort_by greater (λ p. category p ≡ fixes) g.of_fixes b,
        All-sort_by greater (λ p. category p ≡ infrastructure) g.of_infrastructure c,
        All-sort_by greater (λ p. category p ≡ docs) g.of_docs d,
      )

  sort_groups-IsInOrder :
      (g : Groups) (c : Category) → IsInOrder greater (group_of c (sort_groups g))
  unfolding sort_groups group_of
  sort_groups-IsInOrder g features = sort_by-IsInOrder greater greater-IsOrder g.of_features
  sort_groups-IsInOrder g fixes = sort_by-IsInOrder greater greater-IsOrder g.of_fixes
  sort_groups-IsInOrder g infrastructure =
      sort_by-IsInOrder greater greater-IsOrder g.of_infrastructure
  sort_groups-IsInOrder g docs = sort_by-IsInOrder greater greater-IsOrder g.of_docs

  group_prs-perm :
      (ps : List PullRequest) → Perm (entries section_order (group_prs is_word lower ps)) ps
  unfolding group_prs no_groups group_of
  group_prs-perm ps =
      Perm.trans (sort_groups-perm (group_each is_word lower no_groups ps))
        (rw (append-nil ps) at (group_each-perm no_groups ps))

  group_prs-AreOf : (ps : List PullRequest) → AreOf (group_prs is_word lower ps)
  unfolding group_prs no_groups
  group_prs-AreOf ps = sort_groups-AreOf _ (group_each-AreOf no_groups ps (tt, tt, tt, tt))

  group_prs-IsInOrder :
      (ps : List PullRequest) (c : Category)
      → IsInOrder greater (group_of c (group_prs is_word lower ps))
  unfolding group_prs
  group_prs-IsInOrder ps c = sort_groups-IsInOrder (group_each is_word lower no_groups ps) c

  items-format_release_notes :
      (version : String) (ps : List PullRequest)
      → Perm (items (format_release_notes is_word lower version ps)) ps
  unfolding format_release_notes
  items-format_release_notes version [] = Perm.refl []
  items-format_release_notes version (p ∷ ps) =
      rw (items-sections section_order (group_prs is_word lower (p ∷ ps))) (group_prs-perm (p ∷ ps))

  -- The notes have an item for every pull request, as often as it is given and for no other; a
  -- group has those of its category, ordered by their numbers.
  pub format_release_notes-IsComplete :
      (version : String) (ps : List PullRequest)
      → Perm (items (format_release_notes is_word lower version ps)) ps
        × AreOf (group_prs is_word lower ps)
        × ((c : Category) → IsInOrder greater (group_of c (group_prs is_word lower ps)))
  format_release_notes-IsComplete version ps =
      (items-format_release_notes version ps, group_prs-AreOf ps, group_prs-IsInOrder ps)
