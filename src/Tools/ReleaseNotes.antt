-- ===== src/Tools/ReleaseNotes.antt =====
-- tools/release_notes.py: the categories of the merged pull requests, their groups and the lines of
-- the notes, by what a line shows. `str.lower` and the word characters of Unicode are parameters; the
-- calls of git and gh are left out.
pub mod Sections
use riskflow.Prelude.{
  ℕ, Bool, true, false, not, ◌&&◌, ◌||◌, List, [], ◌∷◌, ◌++◌, map, Option, none, some, String, ltb,
  eqb, if◌then◌else◌,
}
use riskflow.Prelude.Sort.By.{sort_by}
use riskflow.Schema.{is_empty}
use riskflow.Text.{codes}

pub record PullRequest : Type 0 where
  pub number : ℕ
  pub title : String
  pub merged_at : String

pub data Category : Type 0 where
  features fixes infrastructure docs : Category

-- `\bword\b`, or `\bwords?\b`.
pub data Pattern : Type 0 where
  word plural : String → Pattern

-- `_CATEGORY_RULES`
abbrev pub category_rules : List (Category × List Pattern)
category_rules =
    (
      fixes,
      word "fix"
          ∷ word "fixes"
          ∷ word "fixed"
          ∷ word "upgrade"
          ∷ word "bump"
          ∷ word "patch"
          ∷ word "cve"
          ∷ word "security"
          ∷ [],
    )
    ∷ (
      infrastructure,
      word "ci"
          ∷ word "cd"
          ∷ word "docker"
          ∷ word "workflow"
          ∷ word "hook"
          ∷ word "pre-commit"
          ∷ word "coverage"
          ∷ word "release"
          ∷ word "lint"
          ∷ [],
    )
    ∷ (
      docs,
      plural "doc"
          ∷ word "documentation"
          ∷ word "readme"
          ∷ word "presentation"
          ∷ word "session"
          ∷ plural "lesson"
          ∷ [],
    )
    ∷ (
      features,
      word "add"
          ∷ word "implement"
          ∷ word "new"
          ∷ word "create"
          ∷ word "support"
          ∷ word "enable"
          ∷ [],
    )
    ∷ []

module _ (is_word : ℕ → Bool) where
  abbrev pub is_word_at : Option ℕ → Bool
  is_word_at none = false
  is_word_at (some c) = is_word c

  -- `\b` between two characters, of which either may be missing.
  abbrev pub boundary : Option ℕ → Option ℕ → Bool
  boundary before after = if is_word_at before then not (is_word_at after) else is_word_at after

  abbrev pub first : List ℕ → Option ℕ
  first [] = none
  first (c ∷ s) = some c

  -- The literal at the front, and a boundary behind it.
  unfoldable pub match_rest : List ℕ → Option ℕ → List ℕ → Bool
  match_rest [] before s = boundary before (first s)
  match_rest (l ∷ ls) before [] = false
  match_rest (l ∷ ls) before (c ∷ s) = eqb l c && match_rest ls (some c) s

  abbrev pub match_at : List ℕ → Option ℕ → List ℕ → Bool
  match_at literal before s = boundary before (first s) && match_rest literal before s

  -- `re.search`, from the front.
  unfoldable pub search_from : List ℕ → Option ℕ → List ℕ → Bool
  unfolding match_rest
  search_from literal before [] = match_at literal before []
  search_from literal before (c ∷ s) =
      match_at literal before (c ∷ s) || search_from literal (some c) s

  unfoldable pub search : Pattern → List ℕ → Bool
  unfolding search_from
  search (word w) s = search_from (codes w) none s
  search (plural w) s = search_from (codes w ++ b's' ∷ []) none s || search_from (codes w) none s

  unfoldable pub search_any : List Pattern → List ℕ → Bool
  unfolding search
  search_any [] s = false
  search_any (p ∷ ps) s = search p s || search_any ps s

  -- The loop over the rules: the first that matches wins, and else it is a feature.
  unfoldable pub first_category : List (Category × List Pattern) → List ℕ → Category
  unfolding search_any
  first_category [] s = features
  first_category ((c, ps) ∷ rules) s = if search_any ps s then c else first_category rules s

  unfoldable pub categorise_pr : (String → String) → PullRequest → Category
  unfolding first_category
  categorise_pr lower p = first_category category_rules (codes (lower p.title))

-- `groups`, by its four keys.
pub record Groups : Type 0 where
  pub of_features : List PullRequest
  pub of_fixes : List PullRequest
  pub of_infrastructure : List PullRequest
  pub of_docs : List PullRequest

unfoldable pub group_of : Category → Groups → List PullRequest
group_of features g = g.of_features
group_of fixes g = g.of_fixes
group_of infrastructure g = g.of_infrastructure
group_of docs g = g.of_docs

-- `groups[cat].append(pr)`
unfoldable pub add_to : Category → PullRequest → Groups → Groups
add_to features p g = record g { of_features = g.of_features ++ p ∷ [] }
add_to fixes p g = record g { of_fixes = g.of_fixes ++ p ∷ [] }
add_to infrastructure p g = record g { of_infrastructure = g.of_infrastructure ++ p ∷ [] }
add_to docs p g = record g { of_docs = g.of_docs ++ p ∷ [] }

unfoldable pub no_groups : Groups
no_groups = record { of_features = []; of_fixes = []; of_infrastructure = []; of_docs = [] }

abbrev pub greater : PullRequest → PullRequest → Bool
greater p q = ltb q.number p.number

-- `groups[cat].sort(key=lambda p: p.number)`
unfoldable pub sort_groups : Groups → Groups
unfolding sort_by
sort_groups g = record {
  of_features = sort_by greater g.of_features;
  of_fixes = sort_by greater g.of_fixes;
  of_infrastructure = sort_by greater g.of_infrastructure;
  of_docs = sort_by greater g.of_docs;
}

-- A line of the notes.
pub data Line : Type 0 where
  title : String → Line
  empty_line : Line
  nothing_merged : Line
  heading : Category → Line
  item : PullRequest → Line

-- `_SECTION_ORDER`
abbrev pub section_order : List Category
section_order = features ∷ fixes ∷ infrastructure ∷ docs ∷ []

unfoldable pub section : Category → List PullRequest → List Line
section c ps = if is_empty ps then [] else heading c ∷ (map (λ p. item p) ps ++ empty_line ∷ [])

unfoldable pub sections : List Category → Groups → List Line
unfolding section group_of
sections [] g = []
sections (c ∷ cs) g = section c (group_of c g) ++ sections cs g

module _ (is_word : ℕ → Bool) (lower : String → String) where
  -- The loop over the pull requests.
  unfoldable pub group_each : Groups → List PullRequest → Groups
  unfolding add_to categorise_pr
  group_each g [] = g
  group_each g (p ∷ ps) = group_each (add_to (categorise_pr is_word lower p) p g) ps

  unfoldable pub group_prs : List PullRequest → Groups
  unfolding group_each no_groups sort_groups
  group_prs ps = sort_groups (group_each no_groups ps)

  -- The lines that `format_release_notes` joins.
  unfoldable pub format_release_notes : String → List PullRequest → List Line
  unfolding sections group_prs
  format_release_notes version ps =
      title version
      ∷ empty_line
      ∷ (if is_empty ps then nothing_merged ∷ [] else sections section_order (group_prs ps))
