-- ===== src/Tools/Linter/Files.antt =====
-- What tools/hexagonal_linter.py reports of the files, by the order of the layers.
use riskflow.Prelude.{
  ℕ, ◌≡◌, ◌↔◌, refl, sym, ap, ◌∙◌, true, false, ◌&&◌, List, [], ◌∷◌, ◌++◌, Option, none, some,
  String, ◌==◌, arith, contains, All, All-append, All-parts, if◌then◌else◌, Bool-cases, inl, inr,
}
use mathlib.Core.List.{append_assoc}
use mathlib.Core.Option.{some-injective}
use mathlib.Core.Path.{subst}
use riskflow.Schema.{is_empty}
use riskflow.Tools.Linter.{
  local_layers, Node, import_names, import_from, detect_layer, layer_of_parts, split_dots,
  extract_local_layer, top_package, check_package, check_import, check_names, check_node,
  check_nodes, check_tree, check_file, check_files, main,
}
use riskflow.Tools.Linter.Layers.{IsLayer, IsLayer-cases, Permitted, check_import-Permitted}

is_empty-append : {A : Type 0} (xs ys : List A) → is_empty (xs ++ ys) ≡ (is_empty xs && is_empty ys)
is_empty-append [] ys = refl
is_empty-append (x ∷ xs) ys = refl

empty_both :
    {A : Type 0} (xs ys : List A)
    → (is_empty (xs ++ ys) ≡ true) ↔ ((is_empty xs ≡ true) × (is_empty ys ≡ true))
empty_both [] ys = (λ h. (refl, h), λ h. h.1)
empty_both (x ∷ xs) ys = (λ h. absurd (ground (arith, h)), λ h. h.0)

-- The modules that the statements of a file name: of `from m import a` it is `m`.
abbrev pub modules_of : Node → List String
modules_of (import_names lineno ms) = ms
modules_of (import_from lineno none names) = []
modules_of (import_from lineno (some m) names) = if m == "" then [] else m ∷ []

abbrev pub modules : List Node → List String
modules [] = []
modules (n ∷ ns) = modules_of n ++ modules ns

module _ (layer : String) (h : IsLayer layer) where
  check_names-Permitted :
      (lineno : ℕ) (ms : List String)
      → (is_empty (check_names layer lineno ms) ≡ true) ↔ All (Permitted layer) ms
  unfolding check_names
  check_names-Permitted lineno [] = (λ e. tt, λ e. refl)
  check_names-Permitted lineno (m ∷ ms) =
      let both = empty_both (check_import layer lineno m) (check_names layer lineno ms) in
      let one = check_import-Permitted layer m lineno h in
      let rest = check_names-Permitted lineno ms in
      (λ e. (one.0 (both.0 e).0, rest.0 (both.0 e).1), λ (p, ps). both.1 (one.1 p, rest.1 ps))

  check_node-Permitted :
      (n : Node) → (is_empty (check_node layer n) ≡ true) ↔ All (Permitted layer) (modules_of n)
  unfolding check_node
  check_node-Permitted (import_names lineno ms) = check_names-Permitted lineno ms
  check_node-Permitted (import_from lineno none names) = (λ e. tt, λ e. refl)
  check_node-Permitted (import_from lineno (some m) names) = elim (Bool-cases (m == "")) [
    | inl blank ↦ rw blank (λ e. tt, λ e. refl)
    | inr named ↦
        let one = check_import-Permitted layer m lineno h in
        rw named (λ e. (one.0 e, tt), λ (p, _). one.1 p)
  ]

  check_nodes-Permitted :
      (ns : List Node)
      → (is_empty (check_nodes layer ns) ≡ true) ↔ All (Permitted layer) (modules ns)
  unfolding check_nodes
  check_nodes-Permitted [] = (λ e. tt, λ e. refl)
  check_nodes-Permitted (n ∷ ns) =
      let both = empty_both (check_node layer n) (check_nodes layer ns) in
      let one = check_node-Permitted n in
      let rest = check_nodes-Permitted ns in
      (
        λ e.
            All-append (Permitted layer) (modules_of n) (modules ns) (one.0 (both.0 e).0)
              (rest.0 (both.0 e).1),
        λ all.
            let (p, ps) = All-parts (Permitted layer) (modules_of n) (modules ns) all in
            both.1 (one.1 p, rest.1 ps),
      )

detect_layer-IsLayer :
    (order parts : List String) (l : String)
    → All (λ k. contains k local_layers ≡ true) order
    → detect_layer order parts ≡ some l
    → IsLayer l
unfolding detect_layer
detect_layer-IsLayer [] parts l h e = absurd (ground (arith, e))
detect_layer-IsLayer (k ∷ ks) parts l h e = elim (Bool-cases (contains k parts)) [
  | inl here ↦ let same : k ≡ l = ground (arith, e, here) in IsLayer-cases l (rw same at h.0)
  | inr there ↦ detect_layer-IsLayer ks parts l h.1 (rw there at e)
]

-- A file that has a layer and can be parsed names only modules that the layer may import.
abbrev pub IsClean : List String → List String × Option (List Node) → Type 0
IsClean order (parts, tree) =
    (layer : String) (ns : List Node)
    → detect_layer order parts ≡ some layer
    → tree ≡ some ns
    → All (Permitted layer) (modules ns)

check_file-IsClean :
    (order parts : List String) (tree : Option (List Node))
    → All (λ k. contains k local_layers ≡ true) order
    → (is_empty (check_file order parts tree) ≡ true) ↔ IsClean order (parts, tree)
unfolding check_file
check_file-IsClean order parts tree local = cases (detect_layer order parts) tree refl refl
  where
    cases :
        (o : Option String) (t : Option (List Node))
        → detect_layer order parts ≡ o
        → tree ≡ t
        → (is_empty (check_tree o t) ≡ true) ↔ (
            (layer : String) (ns : List Node)
            → o ≡ some layer
            → t ≡ some ns
            → All (Permitted layer) (modules ns))
    cases none t p q = (λ e layer ns found. absurd (ground (arith, found)), λ e. refl)
    cases (some l) none p q =
        (λ e layer ns found parsed. absurd (ground (arith, parsed)), λ e. refl)
    cases (some l) (some ns) p q =
        let both = check_nodes-Permitted l (detect_layer-IsLayer order parts l local p) ns in
        (
          λ e layer ms found parsed.
              subst (λ x. All (Permitted x) (modules ms)) (some-injective _ _ found)
                (subst (λ x. All (Permitted l) (modules x)) (some-injective _ _ parsed) (both.0 e)),
          λ clean. both.1 (clean l ns refl refl),
        )

check_files-IsClean :
    (order : List String) (files : List (List String × Option (List Node)))
    → All (λ k. contains k local_layers ≡ true) order
    → (is_empty (check_files order files) ≡ true) ↔ All (IsClean order) files
unfolding check_files
check_files-IsClean order [] local = (λ e. tt, λ e. refl)
check_files-IsClean order ((parts, tree) ∷ files) local =
    let one = check_file-IsClean order parts tree local in
    let rest = check_files-IsClean order files local in
    let both = empty_both (check_file order parts tree) (check_files order files) in
    (λ e. (one.0 (both.0 e).0, rest.0 (both.0 e).1), λ (p, ps). both.1 (one.1 p, rest.1 ps))

-- Whichever order the set of layers has, the script exits with 0 exactly when every file of a layer
-- that can be parsed names only modules that its layer may import: of a layer that is not further
-- out, or of no layer and then, in domain and ports, of no infrastructure package.
pub main-IsClean_iff :
    (order : List String) (files : List (List String × Option (List Node)))
    → All (λ k. contains k local_layers ≡ true) order
    → ((main order true files).1 ≡ false) ↔ All (IsClean order) files
unfolding main
main-IsClean_iff order files local =
    let clean = check_files-IsClean order files local in
    (λ e. clean.0 (ground (arith, e)), λ all. rw (clean.1 all) refl)

check_nodes-append :
    (layer : String) (ms ns : List Node)
    → check_nodes layer (ms ++ ns) ≡ check_nodes layer ms ++ check_nodes layer ns
unfolding check_nodes
check_nodes-append layer [] ns = refl
check_nodes-append layer (m ∷ ms) ns =
    rw (check_nodes-append layer ms ns) (sym (append_assoc (check_node layer m) _ _))

-- A statement `from src import …` is never reported, whichever layers it names: the errors of a file
-- are the same without it.
pub check_nodes-from_src :
    (layer : String) (ms ns : List Node) (lineno : ℕ) (names : List String)
    → check_nodes layer (ms ++ import_from lineno (some "src") names ∷ ns)
      ≡ check_nodes layer (ms ++ ns)
check_nodes-from_src layer ms ns lineno names =
    check_nodes-append layer ms (import_from lineno (some "src") names ∷ ns)
    ∙ ap (λ es. check_nodes layer ms ++ es) silent
    ∙ sym (check_nodes-append layer ms ns)
  where
    silent : check_nodes layer (import_from lineno (some "src") names ∷ ns) ≡ check_nodes layer ns
    silent =
        unfold check_nodes check_node check_import extract_local_layer layer_of_parts split_dots
          check_package top_package in
        ground arith
