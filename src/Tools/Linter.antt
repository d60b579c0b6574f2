-- ===== src/Tools/Linter.antt =====
-- tools/hexagonal_linter.py: which imports break the layers. Python's `ast` is a parameter, by the
-- import statements of a file in the order of `ast.walk`, and so is the order in which Python goes
-- through the set of layers. An error is modelled by what its message names.
pub mod Layers
pub mod Files
use Prim.Native.Char.{Char, code}
use Prim.Native.String
use riskflow.Prelude.{
  ℕ, ◌≡◌, refl, Bool, true, false, ◌&&◌, List, [], ◌∷◌, ◌++◌, Option, none, some, String, ◌==◌, eqb,
  contains, if◌then◌else◌,
}
use riskflow.Schema.{is_empty}

abbrev pub local_layers : List String
local_layers = "domain" ∷ "ports" ∷ "adapters" ∷ "entrypoint" ∷ []

-- `LAYER_RULES[layer]`; any other layer is a `KeyError`, which `check_file` never meets.
unfoldable pub layer_rules : String → List String
layer_rules layer =
    if layer == "domain"
    then "domain" ∷ "ports" ∷ []
    else if layer == "ports"
    then "domain" ∷ "ports" ∷ []
    else if layer == "adapters"
    then "domain" ∷ "ports" ∷ "adapters" ∷ []
    else "domain" ∷ "ports" ∷ "adapters" ∷ "entrypoint" ∷ []

abbrev pub infra_packages : List String
infra_packages = "structlog" ∷ "redis" ∷ "httpx" ∷ "fastapi" ∷ "uvicorn" ∷ "groq" ∷ []

-- `INFRA_BAN_LAYERS`
abbrev pub infra_ban_layers : List String
infra_ban_layers = "domain" ∷ "ports" ∷ []

pub data LintError : Type 0 where
  -- the layer, what it imports, the module and the line
  violation infra_import : String → String → String → ℕ → LintError

-- `ast.Import` by its names, and `ast.ImportFrom` by its module, if it has one, and its names.
pub data Node : Type 0 where
  import_names : ℕ → List String → Node
  import_from : ℕ → Option String → List String → Node

-- `_detect_layer`, over the set in its order.
unfoldable pub detect_layer : List String → List String → Option String
detect_layer [] parts = none
detect_layer (l ∷ ls) parts = if contains l parts then some l else detect_layer ls parts

-- `module.split(".")`
abbrev pub extend : Bool → Char → List String → List String
extend dot c [] = []
extend true c (p ∷ ps) = "" ∷ p ∷ ps
extend false c (p ∷ ps) = String.◌∷◌ c p ∷ ps

unfoldable pub split_dots : String → List String
split_dots String.[] = "" ∷ []
split_dots (String.◌∷◌ c s) = extend (eqb (code c) 46) c (split_dots s)

-- `parts[0] in LOCAL_LAYERS`
abbrev pub own_layer : String → Option String
own_layer p = if contains p local_layers then some p else none

unfoldable pub layer_of_parts : List String → Option String
layer_of_parts [] = none
layer_of_parts (p ∷ []) = own_layer p
layer_of_parts (p ∷ q ∷ ps) = if p == "src" && contains q local_layers then some q else own_layer p

-- `_extract_local_layer`
unfoldable pub extract_local_layer : String → Option String
unfolding layer_of_parts split_dots
extract_local_layer module_name = layer_of_parts (split_dots module_name)

-- `module.split(".")[0]`
abbrev pub head_or : List String → String
head_or [] = ""
head_or (p ∷ ps) = p

unfoldable pub top_package : String → String
unfolding split_dots
top_package module_name = head_or (split_dots module_name)

-- The two kinds of import that `_check_import` tells apart.
abbrev pub check_local : String → String → ℕ → String → List LintError
check_local layer m lineno imported =
    if contains imported (layer_rules layer) then [] else violation layer imported m lineno ∷ []

unfoldable pub check_package : String → String → ℕ → List LintError
check_package layer m lineno =
    if contains layer infra_ban_layers && contains (top_package m) infra_packages
    then infra_import layer (top_package m) m lineno ∷ []
    else []

abbrev pub check_found : String → String → ℕ → Option String → List LintError
check_found layer m lineno (some imported) = check_local layer m lineno imported
check_found layer m lineno none = check_package layer m lineno

-- `_check_import`
unfoldable pub check_import : String → ℕ → String → List LintError
unfolding extract_local_layer check_package layer_rules
check_import layer lineno m = check_found layer m lineno (extract_local_layer m)

unfoldable pub check_names : String → ℕ → List String → List LintError
check_names layer lineno [] = []
check_names layer lineno (m ∷ ms) = check_import layer lineno m ++ check_names layer lineno ms

unfoldable pub check_node : String → Node → List LintError
unfolding check_names check_import
check_node layer (import_names lineno ms) = check_names layer lineno ms
check_node layer (import_from lineno none names) = []
check_node layer (import_from lineno (some m) names) =
    if m == "" then [] else check_import layer lineno m

-- The loop over `ast.walk(tree)`.
unfoldable pub check_nodes : String → List Node → List LintError
unfolding check_node
check_nodes layer [] = []
check_nodes layer (n ∷ ns) = check_node layer n ++ check_nodes layer ns

-- A file outside of the layers, or one with a `SyntaxError`, has no errors.
abbrev pub check_tree : Option String → Option (List Node) → List LintError
check_tree none tree = []
check_tree (some layer) none = []
check_tree (some layer) (some nodes) = check_nodes layer nodes

-- `check_file`, by the parts of the path and the tree.
unfoldable pub check_file : List String → List String → Option (List Node) → List LintError
unfolding detect_layer check_nodes
check_file order parts tree = check_tree (detect_layer order parts) tree

-- The loop over the sorted files of src/.
unfoldable pub check_files : List String → List (List String × Option (List Node)) → List LintError
unfolding check_file
check_files order [] = []
check_files order ((parts, tree) ∷ files) = check_file order parts tree ++ check_files order files

-- `main`: the errors, and whether the script exits with 1.
unfoldable pub main :
    List String → Bool → List (List String × Option (List Node)) → List LintError × Bool
unfolding check_files
main order exit_on_error files =
    let errors = check_files order files in
    (errors, if is_empty errors then false else exit_on_error)
