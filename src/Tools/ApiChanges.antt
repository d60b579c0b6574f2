-- ===== src/Tools/ApiChanges.antt =====
-- tools/check_api_changes.py: what changed between two OpenAPI documents. A document is given by what
-- the script reads of it, and a change by the message that the script makes of it. The script goes
-- through sets of methods and of status codes in an order that Python does not fix; here it is the
-- order of the documents. Other keys of a path item than methods hold no operation.
pub mod Loops
pub mod Parameters
pub mod Breaking
use riskflow.Prelude.{
  ◌≡◌, Bool, true, false, not, ◌&&◌, List, [], ◌∷◌, ◌++◌, Option, none, some, String, contains,
  if◌then◌else◌,
}
use riskflow.Prelude.Dict.{Dict, get, put, keys}
use riskflow.Errors.{key_error, Result, ok, raise, ◌>>=◌}

-- `p.get("name")` and `p.get("required", False)`
pub record Parameter : Type 0 where
  pub name : Option String
  pub required : Bool

-- `op.get("parameters", [])`, and the keys of `op.get("responses", {})`
pub record Operation : Type 0 where
  pub parameters : List Parameter
  pub responses : List String

abbrev pub PathItem : Type 0
PathItem = Dict Operation

-- `spec.get("paths", {})`
abbrev pub Spec : Type 0
Spec = Dict PathItem

-- The change to a path, or to a method of a path and what is named there.
pub data Change : Type 0 where
  removed_path added_path : String → Change
  removed_method added_method : String → String → Change
  removed_required removed_optional added_required : String → String → String → Change
  added_optional to_optional to_required : String → String → String → Change
  removed_response added_response : String → String → String → Change

-- The lists `breaking` and `non_breaking`.
pub record Changes : Type 0 where
  pub breaking : List Change
  pub non_breaking : List Change

pub data ChangeKind : Type 0 where
  none_found non_breaking_found breaking_found : ChangeKind

pub record ChangeResult : Type 0 where
  pub kind : ChangeKind
  pub changes : List Change

abbrev pub no_changes : Changes
no_changes = record { breaking = []; non_breaking = [] }

abbrev pub breaks : Change → Result Changes
breaks c = ok (record { breaking = c ∷ []; non_breaking = [] })

abbrev pub mends : Change → Result Changes
mends c = ok (record { breaking = []; non_breaking = c ∷ [] })

abbrev pub joined : Changes → Changes → Changes
joined a b = record {
  breaking = a.breaking ++ b.breaking;
  non_breaking = a.non_breaking ++ b.non_breaking;
}

-- One comparison, and then another.
infixr 20 ◌<+>◌
abbrev pub ◌<+>◌ : Result Changes → Result Changes → Result Changes
m <+> n = m >>= λ a. n >>= λ b. ok (joined a b)

-- A loop of comparisons.
unfoldable pub each : (String → Result Changes) → List String → Result Changes
each f [] = ok no_changes
each f (x ∷ xs) = f x <+> each f xs

abbrev pub http_methods : List String
http_methods = "get" ∷ "post" ∷ "put" ∷ "patch" ∷ "delete" ∷ "head" ∷ "options" ∷ "trace" ∷ []

-- `m in HTTP_METHODS`
unfoldable pub is_method : String → Bool
is_method m = contains m http_methods

-- `{p["name"]: p for p in parameters}`
unfoldable pub by_name : Dict Parameter → List Parameter → Result (Dict Parameter)
by_name d [] = ok d
by_name d (p ∷ ps) = elim p.name [ none ↦ raise key_error | some n ↦ by_name (put n p d) ps ]

abbrev pub required : Option Parameter → Bool
required none = false
required (some p) = p.required

-- The two flags of a parameter that both documents have.
unfoldable pub compare_required : String → String → String → Bool → Bool → Result Changes
compare_required method path name true false = breaks (to_optional name method path)
compare_required method path name false true = breaks (to_required name method path)
compare_required method path name _ _ = ok no_changes

module _ (path method : String) where
  unfoldable pub old_parameter : Dict Parameter → Dict Parameter → String → Result Changes
  old_parameter old new name =
      if contains name (keys new)
      then ok no_changes
      else if required (get name old)
      then breaks (removed_required name method path)
      else mends (removed_optional name method path)

  unfoldable pub new_parameter : Dict Parameter → Dict Parameter → String → Result Changes
  new_parameter old new name =
      if contains name (keys old)
      then ok no_changes
      else if required (get name new)
      then breaks (added_required name method path)
      else mends (added_optional name method path)

  unfoldable pub shared_parameter : Dict Parameter → Dict Parameter → String → Result Changes
  unfolding compare_required
  shared_parameter old new name =
      if contains name (keys new)
      then compare_required method path name (required (get name old)) (required (get name new))
      else ok no_changes

  -- `_compare_parameters`, over the dicts by name.
  unfoldable pub compare_named : Dict Parameter → Dict Parameter → Result Changes
  unfolding old_parameter new_parameter shared_parameter each
  compare_named old new =
      each (old_parameter old new) (keys old)
      <+> each (new_parameter old new) (keys new)
      <+> each (shared_parameter old new) (keys old)

  unfoldable pub compare_parameters : List Parameter → List Parameter → Result Changes
  unfolding compare_named by_name
  compare_parameters olds news =
      by_name [] olds >>= λ old. by_name [] news >>= λ new. compare_named old new

  unfoldable pub old_response : List String → String → Result Changes
  old_response news code =
      if contains code news then ok no_changes else breaks (removed_response code method path)

  unfoldable pub new_response : List String → String → Result Changes
  new_response olds code =
      if contains code olds then ok no_changes else mends (added_response code method path)

  -- `_compare_responses`
  unfoldable pub compare_responses : List String → List String → Result Changes
  unfolding old_response new_response each
  compare_responses olds news = each (old_response news) olds <+> each (new_response olds) news

  -- `_compare_operation`
  unfoldable pub compare_operation : Operation → Operation → Result Changes
  unfolding compare_parameters compare_responses
  compare_operation old new =
      compare_parameters old.parameters new.parameters
      <+> compare_responses old.responses new.responses

-- `{m for m in item if m in HTTP_METHODS}`, asked for one name.
abbrev pub has_method : String → PathItem → Bool
has_method m item = is_method m && contains m (keys item)

abbrev pub both :
    Option Operation → Option Operation → (Operation → Operation → Result Changes) → Result Changes
both (some a) (some b) f = f a b
both _ _ f = ok no_changes

module _ (path : String) where
  unfoldable pub old_method : PathItem → PathItem → String → Result Changes
  old_method old new m =
      if has_method m old && not (has_method m new)
      then breaks (removed_method m path)
      else ok no_changes

  unfoldable pub new_method : PathItem → PathItem → String → Result Changes
  new_method old new m =
      if has_method m new && not (has_method m old)
      then mends (added_method m path)
      else ok no_changes

  unfoldable pub shared_method : PathItem → PathItem → String → Result Changes
  unfolding compare_operation
  shared_method old new m =
      if has_method m old && has_method m new
      then both (get m old) (get m new) (compare_operation path m)
      else ok no_changes

  -- `_compare_path_item`
  unfoldable pub compare_path_item : PathItem → PathItem → Result Changes
  unfolding old_method new_method shared_method each
  compare_path_item old new =
      each (old_method old new) (keys old)
      <+> each (new_method old new) (keys new)
      <+> each (shared_method old new) (keys old)

unfoldable pub old_path : Spec → String → Result Changes
old_path new p = if contains p (keys new) then ok no_changes else breaks (removed_path p)

unfoldable pub new_path : Spec → String → Result Changes
new_path old p = if contains p (keys old) then ok no_changes else mends (added_path p)

abbrev pub both_items :
    Option PathItem → Option PathItem → (PathItem → PathItem → Result Changes) → Result Changes
both_items (some a) (some b) f = f a b
both_items _ _ f = ok no_changes

unfoldable pub shared_path : Spec → Spec → String → Result Changes
unfolding compare_path_item
shared_path old new p =
    if contains p (keys new)
    then both_items (get p old) (get p new) (compare_path_item p)
    else ok no_changes

-- `if breaking: … if non_breaking: …`
classified : List Change → List Change → ChangeResult
classified (b ∷ bs) ns = record { kind = breaking_found; changes = b ∷ bs ++ ns }
classified [] (n ∷ ns) = record { kind = non_breaking_found; changes = n ∷ ns }
classified [] [] = record { kind = none_found; changes = [] }

unfoldable pub classify : Changes → ChangeResult
unfolding classified
classify c = classified c.breaking c.non_breaking

-- `detect_changes`
unfoldable pub detect_changes : Spec → Spec → Result ChangeResult
unfolding old_path new_path shared_path each classify
detect_changes old new =
    each (old_path new) (keys old)
      <+> each (new_path old) (keys new)
      <+> each (shared_path old new) (keys old)
    >>= λ c. ok (classify c)
