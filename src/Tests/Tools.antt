-- ===== src/Tests/Tools.antt =====
-- The theorems about the scripts of tools/ at concrete inputs.
use riskflow.Prelude.{
  ℕ, leb, eqb, ◌&&◌, ◌||◌, map, ◌≡◌, ◌↔◌, refl, Bool, true, false, List, [], ◌∷◌, ◌++◌, Option,
  none, some, String, All, contains,
}
use riskflow.Errors.{ok}
use riskflow.Tools.ApiChanges.{
  Parameter, Operation, Spec, ChangeKind, ChangeResult, breaking_found, detect_changes, to_optional,
}
use riskflow.Tools.ApiChanges.Breaking.{Compatible, is_breaking, detect_changes-Compatible_iff}
use mathlib.Core.List.{Perm}
use riskflow.Prelude.Sort.By.{IsInOrder}
use riskflow.Tools.ReleaseNotes.{
  PullRequest, Category, greater, group_of, categorise_pr, group_prs, format_release_notes,
}
use riskflow.Tools.ReleaseNotes.Sections.{items, AreOf, format_release_notes-IsComplete}
use riskflow.Tools.Linter.{
  Node, import_names, import_from, LintError, violation, infra_import, check_nodes, main,
  local_layers,
}
use riskflow.Tools.Linter.Files.{IsClean, main-IsClean_iff}

-- The upload with its schema required, and with it optional.
abbrev upload_with : Bool → Spec
upload_with needed =
    (
      "/upload",
      (
        "post",
        record {
          parameters = record { name = some "schema"; required = needed } ∷ [];
          responses = "200" ∷ [];
        },
      )
          ∷ [],
    )
    ∷ []

relaxed :
    detect_changes (upload_with true) (upload_with false)
    ≡ ok (record { kind = breaking_found; changes = to_optional "schema" "post" "/upload" ∷ [] })
unfolding detect_changes riskflow.Prelude.Dict.get riskflow.Tools.ApiChanges.is_method
    riskflow.Prelude.Dict.put
relaxed = refl

detect_changes-Compatible_iff_example :
    ((r : ChangeResult) × (detect_changes (upload_with true) (upload_with false) ≡ ok r)
      × (is_breaking r.kind ≡ false))
    ↔ Compatible (upload_with true) (upload_with false)
detect_changes-Compatible_iff_example =
    detect_changes-Compatible_iff (upload_with true) (upload_with false)

abbrev routes_file : List String × Option (List Node)
routes_file = (
  "src" ∷ "domain" ∷ "model" ∷ "job.py" ∷ [],
  some (
      import_names 1 ("redis.asyncio" ∷ "uuid" ∷ [])
      ∷ import_from 2 (some "src.adapters.http.routes") ("create_router" ∷ [])
      ∷ []),
)

reported : main local_layers true (routes_file ∷ []) ≡ (
  infra_import "domain" "redis" "redis.asyncio" 1
      ∷ violation "domain" "adapters" "src.adapters.http.routes" 2
      ∷ [],
  true,
)
unfolding main riskflow.Tools.Linter.top_package
reported = refl

main-IsClean_iff_example :
    ((main local_layers true (routes_file ∷ [])).1 ≡ false)
    ↔ All (IsClean local_layers) (routes_file ∷ [])
main-IsClean_iff_example =
    main-IsClean_iff local_layers (routes_file ∷ []) (refl, (refl, (refl, (refl, tt))))

-- Word characters of ASCII, and titles in lower case already.
abbrev ascii_word : ℕ → Bool
ascii_word c = leb b'a' c && leb c b'z' || leb b'0' c && leb c b'9' || eqb c b'_'

abbrev two_prs : List PullRequest
two_prs =
    record { number = 2; title = "fix the docs"; merged_at = "2024" }
    ∷ record { number = 1; title = "docker image"; merged_at = "2024" }
    ∷ []

format_release_notes-IsComplete_example :
    Perm (items (format_release_notes ascii_word (λ s. s) "1.0.0" two_prs)) two_prs
    × AreOf ascii_word (λ s. s) (group_prs ascii_word (λ s. s) two_prs)
    × ((c : Category) → IsInOrder greater (group_of c (group_prs ascii_word (λ s. s) two_prs)))
format_release_notes-IsComplete_example =
    format_release_notes-IsComplete ascii_word (λ s. s) "1.0.0" two_prs

-- The first rule that matches wins, and "docker" is no "doc".
categories :
    map (λ p. categorise_pr ascii_word (λ s. s) p) two_prs
    ≡ Category.fixes ∷ Category.infrastructure ∷ []
unfolding categorise_pr
categories = refl
