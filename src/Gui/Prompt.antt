-- ===== src/Gui/Prompt.antt =====
-- The prompt that the tab "Harness Debugger" of gui/app.py shows for a schema, beside the one that
-- adapters/slm/mapper.py sends. The page reads the schema's file with YAML; a field or a hint is what
-- the file says, so the schema is taken as it is loaded.
use Prim.Native.String.{count}
use text.Mathlib.TextLemmas.{length-append}
use riskflow.Prelude.{◌≡◌, ◌≢◌, refl, ap, ◌∙◌, String, List, [], ◌∷◌, arith}
use riskflow.Prelude.Dict.{keys}
use riskflow.Prelude.Sort.{sorted, distinct, contains-distinct}
use riskflow.Prelude.{AllDistinct}
use riskflow.Json.{◌<>◌}
use riskflow.Mapper.{hint_lines, aliases_part, build_system_prompt}
use riskflow.TargetSchema.{TargetSchema, SlmHint}
use riskflow.Text.{join}

-- `for hint in hints: prompt += …`
unfoldable pub shown_hints : List SlmHint → String
shown_hints [] = ""
shown_hints (h ∷ hs) =
    "- \"" <> h.source_alias <> "\" typically means " <> h.target <> "\n" <> shown_hints hs

unfoldable pub shown_aliases : List SlmHint → String
unfolding shown_hints
shown_aliases [] = "\nNo known aliases for this schema.\n"
shown_aliases (h ∷ hs) = "\nKnown aliases:\n" <> shown_hints (h ∷ hs)

-- The prompt of "SLM Prompt (what the AI sees)".
unfoldable pub shown_prompt : TargetSchema → String
unfolding shown_aliases
shown_prompt schema =
    let fields = join ", " (sorted (keys schema.fields)) in
    "You are a reinsurance data specialist. Map spreadsheet column headers to the standard schema.\n\n"
    <> "Target schema fields: "
    <> fields
    <> ".\n"
    <> shown_aliases schema.slm_hints
    <> "\nRespond ONLY with valid JSON matching this structure:\n"
    <> "{\"mappings\": [{\"source_header\": \"...\", \"target_field\": \"...\", \"confidence\": 0.95}], "
    <> "\"unmapped_headers\": [\"...\"]}\n\n"
    <> "Rules:\n"
    <> "- target_field MUST be one of: "
    <> fields
    <> "\n"
    <> "- confidence is a float between 0.0 and 1.0\n"
    <> "- Headers that don't map to any target field go in unmapped_headers"

shown_hints-hint_lines : (hs : List SlmHint) → shown_hints hs ≡ hint_lines hs
unfolding shown_hints hint_lines
shown_hints-hint_lines [] = refl
shown_hints-hint_lines (h ∷ hs) =
    ap (λ rest. "- \"" <> h.source_alias <> "\" typically means " <> h.target <> "\n" <> rest)
      (shown_hints-hint_lines hs)

shown_aliases-aliases_part : (hs : List SlmHint) → shown_aliases hs ≡ aliases_part hs
unfolding shown_aliases aliases_part
shown_aliases-aliases_part [] = refl
shown_aliases-aliases_part (h ∷ hs) =
    ap (λ rest. "\nKnown aliases:\n" <> rest) (shown_hints-hint_lines (h ∷ hs))

distinct_same : (xs : List String) → AllDistinct xs → distinct xs ≡ xs
unfolding distinct
distinct_same [] h = refl
distinct_same (x ∷ xs) h =
    rw (contains-distinct x xs ∙ h.0) (ap (λ ys. x ∷ ys) (distinct_same xs h.1))

-- The page never shows the prompt that the model is sent.
pub shown_prompt-build_system_prompt :
    (schema : TargetSchema)
    → AllDistinct (keys schema.fields)
    → shown_prompt schema ≢ build_system_prompt schema
unfolding shown_prompt build_system_prompt
shown_prompt-build_system_prompt schema apart h =
    let same_fields =
      ap (λ ks. count (join ", " (sorted ks))) (distinct_same (keys schema.fields) apart) in
    let same_aliases = ap count (shown_aliases-aliases_part schema.slm_hints) in
    let lengths = simp (length-append) at (ap count h) in
    omega (arith, same_fields, same_aliases, lengths)
