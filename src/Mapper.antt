-- ===== src/Mapper.antt =====
-- adapters/slm/mapper.py: the mapper that asks a language model. openai's client, tenacity's
-- `retry`, `json.dumps` and pydantic's reading of the answer are parameters; the semaphore and
-- logging are left out.
pub mod Failures
use riskflow.Prelude.{
  ℕ, zero, suc, Bool, true, false, List, [], ◌∷◌, Option, none, some, String, if◌then◌else◌,
}
use riskflow.Prelude.Sort.{sorted, distinct}
use riskflow.Errors.{Exception, slm_unavailable, rate_limited, is_unreadable, Result, ok, raise}
use riskflow.Exec.{Exec, lift, ◌>>=◌, catch, throw}
use riskflow.Json.{◌<>◌}
use riskflow.Schema.{MappingResult}
use riskflow.TargetSchema.{SlmHint, TargetSchema, field_names}
use riskflow.Text.{join}
use riskflow.Value.{Row}

-- A response, by the contents of its choices.
pub record Response : Type 0 where
  pub choices : List (Option String)

pub record OpenAi (W : Type 0) : Type 0 where
  -- `chat.completions.create` with the system prompt and the user message
  pub create : String → String → Exec W Response
  pub dumps_headers : List String → String
  pub dumps_rows : List Row → String
  -- `MappingResult.model_validate_json`
  pub load : String → Result MappingResult

unfoldable pub hint_lines : List SlmHint → String
hint_lines [] = ""
hint_lines (h ∷ hs) =
    "- \"" <> h.source_alias <> "\" typically means " <> h.target <> "\n" <> hint_lines hs

unfoldable pub aliases_part : List SlmHint → String
unfolding hint_lines
aliases_part [] = "\nNo known aliases for this schema.\n"
aliases_part (h ∷ hs) = "\nKnown aliases:\n" <> hint_lines (h ∷ hs)

-- `_build_system_prompt`
unfoldable pub build_system_prompt : TargetSchema → String
unfolding aliases_part
build_system_prompt schema =
    let fields = join ", " (sorted (distinct (field_names schema))) in
    "You are a reinsurance data specialist. Map spreadsheet column headers to the standard schema.\n\n"
    <> "Target schema fields: "
    <> fields
    <> ".\n"
    <> aliases_part schema.slm_hints
    <> "\nRespond ONLY with valid JSON matching this structure:\n"
    <> "{\"mappings\": [{\"source_header\": \"...\", \"target_field\": \"...\", \"confidence\": <float>}], "
    <> "\"unmapped_headers\": [\"...\"]}\n\n"
    <> "Rules:\n"
    <> "- target_field MUST be one of: "
    <> fields
    <> "\n"
    <> "- confidence is a float between 0.0 and 1.0 — estimate YOUR certainty:\n"
    <> "  - 0.9-1.0: exact or near-exact name match\n"
    <> "  - 0.7-0.9: strong match via known alias or clear context\n"
    <> "  - 0.4-0.7: uncertain, plausible but ambiguous\n"
    <> "  - below 0.4: guess, low certainty\n"
    <> "- Do NOT default all confidences to the same value — vary based on match quality\n"
    <> "- Headers that don't map to any target field go in unmapped_headers"

abbrev pub is_rate_limited : Exception → Bool
is_rate_limited rate_limited = true
is_rate_limited _ = false

-- tenacity's `@retry(retry_if_exception_type, stop_after_attempt, reraise=True)`: the exceptions to
-- retry, the number of attempts, and the call.
pub record Tenacity (W : Type 0) : Type 0 where
  pub retry : (Exception → Bool) → ℕ → Exec W Response → Exec W Response

-- `_parse_response`
unfoldable pub parse_response : (String → Result MappingResult) → Response → Result MappingResult
parse_response load r = elim r.choices [
  | [] ↦ raise slm_unavailable
  | none ∷ _ ↦ raise slm_unavailable
  | some content ∷ _ ↦ elim (load content) [
    | ok m ↦ ok m
    | raise e ↦ if is_unreadable e then raise slm_unavailable else raise e
  ]
]

module _ {W : Type 0} (tenacity : Tenacity W) (client : OpenAi W) (schema : TargetSchema) where
  -- `_build_user_message`
  unfoldable pub build_user_message : List String → List Row → String
  build_user_message headers rows =
      "Source headers: "
      <> client.dumps_headers headers
      <> "\nSample rows: "
      <> client.dumps_rows rows

  -- `_call_with_retry`
  unfoldable pub call_with_retry : String → Exec W Response
  unfolding build_system_prompt
  call_with_retry message =
      tenacity.retry is_rate_limited 3 (client.create (build_system_prompt schema) message)

  -- `map_headers`: any exception of the call is one of its own.
  unfoldable pub map_headers : List String → List Row → Exec W MappingResult
  unfolding call_with_retry parse_response build_user_message
  map_headers headers rows =
      catch (call_with_retry (build_user_message headers rows)) (λ e. throw slm_unavailable)
      >>= λ response. lift (parse_response client.load response)
