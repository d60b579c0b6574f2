-- ===== src/Gui/Flow.antt =====
-- The tab "Flow Mapper" of gui/app.py: the state that it keeps between two runs of the script, and
-- what a run does for the button that was clicked. The client of gui/api_client.py is a record of
-- calls; an exception of a call is shown and leaves the state as it is at that point. What is drawn
-- is left out, and so is the request for the sheets of a file, which offers them for selection; the
-- values that the inputs return are arguments.
pub mod Pages
pub mod Editor
pub mod Server
use riskflow.Prelude.{
  Bool, true, false, List, [], ◌∷◌, map, Option, none, some, String, contains, ◌==◌, if◌then◌else◌,
}
use riskflow.Prelude.Dict.{Dict, get, put}
use riskflow.Prelude.Sort.{sorted}
use riskflow.Errors.{Result, ok, raise}
use riskflow.Exec.{Exec, ◌>>=◌, ◌>>◌, pure}
use riskflow.Float.{Float, one_float}
use riskflow.Schema.{ColumnMapping}
use riskflow.Session.{MappingSession}
use riskflow.TargetSchema.{FieldType, FieldDefinition}
use riskflow.Text.{is_blank, strip}

-- The value of the selection box for a header that has no target.
abbrev pub unmapped : String
unmapped = "-- unmapped --"

-- `options`
abbrev pub options : List String → List String
options target_fields = unmapped ∷ sorted target_fields

-- `{m["source_header"]: m["confidence"] for m in current_mappings}`
unfoldable pub confidences : Dict Float → List ColumnMapping → Dict Float
confidences d [] = d
confidences d (m ∷ ms) = confidences (put m.source_header m.confidence d) ms

abbrev pub or_one : Option Float → Float
or_one none = one_float
or_one (some x) = x

-- What `_mapping_editor` returns.
pub record Edit : Type 0 where
  pub mappings : List ColumnMapping
  pub unmapped_headers : List String

-- The loop over the headers, by the option that is selected for each.
unfoldable pub edit_headers : (String → String) → Dict Float → List String → Edit
edit_headers selected known [] = record { mappings = []; unmapped_headers = [] }
edit_headers selected known (h ∷ hs) =
    let rest = edit_headers selected known hs in
    if selected h == unmapped
    then record rest { unmapped_headers = h ∷ rest.unmapped_headers }
    else record rest {
      mappings =
          record { source_header = h; target_field = selected h; confidence = or_one (get h known) }
          ∷ rest.mappings;
    }

-- `_mapping_editor`
unfoldable pub mapping_editor : (String → String) → List String → List ColumnMapping → Edit
unfolding edit_headers confidences
mapping_editor selected source_headers current =
    edit_headers selected (confidences [] current) source_headers

pub data Step : Type 0 where
  upload review results : Step

-- `st.session_state`, by the entries of the tab.
pub record FlowState (R : Type 0) : Type 0 where
  pub step : Step
  pub session_id : Option String
  pub session_data : Option (MappingSession R)
  pub custom_field_types : Dict FieldType

-- A field of the body of a new schema: one of the original schema, or `{"type": ftype}`.
pub data FieldBody : Type 0 where
  original : FieldDefinition → FieldBody
  only_type : FieldType → FieldBody

-- `RiskFlowClient`, by what the tab uses.
pub record FlowClient (W R : Type 0) : Type 0 where
  pub create_session : String → String → Option String → Option String → Exec W (MappingSession R)
  pub add_target_fields : String → List String → Exec W (MappingSession R)
  pub update_mappings : String → List ColumnMapping → List String → Exec W (MappingSession R)
  pub finalise_session : String → Exec W (MappingSession R)
  pub delete_session : String → Exec W (Unit {0})
  pub get_schema : String → Exec W (Dict FieldDefinition)
  pub create_schema : String → Dict FieldBody → Exec W String

-- The button that is clicked, with the values of the inputs beside it.
pub data Click : Type 0 where
  -- the file, its name, the schema and the sheet
  create : String → String → Option String → Option String → Click
  add_field : String → FieldType → Click
  -- the options that are selected in the editor
  save finalise : (String → String) → Click
  start_over : Click
  save_schema : String → Click
  new_session : Click

-- A session id in a URL: no id is written as Python writes None.
abbrev pub id_text : Option String → String
id_text none = "None"
id_text (some id) = id

-- `{fname: original}`, and then `all_fields[fname] = {"type": ftype}` for each custom field.
unfoldable pub originals : Dict FieldDefinition → Dict FieldBody
originals [] = []
originals ((n, d) ∷ fs) = (n, original d) ∷ originals fs

unfoldable pub add_custom : Dict FieldBody → Dict FieldType → Dict FieldBody
add_custom body [] = body
add_custom body ((n, t) ∷ ts) = add_custom (put n (only_type t) body) ts

abbrev pub fields_or_none : Result (Dict FieldDefinition) → Dict FieldDefinition
fields_or_none (ok fs) = fs
fields_or_none (raise e) = []

module _ {R : Type 0} where
  -- The state when the tab is opened, and after a reset.
  unfoldable pub initial : FlowState R
  initial = record {
    step = upload;
    session_id = none;
    session_data = none;
    custom_field_types = [];
  }

module _ {W R : Type 0} (client : FlowClient W R) where
  -- `_reset_flow_session`: an exception of the request is ignored, and so is an empty id.
  abbrev pub reset_with : Option String → W → FlowState R × W
  reset_with none w = (initial, w)
  reset_with (some id) w =
      if id == "" then (initial, w) else (let (r, v) = client.delete_session id w in (initial, v))

  unfoldable pub reset_flow_session : FlowState R → W → FlowState R × W
  unfolding initial
  reset_flow_session st w = reset_with st.session_id w

  -- The new session is shown, or the error.
  abbrev pub opened : FlowState R → Result (MappingSession R) × W → FlowState R × W
  opened st (raise e, w) = (st, w)
  opened st (ok s, w) =
      (record st { session_id = some s.id; session_data = some s; step = review }, w)

  abbrev pub updated : FlowState R → Result (MappingSession R) × W → FlowState R × W
  updated st (raise e, w) = (st, w)
  updated st (ok s, w) = (record st { session_data = some s }, w)

  abbrev pub finished : FlowState R → Result (MappingSession R) × W → FlowState R × W
  finished st (raise e, w) = (st, w)
  finished st (ok s, w) = (record st { session_data = some s; step = results }, w)

  -- Step 1
  unfoldable pub upload_page : Click → FlowState R → W → FlowState R × W
  upload_page (create file name schema sheet) st w =
      opened st (client.create_session file name schema sheet w)
  upload_page _ st w = (st, w)

  -- "Add Field": the type is stored before the request is made.
  unfoldable pub add_custom_field :
      String → FieldType → MappingSession R → FlowState R → W → FlowState R × W
  add_custom_field name type s st w =
      if is_blank name
      then (st, w)
      else if contains name s.target_fields
      then (st, w)
      else updated (record st { custom_field_types = put name type st.custom_field_types })
          (client.add_target_fields (id_text st.session_id) (name ∷ []) w)

  abbrev pub edit_of : (String → String) → MappingSession R → Edit
  edit_of selected s = mapping_editor selected s.source_headers s.mappings

  abbrev pub send_edit : FlowState R → Edit → Exec W (MappingSession R)
  send_edit st e = client.update_mappings (id_text st.session_id) e.mappings e.unmapped_headers

  -- Step 2, with the session that is shown.
  unfoldable pub review_page : Click → MappingSession R → FlowState R → W → FlowState R × W
  unfolding reset_flow_session add_custom_field mapping_editor
  review_page (add_field name type) s st w = add_custom_field name type s st w
  review_page (save selected) s st w = updated st (send_edit st (edit_of selected s) w)
  review_page (finalise selected) s st w =
      finished st
        ((send_edit st (edit_of selected s) >> client.finalise_session (id_text st.session_id)) w)
  review_page start_over s st w = reset_flow_session st w
  review_page _ s st w = (st, w)

  -- "Save Schema": whatever the requests answer, the state stays.
  abbrev pub original_fields : String → W → Dict FieldDefinition × W
  original_fields name w =
      if name == ""
      then ([], w)
      else (let (r, v) = client.get_schema name w in (fields_or_none r, v))

  abbrev pub sent : FlowState R → Result String × W → FlowState R × W
  sent st (r, w) = (st, w)

  unfoldable pub save_new_schema : String → MappingSession R → FlowState R → W → FlowState R × W
  unfolding originals add_custom
  save_new_schema name s st w =
      let (fields, v) = original_fields s.schema_name w in
      if is_blank name
      then (st, w)
      else sent st (
          client.create_schema (strip name) (add_custom (originals fields) st.custom_field_types) v)

  abbrev pub offer_schema :
      Dict FieldType → String → MappingSession R → FlowState R → W → FlowState R × W
  offer_schema [] name s st w = (st, w)
  offer_schema (t ∷ ts) name s st w = save_new_schema name s st w

  -- Step 3, with the session that is shown; its button for a schema needs a custom field.
  unfoldable pub results_page : Click → MappingSession R → FlowState R → W → FlowState R × W
  unfolding save_new_schema reset_flow_session
  results_page (save_schema name) s st w = offer_schema st.custom_field_types name s st w
  results_page new_session s st w = reset_flow_session st w
  results_page _ s st w = (st, w)

  abbrev pub show_review : Click → Option (MappingSession R) → FlowState R → W → FlowState R × W
  show_review click none st w = reset_flow_session st w
  show_review click (some s) st w = review_page click s st w

  -- A result is a dict with entries.
  abbrev pub with_result : Click → MappingSession R → Option R → FlowState R → W → FlowState R × W
  with_result click s none st w = reset_flow_session st w
  with_result click s (some r) st w = results_page click s st w

  abbrev pub show_results : Click → Option (MappingSession R) → FlowState R → W → FlowState R × W
  show_results click none st w = reset_flow_session st w
  show_results click (some s) st w = with_result click s s.result st w

  abbrev pub page_of : Step → Click → FlowState R → W → FlowState R × W
  page_of upload click st w = upload_page click st w
  page_of review click st w = show_review click st.session_data st w
  page_of results click st w = show_results click st.session_data st w

  -- One run of the tab.
  unfoldable pub run_tab : Click → FlowState R → W → FlowState R × W
  unfolding upload_page review_page results_page
  run_tab click st w = page_of st.step click st w

  unfoldable pub run_tabs : List Click → FlowState R → W → FlowState R × W
  unfolding run_tab
  run_tabs [] st w = (st, w)
  run_tabs (c ∷ cs) st w = let (st', v) = run_tab c st w in run_tabs cs st' v
