-- ===== src/Tests/Gui.antt =====
-- The theorems about the web interface at concrete inputs.
use riskflow.Prelude.{
  ◌≡◌, ◌↔◌, ◌+◌, refl, true, List, [], ◌∷◌, none, some, String, count, AllDistinct,
}
use riskflow.Prelude.Dict.{put}
use riskflow.Errors.{Exception, ok, raise, runtime_error}
use riskflow.Routes.{Failure}
use riskflow.Session.{is_created, update_mappings}
use riskflow.Gui.Flow.{FlowClient, Click, Edit, results, initial, mapping_editor, run_tabs}
use riskflow.Gui.Flow.Editor.{IsSelection, chosen, sources, mapping_editor-update_mappings}
use riskflow.Gui.Flow.Pages.{IsFlow}
use riskflow.Gui.Flow.Server.{served, run_tabs-served}
use riskflow.TargetSchema.{FieldType}
use riskflow.Tests.{plain_libraries}
use riskflow.Tests.Finalised.{
  Sessions, memory_sessions, memory-IsSessionStore, router, open_session, dump,
}

abbrev to_currency : String → String
to_currency h = "Currency"

currency_offered : IsSelection to_currency open_session.target_fields
unfolding riskflow.Prelude.Sort.sorted
currency_offered h = refl

abbrev currency_edit : Edit
currency_edit = mapping_editor to_currency open_session.source_headers open_session.mappings

mapping_editor-update_mappings_example :
    ((x : String)
      → count x (sources currency_edit.mappings) + count x currency_edit.unmapped_headers
        ≡ count x open_session.source_headers)
    × ((update_mappings currency_edit.mappings currency_edit.unmapped_headers open_session
          ≡ ok (record open_session {
            mappings = currency_edit.mappings;
            unmapped_headers = currency_edit.unmapped_headers;
          }))
        ↔ ((is_created open_session.status ≡ true)
            × AllDistinct (chosen to_currency open_session.source_headers)))
mapping_editor-update_mappings_example =
    mapping_editor-update_mappings to_currency open_session currency_offered

-- A client that opens a session and fails in all else, before the routes answer it.
abbrev opening_client : FlowClient Sessions String
opening_client = record {
  create_session = λ file name schema sheet w. (ok open_session, put "s" open_session w);
  add_target_fields = λ id fields w. (raise runtime_error, w);
  update_mappings = λ id ms hs w. (raise runtime_error, w);
  finalise_session = λ id w. (raise runtime_error, w);
  delete_session = λ id w. (ok tt, w);
  get_schema = λ name w. (raise runtime_error, w);
  create_schema = λ name body w. (raise runtime_error, w);
}

abbrev any_status : Failure → Exception
any_status f = runtime_error

abbrev flow_clicks : List Click
flow_clicks =
    Click.create "Ccy" "a.csv" none none
    ∷ Click.add_field "Notes" FieldType.string
    ∷ Click.save to_currency
    ∷ Click.finalise to_currency
    ∷ []

run_tabs-served_example :
    IsFlow
      (run_tabs
        (served memory_sessions plain_libraries router dump any_status opening_client)
        flow_clicks
        initial
        []).0
run_tabs-served_example =
    run_tabs-served memory_sessions plain_libraries router dump any_status memory-IsSessionStore
      opening_client flow_clicks []

-- These clicks end with the results.
finalised_flow :
    (run_tabs
      (served memory_sessions plain_libraries router dump any_status opening_client)
      flow_clicks
      initial
      []).0.step
    ≡ results
unfolding run_tabs served riskflow.Text.is_blank riskflow.Routes.Sessions.extend_session_fields
    riskflow.Prelude.Dict.get put riskflow.Session.extend_target_fields
    riskflow.Routes.Sessions.update_session_mappings update_mappings
    riskflow.Routes.Sessions.finalise_session riskflow.Routes.resolve_service
    riskflow.Schema.mapping_result riskflow.MappingService.Operations.validate_rows_with_mapping
    riskflow.Text.ends_with riskflow.Exec.lift riskflow.MappingService.validate_each
    riskflow.RecordFactory.model_validate riskflow.RecordFactory.build_model
    riskflow.Schema.from_mapping_result riskflow.Session.finalise
finalised_flow = refl
