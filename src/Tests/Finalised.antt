-- ===== src/Tests/Finalised.antt =====
-- A session that is finalised twice.
use riskflow.Prelude.{
  All, ◌≡◌, refl, sym, ap, [], ◌∷◌, Option, none, some, String, arith, ◌==◌, eq_refl, eq_iff,
  if◌then◌else◌,
}
use riskflow.Prelude.Dict.{Dict, keys, get, put, get-put}
use riskflow.Errors.{ok}
use riskflow.Exec.{Exec}
use riskflow.MappingService.{MappingService, ProcessingResult}
use riskflow.Session.{MappingSession, SessionStatus}
use riskflow.Routes.{Reply, reply, failure, http, plain, Router, resolve_service, is_schema_name}
use riskflow.Routes.Sessions.{SessionStore, finalise_session}
use riskflow.Routes.Sessions.Finalised.{IsSessionStore, finalise_session-once}
use riskflow.Routes.Sessions.Create.{schema_name_of}
use riskflow.Routes.Sessions.Names.{IsIdentity, IsServed, schema_name_of-resolve_service}
use riskflow.Tests.{plain_libraries, currency_mapping, stateless_service}

abbrev pub Sessions : Type 0
Sessions = Dict (MappingSession String)

abbrev pub named : String → Option (MappingSession String) → Option (MappingSession String)
named id none = none
named id (some s) = if s.id == id then some s else none

abbrev pub memory_sessions : SessionStore Sessions String
memory_sessions = record {
  save = λ s w. (ok tt, put s.id s w);
  find = λ id w. (ok (named id (get id w)), w);
  delete = λ id w. (ok tt, w);
}

found_saved :
    (s : MappingSession String) (w w' : Sessions)
    → put s.id s w ≡ w'
    → named s.id (get s.id w') ≡ some s
found_saved s w w' e = rw (sym e) (ground (arith, get-put s.id s.id s w, eq_refl s.id))

found_named :
    (id : String) (o : Option (MappingSession String)) (s : MappingSession String)
    → named id o ≡ some s
    → s.id ≡ id
found_named id none s h = absurd (ground arith)
found_named id (some t) s h = ground (arith, eq_iff t.id id)

pub memory-IsSessionStore : IsSessionStore memory_sessions
memory-IsSessionStore = record {
  find-save = λ s w w' e. (w', rw (found_saved s w w' (ap (λ t. t.1) e)) refl);
  find-id = λ id s w w' e. found_named id (get id w) s (cc (ap (λ t. t.0) e));
}

abbrev pub router : Router Sessions (MappingService Sessions)
router = record {
  default = stateless_service;
  registry = ("small", stateless_service) ∷ [];
  definitions = [];
  builtins = [];
  world = [];
}

abbrev pub open_session : MappingSession String
open_session = record {
  id = "s";
  status = SessionStatus.created;
  schema_name = "small";
  file_path = "a.csv";
  sheet_name = none;
  source_headers = "Ccy" ∷ [];
  target_fields = "Currency" ∷ [];
  mappings = currency_mapping ∷ [];
  unmapped_headers = [];
  preview_rows = [];
  result = none;
}

abbrev closed_session : MappingSession String
closed_session = record open_session { status = SessionStatus.finalised; result = some "{}" }

abbrev pub dump : ProcessingResult → String
dump r = "{}"

closed :
    finalise_session memory_sessions plain_libraries router dump "s" (("s", open_session) ∷ [])
    ≡ (reply closed_session, ("s", closed_session) ∷ [])
unfolding finalise_session get riskflow.Routes.resolve_service riskflow.Text.is_blank
    riskflow.Schema.mapping_result riskflow.MappingService.Operations.validate_rows_with_mapping
    riskflow.Text.ends_with riskflow.Exec.lift riskflow.MappingService.validate_each
    riskflow.RecordFactory.model_validate riskflow.RecordFactory.build_model
    riskflow.Schema.from_mapping_result riskflow.Session.finalise put
closed = refl

finalise_session-once_example :
    (SessionStatus.finalised ≡ SessionStatus.finalised)
    × (closed_session.id ≡ "s")
    × ((finalise_session memory_sessions plain_libraries router dump "s"
          (("s", closed_session) ∷ [])).0
        ≡ failure (http 409 plain))
finalise_session-once_example =
    finalise_session-once memory_sessions plain_libraries router dump memory-IsSessionStore "s"
      (("s", open_session) ∷ []) (("s", closed_session) ∷ []) closed_session closed

-- Services that are texts, of which one is the default.
abbrev text_router : Router String String
text_router = record {
  default = "b";
  registry = ("first", "a") ∷ ("second", "b") ∷ [];
  definitions = [];
  builtins = [];
  world = "";
}

text-IsIdentity : IsIdentity (λ (s t : String). s == t)
text-IsIdentity = (eq_refl, λ s t h. ground (arith, eq_iff s t))

by_default : resolve_service none text_router ≡ reply "b"
unfolding resolve_service
by_default = refl

second_is_default : get "second" text_router.registry ≡ some text_router.default
unfolding get
second_is_default = refl

text_router-IsServed : All IsServed (keys text_router.registry)
unfolding is_schema_name
text_router-IsServed = (refl, (refl, tt))

schema_name_of-resolve_service_example :
    resolve_service
      (some (schema_name_of (λ (s t : String). s == t) none "b" text_router.registry))
      text_router
    ≡ reply "b"
schema_name_of-resolve_service_example =
    schema_name_of-resolve_service (λ (s t : String). s == t) text-IsIdentity text_router "second"
      none "b" text_router-IsServed (refl, (refl, tt)) second_is_default by_default
