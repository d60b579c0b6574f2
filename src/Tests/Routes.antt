-- ===== src/Tests/Routes.antt =====
-- The theorems about the schema registry of the routes at concrete inputs.
use riskflow.Prelude.{◌≡◌, refl, true, List, [], ◌∷◌, none, some}
use riskflow.Prelude.Dict.{get, put, remove}
use riskflow.Errors.{Result, ok}
use riskflow.MappingService.{MappingService}
use riskflow.TargetSchema.{TargetSchema}
use riskflow.Routes.{reply, Router, create_schema, delete_schema, get_schema, is_registered}
use riskflow.Routes.Schemas.{Request, Keeps, handle_all, handle_all-Keeps}
use riskflow.Routes.Schemas.Found.{create_schema-get_schema}
use riskflow.Tests.{World, empty_world, memory_service, small_schema}

-- A router with one built-in schema and no store.
abbrev small_router : Router World (MappingService World)
small_router = record {
  default = memory_service;
  registry = ("small", memory_service) ∷ [];
  definitions = ("small", small_schema) ∷ [];
  builtins = "small" ∷ [];
  world = empty_world;
}

abbrev service_of : TargetSchema → MappingService World
service_of s = record memory_service { schema = s }

abbrev make_service : TargetSchema → Result (MappingService World)
make_service s = ok (service_of s)

abbrev new_schema : TargetSchema
new_schema = record small_schema { name = "new" }

abbrev requests : List Request
requests =
    Request.delete_request "small"
    ∷ Request.create_request (some new_schema)
    ∷ Request.delete_request "new"
    ∷ []

small_registered : is_registered "small" small_router ≡ true
unfolding get
small_registered = refl

handle_all-Keeps_example :
    Keeps "small" small_router (handle_all (some make_service) none requests small_router)
handle_all-Keeps_example =
    handle_all-Keeps (some make_service) none requests small_router "small" refl small_registered

abbrev new_router : Router World (MappingService World)
new_router = record small_router {
  registry = ("small", memory_service) ∷ ("new", service_of new_schema) ∷ [];
  definitions = ("small", small_schema) ∷ ("new", new_schema) ∷ [];
}

created :
    create_schema none (some make_service) (some new_schema) small_router ≡ (reply tt, new_router)
unfolding create_schema riskflow.Routes.validate_schema_name get put
created = refl

deleted : delete_schema none "new" new_router ≡ (reply tt, small_router)
unfolding delete_schema riskflow.Routes.validate_schema_name get remove
deleted = refl

create_schema-get_schema_example :
    (s : MappingService World) × (make_service new_schema ≡ ok s)
    × (get_schema "new" new_router ≡ reply new_schema)
    × (get "new" new_router.registry ≡ some s)
create_schema-get_schema_example =
    create_schema-get_schema none make_service new_schema small_router new_router created
