-- ===== src/Lib.antt =====
-- RiskFlow maps the columns of a cedent's spreadsheet to a target schema and validates its rows. A file
-- arrives at the HTTP routes (src/adapters/http/routes.py), which check it, resolve the service of a
-- schema and call it. MappingService (src/domain/service/mapping_service.py) reads the headers through
-- the ingestor port, looks up a cached mapping, else takes the corrections of the cedent and asks a
-- language model for the other headers, and validates every row with the record model of the schema
-- (src/domain/model/record_factory.py). Corrections, sessions, schemas, jobs and cached mappings live
-- behind ports with Redis adapters and null adapters (src/adapters/storage).
--
-- The files, by the code that they model:
-- - Schema (src/domain/model/schema.py): mapping results and confidence reports, over Float, the IEEE
--   doubles of Python with comparison, sum and division.
-- - TargetSchema (target_schema.py): fields, date rules and hints with their validators, the default
--   schema in Default, and the fingerprint, whose text Json prints as json.dumps does.
-- - Correction, Job, Session (correction.py, job.py, session.py): value objects and state machines; a
--   method that raises leaves its object as it was.
-- - DateFormat (date_format.py): detection of a column's format and parsing; Calendar writes out
--   date.fromisoformat.
-- - RecordFactory (record_factory.py): the record model with its field validators and closures, and the
--   cache of built models in Cache; the other files build a model with each use.
-- - MappingService, with its methods in Operations (mapping_service.py): rows, corrections, cache, and
--   the whole upload, over the ports of Ports and calls on a world in Exec.
-- - Ingestor and Startup (src/adapters/parsers, src/entrypoint/main.py): spreadsheets, schema files and
--   the merge of the runtime schemas; the choice of the adapters and of the default service and the
--   probes in App, the store of the runtime schemas in Stores, and the clean-up of old files in Orphans.
-- - Mapper (src/adapters/slm/mapper.py): the prompt, the request and the reading of the answer.
-- - Storage (src/adapters/storage): the Redis adapters over a client that is a parameter. Listing: the
--   loops over SCAN and the store of jobs in memory.
-- - Routes, with Uploads, Listing, Sessions and Jobs (routes.py): status codes, the registry of schemas,
--   uploads, corrections, sessions and the requests about jobs. The module Jobs at the root: the
--   background task.
-- - Tools: tools/check_api_changes.py in ApiChanges, tools/hexagonal_linter.py in Linter and
--   tools/release_notes.py in ReleaseNotes.
-- - Gui (gui/app.py): the tab Flow Mapper in Flow, its state machine in Pages, the mapping editor in
--   Editor, and the tab with the routes behind it in Server; in Prompt the prompt that another tab shows.
-- - Errors: exceptions, as values of a result. Text, Value: the texts and cells of the language.
-- - Tests: the theorems at concrete inputs.
-- A file named for a part holds its definitions; the files below it hold what is proved of it.
--
-- State is passed explicitly: a call on the world `W` gives a result and the new world, also where it
-- raises. Third-party code is a parameter: pydantic's conversions, dateutil, polars, the Redis and openai
-- clients, tenacity, hash functions, YAML and the file system, with the behaviour that is relied on as named
-- hypotheses (IsSelection, IsKeeping, IsRemembering, IsAnswering, IsSeparate, Pages, IsReading,
-- IsTimeOrder, IsReadBack, IsIdentity, IsLost, IsWorking, IsRemoving, IsAccepting, IsJobStore, IsSessionStore, IsDirectory).
--
-- Bounds: a double is a sign and a number of units of 2 ^ -1074. Two recursions are on fuel: the search
-- for the excess bits of a sum in Float, with fuel 4300, more than the bits that the sum of two doubles
-- or a quotient in these units can have, and the loop over SCAN in Storage.Listing, for which any fuel
-- above the number of pages of the scan is enough. All other recursion is structural.
--
-- Left out: logging, timing, the texts of messages (an exception keeps the place that raises it), FastAPI
-- and its response models, the version and the construction of the clients in main.py; in the web
-- interface what is drawn, the requests of the other tabs, and the rows of the corrections tab, which
-- stand on how Streamlit keeps the values of inputs; of the tools, the version bump, the coverage report, and
-- the calls of other programs.
pub mod Prelude
pub mod Text
pub mod Errors
pub mod Float
pub mod Schema
pub mod Json
pub mod TargetSchema
pub mod Correction
pub mod Value
pub mod Job
pub mod Session
pub mod DateFormat
pub mod RecordFactory
pub mod Exec
pub mod Ports
pub mod MappingService
pub mod Storage
pub mod Mapper
pub mod Jobs
pub mod Routes
pub mod Startup
pub mod Ingestor
pub mod Tools
pub mod Tests
pub mod Gui
