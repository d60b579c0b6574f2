-- ===== src/RecordFactory/Cache.antt =====
-- The cache of record models in domain/model/record_factory.py: `functools.lru_cache` around
-- `_build_cached`, with the model of the last call first. The JSON form of a schema is pydantic's.
pub mod Answers
use riskflow.Prelude.{
  ℕ, suc, ◌≤◌, ◌≡◌, refl, ◌∙◌, ap, Bool, true, false, ◌&&◌, List, [], ◌∷◌, Option, none, some,
  String, ◌==◌, eq_iff, arith, keep, take, length, length-keep-le, map, not, All, All-keep, zero,
  sym, ◌⊎◌, inl, inr, if◌then◌else◌,
}
use mathlib.Core.Option.{some-injective}
use mathlib.Core.Path.{ap₂}
use riskflow.Errors.{Result, ok, raise}
use riskflow.RecordFactory.{RecordModel, build_model}
use riskflow.TargetSchema.{TargetSchema, fingerprint}

-- `model_dump_json` and `model_validate_json` of a schema.
pub record SchemaJson : Type 0 where
  pub dump : TargetSchema → String
  pub load : String → Result TargetSchema

-- The arguments of a call, and the model that it returned.
pub record Entry : Type 0 where
  pub fingerprint : String
  pub schema_json : String
  pub model : RecordModel

abbrev pub entry : String → String → RecordModel → Entry
entry print json m = record { fingerprint = print; schema_json = json; model = m }

abbrev pub Cache : Type 0
Cache = List Entry

abbrev pub is_for : String → String → Entry → Bool
is_for print json e = e.fingerprint == print && e.schema_json == json

unfoldable pub lookup : String → String → Cache → Option RecordModel
lookup print json [] = none
lookup print json (e ∷ es) = if is_for print json e then some e.model else lookup print json es

-- `maxsize=32`
abbrev pub max_size : ℕ
max_size = 32

-- A hit moves its entry to the front; a miss adds one, and the last one over the size is dropped.
abbrev pub touch : Entry → Cache → Cache
touch e es = e ∷ keep (λ x. not (is_for e.fingerprint e.schema_json x)) es

abbrev pub add : String → String → RecordModel → Cache → Cache
add print json m es = take max_size (entry print json m ∷ es)

-- A call that raises is not cached.
abbrev pub add_built : String → String → Cache → Result TargetSchema → Result RecordModel × Cache
add_built print json es (raise e) = (raise e, es)
add_built print json es (ok s) = (ok (build_model s), add print json (build_model s) es)

-- What a process does with the cache.
pub data Call : Type 0 where
  build : TargetSchema → Call
  clear : Call

module _ (json : SchemaJson) where
  abbrev pub after_lookup :
      String → String → Cache → Option RecordModel → Result RecordModel × Cache
  after_lookup print text es (some m) = (ok m, touch (entry print text m) es)
  after_lookup print text es none = add_built print text es (json.load text)

  -- `_build_cached`
  unfoldable pub build_cached : String → String → Cache → Result RecordModel × Cache
  unfolding lookup
  build_cached print text es = after_lookup print text es (lookup print text es)

-- `clear_record_model_cache`
unfoldable pub clear_record_model_cache : Cache → Cache
clear_record_model_cache es = []

module _ (json : SchemaJson) (blake2b : String → String) where
  -- `build_record_model`
  unfoldable pub build_record_model : TargetSchema → Cache → Result RecordModel × Cache
  unfolding build_cached fingerprint
  build_record_model s es = build_cached json (fingerprint blake2b s) (json.dump s) es

  unfoldable pub run : List Call → Cache → List (Result RecordModel) × Cache
  unfolding build_record_model clear_record_model_cache
  run [] es = ([], es)
  run (clear ∷ cs) es = run cs (clear_record_model_cache es)
  run (build s ∷ cs) es =
      let (m, es') = build_record_model s es in let (ms, es'') = run cs es' in (m ∷ ms, es'')
