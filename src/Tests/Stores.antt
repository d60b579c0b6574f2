-- ===== src/Tests/Stores.antt =====
-- The theorems about the listing of the stores at concrete inputs.
use mathlib.Core.List.Perm
use mathlib.Core.List.{Perm}
use riskflow.Prelude.{
  ℕ, ◌≡◌, refl, sym, ap, Bool, false, List, [], ◌∷◌, none, some, String, arith, ltb, eqb, ◌==◌,
  if◌then◌else◌, Bool-cases, inl, inr,
}
use riskflow.Prelude.Dict.{get}
use riskflow.Prelude.Sort.{sorted}
use riskflow.Errors.{ok}
use riskflow.Job.{Job, JobStatus}
use riskflow.Storage.{Codec}
use riskflow.Storage.Listing.{
  Scan, list_schemas, list_jobs, is_unlisted, schema_prefix, memory_list,
}
use riskflow.Storage.Listing.Scans.{
  last, more, found, listing, name_of, IsReading, list_schemas-Pages,
}
use riskflow.Storage.Listing.Jobs.{
  Call, save, find, IsSeparate, Represents, run_memory, run_redis, job_key-eq, run_redis-run_memory,
}
use riskflow.Storage.Listing.Newest.{IsTimeOrder, IsNewestFirst, list_jobs-newest}
use riskflow.Tests.{World, empty_world, memory_redis, memory-IsAnswering, set_value}

-- A scan in two pages that gives one key twice.
abbrev two_pages : String → Scan World
two_pages k prefix cursor w =
    if eqb cursor 0 then (ok (7, k ∷ []), w) else (ok (0, "riskflow:schema:a" ∷ k ∷ []), w)

abbrev pages : List (World × List String)
pages =
    (empty_world, "riskflow:schema:b" ∷ [])
    ∷ (empty_world, "riskflow:schema:a" ∷ "riskflow:schema:b" ∷ [])
    ∷ []

list_schemas-Pages_example :
    list_schemas (two_pages "riskflow:schema:b") 3 empty_world
    ≡ some (listing is_unlisted sorted (ok tt) (found name_of pages), empty_world)
list_schemas-Pages_example =
    list_schemas-Pages (two_pages "riskflow:schema:b") (more refl (last refl)) 3 (omega arith)

-- The listing has the name twice.
twice : listing is_unlisted sorted (ok tt) (found name_of pages) ≡ ok ("a" ∷ "b" ∷ "b" ∷ [])
unfolding sorted riskflow.Storage.Listing.remove_prefix mathlib.Core.List.flat_map
twice = refl

abbrev the_job : Job ℕ String
the_job = record {
  id = "j";
  status = JobStatus.pending;
  filename = none;
  created_at = 5;
  result = none;
  error = none;
}

abbrev job_codec : Codec (Job ℕ String)
job_codec = record { dump = λ j. ok "{}"; load = λ s. ok the_job }

abbrev empty_text : Job ℕ String → String
empty_text j = "{}"

set_other :
    (k j v : String) (w w' : World)
    → record w { values = set_value k v w.values } ≡ w'
    → (k == j) ≡ false
    → w'.values j ≡ w.values j
set_other k j v w w' e other = rw (sym e) (rw other refl)

memory-IsSeparate : IsSeparate memory_redis memory-IsAnswering
unfolding memory-IsAnswering
memory-IsSeparate = record {
  others = λ k j ttl v w w' e other. set_other k j v w w' (ap (λ t. t.1) e) other;
}

nothing_stored : Represents job_codec empty_text memory-IsAnswering empty_world []
unfolding get memory-IsAnswering
nothing_stored id = (refl, tt)

abbrev some_calls : List (Call ℕ String)
some_calls = save the_job ∷ find "j" ∷ find "k" ∷ []

run_redis-run_memory_example :
    (w' : World) × (run_redis job_codec memory_redis 60 some_calls empty_world
      ≡ (ok (run_memory some_calls []).0, w'))
    × Represents job_codec empty_text memory-IsAnswering w' (run_memory some_calls []).1
run_redis-run_memory_example =
    run_redis-run_memory job_codec empty_text memory_redis memory-IsAnswering memory-IsSeparate 60
      some_calls empty_world [] ((refl, refl), tt) nothing_stored

abbrev greater : ℕ → ℕ → Bool
greater a b = ltb b a

greater-IsTimeOrder : IsTimeOrder greater
greater-IsTimeOrder = record { asym = λ a b h. ground arith; chain = λ a b c h k. ground arith }

job-IsReading : IsReading greater job_codec memory_redis
job-IsReading = record { unreadable = λ s e h. absurd (ground (arith, h)) }

abbrev job_world : World
job_world = record empty_world { values = set_value "riskflow:job:j" "{}" empty_world.values }

abbrev one_page : Scan World
one_page prefix cursor w = (ok (0, "riskflow:job:j" ∷ []), w)

job_stored : Represents job_codec empty_text memory-IsAnswering job_world (("j", the_job) ∷ [])
unfolding get memory-IsAnswering
job_stored id = elim (Bool-cases ("j" == id)) [
  | inl same ↦ (rw (job_key-eq "j" id, same) refl, rw same refl)
  | inr other ↦ (rw (job_key-eq "j" id, other) refl, rw other tt)
]

list_jobs-newest_example :
    (js : List (Job ℕ String)) × (list_jobs greater job_codec memory_redis one_page 2 job_world
      ≡ some (ok js, job_world))
    × Perm js (memory_list greater (("j", the_job) ∷ []))
    × IsNewestFirst greater js
list_jobs-newest_example =
    list_jobs-newest greater job_codec empty_text memory_redis memory-IsAnswering
      greater-IsTimeOrder job-IsReading one_page (("j", the_job) ∷ []) job_world job_world
      ((job_world, "riskflow:job:j" ∷ []) ∷ []) job_stored (refl, tt) (last refl) (refl, tt)
      (Perm.refl ("riskflow:job:j" ∷ [])) 2 (omega arith)
