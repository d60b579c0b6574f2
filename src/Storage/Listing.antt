-- ===== src/Storage/Listing.antt =====
-- `list_all` of adapters/storage/schema_store.py and job_store.py: a loop of Redis' SCAN command, by
-- pages of keys until its cursor is 0, on fuel. Keys are texts. A job's times all have a time zone,
-- so that they can be compared.
pub mod Scans
pub mod Jobs
pub mod Newest
use Prim.Native.String
use riskflow.Prelude.{
  ℕ, zero, suc, ◌≡◌, Bool, true, false, ◌||◌, List, [], ◌∷◌, ◌++◌, Option, none, some, String, eqb,
  ◌==◌, if◌then◌else◌,
}
use riskflow.Prelude.Sort.{sorted}
use riskflow.Prelude.Sort.By.{sort_by}
use riskflow.Prelude.Dict.{Dict, get, put, values}
use riskflow.Errors.{
  Exception, Result, ok, raise, is_connection_lost, is_unreadable, is_unreadable_dict,
}
use riskflow.Exec.{Exec, pure, lift, resume, ◌>>=◌}
use riskflow.Job.{Job}
use riskflow.Storage.{Redis, Codec}

-- `client.scan(cursor, match=prefix + "*")`: the next cursor, and some keys with the prefix.
abbrev pub Scan : Type 0 → Type 0
Scan W = String → ℕ → Exec W (ℕ × List String)

module _ {W A : Type 0} (scan : ℕ → Exec W (ℕ × List String)) (visit : A → String → Exec W A) where
  -- `for key in keys:`
  unfoldable pub visit_all : A → List String → Exec W A
  visit_all a [] = pure a
  visit_all a (k ∷ ks) = visit a k >>= λ b. visit_all b ks

  -- The rest of a round, by what the page's visits end with.
  abbrev pub after_page :
      (ℕ → A → W → Option (Result A × W)) → ℕ → Result A × W → Option (Result A × W)
  after_page again cursor (raise e, w) = some (raise e, w)
  after_page again zero (ok a, w) = some (ok a, w)
  after_page again (suc n) (ok a, w) = again (suc n) a w

  abbrev pub after_scan :
      (ℕ → A → W → Option (Result A × W)) → A → Result (ℕ × List String) × W → Option (Result A × W)
  after_scan again a (raise e, w) = some (raise e, w)
  after_scan again a (ok (cursor, keys), w) = after_page again cursor (visit_all a keys w)

  -- `while True: cursor, keys = scan(cursor) … if cursor == 0: break`; `none` is out of fuel.
  unfoldable pub scan_loop : ℕ → ℕ → A → W → Option (Result A × W)
  scan_loop zero cursor a w = none
  scan_loop (suc fuel) cursor a w = after_scan (scan_loop fuel) a (scan cursor w)

-- `text.removeprefix(prefix)`
strip_prefix : String → String → Option String
strip_prefix String.[] t = some t
strip_prefix (String.◌∷◌ c p) String.[] = none
strip_prefix (String.◌∷◌ c p) (String.◌∷◌ d t) =
    let rest = strip_prefix p t in if String.◌∷◌ c "" == String.◌∷◌ d "" then rest else none

unfoldable pub remove_prefix : String → String → String
unfolding strip_prefix
remove_prefix p t = elim (strip_prefix p t) [ none ↦ t | some rest ↦ rest ]

-- `except (ConnectionError, redis.RedisError, ValueError, TypeError)`
abbrev pub is_unlisted : Exception → Bool
is_unlisted e = is_connection_lost e || is_unreadable e

-- `try: … return finish(found) except …: return []`
abbrev pub listed :
    {W A B : Type 0}
    → (Exception → Bool)
    → (List A → List B)
    → Result (List A) × W
    → Result (List B) × W
listed caught finish (ok found, w) = (ok (finish found), w)
listed caught finish (raise e, w) = if caught e then (ok [], w) else (raise e, w)

abbrev pub on_some : {A B : Type 0} → (A → B) → Option A → Option B
on_some f none = none
on_some f (some a) = some (f a)

abbrev pub schema_prefix : String
schema_prefix = "riskflow:schema:"

abbrev pub job_prefix : String
job_prefix = "riskflow:job:"

-- `names.append(key_str.removeprefix(KEY_PREFIX))`
unfoldable pub add_name : {W : Type 0} → List String → String → Exec W (List String)
add_name names k = pure (names ++ remove_prefix schema_prefix k ∷ [])

-- `RedisSchemaStore.list_all`
unfoldable pub list_schemas : {W : Type 0} → Scan W → ℕ → W → Option (Result (List String) × W)
unfolding add_name
list_schemas scan fuel w =
    on_some (listed is_unlisted sorted) (scan_loop (scan schema_prefix) add_name fuel 0 [] w)

module _ {T R : Type 0} (later : T → T → Bool) where
  -- `j.created_at < k.created_at`: with `reverse=True`, `k` then comes before `j`.
  abbrev pub older : Job T R → Job T R → Bool
  older j k = later k.created_at j.created_at

  -- `sorted(jobs, key=lambda j: j.created_at, reverse=True)`: of equal times the order is kept.
  unfoldable pub newest_first : List (Job T R) → List (Job T R)
  unfolding sort_by
  newest_first js = sort_by older js

  module _ {W : Type 0} (codec : Codec (Job T R)) (redis : Redis W) where
    -- `try: jobs.append(Job.from_dict(json.loads(data))) except …: continue`
    abbrev pub add_loaded : List (Job T R) → Result (Job T R) → Result (List (Job T R))
    add_loaded jobs (ok j) = ok (jobs ++ j ∷ [])
    add_loaded jobs (raise e) = if is_unreadable_dict e then ok jobs else raise e

    abbrev pub add_found : List (Job T R) → Option String → Result (List (Job T R))
    add_found jobs none = ok jobs
    add_found jobs (some json) = add_loaded jobs (codec.load json)

    unfoldable pub add_job : List (Job T R) → String → Exec W (List (Job T R))
    add_job jobs k = redis.get k >>= λ found. lift (add_found jobs found)

    -- `RedisJobStore.list_all`
    unfoldable pub list_jobs : Scan W → ℕ → W → Option (Result (List (Job T R)) × W)
    unfolding add_job
    list_jobs scan fuel w =
        on_some (listed is_connection_lost newest_first)
          (scan_loop (scan job_prefix) add_job fuel 0 [] w)

-- `InMemoryJobStore`, over its dict.
module _ {T R : Type 0} where
  unfoldable pub memory_save : Job T R → Dict (Job T R) → Dict (Job T R)
  memory_save j d = put j.id j d

  unfoldable pub memory_get : String → Dict (Job T R) → Option (Job T R)
  memory_get id d = get id d

  unfoldable pub memory_list : (T → T → Bool) → Dict (Job T R) → List (Job T R)
  memory_list later d = newest_first later (values d)
