-- ===== src/Storage/Listing/Scans.antt =====
-- The pages that a scan of Redis gives, and that the listings end and hold what the pages hold.
use mathlib.Core.List.{flat_map, append-nil, append_assoc}
use riskflow.Prelude.{
  ℕ, zero, suc, ◌<◌, ◌≡◌, refl, ap, ◌∙◌, Bool, true, List, [], ◌∷◌, ◌++◌, Option, none, some,
  String, arith, length, if◌then◌else◌,
}
use riskflow.Prelude.Sort.{sorted}
use riskflow.Errors.{Exception, Result, ok, raise, is_connection_lost, is_unreadable_dict}
use riskflow.Exec.{Exec, pure, lift}
use riskflow.Job.{Job}
use riskflow.Storage.{Redis, Codec}
use riskflow.Storage.Keeping.{IsAnswering}
use riskflow.Storage.Listing.{
  Scan, visit_all, scan_loop, remove_prefix, is_unlisted, add_name, list_schemas, list_jobs,
  newest_first, add_job, add_found, listed, schema_prefix, job_prefix,
}

-- The pages of a scan from a cursor on, each with the world in which its keys are visited, up to
-- the cursor 0 or to a command that raises. Other clients may act between two pages.
pub data Pages {W : Type 0} (scan : ℕ → Exec W (ℕ × List String))
    : ℕ → W → List (W × List String) → Result (Unit {0}) → W → Type 0 where
  last :
      {cursor : ℕ} {w v : W} {keys : List String}
      → scan cursor w ≡ (ok (0, keys), v)
      → Pages scan cursor w ((v, keys) ∷ []) (ok tt) v
  more :
      {cursor n : ℕ} {w v u : W} {keys : List String} {pages : List (W × List String)}
      {r : Result (Unit {0})}
      → scan cursor w ≡ (ok (suc n, keys), v)
      → Pages scan (suc n) v pages r u
      → Pages scan cursor w ((v, keys) ∷ pages) r u
  lost :
      {cursor : ℕ} {w v : W} {e : Exception}
      → scan cursor w ≡ (raise e, v)
      → Pages scan cursor w [] (raise e) v

module _ {W B : Type 0} (out : W → String → List B) where
  -- What the visits of the pages add.
  abbrev pub found : List (W × List String) → List B
  found [] = []
  found ((v, keys) ∷ pages) = flat_map (out v) keys ++ found pages

  abbrev pub outcome : Result (Unit {0}) → List B → Result (List B)
  outcome (ok _) bs = ok bs
  outcome (raise e) bs = raise e

  module _ (scan : ℕ → Exec W (ℕ × List String)) (visit : List B → String → Exec W (List B))
      (adds : (acc : List B) (k : String) (w : W) → visit acc k w ≡ (ok (acc ++ out w k), w)) where
    visit_all-found :
        (acc : List B) (keys : List String) (w : W)
        → visit_all scan visit acc keys w ≡ (ok (acc ++ flat_map (out w) keys), w)
    unfolding visit_all pure flat_map
    visit_all-found acc [] w = rw (append-nil acc) refl
    visit_all-found acc (k ∷ keys) w = rw (adds acc k w) (
        visit_all-found (acc ++ out w k) keys w
        ∙ ap (λ bs. (ok bs, w)) (append_assoc acc (out w k) (flat_map (out w) keys)))

    -- The loop ends within as many rounds as there are pages, and one for a command that raises.
    scan_loop-Pages :
        {cursor : ℕ} {w u : W} {pages : List (W × List String)} {r : Result (Unit {0})}
        → Pages scan cursor w pages r u
        → (acc : List B) (fuel : ℕ) → length pages < fuel
        → scan_loop scan visit fuel cursor acc w ≡ some (outcome r (acc ++ found pages), u)
    unfolding scan_loop flat_map
    scan_loop-Pages p acc zero h = absurd (omega arith)
    scan_loop-Pages (last {v = v} {keys = keys} e) acc (suc fuel) h =
        rw e (rw (visit_all-found acc keys v) (rw (append-nil (flat_map (out v) keys)) refl))
    scan_loop-Pages {cursor = cursor} {w = w} {u = u} {r = r}
          (more {n = n} {v = v} {keys = keys} {pages = ps} e p) acc (suc fuel) h =
        rw e (
          rw (visit_all-found acc keys v) (
            scan_loop-Pages {cursor = suc n} {w = v} {u = u} {pages = ps} {r = r} p
              (acc ++ flat_map (out v) keys) fuel (omega arith)
            ∙ ap (λ bs. some (outcome r bs, u))
                (append_assoc acc (flat_map (out v) keys) (found ps))))
    scan_loop-Pages (lost e) acc (suc fuel) h = rw e refl

abbrev pub name_of : {W : Type 0} → W → String → List String
name_of w k = remove_prefix schema_prefix k ∷ []

-- What is made of the elements that were found, where a caught exception gives none.
abbrev pub listing :
    {B : Type 0}
    → (Exception → Bool)
    → (List B → List B)
    → Result (Unit {0})
    → List B
    → Result (List B)
listing caught finish (ok _) bs = ok (finish bs)
listing caught finish (raise e) bs = if caught e then ok [] else raise e

listed-outcome :
    {W B : Type 0} (out : W → String → List B) (caught : Exception → Bool)
    (finish : List B → List B) (r : Result (Unit {0})) (bs : List B) (u : W)
    → listed caught finish (outcome out r bs, u) ≡ (listing caught finish r bs, u)
listed-outcome out caught finish (ok _) bs u = refl
listed-outcome out caught finish (raise e) bs u = ground arith

module _ {W : Type 0} (scan : Scan W) where
  -- `RedisSchemaStore.list_all` ends once the cursor of the scan is 0 or a command raises, in one
  -- round for each page. It then gives the names of all keys of all pages, sorted and as often as
  -- they came, or nothing after an exception that it catches.
  pub list_schemas-Pages :
      {w u : W} {pages : List (W × List String)} {r : Result (Unit {0})}
      → Pages (scan schema_prefix) 0 w pages r u
      → (fuel : ℕ) → length pages < fuel
      → list_schemas scan fuel w ≡ some (listing is_unlisted sorted r (found name_of pages), u)
  unfolding list_schemas
  list_schemas-Pages {u = u} {pages = pages} {r = r} p fuel h =
      rw (scan_loop-Pages name_of (scan schema_prefix) add_name added p [] fuel h)
        (ap some (listed-outcome name_of is_unlisted sorted r (found name_of pages) u))
    where
      added :
          (acc : List String) (k : String) (w : W) → add_name acc k w ≡ (ok (acc ++ name_of w k), w)
      added acc k w = unfold add_name pure in refl

module _ {W T R : Type 0} (later : T → T → Bool) (codec : Codec (Job T R)) (redis : Redis W) where
  abbrev pub readable : Result (Job T R) → List (Job T R)
  readable (ok j) = j ∷ []
  readable (raise e) = []

  -- The job that is stored under a key, if it can be read.
  abbrev pub job_of : Option String → List (Job T R)
  job_of none = []
  job_of (some json) = readable (codec.load json)

  -- Whatever a text holds, reading a job from it raises only what is caught for each job.
  pub record IsReading : Type 0 where
    pub unreadable :
        (json : String) (e : Exception) → codec.load json ≡ raise e → is_unreadable_dict e ≡ true

  added_job :
      IsReading
      → (answers : IsAnswering redis) (acc : List (Job T R)) (k : String) (w : W)
      → add_job later codec redis acc k w ≡ (ok (acc ++ job_of (answers.value w k)), w)
  unfolding add_job lift
  added_job reads answers acc k w = rw (answers.get_value k w) (held (answers.value w k))
    where
      loads :
          (json : String) (r : Result (Job T R))
          → codec.load json ≡ r
          → add_found later codec redis acc (some json) ≡ ok (acc ++ readable r)
      loads json (ok j) e = rw e refl
      loads json (raise x) e = rw e (rw (reads.unreadable json x e) (rw (append-nil acc) refl))

      held :
          (o : Option String)
          → lift (add_found later codec redis acc o) w ≡ (ok (acc ++ job_of o), w)
      held none = rw (append-nil acc) refl
      held (some json) = ap (λ r. (r, w)) (loads json (codec.load json) refl)

  -- `RedisJobStore.list_all` ends likewise, with the jobs that can be read.
  pub list_jobs-Pages :
      IsReading
      → (answers : IsAnswering redis) (scan : Scan W)
      → {w u : W} {pages : List (W × List String)} {r : Result (Unit {0})}
      → Pages (scan job_prefix) 0 w pages r u
      → (fuel : ℕ) → length pages < fuel
      → list_jobs later codec redis scan fuel w
        ≡ some (
          listing is_connection_lost
              (newest_first later)
              r
              (found (λ v k. job_of (answers.value v k)) pages),
          u,
        )
  unfolding list_jobs
  list_jobs-Pages reads answers scan {u = u} {pages = pages} {r = r} p fuel h =
      let out = λ (v : W) (k : String). job_of (answers.value v k) in
      rw
        (scan_loop-Pages out (scan job_prefix) (add_job later codec redis) (added_job reads answers)
          p [] fuel h)
        (ap some (listed-outcome out is_connection_lost (newest_first later) r (found out pages) u))
