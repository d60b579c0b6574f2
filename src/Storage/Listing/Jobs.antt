-- ===== src/Storage/Listing/Jobs.antt =====
-- The two job stores of adapters/storage/job_store.py: the one in Redis answers as the one in memory
-- does. A job is a value here: the store in memory keeps the object itself, and the task saves a job
-- at once whenever it has changed it.
use text.Mathlib.TextLemmas.{append_cancel_left}
use riskflow.Prelude.{
  ℕ, ◌≡◌, refl, sym, ap, ◌∙◌, false, List, [], ◌∷◌, Option, none, some, String, arith, inl, inr,
  Bool-cases, eq_iff, ◌==◌,
}
use riskflow.Prelude.Dict.{Dict, get, put, get-put}
use riskflow.Errors.{ok, is_unreadable_dict}
use riskflow.Exec.{Exec, pure, ◌>>=◌}
use riskflow.Job.{Job}
use riskflow.Storage.{Redis, Codec, save_job, get_job, job_key, loaded}
use riskflow.Storage.Keeping.{IsAnswering}
use riskflow.Storage.Listing.{on_some, job_prefix, memory_save, memory_get}

pub data Call (T R : Type 0) : Type 0 where
  save : Job T R → Call T R
  find : String → Call T R

pub data Answer (T R : Type 0) : Type 0 where
  saved : Answer T R
  found : Option (Job T R) → Answer T R

module _ {T R : Type 0} where
  -- `InMemoryJobStore`, over a sequence of calls.
  unfoldable pub run_memory : List (Call T R) → Dict (Job T R) → List (Answer T R) × Dict (Job T R)
  unfolding memory_save memory_get
  run_memory [] d = ([], d)
  run_memory (save j ∷ cs) d =
      let (rest, d') = run_memory cs (memory_save j d) in (saved ∷ rest, d')
  run_memory (find id ∷ cs) d =
      let (rest, d') = run_memory cs d in (found (memory_get id d) ∷ rest, d')

-- A Redis of which a value that is set changes no other one.
pub record IsSeparate {W : Type 0} (redis : Redis W) (answers : IsAnswering redis) : Type 0 where
  pub others :
      (k j : String) (ttl : ℕ) (v : String) (w w' : W)
      → redis.setex k ttl v w ≡ (ok tt, w')
      → (k == j) ≡ false
      → answers.value w' j ≡ answers.value w j

module _ {W T R : Type 0} (codec : Codec (Job T R)) (redis : Redis W) (ttl : ℕ) where
  abbrev pub perform : Call T R → Exec W (Answer T R)
  perform (save j) = save_job redis codec ttl j >>= λ _. pure saved
  perform (find id) = get_job redis codec id >>= λ o. pure (found o)

  -- `RedisJobStore`, over the same sequence.
  unfoldable pub run_redis : List (Call T R) → Exec W (List (Answer T R))
  unfolding save_job get_job pure
  run_redis [] = pure []
  run_redis (c ∷ cs) = perform c >>= λ a. run_redis cs >>= λ rest. pure (a ∷ rest)

pub job_key-eq : (i j : String) → (job_key i == job_key j) ≡ (i == j)
job_key-eq i j = ground (
  arith,
  eq_iff i j,
  eq_iff (job_key i) (job_key j),
  ap {A = String} (λ x. job_key x),
  append_cancel_left job_prefix i j,
)

-- A job is dumped as a text, from which it is read back.
abbrev pub IsReadBack : {T R : Type 0} → Codec (Job T R) → (Job T R → String) → Job T R → Type 0
IsReadBack codec json j = (codec.dump j ≡ ok (json j)) × (codec.load (json j) ≡ ok j)

abbrev pub Loads : {T R : Type 0} → Codec (Job T R) → (Job T R → String) → Option (Job T R) → Type 0
Loads codec json none = Unit
Loads codec json (some j) = codec.load (json j) ≡ ok j

-- Every job that is saved is read back.
abbrev pub AllReadBack :
    {T R : Type 0} → Codec (Job T R) → (Job T R → String) → List (Call T R) → Type 0
AllReadBack codec json [] = Unit
AllReadBack codec json (save j ∷ cs) = IsReadBack codec json j × AllReadBack codec json cs
AllReadBack codec json (find id ∷ cs) = AllReadBack codec json cs

-- The store in Redis holds the jobs of the dict, as texts from which they are read back.
abbrev pub Represents :
    {W T R : Type 0} {redis : Redis W}
    → Codec (Job T R)
    → (Job T R → String)
    → IsAnswering redis
    → W
    → Dict (Job T R)
    → Type 0
Represents codec json answers w d =
    (id : String)
    → (answers.value w (job_key id) ≡ on_some json (get id d)) × Loads codec json (get id d)

module _ {W T R : Type 0} (codec : Codec (Job T R)) (json : Job T R → String) (redis : Redis W)
    (answers : IsAnswering redis) (separate : IsSeparate redis answers) (ttl : ℕ) where
  save_job-Represents :
      (j : Job T R) (w : W) (d : Dict (Job T R))
      → IsReadBack codec json j
      → Represents codec json answers w d
      → (w' : W) × (save_job redis codec ttl j w ≡ (ok tt, w'))
        × Represents codec json answers w' (put j.id j d)
  unfolding save_job
  save_job-Represents j w d (dumps, loads) h =
      let (w', done, held) = answers.value_setex (job_key j.id) ttl (json j) w in
      (
        w',
        rw dumps (rw done refl),
        λ id. elim (Bool-cases (j.id == id)) [
          | inl same ↦ (
            ap (λ x. answers.value w' (job_key x)) (sym ((eq_iff j.id id).0 same))
                ∙ held
                ∙ rw (get-put j.id id j d, same) refl,
            rw (get-put j.id id j d, same) loads,
          )
          | inr other ↦ (
            separate.others (job_key j.id) (job_key id) ttl (json j) w w' done
                  (job_key-eq j.id id ∙ other)
                ∙ (h id).0
                ∙ rw (get-put j.id id j d, other) refl,
            rw (get-put j.id id j d, other) (h id).1,
          )
        ],
      )

  get_job-Represents :
      (id : String) (w : W) (d : Dict (Job T R))
      → Represents codec json answers w d
      → get_job redis codec id w ≡ (ok (get id d), w)
  unfolding get_job
  get_job-Represents id w d h =
      rw (answers.get_value (job_key id) w) (rw (h id).0 (read (get id d) (h id).1))
    where
      read :
          (o : Option (Job T R))
          → Loads codec json o
          → loaded is_unreadable_dict codec (ok (on_some json o)) w ≡ (ok o, w)
      read none l = refl
      read (some j) l = rw l refl

  -- Whatever jobs are saved and asked for, the store in Redis answers as the store in memory does,
  -- and holds the same jobs afterwards, as long as none expires: with a Redis that answers and keeps
  -- the other values where one is set, and jobs that can be dumped and are read back.
  pub run_redis-run_memory :
      (cs : List (Call T R)) (w : W) (d : Dict (Job T R))
      → AllReadBack codec json cs
      → Represents codec json answers w d
      → (w' : W) × (run_redis codec redis ttl cs w ≡ (ok (run_memory cs d).0, w'))
        × Represents codec json answers w' (run_memory cs d).1
  unfolding run_redis run_memory pure memory_save memory_get
  run_redis-run_memory [] w d back h = (w, refl, h)
  run_redis-run_memory (save j ∷ cs) w d back h =
      let (v, done, kept) = save_job-Represents j w d back.0 h in
      let (w', ran, held) = run_redis-run_memory cs v (put j.id j d) back.1 kept in
      (w', rw done (rw ran refl), held)
  run_redis-run_memory (find id ∷ cs) w d back h =
      let (w', ran, held) = run_redis-run_memory cs w d back h in
      (w', rw (get_job-Represents id w d h) (rw ran refl), held)
