-- ===== src/Storage/Keeping.antt =====
-- What the adapters of adapters/storage return of what was stored, with a Redis that answers.
use riskflow.Prelude.{
  ℕ, ◌≡◌, refl, sym, ap, ◌∙◌, ◌&&◌, is_some, true, List, [], ◌∷◌, map, Option-cases, Option, none,
  some, String, arith, contains, eq_iff, if◌then◌else◌, inl, inr,
}
use riskflow.Prelude.Dict.{Dict, get, put, get-put}
use riskflow.Errors.{Result, ok, raise, is_unreadable}
use riskflow.Exec.{pure, lift}
use riskflow.Schema.{MappingResult}
use riskflow.MappingService.Process.{IsKeeping}
use riskflow.MappingService.Mapping.{IsRemembering}
use riskflow.Storage.{
  Redis, Codec, loaded, get_mapping, set_mapping, get_corrections, set_correction, redis_cache,
  redis_correction_cache, answered, pair_up, as_dict, corrections_key, mapping_key,
}

-- A Redis that answers: a value that is set stays until it is set again, within its time to live,
-- and `HMGET` gives the values of a hash in the order of the fields that are asked for.
pub record IsAnswering {W : Type 0} (redis : Redis W) : Type 0 where
  pub value : W → String → Option String
  pub hash : W → String → String → Option String
  pub get_value : (k : String) (w : W) → redis.get k w ≡ (ok (value w k), w)
  pub hmget_hash :
      (k : String) (hs : List String) (w : W) → redis.hmget k hs w ≡ (ok (map (hash w k) hs), w)
  pub value_setex :
      (k : String) (ttl : ℕ) (v : String) (w : W)
      → (w' : W) × (redis.setex k ttl v w ≡ (ok tt, w')) × (value w' k ≡ some v)
  pub hash_hset :
      (k f v : String) (w : W)
      → (w' : W) × (redis.hset k f v w ≡ (ok tt, w')) × (hash w' k f ≡ some v)

-- What is dumped is loaded again.
pub record IsRoundTrip {A : Type 0} (codec : Codec A) : Type 0 where
  pub json : A → String
  pub dumps : (a : A) → codec.dump a ≡ ok (json a)
  pub loads : (a : A) → codec.load (json a) ≡ ok a

module _ {W : Type 0} (redis : Redis W) (answers : IsAnswering redis) where
  fetched :
      (codec : Codec MappingResult) (k : String) (w : W) (json : String) (m : MappingResult)
      → answers.value w (mapping_key k) ≡ some json
      → codec.load json ≡ ok m
      → get_mapping redis codec k w ≡ (ok (some m), w)
  unfolding get_mapping
  fetched codec k w json m held loads =
      rw (answers.get_value (mapping_key k) w) (rw held (rw loads refl))

  loaded-same :
      (codec : Codec MappingResult) (r : Result (Option String)) (w : W)
      → (loaded is_unreadable codec r w).1 ≡ w
  loaded-same codec (ok none) w = refl
  loaded-same codec (ok (some json)) w = refl
  loaded-same codec (raise e) w = refl

  get_mapping-same :
      (codec : Codec MappingResult) (k : String) (w : W) → (get_mapping redis codec k w).1 ≡ w
  unfolding get_mapping
  get_mapping-same codec k w =
      rw (answers.get_value (mapping_key k) w)
        (loaded-same codec (ok (answers.value w (mapping_key k))) w)

  -- A mapping whose JSON is read back as itself is what `RedisCache` returns for its key once it is
  -- set, by a Redis that answers.
  pub redis_cache-get-set :
      (codec : Codec MappingResult) (k json : String) (m : MappingResult) (w w' : W)
      → codec.dump m ≡ ok json
      → codec.load json ≡ ok m
      → (redis_cache redis codec).set_mapping k m w ≡ (ok tt, w')
      → (redis_cache redis codec).get_mapping k w' ≡ (ok (some m), w')
  unfolding redis_cache set_mapping
  redis_cache-get-set codec k json m w w' dumps loads e =
      let (u, done, held) = answers.value_setex (mapping_key k) 3600 json w in
      let stored : set_mapping redis codec k m w ≡ (ok tt, u) = rw dumps (rw done refl) in
      let same : u ≡ w' = ap (λ t. t.1) (sym stored ∙ e) in
      rw same at (fetched codec k u json m held loads)

  -- So the cache keeps what it is given, if every mapping is read back as itself.
  pub redis_cache-IsKeeping :
      (codec : Codec MappingResult) → IsRoundTrip codec → IsKeeping (redis_cache redis codec)
  unfolding redis_cache
  redis_cache-IsKeeping codec trip = record {
    get-set = λ k m w w' e.
        (w', redis_cache-get-set codec k (trip.json m) m w w' (trip.dumps m) (trip.loads m) e);
    get-get = λ k m w w' e.
        let same : w ≡ w' = sym (get_mapping-same codec k w) ∙ ap (λ t. t.1) e in
        (w', rw same at e);
  }

abbrev add_pair : String → Option String → Dict String → Dict String
add_pair h none d = d
add_pair h (some v) d = (h, v) ∷ d

-- The pairs of the headers that a lookup has.
pairs : (String → Option String) → List String → Dict String
pairs g [] = []
pairs g (h ∷ hs) = add_pair h (g h) (pairs g hs)

pair_up-pairs :
    (g : String → Option String) (hs : List String) → pair_up hs (map g hs) ≡ ok (pairs g hs)
unfolding pair_up pairs
pair_up-pairs g [] = refl
pair_up-pairs g (h ∷ hs) = elim (Option-cases (g h)) [
  | inl n ↦ rw n (pair_up-pairs g hs)
  | inr (v, e) ↦ rw e (rw (pair_up-pairs g hs) refl)
]

get-as_dict :
    (g : String → Option String) (h : String) (hs : List String) (d : Dict String)
    → get h (as_dict d (pairs g hs)) ≡ (if contains h hs && is_some (g h) then g h else get h d)
unfolding as_dict pairs
get-as_dict g h [] d = refl
get-as_dict g h (j ∷ hs) d = elim (Option-cases (g j)) [
  | inl n ↦ ground (arith, get-as_dict g h hs d, eq_iff j h, same)
  | inr (v, e) ↦ ground (arith, get-as_dict g h hs (put j v d), get-put j h v d, eq_iff j h, same)
]
  where
    same : j ≡ h → g j ≡ g h
    same e = ap g e

module _ {W : Type 0} (redis : Redis W) (answers : IsAnswering redis) where
  -- The answer has, of the headers asked for, exactly those with a value in the cedent's hash.
  get_corrections-get :
      (cedent h : String) (hs : List String) (w : W)
      → contains h hs ≡ true
      → (cs : Dict String) × (get_corrections redis cedent hs w ≡ (ok cs, w))
        × (get h cs ≡ answers.hash w (corrections_key cedent) h)
  unfolding get_corrections answered pure lift get
  get_corrections-get cedent h [] w asked = absurd (ground arith)
  get_corrections-get cedent h (j ∷ hs) w asked =
      let g = answers.hash w (corrections_key cedent) in
      (
        as_dict [] (pairs g (j ∷ hs)),
        rw (answers.hmget_hash (corrections_key cedent) (j ∷ hs) w)
            (rw (pair_up-pairs g (j ∷ hs)) refl),
        ground (arith, get-as_dict g h (j ∷ hs) []),
      )

  -- `RedisCorrectionCache` over a Redis that answers returns the correction of a header that was
  -- stored last for the cedent.
  pub redis_correction_cache-IsRemembering : IsRemembering (redis_correction_cache redis)
  unfolding redis_correction_cache set_correction
  redis_correction_cache-IsRemembering = record {
    get-set = λ k hs w w' v cs stored asked found.
        let (u, done, held) =
          answers.hash_hset (corrections_key k.cedent_id) k.source_header k.target_field w in
        let wrote : set_correction redis k w ≡ (ok tt, u) = rw done refl in
        let same : u ≡ w' = ap (λ t. t.1) (sym wrote ∙ stored) in
        let (ds, answer, got) = get_corrections-get k.cedent_id k.source_header hs w' asked in
        let one : ds ≡ cs = cc (answer, found) in
        let kept : answers.hash w' (corrections_key k.cedent_id) k.source_header
            ≡ some k.target_field =
          rw same at held in
        rw (sym one) (got ∙ kept);
  }
