-- ===== src/Storage/Degrade.antt =====
-- What the adapters of adapters/storage do when Redis is not there.
use riskflow.Prelude.{ℕ, ◌≡◌, refl, List, [], ◌∷◌, String}
use riskflow.Correction.{Correction}
use riskflow.Errors.{connection_lost, ok, raise}
use riskflow.Exec.{pure, lift}
use riskflow.Schema.{MappingResult}
use riskflow.Storage.{
  Redis, Codec, get_corrections, redis_cache, redis_correction_cache, null_cache,
  null_correction_cache, answered,
}

-- Every command raises a connection error and changes nothing.
pub record IsUnreachable {W : Type 0} (redis : Redis W) : Type 0 where
  pub get_lost : (k : String) (w : W) → redis.get k w ≡ (raise connection_lost, w)
  pub setex_lost :
      (k : String) (ttl : ℕ) (v : String) (w : W)
      → redis.setex k ttl v w ≡ (raise connection_lost, w)
  pub hmget_lost :
      (k : String) (hs : List String) (w : W) → redis.hmget k hs w ≡ (raise connection_lost, w)
  pub hset_lost : (k f v : String) (w : W) → redis.hset k f v w ≡ (raise connection_lost, w)

module _ {W : Type 0} (redis : Redis W) where
  -- Without Redis the two Redis adapters of the mapping service do what the null adapters do, if
  -- the mapping can be dumped.
  pub unreachable-null :
      IsUnreachable redis
      → (codec : Codec MappingResult) (k json : String) (m : MappingResult) (cedent : String)
        (hs : List String) (c : Correction) (w : W)
      → codec.dump m ≡ ok json
      → ((redis_cache redis codec).get_mapping k w ≡ (null_cache {W = W}).get_mapping k w)
        × ((redis_cache redis codec).set_mapping k m w ≡ (null_cache {W = W}).set_mapping k m w)
        × ((redis_correction_cache redis).get_corrections cedent hs w
            ≡ (null_correction_cache {W = W}).get_corrections cedent hs w)
        × ((redis_correction_cache redis).set_correction c w
            ≡ (null_correction_cache {W = W}).set_correction c w)
  unfolding redis_cache redis_correction_cache null_cache null_correction_cache pure get_corrections
      answered lift
  unreachable-null lost codec k json m cedent hs c w dumps = (
    rw (lost.get_lost _ w) refl,
    rw dumps (rw (lost.setex_lost _ 3600 json w) refl),
    corrections hs,
    rw (lost.hset_lost _ _ _ w) refl,
  )
    where
      corrections : (hs : List String) → get_corrections redis cedent hs w ≡ (ok [], w)
      corrections [] = refl
      corrections (h ∷ hs) = rw (lost.hmget_lost _ (h ∷ hs) w) refl
