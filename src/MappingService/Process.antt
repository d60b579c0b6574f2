-- ===== src/MappingService/Process.antt =====
-- A whole upload: `process_file` in domain/service/mapping_service.py, and what its cache does to
-- the uploads that follow.
use mathlib.Core.List.{Perm}
use mathlib.Core.List.Perm
use riskflow.Prelude.{◌≡◌, refl, sym, List, String, Option, none, some, arith, AllDistinct}
use riskflow.Prelude.Dict.{keys}
use riskflow.Errors.{ok}
use riskflow.Exec.{bind-returns, pure}
use riskflow.Ports.{CachePort}
use riskflow.Schema.{MappingResult}
use riskflow.Value.{Row}
use riskflow.MappingService.{MappingService, Libraries}
use riskflow.MappingService.CacheKey.{build_cache_key-perm}
use riskflow.MappingService.Operations.{build_cache_key, map_with_corrections, mapping_of}

-- A cache that returns what was stored last under a key, as long as it is not stored again.
pub record IsKeeping {W : Type 0} (c : CachePort W) : Type 0 where
  pub get-set :
      (k : String) (m : MappingResult) (w w' : W)
      → c.set_mapping k m w ≡ (ok tt, w')
      → (v : W) × (c.get_mapping k w' ≡ (ok (some m), v))
  pub get-get :
      (k : String) (m : MappingResult) (w w' : W)
      → c.get_mapping k w ≡ (ok (some m), w')
      → (v : W) × (c.get_mapping k w' ≡ (ok (some m), v))

module _ {W : Type 0} (lib : Libraries) (s : MappingService W) where
  mapping_of-hit :
      (headers : List String) (preview : List Row) (cedent : Option String) (w w' : W)
      (m : MappingResult)
      → s.cache.get_mapping (build_cache_key lib s.schema headers) w ≡ (ok (some m), w')
      → mapping_of lib s headers preview cedent w ≡ (ok m, w')
  unfolding mapping_of pure
  mapping_of-hit headers preview cedent w w' m h = rw h refl

  -- What `mapping_of` does with the answer of the cache.
  mapping_of-stored :
      (headers : List String) (preview : List Row) (cedent : Option String)
      (cached : Option MappingResult) (w v w' : W) (m : MappingResult)
      → IsKeeping s.cache
      → s.cache.get_mapping (build_cache_key lib s.schema headers) w ≡ (ok cached, v)
      → mapping_of lib s headers preview cedent w ≡ (ok m, w')
      → (u : W) × (s.cache.get_mapping (build_cache_key lib s.schema headers) w' ≡ (ok (some m), u))
  unfolding mapping_of pure
  mapping_of-stored headers preview cedent (some n) w v w' m keeping asked e =
      let hit = mapping_of-hit headers preview cedent w v n asked in
      keeping.get-get _ m w w' (ground (arith, hit))
  mapping_of-stored headers preview cedent none w v w' m keeping asked e =
      let (n, u, made, rest) =
        bind-returns (map_with_corrections s headers preview cedent) _ v w' (rw asked at e) in
      let (_, u', kept, last) = bind-returns (s.cache.set_mapping _ n) _ u w' rest in
      keeping.get-set _ m u w' (ground arith)

  -- The mapping that is returned is the one that the cache then has.
  mapping_of-kept :
      IsKeeping s.cache
      → (headers : List String) (preview : List Row) (cedent : Option String) (w w' : W)
        (m : MappingResult)
      → mapping_of lib s headers preview cedent w ≡ (ok m, w')
      → (v : W) × (s.cache.get_mapping (build_cache_key lib s.schema headers) w' ≡ (ok (some m), v))
  unfolding mapping_of pure
  mapping_of-kept keeping headers preview cedent w w' m e =
      let key = build_cache_key lib s.schema headers in
      let (cached, v, asked, rest) = bind-returns (s.cache.get_mapping key) _ w w' e in
      mapping_of-stored headers preview cedent cached w v w' m keeping asked e

  -- With a cache that keeps what it is given, and a schema whose fields have distinct names: once an
  -- upload has its mapping, the next one with the same headers in any order has the same, whatever
  -- their cedents, corrections and preview rows.
  pub mapping_of-again :
      IsKeeping s.cache
      → AllDistinct (keys s.schema.fields)
      → (hs is : List String) (preview again : List Row) (cedent other : Option String) (w w' : W)
        (m : MappingResult)
      → Perm hs is
      → mapping_of lib s hs preview cedent w ≡ (ok m, w')
      → (mapping_of lib s is again other w').0 ≡ ok m
  mapping_of-again keeping apart hs is preview again cedent other w w' m p e =
      let (v, kept) = mapping_of-kept keeping hs preview cedent w w' m e in
      let key =
        build_cache_key-perm lib s.schema s.schema hs is refl refl apart (Perm.refl s.schema.fields)
          p in
      rw (mapping_of-hit is again other w' v m (rw (sym key) kept)) refl
