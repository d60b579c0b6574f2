-- ===== src/MappingService/CacheKey.antt =====
-- The cache key of a header row: `_build_cache_key` in domain/service/mapping_service.py.
use mathlib.Core.List.{Perm}
use mathlib.Core.List.Perm
use riskflow.Prelude.{◌≡◌, List, String, AllDistinct}
use riskflow.Prelude.Sort.Laws.{sorted-perm}
use riskflow.TargetSchema.{TargetSchema}
use riskflow.TargetSchema.Fingerprint.{fingerprint-perm}
use riskflow.Text.{strip}
use riskflow.Prelude.Dict.{keys}
use riskflow.MappingService.{Libraries}
use riskflow.MappingService.Operations.{build_cache_key}

-- Files with the same headers in any order have the same key, under schemas with the same rules and
-- hints, whose fields have distinct names and differ in their order at most.
pub build_cache_key-perm :
    (lib : Libraries) (s t : TargetSchema) (hs is : List String)
    → s.cross_field_rules ≡ t.cross_field_rules
    → s.slm_hints ≡ t.slm_hints
    → AllDistinct (keys s.fields)
    → Perm s.fields t.fields
    → Perm hs is
    → build_cache_key lib s hs ≡ build_cache_key lib t is
unfolding build_cache_key
build_cache_key-perm lib s t hs is rules hints apart fields headers =
    let names = sorted-perm (Perm.map (λ h. strip (lib.lower h)) headers) in
    cc (names, fingerprint-perm lib.blake2b s t rules hints apart fields)
