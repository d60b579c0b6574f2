-- ===== src/MappingService/Mapping.antt =====
-- The mapping that a cedent's corrections and the mapper make together: `_map_with_corrections`
-- and `store_correction` in domain/service/mapping_service.py.
use mathlib.Core.List.{append-nil}
use riskflow.Prelude.{
  ◌≡◌, ◌≢◌, refl, sym, ◌∙◌, ◌⊎◌, inl, inr, true, false, not, List, [], ◌∷◌, ◌++◌, Option, some,
  String, arith, All, All-append, All-keep, AllDistinct, contains, ◌==◌, eq_iff, Bool-cases,
}
use riskflow.Prelude.Dict.{Dict, get}
use riskflow.Correction.{Correction}
use riskflow.Errors.{ok, guard-eq-ok, >>=-eq-ok}
use riskflow.Exec.{lift, bind-returns, lift-returns, lift-ok}
use riskflow.Float.{Float, one_float, lt, le}
use riskflow.Ports.{CorrectionCachePort}
use riskflow.Schema.{
  ColumnMapping, MappingResult, confidence_in_range, column_mapping, mapping_result, targets,
}
use riskflow.Schema.Distinct.{mapping_result-eq-ok}
use riskflow.TargetSchema.{field_names}
use riskflow.Value.{Row}
use riskflow.MappingService.{MappingService}
use riskflow.MappingService.Operations.{
  corrected_mappings, validate_corrections, check_confidence, filtered_slm, uncorrected,
  get_corrections, store_correction, map_uncorrected, map_with_corrections,
}

abbrev pub corrected : Dict String → List ColumnMapping
corrected [] = []
corrected ((h, t) ∷ cs) =
    record { source_header = h; target_field = t; confidence = one_float } ∷ corrected cs

one_in_range : confidence_in_range one_float ≡ true
unfolding confidence_in_range one_float le
one_in_range = refl

corrected_mappings-eq-ok : (cs : Dict String) → corrected_mappings cs ≡ ok (corrected cs)
unfolding corrected_mappings column_mapping
corrected_mappings-eq-ok [] = refl
corrected_mappings-eq-ok ((h, t) ∷ cs) = ground (arith, one_in_range, corrected_mappings-eq-ok cs)

abbrev pub Known : List String → Dict String → Type 0
Known valid [] = Unit
Known valid ((h, t) ∷ cs) = (contains t valid ≡ true) × Known valid cs

validate_corrections-Known :
    (valid : List String) (cs : Dict String)
    → validate_corrections valid cs ≡ ok tt
    → Known valid cs
unfolding validate_corrections
validate_corrections-Known valid [] e = tt
validate_corrections-Known valid ((h, t) ∷ cs) e =
    let (known, rest) = guard-eq-ok (contains t valid) _ _ e in
    (known, validate_corrections-Known valid cs rest)

abbrev pub Confident : Float → ColumnMapping → Type 0
Confident threshold m = lt m.confidence threshold ≡ false

check_confidence-Confident :
    (threshold : Float) (ms : List ColumnMapping)
    → check_confidence threshold ms ≡ ok tt
    → All (Confident threshold) ms
unfolding check_confidence
check_confidence-Confident threshold [] e = tt
check_confidence-Confident threshold (m ∷ ms) e =
    let (high, rest) = guard-eq-ok (not (lt m.confidence threshold)) _ _ e in
    (ground arith, check_confidence-Confident threshold ms rest)

corrected-Confident :
    (threshold : Float) (cs : Dict String)
    → lt one_float threshold ≡ false
    → All (Confident threshold) (corrected cs)
corrected-Confident threshold [] h = tt
corrected-Confident threshold ((k, t) ∷ cs) h = (h, corrected-Confident threshold cs h)

-- A mapping of the corrections, each with confidence 1, and of others, all above the threshold and
-- no two with the same target.
pub record IsMergedFrom (threshold : Float) (cs : Dict String) (m : MappingResult) : Type 0 where
  pub others : List ColumnMapping
  pub merged : m.mappings ≡ corrected cs ++ others
  pub confident : All (Confident threshold) m.mappings
  pub apart : AllDistinct (targets m.mappings)

mapping_result-IsMergedFrom :
    (threshold : Float) (cs : Dict String) (others : List ColumnMapping) (unmapped : List String)
    (m : MappingResult)
    → All (Confident threshold) (corrected cs ++ others)
    → mapping_result (corrected cs ++ others) unmapped ≡ ok m
    → IsMergedFrom threshold cs m
mapping_result-IsMergedFrom threshold cs others unmapped m high e =
    let (same, apart) = mapping_result-eq-ok (corrected cs ++ others) unmapped e in
    let mappings : m.mappings ≡ corrected cs ++ others = cc in
    record { others = others; merged = mappings; confident = rw mappings high; apart = apart }

module _ {W : Type 0} (s : MappingService W) where
  map_uncorrected-IsMergedFrom :
      (cs : Dict String) (hs : List String) (preview : List Row) (w w' : W) (m : MappingResult)
      → lt one_float s.confidence_threshold ≡ false
      → map_uncorrected s cs (corrected cs) hs preview w ≡ (ok m, w')
      → IsMergedFrom s.confidence_threshold cs m
  unfolding map_uncorrected filtered_slm
  map_uncorrected-IsMergedFrom cs [] preview w w' m high e =
      mapping_result-IsMergedFrom s.confidence_threshold cs [] [] m
        (All-append _ (corrected cs) [] (corrected-Confident _ cs high) tt)
        (rw (append-nil (corrected cs)) (lift-ok (mapping_result (corrected cs) []) w w' e).0)
  map_uncorrected-IsMergedFrom cs (h ∷ hs) preview w w' m high e =
      let (slm, v, asked, rest) = bind-returns (s.mapper.map_headers (h ∷ hs) _) _ w w' e in
      let (_, checked, last) =
        >>=-eq-ok (check_confidence s.confidence_threshold slm.mappings) _
          (lift-ok _ v w' rest).0 in
      mapping_result-IsMergedFrom s.confidence_threshold cs (filtered_slm cs slm.mappings)
        slm.unmapped_headers m
        (All-append _ (corrected cs) _ (corrected-Confident _ cs high)
          (All-keep _ _ slm.mappings (check_confidence-Confident _ slm.mappings checked)))
        last

  -- A mapping that is made anew has every correction of the cedent with confidence 1, all of them
  -- fields of the schema, has distinct targets, and no confidence below the threshold, where the
  -- threshold is at most 1.
  pub map_with_corrections-IsMergedFrom :
      (headers : List String) (preview : List Row) (cedent : Option String) (w w' : W)
      (m : MappingResult)
      → lt one_float s.confidence_threshold ≡ false
      → map_with_corrections s headers preview cedent w ≡ (ok m, w')
      → (cs : Dict String) × (v : W) × (get_corrections s cedent headers w ≡ (ok cs, v))
        × Known (field_names s.schema) cs
        × IsMergedFrom s.confidence_threshold cs m
  unfolding map_with_corrections
  map_with_corrections-IsMergedFrom headers preview cedent w w' m high e =
      let (cs, v, known, rest) = bind-returns (get_corrections s cedent headers) _ w w' e in
      let (ms, made, last) = lift-returns _ _ v w' rest in
      let (_, valid, each) = >>=-eq-ok (validate_corrections (field_names s.schema) cs) _ made in
      let same : ms ≡ corrected cs = ground (arith, corrected_mappings-eq-ok cs) in
      (
        cs,
        v,
        known,
        validate_corrections-Known _ cs valid,
        map_uncorrected-IsMergedFrom cs (uncorrected cs headers) preview v w' m high
            (rw (sym same) last),
      )

-- The list has the mapping of this header to this field with confidence 1.
abbrev pub Certain : String → String → List ColumnMapping → Type 0
Certain h t [] = ⊥
Certain h t (m ∷ ms) =
    (m ≡ record { source_header = h; target_field = t; confidence = one_float }) ⊎ Certain h t ms

corrected-Certain :
    (h t : String) (cs : Dict String) (others : List ColumnMapping)
    → get h cs ≡ some t
    → Certain h t (corrected cs ++ others)
unfolding get
corrected-Certain h t [] others e = absurd (ground arith)
corrected-Certain h t ((j, u) ∷ cs) others e = elim (Bool-cases (j == h)) [
  | inl same ↦ inl (ground (arith, eq_iff j h))
  | inr apart ↦ inr (corrected-Certain h t cs others (ground arith))
]

-- A correction cache that returns, among the corrections of some headers, the one stored last.
pub record IsRemembering {W : Type 0} (c : CorrectionCachePort W) : Type 0 where
  pub get-set :
      (k : Correction) (headers : List String) (w w' v : W) (cs : Dict String)
      → c.set_correction k w ≡ (ok tt, w')
      → contains k.source_header headers ≡ true
      → c.get_corrections k.cedent_id headers w' ≡ (ok cs, v)
      → get k.source_header cs ≡ some k.target_field

module _ {W : Type 0} (s : MappingService W) (cache : CorrectionCachePort W) where
  get_corrections-cache :
      s.correction_cache ≡ some cache
      → (cedent : String) (headers : List String) (w : W) → cedent ≢ ""
      → get_corrections s (some cedent) headers w ≡ cache.get_corrections cedent headers w
  unfolding get_corrections
  get_corrections-cache given cedent headers w named =
      let other : (cedent == "") ≡ false = ground (arith, eq_iff cedent "") in
      rw given (rw other refl)

  store_correction-set :
      s.correction_cache ≡ some cache
      → (k : Correction) (w w' : W) → store_correction s k w ≡ (ok tt, w')
      → cache.set_correction k w ≡ (ok tt, w')
  unfolding store_correction lift
  store_correction-set given k w w' stored =
      elim (Bool-cases (contains k.target_field (field_names s.schema))) [
        | inl known ↦ rw given at (rw known at stored)
        | inr unknown ↦ absurd (ground arith)
      ]

  -- With a correction cache that returns what was stored last, and a threshold of at most 1: a
  -- correction of a named cedent that is stored is applied, with confidence 1, when the next mapping
  -- of its header is made for the cedent.
  pub store_correction-map_with_corrections :
      s.correction_cache ≡ some cache
      → IsRemembering cache
      → (k : Correction) (headers : List String) (preview : List Row) (w w' v : W)
        (m : MappingResult)
      → k.cedent_id ≢ ""
      → lt one_float s.confidence_threshold ≡ false
      → contains k.source_header headers ≡ true
      → store_correction s k w ≡ (ok tt, w')
      → map_with_corrections s headers preview (some k.cedent_id) w' ≡ (ok m, v)
      → Certain k.source_header k.target_field m.mappings
  store_correction-map_with_corrections given law k headers preview w w' v m named high known stored
        made =
      let (cs, u', found, fields, merged) =
        map_with_corrections-IsMergedFrom s headers preview (some k.cedent_id) w' v m high made in
      rw merged.merged (
        corrected-Certain k.source_header k.target_field cs merged.others (
          law.get-set k headers w w' u' cs (store_correction-set given k w w' stored) known
            (sym (get_corrections-cache given k.cedent_id headers w' named) ∙ found)))
