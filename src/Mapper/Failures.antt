-- ===== src/Mapper/Failures.antt =====
-- What the mapper of adapters/slm/mapper.py returns and raises.
use riskflow.Prelude.{◌≡◌, List, [], ◌∷◌, Option, none, some, String}
use riskflow.Errors.{slm_unavailable, Result, ok, raise}
use riskflow.Schema.{MappingResult}
use riskflow.TargetSchema.{TargetSchema}
use riskflow.Mapper.{Response}

-- The mapping was read of the first choice.
abbrev pub Reads : (String → Result MappingResult) → List (Option String) → MappingResult → Type 0
Reads load [] m = ⊥
Reads load (none ∷ cs) m = ⊥
Reads load (some content ∷ cs) m = load content ≡ ok m

-- The outcome of the mapper, by the outcome of its request to the model.
abbrev pub IsOutcome :
    (String → Result MappingResult) → Result Response → Result MappingResult → Type 0
IsOutcome load (ok response) (ok m) = Reads load response.choices m
IsOutcome load (raise x) (ok m) = ⊥
IsOutcome load _ (raise e) = e ≡ slm_unavailable
