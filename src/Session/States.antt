-- ===== src/Session/States.antt =====
-- The life of a session: created, edited, finalised once.
use riskflow.Prelude.{◌≡◌, refl, List, [], ◌∷◌, Option, none, some, String, arith, AllDistinct}
use riskflow.Errors.{Result, ok, raise, value_error, session_finalised}
use riskflow.Schema.{ColumnMapping, targets, mapping_result}
use riskflow.Schema.Distinct.{distinct_of_dupes, dupes_of_distinct}
use riskflow.Session.{
  MappingSession, SessionStatus, created, finalised, update_mappings, extend_target_fields,
  finalise,
}

-- What the three methods may be called with.
pub data Edit (R : Type 0) : Type 0 where
  update : List ColumnMapping → List String → Edit R
  extend : List String → Edit R
  close : R → Edit R

-- The result is there exactly when the session is finalised.
abbrev Outcome {ℓ} : {R : Type ℓ} → SessionStatus → Option R → Type 0
Outcome created none = Unit
Outcome finalised (some _) = Unit
Outcome _ _ = ⊥

-- The result is set exactly when the session is finalised, and no field is mapped to twice.
pub record IsValid {R : Type 0} (s : MappingSession R) : Type 0 where
  pub outcome : Outcome s.status s.result
  pub apart : AllDistinct (targets s.mappings)

module _ {R : Type 0} where
  unfoldable pub perform : Edit R → MappingSession R → Result (MappingSession R)
  unfolding update_mappings extend_target_fields finalise
  perform (update ms unmapped) s = update_mappings ms unmapped s
  perform (extend fields) s = extend_target_fields fields s
  perform (close r) s = finalise r s

  -- A client that catches the exceptions: a refused call leaves the session as it is.
  pub attempt : Edit R → MappingSession R → MappingSession R
  attempt e s = elim (perform e s) [ ok s' ↦ s' | raise _ ↦ s ]

  unfoldable pub run : List (Edit R) → MappingSession R → MappingSession R
  unfolding attempt
  run [] s = s
  run (e ∷ es) s = run es (attempt e s)

  attempt-outcome :
      (e : Edit R) (s : MappingSession R)
      → Outcome s.status s.result
      → Outcome (attempt e s).status (attempt e s).result
  unfolding attempt perform
  attempt-outcome (update ms unmapped) s h = ground arith
  attempt-outcome (extend fields) s h = ground arith
  attempt-outcome (close r) s h = ground arith

  attempt-apart :
      (e : Edit R) (s : MappingSession R)
      → AllDistinct (targets s.mappings)
      → AllDistinct (targets (attempt e s).mappings)
  unfolding attempt perform
  attempt-apart (update ms unmapped) s h = ground (arith, distinct_of_dupes (targets ms))
  attempt-apart (extend fields) s h = ground arith
  attempt-apart (close r) s h = ground arith

  pub run-IsValid : (es : List (Edit R)) (s : MappingSession R) → IsValid s → IsValid (run es s)
  unfolding run
  run-IsValid [] s v = v
  run-IsValid (e ∷ es) s v =
      run-IsValid es (attempt e s)
        (record { outcome = attempt-outcome e s v.outcome; apart = attempt-apart e s v.apart })

  -- From a session in which no field is mapped to twice, whatever edits are tried, the result is
  -- set exactly when the session is finalised, and the mappings still make a mapping result, so
  -- finalising them cannot fail for duplicate targets.
  pub run-mapping_result :
      (es : List (Edit R)) (s : MappingSession R)
      → IsValid s
      → IsValid (run es s)
        × (mapping_result (run es s).mappings (run es s).unmapped_headers
            ≡ ok (record {
              mappings = (run es s).mappings;
              unmapped_headers = (run es s).unmapped_headers;
            }))
  unfolding mapping_result
  run-mapping_result es s v =
      let w = run-IsValid es s v in
      (w, rw (dupes_of_distinct (targets (run es s).mappings) w.apart))

  perform_finalised :
      (e : Edit R) (s : MappingSession R)
      → s.status ≡ finalised
      → perform e s ≡ raise (value_error session_finalised)
  unfolding perform
  perform_finalised (update ms unmapped) s h = ground arith
  perform_finalised (extend fields) s h = ground arith
  perform_finalised (close r) s h = ground arith

  -- Every call on a finalised session raises, and so no list of calls changes it.
  pub run_finalised :
      (es : List (Edit R)) (s : MappingSession R)
      → s.status ≡ finalised
      → (run es s ≡ s) × ((e : Edit R) → perform e s ≡ raise (value_error session_finalised))
  unfolding run attempt
  run_finalised [] s h = (refl, λ e. perform_finalised e s h)
  run_finalised (e ∷ es) s h = rw (perform_finalised e s h, attempt) (run_finalised es s h)
