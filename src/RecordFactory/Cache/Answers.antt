-- ===== src/RecordFactory/Cache/Answers.antt =====
-- What the calls through the cache of record models return, and the size of the cache.
use riskflow.Prelude.{
  ℕ, suc, ◌≤◌, ◌≡◌, refl, ◌∙◌, ap, Bool, true, false, List, [], ◌∷◌, Option, none, some, String,
  eq_iff, arith, keep, take, length, length-keep-le, map, not, All, All-keep, zero, sym, ◌⊎◌, inl,
  inr, if◌then◌else◌,
}
use mathlib.Core.Option.{some-injective}
use mathlib.Core.Path.{ap₂}
use riskflow.Errors.{Result, ok}
use riskflow.RecordFactory.{RecordModel, build_model}
use riskflow.TargetSchema.{TargetSchema, fingerprint}
use riskflow.RecordFactory.Cache.{
  SchemaJson, Entry, entry, Cache, is_for, lookup, max_size, after_lookup, build_cached,
  build_record_model, clear_record_model_cache, Call, build, clear, run,
}

-- The schemas whose models are asked for, in order.
abbrev pub asked : List Call → List TargetSchema
asked [] = []
asked (clear ∷ cs) = asked cs
asked (build s ∷ cs) = s ∷ asked cs

abbrev pub IsReadBack : SchemaJson → TargetSchema → Type 0
IsReadBack json s = json.load (json.dump s) ≡ ok s

found_in :
    (b : Bool) (m n : RecordModel) (rest : Option RecordModel)
    → (if b then some n else rest) ≡ some m
    → ((b ≡ true) × (n ≡ m)) ⊎ (rest ≡ some m)
found_in true m n rest h = inl (refl, some-injective n m h)
found_in false m n rest h = inr h

length-take-le : (n : ℕ) (es : Cache) → length (take n es) ≤ n
length-take-le zero es = omega arith
length-take-le (suc n) [] = omega arith
length-take-le (suc n) (e ∷ es) = omega (arith, length-take-le n es)

All-take : (P : Entry → Type 0) (n : ℕ) (es : Cache) → All P es → All P (take n es)
All-take P zero es h = tt
All-take P (suc n) [] h = tt
All-take P (suc n) (e ∷ es) h = (h.0, All-take P n es h.1)

-- An entry that is kept once is one fewer without it.
length-touch-le :
    (print text : String) (es : Cache) (m : RecordModel)
    → lookup print text es ≡ some m
    → suc (length (keep (λ x. not (is_for print text x)) es)) ≤ length es
unfolding lookup
length-touch-le print text [] m found = absurd (ground arith)
length-touch-le print text (e ∷ es) m found =
    ground
      (arith, length-keep-le (λ x. not (is_for print text x)) es, length-touch-le print text es m)

module _ (json : SchemaJson) where
  -- The model is the one of the schema that the text reads as.
  abbrev IsBuilt : String → RecordModel → Type 0
  IsBuilt text m = (s : TargetSchema) × (json.load text ≡ ok s) × (m ≡ build_model s)

  abbrev Holds : Entry → Type 0
  Holds e = IsBuilt e.schema_json e.model

  abbrev IsSound : Cache → Type 0
  IsSound es = All Holds es × (length es ≤ max_size)

  lookup-IsBuilt :
      (print text : String) (es : Cache) (m : RecordModel)
      → All Holds es
      → lookup print text es ≡ some m
      → IsBuilt text m
  unfolding lookup
  lookup-IsBuilt print text [] m h found = absurd (ground arith)
  lookup-IsBuilt print text (e ∷ es) m h found =
      elim (found_in (is_for print text e) m e.model (lookup print text es) found) [
        | inl (b, n) ↦
            let same : e.schema_json ≡ text = ground (arith, eq_iff e.schema_json text) in
            let (s, read, built) = h.0 in (s, ap json.load (sym same) ∙ read, sym n ∙ built)
        | inr rest ↦ lookup-IsBuilt print text es m h.1 rest
      ]

  abbrev Answers : TargetSchema → Result RecordModel × Cache → Type 0
  Answers s answer = (answer.0 ≡ ok (build_model s)) × IsSound answer.1

  after_lookup-Answers :
      (print text : String) (s : TargetSchema) (es : Cache)
      → json.load text ≡ ok s
      → IsSound es
      → (o : Option RecordModel) → lookup print text es ≡ o
      → Answers s (after_lookup json print text es o)
  after_lookup-Answers print text s es read h none missed =
      let es' : Cache = entry print text (build_model s) ∷ es in
      rw read
        (refl, (All-take Holds max_size es' ((s, read, refl), h.0), length-take-le max_size es'))
  after_lookup-Answers print text s es read h (some m) found =
      let (t, again, built) = lookup-IsBuilt print text es m h.0 found in
      let same : t ≡ s = cc (again, read) in
      (
        ap ok (built ∙ ap build_model same),
        (
          ((t, again, built), All-keep Holds _ es h.0),
          omega (arith, h.1, length-touch-le print text es m found),
        ),
      )

  run-asked :
      (blake2b : String → String) (cs : List Call) (es : Cache)
      → All (IsReadBack json) (asked cs)
      → IsSound es
      → ((run json blake2b cs es).0 ≡ map (λ s. ok (build_model s)) (asked cs))
        × IsSound (run json blake2b cs es).1
  unfolding run build_record_model build_cached clear_record_model_cache
  run-asked blake2b [] es h sound = (refl, sound)
  run-asked blake2b (clear ∷ cs) es h sound = run-asked blake2b cs [] h (tt, ground arith)
  run-asked blake2b (build s ∷ cs) es h sound =
      let first =
        after_lookup-Answers (fingerprint blake2b s) (json.dump s) s es h.0 sound _ refl in
      let (rest, sound') = run-asked blake2b cs _ h.1 first.1 in
      (ap₂ (λ x xs. x ∷ xs) first.0 rest, sound')

  -- Where the schemas that are asked for are read back from their JSON, every call of
  -- build_record_model returns the model of its schema, whatever the fingerprints are and whatever
  -- calls and clearings of the cache come before it, and the cache never has more than 32 entries.
  pub run-build_model :
      (blake2b : String → String) (cs : List Call)
      → All (IsReadBack json) (asked cs)
      → ((run json blake2b cs []).0 ≡ map (λ s. ok (build_model s)) (asked cs))
        × (length (run json blake2b cs []).1 ≤ max_size)
  run-build_model blake2b cs h =
      let (same, sound) = run-asked blake2b cs [] h (tt, ground arith) in (same, sound.1)
