-- ===== src/Startup/Merge.antt =====
-- What starting the application makes of the schemas: entrypoint/main.py.
use riskflow.Prelude.{
  ◌≡◌, refl, ap, Bool, true, false, List, [], ◌∷◌, Option, none, some, String, arith, eq_iff,
  is_some, if◌then◌else◌, inl, inr,
}
use riskflow.Prelude.Dict.{Dict, get, put, get-put}
use riskflow.Errors.{
  Exception, invalid_schema, is_os_error, is_value_error, Result, ok, raise, guard, >>=-eq-raise,
}
use riskflow.TargetSchema.{TargetSchema}
use riskflow.Startup.{
  Environment, read, parsed, validated, load, Registered, services, registered, merge_one, merge,
}

abbrev pub made : {S : Type 0} → (TargetSchema → S) → Option TargetSchema → Option S
made f none = none
made f (some s) = some (f s)

module _ {S : Type 0} (make_service : TargetSchema → S) where
  -- Every name has a service exactly when it has a definition, and it is the service of that.
  abbrev pub Served : Registered S → Type 0
  Served r = (n : String) → get n r.registry ≡ made make_service (get n r.definitions)

  pub services-Served : (d : Dict TargetSchema) → Served (registered make_service d)
  unfolding registered services get
  services-Served [] n = refl
  services-Served ((m, s) ∷ d) n = ground (arith, services-Served d n)

  -- The definitions and services of the names that were there are kept.
  pub record Extends (r q : Registered S) : Type 0 where
    pub served : Served q
    pub kept :
        (n : String) (s : TargetSchema)
        → get n r.definitions ≡ some s
        → get n q.definitions ≡ some s

  merge_one-Extends :
      (fetch : String → Result (Option TargetSchema)) (n : String) (r : Registered S)
      → Served r
      → Extends r (merge_one make_service fetch n r)
  unfolding merge_one
  merge_one-Extends fetch n r h = split (is_some (get n r.definitions)) refl (fetch n)
    where
      same : (n m : String) → n ≡ m → get n r.definitions ≡ get m r.definitions
      same n m p = ap (λ j. get j r.definitions) p

      split :
          (known : Bool)
          → is_some (get n r.definitions) ≡ known
          → (x : Result (Option TargetSchema))
          → Extends r (
              if known then r else (elim x [
                | ok (some s) ↦ record {
                  registry = put n (make_service s) r.registry;
                  definitions = put n s r.definitions;
                }
                | _ ↦ r
              ]))
      split true e x = record { served = h; kept = λ m s k. k }
      split false e (raise x) = record { served = h; kept = λ m s k. k }
      split false e (ok none) = record { served = h; kept = λ m s k. k }
      split false e (ok (some s)) = record {
        served = λ m.
            ground
              (arith, h m, get-put n m (make_service s) r.registry, get-put n m s r.definitions);
        kept = λ m t k. ground (arith, get-put n m s r.definitions, eq_iff n m, same n m);
      }

  merge-Extends :
      (fetch : String → Result (Option TargetSchema)) (ns : List String) (r : Registered S)
      → Served r
      → Extends r (merge make_service fetch ns r)
  unfolding merge
  merge-Extends fetch [] r h = record { served = h; kept = λ m s k. k }
  merge-Extends fetch (n ∷ ns) r h =
      let one = merge_one-Extends fetch n r h in
      let rest = merge-Extends fetch ns (merge_one make_service fetch n r) one.served in
      record { served = rest.served; kept = λ m s k. rest.kept m s (one.kept m s k) }

  -- However the schema store answers, merging the runtime schemas into those of the files keeps the
  -- definition of each of these, and gives every name the service that is made of its definition.
  pub merge-registered :
      (fetch : String → Result (Option TargetSchema)) (ns : List String) (d : Dict TargetSchema)
      → Extends
          (registered make_service d)
          (merge make_service fetch ns (registered make_service d))
  merge-registered fetch ns d =
      merge-Extends fetch ns (registered make_service d) (services-Served d)

module _ {Y : Type 0} (env : Environment Y) where
  read-failure :
      (r : Result String) (e : Exception)
      → ((x : Exception) → r ≡ raise x → is_os_error x ≡ true)
      → read env r ≡ raise e
      → e ≡ invalid_schema
  unfolding read
  read-failure (ok s) e h q = absurd (ground arith)
  read-failure (raise x) e h q = let k = h x refl in ground arith

  validated-failure :
      (r : Result TargetSchema) (e : Exception)
      → ((x : Exception) → r ≡ raise x → is_value_error x ≡ true)
      → validated env r ≡ raise e
      → e ≡ invalid_schema
  unfolding validated
  validated-failure (ok s) e h q = absurd (ground arith)
  validated-failure (raise x) e h q = let k = h x refl in ground arith

  parsed-failure : (y : Option Y) (e : Exception) → parsed env y ≡ raise e → e ≡ invalid_schema
  unfolding parsed
  parsed-failure none e q = ground arith
  parsed-failure (some y) e q = absurd (ground arith)

  guard-failure : (b : Bool) (e : Exception) → guard b invalid_schema ≡ raise e → e ≡ invalid_schema
  guard-failure true e q = absurd (ground arith)
  guard-failure false e q = ground arith

  -- If reading a file raises only `OSError` and validating it only value errors, then loading a
  -- schema raises nothing but `InvalidSchemaError`.
  pub load-failure :
      (path : String) (e : Exception)
      → ((x : Exception) → env.read_text path ≡ raise x → is_os_error x ≡ true)
      → ((y : Y) (x : Exception) → env.model_validate y ≡ raise x → is_value_error x ≡ true)
      → load env path ≡ raise e
      → e ≡ invalid_schema
  unfolding load
  load-failure path e reads validates h =
      elim (>>=-eq-raise (guard (env.exists path) invalid_schema) _ h) [
        | inl q ↦ guard-failure _ e q
        | inr (_, _, h1) ↦ elim (>>=-eq-raise (read env (env.read_text path)) _ h1) [
          | inl q ↦ read-failure _ e reads q
          | inr (raw, _, h2) ↦ elim (>>=-eq-raise (parsed env (env.safe_load raw)) _ h2) [
            | inl q ↦ parsed-failure _ e q
            | inr (y, _, h3) ↦ elim (>>=-eq-raise (guard (env.is_dict y) invalid_schema) _ h3) [
              | inl q ↦ guard-failure _ e q
              | inr (_, _, h4) ↦ validated-failure _ e (validates y) h4
            ]
          ]
        ]
      ]
