-- ===== src/Routes/Sessions/Names.antt =====
-- The name of the schema that `create_session` gives a session, and the service that
-- `finalise_session` finds by it.
use mathlib.Core.Option.{some-injective}
use riskflow.Prelude.{
  ◌≡◌, refl, ap, ◌∙◌, ◌⊎◌, inl, inr, Bool, true, false, [], ◌∷◌, Option, none, some, String, ◌==◌,
  eq_iff, arith, contains, AllDistinct, All, if◌then◌else◌, is_some, eq_refl, Bool-cases,
}
use riskflow.Prelude.Dict.{Dict, get, keys, contains-keys}
use riskflow.Routes.{reply, Router, is_schema_name, validate_schema_name, known, resolve_service}
use riskflow.Routes.Sessions.Create.{name_of, schema_name_of}
use riskflow.Text.{codes, is_blank}

-- `is` on services: one object is that object, and no other.
abbrev pub IsIdentity : {S : Type 0} → (S → S → Bool) → Type 0
IsIdentity {S} same = ((s : S) → same s s ≡ true) × ((s t : S) → same s t ≡ true → s ≡ t)

-- A name that the routes take.
abbrev pub IsServed : String → Type 0
IsServed name = is_schema_name (codes name) ≡ true

first_or_rest :
    {S : Type 0} (b : Bool) (t s : S) (rest : Option S)
    → (if b then some t else rest) ≡ some s
    → (t ≡ s) ⊎ (rest ≡ some s)
first_or_rest true t s rest h = inl (some-injective t s h)
first_or_rest false t s rest h = inr h

module _ {S : Type 0} (same : S → S → Bool) (identity : IsIdentity same) where
  -- A service that stands in the registry is found under the name that it is given.
  get-name_of :
      (n : String) (s : S) (d : Dict S)
      → AllDistinct (keys d)
      → get n d ≡ some s
      → get (name_of same s d) d ≡ some s
  unfolding get name_of
  get-name_of n s [] apart found = absurd (ground arith)
  get-name_of n s ((m, t) ∷ d) apart found = elim (first_or_rest (m == n) t s (get n d) found) [
    | inl same_service ↦
        ground
          (arith, eq_refl m, identity.0 s, ap (λ x. same x s) same_service, ap some same_service)
    | inr rest ↦
        let later = get-name_of n s d apart.1 rest in
        let member = contains-keys (name_of same s d) d ∙ ap is_some later in
        ground (
          arith,
          eq_refl m,
          eq_iff m (name_of same s d),
          apart.0,
          member,
          later,
          identity.1 t s,
          λ (e : m ≡ name_of same s d). ap (λ x. contains x (keys d)) e,
          λ (e : t ≡ s). ap some e,
        )
  ]

  name_of-IsServed :
      (n : String) (s : S) (d : Dict S)
      → All IsServed (keys d)
      → get n d ≡ some s
      → IsServed (name_of same s d)
  unfolding get name_of
  name_of-IsServed n s [] served found = absurd (ground arith)
  name_of-IsServed n s ((m, t) ∷ d) served found =
      elim (first_or_rest (m == n) t s (get n d) found) [
        | inl same_service ↦ ground (arith, served.0, identity.0 s, ap (λ x. same x s) same_service)
        | inr rest ↦ ground (arith, served.0, name_of-IsServed n s d served.1 rest)
      ]

IsServed-is_blank : (name : String) → IsServed name → is_blank name ≡ false
unfolding is_schema_name is_blank
IsServed-is_blank String.[] h = absurd (ground arith)
IsServed-is_blank (String.◌∷◌ c s) h = ground arith

module _ {W S : Type 0} (same : S → S → Bool) (identity : IsIdentity same) where
  -- The name of a service of the registry resolves to it.
  name_of-resolve_service :
      (r : Router W S) (n : String) (s : S)
      → All IsServed (keys r.registry)
      → AllDistinct (keys r.registry)
      → get n r.registry ≡ some s
      → resolve_service (some (name_of same s r.registry)) r ≡ reply s
  unfolding resolve_service validate_schema_name known
  name_of-resolve_service r n s served apart found =
      let name : String = name_of same s r.registry in
      let valid = name_of-IsServed same identity n s r.registry served found in
      rw (IsServed-is_blank name valid)
        (rw valid (rw (get-name_of same identity n s r.registry apart found) refl))

  -- Where the registry has its default service, all its names are valid and none stands twice: the
  -- name that create_session gives a session, of the schema that was asked for or of the service by
  -- its identity, resolves to the service that made the suggestion, so that finalise_session
  -- validates the rows with that service.
  pub schema_name_of-resolve_service :
      (r : Router W S) (n : String) (schema : Option String) (s : S)
      → All IsServed (keys r.registry)
      → AllDistinct (keys r.registry)
      → get n r.registry ≡ some r.default
      → resolve_service schema r ≡ reply s
      → resolve_service (some (schema_name_of same schema s r.registry)) r ≡ reply s
  unfolding schema_name_of resolve_service
  schema_name_of-resolve_service r n none s served apart found h =
      let same_service : r.default ≡ s = cc h in
      name_of-resolve_service r n s served apart (found ∙ ap some same_service)
  schema_name_of-resolve_service r n (some name) s served apart found h =
      elim (Bool-cases (is_blank name)) [
        | inl blank ↦
            let to_default : resolve_service (some name) r ≡ reply r.default = rw blank refl in
            let same_service : r.default ≡ s = cc (to_default, h) in
            rw blank (name_of-resolve_service r n s served apart (found ∙ ap some same_service))
        | inr not_blank ↦ rw not_blank h
      ]
