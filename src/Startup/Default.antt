-- ===== src/Startup/Default.antt =====
-- That starting the application finds its default schema and service: entrypoint/main.py.
use mathlib.Core.Option.{some-injective}
use mathlib.Core.Path.{subst}
use riskflow.Prelude.{
  ◌≡◌, ◌⊎◌, refl, sym, ap, ◌∙◌, true, List, [], ◌∷◌, Option, none, some, String, arith, ◌==◌,
  eq_iff, eq_refl, is_some, Bool-cases, Option-cases, inl, inr,
}
use riskflow.Prelude.Dict.{Dict, get, put, get-put}
use riskflow.Errors.{Result, ok, ◌>>=◌, >>=-eq-ok}
use riskflow.TargetSchema.{TargetSchema}
use riskflow.Startup.{
  Environment, load, single, load_each, load_default, or_default, from_files, load_all_schemas,
  registered,
}
use riskflow.Startup.Merge.{made, services-Served}
use riskflow.Startup.App.{default_name, default_schema, default_service, first_value}

-- Each schema stands under its own name.
abbrev Named : Dict TargetSchema → Type 0
Named d = (n : String) (s : TargetSchema) → get n d ≡ some s → s.name ≡ n

put-Named : (s : TargetSchema) (d : Dict TargetSchema) → Named d → Named (put s.name s d)
put-Named s d h n t e = elim (Bool-cases (s.name == n)) [
  | inl same ↦
      let found : some s ≡ some t = sym (rw (get-put s.name n s d, same) refl) ∙ e in
      ap (λ x. x.name) (sym (some-injective _ _ found)) ∙ (eq_iff s.name n).0 same
  | inr other ↦ h n t (sym (rw (get-put s.name n s d, other) refl) ∙ e)
]

none-Named : Named []
unfolding get
none-Named n s e = absurd (ground (arith, e))

kept :
    (P : Dict TargetSchema → Type 0) (d r : Dict TargetSchema)
    → P d
    → ◌≡◌ {A = Result (Dict TargetSchema)} (ok d) (ok r)
    → P r
kept P d r h e = subst P (cc e) h

module _ {Y : Type 0} (env : Environment Y) where
  -- The schemas that a step returns: named, and at least one.
  abbrev Started : Dict TargetSchema → Type 0
  Started d = Named d × (is_some (first_value d) ≡ true)

  single-Started : (s : TargetSchema) → Started (single env s)
  unfolding get
  single-Started s = (λ n t e. put-Named s [] none-Named n t (unfold put in e), refl)

  load_each-Named :
      (fs : List String) (d r : Dict TargetSchema) → Named d → load_each env d fs ≡ ok r → Named r
  unfolding load_each
  load_each-Named [] d r h e = kept Named d r h e
  load_each-Named (f ∷ fs) d r h e =
      let (s, _, rest) = >>=-eq-ok (load env f) (λ s. load_each env (put s.name s d) fs) e in
      load_each-Named fs (put s.name s d) r (put-Named s d h) rest

  load_single-Started :
      (path : String) (r : Dict TargetSchema)
      → (load env path >>= λ s. ok (single env s)) ≡ ok r
      → Started r
  load_single-Started path r e =
      let (s, _, made) = >>=-eq-ok (load env path) (λ s. ok (single env s)) e in
      kept Started (single env s) r (single-Started s) made

  or_default-Started : (d r : Dict TargetSchema) → Named d → or_default env d ≡ ok r → Started r
  unfolding or_default load_default
  or_default-Started [] r h e = load_single-Started _ r e
  or_default-Started (t ∷ d) r h e = kept Started (t ∷ d) r (h, refl) e

  from_files-Started :
      (fs : Option (List String)) (r : Dict TargetSchema) → from_files env fs ≡ ok r → Started r
  unfolding from_files load_default
  from_files-Started none r e = load_single-Started _ r e
  from_files-Started (some fs) r e =
      let (d, loaded, rest) = >>=-eq-ok (load_each env [] fs) (λ d. or_default env d) e in
      or_default-Started d r (load_each-Named fs [] d none-Named loaded) rest

  load_all_schemas-Started : (r : Dict TargetSchema) → load_all_schemas env ≡ ok r → Started r
  unfolding load_all_schemas
  load_all_schemas-Started r e = elim (Option-cases env.schema_path) [
    | inl unset ↦ from_files-Started env.yaml_files r (rw unset at e)
    | inr (path, given) ↦ elim (Bool-cases (path == "")) [
      | inl blank ↦ from_files-Started env.yaml_files r (rw (given, blank) at e)
      | inr named ↦ load_single-Started path r (rw (given, named) at e)
    ]
  ]

module _ {Y S : Type 0} (env : Environment Y) (make_service : TargetSchema → S) where
  service_of :
      (s : TargetSchema) (d : Dict TargetSchema)
      → get s.name d ≡ some s
      → default_service s (registered make_service d).registry ≡ some (make_service s)
  unfolding default_service registered
  service_of s [] h = absurd (unfold get in ground (arith, h))
  service_of s (e ∷ d) h =
      let served : get s.name (registered make_service (e ∷ d)).registry ≡ some (make_service s) =
        services-Served make_service (e ∷ d) s.name ∙ ap (made make_service) h in
      unfold registered riskflow.Startup.services in rw served refl

  -- If the schema files are loaded, starting the application finds a default schema and its service:
  -- the schema that DEFAULT_SCHEMA names, if it was loaded, else the first one, and the service that
  -- is made of it. So neither of the two calls of `next` fails.
  pub load_all_schemas-default_service :
      (name : Option String) (d : Dict TargetSchema)
      → load_all_schemas env ≡ ok d
      → (s : TargetSchema) × (default_schema name d ≡ some s)
        × (default_service s (registered make_service d).registry ≡ some (make_service s))
        × ((get (default_name name) d ≡ some s)
            ⊎ ((get (default_name name) d ≡ none) × (first_value d ≡ some s)))
  load_all_schemas-default_service name d loaded =
      let (named, some_there) = load_all_schemas-Started env d loaded in
      choose d named some_there (get (default_name name) d) refl
    where
      choose :
          (d : Dict TargetSchema)
          → Named d
          → is_some (first_value d) ≡ true
          → (o : Option TargetSchema) → get (default_name name) d ≡ o
          → (s : TargetSchema) × (default_schema name d ≡ some s)
            × (default_service s (registered make_service d).registry ≡ some (make_service s))
            × ((get (default_name name) d ≡ some s)
                ⊎ ((get (default_name name) d ≡ none) × (first_value d ≡ some s)))
      choose [] named there o e = absurd (ground (arith, there))
      choose ((k, t) ∷ d) named there none e =
          let first : get k ((k, t) ∷ d) ≡ some t = unfold get in rw (eq_refl k) refl in
          let own : get t.name ((k, t) ∷ d) ≡ some t =
            ap (λ n. get n ((k, t) ∷ d)) (named k t first) ∙ first in
          (t, unfold default_schema in rw e refl, service_of t ((k, t) ∷ d) own, inr (e, refl))
      choose ((k, t) ∷ d) named there (some s) e =
          let own : get s.name ((k, t) ∷ d) ≡ some s =
            ap (λ n. get n ((k, t) ∷ d)) (named (default_name name) s e) ∙ e in
          (s, unfold default_schema in rw e refl, service_of s ((k, t) ∷ d) own, inl e)
