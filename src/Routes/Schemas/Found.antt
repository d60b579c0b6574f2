-- ===== src/Routes/Schemas/Found.antt =====
-- What a runtime schema of adapters/http/routes.py that is created or deleted is found as.
use riskflow.Prelude.{◌≡◌, refl, sym, ap, Option, none, some, String, arith, eq_refl}
use riskflow.Prelude.Dict.{Dict, get, put, get-put, get-remove}
use riskflow.Errors.{Result, ok, raise}
use riskflow.Text.{codes}
use riskflow.TargetSchema.{TargetSchema}
use riskflow.Routes.Schemas.{require-reply}
use riskflow.Routes.{
  Reply, reply, failure, http, Router, SchemaStore, ◌>>◌, validate_schema_name, known, get_schema,
  after, stored, create_saved, put_made, save_to, delete_from, create_schema, delete_schema,
  create_checks, created, delete_checks, popped, schema_not_found, is_schema_name,
  invalid_schema_name,
}

-- What a request that succeeds has checked and done.
module _ {W S : Type 0} where
  after-reply :
      (c : Reply (Unit {0})) (f : Router W S → Reply (Unit {0}) × Router W S) (r q : Router W S)
      → after c f r ≡ (reply tt, q)
      → (c ≡ reply tt) × (f r ≡ (reply tt, q))
  after-reply (reply u) f r q h = (refl, h)
  after-reply (failure e) f r q h = absurd (ground arith)

  stored-reply :
      (a b : Router W S) (x : Result (Unit {0}) × W) (q : Router W S)
      → stored a b x ≡ (reply tt, q)
      → (w : W) × (record b { world = w } ≡ q)
  stored-reply a b (ok u, w) q h = (w, ap (λ t. t.1) h)
  stored-reply a b (raise e, w) q h = absurd (ground arith)

  created-reply :
      (schema : TargetSchema) (r q : Router W S) (d : Dict S) (x : Result S)
      → created schema r (put_made schema.name d x) ≡ (reply tt, q)
      → (s : S) × (x ≡ ok s)
        × (record r {
          registry = put schema.name s d;
          definitions = put schema.name schema r.definitions;
        }
            ≡ q)
  created-reply schema r q d (ok s) h = (s, refl, ap (λ t. t.1) h)
  created-reply schema r q d (raise e) h = absurd (ground arith)

  create_saved-reply :
      (f : TargetSchema → Result S) (schema : TargetSchema) (r : Router W S)
      (x : Result (Unit {0}) × W) (q : Router W S)
      → create_saved (some f) schema r x ≡ (reply tt, q)
      → (w : W) × (s : S) × (f schema ≡ ok s)
        × (record r {
          registry = put schema.name s r.registry;
          definitions = put schema.name schema r.definitions;
          world = w;
        }
            ≡ q)
  create_saved-reply f schema r (ok u, w) q h =
      let (s, made, same) =
        created-reply schema (record r { world = w }) q r.registry (f schema) h in
      (w, s, made, same)
  create_saved-reply f schema r (raise e, w) q h = absurd (ground arith)

valid_name :
    (name : String) (k : Reply (Unit {0}))
    → (validate_schema_name name >> k) ≡ reply tt
    → validate_schema_name name ≡ reply tt
unfolding validate_schema_name
valid_name name k h =
    let (valid, _) = require-reply (is_schema_name (codes name)) 400 invalid_schema_name k h in
    rw valid refl

module _ {W S : Type 0} (store : Option (SchemaStore W)) where
  -- A schema that is created is the one that its name then gives, and its service is the one that
  -- the factory makes of it.
  pub create_schema-get_schema :
      (f : TargetSchema → Result S) (schema : TargetSchema) (r q : Router W S)
      → create_schema store (some f) (some schema) r ≡ (reply tt, q)
      → (s : S) × (f schema ≡ ok s)
        × (get_schema schema.name q ≡ reply schema)
        × (get schema.name q.registry ≡ some s)
  unfolding create_schema get_schema known
  create_schema-get_schema f schema r q h =
      let (checked, rest) = after-reply (create_checks schema r) _ r q h in
      let (w, s, made, same) =
        create_saved-reply f schema r (save_to store schema r.world) q rest in
      let valid = valid_name schema.name _ checked in
      rw (sym same) (
        s,
        made,
        rw valid (
            ground
              (arith, get-put schema.name schema.name schema r.definitions, eq_refl schema.name)),
        ground (arith, get-put schema.name schema.name s r.registry, eq_refl schema.name),
      )

  -- A schema that is deleted is not found any more, and no service is registered for it.
  pub delete_schema-get_schema :
      (name : String) (r q : Router W S)
      → delete_schema store name r ≡ (reply tt, q)
      → (get_schema name q ≡ failure (http 404 schema_not_found)) × (get name q.registry ≡ none)
  unfolding delete_schema get_schema known
  delete_schema-get_schema name r q h =
      let (checked, rest) = after-reply (delete_checks name r) _ r q h in
      let (w, made) =
        stored-reply (popped name r) (popped name r) (delete_from store name r.world) q rest in
      let valid = valid_name name _ checked in
      rw (sym made) (
        rw valid (ground (arith, get-remove name name r.definitions, eq_refl name)),
        ground (arith, get-remove name name r.registry, eq_refl name),
      )
