-- ===== src/Routes/Schemas.antt =====
-- The requests of adapters/http/routes.py for runtime schemas, in sequence: the built-in schemas
-- stay.
pub mod Found
use riskflow.Prelude.{
  ℕ, ◌≡◌, refl, sym, ap, ◌∙◌, Bool, true, false, not, List, [], ◌∷◌, Option, none, some, String,
  arith, ◌==◌, eq_iff, eq_refl, contains,
}
use riskflow.Prelude.Dict.{Dict, get, put, get-put, get-remove}
use riskflow.Errors.{Result, ok, raise}
use riskflow.Text.{codes}
use riskflow.TargetSchema.{TargetSchema}
use riskflow.Routes.{
  Reply, reply, failure, http, ErrorCode, Router, SchemaStore, ◌>>◌, require, validate_schema_name,
  known, get_schema, is_registered, register, after, stored, create_saved, put_made, save_to,
  delete_from, create_schema, delete_schema, create_checks, created, delete_checks, popped,
  schema_not_found, is_schema_name, invalid_schema_name, protected_schema,
}

-- A request that changes the schemas.
pub data Request : Type 0 where
  create_request : Option TargetSchema → Request
  delete_request : String → Request

module _ {W S : Type 0} (factory : Option (TargetSchema → Result S))
    (store : Option (SchemaStore W)) where
  unfoldable pub handle : Request → Router W S → Router W S
  handle (create_request body) r = (create_schema store factory body r).1
  handle (delete_request name) r = (delete_schema store name r).1

  unfoldable pub handle_all : List Request → Router W S → Router W S
  unfolding handle
  handle_all [] r = r
  handle_all (q ∷ qs) r = handle_all qs (handle q r)

-- A schema name is registered in both states in the same way, and the built-in names are the same.
pub record Keeps {W S : Type 0} (n : String) (r q : Router W S) : Type 0 where
  pub definition : get n q.definitions ≡ get n r.definitions
  pub service : get n q.registry ≡ get n r.registry
  pub names : q.builtins ≡ r.builtins

pub require-reply :
    (b : Bool) (status : ℕ) (code : ErrorCode) (k : Reply (Unit {0}))
    → (require b status code >> k) ≡ reply tt
    → (b ≡ true) × (k ≡ reply tt)
require-reply true status code k h = (refl, h)
require-reply false status code k h = absurd (ground arith)

require-true :
    (b : Bool) (status : ℕ) (code : ErrorCode) → require b status code ≡ reply tt → b ≡ true
require-true true status code h = refl
require-true false status code h = absurd (ground arith)

apart : (p : String → Bool) (a b : String) → p a ≡ false → p b ≡ true → (a == b) ≡ false
apart p a b h k = ground (arith, eq_iff a b, same)
  where
    same : a ≡ b → p a ≡ p b
    same e = ap p e

validate-reply :
    (name : String) (k : Reply (Unit {0}))
    → (validate_schema_name name >> k) ≡ reply tt
    → k ≡ reply tt
unfolding validate_schema_name
validate-reply name k h = (require-reply _ _ _ k h).1

module _ {W S : Type 0} (P : Router W S → Type 0) where
  after-holds :
      (c : Reply (Unit {0})) (f : Router W S → Reply (Unit {0}) × Router W S) (r : Router W S)
      → P r
      → (c ≡ reply tt → P (f r).1)
      → P (after c f r).1
  after-holds (reply tt) f r p q = q refl
  after-holds (failure e) f r p q = p

  stored-holds :
      (a b : Router W S) (x : Result (Unit {0}) × W)
      → ((w : W) → P (record a { world = w }))
      → ((w : W) → P (record b { world = w }))
      → P (stored a b x).1
  stored-holds a b (ok u, w) p q = q w
  stored-holds a b (raise e, w) p q = p w

module _ {W S : Type 0} (factory : Option (TargetSchema → Result S))
    (store : Option (SchemaStore W)) where
  get-register :
      (f : Option (TargetSchema → Result S)) (schema : TargetSchema) (n : String) (d q : Dict S)
      → (schema.name == n) ≡ false
      → register f schema d ≡ ok q
      → get n q ≡ get n d
  get-register none schema n d q h e = ground arith
  get-register (some f) schema n d q h e = put_it (f schema) e
    where
      put_it : (x : Result S) → put_made schema.name d x ≡ ok q → get n q ≡ get n d
      put_it (ok s) e = ground (arith, get-put schema.name n s d)
      put_it (raise x) e = absurd (ground arith)

  same_Keeps : (n : String) (r : Router W S) (w : W) → Keeps n r (record r { world = w })
  same_Keeps n r w = record { definition = refl; service = refl; names = refl }

  created-Keeps :
      (schema : TargetSchema) (r : Router W S) (n : String) (w : W) (x : Result (Dict S))
      → (schema.name == n) ≡ false
      → register factory schema r.registry ≡ x
      → Keeps n r (created schema (record r { world = w }) x).1
  created-Keeps schema r n w (raise e) other h = same_Keeps n r w
  created-Keeps schema r n w (ok q) other h = record {
    definition = ground (arith, other, get-put schema.name n schema r.definitions);
    service = get-register factory schema n r.registry q other h;
    names = refl;
  }

  create_saved-Keeps :
      (schema : TargetSchema) (r : Router W S) (n : String) (x : Result (Unit {0}) × W)
      → (schema.name == n) ≡ false
      → Keeps n r (create_saved factory schema r x).1
  create_saved-Keeps schema r n (raise e, w) other = same_Keeps n r w
  create_saved-Keeps schema r n (ok u, w) other = created-Keeps schema r n w _ other refl

  create-Keeps :
      (body : Option TargetSchema) (r : Router W S) (n : String)
      → is_registered n r ≡ true
      → Keeps n r (create_schema store factory body r).1
  unfolding create_schema
  create-Keeps none r n k = same_Keeps n r r.world
  create-Keeps (some schema) r n k =
      after-holds (Keeps n r) (create_checks schema r) _ r (same_Keeps n r r.world) λ c.
        let new = require-true _ _ _ (validate-reply schema.name _ c) in
        let other : (schema.name == n) ≡ false =
          apart (λ j. is_registered j r) schema.name n (ground arith) k in
        create_saved-Keeps schema r n (save_to store schema r.world) other

  delete-Keeps :
      (name : String) (r : Router W S) (n : String)
      → contains n r.builtins ≡ true
      → Keeps n r (delete_schema store name r).1
  unfolding delete_schema
  delete-Keeps name r n b =
      after-holds (Keeps n r) (delete_checks name r) _ r (same_Keeps n r r.world) λ c.
        let (unprotected, _) =
          require-reply (not (contains name r.builtins)) 403 protected_schema _
            (validate-reply name _ c) in
        let other : (name == n) ≡ false =
          apart (λ k. contains k r.builtins) name n (ground arith) b in
        let kept : (w : W) → Keeps n r (record (popped name r) { world = w }) = λ w. record {
          definition = ground (arith, other, get-remove name n r.definitions);
          service = ground (arith, other, get-remove name n r.registry);
          names = refl;
        } in
        stored-holds (Keeps n r) (popped name r) (popped name r) (delete_from store name r.world)
          kept kept

  handle-Keeps :
      (q : Request) (r : Router W S) (n : String)
      → contains n r.builtins ≡ true
      → is_registered n r ≡ true
      → Keeps n r (handle factory store q r)
  unfolding handle
  handle-Keeps (create_request body) r n b k = create-Keeps body r n k
  handle-Keeps (delete_request name) r n b k = delete-Keeps name r n b

  -- No sequence of requests changes or removes a registered built-in schema, nor its service.
  pub handle_all-Keeps :
      (qs : List Request) (r : Router W S) (n : String)
      → contains n r.builtins ≡ true
      → is_registered n r ≡ true
      → Keeps n r (handle_all factory store qs r)
  unfolding handle_all
  handle_all-Keeps [] r n b k = same_Keeps n r r.world
  handle_all-Keeps (q ∷ qs) r n b k =
      let one = handle-Keeps q r n b k in
      let rest =
        handle_all-Keeps qs (handle factory store q r) n (rw one.names b)
          (rw one.definition (rw one.service k)) in
      record {
        definition = rest.definition ∙ one.definition;
        service = rest.service ∙ one.service;
        names = rest.names ∙ one.names;
      }
