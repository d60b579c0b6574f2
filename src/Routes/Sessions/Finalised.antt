-- ===== src/Routes/Sessions/Finalised.antt =====
-- A session of adapters/http/routes.py is finalised once.
use riskflow.Prelude.{◌≡◌, refl, sym, ap, Option, none, some, String, arith, Bool-cases, inl, inr}
use riskflow.Errors.{Exception, Result, ok, raise}
use riskflow.MappingService.{MappingService, Libraries, ProcessingResult}
use riskflow.Schema.{MappingResult}
use riskflow.Session.{MappingSession, finalised, is_created, finalise}
use riskflow.Routes.{Reply, reply, failure, Failure, http, uncaught, plain, Router}
use riskflow.Routes.Sessions.{
  SessionStore, on_found, saved, edited, finalised_with, with_mapping, with_resolved,
  finalise_found, finalise_session,
}

-- A store that finds a session as it was saved last under its id.
pub record IsSessionStore {W R : Type 0} (store : SessionStore W R) : Type 0 where
  pub find-save :
      (s : MappingSession R) (w w' : W)
      → store.save s w ≡ (ok tt, w')
      → (v : W) × (store.find s.id w' ≡ (ok (some s), v))
  pub find-id :
      (id : String) (s : MappingSession R) (w w' : W)
      → store.find id w ≡ (ok (some s), w')
      → s.id ≡ id

module _ {W R : Type 0} (store : SessionStore W R) where
  -- What is saved by a handler that answers with a session.
  pub edited-reply :
      (refused : Exception → Failure) (x : Result (MappingSession R)) (w w' : W)
      (q : MappingSession R)
      → edited store refused x w ≡ (reply q, w')
      → (x ≡ ok q) × (store.save q w ≡ (ok tt, w'))
  edited-reply refused (raise e) w w' q h = absurd (ground arith)
  edited-reply refused (ok s) w w' q h = stored (store.save s w) refl h
    where
      stored :
          (y : Result (Unit {0}) × W)
          → store.save s w ≡ y
          → saved store s y ≡ (reply q, w')
          → (Result.ok s ≡ ok q) × (store.save q w ≡ (ok tt, w'))
      stored (ok u, v) p e =
          let same : s ≡ q = ground arith in
          let world : v ≡ w' = ap (λ t. t.1) e in
          (ap Result.ok same, rw (sym same) (rw (sym world) p))
      stored (raise x, v) p e = absurd (ground arith)

  -- A session that a handler answers with was found under the id of the request.
  pub on_found-reply :
      IsSessionStore store
      → (id : String) (w w' : W) (q : MappingSession R)
        (k : MappingSession R → W → Reply (MappingSession R) × W)
      → on_found store (store.find id w) k ≡ (reply q, w')
      → (s : MappingSession R) × (v : W) × (s.id ≡ id) × (k s v ≡ (reply q, w'))
  on_found-reply law id w w' q k h = found (store.find id w) refl h
    where
      found :
          (x : Result (Option (MappingSession R)) × W)
          → store.find id w ≡ x
          → on_found store x k ≡ (reply q, w')
          → (s : MappingSession R) × (v : W) × (s.id ≡ id) × (k s v ≡ (reply q, w'))
      found (raise e, v) p h = absurd (ground arith)
      found (ok none, v) p h = absurd (ground arith)
      found (ok (some s), v) p h = (s, v, law.find-id id s w v p, h)

module _ {W R : Type 0} (store : SessionStore W R) (lib : Libraries)
    (router : Router W (MappingService W)) (dump : ProcessingResult → R) where
  -- The session was saved as finalised, under the id of the one that was found.
  pub record IsDone (s q : MappingSession R) (w' : W) : Type 0 where
    pub before : W
    pub status : q.status ≡ finalised
    pub same_id : q.id ≡ s.id
    pub stored : store.save q before ≡ (ok tt, w')
    pub kept : (r : R) × (q.result ≡ some r)

  finalise-status :
      (r : R) (s q : MappingSession R)
      → finalise r s ≡ ok q
      → (q.status ≡ finalised) × (q.id ≡ s.id) × (q.result ≡ some r)
  unfolding finalise
  finalise-status r s q h = ground arith

  finalised_with-IsDone :
      (s q : MappingSession R) (x : Result ProcessingResult × W) (w' : W)
      → finalised_with store lib router dump s x ≡ (reply q, w')
      → IsDone s q w'
  unfolding finalised_with
  finalised_with-IsDone s q (raise e, v) w' h = absurd (ground arith)
  finalised_with-IsDone s q (ok r, v) w' h =
      let (done, kept) = edited-reply store uncaught (finalise (dump r) s) v w' q h in
      let (over, same, has) = finalise-status (dump r) s q done in
      record { before = v; status = over; same_id = same; stored = kept; kept = (dump r, has) }

  with_mapping-IsDone :
      (s q : MappingSession R) (service : MappingService W) (x : Result MappingResult) (w w' : W)
      → with_mapping store lib router dump s service x w ≡ (reply q, w')
      → IsDone s q w'
  unfolding with_mapping
  with_mapping-IsDone s q service (raise e) w w' h = absurd (ground arith)
  with_mapping-IsDone s q service (ok m) w w' h = finalised_with-IsDone s q _ w' h

  with_resolved-IsDone :
      (s q : MappingSession R) (x : Reply (MappingService W)) (w w' : W)
      → with_resolved store lib router dump s x w ≡ (reply q, w')
      → IsDone s q w'
  unfolding with_resolved
  with_resolved-IsDone s q (failure e) w w' h = absurd (ground arith)
  with_resolved-IsDone s q (reply service) w w' h = with_mapping-IsDone s q service _ w w' h

  finalise_found-IsDone :
      (s q : MappingSession R) (w w' : W)
      → finalise_found store lib router dump s w ≡ (reply q, w')
      → IsDone s q w'
  unfolding finalise_found
  finalise_found-IsDone s q w w' h = elim (Bool-cases (is_created s.status)) [
    | inl open_session ↦ with_resolved-IsDone s q _ w w' (rw open_session at h)
    | inr over ↦ absurd (ground arith)
  ]

  pub finalise_session-IsDone :
      IsSessionStore store
      → (id : String) (w w' : W) (q : MappingSession R)
      → finalise_session store lib router dump id w ≡ (reply q, w')
      → (s : MappingSession R) × (s.id ≡ id) × IsDone s q w'
  unfolding finalise_session
  finalise_session-IsDone law id w w' q h =
      let (s, v, named, replied) =
        on_found-reply store law id w w' q (finalise_found store lib router dump) h in
      (s, named, finalise_found-IsDone s q v w' replied)

  finalised_refused :
      (q : MappingSession R) (w v : W)
      → q.status ≡ finalised
      → store.find q.id w ≡ (ok (some q), v)
      → (finalise_session store lib router dump q.id w).0 ≡ failure (http 409 plain)
  unfolding finalise_session finalise_found
  finalised_refused q w v over found = rw found (rw over refl)

  -- With a store that finds a session as it was saved last under its id: a session that is
  -- finalised with success is returned as finalised, and finalising it again is answered with 409.
  pub finalise_session-once :
      IsSessionStore store
      → (id : String) (w w' : W) (q : MappingSession R)
      → finalise_session store lib router dump id w ≡ (reply q, w')
      → (q.status ≡ finalised)
        × (q.id ≡ id)
        × ((finalise_session store lib router dump id w').0 ≡ failure (http 409 plain))
  unfolding finalise_session finalise_found
  finalise_session-once law id w w' q h =
      let (s, named, done) = finalise_session-IsDone law id w w' q h in
      let (v, found) = law.find-save q done.before w' done.stored in
      let same : q.id ≡ id = cc (done.same_id, named) in
      (done.status, same, rw same at (finalised_refused q w' v done.status found))
