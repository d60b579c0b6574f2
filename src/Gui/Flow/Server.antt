-- ===== src/Gui/Flow/Server.antt =====
-- The tab "Flow Mapper" of gui/app.py with a client whose requests the session handlers of
-- adapters/http/routes.py answer.
use mathlib.Core.Path.{ap₂}
use riskflow.Prelude.{◌≡◌, ap, ◌∙◌, List, String, arith}
use riskflow.Errors.{Exception, Result, ok, raise}
use riskflow.Gui.Flow.{FlowClient, Click, initial, run_tabs}
use riskflow.Gui.Flow.Pages.{IsAboutSession, IsFlow, initial-IsFlow, run_tabs-IsFlow}
use riskflow.MappingService.{MappingService, Libraries, ProcessingResult}
use riskflow.Routes.{Reply, reply, failure, Failure, Router}
use riskflow.Routes.Sessions.{
  SessionStore, mapping_refused, fields_refused, update_session_mappings, extend_session_fields,
  finalise_session, edited,
}
use riskflow.Routes.Sessions.Finalised.{
  IsSessionStore, edited-reply, on_found-reply, finalise_session-IsDone,
}
use riskflow.Schema.{ColumnMapping}
use riskflow.Session.{MappingSession, update_mappings, extend_target_fields}

-- `r.raise_for_status()`, with the exception that a failure becomes, and else `r.json()`.
abbrev pub answered : {W A : Type 0} → (Failure → Exception) → Reply A × W → Result A × W
answered status_error (reply a, w) = (ok a, w)
answered status_error (failure f, w) = (raise (status_error f), w)

module _ {W R : Type 0} (store : SessionStore W R) (lib : Libraries)
    (router : Router W (MappingService W)) (dump : ProcessingResult → R)
    (status_error : Failure → Exception) where
  -- `add_target_fields`, `update_mappings` and `finalise_session` of the client.
  abbrev pub served_add : String → List String → W → Result (MappingSession R) × W
  served_add id fields w = answered status_error (extend_session_fields store id fields w)

  abbrev pub served_update :
      String → List ColumnMapping → List String → W → Result (MappingSession R) × W
  served_update id ms hs w = answered status_error (update_session_mappings store id ms hs w)

  abbrev pub served_finalise : String → W → Result (MappingSession R) × W
  served_finalise id w = answered status_error (finalise_session store lib router dump id w)

  -- The three requests are those, whatever the others do.
  unfoldable pub served : FlowClient W R → FlowClient W R
  served client = record client {
    add_target_fields = served_add;
    update_mappings = served_update;
    finalise_session = served_finalise;
  }

  answered-reply :
      (x : Reply (MappingSession R) × W) (q : MappingSession R) (v : W)
      → answered status_error x ≡ (ok q, v)
      → x ≡ (reply q, v)
  answered-reply (reply s, w) q v h =
      let first : Result.ok s ≡ ok q = ap (λ t. t.0) h in
      let same : s ≡ q = cc first in
      let world : w ≡ v = ap (λ t. t.1) h in ap₂ (λ x y. (reply x, y)) same world
  answered-reply (failure f, w) q v h = absurd (ground arith)

  update-id :
      (ms : List ColumnMapping) (hs : List String) (s q : MappingSession R)
      → update_mappings ms hs s ≡ ok q
      → q.id ≡ s.id
  unfolding update_mappings
  update-id ms hs s q h = ground arith

  extend-id :
      (fields : List String) (s q : MappingSession R)
      → extend_target_fields fields s ≡ ok q
      → q.id ≡ s.id
  unfolding extend_target_fields
  extend-id fields s q h = ground arith

  served-IsAboutSession :
      IsSessionStore store → (client : FlowClient W R) → IsAboutSession (served client)
  unfolding served extend_session_fields update_session_mappings
  served-IsAboutSession law client = record {
    add-id = λ id fields w v q h.
        let (s, u, named, replied) =
          on_found-reply store law id w v q
            (λ s. edited store (fields_refused store) (extend_target_fields fields s))
            (answered-reply _ q v h) in
        extend-id fields s q (edited-reply store _ _ u v q replied).0 ∙ named;
    update-id = λ id ms hs w v q h.
        let (s, u, named, replied) =
          on_found-reply store law id w v q
            (λ s. edited store (mapping_refused store) (update_mappings ms hs s))
            (answered-reply _ q v h) in
        update-id ms hs s q (edited-reply store _ _ u v q replied).0 ∙ named;
    finalise-id = λ id w v q h.
        let (s, named, done) =
          finalise_session-IsDone store lib router dump law id w v q (answered-reply _ q v h) in
        (done.same_id ∙ named, done.kept.0, done.kept.1);
  }

  -- With the session handlers of the routes behind the requests and a store that finds a session as
  -- it was saved last under its id: from the state in which the tab is opened, after any clicks and
  -- whatever fails, the tab has, while a mapping is reviewed, a session and its id, in the results
  -- also the result, and before that neither a session nor custom fields.
  pub run_tabs-served :
      IsSessionStore store
      → (client : FlowClient W R) (cs : List Click) (w : W)
      → IsFlow (run_tabs (served client) cs initial w).0
  run_tabs-served law client cs w =
      run_tabs-IsFlow (served client) (served-IsAboutSession law client) cs initial w
        (initial-IsFlow R)
