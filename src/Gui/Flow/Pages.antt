-- ===== src/Gui/Flow/Pages.antt =====
-- What the state of the tab "Flow Mapper" holds at each step.
use mathlib.Core.Path.{subst}
use riskflow.Prelude.{
  ◌≡◌, refl, ap, sym, ◌∙◌, List, [], ◌∷◌, Option, none, some, String, arith, contains, ◌==◌,
  Bool-cases, inl, inr,
}
use riskflow.Prelude.Dict.{Dict, put}
use riskflow.Errors.{Result, ok, raise}
use riskflow.Exec.{bind-returns}
use riskflow.Session.{MappingSession}
use riskflow.Schema.{ColumnMapping}
use riskflow.TargetSchema.{FieldType}
use riskflow.Text.{is_blank}
use riskflow.Gui.Flow.{
  Step, upload, review, results, FlowState, FlowClient, Click, create, add_field, save, finalise,
  start_over, save_schema, new_session, initial, id_text, reset_with, reset_flow_session, opened,
  updated, finished, upload_page, add_custom_field, edit_of, send_edit, review_page, offer_schema,
  save_new_schema, results_page, show_review, with_result, show_results, page_of, run_tab, run_tabs,
}

-- The requests about a session answer with that session, and a finalised one has a result.
pub record IsAboutSession {W R : Type 0} (client : FlowClient W R) : Type 0 where
  pub add-id :
      (id : String) (fs : List String) (w v : W) (s : MappingSession R)
      → client.add_target_fields id fs w ≡ (ok s, v)
      → s.id ≡ id
  pub update-id :
      (id : String) (ms : List ColumnMapping) (hs : List String) (w v : W) (s : MappingSession R)
      → client.update_mappings id ms hs w ≡ (ok s, v)
      → s.id ≡ id
  pub finalise-id :
      (id : String) (w v : W) (s : MappingSession R)
      → client.finalise_session id w ≡ (ok s, v)
      → (s.id ≡ id) × (r : R) × (s.result ≡ some r)

module _ {R : Type 0} where
  -- While a mapping is reviewed the state holds a session and its id, in the results also a result,
  -- and before that nothing.
  abbrev pub Holds : Step → FlowState R → Type 0
  Holds upload st = (st.session_id ≡ none) × (st.session_data ≡ none) × (st.custom_field_types ≡ [])
  Holds review st =
      (s : MappingSession R) × (st.session_id ≡ some s.id) × (st.session_data ≡ some s)
  Holds results st =
      (s : MappingSession R) × (st.session_id ≡ some s.id)
      × (st.session_data ≡ some s)
      × (r : R) × (s.result ≡ some r)

  abbrev pub IsFlow : FlowState R → Type 0
  IsFlow st = Holds st.step st

pub initial-IsFlow : (R : Type 0) → IsFlow (initial {R = R})
unfolding initial
initial-IsFlow R = (refl, refl, refl)

module _ {W R : Type 0} (client : FlowClient W R) where
  reset-IsFlow : (st : FlowState R) (w : W) → IsFlow (reset_flow_session client st w).0
  unfolding reset_flow_session initial
  reset-IsFlow st w = by_id st.session_id
    where
      by_id : (id : Option String) → IsFlow (reset_with client id w).0
      by_id none = (refl, refl, refl)
      by_id (some id) = ground (arith, Bool-cases (id == ""))

  opened-IsFlow :
      (st : FlowState R) (answer : Result (MappingSession R) × W)
      → IsFlow st
      → IsFlow (opened client st answer).0
  opened-IsFlow st (raise e, v) h = h
  opened-IsFlow st (ok s, v) h = (s, refl, refl)

  -- A request of the review that answers with the same session, or fails.
  updated-IsFlow :
      (st : FlowState R) (s : MappingSession R) (answer : Result (MappingSession R) × W)
      → st.step ≡ review
      → st.session_id ≡ some s.id
      → IsFlow st
      → ((q : MappingSession R) (v : W) → answer ≡ (ok q, v) → q.id ≡ s.id)
      → IsFlow (updated client st answer).0
  updated-IsFlow st s (raise e, v) at_review id h same = h
  updated-IsFlow st s (ok q, v) at_review id h same =
      rw at_review (q, id ∙ ap some (sym (same q v refl)), refl)

  finished-IsFlow :
      (st : FlowState R) (s : MappingSession R) (answer : Result (MappingSession R) × W)
      → st.step ≡ review
      → st.session_id ≡ some s.id
      → IsFlow st
      → ((q : MappingSession R) (v : W)
          → answer ≡ (ok q, v)
          → (q.id ≡ s.id) × (r : R) × (q.result ≡ some r))
      → IsFlow (finished client st answer).0
  finished-IsFlow st s (raise e, v) at_review id h same = h
  finished-IsFlow st s (ok q, v) at_review id h same =
      let (same_id, r, has) = same q v refl in (q, id ∙ ap some (sym same_id), refl, r, has)

  module _ (about : IsAboutSession client) where
    add_custom_field-IsFlow :
        (name : String) (type : FieldType) (s : MappingSession R) (st : FlowState R) (w : W)
        → st.step ≡ review
        → st.session_id ≡ some s.id
        → IsFlow st
        → IsFlow (add_custom_field client name type s st w).0
    unfolding add_custom_field
    add_custom_field-IsFlow name type s st w at_review id h = elim (Bool-cases (is_blank name)) [
      | inl blank ↦ rw blank h
      | inr named ↦ rw named (elim (Bool-cases (contains name s.target_fields)) [
        | inl known ↦ rw known h
        | inr fresh ↦ rw fresh (
            let held : Holds review st = subst (λ x. Holds x st) at_review h in
            updated-IsFlow (record st { custom_field_types = put name type st.custom_field_types })
              s _ at_review id (rw at_review held)
              (λ q v e. about.add-id _ _ w v q e ∙ ap id_text id))
      ])
    ]

    review_page-IsFlow :
        (click : Click) (s : MappingSession R) (st : FlowState R) (w : W)
        → st.step ≡ review
        → st.session_id ≡ some s.id
        → IsFlow st
        → IsFlow (review_page client click s st w).0
    unfolding review_page
    review_page-IsFlow (add_field name type) s st w at_review id h =
        add_custom_field-IsFlow name type s st w at_review id h
    review_page-IsFlow (save selected) s st w at_review id h =
        updated-IsFlow st s _ at_review id h
          (λ q v e. about.update-id _ _ _ w v q e ∙ ap id_text id)
    review_page-IsFlow (finalise selected) s st w at_review id h =
        finished-IsFlow st s _ at_review id h (λ q v e.
          let (edited, v', sent, done) =
            bind-returns (send_edit client st (edit_of client selected s))
              (λ _. client.finalise_session (id_text st.session_id)) w v e in
          let (same, r, has) = about.finalise-id _ v' v q done in (same ∙ ap id_text id, r, has))
    review_page-IsFlow start_over s st w at_review id h = reset-IsFlow st w
    review_page-IsFlow (create file name schema sheet) s st w at_review id h = h
    review_page-IsFlow (save_schema name) s st w at_review id h = h
    review_page-IsFlow new_session s st w at_review id h = h

    results_page-IsFlow :
        (click : Click) (s : MappingSession R) (st : FlowState R) (w : W)
        → IsFlow st
        → IsFlow (results_page client click s st w).0
    unfolding results_page save_new_schema
    results_page-IsFlow (save_schema name) s st w h = offered st.custom_field_types
      where
        offered : (types : Dict FieldType) → IsFlow (offer_schema client types name s st w).0
        offered [] = h
        offered (t ∷ ts) = elim (Bool-cases (is_blank name)) [
          | inl blank ↦ rw blank h
          | inr named ↦ rw named h
        ]
    results_page-IsFlow new_session s st w h = reset-IsFlow st w
    results_page-IsFlow (create file name schema sheet) s st w h = h
    results_page-IsFlow (add_field name type) s st w h = h
    results_page-IsFlow (save selected) s st w h = h
    results_page-IsFlow (finalise selected) s st w h = h
    results_page-IsFlow start_over s st w h = h

    upload_page-IsFlow :
        (click : Click) (st : FlowState R) (w : W)
        → IsFlow st
        → IsFlow (upload_page client click st w).0
    unfolding upload_page
    upload_page-IsFlow (create file name schema sheet) st w h = opened-IsFlow st _ h
    upload_page-IsFlow (add_field name type) st w h = h
    upload_page-IsFlow (save selected) st w h = h
    upload_page-IsFlow (finalise selected) st w h = h
    upload_page-IsFlow start_over st w h = h
    upload_page-IsFlow (save_schema name) st w h = h
    upload_page-IsFlow new_session st w h = h

    page_of-IsFlow :
        (step : Step) (click : Click) (st : FlowState R) (w : W)
        → st.step ≡ step
        → IsFlow st
        → IsFlow (page_of client step click st w).0
    page_of-IsFlow upload click st w at_step h = upload_page-IsFlow click st w h
    page_of-IsFlow review click st w at_step h =
        let (s, id, shown) = subst (λ x. Holds x st) at_step h in
        subst (λ d. IsFlow (show_review client click d st w).0) (sym shown)
          (review_page-IsFlow click s st w at_step id h)
    page_of-IsFlow results click st w at_step h =
        let (s, id, shown, r, has) = subst (λ x. Holds x st) at_step h in
        subst (λ d. IsFlow (show_results client click d st w).0) (sym shown)
          (subst (λ x. IsFlow (with_result client click s x st w).0) (sym has)
            (results_page-IsFlow click s st w h))

    -- Where the requests about a session answer with that session, and a finalised one with its
    -- result: after any clicks the tab has, while a mapping is reviewed, a session and its id, in
    -- the results also a result, and before that neither a session nor custom fields.
    pub run_tabs-IsFlow :
        (cs : List Click) (st : FlowState R) (w : W)
        → IsFlow st
        → IsFlow (run_tabs client cs st w).0
    unfolding run_tabs run_tab
    run_tabs-IsFlow [] st w h = h
    run_tabs-IsFlow (c ∷ cs) st w h = run_tabs-IsFlow cs _ _ (page_of-IsFlow st.step c st w refl h)
