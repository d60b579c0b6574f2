-- ===== src/Gui/Flow/Editor.antt =====
-- What `_mapping_editor` returns, and when the server takes it.
use mathlib.Core.Path.{subst}
use riskflow.Prelude.{
  ◌≡◌, ◌↔◌, refl, sym, ap, ◌+◌, true, not, List, [], ◌∷◌, map, String, arith, keep, contains, count,
  AllDistinct, eq_iff, Bool-cases, inl, inr, ◌==◌,
}
use riskflow.Prelude.Dict.{Dict}
use riskflow.Prelude.Sort.{contains-sorted}
use riskflow.Errors.{ok}
use riskflow.Float.{Float}
use riskflow.Schema.{ColumnMapping, targets}
use riskflow.Session.{MappingSession, is_created, update_mappings}
use riskflow.Session.Targets.{AllKnown, update_mappings_iff}
use riskflow.Gui.Flow.{unmapped, options, confidences, edit_headers, mapping_editor, Edit}

-- Every box returns one of its options.
abbrev pub IsSelection : (String → String) → List String → Type 0
IsSelection selected target_fields =
    (h : String) → contains (selected h) (options target_fields) ≡ true

-- The targets that are selected, one for each header that has one.
abbrev pub chosen : (String → String) → List String → List String
chosen selected headers = keep (λ t. not (t == unmapped)) (map selected headers)

abbrev pub sources : List ColumnMapping → List String
sources [] = []
sources (m ∷ ms) = m.source_header ∷ sources ms

module _ (selected : String → String) (known : Dict Float) where
  edit_headers-targets :
      (hs : List String) → targets (edit_headers selected known hs).mappings ≡ chosen selected hs
  unfolding edit_headers
  edit_headers-targets [] = refl
  edit_headers-targets (h ∷ hs) = elim (Bool-cases (selected h == unmapped)) [
    | inl skipped ↦ rw skipped (edit_headers-targets hs)
    | inr kept ↦ rw kept (ap (λ ts. selected h ∷ ts) (edit_headers-targets hs))
  ]

  edit_headers-AllKnown :
      (target_fields hs : List String)
      → IsSelection selected target_fields
      → AllKnown target_fields (edit_headers selected known hs).mappings
  unfolding edit_headers
  edit_headers-AllKnown target_fields [] offered = tt
  edit_headers-AllKnown target_fields (h ∷ hs) offered =
      elim (Bool-cases (selected h == unmapped)) [
        | inl skipped ↦ rw skipped (edit_headers-AllKnown target_fields hs offered)
        | inr kept ↦ rw kept (
          ground (
            arith,
            offered h,
            contains-sorted (selected h) target_fields,
            eq_iff unmapped (selected h),
            eq_iff (selected h) unmapped,
          ),
          edit_headers-AllKnown target_fields hs offered,
        )
      ]

  edit_headers-count :
      (x : String) (hs : List String)
      → count x (sources (edit_headers selected known hs).mappings)
          + count x (edit_headers selected known hs).unmapped_headers
        ≡ count x hs
  unfolding edit_headers
  edit_headers-count x [] = omega arith
  edit_headers-count x (h ∷ hs) = elim (Bool-cases (selected h == unmapped)) [
    | inl skipped ↦ rw skipped (omega (arith, edit_headers-count x hs))
    | inr kept ↦ rw kept (omega (arith, edit_headers-count x hs))
  ]

module _ {R : Type 0} (selected : String → String) (s : MappingSession R) where
  abbrev edit : Edit
  edit = mapping_editor selected s.source_headers s.mappings

  -- If every selection box returns one of its options, the editor puts every header of the session
  -- in the mappings or among the unmapped headers, as often as it came, and the session takes this
  -- edit exactly when it is not finalised and no target is selected for two headers.
  pub mapping_editor-update_mappings :
      IsSelection selected s.target_fields
      → ((x : String)
          → count x (sources edit.mappings) + count x edit.unmapped_headers
            ≡ count x s.source_headers)
        × ((update_mappings edit.mappings edit.unmapped_headers s
              ≡ ok
                  (record s { mappings = edit.mappings; unmapped_headers = edit.unmapped_headers }))
            ↔ ((is_created s.status ≡ true) × AllDistinct (chosen selected s.source_headers)))
  unfolding mapping_editor
  mapping_editor-update_mappings offered =
      let known : Dict Float = confidences [] s.mappings in
      let same = edit_headers-targets selected known s.source_headers in
      let taken = update_mappings_iff edit.mappings edit.unmapped_headers s in
      (
        λ x. edit_headers-count selected known x s.source_headers,
        (
          λ e.
              let (fresh, targets_known, apart) = taken.0 e in
              (fresh, subst AllDistinct same apart),
          λ h. taken.1 (
            h.0,
            edit_headers-AllKnown selected known s.target_fields s.source_headers offered,
            subst AllDistinct (sym same) h.1,
          ),
        ),
      )
