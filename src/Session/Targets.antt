-- ===== src/Session/Targets.antt =====
-- The target fields of a session, and the targets of its mappings.
use riskflow.Prelude.{
  ◌≡◌, ◌↔◌, refl, sym, ◌∙◌, inl, inr, true, false, ◌||◌, List, [], ◌∷◌, ◌++◌, String, arith,
  contains, contains-append, AllDistinct, All, eq_iff, Bool-cases,
}
use mathlib.Core.List.{append-nil, append_assoc}
use riskflow.Errors.{ok}
use riskflow.Schema.{ColumnMapping, targets}
use riskflow.Schema.Distinct.{distinct_of_dupes, dupes_of_distinct}
use riskflow.Session.{
  MappingSession, all_targets_known, append_new, is_created, update_mappings, extend_target_fields,
}

contains-append_new :
    (x : String) (old new : List String)
    → contains x (append_new old new) ≡ (contains x old || contains x new)
unfolding append_new
contains-append_new x old [] = ground arith
contains-append_new x old (f ∷ fs) = ground (
  arith,
  contains-append_new x old fs,
  contains-append_new x (old ++ f ∷ []) fs,
  contains-append x old (f ∷ []),
  eq_iff f x,
  same,
)
  where
    same : f ≡ x → contains f old ≡ contains x old
    same e = λ i. contains (e i) old

distinct-snoc :
    (xs : List String) (f : String)
    → AllDistinct xs
    → contains f xs ≡ false
    → AllDistinct (xs ++ f ∷ [])
distinct-snoc [] f h k = (refl, tt)
distinct-snoc (x ∷ xs) f h k = (
  ground (arith, contains-append x xs (f ∷ []), eq_iff f x, eq_iff x f),
  distinct-snoc xs f h.1 (ground arith),
)

append_new-distinct : (old new : List String) → AllDistinct old → AllDistinct (append_new old new)
unfolding append_new
append_new-distinct old [] h = h
append_new-distinct old (f ∷ fs) h = elim (Bool-cases (contains f old)) [
  | inl known ↦ rw known (append_new-distinct old fs h)
  | inr fresh ↦ rw fresh (append_new-distinct (old ++ f ∷ []) fs (distinct-snoc old f h fresh))
]

append_new-prefix :
    (old new : List String) → (added : List String) × (append_new old new ≡ old ++ added)
unfolding append_new
append_new-prefix old [] = ([], sym (append-nil old))
append_new-prefix old (f ∷ fs) = elim (Bool-cases (contains f old)) [
  | inl known ↦ rw known (append_new-prefix old fs)
  | inr fresh ↦ rw fresh (
      let (added, e) = append_new-prefix (old ++ f ∷ []) fs in
      (f ∷ added, e ∙ append_assoc old (f ∷ []) added))
]

-- `new` is `old` with some of the given names appended: no name is lost or moved, exactly the old
-- and the given names stand in it, and none is added twice.
pub record IsExtendedBy (old given new : List String) : Type 0 where
  pub added : List String
  pub appended : new ≡ old ++ added
  pub members : (x : String) → contains x new ≡ (contains x old || contains x given)
  pub once : AllDistinct old → AllDistinct new

abbrev pub AllKnown : List String → List ColumnMapping → Type 0
AllKnown valid = All (λ m. contains m.target_field valid ≡ true)

known_sound :
    (valid : List String) (ms : List ColumnMapping)
    → all_targets_known valid ms ≡ true
    → AllKnown valid ms
unfolding all_targets_known
known_sound valid [] h = tt
known_sound valid (m ∷ ms) h = (ground arith, known_sound valid ms (ground arith))

known_complete :
    (valid : List String) (ms : List ColumnMapping)
    → AllKnown valid ms
    → all_targets_known valid ms ≡ true
unfolding all_targets_known
known_complete valid [] h = refl
known_complete valid (m ∷ ms) h = ground (arith, known_complete valid ms h.1)

module _ {R : Type 0} where
  -- A successful extension appends, once each, the given names that were not there, and changes
  -- nothing else of the session.
  pub extend_target_fields-IsExtendedBy :
      (fields : List String) (s s' : MappingSession R)
      → extend_target_fields fields s ≡ ok s'
      → IsExtendedBy s.target_fields fields s'.target_fields
        × (s' ≡ record s { target_fields = s'.target_fields })
  unfolding extend_target_fields
  extend_target_fields-IsExtendedBy fields s s' e =
      let same : s' ≡ record s { target_fields = append_new s.target_fields fields } =
        ground arith in
      let (added, appended) = append_new-prefix s.target_fields fields in
      rw same (
        record {
          added = added;
          appended = appended;
          members = λ x. contains-append_new x s.target_fields fields;
          once = append_new-distinct s.target_fields fields;
        },
        refl,
      )

  -- An update takes the given mappings exactly when the session is not finalised, all their
  -- targets are target fields of the session, and no target stands twice.
  pub update_mappings_iff :
      (ms : List ColumnMapping) (unmapped : List String) (s : MappingSession R)
      → (update_mappings ms unmapped s
          ≡ ok (record s { mappings = ms; unmapped_headers = unmapped }))
        ↔ ((is_created s.status ≡ true) × AllKnown s.target_fields ms × AllDistinct (targets ms))
  unfolding update_mappings
  update_mappings_iff ms unmapped s = (
    λ e. (
      ground arith,
      known_sound s.target_fields ms (ground arith),
      distinct_of_dupes (targets ms) (ground arith),
    ),
    λ h. rw (h.0, known_complete s.target_fields ms h.1, dupes_of_distinct (targets ms) h.2),
  )
