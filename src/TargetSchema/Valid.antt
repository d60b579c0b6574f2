-- ===== src/TargetSchema/Valid.antt =====
-- A schema is constructed exactly when its rules and hints are valid.
use riskflow.Prelude.{
  ◌≤◌, ◌≡◌, ◌≢◌, ◌↔◌, refl, true, not, List, [], ◌∷◌, some, String, arith, eqb, length, contains,
  All, AllDistinct, ◌==◌, eq_iff, Option-cases, inl, inr,
}
use riskflow.Prelude.Dict.{Dict, keys, get}
use riskflow.Prelude.Sort.{distinct, contains-distinct}
use riskflow.Errors.{ok, guard, >>=-eq-ok}
use riskflow.TargetSchema.{
  date, FieldDefinition, DateOrderingRule, SlmHint, check_ref, check_rule, check_rules,
  check_hint_targets, aliases, check_hints, target_schema,
}

-- The name is a field of the schema, of type DATE.
abbrev pub IsDateField : Dict FieldDefinition → String → Type 0
IsDateField fields f = (d : FieldDefinition) × (get f fields ≡ some d) × (d.type ≡ date)

-- Cross-field rules name two distinct fields of type DATE; hints name fields, by distinct aliases.
pub record IsValid (fields : Dict FieldDefinition) (rules : List DateOrderingRule)
    (hints : List SlmHint) : Type 0 where
  pub rules_valid :
      All
        (λ r. (r.earlier ≢ r.later) × IsDateField fields r.earlier × IsDateField fields r.later)
        rules
  pub targets_known : All (λ h. contains h.target (keys fields) ≡ true) hints
  pub aliases_distinct : AllDistinct (aliases hints)

check_ref_sound :
    (fields : Dict FieldDefinition) (f : String) → check_ref fields f ≡ ok tt → IsDateField fields f
unfolding check_ref
check_ref_sound fields f h = elim (Option-cases (get f fields)) [
  | inl absent ↦ absurd (ground arith)
  | inr (d, found) ↦ (d, found, ground arith)
]

check_ref_complete :
    (fields : Dict FieldDefinition) (f : String) → IsDateField fields f → check_ref fields f ≡ ok tt
unfolding check_ref
check_ref_complete fields f (d, found, dated) = ground arith

length-distinct-le : (xs : List String) → length (distinct xs) ≤ length xs
unfolding distinct
length-distinct-le [] = omega arith
length-distinct-le (x ∷ xs) = ground (arith, length-distinct-le xs)

distinct_of_length :
    (xs : List String) → eqb (length xs) (length (distinct xs)) ≡ true → AllDistinct xs
unfolding distinct
distinct_of_length [] h = tt
distinct_of_length (x ∷ xs) h =
    ground (arith, length-distinct-le xs, contains-distinct x xs, distinct_of_length xs)

length_of_distinct :
    (xs : List String) → AllDistinct xs → eqb (length xs) (length (distinct xs)) ≡ true
unfolding distinct
length_of_distinct [] h = refl
length_of_distinct (x ∷ xs) h = ground (arith, contains-distinct x xs, length_of_distinct xs)

abbrev RuleHolds : Dict FieldDefinition → DateOrderingRule → Type 0
RuleHolds fields r =
    (r.earlier ≢ r.later) × IsDateField fields r.earlier × IsDateField fields r.later

check_rule_sound :
    (fields : Dict FieldDefinition) (r : DateOrderingRule)
    → check_rule fields r ≡ ok tt
    → RuleHolds fields r
unfolding check_rule
check_rule_sound fields r h =
    let (_, _, rest) = >>=-eq-ok (guard (not (r.earlier == r.later)) _) _ h in
    let (_, first, second) = >>=-eq-ok (check_ref fields r.earlier) _ rest in
    (
      ground (arith, eq_iff r.earlier r.later),
      check_ref_sound fields r.earlier (ground arith),
      check_ref_sound fields r.later second,
    )

check_rule_complete :
    (fields : Dict FieldDefinition) (r : DateOrderingRule)
    → RuleHolds fields r
    → check_rule fields r ≡ ok tt
unfolding check_rule
check_rule_complete fields r (differ, first, second) = ground (
  arith,
  eq_iff r.earlier r.later,
  check_ref_complete fields r.earlier first,
  check_ref_complete fields r.later second,
)

check_rules_sound :
    (fields : Dict FieldDefinition) (rs : List DateOrderingRule)
    → check_rules fields rs ≡ ok tt
    → All (RuleHolds fields) rs
unfolding check_rules
check_rules_sound fields [] h = tt
check_rules_sound fields (r ∷ rs) h =
    let (_, here, later) = >>=-eq-ok (check_rule fields r) _ h in
    (check_rule_sound fields r (ground arith), check_rules_sound fields rs later)

check_rules_complete :
    (fields : Dict FieldDefinition) (rs : List DateOrderingRule)
    → All (RuleHolds fields) rs
    → check_rules fields rs ≡ ok tt
unfolding check_rules
check_rules_complete fields [] h = refl
check_rules_complete fields (r ∷ rs) h =
    rw (check_rule_complete fields r h.0) (check_rules_complete fields rs h.1)

abbrev HintKnown : Dict FieldDefinition → SlmHint → Type 0
HintKnown fields h = contains h.target (keys fields) ≡ true

check_hint_targets_sound :
    (fields : Dict FieldDefinition) (hs : List SlmHint)
    → check_hint_targets fields hs ≡ ok tt
    → All (HintKnown fields) hs
unfolding check_hint_targets
check_hint_targets_sound fields [] e = tt
check_hint_targets_sound fields (h ∷ hs) e = ground (arith, check_hint_targets_sound fields hs)

check_hint_targets_complete :
    (fields : Dict FieldDefinition) (hs : List SlmHint)
    → All (HintKnown fields) hs
    → check_hint_targets fields hs ≡ ok tt
unfolding check_hint_targets
check_hint_targets_complete fields [] e = refl
check_hint_targets_complete fields (h ∷ hs) e =
    ground (arith, check_hint_targets_complete fields hs)

check_hints_sound :
    (fields : Dict FieldDefinition) (hs : List SlmHint)
    → check_hints fields hs ≡ ok tt
    → All (HintKnown fields) hs × AllDistinct (aliases hs)
unfolding check_hints
check_hints_sound fields hs e =
    let (_, known, rest) = >>=-eq-ok (check_hint_targets fields hs) _ e in
    (
      check_hint_targets_sound fields hs (ground arith),
      distinct_of_length (aliases hs) (ground arith),
    )

check_hints_complete :
    (fields : Dict FieldDefinition) (hs : List SlmHint)
    → All (HintKnown fields) hs
    → AllDistinct (aliases hs)
    → check_hints fields hs ≡ ok tt
unfolding check_hints
check_hints_complete fields hs known apart =
    rw (check_hint_targets_complete fields hs known, length_of_distinct (aliases hs) apart)

-- A schema is constructed, as given, exactly when every cross-field rule names two distinct DATE
-- fields, every hint names a field, and no alias stands twice.
pub target_schema-IsValid_iff :
    (name : String) (fields : Dict FieldDefinition) (rules : List DateOrderingRule)
    (hints : List SlmHint)
    → (target_schema name fields rules hints
        ≡ ok
            (record { name = name; fields = fields; cross_field_rules = rules; slm_hints = hints }))
      ↔ IsValid fields rules hints
unfolding target_schema
target_schema-IsValid_iff name fields rules hints = (
  λ e.
      let (_, ruled, rest) = >>=-eq-ok (check_rules fields rules) _ e in
      let (_, hinted, _) = >>=-eq-ok (check_hints fields hints) _ rest in
      let (known, apart) = check_hints_sound fields hints (ground arith) in
      record {
        rules_valid = check_rules_sound fields rules (ground arith);
        targets_known = known;
        aliases_distinct = apart;
      },
  λ v. rw (
    check_rules_complete fields rules v.rules_valid,
    check_hints_complete fields hints v.targets_known v.aliases_distinct,
  ),
)
