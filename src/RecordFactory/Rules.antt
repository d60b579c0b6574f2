-- ===== src/RecordFactory/Rules.antt =====
-- Which date orders are enforced: that of the last cross-field rule.
use riskflow.Prelude.{ℕ, ◌≡◌, refl, ap, ◌∙◌, sym, true, List, [], ◌∷◌, ◌++◌, Option, some, arith}
use mathlib.Core.Path.{fun_ext}
use riskflow.Schema.{is_empty}
use riskflow.Errors.{Result, ok, ◌>>=◌, ◌>>◌, guard, validation_error, >>=-eq-ok}
use riskflow.TargetSchema.{DateOrderingRule, TargetSchema}
use riskflow.Value.{Date, Row}
use riskflow.RecordFactory.{
  Pydantic, DateOrder, last_rule, closures, attach_cross_field_validators, build_model, date_at,
  date_lt, check_orders, collect, model_validate,
}

last_rule-append :
    (q r : DateOrderingRule) (rs : List DateOrderingRule) → last_rule q (rs ++ r ∷ []) ≡ r
unfolding last_rule
last_rule-append q r [] = refl
last_rule-append q r (s ∷ rs) = last_rule-append s r rs

-- Copies of one closure check what one of them checks.
check_closures :
    (cell : DateOrder) (r : DateOrderingRule) (rs : List DateOrderingRule) (row : Row)
    → check_orders (closures cell (r ∷ rs)) row ≡ check_orders (cell ∷ []) row
unfolding check_orders closures
check_closures cell r [] row = refl
check_closures cell r (s ∷ rs) row = ground (arith, check_closures cell s rs row)

abbrev order_of : DateOrderingRule → DateOrder
order_of r = record { earlier = r.earlier; later = r.later }

check_attached :
    (rs : List DateOrderingRule) (r : DateOrderingRule) (row : Row)
    → check_orders (attach_cross_field_validators (rs ++ r ∷ [])) row
      ≡ check_orders (order_of r ∷ []) row
unfolding attach_cross_field_validators
check_attached [] r row = check_closures (order_of r) r [] row
check_attached (q ∷ rs) r row =
    check_closures (order_of (last_rule q (rs ++ r ∷ []))) q (rs ++ r ∷ []) row
    ∙ ap (λ (t : DateOrderingRule). check_orders (order_of t ∷ []) row) (last_rule-append q r rs)

abbrev pub with_rules : TargetSchema → List DateOrderingRule → TargetSchema
with_rules s rs = record s { cross_field_rules = rs }

-- A record has the later date of a rule before the earlier one.
abbrev pub Disordered : DateOrderingRule → Row → Type 0
Disordered r row =
    (a b : Date) × (date_at r.earlier row ≡ some a)
    × (date_at r.later row ≡ some b)
    × (date_lt b a ≡ true)

module _ (pydantic : Pydantic) (dateutil : List ℕ → Option Date) where
  -- Of several cross-field rules only the last is enforced: the record model of a schema with
  -- rules before the last one treats every row as that of the schema with the last rule alone.
  pub model_validate-last_rule :
      (s : TargetSchema) (rs : List DateOrderingRule) (r : DateOrderingRule) (row : Row)
      → model_validate pydantic dateutil (build_model (with_rules s (rs ++ r ∷ []))) row
        ≡ model_validate pydantic dateutil (build_model (with_rules s (r ∷ []))) row
  unfolding model_validate build_model
  model_validate-last_rule s rs r row =
      ap
        (λ (check : Row → Result Row). collect pydantic dateutil s.fields row >>= λ c.
          guard (is_empty c.faults) (validation_error c.faults) >> check c.fields)
        (fun_ext λ c. check_attached rs r c ∙ sym (check_attached [] r c))

  in_order-Disordered :
      (r : DateOrderingRule) (c row : Row)
      → check_orders (order_of r ∷ []) c ≡ ok row
      → (c ≡ row) × ¬ (Disordered r row)
  unfolding check_orders
  in_order-Disordered r c row e =
      let same : c ≡ row = ground arith in
      (
        same,
        λ d. ground (arith, d.2, d.3, d.4, ap (date_at r.earlier) same, ap (date_at r.later) same),
      )

  -- A row that is accepted gives a record whose dates obey the last rule of the schema.
  pub model_validate-ordered :
      (s : TargetSchema) (rs : List DateOrderingRule) (r : DateOrderingRule) (row record_row : Row)
      → model_validate pydantic dateutil (build_model (with_rules s (rs ++ r ∷ []))) row
        ≡ ok record_row
      → ¬ (Disordered r record_row)
  unfolding model_validate build_model
  model_validate-ordered s rs r row record_row e =
      let (c, collected, rest) = >>=-eq-ok (collect pydantic dateutil s.fields row) _ e in
      let (_, clean, checked) =
        >>=-eq-ok (guard (is_empty c.faults) (validation_error c.faults)) _ rest in
      (in_order-Disordered r c.fields record_row (sym (check_attached rs r c.fields) ∙ checked)).1
