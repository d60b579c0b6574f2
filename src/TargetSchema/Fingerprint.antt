-- ===== src/TargetSchema/Fingerprint.antt =====
-- What the fingerprint of a schema depends on: neither its name nor the order of its fields.
use mathlib.Core.List.{Perm, Permᴰ}
use mathlib.Core.Path.{ap₂}
use mathlib.Core.Logic.{∥∥₁_elim}
use riskflow.Prelude.{
  ◌≡◌, ◌≢◌, refl, sym, ap, ◌∙◌, String, arith, contains, AllDistinct, ◌==◌, eq_iff,
}
use riskflow.Prelude.Dict.{Dict, keys}
use riskflow.Prelude.Sort.Laws.{text_set, text_leb_total, text_leb_trans, text_leb_antisymm}
use riskflow.Json
use riskflow.Json.{Json, end, field, insert_field, sort_fields}
use riskflow.TargetSchema.{
  FieldDefinition, TargetSchema, definition_json, fields_json, payload, stable_json, fingerprint,
}

insert_field_comm :
    (k j : String) (v w : Json) (fs : Json.Fields)
    → k ≢ j
    → insert_field k v (insert_field j w fs) ≡ insert_field j w (insert_field k v fs)
unfolding insert_field
insert_field_comm k j v w end h = ground (arith, text_leb_total k j, text_leb_antisymm k j)
insert_field_comm k j v w (field i x fs) h = ground (
  arith,
  insert_field_comm k j v w fs h,
  text_leb_total k j,
  text_leb_total j k,
  text_leb_antisymm k j,
  text_leb_trans k j i,
  text_leb_trans j k i,
)

abbrev Entry : Type 0
Entry = String × FieldDefinition

contains-permᴰ :
    {d e : Dict FieldDefinition}
    → Permᴰ d e
    → (x : String) → contains x (keys d) ≡ contains x (keys e)
contains-permᴰ Permᴰ.nil x = refl
contains-permᴰ (Permᴰ.cons {l₁} {l₂} p q) x = cc (p, contains-permᴰ q x)
contains-permᴰ (Permᴰ.swap p q) x =
    ground (arith, ap (λ (t : Entry). t.0 == x) p, ap (λ (t : Entry). t.0 == x) q)
contains-permᴰ (Permᴰ.trans p q) x = contains-permᴰ p x ∙ contains-permᴰ q x

distinct-permᴰ :
    {d e : Dict FieldDefinition} → Permᴰ d e → AllDistinct (keys d) → AllDistinct (keys e)
distinct-permᴰ Permᴰ.nil h = h
distinct-permᴰ (Permᴰ.cons {a} {b} {l₁} {l₂} p q) h = (
  sym (contains-permᴰ q b.0) ∙ ap (λ (t : Entry). contains t.0 (keys l₁)) (sym p) ∙ h.0,
  distinct-permᴰ q h.1,
)
distinct-permᴰ (Permᴰ.swap {a} {b} {a'} {b'} {l} p q) h =
    let first : contains b'.0 (keys l) ≡ contains a.0 (keys l) =
      ap (λ (t : Entry). contains t.0 (keys l)) (sym p) in
    let second : contains a'.0 (keys l) ≡ contains b.0 (keys l) =
      ap (λ (t : Entry). contains t.0 (keys l)) (sym q) in
    ground (
      arith,
      first,
      second,
      ap (λ (t : Entry). t.0) p,
      ap (λ (t : Entry). t.0) q,
      eq_iff b'.0 a'.0,
      eq_iff b.0 a.0,
    )
distinct-permᴰ (Permᴰ.trans p q) h = distinct-permᴰ q (distinct-permᴰ p h)

abbrev put_entry : Entry → Json.Fields → Json.Fields
put_entry t fs = insert_field t.0 (definition_json t.1) fs

sort-permᴰ :
    {d e : Dict FieldDefinition}
    → Permᴰ d e
    → AllDistinct (keys d)
    → sort_fields (fields_json d) ≡ sort_fields (fields_json e)
unfolding sort_fields fields_json
sort-permᴰ Permᴰ.nil h = refl
sort-permᴰ (Permᴰ.cons p q) h = ap₂ put_entry p (sort-permᴰ q h.1)
sort-permᴰ (Permᴰ.swap {a} {b} {a'} {b'} {l} p q) h =
    insert_field_comm a.0 b.0 _ _ (sort_fields (fields_json l))
      (λ e. ground (arith, eq_iff b.0 a.0))
    ∙ ap₂ (λ x y. put_entry x (put_entry y (sort_fields (fields_json l)))) q p
sort-permᴰ (Permᴰ.trans p q) h = sort-permᴰ p h ∙ sort-permᴰ q (distinct-permᴰ p h)

-- Two schemas with the same rules and hints, and with the same fields in any order, have the same
-- fingerprint, whatever their names.
pub fingerprint-perm :
    (blake2b : String → String) (s t : TargetSchema)
    → s.cross_field_rules ≡ t.cross_field_rules
    → s.slm_hints ≡ t.slm_hints
    → AllDistinct (keys s.fields)
    → Perm s.fields t.fields
    → fingerprint blake2b s ≡ fingerprint blake2b t
unfolding fingerprint stable_json payload
fingerprint-perm blake2b s t rules hints apart p =
    ∥∥₁_elim p (text_set _ _) (λ q. cc (rules, hints, sort-permᴰ q apart))
