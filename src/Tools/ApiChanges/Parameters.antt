-- ===== src/Tools/ApiChanges/Parameters.antt =====
-- When the parameters and the status codes of two operations hold nothing that breaks.
use riskflow.Prelude.{
  ◌≡◌, ◌↔◌, refl, sym, ap, ◌∙◌, Bool, true, false, List, [], ◌∷◌, Option, none, some, String, arith,
  contains, All, is_some, if◌then◌else◌, Option-cases, inl, inr, ◌==◌,
}
use riskflow.Prelude.Dict.{Dict, get, put, keys, contains-keys, get-put}
use riskflow.Errors.{Result, ok, raise, ◌>>=◌}
use riskflow.Tools.ApiChanges.{
  Parameter, each, by_name, required, compare_named, compare_parameters, compare_responses,
  old_parameter, new_parameter, shared_parameter, compare_required, old_response, new_response,
}
use riskflow.Tools.ApiChanges.Loops.{silent, silent-join, silent-each_iff, three_loops}

module _ (path method : String) (old new : Dict Parameter) where
  pub parameter_point :
      (n : String)
      → ((contains n (keys old) ≡ true → silent (old_parameter path method old new n) ≡ true)
          × (contains n (keys new) ≡ true → silent (new_parameter path method old new n) ≡ true)
          × (contains n (keys old) ≡ true → silent (shared_parameter path method old new n) ≡ true))
        ↔ (required (get n old) ≡ required (get n new))
  unfolding old_parameter new_parameter shared_parameter compare_required
  parameter_point n = (
    λ (a, b, c). ground (arith, contains-keys n old, contains-keys n new, a, b, c),
    λ h. (
      λ k. ground (arith, contains-keys n old, contains-keys n new),
      λ k. ground (arith, contains-keys n old, contains-keys n new),
      λ k. ground (arith, contains-keys n old, contains-keys n new),
    ),
  )

  pub compare_named_iff :
      (silent (compare_named path method old new) ≡ true)
      ↔ ((n : String) → required (get n old) ≡ required (get n new))
  unfolding compare_named
  compare_named_iff = (
    λ e n.
        let (a, b, c) =
          (three_loops (old_parameter path method old new) (new_parameter path method old new)
              (shared_parameter path method old new) (keys old) (keys new) (keys old)).0
            e in
        (parameter_point n).0 (a n, b n, c n),
    λ h.
        (three_loops (old_parameter path method old new) (new_parameter path method old new)
            (shared_parameter path method old new) (keys old) (keys new) (keys old)).1
          (
            λ n. ((parameter_point n).1 (h n)).0,
            λ n. ((parameter_point n).1 (h n)).1,
            λ n. ((parameter_point n).1 (h n)).2,
          ),
  )

-- Every parameter has a name.
abbrev pub AllNamed : List Parameter → Type 0
AllNamed ps = All (λ p. is_some p.name ≡ true) ps

abbrev pub is_named : String → Option String → Bool
is_named n none = false
is_named n (some m) = m == n

-- The last parameter of a name says whether it is required, and a name without one is not.
abbrev pub is_required_or : Bool → String → List Parameter → Bool
is_required_or b n [] = b
is_required_or b n (p ∷ ps) = is_required_or (if is_named n p.name then p.required else b) n ps

abbrev pub is_required : String → List Parameter → Bool
is_required n ps = is_required_or false n ps

pub required-put :
    (n k : String) (p : Parameter) (d : Dict Parameter)
    → required (get n (put k p d)) ≡ (if k == n then p.required else required (get n d))
required-put n k p d = ground (arith, get-put k n p d)

pub by_name-required :
    (d : Dict Parameter) (ps : List Parameter)
    → AllNamed ps
    → (e : Dict Parameter) × (by_name d ps ≡ ok e)
      × ((n : String) → required (get n e) ≡ is_required_or (required (get n d)) n ps)
unfolding by_name
by_name-required d [] h = (d, refl, λ n. refl)
by_name-required d (p ∷ ps) h = elim (Option-cases p.name) [
  | inl nameless ↦ absurd (ground (arith, h.0))
  | inr (k, q) ↦
      let (e, made, same) = by_name-required (put k p d) ps h.1 in
      (
        e,
        simp q made,
        λ n. same n ∙ ap (λ b. is_required_or b n ps) (required-put n k p d ∙ simp q),
      )
]

pub by_name-AllNamed :
    (d e : Dict Parameter) (ps : List Parameter) → by_name d ps ≡ ok e → AllNamed ps
unfolding by_name
by_name-AllNamed d e [] h = tt
by_name-AllNamed d e (p ∷ ps) h = elim (Option-cases p.name) [
  | inl nameless ↦ absurd (ground (arith, h))
  | inr (k, q) ↦ (rw q refl, by_name-AllNamed (put k p d) e ps (rw q at h))
]

module _ (path method : String) where
  pub compare_parameters_iff :
      (olds news : List Parameter)
      → (silent (compare_parameters path method olds news) ≡ true)
        ↔ (AllNamed olds × AllNamed news × ((n : String) → is_required n olds ≡ is_required n news))
  unfolding compare_parameters
  compare_parameters_iff olds news = (
    λ h. parts (by_name [] olds) (by_name [] news) refl refl h,
    λ (a, b, same).
        let (d, made, old_flags) = by_name-required [] olds a in
        let (e, made', new_flags) = by_name-required [] news b in
        rw (made, made')
          ((compare_named_iff path method d e).1
            (λ n. old_flags n ∙ start olds n ∙ same n ∙ sym (start news n) ∙ sym (new_flags n))),
  )
    where
      start :
          (ps : List Parameter) (n : String)
          → is_required_or (required (get n [])) n ps ≡ is_required n ps
      start ps n = unfold get in refl

      parts :
          (x y : Result (Dict Parameter))
          → by_name [] olds ≡ x
          → by_name [] news ≡ y
          → silent (x >>= λ old. y >>= λ new. compare_named path method old new) ≡ true
          → AllNamed olds × AllNamed news × ((n : String) → is_required n olds ≡ is_required n news)
      parts (ok d) (ok e) p q h =
          let a = by_name-AllNamed [] d olds p in
          let b = by_name-AllNamed [] e news q in
          let (d', made, old_flags) = by_name-required [] olds a in
          let (e', made', new_flags) = by_name-required [] news b in
          let same_d : d' ≡ d = cc (made, p) in
          let same_e : e' ≡ e = cc (made', q) in
          (
            a,
            b,
            λ n.
                sym (old_flags n ∙ start olds n)
                ∙ ap (λ t. required (get n t)) same_d
                ∙ (compare_named_iff path method d e).0 h n
                ∙ sym (ap (λ t. required (get n t)) same_e)
                ∙ new_flags n
                ∙ start news n,
          )
      parts (ok d) (raise e) p q h = absurd (ground (arith, h))
      parts (raise e) y p q h = absurd (ground (arith, h))

  pub compare_responses_iff :
      (olds news : List String)
      → (silent (compare_responses path method olds news) ≡ true)
        ↔ ((c : String) → contains c olds ≡ true → contains c news ≡ true)
  unfolding compare_responses old_response new_response
  compare_responses_iff olds news = (
    λ h c m.
        let old : silent (each (old_response path method news) olds) ≡ true = ground (
          arith,
          silent-join (each (old_response path method news) olds)
              (each (new_response path method olds) news),
          h,
        ) in
        let point : silent (old_response path method news c) ≡ true =
          (silent-each_iff (old_response path method news) olds).0 old c m in
        ground (arith, point),
    λ h.
        silent-join (each (old_response path method news) olds)
          (each (new_response path method olds) news)
        ∙ rw
            (
              (silent-each_iff (old_response path method news) olds).1
                  (λ c m. ground (arith, h c m)),
              (silent-each_iff (new_response path method olds) news).1 (λ c m. ground arith),
            )
            refl,
  )
