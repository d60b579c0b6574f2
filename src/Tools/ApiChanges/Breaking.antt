-- ===== src/Tools/ApiChanges/Breaking.antt =====
-- When tools/check_api_changes.py calls the changes of an API breaking.
use riskflow.Prelude.{
  ◌≡◌, ◌↔◌, refl, sym, ap, ◌∙◌, Bool, true, false, not, ◌&&◌, List, [], ◌∷◌, some, String, arith,
  contains, all, is_some, Bool-cases, Option-cases, inl, inr,
}
use riskflow.Prelude.Dict.{Dict, get, keys, contains-keys}
use riskflow.Errors.{Result, ok, raise, ◌>>=◌}
use riskflow.Tools.ApiChanges.{
  Operation, PathItem, Spec, Change, Changes, ChangeResult, ChangeKind, breaking_found, each, ◌<+>◌,
  compare_parameters, compare_responses, compare_operation, has_method, is_method,
  compare_path_item, detect_changes, old_method, new_method, shared_method, old_path, new_path,
  shared_path, classify,
}
use riskflow.Tools.ApiChanges.Loops.{empty, silent, silent-join, three_loops}
use riskflow.Tools.ApiChanges.Parameters.{
  AllNamed, is_required, compare_parameters_iff, compare_responses_iff,
}

-- The new operation takes every call of the old one: the same parameters are required, and no status
-- code is missing.
pub record OperationCompatible (old new : Operation) : Type 0 where
  pub olds_named : AllNamed old.parameters
  pub news_named : AllNamed new.parameters
  pub same_required : (n : String) → is_required n old.parameters ≡ is_required n new.parameters
  pub same_codes : (c : String) → contains c old.responses ≡ true → contains c new.responses ≡ true

compare_operation_iff :
    (path method : String) (old new : Operation)
    → (silent (compare_operation path method old new) ≡ true) ↔ OperationCompatible old new
unfolding compare_operation
compare_operation_iff path method old new = (
  λ h.
      let both : silent params && silent codes ≡ true = sym (silent-join params codes) ∙ h in
      let (a, b, c) =
        (compare_parameters_iff path method old.parameters new.parameters).0
          (ground (arith, both)) in
      record {
        olds_named = a;
        news_named = b;
        same_required = c;
        same_codes =
            (compare_responses_iff path method old.responses new.responses).0
              (ground (arith, both));
      },
  λ k.
      silent-join params codes
      ∙ rw
          (
            (compare_parameters_iff path method old.parameters new.parameters).1
                (k.olds_named, k.news_named, k.same_required),
            (compare_responses_iff path method old.responses new.responses).1 k.same_codes,
          )
          refl,
)
  where
    params : Result Changes
    params = compare_parameters path method old.parameters new.parameters

    codes : Result Changes
    codes = compare_responses path method old.responses new.responses

-- Every method of the old path is one of the new path, with an operation that takes its calls.
abbrev pub ItemCompatible : PathItem → PathItem → Type 0
ItemCompatible old new =
    (m : String) (a : Operation)
    → is_method m ≡ true
    → get m old ≡ some a
    → (b : Operation) × (get m new ≡ some b) × OperationCompatible a b

abbrev pub Compatible : Spec → Spec → Type 0
Compatible old new =
    (p : String) (a : PathItem)
    → get p old ≡ some a
    → (b : PathItem) × (get p new ≡ some b) × ItemCompatible a b

known_key :
    {V : Type 0} (k : String) (d : Dict V)
    → contains k (keys d) ≡ true
    → (v : V) × (get k d ≡ some v)
known_key k d h = elim (Option-cases (get k d)) [
  | inl missing ↦ absurd (ground (arith, contains-keys k d))
  | inr (v, found) ↦ (v, found)
]

module _ (path : String) (old new : PathItem) where
  method_forth :
      (m : String) (a : Operation)
      → is_method m ≡ true
      → get m old ≡ some a
      → (contains m (keys old) ≡ true → silent (old_method path old new m) ≡ true)
      → (contains m (keys old) ≡ true → silent (shared_method path old new m) ≡ true)
      → (b : Operation) × (get m new ≡ some b) × OperationCompatible a b
  unfolding old_method shared_method
  method_forth m a known held f g =
      let here : contains m (keys old) ≡ true = contains-keys m old ∙ ap is_some held in
      elim (Option-cases (get m new)) [
        | inl missing ↦
            let gone : contains m (keys new) ≡ false = contains-keys m new ∙ ap is_some missing in
            absurd (ground (arith, f here))
        | inr (b, found) ↦
            let there : contains m (keys new) ≡ true = contains-keys m new ∙ ap is_some found in
            (
              b,
              found,
              (compare_operation_iff path m a b).0
                  (rw (known, here, there, held, found) at (g here)),
            )
      ]

  shared_silent :
      (m : String) (a b : Operation)
      → get m old ≡ some a
      → get m new ≡ some b
      → OperationCompatible a b
      → (contains m (keys new) ≡ true) × (silent (shared_method path old new m) ≡ true)
  unfolding shared_method
  shared_silent m a b held found takes = (
    contains-keys m new ∙ ap is_some found,
    elim (Bool-cases (has_method m old && has_method m new)) [
      | inl all ↦ rw (all, held, found) ((compare_operation_iff path m a b).1 takes)
      | inr some_lack ↦ rw some_lack refl
    ],
  )

  method_back :
      ItemCompatible old new
      → (m : String)
      → (silent (old_method path old new m) ≡ true) × (silent (shared_method path old new m) ≡ true)
  unfolding old_method
  method_back compatible m = elim (Bool-cases (has_method m old)) [
    | inl here ↦ present here (known_key m old (ground (arith, here)))
    | inr absent ↦ (rw absent refl, unshared absent)
  ]
    where
      unshared : has_method m old ≡ false → silent (shared_method path old new m) ≡ true
      unshared absent = unfold shared_method in rw absent refl

      present :
          has_method m old ≡ true
          → ((a : Operation) × (get m old ≡ some a))
          → (silent (old_method path old new m) ≡ true)
            × (silent (shared_method path old new m) ≡ true)
      present here (a, held) =
          let (b, found, takes) = compatible m a (ground (arith, here)) held in
          let (there, quiet) = shared_silent m a b held found takes in
          (ground (arith, there, here), quiet)

  new_method-silent : (m : String) → silent (new_method path old new m) ≡ true
  unfolding new_method
  new_method-silent m = ground arith

  compare_path_item_iff : (silent (compare_path_item path old new) ≡ true) ↔ ItemCompatible old new
  unfolding compare_path_item
  compare_path_item_iff =
      let loops =
        three_loops (old_method path old new) (new_method path old new) (shared_method path old new)
          (keys old) (keys new) (keys old) in
      (
        λ h m a known held. let (f, _, g) = loops.0 h in method_forth m a known held (f m) (g m),
        λ compatible. loops.1 (
          λ m _. (method_back compatible m).0,
          λ m _. new_method-silent m,
          λ m _. (method_back compatible m).1,
        ),
      )

module _ (old new : Spec) where
  path_forth :
      (p : String) (a : PathItem)
      → get p old ≡ some a
      → (contains p (keys old) ≡ true → silent (old_path new p) ≡ true)
      → (contains p (keys old) ≡ true → silent (shared_path old new p) ≡ true)
      → (b : PathItem) × (get p new ≡ some b) × ItemCompatible a b
  unfolding old_path shared_path
  path_forth p a held f g =
      let here : contains p (keys old) ≡ true = contains-keys p old ∙ ap is_some held in
      elim (Option-cases (get p new)) [
        | inl missing ↦
            let gone : contains p (keys new) ≡ false = contains-keys p new ∙ ap is_some missing in
            absurd (ground (arith, f here))
        | inr (b, found) ↦
            let there : contains p (keys new) ≡ true = contains-keys p new ∙ ap is_some found in
            (b, found, (compare_path_item_iff p a b).0 (rw (there, held, found) at (g here)))
      ]

  path_back :
      Compatible old new
      → (p : String) → contains p (keys old) ≡ true
      → (silent (old_path new p) ≡ true) × (silent (shared_path old new p) ≡ true)
  unfolding old_path shared_path
  path_back compatible p here =
      let (a, held) = known_key p old here in
      let (b, found, takes) = compatible p a held in
      let there : contains p (keys new) ≡ true = contains-keys p new ∙ ap is_some found in
      (rw there refl, rw (there, held, found) ((compare_path_item_iff p a b).1 takes))

  new_path-silent : (p : String) → silent (new_path old p) ≡ true
  unfolding new_path
  new_path-silent p = ground arith

  abbrev compared : Result Changes
  compared =
      each (old_path new) (keys old)
      <+> each (new_path old) (keys new)
      <+> each (shared_path old new) (keys old)

  compared_iff : (silent compared ≡ true) ↔ Compatible old new
  compared_iff =
      let loops =
        three_loops (old_path new) (new_path old) (shared_path old new) (keys old) (keys new)
          (keys old) in
      (
        λ h p a held. let (f, _, g) = loops.0 h in path_forth p a held (f p) (g p),
        λ compatible. loops.1 (
          λ p here. (path_back compatible p here).0,
          λ p _. new_path-silent p,
          λ p here. (path_back compatible p here).1,
        ),
      )

abbrev pub is_breaking : ChangeKind → Bool
is_breaking breaking_found = true
is_breaking _ = false

is_breaking-classify : (c : Changes) → is_breaking (classify c).kind ≡ not (empty c.breaking)
unfolding classify
is_breaking-classify c = kinds c.breaking c.non_breaking
  where
    kinds :
        (bs ns : List Change)
        → is_breaking (classify (record { breaking = bs; non_breaking = ns })).kind ≡ not (empty bs)
    kinds (b ∷ bs) ns = refl
    kinds [] (n ∷ ns) = refl
    kinds [] [] = refl

-- `detect_changes` returns a result that is not breaking exactly when every path of the old document
-- is in the new one, and so is every operation of it, which requires the same parameters and has all
-- its status codes, and every parameter of the two operations has a name.
pub detect_changes-Compatible_iff :
    (old new : Spec)
    → ((r : ChangeResult) × (detect_changes old new ≡ ok r) × (is_breaking r.kind ≡ false))
      ↔ Compatible old new
unfolding detect_changes
detect_changes-Compatible_iff old new = (
  λ (r, returned, mild). (compared_iff old new).0 (forth (compared old new) r returned mild),
  λ compatible. back (compared old new) ((compared_iff old new).1 compatible),
)
  where
    forth :
        (m : Result Changes) (r : ChangeResult)
        → (m >>= λ c. ok (classify c)) ≡ ok r
        → is_breaking r.kind ≡ false
        → silent m ≡ true
    forth (ok c) r h mild = ground (arith, is_breaking-classify c, h)
    forth (raise e) r h mild = absurd (ground (arith, h))

    back :
        (m : Result Changes)
        → silent m ≡ true
        → (r : ChangeResult) × ((m >>= λ c. ok (classify c)) ≡ ok r) × (is_breaking r.kind ≡ false)
    back (ok c) h = (classify c, refl, is_breaking-classify c ∙ rw h refl)
    back (raise e) h = absurd (ground (arith, h))
