-- ===== src/Tools/Linter/Layers.antt =====
-- Which imports tools/hexagonal_linter.py permits a layer.
use riskflow.Prelude.{
  ℕ, ◌≡◌, ◌↔◌, ◌≤◌, ◌⊎◌, refl, sym, Bool, true, false, ◌&&◌, List, [], ◌∷◌, Option, none, some,
  String, ◌==◌, eq_iff, arith, leb, contains, if◌then◌else◌, Bool-cases, inl, inr,
}
use riskflow.Schema.{is_empty}
use riskflow.Tools.Linter.{
  local_layers, layer_rules, infra_packages, infra_ban_layers, layer_of_parts, own_layer,
  split_dots, extract_local_layer, top_package, check_package, check_found, check_import,
}

-- domain and ports are innermost, then come the adapters, then the entry point.
abbrev pub rank : String → ℕ
rank layer = if layer == "entrypoint" then 2 else if layer == "adapters" then 1 else 0

abbrev pub IsLayer : String → Type 0
IsLayer l = (l ≡ "domain") ⊎ ((l ≡ "ports") ⊎ ((l ≡ "adapters") ⊎ (l ≡ "entrypoint")))

pub IsLayer-cases : (l : String) → contains l local_layers ≡ true → IsLayer l
IsLayer-cases l h = elim (Bool-cases ("domain" == l)) [
  | inl d ↦ inl (sym ((eq_iff "domain" l).0 d))
  | inr nd ↦ elim (Bool-cases ("ports" == l)) [
    | inl p ↦ inr (inl (sym ((eq_iff "ports" l).0 p)))
    | inr np ↦ elim (Bool-cases ("adapters" == l)) [
      | inl a ↦ inr (inr (inl (sym ((eq_iff "adapters" l).0 a))))
      | inr na ↦ inr (inr (inr (sym ((eq_iff "entrypoint" l).0 (ground (arith, h, nd, np, na))))))
    ]
  ]
]

pub by_layer :
    (P : String → Type 0)
    → P "domain"
    → P "ports"
    → P "adapters"
    → P "entrypoint"
    → (l : String) → IsLayer l
    → P l
by_layer P d p a e l (inl h) = rw h d
by_layer P d p a e l (inr (inl h)) = rw h p
by_layer P d p a e l (inr (inr (inl h))) = rw h a
by_layer P d p a e l (inr (inr (inr h))) = rw h e

-- The table of the rules says that a layer may import those that are not further out.
pub layer_rules-rank :
    (l k : String) → IsLayer l → IsLayer k → contains k (layer_rules l) ≡ leb (rank k) (rank l)
unfolding layer_rules
layer_rules-rank l k h j =
    by_layer (λ l. contains k (layer_rules l) ≡ leb (rank k) (rank l))
      (by_layer (λ k. contains k (layer_rules "domain") ≡ leb (rank k) 0) refl refl refl refl k j)
      (by_layer (λ k. contains k (layer_rules "ports") ≡ leb (rank k) 0) refl refl refl refl k j)
      (by_layer (λ k. contains k (layer_rules "adapters") ≡ leb (rank k) 1) refl refl refl refl k j)
      (by_layer (λ k. contains k (layer_rules "entrypoint") ≡ leb (rank k) 2) refl refl refl refl k
        j)
      l h

pub infra_ban-rank : (l : String) → IsLayer l → contains l infra_ban_layers ≡ leb (rank l) 0
infra_ban-rank l h =
    by_layer (λ l. contains l infra_ban_layers ≡ leb (rank l) 0) refl refl refl refl l h

pub own_layer-IsLayer : (p k : String) → own_layer p ≡ some k → IsLayer k
own_layer-IsLayer p k h = elim (Bool-cases (contains p local_layers)) [
  | inl here ↦ let same : p ≡ k = ground (arith, h, here) in IsLayer-cases k (rw same at here)
  | inr absent ↦ absurd (ground (arith, h, absent))
]

pub layer_of_parts-IsLayer :
    (ps : List String) (k : String) → layer_of_parts ps ≡ some k → IsLayer k
unfolding layer_of_parts
layer_of_parts-IsLayer [] k h = absurd (ground (arith, h))
layer_of_parts-IsLayer (p ∷ []) k h = own_layer-IsLayer p k h
layer_of_parts-IsLayer (p ∷ q ∷ ps) k h =
    elim (Bool-cases (p == "src" && contains q local_layers)) [
      | inl below ↦
          let same : q ≡ k = ground (arith, h, below) in
          IsLayer-cases k (rw same at (second (p == "src") (contains q local_layers) below))
      | inr above ↦ own_layer-IsLayer p k (rw above at h)
    ]
  where
    second : (a b : Bool) → (a && b) ≡ true → b ≡ true
    second true b e = e
    second false b e = absurd (ground (arith, e))

-- What a layer may import: a module of a layer that is not further out than itself, and any other
-- module, but in domain and ports no infrastructure package.
abbrev pub PermittedIn : String → String → Option String → Type 0
PermittedIn layer m (some k) = rank k ≤ rank layer
PermittedIn layer m none = rank layer ≡ 0 → contains (top_package m) infra_packages ≡ false

abbrev pub Permitted : String → String → Type 0
Permitted layer m = PermittedIn layer m (extract_local_layer m)

pub check_found-Permitted :
    (layer m : String) (lineno : ℕ) (o : Option String)
    → IsLayer layer
    → ((k : String) → o ≡ some k → IsLayer k)
    → (is_empty (check_found layer m lineno o) ≡ true) ↔ PermittedIn layer m o
unfolding check_package
check_found-Permitted layer m lineno (some k) h found =
    let rule = layer_rules-rank layer k h (found k refl) in
    (λ e. ground (arith, rule, e), λ e. ground (arith, rule, e))
check_found-Permitted layer m lineno none h found =
    let ban = infra_ban-rank layer h in
    (
      λ e inner. ground (arith, ban, e),
      λ e. elim (Bool-cases (contains layer infra_ban_layers)) [
        | inl banned ↦ rw banned (rw (e (ground (arith, ban, banned))) refl)
        | inr free ↦ rw free refl
      ],
    )

pub check_import-Permitted :
    (layer m : String) (lineno : ℕ)
    → IsLayer layer
    → (is_empty (check_import layer lineno m) ≡ true) ↔ Permitted layer m
unfolding check_import extract_local_layer
check_import-Permitted layer m lineno h =
    check_found-Permitted layer m lineno (extract_local_layer m) h
      (λ k. layer_of_parts-IsLayer (split_dots m) k)
