-- ===== src/Routes/Uploads/Corrections.antt =====
-- What `submit_corrections` of adapters/http/routes.py leaves behind when it refuses a correction.
use riskflow.Prelude.{
  ◌≡◌, refl, ap, ◌++◌, false, true, List, [], ◌∷◌, some, String, arith, contains, All,
}
use riskflow.Prelude.Dict.{Dict, get}
use riskflow.Correction.{Correction, correction}
use riskflow.Errors.{ok}
use riskflow.Exec.{lift}
use riskflow.MappingService.{MappingService}
use riskflow.MappingService.Mapping.{IsRemembering}
use riskflow.MappingService.Operations.{store_correction}
use riskflow.Ports.{CorrectionCachePort}
use riskflow.Schema.{is_empty}
use riskflow.TargetSchema.{field_names}
use riskflow.Text.{is_blank}
use riskflow.Routes.{Reply, reply, failure, http, correction_refused}
use riskflow.Routes.Uploads.{and_then, store_item, store_items, submit_corrections}

append_not_empty :
    {A : Type 0} (xs : List A) (y : A) (ys : List A) → is_empty (xs ++ y ∷ ys) ≡ false
append_not_empty [] y ys = refl
append_not_empty (x ∷ xs) y ys = refl

module _ {W : Type 0} (s : MappingService W) where
  refused_item :
      (cedent h t : String) (w : W)
      → is_blank cedent ≡ false
      → is_blank h ≡ false
      → is_blank t ≡ false
      → contains t (field_names s.schema) ≡ false
      → store_item s (correction cedent h t) w ≡ (failure (http 422 correction_refused), w)
  unfolding store_item correction store_correction lift
  refused_item cedent h t w c n f unknown = rw c (rw n (rw f (rw unknown refl)))

  store_items-append :
      (cedent : String) (xs ys : List (String × String)) (w v : W)
      → store_items s cedent xs w ≡ (reply tt, v)
      → store_items s cedent (xs ++ ys) w ≡ store_items s cedent ys v
  unfolding store_items
  store_items-append cedent [] ys w v h = rw (ap (λ x. x.1) h) refl
  store_items-append cedent ((n, t) ∷ xs) ys w v h =
      step (store_item s (correction cedent n t) w) (λ u. store_items-append cedent xs ys u v) h
    where
      step :
          (x : Reply (Unit {0}) × W)
          → ((u : W)
              → store_items s cedent xs u ≡ (reply tt, v)
              → store_items s cedent (xs ++ ys) u ≡ store_items s cedent ys v)
          → and_then s x (store_items s cedent xs) ≡ (reply tt, v)
          → and_then s x (store_items s cedent (xs ++ ys)) ≡ store_items s cedent ys v
      step (reply u, w') more e = more w' e
      step (failure f, w') more e = absurd (ground arith)

  -- The world that a refused request leaves.
  refused_request :
      (cedent h t h0 t0 : String) (xs ys : List (String × String)) (w u u' : W)
      → is_blank cedent ≡ false
      → store_items s cedent xs w ≡ (reply tt, u)
      → store_item s (correction cedent h0 t0) u ≡ (reply tt, u')
      → is_blank h ≡ false
      → is_blank t ≡ false
      → contains t (field_names s.schema) ≡ false
      → submit_corrections s cedent (xs ++ (h0, t0) ∷ (h, t) ∷ ys) w
        ≡ (failure (http 422 correction_refused), u')
  unfolding submit_corrections store_items
  refused_request cedent h t h0 t0 xs ys w u u' c before last n f unknown =
      let some_items = append_not_empty xs (h0, t0) ((h, t) ∷ ys) in
      rw c (
        rw some_items (
          rw (store_items-append cedent xs ((h0, t0) ∷ (h, t) ∷ ys) w u before)
            (rw last (rw (refused_item cedent h t u' c n f unknown) refl))))

  -- A correction that can be stored: its texts are not blank, and its field is one of the schema.
  abbrev pub IsStorable : String × String → Type 0
  IsStorable (h, t) =
      (is_blank h ≡ false) × (is_blank t ≡ false) × (contains t (field_names s.schema) ≡ true)

  module _ (cache : CorrectionCachePort W) where
    -- A correction cache that accepts every correction.
    pub record IsAccepting : Type 0 where
      pub accepts : (c : Correction) (w : W) → (w' : W) × (cache.set_correction c w ≡ (ok tt, w'))

    stored_item :
        s.correction_cache ≡ some cache
        → (cedent h t : String) (w w' : W) → is_blank cedent ≡ false
        → IsStorable (h, t)
        → cache.set_correction
            (record { cedent_id = cedent; source_header = h; target_field = t })
            w
          ≡ (ok tt, w')
        → store_item s (correction cedent h t) w ≡ (reply tt, w')
    unfolding store_item correction store_correction lift
    stored_item given cedent h t w w' c (n, f, known) set =
        rw c (rw n (rw f (rw known (rw given (rw set refl)))))

    stored_items :
        s.correction_cache ≡ some cache
        → IsAccepting
        → (cedent : String) (xs : List (String × String)) (w : W) → is_blank cedent ≡ false
        → All IsStorable xs
        → (v : W) × (store_items s cedent xs w ≡ (reply tt, v))
    unfolding store_items
    stored_items given accepting cedent [] w c h = (w, refl)
    stored_items given accepting cedent ((h, t) ∷ xs) w c (good, rest) =
        let (u, set) =
          accepting.accepts (record { cedent_id = cedent; source_header = h; target_field = t })
            w in
        let (v, done) = stored_items given accepting cedent xs u c rest in
        (v, rw (stored_item given cedent h t w u c good set) done)

    -- With a correction cache that accepts every correction and returns what was stored last: a
    -- request whose first items, `(h0, t0)` the last of them, have known fields and are followed by an
    -- item whose field is not in the schema, the cedent and the texts of all these not being blank, is
    -- answered with 422. Yet the correction `(h0, t0)` before the refused one is stored: whatever
    -- headers with `h0` are asked for next, if the cache answers, it gives `t0` for `h0`.
    pub submit_corrections-partial :
        s.correction_cache ≡ some cache
        → IsRemembering cache
        → IsAccepting
        → (cedent h0 t0 h t : String) (xs ys : List (String × String)) (w v : W)
          (headers : List String) (cs : Dict String)
        → is_blank cedent ≡ false
        → All IsStorable xs
        → IsStorable (h0, t0)
        → is_blank h ≡ false
        → is_blank t ≡ false
        → contains t (field_names s.schema) ≡ false
        → contains h0 headers ≡ true
        → cache.get_corrections cedent headers
            (submit_corrections s cedent (xs ++ (h0, t0) ∷ (h, t) ∷ ys) w).1
          ≡ (ok cs, v)
        → ((submit_corrections s cedent (xs ++ (h0, t0) ∷ (h, t) ∷ ys) w).0
            ≡ failure (http 422 correction_refused))
          × (get h0 cs ≡ some t0)
    submit_corrections-partial given law accepting cedent h0 t0 h t xs ys w v headers cs c stored
          good n f unknown asked found =
        let (u, before) = stored_items given accepting cedent xs w c stored in
        let k : Correction = record { cedent_id = cedent; source_header = h0; target_field = t0 } in
        let (u', set) = accepting.accepts k u in
        let last = stored_item given cedent h0 t0 u u' c good set in
        let ended = refused_request cedent h t h0 t0 xs ys w u u' c before last n f unknown in
        (
          ap (λ x. x.0) ended,
          law.get-set k headers u u' v cs set asked (rw (ap (λ x. x.1) ended) at found),
        )
