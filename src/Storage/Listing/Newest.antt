-- ===== src/Storage/Listing/Newest.antt =====
-- What the listing of jobs in Redis holds: the jobs of the store in memory, newest first.
use mathlib.Core.List.{Perm, Permᴰ, flat_map, append_assoc, perm_append_comm}
use mathlib.Core.List.Perm
use mathlib.Core.Logic.{∥∥₁_elim, ∥∥₁_prop}
use riskflow.Prelude.{
  ℕ, ◌<◌, ◌≡◌, refl, sym, ap, Bool, true, false, List, [], ◌∷◌, ◌++◌, map, some, String, arith,
  length, eq_iff, eq_refl, AllDistinct, All, contains,
}
use riskflow.Prelude.Dict.{Dict, get, keys, values}
use riskflow.Prelude.Sort.By.{IsInOrder, IsOrder, sort_by-perm, sort_by-IsInOrder}
use riskflow.Errors.{ok}
use riskflow.Job.{Job}
use riskflow.Storage.{Redis, Codec, job_key}
use riskflow.Storage.Keeping.{IsAnswering}
use riskflow.Storage.Listing.{job_prefix, Scan, older, newest_first, list_jobs, memory_list}
use riskflow.Storage.Listing.Scans.{Pages, found, job_of, IsReading, list_jobs-Pages}
use riskflow.Storage.Listing.Jobs.{Represents}

-- Times are ordered: what is later is not earlier, and what is not later than one that is not later
-- than a third is not later than that.
pub record IsTimeOrder {T : Type 0} (later : T → T → Bool) : Type 0 where
  pub asym : (a b : T) → later a b ≡ true → later b a ≡ false
  pub chain : (a b c : T) → later a b ≡ false → later b c ≡ false → later a c ≡ false

module _ {T R : Type 0} (later : T → T → Bool) where
  -- No job is later than one before it.
  abbrev pub IsNewestFirst : List (Job T R) → Type 0
  IsNewestFirst = IsInOrder (older later)

  older-IsOrder : IsTimeOrder later → IsOrder (older {T = T} {R = R} later)
  older-IsOrder order = record {
    asym = λ j k. order.asym k.created_at j.created_at;
    chain = λ i j k h g. order.chain k.created_at j.created_at i.created_at g h;
  }

module _ {A B : Type 0} (f : A → List B) where
  flat_map-permᴰ : {xs ys : List A} → Permᴰ xs ys → Perm (flat_map f xs) (flat_map f ys)
  unfolding flat_map
  flat_map-permᴰ Permᴰ.nil = Perm.refl []
  flat_map-permᴰ (Permᴰ.cons {a} {b} {l₁} {l₂} e p) =
      rw e (Perm.append (Perm.refl (f b)) (flat_map-permᴰ p))
  flat_map-permᴰ (Permᴰ.swap {a} {b} {a'} {b'} {l} e e') =
      rw (e, e')
        (rw (append_assoc (f b') (f a') (flat_map f l), append_assoc (f a') (f b') (flat_map f l))
          at (Perm.append (perm_append_comm (f b') (f a')) (Perm.refl (flat_map f l))))
  flat_map-permᴰ (Permᴰ.trans p q) = Perm.trans (flat_map-permᴰ p) (flat_map-permᴰ q)

  flat_map-append : (xs ys : List A) → flat_map f (xs ++ ys) ≡ flat_map f xs ++ flat_map f ys
  unfolding flat_map
  flat_map-append [] ys = refl
  flat_map-append (x ∷ xs) ys = rw (flat_map-append xs ys) (sym (append_assoc (f x) _ _))

  flat_map-perm : {xs ys : List A} → Perm xs ys → Perm (flat_map f xs) (flat_map f ys)
  flat_map-perm p = ∥∥₁_elim p ∥∥₁_prop flat_map-permᴰ

-- The keys of the pages, and that the pages were all visited in one world.
abbrev pub keys_of : {W : Type 0} → List (W × List String) → List String
keys_of [] = []
keys_of ((v, ks) ∷ pages) = ks ++ keys_of pages

abbrev pub IsQuiet : {W : Type 0} → W → List (W × List String) → Type 0
IsQuiet w pages = All (λ page. page.0 ≡ w) pages

found-keys_of :
    {W B : Type 0} (out : W → String → List B) (w : W) (pages : List (W × List String))
    → IsQuiet w pages
    → found out pages ≡ flat_map (out w) (keys_of pages)
unfolding flat_map
found-keys_of out w [] h = refl
found-keys_of out w ((v, ks) ∷ pages) h =
    rw h.0 (rw (found-keys_of out w pages h.1) (sym (flat_map-append (out w) ks (keys_of pages))))

module _ {V : Type 0} where
  older_entries :
      (k : String) (v : V) (d e : Dict V)
      → contains k (keys e) ≡ false
      → All (λ t. get t.0 d ≡ some t.1) e
      → All (λ t. get t.0 ((k, v) ∷ d) ≡ some t.1) e
  unfolding get
  older_entries k v d [] fresh h = tt
  older_entries k v d ((j, u) ∷ e) fresh h =
      (ground (arith, eq_iff j k, eq_iff k j, h.0), older_entries k v d e (ground arith) h.1)

  get-entries : (d : Dict V) → AllDistinct (keys d) → All (λ t. get t.0 d ≡ some t.1) d
  unfolding get
  get-entries [] apart = tt
  get-entries ((k, v) ∷ d) apart =
      (rw (eq_refl k) refl, older_entries k v d d apart.0 (get-entries d apart.1))

module _ {W T R : Type 0} (later : T → T → Bool) (codec : Codec (Job T R)) (json : Job T R → String)
    (redis : Redis W) (answers : IsAnswering redis) where
  abbrev stored_at : W → String → List (Job T R)
  stored_at w k = job_of later codec redis (answers.value w k)

  stored_at-values :
      (w : W) (d e : Dict (Job T R))
      → Represents codec json answers w d
      → All (λ t. get t.0 d ≡ some t.1) e
      → flat_map (stored_at w) (map (λ id. job_key id) (keys e)) ≡ values e
  unfolding flat_map
  stored_at-values w d [] h all = refl
  stored_at-values w d ((id, j) ∷ e) h all =
      let loads : codec.load (json j) ≡ ok j = rw all.0 at (h id).1 in
      rw (h id).0 (rw all.0 (rw loads (ap (λ js. j ∷ js) (stored_at-values w d e h all.1))))

  -- Where the store in Redis holds the jobs of a dict, and a scan that no other client disturbs gives
  -- each of their keys once: `RedisJobStore.list_all` ends, and it returns the same jobs as the store
  -- in memory with that dict lists, newest first; jobs of one time may change places.
  pub list_jobs-newest :
      IsTimeOrder later
      → IsReading later codec redis
      → (scan : Scan W) (d : Dict (Job T R)) (w u : W) (pages : List (W × List String))
      → Represents codec json answers w d
      → AllDistinct (keys d)
      → Pages (scan job_prefix) 0 w pages (ok tt) u
      → IsQuiet w pages
      → Perm (keys_of pages) (map (λ id. job_key id) (keys d))
      → (fuel : ℕ) → length pages < fuel
      → (js : List (Job T R)) × (list_jobs later codec redis scan fuel w ≡ some (ok js, u))
        × Perm js (memory_list later d)
        × IsNewestFirst later js
  unfolding memory_list newest_first
  list_jobs-newest order reads scan d w u pages h apart p quiet complete fuel enough =
      let all = stored_at-values w d d h (get-entries d apart) in
      let js = found (λ v k. stored_at v k) pages in
      let same : Perm js (values d) =
        rw (found-keys_of (λ v k. stored_at v k) w pages quiet)
          (rw all at (flat_map-perm (stored_at w) complete)) in
      (
        newest_first later js,
        list_jobs-Pages later codec redis reads answers scan p fuel enough,
        Perm.trans (sort_by-perm (older later) js)
            (Perm.trans same (Perm.symm (sort_by-perm (older later) (values d)))),
        sort_by-IsInOrder (older later) (older-IsOrder later order) js,
      )
