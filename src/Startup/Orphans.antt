-- ===== src/Startup/Orphans.antt =====
-- `_cleanup_orphaned_temp_files` of entrypoint/main.py. The temporary directory is a parameter, and
-- times are whole numbers of seconds.
use mathlib.Core.Path.{subst}
use riskflow.Prelude.{
  ℕ, ◌+◌, ◌≡◌, refl, sym, ap, ◌∙◌, Bool, true, false, List, [], ◌∷◌, Option, none, some, String,
  ltb, ◌||◌, contains, if◌then◌else◌, Bool-cases, Option-cases, inl, inr, ◌==◌, eq_iff,
}
use riskflow.Errors.{Exception, file_not_found, is_os_error, Result, ok, raise}
use riskflow.Exec.{Exec, pure, ◌>>=◌}

-- `os.path.getmtime` and `os.remove`
pub record TempFiles (W : Type 0) : Type 0 where
  pub getmtime : String → Exec W ℕ
  pub remove : String → Exec W (Unit {0})

abbrev pub session_ttl : ℕ
session_ttl = 3600

abbrev pub passed : {W : Type 0} → ℕ → Exception → W → Result ℕ × W
passed cleaned e w = if is_os_error e then (ok cleaned, w) else (raise e, w)

module _ {W : Type 0} (files : TempFiles W) (now : ℕ) where
  abbrev pub removed : ℕ → Result (Unit {0}) × W → Result ℕ × W
  removed cleaned (ok _, w) = (ok (cleaned + 1), w)
  removed cleaned (raise e, w) = passed cleaned e w

  -- `os.path.getmtime(path) < time.time() - session_ttl`
  abbrev pub is_old : ℕ → Bool
  is_old mtime = ltb (mtime + session_ttl) now

  abbrev pub dated : ℕ → String → Result ℕ × W → Result ℕ × W
  dated cleaned path (ok mtime, w) =
      if is_old mtime then removed cleaned (files.remove path w) else (ok cleaned, w)
  dated cleaned path (raise e, w) = passed cleaned e w

  unfoldable pub clean_one : ℕ → String → Exec W ℕ
  clean_one cleaned path w = dated cleaned path (files.getmtime path w)

  -- The loop over the paths that `glob` gives; the result is `cleaned`.
  unfoldable pub cleanup_orphaned_temp_files : ℕ → List String → Exec W ℕ
  unfolding clean_one
  cleanup_orphaned_temp_files cleaned [] = pure cleaned
  cleanup_orphaned_temp_files cleaned (path ∷ paths) =
      clean_one cleaned path >>= λ n. cleanup_orphaned_temp_files n paths

-- A directory: the time of each file, which reading does not change; a file that is removed is gone,
-- and the others stay.
pub record IsDirectory {W : Type 0} (files : TempFiles W) : Type 0 where
  pub mtime : W → String → Option ℕ
  pub reads : (p : String) (t : ℕ) (w : W) → mtime w p ≡ some t → files.getmtime p w ≡ (ok t, w)
  pub lacks :
      (p : String) (w : W) → mtime w p ≡ none → files.getmtime p w ≡ (raise file_not_found, w)
  pub removes :
      (p : String) (w : W)
      → (w' : W) × (files.remove p w ≡ (ok tt, w'))
        × ((q : String) → mtime w' q ≡ (if p == q then none else mtime w q))

module _ {W : Type 0} (files : TempFiles W) (dir : IsDirectory files) (now : ℕ) where
  -- What is left of a file: it is gone if it is one of the paths and old.
  abbrev pub young : Option ℕ → Option ℕ
  young none = none
  young (some t) = if is_old files now t then none else some t

  young_twice : (o : Option ℕ) → young (young o) ≡ young o
  young_twice none = refl
  young_twice (some t) = elim (Bool-cases (is_old files now t)) [
    | inl old ↦ rw old refl
    | inr new ↦ rw new (rw new refl)
  ]

  -- A state of one file, seen at every path.
  at_path :
      (f : String → Option ℕ) (p : String) (o : Option ℕ)
      → o ≡ young (f p)
      → (q : String) → (if p == q then o else f q) ≡ (if p == q then young (f q) else f q)
  at_path f p o h q = elim (Bool-cases (p == q)) [
    | inl same ↦ rw same (h ∙ ap (λ x. young (f x)) ((eq_iff p q).0 same))
    | inr other ↦ rw other refl
  ]

  unchanged :
      (f : String → Option ℕ) (p : String)
      → f p ≡ young (f p)
      → (q : String) → f q ≡ (if p == q then young (f q) else f q)
  unchanged f p h q = elim (Bool-cases (p == q)) [
    | inl same ↦ rw same (subst (λ x. f x ≡ young (f x)) ((eq_iff p q).0 same) h)
    | inr other ↦ rw other refl
  ]

  clean_one-young :
      (cleaned : ℕ) (p : String) (w : W)
      → (n : ℕ) × (w' : W) × (clean_one files now cleaned p w ≡ (ok n, w'))
        × ((q : String)
            → dir.mtime w' q ≡ (if p == q then young (dir.mtime w q) else dir.mtime w q))
  unfolding clean_one
  clean_one-young cleaned p w = elim (Option-cases (dir.mtime w p)) [
    | inl gone ↦ (
      cleaned,
      w,
      rw (dir.lacks p w gone) refl,
      unchanged (dir.mtime w) p (gone ∙ sym (ap young gone)),
    )
    | inr (t, held) ↦ elim (Bool-cases (is_old files now t)) [
      | inl old ↦
          let (w', done, rest) = dir.removes p w in
          (
            cleaned + 1,
            w',
            rw (dir.reads p t w held) (rw old (rw done refl)),
            λ q. rest q ∙ at_path (dir.mtime w) p none (sym (ap young held ∙ rw old refl)) q,
          )
      | inr new ↦ (
        cleaned,
        w,
        rw (dir.reads p t w held) (rw new refl),
        unchanged (dir.mtime w) p (held ∙ sym (ap young held ∙ rw new refl)),
      )
    ]
  ]

  -- The clean-up returns, and leaves exactly the files that `glob` did not name or that are not older
  -- than the session TTL, with their times, where files can be read and removed.
  pub cleanup_orphaned_temp_files-young :
      (cleaned : ℕ) (paths : List String) (w : W)
      → (n : ℕ) × (w' : W) × (cleanup_orphaned_temp_files files now cleaned paths w ≡ (ok n, w'))
        × ((q : String)
            → dir.mtime w' q ≡ (if contains q paths then young (dir.mtime w q) else dir.mtime w q))
  unfolding cleanup_orphaned_temp_files pure
  cleanup_orphaned_temp_files-young cleaned [] w = (cleaned, w, refl, λ q. refl)
  cleanup_orphaned_temp_files-young cleaned (p ∷ ps) w =
      let (k, v, one, first) = clean_one-young cleaned p w in
      let (n, w', rest, last) = cleanup_orphaned_temp_files-young k ps v in
      (
        n,
        w',
        rw one (rw rest refl),
        λ q. last q ∙ both (dir.mtime v q) (dir.mtime w q) (p == q) (contains q ps) (first q),
      )
    where
      both :
          (a b : Option ℕ) (here there : Bool)
          → a ≡ (if here then young b else b)
          → (if there then young a else a) ≡ (if here || there then young b else b)
      both a b true true h = ap young h ∙ young_twice b
      both a b true false h = h
      both a b false true h = ap young h
      both a b false false h = h
