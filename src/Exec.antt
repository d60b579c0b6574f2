-- ===== src/Exec.antt =====
-- Calls that act on the world and may raise. What was done before an exception stays done, so the
-- world comes back beside the exception too.
use riskflow.Prelude.{◌≡◌, refl, ap, arith}
use riskflow.Errors.{Exception, Result, ok, raise}

abbrev pub Exec : Type 0 → Type 0 → Type 0
Exec W A = W → Result A × W

module _ {W A : Type 0} where
  unfoldable pub pure : A → Exec W A
  pure a w = (ok a, w)

  -- A call that only returns or raises.
  unfoldable pub lift : Result A → Exec W A
  lift r w = (r, w)

  unfoldable pub throw : Exception → Exec W A
  throw e w = (raise e, w)

module _ {W A B : Type 0} where
  abbrev pub resume : Result A → (A → Exec W B) → Exec W B
  resume (ok a) f w = f a w
  resume (raise e) f w = (raise e, w)

  infixl 10 ◌>>=◌ ◌>>◌
  abbrev pub ◌>>=◌ : Exec W A → (A → Exec W B) → Exec W B
  ◌>>=◌ m f w = let (r, w') = m w in resume r f w'

  abbrev pub ◌>>◌ : Exec W A → Exec W B → Exec W B
  m >> k = m >>= λ _. k

  -- `try: m except e: handler(e)`, where the handler may raise again.
  abbrev pub rescue : Result A → (A → Exec W B) → (Exception → Exec W B) → Exec W B
  rescue (ok a) f handler w = f a w
  rescue (raise e) f handler w = handler e w

module _ {W A : Type 0} where
  abbrev pub catch : Exec W A → (Exception → Exec W A) → Exec W A
  catch m handler w = let (r, w') = m w in rescue r (λ a w. (ok a, w)) handler w'

-- A chain returns only if its first call does.
module _ {W A B : Type 0} where
  pub bind-returns :
      (m : Exec W A) (f : A → Exec W B) (w w' : W) {b : B}
      → (m >>= f) w ≡ (ok b, w')
      → (a : A) × (v : W) × (m w ≡ (ok a, v)) × (f a v ≡ (ok b, w'))
  bind-returns m f w w' {b} h = returned (m w) refl h
    where
      returned :
          (r : Result A × W)
          → m w ≡ r
          → resume r.0 f r.1 ≡ (ok b, w')
          → (a : A) × (v : W) × (m w ≡ (ok a, v)) × (f a v ≡ (ok b, w'))
      returned (ok a, v) p q = (a, v, p, q)
      returned (raise e, v) p q = absurd (ground arith)

  pub lift-returns :
      (r : Result A) (f : A → Exec W B) (w w' : W) {b : B}
      → (lift r >>= f) w ≡ (ok b, w')
      → (a : A) × (r ≡ ok a) × (f a w ≡ (ok b, w'))
  unfolding lift
  lift-returns (ok a) f w w' h = (a, refl, h)
  lift-returns (raise e) f w w' h = absurd (ground arith)

module _ {W A : Type 0} where
  pub lift-ok : (r : Result A) (w w' : W) {a : A} → lift r w ≡ (ok a, w') → (r ≡ ok a) × (w ≡ w')
  unfolding lift
  lift-ok r w w' h = (ap (λ t. t.0) h, ap (λ t. t.1) h)
